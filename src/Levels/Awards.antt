-- ===== src/Levels/Awards.antt =====
-- services/levels-service/internal/service/activity_service.go and prize_award.go: what a user gets on
-- reaching a level.
use metaverse_rang_microserv.Common.{
  sym, ◌/◌, ◌==◌, ℕ, ◌+◌, ◌≡◌, ap, ◌∙◌, Bool, true, false, some, List, [], ◌∷◌, arith,
  if◌then◌else◌, Bool-cases,
}
use metaverse_rang_microserv.Common.Table.{select, count}
use metaverse_rang_microserv.Common.Table.Laws.{count-append, count_single}
use metaverse_rang_microserv.Common.Server.{Server, ok}
use metaverse_rang_microserv.Commercial.Wallet.{Asset, same_asset}
use metaverse_rang_microserv.Features.Client.Port.{WalletPort, is_at}
use metaverse_rang_microserv.Levels.Rows.{
  ReceivedLevelPrize, UserLog, Level, LevelPrize, LevelStore, log_of, has_received, level_prize_of,
  highest, total_score, usable_rate, prize_credits,
}
use metaverse_rang_microserv.Levels.{
  is_reached, credit_all, update_log, update_user, attach_level, record_received, calculate_score,
  update_score, apply_level_prize, pay_level_prize, award_level_prize, update_activity_score,
}

-- what credits add to a balance of a user
unfoldable pub gains : ℕ → List (Asset × ℕ) → ℕ → Asset → ℕ
gains u [] v b = 0
gains u ((a, x) ∷ l) v b = (if is_at u a v b then x else 0) + gains u l v b

-- what a prize is worth in each asset, with its amount in rial divided by the rate of PSC
unfoldable pub worth : LevelPrize → ℕ → Asset → ℕ
worth p rate Asset.psc = p.psc / rate
worth p rate Asset.blue = p.blue
worth p rate Asset.red = p.red
worth p rate Asset.yellow = p.yellow
worth p rate Asset.effect = p.effect
worth p rate Asset.satisfaction = p.satisfaction
worth p rate _ = 0

pub gains-worth :
    (u : ℕ) (p : LevelPrize) (rate v : ℕ) (b : Asset)
    → gains u (prize_credits p rate) v b ≡ (if v == u then worth p rate b else 0)
unfolding gains prize_credits worth is_at same_asset
gains-worth u p rate v Asset.psc = ground arith
gains-worth u p rate v Asset.irr = ground arith
gains-worth u p rate v Asset.red = ground arith
gains-worth u p rate v Asset.blue = ground arith
gains-worth u p rate v Asset.yellow = ground arith
gains-worth u p rate v Asset.satisfaction = ground arith
gains-worth u p rate v Asset.effect = ground arith
gains-worth u p rate v Asset.other = ground arith

module _ {W : Type 0} (port : WalletPort W) where
  pub credit_all-gains :
      (u : ℕ) (l : List (Asset × ℕ)) (w : W) (v : ℕ) (b : Asset)
      → (credit_all port u l w).0 ≡ true
      → port.funds v b (credit_all port u l w).1 ≡ port.funds v b w + gains u l v b
  unfolding credit_all gains
  credit_all-gains u [] w v b done = omega arith
  credit_all-gains u ((a, x) ∷ l) w v b done = ground (
    arith,
    port.add_moves u a x w v b,
    credit_all-gains u l (port.add_balance u a x w).1 v b,
    done,
    Bool-cases (port.add_balance u a x w).0,
  )

  -- the tables after a score and a level are recorded, and after its prize is
  unfoldable pub scored : ℕ → ℕ → LevelStore W → LevelStore W
  unfolding update_log update_user
  scored u score t = update_user u score (update_log u (λ l. record l { score = score }) t)

  abbrev pub credits_of : ℕ → LevelPrize → LevelStore W → Bool × W
  credits_of u prize t =
      credit_all port u (prize_credits prize (usable_rate t.variable_rate)) t.wallets

  unfoldable pub awarded : ℕ → LevelPrize → LevelStore W → LevelStore W
  unfolding record_received
  awarded u prize t = record_received u prize.id (record t { wallets = (credits_of u prize t).1 })

  -- On a server where no call fails, the score of a user becomes the whole part of the sum of its
  -- parts. Where that reaches levels that the user does not have, the highest of them is attached;
  -- where its prize was not received and the wallets take all its credits, the user gets what it is
  -- worth in each asset and no other balance moves, and the prize is recorded as received: awarding
  -- the level once more changes no table.
  pub update_activity_score_awards :
      (u : ℕ) (l : UserLog) (next : Level) (prize : LevelPrize) (s : Server (LevelStore W))
      → ((n : ℕ) → s.fails n ≡ false)
      → select (log_of u) s.tables.user_logs ≡ some l
      → highest (is_reached u (total_score l) s.tables) s.tables.levels ≡ some next
      → select (level_prize_of next.id) s.tables.level_prizes ≡ some prize
      → count (has_received u prize.id) s.tables.received ≡ 0
      → (credits_of u prize s.tables).0 ≡ true
      → let updated = update_activity_score port u s in
        (updated.0 ≡ ok (total_score l, some next.id))
        × (updated.1.tables
            ≡ awarded u prize (attach_level u next.id (scored u (total_score l) s.tables)))
        × ((v : ℕ) (b : Asset)
            → port.funds v b updated.1.tables.wallets
              ≡ port.funds v b s.tables.wallets
                + (if v == u then worth prize (usable_rate s.tables.variable_rate) b else 0))
        × ((award_level_prize port u next.id updated.1).1.tables ≡ updated.1.tables)
  unfolding update_activity_score calculate_score update_score award_level_prize pay_level_prize
      apply_level_prize awarded scored attach_level record_received update_log update_user
  update_activity_score_awards u l next prize s up logged reaches offers fresh takes =
      let runs : update_activity_score port u s ≡ (
        ok (total_score l, some next.id),
        record s {
          tables = awarded u prize (attach_level u next.id (scored u (total_score l) s.tables));
          calls = s.calls + 9;
        },
      ) =
        ground (
          arith,
          up s.calls,
          up (s.calls + 1),
          up (s.calls + 2),
          up (s.calls + 3),
          up (s.calls + 4),
          up (s.calls + 5),
          up (s.calls + 6),
          up (s.calls + 7),
          up (s.calls + 8),
          logged,
          reaches,
          offers,
          fresh,
          takes,
        ) in
      let row : ReceivedLevelPrize = record { user_id = u; prize_id = prize.id } in
      let after : LevelStore W =
        awarded u prize (attach_level u next.id (scored u (total_score l) s.tables)) in
      let again : (award_level_prize port u next.id
            (record s { tables = after; calls = s.calls + 9 })).1.tables
          ≡ after =
        ground (
          arith,
          up (s.calls + 9),
          up (s.calls + 10),
          offers,
          count-append (has_received u prize.id) s.tables.received (row ∷ []),
          count_single (has_received u prize.id) row,
        ) in
      (
        ap (λ r. r.0) runs,
        ap (λ r. r.1.tables) runs,
        λ v b.
            ap (λ r. port.funds v b r.1.tables.wallets) runs
            ∙ credit_all-gains u (prize_credits prize (usable_rate s.tables.variable_rate))
                s.tables.wallets v b takes
            ∙ ap (λ g. port.funds v b s.tables.wallets + g)
                (gains-worth u prize (usable_rate s.tables.variable_rate) v b),
        ap (λ r. (award_level_prize port u next.id r.1).1.tables) runs
            ∙ again
            ∙ sym (ap (λ r. r.1.tables) runs),
      )
