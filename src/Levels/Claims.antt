-- ===== src/Levels/Claims.antt =====
-- services/levels-service/internal/service/level_service.go: ClaimPrize.
use metaverse_rang_microserv.Common.{
  Bool, ◌/◌, ℕ, ◌+◌, ◌≤◌, ◌≡◌, sym, ap, ◌∙◌, true, false, some, [], ◌∷◌, arith, Option-cases, inl,
  inr,
}
use metaverse_rang_microserv.Common.Table.{select, count}
use metaverse_rang_microserv.Common.Table.Laws.{count-append, count_single}
use metaverse_rang_microserv.Common.Server.{Server, ok, err}
use metaverse_rang_microserv.Commercial.Wallet.{Asset}
use metaverse_rang_microserv.Features.Client.Port.{WalletPort, KeepsRefused, is_at_self}
use metaverse_rang_microserv.Levels.Rows.{
  LevelPrize, ReceivedLevelPrize, LevelStore, LevelError, wallet_refused, prize_claimed,
  has_received, level_prize_of, usable_rate, prize_credits,
}
use metaverse_rang_microserv.Levels.{
  credit_all, record_received, apply_level_prize, pay_level_prize, claim_level_prize,
}
use metaverse_rang_microserv.Levels.Awards.{gains, credit_all-gains, credits_of, awarded}

module _ {W : Type 0} (port : WalletPort W) where
  -- On a server where no call fails, a prize that a user has not received is claimed whether or not
  -- the user has its level: where the wallets take all its credits these are made and the prize is
  -- recorded as received, and claiming it again is refused with every table as it is.
  pub claim_level_prize_pays :
      (u level_id : ℕ) (prize : LevelPrize) (s : Server (LevelStore W))
      → ((n : ℕ) → s.fails n ≡ false)
      → select (level_prize_of level_id) s.tables.level_prizes ≡ some prize
      → count (has_received u prize.id) s.tables.received ≡ 0
      → (credits_of port u prize s.tables).0 ≡ true
      → let claimed = claim_level_prize port u level_id s in
        let again = claim_level_prize port u level_id claimed.1 in
        (claimed.0 ≡ ok tt)
        × (claimed.1.tables ≡ awarded port u prize s.tables)
        × ((v : ℕ) (b : Asset)
            → port.funds v b claimed.1.tables.wallets
              ≡ port.funds v b s.tables.wallets
                + gains u (prize_credits prize (usable_rate s.tables.variable_rate)) v b)
        × ((e : LevelError) × (again.0 ≡ err e))
        × (again.1.tables ≡ claimed.1.tables)
  unfolding claim_level_prize pay_level_prize apply_level_prize awarded record_received
  claim_level_prize_pays u level_id prize s up offers fresh takes =
      let runs : claim_level_prize port u level_id s
          ≡ (ok tt, record s { tables = awarded port u prize s.tables; calls = s.calls + 4 }) =
        ground (
          arith,
          up s.calls,
          up (s.calls + 1),
          up (s.calls + 2),
          up (s.calls + 3),
          offers,
          fresh,
          takes,
        ) in
      let row : ReceivedLevelPrize = record { user_id = u; prize_id = prize.id } in
      let refused : claim_level_prize port u level_id
            (record s { tables = awarded port u prize s.tables; calls = s.calls + 4 })
          ≡ (
            err prize_claimed,
            record s { tables = awarded port u prize s.tables; calls = s.calls + 6 },
          ) =
        ground (
          arith,
          up (s.calls + 4),
          up (s.calls + 5),
          offers,
          count-append (has_received u prize.id) s.tables.received (row ∷ []),
          count_single (has_received u prize.id) row,
        ) in
      let whole = ap (λ r. claim_level_prize port u level_id r.1) runs ∙ refused in
      (
        ap (λ r. r.0) runs,
        ap (λ r. r.1.tables) runs,
        λ v b.
            ap (λ r. port.funds v b r.1.tables.wallets) runs
            ∙ credit_all-gains port u (prize_credits prize (usable_rate s.tables.variable_rate))
                s.tables.wallets v b takes,
        (prize_claimed, ap (λ r. r.0) whole),
        ap (λ r. r.1.tables) whole ∙ sym (ap (λ r. r.1.tables) runs),
      )

  -- what a claim asks of the wallets first: the PSC of the prize, then its blue
  abbrev pub psc_of : ℕ → LevelPrize → ℕ → W → Bool × W
  psc_of u prize rate w = port.add_balance u Asset.psc (prize.psc / rate) w

  abbrev pub blue_of : ℕ → LevelPrize → W → Bool × W
  blue_of u prize w = port.add_balance u Asset.blue prize.blue w

  claim_level_prize-stops :
      (u level_id : ℕ) (prize : LevelPrize) (s : Server (LevelStore W))
      → ((n : ℕ) → s.fails n ≡ false)
      → select (level_prize_of level_id) s.tables.level_prizes ≡ some prize
      → count (has_received u prize.id) s.tables.received ≡ 0
      → let psc = psc_of u prize (usable_rate s.tables.variable_rate) s.tables.wallets in
        (psc.0 ≡ true)
        → ((blue_of u prize psc.1).0 ≡ false)
        → claim_level_prize port u level_id s ≡ (
          err wallet_refused,
          record s {
            tables = record s.tables { wallets = (blue_of u prize psc.1).1 };
            calls = s.calls + 3;
          },
        )
  unfolding claim_level_prize pay_level_prize apply_level_prize credit_all prize_credits
  claim_level_prize-stops u level_id prize s up offers fresh pays refuses =
      ground (arith, up s.calls, up (s.calls + 1), up (s.calls + 2), offers, fresh, pays, refuses)

  stopped-funds :
      KeepsRefused port
      → (u : ℕ) (prize : LevelPrize) (rate : ℕ) (w : W) → (psc_of u prize rate w).0 ≡ true
      → (blue_of u prize (psc_of u prize rate w).1).0 ≡ false
      → port.funds u Asset.psc (blue_of u prize (psc_of u prize rate w).1).1
        ≡ port.funds u Asset.psc w + prize.psc / rate
  stopped-funds keeps u prize rate w pays refuses = ground (
    arith,
    port.add_moves u Asset.psc (prize.psc / rate) w u Asset.psc pays,
    keeps.add_refused u Asset.blue prize.blue (psc_of u prize rate w).1 u Asset.psc refuses,
    is_at_self u Asset.psc,
  )

  -- On wallets where a call that errs has moved nothing, where the PSC of a prize is credited and its
  -- blue is refused, the claim errs with the PSC credited and the prize not recorded; where the same
  -- happens to the next claim, the PSC is credited once more.
  pub claim_level_prize_repeats :
      KeepsRefused port
      → (u level_id : ℕ) (prize : LevelPrize) (s : Server (LevelStore W))
      → ((n : ℕ) → s.fails n ≡ false)
      → select (level_prize_of level_id) s.tables.level_prizes ≡ some prize
      → count (has_received u prize.id) s.tables.received ≡ 0
      → let rate = usable_rate s.tables.variable_rate in
        let psc = psc_of u prize rate s.tables.wallets in
        let blue = blue_of u prize psc.1 in
        let psc_again = psc_of u prize rate blue.1 in
        let blue_again = blue_of u prize psc_again.1 in
        (psc.0 ≡ true)
        → (blue.0 ≡ false)
        → (psc_again.0 ≡ true)
        → (blue_again.0 ≡ false)
        → let claimed = claim_level_prize port u level_id s in
          let again = claim_level_prize port u level_id claimed.1 in
          (claimed.0 ≡ err wallet_refused)
          × (again.0 ≡ err wallet_refused)
          × (again.1.tables.received ≡ s.tables.received)
          × (port.funds u Asset.psc claimed.1.tables.wallets
              ≡ port.funds u Asset.psc s.tables.wallets + prize.psc / rate)
          × (port.funds u Asset.psc again.1.tables.wallets
              ≡ port.funds u Asset.psc s.tables.wallets + prize.psc / rate + prize.psc / rate)
  claim_level_prize_repeats keeps u level_id prize s up offers fresh pays refuses pays_again
        refuses_again =
      let rate = usable_rate s.tables.variable_rate in
      let w = (blue_of u prize (psc_of u prize rate s.tables.wallets).1).1 in
      let runs = claim_level_prize-stops u level_id prize s up offers fresh pays refuses in
      let runs_again =
        claim_level_prize-stops u level_id prize
          (record s { tables = record s.tables { wallets = w }; calls = s.calls + 3 }) up offers
          fresh pays_again refuses_again in
      let whole = ap (λ r. claim_level_prize port u level_id r.1) runs ∙ runs_again in
      let once = stopped-funds keeps u prize rate s.tables.wallets pays refuses in
      (
        ap (λ r. r.0) runs,
        ap (λ r. r.0) whole,
        ap (λ r. r.1.tables.received) whole,
        ap (λ r. port.funds u Asset.psc r.1.tables.wallets) runs ∙ once,
        ap (λ r. port.funds u Asset.psc r.1.tables.wallets) whole
            ∙ stopped-funds keeps u prize rate w pays_again refuses_again
            ∙ ap (λ n. n + prize.psc / rate) once,
      )

  -- No prize is recorded twice for a user: where none is, none is after ClaimPrize, whatever calls
  -- fail.
  pub claim_level_prize-once :
      (u level_id : ℕ) (s : Server (LevelStore W)) (v p : ℕ)
      → count (has_received v p) s.tables.received ≤ 1
      → count (has_received v p) (claim_level_prize port u level_id s).1.tables.received ≤ 1
  unfolding claim_level_prize pay_level_prize apply_level_prize record_received
  claim_level_prize-once u level_id s v p once =
      elim (Option-cases (select (level_prize_of level_id) s.tables.level_prizes)) [
        | inl missing ↦ ground (arith, missing, once)
        | inr (prize, offers) ↦
            let row : ReceivedLevelPrize = record { user_id = u; prize_id = prize.id } in
            ground (
              arith,
              offers,
              once,
              count-append (has_received v p) s.tables.received (row ∷ []),
              count_single (has_received v p) row,
            )
      ]
