-- ===== src/Levels/Climbing.antt =====
-- services/levels-service/internal/service/activity_service.go: which level is reached, and that
-- every level that a score reaches is reached in the end.
use metaverse_rang_microserv.Common.{
  ℕ, zero, suc, ◌+◌, ◌≤◌, ◌≡◌, refl, ap, ◌∙◌, true, false, Option, none, some, List, [], ◌∷◌, ◌++◌,
  arith, ltb, Bool-cases, Option-cases, inl, inr,
}
use metaverse_rang_microserv.Common.Table.{select, count}
use metaverse_rang_microserv.Common.Table.Laws.{
  count-append, count_single, select-update, select-test,
}
use metaverse_rang_microserv.Common.Server.{Result, Result-cases, err, Server, ok}
use metaverse_rang_microserv.Features.Client.Port.{WalletPort}
use metaverse_rang_microserv.Levels.Rows.{
  wallet_refused, UserLog, Level, LevelUser, ReceivedLevelPrize, LevelStore, LevelError, log_of,
  has_level, has_received, level_prize_of, highest, total_score, usable_rate, prize_credits,
}
use metaverse_rang_microserv.Levels.{
  is_reached, credit_all, update_log, update_user, attach_level, record_received, calculate_score,
  update_score, apply_level_prize, pay_level_prize, award_level_prize, update_activity_score,
}
use metaverse_rang_microserv.Levels.Awards.{scored}
use metaverse_rang_microserv.Levels.Reach.{count-lt, highest-none}

-- the level that is attached, if any
unfoldable attached : {W : Type 0} → ℕ → Option Level → LevelStore W → LevelStore W
attached u none t = t
attached u (some m) t = attach_level u m.id t

abbrev level_id : Option Level → Option ℕ
level_id none = none
level_id (some m) = some m.id

module _ {W : Type 0} (port : WalletPort W) where
  -- the server after UpdateActivityScore is called as often as `n` says, whatever it answers
  unfoldable pub climb : ℕ → ℕ → Server (LevelStore W) → Server (LevelStore W)
  climb zero u s = s
  climb (suc n) u s = climb n u (update_activity_score port u s).1

  award_level_prize-runs :
      (u id : ℕ) (s : Server (LevelStore W))
      → ((n : ℕ) → s.fails n ≡ false)
      → (r : Result LevelError (Unit {0})) × ((w : W) × ((rec : List ReceivedLevelPrize) × ((n : ℕ)
              × (award_level_prize port u id s ≡ (
                r,
                record s { tables = record s.tables { wallets = w; received = rec }; calls = n },
              )))))
  unfolding award_level_prize pay_level_prize apply_level_prize record_received
  award_level_prize-runs u id s up =
      elim (Option-cases (select (level_prize_of id) s.tables.level_prizes)) [
        | inl missing ↦ (
          ok tt,
          (
            s.tables.wallets,
            (s.tables.received, (s.calls + 1, ground (arith, up s.calls, missing))),
          ),
        )
        | inr (prize, offers) ↦
            elim (Bool-cases (ltb 0 (count (has_received u prize.id) s.tables.received))) [
              | inl again ↦ (
                ok tt,
                (
                  s.tables.wallets,
                  (
                    s.tables.received,
                    (s.calls + 2, ground (arith, up s.calls, up (s.calls + 1), offers, again)),
                  ),
                ),
              )
              | inr fresh ↦
                  let credits = prize_credits prize (usable_rate s.tables.variable_rate) in
                  let paid = credit_all port u credits s.tables.wallets in
                  elim (Bool-cases paid.0) [
                    | inl takes ↦ (
                      ok tt,
                      (
                        paid.1,
                        (
                          s.tables.received ++ (record { user_id = u; prize_id = prize.id } ∷ []),
                          (
                            s.calls + 4,
                            ground (
                              arith,
                              up s.calls,
                              up (s.calls + 1),
                              up (s.calls + 2),
                              up (s.calls + 3),
                              offers,
                              fresh,
                              takes,
                            ),
                          ),
                        ),
                      ),
                    )
                    | inr refuses ↦ (
                      err wallet_refused,
                      (
                        paid.1,
                        (
                          s.tables.received,
                          (
                            s.calls + 3,
                            ground (
                              arith,
                              up s.calls,
                              up (s.calls + 1),
                              up (s.calls + 2),
                              offers,
                              fresh,
                              refuses,
                            ),
                          ),
                        ),
                      ),
                    )
                  ]
            ]
      ]

  update_activity_score-stays :
      (u : ℕ) (l : UserLog) (s : Server (LevelStore W))
      → ((n : ℕ) → s.fails n ≡ false)
      → select (log_of u) s.tables.user_logs ≡ some l
      → highest (is_reached u (total_score l) s.tables) s.tables.levels ≡ none
      → update_activity_score port u s ≡ (
        ok (total_score l, none),
        record s { tables = scored port u (total_score l) s.tables; calls = s.calls + 4 },
      )
  unfolding update_activity_score calculate_score update_score scored update_log update_user
  update_activity_score-stays u l s up logged done =
      ground (arith, up s.calls, up (s.calls + 1), up (s.calls + 2), up (s.calls + 3), logged, done)

  update_activity_score-pays :
      (u : ℕ) (l : UserLog) (m : Level) (s after : Server (LevelStore W))
      → ((n : ℕ) → s.fails n ≡ false)
      → select (log_of u) s.tables.user_logs ≡ some l
      → highest (is_reached u (total_score l) s.tables) s.tables.levels ≡ some m
      → award_level_prize port u m.id (record s {
        tables = attach_level u m.id (scored port u (total_score l) s.tables);
        calls = s.calls + 5;
      })
        ≡ (ok tt, after)
      → (update_activity_score port u s).1 ≡ after
  unfolding update_activity_score calculate_score update_score scored attach_level update_log
      update_user
  update_activity_score-pays u l m s after up logged reaches runs = ground (
    arith,
    up s.calls,
    up (s.calls + 1),
    up (s.calls + 2),
    up (s.calls + 3),
    up (s.calls + 4),
    logged,
    reaches,
    runs,
  )

  update_activity_score-stops :
      (u : ℕ) (l : UserLog) (m : Level) (s after : Server (LevelStore W)) (e : LevelError)
      → ((n : ℕ) → s.fails n ≡ false)
      → select (log_of u) s.tables.user_logs ≡ some l
      → highest (is_reached u (total_score l) s.tables) s.tables.levels ≡ some m
      → award_level_prize port u m.id (record s {
        tables = attach_level u m.id (scored port u (total_score l) s.tables);
        calls = s.calls + 5;
      })
        ≡ (err e, after)
      → (update_activity_score port u s).1 ≡ after
  unfolding update_activity_score calculate_score update_score scored attach_level update_log
      update_user
  update_activity_score-stops u l m s after e up logged reaches runs = ground (
    arith,
    up s.calls,
    up (s.calls + 1),
    up (s.calls + 2),
    up (s.calls + 3),
    up (s.calls + 4),
    logged,
    reaches,
    runs,
  )

  update_activity_score-rises :
      (u : ℕ) (l : UserLog) (m : Level) (s : Server (LevelStore W))
      → ((n : ℕ) → s.fails n ≡ false)
      → select (log_of u) s.tables.user_logs ≡ some l
      → highest (is_reached u (total_score l) s.tables) s.tables.levels ≡ some m
      → (w : W) × ((rec : List ReceivedLevelPrize) × ((n : ℕ) × ((update_activity_score port u s).1
              ≡ record s {
                tables = record (attach_level u m.id (scored port u (total_score l) s.tables)) {
                  wallets = w;
                  received = rec;
                };
                calls = n;
              })))
  update_activity_score-rises u l m s up logged reaches =
      let s' : Server (LevelStore W) = record s {
        tables = attach_level u m.id (scored port u (total_score l) s.tables);
        calls = s.calls + 5;
      } in
      let (r, (w, (rec, (n, runs)))) = award_level_prize-runs u m.id s' up in
      let after : Server (LevelStore W) = record s' {
        tables = record s'.tables { wallets = w; received = rec };
        calls = n;
      } in
      (
        w,
        (
          rec,
          (
            n,
            elim (Result-cases r) [
              | inl (e, is) ↦
                  update_activity_score-stops u l m s after e up logged reaches
                    (runs ∙ ap (λ x. (x, after)) is)
              | inr (x, is) ↦
                  update_activity_score-pays u l m s after up logged reaches
                    (runs ∙ ap (λ x. (x, after)) is)
            ],
          ),
        ),
      )

  -- the log of a user after the score is recorded
  select-scored :
      (u score : ℕ) (l : UserLog) (t : LevelStore W)
      → select (log_of u) t.user_logs ≡ some l
      → select (log_of u) (scored port u score t).user_logs ≡ some (record l { score = score })
  unfolding scored update_log update_user
  select-scored u score l t logged = ground (
    arith,
    logged,
    select-test (log_of u) t.user_logs l logged,
    select-update (log_of u) (log_of u) (λ r. record r { score = score }) t.user_logs (λ r. refl),
  )

  -- what was reached before, where a level is attached
  is_reached-attach :
      (u score : ℕ) (m l : Level) (t : LevelStore W)
      → is_reached u score (attach_level u m.id (scored port u score t)) l ≡ true
      → is_reached u score t l ≡ true
  unfolding attach_level scored update_log update_user
  is_reached-attach u score m l t h =
      let row : LevelUser = record { user_id = u; level_id = m.id } in
      ground (
        arith,
        h,
        count-append (has_level u l.id) t.level_users (row ∷ []),
        count_single (has_level u l.id) row,
      )

  is_reached-attach_self :
      (u score : ℕ) (m : Level) (t : LevelStore W)
      → is_reached u score (attach_level u m.id (scored port u score t)) m ≡ false
  unfolding attach_level scored update_log update_user
  is_reached-attach_self u score m t =
      let row : LevelUser = record { user_id = u; level_id = m.id } in
      ground (
        arith,
        count-append (has_level u m.id) t.level_users (row ∷ []),
        count_single (has_level u m.id) row,
      )

  -- On a server where no call fails, UpdateActivityScore called as often as there are levels that a
  -- user's score reaches and the user does not have ends with the user having every level that the
  -- score reaches, whatever the wallets answer.
  pub climb-reaches :
      (n u : ℕ) (l : UserLog) (s : Server (LevelStore W))
      → ((k : ℕ) → s.fails k ≡ false)
      → select (log_of u) s.tables.user_logs ≡ some l
      → count (is_reached u (total_score l) s.tables) s.tables.levels ≤ n
      → count (is_reached u (total_score l) (climb n u s).tables) (climb n u s).tables.levels ≡ 0
  unfolding climb total_score scored update_log update_user attach_level
  climb-reaches zero u l s up logged left = omega (arith, left)
  climb-reaches (suc n) u l s up logged left =
      let score = total_score l in
      elim (Option-cases (highest (is_reached u score s.tables) s.tables.levels)) [
        | inl done ↦
            let e = update_activity_score-stays u l s up logged done in
            let t : Server (LevelStore W) = record s {
              tables = scored port u score s.tables;
              calls = s.calls + 4;
            } in
            let fewer : count (is_reached u score s.tables) s.tables.levels ≤ n =
              omega (arith, highest-none (is_reached u score s.tables) s.tables.levels done) in
            ap
              (λ r. count (is_reached u score (climb n u r.1).tables) (climb n u r.1).tables.levels)
              e
            ∙ climb-reaches n u (record l { score = score }) t up
                (select-scored u score l s.tables logged) fewer
        | inr (m, reaches) ↦
            let (w, (rec, (calls, e))) = update_activity_score-rises u l m s up logged reaches in
            let t : Server (LevelStore W) = record s {
              tables = record (attach_level u m.id (scored port u score s.tables)) {
                wallets = w;
                received = rec;
              };
              calls = calls;
            } in
            let fewer : count (is_reached u score t.tables) s.tables.levels ≤ n = omega (
              arith,
              left,
              count-lt (is_reached u score s.tables) (is_reached u score t.tables) s.tables.levels m
                  (λ k h. is_reached-attach u score m k s.tables h)
                  (is_reached-attach_self u score m s.tables) reaches,
            ) in
            ap (λ r. count (is_reached u score (climb n u r).tables) (climb n u r).tables.levels) e
            ∙ climb-reaches n u (record l { score = score }) t up
                (select-scored u score l s.tables logged) fewer
      ]
