-- ===== src/Levels.antt =====
-- services/levels-service/internal/service/activity_service.go, level_service.go and prize_award.go
-- with the repositories: the scores of the users, their levels and the prizes of the levels. A part of
-- a score is in ten-thousandths, times are in minutes and the clock stands still while a handler runs,
-- a prize is in quanta of the wallets and its quotient by the rate is a whole number of them. The
-- columns that are only shown and the table user_events are left out.
pub mod Rows
pub mod Awards
pub mod Claims
pub mod Reach
pub mod Climbing
pub mod Hours
mod Tests
use metaverse_rang_microserv.Common.{
  ℕ, ◌+◌, ◌-◌, ◌*◌, ◌/◌, Bool, true, false, not, ◌&&◌, ◌||◌, Option, none, some, List, [], ◌∷◌,
  ◌++◌, ltb, leb, ◌==◌, if◌then◌else◌,
}
use metaverse_rang_microserv.Common.Table.{select, count, sum, update}
use metaverse_rang_microserv.Common.Server.{
  Server, Action, ok, err, pure, raise, or_raise, query, query_or, exec, try_exec, raise_if,
  transaction, ◌>>=◌, ◌>>◌,
}
use metaverse_rang_microserv.Commercial.Wallet.{Asset}
use metaverse_rang_microserv.Features.Client.Port.{WalletPort}
use metaverse_rang_microserv.Levels.Rows.{
  Follower, Level, LevelError, LevelPrize, LevelStore, LevelUser, ReceivedLevelPrize, ScoredUser,
  TradeRow, UserActivity, UserLog, default_psc_rate, has_level, has_received, highest, hours_score,
  invalid_rate, latest_activity, level_db, level_prize_of, log_of, min_irr_amount, no_activity,
  no_log, prize_claimed, prize_credits, prize_not_found, total_minutes, total_score, usable_rate,
  wallet_refused,
}

module _ {W : Type 0} where
  -- calls of AddBalance one after the other, up to the first that errs
  unfoldable pub credit_all : WalletPort W → ℕ → List (Asset × ℕ) → W → Bool × W
  credit_all port u [] w = (true, w)
  credit_all port u ((a, x) ∷ l) w =
      let (done, w') = port.add_balance u a x w in
      elim done [ true ↦ credit_all port u l w' | false ↦ (false, w') ]

  unfoldable pub update_log : ℕ → (UserLog → UserLog) → LevelStore W → LevelStore W
  update_log user_id f t = record t { user_logs = update (log_of user_id) f t.user_logs }

  unfoldable pub update_user : ℕ → ℕ → LevelStore W → LevelStore W
  update_user user_id score t = record t {
    users = update (λ u. u.id == user_id) (λ u. record u { score = score }) t.users;
  }

  unfoldable pub attach_level : ℕ → ℕ → LevelStore W → LevelStore W
  attach_level user_id level_id t = record t {
    level_users = t.level_users ++ (record { user_id = user_id; level_id = level_id } ∷ []);
  }

  unfoldable pub record_received : ℕ → ℕ → LevelStore W → LevelStore W
  record_received user_id prize_id t = record t {
    received = t.received ++ (record { user_id = user_id; prize_id = prize_id } ∷ []);
  }

  -- the levels at or below a score that a user does not have
  abbrev pub is_reached : ℕ → ℕ → LevelStore W → Level → Bool
  is_reached user_id score t l =
      leb l.score score && (count (has_level user_id l.id) t.level_users == 0)

  -- `CalculateScore`
  unfoldable pub calculate_score : ℕ → Action (LevelStore W) LevelError ℕ
  calculate_score user_id = do
    row ← query level_db (λ t. select (log_of user_id) t.user_logs)
    l ← or_raise row no_log
    pure (total_score l)

  -- `UpdateScore`
  unfoldable pub update_score : ℕ → ℕ → Action (LevelStore W) LevelError (Unit {0})
  update_score user_id score = transaction (
      exec level_db (update_log user_id (λ l. record l { score = score }))
      >> exec level_db (update_user user_id score))

  -- `UpdateActivity`
  unfoldable pub end_activity : ℕ → ℕ → LevelStore W → LevelStore W
  end_activity id minutes t = record t {
    activities =
        update (λ a. a.id == id) (λ a. record a { end = some t.now; total = minutes }) t.activities;
  }

  module _ (port : WalletPort W) where
    -- `applyLevelPrizeBalances`
    unfoldable pub apply_level_prize :
        ℕ → LevelPrize → ℕ → Action (LevelStore W) LevelError (Unit {0})
    apply_level_prize user_id prize rate s =
        let (done, w) = credit_all port user_id (prize_credits prize rate) s.tables.wallets in
        raise_if (not done) wallet_refused (record s { tables = record s.tables { wallets = w } })

    -- the prize that was not received: its rate, its credits and its receipt
    unfoldable pub pay_level_prize : ℕ → LevelPrize → Action (LevelStore W) LevelError (Unit {0})
    unfolding apply_level_prize
    pay_level_prize user_id prize = do
      rate ← query_or none (λ t. t.variable_rate)
      apply_level_prize user_id prize (usable_rate rate)
      exec level_db (record_received user_id prize.id)

    -- a prize of a level that was just reached; a read that fails is no prize, and none received
    unfoldable pub award_level_prize : ℕ → ℕ → Action (LevelStore W) LevelError (Unit {0})
    unfolding pay_level_prize
    award_level_prize user_id level_id = do
      row ← query_or none (λ t. select (level_prize_of level_id) t.level_prizes)
      elim row [
        | none ↦ pure tt
        | some prize ↦ (do
          received ← query_or false (λ t. ltb 0 (count (has_received user_id prize.id) t.received))
          if received then pure tt else pay_level_prize user_id prize)
      ]

    -- `UpdateActivityScore`: the score, and the level that was reached
    unfoldable pub update_activity_score : ℕ → Action (LevelStore W) LevelError (ℕ × Option ℕ)
    unfolding calculate_score update_score award_level_prize attach_level
    update_activity_score user_id = do
      score ← calculate_score user_id
      update_score user_id score
      next ← query_or none (λ t. highest (is_reached user_id score t) t.levels)
      elim next [
        | none ↦ pure (score, none)
        | some l ↦ (do
          exec level_db (attach_level user_id l.id)
          award_level_prize user_id l.id
          pure (score, some l.id))
      ]

    -- `recalculateAndUpdateScore`
    unfoldable pub recalculate : ℕ → Action (LevelStore W) LevelError (Unit {0})
    recalculate user_id = do update_activity_score user_id >>= λ r. pure tt

    -- `ClaimPrize`
    unfoldable pub claim_level_prize : ℕ → ℕ → Action (LevelStore W) LevelError (Unit {0})
    unfolding pay_level_prize
    claim_level_prize user_id level_id = do
      row ← query level_db (λ t. select (level_prize_of level_id) t.level_prizes)
      prize ← or_raise row prize_not_found
      received ← query level_db (λ t. ltb 0 (count (has_received user_id prize.id) t.received))
      raise_if received prize_claimed
      pay_level_prize user_id prize

    abbrev pub is_significant : ℕ → ℕ → TradeRow → Bool
    is_significant user_id rate r =
        (r.buyer_id == user_id || r.seller_id == user_id)
        && (ltb min_irr_amount r.irr_amount || ltb min_irr_amount (r.psc_amount * rate))

    -- `RecordTrade`, with 0 for an amount that cannot be read
    unfoldable pub record_trade : ℕ → ℕ → ℕ → Action (LevelStore W) LevelError (Unit {0})
    unfolding recalculate
    record_trade user_id irr psc = do
      row ← query_or none (λ t. t.variable_rate)
      let rate = usable_rate row
      (if ltb irr min_irr_amount && ltb (psc * rate) min_irr_amount then pure tt else (do
        trades ← query level_db (λ t. count (is_significant user_id rate) t.trades)
        exec level_db
            (update_log user_id (λ l. record l { transactions_count = trades * 2 * 10_000 }))
        recalculate user_id))

    -- `RecordDeposit`: `amount` is the amount times 0.0001, or none where it cannot be read
    unfoldable pub record_deposit : ℕ → Option ℕ → Action (LevelStore W) LevelError (Unit {0})
    unfolding recalculate
    record_deposit user_id amount = do
      increment ← or_raise amount level_db
      exec level_db
          (update_log user_id (λ l. record l { deposit_amount = l.deposit_amount + increment }))
      recalculate user_id

    -- `RecordFollower`
    unfoldable pub record_new_follower : ℕ → Action (LevelStore W) LevelError (Unit {0})
    unfolding recalculate
    record_new_follower user_id = do
      total ← query level_db (λ t. count (λ f. f.followed_id == user_id) t.followers)
      exec level_db (update_log user_id (λ l. record l { followers_count = total * 1000 }))
      recalculate user_id

    -- `HourReached`
    unfoldable pub hour_reached : ℕ → Action (LevelStore W) LevelError (Unit {0})
    unfolding recalculate total_minutes
    hour_reached user_id = do
      total ← query level_db (λ t. total_minutes user_id t.activities)
      exec level_db (update_log user_id (λ l. record l { activity_hours = hours_score total }))
      recalculate user_id

    -- `LogLogout`
    unfoldable pub log_logout : ℕ → Action (LevelStore W) LevelError (Unit {0})
    unfolding hour_reached end_activity
    log_logout user_id = do
      row ← query level_db (λ t. latest_activity user_id t.activities)
      a ← or_raise row no_activity
      (λ s. exec level_db (end_activity a.id (s.tables.now - a.start)) s)
      hour_reached user_id

  -- `LogActivity`
  unfoldable pub log_activity : ℕ → Action (LevelStore W) LevelError ℕ
  log_activity user_id = do
    exec level_db (λ t. record t {
      activities =
          t.activities
          ++ (record {
            id = t.next_activity_id;
            user_id = user_id;
            start = t.now;
            end = none;
            total = 0;
          }
              ∷ []);
      next_activity_id = t.next_activity_id + 1;
    })
    λ s. (ok (s.tables.next_activity_id - 1), s)
