-- ===== src/Features/Profits.antt =====
-- services/features-service/internal/service/profit_service.go with
-- internal/repository/hourly_profit_repository.go: the withdrawal and the growth of the hourly
-- profits. An amount is in quanta of 10^-10, a stability is a whole number, times are in seconds and
-- the clock stands still while a handler runs. Land with properties has its row in features.
-- Notifications, logs and lists are left out.
pub mod Withdrawals
pub mod Growth
mod Tests
use metaverse_rang_microserv.Common.{
  ℕ, zero, suc, ◌+◌, ◌*◌, Bool, true, false, not, ◌&&◌, Option, none, some, List, [], ◌∷◌, ltb,
  ◌==◌, if◌then◌else◌,
}
use metaverse_rang_microserv.Common.Table.{select, select_all, update}
use metaverse_rang_microserv.Common.Server.{
  Server, Action, ok, err, pure, raise, or_raise, query, query_or, exec, try_exec, raise_if, ◌>>=◌,
  ◌>>◌,
}
use metaverse_rang_microserv.Commercial.Wallet.{Asset}
use metaverse_rang_microserv.Features.Client.Port.{WalletPort}
use metaverse_rang_microserv.Features.Fees.{Karbari}

pub record HourlyProfit : Type 0 where
  pub id : ℕ
  pub user_id : ℕ
  pub feature_id : ℕ
  pub asset : Asset
  pub amount : ℕ
  pub dead_line : ℕ
  pub updated_at : ℕ
  pub is_active : Bool

-- the columns of `feature_properties` that are read
pub record Properties : Type 0 where
  pub feature_id : ℕ
  pub karbari : Karbari
  pub stability : ℕ

-- the column withdraw_profit of `user_variables`
pub record WithdrawDays : Type 0 where
  pub user_id : ℕ
  pub days : ℕ

pub record ProfitStore (W : Type 0) : Type 0 where
  pub profits : List HourlyProfit
  pub properties : List Properties
  pub withdraw_days : List WithdrawDays
  pub wallets : W
  pub now : ℕ

pub data ProfitError : Type 0 where
  profit_not_found not_owner wallet_refused invalid_karbari profit_db : ProfitError

abbrev pub has_profit_id : ℕ → HourlyProfit → Bool
has_profit_id id p = p.id == id

abbrev pub of_land : ℕ → Properties → Bool
of_land feature_id p = p.feature_id == feature_id

-- 0.000041666 in quanta
abbrev pub hourly_profit_rate : ℕ
hourly_profit_rate = 416_660

abbrev pub three_hours : ℕ
three_hours = 10_800

-- the codes of the kinds of land that have a color
unfoldable pub same_karbari : Karbari → Karbari → Bool
same_karbari Karbari.maskoni Karbari.maskoni = true
same_karbari Karbari.tejari Karbari.tejari = true
same_karbari Karbari.amozeshi Karbari.amozeshi = true
same_karbari Karbari.other Karbari.other = true
same_karbari _ _ = false

unfoldable pub is_withdrawable : Karbari → Bool
is_withdrawable Karbari.other = false
is_withdrawable _ = true

-- the WHERE of `CalculateAndUpdateProfits`
unfoldable pub is_due : ℕ → HourlyProfit → Bool
is_due now p = ltb now p.dead_line && (ltb (p.updated_at + three_hours) now && p.is_active)

-- `LIMIT`
unfoldable pub limit : ℕ → List HourlyProfit → List HourlyProfit
limit zero l = []
limit (suc n) [] = []
limit (suc n) (p ∷ l) = p ∷ limit n l

module _ {W : Type 0} where
  -- `getUserVariableWithdrawProfit`, and 10 in place of 0
  unfoldable pub withdraw_profit_days : ℕ → Action (ProfitStore W) ProfitError ℕ
  withdraw_profit_days user_id = do
    row ← query_or none (λ t. select (λ d. d.user_id == user_id) t.withdraw_days)
    pure (elim row [ none ↦ 10 | some d ↦ if d.days == 0 then 10 else d.days ])

  unfoldable pub reset_rows : ℕ → ℕ → ProfitStore W → ProfitStore W
  reset_rows profit_id days t = record t {
    profits =
        update (has_profit_id profit_id)
          (λ p. record p { amount = 0; dead_line = t.now + days * 86400; updated_at = t.now })
          t.profits;
  }

  -- the rows of `GetAllByUserAndKarbari`
  unfoldable pub is_of : ℕ → Karbari → ProfitStore W → HourlyProfit → Bool
  is_of user_id karbari t p =
      p.user_id == user_id && elim (select (of_land p.feature_id) t.properties) [
        | none ↦ false
        | some l ↦ same_karbari l.karbari karbari
      ]

  module _ (port : WalletPort W) where
    -- a call of the commercial client whose error is an answer
    unfoldable pub credit_wallet : ℕ → Asset → ℕ → Action (ProfitStore W) ProfitError Bool
    credit_wallet user_id asset amount s =
        let (answer, w) = port.add_balance user_id asset amount s.tables.wallets in
        (ok answer, record s { tables = record s.tables { wallets = w } })

    unfoldable pub pay_profit_out : ℕ → HourlyProfit → Action (ProfitStore W) ProfitError (Unit {0})
    unfolding credit_wallet
    pay_profit_out user_id p =
        if ltb 0 p.amount
        then (credit_wallet user_id p.asset p.amount >>= λ paid. raise_if (not paid) wallet_refused)
        else pure tt

    unfoldable pub get_single_profit : ℕ → ℕ → Action (ProfitStore W) ProfitError HourlyProfit
    unfolding pay_profit_out withdraw_profit_days
    get_single_profit profit_id user_id = do
      row ← query profit_not_found (λ t. select (has_profit_id profit_id) t.profits)
      profit ← or_raise row profit_not_found
      raise_if (not (profit.user_id == user_id)) not_owner
      pay_profit_out user_id profit
      days ← withdraw_profit_days user_id
      exec profit_db (reset_rows profit_id days)
      again ← query_or none (λ t. select (has_profit_id profit_id) t.profits)
      pure (elim again [ none ↦ profit | some p ↦ p ])

    -- one round of the loop of `GetProfitsByApplication`, with the amount that it adds to the total;
    -- an error of the reset is only logged
    unfoldable pub withdraw_one : ℕ → ℕ → HourlyProfit → Action (ProfitStore W) ProfitError ℕ
    unfolding credit_wallet
    withdraw_one user_id days p =
        if ltb 0 p.amount
        then (credit_wallet user_id p.asset p.amount >>= λ paid.
            (if paid then (try_exec (reset_rows p.id days) >> pure p.amount) else pure 0))
        else (try_exec (reset_rows p.id days) >> pure 0)

    -- the chunks of 100 are taken one after the other, so that the rounds are those of the list
    unfoldable pub withdraw_each : ℕ → ℕ → List HourlyProfit → Action (ProfitStore W) ProfitError ℕ
    unfolding withdraw_one
    withdraw_each user_id days [] = pure 0
    withdraw_each user_id days (p ∷ ps) = do
      amount ← withdraw_one user_id days p
      rest ← withdraw_each user_id days ps
      pure (amount + rest)

    unfoldable pub get_profits_by_application : ℕ → Karbari → Action (ProfitStore W) ProfitError ℕ
    unfolding withdraw_each withdraw_profit_days
    get_profits_by_application user_id karbari = do
      raise_if (not (is_withdrawable karbari)) invalid_karbari
      days ← withdraw_profit_days user_id
      profits ← query profit_db (λ t. select_all (is_of user_id karbari t) t.profits)
      withdraw_each user_id days profits

  unfoldable pub grow_rows : ℕ → ℕ → ProfitStore W → ProfitStore W
  grow_rows profit_id increment t = record t {
    profits =
        update (has_profit_id profit_id)
          (λ p. record p { amount = p.amount + increment; updated_at = t.now }) t.profits;
  }

  -- whether the UPDATE went through
  unfoldable pub counted_exec :
      (ProfitStore W → ProfitStore W) → Action (ProfitStore W) ProfitError ℕ
  counted_exec f s = elim (s.fails s.calls) [
    | true ↦ (ok 0, record s { calls = s.calls + 1 })
    | false ↦ (ok 1, record s { tables = f s.tables; calls = s.calls + 1 })
  ]

  -- one round of the loop: 1 where the row grew
  unfoldable pub grow_one : HourlyProfit → Action (ProfitStore W) ProfitError ℕ
  unfolding counted_exec grow_rows
  grow_one p = do
    land ← query_or none (λ t. select (of_land p.feature_id) t.properties)
    elim land [
      | none ↦ pure 0
      | some l ↦ counted_exec (grow_rows p.id (l.stability * hourly_profit_rate))
    ]

  unfoldable pub grow_each : List HourlyProfit → Action (ProfitStore W) ProfitError ℕ
  unfolding grow_one
  grow_each [] = pure 0
  grow_each (p ∷ ps) = do one ← grow_one p; rest ← grow_each ps; pure (one + rest)

  unfoldable pub calculate_and_update_profits : Action (ProfitStore W) ProfitError ℕ
  unfolding grow_each
  calculate_and_update_profits = do
    due ← query profit_db (λ t. limit 100 (select_all (is_due t.now) t.profits))
    grow_each due

  -- the batches of `RunHourlyProfitCalculation` that are left
  unfoldable pub run_batches : ℕ → ℕ → Action (ProfitStore W) ProfitError ℕ
  unfolding calculate_and_update_profits
  run_batches zero total = pure total
  run_batches (suc left) total = do
    updated ← calculate_and_update_profits
    λ s.
        let rest = run_batches left (total + updated) s in
        if updated == 0 then (ok total, s) else rest

  unfoldable pub run_hourly_profit_calculation : Action (ProfitStore W) ProfitError ℕ
  run_hourly_profit_calculation = run_batches 1000 0
