-- ===== src/Features/Profits/Withdrawals.antt =====
-- services/features-service/internal/service/profit_service.go: what the withdrawals pay.
use metaverse_rang_microserv.Common.{
  ℕ, ◌+◌, ◌*◌, ◌<◌, ◌≡◌, refl, ap, true, false, none, some, List, [], ◌∷◌, arith, ltb, ◌==◌,
  if◌then◌else◌, Bool-cases, inl, inr,
}
use metaverse_rang_microserv.Common.Table.{select, select_all}
use metaverse_rang_microserv.Common.Table.Laws.{select-update, select-test}
use metaverse_rang_microserv.Common.Server.{Server, ok, err}
use metaverse_rang_microserv.Commercial.Wallet.{Asset}
use metaverse_rang_microserv.Features.Client.Port.{KeepsRefused, WalletPort, is_at}
use metaverse_rang_microserv.Features.Fees.{Karbari}
use metaverse_rang_microserv.Features.Profits.{
  HourlyProfit, ProfitStore, profit_db, has_profit_id, withdraw_profit_days, reset_rows,
  credit_wallet, pay_profit_out, get_single_profit, withdraw_one, withdraw_each, is_of,
  get_profits_by_application,
}

-- the days after which a profit ends, for a user, and a profit that was taken out
abbrev pub days_for : {W : Type 0} → ℕ → ProfitStore W → ℕ
days_for user_id t = elim (select (λ d. d.user_id == user_id) t.withdraw_days) [
  | none ↦ 10
  | some d ↦ if d.days == 0 then 10 else d.days
]

abbrev pub emptied : {W : Type 0} → ℕ → ProfitStore W → HourlyProfit → HourlyProfit
emptied user_id t p = record p {
  amount = 0;
  dead_line = t.now + days_for user_id t * 86400;
  updated_at = t.now;
}

select-emptied :
    {W : Type 0} (profit_id user_id : ℕ) (p : HourlyProfit) (t : ProfitStore W)
    → select (has_profit_id profit_id) t.profits ≡ some p
    → select (has_profit_id profit_id) (reset_rows profit_id (days_for user_id t) t).profits
      ≡ some (emptied user_id t p)
unfolding reset_rows
select-emptied profit_id user_id p t at = ground (
  arith,
  at,
  select-test (has_profit_id profit_id) t.profits p at,
  select-update (has_profit_id profit_id) (has_profit_id profit_id) (emptied user_id t) t.profits
      (λ q. refl),
)

withdraw_profit_days-answers :
    {W : Type 0} (user_id : ℕ) (s : Server (ProfitStore W))
    → (days : ℕ) × (withdraw_profit_days user_id s ≡ (ok days, record s { calls = s.calls + 1 }))
unfolding withdraw_profit_days
withdraw_profit_days-answers user_id s = (
  elim (if s.fails s.calls
      then none
      else select (λ d. d.user_id == user_id) s.tables.withdraw_days) [
        | none ↦ 10
        | some d ↦ if d.days == 0 then 10 else d.days
      ],
  refl,
)

-- profits of one asset
abbrev pub AllOf : Asset → List HourlyProfit → Type 0
AllOf asset [] = Unit
AllOf asset (p ∷ ps) = (p.asset ≡ asset) × AllOf asset ps

module _ {W : Type 0} (port : WalletPort W) where
  -- the balances after `amount` of `asset` went to `user_id`
  abbrev pub Gained : ℕ → Asset → ℕ → W → W → Type 0
  Gained user_id asset amount before after =
      (v : ℕ) (b : Asset)
      → port.funds v b after ≡ (
          if is_at user_id asset v b then port.funds v b before + amount else port.funds v b before)

  -- On a server where no call fails, and whose wallets take the credit, the owner of a profit is
  -- credited its amount and no other balance moves, and the profit that is answered has none left.
  pub get_single_profit_pays :
      (profit_id user_id : ℕ) (p : HourlyProfit) (s : Server (ProfitStore W))
      → ((n : ℕ) → s.fails n ≡ false)
      → select (has_profit_id profit_id) s.tables.profits ≡ some p
      → p.user_id ≡ user_id
      → 0 < p.amount
      → (port.add_balance user_id p.asset p.amount s.tables.wallets).0 ≡ true
      → let taken = get_single_profit port profit_id user_id s in
        (taken.0 ≡ ok (emptied user_id s.tables p))
        × ((select (has_profit_id profit_id) taken.1.tables.profits
              ≡ some (emptied user_id s.tables p))
            × Gained user_id p.asset p.amount s.tables.wallets taken.1.tables.wallets)
  unfolding get_single_profit pay_profit_out credit_wallet withdraw_profit_days reset_rows
  get_single_profit_pays profit_id user_id p s up at own some_amount takes =
      let reads = select-emptied profit_id user_id p s.tables at in
      (
        ground (
          arith,
          up s.calls,
          up (s.calls + 1),
          up (s.calls + 2),
          up (s.calls + 3),
          at,
          own,
          takes,
          reads,
        ),
        (
          ground (
            arith,
            up s.calls,
            up (s.calls + 1),
            up (s.calls + 2),
            up (s.calls + 3),
            at,
            own,
            takes,
            reads,
          ),
          λ v b. ground (
            arith,
            up s.calls,
            up (s.calls + 1),
            up (s.calls + 2),
            at,
            own,
            takes,
            port.add_moves user_id p.asset p.amount s.tables.wallets v b,
          ),
        ),
      )

  -- Where the amount is credited and the UPDATE that resets the profit fails, the withdrawal errs
  -- with the credit made and every profit as it was: withdrawing again pays it again.
  pub get_single_profit_repeats :
      (profit_id user_id : ℕ) (p : HourlyProfit) (s : Server (ProfitStore W))
      → s.fails s.calls ≡ false
      → s.fails (s.calls + 2) ≡ true
      → select (has_profit_id profit_id) s.tables.profits ≡ some p
      → p.user_id ≡ user_id
      → 0 < p.amount
      → (port.add_balance user_id p.asset p.amount s.tables.wallets).0 ≡ true
      → let taken = get_single_profit port profit_id user_id s in
        (taken.0 ≡ err profit_db)
        × ((taken.1.tables.profits ≡ s.tables.profits)
            × Gained user_id p.asset p.amount s.tables.wallets taken.1.tables.wallets)
  unfolding get_single_profit pay_profit_out credit_wallet withdraw_profit_days reset_rows
  get_single_profit_repeats profit_id user_id p s first reset at own some_amount takes = (
    ground (arith, first, reset, at, own, takes),
    (
      ground (arith, first, reset, at, own, takes),
      λ v b. ground (
        arith,
        first,
        reset,
        at,
        own,
        takes,
        port.add_moves user_id p.asset p.amount s.tables.wallets v b,
      ),
    ),
  )

  withdraw_one-Gained :
      KeepsRefused port
      → (user_id days : ℕ) (p : HourlyProfit) (s : Server (ProfitStore W))
      → (amount : ℕ) × (((withdraw_one port user_id days p s).0 ≡ ok amount)
          × Gained user_id p.asset amount s.tables.wallets
              (withdraw_one port user_id days p s).1.tables.wallets)
  unfolding withdraw_one credit_wallet reset_rows
  withdraw_one-Gained keeps user_id days p s = elim (Bool-cases (ltb 0 p.amount)) [
    | inl positive ↦
        elim (Bool-cases (port.add_balance user_id p.asset p.amount s.tables.wallets).0) [
          | inl takes ↦ (
            p.amount,
            (
              ground (arith, positive, takes),
              λ v b. ground (
                arith,
                positive,
                takes,
                port.add_moves user_id p.asset p.amount s.tables.wallets v b,
              ),
            ),
          )
          | inr refuses ↦ (
            0,
            (
              ground (arith, positive, refuses),
              λ v b. ground (
                arith,
                positive,
                refuses,
                keeps.add_refused user_id p.asset p.amount s.tables.wallets v b,
              ),
            ),
          )
        ]
    | inr nothing ↦ (0, (ground (arith, nothing), λ v b. ground (arith, nothing)))
  ]

  withdraw_each-Gained :
      KeepsRefused port
      → (asset : Asset) (user_id days : ℕ) (ps : List HourlyProfit) (s : Server (ProfitStore W))
      → AllOf asset ps
      → (total : ℕ) × (((withdraw_each port user_id days ps s).0 ≡ ok total)
          × Gained user_id asset total s.tables.wallets
              (withdraw_each port user_id days ps s).1.tables.wallets)
  unfolding withdraw_each
  withdraw_each-Gained keeps asset user_id days [] s all = (0, (refl, λ v b. ground arith))
  withdraw_each-Gained keeps asset user_id days (p ∷ ps) s (same, all) =
      let (amount, (answers, gains)) = withdraw_one-Gained keeps user_id days p s in
      let s' : Server (ProfitStore W) = (withdraw_one port user_id days p s).1 in
      let (rest, (answers_rest, gains_rest)) =
        withdraw_each-Gained keeps asset user_id days ps s' all in
      (
        amount + rest,
        (
          ground (arith, answers, answers_rest),
          λ v b. ground (
            arith,
            answers,
            answers_rest,
            gains_rest v b,
            gains v b,
            ap (λ a. is_at user_id a v b) same,
          ),
        ),
      )

  -- On wallets where a call that errs has moved nothing, and where all the profits of the user and
  -- the application are of one asset, the total that GetProfitsByApplication answers is what the
  -- user's wallet gained, whichever credits are refused and whichever calls fail, and no other
  -- balance moved.
  pub get_profits_by_application-Gained :
      KeepsRefused port
      → (asset : Asset) (karbari : Karbari) (user_id total : ℕ) (s : Server (ProfitStore W))
      → AllOf asset (select_all (is_of user_id karbari s.tables) s.tables.profits)
      → (get_profits_by_application port user_id karbari s).0 ≡ ok total
      → Gained user_id asset total s.tables.wallets
          (get_profits_by_application port user_id karbari s).1.tables.wallets
  unfolding get_profits_by_application
  get_profits_by_application-Gained keeps asset karbari user_id total s all h v b =
      let profits = select_all (is_of user_id karbari s.tables) s.tables.profits in
      let (days, asks) = withdraw_profit_days-answers user_id s in
      let s' : Server (ProfitStore W) = record s { calls = s.calls + 1 + 1 } in
      let (sum, (answers, gains)) = withdraw_each-Gained keeps asset user_id days profits s' all in
      ground (arith, h, asks, answers, gains v b)
