-- ===== src/Features/Market/Offers/Refusal.antt =====
-- No buy request passes the balance checks.
use metaverse_rang_microserv.Common.{
  true, ℕ, ◌+◌, ◌<◌, ◌≡◌, ◌⊎◌, inl, inr, refl, ap, ◌∙◌, Bool, false, Option, none, some, arith,
  ◌==◌, Bool-cases,
}
use metaverse_rang_microserv.Common.Server.{Server, err, is_ok}
use metaverse_rang_microserv.Commercial.Wallet.{Asset}
use metaverse_rang_microserv.Features.Fees.{calculate_buyer_charge, to_amount}
use metaverse_rang_microserv.Features.Client.{check_balance}
use metaverse_rang_microserv.Features.Client.Port.{WalletPort, has_balance}
use metaverse_rang_microserv.Features.Client.Retry.{check_balance_refuses}
use metaverse_rang_microserv.Features.Market.{Market, insufficient_psc, insufficient_irr}
use metaverse_rang_microserv.Features.Market.BuyRequests.Release.{holds}
use metaverse_rang_microserv.Features.Market.Offers.{check_balances, send_buy_request}

-- a positive price is a positive charge
pub charge_pos : (p : ℕ) → (p == 0) ≡ false → 0 < calculate_buyer_charge p
unfolding calculate_buyer_charge to_amount
charge_pos p h = ground arith

check_balance-pos : (a : Asset) (shown : Option ℕ) (x : ℕ) → 0 < x → check_balance a shown x ≡ false
unfolding check_balance
check_balance-pos a none x h = refl
check_balance-pos a (some n) x h = (check_balance_refuses a n x).0 h

module _ {W : Type 0} (port : WalletPort W) where
  pub has_balance-pos :
      (u : ℕ) (a : Asset) (x : ℕ) (w : W) → 0 < x → (has_balance port u a x w).0 ≡ false
  unfolding has_balance
  has_balance-pos u a x w h = check_balance-pos a (port.get_wallet u a w).0 x h

  pub has_balance_keeps :
      (u : ℕ) (a : Asset) (x : ℕ) (w : W) (v : ℕ) (b : Asset)
      → port.funds v b (has_balance port u a x w).1 ≡ port.funds v b w
  unfolding has_balance
  has_balance_keeps u a x w v b = port.get_keeps u a w v b

  module _ (u psc irr : ℕ) (s : Server (Market W)) where
    abbrev pub asked_psc : Bool × W
    asked_psc = has_balance port u Asset.psc psc s.tables.wallets

    abbrev pub asked_irr : Bool × W
    asked_irr = has_balance port u Asset.irr irr asked_psc.1

    check_balances_pos :
        (0 < psc) ⊎ (0 < irr)
        → (((check_balances port u psc irr s).0 ≡ err insufficient_psc)
            ⊎ ((check_balances port u psc irr s).0 ≡ err insufficient_irr))
    unfolding check_balances
    check_balances_pos h = ground (
      arith,
      has_balance-pos u Asset.psc psc s.tables.wallets,
      has_balance-pos u Asset.irr irr asked_psc.1,
      Bool-cases asked_psc.0,
      Bool-cases asked_irr.0,
    )

    check_balances_tables :
        (check_balances port u psc irr s).1.tables ≡ record s.tables { wallets = asked_irr.1 }
    unfolding check_balances
    check_balances_tables = ground (arith, Bool-cases asked_psc.0, Bool-cases asked_irr.0)

  -- the server after the two reads that come before the balance checks
  abbrev after_reads : Server (Market W) → Server (Market W)
  after_reads s = record s { calls = s.calls + 1 + 1 }

  send_buy_request_cases :
      (buyer_id feature_id price_psc price_irr : ℕ) (s : Server (Market W))
      → let (result, s') = send_buy_request port true buyer_id feature_id price_psc price_irr s in
        (is_ok result ≡ false)
        × ((s'.tables ≡ s.tables)
            ⊎ (s'.tables
                ≡ (check_balances port buyer_id
                    (calculate_buyer_charge price_psc)
                    (calculate_buyer_charge price_irr)
                    (after_reads s)).1.tables))
  unfolding send_buy_request
  send_buy_request_cases buyer_id feature_id price_psc price_irr s = ground (
    arith,
    charge_pos price_psc,
    charge_pos price_irr,
    Bool-cases (price_psc == 0),
    Bool-cases (price_irr == 0),
    check_balances_pos buyer_id (calculate_buyer_charge price_psc)
        (calculate_buyer_charge price_irr) (after_reads s),
  )

  holds-check_balances :
      (u psc irr : ℕ) (s : Server (Market W)) (v : ℕ) (b : Asset)
      → holds port v b (check_balances port u psc irr s).1.tables ≡ holds port v b s.tables
  holds-check_balances u psc irr s v b =
      ap (λ t. holds port v b t) (check_balances_tables u psc irr s)
      ∙ has_balance_keeps u Asset.irr irr (asked_psc u psc irr s).1 v b
      ∙ has_balance_keeps u Asset.psc psc s.tables.wallets v b

  -- With a client of the wallets, a request is never sent: whatever the prices, the market, the wallets and the calls that fail, the
  -- caller gets an error, no request is created, nothing is locked and no balance moves.
  pub send_buy_request_refused :
      (buyer_id feature_id price_psc price_irr : ℕ) (s : Server (Market W))
      → let (result, s') = send_buy_request port true buyer_id feature_id price_psc price_irr s in
        (is_ok result ≡ false)
        × (s'.tables.buy_requests ≡ s.tables.buy_requests)
        × (s'.tables.locked_assets ≡ s.tables.locked_assets)
        × ((v : ℕ) (b : Asset) → holds port v b s'.tables ≡ holds port v b s.tables)
  send_buy_request_refused buyer_id feature_id price_psc price_irr s =
      let charged_psc = calculate_buyer_charge price_psc in
      let charged_irr = calculate_buyer_charge price_irr in
      let (refused, cases) = send_buy_request_cases buyer_id feature_id price_psc price_irr s in
      elim cases [
        | inl same ↦ (
          refused,
          ap (λ t. t.buy_requests) same,
          ap (λ t. t.locked_assets) same,
          (λ v b. ap (λ t. holds port v b t) same),
        )
        | inr same ↦
            let kept =
              same ∙ check_balances_tables buyer_id charged_psc charged_irr (after_reads s) in
            (
              refused,
              ap (λ t. t.buy_requests) kept,
              ap (λ t. t.locked_assets) kept,
              (λ v b.
                  ap (λ t. holds port v b t) same
                  ∙ holds-check_balances buyer_id charged_psc charged_irr (after_reads s) v b),
            )
      ]
