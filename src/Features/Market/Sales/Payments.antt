-- ===== src/Features/Market/Sales/Payments.antt =====
-- Who is paid when a request is accepted.
use metaverse_rang_microserv.Common.{
  ℕ, ◌+◌, ◌-◌, ◌*◌, ◌≡◌, refl, ap, ◌∙◌, Bool, true, false, Option, none, some, arith, ltb,
  if◌then◌else◌, Bool-cases,
}
use metaverse_rang_microserv.Common.Server.{Server, ok}
use metaverse_rang_microserv.Common.Table.{select}
use metaverse_rang_microserv.Commercial.Wallet.{Asset}
use metaverse_rang_microserv.Features.Fees.{to_amount, calculate_fee, calculate_buyer_charge}
use metaverse_rang_microserv.Features.Client.Port.{WalletPort, is_at}
use metaverse_rang_microserv.Features.Market.{
  Market, BuyFeatureRequest, Feature, FeatureHourlyProfit, User, profit_of,
}
use metaverse_rang_microserv.Features.Market.Accounts.{pay_profit}
use metaverse_rang_microserv.Features.Market.BuyRequests.Release.{holds}
use metaverse_rang_microserv.Features.Market.Sales.{settle, pay_seller, pay_platform}

-- what a credit of `x` adds to a balance
unfoldable pub gain : ℕ → Asset → ℕ → ℕ → Asset → ℕ
gain u a x v b = if is_at u a v b then x else 0

-- the profit that is paid out
unfoldable pub profit_gain : Option FeatureHourlyProfit → ℕ → ℕ → Asset → ℕ
unfolding gain
profit_gain none u v b = 0
profit_gain (some p) u v b = gain u p.asset p.amount v b

charge_splits :
    (price : ℕ)
    → (to_amount price - calculate_fee price) + calculate_fee price * 2
      ≡ calculate_buyer_charge price
unfolding to_amount calculate_fee calculate_buyer_charge
charge_splits price = omega arith

module _ {W : Type 0} (port : WalletPort W) where
  -- the credits of a sale, in order: true where each goes through
  abbrev pub credit : ℕ → Asset → ℕ → Bool × W → Bool × W
  credit u a x (done, w) =
      let (done', w') = port.add_balance u a x w in (elim done [ true ↦ done' | false ↦ false ], w')

  abbrev pub credited_seller : BuyFeatureRequest → W → Bool × W
  credited_seller r w =
      credit r.seller_id Asset.irr (to_amount r.price_irr - calculate_fee r.price_irr)
        (credit r.seller_id Asset.psc (to_amount r.price_psc - calculate_fee r.price_psc) (true, w))

  abbrev pub credited_platform : BuyFeatureRequest → ℕ → Bool × W → Bool × W
  credited_platform r g w =
      credit g Asset.irr (calculate_fee r.price_irr * 2)
        (credit g Asset.psc (calculate_fee r.price_psc * 2) w)

  abbrev pub credited_profit : Option FeatureHourlyProfit → ℕ → Bool × W → Bool × W
  credited_profit none u w = w
  credited_profit (some p) u w = elim (ltb 0 p.amount) [
    | true ↦ credit u p.asset p.amount w
    | false ↦ w
  ]

  credit-gain :
      (u : ℕ) (a : Asset) (x : ℕ) (w : Bool × W) (v : ℕ) (b : Asset)
      → (credit u a x w).0 ≡ true
      → (w.0 ≡ true) × (port.funds v b (credit u a x w).1 ≡ port.funds v b w.1 + gain u a x v b)
  unfolding gain
  credit-gain u a x w v b h = ground (arith, port.add_moves u a x w.1 v b, Bool-cases w.0)

  credited_profit-gain :
      (p : Option FeatureHourlyProfit) (u : ℕ) (w : Bool × W) (v : ℕ) (b : Asset)
      → (credited_profit p u w).0 ≡ true
      → (w.0 ≡ true)
        × (port.funds v b (credited_profit p u w).1 ≡ port.funds v b w.1 + profit_gain p u v b)
  unfolding profit_gain gain
  credited_profit-gain none u w v b h = ground arith
  credited_profit-gain (some p) u w v b h =
      ground (arith, credit-gain u p.asset p.amount w v b, Bool-cases (ltb 0 p.amount))

  module _ (r : BuyFeatureRequest) (f : Feature) (g : User) (s : Server (Market W)) where
    abbrev pub seller_profit : Option FeatureHourlyProfit
    seller_profit = select (profit_of f.id r.seller_id) s.tables.profits

    abbrev pub settled : Bool × W
    settled =
        credited_profit seller_profit r.seller_id
          (credited_platform r g.id (credited_seller r s.tables.wallets))

    settle_runs :
        ((n : ℕ) → s.fails n ≡ false)
        → select (λ u. u.is_rgb) s.tables.users ≡ some g
        → settled.0 ≡ true
        → ((settle port r f s).0 ≡ ok tt)
          × ((settle port r f s).1.tables ≡ record s.tables { wallets = settled.1 })
    unfolding settle pay_seller pay_platform pay_profit
    settle_runs up rgb all = ground (arith, up s.calls, up (s.calls + 1))

    settled-gain :
        (v : ℕ) (b : Asset)
        → settled.0 ≡ true
        → port.funds v b settled.1
          ≡ holds port v b s.tables
            + gain r.seller_id Asset.psc (to_amount r.price_psc - calculate_fee r.price_psc) v b
            + gain r.seller_id Asset.irr (to_amount r.price_irr - calculate_fee r.price_irr) v b
            + gain g.id Asset.psc (calculate_fee r.price_psc * 2) v b
            + gain g.id Asset.irr (calculate_fee r.price_irr * 2) v b
            + profit_gain seller_profit r.seller_id v b
    settled-gain v b all =
        let paid = credited_seller r s.tables.wallets in
        let first =
          credit r.seller_id Asset.psc (to_amount r.price_psc - calculate_fee r.price_psc)
            (true, s.tables.wallets) in
        let fee = credit g.id Asset.psc (calculate_fee r.price_psc * 2) paid in
        let (all', e) =
          credited_profit-gain seller_profit r.seller_id (credited_platform r g.id paid) v b all in
        let (h4, e4) = credit-gain g.id Asset.irr (calculate_fee r.price_irr * 2) fee v b all' in
        let (h3, e3) = credit-gain g.id Asset.psc (calculate_fee r.price_psc * 2) paid v b h4 in
        let (h2, e2) =
          credit-gain r.seller_id Asset.irr (to_amount r.price_irr - calculate_fee r.price_irr)
            first v b h3 in
        let (h1, e1) =
          credit-gain r.seller_id Asset.psc (to_amount r.price_psc - calculate_fee r.price_psc)
            (true, s.tables.wallets) v b h2 in
        rw (e, e4, e3, e2, e1) refl

  -- Settling an accepted request, on a server where no call fails, with a platform user, and where
  -- every credit goes through: the seller gets the price less the fee, the platform twice the fee, the
  -- seller the profit not withdrawn, and no other balance moves; the price less the fee and twice the
  -- fee are together what the buyer was charged.
  pub settle_pays :
      (r : BuyFeatureRequest) (f : Feature) (g : User) (s : Server (Market W))
      → ((n : ℕ) → s.fails n ≡ false)
      → select (λ u. u.is_rgb) s.tables.users ≡ some g
      → (settled r f g s).0 ≡ true
      → ((settle port r f s).0 ≡ ok tt)
        × ((v : ℕ) (b : Asset)
            → holds port v b (settle port r f s).1.tables
              ≡ holds port v b s.tables
                + gain r.seller_id Asset.psc (to_amount r.price_psc - calculate_fee r.price_psc) v b
                + gain r.seller_id Asset.irr (to_amount r.price_irr - calculate_fee r.price_irr) v b
                + gain g.id Asset.psc (calculate_fee r.price_psc * 2) v b
                + gain g.id Asset.irr (calculate_fee r.price_irr * 2) v b
                + profit_gain (seller_profit r f g s) r.seller_id v b)
        × ((price : ℕ)
            → (to_amount price - calculate_fee price) + calculate_fee price * 2
              ≡ calculate_buyer_charge price)
  settle_pays r f g s up rgb all =
      let (done, same) = settle_runs r f g s up rgb all in
      (done, (λ v b. ap (λ t. holds port v b t) same ∙ settled-gain r f g s v b all), charge_splits)
