-- ===== src/Features/Market/Purchases/Refusal.antt =====
-- No land is bought at a positive price, unless its trading is limited.
use metaverse_rang_microserv.Common.{
  ℕ, ◌+◌, ◌<◌, ◌≡◌, ◌≢◌, ◌⊎◌, inl, inr, refl, ap, ◌∙◌, Bool, false, Option, some, arith,
}
use metaverse_rang_microserv.Common.Server.{Server, is_ok}
use metaverse_rang_microserv.Common.Table.{select}
use metaverse_rang_microserv.Commercial.Wallet.{Asset}
use metaverse_rang_microserv.Features.Fees.{
  calculate_buyer_charge, to_amount, is_limited_feature, get_color,
}
use metaverse_rang_microserv.Features.Client.Port.{WalletPort, has_balance}
use metaverse_rang_microserv.Features.Market.{Market, Feature, is_feature, find_feature}
use metaverse_rang_microserv.Features.Market.Accounts.{get_buyer, check_underpriced_restriction}
use metaverse_rang_microserv.Features.Market.BuyRequests.Release.{holds}
use metaverse_rang_microserv.Features.Market.Offers.Refusal.{
  has_balance-pos, has_balance_keeps, asked_psc, asked_irr, charge_pos,
}
use metaverse_rang_microserv.Features.Market.Sales.Guards.{check_underpriced_restriction_reads}
use metaverse_rang_microserv.Features.Market.Purchases.{
  FeatureLimit, buy_feature, buy_from_rgb, buy_from_user, check_color,
}

amount_pos : (x : ℕ) → x ≢ 0 → 0 < to_amount x
unfolding to_amount
amount_pos x h = ground arith

module _ {W : Type 0} (port : WalletPort W) where
  -- a call that only asked the wallets
  abbrev pub OnlyRead : Market W → Market W → Type 0
  OnlyRead t t' =
      (t'.features ≡ t.features)
      × (t'.trades ≡ t.trades)
      × ((v : ℕ) (b : Asset) → holds port v b t' ≡ holds port v b t)

  OnlyRead-wallets :
      (t t' : Market W) (w : W)
      → t' ≡ record t { wallets = w }
      → ((v : ℕ) (b : Asset) → port.funds v b w ≡ holds port v b t)
      → OnlyRead t t'
  OnlyRead-wallets t t' w e h =
      (ap (λ x. x.features) e, ap (λ x. x.trades) e, (λ v b. ap (λ x. holds port v b x) e ∙ h v b))

  buy_from_rgb_cases :
      (f : Feature) (u : ℕ) (s : Server (Market W))
      → f.stability ≢ 0
      → let (result, s') = buy_from_rgb port f u s in
        (is_ok result ≡ false)
        × ((s'.tables ≡ record s.tables { wallets = s.tables.wallets })
            ⊎ (s'.tables ≡ record s.tables {
              wallets =
                  (has_balance port u
                    (get_color f.karbari)
                    (to_amount f.stability)
                    s.tables.wallets).1;
            }))
  unfolding buy_from_rgb check_color get_buyer
  buy_from_rgb_cases f u s h = ground (
    arith,
    amount_pos f.stability h,
    has_balance-pos port u (get_color f.karbari) (to_amount f.stability) s.tables.wallets,
  )

  module _ (f : Feature) (u : ℕ) (s : Server (Market W)) where
    abbrev restricted : Server (Market W)
    restricted = (check_underpriced_restriction f s).1

    abbrev asked_charges : Bool × W
    asked_charges =
        asked_irr port u (calculate_buyer_charge f.price_psc) (calculate_buyer_charge f.price_irr)
          restricted

    buy_from_user_cases :
        (f.price_psc ≢ 0) ⊎ (f.price_irr ≢ 0)
        → let (result, s') = buy_from_user port f u s in
          (is_ok result ≡ false)
          × ((s'.tables ≡ restricted.tables)
              ⊎ (s'.tables ≡ record restricted.tables { wallets = asked_charges.1 }))
    unfolding buy_from_user get_buyer
    buy_from_user_cases h = ground (
      arith,
      charge_pos f.price_psc,
      charge_pos f.price_irr,
      has_balance-pos port u Asset.psc (calculate_buyer_charge f.price_psc)
          restricted.tables.wallets,
      has_balance-pos port u Asset.irr (calculate_buyer_charge f.price_irr)
          (asked_psc port u (calculate_buyer_charge f.price_psc)
            (calculate_buyer_charge f.price_irr) restricted).1,
    )

  buy_from_rgb_refused :
      (f : Feature) (u : ℕ) (s : Server (Market W))
      → f.stability ≢ 0
      → (is_ok (buy_from_rgb port f u s).0 ≡ false)
        × OnlyRead s.tables (buy_from_rgb port f u s).1.tables
  buy_from_rgb_refused f u s h =
      let t' = (buy_from_rgb port f u s).1.tables in
      let (refused, cases) = buy_from_rgb_cases f u s h in
      (
        refused,
        elim cases [
          | inl same ↦ OnlyRead-wallets s.tables t' s.tables.wallets same (λ v b. refl)
          | inr same ↦
              OnlyRead-wallets s.tables t'
                (has_balance port u (get_color f.karbari) (to_amount f.stability)
                  s.tables.wallets).1
                same
                (λ v b.
                  has_balance_keeps port u (get_color f.karbari) (to_amount f.stability)
                    s.tables.wallets v b)
        ],
      )

  buy_from_user_refused :
      (f : Feature) (u : ℕ) (s : Server (Market W))
      → (f.price_psc ≢ 0) ⊎ (f.price_irr ≢ 0)
      → (is_ok (buy_from_user port f u s).0 ≡ false)
        × OnlyRead s.tables (buy_from_user port f u s).1.tables
  buy_from_user_refused f u s h =
      let t' = (buy_from_user port f u s).1.tables in
      let (refused, cases) = buy_from_user_cases f u s h in
      let read = check_underpriced_restriction_reads port f s in
      let psc = calculate_buyer_charge f.price_psc in
      let irr = calculate_buyer_charge f.price_irr in
      (
        refused,
        elim cases [
          | inl same ↦ OnlyRead-wallets s.tables t' s.tables.wallets (same ∙ read) (λ v b. refl)
          | inr same ↦
              OnlyRead-wallets s.tables t' (asked_charges f u s).1
                (same
                  ∙ ap {A = Market W} (λ t. record t { wallets = (asked_charges f u s).1 }) read)
                (λ v b.
                  has_balance_keeps port u Asset.irr irr
                    (asked_psc port u psc irr (restricted f u s)).1 v b
                  ∙ has_balance_keeps port u Asset.psc psc (restricted f u s).tables.wallets v b
                  ∙ ap (λ t. holds port v b t) read)
        ],
      )

  module _ (limit_of : Feature → Option FeatureLimit) (id u : ℕ) (f : Feature)
      (s : Server (Market W)) where
    abbrev after_owner : Server (Market W)
    after_owner = record s { calls = s.calls + 1 + 1 }

    -- the paths that a purchase of unlimited land can take
    buy_feature_cases :
        select (is_feature id) s.tables.features ≡ some f
        → is_limited_feature f.rgb ≡ false
        → is_ok (buy_from_rgb port f u after_owner).0 ≡ false
        → is_ok (buy_from_user port f u after_owner).0 ≡ false
        → (is_ok (buy_feature port limit_of id u s).0 ≡ false)
          × (((buy_feature port limit_of id u s).1.tables ≡ s.tables)
              ⊎ (((buy_feature port limit_of id u s).1.tables
                    ≡ (buy_from_rgb port f u after_owner).1.tables)
                  ⊎ ((buy_feature port limit_of id u s).1.tables
                      ≡ (buy_from_user port f u after_owner).1.tables)))
    unfolding buy_feature find_feature get_buyer
    buy_feature_cases found unlimited rgb user = ground arith

  -- Land with a positive stability and a positive price, whose trading is not limited, is never bought,
  -- whoever owns it and whatever calls fail: the buyer gets an error, no owner changes, no trade is
  -- recorded and no balance moves.
  pub buy_feature_refused :
      (limit_of : Feature → Option FeatureLimit) (id u : ℕ) (f : Feature) (s : Server (Market W))
      → select (is_feature id) s.tables.features ≡ some f
      → is_limited_feature f.rgb ≡ false
      → f.stability ≢ 0
      → (f.price_psc ≢ 0) ⊎ (f.price_irr ≢ 0)
      → (is_ok (buy_feature port limit_of id u s).0 ≡ false)
        × OnlyRead s.tables (buy_feature port limit_of id u s).1.tables
  buy_feature_refused limit_of id u f s found unlimited area price =
      let s' = after_owner limit_of id u f s in
      let (rgb, rgb_read) = buy_from_rgb_refused f u s' area in
      let (user, user_read) = buy_from_user_refused f u s' price in
      let (refused, cases) = buy_feature_cases limit_of id u f s found unlimited rgb user in
      (
        refused,
        elim cases [
          | inl same ↦ rw same (refl, refl, λ v b. refl)
          | inr (inl same) ↦ rw same rgb_read
          | inr (inr same) ↦ rw same user_read
        ],
      )
