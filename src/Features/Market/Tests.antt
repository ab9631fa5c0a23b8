-- ===== src/Features/Market/Tests.antt =====
-- The marketplace at concrete inputs.
use metaverse_rang_microserv.Common.{
  ◌++◌, ℕ, ◌+◌, ◌-◌, ◌*◌, ◌≤◌, ◌≡◌, ◌≢◌, ◌⊎◌, inl, refl, true, false, Option, none, some, [], ◌∷◌,
  arith,
}
use metaverse_rang_microserv.Common.Server.{Server, ok, err, is_ok}
use metaverse_rang_microserv.Common.Table.{select}
use metaverse_rang_microserv.Commercial.Wallet.{Asset}
use metaverse_rang_microserv.Features.Fees.{
  Karbari, Status, to_amount, calculate_fee, calculate_buyer_charge, is_limited_feature,
}
use metaverse_rang_microserv.Features.Client.Ledger.{ledger-KeepsRefused, Ledger, open_ledger}
use metaverse_rang_microserv.Features.Market.{
  Feature, BuyFeatureRequest, LockedAsset, User, Market, wallet_error, is_request, locks,
}
use metaverse_rang_microserv.Features.Market.BuyRequests.Release.{holds}
use metaverse_rang_microserv.Features.Market.Offers.{deduct_both, send_buy_request}
use metaverse_rang_microserv.Features.Market.Offers.Funds.{Charged, back, deduct_both-Charged}
use metaverse_rang_microserv.Features.Market.Offers.Refusal.{send_buy_request_refused}
use metaverse_rang_microserv.Features.Market.Purchases.{FeatureLimit, buy_feature}
use metaverse_rang_microserv.Features.Market.Purchases.Refusal.{OnlyRead, buy_feature_refused}
use metaverse_rang_microserv.Features.Market.Sales.{settle, record_sale}
use metaverse_rang_microserv.Features.Market.Sales.Payments.{
  gain, profit_gain, seller_profit, settle_pays,
}
use metaverse_rang_microserv.Features.Market.Sales.Records.{
  Stays, completed, Kept, sold, record_sale_atomic,
}

abbrev land : Feature
land = record {
  id = 5;
  owner_id = 2;
  karbari = Karbari.tejari;
  rgb = Status.sold_and_priced Karbari.tejari;
  stability = 10;
  price_psc = 4;
  price_irr = 6;
  minimum_price_percentage = 80;
}

abbrev offer : BuyFeatureRequest
offer = record {
  id = 7;
  buyer_id = 1;
  seller_id = 2;
  feature_id = 5;
  price_psc = 4;
  price_irr = 6;
  status = 0;
  requested_grace_period = none;
  deleted = false;
}

abbrev lock : LockedAsset
lock = record { buy_feature_request_id = 7; feature_id = 5; psc = 84; irr = 126 }

abbrev platform : User
platform = record { id = 9; is_rgb = true; age = none; withdraw_profit = none }

abbrev buyer : User
buyer = record { id = 1; is_rgb = false; age = some 1; withdraw_profit = some 3 }

abbrev seller : User
seller = record { id = 2; is_rgb = false; age = none; withdraw_profit = none }

abbrev market : Market Ledger
market = record {
  wallets = λ u a. 1000;
  features = land ∷ [];
  buy_requests = offer ∷ [];
  sell_requests = [];
  locked_assets = lock ∷ [];
  trades = [];
  commissions = [];
  profits = [];
  users = buyer ∷ seller ∷ platform ∷ [];
  rate = λ a. 1;
  next_id = 20;
  now = 0;
}

abbrev up : Server (Market Ledger)
up = record { tables = market; fails = λ n. false; calls = 0 }

abbrev unlimited : Feature → Option FeatureLimit
unlimited f = none

four_is_not_zero : land.price_psc ≢ 0
four_is_not_zero e = ground arith

ten_is_not_zero : land.stability ≢ 0
ten_is_not_zero e = ground arith

deduct_both_example :
    let (result, s') = deduct_both open_ledger 1 84 2000 up in
    ((result ≡ ok tt)
      × (84 ≤ holds open_ledger 1 Asset.psc market)
      × (2000 ≤ holds open_ledger 1 Asset.irr market)
      × Charged open_ledger 1 84 2000 market s'.tables)
    ⊎ (((result ≡ err wallet_error)
          × ((v : ℕ) (b : Asset) → holds open_ledger v b s'.tables ≡ holds open_ledger v b market))
        ⊎ ((result ≡ err wallet_error)
            × ((back open_ledger 1 84 2000 up).0 ≡ false)
            × (holds open_ledger 1 Asset.psc s'.tables
                ≡ holds open_ledger 1 Asset.psc market - 84)))
deduct_both_example = deduct_both-Charged open_ledger (ledger-KeepsRefused (λ a. true)) 1 84 2000 up

send_buy_request_example :
    let (result, s') = send_buy_request open_ledger true 1 5 4 6 up in
    (is_ok result ≡ false)
    × (s'.tables.buy_requests ≡ market.buy_requests)
    × (s'.tables.locked_assets ≡ market.locked_assets)
    × ((v : ℕ) (b : Asset) → holds open_ledger v b s'.tables ≡ holds open_ledger v b market)
send_buy_request_example = send_buy_request_refused open_ledger 1 5 4 6 up

settle_pays_example :
    ((settle open_ledger offer land up).0 ≡ ok tt)
    × ((v : ℕ) (b : Asset)
        → holds open_ledger v b (settle open_ledger offer land up).1.tables
          ≡ holds open_ledger v b market
            + gain 2 Asset.psc (to_amount 4 - calculate_fee 4) v b
            + gain 2 Asset.irr (to_amount 6 - calculate_fee 6) v b
            + gain 9 Asset.psc (calculate_fee 4 * 2) v b
            + gain 9 Asset.irr (calculate_fee 6 * 2) v b
            + profit_gain (seller_profit open_ledger offer land platform up) 2 v b)
    × ((price : ℕ)
        → (to_amount price - calculate_fee price) + calculate_fee price * 2
          ≡ calculate_buyer_charge price)
unfolding select
settle_pays_example = settle_pays open_ledger offer land platform up (λ n. refl) refl refl

record_sale_atomic_example :
    let (result, s') = record_sale open_ledger offer land up in
    ((is_ok result ≡ false) × Kept market s'.tables × Stays 7 market s'.tables)
    ⊎ ((result ≡ ok tt)
        × ((s'.tables.features ≡ sold open_ledger offer land 80 market)
            ⊎ (s'.tables.features ≡ sold open_ledger offer land 110 market))
        × (select (is_request 7) s'.tables.buy_requests ≡ none)
        × (select (locks 7) s'.tables.locked_assets ≡ none)
        × (s'.tables.sell_requests ≡ completed open_ledger 5 market.sell_requests)
        × ((id : ℕ) × (s'.tables.commissions
              ≡ market.commissions
                ++ ((record { trade_id = id; psc = calculate_fee 4 * 2; irr = calculate_fee 6 * 2 })
                    ∷ []))))
record_sale_atomic_example = record_sale_atomic open_ledger offer land up

buy_feature_refused_example :
    (is_ok (buy_feature open_ledger unlimited 5 1 up).0 ≡ false)
    × OnlyRead open_ledger market (buy_feature open_ledger unlimited 5 1 up).1.tables
unfolding select is_limited_feature
buy_feature_refused_example =
    buy_feature_refused open_ledger unlimited 5 1 land up refl refl ten_is_not_zero
      (inl four_is_not_zero)
