-- ===== src/Features/Market/SellRequests.antt =====
-- services/features-service/internal/service/marketplace_service.go: `CreateSellRequest` and
-- `DeleteSellRequest`. A price that is worked out from a percentage is rounded down to a quantum; the
-- limits are what system_variables holds.
use metaverse_rang_microserv.Common.{
  ℕ, ◌+◌, ◌*◌, ◌/◌, ◌≤◌, ◌<◌, ◌≡◌, ◌≢◌, ◌⊎◌, Bool, true, false, not, ◌&&◌, ◌||◌, Option, none, some,
  [], ◌∷◌, ◌++◌, ◌==◌, ltb, if◌then◌else◌, arith,
}
use metaverse_rang_microserv.Common.Server.{
  Server, ok, or_raise, pure, query, exec, raise_if, is_ok, ◌>>=◌, ◌>>◌,
}
use metaverse_rang_microserv.Common.Table.{select, update, delete}
use metaverse_rang_microserv.Commercial.Wallet.{Asset}
use metaverse_rang_microserv.Features.Fees.{
  Status, get_color, change_status_to_sold_and_priced, change_status_to_sold_and_not_priced,
}
use metaverse_rang_microserv.Features.Market.{
  Feature, SellFeatureRequest, Market, MarketAction, db_error, feature_not_found, request_not_found,
  unauthorized, mutually_exclusive, price_required, percentage_too_low, insert, find_feature,
  is_feature,
}
use metaverse_rang_microserv.Features.Market.Accounts.{is_user_under18}

-- The terms of a request: a price is none where its text is empty or "0", and the percentage is 0 where
-- it is not positive.
pub record SellTerms : Type 0 where
  pub price_psc : Option ℕ
  pub price_irr : Option ℕ
  pub minimum_price_percentage : ℕ

-- terms with a percentage alone
abbrev pub by_percentage : ℕ → SellTerms
by_percentage percentage = record {
  price_psc = none;
  price_irr = none;
  minimum_price_percentage = percentage;
}

-- what a feature is sold for
pub record SellPrice : Type 0 where
  pub psc : ℕ
  pub irr : ℕ
  pub percentage : ℕ

abbrev has_price : Option ℕ → Bool
has_price none = false
has_price (some price) = true

unfoldable pub has_explicit_prices : SellTerms → Bool
has_explicit_prices terms = has_price terms.price_psc || has_price terms.price_irr

abbrev price_or_zero : Option ℕ → ℕ
price_or_zero none = 0
price_or_zero (some price) = price

-- the prices of a percentage, half in PSC and half in rials
unfoldable pub percentage_price : (Asset → ℕ) → Feature → ℕ → SellPrice
percentage_price rate feature percentage = record {
  psc = feature.stability * rate (get_color feature.karbari) * percentage / 200 / rate Asset.psc;
  irr = feature.stability * rate (get_color feature.karbari) * percentage / 200;
  percentage = percentage;
}

-- the percentage of explicit prices
unfoldable pub implied_percentage : (Asset → ℕ) → Feature → ℕ → ℕ → ℕ
implied_percentage rate feature psc irr =
    let traded = feature.stability * rate (get_color feature.karbari) in
    if ltb 0 traded then (irr + psc * rate Asset.psc) * 100 / traded else 100

unfoldable pub explicit_price : (Asset → ℕ) → Feature → SellTerms → SellPrice
unfolding implied_percentage
explicit_price rate feature terms =
    let psc = price_or_zero terms.price_psc in
    let irr = price_or_zero terms.price_irr in
    record { psc = psc; irr = irr; percentage = implied_percentage rate feature psc irr }

-- the limit that the age of the seller sets
unfoldable pub limit_of : Bool → ℕ → ℕ → ℕ
limit_of under18 public_limit under18_limit = if under18 then under18_limit else public_limit

module _ {W : Type 0} where
  unfoldable pub create_sell_request_row : ℕ → ℕ → SellPrice → Market W → Market W
  create_sell_request_row seller_id feature_id price t = record t {
    sell_requests =
        t.sell_requests
        ++ (record {
          id = t.next_id;
          seller_id = seller_id;
          feature_id = feature_id;
          price_psc = price.psc;
          price_irr = price.irr;
          limit = price.percentage;
          status = 0;
        }
            ∷ []);
    next_id = t.next_id + 1;
  }

  unfoldable pub update_pricing : ℕ → Status → SellPrice → Market W → Market W
  update_pricing feature_id rgb price t = record t {
    features =
        update (is_feature feature_id)
          (λ f. record f {
            rgb = rgb;
            price_psc = price.psc;
            price_irr = price.irr;
            minimum_price_percentage = price.percentage;
          })
          t.features;
  }

  -- the price of the terms, or why there is none
  unfoldable pub price_terms : (Asset → ℕ) → Feature → SellTerms → ℕ → MarketAction W SellPrice
  price_terms rate feature terms limit = elim (ltb 0 terms.minimum_price_percentage) [
    | true ↦
        raise_if (ltb terms.minimum_price_percentage 80 || ltb terms.minimum_price_percentage limit)
          percentage_too_low
        >> pure (percentage_price rate feature terms.minimum_price_percentage)
    | false ↦
        raise_if (price_or_zero terms.price_psc == 0 && price_or_zero terms.price_irr == 0)
          price_required
        >> (raise_if (ltb (explicit_price rate feature terms).percentage limit) percentage_too_low
            >> pure (explicit_price rate feature terms))
  ]

  unfoldable pub create_sell_request :
      ℕ → ℕ → SellTerms → ℕ → ℕ → MarketAction W (Option SellFeatureRequest)
  unfolding find_feature is_user_under18 limit_of price_terms create_sell_request_row update_pricing
  create_sell_request seller_id feature_id terms public_limit under18_limit = do
    found ← find_feature feature_id
    feature ← or_raise found feature_not_found
    raise_if (not (feature.owner_id == seller_id)) unauthorized
    under18 ← is_user_under18 seller_id
    raise_if (has_explicit_prices terms && ltb 0 terms.minimum_price_percentage) mutually_exclusive
    raise_if (not (has_explicit_prices terms) && not (ltb 0 terms.minimum_price_percentage))
        price_required
    rate ← λ s. (ok s.tables.rate, s)
    price ← price_terms rate feature terms (limit_of under18 public_limit under18_limit)
    id ← insert (create_sell_request_row seller_id feature_id price)
    exec db_error
        (update_pricing feature_id (change_status_to_sold_and_priced feature.karbari) price)
    query db_error (λ t. select (λ r. r.id == id) t.sell_requests)

  unfoldable pub delete_sell_request : ℕ → ℕ → MarketAction W (Unit {0})
  unfolding find_feature
  delete_sell_request sell_request_id seller_id = do
    found ← query db_error (λ t. select (λ r. r.id == sell_request_id) t.sell_requests)
    request ← or_raise found request_not_found
    raise_if (not (request.seller_id == seller_id)) unauthorized
    found_feature ← find_feature request.feature_id
    feature ← or_raise found_feature feature_not_found
    exec db_error (λ t. record t {
      features =
          update (is_feature feature.id)
            (λ f. record f { rgb = change_status_to_sold_and_not_priced feature.karbari })
            t.features;
    })
    exec db_error
        (λ t. record t { sell_requests = delete (λ r. r.id == sell_request_id) t.sell_requests })

  -- No land is put up for sale by another than its owner, or at a percentage below 80 or below both
  -- limits, whatever calls fail: the call errs and no table has changed.
  pub create_sell_request_floor :
      (seller_id id : ℕ) (terms : SellTerms) (public_limit under18_limit : ℕ) (f : Feature)
      (s : Server (Market W))
      → select (is_feature id) s.tables.features ≡ some f
      → (f.owner_id ≢ seller_id)
        ⊎ ((0 < terms.minimum_price_percentage)
            × ((terms.minimum_price_percentage < 80)
                ⊎ ((terms.minimum_price_percentage < public_limit)
                    × (terms.minimum_price_percentage < under18_limit))))
      → let (result, s') = create_sell_request seller_id id terms public_limit under18_limit s in
        (is_ok result ≡ false) × (s'.tables ≡ s.tables)
  unfolding create_sell_request price_terms is_user_under18
  create_sell_request_floor seller_id id terms public_limit under18_limit f s found h = ground arith

  -- Whoever is not the seller deletes no sell request, whatever calls fail: the call errs and no table
  -- has changed.
  pub delete_sell_request_guarded :
      (id seller_id : ℕ) (r : SellFeatureRequest) (s : Server (Market W))
      → select (λ r. r.id == id) s.tables.sell_requests ≡ some r
      → r.seller_id ≢ seller_id
      → let (result, s') = delete_sell_request id seller_id s in
        (is_ok result ≡ false) × (s'.tables ≡ s.tables)
  unfolding delete_sell_request
  delete_sell_request_guarded id seller_id r s found h = ground arith

  -- The owner puts land up for sale at a percentage that is no less than 80 and both limits, on a server
  -- where no call fails: the call succeeds, and the land has the percentage, with half of that part of
  -- its value as its price in rials and half in PSC, and the status of priced land.
  pub create_sell_request_prices :
      (id percentage : ℕ) (public_limit under18_limit : ℕ) (f : Feature) (s : Server (Market W))
      → ((n : ℕ) → s.fails n ≡ false)
      → select (is_feature id) s.tables.features ≡ some f
      → 80 ≤ percentage
      → public_limit ≤ percentage
      → under18_limit ≤ percentage
      → let (result, s') =
          create_sell_request f.owner_id id
            (by_percentage percentage)
            public_limit
            under18_limit
            s in
        (is_ok result ≡ true)
        × (s'.tables.features
            ≡ (update_pricing id
                (change_status_to_sold_and_priced f.karbari)
                (percentage_price s.tables.rate f percentage)
                s.tables).features)
  unfolding create_sell_request price_terms is_user_under18 has_explicit_prices limit_of
      create_sell_request_row update_pricing
  create_sell_request_prices id percentage public_limit under18_limit f s up found floor public
        minor =
      ground (
        arith,
        up s.calls,
        up (s.calls + 1),
        up (s.calls + 1 + 1),
        up (s.calls + 1 + 1 + 1),
        up (s.calls + 1 + 1 + 1 + 1),
      )
