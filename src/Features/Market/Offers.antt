-- ===== src/Features/Market/Offers.antt =====
-- services/features-service/internal/service/marketplace_service.go: `SendBuyRequest`.
pub mod Funds
pub mod Refusal
use metaverse_rang_microserv.Common.{
  ℕ, ◌+◌, ◌*◌, Bool, true, false, not, ◌&&◌, Option, none, some, List, [], ◌∷◌, ◌++◌, ◌==◌, ltb,
  if◌then◌else◌,
}
use metaverse_rang_microserv.Common.Server.{
  ok, or_raise, pure, raise, query, query_or, try_exec, raise_if, ◌>>=◌, ◌>>◌,
}
use metaverse_rang_microserv.Common.Table.{select, count}
use metaverse_rang_microserv.Commercial.Wallet.{Asset}
use metaverse_rang_microserv.Features.Fees.{calculate_buyer_charge, get_color}
use metaverse_rang_microserv.Features.Client.Port.{WalletPort, has_balance}
use metaverse_rang_microserv.Features.Market.{
  Feature, BuyFeatureRequest, LockedAsset, Market, MarketAction, db_error, feature_not_found,
  already_pending, both_zero, below_floor, insufficient_psc, insufficient_irr, wallet_error, must,
  call, attempt, insert, find_feature, is_request, is_pending_of,
}

-- `actualPercentage < floorPercentage`, multiplied out
unfoldable pub is_below_floor : (Asset → ℕ) → Feature → ℕ → ℕ → Bool
is_below_floor rate feature price_psc price_irr =
    ltb ((price_irr + price_psc * rate Asset.psc) * 100)
      (feature.minimum_price_percentage * (feature.stability * rate (get_color feature.karbari)))

module _ {W : Type 0} where
  unfoldable pub create_buy_request : ℕ → ℕ → ℕ → ℕ → ℕ → Market W → Market W
  create_buy_request buyer_id seller_id feature_id price_psc price_irr t = record t {
    buy_requests =
        t.buy_requests
        ++ (record {
          id = t.next_id;
          buyer_id = buyer_id;
          seller_id = seller_id;
          feature_id = feature_id;
          price_psc = price_psc;
          price_irr = price_irr;
          status = 0;
          requested_grace_period = none;
          deleted = false;
        }
            ∷ []);
    next_id = t.next_id + 1;
  }

  unfoldable pub create_lock : ℕ → ℕ → ℕ → ℕ → Market W → Market W
  create_lock request_id feature_id psc irr t = record t {
    locked_assets =
        t.locked_assets
        ++ (record {
          buy_feature_request_id = request_id;
          feature_id = feature_id;
          psc = psc;
          irr = irr;
        }
            ∷ []);
  }

module _ {W : Type 0} (port : WalletPort W) where
  -- a deduction of both amounts, the first put back when the second is refused
  unfoldable pub deduct_both : ℕ → ℕ → ℕ → MarketAction W (Unit {0})
  deduct_both buyer_id psc irr = do
    must wallet_error (port.deduct_balance buyer_id Asset.psc psc)
    deducted ← call (port.deduct_balance buyer_id Asset.irr irr)
    elim deducted [
      | true ↦ pure tt
      | false ↦ attempt (port.add_balance buyer_id Asset.psc psc) >> raise wallet_error
    ]

  -- the buyer's funds are taken, and locked in the name of the request
  unfoldable pub lock_funds : ℕ → ℕ → ℕ → ℕ → ℕ → MarketAction W (Unit {0})
  unfolding deduct_both create_lock
  lock_funds request_id buyer_id feature_id psc irr = do
    deduct_both buyer_id psc irr
    try_exec (create_lock request_id feature_id psc irr)

  -- the two balance checks, both made before either is tested
  unfoldable pub check_balances : ℕ → ℕ → ℕ → MarketAction W (Unit {0})
  check_balances buyer_id psc irr = do
    has_psc ← call (has_balance port buyer_id Asset.psc psc)
    has_irr ← call (has_balance port buyer_id Asset.irr irr)
    raise_if (not has_psc) insufficient_psc
    raise_if (not has_irr) insufficient_irr

  -- `SendBuyRequest`; `connected` is false where there is no client of the wallets
  unfoldable pub send_buy_request : Bool → ℕ → ℕ → ℕ → ℕ → MarketAction W (Option BuyFeatureRequest)
  unfolding find_feature check_balances create_buy_request lock_funds
  send_buy_request connected buyer_id feature_id price_psc price_irr = do
    found ← find_feature feature_id
    feature ← or_raise found feature_not_found
    has_pending ←
        query_or false (λ t. ltb 0 (count (is_pending_of buyer_id feature_id) t.buy_requests))
    raise_if has_pending already_pending
    raise_if (price_psc == 0 && price_irr == 0) both_zero
    below ← λ s. (ok (is_below_floor s.tables.rate feature price_psc price_irr), s)
    raise_if below below_floor
    (if connected
        then check_balances buyer_id (calculate_buyer_charge price_psc)
            (calculate_buyer_charge price_irr)
        else pure tt)
    request_id ←
        insert (create_buy_request buyer_id feature.owner_id feature_id price_psc price_irr)
    (if connected
        then lock_funds request_id buyer_id feature_id (calculate_buyer_charge price_psc)
            (calculate_buyer_charge price_irr)
        else pure tt)
    query db_error (λ t. select (is_request request_id) t.buy_requests)
