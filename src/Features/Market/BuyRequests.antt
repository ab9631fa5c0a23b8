-- ===== src/Features/Market/BuyRequests.antt =====
-- services/features-service/internal/service/marketplace_service.go: what becomes of a buy request
-- that is not accepted. The rows of the transactions ledger, notifications, metrics and logs are left
-- out; the statement that deletes the ledger rows is kept as a call.
pub mod Release
pub mod Refunds
pub mod Invariant
use metaverse_rang_microserv.Common.{
  ℕ, ◌+◌, ◌*◌, Bool, true, false, not, ◌&&◌, ◌||◌, Option, none, some, List, [], ◌∷◌, ◌==◌, ltb,
  if◌then◌else◌,
}
use metaverse_rang_microserv.Common.Server.{
  Action, pure, raise, or_raise, query_or, exec, try_exec, raise_if, ◌>>=◌, ◌>>◌,
}
use metaverse_rang_microserv.Commercial.Wallet.{Asset}
use metaverse_rang_microserv.Features.Client.Port.{WalletPort}
use metaverse_rang_microserv.Features.Market.{
  BuyFeatureRequest, LockedAsset, Market, MarketAction, Error, db_error, request_not_found,
  unauthorized, not_pending, wallet_error, locked_assets_not_found, grace_period_range, must,
  attempt, find_buy_request, get_by_buy_request_id, delete_lock, delete_buy_request_row,
  soft_delete, update_grace_period_row, panicked, is_request,
}
use metaverse_rang_microserv.Common.Table.{select}

module _ {W : Type 0} (port : WalletPort W) where
  -- the refund of a locked amount to the buyer, and its rows
  pub release : BuyFeatureRequest → MarketAction W (Unit {0})
  unfolding get_by_buy_request_id delete_lock delete_buy_request_row
  release buy_request = do
    found ← get_by_buy_request_id buy_request.id
    locked_asset ← or_raise found locked_assets_not_found
    must wallet_error (port.add_balance buy_request.buyer_id Asset.psc locked_asset.psc)
    must wallet_error (port.add_balance buy_request.buyer_id Asset.irr locked_asset.irr)
    try_exec (λ t. t)
    try_exec (delete_lock buy_request.id)
    exec db_error (delete_buy_request_row buy_request.id)

  unfoldable pub reject_buy_request : ℕ → ℕ → MarketAction W (Unit {0})
  unfolding find_buy_request release
  reject_buy_request request_id seller_id = do
    found ← find_buy_request request_id
    buy_request ← or_raise found request_not_found
    raise_if (not (buy_request.seller_id == seller_id)) unauthorized
    release buy_request

  unfoldable pub delete_buy_request : ℕ → ℕ → MarketAction W (Unit {0})
  unfolding find_buy_request release
  delete_buy_request request_id buyer_id = do
    found ← find_buy_request request_id
    buy_request ← or_raise found request_not_found
    raise_if (not (buy_request.buyer_id == buyer_id)) unauthorized
    release buy_request

  -- `refundBuyRequest`, after its two reads; a request that is not there is a nil pointer
  refund : Option BuyFeatureRequest → LockedAsset → MarketAction W (Unit {0})
  unfolding delete_lock soft_delete
  refund none locked_asset = raise panicked
  refund (some buy_request) locked_asset = do
    attempt (port.add_balance buy_request.buyer_id Asset.psc locked_asset.psc)
    attempt (port.add_balance buy_request.buyer_id Asset.irr locked_asset.irr)
    try_exec (delete_lock buy_request.id)
    try_exec (soft_delete buy_request.id)

  refund_found : ℕ → Option (Option BuyFeatureRequest) → MarketAction W (Unit {0})
  unfolding refund get_by_buy_request_id
  refund_found request_id none = pure tt
  refund_found request_id (some buy_request) = do
    locked ← get_by_buy_request_id request_id
    elim locked [ none ↦ pure tt | some locked_asset ↦ refund buy_request locked_asset ]

  -- the refund of a request that lost to another, best effort
  unfoldable pub refund_buy_request : ℕ → MarketAction W (Unit {0})
  unfolding refund_found
  refund_buy_request request_id = do
    found ← query_or none (λ t. some (select (is_request request_id) t.buy_requests))
    refund_found request_id found

-- a day in seconds
abbrev day : ℕ
day = 86400

unfoldable pub update_grace_period : {W : Type 0} → ℕ → ℕ → ℕ → MarketAction W (Unit {0})
unfolding find_buy_request update_grace_period_row
update_grace_period request_id seller_id grace_period_days s =
    (do
      raise_if (ltb grace_period_days 1 || ltb 30 grace_period_days) grace_period_range
      found ← find_buy_request request_id
      buy_request ← or_raise found request_not_found
      raise_if (not (buy_request.seller_id == seller_id)) unauthorized
      raise_if (not (buy_request.status == 0)) not_pending
      exec db_error (update_grace_period_row request_id (s.tables.now + grace_period_days * day)))
      s
