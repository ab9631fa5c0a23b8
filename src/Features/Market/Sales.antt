-- ===== src/Features/Market/Sales.antt =====
-- services/features-service/internal/service/marketplace_service.go: `AcceptBuyRequest`. The
-- statements of its transaction take effect at the commit; what it does outside the transaction takes
-- effect at once.
pub mod Payments
pub mod Guards
pub mod Records
pub mod Runs
use metaverse_rang_microserv.Common.{
  ℕ, ◌-◌, ◌*◌, Bool, true, false, not, Option, none, some, List, [], ◌∷◌, ◌++◌, ◌==◌, if◌then◌else◌,
}
use metaverse_rang_microserv.Common.Server.{
  ok, or_raise, pure, raise, query, query_or, exec, raise_if, ◌>>=◌, ◌>>◌,
}
use metaverse_rang_microserv.Common.Table.{select, select_all, update}
use metaverse_rang_microserv.Commercial.Wallet.{Asset}
use metaverse_rang_microserv.Features.Fees.{
  to_amount, calculate_fee, change_status_to_sold_and_not_priced,
}
use metaverse_rang_microserv.Features.Client.Port.{WalletPort}
use metaverse_rang_microserv.Features.Market.{
  Feature, BuyFeatureRequest, FeatureHourlyProfit, User, Market, MarketAction, db_error,
  feature_not_found, request_not_found, unauthorized, not_pending, locked_assets_not_found,
  wallet_error, must, call, attempt, insert, find_feature, find_buy_request, get_by_buy_request_id,
  delete_lock, soft_delete, update_owner, update_status, create_trade, has_id, is_open_for,
}
use metaverse_rang_microserv.Features.Market.Accounts.{
  is_user_under18, pricing_limit, get_user_variable_withdraw_profit, or_ten_days, get_rgb_user,
  get_profit, create_profit, reset_profit, pay_profit, check_underpriced_restriction,
}
use metaverse_rang_microserv.Features.Market.BuyRequests.{refund_buy_request}

module _ {W : Type 0} where
  unfoldable pub create_commission : ℕ → ℕ → ℕ → Market W → Market W
  create_commission trade_id psc irr t = record t {
    commissions = t.commissions ++ (record { trade_id = trade_id; psc = psc; irr = irr } ∷ []);
  }

  unfoldable pub update_request_status : ℕ → ℕ → Market W → Market W
  update_request_status id status t = record t {
    buy_requests = update (has_id id) (λ r. record r { status = status }) t.buy_requests;
  }

  unfoldable pub complete_sell_requests : ℕ → Market W → Market W
  complete_sell_requests feature_id t = record t {
    sell_requests =
        update (λ r. r.feature_id == feature_id) (λ r. record r { status = 1 }) t.sell_requests;
  }

  -- a statement of an open transaction: it can fail, and is seen only after the commit
  abbrev pub in_transaction : MarketAction W (Unit {0})
  in_transaction = query db_error (λ _. tt)

  -- `TransferProfitToNewOwnerWithTx`, which answers the row whose update is left for the commit. A row
  -- that is missing is created at once, outside the transaction.
  unfoldable pub transfer_profit_in_transaction : ℕ → ℕ → ℕ → ℕ → MarketAction W (Option ℕ)
  unfolding get_profit create_profit reset_profit
  transfer_profit_in_transaction feature_id old_owner_id new_owner_id days = do
    found ← get_profit feature_id old_owner_id
    elim found [
      | none ↦ exec db_error (create_profit new_owner_id feature_id Asset.other days) >> pure none
      | some profit ↦ in_transaction >> pure (some profit.id)
    ]

  -- the update of a profit that was left for the commit
  unfoldable pub transfer_left : Option ℕ → ℕ → ℕ → Market W → Market W
  unfolding reset_profit
  transfer_left none new_owner_id days t = t
  transfer_left (some profit_id) new_owner_id days t = reset_profit profit_id new_owner_id days t

  -- what the transaction writes, in order
  unfoldable pub sale : BuyFeatureRequest → Feature → ℕ → ℕ → ℕ → Option ℕ → Market W → Market W
  unfolding transfer_left create_commission update_owner update_status update_request_status
      soft_delete delete_lock complete_sell_requests
  sale request feature trade_id limit days transfer t = complete_sell_requests request.feature_id (
      delete_lock request.id (
        soft_delete request.id (
          update_request_status request.id 1 (
            transfer_left transfer request.buyer_id days (
              update_status feature.id (change_status_to_sold_and_not_priced feature.karbari) limit
                (update_owner feature.id request.buyer_id (
                  create_commission trade_id (calculate_fee request.price_psc * 2)
                    (calculate_fee request.price_irr * 2) t)))))))

module _ {W : Type 0} (port : WalletPort W) where
  -- the price less the fee, the first amount taken back when the second is refused
  unfoldable pub pay_seller : ℕ → ℕ → ℕ → MarketAction W (Unit {0})
  pay_seller seller_id price_psc price_irr = do
    must wallet_error
        (port.add_balance seller_id Asset.psc (to_amount price_psc - calculate_fee price_psc))
    paid ←
        call (port.add_balance seller_id Asset.irr (to_amount price_irr - calculate_fee price_irr))
    elim paid [
      | true ↦ pure tt
      | false ↦
          attempt (
            port.deduct_balance seller_id Asset.psc (to_amount price_psc - calculate_fee price_psc))
          >> raise wallet_error
    ]

  -- the platform's two fees, best effort
  unfoldable pub pay_platform : ℕ → ℕ → MarketAction W (Unit {0})
  unfolding get_rgb_user
  pay_platform fee_psc fee_irr = do
    rgb ← get_rgb_user
    elim rgb [
      | none ↦ pure tt
      | some u ↦
          attempt (port.add_balance u.id Asset.psc fee_psc)
          >> attempt (port.add_balance u.id Asset.irr fee_irr)
    ]

  -- the payments of an accepted request
  unfoldable pub settle : BuyFeatureRequest → Feature → MarketAction W (Unit {0})
  unfolding pay_seller pay_platform pay_profit
  settle request feature = do
    pay_seller request.seller_id request.price_psc request.price_irr
    pay_platform (calculate_fee request.price_psc * 2) (calculate_fee request.price_irr * 2)
    pay_profit port feature.id request.seller_id

  -- every other request for the feature
  unfoldable pub refund_others : ℕ → List BuyFeatureRequest → MarketAction W (Unit {0})
  unfolding refund_buy_request
  refund_others request_id [] = pure tt
  refund_others request_id (request ∷ requests) = do
    elim (request.id == request_id) [ true ↦ pure tt | false ↦ refund_buy_request port request.id ]
    refund_others request_id requests

  -- the trade, and the statements of the transaction up to the refunds
  unfoldable pub open_sale : BuyFeatureRequest → Feature → MarketAction W (ℕ × ℕ × ℕ × Option ℕ)
  unfolding create_trade is_user_under18 pricing_limit get_user_variable_withdraw_profit or_ten_days
      transfer_profit_in_transaction
  open_sale request feature = do
    in_transaction
    trade_id ← insert (
        create_trade request.feature_id request.buyer_id request.seller_id
          (to_amount request.price_irr) (to_amount request.price_psc))
    in_transaction
    in_transaction
    under18 ← is_user_under18 request.buyer_id
    in_transaction
    days ← get_user_variable_withdraw_profit request.buyer_id
    transfer ←
        transfer_profit_in_transaction feature.id request.seller_id request.buyer_id
          (or_ten_days days)
    in_transaction
    in_transaction
    in_transaction
    pure (trade_id, pricing_limit under18, or_ten_days days, transfer)

  -- the refunds, the last statement and the commit
  unfoldable pub close_sale :
      BuyFeatureRequest → Feature → ℕ → ℕ → ℕ → Option ℕ → MarketAction W (Unit {0})
  unfolding refund_others sale
  close_sale request feature trade_id limit days transfer = do
    all_requests ← query_or [] (λ t. select_all (is_open_for request.feature_id) t.buy_requests)
    refund_others request.id all_requests
    in_transaction
    exec db_error (sale request feature trade_id limit days transfer)

  unfoldable pub record_sale : BuyFeatureRequest → Feature → MarketAction W (Unit {0})
  unfolding open_sale close_sale
  record_sale request feature = do
    (trade_id, limit, days, transfer) ← open_sale request feature
    close_sale request feature trade_id limit days transfer

  -- the checks, up to the first payment
  unfoldable pub check_sale : ℕ → ℕ → MarketAction W (BuyFeatureRequest × Feature)
  unfolding find_buy_request find_feature check_underpriced_restriction get_by_buy_request_id
  check_sale request_id seller_id = do
    found ← find_buy_request request_id
    request ← or_raise found request_not_found
    raise_if (not (request.seller_id == seller_id)) unauthorized
    raise_if (not (request.status == 0)) not_pending
    found_feature ← find_feature request.feature_id
    feature ← or_raise found_feature feature_not_found
    check_underpriced_restriction feature
    locked ← get_by_buy_request_id request_id
    _ ← or_raise locked locked_assets_not_found
    pure (request, feature)

  unfoldable pub accept_buy_request : ℕ → ℕ → MarketAction W BuyFeatureRequest
  unfolding check_sale settle record_sale
  accept_buy_request request_id seller_id = do
    (request, feature) ← check_sale request_id seller_id
    settle request feature
    record_sale request feature
    pure request
