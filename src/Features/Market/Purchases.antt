-- ===== src/Features/Market/Purchases.antt =====
-- services/features-service/internal/service/marketplace_service.go: `BuyFeature` and its three
-- paths. None of it is in a transaction.
pub mod Refusal
pub mod Stranded
use metaverse_rang_microserv.Common.{
  ℕ, ◌-◌, ◌*◌, Bool, true, false, not, ◌&&◌, ◌||◌, Option, none, some, List, [], ◌∷◌, ◌++◌, ◌==◌,
}
use metaverse_rang_microserv.Common.Server.{
  ok, or_raise, pure, raise, query, query_or, exec, try_exec, raise_if, logged, ◌>>=◌, ◌>>◌,
}
use metaverse_rang_microserv.Common.Table.{select}
use metaverse_rang_microserv.Commercial.Wallet.{Asset}
use metaverse_rang_microserv.Features.Fees.{
  Karbari, to_amount, calculate_buyer_charge, calculate_seller_payment, calculate_platform_fee,
  get_color, change_status_to_sold_and_not_priced, is_limited_feature,
}
use metaverse_rang_microserv.Features.Client.Port.{WalletPort, has_balance}
use metaverse_rang_microserv.Features.Market.{
  Feature, FeatureHourlyProfit, User, Market, MarketAction, db_error, feature_not_found,
  wallet_error, insufficient_balance, limitation, must, call, attempt, insert, find_feature,
  update_owner, update_status, create_trade, cancel_all_for_feature,
}
use metaverse_rang_microserv.Features.Market.Accounts.{
  get_buyer, is_under18, eighteen_years, pricing_limit, get_user_variable_withdraw_profit,
  or_ten_days, create_profit, transfer_profit, pay_profit, check_underpriced_restriction,
}
use metaverse_rang_microserv.Features.Market.Offers.{deduct_both}
use metaverse_rang_microserv.Features.Market.Sales.{
  create_commission, complete_sell_requests, pay_platform,
}

-- what the model reads of a row of feature_limits
pub record FeatureLimit : Type 0 where
  pub id : ℕ
  pub price_limit : Bool

module _ {W : Type 0} (port : WalletPort W) where
  -- the color that a feature costs, from the buyer to the owner, put back when the owner's credit fails
  unfoldable pub pay_color : Feature → ℕ → MarketAction W (Unit {0})
  pay_color feature buyer_id = do
    must wallet_error
        (port.deduct_balance buyer_id (get_color feature.karbari) (to_amount feature.stability))
    credited ← call (
        port.add_balance feature.owner_id (get_color feature.karbari) (to_amount feature.stability))
    elim credited [
      | true ↦ pure tt
      | false ↦
          attempt
            (port.add_balance buyer_id (get_color feature.karbari) (to_amount feature.stability))
          >> raise wallet_error
    ]

  unfoldable pub check_color : Feature → ℕ → MarketAction W (Unit {0})
  check_color feature buyer_id = do
    has_balance ←
        call (has_balance port buyer_id (get_color feature.karbari) (to_amount feature.stability))
    raise_if (not has_balance) insufficient_balance

  -- the owner and the properties of a feature that is sold
  unfoldable pub hand_over : Feature → User → MarketAction W (Unit {0})
  unfolding update_owner update_status pricing_limit is_under18
  hand_over feature buyer = do
    exec db_error (update_owner feature.id buyer.id)
    exec db_error (
        update_status feature.id (change_status_to_sold_and_not_priced feature.karbari)
          (pricing_limit (is_under18 eighteen_years buyer.age)))

  -- `handleLimitedFeature`; the row of limited_feature_purchases is only written
  unfoldable pub handle_limited_feature :
      Option FeatureLimit → Feature → ℕ → MarketAction W (Unit {0})
  unfolding get_buyer check_color pay_color hand_over create_trade get_user_variable_withdraw_profit
      create_profit
  handle_limited_feature limit feature buyer_id = do
    found ← query_or none (λ _. limit)
    limit ← or_raise found limitation
    buyer ← get_buyer buyer_id
    elim limit.price_limit [ true ↦ check_color feature buyer_id | false ↦ pure tt ]
    pay_color feature buyer_id
    hand_over feature buyer
    _ ← insert (create_trade feature.id buyer_id feature.owner_id 0 0)
    days ← get_user_variable_withdraw_profit buyer_id
    try_exec (create_profit buyer_id feature.id (get_color feature.karbari) days)
    try_exec (λ t. t)

  unfoldable pub buy_from_rgb : Feature → ℕ → MarketAction W (Unit {0})
  unfolding get_buyer check_color pay_color hand_over create_trade get_user_variable_withdraw_profit
      or_ten_days create_profit
  buy_from_rgb feature buyer_id = do
    buyer ← get_buyer buyer_id
    check_color feature buyer_id
    pay_color feature buyer_id
    hand_over feature buyer
    _ ← insert (create_trade feature.id buyer_id feature.owner_id 0 0)
    days ← get_user_variable_withdraw_profit buyer_id
    try_exec (create_profit buyer_id feature.id (get_color feature.karbari) (or_ten_days days))

  -- the payments of a sale between users
  unfoldable pub pay_price : Feature → ℕ → MarketAction W (Unit {0})
  unfolding deduct_both pay_platform
  pay_price feature buyer_id = do
    deduct_both port buyer_id (calculate_buyer_charge feature.price_psc)
        (calculate_buyer_charge feature.price_irr)
    must wallet_error
        (port.add_balance feature.owner_id Asset.psc (calculate_seller_payment feature.price_psc))
    must wallet_error
        (port.add_balance feature.owner_id Asset.irr (calculate_seller_payment feature.price_irr))
    pay_platform port (calculate_platform_fee feature.price_psc)
        (calculate_platform_fee feature.price_irr)

  -- the rows of a sale between users
  unfoldable pub record_purchase : Feature → User → MarketAction W (Unit {0})
  unfolding create_trade create_commission hand_over get_user_variable_withdraw_profit or_ten_days
      pay_profit transfer_profit cancel_all_for_feature complete_sell_requests
  record_purchase feature buyer = do
    trade_id ← insert (
        create_trade feature.id buyer.id feature.owner_id (to_amount feature.price_irr)
          (to_amount feature.price_psc))
    try_exec (
        create_commission trade_id (calculate_platform_fee feature.price_psc)
          (calculate_platform_fee feature.price_irr))
    hand_over feature buyer
    days ← get_user_variable_withdraw_profit buyer.id
    pay_profit port feature.id feature.owner_id
    logged (transfer_profit feature.id feature.owner_id buyer.id (or_ten_days days))
    try_exec (cancel_all_for_feature feature.id)
    try_exec (complete_sell_requests feature.id)

  unfoldable pub buy_from_user : Feature → ℕ → MarketAction W (Unit {0})
  unfolding check_underpriced_restriction get_buyer pay_price record_purchase
  buy_from_user feature buyer_id = do
    check_underpriced_restriction feature
    buyer ← get_buyer buyer_id
    has_psc ← call (has_balance port buyer_id Asset.psc (calculate_buyer_charge feature.price_psc))
    has_irr ← call (has_balance port buyer_id Asset.irr (calculate_buyer_charge feature.price_irr))
    raise_if (not has_psc || not has_irr) insufficient_balance
    pay_price feature buyer_id
    record_purchase feature buyer

  -- `BuyFeature`; `limit_of` is what feature_limits holds for a feature now
  unfoldable pub buy_feature : (Feature → Option FeatureLimit) → ℕ → ℕ → MarketAction W Feature
  unfolding find_feature get_buyer handle_limited_feature buy_from_rgb buy_from_user
  buy_feature limit_of feature_id buyer_id = do
    found ← find_feature feature_id
    feature ← or_raise found feature_not_found
    owner ← get_buyer feature.owner_id
    elim (is_limited_feature feature.rgb) [
      | true ↦ handle_limited_feature (limit_of feature) feature buyer_id
      | false ↦ elim owner.is_rgb [
        | true ↦ buy_from_rgb feature buyer_id
        | false ↦ buy_from_user feature buyer_id
      ]
    ]
    updated ← find_feature feature_id
    or_raise updated feature_not_found
