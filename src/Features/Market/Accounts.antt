-- ===== src/Features/Market/Accounts.antt =====
-- services/features-service/internal: what the marketplace reads of users, their hourly profits, and
-- `checkUnderpricedRestriction`.
use metaverse_rang_microserv.Common.{
  ℕ, ◌+◌, ◌*◌, Bool, true, false, ◌&&◌, Option, none, some, List, [], ◌∷◌, ◌++◌, ◌==◌, ltb,
  if◌then◌else◌,
}
use metaverse_rang_microserv.Common.Server.{or_raise, pure, query, query_or, exec, raise_if, ◌>>=◌}
use metaverse_rang_microserv.Common.Table.{select, count, update}
use metaverse_rang_microserv.Commercial.Wallet.{Asset}
use metaverse_rang_microserv.Features.Fees.{
  default_public_pricing_limit, default_under18_pricing_limit,
}
use metaverse_rang_microserv.Features.Client.Port.{WalletPort}
use metaverse_rang_microserv.Features.Market.{
  Feature, SellFeatureRequest, Trade, FeatureHourlyProfit, User, Market, MarketAction, db_error,
  underpriced, attempt, find_last, profit_of,
}

-- a day in seconds
abbrev pub day : ℕ
day = 86400

-- eighteen years of 365 days, and of 365.25 days: the code counts both
abbrev pub eighteen_years : ℕ
eighteen_years = 567648000

abbrev pub eighteen_julian_years : ℕ
eighteen_julian_years = 568036800

abbrev pub is_user : ℕ → User → Bool
is_user id u = u.id == id

unfoldable pub is_under18 : ℕ → Option ℕ → Bool
is_under18 limit none = false
is_under18 limit (some age) = ltb age limit

unfoldable pub pricing_limit : Bool → ℕ
pricing_limit under18 =
    if under18 then default_under18_pricing_limit else default_public_pricing_limit

unfoldable pub age_of : Option User → Option ℕ
age_of none = none
age_of (some u) = u.age

unfoldable pub withdraw_days : Option User → ℕ
withdraw_days none = 10
withdraw_days (some u) = elim u.withdraw_profit [ none ↦ 10 | some days ↦ days ]

-- `if withdrawProfitDays == 0`
unfoldable pub or_ten_days : ℕ → ℕ
or_ten_days days = if days == 0 then 10 else days

abbrev pub is_underpriced_for : ℕ → SellFeatureRequest → Bool
is_underpriced_for feature_id r = r.feature_id == feature_id && ltb r.limit 100

abbrev pub is_underpriced_of : ℕ → SellFeatureRequest → Bool
is_underpriced_of seller_id r = r.seller_id == seller_id && ltb r.limit 100

-- a trade of the seller's that joins an underpriced request of the same seller and feature
abbrev is_underpriced_trade : ℕ → ℕ → List SellFeatureRequest → Trade → Bool
is_underpriced_trade seller_id feature_id requests t =
    t.seller_id == seller_id
    && (t.feature_id == feature_id
        && ltb 0 (
            count
              (λ r. r.feature_id == t.feature_id && (r.seller_id == t.seller_id && ltb r.limit 100))
              requests))

module _ {W : Type 0} where
  -- the row of a buyer, whose absence is an error
  unfoldable pub get_buyer : ℕ → MarketAction W User
  get_buyer user_id = do
    found ← query db_error (λ t. select (is_user user_id) t.users)
    or_raise found db_error

  unfoldable pub is_user_under18 : ℕ → MarketAction W Bool
  unfolding is_under18 age_of
  is_user_under18 user_id =
      query_or false
        (λ t. is_under18 eighteen_julian_years (age_of (select (is_user user_id) t.users)))

  unfoldable pub get_user_variable_withdraw_profit : ℕ → MarketAction W ℕ
  get_user_variable_withdraw_profit user_id =
      query_or 10 (λ t. withdraw_days (select (is_user user_id) t.users))

  unfoldable pub get_rgb_user : MarketAction W (Option User)
  get_rgb_user = query_or none (λ t. select (λ u. u.is_rgb) t.users)

  unfoldable pub create_profit : ℕ → ℕ → Asset → ℕ → Market W → Market W
  create_profit user_id feature_id asset days t = record t {
    profits =
        t.profits
        ++ (record {
          id = t.next_id;
          user_id = user_id;
          feature_id = feature_id;
          asset = asset;
          amount = 0;
          dead_line = t.now + days * day;
          is_active = true;
        }
            ∷ []);
    next_id = t.next_id + 1;
  }

  unfoldable pub reset_profit : ℕ → ℕ → ℕ → Market W → Market W
  reset_profit profit_id new_owner_id days t = record t {
    profits =
        update (λ p. p.id == profit_id)
          (λ p. record p {
            user_id = new_owner_id;
            amount = 0;
            dead_line = t.now + days * day;
            is_active = true;
          })
          t.profits;
  }

  unfoldable pub get_profit : ℕ → ℕ → MarketAction W (Option FeatureHourlyProfit)
  get_profit feature_id user_id =
      query_or none (λ t. select (profit_of feature_id user_id) t.profits)

  -- `TransferProfitToNewOwner`; where the old owner has no row, the new one is made with the empty
  -- asset
  unfoldable pub transfer_profit : ℕ → ℕ → ℕ → ℕ → MarketAction W (Unit {0})
  unfolding get_profit create_profit reset_profit
  transfer_profit feature_id old_owner_id new_owner_id days = do
    found ← get_profit feature_id old_owner_id
    elim found [
      | none ↦ exec db_error (create_profit new_owner_id feature_id Asset.other days)
      | some profit ↦ exec db_error (reset_profit profit.id new_owner_id days)
    ]

  -- the profit that the seller has not withdrawn
  unfoldable pub pay_profit : WalletPort W → ℕ → ℕ → MarketAction W (Unit {0})
  unfolding get_profit
  pay_profit port feature_id owner_id = do
    old_profit ← get_profit feature_id owner_id
    elim old_profit [
      | none ↦ pure tt
      | some profit ↦ elim (ltb 0 profit.amount) [
        | false ↦ pure tt
        | true ↦ attempt (port.add_balance owner_id profit.asset profit.amount)
      ]
    ]

  check_latest_trade : ℕ → ℕ → MarketAction W (Unit {0})
  check_latest_trade seller_id feature_id = do
    latest_trade ←
        query_or none
          (λ t. find_last (is_underpriced_trade seller_id feature_id t.sell_requests) t.trades)
    elim latest_trade [
      | none ↦ pure tt
      | some trade ↦ λ s. raise_if (ltb s.tables.now (trade.created_at + day)) underpriced s
    ]

  check_latest_sell_request : ℕ → MarketAction W (Unit {0})
  unfolding check_latest_trade
  check_latest_sell_request owner_id = do
    latest_sell_req ← query_or none (λ t. find_last (is_underpriced_of owner_id) t.sell_requests)
    elim latest_sell_req [
      | none ↦ pure tt
      | some request ↦ check_latest_trade owner_id request.feature_id
    ]

  -- An owner who sold below the price in the last day waits.
  unfoldable pub check_underpriced_restriction : Feature → MarketAction W (Unit {0})
  unfolding check_latest_sell_request
  check_underpriced_restriction feature = do
    is_underpriced ←
        query_or false (λ t. ltb 0 (count (is_underpriced_for feature.id) t.sell_requests))
    elim is_underpriced [ false ↦ pure tt | true ↦ check_latest_sell_request feature.owner_id ]
