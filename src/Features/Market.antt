-- ===== src/Features/Market.antt =====
-- services/features-service/internal/repository: the tables of the marketplace and the statements of
-- its repositories. The wallets are beside them, behind a port. Times are seconds; a birthdate is an
-- age, as of now; a stability is in price quanta; the texts of notes and names are left out.
pub mod Accounts
pub mod BuyRequests
pub mod Offers
pub mod Sales
pub mod Purchases
pub mod Escrow
pub mod SellRequests
mod Tests
use metaverse_rang_microserv.Common.{
  ℕ, ◌+◌, ◌*◌, Bool, true, false, not, ◌&&◌, Option, none, some, List, [], ◌∷◌, ◌++◌, ◌==◌, ltb,
  if◌then◌else◌,
}
use metaverse_rang_microserv.Common.Table.{select, count, update, delete, select_all}
use metaverse_rang_microserv.Common.Server.{Action, ok, err, query_or}
use metaverse_rang_microserv.Commercial.Wallet.{Asset}
use metaverse_rang_microserv.Features.Fees.{Karbari, Status}
use metaverse_rang_microserv.Features.Client.Port.{WalletPort, has_balance}

-- a feature with its properties
pub record Feature : Type 0 where
  pub id : ℕ
  pub owner_id : ℕ
  pub karbari : Karbari
  pub rgb : Status
  pub stability : ℕ
  pub price_psc : ℕ
  pub price_irr : ℕ
  pub minimum_price_percentage : ℕ

pub record BuyFeatureRequest : Type 0 where
  pub id : ℕ
  pub buyer_id : ℕ
  pub seller_id : ℕ
  pub feature_id : ℕ
  pub price_psc : ℕ
  pub price_irr : ℕ
  pub status : ℕ
  pub requested_grace_period : Option ℕ
  pub deleted : Bool

pub record SellFeatureRequest : Type 0 where
  pub id : ℕ
  pub seller_id : ℕ
  pub feature_id : ℕ
  pub price_psc : ℕ
  pub price_irr : ℕ
  pub limit : ℕ
  pub status : ℕ

-- amounts, not prices
pub record LockedAsset : Type 0 where
  pub buy_feature_request_id : ℕ
  pub feature_id : ℕ
  pub psc : ℕ
  pub irr : ℕ

pub record Trade : Type 0 where
  pub id : ℕ
  pub feature_id : ℕ
  pub buyer_id : ℕ
  pub seller_id : ℕ
  pub irr_amount : ℕ
  pub psc_amount : ℕ
  pub created_at : ℕ

pub record Commission : Type 0 where
  pub trade_id : ℕ
  pub psc : ℕ
  pub irr : ℕ

pub record FeatureHourlyProfit : Type 0 where
  pub id : ℕ
  pub user_id : ℕ
  pub feature_id : ℕ
  pub asset : Asset
  pub amount : ℕ
  pub dead_line : ℕ
  pub is_active : Bool

-- a row of users with its rows of kycs and user_variables; `age` is in seconds, and none without a
-- birthdate; `is_rgb` says that the code is the platform's
pub record User : Type 0 where
  pub id : ℕ
  pub is_rgb : Bool
  pub age : Option ℕ
  pub withdraw_profit : Option ℕ

-- `rate` is the variables table, 1 where it has no row
pub record Market (W : Type 0) : Type 0 where
  pub wallets : W
  pub features : List Feature
  pub buy_requests : List BuyFeatureRequest
  pub sell_requests : List SellFeatureRequest
  pub locked_assets : List LockedAsset
  pub trades : List Trade
  pub commissions : List Commission
  pub profits : List FeatureHourlyProfit
  pub users : List User
  pub rate : Asset → ℕ
  pub next_id : ℕ
  pub now : ℕ

pub data Error : Type 0 where
  db_error feature_not_found request_not_found unauthorized not_pending : Error
  already_pending both_zero below_floor insufficient_psc insufficient_irr : Error
  wallet_error locked_assets_not_found underpriced grace_period_range : Error
  mutually_exclusive price_required percentage_too_low insufficient_balance limitation panicked :
      Error

-- the WHERE tests
abbrev pub is_feature : ℕ → Feature → Bool
is_feature id f = f.id == id

-- `WHERE id = ? AND deleted_at IS NULL`
abbrev pub is_request : ℕ → BuyFeatureRequest → Bool
is_request id r = r.id == id && not r.deleted

-- `WHERE id = ?`
abbrev pub has_id : ℕ → BuyFeatureRequest → Bool
has_id id r = r.id == id

abbrev pub is_open_for : ℕ → BuyFeatureRequest → Bool
is_open_for feature_id r = r.feature_id == feature_id && not r.deleted

abbrev pub is_pending_of : ℕ → ℕ → BuyFeatureRequest → Bool
is_pending_of buyer_id feature_id r =
    r.buyer_id == buyer_id && (r.feature_id == feature_id && (r.status == 0 && not r.deleted))

abbrev pub locks : ℕ → LockedAsset → Bool
locks request_id l = l.buy_feature_request_id == request_id

abbrev pub profit_of : ℕ → ℕ → FeatureHourlyProfit → Bool
profit_of feature_id user_id p = p.feature_id == feature_id && p.user_id == user_id

-- `... DESC LIMIT 1`, on rows in the order of their creation: the last that passes
pub find_last {ℓ} : {R : Type ℓ} → (R → Bool) → List R → Option R
find_last p [] = none
find_last p (r ∷ l) =
    let rest = find_last p l in elim rest [ some x ↦ some x | none ↦ if p r then some r else none ]

abbrev pub MarketAction : Type 0 → Type 0 → Type 0
MarketAction W = Action (Market W) Error

module _ {W : Type 0} where
  -- a wallet call that a handler waits for: its error ends the handler
  abbrev pub must : Error → (W → Bool × W) → MarketAction W (Unit {0})
  must e f s =
      let (done, w) = f s.tables.wallets in
      let s' = record s { tables = record s.tables { wallets = w } } in
      elim done [ true ↦ (ok tt, s') | false ↦ (err e, s') ]

  -- a wallet call whose answer the handler tests
  abbrev pub call : (W → Bool × W) → MarketAction W Bool
  call f s =
      let (done, w) = f s.tables.wallets in
      (ok done, record s { tables = record s.tables { wallets = w } })

  -- an insert, and the id of its row
  abbrev pub insert : (Market W → Market W) → MarketAction W ℕ
  insert f s = elim (s.fails s.calls) [
    | true ↦ (err db_error, record s { calls = s.calls + 1 })
    | false ↦ (ok s.tables.next_id, record s { tables = f s.tables; calls = s.calls + 1 })
  ]

  -- `_ = client. ...`: the error is dropped
  abbrev pub attempt : (W → Bool × W) → MarketAction W (Unit {0})
  attempt f s = (ok tt, record s { tables = record s.tables { wallets = (f s.tables.wallets).1 } })

  -- the repositories' reads of one row, where an error and no row are the same to the caller
  unfoldable pub find_feature : ℕ → MarketAction W (Option Feature)
  find_feature id = query_or none (λ t. select (is_feature id) t.features)

  unfoldable pub find_buy_request : ℕ → MarketAction W (Option BuyFeatureRequest)
  find_buy_request id = query_or none (λ t. select (is_request id) t.buy_requests)

  unfoldable pub get_by_buy_request_id : ℕ → MarketAction W (Option LockedAsset)
  get_by_buy_request_id request_id = query_or none (λ t. select (locks request_id) t.locked_assets)

  unfoldable pub delete_lock : ℕ → Market W → Market W
  delete_lock request_id t = record t { locked_assets = delete (locks request_id) t.locked_assets }

  unfoldable pub delete_buy_request_row : ℕ → Market W → Market W
  delete_buy_request_row id t = record t { buy_requests = delete (has_id id) t.buy_requests }

  unfoldable pub soft_delete : ℕ → Market W → Market W
  soft_delete id t = record t {
    buy_requests = update (has_id id) (λ r. record r { deleted = true }) t.buy_requests;
  }

  unfoldable pub cancel_all_for_feature : ℕ → Market W → Market W
  cancel_all_for_feature feature_id t = record t {
    buy_requests =
        update (is_open_for feature_id) (λ r. record r { deleted = true }) t.buy_requests;
  }

  unfoldable pub update_grace_period_row : ℕ → ℕ → Market W → Market W
  update_grace_period_row id at t = record t {
    buy_requests =
        update (has_id id) (λ r. record r { requested_grace_period = some at }) t.buy_requests;
  }

  unfoldable pub update_owner : ℕ → ℕ → Market W → Market W
  update_owner feature_id new_owner_id t = record t {
    features =
        update (is_feature feature_id) (λ f. record f { owner_id = new_owner_id }) t.features;
  }

  unfoldable pub update_status : ℕ → Status → ℕ → Market W → Market W
  update_status feature_id rgb min_percentage t = record t {
    features =
        update (is_feature feature_id)
          (λ f. record f { rgb = rgb; minimum_price_percentage = min_percentage }) t.features;
  }

  unfoldable pub create_trade : ℕ → ℕ → ℕ → ℕ → ℕ → Market W → Market W
  create_trade feature_id buyer_id seller_id irr_amount psc_amount t = record t {
    trades =
        t.trades
        ++ (record {
          id = t.next_id;
          feature_id = feature_id;
          buyer_id = buyer_id;
          seller_id = seller_id;
          irr_amount = irr_amount;
          psc_amount = psc_amount;
          created_at = t.now;
        }
            ∷ []);
    next_id = t.next_id + 1;
  }
