-- ===== src/Financial/Store.antt =====
-- services/financial-service/internal: the tables of orders and payments, the gateway's answers, the
-- policy of order_policy.go and what the transactions of order_payment.go write.
use metaverse_rang_microserv.Common.{
  ℕ, ◌*◌, ◌/◌, Bool, true, false, ◌&&◌, Option, none, some, List, [], ◌∷◌, ◌++◌, ◌==◌, ltb,
  if◌then◌else◌,
}
use metaverse_rang_microserv.Common.Server.{
  Action, pure, or_raise, query, exec, transaction, ◌>>=◌, ◌>>◌,
}
use metaverse_rang_microserv.Common.Table.{select, count, update}
use metaverse_rang_microserv.Commercial.Wallet.{Asset, same_asset}
use metaverse_rang_microserv.Features.Fees.{to_amount}

-- an int32
pub data ℤ : Type 0 where
  pos negsuc : ℕ → ℤ

-- A ResCode text: "0" itself, another text that reads as a number, with its value as an int32, or any
-- other text.
pub data ResCode : Type 0 where
  zero_text : ResCode
  number : ℤ → ResCode
  text : ResCode

-- the gateway's answer to a verification: an error, a rejection, one without a code, or a success with
-- its reference
pub data Verification : Type 0 where
  call_failed : Verification
  rejected : ResCode → Verification
  rejected_blank : Verification
  verified : ℕ → Verification

-- its answer to a payment request: a failure, or a success with a token that may not be a number
pub data PaymentRequest : Type 0 where
  request_failed : PaymentRequest
  requested : Option ℕ → PaymentRequest

abbrev pub order_status_pending : ℤ
order_status_pending = ℤ.negsuc 137

abbrev pub status_success : ℤ
status_success = ℤ.pos 0

abbrev pub status_unknown : ℤ
status_unknown = ℤ.negsuc 0

pub record Order : Type 0 where
  pub id : ℕ
  pub user_id : ℕ
  pub asset : Asset
  pub amount : ℕ
  pub status : ℤ

pub record Transaction : Type 0 where
  pub id : ℕ
  pub user_id : ℕ
  pub asset : Asset
  pub amount : ℕ
  pub status : ℤ
  pub token : Option ℕ
  pub ref_id : Option ℕ
  pub payable_id : ℕ

pub record Payment : Type 0 where
  pub user_id : ℕ
  pub ref_id : ℕ
  pub amount : ℕ
  pub product : Asset

pub record FirstOrder : Type 0 where
  pub user_id : ℕ
  pub asset : Asset
  pub amount : ℕ
  pub bonus : ℕ

-- a row of users with its rows of kycs and child_permissions; the age is in seconds
pub record Buyer : Type 0 where
  pub id : ℕ
  pub age : Option ℕ
  pub verified : Option Bool
  pub bfr : Option Bool

pub record Store (W : Type 0) : Type 0 where
  pub wallets : W
  pub orders : List Order
  pub transactions : List Transaction
  pub payments : List Payment
  pub first_orders : List FirstOrder
  pub buyers : List Buyer
  pub rate : Asset → Option ℕ
  pub next_id : ℕ

pub data Error : Type 0 where
  db_error invalid_amount invalid_asset order_not_found payment_failed user_not_eligible : Error
  no_rate no_transaction wallet_error no_frontend : Error

abbrev pub is_order : ℕ → Order → Bool
is_order id o = o.id == id

abbrev pub is_buyer : ℕ → Buyer → Bool
is_buyer id b = b.id == id

abbrev pub is_transaction : ℕ → Transaction → Bool
is_transaction id t = t.id == id

abbrev pub pays : ℕ → Transaction → Bool
pays order_id t = t.payable_id == order_id

abbrev pub first_of : ℕ → FirstOrder → Bool
first_of user_id f = f.user_id == user_id

abbrev pub StoreAction : Type 0 → Type 0 → Type 0
StoreAction W = Action (Store W) Error

-- `validOrderAssets`
unfoldable pub is_valid_asset : Asset → Bool
is_valid_asset Asset.psc = true
is_valid_asset Asset.irr = true
is_valid_asset Asset.red = true
is_valid_asset Asset.blue = true
is_valid_asset Asset.yellow = true
is_valid_asset _ = false

unfoldable pub parse_status_code : ResCode → ℤ
parse_status_code ResCode.zero_text = ℤ.pos 0
parse_status_code (ResCode.number z) = z
parse_status_code ResCode.text = status_unknown

-- `order.Amount * FirstOrderBonusRate`, in wallet quanta
unfoldable pub first_order_bonus : ℕ → ℕ
unfolding to_amount
first_order_bonus amount = to_amount amount / 2

-- eighteen years of 365.25 days, in seconds
abbrev pub eighteen_years : ℕ
eighteen_years = 568036800

unfoldable pub holds_flag : Option Bool → Bool
holds_flag none = false
holds_flag (some b) = b

unfoldable pub may_buy : Option Buyer → Bool
unfolding holds_flag
may_buy none = true
may_buy (some buyer) = elim buyer.age [
  | none ↦ true
  | some age ↦
      if ltb age eighteen_years then holds_flag buyer.verified && holds_flag buyer.bfr else true
]

module _ {W : Type 0} where
  -- `CanBuyFromStore`
  unfoldable pub can_buy_from_store : ℕ → StoreAction W Bool
  unfolding may_buy
  can_buy_from_store user_id =
      query db_error (λ t. may_buy (select (λ b. b.id == user_id) t.buyers))

  -- `CanGetBonus`
  unfoldable pub can_get_bonus : ℕ → Asset → StoreAction W Bool
  can_get_bonus user_id asset = elim (same_asset asset Asset.irr) [
    | true ↦ pure false
    | false ↦ query db_error (λ t. count (first_of user_id) t.first_orders == 0)
  ]

  unfoldable pub update_order : ℕ → ℤ → Store W → Store W
  update_order id status t = record t {
    orders = update (is_order id) (λ o. record o { status = status }) t.orders;
  }

  unfoldable pub update_transaction : ℕ → ℤ → Option ℕ → Option ℕ → Store W → Store W
  update_transaction id status ref_id token t = record t {
    transactions =
        update (is_transaction id)
          (λ x. record x { status = status; ref_id = ref_id; token = token }) t.transactions;
  }

  unfoldable pub create_payment : ℕ → ℕ → ℕ → Asset → Store W → Store W
  create_payment user_id ref_id amount product t = record t {
    payments =
        t.payments
        ++ (record { user_id = user_id; ref_id = ref_id; amount = amount; product = product } ∷ []);
  }

  unfoldable pub create_first_order : Order → Store W → Store W
  create_first_order order t = record t {
    first_orders =
        t.first_orders
        ++ (record {
          user_id = order.user_id;
          asset = order.asset;
          amount = order.amount;
          bonus = first_order_bonus order.amount;
        }
            ∷ []);
  }

  unfoldable pub mark_failed : Order → Transaction → ResCode → StoreAction W (Unit {0})
  unfolding update_order update_transaction
  mark_failed order transaction res_code = do
    exec db_error (update_order order.id (parse_status_code res_code))
    exec db_error (
        update_transaction transaction.id (parse_status_code res_code) transaction.ref_id
          transaction.token)

  -- `finalizeSuccessfulPaymentTx`; the first and the last call are the begin and the commit
  unfoldable pub finalize_in_transaction :
      Order → Transaction → ℕ → ℕ → Bool → StoreAction W (Unit {0})
  unfolding update_order update_transaction create_payment create_first_order
  finalize_in_transaction order tr ref_id rate bonus = transaction (do
    exec db_error (λ t. t)
    exec db_error (update_order order.id status_success)
    exec db_error (update_transaction tr.id status_success (some ref_id) tr.token)
    exec db_error (create_payment order.user_id ref_id (order.amount * rate) order.asset)
    elim bonus [ true ↦ exec db_error (create_first_order order) | false ↦ pure tt ]
    exec db_error (λ t. t))

  -- `FindByIDWithUser`: the order, where its user is there
  unfoldable pub find_by_id_with_user : ℕ → Store W → Option Order
  find_by_id_with_user id t = elim (select (is_order id) t.orders) [
    | none ↦ none
    | some o ↦ if ltb 0 (count (is_buyer o.user_id) t.buyers) then some o else none
  ]

  -- `findCallbackOrderAndTransaction`
  unfoldable pub find_callback_order : ℕ → StoreAction W (Order × Transaction)
  unfolding find_by_id_with_user
  find_callback_order order_id = do
    found ← query db_error (find_by_id_with_user order_id)
    order ← or_raise found order_not_found
    found_transaction ← query db_error (λ t. select (pays order_id) t.transactions)
    tr ← or_raise found_transaction no_transaction
    pure (order, tr)
