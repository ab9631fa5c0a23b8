-- ===== src/Financial/Orders.antt =====
-- services/financial-service/internal/service: orders, their creation and the gateway's callback, over
-- the tables of the service's repositories. The wallets and the referrals of commercial-service are
-- beside the tables, and the gateway answers from outside. SMS and logs are left out.
pub mod Callback
pub mod Replays
pub mod Creation
mod Tests
use metaverse_rang_microserv.Common.{
  ℕ, suc, ◌+◌, ◌*◌, ◌/◌, Bool, true, false, not, ◌&&◌, Option, none, some, List, [], ◌∷◌, ◌++◌,
  ◌==◌, ltb, if◌then◌else◌,
}
use metaverse_rang_microserv.Common.Server.{
  Action, Result, ok, err, pure, raise, or_raise, query, exec, try_exec, raise_if, logged,
  transaction, ◌>>=◌, ◌>>◌,
}
use metaverse_rang_microserv.Common.Table.{select, count, update, delete}
use metaverse_rang_microserv.Commercial.Wallet.{Asset, same_asset}
use metaverse_rang_microserv.Features.Fees.{to_amount}
use metaverse_rang_microserv.Features.Client.Port.{WalletPort}
use metaverse_rang_microserv.Financial.Store.{
  Buyer, Error, FirstOrder, Order, Payment, PaymentRequest, ResCode, Store, StoreAction,
  Transaction, Verification, call_failed, can_buy_from_store, can_get_bonus, create_first_order,
  create_payment, db_error, eighteen_years, finalize_in_transaction, find_callback_order, first_of,
  first_order_bonus, holds_flag, invalid_amount, invalid_asset, is_order, is_transaction,
  is_valid_asset, mark_failed, may_buy, negsuc, no_frontend, no_rate, no_transaction, number,
  order_not_found, order_status_pending, parse_status_code, payment_failed, pays, pos, rejected,
  rejected_blank, request_failed, requested, status_success, status_unknown, text, update_order,
  update_transaction, user_not_eligible, wallet_error, zero_text, ℤ,
}

-- what is outside the service: the gateway, by the token it is asked about; the referrals; and whether
-- the frontend's address and the gateway's configuration are there
pub record Outside (W : Type 0) : Type 0 where
  pub verify_payment : Option ℕ → Verification
  pub request_payment : ℕ → ℕ → PaymentRequest
  pub process_referral : ℕ → ℕ → Asset → ℕ → W → W
  pub has_frontend_url : Bool
  pub has_callback_url : Bool

unfoldable pub or_token : Option ℕ → Option ℕ → Option ℕ
or_token none stored = stored
or_token (some token) stored = some token

module _ {W : Type 0} (port : WalletPort W) (outside : Outside W) where
  -- the credit that follows the transaction
  unfoldable pub add_wallet_balance : ℕ → Asset → ℕ → StoreAction W (Unit {0})
  add_wallet_balance user_id asset amount s =
      let (done, w) = port.add_balance user_id asset amount s.tables.wallets in
      let s' = record s { tables = record s.tables { wallets = w } } in
      elim done [ true ↦ (ok tt, s') | false ↦ (err wallet_error, s') ]

  unfoldable pub finalize_successful_payment :
      Order → Transaction → ℕ → ℕ → StoreAction W (Unit {0})
  unfolding can_get_bonus finalize_in_transaction add_wallet_balance
  finalize_successful_payment order tr ref_id rate = do
    bonus ← can_get_bonus order.user_id order.asset
    finalize_in_transaction order tr ref_id rate bonus
    add_wallet_balance order.user_id order.asset
        (to_amount order.amount + (if bonus then first_order_bonus order.amount else 0))

  abbrev pub refer : Order → StoreAction W (Unit {0})
  refer order s = (
    ok tt,
    record s {
      tables = record s.tables {
        wallets =
            outside.process_referral order.user_id order.id order.asset order.amount
              s.tables.wallets;
      };
    },
  )

  -- what follows the gateway's answer; the code of the answer, none for a success
  unfoldable pub handle_verification :
      Order → Transaction → ℕ → Verification → StoreAction W (Option ResCode)
  unfolding mark_failed finalize_successful_payment
  handle_verification order tr rate Verification.call_failed =
      mark_failed order tr (ResCode.number status_unknown)
      >> pure (some (ResCode.number status_unknown))
  handle_verification order tr rate (Verification.rejected res_code) =
      mark_failed order tr res_code >> pure (some res_code)
  handle_verification order tr rate Verification.rejected_blank =
      mark_failed order tr (ResCode.number status_unknown)
      >> pure (some (ResCode.number status_unknown))
  handle_verification order tr rate (Verification.verified ref_id) = do
    finalize_successful_payment order tr ref_id rate
    refer order
    pure none

  -- `handleSuccessfulSadadCallback`
  unfoldable pub handle_successful_callback :
      Order → Transaction → Option ℕ → StoreAction W (Option ResCode)
  unfolding handle_verification or_token
  handle_successful_callback order tr token = do
    found ← query db_error (λ t. t.rate order.asset)
    rate ← or_raise found no_rate
    handle_verification order tr rate (outside.verify_payment (or_token token tr.token))

  -- the code that the redirect shows
  unfoldable pub shown : ResCode → Option ResCode → ResCode
  shown res_code none = res_code
  shown res_code (some checked) = checked

  unfoldable pub redirect : ResCode → StoreAction W ResCode
  redirect res_code = raise_if (not outside.has_frontend_url) no_frontend >> pure res_code

  unfoldable pub answer_callback : ResCode → Order → Transaction → Option ℕ → StoreAction W ResCode
  unfolding handle_successful_callback mark_failed redirect shown
  answer_callback ResCode.zero_text order tr token = do
    checked ← handle_successful_callback order tr token
    redirect (shown ResCode.zero_text checked)
  answer_callback (ResCode.number z) order tr token =
      mark_failed order tr (ResCode.number z) >> redirect (ResCode.number z)
  answer_callback ResCode.text order tr token =
      mark_failed order tr ResCode.text >> redirect ResCode.text

  unfoldable pub handle_callback : ℕ → Option ℕ → ResCode → StoreAction W ResCode
  unfolding find_callback_order answer_callback
  handle_callback order_id token res_code = do
    (order, tr) ← find_callback_order order_id
    answer_callback res_code order tr token

  unfoldable pub create_order_row : ℕ → Asset → ℕ → Store W → Store W
  create_order_row user_id asset amount t = record t {
    orders =
        t.orders
        ++ (record {
          id = t.next_id;
          user_id = user_id;
          asset = asset;
          amount = amount;
          status = order_status_pending;
        }
            ∷ []);
    next_id = t.next_id + 1;
  }

  unfoldable pub create_deposit_transaction : ℕ → ℕ → Asset → ℕ → Store W → Store W
  create_deposit_transaction order_id user_id asset amount t = record t {
    transactions =
        t.transactions
        ++ (record {
          id = t.next_id;
          user_id = user_id;
          asset = asset;
          amount = amount;
          status = ℤ.pos 1;
          token = none;
          ref_id = none;
          payable_id = order_id;
        }
            ∷ []);
    next_id = t.next_id + 1;
  }

  -- an insert, and the id of its row
  abbrev pub insert : (Store W → Store W) → StoreAction W ℕ
  insert f s = elim (s.fails s.calls) [
    | true ↦ (err db_error, record s { calls = s.calls + 1 })
    | false ↦ (ok s.tables.next_id, record s { tables = f s.tables; calls = s.calls + 1 })
  ]

  -- `requestSadadPayment`
  unfoldable pub request_sadad_payment : ℕ → ℕ → ℕ → PaymentRequest
  request_sadad_payment order_id amount rate =
      if outside.has_callback_url
      then outside.request_payment order_id (amount * rate)
      else PaymentRequest.request_failed

  -- `cleanupPendingOrder`
  unfoldable pub cleanup_pending_order : ℕ → ℕ → StoreAction W (Unit {0})
  cleanup_pending_order order_id transaction_id = do
    try_exec
        (λ t. record t { transactions = delete (is_transaction transaction_id) t.transactions })
    try_exec (λ t. record t { orders = delete (is_order order_id) t.orders })

  -- what follows the gateway's answer to the request
  unfoldable pub answer_request : ℕ → ℕ → PaymentRequest → StoreAction W ℕ
  unfolding cleanup_pending_order update_transaction
  answer_request order_id transaction_id PaymentRequest.request_failed =
      cleanup_pending_order order_id transaction_id >> raise payment_failed
  answer_request order_id transaction_id (PaymentRequest.requested none) = pure order_id
  answer_request order_id transaction_id (PaymentRequest.requested (some token)) =
      try_exec (update_transaction transaction_id (ℤ.pos 1) none (some token)) >> pure order_id

  -- `CreateOrder`; the answer names the order in place of the gateway's address
  unfoldable pub create_order : ℕ → ℕ → Asset → StoreAction W ℕ
  unfolding can_buy_from_store create_order_row create_deposit_transaction request_sadad_payment
      answer_request
  create_order user_id amount asset = do
    raise_if (ltb amount 1) invalid_amount
    raise_if (not (is_valid_asset asset)) invalid_asset
    can_buy ← can_buy_from_store user_id
    raise_if (not can_buy) user_not_eligible
    found ← query db_error (λ t. t.rate asset)
    rate ← or_raise found no_rate
    order_id ← insert (create_order_row user_id asset amount)
    transaction_id ← insert (create_deposit_transaction order_id user_id asset amount)
    answer_request order_id transaction_id (request_sadad_payment order_id amount rate)
