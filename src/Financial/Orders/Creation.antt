-- ===== src/Financial/Orders/Creation.antt =====
-- What is left of an order that the gateway refuses, and of one that it takes.
use metaverse_rang_microserv.Common.{
  ℕ, ◌+◌, ◌<◌, ◌≡◌, refl, ap, ◌∙◌, true, false, Option, none, some, [], ◌∷◌, ◌++◌, arith, ◌==◌,
  ==_refl, ltb,
}
use metaverse_rang_microserv.Common.Server.{Server, ok, err}
use metaverse_rang_microserv.Common.Table.{select, count, delete}
use metaverse_rang_microserv.Common.Table.Laws.{select-append_new, delete-append_last}
use metaverse_rang_microserv.Commercial.Wallet.{Asset}
use metaverse_rang_microserv.Features.Client.Port.{WalletPort}
use metaverse_rang_microserv.Financial.Store.{
  ℤ, PaymentRequest, Order, Transaction, Store, payment_failed, order_status_pending, is_order,
  is_transaction, is_valid_asset, may_buy, can_buy_from_store, update_transaction,
}
use metaverse_rang_microserv.Financial.Orders.{
  Outside, create_order, create_order_row, create_deposit_transaction, request_sadad_payment,
  answer_request, cleanup_pending_order,
}

-- the rows that an order starts with
abbrev pub pending_order : ℕ → ℕ → Asset → ℕ → Order
pending_order id user_id asset amount = record {
  id = id;
  user_id = user_id;
  asset = asset;
  amount = amount;
  status = order_status_pending;
}

abbrev deposit : ℕ → ℕ → ℕ → Asset → ℕ → Transaction
deposit id order_id user_id asset amount = record {
  id = id;
  user_id = user_id;
  asset = asset;
  amount = amount;
  status = ℤ.pos 1;
  token = none;
  ref_id = none;
  payable_id = order_id;
}

at_least_one : (n : ℕ) → 0 < n → ltb n 1 ≡ false
at_least_one n h = ground arith

module _ {W : Type 0} (port : WalletPort W) (outside : Outside W) where
  module _ (user_id amount : ℕ) (asset : Asset) (rate : ℕ) (s : Server (Store W)) where
    -- the server when the gateway is asked
    abbrev asking : Server (Store W)
    asking = record s {
      tables =
          create_deposit_transaction port outside s.tables.next_id user_id asset amount
            (create_order_row port outside user_id asset amount s.tables);
      calls = s.calls + 1 + 1 + 1 + 1;
    }

    create_order_asks :
        ((n : ℕ) → s.fails n ≡ false)
        → ltb amount 1 ≡ false
        → is_valid_asset asset ≡ true
        → may_buy (select (λ b. b.id == user_id) s.tables.buyers) ≡ true
        → s.tables.rate asset ≡ some rate
        → create_order port outside user_id amount asset s
          ≡ answer_request port outside s.tables.next_id
              (s.tables.next_id + 1)
              (request_sadad_payment port outside s.tables.next_id amount rate)
              asking
    unfolding create_order can_buy_from_store create_order_row
    create_order_asks up enough valid eligible rated =
        ground (arith, up s.calls, up (s.calls + 1), up (s.calls + 1 + 1), up (s.calls + 1 + 1 + 1))

    request_refused :
        ((n : ℕ) → s.fails n ≡ false)
        → let (result, s') =
            answer_request port outside s.tables.next_id
              (s.tables.next_id + 1)
              PaymentRequest.request_failed
              asking in
          let id = s.tables.next_id in
          (result ≡ err payment_failed)
          × (s'.tables.orders
              ≡ delete
                  (is_order id)
                  (s.tables.orders ++ (pending_order id user_id asset amount ∷ [])))
          × (s'.tables.transactions
              ≡ delete
                  (is_transaction (id + 1))
                  (s.tables.transactions ++ (deposit (id + 1) id user_id asset amount ∷ [])))
          × (s'.tables.wallets ≡ s.tables.wallets)
    unfolding answer_request cleanup_pending_order create_order_row create_deposit_transaction
    request_refused up =
        rw (up (s.calls + 1 + 1 + 1 + 1), up (s.calls + 1 + 1 + 1 + 1 + 1)) (refl, refl, refl, refl)

    request_taken :
        (token : Option ℕ)
        → let (result, s') =
            answer_request port outside s.tables.next_id
              (s.tables.next_id + 1)
              (PaymentRequest.requested token)
              asking in
          (result ≡ ok s.tables.next_id)
          × (s'.tables.orders
              ≡ s.tables.orders ++ (pending_order s.tables.next_id user_id asset amount ∷ []))
          × (s'.tables.wallets ≡ s.tables.wallets)
    unfolding answer_request update_transaction create_order_row create_deposit_transaction
    request_taken none = (refl, refl, refl)
    request_taken (some token) = ground arith

  -- An order that the gateway refuses leaves nothing behind, on a server where no call fails: the order
  -- and its transaction are gone, and the caller gets an error.
  pub create_order_cleans_up :
      (user_id amount : ℕ) (asset : Asset) (rate : ℕ) (s : Server (Store W))
      → ((n : ℕ) → s.fails n ≡ false)
      → 0 < amount
      → is_valid_asset asset ≡ true
      → may_buy (select (λ b. b.id == user_id) s.tables.buyers) ≡ true
      → s.tables.rate asset ≡ some rate
      → request_sadad_payment port outside s.tables.next_id amount rate
        ≡ PaymentRequest.request_failed
      → count (is_order s.tables.next_id) s.tables.orders ≡ 0
      → count (is_transaction (s.tables.next_id + 1)) s.tables.transactions ≡ 0
      → let (result, s') = create_order port outside user_id amount asset s in
        (result ≡ err payment_failed)
        × (s'.tables.orders ≡ s.tables.orders)
        × (s'.tables.transactions ≡ s.tables.transactions)
        × (s'.tables.wallets ≡ s.tables.wallets)
  create_order_cleans_up user_id amount asset rate s up enough valid eligible rated refused new
        new' =
      let id = s.tables.next_id in
      let (result, orders, transactions, wallets) =
        request_refused user_id amount asset rate s up in
      let asks =
        create_order_asks user_id amount asset rate s up (at_least_one amount enough) valid eligible
          rated
        ∙ ap (λ r. answer_request port outside id (id + 1) r (asking user_id amount asset rate s))
            refused in
      rw asks (
        result,
        orders
            ∙ delete-append_last (is_order id) s.tables.orders
                (pending_order id user_id asset amount) new (==_refl id),
        transactions
            ∙ delete-append_last (is_transaction (id + 1)) s.tables.transactions
                (deposit (id + 1) id user_id asset amount) new' (==_refl (id + 1)),
        wallets,
      )

  -- An order that the gateway takes, on a server where no call fails: the caller gets the order's id,
  -- its row is the new one, with the status of a pending order, and no balance moves.
  pub create_order_pending :
      (user_id amount : ℕ) (asset : Asset) (rate : ℕ) (token : Option ℕ) (s : Server (Store W))
      → ((n : ℕ) → s.fails n ≡ false)
      → 0 < amount
      → is_valid_asset asset ≡ true
      → may_buy (select (λ b. b.id == user_id) s.tables.buyers) ≡ true
      → s.tables.rate asset ≡ some rate
      → request_sadad_payment port outside s.tables.next_id amount rate
        ≡ PaymentRequest.requested token
      → count (is_order s.tables.next_id) s.tables.orders ≡ 0
      → let (result, s') = create_order port outside user_id amount asset s in
        (result ≡ ok s.tables.next_id)
        × (select (is_order s.tables.next_id) s'.tables.orders
            ≡ some (pending_order s.tables.next_id user_id asset amount))
        × (s'.tables.wallets ≡ s.tables.wallets)
  create_order_pending user_id amount asset rate token s up enough valid eligible rated taken new =
      let id = s.tables.next_id in
      let (result, orders, wallets) = request_taken user_id amount asset rate s token in
      let asks =
        create_order_asks user_id amount asset rate s up (at_least_one amount enough) valid eligible
          rated
        ∙ ap (λ r. answer_request port outside id (id + 1) r (asking user_id amount asset rate s))
            taken in
      rw asks (
        result,
        ap (select (is_order id)) orders
            ∙ select-append_new (is_order id) s.tables.orders
                (pending_order id user_id asset amount) new (==_refl id),
        wallets,
      )
