-- ===== src/Financial/Orders/Callback.antt =====
-- What a callback of the gateway does to an order and a wallet.
use metaverse_rang_microserv.Common.{
  ◌≤◌, ℕ, ◌+◌, ◌*◌, ◌≡◌, ◌≢◌, refl, ap, ◌∙◌, Bool, true, false, Option, none, some, List, [], ◌∷◌,
  arith, ◌==◌, ==_refl, if◌then◌else◌, Bool-cases,
}
use metaverse_rang_microserv.Common.Server.{Server, Result, ok, err}
use metaverse_rang_microserv.Common.Table.{select, update, count}
use metaverse_rang_microserv.Common.Table.Laws.{select-update, count-append, count_single}
use metaverse_rang_microserv.Commercial.Wallet.{Asset, same_asset}
use metaverse_rang_microserv.Features.Fees.{to_amount}
use metaverse_rang_microserv.Features.Client.Port.{KeepsRefused, WalletPort}
use metaverse_rang_microserv.Financial.Store.{
  is_buyer, find_by_id_with_user, is_buyer, ℤ, ResCode, Verification, Order, Transaction,
  FirstOrder, is_transaction, Store, Error, wallet_error, status_success, is_order, pays, first_of,
  parse_status_code, find_callback_order, first_order_bonus, mark_failed, finalize_in_transaction,
  can_get_bonus, update_order, update_transaction, create_payment, create_first_order,
}
use metaverse_rang_microserv.Financial.Orders.{
  Outside, or_token, answer_callback, handle_successful_callback, handle_verification, redirect,
  shown, handle_callback, finalize_successful_payment, add_wallet_balance,
}

-- the order with its new status
abbrev pub with_status : ℤ → Order → Order
with_status z o = record o { status = z }

-- an update of the status is read back
select-status :
    (id : ℕ) (z : ℤ) (l : List Order) (o : Order)
    → select (is_order id) l ≡ some o
    → select (is_order id) (update (is_order id) (with_status z) l) ≡ some (with_status z o)
unfolding select update
select-status id z [] o h = cc
select-status id z (x ∷ l) o h = ground (arith, select-status id z l o)

module _ {W : Type 0} (port : WalletPort W) (outside : Outside W) where
  -- A callback whose code is not the text "0" sets the order's status to the number that the code reads
  -- as, whatever the status was and without asking the gateway, on a server where no call fails: no
  -- wallet changes. So a code such as "00", which reads as 0, marks an order as paid, and any other
  -- code takes a paid order's status away.
  pub handle_callback_overwrites :
      (id : ℕ) (token : Option ℕ) (z : ℤ) (o : Order) (s : Server (Store W))
      → ((n : ℕ) → s.fails n ≡ false)
      → select (is_order id) s.tables.orders ≡ some o
      → o.id ≡ id
      → 1 ≤ count (is_buyer o.user_id) s.tables.buyers
      → select (pays id) s.tables.transactions ≢ none
      → let s' = (handle_callback port outside id token (ResCode.number z) s).1 in
        (select (is_order id) s'.tables.orders ≡ some (with_status z o))
        × (s'.tables.wallets ≡ s.tables.wallets)
        × (s'.tables.payments ≡ s.tables.payments)
  unfolding handle_callback find_callback_order find_by_id_with_user mark_failed update_order
      update_transaction parse_status_code
  handle_callback_overwrites id token z o s up found same buyer paid = ground (
    arith,
    up s.calls,
    up (s.calls + 1),
    up (s.calls + 1 + 1),
    up (s.calls + 1 + 1 + 1),
    select-status id z s.tables.orders o found,
  )

  abbrev first_row : Order → FirstOrder
  first_row order = record {
    user_id = order.user_id;
    asset = order.asset;
    amount = order.amount;
    bonus = first_order_bonus order.amount;
  }

  -- the first order of a user, unless it is for rials
  abbrev pub earns_bonus : Order → Store W → Bool
  earns_bonus o t =
      if same_asset o.asset Asset.irr then false else count (first_of o.user_id) t.first_orders == 0

  abbrev pub credit : Order → Store W → ℕ
  credit o t = to_amount o.amount + (if earns_bonus o t then first_order_bonus o.amount else 0)

  abbrev pub credited : Order → Store W → Bool × W
  credited o t = port.add_balance o.user_id o.asset (credit o t) t.wallets

  -- the tables after a verified payment
  unfoldable pub paid : Order → Transaction → ℕ → ℕ → Store W → Store W
  unfolding create_payment update_transaction update_order create_first_order
  paid o tr ref_id rate t =
      let t' = create_payment o.user_id ref_id (o.amount * rate) o.asset (
        update_transaction tr.id status_success (some ref_id) tr.token
          (update_order o.id status_success t)) in
      if earns_bonus o t then create_first_order o t' else t'

  finalize_runs :
      (o : Order) (tr : Transaction) (ref_id rate : ℕ) (s : Server (Store W))
      → ((n : ℕ) → s.fails n ≡ false)
      → (credited o s.tables).0 ≡ true
      → let (result, s') = finalize_successful_payment port outside o tr ref_id rate s in
        (result ≡ ok tt)
        × (s'.fails ≡ s.fails)
        × (s'.tables
            ≡ record (paid o tr ref_id rate s.tables) { wallets = (credited o s.tables).1 })
  unfolding finalize_successful_payment can_get_bonus finalize_in_transaction add_wallet_balance
      paid create_payment update_transaction update_order create_first_order
  finalize_runs o tr ref_id rate s up done =
      let c = s.calls in
      ground (
        arith,
        up c,
        up (c + 1),
        up (c + 1 + 1),
        up (c + 1 + 1 + 1),
        up (c + 1 + 1 + 1 + 1),
        up (c + 1 + 1 + 1 + 1 + 1),
        up (c + 1 + 1 + 1 + 1 + 1 + 1),
      )

  finalize_refused :
      (o : Order) (tr : Transaction) (ref_id rate : ℕ) (s : Server (Store W))
      → ((n : ℕ) → s.fails n ≡ false)
      → (credited o s.tables).0 ≡ false
      → let (result, s') = finalize_successful_payment port outside o tr ref_id rate s in
        (result ≡ err wallet_error)
        × (s'.tables
            ≡ record (paid o tr ref_id rate s.tables) { wallets = (credited o s.tables).1 })
  unfolding finalize_successful_payment can_get_bonus finalize_in_transaction add_wallet_balance
      paid create_payment update_transaction update_order create_first_order
  finalize_refused o tr ref_id rate s up done =
      let c = s.calls in
      ground (
        arith,
        up c,
        up (c + 1),
        up (c + 1 + 1),
        up (c + 1 + 1 + 1),
        up (c + 1 + 1 + 1 + 1),
        up (c + 1 + 1 + 1 + 1 + 1),
        up (c + 1 + 1 + 1 + 1 + 1 + 1),
      )

  paid_order :
      (id : ℕ) (o : Order) (tr : Transaction) (ref_id rate : ℕ) (t : Store W)
      → select (is_order id) t.orders ≡ some o
      → o.id ≡ id
      → select (is_order id) (paid o tr ref_id rate t).orders ≡ some (with_status status_success o)
  unfolding paid create_payment update_transaction update_order create_first_order
  paid_order id o tr ref_id rate t found same =
      ground (arith, select-status id status_success t.orders o found, Bool-cases (earns_bonus o t))

  -- the transaction with its payment
  abbrev pub with_ref : ℕ → Transaction → Transaction
  with_ref ref_id tr = record tr { status = status_success; ref_id = some ref_id }

  select-ref :
      (id ref_id : ℕ) (l : List Transaction) (tr : Transaction)
      → select (pays id) l ≡ some tr
      → select (pays id) (
          update
            (is_transaction tr.id)
            (λ x. record x { status = status_success; ref_id = some ref_id; token = tr.token })
            l)
        ≡ some (with_ref ref_id tr)
  select-ref id ref_id l tr h =
      select-update (pays id) (is_transaction tr.id)
        (λ x. record x { status = status_success; ref_id = some ref_id; token = tr.token }) l
        (λ x. refl)
      ∙ ground (arith, h)

  pub paid_rows :
      (id : ℕ) (o : Order) (tr : Transaction) (ref_id rate : ℕ) (t : Store W)
      → select (is_order id) t.orders ≡ some o
      → o.id ≡ id
      → select (pays id) t.transactions ≡ some tr
      → (select (is_order id) (paid o tr ref_id rate t).orders
          ≡ some (with_status status_success o))
        × (select (pays id) (paid o tr ref_id rate t).transactions ≡ some (with_ref ref_id tr))
        × (count (first_of o.user_id) (paid o tr ref_id rate t).first_orders
            ≡ count (first_of o.user_id) t.first_orders + (if earns_bonus o t then 1 else 0))
        × ((paid o tr ref_id rate t).rate ≡ t.rate)
        × ((paid o tr ref_id rate t).buyers ≡ t.buyers)
  unfolding paid create_payment update_transaction update_order create_first_order
  paid_rows id o tr ref_id rate t found same pending = ground (
    arith,
    select-status id status_success t.orders o found,
    select-ref id ref_id t.transactions tr pending,
    count-append (first_of o.user_id) t.first_orders (first_row o ∷ []),
    count_single (first_of o.user_id) (first_row o),
    ==_refl o.user_id,
    Bool-cases (earns_bonus o t),
  )

  module _ (id : ℕ) (token : Option ℕ) (o : Order) (tr : Transaction) (ref_id rate : ℕ)
      (s : Server (Store W)) where
    -- what a callback with code "0" finds, and what the gateway and the wallets answer
    abbrev pub IsPaid : Type 0
    IsPaid =
        ((n : ℕ) → s.fails n ≡ false)
        × (select (is_order id) s.tables.orders ≡ some o)
        × (o.id ≡ id)
        × (1 ≤ count (is_buyer o.user_id) s.tables.buyers)
        × (select (pays id) s.tables.transactions ≡ some tr)
        × (s.tables.rate o.asset ≡ some rate)
        × (outside.verify_payment (or_token token tr.token) ≡ Verification.verified ref_id)
        × ((credited o s.tables).0 ≡ true)
        × (outside.has_frontend_url ≡ true)

    abbrev pub after : Result Error ResCode × Server (Store W)
    after = handle_callback port outside id token ResCode.zero_text s

    abbrev after_reads : Server (Store W)
    after_reads = record s { calls = s.calls + 1 + 1 + 1 }

    pub handle_callback_runs :
        IsPaid
        → (after.0 ≡ ok ResCode.zero_text)
          × (after.1.fails ≡ s.fails)
          × (after.1.tables ≡ record (paid o tr ref_id rate s.tables) {
            wallets =
                outside.process_referral o.user_id o.id o.asset o.amount (credited o s.tables).1;
          })
    unfolding handle_callback answer_callback handle_successful_callback handle_verification
        redirect shown find_callback_order find_by_id_with_user
    handle_callback_runs (up, found, same, buyer, pending, rated, checked, done, url) = ground (
      arith,
      found,
      buyer,
      up s.calls,
      up (s.calls + 1),
      up (s.calls + 1 + 1),
      finalize_runs o tr ref_id rate after_reads up done,
    )

  -- A payment of an order whose user is there and that the gateway verifies, on a server where no call fails and whose credit goes through:
  -- the order is marked as paid, the user gets the amount, and half of it more on the first order that
  -- is not for rials, the referral is processed, and the first order is recorded once.
  pub handle_callback_credits :
      (id : ℕ) (token : Option ℕ) (o : Order) (tr : Transaction) (ref_id rate : ℕ)
      (s : Server (Store W))
      → ((n : ℕ) → s.fails n ≡ false)
      → select (is_order id) s.tables.orders ≡ some o
      → o.id ≡ id
      → 1 ≤ count (is_buyer o.user_id) s.tables.buyers
      → select (pays id) s.tables.transactions ≡ some tr
      → s.tables.rate o.asset ≡ some rate
      → outside.verify_payment (or_token token tr.token) ≡ Verification.verified ref_id
      → (credited o s.tables).0 ≡ true
      → outside.has_frontend_url ≡ true
      → let (result, s') = handle_callback port outside id token ResCode.zero_text s in
        (result ≡ ok ResCode.zero_text)
        × (s'.tables.wallets
            ≡ outside.process_referral o.user_id o.id o.asset o.amount (credited o s.tables).1)
        × (select (is_order id) s'.tables.orders ≡ some (with_status status_success o))
        × (select (pays id) s'.tables.transactions ≡ some (with_ref ref_id tr))
        × (count (first_of o.user_id) s'.tables.first_orders
            ≡ count (first_of o.user_id) s.tables.first_orders
              + (if earns_bonus o s.tables then 1 else 0))
  handle_callback_credits id token o tr ref_id rate s up found same buyer pending rated checked done
        url =
      let (result, _, tables) =
        handle_callback_runs id token o tr ref_id rate s
          (up, found, same, buyer, pending, rated, checked, done, url) in
      let (order, payment, first, _, _) =
        paid_rows id o tr ref_id rate s.tables found same pending in
      (
        result,
        ap (λ t. t.wallets) tables,
        ap (λ t. select (is_order id) t.orders) tables ∙ order,
        ap (λ t. select (pays id) t.transactions) tables ∙ payment,
        ap (λ t. count (first_of o.user_id) t.first_orders) tables ∙ first,
      )

  -- The credit is not part of the transaction: where it is refused, on a server where no call fails,
  -- the payment is verified and recorded and the order marked as paid, the caller gets an error, and no
  -- balance has moved.
  pub finalize_uncredited :
      KeepsRefused port
      → (id : ℕ) (o : Order) (tr : Transaction) (ref_id rate : ℕ) (s : Server (Store W))
      → ((n : ℕ) → s.fails n ≡ false)
      → select (is_order id) s.tables.orders ≡ some o
      → o.id ≡ id
      → (credited o s.tables).0 ≡ false
      → let (result, s') = finalize_successful_payment port outside o tr ref_id rate s in
        (result ≡ err wallet_error)
        × (select (is_order id) s'.tables.orders ≡ some (with_status status_success o))
        × ((v : ℕ) (b : Asset) → port.funds v b s'.tables.wallets ≡ port.funds v b s.tables.wallets)
  finalize_uncredited keeps id o tr ref_id rate s up found same refused =
      let (result, tables) = finalize_refused o tr ref_id rate s up refused in
      (
        result,
        ap (λ t. select (is_order id) t.orders) tables
            ∙ paid_order id o tr ref_id rate s.tables found same,
        (λ v b.
            ap (λ t. port.funds v b t.wallets) tables
            ∙ keeps.add_refused o.user_id o.asset (credit o s.tables) s.tables.wallets v b refused),
      )
