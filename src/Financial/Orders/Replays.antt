-- ===== src/Financial/Orders/Replays.antt =====
-- What a second callback for the same payment does.
use metaverse_rang_microserv.Common.{
  ◌≤◌, ℕ, ◌+◌, ◌≡◌, ap, ◌∙◌, true, false, some, arith, if◌then◌else◌, Bool-cases,
}
use metaverse_rang_microserv.Common.Server.{Server, ok}
use metaverse_rang_microserv.Common.Table.{select, count}
use metaverse_rang_microserv.Commercial.Wallet.{Asset, same_asset}
use metaverse_rang_microserv.Features.Fees.{to_amount}
use metaverse_rang_microserv.Features.Client.Port.{WalletPort}
use metaverse_rang_microserv.Financial.Store.{
  is_buyer, ResCode, Verification, Order, Transaction, Store, status_success, is_order, pays,
  first_of,
}
use metaverse_rang_microserv.Financial.Orders.{Outside, or_token, handle_callback}
use metaverse_rang_microserv.Financial.Orders.Callback.{
  with_status, with_ref, credited, credit, earns_bonus, handle_callback_runs, paid_rows,
}

module _ {W : Type 0} (port : WalletPort W) (outside : Outside W) where
  -- after the first payment there is no bonus
  credit_spent :
      (o : Order) (t t' : Store W)
      → count (first_of o.user_id) t'.first_orders
        ≡ count (first_of o.user_id) t.first_orders
          + (if earns_bonus port outside o t then 1 else 0)
      → credit port outside o t' ≡ to_amount o.amount
  credit_spent o t t' e = ground (arith, e, Bool-cases (same_asset o.asset Asset.irr))

  -- The callback does not look at the order's status. The same callback made again, after a payment
  -- of an order whose user is there, that the gateway verified and verifies still, credits the amount again, without the bonus, on a
  -- server where no call fails and both credits go through.
  pub handle_callback_replays :
      (id token : ℕ) (o : Order) (tr : Transaction) (ref_id rate : ℕ) (s : Server (Store W))
      → ((n : ℕ) → s.fails n ≡ false)
      → select (is_order id) s.tables.orders ≡ some o
      → o.id ≡ id
      → 1 ≤ count (is_buyer o.user_id) s.tables.buyers
      → select (pays id) s.tables.transactions ≡ some tr
      → s.tables.rate o.asset ≡ some rate
      → outside.verify_payment (some token) ≡ Verification.verified ref_id
      → (credited port outside o s.tables).0 ≡ true
      → outside.has_frontend_url ≡ true
      → let s' = (handle_callback port outside id (some token) ResCode.zero_text s).1 in
        (port.add_balance o.user_id o.asset (to_amount o.amount) s'.tables.wallets).0 ≡ true
        → let (result, s'') = handle_callback port outside id (some token) ResCode.zero_text s' in
          (result ≡ ok ResCode.zero_text)
          × (s''.tables.wallets
              ≡ outside.process_referral o.user_id o.id o.asset o.amount
                  (port.add_balance o.user_id o.asset (to_amount o.amount) s'.tables.wallets).1)
  unfolding or_token
  handle_callback_replays id token o tr ref_id rate s up found same buyer pending rated checked done
        url again =
      let (_, fails, tables) =
        handle_callback_runs port outside id (some token) o tr ref_id rate s
          (up, found, same, buyer, pending, rated, checked, done, url) in
      let (order, payment, first, rates, buyers) =
        paid_rows port outside id o tr ref_id rate s.tables found same pending in
      let s' = (handle_callback port outside id (some token) ResCode.zero_text s).1 in
      let spent = ap (port.add_balance o.user_id o.asset) (
        credit_spent o s.tables s'.tables
          (ap (λ t. count (first_of o.user_id) t.first_orders) tables ∙ first)) in
      let (result, _, tables') =
        handle_callback_runs port outside id (some token) (with_status status_success o)
          (with_ref port outside ref_id tr) ref_id rate s'
          (
            (λ n. ap (λ f. f n) fails ∙ up n),
            ap (λ t. select (is_order id) t.orders) tables ∙ order,
            same,
            rw (tables, buyers) buyer,
            ap (λ t. select (pays id) t.transactions) tables ∙ payment,
            ap (λ t. t.rate o.asset) tables ∙ ap (λ f. f o.asset) rates ∙ rated,
            checked,
            ap (λ f. (f s'.tables.wallets).0) spent ∙ again,
            url,
          ) in
      (
        result,
        ap (λ t. t.wallets) tables'
            ∙ ap
                (λ f.
                  outside.process_referral o.user_id o.id o.asset o.amount (f s'.tables.wallets).1)
                spent,
      )
