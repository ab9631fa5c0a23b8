-- ===== src/Financial/Orders/Tests.antt =====
-- Orders at concrete inputs.
use metaverse_rang_microserv.Common.{
  arith, ◌+◌, ◌≡◌, refl, true, false, none, some, [], ◌∷◌, if◌then◌else◌,
}
use metaverse_rang_microserv.Common.Server.{Server, ok}
use metaverse_rang_microserv.Common.Table.{select, count}
use metaverse_rang_microserv.Commercial.Wallet.{Asset}
use metaverse_rang_microserv.Features.Fees.{to_amount}
use metaverse_rang_microserv.Features.Client.Ledger.{Ledger, open_ledger}
use metaverse_rang_microserv.Financial.Store.{
  ℤ, ResCode, Verification, PaymentRequest, Order, Transaction, Store, status_success,
  order_status_pending, is_order, pays, first_of,
}
use metaverse_rang_microserv.Financial.Orders.{Outside, handle_callback}
use metaverse_rang_microserv.Financial.Orders.Callback.{
  with_status, with_ref, credited, earns_bonus, handle_callback_credits,
}
use metaverse_rang_microserv.Financial.Orders.Replays.{handle_callback_replays}

abbrev order : Order
order = record {
  id = 3;
  user_id = 1;
  asset = Asset.psc;
  amount = 10;
  status = order_status_pending;
}

abbrev transfer : Transaction
transfer = record {
  id = 4;
  user_id = 1;
  asset = Asset.psc;
  amount = 10;
  status = ℤ.pos 1;
  token = some 77;
  ref_id = none;
  payable_id = 3;
}

abbrev store_of : Order → Store Ledger
store_of o = record {
  wallets = λ u a. 0;
  orders = o ∷ [];
  transactions = transfer ∷ [];
  payments = [];
  first_orders = [];
  buyers = record { id = 1; age = none; verified = none; bfr = none } ∷ [];
  rate = λ a. some 2;
  next_id = 8;
}

abbrev up : Server (Store Ledger)
up = record { tables = store_of order; fails = λ n. false; calls = 0 }

-- a gateway that takes every request and verifies every payment
abbrev willing : Outside Ledger
willing = record {
  verify_payment = λ t. Verification.verified 33;
  request_payment = λ id amount. PaymentRequest.requested (some 5);
  process_referral = λ buyer id asset amount w. w;
  has_frontend_url = true;
  has_callback_url = true;
}

pays_example :
    let (result, s') = handle_callback open_ledger willing 3 (some 77) ResCode.zero_text up in
    (result ≡ ok ResCode.zero_text)
    × (s'.tables.wallets ≡ (credited open_ledger willing order up.tables).1)
    × (select (is_order 3) s'.tables.orders ≡ some (with_status status_success order))
    × (select (pays 3) s'.tables.transactions ≡ some (with_ref open_ledger willing 33 transfer))
    × (count (first_of 1) s'.tables.first_orders
        ≡ count (first_of 1) up.tables.first_orders
          + (if earns_bonus open_ledger willing order up.tables then 1 else 0))
unfolding select count
pays_example =
    handle_callback_credits open_ledger willing 3 (some 77) order transfer 33 2 up (λ n. refl) refl
      refl (omega arith) refl refl refl refl refl

replays_example :
    let s' = (handle_callback open_ledger willing 3 (some 77) ResCode.zero_text up).1 in
    let (result, s'') = handle_callback open_ledger willing 3 (some 77) ResCode.zero_text s' in
    (result ≡ ok ResCode.zero_text)
    × (s''.tables.wallets
        ≡ (open_ledger.add_balance 1 Asset.psc (to_amount 10) s'.tables.wallets).1)
unfolding select count
replays_example =
    handle_callback_replays open_ledger willing 3 77 order transfer 33 2 up (λ n. refl) refl refl
      (omega arith) refl refl refl refl refl refl
