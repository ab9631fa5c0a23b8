-- ===== src/Features/Market/Sales/Records.antt =====
-- The transaction of an accepted request.
use metaverse_rang_microserv.Common.{
  ◌≢◌, ◌∙◌, ◌*◌, ◌++◌, ◌==◌, ap, some, Bool-cases, ℕ, ◌+◌, ◌≡◌, ◌⊎◌, inl, inr, refl, false, Option,
  none, List, [], ◌∷◌, arith, if◌then◌else◌,
}
use metaverse_rang_microserv.Common.Server.{Server, Result, ok, err, is_ok, Result-cases}
use metaverse_rang_microserv.Common.Table.{select, select_all, update}
use metaverse_rang_microserv.Common.Table.Laws.{select-delete_self}
use metaverse_rang_microserv.Features.Fees.{calculate_fee, change_status_to_sold_and_not_priced}
use metaverse_rang_microserv.Features.Client.Port.{WalletPort}
use metaverse_rang_microserv.Features.Market.{
  Market, Error, BuyFeatureRequest, Feature, SellFeatureRequest, is_request, is_open_for, locks,
  delete_lock, soft_delete, update_owner, update_status,
}
use metaverse_rang_microserv.Features.Market.Accounts.{reset_profit, pricing_limit}
use metaverse_rang_microserv.Features.Market.Escrow.{open-retire_self}
use metaverse_rang_microserv.Features.Market.BuyRequests.{refund_buy_request}
use metaverse_rang_microserv.Features.Market.BuyRequests.Refunds.{refund_keeps, refund_keeps_other}
use metaverse_rang_microserv.Features.Market.Sales.{
  refund_others, open_sale, close_sale, record_sale, sale, transfer_left, create_commission,
  update_request_status, complete_sell_requests, transfer_profit_in_transaction,
}

module _ {W : Type 0} where
  -- the tables that only a sale writes
  abbrev pub Kept : Market W → Market W → Type 0
  Kept t t' =
      (t'.features ≡ t.features)
      × (t'.commissions ≡ t.commissions)
      × (t'.sell_requests ≡ t.sell_requests)

  -- a request and its lock, as they were
  abbrev pub Stays : ℕ → Market W → Market W → Type 0
  Stays id t t' =
      (select (is_request id) t'.buy_requests ≡ select (is_request id) t.buy_requests)
      × (select (locks id) t'.locked_assets ≡ select (locks id) t.locked_assets)

  Stays-trans : (id : ℕ) (a b c : Market W) → Stays id a b → Stays id b c → Stays id a c
  Stays-trans id a b c (requests, locked) (requests', locked') =
      (requests' ∙ requests, locked' ∙ locked)

module _ {W : Type 0} (port : WalletPort W) where
  refund_others-Stays :
      (id : ℕ) (l : List BuyFeatureRequest) (s : Server (Market W))
      → Stays id s.tables (refund_others port id l s).1.tables
  unfolding refund_others
  refund_others-Stays id [] s = (refl, refl)
  refund_others-Stays id (r ∷ l) s = elim (Bool-cases (r.id == id)) [
    | inl own ↦ ground (arith, own, refund_others-Stays id l s)
    | inr other ↦
        let s' = (refund_buy_request port r.id s).1 in
        let differs : id ≢ r.id = ground (arith, other) in
        let refunds = refund_keeps_other port id r.id s differs in
        elim (Result-cases (refund_buy_request port r.id s).0) [
          | inl (e, stops) ↦
              let ends : (refund_others port id (r ∷ l) s).1 ≡ s' = ground (arith, other, stops) in
              (
                ap (λ x. select (is_request id) x.tables.buy_requests) ends ∙ refunds.0,
                ap (λ x. select (locks id) x.tables.locked_assets) ends ∙ refunds.1,
              )
          | inr (x, done) ↦
              let goes : (refund_others port id (r ∷ l) s).1 ≡ (refund_others port id l s').1 =
                ground (arith, other, done) in
              let (requests, locked) =
                Stays-trans id s.tables s'.tables (refund_others port id l s').1.tables refunds
                  (refund_others-Stays id l s') in
              (
                ap (λ x. select (is_request id) x.tables.buy_requests) goes ∙ requests,
                ap (λ x. select (locks id) x.tables.locked_assets) goes ∙ locked,
              )
        ]
  ]

  open_sale-Stays :
      (r : BuyFeatureRequest) (f : Feature) (s : Server (Market W))
      → Stays r.id s.tables (open_sale port r f s).1.tables
  unfolding open_sale transfer_profit_in_transaction
  open_sale-Stays r f s = ground arith

  refund_others_keeps :
      (id : ℕ) (l : List BuyFeatureRequest) (s : Server (Market W))
      → Kept s.tables (refund_others port id l s).1.tables
  unfolding refund_others
  refund_others_keeps id [] s = (refl, refl, refl)
  refund_others_keeps id (r ∷ l) s = ground (
    arith,
    refund_keeps port r.id s,
    refund_others_keeps id l s,
    refund_others_keeps id l (refund_buy_request port r.id s).1,
  )

  open_sale_keeps :
      (r : BuyFeatureRequest) (f : Feature) (s : Server (Market W))
      → Kept s.tables (open_sale port r f s).1.tables
  unfolding open_sale transfer_profit_in_transaction
  open_sale_keeps r f s = ground arith

  open_sale-limit :
      (r : BuyFeatureRequest) (f : Feature) (s : Server (Market W)) (trade_id limit days : ℕ)
      (transfer : Option ℕ)
      → (open_sale port r f s).0 ≡ ok (trade_id, limit, days, transfer)
      → (limit ≡ 80) ⊎ (limit ≡ 110)
  unfolding open_sale pricing_limit
  open_sale-limit r f s trade_id limit days transfer h = ground arith

  abbrev pub others : BuyFeatureRequest → Server (Market W) → List BuyFeatureRequest
  others r s =
      if s.fails s.calls then [] else select_all (is_open_for r.feature_id) s.tables.buy_requests

  -- the server after the refunds
  abbrev pub refunded :
      BuyFeatureRequest → Server (Market W) → Result Error (Unit {0}) × Server (Market W)
  refunded r s = refund_others port r.id (others r s) (record s { calls = s.calls + 1 })

  close_sale_cases :
      (r : BuyFeatureRequest) (f : Feature) (trade_id limit days : ℕ) (transfer : Option ℕ)
      (s : Server (Market W))
      → let (result, s') = close_sale port r f trade_id limit days transfer s in
        ((is_ok result ≡ false) × (s'.tables ≡ (refunded r s).1.tables))
        ⊎ ((result ≡ ok tt)
            × (s'.tables ≡ sale r f trade_id limit days transfer (refunded r s).1.tables))
  unfolding close_sale
  close_sale_cases r f trade_id limit days transfer s = ground arith

  -- the sell requests of a land, completed
  abbrev pub completed : ℕ → List SellFeatureRequest → List SellFeatureRequest
  completed feature_id l = update (λ q. q.feature_id == feature_id) (λ q. record q { status = 1 }) l

  -- the features after a sale
  abbrev pub sold : BuyFeatureRequest → Feature → ℕ → Market W → List Feature
  sold r f limit t =
      (update_status f.id (change_status_to_sold_and_not_priced f.karbari) limit
        (update_owner f.id r.buyer_id t)).features

  features-sale :
      (r : BuyFeatureRequest) (f : Feature) (trade_id limit days : ℕ) (transfer : Option ℕ)
      (t : Market W)
      → ((sale r f trade_id limit days transfer t).features ≡ sold r f limit t)
        × (select (is_request r.id) (sale r f trade_id limit days transfer t).buy_requests ≡ none)
        × (select (locks r.id) (sale r f trade_id limit days transfer t).locked_assets ≡ none)
  unfolding sale transfer_left reset_profit create_commission update_status update_owner
      update_request_status soft_delete delete_lock complete_sell_requests
  features-sale r f trade_id limit days transfer t = ground (
    arith,
    open-retire_self r.id (update_request_status r.id 1 t).buy_requests,
    select-delete_self (locks r.id) t.locked_assets,
  )

  rows-sale :
      (r : BuyFeatureRequest) (f : Feature) (trade_id limit days : ℕ) (transfer : Option ℕ)
      (t t' : Market W)
      → Kept t t'
      → ((sale r f trade_id limit days transfer t').commissions
          ≡ t.commissions
            ++ ((record {
              trade_id = trade_id;
              psc = calculate_fee r.price_psc * 2;
              irr = calculate_fee r.price_irr * 2;
            })
                ∷ []))
        × ((sale r f trade_id limit days transfer t').sell_requests
            ≡ completed r.feature_id t.sell_requests)
  unfolding sale transfer_left reset_profit create_commission update_status update_owner
      update_request_status soft_delete delete_lock complete_sell_requests
  rows-sale r f trade_id limit days none t t' (_, commissions, sells) = (
    ap
        (λ l.
          l
          ++ ((record {
            trade_id = trade_id;
            psc = calculate_fee r.price_psc * 2;
            irr = calculate_fee r.price_irr * 2;
          })
              ∷ []))
        commissions,
    ap (completed r.feature_id) sells,
  )
  rows-sale r f trade_id limit days (some p) t t' (_, commissions, sells) = (
    ap
        (λ l.
          l
          ++ ((record {
            trade_id = trade_id;
            psc = calculate_fee r.price_psc * 2;
            irr = calculate_fee r.price_irr * 2;
          })
              ∷ []))
        commissions,
    ap (completed r.feature_id) sells,
  )

  record_sale_refused :
      (r : BuyFeatureRequest) (f : Feature) (s : Server (Market W)) (e : Error)
      → (open_sale port r f s).0 ≡ err e
      → (is_ok (record_sale port r f s).0 ≡ false)
        × ((record_sale port r f s).1.tables ≡ (open_sale port r f s).1.tables)
  unfolding record_sale
  record_sale_refused r f s e h = ground arith

  pub record_sale_opened :
      (r : BuyFeatureRequest) (f : Feature) (s : Server (Market W)) (trade_id limit days : ℕ)
      (transfer : Option ℕ)
      → (open_sale port r f s).0 ≡ ok (trade_id, limit, days, transfer)
      → record_sale port r f s
        ≡ close_sale port r f trade_id limit days transfer (open_sale port r f s).1
  unfolding record_sale
  record_sale_opened r f s trade_id limit days transfer h = ground arith

  refunded_keeps :
      (r : BuyFeatureRequest) (f : Feature) (s : Server (Market W))
      → Kept s.tables (refunded r (open_sale port r f s).1).1.tables
  refunded_keeps r f s = ground (
    arith,
    open_sale_keeps r f s,
    refund_others_keeps r.id (others r (open_sale port r f s).1)
        (record (open_sale port r f s).1 { calls = (open_sale port r f s).1.calls + 1 }),
  )

  sold_80_110 :
      (r : BuyFeatureRequest) (f : Feature) (limit : ℕ) (t t' : Market W)
      → Kept t t'
      → (limit ≡ 80) ⊎ (limit ≡ 110)
      → (sold r f limit t' ≡ sold r f 80 t) ⊎ (sold r f limit t' ≡ sold r f 110 t)
  unfolding update_status update_owner
  sold_80_110 r f limit t t' kept h = ground arith

  -- Recording a sale, whatever calls fail: where it errs, no feature, commission or sell request has
  -- changed, and the request and its lock are as they were; a trade, a profit that was missing and the
  -- refunds of other requests can stay. Where it succeeds, the feature has the buyer as its owner,
  -- with its status reset, the commission of both fees twice is there, the sell requests of the land
  -- are completed, the request is closed and its lock is gone.
  pub record_sale_atomic :
      (r : BuyFeatureRequest) (f : Feature) (s : Server (Market W))
      → let (result, s') = record_sale port r f s in
        ((is_ok result ≡ false) × Kept s.tables s'.tables × Stays r.id s.tables s'.tables)
        ⊎ ((result ≡ ok tt)
            × ((s'.tables.features ≡ sold r f 80 s.tables)
                ⊎ (s'.tables.features ≡ sold r f 110 s.tables))
            × (select (is_request r.id) s'.tables.buy_requests ≡ none)
            × (select (locks r.id) s'.tables.locked_assets ≡ none)
            × (s'.tables.sell_requests ≡ completed r.feature_id s.tables.sell_requests)
            × ((id : ℕ) × (s'.tables.commissions
                  ≡ s.tables.commissions
                    ++ ((record {
                      trade_id = id;
                      psc = calculate_fee r.price_psc * 2;
                      irr = calculate_fee r.price_irr * 2;
                    })
                        ∷ []))))
  record_sale_atomic r f s = elim (Result-cases (open_sale port r f s).0) [
    | inl (e, h) ↦
        let (refused, same) = record_sale_refused r f s e h in
        inl (refused, rw same (open_sale_keeps r f s), rw same (open_sale-Stays r f s))
    | inr ((trade_id, limit, days, transfer), h) ↦
        let opened = record_sale_opened r f s trade_id limit days transfer h in
        let s' = (open_sale port r f s).1 in
        let t' = (refunded r s').1.tables in
        let kept = refunded_keeps r f s in
        elim (close_sale_cases r f trade_id limit days transfer s') [
          | inl (refused, same) ↦
              let stays =
                Stays-trans r.id s.tables s'.tables t' (open_sale-Stays r f s)
                  (refund_others-Stays r.id (others r s') (record s' { calls = s'.calls + 1 })) in
              inl (rw opened refused, rw (opened, same) kept, rw (opened, same) stays)
          | inr (done, same) ↦
              let (features, closed, unlocked) =
                features-sale r f trade_id limit days transfer t' in
              let (commissions, sells) =
                rows-sale r f trade_id limit days transfer s.tables t' kept in
              inr (
                rw opened done,
                rw (opened, same, features)
                    (sold_80_110 r f limit s.tables t' kept
                      (open_sale-limit r f s trade_id limit days transfer h)),
                rw (opened, same) closed,
                rw (opened, same) unlocked,
                rw (opened, same) sells,
                (trade_id, rw (opened, same) commissions),
              )
        ]
  ]
