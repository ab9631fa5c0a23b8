-- ===== src/Features/Market/BuyRequests/Release.antt =====
-- The refunds of rejected, deleted and outbid buy requests, and the grace period.
use metaverse_rang_microserv.Common.{
  ℕ, ◌+◌, ◌≡◌, refl, ap, ◌∙◌, ◌≢◌, Bool, true, false, none, some, List, [], ◌∷◌, arith,
  if◌then◌else◌,
}
use metaverse_rang_microserv.Common.Server.{Server, ok, err}
use metaverse_rang_microserv.Common.Table.{select, delete}
use metaverse_rang_microserv.Common.Table.Laws.{select-delete_self, select-test}
use metaverse_rang_microserv.Commercial.Wallet.{Asset}
use metaverse_rang_microserv.Features.Client.Port.{KeepsRefused, WalletPort, is_at, is_at_self}
use metaverse_rang_microserv.Features.Market.{
  BuyFeatureRequest, LockedAsset, Market, locked_assets_not_found, wallet_error, is_request, has_id,
  locks,
}
use metaverse_rang_microserv.Features.Market.BuyRequests.{
  reject_buy_request, delete_buy_request, release,
}

module _ {W : Type 0} (port : WalletPort W) where
  -- what the user holds, in the market
  abbrev pub holds : ℕ → Asset → Market W → ℕ
  holds u a t = port.funds u a t.wallets

  -- a refund of `psc` and `irr` to `u`
  abbrev pub Refunded : ℕ → ℕ → ℕ → Market W → Market W → Type 0
  Refunded u psc irr t t' =
      (v : ℕ) (b : Asset)
      → holds v b t' ≡ (
          if is_at u Asset.irr v b
          then (if is_at u Asset.psc v b then holds v b t + psc else holds v b t) + irr
          else if is_at u Asset.psc v b
          then holds v b t + psc
          else holds v b t)

  module _ (r : BuyFeatureRequest) (s : Server (Market W)) where
    -- the two refunds, in order
    abbrev pub paid_psc : LockedAsset → Bool × W
    paid_psc l = port.add_balance r.buyer_id Asset.psc l.psc s.tables.wallets

    abbrev pub paid_irr : LockedAsset → Bool × W
    paid_irr l = port.add_balance r.buyer_id Asset.irr l.irr (paid_psc l).1

    -- A release that succeeds has found the lock, made both refunds, and deleted the request.
    release_done :
        (l : LockedAsset)
        → select (locks r.id) s.tables.locked_assets ≡ some l
        → (release port r s).0 ≡ ok tt
        → ((paid_psc l).0 ≡ true)
          × ((paid_irr l).0 ≡ true)
          × ((release port r s).1.tables.wallets ≡ (paid_irr l).1)
          × ((release port r s).1.tables.buy_requests ≡ delete (has_id r.id) s.tables.buy_requests)
    unfolding release
    release_done l found done = ground arith

    -- A release without a lock pays nothing.
    release_unlocked :
        select (locks r.id) s.tables.locked_assets ≡ none
        → ((release port r s).1.tables ≡ s.tables)
          × ((release port r s).0 ≡ err locked_assets_not_found)
    unfolding release
    release_unlocked e = ground arith

    -- On a server where no call fails, a release of two refunds that succeed succeeds.
    pub release_runs :
        (l : LockedAsset)
        → ((n : ℕ) → s.fails n ≡ false)
        → select (locks r.id) s.tables.locked_assets ≡ some l
        → (paid_psc l).0 ≡ true
        → (paid_irr l).0 ≡ true
        → ((release port r s).0 ≡ ok tt)
          × ((release port r s).1.tables.wallets ≡ (paid_irr l).1)
          × ((release port r s).1.tables.buy_requests ≡ delete (has_id r.id) s.tables.buy_requests)
          × ((release port r s).1.tables.locked_assets ≡ delete (locks r.id) s.tables.locked_assets)
    unfolding release
    release_runs l up found p q =
        ground (arith, up s.calls, up (s.calls + 1), up (s.calls + 1 + 1), up (s.calls + 1 + 1 + 1))

    Refunded_of_paid :
        (l : LockedAsset)
        → (paid_psc l).0 ≡ true
        → (paid_irr l).0 ≡ true
        → (v : ℕ) (b : Asset)
        → port.funds v b (paid_irr l).1 ≡ (
            if is_at r.buyer_id Asset.irr v b
            then (if is_at r.buyer_id Asset.psc v b
                then holds v b s.tables + l.psc
                else holds v b s.tables)
              + l.irr
            else if is_at r.buyer_id Asset.psc v b
            then holds v b s.tables + l.psc
            else holds v b s.tables)
    Refunded_of_paid l p q v b = ground (
      arith,
      port.add_moves r.buyer_id Asset.psc l.psc s.tables.wallets v b,
      port.add_moves r.buyer_id Asset.irr l.irr (paid_psc l).1 v b,
    )

  -- no row that is deleted by its id is found again
  gone :
      (id : ℕ) (l : List BuyFeatureRequest) → select (is_request id) (delete (has_id id) l) ≡ none
  unfolding select delete
  gone id [] = refl
  gone id (x ∷ l) = ground (arith, gone id l)

  pub request_id :
      (id : ℕ) (l : List BuyFeatureRequest) (r : BuyFeatureRequest)
      → select (is_request id) l ≡ some r
      → r.id ≡ id
  request_id id l r e = ground (arith, select-test (is_request id) l r)

  -- The release of request `r` under its id `id`, on a server where no call fails.
  release_refunds :
      (id : ℕ) (r : BuyFeatureRequest) (l : LockedAsset) (s : Server (Market W))
      → ((n : ℕ) → s.fails n ≡ false)
      → r.id ≡ id
      → select (locks id) s.tables.locked_assets ≡ some l
      → (paid_psc r s l).0 ≡ true
      → (paid_irr r s l).0 ≡ true
      → let (result, s') = release port r s in
        (result ≡ ok tt)
        × Refunded r.buyer_id l.psc l.irr s.tables s'.tables
        × (select (is_request id) s'.tables.buy_requests ≡ none)
        × (select (locks id) s'.tables.locked_assets ≡ none)
  release_refunds id r l s up same lock p q =
      let lock' : select (locks r.id) s.tables.locked_assets ≡ some l = rw same lock in
      let (done, wallets, requests, assets) = release_runs r s l up lock' p q in
      (
        done,
        (λ v b. ap (port.funds v b) wallets ∙ Refunded_of_paid r s l p q v b),
        rw (requests, same) (gone id s.tables.buy_requests),
        rw (assets, same) (select-delete_self (locks id) s.tables.locked_assets),
      )

  module _ (id who : ℕ) (r : BuyFeatureRequest) (s : Server (Market W)) where
    abbrev pub after_find : Server (Market W)
    after_find = record s { calls = s.calls + 1 }

    pub reject_releases :
        s.fails s.calls ≡ false
        → select (is_request id) s.tables.buy_requests ≡ some r
        → r.seller_id ≡ who
        → reject_buy_request port id who s ≡ release port r after_find
    unfolding reject_buy_request
    reject_releases up found same = ground arith

    pub delete_releases :
        s.fails s.calls ≡ false
        → select (is_request id) s.tables.buy_requests ≡ some r
        → r.buyer_id ≡ who
        → delete_buy_request port id who s ≡ release port r after_find
    unfolding delete_buy_request
    delete_releases up found same = ground arith

  -- The buyer deletes a buy request, on a server where no call fails and the two refunds go through: the
  -- buyer gets both locked amounts back, no other balance moves, and the request and its lock are gone.
  pub delete_buy_request_refunds :
      (id buyer : ℕ) (r : BuyFeatureRequest) (l : LockedAsset) (s : Server (Market W))
      → ((n : ℕ) → s.fails n ≡ false)
      → select (is_request id) s.tables.buy_requests ≡ some r
      → select (locks id) s.tables.locked_assets ≡ some l
      → r.buyer_id ≡ buyer
      → (paid_psc r s l).0 ≡ true
      → (paid_irr r s l).0 ≡ true
      → let (result, s') = delete_buy_request port id buyer s in
        (result ≡ ok tt)
        × Refunded r.buyer_id l.psc l.irr s.tables s'.tables
        × (select (is_request id) s'.tables.buy_requests ≡ none)
        × (select (locks id) s'.tables.locked_assets ≡ none)
  delete_buy_request_refunds id buyer r l s up found lock same p q =
      rw (delete_releases id buyer r s (up s.calls) found same) (
        release_refunds id r l (record s { calls = s.calls + 1 }) up
          (request_id id s.tables.buy_requests r found) lock p q)

  -- Whoever is not the seller rejects nothing, and whoever is not the buyer deletes nothing, whatever
  -- calls fail: the call errs and no table and no wallet has changed.
  pub release_needs_party :
      (id who : ℕ) (r : BuyFeatureRequest) (s : Server (Market W))
      → select (is_request id) s.tables.buy_requests ≡ some r
      → ((r.seller_id ≢ who)
          → ((reject_buy_request port id who s).1.tables ≡ s.tables)
            × ((reject_buy_request port id who s).0 ≢ ok tt))
        × ((r.buyer_id ≢ who)
            → ((delete_buy_request port id who s).1.tables ≡ s.tables)
              × ((delete_buy_request port id who s).0 ≢ ok tt))
  unfolding reject_buy_request delete_buy_request
  release_needs_party id who r s found = ((λ h. ground arith), (λ h. ground arith))

  -- A refund is not atomic, on wallets where a call that errs has moved nothing: where the refund of PSC goes through and that of the rial does not, on a
  -- server where no call fails, rejecting errs, the PSC is paid, and the request and its lock are
  -- still there to be refunded again.
  pub reject_buy_request_half :
      KeepsRefused port
      → (id : ℕ) (r : BuyFeatureRequest) (l : LockedAsset) (s : Server (Market W))
      → ((n : ℕ) → s.fails n ≡ false)
      → select (is_request id) s.tables.buy_requests ≡ some r
      → select (locks r.id) s.tables.locked_assets ≡ some l
      → (paid_psc r s l).0 ≡ true
      → (paid_irr r s l).0 ≡ false
      → let (result, s') = reject_buy_request port id r.seller_id s in
        (result ≡ err wallet_error)
        × (holds r.buyer_id Asset.psc s'.tables ≡ holds r.buyer_id Asset.psc s.tables + l.psc)
        × (select (is_request id) s'.tables.buy_requests ≡ some r)
        × (select (locks r.id) s'.tables.locked_assets ≡ some l)
  unfolding reject_buy_request release
  reject_buy_request_half keeps id r l s up found lock p q = ground (
    arith,
    up s.calls,
    up (s.calls + 1),
    port.add_moves r.buyer_id Asset.psc l.psc s.tables.wallets r.buyer_id Asset.psc,
    keeps.add_refused r.buyer_id Asset.irr l.irr (paid_psc r s l).1 r.buyer_id Asset.psc,
    is_at_self r.buyer_id Asset.psc,
  )
