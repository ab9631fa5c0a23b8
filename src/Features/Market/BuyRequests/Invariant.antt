-- ===== src/Features/Market/BuyRequests/Invariant.antt =====
-- A released request takes its lock with it.
use metaverse_rang_microserv.Common.{ℕ, ◌+◌, ◌≡◌, refl, true, false, some}
use metaverse_rang_microserv.Common.Server.{Server}
use metaverse_rang_microserv.Common.Table.{select}
use metaverse_rang_microserv.Features.Client.Port.{WalletPort}
use metaverse_rang_microserv.Features.Market.{
  Market, BuyFeatureRequest, LockedAsset, is_request, locks, delete_lock, delete_buy_request_row,
}
use metaverse_rang_microserv.Features.Market.Escrow.{LocksOpen, LocksOpen-same, LocksOpen-delete}
use metaverse_rang_microserv.Features.Market.BuyRequests.{
  release, reject_buy_request, delete_buy_request,
}
use metaverse_rang_microserv.Features.Market.BuyRequests.Release.{
  paid_psc, paid_irr, release_runs, reject_releases, delete_releases,
}

module _ {W : Type 0} (port : WalletPort W) where
  release-LocksOpen :
      (r : BuyFeatureRequest) (l : LockedAsset) (s : Server (Market W))
      → ((n : ℕ) → s.fails n ≡ false)
      → select (locks r.id) s.tables.locked_assets ≡ some l
      → (paid_psc port r s l).0 ≡ true
      → (paid_irr port r s l).0 ≡ true
      → LocksOpen s.tables
      → LocksOpen (release port r s).1.tables
  unfolding delete_lock delete_buy_request_row
  release-LocksOpen r l s up lock p q h =
      let (_, _, requests, assets) = release_runs port r s l up lock p q in
      LocksOpen-same (delete_buy_request_row r.id (delete_lock r.id s.tables))
        (release port r s).1.tables requests assets (LocksOpen-delete r.id s.tables h)

  -- Where every lock has an open request, it still has after the seller rejects one, and after the
  -- buyer deletes one, on a server where no call fails and the two refunds go through.
  pub release_keeps_locks :
      (id : ℕ) (r : BuyFeatureRequest) (l : LockedAsset) (s : Server (Market W))
      → ((n : ℕ) → s.fails n ≡ false)
      → select (is_request id) s.tables.buy_requests ≡ some r
      → select (locks r.id) s.tables.locked_assets ≡ some l
      → (paid_psc port r s l).0 ≡ true
      → (paid_irr port r s l).0 ≡ true
      → LocksOpen s.tables
      → LocksOpen (reject_buy_request port id r.seller_id s).1.tables
        × LocksOpen (delete_buy_request port id r.buyer_id s).1.tables
  release_keeps_locks id r l s up found lock p q h =
      let s' = record s { calls = s.calls + 1 } in
      let kept = release-LocksOpen r l s' up lock p q h in
      (
        rw (reject_releases port id r.seller_id r s (up s.calls) found refl) kept,
        rw (delete_releases port id r.buyer_id r s (up s.calls) found refl) kept,
      )
