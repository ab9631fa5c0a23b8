-- ===== src/Features/Market/BuyRequests/Refunds.antt =====
-- The refunds of the requests that lost to another.
use metaverse_rang_microserv.Common.{
  ◌≢◌, inl, inr, ℕ, ◌+◌, ◌≡◌, ◌⊎◌, false, none, some, arith, Option-cases,
}
use metaverse_rang_microserv.Common.Server.{Server, ok}
use metaverse_rang_microserv.Common.Table.{select}
use metaverse_rang_microserv.Common.Table.Laws.{select-test}
use metaverse_rang_microserv.Features.Market.Escrow.{open-retire_other, locks-delete_other}
use metaverse_rang_microserv.Features.Client.Port.{WalletPort}
use metaverse_rang_microserv.Features.Market.{
  Market, BuyFeatureRequest, is_request, locks, delete_lock, soft_delete,
}
use metaverse_rang_microserv.Features.Market.BuyRequests.{refund_buy_request, refund_found, refund}

module _ {W : Type 0} (port : WalletPort W) where
  -- the tables that a refund leaves as they are, whatever calls fail
  pub refund_keeps :
      (id : ℕ) (s : Server (Market W))
      → let (result, s') = refund_buy_request port id s in
        (s'.tables.features ≡ s.tables.features)
        × (s'.tables.commissions ≡ s.tables.commissions)
        × (s'.tables.sell_requests ≡ s.tables.sell_requests)
        × (s'.tables.profits ≡ s.tables.profits)
  unfolding refund_buy_request refund_found refund delete_lock soft_delete
  refund_keeps id s = ground arith

  -- a refund whose request is there retires it with its lock, where it has one
  pub refund_open :
      (id : ℕ) (r : BuyFeatureRequest) (s : Server (Market W))
      → ((n : ℕ) → s.fails n ≡ false)
      → select (is_request id) s.tables.buy_requests ≡ some r
      → r.id ≡ id
      → let (result, s') = refund_buy_request port id s in
        (result ≡ ok tt)
        × (s'.fails ≡ s.fails)
        × ((s'.tables ≡ s.tables)
            ⊎ (s'.tables ≡ record (soft_delete r.id (delete_lock r.id s.tables)) {
              wallets = s'.tables.wallets;
            }))
  unfolding refund_buy_request refund_found refund delete_lock soft_delete
  refund_open id r s up found same = ground (
    arith,
    up s.calls,
    up (s.calls + 1),
    up (s.calls + 1 + 1),
    up (s.calls + 1 + 1 + 1),
    Option-cases (select (locks id) s.tables.locked_assets),
  )

  pub refund_closed :
      (id : ℕ) (s : Server (Market W))
      → ((n : ℕ) → s.fails n ≡ false)
      → select (is_request id) s.tables.buy_requests ≡ none
      → select (locks id) s.tables.locked_assets ≡ none
      → let (result, s') = refund_buy_request port id s in
        (result ≡ ok tt) × (s'.fails ≡ s.fails) × (s'.tables ≡ s.tables)
  unfolding refund_buy_request refund_found refund delete_lock soft_delete
  refund_closed id s up found unlocked = ground (arith, up s.calls, up (s.calls + 1))

  -- a refund leaves every other request and its lock, whatever calls fail
  pub refund_keeps_other :
      (x id : ℕ) (s : Server (Market W))
      → x ≢ id
      → let s' = (refund_buy_request port id s).1 in
        (select (is_request x) s'.tables.buy_requests ≡ select (is_request x) s.tables.buy_requests)
        × (select (locks x) s'.tables.locked_assets ≡ select (locks x) s.tables.locked_assets)
  unfolding refund_buy_request refund_found refund delete_lock soft_delete
  refund_keeps_other x id s other =
      elim (Option-cases (select (is_request id) s.tables.buy_requests)) [
        | inl closed ↦ ground (arith, closed)
        | inr (r, found) ↦
            let same : r.id ≡ id =
              ground (arith, select-test (is_request id) s.tables.buy_requests r found) in
            ground (
              arith,
              found,
              same,
              other,
              open-retire_other x r.id s.tables.buy_requests,
              locks-delete_other x r.id s.tables.locked_assets,
            )
      ]
