-- ===== src/Features/Market/Sales/Guards.antt =====
-- What an accepted request has passed.
use metaverse_rang_microserv.Common.{ℕ, ◌≡◌, ◌≢◌, ◌⊎◌, false, some, arith}
use metaverse_rang_microserv.Common.Server.{Server, is_ok}
use metaverse_rang_microserv.Common.Table.{select}
use metaverse_rang_microserv.Features.Client.Port.{WalletPort}
use metaverse_rang_microserv.Features.Market.{Market, BuyFeatureRequest, Feature, is_request}
use metaverse_rang_microserv.Features.Market.Accounts.{check_underpriced_restriction}
use metaverse_rang_microserv.Features.Market.Sales.{check_sale, accept_buy_request}

module _ {W : Type 0} (port : WalletPort W) where
  pub check_underpriced_restriction_reads :
      (f : Feature) (s : Server (Market W))
      → (check_underpriced_restriction f s).1.tables ≡ s.tables
  unfolding check_underpriced_restriction
  check_underpriced_restriction_reads f s = ground arith

  -- Only the seller accepts, and only a pending request: otherwise, whatever calls fail, the call errs
  -- and no table and no wallet has changed.
  pub accept_buy_request_guarded :
      (id who : ℕ) (r : BuyFeatureRequest) (s : Server (Market W))
      → select (is_request id) s.tables.buy_requests ≡ some r
      → (r.seller_id ≢ who) ⊎ (r.status ≢ 0)
      → (is_ok (accept_buy_request port id who s).0 ≡ false)
        × ((accept_buy_request port id who s).1.tables ≡ s.tables)
  unfolding accept_buy_request check_sale
  accept_buy_request_guarded id who r s found h = ground arith
