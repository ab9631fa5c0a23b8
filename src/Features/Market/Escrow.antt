-- ===== src/Features/Market/Escrow.antt =====
-- Locked funds and the requests they are locked for.
use metaverse_rang_microserv.Common.{
  ℕ, ◌≡◌, ◌≢◌, inl, inr, refl, true, none, List, [], ◌∷◌, arith, ap, sym, ◌∙◌, ◌==◌, Bool-cases,
}
use metaverse_rang_microserv.Common.Table.{select, update, delete}
use metaverse_rang_microserv.Common.Table.Laws.{select-delete_self}
use metaverse_rang_microserv.Features.Market.{
  Market, BuyFeatureRequest, LockedAsset, is_request, has_id, locks, delete_lock, soft_delete,
  delete_buy_request_row,
}

-- the row that `soft_delete` leaves
abbrev pub retired : BuyFeatureRequest → BuyFeatureRequest
retired r = record r { deleted = true }

pub open-retire_other :
    (x id : ℕ) (l : List BuyFeatureRequest)
    → x ≢ id
    → select (is_request x) (update (has_id id) retired l) ≡ select (is_request x) l
unfolding select update
open-retire_other x id [] h = refl
open-retire_other x id (r ∷ l) h = ground (arith, open-retire_other x id l h)

pub open-retire_self :
    (id : ℕ) (l : List BuyFeatureRequest)
    → select (is_request id) (update (has_id id) retired l) ≡ none
unfolding select update
open-retire_self id [] = refl
open-retire_self id (r ∷ l) = ground (arith, open-retire_self id l)

pub locks-delete_other :
    (x id : ℕ) (l : List LockedAsset)
    → x ≢ id
    → select (locks x) (delete (locks id) l) ≡ select (locks x) l
unfolding select delete
locks-delete_other x id [] h = refl
locks-delete_other x id (r ∷ l) h = ground (arith, locks-delete_other x id l h)

pub open-delete_other :
    (x id : ℕ) (l : List BuyFeatureRequest)
    → x ≢ id
    → select (is_request x) (delete (has_id id) l) ≡ select (is_request x) l
unfolding select delete
open-delete_other x id [] h = refl
open-delete_other x id (r ∷ l) h = ground (arith, open-delete_other x id l h)

module _ {W : Type 0} where
  -- every lock has an open request
  unfoldable pub LocksOpen : Market W → Type 0
  LocksOpen t =
      (id : ℕ)
      → select (is_request id) t.buy_requests ≡ none
      → select (locks id) t.locked_assets ≡ none

  -- the invariant reads two tables
  pub LocksOpen-same :
      (t t' : Market W)
      → t'.buy_requests ≡ t.buy_requests
      → t'.locked_assets ≡ t.locked_assets
      → LocksOpen t
      → LocksOpen t'
  unfolding LocksOpen
  LocksOpen-same t t' requests assets h id e =
      ap (select (locks id)) assets ∙ h id (ap (select (is_request id)) (sym requests) ∙ e)

  -- a request and its lock that go together keep the invariant
  pub LocksOpen-retire :
      (id : ℕ) (t : Market W) → LocksOpen t → LocksOpen (delete_lock id (soft_delete id t))
  unfolding LocksOpen delete_lock soft_delete
  LocksOpen-retire id t h x e = elim (Bool-cases (x == id)) [
    | inl same ↦ ground (arith, select-delete_self (locks id) t.locked_assets)
    | inr other ↦
        ground (
          arith,
          open-retire_other x id t.buy_requests,
          locks-delete_other x id t.locked_assets,
          h x,
        )
  ]

  pub LocksOpen-delete :
      (id : ℕ) (t : Market W)
      → LocksOpen t
      → LocksOpen (delete_buy_request_row id (delete_lock id t))
  unfolding LocksOpen delete_lock delete_buy_request_row
  LocksOpen-delete id t h x e = elim (Bool-cases (x == id)) [
    | inl same ↦ ground (arith, select-delete_self (locks id) t.locked_assets)
    | inr other ↦
        ground (
          arith,
          open-delete_other x id t.buy_requests,
          locks-delete_other x id t.locked_assets,
          h x,
        )
  ]
