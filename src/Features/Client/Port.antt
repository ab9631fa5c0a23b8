-- ===== src/Features/Client/Port.antt =====
-- What the marketplace asks of the wallets: the calls of `CommercialClient`, and what each does to
-- what every user holds. An answer of true is a nil error.
use metaverse_rang_microserv.Common.{
  ℕ, ◌+◌, ◌-◌, ◌≤◌, ◌≡◌, Bool, true, false, ◌&&◌, Option, ◌==◌, if◌then◌else◌, ==_refl, arith,
}
use metaverse_rang_microserv.Commercial.Wallet.{Asset, same_asset}
use metaverse_rang_microserv.Commercial.Wallet.Row.{same_asset_refl}
use metaverse_rang_microserv.Features.Client.{check_balance}

-- the one balance that a call moves
unfoldable pub is_at : ℕ → Asset → ℕ → Asset → Bool
is_at u a v b = v == u && same_asset a b

pub is_at_self : (u : ℕ) (a : Asset) → is_at u a u a ≡ true
unfolding is_at
is_at_self u a = ground (arith, ==_refl u, same_asset_refl a)

pub record WalletPort (W : Type 0) : Type 0 where
  pub deduct_balance : ℕ → Asset → ℕ → W → Bool × W
  pub add_balance : ℕ → Asset → ℕ → W → Bool × W
  -- the balance that the reply of `GetWallet` shows, or none where the call errs
  pub get_wallet : ℕ → Asset → W → Option ℕ × W
  -- what user `u` holds of an asset
  pub funds : ℕ → Asset → W → ℕ
  pub deduct_enough :
      (u : ℕ) (a : Asset) (x : ℕ) (w : W) → (deduct_balance u a x w).0 ≡ true → x ≤ funds u a w
  pub deduct_moves :
      (u : ℕ) (a : Asset) (x : ℕ) (w : W) (v : ℕ) (b : Asset)
      → (deduct_balance u a x w).0 ≡ true
      → funds v b (deduct_balance u a x w).1
        ≡ (if is_at u a v b then funds v b w - x else funds v b w)
  pub add_moves :
      (u : ℕ) (a : Asset) (x : ℕ) (w : W) (v : ℕ) (b : Asset)
      → (add_balance u a x w).0 ≡ true
      → funds v b (add_balance u a x w).1 ≡ (if is_at u a v b then funds v b w + x else funds v b w)
  pub get_keeps :
      (u : ℕ) (a : Asset) (w : W) (v : ℕ) (b : Asset) → funds v b (get_wallet u a w).1 ≡ funds v b w

-- that a call that errs has moved nothing; a service whose reply is lost, or that errs after its
-- UPDATE, does not keep this
pub record KeepsRefused {W : Type 0} (port : WalletPort W) : Type 0 where
  pub deduct_refused :
      (u : ℕ) (a : Asset) (x : ℕ) (w : W) (v : ℕ) (b : Asset)
      → (port.deduct_balance u a x w).0 ≡ false
      → port.funds v b (port.deduct_balance u a x w).1 ≡ port.funds v b w
  pub add_refused :
      (u : ℕ) (a : Asset) (x : ℕ) (w : W) (v : ℕ) (b : Asset)
      → (port.add_balance u a x w).0 ≡ false
      → port.funds v b (port.add_balance u a x w).1 ≡ port.funds v b w

-- `CheckBalance` over a port
unfoldable pub has_balance : {W : Type 0} → WalletPort W → ℕ → Asset → ℕ → W → Bool × W
unfolding check_balance
has_balance port u a x w = let (shown, w') = port.get_wallet u a w in (check_balance a shown x, w')
