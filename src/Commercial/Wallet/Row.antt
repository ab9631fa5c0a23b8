-- ===== src/Commercial/Wallet/Row.antt =====
-- One wallet row under an UPDATE of one column, and the balance of a user.
use metaverse_rang_microserv.Common.{
  ℕ, ◌≤◌, ◌≡◌, refl, Bool, true, false, none, some, arith, if◌then◌else◌,
}
use metaverse_rang_microserv.Common.Table.{select, count, sum}
use metaverse_rang_microserv.Commercial.Wallet.{
  Asset, Wallet, LockedAsset, Tables, column, set_column, is_column, same_asset, of_user,
}

pub same_asset_refl : (a : Asset) → same_asset a a ≡ true
unfolding same_asset
same_asset_refl Asset.psc = refl
same_asset_refl _ = refl

pub same_asset-eq : (a b : Asset) → same_asset a b ≡ true → a ≡ b
unfolding same_asset
same_asset-eq a b h = ground arith

-- The column that was set reads the new value, and every other one the old.
pub column-set_column :
    (a b : Asset) (v : ℕ) (w : Wallet)
    → is_column a ≡ true
    → column b (set_column a v w) ≡ (if same_asset a b then v else column b w)
unfolding column set_column is_column same_asset
column-set_column a b v w h = ground arith

pub user_id-set_column : (a : Asset) (v : ℕ) (w : Wallet) → (set_column a v w).user_id ≡ w.user_id
unfolding set_column
user_id-set_column Asset.psc v w = refl
user_id-set_column _ v w = refl

-- What user `u` holds of `a`.
unfoldable pub balance : ℕ → Asset → Tables → ℕ
balance u a t = elim (select (of_user u) t.wallets) [ none ↦ 0 | some w ↦ column a w ]

-- What all wallets hold of `a`.
unfoldable pub supply : Asset → Tables → ℕ
supply a t = sum (column a) t.wallets

-- What is locked of `a`.
abbrev pub lock_amount : Asset → LockedAsset → ℕ
lock_amount a l = if same_asset l.asset a then l.amount else 0

unfoldable pub locked : Asset → Tables → ℕ
locked a t = sum (lock_amount a) t.locked_assets

-- No user has two wallets.
abbrev pub IsUnique : Tables → Type 0
IsUnique t = (u : ℕ) → count (of_user u) t.wallets ≤ 1

unfoldable pub has_wallet : ℕ → Tables → Bool
has_wallet u t = elim (select (of_user u) t.wallets) [ none ↦ false | some w ↦ true ]
