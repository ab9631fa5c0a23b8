-- ===== src/Commercial/Wallet/Service.antt =====
-- `walletService`: what its callers get told.
use metaverse_rang_microserv.Common.{
  ℕ, ◌+◌, ◌≡◌, true, false, ◌≢◌, ◌⊎◌, some, [], ◌∷◌, inl, inr, arith, ==_refl, Bool-cases,
  Option-cases,
}
use metaverse_rang_microserv.Common.Table.{select, count}
use metaverse_rang_microserv.Common.Table.Laws.{count-append, select-none-count, count_single}
use metaverse_rang_microserv.Common.Server.{Server, Result, ok, err}
use metaverse_rang_microserv.Commercial.Wallet.{
  Asset, Wallet, Tables, Error, can_pay, is_column, db_error, wallet_not_found, column, of_user,
  deduct_row, get_wallet, create_wallet, deduct_balance, new_wallet,
}
use metaverse_rang_microserv.Commercial.Wallet.Row.{balance, IsUnique, same_asset_refl}
use metaverse_rang_microserv.Commercial.Wallet.Effects.{
  deduct_row_cases, taken, taken_balance, taken_enough,
}

module _ (u : ℕ) (s : Server Tables) where
  -- `CreateWallet` is idempotent: for a user that has a wallet it changes no table and returns it.
  pub create_wallet_existing :
      (w : Wallet)
      → select (of_user u) s.tables.wallets ≡ some w
      → u ≢ 0
      → s.fails s.calls ≡ false
      → (create_wallet u s).0 ≡ ok w × ((create_wallet u s).1.tables ≡ s.tables)
  unfolding create_wallet
  create_wallet_existing w e h up = ground arith

  -- `CreateWallet` gives no user a second wallet, whatever calls fail.
  pub create_wallet-IsUnique : IsUnique s.tables → IsUnique (create_wallet u s).1.tables
  unfolding create_wallet
  create_wallet-IsUnique uniq v = elim (Option-cases (select (of_user u) s.tables.wallets)) [
    | inl e ↦ ground (
      arith,
      uniq v,
      count-append (of_user v) s.tables.wallets (new_wallet s.tables.next_id u ∷ []),
      count_single (of_user v) (new_wallet s.tables.next_id u),
      select-none-count (of_user u) s.tables.wallets,
    )
    | inr (w, e) ↦ ground (arith, uniq v)
  ]

module _ (u : ℕ) (a : Asset) (x : ℕ) (s : Server Tables) where
  -- the service goes on to read the wallet after the repository's UPDATE
  deduct_balance_read :
      (s₁ : Server Tables)
      → deduct_row u a x s ≡ (ok tt, s₁)
      → deduct_balance u a x s ≡ get_wallet u s₁
  unfolding deduct_balance
  deduct_balance_read s₁ e = ground (arith, e)

  deduct_balance_refused :
      (e : Error) (s₁ : Server Tables)
      → deduct_row u a x s ≡ (err e, s₁)
      → deduct_balance u a x s ≡ (err e, s₁)
  unfolding deduct_balance
  deduct_balance_refused e s₁ h = ground (arith, h)

  -- A read of the wallet that succeeds returns a row with the balance.
  get_wallet_ends :
      ((w : Wallet) × (get_wallet u s ≡ (ok w, record s { calls = s.calls + 1 }))
        × (column a w ≡ balance u a s.tables))
      ⊎ ((e : Error) × (get_wallet u s ≡ (err e, record s { calls = s.calls + 1 })))
  unfolding get_wallet balance
  get_wallet_ends = elim (Bool-cases (s.fails s.calls)) [
    | inl f ↦ inr (db_error, ground arith)
    | inr f ↦ elim (Option-cases (select (of_user u) s.tables.wallets)) [
      | inl e ↦ inr (wallet_not_found, ground arith)
      | inr (w, e) ↦ inl (w, ground arith, ground arith)
    ]
  ]

-- What `DeductBalance` of the service may have done, by its answer.
abbrev pub Answered : ℕ → Asset → ℕ → Tables → Result Error Wallet × Server Tables → Type 0
Answered u a x t (ok w, s') =
    (column a w + x ≡ balance u a t) × (balance u a s'.tables + x ≡ balance u a t)
Answered u a x t (err e, s') = (s'.tables ≡ t) ⊎ (balance u a s'.tables + x ≡ balance u a t)

-- `DeductBalance` of the service, in tables where no user has two wallets and whatever calls fail: if
-- it returns a wallet, the amount is off the user's balance, and the wallet shows that; if it errs,
-- either no table has changed, or the amount is off the balance all the same.
pub deduct_balance-Answered :
    (u : ℕ) (a : Asset) (x : ℕ) (s : Server Tables)
    → IsUnique s.tables
    → Answered u a x s.tables (deduct_balance u a x s)
deduct_balance-Answered u a x s uniq = elim (deduct_row_cases u a x s) [
  | inl (e, s', eq, same) ↦ rw (deduct_balance_refused u a x s e s' eq) (inl same)
  | inr (c, n, eq) ↦ rw (deduct_balance_read u a x s (taken u a x s) eq) (
      let less : balance u a (taken u a x s).tables + x ≡ balance u a s.tables = ground (
        arith,
        taken_balance u a x s.tables c uniq n u a,
        taken_enough u a x s.tables c uniq n,
        same_asset_refl a,
        ==_refl u,
      ) in
      elim (get_wallet_ends u a x (taken u a x s)) [
        | inl (w, got, col) ↦ rw got (omega (arith, col, less), less)
        | inr (e, got) ↦ rw got (inr less)
      ])
]

-- Money is taken though an error is returned: where the amount can be paid and the UPDATE's call goes
-- through, but the call of the read after it fails.
pub deduct_balance_err_taken :
    (u : ℕ) (a : Asset) (x : ℕ) (s : Server Tables)
    → IsUnique s.tables
    → is_column a ≡ true
    → count (can_pay u a x) s.tables.wallets ≢ 0
    → s.fails s.calls ≡ false
    → s.fails (s.calls + 1) ≡ true
    → ((deduct_balance u a x s).0 ≡ err db_error)
      × (balance u a (deduct_balance u a x s).1.tables + x ≡ balance u a s.tables)
unfolding deduct_balance
deduct_balance_err_taken u a x s uniq c n up down = ground (
  arith,
  taken_balance u a x s.tables c uniq n u a,
  taken_enough u a x s.tables c uniq n,
  same_asset_refl a,
  ==_refl u,
)
