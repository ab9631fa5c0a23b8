-- ===== src/Commercial/Wallet/Unlocks.antt =====
-- `UnlockBalance` of the repository: it restores what was locked, and checks no lock.
use metaverse_rang_microserv.Common.{
  ℕ, ◌+◌, ◌≡◌, refl, true, false, ◌≢◌, none, some, List, [], ◌∷◌, ◌++◌, inl, inr, arith,
  if◌then◌else◌, ==_refl, Option-cases,
}
use metaverse_rang_microserv.Common.Table.{select, count, delete_one}
use metaverse_rang_microserv.Common.Table.Laws.{
  sum-delete_one, delete_one-none, select-test, select-append_last, count-narrow_pos,
}
use metaverse_rang_microserv.Common.Server.{Server, ok}
use metaverse_rang_microserv.Commercial.Wallet.{
  Asset, LockedAsset, Tables, is_column, same_asset, of_user, can_pay, is_lock, lock_balance,
  unlock_balance,
}
use metaverse_rang_microserv.Commercial.Wallet.Row.{
  balance, supply, locked, lock_amount, has_wallet, IsUnique, same_asset-eq, same_asset_refl,
}
use metaverse_rang_microserv.Commercial.Wallet.Effects.{
  after_give, taken_enough, taken_balance, given_balance, given_supply, select-after_take, narrow,
}
use metaverse_rang_microserv.Commercial.Wallet.Locks.{
  new_lock, locked_tables, lock_balance_runs, locked-locked_tables,
}

module _ (u : ℕ) (a : Asset) (x : ℕ) where
  abbrev unlocked_tables : Tables → Tables
  unlocked_tables t = record t {
    wallets = after_give u a x t.wallets;
    locked_assets = delete_one (is_lock u a x) t.locked_assets;
  }

  unlock_balance_runs :
      (s : Server Tables)
      → ((n : ℕ) → s.fails n ≡ false)
      → is_column a ≡ true
      → unlock_balance u a x s
        ≡ (ok tt, record s { tables = unlocked_tables s.tables; calls = s.calls + 1 + 1 + 1 + 1 })
  unfolding unlock_balance
  unlock_balance_runs s up c =
      ground (arith, up s.calls, up (s.calls + 1), up (s.calls + 1 + 1), up (s.calls + 1 + 1 + 1))

  -- a user who can pay has a wallet, and keeps it
  has_wallet-locked_tables :
      (t : Tables)
      → count (can_pay u a x) t.wallets ≢ 0
      → has_wallet u (locked_tables u a x t) ≡ true
  unfolding has_wallet
  has_wallet-locked_tables t n = ground (
    arith,
    select-after_take u a x t.wallets u,
    count-narrow_pos (can_pay u a x) (of_user u) (narrow u a x) t.wallets n,
  )

  -- the lock that is found has the amount and the asset that are unlocked
  found_lock :
      (l : List LockedAsset) (r : LockedAsset) (b : Asset)
      → select (is_lock u a x) l ≡ some r
      → lock_amount b r ≡ (if same_asset a b then x else 0)
  found_lock l r b e = ground (arith, select-test (is_lock u a x) l r, same_asset-eq r.asset a)

  locked-unlocked_tables :
      (t : Tables) (b : Asset) → locked b (unlocked_tables (locked_tables u a x t)) ≡ locked b t
  unfolding locked
  locked-unlocked_tables t b =
      elim (Option-cases (select (is_lock u a x) (t.locked_assets ++ (new_lock u a x ∷ [])))) [
        | inl e ↦ absurd (
            select-append_last (is_lock u a x) t.locked_assets (new_lock u a x)
              (ground (arith, same_asset_refl a, ==_refl u, ==_refl x)) e)
        | inr (r, e) ↦ omega (
          arith,
          sum-delete_one (lock_amount b) (is_lock u a x) (t.locked_assets ++ (new_lock u a x ∷ []))
              r e,
          found_lock _ r b e,
          locked-locked_tables u a x t b,
        )
      ]

  balance-unlocked_tables :
      (t : Tables)
      → is_column a ≡ true
      → IsUnique t
      → count (can_pay u a x) t.wallets ≢ 0
      → (v : ℕ) (b : Asset) → balance v b (unlocked_tables (locked_tables u a x t)) ≡ balance v b t
  unfolding balance
  balance-unlocked_tables t c uniq n v b = ground (
    arith,
    given_balance u a x (locked_tables u a x t) c v b,
    taken_balance u a x t c uniq n v b,
    taken_enough u a x t c uniq n,
    has_wallet-locked_tables t n,
    same_asset-eq a b,
  )

  -- On a server where no call fails, in tables where no user has two wallets, an amount that the user
  -- can pay is locked, and unlocking it succeeds and gives every user every balance back and leaves as
  -- much locked of each asset as before.
  pub unlock_balance-lock_balance :
      (s : Server Tables)
      → ((n : ℕ) → s.fails n ≡ false)
      → is_column a ≡ true
      → IsUnique s.tables
      → count (can_pay u a x) s.tables.wallets ≢ 0
      → let (r, s₁) = lock_balance u a x s in
        let (r', s₂) = unlock_balance u a x s₁ in
        (r ≡ ok tt)
        × (r' ≡ ok tt)
        × ((v : ℕ) (b : Asset) → balance v b s₂.tables ≡ balance v b s.tables)
        × ((b : Asset) → locked b s₂.tables ≡ locked b s.tables)
  unlock_balance-lock_balance s up c uniq n = rw (lock_balance_runs u a x s up c n) (
      rw
        (unlock_balance_runs
          (record s { tables = locked_tables u a x s.tables; calls = s.calls + 1 + 1 + 1 + 1 }) up
          c)
        (refl, refl, balance-unlocked_tables s.tables c uniq n, locked-unlocked_tables s.tables))

  -- Unlocking checks no lock: where nothing of that user, asset and amount is locked, on a server where
  -- no call fails, it succeeds and the wallets hold that much more of the asset, with as much locked.
  pub unlock_balance_mints :
      (s : Server Tables)
      → ((n : ℕ) → s.fails n ≡ false)
      → is_column a ≡ true
      → IsUnique s.tables
      → has_wallet u s.tables ≡ true
      → select (is_lock u a x) s.tables.locked_assets ≡ none
      → let (r, s') = unlock_balance u a x s in
        (r ≡ ok tt)
        × (supply a s'.tables ≡ supply a s.tables + x)
        × (locked a s'.tables ≡ locked a s.tables)
  unfolding supply locked
  unlock_balance_mints s up c uniq has free = rw (unlock_balance_runs s up c) (
    refl,
    ground (arith, given_supply u a x s.tables c uniq a, same_asset_refl a),
    rw (delete_one-none (is_lock u a x) s.tables.locked_assets free),
  )
