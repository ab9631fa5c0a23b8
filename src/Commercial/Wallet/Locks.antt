-- ===== src/Commercial/Wallet/Locks.antt =====
-- `LockBalance` and `UnlockBalance` of the repository, and `DeductBalance` and `Create` of the service.
use metaverse_rang_microserv.Common.{
  ℕ, ◌+◌, ◌-◌, ◌≤◌, ◌≡◌, refl, ◌∙◌, ap, true, false, ◌&&◌, ◌≢◌, ◌⊎◌, [], ◌∷◌, ◌++◌, inl, inr, arith,
  ◌==◌, if◌then◌else◌, Bool-cases,
}
use metaverse_rang_microserv.Common.Table.{count, sum}
use metaverse_rang_microserv.Common.Table.Laws.{sum-append, sum_single}
use metaverse_rang_microserv.Common.Server.{Server, ok, err}
use metaverse_rang_microserv.Commercial.Wallet.{
  Asset, LockedAsset, Tables, Error, db_error, insufficient_balance, is_column, same_asset, can_pay,
  lock_balance,
}
use metaverse_rang_microserv.Commercial.Wallet.Row.{balance, supply, locked, lock_amount, IsUnique}
use metaverse_rang_microserv.Commercial.Wallet.Effects.{
  after_take, taken_enough, taken_balance, taken_supply,
}

module _ (u : ℕ) (a : Asset) (x : ℕ) where
  abbrev pub new_lock : LockedAsset
  new_lock = record { user_id = u; asset = a; amount = x }

  abbrev pub locked_tables : Tables → Tables
  locked_tables t = record t {
    wallets = after_take u a x t.wallets;
    locked_assets = t.locked_assets ++ (new_lock ∷ []);
  }

  module _ (s : Server Tables) where
    -- The ends of `LockBalance`.
    lock_balance_cases :
        ((e : Error) × (s' : Server Tables) × (lock_balance u a x s ≡ (err e, s'))
          × (s'.tables ≡ s.tables))
        ⊎ ((is_column a ≡ true)
            × (count (can_pay u a x) s.tables.wallets ≢ 0)
            × (s' : Server Tables) × (lock_balance u a x s ≡ (ok tt, s'))
            × (s'.tables ≡ locked_tables s.tables))
    unfolding lock_balance
    lock_balance_cases = elim (Bool-cases (s.fails s.calls)) [
      | inl f ↦ inl (db_error, record s { calls = s.calls + 1 }, ground arith, refl)
      | inr f ↦ elim (Bool-cases (is_column a)) [
        | inr c ↦ inl (db_error, record s { calls = s.calls + 1 }, ground arith, refl)
        | inl c ↦ elim (Bool-cases (s.fails (s.calls + 1))) [
          | inl g ↦ inl (db_error, record s { calls = s.calls + 1 + 1 }, ground arith, refl)
          | inr g ↦ elim (Bool-cases (count (can_pay u a x) s.tables.wallets == 0)) [
            | inl z ↦
                inl (insufficient_balance, record s { calls = s.calls + 1 + 1 }, ground arith, refl)
            | inr n ↦ elim (Bool-cases (s.fails (s.calls + 1 + 1))) [
              | inl h ↦ inl (db_error, record s { calls = s.calls + 1 + 1 + 1 }, ground arith, refl)
              | inr h ↦ elim (Bool-cases (s.fails (s.calls + 1 + 1 + 1))) [
                | inl k ↦
                    inl (db_error, record s { calls = s.calls + 1 + 1 + 1 + 1 }, ground arith, refl)
                | inr k ↦ inr (
                  c,
                  ground arith,
                  record s { tables = locked_tables s.tables; calls = s.calls + 1 + 1 + 1 + 1 },
                  ground arith,
                  refl,
                )
              ]
            ]
          ]
        ]
      ]
    ]

  pub locked-locked_tables :
      (t : Tables) (b : Asset)
      → locked b (locked_tables t) ≡ locked b t + (if same_asset a b then x else 0)
  unfolding locked
  locked-locked_tables t b =
      sum-append (lock_amount b) t.locked_assets (new_lock ∷ [])
      ∙ ap (λ n. sum (lock_amount b) t.locked_assets + n) (sum_single (lock_amount b) new_lock)

  supply-locked_tables :
      (t : Tables)
      → is_column a ≡ true
      → IsUnique t
      → count (can_pay u a x) t.wallets ≢ 0
      → (b : Asset) → supply b (locked_tables t) + (if same_asset a b then x else 0) ≡ supply b t
  unfolding supply
  supply-locked_tables t c uniq n b = taken_supply u a x t c uniq n b

  -- Locking moves money and makes none: in tables where no user has two wallets, and whatever calls
  -- fail, what the wallets hold and what is locked of each asset add up to what they did before, and a
  -- call that errs leaves the tables as they were.
  pub lock_balance-conserves :
      (s : Server Tables)
      → IsUnique s.tables
      → ((b : Asset)
          → supply b (lock_balance u a x s).1.tables + locked b (lock_balance u a x s).1.tables
            ≡ supply b s.tables + locked b s.tables)
        × (((lock_balance u a x s).0 ≢ ok tt) → (lock_balance u a x s).1.tables ≡ s.tables)
  lock_balance-conserves s uniq = elim (lock_balance_cases s) [
    | inl (e, s', eq, same) ↦ rw (eq, same) ((λ b. refl), (λ h. refl))
    | inr (c, n, s', eq, same) ↦
        rw (eq, same)
          (
            (λ b.
                omega (
                  arith,
                  supply-locked_tables s.tables c uniq n b,
                  locked-locked_tables s.tables b,
                )),
            (λ h. absurd (h refl)),
          )
  ]

  -- A server on which no call fails locks what the user holds.
  pub lock_balance_runs :
      (s : Server Tables)
      → ((n : ℕ) → s.fails n ≡ false)
      → is_column a ≡ true
      → count (can_pay u a x) s.tables.wallets ≢ 0
      → lock_balance u a x s
        ≡ (ok tt, record s { tables = locked_tables s.tables; calls = s.calls + 1 + 1 + 1 + 1 })
  unfolding lock_balance
  lock_balance_runs s up c n =
      ground (arith, up s.calls, up (s.calls + 1), up (s.calls + 1 + 1), up (s.calls + 1 + 1 + 1))

  -- Locking takes the amount off the user's balance, only if it is there, and no other balance.
  pub lock_balance-takes :
      (s : Server Tables)
      → IsUnique s.tables
      → (lock_balance u a x s).0 ≡ ok tt
      → (x ≤ balance u a s.tables)
        × ((v : ℕ) (b : Asset)
            → balance v b (lock_balance u a x s).1.tables ≡ (
                if v == u && same_asset a b
                then balance v b s.tables - x
                else balance v b s.tables))
  unfolding balance
  lock_balance-takes s uniq h = elim (lock_balance_cases s) [
    | inl (e, s', eq, same) ↦ cc
    | inr (c, n, s', eq, same) ↦
        rw (eq, same) (taken_enough u a x s.tables c uniq n, taken_balance u a x s.tables c uniq n)
  ]
