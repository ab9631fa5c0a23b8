-- ===== src/Commercial/Wallet/Effects.antt =====
-- What the statements on wallets do to every user's balance and to the supply of each asset.
use metaverse_rang_microserv.Common.{
  ℕ, ◌+◌, ◌-◌, ◌≤◌, ◌≡◌, refl, Bool, true, ◌&&◌, ◌≢◌, ◌⊎◌, none, some, List, inl, inr, arith, ◌==◌,
  if◌then◌else◌, Bool-cases, Option-cases,
}
use metaverse_rang_microserv.Common.Table.{select, count, update}
use metaverse_rang_microserv.Common.Table.Laws.{
  select-update, sum-update, count-narrow, select-narrow, count-narrow_pos, count-update,
  select-test, update_none, select-none-count,
}
use metaverse_rang_microserv.Common.Server.{Server, Result, ok, err}
use metaverse_rang_microserv.Commercial.Wallet.{
  Asset, Wallet, Tables, Error, db_error, insufficient_balance, column, set_column, is_column,
  same_asset, of_user, can_pay, take, give, deduct_row, add_row,
}
use metaverse_rang_microserv.Commercial.Wallet.Row.{
  column-set_column, user_id-set_column, balance, supply, IsUnique, same_asset-eq, has_wallet,
}

of_user-set_column :
    (u : ℕ) (a : Asset) (v : ℕ) (w : Wallet) → of_user u (set_column a v w) ≡ of_user u w
of_user-set_column u a v w = rw (user_id-set_column a v w)

pub narrow : (u : ℕ) (a : Asset) (x : ℕ) (w : Wallet) → can_pay u a x w ≡ true → of_user u w ≡ true
narrow u a x w h = ground arith

module _ (u : ℕ) (a : Asset) (x : ℕ) (l : List Wallet) where
  -- the wallets after each of the two UPDATEs
  abbrev pub after_take : List Wallet
  after_take = update (can_pay u a x) (take a x) l

  abbrev pub after_give : List Wallet
  after_give = update (of_user u) (give a x) l

  pub select-after_take :
      (v : ℕ)
      → select (of_user v) after_take ≡ elim (select (of_user v) l) [
        | none ↦ none
        | some w ↦ some (if can_pay u a x w then take a x w else w)
      ]
  select-after_take v =
      select-update (of_user v) (can_pay u a x) (take a x) l
        (λ w. of_user-set_column v a (column a w - x) w)

  pub select-after_give :
      (v : ℕ)
      → select (of_user v) after_give ≡ elim (select (of_user v) l) [
        | none ↦ none
        | some w ↦ some (if of_user u w then give a x w else w)
      ]
  select-after_give v =
      select-update (of_user v) (of_user u) (give a x) l
        (λ w. of_user-set_column v a (column a w + x) w)

-- What a withdrawal or a deposit that began at the tables `t` has done, by how it ended.
abbrev pub Withdrawn :
    {A : Type 0} → ℕ → Asset → ℕ → Tables → Result Error A × Server Tables → Type 0
Withdrawn u a x t (ok _, s') =
    (x ≤ balance u a t)
    × ((v : ℕ) (b : Asset)
        → balance v b s'.tables
          ≡ (if v == u && same_asset a b then balance v b t - x else balance v b t))
    × ((b : Asset) → supply b s'.tables + (if same_asset a b then x else 0) ≡ supply b t)
Withdrawn u a x t (err _, s') = s'.tables ≡ t

module _ (u : ℕ) (a : Asset) (x : ℕ) (t : Tables) (col : is_column a ≡ true) where
  payer :
      IsUnique t
      → count (can_pay u a x) t.wallets ≢ 0
      → (w : Wallet) × (select (of_user u) t.wallets ≡ some w)
        × (select (can_pay u a x) t.wallets ≡ some w)
        × (can_pay u a x w ≡ true)
  payer uniq n = elim (Option-cases (select (of_user u) t.wallets)) [
    | inl e ↦ absurd (count-narrow_pos (can_pay u a x) (of_user u) (narrow u a x) t.wallets n e)
    | inr (w, e) ↦
        let (f, g) =
          select-narrow (can_pay u a x) (of_user u) (narrow u a x) t.wallets w (uniq u) n e in
        (w, e, f, g)
  ]

  pub taken_enough : IsUnique t → count (can_pay u a x) t.wallets ≢ 0 → x ≤ balance u a t
  unfolding balance
  taken_enough uniq n = let (w, e, f, g) = payer uniq n in ground (arith, e, g)

  pub taken_balance :
      IsUnique t
      → count (can_pay u a x) t.wallets ≢ 0
      → (v : ℕ) (b : Asset)
      → balance v b (record t { wallets = after_take u a x t.wallets })
        ≡ (if v == u && same_asset a b then balance v b t - x else balance v b t)
  unfolding balance
  taken_balance uniq n v b = elim (Option-cases (select (of_user v) t.wallets)) [
    | inl e ↦ ground (arith, e, select-after_take u a x t.wallets v)
    | inr (w', e') ↦
        let (w, e, f, g) = payer uniq n in
        ground (
          arith,
          e,
          e',
          g,
          select-after_take u a x t.wallets v,
          select-test (of_user v) t.wallets w',
          column-set_column a b (column a w' - x) w',
          same_asset-eq a b,
        )
  ]

  pub taken_supply :
      IsUnique t
      → count (can_pay u a x) t.wallets ≢ 0
      → (b : Asset)
      → supply b (record t { wallets = after_take u a x t.wallets })
          + (if same_asset a b then x else 0)
        ≡ supply b t
  unfolding supply
  taken_supply uniq n b =
      let (w, e, f, g) = payer uniq n in
      ground (
        arith,
        sum-update (column b) (can_pay u a x) (take a x) t.wallets w,
        count-narrow (can_pay u a x) (of_user u) (narrow u a x) t.wallets,
        uniq u,
        column-set_column a b (column a w - x) w,
        same_asset-eq a b,
      )

-- A deposit to a user without a wallet touches no row.
abbrev pub Deposited :
    {A : Type 0} → ℕ → Asset → ℕ → Tables → Result Error A × Server Tables → Type 0
Deposited u a x t (ok _, s') =
    ((v : ℕ) (b : Asset)
      → balance v b s'.tables ≡ (
          if v == u && (same_asset a b && has_wallet u t)
          then balance v b t + x
          else balance v b t))
    × ((b : Asset)
        → supply b s'.tables ≡ supply b t + (if same_asset a b && has_wallet u t then x else 0))
Deposited u a x t (err _, s') = s'.tables ≡ t

module _ (u : ℕ) (a : Asset) (x : ℕ) (t : Tables) (col : is_column a ≡ true) where
  pub given_balance :
      (v : ℕ) (b : Asset)
      → balance v b (record t { wallets = after_give u a x t.wallets }) ≡ (
          if v == u && (same_asset a b && has_wallet u t) then balance v b t + x else balance v b t)
  unfolding balance has_wallet
  given_balance v b = elim (Option-cases (select (of_user v) t.wallets)) [
    | inl e ↦ ground (arith, e, select-after_give u a x t.wallets v)
    | inr (w, e) ↦ ground (
      arith,
      e,
      select-after_give u a x t.wallets v,
      select-test (of_user v) t.wallets w,
      column-set_column a b (column a w + x) w,
      same_asset-eq a b,
    )
  ]

  pub given_supply :
      IsUnique t
      → (b : Asset)
      → supply b (record t { wallets = after_give u a x t.wallets })
        ≡ supply b t + (if same_asset a b && has_wallet u t then x else 0)
  unfolding supply has_wallet
  given_supply uniq b = elim (Option-cases (select (of_user u) t.wallets)) [
    | inl e ↦ ground (
      arith,
      e,
      update_none (of_user u) (give a x) t.wallets,
      select-none-count (of_user u) t.wallets,
    )
    | inr (w, e) ↦ ground (
      arith,
      e,
      uniq u,
      sum-update (column b) (of_user u) (give a x) t.wallets w,
      column-set_column a b (column a w + x) w,
      same_asset-eq a b,
    )
  ]

-- Neither UPDATE gives a user a second wallet, or takes one away.
pub IsUnique-update :
    (p : Wallet → Bool) (a : Asset) (f : Wallet → ℕ) (t : Tables)
    → IsUnique t
    → IsUnique (record t { wallets = update p (λ w. set_column a (f w) w) t.wallets })
IsUnique-update p a f t uniq u =
    rw
      (count-update (of_user u) p (λ w. set_column a (f w) w) t.wallets
        (λ w. of_user-set_column u a (f w) w))
      (uniq u)

module _ (u : ℕ) (a : Asset) (x : ℕ) (s : Server Tables) where
  -- the tables and the call number after the UPDATE of one call
  abbrev pub taken : Server Tables
  taken = record s {
    tables = record s.tables { wallets = after_take u a x s.tables.wallets };
    calls = s.calls + 1;
  }

  abbrev pub given : Server Tables
  given = record s {
    tables = record s.tables { wallets = after_give u a x s.tables.wallets };
    calls = s.calls + 1;
  }

  -- The ends of `DeductBalance`: an error over the same tables, or the UPDATE of one row.
  pub deduct_row_cases :
      ((e : Error) × (s' : Server Tables) × (deduct_row u a x s ≡ (err e, s'))
        × (s'.tables ≡ s.tables))
      ⊎ ((is_column a ≡ true)
          × (count (can_pay u a x) s.tables.wallets ≢ 0)
          × (deduct_row u a x s ≡ (ok tt, taken)))
  unfolding deduct_row
  deduct_row_cases = elim (Bool-cases (is_column a)) [
    | inr c ↦ inl (db_error, s, ground arith, refl)
    | inl c ↦ elim (Bool-cases (s.fails s.calls)) [
      | inl f ↦ inl (db_error, record s { calls = s.calls + 1 }, ground arith, refl)
      | inr f ↦ elim (Bool-cases (count (can_pay u a x) s.tables.wallets == 0)) [
        | inl z ↦ inl (
          insufficient_balance,
          record s { calls = s.calls + 1 },
          ground (arith, update_none (can_pay u a x) (take a x) s.tables.wallets),
          refl,
        )
        | inr n ↦ inr (c, ground arith, ground arith)
      ]
    ]
  ]

  -- `DeductBalance` of the repository, in tables where no user has two wallets and whatever calls
  -- fail: it succeeds only if the user holds the amount, and then takes it off that one balance and
  -- off the supply of that asset and changes no other balance; or it errs and changes no table.
  pub deduct_row-Withdrawn : IsUnique s.tables → Withdrawn u a x s.tables (deduct_row u a x s)
  deduct_row-Withdrawn uniq = elim deduct_row_cases [
    | inl (e, s', eq, same) ↦ rw eq same
    | inr (c, n, eq) ↦ rw eq (
      taken_enough u a x s.tables c uniq n,
      taken_balance u a x s.tables c uniq n,
      taken_supply u a x s.tables c uniq n,
    )
  ]

  pub add_row_cases :
      ((e : Error) × (s' : Server Tables) × (add_row u a x s ≡ (err e, s'))
        × (s'.tables ≡ s.tables))
      ⊎ ((is_column a ≡ true) × (add_row u a x s ≡ (ok tt, given)))
  unfolding add_row
  add_row_cases = elim (Bool-cases (is_column a)) [
    | inr c ↦ inl (db_error, s, ground arith, refl)
    | inl c ↦ elim (Bool-cases (s.fails s.calls)) [
      | inl f ↦ inl (db_error, record s { calls = s.calls + 1 }, ground arith, refl)
      | inr f ↦ inr (c, ground arith)
    ]
  ]

  -- `AddBalance` of the repository, in tables where no user has two wallets and whatever calls fail: it
  -- adds the amount to that one balance and to the supply, if the user has a wallet, and succeeds
  -- without a change if not; or it errs and changes no table.
  pub add_row-Deposited : IsUnique s.tables → Deposited u a x s.tables (add_row u a x s)
  add_row-Deposited uniq = elim add_row_cases [
    | inl (e, s', eq, same) ↦ rw eq same
    | inr (c, eq) ↦ rw eq (given_balance u a x s.tables c, given_supply u a x s.tables c uniq)
  ]
