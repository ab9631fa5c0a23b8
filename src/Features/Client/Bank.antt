-- ===== src/Features/Client/Bank.antt =====
-- The wallet service of commercial-service behind the client fills the port: where no statement
-- fails, no user has two wallets, and the network loses requests but no replies.
use metaverse_rang_microserv.Common.{
  ℕ, ◌+◌, ◌-◌, ◌≤◌, ◌≡◌, refl, ◌≢◌, ◌⊎◌, Bool, true, false, Option, none, some, inl, inr, arith,
  if◌then◌else◌,
}
use metaverse_rang_microserv.Common.Table.{count}
use metaverse_rang_microserv.Common.Table.Laws.{count-narrow_pos}
use metaverse_rang_microserv.Common.Server.{is_ok, Server, Result, ok, err}
use metaverse_rang_microserv.Commercial.Wallet.{
  Asset, Wallet, Tables, Error, is_column, of_user, can_pay, column, deduct_balance, add_balance,
  get_wallet,
}
use metaverse_rang_microserv.Commercial.Wallet.Row.{balance, has_wallet, IsUnique}
use metaverse_rang_microserv.Commercial.Wallet.Effects.{
  deduct_row_cases, add_row_cases, taken, given, taken_enough, taken_balance, given_balance, narrow,
  select-after_take, select-after_give, IsUnique-update,
}
use metaverse_rang_microserv.Features.Client.Port.{KeepsRefused, WalletPort, is_at}

-- the tables of commercial-service
pub record Bank : Type 0 where
  pub tables : Tables
  pub unique : IsUnique tables

abbrev pub running : Tables → Server Tables
running t = record { tables = t; fails = λ n. false; calls = 0 }

-- How a call of `DeductBalance` ends: refused with the same tables, or the amount is taken.
deduct_ends :
    (u : ℕ) (a : Asset) (x : ℕ) (t : Tables)
    → ((is_ok (deduct_balance u a x (running t)).0 ≡ false)
        × ((deduct_balance u a x (running t)).1.tables ≡ t))
      ⊎ ((is_ok (deduct_balance u a x (running t)).0 ≡ true)
          × (is_column a ≡ true)
          × (count (can_pay u a x) t.wallets ≢ 0)
          × ((deduct_balance u a x (running t)).1.tables ≡ (taken u a x (running t)).tables))
unfolding deduct_balance
deduct_ends u a x t = elim (deduct_row_cases u a x (running t)) [
  | inl (e, s', eq, same) ↦ inl (ground (arith, eq), ground (arith, eq, same))
  | inr (c, n, eq) ↦ inr (
    ground (
      arith,
      eq,
      select-after_take u a x t.wallets u,
      count-narrow_pos (can_pay u a x) (of_user u) (narrow u a x) t.wallets n,
    ),
    c,
    n,
    ground (arith, eq),
  )
]

-- How a call of `AddBalance` ends.
add_ends :
    (u : ℕ) (a : Asset) (x : ℕ) (t : Tables)
    → ((is_ok (add_balance u a x (running t)).0 ≡ false)
        × ((add_balance u a x (running t)).1.tables ≡ t))
      ⊎ ((is_column a ≡ true)
          × (is_ok (add_balance u a x (running t)).0 ≡ has_wallet u t)
          × ((add_balance u a x (running t)).1.tables ≡ (given u a x (running t)).tables))
unfolding add_balance has_wallet
add_ends u a x t = elim (add_row_cases u a x (running t)) [
  | inl (e, s', eq, same) ↦ inl (ground (arith, eq), ground (arith, eq, same))
  | inr (c, eq) ↦
      inr (c, ground (arith, eq, select-after_give u a x t.wallets u), ground (arith, eq))
]

pub deduct-IsUnique :
    (u : ℕ) (a : Asset) (x : ℕ) (b : Bank)
    → IsUnique (deduct_balance u a x (running b.tables)).1.tables
deduct-IsUnique u a x b = elim (deduct_ends u a x b.tables) [
  | inl (_, same) ↦ rw same b.unique
  | inr (_, c, n, same) ↦
      rw same (IsUnique-update (can_pay u a x) a (λ w. column a w - x) b.tables b.unique)
]

pub add-IsUnique :
    (u : ℕ) (a : Asset) (x : ℕ) (b : Bank)
    → IsUnique (add_balance u a x (running b.tables)).1.tables
add-IsUnique u a x b = elim (add_ends u a x b.tables) [
  | inl (_, same) ↦ rw same b.unique
  | inr (c, _, same) ↦
      rw same (IsUnique-update (of_user u) a (λ w. column a w + x) b.tables b.unique)
]

-- the handlers: Success, and the tables that are left
pub bank_deduct : ℕ → Asset → ℕ → Bank → Bool × Bank
bank_deduct u a x b = (
  is_ok (deduct_balance u a x (running b.tables)).0,
  record {
    tables = (deduct_balance u a x (running b.tables)).1.tables;
    unique = deduct-IsUnique u a x b;
  },
)

pub bank_add : ℕ → Asset → ℕ → Bank → Bool × Bank
bank_add u a x b = (
  is_ok (add_balance u a x (running b.tables)).0,
  record {
    tables = (add_balance u a x (running b.tables)).1.tables;
    unique = add-IsUnique u a x b;
  },
)

pub shown : Asset → Result Error Wallet → Option ℕ
shown a (ok w) = some (column a w)
shown a (err e) = none

pub bank_get : ℕ → Asset → Bank → Option ℕ × Bank
bank_get u a b = (shown a (get_wallet u (running b.tables)).0, b)

module _ (u : ℕ) (a : Asset) (x : ℕ) (bank : Bank) where
  pub bank_deduct_enough : (bank_deduct u a x bank).0 ≡ true → x ≤ balance u a bank.tables
  unfolding bank_deduct
  bank_deduct_enough h = elim (deduct_ends u a x bank.tables) [
    | inl (no_ok, _) ↦ cc
    | inr (_, c, n, _) ↦ taken_enough u a x bank.tables c bank.unique n
  ]

  pub bank_deduct_moves :
      (v : ℕ) (b : Asset)
      → (bank_deduct u a x bank).0 ≡ true
      → balance v b (bank_deduct u a x bank).1.tables
        ≡ (if is_at u a v b then balance v b bank.tables - x else balance v b bank.tables)
  unfolding bank_deduct is_at
  bank_deduct_moves v b h = elim (deduct_ends u a x bank.tables) [
    | inl (no_ok, _) ↦ cc
    | inr (_, c, n, same) ↦ rw same (taken_balance u a x bank.tables c bank.unique n v b)
  ]

  pub bank_deduct_refused :
      (v : ℕ) (b : Asset)
      → (bank_deduct u a x bank).0 ≡ false
      → balance v b (bank_deduct u a x bank).1.tables ≡ balance v b bank.tables
  unfolding bank_deduct
  bank_deduct_refused v b h = elim (deduct_ends u a x bank.tables) [
    | inl (_, same) ↦ rw same
    | inr (is, _, _, _) ↦ cc
  ]

  pub bank_add_moves :
      (v : ℕ) (b : Asset)
      → (bank_add u a x bank).0 ≡ true
      → balance v b (bank_add u a x bank).1.tables
        ≡ (if is_at u a v b then balance v b bank.tables + x else balance v b bank.tables)
  unfolding bank_add is_at
  bank_add_moves v b h = elim (add_ends u a x bank.tables) [
    | inl (no_ok, _) ↦ cc
    | inr (c, has, same) ↦ rw same (ground (arith, given_balance u a x bank.tables c v b))
  ]

  pub bank_add_refused :
      (v : ℕ) (b : Asset)
      → (bank_add u a x bank).0 ≡ false
      → balance v b (bank_add u a x bank).1.tables ≡ balance v b bank.tables
  unfolding bank_add
  bank_add_refused v b h = elim (add_ends u a x bank.tables) [
    | inl (_, same) ↦ rw same
    | inr (c, has, same) ↦ rw same (ground (arith, given_balance u a x bank.tables c v b))
  ]

-- the wallet service without a network between
unfoldable pub bank_port : WalletPort Bank
unfolding bank_deduct bank_add bank_get shown
bank_port = record {
  deduct_balance = bank_deduct;
  add_balance = bank_add;
  get_wallet = bank_get;
  funds = λ u a b. balance u a b.tables;
  deduct_enough = bank_deduct_enough;
  deduct_moves = bank_deduct_moves;
  add_moves = bank_add_moves;
  get_keeps = λ u a w v b. refl;
}

-- This is the repository of the wallets, whose transactions roll back, without the reads of the
-- service after them.
bank_port-KeepsRefused : KeepsRefused bank_port
unfolding bank_port
bank_port-KeepsRefused = record {
  deduct_refused = bank_deduct_refused;
  add_refused = bank_add_refused;
}
