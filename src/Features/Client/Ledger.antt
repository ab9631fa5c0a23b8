-- ===== src/Features/Client/Ledger.antt =====
-- Wallets as a function, whose credits go through for the assets that `accepts` names: an instance of
-- the port to compute with.
use metaverse_rang_microserv.Common.{
  ℕ, ◌+◌, ◌-◌, refl, Bool, true, false, some, arith, leb, if◌then◌else◌,
}
use metaverse_rang_microserv.Commercial.Wallet.{Asset, same_asset}
use metaverse_rang_microserv.Features.Client.Port.{KeepsRefused, WalletPort, is_at}

abbrev pub Ledger : Type 0
Ledger = ℕ → Asset → ℕ

abbrev plus : ℕ → Asset → ℕ → Ledger → Ledger
plus u a x w v b = if is_at u a v b then w v b + x else w v b

abbrev minus : ℕ → Asset → ℕ → Ledger → Ledger
minus u a x w v b = if is_at u a v b then w v b - x else w v b

abbrev ledger_deduct : ℕ → Asset → ℕ → Ledger → Bool × Ledger
ledger_deduct u a x w = elim (leb x (w u a)) [ true ↦ (true, minus u a x w) | false ↦ (false, w) ]

abbrev ledger_add : (Asset → Bool) → ℕ → Asset → ℕ → Ledger → Bool × Ledger
ledger_add accepts u a x w = elim (accepts a) [ true ↦ (true, plus u a x w) | false ↦ (false, w) ]

abbrev pub ledger : (Asset → Bool) → WalletPort Ledger
ledger accepts = record {
  deduct_balance = ledger_deduct;
  add_balance = ledger_add accepts;
  get_wallet = λ u a w. (some (w u a), w);
  funds = λ u a w. w u a;
  deduct_enough = λ u a x w h. ground arith;
  deduct_moves = λ u a x w v b h. ground arith;
  add_moves = λ u a x w v b h. ground arith;
  get_keeps = λ u a w v b. refl;
}

pub ledger-KeepsRefused : (accepts : Asset → Bool) → KeepsRefused (ledger accepts)
ledger-KeepsRefused accepts = record {
  deduct_refused = λ u a x w v b h. ground arith;
  add_refused = λ u a x w v b h. ground arith;
}

abbrev pub open_ledger : WalletPort Ledger
open_ledger = ledger (λ a. true)

abbrev pub rialless_ledger : WalletPort Ledger
rialless_ledger = ledger (λ a. elim (same_asset a Asset.irr) [ true ↦ false | false ↦ true ])
