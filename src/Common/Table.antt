-- ===== src/Common/Table.antt =====
-- Tables as lists of rows, and the SQL statements of the repositories over them: a SELECT of one
-- row, a COUNT, a SUM, an UPDATE and a DELETE with a WHERE test, and an INSERT at the end.
pub mod Laws
use metaverse_rang_microserv.Common.Tests.{if◌then◌else◌}
use Prim.Native.Nat.{ℕ, suc, ◌+◌}
use mathlib.Core.Bool.{Bool}
use mathlib.Core.Option.{Option, none, some}
use mathlib.Core.List.{List, [], ◌∷◌}

module _ {ℓ} {R : Type ℓ} where
  -- `SELECT ... WHERE p`, read by `QueryRow`: the first row
  unfoldable pub select : (R → Bool) → List R → Option R
  select p [] = none
  select p (r ∷ l) = if p r then some r else select p l

  -- `SELECT COUNT(*) ... WHERE p`, and the rows that an UPDATE with the same test affects
  unfoldable pub count : (R → Bool) → List R → ℕ
  count p [] = 0
  count p (r ∷ l) = let rest = count p l in if p r then suc rest else rest

  -- `SELECT ... WHERE p`, all rows
  unfoldable pub select_all : (R → Bool) → List R → List R
  select_all p [] = []
  select_all p (r ∷ l) = let rest = select_all p l in if p r then r ∷ rest else rest

  -- `SELECT SUM(f) ...`
  unfoldable pub sum : (R → ℕ) → List R → ℕ
  sum f [] = 0
  sum f (r ∷ l) = f r + sum f l

  -- `UPDATE ... SET f WHERE p`
  unfoldable pub update : (R → Bool) → (R → R) → List R → List R
  update p f [] = []
  update p f (r ∷ l) = (if p r then f r else r) ∷ update p f l

  -- `DELETE ... WHERE p`
  unfoldable pub delete : (R → Bool) → List R → List R
  delete p [] = []
  delete p (r ∷ l) = let rest = delete p l in if p r then rest else r ∷ rest

  -- `DELETE ... WHERE p LIMIT 1`
  unfoldable pub delete_one : (R → Bool) → List R → List R
  delete_one p [] = []
  delete_one p (r ∷ l) = let rest = delete_one p l in if p r then l else r ∷ rest
