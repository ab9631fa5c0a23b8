-- ===== src/Common/Table/Laws.antt =====
-- Laws of the SQL statements: what an UPDATE or a DELETE does to a SUM, a COUNT and a SELECT.
use metaverse_rang_microserv.Common.Tests.{if◌then◌else◌}
use metaverse_rang_microserv.Common.Table.{select, count, sum, update, delete, delete_one}
use Prim.Native.Nat.{ℕ, ◌+◌, ◌≤◌}
use mathlib.Core.Path.{◌≡◌, refl}
use mathlib.Core.Bool.{Bool, true}
use mathlib.Core.Logic.{◌≢◌}
use mathlib.Core.Option.{none, some}
use mathlib.Core.List.{List, [], ◌∷◌, ◌++◌}
use native.Mathlib.Omega.{arith}

module _ {ℓ} {R : Type ℓ} where
  pub select-count : (p : R → Bool) (l : List R) (r : R) → select p l ≡ some r → 1 ≤ count p l
  unfolding select count
  select-count p [] r h = cc
  select-count p (x ∷ l) r h = ground (arith, select-count p l r)

  pub count-select-none : (p : R → Bool) (l : List R) → count p l ≡ 0 → select p l ≡ none
  unfolding select count
  count-select-none p [] h = refl
  count-select-none p (x ∷ l) h = ground (arith, count-select-none p l)

  pub select-none-count : (p : R → Bool) (l : List R) → select p l ≡ none → count p l ≡ 0
  unfolding select count
  select-none-count p [] h = refl
  select-none-count p (x ∷ l) h = ground (arith, select-none-count p l)

  -- what is found passes the test
  pub select-test : (p : R → Bool) (l : List R) (r : R) → select p l ≡ some r → p r ≡ true
  unfolding select
  select-test p [] r h = cc
  select-test p (x ∷ l) r h = ground (arith, select-test p l r)

  pub update_none : (p : R → Bool) (f : R → R) (l : List R) → count p l ≡ 0 → update p f l ≡ l
  unfolding update count
  update_none p f [] h = refl
  update_none p f (x ∷ l) h = ground (arith, update_none p f l)

  -- an UPDATE that keeps the test `q` of every row counts as before
  pub count-update :
      (q p : R → Bool) (f : R → R) (l : List R)
      → ((r : R) → q (f r) ≡ q r)
      → count q (update p f l) ≡ count q l
  unfolding update count
  count-update q p f [] h = refl
  count-update q p f (x ∷ l) h = ground (arith, h x, count-update q p f l h)

  -- an UPDATE of the one row with test `p` moves a SUM by what that row's value moves
  pub sum-update :
      (g : R → ℕ) (p : R → Bool) (f : R → R) (l : List R) (r : R)
      → count p l ≤ 1
      → select p l ≡ some r
      → sum g (update p f l) + g r ≡ sum g l + g (f r)
  unfolding update count select sum
  sum-update g p f [] r u h = cc
  sum-update g p f (x ∷ l) r u h = ground (arith, update_none p f l, sum-update g p f l r)

  pub sum-append : (g : R → ℕ) (l m : List R) → sum g (l ++ m) ≡ sum g l + sum g m
  unfolding sum
  sum-append g [] m = omega arith
  sum-append g (x ∷ l) m = omega (arith, sum-append g l m)

  pub sum_single : (g : R → ℕ) (r : R) → sum g (r ∷ []) ≡ g r
  unfolding sum
  sum_single g r = omega arith

  pub count-delete : (p : R → Bool) (l : List R) → count p (delete p l) ≡ 0
  unfolding count delete
  count-delete p [] = refl
  count-delete p (x ∷ l) = ground (arith, count-delete p l)

  pub sum-delete_none : (p : R → Bool) (l : List R) → count p l ≡ 0 → delete p l ≡ l
  unfolding count delete
  sum-delete_none p [] h = refl
  sum-delete_none p (x ∷ l) h = ground (arith, sum-delete_none p l)

  -- a DELETE of the one row with test `p` takes that row's value off a SUM
  pub sum-delete :
      (g : R → ℕ) (p : R → Bool) (l : List R) (r : R)
      → count p l ≤ 1
      → select p l ≡ some r
      → sum g (delete p l) + g r ≡ sum g l
  unfolding count select sum delete
  sum-delete g p [] r u h = cc
  sum-delete g p (x ∷ l) r u h = ground (arith, sum-delete_none p l, sum-delete g p l r)

  pub sum-delete_one :
      (g : R → ℕ) (p : R → Bool) (l : List R) (r : R)
      → select p l ≡ some r
      → sum g (delete_one p l) + g r ≡ sum g l
  unfolding select sum delete_one
  sum-delete_one g p [] r h = cc
  sum-delete_one g p (x ∷ l) r h = ground (arith, sum-delete_one g p l r)

  pub delete_one-none : (p : R → Bool) (l : List R) → select p l ≡ none → delete_one p l ≡ l
  unfolding select delete_one
  delete_one-none p [] h = refl
  delete_one-none p (x ∷ l) h = ground (arith, delete_one-none p l)

  pub select-update :
      (q p : R → Bool) (f : R → R) (l : List R)
      → ((r : R) → q (f r) ≡ q r)
      → select q (update p f l)
        ≡ elim (select q l) [ none ↦ none | some r ↦ some (if p r then f r else r) ]
  unfolding select update
  select-update q p f [] h = refl
  select-update q p f (x ∷ l) h = ground (arith, h x, select-update q p f l h)

  pub select-append :
      (q : R → Bool) (l m : List R)
      → select q (l ++ m) ≡ elim (select q l) [ none ↦ select q m | some r ↦ some r ]
  unfolding select
  select-append q [] m = refl
  select-append q (x ∷ l) m = ground (arith, select-append q l m)

  pub select-append_last :
      (q : R → Bool) (l : List R) (r : R) → q r ≡ true → select q (l ++ (r ∷ [])) ≢ none
  unfolding select
  select-append_last q [] r h = ground arith
  select-append_last q (x ∷ l) r h = ground (arith, select-append_last q l r h)

  -- the row that was inserted is found where no other passes
  pub select-append_new :
      (p : R → Bool) (l : List R) (r : R)
      → count p l ≡ 0
      → p r ≡ true
      → select p (l ++ (r ∷ [])) ≡ some r
  unfolding select count
  select-append_new p [] r n h = ground arith
  select-append_new p (x ∷ l) r n h = ground (arith, select-append_new p l r)

  -- a DELETE takes back the row that was inserted
  pub delete-append_last :
      (p : R → Bool) (l : List R) (r : R)
      → count p l ≡ 0
      → p r ≡ true
      → delete p (l ++ (r ∷ [])) ≡ l
  unfolding delete count
  delete-append_last p [] r n h = ground arith
  delete-append_last p (x ∷ l) r n h = ground (arith, delete-append_last p l r)

  pub count-append : (q : R → Bool) (l m : List R) → count q (l ++ m) ≡ count q l + count q m
  unfolding count
  count-append q [] m = omega arith
  count-append q (x ∷ l) m = ground (arith, count-append q l m)

  pub count_single : (q : R → Bool) (r : R) → count q (r ∷ []) ≡ (if q r then 1 else 0)
  unfolding count
  count_single q r = ground arith

  pub select-delete_self : (p : R → Bool) (l : List R) → select p (delete p l) ≡ none
  unfolding select delete
  select-delete_self p [] = refl
  select-delete_self p (x ∷ l) = ground (arith, select-delete_self p l)

-- A test `p` that only rows with test `q` pass, where at most one row passes `q`.
module _ {ℓ} {R : Type ℓ} (p q : R → Bool) (narrow : (r : R) → p r ≡ true → q r ≡ true) where
  pub count-narrow : (l : List R) → count p l ≤ count q l
  unfolding count
  count-narrow [] = omega arith
  count-narrow (x ∷ l) = ground (arith, narrow x, count-narrow l)

  pub select-narrow :
      (l : List R) (r : R)
      → count q l ≤ 1
      → count p l ≢ 0
      → select q l ≡ some r
      → (select p l ≡ some r) × (p r ≡ true)
  unfolding count select
  select-narrow [] r u n h = cc
  select-narrow (x ∷ l) r u n h =
      ground (arith, narrow x, count-narrow l, select-narrow l r, count-select-none q l)

  pub count-narrow_pos : (l : List R) → count p l ≢ 0 → select q l ≢ none
  unfolding count select
  count-narrow_pos [] n h = absurd (n refl)
  count-narrow_pos (x ∷ l) n h = ground (arith, narrow x, count-narrow_pos l)
