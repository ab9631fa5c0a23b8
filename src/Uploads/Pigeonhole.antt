-- ===== src/Uploads/Pigeonhole.antt =====
-- Distinct numbers below a bound, as many as the bound, are all the numbers below it.
use metaverse_rang_microserv.Common.{
  ℕ, zero, suc, ◌+◌, ◌≤◌, ◌<◌, ◌≡◌, refl, List, [], ◌∷◌, arith, ltb, ◌∙◌, ◌==◌, length,
  if◌then◌else◌,
}
use metaverse_rang_microserv.Common.Table.{count}

-- the occurrences of the numbers below `n`
occurrences : ℕ → List ℕ → ℕ
occurrences zero l = 0
occurrences (suc n) l = count (λ i. i == n) l + occurrences n l

occurrences_cons :
    (n x : ℕ) (l : List ℕ) → occurrences n (x ∷ l) ≡ occurrences n l + (if ltb x n then 1 else 0)
unfolding occurrences count
occurrences_cons zero x l = ground arith
occurrences_cons (suc n) x l = ground (arith, occurrences_cons n x l)

occurrences_nil : (n : ℕ) → occurrences n [] ≡ 0
unfolding occurrences count
occurrences_nil zero = refl
occurrences_nil (suc n) = omega (arith, occurrences_nil n)

length-occurrences :
    (n : ℕ) (l : List ℕ)
    → ((i : ℕ) → n ≤ i → count (λ j. j == i) l ≡ 0)
    → occurrences n l ≡ length l
unfolding count
length-occurrences n [] below = occurrences_nil n
length-occurrences n (x ∷ l) below = ground (
  arith,
  occurrences_cons n x l,
  length-occurrences n l (λ i h. ground (arith, below i h)),
  below x,
)

occurrences-le : (n : ℕ) (l : List ℕ) → ((i : ℕ) → count (λ j. j == i) l ≤ 1) → occurrences n l ≤ n
unfolding occurrences
occurrences-le zero l once = omega arith
occurrences-le (suc n) l once = omega (arith, once n, occurrences-le n l once)

all-occurrences :
    (n : ℕ) (l : List ℕ)
    → ((i : ℕ) → count (λ j. j == i) l ≤ 1)
    → occurrences n l ≡ n
    → (i : ℕ) → i < n
    → count (λ j. j == i) l ≡ 1
unfolding occurrences
all-occurrences zero l once full i h = absurd (omega (arith, h))
all-occurrences (suc n) l once full i h = ground (
  arith,
  once n,
  occurrences-le n l once,
  all-occurrences n l once (omega (arith, once n, occurrences-le n l once, full)) i,
)

pub pigeonhole :
    (n : ℕ) (l : List ℕ)
    → ((i : ℕ) → count (λ j. j == i) l ≤ 1)
    → ((i : ℕ) → n ≤ i → count (λ j. j == i) l ≡ 0)
    → length l ≡ n
    → (i : ℕ) → i < n
    → count (λ j. j == i) l ≡ 1
pigeonhole n l once below full = all-occurrences n l once (length-occurrences n l below ∙ full)
