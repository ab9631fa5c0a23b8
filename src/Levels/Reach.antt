-- ===== src/Levels/Reach.antt =====
-- services/levels-service/internal/repository/level_repository.go: which level GetNextLevelForScore
-- picks, and how the rows that pass a test are counted.
use metaverse_rang_microserv.Common.{
  ℕ, ◌≤◌, ◌<◌, ◌≡◌, refl, Bool, true, false, none, some, List, [], ◌∷◌, arith, Option-cases, inl,
  inr,
}
use metaverse_rang_microserv.Common.Table.{count}
use metaverse_rang_microserv.Levels.Rows.{Level, highest}

-- a bound on the scores of the rows with a test
abbrev pub AtMost : (Level → Bool) → ℕ → List Level → Type 0
AtMost p top [] = Unit
AtMost p top (l ∷ ls) = (p l ≡ true → l.score ≤ top) × AtMost p top ls

pub AtMost-mono :
    (p : Level → Bool) (a b : ℕ) (ls : List Level) → a ≤ b → AtMost p a ls → AtMost p b ls
AtMost-mono p a b [] h m = tt
AtMost-mono p a b (l ∷ ls) h (m, ms) = (λ k. omega (arith, m k), AtMost-mono p a b ls h ms)

pub highest-none : (p : Level → Bool) (ls : List Level) → highest p ls ≡ none → count p ls ≡ 0
unfolding highest count
highest-none p [] h = refl
highest-none p (l ∷ ls) h = ground (arith, highest-none p ls, h)

pub AtMost-none : (p : Level → Bool) (a : ℕ) (ls : List Level) → count p ls ≡ 0 → AtMost p a ls
unfolding count
AtMost-none p a [] h = tt
AtMost-none p a (l ∷ ls) h =
    (λ k. absurd (ground (arith, h, k)), AtMost-none p a ls (ground (arith, h)))

-- What is picked passes the test, and no row that passes it has a higher score.
pub highest-AtMost :
    (p : Level → Bool) (ls : List Level) (m : Level)
    → highest p ls ≡ some m
    → (p m ≡ true) × AtMost p m.score ls
unfolding highest
highest-AtMost p [] m h = cc
highest-AtMost p (l ∷ ls) m h = elim (Option-cases (highest p ls)) [
  | inl bare ↦ (
    ground (arith, bare, h),
    (λ k. ground (arith, bare, h, k), AtMost-none p m.score ls (highest-none p ls bare)),
  )
  | inr (n, rest) ↦
      let (passes, below) = highest-AtMost p ls n rest in
      (
        ground (arith, rest, h, passes),
        (
          λ k. ground (arith, rest, h, k),
          AtMost-mono p n.score m.score ls (ground (arith, rest, h)) below,
        ),
      )
]

pub count-le :
    (p q : Level → Bool) (ls : List Level)
    → ((l : Level) → q l ≡ true → p l ≡ true)
    → count q ls ≤ count p ls
unfolding count
count-le p q [] narrow = omega arith
count-le p q (l ∷ ls) narrow = ground (arith, narrow l, count-le p q ls narrow)

-- fewer rows pass a test that one of the rows no longer passes
pub count-lt :
    (p q : Level → Bool) (ls : List Level) (m : Level)
    → ((l : Level) → q l ≡ true → p l ≡ true)
    → q m ≡ false
    → highest p ls ≡ some m
    → count q ls < count p ls
unfolding count highest
count-lt p q [] m narrow gone h = cc
count-lt p q (l ∷ ls) m narrow gone h = elim (Option-cases (highest p ls)) [
  | inl bare ↦ ground (arith, bare, h, gone, narrow l, count-le p q ls narrow)
  | inr (n, rest) ↦
      ground (arith, rest, h, gone, narrow l, count-le p q ls narrow, count-lt p q ls n narrow)
]
