-- ===== src/Common/Server.antt =====
-- A handler as a state and exception action over the tables of a server. Every statement or remote
-- call is one call, and `fails` says of each call, by its number, whether the other side fails it; a
-- failed call changes nothing. What was written stays written when a later call fails.
use metaverse_rang_microserv.Common.Tests.{if◌then◌else◌}
use Prim.Native.Nat.{ℕ, ◌+◌}
use mathlib.Core.Bool.{Bool, true, false}
use mathlib.Core.Option.{Option, none, some}
use mathlib.Core.Path.{◌≡◌, refl, ap}
use mathlib.Core.Logic.{◌⊎◌, inl, inr}

pub data Result (E A : Type 0) : Type 0 where
  ok : A → Result E A
  err : E → Result E A

pub record Server (T : Type 0) : Type 0 where
  pub tables : T
  pub fails : ℕ → Bool
  pub calls : ℕ

abbrev pub Action : Type 0 → Type 0 → Type 0 → Type 0
Action T E A = Server T → Result E A × Server T

module _ {T E A : Type 0} where
  abbrev pub pure : A → Action T E A
  pure a s = (ok a, s)

  abbrev pub raise : E → Action T E A
  raise e s = (err e, s)

  abbrev pub or_raise : Option A → E → Action T E A
  or_raise none e = raise e
  or_raise (some a) e = pure a

  -- a call that reads
  abbrev pub query : E → (T → A) → Action T E A
  query e f s = elim (s.fails s.calls) [
    | true ↦ (err e, record s { calls = s.calls + 1 })
    | false ↦ (ok (f s.tables), record s { calls = s.calls + 1 })
  ]

  -- the same, for a caller that goes on with a default when the call fails
  abbrev pub query_or : A → (T → A) → Action T E A
  query_or d f s =
      (ok (if s.fails s.calls then d else f s.tables), record s { calls = s.calls + 1 })

module _ {T E : Type 0} where
  -- a call that writes
  abbrev pub exec : E → (T → T) → Action T E (Unit {0})
  exec e f s = elim (s.fails s.calls) [
    | true ↦ (err e, record s { calls = s.calls + 1 })
    | false ↦ (ok tt, record s { tables = f s.tables; calls = s.calls + 1 })
  ]

  -- the same, where the error is only logged
  abbrev pub try_exec : (T → T) → Action T E (Unit {0})
  try_exec f s = (
    ok tt,
    record s { tables = if s.fails s.calls then s.tables else f s.tables; calls = s.calls + 1 },
  )

  abbrev pub raise_if : Bool → E → Action T E (Unit {0})
  raise_if true e = raise e
  raise_if false e = pure tt

infixl 5 ◌>>=◌ ◌>>◌
abbrev pub ◌>>=◌ : {T E A B : Type 0} → Action T E A → (A → Action T E B) → Action T E B
◌>>=◌ m f s = let (r, s') = m s in elim r [ ok a ↦ f a s' | err e ↦ (err e, s') ]

abbrev pub ◌>>◌ : {T E B : Type 0} → Action T E (Unit {0}) → Action T E B → Action T E B
m >> k = m >>= λ _. k

-- an action whose error is only logged
abbrev pub logged : {T E : Type 0} → Action T E (Unit {0}) → Action T E (Unit {0})
logged m s = (ok tt, (m s).1)

-- A database transaction: an error puts the tables back as they were.
abbrev pub transaction : {T E A : Type 0} → Action T E A → Action T E A
transaction m s =
    let (r, s') = m s in
    elim r [ ok a ↦ (ok a, s') | err e ↦ (err e, record s' { tables = s.tables }) ]

abbrev pub is_ok : {E A : Type 0} → Result E A → Bool
is_ok (ok _) = true
is_ok (err _) = false

pub Result-cases :
    {E A : Type 0} (r : Result E A) → ((e : E) × (r ≡ err e)) ⊎ ((a : A) × (r ≡ ok a))
Result-cases (ok a) = inr (a, refl)
Result-cases (err e) = inl (e, refl)

-- an action that succeeds, and what comes after it
pub then-ok :
    {T E B : Type 0} (m : Action T E (Unit {0})) (k : Action T E B) (s : Server T)
    → (m s).0 ≡ ok tt
    → (m >> k) s ≡ k (m s).1
then-ok m k s h = ap (λ r. (elim r [ ok a ↦ k (m s).1 | err e ↦ (err e, (m s).1) ])) h

pub bind-ok :
    {T E A B : Type 0} (m : Action T E A) (k : A → Action T E B) (s : Server T) (a : A)
    → (m s).0 ≡ ok a
    → (m >>= k) s ≡ k a (m s).1
bind-ok m k s a h = ap (λ r. (elim r [ ok b ↦ k b (m s).1 | err e ↦ (err e, (m s).1) ])) h

pub query-ok :
    {T E A : Type 0} (e : E) (f : T → A) (s : Server T)
    → s.fails s.calls ≡ false
    → query e f s ≡ (ok (f s.tables), record s { calls = s.calls + 1 })
query-ok e f s h = rw (h, query) refl

-- what the first action establishes where it errs, and the second after each answer of the first
pub bind-holds :
    {T E A B : Type 0} (P : T → Type 0) (m : Action T E A) (k : A → Action T E B) (s : Server T)
    → P (m s).1.tables
    → ((a : A) → (m s).0 ≡ ok a → P (k a (m s).1).1.tables)
    → P ((m >>= k) s).1.tables
bind-holds P m k s stops goes = elim (Result-cases (m s).0) [
  | inl (e, failed) ↦ rw (failed, ◌>>=◌) stops
  | inr (a, done) ↦ rw (done, ◌>>=◌) (goes a done)
]
