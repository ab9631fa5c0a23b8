-- ===== src/Hub/Rooms.antt =====
-- services/websocket-gateway/internal/hub/hub.go: the names of the rooms.
use metaverse_rang_microserv.Common.{
  ℕ, zero, suc, ◌+◌, ◌*◌, ◌/◌, ◌%◌, ◌≤◌, ◌<◌, ◌≡◌, ap, ◌∙◌, some, List, [], ◌∷◌, arith, ◌==◌,
  length, Bool-cases, inl, inr,
}
use metaverse_rang_microserv.Hub.{write_digits, format_uint}

-- ten to the number of places
abbrev pub pow10 : ℕ → ℕ
pow10 zero = 1
pow10 (suc n) = 10 * pow10 n

-- the number that digits stand for, after the digits that were read
abbrev pub number_from : ℕ → List ℕ → ℕ
number_from n [] = n
number_from n (d ∷ l) = number_from (n * 10 + d) l

abbrev pub number : List ℕ → ℕ
number l = number_from 0 l

abbrev pub AreDigits : List ℕ → Type 0
AreDigits [] = Unit
AreDigits (d ∷ l) = (d < 10) × AreDigits l

-- The loop, with `room` places left: it writes `v` before the digits it has, in at most `room` places.
record Written (room v : ℕ) (digits : List ℕ) (out : List ℕ) : Type 0 where
  runs : write_digits room v digits ≡ some out
  reads : number out ≡ number_from v digits
  fits : length out ≤ room + length digits
  are : AreDigits out

write_digits-Written :
    (room v : ℕ) (digits : List ℕ)
    → v < pow10 room
    → AreDigits digits
    → (out : List ℕ) × Written room v digits out
unfolding write_digits
write_digits-Written zero v digits h are = (
  digits,
  record {
    runs = ground arith;
    reads = ap (λ n. number_from n digits) (omega arith);
    fits = omega arith;
    are = are;
  },
)
write_digits-Written (suc room) v digits h are = elim (Bool-cases (v == 0)) [
  | inl is_zero ↦ (
    digits,
    record {
      runs = ground arith;
      reads = ap (λ n. number_from n digits) (ground arith);
      fits = omega arith;
      are = are;
    },
  )
  | inr more ↦
      let (out, w) =
        write_digits-Written room (v / 10) (v % 10 ∷ digits) (omega arith) (omega arith, are) in
      (
        out,
        record {
          runs = ground (arith, w.runs);
          reads = w.reads ∙ ap (λ n. number_from n digits) (omega arith);
          fits = omega (arith, w.fits);
          are = w.are;
        },
      )
]

-- A user id of 64 bits is written, in at most the 20 places of the buffer, as digits, each below 10,
-- that read as that id: the index never runs before the buffer.
pub format_uint-reads :
    (v : ℕ)
    → v < 18_446_744_073_709_551_616
    → (out : List ℕ) × ((format_uint v ≡ some out)
        × ((number out ≡ v) × ((length out ≤ 20) × AreDigits out)))
unfolding format_uint
format_uint-reads v h = elim (Bool-cases (v == 0)) [
  | inl is_zero ↦ (0 ∷ [], (ground arith, (ground arith, (omega arith, (omega arith, tt)))))
  | inr more ↦
      let (out, w) = write_digits-Written 20 v [] (omega arith) tt in
      (out, (ground (arith, w.runs), (w.reads, (omega (arith, w.fits), w.are))))
]

-- Two users have different rooms.
pub format_uint_injective :
    (u v : ℕ)
    → u < 18_446_744_073_709_551_616
    → v < 18_446_744_073_709_551_616
    → format_uint u ≡ format_uint v
    → u ≡ v
format_uint_injective u v hu hv e =
    let (a, (at, (reads_u, _))) = format_uint-reads u hu in
    let (b, (bt, (reads_v, _))) = format_uint-reads v hv in
    grind (arith, at, bt, reads_u, reads_v, e)
