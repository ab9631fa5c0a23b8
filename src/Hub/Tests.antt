-- ===== src/Hub/Tests.antt =====
-- The hub at concrete inputs.
use metaverse_rang_microserv.Common.{ℕ, List, ◌≡◌, refl, some, [], ◌∷◌, arith, ◌≤◌, length}
use metaverse_rang_microserv.Hub.{stats, write_digits, format_uint}
use metaverse_rang_microserv.Hub.Buckets.{online}
use metaverse_rang_microserv.Hub.History.{
  Call, tracked, untracked, run, live, live_total, live_users, run-Refines,
}
use metaverse_rang_microserv.Hub.Rooms.{AreDigits, number, format_uint-reads}

-- user 7 with two sockets, one of them closed again, and user 9 with one
abbrev past : List Call
past = untracked 7 1 ∷ tracked 9 3 ∷ tracked 7 2 ∷ tracked 7 1 ∷ []

run-Refines_example :
    ((v t : ℕ) → online v t (run past) ≡ live v t past)
    × (stats (run past) ≡ (live_total past, live_users past))
run-Refines_example = run-Refines past

format_uint_120 : format_uint 120 ≡ some (1 ∷ 2 ∷ 0 ∷ [])
unfolding format_uint write_digits
format_uint_120 = refl

abbrev user : ℕ
user = 120

format_uint-reads_example :
    (out : List ℕ) × ((format_uint user ≡ some out)
      × ((number out ≡ user) × ((length out ≤ 20) × AreDigits out)))
format_uint-reads_example = format_uint-reads user (omega arith)
