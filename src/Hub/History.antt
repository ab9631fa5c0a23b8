-- ===== src/Hub/History.antt =====
-- services/websocket-gateway/internal/hub/hub.go: the table of users against the history of calls.
use metaverse_rang_microserv.Common.{
  ℕ, ◌+◌, ◌-◌, ◌≤◌, ◌≡◌, refl, Bool, false, not, ◌&&◌, ◌||◌, List, [], ◌∷◌, arith, ◌==◌, length,
  length-append, if◌then◌else◌, Option-cases, inl, inr,
}
use metaverse_rang_microserv.Common.Table.{select, count, sum}
use metaverse_rang_microserv.Common.Table.Laws.{select-none-count}
use metaverse_rang_microserv.Hub.{
  Users, of_user, insert, remove, with_bucket, set_sockets, track, untrack, connections, stats,
}
use metaverse_rang_microserv.Hub.Buckets.{
  bucket, online, IsValid, bucket-track, bucket-untrack, has-remove, length-remove, count-remove,
  count-insert, has-insert, length-insert, insert_some, connections-delete, has_nil,
  with_bucket-some, length-update, length-delete, count-delete_other, select-set_sockets,
  select-with_bucket, count-set_sockets, count-with_bucket, connections-set_sockets,
  connections-with_bucket,
}

pub track-IsValid : (u s : ℕ) (l : Users) → IsValid l → IsValid (track u s l)
unfolding track
track-IsValid u s l v = record {
  one_bucket = λ w. ground (
    arith,
    bucket-track w u s l,
    count-set_sockets w u (insert s) (with_bucket u l),
    count-with_bucket w u l,
    v.one_bucket w,
    insert_some s (bucket u l),
    v.one_bucket u,
  );
  no_twice = λ w t.
      ground (
        arith,
        bucket-track w u s l,
        v.no_twice w t,
        count-insert s t (bucket u l),
        v.no_twice u t,
      );
}

pub untrack-IsValid : (u s : ℕ) (l : Users) → IsValid l → IsValid (untrack u s l)
unfolding untrack
untrack-IsValid u s l v = record {
  one_bucket = λ w. ground (
    arith,
    bucket-untrack w u s l,
    count-set_sockets w u (remove s) l,
    count-delete_other w u (set_sockets u (remove s) l),
    v.one_bucket w,
    v.one_bucket u,
    select-none-count (of_user u) l,
    length-remove s (bucket u l) (v.no_twice u s),
  );
  no_twice = λ w t. ground (
    arith,
    bucket-untrack w u s l,
    v.no_twice w t,
    count-remove s t (bucket u l),
    v.no_twice u t,
  );
}

connections-track :
    (u s : ℕ) (l : Users)
    → IsValid l
    → connections (track u s l) ≡ connections l + (if online u s l then 0 else 1)
unfolding track
connections-track u s l v = elim (Option-cases (select (of_user u) (with_bucket u l))) [
  | inl no_row ↦ absurd (with_bucket-some u l no_row)
  | inr (b, e) ↦ ground (
    arith,
    connections-set_sockets u (insert s) (with_bucket u l) b
        (ground (arith, count-with_bucket u u l, v.one_bucket u)) e,
    connections-with_bucket u l,
    length-insert s b.sockets,
    select-with_bucket u u l,
  )
]

connections-untrack :
    (u s : ℕ) (l : Users)
    → IsValid l
    → connections (untrack u s l) + (if online u s l then 1 else 0) ≡ connections l
unfolding untrack
connections-untrack u s l v = elim (Option-cases (select (of_user u) l)) [
  | inl no_row ↦ ground (arith, has_nil s)
  | inr (b, e) ↦
      let after = set_sockets u (remove s) l in
      let one : count (of_user u) l ≤ 1 = ground (arith, v.one_bucket u) in
      ground (
        arith,
        connections-set_sockets u (remove s) l b one e,
        connections-delete u after (record b { sockets = remove s b.sockets }),
        count-set_sockets u u (remove s) l,
        select-set_sockets u u (remove s) l,
        length-remove s (bucket u l) (v.no_twice u s),
      )
]

length-track :
    (u s : ℕ) (l : Users)
    → IsValid l
    → length (track u s l) ≡ length l + (if length (bucket u l) == 0 then 1 else 0)
unfolding track set_sockets with_bucket
length-track u s l v = ground (
  arith,
  length-update (of_user u) (λ b. record b { sockets = insert s b.sockets }) (with_bucket u l),
  length-append l (record { user_id = u; sockets = [] } ∷ []),
  v.one_bucket u,
)

length-untrack :
    (u s : ℕ) (l : Users)
    → IsValid l
    → length (untrack u s l) + (if online u s l && length (bucket u l) == 1 then 1 else 0)
      ≡ length l
unfolding untrack set_sockets
length-untrack u s l v = ground (
  arith,
  length-update (of_user u) (λ b. record b { sockets = remove s b.sockets }) l,
  length-delete (of_user u) (set_sockets u (remove s) l),
  count-set_sockets u u (remove s) l,
  v.one_bucket u,
  length-remove s (bucket u l) (v.no_twice u s),
  select-none-count (of_user u) l,
)

-- A call of `track` or of `untrack`, with its user and its socket; the last call of a history is
-- its first element.
pub data Call : Type 0 where
  tracked untracked : ℕ → ℕ → Call

unfoldable pub run : List Call → Users
run [] = []
run (tracked u s ∷ past) = track u s (run past)
run (untracked u s ∷ past) = untrack u s (run past)

-- whether the last call about a user's socket tracks it
unfoldable pub live : ℕ → ℕ → List Call → Bool
live v t [] = false
live v t (tracked u s ∷ past) = ((v == u) && (t == s)) || live v t past
live v t (untracked u s ∷ past) = not ((v == u) && (t == s)) && live v t past

-- how many sockets are tracked, of one user and of all of them, and how many users have one: a
-- call counts when it changes what is tracked
unfoldable pub live_of : ℕ → List Call → ℕ
live_of v [] = 0
live_of v (tracked u s ∷ past) = live_of v past + (if (v == u) && not (live u s past) then 1 else 0)
live_of v (untracked u s ∷ past) = live_of v past - (if (v == u) && live u s past then 1 else 0)

unfoldable pub live_total : List Call → ℕ
live_total [] = 0
live_total (tracked u s ∷ past) = live_total past + (if live u s past then 0 else 1)
live_total (untracked u s ∷ past) = live_total past - (if live u s past then 1 else 0)

unfoldable pub live_users : List Call → ℕ
live_users [] = 0
live_users (tracked u s ∷ past) = live_users past + (if live_of u past == 0 then 1 else 0)
live_users (untracked u s ∷ past) =
    live_users past - (if live u s past && live_of u past == 1 then 1 else 0)

pub run-IsValid : (past : List Call) → IsValid (run past)
unfolding run count select
run-IsValid [] = record { one_bucket = λ u. refl; no_twice = λ u s. ground arith }
run-IsValid (tracked u s ∷ past) = track-IsValid u s (run past) (run-IsValid past)
run-IsValid (untracked u s ∷ past) = untrack-IsValid u s (run past) (run-IsValid past)

online-run : (past : List Call) (v t : ℕ) → online v t (run past) ≡ live v t past
unfolding run live select
online-run [] v t = has_nil t
online-run (tracked u s ∷ past) v t = ground (
  arith,
  bucket-track v u s (run past),
  has-insert s t (bucket u (run past)),
  online-run past v t,
)
online-run (untracked u s ∷ past) v t = ground (
  arith,
  bucket-untrack v u s (run past),
  has-remove s t (bucket u (run past)),
  online-run past v t,
)

length-bucket-run : (past : List Call) (v : ℕ) → length (bucket v (run past)) ≡ live_of v past
unfolding run live_of select
length-bucket-run [] v = refl
length-bucket-run (tracked u s ∷ past) v = ground (
  arith,
  bucket-track v u s (run past),
  length-insert s (bucket u (run past)),
  online-run past u s,
  length-bucket-run past v,
)
length-bucket-run (untracked u s ∷ past) v = ground (
  arith,
  bucket-untrack v u s (run past),
  length-remove s (bucket u (run past)) ((run-IsValid past).no_twice u s),
  online-run past u s,
  length-bucket-run past v,
)

connections-run : (past : List Call) → connections (run past) ≡ live_total past
unfolding run live_total connections sum
connections-run [] = refl
connections-run (tracked u s ∷ past) = ground (
  arith,
  connections-track u s (run past) (run-IsValid past),
  online-run past u s,
  connections-run past,
)
connections-run (untracked u s ∷ past) = ground (
  arith,
  connections-untrack u s (run past) (run-IsValid past),
  online-run past u s,
  connections-run past,
)

length-run : (past : List Call) → length (run past) ≡ live_users past
unfolding run live_users
length-run [] = refl
length-run (tracked u s ∷ past) = ground (
  arith,
  length-track u s (run past) (run-IsValid past),
  length-bucket-run past u,
  length-run past,
)
length-run (untracked u s ∷ past) = ground (
  arith,
  length-untrack u s (run past) (run-IsValid past),
  length-bucket-run past u,
  online-run past u s,
  length-run past,
)

-- After any history of calls from an empty table, a socket is in the table of users exactly where
-- the last call about it tracked it, and Stats answers how many sockets are so and of how many
-- users: the table of sets of sockets implements the history.
pub run-Refines :
    (past : List Call)
    → ((v t : ℕ) → online v t (run past) ≡ live v t past)
      × (stats (run past) ≡ (live_total past, live_users past))
unfolding stats
run-Refines past = (online-run past, grind (arith, connections-run past, length-run past))
