-- ===== src/Hub.antt =====
-- services/websocket-gateway/internal/hub/hub.go: which sockets of which users are connected, and
-- the rooms that events are sent to. A socket id is a number, since ids are only compared. The
-- token check of the auth service is the parameter `validate`.
pub mod Buckets
pub mod History
pub mod Rooms
pub mod Sessions
mod Tests
use metaverse_rang_microserv.Common.{
  ℕ, zero, suc, ◌+◌, ◌/◌, ◌%◌, Bool, not, Option, none, some, List, [], ◌∷◌, ◌++◌, ◌==◌, length,
  if◌then◌else◌,
}
use metaverse_rang_microserv.Common.Table.{select, count, sum, update, delete}

-- one entry of `users`: a user's set of socket ids
pub record Bucket : Type 0 where
  pub user_id : ℕ
  pub sockets : List ℕ

abbrev pub Users : Type 0
Users = List Bucket

-- the key of an entry
abbrev pub of_user : ℕ → Bucket → Bool
of_user user_id b = b.user_id == user_id

-- the operations of a set of socket ids
unfoldable pub has : ℕ → List ℕ → Bool
has socket_id l = not (count (λ x. x == socket_id) l == 0)

unfoldable pub insert : ℕ → List ℕ → List ℕ
insert socket_id l = if has socket_id l then l else l ++ (socket_id ∷ [])

unfoldable pub remove : ℕ → List ℕ → List ℕ
remove socket_id l = delete (λ x. x == socket_id) l

-- the entry that `make` puts where there is none
unfoldable pub with_bucket : ℕ → Users → Users
with_bucket user_id users =
    if count (of_user user_id) users == 0
    then users ++ (record { user_id = user_id; sockets = [] } ∷ [])
    else users

unfoldable pub set_sockets : ℕ → (List ℕ → List ℕ) → Users → Users
set_sockets user_id f users =
    update (of_user user_id) (λ b. record b { sockets = f b.sockets }) users

unfoldable pub track : ℕ → ℕ → Users → Users
track user_id socket_id users = set_sockets user_id (insert socket_id) (with_bucket user_id users)

unfoldable pub untrack : ℕ → ℕ → Users → Users
untrack user_id socket_id users = elim (select (of_user user_id) users) [
  | none ↦ users
  | some b ↦
      if length (remove socket_id b.sockets) == 0
      then delete (of_user user_id) (set_sockets user_id (remove socket_id) users)
      else set_sockets user_id (remove socket_id) users
]

-- `Stats`: connections and users
unfoldable pub connections : Users → ℕ
connections users = sum (λ b. length b.sockets) users

unfoldable pub stats : Users → ℕ × ℕ
stats users = (connections users, length users)

-- The handlers `OnConnect` and `OnDisconnect`; what `SetContext` keeps for a socket is its user id.
pub record Gateway : Type 0 where
  pub users : Users
  pub context : ℕ → Option ℕ

unfoldable pub set_context : ℕ → ℕ → (ℕ → Option ℕ) → ℕ → Option ℕ
set_context socket_id user_id context s = if s == socket_id then some user_id else context s

unfoldable pub on_connect : (ℕ → Option ℕ) → ℕ → ℕ → Gateway → Option (ℕ × Gateway)
on_connect validate token socket_id g = elim (validate token) [
  | none ↦ none
  | some user_id ↦ some (
    user_id,
    record {
      users = track user_id socket_id g.users;
      context = set_context socket_id user_id g.context;
    },
  )
]

unfoldable pub on_disconnect : ℕ → Gateway → Gateway
on_disconnect socket_id g = elim (g.context socket_id) [
  | none ↦ g
  | some user_id ↦ record g { users = untrack user_id socket_id g.users }
]

-- `formatUint`: the digits that the loop writes from the end of a buffer with `room` places left;
-- none is the panic of a write before the buffer.
unfoldable pub write_digits : ℕ → ℕ → List ℕ → Option (List ℕ)
write_digits zero v digits = if v == 0 then some digits else none
write_digits (suc room) v digits =
    let rest = write_digits room (v / 10) (v % 10 ∷ digits) in if v == 0 then some digits else rest

unfoldable pub format_uint : ℕ → Option (List ℕ)
format_uint v = if v == 0 then some (0 ∷ []) else write_digits 20 v []
