-- ===== src/Hub/Sessions.antt =====
-- services/websocket-gateway/internal/hub/hub.go: the handlers OnConnect and OnDisconnect.
use metaverse_rang_microserv.Common.{
  ℕ, ◌≡◌, true, false, not, ◌&&◌, Option, some, arith, ◌==◌, if◌then◌else◌, Option-cases, inl, inr,
}
use metaverse_rang_microserv.Hub.{Gateway, track, set_context, on_connect, on_disconnect}
use metaverse_rang_microserv.Hub.Buckets.{
  bucket, online, bucket-track, bucket-untrack, has-insert, has-remove,
}

-- A socket is tracked for the user whom its context names, and for nobody else.
abbrev pub IsOwned : Gateway → Type 0
IsOwned g = (v t : ℕ) → online v t g.users ≡ true → g.context t ≡ some v

-- Where the token is valid for a user and the socket is new, OnConnect tracks the socket for that
-- user and for nobody else, keeps what is tracked of the other sockets, and every tracked socket
-- keeps the user in its context.
pub on_connect-IsOwned :
    (validate : ℕ → Option ℕ) (token u s : ℕ) (g : Gateway)
    → IsOwned g
    → ((v : ℕ) → online v s g.users ≡ false)
    → validate token ≡ some u
    → (after : Gateway) × ((on_connect validate token s g ≡ some (u, after))
        × (IsOwned after
            × ((v t : ℕ)
                → online v t after.users ≡ (if t == s then v == u else online v t g.users))))
unfolding on_connect set_context
on_connect-IsOwned validate token u s g owned fresh valid =
    let after : Gateway = record {
      users = track u s g.users;
      context = set_context s u g.context;
    } in
    (
      after,
      (
        ground (arith, valid),
        (
          λ v t on. ground (
            arith,
            bucket-track v u s g.users,
            has-insert s t (bucket u g.users),
            owned v t,
            fresh v,
            fresh u,
          ),
          λ v t. ground (
            arith,
            bucket-track v u s g.users,
            has-insert s t (bucket u g.users),
            fresh v,
            fresh u,
          ),
        ),
      ),
    )

-- After OnDisconnect the socket is tracked for nobody, every other socket is tracked as before, and
-- every tracked socket keeps the user in its context.
pub on_disconnect-IsOwned :
    (s : ℕ) (g : Gateway)
    → IsOwned g
    → IsOwned (on_disconnect s g)
      × ((v t : ℕ) → online v t (on_disconnect s g).users ≡ (not (t == s) && online v t g.users))
unfolding on_disconnect
on_disconnect-IsOwned s g owned = elim (Option-cases (g.context s)) [
  | inl no_user ↦
      (λ v t on. ground (arith, no_user, owned v t), λ v t. ground (arith, no_user, owned v t))
  | inr (u, is_user) ↦ (
    λ v t on. ground (
      arith,
      is_user,
      bucket-untrack v u s g.users,
      has-remove s t (bucket u g.users),
      owned v t,
    ),
    λ v t. ground (
      arith,
      is_user,
      bucket-untrack v u s g.users,
      has-remove s t (bucket u g.users),
      owned v t,
    ),
  )
]
