-- ===== src/Social/Follows.antt =====
-- services/social-service/internal/service/follow_service.go with repository/follow_repository.go.
-- What auth-service says of a pair of users is a parameter, or nothing where there is no client; what
-- levels-service is told is a list. The names, photos, levels and dates that are shown are left out.
use metaverse_rang_microserv.Common.{
  ap, sym, ◌∙◌, ℕ, ◌+◌, ◌≤◌, ◌≡◌, ◌≢◌, ◌↔◌, Bool, true, false, not, ◌&&◌, Option, none, some, List,
  [], ◌∷◌, ◌++◌, arith, ltb, ◌==◌, if◌then◌else◌, Bool-cases, inl, inr,
}
use metaverse_rang_microserv.Common.Table.{count, delete}
use metaverse_rang_microserv.Common.Table.Laws.{
  sum-delete_none, count-delete, count-append, count_single, delete-append_last,
}
use metaverse_rang_microserv.Common.Server.{
  is_ok, Server, Action, ok, pure, raise, or_raise, query, exec, try_exec, raise_if, ◌>>=◌, ◌>>◌,
}

pub record Follow : Type 0 where
  pub follower_id : ℕ
  pub following_id : ℕ

pub record FollowStore : Type 0 where
  pub follows : List Follow
  -- the users whose new follower levels-service was told of
  pub recorded : List ℕ

pub data FollowError : Type 0 where
  cannot_follow_self already_following profile_limitation auth_error follow_db : FollowError

abbrev pub FollowAction : Type 0 → Type 0
FollowAction = Action FollowStore FollowError

abbrev pub is_follow : ℕ → ℕ → Follow → Bool
is_follow follower following f = f.follower_id == follower && f.following_id == following

unfoldable pub create_follow : ℕ → ℕ → FollowStore → FollowStore
create_follow follower following t = record t {
  follows = t.follows ++ (record { follower_id = follower; following_id = following } ∷ []);
}

unfoldable pub delete_follow : ℕ → ℕ → FollowStore → FollowStore
delete_follow follower following t = record t {
  follows = delete (is_follow follower following) t.follows;
}

-- `Exists`
unfoldable pub follow_exists : ℕ → ℕ → FollowAction Bool
follow_exists follower following =
    query follow_db (λ t. ltb 0 (count (is_follow follower following) t.follows))

unfoldable pub record_follower : ℕ → FollowStore → FollowStore
record_follower user t = record t { recorded = t.recorded ++ (user ∷ []) }

-- whether there is a client of levels-service, and the answers of auth-service
pub record Clients : Type 0 where
  pub has_levels : Bool
  pub can_follow : Option (ℕ → ℕ → Option Bool)

unfoldable pub ask_limitation : Clients → ℕ → ℕ → FollowAction Bool
ask_limitation clients user target = elim clients.can_follow [
  | none ↦ raise auth_error
  | some asks ↦ or_raise (asks user target) auth_error
]

unfoldable pub follow : Clients → ℕ → ℕ → FollowAction (Unit {0})
unfolding follow_exists ask_limitation
follow clients user target = do
  raise_if (user == target) cannot_follow_self
  already ← follow_exists user target
  raise_if already already_following
  allowed ← ask_limitation clients user target
  raise_if (not allowed) profile_limitation
  exec follow_db (create_follow user target)
  (if clients.has_levels then try_exec (record_follower target) else pure tt)

unfoldable pub unfollow : ℕ → ℕ → FollowAction (Unit {0})
unfollow user target = exec follow_db (delete_follow user target)

-- `Remove`: the target follows the user
unfoldable pub remove_follower : ℕ → ℕ → FollowAction (Unit {0})
remove_follower user target = exec follow_db (delete_follow target user)

pub record FollowPermissions : Type 0 where
  pub may_follow : Bool
  pub may_unfollow : Bool
  pub may_remove_follower : Bool

-- the permissions that `buildFollowResource` shows to the viewer
unfoldable pub follow_permissions : ℕ → ℕ → FollowAction FollowPermissions
unfolding follow_exists
follow_permissions viewer user = do
  is_following ← follow_exists viewer user
  is_follower ← follow_exists user viewer
  pure (record {
    may_follow = not (viewer == user) && not is_following;
    may_unfollow = is_following;
    may_remove_follower = is_follower;
  })

-- no one follows themselves, and no one follows another twice
pub record IsProper (t : FollowStore) : Type 0 where
  pub not_self : (u : ℕ) → count (is_follow u u) t.follows ≡ 0
  pub once : (u v : ℕ) → count (is_follow u v) t.follows ≤ 1

count-delete_le : (q p : Follow → Bool) (l : List Follow) → count q (delete p l) ≤ count q l
unfolding count delete
count-delete_le q p [] = omega arith
count-delete_le q p (x ∷ l) = ground (arith, count-delete_le q p l)

delete_follow-IsProper : (u v : ℕ) (t : FollowStore) → IsProper t → IsProper (delete_follow u v t)
unfolding delete_follow
delete_follow-IsProper u v t proper = record {
  not_self = λ w.
      omega (arith, count-delete_le (is_follow w w) (is_follow u v) t.follows, proper.not_self w);
  once = λ w x.
      omega (arith, count-delete_le (is_follow w x) (is_follow u v) t.follows, proper.once w x);
}

-- how often a pair follows after Follow, whatever fails
follow-count :
    (clients : Clients) (user target : ℕ) (s : Server FollowStore) (u v : ℕ)
    → count (is_follow u v) (follow clients user target s).1.tables.follows
      ≤ count (is_follow u v) s.tables.follows
        + (if user == u
              && target == v
              && not (user == target)
              && not (ltb 0 (count (is_follow user target) s.tables.follows))
            then 1
            else 0)
unfolding follow follow_exists ask_limitation create_follow record_follower
follow-count clients user target s u v = ground (
  arith,
  count-append (is_follow u v) s.tables.follows
      (record { follower_id = user; following_id = target } ∷ []),
  count_single (is_follow u v) (record { follower_id = user; following_id = target }),
)

follow-IsProper :
    (clients : Clients) (user target : ℕ) (s : Server FollowStore)
    → IsProper s.tables
    → IsProper (follow clients user target s).1.tables
follow-IsProper clients user target s proper = record {
  not_self = λ u. ground (arith, follow-count clients user target s u u, proper.not_self u);
  once = λ u v. ground (arith, follow-count clients user target s u v, proper.once u v);
}

-- A call of one of the three handlers, on a server that fails what it fails.
pub data Call (s : Server FollowStore) : Server FollowStore → Type 0 where
  follows : (clients : Clients) (u v : ℕ) → Call s (follow clients u v s).1
  unfollows : (u v : ℕ) → Call s (unfollow u v s).1
  removes : (u v : ℕ) → Call s (remove_follower u v s).1

pub data Calls (s : Server FollowStore) : Server FollowStore → Type 0 where
  none_yet : Calls s s
  then_call : {t u : Server FollowStore} → Calls s t → Call t u → Calls s u

Call-IsProper : {s t : Server FollowStore} → Call s t → IsProper s.tables → IsProper t.tables
unfolding unfollow remove_follower
Call-IsProper {s} (follows clients u v) proper = follow-IsProper clients u v s proper
Call-IsProper {s} (unfollows u v) proper = elim (Bool-cases (s.fails s.calls)) [
  | inl down ↦ rw (down, exec) proper
  | inr up ↦ rw (up, exec) (delete_follow-IsProper u v s.tables proper)
]
Call-IsProper {s} (removes u v) proper = elim (Bool-cases (s.fails s.calls)) [
  | inl down ↦ rw (down, exec) proper
  | inr up ↦ rw (up, exec) (delete_follow-IsProper v u s.tables proper)
]

-- After any calls of Follow, Unfollow and Remove, whichever of their statements fail, from tables in
-- which no one follows themselves and no one follows another twice, it is so still.
pub Calls-IsProper : {s t : Server FollowStore} → Calls s t → IsProper s.tables → IsProper t.tables
Calls-IsProper none_yet proper = proper
Calls-IsProper (then_call before call) proper = Call-IsProper call (Calls-IsProper before proper)

-- On a server where no call fails, and where auth-service allows it, one who may follow another
-- follows them once, levels-service is told, and to unfollow them puts the follows back.
pub follow-unfollow :
    (clients : Clients) (asks : ℕ → ℕ → Option Bool) (user target : ℕ) (s : Server FollowStore)
    → ((n : ℕ) → s.fails n ≡ false)
    → clients.can_follow ≡ some asks
    → asks user target ≡ some true
    → clients.has_levels ≡ true
    → user ≢ target
    → count (is_follow user target) s.tables.follows ≡ 0
    → let followed = follow clients user target s in
      (followed.0 ≡ ok tt)
      × (count (is_follow user target) followed.1.tables.follows ≡ 1)
      × (followed.1.tables.recorded ≡ s.tables.recorded ++ (target ∷ []))
      × ((unfollow user target followed.1).1.tables.follows ≡ s.tables.follows)
unfolding follow follow_exists ask_limitation create_follow record_follower unfollow delete_follow
follow-unfollow clients asks user target s up has allows levels other fresh = (
  ground (arith, up s.calls, up (s.calls + 1), up (s.calls + 2), has, allows, levels, other, fresh),
  ground (
    arith,
    up s.calls,
    up (s.calls + 1),
    up (s.calls + 2),
    has,
    allows,
    levels,
    other,
    fresh,
    count-append (is_follow user target) s.tables.follows
        (record { follower_id = user; following_id = target } ∷ []),
    count_single (is_follow user target) (record { follower_id = user; following_id = target }),
  ),
  ground (arith, up s.calls, up (s.calls + 1), up (s.calls + 2), has, allows, levels, other, fresh),
  ground (
    arith,
    up s.calls,
    up (s.calls + 1),
    up (s.calls + 2),
    up (s.calls + 3),
    has,
    allows,
    levels,
    other,
    fresh,
    delete-append_last (is_follow user target) s.tables.follows
        (record { follower_id = user; following_id = target }),
  ),
)

-- a DELETE that leaves the rows as they are has found none
delete-count :
    (p : Follow → Bool) (l : List Follow) → (ltb 0 (count p l) ≡ false) ↔ (delete p l ≡ l)
delete-count p l = (
  (λ h. sum-delete_none p l (ground (arith, h))),
  (λ same. ground (arith, ap (count p) same, count-delete p l)),
)

-- On a server where no call fails, and where auth-service lets the viewer follow the user, the viewer
-- is shown that they may follow exactly where Follow succeeds, that they may unfollow exactly where
-- Unfollow changes the follows, and that they may remove the follower exactly where Remove does.
pub follow_permissions-agree :
    (clients : Clients) (asks : ℕ → ℕ → Option Bool) (viewer user : ℕ) (s : Server FollowStore)
    → ((n : ℕ) → s.fails n ≡ false)
    → clients.can_follow ≡ some asks
    → asks viewer user ≡ some true
    → (shown : FollowPermissions) × ((follow_permissions viewer user s).0 ≡ ok shown)
      × (shown.may_follow ≡ is_ok (follow clients viewer user s).0)
      × ((shown.may_unfollow ≡ false)
          ↔ ((unfollow viewer user s).1.tables.follows ≡ s.tables.follows))
      × ((shown.may_remove_follower ≡ false)
          ↔ ((remove_follower viewer user s).1.tables.follows ≡ s.tables.follows))
unfolding follow_permissions follow follow_exists ask_limitation unfollow remove_follower
    delete_follow
follow_permissions-agree clients asks viewer user s up has allows =
    let unfollowed : (unfollow viewer user s).1.tables.follows
        ≡ delete (is_follow viewer user) s.tables.follows =
      ground (arith, up s.calls) in
    let removed : (remove_follower viewer user s).1.tables.follows
        ≡ delete (is_follow user viewer) s.tables.follows =
      ground (arith, up s.calls) in
    let (none_there, none_there') = delete-count (is_follow viewer user) s.tables.follows in
    let (no_follower, no_follower') = delete-count (is_follow user viewer) s.tables.follows in
    (
      record {
        may_follow =
            not (viewer == user) && not (ltb 0 (count (is_follow viewer user) s.tables.follows));
        may_unfollow = ltb 0 (count (is_follow viewer user) s.tables.follows);
        may_remove_follower = ltb 0 (count (is_follow user viewer) s.tables.follows);
      },
      ground (arith, up s.calls, up (s.calls + 1)),
      ground (arith, up s.calls, up (s.calls + 1), up (s.calls + 2), has, allows),
      ((λ h. unfollowed ∙ none_there h), (λ h. none_there' (sym unfollowed ∙ h))),
      ((λ h. removed ∙ no_follower h), (λ h. no_follower' (sym removed ∙ h))),
    )
