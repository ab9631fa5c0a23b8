-- ===== src/Hub/Buckets.antt =====
-- services/websocket-gateway/internal/hub/hub.go: what track and untrack do to the table of users.
use metaverse_rang_microserv.Common.{
  ℕ, ◌+◌, ◌≤◌, ◌≡◌, ◌≢◌, refl, Bool, false, not, ◌&&◌, ◌||◌, Option, none, some, List, [], ◌∷◌,
  arith, ◌==◌, length, length-append, if◌then◌else◌,
}
use metaverse_rang_microserv.Common.Table.{select, count, sum, update, delete}
use metaverse_rang_microserv.Common.Table.Laws.{
  sum-update, sum-append, select-append, count-append, count-update, select-none-count, sum-delete,
}
use metaverse_rang_microserv.Hub.{
  Bucket, Users, of_user, has, insert, remove, with_bucket, set_sockets, track, untrack,
  connections,
}

-- the sockets of a user, none where the user has no entry
abbrev pub sockets_in : Option Bucket → List ℕ
sockets_in none = []
sockets_in (some b) = b.sockets

abbrev pub bucket : ℕ → Users → List ℕ
bucket user_id users = sockets_in (select (of_user user_id) users)

-- whether a socket is tracked for a user, in the code's table
abbrev pub online : ℕ → ℕ → Users → Bool
online user_id socket_id users = has socket_id (bucket user_id users)

-- One entry for each user who has a socket, none for any other, and no socket twice in a set.
pub record IsValid (users : Users) : Type 0 where
  pub one_bucket :
      (u : ℕ) → count (of_user u) users ≡ (if length (bucket u users) == 0 then 0 else 1)
  pub no_twice : (u s : ℕ) → count (λ x. x == s) (bucket u users) ≤ 1

-- sets of sockets
count-delete : (p : ℕ → Bool) (l : List ℕ) → length (delete p l) + count p l ≡ length l
unfolding delete count
count-delete p [] = omega arith
count-delete p (x ∷ l) = ground (arith, count-delete p l)

pub count-remove :
    (s t : ℕ) (l : List ℕ)
    → count (λ x. x == t) (remove s l) ≡ (if t == s then 0 else count (λ x. x == t) l)
unfolding remove delete count
count-remove s t [] = ground arith
count-remove s t (x ∷ l) = ground (arith, count-remove s t l)

pub has-remove : (s t : ℕ) (l : List ℕ) → has t (remove s l) ≡ (not (t == s) && has t l)
unfolding has
has-remove s t l = ground (arith, count-remove s t l)

pub length-remove :
    (s : ℕ) (l : List ℕ)
    → count (λ x. x == s) l ≤ 1
    → length (remove s l) + (if has s l then 1 else 0) ≡ length l
unfolding remove has
length-remove s l h = ground (arith, count-delete (λ x. x == s) l)

pub count-insert :
    (s t : ℕ) (l : List ℕ)
    → count (λ x. x == t) l ≤ 1
    → count (λ x. x == t) (insert s l) ≡ (if t == s then 1 else count (λ x. x == t) l)
unfolding insert has count
count-insert s t l h = ground (arith, count-append (λ x. x == t) l (s ∷ []))

pub has-insert : (s t : ℕ) (l : List ℕ) → has t (insert s l) ≡ ((t == s) || has t l)
unfolding insert has count
has-insert s t l = ground (arith, count-append (λ x. x == t) l (s ∷ []))

pub length-insert :
    (s : ℕ) (l : List ℕ) → length (insert s l) ≡ length l + (if has s l then 0 else 1)
unfolding insert
length-insert s l = ground (arith, length-append l (s ∷ []))

pub insert_some : (s : ℕ) (l : List ℕ) → length (insert s l) ≢ 0
unfolding insert has
insert_some s l = ground (arith, length-append l (s ∷ []), count-delete (λ x. x == s) l)

-- the entries of the table
pub length-update :
    (p : Bucket → Bool) (f : Bucket → Bucket) (l : Users) → length (update p f l) ≡ length l
unfolding update
length-update p f [] = refl
length-update p f (b ∷ l) = omega (arith, length-update p f l)

pub length-delete : (p : Bucket → Bool) (l : Users) → length (delete p l) + count p l ≡ length l
unfolding delete count
length-delete p [] = omega arith
length-delete p (b ∷ l) = ground (arith, length-delete p l)

pub count-delete_other :
    (v u : ℕ) (l : Users)
    → count (of_user v) (delete (of_user u) l) ≡ (if v == u then 0 else count (of_user v) l)
unfolding delete count
count-delete_other v u [] = ground arith
count-delete_other v u (b ∷ l) = ground (arith, count-delete_other v u l)

pub select-delete_other :
    (v u : ℕ) (l : Users)
    → select (of_user v) (delete (of_user u) l) ≡ (if v == u then none else select (of_user v) l)
unfolding delete select
select-delete_other v u [] = ground arith
select-delete_other v u (b ∷ l) = ground (arith, select-delete_other v u l)

select-user : (v : ℕ) (l : Users) (b : Bucket) → select (of_user v) l ≡ some b → b.user_id ≡ v
unfolding select
select-user v [] b h = cc
select-user v (c ∷ l) b h = ground (arith, select-user v l b)

pub select-set_sockets :
    (v u : ℕ) (f : List ℕ → List ℕ) (l : Users)
    → select (of_user v) (set_sockets u f l) ≡ elim (select (of_user v) l) [
      | none ↦ none
      | some b ↦ some (if v == u then record b { sockets = f b.sockets } else b)
    ]
unfolding set_sockets select update
select-set_sockets v u f [] = refl
select-set_sockets v u f (b ∷ l) = ground (arith, select-set_sockets v u f l)

pub select-with_bucket :
    (v u : ℕ) (l : Users)
    → select (of_user v) (with_bucket u l) ≡ elim (select (of_user v) l) [
      | none ↦ if v == u then some (record { user_id = u; sockets = [] }) else none
      | some b ↦ some b
    ]
unfolding with_bucket select
select-with_bucket v u l = ground (
  arith,
  select-append (of_user v) l (record { user_id = u; sockets = [] } ∷ []),
  select-none-count (of_user v) l,
)

pub count-set_sockets :
    (v u : ℕ) (f : List ℕ → List ℕ) (l : Users)
    → count (of_user v) (set_sockets u f l) ≡ count (of_user v) l
unfolding set_sockets
count-set_sockets v u f l =
    count-update (of_user v) (of_user u) (λ b. record b { sockets = f b.sockets }) l (λ b. refl)

pub count-with_bucket :
    (v u : ℕ) (l : Users)
    → count (of_user v) (with_bucket u l) ≡ (
        if v == u
        then (if count (of_user v) l == 0 then 1 else count (of_user v) l)
        else count (of_user v) l)
unfolding with_bucket count
count-with_bucket v u l =
    ground (arith, count-append (of_user v) l (record { user_id = u; sockets = [] } ∷ []))

pub connections-set_sockets :
    (u : ℕ) (f : List ℕ → List ℕ) (l : Users) (b : Bucket)
    → count (of_user u) l ≤ 1
    → select (of_user u) l ≡ some b
    → connections (set_sockets u f l) + length b.sockets ≡ connections l + length (f b.sockets)
unfolding connections set_sockets
connections-set_sockets u f l b h e =
    sum-update (λ b. length b.sockets) (of_user u) (λ b. record b { sockets = f b.sockets }) l b h e

pub connections-with_bucket : (u : ℕ) (l : Users) → connections (with_bucket u l) ≡ connections l
unfolding connections with_bucket sum
connections-with_bucket u l =
    ground (arith, sum-append (λ b. length b.sockets) l (record { user_id = u; sockets = [] } ∷ []))

length-zero : (l : List ℕ) → length l ≡ 0 → l ≡ []
length-zero [] h = refl
length-zero (x ∷ l) h = ground arith

remove_nil : (s : ℕ) → remove s [] ≡ []
unfolding remove delete
remove_nil s = refl

bucket-set_sockets :
    (v u : ℕ) (f : List ℕ → List ℕ) (l : Users)
    → select (of_user u) l ≢ none
    → bucket v (set_sockets u f l) ≡ (if v == u then f (bucket u l) else bucket v l)
bucket-set_sockets v u f l h = ground (arith, select-set_sockets v u f l)

bucket-with_bucket : (v u : ℕ) (l : Users) → bucket v (with_bucket u l) ≡ bucket v l
bucket-with_bucket v u l = ground (arith, select-with_bucket v u l)

pub with_bucket-some : (u : ℕ) (l : Users) → select (of_user u) (with_bucket u l) ≢ none
with_bucket-some u l = ground (arith, select-with_bucket u u l)

pub bucket-track :
    (v u s : ℕ) (l : Users)
    → bucket v (track u s l) ≡ (if v == u then insert s (bucket u l) else bucket v l)
unfolding track
bucket-track v u s l = grind (
  arith,
  bucket-set_sockets v u (insert s) (with_bucket u l) (with_bucket-some u l),
  bucket-with_bucket v u l,
  bucket-with_bucket u u l,
)

pub bucket-untrack :
    (v u s : ℕ) (l : Users)
    → bucket v (untrack u s l) ≡ (if v == u then remove s (bucket u l) else bucket v l)
unfolding untrack
bucket-untrack v u s l = ground (
  arith,
  select-set_sockets v u (remove s) l,
  select-delete_other v u (set_sockets u (remove s) l),
  length-zero (remove s (bucket u l)),
  remove_nil s,
)

-- deleting a user's entry takes its sockets off the total
pub connections-delete :
    (u : ℕ) (l : Users) (b : Bucket)
    → count (of_user u) l ≤ 1
    → select (of_user u) l ≡ some b
    → connections (delete (of_user u) l) + length b.sockets ≡ connections l
unfolding connections
connections-delete u l b h e = sum-delete (λ b. length b.sockets) (of_user u) l b h e

pub has_nil : (s : ℕ) → has s [] ≡ false
unfolding has count
has_nil s = refl
