-- ===== src/Dynasty/Admission.antt =====
-- services/dynasty-service/internal/service/join_request_service.go: AcceptJoinRequest.
use metaverse_rang_microserv.Common.{
  ℕ, ◌+◌, ◌≡◌, ap, ◌∙◌, Bool, false, Option, none, some, List, [], ◌∷◌, ◌++◌, arith, if◌then◌else◌,
}
use metaverse_rang_microserv.Common.Table.{select}
use metaverse_rang_microserv.Common.Server.{Server, ok, ◌>>◌, then-ok}
use metaverse_rang_microserv.Dynasty.{
  Relationship, RequestStatus, DynastyRow, Family, JoinRequest, DynastyPrize, ReceivedPrize, Tables,
  is_join_request, of_owner, of_dynasty, insert_member, set_status, insert_child, verify_child,
  insert_prize, same_relationship, check_user_age,
}
use metaverse_rang_microserv.Dynasty.Requests.{
  find_request, add_member, give_default, verify_existing, grant_by_age, grant_permissions,
  give_prize, award_prize, admit, accept_join_request,
}

-- What the step on permissions, whose errors are not looked at, keeps.
record Trailing (before after : Server Tables) : Type 0 where
  fails : after.fails ≡ before.fails
  dynasties : after.tables.dynasties ≡ before.tables.dynasties
  families : after.tables.families ≡ before.tables.families
  family_members : after.tables.family_members ≡ before.tables.family_members
  join_requests : after.tables.join_requests ≡ before.tables.join_requests
  dynasty_prizes : after.tables.dynasty_prizes ≡ before.tables.dynasty_prizes
  received_prizes : after.tables.received_prizes ≡ before.tables.received_prizes
  next_prize_id : after.tables.next_prize_id ≡ before.tables.next_prize_id

grant_by_age-Trailing :
    (request : JoinRequest) (user_id : ℕ) (a b : Bool) (s : Server Tables)
    → ((grant_by_age request user_id a b s).0 ≡ ok tt)
      × Trailing s (grant_by_age request user_id a b s).1
unfolding grant_by_age give_default verify_existing insert_child verify_child
grant_by_age-Trailing request user_id a b s = (
  ground arith,
  record {
    fails = ground arith;
    dynasties = ground arith;
    families = ground arith;
    family_members = ground arith;
    join_requests = ground arith;
    dynasty_prizes = ground arith;
    received_prizes = ground arith;
    next_prize_id = ground arith;
  },
)

grant_permissions-Trailing :
    (request : JoinRequest) (user_id : ℕ) (s : Server Tables)
    → ((grant_permissions request user_id s).0 ≡ ok tt)
      × Trailing s (grant_permissions request user_id s).1
unfolding grant_permissions
grant_permissions-Trailing request user_id s =
    let s' : Server Tables = record s { calls = s.calls + 1 + 1 } in
    let (answers, kept) =
      grant_by_age-Trailing request user_id
        (if s.fails s.calls then false else check_user_age request.from_user s.tables)
        (if s.fails (s.calls + 1) then false else check_user_age user_id s.tables) s' in
    (
      answers,
      record {
        fails = kept.fails;
        dynasties = kept.dynasties;
        families = kept.families;
        family_members = kept.family_members;
        join_requests = kept.join_requests;
        dynasty_prizes = kept.dynasty_prizes;
        received_prizes = kept.received_prizes;
        next_prize_id = kept.next_prize_id;
      },
    )

-- the prizes after the award of the relationship's prize, if it has one
abbrev pub prizes_with : Option DynastyPrize → ℕ → Tables → List ReceivedPrize
prizes_with none user_id t = t.received_prizes
prizes_with (some p) user_id t =
    t.received_prizes ++ (record { id = t.next_prize_id; user_id = user_id; prize_id = p.id } ∷ [])

abbrev pub prize_of : Relationship → Tables → Option DynastyPrize
prize_of relationship t = select (λ p. same_relationship p.member relationship) t.dynasty_prizes

-- What an acceptance does: the request is accepted, the user is a member of the family `f`, under
-- the relationship of the request, and has its prize; dynasties and families are as before.
pub record Admitted (id user_id : ℕ) (r : JoinRequest) (f : Family) (before after : Tables)
    : Type 0 where
  pub dynasties : after.dynasties ≡ before.dynasties
  pub families : after.families ≡ before.families
  pub family_members :
      after.family_members
      ≡ before.family_members
        ++ (record { family_id = f.id; user_id = user_id; relationship = r.relationship } ∷ [])
  pub join_requests :
      after.join_requests ≡ (set_status id RequestStatus.accepted before).join_requests
  pub received_prizes :
      after.received_prizes ≡ prizes_with (prize_of r.relationship before) user_id before

-- the state before the permissions
joined : ℕ → ℕ → JoinRequest → Family → Server Tables → Server Tables
joined id user_id r f s = record s {
  tables =
      insert_member f.id user_id r.relationship (set_status id RequestStatus.accepted s.tables);
  calls = s.calls + 1 + 1 + 1 + 1 + 1;
}

accept_join_request-steps :
    (id user_id : ℕ) (r : JoinRequest) (d : DynastyRow) (f : Family) (s : Server Tables)
    → ((n : ℕ) → s.fails n ≡ false)
    → select (is_join_request id) s.tables.join_requests ≡ some r
    → r.to_user ≡ user_id
    → select (of_owner r.from_user) s.tables.dynasties ≡ some d
    → select (of_dynasty d.id) s.tables.families ≡ some f
    → accept_join_request id user_id s
      ≡ (grant_permissions r user_id >> award_prize r user_id) (joined id user_id r f s)
unfolding accept_join_request find_request admit add_member set_status insert_member joined
accept_join_request-steps id user_id r d f s up at own dyn fam = ground (
  arith,
  up s.calls,
  up (s.calls + 1),
  up (s.calls + 1 + 1),
  up (s.calls + 1 + 1 + 1),
  up (s.calls + 1 + 1 + 1 + 1),
  at,
  own,
  dyn,
  fam,
)

award_prize-awards :
    (r : JoinRequest) (user_id : ℕ) (s : Server Tables)
    → s.fails s.calls ≡ false
    → s.fails (s.calls + 1) ≡ false
    → ((award_prize r user_id s).0 ≡ ok tt)
      × ((award_prize r user_id s).1.tables ≡ record s.tables {
        received_prizes = prizes_with (prize_of r.relationship s.tables) user_id s.tables;
        next_prize_id = elim (prize_of r.relationship s.tables) [
          | none ↦ s.tables.next_prize_id
          | some p ↦ s.tables.next_prize_id + 1
        ];
      })
unfolding award_prize give_prize insert_prize
award_prize-awards r user_id s a b = ground (arith, a, b)

after_permissions :
    (id user_id : ℕ) (r : JoinRequest) (f : Family) (s : Server Tables)
    → ((n : ℕ) → s.fails n ≡ false)
    → (((grant_permissions r user_id >> award_prize r user_id) (joined id user_id r f s)).0 ≡ ok tt)
      × Admitted id user_id r f s.tables
          ((grant_permissions r user_id >> award_prize r user_id)
            (joined id user_id r f s)).1.tables
unfolding joined insert_member set_status
after_permissions id user_id r f s up =
    let (answers, kept) = grant_permissions-Trailing r user_id (joined id user_id r f s) in
    let s' : Server Tables = (grant_permissions r user_id (joined id user_id r f s)).1 in
    let (awards, gives) =
      award_prize-awards r user_id s' (ap (λ g. g s'.calls) kept.fails ∙ up s'.calls)
        (ap (λ g. g (s'.calls + 1)) kept.fails ∙ up (s'.calls + 1)) in
    let step : (grant_permissions r user_id >> award_prize r user_id) (joined id user_id r f s)
        ≡ award_prize r user_id s' =
      then-ok (grant_permissions r user_id) (award_prize r user_id) (joined id user_id r f s)
        answers in
    (
      ap (λ p. p.0) step ∙ awards,
      record {
        dynasties =
            ap (λ p. p.1.tables.dynasties) step ∙ (ap (λ t. t.dynasties) gives ∙ kept.dynasties);
        families =
            ap (λ p. p.1.tables.families) step ∙ (ap (λ t. t.families) gives ∙ kept.families);
        family_members =
            ap (λ p. p.1.tables.family_members) step
            ∙ (ap (λ t. t.family_members) gives ∙ kept.family_members);
        join_requests =
            ap (λ p. p.1.tables.join_requests) step
            ∙ (ap (λ t. t.join_requests) gives ∙ kept.join_requests);
        received_prizes =
            ap (λ p. p.1.tables.received_prizes) step
            ∙ (ap (λ t. t.received_prizes) gives
                ∙ ground (arith, kept.dynasty_prizes, kept.received_prizes, kept.next_prize_id));
      },
    )

-- On a server where no call fails, the receiver of a request accepts it: the user becomes a member
-- of the sender's family, the request is accepted, and the prize of the relationship, if there is
-- one, is given. The status that the request had is not asked for.
pub accept_join_request-Admitted :
    (id user_id : ℕ) (r : JoinRequest) (d : DynastyRow) (f : Family) (s : Server Tables)
    → ((n : ℕ) → s.fails n ≡ false)
    → select (is_join_request id) s.tables.join_requests ≡ some r
    → r.to_user ≡ user_id
    → select (of_owner r.from_user) s.tables.dynasties ≡ some d
    → select (of_dynasty d.id) s.tables.families ≡ some f
    → ((accept_join_request id user_id s).0 ≡ ok tt)
      × Admitted id user_id r f s.tables (accept_join_request id user_id s).1.tables
accept_join_request-Admitted id user_id r d f s up at own dyn fam =
    let step = accept_join_request-steps id user_id r d f s up at own dyn fam in
    let (answers, does) = after_permissions id user_id r f s up in
    (
      ap (λ p. p.0) step ∙ answers,
      record {
        dynasties = ap (λ p. p.1.tables.dynasties) step ∙ does.dynasties;
        families = ap (λ p. p.1.tables.families) step ∙ does.families;
        family_members = ap (λ p. p.1.tables.family_members) step ∙ does.family_members;
        join_requests = ap (λ p. p.1.tables.join_requests) step ∙ does.join_requests;
        received_prizes = ap (λ p. p.1.tables.received_prizes) step ∙ does.received_prizes;
      },
    )
