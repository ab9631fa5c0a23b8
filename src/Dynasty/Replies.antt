-- ===== src/Dynasty/Replies.antt =====
-- services/dynasty-service/internal/service/join_request_service.go and
-- policy/join_request_policy.go: who may answer a request, and answers after an answer.
use metaverse_rang_microserv.Common.{
  ℕ, ◌+◌, ◌≡◌, ◌≢◌, refl, ap, ◌∙◌, Bool, true, false, ◌&&◌, ◌||◌, none, some, [], ◌∷◌, ◌++◌, arith,
  ◌==◌, ==_refl, Option-cases, inl, inr,
}
use metaverse_rang_microserv.Common.Table.{select, count}
use metaverse_rang_microserv.Common.Table.Laws.{
  select-update, select-test, select-append_new, delete-append_last,
}
use metaverse_rang_microserv.Common.Server.{Server, ok, err, is_ok}
use metaverse_rang_microserv.Dynasty.{
  ChildPermission, insert_child, code, check_user_age, Relationship, RequestStatus, DynastyRow,
  Family, FamilyMember, JoinRequest, Tables, no_dynasty, is_join_request, of_owner, of_dynasty,
  set_status, delete_request, new_request, insert_request,
}
use metaverse_rang_microserv.Dynasty.Admission.{accept_join_request-Admitted}
use metaverse_rang_microserv.Dynasty.Requests.{
  exec_id, find_request, get_join_request, check_permissions, store_permissions, send_join_request,
  add_member, admit, accept_join_request, reject_join_request, delete_join_request,
}

-- `JoinRequestPolicy`
unfoldable pub is_pending_status : RequestStatus → Bool
is_pending_status RequestStatus.pending = true
is_pending_status _ = false

unfoldable pub can_view : ℕ → JoinRequest → Bool
can_view user_id r = (r.from_user == user_id) || (r.to_user == user_id)

unfoldable pub can_delete : ℕ → JoinRequest → Bool
can_delete user_id r = (r.from_user == user_id) && is_pending_status r.status

unfoldable pub can_accept : ℕ → JoinRequest → Bool
can_accept user_id r = (r.to_user == user_id) && is_pending_status r.status

unfoldable pub can_reject : ℕ → JoinRequest → Bool
can_reject user_id r = (r.to_user == user_id) && is_pending_status r.status

-- Viewing answers a request only to whom the policy lets view it.
pub get_join_request-can_view :
    (id user_id : ℕ) (r : JoinRequest) (s : Server Tables)
    → (get_join_request id user_id s).0 ≡ ok r
    → (select (is_join_request id) s.tables.join_requests ≡ some r) × (can_view user_id r ≡ true)
unfolding get_join_request find_request can_view
get_join_request-can_view id user_id r s h = (ground arith, ground arith)

-- Nobody but its receiver accepts or rejects a request, and nobody but its sender deletes it:
-- otherwise the operation errs and changes no table, whichever calls fail.
pub reply_needs_party :
    (id user_id : ℕ) (s : Server Tables)
    → ((r : JoinRequest)
        → select (is_join_request id) s.tables.join_requests ≡ some r
        → (r.to_user ≢ user_id) × (r.from_user ≢ user_id))
    → ((is_ok (accept_join_request id user_id s).0 ≡ false)
        × ((accept_join_request id user_id s).1.tables ≡ s.tables))
      × (((is_ok (reject_join_request id user_id s).0 ≡ false)
            × ((reject_join_request id user_id s).1.tables ≡ s.tables))
          × ((is_ok (delete_join_request id user_id s).0 ≡ false)
              × ((delete_join_request id user_id s).1.tables ≡ s.tables)))
unfolding accept_join_request reject_join_request delete_join_request find_request
reply_needs_party id user_id s stranger =
    elim (Option-cases (select (is_join_request id) s.tables.join_requests)) [
      | inl no_row ↦ (
        (ground (arith, no_row), ground (arith, no_row)),
        (
          (ground (arith, no_row), ground (arith, no_row)),
          (ground (arith, no_row), ground (arith, no_row)),
        ),
      )
      | inr (r, at) ↦
          let (not_to, not_from) = stranger r at in
          (
            (ground (arith, at, not_to), ground (arith, at, not_to)),
            (
              (ground (arith, at, not_to), ground (arith, at, not_to)),
              (ground (arith, at, not_from), ground (arith, at, not_from)),
            ),
          )
    ]

-- Where the sender has no dynasty, AcceptJoinRequest errs but leaves the request accepted, with no
-- member added.
pub accept_join_request_stranded :
    (id user_id : ℕ) (r : JoinRequest) (s : Server Tables)
    → ((n : ℕ) → s.fails n ≡ false)
    → select (is_join_request id) s.tables.join_requests ≡ some r
    → r.to_user ≡ user_id
    → select (of_owner r.from_user) s.tables.dynasties ≡ none
    → ((accept_join_request id user_id s).0 ≡ err no_dynasty)
      × ((accept_join_request id user_id s).1.tables
          ≡ set_status id RequestStatus.accepted s.tables)
unfolding accept_join_request find_request admit add_member set_status
accept_join_request_stranded id user_id r s up at own gone = (
  ground (arith, up s.calls, up (s.calls + 1), up (s.calls + 1 + 1), at, own, gone),
  ground (arith, up s.calls, up (s.calls + 1), up (s.calls + 1 + 1), at, own, gone),
)

send_join_request-sent :
    (from_user to_user : ℕ) (relationship : Relationship) (s : Server Tables)
    → ((n : ℕ) → s.fails n ≡ false)
    → send_join_request from_user to_user relationship none s ≡ (
      ok s.tables.next_request_id,
      record s {
        tables = insert_request from_user to_user relationship s.tables;
        calls = s.calls + 1 + 1;
      },
    )
unfolding send_join_request check_permissions store_permissions exec_id
send_join_request-sent from_user to_user relationship s up =
    ground (arith, up s.calls, up (s.calls + 1))

-- A request that is sent without permissions is found again by its receiver as it was sent, and
-- deleting it leaves the requests as they were, on a server where no call fails.
pub delete_join_request-send_join_request :
    (from_user to_user : ℕ) (relationship : Relationship) (s : Server Tables)
    → ((n : ℕ) → s.fails n ≡ false)
    → count (is_join_request s.tables.next_request_id) s.tables.join_requests ≡ 0
    → let id = s.tables.next_request_id in
      let sent = send_join_request from_user to_user relationship none s in
      (sent.0 ≡ ok id)
      × (((get_join_request id to_user sent.1).0
            ≡ ok (new_request id from_user to_user relationship))
          × (((delete_join_request id from_user sent.1).0 ≡ ok tt)
              × ((delete_join_request id from_user sent.1).1.tables.join_requests
                  ≡ s.tables.join_requests)))
unfolding get_join_request delete_join_request find_request insert_request delete_request
    new_request
delete_join_request-send_join_request from_user to_user relationship s up new =
    let id = s.tables.next_request_id in
    let sent = send_join_request-sent from_user to_user relationship s up in
    let request : JoinRequest = new_request id from_user to_user relationship in
    let at =
      select-append_new (is_join_request id) s.tables.join_requests request new (==_refl id) in
    let back =
      delete-append_last (is_join_request id) s.tables.join_requests request new (==_refl id) in
    (
      ap (λ p. p.0) sent,
      (
        ap (λ p. (get_join_request id to_user p.1).0) sent
            ∙ ground (arith, up (s.calls + 1 + 1), at),
        (
          ap (λ p. (delete_join_request id from_user p.1).0) sent
              ∙ ground (arith, up (s.calls + 1 + 1), up (s.calls + 1 + 1 + 1), at),
          ap (λ p. (delete_join_request id from_user p.1).1.tables.join_requests) sent
              ∙ ground (arith, up (s.calls + 1 + 1), up (s.calls + 1 + 1 + 1), at, back),
        ),
      ),
    )

abbrev pub member_of : Family → ℕ → JoinRequest → FamilyMember
member_of f user_id r = record {
  family_id = f.id;
  user_id = user_id;
  relationship = r.relationship;
}

select-set_status :
    (id : ℕ) (status : RequestStatus) (r : JoinRequest) (t : Tables)
    → select (is_join_request id) t.join_requests ≡ some r
    → select (is_join_request id) (set_status id status t).join_requests
      ≡ some (record r { status = status })
unfolding set_status
select-set_status id status r t at = ground (
  arith,
  at,
  select-update (is_join_request id) (is_join_request id) (λ r. record r { status = status })
      t.join_requests (λ r. refl),
  select-test (is_join_request id) t.join_requests r at,
)

reject_join_request-keeps :
    (id user_id : ℕ) (r : JoinRequest) (s : Server Tables)
    → ((n : ℕ) → s.fails n ≡ false)
    → select (is_join_request id) s.tables.join_requests ≡ some r
    → r.to_user ≡ user_id
    → ((reject_join_request id user_id s).0 ≡ ok tt)
      × ((reject_join_request id user_id s).1.tables.family_members ≡ s.tables.family_members)
      × ((reject_join_request id user_id s).1.tables.join_requests
          ≡ (set_status id RequestStatus.rejected s.tables).join_requests)
unfolding reject_join_request find_request set_status
reject_join_request-keeps id user_id r s up at own = (
  ground (arith, up s.calls, up (s.calls + 1), at, own),
  ground (arith, up s.calls, up (s.calls + 1), at, own),
  ground (arith, up s.calls, up (s.calls + 1), at, own),
)

-- After an acceptance of a request, on servers where no call fails, the policy refuses to accept and
-- to reject it, but the code does not ask the policy: accepting it again adds the same member to the
-- family once more, and rejecting it marks it as rejected while the member stays.
pub accept_join_request_again :
    (id user_id : ℕ) (r : JoinRequest) (d : DynastyRow) (f : Family) (s later : Server Tables)
    → ((n : ℕ) → s.fails n ≡ false)
    → ((n : ℕ) → later.fails n ≡ false)
    → select (is_join_request id) s.tables.join_requests ≡ some r
    → r.to_user ≡ user_id
    → select (of_owner r.from_user) s.tables.dynasties ≡ some d
    → select (of_dynasty d.id) s.tables.families ≡ some f
    → later.tables ≡ (accept_join_request id user_id s).1.tables
    → (can_accept user_id (record r { status = RequestStatus.accepted }) ≡ false)
      × (can_reject user_id (record r { status = RequestStatus.accepted }) ≡ false)
      × (((accept_join_request id user_id later).0 ≡ ok tt)
          × (((accept_join_request id user_id later).1.tables.family_members
                ≡ (s.tables.family_members ++ (member_of f user_id r ∷ []))
                  ++ (member_of f user_id r ∷ []))
              × (((reject_join_request id user_id later).0 ≡ ok tt)
                  × ((reject_join_request id user_id later).1.tables.family_members
                      ≡ s.tables.family_members ++ (member_of f user_id r ∷ []))
                  × (select
                        (is_join_request id)
                        (reject_join_request id user_id later).1.tables.join_requests
                      ≡ some (record r { status = RequestStatus.rejected })))))
unfolding can_accept can_reject is_pending_status
accept_join_request_again id user_id r d f s later up up_later at own dyn fam same =
    let (_, does) = accept_join_request-Admitted id user_id r d f s up at own dyn fam in
    let accepted_row : JoinRequest = record r { status = RequestStatus.accepted } in
    let at_later : select (is_join_request id) later.tables.join_requests ≡ some accepted_row =
      ap (λ t. select (is_join_request id) t.join_requests) same
      ∙ (ap (select (is_join_request id)) does.join_requests
          ∙ select-set_status id RequestStatus.accepted r s.tables at) in
    let members = ap (λ t. t.family_members) same ∙ does.family_members in
    let (answers, again) =
      accept_join_request-Admitted id user_id accepted_row d f later up_later at_later own
        (ap (λ t. select (of_owner r.from_user) t.dynasties) same
          ∙ (ap (select (of_owner r.from_user)) does.dynasties ∙ dyn))
        (ap (λ t. select (of_dynasty d.id) t.families) same
          ∙ (ap (select (of_dynasty d.id)) does.families ∙ fam)) in
    let (rejects, keeps, marks) =
      reject_join_request-keeps id user_id accepted_row later up_later at_later own in
    (
      ground arith,
      ground arith,
      (
        answers,
        (
          again.family_members ∙ ap (λ l. l ++ (member_of f user_id r ∷ [])) members,
          (
            rejects,
            keeps ∙ members,
            ap (select (is_join_request id)) marks
                ∙ select-set_status id RequestStatus.rejected accepted_row later.tables at_later,
          ),
        ),
      ),
    )

-- A request for an offspring under 18, on a server where no call fails, records the permissions as
-- they were sent, under the receiver's id: a sender who sends them as verified has them verified
-- before the receiver has answered.
pub send_join_request_verifies :
    (from_user to_user : ℕ) (p : ChildPermission) (s : Server Tables)
    → ((n : ℕ) → s.fails n ≡ false)
    → check_user_age to_user s.tables ≡ true
    → let sent = send_join_request from_user to_user Relationship.offspring (some p) s in
      (sent.0 ≡ ok s.tables.next_request_id)
      × (sent.1.tables.children_permissions
          ≡ s.tables.children_permissions
            ++ (record { user_id = to_user; verified = p.verified; allowed = p.allowed } ∷ []))
unfolding send_join_request check_permissions store_permissions exec_id insert_child insert_request
    code
send_join_request_verifies from_user to_user p s up young = (
  ground (arith, up s.calls, up (s.calls + 1), up (s.calls + 2), up (s.calls + 3), young),
  ground (arith, up s.calls, up (s.calls + 1), up (s.calls + 2), up (s.calls + 3), young),
)
