-- ===== src/Dynasty/Requests.antt =====
-- services/dynasty-service/internal/service: dynasty_service.go CreateDynasty and
-- join_request_service.go, with policy/join_request_policy.go.
use metaverse_rang_microserv.Common.{
  ℕ, Bool, true, false, not, ◌&&◌, Option, none, some, ◌==◌, if◌then◌else◌,
}
use metaverse_rang_microserv.Common.Table.{select}
use metaverse_rang_microserv.Common.Server.{
  pure, raise, or_raise, query, query_or, exec, try_exec, raise_if, ◌>>=◌, ◌>>◌,
}
use metaverse_rang_microserv.Dynasty.{
  Relationship, same_relationship, RequestStatus, JoinRequest, Permissions, ChildPermission,
  DynastyPrize, Tables, db_error, not_found, unauthorized, no_dynasty, nil_family, over_18,
  has_dynasty, DynastyAction, is_join_request, of_owner, of_dynasty, of_child, insert_dynasty,
  insert_family, insert_member, insert_request, set_status, delete_request, insert_child,
  verify_child, insert_prize, check_user_age, first,
}

-- an INSERT whose id the caller takes from LastInsertId
unfoldable pub exec_id : (Tables → ℕ) → (Tables → Tables) → DynastyAction ℕ
exec_id next f s = (exec db_error f >> pure (next s.tables)) s

unfoldable pub found_dynasty : ℕ → ℕ → DynastyAction (ℕ × ℕ)
unfolding exec_id
found_dynasty user_id feature_id = do
  dynasty ← exec_id (λ t. t.next_dynasty_id) (insert_dynasty user_id feature_id)
  family ← exec_id (λ t. t.next_family_id) (insert_family dynasty)
  exec db_error (insert_member family user_id Relationship.owner)
  pure (dynasty, family)

-- `CreateDynasty`: the ids of the dynasty and of its family
unfoldable pub create_dynasty : ℕ → ℕ → DynastyAction (ℕ × ℕ)
unfolding found_dynasty
create_dynasty user_id feature_id = do
  existing ← query db_error (λ t. select (of_owner user_id) t.dynasties)
  elim existing [ none ↦ found_dynasty user_id feature_id | some d ↦ raise has_dynasty ]

-- `SendJoinRequest`: the guard on permissions, and the record of them, verified or not as the
-- request says and under the receiver's id
unfoldable pub check_permissions :
    ℕ → Relationship → Option ChildPermission → DynastyAction (Unit {0})
check_permissions to_user relationship none = pure tt
check_permissions to_user relationship (some p) =
    if same_relationship relationship Relationship.offspring
    then (query db_error (check_user_age to_user) >>= λ young. raise_if (not young) over_18)
    else pure tt

unfoldable pub store_permissions :
    ℕ → Relationship → Option ChildPermission → DynastyAction (Unit {0})
store_permissions to_user relationship none = pure tt
store_permissions to_user relationship (some p) =
    if same_relationship relationship Relationship.offspring
    then exec db_error (insert_child to_user p.verified p.allowed)
    else pure tt

-- The message of the receiver is read before the request is recorded.
unfoldable pub send_join_request : ℕ → ℕ → Relationship → Option ChildPermission → DynastyAction ℕ
unfolding check_permissions store_permissions exec_id
send_join_request from_user to_user relationship permissions = do
  check_permissions to_user relationship permissions
  query db_error (λ t. tt)
  id ← exec_id (λ t. t.next_request_id) (insert_request from_user to_user relationship)
  store_permissions to_user relationship permissions
  pure id

-- `GetJoinRequestByID` and the test for nil
unfoldable pub find_request : ℕ → DynastyAction JoinRequest
find_request id = do
  request ← query db_error (λ t. select (is_join_request id) t.join_requests)
  or_raise request not_found

unfoldable pub get_join_request : ℕ → ℕ → DynastyAction JoinRequest
unfolding find_request
get_join_request id user_id = do
  request ← find_request id
  raise_if (not (request.from_user == user_id) && not (request.to_user == user_id)) unauthorized
  pure request

-- `AcceptJoinRequest`: the dynasty of the one who asked, its family, and the new member
unfoldable pub add_member : JoinRequest → ℕ → DynastyAction (Unit {0})
add_member request user_id = do
  dynasty ← query db_error (λ t. select (of_owner request.from_user) t.dynasties)
  d ← or_raise dynasty no_dynasty
  family ← query db_error (λ t. select (of_dynasty d.id) t.families)
  f ← or_raise family nil_family
  exec db_error (insert_member f.id user_id request.relationship)

unfoldable pub give_default : ℕ → Option Permissions → DynastyAction (Unit {0})
give_default user_id none = pure tt
give_default user_id (some allowed) = try_exec (insert_child user_id true allowed)

unfoldable pub verify_existing : ℕ → Option ChildPermission → DynastyAction (Unit {0})
verify_existing user_id none = pure tt
verify_existing user_id (some p) = try_exec (verify_child user_id p)

unfoldable pub grant_by_age : JoinRequest → ℕ → Bool → Bool → DynastyAction (Unit {0})
unfolding give_default verify_existing
grant_by_age request user_id requester_young receiver_young =
    if requester_young && same_relationship request.relationship Relationship.father
    then (query_or none (λ t. first t.dynasty_permissions) >>= give_default request.from_user)
    else if receiver_young && same_relationship request.relationship Relationship.offspring
    then (query_or none (λ t. select (of_child user_id) t.children_permissions)
        >>= verify_existing user_id)
    else pure tt

unfoldable pub grant_permissions : JoinRequest → ℕ → DynastyAction (Unit {0})
unfolding grant_by_age
grant_permissions request user_id = do
  requester_young ← query_or false (check_user_age request.from_user)
  receiver_young ← query_or false (check_user_age user_id)
  grant_by_age request user_id requester_young receiver_young

unfoldable pub give_prize : ℕ → Option DynastyPrize → DynastyAction (Unit {0})
give_prize user_id none = pure tt
give_prize user_id (some prize) = try_exec (insert_prize user_id prize.id)

unfoldable pub award_prize : JoinRequest → ℕ → DynastyAction (Unit {0})
unfolding give_prize
award_prize request user_id =
    query_or none
      (λ t. select (λ p. same_relationship p.member request.relationship) t.dynasty_prizes)
    >>= give_prize user_id

-- `AcceptJoinRequest` once the request is known to be the user's
unfoldable pub admit : ℕ → JoinRequest → ℕ → DynastyAction (Unit {0})
unfolding add_member
admit id request user_id = do
  exec db_error (set_status id RequestStatus.accepted)
  add_member request user_id
  grant_permissions request user_id
  award_prize request user_id

unfoldable pub accept_join_request : ℕ → ℕ → DynastyAction (Unit {0})
unfolding find_request admit
accept_join_request id user_id = do
  request ← find_request id
  raise_if (not (request.to_user == user_id)) unauthorized
  admit id request user_id

unfoldable pub reject_join_request : ℕ → ℕ → DynastyAction (Unit {0})
unfolding find_request
reject_join_request id user_id = do
  request ← find_request id
  raise_if (not (request.to_user == user_id)) unauthorized
  exec db_error (set_status id RequestStatus.rejected)

unfoldable pub delete_join_request : ℕ → ℕ → DynastyAction (Unit {0})
unfolding find_request
delete_join_request id user_id = do
  request ← find_request id
  raise_if (not (request.from_user == user_id)) unauthorized
  exec db_error (delete_request id)
