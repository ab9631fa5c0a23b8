-- ===== src/Dynasty/Validation.antt =====
-- services/dynasty-service/internal/validation/family_validator.go with
-- repository/validation_repository.go, and SendJoinRequest of
-- service/join_request_service_enhanced.go, which no command constructs.
use metaverse_rang_microserv.Common.{
  ℕ, ◌+◌, ◌≡◌, ◌≢◌, ◌↔◌, refl, Bool, true, false, not, ◌&&◌, Option, none, some, List, arith, leb,
  ◌==◌, if◌then◌else◌,
}
use metaverse_rang_microserv.Common.Table.{select, count}
use metaverse_rang_microserv.Common.Server.{
  Server, Action, ok, err, pure, query, raise_if, ◌>>=◌, ◌>>◌,
}
use metaverse_rang_microserv.Dynasty.{
  Relationship, same_relationship, RequestStatus, FamilyMember, JoinRequest, Tables, of_owner,
  of_child,
}

-- the errors of the validator, one for each message
pub data ValidationError : Type 0 where
  query_failed dm_permission self_request no_dynasty_founded already_sent already_rejected :
      ValidationError
  already_member limit_reached invalid_relationship : ValidationError

abbrev pub ValidationAction : Type 0 → Type 0
ValidationAction = Action Tables ValidationError

unfoldable pub has_status : RequestStatus → RequestStatus → Bool
has_status RequestStatus.pending RequestStatus.pending = true
has_status RequestStatus.accepted RequestStatus.accepted = true
has_status RequestStatus.rejected RequestStatus.rejected = true
has_status _ _ = false

-- `SELECT EXISTS`
abbrev pub exists : {A : Type 0} → (A → Bool) → List A → Bool
exists p l = not (count p l == 0)

unfoldable pub is_between : ℕ → ℕ → RequestStatus → JoinRequest → Bool
is_between from_user to_user status r =
    r.from_user == from_user && (r.to_user == to_user && has_status r.status status)

unfoldable pub check_request : ℕ → ℕ → RequestStatus → Tables → Bool
check_request from_user to_user status t =
    exists (is_between from_user to_user status) t.join_requests

unfoldable pub is_member_of_any : ℕ → FamilyMember → Bool
is_member_of_any user_id f =
    f.user_id == user_id && not (same_relationship f.relationship Relationship.owner)

unfoldable pub check_user_in_family : ℕ → Tables → Bool
check_user_in_family user_id t = exists (is_member_of_any user_id) t.family_members

unfoldable pub check_user_has_dynasty : ℕ → Tables → Bool
check_user_has_dynasty user_id t = exists (of_owner user_id) t.dynasties

-- `verified AND DM`, and no where there is no row
unfoldable pub check_user_dm_permission : ℕ → Tables → Bool
check_user_dm_permission user_id t = elim (select (of_child user_id) t.children_permissions) [
  | none ↦ false
  | some p ↦ p.verified && p.allowed.dm
]

unfoldable pub is_relative : ℕ → Relationship → FamilyMember → Bool
is_relative family_id relationship f =
    f.family_id == family_id && same_relationship f.relationship relationship

unfoldable pub count_relatives : ℕ → Relationship → Tables → ℕ
count_relatives family_id relationship t =
    count (is_relative family_id relationship) t.family_members

unfoldable pub check_permission : ℕ → Bool → ValidationAction (Unit {0})
check_permission sender true =
    query query_failed (check_user_dm_permission sender) >>= λ may. raise_if (not may) dm_permission
check_permission sender false = pure tt

unfoldable pub validate_add_family_member : ℕ → ℕ → Bool → ValidationAction (Unit {0})
unfolding check_permission
validate_add_family_member sender receiver is_under_18 = do
  check_permission sender is_under_18
  raise_if (sender == receiver) self_request
  founded ← query query_failed (check_user_has_dynasty sender)
  raise_if (not founded) no_dynasty_founded
  sent ← query query_failed (check_request sender receiver RequestStatus.pending)
  raise_if sent already_sent
  refused ← query query_failed (check_request sender receiver RequestStatus.rejected)
  raise_if refused already_rejected
  in_family ← query query_failed (check_user_in_family receiver)
  raise_if in_family already_member

-- the table `limits`
unfoldable pub relationship_limit : Relationship → Option ℕ
relationship_limit Relationship.father = some 1
relationship_limit Relationship.mother = some 1
relationship_limit Relationship.husband = some 1
relationship_limit Relationship.wife = some 4
relationship_limit Relationship.offspring = some 4
relationship_limit _ = none

unfoldable pub check_limit : ℕ → Relationship → Option ℕ → ValidationAction (Unit {0})
check_limit family_id relationship none = pure tt
check_limit family_id relationship (some max) =
    query query_failed (count_relatives family_id relationship) >>= λ n.
    raise_if (leb max n) limit_reached

unfoldable pub validate_relationship_limits : ℕ → Relationship → ValidationAction (Unit {0})
unfolding check_limit
validate_relationship_limits family_id relationship =
    check_limit family_id relationship (relationship_limit relationship)

unfoldable pub is_valid_relationship : Relationship → Bool
is_valid_relationship Relationship.owner = false
is_valid_relationship (Relationship.other n) = false
is_valid_relationship _ = true

unfoldable pub validate_relationship : Relationship → ValidationAction (Unit {0})
validate_relationship relationship =
    raise_if (not (is_valid_relationship relationship)) invalid_relationship

-- the rules after the one on permissions
pub record Rules (sender receiver : ℕ) (t : Tables) : Type 0 where
  pub other_user : sender ≢ receiver
  pub founded : check_user_has_dynasty sender t ≡ true
  pub not_sent : check_request sender receiver RequestStatus.pending t ≡ false
  pub not_refused : check_request sender receiver RequestStatus.rejected t ≡ false
  pub free : check_user_in_family receiver t ≡ false

-- The rules of the validator, as statements on the tables.
pub record IsAllowed (sender receiver : ℕ) (is_under_18 : Bool) (t : Tables) : Type 0 where
  pub may : is_under_18 ≡ true → check_user_dm_permission sender t ≡ true
  pub rules : Rules sender receiver t

validate-Rules :
    (sender receiver : ℕ) (s : Server Tables)
    → ((n : ℕ) → s.fails n ≡ false)
    → (((validate_add_family_member sender receiver false s).0 ≡ ok tt)
        ↔ Rules sender receiver s.tables)
      × ((validate_add_family_member sender receiver false s).1.tables ≡ s.tables)
unfolding validate_add_family_member check_permission
validate-Rules sender receiver s up = (
  (
    λ h. record {
      other_user = λ e. ground (arith, h, e);
      founded = ground (
        arith,
        h,
        up s.calls,
        up (s.calls + 1),
        up (s.calls + 2),
        up (s.calls + 3),
        up (s.calls + 4),
      );
      not_sent = ground (
        arith,
        h,
        up s.calls,
        up (s.calls + 1),
        up (s.calls + 2),
        up (s.calls + 3),
        up (s.calls + 4),
      );
      not_refused = ground (
        arith,
        h,
        up s.calls,
        up (s.calls + 1),
        up (s.calls + 2),
        up (s.calls + 3),
        up (s.calls + 4),
      );
      free = ground (
        arith,
        h,
        up s.calls,
        up (s.calls + 1),
        up (s.calls + 2),
        up (s.calls + 3),
        up (s.calls + 4),
      );
    },
    λ r. ground (
      arith,
      up s.calls,
      up (s.calls + 1),
      up (s.calls + 2),
      up (s.calls + 3),
      up (s.calls + 4),
      r.other_user,
      r.founded,
      r.not_sent,
      r.not_refused,
      r.free,
    ),
  ),
  ground
      (arith, up s.calls, up (s.calls + 1), up (s.calls + 2), up (s.calls + 3), up (s.calls + 4)),
)

-- a sender under 18 is asked for the permission first
validate-permission :
    (sender receiver : ℕ) (s : Server Tables)
    → ((n : ℕ) → s.fails n ≡ false)
    → validate_add_family_member sender receiver true s ≡ (
        if check_user_dm_permission sender s.tables
        then validate_add_family_member sender receiver false (record s { calls = s.calls + 1 })
        else (err dm_permission, record s { calls = s.calls + 1 }))
unfolding validate_add_family_member check_permission
validate-permission sender receiver s up = ground (arith, up s.calls)

-- The validator lets a request pass on a server where no call fails exactly if all of its rules
-- hold, and never changes a table.
pub validate_add_family_member-IsAllowed :
    (sender receiver : ℕ) (is_under_18 : Bool) (s : Server Tables)
    → ((n : ℕ) → s.fails n ≡ false)
    → (((validate_add_family_member sender receiver is_under_18 s).0 ≡ ok tt)
        ↔ IsAllowed sender receiver is_under_18 s.tables)
      × ((validate_add_family_member sender receiver is_under_18 s).1.tables ≡ s.tables)
validate_add_family_member-IsAllowed sender receiver false s up =
    let (same, kept) = validate-Rules sender receiver s up in
    (
      (λ h. let r = same.0 h in record { may = λ e. ground arith; rules = r }, λ a. same.1 a.rules),
      kept,
    )
validate_add_family_member-IsAllowed sender receiver true s up =
    let s' : Server Tables = record s { calls = s.calls + 1 } in
    let asks = validate-permission sender receiver s up in
    let (same, kept) = validate-Rules sender receiver s' up in
    (
      (
        λ h.
            let r = same.0 (ground (arith, asks, h)) in
            record { may = λ e. ground (arith, asks, h); rules = r },
        λ a. let passes = same.1 a.rules in ground (arith, asks, passes, a.may refl),
      ),
      ground (arith, asks, kept),
    )
