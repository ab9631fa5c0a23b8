-- ===== src/Dynasty/Limits.antt =====
-- services/dynasty-service/internal/validation/family_validator.go: the limits on the members of a
-- family, and AcceptJoinRequest of service/join_request_service.go, which does not ask for them.
use metaverse_rang_microserv.Common.{
  ℕ, ◌+◌, ◌≤◌, ◌≡◌, ap, ◌∙◌, false, some, List, [], ◌∷◌, ◌++◌, arith, ==_refl,
}
use metaverse_rang_microserv.Common.Table.{select, count}
use metaverse_rang_microserv.Common.Table.Laws.{count-append, count_single}
use metaverse_rang_microserv.Common.Server.{Server, ok}
use metaverse_rang_microserv.Dynasty.{
  Relationship, code, DynastyRow, Family, FamilyMember, JoinRequest, Tables, is_join_request,
  of_owner, of_dynasty, insert_member,
}
use metaverse_rang_microserv.Dynasty.Requests.{accept_join_request}
use metaverse_rang_microserv.Dynasty.Admission.{accept_join_request-Admitted}
use metaverse_rang_microserv.Dynasty.Validation.{
  is_relative, count_relatives, relationship_limit, check_limit, validate_relationship_limits,
}

count_relatives-append :
    (family_id user_id : ℕ) (relationship : Relationship) (l : List FamilyMember)
    → count (is_relative family_id relationship) (
        l
        ++ (record { family_id = family_id; user_id = user_id; relationship = relationship } ∷ []))
      ≡ count (is_relative family_id relationship) l + 1
unfolding is_relative
count_relatives-append family_id user_id relationship l =
    let member : FamilyMember = record {
      family_id = family_id;
      user_id = user_id;
      relationship = relationship;
    } in
    ground (
      arith,
      count-append (is_relative family_id relationship) l (member ∷ []),
      count_single (is_relative family_id relationship) member,
      ==_refl family_id,
      ==_refl (code relationship),
    )

-- A member who is added after the validator has let the relationship pass keeps the family within
-- the limit of that relationship, whichever calls fail.
pub validate_relationship_limits_keeps :
    (family_id user_id max : ℕ) (relationship : Relationship) (s : Server Tables)
    → relationship_limit relationship ≡ some max
    → (validate_relationship_limits family_id relationship s).0 ≡ ok tt
    → count_relatives family_id relationship (insert_member family_id user_id relationship s.tables)
      ≤ max
unfolding validate_relationship_limits check_limit count_relatives insert_member
validate_relationship_limits_keeps family_id user_id max relationship s has h =
    ground
      (arith, has, h, count_relatives-append family_id user_id relationship s.tables.family_members)

-- AcceptJoinRequest asks for no limit: on a server where no call fails, every acceptance by the
-- receiver raises the number of members under the relationship by one, however many there are.
pub accept_join_request_unlimited :
    (id user_id : ℕ) (r : JoinRequest) (d : DynastyRow) (f : Family) (s : Server Tables)
    → ((n : ℕ) → s.fails n ≡ false)
    → select (is_join_request id) s.tables.join_requests ≡ some r
    → r.to_user ≡ user_id
    → select (of_owner r.from_user) s.tables.dynasties ≡ some d
    → select (of_dynasty d.id) s.tables.families ≡ some f
    → count_relatives f.id r.relationship (accept_join_request id user_id s).1.tables
      ≡ count_relatives f.id r.relationship s.tables + 1
unfolding count_relatives
accept_join_request_unlimited id user_id r d f s up at own dyn fam =
    let (_, does) = accept_join_request-Admitted id user_id r d f s up at own dyn fam in
    ap (count (is_relative f.id r.relationship)) does.family_members
    ∙ count_relatives-append f.id user_id r.relationship s.tables.family_members
