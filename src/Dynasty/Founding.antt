-- ===== src/Dynasty/Founding.antt =====
-- services/dynasty-service/internal/service/dynasty_service.go: founding a dynasty.
use metaverse_rang_microserv.Common.{ℕ, ◌+◌, ◌≤◌, ◌≡◌, true, false, none, [], ◌∷◌, arith, ==_refl}
use metaverse_rang_microserv.Common.Table.{select, count}
use metaverse_rang_microserv.Common.Table.Laws.{
  count-append, count_single, select-append_last, select-none-count,
}
use metaverse_rang_microserv.Common.Server.{Server, ok, err}
use metaverse_rang_microserv.Dynasty.{
  Relationship, Tables, db_error, has_dynasty, of_owner, insert_dynasty, insert_family,
  insert_member,
}
use metaverse_rang_microserv.Dynasty.Requests.{exec_id, found_dynasty, create_dynasty}

-- A user who has no dynasty and whom no call fails gets one: the dynasty, its family and the user
-- as the owner in it are the rows that are added, linked by the ids that are returned.
pub create_dynasty-founds :
    (user_id feature_id : ℕ) (s : Server Tables)
    → ((n : ℕ) → s.fails n ≡ false)
    → select (of_owner user_id) s.tables.dynasties ≡ none
    → ((create_dynasty user_id feature_id s).0
        ≡ ok (s.tables.next_dynasty_id, s.tables.next_family_id))
      × ((create_dynasty user_id feature_id s).1.tables
          ≡ insert_member s.tables.next_family_id user_id Relationship.owner
              (insert_family s.tables.next_dynasty_id (insert_dynasty user_id feature_id s.tables)))
unfolding create_dynasty found_dynasty exec_id insert_dynasty insert_family insert_member
create_dynasty-founds user_id feature_id s up new =
    ground
      (arith, up s.calls, up (s.calls + 1), up (s.calls + 1 + 1), up (s.calls + 1 + 1 + 1), new)

-- Nobody gets a second dynasty, whichever calls fail.
pub create_dynasty-IsUnique :
    (user_id feature_id v : ℕ) (s : Server Tables)
    → count (of_owner v) s.tables.dynasties ≤ 1
    → count (of_owner v) (create_dynasty user_id feature_id s).1.tables.dynasties ≤ 1
unfolding create_dynasty found_dynasty exec_id insert_dynasty insert_family insert_member
create_dynasty-IsUnique user_id feature_id v s one = ground (
  arith,
  select-none-count (of_owner user_id) s.tables.dynasties,
  count-append (of_owner v) s.tables.dynasties
      (record { id = s.tables.next_dynasty_id; user_id = user_id; feature_id = feature_id } ∷ []),
  count_single (of_owner v)
      (record { id = s.tables.next_dynasty_id; user_id = user_id; feature_id = feature_id }),
)

-- Where the family cannot be recorded, CreateDynasty errs and leaves the dynasty without a family;
-- made again with no failure, it refuses the user.
pub create_dynasty_half :
    (user_id feature_id again : ℕ) (s : Server Tables)
    → s.fails s.calls ≡ false
    → s.fails (s.calls + 1) ≡ false
    → s.fails (s.calls + 2) ≡ true
    → s.fails (s.calls + 3) ≡ false
    → select (of_owner user_id) s.tables.dynasties ≡ none
    → ((create_dynasty user_id feature_id s).0 ≡ err db_error)
      × (((create_dynasty user_id feature_id s).1.tables
            ≡ insert_dynasty user_id feature_id s.tables)
          × ((create_dynasty user_id again (create_dynasty user_id feature_id s).1).0
              ≡ err has_dynasty))
unfolding create_dynasty found_dynasty exec_id insert_dynasty insert_family insert_member
create_dynasty_half user_id feature_id again s a b c d new = ground (
  arith,
  select-append_last (of_owner user_id) s.tables.dynasties
      (record { id = s.tables.next_dynasty_id; user_id = user_id; feature_id = feature_id })
      (==_refl user_id),
)
