-- ===== src/Dynasty.antt =====
-- services/dynasty-service/internal: dynasties, the requests to join one and the prizes, with the
-- statements of the repositories. The notifications, which are sent last and change no table, the
-- lists, and the columns created_at and updated_at are left out; the nil pointer that a missing
-- family gives is the error `nil_family`.
pub mod Requests
pub mod Prizes
pub mod Founding
pub mod Admission
pub mod Replies
pub mod Validation
pub mod Limits
mod Tests
use metaverse_rang_microserv.Common.{
  ℕ, ◌+◌, Bool, true, false, Option, none, some, List, [], ◌∷◌, ◌++◌, ◌==◌, if◌then◌else◌,
}
use metaverse_rang_microserv.Common.Table.{select, update, delete}
use metaverse_rang_microserv.Common.Server.{Action}

-- the text of the column `relationship`, `other` any text that the code does not name
pub data Relationship : Type 0 where
  owner father mother offspring husband wife brother sister : Relationship
  other : ℕ → Relationship

unfoldable pub code : Relationship → ℕ
code Relationship.owner = 0
code Relationship.father = 1
code Relationship.mother = 2
code Relationship.offspring = 3
code Relationship.husband = 4
code Relationship.wife = 5
code Relationship.brother = 6
code Relationship.sister = 7
code (Relationship.other n) = 8 + n

-- equality of two texts
abbrev pub same_relationship : Relationship → Relationship → Bool
same_relationship a b = code a == code b

-- 0, 1 and -1
pub data RequestStatus : Type 0 where
  pending accepted rejected : RequestStatus

pub record DynastyRow : Type 0 where
  pub id : ℕ
  pub user_id : ℕ
  pub feature_id : ℕ

pub record Family : Type 0 where
  pub id : ℕ
  pub dynasty_id : ℕ

pub record FamilyMember : Type 0 where
  pub family_id : ℕ
  pub user_id : ℕ
  pub relationship : Relationship

pub record JoinRequest : Type 0 where
  pub id : ℕ
  pub from_user : ℕ
  pub to_user : ℕ
  pub status : RequestStatus
  pub relationship : Relationship

pub record Permissions : Type 0 where
  pub bfr : Bool
  pub sf : Bool
  pub w : Bool
  pub ju : Bool
  pub dm : Bool
  pub piup : Bool
  pub pitc : Bool
  pub pic : Bool
  pub esoo : Bool
  pub cotb : Bool

pub record ChildPermission : Type 0 where
  pub user_id : ℕ
  pub verified : Bool
  pub allowed : Permissions

-- whether the birthdate in the table kycs is less than 18 years ago
pub record Kyc : Type 0 where
  pub user_id : ℕ
  pub under_18 : Bool

-- the three multipliers are numbers of the quanta that the prizes are given in
pub record DynastyPrize : Type 0 where
  pub id : ℕ
  pub member : Relationship
  pub satisfaction : ℕ
  pub introduction_profit_increase : ℕ
  pub accumulated_capital_reserve : ℕ
  pub data_storage : ℕ
  pub psc : ℕ

pub record ReceivedPrize : Type 0 where
  pub id : ℕ
  pub user_id : ℕ
  pub prize_id : ℕ

pub record UserVariable : Type 0 where
  pub user_id : ℕ
  pub referral_profit : ℕ
  pub data_storage : ℕ
  pub withdraw_profit : ℕ

-- what the wallet service is asked to credit: `psc / rate` of PSC, or satisfaction
pub data Credit : Type 0 where
  psc_credit : ℕ → ℕ → ℕ → Credit
  satisfaction_credit : ℕ → ℕ → Credit

-- `psc_prices` has the prices of the rows of `variables` for the asset psc.
pub record Tables : Type 0 where
  pub dynasties : List DynastyRow
  pub families : List Family
  pub family_members : List FamilyMember
  pub join_requests : List JoinRequest
  pub children_permissions : List ChildPermission
  pub dynasty_permissions : List Permissions
  pub kycs : List Kyc
  pub dynasty_prizes : List DynastyPrize
  pub received_prizes : List ReceivedPrize
  pub user_variables : List UserVariable
  pub credits : List Credit
  pub psc_prices : List ℕ
  pub next_dynasty_id : ℕ
  pub next_family_id : ℕ
  pub next_request_id : ℕ
  pub next_prize_id : ℕ

pub data Error : Type 0 where
  db_error not_found unauthorized no_dynasty nil_family over_18 has_dynasty wallet_error : Error

abbrev pub DynastyAction : Type 0 → Type 0
DynastyAction = Action Tables Error

-- the tests of the WHERE clauses
abbrev pub is_join_request : ℕ → JoinRequest → Bool
is_join_request id r = r.id == id

abbrev pub of_owner : ℕ → DynastyRow → Bool
of_owner user_id d = d.user_id == user_id

abbrev pub of_dynasty : ℕ → Family → Bool
of_dynasty dynasty_id f = f.dynasty_id == dynasty_id

abbrev pub of_child : ℕ → ChildPermission → Bool
of_child user_id p = p.user_id == user_id

unfoldable pub insert_dynasty : ℕ → ℕ → Tables → Tables
insert_dynasty user_id feature_id t = record t {
  dynasties =
      t.dynasties
      ++ (record { id = t.next_dynasty_id; user_id = user_id; feature_id = feature_id } ∷ []);
  next_dynasty_id = t.next_dynasty_id + 1;
}

unfoldable pub insert_family : ℕ → Tables → Tables
insert_family dynasty_id t = record t {
  families = t.families ++ (record { id = t.next_family_id; dynasty_id = dynasty_id } ∷ []);
  next_family_id = t.next_family_id + 1;
}

unfoldable pub insert_member : ℕ → ℕ → Relationship → Tables → Tables
insert_member family_id user_id relationship t = record t {
  family_members =
      t.family_members
      ++ (record { family_id = family_id; user_id = user_id; relationship = relationship } ∷ []);
}

unfoldable pub new_request : ℕ → ℕ → ℕ → Relationship → JoinRequest
new_request id from_user to_user relationship = record {
  id = id;
  from_user = from_user;
  to_user = to_user;
  status = RequestStatus.pending;
  relationship = relationship;
}

unfoldable pub insert_request : ℕ → ℕ → Relationship → Tables → Tables
insert_request from_user to_user relationship t = record t {
  join_requests =
      t.join_requests ++ (new_request t.next_request_id from_user to_user relationship ∷ []);
  next_request_id = t.next_request_id + 1;
}

unfoldable pub set_status : ℕ → RequestStatus → Tables → Tables
set_status id status t = record t {
  join_requests = update (is_join_request id) (λ r. record r { status = status }) t.join_requests;
}

unfoldable pub delete_request : ℕ → Tables → Tables
delete_request id t = record t { join_requests = delete (is_join_request id) t.join_requests }

unfoldable pub insert_child : ℕ → Bool → Permissions → Tables → Tables
insert_child user_id verified allowed t = record t {
  children_permissions =
      t.children_permissions
      ++ (record { user_id = user_id; verified = verified; allowed = allowed } ∷ []);
}

-- every row of the user takes the values of `p`, verified
unfoldable pub verify_child : ℕ → ChildPermission → Tables → Tables
verify_child user_id p t = record t {
  children_permissions =
      update (of_child user_id) (λ c. record c { verified = true; allowed = p.allowed })
        t.children_permissions;
}

unfoldable pub insert_prize : ℕ → ℕ → Tables → Tables
insert_prize user_id prize_id t = record t {
  received_prizes =
      t.received_prizes
      ++ (record { id = t.next_prize_id; user_id = user_id; prize_id = prize_id } ∷ []);
  next_prize_id = t.next_prize_id + 1;
}

-- `CheckUserAge`: no row is no
unfoldable pub check_user_age : ℕ → Tables → Bool
check_user_age user_id t = elim (select (λ k. k.user_id == user_id) t.kycs) [
  | none ↦ false
  | some k ↦ k.under_18
]

abbrev pub first : {A : Type 0} → List A → Option A
first [] = none
first (a ∷ l) = some a
