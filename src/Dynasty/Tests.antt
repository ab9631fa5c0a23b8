-- ===== src/Dynasty/Tests.antt =====
-- The dynasties at concrete inputs.
use metaverse_rang_microserv.Common.{ℕ, ◌≡◌, refl, true, false, none, some, [], ◌∷◌, ◌++◌}
use metaverse_rang_microserv.Common.Table.{select}
use metaverse_rang_microserv.Common.Server.{Server, ok}
use metaverse_rang_microserv.Dynasty.{
  check_user_age, Relationship, RequestStatus, DynastyRow, Family, JoinRequest, DynastyPrize,
  ReceivedPrize, Tables, of_owner, of_dynasty, is_join_request,
}
use metaverse_rang_microserv.Dynasty.Requests.{accept_join_request, reject_join_request}
use metaverse_rang_microserv.Dynasty.Admission.{Admitted, accept_join_request-Admitted}
use metaverse_rang_microserv.Dynasty.Replies.{
  can_reject, can_accept, member_of, accept_join_request_again,
}
use metaverse_rang_microserv.Dynasty.Prizes.{get_received_prize, join_prize}

-- user 1 has a dynasty and asks user 2, whose prize for it is 30 PSC
abbrev founder : DynastyRow
founder = record { id = 10; user_id = 1; feature_id = 77 }

abbrev home : Family
home = record { id = 20; dynasty_id = 10 }

abbrev request : JoinRequest
request = record {
  id = 5;
  from_user = 1;
  to_user = 2;
  status = RequestStatus.pending;
  relationship = Relationship.mother;
}

abbrev prize : DynastyPrize
prize = record {
  id = 8;
  member = Relationship.mother;
  satisfaction = 4;
  introduction_profit_increase = 1;
  accumulated_capital_reserve = 2;
  data_storage = 3;
  psc = 30;
}

abbrev receipt : ReceivedPrize
receipt = record { id = 40; user_id = 2; prize_id = 8 }

abbrev tables : Tables
tables = record {
  dynasties = founder ∷ [];
  families = home ∷ [];
  family_members = [];
  join_requests = request ∷ [];
  children_permissions = [];
  dynasty_permissions = [];
  kycs = [];
  dynasty_prizes = prize ∷ [];
  received_prizes = receipt ∷ [];
  user_variables = [];
  credits = [];
  psc_prices = [];
  next_dynasty_id = 11;
  next_family_id = 21;
  next_request_id = 7;
  next_prize_id = 41;
}

abbrev up : Server Tables
up = record { tables = tables; fails = λ n. false; calls = 0 }

abbrev asked : ℕ
asked = 5

abbrev mother_user : ℕ
mother_user = 2

abbrev no_dynasty_user : ℕ
no_dynasty_user = 4

new_user : select (of_owner no_dynasty_user) tables.dynasties ≡ none
unfolding select
new_user = refl

at : select (is_join_request asked) tables.join_requests ≡ some request
unfolding select
at = refl

dynasty_at : select (of_owner 1) tables.dynasties ≡ some founder
unfolding select
dynasty_at = refl

home_at : select (of_dynasty 10) tables.families ≡ some home
unfolding select
home_at = refl

accept_join_request-Admitted_example :
    ((accept_join_request asked mother_user up).0 ≡ ok tt)
    × Admitted asked mother_user request home tables
        (accept_join_request asked mother_user up).1.tables
accept_join_request-Admitted_example =
    accept_join_request-Admitted asked mother_user request founder home up (λ n. refl) at refl
      dynasty_at home_at

abbrev accepted_once : Server Tables
accepted_once = record {
  tables = (accept_join_request asked mother_user up).1.tables;
  fails = λ n. false;
  calls = 0;
}

accept_join_request_again_example :
    (can_accept mother_user (record request { status = RequestStatus.accepted }) ≡ false)
    × (can_reject mother_user (record request { status = RequestStatus.accepted }) ≡ false)
    × (((accept_join_request asked mother_user accepted_once).0 ≡ ok tt)
        × (((accept_join_request asked mother_user accepted_once).1.tables.family_members
              ≡ (tables.family_members ++ (member_of home mother_user request ∷ []))
                ++ (member_of home mother_user request ∷ []))
            × (((reject_join_request asked mother_user accepted_once).0 ≡ ok tt)
                × ((reject_join_request asked mother_user accepted_once).1.tables.family_members
                    ≡ tables.family_members ++ (member_of home mother_user request ∷ []))
                × (select
                      (is_join_request asked)
                      (reject_join_request asked mother_user accepted_once).1.tables.join_requests
                    ≡ some (record request { status = RequestStatus.rejected })))))
accept_join_request_again_example =
    accept_join_request_again asked mother_user request founder home up accepted_once (λ n. refl)
      (λ n. refl) at refl dynasty_at home_at refl

abbrev receipt_id : ℕ
receipt_id = 40

receipt_at : get_received_prize receipt_id tables ≡ some (receipt, prize)
unfolding get_received_prize join_prize select
receipt_at = refl

abbrev with_kyc : Server Tables
with_kyc = record {
  tables = record tables { kycs = record { user_id = 2; under_18 = true } ∷ [] };
  fails = λ n. false;
  calls = 0;
}

young : check_user_age mother_user with_kyc.tables ≡ true
unfolding check_user_age select
young = refl
