-- ===== src/Social/Tests.antt =====
-- Follows and the challenge at concrete inputs.
use metaverse_rang_microserv.Common.{
  ◌↔◌, ℕ, ◌+◌, ◌≤◌, ◌≡◌, refl, Bool, true, false, ◌&&◌, Option, some, [], ◌∷◌, ◌++◌, arith,
  if◌then◌else◌,
}
use metaverse_rang_microserv.Common.Table.{select, select_all, count}
use metaverse_rang_microserv.Common.Server.{is_ok, Server, ok, err}
use metaverse_rang_microserv.Commercial.Wallet.{Asset}
use metaverse_rang_microserv.Features.Client.Port.{is_at}
use metaverse_rang_microserv.Features.Client.Ledger.{Ledger, open_ledger}
use metaverse_rang_microserv.Social.Follows.{
  FollowPermissions, follow_permissions, remove_follower, follow_permissions-agree, Clients,
  FollowStore, IsProper, none_yet, then_call, follows, is_follow, follow, unfollow, Calls-IsProper,
  follow-unfollow,
}
use metaverse_rang_microserv.Social.Challenges.{
  Question, ChallengeAnswer, UserAnswer, ChallengeStore, ChallengeError, has_question_id,
  has_answer_id, of_question, answers_question, answered_by, submit_answer,
}
use metaverse_rang_microserv.Social.Answers.{
  resources, submit_answer_again, submit_answer-once, submit_answer_pays,
}
use metaverse_rang_microserv.Social.Challenges.{vote_percentage}

abbrev allows : ℕ → ℕ → Option Bool
allows u v = some true

abbrev clients : Clients
clients = record { has_levels = true; can_follow = some allows }

abbrev no_one : Server FollowStore
no_one = record { tables = record { follows = []; recorded = [] }; fails = λ n. false; calls = 0 }

no_follows : (u v : ℕ) → count (is_follow u v) no_one.tables.follows ≡ 0
unfolding count
no_follows u v = refl

abbrev proper : IsProper no_one.tables
proper = record { not_self = λ u. no_follows u u; once = λ u v. omega (arith, no_follows u v) }

Calls-IsProper_example : IsProper (follow clients 2 5 no_one).1.tables
Calls-IsProper_example = Calls-IsProper (then_call none_yet (follows clients 2 5)) proper

follow-unfollow_example :
    let followed = follow clients 2 5 no_one in
    (followed.0 ≡ ok tt)
    × (count (is_follow 2 5) followed.1.tables.follows ≡ 1)
    × (followed.1.tables.recorded ≡ [] ++ (5 ∷ []))
    × ((unfollow 2 5 followed.1).1.tables.follows ≡ [])
follow-unfollow_example =
    follow-unfollow clients allows 2 5 no_one (λ n. refl) refl refl refl (omega arith)
      (no_follows 2 5)

-- 2 follows 5
abbrev one_follow : Server FollowStore
one_follow = record no_one {
  tables = record { follows = record { follower_id = 2; following_id = 5 } ∷ []; recorded = [] };
}

follow_permissions-agree_example :
    (shown : FollowPermissions) × ((follow_permissions 2 5 one_follow).0 ≡ ok shown)
    × (shown.may_follow ≡ is_ok (follow clients 2 5 one_follow).0)
    × ((shown.may_unfollow ≡ false)
        ↔ ((unfollow 2 5 one_follow).1.tables.follows ≡ one_follow.tables.follows))
    × ((shown.may_remove_follower ≡ false)
        ↔ ((remove_follower 2 5 one_follow).1.tables.follows ≡ one_follow.tables.follows))
follow_permissions-agree_example =
    follow_permissions-agree clients allows 2 5 one_follow (λ n. refl) refl refl

-- question 7 has the answers 1, which is right, and 2
abbrev question : Question
question = record { id = 7; prize = 30; views = 0; participants = 0 }

abbrev right_answer : ChallengeAnswer
right_answer = record { id = 1; question_id = 7; is_correct = true }

abbrev wrong_answer : ChallengeAnswer
wrong_answer = record { id = 2; question_id = 7; is_correct = false }

abbrev nothing : Ledger
nothing u a = 0

abbrev attempt : UserAnswer
attempt = record { user_id = 5; question_id = 7; answer_id = 2 }

abbrev store : ChallengeStore Ledger
store = record {
  questions = question ∷ [];
  answers = right_answer ∷ wrong_answer ∷ [];
  user_answers = attempt ∷ [];
  wallets = nothing;
}

abbrev up : Server (ChallengeStore Ledger)
up = record { tables = store; fails = λ n. false; calls = 0 }

asked : select (has_question_id 7) store.questions ≡ some question
unfolding select
asked = refl

chosen : select (has_answer_id 1) (select_all (of_question 7) store.answers) ≡ some right_answer
unfolding select select_all
chosen = refl

fresh : count (answered_by 2 7) store.user_answers ≡ 0
unfolding count
fresh = refl

stale : count (answered_by 5 7) store.user_answers ≡ 1
unfolding count
stale = refl

submit_answer_pays_example :
    let submitted = submit_answer open_ledger true 2 7 1 up in
    let given =
      store.user_answers ++ (record { user_id = 2; question_id = 7; answer_id = 1 } ∷ []) in
    (submitted.0
      ≡ ok (
        record question { participants = 1 },
        resources
            (count (answers_question 7) given)
            given
            (select_all (of_question 7) store.answers),
      ))
    × (submitted.1.tables.user_answers ≡ given)
    × ((v : ℕ) (b : Asset)
        → submitted.1.tables.wallets v b
          ≡ (if is_at 2 Asset.psc v b && true then nothing v b + 30 else nothing v b))
submit_answer_pays_example =
    submit_answer_pays open_ledger true 2 7 1 question right_answer up (λ n. refl) refl asked chosen
      fresh refl

submit_answer_again_example :
    ((e : ChallengeError) × ((submit_answer open_ledger true 5 7 1 up).0 ≡ err e))
    × ((submit_answer open_ledger true 5 7 1 up).1.tables ≡ store)
submit_answer_again_example = submit_answer_again open_ledger true 5 7 1 up (omega (arith, stale))

submit_answer-once_example :
    count (answered_by 2 7) (submit_answer open_ledger true 2 7 1 up).1.tables.user_answers ≤ 1
submit_answer-once_example = submit_answer-once open_ledger true 2 7 1 up 2 7 (omega (arith, fresh))

-- the quotient of 29 by 50 is rounded down in float64
shows_57 : vote_percentage 29 50 ≡ 57
unfolding vote_percentage
shows_57 = refl

shows_33 : vote_percentage 1 3 ≡ 33
unfolding vote_percentage
shows_33 = refl

shows_100 : vote_percentage 7 7 ≡ 100
unfolding vote_percentage
shows_100 = refl
