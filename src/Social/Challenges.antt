-- ===== src/Social/Challenges.antt =====
-- services/social-service/internal/service/challenge_service.go with
-- repository/challenge_repository.go: the questions and their prizes. A prize is in quanta of the
-- wallets, ORDER BY RAND() is a parameter that picks one of the rows, a percentage is that of float64. Titles, images, dates and advertisements are left out.
use metaverse_rang_microserv.Common.{
  ℕ, zero, suc, leb, ◌%◌, ◌+◌, ◌*◌, ◌/◌, Bool, ◌&&◌, Option, some, List, [], ◌∷◌, ◌++◌, ltb, ◌==◌,
  if◌then◌else◌,
}
use metaverse_rang_microserv.Common.Table.{select, select_all, count, update}
use metaverse_rang_microserv.Common.Server.{
  Action, ok, pure, or_raise, query, query_or, exec, try_exec, raise_if, ◌>>=◌, ◌>>◌,
}
use metaverse_rang_microserv.Commercial.Wallet.{Asset}
use metaverse_rang_microserv.Features.Client.Port.{WalletPort}

pub record Question : Type 0 where
  pub id : ℕ
  pub prize : ℕ
  pub views : ℕ
  pub participants : ℕ

pub record ChallengeAnswer : Type 0 where
  pub id : ℕ
  pub question_id : ℕ
  pub is_correct : Bool

-- a row of `user_question_answers`
pub record UserAnswer : Type 0 where
  pub user_id : ℕ
  pub question_id : ℕ
  pub answer_id : ℕ

pub record ChallengeStore (W : Type 0) : Type 0 where
  pub questions : List Question
  pub answers : List ChallengeAnswer
  pub user_answers : List UserAnswer
  pub wallets : W

pub data ChallengeError : Type 0 where
  question_not_found answer_mismatch already_answered : ChallengeError
  no_unanswered_questions nil_question challenge_db : ChallengeError

abbrev pub has_question_id : ℕ → Question → Bool
has_question_id id q = q.id == id

abbrev pub has_answer_id : ℕ → ChallengeAnswer → Bool
has_answer_id id a = a.id == id

abbrev pub of_question : ℕ → ChallengeAnswer → Bool
of_question id a = a.question_id == id

abbrev pub answers_question : ℕ → UserAnswer → Bool
answers_question id a = a.question_id == id

abbrev pub answered_by : ℕ → ℕ → UserAnswer → Bool
answered_by user_id id a = a.user_id == user_id && a.question_id == id

abbrev pub votes_for : ℕ → UserAnswer → Bool
votes_for id a = a.answer_id == id

-- an answer as it is shown after the attempt
pub record AnswerResource : Type 0 where
  pub id : ℕ
  pub is_correct : Bool
  pub vote_percentage : ℕ

-- a quotient rounded to a whole number, half to even
unfoldable rounded : ℕ → ℕ → ℕ
rounded a b =
    if ltb (2 * (a % b)) b
    then a / b
    else if ltb b (2 * (a % b))
    then a / b + 1
    else a / b + (a / b) % 2

-- the power of 2 that makes a quotient of 53 bits, which 84 doublings reach for counts below 2 ^ 31
unfoldable unit_of : ℕ → ℕ → ℕ → ℕ
unit_of zero v t = 1
unit_of (suc n) v t =
    let rest = unit_of n (2 * v) t in if leb (4_503_599_627_370_496 * t) v then 1 else 2 * rest

-- `float64(v) / float64(t)`, in parts of `unit`
unfoldable float_quotient : ℕ → ℕ → ℕ → ℕ
unfolding rounded
float_quotient v t unit = rounded (v * unit) t

-- the product of 53 bits of a quotient of 53 bits and 100
unfoldable float_percent : ℕ → ℕ
unfolding rounded
float_percent q =
    if ltb (q * 100) 576_460_752_303_423_488
    then rounded (q * 100) 64 * 64
    else rounded (q * 100) 128 * 128

-- `int32(math.Floor(float64(voteCount) / float64(totalAnswers) * 100))` in float64, where the total
-- is not 0
unfoldable pub vote_percentage : ℕ → ℕ → ℕ
unfolding unit_of float_quotient float_percent
vote_percentage votes total =
    let unit = unit_of 84 votes total in
    if ltb 0 total && ltb 0 votes then float_percent (float_quotient votes total unit) / unit else 0

module _ {W : Type 0} where
  unfoldable pub create_user_answer : ℕ → ℕ → ℕ → ChallengeStore W → ChallengeStore W
  create_user_answer user_id question_id answer_id t = record t {
    user_answers =
        t.user_answers
        ++ (record { user_id = user_id; question_id = question_id; answer_id = answer_id } ∷ []);
  }

  unfoldable pub increment_participants : ℕ → ChallengeStore W → ChallengeStore W
  increment_participants id t = record t {
    questions =
        update (has_question_id id) (λ q. record q { participants = q.participants + 1 })
          t.questions;
  }

  unfoldable pub increment_views : ℕ → ChallengeStore W → ChallengeStore W
  increment_views id t = record t {
    questions = update (has_question_id id) (λ q. record q { views = q.views + 1 }) t.questions;
  }

  abbrev pub is_unanswered : ℕ → ChallengeStore W → Question → Bool
  is_unanswered user_id t q = count (answered_by user_id q.id) t.user_answers == 0

  -- `GetQuestion`: the question and its answers
  unfoldable pub get_question :
      (List Question → Option Question)
      → ℕ
      → Action (ChallengeStore W) ChallengeError (Question × List ChallengeAnswer)
  unfolding increment_views
  get_question pick user_id = do
    picked ← query challenge_db (λ t. pick (select_all (is_unanswered user_id t) t.questions))
    question ← or_raise picked no_unanswered_questions
    try_exec (increment_views question.id)
    answers ← query challenge_db (λ t. select_all (of_question question.id) t.answers)
    pure (question, answers)

  -- the loop that builds the answers, with the counts of their votes
  unfoldable pub show_answers :
      ℕ → List ChallengeAnswer → Action (ChallengeStore W) ChallengeError (List AnswerResource)
  unfolding vote_percentage
  show_answers total [] = pure []
  show_answers total (a ∷ l) = do
    votes ← query_or 0 (λ t. count (votes_for a.id) t.user_answers)
    rest ← show_answers total l
    pure (
        record {
          id = a.id;
          is_correct = a.is_correct;
          vote_percentage = vote_percentage votes total;
        }
        ∷ rest)

  -- the question, its answers and the one that was chosen, which the guards let through
  unfoldable pub check_attempt :
      ℕ
      → ℕ
      → ℕ
      → Action (ChallengeStore W) ChallengeError (Question × List ChallengeAnswer × ChallengeAnswer)
  check_attempt user_id question_id answer_id = do
    row ← query challenge_db (λ t. select (has_question_id question_id) t.questions)
    question ← or_raise row question_not_found
    answers ← query challenge_db (λ t. select_all (of_question question_id) t.answers)
    selected ← or_raise (select (has_answer_id answer_id) answers) answer_mismatch
    answered ←
        query challenge_db (λ t. ltb 0 (count (answered_by user_id question_id) t.user_answers))
    raise_if answered already_answered
    pure (question, answers, selected)

  -- the question again, with its new count, and the answers with their votes
  unfoldable pub show_result :
      ℕ
      → Question
      → List ChallengeAnswer
      → Action (ChallengeStore W) ChallengeError (Question × List AnswerResource)
  unfolding show_answers
  show_result question_id question answers = do
    row ← query_or (some question) (λ t. select (has_question_id question_id) t.questions)
    updated ← or_raise row nil_question
    total ← query_or 1 (λ t. count (answers_question question_id) t.user_answers)
    shown ← show_answers total answers
    pure (updated, shown)

  -- `connected` is false where there is no client of the wallets
  module _ (port : WalletPort W) (connected : Bool) where
    -- the prize of a right answer; an error of the client is only printed
    unfoldable pub credit_prize :
        ℕ → Question → ChallengeAnswer → Action (ChallengeStore W) ChallengeError (Unit {0})
    credit_prize user_id question selected =
        if selected.is_correct && connected
        then (λ s.
            let (done, w) = port.add_balance user_id Asset.psc question.prize s.tables.wallets in
            (ok tt, record s { tables = record s.tables { wallets = w } }))
        else pure tt

    -- the answer that is recorded and paid for
    unfoldable pub record_attempt :
        ℕ → ℕ → ℕ → Question → ChallengeAnswer → Action (ChallengeStore W) ChallengeError (Unit {0})
    unfolding create_user_answer increment_participants credit_prize
    record_attempt user_id question_id answer_id question selected = do
      exec challenge_db (create_user_answer user_id question_id answer_id)
      try_exec (increment_participants question_id)
      credit_prize user_id question selected

    -- `SubmitAnswer`
    unfoldable pub submit_answer :
        ℕ → ℕ → ℕ → Action (ChallengeStore W) ChallengeError (Question × List AnswerResource)
    unfolding check_attempt record_attempt show_result
    submit_answer user_id question_id answer_id = do
      (question, answers, selected) ← check_attempt user_id question_id answer_id
      record_attempt user_id question_id answer_id question selected
      show_result question_id question answers
