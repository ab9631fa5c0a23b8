-- ===== src/Social/Answers.antt =====
-- services/social-service/internal/service/challenge_service.go: one attempt at each question, and its
-- prize.
use metaverse_rang_microserv.Common.{
  ℕ, ◌+◌, ◌≤◌, ◌≡◌, ◌≢◌, refl, ap, Bool, true, false, ◌&&◌, some, List, [], ◌∷◌, ◌++◌, arith, ◌==◌,
  if◌then◌else◌, inl, inr,
}
use metaverse_rang_microserv.Common.Table.{select, select_all, count}
use metaverse_rang_microserv.Common.Table.Laws.{
  count-append, count_single, select-update, select-test,
}
use metaverse_rang_microserv.Common.Server.{Server, ok, err, Result-cases}
use metaverse_rang_microserv.Commercial.Wallet.{Asset}
use metaverse_rang_microserv.Features.Client.Port.{WalletPort, is_at}
use metaverse_rang_microserv.Social.Challenges.{
  Question, ChallengeAnswer, UserAnswer, ChallengeStore, ChallengeError, AnswerResource,
  has_question_id, has_answer_id, of_question, answers_question, answered_by, votes_for,
  vote_percentage, create_user_answer, increment_participants, show_answers, check_attempt,
  show_result, credit_prize, record_attempt, submit_answer,
}

-- the answers as they are shown, with no call that fails
unfoldable pub resources : ℕ → List UserAnswer → List ChallengeAnswer → List AnswerResource
resources total given [] = []
resources total given (a ∷ l) =
    record {
      id = a.id;
      is_correct = a.is_correct;
      vote_percentage = vote_percentage (count (votes_for a.id) given) total;
    }
    ∷ resources total given l

module _ {W : Type 0} where
  check_attempt-keeps :
      (u q a : ℕ) (s : Server (ChallengeStore W)) → (check_attempt u q a s).1.tables ≡ s.tables
  unfolding check_attempt
  check_attempt-keeps u q a s = ground arith

  check_attempt-answered :
      (u q a : ℕ) (s : Server (ChallengeStore W))
      → count (answered_by u q) s.tables.user_answers ≢ 0
      → (e : ChallengeError) × ((check_attempt u q a s).0 ≡ err e)
  unfolding check_attempt
  check_attempt-answered u q a s again = elim (Result-cases (check_attempt u q a s).0) [
    | inl failed ↦ failed
    | inr (r, passed) ↦ absurd (ground (arith, again, passed))
  ]

  check_attempt-fresh :
      (u q a : ℕ) (s : Server (ChallengeStore W))
      {r : Question × List ChallengeAnswer × ChallengeAnswer}
      → (check_attempt u q a s).0 ≡ ok r
      → count (answered_by u q) s.tables.user_answers ≡ 0
  unfolding check_attempt
  check_attempt-fresh u q a s passed = ground (arith, passed)

  show_answers-runs :
      (total : ℕ) (l : List ChallengeAnswer) (s : Server (ChallengeStore W))
      → ((n : ℕ) → s.fails n ≡ false)
      → (n : ℕ) × (show_answers total l s
          ≡ (ok (resources total s.tables.user_answers l), record s { calls = n }))
  unfolding show_answers resources
  show_answers-runs total [] s up = (s.calls, refl)
  show_answers-runs total (a ∷ l) s up =
      let (n, runs) = show_answers-runs total l (record s { calls = s.calls + 1 }) up in
      (n, ground (arith, up s.calls, runs))

  show_answers-keeps :
      (total : ℕ) (l : List ChallengeAnswer) (s : Server (ChallengeStore W))
      → (show_answers total l s).1.tables ≡ s.tables
  unfolding show_answers
  show_answers-keeps total [] s = refl
  show_answers-keeps total (a ∷ l) s =
      ground (arith, show_answers-keeps total l (record s { calls = s.calls + 1 }))

  show_result-keeps :
      (q : ℕ) (question : Question) (l : List ChallengeAnswer) (s : Server (ChallengeStore W))
      → (show_result q question l s).1.tables ≡ s.tables
  unfolding show_result
  show_result-keeps q question l s = ground (
    arith,
    show_answers-keeps
        (if s.fails (s.calls + 1) then 1 else count (answers_question q) s.tables.user_answers) l
        (record s { calls = s.calls + 1 + 1 }),
  )

  module _ (port : WalletPort W) (connected : Bool) where
    -- A user who has answered a question is refused any later answer to it, whatever calls fail: no
    -- table changes and no wallet is asked.
    pub submit_answer_again :
        (u q a : ℕ) (s : Server (ChallengeStore W))
        → count (answered_by u q) s.tables.user_answers ≢ 0
        → ((e : ChallengeError) × ((submit_answer port connected u q a s).0 ≡ err e))
          × ((submit_answer port connected u q a s).1.tables ≡ s.tables)
    unfolding submit_answer
    submit_answer_again u q a s again =
        let (e, refused) = check_attempt-answered u q a s again in
        ((e, ground (arith, refused)), ground (arith, refused, check_attempt-keeps u q a s))

    -- how often a user has answered a question after SubmitAnswer, whatever calls fail
    record_attempt-count :
        (u q a : ℕ) (question : Question) (selected : ChallengeAnswer)
        (s : Server (ChallengeStore W)) (v p : ℕ)
        → count
            (answered_by v p)
            (record_attempt port connected u q a question selected s).1.tables.user_answers
          ≤ count (answered_by v p) s.tables.user_answers + (if u == v && q == p then 1 else 0)
    unfolding record_attempt create_user_answer increment_participants credit_prize
    record_attempt-count u q a question selected s v p =
        let row : UserAnswer = record { user_id = u; question_id = q; answer_id = a } in
        ground (
          arith,
          count-append (answered_by v p) s.tables.user_answers (row ∷ []),
          count_single (answered_by v p) row,
        )

    -- No user answers a question twice: where no one has, no one has after SubmitAnswer, whatever
    -- calls fail.
    pub submit_answer-once :
        (u q a : ℕ) (s : Server (ChallengeStore W)) (v p : ℕ)
        → count (answered_by v p) s.tables.user_answers ≤ 1
        → count (answered_by v p) (submit_answer port connected u q a s).1.tables.user_answers ≤ 1
    unfolding submit_answer
    submit_answer-once u q a s v p once =
        let tried = check_attempt u q a s in
        elim (Result-cases tried.0) [
          | inl (e, refused) ↦ ground (arith, refused, once, check_attempt-keeps u q a s)
          | inr ((question, answers, selected), passed) ↦
              let recorded = record_attempt port connected u q a question selected tried.1 in
              elim (Result-cases recorded.0) [
                | inl (e, failed) ↦ ground (
                  arith,
                  passed,
                  failed,
                  once,
                  check_attempt-keeps u q a s,
                  record_attempt-count u q a question selected tried.1 v p,
                  check_attempt-fresh u q a s passed,
                )
                | inr (done, ends) ↦ ground (
                  arith,
                  passed,
                  ends,
                  once,
                  check_attempt-keeps u q a s,
                  record_attempt-count u q a question selected tried.1 v p,
                  show_result-keeps q question answers recorded.1,
                  check_attempt-fresh u q a s passed,
                )
              ]
        ]

    -- the tables after a first answer
    unfoldable pub answered_store :
        ℕ → ℕ → ℕ → Question → ChallengeAnswer → ChallengeStore W → ChallengeStore W
    unfolding create_user_answer increment_participants
    answered_store u q a question selected t =
        record (increment_participants q (create_user_answer u q a t)) {
          wallets =
              if selected.is_correct
              then (port.add_balance u Asset.psc question.prize t.wallets).1
              else t.wallets;
        }

    submit_answer-runs :
        (u q a : ℕ) (question : Question) (selected : ChallengeAnswer)
        (s : Server (ChallengeStore W))
        → ((n : ℕ) → s.fails n ≡ false)
        → connected ≡ true
        → select (has_question_id q) s.tables.questions ≡ some question
        → select (has_answer_id a) (select_all (of_question q) s.tables.answers) ≡ some selected
        → count (answered_by u q) s.tables.user_answers ≡ 0
        → (n : ℕ) × (submit_answer port connected u q a s ≡ (
          ok (
            record question { participants = question.participants + 1 },
            resources
                (count
                  (answers_question q)
                  (answered_store u q a question selected s.tables).user_answers)
                (answered_store u q a question selected s.tables).user_answers
                (select_all (of_question q) s.tables.answers),
          ),
          record s { tables = answered_store u q a question selected s.tables; calls = n },
        ))
    unfolding submit_answer check_attempt record_attempt answered_store credit_prize show_result
    submit_answer-runs u q a question selected s up on asked chosen fresh =
        let t = answered_store u q a question selected s.tables in
        let s' : Server (ChallengeStore W) = record s { tables = t; calls = s.calls + 7 } in
        let (n, runs) =
          show_answers-runs (count (answers_question q) t.user_answers)
            (select_all (of_question q) s.tables.answers) s' up in
        (
          n,
          ground (
            arith,
            up s.calls,
            up (s.calls + 1),
            up (s.calls + 2),
            up (s.calls + 3),
            up (s.calls + 4),
            up (s.calls + 5),
            up (s.calls + 6),
            on,
            asked,
            chosen,
            fresh,
            runs,
            select-test (has_question_id q) s.tables.questions question asked,
            select-update (has_question_id q) (has_question_id q)
                (λ r. record r { participants = r.participants + 1 }) s.tables.questions
                (λ r. refl),
          ),
        )

    -- On a server where no call fails, and where the wallets take the prize, the first answer of a
    -- user to a question is recorded. It is answered with the question, one participant more, and
    -- with the answers and their votes; the user is credited the prize in PSC where the answer is
    -- right and nothing where it is wrong, and no other balance moves.
    pub submit_answer_pays :
        (u q a : ℕ) (question : Question) (selected : ChallengeAnswer)
        (s : Server (ChallengeStore W))
        → ((n : ℕ) → s.fails n ≡ false)
        → connected ≡ true
        → select (has_question_id q) s.tables.questions ≡ some question
        → select (has_answer_id a) (select_all (of_question q) s.tables.answers) ≡ some selected
        → count (answered_by u q) s.tables.user_answers ≡ 0
        → (port.add_balance u Asset.psc question.prize s.tables.wallets).0 ≡ true
        → let submitted = submit_answer port connected u q a s in
          let given =
            s.tables.user_answers
            ++ (record { user_id = u; question_id = q; answer_id = a } ∷ []) in
          (submitted.0
            ≡ ok (
              record question { participants = question.participants + 1 },
              resources
                  (count (answers_question q) given)
                  given
                  (select_all (of_question q) s.tables.answers),
            ))
          × (submitted.1.tables.user_answers ≡ given)
          × ((v : ℕ) (b : Asset)
              → port.funds v b submitted.1.tables.wallets ≡ (
                  if is_at u Asset.psc v b && selected.is_correct
                  then port.funds v b s.tables.wallets + question.prize
                  else port.funds v b s.tables.wallets))
    unfolding answered_store
    submit_answer_pays u q a question selected s up on asked chosen fresh takes =
        let (n, runs) = submit_answer-runs u q a question selected s up on asked chosen fresh in
        (
          ap (λ r. r.0) runs,
          ap (λ r. r.1.tables.user_answers) runs,
          λ v b. ground (
            arith,
            ap (λ r. r.1.tables.wallets) runs,
            port.add_moves u Asset.psc question.prize s.tables.wallets v b,
            takes,
          ),
        )
