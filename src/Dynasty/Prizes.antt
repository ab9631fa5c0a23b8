-- ===== src/Dynasty/Prizes.antt =====
-- services/dynasty-service/internal/service/prize_service.go ClaimPrize, with the repositories of
-- prizes, variables and user variables. `times` is the database's product of a value and a
-- multiplier, rounded as the database rounds it.
use metaverse_rang_microserv.Common.{
  ℕ, ◌+◌, ◌≡◌, ◌≢◌, ap, ◌∙◌, Bool, false, not, Option, none, some, List, [], ◌∷◌, ◌++◌, arith, ◌==◌,
  if◌then◌else◌, Option-cases, inl, inr,
}
use metaverse_rang_microserv.Common.Table.{select, update, delete}
use metaverse_rang_microserv.Common.Table.Laws.{select-delete_self}
use metaverse_rang_microserv.Common.Server.{
  Server, ok, is_ok, or_raise, query, exec, raise_if, transaction, ◌>>=◌, ◌>>◌,
}
use metaverse_rang_microserv.Dynasty.{
  DynastyPrize, ReceivedPrize, UserVariable, Credit, psc_credit, satisfaction_credit, Tables,
  db_error, not_found, unauthorized, wallet_error, DynastyAction, first,
}

abbrev pub is_received : ℕ → ReceivedPrize → Bool
is_received id p = p.id == id

-- `GetReceivedPrize`: the row joined with its prize
unfoldable pub join_prize : Tables → Option ReceivedPrize → Option (ReceivedPrize × DynastyPrize)
join_prize t none = none
join_prize t (some p) = elim (select (λ q. q.id == p.prize_id) t.dynasty_prizes) [
  | none ↦ none
  | some q ↦ some (p, q)
]

unfoldable pub get_received_prize : ℕ → Tables → Option (ReceivedPrize × DynastyPrize)
get_received_prize id t = join_prize t (select (is_received id) t.received_prizes)

-- `GetPriceByAsset`
unfoldable pub psc_rate : Tables → ℕ
psc_rate t = elim (first t.psc_prices) [ none ↦ 1 | some p ↦ if p == 0 then 1 else p ]

-- a call of the wallet service
unfoldable pub add_credit : Credit → Tables → Tables
add_credit c t = record t { credits = t.credits ++ (c ∷ []) }

unfoldable pub delete_prize : ℕ → Tables → Tables
delete_prize id t = record t { received_prizes = delete (is_received id) t.received_prizes }

-- the two credits of a prize
abbrev pub paid : ℕ → DynastyPrize → Tables → List Credit
paid user_id p t =
    (t.credits ++ (psc_credit user_id p.psc (psc_rate t) ∷ []))
    ++ (satisfaction_credit user_id p.satisfaction ∷ [])

module _ (times : ℕ → ℕ → ℕ) where
  unfoldable pub boost : DynastyPrize → UserVariable → UserVariable
  boost p v = record v {
    referral_profit = v.referral_profit + times v.referral_profit p.introduction_profit_increase;
    data_storage = v.data_storage + times v.data_storage p.data_storage;
    withdraw_profit = v.withdraw_profit + times v.withdraw_profit p.accumulated_capital_reserve;
  }

  unfoldable pub apply_multipliers : ℕ → DynastyPrize → Tables → Tables
  apply_multipliers user_id p t = record t {
    user_variables = update (λ v. v.user_id == user_id) (boost p) t.user_variables;
  }

  -- from `BeginTx` to `Commit`
  unfoldable pub settle_prize : ℕ → ℕ → DynastyPrize → DynastyAction (Unit {0})
  settle_prize id user_id p = transaction do
    exec db_error (λ t. t)
    exec db_error (apply_multipliers user_id p)
    exec db_error (delete_prize id)
    exec db_error (λ t. t)

  unfoldable pub pay_prize : ℕ → ℕ → DynastyPrize → DynastyAction (Unit {0})
  unfolding settle_prize
  pay_prize id user_id p = do
    rate ← query db_error psc_rate
    exec wallet_error (add_credit (psc_credit user_id p.psc rate))
    exec wallet_error (add_credit (satisfaction_credit user_id p.satisfaction))
    settle_prize id user_id p

  unfoldable pub claim_prize : ℕ → ℕ → DynastyAction (Unit {0})
  unfolding pay_prize
  claim_prize id user_id = do
    received ← query db_error (get_received_prize id)
    found ← or_raise received not_found
    raise_if (not (found.0.user_id == user_id)) unauthorized
    pay_prize id user_id found.1

  -- the tables after the claim
  claimed_tables : ℕ → ℕ → DynastyPrize → Tables → Tables
  claimed_tables id user_id p t = record (delete_prize id (apply_multipliers user_id p t)) {
    credits = paid user_id p t;
  }

  claim_prize-runs :
      (id user_id : ℕ) (r : ReceivedPrize) (p : DynastyPrize) (s : Server Tables)
      → ((n : ℕ) → s.fails n ≡ false)
      → get_received_prize id s.tables ≡ some (r, p)
      → r.user_id ≡ user_id
      → claim_prize id user_id s
        ≡ (ok tt, record s { tables = claimed_tables id user_id p s.tables; calls = s.calls + 8 })
  unfolding claim_prize pay_prize settle_prize add_credit delete_prize apply_multipliers
      claimed_tables
  claim_prize-runs id user_id r p s up at own = ground (
    arith,
    up s.calls,
    up (s.calls + 1),
    up (s.calls + 2),
    up (s.calls + 3),
    up (s.calls + 4),
    up (s.calls + 5),
    up (s.calls + 6),
    up (s.calls + 7),
    at,
    own,
  )

  -- On a server where no call fails, the owner of a received prize is credited its PSC and its
  -- satisfaction, the user's variables are raised, and the receipt is gone, so that claiming it again
  -- finds nothing.
  pub claim_prize-paid :
      (id user_id : ℕ) (r : ReceivedPrize) (p : DynastyPrize) (s : Server Tables)
      → ((n : ℕ) → s.fails n ≡ false)
      → get_received_prize id s.tables ≡ some (r, p)
      → r.user_id ≡ user_id
      → let claimed = claim_prize id user_id s in
        (claimed.0 ≡ ok tt)
        × ((claimed.1.tables.credits ≡ paid user_id p s.tables)
            × ((claimed.1.tables.user_variables
                  ≡ (apply_multipliers user_id p s.tables).user_variables)
                × (get_received_prize id claimed.1.tables ≡ none)))
  unfolding claimed_tables delete_prize apply_multipliers get_received_prize join_prize
  claim_prize-paid id user_id r p s up at own =
      let runs = claim_prize-runs id user_id r p s up at own in
      (
        ap (λ q. q.0) runs,
        (
          ap (λ q. q.1.tables.credits) runs,
          (
            ap (λ q. q.1.tables.user_variables) runs,
            ap (λ q. get_received_prize id q.1.tables) runs
                ∙ ap (join_prize (claimed_tables id user_id p s.tables))
                    (select-delete_self (is_received id) s.tables.received_prizes),
          ),
        ),
      )

  -- Where the wallet is credited and anything after that fails, ClaimPrize errs with both credits
  -- made and every other table, the receipts too, as before: claiming again pays again.
  pub claim_prize_repeats :
      (id user_id : ℕ) (r : ReceivedPrize) (p : DynastyPrize) (s : Server Tables)
      → s.fails s.calls ≡ false
      → s.fails (s.calls + 1) ≡ false
      → s.fails (s.calls + 2) ≡ false
      → s.fails (s.calls + 3) ≡ false
      → is_ok (claim_prize id user_id s).0 ≡ false
      → get_received_prize id s.tables ≡ some (r, p)
      → r.user_id ≡ user_id
      → (claim_prize id user_id s).1.tables ≡ record s.tables { credits = paid user_id p s.tables }
  unfolding claim_prize pay_prize settle_prize add_credit delete_prize apply_multipliers
  claim_prize_repeats id user_id r p s a b c d fails at own =
      ground (arith, a, b, c, d, at, own, fails)

  -- Whoever is not the owner of a received prize, and whoever claims one that is not there, gets an
  -- error and changes no table, whichever calls fail.
  pub claim_prize_guarded :
      (id user_id : ℕ) (s : Server Tables)
      → ((r : ReceivedPrize) (p : DynastyPrize)
          → get_received_prize id s.tables ≡ some (r, p)
          → r.user_id ≢ user_id)
      → (is_ok (claim_prize id user_id s).0 ≡ false)
        × ((claim_prize id user_id s).1.tables ≡ s.tables)
  unfolding claim_prize
  claim_prize_guarded id user_id s stranger = elim (Option-cases (get_received_prize id s.tables)) [
    | inl no_row ↦ (ground (arith, no_row), ground (arith, no_row))
    | inr ((r, p), at) ↦ (ground (arith, at, stranger r p at), ground (arith, at, stranger r p at))
  ]
