-- ===== src/Levels/Tests.antt =====
-- The levels at concrete inputs.
use metaverse_rang_microserv.Common.{
  ◌/◌, ◌==◌, if◌then◌else◌, ℕ, ◌+◌, ◌≤◌, ◌≡◌, refl, Bool, true, false, none, some, [], ◌∷◌, arith,
}
use metaverse_rang_microserv.Common.Table.{select, count}
use metaverse_rang_microserv.Common.Server.{Server, ok, err}
use metaverse_rang_microserv.Commercial.Wallet.{Asset, same_asset}
use metaverse_rang_microserv.Features.Client.Ledger.{
  ledger-KeepsRefused, Ledger, ledger, open_ledger,
}
use metaverse_rang_microserv.Levels.Rows.{
  UserLog, ScoredUser, Level, LevelPrize, LevelStore, LevelError, wallet_refused, log_of,
  has_received, level_prize_of, highest, total_score, usable_rate, prize_credits,
}
use metaverse_rang_microserv.Levels.{
  award_level_prize, is_reached, credit_all, attach_level, update_activity_score, claim_level_prize,
}
use metaverse_rang_microserv.Levels.Awards.{
  worth, gains, scored, credits_of, awarded, update_activity_score_awards,
}
use metaverse_rang_microserv.Levels.Claims.{
  claim_level_prize_pays, claim_level_prize_repeats, claim_level_prize-once,
}
use metaverse_rang_microserv.Levels.Climbing.{climb, climb-reaches}

abbrev log : UserLog
log = record {
  user_id = 2;
  transactions_count = 40_000;
  followers_count = 3_000;
  deposit_amount = 9_000;
  activity_hours = 2_000;
  score = 0;
}

abbrev user : ScoredUser
user = record { id = 2; score = 0 }

abbrev first_level : Level
first_level = record { id = 1; score = 3 }

abbrev second_level : Level
second_level = record { id = 2; score = 5 }

abbrev third_level : Level
third_level = record { id = 3; score = 90 }

abbrev prize : LevelPrize
prize = record {
  id = 8;
  level_id = 2;
  psc = 60_000;
  blue = 4;
  red = 5;
  yellow = 6;
  effect = 1;
  satisfaction = 2;
}

abbrev nothing : Ledger
nothing u a = 0

abbrev store : LevelStore Ledger
store = record {
  user_logs = log ∷ [];
  users = user ∷ [];
  levels = first_level ∷ second_level ∷ third_level ∷ [];
  level_users = [];
  level_prizes = prize ∷ [];
  received = [];
  activities = [];
  trades = [];
  followers = [];
  variable_rate = none;
  next_activity_id = 1;
  wallets = nothing;
  now = 600;
}

abbrev up : Server (LevelStore Ledger)
up = record { tables = store; fails = λ n. false; calls = 0 }

logged : select (log_of 2) store.user_logs ≡ some log
unfolding select
logged = refl

reaches : highest (is_reached 2 (total_score log) store) store.levels ≡ some second_level
unfolding highest count total_score
reaches = refl

offers : select (level_prize_of 2) store.level_prizes ≡ some prize
unfolding select
offers = refl

fresh : count (has_received 2 8) store.received ≡ 0
unfolding count
fresh = refl

takes : (credits_of open_ledger 2 prize store).0 ≡ true
unfolding credit_all prize_credits
takes = refl

update_activity_score_awards_example :
    let updated = update_activity_score open_ledger 2 up in
    (updated.0 ≡ ok (total_score log, some 2))
    × (updated.1.tables
        ≡ awarded open_ledger 2 prize
            (attach_level 2 2 (scored open_ledger 2 (total_score log) store)))
    × ((v : ℕ) (b : Asset)
        → updated.1.tables.wallets v b
          ≡ nothing v b + (if v == 2 then worth prize (usable_rate none) b else 0))
    × ((award_level_prize open_ledger 2 2 updated.1).1.tables ≡ updated.1.tables)
update_activity_score_awards_example =
    update_activity_score_awards open_ledger 2 log second_level prize up (λ n. refl) logged reaches
      offers fresh takes

claim_level_prize_pays_example :
    let claimed = claim_level_prize open_ledger 2 2 up in
    let again = claim_level_prize open_ledger 2 2 claimed.1 in
    (claimed.0 ≡ ok tt)
    × (claimed.1.tables ≡ awarded open_ledger 2 prize store)
    × ((v : ℕ) (b : Asset)
        → claimed.1.tables.wallets v b
          ≡ nothing v b + gains 2 (prize_credits prize (usable_rate none)) v b)
    × ((e : LevelError) × (again.0 ≡ err e))
    × (again.1.tables ≡ claimed.1.tables)
claim_level_prize_pays_example =
    claim_level_prize_pays open_ledger 2 2 prize up (λ n. refl) offers fresh takes

-- the wallets refuse the color blue
abbrev is_not_blue : Asset → Bool
is_not_blue a = elim (same_asset a Asset.blue) [ true ↦ false | false ↦ true ]

claim_level_prize_repeats_example :
    let claimed = claim_level_prize (ledger is_not_blue) 2 2 up in
    let again = claim_level_prize (ledger is_not_blue) 2 2 claimed.1 in
    (claimed.0 ≡ err wallet_refused)
    × (again.0 ≡ err wallet_refused)
    × (again.1.tables.received ≡ [])
    × (claimed.1.tables.wallets 2 Asset.psc ≡ 60_000 / usable_rate none)
    × (again.1.tables.wallets 2 Asset.psc ≡ 60_000 / usable_rate none + 60_000 / usable_rate none)
unfolding same_asset usable_rate
claim_level_prize_repeats_example =
    claim_level_prize_repeats (ledger is_not_blue) (ledger-KeepsRefused is_not_blue) 2 2 prize up
      (λ n. refl) offers fresh refl refl refl refl

claim_level_prize-once_example :
    count (has_received 2 8) (claim_level_prize open_ledger 2 2 up).1.tables.received ≤ 1
claim_level_prize-once_example =
    claim_level_prize-once open_ledger 2 2 up 2 8 (omega (arith, fresh))

left : count (is_reached 2 (total_score log) store) store.levels ≡ 2
unfolding count total_score
left = refl

climb-reaches_example :
    let climbed = climb open_ledger 2 2 up in
    count (is_reached 2 (total_score log) climbed.tables) climbed.tables.levels ≡ 0
climb-reaches_example =
    climb-reaches open_ledger 2 2 log up (λ n. refl) logged (omega (arith, left))
