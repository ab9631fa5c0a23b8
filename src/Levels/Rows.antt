-- ===== src/Levels/Rows.antt =====
-- services/levels-service/internal/models and repository: the rows of logs, levels and prizes, and what
-- is computed from them.
use metaverse_rang_microserv.Common.{
  ℕ, ◌+◌, ◌*◌, ◌/◌, Bool, ◌&&◌, Option, none, some, List, [], ◌∷◌, ltb, leb, ◌==◌, if◌then◌else◌,
}
use metaverse_rang_microserv.Common.Table.{sum}
use metaverse_rang_microserv.Commercial.Wallet.{Asset}

pub record UserLog : Type 0 where
  pub user_id : ℕ
  pub transactions_count : ℕ
  pub followers_count : ℕ
  pub deposit_amount : ℕ
  pub activity_hours : ℕ
  pub score : ℕ

-- the columns of `users` that are read
pub record ScoredUser : Type 0 where
  pub id : ℕ
  pub score : ℕ

pub record Level : Type 0 where
  pub id : ℕ
  pub score : ℕ

-- rows of `level_user` and of `recieved_level_prizes`
pub record LevelUser : Type 0 where
  pub user_id : ℕ
  pub level_id : ℕ

pub record ReceivedLevelPrize : Type 0 where
  pub user_id : ℕ
  pub prize_id : ℕ

pub record LevelPrize : Type 0 where
  pub id : ℕ
  pub level_id : ℕ
  pub psc : ℕ
  pub blue : ℕ
  pub red : ℕ
  pub yellow : ℕ
  pub effect : ℕ
  pub satisfaction : ℕ

pub record UserActivity : Type 0 where
  pub id : ℕ
  pub user_id : ℕ
  pub start : ℕ
  pub end : Option ℕ
  pub total : ℕ

pub record TradeRow : Type 0 where
  pub buyer_id : ℕ
  pub seller_id : ℕ
  pub irr_amount : ℕ
  pub psc_amount : ℕ

-- a row of the table `followers` that GetTotalFollowers names
pub record Follower : Type 0 where
  pub followed_id : ℕ

pub record LevelStore (W : Type 0) : Type 0 where
  pub user_logs : List UserLog
  pub users : List ScoredUser
  pub levels : List Level
  pub level_users : List LevelUser
  pub level_prizes : List LevelPrize
  pub received : List ReceivedLevelPrize
  pub activities : List UserActivity
  pub trades : List TradeRow
  pub followers : List Follower
  -- the value of the variable psc, where it is there
  pub variable_rate : Option ℕ
  pub next_activity_id : ℕ
  pub wallets : W
  pub now : ℕ

pub data LevelError : Type 0 where
  no_log no_activity prize_not_found prize_claimed invalid_rate wallet_refused level_db : LevelError

abbrev pub log_of : ℕ → UserLog → Bool
log_of user_id l = l.user_id == user_id

abbrev pub has_level : ℕ → ℕ → LevelUser → Bool
has_level user_id level_id r = r.user_id == user_id && r.level_id == level_id

abbrev pub has_received : ℕ → ℕ → ReceivedLevelPrize → Bool
has_received user_id prize_id r = r.user_id == user_id && r.prize_id == prize_id

abbrev pub level_prize_of : ℕ → LevelPrize → Bool
level_prize_of level_id p = p.level_id == level_id

abbrev pub default_psc_rate : ℕ
default_psc_rate = 30_000

abbrev pub min_irr_amount : ℕ
min_irr_amount = 7_000_000

-- the row with the highest score among those with a test, the first of several
unfoldable pub highest : (Level → Bool) → List Level → Option Level
highest p [] = none
highest p (l ∷ ls) = elim (highest p ls) [
  | none ↦ if p l then some l else none
  | some m ↦ if p l && leb m.score l.score then some l else some m
]

-- the row with the highest id of a user
unfoldable pub latest_activity : ℕ → List UserActivity → Option UserActivity
latest_activity user_id [] = none
latest_activity user_id (a ∷ l) = elim (latest_activity user_id l) [
  | none ↦ if a.user_id == user_id then some a else none
  | some b ↦ if a.user_id == user_id && leb b.id a.id then some a else some b
]

-- `CalculateScore`: the whole part of the sum
unfoldable pub total_score : UserLog → ℕ
total_score l =
    (l.transactions_count + l.followers_count + l.deposit_amount + l.activity_hours) / 10_000

-- `UpdateActivityHours`: `float64(int32(hours)+1) * 0.1`
unfoldable pub hours_score : ℕ → ℕ
hours_score total_minutes = (total_minutes / 60 + 1) * 1000

-- the rate that is used: the default where the read fails or shows none above 0
unfoldable pub usable_rate : Option ℕ → ℕ
usable_rate none = default_psc_rate
usable_rate (some rate) = if ltb 0 rate then rate else default_psc_rate

-- the credits of `applyLevelPrizeBalances`, in order
unfoldable pub prize_credits : LevelPrize → ℕ → List (Asset × ℕ)
prize_credits p rate =
    (Asset.psc, p.psc / rate)
    ∷ (Asset.blue, p.blue)
    ∷ (Asset.red, p.red)
    ∷ (Asset.yellow, p.yellow)
    ∷ (Asset.effect, p.effect)
    ∷ (Asset.satisfaction, p.satisfaction)
    ∷ []

-- `GetTotalActivityMinutes`
unfoldable pub total_minutes : ℕ → List UserActivity → ℕ
total_minutes user_id l = sum (λ a. if a.user_id == user_id then a.total else 0) l
