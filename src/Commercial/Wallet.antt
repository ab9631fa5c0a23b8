-- ===== src/Commercial/Wallet.antt =====
-- services/commercial-service/internal/repository/wallet_repository.go and
-- internal/service/wallet_service.go: the wallets and their locked assets. An amount is a number of
-- quanta of 10^-10, the scale of the decimal columns; created_at and updated_at are left out.
pub mod Row
pub mod Effects
pub mod Locks
pub mod Unlocks
pub mod Service
mod Tests
use metaverse_rang_microserv.Common.{
  ℕ, ◌+◌, ◌-◌, Bool, true, false, not, ◌&&◌, Option, none, some, List, [], ◌∷◌, ◌++◌, ◌==◌, leb,
  if◌then◌else◌,
}
use metaverse_rang_microserv.Common.Table.{select, count, update, delete_one}
use metaverse_rang_microserv.Common.Server.{
  Server, Action, pure, raise, or_raise, query, exec, raise_if, transaction, ◌>>=◌, ◌>>◌,
}

-- The text that is put into the statement as a column name; `other` names no balance.
pub data Asset : Type 0 where
  psc irr red blue yellow satisfaction effect other : Asset

pub record Wallet : Type 0 where
  pub id : ℕ
  pub user_id : ℕ
  pub psc : ℕ
  pub irr : ℕ
  pub red : ℕ
  pub blue : ℕ
  pub yellow : ℕ
  pub satisfaction : ℕ
  pub effect : ℕ

pub record LockedAsset : Type 0 where
  pub user_id : ℕ
  pub asset : Asset
  pub amount : ℕ

pub record Tables : Type 0 where
  pub wallets : List Wallet
  pub locked_assets : List LockedAsset
  pub next_id : ℕ

pub data Error : Type 0 where
  db_error insufficient_balance wallet_not_found user_id_required : Error

abbrev pub WalletAction : Type 0 → Type 0
WalletAction = Action Tables Error

-- 0.10
abbrev pub default_satisfaction : ℕ
default_satisfaction = 1_000_000_000

-- `SELECT %s`
unfoldable pub column : Asset → Wallet → ℕ
column Asset.psc w = w.psc
column Asset.irr w = w.irr
column Asset.red w = w.red
column Asset.blue w = w.blue
column Asset.yellow w = w.yellow
column Asset.satisfaction w = w.satisfaction
column Asset.effect w = w.effect
column Asset.other w = 0

-- `SET %s = ?`
unfoldable pub set_column : Asset → ℕ → Wallet → Wallet
set_column Asset.psc v w = record w { psc = v }
set_column Asset.irr v w = record w { irr = v }
set_column Asset.red v w = record w { red = v }
set_column Asset.blue v w = record w { blue = v }
set_column Asset.yellow v w = record w { yellow = v }
set_column Asset.satisfaction v w = record w { satisfaction = v }
set_column Asset.effect v w = record w { effect = v }
set_column Asset.other v w = w

unfoldable pub is_column : Asset → Bool
is_column Asset.other = false
is_column _ = true

-- `WHERE user_id = ?`
abbrev pub of_user : ℕ → Wallet → Bool
of_user user_id w = w.user_id == user_id

-- `WHERE user_id = ? AND %s >= ?`
abbrev pub can_pay : ℕ → Asset → ℕ → Wallet → Bool
can_pay user_id asset amount w = w.user_id == user_id && leb amount (column asset w)

-- `SET %s = %s - ?`, `SET %s = %s + ?`
abbrev pub take : Asset → ℕ → Wallet → Wallet
take asset amount w = set_column asset (column asset w - amount) w

abbrev pub give : Asset → ℕ → Wallet → Wallet
give asset amount w = set_column asset (column asset w + amount) w

unfoldable pub find_by_user_id : ℕ → WalletAction (Option Wallet)
find_by_user_id user_id = query db_error (λ t. select (of_user user_id) t.wallets)

-- the wallet that `Create` inserts
unfoldable pub new_wallet : ℕ → ℕ → Wallet
new_wallet id user_id = record {
  id = id;
  user_id = user_id;
  psc = 0;
  irr = 0;
  red = 0;
  blue = 0;
  yellow = 0;
  satisfaction = default_satisfaction;
  effect = 0;
}

insert_wallet : ℕ → Tables → Tables
insert_wallet user_id t = record t {
  wallets = t.wallets ++ (new_wallet t.next_id user_id ∷ []);
  next_id = t.next_id + 1;
}

-- The row that was inserted has the id before the last.
create_new : ℕ → WalletAction Wallet
unfolding insert_wallet new_wallet
create_new user_id s =
    (exec db_error (insert_wallet user_id) >> pure (new_wallet s.tables.next_id user_id)) s

unfoldable pub create : ℕ → WalletAction Wallet
unfolding find_by_user_id create_new
create user_id = do
  existing ← find_by_user_id user_id
  elim existing [ none ↦ create_new user_id | some w ↦ pure w ]

-- The UPDATE of `DeductBalance` and its count of affected rows, as one call.
withdraw_rows : ℕ → Asset → ℕ → Tables → Tables
withdraw_rows user_id asset amount t = record t {
  wallets = update (can_pay user_id asset amount) (take asset amount) t.wallets;
}

deposit_rows : ℕ → Asset → ℕ → Tables → Tables
deposit_rows user_id asset amount t = record t {
  wallets = update (of_user user_id) (give asset amount) t.wallets;
}

rows_affected : ℕ → Asset → ℕ → Tables → ℕ
rows_affected user_id asset amount t = count (can_pay user_id asset amount) t.wallets

withdraw_update : ℕ → Asset → ℕ → WalletAction ℕ
unfolding withdraw_rows rows_affected is_column
withdraw_update user_id asset amount s =
    (raise_if (not (is_column asset)) db_error
        >> (exec db_error (withdraw_rows user_id asset amount)
            >> pure (rows_affected user_id asset amount s.tables)))
      s

-- `walletRepository.DeductBalance`
unfoldable pub deduct_row : ℕ → Asset → ℕ → WalletAction (Unit {0})
unfolding withdraw_update
deduct_row user_id asset amount = do
  affected ← withdraw_update user_id asset amount
  raise_if (affected == 0) insufficient_balance

-- `walletRepository.AddBalance`
unfoldable pub add_row : ℕ → Asset → ℕ → WalletAction (Unit {0})
unfolding deposit_rows is_column
add_row user_id asset amount = do
  raise_if (not (is_column asset)) db_error
  exec db_error (deposit_rows user_id asset amount)

insert_locked : ℕ → Asset → ℕ → Tables → Tables
insert_locked user_id asset amount t = record t {
  locked_assets =
      t.locked_assets ++ (record { user_id = user_id; asset = asset; amount = amount } ∷ []);
}

-- equality of two column names
unfoldable pub same_asset : Asset → Asset → Bool
same_asset Asset.psc Asset.psc = true
same_asset Asset.irr Asset.irr = true
same_asset Asset.red Asset.red = true
same_asset Asset.blue Asset.blue = true
same_asset Asset.yellow Asset.yellow = true
same_asset Asset.satisfaction Asset.satisfaction = true
same_asset Asset.effect Asset.effect = true
same_asset Asset.other Asset.other = true
same_asset _ _ = false

-- `WHERE user_id = ? AND asset = ? AND amount = ?`
abbrev pub is_lock : ℕ → Asset → ℕ → LockedAsset → Bool
is_lock user_id asset amount l =
    l.user_id == user_id && (same_asset l.asset asset && l.amount == amount)

delete_locked : ℕ → Asset → ℕ → Tables → Tables
unfolding same_asset
delete_locked user_id asset amount t = record t {
  locked_assets = delete_one (is_lock user_id asset amount) t.locked_assets;
}

-- `tx.Begin` and `tx.Commit`: calls that change no table by themselves
touch : WalletAction (Unit {0})
touch = exec db_error (λ t. t)

unfoldable pub lock_balance : ℕ → Asset → ℕ → WalletAction (Unit {0})
unfolding withdraw_update insert_locked touch
lock_balance user_id asset amount = transaction do
  touch
  affected ← withdraw_update user_id asset amount
  raise_if (affected == 0) insufficient_balance
  exec db_error (insert_locked user_id asset amount)
  touch

unfoldable pub unlock_balance : ℕ → Asset → ℕ → WalletAction (Unit {0})
unfolding add_row delete_locked touch
unlock_balance user_id asset amount = transaction do
  touch
  add_row user_id asset amount
  exec db_error (delete_locked user_id asset amount)
  touch

-- `walletService`
unfoldable pub get_wallet : ℕ → WalletAction Wallet
unfolding find_by_user_id
get_wallet user_id = do wallet ← find_by_user_id user_id; or_raise wallet wallet_not_found

unfoldable pub create_wallet : ℕ → WalletAction Wallet
unfolding create
create_wallet user_id = do raise_if (user_id == 0) user_id_required; create user_id

unfoldable pub deduct_balance : ℕ → Asset → ℕ → WalletAction Wallet
unfolding deduct_row get_wallet
deduct_balance user_id asset amount = do deduct_row user_id asset amount; get_wallet user_id

unfoldable pub add_balance : ℕ → Asset → ℕ → WalletAction Wallet
unfolding add_row get_wallet
add_balance user_id asset amount = do add_row user_id asset amount; get_wallet user_id
