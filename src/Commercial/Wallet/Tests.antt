-- ===== src/Commercial/Wallet/Tests.antt =====
-- The wallets at concrete inputs.
use metaverse_rang_microserv.Common.{◌+◌, ◌≡◌, ◌≢◌, false, [], ◌∷◌, arith}
use metaverse_rang_microserv.Common.Server.{Server, ok}
use metaverse_rang_microserv.Common.Table.{count}
use metaverse_rang_microserv.Commercial.Wallet.{Asset, Wallet, Tables, lock_balance}
use metaverse_rang_microserv.Commercial.Wallet.Row.{supply, locked, IsUnique}
use metaverse_rang_microserv.Commercial.Wallet.Locks.{lock_balance-conserves}

abbrev purse : Wallet
purse = record {
  id = 1;
  user_id = 4;
  psc = 100;
  irr = 50;
  red = 0;
  blue = 0;
  yellow = 0;
  satisfaction = 0;
  effect = 0;
}

abbrev tables : Tables
tables = record { wallets = purse ∷ []; locked_assets = []; next_id = 2 }

abbrev up : Server Tables
up = record { tables = tables; fails = λ n. false; calls = 0 }

tables-IsUnique : IsUnique tables
unfolding count
tables-IsUnique u = ground arith

lock_conserves_example :
    ((b : Asset)
      → supply b (lock_balance 4 Asset.psc 30 up).1.tables
          + locked b (lock_balance 4 Asset.psc 30 up).1.tables
        ≡ supply b tables + locked b tables)
    × (((lock_balance 4 Asset.psc 30 up).0 ≢ ok tt)
        → (lock_balance 4 Asset.psc 30 up).1.tables ≡ tables)
lock_conserves_example = lock_balance-conserves 4 Asset.psc 30 up tables-IsUnique
