-- ===== src/Features/Profits/Tests.antt =====
-- The hourly profits at concrete inputs.
use metaverse_rang_microserv.Common.{ℕ, ◌≡◌, refl, true, false, some, [], ◌∷◌}
use metaverse_rang_microserv.Common.Table.{select, select_all}
use metaverse_rang_microserv.Common.Server.{Server, ok}
use metaverse_rang_microserv.Commercial.Wallet.{Asset}
use metaverse_rang_microserv.Features.Client.Ledger.{ledger-KeepsRefused, Ledger, open_ledger}
use metaverse_rang_microserv.Features.Fees.{Karbari}
use metaverse_rang_microserv.Features.Profits.{
  HourlyProfit, Properties, ProfitStore, has_profit_id, same_karbari, is_of, is_withdrawable,
  withdraw_profit_days, credit_wallet, withdraw_one, withdraw_each, get_profits_by_application,
}
use metaverse_rang_microserv.Features.Profits.Withdrawals.{
  Gained, AllOf, get_profits_by_application-Gained,
}

-- user 2 has a profit of 50 from homes on land 6; land 7 has no properties
abbrev profit : HourlyProfit
profit = record {
  id = 3;
  user_id = 2;
  feature_id = 6;
  asset = Asset.yellow;
  amount = 50;
  dead_line = 900_000;
  updated_at = 500_000;
  is_active = true;
}

abbrev orphan : HourlyProfit
orphan = record profit { id = 4; feature_id = 7; updated_at = 0 }

abbrev land : Properties
land = record { feature_id = 6; karbari = Karbari.maskoni; stability = 11 }

abbrev nothing : Ledger
nothing u a = 0

abbrev store : ProfitStore Ledger
store = record {
  profits = profit ∷ orphan ∷ [];
  properties = land ∷ [];
  withdraw_days = [];
  wallets = nothing;
  now = 500_000;
}

abbrev up : Server (ProfitStore Ledger)
up = record { tables = store; fails = λ n. false; calls = 0 }

abbrev asked : ℕ
asked = 3

abbrev owner : ℕ
owner = 2

at : select (has_profit_id asked) store.profits ≡ some profit
unfolding select
at = refl

abbrev fifty : ℕ
fifty = 50

all_yellow : AllOf Asset.yellow (select_all (is_of owner Karbari.maskoni store) store.profits)
unfolding select_all select is_of same_karbari
all_yellow = (refl, tt)

withdrawn : (get_profits_by_application open_ledger owner Karbari.maskoni up).0 ≡ ok fifty
unfolding get_profits_by_application is_withdrawable withdraw_profit_days withdraw_each withdraw_one
    credit_wallet select_all select is_of same_karbari
withdrawn = refl

get_profits_by_application-Gained_example :
    Gained open_ledger owner Asset.yellow fifty nothing
      (get_profits_by_application open_ledger owner Karbari.maskoni up).1.tables.wallets
get_profits_by_application-Gained_example =
    get_profits_by_application-Gained open_ledger (ledger-KeepsRefused (λ a. true)) Asset.yellow
      Karbari.maskoni owner fifty up all_yellow withdrawn
