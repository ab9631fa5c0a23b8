-- ===== src/Features/Buildings/Tests.antt =====
-- The buildings at concrete inputs.
use metaverse_rang_microserv.Common.{
  ℕ, ◌+◌, ◌-◌, ◌≤◌, ◌≡◌, refl, true, false, none, some, [], ◌∷◌, arith, ◌==◌, if◌then◌else◌,
}
use metaverse_rang_microserv.Common.Table.{select, count}
use metaverse_rang_microserv.Common.Server.{Server, ok, err}
use metaverse_rang_microserv.Commercial.Wallet.{Asset, same_asset}
use metaverse_rang_microserv.Features.Client.Port.{is_at}
use metaverse_rang_microserv.Features.Client.Ledger.{Ledger, open_ledger}
use metaverse_rang_microserv.Features.Buildings.Information.{
  BuildingInformation, is_empty, validate_building_information, Texts, is_postal_code,
}
use metaverse_rang_microserv.Features.Buildings.Rows.{
  has_json, Land, BuildingModel, Building, Activity, BuildStore, BuildRequest, build_db, on_feature,
  on_feature_of, is_model, has_land_id,
}
use metaverse_rang_microserv.Features.Buildings.{
  build_feature, update_building, destroy_building, start_construction, succeeded, create_building,
  need_model, find_building_model, add_satisfaction,
}
use metaverse_rang_microserv.Features.Buildings.Construction.{IsReady, is_refused, stored}
use metaverse_rang_microserv.Features.Buildings.Refunds.{
  refusal, build_feature_loses, start_construction_puts_back, build_feature-single,
}
use metaverse_rang_microserv.Features.Buildings.Changes.{
  IsChange, update_building-destroy_building_pays,
}

-- texts without spaces at their ends, none of which is a URL
abbrev texts : Texts
texts = record { trim = λ t. t; parse_url = λ t. none }

abbrev land : Land
land = record { id = 6; owner_id = 2 }

abbrev model : BuildingModel
model = record { id = 1; model_id = 40; required_satisfaction = 100; diameter = 7 }

abbrev hundreds : Ledger
hundreds u a = if is_at 2 Asset.satisfaction u a then 500 else 0

abbrev profit_of_land : Activity
profit_of_land = record { feature_id = 6; is_active = true }

abbrev store : BuildStore Ledger
store = record {
  lands = land ∷ [];
  building_models = model ∷ [];
  buildings = [];
  activities = profit_of_land ∷ [];
  isic_codes = [];
  wallets = hundreds;
  now = 1000;
}

abbrev up : Server (BuildStore Ledger)
up = record { tables = store; fails = λ n. false; calls = 0 }

abbrev told : BuildingInformation
told = record {
  activity_line = 0x41 ∷ [];
  name = [];
  address = [];
  postal_code = [];
  website = [];
  description = [];
}

abbrev request : BuildRequest
request = record {
  feature_id = 6;
  building_model_id = some 40;
  launched_satisfaction = some 200;
  rotation = some 0;
  position = some 5;
  information = some told;
}

abbrev crooked : BuildRequest
crooked = record request { rotation = none }

owned : select (has_land_id 6) store.lands ≡ some land
unfolding select
owned = refl

unbuilt : count (on_feature 6) store.buildings ≡ 0
unfolding count
unbuilt = refl

offered : select (is_model 40) store.building_models ≡ some model
unfolding select
offered = refl

shows_funds : (open_ledger.get_wallet 2 Asset.satisfaction hundreds).0 ≡ some 500
unfolding is_at same_asset
shows_funds = refl

abbrev ready : IsReady texts open_ledger request 2 model 200 up
ready = record {
  land = land;
  found = owned;
  owned = refl;
  unbuilt = unbuilt;
  model_id = 40;
  asked = refl;
  offered = offered;
  launched = refl;
  enough = omega arith;
  shown = 500;
  shows = shows_funds;
  covered = omega arith;
}

abbrev crooked_ready : IsReady texts open_ledger crooked 2 model 200 up
crooked_ready = record {
  land = land;
  found = owned;
  owned = refl;
  unbuilt = unbuilt;
  model_id = 40;
  asked = refl;
  offered = offered;
  launched = refl;
  enough = omega arith;
  shown = 500;
  shows = shows_funds;
  covered = omega arith;
}

pays : (open_ledger.deduct_balance 2 Asset.satisfaction 200 hundreds).0 ≡ true
unfolding is_at same_asset
pays = refl

straight : is_refused texts open_ledger request ≡ false
unfolding is_refused is_empty validate_building_information
straight = refl

askew : is_refused texts open_ledger crooked ≡ true
unfolding is_refused
askew = refl

build_feature_loses_example :
    let built = build_feature texts open_ledger crooked (some 2) up in
    (built.0 ≡ err (refusal crooked))
    × (built.1.tables.buildings ≡ store.buildings)
    × (built.1.tables.wallets 2 Asset.satisfaction ≡ hundreds 2 Asset.satisfaction - 200)
build_feature_loses_example =
    build_feature_loses texts open_ledger crooked 2 model 200 up (λ n. refl) crooked_ready askew
      pays

build_feature-single_example :
    count (on_feature 6) (build_feature texts open_ledger request (some 2) up).1.tables.buildings
    ≤ 1
build_feature-single_example =
    build_feature-single texts open_ledger request (some 2) up 6 (omega (arith, unbuilt))

-- the second call, the read of the model, fails
abbrev model_down : Server (BuildStore Ledger)
model_down = record { tables = store; fails = λ n. n == 1; calls = 0 }

abbrev row : ℕ → Building
row id = record {
  feature_id = 6;
  user_id = 2;
  model_id = id;
  start_date = 1000;
  end_date = 2000;
  launched_satisfaction = 150;
  rotation = 0;
  position = 5;
  information = none;
  bubble_diameter = 7;
}

stops : (start_construction texts open_ledger request 2 model 200 row model_down).0 ≡ err build_db
unfolding start_construction succeeded create_building need_model find_building_model
    add_satisfaction
stops = refl

start_construction_puts_back_example :
    let tried = start_construction texts open_ledger request 2 model 200 row model_down in
    (tried.1.tables.buildings ≡ store.buildings)
    × (tried.1.tables.wallets ≡ (open_ledger.add_balance 2 Asset.satisfaction 200 hundreds).1)
    × (true ≡ true
        → (v : ℕ) (b : Asset)
        → tried.1.tables.wallets v b
          ≡ (if is_at 2 Asset.satisfaction v b then hundreds v b + 200 else hundreds v b))
start_construction_puts_back_example =
    start_construction_puts_back texts open_ledger request 2 model 200 row model_down build_db stops

-- a building on the land that was paid with 150
abbrev built_up : Server (BuildStore Ledger)
built_up = record up { tables = record store { buildings = row 1 ∷ [] } }

standing : select (on_feature_of 6 1) built_up.tables.buildings ≡ some (row 1)
unfolding select
standing = refl

kept_json : has_json (stored texts open_ledger request.information) ≡ true
unfolding has_json stored is_empty
kept_json = refl

abbrev change : IsChange texts open_ledger request 2 model 200 0 5 (row 1) built_up
change = record {
  land = land;
  found = owned;
  owned = refl;
  model_id = 40;
  asked = refl;
  offered = offered;
  launched = refl;
  enough = omega arith;
  shown = 500;
  shows = shows_funds;
  covered = omega arith;
  rotates = refl;
  stands = refl;
  taken = straight;
  recorded = kept_json;
  built = standing;
}

update_building-destroy_building_pays_example :
    let changed = (update_building texts open_ledger request (some 2) built_up).1 in
    let gone = destroy_building texts open_ledger 6 (some 40) (some 2) changed in
    (gone.0 ≡ ok tt)
    × (select (on_feature_of 6 1) gone.1.tables.buildings ≡ none)
    × ((v : ℕ) (a : Asset) → changed.tables.wallets v a ≡ hundreds v a)
    × (gone.1.tables.wallets 2 Asset.satisfaction ≡ hundreds 2 Asset.satisfaction + 200)
update_building-destroy_building_pays_example =
    update_building-destroy_building_pays texts open_ledger request 2 model 200 0 5 (row 1) built_up
      (λ n. refl) change (omega arith) refl

-- ۱۲۳۴۵-۶۷۸۹۰ is a postal code, and 12345 is none
persian_code :
    is_postal_code
      (0x6f1 ∷ 0x6f2 ∷ 0x6f3 ∷ 0x6f4 ∷ 0x6f5 ∷ 0x2d ∷ 0x6f6 ∷ 0x6f7 ∷ 0x6f8 ∷ 0x6f9 ∷ 0x6f0 ∷ [])
    ≡ true
unfolding is_postal_code
persian_code = refl

short_code : is_postal_code (0x31 ∷ 0x32 ∷ 0x33 ∷ 0x34 ∷ 0x35 ∷ []) ≡ false
unfolding is_postal_code
short_code = refl
