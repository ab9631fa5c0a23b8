-- ===== src/Features/Buildings.antt =====
-- services/features-service/internal/service/building_service.go with
-- internal/repository/building_repository.go and the two UPDATEs of hourly_profit_repository.go that
-- it calls: the construction of buildings. Satisfaction is in quanta of the wallets, times are in
-- seconds and the clock stands still while a handler runs. A text of the request that is a number is
-- that number, or none where it cannot be read. The texts of the 3D models, the columns of the rows
-- that are only shown, and the lists are left out.
pub mod Information
pub mod Rows
pub mod Construction
pub mod Refunds
pub mod Changes
pub mod Updates
mod Tests
use metaverse_rang_microserv.Common.{
  ℕ, ◌+◌, ◌*◌, ◌/◌, Bool, true, false, not, ◌&&◌, ◌||◌, Option, none, some, List, [], ◌∷◌, ◌++◌,
  ltb, ◌==◌, if◌then◌else◌,
}
use metaverse_rang_microserv.Common.Table.{select, select_all, count, update, delete}
use metaverse_rang_microserv.Common.Server.{
  Server, Action, ok, err, is_ok, pure, raise, or_raise, query, query_or, exec, try_exec, raise_if,
  ◌>>=◌, ◌>>◌,
}
use metaverse_rang_microserv.Commercial.Wallet.{Asset}
use metaverse_rang_microserv.Features.Client.Port.{WalletPort}
use Information.{
  Text, BuildingInformation, Texts, is_empty, same_text, validate_building_information,
  trim_information, merge_building_information,
}
use metaverse_rang_microserv.Features.Buildings.Rows.{
  has_json, Activity, BuildError, BuildRequest, BuildStore, Building, BuildingModel, Land,
  already_built, bad_information, bad_number, bad_position, bad_rotation, build_db,
  building_not_found, construction_seconds, delete_buildings, has_land_id, insert_building,
  insufficient_satisfaction, is_model, land_not_found, model_not_found, no_wallet, not_land_owner,
  on_feature, on_feature_of, set_active, set_buildings, too_little, unauthenticated, wallet_refused,
}

abbrev pub BuildAction : Type 0 → Type 0 → Type 0
BuildAction W = Action (BuildStore W) BuildError

module _ {W : Type 0} where
  -- whether an action went through, for a caller that cleans up after it
  unfoldable pub succeeded : BuildAction W (Unit {0}) → BuildAction W Bool
  succeeded m s = (ok (is_ok (m s).0), (m s).1)

  -- the user of the context, who must own the land
  unfoldable pub own_land : ℕ → Option ℕ → BuildAction W ℕ
  own_land feature_id user = do
    land ← query land_not_found (λ t. select (has_land_id feature_id) t.lands)
    f ← or_raise land land_not_found
    u ← or_raise user unauthenticated
    raise_if (not (f.owner_id == u)) not_land_owner
    pure u

  -- `FindBuildingModelByModelID`
  unfoldable pub find_building_model : Option ℕ → BuildAction W (Option BuildingModel)
  find_building_model none = raise build_db
  find_building_model (some id) = query build_db (λ t. select (is_model id) t.building_models)

  -- the same, and the test for nil
  unfoldable pub need_model : Option ℕ → BuildAction W BuildingModel
  unfolding find_building_model
  need_model id = do model ← find_building_model id; or_raise model model_not_found

  -- `FindBuildingByFeatureAndModel`
  unfoldable pub find_building : ℕ → Option ℕ → BuildAction W (Option Building)
  unfolding find_building_model
  find_building feature_id id = do
    model ← find_building_model id
    elim model [
      | none ↦ pure none
      | some m ↦ query build_db (λ t. select (on_feature_of feature_id m.id) t.buildings)
    ]

  -- A write of a row, which the CHECK of the column information refuses where it gets the empty text.
  unfoldable pub exec_checked :
      Option BuildingInformation → (BuildStore W → BuildStore W) → BuildAction W (Unit {0})
  unfolding has_json
  exec_checked info f =
      if has_json info then exec build_db f else (exec build_db (λ t. t) >> raise build_db)

  unfoldable pub create_building : Option ℕ → (ℕ → Building) → BuildAction W (Unit {0})
  unfolding need_model exec_checked
  create_building id row = do
    m ← need_model id
    exec_checked (row m.id).information (insert_building (row m.id))

  unfoldable pub has_isic_code : Text → BuildStore W → Bool
  has_isic_code line t = ltb 0 (count (same_text line) t.isic_codes)

  unfoldable pub insert_isic_code : Text → BuildStore W → BuildStore W
  insert_isic_code line t = record t { isic_codes = t.isic_codes ++ (line ∷ []) }

  -- `FirstOrCreateIsicCode`
  unfoldable pub first_or_create_isic_code : Text → BuildAction W (Unit {0})
  unfolding has_isic_code
  first_or_create_isic_code line = do
    found ← query build_db (has_isic_code line)
    if found then pure tt else exec build_db (insert_isic_code line)

  module _ (texts : Texts) where
    -- the JSON that is stored, with the ISIC code, where there is an activity line
    unfoldable pub record_information :
        Option BuildingInformation → BuildAction W (Option BuildingInformation)
    unfolding first_or_create_isic_code
    record_information none = pure none
    record_information (some info) = if is_empty info.activity_line then pure none else (do
      raise_if (not (validate_building_information texts info)) bad_information
      first_or_create_isic_code (texts.trim info.activity_line)
      pure (some (trim_information texts info)))

    -- `UpdateBuildingInformation`
    unfoldable pub update_building_information :
        ℕ → Option ℕ → Option BuildingInformation → Option ℕ → BuildAction W BuildingInformation
    unfolding own_land need_model find_building first_or_create_isic_code
    update_building_information feature_id id change user = do
      own_land feature_id user >>= λ u. pure tt
      m ← need_model id
      existing ← find_building feature_id id
      b ← or_raise existing building_not_found
      new ← or_raise change bad_information
      info ← or_raise (merge_building_information texts b.information new) bad_information
      raise_if (not (validate_building_information texts info)) bad_information
      (if is_empty (texts.trim info.activity_line)
          then pure tt
          else first_or_create_isic_code (texts.trim info.activity_line))
      m' ← need_model id
      exec build_db (set_buildings feature_id m'.id (λ c. record c { information = some info }))
      pure info

    module _ (port : WalletPort W) where
      -- what the wallet of the user shows
      unfoldable pub show_satisfaction : ℕ → BuildAction W ℕ
      show_satisfaction u s =
          let (shown, w) = port.get_wallet u Asset.satisfaction s.tables.wallets in
          or_raise shown no_wallet (record s { tables = record s.tables { wallets = w } })

      -- calls of the commercial client; true is a nil error
      unfoldable pub deduct_satisfaction : ℕ → ℕ → BuildAction W Bool
      deduct_satisfaction u x s =
          let (done, w) = port.deduct_balance u Asset.satisfaction x s.tables.wallets in
          (ok done, record s { tables = record s.tables { wallets = w } })

      unfoldable pub add_satisfaction : ℕ → ℕ → BuildAction W (Unit {0})
      add_satisfaction u x s =
          let (done, w) = port.add_balance u Asset.satisfaction x s.tables.wallets in
          (ok tt, record s { tables = record s.tables { wallets = w } })

      -- the satisfaction of the request: at least what the model asks for, at most what is there
      unfoldable pub check_satisfaction : Option ℕ → BuildingModel → ℕ → BuildAction W ℕ
      unfolding show_satisfaction
      check_satisfaction launched m u = do
        l ← or_raise launched bad_number
        raise_if (ltb l m.required_satisfaction) too_little
        shown ← show_satisfaction u
        raise_if (ltb shown l) insufficient_satisfaction
        pure l

      unfoldable pub pay_satisfaction : ℕ → ℕ → BuildAction W (Unit {0})
      unfolding deduct_satisfaction
      pay_satisfaction u l = deduct_satisfaction u l >>= λ paid. raise_if (not paid) wallet_refused

      -- steps 10 to 13, which put back what was taken where they fail
      unfoldable pub start_construction :
          BuildRequest → ℕ → BuildingModel → ℕ → (ℕ → Building) → BuildAction W (List Building)
      unfolding add_satisfaction succeeded create_building
      start_construction req u m l row = do
        stopped ← succeeded (exec build_db (set_active req.feature_id false))
        (if stopped then pure tt else (add_satisfaction u l >> raise build_db))
        created ← succeeded (create_building req.building_model_id row)
        (if created
            then pure tt
            else (try_exec (set_active req.feature_id true)
                >> add_satisfaction u l
                >> raise build_db))
        query_or [] (λ t. select_all (on_feature req.feature_id) t.buildings)

      -- the row that is inserted, with the id of the model
      unfoldable pub new_building :
          ℕ → ℕ → BuildingModel → ℕ → ℕ → ℕ → Option BuildingInformation → ℕ → ℕ → Building
      unfolding construction_seconds
      new_building feature_id u m l rotation position info now model_id = record {
        feature_id = feature_id;
        user_id = u;
        model_id = model_id;
        start_date = now;
        end_date = now + construction_seconds m.required_satisfaction l;
        launched_satisfaction = l;
        rotation = rotation;
        position = position;
        information = info;
        bubble_diameter = m.diameter;
      }

      -- steps 5 to 13
      unfoldable pub pay_and_build :
          BuildRequest → ℕ → BuildingModel → ℕ → BuildAction W (List Building)
      unfolding pay_satisfaction record_information start_construction new_building
      pay_and_build req u m l = do
        pay_satisfaction u l
        rotation ← or_raise req.rotation bad_rotation
        position ← or_raise req.position bad_position
        info ← record_information req.information
        λ s.
            start_construction req u m l
              (new_building req.feature_id u m l rotation position info s.tables.now) s

      -- `BuildFeature`
      unfoldable pub build_feature : BuildRequest → Option ℕ → BuildAction W (List Building)
      unfolding own_land need_model check_satisfaction pay_and_build
      build_feature req user = do
        u ← own_land req.feature_id user
        built ← query build_db (λ t. count (on_feature req.feature_id) t.buildings)
        raise_if (ltb 0 built) already_built
        m ← need_model req.building_model_id
        l ← check_satisfaction req.launched_satisfaction m u
        pay_and_build req u m l

      -- the columns that the UPDATE of `UpdateBuilding` sets
      unfoldable pub rebuilt : ℕ → ℕ → ℕ → Option BuildingInformation → ℕ → ℕ → Building → Building
      rebuilt l rotation position info end_date diameter b = record b {
        launched_satisfaction = l;
        rotation = rotation;
        position = position;
        information = info;
        end_date = end_date;
        bubble_diameter = diameter;
      }

      -- steps 4 to 10 of `UpdateBuilding`
      unfoldable pub change_building :
          BuildRequest → BuildingModel → ℕ → BuildAction W (Option Building)
      unfolding need_model find_building record_information rebuilt construction_seconds
          exec_checked
      change_building req m l = do
        rotation ← or_raise req.rotation bad_rotation
        position ← or_raise req.position bad_position
        existing ← find_building req.feature_id req.building_model_id
        b ← or_raise existing building_not_found
        info ← record_information req.information
        m' ← need_model req.building_model_id
        exec_checked info (
            set_buildings req.feature_id m'.id (
              rebuilt l rotation position info
                (b.start_date + construction_seconds m.required_satisfaction l) b.bubble_diameter))
        find_building req.feature_id req.building_model_id

      -- `UpdateBuilding`
      unfoldable pub update_building : BuildRequest → Option ℕ → BuildAction W (Option Building)
      unfolding own_land need_model check_satisfaction change_building
      update_building req user = do
        u ← own_land req.feature_id user
        m ← need_model req.building_model_id
        l ← check_satisfaction req.launched_satisfaction m u
        change_building req m l

      -- `DestroyBuilding`
      unfoldable pub destroy_building : ℕ → Option ℕ → Option ℕ → BuildAction W (Unit {0})
      unfolding own_land find_building need_model add_satisfaction
      destroy_building feature_id id user = do
        u ← own_land feature_id user
        existing ← find_building feature_id id
        b ← or_raise existing building_not_found
        m ← need_model id
        exec build_db (delete_buildings feature_id m.id)
        try_exec (set_active feature_id true)
        (if ltb 0 b.launched_satisfaction
            then add_satisfaction u b.launched_satisfaction
            else pure tt)
