-- ===== src/Features/Buildings/Rows.antt =====
-- services/features-service/internal/repository/building_repository.go: the rows of the lands, the
-- models and the buildings, and the statements on them.
use metaverse_rang_microserv.Common.{
  none, some, true, false, ℕ, ◌*◌, ◌/◌, Bool, ◌&&◌, ◌||◌, Option, List, [], ◌∷◌, ◌++◌, ◌==◌,
}
use metaverse_rang_microserv.Common.Table.{update, delete}
use metaverse_rang_microserv.Features.Buildings.Information.{Text, BuildingInformation}

-- the columns of `features` that are read
pub record Land : Type 0 where
  pub id : ℕ
  pub owner_id : ℕ

-- `diameter` is what CalculateBubbleDiameter makes of the attributes
pub record BuildingModel : Type 0 where
  pub id : ℕ
  pub model_id : ℕ
  pub required_satisfaction : ℕ
  pub diameter : ℕ

pub record Building : Type 0 where
  pub feature_id : ℕ
  pub user_id : ℕ
  pub model_id : ℕ
  pub start_date : ℕ
  pub end_date : ℕ
  pub launched_satisfaction : ℕ
  pub rotation : ℕ
  pub position : ℕ
  pub information : Option BuildingInformation
  pub bubble_diameter : ℕ

pub record Activity : Type 0 where
  pub feature_id : ℕ
  pub is_active : Bool

pub record BuildStore (W : Type 0) : Type 0 where
  pub lands : List Land
  pub building_models : List BuildingModel
  pub buildings : List Building
  pub activities : List Activity
  pub isic_codes : List Text
  pub wallets : W
  pub now : ℕ

pub record BuildRequest : Type 0 where
  pub feature_id : ℕ
  pub building_model_id : Option ℕ
  pub launched_satisfaction : Option ℕ
  pub rotation : Option ℕ
  pub position : Option ℕ
  pub information : Option BuildingInformation

pub data BuildError : Type 0 where
  land_not_found unauthenticated not_land_owner already_built model_not_found : BuildError
  bad_number too_little no_wallet insufficient_satisfaction wallet_refused : BuildError
  bad_rotation bad_position bad_information building_not_found build_db : BuildError

abbrev pub has_land_id : ℕ → Land → Bool
has_land_id id f = f.id == id

abbrev pub on_feature : ℕ → Building → Bool
on_feature feature_id b = b.feature_id == feature_id

abbrev pub is_model : ℕ → BuildingModel → Bool
is_model id m = m.model_id == id || m.id == id

abbrev pub on_feature_of : ℕ → ℕ → Building → Bool
on_feature_of feature_id model_id b = b.feature_id == feature_id && b.model_id == model_id

-- `required_satisfaction * 288000 / launched_satisfaction` hours, as whole seconds, where the
-- satisfaction launched is not 0
unfoldable pub construction_seconds : ℕ → ℕ → ℕ
construction_seconds required launched = required * 288000 * 3600 / launched

-- `json_valid(information)`, where none is the empty text that the handlers write without an activity
-- line
unfoldable pub has_json : Option BuildingInformation → Bool
has_json none = false
has_json (some info) = true

unfoldable pub set_active : {W : Type 0} → ℕ → Bool → BuildStore W → BuildStore W
set_active feature_id active t = record t {
  activities =
      update (λ a. a.feature_id == feature_id) (λ a. record a { is_active = active }) t.activities;
}

unfoldable pub insert_building : {W : Type 0} → Building → BuildStore W → BuildStore W
insert_building b t = record t { buildings = t.buildings ++ (b ∷ []) }

unfoldable pub delete_buildings : {W : Type 0} → ℕ → ℕ → BuildStore W → BuildStore W
delete_buildings feature_id model_id t = record t {
  buildings = delete (on_feature_of feature_id model_id) t.buildings;
}

unfoldable pub set_buildings :
    {W : Type 0} → ℕ → ℕ → (Building → Building) → BuildStore W → BuildStore W
set_buildings feature_id model_id f t = record t {
  buildings = update (on_feature_of feature_id model_id) f t.buildings;
}
