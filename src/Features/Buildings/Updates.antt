-- ===== src/Features/Buildings/Updates.antt =====
-- services/features-service/internal/service/building_service.go: what UpdateBuildingInformation
-- stores.
use metaverse_rang_microserv.Common.{ℕ, ◌≡◌, true, false, Option, some, arith, if◌then◌else◌}
use metaverse_rang_microserv.Common.Server.{Server, ok}
use metaverse_rang_microserv.Features.Buildings.Information.{
  Text, Texts, BuildingInformation, is_empty, validate_building_information,
  merge_building_information, merge_fields, merged_field, or_no_information, has_no_field,
}
use metaverse_rang_microserv.Features.Buildings.Rows.{BuildStore}
use metaverse_rang_microserv.Features.Buildings.{update_building_information}

module _ (texts : Texts) where
  -- what a field is after a merge: the new text trimmed, or the old text where the new one is empty
  abbrev pub Merged : Text → Text → Text → Type 0
  Merged old new result = result ≡ (if is_empty new then old else texts.trim new)

  -- A merge that goes through takes each field from the update, trimmed, where the update has it and
  -- from the building where it has not, and is not empty.
  pub merge_building_information-fields :
      (old new result : BuildingInformation)
      → merge_building_information texts (some old) new ≡ some result
      → Merged old.activity_line new.activity_line result.activity_line
        × Merged old.name new.name result.name
        × Merged old.address new.address result.address
        × Merged old.postal_code new.postal_code result.postal_code
        × Merged old.website new.website result.website
        × Merged old.description new.description result.description
        × (has_no_field result ≡ false)
  unfolding merge_building_information merge_fields merged_field or_no_information
  merge_building_information-fields old new result h = ground (arith, h)

  module _ {W : Type 0} where
    -- Information that UpdateBuildingInformation answers is valid, whatever calls fail.
    pub update_building_information-valid :
        (feature_id : ℕ) (id user : Option ℕ) (change : Option BuildingInformation)
        (s : Server (BuildStore W)) (info : BuildingInformation)
        → (update_building_information texts feature_id id change user s).0 ≡ ok info
        → validate_building_information texts info ≡ true
    unfolding update_building_information
    update_building_information-valid feature_id id user change s info h = ground (arith, h)
