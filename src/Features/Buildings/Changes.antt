-- ===== src/Features/Buildings/Changes.antt =====
-- services/features-service/internal/service/building_service.go: what UpdateBuilding and
-- DestroyBuilding do to the satisfaction of the user.
use metaverse_rang_microserv.Common.{
  ℕ, ◌+◌, ◌≤◌, ◌<◌, ◌≡◌, refl, ap, ◌∙◌, true, false, none, some, List, arith,
}
use metaverse_rang_microserv.Common.Table.{select, update}
use metaverse_rang_microserv.Common.Table.Laws.{select-update, select-test, select-delete_self}
use metaverse_rang_microserv.Common.Server.{Server, ok}
use metaverse_rang_microserv.Commercial.Wallet.{Asset}
use metaverse_rang_microserv.Features.Client.Port.{WalletPort, is_at_self}
use metaverse_rang_microserv.Features.Buildings.Information.{Text, Texts}
use metaverse_rang_microserv.Features.Buildings.Rows.{
  has_json, Land, BuildingModel, Building, BuildStore, BuildRequest, has_land_id, on_feature_of,
  is_model, set_active, set_buildings, delete_buildings, construction_seconds,
}
use metaverse_rang_microserv.Features.Buildings.{
  exec_checked, own_land, need_model, find_building_model, find_building, check_satisfaction,
  show_satisfaction, add_satisfaction, change_building, update_building, destroy_building, rebuilt,
}
use metaverse_rang_microserv.Features.Buildings.Construction.{
  seen, is_refused, stored, record_information-runs,
}

module _ {W : Type 0} (texts : Texts) (port : WalletPort W) where
  -- On a server where no call fails, the owner who destroys a building is credited what it has.
  destroy_building-pays :
      (feature_id id : ℕ) (u : ℕ) (m : BuildingModel) (b : Building) (land : Land)
      (s : Server (BuildStore W))
      → ((n : ℕ) → s.fails n ≡ false)
      → select (has_land_id feature_id) s.tables.lands ≡ some land
      → land.owner_id ≡ u
      → select (is_model id) s.tables.building_models ≡ some m
      → select (on_feature_of feature_id m.id) s.tables.buildings ≡ some b
      → 0 < b.launched_satisfaction
      → destroy_building texts port feature_id (some id) (some u) s ≡ (
        ok tt,
        record s {
          tables = record (set_active feature_id true (delete_buildings feature_id m.id s.tables)) {
            wallets =
                (port.add_balance u Asset.satisfaction b.launched_satisfaction s.tables.wallets).1;
          };
          calls = s.calls + 6;
        },
      )
  unfolding destroy_building own_land find_building need_model find_building_model add_satisfaction
      delete_buildings set_active
  destroy_building-pays feature_id id u m b land s up found owned offered stands some_paid =
      ground (
        arith,
        found,
        owned,
        offered,
        stands,
        some_paid,
        up s.calls,
        up (s.calls + 1),
        up (s.calls + 2),
        up (s.calls + 3),
        up (s.calls + 4),
        up (s.calls + 5),
      )

  -- what a request must meet to change building `b`, which stands on land of user `u`
  pub record IsChange (req : BuildRequest) (u : ℕ) (m : BuildingModel) (l r p : ℕ) (b : Building)
      (s : Server (BuildStore W)) : Type 0 where
    pub land : Land
    pub found : select (has_land_id req.feature_id) s.tables.lands ≡ some land
    pub owned : land.owner_id ≡ u
    pub model_id : ℕ
    pub asked : req.building_model_id ≡ some model_id
    pub offered : select (is_model model_id) s.tables.building_models ≡ some m
    pub launched : req.launched_satisfaction ≡ some l
    pub enough : m.required_satisfaction ≤ l
    pub shown : ℕ
    pub shows : (port.get_wallet u Asset.satisfaction s.tables.wallets).0 ≡ some shown
    pub covered : l ≤ shown
    pub rotates : req.rotation ≡ some r
    pub stands : req.position ≡ some p
    pub taken : is_refused texts port req ≡ false
    pub recorded : has_json (stored texts port req.information) ≡ true
    pub built : select (on_feature_of req.feature_id m.id) s.tables.buildings ≡ some b

  unfoldable pub changed : BuildRequest → BuildingModel → ℕ → ℕ → ℕ → Building → Building → Building
  unfolding rebuilt
  changed req m l r p b =
      rebuilt texts port l r p (stored texts port req.information)
        (b.start_date + construction_seconds m.required_satisfaction l) b.bubble_diameter

  unfoldable pub changed_store :
      BuildRequest
      → ℕ
      → BuildingModel
      → ℕ
      → ℕ
      → ℕ
      → Building
      → List Text
      → BuildStore W
      → BuildStore W
  changed_store req u m l r p b codes t =
      set_buildings req.feature_id m.id (changed req m l r p b)
        (record (seen texts port u t) { isic_codes = codes })

  select-changed :
      (req : BuildRequest) (m : BuildingModel) (l r p : ℕ) (b : Building) (l' : List Building)
      → select (on_feature_of req.feature_id m.id) l' ≡ some b
      → select
          (on_feature_of req.feature_id m.id)
          (update (on_feature_of req.feature_id m.id) (changed req m l r p b) l')
        ≡ some (changed req m l r p b b)
  unfolding changed
  select-changed req m l r p b l' at = ground (
    arith,
    at,
    select-test (on_feature_of req.feature_id m.id) l' b at,
    select-update (on_feature_of req.feature_id m.id) (on_feature_of req.feature_id m.id)
        (changed req m l r p b) l' (λ c. refl),
  )

  update_building-runs :
      (req : BuildRequest) (u : ℕ) (m : BuildingModel) (l r p : ℕ) (b : Building)
      (s : Server (BuildStore W))
      → ((n : ℕ) → s.fails n ≡ false)
      → IsChange req u m l r p b s
      → (codes : List Text) × ((n : ℕ) × (update_building texts port req (some u) s ≡ (
        ok (some (changed req m l r p b b)),
        record s { tables = changed_store req u m l r p b codes s.tables; calls = n },
      )))
  unfolding update_building change_building exec_checked own_land need_model find_building
      find_building_model check_satisfaction show_satisfaction changed_store changed set_buildings
      is_refused
  update_building-runs req u m l r p b s up change =
      let s' : Server (BuildStore W) = record s {
        tables = seen texts port u s.tables;
        calls = s.calls + 4;
      } in
      let (codes, (n, runs)) =
        record_information-runs texts port req.information s' up (ground (arith, change)) in
      (
        codes,
        (
          n + 4,
          ground (
            arith,
            change,
            runs,
            select-changed req m l r p b s.tables.buildings change.built,
            up s.calls,
            up (s.calls + 1),
            up (s.calls + 2),
            up (s.calls + 3),
            up n,
            up (n + 1),
            up (n + 2),
            up (n + 3),
          ),
        ),
      )

  -- On a server where no call fails, where the wallets take the credit, UpdateBuilding moves no
  -- balance, and the owner who destroys the building after it is credited the satisfaction of that
  -- request, whatever was paid for the building; no building of the model is left on the land.
  pub update_building-destroy_building_pays :
      (req : BuildRequest) (u : ℕ) (m : BuildingModel) (l r p : ℕ) (b : Building)
      (s : Server (BuildStore W))
      → ((n : ℕ) → s.fails n ≡ false)
      → IsChange req u m l r p b s
      → 0 < l
      → (port.add_balance u Asset.satisfaction l (seen texts port u s.tables).wallets).0 ≡ true
      → let changed = (update_building texts port req (some u) s).1 in
        let gone =
          destroy_building texts port req.feature_id req.building_model_id (some u) changed in
        (gone.0 ≡ ok tt)
        × (select (on_feature_of req.feature_id m.id) gone.1.tables.buildings ≡ none)
        × ((v : ℕ) (a : Asset)
            → port.funds v a changed.tables.wallets ≡ port.funds v a s.tables.wallets)
        × (port.funds u Asset.satisfaction gone.1.tables.wallets
            ≡ port.funds u Asset.satisfaction s.tables.wallets + l)
  unfolding changed_store changed set_buildings delete_buildings set_active rebuilt
  update_building-destroy_building_pays req u m l r p b s up change some_paid takes =
      let (codes, (n, runs)) = update_building-runs req u m l r p b s up change in
      let s' : Server (BuildStore W) = record s {
        tables = changed_store req u m l r p b codes s.tables;
        calls = n;
      } in
      let ends =
        destroy_building-pays req.feature_id change.model_id u m (changed req m l r p b b)
          change.land s' up change.found change.owned change.offered
          (select-changed req m l r p b s.tables.buildings change.built) some_paid in
      let taken = λ (x : Server (BuildStore W)).
        destroy_building texts port req.feature_id req.building_model_id (some u) x in
      let whole =
        ap (λ x. taken x.1) runs
        ∙ (ap (λ i. destroy_building texts port req.feature_id i (some u) s') change.asked
            ∙ ends) in
      (
        ap (λ x. x.0) whole,
        ap (λ x. select (on_feature_of req.feature_id m.id) x.1.tables.buildings) whole
            ∙ select-delete_self (on_feature_of req.feature_id m.id) s'.tables.buildings,
        λ v a.
            ap (λ x. port.funds v a x.1.tables.wallets) runs
            ∙ port.get_keeps u Asset.satisfaction s.tables.wallets v a,
        ap (λ x. port.funds u Asset.satisfaction x.1.tables.wallets) whole
            ∙ ground (
              arith,
              port.get_keeps u Asset.satisfaction s.tables.wallets u Asset.satisfaction,
              port.add_moves u Asset.satisfaction l (seen texts port u s.tables).wallets u
                  Asset.satisfaction,
              takes,
              is_at_self u Asset.satisfaction,
            ),
      )
