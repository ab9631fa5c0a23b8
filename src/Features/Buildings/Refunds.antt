-- ===== src/Features/Buildings/Refunds.antt =====
-- services/features-service/internal/service/building_service.go: the satisfaction that is lost, put
-- back and handed out.
use metaverse_rang_microserv.Common.{
  ℕ, ◌+◌, ◌-◌, ◌≤◌, ◌≡◌, refl, ap, ◌∙◌, true, false, Option, none, some, [], ◌∷◌, arith, ◌==◌,
  if◌then◌else◌, Option-cases, inl, inr,
}
use metaverse_rang_microserv.Common.Table.{select, count}
use metaverse_rang_microserv.Common.Table.Laws.{count-append, count_single}
use metaverse_rang_microserv.Common.Server.{Server, err, Result-cases}
use metaverse_rang_microserv.Commercial.Wallet.{Asset}
use metaverse_rang_microserv.Features.Client.Port.{WalletPort, is_at, is_at_self}
use metaverse_rang_microserv.Features.Buildings.Information.{BuildingInformation, Texts}
use metaverse_rang_microserv.Features.Buildings.Rows.{
  BuildingModel, Building, BuildStore, BuildRequest, BuildError, bad_rotation, bad_position,
  bad_information, on_feature, is_model, set_active, insert_building,
}
use metaverse_rang_microserv.Features.Buildings.{
  exec_checked, own_land, need_model, find_building_model, record_information,
  first_or_create_isic_code, insert_isic_code, check_satisfaction, show_satisfaction,
  pay_satisfaction, deduct_satisfaction, pay_and_build, new_building, start_construction, succeeded,
  create_building, add_satisfaction, build_feature,
}
use metaverse_rang_microserv.Features.Buildings.Construction.{
  IsReady, seen, is_refused, build_feature-charges,
}

-- the error of a request that is refused after it was paid for
unfoldable pub refusal : BuildRequest → BuildError
refusal req = elim req.rotation [
  | none ↦ bad_rotation
  | some r ↦ elim req.position [ none ↦ bad_position | some p ↦ bad_information ]
]

module _ {W : Type 0} (texts : Texts) (port : WalletPort W) where
  -- On a server where no call fails, a request that is ready, that the wallet pays for and whose
  -- rotation, position or information is refused errs with the satisfaction taken from the user,
  -- with no building added and nothing put back.
  pub build_feature_loses :
      (req : BuildRequest) (u : ℕ) (m : BuildingModel) (l : ℕ) (s : Server (BuildStore W))
      → ((n : ℕ) → s.fails n ≡ false)
      → IsReady texts port req u m l s
      → is_refused texts port req ≡ true
      → (port.deduct_balance u Asset.satisfaction l (seen texts port u s.tables).wallets).0 ≡ true
      → let built = build_feature texts port req (some u) s in
        (built.0 ≡ err (refusal req))
        × (built.1.tables.buildings ≡ s.tables.buildings)
        × (port.funds u Asset.satisfaction built.1.tables.wallets
            ≡ port.funds u Asset.satisfaction s.tables.wallets - l)
  unfolding pay_and_build pay_satisfaction deduct_satisfaction record_information is_refused refusal
  build_feature_loses req u m l s up ready bad pays = ground (
    arith,
    build_feature-charges texts port req u m l s up ready,
    bad,
    pays,
    port.get_keeps u Asset.satisfaction s.tables.wallets u Asset.satisfaction,
    port.deduct_moves u Asset.satisfaction l (seen texts port u s.tables).wallets u
        Asset.satisfaction,
    is_at_self u Asset.satisfaction,
  )

  start_construction-refunds :
      (req : BuildRequest) (u : ℕ) (m : BuildingModel) (l : ℕ) (row : ℕ → Building)
      (s : Server (BuildStore W)) (e : BuildError)
      → (start_construction texts port req u m l row s).0 ≡ err e
      → ((start_construction texts port req u m l row s).1.tables.buildings ≡ s.tables.buildings)
        × ((start_construction texts port req u m l row s).1.tables.wallets
            ≡ (port.add_balance u Asset.satisfaction l s.tables.wallets).1)
  unfolding start_construction succeeded create_building exec_checked need_model find_building_model
      add_satisfaction set_active insert_building
  start_construction-refunds req u m l row s e failed = ground (arith, failed)

  -- An error of the steps after the payment, whichever call failed, adds no building. Where the
  -- wallets take the refund, the user has the satisfaction of the request more than before the steps
  -- and no other balance moves; where they refuse it, the error is the same and what they answered
  -- stays.
  pub start_construction_puts_back :
      (req : BuildRequest) (u : ℕ) (m : BuildingModel) (l : ℕ) (row : ℕ → Building)
      (s : Server (BuildStore W)) (e : BuildError)
      → (start_construction texts port req u m l row s).0 ≡ err e
      → ((start_construction texts port req u m l row s).1.tables.buildings ≡ s.tables.buildings)
        × ((start_construction texts port req u m l row s).1.tables.wallets
            ≡ (port.add_balance u Asset.satisfaction l s.tables.wallets).1)
        × ((port.add_balance u Asset.satisfaction l s.tables.wallets).0 ≡ true
            → (v : ℕ) (b : Asset)
            → port.funds v b (start_construction texts port req u m l row s).1.tables.wallets ≡ (
                if is_at u Asset.satisfaction v b
                then port.funds v b s.tables.wallets + l
                else port.funds v b s.tables.wallets))
  start_construction_puts_back req u m l row s e failed =
      let (same, wallets) = start_construction-refunds req u m l row s e failed in
      (
        same,
        wallets,
        λ takes v b.
            ap (port.funds v b) wallets
            ∙ port.add_moves u Asset.satisfaction l s.tables.wallets v b takes,
      )

  -- what the steps after the payment do to the buildings of a land
  start_construction-count :
      (req : BuildRequest) (u : ℕ) (m : BuildingModel) (l : ℕ) (row : ℕ → Building)
      (s : Server (BuildStore W)) (g : ℕ)
      → ((n : ℕ) → (row n).feature_id ≡ req.feature_id)
      → count (on_feature g) (start_construction texts port req u m l row s).1.tables.buildings
        ≤ count (on_feature g) s.tables.buildings + (if req.feature_id == g then 1 else 0)
  unfolding start_construction succeeded create_building exec_checked need_model find_building_model
      add_satisfaction set_active insert_building
  start_construction-count req u m l row s g on = elim (Option-cases req.building_model_id) [
    | inl unnamed ↦ ground (arith, unnamed)
    | inr (id, named) ↦ elim (Option-cases (select (is_model id) s.tables.building_models)) [
      | inl missing ↦ ground (arith, named, missing)
      | inr (m', at) ↦ ground (
        arith,
        named,
        at,
        on m'.id,
        count-append (on_feature g) s.tables.buildings (row m'.id ∷ []),
        count_single (on_feature g) (row m'.id),
      )
    ]
  ]

  record_information-keeps :
      (info : Option BuildingInformation) (s : Server (BuildStore W))
      → ((record_information texts info s).1.tables.buildings ≡ s.tables.buildings)
        × ((record_information texts info s).1.tables.wallets ≡ s.tables.wallets)
  unfolding record_information first_or_create_isic_code insert_isic_code
  record_information-keeps none s = (refl, refl)
  record_information-keeps (some i) s = (ground arith, ground arith)

  pay_and_build-count :
      (req : BuildRequest) (u : ℕ) (m : BuildingModel) (l : ℕ) (s : Server (BuildStore W)) (g : ℕ)
      → count (on_feature g) (pay_and_build texts port req u m l s).1.tables.buildings
        ≤ count (on_feature g) s.tables.buildings + (if req.feature_id == g then 1 else 0)
  unfolding pay_and_build pay_satisfaction deduct_satisfaction new_building
  pay_and_build-count req u m l s g =
      let paid : Server (BuildStore W) = record s {
        tables = record s.tables {
          wallets = (port.deduct_balance u Asset.satisfaction l s.tables.wallets).1;
        };
      } in
      let told = record_information texts req.information paid in
      elim (Option-cases req.rotation) [
        | inl none_given ↦ ground (arith, none_given)
        | inr (r, rotates) ↦ elim (Option-cases req.position) [
          | inl none_given ↦ ground (arith, none_given, rotates)
          | inr (p, stands) ↦ elim (Result-cases told.0) [
            | inl (e, failed) ↦
                ground
                  (arith, rotates, stands, failed, record_information-keeps req.information paid)
            | inr (info, stores) ↦ ground (
              arith,
              rotates,
              stands,
              stores,
              record_information-keeps req.information paid,
              start_construction-count req u m l
                  (new_building texts port req.feature_id u m l r p info told.1.tables.now) told.1 g
                  (λ n. refl),
            )
          ]
        ]
      ]

  own_land-keeps :
      (id : ℕ) (user : Option ℕ) (s : Server (BuildStore W))
      → (own_land id user s).1.tables ≡ s.tables
  unfolding own_land
  own_land-keeps id user s = ground arith

  need_model-keeps :
      (id : Option ℕ) (s : Server (BuildStore W)) → (need_model id s).1.tables ≡ s.tables
  unfolding need_model find_building_model
  need_model-keeps none s = refl
  need_model-keeps (some id) s = ground arith

  check_satisfaction-keeps :
      (launched : Option ℕ) (m : BuildingModel) (u : ℕ) (s : Server (BuildStore W))
      → (check_satisfaction texts port launched m u s).1.tables.buildings ≡ s.tables.buildings
  unfolding check_satisfaction show_satisfaction
  check_satisfaction-keeps launched m u s = ground arith

  -- A land with at most one building has at most one after BuildFeature, whatever fails.
  pub build_feature-single :
      (req : BuildRequest) (user : Option ℕ) (s : Server (BuildStore W)) (g : ℕ)
      → count (on_feature g) s.tables.buildings ≤ 1
      → count (on_feature g) (build_feature texts port req user s).1.tables.buildings ≤ 1
  unfolding build_feature
  build_feature-single req user s g single =
      let own = own_land req.feature_id user s in
      elim (Result-cases own.0) [
        | inl (e, failed) ↦ ground (arith, failed, single, own_land-keeps req.feature_id user s)
        | inr (u, owns) ↦
            let s' : Server (BuildStore W) = record own.1 { calls = own.1.calls + 1 } in
            let model = need_model req.building_model_id s' in
            elim (Result-cases model.0) [
              | inl (e, failed) ↦ ground (
                arith,
                owns,
                failed,
                single,
                own_land-keeps req.feature_id user s,
                need_model-keeps req.building_model_id s',
              )
              | inr (m, finds) ↦
                  let checked =
                    check_satisfaction texts port req.launched_satisfaction m u model.1 in
                  elim (Result-cases checked.0) [
                    | inl (e, failed) ↦ ground (
                      arith,
                      owns,
                      finds,
                      failed,
                      single,
                      own_land-keeps req.feature_id user s,
                      need_model-keeps req.building_model_id s',
                      check_satisfaction-keeps req.launched_satisfaction m u model.1,
                    )
                    | inr (l, enough) ↦ ground (
                      arith,
                      owns,
                      finds,
                      enough,
                      single,
                      own_land-keeps req.feature_id user s,
                      need_model-keeps req.building_model_id s',
                      check_satisfaction-keeps req.launched_satisfaction m u model.1,
                      pay_and_build-count req u m l checked.1 g,
                    )
                  ]
            ]
      ]
