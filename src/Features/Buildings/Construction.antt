-- ===== src/Features/Buildings/Construction.antt =====
-- services/features-service/internal/service/building_service.go: what BuildFeature takes, builds and
-- puts back.
use metaverse_rang_microserv.Common.{
  ℕ, ◌+◌, ◌*◌, ◌≤◌, ◌<◌, ◌≡◌, refl, Bool, true, false, not, ◌||◌, Option, none, some, List, [], ◌∷◌,
  ◌++◌, arith, if◌then◌else◌, Bool-cases, inl, inr,
}
use metaverse_rang_microserv.Common.Table.{select, count}
use metaverse_rang_microserv.Common.Server.{Server, ok}
use metaverse_rang_microserv.Commercial.Wallet.{Asset}
use metaverse_rang_microserv.Features.Client.Port.{WalletPort}
use metaverse_rang_microserv.Features.Buildings.Information.{
  Text, BuildingInformation, Texts, is_empty, validate_building_information, trim_information,
}
use metaverse_rang_microserv.Features.Buildings.Rows.{
  Land, BuildingModel, Building, BuildStore, BuildRequest, has_land_id, on_feature, is_model,
  set_active, insert_building, construction_seconds,
}
use metaverse_rang_microserv.Features.Buildings.{
  own_land, need_model, find_building_model, record_information, first_or_create_isic_code,
  has_isic_code, insert_isic_code, check_satisfaction, show_satisfaction, pay_and_build,
  new_building, build_feature,
}

module _ {W : Type 0} (texts : Texts) (port : WalletPort W) where
  -- what a request must meet before it is charged: user `u` owns the land, which has no building,
  -- and sends at least the satisfaction that the model asks for and at most what the wallet shows
  pub record IsReady (req : BuildRequest) (u : ℕ) (m : BuildingModel) (l : ℕ)
      (s : Server (BuildStore W)) : Type 0 where
    pub land : Land
    pub found : select (has_land_id req.feature_id) s.tables.lands ≡ some land
    pub owned : land.owner_id ≡ u
    pub unbuilt : count (on_feature req.feature_id) s.tables.buildings ≡ 0
    pub model_id : ℕ
    pub asked : req.building_model_id ≡ some model_id
    pub offered : select (is_model model_id) s.tables.building_models ≡ some m
    pub launched : req.launched_satisfaction ≡ some l
    pub enough : m.required_satisfaction ≤ l
    pub shown : ℕ
    pub shows : (port.get_wallet u Asset.satisfaction s.tables.wallets).0 ≡ some shown
    pub covered : l ≤ shown

  -- the wallets after the balance was asked for, and after it was charged
  abbrev pub seen : ℕ → BuildStore W → BuildStore W
  seen u t = record t { wallets = (port.get_wallet u Asset.satisfaction t.wallets).1 }

  abbrev pub charged : ℕ → ℕ → BuildStore W → BuildStore W
  charged u l t = record t {
    wallets = (port.deduct_balance u Asset.satisfaction l (seen u t).wallets).1;
  }

  pub build_feature-charges :
      (req : BuildRequest) (u : ℕ) (m : BuildingModel) (l : ℕ) (s : Server (BuildStore W))
      → ((n : ℕ) → s.fails n ≡ false)
      → IsReady req u m l s
      → build_feature texts port req (some u) s
        ≡ pay_and_build texts port req u m l
            (record s { tables = seen u s.tables; calls = s.calls + 3 })
  unfolding build_feature own_land need_model find_building_model check_satisfaction
      show_satisfaction
  build_feature-charges req u m l s up ready =
      ground (arith, up s.calls, up (s.calls + 1), up (s.calls + 2), ready)

  -- whether the rotation, the position or the information of a request is refused
  unfoldable pub is_refused : BuildRequest → Bool
  is_refused req =
      elim req.rotation [ none ↦ true | some r ↦ false ]
      || (elim req.position [ none ↦ true | some p ↦ false ] || elim req.information [
        | none ↦ false
        | some i ↦
            if is_empty i.activity_line then false else not (validate_building_information texts i)
      ])

  -- the information that is stored
  unfoldable pub stored : Option BuildingInformation → Option BuildingInformation
  stored none = none
  stored (some i) = if is_empty i.activity_line then none else some (trim_information texts i)

  pub record_information-runs :
      (info : Option BuildingInformation) (s : Server (BuildStore W))
      → ((n : ℕ) → s.fails n ≡ false)
      → elim info [
        | none ↦ false
        | some i ↦
            if is_empty i.activity_line then false else not (validate_building_information texts i)
      ]
        ≡ false
      → (codes : List Text) × ((n : ℕ) × (record_information texts info s ≡ (
        ok (stored info),
        record s { tables = record s.tables { isic_codes = codes }; calls = n },
      )))
  unfolding record_information stored first_or_create_isic_code insert_isic_code
  record_information-runs none s up fine = (s.tables.isic_codes, (s.calls, refl))
  record_information-runs (some i) s up fine = elim (Bool-cases (is_empty i.activity_line)) [
    | inl bare ↦ (s.tables.isic_codes, (s.calls, rw bare refl))
    | inr lined ↦ elim (Bool-cases (has_isic_code (texts.trim i.activity_line) s.tables)) [
      | inl known ↦ (s.tables.isic_codes, (s.calls + 1, ground (arith, up s.calls)))
      | inr new ↦ (
        s.tables.isic_codes ++ (texts.trim i.activity_line ∷ []),
        (s.calls + 1 + 1, ground (arith, up s.calls, up (s.calls + 1))),
      )
    ]
  ]

  -- the building that a request starts
  unfoldable pub started : BuildRequest → ℕ → BuildingModel → ℕ → ℕ → ℕ → ℕ → Building
  started req u m l r p now =
      new_building texts port req.feature_id u m l r p (stored req.information) now m.id

  -- the tables after a building is started
  unfoldable pub built_store :
      BuildRequest → ℕ → BuildingModel → ℕ → ℕ → ℕ → List Text → BuildStore W → BuildStore W
  unfolding insert_building set_active started
  built_store req u m l r p codes t =
      insert_building (started req u m l r p t.now)
        (set_active req.feature_id false (record (charged u l t) { isic_codes = codes }))

-- A construction that is paid with at least what its model asks for takes at most 288000 hours, in
-- nanoseconds less than 2 ^ 63, the limit of time.Duration.
pub construction_seconds_bounds :
    (required launched : ℕ)
    → 0 < launched
    → required ≤ launched
    → (construction_seconds required launched ≤ 1_036_800_000)
      × (construction_seconds required launched * 1_000_000_000 < 9_223_372_036_854_775_808)
unfolding construction_seconds
construction_seconds_bounds required launched some_paid h =
    let least : construction_seconds required launched ≤ 1_036_800_000 = grind arith in
    (least, omega (arith, least))
