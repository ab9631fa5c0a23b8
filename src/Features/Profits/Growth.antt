-- ===== src/Features/Profits/Growth.antt =====
-- services/features-service/internal/repository/hourly_profit_repository.go and
-- internal/service/profit_service.go: the growth of the profits.
use metaverse_rang_microserv.Common.{
  ℕ, zero, suc, ◌+◌, ◌≡◌, refl, ap, ◌∙◌, Bool, true, false, ◌&&◌, none, some, List, [], ◌∷◌, arith,
  ◌==◌, if◌then◌else◌,
}
use metaverse_rang_microserv.Common.Table.{select, select_all}
use metaverse_rang_microserv.Common.Server.{Server, query, bind-ok, query-ok, ok}
use metaverse_rang_microserv.Features.Profits.{
  HourlyProfit, ProfitStore, Properties, profit_db, of_land, is_due, limit, grow_one, grow_each,
  calculate_and_update_profits, run_batches, run_hourly_profit_calculation,
}

-- whether the land of a profit has no row of properties
unfoldable pub is_orphan : List Properties → HourlyProfit → Bool
is_orphan lands p = elim (select (of_land p.feature_id) lands) [ none ↦ true | some l ↦ false ]

-- whether the first `n` of a list are all orphans
unfoldable pub only_orphans : List Properties → ℕ → List HourlyProfit → Bool
only_orphans lands zero l = true
only_orphans lands (suc n) [] = true
only_orphans lands (suc n) (p ∷ l) = is_orphan lands p && only_orphans lands n l

module _ {W : Type 0} where
  grow_each-orphans :
      (n : ℕ) (l : List HourlyProfit) (s : Server (ProfitStore W))
      → only_orphans s.tables.properties n l ≡ true
      → ((grow_each (limit n l) s).0 ≡ ok 0) × ((grow_each (limit n l) s).1.tables ≡ s.tables)
  unfolding grow_each grow_one limit only_orphans is_orphan
  grow_each-orphans zero l s h = (refl, refl)
  grow_each-orphans (suc n) [] s h = (refl, refl)
  grow_each-orphans (suc n) (p ∷ l) s h =
      let (answers, kept) =
        grow_each-orphans n l (record s { calls = s.calls + 1 }) (ground (arith, h)) in
      (ground (arith, h, answers), ground (arith, h, answers, kept))

  batch-orphans :
      (s : Server (ProfitStore W))
      → s.fails s.calls ≡ false
      → only_orphans s.tables.properties 100 (select_all (is_due s.tables.now) s.tables.profits)
        ≡ true
      → ((calculate_and_update_profits s).0 ≡ ok 0)
        × ((calculate_and_update_profits s).1.tables ≡ s.tables)
  unfolding calculate_and_update_profits
  batch-orphans s first orphans =
      let rows = select_all (is_due s.tables.now) s.tables.profits in
      let (answers, kept) = grow_each-orphans 100 rows (record s { calls = s.calls + 1 }) orphans in
      let step : calculate_and_update_profits s
          ≡ grow_each (limit 100 rows) (record s { calls = s.calls + 1 }) =
        let asks =
          query-ok profit_db (λ t. limit 100 (select_all (is_due t.now) t.profits)) s first in
        bind-ok (query profit_db (λ t. limit 100 (select_all (is_due t.now) t.profits))) grow_each s
          (limit 100 rows) (ap (λ r. r.0) asks)
        ∙ ap (λ r. grow_each (limit 100 rows) r.1) asks in
      (ap (λ r. r.0) step ∙ answers, ap (λ r. r.1.tables) step ∙ kept)

  run_batches-stops :
      (left total : ℕ) (s : Server (ProfitStore W))
      → (calculate_and_update_profits s).0 ≡ ok 0
      → run_batches (suc left) total s ≡ (ok total, (calculate_and_update_profits s).1)
  unfolding run_batches
  run_batches-stops left total s h =
      bind-ok calculate_and_update_profits
        (λ updated t.
          let rest = run_batches left (total + updated) t in
          if updated == 0 then (ok total, t) else rest)
        s 0 h

  -- Where the first hundred profits that are due belong to land without properties, no profit
  -- grows, those after them neither, and the run answers 0: the batch takes the same rows each time.
  pub run_hourly_profit_calculation_starves :
      (s : Server (ProfitStore W))
      → s.fails s.calls ≡ false
      → only_orphans s.tables.properties 100 (select_all (is_due s.tables.now) s.tables.profits)
        ≡ true
      → ((run_hourly_profit_calculation s).0 ≡ ok 0)
        × ((run_hourly_profit_calculation s).1.tables ≡ s.tables)
  unfolding run_hourly_profit_calculation
  run_hourly_profit_calculation_starves s first orphans =
      let (answers, kept) = batch-orphans s first orphans in
      let stops = run_batches-stops 999 0 s answers in
      (ap (λ r. r.0) stops, ap (λ r. r.1.tables) stops ∙ kept)
