-- ===== src/Runtime/Prepare/Laws.antt =====
-- What a prepared action is: it belongs to the crawler and the action asked for, its configuration
-- is the crawler's with the overrides, and its executor's arguments are ones the helper accepts.
use open_energy_data_server.Common.{
  String, ◌≡◌, refl, subst, not, arith, str_eq, eq_iff, if◌then◌else◌, Bool-cases, Option-cases,
  inl, inr,
}
use open_energy_data_server.Yaml
use open_energy_data_server.Yaml.{Value, int, Fields, end, field, Items}
use open_energy_data_server.Runtime.Action.{
  PreparedAction, run_entsoe_backfill, run_gapfill_backfill, run_price_forecast,
}
use open_energy_data_server.Runtime.Definitions.{
  CrawlerOverview, Surroundings, get_action_definitions,
}
use open_energy_data_server.Runtime.DataItems.{fms_active_data_items, item_names}
use open_energy_data_server.Runtime.Inputs.{Checked, ok, Python}
use open_energy_data_server.Runtime.Prepare.{
  prepare_run_now, prepare_weather_window, prepare_eurostat_range, prepare_entsoe_targeted,
  prepare_entsoe_backfill, prepare_gapfill_backfill, prepare_price_forecast, prepare_by_id,
  prepare_action, has_section,
}
use open_energy_data_server.Runtime.Prepared.{definition_of}
use open_energy_data_server.Runtime.Prepare.Accepts.{
  needs_crawler, IsPrepared, bind_ok, then_ok, negated, refuse_if_ok, ok_is, default_run-IsPrepared,
  helper_run-IsPrepared, index_of_found, none_refused, parse_int_bounds,
}

module _ (py : Python) (weather_module : Checked Items) (overview : CrawlerOverview)
    (label : String) (payload : Fields) (p : PreparedAction) where
  weather-IsPrepared :
      prepare_weather_window py weather_module overview label payload ≡ ok p
      → IsPrepared overview "weather_window" p
  unfolding prepare_weather_window
  weather-IsPrepared h =
      let (a, _, h1) = bind_ok _ _ _ h in
      let (b, _, h2) = bind_ok _ _ _ h1 in
      let (c, _, h3) = bind_ok _ _ _ h2 in
      ok_is (IsPrepared overview "weather_window") _ p h3 (default_run-IsPrepared _ _ _ _ _ _)

  eurostat-IsPrepared :
      prepare_eurostat_range py weather_module overview label payload ≡ ok p
      → IsPrepared overview "eurostat_range" p
  unfolding prepare_eurostat_range
  eurostat-IsPrepared h =
      let (a, _, h1) = bind_ok _ _ _ h in
      let (b, _, h2) = bind_ok _ _ _ h1 in
      let (c, _, h3) = bind_ok _ _ _ h2 in
      let (_, _, h4) = then_ok _ _ _ h3 in
      ok_is (IsPrepared overview "eurostat_range") _ p h4 (default_run-IsPrepared _ _ _ _ _ _)

  targeted-IsPrepared :
      prepare_entsoe_targeted py weather_module overview label payload ≡ ok p
      → IsPrepared overview "entsoe_targeted" p
  unfolding prepare_entsoe_targeted
  targeted-IsPrepared h =
      let (_, _, h1) = then_ok _ _ _ h in
      ok_is (IsPrepared overview "entsoe_targeted") _ p h1 (default_run-IsPrepared _ _ _ _ _ _)

  backfill-IsPrepared :
      prepare_entsoe_backfill py weather_module overview label payload ≡ ok p
      → IsPrepared overview "entsoe_backfill" p
  unfolding prepare_entsoe_backfill needs_crawler
  backfill-IsPrepared h =
      let (a, _, h1) = bind_ok _ _ _ h in
      let (_, known, h2) = then_ok _ _ _ h1 in
      let (c, _, h3) = bind_ok _ _ _ h2 in
      ok_is (IsPrepared overview "entsoe_backfill") _ p h3 (
        helper_run-IsPrepared _ _ _ _ _ (run_entsoe_backfill _) (
          index_of_found a (item_names fms_active_data_items) (negated (refuse_if_ok _ _ _ known)),
          refl,
        ))

  gapfill-IsPrepared :
      prepare_gapfill_backfill py weather_module overview label payload ≡ ok p
      → IsPrepared overview "gapfill_backfill" p
  unfolding prepare_gapfill_backfill needs_crawler
  gapfill-IsPrepared h =
      let (_, _, h1) = then_ok _ _ _ h in
      let (a, _, h2) = bind_ok _ _ _ h1 in
      let (b, _, h3) = bind_ok _ _ _ h2 in
      let (_, _, h4) = then_ok _ _ _ h3 in
      let (u, supported, h5) = then_ok _ _ _ h4 in
      ok_is (IsPrepared overview "gapfill_backfill") _ p h5 (
        helper_run-IsPrepared _ _ _ _ _ (run_gapfill_backfill _)
          (refl, none_refused _ _ _ u supported))

  forecast-IsPrepared :
      prepare_price_forecast py weather_module overview label payload ≡ ok p
      → IsPrepared overview "price_forecast" p
  unfolding prepare_price_forecast needs_crawler
  forecast-IsPrepared h =
      let (_, _, h1) = then_ok _ _ _ h in
      let (_, mode, h2) = then_ok _ _ _ h1 in
      let (_, _, h3) = then_ok _ _ _ h2 in
      let (train, train_read, h4) = bind_ok _ _ _ h3 in
      let (test, test_read, h5) = bind_ok _ _ _ h4 in
      let (_, backend, h6) = then_ok _ _ _ h5 in
      let train_bounds =
        parse_int_bounds py (Yaml.get "train_days" payload) "Train days" 14 365 train train_read in
      let test_bounds =
        parse_int_bounds py (Yaml.get "backtest_days" payload) "Backtest days" 0 60 test
          test_read in
      ok_is (IsPrepared overview "price_forecast") _ p h6 (
        helper_run-IsPrepared _ _ _ _ _ (run_price_forecast _) (
          train_bounds.0,
          train_bounds.1,
          test_bounds.1,
          negated (refuse_if_ok _ _ _ mode),
          negated (refuse_if_ok _ _ _ backend),
        ))

  -- one test of the chain on `action_id`
  tested :
      (action_id x : String) (m rest : Checked PreparedAction)
      → (m ≡ ok p → IsPrepared overview x p)
      → (rest ≡ ok p → IsPrepared overview action_id p)
      → (if str_eq action_id x then m else rest) ≡ ok p
      → IsPrepared overview action_id p
  tested action_id x m rest here there h = elim (Bool-cases (str_eq action_id x)) [
    | inl e ↦
        let named : x ≡ action_id = ground (arith, eq_iff action_id x) in
        subst (λ a. IsPrepared overview a p) named (here (ground arith))
    | inr e ↦ there (ground arith)
  ]

  by_id-IsPrepared :
      (action_id : String)
      → prepare_by_id py weather_module overview label payload action_id ≡ ok p
      → IsPrepared overview action_id p
  unfolding prepare_by_id prepare_run_now
  by_id-IsPrepared action_id =
      tested action_id "run_now" _ _
        (λ h. ok_is (IsPrepared overview "run_now") _ p h (default_run-IsPrepared _ _ _ _ end end))
        (tested action_id "weather_window" _ _ weather-IsPrepared (
          tested action_id "eurostat_range" _ _ eurostat-IsPrepared (
            tested action_id "entsoe_targeted" _ _ targeted-IsPrepared (
              tested action_id "entsoe_backfill" _ _ backfill-IsPrepared (
                tested action_id "gapfill_backfill" _ _ gapfill-IsPrepared (
                  tested action_id "price_forecast" _ _ forecast-IsPrepared
                    (λ h. absurd (ground arith))))))))

-- A prepared action belongs to the crawler and has the id asked for, runs with the crawler's
-- configuration updated by its overrides, wants a crawler exactly if its executor uses one, and
-- hands its executor arguments that the helper accepts: the index of the data item in the list and
-- its cadence, the crawler's job and tables that have gap-fill metadata, and the numbers of days,
-- the mode and the backend of the price forecast within their limits.
pub prepare_action-IsPrepared :
    (py : Python) (weather_module : Checked Items) (w : Surroundings) (overview : CrawlerOverview)
    (action_id : String) (payload : Fields) (p : PreparedAction)
    → prepare_action py weather_module w overview action_id payload ≡ ok p
    → IsPrepared overview action_id p
unfolding prepare_action
prepare_action-IsPrepared py weather_module w overview action_id payload p h =
    elim (Bool-cases (not overview.has_card)) [
      | inl e ↦ absurd (ground arith)
      | inr e ↦ elim (Bool-cases (not (has_section overview.raw_config))) [
        | inl e' ↦ absurd (ground arith)
        | inr e' ↦
            elim (Option-cases (definition_of action_id (get_action_definitions w overview))) [
              | inl q ↦ absurd (ground arith)
              | inr (d, q) ↦
                  by_id-IsPrepared py weather_module overview d.label payload p action_id
                    (ground (arith, h))
            ]
      ]
    ]
