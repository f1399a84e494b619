-- ===== src/Runtime/Action/Laws.antt =====
-- How the body of `_execute_run` ends, by what the processes it starts end with.
use open_energy_data_server.Common.{
  zero, suc, String, ◌≡◌, ◌↔◌, refl, subst, ◌∙◌, true, false, Option, none, some, [], ◌∷◌, arith,
  if◌then◌else◌, Bool-cases, inl, inr,
}
use open_energy_data_server.Yaml
use open_energy_data_server.Yaml.{
  Value, null, bool, int, negative, real, text, list, dict, Fields, Items, nil, cons,
}
use open_energy_data_server.Runtime.Action.{
  Ended, returned, raised, exited, ReturnCode, exit, signal, is_success, PreparedAction, Outside,
  checked, ◌then◌, execute, run_scripts, start_script, run_post_scripts, scripts_of, some_crawler,
  post_scripts, run_body, Executor, run_default, run_entsoe_backfill, run_gapfill_backfill,
  run_price_forecast, with_crawler, gapfill_command, forecast_command, gapfill_done, forecast_done,
  backfill_done,
}

abbrev default_done : String
default_done = "Run completed successfully."

module _ {Crawler : Type 0} (o : Outside Crawler) where
  -- the item is a text, and the process with that text as its command ends with code 0
  abbrev pub ScriptDone : Value → Type 0
  ScriptDone script =
      (path : String) × (script ≡ text path) × (o.subprocess (path ∷ []) ≡ returned (exit 0))

  abbrev pub AllDone : Items → Type 0
  AllDone nil = Unit {0}
  AllDone (cons script scripts) = ScriptDone script × AllDone scripts

  then_returned {ℓ κ} :
      {A : Type ℓ} {B : Type κ} (a : Ended A) (next : A → Ended B) (b : B)
      → (a then next) ≡ returned b
      → (x : A) × (a ≡ returned x) × (next x ≡ returned b)
  unfolding ◌then◌
  then_returned (returned x) next b h = (x, refl, h)
  then_returned (raised m n) next b h = absurd (ground arith)
  then_returned exited next b h = absurd (ground arith)

  checked_returned : (what : String) (c : ReturnCode) → checked what c ≡ returned tt → c ≡ exit 0
  unfolding checked is_success
  checked_returned what (exit zero) h = refl
  checked_returned what (exit (suc n)) h = absurd (ground arith)
  checked_returned what (signal n) h = absurd (ground arith)

  started_script :
      (script : Value) (c : ReturnCode)
      → start_script o script ≡ returned c
      → (path : String) × (script ≡ text path) × (o.subprocess (path ∷ []) ≡ returned c)
  unfolding start_script
  started_script (text path) c h = (path, refl, h)
  started_script null c h = absurd (ground arith)
  started_script (bool b) c h = absurd (ground arith)
  started_script (int n) c h = absurd (ground arith)
  started_script (negative n) c h = absurd (ground arith)
  started_script (real t) c h = absurd (ground arith)
  started_script (list items) c h = absurd (ground arith)
  started_script (dict fields) c h = absurd (ground arith)

  scripts_forward : (scripts : Items) → run_scripts o scripts ≡ returned tt → AllDone scripts
  unfolding run_scripts
  scripts_forward nil h = tt
  scripts_forward (cons script scripts) h =
      let (_, first, rest) = then_returned _ _ _ h in
      let (c, ran, good) = then_returned _ _ _ first in
      let (path, is_text, done) = started_script script c ran in
      (
        (
          path,
          is_text,
          subst (λ x. o.subprocess (path ∷ []) ≡ returned x) (checked_returned _ c good) done,
        ),
        scripts_forward scripts rest,
      )

  scripts_back : (scripts : Items) → AllDone scripts → run_scripts o scripts ≡ returned tt
  unfolding run_scripts ◌then◌ checked is_success start_script
  scripts_back nil h = refl
  scripts_back (cons script scripts) h =
      let (path, is_text, done) = h.0 in rw is_text (rw done (scripts_back scripts h.1))

  -- `_run_post_scripts` returns exactly if every configured script is a text whose process ends with
  -- code 0.
  pub run_post_scripts-AllDone :
      (config : Fields)
      → (run_post_scripts o config ≡ returned tt)
        ↔ AllDone (scripts_of (Yaml.get "post_run_scripts" config))
  unfolding run_post_scripts
  run_post_scripts-AllDone config = (scripts_forward _, scripts_back _)

  posted :
      (p : PreparedAction)
      → post_scripts o p ≡ returned tt
      → p.run_post_scripts ≡ true
      → AllDone (scripts_of (Yaml.get "post_run_scripts" p.effective_config))
  unfolding post_scripts run_post_scripts
  posted p h e = scripts_forward _ (
      subst (λ b. (if b then run_post_scripts o p.effective_config else returned tt) ≡ returned tt)
        e h)

  post_back :
      (p : PreparedAction)
      → (p.run_post_scripts ≡ true
          → AllDone (scripts_of (Yaml.get "post_run_scripts" p.effective_config)))
      → post_scripts o p ≡ returned tt
  unfolding post_scripts run_post_scripts
  post_back p h = elim (Bool-cases p.run_post_scripts) [
    | inl e ↦ rw e (scripts_back _ (h e))
    | inr e ↦ rw e refl
  ]

  -- what an executor has to have done, and the summary it gives then
  abbrev pub IsExecuted : Executor → Option Crawler → String → Type 0
  IsExecuted run_default crawler summary =
      (c : Crawler) × (crawler ≡ some c) × (o.run c ≡ returned tt) × (summary ≡ default_done)
  IsExecuted (run_entsoe_backfill p) crawler summary =
      (c : Crawler) × (crawler ≡ some c)
      × (o.backwards_update c p.start p.end_value p.target_files_dir_index ≡ returned tt)
      × (summary ≡ backfill_done p)
  IsExecuted (run_gapfill_backfill p) crawler summary =
      (o.subprocess (gapfill_command p) ≡ returned (exit 0)) × (summary ≡ gapfill_done p)
  IsExecuted (run_price_forecast p) crawler summary =
      (o.subprocess (forecast_command p) ≡ returned (exit 0)) × (summary ≡ forecast_done p)

  -- the crawler that an action gets: one that was built, if it asks for one
  abbrev pub IsGiven : PreparedAction → Option Crawler → Type 0
  IsGiven p crawler =
      (p.requires_crawler ≡ true
        → (c : Crawler) × (o.build_crawler_instance p.crawler_name p.effective_config ≡ returned c)
          × (crawler ≡ some c))
      × (p.requires_crawler ≡ false → crawler ≡ none)

  with_crawler_returned :
      (crawler : Option Crawler) (use_it : Crawler → Ended (Unit {0})) (u : Unit {0})
      → with_crawler o crawler use_it ≡ returned u
      → (c : Crawler) × (crawler ≡ some c) × (use_it c ≡ returned tt)
  unfolding with_crawler
  with_crawler_returned none use_it u h = absurd (ground arith)
  with_crawler_returned (some c) use_it u h = (c, refl, h)

  same_summary : (a b : String) → returned a ≡ returned b → b ≡ a
  same_summary a b h = ground arith

  executed :
      (e : Executor) (crawler : Option Crawler) (summary : String)
      → execute o e crawler ≡ returned summary
      → IsExecuted e crawler summary
  unfolding execute
  executed run_default crawler summary h =
      let (u, first, rest) = then_returned _ _ _ h in
      let (c, given, ran) = with_crawler_returned crawler _ u first in
      (c, given, ran, same_summary _ summary rest)
  executed (run_entsoe_backfill p) crawler summary h =
      let (u, first, rest) = then_returned _ _ _ h in
      let (c, given, ran) = with_crawler_returned crawler _ u first in
      (c, given, ran, same_summary _ summary rest)
  executed (run_gapfill_backfill p) crawler summary h =
      let (_, first, rest) = then_returned _ _ _ h in
      let (c, ran, good) = then_returned _ _ _ first in
      (
        subst (λ x. o.subprocess (gapfill_command p) ≡ returned x) (checked_returned _ c good) ran,
        same_summary _ summary rest,
      )
  executed (run_price_forecast p) crawler summary h =
      let (_, first, rest) = then_returned _ _ _ h in
      let (c, ran, good) = then_returned _ _ _ first in
      (
        subst (λ x. o.subprocess (forecast_command p) ≡ returned x) (checked_returned _ c good) ran,
        same_summary _ summary rest,
      )

  execute_back :
      (e : Executor) (crawler : Option Crawler) (summary : String)
      → IsExecuted e crawler summary
      → execute o e crawler ≡ returned summary
  unfolding execute ◌then◌ with_crawler checked is_success
  execute_back run_default crawler summary h =
      let (c, given, ran, same) = h in rw given (rw ran (rw same refl))
  execute_back (run_entsoe_backfill p) crawler summary h =
      let (c, given, ran, same) = h in rw given (rw ran (rw same refl))
  execute_back (run_gapfill_backfill p) crawler summary h =
      let (ran, same) = h in rw ran (rw same refl)
  execute_back (run_price_forecast p) crawler summary h =
      let (ran, same) = h in rw ran (rw same refl)

  built_crawler :
      (p : PreparedAction) (crawler : Option Crawler)
      → some_crawler o p ≡ returned crawler
      → IsGiven p crawler
  unfolding some_crawler
  built_crawler p crawler h = (
    (λ e.
        let (c, built, rest) = then_returned _ _ _ (
          subst
            (λ b.
              (if b
                then o.build_crawler_instance p.crawler_name p.effective_config
                then (λ crawler'. returned (some crawler'))
                else returned none)
              ≡ returned crawler)
            e h) in
        (c, built, ground (arith, rest))),
    λ e. ground (arith, h, e),
  )

  given_back :
      (p : PreparedAction) (crawler : Option Crawler)
      → IsGiven p crawler
      → some_crawler o p ≡ returned crawler
  unfolding some_crawler ◌then◌
  given_back p crawler h = elim (Bool-cases p.requires_crawler) [
    | inl e ↦ let (c, built, same) = h.0 e in rw e (rw built (rw same refl))
    | inr e ↦ rw e (rw (h.1 e) refl)
  ]

  -- The body of `_execute_run` returns a summary exactly if a crawler was built where the action
  -- asks for one, the executor has done its work without an exception, a process it starts ending
  -- with code 0, and gives that summary, and, where the action runs post-run scripts, every
  -- configured script is a text whose process ends with code 0.
  pub run_body_returns :
      (p : PreparedAction) (summary : String)
      → (run_body o p ≡ returned summary) ↔ (
          (crawler : Option Crawler) × IsGiven p crawler
          × IsExecuted p.executor crawler summary
          × (p.run_post_scripts ≡ true
              → AllDone (scripts_of (Yaml.get "post_run_scripts" p.effective_config))))
  unfolding run_body ◌then◌
  run_body_returns p summary = (
    (λ h.
        let (given, first, tail) = then_returned _ _ _ h in
        let (crawler, built, ran) = then_returned _ _ _ first in
        let (_, scripts, last) = then_returned _ _ _ tail in
        (
          crawler,
          built_crawler p crawler built,
          executed p.executor crawler summary (ran ∙ last),
          posted p scripts,
        )),
    λ h.
        let (crawler, given, done, scripts) = h in
        let built = given_back p crawler given in
        let ran = execute_back p.executor crawler summary done in
        rw (built, ran, post_back p scripts) refl,
  )
