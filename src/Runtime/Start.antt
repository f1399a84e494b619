-- ===== src/Runtime/Start.antt =====
-- `start_action` of crawler_admin/runtime_service.py: an action is prepared, and then started
-- under the guard.
use open_energy_data_server.Common.{
  ℕ, String, ◌≡◌, ◌⊎◌, refl, subst, Option, none, some, List, inl, inr, ◌∙◌, ◌==◌, false,
  Bool-cases, arith,
}
use open_energy_data_server.Yaml.{Fields, Items}
use open_energy_data_server.Runtime.Action.{PreparedAction}
use open_energy_data_server.Runtime.Definitions.{CrawlerOverview, Surroundings}
use open_energy_data_server.Runtime.Inputs.{Checked, ok, refused, Python}
use open_energy_data_server.Runtime.Prepare.{prepare_action}
use open_energy_data_server.Runtime.Prepare.Laws.{prepare_action-IsPrepared}
use open_energy_data_server.Runtime.Service.{
  RunService, start_prepared, create_run_record, is_locked, new_row,
}
use open_energy_data_server.Runtime.Service.Invariant.{IsActiveRun, Inv}
use open_energy_data_server.Runtime.Service.Reach.{Reachable, reachable-Inv}
use open_energy_data_server.Runtime.Rows.{RunRecord, get_run, queued}
use open_energy_data_server.Runtime.Rows.Laws.{get_run-append, get_run-append_other}
use open_energy_data_server.Common.Dict

-- `start_action` returns the id of the run, raises `LockError` or passes the errors on
pub data Answer : Type 0 where
  run : ℕ → Answer
  lock_error : Answer
  errors : List String → Answer

unfoldable pub answer : Option ℕ → Answer
answer none = lock_error
answer (some run_id) = run run_id

-- The crawler has a run that stands as queued or running.
abbrev pub HasActive : RunService → String → Type 0
HasActive s crawler_name = (k : ℕ) × IsActiveRun s k crawler_name

-- The table has got a run that waits, and is otherwise the same.
abbrev pub HasNewRun : RunService → RunService → ℕ → String → String → Type 0
HasNewRun s s' k crawler_name action_id =
    (get_run k s.rows ≡ none)
    × ((row : RunRecord) × (get_run k s'.rows ≡ some row)
        × (row.status ≡ queued)
        × (row.crawler_name ≡ crawler_name)
        × (row.action_id ≡ action_id))
    × ((j : ℕ) → (k == j) ≡ false → get_run j s'.rows ≡ get_run j s.rows)

abbrev pub IsAnswered :
    RunService → RunService → String → String → Checked PreparedAction → Answer → Type 0
IsAnswered s s' crawler_name action_id prepared reply =
    ((messages : List String) × (prepared ≡ refused messages)
      × (reply ≡ errors messages)
      × (s' ≡ s))
    ⊎ ((p : PreparedAction) × (prepared ≡ ok p)
        × ((HasActive s crawler_name × (reply ≡ lock_error) × (s' ≡ s))
            ⊎ ((k : ℕ) × (reply ≡ run k)
                × (¬ HasActive s crawler_name)
                × HasNewRun s s' k crawler_name action_id)))

module _ (py : Python) (weather_module : Checked Items) (w : Surroundings) where
  -- The overview is that of the crawler asked for.
  unfoldable pub start_action :
      RunService → CrawlerOverview → String → Fields → String → ℕ → RunService × Answer
  unfolding answer
  start_action s overview action_id action_payload trigger_source now =
      elim (prepare_action py weather_module w overview action_id action_payload) [
        | refused messages ↦ (s, errors messages)
        | ok prepared ↦
            let (s', run_id) = start_prepared s overview.crawler_name prepared trigger_source now in
            (s', answer run_id)
      ]

  Checked-cases :
      (c : Checked PreparedAction)
      → ((messages : List String) × (c ≡ refused messages)) ⊎ ((p : PreparedAction) × (c ≡ ok p))
  Checked-cases (refused messages) = inl (messages, refl)
  Checked-cases (ok p) = inr (p, refl)

  -- Under its own crawler's name a prepared action is started, or the crawler has an active run.
  prepared_answers :
      (s : RunService) (p : PreparedAction) (trigger_source : String) (now : ℕ)
      → Reachable s
      → let (s', run_id) = start_prepared s p.crawler_name p trigger_source now in
        (HasActive s p.crawler_name × (answer run_id ≡ lock_error) × (s' ≡ s))
        ⊎ ((k : ℕ) × (answer run_id ≡ run k)
            × (¬ HasActive s p.crawler_name)
            × HasNewRun s s' k p.crawler_name p.action_id)
  unfolding start_prepared create_run_record is_locked answer new_row
  prepared_answers s p trigger_source now h = elim (Bool-cases (is_locked s p.crawler_name)) [
    | inl e ↦
        let (k, q) = Dict.get_present p.crawler_name s.active_runs e in
        rw e (inl ((k, v.recorded k p.crawler_name (v.locked p.crawler_name k q)), refl, refl))
    | inr e ↦ rw e (
        inr (
          s.next_run_id,
          refl,
          (λ active.
              let (k, a) = active in
              let held = v.holds k p.crawler_name (v.carried k p.crawler_name a) in
              ground (arith, e, Dict.has_of_get p.crawler_name k s.active_runs held)),
          (
            v.fresh s.next_run_id (omega arith),
            (
              new_row s.logs_dir s.next_run_id p trigger_source now,
              get_run-append s.next_run_id s.rows _ (v.fresh s.next_run_id (omega arith))
                  ∙ ground arith,
              refl,
              refl,
              refl,
            ),
            λ j other. get_run-append_other j s.rows _ other,
          ),
        ))
  ]
    where
      v : Inv s
      v = reachable-Inv s h

  -- In every state that the service reaches, a request to start an action is answered by its
  -- errors, by a `LockError` or by the id of a run: by errors exactly as the preparation refuses the
  -- form, by a `LockError` only where the crawler has an active run, and in both cases the service
  -- stays as it was; by an id only where the crawler has none, and then the table has a new queued
  -- run under this id, of the crawler and the action, beside the runs it had.
  pub start_action_answers :
      (s : RunService) (overview : CrawlerOverview) (action_id : String) (payload : Fields)
      (trigger_source : String) (now : ℕ)
      → Reachable s
      → let (s', reply) = start_action s overview action_id payload trigger_source now in
        IsAnswered s s' overview.crawler_name action_id
          (prepare_action py weather_module w overview action_id payload)
          reply
  unfolding start_action
  start_action_answers s overview action_id payload trigger_source now h =
      elim (Checked-cases (prepare_action py weather_module w overview action_id payload)) [
        | inl (messages, e) ↦ rw (e, start_action) (inl (messages, refl, refl, refl))
        | inr (p, e) ↦
            let v = prepare_action-IsPrepared py weather_module w overview action_id payload p e in
            let named =
              subst
                (λ n.
                  let (s', run_id) = start_prepared s n p trigger_source now in
                  (HasActive s n × (answer run_id ≡ lock_error) × (s' ≡ s))
                  ⊎ ((k : ℕ) × (answer run_id ≡ run k)
                      × (¬ HasActive s n)
                      × HasNewRun s s' k n p.action_id))
                v.crawler (prepared_answers s p trigger_source now h) in
            rw (e, start_action)
              (inr (
                p,
                refl,
                subst
                    (λ a.
                      let (s', run_id) =
                        start_prepared s overview.crawler_name p trigger_source now in
                      (HasActive s overview.crawler_name × (answer run_id ≡ lock_error) × (s' ≡ s))
                      ⊎ ((k : ℕ) × (answer run_id ≡ run k)
                          × (¬ HasActive s overview.crawler_name)
                          × HasNewRun s s' k overview.crawler_name a))
                    v.action named,
              ))
      ]
