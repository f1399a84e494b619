-- ===== src/Runtime/Service/Reach.antt =====
-- The steps of the run service as a relation, what they reach, and the runs of one crawler.
use open_energy_data_server.Common.{
  ℕ, String, ◌≡◌, ◌≢◌, refl, ◌∙◌, true, false, none, some, [], arith, ◌==◌, ◌-◌, leb, if◌then◌else◌,
  Bool-cases, inl, inr,
}
use open_energy_data_server.Common.Dict
use open_energy_data_server.Runtime.Rows.{
  Status, succeeded, failed, RunRecord, get_run, is_active, mark_interrupted, interrupted, coalesce,
}
use open_energy_data_server.Runtime.Rows.Laws.{
  map_some, get_run-update_run, get_run-append_other, get_run-mark_interrupted_runs,
}
use open_energy_data_server.Runtime.Action.{Ended, returned, raised, exited, PreparedAction}
use open_energy_data_server.Runtime.Service.{
  RunThread, RunService, start_prepared, create_run_record, new_row, is_locked, get_active_run,
  get_thread, begin_run, set_running, finish_run, set_finished, restart, status_after,
  duration_seconds,
}
use open_energy_data_server.Yaml.{int, negative}
use open_energy_data_server.Runtime.Service.Invariant.{IsActiveRun, Inv, start_prepared-Inv}
use open_energy_data_server.Runtime.Service.Beginning.{begin_run-Inv}
use open_energy_data_server.Runtime.Service.Ending.{finish_run-row, finish_run-Inv, restart-Inv}

-- a service whose table holds no run
abbrev pub initial : String → RunService
initial logs_dir = record {
  logs_dir = logs_dir;
  rows = [];
  next_run_id = 1;
  active_runs = [];
  threads = [];
}

-- one step: a request to start an action, a thread that enters its `try` block, a thread that
-- leaves its `finally` block whatever the block before ended with, or a restart
pub data Step : RunService → RunService → Type 0 where
  started :
      (s : RunService) (p : PreparedAction) (trigger_source : String) (now : ℕ)
      → Step s (start_prepared s p.crawler_name p trigger_source now).0
  began :
      (s : RunService) (r : ℕ) (t : RunThread) (now : ℕ)
      → get_thread r s.threads ≡ some t
      → t.started_at ≡ none
      → Step s (begin_run s r now)
  finished :
      (s : RunService) (r : ℕ) (t : RunThread) (started_at finished_at : ℕ) (ending : Ended String)
      → get_thread r s.threads ≡ some t
      → t.started_at ≡ some started_at
      → Step s (finish_run s r t.prepared started_at finished_at ending)
  restarted : (s : RunService) (now : ℕ) → Step s (restart s now)

pub data Reachable : RunService → Type 0 where
  at_first : (logs_dir : String) → Reachable (initial logs_dir)
  after : (s s' : RunService) → Reachable s → Step s s' → Reachable s'

initial-Inv : (logs_dir : String) → Inv (initial logs_dir)
unfolding get_run get_thread Dict.get
initial-Inv logs_dir = record {
  unique = tt;
  fresh = λ k h. refl;
  locked = λ n k h. absurd (ground arith);
  holds = λ k n c. absurd (ground (arith, c.found));
  recorded = λ k n c. absurd (ground (arith, c.found));
  carried = λ k n a. absurd (ground (arith, a.found));
}

step-Inv : (s s' : RunService) → Step s s' → Inv s → Inv s'
step-Inv s s' (started _ p trigger_source now) v = start_prepared-Inv s v p trigger_source now
step-Inv s s' (began _ r t now there _) v = begin_run-Inv s v r now t there
step-Inv s s' (finished _ r t a b ending there _) v = finish_run-Inv s v t r a b ending there
step-Inv s s' (restarted _ now) v = restart-Inv s now v

pub reachable-Inv : (s : RunService) → Reachable s → Inv s
reachable-Inv s (at_first logs_dir) = initial-Inv logs_dir
reachable-Inv s (after s0 _ h step) = step-Inv s0 s step (reachable-Inv s0 h)

-- In every state that the service reaches, a crawler has one run at most that stands as queued or
-- running in the table.
pub one_active_run :
    (s : RunService) (crawler_name : String) (j k : ℕ)
    → Reachable s
    → IsActiveRun s j crawler_name
    → IsActiveRun s k crawler_name
    → j ≡ k
one_active_run s n j k h a b =
    let v = reachable-Inv s h in
    ground (arith, v.holds j n (v.carried j n a), v.holds k n (v.carried k n b))

-- In every state that the service reaches, `is_locked` of a crawler is true exactly if
-- `get_active_run` gives a run, and then that run is a queued or running one of the crawler.
pub is_locked-get_active_run :
    (s : RunService) (crawler_name : String)
    → Reachable s
    → (is_locked s crawler_name ≡ false → get_active_run s crawler_name ≡ none)
      × (is_locked s crawler_name ≡ true
          → (r : RunRecord) × (get_active_run s crawler_name ≡ some r)
            × (r.crawler_name ≡ crawler_name)
            × (is_active r ≡ true))
unfolding is_locked get_active_run
is_locked-get_active_run s n h = (
  (λ e. rw (Dict.get_absent n s.active_runs e, get_active_run) refl),
  λ e.
      let v = reachable-Inv s h in
      let (k, q) = Dict.get_present n s.active_runs e in
      let a = v.recorded k n (v.locked n k q) in
      (a.row, rw (q, get_active_run) a.found, a.crawler, a.active),
)

-- In every state that the service reaches, a request for a crawler that has a queued or running
-- run is refused with a `LockError` and changes nothing.
pub start_action_refused :
    (s : RunService) (p : PreparedAction) (trigger_source : String) (k now : ℕ)
    → Reachable s
    → IsActiveRun s k p.crawler_name
    → start_prepared s p.crawler_name p trigger_source now ≡ (s, none)
unfolding start_prepared is_locked
start_action_refused s p trigger_source k now h a =
    let v = reachable-Inv s h in
    let locked : Dict.has p.crawler_name s.active_runs ≡ true =
      Dict.has_of_get p.crawler_name k s.active_runs
        (v.holds k p.crawler_name (v.carried k p.crawler_name a)) in
    rw locked refl

-- the status that an ending of the `try` block is to be recorded with
abbrev pub final_status : Ended String → Status
final_status (returned _) = succeeded
final_status (raised _ _) = failed
final_status exited = succeeded

-- The run as it is to be recorded: with the status, the time of the end and the seconds since its
-- start, and otherwise with the identity it had.
abbrev pub IsFinalOf : RunRecord → ℕ → ℕ → Ended String → RunRecord → Type 0
IsFinalOf x started_at finished_at ending y =
    (y.status ≡ final_status ending)
    × (y.finished_at ≡ some finished_at)
    × (y.duration_seconds
        ≡ some (
            if leb started_at finished_at
            then int (finished_at - started_at)
            else negative (started_at - finished_at)))
    × (y.run_id ≡ x.run_id)
    × (y.crawler_name ≡ x.crawler_name)
    × (y.started_at ≡ x.started_at)

set_finished-IsFinalOf :
    (p : PreparedAction) (a b : ℕ) (ending : Ended String) (x : RunRecord)
    → IsFinalOf x a b ending (set_finished p a b ending x)
unfolding set_finished status_after duration_seconds
set_finished-IsFinalOf p a b (returned _) x = (refl, refl, refl, refl, refl, refl)
set_finished-IsFinalOf p a b (raised _ _) x = (refl, refl, refl, refl, refl, refl)
set_finished-IsFinalOf p a b exited x = (refl, refl, refl, refl, refl, refl)

-- In every state that the service reaches, a thread that leaves `_execute_run` with any ending of
-- its `try` block, an exception included, frees its crawler, leaves its run with the final status
-- for that ending, the time of the end and the seconds between the two times it noted, and leaves
-- every other run as it was.
pub finish_run_frees :
    (s : RunService) (r : ℕ) (t : RunThread) (started_at finished_at : ℕ) (ending : Ended String)
    → Reachable s
    → get_thread r s.threads ≡ some t
    → let s' = finish_run s r t.prepared started_at finished_at ending in
      (is_locked s' t.prepared.crawler_name ≡ false)
      × ((x : RunRecord) × (y : RunRecord) × (get_run r s.rows ≡ some x)
          × (get_run r s'.rows ≡ some y)
          × IsFinalOf x started_at finished_at ending y)
      × ((k : ℕ) → (r == k) ≡ false → get_run k s'.rows ≡ get_run k s.rows)
unfolding is_locked finish_run map_some
finish_run_frees s r t a b ending h there =
    let v = reachable-Inv s h in
    let name = t.prepared.crawler_name in
    let row = v.recorded r name (record { thread = t; found = there; crawler = refl }) in
    (
      Dict.has-pop_same name s.active_runs v.unique,
      (
        row.row,
        set_finished t.prepared a b ending row.row,
        row.found,
        ground (arith, row.found, finish_run-row s v t r a b ending there r),
        set_finished-IsFinalOf t.prepared a b ending row.row,
      ),
      λ k other. ground (arith, finish_run-row s v t r a b ending there k),
    )

active_of_thread :
    (s : RunService) (r : ℕ) (t : RunThread)
    → Inv s
    → get_thread r s.threads ≡ some t
    → IsActiveRun s r t.prepared.crawler_name
active_of_thread s r t v there =
    v.recorded r t.prepared.crawler_name (record { thread = t; found = there; crawler = refl })

-- A run that is neither queued nor running stands in the table as it is after every further step
-- of the service.
pub final_run_stays :
    (s s' : RunService) (k : ℕ) (x : RunRecord)
    → Reachable s
    → Step s s'
    → get_run k s.rows ≡ some x
    → is_active x ≡ false
    → get_run k s'.rows ≡ some x
unfolding start_prepared is_locked create_run_record begin_run set_running restart mark_interrupted
    map_some new_row
final_run_stays s s' k x h (started _ p trigger_source now) q final =
    let v = reachable-Inv s h in
    elim (Bool-cases (Dict.has p.crawler_name s.active_runs)) [
      | inl e ↦ rw e q
      | inr e ↦ rw e (get_run-append_other k s.rows _ (ground (arith, q, v.fresh k)) ∙ q)
    ]
final_run_stays s s' k x h (began _ r t now there _) q final =
    let a = active_of_thread s r t (reachable-Inv s h) there in
    ground (arith, a.found, a.active, get_run-update_run k r (set_running now) s.rows (λ y. refl))
final_run_stays s s' k x h (finished _ r t a b ending there _) q final =
    let v = reachable-Inv s h in
    let active = active_of_thread s r t v there in
    ground (arith, active.found, active.active, finish_run-row s v t r a b ending there k)
final_run_stays s s' k x h (restarted _ now) q final =
    get_run-mark_interrupted_runs k now s.rows ∙ ground arith

-- After a restart no run stands as queued or running and no crawler is locked; a run that stood so
-- is interrupted, and has a time at which it finished, and any other run is as it was.
pub restart_settles :
    (s : RunService) (now k : ℕ) (x : RunRecord)
    → get_run k s.rows ≡ some x
    → ((n : String) → is_locked (restart s now) n ≡ false)
      × (get_run k (restart s now).rows ≡ some (mark_interrupted now x))
      × (is_active x ≡ false → mark_interrupted now x ≡ x)
      × (is_active x ≡ true → (mark_interrupted now x).status ≡ interrupted)
      × (is_active x ≡ true → (mark_interrupted now x).finished_at ≢ none)
unfolding is_locked restart mark_interrupted map_some Dict.has coalesce
restart_settles s now k x q = (
  (λ n. refl),
  get_run-mark_interrupted_runs k now s.rows ∙ ground arith,
  (λ e. rw e refl),
  (λ e. rw e refl),
  (λ e. ground arith),
)
