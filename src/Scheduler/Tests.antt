-- ===== src/Scheduler/Tests.antt =====
-- The theorems on the queue and the thread at concrete jobs, and runs of the code on small inputs.
use mathlib.Core.List.{Perm}
use native.Mathlib.Nat.{le-add_right}
use open_energy_data_server.Common.{
  ℕ, ◌+◌, ◌≤◌, ◌≡◌, refl, subst, String, true, Option, none, some, List, [], ◌∷◌, ◌++◌, arith, All,
  eq_iff,
}
use open_energy_data_server.Common.Sets.{contains, add, discard, update, intersects}
use open_energy_data_server.Common.Dict.{get, put}
use open_energy_data_server.Yaml.{Value, int, end}
use open_energy_data_server.Scheduler.Cron.{CronLib}
use open_energy_data_server.Scheduler.Job.{
  CrawlerClass, ScheduledCrawlerJob, QueuedCrawlerJob, job_id, job_id_of,
}
use open_energy_data_server.Scheduler.Queue.{
  CrawlerJobQueue, empty, enqueue, pop_ready_jobs, mark_finished,
}
use open_energy_data_server.Scheduler.Queue.Invariant.{Inv, empty-Inv, enqueue-Inv}
use open_energy_data_server.Scheduler.Queue.Spec.{view}
use open_energy_data_server.Scheduler.Queue.Refine.{
  Call, enqueues, pops, Reply, added, started, run, spec_run, run-refines,
}
use open_energy_data_server.Scheduler.Queue.Safety.{
  running_jobs_exclude, mark_finished_keeps_locks, WaitsFor, pop_ready_jobs_maximal,
  pop_ready_jobs_progress, pop_ready_jobs-perm,
}
use open_energy_data_server.Scheduler.Loop.{SchedulerThread, new_thread, enqueue_due, run_due}
use open_energy_data_server.Scheduler.Loop.Rounds.{
  Event, wakes, rounds, steps, steps_total, holds, enqueue_due-holds,
}
use open_energy_data_server.Scheduler.Loop.Reload.{Process, reload, first_entry, reload_runs_twice}

parse_period : Option Value → Option ℕ
parse_period (some (int n)) = some n
parse_period _ = none

-- A schedule that comes round every so many microseconds after the reference time.
abbrev periodic : CronLib
periodic = record {
  Cron = ℕ;
  parse = parse_period;
  next = λ period ref. ref + period;
  next_from = λ period ref. le-add_right ref period;
}

abbrev smard_class : CrawlerClass
smard_class = record { name = "SmardCrawler"; data_item_table_map = none }

abbrev job_at : String → String → List String → ℕ → ScheduledCrawlerJob ℕ
job_at crawler job keys next = record {
  crawler_name = crawler;
  job_name = job;
  crawler_class = smard_class;
  config = end;
  schedule = 100;
  lock_keys = keys;
  next_run_time = next;
}

abbrev daily : ScheduledCrawlerJob ℕ
daily = job_at "smard" "daily" ("crawler:smard" ∷ []) 10

abbrev hourly : ScheduledCrawlerJob ℕ
hourly = job_at "smard" "hourly" ("crawler:smard" ∷ []) 5

abbrev prices : ScheduledCrawlerJob ℕ
prices = job_at "entsoe_fms" "prices" ("entsoe_fms:energy_prices" ∷ []) 7

abbrev entry : ScheduledCrawlerJob ℕ → QueuedCrawlerJob ℕ
entry job = record { job = job; scheduled_for = job.next_run_time; enqueued_at = 20 }

-- two jobs of one crawler and one of another
abbrev morning : List (Call ℕ)
morning = enqueues daily 10 20 ∷ enqueues hourly 5 20 ∷ enqueues prices 7 20 ∷ pops ∷ []

-- what `morning` leads to: `hourly` waits for `daily`
abbrev busy : CrawlerJobQueue ℕ
busy = record {
  pending = entry hourly ∷ [];
  pending_job_ids = "smard:hourly" ∷ [];
  active_job_ids = "entsoe_fms:prices" ∷ "smard:daily" ∷ [];
  active_job_locks =
      ("smard:daily", "crawler:smard" ∷ [])
      ∷ ("entsoe_fms:prices", "entsoe_fms:energy_prices" ∷ [])
      ∷ [];
  active_lock_keys = "entsoe_fms:energy_prices" ∷ "crawler:smard" ∷ [];
}

abbrev morning_replies : List (Reply ℕ)
morning_replies =
    added true ∷ added true ∷ added true ∷ started (entry daily ∷ entry prices ∷ []) ∷ []

morning-run : run empty morning ≡ some (busy, morning_replies)
unfolding run enqueue pop_ready_jobs job_id_of contains add intersects update discard put
morning-run = refl

run-refines_example :
    (q : CrawlerJobQueue ℕ) × (run empty morning ≡ some (q, (spec_run (view empty) morning).1))
    × Inv q
    × (view q ≡ (spec_run (view empty) morning).0)
run-refines_example = run-refines empty morning empty-Inv

busy-Inv : Inv busy
busy-Inv =
    let (q, e, v, s) = run-refines empty morning empty-Inv in
    let same : q ≡ busy = ground (arith, morning-run) in subst Inv same v

running_jobs_exclude_example : ◌≡◌ {A = String} "smard:daily" "smard:daily"
unfolding get contains
running_jobs_exclude_example =
    running_jobs_exclude morning busy morning_replies "smard:daily" "smard:daily" "crawler:smard"
      ("crawler:smard" ∷ []) ("crawler:smard" ∷ []) morning-run refl refl refl refl

mark_finished_keeps_locks_example :
    contains "entsoe_fms:energy_prices" (mark_finished busy daily).active_lock_keys ≡ true
unfolding get contains job_id_of
mark_finished_keeps_locks_example =
    mark_finished_keeps_locks busy daily "entsoe_fms:prices" "entsoe_fms:energy_prices"
      ("entsoe_fms:energy_prices" ∷ []) busy-Inv refl
      (λ e. cc ((eq_iff "entsoe_fms:prices" "smard:daily").1 e)) refl

-- the queue before the pop of `morning`
abbrev waiting_jobs : CrawlerJobQueue ℕ
waiting_jobs = record {
  pending = entry daily ∷ entry hourly ∷ entry prices ∷ [];
  pending_job_ids = "entsoe_fms:prices" ∷ "smard:hourly" ∷ "smard:daily" ∷ [];
  active_job_ids = [];
  active_job_locks = [];
  active_lock_keys = [];
}

waiting_jobs-Inv : Inv waiting_jobs
unfolding enqueue job_id_of contains add
waiting_jobs-Inv =
    enqueue-Inv _ prices 7 20 (enqueue-Inv _ hourly 5 20 (enqueue-Inv empty daily 10 20 empty-Inv))

popped : pop_ready_jobs waiting_jobs ≡ some (busy, entry daily ∷ entry prices ∷ [])
unfolding pop_ready_jobs job_id_of contains add intersects update discard put
popped = refl

abbrev queued_replies : List (Reply ℕ)
queued_replies = added true ∷ added true ∷ added true ∷ []

queued-run :
    run empty (enqueues daily 10 20 ∷ enqueues hourly 5 20 ∷ enqueues prices 7 20 ∷ [])
    ≡ some (waiting_jobs, queued_replies)
unfolding run enqueue job_id_of contains add
queued-run = refl

pop_ready_jobs_maximal_example : All (WaitsFor busy.active_job_locks) busy.pending
pop_ready_jobs_maximal_example =
    pop_ready_jobs_maximal (enqueues daily 10 20 ∷ enqueues hourly 5 20 ∷ enqueues prices 7 20 ∷ [])
      waiting_jobs busy queued_replies (entry daily ∷ entry prices ∷ []) queued-run popped

pop_ready_jobs_progress_example : (empty {Cron = ℕ}).pending ≡ []
unfolding pop_ready_jobs
pop_ready_jobs_progress_example = pop_ready_jobs_progress empty empty [] empty-Inv refl refl

pop_ready_jobs-perm_example :
    (q : CrawlerJobQueue ℕ) × (ready : List (QueuedCrawlerJob ℕ)) × (pop_ready_jobs waiting_jobs
      ≡ some (q, ready))
    × Perm (ready ++ q.pending) waiting_jobs.pending
pop_ready_jobs-perm_example = pop_ready_jobs-perm waiting_jobs waiting_jobs-Inv

steps_total_example :
    (t : SchedulerThread periodic) × (steps periodic
        (new_thread periodic (daily ∷ hourly ∷ []))
        (rounds 20 ∷ wakes ∷ Event.finishes daily ∷ [])
      ≡ some t)
    × Inv t.job_queue
steps_total_example =
    steps_total periodic (daily ∷ hourly ∷ []) (rounds 20 ∷ wakes ∷ Event.finishes daily ∷ [])

enqueue_due-holds_example :
    All
      (λ (job : ScheduledCrawlerJob ℕ).
        job.next_run_time ≤ 8
        → holds (job_id job) (enqueue_due periodic 8 (daily ∷ hourly ∷ prices ∷ []) busy).1 ≡ true)
      (daily ∷ hourly ∷ prices ∷ [])
enqueue_due-holds_example =
    enqueue_due-holds periodic 8 (daily ∷ hourly ∷ prices ∷ []) busy busy-Inv

abbrev before_reload : Process periodic
before_reload = record {
  current = record { job_queue = busy; scheduled_jobs = daily ∷ []; started = [] };
  retired = [];
}

reload_runs_twice_example :
    (t : SchedulerThread periodic) × (others : List (QueuedCrawlerJob ℕ)) × (run_due periodic 20
        (reload periodic (daily ∷ []) before_reload).current
      ≡ some t)
    × (t.started ≡ first_entry periodic daily 20 ∷ others)
unfolding contains job_id_of
reload_runs_twice_example = reload_runs_twice periodic before_reload daily [] 20 refl (omega arith)
