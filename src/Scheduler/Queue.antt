-- ===== src/Scheduler/Queue.antt =====
-- `CrawlerJobQueue` of crawler_scheduler.py. Each method holds the queue's lock throughout, so it
-- is one step on the state. The four sets are lists that are read through `contains`.
-- `pop_ready_jobs` raises `KeyError` where a pending job's id is not in `_pending_job_ids`: `none`.
pub mod Locks
pub mod Invariant
pub mod Spec
pub mod Refine
pub mod Safety
use open_energy_data_server.Common.{
  ℕ, String, Bool, true, false, ◌||◌, Option, none, some, List, [], ◌∷◌, ◌++◌, if◌then◌else◌,
}
use open_energy_data_server.Common.Sets.{contains, add, discard, update, discard_all, intersects}
use open_energy_data_server.Common.Dict
use open_energy_data_server.Common.Dict.{Dict}
use open_energy_data_server.Scheduler.Job.{ScheduledCrawlerJob, QueuedCrawlerJob, job_id}

pub record CrawlerJobQueue (Cron : Type 0) : Type 0 where
  pub pending : List (QueuedCrawlerJob Cron)
  pub pending_job_ids : List String
  pub active_job_ids : List String
  pub active_job_locks : Dict (List String)
  pub active_lock_keys : List String

-- The sets that `pop_ready_jobs` changes while it runs, with what it has collected.
pub record Popping (Cron : Type 0) : Type 0 where
  pub ready : List (QueuedCrawlerJob Cron)
  pub blocked : List (QueuedCrawlerJob Cron)
  pub pending_job_ids : List String
  pub active_job_ids : List String
  pub active_job_locks : Dict (List String)
  pub active_lock_keys : List String

-- `frozenset()` where the job is not active
unfoldable pub locks_or_empty : Option (List String) → List String
locks_or_empty none = []
locks_or_empty (some keys) = keys

module _ {Cron : Type 0} where
  abbrev pub empty : CrawlerJobQueue Cron
  empty = record {
    pending = [];
    pending_job_ids = [];
    active_job_ids = [];
    active_job_locks = [];
    active_lock_keys = [];
  }

  unfoldable pub enqueue :
      CrawlerJobQueue Cron → ScheduledCrawlerJob Cron → ℕ → ℕ → CrawlerJobQueue Cron × Bool
  enqueue q job scheduled_for now =
      if contains (job_id job) q.pending_job_ids || contains (job_id job) q.active_job_ids
      then (q, false)
      else (
        record q {
          pending =
              q.pending
              ++ record { job = job; scheduled_for = scheduled_for; enqueued_at = now } ∷ [];
          pending_job_ids = add (job_id job) q.pending_job_ids;
        },
        true,
      )

  -- one round of the loop for a job whose locks are free
  unfoldable pub activate : QueuedCrawlerJob Cron → Popping Cron → Popping Cron
  activate x p = record p {
    ready = p.ready ++ x ∷ [];
    pending_job_ids = discard (job_id x.job) p.pending_job_ids;
    active_job_ids = add (job_id x.job) p.active_job_ids;
    active_job_locks = Dict.put (job_id x.job) x.job.lock_keys p.active_job_locks;
    active_lock_keys = update p.active_lock_keys x.job.lock_keys;
  }

  unfoldable pub pop_loop : List (QueuedCrawlerJob Cron) → Popping Cron → Option (Popping Cron)
  unfolding activate
  pop_loop [] p = some p
  pop_loop (x ∷ pending) p =
      let wait = pop_loop pending (record p { blocked = p.blocked ++ x ∷ [] }) in
      let go = pop_loop pending (activate x p) in
      if intersects x.job.lock_keys p.active_lock_keys
      then wait
      else if contains (job_id x.job) p.pending_job_ids
      then go
      else none

  abbrev pub start_popping : CrawlerJobQueue Cron → Popping Cron
  start_popping q = record {
    ready = [];
    blocked = [];
    pending_job_ids = q.pending_job_ids;
    active_job_ids = q.active_job_ids;
    active_job_locks = q.active_job_locks;
    active_lock_keys = q.active_lock_keys;
  }

  abbrev pub finish_popping : Popping Cron → CrawlerJobQueue Cron × List (QueuedCrawlerJob Cron)
  finish_popping p = (
    record {
      pending = p.blocked;
      pending_job_ids = p.pending_job_ids;
      active_job_ids = p.active_job_ids;
      active_job_locks = p.active_job_locks;
      active_lock_keys = p.active_lock_keys;
    },
    p.ready,
  )

  unfoldable pub pop_ready_jobs :
      CrawlerJobQueue Cron → Option (CrawlerJobQueue Cron × List (QueuedCrawlerJob Cron))
  unfolding pop_loop
  pop_ready_jobs q = elim (pop_loop q.pending (start_popping q)) [
    | none ↦ none
    | some p ↦ some (finish_popping p)
  ]

  unfoldable pub mark_finished :
      CrawlerJobQueue Cron → ScheduledCrawlerJob Cron → CrawlerJobQueue Cron
  unfolding locks_or_empty
  mark_finished q job =
      let lock_keys = locks_or_empty (Dict.get (job_id job) q.active_job_locks) in
      record q {
        active_job_ids = discard (job_id job) q.active_job_ids;
        active_job_locks = Dict.pop (job_id job) q.active_job_locks;
        active_lock_keys = discard_all q.active_lock_keys lock_keys;
      }
