-- ===== src/Scheduler/Queue/Spec.antt =====
-- What `CrawlerJobQueue` promises, with no redundant state: the jobs that wait, in order, and the
-- running jobs with their keys.
use open_energy_data_server.Common.{
  ℕ, String, Bool, true, false, ◌||◌, List, [], ◌∷◌, ◌++◌, if◌then◌else◌,
}
use open_energy_data_server.Common.Dict.{Dict, has, put, pop}
use open_energy_data_server.Scheduler.Job.{ScheduledCrawlerJob, QueuedCrawlerJob, job_id}
use open_energy_data_server.Scheduler.Queue.{CrawlerJobQueue}
use open_energy_data_server.Scheduler.Queue.Locks.{held, conflicts}
use open_energy_data_server.Scheduler.Queue.Invariant.{waiting}

pub record Spec (Cron : Type 0) : Type 0 where
  pub pending : List (QueuedCrawlerJob Cron)
  pub running : Dict (List String)

pub record Split (Cron : Type 0) : Type 0 where
  pub ready : List (QueuedCrawlerJob Cron)
  pub blocked : List (QueuedCrawlerJob Cron)
  pub running : Dict (List String)

module _ {Cron : Type 0} where
  abbrev pub view : CrawlerJobQueue Cron → Spec Cron
  view q = record { pending = q.pending; running = q.active_job_locks }

  unfoldable pub spec_enqueue : Spec Cron → ScheduledCrawlerJob Cron → ℕ → ℕ → Spec Cron × Bool
  unfolding waiting
  spec_enqueue s job scheduled_for now =
      if waiting (job_id job) s.pending || has (job_id job) s.running then (s, false) else (
        record s {
          pending =
              s.pending
              ++ record { job = job; scheduled_for = scheduled_for; enqueued_at = now } ∷ [];
        },
        true,
      )

  -- The oldest job first: it starts where its keys are free, and its keys are then taken.
  unfoldable pub split : Dict (List String) → List (QueuedCrawlerJob Cron) → Split Cron
  unfolding conflicts held
  split running [] = record { ready = []; blocked = []; running = running }
  split running (x ∷ pending) =
      let wait = split running pending in
      let go = split (put (job_id x.job) x.job.lock_keys running) pending in
      if conflicts x.job.lock_keys running
      then record wait { blocked = x ∷ wait.blocked }
      else record go { ready = x ∷ go.ready }

  abbrev pub spec_pop : Spec Cron → Spec Cron × List (QueuedCrawlerJob Cron)
  spec_pop s =
      let r = split s.running s.pending in
      (record { pending = r.blocked; running = r.running }, r.ready)

  abbrev pub spec_finish : Spec Cron → ScheduledCrawlerJob Cron → Spec Cron
  spec_finish s job = record s { running = pop (job_id job) s.running }
