-- ===== src/Scheduler/Loop.antt =====
-- `SchedulerThread` of crawler_scheduler.py. Times are microseconds. The thread's clock readings and
-- what each wait ends with are arguments; the threads that run the jobs are the finish events.
-- A queued job shares its object with `scheduled_jobs`; the queue reads only fields that never
-- change, so a copy stands for it.
pub mod Rounds
pub mod Reload
use open_energy_data_server.Common.{
  ℕ, ◌-◌, ◌*◌, String, Bool, true, false, Option, none, some, List, [], ◌∷◌, ◌++◌, map, leb, min,
  ◌==◌, if◌then◌else◌,
}
use open_energy_data_server.Scheduler.Cron.{CronLib}
use open_energy_data_server.Scheduler.Job.{ScheduledCrawlerJob, QueuedCrawlerJob, job_lt}
use open_energy_data_server.Scheduler.Queue.{
  CrawlerJobQueue, empty, enqueue, pop_ready_jobs, mark_finished,
}

-- `list.sort`, by `ScheduledCrawlerJob.__lt__`: stable
module _ {Cron : Type 0} where
  unfoldable pub insert_job :
      ScheduledCrawlerJob Cron → List (ScheduledCrawlerJob Cron) → List (ScheduledCrawlerJob Cron)
  unfolding job_lt
  insert_job x [] = x ∷ []
  insert_job x (y ∷ ys) = let rest = insert_job x ys in if job_lt y x then y ∷ rest else x ∷ y ∷ ys

  unfoldable pub sort_jobs : List (ScheduledCrawlerJob Cron) → List (ScheduledCrawlerJob Cron)
  unfolding insert_job
  sort_jobs [] = []
  sort_jobs (x ∷ xs) = insert_job x (sort_jobs xs)

-- what a wait of the thread ends with
pub data Wake : Type 0 where
  stop_set config_changed timed_out : Wake

module _ (lib : CronLib) where
  pub record SchedulerThread : Type 0 where
    pub job_queue : CrawlerJobQueue lib.Cron
    pub scheduled_jobs : List (ScheduledCrawlerJob lib.Cron)
    -- every job that the thread has started, oldest first
    pub started : List (QueuedCrawlerJob lib.Cron)

  unfoldable pub dispatch_ready_jobs : SchedulerThread → Option SchedulerThread
  dispatch_ready_jobs t = elim (pop_ready_jobs t.job_queue) [
    | none ↦ none
    | some (queue, ready) ↦ some (record t { job_queue = queue; started = t.started ++ ready })
  ]

  unfoldable pub on_job_finished :
      ScheduledCrawlerJob lib.Cron → SchedulerThread → Option SchedulerThread
  unfolding dispatch_ready_jobs
  on_job_finished job t =
      dispatch_ready_jobs (record t { job_queue = mark_finished t.job_queue job })

  unfoldable pub advance_after : ScheduledCrawlerJob lib.Cron → ℕ → ScheduledCrawlerJob lib.Cron
  advance_after job ref_time = record job { next_run_time = lib.next job.schedule ref_time }

  -- `for job in self.scheduled_jobs: if job.next_run_time <= now: …`
  unfoldable pub enqueue_due :
      ℕ
      → List (ScheduledCrawlerJob lib.Cron)
      → CrawlerJobQueue lib.Cron
      → List (ScheduledCrawlerJob lib.Cron) × CrawlerJobQueue lib.Cron
  unfolding advance_after
  enqueue_due now [] queue = ([], queue)
  enqueue_due now (job ∷ jobs) queue =
      let due = leb job.next_run_time now in
      let queue' = if due then (enqueue queue job job.next_run_time now).0 else queue in
      let job' = if due then advance_after job now else job in
      let (jobs', queue'') = enqueue_due now jobs queue' in (job' ∷ jobs', queue'')

  -- the end of a round of the loop in `run`: queue what is due, then dispatch
  unfoldable pub run_due : ℕ → SchedulerThread → Option SchedulerThread
  unfolding enqueue_due dispatch_ready_jobs
  run_due now t =
      let (jobs, queue) = enqueue_due now t.scheduled_jobs t.job_queue in
      dispatch_ready_jobs (record t { job_queue = queue; scheduled_jobs = jobs })

  -- `seconds_till_nextrun`: up to the first job's next run, or four hours
  unfoldable pub time_till_nextrun : ℕ → List (ScheduledCrawlerJob lib.Cron) → ℕ
  time_till_nextrun now [] = 4 * 60 * 60 * 1000000
  time_till_nextrun now (job ∷ jobs) = job.next_run_time - now

  pub data WaitResult : Type 0 where
    returns : SchedulerThread → WaitResult
    runs_due : SchedulerThread → WaitResult
    raises : WaitResult
    waits : ℕ → SchedulerThread → WaitResult

  abbrev pub one_wait : ℕ
  one_wait = 60 * 1000000

  -- `while seconds_till_nextrun > 0: …`, over the wakes that the thread has had so far
  unfoldable pub wait_loop : ℕ → List Wake → SchedulerThread → WaitResult
  unfolding dispatch_ready_jobs
  wait_loop left [] t = if left == 0 then runs_due t else waits left t
  wait_loop left (wake ∷ wakes) t =
      let go_on : WaitResult = elim (dispatch_ready_jobs t) [
        | none ↦ raises
        | some t' ↦ wait_loop (left - min one_wait left) wakes t'
      ] in
      if left == 0
      then runs_due t
      else elim wake [ stop_set ↦ returns t | config_changed ↦ returns t | timed_out ↦ go_on ]

  -- the constructor of the thread: its queue is new
  abbrev pub new_thread : List (ScheduledCrawlerJob lib.Cron) → SchedulerThread
  new_thread jobs = record { job_queue = empty; scheduled_jobs = jobs; started = [] }
