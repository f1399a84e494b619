-- ===== src/Scheduler/Loop/Reload.antt =====
-- `main` of crawler_scheduler.py: when the configuration changes, the thread ends and a new thread
-- takes its place. The threads that run jobs are not stopped and report to the old thread's queue.
use open_energy_data_server.Common.{
  ℕ, ◌≤◌, String, ◌≡◌, refl, ap, ◌∙◌, true, false, ◌||◌, some, List, [], ◌∷◌, ◌++◌, arith, leb,
  le→leb, inl, inr, Bool-cases, Option-cases, if◌then◌else◌,
}
use open_energy_data_server.Common.Sets.{contains, intersects}
use open_energy_data_server.Scheduler.Cron.{CronLib}
use open_energy_data_server.Scheduler.Job.{ScheduledCrawlerJob, QueuedCrawlerJob, job_id}
use open_energy_data_server.Scheduler.Queue.{
  CrawlerJobQueue, Popping, empty, enqueue, activate, pop_loop, start_popping, pop_ready_jobs,
}
use open_energy_data_server.Scheduler.Queue.Invariant.{empty-Inv}
use open_energy_data_server.Scheduler.Loop.{
  SchedulerThread, dispatch_ready_jobs, enqueue_due, run_due, new_thread,
}
use open_energy_data_server.Scheduler.Loop.Rounds.{enqueue_due-Inv, dispatch_total}

module _ (lib : CronLib) where
  pub record Process : Type 0 where
    pub current : SchedulerThread lib
    -- threads that a reload has replaced, whose jobs may still run
    pub retired : List (SchedulerThread lib)

  unfoldable pub reload : List (ScheduledCrawlerJob lib.Cron) → Process → Process
  reload jobs p = record { current = new_thread lib jobs; retired = p.current ∷ p.retired }

  unchanged : (p p' : Popping lib.Cron) → some p ≡ some p' → p'.ready ≡ p.ready
  unchanged p p' e = ground arith

  append_nil : (xs : List (QueuedCrawlerJob lib.Cron)) → xs ≡ xs ++ []
  append_nil [] = refl
  append_nil (x ∷ xs) = ap (λ ys. x ∷ ys) (append_nil xs)

  append_one :
      (xs : List (QueuedCrawlerJob lib.Cron)) (x : QueuedCrawlerJob lib.Cron)
      (ys : List (QueuedCrawlerJob lib.Cron))
      → (xs ++ x ∷ []) ++ ys ≡ xs ++ x ∷ ys
  append_one [] x ys = refl
  append_one (z ∷ xs) x ys = ap (λ zs. z ∷ zs) (append_one xs x ys)

  -- what is handed out first stays first
  pop_loop_ready :
      (rest : List (QueuedCrawlerJob lib.Cron)) (p p' : Popping lib.Cron)
      → pop_loop rest p ≡ some p'
      → (more : List (QueuedCrawlerJob lib.Cron)) × (p'.ready ≡ p.ready ++ more)
  unfolding pop_loop activate
  pop_loop_ready [] p p' e = ([], unchanged p p' e ∙ append_nil p.ready)
  pop_loop_ready (x ∷ rest) p p' e =
      elim (Bool-cases (intersects x.job.lock_keys p.active_lock_keys)) [
        | inl b ↦ pop_loop_ready rest (record p { blocked = p.blocked ++ x ∷ [] }) p' (ground arith)
        | inr b ↦
            let (more, q) = pop_loop_ready rest (activate x p) p' (ground arith) in
            (x ∷ more, ground (arith, q, append_one p.ready x more))
      ]

  -- the head of the waiting jobs, and no job running
  StartsWith : QueuedCrawlerJob lib.Cron → CrawlerJobQueue lib.Cron → Type 0
  StartsWith x q =
      ((rest : List (QueuedCrawlerJob lib.Cron)) × (q.pending ≡ x ∷ rest))
      × (q.active_lock_keys ≡ [])

  enqueue-StartsWith :
      (x : QueuedCrawlerJob lib.Cron) (q : CrawlerJobQueue lib.Cron)
      (job : ScheduledCrawlerJob lib.Cron) (scheduled_for now : ℕ)
      → StartsWith x q
      → StartsWith x (enqueue q job scheduled_for now).0
  unfolding enqueue StartsWith
  enqueue-StartsWith x q job scheduled_for now ((rest, e), f) =
      elim (Bool-cases
        (contains (job_id job) q.pending_job_ids || contains (job_id job) q.active_job_ids)) [
          | inl h ↦ rw h ((rest, e), f)
          | inr h ↦ rw h (
            (
              rest ++ record { job = job; scheduled_for = scheduled_for; enqueued_at = now } ∷ [],
              ground arith,
            ),
            f,
          )
        ]

  enqueue_due-StartsWith :
      (x : QueuedCrawlerJob lib.Cron) (now : ℕ) (jobs : List (ScheduledCrawlerJob lib.Cron))
      (q : CrawlerJobQueue lib.Cron)
      → StartsWith x q
      → StartsWith x (enqueue_due lib now jobs q).1
  unfolding enqueue_due
  enqueue_due-StartsWith x now [] q s = s
  enqueue_due-StartsWith x now (job ∷ jobs) q s =
      enqueue_due-StartsWith x now jobs
        (if leb job.next_run_time now then (enqueue q job job.next_run_time now).0 else q)
        (elim (Bool-cases (leb job.next_run_time now)) [
          | inl due ↦ rw due (enqueue-StartsWith x q job job.next_run_time now s)
          | inr early ↦ rw early s
        ])

  intersects-nil : (keys : List String) → intersects keys [] ≡ false
  unfolding intersects
  intersects-nil [] = refl
  intersects-nil (k ∷ keys) = intersects-nil keys

  -- with no lock taken, the job at the head is handed out first
  popped_first :
      (x : QueuedCrawlerJob lib.Cron) (q q' : CrawlerJobQueue lib.Cron)
      (ready : List (QueuedCrawlerJob lib.Cron))
      → StartsWith x q
      → pop_ready_jobs q ≡ some (q', ready)
      → (more : List (QueuedCrawlerJob lib.Cron)) × (ready ≡ x ∷ more)
  unfolding pop_ready_jobs StartsWith pop_loop activate
  popped_first x q q' ready ((rest, p), free) e =
      elim (Option-cases (pop_loop (x ∷ rest) (start_popping q))) [
        | inl f ↦ absurd (ground arith)
        | inr (popped, f) ↦
            let unlocked : intersects x.job.lock_keys q.active_lock_keys ≡ false =
              rw free (intersects-nil x.job.lock_keys) in
            let (more, g) =
              pop_loop_ready rest (activate x (start_popping q)) popped
                (ground (arith, unlocked)) in
            (more, ground (arith, g))
      ]

  dispatched_first :
      (x : QueuedCrawlerJob lib.Cron) (t t' : SchedulerThread lib)
      → StartsWith x t.job_queue
      → dispatch_ready_jobs lib t ≡ some t'
      → (more : List (QueuedCrawlerJob lib.Cron)) × (t'.started ≡ t.started ++ x ∷ more)
  unfolding dispatch_ready_jobs
  dispatched_first x t t' s e = elim (Option-cases (pop_ready_jobs t.job_queue)) [
    | inl f ↦ absurd (ground arith)
    | inr ((q, ready), f) ↦
        let (more, g) = popped_first x t.job_queue q ready s f in (more, ground (arith, g))
  ]

  -- the entry that a due job makes in an empty queue
  abbrev pub first_entry : ScheduledCrawlerJob lib.Cron → ℕ → QueuedCrawlerJob lib.Cron
  first_entry job now = record { job = job; scheduled_for = job.next_run_time; enqueued_at = now }

  due_first :
      (job : ScheduledCrawlerJob lib.Cron) (more : List (ScheduledCrawlerJob lib.Cron)) (now : ℕ)
      → job.next_run_time ≤ now
      → StartsWith (first_entry job now) (enqueue_due lib now (job ∷ more) empty).1
  unfolding enqueue_due enqueue StartsWith contains
  due_first job more now due =
      enqueue_due-StartsWith (first_entry job now) now more
        (if leb job.next_run_time now then (enqueue empty job job.next_run_time now).0 else empty)
        (rw (le→leb job.next_run_time now due) (([], refl), refl))

  -- The exclusion of running jobs does not outlive a reload: whatever job is still running when the
  -- configuration changes, and whichever locks it has, if it is due as the first job of the new
  -- thread, then the new thread's first round returns and the first job that it starts is this one.
  pub reload_runs_twice :
      (p : Process) (job : ScheduledCrawlerJob lib.Cron)
      (more : List (ScheduledCrawlerJob lib.Cron)) (now : ℕ)
      → contains (job_id job) p.current.job_queue.active_job_ids ≡ true
      → job.next_run_time ≤ now
      → (t : SchedulerThread lib) × (others : List (QueuedCrawlerJob lib.Cron)) × (run_due lib now
            (reload (job ∷ more) p).current
          ≡ some t)
        × (t.started ≡ first_entry job now ∷ others)
  unfolding run_due reload
  reload_runs_twice p job more now running due =
      let (t, e, v, s) =
        dispatch_total lib begin (enqueue_due-Inv lib now (job ∷ more) empty empty-Inv) in
      let (others, g) =
        dispatched_first (first_entry job now) begin t (due_first job more now due) e in
      (t, others, e, g)
    where
      begin : SchedulerThread lib
      begin = record {
        job_queue = (enqueue_due lib now (job ∷ more) empty).1;
        scheduled_jobs = (enqueue_due lib now (job ∷ more) empty).0;
        started = [];
      }
