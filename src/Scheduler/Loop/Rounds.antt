-- ===== src/Scheduler/Loop/Rounds.antt =====
-- The thread's rounds: no due run is lost, and no call of the queue raises.
use mathlib.Core.List.{Perm}
use mathlib.Core.List.Perm
use open_energy_data_server.Common.{
  ℕ, ◌≤◌, ◌-◌, ◌*◌, String, ◌≡◌, refl, ◌∙◌, Bool, true, false, ◌||◌, Option, none, some, List, [],
  ◌∷◌, ◌++◌, map, arith, leb, min, ◌==◌, le→leb, inl, inr, eq_iff, Bool-cases, All, if◌then◌else◌,
  zero, suc,
}
use open_energy_data_server.Common.Sets.{contains, contains-add}
use open_energy_data_server.Common.Dict.{has}
use open_energy_data_server.Scheduler.Cron.{CronLib}
use open_energy_data_server.Scheduler.Job.{ScheduledCrawlerJob, job_id, job_lt}
use open_energy_data_server.Scheduler.Queue.{CrawlerJobQueue, enqueue, mark_finished}
use open_energy_data_server.Scheduler.Queue.Invariant.{
  Inv, waiting, empty-Inv, enqueue-Inv, mark_finished-Inv,
}
use open_energy_data_server.Scheduler.Queue.Spec.{view, spec_pop}
use open_energy_data_server.Scheduler.Queue.Refine.{pop-refines}
use open_energy_data_server.Scheduler.Loop.{
  insert_job, sort_jobs, Wake, timed_out, SchedulerThread, dispatch_ready_jobs, on_job_finished,
  advance_after, enqueue_due, run_due, runs_due, one_wait, wait_loop, new_thread,
}

module _ {Cron : Type 0} where
  insert_job-perm :
      (x : ScheduledCrawlerJob Cron) (ys : List (ScheduledCrawlerJob Cron))
      → Perm (insert_job x ys) (x ∷ ys)
  unfolding insert_job
  insert_job-perm x [] = Perm.refl (x ∷ [])
  insert_job-perm x (y ∷ ys) = elim (Bool-cases (job_lt y x)) [
    | inl e ↦ rw e (Perm.trans (Perm.cons y (insert_job-perm x ys)) (Perm.swap x y ys))
    | inr e ↦ rw e (Perm.refl (x ∷ y ∷ ys))
  ]

  sort_jobs-perm : (xs : List (ScheduledCrawlerJob Cron)) → Perm (sort_jobs xs) xs
  unfolding sort_jobs
  sort_jobs-perm [] = Perm.nil
  sort_jobs-perm (x ∷ xs) =
      Perm.trans (insert_job-perm x (sort_jobs xs)) (Perm.cons x (sort_jobs-perm xs))

  -- in the order of the next run
  abbrev pub Ascending : List (ScheduledCrawlerJob Cron) → Type 0
  Ascending [] = Unit {0}
  Ascending (x ∷ xs) =
      All (λ (y : ScheduledCrawlerJob Cron). x.next_run_time ≤ y.next_run_time) xs × Ascending xs

  All-insert :
      (t : ℕ) (x : ScheduledCrawlerJob Cron) (ys : List (ScheduledCrawlerJob Cron))
      → t ≤ x.next_run_time
      → All (λ (y : ScheduledCrawlerJob Cron). t ≤ y.next_run_time) ys
      → All (λ (y : ScheduledCrawlerJob Cron). t ≤ y.next_run_time) (insert_job x ys)
  unfolding insert_job
  All-insert t x [] h a = (h, tt)
  All-insert t x (y ∷ ys) h a = ground (arith, All-insert t x ys h a.1)

  All-weaken :
      (s t : ℕ) (ys : List (ScheduledCrawlerJob Cron))
      → s ≤ t
      → All (λ (y : ScheduledCrawlerJob Cron). t ≤ y.next_run_time) ys
      → All (λ (y : ScheduledCrawlerJob Cron). s ≤ y.next_run_time) ys
  All-weaken s t [] h a = tt
  All-weaken s t (y ∷ ys) h a = (omega arith, All-weaken s t ys h a.1)

  job_lt-le :
      (x y : ScheduledCrawlerJob Cron) → job_lt x y ≡ true → x.next_run_time ≤ y.next_run_time
  unfolding job_lt
  job_lt-le x y h = ground arith

  job_lt_not-ge :
      (x y : ScheduledCrawlerJob Cron) → job_lt x y ≡ false → y.next_run_time ≤ x.next_run_time
  unfolding job_lt
  job_lt_not-ge x y h = ground arith

  insert_job-Ascending :
      (x : ScheduledCrawlerJob Cron) (ys : List (ScheduledCrawlerJob Cron))
      → Ascending ys
      → Ascending (insert_job x ys)
  unfolding insert_job
  insert_job-Ascending x [] a = (tt, tt)
  insert_job-Ascending x (y ∷ ys) a = elim (Bool-cases (job_lt y x)) [
    | inl e ↦
        rw e (All-insert y.next_run_time x ys (job_lt-le y x e) a.0, insert_job-Ascending x ys a.1)
    | inr e ↦ rw e (
      (
        job_lt_not-ge y x e,
        All-weaken x.next_run_time y.next_run_time ys (job_lt_not-ge y x e) a.0,
      ),
      a,
    )
  ]

  -- Sorting keeps the jobs and brings them into the order of their next runs, so that the thread
  -- waits for the earliest.
  pub sort_jobs_sorts :
      (xs : List (ScheduledCrawlerJob Cron)) → Perm (sort_jobs xs) xs × Ascending (sort_jobs xs)
  unfolding sort_jobs
  sort_jobs_sorts [] = (Perm.nil, tt)
  sort_jobs_sorts (x ∷ xs) =
      (sort_jobs-perm (x ∷ xs), insert_job-Ascending x (sort_jobs xs) (sort_jobs_sorts xs).1)

-- The job is among those that wait, or those whose locks are taken.
abbrev pub holds : {Cron : Type 0} → String → CrawlerJobQueue Cron → Bool
holds id q = waiting id q.pending || has id q.active_job_locks

-- The id of the job is noted as one that waits or runs.
abbrev noted : {Cron : Type 0} → String → CrawlerJobQueue Cron → Bool
noted id q = contains id q.pending_job_ids || contains id q.active_job_ids

module _ {Cron : Type 0} where
  enqueue-noted :
      (q : CrawlerJobQueue Cron) (job : ScheduledCrawlerJob Cron) (scheduled_for now : ℕ)
      → noted (job_id job) (enqueue q job scheduled_for now).0 ≡ true
  unfolding enqueue
  enqueue-noted q job scheduled_for now = ground (
    arith,
    contains-add (job_id job) (job_id job) q.pending_job_ids,
    eq_iff (job_id job) (job_id job),
  )

  enqueue_keeps :
      (q : CrawlerJobQueue Cron) (job : ScheduledCrawlerJob Cron) (scheduled_for now : ℕ)
      (id : String)
      → noted id q ≡ true
      → noted id (enqueue q job scheduled_for now).0 ≡ true
  unfolding enqueue
  enqueue_keeps q job scheduled_for now id h =
      ground (arith, contains-add id (job_id job) q.pending_job_ids)

module _ (lib : CronLib) where
  pub enqueue_due-Inv :
      (now : ℕ) (jobs : List (ScheduledCrawlerJob lib.Cron)) (q : CrawlerJobQueue lib.Cron)
      → Inv q
      → Inv (enqueue_due lib now jobs q).1
  unfolding enqueue_due
  enqueue_due-Inv now [] q v = v
  enqueue_due-Inv now (job ∷ jobs) q v =
      enqueue_due-Inv now jobs
        (if leb job.next_run_time now then (enqueue q job job.next_run_time now).0 else q)
        (elim (Bool-cases (leb job.next_run_time now)) [
          | inl due ↦ rw due (enqueue-Inv q job job.next_run_time now v)
          | inr early ↦ rw early v
        ])

  enqueue_due_keeps :
      (now : ℕ) (jobs : List (ScheduledCrawlerJob lib.Cron)) (q : CrawlerJobQueue lib.Cron)
      (id : String)
      → noted id q ≡ true
      → noted id (enqueue_due lib now jobs q).1 ≡ true
  unfolding enqueue_due
  enqueue_due_keeps now [] q id h = h
  enqueue_due_keeps now (job ∷ jobs) q id h =
      enqueue_due_keeps now jobs
        (if leb job.next_run_time now then (enqueue q job job.next_run_time now).0 else q) id
        (elim (Bool-cases (leb job.next_run_time now)) [
          | inl due ↦ rw due (enqueue_keeps q job job.next_run_time now id h)
          | inr early ↦ rw early h
        ])

  enqueue_due-noted :
      (now : ℕ) (jobs : List (ScheduledCrawlerJob lib.Cron)) (q : CrawlerJobQueue lib.Cron)
      → All
          (λ (job : ScheduledCrawlerJob lib.Cron).
            job.next_run_time ≤ now → noted (job_id job) (enqueue_due lib now jobs q).1 ≡ true)
          jobs
  unfolding enqueue_due
  enqueue_due-noted now [] q = tt
  enqueue_due-noted now (job ∷ jobs) q = (
    λ due.
        enqueue_due_keeps now jobs
          (if leb job.next_run_time now then (enqueue q job job.next_run_time now).0 else q)
          (job_id job)
          (rw (le→leb job.next_run_time now due) (enqueue-noted q job job.next_run_time now)),
    enqueue_due-noted now jobs
        (if leb job.next_run_time now then (enqueue q job job.next_run_time now).0 else q),
  )

  -- After the round's loop every job that was due waits in the queue or runs, if the queue keeps
  -- its invariant: a due job that did neither before is put into the list of waiting jobs.
  pub enqueue_due-holds :
      (now : ℕ) (jobs : List (ScheduledCrawlerJob lib.Cron)) (q : CrawlerJobQueue lib.Cron)
      → Inv q
      → All
          (λ (job : ScheduledCrawlerJob lib.Cron).
            job.next_run_time ≤ now → holds (job_id job) (enqueue_due lib now jobs q).1 ≡ true)
          jobs
  enqueue_due-holds now jobs q v = each jobs (enqueue_due-noted now jobs q)
    where
      after : CrawlerJobQueue lib.Cron
      after = (enqueue_due lib now jobs q).1

      w : Inv after
      w = enqueue_due-Inv now jobs q v

      each :
          (xs : List (ScheduledCrawlerJob lib.Cron))
          → All
              (λ (job : ScheduledCrawlerJob lib.Cron).
                job.next_run_time ≤ now → noted (job_id job) after ≡ true)
              xs
          → All
              (λ (job : ScheduledCrawlerJob lib.Cron).
                job.next_run_time ≤ now → holds (job_id job) after ≡ true)
              xs
      each [] h = tt
      each (job ∷ xs) h = (
        λ due. ground (arith, h.0 due, w.pending_ids (job_id job), w.active_ids (job_id job)),
        each xs h.1,
      )

  -- After the round's loop no job's next run lies in the past, and the jobs are the same ones, with
  -- their locks, in the same order.
  pub enqueue_due_advances :
      (now : ℕ) (jobs : List (ScheduledCrawlerJob lib.Cron)) (q : CrawlerJobQueue lib.Cron)
      → All
          (λ (job : ScheduledCrawlerJob lib.Cron). now ≤ job.next_run_time)
          (enqueue_due lib now jobs q).0
        × (map job_id (enqueue_due lib now jobs q).0 ≡ map job_id jobs)
        × (map
              (λ (job : ScheduledCrawlerJob lib.Cron). job.lock_keys)
              (enqueue_due lib now jobs q).0
            ≡ map (λ (job : ScheduledCrawlerJob lib.Cron). job.lock_keys) jobs)
  unfolding enqueue_due advance_after
  enqueue_due_advances now [] q = (tt, refl, refl)
  enqueue_due_advances now (job ∷ jobs) q =
      let (ahead, ids, locks) =
        enqueue_due_advances now jobs
          (if leb job.next_run_time now then (enqueue q job job.next_run_time now).0 else q) in
      (
        (ground (arith, lib.next_from job.schedule now), ahead),
        ground (arith, ids),
        ground (arith, locks),
      )

  pub dispatch_total :
      (t : SchedulerThread lib)
      → Inv t.job_queue
      → (t' : SchedulerThread lib) × (dispatch_ready_jobs lib t ≡ some t')
        × Inv t'.job_queue
        × (t'.scheduled_jobs ≡ t.scheduled_jobs)
  unfolding dispatch_ready_jobs
  dispatch_total t v =
      let (q, e, w, s) = pop-refines t.job_queue v in
      (
        record t { job_queue = q; started = t.started ++ (spec_pop (view t.job_queue)).1 },
        rw (e, dispatch_ready_jobs) refl,
        w,
        refl,
      )

-- What happens to a thread: its wait times out, a round runs what is due, or a job's own thread
-- reports its end.
pub data Event (lib : CronLib) : Type 0 where
  wakes : Event lib
  rounds : ℕ → Event lib
  finishes : ScheduledCrawlerJob lib.Cron → Event lib

module _ (lib : CronLib) where
  unfoldable pub step : SchedulerThread lib → Event lib → Option (SchedulerThread lib)
  step t wakes = dispatch_ready_jobs lib t
  step t (rounds now) = run_due lib now t
  step t (finishes job) = on_job_finished lib job t

  unfoldable pub steps : SchedulerThread lib → List (Event lib) → Option (SchedulerThread lib)
  steps t [] = some t
  steps t (event ∷ events) = elim (step t event) [ none ↦ none | some t' ↦ steps t' events ]

  step_total :
      (t : SchedulerThread lib) (event : Event lib)
      → Inv t.job_queue
      → (t' : SchedulerThread lib) × (step t event ≡ some t') × Inv t'.job_queue
  unfolding step run_due on_job_finished
  step_total t wakes v = let (t', e, w, s) = dispatch_total lib t v in (t', e, w)
  step_total t (rounds now) v =
      let (t', e, w, s) =
        dispatch_total lib
          (record t {
            job_queue = (enqueue_due lib now t.scheduled_jobs t.job_queue).1;
            scheduled_jobs = (enqueue_due lib now t.scheduled_jobs t.job_queue).0;
          })
          (enqueue_due-Inv lib now t.scheduled_jobs t.job_queue v) in
      (t', e, w)
  step_total t (finishes job) v =
      let (t', e, w, s) =
        dispatch_total lib (record t { job_queue = mark_finished t.job_queue job })
          (mark_finished-Inv t.job_queue job v) in
      (t', e, w)

  -- A new thread comes through every sequence of wakes, rounds and finished jobs, in any order,
  -- without an exception, and its queue keeps its invariant.
  pub steps_total :
      (jobs : List (ScheduledCrawlerJob lib.Cron)) (events : List (Event lib))
      → (t : SchedulerThread lib) × (steps (new_thread lib jobs) events ≡ some t) × Inv t.job_queue
  unfolding steps
  steps_total jobs events = from (new_thread lib jobs) events empty-Inv
    where
      from :
          (t : SchedulerThread lib) (events : List (Event lib))
          → Inv t.job_queue
          → (t' : SchedulerThread lib) × (steps t events ≡ some t') × Inv t'.job_queue
      from t [] v = (t, refl, v)
      from t (event ∷ events) v =
          let (t₁, e₁, v₁) = step_total t event v in
          let (t', e, v') = from t₁ events v₁ in (t', rw (e₁, steps) e, v')

-- so many waits that time out
abbrev pub quiet : ℕ → List Wake
quiet zero = []
quiet (suc n) = timed_out ∷ quiet n

module _ (lib : CronLib) where
  -- A wait with neither a stop nor a change of the configuration ends: minutes that cover the time
  -- to the next run bring the thread to its round, and its queue keeps its invariant.
  pub wait_loop_ends :
      (n left : ℕ) (t : SchedulerThread lib)
      → Inv t.job_queue
      → left ≤ n * one_wait lib
      → (t' : SchedulerThread lib) × (wait_loop lib left (quiet n) t ≡ runs_due t')
        × Inv t'.job_queue
        × (t'.scheduled_jobs ≡ t.scheduled_jobs)
  unfolding wait_loop
  wait_loop_ends zero left t v h = (t, ground arith, v, refl)
  wait_loop_ends (suc n) left t v h = elim (Bool-cases (left == 0)) [
    | inl e ↦ (t, rw e, v, refl)
    | inr e ↦
        let (t₁, e₁, v₁, s₁) = dispatch_total lib t v in
        let (t', e', v', s') =
          wait_loop_ends n (left - min (one_wait lib) left) t₁ v₁ (ground arith) in
        (t', rw (e, e₁, wait_loop) e', v', s' ∙ s₁)
  ]
