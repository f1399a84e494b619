-- ===== src/Scheduler/Queue/Safety.antt =====
-- What the queue guarantees about running jobs: they exclude one another, a lock is never released
-- early, and no job waits without a reason.
use mathlib.Core.List.{Perm, perm_middle}
use mathlib.Core.List.Perm
use open_energy_data_server.Common.{
  String, ◌≡◌, refl, sym, ap, subst, ◌∙◌, true, false, some, List, [], ◌∷◌, ◌++◌, arith, inl, inr,
  Bool-cases, eq_iff, All, All-append, Option-cases, ◌≢◌,
}
use open_energy_data_server.Common.Sets.{
  contains, intersects, contains-discard_all, contains-update, update, discard_all,
  intersects_complete,
}
use open_energy_data_server.Common.Dict.{Dict, put, get, get_absent}
use open_energy_data_server.Scheduler.Job.{ScheduledCrawlerJob, QueuedCrawlerJob, job_id}
use open_energy_data_server.Scheduler.Queue.{
  CrawlerJobQueue, Popping, empty, pop_loop, activate, start_popping, finish_popping,
  pop_ready_jobs, mark_finished, locks_or_empty,
}
use open_energy_data_server.Scheduler.Queue.Locks.{held, conflicts, Exclusive}
use open_energy_data_server.Scheduler.Queue.Invariant.{Inv, empty-Inv}
use open_energy_data_server.Scheduler.Queue.Spec.{Spec, view, split, spec_pop}
use open_energy_data_server.Scheduler.Queue.Refine.{Call, Reply, run, run-refines, pop-refines}

held_of_entry :
    (i k : String) (keys : List String) (active : Dict (List String))
    → get i active ≡ some keys
    → contains k keys ≡ true
    → held k active ≡ true
unfolding get held
held_of_entry i k keys [] e m = cc
held_of_entry i k keys ((j, other) ∷ active) e m = ground (arith, held_of_entry i k keys active)

entry_of_held :
    (k : String) (active : Dict (List String))
    → Exclusive active
    → held k active ≡ true
    → (i : String) × (keys : List String) × (get i active ≡ some keys) × (contains k keys ≡ true)
unfolding get held
entry_of_held k [] x h = absurd (ground arith)
entry_of_held k ((i, keys) ∷ active) x h = elim (Bool-cases (contains k keys)) [
  | inl e ↦ (i, keys, ground (arith, eq_iff i i), e)
  | inr e ↦
      let (j, own, there, m) = entry_of_held k active x.2 (ground arith) in
      (j, own, ground (arith, there, x.0, eq_iff i j, get_absent i active), m)
]

Exclusive-owner :
    (i j k : String) (keys others : List String) (active : Dict (List String))
    → Exclusive active
    → get i active ≡ some keys
    → get j active ≡ some others
    → contains k keys ≡ true
    → contains k others ≡ true
    → i ≡ j
unfolding get
Exclusive-owner i j k keys others [] x e f m n = cc
Exclusive-owner i j k keys others ((h, first) ∷ active) x e f m n = ground (
  arith,
  eq_iff h i,
  eq_iff h j,
  x.1 k,
  held_of_entry i k keys active,
  held_of_entry j k others active,
  Exclusive-owner i j k keys others active x.2,
)

intersects_mono :
    (s t t' : List String)
    → ((k : String) → contains k t ≡ true → contains k t' ≡ true)
    → intersects s t ≡ true
    → intersects s t' ≡ true
unfolding intersects
intersects_mono [] t t' h e = cc
intersects_mono (k ∷ s) t t' h e = ground (arith, h k, intersects_mono s t t' h)

module _ {Cron : Type 0} where
  -- In every state that a history of calls leads to, two running jobs that hold the same lock key
  -- are the same job.
  pub running_jobs_exclude :
      (calls : List (Call Cron)) (q : CrawlerJobQueue Cron) (replies : List (Reply Cron))
      (i j k : String) (keys others : List String)
      → run empty calls ≡ some (q, replies)
      → get i q.active_job_locks ≡ some keys
      → get j q.active_job_locks ≡ some others
      → contains k keys ≡ true
      → contains k others ≡ true
      → i ≡ j
  running_jobs_exclude calls q replies i j k keys others e f g m n =
      let (q', e', v, s) = run-refines empty calls empty-Inv in
      let same : q' ≡ q = ground arith in
      Exclusive-owner i j k keys others q.active_job_locks (subst Inv same v).exclusive f g m n

  -- A finished job releases no key that another running job holds.
  pub mark_finished_keeps_locks :
      (q : CrawlerJobQueue Cron) (job : ScheduledCrawlerJob Cron) (j k : String)
      (keys : List String)
      → Inv q
      → get j q.active_job_locks ≡ some keys
      → j ≢ job_id job
      → contains k keys ≡ true
      → contains k (mark_finished q job).active_lock_keys ≡ true
  unfolding mark_finished locks_or_empty contains discard_all
  mark_finished_keeps_locks q job j k keys v e ne m =
      elim (Option-cases (get (job_id job) q.active_job_locks)) [
        | inl f ↦ rw f (v.lock_keys k ∙ held_of_entry j k keys q.active_job_locks e m)
        | inr (own, f) ↦ rw f (elim (Bool-cases (contains k own)) [
          | inl n ↦ absurd (
              ne (Exclusive-owner j (job_id job) k keys own q.active_job_locks v.exclusive e f m n))
          | inr n ↦ ground (
            arith,
            contains-discard_all k q.active_lock_keys own,
            v.lock_keys k,
            held_of_entry j k keys q.active_job_locks e m,
            n,
          )
        ])
      ]

  abbrev pub IsBlocked : List String → QueuedCrawlerJob Cron → Type 0
  IsBlocked taken x = intersects x.job.lock_keys taken ≡ true

  All-IsBlocked_mono :
      (xs : List (QueuedCrawlerJob Cron)) (t t' : List String)
      → ((k : String) → contains k t ≡ true → contains k t' ≡ true)
      → All (IsBlocked t) xs
      → All (IsBlocked t') xs
  All-IsBlocked_mono [] t t' h b = tt
  All-IsBlocked_mono (x ∷ xs) t t' h b =
      (intersects_mono x.job.lock_keys t t' h b.0, All-IsBlocked_mono xs t t' h b.1)

  pop_loop_blocked :
      (rest : List (QueuedCrawlerJob Cron)) (p p' : Popping Cron)
      → pop_loop rest p ≡ some p'
      → All (IsBlocked p.active_lock_keys) p.blocked
      → All (IsBlocked p'.active_lock_keys) p'.blocked
  unfolding pop_loop activate
  pop_loop_blocked [] p p' e b =
      let same : p ≡ p' = ground arith in
      subst (λ (z : Popping Cron). All (IsBlocked z.active_lock_keys) z.blocked) same b
  pop_loop_blocked (x ∷ rest) p p' e b =
      elim (Bool-cases (intersects x.job.lock_keys p.active_lock_keys)) [
        | inl h ↦
            pop_loop_blocked rest (record p { blocked = p.blocked ++ x ∷ [] }) p' (ground arith)
              (All-append (IsBlocked p.active_lock_keys) p.blocked (x ∷ []) b (h, tt))
        | inr h ↦ pop_loop_blocked rest (activate x p) p' (ground arith) (
            All-IsBlocked_mono p.blocked p.active_lock_keys
              (update p.active_lock_keys x.job.lock_keys)
              (λ k m. ground (arith, contains-update k p.active_lock_keys x.job.lock_keys)) b)
      ]

  pop_leaves-IsBlocked :
      (q q' : CrawlerJobQueue Cron) (ready : List (QueuedCrawlerJob Cron))
      → pop_ready_jobs q ≡ some (q', ready)
      → All (IsBlocked q'.active_lock_keys) q'.pending
  unfolding pop_ready_jobs
  pop_leaves-IsBlocked q q' ready e = elim (Option-cases (pop_loop q.pending (start_popping q))) [
    | inl f ↦ absurd (ground arith)
    | inr (p, f) ↦
        let same : (finish_popping p).0 ≡ q' = ground arith in
        subst (λ (z : CrawlerJobQueue Cron). All (IsBlocked z.active_lock_keys) z.pending) same
          (pop_loop_blocked q.pending (start_popping q) p f tt)
  ]

  pop_ready_jobs-Inv :
      (q q' : CrawlerJobQueue Cron) (ready : List (QueuedCrawlerJob Cron))
      → Inv q
      → pop_ready_jobs q ≡ some (q', ready)
      → Inv q'
  pop_ready_jobs-Inv q q' ready v e =
      let (q₁, e₁, v₁, s₁) = pop-refines q v in subst Inv (ground arith) v₁

  -- a running job holds a key that the job needs
  abbrev pub WaitsFor : Dict (List String) → QueuedCrawlerJob Cron → Type 0
  WaitsFor active x =
      (k : String) × (i : String) × (keys : List String) × (contains k x.job.lock_keys ≡ true)
      × (get i active ≡ some keys)
      × (contains k keys ≡ true)

  -- In every state that a history of calls leads to, a pop leaves no job waiting without a reason:
  -- each job that still waits needs a key that is one of those a running job is recorded with.
  pub pop_ready_jobs_maximal :
      (calls : List (Call Cron)) (q q' : CrawlerJobQueue Cron) (replies : List (Reply Cron))
      (ready : List (QueuedCrawlerJob Cron))
      → run empty calls ≡ some (q, replies)
      → pop_ready_jobs q ≡ some (q', ready)
      → All (WaitsFor q'.active_job_locks) q'.pending
  pop_ready_jobs_maximal calls q q' replies ready e f =
      each q'.pending (pop_leaves-IsBlocked q q' ready f)
    where
      v : Inv q
      v = let (q₀, e₀, v₀, s₀) = run-refines empty calls empty-Inv in subst Inv (ground arith) v₀

      w : Inv q'
      w = pop_ready_jobs-Inv q q' ready v f

      each :
          (xs : List (QueuedCrawlerJob Cron))
          → All (IsBlocked q'.active_lock_keys) xs
          → All (WaitsFor q'.active_job_locks) xs
      each [] b = tt
      each (x ∷ xs) b =
          let (k, m, n) = intersects_complete x.job.lock_keys q'.active_lock_keys b.0 in
          let (i, keys, there, own) =
            entry_of_held k q'.active_job_locks w.exclusive (sym (w.lock_keys k) ∙ n) in
          ((k, i, keys, m, there, own), each xs b.1)

  -- The queue cannot be stuck: if no job runs after a pop, then no job waits.
  pub pop_ready_jobs_progress :
      (q q' : CrawlerJobQueue Cron) (ready : List (QueuedCrawlerJob Cron))
      → Inv q
      → pop_ready_jobs q ≡ some (q', ready)
      → q'.active_job_locks ≡ []
      → q'.pending ≡ []
  unfolding held
  pop_ready_jobs_progress q q' ready v e idle =
      none_blocked q'.pending (pop_leaves-IsBlocked q q' ready e)
    where
      w : Inv q'
      w = pop_ready_jobs-Inv q q' ready v e

      free : (k : String) → contains k q'.active_lock_keys ≡ false
      free k = w.lock_keys k ∙ rw idle

      none_blocked :
          (xs : List (QueuedCrawlerJob Cron)) → All (IsBlocked q'.active_lock_keys) xs → xs ≡ []
      none_blocked [] b = refl
      none_blocked (x ∷ xs) b =
          let (k, m, n) = intersects_complete x.job.lock_keys q'.active_lock_keys b.0 in
          absurd (ground (arith, free k))

  split-perm :
      (running : Dict (List String)) (xs : List (QueuedCrawlerJob Cron))
      → Perm ((split running xs).ready ++ (split running xs).blocked) xs
  unfolding split
  split-perm running [] = Perm.nil
  split-perm running (x ∷ xs) = elim (Bool-cases (conflicts x.job.lock_keys running)) [
    | inl e ↦ rw e (
        Perm.trans (perm_middle (split running xs).ready (split running xs).blocked)
          (Perm.cons x (split-perm running xs)))
    | inr e ↦ rw e (Perm.cons x (split-perm (put (job_id x.job) x.job.lock_keys running) xs))
  ]

  -- A pop neither loses nor repeats a job: what it hands out and what it leaves waiting are the jobs
  -- that waited.
  pub pop_ready_jobs-perm :
      (q : CrawlerJobQueue Cron)
      → Inv q
      → (q' : CrawlerJobQueue Cron) × (ready : List (QueuedCrawlerJob Cron)) × (pop_ready_jobs q
          ≡ some (q', ready))
        × Perm (ready ++ q'.pending) q.pending
  pop_ready_jobs-perm q v =
      let (q', e, v', s) = pop-refines q v in
      (
        q',
        (spec_pop (view q)).1,
        e,
        subst (λ row. Perm ((spec_pop (view q)).1 ++ row) q.pending)
            (sym (ap (λ (z : Spec Cron). z.pending) s)) (split-perm q.active_job_locks q.pending),
      )
