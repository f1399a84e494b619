-- ===== src/Scheduler/Queue/Invariant.antt =====
-- The invariant of `CrawlerJobQueue`: the four sets never disagree with the pending jobs and the
-- lock table, and no two running jobs share a key. Every method keeps it.
use open_energy_data_server.Common.{
  ℕ, String, ◌≡◌, refl, sym, ◌∙◌, Bool, true, false, ◌||◌, List, [], ◌∷◌, ◌++◌, arith, str_eq,
  eq_iff, inl, inr, Bool-cases,
}
use open_energy_data_server.Common.Sets.{
  contains, contains-add, contains-discard, contains-update, contains-discard_all, intersects,
}
use open_energy_data_server.Common.Dict.{has, get, has-put}
use open_energy_data_server.Scheduler.Job.{ScheduledCrawlerJob, QueuedCrawlerJob, job_id}
use open_energy_data_server.Scheduler.Queue.{
  CrawlerJobQueue, Popping, empty, enqueue, activate, mark_finished, locks_or_empty,
}
use open_energy_data_server.Scheduler.Queue.Locks.{
  held, conflicts, Exclusive, intersects-eq-conflicts, not-held_of_free, held-put, put-Exclusive,
  has-pop, held-pop, pop-Exclusive,
}

module _ {Cron : Type 0} where
  -- the ids of a row of queued jobs
  unfoldable pub waiting : String → List (QueuedCrawlerJob Cron) → Bool
  waiting k [] = false
  waiting k (x ∷ xs) = str_eq (job_id x.job) k || waiting k xs

  abbrev pub Distinct : List (QueuedCrawlerJob Cron) → Type 0
  Distinct [] = Unit {0}
  Distinct (x ∷ xs) = (waiting (job_id x.job) xs ≡ false) × Distinct xs

  pub record Inv (q : CrawlerJobQueue Cron) : Type 0 where
    pub pending_ids : (k : String) → contains k q.pending_job_ids ≡ waiting k q.pending
    pub distinct : Distinct q.pending
    pub active_ids : (k : String) → contains k q.active_job_ids ≡ has k q.active_job_locks
    pub apart : (k : String) → waiting k q.pending ≡ true → has k q.active_job_locks ≡ false
    pub lock_keys : (k : String) → contains k q.active_lock_keys ≡ held k q.active_job_locks
    pub exclusive : Exclusive q.active_job_locks

  pub waiting-append :
      (k : String) (xs ys : List (QueuedCrawlerJob Cron))
      → waiting k (xs ++ ys) ≡ (waiting k xs || waiting k ys)
  unfolding waiting
  waiting-append k [] ys = refl
  waiting-append k (x ∷ xs) ys = ground (arith, waiting-append k xs ys)

  Distinct-append :
      (xs : List (QueuedCrawlerJob Cron)) (x : QueuedCrawlerJob Cron)
      → Distinct xs
      → waiting (job_id x.job) xs ≡ false
      → Distinct (xs ++ x ∷ [])
  unfolding waiting
  Distinct-append [] x d h = (refl, tt)
  Distinct-append (y ∷ xs) x d h = (
    ground (
      arith,
      waiting-append (job_id y.job) xs (x ∷ []),
      eq_iff (job_id y.job) (job_id x.job),
      eq_iff (job_id x.job) (job_id y.job),
    ),
    Distinct-append xs x d.1 (ground arith),
  )

  -- Without its middle job a row of distinct jobs is distinct, and no longer names that job.
  Distinct-drop :
      (xs : List (QueuedCrawlerJob Cron)) (x : QueuedCrawlerJob Cron)
      (ys : List (QueuedCrawlerJob Cron))
      → Distinct (xs ++ x ∷ ys)
      → Distinct (xs ++ ys) × (waiting (job_id x.job) (xs ++ ys) ≡ false)
  unfolding waiting
  Distinct-drop [] x ys d = (d.1, d.0)
  Distinct-drop (y ∷ xs) x ys d =
      let (rest, gone) = Distinct-drop xs x ys d.1 in
      (
        (
          ground (
            arith,
            waiting-append (job_id y.job) xs (x ∷ ys),
            waiting-append (job_id y.job) xs ys,
          ),
          rest,
        ),
        ground (
          arith,
          gone,
          waiting-append (job_id y.job) xs (x ∷ ys),
          eq_iff (job_id y.job) (job_id x.job),
          eq_iff (job_id x.job) (job_id y.job),
        ),
      )

  waiting-drop :
      (k : String) (xs : List (QueuedCrawlerJob Cron)) (x : QueuedCrawlerJob Cron)
      (ys : List (QueuedCrawlerJob Cron))
      → waiting k (xs ++ x ∷ ys) ≡ (str_eq (job_id x.job) k || waiting k (xs ++ ys))
  unfolding waiting
  waiting-drop k xs x ys = ground (arith, waiting-append k xs (x ∷ ys), waiting-append k xs ys)

  pub empty-Inv : Inv empty
  unfolding contains waiting has held
  empty-Inv = record {
    pending_ids = λ k. refl;
    distinct = tt;
    active_ids = λ k. refl;
    apart = λ k h. refl;
    lock_keys = λ k. refl;
    exclusive = tt;
  }

  pub enqueue-Inv :
      (q : CrawlerJobQueue Cron) (job : ScheduledCrawlerJob Cron) (scheduled_for now : ℕ)
      → Inv q
      → Inv (enqueue q job scheduled_for now).0
  unfolding enqueue waiting
  enqueue-Inv q job scheduled_for now v =
      elim (Bool-cases
        (contains (job_id job) q.pending_job_ids || contains (job_id job) q.active_job_ids)) [
          | inl e ↦ rw e v
          | inr e ↦ rw e (record {
            pending_ids = λ k. ground (
              arith,
              waiting-append k q.pending (new ∷ []),
              v.pending_ids k,
              contains-add k (job_id job) q.pending_job_ids,
            );
            distinct =
                Distinct-append q.pending new v.distinct
                  (ground (arith, v.pending_ids (job_id job)));
            active_ids = v.active_ids;
            apart = λ k h. ground (
              arith,
              waiting-append k q.pending (new ∷ []),
              v.apart k,
              v.active_ids (job_id job),
              eq_iff (job_id job) k,
            );
            lock_keys = v.lock_keys;
            exclusive = v.exclusive;
          })
        ]
    where
      new : QueuedCrawlerJob Cron
      new = record { job = job; scheduled_for = scheduled_for; enqueued_at = now }

  -- The queue as it stands within `pop_ready_jobs`: the blocked jobs, then those not yet seen.
  abbrev pub joined : Popping Cron → List (QueuedCrawlerJob Cron) → CrawlerJobQueue Cron
  joined p rest = record {
    pending = p.blocked ++ rest;
    pending_job_ids = p.pending_job_ids;
    active_job_ids = p.active_job_ids;
    active_job_locks = p.active_job_locks;
    active_lock_keys = p.active_lock_keys;
  }

  pub activate-Inv :
      (p : Popping Cron) (x : QueuedCrawlerJob Cron) (rest : List (QueuedCrawlerJob Cron))
      → Inv (joined p (x ∷ rest))
      → intersects x.job.lock_keys p.active_lock_keys ≡ false
      → Inv (joined (activate x p) rest)
  unfolding activate
  activate-Inv p x rest v free = record {
    pending_ids = λ k. ground (
      arith,
      v.pending_ids k,
      contains-discard k (job_id x.job) p.pending_job_ids,
      waiting-drop k p.blocked x rest,
      dropped.1,
      eq_iff (job_id x.job) k,
    );
    distinct = dropped.0;
    active_ids = λ k. ground (
      arith,
      v.active_ids k,
      contains-add k (job_id x.job) p.active_job_ids,
      has-put (job_id x.job) k x.job.lock_keys p.active_job_locks,
    );
    apart = λ k h. ground (
      arith,
      v.apart k,
      waiting-drop k p.blocked x rest,
      dropped.1,
      eq_iff (job_id x.job) k,
      has-put (job_id x.job) k x.job.lock_keys p.active_job_locks,
    );
    lock_keys = λ k. ground (
      arith,
      v.lock_keys k,
      contains-update k p.active_lock_keys x.job.lock_keys,
      held-put k (job_id x.job) x.job.lock_keys p.active_job_locks absent,
    );
    exclusive =
        put-Exclusive (job_id x.job) x.job.lock_keys p.active_job_locks absent
          (λ k m. not-held_of_free k x.job.lock_keys p.active_job_locks unheld m) v.exclusive;
  }
    where
      dropped : Distinct (p.blocked ++ rest) × (waiting (job_id x.job) (p.blocked ++ rest) ≡ false)
      dropped = Distinct-drop p.blocked x rest v.distinct

      absent : has (job_id x.job) p.active_job_locks ≡ false
      absent = v.apart (job_id x.job) (
          ground (
            arith,
            waiting-drop (job_id x.job) p.blocked x rest,
            eq_iff (job_id x.job) (job_id x.job),
          ))

      unheld : conflicts x.job.lock_keys p.active_job_locks ≡ false
      unheld =
          sym (
            intersects-eq-conflicts x.job.lock_keys p.active_lock_keys p.active_job_locks
              v.lock_keys)
          ∙ free

  pub activate_listed :
      (p : Popping Cron) (x : QueuedCrawlerJob Cron) (rest : List (QueuedCrawlerJob Cron))
      → Inv (joined p (x ∷ rest))
      → contains (job_id x.job) p.pending_job_ids ≡ true
  activate_listed p x rest v = ground (
    arith,
    v.pending_ids (job_id x.job),
    waiting-drop (job_id x.job) p.blocked x rest,
    eq_iff (job_id x.job) (job_id x.job),
  )

  pub mark_finished-Inv :
      (q : CrawlerJobQueue Cron) (job : ScheduledCrawlerJob Cron)
      → Inv q
      → Inv (mark_finished q job)
  unfolding mark_finished
  mark_finished-Inv q job v = record {
    pending_ids = v.pending_ids;
    distinct = v.distinct;
    active_ids = λ k. ground (
      arith,
      v.active_ids k,
      contains-discard k (job_id job) q.active_job_ids,
      has-pop k (job_id job) q.active_job_locks v.exclusive,
    );
    apart = λ k h. ground (arith, v.apart k, has-pop k (job_id job) q.active_job_locks v.exclusive);
    lock_keys = λ k. ground (
      arith,
      v.lock_keys k,
      contains-discard_all k q.active_lock_keys
          (locks_or_empty (get (job_id job) q.active_job_locks)),
      held-pop k (job_id job) q.active_job_locks v.exclusive,
    );
    exclusive = pop-Exclusive (job_id job) q.active_job_locks v.exclusive;
  }
