-- ===== src/Scheduler/Queue/Refine.antt =====
-- `CrawlerJobQueue` implements its specification, call by call and over every history.
use mathlib.Core.Option
use mathlib.Core.List.{append_assoc, append-nil}
use open_energy_data_server.Common.{
  ℕ, ◌≡◌, refl, sym, subst, ◌∙◌, Bool, Option, none, some, List, [], ◌∷◌, ◌++◌, arith, inl, inr,
  Bool-cases,
}
use open_energy_data_server.Common.Sets.{intersects}
use open_energy_data_server.Common.Dict.{put}
use open_energy_data_server.Scheduler.Job.{ScheduledCrawlerJob, QueuedCrawlerJob, job_id}
use open_energy_data_server.Scheduler.Queue.{
  CrawlerJobQueue, Popping, enqueue, activate, pop_loop, start_popping, finish_popping,
  pop_ready_jobs, mark_finished,
}
use open_energy_data_server.Scheduler.Queue.Locks.{conflicts, intersects-eq-conflicts}
use open_energy_data_server.Scheduler.Queue.Invariant.{
  Inv, joined, enqueue-Inv, activate-Inv, activate_listed, mark_finished-Inv,
}
use open_energy_data_server.Scheduler.Queue.Spec.{
  Spec, view, spec_enqueue, split, spec_pop, spec_finish,
}

module _ {Cron : Type 0} where
  enqueue-refines :
      (q : CrawlerJobQueue Cron) (job : ScheduledCrawlerJob Cron) (scheduled_for now : ℕ)
      → Inv q
      → (view (enqueue q job scheduled_for now).0 ≡ (spec_enqueue (view q) job scheduled_for now).0)
        × ((enqueue q job scheduled_for now).1 ≡ (spec_enqueue (view q) job scheduled_for now).1)
  unfolding enqueue spec_enqueue
  enqueue-refines q job scheduled_for now v =
      ground (arith, v.pending_ids (job_id job), v.active_ids (job_id job))

  -- What the loop of `pop_ready_jobs` has done at its end, in terms of the specification.
  record Popped (p p' : Popping Cron) (rest : List (QueuedCrawlerJob Cron)) : Type 0 where
    ready : p'.ready ≡ p.ready ++ (split p.active_job_locks rest).ready
    blocked : p'.blocked ≡ p.blocked ++ (split p.active_job_locks rest).blocked
    running : p'.active_job_locks ≡ (split p.active_job_locks rest).running

  pop_loop-refines :
      (rest : List (QueuedCrawlerJob Cron)) (p : Popping Cron)
      → Inv (joined p rest)
      → (p' : Popping Cron) × (pop_loop rest p ≡ some p') × Inv (joined p' []) × Popped p p' rest
  unfolding pop_loop split activate
  pop_loop-refines [] p v = (
    p,
    refl,
    v,
    record {
      ready = sym (append-nil p.ready);
      blocked = sym (append-nil p.blocked);
      running = refl;
    },
  )
  pop_loop-refines (x ∷ rest) p v =
      elim (Bool-cases (intersects x.job.lock_keys p.active_lock_keys)) [
        | inl e ↦
            let (p', run, v', r) = pop_loop-refines rest waits (waits-Inv v) in
            (
              p',
              rw (e, pop_loop) run,
              v',
              record {
                ready = ground (arith, same, r.ready);
                blocked = ground (
                  arith,
                  same,
                  r.blocked,
                  append_assoc p.blocked (x ∷ []) (split p.active_job_locks rest).blocked,
                );
                running = ground (arith, same, r.running);
              },
            )
        | inr e ↦
            let (p', run, v', r) =
              pop_loop-refines rest (activate x p) (activate-Inv p x rest v e) in
            (
              p',
              rw (e, activate_listed p x rest v) run,
              v',
              record {
                ready = ground (
                  arith,
                  same,
                  r.ready,
                  append_assoc p.ready (x ∷ [])
                      (split (put (job_id x.job) x.job.lock_keys p.active_job_locks) rest).ready,
                );
                blocked = ground (arith, same, r.blocked);
                running = ground (arith, same, r.running);
              },
            )
      ]
    where
      waits : Popping Cron
      waits = record p { blocked = p.blocked ++ x ∷ [] }

      waits-Inv : Inv (joined p (x ∷ rest)) → Inv (joined waits rest)
      waits-Inv w =
          subst (λ row. Inv (record (joined p rest) { pending = row }))
            (sym (append_assoc p.blocked (x ∷ []) rest)) w

      same :
          intersects x.job.lock_keys p.active_lock_keys
          ≡ conflicts x.job.lock_keys p.active_job_locks
      same =
          intersects-eq-conflicts x.job.lock_keys p.active_lock_keys p.active_job_locks v.lock_keys

  pub pop-refines :
      (q : CrawlerJobQueue Cron)
      → Inv q
      → (q' : CrawlerJobQueue Cron) × (pop_ready_jobs q ≡ some (q', (spec_pop (view q)).1))
        × Inv q'
        × (view q' ≡ (spec_pop (view q)).0)
  unfolding pop_ready_jobs
  pop-refines q v =
      let (p, run, w, r) = pop_loop-refines q.pending (start_popping q) v in
      (
        (finish_popping p).0,
        rw (run, pop_ready_jobs) (ground (arith, r.ready)),
        subst (λ row. Inv (record (joined p []) { pending = row })) (append-nil p.blocked) w,
        ground (arith, r.blocked, r.running),
      )

pub data Call (Cron : Type 0) : Type 0 where
  enqueues : ScheduledCrawlerJob Cron → ℕ → ℕ → Call Cron
  pops : Call Cron
  finishes : ScheduledCrawlerJob Cron → Call Cron

pub data Reply (Cron : Type 0) : Type 0 where
  added : Bool → Reply Cron
  started : List (QueuedCrawlerJob Cron) → Reply Cron
  done : Reply Cron

module _ {Cron : Type 0} where
  -- A history of calls on the queue; `none` where one of them raises.
  unfoldable pub run :
      CrawlerJobQueue Cron → List (Call Cron) → Option (CrawlerJobQueue Cron × List (Reply Cron))
  run q [] = some (q, [])
  run q (enqueues job scheduled_for now ∷ calls) =
      let (q', added_job) = enqueue q job scheduled_for now in
      Option.map (λ (r : CrawlerJobQueue Cron × List (Reply Cron)). (r.0, added added_job ∷ r.1))
        (run q' calls)
  run q (pops ∷ calls) = elim (pop_ready_jobs q) [
    | none ↦ none
    | some (q', jobs) ↦
        Option.map (λ (r : CrawlerJobQueue Cron × List (Reply Cron)). (r.0, started jobs ∷ r.1))
          (run q' calls)
  ]
  run q (finishes job ∷ calls) =
      Option.map (λ (r : CrawlerJobQueue Cron × List (Reply Cron)). (r.0, done ∷ r.1))
        (run (mark_finished q job) calls)

  unfoldable pub spec_run : Spec Cron → List (Call Cron) → Spec Cron × List (Reply Cron)
  spec_run s [] = (s, [])
  spec_run s (enqueues job scheduled_for now ∷ calls) =
      let (s', added_job) = spec_enqueue s job scheduled_for now in
      let (t, replies) = spec_run s' calls in (t, added added_job ∷ replies)
  spec_run s (pops ∷ calls) =
      let (s', jobs) = spec_pop s in
      let (t, replies) = spec_run s' calls in (t, started jobs ∷ replies)
  spec_run s (finishes job ∷ calls) =
      let (t, replies) = spec_run (spec_finish s job) calls in (t, done ∷ replies)

  -- A queue that keeps its invariant answers every history as its specification does, raises
  -- nothing, and ends with the invariant in the state that the specification ends in.
  pub run-refines :
      (q : CrawlerJobQueue Cron) (calls : List (Call Cron))
      → Inv q
      → (q' : CrawlerJobQueue Cron) × (run q calls ≡ some (q', (spec_run (view q) calls).1))
        × Inv q'
        × (view q' ≡ (spec_run (view q) calls).0)
  unfolding run spec_run mark_finished
  run-refines q [] v = (q, refl, v, refl)
  run-refines q (enqueues job scheduled_for now ∷ calls) v =
      let (q', e, v', s) =
        run-refines (enqueue q job scheduled_for now).0 calls
          (enqueue-Inv q job scheduled_for now v) in
      let r = enqueue-refines q job scheduled_for now v in
      (q', rw e (rw (r.0, r.1)), v', s ∙ rw r.0)
  run-refines q (pops ∷ calls) v =
      let (q₁, e₁, v₁, s₁) = pop-refines q v in
      let (q', e, v', s) = run-refines q₁ calls v₁ in
      (q', rw (e₁, run) (rw e (rw s₁)), v', s ∙ rw s₁)
  run-refines q (finishes job ∷ calls) v =
      let (q', e, v', s) = run-refines (mark_finished q job) calls (mark_finished-Inv q job v) in
      (q', rw e, v', s)
