-- ===== src/Runtime/Service/Ending.antt =====
-- The two ways a run of the run service ends, by its thread and by a restart.
use open_energy_data_server.Common.{
  ℕ, String, ◌≡◌, refl, sym, ◌∙◌, false, some, arith, str_eq, eq_iff, eq_refl, ◌==◌, if◌then◌else◌,
  Bool-cases, Option-cases, inl, inr,
}
use open_energy_data_server.Common.Dict
use open_energy_data_server.Runtime.Rows.{
  RunRecord, get_run, active_status, is_active, mark_interrupted,
}
use open_energy_data_server.Runtime.Rows.Laws.{
  map_some, get_run-update_run, get_run-mark_interrupted_runs,
}
use open_energy_data_server.Runtime.Action.{Ended, returned, raised, exited, PreparedAction}
use open_energy_data_server.Runtime.Service.{
  RunThread, RunService, get_thread, finish_run, set_finished, status_after, restart,
}
use open_energy_data_server.Runtime.Service.Invariant.{
  IsActiveRun, IsCarriedOut, Inv, get_thread-drop_thread,
}

status_after_final : (ending : Ended String) → active_status (status_after ending) ≡ false
unfolding active_status status_after
status_after_final (returned _) = refl
status_after_final (raised _ _) = refl
status_after_final exited = refl

set_finished_final :
    (p : PreparedAction) (a b : ℕ) (ending : Ended String) (r : RunRecord)
    → is_active (set_finished p a b ending r) ≡ false
unfolding is_active set_finished
set_finished_final p a b ending r = status_after_final ending

module _ (s : RunService) (v : Inv s) (t : RunThread) (r started_at finished_at : ℕ)
    (ending : Ended String) (there : get_thread r s.threads ≡ some t) where
  abbrev ended : RunService
  ended = finish_run s r t.prepared started_at finished_at ending

  abbrev name : String
  name = t.prepared.crawler_name

  owner : IsCarriedOut s r name
  owner = record { thread = t; found = there; crawler = refl }

  pub finish_run-row :
      (k : ℕ)
      → get_run k ended.rows ≡ (
          if r == k
          then map_some (set_finished t.prepared started_at finished_at ending) (get_run k s.rows)
          else get_run k s.rows)
  unfolding finish_run set_finished
  finish_run-row k = get_run-update_run k r _ s.rows (λ x. refl)

  ended_before :
      (k : ℕ) (n : String) → IsCarriedOut ended k n → ((r == k) ≡ false) × IsCarriedOut s k n
  unfolding finish_run
  ended_before k n c = (
    ground (arith, c.found, get_thread-drop_thread k r s.threads),
    record {
      thread = c.thread;
      found = ground (arith, c.found, get_thread-drop_thread k r s.threads);
      crawler = c.crawler;
    },
  )

  ended_after :
      (k : ℕ) (n : String) → (r == k) ≡ false → IsCarriedOut s k n → IsCarriedOut ended k n
  unfolding finish_run
  ended_after k n other c = record {
    thread = c.thread;
    found = ground (arith, c.found, get_thread-drop_thread k r s.threads);
    crawler = c.crawler;
  }

  active_before_end :
      (k : ℕ) (n : String) → IsActiveRun ended k n → ((r == k) ≡ false) × IsActiveRun s k n
  unfolding map_some
  active_before_end k n a = elim (Bool-cases (r == k)) [
    | inl e ↦ elim (Option-cases (get_run k s.rows)) [
      | inl q ↦ absurd (ground (arith, a.found, finish_run-row k))
      | inr (x, q) ↦ absurd (
          ground (
            arith,
            a.active,
            a.found,
            finish_run-row k,
            set_finished_final t.prepared started_at finished_at ending x,
          ))
    ]
    | inr e ↦ (
      e,
      record {
        row = a.row;
        found = ground (arith, a.found, finish_run-row k);
        crawler = a.crawler;
        active = a.active;
      },
    )
  ]

  active_after_end :
      (k : ℕ) (n : String) → (r == k) ≡ false → IsActiveRun s k n → IsActiveRun ended k n
  active_after_end k n other a = record {
    row = a.row;
    found = ground (arith, a.found, finish_run-row k);
    crawler = a.crawler;
    active = a.active;
  }

  -- Another run is a run of another crawler.
  apart :
      (k : ℕ) (n : String)
      → (r == k) ≡ false
      → Dict.get n s.active_runs ≡ some k
      → str_eq name n ≡ false
  apart k n other h = ground (arith, eq_iff name n, v.holds r name owner)

  not_owner : (k : ℕ) (n : String) → str_eq name n ≡ false → IsCarriedOut s k n → (r == k) ≡ false
  not_owner k n other c = ground (arith, c.found, there, c.crawler, eq_iff name n, eq_refl n)

  lock_gone : (n : String) (k : ℕ) → Dict.get n ended.active_runs ≡ some k → str_eq name n ≡ false
  unfolding finish_run
  lock_gone n k h = ground (
    arith,
    eq_iff name n,
    Dict.has_of_get n k (Dict.pop name s.active_runs) h,
    Dict.has-pop_same name s.active_runs v.unique,
  )

  pub finish_run-Inv : Inv (finish_run s r t.prepared started_at finished_at ending)
  unfolding finish_run map_some
  finish_run-Inv = record {
    unique = Dict.pop-IsUnique name s.active_runs v.unique;
    fresh = λ k h. ground (arith, finish_run-row k, v.fresh k h);
    locked = λ n k h.
        let other = lock_gone n k h in
        let c = v.locked n k (sym (Dict.get-pop_other name n s.active_runs other) ∙ h) in
        ended_after k n (not_owner k n other c) c;
    holds = λ k n c.
        let (other, old) = ended_before k n c in
        Dict.get-pop_other name n s.active_runs (apart k n other (v.holds k n old))
        ∙ v.holds k n old;
    recorded = λ k n c.
        let (other, old) = ended_before k n c in active_after_end k n other (v.recorded k n old);
    carried = λ k n a.
        let (other, old) = active_before_end k n a in ended_after k n other (v.carried k n old);
  }

mark_interrupted_final : (now : ℕ) (r : RunRecord) → is_active (mark_interrupted now r) ≡ false
unfolding is_active active_status mark_interrupted
mark_interrupted_final now r = ground arith

pub restart-Inv : (s : RunService) (now : ℕ) → Inv s → Inv (restart s now)
unfolding restart map_some get_thread Dict.get
restart-Inv s now v = record {
  unique = tt;
  fresh = λ k h. ground (arith, v.fresh k h, get_run-mark_interrupted_runs k now s.rows);
  locked = λ n k h. absurd (ground arith);
  holds = λ k n c. absurd (ground (arith, c.found));
  recorded = λ k n c. absurd (ground (arith, c.found));
  carried = λ k n a. elim (Option-cases (get_run k s.rows)) [
    | inl e ↦ absurd (ground (arith, a.found, get_run-mark_interrupted_runs k now s.rows))
    | inr (x, e) ↦ absurd (
        ground (
          arith,
          a.active,
          a.found,
          mark_interrupted_final now x,
          get_run-mark_interrupted_runs k now s.rows,
        ))
  ];
}
