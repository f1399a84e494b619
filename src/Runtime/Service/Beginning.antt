-- ===== src/Runtime/Service/Beginning.antt =====
-- A thread of the run service that enters its `try` block keeps the invariant.
use open_energy_data_server.Common.{
  ℕ, String, ◌≡◌, refl, subst, Option, none, some, List, [], ◌∷◌, arith, ◌==◌, if◌then◌else◌,
  Bool-cases, Option-cases, inl, inr,
}
use open_energy_data_server.Runtime.Rows.{get_run, active_status, is_active}
use open_energy_data_server.Runtime.Rows.Laws.{map_some, get_run-update_run}
use open_energy_data_server.Runtime.Service.{
  RunThread, RunService, get_thread, begin_run, set_started, set_running,
}
use open_energy_data_server.Runtime.Service.Invariant.{IsActiveRun, IsCarriedOut, Inv}

begun : ℕ → ℕ → ℕ → RunThread → RunThread
begun k r now t = if r == k then record t { started_at = some now } else t

map_thread : (RunThread → RunThread) → Option RunThread → Option RunThread
map_thread f none = none
map_thread f (some t) = some (f t)

get_thread-set_started :
    (k r now : ℕ) (threads : List RunThread)
    → get_thread k (set_started r now threads) ≡ map_thread (begun k r now) (get_thread k threads)
unfolding get_thread set_started begun map_thread
get_thread-set_started k r now [] = refl
get_thread-set_started k r now (t ∷ threads) =
    ground (arith, get_thread-set_started k r now threads)

module _ (s : RunService) (v : Inv s) where
  module _ (r now : ℕ) where
    abbrev begun_run : RunService
    begun_run = begin_run s r now

    begun_before : (k : ℕ) (n : String) → IsCarriedOut begun_run k n → IsCarriedOut s k n
    unfolding begin_run begun map_thread
    begun_before k n c = elim (Option-cases (get_thread k s.threads)) [
      | inl e ↦ absurd (ground (arith, c.found, get_thread-set_started k r now s.threads))
      | inr (t, e) ↦ record {
        thread = t;
        found = e;
        crawler = ground (arith, c.found, c.crawler, get_thread-set_started k r now s.threads);
      }
    ]

    begun_after : (k : ℕ) (n : String) → IsCarriedOut s k n → IsCarriedOut begun_run k n
    unfolding begin_run begun map_thread
    begun_after k n c = record {
      thread = begun k r now c.thread;
      found = ground (arith, c.found, get_thread-set_started k r now s.threads);
      crawler = ground (arith, c.crawler);
    }

    begun_row :
        (k : ℕ)
        → get_run k begun_run.rows
          ≡ (if r == k then map_some (set_running now) (get_run k s.rows) else get_run k s.rows)
    unfolding begin_run set_running
    begun_row k = get_run-update_run k r (set_running now) s.rows (λ x. refl)

    begun_active : (k : ℕ) (n : String) → IsActiveRun s k n → IsActiveRun begun_run k n
    unfolding set_running is_active active_status map_some
    begun_active k n a = record {
      row = if r == k then set_running now a.row else a.row;
      found = ground (arith, a.found, begun_row k);
      crawler = ground (arith, a.crawler);
      active = ground (arith, a.active);
    }

    -- The run that begins stood as active before.
    module _ (t : RunThread) (there : get_thread r s.threads ≡ some t) where
      of_thread : IsActiveRun s r t.prepared.crawler_name
      of_thread =
          v.recorded r t.prepared.crawler_name
            (record { thread = t; found = there; crawler = refl })

      active_unbegun : (k : ℕ) (n : String) → IsActiveRun begun_run k n → IsActiveRun s k n
      unfolding set_running map_some
      active_unbegun k n a = elim (Bool-cases (r == k)) [
        | inl e ↦
            let same : r ≡ k = ground arith in
            let old = of_thread in
            subst (λ m. IsActiveRun s m n) same
              (record {
                row = old.row;
                found = old.found;
                crawler = ground (arith, a.found, a.crawler, begun_row k, old.found, same);
                active = old.active;
              })
        | inr e ↦ record {
          row = a.row;
          found = ground (arith, a.found, begun_row k);
          crawler = a.crawler;
          active = a.active;
        }
      ]

      pub begin_run-Inv : Inv (begin_run s r now)
      unfolding begin_run map_some
      begin_run-Inv = record {
        unique = v.unique;
        fresh = λ k h. ground (arith, begun_row k, v.fresh k h);
        locked = λ n k h. begun_after k n (v.locked n k h);
        holds = λ k n c. v.holds k n (begun_before k n c);
        recorded = λ k n c. begun_active k n (v.recorded k n (begun_before k n c));
        carried = λ k n a. begun_after k n (v.carried k n (active_unbegun k n a));
      }
