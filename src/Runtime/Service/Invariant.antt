-- ===== src/Runtime/Service/Invariant.antt =====
-- What holds between two steps of the run service: a crawler is locked exactly by the thread that
-- carries out its run, and the runs that stand as active in the table are those of the threads.
use open_energy_data_server.Common.{
  ℕ, ◌+◌, ◌≤◌, String, ◌≡◌, ◌⊎◌, refl, sym, ◌∙◌, subst, true, false, none, some, List, [], ◌∷◌,
  ◌++◌, arith, str_eq, eq_iff, ◌==◌, if◌then◌else◌, Bool-cases, inl, inr,
}
use open_energy_data_server.Common.Dict
use open_energy_data_server.Runtime.Rows.{RunRecord, get_run, active_status, is_active}
use open_energy_data_server.Runtime.Rows.Laws.{get_run-append, get_run-append_other}
use open_energy_data_server.Runtime.Action.{PreparedAction}
use open_energy_data_server.Runtime.Service.{
  RunThread, RunService, start_prepared, create_run_record, new_row, is_locked, get_thread,
  drop_thread,
}

-- an active run of the table, with the crawler it is a run of
pub record IsActiveRun (s : RunService) (k : ℕ) (crawler_name : String) : Type 0 where
  pub row : RunRecord
  pub found : get_run k s.rows ≡ some row
  pub crawler : row.crawler_name ≡ crawler_name
  pub active : is_active row ≡ true

-- a thread that carries out a run, with the crawler it is a run of
pub record IsCarriedOut (s : RunService) (k : ℕ) (crawler_name : String) : Type 0 where
  pub thread : RunThread
  pub found : get_thread k s.threads ≡ some thread
  pub crawler : thread.prepared.crawler_name ≡ crawler_name

pub record Inv (s : RunService) : Type 0 where
  pub unique : Dict.IsUnique s.active_runs
  pub fresh : (k : ℕ) → s.next_run_id ≤ k → get_run k s.rows ≡ none
  pub locked : (n : String) (k : ℕ) → Dict.get n s.active_runs ≡ some k → IsCarriedOut s k n
  pub holds : (k : ℕ) (n : String) → IsCarriedOut s k n → Dict.get n s.active_runs ≡ some k
  pub recorded : (k : ℕ) (n : String) → IsCarriedOut s k n → IsActiveRun s k n
  pub carried : (k : ℕ) (n : String) → IsActiveRun s k n → IsCarriedOut s k n

pub get_thread-drop_thread :
    (k r : ℕ) (threads : List RunThread)
    → get_thread k (drop_thread r threads) ≡ (if r == k then none else get_thread k threads)
unfolding get_thread drop_thread
get_thread-drop_thread k r [] = ground arith
get_thread-drop_thread k r (t ∷ threads) = ground (arith, get_thread-drop_thread k r threads)

module _ (s : RunService) (v : Inv s) where
  not_carried : (n : String) (k : ℕ) → s.next_run_id ≤ k → IsCarriedOut s k n → ⊥
  not_carried n k h c = let a = v.recorded k n c in ground (arith, a.found, v.fresh k h)

  module _ (p : PreparedAction) (trigger_source : String) (now : ℕ) where
    abbrev fresh_thread : RunThread
    fresh_thread = record { run_id = s.next_run_id; prepared = p; started_at = none }

    abbrev after : RunService
    after = record s {
      rows = s.rows ++ new_row s.logs_dir s.next_run_id p trigger_source now ∷ [];
      next_run_id = s.next_run_id + 1;
      active_runs = Dict.put p.crawler_name s.next_run_id s.active_runs;
      threads = fresh_thread ∷ s.threads;
    }

    row_kept : (k : ℕ) → (s.next_run_id == k) ≡ false → get_run k after.rows ≡ get_run k s.rows
    unfolding new_row
    row_kept k other = get_run-append_other k s.rows _ other

    started_run : IsActiveRun after s.next_run_id p.crawler_name
    unfolding new_row is_active active_status
    started_run = record {
      row = new_row s.logs_dir s.next_run_id p trigger_source now;
      found =
          get_run-append s.next_run_id s.rows _ (v.fresh s.next_run_id (omega arith))
          ∙ ground arith;
      crawler = refl;
      active = refl;
    }

    carried_before :
        (k : ℕ) (n : String)
        → IsCarriedOut after k n
        → ((s.next_run_id ≡ k) × (p.crawler_name ≡ n)) ⊎ IsCarriedOut s k n
    unfolding get_thread
    carried_before k n c = elim (Bool-cases (s.next_run_id == k)) [
      | inl e ↦ inl (ground arith, ground (arith, c.found, c.crawler))
      | inr e ↦
          inr (record { thread = c.thread; found = ground (arith, c.found); crawler = c.crawler })
    ]

    carried_after : (k : ℕ) (n : String) → IsCarriedOut s k n → IsCarriedOut after k n
    unfolding get_thread
    carried_after k n c = elim (Bool-cases (s.next_run_id == k)) [
      | inl e ↦ absurd (not_carried n k (ground arith) c)
      | inr e ↦ record { thread = c.thread; found = ground (arith, c.found); crawler = c.crawler }
    ]

    active_before :
        (k : ℕ) (n : String)
        → IsActiveRun after k n
        → ((s.next_run_id ≡ k) × (p.crawler_name ≡ n)) ⊎ IsActiveRun s k n
    unfolding new_row
    active_before k n a = elim (Bool-cases (s.next_run_id == k)) [
      | inl e ↦ inl (
        ground arith,
        ground (
          arith,
          a.found,
          a.crawler,
          get_run-append k s.rows (new_row s.logs_dir s.next_run_id p trigger_source now)
              (v.fresh k (ground arith)),
        ),
      )
      | inr e ↦ inr (record {
        row = a.row;
        found = sym (row_kept k e) ∙ a.found;
        crawler = a.crawler;
        active = a.active;
      })
    ]

    active_after : (k : ℕ) (n : String) → IsActiveRun s k n → IsActiveRun after k n
    active_after k n a = elim (Bool-cases (s.next_run_id == k)) [
      | inl e ↦ absurd (ground (arith, a.found, v.fresh k (ground arith)))
      | inr e ↦ record {
        row = a.row;
        found = row_kept k e ∙ a.found;
        crawler = a.crawler;
        active = a.active;
      }
    ]

    new_carried : IsCarriedOut after s.next_run_id p.crawler_name
    unfolding get_thread
    new_carried = record { thread = fresh_thread; found = ground arith; crawler = refl }

    carried_as :
        (n : String) (k : ℕ)
        → str_eq p.crawler_name n ≡ true
        → s.next_run_id ≡ k
        → IsCarriedOut after k n
    carried_as n k e i =
        let named : p.crawler_name ≡ n = ground (arith, eq_iff p.crawler_name n) in
        subst (λ m. IsCarriedOut after m n) i
          (subst (IsCarriedOut after s.next_run_id) named new_carried)

    put_at :
        (n : String)
        → Dict.get n after.active_runs
          ≡ (if str_eq p.crawler_name n then some s.next_run_id else Dict.get n s.active_runs)
    put_at n = Dict.get-put p.crawler_name n s.next_run_id s.active_runs

    module _ (free : Dict.has p.crawler_name s.active_runs ≡ false) where
      after-Inv : Inv after
      after-Inv = record {
        unique = Dict.put-IsUnique p.crawler_name s.next_run_id s.active_runs v.unique;
        fresh = λ k h. row_kept k (ground arith) ∙ v.fresh k (omega (arith, h));
        locked = λ n k h. elim (Bool-cases (str_eq p.crawler_name n)) [
          | inl e ↦ carried_as n k e (ground (arith, h, put_at n))
          | inr e ↦ carried_after k n (v.locked n k (ground (arith, h, put_at n)))
        ];
        holds = λ k n c. elim (carried_before k n c) [
          | inl (i, q) ↦ put_at n ∙ ground (arith, eq_iff p.crawler_name n)
          | inr old ↦
              put_at n
              ∙ ground (
                arith,
                eq_iff p.crawler_name n,
                v.holds k n old,
                Dict.has_of_get n k s.active_runs,
              )
        ];
        recorded = λ k n c. elim (carried_before k n c) [
          | inl (i, q) ↦
              subst (λ m. IsActiveRun after m n) i
                (subst (IsActiveRun after s.next_run_id) q started_run)
          | inr old ↦ active_after k n (v.recorded k n old)
        ];
        carried = λ k n a. elim (active_before k n a) [
          | inl (i, q) ↦
              subst (λ m. IsCarriedOut after m n) i
                (subst (IsCarriedOut after s.next_run_id) q new_carried)
          | inr old ↦ carried_after k n (v.carried k n old)
        ];
      }

  pub start_prepared-Inv :
      (p : PreparedAction) (trigger_source : String) (now : ℕ)
      → Inv (start_prepared s p.crawler_name p trigger_source now).0
  unfolding start_prepared is_locked create_run_record
  start_prepared-Inv p trigger_source now =
      elim (Bool-cases (Dict.has p.crawler_name s.active_runs)) [
        | inl e ↦ rw e v
        | inr e ↦ rw e (after-Inv p trigger_source now e)
      ]
