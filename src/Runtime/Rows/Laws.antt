-- ===== src/Runtime/Rows/Laws.antt =====
-- What the statements on the table of runs do to a single run.
use open_energy_data_server.Common.{
  ℕ, ◌≡◌, refl, false, Option, none, some, List, [], ◌∷◌, ◌++◌, arith, ◌==◌, if◌then◌else◌,
}
use open_energy_data_server.Runtime.Rows.{
  RunRecord, get_run, update_run, mark_interrupted, mark_interrupted_runs, is_active,
}

unfoldable pub map_some {ℓ} : {A B : Type ℓ} → (A → B) → Option A → Option B
map_some f none = none
map_some f (some a) = some (f a)

pub get_run-update_run :
    (k r : ℕ) (change : RunRecord → RunRecord) (rows : List RunRecord)
    → ((x : RunRecord) → (change x).run_id ≡ x.run_id)
    → get_run k (update_run r change rows)
      ≡ (if r == k then map_some change (get_run k rows) else get_run k rows)
unfolding get_run update_run map_some
get_run-update_run k r change [] same = ground arith
get_run-update_run k r change (x ∷ rows) same =
    ground (arith, same x, get_run-update_run k r change rows same)

pub get_run-append :
    (k : ℕ) (rows : List RunRecord) (x : RunRecord)
    → get_run k rows ≡ none
    → get_run k (rows ++ x ∷ []) ≡ (if x.run_id == k then some x else none)
unfolding get_run
get_run-append k [] x h = refl
get_run-append k (y ∷ rows) x h = ground (arith, get_run-append k rows x)

pub get_run-append_other :
    (k : ℕ) (rows : List RunRecord) (x : RunRecord)
    → (x.run_id == k) ≡ false
    → get_run k (rows ++ x ∷ []) ≡ get_run k rows
unfolding get_run
get_run-append_other k [] x h = ground arith
get_run-append_other k (y ∷ rows) x h = ground (arith, get_run-append_other k rows x h)

pub mark_interrupted_id :
    (timestamp : ℕ) (r : RunRecord) → (mark_interrupted timestamp r).run_id ≡ r.run_id
unfolding mark_interrupted is_active
mark_interrupted_id timestamp r = ground arith

-- after a restart a run is as `mark_interrupted` leaves it
pub get_run-mark_interrupted_runs :
    (k timestamp : ℕ) (rows : List RunRecord)
    → get_run k (mark_interrupted_runs timestamp rows)
      ≡ map_some (mark_interrupted timestamp) (get_run k rows)
unfolding get_run mark_interrupted_runs map_some
get_run-mark_interrupted_runs k timestamp [] = refl
get_run-mark_interrupted_runs k timestamp (x ∷ rows) =
    ground (arith, mark_interrupted_id timestamp x, get_run-mark_interrupted_runs k timestamp rows)

-- A run found by its id has that id.
pub get_run_id :
    (k : ℕ) (rows : List RunRecord) (r : RunRecord) → get_run k rows ≡ some r → r.run_id ≡ k
unfolding get_run
get_run_id k [] r h = absurd (ground arith)
get_run_id k (x ∷ rows) r h = ground (arith, get_run_id k rows r)
