-- ===== src/Scheduler/JobThread.antt =====
-- `thread_func` of `start_crawler_job_thread` in crawler_scheduler.py. What the crawler does is an
-- argument, as is what `subprocess.run` does with a script: it returns an exit code or raises (`none`).
use open_energy_data_server.Common.{
  ℕ, ◌≡◌, ◌↔◌, refl, Bool, true, Option, none, some, arith, if◌then◌else◌, inl, inr, Option-cases,
}
use open_energy_data_server.Yaml
use open_energy_data_server.Yaml.{Value, text, list, Items, nil, cons, Fields}

-- How the crawler's constructor and `run` end: they return, raise an `Exception`, or raise what is no
-- `Exception`, such as `SystemExit`.
pub data CrawlerEnd : Type 0 where
  returned : CrawlerEnd
  raised : CrawlerEnd
  exited : CrawlerEnd

-- How the thread ends: it calls `on_finish`, or dies before.
pub data ThreadEnd : Type 0 where
  finishes : ThreadEnd
  dies : ThreadEnd

module _ (run_script : Value → Option ℕ) where
  -- the loop over the scripts; an exit code is only logged
  unfoldable pub run_scripts : Items → ThreadEnd
  run_scripts nil = finishes
  run_scripts (cons script scripts) =
      let rest = run_scripts scripts in
      elim (run_script script) [ none ↦ dies | some returncode ↦ rest ]

  -- `isinstance(post_run_scripts, list) and post_run_scripts`
  unfoldable pub post_run : Option Value → ThreadEnd
  unfolding run_scripts
  post_run (some (list (cons script scripts))) = run_scripts (cons script scripts)
  post_run _ = finishes

  unfoldable pub thread_func : CrawlerEnd → Bool → Fields → ThreadEnd
  unfolding post_run
  thread_func exited run_post_scripts config = dies
  thread_func raised run_post_scripts config = finishes
  thread_func returned run_post_scripts config =
      if run_post_scripts then post_run (Yaml.get "post_run_scripts" config) else finishes

  -- the script is one that `subprocess.run` can start
  abbrev pub AllStart : Items → Type 0
  AllStart nil = Unit {0}
  AllStart (cons script scripts) =
      ((returncode : ℕ) × (run_script script ≡ some returncode)) × AllStart scripts

  scripts_finish : (scripts : Items) → AllStart scripts → run_scripts scripts ≡ finishes
  unfolding run_scripts
  scripts_finish nil h = refl
  scripts_finish (cons script scripts) h =
      let (returncode, e) = h.0 in rw (e, run_scripts) (scripts_finish scripts h.1)

  finished_scripts : (scripts : Items) → run_scripts scripts ≡ finishes → AllStart scripts
  unfolding run_scripts
  finished_scripts nil e = tt
  finished_scripts (cons script scripts) e = elim (Option-cases (run_script script)) [
    | inl q ↦ absurd (ground arith)
    | inr (c, q) ↦ ((c, q), finished_scripts scripts (ground arith))
  ]

  -- A thread whose crawler returned, with scripts to run after it, calls `on_finish` exactly if every
  -- script can be started: one that cannot, such as an item of the list that is no text, ends the
  -- thread before the scheduler learns that the job is over.
  pub thread_func_finishes :
      (config : Fields) (script : Value) (scripts : Items)
      → Yaml.get "post_run_scripts" config ≡ some (list (cons script scripts))
      → (thread_func returned true config ≡ finishes) ↔ AllStart (cons script scripts)
  unfolding thread_func post_run
  thread_func_finishes config script scripts e =
      rw e (finished_scripts (cons script scripts), scripts_finish (cons script scripts))
