-- ===== src/Admin/Jobs/Agreement.antt =====
-- The admin's check of a crawler's jobs against the scheduler's expansion of them.
use open_energy_data_server.Common.{
  ℕ, String, ◌≡◌, refl, sym, ◌∙◌, true, false, Option, none, some, List, [], ◌∷◌, ◌++◌, arith,
  str_eq, eq_iff, inl, inr, Bool-cases, Option-cases, ◌||◌,
}
use open_energy_data_server.Common.Strip.{strip, is_empty}
use open_energy_data_server.Common.Text.{◌<>◌}
use open_energy_data_server.Yaml.{
  Value, null, bool, int, negative, real, text, list, dict, Fields, end, field, get, has, without,
  IsUnique,
}
use open_energy_data_server.Scheduler.Cron.{CronLib}
use open_energy_data_server.Scheduler.Job.{CrawlerJobConfig}
use open_energy_data_server.Scheduler.Expand.{with_job_names, expand_crawler_job_configs, expand_by}
use open_energy_data_server.Scheduler.Expand.Laws.{
  job_named, expected_job, expand_jobs-eq-expected, get-with_job_names,
}
use open_energy_data_server.Admin.Issues.{ValidationIssue, any_error, is_error, error_in}
use open_energy_data_server.Admin.Preview.{CronErrors, build_cron_preview, parse_error}
use open_energy_data_server.Admin.Jobs.{
  merge_with_defaults, is_no_text, preview_issues, job_schedule_issues, effective_job_issues,
  job_issues, jobs_issues, validate_crawler_jobs,
}

pub any_error-append :
    (xs ys : List ValidationIssue) → any_error (xs ++ ys) ≡ any_error xs || any_error ys
unfolding any_error
any_error-append [] ys = refl
any_error-append (x ∷ xs) ys = ground (arith, any_error-append xs ys)

pub no_error_left :
    (xs ys : List ValidationIssue) → any_error (xs ++ ys) ≡ false → any_error xs ≡ false
no_error_left xs ys h = ground (arith, any_error-append xs ys)

pub no_error_right :
    (xs ys : List ValidationIssue) → any_error (xs ++ ys) ≡ false → any_error ys ≡ false
no_error_right xs ys h = ground (arith, any_error-append xs ys)

pub refused_kind : (scope message : String) → any_error (error_in scope message ∷ []) ≡ false → ⊥
unfolding any_error is_error error_in
refused_kind scope message h = ground arith

none_there : (n : String) → has n end ≡ true → ⊥
unfolding has
none_there n h = ground arith

module _ (lib : CronLib) (exception : CronErrors lib) where
  -- The parser of a schedule does not mind spaces around it.
  abbrev pub IgnoresSpaces : Type 0
  IgnoresSpaces =
      (s : String) (c : lib.Cron)
      → lib.parse (some (text (strip s))) ≡ some c
      → (d : lib.Cron) × (lib.parse (some (text s)) ≡ some d)

  pub preview-Parses :
      (scope prefix : String) (s : String)
      → IgnoresSpaces
      → any_error (preview_issues lib exception scope prefix (some (text s))) ≡ false
      → (c : lib.Cron) × (lib.parse (some (text s)) ≡ some c)
  unfolding preview_issues build_cron_preview parse_error any_error is_error error_in
  preview-Parses scope prefix s spaces h = elim (Bool-cases (is_empty (strip s))) [
    | inl e ↦ absurd (ground arith)
    | inr e ↦ elim (Option-cases (lib.parse (some (text (strip s))))) [
      | inl q ↦ absurd (ground arith)
      | inr (c, q) ↦ spaces s c q
    ]
  ]

  schedule-Parses :
      (job_scope : String) (v : Option Value)
      → IgnoresSpaces
      → any_error (job_schedule_issues lib exception job_scope v) ≡ false
      → (c : lib.Cron) × (lib.parse v ≡ some c)
  unfolding job_schedule_issues is_no_text any_error is_error error_in
  schedule-Parses job_scope (some (text s)) spaces h = elim (Bool-cases (is_empty (strip s))) [
    | inl e ↦ absurd (ground arith)
    | inr e ↦
        preview-Parses job_scope "Invalid job CRON schedule: " s spaces (rw (sym e) (ground arith))
  ]
  schedule-Parses job_scope none spaces h = absurd (ground arith)
  schedule-Parses job_scope (some null) spaces h = absurd (ground arith)
  schedule-Parses job_scope (some (bool _)) spaces h = absurd (ground arith)
  schedule-Parses job_scope (some (int _)) spaces h = absurd (ground arith)
  schedule-Parses job_scope (some (negative _)) spaces h = absurd (ground arith)
  schedule-Parses job_scope (some (real _)) spaces h = absurd (ground arith)
  schedule-Parses job_scope (some (list _)) spaces h = absurd (ground arith)
  schedule-Parses job_scope (some (dict _)) spaces h = absurd (ground arith)

  module _ (int_of : String → Option ℕ) where
    effective-Parses :
        (crawler_name job_scope : String) (effective : Fields)
        → IgnoresSpaces
        → any_error (effective_job_issues lib exception int_of crawler_name job_scope effective)
          ≡ false
        → (c : lib.Cron) × (lib.parse (get "schedule" effective) ≡ some c)
    unfolding effective_job_issues
    effective-Parses crawler_name job_scope effective spaces h =
        schedule-Parses job_scope (get "schedule" effective) spaces (
          no_error_left (job_schedule_issues lib exception job_scope (get "schedule" effective)) _
            (no_error_left _ _ h))

    expected_job_made :
        (crawler_name n : String) (base job : Fields) (c : lib.Cron)
        → lib.parse (get "schedule" (merge_with_defaults base job)) ≡ some c
        → (d : CrawlerJobConfig lib.Cron) × (expected_job lib crawler_name base n (some (dict job))
            ≡ some d)
    unfolding expected_job
    expected_job_made crawler_name n base job c q = (
      record {
        crawler_name = crawler_name;
        job_name = n;
        config = with_job_names crawler_name n (merge_with_defaults base job);
        schedule = c;
      },
      ground
          (arith, q, get-with_job_names "schedule" crawler_name n (merge_with_defaults base job)),
    )

    job-expected :
        (crawler_name n : String) (base : Fields) (v : Value)
        → IgnoresSpaces
        → any_error (job_issues lib exception int_of crawler_name base n v) ≡ false
        → (c : CrawlerJobConfig lib.Cron) × (expected_job lib crawler_name base n (some v) ≡ some c)
    unfolding job_issues
    job-expected crawler_name n base (dict job) spaces h =
        let (c, q) =
          effective-Parses crawler_name (crawler_name <> ":" <> n) (merge_with_defaults base job)
            spaces h in
        expected_job_made crawler_name n base job c q
    job-expected crawler_name n base null spaces h = absurd (refused_kind _ _ h)
    job-expected crawler_name n base (bool _) spaces h = absurd (refused_kind _ _ h)
    job-expected crawler_name n base (int _) spaces h = absurd (refused_kind _ _ h)
    job-expected crawler_name n base (negative _) spaces h = absurd (refused_kind _ _ h)
    job-expected crawler_name n base (real _) spaces h = absurd (refused_kind _ _ h)
    job-expected crawler_name n base (text _) spaces h = absurd (refused_kind _ _ h)
    job-expected crawler_name n base (list _) spaces h = absurd (refused_kind _ _ h)

    jobs-expected :
        (crawler_name n : String) (base jobs : Fields)
        → IgnoresSpaces
        → any_error (jobs_issues lib exception int_of crawler_name base jobs) ≡ false
        → has n jobs ≡ true
        → (c : CrawlerJobConfig lib.Cron) × (expected_job lib crawler_name base n (get n jobs)
            ≡ some c)
    unfolding jobs_issues has get
    jobs-expected crawler_name n base end spaces h there = absurd (ground arith)
    jobs-expected crawler_name n base (field m v jobs) spaces h there =
        elim (Bool-cases (str_eq m n)) [
          | inl e ↦
              rw (e, sym ((eq_iff m n).0 e))
                (job-expected crawler_name m base v spaces (no_error_left own _ h))
          | inr e ↦ rw e (
              jobs-expected crawler_name n base jobs spaces (no_error_right own _ h) (ground arith))
        ]
      where
        own : List ValidationIssue
        own = job_issues lib exception int_of crawler_name base m v

    -- If the admin finds no error in the `jobs` of a crawler, then the scheduler has a job for
    -- every entry of them, provided that the cron library ignores spaces around a schedule and the
    -- names are distinct.
    pub accepted_jobs_expand :
        (crawler_name n : String) (config jobs : Fields)
        → IgnoresSpaces
        → get "jobs" config ≡ some (dict jobs)
        → IsUnique jobs
        → any_error (validate_crawler_jobs lib exception int_of crawler_name config (dict jobs))
          ≡ false
        → has n jobs ≡ true
        → (c : CrawlerJobConfig lib.Cron) × (job_named lib n
              (expand_crawler_job_configs lib crawler_name config)
            ≡ some c)
    unfolding expand_crawler_job_configs expand_by validate_crawler_jobs
    accepted_jobs_expand crawler_name n config end spaces e u h there = absurd (none_there n there)
    accepted_jobs_expand crawler_name n config (field m v jobs) spaces e u h there =
        let (c, q) =
          jobs-expected crawler_name n (without "jobs" config) (field m v jobs) spaces h there in
        rw e (
          c,
          expand_jobs-eq-expected lib crawler_name n (without "jobs" config) (field m v jobs) u ∙ q,
        )
