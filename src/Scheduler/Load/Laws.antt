-- ===== src/Scheduler/Load/Laws.antt =====
-- What `load_config` returns, section by section, and which jobs `get_scheduled_jobs` schedules.
use open_energy_data_server.Common.{
  ℕ, String, ◌≡◌, ◌≤◌, ◌≢◌, refl, subst, ◌∙◌, true, Option, none, some, List, [], ◌∷◌, ◌++◌, arith,
  str_eq, eq_iff, if◌then◌else◌, inl, inr, Bool-cases, Option-cases, All, All-append,
}
use open_energy_data_server.Yaml.{
  Value, null, bool, dict, Fields, end, field, get, without, IsUnique,
}
use open_energy_data_server.Yaml.Laws.{get-put, get-without, get_missing, without-IsUnique}
use open_energy_data_server.Yaml.Merge.{
  get_crawler_config_with_defaults, overlaid, get-get_crawler_config_with_defaults,
}
use open_energy_data_server.Scheduler.Cron.{CronLib}
use open_energy_data_server.Scheduler.Job.{
  CrawlerClass, CrawlerJobConfig, ScheduledCrawlerJob, job_id_of, enabled, is_true,
}
use open_energy_data_server.Scheduler.Expand.{expand_crawler_job_configs, get_job_lock_keys}
use open_energy_data_server.Scheduler.Expand.Laws.{
  IsCoherent, expand_crawler_job_configs-IsCoherent,
}
use open_energy_data_server.Scheduler.Load.{
  default_section, with_own_jobs, merged_crawler, load_section, load_sections, merge_config,
  schedule_job, schedule_enabled, schedule_crawler, schedule_available, get_scheduled_jobs,
}

-- A crawler's effective value of a key: its own, laid over the default, but of `jobs` its own alone
-- where it has any.
abbrev pub effective : Fields → Fields → String → Option Value
effective default_config crawler_config k =
    if str_eq "jobs" k
    then own_or (get "jobs" crawler_config)
    else overlaid (get k default_config) (get k crawler_config)
  where
    own_or : Option Value → Option Value
    own_or none = get "jobs" default_config
    own_or (some jobs) = some jobs

get-merged_crawler :
    (k : String) (default_config crawler_config : Fields)
    → IsUnique crawler_config
    → get k (merged_crawler default_config crawler_config)
      ≡ effective default_config crawler_config k
unfolding merged_crawler with_own_jobs
get-merged_crawler k default_config crawler_config u =
    elim (Option-cases (get "jobs" crawler_config)) [
      | inl e ↦ ground (arith, e, eq_iff "jobs" k, merged, get-without "jobs" k crawler_config)
      | inr (jobs, e) ↦ ground (
        arith,
        e,
        eq_iff "jobs" k,
        merged,
        get-without "jobs" k crawler_config,
        get-put "jobs" k jobs
            (get_crawler_config_with_defaults default_config (without "jobs" crawler_config)),
      )
    ]
  where
    merged :
        get k (get_crawler_config_with_defaults default_config (without "jobs" crawler_config))
        ≡ overlaid (get k default_config) (get k (without "jobs" crawler_config))
    merged =
        get-get_crawler_config_with_defaults k default_config (without "jobs" crawler_config)
          (without-IsUnique "jobs" crawler_config u)

-- the section that `load_config` keeps for a name, if it keeps one
abbrev pub kept_section : Fields → String → Option Value → Option Value
kept_section default_config name (some (dict crawler_config)) =
    if str_eq "default" name
    then none
    else some (dict (merged_crawler default_config crawler_config))
kept_section default_config name _ = none

abbrev pub or_kept : Option Value → Option Value → Option Value
or_kept (some v) old = some v
or_kept none old = old

get-load_sections :
    (k : String) (default_config config merged : Fields)
    → IsUnique config
    → get k (load_sections default_config config merged)
      ≡ or_kept (kept_section default_config k (get k config)) (get k merged)
unfolding load_sections load_section get
get-load_sections k default_config end merged u = refl
get-load_sections k default_config (field n (dict c) config) merged u =
    get-load_sections k default_config config _ u.1
    ∙ ground (
      arith,
      eq_iff n k,
      eq_iff "default" k,
      eq_iff n "default",
      get_missing n config u.0,
      get-put n k (dict (merged_crawler default_config c)) merged,
    )
get-load_sections k default_config (field n _ config) merged u =
    get-load_sections k default_config config merged u.1
    ∙ ground (arith, eq_iff n k, get_missing n config u.0)

-- Of every crawler section `load_config` keeps exactly those that are mappings, and each of their
-- keys holds its effective value over the section `default`.
pub get-merge_config :
    (name k : String) (config crawler_config : Fields)
    → IsUnique config
    → IsUnique crawler_config
    → name ≢ "default"
    → get name config ≡ some (dict crawler_config)
    → (section : Fields) × (get name (merge_config config) ≡ some (dict section))
      × (get k section ≡ effective (default_section (get "default" config)) crawler_config k)
unfolding merge_config get
get-merge_config name k config crawler_config u v ne e = (
  merged_crawler (default_section (get "default" config)) crawler_config,
  get-load_sections name (default_section (get "default" config)) config _ u
      ∙ ground (arith, e, eq_iff "default" name),
  get-merged_crawler k (default_section (get "default" config)) crawler_config v,
)

-- `load_config` drops a crawler section that is no mapping.
pub merge_config_drops :
    (name : String) (config : Fields)
    → IsUnique config
    → name ≢ "default"
    → ((crawler_config : Fields) → get name config ≢ some (dict crawler_config))
    → get name (merge_config config) ≡ none
unfolding merge_config get
merge_config_drops name config u ne not_dict =
    get-load_sections name (default_section (get "default" config)) config _ u
    ∙ by_value (get name config) not_dict
  where
    by_value :
        (o : Option Value)
        → ((crawler_config : Fields) → o ≢ some (dict crawler_config))
        → or_kept
            (kept_section (default_section (get "default" config)) name o)
            (get name (field "default" (dict (default_section (get "default" config))) end))
          ≡ none
    by_value (some (dict c)) h = absurd (h c refl)
    by_value (some null) h = ground (arith, eq_iff "default" name)
    by_value _ h = ground (arith, eq_iff "default" name)

module _ (lib : CronLib) (now : String → ℕ) where
  -- A job that the scheduler may run.
  pub record IsScheduled (j : ScheduledCrawlerJob lib.Cron) : Type 0 where
    pub on : get "enable" j.config ≡ some (bool true)
    pub parsed : lib.parse (get "schedule" j.config) ≡ some j.schedule
    pub ahead : now (job_id_of j.crawler_name j.job_name) ≤ j.next_run_time
    pub locked : get_job_lock_keys j.crawler_name j.config (some j.crawler_class) ≡ some j.lock_keys

  enabled_iff :
      (c : CrawlerJobConfig lib.Cron) → enabled c ≡ true → get "enable" c.config ≡ some (bool true)
  unfolding enabled
  enabled_iff c h = is_true_some (get "enable" c.config) h
    where
      is_true_some : (o : Option Value) → is_true o ≡ true → o ≡ some (bool true)
      is_true_some (some (bool b)) e = ground arith
      is_true_some none e = absurd (ground arith)
      is_true_some _ e = absurd (ground arith)

  schedule_enabled-IsScheduled :
      (name : String) (crawler_class : CrawlerClass) (configs : List (CrawlerJobConfig lib.Cron))
      (jobs : List (ScheduledCrawlerJob lib.Cron))
      → All (IsCoherent lib name) configs
      → schedule_enabled lib now crawler_class configs ≡ some jobs
      → All IsScheduled jobs
  unfolding schedule_enabled
  schedule_enabled-IsScheduled name crawler_class [] jobs h e =
      let same : [] ≡ jobs = ground arith in subst (All IsScheduled) same tt
  schedule_enabled-IsScheduled name crawler_class (c ∷ configs) jobs h e =
      elim (Bool-cases (enabled c)) [
        | inl on ↦
            elim (Option-cases (get_job_lock_keys c.crawler_name c.config (some crawler_class))) [
              | inl f ↦ absurd (ground arith)
              | inr (keys, f) ↦
                  elim (Option-cases (schedule_enabled lib now crawler_class configs)) [
                    | inl g ↦ absurd (ground arith)
                    | inr (rest, g) ↦
                        let same : schedule_job lib now crawler_class c keys ∷ rest ≡ jobs =
                          ground arith in
                        subst (All IsScheduled) same (
                          job-IsScheduled keys on f,
                          schedule_enabled-IsScheduled name crawler_class configs rest h.1 g,
                        )
                  ]
            ]
        | inr off ↦ schedule_enabled-IsScheduled name crawler_class configs jobs h.1 (ground arith)
      ]
    where
      job-IsScheduled :
          (keys : List String)
          → enabled c ≡ true
          → get_job_lock_keys c.crawler_name c.config (some crawler_class) ≡ some keys
          → IsScheduled (schedule_job lib now crawler_class c keys)
      job-IsScheduled keys on f = record {
        on = enabled_iff c on;
        parsed = h.0.parsed;
        ahead = lib.next_from c.schedule (now (job_id_of c.crawler_name c.job_name));
        locked = f;
      }

  schedule_available-IsScheduled :
      (load_class : String → Option CrawlerClass) (config : Fields) (name : String)
      (jobs : List (ScheduledCrawlerJob lib.Cron))
      → schedule_available lib now load_class config name ≡ some jobs
      → All IsScheduled jobs
  unfolding schedule_available schedule_crawler
  schedule_available-IsScheduled load_class config name jobs e =
      elim (Option-cases (get name config)) [
        | inl f ↦ let same : [] ≡ jobs = ground arith in subst (All IsScheduled) same tt
        | inr (section, f) ↦ elim (Option-cases (load_class name)) [
          | inl g ↦ let same : [] ≡ jobs = ground arith in subst (All IsScheduled) same tt
          | inr (crawler_class, g) ↦ by_section section crawler_class (ground arith)
        ]
      ]
    where
      by_section :
          (section : Value) (crawler_class : CrawlerClass)
          → schedule_crawler lib now name crawler_class section ≡ some jobs
          → All IsScheduled jobs
      by_section (dict fields) crawler_class f =
          schedule_enabled-IsScheduled name crawler_class
            (expand_crawler_job_configs lib name fields) jobs
            (expand_crawler_job_configs-IsCoherent lib name fields) f
      by_section null crawler_class f = absurd (ground arith)
      by_section _ crawler_class f = absurd (ground arith)

  -- Every job that `get_scheduled_jobs` schedules is enabled, has the schedule of its configuration,
  -- the lock keys of its crawler, and a first run that is not before the time of its creation.
  pub get_scheduled_jobs-IsScheduled :
      (load_class : String → Option CrawlerClass) (config : Fields) (available : List String)
      (jobs : List (ScheduledCrawlerJob lib.Cron))
      → get_scheduled_jobs lib now load_class config available ≡ some jobs
      → All IsScheduled jobs
  unfolding get_scheduled_jobs
  get_scheduled_jobs-IsScheduled load_class config [] jobs e =
      let same : [] ≡ jobs = ground arith in subst (All IsScheduled) same tt
  get_scheduled_jobs-IsScheduled load_class config (name ∷ available) jobs e =
      elim (Option-cases (schedule_available lib now load_class config name)) [
        | inl f ↦ absurd (ground arith)
        | inr (own, f) ↦
            elim (Option-cases (get_scheduled_jobs lib now load_class config available)) [
              | inl g ↦ absurd (ground arith)
              | inr (rest, g) ↦
                  let same : own ++ rest ≡ jobs = ground arith in
                  subst (All IsScheduled) same (
                    All-append IsScheduled own rest
                      (schedule_available-IsScheduled load_class config name own f)
                      (get_scheduled_jobs-IsScheduled load_class config available rest g))
            ]
      ]
