-- ===== src/Scheduler/Expand/Laws.antt =====
-- What `expand_crawler_job_configs` makes of a crawler's configuration.
use open_energy_data_server.Common.{
  String, ◌≡◌, refl, sym, subst, ◌∙◌, false, Option, none, some, List, [], ◌∷◌, ◌++◌, arith, str_eq,
  eq_iff, if◌then◌else◌, inl, inr, Bool-cases, Option-cases, All, All-append,
}
use open_energy_data_server.Yaml.{
  Value, text, dict, Fields, end, field, get, has, put, without, IsUnique,
}
use open_energy_data_server.Yaml.Laws.{get-put, get-without}
use open_energy_data_server.Yaml.Merge.{
  get_crawler_config_with_defaults, overlaid, get-get_crawler_config_with_defaults,
}
use open_energy_data_server.Scheduler.Cron.{CronLib}
use open_energy_data_server.Scheduler.Job.{CrawlerJobConfig, job_id_of}
use open_energy_data_server.Scheduler.Expand.{
  with_job_names, parse_job_schedule, scheduled_config, expand_job, expand_jobs, expand_default,
  expand_by, expand_crawler_job_configs,
}

pub get-with_job_names :
    (k crawler_name job_name : String) (config : Fields)
    → get k (with_job_names crawler_name job_name config) ≡ (
        if str_eq "_scheduler_job_id" k
        then some (text (job_id_of crawler_name job_name))
        else if str_eq "_scheduler_job_name" k
        then some (text job_name)
        else get k config)
unfolding with_job_names
get-with_job_names k crawler_name job_name config = ground (
  arith,
  get-put "_scheduler_job_id" k (text (job_id_of crawler_name job_name))
      (put "_scheduler_job_name" (text job_name) config),
  get-put "_scheduler_job_name" k (text job_name) config,
)

module _ (lib : CronLib) where
  -- A job as the scheduler may use it.
  pub record IsCoherent (crawler_name : String) (c : CrawlerJobConfig lib.Cron) : Type 0 where
    pub crawler : c.crawler_name ≡ crawler_name
    pub named : get "_scheduler_job_name" c.config ≡ some (text c.job_name)
    pub identified :
        get "_scheduler_job_id" c.config ≡ some (text (job_id_of c.crawler_name c.job_name))
    pub parsed : lib.parse (get "schedule" c.config) ≡ some c.schedule

  scheduled-IsCoherent :
      (crawler_name job_name : String) (config : Fields)
      → All (IsCoherent crawler_name) (
          scheduled_config lib crawler_name job_name
            (parse_job_schedule lib (with_job_names crawler_name job_name config)))
  unfolding scheduled_config parse_job_schedule
  scheduled-IsCoherent crawler_name job_name config =
      elim (Option-cases (lib.parse (get "schedule" full))) [
        | inl e ↦
            let none_made : jobs ≡ [] = ground arith in
            subst (All (IsCoherent crawler_name)) (sym none_made) tt
        | inr (c, e) ↦
            let made : jobs ≡ job c ∷ [] = ground arith in
            subst (All (IsCoherent crawler_name)) (sym made) (
              record {
                crawler = refl;
                named = get-with_job_names "_scheduler_job_name" crawler_name job_name config;
                identified = get-with_job_names "_scheduler_job_id" crawler_name job_name config;
                parsed = e;
              },
              tt,
            )
      ]
    where
      full : Fields
      full = with_job_names crawler_name job_name config

      job : lib.Cron → CrawlerJobConfig lib.Cron
      job c = record {
        crawler_name = crawler_name;
        job_name = job_name;
        config = full;
        schedule = c;
      }

      jobs : List (CrawlerJobConfig lib.Cron)
      jobs = scheduled_config lib crawler_name job_name (parse_job_schedule lib full)

  expand_jobs-IsCoherent :
      (crawler_name : String) (base jobs : Fields)
      → All (IsCoherent crawler_name) (expand_jobs lib crawler_name base jobs)
  unfolding expand_jobs expand_job
  expand_jobs-IsCoherent crawler_name base end = tt
  expand_jobs-IsCoherent crawler_name base (field n (dict config) jobs) =
      All-append (IsCoherent crawler_name) _ _
        (scheduled-IsCoherent crawler_name n (get_crawler_config_with_defaults base config))
        (expand_jobs-IsCoherent crawler_name base jobs)
  expand_jobs-IsCoherent crawler_name base (field n _ jobs) =
      expand_jobs-IsCoherent crawler_name base jobs

  -- Every job that a crawler's configuration expands to belongs to the crawler, carries its own name
  -- and id in its configuration, and its schedule is the parse of its configuration's `schedule`.
  pub expand_crawler_job_configs-IsCoherent :
      (crawler_name : String) (config : Fields)
      → All (IsCoherent crawler_name) (expand_crawler_job_configs lib crawler_name config)
  unfolding expand_crawler_job_configs expand_by expand_default
  expand_crawler_job_configs-IsCoherent crawler_name config = by_jobs (get "jobs" config)
    where
      by_jobs :
          (jobs : Option Value)
          → All (IsCoherent crawler_name) (expand_by lib crawler_name config jobs)
      by_jobs (some (dict (field n v rest))) =
          expand_jobs-IsCoherent crawler_name (without "jobs" config) (field n v rest)
      by_jobs _ = scheduled-IsCoherent crawler_name "default" (without "jobs" config)

  -- the job of a name
  unfoldable pub job_named :
      String → List (CrawlerJobConfig lib.Cron) → Option (CrawlerJobConfig lib.Cron)
  job_named n [] = none
  job_named n (c ∷ cs) = if str_eq c.job_name n then some c else job_named n cs

  -- What the entry of a name in `jobs` should give: no job for a missing entry, an entry that is no
  -- mapping or a schedule that does not parse, and else the job with the entry laid over the base.
  unfoldable pub expected_job :
      String → Fields → String → Option Value → Option (CrawlerJobConfig lib.Cron)
  expected_job crawler_name base n (some (dict config)) =
      let full = with_job_names crawler_name n (get_crawler_config_with_defaults base config) in
      elim (lib.parse (get "schedule" full)) [
        | none ↦ none
        | some schedule ↦ some (record {
          crawler_name = crawler_name;
          job_name = n;
          config = full;
          schedule = schedule;
        })
      ]
  expected_job crawler_name base n _ = none

  job_named-append :
      (n : String) (xs ys : List (CrawlerJobConfig lib.Cron))
      → job_named n xs ≡ none
      → job_named n (xs ++ ys) ≡ job_named n ys
  unfolding job_named
  job_named-append n [] ys e = refl
  job_named-append n (x ∷ xs) ys e = ground (arith, job_named-append n xs ys)

  job_named-hit :
      (n : String) (xs ys : List (CrawlerJobConfig lib.Cron)) (c : CrawlerJobConfig lib.Cron)
      → job_named n xs ≡ some c
      → job_named n (xs ++ ys) ≡ some c
  unfolding job_named
  job_named-hit n [] ys c e = cc
  job_named-hit n (x ∷ xs) ys c e = ground (arith, job_named-hit n xs ys c)

  job_named-other :
      (crawler_name n m : String) (base : Fields) (v : Value)
      → str_eq m n ≡ false
      → job_named n (expand_job lib crawler_name base m v) ≡ none
  unfolding job_named expand_job
  job_named-other crawler_name n m base (dict config) e = ground arith
  job_named-other crawler_name n m base _ e = refl

  job_named-own :
      (crawler_name n : String) (base : Fields) (v : Value)
      → job_named n (expand_job lib crawler_name base n v)
        ≡ expected_job crawler_name base n (some v)
  unfolding job_named expand_job expected_job
  job_named-own crawler_name n base (dict config) = ground (arith, eq_iff n n)
  job_named-own crawler_name n base _ = refl

  expand_jobs_missing :
      (crawler_name n : String) (base jobs : Fields)
      → has n jobs ≡ false
      → job_named n (expand_jobs lib crawler_name base jobs) ≡ none
  unfolding expand_jobs job_named has
  expand_jobs_missing crawler_name n base end e = refl
  expand_jobs_missing crawler_name n base (field m v jobs) e =
      job_named-append n (expand_job lib crawler_name base m v)
        (expand_jobs lib crawler_name base jobs)
        (job_named-other crawler_name n m base v (ground arith))
      ∙ expand_jobs_missing crawler_name n base jobs (ground arith)

  -- For every name, the expansion of a `jobs` mapping holds the job that the name's entry should
  -- give, and none where the entry gives none.
  pub expand_jobs-eq-expected :
      (crawler_name n : String) (base jobs : Fields)
      → IsUnique jobs
      → job_named n (expand_jobs lib crawler_name base jobs)
        ≡ expected_job crawler_name base n (get n jobs)
  unfolding expand_jobs job_named get expected_job
  expand_jobs-eq-expected crawler_name n base end u = refl
  expand_jobs-eq-expected crawler_name n base (field m v jobs) u = elim (Bool-cases (str_eq m n)) [
    | inl e ↦ rw e (hit ((eq_iff m n).0 e))
    | inr e ↦ rw e (
        job_named-append n (expand_job lib crawler_name base m v)
          (expand_jobs lib crawler_name base jobs) (job_named-other crawler_name n m base v e)
        ∙ expand_jobs-eq-expected crawler_name n base jobs u.1)
  ]
    where
      rest : List (CrawlerJobConfig lib.Cron)
      rest = expand_jobs lib crawler_name base jobs

      own :
          job_named m (expand_job lib crawler_name base m v ++ rest)
          ≡ expected_job crawler_name base m (some v)
      own = elim (Option-cases (job_named m (expand_job lib crawler_name base m v))) [
        | inl e ↦
            job_named-append m (expand_job lib crawler_name base m v) rest e
            ∙ expand_jobs_missing crawler_name m base jobs u.0
            ∙ sym e
            ∙ job_named-own crawler_name m base v
        | inr (c, e) ↦
            job_named-hit m (expand_job lib crawler_name base m v) rest c e
            ∙ sym e
            ∙ job_named-own crawler_name m base v
      ]

      hit :
          m ≡ n
          → job_named n (expand_job lib crawler_name base m v ++ rest)
            ≡ expected_job crawler_name base n (some v)
      hit p =
          subst
            (λ z.
              job_named z (expand_job lib crawler_name base m v ++ rest)
              ≡ expected_job crawler_name base z (some v))
            p own

  -- In a named job every key but the two that the scheduler sets holds the job's own value, laid
  -- over the crawler's, and the crawler's `jobs` is no default of it.
  pub get-expected_job :
      (crawler_name n k : String) (config job : Fields) (c : CrawlerJobConfig lib.Cron)
      → IsUnique job
      → expected_job crawler_name (without "jobs" config) n (some (dict job)) ≡ some c
      → str_eq "_scheduler_job_id" k ≡ false
      → str_eq "_scheduler_job_name" k ≡ false
      → get k c.config ≡ overlaid (if str_eq "jobs" k then none else get k config) (get k job)
  unfolding expected_job
  get-expected_job crawler_name n k config job c u e ne_id ne_name =
      elim (Option-cases (lib.parse (get "schedule" full))) [
        | inl f ↦ absurd (ground arith)
        | inr (s, f) ↦
            let held : c.config ≡ full = ground arith in
            rw held (
              get-with_job_names k crawler_name n merged
              ∙ rw (ne_id, ne_name)
                  (get-get_crawler_config_with_defaults k (without "jobs" config) job u
                    ∙ rw (get-without "jobs" k config)))
      ]
    where
      merged : Fields
      merged = get_crawler_config_with_defaults (without "jobs" config) job

      full : Fields
      full = with_job_names crawler_name n merged
