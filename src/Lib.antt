-- ===== src/Lib.antt =====
-- Verification of the open energy data server, a Python program that runs crawlers of energy data by
-- a schedule, fills the gaps of the stored time series, and keeps the configuration and the passwords
-- of a deployment.
--
-- The parts, and how they interact:
-- - crawler_scheduler.py reads CRAWLER_CONFIG.yml (`load_config`), expands each crawler's section to
--   jobs (`expand_crawler_job_configs`), and gives them to a `SchedulerThread`. In each round the
--   thread puts the jobs that are due into its `CrawlerJobQueue`, which hands out those whose lock
--   keys are free; every job runs in a thread of its own and reports to the queue when it is over.
-- - crawler_admin/config_service.py checks the same file before it is saved.
-- - crawler/common/local_env.py and crawler/common/base_crawler.py set up the e-mail of the log.
-- - scripts/lib/gapfiller fills gaps: core.py finds the gaps of a series and a donor for each, db.py
--   runs this over the changed part of each table.
-- - crawler_admin/runtime_service.py lets an admin start an action of a crawler: it checks the form
--   (`prepare_action`), locks the crawler, records the run in a table, and carries it out in a thread
--   of its own, which records how it ended and frees the crawler.
-- - crawler/entsoe_fms.py reads the files of the ENTSO-E file library and writes their rows into
--   tables; the scheduler runs it, and the run service also starts its backfill.
-- - oeds_ops/password_rotation.py replaces the passwords of a deployment, and rolls back.
--
-- The files:
-- - Common and its children: Boolean tests, lists, and Python's sets, dictionaries and texts as far as
--   the program uses them. Yaml: the values of a YAML document, and the merge of a mapping over its
--   defaults, which `get_crawler_config_with_defaults` and `merge_with_defaults` share; its child
--   Merge.Overlay describes the result without them.
-- - Scheduler.Job: `CrawlerJobConfig` and `ScheduledCrawlerJob`. Scheduler.Cron: the package
--   cron_converter as an interface. Scheduler.Expand, Scheduler.Load: `expand_crawler_job_configs`,
--   `load_config`, `get_scheduled_jobs`, `get_job_lock_keys`. Scheduler.Queue: `CrawlerJobQueue`; its
--   child Spec is what the queue promises, and the others hold the proofs. Scheduler.Loop:
--   `SchedulerThread`, with its rounds and its replacement by `main`. Scheduler.JobThread: `start_crawler_job_thread`.
-- - Settings.EmailEnv, Settings.Recipients, Settings.RateLimit, Settings.LogFiles:
--   `apply_email_env_overrides`, `_email_recipients`, `RateLimitedSMTPHandler`,
--   `cleanup_expired_log_files`.
-- - Admin.Issues, Admin.Preview, Admin.Jobs, Admin.Validate: `ValidationIssue`, `build_cron_preview`,
--   `_validate_crawler_jobs`, `validate_config_text`. Admin.Jobs.Agreement compares the check of the
--   jobs with their expansion by the scheduler.
-- - Runtime.Rows: the table `crawler_runs` and its statements. Runtime.DataItems, Runtime.Forms,
--   Runtime.Definitions: the data items, the forms and the actions that a crawler offers.
--   Runtime.Inputs, Runtime.Locations, Runtime.Prepared, Runtime.Prepare: the readers of form values,
--   the weather locations, the parts of a prepared action and `prepare_action`. Runtime.Action: the
--   executors and the body of `_execute_run`. Runtime.Service: the state of `CrawlerRunService` and
--   its steps; its children Invariant, Beginning, Ending and Reach hold the proofs. Runtime.Start:
--   `start_action`.
-- - Fms.Items, Fms.Frame, Fms.Table, Fms.Files, Fms.Download, Fms.Backfill: `EntsoeFMSCrawler`,
--   from its lists of items over `_deduplicate_on_unique_keys` and `_split_incremental_chunk`, `_upsert_dataframe` and
--   `_insert_dataframe`, to `_download_files_and_write_into_database` and `backwards_update`.
-- - Gapfill.Ranges: `_missing_ranges`, `_eligible_missing_mask`. Gapfill.Donor:
--   `_donor_start_candidates`, `_best_donor_candidate`, `_donor_match_candidate`. Gapfill.Script:
--   the tables on the command line of scripts/gapfill_timeseries.py. Gapfill.Select: `select_tables`;
--   its child Laws joins the two to `prepare_action`. Gapfill.Tables, Gapfill.Window, Gapfill.Db,
--   Gapfill.Job: the records, `get_processing_window`, `replace_target_window`, `process_table`,
--   `run_gapfill_job`.
-- - Rotation.EnvFile: `load_env_file`, `render_env_file`; its children RoundTrip and Written read back
--   the lines and the text. Rotation.World: what a rotation acts on, and its commands.
--   Rotation.Hoare: what a step keeps and gives. Rotation.Rotator: `PasswordRotator`.
-- - The modules named Tests, ConfigTests, DbTests, DonorTests and SelectTests run the code on concrete inputs.
--
-- State is passed explicitly. A method of the queue runs under the queue's lock, so that it is one
-- step. What raises returns none or a flag. Times are natural numbers, of microseconds in the
-- scheduler, of seconds in the run service and of nanoseconds in the gap filler, since an origin before every time that occurs.
-- Recursion is structural everywhere but in `decimal`, where the fuel is the successor of the number,
-- which has fewer digits than that, in the loops over batches, where it is the number of rows, and in
-- the loop over periods, where it is more than the distance of the two ends. Numbers do not overflow, as in Python.
--
-- Not modelled: the crawlers other than that of the file library, log output, signals and the file watcher, the web
-- application, floating point (the score of a donor and the refinement of its segment are arguments)
-- and the text of SQL statements, of which the rows that they select, delete and insert are modelled.
-- The YAML parser, cron_converter, the import of a module, the commands of a rotation and the database
-- are arguments.
pub mod Common
pub mod Yaml
pub mod Settings
pub mod Scheduler
pub mod Gapfill
pub mod Fms
pub mod Admin
pub mod Rotation
pub mod Runtime
