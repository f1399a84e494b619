-- ===== src/Rotation/Rotator/Laws.antt =====
-- What a rotation and its rollback leave, however their commands turn out.
use open_energy_data_server.Common.{ℕ, String, ◌≡◌, refl, true}
use open_energy_data_server.Common.Dict
use open_energy_data_server.Common.Dict.{Dict}
use open_energy_data_server.Rotation.EnvFile.{Passwords, render_env_file, updates_of}
use open_energy_data_server.Rotation.World.{
  World, Outcome, counted, ◌>>◌, run_command, retry, set_opendata, set_readonly, set_grafana,
  set_pgadmin, set_env_file, set_started_with, set_wallet,
}
use open_energy_data_server.Rotation.Hoare.{
  Keeps, Gives, seq-Keeps, seq-Gives, ignoring-Keeps, gives_by_keeping, IgnoresCount, command-Keeps,
  command-Gives, retry-Keeps,
}
use open_energy_data_server.Rotation.Rotator.{
  reads_only, rotate_database_passwords, rotate_grafana_password, rotate_pgadmin_password,
  write_compose_env, restart_dependent_services, verify, upsert_login_item, write_bitwarden_items,
  rollback, rotate, close,
}

-- Every service has the given password, and the environment file, which the services were started
-- with, has the given text.
pub record HasPasswords (p : Passwords) (lines : String) (w : World) : Type 0 where
  pub opendata : w.opendata ≡ p.db
  pub readonly : w.readonly ≡ p.readonly
  pub grafana : w.grafana ≡ p.grafana_admin
  pub pgadmin : w.pgadmin ≡ p.pgadmin_default
  pub env_file : w.env_file ≡ lines
  pub started_with : w.started_with ≡ lines

module _ (outcome : ℕ → Outcome) (P : World → Type 0) (count : IgnoresCount P) where
  reading-Keeps : Keeps P (run_command outcome reads_only)
  reading-Keeps = command-Keeps outcome P reads_only count (λ w h. h)

  pub verify-Keeps : Keeps P (verify outcome)
  unfolding verify
  verify-Keeps =
      seq-Keeps P _ _ (seq-Keeps P _ _ (seq-Keeps P _ _ (seq-Keeps P _ _ once once) once) once)
        (retry-Keeps outcome P 20 _ (seq-Keeps P _ _ reading-Keeps reading-Keeps))
    where
      once : Keeps P (retry outcome 20 (run_command outcome reads_only))
      once = retry-Keeps outcome P 20 (run_command outcome reads_only) reading-Keeps

  pub close-Keeps :
      (d : String) (lines : String) (old new : Passwords) → Keeps P (close outcome d lines old new)
  unfolding close
  close-Keeps d lines old new =
      seq-Keeps P _ _ (ignoring-Keeps P _ reading-Keeps) (ignoring-Keeps P _ reading-Keeps)

  module _ (wallet : (v : Dict String) (w : World) → P w → P (set_wallet v w)) where
    upsert-Keeps : (n p : String) → Keeps P (upsert_login_item outcome n p)
    unfolding upsert_login_item
    upsert-Keeps n p =
        command-Keeps outcome P (λ w. set_wallet (Dict.put n p w.wallet) w) count
          (λ w h. wallet (Dict.put n p w.wallet) w h)

    pub items-Keeps : (d : String) (p : Passwords) → Keeps P (write_bitwarden_items outcome d p)
    unfolding write_bitwarden_items
    items-Keeps d p =
        seq-Keeps P _ _
          (seq-Keeps P _ _
            (seq-Keeps P _ _ (seq-Keeps P _ _ reading-Keeps (upsert-Keeps _ _)) (upsert-Keeps _ _))
            (upsert-Keeps _ _))
          (upsert-Keeps _ _)

module _ (outcome : ℕ → Outcome) (p : Passwords) (lines : String) where
  abbrev Anything : World → Type 0
  Anything w = Unit {0}

  abbrev Roles : World → Type 0
  Roles w = (w.opendata ≡ p.db) × (w.readonly ≡ p.readonly)

  abbrev Logins : World → Type 0
  Logins w =
      (w.opendata ≡ p.db)
      × (w.readonly ≡ p.readonly)
      × (w.grafana ≡ p.grafana_admin)
      × (w.pgadmin ≡ p.pgadmin_default)

  abbrev Written : World → Type 0
  Written w =
      (w.opendata ≡ p.db)
      × (w.readonly ≡ p.readonly)
      × (w.grafana ≡ p.grafana_admin)
      × (w.pgadmin ≡ p.pgadmin_default)
      × (w.env_file ≡ lines)

  database_rotated : Gives Anything (rotate_database_passwords outcome p) Roles
  unfolding rotate_database_passwords counted
  database_rotated =
      seq-Gives Anything (λ w. w.opendata ≡ p.db) Roles _ _
        (command-Gives outcome Anything (λ w. w.opendata ≡ p.db) (set_opendata p.db) (λ w h. tt)
          (λ w h. refl))
        (command-Gives outcome (λ w. w.opendata ≡ p.db) Roles (set_readonly p.readonly) (λ w h. h)
          (λ w h. (h, refl)))

  -- the five steps that a rotation and a rollback have in common
  pub files_given :
      Gives Anything
        (rotate_database_passwords outcome p
          >> rotate_grafana_password outcome p.grafana_admin
          >> rotate_pgadmin_password outcome p.pgadmin_default
          >> write_compose_env outcome lines)
        Written
  unfolding rotate_grafana_password rotate_pgadmin_password write_compose_env counted
  files_given =
      seq-Gives Anything Logins Written _ _
        (seq-Gives Anything Grafana Logins _ _
          (seq-Gives Anything Roles Grafana _ _ database_rotated (
            command-Gives outcome Roles Grafana (set_grafana p.grafana_admin) (λ w h. h)
              (λ w h. (h.0, h.1, refl))))
          (command-Gives outcome Grafana Logins (set_pgadmin p.pgadmin_default) (λ w h. h)
            (λ w h. (h.0, h.1, h.2, refl))))
        (command-Gives outcome Logins Written (set_env_file lines) (λ w h. h)
          (λ w h. (h.0, h.1, h.2, h.3, refl)))
    where
      Grafana : World → Type 0
      Grafana w = (w.opendata ≡ p.db) × (w.readonly ≡ p.readonly) × (w.grafana ≡ p.grafana_admin)

  pub restart-Gives : Gives Written (restart_dependent_services outcome) (HasPasswords p lines)
  unfolding restart_dependent_services counted
  restart-Gives =
      command-Gives outcome Written (HasPasswords p lines) (λ w. set_started_with w.env_file w)
        (λ w h. h)
        (λ w h. record {
          opendata = h.0;
          readonly = h.1;
          grafana = h.2;
          pgadmin = h.3;
          env_file = h.4;
          started_with = h.4;
        })

  HasPasswords-count : IgnoresCount (HasPasswords p lines)
  unfolding counted
  HasPasswords-count w h = record {
    opendata = h.opendata;
    readonly = h.readonly;
    grafana = h.grafana;
    pgadmin = h.pgadmin;
    env_file = h.env_file;
    started_with = h.started_with;
  }

  HasPasswords-wallet :
      (v : Dict String) (w : World) → HasPasswords p lines w → HasPasswords p lines (set_wallet v w)
  HasPasswords-wallet v w h = record {
    opendata = h.opendata;
    readonly = h.readonly;
    grafana = h.grafana;
    pgadmin = h.pgadmin;
    env_file = h.env_file;
    started_with = h.started_with;
  }

-- The changes that a rotation to the passwords and text makes keep the predicate.
pub record Allows (P : World → Type 0) (p : Passwords) (lines : String) : Type 0 where
  pub count : (w : World) → P w → P (counted w)
  pub opendata : (w : World) → P w → P (set_opendata p.db w)
  pub readonly : (w : World) → P w → P (set_readonly p.readonly w)
  pub grafana : (w : World) → P w → P (set_grafana p.grafana_admin w)
  pub pgadmin : (w : World) → P w → P (set_pgadmin p.pgadmin_default w)
  pub env_file : (w : World) → P w → P (set_env_file lines w)
  pub started_with : (w : World) → P w → P (set_started_with w.env_file w)
  pub wallet : (v : Dict String) (w : World) → P w → P (set_wallet v w)

module _ (outcome : ℕ → Outcome) (P : World → Type 0) (p : Passwords) (lines : String) where
  written-Keeps :
      Allows P p lines
      → Keeps P (
          rotate_database_passwords outcome p
          >> rotate_grafana_password outcome p.grafana_admin
          >> rotate_pgadmin_password outcome p.pgadmin_default
          >> write_compose_env outcome lines)
  unfolding rotate_database_passwords rotate_grafana_password rotate_pgadmin_password
      write_compose_env
  written-Keeps allows =
      seq-Keeps P _ _
        (seq-Keeps P _ _
          (seq-Keeps P _ _
            (seq-Keeps P _ _
              (command-Keeps outcome P (set_opendata p.db) allows.count allows.opendata)
              (command-Keeps outcome P (set_readonly p.readonly) allows.count allows.readonly))
            (command-Keeps outcome P (set_grafana p.grafana_admin) allows.count allows.grafana))
          (command-Keeps outcome P (set_pgadmin p.pgadmin_default) allows.count allows.pgadmin))
        (command-Keeps outcome P (set_env_file lines) allows.count allows.env_file)

  restart-Keeps : Allows P p lines → Keeps P (restart_dependent_services outcome)
  unfolding restart_dependent_services
  restart-Keeps allows =
      command-Keeps outcome P (λ w. set_started_with w.env_file w) allows.count allows.started_with

module _ (outcome : ℕ → Outcome) (d : String) (lines : String) (old new : Passwords) where
  abbrev new_lines : String
  new_lines = render_env_file lines (updates_of new)

  pub rollback-Keeps :
      (P : World → Type 0) → Allows P old lines → Keeps P (rollback outcome d lines old new)
  unfolding rollback
  rollback-Keeps P allows =
      seq-Keeps P _ _
        (seq-Keeps P _ _ (written-Keeps outcome P old lines allows)
          (restart-Keeps outcome P old lines allows))
        (ignoring-Keeps P _ (items-Keeps outcome P allows.count allows.wallet d old))

  pub rotate-Keeps :
      (P : World → Type 0) → Allows P new new_lines → Keeps P (rotate outcome d lines old new)
  unfolding rotate
  rotate-Keeps P allows =
      seq-Keeps P _ _
        (seq-Keeps P _ _
          (seq-Keeps P _ _
            (seq-Keeps P _ _ (written-Keeps outcome P new new_lines allows)
              (command-Keeps outcome P reads_only allows.count (λ w h. h)))
            (restart-Keeps outcome P new new_lines allows))
          (verify-Keeps outcome P allows.count))
        (items-Keeps outcome P allows.count allows.wallet d new)

  -- A rollback that does not raise puts every service back to its old password and the environment
  -- file back to its old text, with which the services are started, whatever state the rotation was
  -- left in.
  pub rollback_restores :
      (w : World)
      → (rollback outcome d lines old new w).0 ≡ true
      → HasPasswords old lines (rollback outcome d lines old new w).1
  unfolding rollback
  rollback_restores w ok =
      (seq-Gives (Anything outcome old lines) (HasPasswords old lines) (HasPasswords old lines) _ _
          (seq-Gives (Anything outcome old lines) (Written outcome old lines)
            (HasPasswords old lines) _ _ (files_given outcome old lines)
            (restart-Gives outcome old lines))
          (gives_by_keeping (HasPasswords old lines) _ (
            ignoring-Keeps (HasPasswords old lines) _ (
              items-Keeps outcome (HasPasswords old lines) (HasPasswords-count outcome old lines)
                (HasPasswords-wallet outcome old lines) d old)))).after
        w tt ok

  pub rotate-Gives :
      Gives
        (Anything outcome new new_lines)
        (rotate outcome d lines old new)
        (HasPasswords new new_lines)
  unfolding rotate
  rotate-Gives =
      seq-Gives any set set _ _
        (seq-Gives any set set _ _
          (seq-Gives any written set _ _
            (seq-Gives any written written _ _ (files_given outcome new new_lines) (
              gives_by_keeping written _
                (command-Keeps outcome written reads_only (λ w h. h) (λ w h. h))))
            (restart-Gives outcome new new_lines))
          (gives_by_keeping set _
            (verify-Keeps outcome set (HasPasswords-count outcome new new_lines))))
        (gives_by_keeping set _ (
          items-Keeps outcome set (HasPasswords-count outcome new new_lines)
            (HasPasswords-wallet outcome new new_lines) d new))
    where
      any : World → Type 0
      any = Anything outcome new new_lines

      written : World → Type 0
      written = Written outcome new new_lines

      set : World → Type 0
      set = HasPasswords new new_lines
