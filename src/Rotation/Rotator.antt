-- ===== src/Rotation/Rotator.antt =====
-- `PasswordRotator` of oeds_ops/password_rotation.py. The old and the new passwords, the text of the
-- environment file at the start and the name of the deployment are arguments; the stack and the
-- wallet are reached by commands. What a verification reads is part of its command's outcome.
pub mod Laws
pub mod Run
pub mod Failure
use open_energy_data_server.Common.{
  ℕ, String, Bool, true, false, Option, none, some, List, [], ◌∷◌, if◌then◌else◌,
}
use open_energy_data_server.Common.Text.{◌<>◌}
use open_energy_data_server.Common.Dict
use open_energy_data_server.Rotation.EnvFile.{Passwords, render_env_file, updates_of}
use open_energy_data_server.Rotation.World.{
  World, Step, Outcome, set_opendata, set_readonly, set_grafana, set_pgadmin, set_env_file,
  set_started_with, set_wallet, set_pending, set_backup, ◌>>◌, ignoring, run_command, retry,
}

abbrev pub reads_only : World → World
reads_only w = w

module _ (outcome : ℕ → Outcome) where
  unfoldable pub rotate_database_passwords : Passwords → Step
  unfolding ◌>>◌ run_command
  rotate_database_passwords passwords =
      run_command outcome (λ w. set_opendata passwords.db w)
      >> run_command outcome (λ w. set_readonly passwords.readonly w)

  unfoldable pub rotate_grafana_password : String → Step
  unfolding run_command
  rotate_grafana_password password = run_command outcome (λ w. set_grafana password w)

  unfoldable pub rotate_pgadmin_password : String → Step
  unfolding run_command
  rotate_pgadmin_password password = run_command outcome (λ w. set_pgadmin password w)

  -- `write_secure_text` to the environment file: the file is replaced or left as it is
  unfoldable pub write_compose_env : String → Step
  unfolding run_command
  write_compose_env lines = run_command outcome (λ w. set_env_file lines w)

  -- `docker compose up` starts the services with what the environment file holds
  unfoldable pub restart_dependent_services : Step
  unfolding run_command
  restart_dependent_services = run_command outcome (λ w. set_started_with w.env_file w)

  -- five checks with 20 attempts each; the last one is two commands
  unfoldable pub verify : Step
  unfolding ◌>>◌ run_command retry
  verify =
      retry outcome 20 (run_command outcome reads_only)
      >> retry outcome 20 (run_command outcome reads_only)
      >> retry outcome 20 (run_command outcome reads_only)
      >> retry outcome 20 (run_command outcome reads_only)
      >> retry outcome 20 (run_command outcome reads_only >> run_command outcome reads_only)

  unfoldable pub upsert_login_item : String → String → Step
  unfolding run_command
  upsert_login_item item_name password =
      run_command outcome (λ w. set_wallet (Dict.put item_name password w.wallet) w)

  module _ (deployment_name : String) where
    unfoldable pub item_name : String → String
    item_name item_label = "OEDS " <> deployment_name <> " " <> item_label

    unfoldable pub write_bitwarden_items : Passwords → Step
    unfolding ◌>>◌ run_command upsert_login_item item_name
    write_bitwarden_items passwords =
        run_command outcome reads_only
        >> upsert_login_item (item_name "PostgreSQL opendata") passwords.db
        >> upsert_login_item (item_name "PostgreSQL readonly") passwords.readonly
        >> upsert_login_item (item_name "Grafana admin") passwords.grafana_admin
        >> upsert_login_item (item_name "pgAdmin admin") passwords.pgadmin_default

    module _ (compose_env_text : String) (old_passwords new_passwords : Passwords) where
      unfoldable pub rollback : Step
      unfolding ◌>>◌ ignoring rotate_database_passwords rotate_grafana_password
          rotate_pgadmin_password write_compose_env restart_dependent_services write_bitwarden_items
      rollback =
          rotate_database_passwords old_passwords
          >> rotate_grafana_password old_passwords.grafana_admin
          >> rotate_pgadmin_password old_passwords.pgadmin_default
          >> write_compose_env compose_env_text
          >> restart_dependent_services
          >> ignoring (write_bitwarden_items old_passwords)

      -- the body of the inner `try`
      unfoldable pub rotate : Step
      unfolding ◌>>◌ run_command rotate_database_passwords rotate_grafana_password
          rotate_pgadmin_password write_compose_env restart_dependent_services verify
          write_bitwarden_items render_env_file updates_of
      rotate =
          rotate_database_passwords new_passwords
          >> rotate_grafana_password new_passwords.grafana_admin
          >> rotate_pgadmin_password new_passwords.pgadmin_default
          >> write_compose_env (render_env_file compose_env_text (updates_of new_passwords))
          >> run_command outcome reads_only
          >> restart_dependent_services
          >> verify
          >> write_bitwarden_items new_passwords

      -- the inner `try` with its `except` and `else`
      unfoldable pub rotate_or_roll_back : Step
      unfolding rotate rollback
      rotate_or_roll_back w =
          let (ok, v) = rotate w in
          let (rolled_back, u) = rollback v in if ok then (true, set_pending none v) else (false, u)

      unfoldable pub create_backup_file : Step
      unfolding run_command
      create_backup_file = run_command outcome (λ w. set_backup (some w.env_file) w)

      unfoldable pub create_pending_file : Step
      unfolding run_command
      create_pending_file = run_command outcome (λ w. set_pending (some new_passwords) w)

      -- `BitwardenSession.close`, which ignores the errors of its two commands
      unfoldable pub close : Step
      unfolding ◌>>◌ ignoring run_command
      close = ignoring (run_command outcome reads_only) >> ignoring (run_command outcome reads_only)

      -- `finally: self.bitwarden.close()`
      unfoldable pub finally_close : Step → Step
      unfolding close
      finally_close a w = let (ok, v) = a w in let (closed, u) = close v in (ok, u)

      -- the tests of the stack and of the wallet, which only read, before the rotation
      unfoldable pub run : Bool → Step
      unfolding ◌>>◌ run_command finally_close create_backup_file create_pending_file
          rotate_or_roll_back
      run true w = (true, w)
      run false w =
          (run_command outcome reads_only
              >> run_command outcome reads_only
              >> finally_close (create_backup_file >> create_pending_file >> rotate_or_roll_back))
            w
