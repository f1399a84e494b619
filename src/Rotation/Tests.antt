-- ===== src/Rotation/Tests.antt =====
-- A rotation at a concrete deployment, with commands that fail at chosen places.
use open_energy_data_server.Common.{
  ℕ, String, ◌≡◌, refl, false, ◌⊎◌, none, some, [], ◌==◌, if◌then◌else◌,
}
use open_energy_data_server.Common.Dict
use open_energy_data_server.Rotation.EnvFile.{
  Passwords, load_env_file, render_env_file, updates_of, is_letter, are_word, is_identifier,
  is_line_break,
}
use open_energy_data_server.Rotation.EnvFile.Written.{no_breaks, get-load_env_file}
use open_energy_data_server.Rotation.World.{
  World, Outcome, done, failed_late, counted, ◌>>◌, ignoring, run_command, retry,
}
use open_energy_data_server.Rotation.Rotator.{
  rotate_database_passwords, rotate_grafana_password, rotate_pgadmin_password, write_compose_env,
  restart_dependent_services, verify, upsert_login_item, item_name, write_bitwarden_items, rollback,
  rotate, rotate_or_roll_back, create_backup_file, create_pending_file, close, finally_close, run,
}
use open_energy_data_server.Rotation.Rotator.Laws.{HasPasswords, rollback_restores}
use open_energy_data_server.Rotation.Rotator.Run.{
  IsRotated, run_rotates, rotate_or_roll_back_restores,
}
use open_energy_data_server.Rotation.Rotator.Failure.{Same, failed_run-Recoverable}

abbrev old : Passwords
old = record { db = "a"; readonly = "b"; grafana_admin = "c"; pgadmin_default = "d" }

abbrev new : Passwords
new = record { db = "A"; readonly = "B"; grafana_admin = "C"; pgadmin_default = "D" }

abbrev env_text : String
env_text = "# secrets\nOEDS_DB_PASSWORD=a\n"

abbrev deployment : World
deployment = record {
  opendata = "a";
  readonly = "b";
  grafana = "c";
  pgadmin = "d";
  env_file = env_text;
  started_with = env_text;
  wallet = [];
  pending = none;
  backup = none;
  commands = 0;
}

abbrev always : ℕ → Outcome
always n = done

-- the command of the number takes effect and fails all the same
abbrev fails_at : ℕ → ℕ → Outcome
fails_at m n = if n == m then failed_late else done

run_rotates_example :
    IsRotated always "kit" env_text old new (run always "kit" env_text old new false deployment).1
unfolding ◌>>◌ ignoring run_command retry counted rotate_database_passwords rotate_grafana_password
    rotate_pgadmin_password write_compose_env restart_dependent_services verify upsert_login_item
    item_name write_bitwarden_items rollback rotate rotate_or_roll_back create_backup_file
    create_pending_file close finally_close run
run_rotates_example = run_rotates always "kit" env_text old new deployment refl

rolled_back : HasPasswords old env_text (rollback always "kit" env_text old new deployment).1
unfolding ◌>>◌ ignoring run_command counted rotate_database_passwords rotate_grafana_password
    rotate_pgadmin_password write_compose_env restart_dependent_services upsert_login_item item_name
    write_bitwarden_items rollback
rolled_back = rollback_restores always "kit" env_text old new deployment refl

rotate_or_roll_back_restores_example :
    HasPasswords old env_text (rotate_or_roll_back (fails_at 3) "kit" env_text old new deployment).1
unfolding ◌>>◌ ignoring run_command retry counted rotate_database_passwords rotate_grafana_password
    rotate_pgadmin_password write_compose_env restart_dependent_services verify upsert_login_item
    item_name write_bitwarden_items rollback rotate rotate_or_roll_back
rotate_or_roll_back_restores_example =
    rotate_or_roll_back_restores (fails_at 3) "kit" env_text old new deployment refl refl

failed_run-Recoverable_example :
    Same deployment (run (fails_at 6) "kit" env_text old new false deployment).1
    ⊎ ((run (fails_at 6) "kit" env_text old new false deployment).1.pending ≡ some new)
unfolding ◌>>◌ ignoring run_command retry counted rotate_database_passwords rotate_grafana_password
    rotate_pgadmin_password write_compose_env restart_dependent_services verify upsert_login_item
    item_name write_bitwarden_items rollback rotate rotate_or_roll_back create_backup_file
    create_pending_file close finally_close run
failed_run-Recoverable_example =
    failed_run-Recoverable (fails_at 6) "kit" env_text old new deployment refl

get-load_env_file_example :
    Dict.get "OEDS_DB_PASSWORD" (load_env_file (render_env_file env_text (updates_of new)))
    ≡ some "A"
unfolding Dict.get Dict.has updates_of is_identifier is_letter are_word no_breaks is_line_break
get-load_env_file_example =
    get-load_env_file "OEDS_DB_PASSWORD" "A" env_text (updates_of new)
      (refl, refl, (refl, refl, (refl, refl, (refl, refl, tt)))) (refl, (refl, (refl, (refl, tt))))
      refl
