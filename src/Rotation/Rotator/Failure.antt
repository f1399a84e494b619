-- ===== src/Rotation/Rotator/Failure.antt =====
-- What a run that raises leaves.
use open_energy_data_server.Common.{ℕ, String, ◌≡◌, refl, ◌⊎◌, inl, inr, false, Option, some}
use open_energy_data_server.Rotation.EnvFile.{Passwords}
use open_energy_data_server.Rotation.World.{
  World, Step, Outcome, counted, ◌>>◌, run_command, set_pending, set_backup,
}
use open_energy_data_server.Rotation.Hoare.{
  Keeps, Gives, Fails, seq-Fails, fails_by_keeping, weaken-Fails, seq-Keeps, seq-Gives,
  gives_by_keeping, IgnoresCount, command-Keeps, command-Gives,
}
use open_energy_data_server.Rotation.Rotator.{
  reads_only, create_backup_file, create_pending_file, finally_close, run,
}
use open_energy_data_server.Rotation.Rotator.Run.{
  Prepared, reads, files, rotation, finally-Fails, rotate_or_roll_back-Fails,
}

-- Both worlds have the same passwords, files of the deployment and wallet.
pub record Same (u w : World) : Type 0 where
  pub opendata : w.opendata ≡ u.opendata
  pub readonly : w.readonly ≡ u.readonly
  pub grafana : w.grafana ≡ u.grafana
  pub pgadmin : w.pgadmin ≡ u.pgadmin
  pub env_file : w.env_file ≡ u.env_file
  pub started_with : w.started_with ≡ u.started_with
  pub wallet : w.wallet ≡ u.wallet

module _ (outcome : ℕ → Outcome) (d : String) (lines : String) (old new : Passwords)
    (start : World) where
  -- the state that a run began with, or the new passwords in the pending file
  abbrev Recoverable : World → Type 0
  Recoverable w = Same start w ⊎ (w.pending ≡ some new)

  Same-count : IgnoresCount (Same start)
  unfolding counted
  Same-count w h = record {
    opendata = h.opendata;
    readonly = h.readonly;
    grafana = h.grafana;
    pgadmin = h.pgadmin;
    env_file = h.env_file;
    started_with = h.started_with;
    wallet = h.wallet;
  }

  Same-backup : (v : Option String) (w : World) → Same start w → Same start (set_backup v w)
  Same-backup v w h = record {
    opendata = h.opendata;
    readonly = h.readonly;
    grafana = h.grafana;
    pgadmin = h.pgadmin;
    env_file = h.env_file;
    started_with = h.started_with;
    wallet = h.wallet;
  }

  Same-pending : (v : Option Passwords) (w : World) → Same start w → Same start (set_pending v w)
  Same-pending v w h = record {
    opendata = h.opendata;
    readonly = h.readonly;
    grafana = h.grafana;
    pgadmin = h.pgadmin;
    env_file = h.env_file;
    started_with = h.started_with;
    wallet = h.wallet;
  }

  Recoverable-count : IgnoresCount Recoverable
  unfolding counted
  Recoverable-count w (inl h) = inl (Same-count w h)
  Recoverable-count w (inr h) = inr h

  two_reads : Keeps (Same start) (reads outcome d lines old new >> reads outcome d lines old new)
  two_reads = seq-Keeps (Same start) _ _ once once
    where
      once : Keeps (Same start) (run_command outcome reads_only)
      once = command-Keeps outcome (Same start) reads_only Same-count (λ w h. h)

  backup-Keeps : Keeps (Same start) (create_backup_file outcome d lines old new)
  unfolding create_backup_file
  backup-Keeps =
      command-Keeps outcome (Same start) (λ w. set_backup (some w.env_file) w) Same-count
        (λ w h. Same-backup (some w.env_file) w h)

  pending-Keeps : Keeps (Same start) (create_pending_file outcome d lines old new)
  unfolding create_pending_file
  pending-Keeps =
      command-Keeps outcome (Same start) (set_pending (some new)) Same-count
        (Same-pending (some new))

  pending-Gives :
      Gives
        (Same start)
        (create_pending_file outcome d lines old new)
        (Prepared outcome d lines old new)
  unfolding create_pending_file counted
  pending-Gives =
      command-Gives outcome (Same start) (Prepared outcome d lines old new) (set_pending (some new))
        Same-count (λ w h. refl)

  failing_unchanged : (a : Step) → Keeps (Same start) a → Fails (Same start) a Recoverable
  failing_unchanged a ha =
      weaken-Fails (Same start) (Same start) Recoverable a (fails_by_keeping (Same start) a ha)
        (λ w h. inl h)

  rotation-Fails :
      Fails
        (Same start)
        (files outcome d lines old new >> rotation outcome d lines old new)
        Recoverable
  rotation-Fails =
      seq-Fails (Same start) prepared Recoverable (files outcome d lines old new)
        (rotation outcome d lines old new)
        (failing_unchanged (files outcome d lines old new)
          (seq-Keeps (Same start) _ _ backup-Keeps pending-Keeps))
        (seq-Gives (Same start) (Same start) prepared _ _
          (gives_by_keeping (Same start) _ backup-Keeps) pending-Gives)
        (weaken-Fails prepared prepared Recoverable (rotation outcome d lines old new)
          (rotate_or_roll_back-Fails outcome d lines old new) (λ w h. inr h))
    where
      prepared : World → Type 0
      prepared = Prepared outcome d lines old new

  -- A run that raises has changed no password, no line of the environment file and no item of the
  -- wallet, or the new passwords are still in the pending file.
  pub failed_run-Recoverable :
      (run outcome d lines old new false start).0 ≡ false
      → Same start (run outcome d lines old new false start).1
        ⊎ ((run outcome d lines old new false start).1.pending ≡ some new)
  unfolding run
  failed_run-Recoverable raised =
      (seq-Fails (Same start) (Same start) Recoverable two
          (finally_close outcome d lines old new
            (files outcome d lines old new >> rotation outcome d lines old new))
          (failing_unchanged two two_reads) (gives_by_keeping (Same start) two two_reads)
          (finally-Fails outcome d lines old new (Same start) Recoverable
            (files outcome d lines old new >> rotation outcome d lines old new) Recoverable-count
            rotation-Fails)).after
        start
        record {
          opendata = refl;
          readonly = refl;
          grafana = refl;
          pgadmin = refl;
          env_file = refl;
          started_with = refl;
          wallet = refl;
        }
        raised
    where
      two : Step
      two = reads outcome d lines old new >> reads outcome d lines old new
