-- ===== src/Rotation/Rotator/Run.antt =====
-- What a whole run leaves: after a success, after a failure, and in every case.
use open_energy_data_server.Common.{
  ℕ, String, ◌≡◌, refl, Bool, true, false, none, some, if◌then◌else◌,
}
use open_energy_data_server.Rotation.EnvFile.{Passwords, render_env_file, updates_of}
use open_energy_data_server.Rotation.World.{
  World, Step, Outcome, counted, ◌>>◌, run_command, set_pending,
}
use open_energy_data_server.Rotation.Hoare.{Keeps, Gives, Fails, seq-Gives, IgnoresCount}
use open_energy_data_server.Rotation.Rotator.{
  reads_only, rollback, rotate, rotate_or_roll_back, create_backup_file, create_pending_file,
  finally_close, run,
}
use open_energy_data_server.Rotation.Rotator.Laws.{
  HasPasswords, Allows, close-Keeps, rollback-Keeps, rotate-Keeps, rollback_restores, rotate-Gives,
}

choice : Bool → World → World → Bool × World
choice ok u v = if ok then (true, u) else (false, v)

chosen_raised : (ok : Bool) (u v : World) → (choice ok u v).0 ≡ false → ok ≡ false
unfolding choice
chosen_raised true u v h = h
chosen_raised false u v h = refl

chosen_ok : (ok : Bool) (u v : World) → (choice ok u v).0 ≡ true → ok ≡ true
unfolding choice
chosen_ok true u v h = refl
chosen_ok false u v h = h

module _ (outcome : ℕ → Outcome) (d : String) (lines : String) (old new : Passwords) where
  abbrev new_lines : String
  new_lines = render_env_file lines (updates_of new)

  -- If the rotation raises and the rollback does not, then every service has its old password again,
  -- and the environment file and the services' start their old text.
  pub rotate_or_roll_back_restores :
      (w : World)
      → (rotate_or_roll_back outcome d lines old new w).0 ≡ false
      → (rollback outcome d lines old new (rotate outcome d lines old new w).1).0 ≡ true
      → HasPasswords old lines (rotate_or_roll_back outcome d lines old new w).1
  unfolding rotate_or_roll_back choice
  rotate_or_roll_back_restores w raised rolled_back =
      rw (chosen_raised (rotate outcome d lines old new w).0 _ _ raised)
        (rollback_restores outcome d lines old new (rotate outcome d lines old new w).1 rolled_back)

  finally-Keeps :
      (P : World → Type 0) (a : Step)
      → IgnoresCount P
      → Keeps P a
      → Keeps P (finally_close outcome d lines old new a)
  unfolding finally_close
  finally-Keeps P a count ha = record {
    after = λ w h. (close-Keeps outcome P count d lines old new).after (a w).1 (ha.after w h);
  }

  finally-Gives :
      (P Q : World → Type 0) (a : Step)
      → IgnoresCount Q
      → Gives P a Q
      → Gives P (finally_close outcome d lines old new a) Q
  unfolding finally_close
  finally-Gives P Q a count ga = record {
    after = λ w h e. (close-Keeps outcome Q count d lines old new).after (a w).1 (ga.after w h e);
  }

  pub finally-Fails :
      (P R : World → Type 0) (a : Step)
      → IgnoresCount R
      → Fails P a R
      → Fails P (finally_close outcome d lines old new a) R
  unfolding finally_close
  finally-Fails P R a count fa = record {
    after = λ w h e. (close-Keeps outcome R count d lines old new).after (a w).1 (fa.after w h e);
  }

  abbrev Anything : World → Type 0
  Anything w = Unit {0}

  -- every service has its new password, the environment file has the new text, and the new
  -- passwords are in no other file
  pub record IsRotated (w : World) : Type 0 where
    pub set : HasPasswords new new_lines w
    pub pending : w.pending ≡ none

  rotation_gives : Gives Anything (rotate_or_roll_back outcome d lines old new) IsRotated
  unfolding rotate_or_roll_back choice
  rotation_gives = record { after = after }
    where
      of_set : (v : World) → HasPasswords new new_lines v → IsRotated (set_pending none v)
      of_set v s = record {
        set = record {
          opendata = s.opendata;
          readonly = s.readonly;
          grafana = s.grafana;
          pgadmin = s.pgadmin;
          env_file = s.env_file;
          started_with = s.started_with;
        };
        pending = refl;
      }

      after :
          (w : World)
          → Unit {0}
          → (rotate_or_roll_back outcome d lines old new w).0 ≡ true
          → IsRotated (rotate_or_roll_back outcome d lines old new w).1
      after w h raised =
          let ok = chosen_ok (rotate outcome d lines old new w).0 _ _ raised in
          rw ok (
            of_set (rotate outcome d lines old new w).1
              ((rotate-Gives outcome d lines old new).after w tt ok))

  IsRotated-count : IgnoresCount IsRotated
  unfolding counted
  IsRotated-count w h = record {
    set = record {
      opendata = h.set.opendata;
      readonly = h.set.readonly;
      grafana = h.set.grafana;
      pgadmin = h.set.pgadmin;
      env_file = h.set.env_file;
      started_with = h.set.started_with;
    };
    pending = h.pending;
  }

  abbrev pub reads : Step
  reads = run_command outcome reads_only

  abbrev pub files : Step
  files = create_backup_file outcome d lines old new >> create_pending_file outcome d lines old new

  abbrev pub rotation : Step
  rotation = rotate_or_roll_back outcome d lines old new

  any-Gives : (a : Step) → Gives Anything a Anything
  any-Gives a = record { after = λ w h e. tt }

  -- After a run that returns, every service has its new password, the environment file and the
  -- services' start have the new text, and the file of pending passwords is gone.
  pub run_rotates :
      (w : World)
      → (run outcome d lines old new false w).0 ≡ true
      → IsRotated (run outcome d lines old new false w).1
  unfolding run
  run_rotates w ok =
      (seq-Gives Anything Anything IsRotated (reads >> reads)
          (finally_close outcome d lines old new (files >> rotation)) (any-Gives (reads >> reads))
          (finally-Gives Anything IsRotated (files >> rotation) IsRotated-count (
            seq-Gives Anything Anything IsRotated files rotation (any-Gives files)
              rotation_gives))).after
        w tt ok

  abbrev pub Prepared : World → Type 0
  Prepared w = w.pending ≡ some new

  Prepared-Allows : (p : Passwords) (ls : String) → Allows Prepared p ls
  unfolding counted
  Prepared-Allows p ls = record {
    count = λ w h. h;
    opendata = λ w h. h;
    readonly = λ w h. h;
    grafana = λ w h. h;
    pgadmin = λ w h. h;
    env_file = λ w h. h;
    started_with = λ w h. h;
    wallet = λ v w h. h;
  }

  pub rotate_or_roll_back-Fails :
      Fails Prepared (rotate_or_roll_back outcome d lines old new) Prepared
  unfolding rotate_or_roll_back choice
  rotate_or_roll_back-Fails = record { after = after }
    where
      after :
          (w : World)
          → w.pending ≡ some new
          → (rotate_or_roll_back outcome d lines old new w).0 ≡ false
          → (rotate_or_roll_back outcome d lines old new w).1.pending ≡ some new
      after w h raised = rw (chosen_raised (rotate outcome d lines old new w).0 _ _ raised) (
          (rollback-Keeps outcome d lines old new Prepared (Prepared-Allows old lines)).after
            (rotate outcome d lines old new w).1
            ((rotate-Keeps outcome d lines old new Prepared (Prepared-Allows new new_lines)).after w
              h))
