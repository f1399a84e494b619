-- ===== src/Rotation/World.antt =====
-- What the rotation acts on: the passwords of the services, the environment file and what the
-- services were started with, the wallet, and the files of the rotation itself. An external command
-- is done, fails, or fails after it took effect; which of them, the argument `outcome` says for the
-- number of the command.
use open_energy_data_server.Common.{
  ℕ, zero, suc, String, Bool, true, false, Option, ◌+◌, if◌then◌else◌,
}
use open_energy_data_server.Common.Dict.{Dict}
use open_energy_data_server.Rotation.EnvFile.{Passwords}

pub data Outcome : Type 0 where
  done : Outcome
  failed : Outcome
  failed_late : Outcome

pub record World : Type 0 where
  pub opendata : String
  pub readonly : String
  pub grafana : String
  pub pgadmin : String
  pub env_file : String
  pub started_with : String
  pub wallet : Dict String
  pub pending : Option Passwords
  pub backup : Option String
  pub commands : ℕ

-- One field is set, the others stay.
abbrev pub set_opendata : String → World → World
set_opendata v w = record w { opendata = v }

abbrev pub set_readonly : String → World → World
set_readonly v w = record w { readonly = v }

abbrev pub set_grafana : String → World → World
set_grafana v w = record w { grafana = v }

abbrev pub set_pgadmin : String → World → World
set_pgadmin v w = record w { pgadmin = v }

abbrev pub set_env_file : String → World → World
set_env_file v w = record w { env_file = v }

abbrev pub set_started_with : String → World → World
set_started_with v w = record w { started_with = v }

abbrev pub set_wallet : Dict String → World → World
set_wallet v w = record w { wallet = v }

abbrev pub set_pending : Option Passwords → World → World
set_pending v w = record w { pending = v }

abbrev pub set_backup : Option String → World → World
set_backup v w = record w { backup = v }

abbrev pub set_commands : ℕ → World → World
set_commands v w = record w { commands = v }

-- A step that may raise: whether it did not, and what it left.
abbrev pub Step : Type 0
Step = World → Bool × World

unfoldable pub counted : World → World
counted w = set_commands (w.commands + 1) w

infixl 20 ◌>>◌
-- one step, and the next one unless the first raised
unfoldable pub ◌>>◌ : Step → Step → Step
(a >> b) w = let (ok, v) = a w in if ok then b v else (false, v)

-- `try: … except: pass`
unfoldable pub ignoring : Step → Step
ignoring a w = let (ok, v) = a w in (true, v)

module _ (outcome : ℕ → Outcome) where
  unfoldable pub run_command : (World → World) → Step
  unfolding counted
  run_command effect w = elim (outcome w.commands) [
    | done ↦ (true, effect (counted w))
    | failed ↦ (false, counted w)
    | failed_late ↦ (false, effect (counted w))
  ]

  -- `retry`, of a step that only reads; its delays are not modelled
  unfoldable pub retry : ℕ → Step → Step
  retry zero func w = (false, w)
  retry (suc attempts) func w =
      let (ok, v) = func w in let again = retry attempts func v in if ok then (true, v) else again
