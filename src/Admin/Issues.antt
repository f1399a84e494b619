-- ===== src/Admin/Issues.antt =====
-- `ValidationIssue` and `ValidationResult` of crawler_admin/config_service.py. A check that appends
-- to `issues` returns what it appends.
use open_energy_data_server.Common.{String, Bool, true, false, Option, none, List, [], ◌∷◌, ◌||◌}
use open_energy_data_server.Yaml.{Fields}

pub data Level : Type 0 where
  error : Level
  warning : Level

pub record ValidationIssue : Type 0 where
  pub level : Level
  pub message : String
  pub scope : String
  pub location : Option String

pub record ValidationResult : Type 0 where
  pub data_of : Option Fields
  pub issues : List ValidationIssue

unfoldable pub is_error : ValidationIssue → Bool
is_error issue = elim issue.level [ error ↦ true | warning ↦ false ]

unfoldable pub any_error : List ValidationIssue → Bool
unfolding is_error
any_error [] = false
any_error (issue ∷ issues) = is_error issue || any_error issues

unfoldable pub has_errors : ValidationResult → Bool
unfolding any_error
has_errors result = any_error result.issues

unfoldable pub error_in : String → String → ValidationIssue
error_in scope message = record { level = error; message = message; scope = scope; location = none }

unfoldable pub warning_in : String → String → ValidationIssue
warning_in scope message = record {
  level = warning;
  message = message;
  scope = scope;
  location = none;
}
