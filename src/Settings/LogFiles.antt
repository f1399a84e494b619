-- ===== src/Settings/LogFiles.antt =====
-- `cleanup_expired_log_files` of crawler/common/base_crawler.py. The folder is the list of what its
-- glob finds; times are in seconds.
use open_energy_data_server.Common.{
  ℕ, ◌+◌, ◌*◌, ◌≡◌, refl, String, Bool, false, not, ◌&&◌, Option, none, some, List, [], ◌∷◌, ltb,
  leb, if◌then◌else◌, str_eq,
}
use open_energy_data_server.Common.Sets.{contains}
use open_energy_data_server.Common.{arith}

-- An entry of the folder, under its resolved path; `can_unlink` tells whether its removal raises.
pub record Candidate : Type 0 where
  pub path : String
  pub is_file : Bool
  pub mtime : ℕ
  pub can_unlink : Bool

unfoldable pub is_active : Option String → Candidate → Bool
is_active none candidate = false
is_active (some active_log) candidate = str_eq candidate.path active_log

-- whether the round of the loop removes the candidate
unfoldable pub is_removed : Option String → ℕ → ℕ → Candidate → Bool
unfolding is_active
is_removed active_log now retention candidate =
    candidate.is_file
    && not (is_active active_log candidate)
    && ltb (candidate.mtime + retention) now
    && candidate.can_unlink

unfoldable pub remove_each : Option String → ℕ → ℕ → List Candidate → List String
unfolding is_removed
remove_each active_log now retention [] = []
remove_each active_log now retention (candidate ∷ candidates) =
    let rest = remove_each active_log now retention candidates in
    if is_removed active_log now retention candidate then candidate.path ∷ rest else rest

-- `none` is a path that is no folder
unfoldable pub cleanup_expired_log_files :
    Option (List Candidate) → ℕ → Option String → ℕ → List String
unfolding remove_each
cleanup_expired_log_files none retention_days active_log now = []
cleanup_expired_log_files (some candidates) retention_days active_log now =
    if leb retention_days 0
    then []
    else remove_each active_log now (retention_days * 24 * 60 * 60) candidates

-- The log file that is in use is never removed.
active_log_kept :
    (active_log : String) (now retention : ℕ) (candidates : List Candidate)
    → contains active_log (remove_each (some active_log) now retention candidates) ≡ false
unfolding remove_each is_removed is_active contains
active_log_kept active_log now retention [] = refl
active_log_kept active_log now retention (candidate ∷ candidates) =
    ground (arith, active_log_kept active_log now retention candidates)
