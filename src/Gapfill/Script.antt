-- ===== src/Gapfill/Script.antt =====
-- How scripts/gapfill_timeseries.py reads the tables from its command line, and
-- `load_job_from_crawler_config` of scripts/lib/gapfiller/config.py chooses the tables of the job.
pub mod Laws
use open_energy_data_server.Common.{
  ℕ, String, Bool, Option, none, some, List, [], ◌∷◌, str_eq, ◌==◌, if◌then◌else◌,
}
use open_energy_data_server.Common.Strip.{split_by, stripped_nonempty, is_empty}

-- What `argparse` gives for an option, where every option has a value.
unfoldable pub option_value : String → List String → Option String
option_value option [] = none
option_value option (given ∷ []) = none
option_value option (given ∷ value ∷ arguments) =
    let rest = option_value option arguments in if str_eq given option then some value else rest

-- the arguments after the name of the script
unfoldable pub arguments_of : List String → List String
arguments_of [] = []
arguments_of (script ∷ arguments) = arguments

abbrev pub is_comma : ℕ → Bool
is_comma c = c == b','

-- `_split_tables`
unfoldable pub split_tables : Option String → Option (List String)
unfolding split_by stripped_nonempty is_empty
split_tables none = none
split_tables (some raw_tables) =
    if is_empty raw_tables then none else some (stripped_nonempty (split_by is_comma raw_tables))

-- `selected`, from the names that are given and those that the configuration has
unfoldable pub selected_names : Option (List String) → List String → List String
selected_names none configured = configured
selected_names (some table_names) configured = table_names

-- the names of the tables that a run of the command is about, with no holdout test
unfoldable pub script_tables : List String → List String → List String
unfolding option_value arguments_of split_tables selected_names
script_tables command configured =
    selected_names (split_tables (option_value "--tables" (arguments_of command))) configured
