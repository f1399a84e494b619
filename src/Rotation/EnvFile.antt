-- ===== src/Rotation/EnvFile.antt =====
-- `load_env_file`, `render_env_file` and `current_passwords` of oeds_ops/password_rotation.py, with
-- Python's `splitlines`, `join` and `rstrip` on the code points of a text.
pub mod Laws
pub mod RoundTrip
pub mod Written
use Prim.Native.Char.{code}
use open_energy_data_server.Common.{
  ℕ, String, Bool, true, false, ◌&&◌, ◌||◌, Option, none, some, List, [], ◌∷◌, ◌++◌, ◌==◌, leb,
  if◌then◌else◌,
}
use open_energy_data_server.Common.Strip.{strip, is_empty, cons_first}
use open_energy_data_server.Common.Text.{◌<>◌}
use open_energy_data_server.Common.Sets.{contains}
use open_energy_data_server.Common.Dict
use open_energy_data_server.Common.Dict.{Dict}

abbrev pub newline : String
newline = "\n"

-- `line.split("=", 1)`, or none where the line has no "="
unfoldable pub split_at_equals : String → Option (String × String)
split_at_equals String.[] = none
split_at_equals (String.◌∷◌ c s) =
    let rest = split_at_equals s in
    if code c == b'='
    then some ("", s)
    else elim rest [ none ↦ none | some (key, value) ↦ some (String.◌∷◌ c key, value) ]

-- `text.startswith("#")`
unfoldable pub is_comment : String → Bool
is_comment String.[] = false
is_comment (String.◌∷◌ c s) = code c == b'#'

-- the rest of a round of `load_env_lines`, for a line that is split
unfoldable pub store_line : Option (String × String) → Dict String → Dict String
unfolding strip is_empty
store_line none values = values
store_line (some (key, value)) values =
    if is_empty (strip key) then values else Dict.put (strip key) value values

unfoldable pub load_line : String → Dict String → Dict String
unfolding store_line is_comment strip is_empty split_at_equals
load_line line values =
    if is_empty (strip line) || is_comment (strip line)
    then values
    else store_line (split_at_equals line) values

unfoldable pub load_lines : List String → Dict String → Dict String
unfolding load_line
load_lines [] values = values
load_lines (line ∷ lines) values = load_lines lines (load_line line values)

-- the characters at which `splitlines` ends a line
unfoldable pub is_line_break : ℕ → Bool
is_line_break c =
    (leb 10 c && leb c 13) || (leb 28 c && leb c 30) || (c == 133 || (leb 8232 c && leb c 8233))

unfoldable pub starts_with_newline : String → Bool
starts_with_newline String.[] = false
starts_with_newline (String.◌∷◌ c s) = code c == 10

-- `text.splitlines()`: a carriage return before a newline is part of the same break
unfoldable pub splitlines : String → List String
unfolding is_line_break starts_with_newline cons_first
splitlines String.[] = []
splitlines (String.◌∷◌ c s) =
    let rest = splitlines s in
    if is_line_break (code c)
    then if code c == 13 && starts_with_newline s then rest else "" ∷ rest
    else cons_first c rest

-- `load_env_file` of a file that exists, with the text it holds
unfoldable pub load_env_file : String → Dict String
unfolding load_lines splitlines
load_env_file text = load_lines (splitlines text) []

-- `[A-Za-z_]`
unfoldable pub is_letter : ℕ → Bool
is_letter c = leb b'A' c && leb c b'Z' || (leb b'a' c && leb c b'z' || c == b'_')

-- `[A-Za-z0-9_]*`
unfoldable pub are_word : String → Bool
unfolding is_letter
are_word String.[] = true
are_word (String.◌∷◌ c s) =
    (is_letter (code c) || (leb b'0' (code c) && leb (code c) b'9')) && are_word s

-- `[A-Za-z_][A-Za-z0-9_]*`
unfoldable pub is_identifier : String → Bool
unfolding is_letter are_word
is_identifier String.[] = false
is_identifier (String.◌∷◌ c s) = is_letter (code c) && are_word s

-- The group of `ENV_LINE_RE`. Neither a space nor a letter of a key is "=", so the expression matches
-- a line exactly if the part before the first "=" is a key with spaces around it.
unfoldable pub env_line_key : String → Option String
unfolding split_at_equals strip is_identifier
env_line_key line = elim (split_at_equals line) [
  | none ↦ none
  | some (key, value) ↦ if is_identifier (strip key) then some (strip key) else none
]

unfoldable pub render_line : Dict String → String → String
unfolding env_line_key
render_line updates line = elim (env_line_key line) [
  | none ↦ line
  | some key ↦ elim (Dict.get key updates) [ none ↦ line | some value ↦ key <> "=" <> value ]
]

unfoldable pub render_lines : Dict String → List String → List String
unfolding render_line
render_lines updates [] = []
render_lines updates (line ∷ lines) = render_line updates line ∷ render_lines updates lines

-- `updated_keys`
unfoldable pub updated_keys : Dict String → List String → List String
unfolding env_line_key
updated_keys updates [] = []
updated_keys updates (line ∷ lines) =
    let rest = updated_keys updates lines in
    elim (env_line_key line) [
      | none ↦ rest
      | some key ↦ if Dict.has key updates then key ∷ rest else rest
    ]

unfoldable pub missing_lines : List String → Dict String → List String
unfolding contains
missing_lines updated [] = []
missing_lines updated ((key, value) ∷ updates) =
    let rest = missing_lines updated updates in
    if contains key updated then rest else (key <> "=" <> value) ∷ rest

-- `rendered`
unfoldable pub render_env_lines : List String → Dict String → List String
unfolding render_lines updated_keys missing_lines
render_env_lines lines updates =
    render_lines updates lines ++ missing_lines (updated_keys updates lines) updates

-- `"\n".join(lines)`
unfoldable pub join_lines : List String → String
join_lines [] = ""
join_lines (line ∷ []) = line
join_lines (line ∷ next ∷ lines) = line <> newline <> join_lines (next ∷ lines)

-- `text.rstrip("\n")`
unfoldable pub rstrip_newlines : String → String
unfolding is_empty
rstrip_newlines String.[] = ""
rstrip_newlines (String.◌∷◌ c s) =
    let rest = rstrip_newlines s in if code c == 10 && is_empty rest then "" else String.◌∷◌ c rest

unfoldable pub render_env_file : String → Dict String → String
unfolding splitlines render_env_lines join_lines rstrip_newlines
render_env_file original_text updates =
    rstrip_newlines (join_lines (render_env_lines (splitlines original_text) updates)) <> newline

-- The passwords of a deployment, under the keys of `SERVICE_PASSWORD_DEFAULTS`.
pub record Passwords : Type 0 where
  pub db : String
  pub readonly : String
  pub grafana_admin : String
  pub pgadmin_default : String

-- `env_map.get(env_key, default)`
unfoldable pub get_or : Dict String → String → String → String
get_or env_map env_key default = elim (Dict.get env_key env_map) [
  | none ↦ default
  | some value ↦ value
]

unfoldable pub current_passwords : Dict String → Passwords
unfolding get_or
current_passwords env_map = record {
  db = get_or env_map "OEDS_DB_PASSWORD" "opendata";
  readonly = get_or env_map "OEDS_READONLY_PASSWORD" "readonly";
  grafana_admin = get_or env_map "OEDS_GRAFANA_ADMIN_PASSWORD" "opendata";
  pgadmin_default = get_or env_map "OEDS_PGADMIN_DEFAULT_PASSWORD" "admin";
}

-- the passwords as the updates of the environment file
unfoldable pub updates_of : Passwords → Dict String
updates_of p =
    ("OEDS_DB_PASSWORD", p.db)
    ∷ ("OEDS_READONLY_PASSWORD", p.readonly)
    ∷ ("OEDS_GRAFANA_ADMIN_PASSWORD", p.grafana_admin)
    ∷ ("OEDS_PGADMIN_DEFAULT_PASSWORD", p.pgadmin_default)
    ∷ []
