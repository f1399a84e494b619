-- ===== src/Yaml.antt =====
-- The values that `yaml.safe_load` returns, as crawler_scheduler.py and crawler_admin read them.
-- Mapping keys are texts. A real number is kept as its text: the modelled code never computes
-- with one. `Fields` is a dict in insertion order, `Items` a list.
pub mod Laws
pub mod Merge
use open_energy_data_server.Common.{
  ℕ, String, ◌≡◌, refl, Bool, true, false, Option, none, some, List, [], ◌∷◌, str_eq, if◌then◌else◌,
}

mutual
  pub data Value : Type 0 where
    null : Value
    bool : Bool → Value
    int : ℕ → Value
    negative : ℕ → Value
    real : String → Value
    text : String → Value
    list : Items → Value
    dict : Fields → Value

  pub data Items : Type 0 where
    nil : Items
    cons : Value → Items → Items

  pub data Fields : Type 0 where
    end : Fields
    field : String → Value → Fields → Fields

-- `config.get(key)`, with `none` for a missing key
unfoldable pub get : String → Fields → Option Value
get k end = none
get k (field j v fs) = if str_eq j k then some v else get k fs

-- `key in config`
unfoldable pub has : String → Fields → Bool
has k end = false
has k (field j v fs) = if str_eq j k then true else has k fs

-- `config[key] = value`
unfoldable pub put : String → Value → Fields → Fields
put k v end = field k v end
put k v (field j w fs) = if str_eq j k then field k v fs else field j w (put k v fs)

-- `{key: value for key, value in config.items() if key != "…"}` and `config.pop("…", None)`
unfoldable pub without : String → Fields → Fields
without k end = end
without k (field j v fs) = let rest = without k fs in if str_eq j k then rest else field j v rest

-- `isinstance(value, dict)`
unfoldable pub is_dict : Value → Bool
is_dict (dict _) = true
is_dict _ = false

-- `isinstance(value, list)`
unfoldable pub is_list : Value → Bool
is_list (list _) = true
is_list _ = false

-- A dict holds a key once.
abbrev pub IsUnique : Fields → Type 0
IsUnique end = Unit {0}
IsUnique (field k v fs) = (has k fs ≡ false) × IsUnique fs
