-- ===== src/Yaml/Merge.antt =====
-- `get_crawler_config_with_defaults` of crawler_scheduler.py and `merge_with_defaults` of
-- crawler_admin/config_service.py: a mapping is laid over its defaults, mappings inside one another
-- recursively. Copies (`deepcopy`, `dict(…)`) are the values themselves, since nothing is mutated
-- that the result does not own.
pub mod Overlay
use open_energy_data_server.Common.{String, ◌≡◌, refl, Option, none, some, arith, eq_iff}
use open_energy_data_server.Yaml.{Value, dict, Fields, end, field, get, put, IsUnique}
use open_energy_data_server.Yaml.Laws.{get-put, get_missing, put-IsUnique}

unfoldable mutual
  -- the loop over `crawler_config.items()`, with `merged_crawler_config` in the first argument
  pub get_crawler_config_with_defaults : Fields → Fields → Fields
  get_crawler_config_with_defaults merged end = merged
  get_crawler_config_with_defaults merged (field key value rest) =
      get_crawler_config_with_defaults (put key (merged_value (get key merged) value) merged) rest

  -- what the loop stores for a key, from the value that the key has already
  pub merged_value : Option Value → Value → Value
  merged_value (some (dict default)) (dict new) =
      dict (get_crawler_config_with_defaults default new)
  merged_value old value = value

-- What a key holds after the merge: the default where the crawler's mapping has no such key, and
-- else the crawler's value, merged with the default where both are mappings.
abbrev pub overlaid : Option Value → Option Value → Option Value
overlaid default none = default
overlaid default (some value) = some (merged_value default value)

-- For every key, the merge of a mapping over its defaults holds exactly the overlaid value.
pub get-get_crawler_config_with_defaults :
    (k : String) (defaults config : Fields)
    → IsUnique config
    → get k (get_crawler_config_with_defaults defaults config)
      ≡ overlaid (get k defaults) (get k config)
unfolding get_crawler_config_with_defaults get
get-get_crawler_config_with_defaults k defaults end u = refl
get-get_crawler_config_with_defaults k defaults (field j v rest) u = ground (
  arith,
  eq_iff j k,
  get_missing k rest,
  get-put j k (merged_value (get j defaults) v) defaults,
  get-get_crawler_config_with_defaults k (put j (merged_value (get j defaults) v) defaults) rest
      u.1,
)

-- The merge of a mapping with distinct keys over one with distinct keys has distinct keys.
pub merge-IsUnique :
    (defaults config : Fields)
    → IsUnique defaults
    → IsUnique (get_crawler_config_with_defaults defaults config)
unfolding get_crawler_config_with_defaults
merge-IsUnique defaults end d = d
merge-IsUnique defaults (field j v rest) d =
    merge-IsUnique (put j (merged_value (get j defaults) v) defaults) rest
      (put-IsUnique j (merged_value (get j defaults) v) defaults d)
