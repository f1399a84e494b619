-- ===== src/Yaml/Merge/Overlay.antt =====
-- What `get_crawler_config_with_defaults` and `merge_with_defaults` are to give, described without
-- them, and that they give it.
use open_energy_data_server.Common.{
  String, ◌≡◌, refl, sym, subst, false, Option, none, some, arith, str_eq, Bool-cases, inl, inr,
}
use open_energy_data_server.Yaml.{Value, dict, Fields, end, field, get, has, is_dict, IsUnique}
use open_energy_data_server.Yaml.Merge.{
  get_crawler_config_with_defaults, overlaid, get-get_crawler_config_with_defaults,
}

-- A key of a mapping over its default: the default where the mapping has no such key, the new value
-- where there is no default or one of the two is no mapping, and else a mapping in which each key
-- is again one over its default.
pub data Overlaid : Option Value → Option Value → Option Value → Type 0 where
  kept : (old : Option Value) → Overlaid old none old
  added : (v : Value) → Overlaid none (some v) (some v)
  over_plain : (old v : Value) → is_dict old ≡ false → Overlaid (some old) (some v) (some v)
  by_plain : (old v : Value) → is_dict v ≡ false → Overlaid (some old) (some v) (some v)
  nested :
      (default new merged : Fields)
      → ((k : String) → Overlaid (get k default) (get k new) (get k merged))
      → Overlaid (some (dict default)) (some (dict new)) (some (dict merged))

-- A mapping and every mapping inside it hold a key once.
unfoldable mutual
  pub AllUnique : Fields → Type 0
  AllUnique end = Unit {0}
  AllUnique (field k v fs) = (has k fs ≡ false) × UniqueInside v × AllUnique fs

  pub UniqueInside : Value → Type 0
  UniqueInside (dict fs) = AllUnique fs
  UniqueInside v = Unit {0}

AllUnique-IsUnique : (fs : Fields) → AllUnique fs → IsUnique fs
unfolding AllUnique
AllUnique-IsUnique end u = tt
AllUnique-IsUnique (field k v fs) u = (u.0, AllUnique-IsUnique fs u.2)

plain_value :
    (old : Option Value) (v : Value)
    → is_dict v ≡ false
    → Overlaid old (some v) (overlaid old (some v))
unfolding is_dict get_crawler_config_with_defaults
plain_value none v h = added v
plain_value (some old) (dict new) h = absurd (ground arith)
plain_value (some (dict default)) v h = by_plain (dict default) v h
plain_value (some old) v h = by_plain old v h

nested_value :
    (old : Option Value) (new : Fields)
    → ((k : String) (o : Option Value) → Overlaid o (get k new) (overlaid o (get k new)))
    → IsUnique new
    → Overlaid old (some (dict new)) (overlaid old (some (dict new)))
unfolding is_dict get_crawler_config_with_defaults
nested_value none new h u = added (dict new)
nested_value (some (dict default)) new h u =
    nested default new (get_crawler_config_with_defaults default new) (λ k.
      subst (Overlaid (get k default) (get k new))
        (sym (get-get_crawler_config_with_defaults k default new u)) (h k (get k default)))
nested_value (some old) new h u = over_plain old (dict new) refl

each_key :
    (config : Fields)
    → AllUnique config
    → (k : String) (old : Option Value) → Overlaid old (get k config) (overlaid old (get k config))
unfolding AllUnique get is_dict
each_key end u k old = kept old
each_key (field j (dict new) rest) u k old = elim (Bool-cases (str_eq j k)) [
  | inl e ↦ rw e (nested_value old new (each_key new u.1) (AllUnique-IsUnique new u.1))
  | inr e ↦ rw e (each_key rest u.2 k old)
]
each_key (field j v rest) u k old = elim (Bool-cases (str_eq j k)) [
  | inl e ↦ rw e (plain_value old v refl)
  | inr e ↦ rw e (each_key rest u.2 k old)
]

-- The merge of a mapping over its defaults gives every key what it is to hold, and so inside every
-- mapping that lies over a mapping, where the mapping and those inside it hold a key once.
pub merge-Overlaid :
    (defaults config : Fields) (k : String)
    → AllUnique config
    → Overlaid
        (get k defaults)
        (get k config)
        (get k (get_crawler_config_with_defaults defaults config))
merge-Overlaid defaults config k u =
    subst (Overlaid (get k defaults) (get k config))
      (sym (get-get_crawler_config_with_defaults k defaults config (AllUnique-IsUnique config u)))
      (each_key config u k (get k defaults))
