-- ===== src/Runtime/Locations.antt =====
-- `_filter_weather_locations` of crawler_admin/runtime_service.py.
use open_energy_data_server.Common.{
  String, Option, none, some, List, [], ◌∷◌, str_eq, if◌then◌else◌,
}
use open_energy_data_server.Yaml
use open_energy_data_server.Yaml.{
  Value, null, bool, int, negative, real, text, list, dict, Fields, end, field, Items, nil, cons,
}
use open_energy_data_server.Runtime.Inputs.{Checked, ok, refuse, ◌>>=◌, ◌>>◌, Python, refuse_names}

-- `location.get(key)`, which is `None` for a missing key
unfoldable pub or_none : Option Value → Value
or_none none = null
or_none (some v) = v

unfoldable pub available_locations : Option Value → Items → Items
available_locations (some (list (cons x items))) default_locations = cons x items
available_locations _ default_locations = default_locations

unfoldable pub some_selected : List Fields → Checked (List Fields)
some_selected [] = refuse ("At least one weather location must be selected.")
some_selected (x ∷ xs) = ok (x ∷ xs)

module _ (py : Python) where
  -- the first location with the id, for one id; `str(location.get("location_id"))`
  unfoldable pub find_location : String → Items → Option Fields
  unfolding or_none
  find_location location_id nil = none
  find_location location_id (cons (dict location) locations) =
      let rest = find_location location_id locations in
      if str_eq (py.str (or_none (Yaml.get "location_id" location))) location_id
      then some location
      else rest
  find_location location_id (cons _ locations) = find_location location_id locations

  -- the loop over the ids: the locations found, and the ids with none
  unfoldable pub select_locations : Items → List String → List Fields × List String
  unfolding find_location
  select_locations available [] = ([], [])
  select_locations available (location_id ∷ ids) =
      let (selected, missing) = select_locations available ids in
      elim (find_location location_id available) [
        | none ↦ (selected, location_id ∷ missing)
        | some location ↦ (location ∷ selected, missing)
      ]

  -- The weather module gives its default locations, or a message where it cannot be imported.
  unfoldable pub filter_weather_locations :
      Checked Items → Fields → List String → Checked (List Fields)
  unfolding available_locations select_locations refuse_names some_selected
  filter_weather_locations weather_module effective_config location_ids = do
    default_locations ← weather_module
    let available = available_locations (Yaml.get "locations" effective_config) default_locations
    let chosen = select_locations available location_ids
    refuse_names "Unknown weather location id(s): " chosen.1
    some_selected chosen.0
