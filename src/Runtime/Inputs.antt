-- ===== src/Runtime/Inputs.antt =====
-- The readers of form values of crawler_admin/runtime_service.py, which raise
-- `ActionValidationError`, and the world they read: Python's `int`, `str`, `str.lower` and dates.
use Prim.Native.String.{compare}
use Prim.Native.Nat.{Ordering}
use open_energy_data_server.Common.{
  ℕ, String, Bool, true, false, not, Option, none, some, List, [], ◌∷◌, ◌||◌, str_eq, leb, ltb,
  ◌==◌, if◌then◌else◌,
}
use open_energy_data_server.Common.Text.{◌<>◌, decimal}
use open_energy_data_server.Common.Strip.{strip, is_empty, split_by, stripped_nonempty}
use open_energy_data_server.Common.Sets.{contains}
use open_energy_data_server.Yaml.{
  Value, null, bool, int, negative, real, text, list, dict, end, field, Items, nil, cons,
}
use open_energy_data_server.Runtime.DataItems.{get_entsoe_backfill_cadence}

-- a value, or `ActionValidationError(errors)`
pub data Checked {ℓ} (A : Type ℓ) : Type ℓ where
  ok : A → Checked A
  refused : List String → Checked A

infixl 5 ◌>>=◌ ◌>>◌
unfoldable pub ◌>>=◌ {ℓ κ} : {A : Type ℓ} {B : Type κ} → Checked A → (A → Checked B) → Checked B
(ok a) >>= next = next a
(refused errors) >>= next = refused errors

unfoldable pub ◌>>◌ {ℓ κ} : {A : Type ℓ} {B : Type κ} → Checked A → Checked B → Checked B
(ok a) >> next = next
(refused errors) >> next = refused errors

-- `raise ActionValidationError([message])`
abbrev pub refuse {ℓ} : {A : Type ℓ} → String → Checked A
refuse message = refused (message ∷ [])

unfoldable pub refuse_if : Bool → String → Checked (Unit {0})
refuse_if test message = if test then refuse (message) else ok tt

-- `int`, `str` and `str.lower`, and the dates that `datetime.fromisoformat` and
-- `datetime.strptime` read, as numbers that keep their order
pub record Python : Type 0 where
  pub int_of : String → Option Value
  pub str : Value → String
  pub lower : String → String
  pub fromisoformat : String → Option ℕ
  pub strptime : String → String → Option ℕ

-- the tests `if value` and `value or …`
unfoldable pub is_true : Value → Bool
unfolding is_empty
is_true null = false
is_true (bool b) = b
is_true (int n) = not (n == 0)
is_true (negative n) = true
is_true (real t) = not (str_eq t "0.0" || str_eq t "-0.0")
is_true (text t) = not (is_empty t)
is_true (list nil) = false
is_true (list (cons _ _)) = true
is_true (dict end) = false
is_true (dict (field _ _ _)) = true

unfoldable pub at_least : ℕ → Value → Bool
at_least minimum (int n) = leb minimum n
at_least minimum _ = false

-- the number that passed the test against the minimum
unfoldable pub to_number : Value → ℕ
to_number (int n) = n
to_number _ = 0

-- `sorted(set(…))`
unfoldable pub insert_sorted : String → List String → List String
insert_sorted x [] = x ∷ []
insert_sorted x (y ∷ ys) =
    let rest = insert_sorted x ys in
    elim (compare x y) [ Ordering.lt ↦ x ∷ y ∷ ys | Ordering.eq ↦ y ∷ ys | Ordering.gt ↦ y ∷ rest ]

unfoldable pub sorted_set : List String → List String
unfolding insert_sorted
sorted_set [] = []
sorted_set (x ∷ xs) = insert_sorted x (sorted_set xs)

-- `set(names) - set(valid)`, in some order
unfoldable pub not_in : List String → List String → List String
unfolding contains
not_in valid [] = []
not_in valid (x ∷ xs) = let rest = not_in valid xs in if contains x valid then rest else x ∷ rest

unfoldable pub join : List String → String
join [] = ""
join (x ∷ []) = x
join (x ∷ y ∷ xs) = x <> ", " <> join (y ∷ xs)

-- `if invalid: raise ActionValidationError([f"{what} {', '.join(invalid)}."])`
unfoldable pub refuse_names : String → List String → Checked (Unit {0})
unfolding join
refuse_names what [] = ok tt
refuse_names what (x ∷ xs) = refuse (what <> join (x ∷ xs) <> ".")

unfoldable pub expected_format : String → String
expected_format cadence = if str_eq cadence "annual" then "YYYY" else "YYYY_MM"

unfoldable pub bounded : String → ℕ → ℕ → Value → Checked ℕ
unfolding refuse_if at_least to_number decimal
bounded field_label minimum maximum parsed =
    refuse_if (not (at_least minimum parsed))
      (field_label <> " must be at least " <> decimal minimum <> ".")
    >> refuse_if (ltb maximum (to_number parsed))
        (field_label <> " must be at most " <> decimal maximum <> ".")
    >> ok (to_number parsed)

-- the argument of `fromisoformat` in `_parse_timestamp`, from `text_value.replace("Z", "+00:00")`
unfoldable pub replace_z : String → String
replace_z String.[] = ""
replace_z (String.◌∷◌ c s) =
    (if str_eq (String.◌∷◌ c "") "Z" then "+00:00" else String.◌∷◌ c "") <> replace_z s

module _ (py : Python) where
  -- `str(value or "")`, of a key that may be missing
  unfoldable pub text_or_empty : Option Value → String
  unfolding is_true
  text_or_empty none = ""
  text_or_empty (some v) = if is_true v then py.str v else ""

  unfoldable pub parse_int : Option Value → String → ℕ → ℕ → Checked ℕ
  unfolding text_or_empty strip is_empty bounded
  parse_int value field_label minimum maximum =
      let raw_value = strip (text_or_empty value) in
      if is_empty raw_value
      then refuse (field_label <> " is required.")
      else elim (py.int_of raw_value) [
        | none ↦ refuse (field_label <> " must be an integer.")
        | some parsed ↦ bounded field_label minimum maximum parsed
      ]

  unfoldable pub require_text : Option Value → String → Checked String
  unfolding text_or_empty strip is_empty
  require_text value field_label =
      let text_value = strip (text_or_empty value) in
      if is_empty text_value then refuse (field_label <> " is required.") else ok text_value

  unfoldable pub parse_timestamp : String → String → Checked ℕ
  unfolding strip replace_z
  parse_timestamp value field_label = elim (py.fromisoformat (replace_z (strip value))) [
    | none ↦ refuse (field_label <> " must be a valid ISO date or timestamp.")
    | some timestamp ↦ ok timestamp
  ]

  unfoldable pub parse_date : String → String → Checked ℕ
  unfolding strip
  parse_date value field_label = elim (py.fromisoformat (strip value)) [
    | none ↦ refuse (field_label <> " must be a valid ISO date.")
    | some date ↦ ok date
  ]

  -- `[str(item).strip() for item in value if str(item).strip()]`
  unfoldable pub item_texts : Items → List String
  unfolding strip is_empty
  item_texts nil = []
  item_texts (cons item items) =
      let rest = item_texts items in
      let t = strip (py.str item) in if is_empty t then rest else t ∷ rest

  unfoldable pub ensure_list : Option Value → List String
  unfolding item_texts strip is_empty
  ensure_list none = []
  ensure_list (some null) = []
  ensure_list (some (list items)) = item_texts items
  ensure_list (some value) =
      let text_value = strip (py.str value) in if is_empty text_value then [] else text_value ∷ []

  -- a line break and a comma both separate
  unfoldable pub split_csv_values : Option Value → List String
  unfolding text_or_empty strip is_empty stripped_nonempty split_by
  split_csv_values value =
      let text_value = strip (text_or_empty value) in
      if is_empty text_value
      then []
      else stripped_nonempty (split_by (λ c. c == 10 || c == 44) text_value)

  unfoldable pub validate_entsoe_backfill_range : String → String → String → Checked (Unit {0})
  unfolding get_entsoe_backfill_cadence expected_format refuse_if
  validate_entsoe_backfill_range data_item start_value end_value =
      let cadence = get_entsoe_backfill_cadence data_item in
      let format_string = if str_eq cadence "annual" then "%Y" else "%Y_%m" in
      let unreadable =
        refuse
          (data_item <> " expects " <> expected_format cadence <> " values for start and end.") in
      elim (py.strptime start_value format_string) [
        | none ↦ unreadable
        | some start_dt ↦ elim (py.strptime end_value format_string) [
          | none ↦ unreadable
          | some end_dt ↦
              refuse_if (ltb end_dt start_dt) "Backfill end must not be earlier than start."
        ]
      ]
