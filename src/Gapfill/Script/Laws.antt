-- ===== src/Gapfill/Script/Laws.antt =====
-- The tables that the script reads from the command of a prepared backfill.
use Prim.Native.Char.{Char, code}
use text.Mathlib.TextLemmas.{nil-append, cons-append}
use open_energy_data_server.Common.{
  ◌≡◌, refl, ◌∙◌, ap, String, Bool, true, false, not, ◌&&◌, List, [], ◌∷◌, arith, All, str_eq,
  eq_iff, Bool-cases, inl, inr,
}
use open_energy_data_server.Common.Strip.{
  strip, lstrip, rstrip, is_space, is_empty, cons_first, split_by, stripped_nonempty,
}
use open_energy_data_server.Common.Text.{◌<>◌}
use open_energy_data_server.Runtime.Action.{GapfillPayload, join_comma, gapfill_command}
use open_energy_data_server.Gapfill.Script.{
  option_value, arguments_of, is_comma, split_tables, selected_names, script_tables,
}

unfoldable no_comma : String → Bool
no_comma String.[] = true
no_comma (String.◌∷◌ c s) = not (is_comma (code c)) && no_comma s

-- The text is read back as it is from a list with commas.
unfoldable pub is_table_name : String → Bool
unfolding no_comma strip lstrip rstrip is_space is_empty
is_table_name t = no_comma t && (not (is_empty t) && str_eq (strip t) t)

abbrev comma_char : Char
comma_char = ","

comma_first : (t : String) → "," <> t ≡ String.◌∷◌ comma_char t
comma_first t = cons-append comma_char "" t ∙ ap (String.◌∷◌ comma_char) (nil-append t)

split_one : (x : String) → no_comma x ≡ true → split_by is_comma x ≡ x ∷ []
unfolding split_by no_comma cons_first
split_one String.[] h = refl
split_one (String.◌∷◌ c s) h = ground (arith, split_one s)

split_more :
    (x t : String) → no_comma x ≡ true → split_by is_comma (x <> "," <> t) ≡ x ∷ split_by is_comma t
unfolding split_by no_comma cons_first
split_more String.[] t h = rw (nil-append ("," <> t), comma_first t) refl
split_more (String.◌∷◌ c s) t h = rw (cons-append c s ("," <> t)) (ground (arith, split_more s t))

keeps_name :
    (x : String) (parts : List String)
    → is_table_name x ≡ true
    → stripped_nonempty (x ∷ parts) ≡ x ∷ stripped_nonempty parts
unfolding stripped_nonempty is_table_name
keeps_name x parts h =
    let same : strip x ≡ x = ground (arith, eq_iff (strip x) x) in rw same (ground arith)

no_comma_in : (x : String) → is_table_name x ≡ true → no_comma x ≡ true
unfolding is_table_name
no_comma_in x h = ground arith

split_joined :
    (x : String) (xs : List String)
    → All (λ t. is_table_name t ≡ true) (x ∷ xs)
    → stripped_nonempty (split_by is_comma (join_comma (x ∷ xs))) ≡ x ∷ xs
unfolding join_comma stripped_nonempty
split_joined x [] v =
    ap stripped_nonempty (split_one x (no_comma_in x v.0)) ∙ keeps_name x [] v.0 ∙ refl
split_joined x (y ∷ ys) v =
    ap stripped_nonempty (split_more x (join_comma (y ∷ ys)) (no_comma_in x v.0))
    ∙ keeps_name x (split_by is_comma (join_comma (y ∷ ys))) v.0
    ∙ ap (λ ts. x ∷ ts) (split_joined y ys v.1)

append_full : (x t : String) → is_empty x ≡ false → is_empty (x <> t) ≡ false
unfolding is_empty
append_full String.[] t h = absurd (ground arith)
append_full (String.◌∷◌ c x) t h = rw (cons-append c x t) refl

joined_full :
    (x : String) (xs : List String)
    → is_table_name x ≡ true
    → is_empty (join_comma (x ∷ xs)) ≡ false
unfolding join_comma is_table_name
joined_full x [] h = ground arith
joined_full x (y ∷ ys) h = append_full x _ (ground arith)

-- Where a backfill carries tables, the script reads exactly those from its command.
pub script_tables_given :
    (p : GapfillPayload) (x : String) (xs configured : List String)
    → p.tables ≡ x ∷ xs
    → All (λ t. is_table_name t ≡ true) (x ∷ xs)
    → script_tables (gapfill_command p) configured ≡ x ∷ xs
unfolding script_tables gapfill_command option_value arguments_of split_tables selected_names
script_tables_given p x xs configured e v = elim (Bool-cases (is_empty p.end_value)) [
  | inl f ↦ rw f (rw e (rw (joined_full x xs v.0) (split_joined x xs v)))
  | inr f ↦ rw f (rw e (rw (joined_full x xs v.0) (split_joined x xs v)))
]
