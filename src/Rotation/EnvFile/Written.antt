-- ===== src/Rotation/EnvFile/Written.antt =====
-- A rendered environment file as a text, and loading it again.
use Prim.Native.Char.{Char, code}
use text.Mathlib.TextLemmas.{nil-append, cons-append, append-nil, append_assoc}
use open_energy_data_server.Common.{
  ℕ, ◌≡◌, refl, sym, ◌∙◌, ap, subst, String, Bool, true, false, not, ◌&&◌, Option, none, some, List,
  [], ◌∷◌, ◌==◌, leb, arith, All, All-append, Bool-cases, Option-cases, inl, inr,
}
use open_energy_data_server.Common.Strip.{strip, lstrip, rstrip, is_empty, cons_first}
use open_energy_data_server.Common.Text.{◌<>◌}
use open_energy_data_server.Common.Sets.{contains}
use open_energy_data_server.Common.Dict
use open_energy_data_server.Common.Dict.{Dict}
use open_energy_data_server.Rotation.EnvFile.{
  newline, is_line_break, starts_with_newline, splitlines, join_lines, rstrip_newlines, is_letter,
  are_word, is_identifier, load_line, load_lines, load_env_file, env_line_key, render_line,
  render_lines, updated_keys, missing_lines, render_env_lines, render_env_file,
}
use open_energy_data_server.Rotation.EnvFile.RoundTrip.{
  AreUpdates, env_key-identifier, get-rendered_env_lines,
}

-- The text has no character that ends a line.
unfoldable pub no_breaks : String → Bool
no_breaks String.[] = true
no_breaks (String.◌∷◌ c s) = not (is_line_break (code c)) && no_breaks s

AreLines : List String → Type 0
AreLines lines = All (λ line. no_breaks line ≡ true) lines

abbrev newline_char : Char
newline_char = "\n"

newline_first : (t : String) → newline <> t ≡ String.◌∷◌ newline_char t
newline_first t = cons-append newline_char "" t ∙ ap (String.◌∷◌ newline_char) (nil-append t)

split_line : (x t : String) → no_breaks x ≡ true → splitlines (x <> newline <> t) ≡ x ∷ splitlines t
unfolding splitlines no_breaks cons_first is_line_break
split_line String.[] t h = rw (nil-append (newline <> t), newline_first t) refl
split_line (String.◌∷◌ c s) t h =
    rw (cons-append c s (newline <> t)) (ground (arith, split_line s t))

split_last : (x : String) → no_breaks x ≡ true → splitlines (x <> newline) ≡ x ∷ []
unfolding splitlines
split_last x h = subst (λ t. splitlines (x <> t) ≡ x ∷ []) (append-nil newline) (split_line x "" h)

kept_whole : (x : String) → no_breaks x ≡ true → rstrip_newlines x ≡ x
unfolding rstrip_newlines no_breaks is_line_break
kept_whole String.[] h = refl
kept_whole (String.◌∷◌ c s) h = ground (arith, kept_whole s)

kept_tail :
    (x s : String)
    → no_breaks x ≡ true
    → is_empty (rstrip_newlines s) ≡ false
    → rstrip_newlines (x <> s) ≡ x <> rstrip_newlines s
unfolding rstrip_newlines no_breaks is_line_break
kept_tail String.[] s h f = rw (nil-append s, nil-append (rstrip_newlines s)) refl
kept_tail (String.◌∷◌ c x) s h f =
    rw (cons-append c x s, cons-append c x (rstrip_newlines s)) (ground (arith, kept_tail x s))

empty_is : (s : String) → is_empty s ≡ true → s ≡ ""
unfolding is_empty
empty_is String.[] h = refl
empty_is (String.◌∷◌ c s) h = absurd (ground arith)

dropped_tail :
    (x s : String)
    → no_breaks x ≡ true
    → is_empty (rstrip_newlines s) ≡ true
    → rstrip_newlines (x <> s) ≡ x
unfolding rstrip_newlines no_breaks is_line_break
dropped_tail String.[] s h f = rw (nil-append s) (empty_is (rstrip_newlines s) f)
dropped_tail (String.◌∷◌ c x) s h f = rw (cons-append c x s) (ground (arith, dropped_tail x s))

blank_tail :
    (s : String) → is_empty (rstrip_newlines s) ≡ true → rstrip_newlines (newline <> s) ≡ ""
unfolding rstrip_newlines
blank_tail s h = rw (newline_first s) (rw h refl)

full_tail :
    (s : String)
    → is_empty (rstrip_newlines s) ≡ false
    → rstrip_newlines (newline <> s) ≡ newline <> rstrip_newlines s
unfolding rstrip_newlines
full_tail s h = rw (newline_first s, newline_first (rstrip_newlines s)) (rw h refl)

newline_full : (t : String) → is_empty (newline <> t) ≡ false
unfolding is_empty
newline_full t = rw (newline_first t) refl

blank_line : (values : Dict String) → load_line "" values ≡ values
unfolding load_line strip lstrip rstrip is_empty
blank_line values = refl

abbrev load_text : String → Dict String → Dict String
load_text t values = load_lines (splitlines (t <> newline)) values

load_one :
    (x : String) (values : Dict String)
    → no_breaks x ≡ true
    → load_text x values ≡ load_line x values
unfolding load_lines
load_one x values h = ap (λ lines. load_lines lines values) (split_last x h)

-- Joining, stripping and splitting lines again loads what the lines load: what goes is blank.
load-written :
    (lines : List String) (values : Dict String)
    → AreLines lines
    → load_text (rstrip_newlines (join_lines lines)) values ≡ load_lines lines values
unfolding AreLines join_lines rstrip_newlines load_lines no_breaks is_empty
load-written [] values v = load_one "" values refl ∙ blank_line values
load-written (x ∷ []) values v = rw (kept_whole x v.0) (load_one x values v.0)
load-written (x ∷ y ∷ lines) values v = elim (Bool-cases (is_empty (rstrip_newlines after))) [
  | inl e ↦
      let gone : load_lines (y ∷ lines) (load_line x values) ≡ load_line x values =
        sym (load-written (y ∷ lines) (load_line x values) v.1)
        ∙ ap (λ t. load_text t (load_line x values)) (empty_is (rstrip_newlines after) e)
        ∙ load_one "" (load_line x values) refl
        ∙ blank_line (load_line x values) in
      ap (λ t. load_text t values)
        (dropped_tail x (newline <> after) v.0 (ap is_empty (blank_tail after e)))
      ∙ load_one x values v.0
      ∙ sym gone
  | inr e ↦
      ap (λ t. load_text t values)
        (kept_tail x (newline <> after) v.0
            (ap is_empty (full_tail after e) ∙ newline_full (rstrip_newlines after))
          ∙ ap (λ t. x <> t) (full_tail after e))
      ∙ ap (λ t. load_lines (splitlines t) values)
          (append_assoc x (newline <> rstrip_newlines after) newline
            ∙ ap (λ t. x <> t) (append_assoc newline (rstrip_newlines after) newline))
      ∙ ap (λ ls. load_lines ls values) (split_line x (rstrip_newlines after <> newline) v.0)
      ∙ load-written (y ∷ lines) (load_line x values) v.1
]
  where
    after : String
    after = join_lines (y ∷ lines)

splitlines-AreLines : (t : String) → AreLines (splitlines t)
unfolding AreLines splitlines no_breaks cons_first
splitlines-AreLines String.[] = tt
splitlines-AreLines (String.◌∷◌ c s) = elim (Bool-cases (is_line_break (code c))) [
  | inl e ↦ rw e (elim (Bool-cases (code c == 13 && starts_with_newline s)) [
    | inl f ↦ rw f (splitlines-AreLines s)
    | inr f ↦ rw f (refl, splitlines-AreLines s)
  ])
  | inr e ↦ rw e (first_part (splitlines s) e (splitlines-AreLines s))
]
  where
    first_part :
        (rest : List String)
        → is_line_break (code c) ≡ false
        → AreLines rest
        → AreLines (cons_first c rest)
    first_part [] e v = (ground (arith, e), tt)
    first_part (p ∷ ps) e v = (ground (arith, e, v.0), v.1)

no_breaks-append :
    (s t : String) → no_breaks s ≡ true → no_breaks t ≡ true → no_breaks (s <> t) ≡ true
unfolding no_breaks
no_breaks-append String.[] t h k = rw (nil-append t) k
no_breaks-append (String.◌∷◌ c s) t h k =
    rw (cons-append c s t) (ground (arith, no_breaks-append s t))

letter-no_break : (c : ℕ) → is_letter c ≡ true → is_line_break c ≡ false
unfolding is_letter is_line_break
letter-no_break c h = ground arith

digit-no_break : (c : ℕ) → (leb b'0' c && leb c b'9') ≡ true → is_line_break c ≡ false
unfolding is_line_break
digit-no_break c h = ground arith

word-no_breaks : (s : String) → are_word s ≡ true → no_breaks s ≡ true
unfolding are_word no_breaks
word-no_breaks String.[] h = refl
word-no_breaks (String.◌∷◌ c s) h =
    ground (arith, letter-no_break (code c), digit-no_break (code c), word-no_breaks s)

identifier-no_breaks : (s : String) → is_identifier s ≡ true → no_breaks s ≡ true
unfolding is_identifier no_breaks
identifier-no_breaks String.[] h = refl
identifier-no_breaks (String.◌∷◌ c s) h = ground (arith, letter-no_break (code c), word-no_breaks s)

entry-no_breaks :
    (k v : String) → is_identifier k ≡ true → no_breaks v ≡ true → no_breaks (k <> "=" <> v) ≡ true
unfolding no_breaks is_line_break
entry-no_breaks k v h n =
    no_breaks-append k ("=" <> v) (identifier-no_breaks k h) (no_breaks-append "=" v refl n)

-- No value of the updates has a line break.
abbrev pub AreOneLine : Dict String → Type 0
AreOneLine [] = Unit {0}
AreOneLine ((key, value) ∷ updates) = (no_breaks value ≡ true) × AreOneLine updates

value-no_breaks :
    (k v : String) (updates : Dict String)
    → AreOneLine updates
    → Dict.get k updates ≡ some v
    → no_breaks v ≡ true
unfolding Dict.get
value-no_breaks k v [] o h = absurd (ground arith)
value-no_breaks k v ((key, value) ∷ updates) o h =
    ground (arith, o.0, value-no_breaks k v updates o.1)

render_line-no_breaks :
    (updates : Dict String) (line : String)
    → AreOneLine updates
    → no_breaks line ≡ true
    → no_breaks (render_line updates line) ≡ true
unfolding render_line
render_line-no_breaks updates line o h = by_key (env_line_key line) refl
  where
    by_key :
        (k : Option String) → env_line_key line ≡ k → no_breaks (render_line updates line) ≡ true
    by_key none q = rw (q, render_line) h
    by_key (some key) q = elim (Option-cases (Dict.get key updates)) [
      | inl e ↦ rw (q, render_line) (rw e h)
      | inr (v, e) ↦
          rw (q, render_line)
            (rw e (
              entry-no_breaks key v (env_key-identifier line key q)
                (value-no_breaks key v updates o e)))
    ]

render_lines-AreLines :
    (updates : Dict String) (lines : List String)
    → AreOneLine updates
    → AreLines lines
    → AreLines (render_lines updates lines)
unfolding AreLines render_lines
render_lines-AreLines updates [] o v = tt
render_lines-AreLines updates (line ∷ lines) o v =
    (render_line-no_breaks updates line o v.0, render_lines-AreLines updates lines o v.1)

missing_lines-AreLines :
    (updated : List String) (updates : Dict String)
    → AreUpdates updates
    → AreOneLine updates
    → AreLines (missing_lines updated updates)
unfolding AreLines missing_lines
missing_lines-AreLines updated [] u o = tt
missing_lines-AreLines updated ((key, value) ∷ updates) u o =
    elim (Bool-cases (contains key updated)) [
      | inl e ↦ rw e (missing_lines-AreLines updated updates u.2 o.1)
      | inr e ↦
          rw e (entry-no_breaks key value u.0 o.0, missing_lines-AreLines updated updates u.2 o.1)
    ]

-- Loading a rendered environment file gives every key of the updates its new value, whatever the
-- text of the file was before, where the keys of the updates are distinct and such as a line can
-- assign, and no value of them has a line break.
pub get-load_env_file :
    (k v original_text : String) (updates : Dict String)
    → AreUpdates updates
    → AreOneLine updates
    → Dict.get k updates ≡ some v
    → Dict.get k (load_env_file (render_env_file original_text updates)) ≡ some v
unfolding load_env_file render_env_file render_env_lines AreLines
get-load_env_file k v original_text updates u o held =
    let lines = splitlines original_text in
    ap (Dict.get k) (
      load-written (render_env_lines lines updates) [] (
        All-append (λ line. no_breaks line ≡ true) (render_lines updates lines)
          (missing_lines (updated_keys updates lines) updates)
          (render_lines-AreLines updates lines o (splitlines-AreLines original_text))
          (missing_lines-AreLines (updated_keys updates lines) updates u o)))
    ∙ get-rendered_env_lines k v lines updates u held
