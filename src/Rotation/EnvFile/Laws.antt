-- ===== src/Rotation/EnvFile/Laws.antt =====
-- What `load_env_file` reads from what `render_env_file` wrote.
use Prim.Native.Char.{Char, code}
use text.Mathlib.TextLemmas.{nil-append, cons-append}
use open_energy_data_server.Common.{
  ℕ, ◌≡◌, refl, sym, ◌∙◌, ap, String, Bool, true, false, ◌&&◌, ◌||◌, some, ◌==◌, leb, arith,
}
use open_energy_data_server.Common.Strip.{is_space, strip, lstrip, rstrip, is_empty}
use open_energy_data_server.Common.Text.{◌<>◌}
use open_energy_data_server.Common.Dict
use open_energy_data_server.Common.Dict.{Dict, get-put}
use open_energy_data_server.Rotation.EnvFile.{
  split_at_equals, is_comment, store_line, load_line, is_letter, are_word, is_identifier,
}

abbrev is_word : ℕ → Bool
is_word c = is_letter c || (leb b'0' c && leb c b'9')

word-no_space : (c : ℕ) → is_word c ≡ true → is_space c ≡ false
unfolding is_letter is_space
word-no_space c h = ground arith

word-no_equals : (c : ℕ) → is_word c ≡ true → (c == b'=') ≡ false
unfolding is_letter
word-no_equals c h = ground arith

letter-no_hash : (c : ℕ) → is_letter c ≡ true → (c == b'#') ≡ false
unfolding is_letter
letter-no_hash c h = ground arith

abbrev equals : Char
equals = "="

equals_first : (v : String) → "=" <> v ≡ String.◌∷◌ equals v
equals_first v = cons-append equals "" v ∙ ap (String.◌∷◌ equals) (nil-append v)

split_at_equals-word :
    (s v : String) → are_word s ≡ true → split_at_equals (s <> "=" <> v) ≡ some (s, v)
unfolding split_at_equals are_word
split_at_equals-word String.[] v h = rw (nil-append ("=" <> v), equals_first v) refl
split_at_equals-word (String.◌∷◌ c s) v h =
    rw (cons-append c s ("=" <> v))
      (ground (arith, word-no_equals (code c), split_at_equals-word s v))

rstrip-word : (s : String) → are_word s ≡ true → rstrip s ≡ s
unfolding rstrip are_word
rstrip-word String.[] h = refl
rstrip-word (String.◌∷◌ c s) h = ground (arith, word-no_space (code c), rstrip-word s)

strip-identifier : (k : String) → is_identifier k ≡ true → strip k ≡ k
unfolding strip lstrip rstrip is_identifier are_word
strip-identifier String.[] h = refl
strip-identifier (String.◌∷◌ c s) h = ground (arith, word-no_space (code c), rstrip-word s)

word : (s : String) → is_identifier s ≡ true → are_word s ≡ true
unfolding is_identifier are_word
word String.[] h = refl
word (String.◌∷◌ c s) h = ground arith

stored :
    (k v : String) (values : Dict String)
    → is_identifier k ≡ true
    → store_line (some (k, v)) values ≡ Dict.put k v values
unfolding store_line is_identifier is_empty
stored String.[] v values h = absurd (ground arith)
stored (String.◌∷◌ c s) v values h = ground (arith, strip-identifier (String.◌∷◌ c s) h)

shown :
    (c : Char) (t : String)
    → is_letter (code c) ≡ true
    → (is_empty (strip (String.◌∷◌ c t)) ≡ false) × (is_comment (strip (String.◌∷◌ c t)) ≡ false)
unfolding strip lstrip rstrip is_empty is_comment
shown c t h = (
  ground (arith, word-no_space (code c)),
  ground (arith, word-no_space (code c), letter-no_hash (code c)),
)

load_line-split :
    (c : Char) (t : String) (values : Dict String)
    → is_letter (code c) ≡ true
    → load_line (String.◌∷◌ c t) values ≡ store_line (split_at_equals (String.◌∷◌ c t)) values
unfolding load_line
load_line-split c t values h =
    let (nonempty, no_comment) = shown c t h in rw (nonempty, no_comment) refl

pub load_line-entry :
    (k v : String) (values : Dict String)
    → is_identifier k ≡ true
    → load_line (k <> "=" <> v) values ≡ Dict.put k v values
unfolding store_line is_identifier is_empty
load_line-entry String.[] v values h = absurd (ground arith)
load_line-entry (String.◌∷◌ c s) v values h =
    ap (λ t. load_line t values) (cons-append c s ("=" <> v))
    ∙ load_line-split c (s <> "=" <> v) values (ground arith)
    ∙ ap (λ t. store_line (split_at_equals t) values) (sym (cons-append c s ("=" <> v)))
    ∙ ap (λ o. store_line o values)
        (split_at_equals-word (String.◌∷◌ c s) v (word (String.◌∷◌ c s) h))
    ∙ stored (String.◌∷◌ c s) v values h
