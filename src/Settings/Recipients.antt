-- ===== src/Settings/Recipients.antt =====
-- The three parsers of e-mail recipients: `_email_recipients` of crawler/common/base_crawler.py, the
-- one in `apply_email_env_overrides` of crawler/common/local_env.py, and `_parse_recipients` of
-- playbooks/callback_plugins/oeds_mail.py.
use Prim.Native.Char.{Char, code}
use open_energy_data_server.Common.{
  ℕ, String, ◌≡◌, refl, ◌∙◌, ap, Bool, ◌||◌, List, [], ◌∷◌, arith, ◌==◌, if◌then◌else◌, All,
  Bool-cases, inl, inr, ◌≢◌,
}
use open_energy_data_server.Common.Strip.{
  split_by, stripped_nonempty, IsToken, stripped_nonempty-IsToken, Agree, split_by-Agree,
}
use open_energy_data_server.Yaml.{Value, Items, nil, cons, text, list}

abbrev comma : Char
comma = ","

unfoldable pub is_comma : ℕ → Bool
is_comma c = c == b','

-- the class `[,\n;]` of both regular expressions
unfoldable pub is_separator : ℕ → Bool
is_separator c = c == b',' || (c == 10 || c == b';')

-- `toaddrs.replace(";", ",")`
unfoldable pub semicolons_to_commas : String → String
semicolons_to_commas String.[] = ""
semicolons_to_commas (String.◌∷◌ c s) =
    String.◌∷◌ (if code c == b';' then comma else c) (semicolons_to_commas s)

-- `_email_recipients` of a text
unfoldable pub recipients_of_text : String → List String
unfolding is_comma semicolons_to_commas split_by stripped_nonempty
recipients_of_text toaddrs = stripped_nonempty (split_by is_comma (semicolons_to_commas toaddrs))

unfoldable pub text_items : (Value → String) → Items → List String
text_items str nil = []
text_items str (cons item items) = str item ∷ text_items str items

-- `_email_recipients`, with Python's `str` of an item as an argument
unfoldable pub email_recipients : (Value → String) → Value → List String
unfolding recipients_of_text text_items stripped_nonempty
email_recipients str (text toaddrs) = recipients_of_text toaddrs
email_recipients str (list items) = stripped_nonempty (text_items str items)
email_recipients str _ = []

-- `re.split(r"[,\n;]+", …)` with the empty parts dropped; a run of separators splits like one, since
-- the parts between them are empty
unfoldable pub env_recipients : String → List String
unfolding is_separator split_by stripped_nonempty
env_recipients raw = stripped_nonempty (split_by is_separator raw)

-- Every recipient that a text or a list of the configuration gives has a character in it and no
-- space at its ends.
pub email_recipients-IsToken :
    (str : Value → String) (v : Value) → All IsToken (email_recipients str v)
unfolding email_recipients
email_recipients-IsToken str (text s) =
    stripped_nonempty-IsToken (split_by is_comma (semicolons_to_commas s))
email_recipients-IsToken str (list items) = stripped_nonempty-IsToken (text_items str items)
email_recipients-IsToken str _ = tt

abbrev is_comma_or_semicolon : ℕ → Bool
is_comma_or_semicolon c = c == b',' || c == b';'

split_replaced :
    (s : String) → split_by is_comma (semicolons_to_commas s) ≡ split_by is_comma_or_semicolon s
unfolding split_by semicolons_to_commas is_comma
split_replaced String.[] = refl
split_replaced (String.◌∷◌ c s) = elim (Bool-cases (code c == b';')) [
  | inl e ↦ rw (e, split_replaced s) (ground arith)
  | inr e ↦ rw (e, split_replaced s) (ground arith)
]

-- A text without a line feed.
abbrev pub OneLine : String → Type 0
OneLine String.[] = Unit {0}
OneLine (String.◌∷◌ c s) = (code c ≢ 10) × OneLine s

tests-Agree : (s : String) → OneLine s → Agree is_comma_or_semicolon is_separator s
unfolding is_separator
tests-Agree String.[] h = tt
tests-Agree (String.◌∷◌ c s) h = (ground arith, tests-Agree s h.1)

-- On a text without a line feed the recipients of the configuration file and those of the
-- environment variable are the same.
pub recipients_agree : (s : String) → OneLine s → recipients_of_text s ≡ env_recipients s
unfolding recipients_of_text env_recipients
recipients_agree s h =
    ap stripped_nonempty
      (split_replaced s ∙ split_by-Agree is_comma_or_semicolon is_separator s (tests-Agree s h))
