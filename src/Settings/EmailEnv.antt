-- ===== src/Settings/EmailEnv.antt =====
-- `apply_email_env_overrides` of crawler/common/local_env.py. The environment is an argument: the
-- six variables as `os.getenv(…, "")` returns them, after `load_crawler_dotenv`.
use open_energy_data_server.Common.{
  String, ◌≡◌, refl, Bool, true, false, not, ◌&&◌, Option, none, some, List, [], ◌∷◌, arith, str_eq,
  if◌then◌else◌, inl, inr, Bool-cases, ◌∙◌, sym, eq_refl,
}
use open_energy_data_server.Common.Strip.{is_empty, strip}
use open_energy_data_server.Yaml.{
  Value, null, text, list, dict, Items, nil, cons, Fields, end, get, has, put,
}
use open_energy_data_server.Yaml.Laws.{get-put, get_present, get_missing}
use open_energy_data_server.Settings.Recipients.{env_recipients}

pub record EmailEnv : Type 0 where
  pub toaddrs : String
  pub mailhost : String
  pub fromaddr : String
  pub subject : String
  pub username : String
  pub password : String

-- `not any([…])`
unfoldable pub all_empty : EmailEnv → Bool
unfolding is_empty strip
all_empty e =
    is_empty (strip e.toaddrs)
    && is_empty (strip e.mailhost)
    && is_empty (strip e.fromaddr)
    && is_empty (strip e.subject)
    && is_empty (strip e.username)
    && is_empty (strip e.password)

-- `updated.setdefault(key, {})`
unfoldable pub set_default : String → Fields → Fields
set_default key config = if has key config then config else put key (dict end) config

unfoldable pub text_list : List String → Items
text_list [] = nil
text_list (s ∷ items) = cons (text s) (text_list items)

-- `if value: email_config[key] = value`
unfoldable pub override : String → String → Fields → Fields
unfolding strip is_empty
override key raw email = if is_empty (strip raw) then email else put key (text (strip raw)) email

unfoldable pub override_toaddrs : String → Fields → Fields
unfolding strip is_empty env_recipients text_list
override_toaddrs raw email =
    if is_empty (strip raw)
    then email
    else put "toaddrs" (list (text_list (env_recipients (strip raw)))) email

unfoldable pub override_email : EmailEnv → Fields → Fields
unfolding override override_toaddrs
override_email e email = override "password" e.password (
    override "username" e.username (
      override "subject" e.subject (
        override "fromaddr" e.fromaddr
          (override "mailhost" e.mailhost (override_toaddrs e.toaddrs email)))))

-- `email_config` where it is a mapping, and the fresh mapping that replaces anything else
unfoldable pub dict_or_new : Option Value → Fields
dict_or_new (some (dict fields)) = fields
dict_or_new _ = end

-- from `default_config` on
unfoldable pub override_default : EmailEnv → Fields → Option Value → Fields
unfolding override_email dict_or_new set_default
override_default e updated (some (dict default_config)) =
    put "default"
      (dict (
        put "email"
          (dict (override_email e (dict_or_new (get "email" (set_default "email" default_config)))))
          (set_default "email" default_config)))
      updated
override_default e updated _ = updated

unfoldable pub apply_email_env_overrides : EmailEnv → Fields → Fields
unfolding all_empty override_default set_default
apply_email_env_overrides e config =
    if all_empty e
    then config
    else override_default e (set_default "default" config)
        (get "default" (set_default "default" config))

get-override :
    (k key raw : String) (email : Fields)
    → get k (override key raw email) ≡ (
        if str_eq key k && not (is_empty (strip raw)) then some (text (strip raw)) else get k email)
unfolding override
get-override k key raw email = ground (arith, get-put key k (text (strip raw)) email)

get-set_default_other :
    (k key : String) (config : Fields)
    → str_eq key k ≡ false
    → get k (set_default key config) ≡ get k config
unfolding set_default
get-set_default_other k key config ne = ground (arith, get-put key k (dict end) config)

-- The environment touches no section of the configuration but `default`.
pub apply_email_env_overrides-elsewhere :
    (e : EmailEnv) (k : String) (config : Fields)
    → str_eq "default" k ≡ false
    → get k (apply_email_env_overrides e config) ≡ get k config
unfolding apply_email_env_overrides
apply_email_env_overrides-elsewhere e k config ne = elim (Bool-cases (all_empty e)) [
  | inl f ↦ rw f
  | inr f ↦ rw f (by_default (get "default" (set_default "default" config)))
]
  where
    by_default :
        (d : Option Value)
        → get k (override_default e (set_default "default" config) d) ≡ get k config
    by_default (some (dict d)) =
        get-put "default" k _ (set_default "default" config)
        ∙ rw ne (get-set_default_other k "default" config ne)
    by_default _ = get-set_default_other k "default" config ne

given : String → Option Value
given raw = if is_empty (strip raw) then none else some (text (strip raw))

given_toaddrs : String → Option Value
given_toaddrs raw =
    if is_empty (strip raw) then none else some (list (text_list (env_recipients (strip raw))))

abbrev pub or_else : Option Value → Option Value → Option Value
or_else (some v) old = some v
or_else none old = old

-- the value of one variable, where the key is the variable's
pick : String → String → Option Value → Option Value
pick key k v = if str_eq key k then v else none

-- What the environment says of a key of the e-mail settings.
unfoldable pub setting : EmailEnv → String → Option Value
unfolding given given_toaddrs pick
setting e k = or_else (pick "password" k (given e.password)) (
    or_else (pick "username" k (given e.username)) (
      or_else (pick "subject" k (given e.subject)) (
        or_else (pick "fromaddr" k (given e.fromaddr)) (
          or_else (pick "mailhost" k (given e.mailhost))
            (pick "toaddrs" k (given_toaddrs e.toaddrs))))))

or_else_assoc : (a b c : Option Value) → or_else (or_else a b) c ≡ or_else a (or_else b c)
or_else_assoc (some v) b c = refl
or_else_assoc none b c = refl

get-override-given :
    (k key raw : String) (email : Fields)
    → get k (override key raw email) ≡ or_else (pick key k (given raw)) (get k email)
unfolding given pick
get-override-given k key raw email = ground (arith, get-override k key raw email)

get-override_toaddrs :
    (k raw : String) (email : Fields)
    → get k (override_toaddrs raw email)
      ≡ or_else (pick "toaddrs" k (given_toaddrs raw)) (get k email)
unfolding override_toaddrs given_toaddrs pick
get-override_toaddrs k raw email =
    ground (arith, get-put "toaddrs" k (list (text_list (env_recipients (strip raw)))) email)

get-override_email :
    (e : EmailEnv) (k : String) (email : Fields)
    → get k (override_email e email) ≡ or_else (setting e k) (get k email)
unfolding override_email
get-override_email e k email =
    simp (get-override-given, get-override_toaddrs) (sym (unfold setting in regroup))
  where
    regroup :
        or_else (setting e k) (get k email)
        ≡ or_else (pick "password" k (given e.password)) (
            or_else (pick "username" k (given e.username)) (
              or_else (pick "subject" k (given e.subject)) (
                or_else (pick "fromaddr" k (given e.fromaddr)) (
                  or_else
                    (pick "mailhost" k (given e.mailhost))
                    (or_else (pick "toaddrs" k (given_toaddrs e.toaddrs)) (get k email))))))
    regroup = unfold setting in simp or_else_assoc

-- the value of a key of `default.email`
unfoldable pub email_setting : String → Fields → Option Value
unfolding dict_or_new
email_setting k config = get k (dict_or_new (get "email" (dict_or_new (get "default" config))))

-- no section `default`, or one that is a mapping
unfoldable pub has_usable_default : Option Value → Bool
has_usable_default none = true
has_usable_default (some (dict fields)) = true
has_usable_default (some _) = false

given-none : (raw : String) → is_empty (strip raw) ≡ true → given raw ≡ none
unfolding given
given-none raw h = ground arith

given_toaddrs-none : (raw : String) → is_empty (strip raw) ≡ true → given_toaddrs raw ≡ none
unfolding given_toaddrs
given_toaddrs-none raw h = ground arith

pick-none : (key k : String) → pick key k none ≡ none
unfolding pick
pick-none key k = ground arith

and_parts : (a b : Bool) → a && b ≡ true → (a ≡ true) × (b ≡ true)
and_parts a b h = (ground arith, ground arith)

setting_empty : (e : EmailEnv) (k : String) → all_empty e ≡ true → setting e k ≡ none
unfolding all_empty setting
setting_empty e k h =
    let (h₁, password) = and_parts _ _ h in
    let (h₂, username) = and_parts _ _ h₁ in
    let (h₃, subject) = and_parts _ _ h₂ in
    let (h₄, fromaddr) = and_parts _ _ h₃ in
    let (toaddrs, mailhost) = and_parts _ _ h₄ in
    simp (
      given-none e.password password,
      given-none e.username username,
      given-none e.subject subject,
      given-none e.fromaddr fromaddr,
      given-none e.mailhost mailhost,
      given_toaddrs-none e.toaddrs toaddrs,
      pick-none,
    )

get-set_default :
    (key : String) (config : Fields)
    → get key (set_default key config) ≡ or_else (get key config) (some (dict end))
unfolding set_default
get-set_default key config = elim (Bool-cases (has key config)) [
  | inl h ↦ let (v, e) = get_present key config h in rw h (rw e)
  | inr h ↦ rw (h, get_missing key config h) (get-put key key (dict end) config ∙ rw (eq_refl key))
]

dict_or_new-or_else : (o : Option Value) → dict_or_new (or_else o (some (dict end))) ≡ dict_or_new o
unfolding dict_or_new
dict_or_new-or_else none = refl
dict_or_new-or_else (some v) = refl

usable :
    (o : Option Value)
    → has_usable_default o ≡ true
    → or_else o (some (dict end)) ≡ some (dict (dict_or_new o))
unfolding has_usable_default dict_or_new
usable none h = refl
usable (some (dict fields)) h = refl
usable (some null) h = absurd (ground arith)
usable (some _) h = absurd (ground arith)

-- Where the section `default` can hold settings, each e-mail setting that a variable of the
-- environment gives is the variable's, and every other one stays as configured.
pub apply_email_env_overrides-email :
    (e : EmailEnv) (k : String) (config : Fields)
    → has_usable_default (get "default" config) ≡ true
    → email_setting k (apply_email_env_overrides e config)
      ≡ or_else (setting e k) (email_setting k config)
unfolding apply_email_env_overrides override_default email_setting
apply_email_env_overrides-email e k config h = elim (Bool-cases (all_empty e)) [
  | inl f ↦ rw (f, setting_empty e k f)
  | inr f ↦
      rw (f, get-set_default "default" config, usable (get "default" config) h)
        (rw (get-put "default" "default") (
          unfold dict_or_new in
          rw (get-put "email" "email") (
            get-override_email e k _
            ∙ rw (get-set_default "email" (dict_or_new (get "default" config)))
                (rw (dict_or_new-or_else (get "email" (dict_or_new (get "default" config))))))))
]
