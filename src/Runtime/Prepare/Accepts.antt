-- ===== src/Runtime/Prepare/Accepts.antt =====
-- What a prepared action is to be, and what the readers of form values refuse.
use open_energy_data_server.Common.{
  ℕ, ◌≤◌, String, ◌≡◌, ◌≢◌, refl, subst, Bool, true, false, not, Option, some, List, [], ◌∷◌, arith,
  eq_iff, get_elem?, All, Bool-cases, Option-cases, inl, inr,
}
use open_energy_data_server.Common.Sets.{contains}
use open_energy_data_server.Common.Strip.{strip, is_empty}
use open_energy_data_server.Yaml.{Value, int, Fields}
use open_energy_data_server.Runtime.Action.{
  PreparedAction, Executor, run_default, run_entsoe_backfill, run_gapfill_backfill,
  run_price_forecast,
}
use open_energy_data_server.Runtime.Definitions.{CrawlerOverview, builtin_gapfill_tables}
use open_energy_data_server.Runtime.DataItems.{
  fms_active_data_items, item_names, get_entsoe_backfill_cadence,
}
use open_energy_data_server.Runtime.Inputs.{
  Checked, ok, refused, refuse_if, ◌>>=◌, ◌>>◌, Python, parse_int, bounded, at_least, to_number,
  text_or_empty, refuse_names, sorted_set, insert_sorted, not_in,
}
use open_energy_data_server.Runtime.Prepared.{update, index_of, default_run, helper_run}

unfoldable pub needs_crawler : Executor → Bool
needs_crawler run_default = true
needs_crawler (run_entsoe_backfill _) = true
needs_crawler (run_gapfill_backfill _) = false
needs_crawler (run_price_forecast _) = false

-- the arguments that the helper of the executor takes
abbrev pub Accepts : String → Executor → Type 0
Accepts crawler_name run_default = Unit {0}
Accepts crawler_name (run_entsoe_backfill p) =
    (get_elem? (item_names fms_active_data_items) p.target_files_dir_index ≡ some p.data_item)
    × (p.cadence ≡ get_entsoe_backfill_cadence p.data_item)
Accepts crawler_name (run_gapfill_backfill p) =
    (p.job ≡ crawler_name)
    × All (λ t. contains t (builtin_gapfill_tables crawler_name) ≡ true) p.tables
Accepts crawler_name (run_price_forecast p) =
    (14 ≤ p.train_days)
    × (p.train_days ≤ 365)
    × (p.backtest_days ≤ 60)
    × (contains p.run_mode ("forecast" ∷ "self_test" ∷ []) ≡ true)
    × (contains p.model_backend ("auto" ∷ "upstream" ∷ "ridge" ∷ []) ≡ true)

pub record IsPrepared (overview : CrawlerOverview) (action_id : String) (p : PreparedAction)
    : Type 0 where
  pub crawler : p.crawler_name ≡ overview.crawler_name
  pub action : p.action_id ≡ action_id
  pub merged : p.effective_config ≡ update overview.effective_config p.config_overrides
  pub crawler_given : p.requires_crawler ≡ needs_crawler p.executor
  pub accepted : Accepts overview.crawler_name p.executor

pub bind_ok {ℓ κ} :
    {A : Type ℓ} {B : Type κ} (m : Checked A) (f : A → Checked B) (b : B)
    → (m >>= f) ≡ ok b
    → (a : A) × (m ≡ ok a) × (f a ≡ ok b)
unfolding ◌>>=◌
bind_ok (ok a) f b h = (a, refl, h)
bind_ok (refused errors) f b h = absurd (ground arith)

pub then_ok {ℓ κ} :
    {A : Type ℓ} {B : Type κ} (m : Checked A) (n : Checked B) (b : B)
    → (m >> n) ≡ ok b
    → (a : A) × (m ≡ ok a) × (n ≡ ok b)
unfolding ◌>>◌
then_ok (ok a) n b h = (a, refl, h)
then_ok (refused errors) n b h = absurd (ground arith)

pub negated : {b : Bool} → not b ≡ false → b ≡ true
negated h = ground arith

pub refuse_if_ok :
    (test : Bool) (m : String) (u : Unit {0}) → refuse_if test m ≡ ok u → test ≡ false
unfolding refuse_if
refuse_if_ok true m u h = absurd (ground arith)
refuse_if_ok false m u h = refl

pub ok_is {ℓ} : {A : Type ℓ} (P : A → Type 0) (a b : A) → ok a ≡ ok b → P a → P b
ok_is P a b h x = subst P (ground arith) x

pub default_run-IsPrepared :
    (overview : CrawlerOverview) (action_id label description : String) (overrides payload : Fields)
    → IsPrepared overview action_id
        (default_run overview action_id label description overrides payload)
unfolding default_run needs_crawler
default_run-IsPrepared overview action_id label description overrides payload = record {
  crawler = refl;
  action = refl;
  merged = refl;
  crawler_given = refl;
  accepted = tt;
}

pub helper_run-IsPrepared :
    (overview : CrawlerOverview) (action_id label description : String) (payload : Fields)
    (executor : Executor)
    → Accepts overview.crawler_name executor
    → IsPrepared overview action_id
        (helper_run overview action_id label description payload executor (needs_crawler executor))
unfolding helper_run update
helper_run-IsPrepared overview action_id label description payload executor h = record {
  crawler = refl;
  action = refl;
  merged = refl;
  crawler_given = refl;
  accepted = h;
}

pub index_of_found :
    (x : String) (xs : List String) → contains x xs ≡ true → get_elem? xs (index_of x xs) ≡ some x
unfolding contains index_of
index_of_found x [] h = absurd (ground arith)
index_of_found x (y ∷ xs) h = ground (arith, eq_iff y x, eq_iff x y, index_of_found x xs)

pub refuse_names_ok :
    (what : String) (xs : List String) (u : Unit {0}) → refuse_names what xs ≡ ok u → xs ≡ []
unfolding refuse_names
refuse_names_ok what [] u h = refl
refuse_names_ok what (x ∷ xs) u h = absurd (ground arith)

pub insert_sorted_filled : (x : String) (ys : List String) → insert_sorted x ys ≢ []
unfolding insert_sorted
insert_sorted_filled x [] h = absurd (ground arith)
insert_sorted_filled x (y ∷ ys) h = absurd (ground arith)

pub sorted_set_empty : (xs : List String) → sorted_set xs ≡ [] → xs ≡ []
unfolding sorted_set
sorted_set_empty [] h = refl
sorted_set_empty (x ∷ xs) h = absurd (insert_sorted_filled x (sorted_set xs) h)

pub not_in_empty :
    (valid xs : List String) → not_in valid xs ≡ [] → All (λ t. contains t valid ≡ true) xs
unfolding not_in
not_in_empty valid [] h = tt
not_in_empty valid (x ∷ xs) h = (ground arith, not_in_empty valid xs (ground arith))

-- No message names an item only if all are among the valid ones.
pub none_refused :
    (valid xs : List String) (what : String) (u : Unit {0})
    → refuse_names what (sorted_set (not_in valid xs)) ≡ ok u
    → All (λ t. contains t valid ≡ true) xs
none_refused valid xs what u h =
    not_in_empty valid xs (sorted_set_empty (not_in valid xs) (refuse_names_ok what _ u h))

pub bounded_bounds :
    (label : String) (minimum maximum n : ℕ) (parsed : Value)
    → bounded label minimum maximum parsed ≡ ok n
    → (minimum ≤ n) × (n ≤ maximum)
unfolding bounded at_least to_number refuse_if ◌>>◌
bounded_bounds label minimum maximum n (int m) h = ground arith
bounded_bounds label minimum maximum n _ h = absurd (ground arith)

pub parse_int_bounds :
    (py : Python) (v : Option Value) (label : String) (minimum maximum n : ℕ)
    → parse_int py v label minimum maximum ≡ ok n
    → (minimum ≤ n) × (n ≤ maximum)
unfolding parse_int
parse_int_bounds py v label minimum maximum n h =
    elim (Bool-cases (is_empty (strip (text_or_empty py v)))) [
      | inl e ↦ absurd (ground arith)
      | inr e ↦ elim (Option-cases (py.int_of (strip (text_or_empty py v)))) [
        | inl q ↦ absurd (ground arith)
        | inr (m, q) ↦ bounded_bounds label minimum maximum n m (ground (arith, h))
      ]
    ]
