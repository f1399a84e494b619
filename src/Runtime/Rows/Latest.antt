-- ===== src/Runtime/Rows/Latest.antt =====
-- Which run `get_latest_runs_map` gives for a crawler.
use open_energy_data_server.Common.{
  ℕ, zero, suc, ◌≤◌, String, ◌≡◌, ◌⊎◌, ◌↔◌, refl, ◌∙◌, subst, false, Option, none, some, List, [],
  ◌∷◌, All, arith, str_eq, eq_iff, leb, if◌then◌else◌, Bool-cases, inl, inr,
}
use open_energy_data_server.Common.Dict
use open_energy_data_server.Common.Dict.{Dict}
use open_energy_data_server.Runtime.Rows.{
  RunRecord, selected, insert_desc, order_desc, take, list_runs, latest_loop, get_latest_runs_map,
}

-- the runs with the greater ids first
abbrev Descending : List RunRecord → Type 0
Descending [] = Unit {0}
Descending (x ∷ xs) = All (λ y. y.run_id ≤ x.run_id) xs × Descending xs

below_more :
    (a b : ℕ) (xs : List RunRecord)
    → a ≤ b
    → All (λ y. y.run_id ≤ a) xs
    → All (λ y. y.run_id ≤ b) xs
below_more a b [] h v = tt
below_more a b (x ∷ xs) h v = (omega (arith, h, v.0), below_more a b xs h v.1)

insert_desc_below :
    (b : ℕ) (x : RunRecord) (xs : List RunRecord)
    → x.run_id ≤ b
    → All (λ y. y.run_id ≤ b) xs
    → All (λ y. y.run_id ≤ b) (insert_desc x xs)
unfolding insert_desc
insert_desc_below b x [] h v = (h, tt)
insert_desc_below b x (y ∷ xs) h v = elim (Bool-cases (leb y.run_id x.run_id)) [
  | inl e ↦ rw e (h, v)
  | inr e ↦ rw e (v.0, insert_desc_below b x xs h v.1)
]

insert_desc-Descending :
    (x : RunRecord) (xs : List RunRecord) → Descending xs → Descending (insert_desc x xs)
unfolding insert_desc
insert_desc-Descending x [] v = (tt, tt)
insert_desc-Descending x (y ∷ xs) v = elim (Bool-cases (leb y.run_id x.run_id)) [
  | inl e ↦ rw e ((ground arith, below_more y.run_id x.run_id xs (ground arith) v.0), v)
  | inr e ↦
      rw e (insert_desc_below y.run_id x xs (ground arith) v.0, insert_desc-Descending x xs v.1)
]

order_desc-Descending : (rows : List RunRecord) → Descending (order_desc rows)
unfolding order_desc
order_desc-Descending [] = tt
order_desc-Descending (x ∷ rows) =
    insert_desc-Descending x (order_desc rows) (order_desc-Descending rows)

take-All :
    (b n : ℕ) (xs : List RunRecord)
    → All (λ y. y.run_id ≤ b) xs
    → All (λ y. y.run_id ≤ b) (take n xs)
unfolding take
take-All b zero xs v = tt
take-All b (suc n) [] v = tt
take-All b (suc n) (x ∷ xs) v = (v.0, take-All b n xs v.1)

take-Descending : (n : ℕ) (xs : List RunRecord) → Descending xs → Descending (take n xs)
unfolding take
take-Descending zero xs v = tt
take-Descending (suc n) [] v = tt
take-Descending (suc n) (x ∷ xs) v = (take-All x.run_id n xs v.0, take-Descending n xs v.1)

-- the first run of a crawler
unfoldable first_of : String → List RunRecord → Option RunRecord
first_of name [] = none
first_of name (x ∷ xs) = if str_eq x.crawler_name name then some x else first_of name xs

get-latest_loop :
    (name : String) (latest : Dict RunRecord) (xs : List RunRecord)
    → Dict.get name (latest_loop latest xs)
      ≡ (if Dict.has name latest then Dict.get name latest else first_of name xs)
unfolding latest_loop first_of
get-latest_loop name latest [] = ground (arith, Dict.get_absent name latest)
get-latest_loop name latest (x ∷ xs) = elim (Bool-cases (Dict.has x.crawler_name latest)) [
  | inl e ↦ rw e (ground (arith, e, get-latest_loop name latest xs, eq_iff x.crawler_name name))
  | inr e ↦ rw e (
      ground (
        arith,
        e,
        eq_iff x.crawler_name name,
        get-latest_loop name (Dict.put x.crawler_name x latest) xs,
        Dict.get-put x.crawler_name name x latest,
        Dict.has-put x.crawler_name name x latest,
      ))
]

-- not after another run of the same crawler
abbrev pub IsLatestIn : List RunRecord → RunRecord → Type 0
IsLatestIn rows r = All (λ x. x.crawler_name ≡ r.crawler_name → x.run_id ≤ r.run_id) rows

below_named :
    (r : RunRecord) (xs : List RunRecord) → All (λ y. y.run_id ≤ r.run_id) xs → IsLatestIn xs r
below_named r [] v = tt
below_named r (x ∷ xs) v = ((λ _. v.0), below_named r xs v.1)

first_of-IsLatestIn :
    (name : String) (xs : List RunRecord) (r : RunRecord)
    → Descending xs
    → first_of name xs ≡ some r
    → (r.crawler_name ≡ name) × IsLatestIn xs r
unfolding first_of
first_of-IsLatestIn name [] r v h = absurd (ground arith)
first_of-IsLatestIn name (x ∷ xs) r v h = elim (Bool-cases (str_eq x.crawler_name name)) [
  | inl e ↦
      let same : x ≡ r = ground arith in
      subst (λ z. (z.crawler_name ≡ name) × IsLatestIn (x ∷ xs) z) same
        (ground (arith, eq_iff x.crawler_name name), ((λ _. omega arith), below_named x xs v.0))
  | inr e ↦
      let (named, rest) = first_of-IsLatestIn name xs r v.1 (ground arith) in
      (named, ((λ q. absurd (ground (arith, eq_iff x.crawler_name name))), rest))
]

none_of :
    (name : String) (xs : List RunRecord)
    → first_of name xs ≡ none
    → All (λ x. str_eq x.crawler_name name ≡ false) xs
unfolding first_of
none_of name [] h = tt
none_of name (x ∷ xs) h = (ground arith, none_of name xs (ground arith))

abbrev pub IsAmong : RunRecord → List RunRecord → Type 0
IsAmong r [] = ⊥
IsAmong r (x ∷ xs) = (x ≡ r) ⊎ IsAmong r xs

first_of-IsAmong :
    (name : String) (xs : List RunRecord) (r : RunRecord) → first_of name xs ≡ some r → IsAmong r xs
unfolding first_of
first_of-IsAmong name [] r h = ground arith
first_of-IsAmong name (x ∷ xs) r h = elim (Bool-cases (str_eq x.crawler_name name)) [
  | inl e ↦ inl (ground arith)
  | inr e ↦ inr (first_of-IsAmong name xs r (ground arith))
]

none_back :
    (name : String) (xs : List RunRecord)
    → All (λ x. str_eq x.crawler_name name ≡ false) xs
    → first_of name xs ≡ none
unfolding first_of
none_back name [] v = refl
none_back name (x ∷ xs) v = rw v.0 (none_back name xs v.1)

-- The map of the latest runs holds for a crawler one of the 200 runs listed, the crawler's run with
-- the greatest id of those, and it holds none exactly if none of those is the crawler's.
pub get_latest_runs_map-IsLatestIn :
    (rows : List RunRecord) (name : String)
    → ((r : RunRecord)
        → Dict.get name (get_latest_runs_map rows) ≡ some r
        → IsAmong r (list_runs none 200 rows)
          × (r.crawler_name ≡ name)
          × IsLatestIn (list_runs none 200 rows) r)
      × ((Dict.get name (get_latest_runs_map rows) ≡ none)
          ↔ All (λ x. str_eq x.crawler_name name ≡ false) (list_runs none 200 rows))
unfolding get_latest_runs_map list_runs Dict.has
get_latest_runs_map-IsLatestIn rows name = (
  (λ r h.
      let found : first_of name listed ≡ some r =
        ground (arith, h, get-latest_loop name [] listed) in
      let (named, latest) =
        first_of-IsLatestIn name listed r
          (take-Descending 200 _ (order_desc-Descending (selected none rows))) found in
      (first_of-IsAmong name listed r found, named, latest)),
  (
    (λ h. none_of name listed (ground (arith, h, get-latest_loop name [] listed))),
    λ v. get-latest_loop name [] listed ∙ none_back name listed v,
  ),
)
  where
    listed : List RunRecord
    listed = take 200 (order_desc (selected none rows))
