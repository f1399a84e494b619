-- ===== src/Yaml/Laws.antt =====
-- How reads and writes of a mapping meet.
use open_energy_data_server.Common.{
  String, ◌≡◌, refl, true, false, none, some, inl, inr, arith, str_eq, eq_iff, Bool-cases,
  if◌then◌else◌,
}
use open_energy_data_server.Yaml.{Value, Fields, end, field, get, has, put, without, IsUnique}

pub get-put :
    (k j : String) (v : Value) (fs : Fields)
    → get j (put k v fs) ≡ (if str_eq k j then some v else get j fs)
unfolding get put
get-put k j v end = refl
get-put k j v (field i w fs) = ground (arith, eq_iff k j, eq_iff i k, eq_iff i j, get-put k j v fs)

pub has-put :
    (k j : String) (v : Value) (fs : Fields)
    → has j (put k v fs) ≡ (if str_eq k j then true else has j fs)
unfolding has put
has-put k j v end = refl
has-put k j v (field i w fs) = ground (arith, eq_iff k j, eq_iff i k, eq_iff i j, has-put k j v fs)

pub get-without :
    (k j : String) (fs : Fields) → get j (without k fs) ≡ (if str_eq k j then none else get j fs)
unfolding get without
get-without k j end = ground arith
get-without k j (field i w fs) =
    ground (arith, eq_iff k j, eq_iff i k, eq_iff i j, get-without k j fs)

pub has-without :
    (k j : String) (fs : Fields) → has j (without k fs) ≡ (if str_eq k j then false else has j fs)
unfolding has without
has-without k j end = ground arith
has-without k j (field i w fs) =
    ground (arith, eq_iff k j, eq_iff i k, eq_iff i j, has-without k j fs)

pub put-IsUnique : (k : String) (v : Value) (fs : Fields) → IsUnique fs → IsUnique (put k v fs)
unfolding put has
put-IsUnique k v end u = (refl, tt)
put-IsUnique k v (field j w fs) u =
    ground (arith, eq_iff j k, eq_iff k j, has-put k j v fs, put-IsUnique k v fs u.1)

pub without-IsUnique : (k : String) (fs : Fields) → IsUnique fs → IsUnique (without k fs)
unfolding without
without-IsUnique k end u = tt
without-IsUnique k (field j w fs) u =
    ground (arith, eq_iff k j, has-without k j fs, without-IsUnique k fs u.1)

pub get_missing : (k : String) (fs : Fields) → has k fs ≡ false → get k fs ≡ none
unfolding get has
get_missing k end h = refl
get_missing k (field j v fs) h = ground (arith, get_missing k fs)

pub get_present : (k : String) (fs : Fields) → has k fs ≡ true → (v : Value) × (get k fs ≡ some v)
unfolding get has
get_present k end h = absurd (ground arith)
get_present k (field j v fs) h = elim (Bool-cases (str_eq j k)) [
  | inl e ↦ (v, ground arith)
  | inr e ↦ let (w, q) = get_present k fs (ground arith) in (w, ground arith)
]
