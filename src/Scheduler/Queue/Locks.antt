-- ===== src/Scheduler/Queue/Locks.antt =====
-- The lock table `_active_job_locks` read as a whole: which keys are held, and by whom.
use open_energy_data_server.Common.{
  String, ◌≡◌, refl, Bool, true, false, not, ◌&&◌, ◌||◌, List, [], ◌∷◌, arith, str_eq, eq_iff, inl,
  inr, Bool-cases,
}
use open_energy_data_server.Common.Sets.{contains, intersects}
use open_energy_data_server.Common.Dict.{Dict, get, has, put, pop, has-put, has-cons}
use open_energy_data_server.Scheduler.Queue.{locks_or_empty}

-- Some active job holds the key.
unfoldable pub held : String → Dict (List String) → Bool
held k [] = false
held k ((i, keys) ∷ active) = contains k keys || held k active

-- Some key of the list is held.
unfoldable pub conflicts : List String → Dict (List String) → Bool
conflicts [] active = false
conflicts (k ∷ keys) active = held k active || conflicts keys active

-- No two active jobs have an id or a key in common.
abbrev pub Exclusive : Dict (List String) → Type 0
Exclusive [] = Unit {0}
Exclusive ((i, keys) ∷ active) =
    (has i active ≡ false)
    × ((k : String) → contains k keys ≡ true → held k active ≡ false)
    × Exclusive active

pub intersects-eq-conflicts :
    (keys taken : List String) (active : Dict (List String))
    → ((k : String) → contains k taken ≡ held k active)
    → intersects keys taken ≡ conflicts keys active
unfolding intersects conflicts
intersects-eq-conflicts [] taken active h = refl
intersects-eq-conflicts (k ∷ keys) taken active h =
    ground (arith, h k, intersects-eq-conflicts keys taken active h)

pub not-held_of_free :
    (k : String) (keys : List String) (active : Dict (List String))
    → conflicts keys active ≡ false
    → contains k keys ≡ true
    → held k active ≡ false
unfolding conflicts contains
not-held_of_free k [] active h m = cc
not-held_of_free k (j ∷ keys) active h m =
    ground (arith, eq_iff j k, not-held_of_free k keys active)

pub held-put :
    (k i : String) (keys : List String) (active : Dict (List String))
    → has i active ≡ false
    → held k (put i keys active) ≡ (contains k keys || held k active)
unfolding held put has
held-put k i keys [] h = refl
held-put k i keys ((j, other) ∷ active) h = ground (arith, held-put k i keys active)

pub put-Exclusive :
    (i : String) (keys : List String) (active : Dict (List String))
    → has i active ≡ false
    → ((k : String) → contains k keys ≡ true → held k active ≡ false)
    → Exclusive active
    → Exclusive (put i keys active)
unfolding put has held
put-Exclusive i keys [] h free e = (refl, λ k m. refl, tt)
put-Exclusive i keys ((j, other) ∷ active) h free e =
    let (ne, absent) = has-cons i j other active h in
    rw ne (
      ground (arith, has-put i j keys active, eq_iff i j, eq_iff j i),
      λ k m. ground (arith, held-put k i keys active, free k, e.1 k m),
      put-Exclusive i keys active absent (λ k m. ground (arith, free k m)) e.2,
    )

-- Keys of an entry are held.
held-get :
    (k i : String) (active : Dict (List String))
    → contains k (locks_or_empty (get i active)) ≡ true
    → held k active ≡ true
unfolding get held locks_or_empty contains
held-get k i [] m = cc
held-get k i ((j, keys) ∷ active) m = ground (arith, held-get k i active)

pub has-pop :
    (j i : String) (active : Dict (List String))
    → Exclusive active
    → has j (pop i active) ≡ (not (str_eq i j) && has j active)
unfolding pop has
has-pop j i [] e = ground arith
has-pop j i ((h, keys) ∷ active) e =
    ground (arith, eq_iff i j, eq_iff h i, eq_iff h j, has-pop j i active e.2)

-- What an entry's removal frees is exactly the entry's keys.
pub held-pop :
    (k i : String) (active : Dict (List String))
    → Exclusive active
    → held k (pop i active) ≡ (not (contains k (locks_or_empty (get i active))) && held k active)
unfolding pop held get locks_or_empty contains
held-pop k i [] e = refl
held-pop k i ((h, keys) ∷ active) e =
    ground (arith, held-pop k i active e.2, held-get k i active, e.1 k)

pub pop-Exclusive :
    (i : String) (active : Dict (List String)) → Exclusive active → Exclusive (pop i active)
unfolding pop
pop-Exclusive i [] e = tt
pop-Exclusive i ((h, keys) ∷ active) e = elim (Bool-cases (str_eq h i)) [
  | inl hit ↦ rw hit e.2
  | inr miss ↦ rw miss (
    ground (arith, has-pop h i active e.2),
    λ k m. ground (arith, held-pop k i active e.2, e.1 k m),
    pop-Exclusive i active e.2,
  )
]
