-- ===== src/Settings/RateLimit.antt =====
-- `RateLimitedSMTPHandler` of crawler/common/base_crawler.py. The state file is a dictionary, which is
-- empty where the file cannot be read; writing it succeeds. Times and the limit are in one unit.
use open_energy_data_server.Common.{
  ℕ, ◌+◌, ◌-◌, ◌≤◌, ◌<◌, ◌≡◌, sym, subst, String, Bool, true, false, Option, some, List, [], ◌∷◌,
  ltb, leb, if◌then◌else◌, arith, inl, inr, Bool-cases, eq_refl,
}
use open_energy_data_server.Common.Dict
use open_energy_data_server.Common.Dict.{Dict, get-put}

-- an entry of the state: a mapping with a time, a mapping without one, or no mapping
pub data Entry : Type 0 where
  last_sent : ℕ → Entry
  no_time : Entry
  no_mapping : Entry

unfoldable pub is_recent : ℕ → ℕ → Option Entry → Bool
is_recent rate_limit_seconds now (some (last_sent t)) = ltb (now - t) rate_limit_seconds
is_recent rate_limit_seconds now (some no_time) = ltb now rate_limit_seconds
is_recent rate_limit_seconds now _ = false

-- The second part is the state that is written.
unfoldable pub is_rate_limited : String → ℕ → ℕ → Dict Entry → Bool × Dict Entry
unfolding is_recent
is_rate_limited rate_limit_key rate_limit_seconds now state =
    if leb rate_limit_seconds 0
    then (false, state)
    else if is_recent rate_limit_seconds now (Dict.get rate_limit_key state)
    then (true, state)
    else (false, Dict.put rate_limit_key (last_sent now) state)

-- `emit` of records at the given times, by the threads of one process, under whose lock a record's
-- read and write of the file are one step; the times of those that are sent
unfoldable pub emit_all : String → ℕ → List ℕ → Dict Entry → List ℕ
unfolding is_rate_limited
emit_all rate_limit_key rate_limit_seconds [] state = []
emit_all rate_limit_key rate_limit_seconds (now ∷ times) state =
    let (limited, after) = is_rate_limited rate_limit_key rate_limit_seconds now state in
    let rest = emit_all rate_limit_key rate_limit_seconds times after in
    if limited then rest else now ∷ rest

-- Every time is at least the limit after the one before it.
abbrev pub SpacedFrom : ℕ → ℕ → List ℕ → Type 0
SpacedFrom limit previous [] = Unit {0}
SpacedFrom limit previous (t ∷ times) = (previous + limit ≤ t) × SpacedFrom limit t times

abbrev pub Spaced : ℕ → List ℕ → Type 0
Spaced limit [] = Unit {0}
Spaced limit (t ∷ times) = SpacedFrom limit t times

spaced_after :
    (key : String) (limit previous : ℕ) (times : List ℕ) (state : Dict Entry)
    → 0 < limit
    → Dict.get key state ≡ some (last_sent previous)
    → SpacedFrom limit previous (emit_all key limit times state)
unfolding emit_all is_rate_limited is_recent
spaced_after key limit previous [] state pos e = tt
spaced_after key limit previous (now ∷ times) state pos e =
    elim (Bool-cases (ltb (now - previous) limit)) [
      | inl q ↦
          let same : emit_all key limit (now ∷ times) state ≡ emit_all key limit times state =
            ground arith in
          subst (SpacedFrom limit previous) (sym same)
            (spaced_after key limit previous times state pos e)
      | inr q ↦
          let same : emit_all key limit (now ∷ times) state
              ≡ now ∷ emit_all key limit times (Dict.put key (last_sent now) state) =
            ground arith in
          subst (SpacedFrom limit previous) (sym same) (
            ground arith,
            spaced_after key limit now times (Dict.put key (last_sent now) state) pos
                (ground (arith, get-put key key (last_sent now) state, eq_refl key)),
          )
    ]

-- With a positive limit, one process never sends two mails of one key closer to one another than
-- the limit, whatever the state file held before and in whatever order the times come.
pub emit_all-Spaced :
    (key : String) (limit : ℕ) (times : List ℕ) (state : Dict Entry)
    → 0 < limit
    → Spaced limit (emit_all key limit times state)
unfolding emit_all is_rate_limited
emit_all-Spaced key limit [] state pos = tt
emit_all-Spaced key limit (now ∷ times) state pos =
    elim (Bool-cases (is_recent limit now (Dict.get key state))) [
      | inl q ↦
          let same : emit_all key limit (now ∷ times) state ≡ emit_all key limit times state =
            ground arith in
          subst (Spaced limit) (sym same) (emit_all-Spaced key limit times state pos)
      | inr q ↦
          let same : emit_all key limit (now ∷ times) state
              ≡ now ∷ emit_all key limit times (Dict.put key (last_sent now) state) =
            ground arith in
          subst (Spaced limit) (sym same) (
            spaced_after key limit now times (Dict.put key (last_sent now) state) pos
              (ground (arith, get-put key key (last_sent now) state, eq_refl key)))
    ]
