-- ===== src/Rotation/Hoare.antt =====
-- What a step keeps, whether it raises or not, and what it gives if it does not raise.
use open_energy_data_server.Common.{
  ℕ, zero, suc, ◌≡◌, refl, true, false, arith, inl, inr, Bool-cases,
}
use open_energy_data_server.Rotation.World.{
  World, Step, Outcome, done, failed, failed_late, ◌>>◌, ignoring, run_command, retry, counted,
}

pub record Keeps (P : World → Type 0) (a : Step) : Type 0 where
  pub after : (w : World) → P w → P (a w).1

pub record Gives (P : World → Type 0) (a : Step) (Q : World → Type 0) : Type 0 where
  pub after : (w : World) → P w → (a w).0 ≡ true → Q (a w).1

pub seq-Keeps : (P : World → Type 0) (a b : Step) → Keeps P a → Keeps P b → Keeps P (a >> b)
unfolding ◌>>◌
seq-Keeps P a b ha hb = record { after = after }
  where
    after : (w : World) → P w → P ((a >> b) w).1
    after w h = elim (Bool-cases (a w).0) [
      | inl e ↦ rw e (hb.after (a w).1 (ha.after w h))
      | inr e ↦ rw e (ha.after w h)
    ]

pub seq-Gives :
    (P Q R : World → Type 0) (a b : Step) → Gives P a Q → Gives Q b R → Gives P (a >> b) R
unfolding ◌>>◌
seq-Gives P Q R a b ha hb = record { after = after }
  where
    after : (w : World) → P w → ((a >> b) w).0 ≡ true → R ((a >> b) w).1
    after w h e = elim (Bool-cases (a w).0) [
      | inl q ↦ rw q (hb.after (a w).1 (ha.after w h q) (ground arith))
      | inr q ↦ absurd (ground arith)
    ]

pub ignoring-Keeps : (P : World → Type 0) (a : Step) → Keeps P a → Keeps P (ignoring a)
unfolding ignoring
ignoring-Keeps P a ha = record { after = ha.after }

pub gives_by_keeping : (P : World → Type 0) (a : Step) → Keeps P a → Gives P a P
gives_by_keeping P a ha = record { after = λ w h e. ha.after w h }

-- What a step leaves if it raises.
pub record Fails (P : World → Type 0) (a : Step) (R : World → Type 0) : Type 0 where
  pub after : (w : World) → P w → (a w).0 ≡ false → R (a w).1

pub seq-Fails :
    (P Q R : World → Type 0) (a b : Step)
    → Fails P a R
    → Gives P a Q
    → Fails Q b R
    → Fails P (a >> b) R
unfolding ◌>>◌
seq-Fails P Q R a b fa ga fb = record { after = after }
  where
    after : (w : World) → P w → ((a >> b) w).0 ≡ false → R ((a >> b) w).1
    after w h e = elim (Bool-cases (a w).0) [
      | inl q ↦ rw q (fb.after (a w).1 (ga.after w h q) (ground arith))
      | inr q ↦ rw q (fa.after w h q)
    ]

pub fails_by_keeping : (P : World → Type 0) (a : Step) → Keeps P a → Fails P a P
fails_by_keeping P a ha = record { after = λ w h e. ha.after w h }

pub weaken-Fails :
    (P R S : World → Type 0) (a : Step) → Fails P a R → ((w : World) → R w → S w) → Fails P a S
weaken-Fails P R S a fa weaker = record { after = λ w h e. weaker (a w).1 (fa.after w h e) }

-- A predicate that does not look at the number of commands.
abbrev pub IgnoresCount : (World → Type 0) → Type 0
IgnoresCount P = (w : World) → P w → P (counted w)

module _ (outcome : ℕ → Outcome) where
  pub command-Keeps :
      (P : World → Type 0) (effect : World → World)
      → IgnoresCount P
      → ((w : World) → P w → P (effect w))
      → Keeps P (run_command outcome effect)
  unfolding run_command
  command-Keeps P effect count keep = record {
    after = λ w h. by_outcome w h (outcome w.commands) refl;
  }
    where
      by_outcome :
          (w : World)
          → P w
          → (o : Outcome) → outcome w.commands ≡ o
          → P (run_command outcome effect w).1
      by_outcome w h done e = rw (e, run_command) (keep (counted w) (count w h))
      by_outcome w h failed e = rw (e, run_command) (count w h)
      by_outcome w h failed_late e = rw (e, run_command) (keep (counted w) (count w h))

  pub command-Gives :
      (P Q : World → Type 0) (effect : World → World)
      → IgnoresCount P
      → ((w : World) → P w → Q (effect w))
      → Gives P (run_command outcome effect) Q
  unfolding run_command
  command-Gives P Q effect count give = record {
    after = λ w h e. by_outcome w h e (outcome w.commands) refl;
  }
    where
      by_outcome :
          (w : World)
          → P w
          → (run_command outcome effect w).0 ≡ true
          → (o : Outcome) → outcome w.commands ≡ o
          → Q (run_command outcome effect w).1
      by_outcome w h e done q = rw (q, run_command) (give (counted w) (count w h))
      by_outcome w h e failed q = absurd (ground arith)
      by_outcome w h e failed_late q = absurd (ground arith)

  pub retry-Keeps :
      (P : World → Type 0) (n : ℕ) (a : Step) → Keeps P a → Keeps P (retry outcome n a)
  unfolding retry
  retry-Keeps P zero a ha = record { after = λ w h. h }
  retry-Keeps P (suc n) a ha = more (retry-Keeps P n a ha).after
    where
      more : ((w : World) → P w → P (retry outcome n a w).1) → Keeps P (retry outcome (suc n) a)
      more again = record {
        after = λ w h. elim (Bool-cases (a w).0) [
          | inl e ↦ rw e (ha.after w h)
          | inr e ↦ rw e (again (a w).1 (ha.after w h))
        ];
      }
