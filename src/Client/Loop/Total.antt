-- ===== src/Client/Loop/Total.antt =====
-- A loop that returns nil or panics, and never returns an error.
use gophermc.Base.{
  ◌≡◌, refl, Bool, true, false, if◌then◌else◌, ℕ, zero, suc, ◌≤◌, ◌<◌, Option, none, some, arith,
}
use gophermc.Base.Outcome.{Outcome, ok, err, panic}
use gophermc.Client.Loop.{Round, again, finished, Run, next_round, loop}
use gophermc.Client.Loop.Rule.{Keeps}

-- The run ends: with a result that satisfies `Q`, or in a panic that leaves `R`.
abbrev pub Ending :
    {S A : Type 0} → (A → S → Type 0) → (S → Type 0) → Option (Outcome A × S) → Type 0
Ending Q R none = ⊥
Ending Q R (some (ok a, s)) = Q a s
Ending Q R (some (err e, s)) = ⊥
Ending Q R (some (panic p, s)) = R s

-- The same of an action, which has no loop in it.
abbrev pub Yields : {S A : Type 0} → (A → S → Type 0) → (S → Type 0) → Outcome A × S → Type 0
Yields Q R (ok a, s) = Q a s
Yields Q R (err e, s) = ⊥
Yields Q R (panic p, s) = R s

pub Ending-some :
    {S A : Type 0} (Q : A → S → Type 0) (R : S → Type 0) (o : Outcome A × S)
    → Yields Q R o
    → Ending Q R (some o)
Ending-some Q R (ok a, s) h = h
Ending-some Q R (err e, s) h = h
Ending-some Q R (panic p, s) h = h

pub Yields-if :
    {S A : Type 0} (Q : A → S → Type 0) (R : S → Type 0) (b : Bool) (x y : Outcome A × S)
    → (b ≡ true → Yields Q R x)
    → (b ≡ false → Yields Q R y)
    → Yields Q R (if b then x else y)
Yields-if Q R true x y h k = h refl
Yields-if Q R false x y h k = k refl

module _ {S : Type 0} (P Q R : S → Type 0) (measure : S → ℕ) (round : Run S Round)
    (step : (s : S) → P s → Ending (Keeps P Q measure (measure s)) R (round s)) where
  rounds :
      (fuel m : ℕ) (o : Option (Outcome Round × S))
      → m ≤ fuel
      → ((s : S) → measure s < fuel → P s → Ending (λ (u : Unit {0}) s. Q s) R (loop fuel round s))
      → Ending (Keeps P Q measure m) R o
      → Ending (λ (u : Unit {0}) s. Q s) R (next_round o (loop fuel round))
  unfolding next_round
  rounds fuel m none h rest k = k
  rounds fuel m (some (ok again, s)) h rest k = rest s (omega arith) k.0
  rounds fuel m (some (ok finished, s)) h rest k = k
  rounds fuel m (some (err e, s)) h rest k = k
  rounds fuel m (some (panic p, s)) h rest k = k

  pub Ending-loop :
      (fuel : ℕ) (s : S)
      → measure s < fuel
      → P s
      → Ending (λ (u : Unit {0}) s. Q s) R (loop fuel round s)
  unfolding loop
  Ending-loop zero s h p = absurd (omega arith)
  Ending-loop (suc fuel) s h p =
      rounds fuel (measure s) (round s) (omega arith) (Ending-loop fuel) (step s p)
