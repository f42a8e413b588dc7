-- ===== src/Client/Loop/Rule.antt =====
-- Total correctness of a loop: with a measure that falls in each round and an invariant, the loop
-- ends within its fuel, and where it returns nil, in a state that its last round promised.
use gophermc.Base.{
  ◌≡◌, refl, Bool, true, false, if◌then◌else◌, ℕ, zero, suc, ◌≤◌, ◌<◌, Option, none, some, arith,
}
use gophermc.Base.Outcome.{Outcome, Context, ok, err, panic, Action, and_then, wrap_outcome}
use gophermc.Client.Loop.{Round, again, finished, Run, run_then, next_round, loop}

-- The run ends, and what it returns without an error satisfies `Q`.
abbrev pub After : {S A : Type 0} → (A → S → Type 0) → Option (Outcome A × S) → Type 0
After Q none = ⊥
After Q (some (ok a, s)) = Q a s
After Q (some (err e, s)) = Unit
After Q (some (panic p, s)) = Unit

-- The same of an action, which has no loop in it.
abbrev pub Then : {S A : Type 0} → (A → S → Type 0) → Outcome A × S → Type 0
Then Q (ok a, s) = Q a s
Then Q (err e, s) = Unit
Then Q (panic p, s) = Unit

pub After-once :
    {S A : Type 0} (Q : A → S → Type 0) (o : Outcome A × S) → Then Q o → After Q (some o)
After-once Q (ok a, s) h = h
After-once Q (err e, s) h = tt
After-once Q (panic p, s) h = tt

pub After-run_then :
    {S A B : Type 0} (P : A → S → Type 0) (Q : B → S → Type 0) (o : Option (Outcome A × S))
    (f : A → Run S B)
    → After P o
    → ((a : A) (s : S) → P a s → After Q (f a s))
    → After Q (run_then o f)
After-run_then P Q none f h g = h
After-run_then P Q (some (ok a, s)) f h g = g a s h
After-run_then P Q (some (err e, s)) f h g = tt
After-run_then P Q (some (panic p, s)) f h g = tt

pub Then-and_then :
    {S A B : Type 0} (P : A → S → Type 0) (Q : B → S → Type 0) (o : Outcome A × S)
    (f : A → Action S B)
    → Then P o
    → ((a : A) (s : S) → P a s → Then Q (f a s))
    → Then Q (and_then o f)
Then-and_then P Q (ok a, s) f h g = g a s h
Then-and_then P Q (err e, s) f h g = tt
Then-and_then P Q (panic p, s) f h g = tt

pub Then-wrapped :
    {S A : Type 0} (Q : A → S → Type 0) (x : Context) (o : Outcome A) (s : S)
    → Then Q (o, s)
    → Then Q (wrap_outcome x o, s)
Then-wrapped Q x (ok a) s h = h
Then-wrapped Q x (err e) s h = tt
Then-wrapped Q x (panic p) s h = tt

pub Then-if :
    {S A : Type 0} (Q : A → S → Type 0) (b : Bool) (x y : Outcome A × S)
    → (b ≡ true → Then Q x)
    → (b ≡ false → Then Q y)
    → Then Q (if b then x else y)
Then-if Q true x y h k = h refl
Then-if Q false x y h k = k refl

-- What one round from a state of measure `m` has to establish.
abbrev pub Keeps : {S : Type 0} → (S → Type 0) → (S → Type 0) → (S → ℕ) → ℕ → Round → S → Type 0
Keeps P Q measure m again s = P s × (measure s < m)
Keeps P Q measure m finished s = Q s

module _ {S : Type 0} (P Q : S → Type 0) (measure : S → ℕ) (round : Run S Round)
    (step : (s : S) → P s → After (Keeps P Q measure (measure s)) (round s)) where
  rounds :
      (fuel m : ℕ) (o : Option (Outcome Round × S))
      → m ≤ fuel
      → ((s : S) → measure s < fuel → P s → After (λ (u : Unit {0}) s. Q s) (loop fuel round s))
      → After (Keeps P Q measure m) o
      → After (λ (u : Unit {0}) s. Q s) (next_round o (loop fuel round))
  unfolding next_round
  rounds fuel m none h rest k = k
  rounds fuel m (some (ok again, s)) h rest k = rest s (omega arith) k.0
  rounds fuel m (some (ok finished, s)) h rest k = k
  rounds fuel m (some (err e, s)) h rest k = tt
  rounds fuel m (some (panic p, s)) h rest k = tt

  pub After-loop :
      (fuel : ℕ) (s : S)
      → measure s < fuel
      → P s
      → After (λ (u : Unit {0}) s. Q s) (loop fuel round s)
  unfolding loop
  After-loop zero s h p = absurd (omega arith)
  After-loop (suc fuel) s h p =
      rounds fuel (measure s) (round s) (omega arith) (After-loop fuel) (step s p)

-- The equations of a run, where what comes first is known to return.
pub run_then-ok :
    {S A B : Type 0} {o : Outcome A × S} {a : A} {s : S} (f : A → Run S B)
    → o ≡ (ok a, s)
    → run_then (some o) f ≡ f a s
run_then-ok f e = rw e refl

pub loop-again :
    {S : Type 0} (round : Run S Round) (fuel : ℕ) {s s' : S}
    → round s ≡ some (ok again, s')
    → loop (suc fuel) round s ≡ loop fuel round s'
unfolding loop next_round
loop-again round fuel e = rw e refl

pub loop-finished :
    {S : Type 0} (round : Run S Round) (fuel : ℕ) {s s' : S}
    → round s ≡ some (ok finished, s')
    → loop (suc fuel) round s ≡ some (ok tt, s')
unfolding loop next_round
loop-finished round fuel e = rw e refl
