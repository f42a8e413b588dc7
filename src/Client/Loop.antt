-- ===== src/Client/Loop.antt =====
-- Go's `for { … }`: a body that goes on, returns nil, or returns an error, run on fuel. `none` means
-- that the fuel ran out, and is no behaviour of the program.
pub mod Rule
pub mod Total
use gophermc.Base.{ℕ, zero, suc, Option, none, some}
use gophermc.Base.Outcome.{Outcome, ok, err, panic, Action}

-- How one round ends without an error: `continue`, or `return nil`.
pub data Round : Type 0 where
  again finished : Round

-- An action with loops in it.
abbrev pub Run : Type 0 → Type 0 → Type 0
Run S A = S → Option (Outcome A × S)

module _ {S A B : Type 0} where
  abbrev pub run_then : Option (Outcome A × S) → (A → Run S B) → Option (Outcome B × S)
  run_then none f = none
  run_then (some (ok a, s)) f = f a s
  run_then (some (err e, s)) f = some (err e, s)
  run_then (some (panic p, s)) f = some (panic p, s)

  infixl 5 ◌>>=◌ ◌>>◌
  abbrev pub ◌>>=◌ : Run S A → (A → Run S B) → Run S B
  m >>= f = λ s. run_then (m s) f

  abbrev pub ◌>>◌ : Run S A → Run S B → Run S B
  m >> k = λ s. run_then (m s) (λ _. k)

abbrev pub once : {S A : Type 0} → Action S A → Run S A
once m s = some (m s)

module _ {S : Type 0} where
  next_round : Option (Outcome Round × S) → Run S (Unit {0}) → Option (Outcome (Unit {0}) × S)
  next_round none rest = none
  next_round (some (ok again, s)) rest = rest s
  next_round (some (ok finished, s)) rest = some (ok tt, s)
  next_round (some (err e, s)) rest = some (err e, s)
  next_round (some (panic p, s)) rest = some (panic p, s)

  unfoldable pub loop : ℕ → Run S Round → Run S (Unit {0})
  unfolding next_round
  loop zero round s = none
  loop (suc fuel) round s = next_round (round s) (loop fuel round)
