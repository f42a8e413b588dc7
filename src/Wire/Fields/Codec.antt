-- ===== src/Wire/Fields/Codec.antt =====
-- What it means that an action writes given bytes into a buffer, and that one reads a value from
-- given bytes, whatever follows; with a rule for each way to put actions in sequence.
use gophermc.Base.{◌≡◌, refl, ap, ◌∙◌, [], ◌++◌, append-nil, append_assoc}
use gophermc.Base.Outcome.{Error, Action, ok, and_then, ◌>>=◌, ◌>>◌, pure, or_else}
use gophermc.Wire.Stream.{Bytes, Reader, Writer, buffer, write}

pub record Fills (m : Action Writer (Unit {0})) (bs : Bytes) : Type 0 where
  pub run : (out : Bytes) → m (buffer out) ≡ (ok tt, buffer (out ++ bs))

pub record Decodes {A : Type 0} (m : Action Reader A) (bs : Bytes) (a : A) : Type 0 where
  pub run :
      (more : Bytes) (e : Error)
      → m (record { rest = bs ++ more; at_end = e }) ≡ (ok a, record { rest = more; at_end = e })

pub Fills-write : (bs : Bytes) → Fills (write bs) bs
unfolding write
Fills-write bs = record { run = λ out. refl }

pub Fills-nothing : Fills (pure tt) []
Fills-nothing = record { run = λ out. rw append-nil }

pub Fills-then :
    {m k : Action Writer (Unit {0})} {a b : Bytes} → Fills m a → Fills k b → Fills (m >> k) (a ++ b)
Fills-then {k} {a} {b} f g = record {
  run = λ out.
      ap (λ t. and_then t (λ _. k)) (f.run out)
      ∙ g.run (out ++ a)
      ∙ ap (λ (t : Bytes). (ok tt, buffer t)) (append_assoc out a b);
}

-- `_ = WriteX(w, …)` into a buffer, which never fails.
pub Fills-or_else : {m : Action Writer (Unit {0})} {a : Bytes} → Fills m a → Fills (or_else m tt) a
Fills-or_else f = record { run = λ out. rw (f.run out) }

module _ {A B : Type 0} where
  pub Decodes-bind :
      {m : Action Reader A} {front back : Bytes} {a : A} {b : B} (f : A → Action Reader B)
      → Decodes m front a
      → Decodes (f a) back b
      → Decodes (m >>= f) (front ++ back) b
  Decodes-bind {m} {front} {back} {a} {b} f p q = record {
    run =
        λ more e. rw append_assoc (ap (λ t. and_then t f) (p.run (back ++ more) e) ∙ q.run more e);
  }

  pub Decodes-map :
      {m : Action Reader A} {front : Bytes} {a : A} (f : A → B)
      → Decodes m front a
      → Decodes (m >>= λ x. pure (f x)) front (f a)
  Decodes-map f p = record { run = λ more e. rw (p.run more e) }

module _ {A : Type 0} where
  pub Decodes-or_else :
      {m : Action Reader A} {front : Bytes} {a : A} (d : A)
      → Decodes m front a
      → Decodes (or_else m d) front a
  Decodes-or_else d p = record { run = λ more e. rw (p.run more e) }
