-- ===== src/Generator/Entries.antt =====
-- One entry of `processDirection` in its two tables.
use gophermc.Base.{
  both, ℕ, ◌≡◌, refl, sym, ap, ◌∙◌, Bool, true, false, ◌&&◌, Option, none, some, List, [], ◌∷◌,
  ◌==◌, ==_iff, ==_refl, All, if◌then◌else◌, Bool-cases, inl, inr,
}
use gophermc.Generator.{VersionInfo, enter, enter_final}
use gophermc.Packets.Encode.{bytes_eq}
use gophermc.Versions.FromString.RoundTrip.{bytes_eq→eq}
use gophermc.Wire.Stream.{Bytes}

pub record AreInverse (vi : VersionInfo) : Type 0 where
  pub name_of_id :
      (s d name : Bytes) (id : ℕ)
      → vi.packet_ids s d name ≡ some id
      → vi.packet_names s d id ≡ some name
  pub id_of_name :
      (s d name : Bytes) (id : ℕ)
      → vi.packet_names s d id ≡ some name
      → vi.packet_ids s d name ≡ some id

-- One table and its inverse, where an entry is stored in both if the keys are `b` and `p`, and `b` and `q`.
entered_both :
    {A B : Type 0} (b p q : Bool) (a a' : A) (n n' : B) (o : Option A) (r : Option B)
    → (if b && p then some a else o) ≡ some a'
    → (p ≡ true → n ≡ n')
    → (a ≡ a' → q ≡ true)
    → (o ≡ some a' → r ≡ some n')
    → (b ≡ true → q ≡ true → r ≡ none)
    → (if b && q then some n else r) ≡ some n'
entered_both true true true a a' n n' o r h same one old free = ap some (same refl)
entered_both true true false a a' n n' o r h same one old free =
    let clash : false ≡ true = one cc in cc
entered_both true false true a a' n n' o r h same one old free =
    let gone : r ≡ none = free refl refl in let there : r ≡ some n' = old h in cc
entered_both true false false a a' n n' o r h same one old free = old h
entered_both false p q a a' n n' o r h same one old free = old h

-- The same state and direction.
same_place :
    {A : Type 0} (f : Bytes → Bytes → Option A) (s d s' d' : Bytes)
    → (bytes_eq s s' && bytes_eq d d') ≡ true
    → f s d ≡ none
    → f s' d' ≡ none
same_place f s d s' d' h e =
    let (p, q) = both (bytes_eq s s') (bytes_eq d d') h in
    rw (sym (bytes_eq→eq s s' p), sym (bytes_eq→eq d d' q)) e

bytes_eq_refl : (a : Bytes) → bytes_eq a a ≡ true
bytes_eq_refl [] = refl
bytes_eq_refl (b ∷ bs) = rw (==_refl b, bytes_eq_refl bs) refl

pub eq_bytes : (a b : Bytes) → a ≡ b → bytes_eq a b ≡ true
eq_bytes a b e = rw e (bytes_eq_refl b)

enter-AreInverse :
    (s d n : Bytes) (i : ℕ) (vi : VersionInfo)
    → AreInverse vi
    → vi.packet_names s d i ≡ none
    → vi.packet_ids s d n ≡ none
    → AreInverse (enter s d n i vi)
unfolding enter
enter-AreInverse s d n i vi inv no_name no_id = record {
  name_of_id = λ s' d' n' i' h.
      entered_both (bytes_eq s s' && bytes_eq d d') (bytes_eq n n') (i == i') i i' n n'
        (vi.packet_ids s' d' n') (vi.packet_names s' d' i') h (bytes_eq→eq n n')
        (λ e. (==_iff i i').1 e) (inv.name_of_id s' d' n' i')
        (λ b q.
          same_place (λ s d. vi.packet_names s d i') s d s' d' b
            (rw (sym ((==_iff i i').0 q)) no_name));
  id_of_name = λ s' d' n' i' h.
      entered_both (bytes_eq s s' && bytes_eq d d') (i == i') (bytes_eq n n') n n' i i'
        (vi.packet_names s' d' i') (vi.packet_ids s' d' n') h (λ q. (==_iff i i').0 q)
        (eq_bytes n n') (inv.id_of_name s' d' n' i')
        (λ b q.
          same_place (λ s d. vi.packet_ids s d n') s d s' d' b
            (rw (sym (bytes_eq→eq n n' q)) no_id));
}

-- Another key of the same state and direction.
enter-other_id :
    (s d n : Bytes) (i : ℕ) (vi : VersionInfo) (n' : Bytes)
    → ¬ (n ≡ n')
    → (enter s d n i vi).packet_ids s d n' ≡ vi.packet_ids s d n'
unfolding enter
enter-other_id s d n i vi n' h = elim (Bool-cases (bytes_eq n n')) [
  | inl same ↦ absurd (h (bytes_eq→eq n n' same))
  | inr other ↦ rw (bytes_eq_refl s, bytes_eq_refl d, other) refl
]

enter-other_name :
    (s d n : Bytes) (i : ℕ) (vi : VersionInfo) (i' : ℕ)
    → ¬ (i ≡ i')
    → (enter s d n i vi).packet_names s d i' ≡ vi.packet_names s d i'
unfolding enter
enter-other_name s d n i vi i' h = elim (Bool-cases (i == i')) [
  | inl same ↦ absurd (h ((==_iff i i').0 same))
  | inr other ↦ rw (bytes_eq_refl s, bytes_eq_refl d, other) refl
]

enter-this_id :
    (s d n : Bytes) (i : ℕ) (vi : VersionInfo) → (enter s d n i vi).packet_ids s d n ≡ some i
unfolding enter
enter-this_id s d n i vi = rw (bytes_eq_refl s, bytes_eq_refl d, bytes_eq_refl n) refl

-- `final` is the name that a packet gets.
module _ (final : Bytes → Option Bytes) where
  -- Other numbers, and other names if both packets get one.
  abbrev pub Apart : Bytes × ℕ → Bytes × ℕ → Type 0
  Apart (mc, id) (mc', id') =
      ¬ (id ≡ id') × ((n : Bytes) → final mc ≡ some n → ¬ (final mc' ≡ some n))

  abbrev pub Separate : List (Bytes × ℕ) → Type 0
  Separate [] = Unit
  Separate (e ∷ es) = All (Apart e) es × Separate es

  -- Nothing is entered for the number and the name.
  abbrev pub Free : VersionInfo → Bytes → Bytes → Bytes × ℕ → Type 0
  Free vi s d (mc, id) =
      (vi.packet_names s d id ≡ none)
      × ((n : Bytes) → final mc ≡ some n → vi.packet_ids s d n ≡ none)

  abbrev pub Recorded : VersionInfo → Bytes → Bytes → Bytes × ℕ → Type 0
  Recorded vi s d (mc, id) = (n : Bytes) → final mc ≡ some n → vi.packet_ids s d n ≡ some id

  pub enter_final-AreInverse :
      (s d : Bytes) (e : Bytes × ℕ) (vi : VersionInfo) (o : Option Bytes)
      → final e.0 ≡ o
      → AreInverse vi
      → Free vi s d e
      → AreInverse (enter_final s d o e.1 vi)
  enter_final-AreInverse s d e vi none q inv free = inv
  enter_final-AreInverse s d e vi (some n) q inv free =
      enter-AreInverse s d n e.1 vi inv free.0 (free.1 n q)

  pub enter_final-Free :
      (s d : Bytes) (e : Bytes × ℕ) (vi : VersionInfo) (o : Option Bytes) (es : List (Bytes × ℕ))
      → final e.0 ≡ o
      → All (Apart e) es
      → All (Free vi s d) es
      → All (Free (enter_final s d o e.1 vi) s d) es
  enter_final-Free s d e vi none es q apart free = free
  enter_final-Free s d e vi (some n) [] q apart free = tt
  enter_final-Free s d e vi (some n) ((mc, id) ∷ es) q apart free = (
    (
      enter-other_name s d n e.1 vi id apart.0.0 ∙ free.0.0,
      λ n' h.
          enter-other_id s d n e.1 vi n' (λ same. apart.0.1 n q (h ∙ ap some (sym same)))
          ∙ free.0.1 n' h,
    ),
    enter_final-Free s d e vi (some n) es q apart.1 free.1,
  )

  pub enter_final-kept :
      (s d : Bytes) (id : ℕ) (vi : VersionInfo) (n : Bytes) (o : Option Bytes)
      → ¬ (o ≡ some n)
      → (enter_final s d o id vi).packet_ids s d n ≡ vi.packet_ids s d n
  enter_final-kept s d id vi n none h = refl
  enter_final-kept s d id vi n (some k) h = enter-other_id s d k id vi n (λ same. h (ap some same))

  pub enter_final-Recorded :
      (s d : Bytes) (id : ℕ) (vi : VersionInfo) (n : Bytes) (o : Option Bytes)
      → o ≡ some n
      → (enter_final s d o id vi).packet_ids s d n ≡ some id
  enter_final-Recorded s d id vi n o h = rw h (enter-this_id s d n id vi)
