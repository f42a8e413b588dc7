-- ===== src/Generator/Order.antt =====
-- Go walks `goNameToMcNames` in any order; the name of a packet does not depend on it.
use mathlib.Core.List.{Mem, Perm, mem-cons, not-mem-nil, mem-cons_self}
use mathlib.Core.List.Perm
use mathlib.Core.Logic.Or
use mathlib.Core.Path.{subst}
use gophermc.Base.{
  both, ℕ, ◌≡◌, refl, sym, ap, ◌∙◌, Bool, true, false, not, ◌&&◌, ◌||◌, Option, none, some, List,
  [], ◌∷◌, all, arith, ◌==◌, if◌then◌else◌, Bool-cases, inl, inr,
}
use gophermc.Generator.{VersionInfo, final_go_name, not_empty, enter_all, process_direction}
use gophermc.Generator.Names.{
  NameTable, go_name_to_mc_names, contains, Group, disconnects, payloads, packs, finishes,
  keep_alives, pings, own, group_of, resolve_ambiguous_names, name_in,
}
use gophermc.Packets.Encode.{bytes_eq}
use gophermc.Versions.FromString.Order.{all-mem}
use gophermc.Versions.FromString.RoundTrip.{bytes_eq→eq}
use gophermc.Wire.Stream.{Bytes}

abbrev tag : Group → Bytes
tag disconnects = 0 ∷ []
tag payloads = 1 ∷ []
tag packs = 2 ∷ []
tag finishes = 3 ∷ []
tag keep_alives = 4 ∷ []
tag pings = 5 ∷ []
tag (own go_name) = 6 ∷ go_name

abbrev untag : Bytes → Group
untag [] = disconnects
untag (b ∷ bs) =
    if b == 0
    then disconnects
    else if b == 1
    then payloads
    else if b == 2
    then packs
    else if b == 3
    then finishes
    else if b == 4
    then keep_alives
    else if b == 5
    then pings
    else own bs

untag-tag : (g : Group) → untag (tag g) ≡ g
untag-tag disconnects = refl
untag-tag payloads = refl
untag-tag packs = refl
untag-tag finishes = refl
untag-tag keep_alives = refl
untag-tag pings = refl
untag-tag (own go_name) = refl

-- The go names of one packet name are of one group.
abbrev same_group : Bytes → Bytes → Bool
same_group a b = bytes_eq (tag (group_of a)) (tag (group_of b))

groups_agree :
    all
      (λ (a, ms).
        all (λ m. all (λ (b, ns). not (contains ns m) || same_group a b) go_name_to_mc_names) ms)
      go_name_to_mc_names
    ≡ true
unfolding go_name_to_mc_names contains group_of
groups_agree = refl

contains-Mem : (ms : List Bytes) (m : Bytes) → contains ms m ≡ true → Mem m ms
unfolding contains
contains-Mem [] m h = cc
contains-Mem (x ∷ ms) m h = elim (Bool-cases (bytes_eq x m)) [
  | inl same ↦ (mem-cons.1 (Or.inl (sym (bytes_eq→eq x m same))))
  | inr other ↦ (mem-cons.1 (Or.inr (contains-Mem ms m (ground arith))))
]

same_group→eq : (a b : Bytes) → same_group a b ≡ true → group_of a ≡ group_of b
same_group→eq a b h =
    let e : tag (group_of a) ≡ tag (group_of b) =
      bytes_eq→eq (tag (group_of a)) (tag (group_of b)) h in
    sym (untag-tag (group_of a)) ∙ ap untag e ∙ untag-tag (group_of b)

one_group :
    (a b m : Bytes) (ms ns : List Bytes)
    → Mem (a, ms) go_name_to_mc_names
    → Mem (b, ns) go_name_to_mc_names
    → contains ms m ≡ true
    → contains ns m ≡ true
    → group_of a ≡ group_of b
one_group a b m ms ns in_a in_b h k =
    let row = all-mem _ go_name_to_mc_names groups_agree in_a in
    let cell = all-mem _ ms row (contains-Mem ms m h) in
    same_group→eq a b (ground (arith, rw k at (all-mem _ go_name_to_mc_names cell in_b)))

-- What `final_go_name` answers for the packet `mc`.
abbrev Final : NameTable → Bytes → Bytes → Bytes → Option Bytes → Type 0
Final w s d mc none =
    (a : Bytes) (ms : List Bytes)
    → Mem (a, ms) w
    → contains ms mc ≡ true
    → not_empty (resolve_ambiguous_names a s d) ≡ false
Final w s d mc (some name) =
    (a : Bytes) × (ms : List Bytes) × Mem (a, ms) w
    × (contains ms mc ≡ true)
    × (not_empty name ≡ true)
    × (resolve_ambiguous_names a s d ≡ name)

not_this : (p q : Bool) → (p && q) ≡ false → p ≡ true → q ≡ false
not_this p q h e = ground arith

Final-cons :
    (a : Bytes) (ms : List Bytes) (w : NameTable) (s d mc : Bytes) (o : Option Bytes)
    → (contains ms mc && not_empty (resolve_ambiguous_names a s d)) ≡ false
    → Final w s d mc o
    → Final ((a, ms) ∷ w) s d mc o
Final-cons a ms w s d mc none h f = λ b ns m k.
    Or.elim (hlevel) (mem-cons.0 m)
      (λ same.
        not_this (contains ns mc) _
          (subst (λ t. (contains t.1 mc && not_empty (resolve_ambiguous_names t.0 s d)) ≡ false)
            (sym same) h)
          k)
      (λ later. f b ns later k)
Final-cons a ms w s d mc (some name) h (b, ns, m, k, e, r) = (b, ns, mem-cons.1 (Or.inr m), k, e, r)

final_go_name-Final : (w : NameTable) (s d mc : Bytes) → Final w s d mc (final_go_name w s d mc)
unfolding final_go_name
final_go_name-Final [] s d mc = λ a ms m k. absurd (not-mem-nil m)
final_go_name-Final ((a, ms) ∷ w) s d mc =
    elim (Bool-cases (contains ms mc && not_empty (resolve_ambiguous_names a s d))) [
      | inl h ↦ let (k, e) = both (contains ms mc) _ h in rw h (a, ms, mem-cons_self, k, e, refl)
      | inr h ↦ rw h (Final-cons a ms w s d mc _ h (final_go_name-Final w s d mc))
    ]

one_name :
    (w : NameTable) (s d mc : Bytes) (o o' : Option Bytes)
    → Perm w go_name_to_mc_names
    → Final w s d mc o
    → Final go_name_to_mc_names s d mc o'
    → o ≡ o'
unfolding resolve_ambiguous_names
one_name w s d mc none none perm f g = refl
one_name w s d mc none (some n) perm f (a, ms, m, h, e, r) =
    absurd (ground (arith, f a ms ((Perm.mem_iff perm).1 m) h, r))
one_name w s d mc (some n) none perm (a, ms, m, h, e, r) g =
    absurd (ground (arith, g a ms ((Perm.mem_iff perm).0 m) h, r))
one_name w s d mc (some n) (some n') perm (a, ms, m, h, e, r) (a', ms', m', h', e', r') =
    let same = one_group a a' mc ms ms' ((Perm.mem_iff perm).0 m) m' h h' in
    ap some (sym r ∙ ap (λ g. name_in g s d) same ∙ r')

pub final_go_name-perm :
    (w : NameTable) (s d mc : Bytes)
    → Perm w go_name_to_mc_names
    → final_go_name w s d mc ≡ final_go_name go_name_to_mc_names s d mc
final_go_name-perm w s d mc perm =
    one_name w s d mc _ _ perm (final_go_name-Final w s d mc)
      (final_go_name-Final go_name_to_mc_names s d mc)

module _ (title : Bytes → Bytes) (walks : Bytes → NameTable)
    (perm : (mc : Bytes) → Perm (walks mc) go_name_to_mc_names) where
  enter_all-perm :
      (s d : Bytes) (id_map : List (Bytes × ℕ)) (vi : VersionInfo)
      → enter_all title walks s d id_map vi
        ≡ enter_all title (λ mc. go_name_to_mc_names) s d id_map vi
  enter_all-perm s d [] vi = refl
  enter_all-perm s d ((mc, id) ∷ id_map) vi =
      rw (final_go_name-perm (walks mc) s d mc (perm mc)) (enter_all-perm s d id_map _)

  -- The inner loop of processDirection can walk the table of names in another order for each packet:
  -- the tables that come out are the same.
  pub process_direction-perm :
      (s d : Bytes) (id_map : List (Bytes × ℕ)) (vi : VersionInfo)
      → process_direction title walks s d id_map vi
        ≡ process_direction title (λ mc. go_name_to_mc_names) s d id_map vi
  unfolding process_direction
  process_direction-perm s d id_map vi = enter_all-perm s d id_map vi
