-- ===== src/Registry/Consistency.antt =====
-- The two maps of every generated table are inverse to each other.
use Prim.Native.String.{String}
use text.Mathlib.Text.{◌==◌ as str_eq}
use text.Mathlib.TextEquality.{eq_iff}
use gophermc.Base.{
  ℕ, zero, suc, ◌≡◌, refl, sym, ap, ◌∙◌, ◌↔◌, Bool, true, false, ◌&&◌, Option, none, some, List, [],
  ◌∷◌, ◌==◌, ==_iff, all, arith, Bool-cases, Option-cases, inl, inr,
}
use gophermc.Types.{State, Direction, state_code, state_eq, direction_eq, serverbound, clientbound}
use gophermc.Registry.Definitions.{
  Definition, StateMap, DirectionMap, lookup, entries, entries_at, packet_name, packet_id,
}
use gophermc.Registry.{Registry, find_from, found, remember, get_definition}
use gophermc.Registry.Cache.{get_definition-found, get_definition-remembered}
use gophermc.Registry.Tables.{protocol_registry}
use gophermc.Versions.{Version}

-- What a lookup finds is an entry, with whatever was checked of all entries.
pub lookup_checked :
    {K V : Type 0} (eq : K → K → Bool) (p : K × V → Bool) (k : K) (m : List (K × V)) {v : V}
    → all p m ≡ true
    → lookup eq k m ≡ some v
    → (j : K) × (eq j k ≡ true) × (p (j, v) ≡ true)
lookup_checked eq p k [] a e = cc
lookup_checked eq p k ((j, w) ∷ m) a e = elim (Bool-cases (eq j k)) [
  | inl same ↦ (j, same, ground arith)
  | inr other ↦ lookup_checked eq p k m (ground arith) (ground arith)
]

abbrev pub is_some_string : String → Option String → Bool
is_some_string s none = false
is_some_string s (some t) = str_eq t s

abbrev is_some_number : ℕ → Option ℕ → Bool
is_some_number n none = false
is_some_number n (some k) = k == n

-- `p` of every entry of a map of maps of maps.
unfoldable pub all_entries : {A : Type 0} → (State → Direction → A → Bool) → StateMap A → Bool
all_entries p m = all (λ (s, dm). all (λ (d, es). all (p s d) es) dm) m

abbrev id_is_name : Definition → State → Direction → String × ℕ → Bool
id_is_name def s d (name, id) = is_some_string name (packet_name def s d id)

abbrev name_is_id : Definition → State → Direction → ℕ × String → Bool
name_is_id def s d (id, name) = is_some_number id (packet_id def s d name)

ids_are_names : Definition → Bool
unfolding all_entries
ids_are_names def = all_entries (id_is_name def) def.packet_ids

names_are_ids : Definition → Bool
unfolding all_entries
names_are_ids def = all_entries (name_is_id def) def.packet_names

is_consistent : Definition → Bool
unfolding ids_are_names names_are_ids
is_consistent def = ids_are_names def && names_are_ids def

-- Every table passes both checks, by evaluation.
tables_pass : all (λ (v, def). is_consistent def) protocol_registry ≡ true
unfolding is_consistent protocol_registry packet_name packet_id
tables_pass = refl

direction_eq→eq : (d e : Direction) → direction_eq d e ≡ true → d ≡ e
direction_eq→eq serverbound serverbound h = refl
direction_eq→eq clientbound clientbound h = refl
direction_eq→eq serverbound clientbound h = cc
direction_eq→eq clientbound serverbound h = cc

-- States with one number behind them have the same entries.
lookup-same_code :
    {A : Type 0} (s t : State) (m : StateMap A)
    → state_eq s t ≡ true
    → lookup state_eq s m ≡ lookup state_eq t m
lookup-same_code s t [] h = refl
lookup-same_code s t ((u, v) ∷ m) h =
    let e : state_code s ≡ state_code t = (==_iff (state_code s) (state_code t)).0 h in
    rw (e, lookup-same_code s t m h)

module _ {K V : Type 0} (eq : K → K → Bool) (p : State → Direction → K × V → Bool) where
  checked_entries :
      (es : List (K × V)) (t : State) (d : Direction) (k : K) {v : V}
      → all (p t d) es ≡ true
      → lookup eq k es ≡ some v
      → (j : K) × (eq j k ≡ true) × (p t d (j, v) ≡ true)
  checked_entries es t d k a e = lookup_checked eq (p t d) k es a e

  checked_direction :
      (dm : DirectionMap (K × V)) (t : State) (d : Direction) (k : K) {v : V}
      → all (λ (d, es). all (p t d) es) dm ≡ true
      → lookup eq k (entries (lookup direction_eq d dm)) ≡ some v
      → (j : K) × (eq j k ≡ true) × (p t d (j, v) ≡ true)
  checked_direction dm t d k {v} a e = elim (Option-cases (lookup direction_eq d dm)) [
    | inl none_there ↦ cc (rw none_there at e)
    | inr (es, there) ↦
        checked_direction_at es
          (lookup_checked direction_eq (λ (d, es). all (p t d) es) d dm a there) (rw there at e)
  ]
    where
      checked_direction_at :
          (es : List (K × V))
          → (c : Direction) × (direction_eq c d ≡ true) × (all (p t c) es ≡ true)
          → lookup eq k es ≡ some v
          → (j : K) × (eq j k ≡ true) × (p t d (j, v) ≡ true)
      checked_direction_at es (c, same, checked) e =
          checked_entries es t d k (rw (direction_eq→eq c d same) at checked) e

  -- What stands at a state, a direction and a key was checked, at a state of the same number.
  pub all_entries_checked :
      (m : StateMap (K × V)) (s : State) (d : Direction) (k : K) {v : V}
      → all_entries p m ≡ true
      → lookup eq k (entries_at s d m) ≡ some v
      → (t : State) × (state_eq t s ≡ true) × ((j : K) × (eq j k ≡ true) × (p t d (j, v) ≡ true))
  unfolding all_entries
  all_entries_checked m s d k a e = elim (Option-cases (lookup state_eq s m)) [
    | inl none_there ↦ cc (rw none_there at e)
    | inr (dm, there) ↦
        let (t, same, checked) =
          lookup_checked state_eq (λ (s, dm). all (λ (d, es). all (p s d) es) dm) s m a there in
        (t, same, checked_direction dm t d k checked (rw there at e))
  ]

-- Lookups at states of one number agree.
packet_name-same_code :
    (def : Definition) (s t : State) (d : Direction) (id : ℕ)
    → state_eq t s ≡ true
    → packet_name def t d id ≡ packet_name def s d id
unfolding packet_name
packet_name-same_code def s t d id h = rw (lookup-same_code t s def.packet_names h)

packet_id-same_code :
    (def : Definition) (s t : State) (d : Direction) (name : String)
    → state_eq t s ≡ true
    → packet_id def t d name ≡ packet_id def s d name
unfolding packet_id
packet_id-same_code def s t d name h = rw (lookup-same_code t s def.packet_ids h)

pub is_some_string→eq : (s : String) (o : Option String) → is_some_string s o ≡ true → o ≡ some s
is_some_string→eq s none h = cc
is_some_string→eq s (some t) h = ap some ((eq_iff t s).0 h)

is_some_number→eq : (n : ℕ) (o : Option ℕ) → is_some_number n o ≡ true → o ≡ some n
is_some_number→eq n none h = cc
is_some_number→eq n (some k) h = ground arith

name_of_id :
    (def : Definition) (s : State) (d : Direction) (name : String) (id : ℕ)
    → ids_are_names def ≡ true
    → packet_id def s d name ≡ some id
    → packet_name def s d id ≡ some name
unfolding ids_are_names packet_id
name_of_id def s d name id c e =
    let (t, same, (j, key, checked)) =
      all_entries_checked str_eq (id_is_name def) def.packet_ids s d name c e in
    sym (packet_name-same_code def s t d id same)
    ∙ is_some_string→eq j (packet_name def t d id) checked
    ∙ ap some ((eq_iff j name).0 key)

id_of_name :
    (def : Definition) (s : State) (d : Direction) (name : String) (id : ℕ)
    → names_are_ids def ≡ true
    → packet_name def s d id ≡ some name
    → packet_id def s d name ≡ some id
unfolding names_are_ids packet_name
id_of_name def s d name id c e =
    let (t, same, (j, key, checked)) =
      all_entries_checked ◌==◌ (name_is_id def) def.packet_names s d id c e in
    sym (packet_id-same_code def s t d name same)
    ∙ is_some_number→eq j (packet_id def t d name) checked
    ∙ ap some ((==_iff j id).0 key)

-- What GetDefinition answers is a table of the registry.
module _ (p : Version × Definition → Bool) (reg : Registry) (a : all p reg ≡ true) where
  found_checked :
      (v : Version) {def : Definition}
      → found (find_from reg v) ≡ some def
      → (w : Version) × (p (w, def) ≡ true)
  unfolding find_from
  found_checked zero {def} e = elim (Option-cases (lookup ◌==◌ 0 reg)) [
    | inl absent ↦ cc (rw (absent, found, find_from) at e)
    | inr (other, there) ↦
        let (w, _, checked) = lookup_checked ◌==◌ p 0 reg a there in
        let same : some other ≡ some def = rw (there, found, find_from) at e in
        (w, cc (checked, same))
  ]
  found_checked (suc v) {def} e = elim (Option-cases (lookup ◌==◌ (suc v) reg)) [
    | inl absent ↦ found_checked v (rw (absent, found, find_from) at e)
    | inr (other, there) ↦
        let (w, _, checked) = lookup_checked ◌==◌ p (suc v) reg a there in
        let same : some other ≡ some def = rw (there, found, find_from) at e in
        (w, cc (checked, same))
  ]

  pub get_definition_checked :
      (v : Version) {def : Definition}
      → (get_definition v reg).0 ≡ some def
      → (w : Version) × (p (w, def) ≡ true)
  get_definition_checked v e = found_checked v (sym (get_definition-found v reg) ∙ e)

-- What holds of all tables still does after the table that was found is added once more.
remember-all :
    (q : Definition → Bool) (o : Option (Version × Definition)) (v : Version) (reg : Registry)
    → all (λ (v, def). q def) reg ≡ true
    → ((def : Definition) → found o ≡ some def → q def ≡ true)
    → all (λ (v, def). q def) (remember v o reg).1 ≡ true
unfolding remember
remember-all q none v reg a h = a
remember-all q (some (c, def)) v reg a h = elim (Bool-cases (c == v)) [
  | inl same ↦ rw same a
  | inr older ↦ rw older (rw (h def refl) a)
]

pub get_definition-all :
    (q : Definition → Bool) (v : Version) (reg : Registry)
    → all (λ (v, def). q def) reg ≡ true
    → all (λ (v, def). q def) (get_definition v reg).1 ≡ true
get_definition-all q v reg a = rw get_definition-remembered (
    remember-all q (find_from reg v) v reg a
      (λ def e. (found_checked (λ (v, def). q def) reg a v e).1))

and_parts : (a b : Bool) → (a && b) ≡ true → (a ≡ true) × (b ≡ true)
and_parts a b h = ground arith

-- Every version that has a table at all, its own or an older one's, has one whose two maps are
-- inverse: a packet name has a number exactly if that number has that name, in each state and
-- direction.
pub packet_id-packet_name :
    (v : Version) {def : Definition}
    → (get_definition v protocol_registry).0 ≡ some def
    → (s : State) (d : Direction) (name : String) (id : ℕ)
    → (packet_id def s d name ≡ some id) ↔ (packet_name def s d id ≡ some name)
unfolding is_consistent
packet_id-packet_name v {def} h s d name id =
    let (w, checked) =
      get_definition_checked (λ (v, def). is_consistent def) protocol_registry tables_pass v h in
    let (ids, names) = and_parts (ids_are_names def) (names_are_ids def) checked in
    (name_of_id def s d name id ids, id_of_name def s d name id names)
