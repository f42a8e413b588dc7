-- ===== src/Component/Parts.antt =====
-- What UnmarshalJSON makes of null and of plain strings among the messages.
use gophermc.Base.{
  ◌≡◌, refl, Bool, true, false, ◌||◌, none, some, List, [], ◌∷◌, ◌++◌, append-nil, arith,
}
use gophermc.Base.Json.{
  Json, Elements, Members, null, boolean, number, text, array, object, no_element, element, empty,
  member,
}
use gophermc.Base.Outcome.{Outcome, ok, err, panic}
use gophermc.Component.{ChatComponent, Components, component, nil, cons, string, strings}
use gophermc.Component.Unmarshal.{
  Aux, Slices, Field, text_field, with_field, translate_field, extra_field, other_field, no_aux,
  field_of, store, set_text, set_translate, set_with, set_extra, unmarshal_json, stored, slices,
  with_parts, extra_parts, with_part, extra_part, text_part, built, prepend, finish,
}
use gophermc.Types.{codes}
use gophermc.Wire.Stream.{Bytes}

abbrev pub is_null : Json → Bool
is_null null = true
is_null _ = false

-- A null stands in an array somewhere in the value.
unfoldable mutual
  pub nulls_in : Json → Bool
  nulls_in (array xs) = null_among xs
  nulls_in (object m) = nulls_of m
  nulls_in _ = false

  pub null_among : Elements → Bool
  null_among no_element = false
  null_among (element x xs) = is_null x || nulls_in x || null_among xs

  pub nulls_of : Members → Bool
  nulls_of empty = false
  nulls_of (member key x m) = nulls_in x || nulls_of m

abbrev pub NoPanic : {A : Type 0} → Outcome A → Type 0
NoPanic (ok a) = Unit
NoPanic (err e) = Unit
NoPanic (panic p) = ⊥

abbrev SlicesHold : Slices → Type 0
SlicesHold none = Unit
SlicesHold (some (with, extra)) = NoPanic with × NoPanic extra

abbrev AuxHolds : Aux → Type 0
AuxHolds aux = NoPanic aux.with × NoPanic aux.extra

neither : (a b : Bool) → (a || b) ≡ false → (a ≡ false) × (b ≡ false)
neither a b h = ground arith

prepend-NoPanic : (c : ChatComponent) (o : Outcome Components) → NoPanic o → NoPanic (prepend c o)
prepend-NoPanic c (ok cs) h = tt
prepend-NoPanic c (err e) h = tt
prepend-NoPanic c (panic p) h = h

text_part-NoPanic : (x : Json) (o : Outcome Components) → NoPanic o → NoPanic (text_part x o)
text_part-NoPanic (text s) o h = prepend-NoPanic (component s nil [] nil) o h
text_part-NoPanic null o h = h
text_part-NoPanic (boolean b) o h = h
text_part-NoPanic (number s) o h = h
text_part-NoPanic (array xs) o h = h
text_part-NoPanic (object m) o h = h

with_part-NoPanic :
    (x : Json) (p : Outcome ChatComponent) (o : Outcome Components)
    → NoPanic p
    → NoPanic o
    → NoPanic (with_part x p o)
with_part-NoPanic x (ok c) o h k = prepend-NoPanic c o k
with_part-NoPanic x (err e) o h k = text_part-NoPanic x o k
with_part-NoPanic x (panic p) o h k = h

extra_part-NoPanic :
    (p : Outcome ChatComponent) (o : Outcome Components)
    → NoPanic p
    → NoPanic o
    → NoPanic (extra_part p o)
extra_part-NoPanic (ok c) o h k = prepend-NoPanic c o k
extra_part-NoPanic (err e) o h k = k
extra_part-NoPanic (panic p) o h k = h

set_text-holds : (x : Json) (aux : Aux) → AuxHolds aux → AuxHolds (set_text x aux)
set_text-holds null aux h = h
set_text-holds (boolean b) aux h = h
set_text-holds (number s) aux h = h
set_text-holds (text s) aux h = h
set_text-holds (array xs) aux h = h
set_text-holds (object m) aux h = h

set_translate-holds : (x : Json) (aux : Aux) → AuxHolds aux → AuxHolds (set_translate x aux)
set_translate-holds null aux h = h
set_translate-holds (boolean b) aux h = h
set_translate-holds (number s) aux h = h
set_translate-holds (text s) aux h = h
set_translate-holds (array xs) aux h = h
set_translate-holds (object m) aux h = h

set_with-holds : (s : Slices) (aux : Aux) → SlicesHold s → AuxHolds aux → AuxHolds (set_with s aux)
set_with-holds none aux h k = k
set_with-holds (some (with, extra)) aux h k = (h.0, k.1)

set_extra-holds :
    (s : Slices) (aux : Aux) → SlicesHold s → AuxHolds aux → AuxHolds (set_extra s aux)
set_extra-holds none aux h k = k
set_extra-holds (some (with, extra)) aux h k = (k.0, h.1)

store-holds :
    (f : Field) (x : Json) (s : Slices) (aux : Aux)
    → SlicesHold s
    → AuxHolds aux
    → AuxHolds (store f x s aux)
store-holds text_field x s aux h k = set_text-holds x aux k
store-holds with_field x s aux h k = set_with-holds s aux h k
store-holds translate_field x s aux h k = set_translate-holds x aux k
store-holds extra_field x s aux h k = set_extra-holds s aux h k
store-holds other_field x s aux h k = k

built-NoPanic :
    (t tr : Bytes) (ws es : Outcome Components)
    → NoPanic ws
    → NoPanic es
    → NoPanic (built t tr ws es)
built-NoPanic t tr (ok ws) (ok es) h k = tt
built-NoPanic t tr (ok ws) (err e) h k = tt
built-NoPanic t tr (ok ws) (panic p) h k = k
built-NoPanic t tr (err e) es h k = tt
built-NoPanic t tr (panic p) es h k = h

finish-NoPanic : (b : Bool) (aux : Aux) → aux.failed ≡ b → AuxHolds aux → NoPanic (finish aux)
finish-NoPanic true aux e h = rw e tt
finish-NoPanic false aux e h =
    rw e (built-NoPanic aux.text aux.translate aux.with aux.extra h.0 h.1)

mutual
  unfolding unmarshal_json nulls_in

  unmarshal-NoPanic :
      (j : Json) → is_null j ≡ false → nulls_in j ≡ false → NoPanic (unmarshal_json j)
  unmarshal-NoPanic null h k = cc
  unmarshal-NoPanic (boolean b) h k = tt
  unmarshal-NoPanic (number s) h k = tt
  unmarshal-NoPanic (text s) h k = tt
  unmarshal-NoPanic (array xs) h k = tt
  unmarshal-NoPanic (object m) h k =
      finish-NoPanic (stored m no_aux).failed (stored m no_aux) refl
        (stored-holds m no_aux k (tt, tt))

  stored-holds :
      (m : Members) (aux : Aux) → nulls_of m ≡ false → AuxHolds aux → AuxHolds (stored m aux)
  stored-holds empty aux k h = h
  stored-holds (member key x m) aux k h =
      let (one, others) = neither (nulls_in x) (nulls_of m) k in
      stored-holds m _ others (store-holds (field_of key) x (slices x) aux (slices-hold x one) h)

  slices-hold : (x : Json) → nulls_in x ≡ false → SlicesHold (slices x)
  slices-hold null k = (tt, tt)
  slices-hold (boolean b) k = tt
  slices-hold (number s) k = tt
  slices-hold (text s) k = tt
  slices-hold (array xs) k = (with_parts-hold xs k, extra_parts-hold xs k)
  slices-hold (object m) k = tt

  with_parts-hold : (xs : Elements) → null_among xs ≡ false → NoPanic (with_parts xs)
  with_parts-hold no_element k = tt
  with_parts-hold (element x xs) k =
      let (front, others) = neither (is_null x || nulls_in x) (null_among xs) k in
      let (one, inner) = neither (is_null x) (nulls_in x) front in
      with_part-NoPanic x (unmarshal_json x) (with_parts xs) (unmarshal-NoPanic x one inner)
        (with_parts-hold xs others)

  extra_parts-hold : (xs : Elements) → null_among xs ≡ false → NoPanic (extra_parts xs)
  extra_parts-hold no_element k = tt
  extra_parts-hold (element x xs) k =
      let (front, others) = neither (is_null x || nulls_in x) (null_among xs) k in
      let (one, inner) = neither (is_null x) (nulls_in x) front in
      extra_part-NoPanic (unmarshal_json x) (extra_parts xs) (unmarshal-NoPanic x one inner)
        (extra_parts-hold xs others)

-- UnmarshalJSON panics for no value but null, and one that has a null in an array.
pub unmarshal_json-NoPanic :
    (j : Json) → is_null j ≡ false → nulls_in j ≡ false → NoPanic (unmarshal_json j)
unmarshal_json-NoPanic j h k = unmarshal-NoPanic j h k

-- A list of strings, the components of these texts, and the texts one behind the other.
abbrev pub texts : List Bytes → Elements
texts [] = no_element
texts (s ∷ ss) = element (text s) (texts ss)

abbrev pub parts : List Bytes → Components
parts [] = nil
parts (s ∷ ss) = cons (component s nil [] nil) (parts ss)

abbrev pub joined : List Bytes → Bytes
joined [] = []
joined (s ∷ ss) = s ++ joined ss

with_parts-texts : (ss : List Bytes) → with_parts (texts ss) ≡ ok (parts ss)
unfolding unmarshal_json
with_parts-texts [] = refl
with_parts-texts (s ∷ ss) = rw (with_parts-texts ss) refl

extra_parts-texts : (ss : List Bytes) → extra_parts (texts ss) ≡ ok nil
unfolding unmarshal_json
extra_parts-texts [] = refl
extra_parts-texts (s ∷ ss) = extra_parts-texts ss

strings-parts : (ss : List Bytes) → strings (parts ss) ≡ joined ss
unfolding string
strings-parts [] = refl
strings-parts (s ∷ ss) = rw (append-nil, append-nil, strings-parts ss) refl

-- {"with": […], "extra": […]}
abbrev pub message : List Bytes → List Bytes → Json
message ws es =
    object
      (member (codes "with") (array (texts ws)) (member (codes "extra") (array (texts es)) empty))

-- The strings of "with" are kept, and String puts them one behind the other; those of "extra" are lost.
pub unmarshal_json-message :
    (ws es : List Bytes)
    → (c : ChatComponent) × (unmarshal_json (message ws es) ≡ ok c) × (string c ≡ joined ws)
unfolding unmarshal_json string field_of
unmarshal_json-message ws es = (
  component [] (parts ws) [] nil,
  rw (with_parts-texts ws, extra_parts-texts es) refl,
  rw append-nil (strings-parts ws),
)
