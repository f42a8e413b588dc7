-- ===== src/Component/Unmarshal.antt =====
-- `UnmarshalJSON` of component/component.go, and what encoding/json does in its calls. A text that is
-- no JSON, or is nested too deep, is refused before; here it is the value that the text stands for.
use gophermc.Base.{
  ℕ, ◌+◌, Bool, true, false, ◌&&◌, [], ◌∷◌, ◌==◌, Option, none, some, leb, if◌then◌else◌,
}
use gophermc.Base.Json.{
  Json, Elements, Members, null, text, array, object, no_element, element, empty, member,
}
use gophermc.Base.Outcome.{Outcome, ok, err, panic, json_type, nil_dereference}
use gophermc.Component.{ChatComponent, Components, component, nil, cons}
use gophermc.Packets.Encode.{bytes_eq}
use gophermc.Types.{codes}
use gophermc.Wire.Stream.{Bytes}

abbrev lower : ℕ → ℕ
lower b = if leb b'A' b && leb b b'Z' then b + 32 else b

-- A key in lower case. (0xC5 0xBF is another form of the letter s.)
unfoldable pub fold : Bytes → Bytes
fold [] = []
fold (b ∷ []) = lower b ∷ []
fold (b ∷ c ∷ bs) =
    let after = fold bs in
    let from_next = fold (c ∷ bs) in
    if b == 0xc5 && c == 0xbf then b's' ∷ after else lower b ∷ from_next

-- The field that a key is for.
pub data Field : Type 0 where
  text_field with_field translate_field extra_field other_field : Field

unfoldable pub field_of : Bytes → Field
unfolding fold
field_of key =
    let name = fold key in
    if bytes_eq name (codes "text")
    then text_field
    else if bytes_eq name (codes "with")
    then with_field
    else if bytes_eq name (codes "translate")
    then translate_field
    else if bytes_eq name (codes "extra")
    then extra_field
    else other_field

-- `aux`, and the fields of `c`: what comes of the raw messages is worked out at once, and used only
-- where UnmarshalJSON comes to it.
pub record Aux : Type 0 where
  pub text : Bytes
  pub translate : Bytes
  pub with : Outcome Components
  pub extra : Outcome Components
  -- A value was of the wrong type: the call ends with an error, once all was read.
  pub failed : Bool

abbrev pub no_aux : Aux
no_aux = record { text = []; translate = []; with = ok nil; extra = ok nil; failed = false }

abbrev pub failing : Aux → Aux
failing aux = record aux { failed = true }

-- A value for a string field: null changes nothing.
abbrev pub set_text : Json → Aux → Aux
set_text (text s) aux = record aux { text = s }
set_text null aux = aux
set_text _ aux = failing aux

abbrev pub set_translate : Json → Aux → Aux
set_translate (text s) aux = record aux { translate = s }
set_translate null aux = aux
set_translate _ aux = failing aux

-- What comes of the raw messages of an array, read for With and for Extra; `none` for a value that is
-- no array and not null.
abbrev pub Slices : Type 0
Slices = Option (Outcome Components × Outcome Components)

abbrev pub set_with : Slices → Aux → Aux
set_with none aux = failing aux
set_with (some (with, extra)) aux = record aux { with = with }

abbrev pub set_extra : Slices → Aux → Aux
set_extra none aux = failing aux
set_extra (some (with, extra)) aux = record aux { extra = extra }

abbrev pub store : Field → Json → Slices → Aux → Aux
store text_field x slices aux = set_text x aux
store with_field x slices aux = set_with slices aux
store translate_field x slices aux = set_translate x aux
store extra_field x slices aux = set_extra slices aux
store other_field x slices aux = aux

abbrev pub prepend : ChatComponent → Outcome Components → Outcome Components
prepend c (ok cs) = ok (cons c cs)
prepend c (err e) = err e
prepend c (panic p) = panic p

-- A message that is no component is read as a string; what is neither is left out.
abbrev pub text_part : Json → Outcome Components → Outcome Components
text_part (text s) rest = prepend (component s nil [] nil) rest
text_part _ rest = rest

abbrev pub with_part : Json → Outcome ChatComponent → Outcome Components → Outcome Components
with_part x (ok c) rest = prepend c rest
with_part x (err e) rest = text_part x rest
with_part x (panic p) rest = panic p

abbrev pub extra_part : Outcome ChatComponent → Outcome Components → Outcome Components
extra_part (ok c) rest = prepend c rest
extra_part (err e) rest = rest
extra_part (panic p) rest = panic p

abbrev pub built : Bytes → Bytes → Outcome Components → Outcome Components → Outcome ChatComponent
built t tr (ok with) (ok extra) = ok (component t with tr extra)
built t tr (ok with) (err e) = err e
built t tr (ok with) (panic p) = panic p
built t tr (err e) extra = err e
built t tr (panic p) extra = panic p

abbrev pub finish : Aux → Outcome ChatComponent
finish aux = if aux.failed then err json_type else built aux.text aux.translate aux.with aux.extra

unfoldable mutual
  unfolding field_of

  -- UnmarshalJSON of a new ChatComponent. For null the inner call leaves `aux` nil.
  pub unmarshal_json : Json → Outcome ChatComponent
  unmarshal_json null = panic nil_dereference
  unmarshal_json (object m) = finish (stored m no_aux)
  unmarshal_json _ = err json_type

  pub stored : Members → Aux → Aux
  stored empty aux = aux
  stored (member key x m) aux = stored m (store (field_of key) x (slices x) aux)

  pub slices : Json → Slices
  slices null = some (ok nil, ok nil)
  slices (array xs) = some (with_parts xs, extra_parts xs)
  slices _ = none

  pub with_parts : Elements → Outcome Components
  with_parts no_element = ok nil
  with_parts (element x xs) = with_part x (unmarshal_json x) (with_parts xs)

  pub extra_parts : Elements → Outcome Components
  extra_parts no_element = ok nil
  extra_parts (element x xs) = extra_part (unmarshal_json x) (extra_parts xs)
