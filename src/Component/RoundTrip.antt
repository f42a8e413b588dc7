-- ===== src/Component/RoundTrip.antt =====
-- What json.Marshal makes of a ChatComponent, UnmarshalJSON reads back.
use gophermc.Base.{◌≡◌, refl, some}
use gophermc.Base.Json.{
  Json, Elements, null, text, array, object, no_element, element, empty, member,
}
use gophermc.Base.Outcome.{Outcome, ok}
use gophermc.Component.{ChatComponent, Components, component, nil, cons}
use gophermc.Component.Unmarshal.{field_of, unmarshal_json, slices, with_parts, extra_parts, built}
use gophermc.Types.{codes}
use gophermc.Wire.Stream.{Bytes}

-- json.Marshal of the struct: its fields in order, a nil slice as null.
unfoldable mutual
  pub marshalled : ChatComponent → Json
  marshalled (component t with translate extra) = object (
      member (codes "text") (text t) (
        member (codes "with") (slice with) (
          member (codes "translate") (text translate)
            (member (codes "extra") (slice extra) empty))))

  pub slice : Components → Json
  slice nil = null
  slice (cons c cs) = array (element (marshalled c) (each cs))

  pub each : Components → Elements
  each nil = no_element
  each (cons c cs) = element (marshalled c) (each cs)

-- An object of the four fields.
fields_read :
    (t translate : Bytes) (with extra : Json) (ws es : Outcome Components)
    (other other' : Outcome Components)
    → slices with ≡ some (ws, other)
    → slices extra ≡ some (other', es)
    → unmarshal_json (
        object (
          member (codes "text") (text t) (
            member
              (codes "with")
              with
              (member (codes "translate") (text translate) (member (codes "extra") extra empty)))))
      ≡ built t translate ws es
unfolding unmarshal_json field_of
fields_read t translate with extra ws es other other' h k = rw (h, k) refl

mutual
  unfolding marshalled unmarshal_json

  marshalled_back : (c : ChatComponent) → unmarshal_json (marshalled c) ≡ ok c
  marshalled_back (component t with translate extra) =
      fields_read t translate (slice with) (slice extra) (ok with) (ok extra) (ok with) (ok extra)
        (slice_back with) (slice_back extra)

  slice_back : (cs : Components) → slices (slice cs) ≡ some (ok cs, ok cs)
  slice_back nil = refl
  slice_back (cons c cs) = rw (marshalled_back c, with_back cs, extra_back cs) refl

  with_back : (cs : Components) → with_parts (each cs) ≡ ok cs
  with_back nil = refl
  with_back (cons c cs) = rw (marshalled_back c, with_back cs) refl

  extra_back : (cs : Components) → extra_parts (each cs) ≡ ok cs
  extra_back nil = refl
  extra_back (cons c cs) = rw (marshalled_back c, extra_back cs) refl

-- UnmarshalJSON reads back every component from its fields as json.Marshal writes them: the texts, and
-- the components within, however deep.
pub unmarshal_json-marshalled : (c : ChatComponent) → unmarshal_json (marshalled c) ≡ ok c
unmarshal_json-marshalled c = marshalled_back c
