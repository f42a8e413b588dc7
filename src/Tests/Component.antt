-- ===== src/Tests/Component.antt =====
-- UnmarshalJSON at concrete values.
use gophermc.Base.{◌≡◌, refl, [], ◌∷◌}
use gophermc.Base.Json.{null, text, array, object, number, no_element, element, empty, member}
use gophermc.Base.Outcome.{ok, err, panic, json_type, nil_dereference}
use gophermc.Component.{ChatComponent, component, nil, cons, string}
use gophermc.Component.Parts.{
  NoPanic, nulls_in, message, joined, unmarshal_json-NoPanic, unmarshal_json-message,
}
use gophermc.Component.RoundTrip.{marshalled, unmarshal_json-marshalled}
use gophermc.Component.Unmarshal.{unmarshal_json, field_of}
use gophermc.Types.{codes}

-- {"extra": [null]}
null_extra :
    unmarshal_json (object (member (codes "extra") (array (element null no_element)) empty))
    ≡ panic nil_dereference
unfolding unmarshal_json field_of
null_extra = refl

-- {"TEXT": "a", "text": 1}: the number is refused once all was read.
number_for_text :
    unmarshal_json (
      object (
        member
          (codes "TEXT")
          (text (codes "a"))
          (member (codes "text") (number (codes "1")) empty)))
    ≡ err json_type
unfolding unmarshal_json field_of
number_for_text = refl

abbrev greeting : ChatComponent
greeting =
    component (codes "Hello ") (cons (component (codes "Steve") nil [] nil) nil)
      (codes "chat.type.text")
      (cons (component [] nil [] (cons (component (codes "!") nil [] nil) nil)) nil)

unmarshal_json-marshalled_example : unmarshal_json (marshalled greeting) ≡ ok greeting
unmarshal_json-marshalled_example = unmarshal_json-marshalled greeting

unmarshal_json-NoPanic_example :
    NoPanic (unmarshal_json (message (codes "a" ∷ []) (codes "b" ∷ [])))
unfolding nulls_in
unmarshal_json-NoPanic_example =
    unmarshal_json-NoPanic (message (codes "a" ∷ []) (codes "b" ∷ [])) refl refl

unmarshal_json-message_example :
    (c : ChatComponent) × (unmarshal_json (message (codes "a" ∷ codes "b" ∷ []) (codes "c" ∷ []))
      ≡ ok c)
    × (string c ≡ joined (codes "a" ∷ codes "b" ∷ []))
unmarshal_json-message_example =
    unmarshal_json-message (codes "a" ∷ codes "b" ∷ []) (codes "c" ∷ [])
