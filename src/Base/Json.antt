-- ===== src/Base/Json.antt =====
-- The values that encoding/json reads. (A value that holds lists of values is three
-- data types in one block.)
use mathlib.Core.Bool.{Bool}
use mathlib.Core.Option.{Option, none, some}
use mathlib.Core.List.{List, [], ◌∷◌}
use Prim.Native.Nat.{ℕ}

abbrev Bytes : Type 0
Bytes = List ℕ

mutual
  pub data Json : Type 0 where
    null : Json
    boolean : Bool → Json
    number : (text : Bytes) → Json
    text : Bytes → Json
    array : Elements → Json
    object : Members → Json

  pub data Elements : Type 0 where
    no_element : Elements
    element : Json → Elements → Elements

  -- map[string]interface{}; the nil map has no entries.
  pub data Members : Type 0 where
    empty : Members
    member : (key : Bytes) → Json → Members → Members

abbrev pub elements : Elements → List Json
elements no_element = []
elements (element x xs) = x ∷ elements xs

abbrev pub members : Members → List (Bytes × Json)
members empty = []
members (member key x m) = (key, x) ∷ members m

-- `v.([]interface{})`, `v.(map[string]interface{})` and `v.(string)`; a missing value is nil.
abbrev pub as_array : Option Json → Option (List Json)
as_array (some (array xs)) = some (elements xs)
as_array _ = none

abbrev pub as_object : Option Json → Option (List (Bytes × Json))
as_object (some (object m)) = some (members m)
as_object _ = none

abbrev pub as_text : Option Json → Option Bytes
as_text (some (text s)) = some s
as_text _ = none
