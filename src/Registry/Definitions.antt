-- ===== src/Registry/Definitions.antt =====
-- The `Definition` of protocol/registry.go. A Go map is the list of its entries, whose keys differ.
use Prim.Native.String.{String}
use text.Mathlib.Text.{◌==◌ as str_eq}
use gophermc.Base.{ℕ, Bool, Option, none, some, List, [], ◌∷◌, ◌==◌, if◌then◌else◌}
use gophermc.Types.{State, Direction, state_eq, direction_eq}

abbrev pub DirectionMap : Type 0 → Type 0
DirectionMap A = List (Direction × List A)

-- map[State]map[Direction]map[…]…
abbrev pub StateMap : Type 0 → Type 0
StateMap A = List (State × DirectionMap A)

pub record Definition : Type 0 where
  pub protocol_version : ℕ
  pub packet_ids : StateMap (String × ℕ)
  pub packet_names : StateMap (ℕ × String)

-- `m[k]`, with the entry's presence.
module _ {K V : Type 0} (eq : K → K → Bool) where
  abbrev pub lookup : K → List (K × V) → Option V
  lookup k [] = none
  lookup k ((j, v) ∷ m) = if eq j k then some v else lookup k m

-- `m[k]` of a map of maps: a missing key gives the nil map, which has no entries.
abbrev pub entries : {A : Type 0} → Option (List A) → List A
entries none = []
entries (some m) = m

-- `m[s][d]`
abbrev pub entries_at : {A : Type 0} → State → Direction → StateMap A → List A
entries_at s d m = entries (lookup direction_eq d (entries (lookup state_eq s m)))

-- `def.PacketNames[s][d][id]` and `def.PacketIDs[s][d][name]`
unfoldable pub packet_name : Definition → State → Direction → ℕ → Option String
packet_name def s d id = lookup ◌==◌ id (entries_at s d def.packet_names)

unfoldable pub packet_id : Definition → State → Direction → String → Option ℕ
packet_id def s d name = lookup str_eq name (entries_at s d def.packet_ids)
