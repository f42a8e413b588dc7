-- ===== src/Generator/Versions.antt =====
-- The choice of versions of generator/main.go: which directories count, and their protocol numbers.
use gophermc.Base.{
  ℕ, Bool, true, false, ◌&&◌, none, some, List, [], ◌∷◌, ◌==◌, leb, all, if◌then◌else◌,
}
use gophermc.Packets.Encode.{bytes_eq}
use gophermc.Registry.Definitions.{lookup}
use gophermc.Versions.Release.{split_dots}
use gophermc.Wire.Stream.{Bytes}

abbrev is_digit : ℕ → Bool
is_digit b = leb b'0' b && leb b b'9'

abbrev is_number : Bytes → Bool
is_number [] = false
is_number (b ∷ bs) = is_digit b && all is_digit bs

abbrev are_release_parts : List Bytes → Bool
are_release_parts (major ∷ minor ∷ []) = is_number major && is_number minor
are_release_parts (major ∷ minor ∷ patch ∷ []) =
    is_number major && is_number minor && is_number patch
are_release_parts _ = false

-- `^\d+\.\d+(\.\d+)?$`
unfoldable pub is_release_version : Bytes → Bool
unfolding split_dots
is_release_version s = are_release_parts (split_dots s)

-- `^\d{2}w\d{2}[a-z]$`
unfoldable pub is_snapshot_version : Bytes → Bool
is_snapshot_version (a ∷ b ∷ w ∷ c ∷ d ∷ z ∷ []) =
    is_digit a && is_digit b && w == b'w' && is_digit c && is_digit d && leb b'a' z && leb z b'z'
is_snapshot_version _ = false

unfoldable pub has_prefix : Bytes → Bytes → Bool
has_prefix s [] = true
has_prefix [] (b ∷ prefix) = false
has_prefix (c ∷ s) (b ∷ prefix) = c == b && has_prefix s prefix

abbrev first_with_prefix : Bytes → List (Bytes × ℕ) → ℕ
first_with_prefix version_str [] = 0
first_with_prefix version_str ((v, p) ∷ rest) =
    let later = first_with_prefix version_str rest in if has_prefix v version_str then p else later

-- `version_map` in the order in which the loop walks it.
unfoldable pub find_best_proto_num : Bytes → List (Bytes × ℕ) → ℕ
unfolding has_prefix
find_best_proto_num version_str version_map = elim (lookup bytes_eq version_str version_map) [
  | some p ↦ p
  | none ↦ first_with_prefix version_str version_map
]
