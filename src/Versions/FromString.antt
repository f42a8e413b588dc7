-- ===== src/Versions/FromString.antt =====
-- `VersionFromString` of protocol/registry.go. Go walks a map in an order of its own choice, which is
-- the list that the loop is given.
pub mod Nearest
pub mod Order
pub mod RoundTrip
use gophermc.Base.{
  ℕ, Bool, true, false, not, ◌&&◌, ◌||◌, Option, none, some, List, [], ◌∷◌, ◌==◌, map,
  if◌then◌else◌,
}
use gophermc.Base.Int.{ℤ, pos, negsuc, int_eq, int_lt}
use gophermc.Packets.Encode.{bytes_eq}
use gophermc.Registry.Definitions.{lookup}
use gophermc.Types.{codes}
use gophermc.Versions.{Version, string_to_version}
use gophermc.Versions.Release.{Release, parse_release}
use gophermc.Wire.Stream.{Bytes}

-- The patch of a known version that counts for `r`: neither of the two `continue`s is taken.
unfoldable pub patch_for : Release → Option Release → Option ℤ
patch_for r none = none
patch_for r (some k) =
    if not (int_eq k.major r.major) || not (int_eq k.minor r.minor)
    then none
    else if r.has_patch && int_lt r.patch k.patch
    then none
    else some k.patch

-- `if kPatch > bestPatch { … }`
unfoldable pub keep_better : Option ℤ → Version → ℤ × Version → ℤ × Version
keep_better none v best = best
keep_better (some patch) v (best, w) = if int_lt best patch then (patch, v) else (best, w)

unfoldable pub closest : Release → List (Bytes × Version) → ℤ × Version → ℤ × Version
unfolding patch_for keep_better parse_release
closest r [] best = best
closest r ((name, v) ∷ known) best =
    closest r known (keep_better (patch_for r (parse_release name)) v best)

-- `if bestPatch >= 0 { return bestVersion, true }`
abbrev pub found_version : ℤ × Version → Option Version
found_version (pos patch, v) = some v
found_version (negsuc n, v) = none

unfoldable pub nearest_version : List (Bytes × Version) → Option Release → Option Version
unfolding closest
nearest_version order none = none
nearest_version order (some r) = found_version (closest r order (negsuc 0, 0))

unfoldable pub known_or : Option Version → Option Version → Option Version
known_or (some v) other = some v
known_or none other = other

unfoldable pub version_from_string : List (Bytes × Version) → Bytes → Option Version
unfolding nearest_version known_or
version_from_string order s =
    known_or (lookup bytes_eq s string_to_version) (nearest_version order (parse_release s))

-- `versionToString`, which `init` makes of the other map.
unfoldable pub version_to_string : List (Version × Bytes)
unfolding string_to_version
version_to_string = map (λ (name, v). (v, name)) string_to_version

name_or_unknown : Option Bytes → Bytes
name_or_unknown (some name) = name
name_or_unknown none = codes "Unknown"

-- Version.String
unfoldable pub version_string : Version → Bytes
unfolding version_to_string name_or_unknown
version_string v = name_or_unknown (lookup ◌==◌ v version_to_string)
