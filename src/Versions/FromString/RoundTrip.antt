-- ===== src/Versions/FromString/RoundTrip.antt =====
-- Version.String and VersionFromString on the known versions.
use mathlib.Core.List.{Mem}
use gophermc.Base.{
  ◌≡◌, refl, Bool, true, false, ◌&&◌, Option, none, some, List, [], ◌∷◌, ◌==◌, all, arith,
}
use gophermc.Packets.Encode.{bytes_eq}
use gophermc.Registry.Definitions.{lookup}
use gophermc.Versions.{Version, string_to_version}
use gophermc.Versions.FromString.{version_from_string, version_string}
use gophermc.Versions.FromString.Order.{all-mem}
use gophermc.Wire.Stream.{Bytes}

pub bytes_eq→eq : (a b : Bytes) → bytes_eq a b ≡ true → a ≡ b
bytes_eq→eq [] [] h = refl
bytes_eq→eq [] (b ∷ bs) h = cc
bytes_eq→eq (a ∷ as') [] h = cc
bytes_eq→eq (a ∷ as') (b ∷ bs) h = ground (arith, bytes_eq→eq as' bs)

abbrev is_version : Version → Option Version → Bool
is_version v none = false
is_version v (some w) = v == w

is_version→eq : (v : Version) (o : Option Version) → is_version v o ≡ true → o ≡ some v
is_version→eq v none h = cc
is_version→eq v (some w) h = ground arith

abbrev returns : Bytes × Version → Bool
returns (name, v) =
    bytes_eq (version_string v) name && is_version v (lookup bytes_eq name string_to_version)

names_return : all returns string_to_version ≡ true
unfolding string_to_version version_string
names_return = refl

version_from_string-known :
    (order : List (Bytes × Version)) (name : Bytes) (v : Version)
    → lookup bytes_eq name string_to_version ≡ some v
    → version_from_string order name ≡ some v
unfolding version_from_string
version_from_string-known order name v e = rw e

and_parts : (a b : Bool) → (a && b) ≡ true → (a ≡ true) × (b ≡ true)
and_parts a b h = ground arith

-- A known version's String is its name, and VersionFromString of that name is the version again.
pub version_from_string-version_string :
    (order : List (Bytes × Version)) (name : Bytes) (v : Version)
    → Mem (name, v) string_to_version
    → (version_string v ≡ name) × (version_from_string order (version_string v) ≡ some v)
version_from_string-version_string order name v m =
    let checked : returns (name, v) ≡ true = all-mem returns string_to_version names_return m in
    let (same, there) = and_parts _ _ checked in
    let string : version_string v ≡ name = bytes_eq→eq (version_string v) name same in
    (
      string,
      rw string (
          version_from_string-known order name v
            (is_version→eq v (lookup bytes_eq name string_to_version) there)),
    )
