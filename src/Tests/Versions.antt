-- ===== src/Tests/Versions.antt =====
-- VersionFromString at the texts of registry_test.go.
use mathlib.Core.List.{mem-cons_self}
use mathlib.Core.List.Perm
use gophermc.Base.{◌≡◌, refl, none, some, List, ◌∷◌, drop}
use gophermc.Types.{codes}
use gophermc.Wire.Stream.{Bytes}
use gophermc.Versions.{Version, string_to_version, v1_8, v1_7, v1_21_1, v1_21_8, v1_21_11}
use gophermc.Versions.FromString.{version_from_string, version_string}
use gophermc.Versions.FromString.Order.{Finds, version_from_string-Finds, version_from_string-perm}
use gophermc.Versions.FromString.RoundTrip.{version_from_string-version_string}
use gophermc.Versions.Release.{parse_release}

exact : version_from_string string_to_version (codes "1.21.8") ≡ some v1_21_8
unfolding version_from_string parse_release string_to_version
exact = refl

future_patch : version_from_string string_to_version (codes "1.21.999") ≡ some v1_21_11
unfolding version_from_string parse_release string_to_version
future_patch = refl

lower_patch : version_from_string string_to_version (codes "1.21.2") ≡ some v1_21_1
unfolding version_from_string parse_release string_to_version
lower_patch = refl

snapshot : version_from_string string_to_version (codes "25w37a") ≡ none
unfolding version_from_string parse_release string_to_version
snapshot = refl

version_from_string-Finds_example :
    Finds string_to_version
      (codes "1.21.2")
      (version_from_string string_to_version (codes "1.21.2"))
version_from_string-Finds_example = version_from_string-Finds string_to_version (codes "1.21.2")

abbrev swapped : List (Bytes × Version)
swapped = (codes "1.8", v1_8) ∷ (codes "1.7", v1_7) ∷ drop 2 string_to_version

version_from_string-perm_example :
    version_from_string swapped (codes "1.21.2")
    ≡ version_from_string string_to_version (codes "1.21.2")
unfolding string_to_version
version_from_string-perm_example =
    version_from_string-perm swapped (codes "1.21.2") (Perm.swap _ _ _)

version_from_string-version_string_example :
    (version_string v1_7 ≡ codes "1.7")
    × (version_from_string string_to_version (version_string v1_7) ≡ some v1_7)
unfolding string_to_version
version_from_string-version_string_example =
    version_from_string-version_string string_to_version (codes "1.7") v1_7 mem-cons_self
