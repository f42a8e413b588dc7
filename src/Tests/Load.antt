-- ===== src/Tests/Load.antt =====
-- The generator's choice of versions.
use gophermc.Base.{ℕ, ◌≡◌, refl, true, none, some, List, [], ◌∷◌}
use gophermc.Base.Json.{empty}
use gophermc.Generator.Load.{
  Directory, load_protocol_versions, load_and_parse_protocols, AreTaken,
  load_and_parse_protocols-AreTaken,
}
use gophermc.Generator.Names.{go_name_to_mc_names}
use gophermc.Generator.Snapshot.{IsHighest, load_protocol_versions-IsHighest}
use gophermc.Types.{codes}
use gophermc.Wire.Stream.{Bytes}

abbrev listed : List (Bytes × ℕ)
listed =
    (codes "25w36b", 1073742082)
    ∷ (codes "1.21.8", 772)
    ∷ (codes "25w37a", 1073742083)
    ∷ (codes "1.21.8", 773)
    ∷ []

latest_listed : (load_protocol_versions listed).1 ≡ codes "25w37a"
unfolding load_protocol_versions
latest_listed = refl

load_protocol_versions-IsHighest_example :
    (proto : ℕ) × IsHighest listed ([], 0) ((load_protocol_versions listed).1, proto)
load_protocol_versions-IsHighest_example = load_protocol_versions-IsHighest listed

-- A release, a file, and a directory of other data.
abbrev listing : List Directory
listing =
    record {
      name = codes "1.21.8";
      is_dir = true;
      states = some ((codes "play", (empty, empty)) ∷ []);
    }
    ∷ record { name = codes "common"; is_dir = true; states = none }
    ∷ []

load_and_parse_protocols-AreTaken_example :
    AreTaken
      (λ text. text)
      (λ mc. go_name_to_mc_names)
      (λ name. listed)
      (codes "25w37a")
      listing
      (load_and_parse_protocols
        (λ text. text)
        (λ mc. go_name_to_mc_names)
        (λ name. listed)
        (codes "25w37a")
        listing)
load_and_parse_protocols-AreTaken_example =
    load_and_parse_protocols-AreTaken (λ text. text) (λ mc. go_name_to_mc_names) (λ name. listed)
      (codes "25w37a") listing
