-- ===== src/Tests/Generator.antt =====
-- The generator at a small protocol file.
use mathlib.Core.List.Perm
use gophermc.Base.{
  Bool, if◌then◌else◌, Option, some, ℕ, ◌≡◌, refl, ◌-◌, true, false, none, List, [], ◌∷◌, drop,
  arith,
}
use gophermc.Generator.{VersionInfo, process_direction, final_go_name, process_version}
use mathlib.Core.Path.{subst}
use gophermc.Generator.Entries.{AreInverse, eq_bytes}
use gophermc.Generator.Inverse.{Filled, process_direction-Filled}
use gophermc.Generator.Whole.{IsSeparate, process_version-AreInverse}
use gophermc.Packets.Encode.{bytes_eq}
use gophermc.Versions.FromString.RoundTrip.{bytes_eq→eq}
use gophermc.Base.Json.{Members, text, array, object, no_element, element, empty, member}
use gophermc.Generator.Mappings.{pre_parse_packet_ids, parse_int}
use gophermc.Generator.Names.{NameTable, go_name_to_mc_names}
use gophermc.Generator.Order.{process_direction-perm}
use gophermc.Generator.Versions.{is_release_version, is_snapshot_version, find_best_proto_num}
use gophermc.Types.{codes}
use gophermc.Wire.Stream.{Bytes}

-- {"packet": ["container", [{"name": "name", "type": ["mapper", {"mappings": {"0x00": "ping", "0x1b": "keep_alive"}}]}]]}
sample_types : Members
sample_types =
    let mappings = object (
      member (codes "0x00") (text (codes "ping"))
        (member (codes "0x1b") (text (codes "keep_alive")) empty)) in
    let kind = array (
      element (text (codes "mapper"))
        (element (object (member (codes "mappings") mappings empty)) no_element)) in
    let field =
      object (member (codes "name") (text (codes "name")) (member (codes "type") kind empty)) in
    member (codes "packet")
      (array (
        element (text (codes "container")) (element (array (element field no_element)) no_element)))
      empty

abbrev id_map : List (Bytes × ℕ)
id_map = (codes "keep_alive", 27) ∷ (codes "ping", 0) ∷ []

parsed : pre_parse_packet_ids sample_types ≡ id_map
unfolding pre_parse_packet_ids sample_types parse_int
parsed = refl

beyond_int32 : parse_int (codes "80000000") ≡ 0x7fffffff
unfolding parse_int
beyond_int32 = refl

no_digits : parse_int (codes "0x") ≡ 0
unfolding parse_int
no_digits = refl

prefix_only : find_best_proto_num (codes "1.21") ((codes "1.21.1", 767) ∷ []) ≡ 767
unfolding find_best_proto_num
prefix_only = refl

snapshot : is_snapshot_version (codes "25w37a") ≡ true
unfolding is_snapshot_version
snapshot = refl

no_release : is_release_version (codes "1.21-pre1") ≡ false
unfolding is_release_version
no_release = refl

-- The first letter in upper case.
abbrev title : Bytes → Bytes
title [] = []
title (b ∷ bs) = (b - 32) ∷ bs

abbrev no_tables : VersionInfo
no_tables = record {
  version_str = codes "1.21";
  enum_name = codes "V1_21";
  protocol_version = 767;
  packet_ids = λ s d n. none;
  packet_names = λ s d id. none;
}

abbrev swapped : NameTable
swapped =
    (codes "ClientboundStatusResponse", codes "server_info" ∷ [])
    ∷ (codes "ServerboundHandshake", codes "set_protocol" ∷ [])
    ∷ drop 2 go_name_to_mc_names

process_direction-perm_example :
    process_direction title (λ mc. swapped) (codes "play") (codes "clientbound") id_map no_tables
    ≡ process_direction title
        (λ mc. go_name_to_mc_names)
        (codes "play")
        (codes "clientbound")
        id_map
        no_tables
unfolding go_name_to_mc_names
process_direction-perm_example =
    process_direction-perm title (λ mc. swapped) (λ mc. Perm.swap _ _ _) (codes "play")
      (codes "clientbound") id_map no_tables

process_direction-Filled_example :
    Filled title
      (λ mc. go_name_to_mc_names)
      (codes "play")
      (codes "clientbound")
      id_map
      (process_direction title
        (λ mc. go_name_to_mc_names)
        (codes "play")
        (codes "clientbound")
        id_map
        no_tables)
unfolding go_name_to_mc_names final_go_name
process_direction-Filled_example =
    process_direction-Filled title (λ mc. go_name_to_mc_names) (codes "play") (codes "clientbound")
      id_map no_tables (record { name_of_id = λ s d n i h. cc; id_of_name = λ s d n i h. cc })
      (λ id. refl) (λ n. refl) ((((λ q. absurd (omega arith)), λ n q r. cc), tt), (tt, tt))

abbrev sample_states : List (Bytes × (Members × Members))
sample_states = (codes "play", (sample_types, empty)) ∷ []

sample-IsSeparate :
    IsSeparate title (λ mc. go_name_to_mc_names) (codes "play") (sample_types, empty)
unfolding go_name_to_mc_names final_go_name pre_parse_packet_ids sample_types parse_int
sample-IsSeparate = record {
  to_server = ((((λ q. absurd (omega arith)), λ n q r. cc), tt), (tt, tt));
  to_client = tt;
}

only_play-IsSeparate :
    (name : Bytes) (state : Members × Members) (b : Bool)
    → bytes_eq (codes "play") name ≡ b
    → ◌≡◌ {A = Option (Members × Members)}
        (if b then some (sample_types, empty) else none)
        (some state)
    → IsSeparate title (λ mc. go_name_to_mc_names) name state
only_play-IsSeparate name state true e h =
    let same : (sample_types, empty) ≡ state = cc in
    subst (λ n. IsSeparate title (λ mc. go_name_to_mc_names) n state)
      (bytes_eq→eq (codes "play") name e)
      (subst (λ t. IsSeparate title (λ mc. go_name_to_mc_names) (codes "play") t) same
        sample-IsSeparate)
only_play-IsSeparate name state false e h = cc

true_apart : (b : Bool) → b ≡ true → ¬ (b ≡ false)
true_apart b h e = cc

apart : (a b : Bytes) → bytes_eq a b ≡ false → ¬ (a ≡ b)
apart a b h e = true_apart (bytes_eq a b) (eq_bytes a b e) h

process_version-AreInverse_example :
    AreInverse (process_version title (λ mc. go_name_to_mc_names) (codes "1.21") 767 sample_states)
process_version-AreInverse_example =
    process_version-AreInverse title (λ mc. go_name_to_mc_names) (codes "1.21") 767 sample_states
      (λ e. apart _ _ refl e)
      (
        (
          (λ e. apart _ _ refl e),
          ((λ e. apart _ _ refl e), ((λ e. apart _ _ refl e), ((λ e. apart _ _ refl e), tt))),
        ),
        (
          ((λ e. apart _ _ refl e), ((λ e. apart _ _ refl e), ((λ e. apart _ _ refl e), tt))),
          (
            ((λ e. apart _ _ refl e), ((λ e. apart _ _ refl e), tt)),
            (((λ e. apart _ _ refl e), tt), (tt, tt)),
          ),
        ),
      )
      (λ name state h. only_play-IsSeparate name state (bytes_eq (codes "play") name) refl h)
