-- ===== src/Generator.antt =====
-- generator/main.go: from the files of minecraft-data to the tables of the protocol package. Texts are
-- their bytes, an int32 is a number below 2 ^ 32, and a Go map is the list of its entries in the order
-- in which a `range` walks it, where an order matters, and a function where the code only stores.
pub mod Names
pub mod Mappings
pub mod Versions
pub mod Order
pub mod Entries
pub mod Inverse
pub mod Whole
pub mod Load
pub mod Snapshot
use gophermc.Base.{
  ℕ, Bool, true, false, ◌&&◌, Option, none, some, List, [], ◌∷◌, ◌++◌, ◌==◌, if◌then◌else◌,
}
use gophermc.Generator.Mappings.{pre_parse_packet_ids}
use gophermc.Generator.Names.{NameTable, go_name_to_mc_names, contains, resolve_ambiguous_names}
use gophermc.Base.Json.{Members}
use gophermc.Packets.Encode.{bytes_eq}
use gophermc.Registry.Definitions.{lookup}
use gophermc.Types.{codes}
use gophermc.Wire.Stream.{Bytes}

-- map[string]map[string]map[K]V, whose inner maps are made when they are stored to.
pub record VersionInfo : Type 0 where
  pub version_str : Bytes
  pub enum_name : Bytes
  pub protocol_version : ℕ
  pub packet_ids : Bytes → Bytes → Bytes → Option ℕ
  pub packet_names : Bytes → Bytes → ℕ → Option Bytes

-- strings.ReplaceAll(s, ".", "_")
abbrev underscored : Bytes → Bytes
underscored [] = []
underscored (b ∷ bs) = (if b == b'.' then b'_' else b) ∷ underscored bs

abbrev pub not_empty : Bytes → Bool
not_empty [] = false
not_empty (b ∷ bs) = true

-- The name that the inner loop of `processDirection` comes to, in the order in which it walks the
-- table: the first go name for this packet that is not dropped.
unfoldable pub final_go_name : NameTable → Bytes → Bytes → Bytes → Option Bytes
unfolding contains resolve_ambiguous_names
final_go_name [] state_name dir_name mc = none
final_go_name ((go_name, mc_names) ∷ rest) state_name dir_name mc =
    let later = final_go_name rest state_name dir_name mc in
    let final = resolve_ambiguous_names go_name state_name dir_name in
    if contains mc_names mc && not_empty final then some final else later

-- `vi.PacketIDs[s][d][name] = id` and `vi.PacketNames[s][d][id] = name`
unfoldable pub enter : Bytes → Bytes → Bytes → ℕ → VersionInfo → VersionInfo
enter s d name id vi = record vi {
  packet_ids = λ s' d' name'.
      if bytes_eq s s' && bytes_eq d d' && bytes_eq name name'
      then some id
      else vi.packet_ids s' d' name';
  packet_names = λ s' d' id'.
      if bytes_eq s s' && bytes_eq d d' && id == id' then some name else vi.packet_names s' d' id';
}

abbrev pub enter_final : Bytes → Bytes → Option Bytes → ℕ → VersionInfo → VersionInfo
enter_final s d none id vi = vi
enter_final s d (some name) id vi = enter s d name id vi

abbrev pub state_names : List Bytes
state_names =
    codes "handshaking" ∷ codes "status" ∷ codes "login" ∷ codes "configuration" ∷ codes "play" ∷ []

-- `title` is cases.Title(language.English).String, and `walks` the order of the inner loop for a packet.
module _ (title : Bytes → Bytes) (walks : Bytes → NameTable) where
  abbrev pub enter_all : Bytes → Bytes → List (Bytes × ℕ) → VersionInfo → VersionInfo
  enter_all state_name dir_name [] vi = vi
  enter_all state_name dir_name ((mc, id) ∷ id_map) vi = enter_all state_name dir_name id_map (
      enter_final (codes "State" ++ title state_name) (codes "Direction" ++ title dir_name)
        (final_go_name (walks mc) state_name dir_name mc) id vi)

  unfoldable pub process_direction : Bytes → Bytes → List (Bytes × ℕ) → VersionInfo → VersionInfo
  process_direction state_name dir_name id_map vi = enter_all state_name dir_name id_map vi

  -- The two `Types` of an mcState.
  unfoldable pub process_state : Bytes → Members × Members → VersionInfo → VersionInfo
  process_state state_name (to_server, to_client) vi =
      let served =
        process_direction state_name (codes "serverbound") (pre_parse_packet_ids to_server) vi in
      process_direction state_name (codes "clientbound") (pre_parse_packet_ids to_client) served

  abbrev pub process_found : Bytes → Option (Members × Members) → VersionInfo → VersionInfo
  process_found state_name none vi = vi
  process_found state_name (some state) vi = process_state state_name state vi

  abbrev pub process_states :
      List Bytes → List (Bytes × (Members × Members)) → VersionInfo → VersionInfo
  process_states [] states vi = vi
  process_states (name ∷ names) states vi =
      process_states names states (process_found name (lookup bytes_eq name states) vi)

  unfoldable pub process_version : Bytes → ℕ → List (Bytes × (Members × Members)) → VersionInfo
  process_version version_str proto_num states = process_states state_names states (record {
    version_str = version_str;
    enum_name = b'V' ∷ underscored version_str;
    protocol_version = proto_num;
    packet_ids = λ s d name. none;
    packet_names = λ s d id. none;
  })
