-- ===== src/Generator/Names.antt =====
-- `goNameToMcNames`, `contains` and `resolveAmbiguousNames` of generator/main.go.
use gophermc.Base.{Bool, true, false, ◌||◌, List, [], ◌∷◌, if◌then◌else◌}
use gophermc.Packets.Encode.{bytes_eq}
use gophermc.Types.{codes}
use gophermc.Wire.Stream.{Bytes}

abbrev pub NameTable : Type 0
NameTable = List (Bytes × List Bytes)

unfoldable pub go_name_to_mc_names : NameTable
go_name_to_mc_names =
    (codes "ServerboundHandshake", codes "set_protocol" ∷ [])
    ∷ (codes "ClientboundStatusResponse", codes "server_info" ∷ [])
    ∷ (codes "ClientboundPong", codes "ping" ∷ [])
    ∷ (codes "ServerboundStatusRequest", codes "ping_start" ∷ [])
    ∷ (codes "ServerboundPing", codes "ping" ∷ [])
    ∷ (codes "ServerboundLoginStart", codes "login_start" ∷ [])
    ∷ (codes "ClientboundLoginSuccess", codes "success" ∷ [])
    ∷ (codes "ClientboundSetCompression", codes "compress" ∷ [])
    ∷ (codes "ServerboundLoginAcknowledged", codes "login_acknowledged" ∷ [])
    ∷ (codes "ClientboundKeepAlive", codes "keep_alive" ∷ [])
    ∷ (codes "ServerboundKeepAlive", codes "keep_alive" ∷ [])
    ∷ (
      codes "ServerboundChatMessage",
      codes "chat" ∷ codes "chat_message" ∷ codes "player_chat_message" ∷ [],
    )
    ∷ (codes "ServerboundClientSettings", codes "settings" ∷ codes "client_information" ∷ [])
    ∷ (codes "ServerboundCustomPayload", codes "custom_payload" ∷ [])
    ∷ (codes "ClientboundCustomPayload", codes "custom_payload" ∷ [])
    ∷ (codes "ClientboundDisconnect", codes "kick_disconnect" ∷ codes "disconnect" ∷ [])
    ∷ (codes "ServerboundFinishConfiguration", codes "finish_configuration" ∷ [])
    ∷ (codes "ClientboundFinishConfiguration", codes "finish_configuration" ∷ [])
    ∷ (codes "ServerboundConfigKeepAlive", codes "keep_alive" ∷ [])
    ∷ (codes "ClientboundConfigKeepAlive", codes "keep_alive" ∷ [])
    ∷ (codes "ServerboundSelectKnownPacks", codes "select_known_packs" ∷ [])
    ∷ (codes "ClientboundSelectKnownPacks", codes "select_known_packs" ∷ [])
    ∷ (codes "ClientboundCookieRequest", codes "cookie_request" ∷ [])
    ∷ (codes "ServerboundCookieResponse", codes "cookie_response" ∷ [])
    ∷ (codes "ClientboundConfigPing", codes "ping" ∷ [])
    ∷ (codes "ServerboundConfigPong", codes "pong" ∷ [])
    ∷ (codes "ClientboundJoinGame", codes "login" ∷ [])
    ∷ (codes "ClientboundFeatureFlags", codes "feature_flags" ∷ [])
    ∷ (codes "ClientboundUpdateTags", codes "update_tags" ∷ [])
    ∷ (codes "ClientboundRegistryData", codes "registry_data" ∷ [])
    ∷ []

unfoldable pub contains : List Bytes → Bytes → Bool
contains [] item = false
contains (s ∷ slice) item = bytes_eq s item || contains slice item

-- The cases of the switch of `resolveAmbiguousNames`.
pub data Group : Type 0 where
  disconnects payloads packs finishes keep_alives pings : Group
  own : Bytes → Group

unfoldable pub group_of : Bytes → Group
unfolding contains
group_of go_name =
    if bytes_eq go_name (codes "ClientboundDisconnect")
    then disconnects
    else if contains (codes "ServerboundCustomPayload" ∷ codes "ClientboundCustomPayload" ∷ [])
        go_name
    then payloads
    else if contains
        (codes "ServerboundSelectKnownPacks" ∷ codes "ClientboundSelectKnownPacks" ∷ []) go_name
    then packs
    else if contains
        (codes "ServerboundFinishConfiguration" ∷ codes "ClientboundFinishConfiguration" ∷ [])
        go_name
    then finishes
    else if contains
        (codes "ClientboundKeepAlive"
          ∷ codes "ServerboundKeepAlive"
          ∷ codes "ServerboundConfigKeepAlive"
          ∷ codes "ClientboundConfigKeepAlive"
          ∷ [])
        go_name
    then keep_alives
    else if contains
        (codes "ClientboundPong"
          ∷ codes "ServerboundPing"
          ∷ codes "ClientboundConfigPing"
          ∷ codes "ServerboundConfigPong"
          ∷ [])
        go_name
    then pings
    else own go_name

-- The body of each case, by whether the direction is "serverbound" and "clientbound", and the state
-- "configuration" and "status".
abbrev keep_alive_name : (to_server configuring : Bool) → Bytes
keep_alive_name true true = codes "ServerboundConfigKeepAlive"
keep_alive_name true false = codes "ServerboundKeepAlive"
keep_alive_name false true = codes "ClientboundConfigKeepAlive"
keep_alive_name false false = codes "ClientboundKeepAlive"

abbrev finish_name : (to_server configuring : Bool) → Bytes
finish_name to_server false = []
finish_name true true = codes "ServerboundFinishConfiguration"
finish_name false true = codes "ClientboundFinishConfiguration"

abbrev ping_name : (to_client configuring in_status : Bool) → Bytes
ping_name true true in_status = codes "ClientboundConfigPing"
ping_name true false in_status = codes "ClientboundPong"
ping_name false configuring true = codes "ServerboundPing"
ping_name false true false = codes "ServerboundConfigPong"
ping_name false false false = []

unfoldable pub name_in : Group → Bytes → Bytes → Bytes
name_in disconnects state_name dir_name = codes "ClientboundDisconnect"
name_in payloads state_name dir_name =
    if bytes_eq dir_name (codes "serverbound")
    then codes "ServerboundCustomPayload"
    else codes "ClientboundCustomPayload"
name_in packs state_name dir_name =
    if bytes_eq dir_name (codes "serverbound")
    then codes "ServerboundSelectKnownPacks"
    else codes "ClientboundSelectKnownPacks"
name_in finishes state_name dir_name =
    finish_name (bytes_eq dir_name (codes "serverbound"))
      (bytes_eq state_name (codes "configuration"))
name_in keep_alives state_name dir_name =
    keep_alive_name (bytes_eq dir_name (codes "serverbound"))
      (bytes_eq state_name (codes "configuration"))
name_in pings state_name dir_name =
    ping_name (bytes_eq dir_name (codes "clientbound"))
      (bytes_eq state_name (codes "configuration")) (bytes_eq state_name (codes "status"))
name_in (own go_name) state_name dir_name = go_name

unfoldable pub resolve_ambiguous_names : Bytes → Bytes → Bytes → Bytes
unfolding group_of name_in
resolve_ambiguous_names go_name state_name dir_name = name_in (group_of go_name) state_name dir_name
