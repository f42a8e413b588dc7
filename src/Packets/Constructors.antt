-- ===== src/Packets/Constructors.antt =====
-- protocol/constructors.go, and the two lookups of protocol/registry.go that need it.
use Prim.Native.String.{String}
use text.Mathlib.Text.{◌==◌ as str_eq}
use gophermc.Base.{ℕ, Option, none, some, List, [], ◌∷◌, map, false}
use gophermc.Base.Outcome.{
  Outcome, ok, err, Action, unknown_version, unknown_packet, no_constructor,
}
use gophermc.Packets.{
  Packet, serverbound_handshake, clientbound_disconnect, serverbound_status_request,
  clientbound_status_response, serverbound_ping, clientbound_pong, serverbound_login_start,
  clientbound_login_success, clientbound_set_compression, serverbound_login_acknowledged,
  serverbound_finish_configuration, clientbound_finish_configuration, serverbound_config_keep_alive,
  clientbound_config_keep_alive, serverbound_select_known_packs, clientbound_select_known_packs,
  clientbound_cookie_request, serverbound_cookie_response, clientbound_config_ping,
  serverbound_config_pong, serverbound_chat_message, clientbound_keep_alive, serverbound_keep_alive,
  clientbound_join_game, serverbound_client_settings, serverbound_custom_payload,
  clientbound_custom_payload, clientbound_feature_flags, clientbound_update_tags,
  clientbound_registry_data, clientbound_chat_message, serverbound_player_position,
}
use gophermc.Registry.{Registry, get_definition}
use gophermc.Registry.Definitions.{Definition, lookup, packet_name, packet_id}
use gophermc.Types.{State, handshaking, Direction, ClientSettings, nil_uuid}
use gophermc.Versions.{Version}

abbrev pub no_settings : ClientSettings
no_settings = record {
  locale = [];
  view = 0;
  chat_mode = 0;
  chat_colors = false;
  skin_parts = 0;
  main_hand = 0;
}

-- The name of a packet's struct, which stands for its reflect.Type.
unfoldable pub type_name : Packet → String
type_name (serverbound_handshake _ _ _ _) = "ServerboundHandshake"
type_name (clientbound_disconnect _) = "ClientboundDisconnect"
type_name serverbound_status_request = "ServerboundStatusRequest"
type_name (clientbound_status_response _) = "ClientboundStatusResponse"
type_name (serverbound_ping _) = "ServerboundPing"
type_name (clientbound_pong _) = "ClientboundPong"
type_name (serverbound_login_start _ _) = "ServerboundLoginStart"
type_name (clientbound_login_success _ _) = "ClientboundLoginSuccess"
type_name (clientbound_set_compression _) = "ClientboundSetCompression"
type_name serverbound_login_acknowledged = "ServerboundLoginAcknowledged"
type_name serverbound_finish_configuration = "ServerboundFinishConfiguration"
type_name clientbound_finish_configuration = "ClientboundFinishConfiguration"
type_name (serverbound_config_keep_alive _) = "ServerboundConfigKeepAlive"
type_name (clientbound_config_keep_alive _) = "ClientboundConfigKeepAlive"
type_name (serverbound_select_known_packs _) = "ServerboundSelectKnownPacks"
type_name (clientbound_select_known_packs _) = "ClientboundSelectKnownPacks"
type_name (clientbound_cookie_request _) = "ClientboundCookieRequest"
type_name (serverbound_cookie_response _ _ _) = "ServerboundCookieResponse"
type_name (clientbound_config_ping _) = "ClientboundConfigPing"
type_name (serverbound_config_pong _) = "ServerboundConfigPong"
type_name (serverbound_chat_message _ _ _) = "ServerboundChatMessage"
type_name (clientbound_keep_alive _) = "ClientboundKeepAlive"
type_name (serverbound_keep_alive _) = "ServerboundKeepAlive"
type_name clientbound_join_game = "ClientboundJoinGame"
type_name (serverbound_client_settings _) = "ServerboundClientSettings"
type_name (serverbound_custom_payload _ _) = "ServerboundCustomPayload"
type_name (clientbound_custom_payload _ _) = "ClientboundCustomPayload"
type_name (clientbound_feature_flags _) = "ClientboundFeatureFlags"
type_name (clientbound_update_tags _) = "ClientboundUpdateTags"
type_name (clientbound_registry_data _ _) = "ClientboundRegistryData"
type_name (clientbound_chat_message _ _) = "ClientboundChatMessage"
type_name (serverbound_player_position _ _ _ _) = "ServerboundPlayerPosition"

-- Each name with the zero value that its factory makes.
unfoldable pub packet_constructors : List (String × Packet)
packet_constructors =
    ("ServerboundHandshake", serverbound_handshake 0 [] 0 handshaking)
    ∷ ("ClientboundDisconnect", clientbound_disconnect [])
    ∷ ("ServerboundStatusRequest", serverbound_status_request)
    ∷ ("ClientboundStatusResponse", clientbound_status_response [])
    ∷ ("ServerboundPing", serverbound_ping 0)
    ∷ ("ClientboundPong", clientbound_pong 0)
    ∷ ("ServerboundLoginStart", serverbound_login_start [] nil_uuid)
    ∷ ("ClientboundLoginSuccess", clientbound_login_success [] nil_uuid)
    ∷ ("ClientboundSetCompression", clientbound_set_compression 0)
    ∷ ("ServerboundLoginAcknowledged", serverbound_login_acknowledged)
    ∷ ("ServerboundFinishConfiguration", serverbound_finish_configuration)
    ∷ ("ClientboundFinishConfiguration", clientbound_finish_configuration)
    ∷ ("ServerboundConfigKeepAlive", serverbound_config_keep_alive 0)
    ∷ ("ClientboundConfigKeepAlive", clientbound_config_keep_alive 0)
    ∷ ("ServerboundSelectKnownPacks", serverbound_select_known_packs [])
    ∷ ("ClientboundSelectKnownPacks", clientbound_select_known_packs [])
    ∷ ("ClientboundCookieRequest", clientbound_cookie_request [])
    ∷ ("ServerboundCookieResponse", serverbound_cookie_response [] false [])
    ∷ ("ClientboundConfigPing", clientbound_config_ping 0)
    ∷ ("ServerboundConfigPong", serverbound_config_pong 0)
    ∷ ("ServerboundChatMessage", serverbound_chat_message [] none nil_uuid)
    ∷ ("ClientboundKeepAlive", clientbound_keep_alive 0)
    ∷ ("ServerboundKeepAlive", serverbound_keep_alive 0)
    ∷ ("ClientboundJoinGame", clientbound_join_game)
    ∷ ("ServerboundClientSettings", serverbound_client_settings no_settings)
    ∷ ("ServerboundCustomPayload", serverbound_custom_payload [] [])
    ∷ ("ClientboundCustomPayload", clientbound_custom_payload [] [])
    ∷ ("ClientboundFeatureFlags", clientbound_feature_flags [])
    ∷ ("ClientboundUpdateTags", clientbound_update_tags [])
    ∷ ("ClientboundRegistryData", clientbound_registry_data [] [])
    ∷ []

-- `init` turns that table round.
unfoldable pub packet_types : List (String × String)
unfolding type_name packet_constructors
packet_types = map (λ (name, p). (type_name p, name)) packet_constructors

unfoldable pub constructed : Option Packet → Outcome Packet
constructed none = err no_constructor
constructed (some p) = ok p

unfoldable pub named : Option String → Outcome Packet
unfolding constructed packet_constructors
named none = err unknown_packet
named (some name) = constructed (lookup str_eq name packet_constructors)

unfoldable pub packet_of : Option Definition → State → Direction → ℕ → Outcome Packet
unfolding named
packet_of none s d id = err unknown_version
packet_of (some def) s d id = named (packet_name def s d id)

unfoldable pub new_packet : Version → State → Direction → ℕ → Action Registry Packet
unfolding packet_of
new_packet v s d id reg = let (def, reg') = get_definition v reg in (packet_of def s d id, reg')

unfoldable pub id_of_type : Definition → State → Direction → Option String → Option ℕ
id_of_type def s d none = none
id_of_type def s d (some name) = packet_id def s d name

unfoldable pub id_of : Option Definition → State → Direction → Packet → Option ℕ
unfolding id_of_type packet_types
id_of none s d p = none
id_of (some def) s d p = id_of_type def s d (lookup str_eq (type_name p) packet_types)

-- `none` is the answer (-1, false).
unfoldable pub get_packet_id : Version → State → Direction → Packet → Registry → Option ℕ × Registry
unfolding id_of
get_packet_id v s d p reg = let (def, reg') = get_definition v reg in (id_of def s d p, reg')
