-- ===== src/Packets/Decode.antt =====
-- The `Decode` methods of protocol/packets.go. A method fills its receiver and returns an error; its
-- one caller drops the packet on an error, so here an error carries none.
use gophermc.Base.{
  ℕ, zero, suc, ◌+◌, ◌-◌, ◌^◌, Bool, true, false, ◌&&◌, List, [], ◌∷◌, leb, if◌then◌else◌,
}
use gophermc.Base.Outcome.{
  Outcome, ok, err, panic, Action, ◌>>=◌, ◌>>◌, pure, fail, crash, or_else, explicit, makeslice,
  server_only,
}
use gophermc.Types.{state_of, KnownPack}
use gophermc.Packets.{
  Packet, Library, Tag, RegistryTag, serverbound_handshake, serverbound_status_request,
  clientbound_status_response, serverbound_ping, clientbound_pong, serverbound_login_start,
  serverbound_login_acknowledged, clientbound_set_compression, clientbound_login_success,
  serverbound_finish_configuration, clientbound_finish_configuration, clientbound_config_keep_alive,
  serverbound_config_keep_alive, serverbound_select_known_packs, clientbound_select_known_packs,
  clientbound_cookie_request, serverbound_cookie_response, clientbound_config_ping,
  serverbound_config_pong, clientbound_join_game, clientbound_disconnect, serverbound_chat_message,
  clientbound_keep_alive, serverbound_keep_alive, serverbound_client_settings,
  serverbound_custom_payload, clientbound_custom_payload, clientbound_feature_flags,
  clientbound_update_tags, clientbound_registry_data, clientbound_chat_message,
  serverbound_player_position,
}
use gophermc.Versions.{Version, v1_12_2, v1_16, v1_19, v1_20_5, v1_21_1}
use gophermc.Wire.Fields.{
  is_negative, read_uuid, read_bytes, read_string, read_string_uuid, read_long, read_ushort,
  read_int, read_bool,
}
use gophermc.Wire.Stream.{Bytes, Reader, read_all}
use gophermc.Wire.VarInt.{read_var_int}

-- The rounds of `for i := 0; i < int(count); i++` for an int32.
abbrev pub rounds : ℕ → ℕ
rounds count = if is_negative count then 0 else count

-- `make([]T, count)` panics on a negative count.
unfoldable pub make_slice : ℕ → Action Reader (Unit {0})
make_slice count = if is_negative count then crash makeslice else pure tt

-- A loop that reads one element in each round, and returns on the first error.
unfoldable pub read_many : {A : Type 0} → ℕ → Action Reader A → Action Reader (List A)
read_many zero m = pure []
read_many (suc n) m = do x ← m; xs ← read_many n m; pure (x ∷ xs)

-- `make([]T, count)` and the loop that fills it.
unfoldable pub read_slice : {A : Type 0} → Action Reader A → Action Reader (List A)
unfolding make_slice read_many
read_slice m = do count ← read_var_int; make_slice count; read_many (rounds count) m

unfoldable pub decode_handshake : Action Reader Packet
decode_handshake = do
  version ← or_else read_var_int 0
  address ← or_else read_string []
  port ← or_else read_ushort 0
  next ← read_var_int
  pure (serverbound_handshake version address port (state_of next))

-- `if hasSig { … }`
read_signature : Bool → Action Reader (Unit {0})
read_signature true = do read_string; pure tt
read_signature false = pure tt

-- One property of a login: its name, its value and, where the flag says so, its signature.
unfoldable pub read_property : Action Reader (Unit {0})
unfolding read_signature
read_property = do
  read_string
  read_string
  has_signature ← or_else read_bool false
  read_signature has_signature

unfoldable pub read_properties : ℕ → Action Reader (Unit {0})
unfolding read_property
read_properties zero = pure tt
read_properties (suc n) = do read_property; read_properties n

unfoldable pub decode_login_success : Library → Version → Action Reader Packet
unfolding read_properties
decode_login_success lib v = do
  uuid ← if leb v1_16 v then read_uuid else read_string_uuid lib.parse_uuid
  username ← read_string
  if leb v1_19 v then (do count ← read_var_int; read_properties (rounds count)) else pure tt
  if leb v1_20_5 v && leb v v1_21_1 then (do read_bool; pure tt) else pure tt
  pure (clientbound_login_success username uuid)

read_pack : Action Reader KnownPack
read_pack = do
  namespace ← read_string
  id ← read_string
  version ← read_string
  pure (record { namespace = namespace; id = id; version = version })

unfoldable pub decode_select_known_packs : Action Reader Packet
unfolding read_slice read_pack
decode_select_known_packs = do
  packs ← read_slice read_pack
  pure (clientbound_select_known_packs packs)

-- int64(id) of an int32
abbrev pub sign_extend : ℕ → ℕ
sign_extend n = if is_negative n then n + (2 ^ 64 - 2 ^ 32) else n

unfoldable pub decode_keep_alive : Version → Action Reader Packet
decode_keep_alive v =
    if leb v1_12_2 v
    then (do id ← read_long; pure (clientbound_keep_alive id))
    else (do id ← read_var_int; pure (clientbound_keep_alive (sign_extend id)))

unfoldable pub read_custom_payload : (Bytes → Bytes → Packet) → Action Reader Packet
read_custom_payload make = do channel ← read_string; payload ← read_all; pure (make channel payload)

unfoldable pub decode_feature_flags : Action Reader Packet
unfolding read_slice
decode_feature_flags = do
  features ← read_slice read_string
  pure (clientbound_feature_flags features)

read_tag : Action Reader Tag
unfolding read_slice
read_tag = do
  name ← read_string
  entries ← read_slice read_var_int
  pure (record { name = name; entries = entries })

read_registry_tag : Action Reader RegistryTag
unfolding read_slice read_tag
read_registry_tag = do
  registry ← read_string
  tags ← read_slice read_tag
  pure (record { registry = registry; tags = tags })

unfoldable pub decode_update_tags : Action Reader Packet
unfolding read_slice read_registry_tag
decode_update_tags = do tags ← read_slice read_registry_tag; pure (clientbound_update_tags tags)

-- `p.Data, _ = ReadBytes(r)`: what was read before an error stays.
keep_part : Bytes × Outcome (Unit {0}) × Reader → Outcome Bytes × Reader
keep_part (buf, ok _, r) = (ok buf, r)
keep_part (buf, err e, r) = (ok buf, r)
keep_part (buf, panic p, r) = (panic p, r)

unfoldable pub decode_registry_data : Action Reader Packet
unfolding keep_part
decode_registry_data = do
  registry ← or_else read_string []
  payload ← λ r. keep_part (read_bytes r)
  pure (clientbound_registry_data registry payload)

-- `p.Decode(r, v)`
unfoldable pub decode : Library → Packet → Version → Action Reader Packet
decode lib (serverbound_handshake n address port next) v = decode_handshake
decode lib serverbound_status_request v = pure serverbound_status_request
decode lib (clientbound_status_response _) v = do
  json ← read_string
  pure (clientbound_status_response json)
decode lib (serverbound_ping _) v = do payload ← read_long; pure (serverbound_ping payload)
decode lib (clientbound_pong _) v = do payload ← read_long; pure (clientbound_pong payload)
decode lib (serverbound_login_start _ uuid) v = do
  username ← read_string
  pure (serverbound_login_start username uuid)
decode lib serverbound_login_acknowledged v = pure serverbound_login_acknowledged
decode lib (clientbound_set_compression _) v = do
  threshold ← read_var_int
  pure (clientbound_set_compression threshold)
decode lib (clientbound_login_success _ _) v = decode_login_success lib v
decode lib serverbound_finish_configuration v = pure serverbound_finish_configuration
decode lib clientbound_finish_configuration v = pure clientbound_finish_configuration
decode lib (clientbound_config_keep_alive _) v = do
  id ← read_long
  pure (clientbound_config_keep_alive id)
decode lib (serverbound_config_keep_alive _) v = do
  id ← read_long
  pure (serverbound_config_keep_alive id)
decode lib (serverbound_select_known_packs packs) v = pure (serverbound_select_known_packs packs)
decode lib (clientbound_select_known_packs _) v = decode_select_known_packs
decode lib (clientbound_cookie_request _) v = do
  key ← read_string
  pure (clientbound_cookie_request key)
decode lib (serverbound_cookie_response key has_data payload) v =
    pure (serverbound_cookie_response key has_data payload)
decode lib (clientbound_config_ping _) v = do id ← read_int; pure (clientbound_config_ping id)
decode lib (serverbound_config_pong id) v = pure (serverbound_config_pong id)
decode lib clientbound_join_game v = do read_all; pure clientbound_join_game
decode lib (clientbound_disconnect _) v = do
  reason ← read_string
  pure (clientbound_disconnect reason)
decode lib (serverbound_chat_message _ key uuid) v = do
  message ← read_string
  pure (serverbound_chat_message message key uuid)
decode lib (clientbound_keep_alive _) v = decode_keep_alive v
decode lib (serverbound_keep_alive _) v = crash explicit
decode lib (serverbound_client_settings settings) v = pure (serverbound_client_settings settings)
decode lib (serverbound_custom_payload _ _) v = read_custom_payload serverbound_custom_payload
decode lib (clientbound_custom_payload _ _) v = read_custom_payload clientbound_custom_payload
decode lib (clientbound_feature_flags _) v = decode_feature_flags
decode lib (clientbound_update_tags _) v = decode_update_tags
decode lib (clientbound_registry_data _ _) v = decode_registry_data
decode lib (clientbound_chat_message c sender) v = pure (clientbound_chat_message c sender)
decode lib (serverbound_player_position x y z on_ground) v = fail server_only
