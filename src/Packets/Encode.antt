-- ===== src/Packets/Encode.antt =====
-- The `Encode` methods of protocol/packets.go.
use gophermc.Base.{
  ℕ, ◌-◌, ◌%◌, ◌^◌, Bool, true, false, not, ◌&&◌, Option, none, some, List, [], ◌∷◌, ◌++◌, length,
  take, replicate, ltb, leb, ◌==◌, if◌then◌else◌, bit_and,
}
use gophermc.Base.Outcome.{
  Outcome, ok, err, panic, Action, ◌>>=◌, ◌>>◌, pure, fail, crash, or_else, wrap_outcome, explicit,
  client_only, sign_failed,
}
use gophermc.Types.{State, state_code, ClientSettings, KnownPack, nil_uuid}
use gophermc.Packets.{
  Packet, Library, Moment, serverbound_handshake, serverbound_status_request,
  clientbound_status_response, serverbound_ping, clientbound_pong, serverbound_login_start,
  serverbound_login_acknowledged, clientbound_set_compression, clientbound_login_success,
  serverbound_finish_configuration, clientbound_finish_configuration, clientbound_config_keep_alive,
  serverbound_config_keep_alive, serverbound_select_known_packs, clientbound_select_known_packs,
  clientbound_cookie_request, serverbound_cookie_response, clientbound_config_ping,
  serverbound_config_pong, clientbound_join_game, clientbound_disconnect, serverbound_chat_message,
  clientbound_keep_alive, serverbound_keep_alive, serverbound_client_settings,
  serverbound_custom_payload, clientbound_custom_payload, clientbound_feature_flags,
  clientbound_update_tags, clientbound_registry_data, clientbound_chat_message,
  serverbound_player_position,
}
use gophermc.Versions.{
  Version, v1_7, v1_8, v1_9, v1_12_2, v1_17_1, v1_18, v1_19, v1_19_2, v1_19_3, v1_20_2, v1_21_3,
  v1_21_5,
}
use gophermc.Wire.Fields.{
  big_endian, write_string, write_byte_slice, write_long, write_ushort, write_int, write_bool,
}
use gophermc.Wire.Stream.{Bytes, Writer, write, write_byte}
use gophermc.Wire.VarInt.{write_var_int}

-- `_ = WriteX(w, …)`
abbrev pub ignore : Action Writer (Unit {0}) → Action Writer (Unit {0})
ignore m = or_else m tt

-- `if c { … }`
abbrev pub when : Bool → Action Writer (Unit {0}) → Action Writer (Unit {0})
when true m = m
when false m = pure tt

-- An outcome that was computed without the writer.
abbrev pub lift : {S A : Type 0} → Outcome A → Action S A
lift o s = (o, s)

unfoldable pub encode_handshake : ℕ → Bytes → ℕ → State → Action Writer (Unit {0})
encode_handshake version address port next = do
  ignore (write_var_int version)
  ignore (write_string address)
  ignore (write_ushort port)
  write_var_int (state_code next % 2 ^ 32)

-- Comparison of two uuid.UUID arrays.
abbrev pub bytes_eq : Bytes → Bytes → Bool
bytes_eq [] [] = true
bytes_eq (a ∷ as') (b ∷ bs) = a == b && bytes_eq as' bs
bytes_eq _ _ = false

unfoldable pub encode_login_start : Bytes → Bytes → Version → Action Writer (Unit {0})
encode_login_start username uuid v = do
  write_string username
  when (leb v1_19 v && leb v v1_19_2) (write_bool false)
  if leb v1_20_2 v
      then write uuid
      else when (leb v1_19_2 v && not (bytes_eq uuid nil_uuid)) (do write_bool true; write uuid)

write_packs : List KnownPack → Action Writer (Unit {0})
write_packs [] = pure tt
write_packs (pk ∷ packs) = do
  write_string pk.namespace
  write_string pk.id
  write_string pk.version
  write_packs packs

unfoldable pub encode_select_known_packs : List KnownPack → Action Writer (Unit {0})
unfolding write_packs
encode_select_known_packs packs = do write_var_int (length packs % 2 ^ 32); write_packs packs

unfoldable pub encode_cookie_response : Bytes → Bool → Bytes → Action Writer (Unit {0})
encode_cookie_response key has_data payload = do
  ignore (write_string key)
  ignore (write_bool has_data)
  when has_data (ignore (write_byte_slice payload))

-- The text that is signed: who said what, when.
unfoldable pub sign_text : Bytes → Version → Bytes → ℕ → ℕ → Bytes
sign_text uuid v message timestamp salt =
    if leb v1_19_2 v
    then big_endian 8 salt ++ big_endian 8 timestamp ++ uuid ++ message
    else big_endian 8 timestamp ++ big_endian 8 salt ++ message

-- `copy(signed, signature)` into a new slice of 256 bytes.
abbrev pub copy_256 : Bytes → Bytes
copy_256 bs = take 256 bs ++ replicate (256 - length bs) 0

signature_of : Version → Outcome Bytes → Outcome (Option Bytes)
signature_of v (ok signature) = ok (some (if leb v1_19_3 v then copy_256 signature else signature))
signature_of v (err e) = wrap_outcome sign_failed (err e)
signature_of v (panic p) = panic p

-- `none` is the nil slice.
unfoldable pub sign_message :
    Library → Option ℕ → Bytes → Version → Bytes → ℕ → ℕ → Outcome (Option Bytes)
unfolding signature_of sign_text
sign_message lib none uuid v message timestamp salt = ok none
sign_message lib (some key) uuid v message timestamp salt =
    signature_of v (lib.sign key (lib.sha256 (sign_text uuid v message timestamp salt)))

abbrev pub slice_of : Option Bytes → Bytes
slice_of none = []
slice_of (some bs) = bs

write_signature : Option Bytes → Action Writer (Unit {0})
write_signature none = ignore (write_bool false)
write_signature (some signature) = do ignore (write_bool true); ignore (write signature)

-- What follows the salt, in the three layouts.
tail_1_19_3 : Version → Option Bytes → Action Writer (Unit {0})
unfolding write_signature
tail_1_19_3 v signature = do
  write_signature signature
  ignore (write_var_int 0)
  ignore (write (replicate 3 0))
  when (leb v1_21_5 v) (ignore (write_byte 0))

tail_1_19_2 : Option Bytes → Action Writer (Unit {0})
tail_1_19_2 signature = do
  ignore (write_byte_slice (slice_of signature))
  ignore (write_bool false)
  ignore (write_var_int 0)
  ignore (write_bool false)

tail_1_19 : Option Bytes → Action Writer (Unit {0})
tail_1_19 signature = do ignore (write_byte_slice (slice_of signature)); ignore (write_bool false)

write_chat_tail : Version → Option Bytes → Action Writer (Unit {0})
unfolding tail_1_19_3 tail_1_19_2 tail_1_19
write_chat_tail v signature =
    if leb v1_19_3 v
    then tail_1_19_3 v signature
    else if leb v1_19_2 v
    then tail_1_19_2 signature
    else tail_1_19 signature

unfoldable pub encode_chat_message :
    Library → Moment → Bytes → Option ℕ → Bytes → Version → Action Writer (Unit {0})
unfolding write_chat_tail
encode_chat_message lib moment message key uuid v = if ltb v v1_19 then write_string message else do
  signature ← lift (sign_message lib key uuid v message moment.now moment.salt)
  ignore (write_string message)
  ignore (write_long moment.now)
  ignore (write_long moment.salt)
  write_chat_tail v signature

unfoldable pub encode_keep_alive : ℕ → Version → Action Writer (Unit {0})
encode_keep_alive id v = if leb v1_12_2 v then write_long id else write_var_int (id % 2 ^ 32)

unfoldable pub encode_client_settings : ClientSettings → Version → Action Writer (Unit {0})
encode_client_settings s v = do
  write_string s.locale
  write_byte s.view
  if leb v v1_7 then write_byte 1 else when (leb v1_8 v) (write_var_int s.chat_mode)
  write_bool s.chat_colors
  when (leb v v1_7) (do write_byte (bit_and s.skin_parts 1); write_bool true)
  when (leb v1_8 v) (write_byte s.skin_parts)
  when (leb v1_9 v) (write_var_int s.main_hand)
  when (leb v1_17_1 v) (write_bool false)
  when (leb v1_18 v) (write_bool true)
  when (leb v1_21_3 v) (write_var_int 0)

unfoldable pub encode_custom_payload : Bytes → Bytes → Action Writer (Unit {0})
encode_custom_payload channel payload = do ignore (write_string channel); write payload

unfoldable pub encode_player_position : ℕ → ℕ → ℕ → Bool → Action Writer (Unit {0})
encode_player_position x y z on_ground = do
  ignore (write_long x)
  ignore (write_long y)
  ignore (write_long z)
  write_bool on_ground

-- `p.Encode(w, v)`
unfoldable pub encode : Library → Moment → Packet → Version → Action Writer (Unit {0})
encode lib moment (serverbound_handshake n address port next) v =
    encode_handshake n address port next
encode lib moment serverbound_status_request v = pure tt
encode lib moment (clientbound_status_response json) v = write_string json
encode lib moment (serverbound_ping payload) v = write_long payload
encode lib moment (clientbound_pong payload) v = write_long payload
encode lib moment (serverbound_login_start username uuid) v = encode_login_start username uuid v
encode lib moment serverbound_login_acknowledged v = pure tt
encode lib moment (clientbound_set_compression threshold) v = write_var_int threshold
encode lib moment (clientbound_login_success username uuid) v = crash explicit
encode lib moment serverbound_finish_configuration v = pure tt
encode lib moment clientbound_finish_configuration v = pure tt
encode lib moment (clientbound_config_keep_alive id) v = write_long id
encode lib moment (serverbound_config_keep_alive id) v = write_long id
encode lib moment (serverbound_select_known_packs packs) v = encode_select_known_packs packs
encode lib moment (clientbound_select_known_packs packs) v = pure tt
encode lib moment (clientbound_cookie_request key) v = write_string key
encode lib moment (serverbound_cookie_response key has_data payload) v =
    encode_cookie_response key has_data payload
encode lib moment (clientbound_config_ping id) v = write_int id
encode lib moment (serverbound_config_pong id) v = write_int id
encode lib moment clientbound_join_game v = crash explicit
encode lib moment (clientbound_disconnect reason) v = write_string reason
encode lib moment (serverbound_chat_message message key uuid) v =
    encode_chat_message lib moment message key uuid v
encode lib moment (clientbound_keep_alive id) v = crash explicit
encode lib moment (serverbound_keep_alive id) v = encode_keep_alive id v
encode lib moment (serverbound_client_settings settings) v = encode_client_settings settings v
encode lib moment (serverbound_custom_payload channel payload) v =
    encode_custom_payload channel payload
encode lib moment (clientbound_custom_payload channel payload) v =
    encode_custom_payload channel payload
encode lib moment (clientbound_feature_flags features) v = crash explicit
encode lib moment (clientbound_update_tags tags) v = crash explicit
encode lib moment (clientbound_registry_data registry payload) v = crash explicit
encode lib moment (clientbound_chat_message c sender) v = fail client_only
encode lib moment (serverbound_player_position x y z on_ground) v =
    encode_player_position x y z on_ground
