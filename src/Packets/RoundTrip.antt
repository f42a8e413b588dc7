-- ===== src/Packets/RoundTrip.antt =====
-- Decode reads back what Encode wrote, for the packets whose two methods are of one layout.
use mathlib.Core.Path.{subst}
use text.Mathlib.Text.{◌==◌ as str_eq}
use gophermc.Base.{ℕ, ◌^◌, ◌%◌, ◌≤◌, ◌<◌, ◌≡◌, refl, some, [], ◌++◌, length, append-nil, arith}
use gophermc.Base.Outcome.{Action, ok, eof, pure, or_else, ◌>>=◌}
use gophermc.Packets.{
  Packet, Library, Moment, serverbound_handshake, clientbound_status_response, serverbound_ping,
  clientbound_pong, clientbound_set_compression, clientbound_config_keep_alive,
  serverbound_config_keep_alive, clientbound_cookie_request, clientbound_config_ping,
  clientbound_disconnect, serverbound_custom_payload, clientbound_custom_payload,
}
use gophermc.Packets.Constructors.{packet_constructors, type_name}
use gophermc.Packets.Decode.{decode, decode_handshake, read_custom_payload}
use gophermc.Packets.Encode.{encode, encode_handshake, encode_custom_payload}
use gophermc.Registry.Definitions.{lookup}
use gophermc.Types.{State, state_code, state_of, handshaking}
use gophermc.Versions.{Version}
use gophermc.Wire.Fields.{
  max_packet_data_size, read_string, write_string, read_long, write_long, read_ushort, big_endian,
}
use gophermc.Wire.Fields.Codec.{
  Fills, Decodes, Fills-write, Fills-then, Fills-or_else, Decodes-bind, Decodes-map,
  Decodes-or_else,
}
use gophermc.Wire.Fields.RoundTrip.{
  string_bytes, Fills-write_var_int, Decodes-read_var_int, Fills-write_string, Decodes-read_string,
  Fills-write_long, Decodes-read_long, Fills-write_ushort, Decodes-read_ushort, Fills-write_int,
  Decodes-read_int,
}
use gophermc.Wire.Stream.{Bytes, Reader, buffer, bytes_reader, read_all}
use gophermc.Wire.VarInt.{read_var_int}
use gophermc.Wire.VarInt.RoundTrip.{var_int_bytes}

-- The fields fit their Go types, and a text the limit that ReadBytes sets.
pub data Fits : Packet → Type 0 where
  handshake :
      (n : ℕ) (address : Bytes) (port : ℕ) (next : State)
      → n < 2 ^ 32
      → length address ≤ max_packet_data_size
      → port < 2 ^ 16
      → state_code next < 2 ^ 32
      → state_of (state_code next) ≡ next
      → Fits (serverbound_handshake n address port next)
  status_response :
      (json : Bytes) → length json ≤ max_packet_data_size → Fits (clientbound_status_response json)
  ping : (n : ℕ) → n < 2 ^ 64 → Fits (serverbound_ping n)
  pong : (n : ℕ) → n < 2 ^ 64 → Fits (clientbound_pong n)
  set_compression : (n : ℕ) → n < 2 ^ 32 → Fits (clientbound_set_compression n)
  asked_alive : (id : ℕ) → id < 2 ^ 64 → Fits (clientbound_config_keep_alive id)
  kept_alive : (id : ℕ) → id < 2 ^ 64 → Fits (serverbound_config_keep_alive id)
  cookie_request :
      (key : Bytes) → length key ≤ max_packet_data_size → Fits (clientbound_cookie_request key)
  config_ping : (id : ℕ) → id < 2 ^ 32 → Fits (clientbound_config_ping id)
  disconnect :
      (reason : Bytes) → length reason ≤ max_packet_data_size → Fits (clientbound_disconnect reason)
  payload_sent :
      (channel payload : Bytes)
      → length channel ≤ max_packet_data_size
      → Fits (serverbound_custom_payload channel payload)
  payload_received :
      (channel payload : Bytes)
      → length channel ≤ max_packet_data_size
      → Fits (clientbound_custom_payload channel payload)

-- The packet's fields in a buffer of their own are read back by the packet that its factory makes.
pub record ReadsBack (lib : Library) (moment : Moment) (v : Version) (p : Packet) : Type 0 where
  pub bytes : Bytes
  pub written : encode lib moment p v (buffer []) ≡ (ok tt, buffer bytes)
  pub blank : Packet
  pub made : lookup str_eq (type_name p) packet_constructors ≡ some blank
  pub read : decode lib blank v (bytes_reader bytes) ≡ (ok p, bytes_reader [])

reads_back :
    (lib : Library) (moment : Moment) (v : Version) (p blank : Packet) (bs : Bytes)
    → lookup str_eq (type_name p) packet_constructors ≡ some blank
    → Fills (encode lib moment p v) bs
    → Decodes (decode lib blank v) bs p
    → ReadsBack lib moment v p
reads_back lib moment v p blank bs made f d = record {
  bytes = bs;
  written = f.run [];
  blank = blank;
  made = made;
  read = rw append-nil at (d.run [] eof);
}

-- What decode_handshake does behind each of its fields.
abbrev handshake_from_state : ℕ → Bytes → ℕ → Action Reader Packet
handshake_from_state n address port = do
  next ← read_var_int
  pure (serverbound_handshake n address port (state_of next))

abbrev handshake_from_port : ℕ → Bytes → Action Reader Packet
handshake_from_port n address = do port ← or_else read_ushort 0; handshake_from_state n address port

abbrev handshake_from_address : ℕ → Action Reader Packet
handshake_from_address n = do address ← or_else read_string []; handshake_from_port n address

handshake-ReadsBack :
    (lib : Library) (moment : Moment) (v : Version) (n : ℕ) (address : Bytes) (port : ℕ)
    (next : State)
    → n < 2 ^ 32
    → length address ≤ max_packet_data_size
    → port < 2 ^ 16
    → state_code next < 2 ^ 32
    → state_of (state_code next) ≡ next
    → ReadsBack lib moment v (serverbound_handshake n address port next)
unfolding type_name packet_constructors encode decode encode_handshake decode_handshake
handshake-ReadsBack lib moment v n address port next hn ha hp hs e =
    let code = state_code next in
    let small : code % 2 ^ 32 ≡ code = omega arith in
    reads_back lib moment v (serverbound_handshake n address port next)
      (serverbound_handshake 0 [] 0 handshaking)
      (var_int_bytes n ++ (string_bytes address ++ (big_endian 2 port ++ var_int_bytes code))) refl
      (rw small (
        Fills-then (Fills-or_else (Fills-write_var_int n hn)) (
          Fills-then (Fills-or_else (Fills-write_string address (omega arith)))
            (Fills-then (Fills-or_else (Fills-write_ushort port)) (Fills-write_var_int code hs)))))
      (Decodes-bind (λ n. handshake_from_address n) (Decodes-or_else 0 (Decodes-read_var_int n hn))
        (Decodes-bind (λ a. handshake_from_port n a)
          (Decodes-or_else [] (Decodes-read_string address ha))
          (Decodes-bind (λ p. handshake_from_state n address p)
            (Decodes-or_else 0 (Decodes-read_ushort port hp))
            (subst
              (λ t.
                Decodes (handshake_from_state n address port) (var_int_bytes code)
                  (serverbound_handshake n address port t))
              e
              (Decodes-map (λ c. serverbound_handshake n address port (state_of c))
                (Decodes-read_var_int code hs))))))

-- A packet of one field.
text-ReadsBack :
    (lib : Library) (moment : Moment) (v : Version) (p blank : Packet) (make : Bytes → Packet)
    (text : Bytes)
    → length text ≤ max_packet_data_size
    → p ≡ make text
    → lookup str_eq (type_name p) packet_constructors ≡ some blank
    → encode lib moment p v ≡ write_string text
    → decode lib blank v ≡ (do t ← read_string; pure (make t))
    → ReadsBack lib moment v p
text-ReadsBack lib moment v p blank make text h same made e d =
    reads_back lib moment v p blank (string_bytes text) made
      (rw e (Fills-write_string text (omega arith)))
      (rw (d, same) (Decodes-map make (Decodes-read_string text h)))

long-ReadsBack :
    (lib : Library) (moment : Moment) (v : Version) (p blank : Packet) (make : ℕ → Packet) (n : ℕ)
    → n < 2 ^ 64
    → p ≡ make n
    → lookup str_eq (type_name p) packet_constructors ≡ some blank
    → encode lib moment p v ≡ write_long n
    → decode lib blank v ≡ (do k ← read_long; pure (make k))
    → ReadsBack lib moment v p
long-ReadsBack lib moment v p blank make n h same made e d =
    reads_back lib moment v p blank (big_endian 8 n) made (rw e (Fills-write_long n))
      (rw (d, same) (Decodes-map make (Decodes-read_long n h)))

-- A channel and whatever follows it to the end of the packet.
payload-ReadsBack :
    (lib : Library) (moment : Moment) (v : Version) (p blank : Packet)
    (make : Bytes → Bytes → Packet) (channel payload : Bytes)
    → length channel ≤ max_packet_data_size
    → p ≡ make channel payload
    → lookup str_eq (type_name p) packet_constructors ≡ some blank
    → encode lib moment p v ≡ encode_custom_payload channel payload
    → decode lib blank v ≡ read_custom_payload make
    → ReadsBack lib moment v p
unfolding encode_custom_payload read_custom_payload read_all
payload-ReadsBack lib moment v p blank make channel payload h same made e d = record {
  bytes = string_bytes channel ++ payload;
  written = rw e (
      (Fills-then (Fills-or_else (Fills-write_string channel (omega arith)))
          (Fills-write payload)).run
        []);
  blank = blank;
  made = made;
  read = rw (d, same, (Decodes-read_string channel h).run payload eof);
}

-- For the packets whose Encode and Decode are of one layout, with fields that fit, Encode into a
-- buffer has no error, and Decode of the packet that the factory of its name makes reads the same
-- fields back and leaves no byte over: in every version.
pub decode-encode :
    (lib : Library) (moment : Moment) (v : Version) (p : Packet) → Fits p → ReadsBack lib moment v p
unfolding type_name packet_constructors encode decode
decode-encode lib moment v _ (handshake n address port next hn ha hp hs e) =
    handshake-ReadsBack lib moment v n address port next hn ha hp hs e
decode-encode lib moment v _ (status_response json h) =
    text-ReadsBack lib moment v (clientbound_status_response json) (clientbound_status_response [])
      clientbound_status_response json h refl refl refl refl
decode-encode lib moment v _ (cookie_request key h) =
    text-ReadsBack lib moment v (clientbound_cookie_request key) (clientbound_cookie_request [])
      clientbound_cookie_request key h refl refl refl refl
decode-encode lib moment v _ (disconnect reason h) =
    text-ReadsBack lib moment v (clientbound_disconnect reason) (clientbound_disconnect [])
      clientbound_disconnect reason h refl refl refl refl
decode-encode lib moment v _ (ping n h) =
    long-ReadsBack lib moment v (serverbound_ping n) (serverbound_ping 0) serverbound_ping n h refl
      refl refl refl
decode-encode lib moment v _ (pong n h) =
    long-ReadsBack lib moment v (clientbound_pong n) (clientbound_pong 0) clientbound_pong n h refl
      refl refl refl
decode-encode lib moment v _ (asked_alive n h) =
    long-ReadsBack lib moment v (clientbound_config_keep_alive n) (clientbound_config_keep_alive 0)
      clientbound_config_keep_alive n h refl refl refl refl
decode-encode lib moment v _ (kept_alive n h) =
    long-ReadsBack lib moment v (serverbound_config_keep_alive n) (serverbound_config_keep_alive 0)
      serverbound_config_keep_alive n h refl refl refl refl
decode-encode lib moment v _ (set_compression n h) =
    reads_back lib moment v (clientbound_set_compression n) (clientbound_set_compression 0)
      (var_int_bytes n) refl (Fills-write_var_int n h)
      (Decodes-map clientbound_set_compression (Decodes-read_var_int n h))
decode-encode lib moment v _ (config_ping n h) =
    reads_back lib moment v (clientbound_config_ping n) (clientbound_config_ping 0) (big_endian 4 n)
      refl (Fills-write_int n) (Decodes-map clientbound_config_ping (Decodes-read_int n h))
decode-encode lib moment v _ (payload_sent channel payload h) =
    payload-ReadsBack lib moment v (serverbound_custom_payload channel payload)
      (serverbound_custom_payload [] []) serverbound_custom_payload channel payload h refl refl refl
      refl
decode-encode lib moment v _ (payload_received channel payload h) =
    payload-ReadsBack lib moment v (clientbound_custom_payload channel payload)
      (clientbound_custom_payload [] []) clientbound_custom_payload channel payload h refl refl refl
      refl
