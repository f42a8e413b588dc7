-- ===== src/Client/Join/Expected.antt =====
-- A packet that ReadPacket returns is one that the version has in the connection's state.
use gophermc.Base.{ℕ, ◌≡◌, refl, some, arith}
use gophermc.Base.Outcome.{Outcome, ok, err, panic, wrap_outcome, decode_packet}
use gophermc.Client.Join.Speaks.{answered, fields_read}
use gophermc.Client.Numbers.{Arriving}
use gophermc.Packets.{Packet, Library, serverbound_handshake}
use gophermc.Packets.Made.{factory-type_name, name_of, table_of}
use gophermc.Packets.Constructors.{
  type_name, packet_constructors, packet_types, id_of, packet_of, named, constructed, new_packet,
  get_packet_id,
}
use gophermc.Packets.Decode.{decode}
use gophermc.Registry.Consistency.{packet_id-packet_name}
use gophermc.Registry.Definitions.{packet_id}
use gophermc.Registry.Tables.{protocol_registry}
use gophermc.Types.{State, clientbound}
use gophermc.Versions.{Version}
use gophermc.Wire.Stream.{Bytes, Reader, bytes_reader}

decode-type_name :
    (lib : Library) (p : Packet) (v : Version) (r : Reader) {q : Packet}
    → (decode lib p v r).0 ≡ ok q
    → type_name q ≡ type_name p
unfolding decode type_name gophermc.Packets.Decode.decode_handshake
    gophermc.Packets.Decode.decode_login_success gophermc.Packets.Decode.decode_select_known_packs
    gophermc.Packets.Decode.decode_keep_alive gophermc.Packets.Decode.read_custom_payload
    gophermc.Packets.Decode.decode_feature_flags gophermc.Packets.Decode.decode_update_tags
    gophermc.Packets.Decode.decode_registry_data
decode-type_name lib (serverbound_handshake _ _ _ _) v r e = ground arith
decode-type_name lib _ v r e = ground arith

blank_of :
    (lib : Library) (v : Version) (fields : Bytes) (o : Outcome Packet) {p : Packet}
    → fields_read lib v fields o ≡ ok p
    → (blank : Packet) × (o ≡ ok blank) × (type_name p ≡ type_name blank)
unfolding fields_read
blank_of lib v fields (ok blank) e = (
  blank,
  refl,
  decode-type_name lib blank v (bytes_reader fields)
      (unwrapped (decode lib blank v (bytes_reader fields)).0 e),
)
  where
    unwrapped : (o : Outcome Packet) {p : Packet} → wrap_outcome decode_packet o ≡ ok p → o ≡ ok p
    unwrapped (ok q) e = e
    unwrapped (err x) e = cc
    unwrapped (panic x) e = cc
blank_of lib v fields (err x) e = cc
blank_of lib v fields (panic x) e = cc

-- A packet that ReadPacket returns has its number in the version's table.
pub answered-Arriving :
    (lib : Library) (v : Version) (s : State) (id : ℕ) (fields : Bytes) (p : Packet)
    → answered lib v s id fields ≡ ok p
    → Arriving v protocol_registry s p
unfolding answered new_packet get_packet_id id_of gophermc.Packets.Constructors.id_of_type
answered-Arriving lib v s id fields p e =
    let (blank, made, same_type) = blank_of lib v fields _ e in
    let (def, found, known) = table_of _ s id made in
    let (name, there, factory) = name_of _ known in
    let number : packet_id def s clientbound name ≡ some id =
      (packet_id-packet_name v found s clientbound name id).1 there in
    (id, rw (found, same_type, factory-type_name name blank factory) number)
