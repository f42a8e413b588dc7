-- ===== src/Client/Join/Speaks.antt =====
-- A connection to a server that speaks the protocol, and the frames on it.
use gophermc.Base.{ℕ, ◌^◌, ◌<◌, ◌≡◌, refl, Option, none, some, [], length}
use gophermc.Base.Int.{ℤ}
use gophermc.Base.Outcome.{Outcome, ok, err, panic, wrap_outcome, decode_packet, unknown_packet}
use gophermc.Registry.Cache.{Extends}
use gophermc.Conn.{Conn, body}
use gophermc.Conn.Frame.{packed}
use gophermc.Packets.{Packet, Library, Moment}
use gophermc.Packets.Constructors.{get_packet_id, new_packet}
use gophermc.Packets.Decode.{decode}
use gophermc.Registry.{Registry}
use gophermc.Registry.Tables.{protocol_registry}
use gophermc.Types.{State, serverbound, clientbound}
use gophermc.Versions.{Version}
use gophermc.Wire.Fields.RoundTrip.{string_bytes}
use gophermc.Wire.Stream.{Bytes, Reader, buffer, bytes_reader}

-- The bytes to come, and the bytes that were sent so far.
pub record Talk : Type 0 where
  pub to_come : Reader
  pub sent : Bytes

-- A connection in the state `s` at the threshold `t`.
pub record Speaks (v : Version) (s : State) (t : ℤ) (talk : Talk) (conn : Conn) : Type 0 where
  pub version : conn.version ≡ v
  pub state : conn.state ≡ s
  pub threshold : conn.threshold ≡ t
  pub input : conn.input ≡ talk.to_come
  pub output : conn.output ≡ buffer talk.sent
  pub registry : Extends conn.registry

frame_of : Library → ℤ → Outcome Bytes → Bytes
frame_of lib t (ok bs) = string_bytes (packed lib t bs)
frame_of lib t (err e) = []
frame_of lib t (panic p) = []

numbered_frame : Library → Moment → Version → ℤ → Packet → Option ℕ → Bytes
unfolding frame_of
numbered_frame lib moment v t q none = []
numbered_frame lib moment v t q (some id) = frame_of lib t (body lib moment q v id)

-- The frame around a packet of the client.
unfoldable pub frame : Library → Moment → Version → State → ℤ → Packet → Bytes
unfolding numbered_frame
frame lib moment v s t q =
    numbered_frame lib moment v t q (get_packet_id v s serverbound q protocol_registry).0

-- The packet has a number, and its encoding fits a frame.
pub record CanSend (lib : Library) (moment : Moment) (v : Version) (s : State) (t : ℤ) (q : Packet)
    : Type 0 where
  pub id : ℕ
  pub bytes : Bytes
  pub number : (get_packet_id v s serverbound q protocol_registry).0 ≡ some id
  pub encoded : body lib moment q v id ≡ ok bytes
  pub short : length bytes < 2 ^ 32
  pub fits : length (packed lib t bytes) < 2 ^ 32

-- What ReadPacket answers for a number from the server with the fields behind it.
unfoldable pub fields_read : Library → Version → Bytes → Outcome Packet → Outcome Packet
fields_read lib v fields (ok blank) =
    wrap_outcome decode_packet (decode lib blank v (bytes_reader fields)).0
fields_read lib v fields (err e) = err unknown_packet
fields_read lib v fields (panic p) = panic p

-- What ReadPacket answers for the number `id` in the tables as they were generated.
unfoldable pub answered : Library → Version → State → ℕ → Bytes → Outcome Packet
unfolding fields_read
answered lib v s id fields =
    fields_read lib v fields (new_packet v s clientbound id protocol_registry).0

pub get_packet_id-Extends :
    (v : Version) (s : State) (q : Packet) (reg : Registry)
    → Extends reg
    → (get_packet_id v s serverbound q reg).0
      ≡ (get_packet_id v s serverbound q protocol_registry).0
unfolding get_packet_id
get_packet_id-Extends v s q reg x = rw (x v) refl
