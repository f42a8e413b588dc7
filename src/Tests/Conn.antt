-- ===== src/Tests/Conn.antt =====
-- Frames at concrete inputs: one KeepAlive, with compression from four bytes on.
use gophermc.Base.{◌≡◌, refl, some, [], ◌∷◌, ◌++◌, arith}
use gophermc.Base.Int.{pos}
use gophermc.Base.Outcome.{eof, ok}
use gophermc.Conn.{Conn, new_conn, parse_data, read_packet, write_packet, body}
use gophermc.Conn.Arrivals.{Arrives, read_packet-Arrives}
use gophermc.Conn.Frame.{packed, after_data}
use gophermc.Conn.Relay.{write_packet-frame, read_packet-write_packet}
use gophermc.Conn.Sync.{Same, Progress, read_packet_in_sync, read_packet-Progress}
use gophermc.Packets.{Packet, serverbound_keep_alive}
use gophermc.Packets.Arrivals.{protocol_registry-IsSound}
use gophermc.Packets.Constructors.{get_packet_id}
use gophermc.Registry.{get_definition}
use gophermc.Registry.Tables.{protocol_registry}
use gophermc.Tests.Samples.{plain_library, noon, conn_in, keep_alive}
use gophermc.Types.{play, serverbound}
use gophermc.Wire.Fields.RoundTrip.{string_bytes}
use gophermc.Wire.Stream.{Bytes, buffer, bytes_reader}

abbrev packing : Conn
packing = record (conn_in play []) { threshold = pos 4 }

abbrev answer_bytes : Bytes
answer_bytes = 27 ∷ 0 ∷ 0 ∷ 0 ∷ 0 ∷ 0 ∷ 0 ∷ 0 ∷ 5 ∷ []

answer_number :
    (get_packet_id packing.version play serverbound (serverbound_keep_alive 5) packing.registry).0
    ≡ some 27
unfolding get_packet_id get_definition protocol_registry new_conn
    gophermc.Registry.Definitions.packet_id
answer_number = refl

answer_body :
    body plain_library noon (serverbound_keep_alive 5) packing.version 27 ≡ ok answer_bytes
unfolding body new_conn gophermc.Wire.VarInt.write_var_int gophermc.Wire.Stream.write_byte
    gophermc.Packets.Encode.encode gophermc.Packets.Encode.encode_keep_alive
    gophermc.Wire.Fields.write_long
answer_body = refl

write_packet-frame_example : write_packet plain_library noon (serverbound_keep_alive 5) packing ≡ (
  ok tt,
  record packing {
    output = buffer ([] ++ string_bytes (packed plain_library (pos 4) answer_bytes));
    registry = (get_definition packing.version packing.registry).1;
  },
)
unfolding new_conn packed gophermc.Wire.VarInt.RoundTrip.var_int_bytes
write_packet-frame_example =
    write_packet-frame plain_library noon (serverbound_keep_alive 5) packing [] answer_bytes 27 refl
      answer_number answer_body (omega arith) (omega arith)

read_packet-write_packet_example :
    read_packet plain_library (record packing {
      input = record {
        rest =
            (write_packet plain_library noon (serverbound_keep_alive 5) packing).1.output.written
            ++ 1 ∷ [];
        at_end = eof;
      };
    })
    ≡ parse_data plain_library (bytes_reader answer_bytes) (
        after_data plain_library
          (pos 4)
          answer_bytes
          (record packing { input = record { rest = 1 ∷ []; at_end = eof } }))
unfolding new_conn packed gophermc.Wire.VarInt.RoundTrip.var_int_bytes
read_packet-write_packet_example =
    read_packet-write_packet plain_library noon (serverbound_keep_alive 5) packing packing
      answer_bytes (1 ∷ []) 27 eof (λ bs. refl) refl refl answer_number answer_body (omega arith)
      (omega arith) (omega arith)

read_packet_in_sync_example :
    Same
      (record (conn_in play []) { input = record { rest = 1 ∷ []; at_end = eof } })
      (read_packet plain_library (record (conn_in play []) {
        input = record { rest = string_bytes (99 ∷ 1 ∷ []) ++ 1 ∷ []; at_end = eof };
      })).1
read_packet_in_sync_example =
    read_packet_in_sync plain_library (conn_in play []) (99 ∷ 1 ∷ []) (1 ∷ []) eof (omega arith)

read_packet-Progress_example :
    let (o, c) = read_packet plain_library (conn_in play keep_alive) in
    Progress (conn_in play keep_alive) o c
read_packet-Progress_example = read_packet-Progress plain_library (conn_in play keep_alive)

read_packet-Arrives_example :
    let (o, c) = read_packet plain_library (conn_in play keep_alive) in Arrives play o c
unfolding new_conn
read_packet-Arrives_example =
    read_packet-Arrives plain_library (conn_in play keep_alive) protocol_registry-IsSound
