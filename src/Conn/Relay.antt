-- ===== src/Conn/Relay.antt =====
-- What WritePacket puts on the connection, and what ReadPacket on the other side makes of it.
use gophermc.Base.{ℕ, ◌^◌, ◌<◌, ◌≡◌, some, [], ◌++◌, length, append_assoc, arith}
use gophermc.Base.Outcome.{Error, ok}
use gophermc.Conn.{Conn, parse_data, read_packet, write_packet, body, send}
use gophermc.Conn.Frame.{packed, payload-packed, after_data, read_packet-packed}
use gophermc.Packets.{Packet, Library, Moment}
use gophermc.Packets.Constructors.{get_packet_id}
use gophermc.Registry.{get_definition}
use gophermc.Types.{serverbound}
use gophermc.Wire.Fields.Codec.{Fills-write, Fills-or_else}
use gophermc.Wire.Fields.RoundTrip.{string_bytes, Fills-write_var_int}
use gophermc.Wire.Stream.{Bytes, buffer, bytes_reader}
use gophermc.Packets.Encode.{ignore}
use gophermc.Wire.VarInt.{write_var_int}
use gophermc.Wire.VarInt.RoundTrip.{var_int_bytes}
use native.Mathlib.Nat.{mod-eq_of_lt}

length_written :
    (n : ℕ) (out : Bytes)
    → n < 2 ^ 32
    → ignore (write_var_int n) (buffer out) ≡ (ok tt, buffer (out ++ var_int_bytes n))
length_written n out h = (Fills-or_else (Fills-write_var_int n h)).run out

send-buffer :
    (bs out : Bytes)
    → length bs < 2 ^ 32
    → send bs (buffer out) ≡ (ok tt, buffer (out ++ string_bytes bs))
unfolding send
send-buffer bs out h = rw (
  mod-eq_of_lt h,
  length_written (length bs) out h,
  (Fills-write bs).run (out ++ var_int_bytes (length bs)),
  append_assoc,
)

-- On a connection whose writes succeed, a packet that has a number, and whose encoding has no error,
-- is written as one frame behind what was written before: the length of the payload, and the
-- payload for the threshold. Nothing but the output and the registry changes.
pub write_packet-frame :
    (lib : Library) (moment : Moment) (p : Packet) (c : Conn) (out bs : Bytes) (id : ℕ)
    → c.output ≡ buffer out
    → (get_packet_id c.version c.state serverbound p c.registry).0 ≡ some id
    → body lib moment p c.version id ≡ ok bs
    → length bs < 2 ^ 32
    → length (packed lib c.threshold bs) < 2 ^ 32
    → write_packet lib moment p c ≡ (
      ok tt,
      record c {
        output = buffer (out ++ string_bytes (packed lib c.threshold bs));
        registry = (get_definition c.version c.registry).1;
      },
    )
unfolding write_packet get_packet_id
write_packet-frame lib moment p c out bs id e n b h hp =
    rw
      (n, b, e, payload-packed lib c.threshold bs h, send-buffer (packed lib c.threshold bs) out hp)

-- What one side writes, the other side's ReadPacket opens: with the same threshold on both, and a
-- zlib that inflates what it deflated, the reader gets exactly the number and the fields that the
-- writer encoded, deflated or not, and what follows the frame is left for the next read. The packet
-- has a number, and its encoding is not empty and has no error; the frame fits an int32.
pub read_packet-write_packet :
    (lib : Library) (moment : Moment) (p : Packet) (c reader : Conn) (bs more : Bytes) (id : ℕ)
    (e : Error)
    → ((bs : Bytes) → lib.inflate (lib.deflate bs) ≡ ok (bytes_reader bs))
    → c.output ≡ buffer []
    → reader.threshold ≡ c.threshold
    → (get_packet_id c.version c.state serverbound p c.registry).0 ≡ some id
    → body lib moment p c.version id ≡ ok bs
    → 0 < length bs
    → length bs < 2 ^ 32
    → length (packed lib c.threshold bs) < 2 ^ 31
    → let sent = (write_packet lib moment p c).1.output.written in
      read_packet lib (record reader { input = record { rest = sent ++ more; at_end = e } })
      ≡ parse_data lib (bytes_reader bs) (
          after_data lib reader.threshold bs
            (record reader { input = record { rest = more; at_end = e } }))
read_packet-write_packet lib moment p c reader bs more id e zlib out same n b some_bytes h hp =
    rw (write_packet-frame lib moment p c [] bs id out n b h (omega arith), ← same)
      (read_packet-packed lib zlib reader bs more e some_bytes h (rw same hp))
