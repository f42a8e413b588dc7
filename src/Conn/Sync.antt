-- ===== src/Conn/Sync.antt =====
-- What ReadPacket and WritePacket leave alone, whatever they read and however they end.
use gophermc.Base.{ℕ, ◌^◌, ◌≤◌, ◌<◌, true, false, length-drop, ◌≡◌, refl, ◌++◌, length, arith}
use gophermc.Base.Int.{ℤ}
use gophermc.Base.Outcome.{
  Outcome, Error, ok, err, panic, and_then, Action, is_unknown_packet, wrap_outcome,
  read_packet_data, read_packet_length,
}
use gophermc.Conn.{
  Conn, copy_n, data_reader, parse_data, open_frame, read_frame, read_packet, write_packet,
}
use gophermc.Conn.Frame.{read_packet-open_frame}
use gophermc.Packets.{Packet, Library, Moment}
use gophermc.Wire.Fields.RoundTrip.{string_bytes}
use gophermc.Wire.Stream.{Bytes, Reader}
use gophermc.Wire.VarInt.{read_var_int, max_var_int_size}
use gophermc.Wire.VarInt.Limits.{Takes, read_var_int-Takes}

-- Both ends of the connection and what was negotiated.
pub record Same (c c' : Conn) : Type 0 where
  pub input : c'.input ≡ c.input
  pub output : c'.output ≡ c.output
  pub version : c'.version ≡ c.version
  pub state : c'.state ≡ c.state
  pub threshold : c'.threshold ≡ c.threshold

data_reader-Same :
    (lib : Library) (t : ℤ) (bs : Bytes) (c : Conn) → Same c (data_reader lib t bs c).1
unfolding data_reader
data_reader-Same lib t bs c = ground arith

parse_data-Same : (lib : Library) (r : Reader) (c : Conn) → Same c (parse_data lib r c).1
unfolding parse_data
parse_data-Same lib r c = ground arith

and_then-Same :
    {A B : Type 0} (c : Conn) (s : Outcome A × Conn) (f : A → Action Conn B)
    → Same c s.1
    → ((a : A) (c' : Conn) → Same c' (f a c').1)
    → Same c (and_then s f).1
and_then-Same c (ok a, c') f h g = ground (arith, g a c')
and_then-Same c (err e, c') f h g = h
and_then-Same c (panic p, c') f h g = h

open_frame-Same : (lib : Library) (bs : Bytes) (c : Conn) → Same c (open_frame lib bs c).1
unfolding open_frame
open_frame-Same lib bs c =
    and_then-Same c (data_reader lib c.threshold bs c) (parse_data lib)
      (data_reader-Same lib c.threshold bs c) (parse_data-Same lib)

-- A frame is the unit of ReadPacket: whatever its bytes hold, and whether the packet is returned,
-- skipped as unknown or refused, the next read starts right behind it, with the connection's state,
-- version, threshold and output unchanged.
pub read_packet_in_sync :
    (lib : Library) (c : Conn) (bs more : Bytes) (e : Error)
    → length bs < 2 ^ 31
    → Same
        (record c { input = record { rest = more; at_end = e } })
        (read_packet lib
          (record c { input = record { rest = string_bytes bs ++ more; at_end = e } })).1
read_packet_in_sync lib c bs more e h =
    rw (read_packet-open_frame lib c bs more e h)
      (open_frame-Same lib bs (record c { input = record { rest = more; at_end = e } }))

-- What a read of any input, cut or malformed, does to the connection.
pub record Progress (c : Conn) (o : Outcome Packet) (c' : Conn) : Type 0 where
  pub output : c'.output ≡ c.output
  pub version : c'.version ≡ c.version
  pub state : c'.state ≡ c.state
  pub threshold : c'.threshold ≡ c.threshold
  pub at_end : c'.input.at_end ≡ c.input.at_end
  pub no_more : length c'.input.rest ≤ length c.input.rest
  pub on_ok : (p : Packet) → o ≡ ok p → length c'.input.rest < length c.input.rest
  pub on_unknown :
      (e : Error)
      → o ≡ err e
      → is_unknown_packet e ≡ true
      → is_unknown_packet c.input.at_end ≡ false
      → length c'.input.rest < length c.input.rest

-- `copy_n` takes bytes from the front of the input or all of it.
copy_n_takes :
    (n : ℕ) (r : Reader)
    → ((copy_n n r).1.at_end ≡ r.at_end) × (length (copy_n n r).1.rest ≤ length r.rest)
unfolding copy_n
copy_n_takes n r = ground (arith, length-drop n r.rest)

-- What the part behind the length does: it takes bytes at most.
record Behind (c c' : Conn) : Type 0 where
  output : c'.output ≡ c.output
  version : c'.version ≡ c.version
  state : c'.state ≡ c.state
  threshold : c'.threshold ≡ c.threshold
  at_end : c'.input.at_end ≡ c.input.at_end
  no_more : length c'.input.rest ≤ length c.input.rest

frame-Behind :
    (lib : Library) (c : Conn) (s : Outcome Bytes × Reader)
    → s.1.at_end ≡ c.input.at_end
    → length s.1.rest ≤ length c.input.rest
    → Behind c
        (and_then (wrap_outcome read_packet_data s.0, record c { input = s.1 }) (open_frame lib)).1
frame-Behind lib c (ok bs, r) e h = ground (arith, open_frame-Same lib bs (record c { input = r }))
frame-Behind lib c (err x, r) e h = ground arith
frame-Behind lib c (panic x, r) e h = ground arith

read_frame-Behind : (lib : Library) (n : ℕ) (c : Conn) → Behind c (read_frame lib n c).1
unfolding read_frame
read_frame-Behind lib n c =
    let (same, fewer) = copy_n_takes n c.input in frame-Behind lib c (copy_n n c.input) same fewer

count-Progress :
    (lib : Library) (c : Conn) (s : Outcome ℕ × Reader)
    → Takes c.input max_var_int_size s.0 s.1
    → let (o, c') =
        and_then (wrap_outcome read_packet_length s.0, record c { input = s.1 }) (read_frame lib) in
      Progress c o c'
unfolding is_unknown_packet
count-Progress lib c (ok n, r) t =
    ground (arith, t.some_on_ok n refl, read_frame-Behind lib n (record c { input = r }))
count-Progress lib c (err e, r) t = ground (arith, t.own_or_end e refl)
count-Progress lib c (panic x, r) t = ground arith

-- Every ReadPacket leaves the output, the version, the state and the threshold, takes bytes from the
-- input at most, and takes at least one if it returns a packet or skips an unknown one.
pub read_packet-Progress :
    (lib : Library) (c : Conn) → Progress c (read_packet lib c).0 (read_packet lib c).1
unfolding read_packet
read_packet-Progress lib c =
    count-Progress lib c (read_var_int c.input) (read_var_int-Takes c.input)

-- What a write leaves alone, however it ends.
pub record Written (c c' : Conn) : Type 0 where
  pub input : c'.input ≡ c.input
  pub version : c'.version ≡ c.version
  pub state : c'.state ≡ c.state
  pub threshold : c'.threshold ≡ c.threshold

pub write_packet-Written :
    (lib : Library) (moment : Moment) (p : Packet) (c : Conn)
    → Written c (write_packet lib moment p c).1
unfolding write_packet
write_packet-Written lib moment p c = ground arith
