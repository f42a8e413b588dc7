-- ===== src/Conn.antt =====
-- protocol/conn.go: packets over a connection, framed and, from a threshold on, compressed. The two
-- mutexes have no part in a sequential run. `protocolRegistry`, which the whole process shares, is
-- carried along in the connection.
pub mod Frame
pub mod Sync
pub mod Relay
pub mod Arrivals
use gophermc.Base.{
  ℕ, ◌%◌, ◌^◌, Bool, true, false, Option, none, some, [], ◌∷◌, ◌++◌, length, take, drop, leb, ◌==◌,
  if◌then◌else◌,
}
use gophermc.Base.Int.{ℤ, pos, negsuc}
use gophermc.Base.Outcome.{
  Outcome, Context, ok, err, panic, Action, ◌>>=◌, ◌>>◌, pure, fail, wrapping, wrap_outcome,
  external, unknown_packet, no_packet_id, read_packet_length, read_packet_data,
  read_compressed_length, create_zlib_reader, reset_zlib_reader, read_packet_id, decode_packet,
  encode_packet, write_payload,
}
use gophermc.Packets.{Packet, Library, Moment}
use gophermc.Packets.Constructors.{new_packet, get_packet_id}
use gophermc.Packets.Decode.{decode}
use gophermc.Packets.Encode.{encode, ignore, lift}
use gophermc.Registry.{Registry}
use gophermc.Types.{State, handshaking, Direction, serverbound, clientbound}
use gophermc.Versions.{Version}
use gophermc.Wire.Fields.{is_negative}
use gophermc.Wire.Stream.{Bytes, Reader, Writer, bytes_reader, buffer, write}
use gophermc.Wire.VarInt.{read_var_int, write_var_int}

pub record Conn : Type 0 where
  -- The net.Conn: what the peer sends, and what was sent to it.
  pub input : Reader
  pub output : Writer
  pub version : Version
  pub state : State
  pub threshold : ℤ
  -- `zlibReader != nil`
  pub zlib_open : Bool
  pub registry : Registry

unfoldable pub new_conn : Reader → Writer → Version → Registry → Conn
new_conn input output version registry = record {
  input = input;
  output = output;
  version = version;
  state = handshaking;
  threshold = negsuc 0;
  zlib_open = false;
  registry = registry;
}

unfoldable pub set_state : State → Conn → Conn
set_state s c = record c { state = s }

unfoldable pub set_compression : ℤ → Conn → Conn
set_compression threshold c = record c { threshold = threshold }

-- The error of a closed net.Conn.
abbrev pub closed_error : ℕ
closed_error = 0

-- A closed net.Conn answers every read and write with an error.
unfoldable pub close : Conn → Conn
close c = record c {
  input = record { rest = []; at_end = external closed_error };
  output = record { written = c.output.written; fault = some (0, external closed_error) };
}

abbrev pub on_input : {A : Type 0} → Action Reader A → Action Conn A
on_input m c = ((m c.input).0, record c { input = (m c.input).1 })

abbrev pub on_output : {A : Type 0} → Action Writer A → Action Conn A
on_output m c = ((m c.output).0, record c { output = (m c.output).1 })

abbrev pub on_registry : {A : Type 0} → Action Registry A → Action Conn A
on_registry m c = ((m c.registry).0, record c { registry = (m c.registry).1 })

-- io.CopyN(buffer, conn, int64(count)): a negative count copies nothing, without an error; where the
-- reader ends early its own error comes back, io.EOF included.
unfoldable pub copy_n : ℕ → Action Reader Bytes
copy_n count r =
    if is_negative count
    then (ok [], r)
    else if leb count (length r.rest)
    then (ok (take count r.rest), record r { rest = drop count r.rest })
    else (err r.at_end, record r { rest = [] })

abbrev pub zlib_context : Bool → Context
zlib_context true = reset_zlib_reader
zlib_context false = create_zlib_reader

-- zlib.NewReader, or Reset of the reader that is kept.
unfoldable pub inflated : Outcome Reader → Action Conn Reader
inflated (ok r) c = (ok r, record c { zlib_open = true })
inflated (err e) c = (wrap_outcome (zlib_context c.zlib_open) (err e), c)
inflated (panic p) c = (panic p, c)

-- `dataReader`, behind the length of the uncompressed data.
unfoldable pub after_length : Library → Outcome ℕ × Reader → Action Conn Reader
unfolding inflated
after_length lib (ok n, r) = if n == 0 then pure r else inflated (lib.inflate r.rest)
after_length lib (err e, r) = lift (wrap_outcome read_compressed_length (err e))
after_length lib (panic p, r) = lift (panic p)

-- `if c.compressionThreshold >= 0 { … }`
unfoldable pub data_reader : Library → ℤ → Bytes → Action Conn Reader
unfolding after_length
data_reader lib (pos threshold) bs = after_length lib (read_var_int (bytes_reader bs))
data_reader lib (negsuc n) bs = pure (bytes_reader bs)

-- Every error of NewPacket becomes ErrUnknownPacket.
unfoldable pub known : Outcome Packet → Outcome Packet
known (ok p) = ok p
known (err e) = err unknown_packet
known (panic p) = panic p

unfoldable pub find_packet : ℕ → Action Conn Packet
unfolding known
find_packet id c =
    let (o, registry) = new_packet c.version c.state clientbound id c.registry in
    (known o, record c { registry = registry })

-- ReadPacket once the packet's number is read.
unfoldable pub parse_packet : Library → Reader → ℕ → Action Conn Packet
unfolding find_packet
parse_packet lib r id c =
    (do p ← find_packet id; lift (wrap_outcome decode_packet (decode lib p c.version r).0)) c

unfoldable pub parse_numbered : Library → Outcome ℕ × Reader → Action Conn Packet
unfolding parse_packet
parse_numbered lib (o, r) = do id ← lift (wrap_outcome read_packet_id o); parse_packet lib r id

-- What ReadPacket does with the data of one frame.
unfoldable pub parse_data : Library → Reader → Action Conn Packet
unfolding parse_numbered
parse_data lib r = parse_numbered lib (read_var_int r)

-- ReadPacket once the frame's bytes are in its buffer.
unfoldable pub open_frame : Library → Bytes → Action Conn Packet
open_frame lib bs c = (do r ← data_reader lib c.threshold bs; parse_data lib r) c

-- ReadPacket once the frame's length is known.
unfoldable pub read_frame : Library → ℕ → Action Conn Packet
unfolding open_frame
read_frame lib count = do
  bs ← wrapping read_packet_data (on_input (copy_n count))
  open_frame lib bs

unfoldable pub read_packet : Library → Action Conn Packet
unfolding read_frame
read_packet lib = do
  count ← wrapping read_packet_length (on_input read_var_int)
  read_frame lib count

-- The packet's number and its fields, in a buffer of their own.
body_of : Outcome (Unit {0}) × Writer → Outcome Bytes
body_of (ok _, w) = ok w.written
body_of (err e, w) = wrap_outcome encode_packet (err e)
body_of (panic p, w) = panic p

unfoldable pub body : Library → Moment → Packet → Version → ℕ → Outcome Bytes
unfolding body_of
body lib moment p v id = body_of ((do ignore (write_var_int id); encode lib moment p v) (buffer []))

-- `finalPayload`: what follows the frame's length.
unfoldable pub payload : Library → ℤ → Bytes → Bytes
payload lib (pos threshold) bs =
    if leb threshold (length bs)
    then (ignore (write_var_int (length bs % 2 ^ 32)) (buffer [])).1.written ++ lib.deflate bs
    else (ignore (write_var_int 0) (buffer [])).1.written ++ bs
payload lib (negsuc n) bs = bs

unfoldable pub send : Bytes → Action Writer (Unit {0})
send bs = do ignore (write_var_int (length bs % 2 ^ 32)); wrapping write_payload (write bs)

unfoldable pub numbered : Option ℕ → Outcome ℕ
numbered (some id) = ok id
numbered none = err no_packet_id

unfoldable pub write_packet : Library → Moment → Packet → Action Conn (Unit {0})
unfolding numbered send
write_packet lib moment p c =
    (do
      id ← on_registry (λ reg. (
        numbered (get_packet_id c.version c.state serverbound p reg).0,
        (get_packet_id c.version c.state serverbound p reg).1,
      ))
      bs ← lift (body lib moment p c.version id)
      on_output (send (payload lib c.threshold bs)))
      c
