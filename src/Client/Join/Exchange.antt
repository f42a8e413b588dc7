-- ===== src/Client/Join/Exchange.antt =====
-- What one packet to the server, and one from it, do to the connection.
use gophermc.Base.{ℕ, ◌≡◌, refl, ap, ◌∙◌, some, ◌++◌}
use gophermc.Base.Int.{ℤ}
use gophermc.Base.Outcome.{Outcome, Error, ok, err, panic, and_then, wrap_outcome, decode_packet}
use gophermc.Registry.Cache.{Extends, get_definition-Extends}
use gophermc.Conn.{
  Conn, read_packet, write_packet, parse_data, known, find_packet, open_frame, data_reader,
}
use gophermc.Conn.Frame.{packed}
use gophermc.Client.Join.Opens.{Opens, read_packet-front}
use gophermc.Wire.VarInt.{read_var_int}
use gophermc.Conn.Relay.{write_packet-frame}
use gophermc.Packets.{Packet, Library, Moment}
use gophermc.Packets.Constructors.{get_packet_id, new_packet}
use gophermc.Packets.Decode.{decode}
use gophermc.Registry.{get_definition}
use gophermc.Types.{State, serverbound, clientbound}
use gophermc.Versions.{Version}
use gophermc.Wire.Fields.RoundTrip.{string_bytes}
use gophermc.Wire.Stream.{Bytes, Reader, buffer, bytes_reader}
use gophermc.Client.Join.Speaks.{
  Talk, Speaks, frame, CanSend, answered, fields_read, get_packet_id-Extends,
}

-- A packet to the server is sent as one frame.
pub record Sent (v : Version) (s : State) (t : ℤ) (talk : Talk) (o : Outcome (Unit {0}) × Conn)
    : Type 0 where
  pub conn : Conn
  pub result : o ≡ (ok tt, conn)
  pub speaks : Speaks v s t talk conn

abbrev pub then_sent : Bytes → Talk → Talk
then_sent bs talk = record talk { sent = talk.sent ++ bs }

pub write_packet-Sent :
    (lib : Library) (moment : Moment) (v : Version) (s : State) (t : ℤ) (talk : Talk) (q : Packet)
    (conn : Conn)
    → CanSend lib moment v s t q
    → Speaks v s t talk conn
    → Sent v s t (then_sent (frame lib moment v s t q) talk) (write_packet lib moment q conn)
unfolding frame
write_packet-Sent lib moment v s t talk q conn can h =
    let number : (get_packet_id conn.version conn.state serverbound q conn.registry).0
        ≡ some can.id =
      rw (h.version, h.state) (get_packet_id-Extends v s q conn.registry h.registry ∙ can.number) in
    record {
      conn = record conn {
        output = buffer (talk.sent ++ string_bytes (packed lib conn.threshold can.bytes));
        registry = (get_definition conn.version conn.registry).1;
      };
      result =
          write_packet-frame lib moment q conn talk.sent can.bytes can.id h.output number
            (rw h.version can.encoded) can.short (rw h.threshold can.fits);
      speaks = record {
        version = h.version;
        state = h.state;
        threshold = h.threshold;
        input = h.input;
        output = rw (h.threshold, can.number, can.encoded) refl;
        registry = get_definition-Extends conn.version conn.registry h.registry;
      };
    }

-- A frame from the server is answered, and taken off the input.
pub record Answered (v : Version) (s : State) (t : ℤ) (talk : Talk) (answer : Outcome Packet)
    (o : Outcome Packet × Conn) : Type 0 where
  pub conn : Conn
  pub result : o ≡ (answer, conn)
  pub speaks : Speaks v s t talk conn

fields_read-and_then :
    (lib : Library) (v : Version) (fields : Bytes) (blank : Outcome Packet) (conn : Conn)
    → and_then {B = Packet}
        (known blank, conn)
        (λ p s'. (wrap_outcome decode_packet (decode lib p v (bytes_reader fields)).0, s'))
      ≡ (fields_read lib v fields blank, conn)
unfolding known fields_read
fields_read-and_then lib v fields (ok blank) conn = refl
fields_read-and_then lib v fields (err e) conn = refl
fields_read-and_then lib v fields (panic p) conn = refl

parse_data-answered :
    (lib : Library) (v : Version) (s : State) (id : ℕ) (data' fields : Bytes) (conn : Conn)
    → read_var_int (bytes_reader data') ≡ (ok id, bytes_reader fields)
    → conn.version ≡ v
    → conn.state ≡ s
    → Extends conn.registry
    → parse_data lib (bytes_reader data') conn ≡ (
      answered lib v s id fields,
      record conn { registry = (get_definition conn.version conn.registry).1 },
    )
unfolding parse_data answered find_packet new_packet
parse_data-answered lib v s id data' fields conn n hv hs x =
    let opened : Conn = record conn { registry = (get_definition conn.version conn.registry).1 } in
    rw (n, ← hv, ← hs, ← x conn.version)
      (fields_read-and_then lib conn.version fields
        (new_packet conn.version conn.state clientbound id conn.registry).0 opened)

abbrev pub coming : Bytes → Error → Bytes → Talk
coming bs e sent = record { to_come = record { rest = bs; at_end = e }; sent = sent }

open_frame-read :
    (lib : Library) (body : Bytes) (r : Reader) (conn conn' : Conn)
    → data_reader lib conn.threshold body conn ≡ (ok r, conn')
    → open_frame lib body conn ≡ parse_data lib r conn'
unfolding open_frame
open_frame-read lib body r conn conn' e = rw e refl

pub read_packet-Answered :
    (lib : Library) (v : Version) (s : State) (t : ℤ) (id : ℕ) (fields whole more sent : Bytes)
    (e : Error) (conn : Conn)
    → Opens lib t whole id fields
    → Speaks v s t (coming (whole ++ more) e sent) conn
    → Answered v s t (coming more e sent) (answered lib v s id fields) (read_packet lib conn)
read_packet-Answered lib v s t id fields whole more sent e conn o h =
    let rest : Conn = record conn { input = record { rest = more; at_end = e } } in
    let (z, data_read) = o.opened rest in
    let opened : Conn = record rest { zlib_open = z } in
    let come : conn
        ≡ record conn { input = record { rest = (o.front ++ o.body) ++ more; at_end = e } } =
      ap (λ (r : Reader). record conn { input = r })
        (h.input ∙ ap (λ (bs : Bytes). record { rest = bs ++ more; at_end = e }) o.split) in
    record {
      conn = record opened { registry = (get_definition opened.version opened.registry).1 };
      result =
          ap (read_packet lib) come
          ∙ read_packet-front lib o.front o.body more e conn o.announced o.fits
          ∙ open_frame-read lib o.body (bytes_reader o.data') rest opened
              (ap (λ (u : ℤ). data_reader lib u o.body rest) h.threshold ∙ data_read)
          ∙ parse_data-answered lib v s id o.data' fields opened o.numbered h.version h.state
              h.registry;
      speaks = record {
        version = h.version;
        state = h.state;
        threshold = h.threshold;
        input = refl;
        output = h.output;
        registry = get_definition-Extends opened.version opened.registry h.registry;
      };
    }

-- The same frame, once its answer is known.
pub known-Answered :
    {v : Version} {s : State} {t : ℤ} {talk : Talk} {answer answer' : Outcome Packet}
    {o : Outcome Packet × Conn}
    → answer ≡ answer'
    → Answered v s t talk answer o
    → Answered v s t talk answer' o
known-Answered e r = record {
  conn = r.conn;
  result = r.result ∙ ap (λ (a : Outcome Packet). (a, r.conn)) e;
  speaks = r.speaks;
}
