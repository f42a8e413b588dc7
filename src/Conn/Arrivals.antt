-- ===== src/Conn/Arrivals.antt =====
-- What ReadPacket can return, by the connection's state.
use gophermc.Base.{ℕ, ◌≡◌, sym, ◌∙◌, true, arith, ◌≢◌}
use mathlib.Core.Path.{subst}
use gophermc.Base.Int.{ℤ}
use gophermc.Base.Outcome.{
  Outcome, Context, ok, err, panic, and_then, wrap_outcome, decode_packet, read_packet_data,
  read_packet_length,
}
use gophermc.Conn.{
  Conn, copy_n, data_reader, known, parse_packet, parse_numbered, parse_data, open_frame,
  read_frame, read_packet,
}
use gophermc.Packets.{Packet, Library}
use gophermc.Packets.Arrivals.{
  arrives, IsSound, Answer, arrived, unregistered, no_table, new_packet-Answer,
  get_definition-IsSound, decode-arrives,
}
use gophermc.Packets.Constructors.{new_packet}
use gophermc.Packets.Decode.{decode}
use gophermc.Registry.{Registry}
use gophermc.Types.{State, state_code, clientbound}
use gophermc.Versions.{Version}
use gophermc.Wire.Stream.{Bytes, Reader}
use gophermc.Wire.VarInt.{read_var_int}

-- The registry stays sound, and a packet that is returned is one that arrives in this state.
pub record Arrives (s : State) (o : Outcome Packet) (c' : Conn) : Type 0 where
  pub sound : IsSound c'.registry
  pub fits : (p : Packet) → o ≡ ok p → arrives (state_code s) p ≡ true

wrapped-eq-ok :
    {A : Type 0} (x : Context) (o : Outcome A) {a : A} → wrap_outcome x o ≡ ok a → o ≡ ok a
wrapped-eq-ok x (ok b) e = e
wrapped-eq-ok x (err b) e = cc
wrapped-eq-ok x (panic b) e = cc

new_packet-IsSound :
    (v : Version) (s : State) (id : ℕ) (reg : Registry)
    → IsSound reg
    → IsSound (new_packet v s clientbound id reg).1
unfolding new_packet
new_packet-IsSound v s id reg h = get_definition-IsSound v reg h

known-Arrives :
    (lib : Library) (s : State) (v : Version) (r : Reader) (c : Conn) (o : Outcome Packet)
    → IsSound c.registry
    → Answer s o
    → let (o', c') =
        and_then (known o, c) (λ p c. (wrap_outcome decode_packet (decode lib p v r).0, c)) in
      Arrives s o' c'
unfolding known
known-Arrives lib s v r c _ h (arrived p a) = record {
  sound = h;
  fits = λ q e.
      decode-arrives lib p v r (state_code s) (wrapped-eq-ok decode_packet (decode lib p v r).0 e)
      ∙ a;
}
known-Arrives lib s v r c _ h unregistered = record { sound = h; fits = λ q e. cc }
known-Arrives lib s v r c _ h no_table = record { sound = h; fits = λ q e. cc }

parse_packet-Arrives :
    (lib : Library) (r : Reader) (id : ℕ) (c : Conn)
    → IsSound c.registry
    → Arrives c.state (parse_packet lib r id c).0 (parse_packet lib r id c).1
unfolding parse_packet
parse_packet-Arrives lib r id c h =
    let (o, registry) = new_packet c.version c.state clientbound id c.registry in
    known-Arrives lib c.state c.version r (record c { registry = registry }) o
      (new_packet-IsSound c.version c.state id c.registry h)
      (new_packet-Answer c.version c.state id c.registry h)

-- An outcome without a packet.
no_packet :
    (s : State) (c : Conn) (o : Outcome Packet)
    → IsSound c.registry
    → ((p : Packet) → o ≢ ok p)
    → Arrives s o c
no_packet s c o h n = record { sound = h; fits = λ p e. absurd (n p e) }

parse_numbered-Arrives :
    (lib : Library) (s : Outcome ℕ × Reader) (c : Conn)
    → IsSound c.registry
    → Arrives c.state (parse_numbered lib s c).0 (parse_numbered lib s c).1
unfolding parse_numbered
parse_numbered-Arrives lib (ok id, r) c h = parse_packet-Arrives lib r id c h
parse_numbered-Arrives lib (err e, r) c h = no_packet _ c _ h (λ p x. cc)
parse_numbered-Arrives lib (panic e, r) c h = no_packet _ c _ h (λ p x. cc)

-- After a step that leaves the state and the registry.
opened-Arrives :
    (lib : Library) (s : State) (o : Outcome Reader × Conn)
    → o.1.state ≡ s
    → IsSound o.1.registry
    → let (o', c') = and_then o (parse_data lib) in Arrives s o' c'
opened-Arrives lib s (ok r, c) e h =
    subst (λ t. Arrives t (parse_data lib r c).0 (parse_data lib r c).1) e
      (unfold parse_data in parse_numbered-Arrives lib (read_var_int r) c h)
opened-Arrives lib s (err x, c) e h = no_packet s c _ h (λ p x. cc)
opened-Arrives lib s (panic x, c) e h = no_packet s c _ h (λ p x. cc)

data_reader_keeps :
    (lib : Library) (t : ℤ) (bs : Bytes) (c : Conn)
    → ((data_reader lib t bs c).1.state ≡ c.state)
      × ((data_reader lib t bs c).1.registry ≡ c.registry)
unfolding data_reader
data_reader_keeps lib t bs c = ground arith

open_frame-Arrives :
    (lib : Library) (bs : Bytes) (c : Conn)
    → IsSound c.registry
    → Arrives c.state (open_frame lib bs c).0 (open_frame lib bs c).1
unfolding open_frame
open_frame-Arrives lib bs c h =
    let (state, registry) = data_reader_keeps lib c.threshold bs c in
    opened-Arrives lib c.state (data_reader lib c.threshold bs c) state
      (subst IsSound (sym registry) h)

framed-Arrives :
    (lib : Library) (c : Conn) (s : Outcome Bytes × Reader)
    → IsSound c.registry
    → let (o, c') =
        and_then (wrap_outcome read_packet_data s.0, record c { input = s.1 }) (open_frame lib) in
      Arrives c.state o c'
framed-Arrives lib c (ok bs, r) h = open_frame-Arrives lib bs (record c { input = r }) h
framed-Arrives lib c (err x, r) h = no_packet _ _ _ h (λ p x. cc)
framed-Arrives lib c (panic x, r) h = no_packet _ _ _ h (λ p x. cc)

counted-Arrives :
    (lib : Library) (c : Conn) (s : Outcome ℕ × Reader)
    → IsSound c.registry
    → let (o, c') =
        and_then (wrap_outcome read_packet_length s.0, record c { input = s.1 }) (read_frame lib) in
      Arrives c.state o c'
unfolding read_frame
counted-Arrives lib c (ok n, r) h = framed-Arrives lib (record c { input = r }) (copy_n n r) h
counted-Arrives lib c (err x, r) h = no_packet _ _ _ h (λ p x. cc)
counted-Arrives lib c (panic x, r) h = no_packet _ _ _ h (λ p x. cc)

-- On a connection with a sound registry, whatever the server sends, ReadPacket returns a packet only
-- if it is one of those that arrive in the connection's state; and it leaves the registry sound.
pub read_packet-Arrives :
    (lib : Library) (c : Conn)
    → IsSound c.registry
    → Arrives c.state (read_packet lib c).0 (read_packet lib c).1
unfolding read_packet
read_packet-Arrives lib c h = counted-Arrives lib c (read_var_int c.input) h
