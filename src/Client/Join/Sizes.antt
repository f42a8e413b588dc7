-- ===== src/Client/Join/Sizes.antt =====
-- How long the encodings of the client's packets are, and that they have no error.
use gophermc.Base.{
  ℕ, ◌+◌, ◌<◌, ◌≤◌, ◌^◌, ◌≡◌, refl, Bool, true, false, some, [], ◌∷◌, ◌++◌, length, length-append,
  leb, arith, if◌then◌else◌, Bool-cases, inl, inr,
}
use gophermc.Base.Int.{ℤ, pos, negsuc}
use gophermc.Base.Outcome.{Action, pure, or_else, ◌>>◌}
use gophermc.Client.Join.Speaks.{CanSend}
use gophermc.Conn.{body}
use gophermc.Conn.Frame.{packed}
use gophermc.Packets.{Packet, Library, Moment}
use gophermc.Packets.Encode.{encode, when}
use gophermc.Packets.Constructors.{get_packet_id}
use gophermc.Registry.Tables.{protocol_registry}
use gophermc.Types.{State, serverbound}
use gophermc.Versions.{Version}
use gophermc.Wire.Fields.Codec.{Fills, Fills-write, Fills-nothing, Fills-then, Fills-or_else}
use gophermc.Wire.Fields.RoundTrip.{
  string_bytes, Fills-write_var_int, Fills-write_string, Fills-write_byte, Fills-write_bool,
  bool_bytes,
}
use gophermc.Wire.Fields.{write_string, write_bool}
use gophermc.Wire.Stream.{Bytes, Writer, write, write_byte}
use gophermc.Wire.VarInt.{write_var_int}
use gophermc.Wire.VarInt.RoundTrip.{var_int_bytes, var_int_bytes_shape}

-- The action writes at most `n` bytes into a buffer, without an error.
pub record Writes (m : Action Writer (Unit {0})) (n : ℕ) : Type 0 where
  pub bytes : Bytes
  pub fills : Fills m bytes
  pub size : length bytes ≤ n

module _ {m : Action Writer (Unit {0})} {a : ℕ} where
  pub Writes-then :
      {k : Action Writer (Unit {0})} {b : ℕ} → Writes m a → Writes k b → Writes (m >> k) (a + b)
  Writes-then f g = record {
    bytes = f.bytes ++ g.bytes;
    fills = Fills-then f.fills g.fills;
    size = omega (arith, length-append f.bytes g.bytes, f.size, g.size);
  }

  pub Writes-ignore : Writes m a → Writes (or_else m tt) a
  Writes-ignore f = record { bytes = f.bytes; fills = Fills-or_else f.fills; size = f.size }

  pub Writes-more : {b : ℕ} → a ≤ b → Writes m a → Writes m b
  Writes-more l f = record { bytes = f.bytes; fills = f.fills; size = omega (arith, f.size) }

  pub Writes-when : (b : Bool) → Writes m a → Writes (when b m) a
  Writes-when true f = f
  Writes-when false f = record { bytes = []; fills = Fills-nothing; size = omega arith }

  pub Writes-if :
      {k : Action Writer (Unit {0})} (b : Bool)
      → Writes m a
      → Writes k a
      → Writes (if b then m else k) a
  Writes-if true f g = f
  Writes-if false f g = g

pub Writes-nothing : Writes (pure tt) 0
Writes-nothing = record { bytes = []; fills = Fills-nothing; size = omega arith }

pub Writes-write : (bs : Bytes) → Writes (write bs) (length bs)
Writes-write bs = record { bytes = bs; fills = Fills-write bs; size = omega arith }

pub Writes-write_var_int : (v : ℕ) → v < 2 ^ 32 → Writes (write_var_int v) 5
Writes-write_var_int v h = record {
  bytes = var_int_bytes v;
  fills = Fills-write_var_int v h;
  size = omega (arith, (var_int_bytes_shape v h).2);
}

pub Writes-write_string : (s : Bytes) → length s < 2 ^ 32 → Writes (write_string s) (5 + length s)
Writes-write_string s h = record {
  bytes = string_bytes s;
  fills = Fills-write_string s h;
  size =
      omega
        (arith, length-append (var_int_bytes (length s)) s, (var_int_bytes_shape (length s) h).2);
}

pub Writes-write_byte : (b : ℕ) → Writes (write_byte b) 1
Writes-write_byte b = record { bytes = b ∷ []; fills = Fills-write_byte b; size = omega arith }

pub Writes-write_bool : (b : Bool) → Writes (write_bool b) 1
Writes-write_bool b = record {
  bytes = bool_bytes b;
  fills = Fills-write_bool b;
  size = omega arith;
}

-- A zlib that makes no more than 2 ^ 30 bytes of less than 2 ^ 22.
abbrev pub IsModest : Library → Type 0
IsModest lib = (bs : Bytes) → length bs < 2 ^ 22 → length (lib.deflate bs) < 2 ^ 30

packed_short :
    (lib : Library) (t : ℤ) (bs : Bytes)
    → IsModest lib
    → length bs < 2 ^ 22
    → length (packed lib t bs) < 2 ^ 32
unfolding packed
packed_short lib (negsuc n) bs h l = omega arith
packed_short lib (pos t) bs h l = elim (Bool-cases (leb t (length bs))) [
  | inl deflated ↦ rw deflated (
      omega (
        arith,
        length-append (var_int_bytes (length bs)) (lib.deflate bs),
        (var_int_bytes_shape (length bs) (omega arith)).2,
        h bs l,
      ))
  | inr plain ↦
      rw plain
        (omega (arith, length-append (var_int_bytes 0) bs, (var_int_bytes_shape 0 (omega arith)).2))
]

-- A packet with a number and a short encoding can be sent.
pub Writes-CanSend :
    (lib : Library) (moment : Moment) (v : Version) (s : State) (t : ℤ) (q : Packet) (n id : ℕ)
    → IsModest lib
    → (get_packet_id v s serverbound q protocol_registry).0 ≡ some id
    → id < 2 ^ 31
    → Writes (encode lib moment q v) n
    → n + 5 < 2 ^ 22
    → CanSend lib moment v s t q
unfolding body
Writes-CanSend lib moment v s t q n id modest number small w l =
    let both = Writes-then (Writes-ignore (Writes-write_var_int id (omega arith))) w in
    record {
      id = id;
      bytes = both.bytes;
      number = number;
      encoded = rw (both.fills.run []) refl;
      short = omega (arith, both.size);
      fits = packed_short lib t both.bytes modest (omega (arith, both.size));
    }
