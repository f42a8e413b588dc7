-- ===== src/Wire/Fields/RoundTrip.antt =====
-- Each field that is written is read back, whatever follows it.
use gophermc.Base.{
  ℕ, ◌^◌, ◌≤◌, ◌<◌, ◌≡◌, refl, ◌∙◌, Bool, true, false, [], ◌∷◌, ◌++◌, append_assoc, length, arith,
  le→ltb, lt→leb, if◌then◌else◌,
}
use gophermc.Base.Outcome.{Error, ok}
use gophermc.Wire.Stream.{Bytes, Writer, buffer, read_byte, read_exactly, write, write_byte}
use gophermc.Wire.Stream.Laws.{read_full-append, write-append}
use gophermc.Wire.VarInt.{read_var_int, write_var_int}
use gophermc.Wire.VarInt.RoundTrip.{var_int_bytes, write_var_int-bytes, read_var_int-bytes}
use gophermc.Wire.Fields.{
  big_endian, from_big_endian, read_bytes, read_string, write_string, write_byte_slice, read_long,
  write_long, read_ushort, write_ushort, read_int, write_int, read_bool, write_bool,
  max_packet_data_size,
}
use gophermc.Wire.Fields.Codec.{Fills, Decodes, Fills-write, Decodes-map}
use native.Mathlib.Nat.{mod-eq_of_lt}

pub Fills-write_var_int : (v : ℕ) → v < 2 ^ 32 → Fills (write_var_int v) (var_int_bytes v)
Fills-write_var_int v h = record {
  run = λ out. write_var_int-bytes v (buffer out) h ∙ (Fills-write (var_int_bytes v)).run out;
}

pub Decodes-read_var_int : (v : ℕ) → v < 2 ^ 32 → Decodes read_var_int (var_int_bytes v) v
Decodes-read_var_int v h = record { run = λ more e. read_var_int-bytes v more e h }

-- A string or a byte slice on the wire.
abbrev pub string_bytes : Bytes → Bytes
string_bytes s = var_int_bytes (length s) ++ s

-- On every writer, a slice shorter than 2 ^ 32 bytes is its length as a varint and then its bytes.
pub write_byte_slice-bytes :
    (s : Bytes) (w : Writer) → length s < 2 ^ 32 → write_byte_slice s w ≡ write (string_bytes s) w
unfolding write_byte_slice
write_byte_slice-bytes s w h = rw (mod-eq_of_lt h, write_var_int-bytes (length s) w h, write-append)

pub Fills-write_string : (s : Bytes) → length s < 2 ^ 32 → Fills (write_string s) (string_bytes s)
unfolding write_string
Fills-write_string s h = record {
  run = λ out. write_byte_slice-bytes s (buffer out) h ∙ (Fills-write (string_bytes s)).run out;
}

-- A slice of at most MaxPacketDataSize bytes is read back with its error nil.
pub read_bytes-string_bytes :
    (s more : Bytes) (e : Error)
    → length s ≤ max_packet_data_size
    → read_bytes (record { rest = string_bytes s ++ more; at_end = e })
      ≡ (s, ok tt, record { rest = more; at_end = e })
unfolding read_bytes
read_bytes-string_bytes s more e h = rw (
  append_assoc,
  read_var_int-bytes (length s) (s ++ more) e (omega arith),
  lt→leb (2 ^ 31) (length s) (omega arith),
  le→ltb max_packet_data_size (length s) h,
  read_full-append,
)

pub Decodes-read_string :
    (s : Bytes) → length s ≤ max_packet_data_size → Decodes read_string (string_bytes s) s
unfolding read_string
Decodes-read_string s h = record { run = λ more e. rw (read_bytes-string_bytes s more e h) }

-- The value of big-endian bytes, at the three widths that the format uses.
two_bytes : (v : ℕ) → v < 2 ^ 16 → from_big_endian 0 (big_endian 2 v) ≡ v
two_bytes v h = omega arith

four_bytes : (v : ℕ) → v < 2 ^ 32 → from_big_endian 0 (big_endian 4 v) ≡ v
four_bytes v h = omega arith

eight_bytes : (v : ℕ) → v < 2 ^ 64 → from_big_endian 0 (big_endian 8 v) ≡ v
eight_bytes v h = omega arith

Decodes-read_exactly : (n : ℕ) (bs : Bytes) → length bs ≡ n → Decodes (read_exactly n) bs bs
unfolding read_exactly
Decodes-read_exactly n bs h = record { run = λ more e. rw (← h, read_full-append) }

pub Decodes-read_long : (v : ℕ) → v < 2 ^ 64 → Decodes read_long (big_endian 8 v) v
unfolding read_long
Decodes-read_long v h =
    rw (eight_bytes v h) at
      (Decodes-map (from_big_endian 0) (Decodes-read_exactly 8 (big_endian 8 v) refl))

pub Decodes-read_ushort : (v : ℕ) → v < 2 ^ 16 → Decodes read_ushort (big_endian 2 v) v
unfolding read_ushort
Decodes-read_ushort v h =
    rw (two_bytes v h) at
      (Decodes-map (from_big_endian 0) (Decodes-read_exactly 2 (big_endian 2 v) refl))

pub Decodes-read_int : (v : ℕ) → v < 2 ^ 32 → Decodes read_int (big_endian 4 v) v
unfolding read_int
Decodes-read_int v h =
    rw (four_bytes v h) at
      (Decodes-map (from_big_endian 0) (Decodes-read_exactly 4 (big_endian 4 v) refl))

pub Fills-write_long : (v : ℕ) → Fills (write_long v) (big_endian 8 v)
unfolding write_long
Fills-write_long v = Fills-write (big_endian 8 v)

pub Fills-write_ushort : (v : ℕ) → Fills (write_ushort v) (big_endian 2 v)
unfolding write_ushort
Fills-write_ushort v = Fills-write (big_endian 2 v)

pub Fills-write_int : (v : ℕ) → Fills (write_int v) (big_endian 4 v)
unfolding write_int
Fills-write_int v = Fills-write (big_endian 4 v)

pub Fills-write_byte : (b : ℕ) → Fills (write_byte b) (b ∷ [])
unfolding write_byte
Fills-write_byte b = Fills-write (b ∷ [])

abbrev pub bool_bytes : Bool → Bytes
bool_bytes v = (if v then 1 else 0) ∷ []

pub Fills-write_bool : (v : Bool) → Fills (write_bool v) (bool_bytes v)
unfolding write_bool
Fills-write_bool v = Fills-write_byte (if v then 1 else 0)

pub Decodes-read_bool : (v : Bool) → Decodes read_bool (bool_bytes v) v
unfolding read_bool read_byte
Decodes-read_bool true = record { run = λ more e. refl }
Decodes-read_bool false = record { run = λ more e. refl }
