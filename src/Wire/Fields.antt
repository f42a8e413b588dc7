-- ===== src/Wire/Fields.antt =====
-- The other fields of protocol/protocol.go. An int64 and a uint16 are bit patterns; a uuid.UUID is
-- its 16 bytes; a float64 is the pattern that binary.Write writes.
pub mod Codec
pub mod RoundTrip
pub mod Limits
use gophermc.Base.{
  ℕ, zero, suc, ◌+◌, ◌*◌, ◌/◌, ◌%◌, ◌^◌, Bool, true, false, not, [], ◌∷◌, ◌++◌, length, take, drop,
  ltb, leb, ◌==◌, if◌then◌else◌,
}
use gophermc.Base.Outcome.{
  Outcome, ok, err, panic, Action, ◌>>=◌, ◌>>◌, pure, fail, wrapped, read_array_length,
  negative_length, length_exceeds_max,
}
use gophermc.Wire.Stream.{
  Bytes, Reader, Writer, read_byte, read_full, read_exactly, keep_if_ok, write, write_byte,
}
use gophermc.Wire.VarInt.{read_var_int, write_var_int}

abbrev pub max_packet_data_size : ℕ
max_packet_data_size = 2097152

-- `length < 0` of an int32
abbrev pub is_negative : ℕ → Bool
is_negative v = leb (2 ^ 31) v

-- binary.BigEndian over `n` bytes.
abbrev pub big_endian : ℕ → ℕ → Bytes
big_endian zero v = []
big_endian (suc k) v = (v / 256 ^ k % 256) ∷ big_endian k v

abbrev pub from_big_endian : ℕ → Bytes → ℕ
from_big_endian acc [] = acc
from_big_endian acc (b ∷ bs) = from_big_endian (acc * 256 + b) bs

unfoldable pub read_uuid : Action Reader Bytes
unfolding read_exactly
read_uuid = read_exactly 16

-- The three checks of a length that was read, and io.ReadFull into a buffer of that length.
read_bytes_of : Outcome ℕ × Reader → Bytes × Outcome (Unit {0}) × Reader
unfolding read_full
read_bytes_of (err e, r) = ([], err (wrapped read_array_length e), r)
read_bytes_of (panic p, r) = ([], panic p, r)
read_bytes_of (ok n, r) =
    if is_negative n
    then ([], err (negative_length n), r)
    else if ltb max_packet_data_size n
    then ([], err (length_exceeds_max n), r)
    else read_full n r

-- The slice comes back beside an error too, filled as far as the bytes went.
unfoldable pub read_bytes : Reader → Bytes × Outcome (Unit {0}) × Reader
unfolding read_bytes_of
read_bytes r = read_bytes_of (read_var_int r)

unfoldable pub read_string : Action Reader Bytes
unfolding read_bytes
read_string r = keep_if_ok (read_bytes r)

abbrev pub dash : Bytes
dash = b'-' ∷ []

-- fmt.Sprintf("%s-%s-%s-%s-%s", s[0:8], s[8:12], s[12:16], s[16:20], s[20:32])
unfoldable pub dashed : Bytes → Bytes
dashed s =
    take 8 s
    ++ dash
    ++ take 4 (drop 8 s)
    ++ dash
    ++ take 4 (drop 12 s)
    ++ dash
    ++ take 4 (drop 16 s)
    ++ dash
    ++ take 12 (drop 20 s)

-- `parse` is uuid.Parse of github.com/google/uuid.
unfoldable pub read_string_uuid : (Bytes → Outcome Bytes) → Action Reader Bytes
unfolding dashed
read_string_uuid parse = do
  s ← read_string
  λ r. (parse (if length s == 32 then dashed s else s), r)

-- `int32(len(data))`
unfoldable pub write_byte_slice : Bytes → Action Writer (Unit {0})
write_byte_slice bs = do write_var_int (length bs % 2 ^ 32); write bs

unfoldable pub write_string : Bytes → Action Writer (Unit {0})
unfolding write_byte_slice
write_string value = write_byte_slice value

unfoldable pub read_long : Action Reader ℕ
unfolding read_exactly
read_long = do bs ← read_exactly 8; pure (from_big_endian 0 bs)

unfoldable pub write_long : ℕ → Action Writer (Unit {0})
write_long v = write (big_endian 8 v)

unfoldable pub read_ushort : Action Reader ℕ
unfolding read_exactly
read_ushort = do bs ← read_exactly 2; pure (from_big_endian 0 bs)

unfoldable pub write_ushort : ℕ → Action Writer (Unit {0})
write_ushort v = write (big_endian 2 v)

-- binary.Read and binary.Write of an int32
unfoldable pub read_int : Action Reader ℕ
unfolding read_exactly
read_int = do bs ← read_exactly 4; pure (from_big_endian 0 bs)

unfoldable pub write_int : ℕ → Action Writer (Unit {0})
write_int v = write (big_endian 4 v)

unfoldable pub read_bool : Action Reader Bool
read_bool = do b ← read_byte; pure (not (b == 0))

unfoldable pub write_bool : Bool → Action Writer (Unit {0})
write_bool v = write_byte (if v then 1 else 0)
