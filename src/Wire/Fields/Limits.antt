-- ===== src/Wire/Fields/Limits.antt =====
-- ReadBytes on lengths that it refuses and on slices that are cut short.
use gophermc.Base.{
  take, drop, inl, inr, Bool-cases, leb, ltb, ℕ, ◌-◌, ◌^◌, ◌≤◌, ◌<◌, ◌≡◌, [], ◌++◌, length,
  replicate, arith, lt→ltb, lt→leb, le→leb, le→ltb,
}
use gophermc.Base.Outcome.{Outcome, Error, ok, err, negative_length, length_exceeds_max}
use gophermc.Wire.Stream.{Bytes, Reader, read_full, short_error}
use gophermc.Wire.VarInt.RoundTrip.{var_int_bytes, read_var_int-bytes}
use gophermc.Wire.Fields.{read_bytes, max_packet_data_size}

-- A length that is negative as an int32 is refused, with nothing but the length taken.
read_bytes_negative :
    (n : ℕ) (more : Bytes) (e : Error)
    → 2 ^ 31 ≤ n
    → n < 2 ^ 32
    → read_bytes (record { rest = var_int_bytes n ++ more; at_end = e })
      ≡ ([], err (negative_length n), record { rest = more; at_end = e })
unfolding read_bytes
read_bytes_negative n more e lo hi = rw (read_var_int-bytes n more e hi, le→leb (2 ^ 31) n lo)

-- So is a length above MaxPacketDataSize: WriteByteSlice writes slices that ReadBytes refuses.
read_bytes_too_long :
    (n : ℕ) (more : Bytes) (e : Error)
    → max_packet_data_size < n
    → n < 2 ^ 31
    → read_bytes (record { rest = var_int_bytes n ++ more; at_end = e })
      ≡ ([], err (length_exceeds_max n), record { rest = more; at_end = e })
unfolding read_bytes
read_bytes_too_long n more e lo hi = rw (
  read_var_int-bytes n more e (omega arith),
  lt→leb (2 ^ 31) n hi,
  lt→ltb max_packet_data_size n lo,
)

-- Where fewer bytes come than announced, the slice has the announced length all the same, with
-- zeros behind what came, and the error is that of the reader's end.
read_bytes_cut :
    (n : ℕ) (part : Bytes) (e : Error)
    → n ≤ max_packet_data_size
    → length part < n
    → read_bytes (record { rest = var_int_bytes n ++ part; at_end = e }) ≡ (
      part ++ replicate (n - length part) 0,
      err (short_error part e),
      record { rest = []; at_end = e },
    )
unfolding read_bytes
read_bytes_cut n part e hn hl = rw (
  read_var_int-bytes n part e (omega arith),
  lt→leb (2 ^ 31) n (omega arith),
  le→ltb max_packet_data_size n hn,
  read_full,
  lt→leb n (length part) hl,
)

read_bytes_whole :
    (n : ℕ) (behind : Bytes) (e : Error)
    → n ≤ max_packet_data_size
    → n ≤ length behind
    → read_bytes (record { rest = var_int_bytes n ++ behind; at_end = e })
      ≡ (take n behind, ok tt, record { rest = drop n behind; at_end = e })
unfolding read_bytes
read_bytes_whole n behind e hn hl = rw (
  read_var_int-bytes n behind e (omega arith),
  lt→leb (2 ^ 31) n (omega arith),
  le→ltb max_packet_data_size n hn,
  read_full,
  le→leb n (length behind) hl,
)

-- What ReadBytes answers, and leaves, where the length `n` is announced and `behind` is what follows.
pub data IsReading (n : ℕ) (behind : Bytes) (e : Error)
    : Bytes × Outcome (Unit {0}) × Reader → Type 0 where
  -- As an int32 the length is negative.
  negative :
      2 ^ 31 ≤ n
      → IsReading n behind e ([], err (negative_length n), record { rest = behind; at_end = e })
  too_long :
      max_packet_data_size < n
      → n < 2 ^ 31
      → IsReading n behind e ([], err (length_exceeds_max n), record { rest = behind; at_end = e })
  -- Zeros stand behind what came.
  cut :
      n ≤ max_packet_data_size
      → length behind < n
      → IsReading n behind e (
        behind ++ replicate (n - length behind) 0,
        err (short_error behind e),
        record { rest = []; at_end = e },
      )
  whole :
      n ≤ max_packet_data_size
      → n ≤ length behind
      → IsReading n behind e (take n behind, ok tt, record { rest = drop n behind; at_end = e })

-- ReadBytes behind every announced length: one that is negative as an int32 or above MaxPacketDataSize
-- is refused with nothing but the length taken; where fewer bytes come than announced, the slice has
-- the announced length all the same, with zeros behind what came, and the error is that of the reader's
-- end, io.ErrUnexpectedEOF in place of io.EOF where a part came; else it is the announced bytes, with
-- what follows left.
pub read_bytes-IsReading :
    (n : ℕ) (behind : Bytes) (e : Error)
    → n < 2 ^ 32
    → IsReading n behind e (read_bytes (record { rest = var_int_bytes n ++ behind; at_end = e }))
read_bytes-IsReading n behind e h = elim (Bool-cases (leb (2 ^ 31) n)) [
  | inl low ↦ rw (read_bytes_negative n behind e (ground arith) h) (negative (ground arith))
  | inr high ↦ elim (Bool-cases (ltb max_packet_data_size n)) [
    | inl long ↦
        rw (read_bytes_too_long n behind e (ground arith) (ground arith))
          (too_long (ground arith) (ground arith))
    | inr fits ↦ elim (Bool-cases (leb n (length behind))) [
      | inl there ↦
          rw (read_bytes_whole n behind e (ground arith) (ground arith))
            (whole (ground arith) (ground arith))
      | inr short ↦
          rw (read_bytes_cut n behind e (ground arith) (ground arith))
            (cut (ground arith) (ground arith))
    ]
  ]
]
