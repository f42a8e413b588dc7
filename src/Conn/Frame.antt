-- ===== src/Conn/Frame.antt =====
-- One frame: what WritePacket puts around a packet's bytes, and ReadPacket takes away.
use gophermc.Base.{
  ℕ, ◌^◌, ◌<◌, ◌≡◌, refl, ap, ◌∙◌, true, false, [], ◌++◌, length, arith, append_assoc,
  length-append, take-length_append, drop-length_append, leb, le→leb, lt→leb, ◌==◌, if◌then◌else◌,
  inl, inr, Bool-cases,
}
use gophermc.Base.Int.{ℤ, pos, negsuc}
use gophermc.Base.Outcome.{Error, eof, ok, and_then}
use gophermc.Conn.{
  Conn, copy_n, data_reader, after_length, parse_data, open_frame, read_packet, payload,
}
use gophermc.Packets.{Library}
use gophermc.Packets.Encode.{ignore}
use gophermc.Wire.Fields.RoundTrip.{string_bytes, Fills-write_var_int}
use gophermc.Wire.Fields.Codec.{Fills-or_else}
use gophermc.Wire.Stream.{Bytes, bytes_reader, buffer}
use gophermc.Wire.VarInt.{write_var_int}
use gophermc.Wire.VarInt.RoundTrip.{var_int_bytes, read_var_int-bytes}
use native.Mathlib.Nat.{mod-eq_of_lt}

pub copy_n-append :
    (bs more : Bytes) (e : Error)
    → length bs < 2 ^ 31
    → copy_n (length bs) (record { rest = bs ++ more; at_end = e })
      ≡ (ok bs, record { rest = more; at_end = e })
unfolding copy_n
copy_n-append bs more e h = rw (
  lt→leb (2 ^ 31) (length bs) h,
  le→leb (length bs) (length (bs ++ more)) (omega (arith, length-append bs more)),
  take-length_append,
  drop-length_append,
)

-- Where a whole frame stands at the front of the input, ReadPacket takes it and nothing else.
pub read_packet-open_frame :
    (lib : Library) (c : Conn) (bs more : Bytes) (e : Error)
    → length bs < 2 ^ 31
    → read_packet lib (record c { input = record { rest = string_bytes bs ++ more; at_end = e } })
      ≡ open_frame lib bs (record c { input = record { rest = more; at_end = e } })
unfolding read_packet open_frame
read_packet-open_frame lib c bs more e h = rw (
  append_assoc,
  read_var_int-bytes (length bs) (bs ++ more) e (omega arith),
  copy_n-append bs more e h,
)

-- The bytes after the frame's length: the data, or its length when uncompressed (0 for data below
-- the threshold) and the data, deflated or as it is.
unfoldable pub packed : Library → ℤ → Bytes → Bytes
packed lib (negsuc n) data' = data'
packed lib (pos threshold) data' =
    if leb threshold (length data')
    then var_int_bytes (length data') ++ lib.deflate data'
    else var_int_bytes 0 ++ data'

ignored_var_int :
    (v : ℕ) → v < 2 ^ 32 → (ignore (write_var_int v) (buffer [])).1.written ≡ var_int_bytes v
ignored_var_int v h = ap (λ t. t.1.written) ((Fills-or_else (Fills-write_var_int v h)).run [])

pub payload-packed :
    (lib : Library) (threshold : ℤ) (bs : Bytes)
    → length bs < 2 ^ 32
    → payload lib threshold bs ≡ packed lib threshold bs
unfolding payload packed
payload-packed lib (negsuc n) bs h = refl
payload-packed lib (pos t) bs h =
    rw (mod-eq_of_lt h, ignored_var_int (length bs) h, ignored_var_int 0 (omega arith))

-- The connection, with the mark that a zlib reader is kept set if data was inflated.
unfoldable pub after_data : Library → ℤ → Bytes → Conn → Conn
after_data lib (negsuc n) data' c = c
after_data lib (pos t) data' c = if leb t (length data') then record c { zlib_open = true } else c

nonzero : (n : ℕ) → 0 < n → (n == 0) ≡ false
nonzero n h = ground arith

-- Opening what was packed gives a reader of the same data, under the same threshold, whether it
-- was deflated or not. The law of zlib: inflating what was deflated gives it back.
module _ (lib : Library)
    (inflate-deflate : (bs : Bytes) → lib.inflate (lib.deflate bs) ≡ ok (bytes_reader bs)) where
  pub data_reader-packed :
      (t : ℤ) (data' : Bytes) (c : Conn)
      → 0 < length data'
      → length data' < 2 ^ 32
      → data_reader lib t (packed lib t data') c
        ≡ (ok (bytes_reader data'), after_data lib t data' c)
  unfolding data_reader after_data packed
  data_reader-packed (negsuc n) data' c hl h = refl
  data_reader-packed (pos t) data' c hl h = elim (Bool-cases (leb t (length data'))) [
    | inl deflated ↦ rw (
      deflated,
      read_var_int-bytes (length data') (lib.deflate data') eof h,
      after_length,
      nonzero (length data') hl,
      inflate-deflate,
    )
    | inr plain ↦ rw (plain, read_var_int-bytes 0 data' eof (omega arith))
  ]

  -- ReadPacket on a frame around given data, at the threshold under which it was packed, goes on
  -- with exactly that data, and leaves exactly the bytes behind the frame.
  pub read_packet-packed :
      (c : Conn) (data' more : Bytes) (e : Error)
      → 0 < length data'
      → length data' < 2 ^ 32
      → length (packed lib c.threshold data') < 2 ^ 31
      → read_packet lib (record c {
        input = record { rest = string_bytes (packed lib c.threshold data') ++ more; at_end = e };
      })
        ≡ parse_data lib (bytes_reader data') (
            after_data lib c.threshold data'
              (record c { input = record { rest = more; at_end = e } }))
  unfolding open_frame
  read_packet-packed c data' more e hl h hp =
      let c' : Conn = record c { input = record { rest = more; at_end = e } } in
      read_packet-open_frame lib c (packed lib c.threshold data') more e hp
      ∙ ap (λ t. and_then t (parse_data lib)) (data_reader-packed c.threshold data' c' hl h)
