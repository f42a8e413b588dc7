-- ===== src/Wire/Stream.antt =====
-- io.Reader and io.Writer, as the helpers of protocol/protocol.go use them: io.ReadFull, Write,
-- ReadByte and WriteByte.
pub mod Laws
use gophermc.Base.{
  ℕ, zero, suc, ◌-◌, ◌<◌, Option, none, some, List, [], ◌∷◌, ◌++◌, ltb, leb, if◌then◌else◌, length,
  take, drop, replicate, ◌==◌, ◌&&◌,
}
use gophermc.Base.Outcome.{Error, eof, unexpected_eof, Outcome, ok, err, panic, Action, is_eof}

abbrev pub Bytes : Type 0
Bytes = List ℕ

abbrev pub IsByte : ℕ → Type 0
IsByte b = b < 256

-- The bytes that a reader has still to give, and the error that it answers after them: io.EOF for a
-- bytes.Reader, io.EOF or a network error for a connection.
pub record Reader : Type 0 where
  pub rest : Bytes
  pub at_end : Error

-- bytes.NewReader
abbrev pub bytes_reader : Bytes → Reader
bytes_reader bs = record { rest = bs; at_end = eof }

-- What was written, and, for a writer that fails, how many more bytes it takes and its error.
pub record Writer : Type 0 where
  pub written : Bytes
  pub fault : Option (ℕ × Error)

-- A bytebufferpool.ByteBuffer or a bytes.Buffer: it never fails.
abbrev pub buffer : Bytes → Writer
buffer bs = record { written = bs; fault = none }

-- Both ways of `ReadByte`: the next byte, or the error at the end. (io.ReadFull of one byte has no
-- partial read to report.)
read_byte_of : Bytes → Action Reader ℕ
read_byte_of [] r = (err r.at_end, r)
read_byte_of (b ∷ bs) r = (ok b, record r { rest = bs })

unfoldable pub read_byte : Action Reader ℕ
unfolding read_byte_of
read_byte r = read_byte_of r.rest r

-- The error of io.ReadFull after at least one byte.
abbrev pub partial_error : Error → Error
partial_error eof = unexpected_eof
partial_error e = e

abbrev pub short_error : Bytes → Error → Error
short_error [] e = e
short_error (b ∷ bs) e = partial_error e

-- io.ReadFull(r, make([]byte, n)): the buffer, as far as it was filled, and the error.
unfoldable pub read_full : ℕ → Reader → Bytes × Outcome (Unit {0}) × Reader
read_full n r =
    if leb n (length r.rest) then (take n r.rest, ok tt, record r { rest = drop n r.rest }) else (
      r.rest ++ replicate (n - length r.rest) 0,
      err (short_error r.rest r.at_end),
      record r { rest = [] },
    )

-- The same where the caller drops the buffer on an error.
abbrev pub keep_if_ok : Bytes × Outcome (Unit {0}) × Reader → Outcome Bytes × Reader
keep_if_ok (buf, ok _, r) = (ok buf, r)
keep_if_ok (buf, err e, r) = (err e, r)
keep_if_ok (buf, panic p, r) = (panic p, r)

unfoldable pub read_exactly : ℕ → Action Reader Bytes
unfolding read_full
read_exactly n r = keep_if_ok (read_full n r)

-- io.ReadAll and io.Copy(io.Discard, r): they end without error at io.EOF.
unfoldable pub read_all : Action Reader Bytes
read_all r = (elim r.at_end [ eof ↦ ok r.rest | e ↦ err e ], record r { rest = [] })

-- w.Write(bs). A writer that takes fewer bytes returns its error, and takes none from then on.
write_of : Option (ℕ × Error) → Bytes → Action Writer (Unit {0})
write_of none bs w = (ok tt, record w { written = w.written ++ bs })
write_of (some (room, e)) bs w =
    if leb (length bs) room
    then (ok tt, record w { written = w.written ++ bs; fault = some (room - length bs, e) })
    else (err e, record w { written = w.written ++ take room bs; fault = some (0, e) })

unfoldable pub write : Bytes → Action Writer (Unit {0})
unfolding write_of
write bs w = write_of w.fault bs w

unfoldable pub write_byte : ℕ → Action Writer (Unit {0})
unfolding write
write_byte b = write (b ∷ [])
