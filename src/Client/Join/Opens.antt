-- ===== src/Client/Join/Opens.antt =====
-- The frames from which ReadPacket takes a given number and given fields.
use gophermc.Base.{
  ℕ, ◌^◌, ◌<◌, ◌≡◌, refl, ap, ◌∙◌, Bool, true, ◌++◌, length, length-append, append_assoc, leb,
  arith, Bool-cases, inl, inr,
}
use gophermc.Base.Int.{ℤ, pos, negsuc}
use gophermc.Base.Outcome.{Error, ok, eof}
use gophermc.Conn.{Conn, data_reader, open_frame, read_packet}
use gophermc.Conn.Frame.{packed, after_data, data_reader-packed, copy_n-append}
use gophermc.Packets.{Library}
use gophermc.Wire.Fields.Codec.{Decodes}
use gophermc.Wire.Fields.RoundTrip.{string_bytes, Decodes-read_var_int}
use gophermc.Wire.Stream.{Bytes, bytes_reader}
use gophermc.Wire.VarInt.{read_var_int}
use gophermc.Wire.VarInt.RoundTrip.{var_int_bytes, var_int_bytes_shape, read_var_int-bytes}

-- The frame is a length, in any of its encodings, and a body. At the threshold `t` the body, plain or
-- in any deflated form, holds data that is a number, in any of its encodings, and the fields.
pub record Opens (lib : Library) (t : ℤ) (frame : Bytes) (id : ℕ) (fields : Bytes) : Type 0 where
  pub front : Bytes
  pub body : Bytes
  pub split : frame ≡ front ++ body
  pub announced : Decodes read_var_int front (length body)
  pub fits : length body < 2 ^ 31
  pub data' : Bytes
  pub opened :
      (conn : Conn)
      → (z : Bool) × (data_reader lib t body conn
          ≡ (ok (bytes_reader data'), record conn { zlib_open = z }))
  pub numbered : read_var_int (bytes_reader data') ≡ (ok id, bytes_reader fields)

-- ReadPacket opens the body of such a frame, and leaves what follows it.
pub read_packet-front :
    (lib : Library) (front body more : Bytes) (e : Error) (conn : Conn)
    → Decodes read_var_int front (length body)
    → length body < 2 ^ 31
    → read_packet lib
        (record conn { input = record { rest = (front ++ body) ++ more; at_end = e } })
      ≡ open_frame lib body (record conn { input = record { rest = more; at_end = e } })
unfolding read_packet open_frame
read_packet-front lib front body more e conn d l =
    rw (append_assoc, d.run (body ++ more) e, copy_n-append body more e l)

-- The data of a packet: its number and its fields.
abbrev pub data_of : ℕ → Bytes → Bytes
data_of id fields = var_int_bytes id ++ fields

pub record Fits (lib : Library) (t : ℤ) (id : ℕ) (fields : Bytes) : Type 0 where
  pub number : id < 2 ^ 32
  pub short : length (data_of id fields) < 2 ^ 32
  pub fits : length (packed lib t (data_of id fields)) < 2 ^ 31

after_data-zlib_open :
    (lib : Library) (t : ℤ) (bs : Bytes) (conn : Conn)
    → (z : Bool) × (after_data lib t bs conn ≡ record conn { zlib_open = z })
unfolding after_data
after_data-zlib_open lib (negsuc n) bs conn = (conn.zlib_open, refl)
after_data-zlib_open lib (pos n) bs conn = elim (Bool-cases (leb n (length bs))) [
  | inl inflated ↦ (true, rw inflated refl)
  | inr plain ↦ (conn.zlib_open, rw plain refl)
]

-- The frame that WritePacket makes opens, where zlib inflates what it deflated.
pub packed-Opens :
    (lib : Library) (t : ℤ) (id : ℕ) (fields : Bytes)
    → ((bs : Bytes) → lib.inflate (lib.deflate bs) ≡ ok (bytes_reader bs))
    → Fits lib t id fields
    → Opens lib t (string_bytes (packed lib t (data_of id fields))) id fields
packed-Opens lib t id fields zlib f =
    let some_bytes : 0 < length (data_of id fields) =
      omega (arith, length-append (var_int_bytes id) fields, (var_int_bytes_shape id f.number).1) in
    record {
      front = var_int_bytes (length (packed lib t (data_of id fields)));
      body = packed lib t (data_of id fields);
      split = refl;
      announced =
          Decodes-read_var_int (length (packed lib t (data_of id fields))) (omega (arith, f.fits));
      fits = f.fits;
      data' = data_of id fields;
      opened = λ conn.
          let (z, e) = after_data-zlib_open lib t (data_of id fields) conn in
          (
            z,
            data_reader-packed lib zlib t (data_of id fields) conn some_bytes f.short
                ∙ ap (λ c. (ok (bytes_reader (data_of id fields)), c)) e,
          );
      numbered = read_var_int-bytes id fields eof f.number;
    }
