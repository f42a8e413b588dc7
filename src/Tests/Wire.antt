-- ===== src/Tests/Wire.antt =====
-- The wire format at concrete inputs.
use gophermc.Base.{◌≡◌, refl, some, [], ◌∷◌, ◌++◌, arith}
use gophermc.Base.Outcome.{eof, ok}
use gophermc.Types.{codes}
use gophermc.Wire.Fields.{read_bytes, write_byte_slice}
use gophermc.Wire.Fields.Limits.{IsReading, read_bytes-IsReading}
use gophermc.Wire.Fields.RoundTrip.{string_bytes, write_byte_slice-bytes, read_bytes-string_bytes}
use gophermc.Wire.Stream.{Bytes, Writer, buffer, short_error, write}
use gophermc.Wire.VarInt.{read_var_int, write_var_int}
use gophermc.Wire.VarInt.Every.{IsRead, read_var_int-IsRead}
use gophermc.Wire.VarInt.Limits.{Takes, read_var_int-Takes}
use gophermc.Wire.VarInt.RoundTrip.{var_int_bytes, write_var_int-bytes, read_var_int-bytes}
use gophermc.Tests.Samples.{server_bytes}

-- The int32 -1, which takes all five bytes.
written : write_var_int 0xffff_ffff (buffer []) ≡ (ok tt, buffer (255 ∷ 255 ∷ 255 ∷ 255 ∷ 15 ∷ []))
unfolding write_var_int gophermc.Wire.Stream.write_byte
written = refl

-- Room for two bytes of three.
abbrev full_after_two : Writer
full_after_two = record { written = 9 ∷ []; fault = some (2, eof) }

read_var_int-bytes_example :
    read_var_int (record { rest = var_int_bytes 0xffff_ffff ++ 7 ∷ []; at_end = eof })
    ≡ (ok 0xffff_ffff, record { rest = 7 ∷ []; at_end = eof })
read_var_int-bytes_example = read_var_int-bytes 0xffff_ffff (7 ∷ []) eof (omega arith)

write_var_int-bytes_example :
    write_var_int 300000 full_after_two ≡ write (var_int_bytes 300000) full_after_two
write_var_int-bytes_example = write_var_int-bytes 300000 full_after_two (omega arith)

read_var_int-IsRead_example :
    IsRead eof
      (255 ∷ 128 ∷ 3 ∷ 9 ∷ [])
      (read_var_int (record { rest = 255 ∷ 128 ∷ 3 ∷ 9 ∷ []; at_end = eof }))
read_var_int-IsRead_example =
    read_var_int-IsRead (255 ∷ 128 ∷ 3 ∷ 9 ∷ []) eof
      (omega arith, (omega arith, (omega arith, (omega arith, tt))))

read_var_int-Takes_example :
    Takes server_bytes 5 (read_var_int server_bytes).0 (read_var_int server_bytes).1
read_var_int-Takes_example = read_var_int-Takes server_bytes

write_byte_slice-bytes_example :
    write_byte_slice (codes "brand") full_after_two
    ≡ write (string_bytes (codes "brand")) full_after_two
write_byte_slice-bytes_example = write_byte_slice-bytes (codes "brand") full_after_two (omega arith)

read_bytes-string_bytes_example :
    read_bytes (record { rest = string_bytes (codes "brand") ++ 1 ∷ []; at_end = eof })
    ≡ (codes "brand", ok tt, record { rest = 1 ∷ []; at_end = eof })
read_bytes-string_bytes_example = read_bytes-string_bytes (codes "brand") (1 ∷ []) eof (omega arith)

read_bytes-IsReading_example :
    IsReading 4
      (1 ∷ 2 ∷ [])
      eof
      (read_bytes (record { rest = var_int_bytes 4 ++ 1 ∷ 2 ∷ []; at_end = eof }))
read_bytes-IsReading_example = read_bytes-IsReading 4 (1 ∷ 2 ∷ []) eof (omega arith)
