-- ===== src/Wire/VarInt.antt =====
-- ReadVarInt and WriteVarInt of protocol/protocol.go. An int32 is its bit pattern, below 2 ^ 32.
pub mod RoundTrip
pub mod Limits
pub mod Every
use gophermc.Base.{
  ℕ, zero, suc, ◌+◌, ◌*◌, ◌/◌, ◌%◌, ◌^◌, ◌<◌, ◌≡◌, ◌≢◌, bit_and, bit_or, ◌==◌, if◌then◌else◌, arith,
}
use gophermc.Base.Bits.{zero-bit_and}
use gophermc.Base.Order.{lt_wf}
use gophermc.Base.Outcome.{Action, ◌>>=◌, ◌>>◌, pure, fail, varint_too_big}
use gophermc.Wire.Stream.{Reader, Writer, read_byte, write_byte}
use mathlib.Core.Logic.{dite}
use mathlib.Core.WellFounded.{Acc}
use native.Mathlib.Decide.{ℕ_discrete}

abbrev pub max_var_int_size : ℕ
max_var_int_size = 5

-- `uv & ^uint32(0x7F)` and `byte(uv&0x7F|0x80)`
abbrev pub high_bits : ℕ → ℕ
high_bits uv = bit_and uv 0xffff_ff80

abbrev pub group_byte : ℕ → ℕ
group_byte uv = bit_or (bit_and uv 0x7f) 0x80 % 256

shift_shrinks : (uv : ℕ) → high_bits uv ≢ 0 → uv / 128 < uv
shift_shrinks zero h = absurd (h (zero-bit_and 0xffff_ff80))
shift_shrinks (suc n) h = omega arith

-- `uv >>= 7` is `uv / 128`.
write_var_int_loop : (uv : ℕ) → Acc ◌<◌ uv → Action Writer (Unit {0})
write_var_int_loop uv (Acc.intro _ smaller) =
    dite (ℕ_discrete (high_bits uv) 0) (λ _. write_byte (uv % 256))
      (λ more.
        write_byte (group_byte uv)
        >> write_var_int_loop (uv / 128) (smaller _ (shift_shrinks uv more)))

unfoldable pub write_var_int : ℕ → Action Writer (Unit {0})
unfolding write_var_int_loop shift_shrinks lt_wf ℕ_discrete
write_var_int value = write_var_int_loop value (lt_wf.apply value)

-- `val |= uint32(b&0x7F) << pos`
abbrev pub add_group : ℕ → ℕ → ℕ → ℕ
add_group val b pos = bit_or val (bit_and b 0x7f * 2 ^ pos % 2 ^ 32)

-- The first argument counts the rounds that `i < MaxVarIntSize` still allows.
unfoldable pub read_var_int_loop : ℕ → ℕ → ℕ → Action Reader ℕ
read_var_int_loop zero val pos = fail varint_too_big
read_var_int_loop (suc rounds) val pos = do
  b ← read_byte
  let val' = add_group val b pos
  let more = read_var_int_loop rounds val' (pos + 7)
  if bit_and b 0x80 == 0 then pure val' else more

unfoldable pub read_var_int : Action Reader ℕ
unfolding read_var_int_loop
read_var_int = read_var_int_loop max_var_int_size 0 0
