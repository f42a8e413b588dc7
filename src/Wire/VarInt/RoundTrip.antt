-- ===== src/Wire/VarInt/RoundTrip.antt =====
-- What WriteVarInt writes, and that ReadVarInt reads it back.
use gophermc.Base.{
  ℕ, zero, suc, ◌+◌, ◌*◌, ◌/◌, ◌%◌, ◌^◌, ◌≤◌, ◌<◌, ◌≡◌, refl, ap, ◌∙◌, [], ◌∷◌, ◌++◌, length, All,
  ltb, if◌then◌else◌, arith, sym, Bool-cases, inl, inr,
}
use gophermc.Base.Bits.{bit_and_low, bit_and_top, bit_and_high, bit_or_disjoint}
use gophermc.Base.Order.{lt_wf}
use gophermc.Base.Outcome.{Error, ok, and_then}
use gophermc.Wire.Stream.{Bytes, IsByte, Reader, Writer, read_byte, write, write_byte}
use gophermc.Wire.Stream.Laws.{write-append}
use gophermc.Wire.VarInt.{
  write_var_int_loop, write_var_int, read_var_int_loop, read_var_int, group_byte, high_bits,
  shift_shrinks, max_var_int_size,
}
use mathlib.Core.Logic.{◌≢◌, dif_neg}
use mathlib.Core.Path.{fun_ext}
use mathlib.Core.WellFounded.{Acc}
use native.Mathlib.Nat.{div-add-mod}
use native.Mathlib.Numerals.{towards_suc}

-- Groups of seven bits, the lowest first, each but the last with the top bit set: the shortest
-- form of a number below 128 ^ (k + 1).
unfoldable pub groups : ℕ → ℕ → Bytes
groups zero v = v ∷ []
groups (suc k) v =
    let rest = groups k (v / 128) in if ltb v 128 then v ∷ [] else (v % 128 + 128) ∷ rest

-- An int32 takes at most five groups.
unfoldable pub var_int_bytes : ℕ → Bytes
unfolding groups
var_int_bytes v = groups 4 v

group_byte_value : (v : ℕ) → group_byte v ≡ v % 128 + 128
group_byte_value v = rw bit_and_low (omega (arith, bit_or_disjoint 7 (v % 128) 1))

-- The two ways of one round.
last_round :
    (v : ℕ) (a : Acc ◌<◌ v) (w : Writer) → v < 128 → write_var_int_loop v a w ≡ write (v ∷ []) w
unfolding write_var_int_loop write_byte
last_round v (Acc.intro _ smaller) w h = ground (arith, bit_and_high v)

inner_round :
    (v : ℕ) (a : Acc ◌<◌ v) (w : Writer) (rest : Bytes)
    → 128 ≤ v
    → v < 2 ^ 32
    → ((a' : Acc ◌<◌ (v / 128)) (w' : Writer) → write_var_int_loop (v / 128) a' w' ≡ write rest w')
    → write_var_int_loop v a w ≡ write ((v % 128 + 128) ∷ rest) w
unfolding write_var_int_loop write_byte
inner_round v (Acc.intro _ smaller) w rest lo hi h =
    let more : high_bits v ≢ 0 = omega (arith, bit_and_high v) in
    let b : ℕ = v % 128 + 128 in
    rw (dif_neg _ more, group_byte_value v)
      (ap (and_then (write (b ∷ []) w))
          (fun_ext λ _. fun_ext λ w'. h (smaller (v / 128) (shift_shrinks v more)) w')
        ∙ sym (write-append (b ∷ []) rest w))

write_var_int_loop-groups :
    (k v : ℕ) (a : Acc ◌<◌ v) (w : Writer)
    → v < 2 ^ 32
    → v < 128 ^ suc k
    → write_var_int_loop v a w ≡ write (groups k v) w
unfolding groups
write_var_int_loop-groups zero v a w hv hk = last_round v a w (omega arith)
write_var_int_loop-groups (suc k) v a w hv hk = elim (Bool-cases (ltb v 128)) [
  | inl small ↦ rw small (last_round v a w (ground arith))
  | inr large ↦ rw large (
      inner_round v a w (groups k (v / 128)) (ground arith) hv
        (λ a' w'. write_var_int_loop-groups k (v / 128) a' w' (omega arith) (ground arith)))
]

-- On every writer, one that fails on the way included, writing an int32 as a varint is writing its
-- shortest form: the loop adds nothing, and stops after at most five bytes.
pub write_var_int-bytes :
    (v : ℕ) (w : Writer) → v < 2 ^ 32 → write_var_int v w ≡ write (var_int_bytes v) w
unfolding write_var_int var_int_bytes
write_var_int-bytes v w h = write_var_int_loop-groups 4 v (lt_wf.apply v) w h (omega arith)

groups_shape :
    (k v : ℕ)
    → v < 128 ^ suc k
    → All IsByte (groups k v) × (1 ≤ length (groups k v)) × (length (groups k v) ≤ k + 1)
unfolding groups
groups_shape zero v h = omega arith
groups_shape (suc k) v h = ground (arith, groups_shape k (v / 128))

-- A varint of an int32 has one to five elements, and each is a byte.
pub var_int_bytes_shape :
    (v : ℕ)
    → v < 2 ^ 32
    → All IsByte (var_int_bytes v)
      × (1 ≤ length (var_int_bytes v))
      × (length (var_int_bytes v) ≤ max_var_int_size)
unfolding var_int_bytes
var_int_bytes_shape v h = groups_shape 4 v (omega arith)

-- One round of the reader on a last byte, and on a byte that announces another.
read_last :
    (k b val pos : ℕ) (more : Bytes) (e : Error)
    → b < 128
    → val < 2 ^ pos
    → val + b * 2 ^ pos < 2 ^ 32
    → read_var_int_loop (suc k) val pos (record { rest = b ∷ more; at_end = e })
      ≡ (ok (val + b * 2 ^ pos), record { rest = more; at_end = e })
unfolding read_var_int_loop read_byte
read_last k b val pos more e hb hv fits =
    ground (arith, bit_and_low b, bit_and_top b, bit_or_disjoint pos val b)

read_inner :
    (k g val pos : ℕ) (more : Bytes) (e : Error)
    → g < 128
    → val < 2 ^ pos
    → val + g * 2 ^ pos < 2 ^ 32
    → read_var_int_loop (suc k) val pos (record { rest = (g + 128) ∷ more; at_end = e })
      ≡ read_var_int_loop k (val + g * 2 ^ pos) (pos + 7) (record { rest = more; at_end = e })
unfolding read_var_int_loop read_byte
read_inner k g val pos more e hg hv fits =
    ground (arith, bit_and_low (g + 128), bit_and_top (g + 128), bit_or_disjoint pos val g)

pub shift_seven : (p : ℕ) → 2 ^ (p + 7) ≡ 128 * 2 ^ p
shift_seven p = simp towards_suc (omega arith)

-- The lowest group and the rest of `v`, both moved to bit `p`.
split_group : (v p : ℕ) → v * 2 ^ p ≡ v % 128 * 2 ^ p + v / 128 * 2 ^ (p + 7)
split_group v p = omega (
  arith,
  ap (λ (t : ℕ). t * 2 ^ p) (div-add-mod v 128),
  ap (λ (t : ℕ). v / 128 * t) (shift_seven p),
)

pub group_below : (a g p : ℕ) → g ≤ 127 → a < p → a + g * p < 128 * p
group_below a g p hg ha = grind arith

-- `v` is what is still to be read; it counts from bit `pos` on.
read_var_int_loop-groups :
    (k v val pos : ℕ) (more : Bytes) (e : Error)
    → v < 128 ^ suc k
    → val < 2 ^ pos
    → val + v * 2 ^ pos < 2 ^ 32
    → read_var_int_loop (suc k) val pos (record { rest = groups k v ++ more; at_end = e })
      ≡ (ok (val + v * 2 ^ pos), record { rest = more; at_end = e })
unfolding groups
read_var_int_loop-groups zero v val pos more e hv hval fits =
    read_last 0 v val pos more e (omega arith) hval fits
read_var_int_loop-groups (suc k) v val pos more e hv hval fits = elim (Bool-cases (ltb v 128)) [
  | inl small ↦ rw small (read_last (suc k) v val pos more e (ground arith) hval fits)
  | inr large ↦ rw large (
      read_inner (suc k) (v % 128) val pos (groups k (v / 128) ++ more) e (omega arith) hval
        (omega (arith, split_group v pos))
      ∙ read_var_int_loop-groups k (v / 128) (val + v % 128 * 2 ^ pos) (pos + 7) more e
          (omega arith) (omega (arith, shift_seven pos, group_below val (v % 128) (2 ^ pos)))
          (omega (arith, split_group v pos))
      ∙ ap (λ (t : ℕ). (ok t, record { rest = more; at_end = e }))
          (omega (arith, split_group v pos)))
]

pub read_var_int-loop : (r : Reader) → read_var_int r ≡ read_var_int_loop 5 0 0 r
unfolding read_var_int
read_var_int-loop r = refl

var_int_bytes-groups : (v : ℕ) → var_int_bytes v ≡ groups 4 v
unfolding var_int_bytes
var_int_bytes-groups v = refl

-- Reading back a written int32, whatever bytes follow it and however the reader ends: the same
-- int32 comes out, and exactly the bytes that were written are taken.
pub read_var_int-bytes :
    (v : ℕ) (more : Bytes) (e : Error)
    → v < 2 ^ 32
    → read_var_int (record { rest = var_int_bytes v ++ more; at_end = e })
      ≡ (ok v, record { rest = more; at_end = e })
read_var_int-bytes v more e h =
    rw (read_var_int-loop, var_int_bytes-groups)
      (read_var_int_loop-groups 4 v 0 0 more e (omega arith) (omega arith) (omega arith)
        ∙ ap (λ (t : ℕ). (ok t, record { rest = more; at_end = e })) (omega arith))
