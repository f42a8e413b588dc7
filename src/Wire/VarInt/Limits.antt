-- ===== src/Wire/VarInt/Limits.antt =====
-- ReadVarInt on any bytes at all, well formed or not: the three ways in which it can end.
use gophermc.Base.{
  ℕ, zero, suc, ◌⊎◌, ◌≢◌, ◌+◌, ◌*◌, ◌%◌, ◌^◌, ◌≤◌, ◌<◌, ◌≡◌, refl, ap, ◌∙◌, [], ◌∷◌, ◌++◌, length,
  All, arith,
}
use gophermc.Base.Bits.{bit_and_low, bit_and_top, bit_or_disjoint}
use gophermc.Base.Outcome.{Error, Outcome, Panic, panic, ok, err, varint_too_big}
use gophermc.Wire.Stream.{Bytes, Reader, read_byte}
use gophermc.Wire.VarInt.{read_var_int_loop, read_var_int, add_group, max_var_int_size}
use gophermc.Wire.VarInt.RoundTrip.{shift_seven, group_below, read_var_int-loop}
use native.Mathlib.Nat.{add-zero, add_assoc}

-- A byte with the top bit announces another one.
abbrev pub Continues : ℕ → Type 0
Continues b = (128 ≤ b) × (b < 256)

-- The seven low bits of each byte, the first byte lowest, counted from bit `pos` on.
unfoldable pub group_sum : ℕ → Bytes → ℕ
group_sum pos [] = 0
group_sum pos (b ∷ bs) = b % 128 * 2 ^ pos + group_sum (pos + 7) bs

two_pow_small : (k pos : ℕ) → pos + 7 * suc k ≡ 28 → 2 ^ pos ≤ 2 ^ 21
two_pow_small zero pos e = let at : pos ≡ 21 = omega arith in rw at (omega arith)
two_pow_small (suc zero) pos e = let at : pos ≡ 14 = omega arith in rw at (omega arith)
two_pow_small (suc (suc zero)) pos e = let at : pos ≡ 7 = omega arith in rw at (omega arith)
two_pow_small (suc (suc (suc zero))) pos e = let at : pos ≡ 0 = omega arith in rw at (omega arith)
two_pow_small (suc (suc (suc (suc k)))) pos e = absurd (omega arith)

group_small : (g p : ℕ) → g ≤ 127 → p ≤ 2 ^ 21 → g * p ≤ 127 * 2 ^ 21
group_small g p hg hp = grind arith

-- One `val |= …` before the last position: nothing is lost.
add_group_inner :
    (k pos val b : ℕ)
    → pos + 7 * suc k ≡ 28
    → val < 2 ^ pos
    → (add_group val b pos ≡ val + b % 128 * 2 ^ pos) × (val + b % 128 * 2 ^ pos < 2 ^ (pos + 7))
add_group_inner k pos val b e h =
    let p : 2 ^ pos ≤ 2 ^ 21 = two_pow_small k pos e in
    let s : b % 128 * 2 ^ pos ≤ 127 * 2 ^ 21 = group_small (b % 128) (2 ^ pos) (omega arith) p in
    let wraps_not : b % 128 * 2 ^ pos % 2 ^ 32 ≡ b % 128 * 2 ^ pos = omega arith in
    (
      rw (bit_and_low, wraps_not) (bit_or_disjoint pos val (b % 128) h),
      omega (arith, shift_seven pos, group_below val (b % 128) (2 ^ pos)),
    )

-- At the last position the three bits above bit 31 fall out.
add_group_last : (val b : ℕ) → val < 2 ^ 28 → add_group val b 28 ≡ (val + b % 128 * 2 ^ 28) % 2 ^ 32
add_group_last val b h =
    let top : b % 128 * 2 ^ 28 % 2 ^ 32 ≡ b % 16 * 2 ^ 28 = omega arith in
    rw (bit_and_low, top) (omega (arith, bit_or_disjoint 28 val (b % 16) h))

-- Before the last position the sum is below 2 ^ 32, at the last one it is cut to that.
add_group_value :
    (k pos val b : ℕ)
    → pos + 7 * k ≡ 28
    → val < 2 ^ pos
    → add_group val b pos ≡ (val + b % 128 * 2 ^ pos) % 2 ^ 32
add_group_value zero pos val b e h =
    let at : pos ≡ 28 = omega arith in rw at (add_group_last val b (rw at at h))
add_group_value (suc k) pos val b e h =
    let p : 2 ^ pos ≤ 2 ^ 21 = two_pow_small k pos e in
    let s : b % 128 * 2 ^ pos ≤ 127 * 2 ^ 21 = group_small (b % 128) (2 ^ pos) (omega arith) p in
    omega (arith, add_group_inner k pos val b e h)

-- One round.
round_last :
    (k b val pos : ℕ) (more : Bytes) (e : Error)
    → b < 128
    → read_var_int_loop (suc k) val pos (record { rest = b ∷ more; at_end = e })
      ≡ (ok (add_group val b pos), record { rest = more; at_end = e })
unfolding read_var_int_loop read_byte
round_last k b val pos more e h = ground (arith, bit_and_top b)

round_inner :
    (k b val pos : ℕ) (more : Bytes) (e : Error)
    → Continues b
    → read_var_int_loop (suc k) val pos (record { rest = b ∷ more; at_end = e })
      ≡ read_var_int_loop k (add_group val b pos) (pos + 7) (record { rest = more; at_end = e })
unfolding read_var_int_loop read_byte
round_inner k b val pos more e h = ground (arith, bit_and_top b)

-- The sum of the rounds, with what stands in `val` already.
total : ℕ → ℕ → Bytes → ℕ
total val pos bs = (val + group_sum pos bs) % 2 ^ 32

total_last : (val pos b : ℕ) → (val + b % 128 * 2 ^ pos) % 2 ^ 32 ≡ total val pos (b ∷ [])
unfolding total group_sum
total_last val pos b = rw add-zero

total_inner :
    (val pos b : ℕ) (bs : Bytes)
    → total (val + b % 128 * 2 ^ pos) (pos + 7) bs ≡ total val pos (b ∷ bs)
unfolding total group_sum
total_inner val pos b bs = rw add_assoc

loop_ends :
    (front : Bytes) (k b val pos : ℕ) (more : Bytes) (e : Error)
    → All Continues front
    → b < 128
    → length front ≤ k
    → pos + 7 * k ≡ 28
    → val < 2 ^ pos
    → read_var_int_loop (suc k) val pos (record { rest = front ++ b ∷ more; at_end = e })
      ≡ (ok (total val pos (front ++ b ∷ [])), record { rest = more; at_end = e })
loop_ends [] k b val pos more e hf hb hl hp hv =
    round_last k b val pos more e hb
    ∙ ap (λ (t : ℕ). (ok t, record { rest = more; at_end = e }))
        (add_group_value k pos val b hp hv ∙ total_last val pos b)
loop_ends (x ∷ front) zero b val pos more e hf hb hl hp hv = absurd (omega arith)
loop_ends (x ∷ front) (suc k) b val pos more e hf hb hl hp hv =
    let (sum, below) = add_group_inner k pos val x hp hv in
    let val' : ℕ = val + x % 128 * 2 ^ pos in
    round_inner (suc k) x val pos (front ++ b ∷ more) e hf.0
    ∙ ap
        (λ (t : ℕ).
          read_var_int_loop (suc k) t (pos + 7) (record { rest = front ++ b ∷ more; at_end = e }))
        sum
    ∙ loop_ends front k b val' (pos + 7) more e hf.1 hb (omega arith) (omega arith) below
    ∙ ap (λ (t : ℕ). (ok t, record { rest = more; at_end = e }))
        (total_inner val pos x (front ++ b ∷ []))

loop_too_big :
    (front : Bytes) (val pos : ℕ) (more : Bytes) (e : Error)
    → All Continues front
    → read_var_int_loop (length front) val pos (record { rest = front ++ more; at_end = e })
      ≡ (err varint_too_big, record { rest = more; at_end = e })
loop_too_big [] val pos more e h = unfold read_var_int_loop in refl
loop_too_big (b ∷ front) val pos more e h =
    round_inner (length front) b val pos (front ++ more) e h.0
    ∙ loop_too_big front (add_group val b pos) (pos + 7) more e h.1

loop_cut :
    (front : Bytes) (k val pos : ℕ) (e : Error)
    → All Continues front
    → length front < k
    → read_var_int_loop k val pos (record { rest = front; at_end = e })
      ≡ (err e, record { rest = []; at_end = e })
loop_cut front zero val pos e hf hl = absurd (omega arith)
loop_cut [] (suc k) val pos e hf hl = unfold read_var_int_loop read_byte in refl
loop_cut (b ∷ front) (suc k) val pos e hf hl =
    round_inner k b val pos front e hf.0
    ∙ loop_cut front k (add_group val b pos) (pos + 7) e hf.1 (omega arith)

-- Up to four bytes with the top bit and then one without it are read as the sum of their groups of
-- seven bits, cut to 32 bits: the top three bits of a fifth group are lost without an error.
pub read_var_int_ends :
    (front : Bytes) (b : ℕ) (more : Bytes) (e : Error)
    → All Continues front
    → length front ≤ 4
    → b < 128
    → read_var_int (record { rest = front ++ b ∷ more; at_end = e })
      ≡ (ok (group_sum 0 (front ++ b ∷ []) % 2 ^ 32), record { rest = more; at_end = e })
unfolding total
read_var_int_ends front b more e hf hl hb = rw read_var_int-loop (
    loop_ends front 4 b 0 0 more e hf hb hl (omega arith) (omega arith)
    ∙ ap (λ (t : ℕ). (ok t, record { rest = more; at_end = e })) (omega arith))

-- After five bytes with the top bit the answer is "varint is too big", whatever follows; the five
-- bytes are gone.
pub read_var_int_too_big :
    (front more : Bytes) (e : Error)
    → All Continues front
    → length front ≡ max_var_int_size
    → read_var_int (record { rest = front ++ more; at_end = e })
      ≡ (err varint_too_big, record { rest = more; at_end = e })
read_var_int_too_big front more e hf hl =
    rw (read_var_int-loop, ← hl) (loop_too_big front 0 0 more e hf)

-- Where the bytes end before the varint does, the reader's own error comes back unchanged.
pub read_var_int_cut :
    (front : Bytes) (e : Error)
    → All Continues front
    → length front ≤ 4
    → read_var_int (record { rest = front; at_end = e }) ≡ (err e, record { rest = []; at_end = e })
read_var_int_cut front e hf hl = rw read_var_int-loop (loop_cut front 5 0 0 e hf (omega arith))

-- What a read leaves of `r`: the same end, and no more bytes than before; fewer, if it succeeded.
-- Its error is its own or that of the reader's end, and it does not panic.
pub record Takes (r : Reader) (most : ℕ) (o : Outcome ℕ) (r' : Reader) : Type 0 where
  pub same_end : r'.at_end ≡ r.at_end
  pub no_more : length r'.rest ≤ length r.rest
  pub at_most : length r.rest ≤ length r'.rest + most
  pub some_on_ok : (v : ℕ) → o ≡ ok v → length r'.rest < length r.rest
  pub own_or_end : (e : Error) → o ≡ err e → (e ≡ varint_too_big) ⊎ (e ≡ r.at_end)
  pub no_panic : (p : Panic) → o ≢ panic p

loop-Takes :
    (k val pos : ℕ) (bs : Bytes) (e : Error)
    → let r : Reader = record { rest = bs; at_end = e } in
      let (o, r') = read_var_int_loop k val pos r in Takes r k o r'
unfolding read_var_int_loop read_byte
loop-Takes zero val pos bs e = ground arith
loop-Takes (suc k) val pos [] e = ground arith
loop-Takes (suc k) val pos (b ∷ bs) e =
    ground (arith, loop-Takes k (add_group val b pos) (pos + 7) bs e)

-- On any reader a varint takes at most five bytes, and at least one if it is read without error.
pub read_var_int-Takes :
    (r : Reader) → Takes r max_var_int_size (read_var_int r).0 (read_var_int r).1
read_var_int-Takes r = rw read_var_int-loop (loop-Takes 5 0 0 r.rest r.at_end)
