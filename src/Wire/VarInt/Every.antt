-- ===== src/Wire/VarInt/Every.antt =====
-- ReadVarInt on every input.
use gophermc.Base.{
  ℕ, zero, suc, ◌%◌, ◌^◌, ◌<◌, ◌≡◌, refl, [], ◌∷◌, ◌++◌, length, All, arith, leb, inl, inr,
  Bool-cases,
}
use gophermc.Base.Outcome.{Outcome, Error, ok, err, varint_too_big}
use gophermc.Wire.Stream.{Bytes, Reader}
use gophermc.Wire.VarInt.{read_var_int, max_var_int_size}
use gophermc.Wire.VarInt.Limits.{
  Continues, group_sum, read_var_int_ends, read_var_int_too_big, read_var_int_cut,
}

-- The bytes that announce another one, up to `k` of them.
data Split (k : ℕ) : Bytes → Type 0 where
  stops :
      (front : Bytes) (b : ℕ) (more : Bytes)
      → All Continues front
      → length front < k
      → b < 128
      → Split k (front ++ b ∷ more)
  goes_on : (front more : Bytes) → All Continues front → length front ≡ k → Split k (front ++ more)
  runs_out : (front : Bytes) → All Continues front → length front < k → Split k front

before : {k : ℕ} {bs : Bytes} (b : ℕ) → Continues b → Split k bs → Split (suc k) (b ∷ bs)
before b c (stops front d more h l m) = stops (b ∷ front) d more (c, h) (omega arith) m
before b c (goes_on front more h l) = goes_on (b ∷ front) more (c, h) (omega arith)
before b c (runs_out front h l) = runs_out (b ∷ front) (c, h) (omega arith)

split : (k : ℕ) (bs : Bytes) → All (λ b. b < 256) bs → Split k bs
split zero bs h = goes_on [] bs tt refl
split (suc k) [] h = runs_out [] tt (omega arith)
split (suc k) (b ∷ bs) h = elim (Bool-cases (leb 128 b)) [
  | inl top ↦ before b (ground arith) (split k bs h.1)
  | inr low ↦ stops [] b bs tt (omega arith) (ground arith)
]

-- What ReadVarInt answers, and leaves, on `bs` with the end `e` behind them.
pub data IsRead (e : Error) : Bytes → Outcome ℕ × Reader → Type 0 where
  -- At most four bytes with the top bit, and one without it.
  ends :
      (front : Bytes) (b : ℕ) (more : Bytes)
      → All Continues front
      → length front < max_var_int_size
      → b < 128
      → IsRead e
          (front ++ b ∷ more)
          (ok (group_sum 0 (front ++ b ∷ []) % 2 ^ 32), record { rest = more; at_end = e })
  too_big :
      (front more : Bytes)
      → All Continues front
      → length front ≡ max_var_int_size
      → IsRead e (front ++ more) (err varint_too_big, record { rest = more; at_end = e })
  cut :
      (front : Bytes)
      → All Continues front
      → length front < max_var_int_size
      → IsRead e front (err e, record { rest = []; at_end = e })

IsRead-split :
    (bs : Bytes) (e : Error)
    → Split max_var_int_size bs
    → IsRead e bs (read_var_int (record { rest = bs; at_end = e }))
IsRead-split _ e (stops front b more h l m) =
    rw (read_var_int_ends front b more e h (omega arith) m) (ends front b more h l m)
IsRead-split _ e (goes_on front more h l) =
    rw (read_var_int_too_big front more e h l) (too_big front more h l)
IsRead-split _ e (runs_out front h l) =
    rw (read_var_int_cut front e h (omega arith)) (cut front h l)

-- ReadVarInt on every input. Up to four bytes with the top bit and then one without it are the sum of
-- their groups of seven bits, cut to 32 bits, and what follows is left: the top three bits of a fifth
-- group are lost without an error. After five bytes with the top bit the answer is "varint is too big"
-- and the five are gone; where the bytes end before the varint does, the reader's own error comes back.
pub read_var_int-IsRead :
    (bs : Bytes) (e : Error)
    → All (λ b. b < 256) bs
    → IsRead e bs (read_var_int (record { rest = bs; at_end = e }))
read_var_int-IsRead bs e h = IsRead-split bs e (split max_var_int_size bs h)
