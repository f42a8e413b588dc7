-- ===== src/Wire/Stream/Laws.antt =====
-- Writing in two pieces is writing at once, on every writer; reading back what stands in front.
use gophermc.Base.{
  ℕ, zero, Option, suc, ◌-◌, ◌≤◌, ◌≡◌, refl, none, some, [], ◌∷◌, ◌++◌, length, take, append_assoc,
  arith, length-append, take-length_append, drop-length_append, le→leb,
}
use gophermc.Base.Outcome.{Error, ok, and_then}
use gophermc.Wire.Stream.{Bytes, Writer, read_full, write}

take_fits : (n : ℕ) (a b : Bytes) → length a ≤ n → take n (a ++ b) ≡ a ++ take (n - length a) b
take_fits n [] b h = let same : n - 0 ≡ n = omega arith in rw same
take_fits zero (x ∷ a) b h = absurd (omega arith)
take_fits (suc n) (x ∷ a) b h =
    let same : suc n - suc (length a) ≡ n - length a = omega arith in
    rw (same, take_fits n a b (omega arith))

take_short : (n : ℕ) (a b : Bytes) → n ≤ length a → take n (a ++ b) ≡ take n a
take_short zero a b h = refl
take_short (suc n) [] b h = absurd (omega arith)
take_short (suc n) (x ∷ a) b h = rw (take_short n a b (omega arith))

write_parts-append :
    (f : Option (ℕ × Error)) (out a b : Bytes)
    → let w : Writer = record { written = out; fault = f } in
      write (a ++ b) w ≡ and_then (write a w) (λ _. write b)
unfolding write
write_parts-append none out a b = ground (arith, append_assoc out a b)
write_parts-append (some (room, e)) out a b = ground (
  arith,
  append_assoc out a b,
  append_assoc out a (take (room - length a) b),
  length-append a b,
  take_fits room a b,
  take_short room a b,
)

-- Writing two pieces is writing them at once, on every writer, also on one that fails on the way.
pub write-append :
    (a b : Bytes) (w : Writer) → write (a ++ b) w ≡ and_then (write a w) (λ _. write b)
unfolding write
write-append a b w = write_parts-append w.fault w.written a b

pub read_full-append :
    (a b : Bytes) (e : Error)
    → read_full (length a) (record { rest = a ++ b; at_end = e })
      ≡ (a, ok tt, record { rest = b; at_end = e })
unfolding read_full
read_full-append a b e =
    rw (le→leb (length a) (length (a ++ b)) (omega (arith, length-append a b)))
      (rw (take-length_append a b, drop-length_append a b))
