-- ===== src/Base/Bits.antt =====
-- `bit_and` by a mask and `bit_or` of disjoint bits, as arithmetic.
use Prim.Native.Nat.{
  ℕ, zero, suc, ◌+◌, ◌*◌, ◌/◌, ◌%◌, ◌^◌, ◌≤◌, ◌<◌, min, max, bit_and, bit_or, digits,
  bit_and-bitwise, bit_or-bitwise,
}
use mathlib.Core.Path.{◌≡◌, refl, sym, ap, ◌∙◌}
use native.Mathlib.Nat.{pow-suc, pow-succ', div-div-eq-div-mul, div-add-mod, div-one, mul_assoc}
use native.Mathlib.Omega.{arith}

-- `digits` for any way to combine two digits: more fuel than the number needs changes nothing, so
-- its lowest digit can be split off.
module _ (rest : ℕ → ℕ) (combine : ℕ → ℕ → ℕ) where
  enough : (b n a m : ℕ) → a ≤ m → a ≤ n → digits rest combine m a b ≡ digits rest combine n a b
  enough b n (suc a) zero k l = absurd (omega arith)
  enough b zero (suc a) (suc m) k l = absurd (omega arith)
  enough b zero zero zero k l = refl
  enough b (suc n) zero zero k l = refl
  enough b zero zero (suc m) k l = refl
  enough b (suc n) zero (suc m) k l = refl
  enough b (suc n) (suc a) (suc m) k l =
      let low = enough (b / 2) n (suc a / 2) m (omega arith) (omega arith) in omega (arith, low)

  split_digit :
      (a b : ℕ)
      → digits rest combine (suc a) (suc a) b
        ≡ digits rest combine (suc a / 2) (suc a / 2) (b / 2) * 2 + combine (suc a % 2) (b % 2)
  split_digit a b =
      let low = enough (b / 2) (suc a / 2) (suc a / 2) a (omega arith) (omega arith) in
      omega (arith, low)

pub zero-bit_and : (m : ℕ) → bit_and 0 m ≡ 0
zero-bit_and = bit_and-bitwise 0

pub zero-bit_or : (m : ℕ) → bit_or 0 m ≡ m
zero-bit_or = bit_or-bitwise 0

lowest_of_and : (m a : ℕ) → bit_and a m ≡ bit_and (a / 2) (m / 2) * 2 + min (a % 2) (m % 2)
lowest_of_and m zero = omega (arith, zero-bit_and m, zero-bit_and (m / 2))
lowest_of_and m (suc a) =
    let whole = bit_and-bitwise (suc a) m in
    let half = bit_and-bitwise (suc a / 2) (m / 2) in
    omega (arith, split_digit (λ _. 0) min a m, whole, half)

lowest_of_or : (m a : ℕ) → bit_or a m ≡ bit_or (a / 2) (m / 2) * 2 + max (a % 2) (m % 2)
lowest_of_or m zero = omega (arith, zero-bit_or m, zero-bit_or (m / 2))
lowest_of_or m (suc a) =
    let whole = bit_or-bitwise (suc a) m in
    let half = bit_or-bitwise (suc a / 2) (m / 2) in
    omega (arith, split_digit (λ m. m) max a m, whole, half)

-- The same with the second number given by its half and its lowest digit.
bit_and_digit :
    (a b c d : ℕ) → b ≡ c * 2 + d → d < 2 → bit_and a b ≡ bit_and (a / 2) c * 2 + min (a % 2) d
bit_and_digit a b c d e h =
    let half : b / 2 ≡ c = omega arith in
    let digit : b % 2 ≡ d = omega arith in rw (lowest_of_and b a, half, digit)

bit_or_digit : (a b c : ℕ) → b ≡ c * 2 → bit_or a b ≡ bit_or (a / 2) c * 2 + a % 2
bit_or_digit a b c e =
    let half : b / 2 ≡ c = omega arith in
    let digit : b % 2 ≡ 0 = omega arith in rw (lowest_of_or b a, half, digit) (omega arith)

-- No bit of `a` survives the mask 0, by induction on a bound of `a`.
masked_out : (bound a : ℕ) → a ≤ bound → bit_and a 0 ≡ 0
masked_out bound zero l = refl
masked_out zero (suc a) l = absurd (omega arith)
masked_out (suc bound) (suc a) l =
    let low = masked_out bound (suc a / 2) (omega arith) in
    omega (arith, lowest_of_and 0 (suc a), low)

bit_and-zero : (a : ℕ) → bit_and a 0 ≡ 0
bit_and-zero a = masked_out a a (omega arith)

-- The number whose k lowest bits are set.
abbrev ones : ℕ → ℕ
ones zero = 0
ones (suc k) = ones k * 2 + 1

bit_and-ones : (k a : ℕ) → a < 2 ^ k → bit_and a (ones k) ≡ a
bit_and-ones zero a h = omega (arith, bit_and-zero a)
bit_and-ones (suc k) a h = omega (
  arith,
  pow-suc 2 k,
  bit_and_digit a (ones k * 2 + 1) (ones k) 1 refl (omega arith),
  bit_and-ones k (a / 2),
)

double_pow : (k g : ℕ) → g * 2 ^ suc k ≡ g * 2 ^ k * 2
double_pow k g = omega (arith, ap (λ (t : ℕ). g * t) (pow-suc 2 k))

half_div : (k a : ℕ) → a / 2 / 2 ^ k ≡ a / 2 ^ suc k
half_div k a = div-div-eq-div-mul a 2 (2 ^ k) ∙ ap (λ (t : ℕ). a / t) (sym (pow-succ' 2 k))

-- A mask above k bits meets what stands above them.
bit_and_shift : (k a g : ℕ) → bit_and a (g * 2 ^ k) ≡ bit_and (a / 2 ^ k) g * 2 ^ k
bit_and_shift zero a g = let same : g * 1 ≡ g = omega arith in rw (div-one a, same) (omega arith)
bit_and_shift (suc k) a g =
    let digit =
      bit_and_digit a (g * 2 ^ suc k) (g * 2 ^ k) 0 (omega (arith, double_pow k g)) (omega arith) in
    let above = bit_and_shift k (a / 2) g in
    let moved = ap (λ (t : ℕ). bit_and t g * 2 ^ k) (half_div k a) in
    omega (arith, digit, above, moved, double_pow k (bit_and (a / 2 ^ suc k) g))

-- The remainder's lowest digit, and the others.
mod_digit : (k a : ℕ) → a / 2 % 2 ^ k * 2 + a % 2 ≡ a % 2 ^ suc k
mod_digit k a =
    let whole = div-add-mod a (2 ^ suc k) in
    let half = div-add-mod (a / 2) (2 ^ k) in
    let same = ap (λ (t : ℕ). 2 ^ k * t) (half_div k a) in
    let doubled : 2 ^ suc k * (a / 2 ^ suc k) ≡ 2 * (2 ^ k * (a / 2 ^ suc k)) =
      ap (λ (t : ℕ). t * (a / 2 ^ suc k)) (pow-succ' 2 k) ∙ mul_assoc 2 (2 ^ k) (a / 2 ^ suc k) in
    omega (arith, whole, half, same, doubled)

-- The k lowest bits are the remainder.
bit_and-ones_mod : (k a : ℕ) → bit_and a (ones k) ≡ a % 2 ^ k
bit_and-ones_mod zero a = omega (arith, bit_and-zero a)
bit_and-ones_mod (suc k) a =
    let digit = bit_and_digit a (ones k * 2 + 1) (ones k) 1 refl (omega arith) in
    omega (arith, digit, bit_and-ones_mod k (a / 2), mod_digit k a)

-- `x & 0x7F`, `x & 0x3F` and `x & 0x0F` keep the low bits.
pub bit_and_low : (a : ℕ) → bit_and a 0x7f ≡ a % 128
bit_and_low = bit_and-ones_mod 7

pub bit_and_six : (a : ℕ) → bit_and a 0x3f ≡ a % 64
bit_and_six = bit_and-ones_mod 6

pub bit_and_four : (a : ℕ) → bit_and a 0x0f ≡ a % 16
bit_and_four = bit_and-ones_mod 4

-- A mask of j ones above k zeros.
bit_and_above : (j k a : ℕ) → a / 2 ^ k < 2 ^ j → bit_and a (ones j * 2 ^ k) ≡ a / 2 ^ k * 2 ^ k
bit_and_above j k a h =
    bit_and_shift k a (ones j) ∙ ap (λ (t : ℕ). t * 2 ^ k) (bit_and-ones j (a / 2 ^ k) h)

-- `x & 0x80` of a byte keeps the top bit.
pub bit_and_top : (a : ℕ) → a < 256 → bit_and a 0x80 ≡ a / 128 * 128
bit_and_top a h = bit_and_above 1 7 a (omega arith)

-- `x & ^uint32(0x7F)` clears the seven lowest bits of a uint32.
pub bit_and_high : (a : ℕ) → a < 2 ^ 32 → bit_and a 0xffff_ff80 ≡ a / 128 * 128
bit_and_high a h = bit_and_above 25 7 a (omega arith)

-- Bits below 2 ^ k and a multiple of 2 ^ k do not meet.
pub bit_or_disjoint : (k a g : ℕ) → a < 2 ^ k → bit_or a (g * 2 ^ k) ≡ a + g * 2 ^ k
bit_or_disjoint zero zero g h = omega (arith, zero-bit_or (g * 2 ^ 0))
bit_or_disjoint zero (suc a) g h = absurd (omega arith)
bit_or_disjoint (suc k) a g h = rw (double_pow k g) (halves (bit_or_disjoint k (a / 2) g))
  where
    halves :
        (a / 2 < 2 ^ k → bit_or (a / 2) (g * 2 ^ k) ≡ a / 2 + g * 2 ^ k)
        → bit_or a (g * 2 ^ k * 2) ≡ a + g * 2 ^ k * 2
    halves ih = omega (arith, pow-suc 2 k, bit_or_digit a (g * 2 ^ k * 2) (g * 2 ^ k) refl, ih)
