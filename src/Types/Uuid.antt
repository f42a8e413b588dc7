-- ===== src/Types/Uuid.antt =====
-- The bits of `OfflineUUID`.
use gophermc.Base.{
  ℕ, zero, suc, ◌-◌, ◌/◌, ◌%◌, ◌<◌, ◌≡◌, ◌≢◌, refl, ◌∙◌, ap, [], ◌∷◌, ◌++◌, length, take, replicate,
  min, bit_and, bit_or, length-append, length-replicate, arith,
}
use gophermc.Base.Bits.{bit_and_four, bit_and_six, bit_or_disjoint}
use gophermc.Types.{codes, get_or, modify, copy_16, offline_uuid}
use gophermc.Wire.Stream.{Bytes}

length-take : (n : ℕ) (bs : Bytes) → length (take n bs) ≡ min n (length bs)
length-take zero bs = omega arith
length-take (suc n) [] = omega arith
length-take (suc n) (b ∷ bs) = omega (arith, length-take n bs)

length-modify : (f : ℕ → ℕ) (i : ℕ) (bs : Bytes) → length (modify f i bs) ≡ length bs
length-modify f i [] = refl
length-modify f zero (b ∷ bs) = refl
length-modify f (suc i) (b ∷ bs) = omega (arith, length-modify f i bs)

get_or-modify :
    (f : ℕ → ℕ) (i d : ℕ) (bs : Bytes)
    → i < length bs
    → get_or (modify f i bs) i d ≡ f (get_or bs i d)
get_or-modify f i d [] h = absurd (omega arith)
get_or-modify f zero d (b ∷ bs) h = refl
get_or-modify f (suc i) d (b ∷ bs) h = get_or-modify f i d bs (omega arith)

get_or-modify_other :
    (f : ℕ → ℕ) (i j d : ℕ) (bs : Bytes) → i ≢ j → get_or (modify f i bs) j d ≡ get_or bs j d
get_or-modify_other f i j d [] h = refl
get_or-modify_other f zero zero d (b ∷ bs) h = absurd (h refl)
get_or-modify_other f zero (suc j) d (b ∷ bs) h = refl
get_or-modify_other f (suc i) zero d (b ∷ bs) h = refl
get_or-modify_other f (suc i) (suc j) d (b ∷ bs) h =
    get_or-modify_other f i j d bs (λ e. h (ap suc e))

length-copy_16 : (bs : Bytes) → length (copy_16 bs) ≡ 16
length-copy_16 bs = omega (
  arith,
  length-append {A = ℕ} (take 16 bs) (replicate (16 - length bs) 0),
  length-take 16 bs,
  length-replicate {A = ℕ} (16 - length bs) 0,
)

version_bits : (b : ℕ) → bit_or (bit_and b 0x0f) 0x30 / 16 ≡ 3
version_bits b = rw (bit_and_four b) (omega (arith, bit_or_disjoint 4 (b % 16) 3 (omega arith)))

variant_bits : (b : ℕ) → bit_or (bit_and b 0x3f) 0x80 / 64 ≡ 2
variant_bits b = rw (bit_and_six b) (omega (arith, bit_or_disjoint 6 (b % 64) 2 (omega arith)))

-- A UUID of version 3 in the variant of RFC 4122, with the bits of `hash` elsewhere.
pub record IsNamed (hash uuid : Bytes) : Type 0 where
  pub size : length uuid ≡ 16
  pub version : get_or uuid 6 0 / 16 ≡ 3
  pub version_rest : get_or uuid 6 0 % 16 ≡ get_or hash 6 0 % 16
  pub variant : get_or uuid 8 0 / 64 ≡ 2
  pub variant_rest : get_or uuid 8 0 % 64 ≡ get_or hash 8 0 % 64
  pub others : (i : ℕ) → 6 ≢ i → 8 ≢ i → get_or uuid i 0 ≡ get_or hash i 0

version_rest : (b : ℕ) → bit_or (bit_and b 0x0f) 0x30 % 16 ≡ b % 16
version_rest b = rw (bit_and_four b) (omega (arith, bit_or_disjoint 4 (b % 16) 3 (omega arith)))

variant_rest : (b : ℕ) → bit_or (bit_and b 0x3f) 0x80 % 64 ≡ b % 64
variant_rest b = rw (bit_and_six b) (omega (arith, bit_or_disjoint 6 (b % 64) 2 (omega arith)))

abbrev with_version : ℕ → ℕ
with_version b = bit_or (bit_and b 0x0f) 0x30

abbrev with_variant : ℕ → ℕ
with_variant b = bit_or (bit_and b 0x3f) 0x80

marked-IsNamed :
    (hash : Bytes)
    → length hash ≡ 16
    → IsNamed hash (modify with_variant 8 (modify with_version 6 hash))
marked-IsNamed hash size =
    let six : Bytes = modify with_version 6 hash in
    let size6 : length six ≡ 16 = length-modify with_version 6 hash ∙ size in
    let at6 : get_or (modify with_variant 8 six) 6 0 ≡ with_version (get_or hash 6 0) =
      get_or-modify_other with_variant 8 6 0 six (λ e. absurd (omega arith))
      ∙ get_or-modify with_version 6 0 hash (omega arith) in
    let at8 : get_or (modify with_variant 8 six) 8 0 ≡ with_variant (get_or hash 8 0) =
      get_or-modify with_variant 8 0 six (omega arith)
      ∙ ap with_variant (get_or-modify_other with_version 6 8 0 hash (λ e. absurd (omega arith))) in
    record {
      size = length-modify with_variant 8 six ∙ size6;
      version = ap (λ b. b / 16) at6 ∙ version_bits (get_or hash 6 0);
      version_rest = ap (λ b. b % 16) at6 ∙ version_rest (get_or hash 6 0);
      variant = ap (λ b. b / 64) at8 ∙ variant_bits (get_or hash 8 0);
      variant_rest = ap (λ b. b % 64) at8 ∙ variant_rest (get_or hash 8 0);
      others = λ i h k.
          get_or-modify_other with_variant 8 i 0 six k
          ∙ get_or-modify_other with_version 6 i 0 hash h;
    }

-- OfflineUUID has the version 3 and the variant of RFC 4122, whatever SHA-1 answers; its other bits
-- are those of the first sixteen bytes of the sum of "OfflinePlayer:" and the name.
pub offline_uuid-IsNamed :
    (sha1 : Bytes → Bytes) (name : Bytes)
    → IsNamed (copy_16 (sha1 (codes "OfflinePlayer:" ++ name))) (offline_uuid sha1 name)
unfolding offline_uuid
offline_uuid-IsNamed sha1 name =
    marked-IsNamed (copy_16 (sha1 (codes "OfflinePlayer:" ++ name)))
      (length-copy_16 (sha1 (codes "OfflinePlayer:" ++ name)))
