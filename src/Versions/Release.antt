-- ===== src/Versions/Release.antt =====
-- `parseReleaseVersion` of protocol/registry.go, with what it uses of `strings` and `strconv`. An int
-- has 64 bits.
use gophermc.Base.{
  ℕ, ◌+◌, ◌-◌, ◌*◌, ◌^◌, Bool, true, false, ◌&&◌, Option, none, some, List, [], ◌∷◌, ◌==◌, leb,
  if◌then◌else◌,
}
use gophermc.Base.Int.{ℤ, pos, negsuc}
use gophermc.Wire.Stream.{Bytes}

abbrev onto_first : ℕ → List Bytes → List Bytes
onto_first b [] = []
onto_first b (part ∷ parts) = (b ∷ part) ∷ parts

-- strings.Split(s, ".")
unfoldable pub split_dots : Bytes → List Bytes
split_dots [] = [] ∷ []
split_dots (b ∷ bs) =
    let parts = split_dots bs in if b == b'.' then [] ∷ parts else onto_first b parts

-- The value of decimal digits behind those of `value`; `none` at any other byte.
unfoldable pub digits_value : ℕ → Bytes → Option ℕ
digits_value value [] = some value
digits_value value (b ∷ bs) =
    let rest = digits_value (value * 10 + (b - b'0')) bs in
    if leb b'0' b && leb b b'9' then rest else none

-- The magnitude, at least one digit, with the largest one of its sign.
unfoldable pub magnitude : ℕ → Bytes → Option ℕ
unfolding digits_value
magnitude most [] = none
magnitude most (b ∷ bs) = elim (digits_value 0 (b ∷ bs)) [
  | some n ↦ if leb n most then some n else none
  | none ↦ none
]

abbrev negated : ℕ → ℤ
negated n = if n == 0 then pos 0 else negsuc (n - 1)

abbrev map_int : (ℕ → ℤ) → Option ℕ → Option ℤ
map_int f none = none
map_int f (some n) = some (f n)

-- strconv.Atoi
unfoldable pub atoi : Bytes → Option ℤ
unfolding magnitude
atoi [] = none
atoi (b ∷ bs) =
    if b == b'-'
    then map_int negated (magnitude (2 ^ 63) bs)
    else if b == b'+'
    then map_int pos (magnitude (2 ^ 63 - 1) bs)
    else map_int pos (magnitude (2 ^ 63 - 1) (b ∷ bs))

-- The results of `parseReleaseVersion` where its last one is true.
pub record Release : Type 0 where
  pub major : ℤ
  pub minor : ℤ
  pub patch : ℤ
  pub has_patch : Bool

infixl 5 ◌>>=◌
abbrev ◌>>=◌ : {A B : Type 0} → Option A → (A → Option B) → Option B
none >>= f = none
some a >>= f = f a

release_of : List Bytes → Option Release
unfolding atoi
release_of (a ∷ b ∷ []) = do
  major ← atoi a
  minor ← atoi b
  some (record { major = major; minor = minor; patch = pos 0; has_patch = false })
release_of (a ∷ b ∷ c ∷ []) = do
  major ← atoi a
  minor ← atoi b
  patch ← atoi c
  some (record { major = major; minor = minor; patch = patch; has_patch = true })
release_of _ = none

unfoldable pub parse_release : Bytes → Option Release
unfolding split_dots release_of
parse_release s = release_of (split_dots s)
