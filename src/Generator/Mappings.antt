-- ===== src/Generator/Mappings.antt =====
-- `preParsePacketIDs` of generator/main.go, with what it uses of `strings` and `strconv`.
use gophermc.Base.{
  ℕ, ◌+◌, ◌-◌, ◌*◌, ◌^◌, ◌%◌, Bool, false, ◌&&◌, Option, none, some, List, [], ◌∷◌, ◌==◌, leb, ltb,
  if◌then◌else◌,
}
use gophermc.Base.Json.{Json, Members, text, members, as_array, as_object, as_text}
use gophermc.Packets.Encode.{bytes_eq}
use gophermc.Registry.Definitions.{lookup}
use gophermc.Types.{codes}
use gophermc.Wire.Stream.{Bytes}

-- `v == s` for a constant text.
abbrev pub is_text : Bytes → Option Json → Bool
is_text s (some (text t)) = bytes_eq t s
is_text s _ = false

-- The value of a hexadecimal digit.
abbrev pub hex_digit : ℕ → Option ℕ
hex_digit b =
    if leb b'0' b && leb b b'9'
    then some (b - b'0')
    else if leb b'a' b && leb b b'f'
    then some (b - b'a' + 10)
    else if leb b'A' b && leb b b'F'
    then some (b - b'A' + 10)
    else none

pub data Parsed : Type 0 where
  value : ℕ → Parsed
  syntax_error range_error : Parsed

-- strconv.ParseUint(s, 16, 32) behind its first digit, with what was read: it stops at the first digit
-- that leaves the 32 bits.
unfoldable pub parse_digits : ℕ → Bytes → Parsed
parse_digits n [] = value n
parse_digits n (b ∷ bs) = elim (hex_digit b) [
  | none ↦ syntax_error
  | some d ↦
      let more = parse_digits (n * 16 + d) bs in
      if ltb (n * 16 + d) (2 ^ 32) then more else range_error
]

unfoldable pub parse_uint : Bytes → Parsed
unfolding parse_digits
parse_uint [] = syntax_error
parse_uint (b ∷ bs) = parse_digits 0 (b ∷ bs)

-- The int64 result of ParseInt, cut to 32 bits: 0 on a syntax error, the nearest int32 on a range error.
abbrev positive : Parsed → ℕ
positive syntax_error = 0
positive range_error = 2 ^ 31 - 1
positive (value n) = if ltb n (2 ^ 31) then n else 2 ^ 31 - 1

abbrev negative : Parsed → ℕ
negative syntax_error = 0
negative range_error = 2 ^ 31
negative (value n) = if leb n (2 ^ 31) then (2 ^ 32 - n) % 2 ^ 32 else 2 ^ 31

-- int32 of strconv.ParseInt(s, 16, 32)
unfoldable pub parse_int : Bytes → ℕ
unfolding parse_uint
parse_int [] = 0
parse_int (b ∷ bs) =
    if b == b'-'
    then negative (parse_uint bs)
    else if b == b'+'
    then positive (parse_uint bs)
    else positive (parse_uint (b ∷ bs))

-- strings.TrimPrefix(s, "0x")
abbrev pub trim_0x : Bytes → Bytes
trim_0x (a ∷ b ∷ bs) = if a == b'0' && b == b'x' then bs else a ∷ b ∷ bs
trim_0x bs = bs

abbrev pub without : Bytes → List (Bytes × ℕ) → List (Bytes × ℕ)
without key [] = []
without key ((k, v) ∷ m) = if bytes_eq k key then without key m else (k, v) ∷ without key m

-- `idMap[name] = id` for the texts among the mappings.
abbrev pub map_name : Bytes → Option Bytes → List (Bytes × ℕ) → List (Bytes × ℕ)
map_name id_hex none id_map = id_map
map_name id_hex (some name) id_map = (name, parse_int (trim_0x id_hex)) ∷ without name id_map

abbrev pub map_names : List (Bytes × Json) → List (Bytes × ℕ) → List (Bytes × ℕ)
map_names [] id_map = id_map
map_names ((id_hex, name) ∷ mappings) id_map =
    map_names mappings (map_name id_hex (as_text (some name)) id_map)

abbrev second : List Json → Option Json
second (a ∷ b ∷ xs) = some b
second _ = none

abbrev first : List Json → Option Json
first [] = none
first (a ∷ xs) = some a

abbrev guarded : {A : Type 0} → Bool → Option A → Option A
guarded b o = if b then o else none

abbrev member_of : Bytes → Option (List (Bytes × Json)) → Option Json
member_of key none = none
member_of key (some m) = lookup bytes_eq key m

abbrev pair_of : Option (List Json) → Option Json × Option Json
pair_of none = (none, none)
pair_of (some xs) = elim (second xs) [ none ↦ (none, none) | some b ↦ (first xs, some b) ]

-- The `mappings` of a field with the name "name" and the type ["mapper", {"mappings": …}].
unfoldable pub mappings_of : Json → Option (List (Bytes × Json))
mappings_of field =
    let fields = as_object (some field) in
    let kind = pair_of (as_array (member_of (codes "type") fields)) in
    guarded (is_text (codes "name") (member_of (codes "name") fields)) (
      guarded (is_text (codes "mapper") kind.0)
        (as_object (member_of (codes "mappings") (as_object kind.1))))

-- The first field that has them.
unfoldable pub first_mappings : List Json → List (Bytes × ℕ)
unfolding mappings_of
first_mappings [] = []
first_mappings (field ∷ fields) =
    let rest = first_mappings fields in
    elim (mappings_of field) [ none ↦ rest | some mappings ↦ map_names mappings [] ]

abbrev or_none : Option (List Json) → List (Bytes × ℕ)
or_none none = []
or_none (some fields) = first_mappings fields

unfoldable pub pre_parse_packet_ids : Members → List (Bytes × ℕ)
unfolding first_mappings
pre_parse_packet_ids types =
    or_none (as_array (pair_of (as_array (lookup bytes_eq (codes "packet") (members types)))).1)
