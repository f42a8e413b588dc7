-- ===== src/Client/Options/HostPort.antt =====
-- net.SplitHostPort and net.JoinHostPort, which options.go uses.
use gophermc.Base.{ℕ, Bool, false, ◌||◌, Option, none, some, [], ◌∷◌, ◌++◌, ◌==◌, if◌then◌else◌}
use gophermc.Wire.Stream.{Bytes}

unfoldable pub has_byte : ℕ → Bytes → Bool
has_byte b [] = false
has_byte b (c ∷ cs) = c == b || has_byte b cs

-- What stands before and behind the last colon.
unfoldable pub last_colon : Bytes → Option (Bytes × Bytes)
last_colon [] = none
last_colon (b ∷ bs) = elim (last_colon bs) [
  | some (before, behind) ↦ some (b ∷ before, behind)
  | none ↦ if b == b':' then some ([], bs) else none
]

-- The text before the first ']', if that is the last byte.
unfoldable pub closing : Bytes → Option Bytes
closing [] = none
closing (b ∷ bs) =
    if b == b']'
    then elim bs [ [] ↦ some [] | c ∷ cs ↦ none ]
    else elim (closing bs) [ some host ↦ some (b ∷ host) | none ↦ none ]

abbrev pub literal : Option Bytes → Bytes → Option (Bytes × Bytes)
literal none port = none
literal (some host) port =
    if has_byte b'[' host || has_byte b'[' port || has_byte b']' port
    then none
    else some (host, port)

-- Before the last colon stands a '[' and then `text`.
unfoldable pub bracketed : Bytes → Bytes → Option (Bytes × Bytes)
unfolding closing has_byte
bracketed text port = literal (closing text) port

unfoldable pub unbracketed : Bytes → Bytes → Option (Bytes × Bytes)
unfolding has_byte
unbracketed host port =
    if has_byte b':' host
      || has_byte b'[' host
      || has_byte b']' host
      || has_byte b'[' port
      || has_byte b']' port
    then none
    else some (host, port)

abbrev pub split_at : Option (Bytes × Bytes) → Option (Bytes × Bytes)
split_at none = none
split_at (some ([], port)) = unbracketed [] port
split_at (some (b ∷ host, port)) =
    if b == b'[' then bracketed host port else unbracketed (b ∷ host) port

-- SplitHostPort: host and port; `none` for each of its errors.
unfoldable pub split_host_port : Bytes → Option (Bytes × Bytes)
unfolding last_colon bracketed unbracketed
split_host_port text = split_at (last_colon text)

unfoldable pub join_host_port : Bytes → Bytes → Bytes
unfolding has_byte
join_host_port host port =
    if has_byte b':' host then b'[' ∷ host ++ b']' ∷ b':' ∷ port else host ++ b':' ∷ port
