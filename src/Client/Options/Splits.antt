-- ===== src/Client/Options/Splits.antt =====
-- SplitHostPort and JoinHostPort at each form of an address.
use gophermc.Base.{ℕ, ◌≡◌, refl, true, false, ◌||◌, none, some, [], ◌∷◌, ◌++◌, ◌==◌, arith}
use gophermc.Client.Options.HostPort.{
  has_byte, last_colon, closing, bracketed, unbracketed, split_at, split_host_port, join_host_port,
}
use gophermc.Wire.Stream.{Bytes}

-- No colon and no bracket.
pub record IsPlain (text : Bytes) : Type 0 where
  pub colons : has_byte b':' text ≡ false
  pub opens : has_byte b'[' text ≡ false
  pub closes : has_byte b']' text ≡ false

last_colon-none : (text : Bytes) → has_byte b':' text ≡ false → last_colon text ≡ none
unfolding has_byte last_colon
last_colon-none [] h = refl
last_colon-none (b ∷ bs) h =
    let e : (b == b':') ≡ false = ground arith in rw (last_colon-none bs (ground arith), e)

last_colon-append :
    (before behind : Bytes)
    → has_byte b':' behind ≡ false
    → last_colon (before ++ b':' ∷ behind) ≡ some (before, behind)
unfolding last_colon
last_colon-append [] behind h = rw (last_colon-none behind h)
last_colon-append (b ∷ bs) behind h = rw (last_colon-append bs behind h)

has_byte-append : (b : ℕ) (xs ys : Bytes) → has_byte b (xs ++ ys) ≡ (has_byte b xs || has_byte b ys)
unfolding has_byte
has_byte-append b [] ys = refl
has_byte-append b (x ∷ xs) ys = let rest = has_byte-append b xs ys in ground arith

closing-append :
    (text : Bytes) → has_byte b']' text ≡ false → closing (text ++ b']' ∷ []) ≡ some text
unfolding has_byte closing
closing-append [] h = refl
closing-append (b ∷ bs) h =
    let e : (b == b']') ≡ false = ground arith in rw (e, closing-append bs (ground arith))

pub nil-IsPlain : IsPlain []
unfolding has_byte
nil-IsPlain = record { colons = refl; opens = refl; closes = refl }

unbracketed-plain :
    (host port : Bytes) → IsPlain host → IsPlain port → unbracketed host port ≡ some (host, port)
unfolding unbracketed
unbracketed-plain host port h p = rw (h.colons, h.opens, h.closes, p.opens, p.closes)

no_bracket : (b : ℕ) (bs : Bytes) → has_byte b'[' (b ∷ bs) ≡ false → (b == b'[') ≡ false
unfolding has_byte
no_bracket b bs h = ground arith

split_at-plain :
    (b : ℕ) (host port : Bytes)
    → IsPlain (b ∷ host)
    → IsPlain port
    → split_at (some (b ∷ host, port)) ≡ some (b ∷ host, port)
split_at-plain b host port h p =
    rw (no_bracket b host h.opens) (unbracketed-plain (b ∷ host) port h p)

pub split-plain :
    (b : ℕ) (host port : Bytes)
    → IsPlain (b ∷ host)
    → IsPlain port
    → split_host_port (b ∷ host ++ b':' ∷ port) ≡ some (b ∷ host, port)
unfolding split_host_port
split-plain b host port h p =
    rw (last_colon-append (b ∷ host) port p.colons) (split_at-plain b host port h p)

pub split-none : (text : Bytes) → has_byte b':' text ≡ false → split_host_port text ≡ none
unfolding split_host_port
split-none text h = rw (last_colon-none text h) refl

bracketed-plain :
    (text port : Bytes)
    → has_byte b'[' text ≡ false
    → has_byte b']' text ≡ false
    → IsPlain port
    → bracketed (text ++ b']' ∷ []) port ≡ some (text, port)
unfolding bracketed
bracketed-plain text port o k p = rw (closing-append text k, o, p.opens, p.closes) refl

pub split-literal :
    (text port : Bytes)
    → has_byte b'[' text ≡ false
    → has_byte b']' text ≡ false
    → IsPlain port
    → split_host_port (b'[' ∷ (text ++ b']' ∷ []) ++ b':' ∷ port) ≡ some (text, port)
unfolding split_host_port
split-literal text port o k p =
    rw (last_colon-append (b'[' ∷ text ++ b']' ∷ []) port p.colons)
      (bracketed-plain text port o k p)

closing-none : (text : Bytes) → has_byte b']' text ≡ false → closing text ≡ none
unfolding has_byte closing
closing-none [] h = refl
closing-none (b ∷ bs) h =
    let e : (b == b']') ≡ false = ground arith in rw (e, closing-none bs (ground arith)) refl

bracketed-none : (text port : Bytes) → has_byte b']' text ≡ false → bracketed text port ≡ none
unfolding bracketed
bracketed-none text port h = rw (closing-none text h) refl

plain-closed : (text : Bytes) → IsPlain text → has_byte b':' (text ++ b']' ∷ []) ≡ false
unfolding has_byte
plain-closed text h = rw (has_byte-append b':' text (b']' ∷ []), h.colons) refl

pub split-closed :
    (before behind : Bytes)
    → has_byte b']' before ≡ false
    → IsPlain behind
    → split_host_port (b'[' ∷ before ++ b':' ∷ (behind ++ b']' ∷ [])) ≡ none
unfolding split_host_port
split-closed before behind h p =
    rw (last_colon-append (b'[' ∷ before) (behind ++ b']' ∷ []) (plain-closed behind p))
      (bracketed-none before (behind ++ b']' ∷ []) h)

-- A text with a second colon.
unbracketed-colon :
    (before port : Bytes) → has_byte b':' before ≡ true → unbracketed before port ≡ none
unfolding unbracketed
unbracketed-colon before port h = rw h refl

split_at-colon :
    (before port : Bytes)
    → has_byte b':' before ≡ true
    → has_byte b'[' before ≡ false
    → split_at (some (before, port)) ≡ none
split_at-colon [] port h o = unbracketed-colon [] port h
split_at-colon (b ∷ bs) port h o = rw (no_bracket b bs o) (unbracketed-colon (b ∷ bs) port h)

pub split-colons :
    (before behind : Bytes)
    → has_byte b':' before ≡ true
    → has_byte b'[' before ≡ false
    → has_byte b':' behind ≡ false
    → split_host_port (before ++ b':' ∷ behind) ≡ none
unfolding split_host_port
split-colons before behind h o k =
    rw (last_colon-append before behind k) (split_at-colon before behind h o)

pub join-colon :
    (host port : Bytes)
    → has_byte b':' host ≡ true
    → join_host_port host port ≡ b'[' ∷ host ++ b']' ∷ b':' ∷ port
unfolding join_host_port
join-colon host port h = rw h refl

pub join-plain :
    (host port : Bytes)
    → has_byte b':' host ≡ false
    → join_host_port host port ≡ host ++ b':' ∷ port
unfolding join_host_port
join-plain host port h = rw h refl

pub has_colon : (before behind : Bytes) → has_byte b':' (before ++ b':' ∷ behind) ≡ true
unfolding has_byte
has_colon [] behind = refl
has_colon (b ∷ bs) behind = let rest = has_colon bs behind in ground arith
