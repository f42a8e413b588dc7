-- ===== src/Base/Outcome.antt =====
-- Go's ways to end a call: a result with a nil error, a non-nil error, a panic; and code that
-- changes a state on the way (a reader, a writer, a connection) as a function of that state.
use Prim.Native.Nat.{ℕ}
use mathlib.Core.Bool.{Bool, true, false}
use mathlib.Core.List.{List}

-- The texts that `fmt.Errorf` puts before a wrapped error, and the errors that wrap nothing.
pub data Context : Type 0 where
  read_packet_length read_packet_data read_compressed_length create_zlib_reader : Context
  reset_zlib_reader read_packet_id decode_packet encode_packet write_payload : Context
  read_array_length : Context
  failed_to_dial sending_handshake handshake_failed sending_status_request : Context
  reading_status_response sending_ping reading_pong : Context
  during_login login_acknowledged_failed keep_alive_during_login : Context
  settings_in_config during_configuration config_keep_alive_failed brand_failed : Context
  known_packs_failed finish_for_21_failed finish_failed cookie_failed sign_failed : Context

pub data Error : Type 0 where
  -- io.EOF and io.ErrUnexpectedEOF
  eof unexpected_eof : Error
  -- an error of a connection, of zlib or of another callee outside the repository
  external : ℕ → Error
  varint_too_big : Error
  negative_length length_exceeds_max : ℕ → Error
  -- protocol.ErrUnknownPacket
  unknown_packet unknown_version no_constructor no_packet_id : Error
  client_only server_only : Error
  not_connected not_in_play invalid_username : Error
  expected_status_response expected_pong : Error
  -- json.UnmarshalTypeError
  json_type : Error
  -- "disconnected by server: …", with the reason given
  disconnected : List ℕ → Error
  wrapped : Context → Error → Error

pub data Panic : Type 0 where
  -- make([]T, n) with n out of range
  makeslice : Panic
  -- the source's own calls of panic
  explicit : Panic
  -- a nil pointer, and a send on or close of a closed channel
  nil_dereference closed_channel : Panic

pub data Outcome (A : Type 0) : Type 0 where
  ok : A → Outcome A
  err : Error → Outcome A
  panic : Panic → Outcome A

-- What a call on a state `S` does: its outcome, and the state that it leaves, on an error too.
abbrev pub Action : Type 0 → Type 0 → Type 0
Action S A = S → Outcome A × S

module _ {S A B : Type 0} where
  abbrev pub and_then : Outcome A × S → (A → Action S B) → Outcome B × S
  and_then (ok a, s) f = f a s
  and_then (err e, s) f = (err e, s)
  and_then (panic p, s) f = (panic p, s)

  infixl 5 ◌>>=◌ ◌>>◌
  abbrev pub ◌>>=◌ : Action S A → (A → Action S B) → Action S B
  m >>= f = λ s. and_then (m s) f

  abbrev pub ◌>>◌ : Action S A → Action S B → Action S B
  m >> k = λ s. and_then (m s) (λ _. k)

module _ {A : Type 0} where
  -- `fmt.Errorf("…: %w", err)`
  abbrev pub wrap_outcome : Context → Outcome A → Outcome A
  wrap_outcome c (ok a) = ok a
  wrap_outcome c (err e) = err (wrapped c e)
  wrap_outcome c (panic p) = panic p

  -- `x, _ = f()`: an error is dropped, and `x` is what `f` returns beside it.
  abbrev pub value_or : A → Outcome A → Outcome A
  value_or d (ok a) = ok a
  value_or d (err e) = ok d
  value_or d (panic p) = panic p

module _ {S A : Type 0} where
  abbrev pub pure : A → Action S A
  pure a s = (ok a, s)

  abbrev pub fail : Error → Action S A
  fail e s = (err e, s)

  abbrev pub crash : Panic → Action S A
  crash p s = (panic p, s)

  abbrev pub wrapping : Context → Action S A → Action S A
  wrapping c m s = (wrap_outcome c (m s).0, (m s).1)

  abbrev pub or_else : Action S A → A → Action S A
  or_else m d s = (value_or d (m s).0, (m s).1)

-- errors.Is(err, ErrUnknownPacket) and errors.Is(err, io.EOF)
unfoldable pub is_unknown_packet : Error → Bool
is_unknown_packet unknown_packet = true
is_unknown_packet (wrapped c e) = is_unknown_packet e
is_unknown_packet _ = false

unfoldable pub is_eof : Error → Bool
is_eof eof = true
is_eof (wrapped c e) = is_eof e
is_eof _ = false
