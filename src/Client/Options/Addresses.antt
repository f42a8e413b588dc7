-- ===== src/Client/Options/Addresses.antt =====
-- What `WithAddr` makes of each form of an address.
use gophermc.Base.{ℕ, ◌≡◌, refl, true, false, Option, [], ◌∷◌, ◌++◌}
use gophermc.Client.{Client, Address}
use gophermc.Client.Options.{
  with_addr, resolved, with_server_hostname, default_port, or_empty, if_empty, asked_addr,
}
use gophermc.Client.Options.HostPort.{has_byte, split_host_port}
use gophermc.Wire.Stream.{Bytes}
use gophermc.Client.Options.Splits.{
  IsPlain, nil-IsPlain, split-plain, split-none, split-literal, split-closed, split-colons,
  join-colon, join-plain, has_colon,
}

-- An address, the host name that it gives the handshake, and the text that is resolved.
pub data Form : Bytes → Bytes → Bytes → Type 0 where
  -- host:port
  with_port :
      (b : ℕ) (host : Bytes) (p : ℕ) (port : Bytes)
      → IsPlain (b ∷ host)
      → IsPlain (p ∷ port)
      → Form (b ∷ host ++ b':' ∷ p ∷ port) (b ∷ host) (b ∷ host ++ b':' ∷ p ∷ port)
  -- host
  without_port :
      (host : Bytes) → has_byte b':' host ≡ false → Form host host (host ++ b':' ∷ default_port)
  -- host:
  empty_port :
      (b : ℕ) (host : Bytes)
      → IsPlain (b ∷ host)
      → Form
          (b ∷ host ++ b':' ∷ [])
          (b ∷ host)
          (b'[' ∷ b ∷ (host ++ b':' ∷ []) ++ b']' ∷ b':' ∷ default_port)
  -- [literal]:port
  literal_port :
      (b : ℕ) (literal : Bytes) (p : ℕ) (port : Bytes)
      → has_byte b'[' (b ∷ literal) ≡ false
      → has_byte b']' (b ∷ literal) ≡ false
      → IsPlain (p ∷ port)
      → Form
          (b'[' ∷ (b ∷ literal ++ b']' ∷ []) ++ b':' ∷ p ∷ port)
          (b ∷ literal)
          (b'[' ∷ (b ∷ literal ++ b']' ∷ []) ++ b':' ∷ p ∷ port)
  -- [literal]
  closed_literal :
      (before behind : Bytes)
      → has_byte b']' before ≡ false
      → IsPlain behind
      → Form
          (b'[' ∷ before ++ b':' ∷ (behind ++ b']' ∷ []))
          (b'[' ∷ before ++ b':' ∷ (behind ++ b']' ∷ []))
          (b'[' ∷ (b'[' ∷ before ++ b':' ∷ (behind ++ b']' ∷ [])) ++ b']' ∷ b':' ∷ default_port)
  -- literal
  literal :
      (before behind : Bytes)
      → has_byte b':' before ≡ true
      → has_byte b'[' before ≡ false
      → IsPlain behind
      → Form
          (before ++ b':' ∷ behind)
          (before ++ b':' ∷ behind)
          (b'[' ∷ (before ++ b':' ∷ behind) ++ b']' ∷ b':' ∷ default_port)

-- With the parts that SplitHostPort finds, and the text that is resolved.
from_parts :
    (resolve : Bytes → Option Address) (c : Client) (addr : Bytes) (parts : Option (Bytes × Bytes))
    (host asked : Bytes)
    → split_host_port addr ≡ parts
    → if_empty addr (or_empty parts).0 ≡ host
    → asked_addr addr (or_empty parts).1 ≡ asked
    → with_addr resolve addr c ≡ resolved (resolve asked) (with_server_hostname host c)
unfolding with_addr
from_parts resolve c addr parts host asked e f g = rw (e, f, g)

-- WithAddr of "host:port" names the host and resolves the text as it stands, a literal's brackets
-- taken off the name; of "host", or of an IPv6 literal without brackets, it names the text and
-- resolves it with the port 25565, the literal in brackets. Of "host:" it names the host and resolves
-- "[host:]:25565"; of a literal in brackets without a port it names the text with the brackets and
-- resolves it in a second pair of brackets. Where the resolution fails, the address is left as it was, but not the name.
pub with_addr-Form :
    (resolve : Bytes → Option Address) (c : Client) {addr host asked : Bytes}
    → Form addr host asked
    → with_addr resolve addr c ≡ resolved (resolve asked) (with_server_hostname host c)
with_addr-Form resolve c (with_port b host p port h q) =
    from_parts resolve c _ _ _ _ (split-plain b host (p ∷ port) h q) refl refl
with_addr-Form resolve c (without_port host h) =
    from_parts resolve c _ _ _ _ (split-none host h) refl (join-plain host default_port h)
with_addr-Form resolve c (empty_port b host h) =
    from_parts resolve c _ _ _ _ (split-plain b host [] h nil-IsPlain) refl
      (join-colon (b ∷ host ++ b':' ∷ []) default_port (has_colon (b ∷ host) []))
with_addr-Form resolve c (literal_port b text p port o k q) =
    from_parts resolve c _ _ _ _ (split-literal (b ∷ text) (p ∷ port) o k q) refl refl
with_addr-Form resolve c (closed_literal before behind h q) =
    from_parts resolve c _ _ _ _ (split-closed before behind h q) refl (
      join-colon (b'[' ∷ before ++ b':' ∷ (behind ++ b']' ∷ [])) default_port
        (has_colon (b'[' ∷ before) (behind ++ b']' ∷ [])))
with_addr-Form resolve c (literal before behind s o q) =
    from_parts resolve c _ _ _ _ (split-colons before behind s o q.colons) refl
      (join-colon (before ++ b':' ∷ behind) default_port (has_colon before behind))
