-- ===== src/Client/Options.antt =====
-- options.go: what an option does to the client.
pub mod HostPort
pub mod Splits
pub mod Addresses
use gophermc.Client.Options.HostPort.{split_host_port, join_host_port}
use gophermc.Base.{ℕ, Option, none, some, List, [], ◌∷◌}
use gophermc.Client.{Client, Address, close}
use gophermc.Conn.{new_conn}
use gophermc.Types.{codes}
use gophermc.Versions.{Version}
use gophermc.Wire.Stream.{Bytes, Reader, Writer}

abbrev pub with_version : Version → Client → Client
with_version version c = record c { version = version }

abbrev pub with_tcp_addr : Option Address → Client → Client
with_tcp_addr tcp_addr c = record c { addr = tcp_addr }

abbrev pub with_server_hostname : Bytes → Client → Client
with_server_hostname server_hostname c = record c { server_hostname = server_hostname }

abbrev pub with_brand : Bytes → Client → Client
with_brand brand c = record c { brand = brand }

abbrev pub with_private_key : Option ℕ → Client → Client
with_private_key key c = record c { private_key = key }

abbrev pub with_username : Bytes → Client → Client
with_username username c = record c { username = username }

abbrev pub with_uuid : Bytes → Client → Client
with_uuid uuid c = record c { unique_id = uuid }

-- Both results are empty on an error.
abbrev pub or_empty : Option (Bytes × Bytes) → Bytes × Bytes
or_empty none = ([], [])
or_empty (some parts) = parts

abbrev pub if_empty : Bytes → Bytes → Bytes
if_empty other [] = other
if_empty other (b ∷ bs) = b ∷ bs

abbrev pub default_port : Bytes
default_port = codes "25565"

-- The text that is resolved.
abbrev pub asked_addr : Bytes → Bytes → Bytes
asked_addr addr [] = join_host_port addr default_port
asked_addr addr (b ∷ bs) = addr

abbrev pub resolved : Option Address → Client → Client
resolved none c = c
resolved (some tcp_addr) c = with_tcp_addr (some tcp_addr) c

-- `resolve` is net.ResolveTCPAddr; `none` where it has an error.
unfoldable pub with_addr : (Bytes → Option Address) → Bytes → Client → Client
unfolding split_host_port join_host_port
with_addr resolve addr c =
    let (host, port) = or_empty (split_host_port addr) in
    resolved (resolve (asked_addr addr port)) (with_server_hostname (if_empty addr host) c)

-- The network connection is its two directions.
unfoldable pub with_conn : Reader → Writer → Version → Client → Client
unfolding close
with_conn input output version c =
    let closed = with_version version (close c).1 in
    record closed { conn = some (new_conn input output closed.version closed.registry) }
