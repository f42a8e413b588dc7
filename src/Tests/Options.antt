-- ===== src/Tests/Options.antt =====
-- WithAddr at concrete addresses.
use gophermc.Base.{◌≡◌, refl, Option, none, some, []}
use gophermc.Client.{Address, default_client}
use gophermc.Client.Options.{with_addr, with_server_hostname, resolved}
use gophermc.Client.Options.HostPort.{has_byte, split_host_port}
use gophermc.Client.Options.Addresses.{with_port, with_addr-Form}
use gophermc.Registry.Tables.{protocol_registry}
use gophermc.Types.{codes}
use gophermc.Wire.Stream.{Bytes}

literal_split : split_host_port (codes "[::1]:25565") ≡ some (codes "::1", codes "25565")
unfolding split_host_port
literal_split = refl

two_colons : split_host_port (codes "::1") ≡ none
unfolding split_host_port
two_colons = refl

no_port : split_host_port (codes "[::1]") ≡ none
unfolding split_host_port
no_port = refl

-- One address, whatever is asked.
abbrev one_address : Bytes → Option Address
one_address text = some (record { ip = codes "10.0.0.1"; port = 7 })

with_addr-Form_example :
    with_addr one_address (codes "mc:7") (default_client protocol_registry)
    ≡ resolved
        (one_address (codes "mc:7"))
        (with_server_hostname (codes "mc") (default_client protocol_registry))
unfolding has_byte
with_addr-Form_example = with_addr-Form one_address (default_client protocol_registry) (
    with_port b'm' (codes "c") b'7' [] (record { colons = refl; opens = refl; closes = refl })
      (record { colons = refl; opens = refl; closes = refl }))
