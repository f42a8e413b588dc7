-- ===== src/Tests/Registry.antt =====
-- Lookups at concrete versions.
use gophermc.Client.Numbers.{has_number, keep_alive, is_position}
use gophermc.Packets.RoundTrip.{ReadsBack, decode-encode, handshake}
use gophermc.Tests.Samples.{plain_library, noon}
use gophermc.Packets.{serverbound_keep_alive, serverbound_handshake}
use gophermc.Base.{◌⊎◌, ℕ, ◌≡◌, ◌↔◌, refl, true, false, some, none, arith}
use gophermc.Packets.Made.{Made, new_packet-Made}
use gophermc.Packets.Constructors.{new_packet, get_packet_id}
use gophermc.Registry.{get_definition}
use gophermc.Registry.Cache.{get_definition-get_definition}
use gophermc.Registry.Consistency.{packet_id-packet_name}
use gophermc.Registry.Definitions.{packet_id, packet_name}
use gophermc.Registry.Tables.{protocol_registry}
use gophermc.Registry.Tables.V1_21_11.{definition_v1_21_11}
use gophermc.Types.{login, clientbound, serverbound, play, status, codes, state_of}
use gophermc.Versions.{v1_21_11, v1_7}

latest_table : (get_definition v1_21_11 protocol_registry).0 ≡ some definition_v1_21_11
unfolding get_definition protocol_registry
latest_table = refl

packet_id-packet_name_example :
    (packet_id definition_v1_21_11 login clientbound "ClientboundLoginSuccess" ≡ some 2)
    ↔ (packet_name definition_v1_21_11 login clientbound 2 ≡ some "ClientboundLoginSuccess")
packet_id-packet_name_example =
    packet_id-packet_name v1_21_11 latest_table login clientbound "ClientboundLoginSuccess" 2

new_packet-Made_example :
    Made v1_21_11 login 2 protocol_registry
      (new_packet v1_21_11 login clientbound 2 protocol_registry).0
new_packet-Made_example = new_packet-Made v1_21_11 login 2 protocol_registry (λ v. refl)

get_definition-get_definition_example :
    (get_definition v1_21_11 (get_definition v1_7 protocol_registry).1).0
    ≡ (get_definition v1_21_11 protocol_registry).0
get_definition-get_definition_example =
    get_definition-get_definition v1_7 v1_21_11 protocol_registry

has_number_example :
    let number =
      (get_packet_id v1_21_11 play serverbound (serverbound_keep_alive 5) protocol_registry).0 in
    ((is_position (serverbound_keep_alive 5) ≡ false) × (id : ℕ) × (number ≡ some id))
    ⊎ ((is_position (serverbound_keep_alive 5) ≡ true) × (number ≡ none))
unfolding get_packet_id get_definition protocol_registry packet_id
has_number_example =
    has_number v1_21_11 protocol_registry play (serverbound_keep_alive 5) (omega arith) (λ v. refl)
      (keep_alive 5 5 (43, refl))

decode-encode_example :
    ReadsBack plain_library noon v1_21_11
      (serverbound_handshake 772 (codes "localhost") 25565 status)
unfolding state_of
decode-encode_example =
    decode-encode plain_library noon v1_21_11
      (serverbound_handshake 772 (codes "localhost") 25565 status)
      (handshake 772 (codes "localhost") 25565 status (omega arith) (omega arith) (omega arith)
        (omega arith) refl)
