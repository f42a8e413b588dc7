-- ===== src/Client/Join/Replies.antt =====
-- What the client owes the server in the configuration, packet by packet.
use gophermc.Base.{Bool, true, false, List, [], ◌∷◌, leb, ltb, if◌then◌else◌}
use gophermc.Client.Join.{brand_channel}
use gophermc.Packets.{
  Packet, clientbound_config_keep_alive, clientbound_custom_payload, clientbound_select_known_packs,
  clientbound_finish_configuration, clientbound_disconnect, clientbound_cookie_request,
  serverbound_config_keep_alive, serverbound_cookie_response, serverbound_custom_payload,
  serverbound_select_known_packs, serverbound_finish_configuration,
}
use gophermc.Packets.Encode.{bytes_eq}
use gophermc.Versions.{Version, v1_21_3}
use gophermc.Wire.Fields.RoundTrip.{string_bytes}
use gophermc.Wire.Stream.{Bytes}

-- The packets that the client answers with, in order.
unfoldable pub replies : Version → Bytes → Packet → List Packet
replies v brand (clientbound_config_keep_alive id) = serverbound_config_keep_alive id ∷ []
replies v brand (clientbound_custom_payload channel _) =
    if bytes_eq channel brand_channel
    then serverbound_custom_payload brand_channel (string_bytes brand) ∷ []
    else []
replies v brand (clientbound_select_known_packs _) =
    if leb v1_21_3 v
    then serverbound_select_known_packs [] ∷ serverbound_finish_configuration ∷ []
    else serverbound_select_known_packs [] ∷ []
replies v brand clientbound_finish_configuration =
    if ltb v v1_21_3 then serverbound_finish_configuration ∷ [] else []
replies v brand (clientbound_cookie_request key) = serverbound_cookie_response key false [] ∷ []
replies v brand _ = []

-- A packet that does not end the configuration.
unfoldable pub goes_on : Packet → Bool
goes_on clientbound_finish_configuration = false
goes_on (clientbound_disconnect reason) = false
goes_on _ = true
