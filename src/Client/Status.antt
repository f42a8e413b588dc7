-- ===== src/Client/Status.antt =====
-- `Ping` and `GetStatus` of client.go.
use gophermc.Base.{ℕ, ◌-◌}
use gophermc.Base.Outcome.{
  Outcome, Action, ◌>>=◌, ◌>>◌, pure, fail, wrapping, sending_handshake, sending_status_request,
  reading_status_response, sending_ping, reading_pong, expected_status_response, expected_pong,
}
use gophermc.Client.{Client, connect, set_state, send_handshake, write, read, if_connected}
use gophermc.Packets.{
  Packet, Library, Moment, serverbound_status_request, clientbound_status_response,
  serverbound_ping, clientbound_pong,
}
use gophermc.Types.{status}
use gophermc.Wire.Stream.{Bytes, Reader, Writer}

-- `_, ok := p.(*protocol.ClientboundPong)`
expect_pong : Packet → Action Client (Unit {0})
expect_pong (clientbound_pong payload) = pure tt
expect_pong _ = fail expected_pong

expect_status : Packet → Action Client Bytes
expect_status (clientbound_status_response json) = pure json
expect_status _ = fail expected_status_response

-- `moment.now` is the time in milliseconds before the write, `later` that after the read.
unfoldable pub ping : Library → Moment → ℕ → Action Client ℕ
unfolding if_connected expect_pong write read
ping lib moment later c =
    if_connected c.conn
      (do
        wrapping sending_ping (write lib moment (serverbound_ping moment.now))
        p ← wrapping reading_pong (read lib)
        expect_pong p
        pure (later - moment.now))
      c

unfoldable pub get_status :
    Library → Moment → ℕ → Outcome (Reader × Writer) → Action Client (Bytes × ℕ)
unfolding connect send_handshake set_state expect_status ping write read
get_status lib moment later dial = do
  connect dial
  wrapping sending_handshake (send_handshake lib moment status)
  set_state status
  wrapping sending_status_request (write lib moment serverbound_status_request)
  p ← wrapping reading_status_response (read lib)
  json ← expect_status p
  latency ← ping lib moment later
  pure (json, latency)
