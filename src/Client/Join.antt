-- ===== src/Client/Join.antt =====
-- `Join` and `handleConfiguration` of client.go.
pub mod Start
pub mod Rounds
pub mod Ends
pub mod Joined
pub mod Speaks
pub mod Opens
pub mod Exchange
pub mod Replies
pub mod Dialogue
pub mod Configured
pub mod Welcome
pub mod Arrival
pub mod Expected
pub mod Sizes
pub mod Encodings
pub mod Sendable
pub mod Success
use gophermc.Base.{ℕ, Bool, true, false, not, [], leb, ltb, if◌then◌else◌}
use gophermc.Base.Int.{signed32}
use gophermc.Base.Outcome.{
  Outcome, Error, ok, err, panic, Action, pure, fail, wrapping, wrap_outcome, is_unknown_packet,
  disconnected, handshake_failed, during_login, login_acknowledged_failed, keep_alive_during_login,
  settings_in_config, during_configuration, config_keep_alive_failed, brand_failed,
  known_packs_failed, finish_for_21_failed, finish_failed, cookie_failed,
}
use gophermc.Base.Outcome
use gophermc.Client.{
  Client, connect, set_state, send_handshake, send_login, send_client_settings, write, read,
  on_conn,
}
use gophermc.Client.Loop.{Round, again, finished, Run, ◌>>=◌, ◌>>◌, once, loop}
use gophermc.Conn
use gophermc.Packets.{
  Packet, Library, Moment, clientbound_set_compression, clientbound_disconnect,
  clientbound_login_success, clientbound_join_game, clientbound_keep_alive, serverbound_keep_alive,
  serverbound_login_acknowledged, clientbound_config_keep_alive, serverbound_config_keep_alive,
  clientbound_custom_payload, serverbound_custom_payload, clientbound_select_known_packs,
  serverbound_select_known_packs, serverbound_finish_configuration,
  clientbound_finish_configuration, clientbound_cookie_request, serverbound_cookie_response,
}
use gophermc.Packets.Encode.{bytes_eq}
use gophermc.Types.{login, play, configuration, codes}
use gophermc.Versions.{Version, v1_20_2, v1_21_3}
use gophermc.Wire.Fields.{write_string}
use gophermc.Wire.Stream.{Bytes, Reader, Writer, buffer}

abbrev pub answer : Action Client (Unit {0}) → Round → Action Client Round
answer m r = Outcome.◌>>◌ m (pure r)

unfoldable pub set_compression : ℕ → Action Client (Unit {0})
unfolding on_conn
set_compression threshold =
    on_conn (λ conn. (ok tt, Conn.set_compression (signed32 threshold) conn))

abbrev pub brand_channel : Bytes
brand_channel = codes "minecraft:brand"

-- The brand as a string in a bytes.Buffer.
unfoldable pub brand_payload : Bytes → Bytes
brand_payload brand = (write_string brand (buffer [])).1.written

unfoldable pub answer_known_packs : Library → Moment → Version → Action Client (Unit {0})
unfolding write
answer_known_packs lib moment v =
    Outcome.◌>>◌
      (wrapping known_packs_failed (write lib moment (serverbound_select_known_packs [])))
      (if leb v1_21_3 v
        then wrapping finish_for_21_failed (write lib moment serverbound_finish_configuration)
        else pure tt)

unfoldable pub answer_finish : Library → Moment → Version → Action Client (Unit {0})
unfolding write set_state
answer_finish lib moment v =
    Outcome.◌>>◌
      (if ltb v v1_21_3
        then wrapping finish_failed (write lib moment serverbound_finish_configuration)
        else pure tt)
      (set_state play)

-- The `switch` of `handleConfiguration`.
unfoldable pub config_packet : Library → Moment → Packet → Action Client Round
unfolding write brand_payload answer_known_packs answer_finish
config_packet lib moment (clientbound_config_keep_alive id) =
    answer (wrapping config_keep_alive_failed (write lib moment (serverbound_config_keep_alive id)))
      again
config_packet lib moment (clientbound_custom_payload channel _) = λ c.
    if bytes_eq channel brand_channel
    then answer
        (wrapping brand_failed
          (write lib moment (serverbound_custom_payload brand_channel (brand_payload c.brand))))
        again c
    else (ok again, c)
config_packet lib moment (clientbound_select_known_packs _) =
    λ c. answer (answer_known_packs lib moment c.version) again c
config_packet lib moment clientbound_finish_configuration =
    λ c. answer (answer_finish lib moment c.version) finished c
config_packet lib moment (clientbound_disconnect reason) = fail (disconnected reason)
config_packet lib moment (clientbound_cookie_request key) =
    answer (wrapping cookie_failed (write lib moment (serverbound_cookie_response key false [])))
      again
config_packet lib moment _ = pure again

-- An unknown packet is passed over; any other error ends the configuration.
unfoldable pub config_read : Library → Moment → Outcome Packet → Action Client Round
unfolding config_packet
config_read lib moment (ok p) = config_packet lib moment p
config_read lib moment (err e) =
    if is_unknown_packet e
    then pure again
    else (λ c. (wrap_outcome during_configuration (err e), c))
config_read lib moment (panic p) = λ c. (panic p, c)

unfoldable pub config_round : Library → Moment → Action Client Round
unfolding config_read read
config_round lib moment c = config_read lib moment (read lib c).0 (read lib c).1

unfoldable pub handle_configuration : Library → Moment → ℕ → Run Client (Unit {0})
unfolding send_client_settings config_round loop
handle_configuration lib moment fuel c =
    (do
      once (wrapping settings_in_config (send_client_settings lib moment c.settings))
      loop fuel (once (config_round lib moment)))
      c

-- What follows a LoginSuccess: the configuration, from 1.20.2 on.
unfoldable pub after_login : Library → Moment → ℕ → Run Client (Unit {0})
unfolding handle_configuration set_state send_client_settings write
after_login lib moment fuel c =
    (if leb v1_20_2 c.version
        then (do
          once
              (wrapping login_acknowledged_failed (write lib moment serverbound_login_acknowledged))
          once (set_state configuration)
          handle_configuration lib moment fuel)
        else (do once (set_state play); once (send_client_settings lib moment c.settings)))
      c

-- The `switch` of `Join`.
unfoldable pub login_packet : Library → Moment → ℕ → Packet → Run Client Round
unfolding set_compression after_login write
login_packet lib moment fuel (clientbound_set_compression threshold) =
    once (answer (set_compression threshold) again)
login_packet lib moment fuel (clientbound_disconnect reason) = once (fail (disconnected reason))
login_packet lib moment fuel (clientbound_login_success _ _) = do
  after_login lib moment fuel
  once (pure finished)
login_packet lib moment fuel clientbound_join_game = once (pure finished)
login_packet lib moment fuel (clientbound_keep_alive id) =
    once (
      answer (wrapping keep_alive_during_login (write lib moment (serverbound_keep_alive id)))
        again)
login_packet lib moment fuel _ = once (pure again)

unfoldable pub login_round : Library → Moment → ℕ → Run Client Round
unfolding login_packet read
login_round lib moment fuel = do
  p ← once (wrapping during_login (read lib))
  login_packet lib moment fuel p

-- Both loops take a packet in each round, so the fuel is the bytes that the server sends, and one.
unfoldable pub join : Library → Moment → ℕ → Outcome (Reader × Writer) → Run Client (Unit {0})
unfolding connect send_handshake set_state send_login login_round loop
join lib moment fuel dial = do
  once (connect dial)
  once (wrapping handshake_failed (send_handshake lib moment login))
  once (set_state login)
  once (λ c. wrapping handshake_failed (send_login lib moment c.username c.unique_id) c)
  loop fuel (login_round lib moment fuel)
