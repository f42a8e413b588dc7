-- ===== src/Client/Join/Ends.antt =====
-- The configuration ends, and where it returns nil, in the play state.
use gophermc.Base.{ℕ, some, ◌<◌, refl, false, [], arith, Bool-cases, inl, inr}
use gophermc.Base.Outcome.{
  Outcome, ok, err, panic, wrapping, pure, is_unknown_packet, config_keep_alive_failed,
  brand_failed, cookie_failed, settings_in_config,
}
use gophermc.Client.{Client, read, send_client_settings}
use gophermc.Client.Join.{
  config_packet, config_read, config_round, handle_configuration, answer_known_packs, answer_finish,
  brand_channel, brand_payload,
}
use gophermc.Client.Join.Rounds.{
  bytes_left, RoundIn, again-RoundIn, reply-RoundIn, known_packs-Stays, answer_finish-Stays,
}
use gophermc.Client.Loop.{finished, once, loop}
use gophermc.Client.Loop.Rule.{
  After, Then, After-once, After-run_then, Then-and_then, Then-wrapped, After-loop,
}
use gophermc.Client.Steps.{IsAt, Stays, HasRead, read-HasRead, send_client_settings-Stays}
use gophermc.Packets.{
  Packet, Library, Moment, clientbound_config_keep_alive, clientbound_custom_payload,
  clientbound_select_known_packs, clientbound_finish_configuration, clientbound_disconnect,
  clientbound_cookie_request, serverbound_config_keep_alive, serverbound_cookie_response,
  serverbound_custom_payload,
}
use gophermc.Packets.Encode.{bytes_eq}
use gophermc.Types.{play, configuration}

config_packet-RoundIn :
    (lib : Library) (moment : Moment) (m n : ℕ) (p : Packet) (c : Client)
    → n < m
    → Stays configuration n c
    → Then (RoundIn configuration m) (config_packet lib moment p c)
unfolding config_packet
config_packet-RoundIn lib moment m n (clientbound_config_keep_alive id) c l h =
    reply-RoundIn config_keep_alive_failed lib moment (serverbound_config_keep_alive id)
      configuration m n c l h
config_packet-RoundIn lib moment m n (clientbound_custom_payload channel payload) c l h =
    elim (Bool-cases (bytes_eq channel brand_channel)) [
      | inl brand ↦ rw brand (
          reply-RoundIn brand_failed lib moment
            (serverbound_custom_payload brand_channel (brand_payload c.brand)) configuration m n c l
            h)
      | inr other ↦ rw other (h.0, omega arith)
    ]
config_packet-RoundIn lib moment m n (clientbound_select_known_packs packs) c l h =
    again-RoundIn configuration m n (answer_known_packs lib moment c.version) c l
      (known_packs-Stays lib moment c.version configuration n c h)
config_packet-RoundIn lib moment m n clientbound_finish_configuration c l h =
    Then-and_then (λ (u : Unit {0}) c'. Stays play n c') (RoundIn configuration m)
      (answer_finish lib moment c.version c) (λ _. pure finished)
      (answer_finish-Stays lib moment c.version configuration n c h) (λ u c' k. k.0)
config_packet-RoundIn lib moment m n (clientbound_disconnect reason) c l h = tt
config_packet-RoundIn lib moment m n (clientbound_cookie_request key) c l h =
    reply-RoundIn cookie_failed lib moment (serverbound_cookie_response key false []) configuration
      m n c l h
config_packet-RoundIn lib moment m n _ c l h = (h.0, omega arith)

config_read-RoundIn :
    (lib : Library) (moment : Moment) (m : ℕ) (o : Outcome Packet) (c : Client)
    → HasRead configuration m o c
    → Then (RoundIn configuration m) (config_read lib moment o c)
unfolding config_read
config_read-RoundIn lib moment m (ok p) c h =
    config_packet-RoundIn lib moment m (bytes_left c) p c (h.on_ok p refl).0
      (h.stays.0, omega arith)
config_read-RoundIn lib moment m (err e) c h = elim (Bool-cases (is_unknown_packet e)) [
  | inl unknown ↦ rw unknown (h.stays.0, h.on_unknown e refl unknown)
  | inr other ↦ rw other tt
]
config_read-RoundIn lib moment m (panic p) c h = tt

config_round-RoundIn :
    (lib : Library) (moment : Moment) (c : Client)
    → IsAt configuration c.conn
    → After (RoundIn configuration (bytes_left c)) (once (config_round lib moment) c)
unfolding config_round
config_round-RoundIn lib moment c h =
    let r = read lib c in
    After-once (RoundIn configuration (bytes_left c)) (config_read lib moment r.0 r.1)
      (config_read-RoundIn lib moment (bytes_left c) r.0 r.1 (read-HasRead lib configuration c h))

-- From a connection in the configuration state, handleConfiguration ends, with a round for every
-- byte still to come and one as fuel; and if it returns nil, the connection is in the play state.
pub configuration_ends :
    (lib : Library) (moment : Moment) (fuel : ℕ) (c : Client)
    → IsAt configuration c.conn
    → bytes_left c < fuel
    → After (λ (u : Unit {0}) c'. IsAt play c'.conn) (handle_configuration lib moment fuel c)
unfolding handle_configuration
configuration_ends lib moment fuel c h l =
    let settings = wrapping settings_in_config (send_client_settings lib moment c.settings) c in
    let sent = send_client_settings lib moment c.settings c in
    After-run_then (λ (u : Unit {0}) c'. Stays configuration (bytes_left c) c')
      (λ (u : Unit {0}) c'. IsAt play c'.conn) (some settings)
      (λ _. loop fuel (once (config_round lib moment)))
      (After-once (λ (u : Unit {0}) c'. Stays configuration (bytes_left c) c') settings
        (Then-wrapped (λ (u : Unit {0}) c'. Stays configuration (bytes_left c) c')
          settings_in_config sent.0 sent.1
          (send_client_settings-Stays lib moment c.settings configuration (bytes_left c) c
            (h, omega arith))))
      (λ u c' k.
        After-loop (λ c. IsAt configuration c.conn) (λ c. IsAt play c.conn) bytes_left
          (once (config_round lib moment)) (λ c h. config_round-RoundIn lib moment c h) fuel c'
          (omega arith) k.0)
