-- ===== src/Client/Join/Arrival.antt =====
-- The start of Join: the connection, the handshake and LoginStart.
use gophermc.Base.{
  ℕ, ◌<◌, ◌≤◌, ◌^◌, ◌%◌, ◌≡◌, refl, ap, ◌∙◌, true, false, Option, none, some, List, [], ◌∷◌, ◌++◌,
  length, leb, Bool-cases, inl, inr, if◌then◌else◌,
}
use gophermc.Base.Int.{ℤ, negsuc}
use gophermc.Base.Outcome.{Error, ok, wrapping, wrap_outcome, handshake_failed}
use gophermc.Client.{
  Client, Address, close, connect, protocol, server_hostname, port_of, login_uuid, send_handshake,
  send_login, set_state, write,
}
use gophermc.Client.Join.{login_round, join}
use gophermc.Client.Join.Configured.{answers, Configured}
use gophermc.Client.Join.Dialogue.{CanReply, on, Done, write-Done, set_state-Done}
use gophermc.Client.Join.Speaks.{Talk, Speaks, frame, CanSend}
use gophermc.Client.Join.Exchange.{then_sent, coming}
use gophermc.Client.Join.Welcome.{LogsIn, acknowledgement, login-Configured}
use gophermc.Client.Loop.Rule.{run_then-ok}
use gophermc.Client.Loop.{◌>>◌, loop, once}
use gophermc.Registry.Cache.{Extends, get_definition-Extends}
use gophermc.Conn.{Conn, new_conn}
use gophermc.Packets.{
  Packet, Library, Moment, serverbound_login_acknowledged, serverbound_client_settings,
  serverbound_handshake, serverbound_login_start,
}
use gophermc.Packets.Encode.{bytes_eq}
use gophermc.Registry.{get_definition}
use gophermc.Registry.Definitions.{Definition}
use gophermc.Registry.Tables.{protocol_registry}
use gophermc.Types.{handshaking, login}
use gophermc.Versions.{v1_20_2}
use gophermc.Wire.Stream.{Bytes, Reader, Writer, buffer}

-- The hostname that the handshake names.
abbrev pub hostname : Client → Address → Bytes
hostname c addr = if bytes_eq c.server_hostname [] then addr.ip else c.server_hostname

abbrev pub handshake : Client → Address → Definition → Packet
handshake c addr def =
    serverbound_handshake def.protocol_version (hostname c addr) (addr.port % 65536) login

abbrev pub login_start : Library → Client → Packet
login_start lib c = serverbound_login_start c.username (login_uuid lib c c.unique_id)

-- No compression.
abbrev pub unset : ℤ
unset = negsuc 0

module _ (lib : Library) (moment : Moment) (c : Client) where
  -- The client's bytes before the server's first.
  abbrev pub greeting : Address → Definition → Bytes
  greeting addr def =
      frame lib moment c.version handshaking unset (handshake c addr def)
      ++ frame lib moment c.version login unset (login_start lib c)

  handshake_written :
      (addr : Address) (def : Definition) (conn : Conn)
      → c.addr ≡ some addr
      → (get_definition c.version conn.registry).0 ≡ some def
      → send_handshake lib moment login (on lib moment c unset conn)
        ≡ write lib moment (handshake c addr def) (
            on lib moment c unset
              (record conn { registry = (get_definition c.version conn.registry).1 }))
  unfolding send_handshake protocol server_hostname write port_of
  handshake_written addr def conn a found = elim (Bool-cases (bytes_eq c.server_hostname [])) [
    | inl no_name ↦ rw (found, no_name, a) refl
    | inr name ↦ rw (found, name, a) refl
  ]

  send_handshake-Done :
      (talk : Talk) (addr : Address) (def : Definition) (conn : Conn)
      → c.addr ≡ some addr
      → (get_definition c.version protocol_registry).0 ≡ some def
      → CanSend lib moment c.version handshaking unset (handshake c addr def)
      → Speaks c.version handshaking unset talk conn
      → Done lib moment c unset handshaking
          (then_sent (frame lib moment c.version handshaking unset (handshake c addr def)) talk)
          tt
          (wrapping handshake_failed (send_handshake lib moment login) (on lib moment c unset conn))
  unfolding send_handshake protocol server_hostname write
  send_handshake-Done talk addr def conn a d can h =
      let conn' : Conn = record conn { registry = (get_definition c.version conn.registry).1 } in
      let found : (get_definition c.version conn.registry).0 ≡ some def =
        h.registry c.version ∙ d in
      let w =
        write-Done lib moment c unset handshake_failed handshaking talk (handshake c addr def) conn'
          can
          (record {
            version = h.version;
            state = h.state;
            threshold = h.threshold;
            input = h.input;
            output = h.output;
            registry = get_definition-Extends c.version conn.registry h.registry;
          }) in
      record {
        conn = w.conn;
        result =
            ap (λ o. (wrap_outcome handshake_failed o.0, o.1))
              (handshake_written addr def conn a found)
            ∙ w.result;
        speaks = w.speaks;
      }

  send_login-Done :
      (talk : Talk) (conn : Conn)
      → bytes_eq c.username [] ≡ false
      → CanSend lib moment c.version login unset (login_start lib c)
      → Speaks c.version login unset talk conn
      → Done lib moment c unset login
          (then_sent (frame lib moment c.version login unset (login_start lib c)) talk)
          tt
          (wrapping handshake_failed
            (send_login lib moment c.username c.unique_id)
            (on lib moment c unset conn))
  unfolding send_login write
  send_login-Done talk conn named can h =
      let w =
        write-Done lib moment c unset handshake_failed login talk (login_start lib c) conn can h in
      record { conn = w.conn; result = rw named w.result; speaks = w.speaks }

  new_conn-Speaks :
      (bs : Bytes) (e : Error)
      → Extends c.registry
      → Speaks c.version handshaking unset
          (coming bs e [])
          (new_conn (record { rest = bs; at_end = e }) (buffer []) c.version c.registry)
  unfolding new_conn
  new_conn-Speaks bs e x = record {
    version = refl;
    state = refl;
    threshold = refl;
    input = refl;
    output = refl;
    registry = x;
  }

  connected :
      (input : Reader) (output : Writer)
      → c.conn ≡ none
      → connect (ok (input, output)) c
        ≡ (ok tt, on lib moment c unset (new_conn input output c.version c.registry))
  unfolding connect close
  connected input output h = rw h refl

  -- Join of a client of 1.20.2 or later that has no connection, at a server that speaks the protocol:
  -- SetCompression any number of times, LoginSuccess, then in the configuration frames that open to the
  -- packets `ps`, the last one FinishConfiguration. With a round of fuel for every packet Join returns
  -- nil, the connection in the play state, and what the server sent behind it left to read. What the
  -- client sent is the handshake and LoginStart, uncompressed, and at the last threshold
  -- LoginAcknowledged, its settings, and its answers to `ps` in their order.
  pub join-Configured :
      (addr : Address) (def : Definition) (t : ℤ) (n fuel : ℕ) (ps : List (Option Packet))
      (bs more : Bytes) (e : Error)
      → c.conn ≡ none
      → Extends c.registry
      → c.addr ≡ some addr
      → (get_definition c.version protocol_registry).0 ≡ some def
      → leb v1_20_2 c.version ≡ true
      → bytes_eq c.username [] ≡ false
      → length c.brand < 2 ^ 32
      → LogsIn lib c.version more ps t n unset bs
      → n ≤ fuel
      → length ps ≤ fuel
      → CanSend lib moment c.version handshaking unset (handshake c addr def)
      → CanSend lib moment c.version login unset (login_start lib c)
      → CanSend lib moment c.version login t serverbound_login_acknowledged
      → CanReply lib moment c t
          (serverbound_client_settings c.settings ∷ answers c.version c.brand ps)
      → Configured lib moment c t more
          (greeting addr def ++ acknowledgement lib moment c t ps)
          e
          (join lib moment fuel (ok (record { rest = bs; at_end = e }, buffer [])) c)
  unfolding join
  join-Configured addr def t n fuel ps bs more e h x a d new named brand s l k can_shake can_start
        can_ack can =
      let shake = frame lib moment c.version handshaking unset (handshake c addr def) in
      let d1 =
        send_handshake-Done (coming bs e []) addr def
          (new_conn (record { rest = bs; at_end = e }) (buffer []) c.version c.registry) a d
          can_shake (new_conn-Speaks bs e x) in
      let d2 =
        set_state-Done lib moment c unset handshaking login (coming bs e shake) d1.conn d1.speaks in
      let d3 = send_login-Done (coming bs e shake) d2.conn named can_start d2.speaks in
      let r =
        login-Configured lib moment c more ps e brand new n unset t bs (greeting addr def) fuel fuel
          d3.conn s l k can_ack can d3.speaks in
      let rounds = loop fuel (login_round lib moment fuel) in
      let start =
        once (λ c. wrapping handshake_failed (send_login lib moment c.username c.unique_id) c) in
      record {
        conn = r.conn;
        result =
            run_then-ok
              (λ _.
                once (wrapping handshake_failed (send_handshake lib moment login))
                >> (once (set_state login) >> (start >> rounds)))
              (connected (record { rest = bs; at_end = e }) (buffer []) h)
            ∙ run_then-ok (λ _. once (set_state login) >> (start >> rounds)) d1.result
            ∙ run_then-ok (λ _. start >> rounds) d2.result
            ∙ run_then-ok (λ _. rounds) d3.result
            ∙ r.result;
        speaks = r.speaks;
      }
