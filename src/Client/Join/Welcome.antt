-- ===== src/Client/Join/Welcome.antt =====
-- Join with a server that speaks the protocol: from the handshake to the play state.
use gophermc.Base.{
  ℕ, zero, suc, ◌<◌, ◌≤◌, ◌^◌, ◌≡◌, refl, ◌∙◌, true, Option, some, List, ◌∷◌, ◌++◌, length, leb,
  arith, append_assoc,
}
use gophermc.Base.Int.{ℤ, signed32}
use gophermc.Base.Outcome.{Error, ok, login_acknowledged_failed}
use gophermc.Client.{Client, read, set_state}
use gophermc.Client.Join.{
  login_packet, login_round, after_login, handle_configuration, set_compression,
}
use gophermc.Client.Join.Configured.{Serves, answers, Configured, handle_configuration-Configured}
use gophermc.Client.Join.Dialogue.{frames, CanReply, on, write-Done, set_state-Done}
use gophermc.Client.Join.Speaks.{Talk, Speaks, frame, CanSend, answered}
use gophermc.Client.Join.Exchange.{Answered, coming, read_packet-Answered, known-Answered}
use gophermc.Client.Loop.Rule.{run_then-ok, loop-again, loop-finished}
use gophermc.Client.Loop.{◌>>◌, again, finished, loop, once}
use gophermc.Conn.{Conn, read_packet, new_conn}
use gophermc.Client.Join.Opens.{Opens}
use gophermc.Packets.{
  Packet, Library, Moment, clientbound_set_compression, clientbound_login_success,
  serverbound_login_acknowledged, serverbound_client_settings,
}
use gophermc.Types.{login, configuration}
use gophermc.Versions.{Version, v1_20_2}
use gophermc.Wire.Stream.{Bytes}

-- What a server sends in the login, from the threshold `t` on: SetCompression any number of times,
-- LoginSuccess, and what it serves in the configuration, at the last threshold `t'`.
pub data LogsIn (lib : Library) (v : Version) (more : Bytes) (ps : List (Option Packet)) (t' : ℤ)
    : ℕ → ℤ → Bytes → Type 0 where
  compresses :
      (n : ℕ) (t : ℤ) (id threshold : ℕ) (fields whole bs : Bytes)
      → Opens lib t whole id fields
      → answered lib v login id fields ≡ ok (clientbound_set_compression threshold)
      → LogsIn lib v more ps t' n (signed32 threshold) bs
      → LogsIn lib v more ps t' (suc n) t (whole ++ bs)
  succeeds :
      (id : ℕ) (fields whole uuid name bs : Bytes)
      → Opens lib t' whole id fields
      → answered lib v login id fields ≡ ok (clientbound_login_success uuid name)
      → Serves lib v t' more ps bs
      → LogsIn lib v more ps t' 1 t' (whole ++ bs)

module _ (lib : Library) (moment : Moment) (c : Client) where
  -- The client's bytes behind LoginSuccess.
  abbrev pub acknowledgement : ℤ → List (Option Packet) → Bytes
  acknowledgement t ps =
      frame lib moment c.version login t serverbound_login_acknowledged
      ++ frames lib moment c t
          (serverbound_client_settings c.settings ∷ answers c.version c.brand ps)

  round-read :
      (t : ℤ) (talk : Talk) (p : Packet) (fuel : ℕ) (conn : Conn)
      → (r : Answered c.version login t talk (ok p) (read_packet lib conn))
      → login_round lib moment fuel (on lib moment c t conn)
        ≡ login_packet lib moment fuel p (on lib moment c t r.conn)
  unfolding login_round read
  round-read t talk p fuel conn r = rw r.result refl

  compressed :
      (t : ℤ) (threshold fuel : ℕ) (conn : Conn)
      → login_packet lib moment fuel
          (clientbound_set_compression threshold)
          (on lib moment c t conn)
        ≡ some (ok again, on lib moment c t (record conn { threshold = signed32 threshold }))
  unfolding login_packet set_compression gophermc.Conn.set_compression
  compressed t threshold fuel conn = refl

  logged_in :
      (uuid name : Bytes) (fuel : ℕ) (c' c'' : Client)
      → after_login lib moment fuel c' ≡ some (ok tt, c'')
      → login_packet lib moment fuel (clientbound_login_success uuid name) c'
        ≡ some (ok finished, c'')
  unfolding login_packet
  logged_in uuid name fuel c' c'' e = rw e refl

  module _ (more : Bytes) (ps : List (Option Packet)) (e : Error)
      (short_brand : length c.brand < 2 ^ 32) (new : leb v1_20_2 c.version ≡ true) where
    after_login-Configured :
        (t : ℤ) (bs sent : Bytes) (fuel : ℕ) (conn : Conn)
        → Serves lib c.version t more ps bs
        → length ps ≤ fuel
        → CanSend lib moment c.version login t serverbound_login_acknowledged
        → CanReply lib moment c t
            (serverbound_client_settings c.settings ∷ answers c.version c.brand ps)
        → Speaks c.version login t (coming bs e sent) conn
        → Configured lib moment c t more
            (sent ++ acknowledgement t ps)
            e
            (after_login lib moment fuel (on lib moment c t conn))
    unfolding after_login
    after_login-Configured t bs sent fuel conn s l ack can h =
        let a =
          write-Done lib moment c t login_acknowledged_failed login (coming bs e sent)
            serverbound_login_acknowledged conn ack h in
        let b =
          set_state-Done lib moment c t login configuration
            (coming bs e
              (sent ++ frame lib moment c.version login t serverbound_login_acknowledged))
            a.conn a.speaks in
        let n =
          handle_configuration-Configured lib moment c t more e short_brand ps bs
            (sent ++ frame lib moment c.version login t serverbound_login_acknowledged) fuel b.conn
            s l can b.speaks in
        record {
          conn = n.conn;
          result = rw new (
              run_then-ok
                (λ _. once (set_state configuration) >> handle_configuration lib moment fuel)
                a.result
              ∙ run_then-ok (λ _. handle_configuration lib moment fuel) b.result
              ∙ n.result);
          speaks = rw (← append_assoc) n.speaks;
        }

    pub login-Configured :
        (n : ℕ) (t t' : ℤ) (bs sent : Bytes) (rounds fuel : ℕ) (conn : Conn)
        → LogsIn lib c.version more ps t' n t bs
        → n ≤ rounds
        → length ps ≤ fuel
        → CanSend lib moment c.version login t' serverbound_login_acknowledged
        → CanReply lib moment c t'
            (serverbound_client_settings c.settings ∷ answers c.version c.brand ps)
        → Speaks c.version login t (coming bs e sent) conn
        → Configured lib moment c t' more
            (sent ++ acknowledgement t' ps)
            e
            (loop rounds (login_round lib moment fuel) (on lib moment c t conn))
    login-Configured _ t t' _ sent zero fuel conn
          (compresses n _ id threshold fields whole bs f a s) k l ack can h =
        absurd (omega arith)
    login-Configured _ t _ _ sent zero fuel conn (succeeds id fields whole uuid name bs f a s) k l
          ack can h =
        absurd (omega arith)
    login-Configured _ t t' _ sent (suc rounds) fuel conn
          (compresses n _ id threshold fields whole bs f a s) k l ack can h =
        let r : Answered c.version login t (coming bs e sent)
            (ok (clientbound_set_compression threshold)) (read_packet lib conn) =
          known-Answered a
            (read_packet-Answered lib c.version login t id fields whole bs sent e conn f h) in
        let conn' : Conn = record r.conn { threshold = signed32 threshold } in
        let n =
          login-Configured n (signed32 threshold) t' bs sent rounds fuel conn' s (omega arith) l ack
            can
            (record {
              version = r.speaks.version;
              state = r.speaks.state;
              threshold = refl;
              input = r.speaks.input;
              output = r.speaks.output;
              registry = r.speaks.registry;
            }) in
        record {
          conn = n.conn;
          result =
              loop-again (login_round lib moment fuel) rounds (
                round-read t (coming bs e sent) (clientbound_set_compression threshold) fuel conn r
                ∙ compressed t threshold fuel r.conn)
              ∙ n.result;
          speaks = n.speaks;
        }
    login-Configured _ t _ _ sent (suc rounds) fuel conn
          (succeeds id fields whole uuid name bs f a s) k l ack can h =
        let r : Answered c.version login t (coming bs e sent)
            (ok (clientbound_login_success uuid name)) (read_packet lib conn) =
          known-Answered a
            (read_packet-Answered lib c.version login t id fields whole bs sent e conn f h) in
        let n = after_login-Configured t bs sent fuel r.conn s l ack can r.speaks in
        record {
          conn = n.conn;
          result = loop-finished (login_round lib moment fuel) rounds (
              round-read t (coming bs e sent) (clientbound_login_success uuid name) fuel conn r
              ∙ logged_in uuid name fuel (on lib moment c t r.conn) (on lib moment c t n.conn)
                  n.result);
          speaks = n.speaks;
        }
