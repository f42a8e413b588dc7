-- ===== src/Client/Join/Configured.antt =====
-- handleConfiguration with a server that speaks the protocol.
use gophermc.Base.{
  ℕ, zero, suc, ◌<◌, ◌≤◌, ◌^◌, ◌≡◌, refl, ap, ◌∙◌, true, Option, none, some, List, [], ◌∷◌, ◌++◌,
  length, All, arith, append_assoc, append-nil,
}
use gophermc.Base.Int.{ℤ}
use gophermc.Base.Outcome.{Outcome, Error, ok, err, is_unknown_packet, settings_in_config}
use gophermc.Client.{Client, read, send_client_settings}
use gophermc.Client.Join.{config_packet, config_read, config_round, handle_configuration}
use gophermc.Client.Join.Dialogue.{
  frames, CanReply, on, write-Done, finish-Done, config_packet-Done,
}
use gophermc.Client.Join.Replies.{replies, goes_on}
use gophermc.Client.Join.Speaks.{Talk, Speaks, frame, CanSend, answered}
use gophermc.Client.Join.Exchange.{Answered, coming, read_packet-Answered, known-Answered}
use gophermc.Client.Loop.Rule.{loop-again, loop-finished}
use gophermc.Client.Loop.{again, loop, once}
use gophermc.Conn.{Conn, read_packet}
use gophermc.Client.Join.Opens.{Opens}
use gophermc.Packets.{
  Packet, Library, Moment, clientbound_finish_configuration, serverbound_client_settings,
}
use gophermc.Types.{configuration, play}
use gophermc.Versions.{Version}
use gophermc.Wire.Stream.{Bytes}

-- What a server sends in the configuration: frames that ReadPacket opens to the given packets (`none`
-- for one that it does not know), FinishConfiguration last, and `more` behind it.
pub data Serves (lib : Library) (v : Version) (t : ℤ) (more : Bytes)
    : List (Option Packet) → Bytes → Type 0 where
  finishes :
      (id : ℕ) (fields whole : Bytes)
      → Opens lib t whole id fields
      → answered lib v configuration id fields ≡ ok clientbound_finish_configuration
      → Serves lib v t more (some clientbound_finish_configuration ∷ []) (whole ++ more)
  sends :
      (id : ℕ) (fields whole : Bytes) (p : Packet) (ps : List (Option Packet)) (bs : Bytes)
      → Opens lib t whole id fields
      → answered lib v configuration id fields ≡ ok p
      → goes_on p ≡ true
      → Serves lib v t more ps bs
      → Serves lib v t more (some p ∷ ps) (whole ++ bs)
  sends_unknown :
      (id : ℕ) (fields whole : Bytes) (e : Error) (ps : List (Option Packet)) (bs : Bytes)
      → Opens lib t whole id fields
      → answered lib v configuration id fields ≡ err e
      → is_unknown_packet e ≡ true
      → Serves lib v t more ps bs
      → Serves lib v t more (none ∷ ps) (whole ++ bs)

-- The client's answers to what comes.
abbrev pub answers : Version → Bytes → List (Option Packet) → List Packet
answers v brand [] = []
answers v brand (none ∷ ps) = answers v brand ps
answers v brand (some p ∷ ps) = replies v brand p ++ answers v brand ps

All-append : {A : Type 0} (P : A → Type 0) (xs ys : List A) → All P (xs ++ ys) → All P xs × All P ys
All-append P [] ys h = (tt, h)
All-append P (x ∷ xs) ys h = let (front, back) = All-append P xs ys h.1 in ((h.0, front), back)

module _ (lib : Library) (moment : Moment) (c : Client) (t : ℤ) where
  frames-append :
      (ps qs : List Packet)
      → frames lib moment c t (ps ++ qs) ≡ frames lib moment c t ps ++ frames lib moment c t qs
  frames-append [] qs = refl
  frames-append (p ∷ ps) qs = rw (frames-append ps qs, append_assoc) refl

  -- It ends in the play state, the given bytes sent, and `more` left to read.
  pub record Configured (more sent : Bytes) (e : Error) (o : Option (Outcome (Unit {0}) × Client))
      : Type 0 where
    pub conn : Conn
    pub result : o ≡ some (ok tt, on lib moment c t conn)
    pub speaks : Speaks c.version play t (coming more e sent) conn

  Served : (more : Bytes) → List (Option Packet) → Bytes → Type 0
  Served more ps bs = Serves lib c.version t more ps bs

  round-packet :
      (talk : Talk) (p : Packet) (conn : Conn)
      → (r : Answered c.version configuration t talk (ok p) (read_packet lib conn))
      → config_round lib moment (on lib moment c t conn)
        ≡ config_packet lib moment p (on lib moment c t r.conn)
  unfolding config_round config_read read
  round-packet talk p conn r = rw r.result refl

  round-unknown :
      (talk : Talk) (x : Error) (conn : Conn)
      → is_unknown_packet x ≡ true
      → (r : Answered c.version configuration t talk (err x) (read_packet lib conn))
      → config_round lib moment (on lib moment c t conn) ≡ (ok again, on lib moment c t r.conn)
  unfolding config_round config_read read
  round-unknown talk x conn u r = rw (r.result, u) refl

  module _ (more : Bytes) (e : Error) (short_brand : length c.brand < 2 ^ 32) where
    loop-Configured :
        (ps : List (Option Packet)) (bs sent : Bytes) (fuel : ℕ) (conn : Conn)
        → Serves lib c.version t more ps bs
        → length ps ≤ fuel
        → CanReply lib moment c t (answers c.version c.brand ps)
        → Speaks c.version configuration t (coming bs e sent) conn
        → Configured more
            (sent ++ frames lib moment c t (answers c.version c.brand ps))
            e
            (loop fuel (once (config_round lib moment)) (on lib moment c t conn))
    loop-Configured _ _ sent zero conn (finishes id fields whole f a) l can h = absurd (omega arith)
    loop-Configured _ _ sent zero conn (sends id fields whole p ps bs f a g s) l can h =
        absurd (omega arith)
    loop-Configured _ _ sent zero conn (sends_unknown id fields whole x ps bs f a u s) l can h =
        absurd (omega arith)
    loop-Configured _ _ sent (suc fuel) conn (finishes id fields whole f a) l can h =
        let r : Answered c.version configuration t (coming more e sent)
            (ok clientbound_finish_configuration) (read_packet lib conn) =
          known-Answered a (
            read_packet-Answered lib c.version configuration t id fields whole more sent e conn f
              h) in
        let d =
          finish-Done lib moment c t (coming more e sent) r.conn (rw append-nil at can) r.speaks in
        record {
          conn = d.conn;
          result = loop-finished (once (config_round lib moment)) fuel (
              ap some (
                round-packet (coming more e sent) clientbound_finish_configuration conn r
                ∙ d.result));
          speaks = rw append-nil d.speaks;
        }
    loop-Configured _ _ sent (suc fuel) conn (sends id fields whole p ps bs f a g s) l can h =
        let r : Answered c.version configuration t (coming bs e sent) (ok p)
            (read_packet lib conn) =
          known-Answered a (
            read_packet-Answered lib c.version configuration t id fields whole bs sent e conn f
              h) in
        let (now, later) =
          All-append (CanSend lib moment c.version configuration t) (replies c.version c.brand p)
            (answers c.version c.brand ps) can in
        let d =
          config_packet-Done lib moment c t short_brand (coming bs e sent) p r.conn g now
            r.speaks in
        let n =
          loop-Configured ps bs (sent ++ frames lib moment c t (replies c.version c.brand p)) fuel
            d.conn s (omega arith) later d.speaks in
        record {
          conn = n.conn;
          result =
              loop-again (once (config_round lib moment)) fuel
                (ap some (round-packet (coming bs e sent) p conn r ∙ d.result))
              ∙ n.result;
          speaks = rw (frames-append, ← append_assoc) n.speaks;
        }
    loop-Configured _ _ sent (suc fuel) conn (sends_unknown id fields whole x ps bs f a u s) l can
          h =
        let r : Answered c.version configuration t (coming bs e sent) (err x)
            (read_packet lib conn) =
          known-Answered a (
            read_packet-Answered lib c.version configuration t id fields whole bs sent e conn f
              h) in
        let n = loop-Configured ps bs sent fuel r.conn s (omega arith) can r.speaks in
        record {
          conn = n.conn;
          result =
              loop-again (once (config_round lib moment)) fuel
                (ap some (round-unknown (coming bs e sent) x conn u r))
              ∙ n.result;
          speaks = n.speaks;
        }

    -- In the configuration state, with a server whose frames open to the packets `ps`, FinishConfiguration
    -- last: handleConfiguration returns nil, a round for each packet being fuel enough. The client sent
    -- its settings and then its answers, in the order of the packets and each in one frame; it is in
    -- the play state, and what the server sent behind FinishConfiguration is left to read.
    pub handle_configuration-Configured :
        (ps : List (Option Packet)) (bs sent : Bytes) (fuel : ℕ) (conn : Conn)
        → Serves lib c.version t more ps bs
        → length ps ≤ fuel
        → CanReply lib moment c t
            (serverbound_client_settings c.settings ∷ answers c.version c.brand ps)
        → Speaks c.version configuration t (coming bs e sent) conn
        → Configured more
            (sent
              ++ frames lib moment c t
                  (serverbound_client_settings c.settings ∷ answers c.version c.brand ps))
            e
            (handle_configuration lib moment fuel (on lib moment c t conn))
    unfolding handle_configuration send_client_settings
    handle_configuration-Configured ps bs sent fuel conn s l can h =
        let d =
          write-Done lib moment c t settings_in_config configuration (coming bs e sent)
            (serverbound_client_settings c.settings) conn can.0 h in
        let n =
          loop-Configured ps bs
            (sent
              ++ frame lib moment c.version configuration t
                  (serverbound_client_settings c.settings))
            fuel d.conn s l can.1 d.speaks in
        record {
          conn = n.conn;
          result = rw d.result n.result;
          speaks = rw (← append_assoc) n.speaks;
        }
