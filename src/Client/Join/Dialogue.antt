-- ===== src/Client/Join/Dialogue.antt =====
-- The configuration with a server that speaks the protocol: what handleConfiguration answers to one
-- packet.
use gophermc.Base.{
  ◌<◌, ◌^◌, ◌≡◌, refl, ap, true, false, some, List, [], ◌∷◌, ◌++◌, length, All, leb, ltb,
  Bool-cases, inl, inr, append_assoc, append-nil,
}
use gophermc.Base.Int.{ℤ}
use gophermc.Base.Outcome.{
  Outcome, ok, Context, wrapping, known_packs_failed, finish_for_21_failed, finish_failed,
  config_keep_alive_failed, brand_failed, cookie_failed, and_then,
}
use gophermc.Client.{Client, write, set_state}
use gophermc.Client.Join.{
  config_packet, answer_known_packs, answer_finish, brand_channel, brand_payload, answer,
}
use gophermc.Client.Join.Replies.{replies, goes_on}
use gophermc.Client.Join.Speaks.{Talk, Speaks, frame, CanSend}
use gophermc.Client.Join.Exchange.{then_sent, write_packet-Sent}
use gophermc.Client.Loop.{Round, again, finished}
use gophermc.Conn.{Conn}
use gophermc.Packets.{
  Packet, Library, Moment, clientbound_config_keep_alive, clientbound_custom_payload,
  clientbound_select_known_packs, clientbound_finish_configuration, clientbound_disconnect,
  clientbound_cookie_request, serverbound_config_keep_alive, serverbound_cookie_response,
  serverbound_custom_payload, serverbound_select_known_packs, serverbound_finish_configuration,
}
use gophermc.Packets.Encode.{bytes_eq}
use gophermc.Types.{State, KnownPack, configuration, play}
use gophermc.Versions.{v1_21_3}
use gophermc.Wire.Fields.RoundTrip.{string_bytes, Fills-write_string}
use gophermc.Wire.Stream.{Bytes}

module _ (lib : Library) (moment : Moment) (c : Client) (t : ℤ) where
  abbrev pub frames : List Packet → Bytes
  frames [] = []
  frames (q ∷ qs) = frame lib moment c.version configuration t q ++ frames qs

  abbrev pub CanReply : List Packet → Type 0
  CanReply qs = All (CanSend lib moment c.version configuration t) qs

  abbrev pub on : Conn → Client
  on conn = record c { conn = some conn }

  -- An action on the connection that answers `a`, and leaves the client but for its connection.
  pub record Done {A : Type 0} (s : State) (talk : Talk) (a : A) (o : Outcome A × Client)
      : Type 0 where
    pub conn : Conn
    pub result : o ≡ (ok a, on conn)
    pub speaks : Speaks c.version s t talk conn

  pub write-Done :
      (x : Context) (s : State) (talk : Talk) (q : Packet) (conn : Conn)
      → CanSend lib moment c.version s t q
      → Speaks c.version s t talk conn
      → Done s
          (then_sent (frame lib moment c.version s t q) talk)
          tt
          (wrapping x (write lib moment q) (on conn))
  unfolding write
  write-Done x s talk q conn can h =
      let w = write_packet-Sent lib moment c.version s t talk q conn can h in
      record { conn = w.conn; result = rw w.result refl; speaks = w.speaks }

  pub set_state-Done :
      (from s : State) (talk : Talk) (conn : Conn)
      → Speaks c.version from t talk conn
      → Done s talk tt (set_state s (on conn))
  unfolding set_state gophermc.Conn.set_state
  set_state-Done from s talk conn h = record {
    conn = record conn { state = s };
    result = refl;
    speaks = record {
      version = h.version;
      state = refl;
      threshold = h.threshold;
      input = h.input;
      output = h.output;
      registry = h.registry;
    };
  }

  Done-then :
      {A : Type 0} {s s' : State} {talk talk' : Talk} {a : A} (o : Outcome (Unit {0}) × Client)
      (k : Client → Outcome A × Client)
      → Done s talk tt o
      → ((conn : Conn) → Speaks c.version s t talk conn → Done s' talk' a (k (on conn)))
      → Done s' talk' a (and_then o (λ _. k))
  Done-then o k d next =
      let n = next d.conn d.speaks in
      record { conn = n.conn; result = rw d.result n.result; speaks = n.speaks }

  answer-Done :
      {s : State} {talk : Talk} (r : Round) (o : Outcome (Unit {0}) × Client)
      → Done s talk tt o
      → Done s talk r (and_then o (λ _ c'. (ok r, c')))
  answer-Done r o d = record { conn = d.conn; result = rw d.result refl; speaks = d.speaks }

  reply-Done :
      (x : Context) (talk : Talk) (q : Packet) (r : Round) (conn : Conn)
      → CanReply (q ∷ [])
      → Speaks c.version configuration t talk conn
      → Done configuration
          (then_sent (frames (q ∷ [])) talk)
          r
          (answer (wrapping x (write lib moment q)) r (on conn))
  reply-Done x talk q r conn can h = rw append-nil (
      answer-Done r (wrapping x (write lib moment q) (on conn))
        (write-Done x configuration talk q conn can.0 h))

  -- Two packets, one after the other.
  pair-Done :
      (x y : Context) (talk : Talk) (p q : Packet) (conn : Conn)
      → CanReply (p ∷ q ∷ [])
      → Speaks c.version configuration t talk conn
      → Done configuration (then_sent (frames (p ∷ q ∷ [])) talk) tt (
          and_then
            (wrapping x (write lib moment p) (on conn))
            (λ _. wrapping y (write lib moment q)))
  pair-Done x y talk p q conn can h =
      rw (append-nil, ← append_assoc)
        (Done-then (wrapping x (write lib moment p) (on conn)) (wrapping y (write lib moment q))
          (write-Done x configuration talk p conn can.0 h)
          (λ conn' h'.
            write-Done y configuration
              (then_sent (frame lib moment c.version configuration t p) talk) q conn' can.1.0 h'))

  nothing-Done :
      (s : State) (talk : Talk) (r : Round) (conn : Conn)
      → Speaks c.version s t talk conn
      → Done s (then_sent [] talk) r (ok r, on conn)
  nothing-Done s talk r conn h = rw append-nil (record { conn = conn; result = refl; speaks = h })

  known_packs-Done :
      (talk : Talk) (packs : List KnownPack) (conn : Conn)
      → CanReply (replies c.version c.brand (clientbound_select_known_packs packs))
      → Speaks c.version configuration t talk conn
      → Done configuration
          (then_sent
            (frames (replies c.version c.brand (clientbound_select_known_packs packs)))
            talk)
          tt
          (answer_known_packs lib moment c.version (on conn))
  unfolding replies answer_known_packs
  known_packs-Done talk packs conn can h = elim (Bool-cases (leb v1_21_3 c.version)) [
    | inl new ↦ rw new (
        pair-Done known_packs_failed finish_for_21_failed talk (serverbound_select_known_packs [])
          serverbound_finish_configuration conn (rw new at can) h)
    | inr old ↦ rw old (
        rw append-nil (
          Done-then
            (wrapping known_packs_failed (write lib moment (serverbound_select_known_packs []))
              (on conn))
            (λ c'. (ok tt, c'))
            (write-Done known_packs_failed configuration talk (serverbound_select_known_packs [])
              conn (rw old at can).0 h)
            (λ conn' h'. record { conn = conn'; result = refl; speaks = h' })))
  ]

  pub finish-Done :
      (talk : Talk) (conn : Conn)
      → CanReply (replies c.version c.brand clientbound_finish_configuration)
      → Speaks c.version configuration t talk conn
      → Done play
          (then_sent (frames (replies c.version c.brand clientbound_finish_configuration)) talk)
          finished
          (config_packet lib moment clientbound_finish_configuration (on conn))
  unfolding replies config_packet answer_finish
  finish-Done talk conn can h = elim (Bool-cases (ltb c.version v1_21_3)) [
    | inl old ↦ rw old (
        rw append-nil (
          answer-Done finished _ (
            Done-then
              (wrapping finish_failed (write lib moment serverbound_finish_configuration) (on conn))
              (set_state play)
              (write-Done finish_failed configuration talk serverbound_finish_configuration conn
                (rw old at can).0 h)
              (λ conn' h'.
                set_state-Done configuration play
                  (then_sent
                    (frame lib moment c.version configuration t serverbound_finish_configuration)
                    talk)
                  conn' h'))))
    | inr new ↦
        rw new
          (rw append-nil (answer-Done finished _ (set_state-Done configuration play talk conn h)))
  ]

  module _ (short_brand : length c.brand < 2 ^ 32) where
    brand_payload-string : brand_payload c.brand ≡ string_bytes c.brand
    unfolding brand_payload
    brand_payload-string = ap (λ o. o.1.written) ((Fills-write_string c.brand short_brand).run [])

    pub config_packet-Done :
        (talk : Talk) (p : Packet) (conn : Conn)
        → goes_on p ≡ true
        → CanReply (replies c.version c.brand p)
        → Speaks c.version configuration t talk conn
        → Done configuration
            (then_sent (frames (replies c.version c.brand p)) talk)
            again
            (config_packet lib moment p (on conn))
    unfolding replies config_packet goes_on
    config_packet-Done talk (clientbound_config_keep_alive id) conn g can h =
        reply-Done config_keep_alive_failed talk (serverbound_config_keep_alive id) again conn can h
    config_packet-Done talk (clientbound_custom_payload channel payload) conn g can h =
        elim (Bool-cases (bytes_eq channel brand_channel)) [
          | inl brand ↦
              rw (brand, brand_payload-string)
                (reply-Done brand_failed talk
                  (serverbound_custom_payload brand_channel (string_bytes c.brand)) again conn
                  (rw brand at can) h)
          | inr other ↦ rw other (nothing-Done configuration talk again conn h)
        ]
    config_packet-Done talk (clientbound_select_known_packs packs) conn g can h =
        answer-Done again (answer_known_packs lib moment c.version (on conn))
          (known_packs-Done talk packs conn can h)
    config_packet-Done talk clientbound_finish_configuration conn g can h = cc
    config_packet-Done talk (clientbound_disconnect reason) conn g can h = cc
    config_packet-Done talk (clientbound_cookie_request key) conn g can h =
        reply-Done cookie_failed talk (serverbound_cookie_response key false []) again conn can h
    config_packet-Done talk _ conn g can h = nothing-Done configuration talk again conn h
