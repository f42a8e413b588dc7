-- ===== src/Client/Join/Success.antt =====
-- At a server that speaks the protocol, the configuration and Join succeed.
use gophermc.Base.{
  ℕ, ◌<◌, ◌≤◌, ◌^◌, ◌%◌, ◌≡◌, refl, true, false, Option, none, some, List, [], ◌∷◌, ◌++◌, length,
  All, all, ltb, le→leb, arith,
}
use gophermc.Base.Int.{ℤ, signed32}
use gophermc.Base.Outcome.{Error, ok}
use gophermc.Client.{Client, Address, login_uuid}
use gophermc.Client.Join.{handle_configuration, join}
use gophermc.Client.Join.Arrival.{hostname, greeting, unset, join-Configured}
use gophermc.Client.Join.Configured.{Serves, answers, Configured, handle_configuration-Configured}
use gophermc.Client.Join.Dialogue.{frames, on}
use gophermc.Client.Join.Encodings.{Moderate}
use gophermc.Client.Join.Sendable.{
  HasShortKey, answers-CanSend, settings-CanSend, acknowledged-CanSend, handshake-CanSend,
  login_start-CanSend,
}
use gophermc.Client.Join.Sizes.{IsModest}
use gophermc.Client.Join.Speaks.{Speaks}
use gophermc.Client.Join.Exchange.{coming}
use gophermc.Client.Join.Welcome.{LogsIn, compresses, succeeds, acknowledgement}
use gophermc.Registry.Cache.{Extends}
use gophermc.Conn.{Conn}
use gophermc.Packets.{Packet, Library, Moment, serverbound_client_settings}
use gophermc.Packets.Encode.{bytes_eq}
use gophermc.Registry.Consistency.{get_definition_checked}
use gophermc.Registry.Definitions.{Definition}
use gophermc.Registry.{get_definition}
use gophermc.Registry.Tables.{protocol_registry}
use gophermc.Types.{configuration, login}
use gophermc.Versions.{Version, latest, v1_20_2}
use gophermc.Wire.Stream.{Bytes, buffer}

protocol_versions_small :
    all (λ (v, def). ltb def.protocol_version (2 ^ 32)) protocol_registry ≡ true
unfolding protocol_registry
protocol_versions_small = refl

served :
    (lib : Library) (v : Version) (t : ℤ) (more : Bytes) (ps : List (Option Packet)) (n : ℕ) (u : ℤ)
    (bs : Bytes)
    → LogsIn lib v more ps t n u bs
    → (rest : Bytes) × Serves lib v t more ps rest
served lib v t more ps _ _ _ (compresses n u id threshold fields whole bs f a s) =
    served lib v t more ps n (signed32 threshold) bs s
served lib v t more ps _ _ _ (succeeds id fields whole uuid name bs f a s) = (bs, s)

module _ (lib : Library) (moment : Moment) (modest : IsModest lib) (c : Client)
    (new : v1_20_2 ≤ c.version) (supported : c.version ≤ latest)
    (short_brand : length c.brand < 2 ^ 16) (moderate : Moderate c.settings) where
  -- handleConfiguration of a known version from 1.20.2 on succeeds at a server that speaks the protocol.
  -- The client's brand and settings are of moderate length; deflating does not blow up short data. The
  -- connection is in the configuration state, and the server's frames, however their lengths are
  -- encoded and their bodies deflated, open to the packets `ps` (`none` for an unknown one),
  -- FinishConfiguration last, with keys of moderate length in its cookie requests. Then, with a round of
  -- fuel for each packet, handleConfiguration returns nil. The client sent its settings and then its
  -- answers, in the order of the packets and each in one frame; it is in the play state, and what the
  -- server sent behind FinishConfiguration is left to read.
  pub configuration_succeeds :
      (t : ℤ) (fuel : ℕ) (ps : List (Option Packet)) (bs more sent : Bytes) (e : Error)
      (conn : Conn)
      → Serves lib c.version t more ps bs
      → All HasShortKey ps
      → length ps ≤ fuel
      → Speaks c.version configuration t (coming bs e sent) conn
      → Configured lib moment c t more
          (sent
            ++ frames lib moment c t
                (serverbound_client_settings c.settings ∷ answers c.version c.brand ps))
          e
          (handle_configuration lib moment fuel (on lib moment c t conn))
  configuration_succeeds t fuel ps bs more sent e conn s k l h =
      handle_configuration-Configured lib moment c t more e (omega arith) ps bs sent fuel conn s l
        (
          settings-CanSend lib moment c.version modest supported t c.settings new moderate,
          answers-CanSend lib moment c.version modest supported c.brand short_brand t more ps bs s
              k,
        )
        h

  -- Join of a known version from 1.20.2 on succeeds at a server that speaks the protocol. The client has
  -- no connection, an address and a name that is not empty; its texts and settings are of moderate
  -- length; deflating does not blow up short data. The server sends SetCompression any number of times,
  -- LoginSuccess, and in the configuration packets `ps` (`none` for an unknown one), FinishConfiguration
  -- last, with keys of moderate length in its cookie requests; its frames are any that ReadPacket opens
  -- to these packets, however their lengths are encoded and their bodies deflated. Then, with a round of
  -- fuel for each packet, Join returns nil, the connection in the play state, and what the server sent
  -- behind it left to read. What the client sent is the handshake and LoginStart, uncompressed, and at
  -- the last threshold LoginAcknowledged, its settings, and its answers to `ps` in their order.
  pub join_succeeds :
      (addr : Address) (def : Definition) (t : ℤ) (n fuel : ℕ) (ps : List (Option Packet))
      (bs more : Bytes) (e : Error)
      → c.conn ≡ none
      → Extends c.registry
      → c.addr ≡ some addr
      → (get_definition c.version protocol_registry).0 ≡ some def
      → bytes_eq c.username [] ≡ false
      → length c.username < 2 ^ 16
      → length (hostname c addr) < 2 ^ 16
      → length (login_uuid lib c c.unique_id) < 2 ^ 16
      → LogsIn lib c.version more ps t n unset bs
      → All HasShortKey ps
      → n ≤ fuel
      → length ps ≤ fuel
      → Configured lib moment c t more
          (greeting lib moment c addr def ++ acknowledgement lib moment c t ps)
          e
          (join lib moment fuel (ok (record { rest = bs; at_end = e }, buffer [])) c)
  join_succeeds addr def t n fuel ps bs more e h x a d named name host uuid s k l m =
      let (w, small) =
        get_definition_checked (λ (v, def). ltb def.protocol_version (2 ^ 32)) protocol_registry
          protocol_versions_small c.version d in
      let (rest, serves) = served lib c.version t more ps n unset bs s in
      join-Configured lib moment c addr def t n fuel ps bs more e h x a d
        (le→leb v1_20_2 c.version new) named (omega arith) s l m
        (handshake-CanSend lib moment c.version modest supported unset def.protocol_version
          (hostname c addr) (addr.port % 65536) login (ground arith) host)
        (login_start-CanSend lib moment c.version modest supported unset c.username
          (login_uuid lib c c.unique_id) new name uuid)
        (acknowledged-CanSend lib moment c.version modest supported t new)
        (
          settings-CanSend lib moment c.version modest supported t c.settings new moderate,
          answers-CanSend lib moment c.version modest supported c.brand short_brand t more ps rest
              serves k,
        )
