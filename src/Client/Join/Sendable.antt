-- ===== src/Client/Join/Sendable.antt =====
-- Everything that the client writes in Join has a number and fits a frame.
use gophermc.Base.{
  ◌≡◌, false, ℕ, ◌+◌, ◌<◌, ◌≤◌, ◌^◌, refl, false, Option, some, List, [], ◌∷◌, ◌++◌, length,
  length-append, All, leb, ltb, le→leb, arith, Bool-cases, inl, inr,
}
use gophermc.Base.Int.{ℤ}
use gophermc.Client.Join.{brand_channel}
use gophermc.Client.Join.Configured.{Serves, finishes, sends, sends_unknown, answers}
use gophermc.Client.Join.Replies.{replies}
use gophermc.Client.Join.Expected.{answered-Arriving}
use gophermc.Client.Join.Sizes.{Writes, IsModest, Writes-CanSend}
use gophermc.Client.Join.Speaks.{CanSend}
use gophermc.Client.Numbers.{
  Arriving, Sends, is_position, has_small_number, config_settings, config_keep_alive, brand,
  known_packs, finish_early, finish, cookie, acknowledged, handshake, login_start,
}
use gophermc.Packets.{
  Packet, Library, Moment, clientbound_config_keep_alive, clientbound_custom_payload,
  clientbound_select_known_packs, clientbound_finish_configuration, clientbound_cookie_request,
  serverbound_config_keep_alive, serverbound_cookie_response, serverbound_custom_payload,
  serverbound_select_known_packs, serverbound_finish_configuration, serverbound_client_settings,
  serverbound_login_acknowledged, serverbound_handshake, serverbound_login_start,
}
use gophermc.Packets.Encode.{encode, bytes_eq}
use gophermc.Registry.Tables.{protocol_registry}
use gophermc.Types.{State, ClientSettings, configuration, login, handshaking}
use gophermc.Versions.{Version, latest, v1_20_2, v1_21_3}
use gophermc.Wire.Fields.RoundTrip.{string_bytes}
use gophermc.Wire.Stream.{Bytes}
use gophermc.Wire.VarInt.RoundTrip.{var_int_bytes, var_int_bytes_shape}
use gophermc.Client.Join.Encodings.{
  Moderate, settings-Writes, payload-Writes, keep_alive-Writes, known_packs-Writes, cookie-Writes,
  finish-Writes, acknowledged-Writes, handshake-Writes, login_start-Writes,
}

-- The key that a cookie is asked for by is not too long; it is sent back.
abbrev pub HasShortKey : Option Packet → Type 0
HasShortKey (some (clientbound_cookie_request key)) = length key < 2 ^ 16
HasShortKey _ = Unit

module _ (lib : Library) (moment : Moment) (v : Version) (modest : IsModest lib)
    (supported : v ≤ latest) where
  sent_at :
      (s : State) (t : ℤ) (q : Packet) (other : is_position q ≡ false) (n : ℕ)
      → Sends v protocol_registry s q
      → Writes (encode lib moment q v) n
      → n + 5 < 2 ^ 22
      → CanSend lib moment v s t q
  sent_at s t q other n reason w l =
      let (id, number, small) =
        has_small_number v protocol_registry s q supported (λ v. refl) other reason in
      Writes-CanSend lib moment v s t q n id modest number small w l

  pub acknowledged-CanSend :
      (t : ℤ) → v1_20_2 ≤ v → CanSend lib moment v login t serverbound_login_acknowledged
  acknowledged-CanSend t new =
      sent_at login t serverbound_login_acknowledged refl 0 (acknowledged new)
        (acknowledged-Writes lib moment v) (omega arith)

  pub settings-CanSend :
      (t : ℤ) (s : ClientSettings)
      → v1_20_2 ≤ v
      → Moderate s
      → CanSend lib moment v configuration t (serverbound_client_settings s)
  settings-CanSend t s new m =
      sent_at configuration t (serverbound_client_settings s) refl (2 ^ 16 + 40)
        (config_settings s new) (settings-Writes lib moment v s m) (omega arith)

  pub handshake-CanSend :
      (t : ℤ) (n : ℕ) (host : Bytes) (port : ℕ) (next : State)
      → n < 2 ^ 32
      → length host < 2 ^ 16
      → CanSend lib moment v handshaking t (serverbound_handshake n host port next)
  handshake-CanSend t n host port next l m =
      sent_at handshaking t (serverbound_handshake n host port next) refl (17 + length host)
        (handshake n host port next)
        (handshake-Writes lib moment v n host port next l (omega arith)) (omega arith)

  pub login_start-CanSend :
      (t : ℤ) (name uuid : Bytes)
      → v1_20_2 ≤ v
      → length name < 2 ^ 16
      → length uuid < 2 ^ 16
      → CanSend lib moment v login t (serverbound_login_start name uuid)
  login_start-CanSend t name uuid new l m =
      sent_at login t (serverbound_login_start name uuid) refl (6 + length name + length uuid)
        (login_start name uuid)
        (login_start-Writes lib moment v name uuid (le→leb v1_20_2 v new) (omega arith))
        (omega arith)

  module _ (name : Bytes) (short_name : length name < 2 ^ 16) (t : ℤ) where
    reply-CanSend :
        (p : Packet)
        → Arriving v protocol_registry configuration p
        → HasShortKey (some p)
        → All (CanSend lib moment v configuration t) (replies v name p)
    unfolding replies
    reply-CanSend (clientbound_config_keep_alive id) a k = (
      sent_at configuration t (serverbound_config_keep_alive id) refl 8 (config_keep_alive id id a)
          (keep_alive-Writes lib moment v id) (omega arith),
      tt,
    )
    reply-CanSend (clientbound_custom_payload channel payload) a k =
        elim (Bool-cases (bytes_eq channel brand_channel)) [
          | inl same ↦ rw same (
            sent_at configuration t (serverbound_custom_payload brand_channel (string_bytes name))
                refl (5 + length brand_channel + length (string_bytes name))
                (brand channel payload brand_channel (string_bytes name) a)
                (payload-Writes lib moment v brand_channel (string_bytes name) (omega arith))
                (omega (
                  arith,
                  length-append (var_int_bytes (length name)) name,
                  (var_int_bytes_shape (length name) (omega arith)).2,
                  short_name,
                )),
            tt,
          )
          | inr other ↦ rw other tt
        ]
    reply-CanSend (clientbound_select_known_packs packs) a k =
        let answer =
          sent_at configuration t (serverbound_select_known_packs []) refl 5
            (known_packs packs [] a) (known_packs-Writes lib moment v) (omega arith) in
        elim (Bool-cases (leb v1_21_3 v)) [
          | inl new ↦ rw new (
            answer,
            (
              sent_at configuration t serverbound_finish_configuration refl 0
                  (finish_early packs (ground arith) a) (finish-Writes lib moment v) (omega arith),
              tt,
            ),
          )
          | inr old ↦ rw old (answer, tt)
        ]
    reply-CanSend clientbound_finish_configuration a k = elim (Bool-cases (ltb v v1_21_3)) [
      | inl old ↦ rw old (
        sent_at configuration t serverbound_finish_configuration refl 0 (finish a)
            (finish-Writes lib moment v) (omega arith),
        tt,
      )
      | inr new ↦ rw new tt
    ]
    reply-CanSend (clientbound_cookie_request key) a k = (
      sent_at configuration t (serverbound_cookie_response key false []) refl (6 + length key)
          (cookie key false [] key a) (cookie-Writes lib moment v key (omega arith)) (omega arith),
      tt,
    )
    reply-CanSend _ a k = tt

    All-then :
        {A : Type 0} (P : A → Type 0) (xs ys : List A) → All P xs → All P ys → All P (xs ++ ys)
    All-then P [] ys h k = k
    All-then P (x ∷ xs) ys h k = (h.0, All-then P xs ys h.1 k)

    -- What the client answers to a server's packets, it can send.
    pub answers-CanSend :
        (more : Bytes) (ps : List (Option Packet)) (bs : Bytes)
        → Serves lib v t more ps bs
        → All HasShortKey ps
        → All (CanSend lib moment v configuration t) (answers v name ps)
    answers-CanSend more _ _ (finishes id fields whole f a) k =
        All-then (CanSend lib moment v configuration t) _ _
          (reply-CanSend clientbound_finish_configuration
            (answered-Arriving lib v configuration id fields clientbound_finish_configuration a) tt)
          tt
    answers-CanSend more _ _ (sends id fields whole p ps bs f a g s) k =
        All-then (CanSend lib moment v configuration t) _ _
          (reply-CanSend p (answered-Arriving lib v configuration id fields p a) k.0)
          (answers-CanSend more ps bs s k.1)
    answers-CanSend more _ _ (sends_unknown id fields whole x ps bs f a u s) k =
        answers-CanSend more ps bs s k.1
