-- ===== src/Client/Numbers.antt =====
-- The numbers of the packets that the client writes, in the states in which it writes them.
use mathlib.Core.Path.{subst}
use gophermc.Base.{
  ◌⊎◌, inl, inr, Bool-cases, ℕ, zero, suc, ◌≤◌, ◌<◌, ◌^◌, ◌≡◌, refl, sym, Bool, true, false, not,
  ◌&&◌, ◌||◌, Option, none, some, List, [], ◌∷◌, All, all, leb, ltb, le→leb, lt→ltb, arith,
}
use gophermc.Packets.{
  Packet, serverbound_handshake, serverbound_status_request, serverbound_ping,
  serverbound_login_start, serverbound_login_acknowledged, serverbound_client_settings,
  serverbound_chat_message, clientbound_config_keep_alive, serverbound_config_keep_alive,
  clientbound_custom_payload, serverbound_custom_payload, clientbound_select_known_packs,
  serverbound_select_known_packs, serverbound_finish_configuration,
  clientbound_finish_configuration, clientbound_cookie_request, serverbound_cookie_response,
  clientbound_keep_alive, serverbound_keep_alive, serverbound_player_position,
}
use gophermc.Client.Position.{no_id}
use gophermc.Packets.Constructors.{get_packet_id, id_of, no_settings, type_name}
use gophermc.Registry.{Registry, get_definition}
use gophermc.Registry.Cache.{Extends}
use gophermc.Registry.Definitions.{Definition}
use gophermc.Registry.Tables.{protocol_registry}
use gophermc.Types.{
  State, Direction, handshaking, status, login, configuration, play, serverbound, clientbound,
  nil_uuid, KnownPack, ClientSettings,
}
use gophermc.Versions.{Version, latest, v1_20_2, v1_21_3}
use gophermc.Wire.Stream.{Bytes}

-- The version has the packet in this state, from the server.
abbrev pub Arriving : Version → Registry → State → Packet → Type 0
Arriving v reg s p = (id : ℕ) × ((get_packet_id v s clientbound p reg).0 ≡ some id)

-- What the client writes, by the state: of its own accord, and in answer to a packet. (A client of
-- 1.20.2 or later sends its settings in the configuration state, an older one in the play state.)
pub data Sends (v : Version) (reg : Registry) : State → Packet → Type 0 where
  handshake :
      (n : ℕ) (address : Bytes) (port : ℕ) (next : State)
      → Sends v reg handshaking (serverbound_handshake n address port next)
  status_request : Sends v reg status serverbound_status_request
  ping : (n : ℕ) → Sends v reg status (serverbound_ping n)
  login_start : (name uuid : Bytes) → Sends v reg login (serverbound_login_start name uuid)
  chat :
      (text : Bytes) (key : Option ℕ) (uuid : Bytes)
      → Sends v reg play (serverbound_chat_message text key uuid)
  position :
      (x y z : ℕ) (on_ground : Bool)
      → Sends v reg play (serverbound_player_position x y z on_ground)
  keep_alive :
      (m n : ℕ)
      → Arriving v reg play (clientbound_keep_alive m)
      → Sends v reg play (serverbound_keep_alive n)
  play_settings :
      (s : ClientSettings) → v < v1_20_2 → Sends v reg play (serverbound_client_settings s)
  acknowledged : v1_20_2 ≤ v → Sends v reg login serverbound_login_acknowledged
  config_settings :
      (s : ClientSettings) → v1_20_2 ≤ v → Sends v reg configuration (serverbound_client_settings s)
  config_keep_alive :
      (m n : ℕ)
      → Arriving v reg configuration (clientbound_config_keep_alive m)
      → Sends v reg configuration (serverbound_config_keep_alive n)
  brand :
      (a b c d : Bytes)
      → Arriving v reg configuration (clientbound_custom_payload a b)
      → Sends v reg configuration (serverbound_custom_payload c d)
  known_packs :
      (packs answer : List KnownPack)
      → Arriving v reg configuration (clientbound_select_known_packs packs)
      → Sends v reg configuration (serverbound_select_known_packs answer)
  finish_early :
      (packs : List KnownPack)
      → v1_21_3 ≤ v
      → Arriving v reg configuration (clientbound_select_known_packs packs)
      → Sends v reg configuration serverbound_finish_configuration
  finish :
      Arriving v reg configuration clientbound_finish_configuration
      → Sends v reg configuration serverbound_finish_configuration
  cookie :
      (key : Bytes) (has : Bool) (value other : Bytes)
      → Arriving v reg configuration (clientbound_cookie_request key)
      → Sends v reg configuration (serverbound_cookie_response other has value)
  login_keep_alive :
      (m n : ℕ)
      → Arriving v reg login (clientbound_keep_alive m)
      → Sends v reg login (serverbound_keep_alive n)

-- SetPosition's packet.
abbrev pub is_position : Packet → Bool
is_position (serverbound_player_position x y z on_ground) = true
is_position _ = false

abbrev is_some : Option ℕ → Bool
is_some none = false
is_some (some id) = true

abbrev is_int32 : Option ℕ → Bool
is_int32 none = false
is_int32 (some id) = ltb id (2 ^ 31)

-- Where the first part holds, the packet has a number, an int32.
abbrev kept : Option Definition → Bool × State × Packet → Bool
kept o (needed, s, p) = not needed || is_int32 (id_of o s serverbound p)

abbrev needs : Version → Option Definition → List (Bool × State × Packet)
needs v o =
    (true, handshaking, serverbound_handshake 0 [] 0 handshaking)
    ∷ (true, status, serverbound_status_request)
    ∷ (true, status, serverbound_ping 0)
    ∷ (true, login, serverbound_login_start [] nil_uuid)
    ∷ (true, play, serverbound_chat_message [] none nil_uuid)
    ∷ (
      is_some (id_of o play clientbound (clientbound_keep_alive 0)),
      play,
      serverbound_keep_alive 0,
    )
    ∷ (ltb v v1_20_2, play, serverbound_client_settings no_settings)
    ∷ (leb v1_20_2 v, login, serverbound_login_acknowledged)
    ∷ (leb v1_20_2 v, configuration, serverbound_client_settings no_settings)
    ∷ (
      is_some (id_of o configuration clientbound (clientbound_config_keep_alive 0)),
      configuration,
      serverbound_config_keep_alive 0,
    )
    ∷ (
      is_some (id_of o configuration clientbound (clientbound_custom_payload [] [])),
      configuration,
      serverbound_custom_payload [] [],
    )
    ∷ (
      is_some (id_of o configuration clientbound (clientbound_select_known_packs [])),
      configuration,
      serverbound_select_known_packs [],
    )
    ∷ (
      leb v1_21_3 v
          && is_some (id_of o configuration clientbound (clientbound_select_known_packs [])),
      configuration,
      serverbound_finish_configuration,
    )
    ∷ (
      is_some (id_of o configuration clientbound clientbound_finish_configuration),
      configuration,
      serverbound_finish_configuration,
    )
    ∷ (
      is_some (id_of o configuration clientbound (clientbound_cookie_request [])),
      configuration,
      serverbound_cookie_response [] false [],
    )
    ∷ (
      is_some (id_of o login clientbound (clientbound_keep_alive 0)),
      login,
      serverbound_keep_alive 0,
    )
    ∷ []

-- `p` of every number up to `n`.
up_to : ℕ → (ℕ → Bool) → Bool
up_to zero p = p 0
up_to (suc n) p = up_to n p && p (suc n)

up_to-lem : (n : ℕ) (p : ℕ → Bool) (k : ℕ) → up_to n p ≡ true → k ≤ n → p k ≡ true
unfolding up_to
up_to-lem zero p k h l = let first : k ≡ 0 = omega arith in rw first h
up_to-lem (suc n) p k h l = ground (arith, up_to-lem n p k)

abbrev keeps_needs : Version → Bool
keeps_needs v = let o = (get_definition v protocol_registry).0 in all (kept o) (needs v o)

needs_kept : up_to latest keeps_needs ≡ true
unfolding up_to get_definition protocol_registry id_of gophermc.Registry.Definitions.packet_id
needs_kept = refl

all→All : {A : Type 0} (p : A → Bool) (xs : List A) → all p xs ≡ true → All (λ x. p x ≡ true) xs
all→All p [] h = tt
all→All p (x ∷ xs) h = (ground arith, all→All p xs (ground arith))

-- A number goes by the packet's type alone.
id_of-type :
    (o : Option Definition) (s : State) (d : Direction) (p q : Packet)
    → type_name p ≡ type_name q
    → id_of o s d p ≡ id_of o s d q
unfolding id_of
id_of-type none s d p q e = refl
id_of-type (some def) s d p q e = rw e

numbered :
    (o : Option Definition) (needed : Bool) (s : State) (p q : Packet)
    → kept o (needed, s, p) ≡ true
    → type_name q ≡ type_name p
    → needed ≡ true
    → (id : ℕ) × (id_of o s serverbound q ≡ some id) × (id < 2 ^ 31)
numbered o needed s p q k e n =
    let there : is_int32 (id_of o s serverbound p) ≡ true = rw n at k in
    rw (id_of-type o s serverbound q p e) (witness (id_of o s serverbound p) there)
  where
    witness : (o : Option ℕ) → is_int32 o ≡ true → (id : ℕ) × (o ≡ some id) × (id < 2 ^ 31)
    witness none h = cc
    witness (some id) h = (id, refl, ground arith)

arriving :
    (o : Option Definition) (s : State) (p q : Packet) {id : ℕ}
    → type_name p ≡ type_name q
    → id_of o s clientbound p ≡ some id
    → is_some (id_of o s clientbound q) ≡ true
arriving o s p q t e = rw (sym (id_of-type o s clientbound p q t), e)

number_at :
    (v : Version) (reg : Registry) (s : State) (q : Packet)
    → All (λ n. kept (get_definition v reg).0 n ≡ true) (needs v (get_definition v reg).0)
    → is_position q ≡ false
    → Sends v reg s q
    → (id : ℕ) × ((get_packet_id v s serverbound q reg).0 ≡ some id) × (id < 2 ^ 31)
unfolding get_packet_id type_name
number_at v reg s q h p (handshake n address port next) =
    let o = (get_definition v reg).0 in
    numbered o _ handshaking (serverbound_handshake 0 [] 0 handshaking)
      (serverbound_handshake n address port next) h.0 refl refl
number_at v reg s q h p status_request =
    let o = (get_definition v reg).0 in
    numbered o _ status serverbound_status_request serverbound_status_request h.1.0 refl refl
number_at v reg s q h p (ping n) =
    let o = (get_definition v reg).0 in
    numbered o _ status (serverbound_ping 0) (serverbound_ping n) h.1.1.0 refl refl
number_at v reg s q h p (login_start name uuid) =
    let o = (get_definition v reg).0 in
    numbered o _ login (serverbound_login_start [] nil_uuid) (serverbound_login_start name uuid)
      h.1.1.1.0 refl refl
number_at v reg s q h p (chat text key uuid) =
    let o = (get_definition v reg).0 in
    numbered o _ play (serverbound_chat_message [] none nil_uuid)
      (serverbound_chat_message text key uuid) h.1.1.1.1.0 refl refl
number_at v reg s q h p (position x y z on_ground) = cc
number_at v reg s q h p (keep_alive m n a) =
    let o = (get_definition v reg).0 in
    numbered o _ play (serverbound_keep_alive 0) (serverbound_keep_alive n) h.1.1.1.1.1.0 refl
      (arriving o play (clientbound_keep_alive m) (clientbound_keep_alive 0) refl a.1)
number_at v reg s q h p (play_settings t old) =
    let o = (get_definition v reg).0 in
    numbered o _ play (serverbound_client_settings no_settings) (serverbound_client_settings t)
      h.1.1.1.1.1.1.0 refl (lt→ltb v v1_20_2 old)
number_at v reg s q h p (acknowledged new) =
    let o = (get_definition v reg).0 in
    numbered o _ login serverbound_login_acknowledged serverbound_login_acknowledged
      h.1.1.1.1.1.1.1.0 refl (le→leb v1_20_2 v new)
number_at v reg s q h p (config_settings t new) =
    let o = (get_definition v reg).0 in
    numbered o _ configuration (serverbound_client_settings no_settings)
      (serverbound_client_settings t) h.1.1.1.1.1.1.1.1.0 refl (le→leb v1_20_2 v new)
number_at v reg s q h p (config_keep_alive m n a) =
    let o = (get_definition v reg).0 in
    numbered o _ configuration (serverbound_config_keep_alive 0) (serverbound_config_keep_alive n)
      h.1.1.1.1.1.1.1.1.1.0 refl
      (arriving o configuration (clientbound_config_keep_alive m) (clientbound_config_keep_alive 0)
        refl a.1)
number_at v reg s q h p (brand a b c d r) =
    let o = (get_definition v reg).0 in
    numbered o _ configuration (serverbound_custom_payload [] []) (serverbound_custom_payload c d)
      h.1.1.1.1.1.1.1.1.1.1.0 refl
      (arriving o configuration (clientbound_custom_payload a b) (clientbound_custom_payload [] [])
        refl r.1)
number_at v reg s q h p (known_packs packs answer a) =
    let o = (get_definition v reg).0 in
    numbered o _ configuration (serverbound_select_known_packs [])
      (serverbound_select_known_packs answer) h.1.1.1.1.1.1.1.1.1.1.1.0 refl
      (arriving o configuration (clientbound_select_known_packs packs)
        (clientbound_select_known_packs []) refl a.1)
number_at v reg s q h p (finish_early packs new a) =
    let o = (get_definition v reg).0 in
    numbered o _ configuration serverbound_finish_configuration serverbound_finish_configuration
      h.1.1.1.1.1.1.1.1.1.1.1.1.0 refl
      (rw (
        le→leb v1_21_3 v new,
        arriving o configuration (clientbound_select_known_packs packs)
            (clientbound_select_known_packs []) refl a.1,
      ))
number_at v reg s q h p (finish a) =
    let o = (get_definition v reg).0 in
    numbered o _ configuration serverbound_finish_configuration serverbound_finish_configuration
      h.1.1.1.1.1.1.1.1.1.1.1.1.1.0 refl
      (arriving o configuration clientbound_finish_configuration clientbound_finish_configuration
        refl a.1)
number_at v reg s q h p (cookie key has value other a) =
    let o = (get_definition v reg).0 in
    numbered o _ configuration (serverbound_cookie_response [] false [])
      (serverbound_cookie_response other has value) h.1.1.1.1.1.1.1.1.1.1.1.1.1.1.0 refl
      (arriving o configuration (clientbound_cookie_request key) (clientbound_cookie_request [])
        refl a.1)
number_at v reg s q h p (login_keep_alive m n a) =
    let o = (get_definition v reg).0 in
    numbered o _ login (serverbound_keep_alive 0) (serverbound_keep_alive n)
      h.1.1.1.1.1.1.1.1.1.1.1.1.1.1.1.0 refl
      (arriving o login (clientbound_keep_alive m) (clientbound_keep_alive 0) refl a.1)

pub has_small_number :
    (v : Version) (reg : Registry) (s : State) (q : Packet)
    → v ≤ latest
    → Extends reg
    → is_position q ≡ false
    → Sends v reg s q
    → (id : ℕ) × ((get_packet_id v s serverbound q reg).0 ≡ some id) × (id < 2 ^ 31)
has_small_number v reg s q l x p r =
    let checked : keeps_needs v ≡ true = up_to-lem latest keeps_needs v needs_kept l in
    let same : all (kept (get_definition v reg).0) (needs v (get_definition v reg).0) ≡ true =
      subst (λ o. all (kept o) (needs v o) ≡ true) (sym (x v)) checked in
    number_at v reg s q
      (all→All (kept (get_definition v reg).0) (needs v (get_definition v reg).0) same) p r

position-unnumbered :
    (q : Packet) (v : Version) (s : State) (reg : Registry)
    → is_position q ≡ true
    → (get_packet_id v s serverbound q reg).0 ≡ none
unfolding get_packet_id
position-unnumbered (serverbound_player_position x y z on_ground) v s reg p =
    no_id (get_definition v reg).0 s serverbound x y z on_ground
position-unnumbered _ v s reg p = cc

-- A known version has a number for every packet that the client writes, in the state in which it
-- writes it, but for the one of SetPosition, which has none: for its other requests, and for its answer
-- to every packet that the version has in that state. The registry is the generated one, with
-- whatever lookups were remembered in it.
pub has_number :
    (v : Version) (reg : Registry) (s : State) (q : Packet)
    → v ≤ latest
    → Extends reg
    → Sends v reg s q
    → let number = (get_packet_id v s serverbound q reg).0 in
      ((is_position q ≡ false) × (id : ℕ) × (number ≡ some id))
      ⊎ ((is_position q ≡ true) × (number ≡ none))
has_number v reg s q l x r = elim (Bool-cases (is_position q)) [
  | inl it ↦ inr (it, position-unnumbered q v s reg it)
  | inr other ↦ let n = has_small_number v reg s q l x other r in inl (other, n.0, n.1)
]
