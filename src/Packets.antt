-- ===== src/Packets.antt =====
-- protocol/packets.go and protocol/constructors.go: the packets, one constructor for each struct.
pub mod Encode
pub mod Decode
pub mod Constructors
pub mod Arrivals
pub mod Made
pub mod RoundTrip
use gophermc.Base.{ℕ, Bool, false, Option, none, List, []}
use gophermc.Base.Outcome.{Outcome}
use gophermc.Component.{ChatComponent}
use gophermc.Types.{State, ClientSettings, KnownPack}
use gophermc.Wire.Stream.{Bytes, Reader}

-- What the packets and the connection take from outside the repository, and from the parts of the
-- standard library that are no more than a name here: uuid.Parse, crypto/sha1, crypto/sha256,
-- rsa.SignPKCS1v15 under a private key, and compress/zlib's writer and reader.
pub record Library : Type 0 where
  pub parse_uuid : Bytes → Outcome Bytes
  pub sha1 : Bytes → Bytes
  pub sha256 : Bytes → Bytes
  pub sign : ℕ → Bytes → Outcome Bytes
  pub deflate : Bytes → Bytes
  pub inflate : Bytes → Outcome Reader

-- What `time.Now().UnixMilli()` and `fastrand.NumberN` answer at one call.
pub record Moment : Type 0 where
  pub now : ℕ
  pub salt : ℕ

pub record Tag : Type 0 where
  pub name : Bytes
  pub entries : List ℕ

pub record RegistryTag : Type 0 where
  pub registry : Bytes
  pub tags : List Tag

-- An int32 or int64 field is its bit pattern, a private key a number that stands for the pointer.
pub data Packet : Type 0 where
  serverbound_handshake : (version : ℕ) (address : Bytes) (port : ℕ) (next : State) → Packet
  serverbound_status_request : Packet
  clientbound_status_response : (json : Bytes) → Packet
  serverbound_ping : (payload : ℕ) → Packet
  clientbound_pong : (payload : ℕ) → Packet
  serverbound_login_start : (username uuid : Bytes) → Packet
  serverbound_login_acknowledged : Packet
  clientbound_set_compression : (threshold : ℕ) → Packet
  clientbound_login_success : (username uuid : Bytes) → Packet
  serverbound_finish_configuration : Packet
  clientbound_finish_configuration : Packet
  clientbound_config_keep_alive : (id : ℕ) → Packet
  serverbound_config_keep_alive : (id : ℕ) → Packet
  serverbound_select_known_packs : (packs : List KnownPack) → Packet
  clientbound_select_known_packs : (packs : List KnownPack) → Packet
  clientbound_cookie_request : (key : Bytes) → Packet
  serverbound_cookie_response : (key : Bytes) (has_data : Bool) (payload : Bytes) → Packet
  clientbound_config_ping : (id : ℕ) → Packet
  serverbound_config_pong : (id : ℕ) → Packet
  clientbound_join_game : Packet
  clientbound_disconnect : (reason : Bytes) → Packet
  serverbound_chat_message : (message : Bytes) (key : Option ℕ) (uuid : Bytes) → Packet
  clientbound_keep_alive : (id : ℕ) → Packet
  serverbound_keep_alive : (id : ℕ) → Packet
  serverbound_client_settings : ClientSettings → Packet
  serverbound_custom_payload : (channel payload : Bytes) → Packet
  clientbound_custom_payload : (channel payload : Bytes) → Packet
  clientbound_feature_flags : (features : List Bytes) → Packet
  clientbound_update_tags : (tags : List RegistryTag) → Packet
  clientbound_registry_data : (registry payload : Bytes) → Packet
  clientbound_chat_message : ChatComponent → (sender : Bytes) → Packet
  serverbound_player_position : (x y z : ℕ) (on_ground : Bool) → Packet
