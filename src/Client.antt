-- ===== src/Client.antt =====
-- client.go: the client's state, its connection, and the requests that are one write each.
pub mod Status
pub mod Join
pub mod Listen
pub mod Loop
pub mod Steps
pub mod Position
pub mod Numbers
pub mod Threads
pub mod Options
use gophermc.Base.{
  ℕ, ◌%◌, Bool, true, false, ◌&&◌, Option, none, some, List, [], ◌∷◌, ◌++◌, leb, ◌==◌,
  if◌then◌else◌,
}
use gophermc.Base.Outcome.{
  Outcome, Error, ok, err, panic, Action, ◌>>=◌, ◌>>◌, pure, fail, crash, wrapping, wrap_outcome,
  explicit, nil_dereference, not_connected, not_in_play, invalid_username, failed_to_dial,
  sending_handshake, sending_status_request, reading_status_response, sending_ping, reading_pong,
  expected_status_response, expected_pong,
}
use gophermc.Component.{ChatComponent}
use gophermc.Conn
use gophermc.Conn.{Conn, new_conn, read_packet, write_packet}
use gophermc.Packets.{
  Packet, Library, Moment, serverbound_handshake, serverbound_status_request,
  clientbound_status_response, serverbound_ping, clientbound_pong, serverbound_login_start,
  serverbound_chat_message, serverbound_client_settings, serverbound_player_position,
}
use gophermc.Packets.Encode.{bytes_eq, lift}
use gophermc.Registry.{Registry, get_definition}
use gophermc.Registry.Definitions.{Definition}
use gophermc.Types.{
  State, status, login, play, state_eq, ClientSettings, PlayerPosition, update, nil_uuid,
  offline_uuid, codes,
}
use gophermc.Versions.{Version, latest, v1_19_2}
use gophermc.Wire.Stream.{Bytes, Reader, Writer}

-- A *net.TCPAddr: the text of its IP, and its port.
pub record Address : Type 0 where
  pub ip : Bytes
  pub port : ℕ

-- Why a DisconnectEvent came: the server's text, or the text of an error.
pub data Reason : Type 0 where
  from_server : Bytes → Reason
  from_error : Error → Reason

-- events.go
pub data Event : Type 0 where
  ready_event : (username : Bytes) → Event
  disconnect_event : Reason → Event
  keep_alive_event : (id : ℕ) → Event
  chat_message_event : (message : Bytes) → ChatComponent → (sender : Bytes) (time : ℕ) → Event

pub record Client : Type 0 where
  pub conn : Option Conn
  pub version : Version
  pub addr : Option Address
  pub private_key : Option ℕ
  -- What was sent on the channel, oldest first; `none` is the nil channel.
  pub event_chan : Option (List Event)
  -- readerCtx is done.
  pub cancelled : Bool
  pub server_hostname : Bytes
  pub brand : Bytes
  pub username : Bytes
  pub unique_id : Bytes
  pub settings : ClientSettings
  pub player_position : PlayerPosition
  -- `protocolRegistry`, while there is no connection that carries it.
  pub registry : Registry

abbrev pub origin : PlayerPosition
origin = record { x = 0; y = 0; z = 0; yaw = 0; head_yaw = 0; pitch = 0; on_ground = false }

unfoldable pub default_client : Registry → Client
default_client registry = record {
  conn = none;
  version = latest;
  addr = none;
  private_key = none;
  event_chan = none;
  cancelled = false;
  server_hostname = [];
  brand = codes "vanilla";
  username = codes "GopherMC";
  unique_id = nil_uuid;
  settings = record {
    locale = codes "en_US";
    view = 10;
    chat_mode = 0;
    chat_colors = true;
    skin_parts = 0x7f;
    main_hand = 1;
  };
  player_position = origin;
  registry = registry;
}

-- `for _, opt := range opts { opt(c) }`
apply_all : List (Client → Client) → Client → Client
apply_all [] c = c
apply_all (opt ∷ opts) c = apply_all opts (opt c)

unfoldable pub new_client : Registry → List (Client → Client) → Client
unfolding apply_all default_client
new_client registry opts = apply_all opts (default_client registry)

close_of : Option Conn → Client → Client
close_of none c = c
close_of (some conn) c = record c { conn = none; registry = conn.registry }

-- The error of net.Conn.Close, which no caller but the user sees, is left out.
unfoldable pub close : Action Client (Unit {0})
unfolding close_of
close c = (ok tt, close_of c.conn c)

dialled : Outcome (Reader × Writer) → Action Client (Unit {0})
dialled (ok (input, output)) c =
    (ok tt, record c { conn = some (new_conn input output c.version c.registry) })
dialled (err e) c = (wrap_outcome failed_to_dial (err e), c)
dialled (panic p) c = (panic p, c)

-- The first argument is what DialContext answers.
unfoldable pub connect : Outcome (Reader × Writer) → Action Client (Unit {0})
unfolding close dialled
connect dial = do close; dialled dial

unfoldable pub destroy : Action Client (Unit {0})
unfolding close
destroy c = close (record c { cancelled = true; event_chan = none })

-- A method of the embedded *protocol.Conn, which panics on the nil pointer.
unfoldable pub with_conn : {A : Type 0} → Option Conn → Action Conn A → Action Client A
with_conn none m c = (panic nil_dereference, c)
with_conn (some conn) m c = ((m conn).0, record c { conn = some (m conn).1 })

unfoldable pub on_conn : {A : Type 0} → Action Conn A → Action Client A
unfolding with_conn
on_conn m c = with_conn c.conn m c

unfoldable pub set_state : State → Action Client (Unit {0})
unfolding on_conn
set_state s = on_conn (λ conn. (ok tt, Conn.set_state s conn))

unfoldable pub write : Library → Moment → Packet → Action Client (Unit {0})
unfolding on_conn
write lib moment p = on_conn (write_packet lib moment p)

unfoldable pub read : Library → Action Client Packet
unfolding on_conn
read lib = on_conn (read_packet lib)

-- `if c.Conn == nil { return fmt.Errorf("client not connected") }`
unfoldable pub if_connected : {A : Type 0} → Option Conn → Action Client A → Action Client A
if_connected none m = fail not_connected
if_connected (some conn) m = m

-- `v.Protocol()`: it panics where GetDefinition finds nothing.
unfoldable pub protocol_of : Option Definition → Outcome ℕ
protocol_of none = panic explicit
protocol_of (some def) = ok def.protocol_version

unfoldable pub protocol : Version → Action Client ℕ
unfolding on_conn protocol_of
protocol v = on_conn (λ conn. (
  protocol_of (get_definition v conn.registry).0,
  record conn { registry = (get_definition v conn.registry).1 },
))

ip_of : Option Address → Outcome Bytes
ip_of none = panic nil_dereference
ip_of (some addr) = ok addr.ip

pub port_of : Option Address → Outcome ℕ
port_of none = panic nil_dereference
port_of (some addr) = ok addr.port

unfoldable pub server_hostname : Action Client Bytes
unfolding ip_of
server_hostname c =
    if bytes_eq c.server_hostname [] then (ip_of c.addr, c) else (ok c.server_hostname, c)

unfoldable pub send_handshake : Library → Moment → State → Action Client (Unit {0})
unfolding if_connected protocol server_hostname port_of write
send_handshake lib moment next c =
    if_connected c.conn
      (do
        version ← protocol c.version
        address ← server_hostname
        port ← lift (port_of c.addr)
        write lib moment (serverbound_handshake version address (port % 65536) next))
      c

unfoldable pub login_uuid : Library → Client → Bytes → Bytes
login_uuid lib c uuid =
    if bytes_eq uuid nil_uuid && leb v1_19_2 c.version
    then offline_uuid lib.sha1 c.username
    else uuid

unfoldable pub send_login : Library → Moment → Bytes → Bytes → Action Client (Unit {0})
unfolding if_connected login_uuid write
send_login lib moment username uuid c =
    if_connected c.conn
      (if bytes_eq c.username []
        then fail invalid_username
        else write lib moment (serverbound_login_start username (login_uuid lib c uuid)))
      c

unfoldable pub send_status_request : Library → Moment → Action Client (Unit {0})
unfolding if_connected write
send_status_request lib moment c =
    if_connected c.conn (write lib moment serverbound_status_request) c

unfoldable pub send_ping_request : Library → Moment → Action Client (Unit {0})
unfolding if_connected write
send_ping_request lib moment c = if_connected c.conn (write lib moment (serverbound_ping 0)) c

unfoldable pub send_client_settings : Library → Moment → ClientSettings → Action Client (Unit {0})
unfolding if_connected write
send_client_settings lib moment settings c =
    if_connected c.conn (write lib moment (serverbound_client_settings settings)) c

unfoldable pub in_play : Option Conn → Bool
in_play none = false
in_play (some conn) = state_eq conn.state play

unfoldable pub chat : Library → Moment → Bytes → Action Client (Unit {0})
unfolding if_connected in_play write
chat lib moment message c =
    if_connected c.conn
      (if in_play c.conn
        then write lib moment (serverbound_chat_message message c.private_key c.unique_id)
        else fail not_in_play)
      c

-- The position is changed first, and sent from there.
unfoldable pub send_position : Library → Moment → Action Client (Unit {0})
unfolding write
send_position lib moment c =
    write lib moment
      (serverbound_player_position c.player_position.x c.player_position.y c.player_position.z
        c.player_position.on_ground)
      c

unfoldable pub set_position :
    Library → Moment → (x y z yaw head_yaw pitch : ℕ) → Bool → Action Client (Unit {0})
unfolding if_connected in_play send_position update
set_position lib moment x y z yaw head_yaw pitch on_ground c =
    let moved = update x y z yaw head_yaw pitch on_ground c.player_position in
    if_connected c.conn
      (if in_play c.conn
        then (λ c. send_position lib moment (record c { player_position = moved }))
        else fail not_in_play)
      c
