-- ===== src/Client/Position.antt =====
-- What SetPosition can answer.
use gophermc.Base.{ℕ, ◌≡◌, refl, ap, Bool, Option, none, some}
use gophermc.Base.Outcome.{err, no_packet_id}
use gophermc.Client.{
  Client, set_position, send_position, in_play, if_connected, write, on_conn, with_conn,
}
use gophermc.Conn.{Conn, write_packet, numbered}
use gophermc.Packets.{Library, Moment, serverbound_player_position}
use gophermc.Packets.Constructors.{
  get_packet_id, id_of, id_of_type, packet_types, packet_constructors, type_name,
}
use gophermc.Registry.{get_definition}
use gophermc.Registry.Definitions.{Definition}
use gophermc.Types.{State, Direction, play, update, state_eq, serverbound}

pub no_id :
    (o : Option Definition) (s : State) (d : Direction) (x y z : ℕ) (on_ground : Bool)
    → id_of o s d (serverbound_player_position x y z on_ground) ≡ none
unfolding id_of id_of_type packet_types packet_constructors type_name
no_id none s d x y z on_ground = refl
no_id (some def) s d x y z on_ground = refl

write_packet-no_id :
    (lib : Library) (moment : Moment) (x y z : ℕ) (on_ground : Bool) (conn : Conn)
    → write_packet lib moment (serverbound_player_position x y z on_ground) conn
      ≡ (err no_packet_id, record conn { registry = (get_definition conn.version conn.registry).1 })
unfolding write_packet get_packet_id numbered
write_packet-no_id lib moment x y z on_ground conn =
    rw (no_id (get_definition conn.version conn.registry).0 conn.state serverbound x y z on_ground)

-- In the play state SetPosition always answers that its packet has no number: the client's own
-- position is moved all the same, and nothing is written.
pub set_position_unsent :
    (lib : Library) (moment : Moment) (x y z yaw head_yaw pitch : ℕ) (on_ground : Bool) (c : Client)
    (conn : Conn)
    → c.conn ≡ some conn
    → conn.state ≡ play
    → set_position lib moment x y z yaw head_yaw pitch on_ground c ≡ (
      err no_packet_id,
      record c {
        conn = some (record conn { registry = (get_definition conn.version conn.registry).1 });
        player_position = update x y z yaw head_yaw pitch on_ground c.player_position;
      },
    )
unfolding set_position if_connected in_play send_position write on_conn with_conn state_eq
set_position_unsent lib moment x y z yaw head_yaw pitch on_ground c conn e p =
    rw (e, p)
      (ap
        (λ t. (
          t.0,
          record c {
            conn = some t.1;
            player_position = update x y z yaw head_yaw pitch on_ground c.player_position;
          },
        ))
        (write_packet-no_id lib moment x y z on_ground (record conn { state = play })))
