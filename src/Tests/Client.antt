-- ===== src/Tests/Client.antt =====
-- Join, the configuration, the read loop and SetPosition at concrete inputs.
use gophermc.Base.{◌≡◌, refl, false, Option, none, some, [], ◌∷◌, arith}
use gophermc.Base.Outcome.{Outcome, ok, err, no_packet_id, is_unknown_packet}
use gophermc.Client.{Client, default_client, close, set_position}
use gophermc.Client.Join.{join, handle_configuration}
use gophermc.Client.Join.Ends.{configuration_ends}
use gophermc.Client.Join.Joined.{join_ends}
use gophermc.Client.Listen.{read_loop}
use gophermc.Client.Listen.Ends.{Stopped, Quiet, read_loop_ends}
use gophermc.Client.Loop.Rule.{After}
use gophermc.Client.Loop.Total.{Ending}
use gophermc.Client.Position.{set_position_unsent}
use gophermc.Client.Steps.{IsAt, Ready}
use gophermc.Conn.{Conn, new_conn}
use gophermc.Packets.Arrivals.{protocol_registry-IsSound}
use gophermc.Registry.{get_definition}
use gophermc.Registry.Tables.V1_21_11.{definition_v1_21_11}
use gophermc.Tests.Samples.{
  plain_library, noon, server_bytes, sample_client, conn_in, client_in, finish_configuration,
  keep_alive,
}
use gophermc.Types.{State, play, configuration, update}
use gophermc.Wire.Stream.{Bytes, buffer, bytes_reader}
use gophermc.Versions.{latest}

conn_in-Ready : (s : State) (bs : Bytes) → Ready s (conn_in s bs)
unfolding new_conn is_unknown_packet
conn_in-Ready s bs = record { state = refl; sound = protocol_registry-IsSound; end = refl }

join_ends_example :
    After
      (λ u c'. IsAt play c'.conn)
      (join plain_library noon 40 (ok (server_bytes, buffer [])) sample_client)
unfolding close default_client is_unknown_packet
join_ends_example =
    join_ends plain_library noon 40 server_bytes (buffer []) sample_client protocol_registry-IsSound
      refl (omega arith)

-- The state in which a run returned nil.
state_after : Option (Outcome (Unit {0}) × Client) → Option State
state_after (some (ok tt, c)) = elim c.conn [ none ↦ none | some conn ↦ some conn.state ]
state_after _ = none

one_table : Client
one_table = record (default_client ((latest, definition_v1_21_11) ∷ [])) {
  conn =
      some
        (record (new_conn (bytes_reader finish_configuration) (buffer []) latest
          ((latest, definition_v1_21_11) ∷ [])) { state = configuration });
}

configured : state_after (handle_configuration plain_library noon 3 one_table) ≡ some play
unfolding state_after one_table handle_configuration default_client new_conn
    gophermc.Conn.write_packet gophermc.Packets.Constructors.get_packet_id get_definition
    gophermc.Registry.Definitions.packet_id gophermc.Conn.body gophermc.Wire.VarInt.write_var_int
    gophermc.Wire.Stream.write_byte gophermc.Packets.Encode.encode
    gophermc.Packets.Encode.encode_client_settings gophermc.Wire.Fields.write_string
    gophermc.Conn.payload gophermc.Conn.read_packet gophermc.Wire.VarInt.read_var_int
    gophermc.Conn.copy_n gophermc.Conn.parse_data gophermc.Packets.Constructors.new_packet
    gophermc.Registry.Definitions.packet_name gophermc.Packets.Decode.decode gophermc.Conn.set_state
    definition_v1_21_11 gophermc.Wire.Fields.write_bool gophermc.Wire.Stream.read_byte
    gophermc.Conn.data_reader
configured = refl

configuration_ends_example :
    After
      (λ u c'. IsAt play c'.conn)
      (handle_configuration plain_library noon 3 (client_in configuration finish_configuration))
unfolding new_conn
configuration_ends_example =
    configuration_ends plain_library noon 3 (client_in configuration finish_configuration)
      (conn_in-Ready configuration finish_configuration) (omega arith)

read_loop_ends_example :
    Ending
      (λ u c'. Stopped c')
      Quiet
      (read_loop plain_library noon 11
        (record (client_in play keep_alive) { event_chan = some [] }))
unfolding new_conn
read_loop_ends_example =
    read_loop_ends plain_library noon 11
      (record (client_in play keep_alive) { event_chan = some [] }) (conn_in-Ready play keep_alive)
      tt (omega arith)

set_position_unsent_example :
    set_position plain_library noon 1 2 3 0 0 0 false (client_in play []) ≡ (
      err no_packet_id,
      record (client_in play []) {
        conn = some (record (conn_in play []) {
          registry = (get_definition (conn_in play []).version (conn_in play []).registry).1;
        });
        player_position = update 1 2 3 0 0 0 false (client_in play []).player_position;
      },
    )
set_position_unsent_example =
    set_position_unsent plain_library noon 1 2 3 0 0 0 false (client_in play []) (conn_in play [])
      refl refl
