-- ===== src/Tests/Join.antt =====
-- Join at a server that sets a compression threshold, and in the configuration sends a keep-alive, a
-- packet that the client does not know, and FinishConfiguration.
use gophermc.Base.{ℕ, ◌≡◌, refl, none, some, List, [], ◌∷◌, ◌++◌, Option, replicate, arith}
use gophermc.Base.Int.{ℤ, pos}
use gophermc.Base.Outcome.{ok, eof, unknown_packet, is_unknown_packet}
use gophermc.Client.{Client, Address, default_client}
use gophermc.Client.Join.{join, handle_configuration}
use gophermc.Client.Join.Arrival.{greeting, unset}
use gophermc.Client.Join.Success.{configuration_succeeds, join_succeeds}
use gophermc.Registry.{get_definition}
use gophermc.Conn.{new_conn}
use gophermc.Client.Join.Configured.{Serves, finishes, sends, sends_unknown, Configured}
use gophermc.Client.Join.Dialogue.{frames}
use gophermc.Client.Join.Replies.{replies, goes_on}
use gophermc.Client.Join.Speaks.{answered, Speaks}
use gophermc.Client.Join.Exchange.{coming}
use gophermc.Client.Join.Opens.{Opens, Fits, data_of, packed-Opens}
use gophermc.Client.Join.Welcome.{LogsIn, compresses, succeeds, acknowledgement}
use gophermc.Conn.Frame.{packed}
use gophermc.Wire.Fields.RoundTrip.{string_bytes}
use gophermc.Packets.{
  Packet, clientbound_config_keep_alive, clientbound_finish_configuration,
  clientbound_set_compression, clientbound_login_success, serverbound_client_settings,
  serverbound_config_keep_alive, serverbound_login_acknowledged,
}
use gophermc.Registry.Tables.V1_21_11.{definition_v1_21_11}
use gophermc.Tests.Samples.{plain_library, noon, sample_client, conn_in, client_in}
use gophermc.Types.{State, handshaking, login, configuration, codes}
use gophermc.Versions.{latest}
use gophermc.Wire.Stream.{Bytes, buffer, bytes_reader}

abbrev steve : Bytes
steve = replicate 16 1 ++ 5 ∷ codes "Steve" ++ 0 ∷ []

success_answered :
    answered plain_library latest login 2 steve
    ≡ ok (clientbound_login_success (codes "Steve") (replicate 16 1))
unfolding answered gophermc.Packets.Constructors.new_packet gophermc.Packets.Decode.decode
    gophermc.Registry.Tables.protocol_registry gophermc.Registry.get_definition
    gophermc.Registry.Definitions.packet_name gophermc.Wire.Fields.read_long
    gophermc.Wire.VarInt.read_var_int gophermc.Packets.Decode.decode_login_success
    gophermc.Wire.Fields.read_uuid gophermc.Wire.Fields.read_string gophermc.Wire.Stream.read_byte
success_answered = refl

compression_answered :
    answered plain_library latest login 3 (64 ∷ []) ≡ ok (clientbound_set_compression 64)
unfolding answered gophermc.Packets.Constructors.new_packet gophermc.Packets.Decode.decode
    gophermc.Registry.Tables.protocol_registry gophermc.Registry.get_definition
    gophermc.Registry.Definitions.packet_name gophermc.Wire.VarInt.read_var_int
    gophermc.Wire.Stream.read_byte
compression_answered = refl

abbrev framed : ℤ → ℕ → Bytes → Bytes
framed t id fields = string_bytes (packed plain_library t (data_of id fields))

framed-Opens :
    (t : ℤ) (id : ℕ) (fields : Bytes)
    → Fits plain_library t id fields
    → Opens plain_library t (framed t id fields) id fields
framed-Opens t id fields f = packed-Opens plain_library t id fields (λ bs. refl) f

abbrev served_packets : List (Option Packet)
served_packets =
    some (clientbound_config_keep_alive 5) ∷ none ∷ some clientbound_finish_configuration ∷ []

abbrev five : Bytes
five = replicate 7 0 ++ 5 ∷ []

abbrev server_bytes : Bytes
server_bytes =
    framed unset 3 (64 ∷ [])
    ++ (framed (pos 64) 2 steve
        ++ (framed (pos 64) 4 five
            ++ (framed (pos 64) 200 (1 ∷ []) ++ (framed (pos 64) 3 [] ++ (7 ∷ [])))))

logs_in : LogsIn plain_library latest (7 ∷ []) served_packets (pos 64) 2 unset server_bytes
unfolding answered gophermc.Packets.Constructors.new_packet gophermc.Packets.Decode.decode
    gophermc.Registry.Tables.protocol_registry gophermc.Registry.get_definition
    gophermc.Registry.Definitions.packet_name gophermc.Wire.Fields.read_long
    gophermc.Wire.VarInt.read_var_int gophermc.Wire.Stream.read_byte goes_on is_unknown_packet
    packed gophermc.Wire.VarInt.RoundTrip.var_int_bytes
logs_in =
    compresses 1 unset 3 64 (64 ∷ []) (framed unset 3 (64 ∷ [])) _
      (framed-Opens unset 3 (64 ∷ [])
        (record { number = omega arith; short = omega arith; fits = omega arith }))
      compression_answered
      (succeeds 2 steve (framed (pos 64) 2 steve) (codes "Steve") (replicate 16 1) _
        (framed-Opens (pos 64) 2 steve
          (record { number = omega arith; short = omega arith; fits = omega arith }))
        success_answered
        (sends 4 five (framed (pos 64) 4 five) (clientbound_config_keep_alive 5) _ _
          (framed-Opens (pos 64) 4 five
            (record { number = omega arith; short = omega arith; fits = omega arith }))
          refl refl
          (sends_unknown 200 (1 ∷ []) (framed (pos 64) 200 (1 ∷ [])) unknown_packet _ _
            (framed-Opens (pos 64) 200 (1 ∷ [])
              (record { number = omega arith; short = omega arith; fits = omega arith }))
            refl refl
            (finishes 3 [] (framed (pos 64) 3 [])
              (framed-Opens (pos 64) 3 []
                (record { number = omega arith; short = omega arith; fits = omega arith }))
              refl))))

abbrev config_bytes : Bytes
config_bytes = framed unset 4 five ++ (framed unset 3 [] ++ (7 ∷ []))

abbrev config_packets : List (Option Packet)
config_packets = some (clientbound_config_keep_alive 5) ∷ some clientbound_finish_configuration ∷ []

serves : Serves plain_library latest unset (7 ∷ []) config_packets config_bytes
unfolding answered gophermc.Packets.Constructors.new_packet gophermc.Packets.Decode.decode
    gophermc.Registry.Tables.protocol_registry gophermc.Registry.get_definition
    gophermc.Registry.Definitions.packet_name gophermc.Wire.Fields.read_long
    gophermc.Wire.VarInt.read_var_int gophermc.Wire.Stream.read_byte goes_on packed
    gophermc.Wire.VarInt.RoundTrip.var_int_bytes
serves =
    sends 4 five (framed unset 4 five) (clientbound_config_keep_alive 5) _ _
      (framed-Opens unset 4 five
        (record { number = omega arith; short = omega arith; fits = omega arith }))
      refl refl
      (finishes 3 [] (framed unset 3 [])
        (framed-Opens unset 3 []
          (record { number = omega arith; short = omega arith; fits = omega arith }))
        refl)

configuration-Speaks :
    Speaks latest configuration unset
      (coming config_bytes eof [])
      (conn_in configuration config_bytes)
unfolding new_conn
configuration-Speaks = record {
  version = refl;
  state = refl;
  threshold = refl;
  input = refl;
  output = refl;
  registry = λ v. refl;
}

configuration_succeeds_example :
    Configured plain_library noon sample_client unset
      (7 ∷ [])
      (frames plain_library noon sample_client unset
        (serverbound_client_settings sample_client.settings ∷ serverbound_config_keep_alive 5 ∷ []))
      eof
      (handle_configuration plain_library noon 2 (client_in configuration config_bytes))
unfolding default_client replies
configuration_succeeds_example =
    configuration_succeeds plain_library noon (λ bs l. omega arith) sample_client (omega arith)
      (omega arith) (omega arith)
      (record { locale = omega arith; chat_mode = omega arith; main_hand = omega arith }) unset 2
      config_packets config_bytes (7 ∷ []) [] eof (conn_in configuration config_bytes) serves
      (tt, (tt, tt)) (omega arith) configuration-Speaks

join_succeeds_example :
    Configured plain_library noon sample_client
      (pos 64)
      (7 ∷ [])
      (greeting plain_library noon sample_client
          (record { ip = codes "127.0.0.1"; port = 25565 })
          definition_v1_21_11
        ++ acknowledgement plain_library noon sample_client (pos 64) served_packets)
      eof
      (join plain_library noon 3 (ok (bytes_reader server_bytes, buffer [])) sample_client)
unfolding default_client get_definition gophermc.Registry.Tables.protocol_registry
    gophermc.Types.offline_uuid gophermc.Client.login_uuid
join_succeeds_example =
    join_succeeds plain_library noon (λ bs l. omega arith) sample_client (omega arith) (omega arith)
      (omega arith)
      (record { locale = omega arith; chat_mode = omega arith; main_hand = omega arith })
      (record { ip = codes "127.0.0.1"; port = 25565 }) definition_v1_21_11 (pos 64) 2 3
      served_packets server_bytes (7 ∷ []) eof refl (λ v. refl) refl refl refl (omega arith)
      (omega arith) (omega arith) logs_in (tt, (tt, (tt, tt))) (omega arith) (omega arith)
