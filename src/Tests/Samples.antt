-- ===== src/Tests/Samples.antt =====
-- The data of the tests: a library whose zlib leaves bytes as they are, and a server's bytes.
use gophermc.Base.{some, [], ◌∷◌, ◌++◌, replicate}
use gophermc.Base.Outcome.{ok}
use gophermc.Client.{Client, default_client}
use gophermc.Conn.{Conn, new_conn}
use gophermc.Packets.{Library, Moment}
use gophermc.Registry.Tables.{protocol_registry}
use gophermc.Types.{State, codes}
use gophermc.Versions.{latest}
use gophermc.Wire.Stream.{Bytes, Reader, buffer, bytes_reader}

abbrev pub plain_library : Library
plain_library = record {
  parse_uuid = λ text. ok text;
  sha1 = λ bs. replicate 20 7;
  sha256 = λ bs. replicate 32 7;
  sign = λ key digest. ok digest;
  deflate = λ bs. bs;
  inflate = λ bs. ok (bytes_reader bs);
}

abbrev pub noon : Moment
noon = record { now = 1700000000000; salt = 42 }

-- LoginSuccess for the name "Steve", then FinishConfiguration, by the numbers of 1.21.11.
abbrev pub login_success : Bytes
login_success = 24 ∷ 2 ∷ replicate 16 1 ++ 5 ∷ codes "Steve" ++ 0 ∷ []

abbrev pub finish_configuration : Bytes
finish_configuration = 1 ∷ 3 ∷ []

-- A KeepAlive in the play state.
abbrev pub keep_alive : Bytes
keep_alive = 9 ∷ 43 ∷ replicate 7 0 ++ 5 ∷ []

abbrev pub server_bytes : Reader
server_bytes = bytes_reader (login_success ++ finish_configuration)

abbrev pub sample_client : Client
sample_client = record (default_client protocol_registry) {
  addr = some (record { ip = codes "127.0.0.1"; port = 25565 });
}

-- A connection in a state, with bytes to come.
abbrev pub conn_in : State → Bytes → Conn
conn_in s bs = record (new_conn (bytes_reader bs) (buffer []) latest protocol_registry) {
  state = s;
}

abbrev pub client_in : State → Bytes → Client
client_in s bs = record sample_client { conn = some (conn_in s bs) }
