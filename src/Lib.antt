-- ===== src/Lib.antt =====
-- The verification library of gophermc, a Minecraft client in Go.
--
-- The client (client.go, events.go) keeps a connection (protocol/conn.go), which frames packets
-- (protocol/packets.go), compresses them from a threshold on, and finds the packet for a number, or
-- the number for a packet, in the tables of the version that is spoken (protocol/registry.go,
-- protocol/generated_registry.go, protocol/constructors.go). The fields of a packet are read and
-- written by the helpers of protocol/protocol.go.
--
--   Base        results, errors, actions (a state in, a result and a state out), lists, bits, JSON
--               values
--   Wire        protocol/protocol.go: Stream is io.Reader and io.Writer; VarInt; Fields
--   Types       protocol/types.go
--   Versions    protocol/generated_versions.go; Release is parseReleaseVersion and FromString is
--               VersionFromString of protocol/registry.go
--   Registry    protocol/registry.go (GetDefinition); Tables is protocol/generated_registry.go,
--               one file for each table
--   Component   component/component.go: ChatComponent with String; Unmarshal is UnmarshalJSON
--   Packets     protocol/packets.go: Encode, Decode; Constructors is protocol/constructors.go with
--               NewPacket and GetPacketID of protocol/registry.go
--   Conn        protocol/conn.go: ReadPacket and WritePacket, step by step
--   Client      client.go: the state and the single requests; Status is GetStatus and Ping; Join is
--               Join and handleConfiguration; Listen is readLoop, handlePacket and JoinAndListen;
--               Loop is Go's `for`; Numbers lists what the client sends in each state; Options is
--               options.go; Threads is JoinAndListen, Destroy and the goroutine of readLoop, step
--               by step
--   Generator   generator/main.go: Names is goNameToMcNames and resolveAmbiguousNames, Mappings is
--               preParsePacketIDs, Versions is findBestProtoNum, Load is loadProtocolVersions and
--               loadAndParseProtocols over what their files hold
--   Tests       concrete runs
--
-- A Go function that returns an error is an action that answers ok, err or panic, with the state
-- that it leaves in each case. Names are the source's in snake case: ReadVarInt is read_var_int,
-- Conn.ReadPacket is Conn.read_packet, Client.handleConfiguration is
-- Client.Join.handle_configuration. An int32, int64 or float is its bit pattern, a natural number
-- below 2 ^ 32 or 2 ^ 64; a string is its bytes; a Version is a natural number (the source's int has
-- negative ones, which no constant is). A reader is the bytes that are still to come with the error
-- that follows them, so a server is all that it will ever send. The package variable
-- protocolRegistry, which GetDefinition writes, is carried in the connection, and in the client
-- while it has no connection.
--
-- The loops of Join, handleConfiguration and readLoop run on fuel: a round takes a byte at least
-- from the input or is the last but one, so one more than the bytes to come is enough.
-- WriteVarInt's loop is recursion on the value that it shifts, ReadVarInt's on the rounds that
-- MaxVarIntSize allows.
--
-- A server that speaks the protocol is a relation on the bytes that it sends: Client.Join.Welcome for
-- the login (SetCompression, LoginSuccess), Client.Join.Configured for the configuration. Its frames
-- are those of Client.Join.Opens: a length in any encoding, and a body, plain or deflated in any way
-- that inflates. Client.Join.Replies lists the packets that each packet is answered with.
--
-- A range over a Go map comes in any order: where the code may depend on it, the order is an argument
-- (the known versions in FromString, the table of names in Generator).
--
-- Client.Listen runs readLoop after the ReadyEvent was sent, with a receiver for every event, and
-- follows what it reads and writes. Client.Threads leaves the bytes away and follows the event channel
-- with its capacity, the WaitGroup, the context and the places of the two goroutines instead, in every
-- order of their steps. A packet on which ReadPacket panics stops the program there, as it does in Go.
--
-- What is not in this repository is an argument (Packets.Library, Packets.Moment): uuid.Parse, SHA-1,
-- SHA-256, RSA, zlib, the clock and the random salt; so are the dialler's answer, net.ResolveTCPAddr
-- and cases.Title. Of Go's standard library strconv.Atoi, strconv.ParseInt, strings.Split,
-- net.SplitHostPort and net.JoinHostPort are written out where they are used.
--
-- Not modelled: the scanner of encoding/json, which makes a value of a text; the generator's opening
-- of files, its sort and its templates; the command line program; log lines; the mutexes.
pub mod Base
pub mod Wire
pub mod Types
pub mod Versions
pub mod Registry
pub mod Component
pub mod Packets
pub mod Conn
pub mod Client
pub mod Generator
pub mod Tests
