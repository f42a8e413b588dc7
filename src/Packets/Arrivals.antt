-- ===== src/Packets/Arrivals.antt =====
-- Which packets NewPacket can make of what a server sends, in each state, whatever the version.
use Prim.Native.String.{String}
use text.Mathlib.Text.{◌==◌ as str_eq}
use gophermc.Base.{
  ℕ, ◌≡◌, refl, Bool, true, false, Option, none, some, ◌==◌, ◌||◌, ==_iff, all, arith,
}
use gophermc.Base.Outcome.{Outcome, ok, err, unknown_packet, unknown_version}
use gophermc.Packets.{
  Packet, clientbound_status_response, clientbound_pong, clientbound_set_compression,
  clientbound_login_success, clientbound_finish_configuration, clientbound_config_keep_alive,
  clientbound_select_known_packs, clientbound_cookie_request, clientbound_config_ping,
  clientbound_join_game, clientbound_disconnect, serverbound_chat_message, clientbound_keep_alive,
  clientbound_custom_payload, clientbound_feature_flags, clientbound_registry_data,
  serverbound_handshake, Library,
}
use gophermc.Packets.Constructors.{packet_constructors, constructed, named, packet_of, new_packet}
use gophermc.Packets.Decode.{
  decode, decode_handshake, decode_login_success, decode_select_known_packs, decode_keep_alive,
  read_custom_payload, decode_feature_flags, decode_update_tags, decode_registry_data,
}
use gophermc.Registry.{Registry, get_definition}
use gophermc.Registry.Consistency.{
  all_entries, all_entries_checked, get_definition_checked, get_definition-all,
}
use gophermc.Registry.Definitions.{Definition, lookup, packet_name}
use gophermc.Registry.Tables.{protocol_registry}
use gophermc.Types.{State, Direction, state_code, clientbound}
use gophermc.Versions.{Version}
use gophermc.Wire.Stream.{Reader}

-- By the number of the state: 1 status, 2 login, 3 play, 4 configuration.
abbrev pub arrives : ℕ → Packet → Bool
arrives s (clientbound_status_response _) = s == 1
arrives s (clientbound_pong _) = s == 1 || s == 3
arrives s (clientbound_login_success _ _) = s == 2
arrives s (clientbound_set_compression _) = s == 2
arrives s (clientbound_disconnect _) = s == 2 || s == 3 || s == 4
arrives s (clientbound_cookie_request _) = s == 2 || s == 3 || s == 4
arrives s (clientbound_custom_payload _ _) = s == 3 || s == 4
arrives s (clientbound_feature_flags _) = s == 3 || s == 4
arrives s clientbound_join_game = s == 3
arrives s (clientbound_keep_alive _) = s == 3
arrives s (serverbound_chat_message _ _ _) = s == 3
arrives s (clientbound_config_keep_alive _) = s == 4
arrives s (clientbound_config_ping _) = s == 4
arrives s (clientbound_registry_data _ _) = s == 4
arrives s (clientbound_select_known_packs _) = s == 4
arrives s clientbound_finish_configuration = s == 4
arrives s _ = false

abbrev pub makes_arrival : ℕ → Option Packet → Bool
makes_arrival s none = false
makes_arrival s (some p) = arrives s p

-- An entry is checked if it is the client's own direction, or names a packet that arrives.
abbrev pub entry_checked : State → Direction → ℕ × String → Bool
entry_checked s clientbound (id, name) =
    makes_arrival (state_code s) (lookup str_eq name packet_constructors)
entry_checked s _ (id, name) = true

pub table_checked : Definition → Bool
unfolding all_entries packet_constructors
table_checked def = all_entries entry_checked def.packet_names

tables_checked : all (λ (v, def). table_checked def) protocol_registry ≡ true
unfolding table_checked protocol_registry
tables_checked = refl

-- A registry, with whatever GetDefinition added to it, whose tables pass that check.
abbrev pub IsSound : Registry → Type 0
IsSound reg = all (λ (v, def). table_checked def) reg ≡ true

pub protocol_registry-IsSound : IsSound protocol_registry
protocol_registry-IsSound = tables_checked

pub get_definition-IsSound :
    (v : Version) (reg : Registry) → IsSound reg → IsSound (get_definition v reg).1
get_definition-IsSound v reg h = get_definition-all table_checked v reg h

-- What NewPacket answers for a packet that comes from the server.
pub data Answer (s : State) : Outcome Packet → Type 0 where
  arrived : (p : Packet) → arrives (state_code s) p ≡ true → Answer s (ok p)
  unregistered : Answer s (err unknown_packet)
  no_table : Answer s (err unknown_version)

constructed-Answer :
    (s : State) (o : Option Packet)
    → makes_arrival (state_code s) o ≡ true
    → Answer s (constructed o)
unfolding constructed
constructed-Answer s none h = cc
constructed-Answer s (some p) h = arrived p h

named-Answer :
    (def : Definition) (s : State) (id : ℕ) (o : Option String)
    → table_checked def ≡ true
    → packet_name def s clientbound id ≡ o
    → Answer s (named o)
unfolding named table_checked packet_name
named-Answer def s id none c e = unregistered
named-Answer def s id (some name) c e =
    let (t, same, (j, key, checked)) =
      all_entries_checked ◌==◌ entry_checked def.packet_names s clientbound id c e in
    let code : state_code t ≡ state_code s = (==_iff (state_code t) (state_code s)).0 same in
    constructed-Answer s (lookup str_eq name packet_constructors) (rw code at checked)

packet_of-Answer :
    (o : Option Definition) (s : State) (id : ℕ)
    → ((def : Definition) → o ≡ some def → table_checked def ≡ true)
    → Answer s (packet_of o s clientbound id)
unfolding packet_of
packet_of-Answer none s id h = no_table
packet_of-Answer (some def) s id h =
    named-Answer def s id (packet_name def s clientbound id) (h def refl) refl

-- With a sound registry, in every state and version, a packet number from the server gives a packet
-- of those that arrive in that state, or ErrUnknownPacket, or the error of a version without a
-- table: no registered name lacks a constructor.
pub new_packet-Answer :
    (v : Version) (s : State) (id : ℕ) (reg : Registry)
    → IsSound reg
    → Answer s (new_packet v s clientbound id reg).0
unfolding new_packet
new_packet-Answer v s id reg h =
    packet_of-Answer (get_definition v reg).0 s id
      (λ def e. (get_definition_checked (λ (v, def). table_checked def) reg h v e).1)

-- Decoding fills a packet's fields and leaves it the packet that it is.
pub decode-arrives :
    (lib : Library) (p : Packet) (v : Version) (r : Reader) (s : ℕ) {q : Packet}
    → (decode lib p v r).0 ≡ ok q
    → arrives s q ≡ arrives s p
unfolding decode decode_handshake decode_login_success decode_select_known_packs decode_keep_alive
    read_custom_payload decode_feature_flags decode_update_tags decode_registry_data
decode-arrives lib (serverbound_handshake _ _ _ _) v r s e = ground arith
decode-arrives lib _ v r s e = ground arith
