-- ===== src/Packets/Made.antt =====
-- What NewPacket makes of a number from the server, by the tables.
use Prim.Native.String.{String}
use text.Mathlib.Text.{◌==◌ as str_eq}
use text.Mathlib.TextEquality.{eq_iff}
use gophermc.Base.{ℕ, ◌≡◌, ◌≢◌, sym, refl, ap, ◌∙◌, true, Option, none, some, all}
use gophermc.Base.Outcome.{unknown_packet, unknown_version, no_constructor, Outcome, ok, err}
use gophermc.Packets.{Packet, Library, serverbound_handshake}
use gophermc.Packets.Constructors.{
  type_name, packet_constructors, packet_types, id_of, packet_of, named, constructed, new_packet,
  get_packet_id,
}
use gophermc.Registry.Consistency.{
  lookup_checked, is_some_string, is_some_string→eq, packet_id-packet_name,
}
use gophermc.Registry.Definitions.{Definition, lookup, packet_name}
use gophermc.Registry.Tables.{protocol_registry}
use gophermc.Types.{State, state_code, clientbound}
use gophermc.Versions.{Version}
use gophermc.Packets.Arrivals.{
  arrives, Answer, arrived, new_packet-Answer, protocol_registry-IsSound,
}
use gophermc.Packets.Arrivals
use gophermc.Registry.{Registry, get_definition}
use gophermc.Registry.Cache.{Extends}

-- Each factory's packet has the factory's name for its type.
factories_named :
    all
      (λ (name, p). is_some_string name (lookup str_eq (type_name p) packet_types))
      packet_constructors
    ≡ true
unfolding packet_constructors packet_types type_name
factories_named = refl

pub factory-type_name :
    (name : String) (p : Packet)
    → lookup str_eq name packet_constructors ≡ some p
    → lookup str_eq (type_name p) packet_types ≡ some name
factory-type_name name p e =
    let (key, same, checked) =
      lookup_checked str_eq
        (λ (name, p). is_some_string name (lookup str_eq (type_name p) packet_types)) name
        packet_constructors factories_named e in
    is_some_string→eq key (lookup str_eq (type_name p) packet_types) checked
    ∙ ap some ((eq_iff key name).0 same)

pub name_of :
    (o : Option String) {blank : Packet}
    → named o ≡ ok blank
    → (name : String) × (o ≡ some name) × (lookup str_eq name packet_constructors ≡ some blank)
unfolding named constructed
name_of none e = cc
name_of (some name) e = (name, refl, made (lookup str_eq name packet_constructors) e)
  where
    made : (o : Option Packet) {blank : Packet} → constructed o ≡ ok blank → o ≡ some blank
    made none e = cc
    made (some p) e = cc

pub table_of :
    (o : Option Definition) (s : State) (id : ℕ) {blank : Packet}
    → packet_of o s clientbound id ≡ ok blank
    → (def : Definition) × (o ≡ some def) × (named (packet_name def s clientbound id) ≡ ok blank)
unfolding packet_of
table_of none s id e = cc
table_of (some def) s id e = (def, refl, e)

-- The answer for the number `id`: by what the version's table says of it.
pub data Made (v : Version) (s : State) (id : ℕ) (reg : Registry) : Outcome Packet → Type 0 where
  made :
      (p : Packet)
      → arrives (state_code s) p ≡ true
      → (get_packet_id v s clientbound p reg).0 ≡ some id
      → Made v s id reg (ok p)
  unregistered :
      (def : Definition)
      → (get_definition v reg).0 ≡ some def
      → packet_name def s clientbound id ≡ none
      → Made v s id reg (err unknown_packet)
  no_table : (get_definition v reg).0 ≡ none → Made v s id reg (err unknown_version)

Answer-arrives :
    (s : State) (o : Outcome Packet) (p : Packet)
    → Answer s o
    → o ≡ ok p
    → arrives (state_code s) p ≡ true
Answer-arrives s _ p (arrived q a) e = cc
Answer-arrives s _ p Arrivals.unregistered e = cc
Answer-arrives s _ p Arrivals.no_table e = cc

Answer-has_constructor : (s : State) (o : Outcome Packet) → Answer s o → o ≢ err no_constructor
Answer-has_constructor s _ (arrived q a) = λ e. cc
Answer-has_constructor s _ Arrivals.unregistered = λ e. cc
Answer-has_constructor s _ Arrivals.no_table = λ e. cc

constructed-Made :
    (v : Version) (s : State) (id : ℕ) (reg : Registry) (def : Definition) (name : String)
    (o : Option Packet)
    → (get_definition v reg).0 ≡ some def
    → (get_definition v protocol_registry).0 ≡ some def
    → packet_name def s clientbound id ≡ some name
    → lookup str_eq name packet_constructors ≡ o
    → Answer s (constructed o)
    → Made v s id reg (constructed o)
unfolding constructed get_packet_id id_of gophermc.Packets.Constructors.id_of_type
constructed-Made v s id reg def name none e f q l a = absurd (Answer-has_constructor s _ a refl)
constructed-Made v s id reg def name (some p) e f q l a =
    made p (Answer-arrives s _ p a refl)
      (rw (e, factory-type_name name p l) ((packet_id-packet_name v f s clientbound name id).1 q))

named-Made :
    (v : Version) (s : State) (id : ℕ) (reg : Registry) (def : Definition) (o : Option String)
    → (get_definition v reg).0 ≡ some def
    → (get_definition v protocol_registry).0 ≡ some def
    → packet_name def s clientbound id ≡ o
    → Answer s (named o)
    → Made v s id reg (named o)
unfolding named
named-Made v s id reg def none e f q a = unregistered def e q
named-Made v s id reg def (some name) e f q a =
    constructed-Made v s id reg def name (lookup str_eq name packet_constructors) e f q refl a

packet_of-Made :
    (v : Version) (s : State) (id : ℕ) (reg : Registry) (o : Option Definition)
    → (get_definition v reg).0 ≡ o
    → (get_definition v protocol_registry).0 ≡ o
    → Answer s (packet_of o s clientbound id)
    → Made v s id reg (packet_of o s clientbound id)
unfolding packet_of
packet_of-Made v s id reg none e f a = no_table e
packet_of-Made v s id reg (some def) e f a =
    named-Made v s id reg def (packet_name def s clientbound id) e f refl a

-- What NewPacket answers to any number from the server, in every version and state, with the
-- generated registry and whatever lookups were remembered in it. It is a packet of those that arrive in
-- that state, to which GetPacketID gives that number back; or ErrUnknownPacket, for a number
-- that the version's table does not name; or the error of a version without a table. No name of a
-- table lacks a constructor.
pub new_packet-Made :
    (v : Version) (s : State) (id : ℕ) (reg : Registry)
    → Extends reg
    → Made v s id reg (new_packet v s clientbound id reg).0
unfolding new_packet
new_packet-Made v s id reg x =
    packet_of-Made v s id reg (get_definition v reg).0 refl (sym (x v))
      (rw (x v) (new_packet-Answer v s id protocol_registry protocol_registry-IsSound))
