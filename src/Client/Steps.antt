-- ===== src/Client/Steps.antt =====
-- What the client's reads, writes and state changes do to its connection.
use gophermc.Base.{ℕ, ◌≤◌, ◌<◌, ◌≡◌, refl, sym, ◌∙◌, true, false, Option, none, some, length, arith}
use gophermc.Base.Outcome.{
  Outcome, Context, Error, Action, ok, err, panic, wrapping, is_unknown_packet,
}
use gophermc.Client.{Client, with_conn, write, read, set_state, if_connected, send_client_settings}
use gophermc.Client.Loop.Rule.{Then, Then-wrapped}
use gophermc.Conn
use gophermc.Conn.{Conn, read_packet, write_packet}
use gophermc.Conn.Arrivals.{read_packet-Arrives}
use gophermc.Conn.Sync.{read_packet-Progress, write_packet-Written}
use gophermc.Packets.{Packet, Library, Moment, serverbound_client_settings}
use gophermc.Packets.Arrivals.{arrives, IsSound, get_definition-IsSound}
use gophermc.Packets.Constructors.{get_packet_id}
use gophermc.Registry.{get_definition}
use mathlib.Core.Path.{subst}
use gophermc.Types.{State, state_code, ClientSettings}

-- A connection in a given state, with a sound registry, whose input does not end by an error that
-- means an unknown packet.
pub record Ready (s : State) (conn : Conn) : Type 0 where
  pub state : conn.state ≡ s
  pub sound : IsSound conn.registry
  pub end : is_unknown_packet conn.input.at_end ≡ false

abbrev pub IsAt : State → Option Conn → Type 0
IsAt s none = ⊥
IsAt s (some conn) = Ready s conn

-- How many bytes the server has still to send.
abbrev pub left : Option Conn → ℕ
left none = 0
left (some conn) = length conn.input.rest

-- The state `s`, with at most `n` bytes still to come.
abbrev pub Stays : State → ℕ → Client → Type 0
Stays s n c = IsAt s c.conn × (left c.conn ≤ n)

-- A read keeps the state, and takes a byte at least if it returns a packet, which is one that
-- arrives in that state, or passes over an unknown one.
pub record HasRead (s : State) (n : ℕ) (o : Outcome Packet) (c : Client) : Type 0 where
  pub stays : Stays s n c
  pub on_ok : (p : Packet) → o ≡ ok p → (left c.conn < n) × (arrives (state_code s) p ≡ true)
  pub on_unknown : (e : Error) → o ≡ err e → is_unknown_packet e ≡ true → left c.conn < n

read_of-HasRead :
    (lib : Library) (s : State) (o : Option Conn) (c : Client)
    → IsAt s o
    → let (o', c') = with_conn o (read_packet lib) c in HasRead s (left o) o' c'
unfolding with_conn
read_of-HasRead lib s none c h = absurd h
read_of-HasRead lib s (some conn) c h =
    let p = read_packet-Progress lib conn in
    let a = read_packet-Arrives lib conn h.sound in
    record {
      stays = (
        record { state = p.state ∙ h.state; sound = a.sound; end = rw p.at_end h.end },
        p.no_more,
      );
      on_ok = λ q e. (p.on_ok q e, rw h.state at (a.fits q e));
      on_unknown = λ x e u. p.on_unknown x e u h.end;
    }

pub read-HasRead :
    (lib : Library) (s : State) (c : Client)
    → IsAt s c.conn
    → HasRead s (left c.conn) (read lib c).0 (read lib c).1
unfolding read
read-HasRead lib s c h = read_of-HasRead lib s c.conn c h

write_packet-IsSound :
    (lib : Library) (moment : Moment) (p : Packet) (conn : Conn)
    → IsSound conn.registry
    → IsSound (write_packet lib moment p conn).1.registry
write_packet-IsSound lib moment p conn h =
    subst IsSound (sym (registry lib moment p conn))
      (get_definition-IsSound conn.version conn.registry h)
  where
    registry :
        (lib : Library) (moment : Moment) (p : Packet) (conn : Conn)
        → (write_packet lib moment p conn).1.registry
          ≡ (get_definition conn.version conn.registry).1
    registry lib moment p conn = unfold write_packet get_packet_id in ground arith

-- An action on the connection that keeps its end of the input, or takes bytes off it.
pub with_conn-Stays :
    {A : Type 0} (s t : State) (n : ℕ) (o : Option Conn) (m : Action Conn A) (c : Client)
    → IsAt s o
    → left o ≤ n
    → ((conn : Conn) → Ready s conn → Ready t (m conn).1)
    → ((conn : Conn) → (m conn).1.input ≡ conn.input)
    → Stays t n (with_conn o m c).1
unfolding with_conn
with_conn-Stays s t n none m c h l ready input = absurd h
with_conn-Stays s t n (some conn) m c h l ready input = (ready conn h, rw (input conn) l)

-- What holds of the state that is left holds after a result without an error.
pub Then-left : {S A : Type 0} (Q : S → Type 0) (o : Outcome A × S) → Q o.1 → Then (λ a s. Q s) o
Then-left Q (ok a, s) h = h
Then-left Q (err e, s) h = tt
Then-left Q (panic p, s) h = tt

-- A write leaves the connection's state and input, also where it fails.
pub write_leaves :
    (lib : Library) (moment : Moment) (p : Packet) (s : State) (n : ℕ) (c : Client)
    → Stays s n c
    → Stays s n (write lib moment p c).1
unfolding write
write_leaves lib moment p s n c h =
    with_conn-Stays s s n c.conn (write_packet lib moment p) c h.0 h.1 ready
      (λ conn. (write_packet-Written lib moment p conn).input)
  where
    ready : (conn : Conn) → Ready s conn → Ready s (write_packet lib moment p conn).1
    ready conn r =
        let w = write_packet-Written lib moment p conn in
        record {
          state = w.state ∙ r.state;
          sound = write_packet-IsSound lib moment p conn r.sound;
          end = rw w.input r.end;
        }

pub write-Stays :
    (lib : Library) (moment : Moment) (p : Packet) (s : State) (n : ℕ) (c : Client)
    → Stays s n c
    → Then (λ (u : Unit {0}) c'. Stays s n c') (write lib moment p c)
write-Stays lib moment p s n c h =
    Then-left (Stays s n) (write lib moment p c) (write_leaves lib moment p s n c h)

pub set_state-Stays :
    (s t : State) (n : ℕ) (c : Client)
    → Stays s n c
    → Then (λ (u : Unit {0}) c'. Stays t n c') (set_state t c)
unfolding set_state Conn.set_state
set_state-Stays s t n c h =
    Then-left (Stays t n) (with_conn c.conn (λ conn. (ok tt, Conn.set_state t conn)) c) (
      with_conn-Stays s t n c.conn (λ conn. (ok tt, Conn.set_state t conn)) c h.0 h.1
        (λ conn r. record { state = refl; sound = r.sound; end = r.end }) (λ conn. refl))

pub wrapped_write-Stays :
    (x : Context) (lib : Library) (moment : Moment) (p : Packet) (s : State) (n : ℕ) (c : Client)
    → Stays s n c
    → Then (λ (u : Unit {0}) c'. Stays s n c') (wrapping x (write lib moment p) c)
wrapped_write-Stays x lib moment p s n c h =
    Then-wrapped (λ (u : Unit {0}) c'. Stays s n c') x (write lib moment p c).0
      (write lib moment p c).1 (write-Stays lib moment p s n c h)

pub if_connected-Stays :
    (s : State) (n : ℕ) (o : Option Conn) (m : Action Client (Unit {0})) (c : Client)
    → Then (λ (u : Unit {0}) c'. Stays s n c') (m c)
    → Then (λ (u : Unit {0}) c'. Stays s n c') (if_connected o m c)
unfolding if_connected
if_connected-Stays s n none m c h = tt
if_connected-Stays s n (some conn) m c h = h

pub send_client_settings-Stays :
    (lib : Library) (moment : Moment) (settings : ClientSettings) (s : State) (n : ℕ) (c : Client)
    → Stays s n c
    → Then (λ (u : Unit {0}) c'. Stays s n c') (send_client_settings lib moment settings c)
unfolding send_client_settings
send_client_settings-Stays lib moment settings s n c h =
    if_connected-Stays s n c.conn (write lib moment (serverbound_client_settings settings)) c
      (write-Stays lib moment (serverbound_client_settings settings) s n c h)
