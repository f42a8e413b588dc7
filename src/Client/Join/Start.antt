-- ===== src/Client/Join/Start.antt =====
-- The requests at the start of `Join`: from the dialled connection to the login state.
use mathlib.Core.Path.{subst}
use gophermc.Base.{
  ℕ, ◌%◌, sym, if◌then◌else◌, ◌≡◌, refl, false, [], length, arith, Bool-cases, inl, inr,
}
use gophermc.Base.Outcome.{Outcome, Action, ok, is_unknown_packet, ◌>>=◌, fail, invalid_username}
use gophermc.Client.{
  Client, close, connect, protocol, server_hostname, send_handshake, send_login, login_uuid,
  on_conn, write, port_of, protocol_of,
}
use gophermc.Client.Loop.Rule.{Then, Then-and_then}
use gophermc.Client.Steps.{Stays, if_connected-Stays, with_conn-Stays, Then-left, write-Stays}
use gophermc.Conn.{new_conn}
use gophermc.Packets.{Library, Moment, serverbound_login_start, serverbound_handshake}
use gophermc.Packets.Arrivals.{IsSound, get_definition-IsSound}
use gophermc.Packets.Encode.{bytes_eq, lift}
use gophermc.Registry.{get_definition}
use gophermc.Types.{State, handshaking}
use gophermc.Versions.{Version}
use gophermc.Wire.Stream.{Bytes, Reader, Writer}

pub connect-Stays :
    (input : Reader) (output : Writer) (c : Client)
    → IsSound (close c).1.registry
    → is_unknown_packet input.at_end ≡ false
    → Then
        (λ (u : Unit {0}) c'. Stays handshaking (length input.rest) c')
        (connect (ok (input, output)) c)
unfolding connect close new_conn
connect-Stays input output c h e = (record { state = refl; sound = h; end = e }, omega arith)

protocol-Stays :
    (v : Version) (s : State) (n : ℕ) (c : Client)
    → Stays s n c
    → Then (λ (a : ℕ) c'. Stays s n c') (protocol v c)
unfolding protocol on_conn
protocol-Stays v s n c h = Then-left (Stays s n) (protocol v c) (
    with_conn-Stays s s n c.conn
      (λ conn. (
        protocol_of (get_definition v conn.registry).0,
        record conn { registry = (get_definition v conn.registry).1 },
      ))
      c h.0 h.1
      (λ conn r. record {
        state = r.state;
        sound = get_definition-IsSound v conn.registry r.sound;
        end = r.end;
      })
      (λ conn. refl))

server_hostname-Stays :
    (s : State) (n : ℕ) (c : Client)
    → Stays s n c
    → Then (λ (a : Bytes) c'. Stays s n c') (server_hostname c)
unfolding server_hostname
server_hostname-Stays s n c h =
    Then-left (Stays s n) (server_hostname c) (subst (Stays s n) (sym same) h)
  where
    same : (server_hostname c).1 ≡ c
    same = ground arith

port-Stays :
    (s : State) (n : ℕ) (o : Outcome ℕ) (c : Client)
    → Stays s n c
    → Then (λ (a : ℕ) c'. Stays s n c') (lift o c)
port-Stays s n o c h = Then-left (Stays s n) (lift o c) h

-- The handshake's packet, once its fields are found.
addressed : Library → Moment → State → ℕ → Bytes → ℕ → Action Client (Unit {0})
unfolding write
addressed lib moment next version address port =
    write lib moment (serverbound_handshake version address (port % 65536) next)

pub send_handshake-Stays :
    (lib : Library) (moment : Moment) (next s : State) (n : ℕ) (c : Client)
    → Stays s n c
    → Then (λ (u : Unit {0}) c'. Stays s n c') (send_handshake lib moment next c)
unfolding send_handshake addressed
send_handshake-Stays lib moment next s n c h =
    if_connected-Stays s n c.conn
      (do
        version ← protocol c.version
        address ← server_hostname
        port ← lift (port_of c.addr)
        addressed lib moment next version address port)
      c
      (Then-and_then (λ (a : ℕ) c'. Stays s n c') (λ (u : Unit {0}) c'. Stays s n c')
        (protocol c.version c)
        (λ version. do
          address ← server_hostname
          port ← lift (port_of c.addr)
          addressed lib moment next version address port)
        (protocol-Stays c.version s n c h)
        (λ version c1 h1.
          Then-and_then (λ (a : Bytes) c'. Stays s n c') (λ (u : Unit {0}) c'. Stays s n c')
            (server_hostname c1)
            (λ address. do
              port ← lift (port_of c.addr)
              addressed lib moment next version address port)
            (server_hostname-Stays s n c1 h1)
            (λ address c2 h2.
              Then-and_then (λ (a : ℕ) c'. Stays s n c') (λ (u : Unit {0}) c'. Stays s n c')
                (lift (port_of c.addr) c2) (λ port. addressed lib moment next version address port)
                (port-Stays s n (port_of c.addr) c2 h2)
                (λ port c3 h3.
                  write-Stays lib moment (serverbound_handshake version address (port % 65536) next)
                    s n c3 h3))))

pub send_login-Stays :
    (lib : Library) (moment : Moment) (username uuid : Bytes) (s : State) (n : ℕ) (c : Client)
    → Stays s n c
    → Then (λ (u : Unit {0}) c'. Stays s n c') (send_login lib moment username uuid c)
unfolding send_login
send_login-Stays lib moment username uuid s n c h =
    if_connected-Stays s n c.conn
      (if bytes_eq c.username []
        then fail invalid_username
        else write lib moment (serverbound_login_start username (login_uuid lib c uuid)))
      c
      (elim (Bool-cases (bytes_eq c.username [])) [
        | inl empty ↦ rw empty tt
        | inr named ↦ rw named (
            write-Stays lib moment (serverbound_login_start username (login_uuid lib c uuid)) s n c
              h)
      ])
