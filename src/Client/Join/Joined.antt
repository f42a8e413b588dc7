-- ===== src/Client/Join/Joined.antt =====
-- `Join` ends, and where it returns nil, in the play state.
use gophermc.Base.{
  ℕ, Option, none, some, ◌<◌, ◌≤◌, ◌≡◌, refl, true, false, leb, arith, Bool-cases, inl, inr, length,
}
use gophermc.Base.Outcome.{
  Outcome, ok, err, panic, wrapping, wrap_outcome, pure, is_unknown_packet, during_login,
  handshake_failed, login_acknowledged_failed,
}
use gophermc.Base.Int.{signed32}
use gophermc.Client.{
  Client, close, connect, write, read, set_state, send_handshake, send_login, send_client_settings,
  on_conn,
}
use gophermc.Client.Join.{
  answer, set_compression, handle_configuration, after_login, login_packet, login_round, join,
}
use gophermc.Client.Join.Ends.{configuration_ends}
use gophermc.Client.Join.Rounds.{bytes_left, RoundIn, again-RoundIn}
use gophermc.Client.Join.Start.{connect-Stays, send_handshake-Stays, send_login-Stays}
use gophermc.Client.Loop.{Round, again, finished, Run, ◌>>◌, run_then, once, loop}
use gophermc.Client.Loop.Rule.{
  Keeps, After, Then, After-once, After-run_then, Then-wrapped, After-loop,
}
use gophermc.Client.Steps.{
  IsAt, Stays, HasRead, read-HasRead, send_client_settings-Stays, set_state-Stays,
  wrapped_write-Stays, with_conn-Stays, Then-left,
}
use gophermc.Conn
use gophermc.Packets.{
  Packet, Library, Moment, clientbound_set_compression, clientbound_disconnect,
  clientbound_login_success, clientbound_join_game, clientbound_keep_alive,
  serverbound_login_acknowledged,
}
use gophermc.Packets.Arrivals.{IsSound, arrives}
use gophermc.Types.{State, handshaking, login, play, configuration, state_code}
use gophermc.Versions.{v1_20_2}
use gophermc.Wire.Stream.{Reader, Writer}

-- After a step that keeps to the state `s`, a run that is to end in `Q`.
after_step :
    {A : Type 0} (s : State) (n : ℕ) (Q : A → Client → Type 0) (o : Outcome (Unit {0}) × Client)
    (rest : Run Client A)
    → Then (λ (u : Unit {0}) c'. Stays s n c') o
    → ((c' : Client) → Stays s n c' → After Q (rest c'))
    → After Q (run_then (some o) (λ _. rest))
after_step s n Q o rest h g =
    After-run_then (λ (u : Unit {0}) c'. Stays s n c') Q (some o) (λ _. rest)
      (After-once (λ (u : Unit {0}) c'. Stays s n c') o h) (λ u c' k. g c' k)

ends-IsAt :
    (s : State) (n : ℕ) (o : Outcome (Unit {0}) × Client)
    → Then (λ (u : Unit {0}) c'. Stays s n c') o
    → After (λ (u : Unit {0}) c'. IsAt s c'.conn) (some o)
ends-IsAt s n (ok a, c) h = h.0
ends-IsAt s n (err e, c) h = tt
ends-IsAt s n (panic p, c) h = tt

set_compression-Stays :
    (t : ℕ) (s : State) (n : ℕ) (c : Client)
    → Stays s n c
    → Then (λ (u : Unit {0}) c'. Stays s n c') (set_compression t c)
unfolding set_compression on_conn Conn.set_compression
set_compression-Stays t s n c h = Then-left (Stays s n) (set_compression t c) (
    with_conn-Stays s s n c.conn (λ conn. (ok tt, Conn.set_compression (signed32 t) conn)) c h.0 h.1
      (λ conn r. record { state = r.state; sound = r.sound; end = r.end }) (λ conn. refl))

-- From the login state on, the rest of the login ends in the play state.
after_login-ends :
    (lib : Library) (moment : Moment) (fuel n : ℕ) (c : Client)
    → n < fuel
    → Stays login n c
    → After (λ (u : Unit {0}) c'. IsAt play c'.conn) (after_login lib moment fuel c)
unfolding after_login
after_login-ends lib moment fuel n c l h = elim (Bool-cases (leb v1_20_2 c.version)) [
  | inl new ↦ rw new (
      after_step login n (λ (u : Unit {0}) c'. IsAt play c'.conn)
        (wrapping login_acknowledged_failed (write lib moment serverbound_login_acknowledged) c)
        (do once (set_state configuration); handle_configuration lib moment fuel)
        (wrapped_write-Stays login_acknowledged_failed lib moment serverbound_login_acknowledged
          login n c h)
        (λ c1 h1.
          after_step configuration n (λ (u : Unit {0}) c'. IsAt play c'.conn)
            (set_state configuration c1) (handle_configuration lib moment fuel)
            (set_state-Stays login configuration n c1 h1)
            (λ c2 h2. configuration_ends lib moment fuel c2 h2.0 (omega arith))))
  | inr old ↦ rw old (
      after_step play n (λ (u : Unit {0}) c'. IsAt play c'.conn) (set_state play c)
        (once (send_client_settings lib moment c.settings)) (set_state-Stays login play n c h)
        (λ c1 h1.
          ends-IsAt play n (send_client_settings lib moment c.settings c1)
            (send_client_settings-Stays lib moment c.settings play n c1 h1)))
]

login_packet-RoundIn :
    (lib : Library) (moment : Moment) (fuel m n : ℕ) (p : Packet) (c : Client)
    → n < m
    → n < fuel
    → arrives (state_code login) p ≡ true
    → Stays login n c
    → After (RoundIn login m) (login_packet lib moment fuel p c)
unfolding login_packet
login_packet-RoundIn lib moment fuel m n (clientbound_set_compression t) c l f a h =
    After-once (RoundIn login m) (answer (set_compression t) again c)
      (again-RoundIn login m n (set_compression t) c l (set_compression-Stays t login n c h))
login_packet-RoundIn lib moment fuel m n (clientbound_disconnect reason) c l f a h = tt
login_packet-RoundIn lib moment fuel m n (clientbound_login_success id name) c l f a h =
    After-run_then (λ (u : Unit {0}) c'. IsAt play c'.conn) (RoundIn login m)
      (after_login lib moment fuel c) (λ _. once (pure finished))
      (after_login-ends lib moment fuel n c f h) (λ u c' k. k)
login_packet-RoundIn lib moment fuel m n clientbound_join_game c l f a h = cc
login_packet-RoundIn lib moment fuel m n (clientbound_keep_alive id) c l f a h = cc
login_packet-RoundIn lib moment fuel m n _ c l f a h = (h.0, omega arith)

login_read-RoundIn :
    (lib : Library) (moment : Moment) (fuel m : ℕ) (o : Outcome Packet) (c : Client)
    → m ≤ fuel
    → HasRead login m o c
    → After
        (RoundIn login m)
        (run_then (some (wrap_outcome during_login o, c)) (login_packet lib moment fuel))
login_read-RoundIn lib moment fuel m (ok p) c l h =
    let (less, a) = h.on_ok p refl in
    login_packet-RoundIn lib moment fuel m (bytes_left c) p c less (omega arith) a
      (h.stays.0, omega arith)
login_read-RoundIn lib moment fuel m (err e) c l h = tt
login_read-RoundIn lib moment fuel m (panic p) c l h = tt

-- Fewer bytes than a bound stay within it.
bounded :
    (fuel m : ℕ) (o : Option (Outcome Round × Client))
    → m ≤ fuel
    → After (RoundIn login m) o
    → After (Keeps (Stays login fuel) (λ c. IsAt play c.conn) bytes_left m) o
bounded fuel m none l h = h
bounded fuel m (some (ok again, c)) l h = ((h.0, omega arith), h.1)
bounded fuel m (some (ok finished, c)) l h = h
bounded fuel m (some (err e, c)) l h = tt
bounded fuel m (some (panic p, c)) l h = tt

login_round-Keeps :
    (lib : Library) (moment : Moment) (fuel : ℕ) (c : Client)
    → Stays login fuel c
    → After
        (Keeps (Stays login fuel) (λ c. IsAt play c.conn) bytes_left (bytes_left c))
        (login_round lib moment fuel c)
unfolding login_round
login_round-Keeps lib moment fuel c h =
    let r = read lib c in
    bounded fuel (bytes_left c)
      (run_then (some (wrap_outcome during_login r.0, r.1)) (login_packet lib moment fuel)) h.1
      (login_read-RoundIn lib moment fuel (bytes_left c) r.0 r.1 h.1 (read-HasRead lib login c h.0))

-- Join ends, with a round for every byte that the server sends and one as fuel, whatever the bytes
-- are; and if it returns nil, the connection is in the play state. The server's input may end by any
-- error that does not mean an unknown packet; the tables are sound.
pub join_ends :
    (lib : Library) (moment : Moment) (fuel : ℕ) (input : Reader) (output : Writer) (c : Client)
    → IsSound (close c).1.registry
    → is_unknown_packet input.at_end ≡ false
    → length input.rest < fuel
    → After (λ (u : Unit {0}) c'. IsAt play c'.conn) (join lib moment fuel (ok (input, output)) c)
unfolding join
join_ends lib moment fuel input output c sound end l =
    let n = length input.rest in
    let shake = send_handshake lib moment login in
    let greet : Client → Outcome (Unit {0}) × Client =
      λ c. send_login lib moment c.username c.unique_id c in
    let named : Run Client (Unit {0}) =
      λ c. once (wrapping handshake_failed (send_login lib moment c.username c.unique_id)) c in
    let rounds = loop fuel (login_round lib moment fuel) in
    let Joins : Unit {0} → Client → Type 0 = λ u c'. IsAt play c'.conn in
    after_step handshaking n Joins (connect (ok (input, output)) c)
      (do once (wrapping handshake_failed shake); once (set_state login); named; rounds)
      (connect-Stays input output c sound end)
      (λ c1 h1.
        after_step handshaking n Joins (wrapping handshake_failed shake c1)
          (do once (set_state login); named; rounds)
          (Then-wrapped (λ (u : Unit {0}) c'. Stays handshaking n c') handshake_failed (shake c1).0
            (shake c1).1 (send_handshake-Stays lib moment login handshaking n c1 h1))
          (λ c2 h2.
            after_step login n Joins (set_state login c2) (do named; rounds)
              (set_state-Stays handshaking login n c2 h2)
              (λ c3 h3.
                after_step login n Joins (wrapping handshake_failed greet c3) rounds
                  (Then-wrapped (λ (u : Unit {0}) c'. Stays login n c') handshake_failed
                    (greet c3).0 (greet c3).1
                    (send_login-Stays lib moment c3.username c3.unique_id login n c3 h3))
                  (λ c4 h4.
                    After-loop (Stays login fuel) (λ c. IsAt play c.conn) bytes_left
                      (login_round lib moment fuel) (λ c h. login_round-Keeps lib moment fuel c h)
                      fuel c4 (omega arith) (h4.0, omega arith)))))
