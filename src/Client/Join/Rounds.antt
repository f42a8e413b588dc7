-- ===== src/Client/Join/Rounds.antt =====
-- What the replies of `Join` and `handleConfiguration` do to the connection.
use gophermc.Base.{ℕ, ◌<◌, [], leb, ltb, arith, Bool-cases, inl, inr, if◌then◌else◌}
use gophermc.Base.Outcome.{
  Action, Context, wrapping, pure, known_packs_failed, finish_for_21_failed, finish_failed,
}
use gophermc.Client.{Client, write, set_state}
use gophermc.Client.Join.{answer, answer_known_packs, answer_finish}
use gophermc.Client.Loop.{Round, again}
use gophermc.Client.Loop.Rule.{Then, Then-and_then, Keeps}
use gophermc.Client.Steps.{IsAt, left, Stays, wrapped_write-Stays, set_state-Stays}
use gophermc.Packets.{
  Packet, Library, Moment, serverbound_finish_configuration, serverbound_select_known_packs,
}
use gophermc.Types.{State, play}
use gophermc.Versions.{Version, v1_21_3}

abbrev pub bytes_left : Client → ℕ
bytes_left c = left c.conn

-- What a round in the state `s` has to establish, from `m` bytes to come: it goes on in `s` with
-- fewer, or it returns nil in the play state.
abbrev pub RoundIn : State → ℕ → Round → Client → Type 0
RoundIn s m = Keeps (λ c. IsAt s c.conn) (λ c. IsAt play c.conn) bytes_left m

pub again-RoundIn :
    (s : State) (m n : ℕ) (x : Action Client (Unit {0})) (c : Client)
    → n < m
    → Then (λ (u : Unit {0}) c'. Stays s n c') (x c)
    → Then (RoundIn s m) (answer x again c)
again-RoundIn s m n x c h t =
    Then-and_then (λ (u : Unit {0}) c'. Stays s n c') (RoundIn s m) (x c) (λ _. pure again) t
      (λ u c' k. (k.0, omega arith))

-- A packet that is answered by another.
pub reply-RoundIn :
    (x : Context) (lib : Library) (moment : Moment) (p : Packet) (s : State) (m n : ℕ) (c : Client)
    → n < m
    → Stays s n c
    → Then (RoundIn s m) (answer (wrapping x (write lib moment p)) again c)
reply-RoundIn x lib moment p s m n c l h =
    again-RoundIn s m n (wrapping x (write lib moment p)) c l
      (wrapped_write-Stays x lib moment p s n c h)

pub known_packs-Stays :
    (lib : Library) (moment : Moment) (v : Version) (s : State) (n : ℕ) (c : Client)
    → Stays s n c
    → Then (λ (u : Unit {0}) c'. Stays s n c') (answer_known_packs lib moment v c)
unfolding answer_known_packs
known_packs-Stays lib moment v s n c h =
    Then-and_then (λ (u : Unit {0}) c'. Stays s n c') _ _ _
      (wrapped_write-Stays known_packs_failed lib moment (serverbound_select_known_packs []) s n c
        h)
      (λ u c' k. elim (Bool-cases (leb v1_21_3 v)) [
        | inl new ↦ rw new (
            wrapped_write-Stays finish_for_21_failed lib moment serverbound_finish_configuration s n
              c' k)
        | inr old ↦ rw old k
      ])

pub answer_finish-Stays :
    (lib : Library) (moment : Moment) (v : Version) (s : State) (n : ℕ) (c : Client)
    → Stays s n c
    → Then (λ (u : Unit {0}) c'. Stays play n c') (answer_finish lib moment v c)
unfolding answer_finish
answer_finish-Stays lib moment v s n c h =
    Then-and_then (λ (u : Unit {0}) c'. Stays s n c') (λ u c'. Stays play n c')
      ((if ltb v v1_21_3
          then wrapping finish_failed (write lib moment serverbound_finish_configuration)
          else pure tt)
        c)
      (λ _. set_state play)
      (elim (Bool-cases (ltb v v1_21_3)) [
        | inl old ↦
            rw old (
              wrapped_write-Stays finish_failed lib moment serverbound_finish_configuration s n c h)
        | inr new ↦ rw new h
      ])
      (λ u c' k. set_state-Stays s play n c' k)
