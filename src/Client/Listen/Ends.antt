-- ===== src/Client/Listen/Ends.antt =====
-- The read loop ends, how it ends, and which events it never sends.
use mathlib.Core.Path.{subst}
use gophermc.Base.{
  ℕ, ◌<◌, ◌≡◌, refl, sym, ◌⊎◌, inl, inr, Bool, true, false, Option, none, some, List, [], ◌∷◌, ◌++◌,
  All, All-append, arith, Bool-cases,
}
use gophermc.Base.Outcome
use gophermc.Base.Outcome.{Outcome, Error, ok, err, panic, is_unknown_packet, pure}
use gophermc.Client.{
  Client, Event, disconnect_event, keep_alive_event, chat_message_event, from_server, from_error,
  write, read, on_conn, with_conn,
}
use gophermc.Client.Join.Rounds.{bytes_left}
use gophermc.Client.Listen.{sent, emit, logged, handle_packet, listen_read, listen_round, read_loop}
use gophermc.Client.Loop.{Round, again, finished, once}
use gophermc.Client.Loop.Rule.{Keeps}
use gophermc.Client.Loop.Total.{Ending, Yields, Yields-if, Ending-some, Ending-loop}
use gophermc.Client.Steps.{IsAt, HasRead, read-HasRead, write_leaves}
use gophermc.Packets.{
  Packet, Library, Moment, clientbound_keep_alive, serverbound_keep_alive, clientbound_chat_message,
  clientbound_disconnect,
}
use gophermc.Packets.Arrivals.{arrives}
use gophermc.Types.{play, state_code}

abbrev pub is_chat : Event → Bool
is_chat (chat_message_event message tree sender time) = true
is_chat _ = false

-- The client has a channel, and no ChatMessageEvent was sent.
abbrev pub IsQuiet : Option (List Event) → Type 0
IsQuiet none = ⊥
IsQuiet (some events) = All (λ e. is_chat e ≡ false) events

-- The last event tells of an error.
abbrev pub EndsInError : Option (List Event) → Type 0
EndsInError none = ⊥
EndsInError (some events) =
    (front : List Event) × (e : Error) × (events ≡ front ++ disconnect_event (from_error e) ∷ [])

-- In the play state, without a chat event so far.
pub record Listens (c : Client) : Type 0 where
  pub at : IsAt play c.conn
  pub quiet : IsQuiet c.event_chan

-- How the loop returns.
pub record Stopped (c : Client) : Type 0 where
  pub quiet : IsQuiet c.event_chan
  pub why : (c.cancelled ≡ true) ⊎ EndsInError c.event_chan

sent-IsQuiet :
    (e : Event) (o : Option (List Event)) → is_chat e ≡ false → IsQuiet o → IsQuiet (sent e o)
sent-IsQuiet e none h q = q
sent-IsQuiet e (some events) h q = All-append (λ e. is_chat e ≡ false) events (e ∷ []) q (h, tt)

sent-EndsInError :
    (e : Error) (o : Option (List Event))
    → IsQuiet o
    → EndsInError (sent (disconnect_event (from_error e)) o)
sent-EndsInError e none q = q
sent-EndsInError e (some events) q = (events, e, refl)

write-event_chan :
    (lib : Library) (moment : Moment) (p : Packet) (c : Client)
    → (write lib moment p c).1.event_chan ≡ c.event_chan
unfolding write on_conn with_conn
write-event_chan lib moment p c = ground arith

read-event_chan : (lib : Library) (c : Client) → (read lib c).1.event_chan ≡ c.event_chan
unfolding read on_conn with_conn
read-event_chan lib c = ground arith

-- What a panic leaves.
abbrev pub Quiet : Client → Type 0
Quiet c = IsQuiet c.event_chan

-- What a round has to establish, from `m` bytes to come.
abbrev ListenRound : ℕ → Round → Client → Type 0
ListenRound m = Keeps Listens Stopped bytes_left m

-- An error of the reply to a KeepAlive is dropped.
reply-ListenRound :
    (m id : ℕ) (o : Outcome (Unit {0}) × Client)
    → bytes_left o.1 < m
    → Listens o.1
    → Yields (ListenRound m) Quiet (
        Outcome.and_then
          (Outcome.and_then (logged o) (λ _. emit (keep_alive_event id)))
          (λ _. pure again))
unfolding emit
reply-ListenRound m id (ok u, c) l h =
    (record { at = h.at; quiet = sent-IsQuiet (keep_alive_event id) c.event_chan refl h.quiet }, l)
reply-ListenRound m id (err e, c) l h =
    (record { at = h.at; quiet = sent-IsQuiet (keep_alive_event id) c.event_chan refl h.quiet }, l)
reply-ListenRound m id (panic p, c) l h = h.quiet

handled-ListenRound :
    (lib : Library) (moment : Moment) (m : ℕ) (p : Packet) (c : Client)
    → bytes_left c < m
    → arrives (state_code play) p ≡ true
    → Listens c
    → Yields (ListenRound m) Quiet (listen_read lib moment (ok p) c)
unfolding listen_read handle_packet emit
handled-ListenRound lib moment m (clientbound_keep_alive id) c l a h =
    let w = write lib moment (serverbound_keep_alive id) c in
    let (at, no_more) =
      write_leaves lib moment (serverbound_keep_alive id) play (bytes_left c) c
        (h.at, omega arith) in
    reply-ListenRound m id w (omega arith) (record {
      at = at;
      quiet =
          subst IsQuiet (sym (write-event_chan lib moment (serverbound_keep_alive id) c)) h.quiet;
    })
handled-ListenRound lib moment m (clientbound_chat_message tree sender) c l a h = cc
handled-ListenRound lib moment m (clientbound_disconnect reason) c l a h = (
  record {
    at = h.at;
    quiet = sent-IsQuiet (disconnect_event (from_server reason)) c.event_chan refl h.quiet;
  },
  l,
)
handled-ListenRound lib moment m _ c l a h = (h, l)

listen_read-ListenRound :
    (lib : Library) (moment : Moment) (m : ℕ) (o : Outcome Packet) (c : Client)
    → HasRead play m o c
    → IsQuiet c.event_chan
    → Yields (ListenRound m) Quiet (listen_read lib moment o c)
unfolding listen_read emit
listen_read-ListenRound lib moment m (ok p) c h q =
    let (l, a) = h.on_ok p refl in
    handled-ListenRound lib moment m p c l a (record { at = h.stays.0; quiet = q })
listen_read-ListenRound lib moment m (err e) c h q = elim (Bool-cases (is_unknown_packet e)) [
  | inl unknown ↦ rw unknown (record { at = h.stays.0; quiet = q }, h.on_unknown e refl unknown)
  | inr other ↦ rw other (record {
    quiet = sent-IsQuiet (disconnect_event (from_error e)) c.event_chan refl q;
    why = inr (sent-EndsInError e c.event_chan q);
  })
]
listen_read-ListenRound lib moment m (panic p) c h q = q

listen_round-ListenRound :
    (lib : Library) (moment : Moment) (c : Client)
    → Listens c
    → Ending (ListenRound (bytes_left c)) Quiet (once (listen_round lib moment) c)
unfolding listen_round
listen_round-ListenRound lib moment c h =
    Ending-some (ListenRound (bytes_left c)) Quiet (listen_round lib moment c) (
      Yields-if (ListenRound (bytes_left c)) Quiet c.cancelled (ok finished, c)
        (listen_read lib moment (read lib c).0 (read lib c).1)
        (λ done. record { quiet = h.quiet; why = inl done })
        (λ _.
          listen_read-ListenRound lib moment (bytes_left c) (read lib c).0 (read lib c).1
            (read-HasRead lib play c h.at) (subst IsQuiet (sym (read-event_chan lib c)) h.quiet)))

-- From the play state, of a client with an event channel, the read loop ends, with a round for every
-- byte still to come and one as fuel. It returns because the client was cancelled or, as the last event
-- then says, by a read's error, or it ends in a panic. However it ends and whatever the server sent, no
-- ChatMessageEvent is among the events, if none was before.
pub read_loop_ends :
    (lib : Library) (moment : Moment) (fuel : ℕ) (c : Client)
    → IsAt play c.conn
    → IsQuiet c.event_chan
    → bytes_left c < fuel
    → Ending (λ (u : Unit {0}) c'. Stopped c') Quiet (read_loop lib moment fuel c)
unfolding read_loop
read_loop_ends lib moment fuel c at quiet l =
    Ending-loop Listens Stopped Quiet bytes_left (once (listen_round lib moment))
      (λ c h. listen_round-ListenRound lib moment c h) fuel c l (record { at = at; quiet = quiet })
