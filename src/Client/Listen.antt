-- ===== src/Client/Listen.antt =====
-- `readLoop`, `handlePacket` and `JoinAndListen` of client.go. An event that is sent is added to the
-- channel's history: a send that has to wait for a receiver is taken to find one.
pub mod Ends
use gophermc.Base.{ℕ, true, Option, none, some, List, [], ◌∷◌, ◌++◌, if◌then◌else◌}
use gophermc.Base.Outcome
use gophermc.Base.Outcome.{Outcome, Error, ok, err, panic, Action, pure, is_unknown_packet}
use gophermc.Client.{
  Client, Event, ready_event, disconnect_event, keep_alive_event, chat_message_event, from_server,
  from_error, write, read,
}
use gophermc.Client.Join.{join}
use gophermc.Client.Loop.{Round, again, finished, Run, ◌>>◌, once, loop}
use gophermc.Component.{string}
use gophermc.Packets.{
  Packet, Library, Moment, clientbound_keep_alive, serverbound_keep_alive, clientbound_chat_message,
  clientbound_disconnect,
}
use gophermc.Wire.Stream.{Reader, Writer}

-- `if c.eventChan != nil { c.eventChan <- e }`
abbrev pub sent : Event → Option (List Event) → Option (List Event)
sent e none = none
sent e (some events) = some (events ++ e ∷ [])

unfoldable pub emit : Event → Action Client (Unit {0})
emit e c = (ok tt, record c { event_chan = sent e c.event_chan })

-- An error is logged and dropped.
abbrev pub logged : Outcome (Unit {0}) × Client → Outcome (Unit {0}) × Client
logged (ok u, c) = (ok tt, c)
logged (err e, c) = (ok tt, c)
logged (panic p, c) = (panic p, c)

unfoldable pub handle_packet : Library → Moment → Packet → Action Client (Unit {0})
unfolding emit write
handle_packet lib moment (clientbound_keep_alive id) =
    Outcome.◌>>◌ (λ c. logged (write lib moment (serverbound_keep_alive id) c))
      (emit (keep_alive_event id))
handle_packet lib moment (clientbound_chat_message tree sender) =
    emit (chat_message_event (string tree) tree sender moment.now)
handle_packet lib moment (clientbound_disconnect reason) = λ c. (
  ok tt,
  record c {
    event_chan = sent (disconnect_event (from_server reason)) c.event_chan;
    cancelled = true;
  },
)
handle_packet lib moment _ = pure tt

unfoldable pub listen_read : Library → Moment → Outcome Packet → Action Client Round
unfolding handle_packet emit
listen_read lib moment (ok p) = Outcome.◌>>◌ (handle_packet lib moment p) (pure again)
listen_read lib moment (err e) =
    if is_unknown_packet e
    then pure again
    else Outcome.◌>>◌ (emit (disconnect_event (from_error e))) (pure finished)
listen_read lib moment (panic p) = λ c. (panic p, c)

-- The `select`: a done context ends the loop before the next read.
unfoldable pub listen_round : Library → Moment → Action Client Round
unfolding listen_read read
listen_round lib moment c =
    if c.cancelled then (ok finished, c) else listen_read lib moment (read lib c).0 (read lib c).1

unfoldable pub read_loop : Library → Moment → ℕ → Run Client (Unit {0})
unfolding listen_round loop
read_loop lib moment fuel = loop fuel (once (listen_round lib moment))

-- JoinAndListen up to its return, with the ReadyEvent sent before the read loop's first event.
unfoldable pub join_and_listen :
    Library → Moment → ℕ → Outcome (Reader × Writer) → Run Client (Unit {0})
unfolding join emit
join_and_listen lib moment fuel dial = do
  join lib moment fuel dial
  once (λ c. (ok tt, record c { event_chan = some [] }))
  once (λ c. emit (ready_event c.username) c)
