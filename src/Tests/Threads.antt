-- ===== src/Tests/Threads.antt =====
-- JoinAndListen and Destroy, with room for one event.
use gophermc.Base.{◌≤◌, refl, true, [], arith}
use gophermc.Client.{ready_event, keep_alive_event}
use gophermc.Client.Threads
use gophermc.Client.Threads.{
  World, crashed, idle, destroying, Reach, by_user, by_reader, by_receiver, by_network, join,
  make_first, waited, start, greet, ready_sent, read, received, destroy, fresh_client, reading,
  made_chan, closed_chan, enqueued, update, noticing, sending, go_on, joined, waiting, keep_alive,
  notice, make_again,
}
use gophermc.Client.Threads.Careful.{Careful, begin, next}
use gophermc.Client.Threads.Ends.{stay, then, Goes, destroy_returns}
use gophermc.Client.Threads.Twice.{Doomed, Stops, join_again-crashed}
use gophermc.Client.Threads.Waiting.{Held, answer, Without-Held}
use gophermc.Client.Threads.Waiting
use gophermc.Types.{codes}

-- The reader reads, and the ReadyEvent is in the channel.
abbrev listening : World
listening = record (enqueued 0 (ready_event (codes "Steve")) (made_chan 1 fresh_client)) {
  user = idle;
  reader = reading;
  readers = 1;
}

abbrev leaving : World
leaving = record listening { user = destroying; cancelled = true }

listening-Careful : Careful listening
listening-Careful =
    let c1 = next by_user begin (join 1 refl) (λ n q. refl) in
    let c2 = next by_user c1 (make_first 1 refl refl) (λ n q. cc) in
    let c3 = next by_user c2 (waited refl refl) (λ n q. cc) in
    let c4 = next by_user c3 (start refl) (λ n q. cc) in
    let c5 = next by_user c4 (greet 0 refl refl) (λ n q. cc) in
    let c6 = next by_user c5 (ready_sent 0 (codes "Steve") refl refl (omega arith)) (λ n q. cc) in
    next by_reader c6 (read refl refl) (λ n q. cc)

leaving-Careful : Careful leaving
leaving-Careful = next by_user listening-Careful (destroy refl) (λ n q. cc)

-- The server answers the read with a keep-alive.
abbrev answered : World
answered = record leaving { reader = noticing (keep_alive_event 7) go_on }

destroy_returns_example : (1 ≤ 7) × Goes answered
destroy_returns_example =
    destroy_returns leaving-Careful refl
      (then {w' = leaving} by_network stay refl (keep_alive 7 refl))

-- The receiver takes the ReadyEvent, and the server is silent.
Without-Held_example : Held by_network (record leaving { queue = update leaving.queue 0 [] })
Without-Held_example =
    Without-Held by_network (record { at_wait = refl; counted = omega arith; awaits = answer refl })
      (Waiting.then {w' = leaving} by_receiver Waiting.stay (λ q. cc)
        (received 0 (ready_event (codes "Steve")) [] refl))

-- A second Join returned while the reader is at the send of a KeepAliveEvent.
abbrev again : World
again = record listening { user = joined 4; reader = sending 0 (keep_alive_event 7) go_on }

again-Reach : Reach again
again-Reach =
    let w1 = Threads.next by_user Threads.begin (join 1 refl) in
    let w2 = Threads.next by_user w1 (make_first 1 refl refl) in
    let w3 = Threads.next by_user w2 (waited refl refl) in
    let w4 = Threads.next by_user w3 (start refl) in
    let w5 = Threads.next by_user w4 (greet 0 refl refl) in
    let w6 = Threads.next by_user w5 (ready_sent 0 (codes "Steve") refl refl (omega arith)) in
    let w7 = Threads.next by_reader w6 (read refl refl) in
    let w8 = Threads.next by_network w7 (keep_alive 7 refl) in
    let w9 = Threads.next by_reader w8 (notice 0 (keep_alive_event 7) go_on refl refl) in
    Threads.next by_user w9 (join 4 refl)

-- The channel is closed, and the ReadyEvent is taken from it.
abbrev shut : World
shut = record (made_chan 4 (closed_chan 0 again)) { user = waiting }

join_again-crashed_example :
    Doomed 0 (keep_alive_event 7) go_on (record shut { queue = update shut.queue 0 [] })
    × Stops (record shut { queue = update shut.queue 0 [] })
join_again-crashed_example =
    join_again-crashed {w = again} {w1 = shut} 4 0 (keep_alive_event 7) go_on refl refl refl
      (omega arith) (omega arith) refl (make_again 4 0 refl refl refl)
      (Waiting.then {w' = shut} by_receiver Waiting.stay (λ q. cc)
        (received 0 (ready_event (codes "Steve")) [] refl))
