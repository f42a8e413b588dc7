-- ===== src/Client/Threads.antt =====
-- `JoinAndListen`, `Destroy` and the goroutine of `readLoop` in client.go, interleaved in any order:
-- the user's goroutine, the reader's, whoever receives from the channel, and the network, which
-- answers a ReadPacket whenever it likes. What Join, ReadPacket and WritePacket do to the connection
-- is in the other files.
pub mod Careful
pub mod Waiting
pub mod Twice
pub mod Ends
use gophermc.Base.{
  ℕ, suc, ◌+◌, ◌-◌, ◌<◌, ◌≡◌, Bool, true, false, Option, none, some, List, [], ◌∷◌, ◌++◌, ◌==◌,
  length, if◌then◌else◌,
}
use gophermc.Base.Outcome.{Error}
use gophermc.Client.{
  Event, ready_event, disconnect_event, keep_alive_event, from_server, from_error,
}
use gophermc.Wire.Stream.{Bytes}

-- Why the runtime stops the program: a closed channel was closed or sent to, or ReadPacket panicked
-- (Decode makes a slice of a length that the server chose, FeatureFlags of a negative one).
pub data Crash : Type 0 where
  by_channel by_packet : Crash

-- Where the user's goroutine stands.
pub data User : Type 0 where
  idle : User
  -- JoinAndListen, once Join returned nil: before the channel is made, at `readerWg.Wait()`, before
  -- `go c.readLoop()`, and before and at the send of the ReadyEvent.
  joined : (capacity : ℕ) → User
  waiting starting greeting : User
  sending_ready : (chan : ℕ) → User
  -- Destroy: at `readerWg.Wait()`, and behind it.
  destroying closing : User
  -- The runtime stopped the program.
  crashed : Crash → User

-- What the reader does when its event is sent.
pub data Next : Type 0 where
  go_on cancel_and_go_on return : Next

-- Where the reader's goroutine stands.
pub data Reader : Type 0 where
  absent : Reader
  -- At the `select`, in ReadPacket, before `if c.eventChan != nil`, at a send, and behind it.
  selecting reading : Reader
  noticing : Event → Next → Reader
  sending : (chan : ℕ) → Event → Next → Reader
  sent : Next → Reader

-- The channels that were made are numbered below `made`.
pub record World : Type 0 where
  pub user : User
  pub reader : Reader
  pub made : ℕ
  pub capacity : ℕ → ℕ
  pub queue : ℕ → List Event
  pub closed : ℕ → Bool
  pub event_chan : Option ℕ
  -- readerCtx is done.
  pub cancelled : Bool
  -- The count of readerWg.
  pub readers : ℕ

abbrev pub update {ℓ} : {A : Type ℓ} → (ℕ → A) → ℕ → A → ℕ → A
update f i a j = if i == j then a else f j

-- `make(chan Event, capacity)`
abbrev pub made_chan : ℕ → World → World
made_chan n w = record w {
  made = suc w.made;
  capacity = update w.capacity w.made n;
  queue = update w.queue w.made [];
  closed = update w.closed w.made false;
  event_chan = some w.made;
}

-- `close(chan)`
abbrev pub closed_chan : ℕ → World → World
closed_chan i w = record w { closed = update w.closed i true }

abbrev pub enqueued : ℕ → Event → World → World
enqueued i e w = record w { queue = update w.queue i (w.queue i ++ e ∷ []) }

-- Whose step it is: the receiver's is a take from a channel, also one that lets a waiting send pass;
-- the network's ends a ReadPacket.
pub data Actor : Type 0 where
  by_user by_reader by_receiver by_network : Actor

-- A send can be done where the channel is open and has room, or a receiver takes the event from the
-- sender, as it does where the queue is empty; on a closed channel it stops the program. The test for
-- nil and the load of the channel in front of a send are one step, as no step makes the field nil
-- while the reader runs.
pub data Step (w : World) : Actor → World → Type 0 where
  -- JoinAndListen.
  join : (n : ℕ) → w.user ≡ idle → Step w by_user (record w { user = joined n })
  make_first :
      (n : ℕ)
      → w.user ≡ joined n
      → w.event_chan ≡ none
      → Step w by_user (record (made_chan n w) { user = waiting })
  make_again :
      (n i : ℕ)
      → w.user ≡ joined n
      → w.event_chan ≡ some i
      → w.closed i ≡ false
      → Step w by_user (record (made_chan n (closed_chan i w)) { user = waiting })
  close_closed :
      (n i : ℕ)
      → w.user ≡ joined n
      → w.event_chan ≡ some i
      → w.closed i ≡ true
      → Step w by_user (record w { user = crashed by_channel })
  waited : w.user ≡ waiting → w.readers ≡ 0 → Step w by_user (record w { user = starting })
  start :
      w.user ≡ starting
      → Step w by_user (record w { user = greeting; reader = selecting; readers = w.readers + 1 })
  greet :
      (i : ℕ)
      → w.user ≡ greeting
      → w.event_chan ≡ some i
      → Step w by_user (record w { user = sending_ready i })
  ready_sent :
      (i : ℕ) (name : Bytes)
      → w.user ≡ sending_ready i
      → w.closed i ≡ false
      → length (w.queue i) < w.capacity i
      → Step w by_user (record (enqueued i (ready_event name) w) { user = idle })
  ready_taken :
      (i : ℕ)
      → w.user ≡ sending_ready i
      → w.closed i ≡ false
      → w.queue i ≡ []
      → Step w by_receiver (record w { user = idle })
  ready_closed :
      (i : ℕ)
      → w.user ≡ sending_ready i
      → w.closed i ≡ true
      → Step w by_user (record w { user = crashed by_channel })
  -- Destroy.
  destroy : w.user ≡ idle → Step w by_user (record w { user = destroying; cancelled = true })
  destroy_waited :
      w.user ≡ destroying → w.readers ≡ 0 → Step w by_user (record w { user = closing })
  close_last :
      (i : ℕ)
      → w.user ≡ closing
      → w.event_chan ≡ some i
      → w.closed i ≡ false
      → Step w by_user (record (closed_chan i w) { user = idle; event_chan = none })
  close_last_closed :
      (i : ℕ)
      → w.user ≡ closing
      → w.event_chan ≡ some i
      → w.closed i ≡ true
      → Step w by_user (record w { user = crashed by_channel })
  close_none : w.user ≡ closing → w.event_chan ≡ none → Step w by_user (record w { user = idle })
  -- readLoop.
  done :
      w.reader ≡ selecting
      → w.cancelled ≡ true
      → Step w by_reader (record w { reader = absent; readers = w.readers - 1 })
  read :
      w.reader ≡ selecting → w.cancelled ≡ false → Step w by_reader (record w { reader = reading })
  passed_over : w.reader ≡ reading → Step w by_network (record w { reader = selecting })
  keep_alive :
      (id : ℕ)
      → w.reader ≡ reading
      → Step w by_network (record w { reader = noticing (keep_alive_event id) go_on })
  disconnected :
      (reason : Bytes)
      → w.reader ≡ reading
      → Step w by_network
          (record w { reader = noticing (disconnect_event (from_server reason)) cancel_and_go_on })
  failed :
      (e : Error)
      → w.reader ≡ reading
      → Step w by_network (record w { reader = noticing (disconnect_event (from_error e)) return })
  panicked : w.reader ≡ reading → Step w by_network (record w { user = crashed by_packet })
  notice :
      (i : ℕ) (e : Event) (k : Next)
      → w.reader ≡ noticing e k
      → w.event_chan ≡ some i
      → Step w by_reader (record w { reader = sending i e k })
  nobody :
      (e : Event) (k : Next)
      → w.reader ≡ noticing e k
      → w.event_chan ≡ none
      → Step w by_reader (record w { reader = sent k })
  event_sent :
      (i : ℕ) (e : Event) (k : Next)
      → w.reader ≡ sending i e k
      → w.closed i ≡ false
      → length (w.queue i) < w.capacity i
      → Step w by_reader (record (enqueued i e w) { reader = sent k })
  event_taken :
      (i : ℕ) (e : Event) (k : Next)
      → w.reader ≡ sending i e k
      → w.closed i ≡ false
      → w.queue i ≡ []
      → Step w by_receiver (record w { reader = sent k })
  event_closed :
      (i : ℕ) (e : Event) (k : Next)
      → w.reader ≡ sending i e k
      → w.closed i ≡ true
      → Step w by_reader (record w { user = crashed by_channel })
  loops : w.reader ≡ sent go_on → Step w by_reader (record w { reader = selecting })
  cancels :
      w.reader ≡ sent cancel_and_go_on
      → Step w by_reader (record w { reader = selecting; cancelled = true })
  returns :
      w.reader ≡ sent return
      → Step w by_reader (record w { reader = absent; readers = w.readers - 1 })
  -- A receiver takes the oldest event.
  received :
      (i : ℕ) (e : Event) (es : List Event)
      → w.queue i ≡ e ∷ es
      → Step w by_receiver (record w { queue = update w.queue i es })

-- A new client.
abbrev pub fresh_client : World
fresh_client = record {
  user = idle;
  reader = absent;
  made = 0;
  capacity = λ _. 0;
  queue = λ _. [];
  closed = λ _. false;
  event_chan = none;
  cancelled = false;
  readers = 0;
}

-- What can come about. (A crash is the end: what the reader may still do behind one is of no account.)
pub data Reach : World → Type 0 where
  begin : Reach fresh_client
  next : {w w' : World} (a : Actor) → Reach w → Step w a w' → Reach w'
