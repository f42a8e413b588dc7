-- ===== src/Client/Threads/Waiting.antt =====
-- `Destroy` at `readerWg.Wait()`.
use gophermc.Base.{ℕ, ◌≤◌, ◌≡◌, ◌≢◌, refl, false, length, arith}
use gophermc.Client.{Event}
use gophermc.Client.Threads.{
  destroying, Next, reading, sending, World, Actor, by_receiver, by_network, Step, join, make_first,
  make_again, close_closed, waited, start, greet, ready_sent, ready_taken, ready_closed, destroy,
  close_last, close_last_closed, close_none, done, read, notice, nobody, loops, cancels, returns,
  passed_over, keep_alive, disconnected, failed, panicked, destroy_waited, event_sent, event_taken,
  event_closed, received,
}

-- What the reader waits for: the end of a ReadPacket, or room in a channel that is full.
pub data Awaits (w : World) : Actor → Type 0 where
  answer : w.reader ≡ reading → Awaits w by_network
  room :
      (i : ℕ) (e : Event) (k : Next)
      → w.reader ≡ sending i e k
      → w.closed i ≡ false
      → w.capacity i ≤ length (w.queue i)
      → Awaits w by_receiver

-- The user's goroutine is at `readerWg.Wait()` of Destroy, and the reader waits as well.
pub record Held (b : Actor) (w : World) : Type 0 where
  pub at_wait : w.user ≡ destroying
  pub counted : 1 ≤ w.readers
  pub awaits : Awaits w b

-- Steps of the others.
pub data Without (b : Actor) (w : World) : World → Type 0 where
  stay : Without b w w
  then : {w' w'' : World} (a : Actor) → Without b w w' → a ≢ b → Step w' a w'' → Without b w w''

Step-answer :
    {w w' : World} {a : Actor}
    → Step w a w'
    → a ≢ by_network
    → w.user ≡ destroying
    → 1 ≤ w.readers
    → w.reader ≡ reading
    → Held by_network w'
Step-answer (join m g) d u n h = cc
Step-answer (make_first m g c) d u n h = cc
Step-answer (make_again m j g c f) d u n h = cc
Step-answer (close_closed m j g c f) d u n h = cc
Step-answer (waited g z) d u n h = cc
Step-answer (start g) d u n h = cc
Step-answer (greet j g c) d u n h = cc
Step-answer (ready_sent j name g f p) d u n h = cc
Step-answer (ready_taken j g f q) d u n h = cc
Step-answer (ready_closed j g f) d u n h = cc
Step-answer (destroy g) d u n h = cc
Step-answer (close_last j g c f) d u n h = cc
Step-answer (close_last_closed j g c f) d u n h = cc
Step-answer (close_none g c) d u n h = cc
Step-answer (destroy_waited g z) d u n h = absurd (omega arith)
Step-answer (done r c) d u n h = cc
Step-answer (read r c) d u n h = cc
Step-answer (notice j g m r c) d u n h = cc
Step-answer (nobody g m r c) d u n h = cc
Step-answer (loops r) d u n h = cc
Step-answer (cancels r) d u n h = cc
Step-answer (returns r) d u n h = cc
Step-answer (passed_over r) d u n h = absurd (d refl)
Step-answer (keep_alive id r) d u n h = absurd (d refl)
Step-answer (disconnected reason r) d u n h = absurd (d refl)
Step-answer (failed g r) d u n h = absurd (d refl)
Step-answer (panicked r) d u n h = absurd (d refl)
Step-answer (event_sent j g m r f p) d u n h = cc
Step-answer (event_taken j g m r f q) d u n h = cc
Step-answer (event_closed j g m r f) d u n h = cc
Step-answer (received j g es q) d u n h = record { at_wait = u; counted = n; awaits = answer h }

Step-room :
    {w w' : World} {a : Actor} (i : ℕ) (e : Event) (k : Next)
    → Step w a w'
    → a ≢ by_receiver
    → w.user ≡ destroying
    → 1 ≤ w.readers
    → w.reader ≡ sending i e k
    → w.closed i ≡ false
    → w.capacity i ≤ length (w.queue i)
    → Held by_receiver w'
Step-room i e k (join m g) d u n h o l = cc
Step-room i e k (make_first m g c) d u n h o l = cc
Step-room i e k (make_again m j g c f) d u n h o l = cc
Step-room i e k (close_closed m j g c f) d u n h o l = cc
Step-room i e k (waited g z) d u n h o l = cc
Step-room i e k (start g) d u n h o l = cc
Step-room i e k (greet j g c) d u n h o l = cc
Step-room i e k (ready_sent j name g f p) d u n h o l = cc
Step-room i e k (ready_taken j g f q) d u n h o l = cc
Step-room i e k (ready_closed j g f) d u n h o l = cc
Step-room i e k (destroy g) d u n h o l = cc
Step-room i e k (close_last j g c f) d u n h o l = cc
Step-room i e k (close_last_closed j g c f) d u n h o l = cc
Step-room i e k (close_none g c) d u n h o l = cc
Step-room i e k (destroy_waited g z) d u n h o l = absurd (omega arith)
Step-room i e k (done r c) d u n h o l = cc
Step-room i e k (read r c) d u n h o l = cc
Step-room i e k (notice j g m r c) d u n h o l = cc
Step-room i e k (nobody g m r c) d u n h o l = cc
Step-room i e k (loops r) d u n h o l = cc
Step-room i e k (cancels r) d u n h o l = cc
Step-room i e k (returns r) d u n h o l = cc
Step-room i e k (passed_over r) d u n h o l = cc
Step-room i e k (keep_alive id r) d u n h o l = cc
Step-room i e k (disconnected reason r) d u n h o l = cc
Step-room i e k (failed g r) d u n h o l = cc
Step-room i e k (panicked r) d u n h o l = cc
Step-room i e k (event_sent j g m r f p) d u n h o l = absurd (grind arith)
Step-room i e k (event_taken j g m r f q) d u n h o l = absurd (d refl)
Step-room i e k (event_closed j g m r f) d u n h o l = cc
Step-room i e k (received j g es q) d u n h o l = absurd (d refl)

Step-Awaits :
    {w w' : World} {a b : Actor}
    → Awaits w b
    → Step w a w'
    → a ≢ b
    → w.user ≡ destroying
    → 1 ≤ w.readers
    → Held b w'
Step-Awaits (answer r) s d u n = Step-answer s d u n r
Step-Awaits (room i e k r o l) s d u n = Step-room i e k s d u n r o l

-- Destroy cancels the reader's context and waits for the reader, but neither a ReadPacket nor a send
-- to a channel looks at the context: while the server sends nothing and keeps the connection open, or
-- while the channel is full and nobody receives, Destroy does not return, whatever else goes on.
pub Without-Held : (b : Actor) {w w' : World} → Held b w → Without b w w' → Held b w'
Without-Held b h stay = h
Without-Held b h (then a r d s) =
    let held = Without-Held b h r in Step-Awaits held.awaits s d held.at_wait held.counted
