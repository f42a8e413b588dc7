-- ===== src/Client/Threads/Twice.antt =====
-- A second `JoinAndListen` while the reader of the first one runs.
use gophermc.Base.{ℕ, ◌≤◌, ◌<◌, ◌≡◌, ◌≢◌, refl, true, false, some, arith}
use gophermc.Client.{Event}
use gophermc.Client.Threads.{
  joined, waiting, crashed, by_channel, Next, sending, World, update, Actor, by_user, by_reader,
  Step, join, make_first, make_again, close_closed, waited, start, greet, ready_sent, ready_taken,
  ready_closed, destroy, destroy_waited, close_last, close_last_closed, close_none, received,
  event_closed, done, read, passed_over, keep_alive, disconnected, failed, panicked, notice, nobody,
  event_sent, event_taken, loops, cancels, returns,
}
use gophermc.Client.Threads.Waiting.{Without, stay, then}

-- JoinAndListen is at its wait for a reader that is at a send to the channel `i`, which is closed.
pub record Doomed (i : ℕ) (e : Event) (k : Next) (w : World) : Type 0 where
  pub at_wait : w.user ≡ waiting
  pub counted : 1 ≤ w.readers
  pub at_send : w.reader ≡ sending i e k
  pub shut : w.closed i ≡ true

update-same : {A : Type 0} (f : ℕ → A) (i : ℕ) (a : A) → update f i a i ≡ a
update-same f i a = ground arith

update-other : {A : Type 0} (f : ℕ → A) (i j : ℕ) (a : A) → j ≢ i → update f i a j ≡ f j
update-other f i j a d = grind arith

-- The user's step that closes the channel. The new channel has another number.
second-Doomed :
    {w w' : World} (n i : ℕ) (e : Event) (k : Next)
    → Step w by_user w'
    → w.user ≡ joined n
    → w.event_chan ≡ some i
    → w.closed i ≡ false
    → i < w.made
    → 1 ≤ w.readers
    → w.reader ≡ sending i e k
    → Doomed i e k w'
second-Doomed n i e k (join m g) u c o l h r = cc
second-Doomed n i e k (make_first m g f) u c o l h r = cc
second-Doomed {w} n i e k (make_again m j g f p) u c o l h r =
    let same : j ≡ i = cc in
    record {
      at_wait = refl;
      counted = h;
      at_send = r;
      shut =
          rw
            (update-other (update w.closed j true) w.made i false (λ q. absurd (omega arith)), same)
            (update-same w.closed i true);
    }
second-Doomed n i e k (close_closed m j g f p) u c o l h r = let same : j ≡ i = cc in cc
second-Doomed n i e k (waited g z) u c o l h r = cc
second-Doomed n i e k (start g) u c o l h r = cc
second-Doomed n i e k (greet j g f) u c o l h r = cc
second-Doomed n i e k (ready_sent j name g f p) u c o l h r = cc
second-Doomed n i e k (ready_closed j g f) u c o l h r = cc
second-Doomed n i e k (destroy g) u c o l h r = cc
second-Doomed n i e k (destroy_waited g z) u c o l h r = cc
second-Doomed n i e k (close_last j g f p) u c o l h r = cc
second-Doomed n i e k (close_last_closed j g f p) u c o l h r = cc
second-Doomed n i e k (close_none g f) u c o l h r = cc

-- What a step does to such a world: the reader's stops the program, any other leaves it as it is.
data AfterDoomed (i : ℕ) (e : Event) (k : Next) (a : Actor) (w : World) : Type 0 where
  stops : a ≡ by_reader → w.user ≡ crashed by_channel → AfterDoomed i e k a w
  stays : a ≢ by_reader → Doomed i e k w → AfterDoomed i e k a w

Step-Doomed :
    {w w' : World} {a : Actor} (i : ℕ) (e : Event) (k : Next)
    → Step w a w'
    → w.user ≡ waiting
    → 1 ≤ w.readers
    → w.reader ≡ sending i e k
    → w.closed i ≡ true
    → AfterDoomed i e k a w'
Step-Doomed i e k (join m g) u n h o = cc
Step-Doomed i e k (make_first m g c) u n h o = cc
Step-Doomed i e k (make_again m j g c f) u n h o = cc
Step-Doomed i e k (close_closed m j g c f) u n h o = cc
Step-Doomed i e k (waited g z) u n h o = absurd (omega arith)
Step-Doomed i e k (start g) u n h o = cc
Step-Doomed i e k (greet j g c) u n h o = cc
Step-Doomed i e k (ready_sent j name g f p) u n h o = cc
Step-Doomed i e k (ready_taken j g f q) u n h o = cc
Step-Doomed i e k (ready_closed j g f) u n h o = cc
Step-Doomed i e k (destroy g) u n h o = cc
Step-Doomed i e k (destroy_waited g z) u n h o = cc
Step-Doomed i e k (close_last j g c f) u n h o = cc
Step-Doomed i e k (close_last_closed j g c f) u n h o = cc
Step-Doomed i e k (close_none g c) u n h o = cc
Step-Doomed i e k (done r c) u n h o = cc
Step-Doomed i e k (read r c) u n h o = cc
Step-Doomed i e k (passed_over r) u n h o = cc
Step-Doomed i e k (keep_alive id r) u n h o = cc
Step-Doomed i e k (disconnected reason r) u n h o = cc
Step-Doomed i e k (failed g r) u n h o = cc
Step-Doomed i e k (panicked r) u n h o = cc
Step-Doomed i e k (notice j g m r c) u n h o = cc
Step-Doomed i e k (nobody g m r c) u n h o = cc
Step-Doomed i e k (event_sent j g m r f p) u n h o = let same : j ≡ i = cc in cc
Step-Doomed i e k (event_taken j g m r f q) u n h o = let same : j ≡ i = cc in cc
Step-Doomed i e k (event_closed j g m r f) u n h o = stops refl refl
Step-Doomed i e k (loops r) u n h o = cc
Step-Doomed i e k (cancels r) u n h o = cc
Step-Doomed i e k (returns r) u n h o = cc
Step-Doomed i e k (received j g es q) u n h o =
    stays (λ q. cc) (record { at_wait = u; counted = n; at_send = h; shut = o })

Without-Doomed :
    (i : ℕ) (e : Event) (k : Next) {w w' : World}
    → Doomed i e k w
    → Without by_reader w w'
    → Doomed i e k w'
Without-Doomed i e k d stay = d
Without-Doomed i e k d (then a r other s) =
    let b = Without-Doomed i e k d r in
    others (Step-Doomed i e k s b.at_wait b.counted b.at_send b.shut) other
  where
    others : {a : Actor} {w : World} → AfterDoomed i e k a w → a ≢ by_reader → Doomed i e k w
    others (stops q u) other = absurd (other q)
    others (stays q b) other = b

-- The reader has a step, and every step of it stops the program.
pub record Stops (w : World) : Type 0 where
  pub crash : World
  pub step : Step w by_reader crash
  pub always : (w' : World) → Step w by_reader w' → w'.user ≡ crashed by_channel

-- A second JoinAndListen, with whatever capacity, behind its Join and before the channel is made, while
-- the reader of the first, which readerWg counts, is at a send to the client's channel: the call's next
-- step closes that channel, and from there on, whatever steps the others take, the call waits for the
-- reader, and the reader has a step, each of which stops the program.
pub join_again-crashed :
    {w w1 w2 : World} (n i : ℕ) (e : Event) (k : Next)
    → w.user ≡ joined n
    → w.event_chan ≡ some i
    → w.closed i ≡ false
    → i < w.made
    → 1 ≤ w.readers
    → w.reader ≡ sending i e k
    → Step w by_user w1
    → Without by_reader w1 w2
    → Doomed i e k w2 × Stops w2
join_again-crashed n i e k u c o l h r s run =
    let d = Without-Doomed i e k (second-Doomed n i e k s u c o l h r) run in
    (
      d,
      record {
        crash = _;
        step = event_closed i e k d.at_send d.shut;
        always = λ w' s. stopped (Step-Doomed i e k s d.at_wait d.counted d.at_send d.shut);
      },
    )
  where
    stopped : {w : World} → AfterDoomed i e k by_reader w → w.user ≡ crashed by_channel
    stopped (stops q u) = u
    stopped (stays q b) = absurd (q refl)
