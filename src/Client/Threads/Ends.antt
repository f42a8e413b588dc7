-- ===== src/Client/Threads/Ends.antt =====
-- `Destroy` comes to its end.
use mathlib.Core.Path.{subst}
use gophermc.Base.{
  ℕ, ◌+◌, ◌≤◌, ◌≡◌, refl, Bool, true, false, Option, none, some, List, [], ◌∷◌, arith,
}
use gophermc.Client.{Event}
use gophermc.Client.Threads.{
  User, idle, joined, waiting, starting, greeting, sending_ready, destroying, closing, crashed,
  by_packet, Next, go_on, cancel_and_go_on, return, Reader, absent, selecting, reading, noticing,
  sending, sent, World, Actor, by_user, by_reader, by_receiver, by_network, Step, join, make_first,
  make_again, close_closed, waited, start, greet, ready_sent, ready_taken, ready_closed, destroy,
  destroy_waited, close_last, close_last_closed, close_none, received, event_closed, done, read,
  passed_over, keep_alive, disconnected, failed, panicked, notice, nobody, event_sent, event_taken,
  loops, cancels, returns,
}
use gophermc.Client.Threads.Careful.{Careful, Careful-Kept, Kept, Step-Kept, counts, there}

-- Destroy is at its wait, or behind it.
abbrev pub is_leaving : User → Bool
is_leaving destroying = true
is_leaving closing = true
is_leaving _ = false

-- How many steps Destroy, and the reader of a cancelled client, have still to take at most.
abbrev user_rank : User → ℕ
user_rank destroying = 2
user_rank closing = 1
user_rank _ = 0

abbrev reader_rank : Reader → ℕ
reader_rank absent = 0
reader_rank selecting = 1
reader_rank (sent k) = 2
reader_rank (sending i e k) = 3
reader_rank (noticing e k) = 4
reader_rank reading = 5

abbrev rank : World → ℕ
rank w = user_rank w.user + reader_rank w.reader

-- The steps that are counted: all but a receiver's.
abbrev pub cost : Actor → ℕ
cost by_receiver = 0
cost by_user = 1
cost by_reader = 1
cost by_network = 1

-- A run of all the goroutines while Destroy is under way, with the number of its counted steps.
pub data During (w : World) : ℕ → World → Type 0 where
  stay : During w 0 w
  then :
      {n : ℕ} {w' w'' : World} (a : Actor)
      → During w n w'
      → is_leaving w'.user ≡ true
      → Step w' a w''
      → During w (n + cost a) w''

-- Where the user can be from there on; behind Destroy there is no channel.
abbrev Place : User → Option ℕ → Type 0
Place destroying c = Unit
Place closing c = Unit
Place idle c = c ≡ none
Place (crashed by_packet) c = Unit
Place _ c = ⊥

leaving-Place : (u : User) (c : Option ℕ) → is_leaving u ≡ true → Place u c
leaving-Place destroying c h = tt
leaving-Place closing c h = tt
leaving-Place _ c h = cc

leaving-rank : (u : User) → is_leaving u ≡ true → 1 ≤ user_rank u
leaving-rank destroying h = omega arith
leaving-rank closing h = omega arith
leaving-rank _ h = cc

elsewhere :
    {A : Type 0} {u : User} (v : User) → is_leaving u ≡ true → u ≡ v → is_leaving v ≡ false → A
elsewhere v h e f = cc (rw e at h, f)

-- What one step does while Destroy is under way in a cancelled client.
record Advances (w : World) (a : Actor) (w' : World) : Type 0 where
  place : Place w'.user w'.event_chan
  cancelled : w'.cancelled ≡ true
  lower : cost a + rank w' ≤ rank w

Step-Advances :
    {w w' : World} {a : Actor}
    → Step w a w'
    → is_leaving w.user ≡ true
    → w.cancelled ≡ true
    → Kept w
    → Advances w a w'
Step-Advances (join n e) h c k = elsewhere idle h e refl
Step-Advances (make_first n e o) h c k = elsewhere (joined n) h e refl
Step-Advances (make_again n i e o f) h c k = elsewhere (joined n) h e refl
Step-Advances (close_closed n i e o f) h c k = elsewhere (joined n) h e refl
Step-Advances (waited e z) h c k = elsewhere waiting h e refl
Step-Advances (start e) h c k = elsewhere starting h e refl
Step-Advances (greet i e o) h c k = elsewhere greeting h e refl
Step-Advances (ready_sent i name e f room) h c k = elsewhere (sending_ready i) h e refl
Step-Advances (ready_taken i e f q) h c k = elsewhere (sending_ready i) h e refl
Step-Advances (ready_closed i e f) h c k = elsewhere (sending_ready i) h e refl
Step-Advances (destroy e) h c k = elsewhere idle h e refl
Step-Advances {w} (destroy_waited e z) h c k = record {
  place = tt;
  cancelled = c;
  lower = rw e (omega arith);
}
Step-Advances {w} (close_last i e o f) h c k = record {
  place = refl;
  cancelled = c;
  lower = rw e (omega arith);
}
Step-Advances {w} (close_last_closed i e o f) h c k = cc (f, k.open_ i o)
Step-Advances {w} (close_none e o) h c k = record {
  place = o;
  cancelled = c;
  lower = rw e (omega arith);
}
Step-Advances {w} (done r t) h c k = record {
  place = leaving-Place w.user w.event_chan h;
  cancelled = c;
  lower = rw r (omega arith);
}
Step-Advances {w} (read r f) h c k = cc
Step-Advances {w} (passed_over r) h c k = record {
  place = leaving-Place w.user w.event_chan h;
  cancelled = c;
  lower = rw r (omega arith);
}
Step-Advances {w} (keep_alive id r) h c k = record {
  place = leaving-Place w.user w.event_chan h;
  cancelled = c;
  lower = rw r (omega arith);
}
Step-Advances {w} (disconnected reason r) h c k = record {
  place = leaving-Place w.user w.event_chan h;
  cancelled = c;
  lower = rw r (omega arith);
}
Step-Advances {w} (failed x r) h c k = record {
  place = leaving-Place w.user w.event_chan h;
  cancelled = c;
  lower = rw r (omega arith);
}
Step-Advances {w} (panicked r) h c k = record {
  place = tt;
  cancelled = c;
  lower = omega (arith, leaving-rank w.user h);
}
Step-Advances {w} (notice i x n r o) h c k = record {
  place = leaving-Place w.user w.event_chan h;
  cancelled = c;
  lower = rw r (omega arith);
}
Step-Advances {w} (nobody x n r o) h c k = record {
  place = leaving-Place w.user w.event_chan h;
  cancelled = c;
  lower = rw r (omega arith);
}
Step-Advances {w} (event_sent i x n r f room) h c k = record {
  place = leaving-Place w.user w.event_chan h;
  cancelled = c;
  lower = rw r (omega arith);
}
Step-Advances {w} (event_taken i x n r f q) h c k = record {
  place = leaving-Place w.user w.event_chan h;
  cancelled = c;
  lower = rw r (omega arith);
}
Step-Advances {w} (event_closed i x n r f) h c k = cc (f, k.open_ i (there k r))
Step-Advances {w} (loops r) h c k = record {
  place = leaving-Place w.user w.event_chan h;
  cancelled = c;
  lower = rw r (omega arith);
}
Step-Advances {w} (cancels r) h c k = record {
  place = leaving-Place w.user w.event_chan h;
  cancelled = refl;
  lower = rw r (omega arith);
}
Step-Advances {w} (returns r) h c k = record {
  place = leaving-Place w.user w.event_chan h;
  cancelled = c;
  lower = rw r (omega arith);
}
Step-Advances {w} (received i x es q) h c k = record {
  place = leaving-Place w.user w.event_chan h;
  cancelled = c;
  lower = omega arith;
}

record Leaves (w : World) (n : ℕ) (w' : World) : Type 0 where
  kept : Kept w'
  place : Place w'.user w'.event_chan
  cancelled : w'.cancelled ≡ true
  lower : n + rank w' ≤ rank w

During-Leaves :
    {w w' : World} {n : ℕ} → Kept w → w.user ≡ destroying → During w n w' → Leaves w n w'
During-Leaves {w} k e stay = record {
  kept = k;
  place = rw e tt;
  cancelled = k.told e;
  lower = omega arith;
}
During-Leaves {w} k e (then {n} {w'} {w''} a d h s) =
    let l = During-Leaves k e d in
    let x = Step-Advances s h l.cancelled l.kept in
    let unjoined : (size : ℕ) → w''.user ≡ joined size → w''.event_chan ≡ none =
      λ size j. absurd (subst (λ u. Place u w''.event_chan) j x.place) in
    record {
      kept = Step-Kept s unjoined l.kept;
      place = x.place;
      cancelled = x.cancelled;
      lower = omega (arith, l.lower, x.lower);
    }

-- Destroy has returned, or there is a step that brings it on: one of the user's, the reader's or the
-- network's, or, where the reader is at a send, one of a receiver.
pub data Goes (w : World) : Type 0 where
  returned : w.user ≡ idle → w.event_chan ≡ none → Goes w
  stopped : w.user ≡ crashed by_packet → Goes w
  counted : {w' : World} (a : Actor) → cost a ≡ 1 → Step w a w' → Goes w
  receives :
      {w' : World} (i : ℕ) (e : Event) (k : Next)
      → w.reader ≡ sending i e k
      → Step w by_receiver w'
      → Goes w

from_noticing :
    (w : World) (e : Event) (k : Next) (c : Option ℕ)
    → w.event_chan ≡ c
    → w.reader ≡ noticing e k
    → Goes w
from_noticing w e k none c r = counted by_reader refl (nobody e k r c)
from_noticing w e k (some i) c r = counted by_reader refl (notice i e k r c)

from_sending :
    (w : World) (i : ℕ) (e : Event) (k : Next) (es : List Event)
    → w.queue i ≡ es
    → w.closed i ≡ false
    → w.reader ≡ sending i e k
    → Goes w
from_sending w i e k [] q f r = receives i e k r (event_taken i e k r f q)
from_sending w i e k (g ∷ es) q f r = receives i e k r (received i g es q)

from_sent : (w : World) (k : Next) → w.reader ≡ sent k → Goes w
from_sent w go_on r = counted by_reader refl (loops r)
from_sent w cancel_and_go_on r = counted by_reader refl (cancels r)
from_sent w return r = counted by_reader refl (returns r)

from_reader :
    (w : World) (r : Reader)
    → w.reader ≡ r
    → Kept w
    → w.cancelled ≡ true
    → w.user ≡ destroying
    → Goes w
from_reader w absent r k c u = counted by_user refl (destroy_waited u (counts k r))
from_reader w selecting r k c u = counted by_reader refl (done r c)
from_reader w reading r k c u = counted by_network refl (passed_over r)
from_reader w (noticing e m) r k c u = from_noticing w e m w.event_chan refl r
from_reader w (sending i e m) r k c u =
    from_sending w i e m (w.queue i) refl (k.open_ i (there k r)) r
from_reader w (sent m) r k c u = from_sent w m r

from_closing : (w : World) (c : Option ℕ) → w.event_chan ≡ c → Kept w → w.user ≡ closing → Goes w
from_closing w none c k u = counted by_user refl (close_none u c)
from_closing w (some i) c k u = counted by_user refl (close_last i u c (k.open_ i c))

from_Place :
    (w : World) (u : User)
    → w.user ≡ u
    → Place u w.event_chan
    → Kept w
    → w.cancelled ≡ true
    → Goes w
from_Place w destroying e p k c = from_reader w w.reader refl k c e
from_Place w closing e p k c = from_closing w w.event_chan refl k e
from_Place w idle e p k c = returned e p
from_Place w (crashed by_packet) e p k c = stopped e
from_Place w _ e p k c = absurd p

reader_rank-five : (r : Reader) → reader_rank r ≤ 5
reader_rank-five absent = omega arith
reader_rank-five selecting = omega arith
reader_rank-five reading = omega arith
reader_rank-five (noticing e k) = omega arith
reader_rank-five (sending i e k) = omega arith
reader_rank-five (sent k) = omega arith

-- In a program that calls JoinAndListen only while it has no channel: from its wait on, Destroy takes
-- at most seven steps of the user, the reader and the network, in whatever order all goroutines run;
-- and wherever a run stands, Destroy has returned and the client has no channel, or a packet on which
-- ReadPacket panics stopped the program, or one of the user, the reader and the network has a step, or
-- the reader is at a send and a receiver has one.
pub destroy_returns :
    {w w' : World} {n : ℕ} → Careful w → w.user ≡ destroying → During w n w' → (n ≤ 7) × Goes w'
destroy_returns {w} {w'} c e d =
    let l = During-Leaves (Careful-Kept c) e d in
    let start : rank w ≤ 7 = rw e (omega (arith, reader_rank-five w.reader)) in
    (omega (arith, l.lower, start), from_Place w' w'.user refl l.place l.kept l.cancelled)
