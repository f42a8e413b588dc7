-- ===== src/Client/Threads/Careful.antt =====
-- A client on which JoinAndListen is called only while it has no event channel: when it is new, or
-- behind a Destroy.
use mathlib.Core.Path.{subst}
use gophermc.Base.{ℕ, ◌≤◌, ◌≡◌, refl, sym, ap, ◌∙◌, Bool, true, false, Option, none, some, arith}
use gophermc.Client.Threads.{
  User, idle, joined, waiting, starting, greeting, sending_ready, destroying, closing, crashed,
  by_channel, by_packet, Reader, absent, selecting, reading, noticing, sending, sent, World, update,
  Actor, Step, join, make_first, make_again, close_closed, waited, start, greet, ready_sent,
  ready_taken, ready_closed, destroy, destroy_waited, close_last, close_last_closed, close_none,
  received, event_closed, done, read, passed_over, keep_alive, disconnected, failed, panicked,
  notice, nobody, event_sent, event_taken, loops, cancels, returns, fresh_client,
}

-- JoinAndListen comes behind Join only where there is no channel.
pub data Careful : World → Type 0 where
  begin : Careful fresh_client
  next :
      {w w' : World} (a : Actor)
      → Careful w
      → Step w a w'
      → ((n : ℕ) → w'.user ≡ joined n → w'.event_chan ≡ none)
      → Careful w'

-- By the user's place, with the readers' count and the channel.
abbrev pub UserAt : User → ℕ → Option ℕ → Type 0
UserAt idle n c = Unit
UserAt (joined size) n c = c ≡ none
UserAt waiting n c = Unit
UserAt starting n c = n ≡ 0
UserAt greeting n c = Unit
UserAt (sending_ready i) n c = c ≡ some i
UserAt destroying n c = Unit
UserAt closing n c = n ≡ 0
UserAt (crashed by_channel) n c = ⊥
UserAt (crashed by_packet) n c = Unit

abbrev pub ReaderAt : Reader → Option ℕ → Type 0
ReaderAt absent c = Unit
ReaderAt selecting c = Unit
ReaderAt reading c = Unit
ReaderAt (noticing e k) c = Unit
ReaderAt (sending i e k) c = c ≡ some i
ReaderAt (sent k) c = Unit

abbrev pub count : Reader → ℕ
count absent = 0
count selecting = 1
count reading = 1
count (noticing e k) = 1
count (sending i e k) = 1
count (sent k) = 1

abbrev pub Open : (ℕ → Bool) → Option ℕ → Type 0
Open closed c = (i : ℕ) → c ≡ some i → closed i ≡ false

pub record Kept (w : World) : Type 0 where
  pub user_at : UserAt w.user w.readers w.event_chan
  pub reader_at : ReaderAt w.reader w.event_chan
  pub counted : w.readers ≡ count w.reader
  pub open_ : Open w.closed w.event_chan
  pub told : w.user ≡ destroying → w.cancelled ≡ true

none_some : {A : Type 0} {i : ℕ} → ◌≡◌ {A = Option ℕ} none (some i) → A
none_some h = absurd (ground arith)

true_false : {A : Type 0} {b : Bool} → b ≡ true → b ≡ false → A
true_false h g = absurd (ground arith)

-- The user's place, once a step names it.
pub here : {w : World} {u : User} → Kept w → w.user ≡ u → UserAt u w.readers w.event_chan
here {w} k e = subst (λ u. UserAt u w.readers w.event_chan) e k.user_at

pub there : {w : World} {r : Reader} → Kept w → w.reader ≡ r → ReaderAt r w.event_chan
there {w} k e = subst (λ r. ReaderAt r w.event_chan) e k.reader_at

pub counts : {w : World} {r : Reader} → Kept w → w.reader ≡ r → w.readers ≡ count r
counts k e = k.counted ∙ ap count e

-- Without a channel the reader is not at a send, so that a new one changes nothing for it.
new_chan : (c : Option ℕ) (r : Reader) → ReaderAt r none → ReaderAt r c
new_chan c absent h = tt
new_chan c selecting h = tt
new_chan c reading h = tt
new_chan c (noticing e k) h = tt
new_chan c (sending i e k) h = none_some h
new_chan c (sent k) h = tt

-- While the reader runs, the user is at no place where it must not.
running : {n : ℕ} (m : ℕ) (c : Option ℕ) (u : User) → n ≡ 1 → UserAt u n c → UserAt u m c
running m c idle e h = h
running m c (joined size) e h = h
running m c waiting e h = h
running m c starting e h = absurd (omega arith)
running m c greeting e h = h
running m c (sending_ready i) e h = h
running m c destroying e h = h
running m c closing e h = absurd (omega arith)
running m c (crashed by_channel) e h = h
running m c (crashed by_packet) e h = h

Open-update : (closed : ℕ → Bool) (i : ℕ) → Open (update closed i false) (some i)
Open-update closed i j h = grind arith

gone : (c : Option ℕ) (r : Reader) → count r ≡ 0 → ReaderAt r c
gone c absent h = tt
gone c selecting h = absurd (omega arith)
gone c reading h = absurd (omega arith)
gone c (noticing e k) h = absurd (omega arith)
gone c (sending i e k) h = absurd (omega arith)
gone c (sent k) h = absurd (omega arith)

pub Step-Kept :
    {w w' : World} {a : Actor}
    → Step w a w'
    → ((n : ℕ) → w'.user ≡ joined n → w'.event_chan ≡ none)
    → Kept w
    → Kept w'
Step-Kept {w} (join n e) h k = record {
  user_at = h n refl;
  reader_at = k.reader_at;
  counted = k.counted;
  open_ = k.open_;
  told = λ q. cc;
}
Step-Kept {w} (make_first n e c) h k = record {
  user_at = tt;
  reader_at = new_chan (some w.made) w.reader (subst (λ c. ReaderAt w.reader c) c k.reader_at);
  counted = k.counted;
  open_ = Open-update w.closed w.made;
  told = λ q. cc;
}
Step-Kept {w} (make_again n i e c f) h k = none_some (sym (here k e) ∙ c)
Step-Kept {w} (close_closed n i e c f) h k = none_some (sym (here k e) ∙ c)
Step-Kept {w} (waited e z) h k = record {
  user_at = z;
  reader_at = k.reader_at;
  counted = k.counted;
  open_ = k.open_;
  told = λ q. cc;
}
Step-Kept {w} (start e) h k = record {
  user_at = tt;
  reader_at = tt;
  counted = rw (here k e) refl;
  open_ = k.open_;
  told = λ q. cc;
}
Step-Kept {w} (greet i e c) h k = record {
  user_at = c;
  reader_at = k.reader_at;
  counted = k.counted;
  open_ = k.open_;
  told = λ q. cc;
}
Step-Kept {w} (ready_sent i name e f room) h k = record {
  user_at = tt;
  reader_at = k.reader_at;
  counted = k.counted;
  open_ = k.open_;
  told = λ q. cc;
}
Step-Kept {w} (ready_taken i e f q) h k = record {
  user_at = tt;
  reader_at = k.reader_at;
  counted = k.counted;
  open_ = k.open_;
  told = λ q. cc;
}
Step-Kept {w} (ready_closed i e f) h k = true_false f (k.open_ i (here k e))
Step-Kept {w} (destroy e) h k = record {
  user_at = tt;
  reader_at = k.reader_at;
  counted = k.counted;
  open_ = k.open_;
  told = λ q. refl;
}
Step-Kept {w} (destroy_waited e z) h k = record {
  user_at = z;
  reader_at = k.reader_at;
  counted = k.counted;
  open_ = k.open_;
  told = λ q. cc;
}
Step-Kept {w} (close_last i e c f) h k = record {
  user_at = tt;
  reader_at = gone _ w.reader (sym k.counted ∙ here k e);
  counted = k.counted;
  open_ = λ j q. none_some q;
  told = λ q. cc;
}
Step-Kept {w} (close_last_closed i e c f) h k = true_false f (k.open_ i c)
Step-Kept {w} (close_none e c) h k = record {
  user_at = tt;
  reader_at = k.reader_at;
  counted = k.counted;
  open_ = k.open_;
  told = λ q. cc;
}
Step-Kept {w} (received i e es q) h k = record {
  user_at = k.user_at;
  reader_at = k.reader_at;
  counted = k.counted;
  open_ = k.open_;
  told = k.told;
}
Step-Kept {w} (event_closed i e n r f) h k = true_false f (k.open_ i (there k r))
Step-Kept {w} (done r c) h k = record {
  user_at = running _ _ w.user (counts k r) k.user_at;
  reader_at = tt;
  counted = rw (counts k r) refl;
  open_ = k.open_;
  told = k.told;
}
Step-Kept {w} (read r c) h k = record {
  user_at = k.user_at;
  reader_at = tt;
  counted = counts k r;
  open_ = k.open_;
  told = k.told;
}
Step-Kept {w} (passed_over r) h k = record {
  user_at = k.user_at;
  reader_at = tt;
  counted = counts k r;
  open_ = k.open_;
  told = k.told;
}
Step-Kept {w} (keep_alive id r) h k = record {
  user_at = k.user_at;
  reader_at = tt;
  counted = counts k r;
  open_ = k.open_;
  told = k.told;
}
Step-Kept {w} (disconnected reason r) h k = record {
  user_at = k.user_at;
  reader_at = tt;
  counted = counts k r;
  open_ = k.open_;
  told = k.told;
}
Step-Kept {w} (failed e r) h k = record {
  user_at = k.user_at;
  reader_at = tt;
  counted = counts k r;
  open_ = k.open_;
  told = k.told;
}
Step-Kept {w} (panicked r) h k = record {
  user_at = tt;
  reader_at = k.reader_at;
  counted = k.counted;
  open_ = k.open_;
  told = λ q. cc;
}
Step-Kept {w} (notice i e n r c) h k = record {
  user_at = k.user_at;
  reader_at = c;
  counted = counts k r;
  open_ = k.open_;
  told = k.told;
}
Step-Kept {w} (nobody e n r c) h k = record {
  user_at = k.user_at;
  reader_at = tt;
  counted = counts k r;
  open_ = k.open_;
  told = k.told;
}
Step-Kept {w} (event_sent i e n r f room) h k = record {
  user_at = k.user_at;
  reader_at = tt;
  counted = counts k r;
  open_ = k.open_;
  told = k.told;
}
Step-Kept {w} (event_taken i e n r f q) h k = record {
  user_at = k.user_at;
  reader_at = tt;
  counted = counts k r;
  open_ = k.open_;
  told = k.told;
}
Step-Kept {w} (loops r) h k = record {
  user_at = k.user_at;
  reader_at = tt;
  counted = counts k r;
  open_ = k.open_;
  told = k.told;
}
Step-Kept {w} (cancels r) h k = record {
  user_at = k.user_at;
  reader_at = tt;
  counted = counts k r;
  open_ = k.open_;
  told = λ q. refl;
}
Step-Kept {w} (returns r) h k = record {
  user_at = running _ _ w.user (counts k r) k.user_at;
  reader_at = tt;
  counted = rw (counts k r) refl;
  open_ = k.open_;
  told = k.told;
}

pub Careful-Kept : {w : World} → Careful w → Kept w
Careful-Kept begin = record {
  user_at = tt;
  reader_at = tt;
  counted = refl;
  open_ = λ i h. none_some h;
  told = λ q. cc;
}
Careful-Kept (next a c s h) = Step-Kept s h (Careful-Kept c)

-- What Careful promises.
pub record Steady (w : World) : Type 0 where
  pub standing : ¬ (w.user ≡ crashed by_channel)
  pub alone : w.readers ≤ 1
  pub awaited : w.user ≡ closing → w.reader ≡ absent
  pub usable : Open w.closed w.event_chan
