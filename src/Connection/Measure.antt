-- ===== src/Connection/Measure.antt =====
-- When the loops of a connection end: what is asked of libpq and the poll callback, and how far an
-- action may get.
use taopq.Base.{
  ℕ, ◌≤◌, ◌<◌, ◌≡◌, refl, Bool, true, false, Option, none, some, Error, Result, ok, throw, diverged,
  arith, ◌∙◌, ◌+◌, ◌*◌, ◌⊎◌,
}
use taopq.Base.Action.{Action, proceed}
use taopq.Connection.{
  Libpq, Connection, Notification, some_left, readable, writable, again, call, handle,
}

-- Anything but the answer of a loop whose fuel ran out.
unfoldable pub is_end : Error → Bool
is_end diverged = false
is_end _ = true

unfoldable pub has_ended : {A : Type 0} → Result A → Bool
has_ended (ok a) = true
has_ended (throw e) = is_end e

-- What is still to come: the bytes of input that `PQconsumeInput` has to read before the result is
-- complete, the bytes of output that `PQflush` has to send, the signals that will interrupt the poll
-- callback, and the notifications that libpq will hand out.
pub record Amounts (L : Type 0) : Type 0 where
  pub unread : L → ℕ
  pub unsent : L → ℕ
  pub signals : L → ℕ
  pub notes : L → ℕ

pub record Below {L : Type 0} (q : Amounts L) (l m : L) : Type 0 where
  pub unread : q.unread m ≤ q.unread l
  pub unsent : q.unsent m ≤ q.unsent l
  pub signals : q.signals m ≤ q.signals l
  pub notes : q.notes m ≤ q.notes l

-- Output that is left can be sent in part.
abbrev pub CanSend : {L R : Type 0} → Libpq L R → Amounts L → L → Type 0
CanSend pq q l = 0 < q.unsent l → q.unsent (pq.flush l).0 < q.unsent l

-- What libpq and `poll` document. A busy connection waits for input. `PQflush` sends output and reads
-- nothing, and its answer says whether output is left. The poll callback reads and sends nothing: when
-- the socket is readable, `PQconsumeInput` reads input or fails; it is writable only where that was
-- asked for, and `PQflush` sends some output then; `again` is a signal that interrupted it. A
-- notification is handed out once. That each of these is a number is what is assumed of the server and
-- of the process: the result is finite, and finitely many signals and notifications come meanwhile.
-- Nothing is said here of how often the loops of the code call any of it.
pub record Documented {L R : Type 0} (pq : Libpq L R) (q : Amounts L) : Type 0 where
  pub busy_unread : (l : L) → pq.is_busy l ≡ true → 0 < q.unread l
  pub flush_lowers : (l : L) → Below q l (pq.flush l).0
  pub flush_keeps : (l : L) → q.unread (pq.flush l).0 ≡ q.unread l
  pub flush_left : (l : L) → (pq.flush l).1 ≡ some_left → 0 < q.unsent (pq.flush l).0
  pub poll_lowers : (l : L) (fd : ℕ) (w : Bool) → Below q l (pq.poll l fd w).0
  pub poll_keeps : (l : L) (fd : ℕ) (w : Bool) → q.unread (pq.poll l fd w).0 ≡ q.unread l
  pub poll_readable :
      (l : L) (fd : ℕ) (w : Bool)
      → (pq.poll l fd w).1 ≡ ok readable
      → 0 < q.unread l
      → (pq.consume_input (pq.poll l fd w).0).1 ≡ true
      → q.unread (pq.consume_input (pq.poll l fd w).0).0 < q.unread (pq.poll l fd w).0
  pub poll_writable :
      (l : L) (fd : ℕ) (w : Bool)
      → (pq.poll l fd w).1 ≡ ok writable
      → (w ≡ true) × CanSend pq q (pq.poll l fd w).0
  pub poll_again :
      (l : L) (fd : ℕ) (w : Bool)
      → (pq.poll l fd w).1 ≡ ok again
      → q.signals (pq.poll l fd w).0 < q.signals l
  pub poll_ends : (l : L) (fd : ℕ) (w : Bool) → has_ended (pq.poll l fd w).1 ≡ true
  pub consume_lowers : (l : L) → Below q l (pq.consume_input l).0
  pub notifies_lowers : (l : L) → Below q l (pq.notifies l).0
  pub notified :
      (l : L) (n : Notification)
      → (pq.notifies l).1 ≡ some n
      → q.notes (pq.notifies l).0 < q.notes l
  pub result_notes : (l : L) → q.notes (pq.get_result l).0 ≤ q.notes l

pub Below-refl : {L : Type 0} (q : Amounts L) (l : L) → Below q l l
Below-refl q l = record {
  unread = omega arith;
  unsent = omega arith;
  signals = omega arith;
  notes = omega arith;
}

pub Below-trans : {L : Type 0} (q : Amounts L) (l m n : L) → Below q l m → Below q m n → Below q l n
Below-trans q l m n a b = record {
  unread = omega (arith, a.unread, b.unread);
  unsent = omega (arith, a.unsent, b.unsent);
  signals = omega (arith, a.signals, b.signals);
  notes = omega (arith, a.notes, b.notes);
}

-- The action has ended by an exception of its own, or like this.
abbrev pub Ends : {S A : Type 0} → (A → S → Type 0) → S × Result A → Type 0
Ends post (c, ok a) = post a c
Ends post (c, throw e) = is_end e ≡ true

pub ended :
    {S A : Type 0} (post : A → S → Type 0) (p : S × Result A) → Ends post p → has_ended p.1 ≡ true
unfolding has_ended
ended post (c, ok a) h = refl
ended post (c, throw e) h = h

pub proceed-Ends :
    {S A B : Type 0} (mid : A → S → Type 0) (post : B → S → Type 0) (p : S × Result A)
    (next : A → Action S B)
    → Ends mid p
    → ((a : A) (c : S) → mid a c → Ends post (next a c))
    → Ends post (proceed p next)
proceed-Ends mid post (c, ok a) next h k = k a c h
proceed-Ends mid post (c, throw e) next h k = h

pub Ends-weaken :
    {S A : Type 0} (mid post : A → S → Type 0) (p : S × Result A)
    → Ends mid p
    → ((a : A) (c : S) → mid a c → post a c)
    → Ends post p
Ends-weaken mid post (c, ok a) h k = k a c h
Ends-weaken mid post (c, throw e) h k = h

-- What happens to the amounts.
abbrev pub Lowers : {L H A : Type 0} → Amounts L → L → A → Connection L H → Type 0
Lowers q l a d = Below q l d.pgconn

-- Something was read.
abbrev pub Read : {L H A : Type 0} → Amounts L → L → A → Connection L H → Type 0
Read q l a d = Below q l d.pgconn × (q.unread d.pgconn < q.unread l)

-- How `wait` comes back: something was read, or output was asked for and can be sent.
abbrev pub Waited :
    {L R H A : Type 0} → Libpq L R → Amounts L → L → Bool → A → Connection L H → Type 0
Waited pq q l w a d =
    Below q l d.pgconn × ((q.unread d.pgconn < q.unread l) ⊎ ((w ≡ true) × CanSend pq q d.pgconn))

-- Twice the bytes that are left, and one more where it is not known that output can be sent next,
-- are fewer than the rounds.
abbrev pub Ranked : {L R : Type 0} → Libpq L R → Amounts L → ℕ → Bool → L → Type 0
Ranked pq q fuel w l =
    (2 * (q.unread l + q.unsent l) + 1 < fuel)
    ⊎ ((2 * (q.unread l + q.unsent l) < fuel) × (w ≡ true → CanSend pq q l))

pub handle-pgconn :
    {L H : Type 0} (n : Notification) (c : Connection L H) → (handle n c).pgconn ≡ c.pgconn
unfolding handle
handle-pgconn n c = call-pgconn _ n _ ∙ call-pgconn c.notification_handler n c
  where
    call-pgconn :
        {L H : Type 0} (h : Option H) (n : Notification) (c : Connection L H)
        → (call h n c).pgconn ≡ c.pgconn
    call-pgconn none n c = unfold call in refl
    call-pgconn (some h) n c = unfold call in refl
