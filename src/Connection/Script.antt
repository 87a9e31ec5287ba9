-- ===== src/Connection/Script.antt =====
-- A libpq for tests, which answers from lists and does what libpq documents.
use taopq.Base.{
  ℕ, zero, suc, ◌≤◌, ◌<◌, ◌≡◌, refl, ap, Bool, true, false, List, [], ◌∷◌, Option, none, some, ltb,
  length, codes, Result, ok, arith,
}
use taopq.Connection.{
  idle, PollStatus, timeout, readable, writable, again, Flushed, some_left, ResultStatus,
  Notification, all_sent, ended, taken, Libpq,
}
use taopq.Connection.Measure.{has_ended, Amounts, Below, Below-refl, Documented}

-- How much it has to read and to send, whether a signal comes, its notifications, and its results.
pub record Script : Type 0 where
  pub unsent : ℕ
  pub signal : Bool
  pub waiting : ℕ
  pub notes : List Notification
  pub results : List ResultStatus

abbrev pub next_note : Script → List Notification → Script × Option Notification
next_note s [] = (s, none)
next_note s (n ∷ ns) = (record s { notes = ns }, some n)

abbrev pub next_result : Script → List ResultStatus → Script × Option ResultStatus
next_result s [] = (s, none)
next_result s (r ∷ rs) = (record s { results = rs }, some r)

-- The socket is readable while there is input, and writable where that is asked for.
abbrev pub answer : ℕ → Bool → PollStatus
answer (suc n) w = readable
answer zero true = writable
answer zero false = timeout

-- A signal interrupts the first wait.
abbrev pub wake : Script → Bool → Bool → Script × Result PollStatus
wake s true w = (record s { signal = false }, ok again)
wake s false w = (s, ok (answer s.waiting w))

-- Byte by byte.
abbrev pub send_one : Script → ℕ → Script × Flushed
send_one s zero = (s, all_sent)
send_one s (suc zero) = (record s { unsent = 0 }, all_sent)
send_one s (suc (suc n)) = (record s { unsent = suc n }, some_left)

abbrev pub pred : ℕ → ℕ
pred zero = 0
pred (suc n) = n

abbrev pub script : Libpq Script ResultStatus
script = record {
  is_busy = λ s. ltb 0 s.waiting;
  flush = λ s. send_one s s.unsent;
  consume_input = λ s. (record s { waiting = pred s.waiting }, true);
  notifies = λ s. next_note s s.notes;
  get_result = λ s. next_result s s.results;
  status = λ r. r;
  cmd_tuples = λ r. codes "2";
  get_copy_data = λ s. (s, ended);
  put_copy_data = λ s buffer. (s, taken);
  put_copy_end = λ s message. (s, taken);
  cancel = λ s. (s, true);
  finish = λ s. s;
  socket = λ s. some 3;
  poll = λ s fd w. wake s s.signal w;
  send_prepare = λ s name statement. (s, true);
  send_query_params = λ s statement. (s, true);
  send_query_prepared = λ s statement. (s, true);
  escape_identifier = λ s identifier. some identifier;
  transaction_status = λ s. idle;
  enter_pipeline_mode = λ s. (s, true);
  exit_pipeline_mode = λ s. (s, true);
  pipeline_sync = λ s. (s, true);
  set_single_row_mode = λ s. (s, true);
}

abbrev pub signals : Bool → ℕ
signals true = 1
signals false = 0

-- What is still to come.
abbrev pub amounts : Amounts Script
amounts = record {
  unread = λ s. s.waiting;
  unsent = λ s. s.unsent;
  signals = λ s. signals s.signal;
  notes = λ s. length s.notes;
}

lowers :
    (l m : Script)
    → m.waiting ≤ l.waiting
    → m.unsent ≤ l.unsent
    → signals m.signal ≤ signals l.signal
    → length m.notes ≤ length l.notes
    → Below amounts l m
lowers l m a b c d = record { unread = a; unsent = b; signals = c; notes = d }

send_one-Below : (s : Script) (n : ℕ) → s.unsent ≡ n → Below amounts s (send_one s n).0
send_one-Below s zero e = Below-refl amounts s
send_one-Below s (suc zero) e =
    lowers s (record s { unsent = 0 }) (omega arith) (omega arith) (omega arith) (omega arith)
send_one-Below s (suc (suc n)) e =
    lowers s (record s { unsent = suc n }) (omega arith) (omega (arith, e)) (omega arith)
      (omega arith)

send_one-waiting : (s : Script) (n : ℕ) → (send_one s n).0.waiting ≡ s.waiting
send_one-waiting s zero = refl
send_one-waiting s (suc zero) = refl
send_one-waiting s (suc (suc n)) = refl

all_sent-left : all_sent ≡ some_left → ⊥
all_sent-left e = cc

send_one_left : (s : Script) (n : ℕ) → (send_one s n).1 ≡ some_left → 0 < (send_one s n).0.unsent
send_one_left s zero e = absurd (all_sent-left e)
send_one_left s (suc zero) e = absurd (all_sent-left e)
send_one_left s (suc (suc n)) e = omega arith

send_one_less : (s : Script) (n : ℕ) → 0 < n → (send_one s n).0.unsent < n
send_one_less s zero h = absurd (omega (arith, h))
send_one_less s (suc zero) h = omega arith
send_one_less s (suc (suc n)) h = omega arith

wake-Below : (s : Script) (b w : Bool) → s.signal ≡ b → Below amounts s (wake s b w).0
wake-Below s true w e =
    lowers s (record s { signal = false }) (omega arith) (omega arith) (omega arith) (omega arith)
wake-Below s false w e = Below-refl amounts s

wake-waiting : (s : Script) (b w : Bool) → (wake s b w).0.waiting ≡ s.waiting
wake-waiting s true w = refl
wake-waiting s false w = refl

wake-has_ended : (s : Script) (b w : Bool) → has_ended (wake s b w).1 ≡ true
unfolding has_ended
wake-has_ended s true w = refl
wake-has_ended s false w = refl

pred_less : (n : ℕ) → 0 < n → pred n < n
pred_less zero h = absurd (omega (arith, h))
pred_less (suc n) h = omega arith

pred_le : (n : ℕ) → pred n ≤ n
pred_le zero = omega arith
pred_le (suc n) = omega arith

abbrev pub is_again : Result PollStatus → Bool
is_again (ok again) = true
is_again _ = false

abbrev pub is_writable : Result PollStatus → Bool
is_writable (ok writable) = true
is_writable _ = false

answer-again : (n : ℕ) (w : Bool) → is_again (ok (answer n w)) ≡ true → ⊥
answer-again (suc n) w e = cc
answer-again zero true e = cc
answer-again zero false e = cc

answer-writable : (n : ℕ) (w : Bool) → is_writable (ok (answer n w)) ≡ true → w ≡ true
answer-writable (suc n) w e = cc
answer-writable zero true e = refl
answer-writable zero false e = cc

wake_again :
    (s : Script) (b w : Bool)
    → (wake s b w).1 ≡ ok again
    → signals (wake s b w).0.signal < signals b
wake_again s true w e = omega arith
wake_again s false w e = absurd (answer-again s.waiting w (ap is_again e))

wake_writable : (s : Script) (b w : Bool) → (wake s b w).1 ≡ ok writable → w ≡ true
wake_writable s true w e = let f = ap is_writable e in cc
wake_writable s false w e = answer-writable s.waiting w (ap is_writable e)

next_note_less :
    (s : Script) (ns : List Notification) (n : Notification)
    → (next_note s ns).1 ≡ some n
    → length (next_note s ns).0.notes < length ns
next_note_less s [] n e = cc
next_note_less s (m ∷ ns) n e = omega arith

next_note-Below :
    (s : Script) (ns : List Notification) → s.notes ≡ ns → Below amounts s (next_note s ns).0
next_note-Below s [] e = Below-refl amounts s
next_note-Below s (m ∷ ns) e =
    lowers s (record s { notes = ns }) (omega arith) (omega arith) (omega arith)
      (omega (arith, ap length e))

next_result_le :
    (s : Script) (rs : List ResultStatus) → length (next_result s rs).0.notes ≤ length s.notes
next_result_le s [] = omega arith
next_result_le s (r ∷ rs) = omega arith

busy-waiting : (n : ℕ) → ltb 0 n ≡ true → 0 < n
busy-waiting n e = ground arith

pub script-Documented : Documented script amounts
script-Documented = record {
  busy_unread = λ s e. busy-waiting s.waiting e;
  flush_lowers = λ s. send_one-Below s s.unsent refl;
  flush_keeps = λ s. send_one-waiting s s.unsent;
  flush_left = λ s e. send_one_left s s.unsent e;
  poll_lowers = λ s fd w. wake-Below s s.signal w refl;
  poll_keeps = λ s fd w. wake-waiting s s.signal w;
  poll_readable = λ s fd w e h t.
      pred_less (wake s s.signal w).0.waiting (omega (arith, h, wake-waiting s s.signal w));
  poll_writable = λ s fd w e. (
    wake_writable s s.signal w e,
    (λ h. send_one_less (wake s s.signal w).0 (wake s s.signal w).0.unsent h),
  );
  poll_again = λ s fd w e. wake_again s s.signal w e;
  poll_ends = λ s fd w. wake-has_ended s s.signal w;
  consume_lowers = λ s.
      lowers s (record s { waiting = pred s.waiting }) (pred_le s.waiting) (omega arith)
        (omega arith) (omega arith);
  notifies_lowers = λ s. next_note-Below s s.notes refl;
  notified = λ s n e. next_note_less s s.notes n e;
  result_notes = λ s. next_result_le s s.results;
}
