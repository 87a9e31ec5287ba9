-- ===== src/Connection/Poll.antt =====
-- `internal::poll`: src/lib/pq/internal/poll.cpp, the branch for POSIX. What the system's `poll` answers
-- for the one socket is an argument.
use taopq.Base.{
  ◌≡◌, refl, ap, Bool, true, false, not, ◌&&◌, ◌||◌, if◌then◌else◌, Result, ok, throw,
  network_error,
}
use taopq.Connection.{PollStatus, timeout, readable, writable, again}

-- The bits `POLLIN` and `POLLOUT` of `revents`.
pub record Revents : Type 0 where
  pub pollin : Bool
  pub pollout : Bool

-- `EINTR`, `EAGAIN`, and the other values of `errno`.
pub data Errno : Type 0 where
  eintr eagain other : Errno

-- The answers 0, 1 and -1.
pub data Polled : Type 0 where
  none_ready : Polled
  one_ready : Revents → Polled
  failed : Errno → Polled

-- The events that are asked for are `POLLIN`, and `POLLOUT` where `wait_for_write` says so.
unfoldable pub poll : Polled → Bool → Result PollStatus
poll none_ready wait_for_write = ok timeout
poll (one_ready r) wait_for_write =
    if not (r.pollin || wait_for_write && r.pollout)
    then throw network_error
    else if r.pollin
    then ok readable
    else ok writable
poll (failed eintr) wait_for_write = ok again
poll (failed eagain) wait_for_write = ok again
poll (failed other) wait_for_write = throw network_error

abbrev is_writable : Result PollStatus → Bool
is_writable (ok writable) = true
is_writable _ = false

asked_one :
    (pollin pollout w : Bool)
    → is_writable (
        if not (pollin || w && pollout)
        then throw network_error
        else if pollin
        then ok readable
        else ok writable)
      ≡ true
    → (w ≡ true) × (pollout ≡ true) × (pollin ≡ false)
asked_one true pollout w e = cc
asked_one false true true e = (refl, refl, refl)
asked_one false false true e = cc
asked_one false pollout false e = cc

-- `poll` only answers that the socket is writable when that was asked for, when the system says so,
-- and when there is nothing to be read: a wait for input alone does not come back for output.
pub poll-writable :
    (p : Polled) (wait_for_write : Bool)
    → poll p wait_for_write ≡ ok writable
    → (wait_for_write ≡ true) × (p ≡ one_ready (record { pollin = false; pollout = true }))
unfolding poll
poll-writable none_ready w e = let f = ap is_writable e in cc
poll-writable (one_ready r) w e =
    let (a, b, c) = asked_one r.pollin r.pollout w (ap is_writable e) in
    (a, λ i. one_ready (record { pollin = c i; pollout = b i }))
poll-writable (failed eintr) w e = let f = ap is_writable e in cc
poll-writable (failed eagain) w e = let f = ap is_writable e in cc
poll-writable (failed other) w e = let f = ap is_writable e in cc
