-- ===== src/Connection/Frame.antt =====
-- What the functions that talk to libpq do not touch: a property of a connection that depends neither
-- on libpq's part nor on the calls of the handlers is kept by all of them, exceptions included.
use taopq.Base.{
  ℕ, zero, suc, Bool, true, false, Option, none, some, Bool-cases, inl, inr, Error, Result, ok,
  throw,
}
use taopq.Base.Action.{Action, pure, proceed}
use taopq.Connection.{
  Libpq, Connection, Notification, PollStatus, timeout, readable, writable, again, Flushed,
  all_sent, some_left, not_sent, handle, flushed, expect, libpq, flush, consume_input, handle_one,
  handle_loop, handle_notifications, get_notifications, given_socket, socket, polled, wait_loop,
  wait, flush_again, busy_loop, get_result,
}

pub record Stable {L H : Type 0} (P : Connection L H → Type 0) : Type 0 where
  pub pgconn : (c : Connection L H) (l : L) → P c → P (record c { pgconn = l })
  pub handle : (c : Connection L H) (n : Notification) → P c → P (handle n c)

module _ {L R H : Type 0} (pq : Libpq L R) (limit : ℕ) (P : Connection L H → Type 0)
    (p : Stable P) where
  -- Every end of the action has the property.
  abbrev pub Keeps : {A : Type 0} → Action (Connection L H) A → Type 0
  Keeps m = (c : Connection L H) → P c → P (m c).0

  pub proceed-P :
      {A B : Type 0} (q : Connection L H × Result A) (next : A → Action (Connection L H) B)
      → P q.0
      → ((a : A) → Keeps (next a))
      → P (proceed q next).0
  proceed-P (c, ok a) next h k = k a c h
  proceed-P (c, throw e) next h k = h

  pub bind-Keeps :
      {A B : Type 0} (m : Action (Connection L H) A) (next : A → Action (Connection L H) B)
      → Keeps m
      → ((a : A) → Keeps (next a))
      → Keeps (λ c. proceed (m c) next)
  bind-Keeps m next h k c l = proceed-P (m c) next (h c l) k

  pub libpq-Keeps : {A : Type 0} (f : L → L × A) → Keeps (libpq f)
  unfolding libpq
  libpq-Keeps f c h = p.pgconn c (f c.pgconn).0 h

  pub expect-Keeps : (e : Error) (b : Bool) → Keeps (expect e b)
  unfolding expect
  expect-Keeps e true c h = h
  expect-Keeps e false c h = h

  handle_loop-Keeps : (fuel : ℕ) → Keeps (handle_loop pq limit fuel)
  unfolding handle_loop
  handle_loop-Keeps zero = λ c h. h
  handle_loop-Keeps (suc fuel) =
      bind-Keeps (libpq pq.notifies) (handle_one pq limit (handle_loop pq limit fuel))
        (libpq-Keeps pq.notifies) (handle_one-Keeps fuel (handle_loop-Keeps fuel))
    where
      handle_one-Keeps :
          (fuel : ℕ)
          → Keeps (handle_loop pq limit fuel)
          → (o : Option Notification) → Keeps (handle_one pq limit (handle_loop pq limit fuel) o)
      handle_one-Keeps fuel k none c h = unfold handle_one in h
      handle_one-Keeps fuel k (some n) c h = unfold handle_one in k (handle n c) (p.handle c n h)

  get_notifications-Keeps : Keeps (get_notifications pq limit)
  unfolding get_notifications consume_input handle_notifications
  get_notifications-Keeps =
      bind-Keeps (consume_input pq limit) (λ _. handle_loop pq limit limit)
        (bind-Keeps (libpq pq.consume_input) _ (libpq-Keeps pq.consume_input)
          (λ b. expect-Keeps _ b))
        (λ _. handle_loop-Keeps limit)

  polled-Keeps :
      (more : Action (Connection L H) (Unit {0})) (s : Result PollStatus)
      → Keeps more
      → Keeps (polled pq limit more s)
  unfolding polled
  polled-Keeps more (throw e) k c h = h
  polled-Keeps more (ok timeout) k c h = p.pgconn c (pq.finish c.pgconn) h
  polled-Keeps more (ok readable) k c h = get_notifications-Keeps c h
  polled-Keeps more (ok writable) k c h = h
  polled-Keeps more (ok again) k c h = k c h

  socket-Keeps : Keeps (socket pq limit)
  unfolding socket
  socket-Keeps c h = given_socket-P (pq.socket c.pgconn) c h
    where
      given_socket-P : (o : Option ℕ) → Keeps (given_socket pq limit o)
      given_socket-P none c h = unfold given_socket in h
      given_socket-P (some fd) c h = unfold given_socket in h

  wait_loop-Keeps : (fuel : ℕ) (w : Bool) → Keeps (wait_loop pq limit fuel w)
  unfolding wait_loop
  wait_loop-Keeps zero w = λ c h. h
  wait_loop-Keeps (suc fuel) w = bind-Keeps (socket pq limit) _ socket-Keeps λ fd.
      bind-Keeps (libpq (λ l. pq.poll l fd w)) (polled pq limit (wait_loop pq limit fuel w))
        (libpq-Keeps (λ l. pq.poll l fd w))
        (λ s. polled-Keeps (wait_loop pq limit fuel w) s (wait_loop-Keeps fuel w))

  pub wait-Keeps : (w : Bool) → Keeps (wait pq limit w)
  unfolding wait
  wait-Keeps w = wait_loop-Keeps limit w

  flushed-Keeps : (f : Flushed) → Keeps (flushed f)
  unfolding flushed
  flushed-Keeps all_sent c h = h
  flushed-Keeps some_left c h = h
  flushed-Keeps not_sent c h = h

  flush_again-Keeps : (w : Bool) → Keeps (flush_again pq limit w)
  unfolding flush_again flush
  flush_again-Keeps true = bind-Keeps (libpq pq.flush) flushed (libpq-Keeps pq.flush) flushed-Keeps
  flush_again-Keeps false = λ c h. h

  busy_loop-Keeps : (fuel : ℕ) (w : Bool) → Keeps (busy_loop pq limit fuel w)
  unfolding busy_loop
  busy_loop-Keeps zero w c h = h
  busy_loop-Keeps (suc fuel) w c h = elim (Bool-cases (pq.is_busy c.pgconn)) [
    | inl e ↦ rw (e) (
        bind-Keeps (flush_again pq limit w) _ (flush_again-Keeps w)
          (λ v.
            bind-Keeps (wait pq limit v) (λ _. busy_loop pq limit fuel v) (wait-Keeps v)
              (λ _. busy_loop-Keeps fuel v))
          c h)
    | inr e ↦ rw (e) h
  ]

  pub get_result-Keeps : Keeps (get_result pq limit)
  unfolding get_result handle_notifications
  get_result-Keeps = bind-Keeps (busy_loop pq limit limit true) _ (busy_loop-Keeps limit true) (λ _.
      bind-Keeps (libpq pq.get_result) _ (libpq-Keeps pq.get_result) (λ r.
        bind-Keeps (handle_loop pq limit limit) (λ _. pure r) (handle_loop-Keeps limit)
          (λ _ c h. h)))
