-- ===== src/Connection/Waits.antt =====
-- `handle_notifications` and `wait` end, and what they have done then.
use taopq.Base.{
  ℕ, zero, suc, ◌<◌, ◌≡◌, refl, Bool, true, false, Option, none, some, inl, inr, Error, Result, ok,
  throw, arith, connection_error, sym, subst,
}
use taopq.Base.Action.{Action, proceed}
use taopq.Connection.{
  Libpq, Connection, Notification, PollStatus, timeout, readable, writable, again, handle, expect,
  libpq, consume_input, handle_one, handle_loop, handle_notifications, get_notifications,
  given_socket, socket, polled, wait_loop,
}
use taopq.Connection.Measure.{
  is_end, has_ended, Amounts, Below, CanSend, Documented, Below-trans, Ends, Lowers, Read, Waited,
  proceed-Ends, Ends-weaken, handle-pgconn,
}

module _ {L R H : Type 0} (pq : Libpq L R) (limit : ℕ) (q : Amounts L) (p : Documented pq q) where
  handle_one-Ends :
      (fuel : ℕ) (l : L) (c : Connection L H) (o : Option Notification)
      → ((d : Connection L H)
          → q.notes d.pgconn < fuel
          → Ends (Lowers q d.pgconn) (handle_loop pq limit fuel d))
      → Below q l c.pgconn
      → ((x : Notification) → o ≡ some x → q.notes c.pgconn < fuel)
      → Ends (Lowers q l) (handle_one pq limit (handle_loop pq limit fuel) o c)
  unfolding handle_one
  handle_one-Ends fuel l c none h b k = b
  handle_one-Ends fuel l c (some x) h b k =
      let e = handle-pgconn x c in
      Ends-weaken (Lowers q (handle x c).pgconn) (Lowers q l)
        (handle_loop pq limit fuel (handle x c))
        (h (handle x c) (subst (λ m. q.notes m < fuel) (sym e) (k x refl)))
        (λ a d w. Below-trans q l c.pgconn d.pgconn b (subst (λ m. Below q m d.pgconn) e w))

  pub handle_loop-Ends :
      (fuel : ℕ) (c : Connection L H)
      → q.notes c.pgconn < fuel
      → Ends (Lowers q c.pgconn) (handle_loop pq limit fuel c)
  unfolding handle_loop libpq
  handle_loop-Ends zero c l = absurd (omega (arith, l))
  handle_loop-Ends (suc fuel) c l =
      handle_one-Ends fuel c.pgconn _ (pq.notifies c.pgconn).1 (handle_loop-Ends fuel)
        (p.notifies_lowers c.pgconn) (λ x e. omega (arith, p.notified c.pgconn x e, l))

  expect-Ends :
      (e : Error) (b : Bool) (c : Connection L H) (post : Connection L H → Type 0)
      → is_end e ≡ true
      → (b ≡ true → post c)
      → Ends (λ _. post) (expect e b c)
  unfolding expect
  expect-Ends e true c post h k = k refl
  expect-Ends e false c post h k = h

  get_notifications-Ends :
      (c : Connection L H)
      → q.notes c.pgconn < limit
      → ((pq.consume_input c.pgconn).1 ≡ true
          → q.unread (pq.consume_input c.pgconn).0 < q.unread c.pgconn)
      → Ends (Read q c.pgconn) (get_notifications pq limit c)
  unfolding get_notifications consume_input libpq handle_notifications is_end
  get_notifications-Ends c l k =
      let d : Connection L H = record c { pgconn = (pq.consume_input c.pgconn).0 } in
      proceed-Ends (Read q c.pgconn) (Read q c.pgconn) _ _
        (expect-Ends connection_error (pq.consume_input c.pgconn).1 d
          (λ x. Below q c.pgconn x.pgconn × (q.unread x.pgconn < q.unread c.pgconn)) refl
          (λ e. (p.consume_lowers c.pgconn, k e)))
        (λ a x h.
          Ends-weaken (Lowers q x.pgconn) (Read q c.pgconn) (handle_loop pq limit limit x)
            (handle_loop-Ends limit x (omega (arith, h.0.notes, l)))
            (λ b y w.
              (Below-trans q c.pgconn x.pgconn y.pgconn h.0 w, omega (arith, w.unread, h.1))))

  polled-Ends :
      (l : L) (w : Bool) (more : Action (Connection L H) (Unit {0})) (c : Connection L H)
      (s : Result PollStatus)
      → Below q l c.pgconn
      → q.notes l < limit
      → (s ≡ ok readable
          → (pq.consume_input c.pgconn).1 ≡ true
          → q.unread (pq.consume_input c.pgconn).0 < q.unread c.pgconn)
      → (s ≡ ok writable → (w ≡ true) × CanSend pq q c.pgconn)
      → (s ≡ ok again → Ends (Waited pq q l w) (more c))
      → has_ended s ≡ true
      → Ends (Waited pq q l w) (polled pq limit more s c)
  unfolding polled is_end has_ended
  polled-Ends l w more c (throw e) b n kr kw ka a = a
  polled-Ends l w more c (ok timeout) b n kr kw ka a = refl
  polled-Ends l w more c (ok readable) b n kr kw ka a =
      Ends-weaken (Read q c.pgconn) (Waited pq q l w) (get_notifications pq limit c)
        (get_notifications-Ends c (omega (arith, b.notes, n)) (kr refl))
        (λ x d h. (Below-trans q l c.pgconn d.pgconn b h.0, inl (omega (arith, h.1, b.unread))))
  polled-Ends l w more c (ok writable) b n kr kw ka a = (b, inr (kw refl))
  polled-Ends l w more c (ok again) b n kr kw ka a = ka refl

  -- Behind the socket, where there is one.
  given_socket-Ends :
      {A : Type 0} (post : A → Connection L H → Type 0) (o : Option ℕ)
      (next : ℕ → Action (Connection L H) A) (c : Connection L H)
      → ((fd : ℕ) → Ends post (next fd c))
      → Ends post (proceed (given_socket pq limit o c) next)
  unfolding given_socket is_end
  given_socket-Ends post none next c h = refl
  given_socket-Ends post (some fd) next c h = h fd

  pub wait_loop-Ends :
      (fuel : ℕ) (w : Bool) (c : Connection L H)
      → q.signals c.pgconn < fuel
      → q.notes c.pgconn < limit
      → 0 < q.unread c.pgconn
      → Ends (Waited pq q c.pgconn w) (wait_loop pq limit fuel w c)
  unfolding wait_loop libpq socket
  wait_loop-Ends zero w c s n u = absurd (omega (arith, s))
  wait_loop-Ends (suc fuel) w c s n u =
      given_socket-Ends (Waited pq q c.pgconn w) (pq.socket c.pgconn) _ c λ fd.
        let d : Connection L H = record c { pgconn = (pq.poll c.pgconn fd w).0 } in
        let b = p.poll_lowers c.pgconn fd w in
        polled-Ends c.pgconn w (wait_loop pq limit fuel w) d (pq.poll c.pgconn fd w).1 b n
          (λ e. p.poll_readable c.pgconn fd w e u) (p.poll_writable c.pgconn fd w)
          (λ e.
            Ends-weaken (Waited pq q d.pgconn w) (Waited pq q c.pgconn w)
              (wait_loop pq limit fuel w d)
              (wait_loop-Ends fuel w d (omega (arith, p.poll_again c.pgconn fd w e, s))
                (omega (arith, b.notes, n)) (omega (arith, p.poll_keeps c.pgconn fd w, u)))
              (λ x y h. Waited-Below c.pgconn w d.pgconn y b h))
          (p.poll_ends c.pgconn fd w)
    where
      Waited-Below :
          (l : L) (w : Bool) (m : L) (y : Connection L H)
          → Below q l m
          → Waited pq q m w tt y
          → Waited pq q l w tt y
      Waited-Below l w m y b (g, inl h) =
          (Below-trans q l m y.pgconn b g, inl (omega (arith, b.unread, h)))
      Waited-Below l w m y b (g, inr h) = (Below-trans q l m y.pgconn b g, inr h)
