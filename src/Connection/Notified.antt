-- ===== src/Connection/Notified.antt =====
-- The calls of the notification handlers against the notifications that libpq hands out.
use taopq.Base.{
  ℕ, zero, suc, ◌<◌, ◌≡◌, refl, ap, sym, ◌∙◌, List, [], ◌∷◌, ◌++◌, append-nil, append_assoc, Option,
  none, some, length, Bytes, ok, arith,
}
use taopq.Connection.{
  Libpq, Connection, Notification, call, handle, libpq, handle_one, handle_loop,
  handle_notifications,
}

-- What libpq still hands out, and how it is left.
abbrev pub Pending : {L R : Type 0} → Libpq L R → L → List Notification → L → Type 0
Pending pq l [] m = pq.notifies l ≡ (m, none)
Pending {L = L} pq l (n ∷ ns) m = (k : L) × (pq.notifies l ≡ (k, some n)) × Pending pq k ns m

abbrev one_call : {H : Type 0} → Option H → Notification → List (H × Notification)
one_call none n = []
one_call (some h) n = (h, n) ∷ []

-- Each notification goes to the handler of the connection and then to the one of its channel.
unfoldable pub calls_of :
    {H : Type 0} → Option H → (Bytes → Option H) → List Notification → List (H × Notification)
calls_of handler handlers [] = []
calls_of handler handlers (n ∷ ns) =
    (one_call handler n ++ one_call (handlers n.channel) n) ++ calls_of handler handlers ns

call-called :
    {L H : Type 0} (h : Option H) (n : Notification) (c : Connection L H)
    → call h n c ≡ record c { called = c.called ++ one_call h n }
unfolding call
call-called none n c = ap (λ x. record c { called = x }) (sym (append-nil c.called))
call-called (some h) n c = refl

handle-called :
    {L H : Type 0} (n : Notification) (c : Connection L H)
    → handle n c ≡ record c {
      called =
          c.called
          ++ (one_call c.notification_handler n ++ one_call (c.notification_handlers n.channel) n);
    }
unfolding handle
handle-called n c =
    ap (λ d. call (d.notification_handlers n.channel) n d) (call-called c.notification_handler n c)
    ∙ call-called (c.notification_handlers n.channel) n _
    ∙ ap (λ x. record c { called = x })
        (append_assoc c.called (one_call c.notification_handler n)
          (one_call (c.notification_handlers n.channel) n))

module _ {L R H : Type 0} (pq : Libpq L R) (limit : ℕ) where
  handle_loop-calls_of :
      (fuel : ℕ) (c : Connection L H) (ns : List Notification) (m : L)
      → Pending pq c.pgconn ns m
      → length ns < fuel
      → handle_loop pq limit fuel c ≡ (
        record c {
          pgconn = m;
          called = c.called ++ calls_of c.notification_handler c.notification_handlers ns;
        },
        ok tt,
      )
  unfolding handle_loop libpq handle_one calls_of
  handle_loop-calls_of zero c ns m p l = absurd (omega (arith, l))
  handle_loop-calls_of (suc fuel) c [] m p l =
      rw (p) (ap (λ x. (record c { pgconn = m; called = x }, ok tt)) (sym (append-nil c.called)))
  handle_loop-calls_of (suc fuel) c (n ∷ ns) m (k, e, p) l =
      rw (e, handle-called n (record c { pgconn = k }))
        (handle_loop-calls_of fuel
            (record c {
              pgconn = k;
              called =
                  c.called
                  ++ (one_call c.notification_handler n
                      ++ one_call (c.notification_handlers n.channel) n);
            })
            ns m p (omega (arith, l))
          ∙ ap (λ x. (record c { pgconn = m; called = x }, ok tt))
              (append_assoc c.called _
                (calls_of c.notification_handler c.notification_handlers ns)))

  -- `handle_notifications` takes all notifications that libpq holds, fewer than the bound of its
  -- loop, and calls for each of them, in their order, the handler of the connection and then the
  -- handler of its channel, where they are set.
  pub handle_notifications-calls_of :
      (c : Connection L H) (ns : List Notification) (m : L)
      → Pending pq c.pgconn ns m
      → length ns < limit
      → handle_notifications pq limit c ≡ (
        record c {
          pgconn = m;
          called = c.called ++ calls_of c.notification_handler c.notification_handlers ns;
        },
        ok tt,
      )
  unfolding handle_notifications
  handle_notifications-calls_of c ns m p l = handle_loop-calls_of limit c ns m p l
