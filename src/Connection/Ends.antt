-- ===== src/Connection/Ends.antt =====
-- The loops of a connection end: enough fuel for `get_result`.
use taopq.Base.{ℕ, ◌<◌, ◌≡◌, Bool, true}
use taopq.Connection.{Libpq, Connection}
use taopq.Connection.Measure.{Amounts, Below, CanSend, Documented}

module _ {L R H : Type 0} (pq : Libpq L R) (limit : ℕ) (q : Amounts L) (p : Documented pq q) where
  -- What `flush_again` answers: output is left only where output was to be sent, and then some was
  -- sent if the socket could take it.
  abbrev Flushing : L → Bool → Bool → Connection L H → Type 0
  Flushing l w still d =
      Below q l d.pgconn
      × (q.unread d.pgconn ≡ q.unread l)
      × (still ≡ true → (w ≡ true) × (CanSend pq q l → q.unsent d.pgconn < q.unsent l))
