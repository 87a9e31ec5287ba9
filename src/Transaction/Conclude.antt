-- ===== src/Transaction/Conclude.antt =====
-- The ends of a transaction: `commit`, `rollback` and the destructors of src/lib/pq/transaction.cpp and
-- src/lib/pq/connection.cpp, on the stack.
use taopq.Base.{
  ℕ, ◌≡◌, refl, Bool, true, false, not, ◌&&◌, List, [], ◌∷◌, Option, none, some, if◌then◌else◌,
  ◌==◌, arith, Bool-cases, inl, inr, Result, member, ap, ◌∙◌,
}
use taopq.Transaction.{
  Kind, autocommit, top_level, top_level_sub, nested_sub, guard, Statement, World, same, is_current,
  behind, unlink, send, construct, v_reset, conclude, rollback, destroy_open, destroy,
}
use taopq.Transaction.Stack.{top, Represents, push-Represents, unlink-Represents}
use taopq.Transaction.Calls.{is_top}

same_top_lem : (s t : ℕ) (st : List ℕ) → (member t (s ∷ st) && (s == t)) ≡ (s == t)
unfolding member
same_top_lem s t st = ground arith

pub is_current_lem :
    (w : World) (st : List ℕ) (t : ℕ) → Represents w st → is_current w t ≡ is_top t st
unfolding is_current same
is_current_lem w [] t r = rw (r.members t, r.current) (unfold member in refl)
is_current_lem w (s ∷ st) t r = rw (r.members t, r.current) (same_top_lem s t st)

pub send-Represents :
    (w : World) (s : Statement) (st : List ℕ) → Represents w st → Represents (send w s) st
unfolding send
send-Represents w s st r = record {
  current = r.current;
  linked = r.linked;
  made = r.made;
  members = r.members;
}

pub construct-Represents :
    (w : World) (st : List ℕ) (kind : Kind) (previous : Option ℕ) (s : Statement) (executes : Bool)
    → behind (record { kind = kind; previous = previous; connected = true }) ≡ top st
    → Represents w st
    → Represents (construct w kind previous s executes).0 (if executes then w.next ∷ st else st)
unfolding construct
construct-Represents w st kind previous s true e r =
    send-Represents _ s _ (push-Represents w st kind previous e r)
construct-Represents w st kind previous s false e r =
    unlink-Represents _ w.next st (send-Represents _ s _ (push-Represents w st kind previous e r))

equal_self : (t : ℕ) → (t == t) ≡ true
equal_self t = ground arith

top-member : (t : ℕ) (st : List ℕ) → member t (t ∷ st) ≡ true
unfolding member
top-member t st = ground arith

-- Both ends of the statement take the transaction off the stack.
v_reset-Represents :
    (w : World) (t : ℕ) (st : List ℕ) (answer : Result ℕ)
    → Represents w (t ∷ st)
    → Represents (v_reset w t answer).0 st
unfolding v_reset
v_reset-Represents w t st answer r = rw (r.members t, top-member t st) (unlink-Represents w t st r)

pub conclude-Represents :
    (w : World) (t : ℕ) (st : List ℕ) (s : Option Statement) (executes : Bool)
    → Represents w (t ∷ st)
    → Represents (conclude w t s executes).0 st
unfolding conclude
conclude-Represents w t st none executes r =
    rw (is_current_lem w (t ∷ st) t r, equal_self t) (v_reset-Represents w t st _ r)
conclude-Represents w t st (some s) executes r =
    rw (is_current_lem w (t ∷ st) t r, equal_self t)
      (v_reset-Represents (send w s) t st _ (send-Represents w s _ r))

destroy_open-Represents :
    (w : World) (s : ℕ) (st : List ℕ) (attempt executes : Bool)
    → Represents w (s ∷ st)
    → Represents (destroy_open w s attempt executes) st
unfolding destroy_open rollback
destroy_open-Represents w s st true executes r = conclude-Represents w s st _ executes r
destroy_open-Represents w s st false executes r = unlink-Represents w s st r

destroys-Represents :
    (w : World) (s : ℕ) (st : List ℕ) (attempt executes : Bool)
    → Represents w (s ∷ st)
    → Represents (destroy w s attempt executes) st
unfolding destroy
destroys-Represents w s st attempt executes r =
    rw (r.members s, top-member s st)
      (elim (w.transactions s).kind
        as (λ k.
          Represents
            (elim k [
              | autocommit ↦ unlink w s
              | guard ↦ unlink w s
              | _ ↦ destroy_open w s attempt executes
            ])
            st) [
              | autocommit ↦ unlink-Represents w s st r
              | guard ↦ unlink-Represents w s st r
              | top_level ↦ destroy_open-Represents w s st attempt executes r
              | top_level_sub ↦ destroy_open-Represents w s st attempt executes r
              | nested_sub ↦ destroy_open-Represents w s st attempt executes r
            ])

pub is_top_lem : (t s : ℕ) (st : List ℕ) → is_top t (s ∷ st) ≡ true → t ≡ s
is_top_lem t s st e = ground (arith, e)

pub destroy_closed :
    (w : World) (t : ℕ) (attempt executes : Bool)
    → (w.transactions t).connected ≡ false
    → destroy w t attempt executes ≡ w
unfolding destroy
destroy_closed w t attempt executes e =
    ap
      (λ b.
        if b
        then (elim (w.transactions t).kind as (λ _. World) [
          | autocommit ↦ unlink w t
          | guard ↦ unlink w t
          | _ ↦ destroy_open w t attempt executes
        ])
        else w)
      e

-- What is left of the stack when an object that may be destroyed is destroyed.
pub destroyed-Represents :
    (w : World) (s t : ℕ) (st : List ℕ) (attempt executes : Bool)
    → Represents w (s ∷ st)
    → (if s == t then true else not (member t st)) ≡ true
    → Represents (destroy w t attempt executes) (if s == t then st else s ∷ st)
destroyed-Represents w s t st attempt executes r o = elim (Bool-cases (s == t)) [
  | inl e ↦ rw (e, is_top_lem t s st e) (destroys-Represents w s st attempt executes r)
  | inr e ↦
      rw
        (
          e,
          destroy_closed w t attempt executes
              (r.members t ∙ (unfold member in ground (arith, e, o))),
        )
        r
]
