-- ===== src/Transaction/Misuse.antt =====
-- What `commit` and `rollback` of src/lib/pq/transaction.cpp do when they are called on a
-- transaction that is not the current one.
use taopq.Base.{
  ℕ, ◌≤◌, ◌<◌, ◌≡◌, refl, Bool, true, false, List, [], ◌∷◌, Option, some, ◌==◌, ◌⊎◌, arith,
  Bool-cases, inl, inr, throw, logic_error, overrun, member, ap, sym, ◌∙◌,
}
use taopq.Transaction.{
  Transaction, Statement, World, update, behind, unlink, v_reset, conclude, commit, rollback,
  is_current,
}
use taopq.Transaction.Stack.{top, Linked, Below, Represents}
use taopq.Transaction.Calls.{is_top}
use taopq.Transaction.Conclude.{is_current_lem}

head_some : (a b : ℕ) → some a ≡ some b → a ≡ b
head_some a b e = grind (arith, e)

member_cases : (t s : ℕ) (st : List ℕ) → member t (s ∷ st) ≡ true → (t ≡ s) ⊎ (member t st ≡ true)
unfolding member
member_cases t s st e = elim (Bool-cases (t == s)) [
  | inl a ↦ inl (ground (arith, a))
  | inr a ↦ inr (ground (arith, a, e))
]

member_lt : (n t : ℕ) (st : List ℕ) → Below n st → member t st ≡ true → t < n
member_lt n t [] m e = unfold member in cc
member_lt n t (s ∷ st) m e = elim (member_cases t s st e) [
  | inl a ↦ omega (arith, a, m.0)
  | inr a ↦ omega (arith, member_lt s t st m.1 a, m.0)
]

top_lt : (n b : ℕ) (st : List ℕ) → Below n st → top st ≡ some b → b < n
top_lt n b [] m e = cc
top_lt n b (s ∷ st) m e = omega (arith, head_some s b e, m.0)

-- What is behind a transaction was made before it.
behind_lt :
    (f : ℕ → Transaction) (n t b : ℕ) (st : List ℕ)
    → Linked f st
    → Below n st
    → member t st ≡ true
    → behind (f t) ≡ some b
    → b < t
behind_lt f n t b [] l m e h = unfold member in cc
behind_lt f n t b (s ∷ st) l m e h = elim (member_cases t s st e) [
  | inl a ↦ rw (a) (top_lt s b st m.1 (sym l.0 ∙ ap (λ x. behind (f x)) (sym a) ∙ h))
  | inr a ↦ behind_lt f s t b st l.1 m.1 a h
]

-- No member was made after the top.
member_le : (n t u : ℕ) (st : List ℕ) → Below n st → member t st ≡ true → top st ≡ some u → t ≤ u
member_le n t u [] m e h = unfold member in cc
member_le n t u (s ∷ st) m e h = elim (member_cases t s st e) [
  | inl a ↦ omega (arith, a, head_some s u h)
  | inr a ↦ omega (arith, head_some s u h, member_lt s t st m.1 a)
]

conclude_below :
    (w : World) (t : ℕ) (st : List ℕ) (s : Option Statement) (executes : Bool)
    → Represents w st
    → is_top t st ≡ false
    → member t st ≡ true
    → conclude w t s executes ≡ (unlink w t, throw logic_error)
unfolding conclude v_reset
conclude_below w t st s executes r a m = rw (is_current_lem w st t r, a, r.members t, m) refl

conclude_over :
    (w : World) (t : ℕ) (st : List ℕ) (s : Option Statement) (executes : Bool)
    → Represents w st
    → member t st ≡ false
    → conclude w t s executes ≡ (w, throw overrun)
unfolding conclude v_reset is_current
conclude_over w t st s executes r m = rw (r.members t, m) refl

stays_open :
    (w : World) (s t : ℕ) (st : List ℕ)
    → Represents w (s ∷ st)
    → (s == t) ≡ false
    → ((unlink w t).transactions s).connected ≡ true
unfolding unlink update
stays_open w s t st r a = rw (a, r.members s) (unfold member in ground arith)

unlink_current : (w : World) (t : ℕ) → (unlink w t).current ≡ behind (w.transactions t)
unfolding unlink
unlink_current w t = refl

-- A stack with a member has a top.
top_of : (s : ℕ) (st : List ℕ) → member s st ≡ true → (u : ℕ) × (top st ≡ some u)
top_of s [] e = unfold member in cc
top_of s (u ∷ st) e = (u, refl)

-- The transaction that is taken out was below `s`, which stays open above the new current one.
unlinked-Represents :
    (w : World) (s t : ℕ) (st st2 : List ℕ)
    → Represents w (s ∷ st)
    → (s == t) ≡ false
    → member t (s ∷ st) ≡ true
    → ¬ Represents (unlink w t) st2
unlinked-Represents w s t st st2 r a m q =
    let held : member s st2 ≡ true = sym (q.members s) ∙ stays_open w s t st r a in
    let (u, e) = top_of s st2 held in
    let b : behind (w.transactions t) ≡ some u = sym (unlink_current w t) ∙ q.current ∙ e in
    let l : u < t = behind_lt w.transactions w.next t u (s ∷ st) r.linked r.made m b in
    let h : s ≤ u = member_le (unlink w t).next s u st2 q.made held e in
    let below : t ≤ s = member_le w.next t s (s ∷ st) r.made m refl in omega (arith, l, h, below)

-- An open transaction below the top is committed or rolled back: `logic_error` is thrown, no
-- statement is sent, and what is left is no stack of transactions any more.
pub commit_below :
    (w : World) (s t : ℕ) (st : List ℕ) (executes : Bool)
    → Represents w (s ∷ st)
    → (s == t) ≡ false
    → member t (s ∷ st) ≡ true
    → (commit w t executes ≡ (unlink w t, throw logic_error))
      × (rollback w t executes ≡ (unlink w t, throw logic_error))
      × ((unlink w t).sent ≡ w.sent)
      × ((st2 : List ℕ) → ¬ Represents (unlink w t) st2)
unfolding commit rollback
commit_below w s t st executes r a m = (
  conclude_below w t (s ∷ st) _ executes r a m,
  conclude_below w t (s ∷ st) _ executes r a m,
  (unfold unlink in refl),
  (λ st2 q. unlinked-Represents w s t st st2 r a m q),
)

-- A transaction that is over is committed or rolled back: the null connection of the object is
-- followed, in place of an exception.
pub commit_over :
    (w : World) (t : ℕ) (st : List ℕ) (executes : Bool)
    → Represents w st
    → member t st ≡ false
    → (commit w t executes ≡ (w, throw overrun)) × (rollback w t executes ≡ (w, throw overrun))
unfolding commit rollback
commit_over w t st executes r m =
    (conclude_over w t st _ executes r m, conclude_over w t st _ executes r m)
