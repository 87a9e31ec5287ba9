-- ===== src/Transaction/Stack.antt =====
-- The connected transactions are a stack, whose top is the current transaction.
use taopq.Base.{
  ℕ, ◌≤◌, ◌<◌, ◌≡◌, refl, true, false, List, [], ◌∷◌, Option, none, some, ◌==◌, arith, member,
}
use taopq.Transaction.{Kind, Transaction, World, update, behind, unlink, push}

abbrev pub top : List ℕ → Option ℕ
top [] = none
top (t ∷ st) = some t

-- Each transaction gives way to the one below it.
abbrev pub Linked : (ℕ → Transaction) → List ℕ → Type 0
Linked f [] = Unit {0}
Linked f (t ∷ st) = (behind (f t) ≡ top st) × Linked f st

-- The objects were made from the bottom to the top, before `n`.
abbrev pub Below : ℕ → List ℕ → Type 0
Below n [] = Unit {0}
Below n (t ∷ st) = (t < n) × Below t st

-- The world shows a stack of connected transactions.
pub record Represents (w : World) (st : List ℕ) : Type 0 where
  pub current : w.current ≡ top st
  pub linked : Linked w.transactions st
  pub made : Below w.next st
  pub members : (t : ℕ) → (w.transactions t).connected ≡ member t st

Below-le : (m n : ℕ) (st : List ℕ) → m ≤ n → Below m st → Below n st
Below-le m n [] h b = tt
Below-le m n (t ∷ st) h b = (omega (arith, b.0), b.1)

-- A change above a stack does not touch it.
Linked-update :
    (f : ℕ → Transaction) (n : ℕ) (x : Transaction) (st : List ℕ)
    → Below n st
    → Linked f st
    → Linked (update f n x) st
Linked-update f n x [] b l = tt
Linked-update f n x (t ∷ st) b l =
    let e : (t == n) ≡ false = ground (arith, b.0) in
    (
      (unfold update in rw e l.0),
      Linked-update f n x st (Below-le t n st (omega (arith, b.0)) b.1) l.1,
    )

pub member-Below : (n t : ℕ) (st : List ℕ) → Below n st → n ≤ t → member t st ≡ false
unfolding member
member-Below n t [] b h = refl
member-Below n t (s ∷ st) b h = ground (arith, b.0, member-Below s t st b.1)

-- A new object on top.
pub push-Represents :
    (w : World) (st : List ℕ) (kind : Kind) (previous : Option ℕ)
    → behind (record { kind = kind; previous = previous; connected = true }) ≡ top st
    → Represents w st
    → Represents (push w kind previous) (w.next ∷ st)
unfolding push
push-Represents w st kind previous e r = record {
  current = refl;
  linked = (
    unfold update in ground (arith, e),
    Linked-update w.transactions w.next _ st r.made r.linked,
  );
  made = (omega arith, r.made);
  members = λ t. unfold update member in ground (arith, r.members t);
}

-- The top is taken off.
pub unlink-Represents :
    (w : World) (t : ℕ) (st : List ℕ) → Represents w (t ∷ st) → Represents (unlink w t) st
unfolding unlink
unlink-Represents w t st r = record {
  current = r.linked.0;
  linked = Linked-update w.transactions t _ st (r.made.1) r.linked.1;
  made = Below-le t w.next st (omega (arith, r.made.0)) r.made.1;
  members = λ s. unfold update member in ground (arith, r.members s, member-Below t s st r.made.1);
}
