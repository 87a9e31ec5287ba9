-- ===== src/Transaction/Calls.antt =====
-- The calls on the transactions of a connection, and what they mean on a stack.
use taopq.Base.{ℕ, Bool, true, false, not, ◌&&◌, List, [], ◌∷◌, none, if◌then◌else◌, ◌==◌, member}
use taopq.Transaction.{
  autocommit, World, direct, transaction, subtransaction, make_guard, commit, rollback, destroy,
}

pub data Call : Type 0 where
  directs : Call
  transactions : Bool → Call
  subtransactions : ℕ → Bool → Call
  guards : ℕ → Call
  commits rollbacks : ℕ → Bool → Call
  destroys : ℕ → Bool → Bool → Call

unfoldable pub step : World → Call → World
step w directs = (direct w).0
step w (transactions executes) = (transaction w executes).0
step w (subtransactions t executes) = (subtransaction w t executes).0
step w (guards t) = (make_guard w t).0
step w (commits t executes) = (commit w t executes).0
step w (rollbacks t executes) = (rollback w t executes).0
step w (destroys t attempt executes) = destroy w t attempt executes

abbrev pub is_top : ℕ → List ℕ → Bool
is_top t [] = false
is_top t (s ∷ st) = s == t

-- What a call makes of the stack, where `n` is the next object.
unfoldable pub on_stack : ℕ → List ℕ → Call → List ℕ
on_stack n [] directs = n ∷ []
on_stack n (s ∷ st) directs = s ∷ st
on_stack n [] (transactions executes) = if executes then n ∷ [] else []
on_stack n (s ∷ st) (transactions executes) = s ∷ st
on_stack n st (subtransactions t executes) = if is_top t st && executes then n ∷ st else st
on_stack n st (guards t) = n ∷ st
on_stack n [] (commits t executes) = []
on_stack n (s ∷ st) (commits t executes) = st
on_stack n [] (rollbacks t executes) = []
on_stack n (s ∷ st) (rollbacks t executes) = st
on_stack n [] (destroys t attempt executes) = []
on_stack n (s ∷ st) (destroys t attempt executes) = if s == t then st else s ∷ st

-- A commit or a rollback is of the top, a guard of an open transaction, and only the top of the
-- open transactions is destroyed: those below it are owned by the ones above.
unfoldable pub in_order : List ℕ → Call → Bool
in_order st (guards t) = member t st
in_order st (commits t executes) = is_top t st
in_order st (rollbacks t executes) = is_top t st
in_order [] (destroys t attempt executes) = true
in_order (s ∷ st) (destroys t attempt executes) = if s == t then true else not (member t st)
in_order st _ = true

-- The calls of a list, one after the other, on the world and on the stack.
unfoldable pub run : World → List Call → World
run w [] = w
run w (c ∷ cs) = run (step w c) cs

unfoldable pub run_stack : World → List ℕ → List Call → List ℕ
run_stack w st [] = st
run_stack w st (c ∷ cs) = run_stack (step w c) (on_stack w.next st c) cs

unfoldable pub all_in_order : World → List ℕ → List Call → Bool
all_in_order w st [] = true
all_in_order w st (c ∷ cs) =
    let rest = all_in_order (step w c) (on_stack w.next st c) cs in
    if in_order st c then rest else false

-- A connection without a transaction.
abbrev pub fresh : World
fresh = record {
  current = none;
  transactions = λ t. record { kind = autocommit; previous = none; connected = false };
  next = 0;
  sent = [];
}
