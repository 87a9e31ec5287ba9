-- ===== src/Base/Outcome.antt =====
-- What a call that may throw gives back. The message of an exception is not kept, its type is.

use mathlib.Core.Bool.{Bool, true, false}
use mathlib.Core.Option.{Option, none, some}

-- The types of the exceptions that the modelled code throws by name. `overrun` stands for undefined
-- behaviour: a read outside of the object. `diverged` is the answer of a loop whose fuel ran out, and `aborted` that of an
-- assertion that does not hold.
pub data Error : Type 0 where
  invalid_argument out_of_range length_error runtime_error logic_error overflow_error
        underflow_error :
      Error
  network_error timeout_reached connection_error pq_error overrun diverged aborted : Error

pub data Result {ℓ} (A : Type ℓ) : Type ℓ where
  ok : A → Result A
  throw : Error → Result A

module _ {ℓ κ} {A : Type ℓ} {B : Type κ} where
  infixl 5 ◌>>=◌
  abbrev pub ◌>>=◌ : Result A → (A → Result B) → Result B
  throw e >>= next = throw e
  ok v >>= next = next v

-- What is outside of an object is an overrun.
abbrev pub found {ℓ} : {A : Type ℓ} → Option A → Result A
found none = throw overrun
found (some a) = ok a

-- `assert`.
abbrev pub asserted {ℓ} : {A : Type ℓ} → Bool → Result A → Result A
asserted true next = next
asserted false next = throw aborted
