-- ===== src/Base/Action.antt =====
-- Code that changes a state and may throw. What was changed before an exception stays.
use taopq.Base.Outcome.{Error, Result, ok, throw}
use mathlib.Core.Path.{◌≡◌, refl, ap}
use mathlib.Core.Bool.{Bool, true, false}

abbrev pub Action : Type 0 → Type 0 → Type 0
Action S A = S → S × Result A

abbrev pub pure : {S A : Type 0} → A → Action S A
pure a s = (s, ok a)

abbrev pub fail : {S A : Type 0} → Error → Action S A
fail e s = (s, throw e)

-- What is behind an action that has ended.
abbrev pub proceed : {S A B : Type 0} → S × Result A → (A → Action S B) → S × Result B
proceed (s, ok a) next = next a s
proceed (s, throw e) next = (s, throw e)

infixl 5 ◌>>=◌ ◌>>◌
abbrev pub ◌>>=◌ : {S A B : Type 0} → Action S A → (A → Action S B) → Action S B
◌>>=◌ m next s = proceed (m s) next

abbrev pub ◌>>◌ : {S A B : Type 0} → Action S A → Action S B → Action S B
◌>>◌ m next s = proceed (m s) λ _. next

abbrev is_ok : {A : Type 0} → Result A → Bool
is_ok (ok a) = true
is_ok (throw e) = false

pub fail-ok : {S A : Type 0} {t s : S} {e : Error} {a : A} → fail e t ≡ (s, ok a) → ⊥
fail-ok h = let e = ap (λ p. is_ok p.1) h in cc

abbrev value_of : {A : Type 0} → A → Result A → A
value_of a (ok b) = b
value_of a (throw e) = a

pub pure-ok : {S A : Type 0} {t s : S} {a b : A} → pure a t ≡ (s, ok b) → (t ≡ s) × (a ≡ b)
pure-ok {a = a} h = (ap (λ p. p.0) h, ap (λ p. value_of a p.1) h)

-- An action that has ended well has gone on with what the one before it gave.
pub proceed-ok :
    {S A B : Type 0} (p : S × Result A) (next : A → Action S B) {s : S} {b : B}
    → proceed p next ≡ (s, ok b)
    → (t : S) × (a : A) × (p ≡ (t, ok a)) × (next a t ≡ (s, ok b))
proceed-ok (t, ok a) next h = (t, a, refl, h)
proceed-ok (t, throw e) next h = absurd (fail-ok h)
