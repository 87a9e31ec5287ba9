-- ===== src/SqlState/InsufficientResources.antt =====
-- SQLSTATE class 53: `insufficient_resources` and the types derived from it in exception.hpp, and the case of
-- `throw_sqlstate` in src/lib/pq/exception.cpp that throws them.
use taopq.Base.{List, [], ◌∷◌, Bytes, codes, bytes_eq, ◌≡◌, refl, ◌⊎◌}
use taopq.SqlState.Table.{pick, pick-code, agree, first, second}

-- `generic` is an object of the base type itself.
pub data InsufficientResources : Type 0 where
  generic disk_full out_of_memory too_many_connections configuration_limit_exceeded :
      InsufficientResources

-- The code that stands beside each type.
unfoldable pub code : InsufficientResources → Bytes
code generic = codes "53xxx"
code disk_full = codes "53100"
code out_of_memory = codes "53200"
code too_many_connections = codes "53300"
code configuration_limit_exceeded = codes "53400"

-- The tests of the case, in their order.
abbrev rows : List (Bytes × InsufficientResources)
rows =
    (codes "53100", disk_full)
    ∷ (codes "53200", out_of_memory)
    ∷ (codes "53300", too_many_connections)
    ∷ (codes "53400", configuration_limit_exceeded)
    ∷ []

unfoldable pub throw_insufficient_resources : Bytes → InsufficientResources
unfolding pick bytes_eq
throw_insufficient_resources s = pick rows generic s

-- An exception that is not of the base type is thrown for its own code only.
pub throw-code :
    (s : Bytes)
    → (throw_insufficient_resources s ≡ generic) ⊎ (code (throw_insufficient_resources s) ≡ s)
unfolding throw_insufficient_resources code agree
throw-code s = pick-code code rows generic s refl

pub throw_code_lem : (e : InsufficientResources) → throw_insufficient_resources (code e) ≡ e
unfolding throw_insufficient_resources code
throw_code_lem generic = refl
throw_code_lem _ = refl

pub code-class : (e : InsufficientResources) → (first (code e) ≡ b'5') × (second (code e) ≡ b'3')
unfolding code first second
code-class generic = (refl, refl)
code-class _ = (refl, refl)
