-- ===== src/Pool/Get.antt =====
-- What `get` hands out, and what it leaves in the pool.
use taopq.Base.{
  ℕ, suc, ◌≡◌, refl, Bool, true, false, List, [], ◌∷◌, ◌++◌, Option, none, some, if◌then◌else◌,
  arith, Bool-cases, inl, inr, ◌⊎◌, All, ap, ◌∙◌,
}
use taopq.Pool.{increment, World, set_pool, create, pull_valid, hand_out, get}
use taopq.Pool.Ownership.{lock_and-items}

abbrev pub NoneValid : (ℕ → Bool) → List ℕ → Type 0
NoneValid valid = All (λ i. valid i ≡ false)

abbrev pub Pulls : (ℕ → Bool) → List ℕ → Option ℕ × List ℕ → Type 0
Pulls valid is r =
    ((before : List ℕ) × (j : ℕ) × (rest : List ℕ) × (is ≡ before ++ j ∷ rest)
      × NoneValid valid before
      × (valid j ≡ true)
      × (r ≡ (some j, rest)))
    ⊎ (NoneValid valid is × (r ≡ (none, [])))

pull_valid-Pulls : (valid : ℕ → Bool) (is : List ℕ) → Pulls valid is (pull_valid valid is)
unfolding pull_valid
pull_valid-Pulls valid [] = inr (tt, refl)
pull_valid-Pulls valid (i ∷ is) = elim (Bool-cases (valid i)) [
  | inl e ↦ inl ([], i, is, refl, tt, e, rw e)
  | inr e ↦ elim (pull_valid-Pulls valid is) [
    | inl (before, j, rest, s, n, v, r) ↦ inl (i ∷ before, j, rest, ap (◌∷◌ i) s, (e, n), v, rw e r)
    | inr (n, r) ↦ inr ((e, n), rw e r)
  ]
]

set_pool_same :
    (w : World) (p : ℕ) (is : List ℕ)
    → ((set_pool w p (record (w.pools p) { items = is })).pools p).items ≡ is
unfolding set_pool
set_pool_same w p is = ground arith

create-item :
    (w : World) (p : ℕ) (created : Bool)
    → (create w p created).1 ≡ (if created then some w.next else none)
unfolding create
create-item w p true = refl
create-item w p false = refl

create-items :
    (w : World) (p : ℕ) (created : Bool)
    → ((create w p created).0.pools p).items ≡ (w.pools p).items
unfolding create
create-items w p true =
    lock_and-items increment
      (record w {
        handles = record { item = w.next; pool = some p } ∷ w.handles;
        next = suc w.next;
      })
      (some p) p
create-items w p false = refl

-- `get` hands out the pool's newest item that is valid, drops the invalid ones that are newer, and
-- keeps the older ones. Only where no item is valid it drops them all and makes a new item; it
-- hands out nothing only where making it throws.
pub get_lem :
    (valid : ℕ → Bool) (w : World) (p : ℕ) (created : Bool)
    → let after = get valid w p created in
      ((before : List ℕ) × (j : ℕ) × (rest : List ℕ) × ((w.pools p).items ≡ before ++ j ∷ rest)
        × NoneValid valid before
        × (valid j ≡ true)
        × (after.1 ≡ some j)
        × ((after.0.pools p).items ≡ rest))
      ⊎ (NoneValid valid (w.pools p).items
          × (after.1 ≡ (if created then some w.next else none))
          × ((after.0.pools p).items ≡ []))
unfolding get hand_out set_pool
get_lem valid w p created = elim (pull_valid-Pulls valid (w.pools p).items) [
  | inl (before, j, rest, s, n, v, r) ↦ inl (
    before,
    j,
    rest,
    s,
    n,
    v,
    rw (r, hand_out),
    rw (r, hand_out) (lock_and-items increment _ (some p) p ∙ set_pool_same w p rest),
  )
  | inr (n, r) ↦ inr (
    n,
    rw (r, hand_out) (create-item _ p created),
    rw (r, hand_out) (create-items _ p created ∙ set_pool_same w p []),
  )
]
