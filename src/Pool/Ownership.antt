-- ===== src/Pool/Ownership.antt =====
-- No item is in two places: in two handles, in two pools, or in a pool while it is in use.
use taopq.Base.{
  ℕ, ◌+◌, ◌≤◌, ◌≡◌, ◌≢◌, refl, Bool, true, false, List, [], ◌∷◌, Option, none, some, if◌then◌else◌,
  ◌==◌, arith, Bool-cases, Option-cases, ap, inl, inr, sym,
}
use taopq.Pool.{
  increment, decrement, Handle, World, set_pool, lock_and, find, remove, push, create, pull_valid,
  hand_out, get, give_back, release, repoint, attach, detach, keep_valid, erase_invalid, destroy,
  Call, creates, gets, releases, detaches, attaches, erases, destroys, step, run, initial,
}
use taopq.Pool.Count.{lock_and-handles}

-- How often an item is in a list, and in how many handles.
unfoldable pub count : ℕ → List ℕ → ℕ
count i [] = 0
count i (x ∷ xs) = (if x == i then 1 else 0) + count i xs

unfoldable pub count_held : ℕ → List Handle → ℕ
count_held i [] = 0
count_held i (h ∷ hs) = (if h.item == i then 1 else 0) + count_held i hs

-- In how many places of two pools and the handles an item is.
unfoldable pub places : World → ℕ → ℕ → ℕ → ℕ
places w i p q = count i (w.pools p).items + count i (w.pools q).items + count_held i w.handles

-- Each item is in one place at most, and an item that was not made yet is nowhere.
abbrev pub IsOwned : World → Type 0
IsOwned w = (i p q : ℕ) → p ≢ q → (places w i p q ≤ 1) × (w.next ≤ i → places w i p q ≡ 0)

count_held-remove :
    (i j : ℕ) (hs : List Handle) (h : Handle)
    → find j hs ≡ some h
    → count_held i hs ≡ (if j == i then 1 else 0) + count_held i (remove j hs)
unfolding count_held find remove
count_held-remove i j [] h e = absurd (ground arith)
count_held-remove i j (x ∷ hs) h e = ground (arith, count_held-remove i j hs h)

pub lock_and-items :
    (f : ℕ → ℕ) (w : World) (q : Option ℕ) (p : ℕ)
    → ((lock_and f w q).pools p).items ≡ (w.pools p).items
unfolding lock_and set_pool
lock_and-items f w none p = refl
lock_and-items f w (some q) p = ground arith

lock_and-next : (f : ℕ → ℕ) (w : World) (q : Option ℕ) → (lock_and f w q).next ≡ w.next
unfolding lock_and set_pool
lock_and-next f w none = refl
lock_and-next f w (some q) = ground arith

lock_and-places :
    (f : ℕ → ℕ) (w : World) (k : Option ℕ) (i p q : ℕ)
    → places (lock_and f w k) i p q ≡ places w i p q
unfolding places
lock_and-places f w k i p q =
    rw (lock_and-items f w k p, lock_and-items f w k q, lock_and-handles f w k)

lock_and-IsOwned : (f : ℕ → ℕ) (w : World) (k : Option ℕ) → IsOwned w → IsOwned (lock_and f w k)
lock_and-IsOwned f w k o i p q n = rw (lock_and-places f w k i p q, lock_and-next f w k) (o i p q n)

create-IsOwned : (w : World) (p : ℕ) (b : Bool) → IsOwned w → IsOwned (create w p b).0
unfolding create
create-IsOwned w k false o = o
create-IsOwned w k true o =
    lock_and-IsOwned increment _ (some k)
      λ i p q n. unfold places count_held in ground (arith, o i p q n)

count-pull_valid :
    (valid : ℕ → Bool) (is : List ℕ) (i : ℕ) → count i (pull_valid valid is).1 ≤ count i is
unfolding count pull_valid
count-pull_valid valid [] i = omega arith
count-pull_valid valid (x ∷ is) i = ground (arith, count-pull_valid valid is i)

pulled-count :
    (valid : ℕ → Bool) (is : List ℕ) (i j : ℕ)
    → (pull_valid valid is).0 ≡ some j
    → (if j == i then 1 else 0) + count i (pull_valid valid is).1 ≤ count i is
unfolding count pull_valid
pulled-count valid [] i j e = absurd (ground arith)
pulled-count valid (x ∷ is) i j e = ground (arith, pulled-count valid is i j)

count-keep_valid :
    (valid : ℕ → Bool) (is : List ℕ) (i : ℕ) → count i (keep_valid valid is) ≤ count i is
unfolding count keep_valid
count-keep_valid valid [] i = omega arith
count-keep_valid valid (x ∷ is) i = ground (arith, count-keep_valid valid is i)

-- Items of a pool are dropped.
dropped-IsOwned :
    (w : World) (k : ℕ) (is : List ℕ)
    → ((i : ℕ) → count i is ≤ count i (w.pools k).items)
    → IsOwned w
    → IsOwned (set_pool w k (record (w.pools k) { items = is }))
unfolding places set_pool
dropped-IsOwned w k is h o i p q n = ground (arith, o i p q n, h i)

hand_out-IsOwned :
    (valid : ℕ → Bool) (w : World) (k : ℕ) (b : Bool) (pulled : Option ℕ × List ℕ)
    → pulled ≡ pull_valid valid (w.pools k).items
    → IsOwned w
    → IsOwned (hand_out w k b pulled).0
unfolding hand_out
hand_out-IsOwned valid w k b (none, rest) e o = create-IsOwned _ k b (
    dropped-IsOwned w k rest
      (λ i. rw (ap (λ r. r.1) e) (count-pull_valid valid (w.pools k).items i)) o)
hand_out-IsOwned valid w k b (some j, rest) e o = lock_and-IsOwned increment _ (some k) λ i p q n.
    let h : (if j == i then 1 else 0) + count i rest ≤ count i (w.pools k).items =
      rw (ap (λ r. r.1) e) (pulled-count valid (w.pools k).items i j (sym (ap (λ r. r.0) e))) in
    unfold places count_held set_pool in ground (arith, o i p q n, o i p k, o i q k, h)

-- The places of an item that is in transit, besides those of `places`.
abbrev Carries : World → ℕ → Type 0
Carries w j =
    (i p q : ℕ)
    → p ≢ q
    → ((if j == i then 1 else 0) + places w i p q ≤ 1)
      × (w.next ≤ i → (if j == i then 1 else 0) + places w i p q ≡ 0)

taken-Carries :
    (w : World) (j : ℕ) (h : Handle)
    → find j w.handles ≡ some h
    → IsOwned w
    → Carries (record w { handles = remove j w.handles }) j
unfolding places
taken-Carries w j h e o i p q n = (
  omega (arith, (o i p q n).0, count_held-remove i j w.handles h e),
  λ l. omega (arith, (o i p q n).1 l, count_held-remove i j w.handles h e),
)

Carries-IsOwned : (w : World) (j : ℕ) → Carries w j → IsOwned w
Carries-IsOwned w j c i p q n = (omega (arith, (c i p q n).0), λ l. omega (arith, (c i p q n).1 l))

push-IsOwned : (valid : ℕ → Bool) (w : World) (k j : ℕ) → Carries w j → IsOwned (push valid w k j)
unfolding push
push-IsOwned valid w k j c = elim (Bool-cases (valid j)) [
  | inl v ↦ rw v (λ i p q n. unfold places count set_pool in ground (arith, c i p q n))
  | inr v ↦ rw v (Carries-IsOwned w j c)
]

give_back-IsOwned :
    (valid : ℕ → Bool) (w : World) (j : ℕ) (q : Option ℕ)
    → Carries w j
    → IsOwned (give_back valid w j q)
unfolding give_back
give_back-IsOwned valid w j none c = Carries-IsOwned w j c
give_back-IsOwned valid w j (some k) c = elim (Bool-cases (w.pools k).alive) [
  | inl e ↦ rw e (
      push-IsOwned valid _ k j λ i p q n.
        rw (lock_and-places decrement w (some k) i p q, lock_and-next decrement w (some k))
          (c i p q n))
  | inr e ↦ rw e (Carries-IsOwned w j c)
]

release-IsOwned : (valid : ℕ → Bool) (w : World) (j : ℕ) → IsOwned w → IsOwned (release valid w j)
unfolding release
release-IsOwned valid w j o = elim (Option-cases (find j w.handles)) [
  | inl e ↦ rw (e, release) o
  | inr (h, e) ↦
      rw (e, release)
        (give_back-IsOwned valid (record w { handles = remove j w.handles }) j h.pool
          (taken-Carries w j h e o))
]

repoint-IsOwned :
    (w : World) (j : ℕ) (h : Handle) (q : Option ℕ)
    → find j w.handles ≡ some h
    → IsOwned w
    → IsOwned (repoint (lock_and decrement w h.pool) j q)
unfolding repoint
repoint-IsOwned w j h q e o i p r n =
    unfold places count_held in
    rw
      (
        lock_and-items decrement w h.pool p,
        lock_and-items decrement w h.pool r,
        lock_and-handles decrement w h.pool,
        lock_and-next decrement w h.pool,
      )
      (
        omega (arith, (o i p r n).0, count_held-remove i j w.handles h e),
        λ l. omega (arith, (o i p r n).1 l, count_held-remove i j w.handles h e),
      )

detach-IsOwned : (w : World) (j : ℕ) → IsOwned w → IsOwned (detach w j)
unfolding detach
detach-IsOwned w j o = elim (Option-cases (find j w.handles)) [
  | inl e ↦ rw (e, detach) o
  | inr (h, e) ↦ rw (e, detach) (repoint-IsOwned w j h none e o)
]

attach-IsOwned : (w : World) (j q : ℕ) → IsOwned w → IsOwned (attach w j q)
unfolding attach
attach-IsOwned w j q o = elim (Option-cases (find j w.handles)) [
  | inl e ↦ rw (e, attach) o
  | inr (h, e) ↦
      rw (e, attach) (lock_and-IsOwned increment _ (some q) (repoint-IsOwned w j h (some q) e o))
]

guarded-IsOwned : (w v : World) (b : Bool) → IsOwned w → IsOwned v → IsOwned (if b then v else w)
guarded-IsOwned w v true c d = d
guarded-IsOwned w v false c d = c

destroy-IsOwned : (w : World) (k : ℕ) → IsOwned w → IsOwned (destroy w k)
unfolding destroy places set_pool count
destroy-IsOwned w k o i p q n = ground (arith, o i p q n)

step-IsOwned : (w : World) (c : (ℕ → Bool) × Call) → IsOwned w → IsOwned (step w c)
unfolding step
step-IsOwned w (valid, creates p b) o =
    guarded-IsOwned w _ (w.pools p).alive o (create-IsOwned w p b o)
step-IsOwned w (valid, gets p b) o =
    guarded-IsOwned w _ (w.pools p).alive o (unfold get in hand_out-IsOwned valid w p b _ refl o)
step-IsOwned w (valid, releases i) o = release-IsOwned valid w i o
step-IsOwned w (valid, detaches i) o = detach-IsOwned w i o
step-IsOwned w (valid, attaches i q) o = attach-IsOwned w i q o
step-IsOwned w (valid, erases p) o =
    guarded-IsOwned w _ (w.pools p).alive o
      (unfold erase_invalid in dropped-IsOwned w p _ (count-keep_valid valid (w.pools p).items) o)
step-IsOwned w (valid, destroys p) o = destroy-IsOwned w p o

run-IsOwned_from : (w : World) (cs : List ((ℕ → Bool) × Call)) → IsOwned w → IsOwned (run w cs)
unfolding run
run-IsOwned_from w [] o = o
run-IsOwned_from w (x ∷ cs) o = run-IsOwned_from (step w x) cs (step-IsOwned w x o)

-- After any calls on new pools, whatever was valid when and whichever creations failed: each item
-- is in one place at most (an entry of one of two pools, or a handle), and an item that was not
-- made yet is in none.
pub run-IsOwned : (cs : List ((ℕ → Bool) × Call)) → IsOwned (run initial cs)
run-IsOwned cs =
    run-IsOwned_from initial cs (λ i p q n. unfold places count count_held in omega arith)
