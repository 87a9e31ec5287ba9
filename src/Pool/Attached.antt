-- ===== src/Pool/Attached.antt =====
-- The counter `m_attached` of each living pool counts the handles whose deleters point to it.
use taopq.Base.{
  ℕ, suc, ◌+◌, ◌%◌, ◌<◌, ◌≡◌, refl, Bool, true, false, List, [], ◌∷◌, Option, none, some,
  if◌then◌else◌, arith, Bool-cases, Option-cases, ap, inl, inr, ◌∙◌,
}
use taopq.Pool.{
  size_mod, increment, decrement, Handle, World, set_pool, lock_and, find, remove, push, create,
  pull_valid, hand_out, get, give_back, release, repoint, attach, detach, erase_invalid, destroy,
  Call, creates, gets, releases, detaches, attaches, erases, destroys, step, run, initial,
}
use taopq.Pool.Count.{
  points, count_pool, count_pool-remove, CountedAs, lock_increment, lock_decrement,
  lock_and-handles,
}

-- What is to be counted.
abbrev pub IsCounted : World → Type 0
IsCounted w = CountedAs w (λ p. count_pool p w.handles)

-- Calls that leave the counters and the handles alone.
set_items-CountedAs :
    (w : World) (q : ℕ) (is : List ℕ) (n : ℕ → ℕ)
    → CountedAs w n
    → CountedAs (set_pool w q (record (w.pools q) { items = is })) n
unfolding set_pool
set_items-CountedAs w q is n c p a = ground (arith, c p, c q)

-- A new handle, and `++m_attached` of its pool.
added-IsCounted :
    (w : World) (i p k : ℕ)
    → IsCounted w
    → IsCounted (
        lock_and increment
          (record w { handles = record { item = i; pool = some p } ∷ w.handles; next = k })
          (some p))
unfolding count_pool
added-IsCounted w i p k c q a =
    rw
      (lock_and-handles increment
        (record w { handles = record { item = i; pool = some p } ∷ w.handles; next = k }) (some p))
      (lock_increment
        (record w { handles = record { item = i; pool = some p } ∷ w.handles; next = k }) (some p)
        (λ j. count_pool j w.handles) c q a)

create-IsCounted :
    (w : World) (p : ℕ) (created : Bool) → IsCounted w → IsCounted (create w p created).0
unfolding create
create-IsCounted w p true c = added-IsCounted w w.next p (suc w.next) c
create-IsCounted w p false c = c

hand_out-IsCounted :
    (w : World) (p : ℕ) (created : Bool) (pulled : Option ℕ × List ℕ)
    → IsCounted w
    → IsCounted (hand_out w p created pulled).0
unfolding hand_out set_pool
hand_out-IsCounted w p created (none, rest) c =
    create-IsCounted _ p created (set_items-CountedAs w p rest (λ q. count_pool q w.handles) c)
hand_out-IsCounted w p created (some i, rest) c =
    added-IsCounted (set_pool w p (record (w.pools p) { items = rest })) i p w.next
      (set_items-CountedAs w p rest (λ q. count_pool q w.handles) c)

-- A handle that is taken away, and `--m_attached` of its pool.
removed-CountedAs :
    (w : World) (i : ℕ) (h : Handle)
    → find i w.handles ≡ some h
    → IsCounted w
    → CountedAs w (λ p. points h.pool p + count_pool p (remove i w.handles))
removed-CountedAs w i h e c p a =
    c p a ∙ ap (λ k. k % size_mod) (count_pool-remove p i w.handles h e)

give_back-CountedAs :
    (valid : ℕ → Bool) (w : World) (i : ℕ) (q : Option ℕ) (n : ℕ → ℕ)
    → CountedAs w (λ p. points q p + n p)
    → CountedAs (give_back valid w i q) n
unfolding give_back push
give_back-CountedAs valid w i none n c = λ p a. unfold points in omega (arith, c p a)
give_back-CountedAs valid w i (some q) n c = elim (Bool-cases (w.pools q).alive) [
  | inl e ↦ rw e (elim (Bool-cases (valid i)) [
    | inl v ↦ rw v (set_items-CountedAs _ q _ n (lock_decrement w (some q) n c))
    | inr v ↦ rw v (lock_decrement w (some q) n c)
  ])
  | inr e ↦ rw e (λ p a. unfold points in ground (arith, c p a))
]

give_back-handles :
    (valid : ℕ → Bool) (w : World) (i : ℕ) (q : Option ℕ)
    → (give_back valid w i q).handles ≡ w.handles
unfolding give_back push set_pool
give_back-handles valid w i none = refl
give_back-handles valid w i (some q) = ground (arith, lock_and-handles decrement w (some q))

release-IsCounted :
    (valid : ℕ → Bool) (w : World) (i : ℕ) → IsCounted w → IsCounted (release valid w i)
unfolding release
release-IsCounted valid w i c = elim (Option-cases (find i w.handles)) [
  | inl e ↦ rw (e, release) c
  | inr (h, e) ↦
      let w' : World = record w { handles = remove i w.handles } in
      rw (e, release, give_back-handles valid w' i h.pool)
        (give_back-CountedAs valid w' i h.pool _ (removed-CountedAs w i h e c))
]

-- The pool of the handle of `i` was told, and the handle is not counted.
repoint-CountedAs :
    (w : World) (i : ℕ) (h : Handle)
    → find i w.handles ≡ some h
    → IsCounted w
    → CountedAs (lock_and decrement w h.pool) (λ p. count_pool p (remove i w.handles))
repoint-CountedAs w i h e c = lock_decrement w h.pool _ (removed-CountedAs w i h e c)

detach-IsCounted : (w : World) (i : ℕ) → IsCounted w → IsCounted (detach w i)
unfolding detach repoint
detach-IsCounted w i c = elim (Option-cases (find i w.handles)) [
  | inl e ↦ rw (e, detach) c
  | inr (h, e) ↦
      rw (e, detach, lock_and-handles decrement w h.pool)
        (λ p a. unfold count_pool points in omega (arith, repoint-CountedAs w i h e c p a))
]

attach-IsCounted : (w : World) (i q : ℕ) → IsCounted w → IsCounted (attach w i q)
unfolding attach repoint
attach-IsCounted w i q c = elim (Option-cases (find i w.handles)) [
  | inl e ↦ rw (e, attach) c
  | inr (h, e) ↦
      rw
        (
          e,
          attach,
          lock_and-handles increment (repoint (lock_and decrement w h.pool) i (some q)) (some q),
          lock_and-handles decrement w h.pool,
        )
        (unfold count_pool in
          lock_increment
            (record (lock_and decrement w h.pool) {
              handles = record { item = i; pool = some q } ∷ remove i w.handles;
            })
            (some q) (λ p. count_pool p (remove i w.handles)) (repoint-CountedAs w i h e c))
]

destroy-IsCounted : (w : World) (p : ℕ) → IsCounted w → IsCounted (destroy w p)
unfolding destroy set_pool
destroy-IsCounted w p c q a = ground (arith, c q)

guarded-IsCounted :
    (w v : World) (b : Bool) → IsCounted w → IsCounted v → IsCounted (if b then v else w)
guarded-IsCounted w v true c d = d
guarded-IsCounted w v false c d = c

step-IsCounted : (w : World) (c : (ℕ → Bool) × Call) → IsCounted w → IsCounted (step w c)
unfolding step get erase_invalid
step-IsCounted w (valid, creates p b) c =
    guarded-IsCounted w _ (w.pools p).alive c (create-IsCounted w p b c)
step-IsCounted w (valid, gets p b) c =
    guarded-IsCounted w _ (w.pools p).alive c
      (hand_out-IsCounted w p b (pull_valid valid (w.pools p).items) c)
step-IsCounted w (valid, releases i) c = release-IsCounted valid w i c
step-IsCounted w (valid, detaches i) c = detach-IsCounted w i c
step-IsCounted w (valid, attaches i q) c = attach-IsCounted w i q c
step-IsCounted w (valid, erases p) c =
    guarded-IsCounted w _ (w.pools p).alive c
      (unfold set_pool in set_items-CountedAs w p _ (λ q. count_pool q w.handles) c)
step-IsCounted w (valid, destroys p) c = destroy-IsCounted w p c

pub run-IsCounted : (w : World) (cs : List ((ℕ → Bool) × Call)) → IsCounted w → IsCounted (run w cs)
unfolding run
run-IsCounted w [] c = c
run-IsCounted w (x ∷ cs) c = run-IsCounted (step w x) cs (step-IsCounted w x c)

-- After any calls on new pools, whatever was valid when: `attached()` of a pool that is alive is
-- the number of the handles in use whose deleters point to it, if that number fits the counter.
pub run-attached :
    (cs : List ((ℕ → Bool) × Call)) (p : ℕ)
    → ((run initial cs).pools p).alive ≡ true
    → count_pool p (run initial cs).handles < size_mod
    → ((run initial cs).pools p).attached ≡ count_pool p (run initial cs).handles
run-attached cs p a h =
    omega (arith, run-IsCounted initial cs (λ q b. unfold count_pool in refl) p a)
