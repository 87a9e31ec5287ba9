-- ===== src/Pool/Count.antt =====
-- Counting handles, and what the counters of the pools are after `lock_and`.
use taopq.Base.{
  ℕ, ◌+◌, ◌%◌, ◌≡◌, refl, true, List, [], ◌∷◌, Option, none, some, if◌then◌else◌, ◌==◌, arith,
}
use taopq.Pool.{size_mod, increment, decrement, Handle, World, set_pool, lock_and, find, remove}

-- 1 where a weak pointer points to the pool, else 0.
unfoldable pub points : Option ℕ → ℕ → ℕ
points none p = 0
points (some q) p = if q == p then 1 else 0

-- How many handles' deleters point to the pool.
unfoldable pub count_pool : ℕ → List Handle → ℕ
unfolding points
count_pool p [] = 0
count_pool p (h ∷ hs) = points h.pool p + count_pool p hs

pub count_pool-remove :
    (p i : ℕ) (hs : List Handle) (h : Handle)
    → find i hs ≡ some h
    → count_pool p hs ≡ points h.pool p + count_pool p (remove i hs)
unfolding count_pool find remove
count_pool-remove p i [] h e = absurd (ground arith)
count_pool-remove p i (x ∷ hs) h e = ground (arith, count_pool-remove p i hs h)

-- The counter of each living pool is a given number, modulo the size of the counter.
abbrev pub CountedAs : World → (ℕ → ℕ) → Type 0
CountedAs w n = (p : ℕ) → (w.pools p).alive ≡ true → (w.pools p).attached ≡ n p % size_mod

increment_lem : (a n : ℕ) → a ≡ n % size_mod → increment a ≡ (1 + n) % size_mod
unfolding increment
increment_lem a n h = omega arith

decrement_lem : (a n : ℕ) → a ≡ (1 + n) % size_mod → decrement a ≡ n % size_mod
unfolding decrement
decrement_lem a n h = omega arith

pub lock_increment :
    (w : World) (q : Option ℕ) (n : ℕ → ℕ)
    → CountedAs w n
    → CountedAs (lock_and increment w q) (λ p. points q p + n p)
unfolding lock_and set_pool points
lock_increment w none n c p a = omega (arith, c p a)
lock_increment w (some q) n c p a = ground (arith, c p, increment_lem (w.pools p).attached (n p))

pub lock_decrement :
    (w : World) (q : Option ℕ) (n : ℕ → ℕ)
    → CountedAs w (λ p. points q p + n p)
    → CountedAs (lock_and decrement w q) n
unfolding lock_and set_pool points
lock_decrement w none n c p a = omega (arith, c p a)
lock_decrement w (some q) n c p a = ground (arith, c p, decrement_lem (w.pools p).attached (n p))

pub lock_and-handles : (f : ℕ → ℕ) (w : World) (q : Option ℕ) → (lock_and f w q).handles ≡ w.handles
unfolding lock_and set_pool
lock_and-handles f w none = refl
lock_and-handles f w (some q) = ground arith
