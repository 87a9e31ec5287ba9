-- ===== src/Pool.antt =====
-- `internal::pool`: include/tao/pq/internal/pool.hpp, which `connection_pool` instantiates with
-- connections. Each call is one step: the mutex and the atomic counter make its parts atomic, and
-- calls of several threads are not interleaved here.
pub mod Count
pub mod Attached
pub mod Ownership
pub mod Get
pub mod Tests
use taopq.Base.{
  ℕ, suc, ◌+◌, ◌-◌, ◌%◌, ◌^◌, Bool, true, false, List, [], ◌∷◌, Option, none, some, if◌then◌else◌,
  ◌==◌, map,
}

-- `std::size_t` has 64 bits.
abbrev pub size_mod : ℕ
size_mod = 2 ^ 64

-- `++m_attached` and `--m_attached`.
unfoldable pub increment : ℕ → ℕ
increment a = (a + 1) % size_mod

unfoldable pub decrement : ℕ → ℕ
decrement a = (a + size_mod - 1) % size_mod

-- A `shared_ptr` that a pool made and that is in use, with the weak pointer of its deleter.
pub record Handle : Type 0 where
  pub item : ℕ
  pub pool : Option ℕ

-- The head of `items` is the back of `m_items`. A pool that was destroyed is not `alive`.
pub record Pool : Type 0 where
  pub alive : Bool
  pub items : List ℕ
  pub attached : ℕ

-- All pools, all handles, and the name of the next object that `v_create` makes.
pub record World : Type 0 where
  pub pools : ℕ → Pool
  pub handles : List Handle
  pub next : ℕ

unfoldable pub set_pool : World → ℕ → Pool → World
set_pool w p q = record w { pools = λ k. if k == p then q else w.pools k }

-- `if( const auto p = m_pool.lock() ) { f( p->m_attached ); }`
unfoldable pub lock_and : (ℕ → ℕ) → World → Option ℕ → World
lock_and f w none = w
lock_and f w (some p) =
    if (w.pools p).alive
    then set_pool w p (record (w.pools p) { attached = f (w.pools p).attached })
    else w

unfoldable pub find : ℕ → List Handle → Option Handle
find i [] = none
find i (h ∷ hs) = if h.item == i then some h else find i hs

unfoldable pub remove : ℕ → List Handle → List Handle
remove i [] = []
remove i (h ∷ hs) = if h.item == i then hs else h ∷ remove i hs

-- `push`: an item that is not valid is destroyed.
unfoldable pub push : (ℕ → Bool) → World → ℕ → ℕ → World
push v_is_valid w p i =
    if v_is_valid i then set_pool w p (record (w.pools p) { items = i ∷ (w.pools p).items }) else w

-- `create`, where `created` says whether `v_create` returned or threw.
unfoldable pub create : World → ℕ → Bool → World × Option ℕ
create w p created =
    if created
    then (
      lock_and increment
          (record w {
            handles = record { item = w.next; pool = some p } ∷ w.handles;
            next = suc w.next;
          })
          (some p),
      some w.next,
    )
    else (w, none)

-- The loop of `get`: items are pulled until one is valid; the others are destroyed.
unfoldable pub pull_valid : (ℕ → Bool) → List ℕ → Option ℕ × List ℕ
pull_valid v_is_valid [] = (none, [])
pull_valid v_is_valid (i ∷ is) = if v_is_valid i then (some i, is) else pull_valid v_is_valid is

-- `get` behind its loop.
unfoldable pub hand_out : World → ℕ → Bool → Option ℕ × List ℕ → World × Option ℕ
hand_out w p created (none, rest) =
    create (set_pool w p (record (w.pools p) { items = rest })) p created
hand_out w p created (some i, rest) = (
  lock_and increment
      (record (set_pool w p (record (w.pools p) { items = rest })) {
        handles = record { item = i; pool = some p } ∷ w.handles;
      })
      (some p),
  some i,
)

unfoldable pub get : (ℕ → Bool) → World → ℕ → Bool → World × Option ℕ
get v_is_valid w p created = hand_out w p created (pull_valid v_is_valid (w.pools p).items)

-- `deleter::operator()` on an item and its weak pointer.
unfoldable pub give_back : (ℕ → Bool) → World → ℕ → Option ℕ → World
give_back v_is_valid w i none = w
give_back v_is_valid w i (some p) =
    if (w.pools p).alive then push v_is_valid (lock_and decrement w (some p)) p i else w

-- The last owner of the handle of `i` lets it go.
unfoldable pub release : (ℕ → Bool) → World → ℕ → World
release v_is_valid w i = elim (find i w.handles) [
  | none ↦ w
  | some h ↦ give_back v_is_valid (record w { handles = remove i w.handles }) i h.pool
]

-- The deleter of the handle of `i` gets another weak pointer.
unfoldable pub repoint : World → ℕ → Option ℕ → World
repoint w i q = record w { handles = record { item = i; pool = q } ∷ remove i w.handles }

unfoldable pub attach : World → ℕ → ℕ → World
attach w i q = elim (find i w.handles) [
  | none ↦ w
  | some h ↦ lock_and increment (repoint (lock_and decrement w h.pool) i (some q)) (some q)
]

unfoldable pub detach : World → ℕ → World
detach w i = elim (find i w.handles) [
  | none ↦ w
  | some h ↦ repoint (lock_and decrement w h.pool) i none
]

unfoldable pub keep_valid : (ℕ → Bool) → List ℕ → List ℕ
keep_valid v_is_valid [] = []
keep_valid v_is_valid (i ∷ is) =
    let rest = keep_valid v_is_valid is in if v_is_valid i then i ∷ rest else rest

unfoldable pub erase_invalid : (ℕ → Bool) → World → ℕ → World
erase_invalid v_is_valid w p =
    set_pool w p (record (w.pools p) { items = keep_valid v_is_valid (w.pools p).items })

-- The last owner of the pool lets it go: its items are destroyed, and its weak pointers expire.
unfoldable pub destroy : World → ℕ → World
destroy w p = set_pool w p (record (w.pools p) { alive = false; items = [] })

pub data Call : Type 0 where
  creates gets : ℕ → Bool → Call
  releases detaches : ℕ → Call
  attaches : ℕ → ℕ → Call
  erases destroys : ℕ → Call

-- A call with the answers that `v_is_valid` gives during it. A pool that is gone is not called.
unfoldable pub step : World → (ℕ → Bool) × Call → World
step w (valid, creates p created) = if (w.pools p).alive then (create w p created).0 else w
step w (valid, gets p created) = if (w.pools p).alive then (get valid w p created).0 else w
step w (valid, releases i) = release valid w i
step w (valid, detaches i) = detach w i
step w (valid, attaches i q) = attach w i q
step w (valid, erases p) = if (w.pools p).alive then erase_invalid valid w p else w
step w (valid, destroys p) = destroy w p

unfoldable pub run : World → List ((ℕ → Bool) × Call) → World
run w [] = w
run w (c ∷ cs) = run (step w c) cs

-- Every pool is new and empty; a pool that is made later is one that no call has named so far.
abbrev pub initial : World
initial = record {
  pools = λ k. record { alive = true; items = []; attached = 0 };
  handles = [];
  next = 0;
}
