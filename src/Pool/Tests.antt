-- ===== src/Pool/Tests.antt =====
-- A run of two pools, and the theorems on the pool at it.
use taopq.Base.{ℕ, ◌<◌, ◌≡◌, refl, Bool, true, List, [], ◌∷◌, ◌++◌, some, ◌⊎◌, arith, ◌==◌}
use taopq.Pool.{
  size_mod, World, Call, gets, releases, attaches, run, step, initial, get, create, hand_out,
  pull_valid, release, give_back, push, lock_and, set_pool, find, remove, attach, repoint,
}
use taopq.Pool.Count.{count_pool, points}
use taopq.Pool.Attached.{run-attached}
use taopq.Pool.Ownership.{IsOwned, run-IsOwned}
use taopq.Pool.Get.{NoneValid, get_lem}

abbrev always : ℕ → Bool
always i = true

-- Item 0 comes back to pool 0 and is handed out again; item 1 moves to pool 1.
abbrev history : List ((ℕ → Bool) × Call)
history =
    (always, gets 0 true)
    ∷ (always, gets 0 true)
    ∷ (always, releases 0)
    ∷ (always, attaches 1 1)
    ∷ (always, gets 0 true)
    ∷ []

history_handles :
    (run initial history).handles
    ≡ record { item = 0; pool = some 0 } ∷ record { item = 1; pool = some 1 } ∷ []
unfolding run step get hand_out pull_valid create lock_and set_pool release give_back push find
    remove attach repoint
history_handles = refl

history_alive : ((run initial history).pools 0).alive ≡ true
unfolding run step get hand_out pull_valid create lock_and set_pool release give_back push find
    remove attach repoint
history_alive = refl

history_count : count_pool 0 (run initial history).handles < size_mod
unfolding count_pool points
history_count = rw history_handles (omega arith)

run-attached_example :
    ((run initial history).pools 0).attached ≡ count_pool 0 (run initial history).handles
run-attached_example = run-attached history 0 history_alive history_count

run-IsOwned_example : IsOwned (run initial history)
run-IsOwned_example = run-IsOwned history

abbrev idle : World
idle = record {
  pools = λ k. record { alive = true; items = 3 ∷ 4 ∷ 5 ∷ []; attached = 0 };
  handles = [];
  next = 6;
}

get_lem_example :
    let after = get (λ i. i == 4) idle 0 true in
    ((before : List ℕ) × (j : ℕ) × (rest : List ℕ) × (3 ∷ 4 ∷ 5 ∷ [] ≡ before ++ j ∷ rest)
      × NoneValid (λ i. i == 4) before
      × ((j == 4) ≡ true)
      × (after.1 ≡ some j)
      × ((after.0.pools 0).items ≡ rest))
    ⊎ (NoneValid (λ i. i == 4) (3 ∷ 4 ∷ 5 ∷ [])
        × (after.1 ≡ some 6)
        × ((after.0.pools 0).items ≡ []))
get_lem_example = get_lem (λ i. i == 4) idle 0 true
