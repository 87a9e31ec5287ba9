-- ===== src/Connection/Copy.antt =====
-- The COPY functions of `pq::connection`: src/lib/pq/connection.cpp.
use taopq.Base.{ℕ, zero, suc, true, false, Option, none, some, Bytes, throw, diverged, pq_error}
use taopq.Base.Action.{Action, pure, fail, ◌>>=◌, ◌>>◌}
use taopq.Connection.{
  Libpq, Connection, CopyData, received, not_yet, ended, refused, CopyPut, taken, full, rejected,
  libpq, wait, expect,
}

module _ {L R H : Type 0} (pq : Libpq L R) (limit : ℕ) where
  -- One round of the loop of `get_copy_data`, with what `PQgetCopyData` gives; `none` is the end.
  unfoldable pub get_copy_round :
      Action (Connection L H) (Option Bytes) → CopyData → Action (Connection L H) (Option Bytes)
  get_copy_round more (received buffer) = pure (some buffer)
  get_copy_round more not_yet = do wait pq limit false; more
  get_copy_round more ended = pure none
  get_copy_round more refused = fail pq_error

  unfoldable pub get_copy_loop : ℕ → Action (Connection L H) (Option Bytes)
  get_copy_loop zero c = (c, throw diverged)
  get_copy_loop (suc fuel) c =
      (do result ← libpq pq.get_copy_data; get_copy_round (get_copy_loop fuel) result) c

  unfoldable pub get_copy_data : Action (Connection L H) (Option Bytes)
  get_copy_data = get_copy_loop limit

  -- One round of the loops of `put_copy_data` and `put_copy_end`.
  unfoldable pub put_copy_round :
      Action (Connection L H) (Unit {0}) → CopyPut → Action (Connection L H) (Unit {0})
  put_copy_round more taken = pure tt
  put_copy_round more full = do wait pq limit true; more
  put_copy_round more rejected = fail pq_error

  unfoldable pub put_copy_loop : (L → L × CopyPut) → ℕ → Action (Connection L H) (Unit {0})
  put_copy_loop put zero c = (c, throw diverged)
  put_copy_loop put (suc fuel) c =
      (do result ← libpq put; put_copy_round (put_copy_loop put fuel) result) c

  unfoldable pub put_copy_data : Bytes → Action (Connection L H) (Unit {0})
  put_copy_data buffer = put_copy_loop (λ l. pq.put_copy_data l buffer) limit

  unfoldable pub put_copy_end : Option Bytes → Action (Connection L H) (Unit {0})
  put_copy_end error_message = put_copy_loop (λ l. pq.put_copy_end l error_message) limit

  -- One round of the loop of `clear_copy_data`.
  unfoldable pub clear_round :
      Action (Connection L H) (Unit {0}) → Option Bytes → Action (Connection L H) (Unit {0})
  clear_round more none = pure tt
  clear_round more (some buffer) = more

  unfoldable pub clear_loop : ℕ → Action (Connection L H) (Unit {0})
  clear_loop zero c = (c, throw diverged)
  clear_loop (suc fuel) c = (do buffer ← get_copy_data; clear_round (clear_loop fuel) buffer) c

  unfoldable pub clear_copy_data : Action (Connection L H) (Unit {0})
  clear_copy_data = clear_loop limit

  unfoldable pub cancel : Action (Connection L H) (Unit {0})
  cancel = do sent ← libpq pq.cancel; expect pq_error sent
