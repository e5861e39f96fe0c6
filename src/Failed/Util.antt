-- ===== src/Failed/Util.antt =====
-- `readn` and `Writen` of history_version/failed/include/util.cpp beside the present `readn` and
-- `writen`.
use mathlib.Core.List.{append-nil}
use high_performance_server.Prelude.{
  ℕ, zero, suc, ◌+◌, ◌-◌, ◌==◌, true, false, Option, none, some, [], ◌∷◌, ◌++◌, Bytes, length, drop,
  ◌≡◌, refl, arith, inl, inr, Bool-cases,
}
use high_performance_server.Util.{
  ReadResult, WriteResult, Received, received, failed, take_in, readn_loop, readn, send_off,
  writen_loop, writen,
}

module _ {S : Type 0} where
  -- The loop's body behind `read`: EINTR leaves nothing read, and the counters move all the same.
  unfoldable pub take_chunk :
      (ℕ → Bytes → S → Option (Received × S)) → ℕ → Bytes → ReadResult × S → Option (Received × S)
  take_chunk again left_num sum (ReadResult.broken, s) = some (failed, s)
  take_chunk again left_num sum (ReadResult.would_block, s) = some (received sum true, s)
  take_chunk again left_num sum (ReadResult.interrupted, s) = again (left_num - 0) (sum ++ []) s
  take_chunk again left_num sum (ReadResult.got [], s) = some (received sum false, s)
  take_chunk again left_num sum (ReadResult.got (b ∷ bs), s) =
      again (left_num - length (b ∷ bs)) (sum ++ b ∷ bs) s

  -- The loop's body behind `write`: EAGAIN and EINTR end in `continue`.
  unfoldable pub take_written :
      (Bytes → ℕ → S → Option (Option ℕ × S)) → Bytes → ℕ → WriteResult × S → Option (Option ℕ × S)
  take_written again left sum (WriteResult.broken, s) = some (none, s)
  take_written again left sum (WriteResult.would_block, s) = again left sum s
  take_written again left sum (WriteResult.interrupted, s) = again left sum s
  take_written again left sum (WriteResult.took n, s) = again (drop n left) (sum + n) s

module _ {S : Type 0} (read : ℕ → S → ReadResult × S) where
  unfoldable pub old_readn_loop : ℕ → ℕ → Bytes → S → Option (Received × S)
  unfolding take_chunk
  old_readn_loop zero left_num sum s = none
  old_readn_loop (suc fuel) left_num sum s = elim (left_num == 0) [
    | true ↦ some (received sum false, s)
    | false ↦ take_chunk (old_readn_loop fuel) left_num sum (read left_num s)
  ]

module _ {S : Type 0} (write : Bytes → S → WriteResult × S) where
  unfoldable pub old_writen_loop : ℕ → Bytes → ℕ → S → Option (Option ℕ × S)
  unfolding take_written
  old_writen_loop zero left sum s = none
  old_writen_loop (suc fuel) [] sum s = some (some sum, s)
  old_writen_loop (suc fuel) (b ∷ bs) sum s =
      take_written (old_writen_loop fuel) (b ∷ bs) sum (write (b ∷ bs) s)

  -- `Writen`
  unfoldable pub old_writen : ℕ → Bytes → S → Option (Option ℕ × S)
  unfolding old_writen_loop
  old_writen fuel bytes s = old_writen_loop fuel bytes 0 s

module _ {S : Type 0} (read : ℕ → S → ReadResult × S) where
  -- the old `readn`
  unfoldable pub old_readn : ℕ → ℕ → S → Option (Received × S)
  unfolding old_readn_loop
  old_readn fuel n s = old_readn_loop read fuel n [] s

  take_chunk-take_in :
      (again again' : ℕ → Bytes → S → Option (Received × S)) (left : ℕ) (sum : Bytes)
      (t : ReadResult × S)
      → ((left : ℕ) (sum : Bytes) (s : S) → again left sum s ≡ again' left sum s)
      → take_chunk again left sum t ≡ take_in again' left sum t
  unfolding take_chunk take_in
  take_chunk-take_in again again' left sum (ReadResult.broken, s) h = refl
  take_chunk-take_in again again' left sum (ReadResult.would_block, s) h = refl
  take_chunk-take_in again again' left sum (ReadResult.interrupted, s) h =
      let none_left : left - 0 ≡ left = omega arith in rw (append-nil sum, none_left) (h left sum s)
  take_chunk-take_in again again' left sum (ReadResult.got [], s) h = refl
  take_chunk-take_in again again' left sum (ReadResult.got (b ∷ bs), s) h =
      h (left - length (b ∷ bs)) (sum ++ b ∷ bs) s

  readn_loop_eq :
      (fuel left : ℕ) (sum : Bytes) (s : S)
      → old_readn_loop read fuel left sum s ≡ readn_loop read fuel left sum s
  unfolding old_readn_loop readn_loop
  readn_loop_eq zero left sum s = refl
  readn_loop_eq (suc fuel) left sum s = elim (Bool-cases (left == 0)) [
    | inl done ↦ rw (done, old_readn_loop, readn_loop) refl
    | inr more ↦
        rw (more, old_readn_loop, readn_loop)
          (take_chunk-take_in (old_readn_loop read fuel) (readn_loop read fuel) left sum
            (read left s) (readn_loop_eq fuel))
  ]

module _ {S : Type 0} (write : Bytes → S → WriteResult × S) where
  take_written-send_off :
      (again again' : Bytes → ℕ → S → Option (Option ℕ × S)) (left : Bytes) (sum : ℕ)
      (t : WriteResult × S)
      → ((left : Bytes) (sum : ℕ) (s : S) → again left sum s ≡ again' left sum s)
      → take_written again left sum t ≡ send_off again' left sum t
  unfolding take_written send_off
  take_written-send_off again again' left sum (WriteResult.broken, s) h = refl
  take_written-send_off again again' left sum (WriteResult.would_block, s) h = h left sum s
  take_written-send_off again again' left sum (WriteResult.interrupted, s) h = h left sum s
  take_written-send_off again again' left sum (WriteResult.took n, s) h =
      h (drop n left) (sum + n) s

  writen_loop_eq :
      (fuel : ℕ) (left : Bytes) (sum : ℕ) (s : S)
      → old_writen_loop write fuel left sum s ≡ writen_loop write fuel left sum s
  unfolding old_writen_loop writen_loop
  writen_loop_eq zero left sum s = refl
  writen_loop_eq (suc fuel) [] sum s = refl
  writen_loop_eq (suc fuel) (b ∷ bs) sum s =
      let more : (length (b ∷ bs) == 0) ≡ false = ground arith in
      rw (more, writen_loop)
        (take_written-send_off (old_writen_loop write fuel) (writen_loop write fuel) (b ∷ bs) sum
          (write (b ∷ bs) s) (writen_loop_eq fuel))

-- The old `readn` and `Writen` are the present `readn` and `writen`: on every kernel and with the
-- same fuel they return the same and leave the kernel in the same state.
pub readn-writen_unchanged :
    {S : Type 0} (read : ℕ → S → ReadResult × S) (write : Bytes → S → WriteResult × S) (fuel n : ℕ)
    (bytes : Bytes) (s : S)
    → (old_readn read fuel n s ≡ readn read fuel n s)
      × (old_writen write fuel bytes s ≡ writen write fuel bytes s)
unfolding old_readn readn old_writen writen
readn-writen_unchanged read write fuel n bytes s =
    (readn_loop_eq read fuel n [] s, writen_loop_eq write fuel bytes 0 s)
