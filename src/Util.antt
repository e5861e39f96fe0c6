-- ===== src/Util.antt =====
-- `readn` and `writen` of src/this_util.cpp. What the kernel answers is a parameter: `read` takes
-- the number of bytes asked for and the kernel's state, `write` the bytes offered. A loop has
-- fuel, and `none` means that it ran out.
pub mod Read
pub mod Write
pub mod Line
mod Tests
use high_performance_server.Prelude.{
  ℕ, zero, suc, ◌+◌, ◌-◌, ◌==◌, Bool, true, false, Option, none, some, List, [], ◌∷◌, ◌++◌, Bytes,
  length, drop, take,
}

-- What `read` returns: some bytes (none of them at the end of the stream), or -1 with EINTR,
-- EAGAIN or another error number.
pub data ReadResult : Type 0 where
  got : Bytes → ReadResult
  interrupted would_block broken : ReadResult

-- What `write` returns: how many bytes it took, or -1 with an error number.
pub data WriteResult : Type 0 where
  took : ℕ → WriteResult
  interrupted would_block broken : WriteResult

-- What `readn` returns: the bytes in the buffer, in the number that it returns, or -1. The flag
-- says whether the last call of `read` failed with EAGAIN, which is what `errno` then holds.
pub data Received : Type 0 where
  received : Bytes → Bool → Received
  failed : Received

module _ {S : Type 0} where
  -- The body of the loop behind the call of `read`; `again` is the next round.
  unfoldable pub take_in :
      (ℕ → Bytes → S → Option (Received × S)) → ℕ → Bytes → ReadResult × S → Option (Received × S)
  take_in again nleft acc (ReadResult.got [], s) = some (received acc false, s)
  take_in again nleft acc (ReadResult.got (b ∷ bs), s) =
      again (nleft - length (b ∷ bs)) (acc ++ b ∷ bs) s
  take_in again nleft acc (ReadResult.interrupted, s) = again nleft acc s
  take_in again nleft acc (ReadResult.would_block, s) = some (received acc true, s)
  take_in again nleft acc (ReadResult.broken, s) = some (failed, s)

  -- The body of the loop of `writen` behind the call of `write`.
  unfoldable pub send_off :
      (Bytes → ℕ → S → Option (Option ℕ × S)) → Bytes → ℕ → WriteResult × S → Option (Option ℕ × S)
  send_off again bytes sum (WriteResult.took n, s) = again (drop n bytes) (sum + n) s
  send_off again bytes sum (WriteResult.interrupted, s) = again bytes sum s
  send_off again bytes sum (WriteResult.would_block, s) = again bytes sum s
  send_off again bytes sum (WriteResult.broken, s) = some (none, s)

module _ {S : Type 0} (read : ℕ → S → ReadResult × S) where
  unfoldable pub readn_loop : ℕ → ℕ → Bytes → S → Option (Received × S)
  unfolding take_in
  readn_loop zero nleft acc s = none
  readn_loop (suc fuel) nleft acc s = elim (nleft == 0) [
    | true ↦ some (received acc false, s)
    | false ↦ take_in (readn_loop fuel) nleft acc (read nleft s)
  ]

  unfoldable pub readn : ℕ → ℕ → S → Option (Received × S)
  unfolding readn_loop
  readn fuel n s = readn_loop fuel n [] s

-- `writen` returns `writeSum`, or `none` for -1.
module _ {S : Type 0} (write : Bytes → S → WriteResult × S) where
  unfoldable pub writen_loop : ℕ → Bytes → ℕ → S → Option (Option ℕ × S)
  unfolding send_off
  writen_loop zero bytes sum s = none
  writen_loop (suc fuel) bytes sum s = elim (length bytes == 0) [
    | true ↦ some (some sum, s)
    | false ↦ send_off (writen_loop fuel) bytes sum (write bytes s)
  ]

  unfoldable pub writen : ℕ → Bytes → S → Option (Option ℕ × S)
  unfolding writen_loop
  writen fuel bytes s = writen_loop fuel bytes 0 s
