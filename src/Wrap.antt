-- ===== src/Wrap.antt =====
-- The wrappers of the earlier servers, history_version/epoll_unblock/wrap.cpp (the other servers
-- under history_version carry copies). A result `none` is no fuel; the kernel is a parameter.
pub mod Readline
mod Tests
use high_performance_server.Prelude.{
  ℕ, zero, suc, ◌+◌, ◌-◌, ◌==◌, if◌then◌else◌, Bool, true, false, Option, none, some, List, [], ◌∷◌,
  ◌++◌, Bytes, length, drop,
}
use high_performance_server.Util.{ReadResult, WriteResult}

-- What `accept` returns: a descriptor, or -1 with ECONNABORTED, EINTR or another error number.
pub data Accepted : Type 0 where
  accepted : ℕ → Accepted
  aborted interrupted failed : Accepted

-- A wrapper that returns, or that ends the process by `perr_exit`.
pub data Called (S : Type 0) : Type 0 where
  returns : ℕ → S → Called S
  exits : S → Called S

-- `Bind`, `Connect`, `Listen`, `Socket`, `Close` and the epoll calls: `none` is -1
abbrev pub or_exit : {S : Type 0} → Option ℕ × S → Called S
or_exit (none, s) = exits s
or_exit (some n, s) = returns n s

module _ {S : Type 0} (accept : S → Accepted × S) where
  -- `Accept`
  unfoldable pub try_accept : ℕ → S → Option (Called S)
  try_accept zero s = none
  try_accept (suc fuel) s =
      let (a, s') = accept s in
      elim a [
        | accepted fd ↦ some (returns fd s')
        | aborted ↦ try_accept fuel s'
        | interrupted ↦ try_accept fuel s'
        | failed ↦ some (exits s')
      ]

module _ {S : Type 0} (read : ℕ → S → ReadResult × S) where
  -- `Read`: the bytes, or `none` for -1
  unfoldable pub read_once : ℕ → ℕ → S → Option (Option Bytes × S)
  read_once zero n s = none
  read_once (suc fuel) n s =
      let (r, s') = read n s in
      elim r [
        | ReadResult.got b ↦ some (some b, s')
        | ReadResult.interrupted ↦ read_once fuel n s'
        | ReadResult.would_block ↦ some (none, s')
        | ReadResult.broken ↦ some (none, s')
      ]

  -- `Read_nline`: the loop stops at the end of the stream, and at any error but EINTR
  unfoldable pub read_nline : ℕ → ℕ → Bytes → S → Option (Option Bytes × S)
  read_nline zero nleft acc s = none
  read_nline (suc fuel) nleft acc s = elim (nleft == 0) [
    | true ↦ some (some acc, s)
    | false ↦ elim (read nleft s).0 [
      | ReadResult.got [] ↦ some (some acc, (read nleft s).1)
      | ReadResult.got (b ∷ bs) ↦
          read_nline fuel (nleft - length (b ∷ bs)) (acc ++ b ∷ bs) (read nleft s).1
      | ReadResult.interrupted ↦ read_nline fuel nleft acc (read nleft s).1
      | ReadResult.would_block ↦ some (none, (read nleft s).1)
      | ReadResult.broken ↦ some (none, (read nleft s).1)
    ]
  ]

-- What `my_read` returns: 1 with a byte, 0, or -1.
pub data OneByte : Type 0 where
  byte : ℕ → OneByte
  at_end read_error : OneByte

module _ {S : Type 0} (read : ℕ → S → ReadResult × S) where
  -- The refill of the static buffer of 100 bytes, and the first byte of it.
  unfoldable pub refill : ℕ → S → Option (OneByte × Bytes × S)
  refill zero s = none
  refill (suc fuel) s =
      let (r, s') = read 100 s in
      elim r [
        | ReadResult.got [] ↦ some (at_end, [], s')
        | ReadResult.got (b ∷ bs) ↦ some (byte b, bs, s')
        | ReadResult.interrupted ↦ refill fuel s'
        | ReadResult.would_block ↦ some (read_error, [], s')
        | ReadResult.broken ↦ some (read_error, [], s')
      ]

  -- `my_read`; the list is what `read_ptr` and `read_cnt` have left of the buffer
  unfoldable pub my_read : ℕ → Bytes → S → Option (OneByte × Bytes × S)
  unfolding refill
  my_read fuel [] s = refill fuel s
  my_read fuel (b ∷ bs) s = some (byte b, bs, s)

  -- The loop of `Readline` with room for so many more bytes: the result (`none` for -1), the bytes
  -- stored, and what is left of the buffer.
  unfoldable pub read_line : ℕ → ℕ → Bytes → Bytes → S → Option (Option ℕ × Bytes × Bytes × S)
  unfolding my_read
  read_line fuel zero acc buf s = some (some (length acc + 1), acc, buf, s)
  read_line fuel (suc room) acc buf s = elim (my_read fuel buf s) [
    | none ↦ none
    | some (byte c, buf', s') ↦ elim (c == b'\n') [
      | true ↦ some (some (length acc + 1), acc ++ c ∷ [], buf', s')
      | false ↦ read_line fuel room (acc ++ c ∷ []) buf' s'
    ]
    | some (at_end, buf', s') ↦ some (some (length acc), acc, buf', s')
    | some (read_error, buf', s') ↦ some (none, acc, buf', s')
  ]

  -- `Readline` into an array of `maxlen` bytes
  unfoldable pub readline : ℕ → ℕ → Bytes → S → Option (Option ℕ × Bytes × Bytes × S)
  unfolding read_line
  readline fuel maxlen buf s = read_line fuel (maxlen - 1) [] buf s

module _ {S : Type 0} (write : Bytes → S → WriteResult × S) where
  -- `Write`
  unfoldable pub write_once : ℕ → Bytes → S → Option (Option ℕ × S)
  write_once zero b s = none
  write_once (suc fuel) b s =
      let (r, s') = write b s in
      elim r [
        | WriteResult.took n ↦ some (some n, s')
        | WriteResult.interrupted ↦ write_once fuel b s'
        | WriteResult.would_block ↦ some (none, s')
        | WriteResult.broken ↦ some (none, s')
      ]

  -- `Writen` returns true for `n` and false for -1, also where `write` takes nothing.
  unfoldable pub writen : ℕ → Bytes → S → Option (Bool × S)
  writen zero bytes s = none
  writen (suc fuel) [] s = some (true, s)
  writen (suc fuel) (b ∷ bs) s = elim (write (b ∷ bs) s).0 [
    | WriteResult.took zero ↦ some (false, (write (b ∷ bs) s).1)
    | WriteResult.took (suc n) ↦ writen fuel (drop n bs) (write (b ∷ bs) s).1
    | WriteResult.interrupted ↦ writen fuel (b ∷ bs) (write (b ∷ bs) s).1
    | WriteResult.would_block ↦ some (false, (write (b ∷ bs) s).1)
    | WriteResult.broken ↦ some (false, (write (b ∷ bs) s).1)
  ]
