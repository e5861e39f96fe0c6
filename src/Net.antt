-- ===== src/Net.antt =====
-- `socket_bind_listen` of main.cpp, `setSocketNonBlocking` of src/this_util.cpp. What the system calls answer is passed in.
pub mod Listen
mod Tests
use Prim.Native.Nat.{bit_or}
use high_performance_server.Prelude.{
  ℕ, if◌then◌else◌, Bool, true, false, not, Option, none, some, List, [], ◌∷◌,
}
use high_performance_server.Prelude.Int.{ℤ, between, pos, negsuc}

-- What `socket` returns, and whether `setsockopt`, `bind` and `listen` return no -1.
pub record Answers : Type 0 where
  pub socket : Option ℕ
  pub reuse : Bool
  pub bind : Bool
  pub listen : Bool

-- the calls behind `socket`: the result, and the descriptors that stay open
unfoldable pub bind_listen : ℕ → Answers → Option ℕ × List ℕ
bind_listen fd env =
    if not env.reuse
    then (none, fd ∷ [])
    else if not env.bind
    then (none, fd ∷ [])
    else if not env.listen
    then (none, fd ∷ [])
    else (some fd, fd ∷ [])

unfoldable pub socket_bind_listen : ℤ → Answers → Option ℕ × List ℕ
unfolding bind_listen
socket_bind_listen port env =
    if not (between 1024 65535 port)
    then (none, [])
    else elim env.socket [ none ↦ (none, []) | some fd ↦ bind_listen fd env ]

-- the bit of O_NONBLOCK, 04000
abbrev pub o_nonblock : ℕ
o_nonblock = 2048

-- `setSocketNonBlocking`: what F_GETFL returns, and whether F_SETFL of the new flags works; the
-- result is the flags set, `none` for -1.
unfoldable pub set_socket_non_blocking : Option ℕ → (ℕ → Bool) → Option ℕ
set_socket_non_blocking none set_flags = none
set_socket_non_blocking (some flag) set_flags =
    if set_flags (bit_or flag o_nonblock) then some (bit_or flag o_nonblock) else none
