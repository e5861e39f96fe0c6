-- ===== src/Server.antt =====
-- The server as a whole: the rounds of main.cpp's loop on requests and timers, and the calls of
-- `myHandler` that the thread pool's workers make, with the code of `handleRequest` in them.
pub mod Ready
pub mod Serving
pub mod Overtaken
pub mod Start
pub mod Starting
mod Tests
use high_performance_server.Prelude.{
  ℕ, Bool, true, false, if◌then◌else◌, Option, none, some, List, [], ◌∷◌, Bytes,
}
use high_performance_server.Request.{Request}
use high_performance_server.Request.Response.{Files}
use high_performance_server.Request.Handle.{
  Errno, Verdict, deleted, rearmed, crashed, handle_request,
}
use high_performance_server.Util.{WriteResult, Received}
use high_performance_server.Timers.{Heap, Arrival, Event, put, delete_request, rearm_request}
use high_performance_server.Timers.Runs.{System, event, sweeps, with_heap, act}

-- The loop takes an event or sweeps the timers; a worker calls the handler for the request at an
-- address, up to the new timer: what `readn` delivers, `errno`, the time, and the timer's address;
-- or a worker goes on to the `epoll_mod` of its call, and whether that succeeds.
pub data Happening : Type 0 where
  polled : Event → Arrival → Happening
  swept : (ℕ → ℕ) → Happening
  called : ℕ → Received → Errno → ℕ → ℕ → Happening
  registers : ℕ → Bool → Happening

-- A system and the state of the sockets; a handler that crashes; one that runs out of fuel; and a
-- use of a deleted object.
pub data Outcome (S : Type 0) : Type 0 where
  goes : System → S → Outcome S
  crashes unfinished dangles : Outcome S

abbrev pub reached : {S : Type 0} → S → Option System → Outcome S
reached w none = dangles
reached w (some s) = goes s w

abbrev pub and_then : {S : Type 0} → Outcome S → (System → S → Outcome S) → Outcome S
and_then (goes s w) f = f s w
and_then crashes f = crashes
and_then unfinished f = unfinished
and_then dangles f = dangles

-- the members that the call has left, the timer apart
abbrev pub store : ℕ → Request → System → System
store a r s = record s {
  heap = record s.heap { requests = put s.heap.requests a (some (record r { timer = none })) };
}

-- `epoll_mod` with the members of the request, and `delete this` where it fails
unfoldable pub registered : {S : Type 0} → Bool → ℕ → System → S → Outcome S
registered modified a s w = elim (s.heap.requests a) [
  | none ↦ dangles
  | some r ↦ if modified then goes s w else reached w (with_heap s.busy (delete_request a s.heap))
]

-- The timer of a request that is kept; the lock is free again behind it.
unfoldable pub keep : {S : Type 0} → ℕ → ℕ → ℕ → Request → System → S → Outcome S
keep a now t r s w =
    reached w (with_heap (put s.busy a false) (rearm_request now t a (store a r s).heap))

unfoldable pub settled : {S : Type 0} → ℕ → ℕ → ℕ → System → Option (Verdict × S) → Outcome S
unfolding keep
settled a now t s none = unfinished
settled a now t s (some (deleted, w)) =
    reached w (with_heap (put s.busy a false) (delete_request a s.heap))
settled a now t s (some (crashed, w)) = crashes
settled a now t s (some (rearmed r, w)) = keep a now t r s w

module _ {S : Type 0} (write : Bytes → S → WriteResult × S) (fuel : ℕ) (files : Files)
    (epoll_fd listen_fd : ℕ) (path : Bytes) where
  -- `myHandler` for the request at `a`, up to the new timer of a request that is kept
  unfoldable pub my_handler : ℕ → Received → Errno → ℕ → ℕ → System → S → Outcome S
  unfolding settled
  my_handler a read errno now t s w = elim (s.heap.requests a) [
    | none ↦ dangles
    | some r ↦ settled a now t s (handle_request write fuel files read errno t true r w)
  ]

  unfoldable pub happen : Happening → System → S → Outcome S
  unfolding my_handler act registered
  happen (polled e env) s w = reached w (act epoll_fd listen_fd path (event e env) s)
  happen (swept clock) s w = reached w (act epoll_fd listen_fd path (sweeps clock) s)
  happen (called a read errno now t) s w = my_handler a read errno now t s w
  happen (registers a modified) s w = registered modified a s w

  unfoldable pub happenings : List Happening → System → S → Outcome S
  unfolding happen
  happenings [] s w = goes s w
  happenings (x ∷ xs) s w = and_then (happen x s w) (happenings xs)
