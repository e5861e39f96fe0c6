-- ===== src/Concurrence.antt =====
-- The servers of history_version/concurrence_server that answer in capitals, and the loop of
-- history_version/epoll_unblock/server.cpp. The kernel is a parameter, loops have fuel, and `none`
-- is no fuel.
pub mod Network
pub mod Streams
pub mod Capitals
pub mod Child
pub mod Reaped
pub mod Worker
mod Tests
use high_performance_server.Prelude.{
  ℕ, zero, suc, ◌-◌, ◌==◌, leb, if◌then◌else◌, Bool, true, false, not, ◌&&◌, Option, none, some,
  List, [], ◌∷◌, ◌++◌, Bytes, length, drop,
}
use high_performance_server.Util.{ReadResult, WriteResult}
use high_performance_server.Wrap.{Accepted, Called, or_exit, try_accept, read_once, write_once}

-- The system calls on a descriptor; `none` is -1. `register` and `unregister` are `epoll_ctl` with
-- EPOLL_CTL_ADD and EPOLL_CTL_DEL.
pub record Kernel (S : Type 0) : Type 0 where
  pub read : ℕ → ℕ → S → ReadResult × S
  pub write : ℕ → Bytes → S → WriteResult × S
  pub accept : S → Accepted × S
  pub register : ℕ → S → Option ℕ × S
  pub unregister : ℕ → S → Option ℕ × S
  pub close : ℕ → S → Option ℕ × S

-- `toupper` of the C locale
unfoldable pub toupper : ℕ → ℕ
toupper c = if leb b'a' c && leb c b'z' then c - 32 else c

-- the loop over the bytes read
unfoldable pub upper : Bytes → Bytes
unfolding toupper
upper [] = []
upper (b ∷ bs) = toupper b ∷ upper bs

-- The process goes on, or ends by `perr_exit`.
pub data Served (S : Type 0) : Type 0 where
  serving exits : S → Served S

-- An event of `epoll_wait`: the descriptor, and whether it has EPOLLIN.
pub record Event : Type 0 where
  pub fd : ℕ
  pub readable : Bool

module _ {S : Type 0} where
  abbrev pub served : Called S → Served S
  served (Called.returns n s) = serving s
  served (Called.exits s) = exits s

  abbrev pub next_served : (S → Option (Served S)) → Option (Served S) → Option (Served S)
  next_served f none = none
  next_served f (some (serving s)) = f s
  next_served f (some (exits s)) = some (exits s)

-- epoll/server.cc and epoll_nonblock_io/server.cc
module _ {S : Type 0} (k : Kernel S) where
  -- `Epoll_ctl` with EPOLL_CTL_DEL, and `Close`
  unfoldable pub forget_client : ℕ → S → Served S
  forget_client fd s = elim (or_exit (k.unregister fd s)) [
    | Called.returns n s' ↦ served (or_exit (k.close fd s'))
    | Called.exits s' ↦ exits s'
  ]

  -- behind `Read` of at most 8192 bytes; where it fails, the result of `epoll_ctl` is not looked at
  unfoldable pub answer_client : ℕ → ℕ → Option Bytes × S → Option (Served S)
  unfolding forget_client upper
  answer_client fuel fd (none, s) = some (served (or_exit (k.close fd (k.unregister fd s).1)))
  answer_client fuel fd (some [], s) = some (forget_client fd s)
  answer_client fuel fd (some (b ∷ bs), s) =
      elim (write_once (k.write fd) fuel (upper (b ∷ bs)) s) [
        | none ↦ none
        | some (n, s') ↦ some (serving s')
      ]

  unfoldable pub serve_client : ℕ → ℕ → S → Option (Served S)
  unfolding answer_client
  serve_client fuel fd s = elim (read_once (k.read fd) fuel 8192 s) [
    | none ↦ none
    | some res ↦ answer_client fuel fd res
  ]

  -- `Accept`, and `Epoll_ctl` with EPOLL_CTL_ADD
  unfoldable pub accept_client : ℕ → S → Option (Served S)
  accept_client fuel s = elim (try_accept k.accept fuel s) [
    | none ↦ none
    | some (Called.returns fd s') ↦ some (served (or_exit (k.register fd s')))
    | some (Called.exits s') ↦ some (exits s')
  ]

  unfoldable pub serve_event : ℕ → ℕ → Event → S → Option (Served S)
  unfolding serve_client accept_client
  serve_event fuel listen_fd e s =
      if not e.readable
      then some (serving s)
      else if e.fd == listen_fd
      then accept_client fuel s
      else serve_client fuel e.fd s

  -- the loop over the events of one `epoll_wait`
  unfoldable pub serve_events : ℕ → ℕ → List Event → S → Option (Served S)
  unfolding serve_event
  serve_events fuel listen_fd [] s = some (serving s)
  serve_events fuel listen_fd (e ∷ es) s =
      next_served (serve_events fuel listen_fd es) (serve_event fuel listen_fd e s)

-- How the child of multi_progress_server ends: it returns 0, or exits with 1.
pub data Ended (S : Type 0) : Type 0 where
  returns_0 exits_1 : S → Ended S

module _ {S : Type 0} (k : Kernel S) (fd : ℕ) where
  -- The loop of the child: the bytes go out by a plain `write`, whose result is not looked at, and
  -- so is that of `close`. A round has the fuel that is left.
  unfoldable pub serve_child : ℕ → S → Option (Ended S)
  unfolding upper
  serve_child zero s = none
  serve_child (suc fuel) s = elim (read_once (k.read fd) (suc fuel) 128 s) [
    | none ↦ none
    | some (none, s') ↦ some (exits_1 s')
    | some (some [], s') ↦ some (returns_0 (k.close fd s').1)
    | some (some (b ∷ bs), s') ↦ serve_child fuel (k.write fd (upper (b ∷ bs)) s').1
  ]

  -- epoll_unblock/server.cpp: the bytes of a client go to the standard output, MAX_LINE at most in
  -- one piece, until `Read` has none
  unfoldable pub drain : ℕ → S → Option S
  drain zero s = none
  drain (suc fuel) s = elim (read_once (k.read fd) (suc fuel) 4 s) [
    | none ↦ none
    | some (none, s') ↦ some s'
    | some (some [], s') ↦ some s'
    | some (some (b ∷ bs), s') ↦ elim (write_once (k.write 1) (suc fuel) (b ∷ bs) s') [
      | none ↦ none
      | some (n, s'') ↦ drain fuel s''
    ]
  ]

-- What `waitpid` with WNOHANG returns: a child, 0 or -1.
pub data Waited : Type 0 where
  reaped none_ended no_child : Waited

-- `wait_child`, the handler of SIGCHLD: the loop goes on while the result is not 0.
module _ {S : Type 0} (waitpid : S → Waited × S) where
  unfoldable pub wait_child : ℕ → S → Option S
  wait_child zero s = none
  wait_child (suc fuel) s =
      let (w, s') = waitpid s in
      elim w [ reaped ↦ wait_child fuel s' | none_ended ↦ some s' | no_child ↦ wait_child fuel s' ]

-- What a round of `do_work` comes to: the array, or the end of the thread.
pub data Worked (S : Type 0) : Type 0 where
  goes_on : Bytes → S → Worked S
  ends : Served S → Worked S

-- `do_work` of multi_thread_server
module _ {S : Type 0} (k : Kernel S) (fd : ℕ) where
  -- behind `Write` of the whole array
  unfoldable pub wrote : Bytes → Option (Option ℕ × S) → Option (Worked S)
  wrote buf none = none
  wrote buf (some (n, s)) = some (goes_on buf s)

  -- The bytes overwrite the front of the array; -1 is not handled, and overwrites nothing.
  unfoldable pub work_round : ℕ → Bytes → S → Option (Worked S)
  unfolding wrote upper
  work_round fuel buf s = elim (read_once (k.read fd) fuel 128 s) [
    | none ↦ none
    | some (none, s') ↦ wrote buf (write_once (k.write fd) fuel buf s')
    | some (some [], s') ↦ some (ends (served (or_exit (k.close fd s'))))
    | some (some (b ∷ bs), s') ↦
        let buf' = upper (b ∷ bs) ++ drop (length (b ∷ bs)) buf in
        wrote buf' (write_once (k.write fd) fuel buf' s')
  ]

  -- so many rounds at most
  unfoldable pub do_work : ℕ → ℕ → Bytes → S → Option (Worked S)
  unfolding work_round
  do_work fuel zero buf s = some (goes_on buf s)
  do_work fuel (suc rounds) buf s = elim (work_round fuel buf s) [
    | none ↦ none
    | some (goes_on buf' s') ↦ do_work fuel rounds buf' s'
    | some (ends out) ↦ some (ends out)
  ]
