-- ===== src/EchoLoop/Loop.antt =====
-- `init_listen_socket` and `main` of history_version/epoll_loop/server.cpp: the start, and the rounds
-- of the loop, each with its pass of the timeout scan and the entries that `epoll_wait` reports.
use high_performance_server.Prelude.{
  ℕ, zero, suc, ◌+◌, Bool, false, Option, none, some, List, [], ◌∷◌, get_elem?, set,
}
use high_performance_server.EchoLoop.{
  Kernel, Slot, Table, Outcome, returned, exited, undefined, and_then, no_call, accepts, no_events,
  epoll_in, event_set, event_add, scan, dispatch, dispatch_listener,
}

-- The calls of the start; `none` is -1. The results of `fcntl` and `setsockopt` are not looked at.
pub record Sockets (K : Type 0) : Type 0 where
  pub epoll_create : ℕ → K → Option ℕ × K
  pub socket : K → Option ℕ × K
  pub set_non_blocking : ℕ → K → K
  pub set_reuse : ℕ → K → K
  pub bind : ℕ → ℕ → K → Option ℕ × K
  pub listen : ℕ → ℕ → K → Option ℕ × K

-- `perr_exit` where a call returns -1
abbrev pub or_exit : {K : Type 0} → Option ℕ × K → Outcome ℕ K
or_exit (none, k) = exited k
or_exit (some n, k) = returned n k

-- an entry of the global array, before anything is stored in it
abbrev pub zero_slot : Slot
zero_slot = record {
  fd = 0;
  events = no_events;
  in_tree = false;
  buf = [];
  buf_len = 0;
  last_active = 0;
  call_back = no_call;
  self = 0;
}

abbrev pub zero_slots : ℕ → List Slot
zero_slots zero = []
zero_slots (suc n) = zero_slot ∷ zero_slots n

-- SERVER_PORT
abbrev pub server_port : ℕ
server_port = 8899

module _ {K : Type 0} (sockets : Sockets K) where
  -- The port is SERVER_PORT, whatever the argument says.
  unfoldable pub init_listen_socket : ℕ → ℕ → K → Outcome ℕ K
  init_listen_socket open_max port k = and_then (or_exit (sockets.socket k)) (λ fd k₁.
      let k₂ = sockets.set_reuse fd (sockets.set_non_blocking fd k₁) in
      and_then (or_exit (sockets.bind fd server_port k₂))
        (λ _ k₃. and_then (or_exit (sockets.listen fd (open_max + 1) k₃)) (λ _ k₄. returned fd k₄)))

  -- `main` up to its loop
  unfoldable pub echo_start : Kernel K → ℕ → ℕ → K → Outcome Table K
  unfolding init_listen_socket event_set event_add
  echo_start kernel open_max now k =
      and_then (or_exit (sockets.epoll_create (open_max + 1) k)) (λ _ k₁.
        and_then (init_listen_socket open_max server_port k₁) (λ fd k₂.
          let (l, k₃) =
            event_add kernel now epoll_in (event_set now fd accepts open_max zero_slot) k₂ in
          returned (record { clients = zero_slots open_max; listener = l }) k₃))

-- What `epoll_wait` reports of an entry: its place, `none` for the listening socket's, and the time
-- at which its handlers run.
pub record Touched : Type 0 where
  pub place : Option ℕ
  pub readable : Bool
  pub writable : Bool
  pub at : ℕ

-- a round: the time of its scan, and what `epoll_wait` reports
pub record Round : Type 0 where
  pub time : ℕ
  pub touched : List Touched

module _ {K : Type 0} (kernel : Kernel K) where
  -- an entry of a client
  unfoldable pub serve_slot : Touched → ℕ → Table → K → Outcome Table K
  unfolding dispatch
  serve_slot e i t k = elim (get_elem? t.clients i) [
    | none ↦ undefined
    | some s ↦
        and_then (dispatch kernel e.at e.readable e.writable s k)
          (λ s' k'. returned (record t { clients = set t.clients i s' }) k')
  ]

  -- the listening socket waits for EPOLLIN alone
  unfoldable pub serve_place : Touched → Option ℕ → Table → K → Outcome Table K
  unfolding serve_slot dispatch_listener
  serve_place e none t k =
      let (t', k') = dispatch_listener kernel e.at e.readable t k in returned t' k'
  serve_place e (some i) t k = serve_slot e i t k

  unfoldable pub serve_touched : List Touched → Table → K → Outcome Table K
  unfolding serve_place
  serve_touched [] t k = returned t k
  serve_touched (e ∷ es) t k = and_then (serve_place e e.place t k) (serve_touched es)

  -- 100 entries of the scan, and the reported ones; `check_pos` goes on in the next round
  unfoldable pub echo_round : Round → Table × ℕ → K → Outcome (Table × ℕ) K
  unfolding scan serve_touched
  echo_round r (t, pos) k = and_then (scan kernel 100 r.time t.clients pos k) (λ found k'.
      and_then (serve_touched r.touched (record t { clients = found.0 }) k')
        (λ t' k''. returned (t', found.1) k''))

  unfoldable pub echo_rounds : List Round → Table × ℕ → K → Outcome (Table × ℕ) K
  unfolding echo_round
  echo_rounds [] at k = returned at k
  echo_rounds (r ∷ rs) at k = and_then (echo_round r at k) (echo_rounds rs)

-- `main`, with so many rounds of its loop
unfoldable pub echo_main :
    {K : Type 0} → Sockets K → Kernel K → ℕ → ℕ → List Round → K → Outcome (Table × ℕ) K
unfolding echo_start echo_rounds
echo_main sockets kernel open_max now rs k =
    and_then (echo_start sockets kernel open_max now k) (λ t k'. echo_rounds kernel rs (t, 0) k')
