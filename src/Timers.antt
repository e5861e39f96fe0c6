-- ===== src/Timers.antt =====
-- Who owns what between requests and timers: `timer_stamp`, `timerCmp`, `~requestData` and
-- `separateTimer` of src/requestData.cpp, and the event loop's functions of main.cpp. Objects are
-- kept under their addresses; a deleted object is `none`, and a use of it is undefined behaviour,
-- which is a result `none`.
pub mod Owner
pub mod Sweep
pub mod Loop
pub mod Runs
pub mod Round
mod Tests
use high_performance_server.Prelude.{
  ℕ, zero, suc, ◌+◌, ◌==◌, leb, ltb, if◌then◌else◌, Bool, true, false, not, ◌&&◌, ◌||◌, Option,
  none, some, List, [], ◌∷◌, ◌++◌, Bytes,
}
use high_performance_server.Request.{Request, create, add_timer, get_fd}

-- `timer_stamp`
pub record Timer : Type 0 where
  pub deleted : Bool
  pub expired_time : ℕ
  pub request_data : Option ℕ

-- The requests and timers that live, by address, and `myTimerQueue` with its top first.
pub record Heap : Type 0 where
  pub requests : ℕ → Option Request
  pub timers : ℕ → Option Timer
  pub queue : List ℕ

unfoldable pub put {ℓ} : {A : Type ℓ} → (ℕ → A) → ℕ → A → ℕ → A
put m a v x = if x == a then v else m x

-- the constructor of `timer_stamp`
abbrev pub new_timer : ℕ → ℕ → ℕ → Timer
new_timer now timeout a = record {
  deleted = false;
  expired_time = now + timeout;
  request_data = some a;
}

-- `update`
unfoldable pub update : ℕ → ℕ → Timer → Timer
update now timeout t = record t { expired_time = now + timeout }

-- `clearReq` and `setDeleted`
unfoldable pub clear_req : Timer → Timer
clear_req t = record t { deleted = true; request_data = none }

-- `isvalid`
unfoldable pub is_valid : ℕ → Timer → Bool × Timer
is_valid now t = if ltb now t.expired_time then (true, t) else (false, record t { deleted = true })

-- `if (timer != nullptr) timer->clearReq()`
unfoldable pub clear_timer : Option ℕ → Heap → Option Heap
unfolding clear_req
clear_timer none h = some h
clear_timer (some t) h = elim (h.timers t) [
  | none ↦ none
  | some τ ↦ some (record h { timers = put h.timers t (some (clear_req τ)) })
]

-- `delete request`, with `~requestData`
unfoldable pub delete_request : ℕ → Heap → Option Heap
unfolding clear_timer put
delete_request a h = elim (h.requests a) [
  | none ↦ none
  | some r ↦ clear_timer r.timer (record h { requests = put h.requests a none })
]

-- `separateTimer` of the request at `a`
unfoldable pub separate_timer : ℕ → Heap → Option Heap
unfolding clear_timer put
separate_timer a h = elim (h.requests a) [
  | none ↦ none
  | some r ↦
      clear_timer r.timer
        (record h { requests = put h.requests a (some (record r { timer = none })) })
]

abbrev pub forget_timer : ℕ → Option Heap → Option Heap
forget_timer t none = none
forget_timer t (some h) = some (record h { timers = put h.timers t none })

abbrev pub delete_owner : Option ℕ → Heap → Option Heap
delete_owner none h = some h
delete_owner (some a) h = delete_request a h

-- `delete timer`, with `~timer_stamp`
unfoldable pub delete_timer : ℕ → Heap → Option Heap
unfolding delete_request put
delete_timer t h = elim (h.timers t) [
  | none ↦ none
  | some τ ↦ forget_timer t (delete_owner τ.request_data h)
]

-- The expiry that `timerCmp` reads; every queued timer lives, see the invariant.
unfoldable pub expiry : (ℕ → Option Timer) → ℕ → ℕ
expiry timers t = elim (timers t) [ none ↦ 0 | some τ ↦ τ.expired_time ]

-- `push`: in front of the first timer that expires later.
unfoldable pub push : (ℕ → Option Timer) → ℕ → List ℕ → List ℕ
unfolding expiry
push timers t [] = t ∷ []
push timers t (u ∷ us) =
    let rest = push timers t us in
    if leb (expiry timers u) (expiry timers t) then u ∷ rest else t ∷ u ∷ us

-- The timer behind the loop's test: `isvalid` is not asked about a deleted one.
unfoldable pub tested : ℕ → Timer → Timer
unfolding is_valid
tested now t = if t.deleted then t else (is_valid now t).1

-- The loop of `handle_expired_event` over the queue; `clock i` is the time of its round `i`.
unfoldable pub sweep : (ℕ → ℕ) → ℕ → List ℕ → Heap → Option Heap
unfolding delete_timer is_valid tested put
sweep clock i [] h = some (record h { queue = [] })
sweep clock i (t ∷ ts) h = elim (h.timers t) [
  | none ↦ none
  | some τ ↦ elim (τ.deleted || not (is_valid (clock i) τ).0) [
    | false ↦ some (record h { queue = t ∷ ts })
    | true ↦
        let timers = put h.timers t (some (tested (clock i) τ)) in
        elim (delete_timer t (record h { queue = ts; timers = timers })) [
          | none ↦ none
          | some h' ↦ sweep clock (i + 1) ts h'
        ]
  ]
]

unfoldable pub handle_expired_event : (ℕ → ℕ) → Heap → Option Heap
unfolding sweep
handle_expired_event clock h = sweep clock 0 h.queue h

-- What one `accept` and the calls behind it answer: the descriptor where it is positive, whether
-- `setSocketNonBlocking` worked, the addresses of the new objects, and the time.
pub record Arrival : Type 0 where
  pub accept_fd : Option ℕ
  pub non_blocking : Bool
  pub request : ℕ
  pub timer : ℕ
  pub now : ℕ

-- A timer at the address `t` for the request at `a`, and onto the queue.
unfoldable pub start_timer : ℕ → ℕ → ℕ → Heap → Heap
unfolding push put
start_timer now t a h =
    let timers = put h.timers t (some (new_timer now 500 a)) in
    record h { timers = timers; queue = push timers t h.queue }

-- `acceptConnection`
unfoldable pub accept_connection : ℕ → Bytes → Arrival → Heap → Heap
unfolding start_timer put create add_timer
accept_connection epoll_fd path env h = elim env.accept_fd [
  | none ↦ h
  | some fd ↦
      if not env.non_blocking
      then h
      else let r = add_timer env.timer (create epoll_fd fd path) in
        start_timer env.now env.timer env.request
          (record h { requests = put h.requests env.request (some r) })
]

-- An event: the request's address in `data.ptr`, and the bits EPOLLERR, EPOLLHUP and EPOLLIN.
pub record Event : Type 0 where
  pub request : ℕ
  pub err : Bool
  pub hup : Bool
  pub readable : Bool

-- the requests handed to the thread pool, with the heap
abbrev pub handing : List ℕ → Option Heap → Option (List ℕ × Heap)
handing l none = none
handing l (some h) = some (l, h)

-- one round of `handle_events`
unfoldable pub handle_event : ℕ → ℕ → Bytes → Event → Arrival → Heap → Option (List ℕ × Heap)
unfolding accept_connection delete_request separate_timer get_fd
handle_event epoll_fd listen_fd path e env h = elim (h.requests e.request) [
  | none ↦ none
  | some r ↦
      if get_fd r == listen_fd
      then some ([], accept_connection epoll_fd path env h)
      else if e.err || e.hup || not e.readable
      then handing [] (delete_request e.request h)
      else handing (e.request ∷ []) (separate_timer e.request h)
]

-- `handle_events`, with what each `accept` would answer
unfoldable pub handle_events :
    ℕ → ℕ → Bytes → List (Event × Arrival) → Heap → Option (List ℕ × Heap)
unfolding handle_event
handle_events epoll_fd listen_fd path [] h = some ([], h)
handle_events epoll_fd listen_fd path ((e, env) ∷ es) h =
    elim (handle_event epoll_fd listen_fd path e env h) [
      | none ↦ none
      | some (handed, h') ↦ elim (handle_events epoll_fd listen_fd path es h') [
        | none ↦ none
        | some (more, h'') ↦ some (handed ++ more, h'')
      ]
    ]

-- The end of `handleRequest` for a request that it keeps: a new timer, in place of none.
unfoldable pub rearm_request : ℕ → ℕ → ℕ → Heap → Option Heap
unfolding start_timer put
rearm_request now t a h = elim (h.requests a) [
  | none ↦ none
  | some r ↦ some (
      start_timer now t a
        (record h { requests = put h.requests a (some (record r { timer = some t })) }))
]

-- One round of the loop in `main`: what `epoll_wait` returns, `none` for -1, and the clock of the
-- sweep behind the events.
unfoldable pub main_round :
    ℕ → ℕ → Bytes → Option (List (Event × Arrival)) → (ℕ → ℕ) → Heap → Option (List ℕ × Heap)
unfolding handle_events handle_expired_event
main_round epoll_fd listen_fd path none clock h = handing [] (handle_expired_event clock h)
main_round epoll_fd listen_fd path (some []) clock h = some ([], h)
main_round epoll_fd listen_fd path (some (e ∷ es)) clock h =
    elim (handle_events epoll_fd listen_fd path (e ∷ es) h) [
      | none ↦ none
      | some (handed, h') ↦ handing handed (handle_expired_event clock h')
    ]
