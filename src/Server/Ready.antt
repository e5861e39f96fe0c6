-- ===== src/Server/Ready.antt =====
-- Every request object waits in a state that takes bytes.
use mathlib.Core.Path.{subst}
use mathlib.Core.Option.{some-injective}
use high_performance_server.Prelude.{
  ℕ, ◌+◌, ◌==◌, ◌||◌, not, if◌then◌else◌, Bool, true, false, Option, none, some, List, [], ◌∷◌, ◌≡◌,
  refl, arith, Bool-cases, inl, inr, Bytes,
}
use high_performance_server.Request.{Request, create, add_timer, get_fd}
use high_performance_server.Request.Handle.Progress.{IsReady}
use high_performance_server.Timers.{
  Timer, Heap, Arrival, Event, put, clear_timer, delete_request, separate_timer, forget_timer,
  delete_owner, delete_timer, sweep, tested, is_valid, handle_expired_event, start_timer,
  accept_connection, handle_event, handing, rearm_request,
}

abbrev pub AreReady : Heap → Type 0
AreReady h = (b : ℕ) (r : Request) → h.requests b ≡ some r → IsReady r

-- the heap that an operation returns, if it does
abbrev pub Readies : Option Heap → Type 0
Readies none = Unit
Readies (some h) = AreReady h

pub put-AreReady :
    (h : Heap) (a : ℕ) (r' : Request)
    → AreReady h
    → IsReady r'
    → AreReady (record h { requests = put h.requests a (some r') })
unfolding put
put-AreReady h a r' k i b r e = elim (Bool-cases (b == a)) [
  | inl same ↦
      let here : some r' ≡ some r = ground arith in subst IsReady (some-injective _ _ here) i
  | inr other ↦ k b r (ground arith)
]

gone-AreReady :
    (h : Heap) (a : ℕ) → AreReady h → AreReady (record h { requests = put h.requests a none })
unfolding put
gone-AreReady h a k b r e = k b r (ground arith)

-- a lookup that ends the operation where it finds nothing
found-Readies :
    {A : Type 0} (o : Option A) (f : A → Option Heap)
    → ((x : A) → o ≡ some x → Readies (f x))
    → Readies (elim o [ none ↦ none | some x ↦ f x ])
found-Readies none f k = tt
found-Readies (some x) f k = k x refl

-- an operation behind another one
after-Readies :
    (o : Option Heap) (f : Heap → Option Heap)
    → Readies o
    → ((h : Heap) → AreReady h → Readies (f h))
    → Readies (elim o [ none ↦ none | some h ↦ f h ])
after-Readies none f d next = tt
after-Readies (some h) f d next = next h d

clear_timer-Readies : (t : Option ℕ) (h : Heap) → AreReady h → Readies (clear_timer t h)
unfolding clear_timer
clear_timer-Readies none h k = k
clear_timer-Readies (some t) h k = found-Readies (h.timers t) _ (λ τ e. k)

pub delete_request-Readies : (a : ℕ) (h : Heap) → AreReady h → Readies (delete_request a h)
unfolding delete_request
delete_request-Readies a h k = found-Readies (h.requests a) _ (λ r e.
    clear_timer-Readies r.timer (record h { requests = put h.requests a none })
      (gone-AreReady h a k))

pub without_timer-IsReady : (r : Request) → IsReady r → IsReady (record r { timer = none })
without_timer-IsReady r i = record {
  waiting = i.waiting;
  scan_fresh = i.scan_fresh;
  read_times_le = i.read_times_le;
}

separate_timer-Readies : (a : ℕ) (h : Heap) → AreReady h → Readies (separate_timer a h)
unfolding separate_timer
separate_timer-Readies a h k = found-Readies (h.requests a) _ (λ r e.
    let r' = record r { timer = none } in
    clear_timer-Readies r.timer (record h { requests = put h.requests a (some r') })
      (put-AreReady h a r' k (without_timer-IsReady r (k a r e))))

delete_owner-Readies : (o : Option ℕ) (h : Heap) → AreReady h → Readies (delete_owner o h)
delete_owner-Readies none h k = k
delete_owner-Readies (some a) h k = delete_request-Readies a h k

forget_timer-Readies : (t : ℕ) (o : Option Heap) → Readies o → Readies (forget_timer t o)
forget_timer-Readies t none k = tt
forget_timer-Readies t (some h) k = k

delete_timer-Readies : (t : ℕ) (h : Heap) → AreReady h → Readies (delete_timer t h)
unfolding delete_timer
delete_timer-Readies t h k = found-Readies (h.timers t) _ (λ τ e.
    forget_timer-Readies t (delete_owner τ.request_data h)
      (delete_owner-Readies τ.request_data h k))

sweep-Readies :
    (clock : ℕ → ℕ) (i : ℕ) (ts : List ℕ) (h : Heap) → AreReady h → Readies (sweep clock i ts h)
unfolding sweep
sweep-Readies clock i [] h k = k
sweep-Readies clock i (t ∷ ts) h k = found-Readies (h.timers t) _ (λ τ e.
    tested_round τ (τ.deleted || not (is_valid (clock i) τ).0) (delete_timer-Readies t (popped τ) k)
      (sweep-Readies clock (i + 1) ts))
  where
    popped : Timer → Heap
    popped τ = record h { queue = ts; timers = put h.timers t (some (tested (clock i) τ)) }

    tested_round :
        (τ : Timer) (ends : Bool)
        → Readies (delete_timer t (popped τ))
        → ((h' : Heap) → AreReady h' → Readies (sweep clock (i + 1) ts h'))
        → Readies (elim ends [
          | false ↦ some (record h { queue = t ∷ ts })
          | true ↦ elim (delete_timer t (popped τ)) [
            | none ↦ none
            | some h' ↦ sweep clock (i + 1) ts h'
          ]
        ])
    tested_round τ false d next = k
    tested_round τ true d next = after-Readies (delete_timer t (popped τ)) _ d next

pub handle_expired_event-Readies :
    (clock : ℕ → ℕ) (h : Heap) → AreReady h → Readies (handle_expired_event clock h)
unfolding handle_expired_event
handle_expired_event-Readies clock h k = sweep-Readies clock 0 h.queue h k

created-IsReady :
    (t epoll_fd fd : ℕ) (path : Bytes) → IsReady (add_timer t (create epoll_fd fd path))
unfolding add_timer create
created-IsReady t epoll_fd fd path = record {
  waiting = tt;
  scan_fresh = λ e. refl;
  read_times_le = omega arith;
}

accept_connection-AreReady :
    (epoll_fd : ℕ) (path : Bytes) (env : Arrival) (h : Heap)
    → AreReady h
    → AreReady (accept_connection epoll_fd path env h)
unfolding accept_connection start_timer
accept_connection-AreReady epoll_fd path env h k = accepted env.accept_fd env.non_blocking
  where
    accepted :
        (o : Option ℕ) (ok : Bool)
        → AreReady (elim o [
          | none ↦ h
          | some fd ↦
              if not ok
              then h
              else start_timer env.now env.timer env.request (record h {
                requests =
                    put h.requests env.request
                      (some (add_timer env.timer (create epoll_fd fd path)));
              })
        ])
    accepted none ok = k
    accepted (some fd) false = k
    accepted (some fd) true =
        put-AreReady h env.request _ k (created-IsReady env.timer epoll_fd fd path)

-- the heap behind an event
abbrev pub EventReadies : Option (List ℕ × Heap) → Type 0
EventReadies none = Unit
EventReadies (some (handed, h)) = AreReady h

handing-EventReadies : (l : List ℕ) (o : Option Heap) → Readies o → EventReadies (handing l o)
handing-EventReadies l none k = tt
handing-EventReadies l (some h) k = k

pub handle_event-EventReadies :
    (epoll_fd listen_fd : ℕ) (path : Bytes) (e : Event) (env : Arrival) (h : Heap)
    → AreReady h
    → EventReadies (handle_event epoll_fd listen_fd path e env h)
unfolding handle_event
handle_event-EventReadies epoll_fd listen_fd path e env h k = taken (h.requests e.request)
  where
    which :
        (r : Request) (listening bad : Bool)
        → EventReadies (
            if listening
            then some ([], accept_connection epoll_fd path env h)
            else if bad
            then handing [] (delete_request e.request h)
            else handing (e.request ∷ []) (separate_timer e.request h))
    which r true bad = accept_connection-AreReady epoll_fd path env h k
    which r false true = handing-EventReadies [] _ (delete_request-Readies e.request h k)
    which r false false =
        handing-EventReadies (e.request ∷ []) _ (separate_timer-Readies e.request h k)

    taken :
        (o : Option Request)
        → EventReadies (elim o [
          | none ↦ none
          | some r ↦
              if get_fd r == listen_fd
              then some ([], accept_connection epoll_fd path env h)
              else if e.err || e.hup || not e.readable
              then handing [] (delete_request e.request h)
              else handing (e.request ∷ []) (separate_timer e.request h)
        ])
    taken none = tt
    taken (some r) = which r (get_fd r == listen_fd) (e.err || e.hup || not e.readable)

pub rearm_request-Readies :
    (now t a : ℕ) (h : Heap) → AreReady h → Readies (rearm_request now t a h)
unfolding rearm_request start_timer
rearm_request-Readies now t a h k = found-Readies (h.requests a) _ (λ r e.
    let i = k a r e in
    put-AreReady h a (record r { timer = some t }) k
      (record { waiting = i.waiting; scan_fresh = i.scan_fresh; read_times_le = i.read_times_le }))
