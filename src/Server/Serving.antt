-- ===== src/Server/Serving.antt =====
-- What holds in every state that the server reaches.
use mathlib.Core.Path.{subst}
use mathlib.Core.Option.{some-injective}
use high_performance_server.Timers.Sweep.{AreQueued}
use high_performance_server.Prelude.{
  ℕ, ◌==◌, Bool, true, false, Option, none, some, List, [], ◌∷◌, ◌≡◌, refl, sym, ap, ◌∙◌, arith,
  Bool-cases, inl, inr, Bytes,
}
use high_performance_server.Request.{Request}
use high_performance_server.Request.Response.{Files}
use high_performance_server.Request.Handle.{
  Errno, Verdict, deleted, rearmed, crashed, handle_request,
}
use high_performance_server.Request.Handle.Progress.{IsReady, handle_request_rearmed}
use high_performance_server.Util.{WriteResult, Received}
use high_performance_server.Timers.{
  Heap, put, delete_request, rearm_request, handle_event, handle_expired_event,
}
use high_performance_server.Timers.Owner.{
  naming, is_live, put_request-IsOwned, delete_request-Detaches,
}
use high_performance_server.Timers.Loop.{detached-IsSound}
use high_performance_server.Timers.Runs.{
  System, event, with_heap, with_handed, act, IsOpen, IsAllowed, rearms-Acts, deletes-Acts,
  event-Acts, sweeps-Acts,
}
use high_performance_server.Server.{
  Happening, polled, swept, called, registers, Outcome, goes, crashes, unfinished, dangles, reached,
  and_then, store, registered, keep, settled, my_handler, happen, happenings,
}
use high_performance_server.Server.Ready.{
  AreReady, Readies, EventReadies, put-AreReady, without_timer-IsReady, delete_request-Readies,
  handle_expired_event-Readies, handle_event-EventReadies, rearm_request-Readies,
}

-- The timers and the queue are in order, a request at a worker lives and has no timer, and every
-- request waits in a state that takes bytes.
pub record IsServing (s : System) : Type 0 where
  pub opened : IsOpen s
  pub ready : AreReady s.heap

-- An event's request lives and is not with a worker, since its socket is registered with
-- EPOLLONESHOT; a worker has its request; new objects come at free addresses. The request of a worker
-- that comes to `epoll_mod` has not been deleted since its new timer.
abbrev pub IsExpected : Happening → System → Type 0
IsExpected (polled e env) s = IsAllowed (event e env) s
IsExpected (swept clock) s = Unit
IsExpected (called a read errno now t) s = (s.busy a ≡ true) × (s.heap.timers t ≡ none)
IsExpected (registers a modified) s =
    ((r : Request) × (s.heap.requests a ≡ some r)) × (s.busy a ≡ false)

-- The outcome is a state in order, or a handler's crash or lack of fuel; no deleted object is used.
abbrev pub IsSafe : {S : Type 0} → Outcome S → Type 0
IsSafe (goes s w) = IsServing s
IsSafe crashes = Unit
IsSafe unfinished = Unit
IsSafe dangles = ⊥

-- a predicate of the state that is reached
abbrev pub Behind : {S : Type 0} → (System → S → Type 0) → Outcome S → Type 0
Behind P (goes s w) = P s w
Behind P _ = Unit

-- an operation on the heap alone
abbrev Opens : (ℕ → Bool) → Option Heap → Type 0
Opens busy o = (s' : System) × (with_heap busy o ≡ some s') × IsOpen s'

reached-IsSafe :
    {S : Type 0} (w : S) (busy : ℕ → Bool) (o : Option Heap)
    → Opens busy o
    → Readies o
    → IsSafe (reached w (with_heap busy o))
reached-IsSafe w busy none (s', e, k) r = let ne : none ≡ some s' = e in cc
reached-IsSafe w busy (some h) (s', e, k) r = record {
  opened = subst IsOpen (sym (some-injective _ _ e)) k;
  ready = r;
}

handed-IsSafe :
    {S : Type 0} (w : S) (busy : ℕ → Bool) (o : Option (List ℕ × Heap))
    → ((s' : System) × (with_handed busy o ≡ some s') × IsOpen s')
    → EventReadies o
    → IsSafe (reached w (with_handed busy o))
handed-IsSafe w busy none (s', e, k) r = let ne : none ≡ some s' = e in cc
handed-IsSafe w busy (some (handed, h)) (s', e, k) r = record {
  opened = subst IsOpen (sym (some-injective _ _ e)) k;
  ready = r;
}

same_queue : (h h' : Heap) (ts : List ℕ) → h'.timers ≡ h.timers → AreQueued h ts → AreQueued h' ts
same_queue h h' [] e q = tt
same_queue h h' (t ∷ ts) e q = (ap (λ m. is_live (m t)) e ∙ q.0, q.1, same_queue h h' ts e q.2)

-- a request with no worker and no timer is deleted
gone-IsOpen :
    (a : ℕ) (r : Request) (s : System)
    → IsOpen s
    → s.heap.requests a ≡ some r
    → s.busy a ≡ false
    → Opens s.busy (delete_request a s.heap)
gone-IsOpen a r s w here idle =
    let (h', done, d) = delete_request-Detaches s.heap a r w.sound.owned here in
    (
      record { heap = h'; busy = s.busy },
      ap (with_heap s.busy) done,
      record {
        sound = detached-IsSound s.heap h' a none w.sound d;
        idle = λ b k. elim (Bool-cases (b == a)) [
          | inl same ↦ ground (arith, k, idle)
          | inr other ↦
              let (q, there, no_timer) = w.idle b k in
              (q, ap (λ m. m b) d.requests ∙ unfold put in ground arith, no_timer)
        ];
      },
    )

-- the members that a worker's call leaves
store-IsOpen :
    (a : ℕ) (r : Request) (s : System) → IsOpen s → s.busy a ≡ true → IsOpen (store a r s)
unfolding put
store-IsOpen a r s w k =
    let (q, here, idle) = w.idle a k in
    record {
      sound = record {
        owned =
            put_request-IsOwned s.heap a (some (record r { timer = none })) w.sound.owned
              (ap naming here ∙ idle) refl;
        queued = same_queue s.heap (store a r s).heap s.heap.queue refl w.sound.queued;
      };
      idle = λ b j. elim (Bool-cases (b == a)) [
        | inl same ↦ (record r { timer = none }, ground arith, refl)
        | inr other ↦ let (q', there, no_timer) = w.idle b j in (q', ground arith, no_timer)
      ];
    }

put_self : {A : Type 0} (m : ℕ → A) (a : ℕ) (v : A) → put m a v a ≡ v
unfolding put
put_self m a v = ground arith

registered-IsSafe :
    {S : Type 0} (a : ℕ) (modified : Bool) (r : Request) (s : System) (w : S)
    → IsServing s
    → s.heap.requests a ≡ some r
    → s.busy a ≡ false
    → IsSafe (registered modified a s w)
unfolding registered
registered-IsSafe a true r s w k here idle = rw (here, registered) k
registered-IsSafe a false r s w k here idle =
    rw (here, registered)
      (reached-IsSafe w s.busy (delete_request a s.heap) (gone-IsOpen a r s k.opened here idle)
        (delete_request-Readies a s.heap k.ready))

-- the new timer of a request that is kept
keep-IsSafe :
    {S : Type 0} (a now t : ℕ) (r : Request) (s : System) (w : S)
    → IsServing s
    → s.busy a ≡ true
    → s.heap.timers t ≡ none
    → IsReady r
    → IsSafe (keep a now t r s w)
unfolding act keep
keep-IsSafe a now t r s w k busy free i =
    reached-IsSafe w (put s.busy a false) (rearm_request now t a (store a r s).heap)
      (rearms-Acts 0 0 [] now t a (store a r s) (store-IsOpen a r s k.opened busy) (busy, free))
      (rearm_request-Readies now t a (store a r s).heap
        (put-AreReady s.heap a (record r { timer = none }) k.ready (without_timer-IsReady r i)))

module _ {S : Type 0} (write : Bytes → S → WriteResult × S) (fuel : ℕ) (files : Files)
    (epoll_fd listen_fd : ℕ) (path : Bytes) where
  -- what the handler's verdict leads to
  settled-IsSafe :
      (a now t : ℕ) (s : System) (o : Option (Verdict × S))
      → IsServing s
      → s.busy a ≡ true
      → s.heap.timers t ≡ none
      → ((r : Request) (w : S) → o ≡ some (rearmed r, w) → IsReady r)
      → IsSafe (settled a now t s o)
  unfolding settled act
  settled-IsSafe a now t s none k busy free i = tt
  settled-IsSafe a now t s (some (deleted, w)) k busy free i =
      reached-IsSafe w _ (delete_request a s.heap) (deletes-Acts 0 0 [] a s k.opened busy)
        (delete_request-Readies a s.heap k.ready)
  settled-IsSafe a now t s (some (crashed, w)) k busy free i = tt
  settled-IsSafe a now t s (some (rearmed r, w)) k busy free i =
      keep-IsSafe a now t r s w k busy free (i r w refl)

  called-IsSafe :
      (a : ℕ) (read : Received) (errno : Errno) (now t : ℕ) (s : System) (w : S)
      → IsServing s
      → s.busy a ≡ true
      → s.heap.timers t ≡ none
      → IsSafe (my_handler write fuel files epoll_fd listen_fd path a read errno now t s w)
  unfolding my_handler
  called-IsSafe a read errno now t s w k busy free =
      let (r, here, idle) = k.opened.idle a busy in
      rw (here, my_handler)
        (settled-IsSafe a now t s (handle_request write fuel files read errno t true r w) k busy
          free
          (λ r' w' e.
            (handle_request_rearmed write fuel files read errno t true r r' w w' (k.ready a r here)
              e).0))

  pub happen-IsSafe :
      (x : Happening) (s : System) (w : S)
      → IsServing s
      → IsExpected x s
      → IsSafe (happen write fuel files epoll_fd listen_fd path x s w)
  unfolding happen act
  happen-IsSafe (polled e env) s w k h =
      handed-IsSafe w s.busy (handle_event epoll_fd listen_fd path e env s.heap)
        (event-Acts epoll_fd listen_fd path e env s k.opened h)
        (handle_event-EventReadies epoll_fd listen_fd path e env s.heap k.ready)
  happen-IsSafe (swept clock) s w k h =
      reached-IsSafe w s.busy (handle_expired_event clock s.heap)
        (sweeps-Acts epoll_fd listen_fd path clock s k.opened)
        (handle_expired_event-Readies clock s.heap k.ready)
  happen-IsSafe (called a read errno now t) s w k h = called-IsSafe a read errno now t s w k h.0 h.1
  happen-IsSafe (registers a modified) s w k h = registered-IsSafe a modified h.0.0 s w k h.0.1 h.1

  -- Each happening is expected when its turn comes.
  abbrev pub AreExpected : List Happening → System → S → Type 0
  AreExpected [] s w = Unit
  AreExpected (x ∷ xs) s w =
      IsExpected x s
      × Behind (AreExpected xs) (happen write fuel files epoll_fd listen_fd path x s w)

  next-IsSafe :
      (xs : List Happening) (o : Outcome S)
      → IsSafe o
      → Behind (AreExpected xs) o
      → ((s : System) (w : S)
          → IsServing s
          → AreExpected xs s w
          → IsSafe (happenings write fuel files epoll_fd listen_fd path xs s w))
      → IsSafe (and_then o (happenings write fuel files epoll_fd listen_fd path xs))
  next-IsSafe xs (goes s w) k h rest = rest s w k h
  next-IsSafe xs crashes k h rest = tt
  next-IsSafe xs unfinished k h rest = tt
  next-IsSafe xs dangles k h rest = elim k [ ]

  -- Events, sweeps, and the calls of the handler by the workers, each up to its new timer and then
  -- at its `epoll_mod`, in any order, from a state in order: if a request is never swept between
  -- these two of its call, no deleted request or timer is ever used or deleted again. An event is for
  -- a request that lives and is not with a worker, and new objects come at free addresses. Unless a
  -- handler crashes or runs out of fuel, the state behind them is in order: requests and timers name
  -- each other, the queued timers live, a request at a worker lives and has no timer, and every
  -- request waits in a state that takes bytes.
  pub happenings-IsSafe :
      (xs : List Happening) (s : System) (w : S)
      → IsServing s
      → AreExpected xs s w
      → IsSafe (happenings write fuel files epoll_fd listen_fd path xs s w)
  unfolding happenings
  happenings-IsSafe [] s w k h = k
  happenings-IsSafe (x ∷ xs) s w k h =
      next-IsSafe xs (happen write fuel files epoll_fd listen_fd path x s w)
        (happen-IsSafe x s w k h.0) h.1 (happenings-IsSafe xs)
