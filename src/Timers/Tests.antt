-- ===== src/Timers/Tests.antt =====
-- The event loop on a heap of two requests: a worker handles the one at 2, and the one at 1 waits
-- with the timer at 10.
use high_performance_server.Prelude.{
  arith, [], ◌∷◌, ◌==◌, ℕ, Bool, true, false, none, some, List, [], codes, ◌≡◌, refl,
}
use high_performance_server.Timers.{separate_timer, clear_timer, clear_req}
use high_performance_server.Timers.Runs.{System, IsOpen, event, sweeps, run, act}
use high_performance_server.Request.{Request, create, add_timer, get_fd}
use high_performance_server.Timers.{
  Heap, Arrival, Event, put, start_timer, accept_connection, handle_event, handle_expired_event,
  main_round,
}
use high_performance_server.Timers.Round.{main_round-IsOpen}
use high_performance_server.Timers.Owner.{IsOwned, put_request-IsOwned}
use high_performance_server.Timers.Sweep.{AreQueued, IsFresh, handle_expired_event_safe}
use high_performance_server.Timers.Loop.{IsSound, accept_connection-IsSound}

abbrev busy : Request
unfolding create
busy = create 3 8 (codes "/")

abbrev empty_heap : Heap
empty_heap = record { requests = λ _. none; timers = λ _. none; queue = [] }

abbrev start_heap : Heap
start_heap = record empty_heap { requests = put empty_heap.requests 2 (some busy) }

abbrev arrival : Arrival
arrival = record { accept_fd = some 9; non_blocking = true; request = 1; timer = 10; now = 1000 }

abbrev two_requests : Heap
two_requests = accept_connection 3 (codes "/") arrival start_heap

empty_heap-IsOwned : IsOwned empty_heap
empty_heap-IsOwned = record { forth = λ a t e. cc; back = λ a t e. cc }

start_heap-IsSound : IsSound start_heap
unfolding create
start_heap-IsSound = record {
  owned = put_request-IsOwned empty_heap 2 (some busy) empty_heap-IsOwned refl refl;
  queued = tt;
}

two_requests-IsSound : IsSound two_requests
unfolding put
two_requests-IsSound =
    accept_connection-IsSound 3 (codes "/") arrival start_heap start_heap-IsSound refl refl

abbrev alive_after : (ℕ → ℕ) → ℕ → Bool
alive_after clock a = elim (handle_expired_event clock two_requests) [
  | none ↦ false
  | some h ↦ elim (h.requests a) [ none ↦ false | some r ↦ true ]
]

kept_before : alive_after (λ _. 1499) 1 ≡ true
unfolding handle_expired_event accept_connection
kept_before = refl

deleted_behind : alive_after (λ _. 1500) 1 ≡ false
unfolding handle_expired_event accept_connection
deleted_behind = refl

handle_expired_event_safe_example :
    (h' : Heap) × (handle_expired_event (λ _. 1500) two_requests ≡ some h')
    × IsOwned h'
    × AreQueued h' h'.queue
    × IsFresh (λ _. 1500) h'
    × (h'.requests 2 ≡ some busy)
unfolding accept_connection start_timer put create
handle_expired_event_safe_example =
    handle_expired_event_safe (λ _. 1500) two_requests 2 busy two_requests-IsSound.owned
      two_requests-IsSound.queued refl refl

-- bytes to read for the request that waits
abbrev readable_event : Event
readable_event = record { request = 1; err = false; hup = false; readable = true }

abbrev next_arrival : Arrival
next_arrival = record arrival { request = 4; timer = 12 }

abbrev serving : System
serving = record { heap = two_requests; busy = λ b. b == 2 }

serving-IsOpen : IsOpen serving
unfolding accept_connection start_timer put create
serving-IsOpen = record { sound = two_requests-IsSound; idle = λ b k. (busy, ground arith, refl) }

main_round-IsOpen_example :
    (s' : System) × (handed : List ℕ) × (main_round 3 5
        (codes "/")
        (some ((readable_event, next_arrival) ∷ []))
        (λ _. 2000)
        serving.heap
      ≡ some (handed, s'.heap))
    × (run 3 5 (codes "/") (event readable_event next_arrival ∷ sweeps (λ _. 2000) ∷ []) serving
        ≡ some s')
    × IsOpen s'
unfolding act handle_event separate_timer clear_timer clear_req accept_connection start_timer put
    create add_timer get_fd handle_expired_event
main_round-IsOpen_example =
    main_round-IsOpen 3 5 (codes "/") (λ _. 2000) (some ((readable_event, next_arrival) ∷ []))
      serving serving-IsOpen
      (((add_timer 10 (create 3 9 (codes "/")), refl), refl, refl, refl), (tt, tt))
