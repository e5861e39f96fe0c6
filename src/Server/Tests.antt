-- ===== src/Server/Tests.antt =====
-- A client connects, sends the front of a request, and falls silent.
use high_performance_server.Prelude.{
  ℕ, ◌+◌, Bool, true, false, none, some, List, [], ◌∷◌, ◌++◌, Bytes, codes, length, find_byte, ◌≡◌,
  refl, arith,
}
use high_performance_server.ThreadPool.{ThreadPool, finish_add, must_wait, thread_round}
use high_performance_server.ThreadPool
use high_performance_server.Server.Start.{Control, Startup}
use high_performance_server.Server.Overtaken.{rearm_request_overtaken}
use high_performance_server.Request.{Request, create, create_default, add_timer, get_fd}
use high_performance_server.Request.Line.{parse_request_line, take_line}
use high_performance_server.Request.Response.{Files}
use high_performance_server.Request.Handle.{again, handle_request}
use high_performance_server.Util.{WriteResult, received}
use high_performance_server.Timers.{
  Heap, Arrival, Event, put, start_timer, accept_connection, rearm_request, handle_event,
  handle_expired_event, delete_request, separate_timer, clear_timer, clear_req,
}
use high_performance_server.Timers.Owner.{put_request-IsOwned}
use high_performance_server.Timers.Runs.{System, act}
use high_performance_server.Server.{
  dangles, registered, Happening, polled, swept, called, registers, my_handler, settled, keep,
  happen, happenings,
}
use high_performance_server.Server.Ready.{put-AreReady}
use high_performance_server.Request.Handle.Progress.{IsReady}
use high_performance_server.Server.Serving.{IsServing, AreExpected, IsSafe, happenings-IsSafe}

abbrev wire : Bytes → Bytes → WriteResult × Bytes
wire bytes sent = (WriteResult.took (length bytes), sent ++ bytes)

abbrev files : Files
files = record { stat = λ _. none; read_type = λ _. none; mapped = λ name size. none }

abbrev no_heap : Heap
no_heap = record { requests = λ _. none; timers = λ _. none; queue = [] }

-- the listening socket's object at 0, with the descriptor 5
abbrev listener : Request
unfolding create_default create
listener = record create_default { fd = 5 }

abbrev started : System
started = record {
  heap = record no_heap { requests = put no_heap.requests 0 (some listener) };
  busy = λ b. false;
}

listener-IsReady : IsReady listener
unfolding create_default create
listener-IsReady = record { waiting = tt; scan_fresh = λ e. refl; read_times_le = omega arith }

started-IsServing : IsServing started
unfolding create_default create put
started-IsServing = record {
  opened = record {
    sound = record {
      owned =
          put_request-IsOwned no_heap 0 (some listener)
            (record { forth = λ a t e. cc; back = λ a t e. cc }) refl refl;
      queued = tt;
    };
    idle = λ b k. absurd (cc);
  };
  ready = put-AreReady no_heap 0 listener (λ b r e. absurd (cc)) listener-IsReady;
}

abbrev arrival : ℕ → ℕ → Arrival
arrival a t = record { accept_fd = some 9; non_blocking = true; request = a; timer = t; now = 1000 }

abbrev readable : ℕ → Event
readable a = record { request = a; err = false; hup = false; readable = true }

abbrev story : List Happening
story =
    polled (readable 0) (arrival 1 10)
    ∷ polled (readable 1) (arrival 2 20)
    ∷ called 1 (received (codes "GET / HT") true) again 1100 11
    ∷ registers 1 true
    ∷ swept (λ _. 2000)
    ∷ []

story-AreExpected : AreExpected wire 100 files 3 5 (codes "/") story started []
unfolding happen act my_handler settled keep registered handle_request parse_request_line take_line
    create_default create find_byte handle_event separate_timer clear_timer clear_req delete_request
    rearm_request accept_connection start_timer put add_timer get_fd handle_expired_event
story-AreExpected = (
  ((listener, refl), refl, refl, refl),
  (((_, refl), refl, refl, refl), ((refl, refl), (((_, refl), refl), (tt, tt)))),
)

-- a kernel that answers every `epoll_ctl` with success and counts the calls
abbrev count_calls : Control → ℕ → Bool × ℕ
count_calls c k = (true, 1 + k)

abbrev all_works : Startup
all_works = record {
  epoll = some 3;
  starts = λ _. true;
  socket = record { socket = some 5; reuse = true; bind = true; listen = true };
  flags = some 2;
  set_flags = λ _. true;
  request = 0;
}

happenings-IsSafe_example : IsSafe (happenings wire 100 files 3 5 (codes "/") story started [])
happenings-IsSafe_example =
    happenings-IsSafe wire 100 files 3 5 (codes "/") story started [] started-IsServing
      story-AreExpected

-- one request, which a worker arms again
abbrev alone : Heap
alone = record no_heap { requests = put no_heap.requests 1 (some listener) }

alone_there : alone.requests 1 ≡ some listener
unfolding put
alone_there = refl

rearm_request_overtaken_example :
    (h' h'' : Heap) × (rearm_request 1000 10 1 alone ≡ some h')
    × (handle_expired_event (λ _. 1600) h' ≡ some h'')
    × (h''.requests 1 ≡ none)
    × (registered {S = ℕ} false 1 (record { heap = h''; busy = λ b. false }) 7 ≡ dangles)
rearm_request_overtaken_example =
    rearm_request_overtaken 1000 10 1 (λ _. 1600) listener alone (λ b. false) 7 alone_there refl
      (omega arith)
