-- ===== src/Server/Start.antt =====
-- How `main` starts, and the wrappers of src/this_epoll.cpp. The system calls' answers are passed
-- in.
use high_performance_server.Prelude.{ℕ, Bool, true, false, Option, none, some, []}
use high_performance_server.Prelude.Int.{pos}
use high_performance_server.Request.{create_default, set_fd}
use high_performance_server.Net.{Answers, socket_bind_listen, set_socket_non_blocking}
use high_performance_server.ThreadPool.{ThreadPool, create}
use high_performance_server.Timers.{put}
use high_performance_server.Timers.Runs.{System}

-- The bits EPOLLIN, EPOLLET and EPOLLONESHOT of a registration.
pub record Interest : Type 0 where
  pub readable : Bool
  pub edge : Bool
  pub one_shot : Bool

-- `epoll_ctl` for a descriptor, with the address in `data.ptr` and the events
pub data Control : Type 0 where
  add modify delete : ℕ → ℕ → ℕ → Interest → Control

-- `epoll_create` returns a descriptor or -1
unfoldable pub epoll_init : Option ℕ → Option ℕ
epoll_init created = created

module _ {K : Type 0} (epoll_ctl : Control → K → Bool × K) where
  -- false is -1
  unfoldable pub epoll_add : ℕ → ℕ → ℕ → Interest → K → Bool × K
  epoll_add epoll_fd fd request events k = epoll_ctl (add epoll_fd fd request events) k

  unfoldable pub epoll_mod : ℕ → ℕ → ℕ → Interest → K → Bool × K
  epoll_mod epoll_fd fd request events k = epoll_ctl (modify epoll_fd fd request events) k

  unfoldable pub epoll_del : ℕ → ℕ → ℕ → Interest → K → Bool × K
  epoll_del epoll_fd fd request events k = epoll_ctl (delete epoll_fd fd request events) k

abbrev pub listen_event : Interest
listen_event = record { readable = true; edge = true; one_shot = false }

-- What the calls of `main` answer, the threads that can be started among them, and the address of
-- the listening socket's object.
pub record Startup : Type 0 where
  pub epoll : Option ℕ
  pub starts : ℕ → Bool
  pub socket : Answers
  pub flags : Option ℕ
  pub set_flags : ℕ → Bool
  pub request : ℕ

-- `main` exits, or it is in front of its loop with the epoll instance, the listening socket and the
-- flags set for it, the pool, the objects, and the state of the kernel.
pub data Started (K : Type 0) : Type 0 where
  exits : Started K
  runs : ℕ → ℕ → ℕ → ThreadPool → System → K → Started K

-- the object of the listening socket, alone
unfoldable pub listening : ℕ → ℕ → System
unfolding set_fd create_default put
listening a fd = record {
  heap = record {
    requests = put (λ b. none) a (some (set_fd fd create_default));
    timers = λ t. none;
    queue = [];
  };
  busy = λ b. false;
}

module _ {K : Type 0} (epoll_ctl : Control → K → Bool × K) where
  -- The result of `epoll_add` is not looked at.
  unfoldable pub listen_on : Startup → ℕ → ThreadPool → Option ℕ → Option ℕ → K → Started K
  unfolding epoll_add listening
  listen_on env epoll_fd pool none flags k = exits
  listen_on env epoll_fd pool (some fd) none k = exits
  listen_on env epoll_fd pool (some fd) (some flags) k =
      let (_, k') = epoll_add epoll_ctl epoll_fd fd env.request listen_event k in
      runs epoll_fd fd flags pool (listening env.request fd) k'

  unfoldable pub main_start : Startup → K → Started K
  unfolding listen_on epoll_init socket_bind_listen set_socket_non_blocking create
  main_start env k = elim (epoll_init env.epoll) [
    | none ↦ exits
    | some epoll_fd ↦
        listen_on env epoll_fd (create env.starts 4 65535).1
          (socket_bind_listen (pos 8888) env.socket).0
          (set_socket_non_blocking env.flags env.set_flags) k
  ]
