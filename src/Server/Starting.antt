-- ===== src/Server/Starting.antt =====
-- What `main` has set up in front of its loop.
use high_performance_server.Prelude.{none, []}
use high_performance_server.Request.{Request}
use high_performance_server.ThreadPool.{ThreadPool}
use high_performance_server.ThreadPool
use high_performance_server.Timers.{Heap}

abbrev no_heap : Heap
no_heap = record { requests = λ b. none; timers = λ t. none; queue = [] }
