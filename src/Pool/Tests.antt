-- ===== src/Pool/Tests.antt =====
-- The C-style pool on concrete calls, and the theorems there.
use high_performance_server.Prelude.{
  ℕ, ◌-◌, List, [], ◌∷◌, none, some, true, false, length, replicate, length-replicate, ◌≡◌, refl,
  arith,
}
use high_performance_server.Prelude.Int.{pos, negsuc}
use high_performance_server.TaskQueue.{Task, no_task, contents, add_task, grab_task}
use high_performance_server.TaskQueue.Laws.{IsValid}
use high_performance_server.Pool.{
  thread_failure, running, graceful_shutdown, Pool, Startup, Locking, Teardown, leaves,
  threadpool_create, create_checked, start_threads, threadpool_add, add_locked, threadpool_destroy,
  thread_round, decide_round,
}
use high_performance_server.Pool.Fifo.{Action, add, round, run, act, IsFifo, run-IsFifo}
use high_performance_server.Pool.Create.{AllStarted, InRange, fresh_pool, threadpool_create_lem}
use high_performance_server.Pool.Shut.{graceful_drain}

abbrev task : ℕ → Task
task n = record { function = 1; argument = n }

abbrev all_well : Locking
all_well = record { lock = true; signal = true; unlock = true }

-- two of three slots taken, round the end of the array
abbrev busy : Pool
busy = record {
  queue = record {
    slots = task 8 ∷ no_task ∷ task 7 ∷ [];
    size = 3;
    front = 2;
    rear = 1;
    count = 2;
  };
  thread_count_in_pool = 1;
  shutdown = running;
  active_thread_num = 1;
  locked = false;
}

abbrev calls : List Action
calls = add all_well 1 9 ∷ add all_well 1 10 ∷ round ∷ round ∷ round ∷ round ∷ []

run-calls : (run calls busy).1 ≡ task 7 ∷ task 8 ∷ task 9 ∷ []
unfolding run act threadpool_add add_locked thread_round decide_round add_task grab_task
run-calls = refl

run-IsFifo_example : IsFifo busy (run calls busy)
run-IsFifo_example = run-IsFifo calls busy (omega arith)

abbrev startup : Startup
startup = record {
  allocated = true;
  initialised = true;
  started = λ _. true;
  memory = λ n. replicate n no_task;
}

memory_size : (q : ℕ) → length (startup.memory q) ≡ q
memory_size q = length-replicate q no_task

created : threadpool_create startup (pos 4) (pos 16) ≡ some (fresh_pool startup 4 16)
unfolding threadpool_create create_checked start_threads
created = refl

refused :
    (threadpool_create startup (pos 1025) (pos 16) ≡ none)
    × (threadpool_create startup (negsuc 0) (pos 16) ≡ none)
unfolding threadpool_create
refused = (refl, refl)

threadpool_create_lem_example :
    (n q : ℕ) × (pos 4 ≡ pos n)
    × (pos 16 ≡ pos q)
    × InRange n q
    × (startup.allocated ≡ true)
    × (startup.initialised ≡ true)
    × AllStarted startup.started n 0
    × (fresh_pool startup 4 16 ≡ fresh_pool startup n q)
    × IsValid (fresh_pool startup 4 16).queue
    × (contents (fresh_pool startup 4 16).queue ≡ [])
threadpool_create_lem_example = threadpool_create_lem startup (pos 4) (pos 16) memory_size created

abbrev closing : Pool
closing = record busy { shutdown = graceful_shutdown }

graceful_drain_example :
    let (more, grabbed, p') = run (replicate 2 round) closing in
    (grabbed ≡ contents closing.queue)
    × (contents p'.queue ≡ [])
    × (thread_round p' ≡ leaves (record p' { active_thread_num = p'.active_thread_num - 1 }))
graceful_drain_example = graceful_drain closing refl (omega arith)

abbrev broken_join : Teardown
broken_join = record {
  lock = true;
  broadcast = true;
  unlock = true;
  joins = λ _. false;
  meanwhile = λ p. p;
}

first_destroy : threadpool_destroy broken_join (some busy) 1 ≡ (thread_failure, some closing)
unfolding threadpool_destroy
first_destroy = refl
