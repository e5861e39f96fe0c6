-- ===== src/Pool/Create.antt =====
-- What `threadpool_create` returns.
use high_performance_server.Prelude.{
  ℕ, zero, suc, ◌+◌, ◌≤◌, Bool, true, none, some, [], length, ◌≡◌, refl, ◌∙◌, inl, inr, arith,
  Bool-cases,
}
use high_performance_server.Prelude.Int.{ℤ, pos, negsuc}
use high_performance_server.TaskQueue.{contents}
use high_performance_server.TaskQueue.Laws.{IsValid, empty-IsValid}
use high_performance_server.Pool.{
  max_threads, max_queue, Pool, Startup, initial, start_threads, create_checked, threadpool_create,
}

-- Every thread asked for is started.
abbrev pub AllStarted : (ℕ → Bool) → ℕ → ℕ → Type 0
AllStarted started zero i = Unit
AllStarted started (suc n) i = (started i ≡ true) × AllStarted started n (i + 1)

-- a pool with `n` threads more
abbrev with_threads : ℕ → Pool → Pool
with_threads n p = record p {
  thread_count_in_pool = p.thread_count_in_pool + n;
  active_thread_num = p.active_thread_num + n;
}

start_threads_all :
    (started : ℕ → Bool) (n i : ℕ) (p : Pool)
    → AllStarted started n i
    → start_threads started n i p ≡ some (with_threads n p)
unfolding start_threads
start_threads_all started zero i p h = ground arith
start_threads_all started (suc n) i p h =
    rw (h.0, start_threads)
      (start_threads_all started n (i + 1) (with_threads 1 p) h.1 ∙ ground arith)

start_threads_shape :
    (started : ℕ → Bool) (n i : ℕ) (p : Pool) {p' : Pool}
    → start_threads started n i p ≡ some p'
    → p' ≡ with_threads n p
unfolding start_threads
start_threads_shape started zero i p h = ground arith
start_threads_shape started (suc n) i p h = elim (Bool-cases (started i)) [
  | inl e ↦
      start_threads_shape started n (i + 1) (with_threads 1 p) (rw (e, start_threads) at h)
      ∙ ground arith
  | inr e ↦ let h' : none ≡ some _ = rw (e, start_threads) at h in cc
]

start_threads_started :
    (started : ℕ → Bool) (n i : ℕ) (p : Pool) {p' : Pool}
    → start_threads started n i p ≡ some p'
    → AllStarted started n i
unfolding start_threads
start_threads_started started zero i p h = tt
start_threads_started started (suc n) i p {p'} h = elim (Bool-cases (started i)) [
  | inl e ↦ (
    e,
    start_threads_started started n (i + 1) (with_threads 1 p) {p' = p'}
        (rw (e, start_threads) at h),
  )
  | inr e ↦ let h' : none ≡ some p' = rw (e, start_threads) at h in cc
]

-- The pool that a successful start leaves: as many threads as asked for, none of them gone.
abbrev pub fresh_pool : Startup → ℕ → ℕ → Pool
fresh_pool env n q = with_threads n (initial (env.memory q) q)

-- With sizes in range, memory and threads to be had, `threadpool_create` returns a pool.
threadpool_create_succeeds :
    (env : Startup) (n q : ℕ)
    → 1 ≤ n
    → n ≤ max_threads
    → 1 ≤ q
    → q ≤ max_queue
    → env.allocated ≡ true
    → env.initialised ≡ true
    → AllStarted env.started n 0
    → threadpool_create env (pos n) (pos q) ≡ some (fresh_pool env n q)
unfolding threadpool_create create_checked
threadpool_create_succeeds env n q n1 n2 q1 q2 a i s =
    ground (arith, start_threads_all env.started n 0 (initial (env.memory q) q) s)

create_checked_shape :
    (env : Startup) (n q : ℕ) {p : Pool} → create_checked env n q ≡ some p → p ≡ fresh_pool env n q
unfolding create_checked
create_checked_shape env n q {p} h =
    ground (arith, start_threads_shape env.started n 0 (initial (env.memory q) q) {p' = p})

abbrev pub InRange : ℕ → ℕ → Type 0
InRange n q = (1 ≤ n) × (n ≤ max_threads) × (1 ≤ q) × (q ≤ max_queue)

fresh_pool-IsValid :
    (env : Startup) (n q : ℕ)
    → length (env.memory q) ≡ q
    → 1 ≤ q
    → IsValid (fresh_pool env n q).queue
fresh_pool-IsValid env n q m l = empty-IsValid (env.memory q) q l (omega arith)

create_checked_started :
    (env : Startup) (n q : ℕ) {p : Pool}
    → create_checked env n q ≡ some p
    → (env.allocated ≡ true) × (env.initialised ≡ true) × AllStarted env.started n 0
unfolding create_checked
create_checked_started env n q {p} h = (
  ground arith,
  ground arith,
  start_threads_started env.started n 0 (initial (env.memory q) q) {p' = p} (ground arith),
)

-- Whatever pool `threadpool_create` returns, the sizes asked for were in range, the memory was
-- allocated, the mutex and the condition variable were set up, every one of the threads asked for
-- was started and is counted, and the pool runs with an empty, well-formed queue. The allocator
-- hands over as many slots as asked for.
pub threadpool_create_lem :
    (env : Startup) (thread_num queue_size : ℤ) {p : Pool}
    → ((q : ℕ) → length (env.memory q) ≡ q)
    → threadpool_create env thread_num queue_size ≡ some p
    → (n q : ℕ) × (thread_num ≡ pos n)
      × (queue_size ≡ pos q)
      × InRange n q
      × (env.allocated ≡ true)
      × (env.initialised ≡ true)
      × AllStarted env.started n 0
      × (p ≡ fresh_pool env n q)
      × IsValid p.queue
      × (contents p.queue ≡ [])
unfolding threadpool_create
threadpool_create_lem env (negsuc n) queue_size m h = cc
threadpool_create_lem env (pos n) (negsuc q) m h = absurd (ground arith)
threadpool_create_lem env (pos n) (pos q) {p} m h =
    let (allocated, initialised, started) = create_checked_started env n q {p = p} (ground arith) in
    (n, q, refl, refl, range, allocated, initialised, started, shape, rw shape valid, rw shape)
  where
    range : InRange n q
    range = ground arith

    shape : p ≡ fresh_pool env n q
    shape = create_checked_shape env n q (ground arith)

    valid : IsValid (fresh_pool env n q).queue
    valid = fresh_pool-IsValid env n q (m q) range.2
