-- ===== src/TaskQueue.antt =====
-- The circular task array that both thread pools of src/threadpool.cpp keep: an allocated array, a
-- size, the index of the oldest task and the number of tasks. `add_task` and `grab_task` are the
-- statements that the pools' functions share, `contents` is the queue that the array stands for.
pub mod Laws
use high_performance_server.Prelude.{
  ℕ, zero, suc, ◌+◌, ◌-◌, ◌%◌, List, [], ◌∷◌, Option, length, get_elem?, get_or, set,
}

-- `threadpool_task_t`: a function pointer and its argument, as addresses.
pub record Task : Type 0 where
  pub function : ℕ
  pub argument : ℕ

-- The value that `new threadpool_task_t[n]()` puts into the slots.
abbrev pub no_task : Task
no_task = record { function = 0; argument = 0 }

-- `queue`, `queue_size`, `head` or `queue_front`, `tail` or `queue_rear`, and
-- `pending_task_count` or `waiting_task_num`.
pub record Ring : Type 0 where
  pub slots : List Task
  pub size : ℕ
  pub front : ℕ
  pub rear : ℕ
  pub count : ℕ

unfoldable pub add_task : Task → Ring → Ring
add_task t q = record q {
  slots = set q.slots q.rear t;
  rear = (q.rear + 1) % q.size;
  count = q.count + 1;
}

-- The count falls only where it is not zero; what is read out of bounds is no task.
unfoldable pub grab_task : Ring → Option Task × Ring
grab_task q =
    (get_elem? q.slots q.front, record q { front = (q.front + 1) % q.size; count = q.count - 1 })

-- the values of `f` at 0 up to n - 1
abbrev pub collect {ℓ} : {A : Type ℓ} → ℕ → (ℕ → A) → List A
collect zero f = []
collect (suc n) f = f 0 ∷ collect n (λ i. f (i + 1))

abbrev pub slot : Ring → ℕ → Task
slot q i = get_or q.slots ((q.front + i) % q.size) no_task

-- The tasks in the order in which they were added.
abbrev pub contents : Ring → List Task
contents q = collect q.count (slot q)
