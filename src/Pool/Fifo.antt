-- ===== src/Pool/Fifo.antt =====
-- Clients and workers of the C-style pool, in any order of their locked sections: a first-in,
-- first-out queue.
use mathlib.Core.List.{append-nil}
use high_performance_server.Prelude.{
  ℕ, ◌-◌, ◌<◌, ◌==◌, if◌then◌else◌, Bool, true, false, Option, none, some, List, [], ◌∷◌, ◌++◌, ◌≡◌,
  refl, sym, ◌∙◌, ◌⊎◌, inl, inr, arith, Bool-cases,
}
use high_performance_server.TaskQueue.{Task, add_task, grab_task, contents}
use high_performance_server.TaskQueue.Laws.{
  IsValid, add_task-IsValid, grab_task-IsValid, contents-add_task, contents-grab_task, fifo_trans,
}
use high_performance_server.Pool.{
  Shutdown, running, immediate_shutdown, graceful_shutdown, Pool, Locking, add_locked, is_running,
  threadpool_add, Round, waits, leaves, grabs, decide_round, thread_round,
}

-- A client's call with a function and an argument, or a worker's round.
pub data Action : Type 0 where
  add : Locking → ℕ → ℕ → Action
  round : Action

-- What an action leaves: the tasks it added, the tasks it grabbed, and the pool.
abbrev pub Effect : Type 0
Effect = List Task × List Task × Pool

-- The task counts as added exactly where the number of pending tasks has changed.
abbrev pub added : Task → Pool → Pool → List Task
added t p p' = if p'.queue.count == p.queue.count then [] else t ∷ []

abbrev pub after_add : Task → Pool → Option Pool → Effect
after_add t p none = ([], [], p)
after_add t p (some p') = (added t p p', [], p')

abbrev pub after_round : Pool → Round → Effect
after_round p waits = ([], [], p)
after_round p (leaves p') = ([], [], p')
after_round p (grabs none p') = ([], [], p')
after_round p (grabs (some t) p') = ([], t ∷ [], p')

unfoldable pub act : Action → Pool → Effect
act (add env f argument) p =
    after_add (record { function = f; argument = argument }) p
      (threadpool_add env (some p) (some f) argument).1
act round p = after_round p (thread_round p)

unfoldable pub run : List Action → Pool → Effect
run [] p = ([], [], p)
run (a ∷ actions) p =
    let (more, gone, p') = act a p in
    let (more', gone', p'') = run actions p' in (more ++ more', gone ++ gone', p'')

-- The tasks that were pending or added are those grabbed, in that order, and those pending.
abbrev pub IsFifo : Pool → Effect → Type 0
IsFifo p (more, gone, p') =
    IsValid p'.queue × (contents p.queue ++ more ≡ gone ++ contents p'.queue)

same_queue-IsFifo :
    (t : Task) (p p' : Pool)
    → IsValid p.queue
    → p'.queue ≡ p.queue
    → IsFifo p (added t p p', [], p')
same_queue-IsFifo t p p' v e = rw (none_added, e) (v, append-nil (contents p.queue))
  where
    none_added : added t p p' ≡ []
    none_added = rw e (ground arith)

new_task-IsFifo :
    (t : Task) (p p' : Pool)
    → IsValid p.queue
    → p.queue.count < p.queue.size
    → p'.queue ≡ add_task t p.queue
    → IsFifo p (added t p p', [], p')
new_task-IsFifo t p p' v l e =
    rw (one_added, e) (add_task-IsValid t v l, sym (contents-add_task t v l))
  where
    one_added : added t p p' ≡ t ∷ []
    one_added = rw e (unfold add_task in ground arith)

-- the pool behind a call of `threadpool_add`, which never takes it away
abbrev pool_after : Pool → Option Pool → Pool
pool_after p none = p
pool_after p (some p') = p'

abbrev pub added_pool : Locking → ℕ → ℕ → Pool → Pool
added_pool env f argument p = pool_after p (threadpool_add env (some p) (some f) argument).1

pub threadpool_add-IsSome :
    (env : Locking) (f argument : ℕ) (p : Pool)
    → (threadpool_add env (some p) (some f) argument).1 ≡ some (added_pool env f argument p)
unfolding threadpool_add
threadpool_add-IsSome env f argument p = ground arith

-- A call leaves the queue as it is, or puts the task into a queue with room.
threadpool_add_cases :
    (env : Locking) (f argument : ℕ) (p : Pool)
    → IsValid p.queue
    → let t : Task = record { function = f; argument = argument } in
      let p' = added_pool env f argument p in
      (p'.queue ≡ p.queue) ⊎ ((p.queue.count < p.queue.size) × (p'.queue ≡ add_task t p.queue))
unfolding threadpool_add add_locked
threadpool_add_cases env f argument p v = elim (Bool-cases env.lock) [
  | inr failed ↦ inl (ground arith)
  | inl held ↦ elim (Bool-cases (p.queue.count == p.queue.size)) [
    | inl full ↦ inl (ground arith)
    | inr room ↦ elim (Bool-cases (is_running p.shutdown)) [
      | inl open_ ↦ inr (ground arith, ground arith)
      | inr shut ↦ inl (ground arith)
    ]
  ]
]

add-IsFifo :
    (env : Locking) (f argument : ℕ) (p : Pool)
    → IsValid p.queue
    → IsFifo p (act (add env f argument) p)
unfolding act
add-IsFifo env f argument p v =
    rw (threadpool_add-IsSome env f argument p) (cases (threadpool_add_cases env f argument p v))
  where
    t : Task
    t = record { function = f; argument = argument }

    p' : Pool
    p' = added_pool env f argument p

    cases :
        (p'.queue ≡ p.queue) ⊎ ((p.queue.count < p.queue.size) × (p'.queue ≡ add_task t p.queue))
        → IsFifo p (added t p p', [], p')
    cases (inl same) = same_queue-IsFifo t p p' v same
    cases (inr (l, e)) = new_task-IsFifo t p p' v l e

kept-IsFifo : (p p' : Pool) → IsValid p.queue → p'.queue ≡ p.queue → IsFifo p ([], [], p')
kept-IsFifo p p' v e = rw e (v, append-nil (contents p.queue))

grab-IsFifo :
    (p : Pool)
    → IsValid p.queue
    → (p.queue.count == 0) ≡ false
    → IsFifo p
        (after_round p (grabs (grab_task p.queue).0 (record p { queue = (grab_task p.queue).1 })))
grab-IsFifo p v e =
    let (t, taken, rest) = contents-grab_task v (ground arith) in
    rw taken (grab_task-IsValid v (ground arith), append-nil (contents p.queue) ∙ rest)

abbrev counted_out : Pool → Pool
counted_out p = record p { active_thread_num = p.active_thread_num - 1 }

round-IsFifo :
    (m : Shutdown) (b : Bool) (p : Pool)
    → (p.queue.count == 0) ≡ b
    → IsValid p.queue
    → IsFifo p (after_round p (decide_round m b p))
unfolding decide_round
round-IsFifo running true p e v = kept-IsFifo p p v refl
round-IsFifo running false p e v = grab-IsFifo p v e
round-IsFifo immediate_shutdown b p e v = kept-IsFifo p (counted_out p) v refl
round-IsFifo graceful_shutdown true p e v = kept-IsFifo p (counted_out p) v refl
round-IsFifo graceful_shutdown false p e v = grab-IsFifo p v e

pub act-IsFifo : (a : Action) (p : Pool) → IsValid p.queue → IsFifo p (act a p)
act-IsFifo (add env f argument) p v = add-IsFifo env f argument p v
act-IsFifo round p v =
    unfold act thread_round in round-IsFifo p.shutdown (p.queue.count == 0) p refl v

-- Whatever clients and workers do, in any order and with any failures of the pthread calls: the
-- tasks pending at the start followed by those added are the tasks grabbed, in that order,
-- followed by those pending at the end, and the circular array stays well formed.
pub run-IsFifo : (actions : List Action) (p : Pool) → IsValid p.queue → IsFifo p (run actions p)
unfolding run
run-IsFifo [] p v = kept-IsFifo p p v refl
run-IsFifo (a ∷ actions) p v =
    let (v', first) = act-IsFifo a p v in
    let (v'', later) = run-IsFifo actions (act a p).2 v' in
    (
      v'',
      fifo_trans _ _ (contents p.queue) (act a p).0 (run actions (act a p).2).0 (act a p).1
          (run actions (act a p).2).1 first later,
    )
