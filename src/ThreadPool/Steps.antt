-- ===== src/ThreadPool/Steps.antt =====
-- The pool with its workers and one thread that adds tasks, as main is, as a step relation.
use mathlib.Core.Option.{some-injective}
use mathlib.Core.List.{append-nil}
use high_performance_server.Prelude.{
  ◌<◌, if◌then◌else◌, Bool, true, false, Option, none, some, List, [], ◌∷◌, ◌++◌, ◌≡◌, refl, sym,
  ◌∙◌, arith,
}
use high_performance_server.TaskQueue.{Task, grab_task, contents}
use high_performance_server.TaskQueue.Laws.{
  IsValid, add_task-IsValid, grab_task-IsValid, contents-add_task, contents-grab_task, fifo_trans,
}
use high_performance_server.ThreadPool.{
  Status, running, shutdown, ThreadPool, is_running, must_wait, finish_add, takes, thread_round,
  begin_task, end_task, shut,
}

-- The pool, the task of the adding thread while it waits on `queue_has_spare`, and whether it has
-- been notified since.
pub record System : Type 0 where
  pub pool : ThreadPool
  pub blocked : Option Task
  pub notified : Bool

-- `finish_add` as the list of tasks that it adds
abbrev pub added : Task → ThreadPool → List Task
added t p = if is_running p.status then t ∷ [] else []

abbrev is_blocked : Option Task → Bool
is_blocked none = false
is_blocked (some t) = true

-- One step, with the tasks that it adds and those that it grabs. The adding thread makes no call
-- while it waits; its wait can end at any time, also with no notification, as
-- `pthread_cond_wait` allows.
pub data Step (s : System) : List Task → List Task → System → Type 0 where
  -- `add`, where it does not wait
  call :
      (t : Task)
      → s.blocked ≡ none
      → must_wait s.pool ≡ false
      → Step s (added t s.pool) [] (record s { pool = finish_add t s.pool })
  -- `add` up to its wait
  block :
      (t : Task)
      → s.blocked ≡ none
      → must_wait s.pool ≡ true
      → Step s [] [] (record s { blocked = some t; notified = false })
  -- the end of the wait, and the rest of `add`
  wake :
      (t : Task)
      → s.blocked ≡ some t
      → Step s
          (added t s.pool)
          []
          (record s { pool = finish_add t s.pool; blocked = none; notified = false })
  -- a worker takes a task, and notifies
  take :
      (t : Task) (p : ThreadPool)
      → thread_round s.pool ≡ takes (some t) p
      → Step s [] (t ∷ []) (record s { pool = p; notified = true })
  begin : Step s [] [] (record s { pool = begin_task s.pool })
  finish : Step s [] [] (record s { pool = end_task s.pool })
  destroy : Step s [] [] (record s { pool = shut s.pool })

-- Steps one after the other.
pub data Run : System → List Task → List Task → System → Type 0 where
  done : {s : System} → Run s [] [] s
  more :
      {s s' s'' : System} {new new' gone gone' : List Task}
      → Step s new gone s'
      → Run s' new' gone' s''
      → Run s (new ++ new') (gone ++ gone') s''

-- The step is not a wakeup without a notification.
abbrev pub IsNotified : {s s' : System} {new gone : List Task} → Step s new gone s' → Type 0
IsNotified {s} (wake t e) = s.notified ≡ true
IsNotified (call t e w) = Unit
IsNotified (block t e w) = Unit
IsNotified (take t p e) = Unit
IsNotified begin = Unit
IsNotified finish = Unit
IsNotified destroy = Unit

-- No spurious wakeup in the whole run.
abbrev pub AreNotified : {s s' : System} {new gone : List Task} → Run s new gone s' → Type 0
AreNotified done = Unit
AreNotified (more first rest) = IsNotified first × AreNotified rest

-- The queue is well formed, and a waiting thread that has been notified finds room.
pub record Inv (s : System) : Type 0 where
  pub valid : IsValid s.pool.queue
  pub spare :
      (t : Task) → s.blocked ≡ some t → s.notified ≡ true → s.pool.queue.count < s.pool.queue.size

abbrev pub IsFifo : System → List Task → List Task → System → Type 0
IsFifo s new gone s' = Inv s' × (contents s.pool.queue ++ new ≡ gone ++ contents s'.pool.queue)

pub finish_add_fifo :
    (t : Task) (p : ThreadPool)
    → IsValid p.queue
    → (p.status ≡ running → p.queue.count < p.queue.size)
    → IsValid (finish_add t p).queue
      × (contents p.queue ++ added t p ≡ contents (finish_add t p).queue)
unfolding finish_add
finish_add_fifo t p v l = cases p.status refl
  where
    cases :
        (st : Status)
        → p.status ≡ st
        → IsValid (finish_add t p).queue
          × (contents p.queue ++ added t p ≡ contents (finish_add t p).queue)
    cases running e = rw e (add_task-IsValid t v (l e), sym (contents-add_task t v (l e)))
    cases shutdown e = rw e (v, append-nil (contents p.queue))

pub take_fifo :
    (t : Task) (p p' : ThreadPool)
    → IsValid p.queue
    → thread_round p ≡ takes (some t) p'
    → (0 < p.queue.count)
      × ((grab_task p.queue).0 ≡ some t)
      × (p' ≡ record p { queue = (grab_task p.queue).1 })
unfolding thread_round
take_fifo t p p' v e = ground arith

pub room :
    (p : ThreadPool)
    → IsValid p.queue
    → must_wait p ≡ false
    → p.status ≡ running
    → p.queue.count < p.queue.size
unfolding must_wait
room p v w e = ground arith

Step-IsFifo :
    {s s' : System} {new gone : List Task}
    → Inv s
    → (first : Step s new gone s') → IsNotified first
    → IsFifo s new gone s'
Step-IsFifo {s} i (call t e w) n =
    let (v, q) = finish_add_fifo t s.pool i.valid (room s.pool i.valid w) in
    (record { valid = v; spare = λ u b n. ground arith }, q)
Step-IsFifo {s} i (block t e w) n =
    (record { valid = i.valid; spare = λ u b n. ground arith }, append-nil (contents s.pool.queue))
Step-IsFifo {s} i (wake t e) n =
    let (v, q) = finish_add_fifo t s.pool i.valid (λ _. i.spare t e n) in
    (record { valid = v; spare = λ u b n. ground arith }, q)
Step-IsFifo {s} i (take t p e) n =
    let (pos, taken, shape) = take_fifo t s.pool p i.valid e in
    let (u, grabbed, rest) = contents-grab_task i.valid pos in
    let same : u ≡ t = some-injective _ _ (sym grabbed ∙ taken) in
    rw (shape, ← same)
      (
        record {
          valid = grab_task-IsValid i.valid pos;
          spare = λ u b n. unfold grab_task in omega (arith, i.valid.count_le);
        },
        append-nil (contents s.pool.queue) ∙ rest,
      )
Step-IsFifo {s} i begin n = (
  record { valid = unfold begin_task in i.valid; spare = unfold begin_task in i.spare },
  unfold begin_task in append-nil (contents s.pool.queue),
)
Step-IsFifo {s} i finish n = (
  record { valid = unfold end_task in i.valid; spare = unfold end_task in i.spare },
  unfold end_task in append-nil (contents s.pool.queue),
)
Step-IsFifo {s} i destroy n = (
  record { valid = unfold shut in i.valid; spare = unfold shut in i.spare },
  unfold shut in append-nil (contents s.pool.queue),
)

-- With one adding thread and no spurious wakeup, so that its wait ends only after a notification,
-- every run from a state in which the queue is well formed and a waiting thread that has been
-- notified finds room is first in, first out: the tasks pending at the start followed by
-- those added are those grabbed followed by those pending at the end. No pending task is ever
-- overwritten: the queue stays well formed.
pub Run-IsFifo :
    {s s' : System} {new gone : List Task}
    → Inv s
    → (run : Run s new gone s') → AreNotified run
    → IsFifo s new gone s'
Run-IsFifo {s} i done n = (i, append-nil (contents s.pool.queue))
Run-IsFifo {s} i
      (more {s' = mid} {s'' = end} {new = new} {new' = new'} {gone = gone} {gone' = gone'} first
        rest)
      n =
    let (i', e) = Step-IsFifo i first n.0 in
    let (i'', e') = Run-IsFifo i' rest n.1 in
    (
      i'',
      fifo_trans (contents mid.pool.queue) (contents end.pool.queue) (contents s.pool.queue) new
          new' gone gone' e e',
    )
