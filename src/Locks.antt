-- ===== src/Locks.antt =====
-- `MutexLock`, `MutexLockGuard` and `Condition` of src/threadpool.cpp. The pthread mutex stands as
-- the thread that owns it; each statement of `lock` and `unlock` is a step of its own, and `none`
-- is a step that cannot be taken, or must not be.
pub mod Holder
mod Tests
use high_performance_server.Prelude.{
  ℕ, zero, suc, length, ◌==◌, if◌then◌else◌, Bool, true, false, Option, none, some, List, [], ◌∷◌,
}

-- `holder_` is 0 where no thread is recorded.
pub record Lock : Type 0 where
  pub owner : Option ℕ
  pub holder : ℕ

-- the constructor
abbrev pub new_lock : Lock
new_lock = record { owner = none; holder = 0 }

-- `pthread_mutex_lock`: a thread goes on once the mutex is free.
unfoldable pub acquire : ℕ → Lock → Option Lock
acquire self l = elim l.owner [ none ↦ some (record l { owner = some self }) | some t ↦ none ]

-- `pthread_mutex_unlock`, which only the owner may call
unfoldable pub release : ℕ → Lock → Option Lock
release self l = elim l.owner [
  | none ↦ none
  | some t ↦ if t == self then some (record l { owner = none }) else none
]

-- `holder_ = pthread_self()` and `holder_ = 0`
unfoldable pub note_holder : ℕ → Lock → Lock
note_holder self l = record l { holder = self }

abbrev pub noting : ℕ → Option Lock → Option Lock
noting self none = none
noting self (some l) = some (note_holder self l)

-- `MutexLock::lock`, which is also the constructor of `MutexLockGuard`
unfoldable pub lock : ℕ → Lock → Option Lock
unfolding acquire note_holder
lock self l = noting self (acquire self l)

-- The statements of `MutexLock::unlock`, which is also the destructor of `MutexLockGuard`: the call
-- of `pthread_mutex_unlock` and "holder_ = 0".
pub data Statement : Type 0 where
  releases clears : Statement

unfoldable pub execute : Statement → ℕ → Lock → Option Lock
unfolding release note_holder
execute releases self l = release self l
execute clears self l = some (note_holder 0 l)

abbrev pub unlock : List Statement
unlock = releases ∷ clears ∷ []

-- The first statements of a body, as many as the number says, and the others.
unfoldable pub run_first : ℕ → List Statement → ℕ → Lock → Option Lock
unfolding execute
run_first zero body self l = some l
run_first (suc n) [] self l = some l
run_first (suc n) (x ∷ body) self l = elim (execute x self l) [
  | none ↦ none
  | some l' ↦ run_first n body self l'
]

unfoldable pub run_rest : ℕ → List Statement → ℕ → Lock → Option Lock
unfolding run_first
run_rest zero body self l = run_first (length body) body self l
run_rest (suc n) [] self l = some l
run_rest (suc n) (x ∷ body) self l = run_rest n body self l

-- `isLockedByThisThread`
unfoldable pub is_locked_by : ℕ → Lock → Bool
is_locked_by self l = l.holder == self

-- `~MutexLock`: whether its assertion holds
unfoldable pub destroy : Lock → Bool
destroy l = l.holder == 0

-- `Condition::wait` gives the mutex back and takes it again; `holder_` is not written.
unfoldable pub begin_wait : ℕ → Lock → Option Lock
unfolding release
begin_wait self l = release self l

unfoldable pub end_wait : ℕ → Lock → Option Lock
unfolding acquire
end_wait self l = acquire self l

-- one whole call
pub data Call : Type 0 where
  locks unlocks : ℕ → Call

unfoldable pub call : Call → Lock → Option Lock
unfolding lock run_rest
call (locks t) l = lock t l
call (unlocks t) l = run_rest 0 unlock t l

-- whole calls one behind the other
unfoldable pub calls : List Call → Lock → Option Lock
unfolding call
calls [] l = some l
calls (c ∷ cs) l = elim (call c l) [ none ↦ none | some l' ↦ calls cs l' ]
