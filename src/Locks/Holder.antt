-- ===== src/Locks/Holder.antt =====
-- When `holder_` names the thread that owns the mutex.
use high_performance_server.Prelude.{
  ℕ, ◌==◌, true, false, Option, Option-cases, none, some, List, [], ◌∷◌, ◌≡◌, refl, ap, arith, inl,
  inr,
}
use high_performance_server.Locks.{
  Lock, acquire, release, note_holder, lock, unlock, execute, run_first, run_rest, is_locked_by,
  destroy, new_lock, Call, locks, unlocks, call, calls,
}

-- the number of the owner, 0 where there is none
abbrev pub owner_number : Option ℕ → ℕ
owner_number none = 0
owner_number (some t) = t

call-Same :
    (c : Call) (l l' : Lock)
    → l.holder ≡ owner_number l.owner
    → call c l ≡ some l'
    → l'.holder ≡ owner_number l'.owner
unfolding call lock run_rest run_first execute acquire release note_holder
call-Same (locks t) l l' e k = ground arith
call-Same (unlocks t) l l' e k = ground arith

-- As long as whole calls of `lock` and `unlock` follow one another, without a wait, `holder_` is
-- the thread that owns the mutex, and 0 where no thread owns it.
pub calls-Same :
    (cs : List Call) (l l' : Lock)
    → l.holder ≡ owner_number l.owner
    → calls cs l ≡ some l'
    → l'.holder ≡ owner_number l'.owner
unfolding calls
calls-Same [] l l' e k = ground arith
calls-Same (c ∷ cs) l l' e k = elim (Option-cases (call c l)) [
  | inl stuck ↦ ground arith
  | inr (m, step) ↦ calls-Same cs m l' (call-Same c l m e step) (ground arith)
]

-- After whole calls on a new lock that leave the mutex free, the destructor's assertion holds.
calls-destroy :
    (cs : List Call) (l : Lock) → calls cs new_lock ≡ some l → l.owner ≡ none → destroy l ≡ true
unfolding destroy
calls-destroy cs l e free =
    let same = calls-Same cs new_lock l refl e in ground (arith, same, ap owner_number free)

-- Where the owner's `unlock` is interrupted behind its first statement, another thread's `lock` can
-- come in: `unlock` has given the mutex back and has not yet cleared `holder_`. When it goes on, it
-- clears the record of that thread, which owns the mutex and is not recorded as its holder, and the
-- destructor's assertion does not see that the mutex is locked.
pub unlock_race :
    (a b : ℕ) (l : Lock)
    → l.owner ≡ some a
    → (b == 0) ≡ false
    → (l₁ : Lock) × (l₂ : Lock) × (l₃ : Lock) × (run_first 1 unlock a l ≡ some l₁)
      × (lock b l₁ ≡ some l₂)
      × (run_rest 1 unlock a l₂ ≡ some l₃)
      × (l₃.owner ≡ some b)
      × (is_locked_by b l₃ ≡ false)
      × (destroy l₃ ≡ true)
unfolding run_first run_rest execute release lock acquire note_holder is_locked_by destroy
unlock_race a b l e n = (
  record l { owner = none },
  record { owner = some b; holder = b },
  record { owner = some b; holder = 0 },
  ground arith,
  ground arith,
  refl,
  refl,
  ground arith,
  refl,
)
