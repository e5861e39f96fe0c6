-- ===== src/Locks/Tests.antt =====
-- The locks on concrete threads.
use high_performance_server.Prelude.{true, false, some, ◌≡◌, refl}
use high_performance_server.Locks.{Lock, lock, unlock, run_first, run_rest, is_locked_by, destroy}
use high_performance_server.Locks.Holder.{unlock_race}

abbrev held : Lock
held = record { owner = some 7; holder = 7 }

unlock_race_example :
    (l₁ : Lock) × (l₂ : Lock) × (l₃ : Lock) × (run_first 1 unlock 7 held ≡ some l₁)
    × (lock 5 l₁ ≡ some l₂)
    × (run_rest 1 unlock 7 l₂ ≡ some l₃)
    × (l₃.owner ≡ some 5)
    × (is_locked_by 5 l₃ ≡ false)
    × (destroy l₃ ≡ true)
unlock_race_example = unlock_race 7 5 held refl refl
