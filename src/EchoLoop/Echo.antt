-- ===== src/EchoLoop/Echo.antt =====
-- A new connection and the table of events.
use high_performance_server.Prelude.{ℕ, zero, suc, true, false, [], ◌∷◌, ◌≡◌, List}
use high_performance_server.EchoLoop.{Slot}

-- All entries in front of the position are in the tree, and the one there, if any, is not.
abbrev pub IsFirstFree : List Slot → ℕ → Type 0
IsFirstFree [] i = i ≡ 0
IsFirstFree (s ∷ ss) zero = s.in_tree ≡ false
IsFirstFree (s ∷ ss) (suc i) = (s.in_tree ≡ true) × IsFirstFree ss i
