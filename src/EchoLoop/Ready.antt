-- ===== src/EchoLoop/Ready.antt =====
-- Tables whose entries are ready, and outcomes that have a property.
use high_performance_server.Prelude.{
  ℕ, zero, suc, ◌-◌, ◌≤◌, ◌<◌, leb, not, if◌then◌else◌, Bool, true, false, Bool-cases, some, List,
  [], ◌∷◌, length, get_elem?, set, ◌≡◌, refl, sym, inl, inr, arith,
}
use high_performance_server.EchoLoop.{
  Kernel, Slot, Table, Outcome, returned, exited, undefined, and_then, checked, remove,
  event_remove, check_slot,
}
use high_performance_server.EchoLoop.Safe.{IsReady, Fills, Keeps}
use high_performance_server.EchoLoop.Loop.{zero_slots}

abbrev pub AreReady : List Slot → Type 0
AreReady [] = Unit
AreReady (s ∷ ss) = IsReady s × AreReady ss

pub get_elem?-AreReady :
    (ss : List Slot) (i : ℕ) (s : Slot) → AreReady ss → get_elem? ss i ≡ some s → IsReady s
get_elem?-AreReady [] i s h e = absurd (cc)
get_elem?-AreReady (x ∷ xs) zero s h e = let same : x ≡ s = cc in rw (sym same) h.0
get_elem?-AreReady (x ∷ xs) (suc i) s h e = get_elem?-AreReady xs i s h.1 e

pub set-AreReady :
    (ss : List Slot) (i : ℕ) (s : Slot) → AreReady ss → IsReady s → AreReady (set ss i s)
set-AreReady [] i s h r = tt
set-AreReady (x ∷ xs) zero s h r = (r, h.1)
set-AreReady (x ∷ xs) (suc i) s h r = (h.0, set-AreReady xs i s h.1 r)

pub get_elem?-some :
    (ss : List Slot) (i : ℕ) → i < length ss → (s : Slot) × (get_elem? ss i ≡ some s)
get_elem?-some [] i h = absurd (omega arith)
get_elem?-some (x ∷ xs) zero h = (x, refl)
get_elem?-some (x ∷ xs) (suc i) h = get_elem?-some xs i (omega arith)

pub zero_slots-AreReady : (n : ℕ) → AreReady (zero_slots n)
zero_slots-AreReady zero = tt
zero_slots-AreReady (suc n) = (inl refl, zero_slots-AreReady n)

pub length-zero_slots : (n : ℕ) → length (zero_slots n) ≡ n
length-zero_slots zero = refl
length-zero_slots (suc n) = omega (arith, length-zero_slots n)

module _ (open_max : ℕ) where
  abbrev pub IsTable : Table → Type 0
  IsTable t = AreReady t.clients × (length t.clients ≡ open_max)

  abbrev pub IsScanned : List Slot × ℕ → Type 0
  IsScanned (ss, pos) = AreReady ss × (length ss ≡ open_max) × (pos ≤ open_max)

  abbrev pub IsRunning : Table × ℕ → Type 0
  IsRunning (t, pos) = IsTable t × (pos ≤ open_max)

module _ {K : Type 0} (kernel : Kernel K) where
  -- an outcome with a predicate of what is returned; undefined behaviour comes from a full buffer
  abbrev pub Has : {A : Type 0} → (A → Type 0) → Outcome A K → Type 0
  Has P (returned a k) = P a
  Has P (exited k) = Unit
  Has P undefined = Fills kernel

  pub and_then-Has :
      {A B : Type 0} (P : A → Type 0) (Q : B → Type 0) (o : Outcome A K) (f : A → K → Outcome B K)
      → Has P o
      → ((a : A) (k : K) → P a → Has Q (f a k))
      → Has Q (and_then o f)
  and_then-Has P Q (returned a k) f h g = g a k h
  and_then-Has P Q (exited k) f h g = tt
  and_then-Has P Q undefined f h g = h

  pub Keeps-Has : (o : Outcome Slot K) → Keeps kernel o → Has IsReady o
  Keeps-Has (returned s k) h = h
  Keeps-Has (exited k) h = h
  Keeps-Has undefined h = h

  pub if-Has :
      {A : Type 0} (P : A → Type 0) (b : Bool) (x y : Outcome A K)
      → Has P x
      → Has P y
      → Has P (if b then x else y)
  if-Has P true x y h g = h
  if-Has P false x y h g = g

  pub checked-Has : (s : Slot) (a : Bool × K) → IsReady s → Has IsReady (checked s a)
  checked-Has s (true, k) h = h
  checked-Has s (false, k) h = tt

  pub removed-Has : (s : Slot) (k : K) → IsReady s → Has IsReady (event_remove kernel s k)
  unfolding event_remove
  removed-Has s k h = elim (Bool-cases s.in_tree) [
    | inl there ↦
        rw (there, event_remove)
          (checked-Has (record s { in_tree = false }) (kernel.epoll_ctl (remove s.fd) k) h)
    | inr out ↦ rw (out, event_remove) h
  ]

  pub check_slot-Has :
      (now : ℕ) (s : Slot) (k : K) → IsReady s → Has IsReady (check_slot kernel now s k)
  unfolding check_slot
  check_slot-Has now s k h = if-Has IsReady (not s.in_tree) (returned s k) _ h (
      if-Has IsReady (leb 60 (now - s.last_active)) _ (returned s k)
        (and_then-Has IsReady IsReady (checked s (kernel.close s.fd k)) (event_remove kernel)
          (checked-Has s (kernel.close s.fd k) h) removed-Has)
        h)
