-- ===== src/EchoLoop/Scan.antt =====
-- The timeout scan: which entries it looks at, and what it does to an idle one.
use mathlib.Core.Path.{subst}
use mathlib.Core.Option.{some-injective}
use high_performance_server.Prelude.{
  ℕ, zero, suc, ◌+◌, ◌-◌, ◌≤◌, ◌<◌, leb, ltb, ◌&&◌, if◌then◌else◌, Bool, true, false, some, [], ◌∷◌,
  length, ◌≡◌, refl, sym, ap, ◌∙◌, arith, ◌⊎◌, inl, inr, Bool-cases, List, get_elem?, set,
}
use high_performance_server.EchoLoop.{
  Kernel, Slot, returned, exited, and_then, checked, event_remove, remove, wrap_pos, check_slot,
  scan,
}

-- the positions of `n` rounds from `pos` on
abbrev pub visited : ℕ → ℕ → ℕ → List ℕ
visited zero len pos = []
visited (suc n) len pos = wrap_pos len pos ∷ visited n len (wrap_pos len pos + 1)

-- in the tree, and for sixty seconds without traffic
abbrev pub is_idle : ℕ → Slot → Bool
is_idle now s = s.in_tree && leb 60 (now - s.last_active)

abbrev pub AreKept : ℕ → List Slot → List ℕ → Type 0
AreKept now ss [] = Unit
AreKept now ss (i ∷ l) =
    ((s : Slot) × (get_elem? ss i ≡ some s) × (is_idle now s ≡ false)) × AreKept now ss l

get_elem?-lt :
    {A : Type 0} (xs : List A) (i : ℕ) → i < length xs → (a : A) × (get_elem? xs i ≡ some a)
get_elem?-lt [] i h = elim h [ ]
get_elem?-lt (x ∷ xs) zero h = (x, refl)
get_elem?-lt (x ∷ xs) (suc i) h = get_elem?-lt xs i (omega arith)

get_elem?-some_lt :
    {A : Type 0} (xs : List A) (i : ℕ) (a : A) → get_elem? xs i ≡ some a → i < length xs
get_elem?-some_lt [] i a e = cc
get_elem?-some_lt (x ∷ xs) zero a e = omega arith
get_elem?-some_lt (x ∷ xs) (suc i) a e = omega (arith, get_elem?-some_lt xs i a e)

set-get_elem? :
    {A : Type 0} (xs : List A) (i : ℕ) (a : A) → get_elem? xs i ≡ some a → set xs i a ≡ xs
set-get_elem? [] i a e = refl
set-get_elem? (x ∷ xs) zero a e = ground arith
set-get_elem? (x ∷ xs) (suc i) a e = ap (◌∷◌ x) (set-get_elem? xs i a e)

-- Round `m` of a pass looks at the entry `m` further on, with the end of the table wrapped round.
pub visited-get_elem? :
    (n len pos m : ℕ)
    → pos ≤ len
    → 0 < len
    → m < n
    → m < len
    → let at = wrap_pos len pos in
      get_elem? (visited n len pos) m ≡ some (if ltb (at + m) len then at + m else at + m - len)
visited-get_elem? zero len pos m h l k j = elim k [ ]
visited-get_elem? (suc n) len pos zero h l k j = ground arith
visited-get_elem? (suc n) len pos (suc m) h l k j = ground (
  arith,
  visited-get_elem? n len (wrap_pos len pos + 1) m (ground arith) l (omega arith) (omega arith),
)

-- Every entry of the table is looked at in one pass of as many rounds as the table has entries,
-- wherever the scan begins.
visited_all :
    (len pos j : ℕ)
    → pos ≤ len
    → j < len
    → (m : ℕ) × (m < len) × (get_elem? (visited len len pos) m ≡ some j)
visited_all len pos j h l =
    let at = wrap_pos len pos in
    let m = if leb at j then j - at else j + len - at in
    let lt : m < len = ground arith in
    (m, lt, visited-get_elem? len len pos m h (omega arith) lt lt ∙ ground arith)

AreKept-get_elem? :
    (now : ℕ) (ss : List Slot) (l : List ℕ) (m j : ℕ) (s : Slot)
    → AreKept now ss l
    → get_elem? l m ≡ some j
    → get_elem? ss j ≡ some s
    → is_idle now s ≡ false
AreKept-get_elem? now ss [] m j s a e f = ground arith
AreKept-get_elem? now ss (i ∷ l) zero j s ((t, at, kept), more) e f =
    let same_pos = some-injective _ _ e in
    let same_slot = some-injective _ _ (sym at ∙ ap (get_elem? ss) same_pos ∙ f) in
    subst (λ q. is_idle now q ≡ false) same_slot kept
AreKept-get_elem? now ss (i ∷ l) (suc m) j s (head, more) e f =
    AreKept-get_elem? now ss l m j s more e f

module _ {K : Type 0} (kernel : Kernel K) where
  -- A descriptor that is closed is not in the interest list any more, so that taking it out fails.
  pub record Forgets : Type 0 where
    pub closed :
        (fd : ℕ) (k k' : K)
        → kernel.close fd k ≡ (true, k')
        → (kernel.epoll_ctl (remove fd) k').0 ≡ false

  removed : (s : Slot) (a : Bool × K) → a.0 ≡ false → (k' : K) × (checked s a ≡ exited k')
  removed s (true, k) e = cc
  removed s (false, k) e = (k, refl)

  closed :
      (s : Slot) (k : K) (a : Bool × K)
      → Forgets
      → kernel.close s.fd k ≡ a
      → s.in_tree ≡ true
      → (k' : K) × (and_then (checked s a) (event_remove kernel) ≡ exited k')
  unfolding event_remove
  closed s k (false, k₁) f e there = (k₁, refl)
  closed s k (true, k₁) f e there =
      let (k₂, gone) =
        removed (record s { in_tree = false }) (kernel.epoll_ctl (remove s.fd) k₁)
          (f.closed s.fd k k₁ e) in
      (k₂, rw (there, event_remove) gone)

  check_slot_idle :
      (now : ℕ) (s : Slot) (k : K)
      → Forgets
      → is_idle now s ≡ true
      → (k' : K) × (check_slot kernel now s k ≡ exited k')
  unfolding check_slot
  check_slot_idle now s k f i =
      let (k', out) = closed s k (kernel.close s.fd k) f refl (ground arith) in
      (k', (ground arith) ∙ out)

  check_slot_kept :
      (now : ℕ) (s : Slot) (k : K)
      → is_idle now s ≡ false
      → check_slot kernel now s k ≡ returned s k
  unfolding check_slot
  check_slot_kept now s k i = elim (Bool-cases s.in_tree) [
    | inr out ↦ ground arith
    | inl there ↦ elim (Bool-cases (leb 60 (now - s.last_active))) [
      | inl old ↦ ground arith
      | inr young ↦ ground arith
    ]
  ]

  -- With such a kernel a scan over entries of the table either finds none of them idle and leaves
  -- the table and the kernel as they are, or the process exits.
  scan_cases :
      (n now : ℕ) (ss : List Slot) (pos : ℕ) (k : K)
      → Forgets
      → pos ≤ length ss
      → 0 < length ss
      → ((p : ℕ) × (scan kernel n now ss pos k ≡ returned (ss, p) k)
          × (p ≤ length ss)
          × AreKept now ss (visited n (length ss) pos))
        ⊎ ((k' : K) × (scan kernel n now ss pos k ≡ exited k'))
  unfolding scan
  scan_cases zero now ss pos k f h l = inl (pos, refl, h, tt)
  scan_cases (suc n) now ss pos k f h l =
      let at = wrap_pos (length ss) pos in
      let (s, e) = get_elem?-lt ss at (ground arith) in
      elim (Bool-cases (is_idle now s)) [
        | inl idle ↦
            let (k', out) = check_slot_idle now s k f idle in inr (k', rw (e, scan, out) refl)
        | inr kept ↦
            let next : scan kernel (suc n) now ss pos k ≡ scan kernel n now ss (at + 1) k =
              rw (e, scan, check_slot_kept now s k kept, set-get_elem? ss at s e) refl in
            elim (scan_cases n now ss (at + 1) k f (ground arith) l) [
              | inl (p, done, lt, all) ↦ inl (p, next ∙ done, lt, ((s, e, kept), all))
              | inr (k', out) ↦ inr (k', next ∙ out)
            ]
      ]

  -- With a kernel whose `epoll_ctl` refuses closed descriptors, a client that has been silent for
  -- sixty seconds ends the server, and is not only disconnected: in the next OPEN_MAX rounds of the
  -- timeout scan, wherever it stands and wherever the client's entry is, the process exits.
  pub scan_exits :
      (now : ℕ) (ss : List Slot) (pos j : ℕ) (s : Slot) (k : K)
      → Forgets
      → pos ≤ length ss
      → get_elem? ss j ≡ some s
      → is_idle now s ≡ true
      → (k' : K) × (scan kernel (length ss) now ss pos k ≡ exited k')
  scan_exits now ss pos j s k f h e idle =
      let lt = get_elem?-some_lt ss j s e in
      elim (scan_cases (length ss) now ss pos k f h (omega arith)) [
        | inr exits ↦ exits
        | inl (p, done, _, all) ↦
            let (m, m_lt, there) = visited_all (length ss) pos j h lt in
            let kept =
              AreKept-get_elem? now ss (visited (length ss) (length ss) pos) m j s all there e in
            ground arith
      ]
