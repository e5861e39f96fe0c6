-- ===== src/TaskQueue/Laws.antt =====
-- The circular array is a queue: adding appends, grabbing takes the first.
use mathlib.Core.List.{append_assoc}
use native.Mathlib.Nat.{mod-add-mod, mod-eq_of_lt, mod-eq-sub-mod, add-zero}
use native.Mathlib.Decide.{dec_lt}
use high_performance_server.Prelude.{
  ℕ, zero, suc, ◌+◌, ◌-◌, ◌%◌, ◌≤◌, ◌<◌, ◌≡◌, ◌≢◌, ◌⊎◌, inl, inr, refl, sym, ap, ◌∙◌, List, [], ◌∷◌,
  ◌++◌, some, arith, length, get_elem?, get_or, set, length-set,
}
use high_performance_server.TaskQueue.{
  Task, no_task, Ring, add_task, grab_task, collect, slot, contents,
}

-- The array has the size's room, the indices lie in it, and the rear stands `count` behind the
-- front.
pub record IsValid (q : Ring) : Type 0 where
  pub size_pos : 0 < q.size
  pub room : q.size ≤ length q.slots
  pub front_lt : q.front < q.size
  pub count_le : q.count ≤ q.size
  pub rear_eq : q.rear ≡ (q.front + q.count) % q.size

-- Less than two rounds: the remainder is the number itself, or that less one round.
mod_cases :
    (a cap : ℕ) → a < cap + cap → ((a < cap) × (a % cap ≡ a)) ⊎ ((cap ≤ a) × (a % cap ≡ a - cap))
mod_cases a cap h = elim (dec_lt a cap) [
  | yes p ↦ inl (p, mod-eq_of_lt p)
  | no p ↦ inr (
    omega arith,
    mod-eq-sub-mod {n = a} {m = cap} (omega arith)
        ∙ mod-eq_of_lt {n = a - cap} {m = cap} (omega arith),
  )
]

mod-ne : (cap h i n : ℕ) → h < cap → i < n → n < cap → (h + n) % cap ≢ (h + i) % cap
mod-ne cap h i n f l k =
    omega (arith, mod_cases (h + n) cap (omega arith), mod_cases (h + i) cap (omega arith))

mod-shift : (cap h i : ℕ) → ((h + 1) % cap + i) % cap ≡ (h + (i + 1)) % cap
mod-shift cap h i = rw mod-add-mod (ap (λ n. n % cap) (omega arith))

pub length-collect {ℓ} : {A : Type ℓ} (n : ℕ) (f : ℕ → A) → length (collect n f) ≡ n
length-collect zero f = refl
length-collect (suc n) f = ap suc (length-collect n (λ i. f (i + 1)))

collect-congr {ℓ} :
    {A : Type ℓ} (n : ℕ) (f g : ℕ → A) → ((i : ℕ) → i < n → f i ≡ g i) → collect n f ≡ collect n g
collect-congr zero f g h = refl
collect-congr (suc n) f g h = λ j.
    h 0 (omega arith) j
    ∷ collect-congr n (λ i. f (i + 1)) (λ i. g (i + 1)) (λ i l. h (i + 1) (omega arith)) j

collect-suc {ℓ} : {A : Type ℓ} (n : ℕ) (f : ℕ → A) → collect (suc n) f ≡ collect n f ++ f n ∷ []
collect-suc zero f = refl
collect-suc (suc n) f = ap (◌∷◌ (f 0)) (
    collect-suc n (λ i. f (i + 1)) ∙ ap (λ k. collect n (λ i. f (i + 1)) ++ f k ∷ []) (omega arith))

get_or-set_self :
    (xs : List Task) (i : ℕ) (t : Task) → i < length xs → get_or (set xs i t) i no_task ≡ t
get_or-set_self [] i t h = absurd (omega arith)
get_or-set_self (x ∷ xs) zero t h = refl
get_or-set_self (x ∷ xs) (suc i) t h = get_or-set_self xs i t (omega arith)

get_or-set_ne :
    (xs : List Task) (i j : ℕ) (t : Task)
    → i ≢ j
    → get_or (set xs i t) j no_task ≡ get_or xs j no_task
get_or-set_ne [] i j t h = refl
get_or-set_ne (x ∷ xs) zero zero t h = absurd (h refl)
get_or-set_ne (x ∷ xs) zero (suc j) t h = refl
get_or-set_ne (x ∷ xs) (suc i) zero t h = refl
get_or-set_ne (x ∷ xs) (suc i) (suc j) t h = get_or-set_ne xs i j t (λ e. h (ap suc e))

get_elem?-slot :
    (xs : List Task) (i : ℕ) → i < length xs → get_elem? xs i ≡ some (get_or xs i no_task)
get_elem?-slot [] i h = absurd (omega arith)
get_elem?-slot (x ∷ xs) zero h = refl
get_elem?-slot (x ∷ xs) (suc i) h = get_elem?-slot xs i (omega arith)

-- The empty ring over an array of at least `size` slots.
pub empty-IsValid :
    (slots : List Task) (size : ℕ)
    → 0 < size
    → size ≤ length slots
    → IsValid (record { slots = slots; size = size; front = 0; rear = 0; count = 0 })
empty-IsValid slots size pos room = omega arith

pub add_task-IsValid : {q : Ring} (t : Task) → IsValid q → q.count < q.size → IsValid (add_task t q)
unfolding add_task
add_task-IsValid {q} t v l = record {
  size_pos = v.size_pos;
  room = omega (arith, length-set q.slots q.rear t, v.room);
  front_lt = v.front_lt;
  count_le = omega arith;
  rear_eq = rw (v.rear_eq, mod-add-mod) (ap (λ n. n % q.size) (omega arith));
}

pub grab_task-IsValid : {q : Ring} → IsValid q → 0 < q.count → IsValid (grab_task q).1
unfolding grab_task
grab_task-IsValid {q} v l = record {
  size_pos = v.size_pos;
  room = v.room;
  front_lt = omega (arith, v.size_pos);
  count_le = omega (arith, v.count_le);
  rear_eq =
      v.rear_eq ∙ sym (mod-shift q.size q.front (q.count - 1) ∙ ap (λ n. n % q.size) (omega arith));
}

-- Adding a task where there is room puts it behind those that wait.
pub contents-add_task :
    {q : Ring} (t : Task)
    → IsValid q
    → q.count < q.size
    → contents (add_task t q) ≡ contents q ++ t ∷ []
unfolding add_task
contents-add_task {q} t v l =
    ap (λ n. collect n (slot (add_task t q))) {y = suc q.count} (omega arith)
    ∙ collect-suc q.count (slot (add_task t q))
    ∙ (λ j. kept j ++ last j ∷ [])
  where
    rear_in : q.rear < length q.slots
    rear_in = omega (arith, v.room, v.rear_eq, v.size_pos)

    last : slot (add_task t q) q.count ≡ t
    last = rw (← v.rear_eq) (get_or-set_self q.slots q.rear t rear_in)

    old : (i : ℕ) → i < q.count → slot (add_task t q) i ≡ slot q i
    old i h =
        get_or-set_ne q.slots q.rear ((q.front + i) % q.size) t
          (λ e. mod-ne q.size q.front i q.count v.front_lt h l (sym v.rear_eq ∙ e))

    kept : collect q.count (slot (add_task t q)) ≡ collect q.count (slot q)
    kept = collect-congr q.count (slot (add_task t q)) (slot q) old

-- Grabbing from a ring that is not empty hands over the oldest task, and leaves the others.
pub contents-grab_task :
    {q : Ring}
    → IsValid q
    → 0 < q.count
    → (t : Task) × ((grab_task q).0 ≡ some t) × (contents q ≡ t ∷ contents (grab_task q).1)
unfolding grab_task
contents-grab_task {q} v l = (
  slot q 0,
  taken,
  ap (λ n. collect n (slot q)) {y = suc (q.count - 1)} (omega arith) ∙ ap (◌∷◌ (slot q 0)) rest,
)
  where
    front_at : (q.front + 0) % q.size ≡ q.front
    front_at = rw add-zero (mod-eq_of_lt v.front_lt)

    taken : get_elem? q.slots q.front ≡ some (slot q 0)
    taken = rw front_at (get_elem?-slot q.slots q.front (omega (arith, v.room, v.front_lt)))

    rest : collect (q.count - 1) (λ i. slot q (i + 1)) ≡ contents (grab_task q).1
    rest =
        collect-congr (q.count - 1) (λ i. slot q (i + 1)) (slot (grab_task q).1)
          (λ i h. ap (λ n. get_or q.slots n no_task) (sym (mod-shift q.size q.front i)))

-- Two stretches of first-in, first-out behaviour, one after the other.
pub fifo_trans :
    (mid end start new new' gone gone' : List Task)
    → start ++ new ≡ gone ++ mid
    → mid ++ new' ≡ gone' ++ end
    → start ++ (new ++ new') ≡ (gone ++ gone') ++ end
fifo_trans mid end start new new' gone gone' e e' =
    sym (append_assoc start new new')
    ∙ ap (λ l. l ++ new') e
    ∙ append_assoc gone mid new'
    ∙ ap (λ l. gone ++ l) e'
    ∙ sym (append_assoc gone gone' end)
