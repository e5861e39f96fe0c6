-- ===== src/ThreadPool/Shut/Lost.antt =====
-- When the destructor's joins return.
use mathlib.Core.Option.{some-injective}
use high_performance_server.Prelude.{
  ℕ, zero, suc, ◌<◌, Bool, true, false, ◌&&◌, ◌==◌, ◌||◌, List, [], ◌∷◌, ◌≡◌, refl, sym, ap, ◌∙◌,
  arith, length, get_elem?, some, ◌≢◌,
}
use high_performance_server.ThreadPool.{ThreadPool, shutdown, shut, thread_round, exits}
use high_performance_server.ThreadPool.Shut.{
  Place, testing, about_to_wait, asleep, gone, next_place, step, step_at, steps, notify_all, joined,
  destruct,
}

-- Whether an index is among the steps.
unfoldable pub is_among : ℕ → List ℕ → Bool
is_among i [] = false
is_among i (j ∷ js) = i == j || is_among i js

among_tail :
    (i j : ℕ) (is : List ℕ) → (i == j) ≡ false → is_among i (j ∷ is) ≡ true → is_among i is ≡ true
unfolding is_among
among_tail i j is other h = ground (arith, other)

-- Whether no worker stands between its test and its wait.
unfoldable pub none_about : List Place → Bool
none_about [] = true
none_about (about_to_wait ∷ ws) = false
none_about (testing ∷ ws) = none_about ws
none_about (asleep ∷ ws) = none_about ws
none_about (gone ∷ ws) = none_about ws

-- in front of the test, or gone
abbrev is_saved : Place → Bool
is_saved testing = true
is_saved gone = true
is_saved about_to_wait = false
is_saved asleep = false

abbrev all_saved : List Place → Bool
all_saved [] = true
all_saved (w ∷ ws) = is_saved w && all_saved ws

all_saved-notify_all : (ws : List Place) → all_saved (notify_all ws) ≡ none_about ws
unfolding notify_all none_about
all_saved-notify_all [] = refl
all_saved-notify_all (testing ∷ ws) = all_saved-notify_all ws
all_saved-notify_all (about_to_wait ∷ ws) = refl
all_saved-notify_all (asleep ∷ ws) = all_saved-notify_all ws
all_saved-notify_all (gone ∷ ws) = all_saved-notify_all ws

length-notify_all : (ws : List Place) → length (notify_all ws) ≡ length ws
unfolding notify_all
length-notify_all [] = refl
length-notify_all (w ∷ ws) = ap suc (length-notify_all ws)

-- the joins return where every worker is saved, unless one stands in front of its test
joined-all_saved :
    (ws : List Place) → ((i : ℕ) → get_elem? ws i ≢ some testing) → joined ws ≡ all_saved ws
unfolding joined
joined-all_saved [] h = refl
joined-all_saved (testing ∷ ws) h = absurd (h 0 refl)
joined-all_saved (about_to_wait ∷ ws) h = refl
joined-all_saved (asleep ∷ ws) h = refl
joined-all_saved (gone ∷ ws) h = joined-all_saved ws (λ i. h (suc i))

-- Steps of a pool that is shut down.
module _ (p : ThreadPool) (down : p.status ≡ shutdown) where
  thread_round_down : thread_round p ≡ exits
  unfolding thread_round
  thread_round_down = ground (arith, down)

  is_saved-step : (w : Place) → is_saved (step p w) ≡ is_saved w
  unfolding step
  is_saved-step testing = ap (λ r. is_saved (next_place r)) thread_round_down
  is_saved-step about_to_wait = refl
  is_saved-step asleep = refl
  is_saved-step gone = refl

  not_testing-step : (w : Place) → step p w ≢ testing
  unfolding step
  not_testing-step testing e =
      let moved : gone ≡ testing = sym (ap next_place thread_round_down) ∙ e in cc
  not_testing-step about_to_wait e = cc
  not_testing-step asleep e = cc
  not_testing-step gone e = cc

  all_saved-step_at : (i : ℕ) (ws : List Place) → all_saved (step_at p i ws) ≡ all_saved ws
  unfolding step_at
  all_saved-step_at i [] = refl
  all_saved-step_at zero (w ∷ ws) = ap (λ b. b && all_saved ws) (is_saved-step w)
  all_saved-step_at (suc i) (w ∷ ws) = ap (λ b. is_saved w && b) (all_saved-step_at i ws)

  length-step_at : (i : ℕ) (ws : List Place) → length (step_at p i ws) ≡ length ws
  unfolding step_at
  length-step_at i [] = refl
  length-step_at zero (w ∷ ws) = refl
  length-step_at (suc i) (w ∷ ws) = ap suc (length-step_at i ws)

  all_saved-steps : (is : List ℕ) (ws : List Place) → all_saved (steps p is ws) ≡ all_saved ws
  unfolding steps
  all_saved-steps [] ws = refl
  all_saved-steps (i ∷ is) ws = all_saved-steps is (step_at p i ws) ∙ all_saved-step_at i ws

  length-steps : (is : List ℕ) (ws : List Place) → length (steps p is ws) ≡ length ws
  unfolding steps
  length-steps [] ws = refl
  length-steps (i ∷ is) ws = length-steps is (step_at p i ws) ∙ length-step_at i ws

  -- a worker that stands in front of its test has not moved
  testing_at :
      (i j : ℕ) (ws : List Place)
      → get_elem? (step_at p j ws) i ≡ some testing
      → (get_elem? ws i ≡ some testing) × ((i == j) ≡ false)
  unfolding step_at
  testing_at i j [] e = ground arith
  testing_at zero zero (w ∷ ws) e = absurd (not_testing-step w (some-injective _ _ e))
  testing_at zero (suc j) (w ∷ ws) e = (e, ground arith)
  testing_at (suc i) zero (w ∷ ws) e = (e, ground arith)
  testing_at (suc i) (suc j) (w ∷ ws) e =
      let (before, other) = testing_at i j ws e in (before, ground (arith, other))

  joined-steps :
      (is : List ℕ) (ws : List Place)
      → ((i : ℕ) → get_elem? ws i ≡ some testing → is_among i is ≡ true)
      → joined (steps p is ws) ≡ all_saved ws
  unfolding steps is_among
  joined-steps [] ws h = joined-all_saved ws (λ i e. let among : false ≡ true = h i e in cc)
  joined-steps (j ∷ is) ws h =
      joined-steps is (step_at p j ws)
        (λ i e. let (before, other) = testing_at i j ws e in among_tail i j is other (h i before))
      ∙ all_saved-step_at j ws

get_elem?-lt_length :
    (ws : List Place) (i : ℕ) {w : Place} → get_elem? ws i ≡ some w → i < length ws
get_elem?-lt_length [] i e = cc
get_elem?-lt_length (x ∷ ws) zero e = omega arith
get_elem?-lt_length (x ∷ ws) (suc i) e = omega (arith, get_elem?-lt_length ws i e)

-- The joins of the destructor, when every worker has had its step behind the broadcast and none
-- wakes up but by it: they have
-- all returned if no worker stood between its test and its wait at the broadcast, and else they
-- have not, however many steps the workers take.
pub destruct_lem :
    (p : ThreadPool) (early later : List ℕ) (ws : List Place)
    → ((i : ℕ) → i < length ws → is_among i later ≡ true)
    → destruct p early later ws ≡ none_about (steps (shut p) early ws)
unfolding destruct shut
destruct_lem p early later ws h =
    let there = steps (shut p) early ws in
    joined-steps (shut p) refl later (notify_all there) (λ i e. h i (
      omega (
        arith,
        get_elem?-lt_length (notify_all there) i e,
        length-notify_all there,
        length-steps (shut p) refl early ws,
      )))
    ∙ all_saved-notify_all there
