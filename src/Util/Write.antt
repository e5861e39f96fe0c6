-- ===== src/Util/Write.antt =====
-- What `writen` sends, and that it ends.
use mathlib.Core.Option.{some-injective}
use mathlib.Core.Path.{subst}
use mathlib.Core.List.{append_assoc}
use high_performance_server.Prelude.{
  ℕ, zero, suc, ◌+◌, ◌≤◌, ◌<◌, Option, none, some, [], ◌∷◌, ◌++◌, Bytes, length, take, drop,
  take-append-drop, length-drop, ◌≡◌, refl, sym, ap, ◌∙◌, ◌⊎◌, inl, inr, arith,
}
use high_performance_server.Util.{WriteResult, send_off, writen_loop, writen}

module _ {S : Type 0} (write : Bytes → S → WriteResult × S) where
  -- Calls of `write` one after the other, with the bytes that they take in order.
  pub data Writes : S → Bytes → S → Type 0 where
    stop : {s : S} → Writes s [] s
    more :
        {s s' s'' : S} {n : ℕ} {offered rest : Bytes}
        → write offered s ≡ (WriteResult.took n, s')
        → n ≤ length offered
        → Writes s' rest s''
        → Writes s (take n offered ++ rest) s''
    retry :
        {s s' s'' : S} {offered rest : Bytes}
        → (write offered s ≡ (WriteResult.interrupted, s'))
          ⊎ (write offered s ≡ (WriteResult.would_block, s'))
        → Writes s' rest s''
        → Writes s rest s''

  -- The kernel takes no more than it is offered.
  abbrev pub AtMost : Type 0
  AtMost =
      (bytes : Bytes) (s s' : S) (n : ℕ)
      → write bytes s ≡ (WriteResult.took n, s')
      → n ≤ length bytes

  -- What a result says, for the bytes to send behind `sum` bytes sent.
  abbrev pub IsSent : Bytes → ℕ → S → Option ℕ × S → Type 0
  IsSent bytes sum s (some n, s') = (n ≡ sum + length bytes) × Writes s bytes s'
  IsSent bytes sum s (none, s') =
      (front back offered : Bytes) × (mid : S) × (bytes ≡ front ++ back)
      × Writes s front mid
      × (write offered mid ≡ (WriteResult.broken, s'))

  retry-IsSent :
      (bytes : Bytes) (sum : ℕ) (s s' : S) (out : Option ℕ × S)
      → (write bytes s ≡ (WriteResult.interrupted, s'))
        ⊎ (write bytes s ≡ (WriteResult.would_block, s'))
      → IsSent bytes sum s' out
      → IsSent bytes sum s out
  retry-IsSent bytes sum s s' (some k, t) e (count, writes) = (count, retry e writes)
  retry-IsSent bytes sum s s' (none, t) e (front, back, offered, mid, split, writes, broke) =
      (front, back, offered, mid, split, retry e writes, broke)

  send_off-IsSent :
      (again : Bytes → ℕ → S → Option (Option ℕ × S)) (bytes : Bytes) (sum : ℕ) (s : S)
      (t : WriteResult × S) {out : Option ℕ × S}
      → AtMost
      → ((bytes : Bytes) (sum : ℕ) (s : S) → again bytes sum s ≡ some out → IsSent bytes sum s out)
      → write bytes s ≡ t
      → send_off again bytes sum t ≡ some out
      → IsSent bytes sum s out
  unfolding send_off
  send_off-IsSent again bytes sum s (WriteResult.took n, s') {out} h ih e f = sent out (ih _ _ s' f)
    where
      sent : (out : Option ℕ × S) → IsSent (drop n bytes) (sum + n) s' out → IsSent bytes sum s out
      sent (some k, t) (count, writes) = (
        omega (arith, length-drop n bytes, h bytes s s' n e),
        subst (λ b. Writes s b t) (take-append-drop n bytes) (more e (h bytes s s' n e) writes),
      )
      sent (none, t) (front, back, offered, mid, split, writes, broke) = (
        take n bytes ++ front,
        back,
        offered,
        mid,
        sym (take-append-drop n bytes)
            ∙ ap (λ b. take n bytes ++ b) split
            ∙ sym (append_assoc (take n bytes) front back),
        more e (h bytes s s' n e) writes,
        broke,
      )
  send_off-IsSent again bytes sum s (WriteResult.interrupted, s') {out} h ih e f =
      retry-IsSent bytes sum s s' out (inl e) (ih _ _ s' f)
  send_off-IsSent again bytes sum s (WriteResult.would_block, s') {out} h ih e f =
      retry-IsSent bytes sum s s' out (inr e) (ih _ _ s' f)
  send_off-IsSent again bytes sum s (WriteResult.broken, s') h ih e f =
      subst (λ o. IsSent bytes sum s o) (some-injective _ _ f) ([], bytes, bytes, s, refl, stop, e)

  writen_loop-IsSent :
      (fuel : ℕ) (bytes : Bytes) (sum : ℕ) (s : S) {out : Option ℕ × S}
      → AtMost
      → writen_loop write fuel bytes sum s ≡ some out
      → IsSent bytes sum s out
  unfolding writen_loop
  writen_loop-IsSent zero bytes sum s h f = cc
  writen_loop-IsSent (suc fuel) [] sum s h f =
      subst (λ o. IsSent [] sum s o) (some-injective _ _ f) (omega arith, stop)
  writen_loop-IsSent (suc fuel) (b ∷ bs) sum s h f =
      send_off-IsSent (writen_loop write fuel) (b ∷ bs) sum s (write (b ∷ bs) s) h
        (λ bytes sum s. writen_loop-IsSent fuel bytes sum s h) refl (ground arith)

  -- A call that takes no byte brings some measure of the kernel's state down, and no other call
  -- raises it: sending is not held up for ever.
  pub record Settles (measure : S → ℕ) : Type 0 where
    pub interrupted_lt :
        (b : Bytes) (s s' : S) → write b s ≡ (WriteResult.interrupted, s') → measure s' < measure s
    pub would_block_lt :
        (b : Bytes) (s s' : S) → write b s ≡ (WriteResult.would_block, s') → measure s' < measure s
    pub took_none_lt :
        (b : Bytes) (s s' : S)
        → 0 < length b
        → write b s ≡ (WriteResult.took 0, s')
        → measure s' < measure s
    pub took_le :
        (b : Bytes) (s s' : S) (n : ℕ)
        → write b s ≡ (WriteResult.took n, s')
        → measure s' ≤ measure s

  abbrev IsDone : Option (Option ℕ × S) → Type 0
  IsDone o = (out : Option ℕ × S) × (o ≡ some out)

  send_off_ends :
      (again : Bytes → ℕ → S → Option (Option ℕ × S)) (measure : S → ℕ) (fuel : ℕ) (bytes : Bytes)
      (sum : ℕ) (s : S) (t : WriteResult × S)
      → AtMost
      → Settles measure
      → ((b : Bytes) (sum : ℕ) (s : S) → length b + measure s < fuel → IsDone (again b sum s))
      → 0 < length bytes
      → length bytes + measure s < suc fuel
      → write bytes s ≡ t
      → IsDone (send_off again bytes sum t)
  unfolding send_off
  send_off_ends again measure fuel bytes sum s (WriteResult.took zero, s') h m ih pos f e =
      ih _ _ s' (omega (arith, length-drop 0 bytes, m.took_none_lt bytes s s' pos e))
  send_off_ends again measure fuel bytes sum s (WriteResult.took (suc n), s') h m ih pos f e =
      ih _ _ s' (
        omega (
          arith,
          length-drop (suc n) bytes,
          h bytes s s' (suc n) e,
          m.took_le bytes s s' (suc n) e,
        ))
  send_off_ends again measure fuel bytes sum s (WriteResult.interrupted, s') h m ih pos f e =
      ih bytes sum s' (omega (arith, m.interrupted_lt bytes s s' e))
  send_off_ends again measure fuel bytes sum s (WriteResult.would_block, s') h m ih pos f e =
      ih bytes sum s' (omega (arith, m.would_block_lt bytes s s' e))
  send_off_ends again measure fuel bytes sum s (WriteResult.broken, s') h m ih pos f e = (_, refl)

  writen_loop_ends :
      (measure : S → ℕ) (fuel : ℕ) (bytes : Bytes) (sum : ℕ) (s : S)
      → AtMost
      → Settles measure
      → length bytes + measure s < fuel
      → IsDone (writen_loop write fuel bytes sum s)
  unfolding writen_loop
  writen_loop_ends measure zero bytes sum s h m f = elim f [ ]
  writen_loop_ends measure (suc fuel) [] sum s h m f = (_, refl)
  writen_loop_ends measure (suc fuel) (b ∷ bs) sum s h m f =
      let (out, done) =
        send_off_ends (writen_loop write fuel) measure fuel (b ∷ bs) sum s (write (b ∷ bs) s) h m
          (λ b sum s. writen_loop_ends measure fuel b sum s h m) (omega arith) f refl in
      (out, ground arith)

  pub writen_total :
      (measure : S → ℕ) (fuel : ℕ) (bytes : Bytes) (s : S)
      → AtMost
      → Settles measure
      → length bytes + measure s < fuel
      → (out : Option ℕ × S) × (writen write fuel bytes s ≡ some out) × IsSent bytes 0 s out
  unfolding writen
  writen_total measure fuel bytes s h m f =
      let (out, done) = writen_loop_ends measure fuel bytes 0 s h m f in
      (out, done, writen_loop-IsSent fuel bytes 0 s h done)

  -- Calls of `write` that come back do not raise the measure.
  pub measure-Writes :
      (measure : S → ℕ) {s t : S} {b : Bytes}
      → Settles measure
      → Writes s b t
      → measure t ≤ measure s
  measure-Writes measure m stop = omega arith
  measure-Writes measure m (more e h ws) =
      omega (arith, measure-Writes measure m ws, m.took_le _ _ _ _ e)
  measure-Writes measure m (retry (inl e) ws) =
      omega (arith, measure-Writes measure m ws, m.interrupted_lt _ _ _ e)
  measure-Writes measure m (retry (inr e) ws) =
      omega (arith, measure-Writes measure m ws, m.would_block_lt _ _ _ e)
