-- ===== src/Util/Read.antt =====
-- What `readn` hands over, and that it ends.
use mathlib.Core.List.{append-nil, append_assoc}
use mathlib.Core.Option.{some-injective}
use mathlib.Core.Path.{subst}
use high_performance_server.Prelude.{
  ℕ, zero, suc, ◌+◌, ◌-◌, ◌≤◌, ◌<◌, ◌==◌, Bool, true, false, Option, some, [], ◌∷◌, ◌++◌, Bytes,
  length, ◌≡◌, refl, sym, ◌∙◌, ◌⊎◌, inl, inr, arith, Bool-cases, length-append,
}
use high_performance_server.Util.{
  ReadResult, Received, received, failed, take_in, readn_loop, readn,
}

-- what the last call of `read` returned
abbrev pub last_result : Bool → ReadResult
last_result true = ReadResult.would_block
last_result false = ReadResult.got []

module _ {S : Type 0} (read : ℕ → S → ReadResult × S) where
  -- Calls of `read` one after the other, with the bytes that they deliver in order.
  pub data Reads : S → Bytes → S → Type 0 where
    stop : {s : S} → Reads s [] s
    more :
        {s s' s'' : S} {n : ℕ} {bs cs : Bytes}
        → read n s ≡ (ReadResult.got bs, s')
        → Reads s' cs s''
        → Reads s (bs ++ cs) s''
    retry :
        {s s' s'' : S} {n : ℕ} {cs : Bytes}
        → read n s ≡ (ReadResult.interrupted, s')
        → Reads s' cs s''
        → Reads s cs s''

  -- The kernel never hands over more than it is asked for.
  abbrev pub AtMost : Type 0
  AtMost = (n : ℕ) (s s' : S) (bs : Bytes) → read n s ≡ (ReadResult.got bs, s') → length bs ≤ n

  -- The loop ends in `s'` because nothing is left to read, or because of one more call of `read`.
  abbrev pub Ends : Bool → ℕ → ℕ → S → S → Type 0
  Ends again got n mid s' =
      ((got ≡ n) × (mid ≡ s') × (again ≡ false))
      ⊎ ((m : ℕ) × (read m mid ≡ (last_result again, s')))

  -- What a result says, for `n` bytes asked for behind the bytes `acc`.
  abbrev pub IsDelivery : ℕ → S → Bytes → Received × S → Type 0
  IsDelivery n s acc (received bs again, s') =
      (cs : Bytes) × (mid : S) × (bs ≡ acc ++ cs)
      × (length cs ≤ n)
      × Reads s cs mid
      × Ends again (length cs) n mid s'
  IsDelivery n s acc (failed, s') =
      (cs : Bytes) × (mid : S) × Reads s cs mid × ((m : ℕ) × (read m mid ≡ (ReadResult.broken, s')))

  -- a delivery behind a call that delivered `bs`
  got-IsDelivery :
      (nleft : ℕ) (s s' : S) (acc bs : Bytes) (out : Received × S)
      → read nleft s ≡ (ReadResult.got bs, s')
      → length bs ≤ nleft
      → IsDelivery (nleft - length bs) s' (acc ++ bs) out
      → IsDelivery nleft s acc out
  got-IsDelivery nleft s s' acc bs (received r again, t) e l (cs, mid, shape, short, reads, ends) =
      (
        bs ++ cs,
        mid,
        shape ∙ append_assoc acc bs cs,
        omega (arith, length-append bs cs),
        more e reads,
        moved ends,
      )
    where
      moved :
          Ends again (length cs) (nleft - length bs) mid t
          → Ends again (length (bs ++ cs)) nleft mid t
      moved (inl (full, same, none_left)) =
          inl (omega (arith, length-append bs cs), same, none_left)
      moved (inr last) = inr last
  got-IsDelivery nleft s s' acc bs (failed, t) e l (cs, mid, reads, last) =
      (bs ++ cs, mid, more e reads, last)

  retry-IsDelivery :
      (nleft : ℕ) (s s' : S) (acc : Bytes) (out : Received × S)
      → read nleft s ≡ (ReadResult.interrupted, s')
      → IsDelivery nleft s' acc out
      → IsDelivery nleft s acc out
  retry-IsDelivery nleft s s' acc (received r again, t) e (cs, mid, shape, short, reads, ends) =
      (cs, mid, shape, short, retry e reads, ends)
  retry-IsDelivery nleft s s' acc (failed, t) e (cs, mid, reads, last) =
      (cs, mid, retry e reads, last)

  take_in-IsDelivery :
      (again : ℕ → Bytes → S → Option (Received × S)) (nleft : ℕ) (acc : Bytes) (s : S)
      (t : ReadResult × S) {out : Received × S}
      → AtMost
      → ((n : ℕ) (acc : Bytes) (s : S) → again n acc s ≡ some out → IsDelivery n s acc out)
      → read nleft s ≡ t
      → take_in again nleft acc t ≡ some out
      → IsDelivery nleft s acc out
  unfolding take_in
  take_in-IsDelivery again nleft acc s (ReadResult.got [], s') h ih e f =
      subst (λ o. IsDelivery nleft s acc o) (some-injective _ _ f)
        ([], s, sym (append-nil acc), omega arith, stop, inr (nleft, e))
  take_in-IsDelivery again nleft acc s (ReadResult.got (b ∷ bs), s') {out} h ih e f =
      got-IsDelivery nleft s s' acc (b ∷ bs) out e (h nleft s s' (b ∷ bs) e) (ih _ _ s' f)
  take_in-IsDelivery again nleft acc s (ReadResult.interrupted, s') {out} h ih e f =
      retry-IsDelivery nleft s s' acc out e (ih _ _ s' f)
  take_in-IsDelivery again nleft acc s (ReadResult.would_block, s') h ih e f =
      subst (λ o. IsDelivery nleft s acc o) (some-injective _ _ f)
        ([], s, sym (append-nil acc), omega arith, stop, inr (nleft, e))
  take_in-IsDelivery again nleft acc s (ReadResult.broken, s') h ih e f =
      subst (λ o. IsDelivery nleft s acc o) (some-injective _ _ f) ([], s, stop, (nleft, e))

  readn_loop-IsDelivery :
      (fuel nleft : ℕ) (acc : Bytes) (s : S) {out : Received × S}
      → AtMost
      → readn_loop read fuel nleft acc s ≡ some out
      → IsDelivery nleft s acc out
  unfolding readn_loop
  readn_loop-IsDelivery zero nleft acc s h f = cc
  readn_loop-IsDelivery (suc fuel) nleft acc s {out} h f = elim (Bool-cases (nleft == 0)) [
    | inl e ↦
        let f' : some (received acc false, s) ≡ some out = rw (e, readn_loop) at f in
        subst (λ o. IsDelivery nleft s acc o) (some-injective _ _ f')
          ([], s, sym (append-nil acc), omega arith, stop, inl (ground arith, refl, refl))
    | inr e ↦
        take_in-IsDelivery (readn_loop read fuel) nleft acc s (read nleft s) h
          (λ n acc s. readn_loop-IsDelivery fuel n acc s h) refl (rw (e, readn_loop) at f)
  ]

  -- A call that is interrupted brings some measure of the kernel's state down, and no other call
  -- raises it: it is not interrupted for ever.
  pub record Settles (measure : S → ℕ) : Type 0 where
    pub interrupted_lt :
        (n : ℕ) (s s' : S) → read n s ≡ (ReadResult.interrupted, s') → measure s' < measure s
    pub got_le :
        (n : ℕ) (s s' : S) (bs : Bytes)
        → read n s ≡ (ReadResult.got bs, s')
        → measure s' ≤ measure s

  abbrev IsDone : Option (Received × S) → Type 0
  IsDone o = (out : Received × S) × (o ≡ some out)

  take_in_ends :
      (again : ℕ → Bytes → S → Option (Received × S)) (measure : S → ℕ) (fuel nleft : ℕ)
      (acc : Bytes) (s : S) (t : ReadResult × S)
      → AtMost
      → Settles measure
      → ((n : ℕ) (acc : Bytes) (s : S) → n + measure s < fuel → IsDone (again n acc s))
      → 0 < nleft
      → nleft + measure s < suc fuel
      → read nleft s ≡ t
      → IsDone (take_in again nleft acc t)
  unfolding take_in
  take_in_ends again measure fuel nleft acc s (ReadResult.got [], s') h m ih l f e = (_, refl)
  take_in_ends again measure fuel nleft acc s (ReadResult.got (b ∷ bs), s') h m ih l f e =
      ih _ _ s' (omega (arith, m.got_le nleft s s' (b ∷ bs) e, h nleft s s' (b ∷ bs) e))
  take_in_ends again measure fuel nleft acc s (ReadResult.interrupted, s') h m ih l f e =
      ih nleft acc s' (omega (arith, m.interrupted_lt nleft s s' e))
  take_in_ends again measure fuel nleft acc s (ReadResult.would_block, s') h m ih l f e = (_, refl)
  take_in_ends again measure fuel nleft acc s (ReadResult.broken, s') h m ih l f e = (_, refl)

  readn_loop_ends :
      (measure : S → ℕ) (fuel nleft : ℕ) (acc : Bytes) (s : S)
      → AtMost
      → Settles measure
      → nleft + measure s < fuel
      → IsDone (readn_loop read fuel nleft acc s)
  unfolding readn_loop
  readn_loop_ends measure zero nleft acc s h m f = elim f [ ]
  readn_loop_ends measure (suc fuel) nleft acc s h m f = elim (Bool-cases (nleft == 0)) [
    | inl e ↦ ((received acc false, s), rw (e, readn_loop))
    | inr e ↦
        let (out, done) =
          take_in_ends (readn_loop read fuel) measure fuel nleft acc s (read nleft s) h m
            (λ n acc s. readn_loop_ends measure fuel n acc s h m) (ground arith) f refl in
        (out, rw (e, readn_loop) done)
  ]

  -- `readn` returns, and what it returns is what the calls of `read` delivered, in order: at most
  -- as many bytes as asked for, and fewer only where the last call met the end of the stream or
  -- would block; -1 only where the last call failed otherwise. The kernel hands over no more than
  -- it is asked for, and does not interrupt the calls for ever.
  pub readn_total :
      (measure : S → ℕ) (fuel n : ℕ) (s : S)
      → AtMost
      → Settles measure
      → n + measure s < fuel
      → (out : Received × S) × (readn read fuel n s ≡ some out) × IsDelivery n s [] out
  unfolding readn
  readn_total measure fuel n s h m f =
      let (out, done) = readn_loop_ends measure fuel n [] s h m f in
      (out, done, readn_loop-IsDelivery fuel n [] s h done)
