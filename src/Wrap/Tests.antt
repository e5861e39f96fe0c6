-- ===== src/Wrap/Tests.antt =====
-- The wrappers on a stream that arrives in pieces.
use high_performance_server.Prelude.{
  ℕ, ◌+◌, ◌≤◌, ◌<◌, if◌then◌else◌, some, [], ◌∷◌, ◌++◌, Bytes, codes, length, ◌≡◌, ◌≢◌, refl, arith,
}
use high_performance_server.Util.{ReadResult}
use high_performance_server.Wrap.{readline}
use high_performance_server.Wrap.Readline.{next_line, IsSource, readline_lem}

-- One byte for each call, and the end of the stream behind the last one.
abbrev drip : ℕ → Bytes → ReadResult × Bytes
drip n [] = (ReadResult.got [], [])
drip n (c ∷ cs) = (ReadResult.got (c ∷ []), cs)

drip-IsSource : IsSource drip (λ s. s) (λ s. 0)
drip-IsSource = record {
  got = got;
  ended = ended;
  interrupted = interrupted;
  blocks = blocks;
  breaks = breaks;
}
  where
    got :
        (s s' : Bytes) (b : ℕ) (bs : Bytes)
        → drip 100 s ≡ (ReadResult.got (b ∷ bs), s')
        → (s ≡ b ∷ bs ++ s') × (0 ≤ 0)
    got [] s' b bs e = cc
    got (c ∷ cs) s' b bs e = (cc, omega arith)

    ended : (s s' : Bytes) → drip 100 s ≡ (ReadResult.got [], s') → (s ≡ []) × (s' ≡ []) × (0 ≤ 0)
    ended [] s' e = (refl, cc, omega arith)
    ended (c ∷ cs) s' e = cc

    interrupted : (s s' : Bytes) → drip 100 s ≡ (ReadResult.interrupted, s') → (s' ≡ s) × (0 < 0)
    interrupted [] s' e = cc
    interrupted (c ∷ cs) s' e = cc

    blocks : (s : Bytes) → (drip 100 s).0 ≢ ReadResult.would_block
    blocks [] e = cc
    blocks (c ∷ cs) e = cc

    breaks : (s : Bytes) → (drip 100 s).0 ≢ ReadResult.broken
    breaks [] e = cc
    breaks (c ∷ cs) e = cc

readline_lem_example :
    let (line, rest, full) = next_line 79 (codes "Hi\nthere\n") in
    (buf' : Bytes) × (s' : Bytes) × (readline drip 3 80 (codes "H") (codes "i\nthere\n")
      ≡ some (some (length line + (if full then 1 else 0)), line, buf', s'))
    × (buf' ++ s' ≡ rest)
readline_lem_example =
    readline_lem drip (λ s. s) (λ s. 0) 3 80 (codes "H") (codes "i\nthere\n") drip-IsSource
      (omega arith)
