-- ===== src/Util/Tests.antt =====
-- `readn` and `writen` against a kernel that answers from a list, and the theorems there.
use high_performance_server.Prelude.{
  ℕ, zero, suc, ◌≤◌, ◌<◌, List, [], ◌∷◌, Option, some, Bytes, codes, length, take, length-take, min,
  ◌≡◌, refl, ap, arith, none, Bool, true, false,
}
use high_performance_server.Util.{ReadResult, WriteResult, Received, received, readn, writen}
use high_performance_server.Util.Read
use high_performance_server.Util.Write
use high_performance_server.Util.Line

-- One answer of the kernel after the other; behind the last one `read` would block.
data Answer : Type 0 where
  chunk : Bytes → Answer
  signal : Answer

abbrev answer : List Answer → ℕ → List Answer → ReadResult × List Answer
answer [] n _ = (ReadResult.would_block, [])
answer (chunk b ∷ s) n _ = (ReadResult.got (take n b), s)
answer (signal ∷ s) n _ = (ReadResult.interrupted, s)

abbrev kernel : ℕ → List Answer → ReadResult × List Answer
kernel n s = answer s n s

kernel-AtMost : Read.AtMost kernel
kernel-AtMost n [] s' bs e = ground arith
kernel-AtMost n (chunk b ∷ s) s' bs e = ground (arith, length-take n b)
kernel-AtMost n (signal ∷ s) s' bs e = ground arith

kernel-Settles : Read.Settles kernel length
kernel-Settles = record { interrupted_lt = interrupted; got_le = got }
  where
    interrupted :
        (n : ℕ) (s s' : List Answer)
        → kernel n s ≡ (ReadResult.interrupted, s')
        → length s' < length s
    interrupted n [] s' e = ground arith
    interrupted n (chunk b ∷ s) s' e = ground arith
    interrupted n (signal ∷ s) s' e = ground arith

    got :
        (n : ℕ) (s s' : List Answer) (bs : Bytes)
        → kernel n s ≡ (ReadResult.got bs, s')
        → length s' ≤ length s
    got n [] s' bs e = ground arith
    got n (chunk b ∷ s) s' bs e = ground arith
    got n (signal ∷ s) s' bs e = ground arith

abbrev answers : List Answer
answers = chunk (codes "GET") ∷ signal ∷ chunk (codes " /") ∷ []

readn_runs : readn kernel 9 8 answers ≡ some (received (codes "GET /") true, [])
unfolding readn
readn_runs = refl

readn_total_example :
    (out : Received × List Answer) × (readn kernel 20 8 answers ≡ some out)
    × Read.IsDelivery kernel 8 answers [] out
readn_total_example =
    Read.readn_total kernel length 20 8 answers kernel-AtMost kernel-Settles (omega arith)

-- A kernel that takes two bytes at a time, after it was full `n` times.
abbrev sink_of : ℕ → ℕ → WriteResult × ℕ
sink_of n zero = (WriteResult.took (min 2 n), 0)
sink_of n (suc full) = (WriteResult.would_block, full)

abbrev sink : Bytes → ℕ → WriteResult × ℕ
sink bytes full = sink_of (length bytes) full

writen_runs : writen sink 9 (codes "hello") 2 ≡ some (some 5, 0)
unfolding writen
writen_runs = refl

-- a socket's bytes, shown with the flag and taken without it
abbrev recv_from : Bool → Bytes → Option ℕ × Bytes
recv_from peek [] = (none, [])
recv_from true (c ∷ cs) = (some c, c ∷ cs)
recv_from false (c ∷ cs) = (some c, cs)

recv_from-IsStream : Line.IsStream recv_from length
recv_from-IsStream = record { shown = shown; taken_lt = taken }
  where
    shown :
        (s : Bytes) (p : ℕ)
        → (recv_from true s).0 ≡ some p
        → (recv_from false (recv_from true s).1).0 ≡ some p
    shown [] p e = e
    shown (c ∷ cs) p e = e

    taken : (s s' : Bytes) (c : ℕ) → recv_from false s ≡ (some c, s') → length s' < length s
    taken [] s' c e = cc
    taken (d ∷ cs) s' c e = omega (arith, ap (λ (p : Option ℕ × Bytes). length p.1) e)
