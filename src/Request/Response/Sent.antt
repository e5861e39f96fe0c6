-- ===== src/Request/Response/Sent.antt =====
-- What the answers of a request put on the wire, where the kernel takes all the bytes in the end.
use mathlib.Core.Path.{subst}
use mathlib.Core.List.{append_assoc, append-nil}
use high_performance_server.Prelude.{
  ℕ, zero, suc, ◌+◌, ◌<◌, ltb, Bool, true, false, Option, none, some, [], ◌++◌, Bytes, codes,
  length, take, length-append, ◌≡◌, refl, sym, arith,
}
use high_performance_server.Request.Response.{
  Files, AnalysisFlag, analysis_error, analysis_success, analysis_undefined, send, send_both,
  send_failing, send_mapped, send_fitting, answer_found, get_header, error_header, handle_error,
  answer_get, max_buff, read_memory,
}
use high_performance_server.Util.{WriteResult, writen}
use high_performance_server.Util.Write.{
  Writes, stop, more, retry, AtMost, Settles, IsSent, writen_total, measure-Writes,
}

module _ {S : Type 0} (write : Bytes → S → WriteResult × S) where
  pub Writes-append :
      {s mid t : S} {a b : Bytes}
      → Writes write s a mid
      → Writes write mid b t
      → Writes write s (a ++ b) t
  Writes-append stop later = later
  Writes-append {s} {t = t} {b = b} (more {n = n} {offered = offered} {rest = rest} e h ws) later =
      subst (λ x. Writes write s x t) (sym (append_assoc (take n offered) rest b))
        (more e h (Writes-append ws later))
  Writes-append (retry e ws) later = retry e (Writes-append ws later)

  -- A kernel that takes all that it is offered in the end: no call fails but with EINTR and EAGAIN.
  pub record Serves (measure : S → ℕ) : Type 0 where
    pub at_most : AtMost write
    pub settles : Settles write measure
    pub unbroken : (b : Bytes) (s s' : S) → ¬ (write b s ≡ (WriteResult.broken, s'))

  module _ (measure : S → ℕ) (k : Serves measure) where
    pub send_all :
        (fuel : ℕ) (text : Bytes) (s : S)
        → length text + measure s < fuel
        → (s' : S) × (send write fuel text s ≡ some (true, s')) × Writes write s text s'
    unfolding send
    send_all fuel text s f =
        let (out, done, sent) = writen_total write measure fuel text s k.at_most k.settles f in
        whole out done sent
      where
        whole :
            (out : Option ℕ × S)
            → writen write fuel text s ≡ some out
            → IsSent write text 0 s out
            → (s' : S) × (send write fuel text s ≡ some (true, s')) × Writes write s text s'
        whole (some n, s') done (count, ws) = (s', rw (done, send) (ground (arith, count)), ws)
        whole (none, s') done (front, back, offered, mid, split, ws, broke) =
            absurd (k.unbroken offered mid s' broke)

    pub send_both_all :
        (fuel : ℕ) (header body : Bytes) (s : S)
        → length (header ++ body) + measure s < fuel
        → (s' : S) × (send_both write fuel header body s ≡ some (analysis_success, s'))
          × Writes write s (header ++ body) s'
    unfolding send_both
    send_both_all fuel header body s f =
        let (mid, first, taken) =
          send_all fuel header s (omega (arith, length-append header body)) in
        let (s', second, rest) = send_all fuel body mid (
          omega (arith, length-append header body, measure-Writes write measure k.settles taken)) in
        (s', rw (first, second, send_both) refl, Writes-append taken rest)

-- How the answer to a GET ends, and the bytes that it puts on the wire: the header and st_size bytes
-- of the mapped file; the header alone where the file cannot be mapped, which is a success only for
-- an empty file; the error header alone where there is no file; and nothing where the behaviour is
-- undefined, since no type can be read or the header overruns its array.
abbrev pub mapped_outcome : Bytes → ℕ → Option (ℕ → ℕ) → AnalysisFlag × Bytes
mapped_outcome header size (some memory) = (analysis_success, header ++ read_memory size memory)
mapped_outcome header zero none = (analysis_success, header)
mapped_outcome header (suc size) none = (analysis_error, header)

abbrev pub fitting_outcome : Bool → Bytes → ℕ → Option (ℕ → ℕ) → AnalysisFlag × Bytes
fitting_outcome true header size memory = mapped_outcome header size memory
fitting_outcome false header size memory = (analysis_undefined, [])

abbrev pub found_outcome : Bool → ℕ → Option Bytes → Option (ℕ → ℕ) → AnalysisFlag × Bytes
found_outcome keep size none memory = (analysis_undefined, [])
found_outcome keep size (some filetype) memory =
    let header = get_header keep filetype size in
    fitting_outcome (ltb (length header) max_buff) header size memory

abbrev pub outcome : Files → Bool → Bytes → Option ℕ → AnalysisFlag × Bytes
outcome files keep name none = (analysis_error, error_header 404 (codes "Not Found!"))
outcome files keep name (some size) =
    found_outcome keep size (files.read_type name) (files.mapped name size)

abbrev pub reply : Files → Bool → Bytes → Option ℕ → Bytes
reply files keep name stat = (outcome files keep name stat).1

abbrev pub served : Files → Bool → Bytes → Option ℕ → AnalysisFlag
served files keep name stat = (outcome files keep name stat).0

module _ {S : Type 0} (write : Bytes → S → WriteResult × S) (measure : S → ℕ)
    (k : Serves write measure) (fuel : ℕ) where
  send_failing_all :
      (text : Bytes) (s : S)
      → length text + measure s < fuel
      → (s' : S) × (send_failing write fuel text s ≡ some (analysis_error, s'))
        × Writes write s text s'
  unfolding send_failing
  send_failing_all text s f =
      let (s', e, ws) = send_all write measure k fuel text s f in
      (s', rw (e, send_failing) refl, ws)

  send_mapped_all :
      (header : Bytes) (size : ℕ) (memory : Option (ℕ → ℕ)) (s : S)
      → let (flag, bytes) = mapped_outcome header size memory in
        length bytes + measure s < fuel
        → (s' : S) × (send_mapped write fuel header size memory s ≡ some (flag, s'))
          × Writes write s bytes s'
  unfolding send_mapped
  send_mapped_all header size (some memory) s f =
      send_both_all write measure k fuel header (read_memory size memory) s f
  send_mapped_all header zero none s f =
      let (s', e, ws) = send_both_all write measure k fuel header [] s (rw (append-nil header) f) in
      (s', e, subst (λ x. Writes write s x s') (append-nil header) ws)
  send_mapped_all header (suc size) none s f = send_failing_all header s f

  send_fitting_all :
      (fits : Bool) (header : Bytes) (size : ℕ) (memory : Option (ℕ → ℕ)) (s : S)
      → let (flag, bytes) = fitting_outcome fits header size memory in
        length bytes + measure s < fuel
        → (s' : S) × (send_fitting write fuel fits header size memory s ≡ some (flag, s'))
          × Writes write s bytes s'
  unfolding send_fitting
  send_fitting_all true header size memory s f = send_mapped_all header size memory s f
  send_fitting_all false header size memory s f = (s, refl, stop)

  answer_found_all :
      (keep : Bool) (size : ℕ) (filetype : Option Bytes) (memory : Option (ℕ → ℕ)) (s : S)
      → let (flag, bytes) = found_outcome keep size filetype memory in
        length bytes + measure s < fuel
        → (s' : S) × (answer_found write fuel keep size filetype memory s ≡ some (flag, s'))
          × Writes write s bytes s'
  unfolding answer_found
  answer_found_all keep size none memory s f = (s, refl, stop)
  answer_found_all keep size (some filetype) memory s f =
      let header = get_header keep filetype size in
      send_fitting_all (ltb (length header) max_buff) header size memory s f

  pub answer_get_all :
      (files : Files) (keep : Bool) (name : Bytes) (stat : Option ℕ) (s : S)
      → length (reply files keep name stat) + measure s < fuel
      → (s' : S) × (answer_get write fuel files keep name stat s
          ≡ some (served files keep name stat, s'))
        × Writes write s (reply files keep name stat) s'
  unfolding answer_get handle_error
  answer_get_all files keep name none s f =
      send_failing_all (error_header 404 (codes "Not Found!")) s f
  answer_get_all files keep name (some size) s f =
      answer_found_all keep size (files.read_type name) (files.mapped name size) s f
