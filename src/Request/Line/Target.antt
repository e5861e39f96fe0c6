-- ===== src/Request/Line/Target.antt =====
-- The request line's parser on a whole request line: method, target and version, with one blank
-- between them.
use high_performance_server.Prelude.{
  ℕ, zero, suc, ◌≤◌, ◌<◌, Bool, true, false, Option, none, some, [], ◌∷◌, ◌++◌, leb, ◌==◌,
  if◌then◌else◌, Bytes, codes, same, length, take, find_byte, ◌≡◌, ◌≢◌, refl, ◌∙◌, inl, inr, arith,
  Bool-cases, Avoids, find_byte-append, take-append, drop-append_cons,
}
use native.Mathlib.Nat.{zero-add}
use high_performance_server.Request.{
  Request, MethodCode, unknown, get_method, http_10, http_11, parse_headers,
}
use high_performance_server.Request.Line.Outcome.{remove_line-eq-drop, drop_all}
use high_performance_server.Request.Line.{
  uri_error, uri_success, find_slash, parse_version, cut_query, parse_target, check_method, resolve,
  parse_method, take_line, parse_request_line,
}

-- "HTTP/1." with the minor digit `v`
abbrev pub version : ℕ → Bytes
version v = b'H' ∷ b'T' ∷ b'T' ∷ b'P' ∷ b'/' ∷ b'1' ∷ b'.' ∷ v ∷ []

-- the request line without its "\r\n"
abbrev pub http_line : Bytes → Bytes → ℕ → Bytes
http_line w t v = w ++ b' ' ∷ (t ++ b' ' ∷ version v)

-- The file that the target names: `old` stays for a target with no query that is not "/".
abbrev pub file_of : Bytes → Bytes → Bytes
file_of t old =
    if same t (codes "/")
    then codes "index.html"
    else elim (find_byte b'?' t) [ none ↦ old | some q ↦ take q t ]

take_line_lem :
    (r : Request) (line rest : Bytes)
    → r.now_read_pos ≡ 0
    → r.content ≡ line ++ b'\r' ∷ rest
    → Avoids b'\r' line
    → parse_request_line r ≡ parse_method line (find_byte b' ' line) (record r { content = rest })
unfolding parse_request_line take_line
take_line_lem r line rest p e h =
    rw (p, e, find_byte-append b'\r' line rest h)
      (rw (
        remove_line-eq-drop,
        zero-add,
        take-append line (b'\r' ∷ rest),
        drop-append_cons line rest b'\r',
      ))

parse_method_lem :
    (r : Request) (w tail : Bytes) {m : MethodCode}
    → Avoids b' ' w
    → get_method w ≡ m
    → m ≢ unknown
    → let line = w ++ b' ' ∷ tail in
      parse_method line (find_byte b' ' line) r
      ≡ parse_target tail (find_byte b' ' tail) (record r { method = m })
unfolding parse_method
parse_method_lem r w tail {m} h e ne =
    rw
      (find_byte-append b' ' w tail h, take-append w (b' ' ∷ tail), drop-append_cons w tail b' ', e)
      (known m ne)
  where
    known :
        (m : MethodCode)
        → m ≢ unknown
        → check_method m tail (record r { method = m })
          ≡ parse_target tail (find_byte b' ' tail) (record r { method = m })
    known unknown n = absurd (n refl)
    known _ n = unfold check_method in refl

resolve_lem :
    (r : Request) (t tail : Bytes) (pos : Option ℕ) {k : ℕ}
    → find_byte b'/' t ≡ some k
    → resolve t tail pos r ≡ parse_version tail pos (record r { file_name = file_of t r.file_name })
unfolding resolve cut_query
resolve_lem r t tail pos e = elim (Bool-cases (same t (codes "/"))) [
  | inl root ↦ rw root
  | inr other ↦ rw (other, e) (query (find_byte b'?' t))
]
  where
    query :
        (o : Option ℕ)
        → parse_version tail pos (elim o [ none ↦ r | some q ↦ record r { file_name = take q t } ])
          ≡ parse_version tail pos
              (record r { file_name = elim o [ none ↦ r.file_name | some q ↦ take q t ] })
    query none = refl
    query (some q) = refl

parse_target_lem :
    (r : Request) (t tail : Bytes) {k : ℕ}
    → Avoids b' ' t
    → find_byte b'/' t ≡ some k
    → let line = t ++ b' ' ∷ tail in
      parse_target line (find_byte b' ' line) r
      ≡ parse_version tail (some (length t)) (record r { file_name = file_of t r.file_name })
unfolding parse_target
parse_target_lem r t tail h e = rw (find_byte-append b' ' t tail h) (
    rw (take-append t (b' ' ∷ tail), drop-append_cons t tail b' ')
      (resolve_lem r t tail (some (length t)) e))

find_slash-version :
    (v n : ℕ)
    → (v == b'/') ≡ false
    → find_slash (version v) (some n) ≡ (if leb n 4 then some 4 else none)
unfolding find_slash find_byte
find_slash-version v zero h = refl
find_slash-version v (suc zero) h = refl
find_slash-version v (suc (suc zero)) h = refl
find_slash-version v (suc (suc (suc zero))) h = refl
find_slash-version v (suc (suc (suc (suc zero)))) h = refl
find_slash-version v (suc (suc (suc (suc (suc zero))))) h = ground arith
find_slash-version v (suc (suc (suc (suc (suc (suc zero)))))) h = ground arith
find_slash-version v (suc (suc (suc (suc (suc (suc (suc zero))))))) h = ground arith
find_slash-version v (suc (suc (suc (suc (suc (suc (suc (suc n)))))))) h =
    ground (arith, drop_all n [])

-- The shape of a request that holds exactly one whole request line, in front of `rest`.
pub record IsLine (r : Request) (w t : Bytes) (v : ℕ) (rest : Bytes) (m : MethodCode) : Type 0 where
  pub from_start : r.now_read_pos ≡ 0
  pub content : r.content ≡ http_line w t v ++ b'\r' ∷ rest
  pub one_line : Avoids b'\r' (http_line w t v)
  pub method_word : Avoids b' ' w
  pub method_code : get_method w ≡ m
  pub method_known : m ≢ unknown
  pub target_word : Avoids b' ' t
  pub target_slash : (k : ℕ) × (find_byte b'/' t ≡ some k)

-- the request with the line taken off, its method stored and its file named
abbrev pub resolved : Request → Bytes → Bytes → MethodCode → Request
resolved r t rest m = record r { content = rest; method = m; file_name = file_of t r.file_name }

to_version :
    {r : Request} {w t rest : Bytes} {v : ℕ} {m : MethodCode}
    → IsLine r w t v rest m
    → parse_request_line r ≡ parse_version (version v) (some (length t)) (resolved r t rest m)
to_version {r} {w} {t} {rest} {v} {m} l =
    let taken = record r { content = rest } in
    take_line_lem r (http_line w t v) rest l.from_start l.content l.one_line
    ∙ parse_method_lem taken w (t ++ b' ' ∷ version v) l.method_word l.method_code l.method_known
    ∙ parse_target_lem (record taken { method = m }) t (version v) l.target_word l.target_slash.1

abbrev pub digit : Bool → ℕ
digit ten = if ten then b'0' else b'1'

parse_version_short :
    (ten : Bool) (n : ℕ) (s : Request)
    → n ≤ 4
    → parse_version (version (digit ten)) (some n) s ≡ (
      uri_success,
      record s { http_version = if ten then http_10 else http_11; state = parse_headers },
    )
unfolding parse_version same
parse_version_short true n s h = rw (find_slash-version b'0' n refl, parse_version) (ground arith)
parse_version_short false n s h = rw (find_slash-version b'1' n refl, parse_version) (ground arith)

parse_version_long :
    (v n : ℕ) (s : Request)
    → (v == b'/') ≡ false
    → 4 < n
    → parse_version (version v) (some n) s ≡ (uri_error, s)
unfolding parse_version
parse_version_long v n s ne h = rw (find_slash-version v n ne, parse_version) (ground arith)

-- A request line with a known method, a target of at most four bytes that holds a '/', and the
-- version HTTP/1.0 or HTTP/1.1 is accepted: the method code, the file and the version are stored,
-- the state becomes the header state, and what stood behind the '\r' is the new content.
pub parse_request_line_short :
    {r : Request} {w t rest : Bytes} {m : MethodCode} (ten : Bool)
    → IsLine r w t (digit ten) rest m
    → length t ≤ 4
    → parse_request_line r ≡ (
      uri_success,
      record (resolved r t rest m) {
        http_version = if ten then http_10 else http_11;
        state = parse_headers;
      },
    )
parse_request_line_short {r} {t = t} {rest} {m} ten l h =
    to_version l ∙ parse_version_short ten (length t) (resolved r t rest m) h

-- The same request line with a target of more than four bytes is refused: the search for the '/'
-- of the version starts at the target's length, which is behind it.
pub parse_request_line_long :
    {r : Request} {w t rest : Bytes} {m : MethodCode} (v : ℕ)
    → IsLine r w t v rest m
    → (v == b'/') ≡ false
    → 4 < length t
    → parse_request_line r ≡ (uri_error, resolved r t rest m)
parse_request_line_long {r} {t = t} {rest} {m} v l n h =
    to_version l ∙ parse_version_long v (length t) (resolved r t rest m) n h
