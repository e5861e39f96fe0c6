-- ===== src/Request/Line/Outcome.antt =====
-- What every outcome of the request line's parser leaves of the request.
use high_performance_server.Prelude.{
  ℕ, zero, suc, ◌+◌, ◌≤◌, Option, none, some, [], ◌∷◌, Bytes, codes, length, take, drop, find_byte,
  find_from, until, past, ◌≡◌, ◌≢◌, ◌⊎◌, inl, inr, refl, arith,
}
use high_performance_server.Request.{Request, MethodCode, unknown, get_method, unset, parse_headers}
use high_performance_server.Request.Line.{
  LineFlag, uri_again, uri_error, uri_success, parse_version, cut_query, parse_target, check_method,
  resolve, parse_method, remove_line, take_line, parse_request_line,
}

-- The members that the request line's parser never writes.
abbrev Keeps : Request → Request → Type 0
Keeps r r' =
    (r'.headers ≡ r.headers)
    × (r'.h_state ≡ r.h_state)
    × (r'.keep_alive ≡ r.keep_alive)
    × (r'.timer ≡ r.timer)
    × (r'.read_times ≡ r.read_times)
    × (r'.fd ≡ r.fd)
    × (r'.now_read_pos ≡ r.now_read_pos)

-- What a returned flag says of the request `r'` that `r` has become.
abbrev pub Outcome : LineFlag → Request → Request → Type 0
Outcome uri_again r r' = r' ≡ r
Outcome uri_error r r' = (r'.state ≡ r.state) × Keeps r r'
Outcome uri_success r r' = (r'.state ≡ parse_headers) × (r'.http_version ≢ unset) × Keeps r r'

parse_version-Outcome :
    (line : Bytes) (pos : Option ℕ) (r : Request)
    → Outcome (parse_version line pos r).0 r (parse_version line pos r).1
      × ((parse_version line pos r).1.content ≡ r.content)
      × ((parse_version line pos r).1.method ≡ r.method)
      × ((parse_version line pos r).0 ≢ uri_again)
unfolding parse_version
parse_version-Outcome line pos r = ground arith

-- The lemma for a step that the ones above it call: the content and the method stay.
abbrev Stays : Request → LineFlag × Request → Type 0
Stays r (f, r') =
    Outcome f r r' × (r'.content ≡ r.content) × (r'.method ≡ r.method) × (f ≢ uri_again)

parse_target-Stays :
    (line : Bytes) (pos : Option ℕ) (r : Request) → Stays r (parse_target line pos r)
unfolding parse_target resolve cut_query
parse_target-Stays line pos r = ground (
  arith,
  parse_version-Outcome (past pos line) pos (record r { file_name = codes "index.html" }),
  parse_version-Outcome (past pos line) pos (cut_query (until pos line) r),
)

abbrev Taken : Request → LineFlag × Request → Type 0
Taken r (f, r') =
    Outcome f r r'
    × (r'.content ≡ r.content)
    × (f ≢ uri_again)
    × (f ≡ uri_success → r'.method ≢ unknown)

check_method-Taken :
    (code : MethodCode) (line : Bytes) (r : Request)
    → r.method ≡ code
    → Taken r (check_method code line r)
unfolding check_method
check_method-Taken unknown line r e = ground arith
check_method-Taken _ line r e = ground (arith, parse_target-Stays line (find_byte b' ' line) r)

parse_method-Taken :
    (line : Bytes) (pos : Option ℕ) (r : Request) → Taken r (parse_method line pos r)
unfolding parse_method
parse_method-Taken line none r = ground arith
parse_method-Taken line (some pos) r =
    let code = get_method (take pos line) in
    ground (arith, check_method-Taken code (drop (pos + 1) line) (record r { method = code }) refl)

pub drop_all : (n : ℕ) (s : Bytes) → length s ≤ n → drop n s ≡ []
drop_all zero [] h = refl
drop_all (suc n) [] h = refl
drop_all zero (x ∷ s) h = elim h [ ]
drop_all (suc n) (x ∷ s) h = drop_all n s (omega arith)

pub remove_line-eq-drop : (p : ℕ) (s : Bytes) → remove_line p s ≡ drop (p + 1) s
unfolding remove_line
remove_line-eq-drop p s = ground (arith, drop_all (p + 1) s)

abbrev Result : Option ℕ → Request → LineFlag × Request → Type 0
Result o r (f, r') =
    Outcome f r r'
    × ((f ≢ uri_success) ⊎ (r'.method ≢ unknown))
    × (((o ≡ none) × (f ≡ uri_again))
        ⊎ ((p : ℕ) × (o ≡ some p) × (f ≢ uri_again) × (r'.content ≡ drop (p + 1) r.content)))

known_or : {P : Type 0} (f : LineFlag) → (f ≡ uri_success → P) → (f ≢ uri_success) ⊎ P
known_or uri_success h = inr (h refl)
known_or uri_again h = inl (λ e. cc)
known_or uri_error h = inl (λ e. cc)

take_line-Result : (o : Option ℕ) (r : Request) → Result o r (take_line o r)
unfolding take_line
take_line-Result none r = (refl, inl (λ e. cc), inl (refl, refl))
take_line-Result (some p) r =
    let line = take p r.content in
    let r₁ = record r { content = remove_line p r.content } in
    let (o, kept, taken, known) = parse_method-Taken line (find_byte b' ' line) r₁ in
    let rest : r₁.content ≡ drop (p + 1) r.content = remove_line-eq-drop p r.content in
    (ground arith, known_or _ known, inr (p, refl, taken, ground arith))

-- Whatever the bytes received, the request line's parser asks for more exactly when no '\r'
-- stands from the read position on, and the request is then unchanged; otherwise it takes the
-- bytes up to and with the first '\r' off the content. With the flag for success the state is the
-- header state, the version is set and the method is a known one; with the flag for an error the
-- state is unchanged. Headers, scanner state, timer, counters and descriptor never change.
pub parse_request_line-Outcome :
    (r : Request)
    → let o = find_from b'\r' r.content r.now_read_pos in
      let (f, r') = parse_request_line r in
      Outcome f r r'
      × ((f ≢ uri_success) ⊎ (r'.method ≢ unknown))
      × (((o ≡ none) × (f ≡ uri_again))
          ⊎ ((p : ℕ) × (o ≡ some p) × (f ≢ uri_again) × (r'.content ≡ drop (p + 1) r.content)))
unfolding parse_request_line
parse_request_line-Outcome r = take_line-Result (find_from b'\r' r.content r.now_read_pos) r
