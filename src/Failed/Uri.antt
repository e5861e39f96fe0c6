-- ===== src/Failed/Uri.antt =====
-- Which request lines the old `parse_uri` takes.
use high_performance_server.Prelude.{
  ℕ, suc, ◌+◌, ◌-◌, ltb, length, Bool, true, false, if◌then◌else◌, none, some, [], ◌∷◌, ◌++◌, Bytes,
  codes, ◌≡◌, refl, ap, ◌∙◌, arith, same, leb, shift, later, find_byte, find_from, drop, until,
  Avoids, find_byte-append, take-append, drop-append, drop-append_cons, length-append,
}
use native.Mathlib.Nat.{zero-add}
use high_performance_server.Request.{Request, post, http_10, http_11, parse_headers}
use high_performance_server.Request.Line.{uri_error, uri_success, parse_version, find_slash}
use high_performance_server.Request.Line.Outcome.{remove_line-eq-drop}
use high_performance_server.Request.Line.Target.{digit, version}
use high_performance_server.Failed.{
  find_word, read_line, read_method, read_name, name_file, parse_uri_line, get_or_post,
}

-- the request line in front of its '\r' and what follows
pub record HasLine (r : Request) (line rest : Bytes) : Type 0 where
  pub from_start : r.now_read_pos ≡ 0
  pub content : r.content ≡ line ++ b'\r' ∷ rest
  pub one_line : Avoids b'\r' line

to_method :
    (r : Request) (line rest : Bytes)
    → HasLine r line rest
    → parse_uri_line r
      ≡ read_method line
          (get_or_post (find_word (codes "GET") line) (find_word (codes "POST") line))
          (record r { content = rest })
unfolding parse_uri_line read_line
to_method r line rest h =
    rw (h.from_start, h.content, find_byte-append b'\r' line rest h.one_line)
      (rw (
        remove_line-eq-drop,
        zero-add,
        take-append line (b'\r' ∷ rest),
        drop-append_cons line rest b'\r',
      ))

-- A line that begins with "GET" and holds no "POST" is refused: "GET" is looked for, but counts
-- only where it stands behind the first byte.
pub parse_uri_line_get :
    (r : Request) (t rest : Bytes)
    → HasLine r (codes "GET" ++ t) rest
    → find_word (codes "POST") (codes "GET" ++ t) ≡ none
    → parse_uri_line r ≡ (uri_error, record r { content = rest })
unfolding find_word
parse_uri_line_get r t rest h e =
    to_method r _ rest h
    ∙ ap
        (λ o. read_method (codes "GET" ++ t) (get_or_post (some 0) o) (record r { content = rest }))
        e

drop-add : (w ys : Bytes) (k : ℕ) → drop (length w + k) (w ++ ys) ≡ drop k ys
drop-add [] ys k = ground arith
drop-add (x ∷ w) ys k =
    ap (λ n. drop n (x ∷ w ++ ys)) {y = suc (length w + k)} (omega arith) ∙ drop-add w ys k

slash_at :
    (w : Bytes) (v : ℕ) → find_from b'/' (w ++ b' ' ∷ version v) (length w) ≡ some (length w + 5)
unfolding find_byte
slash_at w v = rw (drop-append w (b' ' ∷ version v)) refl

long_enough : (w : Bytes) (v : ℕ) → leb (length (w ++ b' ' ∷ version v) - (length w + 5)) 3 ≡ false
long_enough w v = ground (arith, length-append w (b' ' ∷ version v))

digits_at :
    (w : Bytes) (v : ℕ) → drop (length w + 5 + 1) (w ++ b' ' ∷ version v) ≡ b'1' ∷ b'.' ∷ v ∷ []
digits_at w v =
    ap (λ n. drop n (w ++ b' ' ∷ version v)) {y = length w + 6} (omega arith)
    ∙ drop-add w (b' ' ∷ version v) 6

-- the version behind the blank at the end of `w`
parse_version_lem :
    (w : Bytes) (ten : Bool) (r : Request)
    → parse_version (w ++ b' ' ∷ version (digit ten)) (some (length w)) r ≡ (
      uri_success,
      record r { http_version = if ten then http_10 else http_11; state = parse_headers },
    )
unfolding parse_version find_slash same
parse_version_lem w true r =
    rw (slash_at w b'0', parse_version, find_slash, long_enough w b'0', digits_at w b'0') refl
parse_version_lem w false r =
    rw (slash_at w b'1', parse_version, find_slash, long_enough w b'1', digits_at w b'1') refl

named :
    (name tail : Bytes) (r : Request)
    → name_file (codes "POST /" ++ name ++ tail) 5 (length (codes "POST /" ++ name)) r ≡ record r {
      file_name =
          if ltb 0 (length name) then until (find_byte b'?' name) name else codes "index.html";
    }
unfolding name_file
named [] tail r = refl
named (x ∷ name) tail r = rw (inside, name_file, take-append name tail) (ground arith)
  where
    inside : suc (suc (suc (suc (suc (suc (suc (length name))))))) - 5 - 1 ≡ suc (length name)
    inside = omega arith

-- A "POST" request line with a target of any length behind its '/', without blanks, with no "GET"
-- in it, and with the version HTTP/1.0 or HTTP/1.1 is accepted: the file is the target up to a
-- '?', or "index.html" for none, and what stood behind the '\r' is the new content.
pub parse_uri_line_post :
    (r : Request) (name rest : Bytes) (ten : Bool)
    → let line = (codes "POST /" ++ name) ++ b' ' ∷ version (digit ten) in
      HasLine r line rest
      → Avoids b' ' name
      → find_word (codes "GET") line ≡ none
      → parse_uri_line r ≡ (
        uri_success,
        record r {
          content = rest;
          method = post;
          file_name =
              if ltb 0 (length name) then until (find_byte b'?' name) name else codes "index.html";
          http_version = if ten then http_10 else http_11;
          state = parse_headers;
        },
      )
unfolding find_word find_byte
parse_uri_line_post r name rest ten h a e =
    let w = codes "POST /" ++ name in
    let line = w ++ b' ' ∷ version (digit ten) in
    let tail = b' ' ∷ version (digit ten) in
    let r₁ = record r { content = rest; method = post } in
    let blank : find_from b' ' line 5 ≡ some (length w) =
      ap (λ o. shift 5 (later o)) (find_byte-append b' ' name (version (digit ten)) a)
      ∙ ap some (omega arith) in
    to_method r line rest h
    ∙ ap (λ o. read_method line (get_or_post o (some 0)) (record r { content = rest })) e
    ∙ ap (λ o. read_name line 5 o r₁) blank
    ∙ ap (λ q. parse_version line (some (length w)) q) (named name tail r₁)
    ∙ parse_version_lem w ten _
