-- ===== src/Failed/Cgi.antt =====
-- `accept_request`, the pages and `get_line` of history_version/failed (include/request_data.cpp
-- and include/util.cpp). `recv` takes a byte, or shows it with the flag; `send` is offered a text.
-- No result of `send` is looked at.
pub mod Refused
use high_performance_server.Prelude.{
  ℕ, zero, suc, ◌+◌, ◌-◌, ◌==◌, ltb, leb, if◌then◌else◌, Bool, true, false, not, ◌&&◌, ◌||◌, Option,
  none, some, List, [], ◌∷◌, ◌++◌, Bytes, codes, same, length, take, drop,
}
use high_performance_server.Util.Line.{or_else}

abbrev pub is_space : ℕ → Bool
is_space c = c == b' ' || (leb 9 c && leb c 13)

-- the letters without their case, as `strcasecmp` compares them
abbrev pub lower : Bytes → Bytes
lower [] = []
lower (c ∷ cs) = (if leb b'A' c && leb c b'Z' then c + 32 else c) ∷ lower cs

-- `strcasecmp(s, t) == 0`
abbrev pub same_word : Bytes → Bytes → Bool
same_word s t = same (lower s) (lower t)

-- A char array as a C string: the bytes in front of the first zero.
unfoldable pub text_of : Bytes → Bytes
text_of [] = []
text_of (c ∷ cs) = if c == 0 then [] else c ∷ text_of cs

-- `while (!ISspace(buf[i]) && i < limit)`: the bytes copied
unfoldable pub take_word : ℕ → Bytes → Bytes
take_word zero cs = []
take_word (suc limit) [] = []
take_word (suc limit) (c ∷ cs) = if is_space c then [] else c ∷ take_word limit cs

-- `while (ISspace(buf[j]) && j < limit)`: how many bytes are passed
unfoldable pub skip_spaces : ℕ → Bytes → ℕ
skip_spaces zero cs = 0
skip_spaces (suc limit) [] = 0
skip_spaces (suc limit) (c ∷ cs) = if is_space c then suc (skip_spaces limit cs) else 0

-- the URL in front of its '?', and what follows it
unfoldable pub split_query : Bytes → Bytes × Option Bytes
split_query [] = ([], none)
split_query (c ∷ cs) =
    let (url, query) = split_query cs in if c == b'?' then ([], some cs) else (c ∷ url, query)

abbrev pub ends_slash : Bytes → Bool
ends_slash [] = false
ends_slash (c ∷ []) = c == b'/'
ends_slash (c ∷ d ∷ cs) = ends_slash (d ∷ cs)

-- `SERVER_STRING` and the texts of the pages, one for each `send`
abbrev pub server_string : Bytes
server_string = codes "Server name"

abbrev pub not_found_page : List Bytes
not_found_page =
    codes "HTTP/1.0 404 NOT FOUND\r\n"
    ∷ server_string
    ∷ codes "Content-Type:html\r\n"
    ∷ codes "\r\n"
    ∷ codes "<HTML><TITLE>Not Found</TITLE>\r\n"
    ∷ codes "<BODY><P>The src could not fulfill\r\n"
    ∷ codes "your request because the resource specified\r\n"
    ∷ codes "is unavailable or nonexistent.\r\n"
    ∷ codes "</BODY></HTML>\r\n"
    ∷ []

abbrev pub unimplemented_page : List Bytes
unimplemented_page =
    codes "HTTP/1.0 501 Method Not Implemented\r\n"
    ∷ server_string
    ∷ codes "Content-Type: text/html\r\n"
    ∷ codes "\r\n"
    ∷ codes "<HTML><HEAD><TITLE>Method Not Implemented\r\n"
    ∷ codes "</TITLE></HEAD>\r\n"
    ∷ codes "<BODY><P>HTTP request method not supported.\r\n"
    ∷ codes "</BODY></HTML>\r\n"
    ∷ []

abbrev pub cannot_execute_page : List Bytes
cannot_execute_page =
    codes "HTTP/1.0 500 Internal Server Error\r\n"
    ∷ codes "Content-type:text/html\r\n"
    ∷ codes "\r\n"
    ∷ codes "<P>Error prohibited CGI execution.\r\n"
    ∷ []

abbrev pub headers_page : List Bytes
headers_page =
    codes "HTTP/1.0 200 OK\r\n"
    ∷ server_string
    ∷ codes "Content-Type: text/html\r\n"
    ∷ codes "\r\n"
    ∷ []

abbrev pub bad_request_page : List Bytes
bad_request_page =
    codes "HTTP/1.0 400 BAD REQUEST\r\r"
    ∷ codes "Content-type:text/html\r\n"
    ∷ codes "\r\n"
    ∷ codes "<P>Your browser sent a bad request, "
    ∷ codes "such as a POST without a Content-Length.\r\n"
    ∷ []

-- `sprintf(buf, text)`: the text and a zero over what the array held
abbrev pub print_over : Bytes → Bytes → Bytes
print_over text buf = text ++ 0 ∷ drop (length text + 1) buf

module _ {S : Type 0} (send : Bytes → S → S) where
  -- the texts one behind the other
  unfoldable pub send_all : List Bytes → S → S
  send_all [] s = s
  send_all (t ∷ ts) s = send_all ts (send t s)

  -- the same where the whole array is sent each time
  unfoldable pub send_arrays : Bytes → List Bytes → S → S
  send_arrays buf [] s = s
  send_arrays buf (t ∷ ts) s = send_arrays (print_over t buf) ts (send (print_over t buf) s)

  -- `bad_request`; the array is not initialised
  unfoldable pub bad_request : Bytes → S → S
  unfolding send_arrays
  bad_request buf s = send_arrays buf bad_request_page s

  unfoldable pub not_found : S → S
  unfolding send_all
  not_found s = send_all not_found_page s

  unfoldable pub unimplemented : S → S
  unfolding send_all
  unimplemented s = send_all unimplemented_page s

  unfoldable pub cannot_execute : S → S
  unfolding send_all
  cannot_execute s = send_all cannot_execute_page s

  unfoldable pub headers : S → S
  unfolding send_all
  headers s = send_all headers_page s

module _ {S : Type 0} (recv : Bool → S → Option ℕ × S) where
  -- the byte stored for a '\r', by what MSG_PEEK shows
  unfoldable pub line_end : Option ℕ × S → ℕ × S
  line_end (none, s) = (b'\n', s)
  line_end (some p, s) =
      if p == b'\n' then (or_else (recv false s).0 p, (recv false s).1) else (b'\n', s)

  -- the bytes stored in one round
  unfoldable pub store_byte : Option ℕ × S → Bytes × S
  unfolding line_end
  store_byte (none, s) = ([], s)
  store_byte (some c, s) =
      if c == b'\r' then (let (x, s') = line_end (recv true s) in (x ∷ [], s')) else (c ∷ [], s)

  -- The loop sets `c` to '\n' at the end of each round.
  unfoldable pub old_line_loop : ℕ → ℕ → Bytes → ℕ → S → Option (Bytes × S)
  unfolding store_byte
  old_line_loop zero size buf c s = none
  old_line_loop (suc fuel) size buf c s = elim (ltb (length buf) (size - 1) && not (c == b'\n')) [
    | false ↦ some (buf, s)
    | true ↦
        let (stored, s') = store_byte (recv false s) in
        old_line_loop fuel size (buf ++ stored) b'\n' s'
  ]

  -- the old `get_line`
  unfoldable pub old_get_line : ℕ → ℕ → S → Option (Bytes × S)
  unfolding old_line_loop
  old_get_line fuel size s = old_line_loop fuel size [] 0 s

-- What the file system says: whether a path is a directory and executable, and a file's bytes.
pub record Disk : Type 0 where
  pub stat : Bytes → Option (Bool × Bool)
  pub fopen : Bytes → Option Bytes

-- `fgets(buf, 1024, file)`: up to 1023 bytes, up to and with the first '\n'; the flag says whether
-- the end of the file was met, and the rest of the file follows.
unfoldable pub fgets : ℕ → Bytes → Bytes × Bool × Bytes
fgets zero file = ([], false, file)
fgets (suc n) [] = ([], true, [])
fgets (suc n) (c ∷ cs) =
    let (line, ended, rest) = fgets n cs in
    if c == b'\n' then (c ∷ [], false, cs) else (c ∷ line, ended, rest)

module _ {S : Type 0} (recv : Bool → S → Option ℕ × S) (send : Bytes → S → S) (close : S → S) where
  -- `cat`: the array is sent whole, while the end of the file was not met by the last `fgets`
  unfoldable pub cat : ℕ → Bytes → Bytes → S → Option S
  unfolding fgets
  cat zero buf file s = none
  cat (suc fuel) buf file s =
      let (line, ended, rest) = fgets 1023 file in
      elim ended [
        | true ↦ some s
        | false ↦ cat fuel (print_over line buf) rest (send (print_over line buf) s)
      ]

  -- `while (numchars > 0 && strcmp(stop, buf) != 0) numchars = get_line(...)`
  unfoldable pub discard : ℕ → Bytes → Bytes → S → Option S
  unfolding old_get_line
  discard zero stop buf s = none
  discard (suc fuel) stop buf s = elim (same buf stop) [
    | true ↦ some s
    | false ↦ elim (old_get_line recv fuel 1024 s) [
      | none ↦ none
      | some ([], s') ↦ some s'
      | some (c ∷ cs, s') ↦ discard fuel stop (c ∷ cs) s'
    ]
  ]

  abbrev pub then_do : Option S → (S → Option S) → Option S
  then_do none f = none
  then_do (some s) f = f s

  -- `serv_file`, where `fclose` of a null pointer is undefined behaviour: `none`
  unfoldable pub serv_file : ℕ → Disk → Bytes → S → Option S
  unfolding discard cat headers
  serv_file fuel disk path s = then_do (discard fuel (codes "\n") (codes "A") s) (λ s₁.
      elim (disk.fopen path) [ none ↦ none | some file ↦ cat fuel [] file (headers send s₁) ])

  -- the path of a file that is there; `execute_cgi` does nothing
  unfoldable pub serve_path : ℕ → Disk → Bool → Bytes → Bool × Bool → S → Option S
  unfolding serv_file
  serve_path fuel disk cgi path (directory, executable) s =
      let path' = if directory then path ++ codes "/index.html" else path in
      then_do (if cgi || executable then some s else serv_file fuel disk path' s)
        (λ s'. some (close s'))

  unfoldable pub serve_url : ℕ → Disk → Bytes → ℕ → Bool → Bytes → S → Option S
  unfolding serve_path discard not_found
  serve_url fuel disk buf numchars cgi url s =
      let bare = codes "htdocs" ++ url in
      let path = if ends_slash bare then bare ++ codes "index.html" else bare in
      elim (disk.stat path) [
        | none ↦
            then_do (if numchars == 0 then some s else discard fuel (codes "\r\n") buf s)
              (λ s'. some (not_found send s'))
        | some kind ↦ serve_path fuel disk cgi path kind s
      ]

  abbrev pub is_given : Option Bytes → Bool
  is_given none = false
  is_given (some q) = true

  -- behind the test of the method; `numchars - 1` is a `size_t`, and `i` bytes were the method
  unfoldable pub serve_method : ℕ → Disk → Bytes → ℕ → ℕ → Bytes → S → Option S
  unfolding serve_url skip_spaces take_word split_query text_of
  serve_method fuel disk buf numchars i method s =
      let limit = if numchars == 0 then length buf else numchars - 1 in
      let j = i + skip_spaces (limit - i) (drop i buf) in
      let room = if ltb (limit - j) 1023 then limit - j else 1023 in
      let url = text_of (take_word room (drop j buf)) in
      let (bare, query) = if same_word method (codes "GET") then split_query url else (url, none) in
      serve_url fuel disk (text_of buf) numchars (same_word method (codes "POST") || is_given query)
        bare s

  -- with the line that `get_line` has stored, and the array that it lies in
  unfoldable pub serve_line : ℕ → Disk → Bytes → ℕ → S → Option S
  unfolding serve_method unimplemented take_word text_of
  serve_line fuel disk buf numchars s =
      let word = take_word 1023 buf in
      let method = text_of word in
      if not (same_word method (codes "GET")) || not (same_word method (codes "POST"))
      then some (unimplemented send s)
      else serve_method fuel disk buf numchars (length word) method s

  -- `accept_request`; the array is not initialised
  unfoldable pub accept_request : ℕ → Disk → Bytes → S → Option S
  unfolding serve_line old_get_line
  accept_request fuel disk array s = elim (old_get_line recv fuel 1024 s) [
    | none ↦ none
    | some (line, s') ↦ serve_line fuel disk (print_over line array) (length line) s'
  ]
