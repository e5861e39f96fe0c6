-- ===== src/Request/Head.antt =====
-- `requestData::parse_request_head` of src/requestData.cpp: the header scanner. Each of the local
-- positions is `none` until it is set (-1 in the source).
pub mod Safe
pub mod Fields
pub mod RoundTrip
pub mod Resume
use high_performance_server.Prelude.{
  ℕ, suc, ◌+◌, ◌-◌, Bool, true, false, ◌||◌, Option, none, some, List, [], ◌∷◌, ltb, leb, ◌==◌,
  if◌then◌else◌, Bytes, drop, range,
}
use high_performance_server.Request.{
  Request, HeadersState, h_start, h_key, h_colon, h_spaces_after_colon, h_value, h_cr, h_lf,
  h_end_cr, h_end_lf, Table, assign,
}

-- PARSE_HEADER_AGAIN, PARSE_HEADER_ERROR, PARSE_HEADER_SUCCESS
pub data HeadFlag : Type 0 where
  header_again header_error header_success : HeadFlag

-- The locals of the function, and the two members that the loop writes.
pub record Scan : Type 0 where
  pub key_start : Option ℕ
  pub key_end : Option ℕ
  pub value_start : Option ℕ
  pub value_end : Option ℕ
  pub now_read_line_begin : ℕ
  pub not_finish : Bool
  pub h_state : HeadersState
  pub headers : Table

-- What one round of the loop leads to: the next round, `return PARSE_HEADER_ERROR`, or a string
-- made from positions that are no range of the content, which is undefined behaviour.
pub data Step : Type 0 where
  running : Scan → Step
  failed : Scan → Step
  undefined : Step

-- `end - start <= 0`
abbrev pub not_behind : ℕ → Option ℕ → Bool
not_behind end none = false
not_behind end (some start) = leb end start

-- `i - value_start > 255`
abbrev pub too_long : ℕ → Option ℕ → Bool
too_long i none = ltb 255 (i + 1)
too_long i (some start) = ltb 255 (i - start)

abbrev pub is_newline : ℕ → Bool
is_newline c = c == b'\n' || c == b'\r'

-- `headers[key] = value`
abbrev pub store : Option Bytes → Option Bytes → ℕ → Scan → Step
store (some key) (some value) i s =
    running (record s { headers = assign key value s.headers; now_read_line_begin = i })
store _ _ i s = undefined

-- One round, on the byte `c` at index `i` of the content `str`: the `switch (h_state)`.
unfoldable pub step_in : HeadersState → Bytes → ℕ → ℕ → Scan → Step
step_in h_start str i c s =
    if is_newline c
    then running s
    else running (record s { h_state = h_key; key_start = some i; now_read_line_begin = i })
step_in h_key str i c s =
    if c == b':'
    then if not_behind i s.key_start
      then failed (record s { key_end = some i })
      else running (record s { key_end = some i; h_state = h_colon })
    else if is_newline c
    then failed s
    else running s
step_in h_colon str i c s =
    if c == b' ' then running (record s { h_state = h_spaces_after_colon }) else failed s
step_in h_spaces_after_colon str i c s =
    running (record s { h_state = h_value; value_start = some i })
step_in h_value str i c s =
    if c == b'\r'
    then if not_behind i s.value_start
      then failed (record s { h_state = h_cr; value_end = some i })
      else running (record s { h_state = h_cr; value_end = some i })
    else if too_long i s.value_start
    then failed s
    else running s
step_in h_cr str i c s =
    if c == b'\n'
    then store (range str s.key_start s.key_end) (range str s.value_start s.value_end) i
        (record s { h_state = h_lf })
    else failed s
step_in h_lf str i c s =
    if c == b'\r'
    then running (record s { h_state = h_end_cr })
    else running (record s { key_start = some i; h_state = h_key })
step_in h_end_cr str i c s =
    if c == b'\n' then running (record s { h_state = h_end_lf }) else failed s
step_in h_end_lf str i c s =
    running (record s { not_finish = false; key_start = some i; now_read_line_begin = i })

-- The loop over the content from index `i` on; the list is `str[i..)`.
unfoldable pub scan : Bytes → Bytes → ℕ → Scan → Step
scan str [] i s = running s
scan str (c ∷ cs) i s = elim s.not_finish [
  | false ↦ running s
  | true ↦ elim (step_in s.h_state str i c s) [
    | running s' ↦ scan str cs (i + 1) s'
    | failed s' ↦ failed s'
    | undefined ↦ undefined
  ]
]

-- the locals at the start
abbrev pub start : HeadersState → Table → Scan
start h headers = record {
  key_start = none;
  key_end = none;
  value_start = none;
  value_end = none;
  now_read_line_begin = 0;
  not_finish = true;
  h_state = h;
  headers = headers;
}

abbrev pub head_flag : HeadersState → HeadFlag
head_flag h_end_lf = header_success
head_flag _ = header_again

-- The end of the function; `none` is undefined behaviour on the way.
unfoldable pub finish_head : Step → Request → Option (HeadFlag × Request)
finish_head undefined r = none
finish_head (failed s) r =
    some (header_error, record r { h_state = s.h_state; headers = s.headers })
finish_head (running s) r = some (
  head_flag s.h_state,
  record r {
    h_state = s.h_state;
    headers = s.headers;
    content = drop s.now_read_line_begin r.content;
  },
)

unfoldable pub parse_request_head : Request → Option (HeadFlag × Request)
parse_request_head r = finish_head (scan r.content r.content 0 (start r.h_state r.headers)) r
