-- ===== src/Request.antt =====
-- src/requestData.h and the static tables of src/requestData.cpp: the request object with its
-- codes, `Method::getMethod`, `MimeType::getMime`, and the small member functions.
pub mod Line
pub mod Head
pub mod Response
pub mod Handle
mod Tests
use high_performance_server.Prelude.{
  ℕ, Bool, true, false, Option, none, some, List, [], ◌∷◌, if◌then◌else◌, Bytes, codes, same,
  length, ◌≡◌, arith, same_iff, ◌≢◌,
}

-- METHOD_POST, METHOD_GET, the initial NOT_DEFINED, and the -1 of an unknown method word.
pub data MethodCode : Type 0 where
  not_defined post get unknown : MethodCode

-- HTTP_10, HTTP_11, and the zero of the member initialiser.
pub data HttpVersion : Type 0 where
  unset http_10 http_11 : HttpVersion

-- STATE_PARSE_URI up to STATE_FINISH.
pub data State : Type 0 where
  parse_uri parse_headers recv_body analysis finish : State

-- The states of the header scanner.
pub data HeadersState : Type 0 where
  h_start h_key h_colon h_spaces_after_colon h_value h_cr h_lf h_end_cr h_end_lf : HeadersState

-- std::unordered_map<std::string, std::string> as an association list.
abbrev pub Table : Type 0
Table = List (Bytes × Bytes)

-- `headers.find(k)`
unfoldable pub find : Bytes → Table → Option Bytes
find k [] = none
find k ((j, v) ∷ t) = if same j k then some v else find k t

-- `headers[k] = v`
unfoldable pub assign : Bytes → Bytes → Table → Table
assign k v [] = (k, v) ∷ []
assign k v ((j, w) ∷ t) = if same j k then (k, v) ∷ t else (j, w) ∷ assign k v t

-- The members of `requestData`; `timer` is the address of a timer, or null.
pub record Request : Type 0 where
  pub read_times : ℕ
  pub fd : ℕ
  pub epollfd : ℕ
  pub path : Bytes
  pub content : Bytes
  pub file_name : Bytes
  pub method : MethodCode
  pub http_version : HttpVersion
  pub now_read_pos : ℕ
  pub state : State
  pub h_state : HeadersState
  pub is_finish : Bool
  pub keep_alive : Bool
  pub headers : Table
  pub timer : Option ℕ

-- The constructor with arguments.
unfoldable pub create : ℕ → ℕ → Bytes → Request
create epollfd fd path = record {
  read_times = 0;
  fd = fd;
  epollfd = epollfd;
  path = path;
  content = [];
  file_name = [];
  method = not_defined;
  http_version = unset;
  now_read_pos = 0;
  state = parse_uri;
  h_state = h_start;
  is_finish = false;
  keep_alive = false;
  headers = [];
  timer = none;
}

-- The default constructor, which main uses for the listening socket.
unfoldable pub create_default : Request
unfolding create
create_default = create 0 0 []

unfoldable pub reset : Request → Request
reset r = record r {
  read_times = 0;
  content = [];
  file_name = [];
  path = [];
  now_read_pos = 0;
  state = parse_uri;
  h_state = h_start;
  headers = [];
  keep_alive = false;
}

-- `addTimer` keeps a timer that is there already.
unfoldable pub add_timer : ℕ → Request → Request
add_timer t r = elim r.timer [ none ↦ record r { timer = some t } | some _ ↦ r ]

unfoldable pub get_fd : Request → ℕ
get_fd r = r.fd

unfoldable pub set_fd : ℕ → Request → Request
set_fd fd r = record r { fd = fd }

-- `Method::init` and `Method::getMethod`
unfoldable pub get_method : Bytes → MethodCode
get_method w = if same w (codes "GET") then get else if same w (codes "POST") then post else unknown

-- The table that `MimeType::init` fills.
abbrev pub mime : Table
mime =
    (codes ".html", codes "text/html")
    ∷ (codes ".avi", codes "video/x-msvideo")
    ∷ (codes ".bmp", codes "image/bmp")
    ∷ (codes ".c", codes "text/plain")
    ∷ (codes ".doc", codes "application/msword")
    ∷ (codes ".gif", codes "image/gif")
    ∷ (codes ".gz", codes "application/x-gzip")
    ∷ (codes ".htm", codes "text/html")
    ∷ (codes ".ico", codes "application/x-ico")
    ∷ (codes ".jpg", codes "image/jpeg")
    ∷ (codes ".png", codes "image/png")
    ∷ (codes ".txt", codes "text/plain")
    ∷ (codes ".mp3", codes "audio/mp3")
    ∷ (codes "default", codes "text/html")
    ∷ []

-- `MimeType::getMime`; `mime["default"]` is in the table.
unfoldable pub get_mime : Bytes → Bytes
unfolding find
get_mime suffix = elim (find suffix mime) [ none ↦ codes "text/html" | some t ↦ t ]
