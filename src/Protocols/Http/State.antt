-- ===== src/Protocols/Http/State.antt =====
-- `ProtocolHttp` (libs/Protocols/ProtocolHttp.h and ProtocolHttp.cpp): its members, its constructor and
-- setters, and what it uses of the file system and the clock.
use socket_program.Base.{
  ℕ, ℤ, Bool, false, Option, none, some, List, [], ◌∷◌, ◌++◌, Bytes, codes, cr_lf,
}
use socket_program.Base.{Run, modify, on_part}
use socket_program.Inet.Socket.{SslSocket}

-- A file opened for reading: its descriptor, the position that `tellg` gives at its end, and the bytes that are read
-- after `seekg` to a position.
pub record File : Type 0 where
  pub handle : ℤ
  pub end : ℤ
  pub bytes_from : ℕ → Bytes

-- Files: `open`, by name, and `close`; and `asctime(localtime(time))`.
pub record Site (W : Type 0) : Type 0 where
  pub open_file : Bytes → W → Option File × W
  pub close_file : File → W → W
  pub date : W → Bytes × W

-- `m_status` and `m_responseCode` are never used and have no fields. `m_file` is none while it is not
-- open.
pub record Http (W : Type 0) : Type 0 where
  pub socket : SslSocket
  pub request_method : Bytes
  pub request_path : Bytes
  pub request_version : Bytes
  pub request_host : Bytes
  pub request_header : List Bytes
  pub range_start : ℕ
  pub range_end : ℕ
  pub is_range : Bool
  pub file : Option File
  pub world : W

abbrev pub default_header : List Bytes
default_header =
    (codes "user-agent: Mozilla/5.0 AppleWebKit/537.36 Chrome/69.0.3497.100 Safari/537.36" ++ cr_lf)
    ∷ (codes "cookie: " ++ cr_lf)
    ∷ (codes "Connection: close" ++ cr_lf)
    ∷ []

-- `ProtocolHttp(IOSocket& socket)`
abbrev pub new_http : {W : Type 0} → SslSocket → W → Http W
new_http socket w = record {
  socket = socket;
  request_method = codes "GET";
  request_path = codes "/";
  request_version = codes "1.1";
  request_host = codes "127.0.0.1";
  request_header = default_header;
  range_start = 0;
  range_end = 0;
  is_range = false;
  file = none;
  world = w;
}

-- The setters.
module _ {W : Type 0} where
  unfoldable pub set_request_method : Bytes → Run (Http W) (Unit {0})
  set_request_method method = modify (λ h. record h { request_method = method })

  unfoldable pub set_request_path : Bytes → Run (Http W) (Unit {0})
  set_request_path path = modify (λ h. record h { request_path = path })

  unfoldable pub set_request_version : Bytes → Run (Http W) (Unit {0})
  set_request_version version = modify (λ h. record h { request_version = version })

  unfoldable pub set_request_header : List Bytes → Run (Http W) (Unit {0})
  set_request_header header = modify (λ h. record h { request_header = header })

  unfoldable pub set_request_host : Bytes → Run (Http W) (Unit {0})
  set_request_host host = modify (λ h. record h { request_host = host })

-- A computation on the world, from a method.
abbrev pub net : {W A : Type 0} → Run W A → Run (Http W) A
net = on_part (λ h. h.world) (λ h w. record h { world = w })

-- `~ProtocolHttp()`
unfoldable pub destroy_http : {W : Type 0} → Site W → Http W → Http W
destroy_http site h = elim h.file [
  | none ↦ h
  | some f ↦ record h { file = none; world = site.close_file f h.world }
]
