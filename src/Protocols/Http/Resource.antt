-- ===== src/Protocols/Http/Resource.antt =====
-- What `ProtocolHttp` serves: the file name from the request's path, the range, and the size
-- (`_GetBodySize`).
pub mod Ranges
pub mod Names
use socket_program.Base.{
  ℕ, zero, suc, ◌+◌, ◌-◌, ◌%◌, ◌==◌, ℤ, pos, negsuc, word, Bool, true, false, Option, none, some,
  List, [], ◌∷◌, ◌++◌, drop, if◌then◌else◌, Bytes, codes, c_str, find, contains, scan_text,
  scan_int,
}
use socket_program.Base.{out_of_range, done, threw, Run, ◌>>=◌, ◌>>◌, pure, modify}
use socket_program.Inet.Os.{call}
use socket_program.Protocols.Http.State.{Http, File, Site, net}

abbrev pub root : Bytes
root = codes "/home/ho80/devel/Project/automake_test/src/docs"

-- `m_requestPath.substr(uriPos-1)`, which throws where the path begins with the question mark.
abbrev pub cut_at : Bytes → ℕ → Option Bytes
cut_at path zero = none
cut_at path (suc i) = some (drop i path)

abbrev is_slash : Bytes → Bool
is_slash (c ∷ []) = c == 47
is_slash _ = false

abbrev pub full_name : Bytes → Bytes
full_name name = root ++ (if is_slash name then codes "/index.html" else name)

-- The file name; none where `substr` throws.
unfoldable pub file_name : Bytes → Option Bytes
unfolding find
file_name path = elim (find (codes "?") path) [
  | none ↦ some (full_name path)
  | some i ↦ elim (cut_at path i) [ none ↦ none | some name ↦ some (full_name name) ]
]

-- `%d` stores 32 bits, the low ones of the `size_t` that it is given.
abbrev pub set_low : ℕ → ℤ → ℕ
set_low old z = old - old % 0x1_0000_0000 + word 0x1_0000_0000 z

abbrev pub scan_end : {W : Type 0} → Bytes → Http W → Http W
scan_end s h = elim (scan_text (codes "-") s) [
  | none ↦ h
  | some s₁ ↦ elim (scan_int s₁) [
    | none ↦ h
    | some (z, _) ↦ record h { range_end = set_low h.range_end z }
  ]
]

-- `sscanf(option.c_str()+13, "%d-%d", &m_rangeStart, &m_rangeEnd)`
unfoldable pub scan_range : {W : Type 0} → Bytes → Http W → Http W
unfolding scan_int scan_text
scan_range s h = elim (scan_int s) [
  | none ↦ h
  | some (z, s₁) ↦ scan_end s₁ (record h { range_start = set_low h.range_start z })
]

-- The loop over the headers.
unfoldable pub read_range : {W : Type 0} → List Bytes → Http W → Http W
unfolding scan_range contains c_str
read_range [] h = h
read_range (option ∷ options) h = read_range options (
    if contains (codes "Range: bytes=") option
    then record (scan_range (c_str (drop 13 option)) h) { is_range = true }
    else h)

-- `filesize`, where a failed `tellg` counts as 0.
abbrev pub file_size : File → ℕ
file_size f = elim f.end [ pos n ↦ n | negsuc _ ↦ 0 ]

module _ {W : Type 0} (site : Site W) where
  -- Opens `m_file` unless it is open; none where that fails.
  unfoldable pub ensure_open : Bytes → Run (Http W) (Option File)
  ensure_open name h = elim h.file [
    | some f ↦ done (some f) h
    | none ↦
        (do f ← net (call (site.open_file name)); modify (λ g. record g { file = f }); pure f) h
  ]

  -- `m_file` for the request's path, or an exception.
  unfoldable pub open_path : Run (Http W) (Option File)
  unfolding ensure_open file_name
  open_path h = elim (file_name h.request_path) [
    | none ↦ threw out_of_range h
    | some name ↦ ensure_open name h
  ]

  -- `_GetBodySize`: the status, with the size where it is 200.
  unfoldable pub get_body_size : Run (Http W) (ℕ × ℕ)
  unfolding file_name read_range ensure_open
  get_body_size h = elim (file_name h.request_path) [
    | none ↦ threw out_of_range h
    | some name ↦
        (do
          modify (λ g. read_range g.request_header g)
          opened ← ensure_open name
          pure (elim opened [ none ↦ (404, 0) | some f ↦ (200, file_size f) ]))
          h
  ]
