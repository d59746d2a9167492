-- ===== src/Protocols/Http/Request.antt =====
-- The requests that `ProtocolHttp` receives: `recvRequest`, `_ReadLine` and `_ParseRequestHeader`.
pub mod Roundtrip
pub mod Parsing
pub mod Lines
use socket_program.Base.{
  ℕ, zero, suc, ◌+◌, ◌-◌, ℤ, pos, negsuc, minus_one, ◌==◌, leb, Bool, true, false, ◌&&◌, none, some,
  [], ◌∷◌, ◌++◌, length, take, drop, if◌then◌else◌, Bytes, cr_lf, c_str, contains, scan_word,
}
use socket_program.Base.{length_error, done, threw, fault, diverged, Run, ◌>>=◌, ◌>>◌, pure, modify}
use socket_program.Inet.Os.{Os}
use socket_program.Inet.Io.{Scan, get_message}
use socket_program.Protocols.Simple.{Reserve, reserved}
use socket_program.Protocols.Http.State.{Http, net}

-- `_ReadLine`, from `pos`: where the next CR LF is, or -1. The byte behind the last one received is a
-- NUL.
unfoldable pub read_line_from : ℕ → Bytes → ℤ
read_line_from i [] = minus_one
read_line_from i (c ∷ []) = minus_one
read_line_from i (c ∷ d ∷ s) = if c == 13 && d == 10 then pos i else read_line_from (suc i) (d ∷ s)

unfoldable pub read_line : Bytes → ℤ
unfolding read_line_from
read_line buf = read_line_from 0 buf

-- What the first line is read into: `method[16]`, `path[1024]` and `version[16]`.
pub record RequestLine : Type 0 where
  pub method : Bytes
  pub path : Bytes
  pub version : Bytes

-- The outcome of a scan into buffers of fixed sizes.
pub data Scanned (A : Type 0) : Type 0 where
  got : A → Scanned A
  mismatch : Scanned A
  overrun : Scanned A

-- A `%s` into a buffer, with the rest of the scan.
unfoldable pub scan_into : {A : Type 0} → ℕ → Bytes → (Bytes → Bytes → Scanned A) → Scanned A
scan_into size s k = elim (scan_word s) [
  | none ↦ mismatch
  | some (word, rest) ↦ if leb size (length word) then overrun else k word rest
]

-- `sscanf(line, "%s %s %s", method, path, version)`
unfoldable pub scan_request_line : Bytes → Scanned RequestLine
unfolding scan_into scan_word c_str
scan_request_line line = scan_into 16 (c_str line) λ method s₁. scan_into 1024 s₁ λ path s₂.
    scan_into 16 s₂ λ version s₃. got (record { method = method; path = path; version = version })

abbrev pub line_buffer : ℕ
line_buffer = 2048

abbrev pub add_header : {W : Type 0} → Bytes → Http W → Http W
add_header line h = record h { request_header = h.request_header ++ line ∷ [] }

module _ {W : Type 0} where
  -- The loop over the header lines, on the bytes from `offset` on. A missing CR LF makes `pos` the
  -- largest `size_t`, which passes the test `pos <= 0`, and `std::string` refuses the length.
  unfoldable pub header_loop : ℕ → Bytes → Run (Http W) (Unit {0})
  header_loop zero rest h = diverged
  header_loop (suc fuel) rest h = elim (read_line rest) [
    | negsuc _ ↦ threw length_error h
    | pos n ↦
        let more = drop (n + 2) rest in
        if n == 0
        then done tt h
        else if leb (length rest) (n + 2)
        then done tt (add_header (take n rest) h)
        else header_loop fuel more (add_header (take n rest) h)
  ]

  -- `_ParseRequestHeader`. The first line is copied into `line[2048]`: with no CR LF the length is the
  -- largest `size_t`, and a line that leaves no room for a NUL is read past its end.
  unfoldable pub parse_request_header : Bytes → Run (Http W) ℤ
  unfolding header_loop read_line scan_request_line
  parse_request_header buf h = elim (read_line buf) [
    | negsuc _ ↦ fault
    | pos n ↦ if leb line_buffer n then fault else elim (scan_request_line (take n buf)) [
      | mismatch ↦ done minus_one h
      | overrun ↦ fault
      | got line ↦
          (do
            modify (λ g. record g {
              request_method = line.method;
              request_path = line.path;
              request_version = line.version;
            })
            header_loop (length buf) (drop (n + 2) buf)
            pure (pos 0))
            h
    ]
  ]

-- `strcmp(buf, "\r\n") == 0`
abbrev is_line_end : Bytes → Bool
is_line_end (c ∷ d ∷ []) = c == 13 && d == 10
is_line_end _ = false

-- The scanner of `recvRequest`: it sees the last chunk only, as a C string.
unfoldable pub request_scan : Scan
unfolding contains c_str
request_scan n chunk =
    if n == 2 && is_line_end (c_str chunk)
    then true
    else if leb 4 n
    then contains (cr_lf ++ cr_lf) (c_str chunk)
    else false

module _ (os : Os) (reserve : Reserve) where
  open os use {World}

  -- `recvRequest` into a string of the given capacity: the message with what `_ParseRequestHeader`
  -- returns.
  unfoldable pub recv_request : ℕ → Run (Http World) (ℤ × Bytes)
  unfolding parse_request_header request_scan
  recv_request capacity h =
      (do
        capacity' ← reserved (reserve capacity 2048)
        r ← net (get_message os h.socket (capacity' - 1) minus_one request_scan)
        code ← parse_request_header r.1
        pure (code, r.1))
        h
