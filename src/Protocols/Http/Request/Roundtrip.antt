-- ===== src/Protocols/Http/Request/Roundtrip.antt =====
-- `_ParseRequestHeader` against a printer of requests.
use socket_program.Base.{
  ℕ, zero, suc, ◌+◌, ◌≤◌, ◌<◌, pos, ◌≡◌, refl, sym, subst, ap, ◌∙◌, ◌==◌, leb, true, false, some,
  List, [], ◌∷◌, ◌++◌, length, take, drop, length-append, append-nil, append_assoc, take-append,
  drop-append, Bytes, cr_lf, c_str, scan_word, arith,
}
use socket_program.Base.{◌>>◌, done}
use socket_program.Protocols.Http.State.{Http}
use socket_program.Protocols.Http.Request.{
  read_line, RequestLine, Scanned, got, scan_into, scan_request_line, line_buffer, header_loop,
  parse_request_header,
}
use socket_program.Protocols.Http.Request.Parsing.{
  is_word, is_line, is_word-parts, read_line-append, scan_word-append, scan_word-space,
  scan_word-all, c_str-append,
}

-- A request, and its text.
pub record Request : Type 0 where
  pub line : RequestLine
  pub headers : List Bytes

abbrev pub print_line : RequestLine → Bytes
print_line l = l.method ++ 32 ∷ (l.path ++ 32 ∷ l.version)

abbrev pub print_headers : List Bytes → Bytes
print_headers [] = cr_lf
print_headers (header ∷ headers) = header ++ (cr_lf ++ print_headers headers)

abbrev pub print : Request → Bytes
print r = print_line r.line ++ (cr_lf ++ print_headers r.headers)

-- A word that fits a buffer with its NUL.
abbrev FitsWord : ℕ → Bytes → Type 0
FitsWord size w = (is_word w ≡ true) × (0 < length w) × (length w < size)

abbrev pub IsLine : RequestLine → Type 0
IsLine l = FitsWord 16 l.method × FitsWord 1024 l.path × FitsWord 16 l.version

abbrev pub AreHeaders : List Bytes → Type 0
AreHeaders [] = Unit {0}
AreHeaders (header ∷ headers) = (is_line header ≡ true) × (0 < length header) × AreHeaders headers

scan_into_lem :
    {A : Type 0} (size : ℕ) (w s rest : Bytes) (k : Bytes → Bytes → Scanned A)
    → scan_word s ≡ some (w, rest)
    → length w < size
    → scan_into size s k ≡ k w rest
unfolding scan_into
scan_into_lem size w s rest k e fits =
    let room : leb size (length w) ≡ false = ground arith in rw (e, scan_into, room) refl

c_str-word : (w : Bytes) → is_word w ≡ true → c_str w ≡ w
unfolding c_str
c_str-word w h = subst (λ s. c_str s ≡ s) (append-nil w) (c_str-append w [] h)

c_str-print_line : (l : RequestLine) → IsLine l → c_str (print_line l) ≡ print_line l
unfolding c_str
c_str-print_line l ((m, _, _), (p, _, _), (v, _, _)) =
    c_str-append l.method (32 ∷ (l.path ++ 32 ∷ l.version)) m
    ∙ ap (λ s. l.method ++ 32 ∷ s)
        (c_str-append l.path (32 ∷ l.version) p
          ∙ ap (λ s. l.path ++ 32 ∷ s) (c_str-word l.version v))

scan_request_line-print_line :
    (l : RequestLine) → IsLine l → scan_request_line (print_line l) ≡ got l
unfolding scan_request_line
scan_request_line-print_line l ok =
    let ((m, m_some, m_fits), (p, p_some, p_fits), (v, v_some, v_fits)) = ok in
    rw (c_str-print_line l ok) (
      scan_into_lem 16 l.method (print_line l) (32 ∷ (l.path ++ 32 ∷ l.version)) _
        (scan_word-append l.method (l.path ++ 32 ∷ l.version) m_some m) m_fits
      ∙ (scan_into_lem 1024 l.path (32 ∷ (l.path ++ 32 ∷ l.version)) (32 ∷ l.version) _
            (scan_word-space (l.path ++ 32 ∷ l.version)
              ∙ scan_word-append l.path l.version p_some p)
            p_fits
          ∙ scan_into_lem 16 l.version (32 ∷ l.version) [] _
              (scan_word-space l.version ∙ scan_word-all l.version v_some v) v_fits))

is_line-word : (w s : Bytes) → is_word w ≡ true → is_line s ≡ true → is_line (w ++ s) ≡ true
is_line-word [] s h e = e
is_line-word (c ∷ w) s h e =
    let (no_space, no_nul, h') = is_word-parts c w h in
    let no_cr : (c == 13) ≡ false = ground arith in rw no_cr (is_line-word w s h' e)

is_line-print_line : (l : RequestLine) → IsLine l → is_line (print_line l) ≡ true
is_line-print_line l ((m, _, _), (p, _, _), (v, _, _)) =
    is_line-word l.method (32 ∷ (l.path ++ 32 ∷ l.version)) m (
      is_line-word l.path (32 ∷ l.version) p
        (subst (λ s. is_line s ≡ true) (append-nil l.version) (is_line-word l.version [] v refl)))

more_headers : (headers : List Bytes) → 2 + length headers ≤ length (print_headers headers)
more_headers [] = omega arith
more_headers (header ∷ headers) =
    omega (arith, length-append header (cr_lf ++ print_headers headers), more_headers headers)

module _ {W : Type 0} where
  header_loop-print_headers :
      (fuel : ℕ) (headers : List Bytes) (h : Http W)
      → AreHeaders headers
      → length headers < fuel
      → header_loop fuel (print_headers headers) h
        ≡ done tt (record h { request_header = h.request_header ++ headers })
  unfolding header_loop
  header_loop-print_headers zero headers h ok enough = absurd (omega arith)
  header_loop-print_headers (suc fuel) [] h ok enough =
      let end : read_line cr_lf ≡ pos 0 = read_line-append [] [] refl in
      rw (end, header_loop)
        (ap (λ hs. done tt (record h { request_header = hs })) (sym (append-nil _)))
  header_loop-print_headers (suc fuel) (header ∷ headers) h (no_cr, nonempty, ok) enough =
      let rest : Bytes = print_headers headers in
      let found : read_line (header ++ (cr_lf ++ rest)) ≡ pos (length header) =
        read_line-append header rest no_cr in
      let some : (length header == 0) ≡ false = ground arith in
      let more : leb (length (header ++ (cr_lf ++ rest))) (length header + 2) ≡ false =
        ground (arith, length-append header (cr_lf ++ rest), more_headers headers) in
      let text : take (length header) (header ++ (cr_lf ++ rest)) ≡ header =
        take-append header (cr_lf ++ rest) in
      let left : drop (length header + 2) (header ++ (cr_lf ++ rest)) ≡ rest =
        drop-append 2 header (cr_lf ++ rest) in
      rw (found, header_loop, some, more, text, left)
        (header_loop-print_headers fuel headers
            (record h { request_header = h.request_header ++ header ∷ [] }) ok (omega arith)
          ∙ ap (λ hs. done tt (record h { request_header = hs }))
              (append_assoc h.request_header (header ∷ []) headers))

  -- `_ParseRequestHeader` on the text of a request whose three words have no white space and no NUL and
  -- fit their buffers, and whose headers are not empty and have no carriage return: it returns 0, sets
  -- the method, the path and the version, and appends the headers.
  pub parse_request_header-print :
      (r : Request) (h : Http W)
      → IsLine r.line
      → AreHeaders r.headers
      → parse_request_header (print r) h
        ≡ done (pos 0) (record h {
          request_method = r.line.method;
          request_path = r.line.path;
          request_version = r.line.version;
          request_header = h.request_header ++ r.headers;
        })
  unfolding parse_request_header
  parse_request_header-print r h ok headers_ok =
      let line : Bytes = print_line r.line in
      let rest : Bytes = print_headers r.headers in
      let found : read_line (line ++ (cr_lf ++ rest)) ≡ pos (length line) =
        read_line-append line rest (is_line-print_line r.line ok) in
      let ((_, _, m_fits), (_, _, p_fits), (_, _, v_fits)) = ok in
      let short : length line
          ≡ length r.line.method + suc (length r.line.path + suc (length r.line.version)) =
        length-append r.line.method (32 ∷ (r.line.path ++ 32 ∷ r.line.version))
        ∙ ap (λ n. length r.line.method + suc n)
            (length-append r.line.path (32 ∷ r.line.version)) in
      let room : leb line_buffer (length line) ≡ false = ground arith in
      let text : take (length line) (line ++ (cr_lf ++ rest)) ≡ line =
        take-append line (cr_lf ++ rest) in
      let left : drop (length line + 2) (line ++ (cr_lf ++ rest)) ≡ rest =
        drop-append 2 line (cr_lf ++ rest) in
      let set : Http W = record h {
        request_method = r.line.method;
        request_path = r.line.path;
        request_version = r.line.version;
      } in
      let loop : header_loop (length (print r)) rest set
          ≡ done tt (record set { request_header = h.request_header ++ r.headers }) =
        header_loop-print_headers (length (print r)) r.headers set headers_ok
          (omega (arith, length-append line (cr_lf ++ rest), more_headers r.headers)) in
      rw (found, parse_request_header, room, text, scan_request_line-print_line r.line ok, left)
        (rw (◌>>◌, loop) refl)
