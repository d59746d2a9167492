-- ===== src/Protocols/Http/Response/Partial.antt =====
-- `sendResponse` for a request with a Range header, from the headers to `putClose`.
use socket_program.Base.{
  ℕ, ◌<◌, ◌≡◌, refl, ap, ◌∙◌, true, none, some, List, [], ◌∷◌, ◌++◌, length, Bytes,
}
use socket_program.Base.{done, ◌>>◌, ◌>>=◌, Ensures}
use socket_program.Inet.Os.{Os}
use socket_program.Inet.Io.Transport.{Outgoing}
use socket_program.Protocols.Http.State.{Http, Site, File}
use socket_program.Protocols.Http.Sending
use socket_program.Protocols.Http.Resource.{
  file_name, file_size, ensure_open, get_body_size, read_range,
}
use socket_program.Protocols.Http.Resource.Ranges.{range_line, no_range, read_range-range_line}
use socket_program.Protocols.Http.Response.{response_header, send_response}
use socket_program.Protocols.Http.Response.Serving.{Served, Stopped, send_file-Serves}

module _ {W : Type 0} (site : Site W) where
  -- The object after `_GetBodySize` for the bytes from `n` on.
  abbrev pub ranged : ℕ → File → Bytes → Http W → Http W
  ranged n f name h = record h {
    range_start = n;
    is_range = true;
    file = some f;
    world = (site.open_file name h.world).1;
  }

  get_body_size-ranged :
      (front : List Bytes) (n : ℕ) (f : File) (name : Bytes) (h : Http W)
      → h.request_header ≡ front ++ range_line n ∷ []
      → no_range front ≡ true
      → h.range_start < 0x1_0000_0000
      → n < 0x8000_0000
      → h.file ≡ none
      → file_name h.request_path ≡ some name
      → (site.open_file name h.world).0 ≡ some f
      → get_body_size site h ≡ done (200, file_size f) (ranged n f name h)
  unfolding get_body_size ensure_open
  get_body_size-ranged front n f name h headers others old small closed named opened =
      let range : read_range h.request_header h ≡ record h { range_start = n; is_range = true } =
        ap (λ hs. read_range hs h) headers ∙ read_range-range_line front n h others old small in
      rw (named, get_body_size, ◌>>◌, range, closed, opened) refl

module _ (os : Os) (out : Outgoing os) (site : Site os.World) (fuel : ℕ) (h : Http os.World) where
  -- `sendResponse` over a plain connection, for a request whose last header asks for the bytes from
  -- `n` on, with `n` below 2 ^ 31 and the range before it below 2 ^ 32, and no other header for a range,
  -- with a file that opens, where asking for the date sends nothing and the header is shorter than
  -- 2 ^ 31 bytes, comes to an end. If it returns, it returns 0, the peer was sent the header of a partial
  -- answer and then the file from `n` on, and then the write side was closed; where the file is cut, the
  -- last call before was a `putMessage` that threw. If it throws, the header was cut by a `putMessage`
  -- that threw, or closing the write side after all that failed. What was sent is told from the opening
  -- of the file on.
  pub send_response-Serves :
      (front : List Bytes) (n : ℕ) (f : File) (name : Bytes)
      → h.request_header ≡ front ++ range_line n ∷ []
      → no_range front ≡ true
      → h.range_start < 0x1_0000_0000
      → n < 0x8000_0000
      → h.file ≡ none
      → file_name h.request_path ≡ some name
      → (site.open_file name h.world).0 ≡ some f
      → h.socket.ssl ≡ none
      → let g = ranged site n f name h in
        Sending.to_peer os out g (site.date g.world).1 ≡ Sending.to_peer os out g g.world
        → let header = response_header true n (file_size f) h.request_path (site.date g.world).0 in
          length header < 0x8000_0000
          → Ensures
              (Served os out site fuel g (Sending.to_peer os out g g.world) header (f.bytes_from n))
              (λ e h'.
                Stopped os out site fuel g
                  (Sending.to_peer os out g g.world)
                  header
                  (f.bytes_from n)
                  h')
              (send_response os site fuel h)
  unfolding send_response
  send_response-Serves front n f name headers others old small closed named opened plain date_silent
        short =
      let size : get_body_size site h ≡ done (200, file_size f) (ranged site n f name h) =
        get_body_size-ranged site front n f name h headers others old small closed named opened in
      rw (send_response, ◌>>=◌, size)
        (send_file-Serves os out site fuel (ranged site n f name h) f name (file_size f) refl named
          plain date_silent short)
