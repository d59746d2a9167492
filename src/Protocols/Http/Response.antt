-- ===== src/Protocols/Http/Response.antt =====
-- What `ProtocolHttp` answers: `sendResponse`, `_SendBody` and `_ResponseError`.
pub mod Serving
pub mod Partial
pub mod Errors
pub mod Body
use socket_program.Base.{
  ℕ, ℤ, pos, minus_one, ◌==ℤ◌, sub_size, ◌==◌, Bool, true, false, none, some, [], ◌∷◌, ◌++◌, length,
  if◌then◌else◌, Bytes, codes, cr_lf, to_string, contains,
}
use socket_program.Base.{Run, ◌>>=◌, ◌>>◌, pure, try_catch, on_part}
use socket_program.Inet.Os.{Os, call}
use socket_program.Inet.Socket.{put_close}
use socket_program.Inet.Io.{put_message}
use socket_program.Protocols.Http.State.{Http, Site, net}
use socket_program.Protocols.Http.Resource.{get_body_size, open_path}

-- The reason of a status, and the status that is sent: an unknown one becomes 500.
unfoldable pub reason : ℕ → ℕ × Bytes
reason code =
    if code == 400
    then (code, codes "Bad Request")
    else if code == 401
    then (code, codes "Unauthorized")
    else if code == 403
    then (code, codes "Forbidden")
    else if code == 404
    then (code, codes "Not Found")
    else if code == 405
    then (code, codes "Method Not Allowed")
    else if code == 406
    then (code, codes "Not Acceptable")
    else if code == 407
    then (code, codes "Proxy Authentication Required")
    else if code == 408
    then (code, codes "Request Timeout")
    else if code == 409
    then (code, codes "Conflict")
    else if code == 410
    then (code, codes "Gone")
    else if code == 411
    then (code, codes "Length Required")
    else if code == 412
    then (code, codes "Precondition Failed")
    else if code == 413
    then (code, codes "Requested Entity Too Large")
    else if code == 414
    then (code, codes "Requested URL Too Long")
    else if code == 415
    then (code, codes "Unsupported Media Type")
    else if code == 416
    then (code, codes "Requested Range Not Satisfiable")
    else if code == 417
    then (code, codes "Expectation Failed")
    else if code == 418
    then (code, codes "I'm a teapot")
    else if code == 429
    then (code, codes "Too Many Requests")
    else if code == 451
    then (code, codes "Unavailable For Legal Reasons")
    else (500, codes "Internal Server Error")

-- The header of an error.
unfoldable pub error_header : ℕ → Bytes → Bytes → Bytes
error_header code text date =
    codes "HTTP/1.1 "
    ++ (to_string code
        ++ (codes " "
            ++ (text
                ++ (cr_lf
                    ++ (codes "Date: "
                        ++ (date
                            ++ (codes "Server: ho80\r\nContent-Length: "
                                ++ (to_string (length text)
                                    ++ codes
                                        "\r\nContent-Type: text/html\r\nConnection: Closed\r\n\r\n"))))))))

-- The type by the first of these texts that the path contains.
unfoldable pub content_type : Bytes → Bytes
unfolding contains
content_type path =
    if contains (codes ".ico") path
    then codes "image/vnd.microsoft.icon"
    else if contains (codes ".jpeg") path
    then codes "image/jpeg"
    else if contains (codes ".jpg") path
    then codes "image/jpeg"
    else if contains (codes ".mkv") path
    then codes "application/octet-stream"
    else if contains (codes ".mp4") path
    then codes "video/mp4"
    else codes "text/html"

-- The number behind `Content-Length`, in `size_t`.
abbrev pub content_length : ℕ → ℕ → ℕ
content_length body_size range_start = sub_size body_size range_start

unfoldable pub content_range : ℕ → ℕ → Bytes
content_range start size =
    codes "Content-Range: bytes "
    ++ (to_string start
        ++ (codes "-" ++ (to_string (sub_size size 1) ++ (codes "/" ++ (to_string size ++ cr_lf)))))

-- The header of a file.
unfoldable pub response_header : Bool → ℕ → ℕ → Bytes → Bytes → Bytes
unfolding content_range content_type
response_header is_range start size path date =
    (if is_range then codes "HTTP/1.1 206 Partial Content\r\n" else codes "HTTP/1.1 200 OK\r\n")
    ++ (codes "Date: "
        ++ (date
            ++ (codes "Server: ho80\r\nAccept-Ranges: bytes\r\nContent-Length: "
                ++ (to_string (content_length size start)
                    ++ (cr_lf
                        ++ ((if is_range then content_range start size else [])
                            ++ (codes "Content-Type: "
                                ++ (content_type path
                                    ++ codes "\r\nConnection: Closed\r\n\r\n"))))))))

-- `bufSize`
abbrev pub buf_size : ℕ
buf_size = 409600

module _ (os : Os) (site : Site os.World) (fuel : ℕ) where
  open os use {World}

  abbrev pub put : Bytes → Run (Http World) ℤ
  put message h = net (put_message os h.socket message) h

  -- `_ResponseError`
  unfoldable pub response_error : ℕ → Run (Http World) ℤ
  unfolding reason error_header
  response_error code = do
    date ← net (call site.date)
    put (error_header (reason code).0 (reason code).1 date)
    put (reason code).1
    pure (pos 0)

  -- The loop of `_SendBody` over the bytes that are left in the file, with those in `buf`. The result
  -- is -1 where `putMessage` reports an error.
  unfoldable pub send_loop : Bytes → Bytes → Run (Http World) ℤ
  send_loop [] buf h = (if length buf == 0 then pure (pos 200) else (do put buf; pure (pos 200))) h
  send_loop (t ∷ rest) buf h =
      let filled : Bytes = buf ++ t ∷ [] in
      elim (length filled == buf_size) [
        | false ↦ send_loop rest filled h
        | true ↦
            (do ret ← put filled; if ret ==ℤ pos 0 then send_loop rest [] else pure minus_one) h
      ]

  -- `_SendBody`. An exception of `putMessage` ends it with 200 all the same.
  unfoldable pub send_body : Run (Http World) ℤ
  unfolding open_path send_loop
  send_body = do
    opened ← open_path site
    elim opened [
      | none ↦ pure (pos 404)
      | some f ↦ λ h. try_catch (send_loop (f.bytes_from h.range_start) []) (λ e. pure (pos 200)) h
    ]

  -- `m_socket.putClose()`
  unfoldable pub close_socket : Run (Http World) (Unit {0})
  close_socket =
      on_part (λ h. record { object = h.socket; world = h.world })
        (λ h s. record h { socket = s.object; world = s.world }) (put_close os fuel)

  -- `sendResponse` with the size of the body.
  unfoldable pub send_file : ℕ → Run (Http World) ℤ
  unfolding response_header send_body close_socket
  send_file size h =
      (do
        date ← net (call site.date)
        put (response_header h.is_range h.range_start size h.request_path date)
        sent ← send_body
        if sent ==ℤ minus_one then pure minus_one else (do close_socket; pure (pos 0)))
        h

  -- `sendResponse`
  unfoldable pub send_response : Run (Http World) ℤ
  unfolding get_body_size response_error send_file
  send_response = do
    r ← get_body_size site
    if r.0 == 200 then send_file r.1 else response_error r.0
