-- ===== src/Tests/Http.antt =====
-- The theorems on HTTP, applied to runs of the test machine.
use socket_program.Base.{
  true, contains, to_string, digits_onto, ◌<◌, pos, ◌≡◌, refl, ◌⊎◌, none, some, [], ◌∷◌, ◌++◌,
  length, Bytes, codes, cr_lf, arith, Ensures, done, find, find_from, is_prefix,
}
use socket_program.Inet.Socket.{SslSocket}
use socket_program.Protocols.Http.State.{Http, new_http}
use socket_program.Protocols.Http.Request.{read_line, parse_request_header}
use socket_program.Protocols.Http.Request.Lines.{read_line-find}
use socket_program.Protocols.Http.Request.Roundtrip.{Request, parse_request_header-print}
use socket_program.Protocols.Http.Resource.{root, file_name, read_range}
use socket_program.Protocols.Http.Resource.Ranges.{read_range-range_line}
use socket_program.Protocols.Http.Response.{
  send_response, content_range, send_body, send_file, response_error, response_header, content_type,
  error_header, reason,
}
use socket_program.Protocols.Http.Response.Errors.{response_error-Delivers}
use socket_program.Protocols.Http.Response.Serving.{Served, Stopped, send_file-Serves}
use socket_program.Protocols.Http.Response.Partial.{send_response-Serves}
use socket_program.Protocols.Http.Resource.Names.{file_name-query}
use socket_program.Protocols.Http.Response.Body.{Failed, send_body-Delivers}
use socket_program.Protocols.Http.Client.{send_request}
use socket_program.Protocols.Http.Client.Requests.{send_request-Delivers}
use socket_program.Tests.Wire.{World, wire, wire_outgoing, start}
use socket_program.Tests.Files.{page, site, exact}

abbrev http_socket : SslSocket
http_socket = record { socket = pos 2; ssl = none; sslctx = none }

read_line-find_example : read_line (codes "a\rb\r\nc") ≡ pos 3
unfolding find find_from is_prefix
read_line-find_example = read_line-find (codes "a\rb\r\nc")

abbrev get_movie : Request
get_movie = record {
  line = record { method = codes "GET"; path = codes "/a.mp4"; version = codes "HTTP/1.1" };
  headers = codes "Host: here" ∷ codes "Range: bytes=2-" ∷ [];
}

abbrev server : Http World
server = new_http http_socket (start [])

parse_request_header-print_example :
    parse_request_header
      (codes "GET /a.mp4 HTTP/1.1\r\nHost: here\r\nRange: bytes=2-\r\n\r\n")
      server
    ≡ done (pos 0) (record server {
      request_method = codes "GET";
      request_path = codes "/a.mp4";
      request_version = codes "HTTP/1.1";
      request_header = server.request_header ++ codes "Host: here" ∷ codes "Range: bytes=2-" ∷ [];
    })
parse_request_header-print_example =
    parse_request_header-print get_movie server
      (
        (refl, omega arith, omega arith),
        (refl, omega arith, omega arith),
        (refl, omega arith, omega arith),
      )
      (refl, omega arith, (refl, omega arith, tt))

-- A server whose file is open, asked for the bytes from 3 on.
abbrev serving : Http World
serving = record server { file = some page; range_start = 3 }

send_body-Delivers_example :
    Ensures
      (λ r h'.
        (r ≡ pos 200)
        × (((w : World) × (h' ≡ record serving { world = w }) × (w.outbox ≡ codes "hi\r\n"))
            ⊎ (((w : World) × (front : Bytes) × (rest : Bytes) × (h' ≡ record serving { world = w })
                  × (codes "hi\r\n" ≡ front ++ rest)
                  × (0 < length rest)
                  × (w.outbox ≡ front))
                × Failed wire h')))
      (λ e h'. ⊥)
      (send_body wire site 1 serving)
unfolding wire_outgoing file_name find find_from is_prefix
send_body-Delivers_example = send_body-Delivers wire wire_outgoing site 1 serving page _ refl refl

-- A client with one header more than the host.
abbrev asking : Http World
asking = record server { request_header = (codes "cookie: " ++ cr_lf) ∷ [] }

send_request-Delivers_example :
    Ensures
      (λ r h'.
        (r ≡ pos 0)
        × ((w : World) × (h' ≡ record asking { world = w })
            × (w.outbox ≡ codes "GET / HTTP/1.1\r\nHost: 127.0.0.1\r\ncookie: \r\n\r\n")))
      (λ e h'.
        (w : World) × (front : Bytes) × (rest : Bytes) × (h' ≡ record asking { world = w })
        × (codes "GET / HTTP/1.1\r\nHost: 127.0.0.1\r\ncookie: \r\n\r\n" ≡ front ++ rest)
        × (0 < length rest)
        × (w.outbox ≡ front))
      (send_request wire exact site asking)
unfolding wire_outgoing
send_request-Delivers_example =
    send_request-Delivers wire wire_outgoing exact site asking (codes "cookie: " ∷ []) refl
      (omega arith)

read_range-range_line_example :
    read_range (codes "Host: here" ∷ codes "Range: bytes=2334-" ∷ []) server
    ≡ record server { range_start = 2334; is_range = true }
unfolding to_string digits_onto contains is_prefix
read_range-range_line_example =
    read_range-range_line (codes "Host: here" ∷ []) 2334 server refl (omega arith) (omega arith)

-- The page for a file that is not there.
abbrev not_found : Bytes
not_found =
    codes "HTTP/1.1 404 Not Found\r\nDate: Mon Dec 25\nServer: ho80\r\nContent-Length: 9\r\n"
    ++ codes "Content-Type: text/html\r\nConnection: Closed\r\n\r\nNot Found"

response_error-Delivers_example :
    Ensures
      (λ r h'.
        (r ≡ pos 0) × ((w : World) × (h' ≡ record server { world = w }) × (w.outbox ≡ not_found)))
      (λ e h'.
        (w : World) × (front : Bytes) × (rest : Bytes) × (h' ≡ record server { world = w })
        × (not_found ≡ front ++ rest)
        × (0 < length rest)
        × (w.outbox ≡ front))
      (response_error wire site 1 404 server)
unfolding wire_outgoing error_header reason to_string digits_onto
response_error-Delivers_example =
    response_error-Delivers wire wire_outgoing site 1 server 404 refl (omega arith)

-- The header of the page from its third byte on.
abbrev page_header : Bytes
page_header =
    codes "HTTP/1.1 200 OK\r\nDate: Mon Dec 25\nServer: ho80\r\nAccept-Ranges: bytes\r\n"
    ++ codes "Content-Length: 4\r\nContent-Type: text/html\r\nConnection: Closed\r\n\r\n"

send_file-Serves_example :
    Ensures
      (Served wire wire_outgoing site 1 serving [] page_header (codes "hi\r\n"))
      (λ e h'. Stopped wire wire_outgoing site 1 serving [] page_header (codes "hi\r\n") h')
      (send_file wire site 1 7 serving)
unfolding wire_outgoing file_name find find_from is_prefix response_header content_type contains
    to_string digits_onto
send_file-Serves_example =
    send_file-Serves wire wire_outgoing site 1 serving page _ 7 refl refl refl refl (omega arith)

-- A server that has read a request for the page from its third byte on.
abbrev partial : Http World
partial = record server { request_header = codes "Host: here" ∷ codes "Range: bytes=3-" ∷ [] }

abbrev partial_header : Bytes
partial_header =
    codes
      "HTTP/1.1 206 Partial Content\r\nDate: Mon Dec 25\nServer: ho80\r\nAccept-Ranges: bytes\r\n"
    ++ codes "Content-Length: 4\r\nContent-Range: bytes 3-6/7\r\nContent-Type: text/html\r\n"
    ++ codes "Connection: Closed\r\n\r\n"

abbrev partial_open : Http World
partial_open = record partial {
  range_start = 3;
  is_range = true;
  file = some page;
  world = (site.open_file (root ++ codes "/index.html") (start [])).1;
}

send_response-Serves_example :
    Ensures
      (Served wire wire_outgoing site 1 partial_open [] partial_header (codes "hi\r\n"))
      (λ e h'. Stopped wire wire_outgoing site 1 partial_open [] partial_header (codes "hi\r\n") h')
      (send_response wire site 1 partial)
unfolding wire_outgoing file_name find find_from is_prefix response_header content_type
    content_range contains to_string digits_onto
send_response-Serves_example =
    send_response-Serves wire wire_outgoing site 1 partial (codes "Host: here" ∷ []) 3 page
      (root ++ codes "/index.html") refl refl (omega arith) (omega arith) refl refl refl refl refl
      (omega arith)

file_name-query_example : file_name (codes "/a.html?b=1") ≡ some (root ++ codes "l?b=1")
unfolding is_prefix find_from
file_name-query_example = file_name-query (codes "/a.htm") 108 (codes "b=1") refl
