-- ===== src/Protocols/Http/Client/Requests.antt =====
-- `sendRequest` against the text of a request.
use socket_program.Base.{
  ◌+◌, ◌<◌, pos, ◌≡◌, refl, sym, subst, ap, ◌∙◌, List, [], ◌∷◌, ◌++◌, map, length, length-append,
  append-nil, append_assoc, Bytes, codes, cr_lf, arith,
}
use socket_program.Base.{Ensures, Ensures-then, pure, ◌>>◌}
use socket_program.Inet.Os.{Os}
use socket_program.Inet.Io.{put_message}
use socket_program.Inet.Io.Transport.{Outgoing}
use socket_program.Protocols.Simple.{Reserve}
use socket_program.Protocols.Http.State.{Http, Site, net}
use socket_program.Protocols.Http.Sending
use socket_program.Protocols.Http.Client.{put, send_headers, send_request}
use socket_program.Protocols.Http.Request.Roundtrip.{Request, print, print_headers}

abbrev lines : List Bytes → Bytes
lines [] = []
lines (line ∷ more) = (line ++ cr_lf) ++ lines more

print_headers-lines : (headers : List Bytes) → print_headers headers ≡ lines headers ++ cr_lf
print_headers-lines [] = refl
print_headers-lines (header ∷ headers) =
    ap (λ s. header ++ (cr_lf ++ s)) (print_headers-lines headers)
    ∙ (sym (append_assoc header cr_lf (lines headers ++ cr_lf))
        ∙ sym (append_assoc (header ++ cr_lf) (lines headers) cr_lf))

-- The request that the members say.
abbrev pub request_of : {W : Type 0} → Http W → List Bytes → Request
request_of h headers = record {
  line = record {
    method = h.request_method;
    path = h.request_path;
    version = codes "HTTP/" ++ h.request_version;
  };
  headers = (codes "Host: " ++ h.request_host) ∷ headers;
}

-- The texts that `sendRequest` sends before the headers.
abbrev first_line : {W : Type 0} → Http W → Bytes
first_line h =
    h.request_method
    ++ (codes " " ++ (h.request_path ++ (codes " HTTP/" ++ (h.request_version ++ cr_lf))))

abbrev host_line : {W : Type 0} → Http W → Bytes
host_line h = codes "Host: " ++ (h.request_host ++ cr_lf)

print-texts :
    {W : Type 0} (h : Http W) (headers : List Bytes)
    → print (request_of h headers) ≡ first_line h ++ (host_line h ++ (lines headers ++ cr_lf))
print-texts h headers = rw (print_headers-lines headers) (simp append_assoc refl)

module _ (os : Os) (out : Outgoing os) (reserve : Reserve) (site : Site os.World) where
  module _ (h : Http os.World) where
    abbrev at : os.World → Http os.World
    at = Sending.at os out h

    abbrev to_peer : os.World → Bytes
    to_peer = Sending.to_peer os out h

    abbrev Sent : Bytes → Bytes → Http os.World → Type 0
    Sent = Sending.Sent os out h

    abbrev Cut : Bytes → Bytes → Http os.World → Type 0
    Cut = Sending.Cut os out h

    put_text :
        (text before : Bytes) (w : os.World)
        → length text < 0x8000_0000
        → to_peer w ≡ before
        → Ensures
            (λ u h'. Unit {0} × Sent before text h')
            (λ e h'. Cut before text h')
            (put os reserve site text (at w))
    put_text text before w small so_far =
        subst
          (λ b.
            Ensures (λ u h'. Unit {0} × Sent b text h') (λ e h'. Cut b text h')
              (put os reserve site text (at w)))
          so_far
          (Ensures-then (λ r h'. (r ≡ pos 0) × Sent (to_peer w) text h')
            (λ e h'. Cut (to_peer w) text h') (λ u h'. Unit {0} × Sent (to_peer w) text h')
            (λ e h'. Cut (to_peer w) text h') (net (put_message os h.socket text)) (pure tt) (at w)
            (Sending.put_lem os out h text w small) (λ r h' (_, all). (tt, all)) (λ e h' cut. cut))

    send_headers_lem :
        (headers : List Bytes) (before : Bytes) (w : os.World)
        → length (lines headers) < 0x8000_0000
        → to_peer w ≡ before
        → Ensures
            (λ u h'. Unit {0} × Sent before (lines headers) h')
            (λ e h'. Cut before (lines headers) h')
            (send_headers os reserve site (map (λ x. x ++ cr_lf) headers) (at w))
    unfolding send_headers
    send_headers_lem [] before w small so_far = (tt, (w, refl, so_far ∙ sym (append-nil before)))
    send_headers_lem (header ∷ headers) before w small so_far =
        let text : Bytes = header ++ cr_lf in
        let size : length (text ++ lines headers) ≡ length text + length (lines headers) =
          length-append text (lines headers) in
        Sending.send_then os out h (λ u. Unit {0}) (λ u. Unit {0}) before text (lines headers)
          (put os reserve site text) (send_headers os reserve site (map (λ x. x ++ cr_lf) headers))
          w (put_text text before w (omega arith) so_far)
          (λ w' all. send_headers_lem headers (before ++ text) w' (omega arith) all)

    -- The last line.
    finish :
        (before : Bytes) (w : os.World)
        → to_peer w ≡ before
        → Ensures
            (λ r h'. (r ≡ pos 0) × Sent before cr_lf h')
            (λ e h'. Cut before cr_lf h')
            ((put os reserve site cr_lf >> pure (pos 0)) (at w))
    finish before w so_far =
        Ensures-then (λ u h'. Unit {0} × Sent before cr_lf h') (λ e h'. Cut before cr_lf h')
          (λ r h'. (r ≡ pos 0) × Sent before cr_lf h') (λ e h'. Cut before cr_lf h')
          (put os reserve site cr_lf) (pure (pos 0)) (at w)
          (put_text cr_lf before w (omega arith) so_far) (λ u h' (_, all). (refl, all))
          (λ e h' cut. cut)

    -- `sendRequest` with headers that each end in CR LF, and a text of fewer than 2 ^ 31 bytes,
    -- comes to an end. If it returns, it returns 0 and the peer was sent the text of the request, with
    -- `Host` as the first header; if it throws, the peer was sent a proper prefix of it. Nothing but the world has changed.
    pub send_request-Delivers :
        (headers : List Bytes)
        → h.request_header ≡ map (λ x. x ++ cr_lf) headers
        → let text = print (request_of h headers) in
          length text < 0x8000_0000
          → Ensures
              (λ r h'. (r ≡ pos 0) × Sent (to_peer h.world) text h')
              (λ e h'. Cut (to_peer h.world) text h')
              (send_request os reserve site h)
    unfolding send_request
    send_request-Delivers headers e small =
        let size : length (print (request_of h headers))
            ≡ length (first_line h) + (length (host_line h) + (length (lines headers) + 2)) =
          ap length (print-texts h headers)
          ∙ (length-append (first_line h) _
              ∙ ap (λ n. length (first_line h) + n)
                  (length-append (host_line h) _
                    ∙ ap (λ n. length (host_line h) + n) (length-append (lines headers) cr_lf))) in
        subst
          (λ text.
            Ensures (λ r h'. (r ≡ pos 0) × Sent (to_peer h.world) text h')
              (λ e h'. Cut (to_peer h.world) text h') (send_request os reserve site h))
          (sym (print-texts h headers))
          (Sending.send_then os out h (λ u. Unit {0}) (λ r. r ≡ pos 0) (to_peer h.world)
            (first_line h) (host_line h ++ (lines headers ++ cr_lf))
            (put os reserve site (first_line h)) _ h.world
            (put_text (first_line h) (to_peer h.world) h.world (omega arith) refl)
            (λ w all.
              Sending.send_then os out h (λ u. Unit {0}) (λ r. r ≡ pos 0) _ (host_line h)
                (lines headers ++ cr_lf) (put os reserve site (host_line h)) _ w
                (put_text (host_line h) _ w (omega arith) all)
                (λ w' all'.
                  Sending.send_then os out h (λ u. Unit {0}) (λ r. r ≡ pos 0) _ (lines headers)
                    cr_lf (send_headers os reserve site h.request_header) _ w'
                    (subst
                      (λ hs.
                        Ensures
                          (λ u h'.
                            Unit {0}
                            × Sent (to_peer h.world ++ first_line h ++ host_line h) (lines headers)
                                h')
                          (λ e' h'.
                            Cut (to_peer h.world ++ first_line h ++ host_line h) (lines headers) h')
                          (send_headers os reserve site hs (at w')))
                      (sym e) (send_headers_lem headers _ w' (omega arith) all'))
                    (λ w'' all''. finish _ w'' all''))))
