-- ===== src/Protocols/Http/Response/Errors.antt =====
-- `_ResponseError` against the text of an answer.
use socket_program.Base.{
  ℕ, ◌+◌, ◌<◌, pos, ◌≡◌, refl, subst, ◌++◌, length, length-append, Bytes, arith,
}
use socket_program.Base.{Ensures, Ensures-then, pure, ◌>>◌}
use socket_program.Inet.Os.{Os}
use socket_program.Inet.Io.Transport.{Outgoing}
use socket_program.Protocols.Http.State.{Http, Site}
use socket_program.Protocols.Http.Sending
use socket_program.Protocols.Http.Response.{put, reason, error_header, response_error}

-- The answer to an error: the header, and the reason as the body.
abbrev pub error_page : ℕ → Bytes → Bytes
error_page code date = error_header (reason code).0 (reason code).1 date ++ (reason code).1

module _ (os : Os) (out : Outgoing os) (site : Site os.World) (fuel : ℕ) (h : Http os.World) where
  abbrev at : os.World → Http os.World
  at = Sending.at os out h

  abbrev to_peer : os.World → Bytes
  to_peer = Sending.to_peer os out h

  abbrev Sent : Bytes → Bytes → Http os.World → Type 0
  Sent = Sending.Sent os out h

  abbrev Cut : Bytes → Bytes → Http os.World → Type 0
  Cut = Sending.Cut os out h

  -- `putMessage`, told from what was sent before.
  pub put_from :
      (text before : Bytes) (w : os.World)
      → length text < 0x8000_0000
      → to_peer w ≡ before
      → Ensures
          (λ r h'. (r ≡ pos 0) × Sent before text h')
          (λ e h'. Cut before text h')
          (put os site fuel text (at w))
  put_from text before w small so_far =
      subst
        (λ b.
          Ensures (λ r h'. (r ≡ pos 0) × Sent b text h') (λ e h'. Cut b text h')
            (put os site fuel text (at w)))
        so_far (Sending.put_lem os out h text w small)

  -- `_ResponseError`, where asking for the date sends nothing and the answer is shorter than 2 ^ 31
  -- bytes, comes to an end. If it returns, it returns 0 and the peer was sent the header of the error
  -- and its reason; if it throws, the peer was sent a proper prefix of them. Nothing but the world has changed.
  pub response_error-Delivers :
      (code : ℕ)
      → to_peer (site.date h.world).1 ≡ to_peer h.world
      → let text = error_page code (site.date h.world).0 in
        length text < 0x8000_0000
        → Ensures
            (λ r h'. (r ≡ pos 0) × Sent (to_peer h.world) text h')
            (λ e h'. Cut (to_peer h.world) text h')
            (response_error os site fuel code h)
  unfolding response_error
  response_error-Delivers code silent small =
      let date : Bytes = (site.date h.world).0 in
      let header : Bytes = error_header (reason code).0 (reason code).1 date in
      let text : Bytes = (reason code).1 in
      let size : length (header ++ text) ≡ length header + length text =
        length-append header text in
      Sending.send_then os out h (λ r. r ≡ pos 0) (λ r. r ≡ pos 0) (to_peer h.world) header text
        (put os site fuel header) (put os site fuel text >> pure (pos 0)) (site.date h.world).1
        (put_from header (to_peer h.world) (site.date h.world).1 (omega arith) silent)
        (λ w all.
          Ensures-then (λ r h'. (r ≡ pos 0) × Sent (to_peer h.world ++ header) text h')
            (λ e h'. Cut (to_peer h.world ++ header) text h')
            (λ r h'. (r ≡ pos 0) × Sent (to_peer h.world ++ header) text h')
            (λ e h'. Cut (to_peer h.world ++ header) text h') (put os site fuel text) (pure (pos 0))
            (at w) (put_from text (to_peer h.world ++ header) w (omega arith) all)
            (λ r h' (_, sent). (refl, sent)) (λ e h' cut. cut))
