-- ===== src/Protocols/Http/Response/Serving.antt =====
-- `sendResponse` for a file, from the header to `putClose`, over a plain connection.
use socket_program.Base.{
  ℕ, ◌<◌, ℤ, pos, minus_one, ◌==ℤ◌, ◌≡◌, refl, subst, Bool, Bool-cases, true, false, inl, inr, ◌⊎◌,
  none, some, ◌++◌, length, Bytes, if◌then◌else◌,
}
use socket_program.Base.{Ensures, Ensures-then, Ensures-bind, Ensures-Raises, pure, ◌>>◌, ◌>>=◌}
use socket_program.Inet.Os.{Os}
use socket_program.Inet.Io.Transport.{Outgoing}
use socket_program.Inet.Socket.{put_close, close_ssl, close_write}
use socket_program.Protocols.Http.State.{Http, Site, File}
use socket_program.Protocols.Http.Sending
use socket_program.Protocols.Http.Resource.{file_name}
use socket_program.Protocols.Http.Response.{
  put, response_header, send_body, close_socket, send_file,
}
use socket_program.Protocols.Http.Response.Errors.{put_from}
use socket_program.Protocols.Http.Response.Body.{Failed, put-Failed, send_body-Delivers}

module _ (os : Os) (out : Outgoing os) (site : Site os.World) (fuel : ℕ) (h : Http os.World) where
  abbrev at : os.World → Http os.World
  at = Sending.at os out h

  -- `shutdown` of the write side was called on this world, and this is whether it gave 0.
  abbrev pub Shut : os.World → Bool → Http os.World → Type 0
  Shut w okay h' =
      (((os.shutdown_write h.socket.socket w).0 ==ℤ pos 0) ≡ okay)
      × (h' ≡ at (os.shutdown_write h.socket.socket w).1)

  close_socket_lem :
      (w : os.World)
      → h.socket.ssl ≡ none
      → Ensures
          (λ u h'. Shut w true h')
          (λ e h'. Shut w false h')
          (close_socket os site fuel (at w))
  unfolding close_socket put_close close_ssl close_write
  close_socket_lem w plain =
      let r = os.shutdown_write h.socket.socket w in
      elim (Bool-cases (r.0 ==ℤ pos 0)) [
        | inl closed ↦ rw (plain, closed, Ensures) (closed, refl)
        | inr failed ↦ rw (plain, failed, Ensures) (failed, refl)
      ]

  module _ (before header body : Bytes) where
    -- The whole body was sent, or a proper first part of it and the last call was a `putMessage` that
    -- threw.
    abbrev pub BodySent : os.World → Type 0
    BodySent w =
        Sending.Sent os out h (before ++ header) body (at w)
        ⊎ (Sending.Cut os out h (before ++ header) body (at w) × Failed os (at w))

    -- Header and body were sent, and then the write side was closed.
    abbrev pub Served : ℤ → Http os.World → Type 0
    Served r h' = (r ≡ pos 0) × ((w : os.World) × (BodySent w × Shut w true h'))

    -- The header could not be sent, or the write side not be closed.
    abbrev pub Stopped : Http os.World → Type 0
    Stopped h' =
        (Sending.Cut os out h before header h' × Failed os h')
        ⊎ ((w : os.World) × (BodySent w × Shut w false h'))

    -- The end of `sendResponse`.
    close_socket-Served :
        (w : os.World)
        → h.socket.ssl ≡ none
        → BodySent w
        → Ensures Served (λ e h'. Stopped h') ((close_socket os site fuel >> pure (pos 0)) (at w))
    close_socket-Served w plain sent =
        Ensures-then (λ u h'. Shut w true h') (λ e h'. Shut w false h') Served (λ e h'. Stopped h')
          (close_socket os site fuel) (pure (pos 0)) (at w) (close_socket_lem w plain)
          (λ u h' shut. (refl, (w, (sent, shut)))) (λ e h' shut. inr (w, (sent, shut)))

    -- What `_SendBody` has done, at the world that it leaves.
    send_body-Sent :
        (h' : Http os.World)
        → Sending.Sent os out h (before ++ header) body h'
          ⊎ (Sending.Cut os out h (before ++ header) body h' × Failed os h')
        → (w : os.World) × ((h' ≡ at w) × BodySent w)
    send_body-Sent h' (inl (w, same, all)) = (w, (same, inl (w, refl, all)))
    send_body-Sent h' (inr ((w, front, rest, same, split, some_left, part), failed)) = (
      w,
      (same, inr ((w, front, rest, refl, split, some_left, part), subst (Failed os) same failed)),
    )

    -- `sendResponse` from `_SendBody` on.
    send_body-Served :
        (f : File) (name : Bytes) (w : os.World)
        → h.file ≡ some f
        → file_name h.request_path ≡ some name
        → h.socket.ssl ≡ none
        → f.bytes_from h.range_start ≡ body
        → Sending.to_peer os out h w ≡ before ++ header
        → Ensures Served
            (λ e h'. Stopped h')
            ((do
              sent ← send_body os site fuel
              if sent ==ℤ minus_one
                  then pure minus_one
                  else (do close_socket os site fuel; pure (pos 0)))
              (at w))
    send_body-Served f name w is_open named plain bytes so_far =
        Ensures-bind
          (λ r h'.
            (r ≡ pos 200)
            × (Sending.Sent os out h (before ++ header) body h'
                ⊎ (Sending.Cut os out h (before ++ header) body h' × Failed os h')))
          (λ e h'. ⊥) Served (λ e h'. Stopped h') (send_body os site fuel)
          (λ sent.
            if sent ==ℤ minus_one
            then pure minus_one
            else (do close_socket os site fuel; pure (pos 0)))
          (at w)
          (subst
            (λ b.
              Ensures
                (λ r h'.
                  (r ≡ pos 200)
                  × (Sending.Sent os out h b body h'
                      ⊎ (Sending.Cut os out h b body h' × Failed os h')))
                (λ e h'. ⊥) (send_body os site fuel (at w)))
            so_far
            (subst
              (λ t.
                Ensures
                  (λ r h'.
                    (r ≡ pos 200)
                    × (Sending.Sent os out h (Sending.to_peer os out h w) t h'
                        ⊎ (Sending.Cut os out h (Sending.to_peer os out h w) t h' × Failed os h')))
                  (λ e h'. ⊥) (send_body os site fuel (at w)))
              bytes (send_body-Delivers os out site fuel (at w) f name is_open named)))
          (λ r h' (e, done').
            let (w', (same, sent)) = send_body-Sent h' done' in
            rw (e, same) (close_socket-Served w' plain sent))
          (λ e h' none'. absurd none')

  -- `sendResponse` for an open file over a plain connection, where asking for the date sends nothing and
  -- the header is shorter than 2 ^ 31 bytes, comes to an end. If it returns, it returns 0, the peer was
  -- sent the whole header and then the bytes of the file from the start of the range on, and then the
  -- write side was closed; where the body is cut, the last call before was a `putMessage` that threw.
  -- If it throws, the header was cut by a `putMessage` that threw, or closing the write side after
  -- all that failed. Nothing but the world has changed.
  pub send_file-Serves :
      (f : File) (name : Bytes) (size : ℕ)
      → h.file ≡ some f
      → file_name h.request_path ≡ some name
      → h.socket.ssl ≡ none
      → Sending.to_peer os out h (site.date h.world).1 ≡ Sending.to_peer os out h h.world
      → let header =
          response_header h.is_range h.range_start size h.request_path (site.date h.world).0 in
        let body = f.bytes_from h.range_start in
        length header < 0x8000_0000
        → Ensures
            (Served (Sending.to_peer os out h h.world) header body)
            (λ e h'. Stopped (Sending.to_peer os out h h.world) header body h')
            (send_file os site fuel size h)
  unfolding send_file
  send_file-Serves f name size is_open named plain date_silent small =
      let header : Bytes =
        response_header h.is_range h.range_start size h.request_path (site.date h.world).0 in
      let body : Bytes = f.bytes_from h.range_start in
      let before : Bytes = Sending.to_peer os out h h.world in
      Ensures-then (λ r h'. (r ≡ pos 0) × Sending.Sent os out h before header h')
        (λ e h'. Sending.Cut os out h before header h' × Failed os h')
        (λ r h'. Served before header body r h') (λ e h'. Stopped before header body h')
        (put os site fuel header)
        (do
          sent ← send_body os site fuel
          if sent ==ℤ minus_one
              then pure minus_one
              else (do close_socket os site fuel; pure (pos 0)))
        (at (site.date h.world).1)
        (Ensures-Raises (λ r h'. (r ≡ pos 0) × Sending.Sent os out h before header h')
          (λ e h'. Sending.Cut os out h before header h') (Failed os)
          (put os site fuel header (at (site.date h.world).1))
          (put_from os out site fuel h header before (site.date h.world).1 small date_silent)
          (put-Failed os out site fuel h header (at (site.date h.world).1)))
        (λ r h' (_, (w, same, all)).
          rw same (send_body-Served before header body f name w is_open named plain refl all))
        (λ e h' cut. inl cut)
