-- ===== src/Protocols/Http/Response/Body.antt =====
-- `_SendBody` against the bytes that the peer is sent.
use socket_program.Base.{
  ℕ, ℤ, ◌+◌, ◌<◌, pos, minus_one, ◌==ℤ◌, ◌≡◌, refl, sym, subst, ap, ◌∙◌, ◌⊎◌, inl, inr, false,
  Bool-cases, some, [], ◌∷◌, ◌++◌, length, length-append, append-nil, append_assoc, Bytes, arith,
  ◌==◌, if◌then◌else◌,
}
use socket_program.Base.{
  Exn, Outcome, done, threw, fault, diverged, ◌>>◌, Raises, Ensures-Raises, Raises-choice,
  Raises-bind, Raises-then, Ensures, Ensures-then, Ensures-bind, Ensures-catch, pure,
}
use socket_program.Inet.Io.{put_message}
use socket_program.Inet.Os.{Os}
use socket_program.Inet.Io.Transport.{Outgoing}
use socket_program.Protocols.Http.State.{Http, Site, File, net}
use socket_program.Protocols.Http.Resource.{file_name, open_path, ensure_open}
use socket_program.Protocols.Http.Response.{buf_size, put, send_loop, send_body}
use socket_program.Protocols.Http.Sending

-- The last call was a `putMessage` on the socket, which threw.
abbrev pub Failed : (os : Os) → Http os.World → Type 0
Failed os h =
    (text : Bytes) × (v : os.World) × (e : Exn) × (put_message os h.socket text v ≡ threw e h.world)

module _ (os : Os) (out : Outgoing os) (site : Site os.World) (fuel : ℕ) (h : Http os.World) where
  abbrev at : os.World → Http os.World
  at = Sending.at os out h

  abbrev to_peer : os.World → Bytes
  to_peer = Sending.to_peer os out h

  abbrev Sent : Bytes → Bytes → Http os.World → Type 0
  Sent = Sending.Sent os out h

  abbrev Cut : Bytes → Bytes → Http os.World → Type 0
  Cut = Sending.Cut os out h

  send_loop_lem :
      (rest buf before : Bytes) (w : os.World)
      → length buf < buf_size
      → to_peer w ≡ before
      → Ensures
          (λ r h'. (r ≡ pos 200) × Sent before (buf ++ rest) h')
          (λ e h'. Cut before (buf ++ rest) h')
          (send_loop os site fuel rest buf (at w))
  unfolding send_loop
  send_loop_lem [] [] before w room so_far = (refl, (w, refl, so_far ∙ sym (append-nil before)))
  send_loop_lem [] (b ∷ buf) before w room so_far =
      let nonempty : (length (b ∷ buf) == 0) ≡ false = ground arith in
      rw (nonempty, Ensures)
        (Ensures-then (λ r h'. (r ≡ pos 0) × Sent (to_peer w) (b ∷ buf) h')
          (λ e h'. Cut (to_peer w) (b ∷ buf) h')
          (λ r h'. (r ≡ pos 200) × Sent before (b ∷ buf ++ []) h')
          (λ e h'. Cut before (b ∷ buf ++ []) h') (put os site fuel (b ∷ buf)) (pure (pos 200))
          (at w) (Sending.put_lem os out h (b ∷ buf) w (omega arith))
          (λ r h' (_, (w', e, all)). (
            refl,
            (
              w',
              e,
              all
                  ∙ (ap (◌++◌ (to_peer w)) (sym (append-nil (b ∷ buf)))
                      ∙ ap (λ x. x ++ (b ∷ buf ++ [])) so_far),
            ),
          ))
          (λ e h' (w', front, rest, same, split, some_left, part). (
            w',
            front,
            rest,
            same,
            append-nil (b ∷ buf) ∙ split,
            some_left,
            part ∙ ap (λ x. x ++ front) so_far,
          )))
  send_loop_lem (t ∷ rest) buf before w room so_far =
      let filled : Bytes = buf ++ t ∷ [] in
      let longer : length filled ≡ length buf + 1 = length-append buf (t ∷ []) in
      let whole : buf ++ t ∷ rest ≡ filled ++ rest = sym (append_assoc buf (t ∷ []) rest) in
      subst
        (λ text.
          Ensures (λ r h'. (r ≡ pos 200) × Sent before text h') (λ e h'. Cut before text h')
            (send_loop os site fuel (t ∷ rest) buf (at w)))
        (sym whole)
        (elim (Bool-cases (length filled == buf_size)) [
          | inr room' ↦
              rw (room', Ensures)
                (send_loop_lem rest filled before w (ground (arith, longer)) so_far)
          | inl full ↦
              rw (full, Ensures)
                (Ensures-bind (λ r h'. (r ≡ pos 0) × Sent (to_peer w) filled h')
                  (λ e h'. Cut (to_peer w) filled h')
                  (λ r h'. (r ≡ pos 200) × Sent before (filled ++ rest) h')
                  (λ e h'. Cut before (filled ++ rest) h') (put os site fuel filled)
                  (λ ret. if ret ==ℤ pos 0 then send_loop os site fuel rest [] else pure minus_one)
                  (at w) (Sending.put_lem os out h filled w (omega arith))
                  (λ ret h' (e, (w', same, all)).
                    rw (same, e)
                      (Sending.later os out h (λ r. r ≡ pos 200) before filled rest _
                        (send_loop_lem rest [] (before ++ filled) w' (omega arith)
                          (all ∙ ap (λ x. x ++ filled) so_far))))
                  (λ e h' cut.
                    Sending.Cut-append os out h before filled rest h' (rw (sym so_far) cut)))
        ])

  pub put-Failed : (text : Bytes) (g : Http os.World) → Raises (Failed os) (put os site fuel text g)
  put-Failed text g = on (put_message os g.socket text g.world) refl
    where
      on :
          (o : Outcome os.World ℤ)
          → put_message os g.socket text g.world ≡ o
          → Raises (Failed os) (net (λ _. o) g)
      on (done r w) ran = tt
      on (threw e w) ran = (text, g.world, e, ran)
      on fault ran = tt
      on diverged ran = tt

  -- The loop throws only where a `putMessage` does.
  send_loop-Failed :
      (rest buf : Bytes) (g : Http os.World)
      → Raises (Failed os) (send_loop os site fuel rest buf g)
  unfolding send_loop
  send_loop-Failed [] buf g =
      Raises-choice (Failed os) (length buf == 0) (pure (pos 200))
        (do put os site fuel buf; pure (pos 200)) g tt
        (Raises-then (Failed os) (put os site fuel buf) (pure (pos 200)) g (put-Failed buf g)
          (λ g'. tt))
  send_loop-Failed (t ∷ rest) buf g = elim (Bool-cases (length (buf ++ t ∷ []) == buf_size)) [
    | inr e ↦ rw (e, Raises) (send_loop-Failed rest (buf ++ t ∷ []) g)
    | inl e ↦
        rw (e, Raises)
          (Raises-bind (Failed os) (put os site fuel (buf ++ t ∷ []))
            (λ ret. if ret ==ℤ pos 0 then send_loop os site fuel rest [] else pure minus_one) g
            (put-Failed (buf ++ t ∷ []) g)
            (λ ret g'.
              Raises-choice (Failed os) (ret ==ℤ pos 0) (send_loop os site fuel rest [])
                (pure minus_one) g' (send_loop-Failed rest [] g') tt))
  ]

  -- `_SendBody` with its file open, and a name in the path of the request, comes to an end
  -- and returns 200. The peer was sent the bytes of the file from the start of the range on: all of them,
  -- or a proper first part of them where the last call was a `putMessage` that threw. Nothing but the
  -- world has changed.
  pub send_body-Delivers :
      (f : File) (name : Bytes)
      → h.file ≡ some f
      → file_name h.request_path ≡ some name
      → let body = f.bytes_from h.range_start in
        Ensures
          (λ r h'.
            (r ≡ pos 200)
            × (Sent (to_peer h.world) body h' ⊎ (Cut (to_peer h.world) body h' × Failed os h')))
          (λ e h'. ⊥)
          (send_body os site fuel h)
  unfolding send_body open_path ensure_open
  send_body-Delivers f name is_open named =
      let body : Bytes = f.bytes_from h.range_start in
      rw (named, Ensures, is_open)
        (Ensures-catch (λ r h'. (r ≡ pos 200) × Sent (to_peer h.world) body h')
          (λ e h'. Cut (to_peer h.world) body h' × Failed os h')
          (λ r h'.
            (r ≡ pos 200)
            × (Sent (to_peer h.world) body h' ⊎ (Cut (to_peer h.world) body h' × Failed os h')))
          (λ e h'. ⊥) (send_loop os site fuel body []) (λ e. pure (pos 200)) h
          (Ensures-Raises (λ r h'. (r ≡ pos 200) × Sent (to_peer h.world) body h')
            (λ e h'. Cut (to_peer h.world) body h') (Failed os) (send_loop os site fuel body [] h)
            (send_loop_lem body [] (to_peer h.world) h.world (omega arith) refl)
            (send_loop-Failed body [] h))
          (λ r h' (e, all). (e, inl all)) (λ e h' part. (refl, inr part)))
