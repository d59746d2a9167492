-- ===== src/Inet/Io/Stream.antt =====
-- `getMessage` against the stream of bytes that the peer sends.
use socket_program.Base.{
  ℕ, zero, suc, ◌+◌, ◌-◌, ◌≤◌, ◌<◌, ℤ, pos, minus_one, ◌==ℤ◌, is_nonpos, not-is_nonpos, not-zero,
  word_small, size_mod, to_int_small, add_size, add_size_small, ltb→lt, not-ltb→le, ◌≡◌, refl, sym,
  ◌∙◌, ap, ◌⊎◌, inl, inr, true, false, Bool-cases, Option, none, some, [], ◌∷◌, ◌++◌, length,
  length-append, append_assoc, Bytes, arith, ltb,
}
use socket_program.Base.{Exn, Ensures, Ensures-bind, Run}
use socket_program.Inet.Os.{Os}
use socket_program.Inet.Socket.{SslCtx, SslSocket}
use socket_program.Inet.Io.{Scan, read_once, read_ready, get_once, get_next, get_loop, get_message}
use socket_program.Inet.Io.Transport.{Incoming, Gave, pending}

module _ (os : Os) (inc : Incoming os) where
  -- What a read has done when it returns, and when it throws.
  abbrev Got : SslSocket → ℕ → Bytes → ℤ × Bytes → os.World → Type 0
  Got s room before r w' = Gave room r before (pending inc s w')

  abbrev Kept : SslSocket → Bytes → Exn → os.World → Type 0
  Kept s before e w' = pending inc s w' ≡ before

  module _ (fd : ℤ) (c : Option SslCtx) (room : ℕ) where
    abbrev plain_socket : SslSocket
    plain_socket = record { socket = fd; ssl = none; sslctx = c }

    read_once_lem :
        (w : os.World)
        → 0 < room
        → room < 0x8000_0000
        → Ensures
            (Got plain_socket room (pending inc plain_socket w))
            (Kept plain_socket (pending inc plain_socket w))
            (read_once os plain_socket room w)
    unfolding read_once
    read_once_lem w some_room small = elim (inc.read_lem fd room w some_room) [
      | inl (e, fits, next, more) ↦
          rw (e, to_int_small (length (os.read fd room w).0.1) (omega arith))
            (refl, fits, next, more)
      | inr (e, kept) ↦ rw e kept
    ]

    read_ready_lem :
        (state : ℤ) (w : os.World)
        → 0 < room
        → room < 0x8000_0000
        → Ensures
            (Got plain_socket room (pending inc plain_socket w))
            (Kept plain_socket (pending inc plain_socket w))
            (read_ready os plain_socket room state w)
    unfolding read_ready
    read_ready_lem state w some_room small = elim (Bool-cases (state ==ℤ minus_one)) [
      | inl failed ↦ rw (failed, Ensures) refl
      | inr selected ↦
          rw (selected, Ensures)
            (elim (Bool-cases (state ==ℤ pos 0)) [
              | inl late ↦ rw (late, Ensures) refl
              | inr ready ↦ rw (ready, Ensures) (read_once_lem w some_room small)
            ])
    ]

  get_once_with :
      (fd : ℤ) (ssl : Option ℕ) (c : Option SslCtx) (room : ℕ) (timeout : ℤ) (w : os.World)
      → 0 < room
      → room < 0x8000_0000
      → let s : SslSocket = record { socket = fd; ssl = ssl; sslctx = c } in
        Ensures
          (Got s room (pending inc s w))
          (Kept s (pending inc s w))
          (get_once os s room timeout w)
  unfolding get_once
  get_once_with fd none c room timeout w some_room small =
      elim (Bool-cases (timeout ==ℤ minus_one)) [
        | inl waits ↦ rw (waits, Ensures) (read_ready_lem fd c room (pos 1) w some_room small)
        | inr limited ↦
            rw (limited, Ensures)
              (rw (inc.select_lem fd timeout fd w) at (
                read_ready_lem fd c room (os.select fd timeout w).0 (os.select fd timeout w).1
                  some_room small))
      ]
  get_once_with fd (some p) c room timeout w some_room small =
      rw (to_int_small room small) (elim (inc.ssl_read_lem p room w some_room) [
        | inl ((e, fits, next, more), some_read) ↦
            let good : is_nonpos (os.ssl_read p (pos room) w).0.0 ≡ false =
              rw e (not-is_nonpos _ some_read) in
            rw (good, Ensures) (e, fits, next, more)
        | inr (e, kept) ↦ rw e kept
      ])

  -- One round stores the next bytes of the stream, or throws with the stream as it was.
  get_once_lem :
      (s : SslSocket) (room : ℕ) (timeout : ℤ) (w : os.World)
      → 0 < room
      → room < 0x8000_0000
      → Ensures
          (Got s room (pending inc s w))
          (Kept s (pending inc s w))
          (get_once os s room timeout w)
  get_once_lem s = get_once_with s.socket s.ssl s.sslctx

  -- Why `getMessage` returned: the buffer is full, the scanner took the last chunk, or the stream is
  -- at its end.
  abbrev pub Stopped : SslSocket → ℕ → Scan → ℕ × Bytes → os.World → Type 0
  Stopped s size scan r w' =
      (r.0 ≡ size)
      ⊎ ((front chunk : Bytes) × (r.1 ≡ front ++ chunk)
          × (0 < length chunk)
          × (scan (length chunk) chunk ≡ true))
      ⊎ (pending inc s w' ≡ [])

  module _ (s : SslSocket) (size : ℕ) (timeout : ℤ) (scan : Scan) (stream : Bytes) where
    abbrev Returned : ℕ × Bytes → os.World → Type 0
    Returned r w' =
        (r.0 ≡ length r.1)
        × (r.0 ≤ size)
        × (stream ≡ r.1 ++ pending inc s w')
        × Stopped s size scan r w'

    abbrev Lost : Exn → os.World → Type 0
    Lost e w' = (got : Bytes) × (length got < size) × (stream ≡ got ++ pending inc s w')

    -- The end of a round, if the rest of the loop keeps its promise.
    get_next_lem :
        (data_read : ℕ) (buffer : Bytes) (r : ℤ × Bytes)
        (again : ℕ → Bytes → Run os.World (ℕ × Bytes)) (w' : os.World) (before : Bytes)
        → size < 0x8000_0000
        → data_read ≡ length buffer
        → data_read < size
        → stream ≡ buffer ++ before
        → Got s (size - data_read) before r w'
        → ((buffer' : Bytes)
            → length buffer' ≤ size
            → data_read < length buffer'
            → stream ≡ buffer' ++ pending inc s w'
            → Ensures Returned Lost (again (length buffer') buffer' w'))
        → Ensures Returned Lost (get_next os scan data_read buffer r again w')
    unfolding get_next
    get_next_lem data_read buffer (ret, []) again w' before small counted room so_far
          (e, fits, next, some_read) rest =
        rw e (counted, omega arith, so_far ∙ ap (◌++◌ buffer) next, inr (inr (end some_read)))
      where
        end : (0 < 0) ⊎ (before ≡ []) → pending inc s w' ≡ []
        end (inl h) = absurd (omega arith)
        end (inr h) = sym next ∙ h
    get_next_lem data_read buffer (ret, c ∷ chunk) again w' before small counted room so_far
          (e, fits, next, some_read) rest =
        let n : ℕ = length (c ∷ chunk) in
        let buffer' : Bytes = buffer ++ c ∷ chunk in
        let longer : length buffer' ≡ data_read + n =
          omega (arith, length-append buffer (c ∷ chunk)) in
        let so_far' : stream ≡ buffer' ++ pending inc s w' =
          so_far ∙ ap (◌++◌ buffer) next ∙ sym (append_assoc buffer (c ∷ chunk) _) in
        let counted' : add_size data_read (pos n) ≡ length buffer' =
          add_size_small data_read n (omega arith) ∙ sym longer in
        rw (e, not-zero n (omega arith), counted', word_small size_mod n (omega arith), Ensures)
          (elim (Bool-cases (scan n (c ∷ chunk))) [
            | inl enough ↦
                rw (enough, Ensures)
                  (
                    refl,
                    omega arith,
                    so_far',
                    inr (inl (buffer, c ∷ chunk, refl, omega arith, enough)),
                  )
            | inr short ↦ rw (short, Ensures) (rest buffer' (omega arith) (omega arith) so_far')
          ])

    -- The loop, entered with a prefix of the stream in the buffer.
    get_loop_lem :
        (fuel data_read : ℕ) (buffer : Bytes) (w : os.World)
        → size < 0x8000_0000
        → data_read ≡ length buffer
        → data_read ≤ size
        → size - data_read < fuel
        → stream ≡ buffer ++ pending inc s w
        → Ensures Returned Lost (get_loop os fuel s size timeout scan data_read buffer w)
    unfolding get_loop
    get_loop_lem zero data_read buffer w small counted fits more so_far = absurd (omega arith)
    get_loop_lem (suc fuel) data_read buffer w small counted fits more so_far =
        elim (Bool-cases (ltb data_read size)) [
          | inl going ↦
              rw (going, Ensures)
                (Ensures-bind (Got s (size - data_read) (pending inc s w))
                  (Kept s (pending inc s w)) Returned Lost
                  (get_once os s (size - data_read) timeout)
                  (λ r. get_next os scan data_read buffer r (get_loop os fuel s size timeout scan))
                  w
                  (get_once_lem s (size - data_read) timeout w
                    (omega (arith, ltb→lt data_read size)) (omega arith))
                  (λ r w' got.
                    get_next_lem data_read buffer r (get_loop os fuel s size timeout scan) w'
                      (pending inc s w) small counted (ltb→lt data_read size going) so_far got
                      (λ buffer' room longer so_far'.
                        get_loop_lem fuel (length buffer') buffer' w' small refl room (omega arith)
                          so_far'))
                  (λ e w' kept. (buffer, omega (arith, ltb→lt data_read size), rw kept so_far)))
          | inr full ↦
              rw (full, Ensures)
                (counted, fits, so_far, inl (omega (arith, not-ltb→le data_read size full)))
        ]

  -- `getMessage` on a socket that is not 0, into a buffer of fewer than 2 ^ 31 bytes, comes to an end.
  -- If it returns, it returns the number of the bytes that it stored, they fit, they are the next
  -- bytes of the stream, and it stopped because the buffer is full, because the scanner took the last
  -- chunk, or because the stream is at its end. If it throws, what it had read, fewer bytes than the
  -- buffer holds, is gone from the stream.
  pub get_message-Reads :
      (s : SslSocket) (size : ℕ) (timeout : ℤ) (scan : Scan) (w : os.World)
      → size < 0x8000_0000
      → (s.socket ==ℤ pos 0) ≡ false
      → Ensures
          (λ r w'.
            (r.0 ≡ length r.1)
            × (r.0 ≤ size)
            × (pending inc s w ≡ r.1 ++ pending inc s w')
            × Stopped s size scan r w')
          (λ e w'.
            (got : Bytes) × (length got < size) × (pending inc s w ≡ got ++ pending inc s w'))
          (get_message os s size timeout scan w)
  unfolding get_message
  get_message-Reads s size timeout scan w small valid =
      rw (valid, Ensures)
        (get_loop_lem s size timeout scan (pending inc s w) (suc size) 0 [] w small refl
          (omega arith) (omega arith) refl)
