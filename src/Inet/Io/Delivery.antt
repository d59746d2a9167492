-- ===== src/Inet/Io/Delivery.antt =====
-- `putMessage` against the stream of bytes that the peer receives.
use socket_program.Base.{
  ℕ, zero, suc, ◌+◌, ◌-◌, ◌≤◌, ◌<◌, ℤ, pos, to_int_small, add_size, not-is_nonpos, add_size_small,
  ltb→lt, not-ltb→le, ◌≡◌, refl, sym, ◌∙◌, ap, inl, inr, Bool-cases, Option, none, some, ◌++◌,
  length, take, drop, take-add, take_all, length-drop, append-nil, append_assoc, Bytes, arith, ltb,
}
use socket_program.Base.{Exn, write_failed, Ensures, Ensures-bind}
use socket_program.Inet.Os.{Os}
use socket_program.Inet.Socket.{SslCtx, SslSocket}
use socket_program.Inet.Io.{put_once, put_loop, put_message}
use socket_program.Inet.Io.Transport.{Outgoing, sent}

module _ (os : Os) (out : Outgoing os) where
  -- What a round has done when it returns, and when it throws.
  abbrev Sent : SslSocket → Bytes → os.World → ℤ → os.World → Type 0
  Sent s rest w put w' =
      (n : ℕ) × (put ≡ pos n)
      × (0 < n)
      × (n ≤ length rest)
      × (sent out s w' ≡ sent out s w ++ take n rest)

  abbrev Unsent : SslSocket → os.World → Exn → os.World → Type 0
  Unsent s w e w' = (e ≡ write_failed) × (sent out s w' ≡ sent out s w)

  put_once_with :
      (fd : ℤ) (ssl : Option ℕ) (c : Option SslCtx) (rest : Bytes) (w : os.World)
      → 0 < length rest
      → length rest < 0x8000_0000
      → let s : SslSocket = record { socket = fd; ssl = ssl; sslctx = c } in
        Ensures (Sent s rest w) (Unsent s w) (put_once os s rest w)
  unfolding put_once
  put_once_with fd none c rest w some_left small = elim (out.write_lem fd rest w some_left) [
    | inl (n, e, p, le, t) ↦ rw (e, to_int_small n (omega arith)) (n, refl, p, le, t)
    | inr (e, t) ↦ rw e (refl, t)
  ]
  put_once_with fd (some p) c rest w some_left small =
      rw (to_int_small (length rest) small) (elim (out.ssl_write_lem p rest w some_left) [
        | inl (n, e, more, le, t) ↦ rw (e, not-is_nonpos n more) (n, refl, more, le, t)
        | inr (e, t) ↦ rw e (refl, t)
      ])

  -- One round sends a part of what is left that is not empty, or throws with nothing sent.
  put_once_lem :
      (s : SslSocket) (rest : Bytes) (w : os.World)
      → 0 < length rest
      → length rest < 0x8000_0000
      → Ensures (Sent s rest w) (Unsent s w) (put_once os s rest w)
  put_once_lem s = put_once_with s.socket s.ssl s.sslctx

  continued :
      (base buffer : Bytes) (m n : ℕ) {before : Bytes}
      → before ≡ base ++ take m buffer
      → before ++ take n (drop m buffer) ≡ base ++ take (m + n) buffer
  continued base buffer m n e = rw (e, take-add m n buffer) (append_assoc base _ _)

  -- The loop, entered with a prefix of the buffer sent, sends the rest.
  put_loop_lem :
      (fuel : ℕ) (s : SslSocket) (buffer : Bytes) (written : ℕ) (base : Bytes) (w : os.World)
      → length buffer < 0x8000_0000
      → written ≤ length buffer
      → length buffer - written < fuel
      → sent out s w ≡ base ++ take written buffer
      → Ensures
          (λ r w'. (r ≡ pos 0) × (sent out s w' ≡ base ++ buffer))
          (λ e w'.
            (n : ℕ) × (e ≡ write_failed)
            × (n < length buffer)
            × (sent out s w' ≡ base ++ take n buffer))
          (put_loop os fuel s buffer written w)
  unfolding put_loop
  put_loop_lem zero s buffer written base w small le more so_far = absurd (omega arith)
  put_loop_lem (suc fuel) s buffer written base w small le more so_far =
      elim (Bool-cases (ltb written (length buffer))) [
        | inl going ↦
            rw (going, Ensures)
              (Ensures-bind (Sent s (drop written buffer) w) (Unsent s w) _ _
                (put_once os s (drop written buffer))
                (λ put. put_loop os fuel s buffer (add_size written put)) w
                (put_once_lem s (drop written buffer) w
                  (omega (arith, length-drop written buffer, ltb→lt written (length buffer)))
                  (omega (arith, length-drop written buffer)))
                (λ put w' (n, e, some_sent, fits, t).
                  let room : written + n ≤ length buffer =
                    omega (arith, length-drop written buffer, ltb→lt written (length buffer)) in
                  rw (e, add_size_small written n (omega arith))
                    (put_loop_lem fuel s buffer (written + n) base w' small room (omega arith)
                      (t ∙ continued base buffer written n so_far)))
                (λ e w' (thrown, t).
                  (written, thrown, ltb→lt written (length buffer) going, t ∙ so_far)))
        | inr over ↦
            rw (over, Ensures)
              (refl, so_far ∙ ap (◌++◌ base) (take_all written buffer (not-ltb→le _ _ over)))
      ]

  -- `putMessage` of fewer than 2 ^ 31 bytes comes to an end. If it returns, it returns 0 and the peer
  -- was sent the whole buffer; if it throws, it throws the write error and the peer was sent a proper
  -- prefix of the buffer.
  pub put_message-Delivers :
      (s : SslSocket) (buffer : Bytes) (w : os.World)
      → length buffer < 0x8000_0000
      → Ensures
          (λ r w'. (r ≡ pos 0) × (sent out s w' ≡ sent out s w ++ buffer))
          (λ e w'.
            (n : ℕ) × (e ≡ write_failed)
            × (n < length buffer)
            × (sent out s w' ≡ sent out s w ++ take n buffer))
          (put_message os s buffer w)
  unfolding put_message
  put_message-Delivers s buffer w small =
      put_loop_lem (suc (length buffer)) s buffer 0 (sent out s w) w small (omega arith)
        (omega arith) (sym (append-nil _))
