-- ===== src/Inet/Io/Quiet.antt =====
-- What input and output leave as it was (libs/Inet/Socket.cpp, Socket.tpp).
use socket_program.Base.{
  ℕ, zero, suc, ◌-◌, ℤ, pos, minus_one, ◌==ℤ◌, is_nonpos, to_int, word, size_mod, add_size,
  Bool-cases, inl, inr, Option, none, some, [], ◌++◌, ltb, length, drop, Bytes, if◌then◌else◌, ◌≡◌,
  refl, subst,
}
use socket_program.Base.{
  Run, ◌>>◌, pure, throw, Leaves, Leaves-bind, Leaves-then, Leaves-if, Leaves-part, moved_socket,
  read_failed, read_timeout, select_failed, ssl_read_failed, write_failed, shutdown_failed,
}
use socket_program.Inet.Os.{Os, call, call_void}
use socket_program.Inet.Socket.{
  SslCtx, SslSocket, Held, shutdown_loop, close_ssl, close_write, put_close, outside, set_ssl,
}
use socket_program.Inet.Io.{
  Scan, put_once, put_loop, put_message, read_once, read_ready, get_once, get_next, get_loop,
  get_message,
}

-- A property of the world that the calls which move bytes leave alone, and those which end a session.
pub record Still (os : Os) (I : os.World → Type 0) : Type 0 where
  pub write : (fd : ℤ) (rest : Bytes) (w : os.World) → I w → I (os.write fd rest w).1
  pub read : (fd : ℤ) (room : ℕ) (w : os.World) → I w → I (os.read fd room w).1
  pub select : (fd timeout : ℤ) (w : os.World) → I w → I (os.select fd timeout w).1
  pub ssl_write :
      (p : ℕ) (n : ℤ) (rest : Bytes) (w : os.World) → I w → I (os.ssl_write p n rest w).1
  pub ssl_read : (p : ℕ) (n : ℤ) (w : os.World) → I w → I (os.ssl_read p n w).1
  pub ssl_shutdown : (p : ℕ) (w : os.World) → I w → I (os.ssl_shutdown p w).1
  pub ssl_free : (p : ℕ) (w : os.World) → I w → I (os.ssl_free p w)
  pub shutdown_write : (fd : ℤ) (w : os.World) → I w → I (os.shutdown_write fd w).1

module _ (os : Os) (I : os.World → Type 0) (still : Still os I) where
  put_once_with :
      (fd : ℤ) (ssl : Option ℕ) (c : Option SslCtx) (rest : Bytes) (w : os.World)
      → I w
      → let s : SslSocket = record { socket = fd; ssl = ssl; sslctx = c } in
        Leaves I (put_once os s rest w)
  unfolding put_once
  put_once_with fd none c rest w i =
      Leaves-if I (to_int (os.write fd rest w).0 ==ℤ minus_one) (throw write_failed) (pure _) _
        (still.write fd rest w i) (still.write fd rest w i)
  put_once_with fd (some p) c rest w i =
      Leaves-if I (is_nonpos (os.ssl_write p (to_int (pos (length rest))) rest w).0)
        (throw write_failed) (pure _) _ (still.ssl_write p _ rest w i)
        (still.ssl_write p _ rest w i)

  put_loop-Leaves :
      (fuel : ℕ) (s : SslSocket) (buffer : Bytes) (written : ℕ) (w : os.World)
      → I w
      → Leaves I (put_loop os fuel s buffer written w)
  unfolding put_loop
  put_loop-Leaves zero s buffer written w i = tt
  put_loop-Leaves (suc fuel) s buffer written w i =
      elim (Bool-cases (ltb written (length buffer))) [
        | inl more ↦
            rw (more, Leaves)
              (Leaves-bind I (put_once os s (drop written buffer))
                (λ put. put_loop os fuel s buffer (add_size written put)) w
                (put_once_with s.socket s.ssl s.sslctx (drop written buffer) w i)
                (λ put w' i'. put_loop-Leaves fuel s buffer _ w' i'))
        | inr over ↦ rw (over, Leaves) i
      ]

  pub put_message-Leaves :
      (s : SslSocket) (buffer : Bytes) (w : os.World) → I w → Leaves I (put_message os s buffer w)
  unfolding put_message
  put_message-Leaves s buffer w i = put_loop-Leaves (suc (length buffer)) s buffer 0 w i

  read_once-Leaves :
      (s : SslSocket) (room : ℕ) (w : os.World) → I w → Leaves I (read_once os s room w)
  unfolding read_once
  read_once-Leaves s room w i =
      Leaves-if I (to_int (os.read s.socket room w).0.0 ==ℤ minus_one) (throw read_failed) (pure _)
        _ (still.read s.socket room w i) (still.read s.socket room w i)

  read_ready-Leaves :
      (s : SslSocket) (room : ℕ) (state : ℤ) (w : os.World)
      → I w
      → Leaves I (read_ready os s room state w)
  unfolding read_ready
  read_ready-Leaves s room state w i =
      Leaves-if I (state ==ℤ minus_one) (throw select_failed)
        (if state ==ℤ pos 0 then throw read_timeout else read_once os s room) w i
        (Leaves-if I (state ==ℤ pos 0) (throw read_timeout) (read_once os s room) w i
          (read_once-Leaves s room w i))

  get_once_with :
      (fd : ℤ) (ssl : Option ℕ) (c : Option SslCtx) (room : ℕ) (timeout : ℤ) (w : os.World)
      → I w
      → let s : SslSocket = record { socket = fd; ssl = ssl; sslctx = c } in
        Leaves I (get_once os s room timeout w)
  unfolding get_once
  get_once_with fd none c room timeout w i =
      let s : SslSocket = record { socket = fd; ssl = none; sslctx = c } in
      Leaves-bind I (if timeout ==ℤ minus_one then pure (pos 1) else call (os.select fd timeout))
        (read_ready os s room) w
        (Leaves-if I (timeout ==ℤ minus_one) (pure (pos 1)) (call (os.select fd timeout)) w i
          (still.select fd timeout w i))
        (λ state w' i'. read_ready-Leaves s room state w' i')
  get_once_with fd (some p) c room timeout w i =
      Leaves-if I (is_nonpos (os.ssl_read p (to_int (pos room)) w).0.0) (throw ssl_read_failed)
        (pure _) _ (still.ssl_read p _ w i) (still.ssl_read p _ w i)

  get_next-Leaves :
      (scan : Scan) (data_read : ℕ) (buffer : Bytes) (r : ℤ × Bytes)
      (again : ℕ → Bytes → Run os.World (ℕ × Bytes)) (w : os.World)
      → I w
      → ((n : ℕ) (b : Bytes) → Leaves I (again n b w))
      → Leaves I (get_next os scan data_read buffer r again w)
  unfolding get_next
  get_next-Leaves scan data_read buffer r again w i more =
      Leaves-if I (r.0 ==ℤ pos 0) (pure (data_read, buffer))
        (if scan (word size_mod r.0) r.1
          then pure (add_size data_read r.0, buffer ++ r.1)
          else again (add_size data_read r.0) (buffer ++ r.1))
        w i
        (Leaves-if I (scan (word size_mod r.0) r.1) (pure (add_size data_read r.0, buffer ++ r.1))
          (again (add_size data_read r.0) (buffer ++ r.1)) w i (more _ _))

  get_loop-Leaves :
      (fuel : ℕ) (s : SslSocket) (size : ℕ) (timeout : ℤ) (scan : Scan) (data_read : ℕ)
      (buffer : Bytes) (w : os.World)
      → I w
      → Leaves I (get_loop os fuel s size timeout scan data_read buffer w)
  unfolding get_loop
  get_loop-Leaves zero s size timeout scan data_read buffer w i = tt
  get_loop-Leaves (suc fuel) s size timeout scan data_read buffer w i =
      elim (Bool-cases (ltb data_read size)) [
        | inl more ↦
            rw (more, Leaves)
              (Leaves-bind I (get_once os s (size - data_read) timeout)
                (λ r. get_next os scan data_read buffer r (get_loop os fuel s size timeout scan)) w
                (get_once_with s.socket s.ssl s.sslctx (size - data_read) timeout w i)
                (λ r w' i'.
                  get_next-Leaves scan data_read buffer r (get_loop os fuel s size timeout scan) w'
                    i' (λ n b. get_loop-Leaves fuel s size timeout scan n b w' i')))
        | inr full ↦ rw (full, Leaves) i
      ]

  pub get_message-Leaves :
      (s : SslSocket) (size : ℕ) (timeout : ℤ) (scan : Scan) (w : os.World)
      → I w
      → Leaves I (get_message os s size timeout scan w)
  unfolding get_message
  get_message-Leaves s size timeout scan w i =
      Leaves-if I (s.socket ==ℤ pos 0) (throw moved_socket)
        (get_loop os (suc size) s size timeout scan 0 []) w i
        (get_loop-Leaves (suc size) s size timeout scan 0 [] w i)

  shutdown_loop-Leaves : (fuel p : ℕ) (w : os.World) → I w → Leaves I (shutdown_loop os fuel p w)
  unfolding shutdown_loop
  shutdown_loop-Leaves zero p w i = tt
  shutdown_loop-Leaves (suc fuel) p w i = elim (Bool-cases ((os.ssl_shutdown p w).0 ==ℤ pos 0)) [
    | inl again ↦ rw (again, Leaves) (shutdown_loop-Leaves fuel p _ (still.ssl_shutdown p w i))
    | inr over ↦ rw (over, Leaves) (still.ssl_shutdown p w i)
  ]

  -- An object whose descriptor is this one.
  abbrev pub Holds : ℤ → Held os.World → Type 0
  Holds fd h = (h.object.socket ≡ fd) × I h.world

  close_ssl_with :
      (fd : ℤ) (ssl : Option ℕ) (c : Option SslCtx) (fuel : ℕ) (w : os.World)
      → I w
      → let s : SslSocket = record { socket = fd; ssl = ssl; sslctx = c } in
        Leaves (Holds fd) (close_ssl os fuel (record { object = s; world = w }))
  unfolding close_ssl
  close_ssl_with fd none c fuel w i = (refl, i)
  close_ssl_with fd (some p) c fuel w i =
      let s : SslSocket = record { socket = fd; ssl = some p; sslctx = c } in
      Leaves-then (Holds fd) (outside (shutdown_loop os fuel p))
        (do outside (call_void (os.ssl_free p)); set_ssl none) (record { object = s; world = w })
        (Leaves-part I (Holds fd) (λ h. h.world) (λ h w'. record h { world = w' })
          (shutdown_loop os fuel p) (record { object = s; world = w })
          (shutdown_loop-Leaves fuel p w i) (λ w' i'. (refl, i')))
        (λ h (e, i'). (e, still.ssl_free p h.world i'))

  close_write-Leaves :
      (fd : ℤ) (h : Held os.World) → Holds fd h → Leaves (Holds fd) (close_write os h)
  unfolding close_write
  close_write-Leaves fd h (e, i) =
      let w' = still.shutdown_write h.object.socket h.world i in
      Leaves-if (Holds fd) ((os.shutdown_write h.object.socket h.world).0 ==ℤ pos 0) (pure tt)
        (throw shutdown_failed) _ (e, w') (e, w')

  pub put_close-Leaves :
      (fd : ℤ) (fuel : ℕ) (h : Held os.World) → Holds fd h → Leaves (Holds fd) (put_close os fuel h)
  unfolding put_close
  put_close-Leaves fd fuel h (e, i) =
      Leaves-then (Holds fd) (close_ssl os fuel) (close_write os) h
        (subst (λ d. Leaves (Holds d) (close_ssl os fuel h)) e
          (close_ssl_with h.object.socket h.object.ssl h.object.sslctx fuel h.world i))
        (λ h' i'. close_write-Leaves fd h' i')
