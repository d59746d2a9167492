-- ===== src/Inet/Connect/Server.antt =====
-- The ownership of descriptors in the constructor of `ServerSocket`.
use socket_program.Base.{
  ℕ, ℤ, pos, minus_one, ◌==ℤ◌, is_nonpos, ◌≡◌, refl, ◌∙◌, inl, inr, true, false, Bool-cases, Option,
  none, some, Bytes, codes, if◌then◌else◌,
}
use socket_program.Base.{
  Exn, is_runtime_error, bind_failed, listen_failed, Run, throw, Ensures, Ensures-then,
  Ensures-catch, Ensures-part, ◌>>◌,
}
use socket_program.Inet.Os.{Os}
use socket_program.Inet.Socket.{SslCtx, Held, outside, new_socket, close_ssl}
use socket_program.Inet.Ctx.{load_into, load_file}
use socket_program.Inet.Connect.{
  port_bits, max_connection_backlog, secure_server, server_body, server_socket,
}
use socket_program.Inet.Connect.Descriptors.{FdSet, with_fd, Descriptors}
use socket_program.Inet.Connect.Balance.{
  Owns, Balance, Balanced, kept, close_ssl-Balanced, constructed,
}
use socket_program.Inet.Connect.Leaks.{made, was_valid, close_and_throw-Balanced}

module _ (os : Os) (fuel : ℕ) (fds : Descriptors os fuel) where
  abbrev Same : os.World → os.World → Type 0
  Same w w' = fds.is_open w' ≡ fds.is_open w

  load_into-Same :
      (p : ℕ) (cert key : Bytes) (w : os.World)
      → Ensures (λ u w'. Same w w') (λ e w'. Same w w') (load_into os p cert key w)
  unfolding load_into
  load_into-Same p cert key w =
      let a = os.ctx_use_certificate p cert w in
      let b = os.ctx_use_private_key p key a.1 in
      let c = os.ctx_check_private_key p b.1 in
      let ka : Same w a.1 = fds.certificate_keeps p cert w in
      let kb : Same w b.1 = fds.private_key_keeps p key a.1 ∙ ka in
      let kc : Same w c.1 = fds.check_keeps p b.1 ∙ kb in
      elim (Bool-cases (is_nonpos a.0)) [
        | inl bad ↦ rw (bad, Ensures) ka
        | inr good ↦
            rw (good, Ensures)
              (elim (Bool-cases (is_nonpos b.0)) [
                | inl bad ↦ rw (bad, Ensures) kb
                | inr good' ↦
                    rw (good', Ensures)
                      (elim (Bool-cases (c.0 ==ℤ pos 0)) [
                        | inl bad ↦ rw (bad, Ensures) kc
                        | inr matches ↦ rw (matches, Ensures) kc
                      ])
              ])
      ]

  load_file-Same :
      (m : Option ℕ) (cert key : Bytes) (w : os.World)
      → Ensures
          (λ u w'. Same w w')
          (λ e w'. Same w w')
          (load_file os (record { ctx = m }) cert key w)
  unfolding load_file
  load_file-Same none cert key w = refl
  load_file-Same (some p) cert key w = load_into-Same p cert key w

  module _ (before : FdSet) where
    abbrev Owning : Held os.World → Type 0
    Owning h = Owns os fuel fds before h.object.socket (fds.is_open h.world)

    abbrev Even : Held os.World → Type 0
    Even h = Balanced os fuel fds before h

    reraise : Exn → Run (Held os.World) (Unit {0})
    reraise e = if is_runtime_error e then (do close_ssl os fuel; throw e) else throw e

    reraise-Even :
        (e : Exn) (h : Held os.World)
        → Even h
        → Ensures (λ u h'. Owning h') (λ e' h'. Even h') (reraise e h)
    unfolding reraise
    reraise-Even e h b = elim (Bool-cases (is_runtime_error e)) [
      | inl caught ↦
          rw (caught, Ensures)
            (Ensures-then (λ u h'. Even h') (λ e h'. ⊥) (λ u h'. Owning h') (λ e h'. Even h')
              (close_ssl os fuel) (throw e) h (close_ssl-Balanced os fuel fds before h b)
              (λ u h' r. r) (λ e h' r. absurd r))
      | inr passed ↦ rw (passed, Ensures) b
    ]

    secure_server-Owns :
        (fd : ℤ) (ctx : Option SslCtx) (w : os.World)
        → Owns os fuel fds before fd (fds.is_open w)
        → let h : Held os.World = record { object = new_socket fd ctx; world = w } in
          Ensures (λ u h'. Owning h') (λ e h'. Even h') (secure_server os fuel h)
    unfolding secure_server reraise
    secure_server-Owns fd none w o = o
    secure_server-Owns fd (some c) w o =
        let h : Held os.World = record { object = new_socket fd (some c); world = w } in
        let load : Run os.World (Unit {0}) =
          load_file os c (codes "example.crt") (codes "example.key") in
        Ensures-catch (λ u h'. Owning h') (λ e h'. Even h') (λ u h'. Owning h') (λ e h'. Even h')
          (outside load) reraise h
          (Ensures-part (λ u w'. Same w w') (λ e w'. Same w w') (λ u h'. Owning h')
            (λ e h'. Even h') (λ h. h.world) (λ h w. record h { world = w }) load h
            (load_file-Same c.ctx (codes "example.crt") (codes "example.key") w)
            (λ u w' k. (o.0, o.1, k ∙ o.2)) (λ e w' k. inr (o.0, o.1, k ∙ o.2)))
          (λ u h' r. r) (λ e h' b. reraise-Even e h' b)

    server_body-Owns :
        (fd port : ℤ) (ctx : Option SslCtx) (w : os.World)
        → Balance os fuel fds before fd (fds.is_open w)
        → Ensures
            (λ u h'. Owning h')
            (λ e h'. Even h')
            (server_body os fuel port (record { object = new_socket fd ctx; world = w }))
    unfolding server_body
    server_body-Owns fd port ctx w b =
        let w₁ = os.set_reuse_addr fd w in
        let r = os.bind fd (port_bits port) w₁ in
        let l = os.listen fd max_connection_backlog r.1 in
        let b₁ =
          kept os fuel fds before fd _ (fds.is_open r.1)
            (fds.bind_keeps fd (port_bits port) w₁ ∙ fds.reuse_keeps fd w) b in
        let b₂ =
          kept os fuel fds before fd _ (fds.is_open l.1)
            (fds.listen_keeps fd max_connection_backlog r.1) b₁ in
        elim (Bool-cases (r.0 ==ℤ pos 0)) [
          | inr refused ↦
              rw (refused, Ensures)
                (close_and_throw-Balanced os fuel fds before (λ h'. Owning h') bind_failed
                  (record { object = new_socket fd ctx; world = r.1 }) b₁)
          | inl bound ↦
              rw (bound, Ensures)
                (elim (Bool-cases (l.0 ==ℤ pos 0)) [
                  | inr refused ↦
                      rw (refused, Ensures)
                        (close_and_throw-Balanced os fuel fds before (λ h'. Owning h') listen_failed
                          (record { object = new_socket fd ctx; world = l.1 }) b₂)
                  | inl listening ↦
                      rw (listening, Ensures)
                        (secure_server-Owns fd ctx l.1 (
                          was_valid os fuel fds before
                            (λ x. (os.bind x (port_bits port) (os.set_reuse_addr x w)).0 ==ℤ pos 0)
                            fd _ bound (fds.bind_invalid (port_bits port) _) b₂))
                ])
        ]

  -- `ServerSocket`, with or without a context, comes to an end. If it returns, the object's descriptor
  -- is a valid one, it was not open before, and it is all that is open beyond what was; if it throws,
  -- the open descriptors are those that were open before.
  pub server_socket-Owns :
      (port : ℤ) (ctx : Option SslCtx) (w : os.World)
      → Ensures
          (λ s w'.
            ((s.socket ==ℤ minus_one) ≡ false)
            × (fds.is_open w s.socket ≡ false)
            × (fds.is_open w' ≡ with_fd (fds.is_open w) s.socket true))
          (λ e w'. fds.is_open w' ≡ fds.is_open w)
          (server_socket os fuel port ctx w)
  unfolding server_socket
  server_socket-Owns port ctx w =
      let r = os.socket w in
      constructed os fuel fds (fds.is_open w)
        (λ s w'. Owns os fuel fds (fds.is_open w) s.socket (fds.is_open w'))
        (server_body os fuel port) (new_socket r.0 ctx) r.1
        (server_body-Owns (fds.is_open w) r.0 port ctx r.1
          (made os fuel fds (fds.is_open w) (fds.is_open r.1) r.0 (fds.socket_lem w)))
