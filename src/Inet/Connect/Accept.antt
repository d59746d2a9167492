-- ===== src/Inet/Connect/Accept.antt =====
-- The ownership of descriptors in `ServerSocket::accept`.
use socket_program.Base.{
  ℕ, ℤ, minus_one, ◌==ℤ◌, is_nonpos, ◌≡◌, refl, ◌∙◌, inl, inr, true, false, Bool-cases, Option,
  none, some,
}
use socket_program.Base.{pure, Ensures, Ensures-then, Ensures-bind}
use socket_program.Inet.Os.{Os, auto_retry, partial_write}
use socket_program.Inet.Socket.{
  SslCtx, SslSocket, Held, new_socket, move, destroy, constructing, new_ssl, attach,
}
use socket_program.Inet.Connect.{accept_handshake, accept_body, accept}
use socket_program.Inet.Connect.Descriptors.{FdSet, with_fd, Descriptors}
use socket_program.Inet.Connect.Balance.{Owns, Balance, Balanced, kept, constructed}
use socket_program.Inet.Connect.Leaks.{made}

module _ (os : Os) (fuel : ℕ) (fds : Descriptors os fuel) where
  module _ (before : FdSet) where
    abbrev Owning : Held os.World → Type 0
    Owning h = Owns os fuel fds before h.object.socket (fds.is_open h.world)

    abbrev Even : Held os.World → Type 0
    Even h = Balanced os fuel fds before h

    -- What `newSSL` has done when it returns.
    abbrev Attached : ℤ → FdSet → ℤ → Held os.World → Type 0
    Attached fd now r h' =
        (q : ℕ) × (h'.object.ssl ≡ some q) × (h'.object.socket ≡ fd) × (fds.is_open h'.world ≡ now)

    attach-Even :
        (fd : ℤ) (p : Option ℕ) (ctx : Option SslCtx) (w : os.World) (now : FdSet)
        → fds.is_open w ≡ now
        → Balance os fuel fds before fd now
        → let h : Held os.World = record {
          object = record { socket = fd; ssl = p; sslctx = ctx };
          world = w;
        } in
          Ensures (Attached fd now) (λ e h'. Even h') (attach os p h)
    unfolding attach
    attach-Even fd none ctx w now k b = kept os fuel fds before fd _ _ k b
    attach-Even fd (some q) ctx w now k b = (
      q,
      refl,
      refl,
      fds.set_mode_keeps q partial_write _
          ∙ (fds.set_mode_keeps q auto_retry _ ∙ (fds.set_fd_keeps q fd w ∙ k)),
    )

    new_ssl-Even :
        (fd : ℤ) (m : Option ℕ) (w : os.World)
        → Balance os fuel fds before fd (fds.is_open w)
        → let h : Held os.World = record {
          object = new_socket fd (some (record { ctx = m }));
          world = w;
        } in
          Ensures (Attached fd (fds.is_open w)) (λ e h'. Even h') (new_ssl os h)
    unfolding new_ssl
    new_ssl-Even fd none w b = b
    new_ssl-Even fd (some ctx) w b =
        let r = os.ssl_new ctx w in
        attach-Even fd r.0 (some (record { ctx = some ctx })) r.1 (fds.is_open w)
          (fds.ssl_new_keeps ctx w) b

    accept_handshake-Owns :
        (fd : ℤ) (p : Option ℕ) (ctx : Option SslCtx) (w : os.World) (q : ℕ)
        → p ≡ some q
        → Owns os fuel fds before fd (fds.is_open w)
        → let h : Held os.World = record {
          object = record { socket = fd; ssl = p; sslctx = ctx };
          world = w;
        } in
          Ensures (λ u h'. Owning h') (λ e h'. Even h') (accept_handshake os h)
    unfolding accept_handshake
    accept_handshake-Owns fd none ctx w q e o = cc
    accept_handshake-Owns fd (some p) ctx w q e o =
        let r = os.ssl_accept p w in
        let o' : Owns os fuel fds before fd (fds.is_open r.1) =
          (o.0, o.1, fds.ssl_accept_keeps p w ∙ o.2) in
        elim (Bool-cases (is_nonpos r.0)) [
          | inl bad ↦ rw (bad, Ensures) (inr o')
          | inr good ↦ rw (good, Ensures) o'
        ]

    accept_body-Owns :
        (fd : ℤ) (ctx : Option SslCtx) (w : os.World)
        → Owns os fuel fds before fd (fds.is_open w)
        → Ensures
            (λ u h'. Owning h')
            (λ e h'. Even h')
            (accept_body os (record { object = new_socket fd ctx; world = w }))
    unfolding accept_body
    accept_body-Owns fd none w o = o
    accept_body-Owns fd (some c) w o =
        Ensures-then (Attached fd (fds.is_open w)) (λ e h'. Even h') (λ u h'. Owning h')
          (λ e h'. Even h') (new_ssl os) (accept_handshake os)
          (record { object = new_socket fd (some c); world = w }) (new_ssl-Even fd c.ctx w (inr o))
          (λ r h' (q, made, same, k).
            accept_handshake-Owns h'.object.socket h'.object.ssl h'.object.sslctx h'.world q made
              (rw same o.0, rw same o.1, rw same (k ∙ o.2)))
          (λ e h' b. b)

  -- `accept` comes to an end, with or without a context. If it returns, the new object's descriptor is
  -- a valid one, it was not open before, and it is all that is open beyond what was; if it throws, the
  -- open descriptors are those that were open before.
  pub accept-Owns :
      (server : SslSocket) (w : os.World)
      → Ensures
          (λ s w'.
            ((s.socket ==ℤ minus_one) ≡ false)
            × (fds.is_open w s.socket ≡ false)
            × (fds.is_open w' ≡ with_fd (fds.is_open w) s.socket true))
          (λ e w'. fds.is_open w' ≡ fds.is_open w)
          (accept os fuel server w)
  unfolding accept destroy move
  accept-Owns server w =
      let r = os.accept server.socket w in
      elim (Bool-cases (server.socket ==ℤ minus_one)) [
        | inl moved ↦ rw (moved, Ensures) refl
        | inr valid ↦
            rw (valid, Ensures)
              (elim (fds.accept_lem server.socket w) [
                | inl (e, same) ↦ rw (e, Ensures) same
                | inr o ↦
                    rw (o.0, Ensures)
                      (Ensures-bind
                        (λ s w'. Owns os fuel fds (fds.is_open w) s.socket (fds.is_open w'))
                        (λ e w'. fds.is_open w' ≡ fds.is_open w)
                        (λ s w'. Owns os fuel fds (fds.is_open w) s.socket (fds.is_open w'))
                        (λ e w'. fds.is_open w' ≡ fds.is_open w)
                        (constructing os fuel (accept_body os) (new_socket r.0 server.sslctx))
                        (λ newssl. pure (move none newssl).0) r.1
                        (constructed os fuel fds (fds.is_open w)
                          (λ s w'. Owns os fuel fds (fds.is_open w) s.socket (fds.is_open w'))
                          (accept_body os) (new_socket r.0 server.sslctx) r.1
                          (accept_body-Owns (fds.is_open w) r.0 server.sslctx r.1 o))
                        (λ s w' owned. owned) (λ e w' same. same))
              ])
      ]
