-- ===== src/Inet/Connect/Leaks.antt =====
-- No constructor of a socket leaks a descriptor: each either gives an object that owns the one that
-- it opened, or throws with the open descriptors as they were.
use socket_program.Base.{
  ℕ, ℤ, pos, minus_one, ◌==ℤ◌, ◌≡◌, ap, inl, inr, Bool, true, false, Bool-cases, none, Bytes,
}
use socket_program.Base.{Exn, throw, Ensures, Ensures-then, connect_failed}
use socket_program.Inet.Os.{Os}
use socket_program.Inet.Socket.{Held, new_socket, move, close, destroy}
use socket_program.Inet.Connect.{port_bits, close_and_throw, connect_body, connect_socket}
use socket_program.Inet.Connect.Descriptors.{FdSet, with_fd, Made, Descriptors}
use socket_program.Inet.Connect.Balance.{
  Owns, Balance, Balanced, Released, close-Released, kept, constructed,
}

module _ (os : Os) (fuel : ℕ) (fds : Descriptors os fuel) where
  pub made : (before now : FdSet) (fd : ℤ) → Made before fd now → Balance os fuel fds before fd now
  made before now fd (inl (e, same)) = inl (e, same)
  made before now fd (inr o) = inr o

  module _ (before : FdSet) where
    pub close_and_throw-Balanced :
        (P : Held os.World → Type 0) (e : Exn) (h : Held os.World)
        → Balanced os fuel fds before h
        → Ensures (λ u h'. P h') (λ e' h'. Balanced os fuel fds before h') (close_and_throw os e h)
    close_and_throw-Balanced P e h b =
        Ensures-then (λ u h'. Released os fuel fds before h')
          (λ e h'. Released os fuel fds before h') _ _ (close os) (throw e) h
          (close-Released os fuel fds before h b) (λ u h' r. inl r) (λ e h' r. inl r)

    -- A call that fails on -1 and did not fail shows that the descriptor is a real one.
    pub was_valid :
        (test : ℤ → Bool) (fd : ℤ) (now : FdSet)
        → test fd ≡ true
        → test minus_one ≡ false
        → Balance os fuel fds before fd now
        → Owns os fuel fds before fd now
    was_valid test fd now passed fails (inl (e, same)) = cc (ap test e)
    was_valid test fd now passed fails (inr o) = o

    abbrev Owning : Held os.World → Type 0
    Owning h = Owns os fuel fds before h.object.socket (fds.is_open h.world)

    connect_body-Owns :
        (host : Bytes) (port fd : ℤ) (w : os.World)
        → Balance os fuel fds before fd (fds.is_open w)
        → Ensures
            (λ u h'. Owning h')
            (λ e h'. Balanced os fuel fds before h')
            (connect_body os host port (record { object = new_socket fd none; world = w }))
    unfolding connect_body
    connect_body-Owns host port fd w b =
        let r = os.connect fd host (port_bits port) w in
        let h : Held os.World = record { object = new_socket fd none; world = r.1 } in
        let b' = kept os fuel fds before fd _ _ (fds.connect_keeps fd host (port_bits port) w) b in
        elim (Bool-cases (r.0 ==ℤ pos 0)) [
          | inl connected ↦
              rw (connected, Ensures)
                (was_valid (λ x. (os.connect x host (port_bits port) w).0 ==ℤ pos 0) fd _ connected
                  (fds.connect_invalid host (port_bits port) w) b')
          | inr refused ↦
              rw (refused, Ensures) (close_and_throw-Balanced (λ h'. Owning h') connect_failed h b')
        ]

  -- `ConnectSocket` without a context comes to an end. If it returns, the object's descriptor is a
  -- valid one, it was not open before, and it is all that is open beyond what was; if it throws, the
  -- open descriptors are those that were open before.
  pub connect_socket-Owns :
      (host : Bytes) (port : ℤ) (w : os.World)
      → Ensures
          (λ s w'.
            ((s.socket ==ℤ minus_one) ≡ false)
            × (fds.is_open w s.socket ≡ false)
            × (fds.is_open w' ≡ with_fd (fds.is_open w) s.socket true))
          (λ e w'. fds.is_open w' ≡ fds.is_open w)
          (connect_socket os fuel host port none w)
  unfolding connect_socket destroy move
  connect_socket-Owns host port w =
      let r = os.socket w in
      constructed os fuel fds (fds.is_open w)
        (λ s w'. Owns os fuel fds (fds.is_open w) s.socket (fds.is_open w'))
        (connect_body os host port) (new_socket r.0 none) r.1
        (connect_body-Owns (fds.is_open w) host port r.0 r.1
          (made (fds.is_open w) (fds.is_open r.1) r.0 (fds.socket_lem w)))
