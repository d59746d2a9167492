-- ===== src/Protocols/Ftp/Data/Ownership.antt =====
-- The descriptor of the data connection over a `PORT` command.
use socket_program.Base.{ℕ, ℤ, ◌≡◌, refl, sym, ap, ◌∙◌, inr, true, Option, none, some, Bytes}
use socket_program.Base.{
  Run, Ensures, Ensures-then, Ensures-bind, Ensures-part, Ensures-catch, pure, modify, ◌>>◌, ◌>>=◌,
}
use socket_program.Inet.Os.{Os}
use socket_program.Inet.Socket.{SslSocket, destroy}
use socket_program.Inet.Connect.{connect_socket}
use socket_program.Inet.Connect.Descriptors.{FdSet, with_fd, Descriptors}
use socket_program.Inet.Connect.Balance.{Owns, destroy-Released}
use socket_program.Inet.Connect.Leaks.{connect_socket-Owns}
use socket_program.Protocols.Simple.{Reserve}
use socket_program.Protocols.Ftp.State.{Ftp, net, drop_client}
use socket_program.Protocols.Ftp.Data.{Host, connect_client}

module _ (os : Os) (fuel : ℕ) (fds : Descriptors os fuel) (base : FdSet) where
  -- What is open is `base`, and the descriptor of the data connection if there is one.
  abbrev pub OwnsClient : Option SslSocket → os.World → Type 0
  OwnsClient none w = fds.is_open w ≡ base
  OwnsClient (some s) w = Owns os fuel fds base s.socket (fds.is_open w)

  -- No data connection, and nothing open but `base`.
  abbrev pub Dropped : Ftp os.World → Type 0
  Dropped f = (f.client ≡ none) × (fds.is_open f.world ≡ base)

  pub drop_client-Dropped :
      (c : Option SslSocket) (f : Ftp os.World)
      → f.client ≡ c
      → OwnsClient c f.world
      → Ensures (λ u f'. Dropped f') (λ e f'. ⊥) (drop_client os fuel f)
  unfolding drop_client
  drop_client-Dropped none f e owned = rw (e, Ensures) (e, owned)
  drop_client-Dropped (some s) f e owned =
      rw (e, Ensures)
        (Ensures-then (λ u f'. fds.is_open f'.world ≡ base) (λ e f'. ⊥) (λ u f'. Dropped f')
          (λ e f'. ⊥) (net (destroy os fuel s)) (modify (λ g. record g { client = none })) f
          (Ensures-part (λ u w. fds.is_open w ≡ base) (λ e w. ⊥)
            (λ u f'. fds.is_open f'.world ≡ base) (λ e f'. ⊥) (λ g. g.world)
            (λ g w. record g { world = w }) (destroy os fuel s) f
            (destroy-Released os fuel fds base s f.world (inr owned)) (λ u w k. k) (λ e w k. k))
          (λ u f' k. (refl, k)) (λ e f' k. k))

  pub connect_client-OwnsClient :
      (host : Host os.World) (reserve : Reserve) (address : Bytes) (port : ℤ) (f : Ftp os.World)
      → OwnsClient f.client f.world
      → Ensures
          (λ u f'. OwnsClient f'.client f'.world)
          (λ e f'. ⊥)
          (connect_client os host reserve fuel address port f)
  unfolding connect_client
  connect_client-OwnsClient host reserve address port f owned =
      let finish : SslSocket → Run (Ftp os.World) (Unit {0}) =
        λ s. modify (λ f. record f { client = some s }) in
      Ensures-catch (λ u f'. OwnsClient f'.client f'.world) (λ e f'. Dropped f')
        (λ u f'. OwnsClient f'.client f'.world) (λ e f'. ⊥)
        (drop_client os fuel >> (net (connect_socket os fuel address port none) >>= finish))
        (λ e. pure tt) f
        (Ensures-then (λ u f'. Dropped f') (λ e f'. ⊥) (λ u f'. OwnsClient f'.client f'.world)
          (λ e f'. Dropped f') (drop_client os fuel)
          (net (connect_socket os fuel address port none) >>= finish) f
          (drop_client-Dropped f.client f refl owned)
          (λ u f' (gone, same).
            Ensures-bind (λ s g. Owns os fuel fds base s.socket (fds.is_open g.world))
              (λ e g. Dropped g) (λ u g. OwnsClient g.client g.world) (λ e g. Dropped g)
              (net (connect_socket os fuel address port none)) finish f'
              (Ensures-part
                (λ s w. Owns os fuel fds (fds.is_open f'.world) s.socket (fds.is_open w))
                (λ e w. fds.is_open w ≡ fds.is_open f'.world)
                (λ s g. Owns os fuel fds base s.socket (fds.is_open g.world)) (λ e g. Dropped g)
                (λ g. g.world) (λ g w. record g { world = w })
                (connect_socket os fuel address port none) f'
                (connect_socket-Owns os fuel fds address port f'.world)
                (λ s w (valid, fresh, open'). (
                  valid,
                  ap (λ set. set s.socket) (sym same) ∙ fresh,
                  open' ∙ ap (λ set. with_fd set s.socket true) same,
                ))
                (λ e w k. (gone, k ∙ same)))
              (λ s g owns. owns) (λ e g k. k))
          (λ e f' k. absurd k))
        (λ u f' k. k) (λ e f' (gone, same). rw gone same)
