-- ===== src/Protocols/Ftp/Quiet/Connection.antt =====
-- The descriptors over `HandlePORT` of libs/Protocols/ProtocolFtp.cpp.
use socket_program.Base.{ℕ, ℤ, pos, ◌≡◌, none, some, false, Option-cases, inl, inr, Bytes, codes}
use socket_program.Base.{
  Run, ◌>>=◌, ◌>>◌, pure, modify, Leaves, Leaves-bind, Leaves-then, Leaves-both, Leaves-ensured,
  Leaves-catch,
}
use socket_program.Inet.Os.{Os}
use socket_program.Inet.Socket.{SslSocket}
use socket_program.Inet.Io.Quiet.{Still}
use socket_program.Inet.Connect.{connect_socket}
use socket_program.Inet.Connect.Descriptors.{FdSet, with_fd, Descriptors}
use socket_program.Inet.Connect.Sets.{Adds}
use socket_program.Protocols.Simple.{Reserve}
use socket_program.Protocols.Ftp.State.{Ftp, net, reply, drop_client}
use socket_program.Protocols.Ftp.Data.{
  Dir, Contents, Host, scan_port, port_target, connect_client, open_client, handle_port,
}
use socket_program.Protocols.Ftp.Data.Ownership.{OwnsClient, connect_client-OwnsClient}
use socket_program.Protocols.Ftp.Quiet.{
  Kept, Same, net-Kept, net-Control, drop_client-Control, reply_and, handle_error-Kept,
  OwnsClient-Same,
}

-- Asking for a name or for a file's state opens and closes no descriptor. Opening a directory or a file
-- gives one that was not open, or fails, and closing it closes that.
pub record HostFiles {W : Type 0} (host : Host W) (is_open : W → FdSet) : Type 0 where
  pub get_host_by_name :
      (name : Bytes) (w : W) → is_open (host.get_host_by_name name w).1 ≡ is_open w
  pub stat : (name : Bytes) (w : W) → is_open (host.stat name w).1 ≡ is_open w
  pub dir_fails :
      (name : Bytes) (w : W)
      → (host.open_dir name w).0 ≡ none
      → is_open (host.open_dir name w).1 ≡ is_open w
  pub dir_works :
      (name : Bytes) (w : W) (d : Dir)
      → (host.open_dir name w).0 ≡ some d
      → Adds (is_open w) d.handle (is_open (host.open_dir name w).1)
  pub dir_closes :
      (d : Dir) (w : W) → is_open (host.close_dir d w) ≡ with_fd (is_open w) d.handle false
  pub file_fails :
      (name : Bytes) (w : W)
      → (host.open_file name w).0 ≡ none
      → is_open (host.open_file name w).1 ≡ is_open w
  pub file_works :
      (name : Bytes) (w : W) (c : Contents)
      → (host.open_file name w).0 ≡ some c
      → Adds (is_open w) c.handle (is_open (host.open_file name w).1)
  pub file_closes :
      (c : Contents) (w : W) → is_open (host.close_file c w) ≡ with_fd (is_open w) c.handle false

module _ (os : Os) (fuel : ℕ) (fds : Descriptors os fuel) (base : FdSet)
    (still : (set : FdSet) → Still os (λ v. fds.is_open v ≡ set)) (fd : ℤ) (host : Host os.World)
    (hosts : HostFiles host fds.is_open) (reserve : Reserve) where
  open os use {World}

  abbrev K : Ftp World → Type 0
  K = Kept os fuel fds base fd

  abbrev kept :
      {A : Type 0} (m : Run World A) (f : Ftp World)
      → K f
      → Leaves (Same os fuel fds base f.world) (m f.world)
      → Leaves K (net m f)
  kept = net-Kept os fuel fds base fd

  abbrev answer :
      {A : Type 0} (text : Bytes) (a : A) (f : Ftp World)
      → K f
      → Leaves K ((do reply os text; pure a) f)
  answer = reply_and os fuel fds base still fd

  connect_client-Control :
      (address : Bytes) (port : ℤ) (f : Ftp World)
      → f.control.socket ≡ fd
      → Leaves (λ g. g.control.socket ≡ fd) (connect_client os host reserve fuel address port f)
  unfolding connect_client
  connect_client-Control address port f e =
      let C : Ftp World → Type 0 = λ g. g.control.socket ≡ fd in
      let connect : Run (Ftp World) SslSocket = net (connect_socket os fuel address port none) in
      let keep : SslSocket → Run (Ftp World) (Unit {0}) =
        λ s. modify (λ g. record g { client = some s }) in
      Leaves-catch C (drop_client os fuel >> (connect >>= keep)) (λ x. pure tt) f
        (Leaves-then C (drop_client os fuel) (connect >>= keep) f
          (drop_client-Control os fuel fds base fd f e)
          (λ g e'.
            Leaves-bind C connect keep g
              (net-Control os fuel fds base fd (connect_socket os fuel address port none) g e')
              (λ s h e''. e'')))
        (λ x g e'. e')

  connect_client-Kept :
      (address : Bytes) (port : ℤ) (f : Ftp World)
      → K f
      → Leaves K (connect_client os host reserve fuel address port f)
  connect_client-Kept address port f (e, o) =
      let I : Ftp World → Type 0 = λ g. OwnsClient os fuel fds base g.client g.world in
      Leaves-both (λ g. g.control.socket ≡ fd) I
        (connect_client os host reserve fuel address port f)
        (connect_client-Control address port f e)
        (Leaves-ensured (λ u g. I g) (λ x g. ⊥) I
          (connect_client os host reserve fuel address port f)
          (connect_client-OwnsClient os fuel fds base host reserve address port f o) (λ u g i. i)
          (λ x g no. absurd no))

  open_client-Kept :
      (name : Bytes) (port : ℤ) (f : Ftp World)
      → K f
      → Leaves K (open_client os host reserve fuel name port f)
  unfolding open_client
  open_client-Kept name port f i =
      let w' : World = (host.get_host_by_name name f.world).1 in
      let same = hosts.get_host_by_name name f.world in
      let g : Ftp World = record f { world = w' } in
      Leaves-then K (connect_client os host reserve fuel _ port)
        (do reply os (codes "200 PORT command successful. Consider using PASV.\n"); pure (pos 0)) g
        (connect_client-Kept _ port g
          (i.0, OwnsClient-Same os fuel fds base f.client f.world w' same i.1))
        (λ h j. answer _ (pos 0) h j)

  pub handle_port-Kept : (f : Ftp World) → K f → Leaves K (handle_port os host reserve fuel f)
  unfolding handle_port
  handle_port-Kept f i = elim (Option-cases (scan_port f.recv_message)) [
    | inl e ↦ rw (e, Leaves) (handle_error-Kept os fuel fds base still fd 500 f i)
    | inr ((i1, more), e) ↦
        rw (e, Leaves)
          (elim (Option-cases (port_target i1 more)) [
            | inl e' ↦ rw (e', Leaves) tt
            | inr ((name, port), e') ↦ rw (e', Leaves) (open_client-Kept name port f i)
          ])
  ]
