-- ===== src/Protocols/Ftp/Quiet/Transfers.antt =====
-- The descriptors over `HandleLIST`, `HandleRETR` and `HandleSTOR` of libs/Protocols/ProtocolFtp.cpp.
use socket_program.Base.{
  ℕ, ℤ, pos, ◌≡◌, refl, Option-cases, inl, inr, List, [], ◌∷◌, ◌++◌, Bytes, codes,
}
use socket_program.Base.{
  Run, Outcome, done, threw, fault, diverged, ◌>>◌, pure, try_catch, Leaves, Leaves-then,
}
use socket_program.Inet.Os.{Os}
use socket_program.Inet.Socket.{SslSocket}
use socket_program.Inet.Io.Quiet.{Still}
use socket_program.Inet.Connect.Descriptors.{FdSet, Descriptors}
use socket_program.Protocols.Simple.{Reserve, Reading, send_message, recv_message}
use socket_program.Protocols.Simple.Quiet.{send_message-Leaves, recv_message-Leaves}
use socket_program.Protocols.Ftp.State.{Ftp, net, reply, drop_client, with_client}
use socket_program.Protocols.Ftp.Data.{
  Host, list_line, list_names, retr_body, recv_client, stor_body, handle_stor,
}
use socket_program.Protocols.Ftp.Quiet.{
  Kept, Same, net-Kept, drop_client-Kept, reply-Kept, reply_and, with_client-Kept, guarded,
  OwnsClient-Same,
}
use socket_program.Protocols.Ftp.Quiet.Connection.{HostFiles}

module _ (os : Os) (fuel : ℕ) (fds : Descriptors os fuel) (base : FdSet)
    (still : (set : FdSet) → Still os (λ v. fds.is_open v ≡ set)) (fd : ℤ) (host : Host os.World)
    (hosts : HostFiles host fds.is_open) (reserve : Reserve) where
  open os use {World}

  abbrev K : Ftp World → Type 0
  K = Kept os fuel fds base fd

  abbrev kept :
      {A : Type 0} (m : Run World A) (f : Ftp World)
      → K f
      → Leaves (Same os fuel fds base f.world) (m f.world)
      → Leaves K (net m f)
  kept = net-Kept os fuel fds base fd

  abbrev answer :
      {A : Type 0} (text : Bytes) (a : A) (f : Ftp World)
      → K f
      → Leaves K ((do reply os text; pure a) f)
  answer = reply_and os fuel fds base still fd

  sent :
      (s : SslSocket) (text : Bytes) (f : Ftp World)
      → K f
      → Leaves K (net (send_message os s text) f)
  sent s text f i = kept (send_message os s text) f i (
      send_message-Leaves os (Same os fuel fds base f.world) (still (fds.is_open f.world)) s text
        f.world refl)

  pub list_names-Kept :
      (s : SslSocket) (names : List Bytes) (f : Ftp World)
      → K f
      → Leaves K (list_names os host reserve fuel s names f)
  unfolding list_names
  list_names-Kept s [] f i = i
  list_names-Kept s (name ∷ names) f i =
      let path : Bytes = f.pwd ++ (codes "/" ++ name) in
      let w' : World = (host.stat path f.world).1 in
      let same = hosts.stat path f.world in
      let g : Ftp World = record f { world = w' } in
      let j : K g = (i.0, OwnsClient-Same os fuel fds base f.client f.world w' same i.1) in
      elim (Option-cases (host.stat path f.world).0) [
        | inl e ↦ rw (e, Leaves) (list_names-Kept s names g j)
        | inr (st, e) ↦
            rw (e, Leaves)
              (Leaves-then K (net (send_message os s (list_line st name)))
                (list_names os host reserve fuel s names)
                (record g { send_message = list_line st name }) (sent s (list_line st name) _ j)
                (λ h k. list_names-Kept s names h k))
      ]

  pub retr_body-Kept :
      (contents : Bytes) (s : SslSocket) (f : Ftp World)
      → K f
      → Leaves K (retr_body os host reserve fuel contents s f)
  unfolding retr_body
  retr_body-Kept contents s f i =
      Leaves-then K (net (send_message os s contents)) (drop_client os fuel)
        (record f { send_message = contents }) (sent s contents _ i)
        (λ g j. drop_client-Kept os fuel fds base fd g j)

  recv_client-Kept :
      (capacity : ℕ) (s : SslSocket) (f : Ftp World)
      → K f
      → Leaves K (recv_client os host reserve fuel capacity s f)
  unfolding recv_client
  recv_client-Kept capacity s f i =
      on
        (recv_message os reserve fuel s capacity
          (record { message = f.recv_message; world = f.world }))
        (recv_message-Leaves os (Same os fuel fds base f.world) (still (fds.is_open f.world))
          reserve fuel s capacity (record { message = f.recv_message; world = f.world }) refl)
    where
      on :
          (o : Outcome (Reading World) (Unit {0}))
          → Leaves (λ r. Same os fuel fds base f.world r.world) o
          → Leaves K (elim o [
            | done a r ↦ done a (record f { recv_message = r.message; world = r.world })
            | threw e r ↦ threw e (record f { recv_message = r.message; world = r.world })
            | fault ↦ fault
            | diverged ↦ diverged
          ])
      on (done a r) same = (i.0, OwnsClient-Same os fuel fds base f.client f.world r.world same i.1)
      on (threw e r) same =
          (i.0, OwnsClient-Same os fuel fds base f.client f.world r.world same i.1)
      on fault same = tt
      on diverged same = tt

  stor_body-Kept :
      (capacity : ℕ) (s : SslSocket) (f : Ftp World)
      → K f
      → Leaves K (stor_body os host reserve fuel capacity s f)
  unfolding stor_body
  stor_body-Kept capacity s f i =
      Leaves-then K (recv_client os host reserve fuel capacity s) (drop_client os fuel) f
        (recv_client-Kept capacity s f i) (λ g j. drop_client-Kept os fuel fds base fd g j)

  pub handle_stor-Kept :
      (capacity : ℕ) (f : Ftp World) → K f → Leaves K (handle_stor os host reserve fuel capacity f)
  unfolding handle_stor
  handle_stor-Kept capacity f i =
      let okay : Run (Ftp World) ℤ = (do
        reply os (codes "226 Transfer complete.\n")
        pure (pos 0)) in
      Leaves-then K
        (try_catch (with_client (stor_body os host reserve fuel capacity)) (λ e. pure tt))
        (reply os (codes "150 Ok to send data.\n") >> okay) f
        (guarded os fuel fds base still fd (with_client (stor_body os host reserve fuel capacity))
          tt f
          (with_client-Kept os fuel fds base still fd (stor_body os host reserve fuel capacity) f i
            (λ s. stor_body-Kept capacity s f i)))
        (λ g j.
          Leaves-then K (reply os (codes "150 Ok to send data.\n")) okay g
            (reply-Kept os fuel fds base still fd _ g j) (λ h k. answer _ (pos 0) h k))
