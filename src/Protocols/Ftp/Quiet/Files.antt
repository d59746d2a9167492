-- ===== src/Protocols/Ftp/Quiet/Files.antt =====
-- The descriptors over `HandleLIST` and `HandleRETR` of libs/Protocols/ProtocolFtp.cpp, which open a
-- directory and a file.
use socket_program.Base.{
  minus_one, ◌==ℤ◌, ℕ, ℤ, pos, ◌≡◌, refl, Option-cases, Bool, true, false, inl, inr, [], ◌∷◌, ◌++◌,
  Bytes, codes, if◌then◌else◌,
}
use socket_program.Base.{
  Run, Outcome, done, threw, fault, diverged, ◌>>=◌, ◌>>◌, pure, try_catch, Leaves, Leaves-bind,
  Leaves-then, Leaves-if, Leaves-chain, Leaves-catch,
}
use socket_program.Inet.Os.{Os, call_void}
use socket_program.Inet.Socket.{SslSocket}
use socket_program.Inet.Io.Quiet.{Still}
use socket_program.Inet.Connect.Descriptors.{FdSet, with_fd, Descriptors}
use socket_program.Inet.Connect.Sets.{opened}
use socket_program.Protocols.Simple.{Reserve}
use socket_program.Protocols.Ftp.State.{Ftp, net, reply, handle_error, drop_client, with_client}
use socket_program.Protocols.Ftp.Commands.{with_argument}
use socket_program.Protocols.Ftp.Data.{
  Dir, Contents, closing, send_contents, Host, list_names, list_body, handle_list, retr_body,
  send_file, handle_retr,
}
use socket_program.Protocols.Ftp.Quiet.{
  Kept, drop_client-Kept, reply-Kept, reply_and, handle_error-Kept, with_client-Kept, guarded,
  OwnsClient-Same,
}
use socket_program.Protocols.Ftp.Quiet.Commands.{with_argument-Kept}
use socket_program.Protocols.Ftp.Quiet.Connection.{HostFiles}
use socket_program.Protocols.Ftp.Quiet.Transfers.{list_names-Kept, retr_body-Kept}
use socket_program.Protocols.Ftp.Quiet.{Kept-more, Kept-out, Kept-less}
use socket_program.Protocols.Ftp.Quiet.Leaky.{OfDirectory, Leaky, carried}

module _ (os : Os) (fuel : ℕ) (fds : Descriptors os fuel)
    (still : (set : FdSet) → Still os (λ v. fds.is_open v ≡ set)) (fd : ℤ) (host : Host os.World)
    (hosts : HostFiles host fds.is_open) (reserve : Reserve) (base : FdSet) where
  open os use {World}

  abbrev K : Ftp World → Type 0
  K = Kept os fuel fds base fd

  abbrev L : Ftp World → Type 0
  L = Leaky os fuel fds host base fd

  plain : {A : Type 0} (o : Outcome (Ftp World) A) → Leaves K o → Leaves L o
  plain o l = carried os fuel fds host base fd [] o tt tt l

  -- The directory is closed where the listing is whole, and left open where it throws.
  listed :
      (s : SslSocket) (d : Dir) (g : Ftp World)
      → OfDirectory host d.handle
      → ((d.handle ==ℤ minus_one) ≡ false)
      → base d.handle ≡ false
      → Kept os fuel fds (with_fd base d.handle true) fd g
      → Leaves L (
          (do
            list_names os host reserve fuel s d.names
            net (call_void (host.close_dir d))
            drop_client os fuel
            pure true)
            g)
  listed s d g from valid out k =
      let more : FdSet = with_fd base d.handle true in
      let rest : Run (Ftp World) Bool = (do drop_client os fuel; pure true) in
      Leaves-chain (Kept os fuel fds more fd) L (list_names os host reserve fuel s d.names)
        (net (call_void (host.close_dir d)) >> rest) g
        (list_names-Kept os fuel fds more still fd host hosts reserve s d.names g k)
        (λ h j. (d.handle ∷ [], ((valid, out, tt), (from, tt), j)))
        (λ h j.
          let h' : Ftp World = record h { world = host.close_dir d h.world } in
          plain (rest h') (
            Leaves-then K (drop_client os fuel) (pure true) h'
              (drop_client-Kept os fuel fds base fd h' (
                Kept-less os fuel fds base fd d.handle h (host.close_dir d h.world) j out
                  (hosts.dir_closes d h.world)))
              (λ h'' j'. j')))

  list_body-Leaky :
      (s : SslSocket) (f : Ftp World) → K f → Leaves L (list_body os host reserve fuel s f)
  unfolding list_body
  list_body-Leaky s f i =
      let w' : World = (host.open_dir f.pwd f.world).1 in
      let g : Ftp World = record f { world = w' } in
      elim (Option-cases (host.open_dir f.pwd f.world).0) [
        | inl e ↦
            let j : K g = (
              i.0,
              OwnsClient-Same os fuel fds base f.client f.world w' (hosts.dir_fails f.pwd f.world e)
                  i.1,
            ) in
            rw (e, Leaves)
              (plain ((do handle_error os 500; pure false) g) (
                Leaves-then K (handle_error os 500) (pure false) g
                  (handle_error-Kept os fuel fds base still fd 500 g j) (λ h k. k)))
        | inr (d, e) ↦
            let adds = hosts.dir_works f.pwd f.world d e in
            rw (e, Leaves)
              (listed s d g (f.pwd, f.world, d, e, refl) adds.0
                (Kept-out os fuel fds base fd d.handle f i adds.1)
                (Kept-more os fuel fds base fd d.handle f w' i adds))
      ]

  -- The end of `HandleLIST`.
  list_end :
      (works : Bool) (h : Ftp World)
      → L h
      → Leaves L (
          (if works
              then (do reply os (codes "226 Directory send OK.\n"); pure (pos 0))
              else pure (pos 0))
            h)
  list_end works h (leaked, (fresh, dirs, k)) =
      Leaves-if L works (do reply os (codes "226 Directory send OK.\n"); pure (pos 0))
        (pure (pos 0)) h
        (carried os fuel fds host base fd leaked _ fresh dirs (
          reply_and os fuel fds (opened base leaked) still fd (codes "226 Directory send OK.\n")
            (pos 0) h k))
        (leaked, (fresh, dirs, k))

  pub handle_list-Leaky : (f : Ftp World) → K f → Leaves L (handle_list os host reserve fuel f)
  unfolding handle_list
  handle_list-Leaky f i =
      let body : Run (Ftp World) Bool =
        try_catch (with_client (list_body os host reserve fuel)) (λ e. pure true) in
      let rest : Bool → Run (Ftp World) ℤ = λ opened.
        if opened
        then (do reply os (codes "226 Directory send OK.\n"); pure (pos 0))
        else pure (pos 0) in
      Leaves-chain K L (reply os (codes "150 Here comes the directory listing.\n")) (body >>= rest)
        f (reply-Kept os fuel fds base still fd _ f i) (λ g j. ([], (tt, tt, j)))
        (λ g j.
          Leaves-bind L body rest g
            (Leaves-catch L (with_client (list_body os host reserve fuel)) (λ e. pure true) g
              (elim (Option-cases g.client) [
                | inl c ↦ rw (c, Leaves) tt
                | inr (s, c) ↦ rw (c, Leaves) (list_body-Leaky s g j)
              ])
              (λ e h k. k))
            (λ opened h k. list_end opened h k))

  closing-Kept :
      (c : Contents) (o : Outcome (Ftp World) ℤ)
      → base c.handle ≡ false
      → Leaves (Kept os fuel fds (with_fd base c.handle true) fd) o
      → Leaves K (closing os host reserve fuel c o)
  unfolding closing
  closing-Kept c (done a f) out k =
      Kept-less os fuel fds base fd c.handle f (host.close_file c f.world) k out
        (hosts.file_closes c f.world)
  closing-Kept c (threw e f) out k =
      Kept-less os fuel fds base fd c.handle f (host.close_file c f.world) k out
        (hosts.file_closes c f.world)
  closing-Kept c fault out k = tt
  closing-Kept c diverged out k = tt

  send_contents-Kept :
      (contents : Bytes) (g : Ftp World)
      → K g
      → Leaves K (send_contents os host reserve fuel contents g)
  unfolding send_contents
  send_contents-Kept contents g j =
      let okay : Run (Ftp World) ℤ = (do reply os (codes "226 file send OK.\n"); pure (pos 0)) in
      let body : SslSocket → Run (Ftp World) (Unit {0}) = retr_body os host reserve fuel contents in
      Leaves-then K (try_catch (with_client body) (λ e. pure tt)) okay g
        (guarded os fuel fds base still fd (with_client body) tt g (
          with_client-Kept os fuel fds base still fd body g j
            (λ s. retr_body-Kept os fuel fds base still fd host hosts reserve contents s g j)))
        (λ h k. reply_and os fuel fds base still fd _ (pos 0) h k)

module _ (os : Os) (fuel : ℕ) (fds : Descriptors os fuel)
    (still : (set : FdSet) → Still os (λ v. fds.is_open v ≡ set)) (fd : ℤ) (host : Host os.World)
    (hosts : HostFiles host fds.is_open) (reserve : Reserve) (base : FdSet) where
  open os use {World}

  abbrev M : Ftp World → Type 0
  M = Kept os fuel fds base fd

  send_file-Kept :
      (name : Bytes) (f : Ftp World) → M f → Leaves M (send_file os host reserve fuel name f)
  unfolding send_file
  send_file-Kept name f i =
      let path : Bytes = f.pwd ++ (codes "/" ++ name) in
      let w' : World = (host.open_file path f.world).1 in
      let g : Ftp World = record f { world = w' } in
      elim (Option-cases (host.open_file path f.world).0) [
        | inl e ↦
            rw (e, Leaves)
              (handle_error-Kept os fuel fds base still fd 500 g (
                i.0,
                OwnsClient-Same os fuel fds base f.client f.world w'
                    (hosts.file_fails path f.world e) i.1,
              ))
        | inr (c, e) ↦
            let adds = hosts.file_works path f.world c e in
            rw (e, Leaves)
              (closing-Kept os fuel fds still fd host hosts reserve base c
                (send_contents os host reserve fuel c.text g)
                (Kept-out os fuel fds base fd c.handle f i adds.1)
                (send_contents-Kept os fuel fds still fd host hosts reserve
                  (with_fd base c.handle true) c.text g
                  (Kept-more os fuel fds base fd c.handle f w' i adds)))
      ]

  pub handle_retr-Kept : (f : Ftp World) → M f → Leaves M (handle_retr os host reserve fuel f)
  unfolding handle_retr
  handle_retr-Kept f i =
      let go : Bytes → Run (Ftp World) ℤ = send_file os host reserve fuel in
      Leaves-then M (reply os (codes "150 file open\n")) (with_argument os (codes "RETR") go) f
        (reply-Kept os fuel fds base still fd _ f i)
        (λ g j.
          with_argument-Kept os fuel fds base still fd (codes "RETR") go g j
            (λ name. send_file-Kept name g j))
