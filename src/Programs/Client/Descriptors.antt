-- ===== src/Programs/Client/Descriptors.antt =====
-- Which descriptors the client of src/client.cpp leaves open.
use socket_program.Base.{
  ℕ, zero, suc, ◌-◌, ℤ, pos, minus_one, ◌==ℤ◌, ◌==◌, ◌≡◌, refl, subst, Bool, true, false, inl, inr,
  Option-cases, none, some, [], ◌∷◌, ◌++◌, Bytes, cr_lf, c_str, if◌then◌else◌,
}
use socket_program.Base.{
  Outcome, done, threw, fault, diverged, ◌>>=◌, ◌>>◌, pure, Ensures, Leaves, Leaves-bind,
  Leaves-then, Leaves-if, Leaves-catch,
}
use socket_program.Inet.Os.{Os}
use socket_program.Inet.Socket.{SslSocket}
use socket_program.Inet.Io.{put_message, get_message, scan_any}
use socket_program.Inet.Io.Quiet.{Still}
use socket_program.Inet.Connect.{connect_socket}
use socket_program.Inet.Connect.Descriptors.{FdSet, with_fd, Descriptors}
use socket_program.Inet.Connect.Leaks.{connect_socket-Owns}
use socket_program.Protocols.Simple.{Reserve, reserved}
use socket_program.Protocols.Ftp.Data.{Host}
use socket_program.Protocols.Http.State.{Http, File, Site, new_http, net, set_request_host}
use socket_program.Protocols.Http.Client.{
  Line, put, getline_from, send_lines, closing, send_request_fd, recv_loop, recv_message,
}
use socket_program.Protocols.Http.Quiet.{
  On as OnSocket, OwnsFile-same, OwnsFile-more, OwnsFile-out, OwnsFile-less, got-Leaves,
  sent-Leaves, reserved-Leaves,
}
use socket_program.Protocols.Http.Quiet.Sending.{SiteFiles}
use socket_program.Programs.Server.{message_capacity, atoi}
use socket_program.Programs.Server.Threads.{GivesBack, destroyed-Leaves, end_session-Leaves}
use socket_program.Programs.Client.{exchange, client_session, talk, client_main, last_address}

module _ (os : Os) (reserve : Reserve) (is_open : os.World → FdSet)
    (still : (set : FdSet) → Still os (λ v. is_open v ≡ set)) (fd : ℤ) (site : Site os.World)
    (files : SiteFiles site is_open) (host : Host os.World) (base : FdSet) where
  open os use {World}

  abbrev On : Http World → Type 0
  On = OnSocket os is_open base still fd

  put-Leaves : (message : Bytes) (h : Http World) → On h → Leaves On (put os reserve site message h)
  put-Leaves message h i =
      Leaves-then On (net (put_message os h.socket message)) (pure tt) h
        (sent-Leaves os is_open base still fd message h i) (λ h' i'. i')

  send_lines_with :
      (fuel : ℕ) (text rest : Bytes) (eof failed : Bool) (h : Http World)
      → On h
      → Leaves On (
          send_lines os reserve site fuel
            (record { text = text; rest = rest; eof = eof; failed = failed })
            h)
  unfolding send_lines
  send_lines_with zero text rest eof failed h i = tt
  send_lines_with (suc fuel) text rest true failed h i = i
  send_lines_with (suc fuel) text rest false true h i =
      let line : Line = record { text = text; rest = rest; eof = false; failed = true } in
      Leaves-then On (put os reserve site cr_lf) (send_lines os reserve site fuel line) h
        (put-Leaves cr_lf h i) (λ h' i'. send_lines_with fuel text rest false true h' i')
  send_lines_with (suc fuel) text rest false false h i =
      let line = getline_from 0 rest in
      Leaves-then On (put os reserve site (c_str line.text ++ cr_lf))
        (send_lines os reserve site fuel line) h (put-Leaves _ h i)
        (λ h' i'. send_lines_with fuel line.text line.rest line.eof line.failed h' i')

module _ (os : Os) (reserve : Reserve) (is_open : os.World → FdSet)
    (still : (set : FdSet) → Still os (λ v. is_open v ≡ set)) (fd : ℤ) (site : Site os.World)
    (files : SiteFiles site is_open) (host : Host os.World) (base : FdSet) where
  open os use {World}

  abbrev Here : Http World → Type 0
  Here = OnSocket os is_open base still fd

  -- The stream is closed on every way out.
  closing-Leaves :
      (f : File) (o : Outcome (Http World) ℤ)
      → base f.handle ≡ false
      → Leaves (OnSocket os is_open (with_fd base f.handle true) still fd) o
      → Leaves Here (closing os reserve site f o)
  unfolding closing
  closing-Leaves f (done a h) out (e, o) =
      (e, OwnsFile-less is_open base h.file f.handle h.world _ o out (files.closes f h.world))
  closing-Leaves f (threw x h) out (e, o) =
      (e, OwnsFile-less is_open base h.file f.handle h.world _ o out (files.closes f h.world))
  closing-Leaves f fault out i = tt
  closing-Leaves f diverged out i = tt

  send_request_fd-Leaves :
      (lines : ℕ) (doc : Bytes) (h : Http World)
      → Here h
      → Leaves Here (send_request_fd os reserve site lines doc h)
  unfolding send_request_fd
  send_request_fd-Leaves lines doc h (e, o) =
      let w : World = (site.open_file doc h.world).1 in
      elim (Option-cases (site.open_file doc h.world).0) [
        | inl no_file ↦
            rw (no_file, Leaves)
              (
                e,
                OwnsFile-same is_open base h.file h.world w (files.open_fails doc h.world no_file)
                    o,
              )
        | inr (f, got) ↦
            let more : FdSet = with_fd base f.handle true in
            let M : Http World → Type 0 = OnSocket os is_open more still fd in
            let adds = files.open_works doc h.world f got in
            let line : Line = record {
              text = [];
              rest = f.bytes_from 0;
              eof = false;
              failed = false;
            } in
            rw (got, Leaves)
              (closing-Leaves f
                ((do send_lines os reserve site lines line; pure (pos 0)) (record h { world = w }))
                (OwnsFile-out is_open base h.file f.handle h.world o adds.1)
                (Leaves-then M (send_lines os reserve site lines line) (pure (pos 0))
                  (record h { world = w })
                  (send_lines_with os reserve is_open still fd site files host more lines []
                    (f.bytes_from 0) false false (record h { world = w })
                    (e, OwnsFile-more is_open base h.file f.handle h.world w o adds))
                  (λ h' i'. i')))
      ]

  recv_loop-Leaves :
      (capacity fuel : ℕ) (h : Http World)
      → Here h
      → Leaves Here (recv_loop os reserve site capacity fuel h)
  unfolding recv_loop
  recv_loop-Leaves capacity zero h i = tt
  recv_loop-Leaves capacity (suc fuel) h i =
      Leaves-bind Here (net (get_message os h.socket (capacity - 1) minus_one scan_any))
        (λ got. if got.0 == 0 then pure tt else recv_loop os reserve site capacity fuel) h
        (got-Leaves os is_open base still fd h.socket (capacity - 1) scan_any h i)
        (λ got h' i'.
          Leaves-if Here (got.0 == 0) (pure tt) (recv_loop os reserve site capacity fuel) h' i'
            (recv_loop-Leaves capacity fuel h' i'))

  recv_message-Leaves :
      (reads capacity : ℕ) (h : Http World)
      → Here h
      → Leaves Here (recv_message os reserve site reads capacity h)
  unfolding recv_message
  recv_message-Leaves reads capacity h i =
      Leaves-bind Here (reserved (reserve capacity 8092))
        (λ c. do recv_loop os reserve site c reads; pure []) h
        (reserved-Leaves os is_open base still fd (reserve capacity 8092) h i)
        (λ c h' i'.
          Leaves-then Here (recv_loop os reserve site c reads) (pure []) h'
            (recv_loop-Leaves c reads h' i') (λ h'' i''. i''))

  pub exchange-Leaves :
      (lines reads : ℕ) (name doc : Bytes) (h : Http World)
      → Here h
      → Leaves Here (exchange os reserve site host lines reads name doc h)
  unfolding exchange set_request_host
  exchange-Leaves lines reads name doc h i =
      Leaves-then Here (send_request_fd os reserve site lines doc)
        (do recv_message os reserve site reads message_capacity; pure tt)
        (record h { request_host = name }) (send_request_fd-Leaves lines doc _ i)
        (λ h' i'.
          Leaves-then Here (recv_message os reserve site reads message_capacity) (pure tt) h'
            (recv_message-Leaves reads message_capacity h' i') (λ h'' i''. i''))

module _ (os : Os) (fuel : ℕ) (fds : Descriptors os fuel) (reserve : Reserve) (site : Site os.World)
    (host : Host os.World) (still : (set : FdSet) → Still os (λ w. fds.is_open w ≡ set))
    (files : SiteFiles site fds.is_open)
    (resolve_keeps : (name : Bytes) (w : os.World)
      → fds.is_open (host.get_host_by_name name w).1 ≡ fds.is_open w) where
  open os use {World}

  client_session-GivesBack :
      (lines reads : ℕ) (name doc : Bytes)
      → GivesBack os fuel fds (client_session os reserve site host fuel lines reads name doc)
  unfolding client_session
  client_session-GivesBack lines reads name doc before s w valid closed opens =
      let base : FdSet = with_fd before s.socket true in
      end_session-Leaves os fuel fds before s.socket _ valid closed (
        destroyed-Leaves os fuel fds site files still base s.socket
          (exchange os reserve site host lines reads name doc (new_http s w))
          (exchange-Leaves os reserve fds.is_open still s.socket site files host base lines reads
            name doc (new_http s w) (refl, opens)))

  talk-Leaves :
      (lines reads : ℕ) (address : Bytes) (port : ℤ) (name doc : Bytes) (w : World)
      → Leaves
          (λ v. fds.is_open v ≡ fds.is_open w)
          (talk os reserve site host fuel lines reads address port name doc w)
  unfolding talk
  talk-Leaves lines reads address port name doc w =
      Leaves-catch (λ v. fds.is_open v ≡ fds.is_open w)
        (do
          s ← connect_socket os fuel address port none
          client_session os reserve site host fuel lines reads name doc s)
        (λ e. pure tt) w
        (connected (connect_socket os fuel address port none w)
          (connect_socket-Owns os fuel fds address port w))
        (λ e v i. i)
    where
      connected :
          (o : Outcome World SslSocket)
          → Ensures
              (λ s w'.
                ((s.socket ==ℤ minus_one) ≡ false)
                × (fds.is_open w s.socket ≡ false)
                × (fds.is_open w' ≡ with_fd (fds.is_open w) s.socket true))
              (λ e w'. fds.is_open w' ≡ fds.is_open w)
              o
          → Leaves
              (λ v. fds.is_open v ≡ fds.is_open w)
              (((λ _. o) >>= client_session os reserve site host fuel lines reads name doc) w)
      connected (done s w') (valid, closed, opens) =
          client_session-GivesBack lines reads name doc (fds.is_open w) s w' valid closed opens
      connected (threw e w') i = i
      connected fault h = tt
      connected diverged h = tt

  -- `main` of the client with its three arguments, where the name service, the clock and the calls on
  -- open sockets open and close no descriptor, and opening a file gives one that was not open, or
  -- fails: when it returns, the open descriptors are those that were open before, whatever fails on
  -- the way.
  pub client_main-Leaves :
      (lines reads : ℕ) (program name port doc : Bytes) (w : World)
      → Leaves
          (λ v. fds.is_open v ≡ fds.is_open w)
          (client_main os reserve site host fuel lines reads (program ∷ name ∷ port ∷ doc ∷ []) w)
  unfolding client_main
  client_main-Leaves lines reads program name port doc w =
      let found : World = (host.get_host_by_name (c_str name) w).1 in
      let address : Bytes = elim (host.get_host_by_name (c_str name) w).0 [
        | none ↦ name
        | some addresses ↦ last_address name addresses
      ] in
      let talks = talk os reserve site host fuel lines reads address (atoi port) name doc in
      Leaves-then (λ v. fds.is_open v ≡ fds.is_open w) talks (pure (pos 0)) found
        (subst (λ set. Leaves (λ v. fds.is_open v ≡ set) (talks found))
          (resolve_keeps (c_str name) w)
          (talk-Leaves lines reads address (atoi port) name doc found))
        (λ v i. i)
