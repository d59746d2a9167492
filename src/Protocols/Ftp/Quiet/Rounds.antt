-- ===== src/Protocols/Ftp/Quiet/Rounds.antt =====
-- The descriptors over `startProtocol` of libs/Protocols/ProtocolFtp.cpp.
use socket_program.Base.{[], ℕ, zero, suc, ℤ, pos, ◌==ℤ◌, ◌≡◌, codes, if◌then◌else◌}
use socket_program.Base.{Run, ◌>>◌, pure, Leaves, Leaves-bind, Leaves-then, Leaves-if}
use socket_program.Inet.Os.{Os}
use socket_program.Inet.Io.Quiet.{Still}
use socket_program.Inet.Connect.Descriptors.{FdSet, Descriptors}
use socket_program.Protocols.Simple.{Reserve}
use socket_program.Protocols.Ftp.State.{Ftp, reply, recv}
use socket_program.Protocols.Ftp.Data.{Host}
use socket_program.Protocols.Ftp.Session.{
  Handler, unsupported, cwd, list, mkd, pasv, port, pwd, retr, size, stor, syst, type, user,
  select_handler, handle_login, run_handler, serve_one, login_loop, command_loop, start_protocol,
}
use socket_program.Protocols.Ftp.Quiet.{Kept, reply-Kept, recv-Kept, handle_error-Kept}
use socket_program.Protocols.Ftp.Quiet.Commands.{
  handle_cwd-Kept, handle_mkd-Kept, handle_pwd-Kept, handle_type-Kept, handle_pasv-Kept,
  handle_size-Kept, handle_syst-Kept, handle_login-Kept,
}
use socket_program.Protocols.Ftp.Quiet.Connection.{HostFiles, handle_port-Kept}
use socket_program.Protocols.Ftp.Quiet.Transfers.{handle_stor-Kept}
use socket_program.Protocols.Ftp.Quiet.Leaky.{Leaky, carried, carried_on}
use socket_program.Protocols.Ftp.Quiet.Files.{handle_list-Leaky, handle_retr-Kept}
use socket_program.Inet.Connect.Sets.{opened}

module _ (os : Os) (fuel : ℕ) (fds : Descriptors os fuel)
    (still : (set : FdSet) → Still os (λ v. fds.is_open v ≡ set)) (fd : ℤ) (host : Host os.World)
    (hosts : HostFiles host fds.is_open) (reserve : Reserve) where
  open os use {World}

  -- A handler, from what is open with no directory broken off yet.
  handler_first :
      (base : FdSet) (capacity : ℕ) (h : Handler) (f : Ftp World)
      → Kept os fuel fds base fd f
      → Leaves (Leaky os fuel fds host base fd) (run_handler os host reserve fuel capacity h f)
  unfolding run_handler
  handler_first base capacity list f i =
      handle_list-Leaky os fuel fds still fd host hosts reserve base f i
  handler_first base capacity unsupported f i =
      carried os fuel fds host base fd [] _ tt tt
        (handle_error-Kept os fuel fds base still fd 500 f i)
  handler_first base capacity cwd f i =
      carried os fuel fds host base fd [] _ tt tt (handle_cwd-Kept os fuel fds base still fd f i)
  handler_first base capacity mkd f i =
      carried os fuel fds host base fd [] _ tt tt (handle_mkd-Kept os fuel fds base still fd f i)
  handler_first base capacity pasv f i =
      carried os fuel fds host base fd [] _ tt tt (handle_pasv-Kept os fuel fds base still fd f i)
  handler_first base capacity port f i =
      carried os fuel fds host base fd [] _ tt tt
        (handle_port-Kept os fuel fds base still fd host hosts reserve f i)
  handler_first base capacity pwd f i =
      carried os fuel fds host base fd [] _ tt tt (handle_pwd-Kept os fuel fds base still fd f i)
  handler_first base capacity retr f i =
      carried os fuel fds host base fd [] _ tt tt
        (handle_retr-Kept os fuel fds still fd host hosts reserve base f i)
  handler_first base capacity size f i =
      carried os fuel fds host base fd [] _ tt tt (handle_size-Kept os fuel fds base still fd f i)
  handler_first base capacity stor f i =
      carried os fuel fds host base fd [] _ tt tt
        (handle_stor-Kept os fuel fds base still fd host hosts reserve capacity f i)
  handler_first base capacity syst f i =
      carried os fuel fds host base fd [] _ tt tt (handle_syst-Kept os fuel fds base still fd f i)
  handler_first base capacity type f i =
      carried os fuel fds host base fd [] _ tt tt (handle_type-Kept os fuel fds base still fd f i)
  handler_first base capacity user f i =
      carried os fuel fds host base fd [] _ tt tt
        (handle_login-Kept os fuel fds base still fd host reserve f i)

module _ (os : Os) (fuel : ℕ) (fds : Descriptors os fuel) (base : FdSet)
    (still : (set : FdSet) → Still os (λ v. fds.is_open v ≡ set)) (fd : ℤ) (host : Host os.World)
    (hosts : HostFiles host fds.is_open) (reserve : Reserve) where
  open os use {World}

  abbrev L : Ftp World → Type 0
  L = Leaky os fuel fds host base fd

  -- What holds from whatever is open so far, with the directories that were broken off before.
  from :
      {A : Type 0} (m : Run (Ftp World) A) (f : Ftp World)
      → L f
      → ((set : FdSet) → Kept os fuel fds set fd f → Leaves (Leaky os fuel fds host set fd) (m f))
      → Leaves L (m f)
  from m f (leaked, (fresh, dirs, k)) step =
      carried_on os fuel fds host base fd leaked (m f) fresh dirs (step (opened base leaked) k)

  same :
      {A : Type 0} (m : Run (Ftp World) A) (f : Ftp World)
      → L f
      → ((set : FdSet) → Kept os fuel fds set fd f → Leaves (Kept os fuel fds set fd) (m f))
      → Leaves L (m f)
  same m f (leaked, (fresh, dirs, k)) step =
      carried os fuel fds host base fd leaked (m f) fresh dirs (step (opened base leaked) k)

  serve_one-Leaky :
      (capacity : ℕ) (f : Ftp World) → L f → Leaves L (serve_one os host reserve fuel capacity f)
  unfolding serve_one
  serve_one-Leaky capacity f i =
      Leaves-then L (recv os)
        (λ g. run_handler os host reserve fuel capacity (select_handler g.recv_message) g) f
        (same (recv os) f i (λ set k. recv-Kept os fuel fds set still fd f k))
        (λ g j.
          let h : Handler = select_handler g.recv_message in
          from (run_handler os host reserve fuel capacity h) g j
            (λ set k. handler_first os fuel fds still fd host hosts reserve set capacity h g k))

  login_loop-Leaky :
      (rounds : ℕ) (f : Ftp World) → L f → Leaves L (login_loop os host reserve fuel rounds f)
  unfolding login_loop
  login_loop-Leaky zero f i = tt
  login_loop-Leaky (suc rounds) f i =
      let again : Run (Ftp World) (Unit {0}) = login_loop os host reserve fuel rounds in
      Leaves-bind L (handle_login os host reserve fuel)
        (λ r. if r ==ℤ pos 0 then pure tt else again) f
        (same (handle_login os host reserve fuel) f i
          (λ set k. handle_login-Kept os fuel fds set still fd host reserve f k))
        (λ r g j. Leaves-if L (r ==ℤ pos 0) (pure tt) again g j (login_loop-Leaky rounds g j))

  command_loop-Leaky :
      (capacity rounds : ℕ) (f : Ftp World)
      → L f
      → Leaves L (command_loop os host reserve fuel capacity rounds f)
  unfolding command_loop
  command_loop-Leaky capacity zero f i = tt
  command_loop-Leaky capacity (suc rounds) f i =
      Leaves-then L (serve_one os host reserve fuel capacity)
        (command_loop os host reserve fuel capacity rounds) f (serve_one-Leaky capacity f i)
        (λ g j. command_loop-Leaky capacity rounds g j)

  -- `startProtocol`, where the name service and the calls on open sockets leave the set of open
  -- descriptors alone, and files and directories are opened and closed as documented: where it ends,
  -- also by an exception, whatever the client sends, the object is on its control connection, and what
  -- is open beyond the rest is the data connection's descriptor if the object has one, and descriptors
  -- that were not open before and that `opendir` gave.
  pub start_protocol-Leaky :
      (capacity rounds : ℕ) (f : Ftp World)
      → L f
      → Leaves L (start_protocol os host reserve fuel capacity rounds f)
  unfolding start_protocol
  start_protocol-Leaky capacity rounds f i =
      let commands : Run (Ftp World) (Unit {0}) =
        command_loop os host reserve fuel capacity rounds in
      Leaves-then L (reply os (codes "220 (ho80 server)\r\n"))
        (login_loop os host reserve fuel rounds >> commands) f
        (same (reply os (codes "220 (ho80 server)\r\n")) f i
          (λ set k. reply-Kept os fuel fds set still fd _ f k))
        (λ g j.
          Leaves-then L (login_loop os host reserve fuel rounds) commands g
            (login_loop-Leaky rounds g j) (λ h k. command_loop-Leaky capacity rounds h k))
