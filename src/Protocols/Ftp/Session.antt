-- ===== src/Protocols/Ftp/Session.antt =====
-- `HandleLogin` and `startProtocol` of `ProtocolFtp`: the login, and the loop over the commands.
pub mod Dispatch
pub mod Answers
use socket_program.Base.{
  ℕ, zero, suc, ℤ, pos, minus_one, ◌==ℤ◌, Bool, true, false, not, List, [], ◌∷◌, if◌then◌else◌,
  Bytes, codes, contains,
}
use socket_program.Base.{is_runtime_error, diverged, Run, ◌>>=◌, ◌>>◌, pure, try_catch}
use socket_program.Inet.Os.{Os}
use socket_program.Protocols.Simple.{Reserve}
use socket_program.Protocols.Ftp.State.{Ftp, reply, recv, handle_error}
use socket_program.Protocols.Ftp.Commands.{
  handle_cwd, handle_type, handle_pwd, handle_size, handle_pasv, handle_mkd, handle_syst,
}
use socket_program.Protocols.Ftp.Data.{Host, handle_port, handle_list, handle_retr, handle_stor}

-- The handlers that a command can lead to.
pub data Handler : Type 0 where
  unsupported cwd list mkd pasv port pwd retr size stor syst type user : Handler

-- The tests of `startProtocol`, in their order: the text that is looked for, and the handler.
abbrev pub verbs : List (Bytes × Handler)
verbs =
    (codes "ABOR", unsupported)
    ∷ (codes "ACCT", unsupported)
    ∷ (codes "ADAT", unsupported)
    ∷ (codes "ALLO", unsupported)
    ∷ (codes "APPE", unsupported)
    ∷ (codes "AUTH", unsupported)
    ∷ (codes "CCC", unsupported)
    ∷ (codes "CDUP", unsupported)
    ∷ (codes "CONF", unsupported)
    ∷ (codes "CWD", cwd)
    ∷ (codes "DELE", unsupported)
    ∷ (codes "ENC", unsupported)
    ∷ (codes "EPRT", unsupported)
    ∷ (codes "EPSV", unsupported)
    ∷ (codes "FEAT", unsupported)
    ∷ (codes "LANG", unsupported)
    ∷ (codes "LIST", list)
    ∷ (codes "LPRT", unsupported)
    ∷ (codes "LPSV", unsupported)
    ∷ (codes "MDTM", unsupported)
    ∷ (codes "MIC", unsupported)
    ∷ (codes "MKD", mkd)
    ∷ (codes "MLSD", unsupported)
    ∷ (codes "MLST", unsupported)
    ∷ (codes "MODE", unsupported)
    ∷ (codes "NLST", unsupported)
    ∷ (codes "NOOP", unsupported)
    ∷ (codes "OPTS", unsupported)
    ∷ (codes "PASS", unsupported)
    ∷ (codes "PASV", pasv)
    ∷ (codes "PBSZ", unsupported)
    ∷ (codes "PORT", port)
    ∷ (codes "PROT", unsupported)
    ∷ (codes "PWD", pwd)
    ∷ (codes "QUIT", unsupported)
    ∷ (codes "REIN", unsupported)
    ∷ (codes "REST", unsupported)
    ∷ (codes "RETR", retr)
    ∷ (codes "RMD", unsupported)
    ∷ (codes "RNFR", unsupported)
    ∷ (codes "RNTO", unsupported)
    ∷ (codes "SITE", unsupported)
    ∷ (codes "SIZE", size)
    ∷ (codes "SMNT", unsupported)
    ∷ (codes "STAT", unsupported)
    ∷ (codes "STOR", stor)
    ∷ (codes "STOU", unsupported)
    ∷ (codes "STRU", unsupported)
    ∷ (codes "SYST", syst)
    ∷ (codes "TYPE", type)
    ∷ (codes "USER", user)
    ∷ []

-- The chain of `else if`: the first text that the message contains decides.
unfoldable pub select_from : List (Bytes × Handler) → Bytes → Handler
select_from [] message = unsupported
select_from ((text, h) ∷ more) message =
    if contains text message then h else select_from more message

unfoldable pub select_handler : Bytes → Handler
unfolding select_from contains
select_handler = select_from verbs

module _ (os : Os) (host : Host os.World) (reserve : Reserve) (fuel : ℕ) where
  open os use {World}

  -- The `try` block of `HandleLogin`: whether a message came.
  unfoldable pub first_message : Run (Ftp World) Bool
  first_message =
      try_catch (do recv os; pure true)
        λ e.
          if is_runtime_error e
          then (do reply os (codes "530 Login incorrect.\r\n"); pure false)
          else pure false

  -- `HandleLogin` with a message. Whatever comes as a password is accepted.
  unfoldable pub ask_password : Run (Ftp World) ℤ
  ask_password f =
      if not (contains (codes "USER") f.recv_message)
      then (do handle_error os 530; pure minus_one) f
      else (do
        reply os (codes "331 Please specify the password.\n")
        recv os
        reply os (codes "230 Login successful.\n")
        pure (pos 0))
          f

  unfoldable pub handle_login : Run (Ftp World) ℤ
  unfolding first_message ask_password
  handle_login = do came ← first_message; if came then ask_password else pure minus_one

  -- A command's handler; what it returns is not looked at.
  unfoldable pub run_handler : ℕ → Handler → Run (Ftp World) ℤ
  run_handler capacity unsupported = handle_error os 500
  run_handler capacity cwd = handle_cwd os
  run_handler capacity list = handle_list os host reserve fuel
  run_handler capacity mkd = handle_mkd os
  run_handler capacity pasv = handle_pasv os
  run_handler capacity port = handle_port os host reserve fuel
  run_handler capacity pwd = handle_pwd os
  run_handler capacity retr = handle_retr os host reserve fuel
  run_handler capacity size = handle_size os
  run_handler capacity stor = handle_stor os host reserve fuel capacity
  run_handler capacity syst = handle_syst os
  run_handler capacity type = handle_type os
  run_handler capacity user = handle_login

  -- A round of the command loop.
  unfoldable pub serve_one : ℕ → Run (Ftp World) ℤ
  unfolding run_handler select_handler
  serve_one capacity f = (do recv os; λ g. run_handler capacity (select_handler g.recv_message) g) f

  -- `while(HandleLogin() != 0)`, of at most so many rounds.
  unfoldable pub login_loop : ℕ → Run (Ftp World) (Unit {0})
  login_loop zero f = diverged
  login_loop (suc rounds) f =
      (do r ← handle_login; if r ==ℤ pos 0 then pure tt else login_loop rounds) f

  -- `while(1)`, of at most so many rounds: it ends by an exception.
  unfoldable pub command_loop : ℕ → ℕ → Run (Ftp World) (Unit {0})
  command_loop capacity zero f = diverged
  command_loop capacity (suc rounds) f = (do serve_one capacity; command_loop capacity rounds) f

  -- `startProtocol`
  unfoldable pub start_protocol : ℕ → ℕ → Run (Ftp World) (Unit {0})
  unfolding login_loop command_loop
  start_protocol capacity rounds = do
    reply os (codes "220 (ho80 server)\r\n")
    login_loop rounds
    command_loop capacity rounds
