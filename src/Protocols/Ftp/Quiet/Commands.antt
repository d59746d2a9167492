-- ===== src/Protocols/Ftp/Quiet/Commands.antt =====
-- The descriptors over the commands of libs/Protocols/ProtocolFtp.cpp without a data connection.
use socket_program.Base.{
  ℕ, ℤ, pos, ◌≡◌, Option-cases, Bool, true, false, inl, inr, minus_one, leb, length, Bytes, codes,
  ◌++◌, if◌then◌else◌, contains, not,
}
use socket_program.Base.{
  Run, ◌>>◌, pure, fault, modify, is_runtime_error, Leaves, Leaves-bind, Leaves-then, Leaves-if,
  Leaves-choice, Leaves-catch,
}
use socket_program.Inet.Os.{Os}
use socket_program.Inet.Io.Quiet.{Still}
use socket_program.Inet.Connect.Descriptors.{FdSet, Descriptors}
use socket_program.Protocols.Simple.{Reserve}
use socket_program.Protocols.Ftp.State.{Ftp, reply, recv, handle_error}
use socket_program.Protocols.Ftp.Commands.{
  scan_argument, name_buffer, with_argument, change_dir, handle_cwd, handle_mkd, handle_pwd,
  handle_type, handle_pasv, handle_size, handle_syst,
}
use socket_program.Protocols.Ftp.Data.{Host}
use socket_program.Protocols.Ftp.Session.{first_message, ask_password, handle_login}
use socket_program.Protocols.Ftp.Quiet.{Kept, reply-Kept, reply_and, recv-Kept, handle_error-Kept}

module _ (os : Os) (fuel : ℕ) (fds : Descriptors os fuel) (base : FdSet)
    (still : (set : FdSet) → Still os (λ v. fds.is_open v ≡ set)) (fd : ℤ) where
  open os use {World}

  abbrev K : Ftp World → Type 0
  K = Kept os fuel fds base fd

  abbrev answer :
      {A : Type 0} (text : Bytes) (a : A) (f : Ftp World)
      → K f
      → Leaves K ((do reply os text; pure a) f)
  answer = reply_and os fuel fds base still fd

  pub with_argument-Kept :
      (verb : Bytes) (k : Bytes → Run (Ftp World) ℤ) (f : Ftp World)
      → K f
      → ((word : Bytes) → Leaves K (k word f))
      → Leaves K (with_argument os verb k f)
  unfolding with_argument
  with_argument-Kept verb k f i h = elim (Option-cases (scan_argument verb f.recv_message)) [
    | inl e ↦ rw (e, Leaves) (handle_error-Kept os fuel fds base still fd 500 f i)
    | inr (word, e) ↦
        rw (e, Leaves)
          (Leaves-choice K (leb name_buffer (length word)) fault (k word f) tt (h word))
  ]

  pub handle_cwd-Kept : (f : Ftp World) → K f → Leaves K (handle_cwd os f)
  unfolding handle_cwd
  handle_cwd-Kept f i =
      let okay : Bytes = codes "250 Directory successfully changed.\r\n" in
      let go : Bytes → Run (Ftp World) ℤ = λ path. (do
        modify (λ g. record g { pwd = change_dir g.pwd path })
        reply os okay
        pure (pos 0)) in
      with_argument-Kept (codes "CWD") go f i
        (λ path. answer okay (pos 0) (record f { pwd = change_dir f.pwd path }) i)

  pub handle_mkd-Kept : (f : Ftp World) → K f → Leaves K (handle_mkd os f)
  unfolding handle_mkd
  handle_mkd-Kept f i =
      let made : Bytes → Bytes =
        λ name. codes "257 Make directory " ++ (name ++ codes " complete.\n") in
      let go : Bytes → Run (Ftp World) ℤ = λ name. (do reply os (made name); pure (pos 0)) in
      with_argument-Kept (codes "MKD") go f i (λ name. answer (made name) (pos 0) f i)

  pub handle_pwd-Kept : (f : Ftp World) → K f → Leaves K (handle_pwd os f)
  unfolding handle_pwd
  handle_pwd-Kept f i = answer _ (pos 0) f i

  pub handle_type-Kept : (f : Ftp World) → K f → Leaves K (handle_type os f)
  unfolding handle_type
  handle_type-Kept f i = answer _ (pos 0) f i

  pub handle_pasv-Kept : (f : Ftp World) → K f → Leaves K (handle_pasv os f)
  unfolding handle_pasv
  handle_pasv-Kept f i = answer _ (pos 0) f i

  pub handle_syst-Kept : (f : Ftp World) → K f → Leaves K (handle_syst os f)
  unfolding handle_syst
  handle_syst-Kept f i = answer _ (pos 0) f i

  pub handle_size-Kept : (f : Ftp World) → K f → Leaves K (handle_size os f)
  unfolding handle_size
  handle_size-Kept f i = i

  module _ (host : Host World) (reserve : Reserve) where
    first_message-Kept : (f : Ftp World) → K f → Leaves K (first_message os host reserve fuel f)
    unfolding first_message
    first_message-Kept f i =
        let sorry : Run (Ftp World) Bool = (do
          reply os (codes "530 Login incorrect.\r\n")
          pure false) in
        Leaves-catch K (do recv os; pure true)
          (λ e. if is_runtime_error e then sorry else pure false) f
          (Leaves-then K (recv os) (pure true) f (recv-Kept os fuel fds base still fd f i)
            (λ g j. j))
          (λ e g j. Leaves-if K (is_runtime_error e) sorry (pure false) g (answer _ false g j) j)

    ask_password-Kept : (f : Ftp World) → K f → Leaves K (ask_password os host reserve fuel f)
    unfolding ask_password
    ask_password-Kept f i =
        let welcome : Run (Ftp World) ℤ = (do
          reply os (codes "230 Login successful.\n")
          pure (pos 0)) in
        let asked : Run (Ftp World) ℤ = (do
          reply os (codes "331 Please specify the password.\n")
          recv os
          welcome) in
        Leaves-choice K (not (contains (codes "USER") f.recv_message))
          ((do handle_error os 530; pure minus_one) f) (asked f)
          (Leaves-then K (handle_error os 530) (pure minus_one) f
            (handle_error-Kept os fuel fds base still fd 530 f i) (λ g j. j))
          (Leaves-then K (reply os (codes "331 Please specify the password.\n"))
            (do recv os; welcome) f (reply-Kept os fuel fds base still fd _ f i)
            (λ g j.
              Leaves-then K (recv os) welcome g (recv-Kept os fuel fds base still fd g j)
                (λ h l. answer _ (pos 0) h l)))

    pub handle_login-Kept : (f : Ftp World) → K f → Leaves K (handle_login os host reserve fuel f)
    unfolding handle_login
    handle_login-Kept f i =
        Leaves-bind K (first_message os host reserve fuel)
          (λ came. if came then ask_password os host reserve fuel else pure minus_one) f
          (first_message-Kept f i)
          (λ came g j.
            Leaves-if K came (ask_password os host reserve fuel) (pure minus_one) g
              (ask_password-Kept g j) j)
