-- ===== src/Protocols/Ftp/Commands.antt =====
-- The handlers of `ProtocolFtp` that use the control connection only.
use socket_program.Base.{
  ℕ, ℤ, pos, ◌==◌, leb, Option, none, some, [], ◌∷◌, ◌++◌, length, if◌then◌else◌, Bytes, codes,
  c_str, scan_text, scan_word,
}
use socket_program.Base.{fault, Run, ◌>>◌, pure, modify}
use socket_program.Inet.Os.{Os}
use socket_program.Protocols.Ftp.State.{Ftp, reply, handle_error}

-- `sscanf(message, "VERB %s", name)`: the word behind the verb, if both are there. The space in the
-- format and `%s` skip white space alike, and none has to be there.
unfoldable pub scan_argument : Bytes → Bytes → Option Bytes
scan_argument verb message = elim (scan_text verb (c_str message)) [
  | none ↦ none
  | some rest ↦ elim (scan_word rest) [ none ↦ none | some (word, _) ↦ some word ]
]

abbrev pub name_buffer : ℕ
name_buffer = 512

abbrev slash : ℕ
slash = 47

-- `m_pwd` after `CWD path`.
unfoldable pub change_dir : Bytes → Bytes → Bytes
change_dir pwd [] = pwd ++ slash ∷ []
change_dir pwd (c ∷ path) = if c == slash then c ∷ path else pwd ++ slash ∷ c ∷ path

module _ (os : Os) where
  open os use {World}

  -- The three handlers with an argument: on a mismatch they answer 500, and a word that does not fit
  -- the buffer of 512 bytes with its NUL is undefined behaviour.
  unfoldable pub with_argument : Bytes → (Bytes → Run (Ftp World) ℤ) → Run (Ftp World) ℤ
  with_argument verb k f = elim (scan_argument verb f.recv_message) [
    | none ↦ handle_error os 500 f
    | some word ↦ if leb name_buffer (length word) then fault else k word f
  ]

  unfoldable pub handle_cwd : Run (Ftp World) ℤ
  unfolding change_dir with_argument
  handle_cwd = with_argument (codes "CWD") λ path. do
    modify (λ f. record f { pwd = change_dir f.pwd path })
    reply os (codes "250 Directory successfully changed.\r\n")
    pure (pos 0)

  unfoldable pub handle_type : Run (Ftp World) ℤ
  handle_type = do reply os (codes "200 okay.\n"); pure (pos 0)

  unfoldable pub handle_pwd : Run (Ftp World) ℤ
  handle_pwd f =
      (do
        reply os (codes "257 \"" ++ (f.pwd ++ codes "\" is the current directory\r\n"))
        pure (pos 0))
        f

  -- `HandleSIZE` sends nothing.
  unfoldable pub handle_size : Run (Ftp World) ℤ
  handle_size = pure (pos 0)

  unfoldable pub handle_pasv : Run (Ftp World) ℤ
  handle_pasv = do reply os (codes "227 Entering Passive Mode.\n"); pure (pos 0)

  unfoldable pub handle_mkd : Run (Ftp World) ℤ
  unfolding with_argument
  handle_mkd = with_argument (codes "MKD") λ name. do
    reply os (codes "257 Make directory " ++ (name ++ codes " complete.\n"))
    pure (pos 0)

  -- The branch of `startProtocol` for SYST.
  unfoldable pub handle_syst : Run (Ftp World) ℤ
  handle_syst = do reply os (codes "215 UNIX Type: L8\n"); pure (pos 0)
