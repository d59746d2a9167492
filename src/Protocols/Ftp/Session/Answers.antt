-- ===== src/Protocols/Ftp/Session/Answers.antt =====
-- The commands of `ProtocolFtp` that need the control connection only, against a table of answers.
use mathlib.Core.Option.{none-ne-some, some-injective}
use socket_program.Base.{
  ℕ, ◌<◌, ℤ, pos, ◌≡◌, refl, sym, ap, ◌∙◌, subst, inl, inr, Bool-cases, Option, none, some, [], ◌∷◌,
  ◌++◌, append-nil, length, take, Bytes, codes, arith, leb, if◌then◌else◌, is_prefix,
}
use socket_program.Base.{
  Run, Outcome, fault, Exn, write_failed, Ensures, Ensures-then, Ensures-part, pure, modify, ◌>>◌,
}
use socket_program.Inet.Os.{Os}
use socket_program.Inet.Io.{put_message}
use socket_program.Inet.Io.Transport.{Outgoing, sent}
use socket_program.Inet.Io.Delivery.{put_message-Delivers}
use socket_program.Protocols.Simple.{Reserve}
use socket_program.Protocols.Ftp.State.{Ftp, net, reply, send, handle_error}
use socket_program.Protocols.Ftp.Commands.{
  scan_argument, with_argument, change_dir, handle_cwd, handle_type, handle_pwd, handle_size,
  handle_pasv, handle_mkd, handle_syst,
}
use socket_program.Protocols.Ftp.Data.{Host}
use socket_program.Protocols.Ftp.Session.{
  Handler, unsupported, cwd, list, mkd, pasv, port, pwd, retr, size, stor, syst, type, user,
  run_handler,
}

abbrev syntax_error : Bytes
syntax_error = codes "500 Syntax error, command unrecognized.\n"

-- An answer with the directory after it, from the argument of the command. There is none where the
-- argument does not fit its buffer.
abbrev argument_answer : (Bytes → Bytes × Bytes) → Bytes → Option Bytes → Option (Bytes × Bytes)
argument_answer ok dir none = some (syntax_error, dir)
argument_answer ok dir (some word) = if leb 512 (length word) then none else some (ok word)

-- The directory that a path names.
abbrev entered : Bytes → Bytes → Bytes
entered dir path = if is_prefix (codes "/") path then path else dir ++ (codes "/" ++ path)

-- The answer of a command, with the directory after it; none for those that do more.
abbrev answer : Handler → Bytes → Bytes → Option (Bytes × Bytes)
answer unsupported message dir = some (syntax_error, dir)
answer cwd message dir =
    argument_answer (λ path. (codes "250 Directory successfully changed.\r\n", entered dir path))
      dir (scan_argument (codes "CWD") message)
answer mkd message dir =
    argument_answer (λ name. (codes "257 Make directory " ++ (name ++ codes " complete.\n"), dir))
      dir (scan_argument (codes "MKD") message)
answer pasv message dir = some (codes "227 Entering Passive Mode.\n", dir)
answer pwd message dir =
    some (codes "257 \"" ++ (dir ++ codes "\" is the current directory\r\n"), dir)
answer size message dir = some ([], dir)
answer syst message dir = some (codes "215 UNIX Type: L8\n", dir)
answer type message dir = some (codes "200 okay.\n", dir)
answer _ message dir = none

module _ (os : Os) (out : Outgoing os) where
  -- The peer was sent the text, or the write of it failed on the way. The connections and the
  -- received message are as before.
  abbrev pub Replied : Ftp os.World → Bytes → Bytes → Ftp os.World → Type 0
  Replied f text dir f' =
      (f'.control ≡ f.control)
      × (f'.client ≡ f.client)
      × (f'.recv_message ≡ f.recv_message)
      × (f'.pwd ≡ dir)
      × (sent out f.control f'.world ≡ sent out f.control f.world ++ text)

  abbrev pub Failed : Ftp os.World → Bytes → Exn → Ftp os.World → Type 0
  Failed f text e f' =
      (n : ℕ) × (e ≡ write_failed)
      × (f'.client ≡ f.client)
      × (n < length text)
      × (sent out f.control f'.world ≡ sent out f.control f.world ++ take n text)

  abbrev pub Answered : Ftp os.World → Bytes × Bytes → Outcome (Ftp os.World) ℤ → Type 0
  Answered f (text, dir) = Ensures (λ r f'. (r ≡ pos 0) × Replied f text dir f') (Failed f text)

  reply_lem :
      (f : Ftp os.World) (text : Bytes)
      → length text < 0x8000_0000
      → Answered f (text, f.pwd) ((reply os text >> pure (pos 0)) f)
  unfolding reply send
  reply_lem f text small =
      let before = sent out f.control f.world in
      Ensures-then (λ u f'. Replied f text f.pwd f') (Failed f text)
        (λ r f'. (r ≡ pos 0) × Replied f text f.pwd f') (Failed f text) (reply os text)
        (pure (pos 0)) f
        (Ensures-then (λ r f'. Replied f text f.pwd f') (Failed f text)
          (λ u f'. Replied f text f.pwd f') (Failed f text) (net (put_message os f.control text))
          (pure tt) (record f { send_message = text })
          (Ensures-part (λ r w. (r ≡ pos 0) × (sent out f.control w ≡ before ++ text))
            (λ e w.
              (n : ℕ) × (e ≡ write_failed)
              × (n < length text)
              × (sent out f.control w ≡ before ++ take n text))
            (λ r f'. Replied f text f.pwd f') (Failed f text) (λ f. f.world)
            (λ f w. record f { world = w }) (put_message os f.control text)
            (record f { send_message = text })
            (put_message-Delivers os out f.control text f.world small)
            (λ r w (_, all). (refl, refl, refl, refl, all))
            (λ e w (n, failed, less, part). (n, failed, refl, less, part)))
          (λ r f' all. all) (λ e f' part. part))
        (λ u f' all. (refl, all)) (λ e f' part. part)

  handle_error_lem : (f : Ftp os.World) → Answered f (syntax_error, f.pwd) (handle_error os 500 f)
  unfolding handle_error
  handle_error_lem f = reply_lem f syntax_error (omega arith)

  with_argument_lem :
      (verb : Bytes) (k : Bytes → Run (Ftp os.World) ℤ) (ok : Bytes → Bytes × Bytes)
      (f : Ftp os.World) (a : Bytes × Bytes)
      → argument_answer ok f.pwd (scan_argument verb f.recv_message) ≡ some a
      → ((word : Bytes) → ok word ≡ a → Answered f a (k word f))
      → Answered f a (with_argument os verb k f)
  unfolding with_argument
  with_argument_lem verb k ok f a e step = on (scan_argument verb f.recv_message) e
    where
      on :
          (o : Option Bytes)
          → argument_answer ok f.pwd o ≡ some a
          → Answered f a (elim o [
            | none ↦ handle_error os 500 f
            | some word ↦ if leb 512 (length word) then fault else k word f
          ])
      on none e =
          subst (λ b. Answered f b (handle_error os 500 f)) (some-injective _ _ e)
            (handle_error_lem f)
      on (some word) e = elim (Bool-cases (leb 512 (length word))) [
        | inl big ↦ absurd (none-ne-some _ (rw big at e))
        | inr fits ↦ rw fits (step word (some-injective _ _ (rw fits at e)))
      ]

  reply_as :
      (f : Ftp os.World) (text : Bytes) (a : Bytes × Bytes)
      → (text, f.pwd) ≡ a
      → length a.0 < 0x8000_0000
      → Answered f a ((reply os text >> pure (pos 0)) f)
  reply_as f text a e small =
      subst (λ b. Answered f b ((reply os text >> pure (pos 0)) f)) e
        (reply_lem f text (omega (arith, ap (λ b. length b.0) e)))

  change_dir-entered : (dir path : Bytes) → change_dir dir path ≡ entered dir path
  unfolding change_dir is_prefix
  change_dir-entered dir [] = refl
  change_dir-entered dir (c ∷ path) = ground arith

  handle_cwd_lem :
      (f : Ftp os.World) (a : Bytes × Bytes)
      → answer cwd f.recv_message f.pwd ≡ some a
      → Answered f a (handle_cwd os f)
  unfolding handle_cwd
  handle_cwd_lem f a e =
      let ok : Bytes → Bytes × Bytes =
        λ path. (codes "250 Directory successfully changed.\r\n", entered f.pwd path) in
      let k : Bytes → Run (Ftp os.World) ℤ = λ path. (do
        modify (λ f. record f { pwd = change_dir f.pwd path })
        reply os (codes "250 Directory successfully changed.\r\n")
        pure (pos 0)) in
      with_argument_lem (codes "CWD") k ok f a e λ path e'.
        subst (λ b. Answered f b (k path f))
          (ap (λ dir. (codes "250 Directory successfully changed.\r\n", dir))
              (change_dir-entered f.pwd path)
            ∙ e')
          (reply_lem (record f { pwd = change_dir f.pwd path })
            (codes "250 Directory successfully changed.\r\n") (omega arith))

  -- A command whose answer the table gives, and is shorter than 2 ^ 31 bytes: its handler comes to an
  -- end, and if it returns, it returns 0, the peer was sent that answer, the directory is the one that
  -- the table gives, and the connections and the received message are as before. If it throws, it
  -- throws the write error and the peer was sent a proper prefix of the answer.
  pub run_handler-Answers :
      (host : Host os.World) (reserve : Reserve) (fuel capacity : ℕ) (h : Handler)
      (f : Ftp os.World) (a : Bytes × Bytes)
      → answer h f.recv_message f.pwd ≡ some a
      → length a.0 < 0x8000_0000
      → Answered f a (run_handler os host reserve fuel capacity h f)
  unfolding run_handler handle_error handle_type handle_pasv handle_pwd handle_size handle_syst
      handle_mkd
  run_handler-Answers host reserve fuel capacity unsupported f a e small =
      reply_as f syntax_error a (some-injective _ _ e) small
  run_handler-Answers host reserve fuel capacity cwd f a e small = handle_cwd_lem f a e
  run_handler-Answers host reserve fuel capacity mkd f a e small =
      with_argument_lem (codes "MKD")
        (λ name. do
          reply os (codes "257 Make directory " ++ (name ++ codes " complete.\n"))
          pure (pos 0))
        (λ name. (codes "257 Make directory " ++ (name ++ codes " complete.\n"), f.pwd)) f a e
        λ name e'. reply_as f _ a e' small
  run_handler-Answers host reserve fuel capacity pasv f a e small =
      reply_as f _ a (some-injective _ _ e) small
  run_handler-Answers host reserve fuel capacity pwd f a e small =
      reply_as f _ a (some-injective _ _ e) small
  run_handler-Answers host reserve fuel capacity size f a e small =
      subst (λ b. Answered f b (pure (pos 0) f)) (some-injective _ _ e)
        (refl, (refl, refl, refl, refl, sym (append-nil _)))
  run_handler-Answers host reserve fuel capacity syst f a e small =
      reply_as f _ a (some-injective _ _ e) small
  run_handler-Answers host reserve fuel capacity type f a e small =
      reply_as f _ a (some-injective _ _ e) small
  run_handler-Answers host reserve fuel capacity list f a e small = absurd (none-ne-some _ e)
  run_handler-Answers host reserve fuel capacity port f a e small = absurd (none-ne-some _ e)
  run_handler-Answers host reserve fuel capacity retr f a e small = absurd (none-ne-some _ e)
  run_handler-Answers host reserve fuel capacity stor f a e small = absurd (none-ne-some _ e)
  run_handler-Answers host reserve fuel capacity user f a e small = absurd (none-ne-some _ e)
