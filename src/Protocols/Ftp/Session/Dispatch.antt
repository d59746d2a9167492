-- ===== src/Protocols/Ftp/Session/Dispatch.antt =====
-- How `startProtocol` finds the handler of a command.
use socket_program.Base.{
  ℕ, ◌≡◌, refl, Bool, true, false, not, ◌&&◌, &&-true, not-true, Bool-cases, inl, inr, List, [],
  ◌∷◌, ◌++◌, take, drop, Bytes, codes, contains, none,
}
use socket_program.Base.{fault}
use socket_program.Inet.Os.{Os}
use socket_program.Protocols.Simple.{Reserve}
use socket_program.Protocols.Ftp.State.{Ftp}
use socket_program.Protocols.Ftp.Data.{Host, handle_stor}
use socket_program.Protocols.Ftp.Session.{
  Handler, port, retr, stor, unsupported, verbs, select_from, select_handler,
}

-- The handlers of PORT, RETR and STOR.
abbrev pub is_transfer : Handler → Bool
is_transfer port = true
is_transfer retr = true
is_transfer stor = true
is_transfer _ = false

abbrev no_transfer : List (Bytes × Handler) → Bool
no_transfer [] = true
no_transfer ((text, h) ∷ more) = not (is_transfer h) && no_transfer more

select_from-NoTransfer :
    (front back : List (Bytes × Handler)) (text : Bytes) (h : Handler) (message : Bytes)
    → no_transfer front ≡ true
    → is_transfer h ≡ false
    → contains text message ≡ true
    → is_transfer (select_from (front ++ (text, h) ∷ back) message) ≡ false
unfolding select_from
select_from-NoTransfer [] back text h message before harmless there = rw there harmless
select_from-NoTransfer ((text', h') ∷ front) back text h message before harmless there =
    let (here, rest) = &&-true _ _ before in
    elim (Bool-cases (contains text' message)) [
      | inl found ↦ rw found (not-true _ here)
      | inr missing ↦
          rw missing (select_from-NoTransfer front back text h message rest harmless there)
    ]

-- A message with the text PASS anywhere, such as in the name of a file, is never handled as PORT,
-- RETR or STOR.
pub select_handler-Pass :
    (message : Bytes)
    → contains (codes "PASS") message ≡ true
    → is_transfer (select_handler message) ≡ false
unfolding select_handler
select_handler-Pass message there =
    select_from-NoTransfer (take 28 verbs) (drop 29 verbs) (codes "PASS") unsupported message refl
      refl there

-- `HandleSTOR` with no data connection dereferences a null pointer.
handle_stor-NoClient :
    (os : Os) (host : Host os.World) (reserve : Reserve) (fuel capacity : ℕ) (f : Ftp os.World)
    → f.client ≡ none
    → handle_stor os host reserve fuel capacity f ≡ fault
unfolding handle_stor
handle_stor-NoClient os host reserve fuel capacity f null = rw null refl
