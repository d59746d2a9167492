-- ===== src/Protocols/Ftp/Data.antt =====
-- The handlers of `ProtocolFtp` that use the data connection: PORT, LIST, RETR and STOR.
pub mod Ports
pub mod Ownership
use socket_program.Base.{
  ℕ, zero, suc, ◌-◌, ℤ, pos, ◌+ℤ◌, ◌*ℤ◌, fits_int, Bool, true, false, ◌&&◌, Option, none, some,
  List, [], ◌∷◌, ◌++◌, length, replicate, if◌then◌else◌, Bytes, codes, cr_lf, c_str, to_string,
  to_string_ℤ, scan_text, scan_int,
}
use socket_program.Base.{
  Outcome, done, threw, fault, diverged, Run, ◌>>=◌, ◌>>◌, pure, try_catch, modify,
}
use socket_program.Inet.Os.{Os, call, call_void}
use socket_program.Inet.Socket.{SslSocket}
use socket_program.Inet.Connect.{connect_socket}
use socket_program.Protocols.Simple.{Reserve, send_message, recv_message}
use socket_program.Protocols.Ftp.State.{Ftp, net, reply, handle_error, drop_client, with_client}
use socket_program.Protocols.Ftp.Commands.{with_argument}

-- The numbers that are left, with a comma before each.
unfoldable pub scan_fields : ℕ → Bytes → Option (List ℤ)
unfolding scan_int scan_text
scan_fields zero s = some []
scan_fields (suc n) s = elim (scan_text (codes ",") s) [
  | none ↦ none
  | some s₁ ↦ elim (scan_int s₁) [
    | none ↦ none
    | some (z, s₂) ↦ elim (scan_fields n s₂) [ none ↦ none | some zs ↦ some (z ∷ zs) ]
  ]
]

-- The six numbers of "PORT %d,%d,%d,%d,%d,%d".
unfoldable pub scan_port : Bytes → Option (ℤ × List ℤ)
unfolding scan_fields c_str
scan_port message = elim (scan_text (codes "PORT") (c_str message)) [
  | none ↦ none
  | some s₁ ↦ elim (scan_int s₁) [
    | none ↦ none
    | some (z, s₂) ↦ elim (scan_fields 5 s₂) [ none ↦ none | some zs ↦ some (z, zs) ]
  ]
]

-- `host` and `port`; none where `p1*256 + p2` overflows.
unfoldable pub port_target : ℤ → List ℤ → Option (Bytes × ℤ)
port_target i1 (i2 ∷ i3 ∷ i4 ∷ p1 ∷ p2 ∷ []) =
    let dot = codes "." in
    let high = p1 *ℤ pos 256 in
    let port = high +ℤ p2 in
    let host =
      to_string_ℤ i1
      ++ (dot ++ (to_string_ℤ i2 ++ (dot ++ (to_string_ℤ i3 ++ (dot ++ to_string_ℤ i4))))) in
    if fits_int high && fits_int port then some (host, port) else none
port_target i1 _ = none

-- The last address that the name has, or the name.
abbrev last_or : Bytes → List Bytes → Bytes
last_or host [] = host
last_or host (a ∷ as') = last_or a as'

-- The kinds of `st_mode & S_IFMT`.
pub data FileKind : Type 0 where
  block char_device directory fifo symlink regular socket unknown : FileKind

pub record Stat : Type 0 where
  pub kind : FileKind
  pub size : ℕ
  pub links : ℕ
  pub uid : ℕ

-- A directory that is open: its descriptor, and the names that `readdir` gives.
pub record Dir : Type 0 where
  pub handle : ℤ
  pub names : List Bytes

-- A file that is open: its descriptor, and its bytes.
pub record Contents : Type 0 where
  pub handle : ℤ
  pub text : Bytes

-- The name service and the file system: `gethostbyname` with the addresses of the host in dotted
-- form, `opendir` with the names that `readdir` then gives, `closedir`, `stat`, and an `ifstream` that
-- opens a file, with the bytes that reading it to its end gives, and closes it.
pub record Host (W : Type 0) : Type 0 where
  pub get_host_by_name : Bytes → W → Option (List Bytes) × W
  pub open_dir : Bytes → W → Option Dir × W
  pub close_dir : Dir → W → W
  pub stat : Bytes → W → Option Stat × W
  pub open_file : Bytes → W → Option Contents × W
  pub close_file : Contents → W → W

-- The first character of a line of the listing; for the other kinds there is none.
unfoldable pub kind_mark : FileKind → Bytes
kind_mark directory = codes "d"
kind_mark regular = codes "-"
kind_mark unknown = codes "-"
kind_mark _ = []

-- `sizeStr`, filled up with blanks to eight characters.
unfoldable pub size_column : ℕ → Bytes
size_column n = let digits = to_string n in digits ++ replicate (8 - length digits) 32

-- A line of the listing.
unfoldable pub list_line : Stat → Bytes → Bytes
unfolding kind_mark size_column
list_line st name =
    kind_mark st.kind
    ++ (codes "rwxr-xr-x    "
        ++ (to_string st.links
            ++ (codes " "
                ++ (to_string st.uid
                    ++ (codes "     "
                        ++ (to_string st.uid
                            ++ (codes "     "
                                ++ (size_column st.size
                                    ++ (codes " Dec 24  2017 " ++ (name ++ cr_lf))))))))))

module _ (os : Os) (host : Host os.World) (reserve : Reserve) (fuel : ℕ) where
  open os use {World}

  abbrev resolve : Bytes → Run (Ftp World) Bytes
  resolve name = do
    found ← net (call (host.get_host_by_name name))
    pure (elim found [ none ↦ name | some addresses ↦ last_or name addresses ])

  -- The `try` block of `HandlePORT`: the old data connection is closed, and a new one made.
  unfoldable pub connect_client : Bytes → ℤ → Run (Ftp World) (Unit {0})
  connect_client address port =
      try_catch
        (do
          drop_client os fuel
          s ← net (connect_socket os fuel address port none)
          modify (λ f. record f { client = some s }))
        (λ e. pure tt)

  -- `HandlePORT` from the target on.
  unfoldable pub open_client : Bytes → ℤ → Run (Ftp World) ℤ
  unfolding connect_client
  open_client name port = do
    address ← resolve name
    connect_client address port
    reply os (codes "200 PORT command successful. Consider using PASV.\n")
    pure (pos 0)

  unfoldable pub handle_port : Run (Ftp World) ℤ
  unfolding scan_port port_target open_client
  handle_port f = elim (scan_port f.recv_message) [
    | none ↦ handle_error os 500 f
    | some (i1, more) ↦ elim (port_target i1 more) [
      | none ↦ fault
      | some (name, port) ↦ open_client name port f
    ]
  ]

  -- The loop over the directory, sending a line for each name that `stat` knows.
  unfoldable pub list_names : SslSocket → List Bytes → Run (Ftp World) (Unit {0})
  unfolding list_line
  list_names s [] f = done tt f
  list_names s (name ∷ names) f =
      (do
        found ← net (call (host.stat (f.pwd ++ (codes "/" ++ name))))
        elim found [
          | none ↦ list_names s names
          | some st ↦ do
            modify (λ g. record g { send_message = list_line st name })
            net (send_message os s (list_line st name))
            list_names s names
        ])
        f

  -- The `try` block of `HandleLIST`: false where it has answered that the directory cannot be opened, which
  -- ends the handler. An exception of `sendMessage` skips `closedir`.
  unfoldable pub list_body : SslSocket → Run (Ftp World) Bool
  unfolding list_names
  list_body s f =
      (do
        opened ← net (call (host.open_dir f.pwd))
        elim opened [
          | none ↦ do handle_error os 500; pure false
          | some d ↦ do
            list_names s d.names
            net (call_void (host.close_dir d))
            drop_client os fuel
            pure true
        ])
        f

  unfoldable pub handle_list : Run (Ftp World) ℤ
  unfolding list_body
  handle_list = do
    reply os (codes "150 Here comes the directory listing.\n")
    opened ← try_catch (with_client list_body) (λ e. pure true)
    if opened then (do reply os (codes "226 Directory send OK.\n"); pure (pos 0)) else pure (pos 0)

  -- The `try` block of `HandleRETR`.
  unfoldable pub retr_body : Bytes → SslSocket → Run (Ftp World) (Unit {0})
  retr_body contents s = do
    modify (λ f. record f { send_message = contents })
    net (send_message os s contents)
    drop_client os fuel

  -- The destructor of the `ifstream` of `HandleRETR`, which runs on a return and on an exception.
  unfoldable pub closing : Contents → Outcome (Ftp World) ℤ → Outcome (Ftp World) ℤ
  closing c (done a f) = done a (record f { world = host.close_file c f.world })
  closing c (threw e f) = threw e (record f { world = host.close_file c f.world })
  closing c fault = fault
  closing c diverged = diverged

  -- `HandleRETR` with an open file.
  unfoldable pub send_contents : Bytes → Run (Ftp World) ℤ
  unfolding retr_body
  send_contents contents = do
    try_catch (with_client (retr_body contents)) (λ e. pure tt)
    reply os (codes "226 file send OK.\n")
    pure (pos 0)

  unfoldable pub send_file : Bytes → Run (Ftp World) ℤ
  unfolding send_contents closing
  send_file name f =
      (do
        opened ← net (call (host.open_file (f.pwd ++ (codes "/" ++ name))))
        elim opened [
          | none ↦ handle_error os 500
          | some c ↦ λ g. closing c (send_contents c.text g)
        ])
        f

  unfoldable pub handle_retr : Run (Ftp World) ℤ
  unfolding send_file with_argument
  handle_retr = do reply os (codes "150 file open\n"); with_argument os (codes "RETR") send_file

  -- `ps.recvMessage(m_recvMessage)` into the string with its capacity.
  unfoldable pub recv_client : ℕ → SslSocket → Run (Ftp World) (Unit {0})
  recv_client capacity s f =
      elim (recv_message os reserve fuel s capacity
        (record { message = f.recv_message; world = f.world })) [
          | done a r ↦ done a (record f { recv_message = r.message; world = r.world })
          | threw e r ↦ threw e (record f { recv_message = r.message; world = r.world })
          | fault ↦ fault
          | diverged ↦ diverged
        ]

  -- The `try` block of `HandleSTOR`. What was received is dropped.
  unfoldable pub stor_body : ℕ → SslSocket → Run (Ftp World) (Unit {0})
  unfolding recv_client
  stor_body capacity s = do recv_client capacity s; drop_client os fuel

  unfoldable pub handle_stor : ℕ → Run (Ftp World) ℤ
  unfolding stor_body
  handle_stor capacity = do
    try_catch (with_client (stor_body capacity)) (λ e. pure tt)
    reply os (codes "150 Ok to send data.\n")
    reply os (codes "226 Transfer complete.\n")
    pure (pos 0)
