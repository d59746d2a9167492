-- ===== src/Protocols/Ftp/State.antt =====
-- `ProtocolFtp` (libs/Protocols/ProtocolFtp.h and ProtocolFtp.cpp): its members, and the methods that
-- the handlers share.
use socket_program.Base.{
  ℕ, ℤ, pos, minus_one, ◌==◌, Option, none, some, [], if◌then◌else◌, Bytes, codes,
}
use socket_program.Base.{
  nothing_received, done, fault, Run, ◌>>=◌, ◌>>◌, pure, throw, modify, on_part,
}
use socket_program.Inet.Os.{Os}
use socket_program.Inet.Socket.{SslSocket, destroy}
use socket_program.Inet.Io.{scan_any, put_message, get_message}

-- `m_status` is never read and has no field. `m_socket` is the control connection and `m_client` the
-- data connection, none where the pointer is null.
pub record Ftp (W : Type 0) : Type 0 where
  pub control : SslSocket
  pub client : Option SslSocket
  pub pwd : Bytes
  pub recv_message : Bytes
  pub send_message : Bytes
  pub world : W

-- `ProtocolFtp(IOSocket& socket)`
abbrev pub new_ftp : {W : Type 0} → SslSocket → W → Ftp W
new_ftp socket w = record {
  control = socket;
  client = none;
  pwd = codes "/home/ho80/";
  recv_message = [];
  send_message = [];
  world = w;
}

-- A computation on the world, from a handler.
abbrev pub net : {W A : Type 0} → Run W A → Run (Ftp W) A
net = on_part (λ f. f.world) (λ f w. record f { world = w })

-- A use of `*m_client`: undefined behaviour where it is null.
abbrev pub with_client : {W A : Type 0} → (SslSocket → Run (Ftp W) A) → Run (Ftp W) A
with_client k f = elim f.client [ none ↦ fault | some s ↦ k s f ]

module _ (os : Os) where
  open os use {World}

  -- `sendMessage(m_sendMessage)`
  unfoldable pub send : Run (Ftp World) (Unit {0})
  send f = (do net (put_message os f.control f.send_message); pure tt) f

  -- `m_sendMessage = text; sendMessage(m_sendMessage);`
  unfoldable pub reply : Bytes → Run (Ftp World) (Unit {0})
  unfolding send
  reply text = do modify (λ f. record f { send_message = text }); send

  abbrev pub recv_max : ℕ
  recv_max = 8092

  -- `recvMessage(m_recvMessage)`. Its time limit is not passed on: it waits for as long as it takes.
  unfoldable pub recv : Run (Ftp World) (Unit {0})
  recv f =
      (do
        modify (λ g. record g { recv_message = [] })
        got ← net (get_message os f.control recv_max minus_one scan_any)
        if got.0 == 0
            then throw nothing_received
            else modify (λ g. record g { recv_message = got.1 }))
        f

  -- `HandleError`
  unfoldable pub handle_error : ℕ → Run (Ftp World) ℤ
  unfolding reply
  handle_error err = do
    reply (
        if err == 530
        then codes "530 Please Login again.\n"
        else codes "500 Syntax error, command unrecognized.\n")
    pure (pos 0)

  -- `delete m_client; m_client = nullptr;`, where deleting a null pointer does nothing.
  unfoldable pub drop_client : ℕ → Run (Ftp World) (Unit {0})
  drop_client fuel f = elim f.client [
    | none ↦ done tt f
    | some s ↦ (do net (destroy os fuel s); modify (λ g. record g { client = none })) f
  ]
