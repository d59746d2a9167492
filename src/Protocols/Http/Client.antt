-- ===== src/Protocols/Http/Client.antt =====
-- The client's side of `ProtocolHttp`: `sendMessage`, `sendRequest`, `sendRequestFd` and
-- `recvMessage`.
pub mod Requests
use socket_program.Base.{
  ℕ, zero, suc, ◌-◌, ℤ, pos, minus_one, ◌==◌, ltb, Bool, true, false, none, some, List, [], ◌∷◌,
  ◌++◌, if◌then◌else◌, Bytes, codes, cr_lf, c_str,
}
use socket_program.Base.{Outcome, done, threw, fault, diverged, Run, ◌>>=◌, ◌>>◌, pure}
use socket_program.Inet.Os.{Os, call}
use socket_program.Inet.Io.{scan_any, put_message, get_message}
use socket_program.Protocols.Simple.{Reserve, reserved}
use socket_program.Protocols.Http.State.{Http, File, Site, net}

-- What `file.getline(msgBuf, 2048)` stores, the input that is left, and the flags. A call on a stream
-- that has failed stores nothing.
pub record Line : Type 0 where
  pub text : Bytes
  pub rest : Bytes
  pub eof : Bool
  pub failed : Bool

abbrev line_max : ℕ
line_max = 2047

-- `taken` bytes are stored already.
unfoldable pub getline_from : ℕ → Bytes → Line
getline_from taken [] = record { text = []; rest = []; eof = true; failed = taken == 0 }
getline_from taken (c ∷ s) =
    let more = getline_from (suc taken) s in
    if c == 10
    then record { text = []; rest = s; eof = false; failed = false }
    else if ltb taken line_max
    then record more { text = c ∷ more.text }
    else record { text = []; rest = c ∷ s; eof = false; failed = true }

module _ (os : Os) (reserve : Reserve) (site : Site os.World) where
  open os use {World}

  abbrev pub put : Bytes → Run (Http World) (Unit {0})
  put message h = (do net (put_message os h.socket message); pure tt) h

  -- `sendMessage`
  unfoldable pub send_message : Bytes → Run (Http World) (Unit {0})
  send_message = put

  unfoldable pub send_headers : List Bytes → Run (Http World) (Unit {0})
  send_headers [] h = done tt h
  send_headers (msg ∷ more) h = (do put msg; send_headers more) h

  -- `sendRequest`
  unfoldable pub send_request : Run (Http World) ℤ
  unfolding send_headers
  send_request h =
      (do
        put (
            h.request_method
            ++ (codes " " ++ (h.request_path ++ (codes " HTTP/" ++ (h.request_version ++ cr_lf)))))
        put (codes "Host: " ++ (h.request_host ++ cr_lf))
        send_headers h.request_header
        put cr_lf
        pure (pos 0))
        h

  -- The loop of `sendRequestFd`, of at most so many rounds.
  unfoldable pub send_lines : ℕ → Line → Run (Http World) (Unit {0})
  unfolding getline_from
  send_lines zero line h = diverged
  send_lines (suc fuel) line h = elim line.eof [
    | true ↦ done tt h
    | false ↦ elim line.failed [
      | true ↦ (do put cr_lf; send_lines fuel line) h
      | false ↦
          (do
            let next = getline_from 0 line.rest
            put (c_str next.text ++ cr_lf)
            send_lines fuel next)
            h
    ]
  ]

  -- The destructor of the `ifstream` of `sendRequestFd`, which runs on a return and on an exception.
  unfoldable pub closing : {A : Type 0} → File → Outcome (Http World) A → Outcome (Http World) A
  closing f (done a h) = done a (record h { world = site.close_file f h.world })
  closing f (threw e h) = threw e (record h { world = site.close_file f h.world })
  closing f fault = fault
  closing f diverged = diverged

  -- `sendRequestFd`
  unfoldable pub send_request_fd : ℕ → Bytes → Run (Http World) ℤ
  unfolding send_lines closing
  send_request_fd fuel filename = do
    file ← net (call (site.open_file filename))
    elim file [
      | none ↦ pure minus_one
      | some f ↦ λ h. closing f (
          (do
            send_lines fuel
                (record { text = []; rest = f.bytes_from 0; eof = false; failed = false })
            pure (pos 0))
            h)
    ]

  -- The loop of `recvMessage`, of at most so many rounds. What comes is logged and dropped.
  unfoldable pub recv_loop : ℕ → ℕ → Run (Http World) (Unit {0})
  recv_loop capacity zero h = diverged
  recv_loop capacity (suc fuel) h =
      (do
        got ← net (get_message os h.socket (capacity - 1) minus_one scan_any)
        if got.0 == 0 then pure tt else recv_loop capacity fuel)
        h

  -- `recvMessage` into a string of the given capacity. The bytes are written behind the end of the
  -- string, whose length stays 0.
  unfoldable pub recv_message : ℕ → ℕ → Run (Http World) Bytes
  unfolding recv_loop
  recv_message fuel capacity = do
    capacity' ← reserved (reserve capacity 8092)
    recv_loop capacity' fuel
    pure []
