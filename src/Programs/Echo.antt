-- ===== src/Programs/Echo.antt =====
-- src/sserver.cpp: a TLS server that sends back what it receives, one client after the other.
pub mod Library
pub mod Laws
pub mod Echoing
pub mod Password
use socket_program.Base.{
  ℕ, zero, suc, ◌+◌, ◌*◌, ℤ, pos, negsuc, ◌==ℤ◌, ◌+ℤ◌, ◌-ℤ◌, pos_part, is_negative, Bool, true,
  false, Option, none, some, take, drop, Bytes, codes, if◌then◌else◌,
}
use socket_program.Base.{diverged, Run, ◌>>=◌, ◌>>◌, pure, undefined}
use socket_program.Inet.Os.{Os, call, call_void}
use Library.{Openssl}

-- `PORT`
abbrev pub echo_port : ℕ
echo_port = 8081

-- `SSL_ERROR_NONE`
abbrev pub ssl_error_none : ℤ
ssl_error_none = pos 0

module _ (os : Os) (lib : Openssl os) where
  open os use {World}

  unfoldable pub generate_private_key : Run World (Option ℕ)
  generate_private_key = do
    pctx ← call lib.pkey_ctx_new_rsa
    call_void (lib.pkey_keygen_init pctx)
    call_void (lib.pkey_set_rsa_keygen_bits pctx 2048)
    call (lib.pkey_keygen pctx)

  -- `generateCertificate`: it is valid for a year and signed with its own key.
  unfoldable pub generate_certificate : Option ℕ → Run World (Option ℕ)
  generate_certificate pkey = do
    x509 ← call lib.x509_new
    call_void (lib.x509_set_version x509 2)
    serial ← call (lib.x509_serial_number x509)
    call_void (lib.asn1_integer_set serial 0)
    not_before ← call (lib.x509_not_before x509)
    call_void (lib.x509_gmtime_adj not_before 0)
    not_after ← call (lib.x509_not_after x509)
    call_void (lib.x509_gmtime_adj not_after (60 * 60 * 24 * 365))
    call_void (lib.x509_set_pubkey x509 pkey)
    name ← call (lib.x509_subject_name x509)
    call_void (lib.x509_name_add_entry name (codes "C") (codes "US"))
    call_void (lib.x509_name_add_entry name (codes "CN") (codes "YourCN"))
    call_void (lib.x509_set_issuer_name x509 name)
    call_void (lib.x509_sign_md5 x509 pkey)
    pure x509

  -- The loop `while (len)`: whether it ended with everything written, and not at `goto end`.
  unfoldable pub write_back : ℕ → ℕ → Bytes → ℤ → ℤ → Run World Bool
  write_back zero ssl buf offset len w = diverged
  write_back (suc fuel) ssl buf offset len w = elim (len ==ℤ pos 0) [
    | true ↦ pure true w
    | false ↦
        (do
          r ← call (os.ssl_write ssl len (take (pos_part len) (drop (pos_part offset) buf)))
          err ← call (lib.ssl_get_error ssl r)
          let again = write_back fuel ssl buf (offset +ℤ r) (len -ℤ r)
          if err ==ℤ ssl_error_none then again else pure false)
          w
  ]

  -- The loop `while (1)` over the reads, up to the label `end`. A read of r bytes is written in r
  -- rounds at most.
  unfoldable pub echo_loop : ℕ → ℕ → Run World (Unit {0})
  unfolding write_back
  echo_loop zero ssl w = diverged
  echo_loop (suc fuel) ssl w =
      (do
        r ← call (os.ssl_read ssl (pos 1024))
        err ← call (lib.ssl_get_error ssl r.0)
        if err ==ℤ ssl_error_none
            then (do
              all ← write_back (suc (pos_part r.0)) ssl r.1 (pos 0) r.0
              if all then echo_loop fuel ssl else pure tt)
            else pure tt)
        w

  -- One client, from `SSL_set_bio` on, which takes no null pointer.
  unfoldable pub serve_ssl : ℕ → ℤ → Option ℕ → Run World (Unit {0})
  unfolding echo_loop
  serve_ssl fuel cfd none = undefined
  serve_ssl fuel cfd (some ssl) = do
    accept_bio ← call (lib.bio_new_socket cfd)
    call_void (lib.ssl_set_bio ssl accept_bio)
    call (os.ssl_accept ssl)
    bio ← call (lib.bio_pop accept_bio)
    echo_loop fuel ssl
    call (os.ssl_shutdown ssl)
    call_void (lib.bio_free_all bio)
    call_void (lib.bio_free_all accept_bio)

  -- One client, after its context was made.
  unfoldable pub serve_in : ℕ → ℤ → ℕ → Run World (Unit {0})
  unfolding serve_ssl generate_private_key generate_certificate
  serve_in fuel cfd ctx = do
    pkey ← generate_private_key
    x509 ← generate_certificate pkey
    call_void (lib.ctx_use_certificate ctx x509)
    call_void (lib.ctx_set_passwd_cb ctx)
    call_void (lib.ctx_use_private_key ctx pkey)
    rsa ← call (lib.rsa_generate_key 512)
    call_void (lib.ctx_set_tmp_rsa ctx rsa)
    call_void (lib.rsa_free rsa)
    call_void (lib.ctx_set_verify_none ctx)
    ssl ← call (os.ssl_new ctx)
    serve_ssl fuel cfd ssl

  -- The body of the loop over the clients: `some c` when `main` returns c in it.
  unfoldable pub serve_client : ℕ → ℤ → Run World (Option ℤ)
  unfolding serve_in
  serve_client fuel cfd = do
    call_void lib.library_init
    ctx ← call (os.ctx_new true)
    elim ctx [ none ↦ pure (some (negsuc 2)) | some p ↦ do serve_in fuel cfd p; pure none ]

  -- `while (cfd = accept(fd, 0, 0))`, with the rounds of this loop and of each client's.
  unfoldable pub serve_loop : ℕ → ℕ → ℤ → Run World ℤ
  unfolding serve_client
  serve_loop zero rounds fd w = diverged
  serve_loop (suc fuel) rounds fd w =
      (do
        cfd ← call (os.accept fd)
        if cfd ==ℤ pos 0 then pure (pos 0) else (do
          code ← serve_client rounds cfd
          elim code [ none ↦ serve_loop fuel rounds fd | some c ↦ pure c ]))
        w

  -- `main`
  unfoldable pub echo_main : ℕ → ℕ → Run World ℤ
  unfolding serve_loop
  echo_main fuel rounds = do
    fd ← call os.socket
    if is_negative fd then pure (negsuc 3) else (do
      bound ← call (os.bind fd echo_port)
      if is_negative bound
          then pure (negsuc 4)
          else (do call (os.listen fd 2); serve_loop fuel rounds fd))
