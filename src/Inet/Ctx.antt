-- ===== src/Inet/Ctx.antt =====
-- `SSLCtx` (libs/Inet/Socket.cpp).
use socket_program.Base.{ℕ, pos, ◌==ℤ◌, is_nonpos, Bool, Option, none, some, if◌then◌else◌, Bytes}
use socket_program.Base.{
  ctx_new_failed, certificate_failed, private_key_failed, key_mismatch, Run, ◌>>=◌, ◌>>◌, pure,
  throw,
}
use socket_program.Inet.Os.{Os, call, call_void}
use socket_program.Inet.Socket.{SslCtx}

module _ (os : Os) where
  open os use {World}

  -- The test of `m_ctx` in `SSLCtx(int isServer)`.
  unfoldable pub made_ctx : Option ℕ → Run World SslCtx
  made_ctx none = throw ctx_new_failed
  made_ctx (some p) = pure (record { ctx = some p })

  -- `SSLCtx(int isServer)`: a server's method or a client's.
  unfoldable pub new_ctx : Bool → Run World SslCtx
  unfolding made_ctx
  new_ctx is_server = do p ← call (os.ctx_new is_server); made_ctx p

  unfoldable pub load_into : ℕ → Bytes → Bytes → Run World (Unit {0})
  load_into p cert_file key_file = do
    cert ← call (os.ctx_use_certificate p cert_file)
    if is_nonpos cert then throw certificate_failed else (do
      key ← call (os.ctx_use_private_key p key_file)
      if is_nonpos key then throw private_key_failed else (do
        matches ← call (os.ctx_check_private_key p)
        if matches ==ℤ pos 0 then throw key_mismatch else pure tt))

  -- `SSLCtx::LoadFile`
  unfoldable pub load_file : SslCtx → Bytes → Bytes → Run World (Unit {0})
  unfolding load_into
  load_file c cert_file key_file = elim c.ctx [
    | none ↦ throw ctx_new_failed
    | some p ↦ load_into p cert_file key_file
  ]

  -- `SSLCtx(const char* CertFile, const char* KeyFile)`, which never sets `m_ctx`: it loads into
  -- whatever pointer the memory held.
  unfoldable pub new_ctx_from_files : SslCtx → Bytes → Bytes → Run World SslCtx
  unfolding load_file
  new_ctx_from_files junk cert_file key_file = do load_file junk cert_file key_file; pure junk

  -- `SSLCtx::~SSLCtx`
  unfoldable pub destroy_ctx : SslCtx → Run World (Unit {0})
  destroy_ctx c = elim c.ctx [ none ↦ pure tt | some p ↦ call_void (os.ctx_free p) ]
