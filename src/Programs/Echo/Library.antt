-- ===== src/Programs/Echo/Library.antt =====
-- The OpenSSL functions that src/sserver.cpp calls and libs/Inet does not: parameters, as Os is. A
-- pointer is a number, and a null pointer is `none`; results that the program ignores are left out.
use socket_program.Base.{ℕ, ℤ, Bytes, Option}
use socket_program.Inet.Os.{Os}

pub record Openssl (os : Os) : Type 1 where
  pub library_init : os.World → os.World
  pub ssl_get_error : ℕ → ℤ → os.World → ℤ × os.World
  pub pkey_ctx_new_rsa : os.World → Option ℕ × os.World
  pub pkey_keygen_init : Option ℕ → os.World → os.World
  pub pkey_set_rsa_keygen_bits : Option ℕ → ℕ → os.World → os.World
  pub pkey_keygen : Option ℕ → os.World → Option ℕ × os.World
  pub x509_new : os.World → Option ℕ × os.World
  pub x509_set_version : Option ℕ → ℕ → os.World → os.World
  pub x509_serial_number : Option ℕ → os.World → Option ℕ × os.World
  pub asn1_integer_set : Option ℕ → ℕ → os.World → os.World
  pub x509_not_before : Option ℕ → os.World → Option ℕ × os.World
  pub x509_not_after : Option ℕ → os.World → Option ℕ × os.World
  pub x509_gmtime_adj : Option ℕ → ℕ → os.World → os.World
  pub x509_set_pubkey : Option ℕ → Option ℕ → os.World → os.World
  pub x509_subject_name : Option ℕ → os.World → Option ℕ × os.World
  pub x509_name_add_entry : Option ℕ → Bytes → Bytes → os.World → os.World
  pub x509_set_issuer_name : Option ℕ → Option ℕ → os.World → os.World
  pub x509_sign_md5 : Option ℕ → Option ℕ → os.World → os.World
  pub ctx_use_certificate : ℕ → Option ℕ → os.World → os.World
  pub ctx_set_passwd_cb : ℕ → os.World → os.World
  pub ctx_use_private_key : ℕ → Option ℕ → os.World → os.World
  pub rsa_generate_key : ℕ → os.World → Option ℕ × os.World
  pub ctx_set_tmp_rsa : ℕ → Option ℕ → os.World → os.World
  pub rsa_free : Option ℕ → os.World → os.World
  pub ctx_set_verify_none : ℕ → os.World → os.World
  pub bio_new_socket : ℤ → os.World → Option ℕ × os.World
  pub ssl_set_bio : ℕ → Option ℕ → os.World → os.World
  pub bio_pop : Option ℕ → os.World → Option ℕ × os.World
  pub bio_free_all : Option ℕ → os.World → os.World
