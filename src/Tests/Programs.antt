-- ===== src/Tests/Programs.antt =====
-- The programs on the test machine.
use socket_program.Base.{
  ◌⊎◌, ℕ, ◌<◌, ◌≤◌, ℤ, pos, is_nonpos, not-is_nonpos, ◌==ℤ◌, ◌-ℤ◌, ◌+ℤ◌, ◌≡◌, refl, true, false,
  none, some, [], ◌∷◌, ◌++◌, length, take, Bytes, c_str, codes, arith, if◌then◌else◌, Ensures,
}
use socket_program.Inet.Os.{Os}
use socket_program.Programs.Echo.{echo_loop, ssl_error_none}
use socket_program.Programs.Echo.Library.{Openssl}
use socket_program.Programs.Echo.Laws.{Duplex}
use socket_program.Programs.Echo.Echoing.{ReadFailed, WriteFailed, echo_loop-Echoes}
use socket_program.Programs.Echo.Password.{password_cb, password_cb-Fits}
use socket_program.Tests.Wire.{World, wire, wire_outgoing, wire_incoming, start}

-- OpenSSL with no keys to speak of; `SSL_get_error` is 6, the end of the connection, on a failure.
abbrev openssl_on : (os : Os) → Openssl os
openssl_on os = record {
  library_init = λ w. w;
  ssl_get_error = λ p r w. (if is_nonpos r then pos 6 else pos 0, w);
  pkey_ctx_new_rsa = λ w. (some 1, w);
  pkey_keygen_init = λ p w. w;
  pkey_set_rsa_keygen_bits = λ p n w. w;
  pkey_keygen = λ p w. (some 2, w);
  x509_new = λ w. (some 3, w);
  x509_set_version = λ p n w. w;
  x509_serial_number = λ p w. (some 4, w);
  asn1_integer_set = λ p n w. w;
  x509_not_before = λ p w. (some 5, w);
  x509_not_after = λ p w. (some 6, w);
  x509_gmtime_adj = λ p n w. w;
  x509_set_pubkey = λ p k w. w;
  x509_subject_name = λ p w. (some 7, w);
  x509_name_add_entry = λ p k v w. w;
  x509_set_issuer_name = λ p n w. w;
  x509_sign_md5 = λ p k w. w;
  ctx_use_certificate = λ c p w. w;
  ctx_set_passwd_cb = λ c w. w;
  ctx_use_private_key = λ c k w. w;
  rsa_generate_key = λ n w. (some 8, w);
  ctx_set_tmp_rsa = λ c k w. w;
  rsa_free = λ k w. w;
  ctx_set_verify_none = λ c w. w;
  bio_new_socket = λ fd w. (some 9, w);
  ssl_set_bio = λ p b w. w;
  bio_pop = λ b w. (none, w);
  bio_free_all = λ b w. w;
}

error_of_failure :
    (r : ℤ)
    → is_nonpos r ≡ true
    → ((if is_nonpos r then pos 6 else pos 0) ==ℤ ssl_error_none) ≡ false
error_of_failure r e = rw e refl

error_of_success :
    (n : ℕ) → 0 < n → ((if is_nonpos (pos n) then pos 6 else pos 0) ==ℤ ssl_error_none) ≡ true
error_of_success n h = rw (not-is_nonpos n h) refl

given_sends : (p room : ℕ) (w : World) → (wire.ssl_read p (pos room) w).1.outbox ≡ w.outbox
given_sends p room w =
    elim w.inbox
      as (λ i. (wire.ssl_read p (pos room) (record w { inbox = i })).1.outbox ≡ w.outbox) [
        | [] ↦ refl
        | c ∷ rest ↦ refl
      ]

taken_takes :
    (p : ℕ) (rest : Bytes) (w : World)
    → (wire.ssl_write p (pos (length rest)) rest w).1.inbox ≡ w.inbox
taken_takes p [] w = refl
taken_takes p (c ∷ rest) w = refl

wire-Duplex : Duplex wire (openssl_on wire) wire_outgoing wire_incoming
unfolding wire_outgoing wire_incoming
wire-Duplex = record {
  error_none = λ p n w h. error_of_success n h;
  error_some = λ p r w h. error_of_failure r h;
  error_sends = λ p r w. refl;
  error_takes = λ p r w. refl;
  read_sends = given_sends;
  write_takes = taken_takes;
}

echo_loop-Echoes_example :
    Ensures
      (λ u w'.
        (echoed : Bytes) × (lost : Bytes) × (codes "hello" ≡ echoed ++ (lost ++ w'.inbox))
        × (w'.outbox ≡ [] ++ echoed)
        × (length lost ≤ 1024)
        × (((lost ≡ [])
              × ReadFailed wire (openssl_on wire) wire_outgoing wire_incoming wire-Duplex 0 w')
            ⊎ WriteFailed wire (openssl_on wire) wire_outgoing wire_incoming wire-Duplex 0 lost w'))
      (λ e w'. ⊥)
      (echo_loop wire (openssl_on wire) 6 0 (start (codes "hello")))
unfolding wire_outgoing wire_incoming
echo_loop-Echoes_example =
    echo_loop-Echoes wire (openssl_on wire) wire_outgoing wire_incoming wire-Duplex 0 6
      (start (codes "hello")) (omega arith)

echo_runs :
    Ensures
      (λ u w'. w'.outbox ≡ codes "hello")
      (λ e w'. ⊥)
      (echo_loop wire (openssl_on wire) 6 0 (start (codes "hello")))
unfolding echo_loop ◌-ℤ◌ ◌+ℤ◌
echo_runs = refl

password_cb-Fits_example :
    Ensures
      (λ ret filled.
        (length filled ≡ 4)
        × (c_str filled ≡ take 3 (c_str (codes "secret")))
        × (ret ≡ pos (length (c_str filled)))
        × (length (c_str filled) < 4))
      (λ e filled. ⊥)
      (password_cb (pos 4) (some (codes "secret")) [])
password_cb-Fits_example = password_cb-Fits 4 (codes "secret") [] (omega arith) (omega arith)
