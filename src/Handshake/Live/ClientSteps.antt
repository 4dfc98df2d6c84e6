-- ===== src/Handshake/Live/ClientSteps.antt =====
-- The steps of `execute_dispatch_handshake` (c_dispatch/client.c) in a hybrid handshake succeed.
use mathlib.Core.Path.{subst}
use hybrid_pqc_benchmarking.Prelude.{
  ℕ, ◌+◌, ◌≤◌, ◌<◌, ◌≡◌, refl, ap, ◌∙◌, sym, true, ◌==◌, ltb, ==_iff, String, Option, none, some,
  List, [], ◌∷◌, ◌++◌, arith, length, zeros,
}
use hybrid_pqc_benchmarking.Act.{Act, require}
use hybrid_pqc_benchmarking.External.{Openssl, IsLawfulOpenssl, Liboqs, Blake3, OqsKem}
use hybrid_pqc_benchmarking.Algo.{AlgoCombo, Curve, hybrid}
use hybrid_pqc_benchmarking.Crypto.{
  crypto_generate_keypair, crypto_derive_ecdh_secret, derive_setup, derive_ready, derive_sized,
  derive_filled,
}
use hybrid_pqc_benchmarking.Crypto.Secret.{crypto_derive_ecdh_secret-ok}
use hybrid_pqc_benchmarking.Wire.{
  Endian, WireHeader, wire_magic, ServerHelloMeta, msg_server_hello, encode_header,
  encode_server_meta, decode_server_meta,
}
use hybrid_pqc_benchmarking.Wire.Codec.{
  HeaderFits, ServerMetaFits, decode_server_meta-encode_server_meta, length-encode_server_meta,
}
use hybrid_pqc_benchmarking.Handshake.{
  Secret, Party, on_ec, on_kem, recv, recv_header, recv_pub, load_pub, classical_secret,
  max_pub_key_bytes, max_shared_sec,
}
use hybrid_pqc_benchmarking.Handshake.Encaps.{client_pqc_encaps_worker, stored_secret}
use hybrid_pqc_benchmarking.Handshake.Client.{
  client_keypair, send_client_hello, recv_pqc_pk, recv_server_hello, send_ciphertext,
  hybrid_secrets, client_secrets,
}
use hybrid_pqc_benchmarking.Handshake.Live.Libraries.{
  crypto_generate_keypair-Total, malloc_each-Total,
}
use hybrid_pqc_benchmarking.Handshake.Live.{
  Total, IsUpOpenssl, IsUpLiboqs, Total-pure, Total->>=, Holds, Gets, bind_at, Gets-pure, Gets->>=,
  Gets-on_ec, Gets-on_kem, Gets-recv, Gets-send, Gets-recv_pub, Gets-recv_header,
}

-- The calls behind a derivation do not fail.
pub record IsDeriving (ssl : Openssl) : Type 0 where
  pub pkey_ctx_new : (p : ssl.Pkey) → Total (ssl.pkey_ctx_new p)
  pub derive_init : (c : ssl.Ctx) → Total (ssl.derive_init c)
  pub derive_set_peer : (c : ssl.Ctx) (q : ssl.Pkey) → Total (ssl.derive_set_peer c q)
  pub derive_size : (c : ssl.Ctx) → Total (ssl.derive_size c)
  pub derive : (c : ssl.Ctx) (n : ℕ) → Total (ssl.derive c n)

-- A call that gives this value, whatever the state of its library.
abbrev pub Yields : {W A : Type 0} → Act W A → A → Type 0
Yields {W} m a = (w : W) → (v : W) × (m w ≡ (some a, v))

module _ (ssl : Openssl) (L : IsLawfulOpenssl ssl) (oqs : Liboqs) (up : IsUpOpenssl ssl)
    (dup : IsDeriving ssl) (oup : IsUpLiboqs oqs) where
  abbrev P : Type 0
  P = Party ssl oqs

  derive_setup-Total : (p q : ssl.Pkey) → Total (derive_setup ssl p q)
  unfolding derive_setup
  derive_setup-Total p q = Total->>= (ssl.pkey_ctx_new p) _ (dup.pkey_ctx_new p) λ c.
      Total->>= (ssl.derive_init c) _ (dup.derive_init c)
        λ _u. Total->>= (ssl.derive_set_peer c q) _ (dup.derive_set_peer c q) λ _v. Total-pure c

  derive_is_ok :
      (p q : ssl.Pkey) (buf : List ℕ) (len : ℕ) (w : ssl.World)
      → (crypto_derive_ecdh_secret ssl p q buf len w).0.is_ok ≡ true
  unfolding crypto_derive_ecdh_secret derive_ready derive_sized derive_filled
  derive_is_ok p q buf len w =
      let (c, w1, e1) = derive_setup-Total p q w in
      let (n, w2, e2) = dup.derive_size c w1 in
      let (s, w3, e3) = dup.derive c n w2 in
      rw (e1, derive_ready, e2, derive_sized, e3, derive_filled) refl

  -- Where the server's key loads, the secret is not empty.
  classical_secret-Nonempty :
      (curve : Curve) (priv peer : ssl.Pkey) (bytes : List ℕ)
      → 0 < length bytes
      → Yields (load_pub ssl curve bytes) peer
      → (w : ssl.World)
      → (c : Secret) × (v : ssl.World) × (classical_secret ssl curve priv bytes w ≡ (some c, v))
        × (0 < c.len)
  unfolding classical_secret
  classical_secret-Nonempty curve priv peer bytes h loads w =
      let (w1, e) = loads w in
      let some_bytes : ltb 0 (length bytes) ≡ true = ground arith in
      let ok = derive_is_ok priv peer (zeros 64) max_shared_sec w1 in
      let (_buf, len) =
        crypto_derive_ecdh_secret-ok ssl L priv peer (zeros 64) max_shared_sec w1 ok in
      let (d, v) = crypto_derive_ecdh_secret ssl priv peer (zeros 64) max_shared_sec w1 in
      (
        record { bytes = d.secret; len = d.secret_len; is_ok = d.is_ok },
        v,
        rw (some_bytes, e) refl,
        omega (arith, len, (L.length-agreed priv peer).0),
      )

  client_pqc_encaps_worker-Total :
      (name : Option String) (kem : OqsKem) (pk : List ℕ)
      → Yields (oqs.kem_new name) kem
      → length pk ≡ kem.length_public_key
      → Total (oqs.encaps kem pk)
      → Total (client_pqc_encaps_worker ssl oqs name none (some pk))
  unfolding client_pqc_encaps_worker
  client_pqc_encaps_worker-Total name kem pk new l enc w =
      let (w1, e1) = new w in
      let (_u, w2, e2) =
        malloc_each-Total ssl oqs up oup (kem.length_ciphertext ∷ kem.length_shared_secret ∷ [])
          w1 in
      let same : (length pk == kem.length_public_key) ≡ true = (==_iff _ _).1 l in
      let ((ct, ss), w3, e3) = enc w2 in
      (
        record {
          ct = ct;
          ss = ss;
          ct_len = kem.length_ciphertext;
          q_secret_len = kem.length_shared_secret;
        },
        w3,
        rw (e1, e2, same, e3) refl,
      )

  -- Each share done, the frame is sent or not, and the secrets are there.
  hybrid_secrets-Gets :
      (b3 : Blake3) (en : Endian) (combo : AlgoCombo) (priv peer : ssl.Pkey) (kem : OqsKem)
      (srv_pub pk : List ℕ) (p : P)
      → 0 < length srv_pub
      → Yields (load_pub ssl combo.classical_curve srv_pub) peer
      → Yields (oqs.kem_new combo.pqc_name) kem
      → length pk ≡ kem.length_public_key
      → Total (oqs.encaps kem pk)
      → Gets ssl oqs
          (hybrid_secrets ssl oqs b3 en combo priv (record { srv_pub = srv_pub; pqc_pk = some pk }))
          p
          (λ _s s. Unit {0})
  unfolding hybrid_secrets send_ciphertext
  hybrid_secrets-Gets b3 en combo priv peer kem srv_pub pk p h loads new l enc =
      let (made, k, e1) = client_pqc_encaps_worker-Total combo.pqc_name kem pk new l enc p.kem in
      let (c, v, e2, pos_len) =
        classical_secret-Nonempty combo.classical_curve priv peer srv_pub h loads p.ec in
      let nonempty : ltb 0 c.len ≡ true = ground arith in
      let p2 : P = record p { kem = k; ec = v } in
      record {
        value = record { classical = c; quantum = stored_secret made.ss made.q_secret_len };
        party = (send_ciphertext ssl oqs b3 en combo made.ct made.ct_len p2).1;
        runs = rw (e1, e2, nonempty) refl;
        then_holds = tt;
      }

  pub client_keypair-Gets :
      (b3 : Blake3) (en : Endian) (combo : AlgoCombo) (ys : List ℕ) (p : P)
      → combo.profile ≡ hybrid
      → Holds ys p.sock
      → Gets ssl oqs
          (client_keypair ssl oqs b3 en combo)
          p
          (λ key s. Holds ys s × (priv : ssl.Pkey) × (key ≡ some priv))
  unfolding client_keypair
  client_keypair-Gets b3 en combo ys p is h = rw is (
      Gets->>= ssl oqs (on_ec ssl oqs (crypto_generate_keypair ssl combo.classical_curve)) _ p
        (Gets-on_ec ssl oqs (crypto_generate_keypair ssl combo.classical_curve) p
          (crypto_generate_keypair-Total ssl oqs up oup combo.classical_curve))
        λ priv p1 q1. Gets-pure ssl oqs (some priv) p1 (subst (Holds ys) (sym q1) h, priv, refl))

  pub send_client_hello-Gets :
      (b3 : Blake3) (en : Endian) (combo : AlgoCombo) (kdf dmode : ℕ) (bytes ys : List ℕ) (p : P)
      → Holds ys p.sock
      → Gets ssl oqs (send_client_hello ssl oqs b3 en combo kdf dmode bytes) p (λ _u s. Holds ys s)
  unfolding send_client_hello
  send_client_hello-Gets b3 en combo kdf dmode bytes ys p h =
      Gets->>= ssl oqs (on_kem ssl oqs (oqs.malloc (12 + 4 + length bytes))) _ p
        (Gets-on_kem ssl oqs (oqs.malloc (12 + 4 + length bytes)) p (oup.malloc _))
        λ _u p1 q1. Gets-send ssl oqs _ ys p1 (subst (Holds ys) (sym q1) h)

  recv_pqc_pk-Gets :
      (b3 : Blake3) (en : Endian) (n : ℕ) (pk ys : List ℕ) (p : P)
      → length pk ≡ n
      → 0 < n
      → Holds (pk ++ ys) p.sock
      → Gets ssl oqs (recv_pqc_pk ssl oqs b3 en n) p (λ r _s. r ≡ some pk)
  unfolding recv_pqc_pk
  recv_pqc_pk-Gets b3 en n pk ys p l h0 h =
      let some_key : ltb 0 n ≡ true = ground arith in
      rw some_key (
        Gets->>= ssl oqs (on_kem ssl oqs (oqs.malloc n)) _ p
          (Gets-on_kem ssl oqs (oqs.malloc n) p (oup.malloc n))
          λ _u p1 q1.
            Gets->>= ssl oqs (recv ssl oqs n) _ p1
              (Gets-recv ssl oqs n pk ys p1 l (subst (Holds (pk ++ ys)) (sym q1) h))
              λ got p2 (same, _left). Gets-pure ssl oqs (some got) p2 (ap some (sym same)))

  -- The server's first frame, from its header to its KEM key.
  pub recv_server_hello-Gets :
      (b3 : Blake3) (en : Endian) (hdr : WireHeader) (fields : ServerHelloMeta)
      (srv_pub pk ys : List ℕ) (p : P)
      → HeaderFits hdr
      → hdr.magic ≡ wire_magic
      → hdr.msg_type ≡ msg_server_hello
      → ServerMetaFits fields
      → length srv_pub ≡ fields.srv_pub_len
      → fields.srv_pub_len ≤ max_pub_key_bytes
      → length pk ≡ fields.pqc_pk_len
      → 0 < fields.pqc_pk_len
      → Holds
          (encode_header hdr ++ (encode_server_meta en fields ++ (srv_pub ++ (pk ++ ys))))
          p.sock
      → Gets ssl oqs
          (recv_server_hello ssl oqs b3 en)
          p
          (λ keys _s. keys ≡ record { srv_pub = srv_pub; pqc_pk = some pk })
  unfolding recv_server_hello
  recv_server_hello-Gets b3 en hdr fields srv_pub pk ys p hf magic kind mf l small lk h0 h =
      Gets->>= ssl oqs (recv_header ssl oqs msg_server_hello) _ p
        (Gets-recv_header ssl oqs msg_server_hello hdr _ p hf magic kind h)
        λ _hdr p1 (_same, h1).
          Gets->>= ssl oqs (recv ssl oqs 8) _ p1
            (Gets-recv ssl oqs 8 (encode_server_meta en fields) _ p1
              (length-encode_server_meta en fields) h1)
            λ bytes p2 (same, h2).
              bind_at ssl oqs (require (decode_server_meta en bytes)) _ p2 fields p2
                (ap (λ (o : Option ServerHelloMeta). require o p2)
                  (ap (decode_server_meta en) (sym same)
                    ∙ decode_server_meta-encode_server_meta en fields mf))
                (Gets->>= ssl oqs (recv_pub ssl oqs fields.srv_pub_len) _ p2
                  (Gets-recv_pub ssl oqs fields.srv_pub_len srv_pub (pk ++ ys) p2 l small h2)
                  λ got p3 (same3, h3).
                    Gets->>= ssl oqs (recv_pqc_pk ssl oqs b3 en fields.pqc_pk_len) _ p3
                      (recv_pqc_pk-Gets b3 en fields.pqc_pk_len pk ys p3 lk h0 h3)
                      λ r p4 key. Gets-pure ssl oqs _ p4 (rw (sym same3, key) refl))

  pub client_secrets-Gets :
      (b3 : Blake3) (en : Endian) (combo : AlgoCombo) (priv peer : ssl.Pkey) (kem : OqsKem)
      (srv_pub pk : List ℕ) (p : P)
      → combo.profile ≡ hybrid
      → 0 < length srv_pub
      → Yields (load_pub ssl combo.classical_curve srv_pub) peer
      → Yields (oqs.kem_new combo.pqc_name) kem
      → length pk ≡ kem.length_public_key
      → Total (oqs.encaps kem pk)
      → Gets ssl oqs
          (client_secrets ssl oqs b3 en combo
            (some priv)
            (record { srv_pub = srv_pub; pqc_pk = some pk }))
          p
          (λ _s s. Unit {0})
  unfolding client_secrets
  client_secrets-Gets b3 en combo priv peer kem srv_pub pk p is h loads new l enc = rw is (
      hybrid_secrets-Gets b3 en (record combo { profile = hybrid }) priv peer kem srv_pub pk p h
        loads new l enc)
