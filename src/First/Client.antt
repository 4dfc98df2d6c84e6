-- ===== src/First/Client.antt =====
-- c/client.c: the client's handshake, `execute_handshake_with_telemetry`. The time that the source
-- returns and the counters, which HwTelemetry models, are left out; `none` is its -1.0.
use hybrid_pqc_benchmarking.Prelude.{
  ℕ, ltb, Bool, ◌&&◌, ◌||◌, Option, none, some, String, List, [], ◌∷◌, if◌then◌else◌, memcpy, codes,
  str_eq,
}
use hybrid_pqc_benchmarking.Act.{Act, ◌>>=◌, ◌>>◌, pure, guard, require, attempt}
use hybrid_pqc_benchmarking.External.{Openssl, Liboqs, Blake3, OqsKem, Cjson}
use hybrid_pqc_benchmarking.Algo.{
  AlgoCombo, hybrid, pure_classical, pure_quantum, is_hybrid, is_pure_classical,
}
use hybrid_pqc_benchmarking.Crypto.{crypto_generate_keypair}
use hybrid_pqc_benchmarking.Engine.{malloc_each}
use hybrid_pqc_benchmarking.Handshake.{
  Secret, no_secret, Session, Party, on_ec, on_kem, static_salt, max_pub_key_bytes, export_pub,
  classical_secret, key_material,
}
use hybrid_pqc_benchmarking.Handshake.Encaps.{b64_decode, Encapsulated, decoded_key, stored_secret}
use hybrid_pqc_benchmarking.Handshake.Client.{Secrets}
use hybrid_pqc_benchmarking.Handshake.Json.{
  b64_encode, json_get_str, add_text, recv_json, send_json, json_session_key,
}

-- A salt is sent and used in the hybrid profile with SHA-256 only.
unfoldable pub use_salt : AlgoCombo → String → Bool
use_salt combo kdf_type = is_hybrid combo.profile && str_eq kdf_type "sha256"

unfoldable pub client_salt : AlgoCombo → String → Option (List ℕ)
unfolding use_salt
client_salt combo kdf_type = if use_salt combo kdf_type then some static_salt else none

-- The bytes of a buffer's text; NULL and what is not Base64 have none.
abbrev pub decoded : Option (List ℕ) → List ℕ
decoded none = []
decoded (some bytes) = bytes

module _ (ssl : Openssl) (oqs : Liboqs) where
  -- `client_pqc_encaps_worker` of c/client.c.
  unfoldable pub line_encaps_worker : Option String → List ℕ → Act oqs.World Encapsulated
  line_encaps_worker pqc_name q_pk_b64 = do
    kem ← oqs.kem_new pqc_name
    malloc_each oqs (kem.length_ciphertext ∷ kem.length_shared_secret ∷ kem.length_public_key ∷ [])
    pk ← decoded_key ssl oqs kem (b64_decode ssl (some q_pk_b64) kem.length_public_key)
    (ct, ss) ← oqs.encaps kem pk
    pure (record {
      ct = ct;
      ss = ss;
      ct_len = kem.length_ciphertext;
      q_secret_len = kem.length_shared_secret;
    })

module _ (ssl : Openssl) (json : Cjson) where
  unfoldable pub profile_select : AlgoCombo → String → json.Object
  unfolding use_salt
  profile_select combo kdf_type =
      let o1 = json.add_string json.create_object "type" (codes "ProfileSelect") in
      let o2 = json.add_number o1 "combo_id" (json.of_int combo.id) in
      let o3 = json.add_string o2 "kdf_type" (codes kdf_type) in
      if use_salt combo kdf_type
      then add_text json o3 "salt" (b64_encode ssl static_salt)
      else json.add_null o3 "salt"

  unfoldable pub client_hello : List ℕ → json.Object
  client_hello pub_bytes =
      add_text json (json.add_string json.create_object "type" (codes "ClientHello")) "c_pub"
        (b64_encode ssl pub_bytes)

  unfoldable pub ciphertext_line : List ℕ → json.Object
  ciphertext_line ct =
      add_text json (json.add_string json.create_object "type" (codes "PQCCiphertext")) "ct"
        (b64_encode ssl ct)

module _ (ssl : Openssl) (oqs : Liboqs) (json : Cjson) (realloc_ok : ℕ → Bool) where
  abbrev S : Type 0
  S = Party ssl oqs

  -- A line that cannot be sent is not noticed.
  unfoldable pub send_hello : AlgoCombo → Act S (Option ssl.Pkey)
  send_hello combo =
      if is_hybrid combo.profile || is_pure_classical combo.profile
      then (do
        c_priv ← on_ec ssl oqs (crypto_generate_keypair ssl combo.classical_curve)
        let hello = client_hello ssl json (export_pub ssl combo.classical_curve c_priv)
        _sent ← attempt (send_json ssl oqs json realloc_ok hello)
        pure (some c_priv))
      else pure none

  -- The ECDH with the key in the server's line.
  unfoldable pub line_ecdh : AlgoCombo → ssl.Pkey → json.Object → Act S Secret
  line_ecdh combo c_priv resp = on_ec ssl oqs (
      classical_secret ssl combo.classical_curve c_priv
        (decoded (b64_decode ssl (json_get_str json resp "c_pub") max_pub_key_bytes)))

  -- What the worker has left at the join, where `spawned` says whether `pthread_create` succeeded.
  unfoldable pub encaps_thread : Bool → AlgoCombo → List ℕ → Act S (Option Encapsulated)
  encaps_thread spawned combo q_pk_b64 =
      if spawned
      then attempt (on_kem ssl oqs (line_encaps_worker ssl oqs combo.pqc_name q_pk_b64))
      else pure none

  -- The worker works on liboqs alone, the calling thread on OpenSSL alone.
  unfoldable pub hybrid_exchange : Bool → AlgoCombo → ssl.Pkey → json.Object → Act S Secrets
  hybrid_exchange spawned combo c_priv resp = do
    q_pk_b64 ← require (json_get_str json resp "q_pk")
    enc ← encaps_thread spawned combo q_pk_b64
    c ← line_ecdh combo c_priv resp
    made ← require enc
    guard (ltb 0 c.len)
    _sent ← attempt (send_json ssl oqs json realloc_ok (ciphertext_line ssl json made.ct))
    pure (record { classical = c; quantum = stored_secret made.ss made.q_secret_len })

  unfoldable pub classical_exchange : AlgoCombo → ssl.Pkey → json.Object → Act S Secrets
  classical_exchange combo c_priv resp = do
    c ← line_ecdh combo c_priv resp
    pure (record { classical = c; quantum = no_secret })

  -- What the buffers hold after calls whose results are not looked at.
  abbrev key_buffer : OqsKem → Option (List ℕ) → List ℕ
  key_buffer kem none = oqs.fresh kem.length_public_key
  key_buffer kem (some pk) = memcpy (oqs.fresh kem.length_public_key) pk

  abbrev encaps_result : OqsKem → Option (List ℕ × List ℕ) → List ℕ × List ℕ
  encaps_result kem none = (oqs.fresh kem.length_ciphertext, oqs.fresh kem.length_shared_secret)
  encaps_result kem (some buffers) = buffers

  -- On the calling thread. A NULL buffer ends the program.
  unfoldable pub quantum_exchange : AlgoCombo → json.Object → Act S Secrets
  quantum_exchange combo resp = do
    let q_pk_b64 = json_get_str json resp "q_pk"
    kem ← on_kem ssl oqs (oqs.kem_new combo.pqc_name)
    text ← require q_pk_b64
    on_kem ssl oqs (
        malloc_each oqs
          (kem.length_ciphertext ∷ kem.length_shared_secret ∷ kem.length_public_key ∷ []))
    let pk = key_buffer kem (b64_decode ssl (some text) kem.length_public_key)
    enc ← attempt (on_kem ssl oqs (oqs.encaps kem pk))
    let (ct, ss) = encaps_result kem enc
    _sent ← attempt (send_json ssl oqs json realloc_ok (ciphertext_line ssl json ct))
    pure (record { classical = no_secret; quantum = stored_secret ss kem.length_shared_secret })

  unfoldable pub line_secrets : Bool → AlgoCombo → Option ssl.Pkey → json.Object → Act S Secrets
  line_secrets spawned combo c_priv resp = elim combo.profile [
    | hybrid ↦ (do priv ← require c_priv; hybrid_exchange spawned combo priv resp)
    | pure_classical ↦ (do priv ← require c_priv; classical_exchange combo priv resp)
    | pure_quantum ↦ quantum_exchange combo resp
  ]

  abbrev pub line_result : AlgoCombo → Bool → Secrets → Option (List ℕ) → Session
  line_result combo is_blake3 s key = record {
    combo = combo;
    is_blake3 = is_blake3;
    classical = s.classical;
    quantum = s.quantum;
    ikm = key_material ssl s.classical s.quantum;
    session_key = key;
  }

  -- Behind the first line. Whatever comes after the ciphertext, the handshake counts as done.
  unfoldable pub line_session : Blake3 → Bool → AlgoCombo → String → Act S Session
  line_session b3 spawned combo kdf_type = do
    c_priv ← send_hello combo
    resp ← recv_json ssl oqs json realloc_ok
    s ← line_secrets spawned combo c_priv resp
    let is_blake3 = str_eq kdf_type "blake3"
    let ikm = key_material ssl s.classical s.quantum
    key ← on_ec ssl oqs (json_session_key ssl b3 combo is_blake3 (client_salt combo kdf_type) ikm)
    _fin ← attempt (recv_json ssl oqs json realloc_ok)
    pure (line_result combo is_blake3 s key)

  -- `connected` says whether `socket` and `connect` succeeded.
  unfoldable pub line_handshake : Blake3 → Bool → Bool → AlgoCombo → String → Act S Session
  line_handshake b3 connected spawned combo kdf_type = do
    guard connected
    _sent ← attempt (send_json ssl oqs json realloc_ok (profile_select ssl json combo kdf_type))
    line_session b3 spawned combo kdf_type
