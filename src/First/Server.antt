-- ===== src/First/Server.antt =====
-- c/server.c: the handler of a connection, `handle_client`. The post-quantum key pair is made by a
-- thread of its own, which the handler joins on every path before it goes on or returns.
use hybrid_pqc_benchmarking.Prelude.{
  ℕ, ◌==◌, ltb, Bool, true, false, ◌&&◌, ◌||◌, Option, none, some, List, [], String, if◌then◌else◌,
  length, codes,
}
use hybrid_pqc_benchmarking.Prelude.Int.{negsuc}
use hybrid_pqc_benchmarking.Act.{Act, ◌>>=◌, ◌>>◌, pure, guard, require, attempt}
use hybrid_pqc_benchmarking.External.{Openssl, Liboqs, Blake3, Cjson}
use hybrid_pqc_benchmarking.Algo.{
  AlgoCombo, Curve, is_x25519, is_hybrid, is_pure_classical, is_pure_quantum,
}
use hybrid_pqc_benchmarking.Crypto.{
  crypto_generate_keypair, crypto_export_x25519_pub_raw, crypto_export_ec_pub_der,
}
use hybrid_pqc_benchmarking.Handshake.{
  Secret, no_secret, Session, Party, on_ec, on_kem, max_pub_key_bytes, load_pub, derive_secret,
  key_material,
}
use hybrid_pqc_benchmarking.Handshake.Encaps.{PqcKeys, b64_decode, pqc_keygen_worker, stored_secret}
use hybrid_pqc_benchmarking.Handshake.Server.{Classical}
use hybrid_pqc_benchmarking.Handshake.Json.{
  bytes_eq, b64_encode, json_get_str, json_get_int, add_text, recv_json, send_json, json_salt,
  json_session_key, decaps_buffer,
}
use hybrid_pqc_benchmarking.First.Table.{first_combo_by_id}

-- `kdf_type` is a pointer into the object of the first line, which has been deleted when it is read.
unfoldable pub wants_blake3 : (List ℕ → List ℕ) → Option (List ℕ) → Bool
wants_blake3 freed none = false
wants_blake3 freed (some kdf_type) = bytes_eq (freed kdf_type) (codes "blake3")

abbrev pub is_some : {A : Type 0} → Option A → Bool
is_some none = false
is_some (some a) = true

module _ (ssl : Openssl) where
  unfoldable pub strict_export : Curve → ssl.Pkey → Option (List ℕ)
  strict_export curve key =
      if is_x25519 curve
      then crypto_export_x25519_pub_raw ssl key
      else crypto_export_ec_pub_der ssl key

  -- Every failure ends the handler.
  unfoldable pub strict_secret : Curve → ssl.Pkey → List ℕ → Act ssl.World Secret
  strict_secret curve priv cli_pub = do
    peer ← load_pub ssl curve cli_pub
    c ← derive_secret ssl priv peer
    guard c.is_ok
    pure c

module _ (ssl : Openssl) (oqs : Liboqs) where
  -- The worker does what that of c_dispatch does.
  abbrev pub server_pqc_keygen_worker : Option String → Act oqs.World PqcKeys
  server_pqc_keygen_worker = pqc_keygen_worker ssl oqs

  -- What the worker has left at the join, where `spawned` says whether `pthread_create` succeeded.
  unfoldable pub keygen_thread : Bool → AlgoCombo → Act (Party ssl oqs) (Option PqcKeys)
  keygen_thread spawned combo =
      if spawned && (is_hybrid combo.profile || is_pure_quantum combo.profile)
      then attempt (on_kem ssl oqs (server_pqc_keygen_worker combo.pqc_name))
      else pure none

  abbrev pub opened_secret : PqcKeys → Option (List ℕ) → Secret
  opened_secret keys ss = record {
    bytes = (stored_secret (decaps_buffer oqs keys.kem ss) keys.kem.length_shared_secret).bytes;
    len = keys.kem.length_shared_secret;
    is_ok = is_some ss;
  }

  -- Without a thread the handler goes on and reads a NULL `kem`: it has no session then either.
  unfoldable pub joined_keys : AlgoCombo → Option PqcKeys → Act (Party ssl oqs) (Option PqcKeys)
  joined_keys combo made =
      if is_hybrid combo.profile || is_pure_quantum combo.profile
      then (do keys ← require made; pure (some keys))
      else pure none

module _ (ssl : Openssl) (oqs : Liboqs) (json : Cjson) (realloc_ok : ℕ → Bool) where
  abbrev S : Type 0
  S = Party ssl oqs

  -- The client's key in its line, the server's own pair, and the secret of both.
  unfoldable pub line_classical : AlgoCombo → Act S Classical
  line_classical combo =
      if is_hybrid combo.profile || is_pure_classical combo.profile
      then (do
        hello ← recv_json ssl oqs json realloc_ok
        cli_pub ← require (b64_decode ssl (json_get_str json hello "c_pub") max_pub_key_bytes)
        guard (ltb 0 (length cli_pub))
        srv_priv ← on_ec ssl oqs (crypto_generate_keypair ssl combo.classical_curve)
        srv_pub ← require (strict_export ssl combo.classical_curve srv_priv)
        c ← on_ec ssl oqs (strict_secret ssl combo.classical_curve srv_priv cli_pub)
        pure (record { srv_pub = srv_pub; secret = c }))
      else pure (record { srv_pub = []; secret = no_secret })

  unfoldable pub key_reply : List ℕ → PqcKeys → json.Object
  key_reply srv_pub keys =
      let c_pub = if ltb 0 (length srv_pub) then b64_encode ssl srv_pub else none in
      add_text json (add_text json json.create_object "c_pub" c_pub) "q_pk"
        (b64_encode ssl keys.q_pk)

  unfoldable pub pure_reply : List ℕ → json.Object
  pure_reply srv_pub = add_text json json.create_object "c_pub" (b64_encode ssl srv_pub)

  -- The client's ciphertext. The result of `OQS_KEM_decaps` is not looked at, and those of the two
  -- `malloc` calls neither: a NULL buffer ends the program.
  unfoldable pub open_ciphertext : PqcKeys → Act S Secret
  open_ciphertext keys = do
    ct_msg ← recv_json ssl oqs json realloc_ok
    on_kem ssl oqs (oqs.malloc keys.kem.length_ciphertext)
    ct ← require (b64_decode ssl (json_get_str json ct_msg "ct") keys.kem.length_ciphertext)
    guard (length ct == keys.kem.length_ciphertext)
    on_kem ssl oqs (oqs.malloc keys.kem.length_shared_secret)
    ss ← attempt (on_kem ssl oqs (oqs.decaps keys.kem ct keys.q_sk))
    pure (opened_secret ssl oqs keys ss)

  -- A line that cannot be sent is not noticed.
  unfoldable pub line_quantum : List ℕ → Option PqcKeys → Act S Secret
  line_quantum srv_pub none = do
    _sent ← attempt (send_json ssl oqs json realloc_ok (pure_reply srv_pub))
    pure no_secret
  line_quantum srv_pub (some keys) = do
    _sent ← attempt (send_json ssl oqs json realloc_ok (key_reply srv_pub keys))
    open_ciphertext keys

  unfoldable pub finished_line : json.Object
  finished_line =
      json.add_string (json.add_string json.create_object "type" (codes "ServerFinished")) "status"
        (codes "success")

  -- From the worker's start to its join. The worker works on liboqs alone and the handler's thread
  -- on OpenSSL and the connection.
  unfoldable pub exchange_keys : Bool → AlgoCombo → Act S (Classical × Option PqcKeys)
  exchange_keys spawned combo = do
    made ← keygen_thread ssl oqs spawned combo
    classical ← line_classical combo
    keys ← joined_keys ssl oqs combo made
    pure (classical, keys)

  abbrev pub server_result : AlgoCombo → Bool → Secret → Secret → Option (List ℕ) → Session
  server_result combo is_blake3 c q key = record {
    combo = combo;
    is_blake3 = is_blake3;
    classical = c;
    quantum = q;
    ikm = key_material ssl c q;
    session_key = key;
  }

  -- Behind the first line.
  unfoldable pub serve_combo : Blake3 → Bool → AlgoCombo → Bool → Option (List ℕ) → Act S Session
  serve_combo b3 spawned combo is_blake3 salt = do
    (classical, keys) ← exchange_keys spawned combo
    quantum ← line_quantum classical.srv_pub keys
    let ikm = key_material ssl classical.secret quantum
    key ← on_ec ssl oqs (json_session_key ssl b3 combo is_blake3 salt ikm)
    _sent ← attempt (send_json ssl oqs json realloc_ok finished_line)
    pure (server_result combo is_blake3 classical.secret quantum key)

  -- `freed` and `freed_later` are what the memory of a released text reads as, right after the
  -- release and when the key is derived.
  unfoldable pub handle_client_lines :
      Blake3 → (List ℕ → List ℕ) → (List ℕ → List ℕ) → Bool → Act S Session
  handle_client_lines b3 freed freed_later spawned = do
    sel ← recv_json ssl oqs json realloc_ok
    combo ← require (first_combo_by_id (json_get_int json sel "combo_id" (negsuc 0)))
    serve_combo b3 spawned combo (wants_blake3 freed_later (json_get_str json sel "kdf_type"))
        (json_salt ssl freed (json_get_str json sel "salt"))
