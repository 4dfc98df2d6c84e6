-- ===== src/Handshake/Client.antt =====
-- c_dispatch/client.c: the binary handshake, `execute_dispatch_handshake`. The time that the source
-- returns is left out; `none` is its -1.0.
use hybrid_pqc_benchmarking.Prelude.{
  ℕ, ◌+◌, Bool, ◌||◌, Option, none, some, List, [], ◌++◌, ltb, String, if◌then◌else◌, length,
  str_eq,
}
use hybrid_pqc_benchmarking.Act.{Act, ◌>>=◌, ◌>>◌, pure, guard, require, attempt}
use hybrid_pqc_benchmarking.External.{Openssl, Liboqs, Blake3, OqsKem}
use hybrid_pqc_benchmarking.Algo.{
  AlgoCombo, hybrid, pure_classical, pure_quantum, is_hybrid, is_pure_classical,
}
use hybrid_pqc_benchmarking.Crypto.{crypto_generate_keypair}
use hybrid_pqc_benchmarking.Wire.{
  Endian, msg_client_hello, msg_server_hello, msg_pqc_ciphertext, msg_server_finished,
  encode_header, encode_client_meta, decode_server_meta,
}
use hybrid_pqc_benchmarking.Handshake.{
  Secret, no_secret, Session, Party, on_ec, on_kem, recv, send, recv_header, recv_pub, header,
  export_pub, classical_secret, finish_session,
}
use hybrid_pqc_benchmarking.Handshake.Encaps.{Encapsulated, client_pqc_encaps_worker, stored_secret}

-- The two codes of the client's first frame.
unfoldable pub kdf_code : String → ℕ
kdf_code kdf_type = if str_eq kdf_type "blake3" then 1 else 0

unfoldable pub dmode_code : String → ℕ
dmode_code mode = if str_eq mode "sequential" then 1 else if str_eq mode "parallel" then 2 else 0

-- What came with the server's first frame.
pub record ServerKeys : Type 0 where
  pub srv_pub : List ℕ
  pub pqc_pk : Option (List ℕ)

-- Both secrets.
pub record Secrets : Type 0 where
  pub classical : Secret
  pub quantum : Secret

module _ (ssl : Openssl) (oqs : Liboqs) (b3 : Blake3) (e : Endian) where
  abbrev S : Type 0
  S = Party ssl oqs

  -- The key pair, in the profiles that have one.
  unfoldable pub client_keypair : AlgoCombo → Act S (Option ssl.Pkey)
  client_keypair combo =
      if is_hybrid combo.profile || is_pure_classical combo.profile
      then (do
        c_priv ← on_ec ssl oqs (crypto_generate_keypair ssl combo.classical_curve)
        pure (some c_priv))
      else pure none

  abbrev pub own_pub : AlgoCombo → Option ssl.Pkey → List ℕ
  own_pub combo none = []
  own_pub combo (some c_priv) = export_pub ssl combo.classical_curve c_priv

  unfoldable pub client_hello_packet : AlgoCombo → ℕ → ℕ → List ℕ → List ℕ
  client_hello_packet combo kdf dmode pub_bytes =
      encode_header (header msg_client_hello combo (4 + length pub_bytes))
      ++ (encode_client_meta e
            (record { kdf_type = kdf; dispatch_mode = dmode; c_pub_len = length pub_bytes })
          ++ pub_bytes)

  unfoldable pub send_client_hello : AlgoCombo → ℕ → ℕ → List ℕ → Act S (Unit {0})
  send_client_hello combo kdf dmode pub_bytes = do
    on_kem ssl oqs (oqs.malloc (12 + 4 + length pub_bytes))
    send ssl oqs (client_hello_packet combo kdf dmode pub_bytes)

  -- A NULL pointer where the server announces no key.
  unfoldable pub recv_pqc_pk : ℕ → Act S (Option (List ℕ))
  recv_pqc_pk len =
      if ltb 0 len
      then (do on_kem ssl oqs (oqs.malloc len); pk ← recv ssl oqs len; pure (some pk))
      else pure none

  unfoldable pub recv_server_hello : Act S ServerKeys
  recv_server_hello = do
    _hdr ← recv_header ssl oqs msg_server_hello
    bytes ← recv ssl oqs 8
    sh_meta ← require (decode_server_meta e bytes)
    srv_pub ← recv_pub ssl oqs sh_meta.srv_pub_len
    pqc_pk ← recv_pqc_pk sh_meta.pqc_pk_len
    pure (record { srv_pub = srv_pub; pqc_pk = pqc_pk })

  unfoldable pub ciphertext_packet : AlgoCombo → List ℕ → ℕ → List ℕ
  ciphertext_packet combo ct ct_len = encode_header (header msg_pqc_ciphertext combo ct_len) ++ ct

  -- Neither a failing `malloc` nor a failing `send_all` is noticed.
  unfoldable pub send_ciphertext : AlgoCombo → List ℕ → ℕ → Act S (Option (Unit {0}))
  send_ciphertext combo ct ct_len = attempt (do
    on_kem ssl oqs (oqs.malloc (12 + ct_len))
    send ssl oqs (ciphertext_packet combo ct ct_len))

  -- Behind both shares: the tests of their results, and the ciphertext's frame.
  abbrev pub hybrid_rest : AlgoCombo → Option Encapsulated → Secret → Act S Secrets
  hybrid_rest combo enc c = do
    made ← require enc
    guard (ltb 0 c.len)
    _sent ← send_ciphertext combo made.ct made.ct_len
    pure (record { classical = c; quantum = stored_secret made.ss made.q_secret_len })

  -- The encapsulation and the ECDH on the calling thread. `Handshake.Worker` has the two threads of
  -- the parallel route, which end as this does.
  unfoldable pub hybrid_secrets : AlgoCombo → ssl.Pkey → ServerKeys → Act S Secrets
  hybrid_secrets combo c_priv keys = do
    enc ←
        attempt (on_kem ssl oqs (client_pqc_encaps_worker ssl oqs combo.pqc_name none keys.pqc_pk))
    c ← on_ec ssl oqs (classical_secret ssl combo.classical_curve c_priv keys.srv_pub)
    hybrid_rest combo enc c

  unfoldable pub classical_secrets : AlgoCombo → ssl.Pkey → ServerKeys → Act S Secrets
  classical_secrets combo c_priv keys = do
    c ← on_ec ssl oqs (classical_secret ssl combo.classical_curve c_priv keys.srv_pub)
    pure (record { classical = c; quantum = no_secret })

  -- What the two buffers hold after `OQS_KEM_encaps`, whose result is not looked at.
  abbrev encaps_buffers : OqsKem → Option (List ℕ × List ℕ) → List ℕ × List ℕ
  encaps_buffers kem none = (oqs.fresh kem.length_ciphertext, oqs.fresh kem.length_shared_secret)
  encaps_buffers kem (some buffers) = buffers

  -- The key's length is not compared with what the algorithm reads, and the results of the two
  -- `malloc` calls are not looked at.
  unfoldable pub quantum_secrets : AlgoCombo → ServerKeys → Act S Secrets
  quantum_secrets combo keys = do
    kem ← on_kem ssl oqs (oqs.kem_new combo.pqc_name)
    pk ← require keys.pqc_pk
    _ct ← attempt (on_kem ssl oqs (oqs.malloc kem.length_ciphertext))
    _ss ← attempt (on_kem ssl oqs (oqs.malloc kem.length_shared_secret))
    enc ← attempt (on_kem ssl oqs (oqs.encaps kem pk))
    let (ct, ss) = encaps_buffers kem enc
    _sent ← send_ciphertext combo ct kem.length_ciphertext
    pure (record { classical = no_secret; quantum = stored_secret ss kem.length_shared_secret })

  unfoldable pub client_secrets : AlgoCombo → Option ssl.Pkey → ServerKeys → Act S Secrets
  client_secrets combo c_priv keys = elim combo.profile [
    | hybrid ↦ (do priv ← require c_priv; hybrid_secrets combo priv keys)
    | pure_classical ↦ (do priv ← require c_priv; classical_secrets combo priv keys)
    | pure_quantum ↦ quantum_secrets combo keys
  ]

  -- The last frame; whatever comes, the handshake counts as done.
  unfoldable pub await_finished : Act S (Option (List ℕ))
  await_finished = attempt (do _hdr ← recv_header ssl oqs msg_server_finished; recv ssl oqs 1)

  -- `connected` says whether `socket` and `connect` succeeded.
  unfoldable pub execute_dispatch_handshake : Bool → AlgoCombo → String → String → Act S Session
  execute_dispatch_handshake connected combo kdf_type dispatch_mode = do
    guard connected
    c_priv ← client_keypair combo
    send_client_hello combo (kdf_code kdf_type) (dmode_code dispatch_mode) (own_pub combo c_priv)
    keys ← recv_server_hello
    s ← client_secrets combo c_priv keys
    session ←
        on_ec ssl oqs (finish_session ssl b3 combo (str_eq kdf_type "blake3") s.classical s.quantum)
    _status ← await_finished
    pure session

  -- With the route of the router, which makes no difference to the outcome, and the mode "auto".
  unfoldable pub execute_handshake : Bool → AlgoCombo → String → Act S Session
  unfolding execute_dispatch_handshake
  execute_handshake connected combo kdf_type =
      execute_dispatch_handshake connected combo kdf_type "auto"
