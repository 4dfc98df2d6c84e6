-- ===== src/Handshake/Server.antt =====
-- c_dispatch/server.c: the binary handshake, `handle_client_binary`.
use hybrid_pqc_benchmarking.Prelude.{
  ℕ, ◌+◌, Bool, false, ◌||◌, Option, none, some, List, [], ◌∷◌, ◌++◌, ◌==◌, String, if◌then◌else◌,
  length, take,
}
use hybrid_pqc_benchmarking.Prelude.Int.{pos}
use hybrid_pqc_benchmarking.Act.{Act, ◌>>=◌, ◌>>◌, pure, require, attempt}
use hybrid_pqc_benchmarking.External.{Openssl, Liboqs, Blake3, OqsKem}
use hybrid_pqc_benchmarking.Algo.{
  AlgoCombo, get_combo_by_id, is_hybrid, is_pure_classical, is_pure_quantum,
}
use hybrid_pqc_benchmarking.Crypto.{crypto_generate_keypair}
use hybrid_pqc_benchmarking.Net.{Socket, choice}
use hybrid_pqc_benchmarking.Wire.{
  Endian, big, WireHeader, wire_magic, num32, msg_server_hello, msg_pqc_ciphertext,
  msg_server_finished, encode_header, decode_header, decode_client_meta, encode_server_meta,
}
use hybrid_pqc_benchmarking.Handshake.{
  Secret, no_secret, Session, Party, on_ec, on_kem, recv, send, recv_header, recv_pub, header,
  export_pub, classical_secret, finish_session,
}
use hybrid_pqc_benchmarking.Handshake.Encaps.{PqcKeys, pqc_keygen_worker, stored_secret}

-- `DispatchMode`
pub data DispatchMode : Type 0 where
  dmode_auto dmode_force_sequential dmode_force_parallel : DispatchMode

unfoldable pub dmode_str : DispatchMode → String
dmode_str dmode_force_sequential = "sequential"
dmode_str dmode_force_parallel = "parallel"
dmode_str dmode_auto = "auto"

-- The mode byte of the binary protocol.
unfoldable pub dmode_of_code : ℕ → DispatchMode
dmode_of_code c =
    if c == 1 then dmode_force_sequential else if c == 2 then dmode_force_parallel else dmode_auto

-- The server's public key and the classical secret.
pub record Classical : Type 0 where
  pub srv_pub : List ℕ
  pub secret : Secret

-- The length and the bytes of the post-quantum public key; none in the pure classical profile.
abbrev pub pk_len : Option PqcKeys → ℕ
pk_len none = 0
pk_len (some k) = k.kem.length_public_key

abbrev pub pk_bytes : Option PqcKeys → List ℕ
pk_bytes none = []
pk_bytes (some k) = k.q_pk

module _ (ssl : Openssl) (oqs : Liboqs) where
  unfoldable pub server_keygen : AlgoCombo → Act (Party ssl oqs) (Option PqcKeys)
  server_keygen combo =
      if is_hybrid combo.profile || is_pure_quantum combo.profile
      then (do keys ← on_kem ssl oqs (pqc_keygen_worker ssl oqs combo.pqc_name); pure (some keys))
      else pure none

  unfoldable pub server_classical : AlgoCombo → List ℕ → Act (Party ssl oqs) Classical
  server_classical combo cli_pub =
      if is_hybrid combo.profile || is_pure_classical combo.profile
      then (do
        srv_priv ← on_ec ssl oqs (crypto_generate_keypair ssl combo.classical_curve)
        c ← on_ec ssl oqs (classical_secret ssl combo.classical_curve srv_priv cli_pub)
        pure (record { srv_pub = export_pub ssl combo.classical_curve srv_priv; secret = c }))
      else pure (record { srv_pub = []; secret = no_secret })

module _ (ssl : Openssl) (oqs : Liboqs) (b3 : Blake3) (e : Endian) where
  -- The server always computes sequentially: the route byte is 0.
  unfoldable pub server_hello_packet : AlgoCombo → List ℕ → ℕ → List ℕ → List ℕ
  server_hello_packet combo srv_pub len pk =
      encode_header (header msg_server_hello combo (8 + length srv_pub + len))
      ++ (encode_server_meta e (record {
        dispatch_route = 0;
        reserved = 0;
        srv_pub_len = length srv_pub;
        pqc_pk_len = len;
      })
          ++ (srv_pub ++ pk))

  unfoldable pub send_server_hello :
      AlgoCombo → List ℕ → Option PqcKeys → Act (Party ssl oqs) (Unit {0})
  send_server_hello combo srv_pub keys = do
    on_kem ssl oqs (oqs.malloc (12 + 8 + length srv_pub + pk_len keys))
    send ssl oqs (server_hello_packet combo srv_pub (pk_len keys) (pk_bytes keys))

  abbrev pub decapsulated : OqsKem → Option (List ℕ) → Secret
  decapsulated kem none = no_secret
  decapsulated kem (some ss) = stored_secret ss kem.length_shared_secret

  -- A ciphertext of another length is read and dropped, and the secret stays empty.
  abbrev pub decaps_secret : PqcKeys → List ℕ → Act (Party ssl oqs) Secret
  decaps_secret keys ct =
      if length ct == keys.kem.length_ciphertext
      then (do
        ss ← attempt (
            on_kem ssl oqs
              (do oqs.malloc keys.kem.length_shared_secret; oqs.decaps keys.kem ct keys.q_sk))
        pure (decapsulated keys.kem ss))
      else pure no_secret

  unfoldable pub server_quantum : Option PqcKeys → Act (Party ssl oqs) Secret
  server_quantum none = pure no_secret
  server_quantum (some keys) = do
    h ← recv_header ssl oqs msg_pqc_ciphertext
    on_kem ssl oqs (oqs.malloc h.payload_len)
    ct ← recv ssl oqs h.payload_len
    decaps_secret keys ct

  unfoldable pub finished_packet : AlgoCombo → List ℕ
  finished_packet combo = encode_header (header msg_server_finished combo 1) ++ (0 ∷ [])

  -- From the client's header on. The message type of that header is not tested, and a failure to
  -- send the last frame is not noticed.
  unfoldable pub handle_client_binary : WireHeader → Act (Party ssl oqs) Session
  handle_client_binary hdr_first = do
    combo ← require (get_combo_by_id (pos hdr_first.combo_id))
    meta ← recv ssl oqs 4
    ch_meta ← require (decode_client_meta e meta)
    cli_pub ← recv_pub ssl oqs ch_meta.c_pub_len
    keys ← server_keygen ssl oqs combo
    classical ← server_classical ssl oqs combo cli_pub
    send_server_hello combo classical.srv_pub keys
    quantum ← server_quantum keys
    session ←
        on_ec ssl oqs (finish_session ssl b3 combo (ch_meta.kdf_type == 1) classical.secret quantum)
    _sent ← attempt (send ssl oqs (finished_packet combo))
    pure session

  -- The peek at the first four bytes.
  unfoldable pub is_binary : Socket → Bool
  is_binary s = elim (take (choice s.reads 4) s.inbox) [
    | a ∷ b ∷ c ∷ d ∷ [] ↦ num32 big a b c d == wire_magic
    | _ ↦ false
  ]

  -- `handle_client` on the binary protocol; `legacy` stands for the JSON protocol.
  unfoldable pub handle_client : Act (Party ssl oqs) Session → Act (Party ssl oqs) Session
  handle_client legacy p =
      if is_binary p.sock
      then (do
        bytes ← recv ssl oqs 12
        hdr ← require (decode_header bytes)
        handle_client_binary hdr)
          p
      else legacy p
