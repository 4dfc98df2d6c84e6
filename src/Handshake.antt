-- ===== src/Handshake.antt =====
-- What the client and the server of c_dispatch share: a connection with the libraries' states, the
-- frames, and the derivation of the session key.
pub mod Encaps
pub mod Client
pub mod Server
pub mod KeyDerivation
pub mod Json
pub mod Agreement
pub mod Streams
pub mod ServerSteps
pub mod ServerParts
pub mod ServerRun
pub mod JsonParts
pub mod JsonRun
pub mod Hybrid
pub mod Worker
pub mod Live
use hybrid_pqc_benchmarking.Prelude.{
  ℕ, ◌+◌, String, Bool, true, false, ◌&&◌, ◌||◌, Option, none, some, List, [], ◌∷◌, ◌++◌, ltb, leb,
  ◌==◌, if◌then◌else◌, length, take, zeros, codes,
}
use hybrid_pqc_benchmarking.Act.{Act, ◌>>=◌, ◌>>◌, pure, fail, guard, require, attempt}
use hybrid_pqc_benchmarking.External.{Openssl, Liboqs, Blake3, OqsKem}
use hybrid_pqc_benchmarking.Algo.{AlgoCombo, Curve, is_x25519}
use hybrid_pqc_benchmarking.Crypto.{
  Derived, crypto_export_x25519_pub_raw, crypto_export_ec_pub_der, crypto_load_x25519_pub_raw,
  crypto_load_ec_pub_der, crypto_derive_ecdh_secret, crypto_hkdf_sha256, crypto_blake3_kdf,
}
use hybrid_pqc_benchmarking.Net.{Socket, recv_all, send_all}
use hybrid_pqc_benchmarking.Wire.{WireHeader, wire_magic, encode_header, decode_header}

abbrev pub static_salt : List ℕ
static_salt = codes "IEICE-Kyoto-Conference-2026"

abbrev pub max_pub_key_bytes : ℕ
max_pub_key_bytes = 300

abbrev pub max_shared_sec : ℕ
max_shared_sec = 64

-- A secret in its buffer, with the length that the code goes by, and whether the library call that
-- filled it succeeded, which the code does not look at.
pub record Secret : Type 0 where
  pub bytes : List ℕ
  pub len : ℕ
  pub is_ok : Bool

abbrev pub no_secret : Secret
no_secret = record { bytes = zeros 64; len = 0; is_ok = false }

-- What a side has when it has derived its key. `session_key` is `none` where the derivation failed,
-- in which case the code goes on with an uninitialized buffer. `is_blake3` is the local of the
-- handler that selects the derivation, and `combo`, `ikm` and the secrets are its locals too.
pub record Session : Type 0 where
  pub combo : AlgoCombo
  pub is_blake3 : Bool
  pub classical : Secret
  pub quantum : Secret
  pub ikm : List ℕ
  pub session_key : Option (List ℕ)

pub record Party (ssl : Openssl) (oqs : Liboqs) : Type 0 where
  pub sock : Socket
  pub ec : ssl.World
  pub kem : oqs.World

module _ (ssl : Openssl) (oqs : Liboqs) where
  abbrev pub P : Type 0
  P = Party ssl oqs

  abbrev pub put_ec : {A : Type 0} → P → A × ssl.World → A × P
  put_ec p (r, w) = (r, record p { ec = w })

  abbrev pub put_kem : {A : Type 0} → P → A × oqs.World → A × P
  put_kem p (r, w) = (r, record p { kem = w })

  abbrev pub put_sock : {A : Type 0} → P → A × Socket → A × P
  put_sock p (r, s) = (r, record p { sock = s })

  abbrev pub on_ec : {A : Type 0} → Act ssl.World A → Act P A
  on_ec m p = put_ec p (m p.ec)

  abbrev pub on_kem : {A : Type 0} → Act oqs.World A → Act P A
  on_kem m p = put_kem p (m p.kem)

  unfoldable pub recv : ℕ → Act P (List ℕ)
  recv n p = put_sock p (recv_all n p.sock)

  abbrev pub reported : Bool × Socket → Option (Unit {0}) × Socket
  reported (true, s) = (some tt, s)
  reported (false, s) = (none, s)

  -- It fails where `send_all` returns -1.
  unfoldable pub send : List ℕ → Act P (Unit {0})
  send bytes p = put_sock p (reported (send_all bytes p.sock))

  -- A header of the expected type.
  unfoldable pub recv_header : ℕ → Act P WireHeader
  recv_header msg_type = do
    bytes ← recv 12
    h ← require (decode_header bytes)
    guard (h.magic == wire_magic && h.msg_type == msg_type)
    pure h

  -- A public key of the announced length, if there is one and it fits the buffer.
  unfoldable pub recv_pub : ℕ → Act P (List ℕ)
  recv_pub len = if ltb 0 len then (do guard (leb len max_pub_key_bytes); recv len) else pure []

abbrev pub header : ℕ → AlgoCombo → ℕ → WireHeader
header msg_type combo payload_len = record {
  magic = wire_magic;
  msg_type = msg_type;
  combo_id = combo.id;
  payload_len = payload_len;
}

module _ (ssl : Openssl) where
  abbrev exported : Option (List ℕ) → List ℕ
  exported none = []
  exported (some bytes) = bytes

  -- The result of the export is not looked at: after a failure the length is still 0.
  unfoldable pub export_pub : Curve → ssl.Pkey → List ℕ
  export_pub curve key =
      if is_x25519 curve
      then exported (crypto_export_x25519_pub_raw ssl key)
      else exported (crypto_export_ec_pub_der ssl key)

  unfoldable pub load_pub : Curve → List ℕ → Act ssl.World ssl.Pkey
  load_pub curve bytes =
      if is_x25519 curve
      then crypto_load_x25519_pub_raw ssl bytes
      else crypto_load_ec_pub_der ssl bytes

  abbrev pub as_secret : Derived × ssl.World → Option Secret × ssl.World
  as_secret (d, w) = (some (record { bytes = d.secret; len = d.secret_len; is_ok = d.is_ok }), w)

  -- The length starts at the size of the buffer; the return code is not looked at.
  abbrev pub derive_secret : ssl.Pkey → ssl.Pkey → Act ssl.World Secret
  derive_secret priv peer w =
      as_secret (crypto_derive_ecdh_secret ssl priv peer (zeros 64) max_shared_sec w)

  abbrev pub derive_loaded : ssl.Pkey → Option ssl.Pkey → Act ssl.World Secret
  derive_loaded priv none = pure no_secret
  derive_loaded priv (some peer) = derive_secret priv peer

  -- The classical secret from the peer's key, if one was sent and it loads.
  unfoldable pub classical_secret : Curve → ssl.Pkey → List ℕ → Act ssl.World Secret
  classical_secret curve priv peer_pub =
      if ltb 0 (length peer_pub)
      then (do peer ← attempt (load_pub curve peer_pub); derive_loaded priv peer)
      else pure no_secret

  -- The used part of each secret, the classical one first.
  unfoldable pub key_material : Secret → Secret → List ℕ
  key_material c q = take c.len c.bytes ++ take q.len q.bytes

  -- The label is the combination's, the salt is fixed.
  unfoldable pub derive_session_key :
      Blake3 → AlgoCombo → Bool → List ℕ → Act ssl.World (Option (List ℕ))
  derive_session_key b3 combo is_blake3 ikm =
      if is_blake3
      then pure (some (crypto_blake3_kdf b3 ikm (codes combo.info)))
      else attempt (crypto_hkdf_sha256 ssl ikm (some static_salt) (codes combo.info))

  unfoldable pub finish_session :
      Blake3 → AlgoCombo → Bool → Secret → Secret → Act ssl.World Session
  finish_session b3 combo is_blake3 c q = do
    let ikm = key_material c q
    key ← derive_session_key b3 combo is_blake3 ikm
    pure (record {
      combo = combo;
      is_blake3 = is_blake3;
      classical = c;
      quantum = q;
      ikm = ikm;
      session_key = key;
    })
