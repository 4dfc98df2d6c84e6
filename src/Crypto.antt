-- ===== src/Crypto.antt =====
-- c_dispatch/src/crypto_engine.c: classical key exchange and key derivation over OpenSSL.
pub mod Secret
use hybrid_pqc_benchmarking.Prelude.{
  ℕ, ltb, String, Bool, true, false, Option, none, some, List, [], ◌∷◌, ◌++◌, if◌then◌else◌, length,
  memcpy,
}
use hybrid_pqc_benchmarking.Act.{Act, ◌>>=◌, ◌>>◌, pure}
use hybrid_pqc_benchmarking.External.{
  Openssl, Blake3, Nid, nid_prime256v1, nid_secp384r1, KdfParam, digest, key, salt, info,
}
use hybrid_pqc_benchmarking.Algo.{Curve, is_x25519, is_p256}

-- The return code and the two output arguments of `crypto_derive_ecdh_secret`.
pub record Derived : Type 0 where
  pub is_ok : Bool
  pub secret : List ℕ
  pub secret_len : ℕ

module _ (ssl : Openssl) where
  open ssl use {World, Ctx, Pkey}

  abbrev nid_of : Curve → Nid
  nid_of curve = if is_p256 curve then nid_prime256v1 else nid_secp384r1

  -- The label `fail` frees the context and the key, and returns NULL.
  unfoldable pub crypto_generate_keypair : Curve → Act World Pkey
  crypto_generate_keypair curve =
      if is_x25519 curve
      then (do ctx ← ssl.pkey_ctx_new_from_name "X25519"; ssl.keygen_init ctx; ssl.generate ctx)
      else (do
        ctx ← ssl.pkey_ctx_new_id_ec
        ssl.keygen_init ctx
        ssl.set_ec_paramgen_curve_nid ctx (nid_of curve)
        ssl.generate ctx)

  unfoldable pub crypto_export_x25519_pub_raw : Pkey → Option (List ℕ)
  crypto_export_x25519_pub_raw pkey = ssl.get_raw_public_key pkey 32

  unfoldable pub crypto_export_ec_pub_der : Pkey → Option (List ℕ)
  crypto_export_ec_pub_der pkey = ssl.i2d_pubkey pkey

  unfoldable pub crypto_load_x25519_pub_raw : List ℕ → Act World Pkey
  crypto_load_x25519_pub_raw raw = ssl.new_raw_public_key raw

  unfoldable pub crypto_load_ec_pub_der : List ℕ → Act World Pkey
  crypto_load_ec_pub_der der = ssl.d2i_pubkey der

  -- The calls before the length is asked for.
  unfoldable pub derive_setup : Pkey → Pkey → Act World Ctx
  derive_setup priv_key peer_pub = do
    ctx ← ssl.pkey_ctx_new priv_key
    ssl.derive_init ctx
    ssl.derive_set_peer ctx peer_pub
    pure ctx

  -- After the second `EVP_PKEY_derive`, into the buffer.
  unfoldable pub derive_filled : List ℕ → ℕ → Option (List ℕ) × World → Derived × World
  derive_filled secret n (none, w) = (record { is_ok = false; secret = secret; secret_len = n }, w)
  derive_filled secret n (some s, w) =
      (record { is_ok = true; secret = memcpy secret s; secret_len = length s }, w)

  -- After the first `EVP_PKEY_derive`, which asks for the length.
  unfoldable pub derive_sized : Ctx → List ℕ → ℕ → Option ℕ × World → Derived × World
  unfolding derive_filled
  derive_sized ctx secret len (none, w) =
      (record { is_ok = false; secret = secret; secret_len = len }, w)
  derive_sized ctx secret len (some n, w) = derive_filled secret n (ssl.derive ctx n w)

  unfoldable pub derive_ready : List ℕ → ℕ → Option Ctx × World → Derived × World
  unfolding derive_sized
  derive_ready secret len (none, w) =
      (record { is_ok = false; secret = secret; secret_len = len }, w)
  derive_ready secret len (some ctx, w) = derive_sized ctx secret len (ssl.derive_size ctx w)

  -- `secret` and `secret_len` hold what the caller put there. A failure before the first
  -- `EVP_PKEY_derive` leaves both as they are; the second failing leaves the length set.
  unfoldable pub crypto_derive_ecdh_secret : Pkey → Pkey → List ℕ → ℕ → World → Derived × World
  unfolding derive_setup derive_ready
  crypto_derive_ecdh_secret priv_key peer_pub secret secret_len w =
      derive_ready secret secret_len (derive_setup priv_key peer_pub w)

  -- `salt` is NULL or a pointer; an empty salt or info is left out.
  abbrev salt_params : Option (List ℕ) → List KdfParam
  salt_params none = []
  salt_params (some s) = if ltb 0 (length s) then salt s ∷ [] else []

  abbrev info_params : List ℕ → List KdfParam
  info_params i = if ltb 0 (length i) then info i ∷ [] else []

  unfoldable pub hkdf_params : List ℕ → Option (List ℕ) → List ℕ → List KdfParam
  hkdf_params ikm s i = digest "SHA256" ∷ key ikm ∷ (salt_params s ++ info_params i)

  unfoldable pub crypto_hkdf_sha256 : List ℕ → Option (List ℕ) → List ℕ → Act World (List ℕ)
  unfolding hkdf_params
  crypto_hkdf_sha256 ikm s i = do
    ssl.kdf_fetch_hkdf
    kdf_ctx ← ssl.kdf_ctx_new
    ssl.kdf_derive kdf_ctx 32 (hkdf_params ikm s i)

-- The label goes into the hasher before the key material.
unfoldable pub crypto_blake3_kdf : (b3 : Blake3) → List ℕ → List ℕ → List ℕ
crypto_blake3_kdf b3 ikm i = b3.finalize (b3.update (b3.update b3.init i) ikm) 32
