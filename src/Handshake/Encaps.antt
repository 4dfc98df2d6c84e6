-- ===== src/Handshake/Encaps.antt =====
-- The KEM steps of the handshake: `pqc_keygen_worker` in c_dispatch/server.c and
-- `client_pqc_encaps_worker` in c_dispatch/client.c.
use hybrid_pqc_benchmarking.Prelude.{
  ℕ, true, Option, none, some, String, List, [], ◌∷◌, ◌==◌, if◌then◌else◌, length, memcpy, zeros,
}
use hybrid_pqc_benchmarking.Act.{Act, ◌>>=◌, ◌>>◌, pure, fail, guard}
use hybrid_pqc_benchmarking.External.{Openssl, Liboqs, OqsKem}
use hybrid_pqc_benchmarking.Engine.{malloc_each}
use hybrid_pqc_benchmarking.Handshake.{Secret}

-- `b64_decode`: 0 bytes for NULL and for the empty text, `none` for -1.
unfoldable pub b64_decode : (ssl : Openssl) → Option (List ℕ) → ℕ → Option (List ℕ)
b64_decode ssl none max_len = some []
b64_decode ssl (some []) max_len = some []
b64_decode ssl (some (c ∷ cs)) max_len = ssl.bio_b64_read (c ∷ cs) max_len

-- The KEM with its public and its secret key.
pub record PqcKeys : Type 0 where
  pub kem : OqsKem
  pub q_pk : List ℕ
  pub q_sk : List ℕ

-- The ciphertext and the shared secret that the client has made.
pub record Encapsulated : Type 0 where
  pub ct : List ℕ
  pub ss : List ℕ
  pub ct_len : ℕ
  pub q_secret_len : ℕ

module _ (ssl : Openssl) (oqs : Liboqs) where
  unfoldable pub pqc_keygen_worker : Option String → Act oqs.World PqcKeys
  pqc_keygen_worker pqc_name = do
    kem ← oqs.kem_new pqc_name
    malloc_each oqs (kem.length_public_key ∷ kem.length_secret_key ∷ [])
    (pk, sk) ← oqs.keypair kem
    pure (record { kem = kem; q_pk = pk; q_sk = sk })

  -- A decoded key of the right length.
  abbrev pub decoded_key : OqsKem → Option (List ℕ) → Act oqs.World (List ℕ)
  decoded_key kem none = fail
  decoded_key kem (some pk) = do guard (length pk == kem.length_public_key); pure pk

  abbrev pub base64_key : OqsKem → Option (List ℕ) → Act oqs.World (List ℕ)
  base64_key kem none = fail
  base64_key kem (some text) = do
    oqs.malloc kem.length_public_key
    decoded_key kem (b64_decode ssl (some text) kem.length_public_key)

  -- The raw key if it has the right length, else the Base64 text if there is one.
  abbrev pub choose_key : OqsKem → Option (List ℕ) → Option (List ℕ) → Act oqs.World (List ℕ)
  choose_key kem none q_pk_b64 = base64_key kem q_pk_b64
  choose_key kem (some raw) q_pk_b64 =
      if length raw == kem.length_public_key then pure raw else base64_key kem q_pk_b64

  unfoldable pub client_pqc_encaps_worker :
      Option String → Option (List ℕ) → Option (List ℕ) → Act oqs.World Encapsulated
  client_pqc_encaps_worker pqc_name q_pk_b64 q_pk_raw = do
    kem ← oqs.kem_new pqc_name
    malloc_each oqs (kem.length_ciphertext ∷ kem.length_shared_secret ∷ [])
    pk ← choose_key kem q_pk_raw q_pk_b64
    (ct, ss) ← oqs.encaps kem pk
    pure (record {
      ct = ct;
      ss = ss;
      ct_len = kem.length_ciphertext;
      q_secret_len = kem.length_shared_secret;
    })

-- `memcpy(q_secret, ss, …)` into the 64 bytes of the caller.
abbrev pub stored_secret : List ℕ → ℕ → Secret
stored_secret ss len = record { bytes = memcpy (zeros 64) ss; len = len; is_ok = true }
