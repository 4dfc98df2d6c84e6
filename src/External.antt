-- ===== src/External.antt =====
-- The libraries that the program calls and does not contain: OpenSSL, liboqs, the vendored BLAKE3,
-- and the allocator. They are parameters of the model, with the behaviour that the program relies
-- on as named laws.
use hybrid_pqc_benchmarking.Prelude.{ℕ, ◌^◌, ◌≤◌, ◌<◌, ◌≡◌, String, Option, some, List, length}
use hybrid_pqc_benchmarking.Prelude.Int.{ℤ}
use hybrid_pqc_benchmarking.Act.{Act}

-- `NID_X9_62_prime256v1` and `NID_secp384r1`
pub data Nid : Type 0 where
  nid_prime256v1 nid_secp384r1 : Nid

-- A parameter of `EVP_KDF_derive`.
pub data KdfParam : Type 0 where
  digest : String → KdfParam
  key salt info : List ℕ → KdfParam

-- OpenSSL. `World` is its state, its random numbers included.
pub record Openssl : Type 1 where
  pub World : Type 0
  pub Ctx : Type 0
  pub Pkey : Type 0
  pub KdfCtx : Type 0
  pub pkey_ctx_new_from_name : String → Act World Ctx
  pub pkey_ctx_new_id_ec : Act World Ctx
  pub keygen_init : Ctx → Act World (Unit {0})
  pub set_ec_paramgen_curve_nid : Ctx → Nid → Act World (Unit {0})
  pub generate : Ctx → Act World Pkey
  pub pkey_ctx_new : Pkey → Act World Ctx
  pub derive_init : Ctx → Act World (Unit {0})
  pub derive_set_peer : Ctx → Pkey → Act World (Unit {0})
  -- `EVP_PKEY_derive` with a NULL buffer, and with a buffer of the given length.
  pub derive_size : Ctx → Act World ℕ
  pub derive : Ctx → ℕ → Act World (List ℕ)
  pub get_raw_public_key : Pkey → ℕ → Option (List ℕ)
  pub i2d_pubkey : Pkey → Option (List ℕ)
  pub new_raw_public_key : List ℕ → Act World Pkey
  pub d2i_pubkey : List ℕ → Act World Pkey
  -- `BIO_read` through a Base64 filter over these bytes, into a buffer of the given size.
  pub bio_b64_read : List ℕ → ℕ → Option (List ℕ)
  -- What `BIO_write` through a Base64 filter leaves in memory; `none` where there is no memory.
  pub bio_b64_write : List ℕ → Option (List ℕ)
  pub kdf_fetch_hkdf : Act World (Unit {0})
  pub kdf_ctx_new : Act World KdfCtx
  pub kdf_derive : KdfCtx → ℕ → List KdfParam → Act World (List ℕ)

-- What the OpenSSL manual promises of these calls.
pub record IsLawfulOpenssl (ssl : Openssl) : Type 0 where
  -- The public part of a key, and the secret that a private and a public key agree on.
  pub public_of : ssl.Pkey → ssl.Pkey
  pub agreed : ssl.Pkey → ssl.Pkey → List ℕ
  pub agreed_comm : (p q : ssl.Pkey) → agreed p (public_of q) ≡ agreed q (public_of p)
  pub length-agreed : (p q : ssl.Pkey) → (0 < length (agreed p q)) × (length (agreed p q) ≤ 48)
  -- A context made for `p` that was given the peer `q` derives their secret.
  pub derive-agreed :
      (p q : ssl.Pkey) (c : ssl.Ctx) (n : ℕ) (s : List ℕ) (w0 w1 w2 w3 w4 w5 : ssl.World)
      → ssl.pkey_ctx_new p w0 ≡ (some c, w1)
      → ssl.derive_init c w1 ≡ (some tt, w2)
      → ssl.derive_set_peer c q w2 ≡ (some tt, w3)
      → ssl.derive_size c w3 ≡ (some n, w4)
      → ssl.derive c n w4 ≡ (some s, w5)
      → s ≡ agreed p q
  -- HKDF is a function of its parameters.
  pub kdf_derive-same :
      (c c' : ssl.KdfCtx) (n : ℕ) (ps : List KdfParam) (k k' : List ℕ) (w v w' v' : ssl.World)
      → ssl.kdf_derive c n ps w ≡ (some k, v)
      → ssl.kdf_derive c' n ps w' ≡ (some k', v')
      → k ≡ k'
  -- What is exported is loaded as the public part of the key.
  pub raw-public :
      (p q : ssl.Pkey) (n : ℕ) (bs : List ℕ) (w w' : ssl.World)
      → ssl.get_raw_public_key p n ≡ some bs
      → ssl.new_raw_public_key bs w ≡ (some q, w')
      → q ≡ public_of p
  pub der-public :
      (p q : ssl.Pkey) (bs : List ℕ) (w w' : ssl.World)
      → ssl.i2d_pubkey p ≡ some bs
      → ssl.d2i_pubkey bs w ≡ (some q, w')
      → q ≡ public_of p
  pub length-raw :
      (p : ssl.Pkey) (n : ℕ) (bs : List ℕ) → ssl.get_raw_public_key p n ≡ some bs → length bs ≤ n
  -- The encoding of a key on P-256 or P-384 has 91 or 120 bytes.
  pub length-der : (p : ssl.Pkey) (bs : List ℕ) → ssl.i2d_pubkey p ≡ some bs → length bs ≤ 120

-- `OQS_KEM`
pub record OqsKem : Type 0 where
  pub method_name : String
  pub length_public_key : ℕ
  pub length_secret_key : ℕ
  pub length_ciphertext : ℕ
  pub length_shared_secret : ℕ

-- liboqs, with the allocator that the code around its calls uses.
pub record Liboqs : Type 1 where
  pub World : Type 0
  pub malloc : ℕ → Act World (Unit {0})
  -- What a fresh block of this size holds.
  pub fresh : ℕ → List ℕ
  pub kem_new : Option String → Act World OqsKem
  -- The public and the secret key.
  pub keypair : OqsKem → Act World (List ℕ × List ℕ)
  -- The ciphertext and the shared secret.
  pub encaps : OqsKem → List ℕ → Act World (List ℕ × List ℕ)
  pub decaps : OqsKem → List ℕ → List ℕ → Act World (List ℕ)

-- What the liboqs manual promises. The chance of a decapsulation that succeeds with another
-- secret, below 2^-128 for every algorithm of the table, is taken as zero.
pub record IsLawfulLiboqs (oqs : Liboqs) : Type 0 where
  pub decaps-encaps :
      (kem : OqsKem) (pk sk ct ss ss' : List ℕ) (w0 w1 w2 w3 w4 w5 : oqs.World)
      → oqs.keypair kem w0 ≡ (some (pk, sk), w1)
      → oqs.encaps kem pk w2 ≡ (some (ct, ss), w3)
      → oqs.decaps kem ct sk w4 ≡ (some ss', w5)
      → ss' ≡ ss
  pub length-keypair :
      (kem : OqsKem) (pk sk : List ℕ) (w w' : oqs.World)
      → oqs.keypair kem w ≡ (some (pk, sk), w')
      → length pk ≡ kem.length_public_key
  pub length-encaps :
      (kem : OqsKem) (pk ct ss : List ℕ) (w w' : oqs.World)
      → oqs.encaps kem pk w ≡ (some (ct, ss), w')
      → (length ct ≡ kem.length_ciphertext) × (length ss ≡ kem.length_shared_secret)
  pub length-decaps :
      (kem : OqsKem) (ct sk ss : List ℕ) (w w' : oqs.World)
      → oqs.decaps kem ct sk w ≡ (some ss, w')
      → length ss ≡ kem.length_shared_secret
  -- The sizes of an algorithm do not depend on when it is asked for, and its secrets are short.
  pub kem_new-same :
      (name : Option String) (k k' : OqsKem) (w v w' v' : oqs.World)
      → oqs.kem_new name w ≡ (some k, v)
      → oqs.kem_new name w' ≡ (some k', v')
      → k ≡ k'
  pub short_secret :
      (name : Option String) (k : OqsKem) (w v : oqs.World)
      → oqs.kem_new name w ≡ (some k, v)
      → (0 < k.length_shared_secret) × (k.length_shared_secret ≤ 64)
  -- The largest keys and ciphertexts, those of Classic McEliece, are below 2^21 bytes.
  pub small_sizes :
      (name : Option String) (k : OqsKem) (w v : oqs.World)
      → oqs.kem_new name w ≡ (some k, v)
      → (k.length_public_key < 2 ^ 21) × (k.length_ciphertext < 2 ^ 21)

-- The vendored BLAKE3 hasher.
pub record Blake3 : Type 1 where
  pub Hasher : Type 0
  pub init : Hasher
  pub update : Hasher → List ℕ → Hasher
  pub finalize : Hasher → ℕ → List ℕ

-- A member of a JSON object: a text, a number as an `int`, or something else.
pub data JsonItem : Type 0 where
  json_string : List ℕ → JsonItem
  json_number : ℤ → JsonItem
  json_other : JsonItem

-- The vendored cJSON.
pub record Cjson : Type 1 where
  pub Object : Type 0
  pub Number : Type 0
  pub parse : List ℕ → Option Object
  pub get_object_item : Object → String → Option JsonItem
  pub create_object : Object
  pub add_string : Object → String → List ℕ → Object
  pub add_number : Object → String → Number → Object
  pub add_null : Object → String → Object
  -- The `double` of an `int`.
  pub of_int : ℕ → Number
  pub print_unformatted : Object → Option (List ℕ)
