-- ===== src/Tests.antt =====
-- Concrete libraries for the tests: they meet the laws, and their answers can be followed by hand.
mod Benches
mod Counters
mod Hosts
mod Sockets
mod Engines
mod Handshakes
mod Connection
mod Workers
mod Live
mod Weights
mod Lines
use native.Mathlib.Nat.{add_comm}
use hybrid_pqc_benchmarking.Prelude.{
  ℕ, zero, suc, ◌≤◌, ◌<◌, ◌^◌, ◌+◌, ◌≡◌, refl, ap, String, Option, none, some, List, [], ◌∷◌, arith,
  length, replicate, length-replicate, take,
}
use hybrid_pqc_benchmarking.Act.{Act}
use hybrid_pqc_benchmarking.External.{
  Openssl, IsLawfulOpenssl, OqsKem, Liboqs, IsLawfulLiboqs, Blake3, Nid,
}

-- The next key, and the own key and the peer of the context in use.
pub record ToyState : Type 0 where
  pub fresh_key : ℕ
  pub own : ℕ
  pub peer : ℕ

abbrev pub toy_load : List ℕ → Option ℕ
toy_load (p ∷ []) = some p
toy_load _ = none

abbrev pub toy_raw : ℕ → ℕ → Option (List ℕ)
toy_raw p zero = none
toy_raw p (suc n) = some (p ∷ [])

-- A key is a number, its own public part; two keys agree on their sum.
abbrev pub toy_ssl : Openssl
toy_ssl = record {
  World = ToyState;
  Ctx = Unit {0};
  Pkey = ℕ;
  KdfCtx = Unit {0};
  pkey_ctx_new_from_name = λ name w. (some tt, w);
  pkey_ctx_new_id_ec = λ w. (some tt, w);
  keygen_init = λ c w. (some tt, w);
  set_ec_paramgen_curve_nid = λ c nid w. (some tt, w);
  generate = λ c w. (some w.fresh_key, record w { fresh_key = w.fresh_key + 1 });
  pkey_ctx_new = λ p w. (some tt, record w { own = p });
  derive_init = λ c w. (some tt, w);
  derive_set_peer = λ c q w. (some tt, record w { peer = q });
  derive_size = λ c w. (some 1, w);
  derive = λ c n w. (some ((w.own + w.peer) ∷ []), w);
  get_raw_public_key = toy_raw;
  i2d_pubkey = λ p. some (p ∷ []);
  new_raw_public_key = λ bs w. (toy_load bs, w);
  d2i_pubkey = λ bs w. (toy_load bs, w);
  bio_b64_read = λ text n. some (take n text);
  bio_b64_write = λ bs. some bs;
  kdf_fetch_hkdf = λ w. (some tt, w);
  kdf_ctx_new = λ w. (some tt, w);
  kdf_derive = λ c n ps w. (some (replicate n 5), w);
}

some_fst :
    {A B : Type 0} (a a' : A) (b b' : B)
    → ◌≡◌ {A = Option A × B} (some a, b) (some a', b')
    → (a ≡ a') × (b ≡ b')
some_fst a a' b b' h = ground arith

length-toy_raw : (p n : ℕ) (bs : List ℕ) → toy_raw p n ≡ some bs → length bs ≤ n
length-toy_raw p zero bs h = cc
length-toy_raw p (suc n) bs h = ground arith

toy_load-eq : (p q : ℕ) (bs : List ℕ) → some (p ∷ []) ≡ some bs → toy_load bs ≡ some q → q ≡ p
toy_load-eq p q bs h k = ground arith

toy_raw-public : (p q n : ℕ) (bs : List ℕ) → toy_raw p n ≡ some bs → toy_load bs ≡ some q → q ≡ p
toy_raw-public p q zero bs h k = cc
toy_raw-public p q (suc n) bs h k = toy_load-eq p q bs h k

pub toy_ssl-lawful : IsLawfulOpenssl toy_ssl
toy_ssl-lawful = record {
  public_of = λ p. p;
  agreed = λ p q. (p + q) ∷ [];
  agreed_comm = λ p q. ap (λ t. t ∷ []) (add_comm p q);
  length-agreed = λ p q. omega arith;
  derive-agreed = λ p q c n s w0 w1 w2 w3 w4 w5 h0 h1 h2 h3 h4. ground arith;
  kdf_derive-same = λ c c' n ps k k' w v w' v' h h'. ground arith;
  raw-public = λ p q n bs w w' h h'. toy_raw-public p q n bs h (ap (λ r. r.0) h');
  der-public = λ p q bs w w' h h'. toy_load-eq p q bs h (ap (λ r. r.0) h');
  length-raw = length-toy_raw;
  length-der = λ p bs h. ground arith;
}

abbrev pub toy_kem : OqsKem
toy_kem = record {
  method_name = "toy";
  length_public_key = 3;
  length_secret_key = 2;
  length_ciphertext = 4;
  length_shared_secret = 2;
}

abbrev toy_new : Option String → Option OqsKem
toy_new none = none
toy_new (some name) = some toy_kem

-- The state counts the calls that draw random numbers.
abbrev pub toy_oqs : Liboqs
toy_oqs = record {
  World = ℕ;
  malloc = λ n w. (some tt, w);
  fresh = λ n. replicate n 0;
  kem_new = λ name w. (toy_new name, w);
  keypair = λ k w. (some (replicate k.length_public_key w, replicate k.length_secret_key w), w + 1);
  encaps =
      λ k pk w. (some (replicate k.length_ciphertext w, replicate k.length_shared_secret 7), w + 1);
  decaps = λ k ct sk w. (some (replicate k.length_shared_secret 7), w);
}

toy_new-short :
    (name : Option String) (k : OqsKem)
    → toy_new name ≡ some k
    → (0 < k.length_shared_secret) × (k.length_shared_secret ≤ 64)
toy_new-short none k h = cc
toy_new-short (some name) k h = ground arith

toy_new-small :
    (name : Option String) (k : OqsKem)
    → toy_new name ≡ some k
    → (k.length_public_key < 2 ^ 21) × (k.length_ciphertext < 2 ^ 21)
toy_new-small none k h = cc
toy_new-small (some name) k h = ground arith

pub toy_oqs-lawful : IsLawfulLiboqs toy_oqs
toy_oqs-lawful = record {
  decaps-encaps = λ kem pk sk ct ss ss' w0 w1 w2 w3 w4 w5 h0 h1 h2. ground arith;
  length-keypair = λ kem pk sk w w' h. ground (arith, length-replicate kem.length_public_key w);
  length-encaps = λ kem pk ct ss w w' h. ground (
    arith,
    length-replicate kem.length_ciphertext w,
    length-replicate {A = ℕ} kem.length_shared_secret 7,
  );
  length-decaps =
      λ kem ct sk ss w w' h. ground (arith, length-replicate {A = ℕ} kem.length_shared_secret 7);
  kem_new-same = λ name k k' w v w' v' h h'. ground arith;
  short_secret = λ name k w v h. toy_new-short name k (ap (λ r. r.0) h);
  small_sizes = λ name k w v h. toy_new-small name k (ap (λ r. r.0) h);
}
