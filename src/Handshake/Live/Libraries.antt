-- ===== src/Handshake/Live/Libraries.antt =====
-- What is composed of library calls that do not fail does not fail.
use hybrid_pqc_benchmarking.Prelude.{
  ℕ, ltb, refl, Bool, true, false, Bool-cases, inl, inr, String, Option, none, some, List, [], ◌∷◌,
  length,
}
use hybrid_pqc_benchmarking.Act.{attempt}
use hybrid_pqc_benchmarking.External.{Openssl, Liboqs, Blake3}
use hybrid_pqc_benchmarking.Algo.{AlgoCombo, Curve, is_x25519}
use hybrid_pqc_benchmarking.Crypto.{crypto_generate_keypair}
use hybrid_pqc_benchmarking.Engine.{malloc_each}
use hybrid_pqc_benchmarking.Handshake.{
  Secret, load_pub, derive_loaded, classical_secret, derive_session_key, finish_session,
}
use hybrid_pqc_benchmarking.Handshake.Encaps.{pqc_keygen_worker}
use hybrid_pqc_benchmarking.Handshake.Live.{
  Total, IsUpOpenssl, IsUpLiboqs, Total-pure, Total->>=, Total-attempt,
}

module _ (ssl : Openssl) (oqs : Liboqs) (up : IsUpOpenssl ssl) (oup : IsUpLiboqs oqs) where
  pub crypto_generate_keypair-Total : (curve : Curve) → Total (crypto_generate_keypair ssl curve)
  unfolding crypto_generate_keypair
  crypto_generate_keypair-Total curve = elim (Bool-cases (is_x25519 curve)) [
    | inl e ↦ rw e (
        Total->>= (ssl.pkey_ctx_new_from_name "X25519") _ (up.new_from_name "X25519")
          λ ctx. Total->>= (ssl.keygen_init ctx) _ (up.keygen_init ctx) λ _u. up.generate ctx)
    | inr e ↦ rw e (
        Total->>= ssl.pkey_ctx_new_id_ec _ up.new_id_ec λ ctx.
          Total->>= (ssl.keygen_init ctx) _ (up.keygen_init ctx) λ _u.
            Total->>= (ssl.set_ec_paramgen_curve_nid ctx _) _ (up.set_curve ctx _)
              λ _v. up.generate ctx)
  ]

  pub malloc_each-Total : (ns : List ℕ) → Total (malloc_each oqs ns)
  unfolding malloc_each
  malloc_each-Total [] w = (tt, w, refl)
  malloc_each-Total (n ∷ ns) w =
      let (_u, v, e) = oup.malloc n w in
      let (_u', v', e') = malloc_each-Total ns v in (tt, v', rw (e, e') refl)

  pub pqc_keygen_worker-Total :
      (name : Option String) → Total (oqs.kem_new name) → Total (pqc_keygen_worker ssl oqs name)
  unfolding pqc_keygen_worker
  pqc_keygen_worker-Total name new = Total->>= (oqs.kem_new name) _ new λ kem.
      Total->>= (malloc_each oqs _) _ (malloc_each-Total _)
        λ _u. Total->>= (oqs.keypair kem) _ (oup.keypair kem) λ keys. Total-pure _

  derive_loaded-Total :
      (priv : ssl.Pkey) (peer : Option ssl.Pkey) → Total (derive_loaded ssl priv peer)
  derive_loaded-Total priv none = Total-pure _
  derive_loaded-Total priv (some q) = λ w. (_, _, refl)

  pub classical_secret-Total :
      (curve : Curve) (priv : ssl.Pkey) (bytes : List ℕ)
      → Total (classical_secret ssl curve priv bytes)
  unfolding classical_secret
  classical_secret-Total curve priv bytes = elim (Bool-cases (ltb 0 (length bytes))) [
    | inl e ↦ rw e (
        Total->>= (attempt (load_pub ssl curve bytes)) _ (Total-attempt (load_pub ssl curve bytes))
          λ peer. derive_loaded-Total priv peer)
    | inr e ↦ rw e (Total-pure _)
  ]

  derive_session_key-Total :
      (b3 : Blake3) (combo : AlgoCombo) (is_blake3 : Bool) (ikm : List ℕ)
      → Total (derive_session_key ssl b3 combo is_blake3 ikm)
  unfolding derive_session_key
  derive_session_key-Total b3 combo true ikm = Total-pure _
  derive_session_key-Total b3 combo false ikm = Total-attempt _

  pub finish_session-Total :
      (b3 : Blake3) (combo : AlgoCombo) (is_blake3 : Bool) (c q : Secret)
      → Total (finish_session ssl b3 combo is_blake3 c q)
  unfolding finish_session
  finish_session-Total b3 combo is_blake3 c q =
      Total->>= (derive_session_key ssl b3 combo is_blake3 _) _
        (derive_session_key-Total b3 combo is_blake3 _) λ key. Total-pure _
