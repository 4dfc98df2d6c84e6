-- ===== src/Handshake/Agreement.antt =====
-- The two sides of a handshake that have received each other's messages hold the same keys.
use hybrid_pqc_benchmarking.Prelude.{
  ℕ, ◌<◌, ◌≡◌, refl, sym, ap, ◌∙◌, Bool, true, false, Option, none, some, List, [], ◌++◌, ltb,
  ltb→lt, Bool-cases, Option-cases, inl, inr, arith, length, zeros, take, take-append,
}
use mathlib.Core.Path.{ap₂}
use hybrid_pqc_benchmarking.Act.{attempt, >>=-eq-some, caught-eq-some}
use hybrid_pqc_benchmarking.External.{
  Openssl, Liboqs, Blake3, OqsKem, IsLawfulOpenssl, IsLawfulLiboqs,
}
use hybrid_pqc_benchmarking.Algo.{AlgoCombo, Curve, is_x25519}
use hybrid_pqc_benchmarking.Crypto.{
  crypto_derive_ecdh_secret, crypto_export_x25519_pub_raw, crypto_export_ec_pub_der,
  crypto_load_x25519_pub_raw, crypto_load_ec_pub_der, crypto_hkdf_sha256, hkdf_params,
}
use hybrid_pqc_benchmarking.Crypto.Secret.{crypto_derive_ecdh_secret-ok}
use hybrid_pqc_benchmarking.Handshake.{
  Secret, no_secret, Session, max_shared_sec, export_pub, load_pub, derive_loaded, classical_secret,
  key_material, derive_session_key, finish_session,
}
use hybrid_pqc_benchmarking.Handshake.Encaps.{stored_secret}

nothing_exported : ¬ (0 < length {A = ℕ} [])
nothing_exported h = omega arith

module _ (ssl : Openssl) where
  open ssl use {World, Pkey}

  derive_loaded-ok :
      (priv : Pkey) (peer : Option Pkey) (w w' : World) (s : Secret)
      → derive_loaded ssl priv peer w ≡ (some s, w')
      → s.is_ok ≡ true
      → (q : Pkey) × (peer ≡ some q)
        × (let d = (crypto_derive_ecdh_secret ssl priv q (zeros 64) max_shared_sec w).0 in
            (d.is_ok ≡ true) × (take s.len s.bytes ≡ take d.secret_len d.secret))
  derive_loaded-ok priv none w w' s h ok = absurd (ground arith)
  derive_loaded-ok priv (some q) w w' s h ok = (q, refl, (ground arith, ground arith))

  no_secret-failed :
      (s : Secret) (w w' : World)
      → ◌≡◌ {A = Option Secret × World} (some no_secret, w) (some s, w')
      → ¬ (s.is_ok ≡ true)
  no_secret-failed s w w' h ok = ground arith

  pub classical_secret-ok :
      (curve : Curve) (priv : Pkey) (bytes : List ℕ) (w w' : World) (s : Secret)
      → classical_secret ssl curve priv bytes w ≡ (some s, w')
      → s.is_ok ≡ true
      → (q : Pkey) × (v : World) × (0 < length bytes)
        × (load_pub ssl curve bytes w ≡ (some q, v))
        × (let d = (crypto_derive_ecdh_secret ssl priv q (zeros 64) max_shared_sec v).0 in
            (d.is_ok ≡ true) × (take s.len s.bytes ≡ take d.secret_len d.secret))
  unfolding classical_secret
  classical_secret-ok curve priv bytes w w' s h ok = elim (Bool-cases (ltb 0 (length bytes))) [
    | inl e ↦
        let (peer, v, a, more) =
          >>=-eq-some (attempt (load_pub ssl curve bytes)) (derive_loaded ssl priv) w (rw e at h) in
        let (q, f, d) = derive_loaded-ok priv peer v w' s more ok in
        (
          q,
          v,
          ltb→lt 0 (length bytes) e,
          caught-eq-some (load_pub ssl curve bytes w) a ∙ ap (λ o. (o, v)) f,
          d,
        )
    | inr e ↦ absurd (no_secret-failed s w w' (rw e at h) ok)
  ]

  pub key_material-same :
      (c c' : Secret) (q q' : List ℕ) (len : ℕ)
      → take c.len c.bytes ≡ take c'.len c'.bytes
      → q ≡ q'
      → key_material ssl c (stored_secret q len) ≡ key_material ssl c' (stored_secret q' len)
  unfolding key_material
  key_material-same c c' q q' len e f = ap₂ (λ x y. x ++ take len (stored_secret y len).bytes) e f

  module _ (L : IsLawfulOpenssl ssl) where
    open L use {public_of, agreed}

    load_pub-export_pub :
        (curve : Curve) (p q : Pkey) (w w' : World)
        → 0 < length (export_pub ssl curve p)
        → load_pub ssl curve (export_pub ssl curve p) w ≡ (some q, w')
        → q ≡ public_of p
    unfolding load_pub export_pub crypto_export_x25519_pub_raw crypto_export_ec_pub_der
        crypto_load_x25519_pub_raw crypto_load_ec_pub_der
    load_pub-export_pub curve p q w w' l h = elim (Bool-cases (is_x25519 curve)) [
      | inl e ↦ elim (Option-cases (ssl.get_raw_public_key p 32)) [
        | inl f ↦ absurd (nothing_exported (rw (e, f) at l))
        | inr (bs, f) ↦ L.raw-public p q 32 bs w w' f (rw (e, f) at h)
      ]
      | inr e ↦ elim (Option-cases (ssl.i2d_pubkey p)) [
        | inl f ↦ absurd (nothing_exported (rw (e, f) at l))
        | inr (bs, f) ↦ L.der-public p q bs w w' f (rw (e, f) at h)
      ]
    ]

    pub classical_secret-agreed :
        (curve : Curve) (priv p : Pkey) (w w' : World) (s : Secret)
        → classical_secret ssl curve priv (export_pub ssl curve p) w ≡ (some s, w')
        → s.is_ok ≡ true
        → take s.len s.bytes ≡ agreed priv (public_of p)
    classical_secret-agreed curve priv p w w' s h ok =
        let (q, v, l, e, (d_ok, same)) =
          classical_secret-ok curve priv (export_pub ssl curve p) w w' s h ok in
        let (f, g) = crypto_derive_ecdh_secret-ok ssl L priv q (zeros 64) max_shared_sec v d_ok in
        same
        ∙ (rw (f, g) (take-append _ _) ∙ ap (agreed priv) (load_pub-export_pub curve p q w v l e))

    pub crypto_hkdf_sha256-same :
        (ikm : List ℕ) (salt : Option (List ℕ)) (info : List ℕ) (w w' v v' : World) (k k' : List ℕ)
        → crypto_hkdf_sha256 ssl ikm salt info w ≡ (some k, w')
        → crypto_hkdf_sha256 ssl ikm salt info v ≡ (some k', v')
        → k ≡ k'
    unfolding crypto_hkdf_sha256
    crypto_hkdf_sha256-same ikm salt info w w' v v' k k' h h' =
        let (_u, w1, e1, h1) = >>=-eq-some ssl.kdf_fetch_hkdf _ w h in
        let (c, w2, e2, h2) = >>=-eq-some ssl.kdf_ctx_new _ w1 h1 in
        let (_u', v1, f1, g1) = >>=-eq-some ssl.kdf_fetch_hkdf _ v h' in
        let (c', v2, f2, g2) = >>=-eq-some ssl.kdf_ctx_new _ v1 g1 in
        L.kdf_derive-same c c' 32 (hkdf_params ssl ikm salt info) k k' w2 w' v2 v' h2 g2

    -- The same key material gives the same session key.
    derive_session_key-same :
        (b3 : Blake3) (combo : AlgoCombo) (is_blake3 : Bool) (ikm : List ℕ) (w w' v v' : World)
        (k k' : List ℕ)
        → derive_session_key ssl b3 combo is_blake3 ikm w ≡ (some (some k), w')
        → derive_session_key ssl b3 combo is_blake3 ikm v ≡ (some (some k'), v')
        → k ≡ k'
    unfolding derive_session_key
    derive_session_key-same b3 combo true ikm w w' v v' k k' h h' = ground arith
    derive_session_key-same b3 combo false ikm w w' v v' k k' h h' =
        crypto_hkdf_sha256-same _ _ _ w w' v v' k k' (caught-eq-some _ h) (caught-eq-some _ h')

    finish_session-eq-some :
        (b3 : Blake3) (combo : AlgoCombo) (is_blake3 : Bool) (c q : Secret) (w w' : World)
        (s : Session)
        → finish_session ssl b3 combo is_blake3 c q w ≡ (some s, w')
        → (s.ikm ≡ key_material ssl c q)
          × (derive_session_key ssl b3 combo is_blake3 (key_material ssl c q) w
              ≡ (some s.session_key, w'))
    unfolding finish_session
    finish_session-eq-some b3 combo is_blake3 c q w w' s h =
        let (key, v, e, f) =
          >>=-eq-some (derive_session_key ssl b3 combo is_blake3 (key_material ssl c q)) _ w h in
        (ground arith, e ∙ ground arith)

    module _ (oqs : Liboqs) (Q : IsLawfulLiboqs oqs) where
      -- Client and server agree on a hybrid session: where each has derived the classical secret
      -- from its own key and the key that the other exported, and the server has decapsulated the
      -- ciphertext that the client made for the server's KEM key, the key material of both is the
      -- same, and so are the session keys, if both key derivations succeed.
      pub finish_session-agree :
          (b3 : Blake3) (combo : AlgoCombo) (is_blake3 : Bool) (p r : Pkey) (c c' : Secret)
          (w0 w1 w2 w3 v0 v1 v2 v3 : World) (kem : OqsKem) (pk sk ct q q' : List ℕ)
          (u0 u1 u2 u3 u4 u5 : oqs.World) (s s' : Session) (k k' : List ℕ)
          → classical_secret ssl combo.classical_curve p (export_pub ssl combo.classical_curve r) w0
            ≡ (some c, w1)
          → classical_secret ssl combo.classical_curve r (export_pub ssl combo.classical_curve p) v0
            ≡ (some c', v1)
          → c.is_ok ≡ true
          → c'.is_ok ≡ true
          → oqs.keypair kem u0 ≡ (some (pk, sk), u1)
          → oqs.encaps kem pk u2 ≡ (some (ct, q), u3)
          → oqs.decaps kem ct sk u4 ≡ (some q', u5)
          → finish_session ssl b3 combo is_blake3 c (stored_secret q kem.length_shared_secret) w2
            ≡ (some s, w3)
          → finish_session ssl b3 combo is_blake3 c' (stored_secret q' kem.length_shared_secret) v2
            ≡ (some s', v3)
          → s.session_key ≡ some k
          → s'.session_key ≡ some k'
          → (s.ikm ≡ s'.ikm) × (k ≡ k')
      finish_session-agree b3 combo is_blake3 p r c c' w0 w1 w2 w3 v0 v1 v2 v3 kem pk sk ct q q' u0
            u1 u2 u3 u4 u5 s s' k k' h h' ok ok' kp enc dec f f' key key' =
          let curve = combo.classical_curve in
          let len = kem.length_shared_secret in
          let classical =
            classical_secret-agreed curve p r w0 w1 c h ok
            ∙ (L.agreed_comm p r ∙ sym (classical_secret-agreed curve r p v0 v1 c' h' ok')) in
          let quantum = sym (Q.decaps-encaps kem pk sk ct q q' u0 u1 u2 u3 u4 u5 kp enc dec) in
          let (i, g) =
            finish_session-eq-some b3 combo is_blake3 c (stored_secret q len) w2 w3 s f in
          let (i', g') =
            finish_session-eq-some b3 combo is_blake3 c' (stored_secret q' len) v2 v3 s' f' in
          let same = key_material-same c c' q q' len classical quantum in
          (
            i ∙ (same ∙ sym i'),
            derive_session_key-same b3 combo is_blake3 _ w2 w3 v2 v3 k k' (rw (key, same) at g)
                (rw key' at g'),
          )
