-- ===== src/Crypto/Secret.antt =====
-- What the ECDH wrapper puts into the caller's buffer.
use hybrid_pqc_benchmarking.Prelude.{
  ℕ, ◌≡◌, refl, ◌∙◌, sym, ap, true, false, Option, none, some, List, arith, length, memcpy, take,
  take-append,
}
use hybrid_pqc_benchmarking.Act.{>>=-eq-some}
use hybrid_pqc_benchmarking.External.{Openssl, IsLawfulOpenssl}
use hybrid_pqc_benchmarking.Crypto.{
  Derived, derive_setup, derive_filled, derive_sized, derive_ready, crypto_derive_ecdh_secret,
}

module _ (ssl : Openssl) where
  open ssl use {World, Pkey, Ctx}

  derive_setup-eq-some :
      (p q : Pkey) (w0 w3 : World) (c : Ctx)
      → derive_setup ssl p q w0 ≡ (some c, w3)
      → (w1 : World) × (w2 : World) × (ssl.pkey_ctx_new p w0 ≡ (some c, w1))
        × (ssl.derive_init c w1 ≡ (some tt, w2))
        × (ssl.derive_set_peer c q w2 ≡ (some tt, w3))
  unfolding derive_setup
  derive_setup-eq-some p q w0 w3 c h =
      let (c', w1, e0, h1) = >>=-eq-some (ssl.pkey_ctx_new p) _ w0 h in
      let (_u, w2, e1, h2) = >>=-eq-some (ssl.derive_init c') _ w1 h1 in
      let (_v, v3, e2, h3) = >>=-eq-some (ssl.derive_set_peer c' q) _ w2 h2 in
      (w1, w2, ground arith, ground arith, ground arith)

  derive_filled-ok :
      (buf : List ℕ) (n : ℕ) (r : Option (List ℕ) × World) (d : Derived) (w' : World)
      → derive_filled ssl buf n r ≡ (d, w')
      → d.is_ok ≡ true
      → (s : List ℕ) × (r ≡ (some s, w')) × (d.secret ≡ memcpy buf s) × (d.secret_len ≡ length s)
  unfolding derive_filled
  derive_filled-ok buf n (none, w) d w' h ok = absurd (ground arith)
  derive_filled-ok buf n (some s, w) d w' h ok = (s, ground arith, ground arith, ground arith)

  derive_sized-ok :
      (c : Ctx) (buf : List ℕ) (len : ℕ) (r : Option ℕ × World) (d : Derived) (w' : World)
      → derive_sized ssl c buf len r ≡ (d, w')
      → d.is_ok ≡ true
      → (n : ℕ) × (s : List ℕ) × (w4 : World) × (r ≡ (some n, w4))
        × (ssl.derive c n w4 ≡ (some s, w'))
        × (d.secret ≡ memcpy buf s)
        × (d.secret_len ≡ length s)
  unfolding derive_sized
  derive_sized-ok c buf len (none, w) d w' h ok = absurd (ground arith)
  derive_sized-ok c buf len (some n, w) d w' h ok =
      let (s, e, f, g) = derive_filled-ok buf n (ssl.derive c n w) d w' h ok in
      (n, s, w, refl, e, f, g)

  module _ (L : IsLawfulOpenssl ssl) where
    open L use {agreed, length-agreed}

    derive_ready-ok :
        (p q : Pkey) (w0 : World) (buf : List ℕ) (len : ℕ) (r : Option Ctx × World) (d : Derived)
        (w' : World)
        → derive_setup ssl p q w0 ≡ r
        → derive_ready ssl buf len r ≡ (d, w')
        → d.is_ok ≡ true
        → (d.secret ≡ memcpy buf (agreed p q)) × (d.secret_len ≡ length (agreed p q))
    unfolding derive_ready
    derive_ready-ok p q w0 buf len (none, w) d w' e h ok = absurd (ground arith)
    derive_ready-ok p q w0 buf len (some c, w3) d w' e h ok =
        let (n, s, w4, e3, e4, f, g) = derive_sized-ok c buf len (ssl.derive_size c w3) d w' h ok in
        let (w1, w2, e0, e1, e2) = derive_setup-eq-some p q w0 w3 c e in
        let a = L.derive-agreed p q c n s w0 w1 w2 w3 w4 w' e0 e1 e2 e3 e4 in
        (f ∙ ap (memcpy buf) a, g ∙ ap length a)

    -- A derivation that succeeds puts the secret that the two keys agree on at the start of the
    -- caller's buffer, leaves the rest of the buffer alone, and gives the length of the secret.
    pub crypto_derive_ecdh_secret-ok :
        (p q : Pkey) (buf : List ℕ) (len : ℕ) (w : World)
        → (crypto_derive_ecdh_secret ssl p q buf len w).0.is_ok ≡ true
        → ((crypto_derive_ecdh_secret ssl p q buf len w).0.secret ≡ memcpy buf (agreed p q))
          × ((crypto_derive_ecdh_secret ssl p q buf len w).0.secret_len ≡ length (agreed p q))
    unfolding crypto_derive_ecdh_secret
    crypto_derive_ecdh_secret-ok p q buf len w ok =
        derive_ready-ok p q w buf len (derive_setup ssl p q w)
          (crypto_derive_ecdh_secret ssl p q buf len w).0
          (crypto_derive_ecdh_secret ssl p q buf len w).1 refl refl ok

    -- The two sides of an exchange: each derives from its own key and the other's public part, and
    -- where both succeed the first `secret_len` bytes of their buffers are the same.
    pub crypto_derive_ecdh_secret-agree :
        (p q : Pkey) (buf buf' : List ℕ) (len len' : ℕ) (w w' : World)
        → (crypto_derive_ecdh_secret ssl p (L.public_of q) buf len w).0.is_ok ≡ true
        → (crypto_derive_ecdh_secret ssl q (L.public_of p) buf' len' w').0.is_ok ≡ true
        → let d = (crypto_derive_ecdh_secret ssl p (L.public_of q) buf len w).0 in
          let d' = (crypto_derive_ecdh_secret ssl q (L.public_of p) buf' len' w').0 in
          take d.secret_len d.secret ≡ take d'.secret_len d'.secret
    crypto_derive_ecdh_secret-agree p q buf buf' len len' w w' ok ok' =
        let (e, f) = crypto_derive_ecdh_secret-ok p (L.public_of q) buf len w ok in
        let (e', f') = crypto_derive_ecdh_secret-ok q (L.public_of p) buf' len' w' ok' in
        rw (e, f, e', f', L.agreed_comm p q) (take-append _ _ ∙ sym (take-append _ _))

  derive_filled-failed :
      (buf : List ℕ) (n : ℕ) (r : Option (List ℕ) × World)
      → (derive_filled ssl buf n r).0.is_ok ≡ false
      → (derive_filled ssl buf n r).0.secret ≡ buf
  unfolding derive_filled
  derive_filled-failed buf n (none, w) h = refl
  derive_filled-failed buf n (some s, w) h = cc

  derive_sized-failed :
      (c : Ctx) (buf : List ℕ) (len : ℕ) (r : Option ℕ × World)
      → (derive_sized ssl c buf len r).0.is_ok ≡ false
      → (derive_sized ssl c buf len r).0.secret ≡ buf
  unfolding derive_sized
  derive_sized-failed c buf len (none, w) h = refl
  derive_sized-failed c buf len (some n, w) h = derive_filled-failed buf n (ssl.derive c n w) h

  derive_ready-failed :
      (buf : List ℕ) (len : ℕ) (r : Option Ctx × World)
      → (derive_ready ssl buf len r).0.is_ok ≡ false
      → (derive_ready ssl buf len r).0.secret ≡ buf
  unfolding derive_ready
  derive_ready-failed buf len (none, w) h = refl
  derive_ready-failed buf len (some c, w) h = derive_sized-failed c buf len (ssl.derive_size c w) h

  -- A derivation that fails leaves the caller's buffer as it was.
  pub crypto_derive_ecdh_secret-failed :
      (p q : Pkey) (buf : List ℕ) (len : ℕ) (w : World)
      → (crypto_derive_ecdh_secret ssl p q buf len w).0.is_ok ≡ false
      → (crypto_derive_ecdh_secret ssl p q buf len w).0.secret ≡ buf
  unfolding crypto_derive_ecdh_secret
  crypto_derive_ecdh_secret-failed p q buf len w h =
      derive_ready-failed buf len (derive_setup ssl p q w) h
