-- ===== src/First/Parts.antt =====
-- What each step of c/client.c and of c/server.c means for the other side.
use mathlib.Core.Path.{subst, ap₂}
use mathlib.Core.Option.{some-injective}
use mathlib.Core.List.{append_assoc}
use hybrid_pqc_benchmarking.Prelude.{
  if◌then◌else◌, ℕ, ◌<◌, ◌≡◌, ◌≢◌, refl, ap, sym, ◌∙◌, true, false, lt→ltb, Option, none, some,
  String, List, [], ◌∷◌, ◌++◌, length, codes, All, Bool-cases, ◌⊎◌, inl, inr, arith,
}
use hybrid_pqc_benchmarking.Act.{>>=-cases, guard-eq-some, guard}
use hybrid_pqc_benchmarking.External.{Openssl, Liboqs, IsLawfulLiboqs, OqsKem}
use hybrid_pqc_benchmarking.Algo.{AlgoCombo, Curve, is_x25519}
use hybrid_pqc_benchmarking.Handshake.{
  Secret, static_salt, export_pub, load_pub, derive_secret, classical_secret,
}
use hybrid_pqc_benchmarking.Handshake.Encaps.{b64_decode, PqcKeys, Encapsulated}
use hybrid_pqc_benchmarking.Handshake.Hybrid.ServerSide.{Generated}
use hybrid_pqc_benchmarking.Handshake.Json.{bytes_eq, c_string}
use hybrid_pqc_benchmarking.Handshake.Streams.{some_fst}
use hybrid_pqc_benchmarking.Handshake.Hybrid.Agreement.{found_inj}
use hybrid_pqc_benchmarking.First.Server.{is_some, wants_blake3, strict_export, strict_secret}
use hybrid_pqc_benchmarking.First.Client.{use_salt}
use hybrid_pqc_benchmarking.First.Lines.{IsLawfulBase64, line, line_unique, b64_decode-encoded}
use hybrid_pqc_benchmarking.First.ClientRun.{Opened}

-- A line at the head of what was written is the line that is read.
pub head_line :
    (text sent rest rest' : List ℕ)
    → All (λ c. c ≢ b'\n') text
    → All (λ c. c ≢ b'\n') sent
    → line text ++ rest ≡ line sent ++ rest'
    → (text ≡ sent) × (rest ≡ rest')
head_line text sent rest rest' p q h =
    line_unique text sent rest rest' p q
      (sym (append_assoc text (b'\n' ∷ []) rest) ∙ (h ∙ append_assoc sent (b'\n' ∷ []) rest'))

module _ (ssl : Openssl) where
  pub strict_export-eq :
      (curve : Curve) (k : ssl.Pkey) (bytes : List ℕ)
      → strict_export ssl curve k ≡ some bytes
      → export_pub ssl curve k ≡ bytes
  unfolding strict_export export_pub
  strict_export-eq curve k bytes h = elim (Bool-cases (is_x25519 curve)) [
    | inl e ↦ rw (e, export_pub) (rw (rw (e, strict_export) at h) refl)
    | inr e ↦ rw (e, export_pub) (rw (rw (e, strict_export) at h) refl)
  ]

  -- The strict derivation is one that succeeds.
  pub strict_secret-ok :
      (curve : Curve) (priv : ssl.Pkey) (bytes : List ℕ) (w w' : ssl.World) (c : Secret)
      → 0 < length bytes
      → strict_secret ssl curve priv bytes w ≡ (some c, w')
      → (classical_secret ssl curve priv bytes w ≡ (some c, w')) × (c.is_ok ≡ true)
  unfolding strict_secret classical_secret
  strict_secret-ok curve priv bytes w w' c l h =
      >>=-cases (load_pub ssl curve bytes) _ w h λ peer v e f.
        >>=-cases (derive_secret ssl priv peer) _ v f λ s u g k.
          >>=-cases (guard s.is_ok) _ u k λ _u t m n.
            let (ok, s2) = guard-eq-some s.is_ok u m in
            let (same, s3) = some_fst s c t w' n in
            (
              rw (lt→ltb 0 (length bytes) l, e) (g ∙ ap₂ (λ x y. (some x, y)) same (sym s2 ∙ s3)),
              ap (λ (z : Secret). z.is_ok) (sym same) ∙ ok,
            )

pub known_kdf :
    (kdf_type : String)
    → (kdf_type ≡ "sha256") ⊎ (kdf_type ≡ "blake3")
    → c_string (codes kdf_type) ≡ codes kdf_type
known_kdf kdf_type (inl e) = rw e refl
known_kdf kdf_type (inr e) = rw e refl

pub wants_blake3-same :
    (freed : List ℕ → List ℕ) (kdf_type : String) (o : Option (List ℕ))
    → o ≡ some (codes kdf_type)
    → wants_blake3 freed o ≡ bytes_eq (freed (codes kdf_type)) (codes "blake3")
unfolding wants_blake3
wants_blake3-same freed kdf_type o e = rw (e, wants_blake3) refl

-- The text of the salt that the client sends.
abbrev pub sent_salt : {ssl : Openssl} → IsLawfulBase64 ssl → AlgoCombo → String → Option (List ℕ)
sent_salt B combo kdf_type = if use_salt combo kdf_type then some (B.encoded static_salt) else none

module _ (ssl : Openssl) (B : IsLawfulBase64 ssl) where
  pub sent_salt-same :
      (combo : AlgoCombo) (kdf_type : String) (o : Option (List ℕ))
      → (use_salt combo kdf_type ≡ true → o ≡ some (B.encoded static_salt))
      → (use_salt combo kdf_type ≡ false → o ≡ none)
      → o ≡ sent_salt B combo kdf_type
  sent_salt-same combo kdf_type o salted plain = elim (Bool-cases (use_salt combo kdf_type)) [
    | inl u ↦ rw u (salted u)
    | inr n ↦ rw n (plain n)
  ]

some_of : {A : Type 0} (o : Option A) → is_some o ≡ true → (a : A) × (o ≡ some a)
some_of none h = cc
some_of (some a) h = (a, refl)

module _ (ssl : Openssl) (oqs : Liboqs) (B : IsLawfulBase64 ssl) (Q : IsLawfulLiboqs oqs) where
  -- The server opens what the client has sealed.
  pub Opened-secret :
      (name : Option String) (k : PqcKeys) (text ct : List ℕ) (made : Encapsulated)
      (ss : Option (List ℕ)) (u0 u1 : oqs.World)
      → Generated ssl oqs name k
      → Opened ssl oqs name text made
      → text ≡ B.encoded k.q_pk
      → b64_decode ssl (some (B.encoded made.ct)) k.kem.length_ciphertext ≡ some ct
      → oqs.decaps k.kem ct k.q_sk u0 ≡ (ss, u1)
      → is_some ss ≡ true
      → (ss ≡ some made.ss) × (made.q_secret_len ≡ k.kem.length_shared_secret)
  Opened-secret name k text ct made ss u0 u1 g o e found h ok =
      let s = o.sealed in
      let kem : s.kem ≡ k.kem = Q.kem_new-same name s.kem k.kem s.w0 s.w1 g.w0 g.w1 s.new g.new in
      let size = Q.length-keypair k.kem k.q_pk k.q_sk g.u0 g.u1 g.pair in
      let read : b64_decode ssl (some text) k.kem.length_public_key ≡ some o.raw =
        subst (λ (z : OqsKem). b64_decode ssl (some text) z.length_public_key ≡ some o.raw) kem
          o.decodes in
      let raw : k.q_pk ≡ s.raw =
        found_inj (b64_decode-encoded B k.q_pk k.kem.length_public_key (omega arith))
          (subst (λ z. b64_decode ssl (some z) k.kem.length_public_key ≡ some o.raw) e read)
        ∙ some-injective o.raw s.raw s.sent in
      let enc : oqs.encaps k.kem k.q_pk s.u0 ≡ (some (made.ct, made.ss), s.u1) =
        ap₂ (λ x y. oqs.encaps x y s.u0) (sym kem) raw ∙ s.sealed in
      let cts = (Q.length-encaps k.kem k.q_pk made.ct made.ss s.u0 s.u1 enc).0 in
      let same_ct : made.ct ≡ ct =
        found_inj (b64_decode-encoded B made.ct k.kem.length_ciphertext (omega arith)) found in
      let (ss', f) = some_of ss ok in
      let opened : oqs.decaps k.kem made.ct k.q_sk u0 ≡ (some ss', u1) =
        ap (λ z. oqs.decaps k.kem z k.q_sk u0) same_ct ∙ (h ∙ ap (λ z. (z, u1)) f) in
      (
        f
            ∙ ap some (
                Q.decaps-encaps k.kem k.q_pk k.q_sk made.ct made.ss ss' g.u0 g.u1 s.u0 s.u1 u0 u1
                  g.pair enc opened),
        s.ss_size ∙ ap (λ (z : OqsKem). z.length_shared_secret) kem,
      )
