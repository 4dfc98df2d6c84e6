-- ===== src/Handshake/Hybrid/Agreement.antt =====
-- The two programs at the two ends of a connection agree on the session key.
use mathlib.Core.Path.{subst, ap₂}
use hybrid_pqc_benchmarking.Prelude.{
  ℕ, ◌^◌, ◌≤◌, ◌<◌, ◌≡◌, refl, ap, sym, ◌∙◌, true, ◌==◌, str_eq, Bool-cases, Option-cases, inl, inr,
  Option, some, String, List, [], ◌++◌, arith, length,
}
use hybrid_pqc_benchmarking.Prelude.Int.{pos}
use hybrid_pqc_benchmarking.Act.{Act}
use hybrid_pqc_benchmarking.External.{
  Openssl, IsLawfulOpenssl, Liboqs, IsLawfulLiboqs, Blake3, OqsKem,
}
use hybrid_pqc_benchmarking.Algo.{AlgoCombo, Curve, get_combo_by_id, is_hybrid, is_x25519}
use hybrid_pqc_benchmarking.Crypto.{crypto_export_x25519_pub_raw, crypto_export_ec_pub_der}
use hybrid_pqc_benchmarking.Wire.{Endian}
use hybrid_pqc_benchmarking.Handshake.{
  Secret, Session, Party, export_pub, classical_secret, finish_session,
}
use hybrid_pqc_benchmarking.Handshake.Encaps.{stored_secret}
use hybrid_pqc_benchmarking.Handshake.Client.{
  execute_dispatch_handshake, kdf_code, dmode_code, ciphertext_packet,
}
use hybrid_pqc_benchmarking.Handshake.Server.{handle_client, is_binary, server_hello_packet}
use hybrid_pqc_benchmarking.Handshake.ServerSteps.{finish_session-parts}
use hybrid_pqc_benchmarking.Handshake.Agreement.{finish_session-agree}
use hybrid_pqc_benchmarking.Handshake.Hybrid.Served.{
  Served, handle_client-binary, handle_client-Served,
}
use hybrid_pqc_benchmarking.Handshake.Streams.{Io-trans}
use hybrid_pqc_benchmarking.Handshake.ServerRun.{handle_client_binary-Transcript}
use hybrid_pqc_benchmarking.Handshake.Hybrid.Connected.{
  Connected, execute_dispatch_handshake-Connected,
}
use hybrid_pqc_benchmarking.Handshake.Hybrid.Frames.{
  client_hello_read, server_hello_read, ciphertext_read,
}

kdf_code-lt : (kdf_type : String) → kdf_code kdf_type < 2 ^ 8
unfolding kdf_code
kdf_code-lt kdf_type = ground arith

dmode_code-lt : (mode : String) → dmode_code mode < 2 ^ 8
unfolding dmode_code
dmode_code-lt mode = ground arith

-- The code for the key derivation says whether it is BLAKE3.
kdf_code-blake3 : (kdf_type : String) → (kdf_code kdf_type == 1) ≡ str_eq kdf_type "blake3"
unfolding kdf_code
kdf_code-blake3 kdf_type = elim (Bool-cases (str_eq kdf_type "blake3")) [
  | inl e ↦ rw e refl
  | inr e ↦ rw e refl
]

pub found_inj : {A : Type 0} {a b : A} {o : Option A} → o ≡ some a → o ≡ some b → a ≡ b
found_inj h k = ground arith

-- All that was written, where nothing had been written before.
fresh : {xs ys zs : List ℕ} → xs ≡ [] → zs ≡ xs ++ ys → zs ≡ ys
fresh {ys = ys} e h = h ∙ ap (λ z. z ++ ys) e

module _ (ssl : Openssl) (L : IsLawfulOpenssl ssl) where
  pub length-export_pub : (curve : Curve) (k : ssl.Pkey) → length (export_pub ssl curve k) ≤ 120
  unfolding export_pub crypto_export_x25519_pub_raw crypto_export_ec_pub_der
  length-export_pub curve k = elim (Bool-cases (is_x25519 curve)) [
    | inl e ↦ elim (Option-cases (ssl.get_raw_public_key k 32)) [
      | inl f ↦ rw (e, f) (omega arith)
      | inr (bs, f) ↦ rw (e, f) (omega (arith, L.length-raw k 32 bs f))
    ]
    | inr e ↦ elim (Option-cases (ssl.i2d_pubkey k)) [
      | inl f ↦ rw (e, f) (omega arith)
      | inr (bs, f) ↦ rw (e, f) (omega (arith, L.length-der k bs f))
    ]
  ]

  module _ (oqs : Liboqs) (Q : IsLawfulLiboqs oqs) (b3 : Blake3) (e : Endian) where
    abbrev P : Type 0
    P = Party ssl oqs

    -- The runs of both sides, with each side's stream what the other has written.
    runs_agree :
        (combo : AlgoCombo) (kdf_type mode : String) (p p' : P) (sc : Session) (q q' : P)
        (ss : Session) (k k' : List ℕ)
        → get_combo_by_id (pos combo.id) ≡ some combo
        → combo.id < 2 ^ 16
        → Connected ssl oqs b3 e combo kdf_type mode p sc p'
        → Served ssl oqs b3 e q ss q'
        → p.sock.outbox ≡ []
        → q.sock.outbox ≡ []
        → q.sock.inbox ≡ p'.sock.outbox
        → p.sock.inbox ≡ q'.sock.outbox
        → sc.classical.is_ok ≡ true
        → ss.classical.is_ok ≡ true
        → sc.session_key ≡ some k
        → ss.session_key ≡ some k'
        → (ss.combo ≡ combo) × (sc.ikm ≡ ss.ikm) × (k ≡ k')
    runs_agree combo kdf_type mode p p' sc q q' ss k k' found small c s p_new q_new up down c_ok
          s_ok key key' =
        let curve = combo.classical_curve in
        let blake3 = str_eq kdf_type "blake3" in
        let bytes = export_pub ssl curve c.own in
        let (id_same, kdf_same, pub_same, front_same) =
          client_hello_read ssl oqs b3 e combo (kdf_code kdf_type) (dmode_code mode) bytes c.front
            s.hello s.meta s.cli_pub (s.hb ++ s.ct) q'.sock.inbox s.hdr s.fields small
            (kdf_code-lt kdf_type) (dmode_code-lt mode) (length-export_pub curve c.own)
            (sym (fresh p_new c.outbox) ∙ (sym up ∙ s.inbox)) s.hello_twelve s.hello_decoded
            s.meta_four s.meta_decoded s.announced in
        let combo_same : s.combo ≡ combo =
          found_inj s.known (ap (λ z. get_combo_by_id (pos z)) id_same ∙ found) in
        let g = s.generated in
        let x = s.exchanged in
        let a = c.answer in
        let kem = s.keys.kem in
        let pk_len = Q.length-keypair kem s.keys.q_pk s.keys.q_sk g.u0 g.u1 g.pair in
        let new : oqs.kem_new combo.pqc_name g.w0 ≡ (some kem, g.w1) =
          subst (λ (z : AlgoCombo). oqs.kem_new z.pqc_name g.w0 ≡ (some kem, g.w1)) combo_same
            g.new in
        let (pk_small, ct_small) = Q.small_sizes combo.pqc_name kem g.w0 g.w1 new in
        let exported : s.classical.srv_pub ≡ export_pub ssl curve x.own =
          x.exported ∙ ap (λ (z : AlgoCombo). export_pub ssl z.classical_curve x.own) combo_same in
        let (srv_same, pk_same) =
          server_hello_read ssl oqs b3 e s.combo s.classical.srv_pub s.keys.q_pk s.last a.hb a.mb
            c.keys.srv_pub a.pk c.p2.sock.inbox a.meta
            (subst (λ z. length z ≤ 120) (sym exported) (length-export_pub curve x.own))
            (subst (λ z. z < 2 ^ 21) (sym pk_len) pk_small)
            (ap
                (λ z.
                  server_hello_packet ssl oqs b3 e s.combo s.classical.srv_pub z s.keys.q_pk
                  ++ s.last)
                pk_len
              ∙ (sym (fresh q_new s.outbox) ∙ (sym down ∙ (c.inbox ∙ a.io.inbox))))
            a.twelve a.eight a.decoded a.pub_size a.pk_size in
        let kem_same : c.sealed.kem ≡ kem =
          Q.kem_new-same combo.pqc_name c.sealed.kem kem c.sealed.w0 c.sealed.w1 g.w0 g.w1
            c.sealed.new new in
        let raw_same : c.sealed.raw ≡ s.keys.q_pk =
          a.raw_key c.sealed.raw c.sealed.sent ∙ pk_same in
        let sealed : oqs.encaps kem s.keys.q_pk c.sealed.u0
            ≡ (some (c.made.ct, c.made.ss), c.sealed.u1) =
          ap₂ (λ z y. oqs.encaps z y c.sealed.u0) (sym kem_same) (sym raw_same) ∙ c.sealed.sealed in
        let (ct_len, _ss_len) =
          Q.length-encaps kem s.keys.q_pk c.made.ct c.made.ss c.sealed.u0 c.sealed.u1 sealed in
        let made_len : c.made.ct_len ≡ length c.made.ct =
          c.sealed.ct_size ∙ (ap (λ (z : OqsKem). z.length_ciphertext) kem_same ∙ sym ct_len) in
        let ct_same : s.ct ≡ c.made.ct =
          ciphertext_read ssl oqs b3 e combo c.made.ct c.front c.back s.hb s.ct q'.sock.inbox s.hd
            small (subst (λ z. z < 2 ^ 21) (sym ct_len) ct_small)
            (ap (ciphertext_packet ssl oqs b3 e combo c.made.ct) (sym made_len) ∙ c.packet)
            front_same s.twelve s.decoded s.size in
        let opened =
          ap (λ z. oqs.decaps kem z s.keys.q_sk s.opened.u0) (sym ct_same) ∙ s.opened.opened in
        let (cc_combo, cc_classical, _cq, _ci) =
          finish_session-parts ssl oqs b3 e combo blake3 c.classical
            (stored_secret c.made.ss c.made.q_secret_len) c.w0 c.w1 sc c.finished in
        let (sc_combo, sc_classical, _sq, _si) =
          finish_session-parts ssl oqs b3 e s.combo (s.fields.kdf_type == 1) s.classical.secret
            s.quantum s.w0 s.w1 ss s.finished in
        let kdf_read : (s.fields.kdf_type == 1) ≡ blake3 =
          ap (λ z. z == 1) kdf_same ∙ kdf_code-blake3 kdf_type in
        let (ikm_same, key_same) =
          finish_session-agree ssl L oqs Q b3 combo blake3 c.own x.own c.classical
            s.classical.secret c.v0 c.v1 c.w0 c.w1 x.v0 x.v1 s.w0 s.w1 kem s.keys.q_pk s.keys.q_sk
            c.made.ct c.made.ss s.opened.ss g.u0 g.u1 c.sealed.u0 c.sealed.u1 s.opened.u0
            s.opened.u1 sc ss k k'
            (ap (λ z. classical_secret ssl curve c.own z c.v0) (sym (srv_same ∙ exported))
              ∙ c.derived)
            (ap₂ (λ (z : AlgoCombo) y. classical_secret ssl z.classical_curve x.own y x.v0)
                (sym combo_same) (sym pub_same)
              ∙ x.derived)
            (ap (λ (z : Secret). z.is_ok) (sym cc_classical) ∙ c_ok)
            (ap (λ (z : Secret). z.is_ok) (sym sc_classical) ∙ s_ok) g.pair sealed opened
            (ap
                (λ z.
                  finish_session ssl b3 combo blake3 c.classical (stored_secret c.made.ss z) c.w0)
                (sym (c.sealed.ss_size ∙ ap (λ (z : OqsKem). z.length_shared_secret) kem_same))
              ∙ c.finished)
            (ap
                (λ z.
                  finish_session ssl b3 z blake3 s.classical.secret
                    (stored_secret s.opened.ss kem.length_shared_secret) s.w0)
                (sym combo_same)
              ∙ (ap₂ (λ z y. finish_session ssl b3 s.combo z s.classical.secret y s.w0)
                    (sym kdf_read) (sym s.opened.secret)
                  ∙ s.finished))
            key key' in
        (sc_combo ∙ combo_same, ikm_same, key_same)

    -- The server serves the combination that the client has announced.
    handle_client-combo :
        (combo : AlgoCombo) (kdf_type mode : String) (legacy : Act P Session) (p p' : P)
        (sc : Session) (q q' : P) (ss : Session)
        → get_combo_by_id (pos combo.id) ≡ some combo
        → combo.id < 2 ^ 16
        → Connected ssl oqs b3 e combo kdf_type mode p sc p'
        → is_binary ssl oqs b3 e q.sock ≡ true
        → handle_client ssl oqs b3 e legacy q ≡ (some ss, q')
        → p.sock.outbox ≡ []
        → q.sock.inbox ≡ p'.sock.outbox
        → ss.combo ≡ combo
    handle_client-combo combo kdf_type mode legacy p p' sc q q' ss found small c peek server p_new
          up =
        let (hello, hdr, q1, io, twelve, dec, run) =
          handle_client-binary ssl oqs b3 e legacy q q' ss peek server in
        let t = handle_client_binary-Transcript ssl oqs b3 e hdr q1 q' ss run in
        let whole = Io-trans io t.io in
        let bytes = export_pub ssl combo.classical_curve c.own in
        let (id_same, _k, _p, _f) =
          client_hello_read ssl oqs b3 e combo (kdf_code kdf_type) (dmode_code mode) bytes c.front
            hello t.meta t.cli_pub t.frame q'.sock.inbox hdr t.fields small (kdf_code-lt kdf_type)
            (dmode_code-lt mode) (length-export_pub combo.classical_curve c.own)
            (sym (fresh p_new c.outbox) ∙ (sym up ∙ whole.inbox)) twelve dec t.four t.decoded
            t.announced in
        found_inj t.known (ap (λ z. get_combo_by_id (pos z)) id_same ∙ found)

    -- Client and server agree: where a hybrid handshake of `execute_dispatch_handshake` and a run
    -- of `handle_client` end with a session each, at the two ends of one connection (each has read
    -- from what the other has written, between machines of one byte order, and the peek has seen
    -- the binary protocol), the server's session is of the client's combination, and both have the
    -- same key material and the same session key, if the two ECDH derivations, the decapsulation
    -- and the two key derivations have succeeded.
    pub execute_dispatch_handshake-agree :
        (combo : AlgoCombo) (kdf_type mode : String) (legacy : Act P Session) (p p' : P)
        (sc : Session) (q q' : P) (ss : Session) (k k' : List ℕ)
        → get_combo_by_id (pos combo.id) ≡ some combo
        → combo.id < 2 ^ 16
        → is_hybrid combo.profile ≡ true
        → execute_dispatch_handshake ssl oqs b3 e true combo kdf_type mode p ≡ (some sc, p')
        → is_binary ssl oqs b3 e q.sock ≡ true
        → handle_client ssl oqs b3 e legacy q ≡ (some ss, q')
        → p.sock.outbox ≡ []
        → q.sock.outbox ≡ []
        → q.sock.inbox ≡ p'.sock.outbox
        → p.sock.inbox ≡ q'.sock.outbox
        → sc.classical.is_ok ≡ true
        → ss.classical.is_ok ≡ true
        → ss.quantum.is_ok ≡ true
        → sc.session_key ≡ some k
        → ss.session_key ≡ some k'
        → (ss.combo ≡ combo) × (sc.ikm ≡ ss.ikm) × (k ≡ k')
    execute_dispatch_handshake-agree combo kdf_type mode legacy p p' sc q q' ss k k' found small hy
          client peek server p_new q_new up down c_ok s_ok q_ok key key' =
        let c =
          execute_dispatch_handshake-Connected ssl oqs b3 e true combo kdf_type mode p p' sc client
            hy in
        let same =
          handle_client-combo combo kdf_type mode legacy p p' sc q q' ss found small c peek server
            p_new up in
        runs_agree combo kdf_type mode p p' sc q q' ss k k' found small c
          (handle_client-Served ssl oqs b3 e legacy q q' ss peek server
            (ap (λ (z : AlgoCombo). is_hybrid z.profile) same ∙ hy) q_ok)
          p_new q_new up down c_ok s_ok key key'
