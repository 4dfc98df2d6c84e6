-- ===== src/First/ClientRun.antt =====
-- A hybrid handshake of c/client.c that ends with a session: what it has read, written and derived.
use mathlib.Core.Path.{subst}
use mathlib.Core.List.{append_assoc, append-nil}
use hybrid_pqc_benchmarking.Prelude.{
  ℕ, ◌≡◌, refl, ap, sym, ◌∙◌, Bool, true, false, ltb, ◌==◌, ==_iff, str_eq, Option, none, some,
  String, List, [], ◌∷◌, ◌++◌, length, Bool-cases, inl, inr, All, ◌≢◌,
}
use hybrid_pqc_benchmarking.Act.{
  >>=-cases, require-eq-some, guard-eq-some, caught-eq-some, attempt, require, guard, pure,
}
use hybrid_pqc_benchmarking.External.{Openssl, Liboqs, Blake3, Cjson, OqsKem}
use hybrid_pqc_benchmarking.Algo.{AlgoCombo, is_hybrid}
use hybrid_pqc_benchmarking.Crypto.{crypto_generate_keypair}
use hybrid_pqc_benchmarking.Engine.{malloc_each}
use hybrid_pqc_benchmarking.Net.{Socket}
use hybrid_pqc_benchmarking.Handshake.{
  Session, Party, on_ec, on_kem, max_pub_key_bytes, export_pub, classical_secret, key_material,
}
use hybrid_pqc_benchmarking.Handshake.Encaps.{b64_decode, Encapsulated, decoded_key, stored_secret}
use hybrid_pqc_benchmarking.Handshake.Client.{Secrets}
use hybrid_pqc_benchmarking.Handshake.Json.{
  c_string, json_get_str, recv_json, send_json, json_session_key,
}
use hybrid_pqc_benchmarking.Handshake.Streams.{on_ec-eq-some, on_kem-eq-some, some_fst, none-some}
use hybrid_pqc_benchmarking.Handshake.Hybrid.ClientSide.{Sealed, hybrid_of, sock_eq}
use hybrid_pqc_benchmarking.First.Client.{
  client_salt, decoded, line_encaps_worker, profile_select, client_hello, ciphertext_line,
  line_result, line_session, send_hello, line_ecdh, encaps_thread, hybrid_exchange, line_secrets,
  line_handshake,
}
use hybrid_pqc_benchmarking.First.Lines.{
  IsLawfulCjson, line, Talk, Talk-quiet, Talk-trans, recv_json-Talk, attempt-recv_json-outbox,
  attempt-send_json-Talk,
}

regroup : (a b c : List ℕ) → ((a ++ b) ++ []) ++ c ≡ a ++ (b ++ c)
regroup a b c = simp (append-nil, append_assoc)

module _ (ssl : Openssl) (oqs : Liboqs) where
  abbrev P : Type 0
  P = Party ssl oqs

  decoded_key-eq :
      (kem : OqsKem) (o : Option (List ℕ)) (w w' : oqs.World) (raw : List ℕ)
      → decoded_key ssl oqs kem o w ≡ (some raw, w')
      → (o ≡ some raw) × (length raw ≡ kem.length_public_key)
  decoded_key-eq kem none w w' raw h = absurd (none-some w w' raw h)
  decoded_key-eq kem (some r) w w' raw h = elim (Bool-cases (length r == kem.length_public_key)) [
    | inl fits ↦
        let (same, _s) = some_fst r raw w w' (rw fits at h) in
        (ap some same, ap length (sym same) ∙ (==_iff (length r) kem.length_public_key).0 fits)
    | inr other ↦ absurd (none-some w w' raw (rw other at h))
  ]

  -- The worker's key is what the text decodes to.
  pub record Opened (name : Option String) (text : List ℕ) (m : Encapsulated) : Type 0 where
    pub raw : List ℕ
    pub sealed : Sealed ssl oqs name (some raw) m
    pub decodes : b64_decode ssl (some text) sealed.kem.length_public_key ≡ some raw

  line_encaps_worker-Opened :
      (name : Option String) (text : List ℕ) (w w' : oqs.World) (m : Encapsulated)
      → line_encaps_worker ssl oqs name text w ≡ (some m, w')
      → Opened name text m
  unfolding line_encaps_worker
  line_encaps_worker-Opened name text w w' m h = >>=-cases (oqs.kem_new name) _ w h λ kem w1 e1 f1.
      >>=-cases
        (malloc_each oqs
          (kem.length_ciphertext ∷ kem.length_shared_secret ∷ kem.length_public_key ∷ []))
        _ w1 f1
        λ _u w2 e2 f2.
          let text_key = b64_decode ssl (some text) kem.length_public_key in
          >>=-cases (decoded_key ssl oqs kem text_key) _ w2 f2 λ raw w3 e3 f3.
            >>=-cases (oqs.encaps kem raw) _ w3 f3 λ made w4 e4 f4.
              let (decodes, enough) = decoded_key-eq kem text_key w2 w3 raw e3 in
              subst (Opened name text) (some_fst _ m w4 w' f4).0 (record {
                raw = raw;
                sealed = record {
                  kem = kem;
                  raw = raw;
                  w0 = w;
                  w1 = w1;
                  u0 = w3;
                  u1 = w4;
                  new = e1;
                  sent = refl;
                  enough = enough;
                  sealed = e4;
                  ct_size = refl;
                  ss_size = refl;
                };
                decodes = decodes;
              })

  module _ (json : Cjson) (realloc_ok : ℕ → Bool) (J : IsLawfulCjson json) where
    send_hello-Talk :
        (combo : AlgoCombo) (p p' : P) (o : Option ssl.Pkey)
        → is_hybrid combo.profile ≡ true
        → p.sock.writes ≡ []
        → send_hello ssl oqs json realloc_ok combo p ≡ (some o, p')
        → (own : ssl.Pkey) × (o ≡ some own)
          × Talk p.sock []
              (line (J.printed (client_hello ssl json (export_pub ssl combo.classical_curve own))))
              p'.sock
    unfolding send_hello
    send_hello-Talk combo p p' o hy whole h =
        let make = crypto_generate_keypair ssl combo.classical_curve in
        >>=-cases (on_ec ssl oqs make) _ p (rw hy at h) λ own p1 e1 f1.
          let hello = client_hello ssl json (export_pub ssl combo.classical_curve own) in
          >>=-cases (attempt (send_json ssl oqs json realloc_ok hello)) _ p1 f1 λ r p2 e2 f2.
            let quiet = Talk-quiet (on_ec-eq-some ssl oqs make p p1 own e1).1 in
            let talk =
              attempt-send_json-Talk ssl oqs json realloc_ok J hello p1 p2 r (quiet.whole whole)
                e2 in
            let (same, s) = some_fst (some own) o p2 p' f2 in
            (
              own,
              sym same,
              subst (λ (z : P). Talk p.sock [] (line (J.printed hello)) z.sock) s
                  (Talk-trans quiet talk),
            )

    -- Both secrets of the hybrid profile, and the line with the ciphertext.
    pub record Shared (combo : AlgoCombo) (own : ssl.Pkey) (resp : json.Object) (p : P)
        (s : Secrets) (p' : P) : Type 0 where
      pub text : List ℕ
      pub made : Encapsulated
      pub found : json_get_str json resp "q_pk" ≡ some text
      pub opened : Opened combo.pqc_name text made
      pub v0 : ssl.World
      pub v1 : ssl.World
      pub derived :
          classical_secret ssl combo.classical_curve own
            (decoded (b64_decode ssl (json_get_str json resp "c_pub") max_pub_key_bytes))
            v0
          ≡ (some s.classical, v1)
      pub quantum : s.quantum ≡ stored_secret made.ss made.q_secret_len
      pub talk : Talk p.sock [] (line (J.printed (ciphertext_line ssl json made.ct))) p'.sock

    encaps_thread-Opened :
        (spawned : Bool) (combo : AlgoCombo) (text : List ℕ) (p p' : P) (r : Option Encapsulated)
        (m : Encapsulated)
        → encaps_thread ssl oqs json realloc_ok spawned combo text p ≡ (some r, p')
        → r ≡ some m
        → Opened combo.pqc_name text m × (p'.sock ≡ p.sock)
    unfolding encaps_thread
    encaps_thread-Opened true combo text p p' r m h e =
        let work = line_encaps_worker ssl oqs combo.pqc_name text in
        let (run, quiet) = on_kem-eq-some ssl oqs work p p' m (
          subst (λ z. on_kem ssl oqs work p ≡ (z, p')) e
            (caught-eq-some (on_kem ssl oqs work p) h)) in
        (line_encaps_worker-Opened combo.pqc_name text p.kem p'.kem m run, quiet)
    encaps_thread-Opened false combo text p p' r m h e =
        absurd (no_thread ((some_fst none r p p' h).0 ∙ e))
      where
        no_thread : ¬ (none ≡ some m)
        no_thread e = cc

    hybrid_exchange-Shared :
        (spawned : Bool) (combo : AlgoCombo) (own : ssl.Pkey) (resp : json.Object) (p p' : P)
        (s : Secrets)
        → p.sock.writes ≡ []
        → hybrid_exchange ssl oqs json realloc_ok spawned combo own resp p ≡ (some s, p')
        → Shared combo own resp p s p'
    unfolding hybrid_exchange line_ecdh
    hybrid_exchange-Shared spawned combo own resp p p' s whole h =
        >>=-cases (require (json_get_str json resp "q_pk")) _ p h λ text p1 e1 f1.
          >>=-cases (encaps_thread ssl oqs json realloc_ok spawned combo text) _ p1 f1 λ r p2 e2 f2.
            let agree =
              classical_secret ssl combo.classical_curve own
                (decoded (b64_decode ssl (json_get_str json resp "c_pub") max_pub_key_bytes)) in
            >>=-cases (on_ec ssl oqs agree) _ p2 f2 λ c p3 e3 f3.
              >>=-cases (require r) _ p3 f3 λ made p4 e4 f4.
                >>=-cases (guard (ltb 0 c.len)) _ p4 f4 λ _u p5 e5 f5.
                  let ct = ciphertext_line ssl json made.ct in
                  >>=-cases (attempt (send_json ssl oqs json realloc_ok ct)) _ p5 f5 λ q p6 e6 f6.
                    let (found, s1) = require-eq-some (json_get_str json resp "q_pk") p e1 in
                    let (has, s4) = require-eq-some r p3 e4 in
                    let (opened, s2) =
                      encaps_thread-Opened spawned combo text p1 p2 r made e2 has in
                    let (derived, s3) = on_ec-eq-some ssl oqs agree p2 p3 c e3 in
                    let s5 = (guard-eq-some (ltb 0 c.len) p4 e5).1 in
                    let quiet =
                      Talk-quiet (sock_eq ssl oqs (s5 ∙ s4) ∙ (s3 ∙ (s2 ∙ sock_eq ssl oqs s1))) in
                    let talk =
                      attempt-send_json-Talk ssl oqs json realloc_ok J ct p5 p6 q
                        (quiet.whole whole) e6 in
                    let (same, s6) = some_fst _ s p6 p' f6 in
                    subst (λ z. Shared combo own resp p z p') same
                      (record {
                        text = text;
                        made = made;
                        found = found;
                        opened = opened;
                        v0 = p2.ec;
                        v1 = p3.ec;
                        derived = derived;
                        quantum = refl;
                        talk =
                            subst (λ (z : P). Talk p.sock [] (line (J.printed ct)) z.sock) s6
                              (Talk-trans quiet talk);
                      })

    line_secrets-hybrid :
        (spawned : Bool) (combo : AlgoCombo) (own : ssl.Pkey) (resp : json.Object) (p p' : P)
        (s : Secrets)
        → is_hybrid combo.profile ≡ true
        → line_secrets ssl oqs json realloc_ok spawned combo (some own) resp p ≡ (some s, p')
        → hybrid_exchange ssl oqs json realloc_ok spawned combo own resp p ≡ (some s, p')
    unfolding line_secrets
    line_secrets-hybrid spawned combo own resp p p' s hy h =
        rw (hybrid_of combo.profile hy, line_secrets) at h

    -- A run that ends with a session.
    pub record Ran (b3 : Blake3) (combo : AlgoCombo) (kdf_type : String) (p : P) (session : Session)
        (p' : P) : Type 0 where
      pub own : ssl.Pkey
      pub resp : json.Object
      pub text : List ℕ
      pub p3 : P
      pub p4 : P
      pub secrets : Secrets
      pub plain : All (λ c. c ≢ b'\n') text
      pub parsed : json.parse (c_string text) ≡ some resp
      pub rest : List ℕ
      pub inbox : p.sock.inbox ≡ line text ++ rest
      pub shared : Shared combo own resp p3 secrets p4
      pub outbox :
          p'.sock.outbox
          ≡ p.sock.outbox
            ++ (line (J.printed (profile_select ssl json combo kdf_type))
                ++ (line
                      (J.printed (client_hello ssl json (export_pub ssl combo.classical_curve own)))
                    ++ line (J.printed (ciphertext_line ssl json shared.made.ct))))
      pub v0 : ssl.World
      pub v1 : ssl.World
      pub material : session.ikm ≡ key_material ssl secrets.classical secrets.quantum
      pub classical : session.classical ≡ secrets.classical
      pub kdf : session.is_blake3 ≡ str_eq kdf_type "blake3"
      pub key :
          json_session_key ssl b3 combo
            (str_eq kdf_type "blake3")
            (client_salt combo kdf_type)
            session.ikm
            v0
          ≡ (some session.session_key, v1)

    pub line_handshake-Ran :
        (b3 : Blake3) (connected spawned : Bool) (combo : AlgoCombo) (kdf_type : String) (p p' : P)
        (session : Session)
        → is_hybrid combo.profile ≡ true
        → p.sock.writes ≡ []
        → line_handshake ssl oqs json realloc_ok b3 connected spawned combo kdf_type p
          ≡ (some session, p')
        → Ran b3 combo kdf_type p session p'
    unfolding line_handshake line_session
    line_handshake-Ran b3 connected spawned combo kdf_type p p' session hy whole h =
        let select = profile_select ssl json combo kdf_type in
        let receive = recv_json ssl oqs json realloc_ok in
        >>=-cases (guard connected) _ p h λ _u p0 e0 f0.
          >>=-cases (attempt (send_json ssl oqs json realloc_ok select))
            (λ _sent. line_session ssl oqs json realloc_ok b3 spawned combo kdf_type) p0 f0
            λ r p1 e1 f1.
              >>=-cases (send_hello ssl oqs json realloc_ok combo) _ p1 f1 λ c_priv p2 e2 f2.
                >>=-cases receive _ p2 f2 λ resp p3 e3 f3.
                  >>=-cases (line_secrets ssl oqs json realloc_ok spawned combo c_priv resp) _ p3 f3
                    λ s p4 e4 f4.
                      let ikm = key_material ssl s.classical s.quantum in
                      let derive =
                        json_session_key ssl b3 combo (str_eq kdf_type "blake3")
                          (client_salt combo kdf_type) ikm in
                      >>=-cases (on_ec ssl oqs derive) _ p4 f4 λ key p5 e5 f5.
                        let made =
                          line_result ssl oqs json realloc_ok combo (str_eq kdf_type "blake3") s
                            key in
                        >>=-cases (attempt receive) (λ _fin. pure made) p5 f5
                          λ fin p6 e6 f6.
                            let t0 =
                              Talk-quiet (sock_eq ssl oqs (guard-eq-some connected p e0).1) in
                            let t1 = Talk-trans t0 (
                              attempt-send_json-Talk ssl oqs json realloc_ok J select p0 p1 r
                                (t0.whole whole) e1) in
                            let (own, has, hello) =
                              send_hello-Talk combo p1 p2 c_priv hy (t1.whole whole) e2 in
                            let t2 = Talk-trans t1 hello in
                            let (text, got, plain, parsed) =
                              recv_json-Talk ssl oqs json realloc_ok p2 p3 resp e3 in
                            let t3 = Talk-trans t2 got in
                            let exchange = line_secrets-hybrid spawned combo own resp p3 p4 s hy (
                              subst
                                (λ z.
                                  line_secrets ssl oqs json realloc_ok spawned combo z resp p3
                                  ≡ (some s, p4))
                                has e4) in
                            let shared =
                              hybrid_exchange-Shared spawned combo own resp p3 p4 s (t3.whole whole)
                                exchange in
                            let t4 = Talk-trans t3 shared.talk in
                            let (run, s5) = on_ec-eq-some ssl oqs derive p4 p5 key e5 in
                            let silent =
                              attempt-recv_json-outbox ssl oqs json realloc_ok p5 p6 fin e6 in
                            let (same, s6) = some_fst made session p6 p' f6 in
                            subst (λ z. Ran b3 combo kdf_type p z p') same
                              (record {
                                own = own;
                                resp = resp;
                                text = text;
                                p3 = p3;
                                p4 = p4;
                                secrets = s;
                                plain = plain;
                                parsed = parsed;
                                rest = p3.sock.inbox;
                                inbox = t2.inbox ∙ got.inbox;
                                shared = shared;
                                outbox =
                                    ap (λ (z : P). z.sock.outbox) (sym s6)
                                    ∙ (silent
                                        ∙ (ap (λ (z : Socket). z.outbox) s5
                                            ∙ (t4.outbox
                                                ∙ ap (λ z. p.sock.outbox ++ z)
                                                    (regroup (line (J.printed select)) _ _))));
                                v0 = p4.ec;
                                v1 = p5.ec;
                                material = refl;
                                classical = refl;
                                kdf = refl;
                                key = run;
                              })
