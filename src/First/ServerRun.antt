-- ===== src/First/ServerRun.antt =====
-- A hybrid handshake of c/server.c that ends with a session: what it has read, written and derived.
use mathlib.Core.Path.{subst}
use mathlib.Core.List.{append-nil}
use hybrid_pqc_benchmarking.Prelude.{
  ℕ, ◌<◌, ◌≡◌, ◌≢◌, refl, ap, sym, ◌∙◌, Bool, true, false, ltb, ltb→lt, ◌==◌, Option, none, some,
  List, [], length, All,
}
use hybrid_pqc_benchmarking.Act.{
  >>=-cases, require-eq-some, guard-eq-some, caught-eq-some, attempt, require, guard, pure,
}
use hybrid_pqc_benchmarking.External.{Openssl, Liboqs, Cjson}
use hybrid_pqc_benchmarking.Algo.{AlgoCombo, is_hybrid}
use hybrid_pqc_benchmarking.Crypto.{crypto_generate_keypair}
use hybrid_pqc_benchmarking.Net.{Socket}
use hybrid_pqc_benchmarking.Handshake.{Secret, Party, on_ec, on_kem, max_pub_key_bytes}
use hybrid_pqc_benchmarking.Handshake.Encaps.{b64_decode, PqcKeys, pqc_keygen_worker}
use hybrid_pqc_benchmarking.Handshake.Server.{Classical}
use hybrid_pqc_benchmarking.Handshake.Json.{c_string, json_get_str, recv_json, send_json}
use hybrid_pqc_benchmarking.Handshake.Streams.{
  put_kem-eq, on_ec-eq-some, on_kem-eq-some, some_fst, none-some,
}
use hybrid_pqc_benchmarking.Handshake.Hybrid.ClientSide.{sock_eq}
use hybrid_pqc_benchmarking.Handshake.Hybrid.ServerSide.{Generated, pqc_keygen_worker-Generated}
use hybrid_pqc_benchmarking.First.Server.{
  opened_secret, open_ciphertext, strict_export, strict_secret, keygen_thread, joined_keys,
  line_classical, key_reply, line_quantum, exchange_keys,
}
use hybrid_pqc_benchmarking.First.Lines.{
  IsLawfulCjson, line, Talk, recv_json-Talk, attempt-send_json-Talk,
}

-- A write and then a read.
answered : {s t u : Socket} {a b : List ℕ} → Talk s [] b t → Talk t a [] u → Talk s a b u
answered {s} {b = b} x y = record {
  inbox = x.inbox ∙ y.inbox;
  outbox = y.outbox ∙ append-nil _ ∙ x.outbox;
  whole = λ h. y.whole (x.whole h);
}

module _ (ssl : Openssl) (oqs : Liboqs) where
  abbrev P : Type 0
  P = Party ssl oqs

  keygen_thread-Generated :
      (spawned : Bool) (combo : AlgoCombo) (p p' : P) (r : Option PqcKeys) (k : PqcKeys)
      → is_hybrid combo.profile ≡ true
      → keygen_thread ssl oqs spawned combo p ≡ (some r, p')
      → r ≡ some k
      → Generated ssl oqs combo.pqc_name k × (p'.sock ≡ p.sock)
  unfolding keygen_thread
  keygen_thread-Generated true combo p p' r k hy h e =
      let work = pqc_keygen_worker ssl oqs combo.pqc_name in
      let made = caught-eq-some (on_kem ssl oqs work p) (rw (hy, keygen_thread) at h) in
      let (run, quiet) =
        on_kem-eq-some ssl oqs work p p' k (subst (λ z. on_kem ssl oqs work p ≡ (z, p')) e made) in
      (pqc_keygen_worker-Generated ssl oqs combo.pqc_name k p.kem p'.kem run, quiet)
  keygen_thread-Generated false combo p p' r k hy h e =
      absurd (no_thread ((some_fst none r p p' h).0 ∙ e))
    where
      no_thread : ¬ (none ≡ some k)
      no_thread e = cc

  joined_keys-eq :
      (combo : AlgoCombo) (made o : Option PqcKeys) (p p' : P)
      → is_hybrid combo.profile ≡ true
      → joined_keys ssl oqs combo made p ≡ (some o, p')
      → (k : PqcKeys) × (made ≡ some k) × (o ≡ some k) × (p' ≡ p)
  unfolding joined_keys
  joined_keys-eq combo none o p p' hy h = absurd (none-some p p' o (rw (hy, joined_keys) at h))
  joined_keys-eq combo (some k) o p p' hy h =
      let (same, s) = some_fst (some k) o p p' (rw (hy, joined_keys) at h) in
      (k, refl, sym same, sym s)

  module _ (json : Cjson) (realloc_ok : ℕ → Bool) where
    -- The client's line with its key, and the server's part of the ECDH.
    pub record Agreed (combo : AlgoCombo) (p : P) (c : Classical) (p' : P) : Type 0 where
      pub hello : json.Object
      pub text : List ℕ
      pub plain : All (λ b. b ≢ b'\n') text
      pub parsed : json.parse (c_string text) ≡ some hello
      pub talk : Talk p.sock (line text) [] p'.sock
      pub cli_pub : List ℕ
      pub found : b64_decode ssl (json_get_str json hello "c_pub") max_pub_key_bytes ≡ some cli_pub
      pub some_bytes : 0 < length cli_pub
      pub own : ssl.Pkey
      pub exported : strict_export ssl combo.classical_curve own ≡ some c.srv_pub
      pub v0 : ssl.World
      pub v1 : ssl.World
      pub derived : strict_secret ssl combo.classical_curve own cli_pub v0 ≡ (some c.secret, v1)

    line_classical-Agreed :
        (combo : AlgoCombo) (p p' : P) (c : Classical)
        → is_hybrid combo.profile ≡ true
        → line_classical ssl oqs json realloc_ok combo p ≡ (some c, p')
        → Agreed combo p c p'
    unfolding line_classical
    line_classical-Agreed combo p p' c hy h =
        let curve = combo.classical_curve in
        >>=-cases (recv_json ssl oqs json realloc_ok) _ p (rw (hy, line_classical) at h)
          λ hello p1 e1 f1.
            let got = b64_decode ssl (json_get_str json hello "c_pub") max_pub_key_bytes in
            >>=-cases (require got) _ p1 f1 λ cli_pub p2 e2 f2.
              >>=-cases (guard (ltb 0 (length cli_pub))) _ p2 f2 λ _u p3 e3 f3.
                >>=-cases (on_ec ssl oqs (crypto_generate_keypair ssl curve)) _ p3 f3
                  λ own p4 e4 f4.
                    >>=-cases (require (strict_export ssl curve own)) _ p4 f4 λ srv_pub p5 e5 f5.
                      >>=-cases (on_ec ssl oqs (strict_secret ssl curve own cli_pub)) _ p5 f5
                        λ s p6 e6 f6.
                          let (text, talk, plain, parsed) =
                            recv_json-Talk ssl oqs json realloc_ok p p1 hello e1 in
                          let (found, s2) = require-eq-some got p1 e2 in
                          let (enough, s3) = guard-eq-some (ltb 0 (length cli_pub)) p2 e3 in
                          let s4 =
                            (on_ec-eq-some ssl oqs (crypto_generate_keypair ssl curve) p3 p4 own
                              e4).1 in
                          let (exported, s5) =
                            require-eq-some (strict_export ssl curve own) p4 e5 in
                          let (derived, s6) =
                            on_ec-eq-some ssl oqs (strict_secret ssl curve own cli_pub) p5 p6 s
                              e6 in
                          let quiet =
                            s6 ∙ (sock_eq ssl oqs s5 ∙ (s4 ∙ sock_eq ssl oqs (s3 ∙ s2))) in
                          let (same, s7) = some_fst _ c p6 p' f6 in
                          subst (λ z. Agreed combo p z p') same
                            (record {
                              hello = hello;
                              text = text;
                              plain = plain;
                              parsed = parsed;
                              talk =
                                  subst (λ (z : P). Talk p.sock (line text) [] z.sock) s7
                                    (subst (Talk p.sock (line text) []) (sym quiet) talk);
                              cli_pub = cli_pub;
                              found = found;
                              some_bytes = ltb→lt 0 (length cli_pub) enough;
                              own = own;
                              exported = exported;
                              v0 = p5.ec;
                              v1 = p6.ec;
                              derived = derived;
                            })

    pub exchange_keys-Agreed :
        (spawned : Bool) (combo : AlgoCombo) (p p' : P) (c : Classical) (o : Option PqcKeys)
        → is_hybrid combo.profile ≡ true
        → exchange_keys ssl oqs json realloc_ok spawned combo p ≡ (some (c, o), p')
        → (k : PqcKeys) × (p1 : P) × (o ≡ some k)
          × Generated ssl oqs combo.pqc_name k
          × (p1.sock ≡ p.sock)
          × Agreed combo p1 c p'
    unfolding exchange_keys
    exchange_keys-Agreed spawned combo p p' c o hy h =
        >>=-cases (keygen_thread ssl oqs spawned combo) _ p h λ made p1 e1 f1.
          >>=-cases (line_classical ssl oqs json realloc_ok combo) _ p1 f1 λ c' p2 e2 f2.
            >>=-cases (joined_keys ssl oqs combo made) _ p2 f2 λ o' p3 e3 f3.
              let (k, has, same, s3) = joined_keys-eq combo made o' p2 p3 hy e3 in
              let (generated, s1) = keygen_thread-Generated spawned combo p p1 made k hy e1 has in
              let (pair, s4) = some_fst (c', o') (c, o) p3 p' f3 in
              (
                k,
                p1,
                ap (λ z. z.1) (sym pair) ∙ same,
                generated,
                s1,
                subst (λ z. Agreed combo p1 z p') (ap (λ z. z.0) pair)
                    (subst (Agreed combo p1 c') (sym s3 ∙ s4)
                      (line_classical-Agreed combo p1 p2 c' hy e2)),
              )

    module _ (J : IsLawfulCjson json) where
      -- The line with the server's keys, the client's with the ciphertext, and the decapsulation.
      pub record Unsealed (srv_pub : List ℕ) (k : PqcKeys) (p : P) (q : Secret) (p' : P)
          : Type 0 where
        pub ct_msg : json.Object
        pub text : List ℕ
        pub plain : All (λ b. b ≢ b'\n') text
        pub parsed : json.parse (c_string text) ≡ some ct_msg
        pub talk :
            Talk p.sock
              (line text)
              (line (J.printed (key_reply ssl oqs json realloc_ok srv_pub k)))
              p'.sock
        pub ct : List ℕ
        pub found : b64_decode ssl (json_get_str json ct_msg "ct") k.kem.length_ciphertext ≡ some ct
        pub ss : Option (List ℕ)
        pub u0 : oqs.World
        pub u1 : oqs.World
        pub opened : oqs.decaps k.kem ct k.q_sk u0 ≡ (ss, u1)
        pub secret : q ≡ opened_secret ssl oqs k ss

      open_ciphertext-Unsealed :
          (srv_pub : List ℕ) (k : PqcKeys) (p p0 p' : P) (q : Secret)
          → Talk p.sock [] (line (J.printed (key_reply ssl oqs json realloc_ok srv_pub k))) p0.sock
          → open_ciphertext ssl oqs json realloc_ok k p0 ≡ (some q, p')
          → Unsealed srv_pub k p q p'
      unfolding open_ciphertext
      open_ciphertext-Unsealed srv_pub k p p0 p' q t0 h =
          let kem = k.kem in
          >>=-cases (recv_json ssl oqs json realloc_ok) _ p0 h λ ct_msg p1 e1 f1.
            >>=-cases (on_kem ssl oqs (oqs.malloc kem.length_ciphertext)) _ p1 f1 λ _u p2 e2 f2.
              let got = b64_decode ssl (json_get_str json ct_msg "ct") kem.length_ciphertext in
              >>=-cases (require got) _ p2 f2 λ ct p3 e3 f3.
                >>=-cases (guard (length ct == kem.length_ciphertext)) _ p3 f3 λ _v p4 e4 f4.
                  >>=-cases (on_kem ssl oqs (oqs.malloc kem.length_shared_secret)) _ p4 f4
                    λ _w p5 e5 f5.
                      let decaps = oqs.decaps kem ct k.q_sk in
                      >>=-cases (attempt (on_kem ssl oqs decaps))
                        (λ ss. pure (opened_secret ssl oqs k ss)) p5 f5
                        λ ss p6 e6 f6.
                          let (text, got_line, plain, parsed) =
                            recv_json-Talk ssl oqs json realloc_ok p0 p1 ct_msg e1 in
                          let s2 =
                            (on_kem-eq-some ssl oqs (oqs.malloc kem.length_ciphertext) p1 p2 tt
                              e2).1 in
                          let (found, s3) = require-eq-some got p2 e3 in
                          let s4 = (guard-eq-some (length ct == kem.length_ciphertext) p3 e4).1 in
                          let s5 =
                            (on_kem-eq-some ssl oqs (oqs.malloc kem.length_shared_secret) p4 p5 tt
                              e5).1 in
                          let (opened, s6) =
                            put_kem-eq ssl oqs (decaps p5.kem) p5 p6 ss
                              (caught-eq-some (on_kem ssl oqs decaps p5) e6) in
                          let quiet = s6 ∙ (s5 ∙ (sock_eq ssl oqs (s4 ∙ s3) ∙ s2)) in
                          let (same, s7) = some_fst (opened_secret ssl oqs k ss) q p6 p' f6 in
                          record {
                            ct_msg = ct_msg;
                            text = text;
                            plain = plain;
                            parsed = parsed;
                            talk =
                                subst
                                  (λ (z : P).
                                    Talk p.sock (line text)
                                      (line
                                        (J.printed (key_reply ssl oqs json realloc_ok srv_pub k)))
                                      z.sock)
                                  s7
                                  (answered t0
                                    (subst (Talk p0.sock (line text) []) (sym quiet) got_line));
                            ct = ct;
                            found = found;
                            ss = ss;
                            u0 = p5.kem;
                            u1 = p6.kem;
                            opened = opened;
                            secret = sym same;
                          }

      pub line_quantum-Unsealed :
          (srv_pub : List ℕ) (k : PqcKeys) (p p' : P) (q : Secret)
          → p.sock.writes ≡ []
          → line_quantum ssl oqs json realloc_ok srv_pub (some k) p ≡ (some q, p')
          → Unsealed srv_pub k p q p'
      unfolding line_quantum
      line_quantum-Unsealed srv_pub k p p' q whole h =
          let reply = key_reply ssl oqs json realloc_ok srv_pub k in
          >>=-cases (attempt (send_json ssl oqs json realloc_ok reply))
            (λ _sent. open_ciphertext ssl oqs json realloc_ok k) p h
            λ r p1 e1 f1.
              open_ciphertext-Unsealed srv_pub k p p1 p' q
                (attempt-send_json-Talk ssl oqs json realloc_ok J reply p p1 r whole e1) f1
