-- ===== src/First/Served.antt =====
-- A run of `handle_client_lines` (c/server.c) from its first line to its last one.
use mathlib.Core.Path.{subst}
use mathlib.Core.List.{append_assoc, append-nil}
use hybrid_pqc_benchmarking.Prelude.{
  ℕ, ◌≡◌, ◌≢◌, refl, ap, sym, ◌∙◌, Bool, true, Option, some, List, [], ◌++◌, All,
}
use hybrid_pqc_benchmarking.Prelude.Int.{negsuc}
use hybrid_pqc_benchmarking.Act.{>>=-cases, require-eq-some, attempt, require, pure}
use hybrid_pqc_benchmarking.External.{Openssl, Liboqs, Blake3, Cjson}
use hybrid_pqc_benchmarking.Algo.{AlgoCombo, is_hybrid}
use hybrid_pqc_benchmarking.Handshake.{Secret, Session, Party, on_ec, key_material}
use hybrid_pqc_benchmarking.Handshake.Encaps.{PqcKeys}
use hybrid_pqc_benchmarking.Handshake.Server.{Classical}
use hybrid_pqc_benchmarking.Handshake.Json.{
  c_string, json_get_str, json_get_int, json_salt, recv_json, send_json, json_session_key,
}
use hybrid_pqc_benchmarking.Handshake.Streams.{on_ec-eq-some, some_fst}
use hybrid_pqc_benchmarking.Handshake.Hybrid.ServerSide.{Generated}
use hybrid_pqc_benchmarking.First.Table.{first_combo_by_id}
use hybrid_pqc_benchmarking.First.Server.{
  wants_blake3, key_reply, line_quantum, finished_line, exchange_keys, server_result, serve_combo,
  handle_client_lines,
}
use hybrid_pqc_benchmarking.First.Lines.{
  IsLawfulCjson, line, Talk, Talk-quiet, Talk-trans, recv_json-Talk, attempt-send_json-Talk,
}
use hybrid_pqc_benchmarking.First.ServerRun.{
  Agreed, exchange_keys-Agreed, Unsealed, line_quantum-Unsealed,
}

regroup : (a b c : List ℕ) → (a ++ b) ++ c ≡ a ++ (b ++ c)
regroup a b c = append_assoc a b c

module _ (ssl : Openssl) (oqs : Liboqs) (json : Cjson) (realloc_ok : ℕ → Bool)
    (J : IsLawfulCjson json) where
  abbrev P : Type 0
  P = Party ssl oqs

  -- A hybrid handshake behind its first line.
  pub record Swapped (b3 : Blake3) (combo : AlgoCombo) (is_blake3 : Bool) (salt : Option (List ℕ))
      (p : P) (session : Session) (p' : P) : Type 0 where
    pub keys : PqcKeys
    pub generated : Generated ssl oqs combo.pqc_name keys
    pub p1 : P
    pub p2 : P
    pub p3 : P
    pub classical : Classical
    pub agreed : Agreed ssl oqs json realloc_ok combo p1 classical p2
    pub quantum : Secret
    pub unsealed : Unsealed ssl oqs json realloc_ok J classical.srv_pub keys p2 quantum p3
    pub inbox : p.sock.inbox ≡ line agreed.text ++ (line unsealed.text ++ p3.sock.inbox)
    pub outbox :
        p'.sock.outbox
        ≡ p.sock.outbox
          ++ (line (J.printed (key_reply ssl oqs json realloc_ok classical.srv_pub keys))
              ++ line (J.printed (finished_line ssl oqs json realloc_ok)))
    pub v0 : ssl.World
    pub v1 : ssl.World
    pub same_combo : session.combo ≡ combo
    pub same_kdf : session.is_blake3 ≡ is_blake3
    pub same_quantum : session.quantum ≡ quantum
    pub material : session.ikm ≡ key_material ssl classical.secret quantum
    pub key :
        json_session_key ssl b3 combo is_blake3 salt session.ikm v0 ≡ (some session.session_key, v1)

  pub serve_combo-Swapped :
      (b3 : Blake3) (spawned : Bool) (combo : AlgoCombo) (is_blake3 : Bool) (salt : Option (List ℕ))
      (p p' : P) (session : Session)
      → is_hybrid combo.profile ≡ true
      → p.sock.writes ≡ []
      → serve_combo ssl oqs json realloc_ok b3 spawned combo is_blake3 salt p ≡ (some session, p')
      → Swapped b3 combo is_blake3 salt p session p'
  unfolding serve_combo
  serve_combo-Swapped b3 spawned combo is_blake3 salt p p' session hy whole h =
      >>=-cases (exchange_keys ssl oqs json realloc_ok spawned combo) _ p h λ pair p2 e2 f2.
        let (c, o) = pair in
        >>=-cases (line_quantum ssl oqs json realloc_ok c.srv_pub o) _ p2 f2 λ q p3 e3 f3.
          let derive = json_session_key ssl b3 combo is_blake3 salt (key_material ssl c.secret q) in
          >>=-cases (on_ec ssl oqs derive) _ p3 f3 λ key p4 e4 f4.
            let made = server_result ssl oqs json realloc_ok combo is_blake3 c.secret q key in
            let last = finished_line ssl oqs json realloc_ok in
            >>=-cases (attempt (send_json ssl oqs json realloc_ok last)) (λ _sent. pure made) p4 f4
              λ r p5 e5 f5.
                let (k, p1, has, generated, s1, agreed) =
                  exchange_keys-Agreed ssl oqs json realloc_ok spawned combo p p2 c o hy e2 in
                let reply = line (J.printed (key_reply ssl oqs json realloc_ok c.srv_pub k)) in
                let t2 = Talk-trans (Talk-quiet s1) agreed.talk in
                let unsealed =
                  line_quantum-Unsealed ssl oqs json realloc_ok J c.srv_pub k p2 p3 q
                    (t2.whole whole)
                    (subst (λ z. line_quantum ssl oqs json realloc_ok c.srv_pub z p2 ≡ (some q, p3))
                      has e3) in
                let t3 = Talk-trans t2 unsealed.talk in
                let (run, s4) = on_ec-eq-some ssl oqs derive p3 p4 key e4 in
                let t4 = Talk-trans t3 (Talk-quiet s4) in
                let t5 =
                  attempt-send_json-Talk ssl oqs json realloc_ok J last p4 p5 r (t4.whole whole)
                    e5 in
                let (same, s6) = some_fst made session p5 p' f5 in
                subst (λ z. Swapped b3 combo is_blake3 salt p z p') same
                  (record {
                    keys = k;
                    generated = generated;
                    p1 = p1;
                    p2 = p2;
                    p3 = p3;
                    classical = c;
                    agreed = agreed;
                    quantum = q;
                    unsealed = unsealed;
                    inbox =
                        t3.inbox ∙ regroup (line agreed.text) (line unsealed.text) p3.sock.inbox;
                    outbox =
                        ap (λ (z : P). z.sock.outbox) (sym s6)
                        ∙ ((Talk-trans t4 t5).outbox
                            ∙ ap (λ z. p.sock.outbox ++ z) (tidy reply (line (J.printed last))));
                    v0 = p3.ec;
                    v1 = p4.ec;
                    same_combo = refl;
                    same_kdf = refl;
                    same_quantum = refl;
                    material = refl;
                    key = run;
                  })
    where
      tidy : (a b : List ℕ) → (a ++ []) ++ b ≡ a ++ b
      tidy a b = ap (λ z. z ++ b) (append-nil a)

  -- A run from its first line on.
  pub record Asked (b3 : Blake3) (freed freed_later : List ℕ → List ℕ) (spawned : Bool) (p : P)
      (session : Session) (p' : P) : Type 0 where
    pub sel : json.Object
    pub text : List ℕ
    pub plain : All (λ b. b ≢ b'\n') text
    pub parsed : json.parse (c_string text) ≡ some sel
    pub combo : AlgoCombo
    pub known : first_combo_by_id (json_get_int json sel "combo_id" (negsuc 0)) ≡ some combo
    pub p1 : P
    pub talk : Talk p.sock (line text) [] p1.sock
    pub served :
        serve_combo ssl oqs json realloc_ok b3 spawned combo
          (wants_blake3 freed_later (json_get_str json sel "kdf_type"))
          (json_salt ssl freed (json_get_str json sel "salt"))
          p1
        ≡ (some session, p')

  pub handle_client_lines-Asked :
      (b3 : Blake3) (freed freed_later : List ℕ → List ℕ) (spawned : Bool) (p p' : P)
      (session : Session)
      → handle_client_lines ssl oqs json realloc_ok b3 freed freed_later spawned p
        ≡ (some session, p')
      → Asked b3 freed freed_later spawned p session p'
  unfolding handle_client_lines
  handle_client_lines-Asked b3 freed freed_later spawned p p' session h =
      >>=-cases (recv_json ssl oqs json realloc_ok) _ p h λ sel p1 e1 f1.
        let asked = first_combo_by_id (json_get_int json sel "combo_id" (negsuc 0)) in
        >>=-cases (require asked) _ p1 f1 λ combo p2 e2 f2.
          let (text, talk, plain, parsed) = recv_json-Talk ssl oqs json realloc_ok p p1 sel e1 in
          let (known, s2) = require-eq-some asked p1 e2 in
          record {
            sel = sel;
            text = text;
            plain = plain;
            parsed = parsed;
            combo = combo;
            known = known;
            p1 = p2;
            talk = subst (λ (z : P). Talk p.sock (line text) [] z.sock) (sym s2) talk;
            served = f2;
          }
