-- ===== src/First/Agreement.antt =====
-- The programs of c/client.c and c/server.c at the two ends of a connection hold the same keys.
use mathlib.Core.Path.{subst}
use mathlib.Core.List.{append-nil}
use hybrid_pqc_benchmarking.Prelude.{
  ℕ, ◌≤◌, ◌≡◌, refl, ap, sym, ◌∙◌, Bool, true, ltb, ltb→lt, str_eq, Option, some, String, List, [],
  ◌++◌, length, take, codes, Bool-cases, ◌⊎◌, inl, inr, arith,
}
use hybrid_pqc_benchmarking.Prelude.Int.{pos}
use hybrid_pqc_benchmarking.External.{
  Openssl, IsLawfulOpenssl, Liboqs, IsLawfulLiboqs, Blake3, Cjson,
}
use hybrid_pqc_benchmarking.Algo.{AlgoCombo, is_hybrid}
use hybrid_pqc_benchmarking.Handshake.{
  Secret, no_secret, Session, Party, export_pub, classical_secret, key_material,
}
use hybrid_pqc_benchmarking.Handshake.Encaps.{b64_decode, stored_secret, PqcKeys}
use hybrid_pqc_benchmarking.Handshake.Json.{bytes_eq, c_string, json_get_str, json_salt}
use hybrid_pqc_benchmarking.Handshake.KeyDerivation.{DerivedKey, json_session_key-DerivedKey}
use hybrid_pqc_benchmarking.Handshake.Agreement.{key_material-same, classical_secret-agreed}
use hybrid_pqc_benchmarking.Handshake.Hybrid.Agreement.{length-export_pub, found_inj}
use hybrid_pqc_benchmarking.First.Table.{first_combo_by_id}
use hybrid_pqc_benchmarking.First.Server.{
  wants_blake3, opened_secret, key_reply, finished_line, serve_combo, handle_client_lines,
}
use hybrid_pqc_benchmarking.First.Client.{
  client_salt, decoded, profile_select, client_hello, ciphertext_line, line_handshake,
}
use hybrid_pqc_benchmarking.First.Lines.{IsLawfulBase64, IsLawfulCjson, line, b64_decode-encoded}
use hybrid_pqc_benchmarking.First.ClientRun.{Ran, line_handshake-Ran}
use hybrid_pqc_benchmarking.First.Served.{
  Swapped, serve_combo-Swapped, Asked, handle_client_lines-Asked,
}
use hybrid_pqc_benchmarking.First.Messages.{
  client_hello-c_pub, ciphertext_line-ct, key_reply-keys, key_reply-no_c_pub,
  profile_select-Selected,
}
use hybrid_pqc_benchmarking.First.Parts.{
  head_line, strict_export-eq, strict_secret-ok, known_kdf, wants_blake3-same, sent_salt,
  sent_salt-same, Opened-secret,
}

module _ (ssl : Openssl) (L : IsLawfulOpenssl ssl) (B : IsLawfulBase64 ssl) (oqs : Liboqs)
    (Q : IsLawfulLiboqs oqs) (json : Cjson) (J : IsLawfulCjson json) (realloc_ok : ℕ → Bool)
    (b3 : Blake3) where
  abbrev P : Type 0
  P = Party ssl oqs

  no_bytes :
      (w w' : ssl.World) (c : Secret)
      → ◌≡◌ {A = Option Secret × ssl.World} (some no_secret, w) (some c, w')
      → ¬ (c.is_ok ≡ true)
  no_bytes w w' c h ok = ground arith

  -- What the client derives from the key in the reply.
  reply_secret :
      (combo : AlgoCombo) (own srv : ssl.Pkey) (bytes text : List ℕ) (k : PqcKeys)
      (resp : json.Object) (w w' : ssl.World) (c : Secret)
      → export_pub ssl combo.classical_curve srv ≡ bytes
      → text ≡ J.printed (key_reply ssl oqs json realloc_ok bytes k)
      → json.parse (c_string text) ≡ some resp
      → classical_secret ssl combo.classical_curve own
          (decoded (b64_decode ssl (json_get_str json resp "c_pub") 300))
          w
        ≡ (some c, w')
      → c.is_ok ≡ true
      → (classical_secret ssl combo.classical_curve own (export_pub ssl combo.classical_curve srv) w
          ≡ (some c, w'))
        × (json_get_str json resp "q_pk" ≡ some (B.encoded k.q_pk))
  unfolding classical_secret b64_decode
  reply_secret combo own srv bytes text k resp w w' c e t parsed h ok =
      let curve = combo.classical_curve in
      elim (Bool-cases (ltb 0 (length bytes))) [
        | inl l ↦
            let (c_pub, q_pk) =
              key_reply-keys ssl json B J oqs realloc_ok bytes text k resp
                (ltb→lt 0 (length bytes) l) t parsed in
            let size : length bytes ≤ 120 =
              subst (λ z. length z ≤ 120) e (length-export_pub ssl L curve srv) in
            let read = b64_decode-encoded B bytes 300 (omega arith) in
            (rw e (rw (c_pub, read) at h), q_pk)
        | inr l ↦
            let missing =
              key_reply-no_c_pub ssl json B J oqs realloc_ok bytes text k resp l t parsed in
            absurd (no_bytes w w' c (rw missing at h) ok)
      ]

  -- The keys of two runs whose lines are each other's.
  sessions_agree :
      (combo : AlgoCombo) (kdf_type : String) (asked : Bool) (salt : Option (List ℕ)) (p p' : P)
      (sc : Session) (q q' : P) (ss : Session)
      (x : Ran ssl oqs json realloc_ok J b3 combo kdf_type p sc p')
      (s : Swapped ssl oqs json realloc_ok J b3 combo asked salt q ss q')
      → s.agreed.text
        ≡ J.printed (client_hello ssl json (export_pub ssl combo.classical_curve x.own))
      → s.unsealed.text ≡ J.printed (ciphertext_line ssl json x.shared.made.ct)
      → x.text ≡ J.printed (key_reply ssl oqs json realloc_ok s.classical.srv_pub s.keys)
      → sc.classical.is_ok ≡ true
      → ss.quantum.is_ok ≡ true
      → (ss.combo ≡ combo)
        × (sc.ikm ≡ ss.ikm)
        × DerivedKey ssl b3 combo
            (client_salt combo kdf_type)
            sc.ikm
            (str_eq kdf_type "blake3")
            sc.session_key
        × DerivedKey ssl b3 combo salt ss.ikm asked ss.session_key
  unfolding key_material
  sessions_agree combo kdf_type asked salt p p' sc q q' ss x s e2 e3 e4 c_ok q_ok =
      let curve = combo.classical_curve in
      let pub_bytes = export_pub ssl curve x.own in
      let c = x.secrets.classical in
      let c' = s.classical.secret in
      let made = x.shared.made in
      let len = s.keys.kem.length_shared_secret in
      let c_pub =
        client_hello-c_pub ssl json B J pub_bytes s.agreed.text s.agreed.hello e2 s.agreed.parsed in
      let size = length-export_pub ssl L curve x.own in
      let cli_same : pub_bytes ≡ s.agreed.cli_pub =
        found_inj (b64_decode-encoded B pub_bytes 300 (omega arith)) (rw c_pub at s.agreed.found) in
      let (srv, srv_ok) =
        strict_secret-ok ssl curve s.agreed.own s.agreed.cli_pub s.agreed.v0 s.agreed.v1 c'
          s.agreed.some_bytes s.agreed.derived in
      let c_ok' = ap (λ (z : Secret). z.is_ok) (sym x.classical) ∙ c_ok in
      let (cli, q_pk) =
        reply_secret combo x.own s.agreed.own s.classical.srv_pub x.text s.keys x.resp x.shared.v0
          x.shared.v1 c
          (strict_export-eq ssl curve s.agreed.own s.classical.srv_pub s.agreed.exported) e4
          x.parsed x.shared.derived c_ok' in
      let classical : take c.len c.bytes ≡ take c'.len c'.bytes =
        classical_secret-agreed ssl L curve x.own s.agreed.own x.shared.v0 x.shared.v1 c cli c_ok'
        ∙ (L.agreed_comm x.own s.agreed.own
            ∙ sym (
                classical_secret-agreed ssl L curve s.agreed.own x.own s.agreed.v0 s.agreed.v1 c'
                  (subst
                    (λ z.
                      classical_secret ssl curve s.agreed.own z s.agreed.v0
                      ≡ (some c', s.agreed.v1))
                    (sym cli_same) srv)
                  srv_ok)) in
      let ct =
        ciphertext_line-ct ssl json B J made.ct s.unsealed.text s.unsealed.ct_msg e3
          s.unsealed.parsed in
      let opened_ok =
        ap (λ (z : Secret). z.is_ok) (sym (s.same_quantum ∙ s.unsealed.secret)) ∙ q_ok in
      let (secret, size') =
        Opened-secret ssl oqs B Q combo.pqc_name s.keys x.shared.text s.unsealed.ct made
          s.unsealed.ss s.unsealed.u0 s.unsealed.u1 s.generated x.shared.opened
          (found_inj x.shared.found q_pk) (rw ct at s.unsealed.found) s.unsealed.opened opened_ok in
      let own_quantum : x.secrets.quantum ≡ stored_secret made.ss len =
        x.shared.quantum ∙ ap (stored_secret made.ss) size' in
      let their_quantum : s.quantum ≡ opened_secret ssl oqs s.keys (some made.ss) =
        s.unsealed.secret ∙ ap (opened_secret ssl oqs s.keys) secret in
      let ikm : sc.ikm ≡ ss.ikm =
        x.material
        ∙ (ap (key_material ssl c) own_quantum
            ∙ (key_material-same ssl c c' made.ss made.ss len classical refl
                ∙ (sym (ap (key_material ssl c') their_quantum) ∙ sym s.material))) in
      (
        s.same_combo,
        ikm,
        json_session_key-DerivedKey ssl b3 combo (str_eq kdf_type "blake3")
            (client_salt combo kdf_type) sc.ikm x.v0 x.v1 sc.session_key x.key,
        json_session_key-DerivedKey ssl b3 combo asked salt ss.ikm s.v0 s.v1 ss.session_key s.key,
      )

  -- The lines of both sides, matched.
  lines_agree :
      (combo : AlgoCombo) (kdf_type : String) (freed freed_later : List ℕ → List ℕ) (spawned : Bool)
      (p p' : P) (sc : Session) (q q' : P) (ss : Session)
      → is_hybrid combo.profile ≡ true
      → first_combo_by_id (pos combo.id) ≡ some combo
      → (kdf_type ≡ "sha256") ⊎ (kdf_type ≡ "blake3")
      → p.sock.outbox ≡ []
      → q.sock.outbox ≡ []
      → q.sock.writes ≡ []
      → q.sock.inbox ≡ p'.sock.outbox
      → p.sock.inbox ≡ q'.sock.outbox
      → Ran ssl oqs json realloc_ok J b3 combo kdf_type p sc p'
      → Asked ssl oqs json realloc_ok J b3 freed freed_later spawned q ss q'
      → sc.classical.is_ok ≡ true
      → ss.quantum.is_ok ≡ true
      → (ss.combo ≡ combo)
        × (sc.ikm ≡ ss.ikm)
        × DerivedKey ssl b3 combo
            (client_salt combo kdf_type)
            sc.ikm
            (str_eq kdf_type "blake3")
            sc.session_key
        × DerivedKey ssl b3 combo
            (json_salt ssl freed (sent_salt B combo kdf_type))
            ss.ikm
            (bytes_eq (freed_later (codes kdf_type)) (codes "blake3"))
            ss.session_key
  lines_agree combo kdf_type freed freed_later spawned p p' sc q q' ss hy found kdf p_new q_new
        q_whole up down x a c_ok q_ok =
      let curve = combo.classical_curve in
      let pub_bytes = export_pub ssl curve x.own in
      let select = profile_select ssl json combo kdf_type in
      let hello = client_hello ssl json pub_bytes in
      let ct_line = ciphertext_line ssl json x.shared.made.ct in
      let kdf_text = known_kdf kdf_type kdf in
      let written : p'.sock.outbox
          ≡ line (J.printed select) ++ (line (J.printed hello) ++ line (J.printed ct_line)) =
        x.outbox
        ∙ ap
            (λ z.
              z
              ++ (line (J.printed select) ++ (line (J.printed hello) ++ line (J.printed ct_line))))
            p_new in
      let (e1, r1) =
        head_line a.text (J.printed select) a.p1.sock.inbox _ a.plain (J.one_line select)
          (sym a.talk.inbox ∙ (up ∙ written)) in
      let sel =
        profile_select-Selected ssl json B J combo kdf_type a.text a.sel kdf_text e1 a.parsed in
      let same_combo : a.combo ≡ combo = found_inj a.known (ap first_combo_by_id sel.id ∙ found) in
      let kdf_same =
        wants_blake3-same freed_later kdf_type (json_get_str json a.sel "kdf_type") sel.kdf in
      let salt_same = ap (json_salt ssl freed) (
        sent_salt-same ssl B combo kdf_type (json_get_str json a.sel "salt") sel.salt
          sel.no_salt) in
      let asked' = wants_blake3 freed_later (json_get_str json a.sel "kdf_type") in
      let salt' = json_salt ssl freed (json_get_str json a.sel "salt") in
      let asked = bytes_eq (freed_later (codes kdf_type)) (codes "blake3") in
      let salt = json_salt ssl freed (sent_salt B combo kdf_type) in
      let serve = λ (c : AlgoCombo) (b : Bool) (t : Option (List ℕ)).
        serve_combo ssl oqs json realloc_ok b3 spawned c b t a.p1 in
      let served =
        sym (
          ap (λ z. serve z asked' salt') same_combo
          ∙ (ap (λ z. serve combo z salt') kdf_same ∙ ap (serve combo asked) salt_same))
        ∙ a.served in
      let s =
        serve_combo-Swapped ssl oqs json realloc_ok J b3 spawned combo asked salt a.p1 q' ss hy
          (a.talk.whole q_whole) served in
      let (e2, r2) =
        head_line s.agreed.text (J.printed hello) _ (line (J.printed ct_line)) s.agreed.plain
          (J.one_line hello) (sym s.inbox ∙ r1) in
      let (e3, _r3) =
        head_line s.unsealed.text (J.printed ct_line) s.p3.sock.inbox [] s.unsealed.plain
          (J.one_line ct_line) (r2 ∙ sym (append-nil (line (J.printed ct_line)))) in
      let reply = key_reply ssl oqs json realloc_ok s.classical.srv_pub s.keys in
      let last = line (J.printed (finished_line ssl oqs json realloc_ok)) in
      let fresh = a.talk.outbox ∙ (append-nil q.sock.outbox ∙ q_new) in
      let (e4, _r4) = head_line x.text (J.printed reply) x.rest last x.plain (J.one_line reply) (
        sym x.inbox
        ∙ (down ∙ (s.outbox ∙ ap (λ z. z ++ (line (J.printed reply) ++ last)) fresh))) in
      sessions_agree combo kdf_type asked salt p p' sc a.p1 q' ss x s e2 e3 e4 c_ok q_ok

  -- Client and server of the first framework agree on a hybrid session: where a client's
  -- handshake and a server's run end with a session each, at the two ends of one connection (each
  -- has read from what the other has written, and no write is cut short), with one of the two
  -- known key derivations, the server's session is of the client's combination, and both have the
  -- same key material, if the client's ECDH derivation and the decapsulation have succeeded. The
  -- client derives its session key from that material by the derivation that it asks for, with the
  -- salt that it sends; the server does so by the derivation that the released text of the request
  -- reads as, with the salt that the released text of the salt reads as, whatever these are.
  pub line_handshake-agree :
      (connected spawned spawned' : Bool) (combo : AlgoCombo) (kdf_type : String)
      (freed freed_later : List ℕ → List ℕ) (p p' : P) (sc : Session) (q q' : P) (ss : Session)
      → is_hybrid combo.profile ≡ true
      → first_combo_by_id (pos combo.id) ≡ some combo
      → (kdf_type ≡ "sha256") ⊎ (kdf_type ≡ "blake3")
      → p.sock.outbox ≡ []
      → q.sock.outbox ≡ []
      → p.sock.writes ≡ []
      → q.sock.writes ≡ []
      → q.sock.inbox ≡ p'.sock.outbox
      → p.sock.inbox ≡ q'.sock.outbox
      → line_handshake ssl oqs json realloc_ok b3 connected spawned combo kdf_type p ≡ (some sc, p')
      → handle_client_lines ssl oqs json realloc_ok b3 freed freed_later spawned' q ≡ (some ss, q')
      → sc.classical.is_ok ≡ true
      → ss.quantum.is_ok ≡ true
      → (ss.combo ≡ combo)
        × (sc.ikm ≡ ss.ikm)
        × DerivedKey ssl b3 combo
            (client_salt combo kdf_type)
            sc.ikm
            (str_eq kdf_type "blake3")
            sc.session_key
        × DerivedKey ssl b3 combo
            (json_salt ssl freed (sent_salt B combo kdf_type))
            ss.ikm
            (bytes_eq (freed_later (codes kdf_type)) (codes "blake3"))
            ss.session_key
  line_handshake-agree connected spawned spawned' combo kdf_type freed freed_later p p' sc q q' ss
        hy found kdf p_new q_new p_whole q_whole up down h h' =
      lines_agree combo kdf_type freed freed_later spawned' p p' sc q q' ss hy found kdf p_new q_new
        q_whole up down
        (line_handshake-Ran ssl oqs json realloc_ok J b3 connected spawned combo kdf_type p p' sc hy
          p_whole h)
        (handle_client_lines-Asked ssl oqs json realloc_ok J b3 freed freed_later spawned' q q' ss
          h')
