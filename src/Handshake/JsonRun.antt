-- ===== src/Handshake/JsonRun.antt =====
-- What a successful run of the JSON protocol (`handle_client` of c_dispatch/server.c) has made.
use hybrid_pqc_benchmarking.Prelude.{ℕ, ◌≡◌, Bool, true, Option, some, List, codes}
use hybrid_pqc_benchmarking.Prelude.Int.{negsuc}
use hybrid_pqc_benchmarking.Act.{Act}
use hybrid_pqc_benchmarking.External.{Openssl, Liboqs, Blake3, Cjson}
use hybrid_pqc_benchmarking.Algo.{get_combo_by_id, is_pure_classical, is_pure_quantum}
use hybrid_pqc_benchmarking.Handshake.{no_secret, Session, Party, key_material}
use hybrid_pqc_benchmarking.Handshake.Encaps.{PqcKeys}
use hybrid_pqc_benchmarking.Handshake.JsonParts.{JsonClassical, JsonQuantum}
use hybrid_pqc_benchmarking.Handshake.KeyDerivation.{DerivedKey}
use hybrid_pqc_benchmarking.Handshake.Json.{
  bytes_eq, kdf_buf, json_get_str, json_get_int, json_salt, recv_json, send_json,
}

module _ (ssl : Openssl) (oqs : Liboqs) (b3 : Blake3) (json : Cjson) (freed : List ℕ → List ℕ)
    (realloc_ok : ℕ → Bool) (elapsed_ms : json.Number) where
  abbrev P : Type 0
  P = Party ssl oqs

  abbrev receive : Act P json.Object
  receive = recv_json ssl oqs json realloc_ok

  abbrev sending : json.Object → Act P (Unit {0})
  sending = send_json ssl oqs json realloc_ok

  -- What the first line asked for, and what the session is made of.
  pub record Agreed (sel : json.Object) (session : Session) : Type 0 where
    pub known : get_combo_by_id (json_get_int json sel "combo_id" (negsuc 0)) ≡ some session.combo
    pub no_kem : is_pure_classical session.combo.profile ≡ true → session.quantum ≡ no_secret
    pub no_ecdh : is_pure_quantum session.combo.profile ≡ true → session.classical ≡ no_secret
    pub srv_pub : List ℕ
    pub keys : Option PqcKeys
    pub classical_part :
        JsonClassical ssl oqs b3 json freed realloc_ok elapsed_ms session.combo
          (record { srv_pub = srv_pub; secret = session.classical })
    pub quantum_part : JsonQuantum ssl oqs b3 json freed realloc_ok elapsed_ms keys session.quantum
    pub key :
        DerivedKey ssl b3 session.combo
          (json_salt ssl freed (json_get_str json sel "salt"))
          (key_material ssl session.classical session.quantum)
          (bytes_eq (kdf_buf (json_get_str json sel "kdf_type")) (codes "blake3"))
          session.session_key
