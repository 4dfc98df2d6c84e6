-- ===== src/Handshake/Json.antt =====
-- c_dispatch/server.c: the JSON protocol of `handle_client`, with the accessors and the Base64
-- encoding of c_dispatch/src/network_utils.c.
use hybrid_pqc_benchmarking.Prelude.{
  ℕ, zero, suc, ◌==◌, ltb, Bool, true, false, ◌&&◌, ◌||◌, Option, none, some, String, List, [], ◌∷◌,
  if◌then◌else◌, length, take, codes,
}
use hybrid_pqc_benchmarking.Prelude.Int.{ℤ, negsuc}
use hybrid_pqc_benchmarking.Act.{Act, ◌>>=◌, ◌>>◌, pure, guard, require, attempt}
use hybrid_pqc_benchmarking.External.{
  Openssl, Liboqs, Blake3, OqsKem, Cjson, JsonItem, json_string, json_number,
}
use hybrid_pqc_benchmarking.Algo.{AlgoCombo, get_combo_by_id, is_hybrid, is_pure_classical}
use hybrid_pqc_benchmarking.Crypto.{crypto_generate_keypair, crypto_hkdf_sha256, crypto_blake3_kdf}
use hybrid_pqc_benchmarking.Dispatch.{route_sequential, route_name}
use hybrid_pqc_benchmarking.Net.{recv_line, send_line}
use hybrid_pqc_benchmarking.Handshake.{
  Secret, no_secret, Session, Party, put_sock, reported, on_ec, on_kem, max_pub_key_bytes,
  export_pub, classical_secret, key_material,
}
use hybrid_pqc_benchmarking.Handshake.Encaps.{PqcKeys, b64_decode, stored_secret}
use hybrid_pqc_benchmarking.Handshake.Server.{
  DispatchMode, dmode_auto, dmode_force_sequential, dmode_force_parallel, dmode_str, Classical,
  server_keygen,
}

-- `strcmp(a, b) == 0` on texts without a NUL.
abbrev pub bytes_eq : List ℕ → List ℕ → Bool
bytes_eq [] [] = true
bytes_eq (x ∷ xs) (y ∷ ys) = (x == y) && bytes_eq xs ys
bytes_eq _ _ = false

-- The text that C reads from a buffer: up to the first NUL.
abbrev pub c_string : List ℕ → List ℕ
c_string [] = []
c_string (zero ∷ bs) = []
c_string (suc b ∷ bs) = suc b ∷ c_string bs

unfoldable pub parse_dispatch_mode : Option (List ℕ) → DispatchMode
parse_dispatch_mode none = dmode_auto
parse_dispatch_mode (some mode) =
    if bytes_eq mode (codes "sequential")
    then dmode_force_sequential
    else if bytes_eq mode (codes "parallel")
    then dmode_force_parallel
    else dmode_auto

-- At most 15 bytes are copied out; without the field, the text that the buffer starts with.
unfoldable pub kdf_buf : Option (List ℕ) → List ℕ
kdf_buf none = codes "sha256"
kdf_buf (some kdf_type) = take 15 kdf_type

unfoldable pub b64_encode : (ssl : Openssl) → List ℕ → Option (List ℕ)
b64_encode ssl src = ssl.bio_b64_write src

module _ (json : Cjson) where
  abbrev text_of : Option JsonItem → Option (List ℕ)
  text_of (some (json_string text)) = some text
  text_of _ = none

  unfoldable pub json_get_str : json.Object → String → Option (List ℕ)
  json_get_str obj key = text_of (json.get_object_item obj key)

  abbrev int_of : ℤ → Option JsonItem → ℤ
  int_of def (some (json_number n)) = n
  int_of def _ = def

  unfoldable pub json_get_int : json.Object → String → ℤ → ℤ
  json_get_int obj key def = int_of def (json.get_object_item obj key)

  -- Adding NULL adds nothing.
  abbrev pub add_text : json.Object → String → Option (List ℕ) → json.Object
  add_text obj key none = obj
  add_text obj key (some text) = json.add_string obj key text

module _ (ssl : Openssl) (oqs : Liboqs) (json : Cjson) (realloc_ok : ℕ → Bool) where
  unfoldable pub recv_json : Act (Party ssl oqs) json.Object
  recv_json = do
    line ← λ p. put_sock ssl oqs p (recv_line realloc_ok p.sock)
    require (json.parse (c_string line.bytes))

  unfoldable pub send_json : json.Object → Act (Party ssl oqs) (Unit {0})
  send_json obj = do
    text ← require (json.print_unformatted obj)
    λ p. put_sock ssl oqs p (reported ssl oqs (send_line text p.sock))

-- NULL stands for a salt that is missing, empty or not Base64.
abbrev used_salt : Option (List ℕ) → Option (List ℕ)
used_salt (some (s ∷ ss)) = some (s ∷ ss)
used_salt _ = none

-- The salt's text is read after the object that it belongs to has been deleted: `freed` is what
-- the memory of a text reads as once it has been released.
unfoldable pub json_salt : (ssl : Openssl) → (List ℕ → List ℕ) → Option (List ℕ) → Option (List ℕ)
json_salt ssl freed none = none
json_salt ssl freed (some salt_b64) = used_salt (b64_decode ssl (some (freed salt_b64)) 128)

unfoldable pub json_session_key :
    (ssl : Openssl)
    → Blake3
    → AlgoCombo
    → Bool
    → Option (List ℕ)
    → List ℕ
    → Act ssl.World (Option (List ℕ))
json_session_key ssl b3 combo is_blake3 salt ikm =
    if is_blake3
    then pure (some (crypto_blake3_kdf b3 ikm (codes combo.info)))
    else attempt (crypto_hkdf_sha256 ssl ikm salt (codes combo.info))

-- The buffer after `OQS_KEM_decaps`, whose result is not looked at.
abbrev pub decaps_buffer : (oqs : Liboqs) → OqsKem → Option (List ℕ) → List ℕ
decaps_buffer oqs kem none = oqs.fresh kem.length_shared_secret
decaps_buffer oqs kem (some ss) = ss

-- `freed` is as above; `realloc_ok` says which sizes `realloc` can give; `elapsed_ms` is the time
-- taken.
module _ (ssl : Openssl) (oqs : Liboqs) (b3 : Blake3) (json : Cjson) (freed : List ℕ → List ℕ)
    (realloc_ok : ℕ → Bool) (elapsed_ms : json.Number) where
  abbrev S : Type 0
  S = Party ssl oqs

  unfoldable pub json_classical : AlgoCombo → Act S Classical
  json_classical combo =
      if is_hybrid combo.profile || is_pure_classical combo.profile
      then (do
        hello ← recv_json ssl oqs json realloc_ok
        cli_pub ← require (b64_decode ssl (json_get_str json hello "c_pub") max_pub_key_bytes)
        guard (ltb 0 (length cli_pub))
        srv_priv ← on_ec ssl oqs (crypto_generate_keypair ssl combo.classical_curve)
        c ← on_ec ssl oqs (classical_secret ssl combo.classical_curve srv_priv cli_pub)
        pure (record { srv_pub = export_pub ssl combo.classical_curve srv_priv; secret = c }))
      else pure (record { srv_pub = []; secret = no_secret })

  -- The server always computes sequentially.
  abbrev route_text : List ℕ
  route_text = codes (route_name route_sequential)

  unfoldable pub quantum_reply : List ℕ → PqcKeys → json.Object
  quantum_reply srv_pub keys =
      let c_pub = if ltb 0 (length srv_pub) then b64_encode ssl srv_pub else none in
      let resp = add_text json json.create_object "c_pub" c_pub in
      let resp' = add_text json resp "q_pk" (b64_encode ssl keys.q_pk) in
      json.add_string resp' "dispatch_route" route_text

  unfoldable pub classical_reply : List ℕ → json.Object
  classical_reply srv_pub =
      json.add_string (add_text json json.create_object "c_pub" (b64_encode ssl srv_pub))
        "dispatch_route" route_text

  abbrev pub json_decaps : PqcKeys → Option (List ℕ) → Act S Secret
  json_decaps keys none = pure no_secret
  json_decaps keys (some ct) =
      if length ct == keys.kem.length_ciphertext
      then (do
        _ss ← attempt (on_kem ssl oqs (oqs.malloc keys.kem.length_shared_secret))
        r ← attempt (on_kem ssl oqs (oqs.decaps keys.kem ct keys.q_sk))
        pure (stored_secret (decaps_buffer oqs keys.kem r) keys.kem.length_shared_secret))
      else pure no_secret

  -- A reply that cannot be sent is not noticed.
  unfoldable pub json_quantum : List ℕ → Option PqcKeys → Act S Secret
  json_quantum srv_pub none = do
    _sent ← attempt (send_json ssl oqs json realloc_ok (classical_reply srv_pub))
    pure no_secret
  json_quantum srv_pub (some keys) = do
    _sent ← attempt (send_json ssl oqs json realloc_ok (quantum_reply srv_pub keys))
    ct_msg ← recv_json ssl oqs json realloc_ok
    _ct ← attempt (on_kem ssl oqs (oqs.malloc keys.kem.length_ciphertext))
    json_decaps keys (b64_decode ssl (json_get_str json ct_msg "ct") keys.kem.length_ciphertext)

  unfoldable pub finished_object : DispatchMode → json.Object
  finished_object dmode =
      let o1 = json.add_string json.create_object "type" (codes "ServerFinished") in
      let o2 = json.add_string o1 "status" (codes "success") in
      let o3 = json.add_string o2 "dispatch_route" route_text in
      let o4 = json.add_string o3 "dispatch_mode" (codes (dmode_str dmode)) in
      json.add_number o4 "server_crypto_ms" elapsed_ms

  -- From the first line on.
  unfoldable pub handle_client_json : Act S Session
  handle_client_json = do
    sel ← recv_json ssl oqs json realloc_ok
    let is_blake3 = bytes_eq (kdf_buf (json_get_str json sel "kdf_type")) (codes "blake3")
    let dmode = parse_dispatch_mode (json_get_str json sel "dispatch_mode")
    combo ← require (get_combo_by_id (json_get_int json sel "combo_id" (negsuc 0)))
    keys ← server_keygen ssl oqs combo
    classical ← json_classical combo
    quantum ← json_quantum classical.srv_pub keys
    let ikm = key_material ssl classical.secret quantum
    key ← on_ec ssl oqs (
        json_session_key ssl b3 combo is_blake3 (json_salt ssl freed (json_get_str json sel "salt"))
          ikm)
    _sent ← attempt (send_json ssl oqs json realloc_ok (finished_object dmode))
    pure (record {
      combo = combo;
      is_blake3 = is_blake3;
      classical = classical.secret;
      quantum = quantum;
      ikm = ikm;
      session_key = key;
    })
