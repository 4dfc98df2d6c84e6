-- ===== src/Tests/Lines.antt =====
-- A handshake of the first framework over concrete libraries, with a JSON whose texts are read back.
use Prim.Native.Char.{code}
use mathlib.Core.Path.{ap₂}
use mathlib.Core.Option.{some-injective}
use text.Mathlib.TextEquality.{eq_iff, Char-path}
use hybrid_pqc_benchmarking.Prelude.{
  ℕ, zero, suc, ◌+◌, ◌-◌, ◌≤◌, ◌≡◌, ◌≢◌, refl, ap, sym, ◌∙◌, Bool, true, false, ◌==◌, ==_refl,
  ==_iff, ◌&&◌, str_eq, Option, none, some, String, List, [], ◌∷◌, ◌++◌, length, take, memcpy,
  zeros, codes, All, if◌then◌else◌, arith, inl, inr, Bool-cases,
}
use hybrid_pqc_benchmarking.Prelude.Int.{pos}
use hybrid_pqc_benchmarking.External.{
  Openssl, IsLawfulOpenssl, Cjson, JsonItem, json_string, json_number, json_other,
}
use hybrid_pqc_benchmarking.Handshake.{
  Party, Session, classical_secret, export_pub, key_material, load_pub,
}
use hybrid_pqc_benchmarking.Handshake.Encaps.{stored_secret, b64_decode, pqc_keygen_worker}
use hybrid_pqc_benchmarking.Handshake.Json.{
  bytes_eq, c_string, b64_encode, json_get_int, json_get_str, json_salt, json_session_key,
  recv_json, send_json,
}
use hybrid_pqc_benchmarking.First.Table.{first_combo_by_id}
use hybrid_pqc_benchmarking.First.Client.{
  line_handshake, ciphertext_line, client_hello, client_salt, encaps_thread, hybrid_exchange,
  line_ecdh, line_encaps_worker, line_secrets, line_session, profile_select, send_hello, use_salt,
}
use hybrid_pqc_benchmarking.First.Server.{
  handle_client_lines, exchange_keys, finished_line, joined_keys, key_reply, keygen_thread,
  line_classical, line_quantum, open_ciphertext, serve_combo, strict_export, strict_secret,
  wants_blake3,
}
use hybrid_pqc_benchmarking.First.Agreement.{line_handshake-agree}
use hybrid_pqc_benchmarking.First.Parts.{sent_salt}
use hybrid_pqc_benchmarking.Handshake.KeyDerivation.{DerivedKey}
use hybrid_pqc_benchmarking.Crypto.{
  crypto_derive_ecdh_secret, crypto_export_ec_pub_der, crypto_generate_keypair, crypto_hkdf_sha256,
  crypto_load_ec_pub_der, derive_filled, derive_ready, derive_setup, derive_sized, hkdf_params,
}
use hybrid_pqc_benchmarking.Net.{grow, recv_line, recv_line_loop, send_line, sys_read, sys_write}
use hybrid_pqc_benchmarking.Engine.{malloc_each}
use hybrid_pqc_benchmarking.Algo.{find_combo}
use hybrid_pqc_benchmarking.First.Lines.{IsLawfulBase64, IsLawfulCjson, line}
use hybrid_pqc_benchmarking.Tests.{ToyState, toy_ssl, toy_ssl-lawful, toy_oqs, toy_oqs-lawful}
use hybrid_pqc_benchmarking.Tests.Handshakes.{toy_b3, kem_secret_bytes, key}
use hybrid_pqc_benchmarking.Tests.Hosts.{p256_combo}

abbrev shift : List ℕ → List ℕ
shift [] = []
shift (x ∷ xs) = suc x ∷ shift xs

abbrev unshift : List ℕ → List ℕ
unshift [] = []
unshift (x ∷ xs) = (x - 1) ∷ unshift xs

unshift-shift : (n : ℕ) (xs : List ℕ) → length xs ≤ n → take n (unshift (shift xs)) ≡ xs
unshift-shift zero [] h = refl
unshift-shift zero (x ∷ xs) h = absurd (omega arith)
unshift-shift (suc n) [] h = refl
unshift-shift (suc n) (x ∷ xs) h =
    ap₂ (λ y z. y ∷ z) (omega arith) (unshift-shift n xs (omega arith))

shift-text : (xs : List ℕ) → c_string (shift xs) ≡ shift xs
shift-text [] = refl
shift-text (x ∷ xs) = ap (λ z. suc x ∷ z) (shift-text xs)

-- Base64 that adds 1 to every byte.
abbrev line_ssl : Openssl
line_ssl = record toy_ssl {
  bio_b64_read = λ text n. some (take n (unshift text));
  bio_b64_write = λ bs. some (shift bs);
}

line_ssl-lawful : IsLawfulOpenssl line_ssl
line_ssl-lawful = record {
  public_of = toy_ssl-lawful.public_of;
  agreed = toy_ssl-lawful.agreed;
  agreed_comm = toy_ssl-lawful.agreed_comm;
  length-agreed = toy_ssl-lawful.length-agreed;
  derive-agreed = toy_ssl-lawful.derive-agreed;
  kdf_derive-same = toy_ssl-lawful.kdf_derive-same;
  raw-public = toy_ssl-lawful.raw-public;
  der-public = toy_ssl-lawful.der-public;
  length-raw = toy_ssl-lawful.length-raw;
  length-der = toy_ssl-lawful.length-der;
}

line_ssl-base64 : IsLawfulBase64 line_ssl
line_ssl-base64 = record {
  encoded = shift;
  writes = λ bs. refl;
  encoded-nil = refl;
  encoded-cons = λ b bs. (suc b, shift bs, refl);
  reads = λ b bs n h. ap some (unshift-shift n (b ∷ bs) h);
  encoded-text = shift-text;
}

-- An object is a name and a value in turn; the text has a byte for every number, and a 1 at the end
-- of a list.
abbrev pub Members : Type 0
Members = List (List ℕ)

abbrev item_of : List ℕ → JsonItem
item_of (zero ∷ text) = json_string text
item_of (suc zero ∷ n ∷ _) = json_number (pos n)
item_of _ = json_other

abbrev member : Members → String → Option JsonItem
member [] name = none
member (k ∷ []) name = none
member (k ∷ v ∷ o) name =
    let rest = member o name in if bytes_eq k (codes name) then some (item_of v) else rest

abbrev print_list : List ℕ → List ℕ → List ℕ
print_list [] rest = 1 ∷ rest
print_list (n ∷ l) rest = (n + 11) ∷ print_list l rest

abbrev pub print_all : Members → List ℕ
print_all [] = []
print_all (l ∷ o) = print_list l (print_all o)

abbrev push : ℕ → Members → Members
push n [] = []
push n (l ∷ o) = (n ∷ l) ∷ o

abbrev pub read_all : List ℕ → Members
read_all [] = []
read_all (b ∷ bs) = let rest = read_all bs in if b == 1 then [] ∷ rest else push (b - 11) rest

above : (n : ℕ) → ((n + 11) == 1) ≡ false
above n = ground arith

back : (n : ℕ) → n + 11 - 11 ≡ n
back n = omega arith

read-print_list : (l bs : List ℕ) → read_all (print_list l bs) ≡ l ∷ read_all bs
read-print_list [] bs = refl
read-print_list (n ∷ l) bs = rw (above n, read-print_list l bs, back n) refl

pub read-print : (o : Members) → read_all (print_all o) ≡ o
read-print [] = refl
read-print (l ∷ o) = read-print_list l (print_all o) ∙ ap (λ z. l ∷ z) (read-print o)

print_list-plain :
    (l bs : List ℕ) → All (λ c. c ≢ b'\n') bs → All (λ c. c ≢ b'\n') (print_list l bs)
print_list-plain [] bs h = (λ e. absurd (ground arith), h)
print_list-plain (n ∷ l) bs h = (λ e. absurd (omega arith), print_list-plain l bs h)

print_all-plain : (o : Members) → All (λ c. c ≢ b'\n') (print_all o)
print_all-plain [] = tt
print_all-plain (l ∷ o) = print_list-plain l (print_all o) (print_all-plain o)

above_text : (n : ℕ) (bs : List ℕ) → c_string ((n + 11) ∷ bs) ≡ (n + 11) ∷ c_string bs
above_text n bs = ground arith

text_list : (l bs : List ℕ) → c_string bs ≡ bs → c_string (print_list l bs) ≡ print_list l bs
text_list [] bs h = ap (λ z. 1 ∷ z) h
text_list (n ∷ l) bs h = above_text n (print_list l bs) ∙ ap (λ z. (n + 11) ∷ z) (text_list l bs h)

text_all : (o : Members) → c_string (print_all o) ≡ print_all o
text_all [] = refl
text_all (l ∷ o) = text_list l (print_all o) (text_all o)

pub bytes_eq_refl : (xs : List ℕ) → bytes_eq xs xs ≡ true
bytes_eq_refl [] = refl
bytes_eq_refl (x ∷ xs) = ground (arith, ==_refl x, bytes_eq_refl xs)

both_true : (a b : Bool) → (a && b) ≡ true → (a ≡ true) × (b ≡ true)
both_true true b h = (refl, h)
both_true false b h = cc

codes-inj : (a b : String) → bytes_eq (codes a) (codes b) ≡ true → a ≡ b
codes-inj String.[] String.[] h = refl
codes-inj String.[] (String.◌∷◌ d t) h = cc
codes-inj (String.◌∷◌ c s) String.[] h = cc
codes-inj (String.◌∷◌ c s) (String.◌∷◌ d t) h =
    let (first, rest) = both_true (code c == code d) (bytes_eq (codes s) (codes t)) h in
    ap₂ (λ x y. String.◌∷◌ x y) (Char-path c d ((==_iff (code c) (code d)).0 first))
      (codes-inj s t rest)

other_name :
    (name other : String) → str_eq name other ≡ false → bytes_eq (codes name) (codes other) ≡ false
other_name name other h = elim (Bool-cases (bytes_eq (codes name) (codes other))) [
  | inl e ↦ absurd (different (sym ((eq_iff name other).1 (codes-inj name other e)) ∙ h))
  | inr e ↦ e
]
  where
    different : ¬ (true ≡ false)
    different e = cc

abbrev line_json : Cjson
line_json = record {
  Object = Members;
  Number = ℕ;
  parse = λ text. some (read_all text);
  get_object_item = member;
  create_object = [];
  add_string = λ o name text. codes name ∷ (0 ∷ text) ∷ o;
  add_number = λ o name n. codes name ∷ (1 ∷ n ∷ []) ∷ o;
  add_null = λ o name. codes name ∷ (2 ∷ []) ∷ o;
  of_int = λ n. n;
  print_unformatted = λ o. some (print_all o);
}

line_json-lawful : IsLawfulCjson line_json
line_json-lawful = record {
  printed = print_all;
  prints = λ o. refl;
  one_line = print_all-plain;
  is_text = text_all;
  parse-printed =
      λ o o' name h. ap (λ z. member z name) (sym (sym (read-print o) ∙ some-injective _ _ h));
  get-create = λ name. refl;
  get-add_string = λ o name text e h. rw (bytes_eq_refl (codes name)) refl;
  get-add_string_other = λ o name other text h. rw (other_name name other h) refl;
  get-add_number = λ o name n e. rw (bytes_eq_refl (codes name)) refl;
  get-add_number_other = λ o name other n h. rw (other_name name other h) refl;
  get-add_null = λ o name e. rw (bytes_eq_refl (codes name)) refl;
  get-add_null_other = λ o name other h. rw (other_name name other h) refl;
}

-- The client's next ECDH key is 11 and the server's is 20; 3 and 5 are the states of their KEMs.
abbrev client_key : ToyState
client_key = record { fresh_key = 11; own = 0; peer = 0 }

abbrev server_key : ToyState
server_key = record { fresh_key = 20; own = 0; peer = 0 }

abbrev server_lines : List ℕ
server_lines =
    line (print_all ((codes "q_pk") ∷ (0 ∷ 6 ∷ 6 ∷ 6 ∷ []) ∷ (codes "c_pub") ∷ (0 ∷ 21 ∷ []) ∷ []))
    ++ line (
        print_all (
          (codes "status")
          ∷ (0 ∷ codes "success")
          ∷ (codes "type")
          ∷ (0 ∷ codes "ServerFinished")
          ∷ []))

abbrev client_lines : List ℕ
client_lines =
    line (
      print_all (
        (codes "salt")
        ∷ (0 ∷ shift (codes "IEICE-Kyoto-Conference-2026"))
        ∷ (codes "kdf_type")
        ∷ (0 ∷ codes "sha256")
        ∷ (codes "combo_id")
        ∷ (1 ∷ 2 ∷ [])
        ∷ (codes "type")
        ∷ (0 ∷ codes "ProfileSelect")
        ∷ []))
    ++ (line (
          print_all
            ((codes "c_pub") ∷ (0 ∷ 12 ∷ []) ∷ (codes "type") ∷ (0 ∷ codes "ClientHello") ∷ []))
        ++ line (
            print_all (
              (codes "ct")
              ∷ (0 ∷ 4 ∷ 4 ∷ 4 ∷ 4 ∷ [])
              ∷ (codes "type")
              ∷ (0 ∷ codes "PQCCiphertext")
              ∷ [])))

abbrev at_client : Party line_ssl toy_oqs
at_client = record {
  sock = record { inbox = server_lines; outbox = []; reads = []; writes = [] };
  ec = client_key;
  kem = 3;
}

abbrev client_done : Party line_ssl toy_oqs
client_done = record {
  sock = record { inbox = []; outbox = client_lines; reads = []; writes = [] };
  ec = record { fresh_key = 12; own = 11; peer = 20 };
  kem = 4;
}

abbrev at_server : Party line_ssl toy_oqs
at_server = record {
  sock = record { inbox = client_lines; outbox = []; reads = []; writes = [] };
  ec = server_key;
  kem = 5;
}

abbrev server_done : Party line_ssl toy_oqs
server_done = record {
  sock = record { inbox = []; outbox = server_lines; reads = []; writes = [] };
  ec = record { fresh_key = 21; own = 20; peer = 11 };
  kem = 6;
}

abbrev line_session_key : Session
line_session_key = record {
  combo = p256_combo;
  is_blake3 = false;
  classical = record { bytes = memcpy (zeros 64) (31 ∷ []); len = 1; is_ok = true };
  quantum = stored_secret kem_secret_bytes 2;
  ikm = 31 ∷ kem_secret_bytes;
  session_key = some key;
}

client_runs :
    line_handshake line_ssl toy_oqs line_json
      (λ n. true)
      toy_b3
      true
      true
      p256_combo
      "sha256"
      at_client
    ≡ (some line_session_key, client_done)
unfolding line_handshake line_session send_hello profile_select client_hello line_secrets
    hybrid_exchange encaps_thread line_ecdh ciphertext_line client_salt line_encaps_worker use_salt
    crypto_generate_keypair crypto_export_ec_pub_der crypto_derive_ecdh_secret crypto_hkdf_sha256
    crypto_load_ec_pub_der derive_filled derive_ready derive_setup derive_sized hkdf_params
    recv_json send_json b64_encode json_get_str json_session_key recv_line send_line grow
    recv_line_loop sys_read sys_write export_pub classical_secret key_material load_pub malloc_each
    b64_decode
client_runs = refl

server_runs :
    handle_client_lines line_ssl toy_oqs line_json
      (λ n. true)
      toy_b3
      (λ t. t)
      (λ t. t)
      true
      at_server
    ≡ (some line_session_key, server_done)
unfolding handle_client_lines serve_combo exchange_keys keygen_thread line_classical strict_export
    strict_secret finished_line joined_keys key_reply line_quantum open_ciphertext wants_blake3
    first_combo_by_id crypto_generate_keypair crypto_export_ec_pub_der crypto_derive_ecdh_secret
    crypto_hkdf_sha256 crypto_load_ec_pub_der derive_filled derive_ready derive_setup derive_sized
    hkdf_params recv_json send_json b64_encode json_get_str json_get_int json_salt json_session_key
    recv_line send_line grow recv_line_loop sys_read sys_write key_material load_pub malloc_each
    find_combo b64_decode pqc_keygen_worker
server_runs = refl

p256-known : first_combo_by_id (pos p256_combo.id) ≡ some p256_combo
unfolding first_combo_by_id
p256-known = refl

line_handshake-agree_example :
    (p256_combo ≡ p256_combo)
    × (line_session_key.ikm ≡ line_session_key.ikm)
    × DerivedKey line_ssl toy_b3 p256_combo
        (client_salt p256_combo "sha256")
        line_session_key.ikm
        false
        line_session_key.session_key
    × DerivedKey line_ssl toy_b3 p256_combo
        (json_salt line_ssl (λ t. t) (sent_salt line_ssl-base64 p256_combo "sha256"))
        line_session_key.ikm
        false
        line_session_key.session_key
line_handshake-agree_example =
    line_handshake-agree line_ssl line_ssl-lawful line_ssl-base64 toy_oqs toy_oqs-lawful line_json
      line_json-lawful (λ n. true) toy_b3 true true true p256_combo "sha256" (λ t. t) (λ t. t)
      at_client client_done line_session_key at_server server_done line_session_key refl p256-known
      (inl refl) refl refl refl refl refl refl client_runs server_runs refl refl
