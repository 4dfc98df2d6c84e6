-- ===== src/Tests/Handshakes.antt =====
-- A handshake's keys over the concrete libraries.
use hybrid_pqc_benchmarking.Prelude.{
  ◌≡◌, refl, true, false, some, [], ◌∷◌, zeros, memcpy, List, ℕ, replicate, String, Option, none,
  codes, str_eq, if◌then◌else◌,
}
use hybrid_pqc_benchmarking.External.{Blake3, Cjson, JsonItem, json_string, json_number, json_other}
use hybrid_pqc_benchmarking.Crypto.{
  crypto_generate_keypair, crypto_export_ec_pub_der, crypto_load_ec_pub_der,
  crypto_derive_ecdh_secret, derive_setup, derive_ready, derive_sized, derive_filled,
  crypto_hkdf_sha256, hkdf_params,
}
use hybrid_pqc_benchmarking.Handshake.{
  Party, Secret, Session, recv, send, recv_header, recv_pub, export_pub, load_pub, classical_secret,
  key_material, derive_session_key, finish_session,
}
use hybrid_pqc_benchmarking.Handshake.Encaps.{stored_secret, pqc_keygen_worker}
use hybrid_pqc_benchmarking.Handshake.Agreement.{finish_session-agree}
use hybrid_pqc_benchmarking.Wire.{
  little, WireHeader, wire_magic, decode_client_meta, encode_header, decode_header,
  encode_server_meta,
}
use hybrid_pqc_benchmarking.Handshake.Server.{
  server_keygen, server_classical, server_hello_packet, send_server_hello, server_quantum,
  finished_packet, handle_client_binary,
}
use hybrid_pqc_benchmarking.Handshake.ServerRun.{Transcript, handle_client_binary-Transcript}
use hybrid_pqc_benchmarking.Algo.{get_combo_by_id, find_combo}
use hybrid_pqc_benchmarking.Net.{recv_all, recv_loop, sys_read, send_all, send_loop, sys_write}
use hybrid_pqc_benchmarking.Engine.{malloc_each}
use hybrid_pqc_benchmarking.Prelude.Int.{pos}
use hybrid_pqc_benchmarking.Tests.{
  ToyState, toy_ssl, toy_ssl-lawful, toy_oqs, toy_oqs-lawful, toy_kem,
}
use hybrid_pqc_benchmarking.Tests.Hosts.{p256_combo}

-- A hasher that keeps what it is given.
abbrev pub toy_b3 : Blake3
toy_b3 = record { Hasher = List ℕ; init = []; update = λ h bs. bs; finalize = λ h n. h }

abbrev pub start : ToyState
start = record { fresh_key = 11; own = 0; peer = 0 }

abbrev client_end : ToyState
client_end = record { fresh_key = 11; own = 3; peer = 5 }

abbrev server_end : ToyState
server_end = record { fresh_key = 11; own = 5; peer = 3 }

-- The keys 3 and 5 agree on 8.
abbrev ecdh_secret : Secret
ecdh_secret = record { bytes = memcpy (zeros 64) (8 ∷ []); len = 1; is_ok = true }

client_derives :
    classical_secret toy_ssl p256_combo.classical_curve 3
      (export_pub toy_ssl p256_combo.classical_curve 5)
      start
    ≡ (some ecdh_secret, client_end)
unfolding classical_secret export_pub crypto_export_ec_pub_der load_pub crypto_load_ec_pub_der
    crypto_derive_ecdh_secret
client_derives = refl

server_derives :
    classical_secret toy_ssl p256_combo.classical_curve 5
      (export_pub toy_ssl p256_combo.classical_curve 3)
      start
    ≡ (some ecdh_secret, server_end)
unfolding classical_secret export_pub crypto_export_ec_pub_der load_pub crypto_load_ec_pub_der
    crypto_derive_ecdh_secret
server_derives = refl

abbrev pub kem_secret_bytes : List ℕ
kem_secret_bytes = 7 ∷ 7 ∷ []

abbrev pub key : List ℕ
key = replicate 32 5

abbrev session : Session
session = record {
  combo = p256_combo;
  is_blake3 = false;
  classical = ecdh_secret;
  quantum = stored_secret kem_secret_bytes 2;
  ikm = 8 ∷ kem_secret_bytes;
  session_key = some key;
}

finishes :
    finish_session toy_ssl toy_b3 p256_combo false ecdh_secret
      (stored_secret kem_secret_bytes 2)
      start
    ≡ (some session, start)
unfolding finish_session derive_session_key key_material crypto_hkdf_sha256
finishes = refl

finish_session-agree_example : (session.ikm ≡ session.ikm) × (key ≡ key)
finish_session-agree_example =
    finish_session-agree toy_ssl toy_ssl-lawful toy_oqs toy_oqs-lawful toy_b3 p256_combo false 3 5
      ecdh_secret ecdh_secret start client_end start start start server_end start start toy_kem
      (0 ∷ 0 ∷ 0 ∷ []) (0 ∷ 0 ∷ []) (1 ∷ 1 ∷ 1 ∷ 1 ∷ []) kem_secret_bytes kem_secret_bytes 0 1 1 2 2
      2 session session key key client_derives server_derives refl refl refl refl refl finishes
      finishes refl refl

-- A client with the key 5 at a server whose next key is 11.
abbrev hello : WireHeader
hello = record { magic = wire_magic; msg_type = 1; combo_id = 2; payload_len = 5 }

abbrev pub at_server : Party toy_ssl toy_oqs
at_server = record {
  sock = record {
    inbox =
        0 ∷ 0 ∷ 1 ∷ 0 ∷ 5 ∷ 84 ∷ 76 ∷ 83 ∷ 80 ∷ 0 ∷ 3 ∷ 0 ∷ 2 ∷ 0 ∷ 0 ∷ 0 ∷ 4 ∷ 1 ∷ 1 ∷ 1 ∷ 1 ∷ [];
    outbox = [];
    reads = [];
    writes = [];
  };
  ec = start;
  kem = 3;
}

abbrev pub served : Party toy_ssl toy_oqs
served = record {
  sock = record {
    inbox = [];
    outbox =
        84 ∷ 76 ∷ 83 ∷ 80 ∷ 0 ∷ 2 ∷ 0 ∷ 2 ∷ 0 ∷ 0 ∷ 0 ∷ 12 ∷ 0 ∷ 0 ∷ 1 ∷ 0 ∷ 3 ∷ 0 ∷ 0 ∷ 0 ∷ 11 ∷ 3
        ∷ 3 ∷ 3 ∷ 84 ∷ 76 ∷ 83 ∷ 80 ∷ 0 ∷ 4 ∷ 0 ∷ 2 ∷ 0 ∷ 0 ∷ 0 ∷ 1 ∷ 0 ∷ [];
    reads = [];
    writes = [];
  };
  ec = record { fresh_key = 12; own = 11; peer = 5 };
  kem = 4;
}

abbrev pub served_session : Session
served_session = record {
  combo = p256_combo;
  is_blake3 = false;
  classical = record { bytes = memcpy (zeros 64) (16 ∷ []); len = 1; is_ok = true };
  quantum = stored_secret kem_secret_bytes 2;
  ikm = 16 ∷ kem_secret_bytes;
  session_key = some key;
}

serves :
    handle_client_binary toy_ssl toy_oqs toy_b3 little hello at_server
    ≡ (some served_session, served)
unfolding handle_client_binary get_combo_by_id find_combo recv recv_all recv_loop sys_read
    decode_client_meta recv_pub server_keygen pqc_keygen_worker malloc_each server_classical
    crypto_generate_keypair classical_secret load_pub crypto_load_ec_pub_der
    crypto_derive_ecdh_secret derive_setup derive_ready derive_sized derive_filled export_pub
    crypto_export_ec_pub_der send_server_hello server_hello_packet send send_all send_loop sys_write
    encode_header encode_server_meta server_quantum recv_header decode_header finish_session
    key_material derive_session_key crypto_hkdf_sha256 hkdf_params finished_packet
serves = refl

handle_client_binary-Transcript_example :
    Transcript toy_ssl toy_oqs toy_b3 little hello at_server.sock served_session served.sock
handle_client_binary-Transcript_example =
    handle_client_binary-Transcript toy_ssl toy_oqs toy_b3 little hello at_server served
      served_session serves

-- Objects that are lists of members, and a parser that gives the same object for every text.
abbrev Members : Type 0
Members = List (String × JsonItem)

abbrev member : Members → String → Option JsonItem
member [] name = none
member ((n, item) ∷ ms) name = if str_eq n name then some item else member ms name

abbrev asked : Members
asked =
    ("combo_id", json_number (pos 2))
    ∷ ("kdf_type", json_string (codes "blake3"))
    ∷ ("c_pub", json_string (5 ∷ []))
    ∷ ("ct", json_string (1 ∷ 1 ∷ 1 ∷ 1 ∷ []))
    ∷ []

abbrev toy_json : Cjson
toy_json = record {
  Object = Members;
  Number = ℕ;
  parse = λ text. some asked;
  get_object_item = member;
  create_object = [];
  add_string = λ o name text. (name, json_string text) ∷ o;
  add_number = λ o name n. (name, json_number (pos n)) ∷ o;
  add_null = λ o name. (name, json_other) ∷ o;
  of_int = λ n. n;
  print_unformatted = λ o. some (123 ∷ 125 ∷ []);
}

abbrev at_json : Party toy_ssl toy_oqs
at_json = record {
  sock = record { inbox = codes "{}\n{}\n{}\n"; outbox = []; reads = []; writes = [] };
  ec = start;
  kem = 3;
}

abbrev served_json : Party toy_ssl toy_oqs
served_json = record {
  sock = record { inbox = []; outbox = codes "{}\n{}\n"; reads = []; writes = [] };
  ec = record { fresh_key = 12; own = 11; peer = 5 };
  kem = 4;
}

abbrev json_session : Session
json_session = record served_session {
  is_blake3 = true;
  session_key = some (16 ∷ kem_secret_bytes);
}
