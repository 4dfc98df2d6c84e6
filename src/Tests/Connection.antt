-- ===== src/Tests/Connection.antt =====
-- A client and a server at the two ends of a connection, over the concrete libraries.
use hybrid_pqc_benchmarking.Prelude.{◌≡◌, refl, true, some, [], ◌∷◌, ℕ, List, arith}
use hybrid_pqc_benchmarking.Prelude.Int.{pos}
use hybrid_pqc_benchmarking.Act.{fail}
use hybrid_pqc_benchmarking.Algo.{get_combo_by_id, find_combo}
use hybrid_pqc_benchmarking.Net.{recv_all, recv_loop, sys_read, send_all, send_loop, sys_write}
use hybrid_pqc_benchmarking.Wire.{
  little, decode_client_meta, decode_server_meta, encode_client_meta, encode_header, decode_header,
  encode_server_meta,
}
use hybrid_pqc_benchmarking.Engine.{malloc_each}
use hybrid_pqc_benchmarking.Crypto.{
  crypto_generate_keypair, crypto_export_ec_pub_der, crypto_load_ec_pub_der,
  crypto_derive_ecdh_secret, derive_setup, derive_ready, derive_sized, derive_filled,
  crypto_hkdf_sha256, hkdf_params,
}
use hybrid_pqc_benchmarking.Handshake.{
  Party, recv, send, recv_header, recv_pub, export_pub, load_pub, classical_secret, key_material,
  derive_session_key, finish_session,
}
use hybrid_pqc_benchmarking.Handshake.Encaps.{pqc_keygen_worker, client_pqc_encaps_worker}
use hybrid_pqc_benchmarking.Handshake.Server.{
  server_keygen, server_classical, server_hello_packet, send_server_hello, server_quantum,
  finished_packet, handle_client_binary, handle_client, is_binary,
}
use hybrid_pqc_benchmarking.Handshake.Client.{
  kdf_code, dmode_code, client_keypair, client_hello_packet, send_client_hello, recv_pqc_pk,
  recv_server_hello, ciphertext_packet, send_ciphertext, hybrid_secrets, client_secrets,
  await_finished, execute_dispatch_handshake,
}
use hybrid_pqc_benchmarking.Handshake.Hybrid.Agreement.{execute_dispatch_handshake-agree}
use hybrid_pqc_benchmarking.Tests.{toy_ssl, toy_ssl-lawful, toy_oqs, toy_oqs-lawful}
use hybrid_pqc_benchmarking.Tests.Hosts.{p256_combo}
use hybrid_pqc_benchmarking.Tests.Handshakes.{toy_b3, key, start, served_session}

abbrev upstream : List ℕ
upstream =
    84 ∷ 76 ∷ 83 ∷ 80 ∷ 0 ∷ 1 ∷ 0 ∷ 2 ∷ 0 ∷ 0 ∷ 0 ∷ 5 ∷ 0 ∷ 0 ∷ 1 ∷ 0 ∷ 5 ∷ 84 ∷ 76 ∷ 83 ∷ 80 ∷ 0
    ∷ 3 ∷ 0 ∷ 2 ∷ 0 ∷ 0 ∷ 0 ∷ 4 ∷ 1 ∷ 1 ∷ 1 ∷ 1 ∷ []

abbrev downstream : List ℕ
downstream =
    84 ∷ 76 ∷ 83 ∷ 80 ∷ 0 ∷ 2 ∷ 0 ∷ 2 ∷ 0 ∷ 0 ∷ 0 ∷ 12 ∷ 0 ∷ 0 ∷ 1 ∷ 0 ∷ 3 ∷ 0 ∷ 0 ∷ 0 ∷ 11 ∷ 3 ∷ 3
    ∷ 3 ∷ 84 ∷ 76 ∷ 83 ∷ 80 ∷ 0 ∷ 4 ∷ 0 ∷ 2 ∷ 0 ∷ 0 ∷ 0 ∷ 1 ∷ 0 ∷ []

-- The next key of the client is 5, that of the server 11.
abbrev client : Party toy_ssl toy_oqs
client = record {
  sock = record { inbox = downstream; outbox = []; reads = []; writes = [] };
  ec = record { fresh_key = 5; own = 0; peer = 0 };
  kem = 1;
}

abbrev client_done : Party toy_ssl toy_oqs
client_done = record {
  sock = record { inbox = []; outbox = upstream; reads = []; writes = [] };
  ec = record { fresh_key = 6; own = 5; peer = 11 };
  kem = 2;
}

abbrev server : Party toy_ssl toy_oqs
server = record {
  sock = record { inbox = upstream; outbox = []; reads = []; writes = [] };
  ec = start;
  kem = 3;
}

abbrev server_done : Party toy_ssl toy_oqs
server_done = record {
  sock = record { inbox = []; outbox = downstream; reads = []; writes = [] };
  ec = record { fresh_key = 12; own = 11; peer = 5 };
  kem = 4;
}

client_runs :
    execute_dispatch_handshake toy_ssl toy_oqs toy_b3 little true p256_combo "sha256" "auto" client
    ≡ (some served_session, client_done)
unfolding execute_dispatch_handshake client_keypair crypto_generate_keypair send_client_hello
    client_hello_packet kdf_code dmode_code export_pub crypto_export_ec_pub_der send send_all
    send_loop sys_write encode_header encode_client_meta recv_server_hello recv_header recv recv_all
    recv_loop sys_read decode_header decode_server_meta recv_pub recv_pqc_pk client_secrets
    hybrid_secrets client_pqc_encaps_worker malloc_each classical_secret load_pub
    crypto_load_ec_pub_der crypto_derive_ecdh_secret derive_setup derive_ready derive_sized
    derive_filled send_ciphertext ciphertext_packet finish_session key_material derive_session_key
    crypto_hkdf_sha256 hkdf_params await_finished
client_runs = refl

server_peeks : is_binary toy_ssl toy_oqs toy_b3 little server.sock ≡ true
unfolding is_binary
server_peeks = refl

server_runs :
    handle_client toy_ssl toy_oqs toy_b3 little fail server ≡ (some served_session, server_done)
unfolding handle_client is_binary handle_client_binary get_combo_by_id find_combo recv recv_all
    recv_loop sys_read decode_client_meta recv_pub server_keygen pqc_keygen_worker malloc_each
    server_classical crypto_generate_keypair classical_secret load_pub crypto_load_ec_pub_der
    crypto_derive_ecdh_secret derive_setup derive_ready derive_sized derive_filled export_pub
    crypto_export_ec_pub_der send_server_hello server_hello_packet send send_all send_loop sys_write
    encode_header encode_server_meta server_quantum recv_header decode_header finish_session
    key_material derive_session_key crypto_hkdf_sha256 hkdf_params finished_packet
server_runs = refl

found : get_combo_by_id (pos 2) ≡ some p256_combo
unfolding get_combo_by_id find_combo
found = refl

execute_dispatch_handshake-agree_example :
    (served_session.combo ≡ p256_combo) × (served_session.ikm ≡ served_session.ikm) × (key ≡ key)
execute_dispatch_handshake-agree_example =
    execute_dispatch_handshake-agree toy_ssl toy_ssl-lawful toy_oqs toy_oqs-lawful toy_b3 little
      p256_combo "sha256" "auto" fail client client_done served_session server server_done
      served_session key key found (omega arith) refl client_runs server_peeks server_runs refl refl
      refl refl refl refl refl refl refl
