-- ===== src/Tests/Live.antt =====
-- A server and a client that complete, over the concrete libraries and a kernel that cuts the
-- streams up.
use hybrid_pqc_benchmarking.Prelude.{◌≡◌, refl, true, some, List, [], ◌∷◌, arith, ℕ}
use hybrid_pqc_benchmarking.Prelude.Int.{pos}
use hybrid_pqc_benchmarking.Algo.{get_combo_by_id, find_combo}
use hybrid_pqc_benchmarking.Wire.{
  little, WireHeader, ClientHelloMeta, wire_magic, encode_header, encode_client_meta,
}
use hybrid_pqc_benchmarking.Handshake.Server.{handle_client_binary}
use hybrid_pqc_benchmarking.Handshake.Live.{IsUpOpenssl, IsUpLiboqs}
use hybrid_pqc_benchmarking.Handshake.Live.Server.{CiphertextFrame, handle_client_binary-completes}
use hybrid_pqc_benchmarking.Handshake.{Party, Session, load_pub}
use hybrid_pqc_benchmarking.Handshake.Client.{execute_dispatch_handshake}
use hybrid_pqc_benchmarking.Handshake.Live.ClientSteps.{IsDeriving}
use hybrid_pqc_benchmarking.Handshake.Live.Client.{execute_dispatch_handshake-completes}
use hybrid_pqc_benchmarking.Crypto.{crypto_load_ec_pub_der}
use hybrid_pqc_benchmarking.Wire.{ServerHelloMeta, encode_server_meta}
use hybrid_pqc_benchmarking.Tests.{toy_ssl, toy_ssl-lawful, toy_oqs, toy_kem}
use hybrid_pqc_benchmarking.Tests.Hosts.{p256_combo}
use hybrid_pqc_benchmarking.Tests.Handshakes.{toy_b3, start}

abbrev hello : WireHeader
hello = record { magic = wire_magic; msg_type = 1; combo_id = 2; payload_len = 5 }

abbrev fields : ClientHelloMeta
fields = record { kdf_type = 0; dispatch_mode = 0; c_pub_len = 1 }

abbrev frame : List ℕ
frame = 84 ∷ 76 ∷ 83 ∷ 80 ∷ 0 ∷ 3 ∷ 0 ∷ 2 ∷ 0 ∷ 0 ∷ 0 ∷ 4 ∷ 1 ∷ 1 ∷ 1 ∷ 1 ∷ []

abbrev server : Party toy_ssl toy_oqs
server = record {
  sock = record {
    inbox = 0 ∷ 0 ∷ 1 ∷ 0 ∷ 5 ∷ frame;
    outbox = [];
    reads = 3 ∷ 1 ∷ 2 ∷ 7 ∷ [];
    writes = 10 ∷ 1 ∷ [];
  };
  ec = start;
  kem = 3;
}

toy_ssl-IsUpOpenssl : IsUpOpenssl toy_ssl
toy_ssl-IsUpOpenssl = record {
  new_from_name = λ name w. (tt, w, refl);
  new_id_ec = λ w. (tt, w, refl);
  keygen_init = λ c w. (tt, w, refl);
  set_curve = λ c nid w. (tt, w, refl);
  generate = λ c w. (_, _, refl);
}

toy_oqs-IsUpLiboqs : IsUpLiboqs toy_oqs
toy_oqs-IsUpLiboqs = record { malloc = λ n w. (tt, w, refl); keypair = λ kem w. (_, _, refl) }

found : get_combo_by_id (pos 2) ≡ some p256_combo
unfolding get_combo_by_id find_combo
found = refl

sent : CiphertextFrame p256_combo frame
unfolding encode_header
sent = record {
  ct = 1 ∷ 1 ∷ 1 ∷ 1 ∷ [];
  rest = [];
  short_ct = omega arith;
  short_id = omega arith;
  frame = refl;
}

handle_client_binary-completes_example :
    (session : Session) × (p' : Party toy_ssl toy_oqs) × (handle_client_binary toy_ssl toy_oqs
        toy_b3 little hello server
      ≡ (some session, p'))
unfolding encode_client_meta
handle_client_binary-completes_example =
    handle_client_binary-completes toy_ssl toy_oqs toy_ssl-IsUpOpenssl toy_oqs-IsUpLiboqs toy_b3
      little hello p256_combo fields (5 ∷ []) frame server found
      (record { kdf_type = omega arith; dispatch_mode = omega arith; c_pub_len = omega arith }) refl
      (omega arith) (λ h w. (_, w, refl)) (λ h. sent)
      (
        refl,
        (
          (omega arith, (omega arith, (omega arith, (omega arith, tt)))),
          (omega arith, (omega arith, tt)),
        ),
      )

abbrev reply : WireHeader
reply = record { magic = wire_magic; msg_type = 2; combo_id = 2; payload_len = 12 }

abbrev answer : ServerHelloMeta
answer = record { dispatch_route = 0; reserved = 0; srv_pub_len = 1; pqc_pk_len = 3 }

-- The server's first frame, and nothing behind it.
abbrev client : Party toy_ssl toy_oqs
client = record {
  sock = record {
    inbox =
        84 ∷ 76 ∷ 83 ∷ 80 ∷ 0 ∷ 2 ∷ 0 ∷ 2 ∷ 0 ∷ 0 ∷ 0 ∷ 12 ∷ 0 ∷ 0 ∷ 1 ∷ 0 ∷ 3 ∷ 0 ∷ 0 ∷ 0 ∷ 11 ∷ 3
        ∷ 3 ∷ 3 ∷ [];
    outbox = [];
    reads = 5 ∷ 1 ∷ [];
    writes = 2 ∷ [];
  };
  ec = start;
  kem = 3;
}

toy_ssl-IsDeriving : IsDeriving toy_ssl
toy_ssl-IsDeriving = record {
  pkey_ctx_new = λ p w. (_, _, refl);
  derive_init = λ c w. (tt, w, refl);
  derive_set_peer = λ c q w. (_, _, refl);
  derive_size = λ c w. (_, _, refl);
  derive = λ c n w. (_, _, refl);
}

execute_dispatch_handshake-completes_example :
    (session : Session) × (p' : Party toy_ssl toy_oqs) × (execute_dispatch_handshake toy_ssl toy_oqs
        toy_b3 little true p256_combo "sha256" "auto" client
      ≡ (some session, p'))
unfolding encode_header encode_server_meta load_pub crypto_load_ec_pub_der
execute_dispatch_handshake-completes_example =
    execute_dispatch_handshake-completes toy_ssl toy_ssl-lawful toy_oqs toy_ssl-IsUpOpenssl
      toy_ssl-IsDeriving toy_oqs-IsUpLiboqs toy_b3 little p256_combo reply answer (11 ∷ [])
      (3 ∷ 3 ∷ 3 ∷ []) 11 toy_kem refl
      (record {
        magic = omega arith;
        msg_type = omega arith;
        combo_id = omega arith;
        payload_len = omega arith;
      })
      refl refl
      (record {
        dispatch_route = omega arith;
        reserved = omega arith;
        srv_pub_len = omega arith;
        pqc_pk_len = omega arith;
      })
      refl (omega arith) (omega arith) refl (omega arith) (λ w. (w, refl)) (λ w. (w, refl)) refl
      (λ w. (_, _, refl)) "sha256" "auto" [] client
      (refl, ((omega arith, (omega arith, tt)), (omega arith, tt)))
