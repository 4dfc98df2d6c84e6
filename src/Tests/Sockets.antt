-- ===== src/Tests/Sockets.antt =====
-- The socket loops and the frames at concrete data.
use hybrid_pqc_benchmarking.Prelude.{
  ℕ, ◌*◌, ◌^◌, ◌<◌, ◌≡◌, ◌≢◌, refl, true, none, some, List, [], ◌∷◌, ◌++◌, arith, length, All,
  codes,
}
use hybrid_pqc_benchmarking.Net.{Socket, recv_all, send_all, recv_line, LineBuffer}
use hybrid_pqc_benchmarking.Net.Recv.{Received, Positive, recv_all-Received, recv_all-total}
use hybrid_pqc_benchmarking.Net.Send.{Sent, Front, send_all-Sent, send_all-total}
use hybrid_pqc_benchmarking.Net.Line.{recv_line-Read}
use hybrid_pqc_benchmarking.Net.LineTotal.{recv_line-total}
use hybrid_pqc_benchmarking.Wire.{
  little, big, WireHeader, ClientHelloMeta, wire_magic, encode_header, decode_header,
  encode_client_meta, decode_client_meta,
}
use hybrid_pqc_benchmarking.Wire.Codec.{
  decode_header-encode_header, decode_client_meta-encode_client_meta,
  decode_client_meta-other_endian,
}

-- The first read gives one byte, later ones at most two; the second write is short.
abbrev choppy : Socket
choppy = record {
  inbox = 1 ∷ 2 ∷ 3 ∷ 4 ∷ [];
  outbox = 9 ∷ [];
  reads = 1 ∷ 2 ∷ 2 ∷ [];
  writes = 2 ∷ 1 ∷ [];
}

abbrev after_three : Socket
after_three = record choppy { inbox = 4 ∷ []; reads = 2 ∷ [] }

three : recv_all 3 choppy ≡ (some (1 ∷ 2 ∷ 3 ∷ []), after_three)
unfolding recv_all
three = refl

too_many : (recv_all 5 choppy).0 ≡ none
unfolding recv_all
too_many = refl

recv_all-Received_example : Received 3 choppy (1 ∷ 2 ∷ 3 ∷ []) after_three
recv_all-Received_example = recv_all-Received 3 choppy (1 ∷ 2 ∷ 3 ∷ []) after_three three

recv_all-total_example :
    (bytes : List ℕ) × (s' : Socket) × (recv_all 3 choppy ≡ (some bytes, s')) × Positive s'.reads
recv_all-total_example = recv_all-total 3 choppy (omega arith) (omega arith)

send_all-Sent_example :
    (front : List ℕ) × Sent choppy front (send_all (5 ∷ 6 ∷ 7 ∷ []) choppy).1
    × Front (5 ∷ 6 ∷ 7 ∷ []) (send_all (5 ∷ 6 ∷ 7 ∷ []) choppy).0 front
send_all-Sent_example = send_all-Sent (5 ∷ 6 ∷ 7 ∷ []) choppy

send_all-total_example : (send_all (5 ∷ 6 ∷ 7 ∷ []) choppy).0 ≡ true
send_all-total_example = send_all-total (5 ∷ 6 ∷ 7 ∷ []) choppy (omega arith)

abbrev lines : Socket
lines = record { inbox = codes "{}\n{"; outbox = []; reads = []; writes = [] }

abbrev line_read : LineBuffer
line_read = record { bytes = codes "{}"; used = 2; cap = 4096 }

abbrev after_line : Socket
after_line = record lines { inbox = codes "{" }

one_line : recv_line (λ n. true) lines ≡ (some line_read, after_line)
unfolding recv_line
one_line = refl

recv_line-Read_example :
    (2 ≡ length (codes "{}"))
    × (2 < 4096)
    × (codes "{}\n{" ≡ codes "{}" ++ (b'\n' ∷ codes "{"))
    × All (λ c. c ≢ b'\n') (codes "{}")
recv_line-Read_example = recv_line-Read (λ n. true) lines line_read after_line one_line

recv_line-total_example :
    (b : LineBuffer) × (s' : Socket) × (recv_line (λ n. true) lines ≡ (some b, s'))
    × (b.bytes ≡ codes "{}")
    × (s'.inbox ≡ codes "{")
recv_line-total_example =
    recv_line-total (λ n. true) lines (codes "{}") (codes "{") (λ n. refl) (omega arith) refl
      (omega arith)

abbrev hello : WireHeader
hello = record { magic = wire_magic; msg_type = 1; combo_id = 10; payload_len = 36 }

decode_header-encode_header_example : decode_header (encode_header hello) ≡ some hello
decode_header-encode_header_example = decode_header-encode_header hello (omega arith)

abbrev hello_meta : ClientHelloMeta
hello_meta = record { kdf_type = 1; dispatch_mode = 2; c_pub_len = 32 }

decode_client_meta-encode_client_meta_example :
    decode_client_meta little (encode_client_meta little hello_meta) ≡ some hello_meta
decode_client_meta-encode_client_meta_example =
    decode_client_meta-encode_client_meta little hello_meta (omega arith)

-- The key of 32 bytes is announced as one of 8192, which the server refuses.
decode_client_meta-other_endian_example :
    decode_client_meta big (encode_client_meta little hello_meta)
    ≡ some (record hello_meta { c_pub_len = 32 * 2 ^ 8 })
decode_client_meta-other_endian_example =
    decode_client_meta-other_endian little hello_meta (omega arith) (omega arith) (omega arith)
