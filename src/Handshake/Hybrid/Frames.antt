-- ===== src/Handshake/Hybrid/Frames.antt =====
-- Reading a stream of frames apart: where both ends of the connection hold the same bytes, what
-- was put into a frame is what is read from it.
use mathlib.Core.List.{append_assoc, append-nil}
use hybrid_pqc_benchmarking.Prelude.{
  ℕ, ◌+◌, ◌^◌, ◌≤◌, ◌<◌, ◌≡◌, ap, sym, ◌∙◌, some, List, [], ◌++◌, arith, length, append-cancel,
}
use hybrid_pqc_benchmarking.External.{Openssl, Liboqs, Blake3}
use hybrid_pqc_benchmarking.Algo.{AlgoCombo}
use hybrid_pqc_benchmarking.Wire.{
  Endian, WireHeader, ClientHelloMeta, ServerHelloMeta, msg_client_hello, msg_server_hello,
  msg_pqc_ciphertext, encode_header, decode_header, encode_client_meta, decode_client_meta,
  encode_server_meta, decode_server_meta,
}
use hybrid_pqc_benchmarking.Wire.Codec.{
  decode_header-encode_header, decode_client_meta-encode_client_meta,
  decode_server_meta-encode_server_meta, length-encode_header, length-encode_client_meta,
  length-encode_server_meta,
}
use hybrid_pqc_benchmarking.Handshake.{header}
use hybrid_pqc_benchmarking.Handshake.Client.{client_hello_packet, ciphertext_packet}
use hybrid_pqc_benchmarking.Handshake.Server.{server_hello_packet}

-- The same first parts leave the same rests.
split_front :
    (xs bs cs ys ds es : List ℕ)
    → (xs ++ bs) ++ cs ≡ (ys ++ ds) ++ es
    → length xs ≡ length ys
    → (xs ≡ ys) × (bs ++ cs ≡ ds ++ es)
split_front xs bs cs ys ds es h l =
    append-cancel xs ys (bs ++ cs) (ds ++ es)
      (sym (append_assoc xs bs cs) ∙ (h ∙ append_assoc ys ds es)) l

some_inj : {A : Type 0} (a b : A) → some a ≡ some b → a ≡ b
some_inj a b h = ground arith

-- The header that was put in is read.
header_read :
    (msg_type : ℕ) (combo : AlgoCombo) (n : ℕ) (bytes : List ℕ) (h : WireHeader)
    → msg_type < 2 ^ 16
    → combo.id < 2 ^ 16
    → n < 2 ^ 32
    → encode_header (header msg_type combo n) ≡ bytes
    → decode_header bytes ≡ some h
    → header msg_type combo n ≡ h
header_read msg_type combo n bytes h t i l e d = some_inj (header msg_type combo n) h (
    sym (
      decode_header-encode_header (header msg_type combo n)
        (record { magic = omega arith; msg_type = t; combo_id = i; payload_len = l }))
    ∙ (ap decode_header e ∙ d))

module _ (ssl : Openssl) (oqs : Liboqs) (b3 : Blake3) (e : Endian) (combo : AlgoCombo) where
  pub client_hello_read :
      (kdf dmode : ℕ) (bytes front hello meta cli_pub frame rest : List ℕ) (hdr : WireHeader)
      (fields : ClientHelloMeta)
      → combo.id < 2 ^ 16
      → kdf < 2 ^ 8
      → dmode < 2 ^ 8
      → length bytes ≤ 120
      → client_hello_packet ssl oqs b3 e combo kdf dmode bytes ++ front
        ≡ (hello ++ (meta ++ (cli_pub ++ frame))) ++ rest
      → length hello ≡ 12
      → decode_header hello ≡ some hdr
      → length meta ≡ 4
      → decode_client_meta e meta ≡ some fields
      → length cli_pub ≡ fields.c_pub_len
      → (hdr.combo_id ≡ combo.id)
        × (fields.kdf_type ≡ kdf)
        × (cli_pub ≡ bytes)
        × (front ≡ frame ++ rest)
  unfolding client_hello_packet
  client_hello_read kdf dmode bytes front hello meta cli_pub frame rest hdr fields i k d l h l1 d1
        l2 d2 l3 =
      let sent_meta : ClientHelloMeta = record {
        kdf_type = kdf;
        dispatch_mode = dmode;
        c_pub_len = length bytes;
      } in
      let sent_hdr = header msg_client_hello combo (4 + length bytes) in
      let (same1, h1) =
        split_front (encode_header sent_hdr) (encode_client_meta e sent_meta ++ bytes) front hello
          (meta ++ (cli_pub ++ frame)) rest h (length-encode_header sent_hdr ∙ sym l1) in
      let (same2, h2) =
        split_front (encode_client_meta e sent_meta) bytes front meta (cli_pub ++ frame) rest h1
          (length-encode_client_meta e sent_meta ∙ sym l2) in
      let hdr_same =
        header_read msg_client_hello combo (4 + length bytes) hello hdr (omega arith) i
          (omega arith) same1 d1 in
      let meta_same : sent_meta ≡ fields = some_inj sent_meta fields (
        sym (
          decode_client_meta-encode_client_meta e sent_meta
            (record { kdf_type = k; dispatch_mode = d; c_pub_len = omega arith }))
        ∙ (ap (decode_client_meta e) same2 ∙ d2)) in
      let (same3, h3) =
        append-cancel bytes cli_pub front (frame ++ rest) (h2 ∙ append_assoc cli_pub frame rest)
          (ap (λ (z : ClientHelloMeta). z.c_pub_len) meta_same ∙ sym l3) in
      (
        ap (λ (z : WireHeader). z.combo_id) (sym hdr_same),
        ap (λ (z : ClientHelloMeta). z.kdf_type) (sym meta_same),
        sym same3,
        h3,
      )

  pub server_hello_read :
      (bytes key last hb mb srv_pub pk rest : List ℕ) (meta : ServerHelloMeta)
      → length bytes ≤ 120
      → length key < 2 ^ 21
      → server_hello_packet ssl oqs b3 e combo bytes (length key) key ++ last
        ≡ (hb ++ (mb ++ (srv_pub ++ pk))) ++ rest
      → length hb ≡ 12
      → length mb ≡ 8
      → decode_server_meta e mb ≡ some meta
      → length srv_pub ≡ meta.srv_pub_len
      → length pk ≡ meta.pqc_pk_len
      → (srv_pub ≡ bytes) × (pk ≡ key)
  unfolding server_hello_packet
  server_hello_read bytes key last hb mb srv_pub pk rest meta l n h l1 l2 d2 l3 l4 =
      let sent_meta : ServerHelloMeta = record {
        dispatch_route = 0;
        reserved = 0;
        srv_pub_len = length bytes;
        pqc_pk_len = length key;
      } in
      let sent_hdr = header msg_server_hello combo (8 + length bytes + length key) in
      let (same1, h1) =
        split_front (encode_header sent_hdr) (encode_server_meta e sent_meta ++ (bytes ++ key)) last
          hb (mb ++ (srv_pub ++ pk)) rest h (length-encode_header sent_hdr ∙ sym l1) in
      let (same2, h2) =
        split_front (encode_server_meta e sent_meta) (bytes ++ key) last mb (srv_pub ++ pk) rest h1
          (length-encode_server_meta e sent_meta ∙ sym l2) in
      let meta_same : sent_meta ≡ meta = some_inj sent_meta meta (
        sym (
          decode_server_meta-encode_server_meta e sent_meta (record {
            dispatch_route = omega arith;
            reserved = omega arith;
            srv_pub_len = omega arith;
            pqc_pk_len = omega arith;
          }))
        ∙ (ap (decode_server_meta e) same2 ∙ d2)) in
      let (same3, h3) =
        split_front bytes key last srv_pub pk rest h2
          (ap (λ (z : ServerHelloMeta). z.srv_pub_len) meta_same ∙ sym l3) in
      let (same4, _r) =
        append-cancel key pk last rest h3
          (ap (λ (z : ServerHelloMeta). z.pqc_pk_len) meta_same ∙ sym l4) in
      (sym same3, sym same4)

  pub ciphertext_read :
      (ct front back hb ct' rest : List ℕ) (hd : WireHeader)
      → combo.id < 2 ^ 16
      → length ct < 2 ^ 21
      → ciphertext_packet ssl oqs b3 e combo ct (length ct) ≡ front ++ back
      → front ≡ (hb ++ ct') ++ rest
      → length hb ≡ 12
      → decode_header hb ≡ some hd
      → length ct' ≡ hd.payload_len
      → ct' ≡ ct
  unfolding ciphertext_packet
  ciphertext_read ct front back hb ct' rest hd i n packet f l1 d1 l2 =
      let sent_hdr = header msg_pqc_ciphertext combo (length ct) in
      let whole : encode_header sent_hdr ++ ct ≡ hb ++ (ct' ++ (rest ++ back)) =
        packet
        ∙ (ap (λ z. z ++ back) f
            ∙ (append_assoc (hb ++ ct') rest back ∙ append_assoc hb ct' (rest ++ back))) in
      let (same1, h1) =
        append-cancel (encode_header sent_hdr) hb ct (ct' ++ (rest ++ back)) whole
          (length-encode_header sent_hdr ∙ sym l1) in
      let hdr_same =
        header_read msg_pqc_ciphertext combo (length ct) hb hd (omega arith) i (omega arith) same1
          d1 in
      let same_size : length ct ≡ length ct' =
        ap (λ (z : WireHeader). z.payload_len) hdr_same ∙ sym l2 in
      sym (append-cancel ct ct' [] (rest ++ back) (append-nil ct ∙ h1) same_size).0
