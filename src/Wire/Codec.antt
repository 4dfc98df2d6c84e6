-- ===== src/Wire/Codec.antt =====
-- Round trips of the frames.
use hybrid_pqc_benchmarking.Prelude.{ℕ, ◌*◌, ◌^◌, ◌<◌, ◌≡◌, refl, some, arith, length, ◌/◌, ◌%◌}
use hybrid_pqc_benchmarking.Wire.{
  Endian, little, big, WireHeader, ClientHelloMeta, ServerHelloMeta, encode_header, decode_header,
  encode_client_meta, decode_client_meta, encode_server_meta, decode_server_meta, num16, num32,
}

-- The numbers fit the fields of the struct.
pub record HeaderFits (h : WireHeader) : Type 0 where
  pub magic : h.magic < 2 ^ 32
  pub msg_type : h.msg_type < 2 ^ 16
  pub combo_id : h.combo_id < 2 ^ 16
  pub payload_len : h.payload_len < 2 ^ 32

pub record ClientMetaFits (m : ClientHelloMeta) : Type 0 where
  pub kdf_type : m.kdf_type < 2 ^ 8
  pub dispatch_mode : m.dispatch_mode < 2 ^ 8
  pub c_pub_len : m.c_pub_len < 2 ^ 16

pub record ServerMetaFits (m : ServerHelloMeta) : Type 0 where
  pub dispatch_route : m.dispatch_route < 2 ^ 8
  pub reserved : m.reserved < 2 ^ 8
  pub srv_pub_len : m.srv_pub_len < 2 ^ 16
  pub pqc_pk_len : m.pqc_pk_len < 2 ^ 32

num16-mem16 :
    (e : Endian) (n : ℕ)
    → n < 2 ^ 16
    → (num16 big (n / 2 ^ 8 % 2 ^ 8) (n % 2 ^ 8) ≡ n)
      × (num16 little (n % 2 ^ 8) (n / 2 ^ 8 % 2 ^ 8) ≡ n)
num16-mem16 e n h = omega arith

num32-mem32 :
    (n : ℕ)
    → n < 2 ^ 32
    → (num32 big (n / 2 ^ 24 % 2 ^ 8) (n / 2 ^ 16 % 2 ^ 8) (n / 2 ^ 8 % 2 ^ 8) (n % 2 ^ 8) ≡ n)
      × (num32 little (n % 2 ^ 8) (n / 2 ^ 8 % 2 ^ 8) (n / 2 ^ 16 % 2 ^ 8) (n / 2 ^ 24 % 2 ^ 8) ≡ n)
num32-mem32 n h = omega arith

-- A header that fits its fields is read back from its 12 bytes.
pub decode_header-encode_header :
    (h : WireHeader) → HeaderFits h → decode_header (encode_header h) ≡ some h
unfolding decode_header encode_header
decode_header-encode_header h f = ground (
  arith,
  num32-mem32 h.magic f.magic,
  num16-mem16 big h.msg_type f.msg_type,
  num16-mem16 big h.combo_id f.combo_id,
  num32-mem32 h.payload_len f.payload_len,
)

-- Between machines of one byte order the client's fields are read back.
pub decode_client_meta-encode_client_meta :
    (e : Endian) (m : ClientHelloMeta)
    → ClientMetaFits m
    → decode_client_meta e (encode_client_meta e m) ≡ some m
unfolding decode_client_meta encode_client_meta
decode_client_meta-encode_client_meta little m f =
    ground (arith, num16-mem16 little m.c_pub_len f.c_pub_len)
decode_client_meta-encode_client_meta big m f =
    ground (arith, num16-mem16 big m.c_pub_len f.c_pub_len)

-- Between machines of one byte order the server's fields are read back.
pub decode_server_meta-encode_server_meta :
    (e : Endian) (m : ServerHelloMeta)
    → ServerMetaFits m
    → decode_server_meta e (encode_server_meta e m) ≡ some m
unfolding decode_server_meta encode_server_meta
decode_server_meta-encode_server_meta little m f =
    ground
      (arith, num16-mem16 little m.srv_pub_len f.srv_pub_len, num32-mem32 m.pqc_pk_len f.pqc_pk_len)
decode_server_meta-encode_server_meta big m f =
    ground
      (arith, num16-mem16 big m.srv_pub_len f.srv_pub_len, num32-mem32 m.pqc_pk_len f.pqc_pk_len)

abbrev pub other : Endian → Endian
other little = big
other big = little

-- Between machines of different byte order, whichever of them writes, a key length of 1 to 255 bytes
-- is read as 256 times as long, since `c_pub_len` is not converted.
pub decode_client_meta-other_endian :
    (e : Endian) (m : ClientHelloMeta)
    → ClientMetaFits m
    → 0 < m.c_pub_len
    → m.c_pub_len < 2 ^ 8
    → decode_client_meta (other e) (encode_client_meta e m)
      ≡ some (record m { c_pub_len = m.c_pub_len * 2 ^ 8 })
unfolding decode_client_meta encode_client_meta
decode_client_meta-other_endian little m f lo hi = ground arith
decode_client_meta-other_endian big m f lo hi = ground arith

pub length-encode_header : (h : WireHeader) → length (encode_header h) ≡ 12
unfolding encode_header
length-encode_header h = refl

pub length-encode_client_meta :
    (e : Endian) (m : ClientHelloMeta) → length (encode_client_meta e m) ≡ 4
unfolding encode_client_meta
length-encode_client_meta little m = refl
length-encode_client_meta big m = refl

pub length-encode_server_meta :
    (e : Endian) (m : ServerHelloMeta) → length (encode_server_meta e m) ≡ 8
unfolding encode_server_meta
length-encode_server_meta little m = refl
length-encode_server_meta big m = refl
