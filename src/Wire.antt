-- ===== src/Wire.antt =====
-- c_dispatch/include/network_utils.h: the binary frames of the handshake, byte for byte.
pub mod Codec
use hybrid_pqc_benchmarking.Prelude.{
  ℕ, ◌+◌, ◌*◌, ◌/◌, ◌%◌, ◌^◌, Option, none, some, List, [], ◌∷◌, ◌++◌,
}

-- The byte order of a machine: `htons` and its like swap on a little-endian one. A field that the
-- source does not convert goes out in this order.
pub data Endian : Type 0 where
  little big : Endian

abbrev pub wire_magic : ℕ
wire_magic = 0x544C5350

-- `WireMsgType`
abbrev pub msg_client_hello : ℕ
msg_client_hello = 0x01

abbrev pub msg_server_hello : ℕ
msg_server_hello = 0x02

abbrev pub msg_pqc_ciphertext : ℕ
msg_pqc_ciphertext = 0x03

abbrev pub msg_server_finished : ℕ
msg_server_finished = 0x04

-- The numbers are in host order, before `htonl` and `htons`.
pub record WireHeader : Type 0 where
  pub magic : ℕ  -- uint32_t
  pub msg_type : ℕ  -- uint16_t
  pub combo_id : ℕ  -- uint16_t
  pub payload_len : ℕ  -- uint32_t

pub record ClientHelloMeta : Type 0 where
  pub kdf_type : ℕ  -- uint8_t
  pub dispatch_mode : ℕ  -- uint8_t
  pub c_pub_len : ℕ  -- uint16_t

pub record ServerHelloMeta : Type 0 where
  pub dispatch_route : ℕ  -- uint8_t
  pub reserved : ℕ  -- uint8_t
  pub srv_pub_len : ℕ  -- uint16_t
  pub pqc_pk_len : ℕ  -- uint32_t

-- The bytes of a 16-bit and a 32-bit number in memory.
abbrev pub mem16 : Endian → ℕ → List ℕ
mem16 big n = (n / 2 ^ 8 % 2 ^ 8) ∷ (n % 2 ^ 8) ∷ []
mem16 little n = (n % 2 ^ 8) ∷ (n / 2 ^ 8 % 2 ^ 8) ∷ []

abbrev pub mem32 : Endian → ℕ → List ℕ
mem32 big n = (n / 2 ^ 24 % 2 ^ 8) ∷ (n / 2 ^ 16 % 2 ^ 8) ∷ (n / 2 ^ 8 % 2 ^ 8) ∷ (n % 2 ^ 8) ∷ []
mem32 little n =
    (n % 2 ^ 8) ∷ (n / 2 ^ 8 % 2 ^ 8) ∷ (n / 2 ^ 16 % 2 ^ 8) ∷ (n / 2 ^ 24 % 2 ^ 8) ∷ []

abbrev pub num16 : Endian → ℕ → ℕ → ℕ
num16 big a b = a * 2 ^ 8 + b
num16 little a b = a + b * 2 ^ 8

abbrev pub num32 : Endian → ℕ → ℕ → ℕ → ℕ → ℕ
num32 big a b c d = a * 2 ^ 24 + b * 2 ^ 16 + c * 2 ^ 8 + d
num32 little a b c d = a + b * 2 ^ 8 + c * 2 ^ 16 + d * 2 ^ 24

-- `memcpy` of a packed struct whose fields were stored through `htonl` and `htons`.
unfoldable pub encode_header : WireHeader → List ℕ
encode_header h =
    mem32 big h.magic ++ (mem16 big h.msg_type ++ (mem16 big h.combo_id ++ mem32 big h.payload_len))

-- The struct read over received bytes, its fields read through `ntohl` and `ntohs`.
unfoldable pub decode_header : List ℕ → Option WireHeader
decode_header (a ∷ b ∷ c ∷ d ∷ e ∷ f ∷ g ∷ h ∷ i ∷ j ∷ k ∷ l ∷ []) = some (record {
  magic = num32 big a b c d;
  msg_type = num16 big e f;
  combo_id = num16 big g h;
  payload_len = num32 big i j k l;
})
decode_header _ = none

-- The length goes out in the sender's byte order, and is read in the receiver's.
unfoldable pub encode_client_meta : Endian → ClientHelloMeta → List ℕ
encode_client_meta e m = (m.kdf_type % 2 ^ 8) ∷ (m.dispatch_mode % 2 ^ 8) ∷ mem16 e m.c_pub_len

unfoldable pub decode_client_meta : Endian → List ℕ → Option ClientHelloMeta
decode_client_meta e (a ∷ b ∷ c ∷ d ∷ []) =
    some (record { kdf_type = a; dispatch_mode = b; c_pub_len = num16 e c d })
decode_client_meta e _ = none

unfoldable pub encode_server_meta : Endian → ServerHelloMeta → List ℕ
encode_server_meta e m =
    (m.dispatch_route % 2 ^ 8)
    ∷ (m.reserved % 2 ^ 8)
    ∷ (mem16 e m.srv_pub_len ++ mem32 e m.pqc_pk_len)

unfoldable pub decode_server_meta : Endian → List ℕ → Option ServerHelloMeta
decode_server_meta e (a ∷ b ∷ c ∷ d ∷ f ∷ g ∷ h ∷ i ∷ []) = some (record {
  dispatch_route = a;
  reserved = b;
  srv_pub_len = num16 e c d;
  pqc_pk_len = num32 e f g h i;
})
decode_server_meta e _ = none
