-- ===== src/Noise/Packet.antt =====
-- The wire format of protocol/boringtun/src/noise/mod.rs: message types, `Packet`, and
-- `Tunn::parse_incoming_packet`. A slice of the datagram is its list of bytes.
pub mod Shape
use xelt_vpn.Prelude.{
  ℕ, Bool, true, false, ◌&&◌, List, ltb, leb, ◌==◌, if◌then◌else◌, length, slice, drop, from_le,
}
use xelt_vpn.Noise.Errors.{Result, ok, err, invalid_packet}

abbrev pub handshake_init_type : ℕ
handshake_init_type = 1

abbrev pub handshake_resp_type : ℕ
handshake_resp_type = 2

abbrev pub cookie_reply_type : ℕ
cookie_reply_type = 3

abbrev pub data_type : ℕ
data_type = 4

abbrev pub handshake_init_sz : ℕ
handshake_init_sz = 148

abbrev pub handshake_resp_sz : ℕ
handshake_resp_sz = 92

abbrev pub cookie_reply_sz : ℕ
cookie_reply_sz = 64

abbrev pub data_overhead_sz : ℕ
data_overhead_sz = 32

pub record HandshakeInit : Type 0 where
  pub sender_idx : ℕ
  pub unencrypted_ephemeral : List ℕ
  pub encrypted_static : List ℕ
  pub encrypted_timestamp : List ℕ

pub record HandshakeResponse : Type 0 where
  pub sender_idx : ℕ
  pub receiver_idx : ℕ
  pub unencrypted_ephemeral : List ℕ
  pub encrypted_nothing : List ℕ

pub record PacketCookieReply : Type 0 where
  pub receiver_idx : ℕ
  pub nonce : List ℕ
  pub encrypted_cookie : List ℕ

pub record PacketData : Type 0 where
  pub receiver_idx : ℕ
  pub counter : ℕ
  pub encrypted_encapsulated_packet : List ℕ

pub data Packet : Type 0 where
  handshake_init : HandshakeInit → Packet
  handshake_response : HandshakeResponse → Packet
  packet_cookie_reply : PacketCookieReply → Packet
  packet_data : PacketData → Packet

-- The fields of each message, once the length has been tested.
abbrev pub read_init : List ℕ → HandshakeInit
read_init src = record {
  sender_idx = from_le (slice 4 8 src);
  unencrypted_ephemeral = slice 8 40 src;
  encrypted_static = slice 40 88 src;
  encrypted_timestamp = slice 88 116 src;
}

abbrev pub read_response : List ℕ → HandshakeResponse
read_response src = record {
  sender_idx = from_le (slice 4 8 src);
  receiver_idx = from_le (slice 8 12 src);
  unencrypted_ephemeral = slice 12 44 src;
  encrypted_nothing = slice 44 60 src;
}

abbrev pub read_cookie_reply : List ℕ → PacketCookieReply
read_cookie_reply src = record {
  receiver_idx = from_le (slice 4 8 src);
  nonce = slice 8 32 src;
  encrypted_cookie = slice 32 64 src;
}

abbrev pub read_data : List ℕ → PacketData
read_data src = record {
  receiver_idx = from_le (slice 4 8 src);
  counter = from_le (slice 8 16 src);
  encrypted_encapsulated_packet = drop 16 src;
}

-- The `match` on the type and the length, its arms in the source's order.
unfoldable pub parse_typed : ℕ → List ℕ → Result Packet
parse_typed packet_type src =
    if packet_type == handshake_init_type && length src == handshake_init_sz
    then ok (handshake_init (read_init src))
    else if packet_type == handshake_resp_type && length src == handshake_resp_sz
    then ok (handshake_response (read_response src))
    else if packet_type == cookie_reply_type && length src == cookie_reply_sz
    then ok (packet_cookie_reply (read_cookie_reply src))
    else if packet_type == data_type && leb data_overhead_sz (length src)
    then ok (packet_data (read_data src))
    else err invalid_packet

unfoldable pub parse_incoming_packet : List ℕ → Result Packet
parse_incoming_packet src =
    if ltb (length src) 4 then err invalid_packet else parse_typed (from_le (slice 0 4 src)) src
