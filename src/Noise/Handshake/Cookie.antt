-- ===== src/Noise/Handshake/Cookie.antt =====
-- `receive_cookie_reply` of protocol/boringtun/src/noise/handshake.rs.
use xelt_vpn.Prelude.{ℕ, not, List, Option, none, some, ◌==◌, if◌then◌else◌, length}
use xelt_vpn.Noise.Errors.{
  Result, ok, err, unexpected_packet, wrong_index, invalid_aead_tag, invalid_packet,
}
use xelt_vpn.Noise.Crypto.{Crypto, b2s_hash}
use xelt_vpn.Noise.Packet.{PacketCookieReply}
use xelt_vpn.Noise.Handshake.{Handshake, label_cookie}

module _ (crypto : Crypto) where
  -- A cookie that is not 16 bytes long is an invalid packet.
  unfoldable pub store_cookie : Handshake → Option (List ℕ) → Result (Unit {0}) × Handshake
  store_cookie h none = (err invalid_aead_tag, h)
  store_cookie h (some cookie) =
      if length cookie == 16
      then (ok tt, record h { cookies = record (h.cookies) { write_cookie = some cookie } })
      else (err invalid_packet, h)

  unfoldable pub open_cookie :
      Handshake → Option (List ℕ) → PacketCookieReply → Result (Unit {0}) × Handshake
  unfolding store_cookie
  open_cookie h none packet = (err unexpected_packet, h)
  open_cookie h (some mac1) packet =
      if not (packet.receiver_idx == h.cookies.index)
      then (err wrong_index, h)
      else store_cookie h (
          crypto.xunseal (b2s_hash crypto label_cookie h.params.peer_static_public) packet.nonce
            mac1 packet.encrypted_cookie)

  unfoldable pub receive_cookie_reply :
      Handshake → PacketCookieReply → Result (Unit {0}) × Handshake
  unfolding open_cookie
  receive_cookie_reply h packet = open_cookie h h.cookies.last_mac1 packet
