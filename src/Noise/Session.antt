-- ===== src/Noise/Session.antt =====
-- `Session` of protocol/boringtun/src/noise/session.rs: data packets out and in under one key pair.
-- Each method returns its result and the session that it leaves. A buffer `dst` enters by its length;
-- the slice that a method returns is the list of its bytes.
pub mod Window
pub mod Send
pub mod Receive
pub mod Once
mod Tests
use xelt_vpn.Prelude.{
  ℕ, ◌+◌, ◌%◌, ◌^◌, ◌≢◌, Bool, true, false, not, List, [], ◌∷◌, ◌++◌, Option, none, some, ltb, ◌==◌,
  if◌then◌else◌, length, to_le, replicate,
}
use xelt_vpn.Noise.Errors.{Result, ok, err, panic, wrong_index, invalid_aead_tag}
use xelt_vpn.Noise.Aead.{Aead}
use xelt_vpn.Noise.Packet.{PacketData, data_type, data_overhead_sz}
use Window.{ReceivingKeyCounterValidator, fresh, add_u64, will_accept, mark_did_receive}

pub record Session : Type 0 where
  pub receiving_index : ℕ
  pub sending_index : ℕ
  pub receiver : List ℕ
  pub sender : List ℕ
  pub sending_key_counter : ℕ
  pub receiving_key_counter : ReceivingKeyCounterValidator

unfoldable pub new : ℕ → ℕ → List ℕ → List ℕ → Session
new local_index peer_index receiving_key sending_key = record {
  receiving_index = local_index;
  sending_index = peer_index;
  receiver = receiving_key;
  sender = sending_key;
  sending_key_counter = 0;
  receiving_key_counter = fresh;
}

abbrev pub local_index : Session → ℕ
local_index s = s.receiving_index

unfoldable pub receiving_counter_quick_check : Session → ℕ → Result (Unit {0})
receiving_counter_quick_check s counter = will_accept s.receiving_key_counter counter

-- `receive_cnt` counts the marks that succeed.
abbrev pub count_if_ok :
    Result (Unit {0}) → ReceivingKeyCounterValidator → ReceivingKeyCounterValidator
count_if_ok (ok _) w = record w { receive_cnt = add_u64 w.receive_cnt 1 }
count_if_ok (err _) w = w
count_if_ok panic w = w

unfoldable pub receiving_counter_mark : Session → ℕ → Result (Unit {0}) × Session
receiving_counter_mark s counter =
    let (r, w) = mark_did_receive s.receiving_key_counter counter in
    (r, record s { receiving_key_counter = count_if_ok r w })

-- The 12-byte nonce: four zeros, then the counter.
abbrev pub nonce_of : ℕ → List ℕ
nonce_of counter = replicate 4 0 ++ to_le 8 counter

-- The estimate of `current_packet_cnt`: expected and received.
abbrev pub current_packet_cnt : Session → ℕ × ℕ
current_packet_cnt s = (s.receiving_key_counter.next, s.receiving_key_counter.receive_cnt)

-- Message type, receiver index and counter.
abbrev pub header : Session → List ℕ
header s = to_le 4 data_type ++ (to_le 4 s.sending_index ++ to_le 8 s.sending_key_counter)

module _ (aead : Aead) where
  -- `.unwrap()` of a seal that fails panics.
  pub seal_packet : Session → List ℕ → Result (List ℕ)
  seal_packet s src = elim (aead.seal s.sender (nonce_of s.sending_key_counter) [] src) [
    | none ↦ panic
    | some (c, tag) ↦ ok (header s ++ (c ++ tag))
  ]

  -- The counter is taken (`fetch_add`) before the text is sealed.
  unfoldable pub format_packet_data : Session → List ℕ → ℕ → Result (List ℕ) × Session
  unfolding seal_packet
  format_packet_data s src dst_len =
      if ltb dst_len (length src + data_overhead_sz)
      then (panic, s)
      else (seal_packet s src, record s { sending_key_counter = add_u64 s.sending_key_counter 1 })

  unfoldable pub decrypt : Session → PacketData → Result (List ℕ)
  decrypt s p =
      elim (aead.unseal s.receiver (nonce_of p.counter) [] p.encrypted_encapsulated_packet) [
        | none ↦ err invalid_aead_tag
        | some text ↦ ok text
      ]

  -- `ret`, once the counter is marked.
  unfoldable pub deliver : List ℕ → Result (Unit {0}) × Session → Result (List ℕ) × Session
  deliver text (ok _, s) = (ok text, s)
  deliver text (err e, s) = (err e, s)
  deliver text (panic, s) = (panic, s)

  unfoldable pub open_and_mark : Session → PacketData → Result (List ℕ) × Session
  unfolding deliver decrypt
  open_and_mark s p = elim (decrypt s p) [
    | ok text ↦ deliver text (receiving_counter_mark s p.counter)
    | err e ↦ (err e, s)
    | panic ↦ (panic, s)
  ]

  unfoldable pub checked_open : Session → PacketData → Result (List ℕ) × Session
  checked_open s p = elim (receiving_counter_quick_check s p.counter) [
    | ok _ ↦ open_and_mark s p
    | err e ↦ (err e, s)
    | panic ↦ (panic, s)
  ]

  unfoldable pub receive_packet_data : Session → PacketData → ℕ → Result (List ℕ) × Session
  unfolding checked_open open_and_mark
  receive_packet_data s p dst_len =
      if ltb dst_len (length p.encrypted_encapsulated_packet)
      then (panic, s)
      else if not (p.receiver_idx == s.receiving_index)
      then (err wrong_index, s)
      else checked_open s p
