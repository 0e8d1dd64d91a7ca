-- ===== src/Noise/Session/Tests.antt =====
-- Runs of the window and of sessions at concrete inputs.
use mathlib.Core.List.{Nodup}
use xelt_vpn.Prelude.{ℕ, ◌-◌, ◌≡◌, refl, List, [], ◌∷◌, ◌++◌, some, replicate, arith}
use xelt_vpn.Noise.Errors.{ok, err, invalid_counter, duplicate_counter}
use xelt_vpn.Noise.Aead.Plain.{plain}
use xelt_vpn.Noise.Packet.{PacketData, packet_data, parse_incoming_packet}
use xelt_vpn.Noise.Session.Window.{
  fresh, u64_mod, will_accept, mark_did_receive, set_bit, clear_bit, clear_word, check_bit, skip,
  clear_to_word, clear_words, clear_rest,
}
use xelt_vpn.Noise.Session.Window.History.{top, seen, accepts, extend, extend_all, Stands}
use xelt_vpn.Noise.Session.Window.Refine.{
  mark_all, mark_all-Stands, mark_refines, will_accept_refines, fresh-Stands,
}
use xelt_vpn.Noise.Session.Window.Replay.{wrap_reopens}
use xelt_vpn.Noise.Session.{Session, new, format_packet_data, seal_packet, receive_packet_data}
use xelt_vpn.Noise.Session.Receive.{Received, delivered, delivered_counters, receive_refines}
use xelt_vpn.Noise.Session.Once.{delivered_counters-Nodup}
use xelt_vpn.Noise.Session.Send.{receive-format}

-- The first counters of the source's own test, with a jump of 134 that runs all three loops.
abbrev marks : List ℕ
marks = 0 ∷ 1 ∷ 63 ∷ 15 ∷ 197 ∷ []

mark_run :
    ((mark_did_receive (mark_all fresh marks) 15).0 ≡ err invalid_counter)
    × ((mark_did_receive (mark_all fresh marks) 197).0 ≡ err invalid_counter)
    × ((mark_did_receive (mark_all fresh marks) 196).0 ≡ ok tt)
    × ((will_accept (mark_all fresh marks) 63) ≡ err duplicate_counter)
    × ((mark_all fresh marks).next ≡ 198)
unfolding mark_all mark_did_receive will_accept set_bit clear_bit clear_word check_bit skip
    clear_to_word clear_words clear_rest
mark_run = (refl, refl, refl, refl, refl)

will_accept_refines_example : will_accept fresh 7 ≡ ok tt
unfolding accepts top seen
will_accept_refines_example = will_accept_refines fresh [] 7 fresh-Stands (omega arith)

mark_refines_example :
    ((mark_did_receive fresh 7).0 ≡ ok tt) × Stands (mark_did_receive fresh 7).1 (extend [] 7)
unfolding accepts top seen
mark_refines_example = mark_refines fresh [] 7 fresh-Stands (omega arith)

mark_all-Stands_example : Stands (mark_all fresh marks) (extend_all [] marks)
mark_all-Stands_example = mark_all-Stands fresh [] marks fresh-Stands (omega arith)

wrap_reopens_example :
    let w' = (mark_did_receive fresh (u64_mod - 1)).1 in
    ((mark_did_receive fresh (u64_mod - 1)).0 ≡ ok tt)
    × (w'.next ≡ 0)
    × ((mark_did_receive w' (u64_mod - 1)).0 ≡ ok tt)
wrap_reopens_example = wrap_reopens fresh (omega arith)

abbrev key : List ℕ
key = replicate 32 9

abbrev sender : Session
sender = record {
  receiving_index = 5;
  sending_index = 6;
  receiver = [];
  sender = key;
  sending_key_counter = 2;
  receiving_key_counter = fresh;
}

abbrev receiver : Session
receiver = record {
  receiving_index = 6;
  sending_index = 5;
  receiver = key;
  sender = [];
  sending_key_counter = 0;
  receiving_key_counter = fresh;
}

abbrev text : List ℕ
text = 69 ∷ 0 ∷ []

abbrev packet : ℕ → PacketData
packet c = record {
  receiver_idx = 6;
  counter = c;
  encrypted_encapsulated_packet = text ++ replicate 16 0;
}

receive_refines_example :
    Received plain receiver [] (packet 4) (receive_packet_data plain receiver (packet 4) 18)
receive_refines_example =
    receive_refines plain receiver [] (packet 4) 18 fresh-Stands (omega arith) (omega arith)

delivered_counters-Nodup_example :
    Nodup (delivered_counters plain 18 (new 6 5 key []) (packet 4 ∷ packet 4 ∷ packet 3 ∷ []))
delivered_counters-Nodup_example =
    delivered_counters-Nodup plain 18 6 5 key [] (packet 4 ∷ packet 4 ∷ packet 3 ∷ []) (omega arith)

receive-format_example :
    (p : PacketData) × (parse_incoming_packet
        (4 ∷ 0 ∷ 0 ∷ 0 ∷ 6 ∷ 0 ∷ 0 ∷ 0 ∷ 2 ∷ 0 ∷ 0 ∷ 0 ∷ 0 ∷ 0 ∷ 0 ∷ 0 ∷ (text ++ replicate 16 0))
      ≡ ok (packet_data p))
    × (delivered (receive_packet_data plain receiver p 64).0 ≡ some text)
unfolding format_packet_data seal_packet accepts top seen
receive-format_example =
    receive-format plain sender receiver [] text 64 64 refl refl (omega arith) (omega arith)
      fresh-Stands refl refl (omega arith)

-- A data packet of 34 bytes.
abbrev datagram : List ℕ
datagram = 4 ∷ 0 ∷ 0 ∷ 0 ∷ 6 ∷ 0 ∷ 0 ∷ 0 ∷ 2 ∷ 0 ∷ 0 ∷ 0 ∷ 0 ∷ 0 ∷ 0 ∷ 0 ∷ (text ++ replicate 16 0)
