-- ===== src/Noise/Handshake.antt =====
-- `Handshake` of protocol/boringtun/src/noise/handshake.rs. Time is nanoseconds of the monotonic clock;
-- what the source reads from the clock and the random generator is an `Env`. Each method returns its
-- result and the handshake that it leaves.
pub mod Timestamp
pub mod Keys
pub mod Initiate
pub mod Respond
pub mod Cookie
pub mod Wire
pub mod Agreement
pub mod Exchange
mod Tests
use xelt_vpn.Prelude.{
  ℕ, ◌+◌, ◌*◌, ◌/◌, ◌%◌, Bool, true, false, not, List, [], ◌∷◌, ◌++◌, Option, none, some, ◌==◌,
  if◌then◌else◌, replicate, bytes_eq,
}
use xelt_vpn.Noise.Errors.{Result, ok, panic}
use xelt_vpn.Noise.Crypto.{Crypto, b2s_hash}
use Timestamp.{Tai64N, TimeStamper}

abbrev pub key_len : ℕ
key_len = 32

abbrev pub timestamp_len : ℕ
timestamp_len = 12

-- "mac1----" and "cookie--".
abbrev pub label_mac1 : List ℕ
label_mac1 = 109 ∷ 97 ∷ 99 ∷ 49 ∷ 45 ∷ 45 ∷ 45 ∷ 45 ∷ []

abbrev pub label_cookie : List ℕ
label_cookie = 99 ∷ 111 ∷ 111 ∷ 107 ∷ 105 ∷ 101 ∷ 45 ∷ 45 ∷ []

-- What one call reads from outside: the clock, and a fresh ephemeral secret.
pub record Env : Type 0 where
  pub now : ℕ
  pub ephemeral : List ℕ

pub record NoiseParams : Type 0 where
  pub static_public : List ℕ
  pub static_private : List ℕ
  pub peer_static_public : List ℕ
  pub static_shared : List ℕ
  pub sending_mac1_key : List ℕ
  pub preshared_key : Option (List ℕ)

pub record HandshakeInitSentState : Type 0 where
  pub local_index : ℕ
  pub hash : List ℕ
  pub chaining_key : List ℕ
  pub ephemeral_private : List ℕ
  pub time_sent : ℕ

pub record InitReceivedState : Type 0 where
  pub hash : List ℕ
  pub chaining_key : List ℕ
  pub peer_ephemeral_public : List ℕ
  pub peer_index : ℕ

-- `None` is `idle` here.
pub data HandshakeState : Type 0 where
  idle : HandshakeState
  init_sent : HandshakeInitSentState → HandshakeState
  init_received : InitReceivedState → HandshakeState
  expired : HandshakeState

pub record Cookies : Type 0 where
  pub last_mac1 : Option (List ℕ)
  pub index : ℕ
  pub write_cookie : Option (List ℕ)

pub record Handshake : Type 0 where
  pub params : NoiseParams
  pub next_index : ℕ
  pub previous : HandshakeState
  pub state : HandshakeState
  pub cookies : Cookies
  pub last_handshake_timestamp : Tai64N
  pub stamper : TimeStamper
  pub last_rtt : Option ℕ

module _ (crypto : Crypto) where
  unfoldable pub new_params : List ℕ → List ℕ → List ℕ → Option (List ℕ) → NoiseParams
  new_params static_private static_public peer_static_public preshared_key = record {
    static_public = static_public;
    static_private = static_private;
    peer_static_public = peer_static_public;
    static_shared = crypto.diffie_hellman static_private peer_static_public;
    sending_mac1_key = b2s_hash crypto label_mac1 peer_static_public;
    preshared_key = preshared_key;
  }

  unfoldable pub new_handshake :
      List ℕ → List ℕ → List ℕ → ℕ → Option (List ℕ) → TimeStamper → Handshake
  unfolding new_params
  new_handshake static_private static_public peer_static_public global_idx preshared_key stamper =
      record {
        params = new_params static_private static_public peer_static_public preshared_key;
        next_index = global_idx;
        previous = idle;
        state = idle;
        last_handshake_timestamp = Timestamp.zero_stamp;
        stamper = stamper;
        cookies = record { last_mac1 = none; index = 0; write_cookie = none };
        last_rtt = none;
      }

  -- A public key that does not belong to the private one fails an assertion.
  unfoldable pub set_static_private : Handshake → List ℕ → List ℕ → Result Handshake
  set_static_private h private_key public_key =
      if bytes_eq (crypto.public_key private_key) public_key
      then ok (record h {
        params = record (h.params) {
          static_private = private_key;
          static_public = public_key;
          static_shared = crypto.diffie_hellman private_key h.params.peer_static_public;
        };
      })
      else panic

abbrev pub in_progress : HandshakeState → Bool
in_progress idle = false
in_progress (init_sent s) = true
in_progress (init_received s) = true
in_progress expired = false

abbrev pub is_in_progress : Handshake → Bool
is_in_progress h = in_progress h.state

abbrev pub timer_of : HandshakeState → Option ℕ
timer_of idle = none
timer_of (init_sent s) = some s.time_sent
timer_of (init_received s) = none
timer_of expired = none

abbrev pub timer : Handshake → Option ℕ
timer h = timer_of h.state

unfoldable pub set_expired : Handshake → Handshake
set_expired h = record h { previous = expired; state = expired }

abbrev pub expired_state : HandshakeState → Bool
expired_state idle = false
expired_state (init_sent s) = false
expired_state (init_received s) = false
expired_state expired = true

abbrev pub is_expired : Handshake → Bool
is_expired h = expired_state h.state

abbrev pub is_some : Option (List ℕ) → Bool
is_some none = false
is_some (some c) = true

abbrev pub has_cookie : Handshake → Bool
has_cookie h = is_some h.cookies.write_cookie

unfoldable pub clear_cookie : Handshake → Handshake
clear_cookie h = record h { cookies = record (h.cookies) { write_cookie = none } }

-- `(index & !0xff) | u32::from(idx8.wrapping_add(1))`: the two parts share no bit.
abbrev pub next_of : ℕ → ℕ
next_of index = index / 256 * 256 + (index % 256 + 1) % 256

unfoldable pub inc_index : Handshake → ℕ × Handshake
inc_index h = (next_of h.next_index, record h { next_index = next_of h.next_index })
