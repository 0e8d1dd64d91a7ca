-- ===== src/Lib.antt =====
-- A model of a metered VPN: its WireGuard core, protocol/boringtun/src/noise; its payments,
-- protocol/boringtun/src/payment; and, of protocol/boringtun/src/device, the handlers of packets and
-- payments, the pool of addresses, the indexes of peers, and the set commands of the configuration
-- protocol.
--
-- How the parts interact. A device gives each datagram to `Tunn::decapsulate` (Noise/Tunn/Inbound.antt).
-- The rate limiter (Noise/RateLimiter.antt) parses it (Noise/Packet.antt) and checks the MACs of
-- handshake messages; the handshake (Noise/Handshake.antt) answers those, and its sessions
-- (Noise/Session.antt) open and seal data packets under a window of received counters
-- (Noise/Session/Window.antt). Packets from the tunnel interface enter by `Tunn::encapsulate`
-- (Noise/Tunn.antt), and wait in a queue while there is no session. `Tunn::update_timers`
-- (Noise/Tunn/Clock.antt) expires sessions and connections, and asks for handshakes and keepalives.
-- What a peer may send is counted by its quota (Payment/Quota.antt), which is credited for the
-- messages of Payment/Protocol; these travel in UDP packets of Payment/Signal.antt. The handlers of
-- Device/Gate.antt let a packet in or out of the tunnel as the quota says, and hand signals to
-- Device/Payments.antt, where a server checks the signature (Payment/Eip3009.antt over
-- Payment/Wallet.antt), settles (Payment/Settlement.antt) and credits, and a client signs what it is
-- asked for. The registration service (Device/Registration.antt) gives keys their addresses and tells
-- the device by the configuration protocol (Device/Api.antt); the device gives each peer an index
-- (Device/Index.antt). The device keeps its peers in three maps (Device/Table.antt), which the calls of
-- the configuration protocol change and which datagrams are looked up in (Device/Table/Receive.antt).
--
-- Which file models what (paths under protocol/boringtun/src):
--   Prelude               lists, bytes, bits, texts, sets and maps, and messages made of fields
--   Noise/Errors          noise/errors.rs, and results that may also be a panic
--   Noise/Aead, Crypto    the crypto crates as records of operations and laws; `Plain` is an instance
--   Noise/Packet          noise/mod.rs: message types, `parse_incoming_packet`
--   Noise/Session         noise/session.rs: `Session`, `ReceivingKeyCounterValidator`
--   Noise/Handshake       noise/handshake.rs: `Handshake`, `Tai64N`, `TimeStamper`, the key schedule
--   Noise/RateLimiter     noise/rate_limiter.rs: `RateLimiter`
--   Noise/Timers          noise/timers.rs: `Timers`
--   Noise/Tunn            noise/mod.rs: `Tunn`, and noise/timers.rs: its timer methods (Tunn/Clock)
--   Payment/Quota         payment/quota.rs: `BandwidthQuota`
--   Payment/Protocol      payment/protocol.rs: `PaymentRequired`, `PaymentSubmit`, `PaymentAccepted`
--   Payment/Signal        payment/protocol.rs: the IP/UDP packet around a message
--   Payment/Config        payment/mod.rs: `PaymentConfig`
--   Payment/Wallet        payment/wallet.rs: `PaymentWallet`; `Secp` is what it uses of the crypto crates
--   Payment/Eip3009       payment/eip3009.rs: authorizations, their digest and their signature
--   Payment/Settlement    payment/settlement.rs: the request to the settlement service
--   Payment/Tx            payment/tx.rs: `Eip1559Tx` and its RLP encoding
--   Payment/Deposit       payment/deposit.rs: `auto_deposit`; Payment/Rpc: payment/rpc.rs, `RpcClient`
--   Device/Peer           device/peer.rs: `Peer`, `Endpoint`
--   Device/Payments       device/mod.rs: `send_payment_required`, `handle_payment_submit`,
--                         `handle_payment_signal_client`
--   Device/Gate           device/mod.rs: one packet in `register_udp_handler`,
--                         `register_conn_handler` and `register_iface_handler`, and the flush loop
--   Device/Registration   device/http_api.rs: `RegistrationState`, its handlers and the reaper
--   Device/Index          device/mod.rs: `IndexLfsr`, `next_index`
--   Device/Table          device/mod.rs: the maps of `Device`, `update_peer`, `remove_peer`, `clear_peers`,
--                         `set_key`, `open_listen_socket`, `set_fwmark`; Receive: `register_udp_handler`;
--                         Ticks: `register_timers`; Report: `api_get` of device/api.rs and
--                         `uapi_get_peers` of device/http_api.rs
--   Device/Api            device/api.rs: `api_set`, `api_set_peer`; serialization.rs: `KeyBytes`
--
-- How code becomes definitions. A struct is a record, an enum a data type; a method takes the state and
-- returns its result with the state that it leaves. Atomics and values behind a lock are fields of
-- the state. A shared peer is a cell of a store, known by a number; a shared limiter is copied into the
-- tunnels that have it. Bytes are numbers in a list; a buffer that is written enters by its length. Sums of
-- 64-bit numbers are written with their wrap, as a release build computes them. `unwrap`, assertions and
-- slices out of range give `panic`. Time is nanoseconds of the monotonic clock; each call of a method
-- reads the clock once, and takes that reading and the random keys as arguments. `Duration - Duration`
-- panics below zero, as in the source.
--
-- Fuel: the carries of the IP checksum are folded by a loop with fuel 3, enough for any 32-bit sum, as
-- `fold_carries_enough` proves. The loops of the window are recursions on the number of rounds that
-- the source's bounds give. The loop that flushes a queue runs on fuel, of which the packets that wait
-- and two more are enough (`flush_all-Ended`). A decimal number is printed in as many digits as its type
-- can have. The loop of `random_index` runs over the random numbers it is given.
--
-- Parameters stand for what is not the repository's: the crypto crates with the laws of the records
-- `Aead`, `Crypto` and `Secp` (lengths, opening what was sealed, agreement of the two sides of a
-- Diffie-Hellman exchange, recovery of a signer; secrecy is not stated), the parsers of hex, base64, JSON
-- and addresses, the table of allowed addresses with its search and insertion, the order in which a
-- `HashSet` iterates, whether the system shuts a connected socket down without an error, and the answers
-- of the settlement service, of the chain's node and of the configuration socket.
--
-- Not modelled: sockets, threads, the event loop, the HTTP server with its token bucket, the C and Java
-- bindings, the desktop client; how a device opens connected sockets; logging; the estimate of loss,
-- which is in floating point. A read of the configuration socket that fails is not modelled.
pub mod Prelude
pub mod Noise
pub mod Payment
pub mod Device
