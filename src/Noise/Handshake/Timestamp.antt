-- ===== src/Noise/Handshake/Timestamp.antt =====
-- TAI64N timestamps of protocol/boringtun/src/noise/handshake.rs. A duration is a number of
-- nanoseconds.
use xelt_vpn.Prelude.{
  ℕ, ◌+◌, ◌-◌, ◌/◌, ◌%◌, ◌^◌, ◌≤◌, ◌<◌, ◌≡◌, ◌∙◌, Bool, ◌&&◌, ◌||◌, List, ◌++◌, ltb, ◌==◌, slice,
  to_be, from_be, from_be-to_be, arith,
}

pub record Tai64N : Type 0 where
  pub secs : ℕ
  pub nano : ℕ

-- The wall clock at the start, and the monotonic clock then.
pub record TimeStamper : Type 0 where
  pub duration_at_start : ℕ
  pub instant_at_start : ℕ

abbrev pub nanos_per_sec : ℕ
nanos_per_sec = 1_000_000_000

abbrev pub tai64_base : ℕ
tai64_base = 2 ^ 62 + 37

-- `as_secs() + TAI64_BASE` wraps at 64 bits.
unfoldable pub stamp : TimeStamper → ℕ → List ℕ
stamp t now =
    let d = now - t.instant_at_start + t.duration_at_start in
    to_be 8 ((d / nanos_per_sec + tai64_base) % 2 ^ 64) ++ to_be 4 (d % nanos_per_sec)

unfoldable pub zero_stamp : Tai64N
zero_stamp = record { secs = 0; nano = 0 }

-- The buffer has 12 bytes by its type.
unfoldable pub parse : List ℕ → Tai64N
parse buf = record { secs = from_be (slice 0 8 buf); nano = from_be (slice 8 12 buf) }

unfoldable pub after : Tai64N → Tai64N → Bool
after t other = ltb other.secs t.secs || (t.secs == other.secs && ltb other.nano t.nano)

-- The time that a stamp shows, in nanoseconds.
abbrev pub shown : TimeStamper → ℕ → ℕ
shown t now = now - t.instant_at_start + t.duration_at_start

parse-stamp :
    (t : TimeStamper) (now : ℕ)
    → shown t now / nanos_per_sec + tai64_base < 2 ^ 64
    → parse (stamp t now) ≡ record {
      secs = shown t now / nanos_per_sec + tai64_base;
      nano = shown t now % nanos_per_sec;
    }
unfolding parse stamp
parse-stamp t now h = λ i. record {
  secs = secs_path i;
  nano = from_be-to_be 4 (shown t now % nanos_per_sec) (omega arith) i;
}
  where
    whole :
        (shown t now / nanos_per_sec + tai64_base) % 2 ^ 64
        ≡ shown t now / nanos_per_sec + tai64_base
    whole = omega arith

    secs_path :
        from_be (to_be 8 ((shown t now / nanos_per_sec + tai64_base) % 2 ^ 64))
        ≡ shown t now / nanos_per_sec + tai64_base
    secs_path =
        from_be-to_be 8 ((shown t now / nanos_per_sec + tai64_base) % 2 ^ 64) (omega arith) ∙ whole

-- Of two stamps of one stamper, a responder takes the second for later than the first exactly if it was
-- made later, for clocks not before the stamper's start and times short of the 64-bit wrap.
after-stamp :
    (t : TimeStamper) (now later : ℕ)
    → t.instant_at_start ≤ now
    → t.instant_at_start ≤ later
    → shown t now / nanos_per_sec + tai64_base < 2 ^ 64
    → shown t later / nanos_per_sec + tai64_base < 2 ^ 64
    → after (parse (stamp t later)) (parse (stamp t now)) ≡ ltb now later
unfolding after
after-stamp t now later a b h k = rw (parse-stamp t now h, parse-stamp t later k) (ground arith)
