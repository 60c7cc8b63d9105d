-- ===== src/Infra/Timestamp.antt =====
-- lib/infra/timestamp.h: times in nanoseconds and the `struct timespec` of the system, for readings of
-- a clock and intervals that are not negative; and the moment up to which the cleaner of lib/cache.c
-- waits.
use propd.Prelude.{ℕ, ◌+◌, ◌*◌, ◌/◌, ◌%◌, ◌^◌, ◌≡◌, ◌<◌, arith}

pub record Timespec : Type 0 where
  pub sec : ℕ
  pub nsec : ℕ

-- `timestamp`, of what `clock_gettime` read.
unfoldable pub timestamp : Timespec → ℕ
timestamp ts = ts.sec * 1000000000 + ts.nsec

unfoldable pub timestamp2spec : ℕ → Timespec
timestamp2spec t = record { sec = t / 1000000000; nsec = t % 1000000000 }

unfoldable pub timestamp_from_ms : ℕ → ℕ
timestamp_from_ms ms = ms * 1000000

unfoldable pub timestamp_from_s : ℕ → ℕ
timestamp_from_s s = s * 1000000000

unfoldable pub timestamp_to_ms : ℕ → ℕ
timestamp_to_ms t = t / 1000000

unfoldable pub timestamp_to_s : ℕ → ℕ
timestamp_to_s t = t / 1000000000

-- The milliseconds are an `unsigned int`.
unfoldable pub feature : ℕ → ℕ → ℕ
feature now ms = now + (ms % 2 ^ 32) * 1000000

-- The time limit of the cleaner's `sem_timedwait`, for the largest interval between two sweeps.
unfoldable pub wait_until : Timespec → ℕ → Timespec
unfolding timestamp timestamp2spec feature timestamp_to_ms
wait_until now max_interval =
    timestamp2spec (feature (timestamp now) (timestamp_to_ms max_interval))

-- A time is what its `struct timespec` says, whose nanoseconds are less than a second.
pub timestamp-timestamp2spec :
    (t : ℕ) → (timestamp (timestamp2spec t) ≡ t) × ((timestamp2spec t).nsec < 1000000000)
unfolding timestamp timestamp2spec
timestamp-timestamp2spec t = (omega arith, omega arith)

-- The cleaner waits for the largest interval of a configuration in seconds, if it is less than 2^32
-- milliseconds, and a time limit that the system accepts.
pub wait_until-timestamp_from_s :
    (now : Timespec) (s : ℕ)
    → s * 1000 < 2 ^ 32
    → (timestamp (wait_until now (timestamp_from_s s)) ≡ timestamp now + timestamp_from_s s)
      × ((wait_until now (timestamp_from_s s)).nsec < 1000000000)
unfolding timestamp timestamp2spec wait_until feature timestamp_to_ms timestamp_from_s
wait_until-timestamp_from_s now s h = (omega (arith, h), omega arith)
