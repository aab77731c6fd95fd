-- ===== src/Time.antt =====
-- What the relay uses of the `time` crate. An `OffsetDateTime` is the number of nanoseconds from the
-- earliest one, so its order is that of the numbers; the additions belong to the crate.
use rust_supervisor_relay.Base.{ℕ, suc, ◌+◌, ◌*◌, ◌≡◌, Option, some}
use rust_supervisor_relay.Base.Int.{ℤ, pos, negsuc}

abbrev pub OffsetDateTime : Type 0
OffsetDateTime = ℕ

pub record Clock : Type 0 where
  -- `t + Duration::seconds(s)`, which panics out of range.
  pub add_seconds : OffsetDateTime → ℤ → Option OffsetDateTime
  -- `OffsetDateTime::unix_timestamp_nanos`
  pub unix_nanos : OffsetDateTime → ℤ

-- A sum that is in range is exact.
pub record IsLawful (clock : Clock) : Type 0 where
  pub add_seconds_exact :
      (t u n : ℕ) → clock.add_seconds t (pos n) ≡ some u → u ≡ t + n * 1_000_000_000
  pub add_seconds_back :
      (t u n : ℕ) → clock.add_seconds t (negsuc n) ≡ some u → u + suc n * 1_000_000_000 ≡ t
