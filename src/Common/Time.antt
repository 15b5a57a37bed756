-- ===== src/Common/Time.antt =====
-- Python datetimes. An aware datetime is the instant that it names, in microseconds since
-- 0001-01-01T00:00:00Z; `astimezone(UTC)` keeps the instant.
use Prim.Native.Nat.{ℕ, ◌+◌, ◌*◌, ◌-◌}
use personal_assistant.Common.Tests.{leb, if◌then◌else◌}
use personal_assistant.Common.Exec.{Result, ok, err, overflow_error}

abbrev pub Instant : Type 0
Instant = ℕ

pub data Datetime : Type 0 where
  naive : ℕ → Datetime
  aware : Instant → Datetime

-- `timedelta(seconds=1)`
abbrev pub second : ℕ
second = 1_000_000

-- `datetime.max`, 9999-12-31T23:59:59.999999
abbrev pub max_instant : Instant
max_instant = 3_652_059 * 86_400 * second - 1

-- `t + timedelta(seconds=s)` raises `OverflowError` past `datetime.max`
unfoldable pub add_seconds : Instant → ℕ → Result Instant
add_seconds t s =
    if leb (t + s * second) max_instant then ok (t + s * second) else err overflow_error

-- `t - timedelta(minutes=m)` raises `OverflowError` before `datetime.min`
unfoldable pub sub_minutes : Instant → ℕ → Result Instant
sub_minutes t m = if leb (m * 60 * second) t then ok (t - m * 60 * second) else err overflow_error
