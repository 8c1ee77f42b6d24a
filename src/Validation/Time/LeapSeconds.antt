-- ===== src/Validation/Time/LeapSeconds.antt =====
-- Leap seconds against the minutes that have passed since the local month began.
use infra_artifact_ledger.Prelude.{ℕ, ◌+◌, ◌-◌, ◌*◌, ◌≤◌, ◌<◌, ◌≡◌, ◌↔◌, ◌⊎◌, Bool, true, arith}
use infra_artifact_ledger.Validation.Time.{
  Zone, utc, ahead, behind, Stamp, is_leap, month_days, local_valid, zone_valid, utc_shift,
  ends_month, leap_valid,
}

pub month_days_bounds : (y m : ℕ) → (28 ≤ month_days y m) × (month_days y m ≤ 31)
unfolding month_days is_leap
month_days_bounds y m = ground arith

-- The minutes from the start of the local month to the stamp.
abbrev pub month_minute : Stamp → ℕ
month_minute s = (s.day - 1) * 1440 + (s.hour * 60 + s.minute)

-- The stamp lies in the last UTC minute of a month: the local month's own, or the one before it.
abbrev pub LastMinute : Stamp → Zone → Type 0
LastMinute s utc = month_minute s + 1 ≡ month_days s.year s.month * 1440
LastMinute s (ahead h m) =
    (month_minute s + 1 ≡ h * 60 + m)
    ⊎ (month_minute s + 1 ≡ month_days s.year s.month * 1440 + (h * 60 + m))
LastMinute s (behind h m) = month_minute s + 1 + (h * 60 + m) ≡ month_days s.year s.month * 1440

-- The bounds that `local_valid` checks.
pub record IsLocal (s : Stamp) : Type 0 where
  pub day_low : 1 ≤ s.day
  pub day_high : s.day ≤ month_days s.year s.month
  pub clock : s.hour * 60 + s.minute < 1440

local_valid-IsLocal : (s : Stamp) → local_valid s ≡ true → IsLocal s
unfolding local_valid
local_valid-IsLocal s v = ground arith

abbrev offset : Zone → ℕ
offset utc = 0
offset (ahead h m) = h * 60 + m
offset (behind h m) = h * 60 + m

offset-lt : (z : Zone) → zone_valid z ≡ true → offset z < 1440
unfolding zone_valid
offset-lt utc r = ground arith
offset-lt (ahead h m) r = ground arith
offset-lt (behind h m) r = ground arith

module _ (s : Stamp) (local : IsLocal s) where
  abbrev shifted : Zone → Bool
  shifted z = ends_month s.year s.month s.day (utc_shift (s.hour * 60 + s.minute) z)

  leap_utc : shifted utc ≡ true → LastMinute s utc
  unfolding ends_month utc_shift
  leap_utc h = ground (arith, local.day_low, local.day_high, local.clock)

  utc_leap : LastMinute s utc → shifted utc ≡ true
  unfolding ends_month utc_shift
  utc_leap h = ground (arith, local.day_low, local.day_high, local.clock)

  module _ (h m : ℕ) (bounded : h * 60 + m < 1440) where
    leap_ahead : shifted (ahead h m) ≡ true → LastMinute s (ahead h m)
    unfolding ends_month utc_shift
    leap_ahead e =
        ground (arith, local.day_low, local.day_high, local.clock, month_days_bounds s.year s.month)

    ahead_leap : LastMinute s (ahead h m) → shifted (ahead h m) ≡ true
    unfolding ends_month utc_shift
    ahead_leap e =
        ground (arith, local.day_low, local.day_high, local.clock, month_days_bounds s.year s.month)

    leap_behind : shifted (behind h m) ≡ true → LastMinute s (behind h m)
    unfolding ends_month utc_shift
    leap_behind e = ground (
      arith,
      local.day_low,
      local.day_high,
      local.clock,
      month_days_bounds s.year s.month,
      month_days_bounds s.year (s.month + 1),
      month_days_bounds (s.year + 1) 1,
    )

    behind_leap : LastMinute s (behind h m) → shifted (behind h m) ≡ true
    unfolding ends_month utc_shift
    behind_leap e =
        ground (arith, local.day_low, local.day_high, local.clock, month_days_bounds s.year s.month)

-- A stamp whose local fields and offset are in range is accepted as a leap second exactly when its
-- minute is the last UTC minute of a month, counted from the start of the local month.
pub leap_valid_iff :
    (s : Stamp)
    → local_valid s ≡ true
    → zone_valid s.zone ≡ true
    → (leap_valid s ≡ true) ↔ LastMinute s s.zone
unfolding leap_valid
leap_valid_iff s v z = at_zone s.zone z
  where
    local : IsLocal s
    local = local_valid-IsLocal s v

    at_zone :
        (w : Zone)
        → zone_valid w ≡ true
        → (ends_month s.year s.month s.day (utc_shift (s.hour * 60 + s.minute) w) ≡ true)
          ↔ LastMinute s w
    at_zone utc _ = (leap_utc s local, utc_leap s local)
    at_zone (ahead h m) r =
        let o = offset-lt (ahead h m) r in (leap_ahead s local h m o, ahead_leap s local h m o)
    at_zone (behind h m) r =
        let o = offset-lt (behind h m) r in (leap_behind s local h m o, behind_leap s local h m o)
