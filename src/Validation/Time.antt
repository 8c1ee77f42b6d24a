-- ===== src/Validation/Time.antt =====
-- `_time` of validation.py: RFC 3339 date-times with a zone, leap seconds included.
pub mod LeapSeconds
use infra_artifact_ledger.Prelude.{
  ℕ, zero, suc, ◌+◌, ◌-◌, ◌*◌, ◌/◌, ◌%◌, ◌≤◌, ◌<◌, ◌≡◌, refl, Bool, true, false, not, ◌&&◌, ◌||◌,
  List, [], ◌∷◌, Option, some, none, arith, ltb, leb, eqb, if◌then◌else◌,
}
use infra_artifact_ledger.Text.{Text, text}
use infra_artifact_ledger.Errors.{Code, Result, ok, err, ◌>>=◌, ◌>>◌}
use infra_artifact_ledger.Validation.Limits.{fail_if, require}
use infra_artifact_ledger.Validation.Scalars.{is_digit, unicode}

-- The groups of the pattern `_TIME`.
pub data Zone : Type 0 where
  utc : Zone
  ahead behind : ℕ → ℕ → Zone

pub record Stamp : Type 0 where
  pub year : ℕ
  pub month : ℕ
  pub day : ℕ
  pub hour : ℕ
  pub minute : ℕ
  pub second : ℕ
  pub zone : Zone

unfoldable pub is_leap : ℕ → Bool
is_leap y = eqb (y % 4) 0 && (not (eqb (y % 100) 0) || eqb (y % 400) 0)

-- `monthrange(year, month)[1]` of the calendar module
unfoldable pub month_days : ℕ → ℕ → ℕ
unfolding is_leap
month_days y m =
    if eqb m 2
    then (if is_leap y then 29 else 28)
    else if eqb m 4 || eqb m 6 || eqb m 9 || eqb m 11
    then 30
    else 31

-- `[0-9]{n}`, read as a number
unfoldable pub digits : ℕ → ℕ → Text → Option (ℕ × Text)
digits zero acc rest = some (acc, rest)
digits (suc n) acc [] = none
digits (suc n) acc (c ∷ rest) =
    let r = digits n (acc * 10 + (c - b'0')) rest in if is_digit c then r else none

unfoldable pub literal : ℕ → Text → Option Text
literal c [] = none
literal c (d ∷ rest) = if eqb c d then some rest else none

unfoldable pub skip_digits : Text → Text
skip_digits [] = []
skip_digits (c ∷ rest) = let r = skip_digits rest in if is_digit c then r else c ∷ rest

-- `(?:\.[0-9]+)?`
unfoldable pub fraction : Text → Option Text
unfolding skip_digits
fraction [] = some []
fraction (c ∷ []) = if eqb c b'.' then none else some (c ∷ [])
fraction (c ∷ d ∷ rest) =
    if eqb c b'.'
    then (if is_digit d then some (skip_digits rest) else none)
    else some (c ∷ d ∷ rest)

abbrev pub then_with : {A B : Type 0} → Option A → (A → Option B) → Option B
then_with none f = none
then_with (some a) f = f a

-- The end of the pattern: `Z`, `z` or an offset, and nothing after it.
unfoldable pub zone : Text → Option Zone
unfolding digits literal
zone [] = none
zone (c ∷ []) = if eqb c b'Z' || eqb c b'z' then some utc else none
zone (c ∷ d ∷ rest) = then_with (digits 2 0 (d ∷ rest)) λ h. then_with (literal b':' h.1) λ r.
    then_with (digits 2 0 r) λ m. elim m.1 [
      | [] ↦
          if eqb c b'+'
          then some (ahead h.0 m.0)
          else if eqb c b'-'
          then some (behind h.0 m.0)
          else none
      | x ∷ xs ↦ none
    ]

abbrev pub time_letter : Text → Option Text
time_letter [] = none
time_letter (c ∷ rest) = if eqb c b'T' || eqb c b't' then some rest else none

-- `_TIME.fullmatch`
unfoldable pub time_match : Text → Option Stamp
unfolding digits literal fraction zone
time_match value = then_with (digits 4 0 value) λ y. then_with (literal b'-' y.1) λ r1.
    then_with (digits 2 0 r1) λ mo. then_with (literal b'-' mo.1) λ r2.
      then_with (digits 2 0 r2) λ d. then_with (time_letter d.1) λ r3.
        then_with (digits 2 0 r3) λ h. then_with (literal b':' h.1) λ r4.
          then_with (digits 2 0 r4) λ mi. then_with (literal b':' mi.1) λ r5.
            then_with (digits 2 0 r5) λ s. then_with (fraction s.1) λ r6. then_with (zone r6) λ z.
              some (record {
                year = y.0;
                month = mo.0;
                day = d.0;
                hour = h.0;
                minute = mi.0;
                second = s.0;
                zone = z;
              })

-- The date and the clock of the local time.
unfoldable pub local_valid : Stamp → Bool
local_valid s =
    (leb 1 s.month && leb s.month 12)
    && ((leb 1 s.day && leb s.day (month_days s.year s.month))
        && (leb s.hour 23 && (leb s.minute 59 && leb s.second 60)))

unfoldable pub zone_valid : Zone → Bool
zone_valid utc = true
zone_valid (ahead h m) = leb h 23 && leb m 59
zone_valid (behind h m) = leb h 23 && leb m 59

-- The day of the UTC clock against the local day, and the minute in that day:
-- `divmod(hour * 60 + minute - offset, 24 * 60)`.
pub data Shift : Type 0 where
  before same after : ℕ → Shift

unfoldable pub utc_shift : ℕ → Zone → Shift
utc_shift t utc = same t
utc_shift t (ahead h m) =
    let offset = h * 60 + m in
    if ltb t offset then before (t + 1440 - offset) else same (t - offset)
utc_shift t (behind h m) =
    let offset = h * 60 + m in
    if ltb (t + offset) 1440 then same (t + offset) else after (t + offset - 1440)

abbrev at_end : ℕ → ℕ → ℕ → ℕ → Bool
at_end year month day minute = eqb minute 1439 && eqb day (month_days year month)

-- Whether the UTC day and minute end a UTC month. A year that is left backwards is entered in
-- December, whose length is that of any year.
unfoldable pub ends_month : ℕ → ℕ → ℕ → Shift → Bool
ends_month year month day (same minute) = at_end year month day minute
ends_month year month day (before minute) =
    if ltb (day - 1) 1
    then (if ltb (month - 1) 1
        then at_end (year - 1) 12 (month_days (year - 1) 12) minute
        else at_end year (month - 1) (month_days year (month - 1)) minute)
    else at_end year month (day - 1) minute
ends_month year month day (after minute) =
    if ltb (month_days year month) (day + 1)
    then (if ltb 12 (month + 1)
        then at_end (year + 1) 1 1 minute
        else at_end year (month + 1) 1 minute)
    else at_end year month (day + 1) minute

unfoldable pub leap_valid : Stamp → Bool
unfolding utc_shift ends_month
leap_valid s = ends_month s.year s.month s.day (utc_shift (s.hour * 60 + s.minute) s.zone)

-- `_time` on a match.
unfoldable pub stamp_check : Stamp → Result (Unit {0})
unfolding local_valid zone_valid leap_valid
stamp_check s = do
  require (local_valid s) Code.invalid_input
  require (zone_valid s.zone) Code.invalid_input
  if eqb s.second 60 then require (leap_valid s) Code.invalid_input else ok tt

-- `_time`
unfoldable pub time : Text → Result (Unit {0})
unfolding unicode time_match stamp_check
time value = do
  unicode value
  elim (time_match value) [ none ↦ err Code.invalid_input | some s ↦ stamp_check s ]
