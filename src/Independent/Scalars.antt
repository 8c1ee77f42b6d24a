-- ===== src/Independent/Scalars.antt =====
-- What the scalar checks of the second implementation accept, those of validation.py accept.
use infra_artifact_ledger.Prelude.{
  and_both, ℕ, ◌≡◌, refl, subst, Bool, true, false, ◌&&◌, not, List, [], ◌∷◌, Option, some, none,
  arith, leb, eqb, any, all,
}
use infra_artifact_ledger.Text.{Text, text_eq}
use infra_artifact_ledger.Errors.{Code, Result, ok, err, ◌>>◌}
use infra_artifact_ledger.Records.{Digest, TypedRef, digest_eq}
use infra_artifact_ledger.Validation.Limits.{require, fail_if}
use infra_artifact_ledger.Validation.Scalars.{
  is_hex, is_surrogate, unicode, string, stable_id_match, validate_stable_id, opaque, digest,
  digest_match, typed, array, unique_array,
}
use infra_artifact_ledger.Validation.Time.{
  Stamp, time_match, month_days, local_valid, zone_valid, stamp_check, time,
}
use infra_artifact_ledger.Validation.RecordCheck.{recorded}
use infra_artifact_ledger.Independent.Clock.{IsAscii, OnAscii, timestamp_match-time_match}
use infra_artifact_ledger.Independent.{
  bounded_string, owned_id, stable, opaque_reference, digest_shape, calendar_time, timestamp, each,
  unique, qualified, stored_time,
}

pub string-bounded_string :
    (s : Text) (m n : ℕ) → bounded_string s m n ≡ ok tt → string s m n ≡ ok tt
unfolding bounded_string string unicode
string-bounded_string s m n h = ground (arith, h)

pub validate_stable_id-stable : (s : Text) → stable s ≡ ok tt → validate_stable_id s ≡ ok tt
unfolding stable bounded_string owned_id validate_stable_id unicode stable_id_match
validate_stable_id-stable [] h = ground (arith, h)
validate_stable_id-stable (c ∷ cs) h = ground (arith, h)

pub opaque-opaque_reference : (s : Text) → opaque_reference s ≡ ok tt → opaque s ≡ ok tt
unfolding opaque_reference bounded_string opaque string unicode
opaque-opaque_reference s h = ground (arith, h)

-- A text of hexadecimal digits has no surrogate.
pub hex-scalar : (s : Text) → all is_hex s ≡ true → any is_surrogate s ≡ false
hex-scalar [] h = refl
hex-scalar (c ∷ cs) h = ground (arith, h, hex-scalar cs)

pub digest-digest_shape : (d : Digest) → digest_shape d ≡ ok tt → digest d ≡ ok tt
unfolding digest_shape digest unicode digest_match
digest-digest_shape d h = ground (arith, h, hex-scalar d.value)

pub second_of_minute :
    (h m s : ℕ)
    → (leb h 23 && (leb m 59 && leb s 59)) ≡ true
    → ((leb h 23 && (leb m 59 && leb s 60)) ≡ true) × (eqb s 60 ≡ false)
second_of_minute h m s k = (ground (arith, k), ground (arith, k))

pub stamp_check-calendar_time : (s : Stamp) → calendar_time s ≡ true → stamp_check s ≡ ok tt
unfolding calendar_time stamp_check local_valid
stamp_check-calendar_time s h =
    let (year_month, rest) = and_both (leb 1 s.year && (leb 1 s.month && leb s.month 12)) _ h in
    let (year, month) = and_both (leb 1 s.year) (leb 1 s.month && leb s.month 12) year_month in
    let (day, clock_zone) =
      and_both (leb 1 s.day && leb s.day (month_days s.year s.month)) _ rest in
    let (clock, zoned) =
      and_both (leb s.hour 23 && (leb s.minute 59 && leb s.second 59)) (zone_valid s.zone)
        clock_zone in
    let (clock60, no_leap) = second_of_minute s.hour s.minute s.second clock in
    rw (month) (rw day (rw clock60 (rw zoned (rw no_leap refl))))

pub typed-qualified : (r : TypedRef) → qualified r ≡ ok tt → typed r ≡ ok tt
unfolding qualified typed
typed-qualified r h = ground (
  arith,
  h,
  string-bounded_string r.namespace 1 128,
  string-bounded_string r.type_id 1 128,
  string-bounded_string r.type_version 1 64,
)

pub require-true : (b : Bool) (c : Code) → require b c ≡ ok tt → b ≡ true
require-true true c h = refl
require-true false c h = cc

pub guarded :
    (b : Bool) (m n : Result (Unit {0}))
    → (m ≡ ok tt → n ≡ ok tt)
    → (require (not b) Code.invalid_input >> m) ≡ ok tt
    → (fail_if b Code.invalid_input >> n) ≡ ok tt
guarded true m n k h = cc
guarded false m n k h = k h

pub recorded-stored_time :
    (is_decimal : ℕ → Bool)
    → OnAscii is_decimal
    → (o : Option Text) → ((t : Text) → o ≡ some t → IsAscii t)
    → stored_time is_decimal false o ≡ ok tt
    → recorded false o ≡ ok tt
unfolding stored_time timestamp recorded time unicode
recorded-stored_time is_decimal on_ascii none ascii h = cc
recorded-stored_time is_decimal on_ascii (some t) ascii h =
    guarded (any is_surrogate t) _ _
      (λ k. by_match (time_match t) (
        subst
          (λ o.
            elim o as (λ _. Result (Unit {0})) [
              | none ↦ err Code.invalid_input
              | some s ↦ require (calendar_time s) Code.invalid_input
            ]
            ≡ ok tt)
          (timestamp_match-time_match is_decimal on_ascii t (ascii t refl)) k))
      h
  where
    by_match :
        (o : Option Stamp)
        → elim o as (λ _. Result (Unit {0})) [
          | none ↦ err Code.invalid_input
          | some s ↦ require (calendar_time s) Code.invalid_input
        ]
          ≡ ok tt
        → elim o as (λ _. Result (Unit {0})) [
          | none ↦ err Code.invalid_input
          | some s ↦ stamp_check s
        ]
          ≡ ok tt
    by_match none e = cc
    by_match (some s) e =
        stamp_check-calendar_time s (require-true (calendar_time s) Code.invalid_input e)

pub array-each :
    (f g : Text → Result (Unit {0}))
    → ((s : Text) → f s ≡ ok tt → g s ≡ ok tt)
    → (xs : List Text) → each f xs ≡ ok tt
    → array g xs ≡ ok tt
unfolding array
array-each f g k [] h = refl
array-each f g k (x ∷ xs) h = ground (arith, h, k x, array-each f g k xs)

pub unique_array-unique :
    (f g : Text → Result (Unit {0}))
    → ((s : Text) → f s ≡ ok tt → g s ≡ ok tt)
    → (xs : List Text) → unique f xs ≡ ok tt
    → unique_array g xs ≡ ok tt
unfolding unique unique_array array
unique_array-unique f g k xs h = ground (arith, h, array-each f g k xs)

-- Two checks one after the other.
pub passed : (m n : Result (Unit {0})) → (m >> n) ≡ ok tt → (m ≡ ok tt) × (n ≡ ok tt)
passed (ok x) n h = (refl, h)
passed (err c) n h = cc

pub then : {m n : Result (Unit {0})} → m ≡ ok tt → n ≡ ok tt → (m >> n) ≡ ok tt
then h k = rw h k
