-- ===== src/Busy/Ranges.antt =====
-- The ranges that busy.go accepts of durations, intervals and the times of a running interval.
use busylib_go.Prelude.{
  then_iff, refuse_if_iff, ◌≡◌, ◌↔◌, false, ◌||◌, ok, err, Result, ◌>>◌, arith, if◌then◌else◌,
}
use busylib_go.Prelude.Int.{ℤ, pos, ◌≤ℤ◌, ltb_ℤ}
use busylib_go.Busy.{
  IntervalSettings, BusyError, duration_range, in_interval_settings, DurationField, field_work,
  field_rest, cycles_range, current_interval_range, times_range, left_exceeds, interval_min_ms,
  interval_max_ms, cycles_min, cycles_max, current_interval_max, max_uint32, in_field,
  validate_duration, validate_interval, validate_running, is_odd,
}

abbrev pub IsBetween : ℤ → ℤ → ℤ → Type 0
IsBetween low high value = (low ≤ℤ value) × (value ≤ℤ high)

module _ {A B C D : Type 0} where
  both_iff : (A ↔ B) → (C ↔ D) → (A × C) ↔ (B × D)
  both_iff (f, g) (h, k) = (λ (a, c). (f a, h c), λ (b, d). (g b, k d))

pub trans_iff : {A B C : Type 0} → (A ↔ B) → (B ↔ C) → (A ↔ C)
trans_iff (f, g) (h, k) = (λ a. h (f a), λ c. g (k c))

-- Two checks, each by what it accepts.
pub then_both :
    {P Q : Type 0} (first next : Result BusyError (Unit {0}))
    → (first ≡ ok tt) ↔ P
    → (next ≡ ok tt) ↔ Q
    → ((first >> next) ≡ ok tt) ↔ (P × Q)
then_both first next p q = trans_iff (then_iff first next) (both_iff p q)

pub validate_duration_iff :
    (field : DurationField) (value low high : ℤ)
    → high ≤ℤ max_uint32
    → (validate_duration field value low high ≡ ok tt) ↔ IsBetween low high value
validate_duration_iff field value low high fits =
    trans_iff
      (refuse_if_iff (ltb_ℤ value low || ltb_ℤ high value || ltb_ℤ max_uint32 value)
        (duration_range field))
      (
        λ passed. (ground (arith, passed), ground (arith, passed)),
        λ (above, below). ground (arith, above, below, fits),
      )

abbrev pub IsInterval : ℤ → ℤ → ℤ → Type 0
IsInterval work rest cycles =
    IsBetween (pos 300000) (pos 28800000) work
    × (IsBetween (pos 300000) (pos 28800000) rest × IsBetween (pos 2) (pos 35) cycles)

pub validate_interval_iff :
    (work rest cycles : ℤ)
    → (validate_interval work rest cycles ≡ ok tt) ↔ IsInterval work rest cycles
unfolding validate_interval
validate_interval_iff work rest cycles =
    then_both (validate_duration field_work work interval_min_ms interval_max_ms) _
      (validate_duration_iff field_work work interval_min_ms interval_max_ms (omega arith))
      (then_both (validate_duration field_rest rest interval_min_ms interval_max_ms) _
        (validate_duration_iff field_rest rest interval_min_ms interval_max_ms (omega arith))
        (trans_iff (refuse_if_iff (ltb_ℤ cycles cycles_min || ltb_ℤ cycles_max cycles) cycles_range)
          (
            λ passed. (ground (arith, passed), ground (arith, passed)),
            λ (above, below). ground (arith, above, below),
          )))

pub in_field_iff :
    (place : BusyError → BusyError) (check : Result BusyError (Unit {0}))
    → (in_field place check ≡ ok tt) ↔ (check ≡ ok tt)
in_field_iff place (err e) = (λ h. cc, λ h. cc)
in_field_iff place (ok u) = (λ h. h, λ h. h)

not-below : (a b : ℤ) → (ltb_ℤ a b ≡ false) ↔ (b ≤ℤ a)
not-below a b = (λ h. ground (arith, h), λ h. ground (arith, h))

-- A running interval: its settings, its number, its times, and the time left within its own duration.
abbrev pub IsRunning : ℤ → ℤ → ℤ → IntervalSettings → Type 0
IsRunning current total left s =
    IsInterval s.interval_work_ms s.interval_rest_ms s.interval_work_cycles_count
    × (IsBetween (pos 0) (pos 68) current
        × ((IsBetween (pos 0) (pos 4294967295) total × IsBetween (pos 0) total left)
            × (left ≤ℤ (if is_odd current then s.interval_rest_ms else s.interval_work_ms))))

pub validate_running_iff :
    (current total left : ℤ) (s : IntervalSettings)
    → (validate_running current total left s ≡ ok tt) ↔ IsRunning current total left s
unfolding validate_running
validate_running_iff current total left s =
    then_both _ _
      (trans_iff
        (in_field_iff in_interval_settings
          (validate_interval s.interval_work_ms s.interval_rest_ms s.interval_work_cycles_count))
        (validate_interval_iff s.interval_work_ms s.interval_rest_ms s.interval_work_cycles_count))
      (then_both _ _
        (trans_iff
          (refuse_if_iff (ltb_ℤ current (pos 0) || ltb_ℤ current_interval_max current)
            current_interval_range)
          (
            λ passed. (ground (arith, passed), ground (arith, passed)),
            λ (above, below). ground (arith, above, below),
          ))
        (then_both _ _
          (trans_iff
            (refuse_if_iff
              (ltb_ℤ total (pos 0)
                || ltb_ℤ max_uint32 total
                || ltb_ℤ left (pos 0)
                || ltb_ℤ total left)
              times_range)
            (
              λ passed. (
                (ground (arith, passed), ground (arith, passed)),
                (ground (arith, passed), ground (arith, passed)),
              ),
              λ ((a, b), (c, d)). ground (arith, a, b, c, d),
            ))
          (trans_iff
            (refuse_if_iff
              (ltb_ℤ (if is_odd current then s.interval_rest_ms else s.interval_work_ms) left)
              left_exceeds)
            (not-below (if is_odd current then s.interval_rest_ms else s.interval_work_ms) left))))
