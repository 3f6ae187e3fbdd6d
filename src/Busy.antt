-- ===== src/Busy.antt =====
-- busy.go: the checks of timer snapshots and profiles. Strings are lists of bytes, an int and an int64 are
-- integers, and a pointer that may be nil is an option. An error is the check that fails, without its text.
pub mod Cards
pub mod Ranges
pub mod Accepted
pub mod Profiles
mod Tests
use busylib_go.Prelude.{
  ℕ, suc, ◌+◌, ◌*◌, ◌-◌, ◌^◌, ◌%◌, Bool, true, false, ◌&&◌, ◌||◌, not, List, [], ◌∷◌, Option, none,
  some, Result, ok, err, ◌>>=◌, ◌>>◌, refuse_if, ltb, leb, ◌==◌, if◌then◌else◌, length,
}
use busylib_go.Prelude.Int.{ℤ, pos, negsuc, ltb_ℤ}
use busylib_go.Prelude.Bytes.{Bytes, bytes, bytes_eq}

pub record BusyBarSettings : Type 0 where
  pub theme : Bytes
  pub show_work_phase_only : Bool
  pub trigger_smart_home : Bool

pub record IntervalSettings : Type 0 where
  pub timer_type : Bytes
  pub interval_work_ms : ℤ
  pub interval_rest_ms : ℤ
  pub interval_work_cycles_count : ℤ
  pub is_autostart_enabled : Bool

pub record SnapshotData : Type 0 where
  pub snapshot_type : Bytes
  pub card_id : Bytes
  pub time_left_ms : Option ℤ
  pub is_paused : Option Bool
  pub current_interval : Option ℤ
  pub current_interval_time_total_ms : Option ℤ
  pub current_interval_time_left_ms : Option ℤ
  pub interval_settings : Option IntervalSettings
  pub busy_bar_settings : BusyBarSettings

pub record BusySnapshot : Type 0 where
  pub snapshot : SnapshotData
  pub snapshot_timestamp_ms : ℤ

pub record TimerSettings : Type 0 where
  pub timer_type : Bytes
  pub total_time_ms : Option ℤ
  pub interval_work_ms : Option ℤ
  pub interval_rest_ms : Option ℤ
  pub interval_work_cycles_count : Option ℤ
  pub is_autostart_enabled : Option Bool

pub record BusyProfile : Type 0 where
  pub sort_order : ℤ
  pub title : Bytes
  pub id : Bytes
  pub timer_settings : TimerSettings
  pub busy_bar_settings : BusyBarSettings
  pub profile_timestamp_ms : ℤ

pub data DurationField : Type 0 where
  field_time_left field_total_time field_work field_rest : DurationField

pub data BusyError : Type 0 where
  theme_long card_length card_malformed paused_missing simple_missing interval_missing : BusyError
  cycles_range current_interval_range times_range left_exceeds type_unsupported : BusyError
  sort_order_range title_long total_time_missing slot_unsupported : BusyError
  duration_range : DurationField → BusyError
  in_bar_settings in_interval_settings in_timer_settings : BusyError → BusyError

abbrev pub simple_max_ms : ℤ
simple_max_ms = pos (24 * 60 * 60 * 1000)

abbrev pub interval_min_ms : ℤ
interval_min_ms = pos (5 * 60 * 1000)

abbrev pub interval_max_ms : ℤ
interval_max_ms = pos (8 * 60 * 60 * 1000)

abbrev pub cycles_min : ℤ
cycles_min = pos 2

abbrev pub cycles_max : ℤ
cycles_max = pos 35

-- (busyTimerCyclesMax*2)-2
abbrev pub current_interval_max : ℤ
current_interval_max = pos (35 * 2 - 2)

abbrev pub max_uint32 : ℤ
max_uint32 = pos (2 ^ 32 - 1)

-- fieldError
abbrev pub in_field :
    (BusyError → BusyError) → Result BusyError (Unit {0}) → Result BusyError (Unit {0})
in_field place (err e) = err (place e)
in_field place (ok u) = ok u

abbrev pub validate_bar_settings : BusyBarSettings → Result BusyError (Unit {0})
validate_bar_settings settings = refuse_if (ltb 64 (length settings.theme)) theme_long

abbrev pub validate_duration : DurationField → ℤ → ℤ → ℤ → Result BusyError (Unit {0})
validate_duration field value minimum maximum =
    refuse_if (ltb_ℤ value minimum || ltb_ℤ maximum value || ltb_ℤ max_uint32 value)
      (duration_range field)

unfoldable pub validate_interval : ℤ → ℤ → ℤ → Result BusyError (Unit {0})
validate_interval work rest cycles = do
  validate_duration field_work work interval_min_ms interval_max_ms
  validate_duration field_rest rest interval_min_ms interval_max_ms
  refuse_if (ltb_ℤ cycles cycles_min || ltb_ℤ cycles_max cycles) cycles_range

abbrev pub is_dash_index : ℕ → Bool
is_dash_index index = index == 8 || index == 13 || index == 18 || index == 23

abbrev pub is_hex : ℕ → Bool
is_hex c = leb 48 c && leb c 57 || leb 97 c && leb c 102 || leb 65 c && leb c 70

-- The range over the characters. A byte of a character beyond ASCII fails as the character does.
unfoldable pub card_from : ℕ → Bytes → Bool
card_from index [] = true
card_from index (c ∷ value) =
    let rest = card_from (suc index) value in
    if is_dash_index index then (c == 45 && rest) else (is_hex c && rest)

unfoldable pub validate_card_id : Bytes → Result BusyError (Unit {0})
validate_card_id value = do
  refuse_if (not (length value == 36)) card_length
  refuse_if (not (card_from 0 value)) card_malformed

abbrev pub is_odd : ℤ → Bool
is_odd (pos n) = n % 2 == 1
is_odd (negsuc n) = false

-- The part of an INTERVAL snapshot behind the check for nil.
unfoldable pub validate_running : ℤ → ℤ → ℤ → IntervalSettings → Result BusyError (Unit {0})
validate_running current total left settings = do
  in_field in_interval_settings (
      validate_interval settings.interval_work_ms settings.interval_rest_ms
        settings.interval_work_cycles_count)
  refuse_if (ltb_ℤ current (pos 0) || ltb_ℤ current_interval_max current) current_interval_range
  refuse_if
      (ltb_ℤ total (pos 0) || ltb_ℤ max_uint32 total || ltb_ℤ left (pos 0) || ltb_ℤ total left)
      times_range
  let upper_bound = if is_odd current then settings.interval_rest_ms else settings.interval_work_ms
  refuse_if (ltb_ℤ upper_bound left) left_exceeds

abbrev pub validate_infinite : Option Bool → Result BusyError (Unit {0})
validate_infinite none = err paused_missing
validate_infinite (some paused) = ok tt

abbrev pub validate_simple : Option Bool → Option ℤ → Result BusyError (Unit {0})
validate_simple (some paused) (some left) =
    validate_duration field_time_left left (pos 0) simple_max_ms
validate_simple (some paused) none = err simple_missing
validate_simple none left = err simple_missing

abbrev pub validate_paused_interval :
    Option Bool
    → Option ℤ
    → Option ℤ
    → Option ℤ
    → Option IntervalSettings
    → Result BusyError (Unit {0})
validate_paused_interval (some paused) (some current) (some total) (some left) (some settings) =
    validate_running current total left settings
validate_paused_interval (some paused) (some current) (some total) (some left) none =
    err interval_missing
validate_paused_interval (some paused) (some current) (some total) none settings =
    err interval_missing
validate_paused_interval (some paused) (some current) none left settings = err interval_missing
validate_paused_interval (some paused) none total left settings = err interval_missing
validate_paused_interval none current total left settings = err interval_missing

abbrev pub validate_data : SnapshotData → Result BusyError (Unit {0})
validate_data d =
    if bytes_eq d.snapshot_type (bytes "NOT_STARTED")
    then ok tt
    else if bytes_eq d.snapshot_type (bytes "INFINITE")
    then (validate_card_id d.card_id >> validate_infinite d.is_paused)
    else if bytes_eq d.snapshot_type (bytes "SIMPLE")
    then (validate_card_id d.card_id >> validate_simple d.is_paused d.time_left_ms)
    else if bytes_eq d.snapshot_type (bytes "INTERVAL")
    then (validate_card_id d.card_id
        >> validate_paused_interval d.is_paused d.current_interval d.current_interval_time_total_ms
            d.current_interval_time_left_ms d.interval_settings)
    else err type_unsupported

unfoldable pub validate_snapshot : BusySnapshot → Result BusyError (Unit {0})
validate_snapshot s = do
  in_field in_bar_settings (validate_bar_settings s.snapshot.busy_bar_settings)
  validate_data s.snapshot

abbrev pub validate_simple_timer : Option ℤ → Result BusyError (Unit {0})
validate_simple_timer none = err total_time_missing
validate_simple_timer (some total) = validate_duration field_total_time total (pos 0) simple_max_ms

abbrev pub validate_interval_timer :
    Option ℤ → Option ℤ → Option ℤ → Option Bool → Result BusyError (Unit {0})
validate_interval_timer (some work) (some rest) (some cycles) (some autostart) =
    validate_interval work rest cycles
validate_interval_timer (some work) (some rest) (some cycles) none = err interval_missing
validate_interval_timer (some work) (some rest) none autostart = err interval_missing
validate_interval_timer (some work) none cycles autostart = err interval_missing
validate_interval_timer none rest cycles autostart = err interval_missing

unfoldable pub validate_timer_settings : TimerSettings → Result BusyError (Unit {0})
validate_timer_settings t =
    if bytes_eq t.timer_type (bytes "INFINITE")
    then ok tt
    else if bytes_eq t.timer_type (bytes "SIMPLE")
    then validate_simple_timer t.total_time_ms
    else if bytes_eq t.timer_type (bytes "INTERVAL")
    then validate_interval_timer t.interval_work_ms t.interval_rest_ms t.interval_work_cycles_count
        t.is_autostart_enabled
    else err type_unsupported

unfoldable pub validate_profile : BusyProfile → Result BusyError (Unit {0})
validate_profile p = do
  refuse_if (ltb_ℤ p.sort_order (negsuc (2 ^ 31 - 1)) || ltb_ℤ (pos (2 ^ 31 - 1)) p.sort_order)
      sort_order_range
  refuse_if (ltb 128 (length p.title)) title_long
  validate_card_id p.id
  in_field in_timer_settings (validate_timer_settings p.timer_settings)
  validate_bar_settings p.busy_bar_settings

abbrev pub validate_profile_slot : Bytes → Result BusyError (Unit {0})
validate_profile_slot slot =
    refuse_if (not (bytes_eq slot (bytes "busy")) && not (bytes_eq slot (bytes "custom")))
      slot_unsupported
