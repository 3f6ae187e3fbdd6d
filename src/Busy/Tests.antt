-- ===== src/Busy/Tests.antt =====
-- The theorems on timer snapshots at concrete inputs.
use busylib_go.Prelude.{◌^◌, ◌-◌, ◌≤◌, ◌≡◌, ◌↔◌, refl, true, false, none, some, ok, length}
use busylib_go.Prelude.Int.{negsuc, pos}
use busylib_go.Prelude.Bytes.{Bytes, bytes, bytes_eq}
use busylib_go.Busy.{
  BusyProfile, validate_profile, validate_timer_settings, BusySnapshot, card_from, validate_card_id,
  validate_interval, validate_running, validate_snapshot,
}
use busylib_go.Busy.Cards.{IsUuid, validate_card_id_iff}
use busylib_go.Busy.Ranges.{IsBetween}
use busylib_go.Busy.Profiles.{IsTimer, validate_profile_iff}
use busylib_go.Busy.Accepted.{IsData, validate_snapshot_iff}

abbrev sample_card : Bytes
sample_card = bytes "0123abcd-0123-4567-89ab-0123456789AB"

-- The second work of an interval timer.
abbrev sample_snapshot : BusySnapshot
sample_snapshot = record {
  snapshot = record {
    snapshot_type = bytes "INTERVAL";
    card_id = sample_card;
    time_left_ms = none;
    is_paused = some false;
    current_interval = some (pos 2);
    current_interval_time_total_ms = some (pos 1500000);
    current_interval_time_left_ms = some (pos 600000);
    interval_settings = some (record {
      timer_type = bytes "INTERVAL";
      interval_work_ms = pos 1500000;
      interval_rest_ms = pos 300000;
      interval_work_cycles_count = pos 4;
      is_autostart_enabled = true;
    });
    busy_bar_settings = record {
      theme = bytes "red";
      show_work_phase_only = false;
      trigger_smart_home = false;
    };
  };
  snapshot_timestamp_ms = pos 0;
}

sample_snapshot-accepted : validate_snapshot sample_snapshot ≡ ok tt
unfolding validate_snapshot validate_card_id card_from validate_running validate_interval bytes_eq
sample_snapshot-accepted = refl

validate_card_id_iff_example : (validate_card_id sample_card ≡ ok tt) ↔ IsUuid sample_card
validate_card_id_iff_example = validate_card_id_iff sample_card

validate_snapshot_iff_example : (validate_snapshot sample_snapshot ≡ ok tt) ↔ (
    (length sample_snapshot.snapshot.busy_bar_settings.theme ≤ 64)
    × IsData sample_snapshot.snapshot)
validate_snapshot_iff_example = validate_snapshot_iff sample_snapshot

abbrev sample_profile : BusyProfile
sample_profile = record {
  sort_order = negsuc 0;
  title = bytes "Focus";
  id = sample_card;
  timer_settings = record {
    timer_type = bytes "SIMPLE";
    total_time_ms = some (pos 60000);
    interval_work_ms = none;
    interval_rest_ms = none;
    interval_work_cycles_count = none;
    is_autostart_enabled = none;
  };
  busy_bar_settings = sample_snapshot.snapshot.busy_bar_settings;
  profile_timestamp_ms = pos 0;
}

sample_profile-accepted : validate_profile sample_profile ≡ ok tt
unfolding validate_profile validate_timer_settings validate_card_id card_from bytes_eq
sample_profile-accepted = refl

validate_profile_iff_example : (validate_profile sample_profile ≡ ok tt) ↔ (
    IsBetween (negsuc (2 ^ 31 - 1)) (pos (2 ^ 31 - 1)) (negsuc 0)
    × ((length sample_profile.title ≤ 128)
        × (IsUuid sample_card
            × (IsTimer sample_profile.timer_settings
                × (length sample_profile.busy_bar_settings.theme ≤ 64)))))
validate_profile_iff_example = validate_profile_iff sample_profile
