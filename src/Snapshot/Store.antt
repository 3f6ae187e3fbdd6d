-- ===== src/Snapshot/Store.antt =====
-- snapshot/store.go: merging typed updates into the stored snapshot.
-- The protobuf library's Clone and Equal are parameters, and so is the equality of error values.
-- A snapshot is a value, so that an independent copy is itself, but for slices: a copy of an empty
-- slice is nil. The store is not nil, and Apply holds its mutex.
pub mod Equal
pub mod Writes
pub mod Merged
pub mod Same
pub mod Touched
pub mod Changed
pub mod Again
mod Clone
unfoldable pub use Clone.*
use Prim.{Dec, Discrete}
use busylib_go.Prelude.Int.{pos}
use busylib_go.Prelude.{
  ℕ, Bool, true, false, not, ◌&&◌, List, [], ◌∷◌, Option, none, some, if◌then◌else◌,
}
use busylib_go.Prelude.Bytes.{Bytes, bytes_eq}
use busylib_go.Stream.Updates.{
  Field, field_device_name, field_power, field_brightness, field_audio_volume, field_wifi,
  field_update_state, field_update_check, field_timezone, field_matter, field_frame, field_input,
  field_timer, field_ble, field_auto_update_state, field_timer_profiles, Update, device_name_update,
  power_update, brightness_update, audio_volume_update, wifi_update, firmware_update,
  update_check_update, timezone_update, matter_update, frame_update, input_update, timer_update,
  ble_update, auto_update_update, timer_profiles_update, unknown_update,
}
use busylib_go.Snapshot.Types.{
  SnapshotField, Section, Snapshot, Power, Brightness, Wifi, IpAddress, Ble, section_name,
  section_version, section_status, section_system, section_power, section_time, section_wifi,
  section_brightness, section_audio_volume, section_ble, section_storage, section_firmware_update,
  section_update_check, section_timezone, section_matter, section_frame, section_input,
  section_timer, section_auto_update, section_timer_profiles,
}
use busylib_go.Snapshot.Payloads.{
  NameMessage, PowerMessage, BrightnessMessage, VolumeMessage, WifiMessage, BleMessage,
  power_from_proto, brightness_from_proto, wifi_from_proto, ble_from_proto,
}
use busylib_go.Snapshot.Store.Equal.{
  field_equal, Section-discrete, Bytes-discrete, Power-discrete, Brightness-discrete,
  Volume-discrete, Wifi-discrete, Ble-discrete, is_yes, Bool-discrete, Error-discrete,
}

-- What the pointer of an update points to.
abbrev pub Payload : (Field → Type 0) → Field → Type 0
Payload M field_device_name = NameMessage
Payload M field_power = PowerMessage
Payload M field_brightness = BrightnessMessage
Payload M field_audio_volume = VolumeMessage
Payload M field_wifi = WifiMessage
Payload M field_update_state = M field_update_state
Payload M field_update_check = M field_update_check
Payload M field_timezone = M field_timezone
Payload M field_matter = M field_matter
Payload M field_frame = M field_frame
Payload M field_input = M field_input
Payload M field_timer = M field_timer
Payload M field_ble = BleMessage
Payload M field_auto_update_state = M field_auto_update_state
Payload M field_timer_profiles = M field_timer_profiles

pub record Change (M : Field → Type 0) (R : Section → Type 0) (E : Type 0) : Type 0 where
  pub snapshot : Snapshot M R E
  pub sections : List Section

abbrev pub present : {E T : Type 0} → T → SnapshotField E T
present value = record { value = value; present = true; err = none; raw = none }

abbrev pub slice_bytes : Option Bytes → Bytes
slice_bytes none = []
slice_bytes (some bytes) = bytes

abbrev pub contains : List Section → Section → Bool
contains [] section = false
contains (x ∷ xs) section =
    let rest = contains xs section in if is_yes (Section-discrete x section) then true else rest

abbrev pub stream_section_order : List Section
stream_section_order =
    section_name ∷ section_power ∷ section_brightness ∷ section_audio_volume ∷ section_wifi
    ∷ section_firmware_update ∷ section_update_check ∷ section_timezone ∷ section_matter
    ∷ section_frame ∷ section_input ∷ section_timer ∷ section_ble ∷ section_auto_update
    ∷ section_timer_profiles ∷ []

module _ {M : Field → Type 0} (lib : Protobuf M) where
  abbrev pub proto_field_equal :
      {E : Type 0} {f : Field}
      → Discrete E
      → SnapshotField E (Option (M f))
      → SnapshotField E (Option (M f))
      → Bool
  proto_field_equal err_discrete left right =
      is_yes (Bool-discrete left.present right.present)
      && (is_yes (Error-discrete err_discrete left.err right.err)
          && (bytes_eq (slice_bytes left.raw) (slice_bytes right.raw)
              && lib.equal left.value right.value))

module _ {M : Field → Type 0} {R : Section → Type 0} {E : Type 0} (lib : Protobuf M) where
  -- Store.apply, with the sections touched so far.
  unfoldable pub apply :
      Update (λ f. Option (Payload M f))
      → Snapshot M R E × List Section
      → Snapshot M R E × List Section
  apply (device_name_update none) state = state
  apply (device_name_update (some v)) (s, touched) =
      (record s { name = present v.name }, section_name ∷ touched)
  apply (power_update none) state = state
  apply (power_update (some v)) (s, touched) =
      (record s { power = present (power_from_proto v) }, section_power ∷ touched)
  apply (brightness_update none) state = state
  apply (brightness_update (some v)) (s, touched) =
      (record s { brightness = present (brightness_from_proto v) }, section_brightness ∷ touched)
  apply (audio_volume_update none) state = state
  apply (audio_volume_update (some v)) (s, touched) =
      (record s { audio_volume = present (pos v.volume) }, section_audio_volume ∷ touched)
  apply (wifi_update none) state = state
  apply (wifi_update (some v)) (s, touched) =
      (record s { wifi = present (wifi_from_proto v) }, section_wifi ∷ touched)
  apply (firmware_update none) state = state
  apply (firmware_update (some v)) (s, touched) = (
    record s { firmware_update = present (some (lib.clone v)) },
    section_firmware_update ∷ touched,
  )
  apply (update_check_update none) state = state
  apply (update_check_update (some v)) (s, touched) =
      (record s { update_check = present (some (lib.clone v)) }, section_update_check ∷ touched)
  apply (timezone_update none) state = state
  apply (timezone_update (some v)) (s, touched) =
      (record s { timezone = present (some (lib.clone v)) }, section_timezone ∷ touched)
  apply (matter_update none) state = state
  apply (matter_update (some v)) (s, touched) =
      (record s { matter = present (some (lib.clone v)) }, section_matter ∷ touched)
  apply (frame_update none) state = state
  apply (frame_update (some v)) (s, touched) =
      (record s { frame = present (some (lib.clone v)) }, section_frame ∷ touched)
  apply (input_update none) state = state
  apply (input_update (some v)) (s, touched) =
      (record s { input = present (some (lib.clone v)) }, section_input ∷ touched)
  apply (timer_update none) state = state
  apply (timer_update (some v)) (s, touched) =
      (record s { timer = present (some (lib.clone v)) }, section_timer ∷ touched)
  apply (ble_update none) state = state
  apply (ble_update (some v)) (s, touched) =
      (record s { ble = present (ble_from_proto v) }, section_ble ∷ touched)
  apply (auto_update_update none) state = state
  apply (auto_update_update (some v)) (s, touched) =
      (record s { auto_update = present (some (lib.clone v)) }, section_auto_update ∷ touched)
  apply (timer_profiles_update none) state = state
  apply (timer_profiles_update (some v)) (s, touched) =
      (record s { timer_profiles = present (some (lib.clone v)) }, section_timer_profiles ∷ touched)
  apply (unknown_update _) state = state

  unfoldable pub apply_from :
      List (Update (λ f. Option (Payload M f)))
      → Snapshot M R E × List Section
      → Snapshot M R E × List Section
  apply_from [] state = state
  apply_from (update ∷ updates) state = apply_from updates (apply update state)

  module _ (err_discrete : Discrete E) where
    unfoldable pub section_equal : Section → Snapshot M R E → Snapshot M R E → Bool
    section_equal section_name before after =
        field_equal err_discrete Bytes-discrete before.name after.name
    section_equal section_power before after =
        field_equal err_discrete Power-discrete before.power after.power
    section_equal section_brightness before after =
        field_equal err_discrete Brightness-discrete before.brightness after.brightness
    section_equal section_audio_volume before after =
        field_equal err_discrete Volume-discrete before.audio_volume after.audio_volume
    section_equal section_wifi before after =
        field_equal err_discrete Wifi-discrete before.wifi after.wifi
    section_equal section_firmware_update before after =
        proto_field_equal lib err_discrete before.firmware_update after.firmware_update
    section_equal section_update_check before after =
        proto_field_equal lib err_discrete before.update_check after.update_check
    section_equal section_timezone before after =
        proto_field_equal lib err_discrete before.timezone after.timezone
    section_equal section_matter before after =
        proto_field_equal lib err_discrete before.matter after.matter
    section_equal section_frame before after =
        proto_field_equal lib err_discrete before.frame after.frame
    section_equal section_input before after =
        proto_field_equal lib err_discrete before.input after.input
    section_equal section_timer before after =
        proto_field_equal lib err_discrete before.timer after.timer
    section_equal section_ble before after =
        field_equal err_discrete Ble-discrete before.ble after.ble
    section_equal section_auto_update before after =
        proto_field_equal lib err_discrete before.auto_update after.auto_update
    section_equal section_timer_profiles before after =
        proto_field_equal lib err_discrete before.timer_profiles after.timer_profiles
    section_equal _ before after = true

    unfoldable pub changed_from :
        List Section → Snapshot M R E → Snapshot M R E → List Section → List Section
    changed_from [] before after touched = []
    changed_from (section ∷ sections) before after touched =
        let rest = changed_from sections before after touched in
        if contains touched section && not (section_equal section before after)
        then section ∷ rest
        else rest

    abbrev pub changed_sections : Snapshot M R E → Snapshot M R E → List Section → List Section
    changed_sections = changed_from stream_section_order

    -- Store.Apply: the stored snapshot afterwards, and what it returns.
    unfoldable pub apply_updates :
        Snapshot M R E → List (Update (λ f. Option (Payload M f))) → Snapshot M R E × Change M R E
    apply_updates s updates =
        let merged = apply_from updates (s, []) in
        (
          merged.0,
          record {
            snapshot = clone_snapshot lib merged.0;
            sections = changed_sections (clone_snapshot lib s) merged.0 merged.1;
          },
        )
