-- ===== src/Snapshot/Store/Writes.antt =====
-- What the updates of a batch write, section by section.
use Prim.{Discrete}
use busylib_go.Prelude.Int.{ℤ, pos}
use busylib_go.Prelude.{List, ◌∷◌, Option, none, some, ◌≡◌, ◌≢◌, refl}
use busylib_go.Prelude.Bytes.{Bytes}
use busylib_go.Stream.Updates.{
  Field, field_device_name, field_power, field_brightness, field_audio_volume, field_wifi,
  field_update_state, field_update_check, field_timezone, field_matter, field_frame, field_input,
  field_timer, field_ble, field_auto_update_state, field_timer_profiles, Update, device_name_update,
  power_update, brightness_update, audio_volume_update, wifi_update, firmware_update,
  update_check_update, timezone_update, matter_update, frame_update, input_update, timer_update,
  ble_update, auto_update_update, timer_profiles_update, unknown_update,
}
use busylib_go.Snapshot.Types.{
  SnapshotField, Section, Snapshot, Power, Brightness, Wifi, Ble, section_name, section_power,
  section_wifi, section_brightness, section_audio_volume, section_ble, section_firmware_update,
  section_update_check, section_timezone, section_matter, section_frame, section_input,
  section_timer, section_auto_update, section_timer_profiles,
}
use busylib_go.Snapshot.Payloads.{
  power_from_proto, brightness_from_proto, wifi_from_proto, ble_from_proto,
}
use busylib_go.Snapshot.Store.{Payload, Protobuf, present, apply}

-- The section of an update's field.
abbrev pub section_of : Field → Section
section_of field_device_name = section_name
section_of field_power = section_power
section_of field_brightness = section_brightness
section_of field_audio_volume = section_audio_volume
section_of field_wifi = section_wifi
section_of field_update_state = section_firmware_update
section_of field_update_check = section_update_check
section_of field_timezone = section_timezone
section_of field_matter = section_matter
section_of field_frame = section_frame
section_of field_input = section_input
section_of field_timer = section_timer
section_of field_ble = section_ble
section_of field_auto_update_state = section_auto_update
section_of field_timer_profiles = section_timer_profiles

-- What a snapshot keeps of a payload.
abbrev pub Stored : (Field → Type 0) → Field → Type 0
Stored M field_device_name = Bytes
Stored M field_power = Power
Stored M field_brightness = Brightness
Stored M field_audio_volume = ℤ
Stored M field_wifi = Wifi
Stored M field_update_state = Option (M field_update_state)
Stored M field_update_check = Option (M field_update_check)
Stored M field_timezone = Option (M field_timezone)
Stored M field_matter = Option (M field_matter)
Stored M field_frame = Option (M field_frame)
Stored M field_input = Option (M field_input)
Stored M field_timer = Option (M field_timer)
Stored M field_ble = Ble
Stored M field_auto_update_state = Option (M field_auto_update_state)
Stored M field_timer_profiles = Option (M field_timer_profiles)

-- One update for each field, with a pointer that may be nil.
abbrev pub update_of :
    (M : Field → Type 0) (f : Field) → Option (Payload M f) → Update (λ g. Option (Payload M g))
update_of M field_device_name v = device_name_update v
update_of M field_power v = power_update v
update_of M field_brightness v = brightness_update v
update_of M field_audio_volume v = audio_volume_update v
update_of M field_wifi v = wifi_update v
update_of M field_update_state v = firmware_update v
update_of M field_update_check v = update_check_update v
update_of M field_timezone v = timezone_update v
update_of M field_matter v = matter_update v
update_of M field_frame v = frame_update v
update_of M field_input v = input_update v
update_of M field_timer v = timer_update v
update_of M field_ble v = ble_update v
update_of M field_auto_update_state v = auto_update_update v
update_of M field_timer_profiles v = timer_profiles_update v

abbrev pub written_field : {V : Field → Type 0} → Update V → Option Field
written_field (device_name_update _) = some field_device_name
written_field (power_update _) = some field_power
written_field (brightness_update _) = some field_brightness
written_field (audio_volume_update _) = some field_audio_volume
written_field (wifi_update _) = some field_wifi
written_field (firmware_update _) = some field_update_state
written_field (update_check_update _) = some field_update_check
written_field (timezone_update _) = some field_timezone
written_field (matter_update _) = some field_matter
written_field (frame_update _) = some field_frame
written_field (input_update _) = some field_input
written_field (timer_update _) = some field_timer
written_field (ble_update _) = some field_ble
written_field (auto_update_update _) = some field_auto_update_state
written_field (timer_profiles_update _) = some field_timer_profiles
written_field (unknown_update _) = none

-- The update has a value for the field.
abbrev pub Writes : (M : Field → Type 0) → Field → Update (λ g. Option (Payload M g)) → Type 0
Writes M f u = (v : Payload M f) × (u ≡ update_of M f (some v))

pub Field-discrete : Discrete Field
Field-discrete = hlevel

pub written_field-update_of :
    (M : Field → Type 0) (f : Field) (v : Option (Payload M f))
    → written_field (update_of M f v) ≡ some f
written_field-update_of M field_device_name v = refl
written_field-update_of M _ v = refl

module _ {M : Field → Type 0} (lib : Protobuf M) where
  abbrev pub stored : (f : Field) → Payload M f → Stored M f
  stored field_device_name v = v.name
  stored field_power v = power_from_proto v
  stored field_brightness v = brightness_from_proto v
  stored field_audio_volume v = pos v.volume
  stored field_wifi v = wifi_from_proto v
  stored field_update_state v = some (lib.clone v)
  stored field_update_check v = some (lib.clone v)
  stored field_timezone v = some (lib.clone v)
  stored field_matter v = some (lib.clone v)
  stored field_frame v = some (lib.clone v)
  stored field_input v = some (lib.clone v)
  stored field_timer v = some (lib.clone v)
  stored field_ble v = ble_from_proto v
  stored field_auto_update_state v = some (lib.clone v)
  stored field_timer_profiles v = some (lib.clone v)

module _ {M : Field → Type 0} {R : Section → Type 0} {E : Type 0} where
  abbrev pub field_of : (f : Field) → Snapshot M R E → SnapshotField E (Stored M f)
  field_of field_device_name s = s.name
  field_of field_power s = s.power
  field_of field_brightness s = s.brightness
  field_of field_audio_volume s = s.audio_volume
  field_of field_wifi s = s.wifi
  field_of field_update_state s = s.firmware_update
  field_of field_update_check s = s.update_check
  field_of field_timezone s = s.timezone
  field_of field_matter s = s.matter
  field_of field_frame s = s.frame
  field_of field_input s = s.input
  field_of field_timer s = s.timer
  field_of field_ble s = s.ble
  field_of field_auto_update_state s = s.auto_update
  field_of field_timer_profiles s = s.timer_profiles

module _ {M : Field → Type 0} {R : Section → Type 0} {E : Type 0} (lib : Protobuf M) where
  pub apply-update_of :
      (f : Field) (v : Payload M f) (s : Snapshot M R E) (t : List Section)
      → field_of f ((apply lib (update_of M f (some v)) (s, t)).0) ≡ present (stored lib f v)
  unfolding apply
  apply-update_of field_device_name v s t = refl
  apply-update_of _ v s t = refl

  pub apply-touched :
      (f : Field) (v : Payload M f) (s : Snapshot M R E) (t : List Section)
      → (apply lib (update_of M f (some v)) (s, t)).1 ≡ section_of f ∷ t
  unfolding apply
  apply-touched field_device_name v s t = refl
  apply-touched _ v s t = refl

  pub apply-nil :
      (f : Field) (s : Snapshot M R E) (t : List Section)
      → apply lib (update_of M f none) (s, t) ≡ (s, t)
  unfolding apply
  apply-nil field_device_name s t = refl
  apply-nil _ s t = refl

  pub apply-other :
      (f g : Field) (v : Payload M f) (s : Snapshot M R E) (t : List Section)
      → f ≢ g
      → field_of g ((apply lib (update_of M f (some v)) (s, t)).0) ≡ field_of g s
  unfolding apply
  apply-other field_device_name field_device_name v s t n = absurd (n refl)
  apply-other field_power field_power v s t n = absurd (n refl)
  apply-other field_brightness field_brightness v s t n = absurd (n refl)
  apply-other field_audio_volume field_audio_volume v s t n = absurd (n refl)
  apply-other field_wifi field_wifi v s t n = absurd (n refl)
  apply-other field_update_state field_update_state v s t n = absurd (n refl)
  apply-other field_update_check field_update_check v s t n = absurd (n refl)
  apply-other field_timezone field_timezone v s t n = absurd (n refl)
  apply-other field_matter field_matter v s t n = absurd (n refl)
  apply-other field_frame field_frame v s t n = absurd (n refl)
  apply-other field_input field_input v s t n = absurd (n refl)
  apply-other field_timer field_timer v s t n = absurd (n refl)
  apply-other field_ble field_ble v s t n = absurd (n refl)
  apply-other field_auto_update_state field_auto_update_state v s t n = absurd (n refl)
  apply-other field_timer_profiles field_timer_profiles v s t n = absurd (n refl)
  apply-other _ _ v s t n = refl
