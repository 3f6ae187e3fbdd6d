-- ===== src/Snapshot/Types.antt =====
-- snapshot/types.go: the sections of a snapshot. `R` gives the types of the HTTP responses that are
-- kept as they are, `M` the protobuf messages, and `E` the errors. A slice is `none` where it is nil.
use busylib_go.Prelude.{ℕ, Bool, not, ◌&&◌, List, [], ◌∷◌, ◌++◌, Option, none, some}
use busylib_go.Prelude.Int.{ℤ}
use busylib_go.Prelude.Bytes.{Bytes}
use busylib_go.Stream.Updates.{
  Field, field_update_state, field_update_check, field_timezone, field_matter, field_frame,
  field_input, field_timer, field_auto_update_state, field_timer_profiles,
}

-- Field of types.go.
pub record SnapshotField (E T : Type 0) : Type 0 where
  pub value : T
  pub present : Bool
  pub err : Option E
  pub raw : Option Bytes

pub data Section : Type 0 where
  section_name section_version section_status section_system section_power section_time : Section
  section_wifi section_brightness section_audio_volume section_ble section_storage : Section
  section_firmware_update section_update_check section_timezone section_matter section_frame :
      Section
  section_input section_timer section_auto_update section_timer_profiles : Section

-- Enums of the protobuf files are their numbers.
pub record Power : Type 0 where
  pub known : Bool
  pub battery_status : ℕ
  pub battery_charge_percent : ℕ
  pub battery_voltage_mv : ℕ
  pub battery_current_ma : ℤ
  pub usb_voltage_mv : ℕ

pub data BrightnessMode : Type 0 where
  brightness_mode_unknown brightness_mode_automatic brightness_mode_manual : BrightnessMode

pub record Brightness : Type 0 where
  pub mode : BrightnessMode
  pub manual : Option ℕ
  pub actual : Option ℕ

pub data WifiState : Type 0 where
  wifi_state_unknown wifi_state_inactive wifi_state_active : WifiState

pub record IpAddress : Type 0 where
  pub protocol : ℕ
  pub method : ℕ
  pub address : Bytes
  pub gateway : Bytes
  pub netmask : Bytes

-- WiFiSecurityMethod of wifi.go; the zero value is the empty text.
pub data WifiSecurityMethod : Type 0 where
  security_empty security_open security_wpa security_wpa2 security_wep : WifiSecurityMethod
  security_wpa_wpa2 security_wpa3 security_wpa2_wpa3 security_unsupported : WifiSecurityMethod

pub record Wifi : Type 0 where
  pub state : WifiState
  pub connection_status : Option ℕ
  pub ssid : Bytes
  pub bssid : Bytes
  pub channel : ℕ
  pub rssi : ℤ
  pub security : WifiSecurityMethod
  pub security_code : Option ℕ
  pub ip_addresses : Option (List IpAddress)

pub record Ble : Type 0 where
  pub status : ℕ
  pub address : Option Bytes

pub record Snapshot (M : Field → Type 0) (R : Section → Type 0) (E : Type 0) : Type 0 where
  pub name : SnapshotField E Bytes
  pub version : SnapshotField E Bytes
  pub status : SnapshotField E (R section_status)
  pub system : SnapshotField E (R section_system)
  pub power : SnapshotField E Power
  pub time : SnapshotField E (R section_time)
  pub wifi : SnapshotField E Wifi
  pub brightness : SnapshotField E Brightness
  pub audio_volume : SnapshotField E ℤ
  pub ble : SnapshotField E Ble
  pub storage : SnapshotField E (R section_storage)
  pub firmware_update : SnapshotField E (Option (M field_update_state))
  pub update_check : SnapshotField E (Option (M field_update_check))
  pub timezone : SnapshotField E (Option (M field_timezone))
  pub matter : SnapshotField E (Option (M field_matter))
  pub frame : SnapshotField E (Option (M field_frame))
  pub input : SnapshotField E (Option (M field_input))
  pub timer : SnapshotField E (Option (M field_timer))
  pub auto_update : SnapshotField E (Option (M field_auto_update_state))
  pub timer_profiles : SnapshotField E (Option (M field_timer_profiles))

-- The map of failures as a list of its entries.
abbrev pub add_failure : {E : Type 0} → List (Section × E) → Section → Option E → List (Section × E)
add_failure failures section none = failures
add_failure failures section (some e) = failures ++ ((section, e) ∷ [])

module _ {M : Field → Type 0} {R : Section → Type 0} {E : Type 0} where
  unfoldable pub complete : Snapshot M R E → Bool
  complete s =
      s.name.present && s.version.present && s.status.present && s.system.present && s.power.present
      && s.time.present && s.wifi.present && s.brightness.present && s.audio_volume.present
      && s.ble.present && s.storage.present

  unfoldable pub empty : Snapshot M R E → Bool
  empty s =
      not s.name.present
      && not s.version.present
      && not s.status.present
      && not s.system.present
      && not s.power.present
      && not s.time.present
      && not s.wifi.present
      && not s.brightness.present
      && not s.audio_volume.present
      && not s.ble.present
      && not s.storage.present
      && not s.firmware_update.present
      && not s.update_check.present
      && not s.timezone.present
      && not s.matter.present
      && not s.frame.present
      && not s.input.present
      && not s.timer.present
      && not s.auto_update.present
      && not s.timer_profiles.present

  unfoldable pub failures : Snapshot M R E → List (Section × E)
  failures s =
      let f0 = add_failure [] section_name s.name.err in
      let f1 = add_failure f0 section_version s.version.err in
      let f2 = add_failure f1 section_status s.status.err in
      let f3 = add_failure f2 section_system s.system.err in
      let f4 = add_failure f3 section_power s.power.err in
      let f5 = add_failure f4 section_time s.time.err in
      let f6 = add_failure f5 section_wifi s.wifi.err in
      let f7 = add_failure f6 section_brightness s.brightness.err in
      let f8 = add_failure f7 section_audio_volume s.audio_volume.err in
      let f9 = add_failure f8 section_ble s.ble.err in
      let f10 = add_failure f9 section_storage s.storage.err in
      let f11 = add_failure f10 section_firmware_update s.firmware_update.err in
      let f12 = add_failure f11 section_update_check s.update_check.err in
      let f13 = add_failure f12 section_timezone s.timezone.err in
      let f14 = add_failure f13 section_matter s.matter.err in
      let f15 = add_failure f14 section_frame s.frame.err in
      let f16 = add_failure f15 section_input s.input.err in
      let f17 = add_failure f16 section_timer s.timer.err in
      let f18 = add_failure f17 section_auto_update s.auto_update.err in
      add_failure f18 section_timer_profiles s.timer_profiles.err
