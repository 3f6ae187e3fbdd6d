-- ===== src/Snapshot/Payloads.antt =====
-- The protobuf structs of proto/statepb and proto/blepb that snapshot/store.go reads, and what it makes
-- of them. A getter of a nil struct returns a zero value.
use busylib_go.Prelude.{ℕ, true, false, List, [], ◌∷◌, Option, none, some, ◌==◌, if◌then◌else◌}
use busylib_go.Prelude.Int.{ℤ, pos}
use busylib_go.Prelude.Bytes.{Bytes}
use busylib_go.Snapshot.Types.{
  Power, BrightnessMode, Brightness, brightness_mode_unknown, brightness_mode_automatic,
  brightness_mode_manual, Wifi, wifi_state_unknown, wifi_state_inactive, wifi_state_active,
  IpAddress, WifiSecurityMethod, security_empty, security_open, security_wpa, security_wpa2,
  security_wep, security_wpa_wpa2, security_wpa3, security_wpa2_wpa3, security_unsupported, Ble,
}

pub record NameMessage : Type 0 where
  pub name : Bytes

pub record PowerStateMessage : Type 0 where
  pub battery_status : ℕ
  pub battery_charge_percent : ℕ
  pub battery_voltage_mv : ℕ
  pub battery_current_ma : ℤ
  pub usb_voltage_mv : ℕ

-- The oneof of Power: unset, unknown, or a pointer to the state.
pub data PowerMessage : Type 0 where
  power_unset power_unknown : PowerMessage
  power_known : Option PowerStateMessage → PowerMessage

-- The pointer of the automatic setting is nil or not.
pub data BrightnessSetting : Type 0 where
  setting_unset : BrightnessSetting
  setting_automatic : Option (Unit {0}) → BrightnessSetting
  setting_manual : Option ℕ → BrightnessSetting

pub record BrightnessMessage : Type 0 where
  pub setting : BrightnessSetting
  pub actual_brightness : ℕ

pub record VolumeMessage : Type 0 where
  pub volume : ℕ

pub record WifiActiveMessage : Type 0 where
  pub status : ℕ
  pub ssid : Bytes
  pub bssid : Bytes
  pub channel : ℕ
  pub rssi : ℤ
  pub security : ℕ

pub data WifiStateMessage : Type 0 where
  wifi_unset wifi_unknown : WifiStateMessage
  wifi_inactive : Option (Unit {0}) → WifiStateMessage
  wifi_active : Option WifiActiveMessage → WifiStateMessage

pub record IpAddressMessage : Type 0 where
  pub protocol : ℕ
  pub method : ℕ
  pub address : Bytes
  pub gateway : Bytes
  pub netmask : Bytes

pub record WifiMessage : Type 0 where
  pub wifi_state : WifiStateMessage
  pub ip_addresses : List (Option IpAddressMessage)

pub record BleMessage : Type 0 where
  pub status : ℕ
  pub remote_address : Option Bytes

abbrev no_power : Power
no_power = record {
  known = false;
  battery_status = 0;
  battery_charge_percent = 0;
  battery_voltage_mv = 0;
  battery_current_ma = pos 0;
  usb_voltage_mv = 0;
}

abbrev pub power_from_proto : PowerMessage → Power
power_from_proto power_unset = no_power
power_from_proto power_unknown = no_power
power_from_proto (power_known none) = no_power
power_from_proto (power_known (some k)) = record {
  known = true;
  battery_status = k.battery_status;
  battery_charge_percent = k.battery_charge_percent;
  battery_voltage_mv = k.battery_voltage_mv;
  battery_current_ma = k.battery_current_ma;
  usb_voltage_mv = k.usb_voltage_mv;
}

abbrev setting_of : BrightnessSetting → BrightnessMode × Option ℕ
setting_of setting_unset = (brightness_mode_unknown, none)
setting_of (setting_automatic none) = (brightness_mode_unknown, none)
setting_of (setting_automatic (some _)) = (brightness_mode_automatic, none)
setting_of (setting_manual none) = (brightness_mode_unknown, none)
setting_of (setting_manual (some brightness)) = (brightness_mode_manual, some brightness)

abbrev pub brightness_from_proto : BrightnessMessage → Brightness
brightness_from_proto m =
    let setting = setting_of m.setting in
    record { mode = setting.0; manual = setting.1; actual = some m.actual_brightness }

-- The numbers are those of the enum of wifi.proto.
abbrev pub wifi_security_name : ℕ → WifiSecurityMethod
wifi_security_name value =
    if value == 1
    then security_open
    else if value == 2
    then security_wpa
    else if value == 3
    then security_wpa2
    else if value == 4
    then security_wep
    else if value == 5
    then security_wpa_wpa2
    else if value == 6
    then security_wpa3
    else if value == 7
    then security_wpa2_wpa3
    else security_unsupported

-- The loop over the addresses.
abbrev pub addresses_of : List (Option IpAddressMessage) → List IpAddress
addresses_of [] = []
addresses_of (none ∷ addresses) = addresses_of addresses
addresses_of (some a ∷ addresses) =
    record {
      protocol = a.protocol;
      method = a.method;
      address = a.address;
      gateway = a.gateway;
      netmask = a.netmask;
    }
    ∷ addresses_of addresses

-- The state of the service, without the addresses.
abbrev pub without_addresses : WifiStateMessage → Wifi
without_addresses (wifi_active (some a)) = record {
  state = wifi_state_active;
  connection_status = some a.status;
  ssid = a.ssid;
  bssid = a.bssid;
  channel = a.channel;
  rssi = a.rssi;
  security = wifi_security_name a.security;
  security_code = some a.security;
  ip_addresses = none;
}
without_addresses (wifi_inactive (some _)) = record {
  state = wifi_state_inactive;
  connection_status = none;
  ssid = [];
  bssid = [];
  channel = 0;
  rssi = pos 0;
  security = security_empty;
  security_code = none;
  ip_addresses = none;
}
without_addresses _ = record {
  state = wifi_state_unknown;
  connection_status = none;
  ssid = [];
  bssid = [];
  channel = 0;
  rssi = pos 0;
  security = security_empty;
  security_code = none;
  ip_addresses = none;
}

-- The slice of the addresses is made, so it is never nil.
abbrev pub wifi_from_proto : WifiMessage → Wifi
wifi_from_proto m = record (without_addresses m.wifi_state) {
  ip_addresses = some (addresses_of m.ip_addresses);
}

abbrev pub ble_from_proto : BleMessage → Ble
ble_from_proto m = record { status = m.status; address = m.remote_address }
