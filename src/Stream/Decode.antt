-- ===== src/Stream/Decode.antt =====
-- internal/statusdecode/decode.go: decoding one binary status message.
-- The protobuf library's Unmarshal and the clock are parameters; `decode_failure` is the error value
-- that wraps the library's with its path.
pub mod Carried
pub mod Lossless
use busylib_go.Prelude.{
  ℕ, Bool, true, false, List, [], ◌∷◌, Option, none, some, Result, ok, err, if◌then◌else◌,
}
use busylib_go.Prelude.Bytes.{Bytes}
use busylib_go.Stream.Updates.{
  Field, StateValue, StateUpdate, DeviceState, StateError, Severity, fatal, error, warning, other,
  Update, unknown_update, Message, message_binary, DeviceError, device_name, power, brightness,
  audio_volume, wifi, update_state, update_check, timezone, matter, frame, input, timer, ble,
  auto_update_state, timer_profiles, device_name_update, power_update, brightness_update,
  audio_volume_update, wifi_update, firmware_update, update_check_update, timezone_update,
  matter_update, frame_update, input_update, timer_update, ble_update, auto_update_update,
  timer_profiles_update,
}

abbrev pub device_error_of : Option StateError → Option DeviceError
device_error_of none = none
device_error_of (some e) = some (record { cause = e.cause; severity = e.severity; raw = e })

abbrev pub is_fatal : Option DeviceError → Bool
is_fatal none = false
is_fatal (some e) = elim (e.severity) [
  | fatal ↦ true
  | error ↦ false
  | warning ↦ false
  | other _ ↦ false
]

module _ {V : Field → Type 0} where
  map_value : StateUpdate V → Option (StateValue V) → Update V
  map_value update (some (device_name v)) = device_name_update v
  map_value update (some (power v)) = power_update v
  map_value update (some (brightness v)) = brightness_update v
  map_value update (some (audio_volume v)) = audio_volume_update v
  map_value update (some (wifi v)) = wifi_update v
  map_value update (some (update_state v)) = firmware_update v
  map_value update (some (update_check v)) = update_check_update v
  map_value update (some (timezone v)) = timezone_update v
  map_value update (some (matter v)) = matter_update v
  map_value update (some (frame v)) = frame_update v
  map_value update (some (input v)) = input_update v
  map_value update (some (timer v)) = timer_update v
  map_value update (some (ble v)) = ble_update v
  map_value update (some (auto_update_state v)) = auto_update_update v
  map_value update (some (timer_profiles v)) = timer_profiles_update v
  map_value update none = unknown_update (some update)

  unfoldable pub map_update : Option (StateUpdate V) → Update V
  unfolding map_value
  map_update none = unknown_update none
  map_update (some update) = map_value update update.state

  -- The loop over the updates.
  unfoldable pub map_updates : List (Option (StateUpdate V)) → List (Update V)
  map_updates [] = []
  map_updates (update ∷ updates) = map_update update ∷ map_updates updates

  -- The message, and whether the stream has to end, by what Unmarshal returns.
  decoded :
      {E : Type 0} (decode_failure : E → Bytes → E) (now : ℕ)
      → Bytes
      → Bytes
      → Result E (DeviceState V)
      → Message V E × Bool
  decoded decode_failure now data_bytes path (err e) = (
    record {
      kind = message_binary;
      received_at = now;
      raw = data_bytes;
      text = [];
      state = none;
      updates = [];
      device_error = none;
      decode_error = some (decode_failure e path);
    },
    false,
  )
  decoded decode_failure now data_bytes path (ok s) = (
    record {
      kind = message_binary;
      received_at = now;
      raw = data_bytes;
      text = [];
      state = some s;
      updates = map_updates s.updates;
      device_error = device_error_of s.error;
      decode_error = none;
    },
    is_fatal (device_error_of s.error),
  )

  unfoldable pub decode_binary :
      {E : Type 0} (unmarshal : Bytes → Result E (DeviceState V)) (decode_failure : E → Bytes → E)
      (now : ℕ)
      → Bytes
      → Bytes
      → Message V E × Bool
  unfolding decoded
  decode_binary unmarshal decode_failure now data_bytes path =
      decoded decode_failure now data_bytes path (unmarshal data_bytes)
