-- ===== src/Stream/Decode/Carried.antt =====
-- What mapUpdate of internal/statusdecode/decode.go makes of each field.
use busylib_go.Prelude.{◌≡◌, refl, Option, none, some}
use busylib_go.Stream.Updates.{
  Field, StateValue, StateUpdate, Update, unknown_update, UpdateKind, update_unknown, kind, Proto,
  payload, whole, proto, device_name, power, brightness, audio_volume, wifi, update_state,
  update_check, timezone, matter, frame, input, timer, ble, auto_update_state, timer_profiles,
  device_name_update, power_update, brightness_update, audio_volume_update, wifi_update,
  firmware_update, update_check_update, timezone_update, matter_update, frame_update, input_update,
  timer_update, ble_update, auto_update_update, timer_profiles_update, update_device_name,
  update_power, update_brightness, update_audio_volume, update_wifi, update_firmware,
  update_check_kind, update_timezone, update_matter, update_frame, update_input, update_timer,
  update_ble, update_auto_update, update_timer_profiles, field_device_name, field_power,
  field_brightness, field_audio_volume, field_wifi, field_update_state, field_update_check,
  field_timezone, field_matter, field_frame, field_input, field_timer, field_ble,
  field_auto_update_state, field_timer_profiles,
}
use busylib_go.Stream.Decode.{map_value, map_update}

-- The field that a kind stands for.
abbrev pub kind_of : Field → UpdateKind
kind_of field_device_name = update_device_name
kind_of field_power = update_power
kind_of field_brightness = update_brightness
kind_of field_audio_volume = update_audio_volume
kind_of field_wifi = update_wifi
kind_of field_update_state = update_firmware
kind_of field_update_check = update_check_kind
kind_of field_timezone = update_timezone
kind_of field_matter = update_matter
kind_of field_frame = update_frame
kind_of field_input = update_input
kind_of field_timer = update_timer
kind_of field_ble = update_ble
kind_of field_auto_update_state = update_auto_update
kind_of field_timer_profiles = update_timer_profiles

module _ {V : Field → Type 0} where
  -- What a mapped update says: the kind of the field that is set and its payload, or all of an
  -- update of unknown kind.
  abbrev pub IsMapped : UpdateKind → Proto V → Type 0
  IsMapped k (payload f v) = k ≡ kind_of f
  IsMapped k (whole u) = k ≡ update_unknown

  -- The payload of the field that is set, or all of an update without one.
  abbrev pub carried_value : StateValue V → Proto V
  carried_value (device_name v) = payload field_device_name v
  carried_value (power v) = payload field_power v
  carried_value (brightness v) = payload field_brightness v
  carried_value (audio_volume v) = payload field_audio_volume v
  carried_value (wifi v) = payload field_wifi v
  carried_value (update_state v) = payload field_update_state v
  carried_value (update_check v) = payload field_update_check v
  carried_value (timezone v) = payload field_timezone v
  carried_value (matter v) = payload field_matter v
  carried_value (frame v) = payload field_frame v
  carried_value (input v) = payload field_input v
  carried_value (timer v) = payload field_timer v
  carried_value (ble v) = payload field_ble v
  carried_value (auto_update_state v) = payload field_auto_update_state v
  carried_value (timer_profiles v) = payload field_timer_profiles v

  abbrev pub carried_state : Option (StateValue V) → Proto V
  carried_state none = whole (some (record { state = none }))
  carried_state (some value) = carried_value value

  abbrev pub carried : Option (StateUpdate V) → Proto V
  carried none = whole none
  carried (some u) = carried_state u.state

  map_value-carried :
      (s : Option (StateValue V)) → proto (map_value (record { state = s }) s) ≡ carried_state s
  unfolding map_value proto
  map_value-carried (some (device_name v)) = refl
  map_value-carried (some (power v)) = refl
  map_value-carried (some (brightness v)) = refl
  map_value-carried (some (audio_volume v)) = refl
  map_value-carried (some (wifi v)) = refl
  map_value-carried (some (update_state v)) = refl
  map_value-carried (some (update_check v)) = refl
  map_value-carried (some (timezone v)) = refl
  map_value-carried (some (matter v)) = refl
  map_value-carried (some (frame v)) = refl
  map_value-carried (some (input v)) = refl
  map_value-carried (some (timer v)) = refl
  map_value-carried (some (ble v)) = refl
  map_value-carried (some (auto_update_state v)) = refl
  map_value-carried (some (timer_profiles v)) = refl
  map_value-carried none = refl

  pub map_update-carried : (u : Option (StateUpdate V)) → proto (map_update u) ≡ carried u
  unfolding map_update proto
  map_update-carried none = refl
  map_update-carried (some u) = map_value-carried u.state

  pub update_agrees : (u : Update V) → IsMapped (kind u) (proto u)
  unfolding kind proto
  update_agrees (device_name_update v) = refl
  update_agrees (power_update v) = refl
  update_agrees (brightness_update v) = refl
  update_agrees (audio_volume_update v) = refl
  update_agrees (wifi_update v) = refl
  update_agrees (firmware_update v) = refl
  update_agrees (update_check_update v) = refl
  update_agrees (timezone_update v) = refl
  update_agrees (matter_update v) = refl
  update_agrees (frame_update v) = refl
  update_agrees (input_update v) = refl
  update_agrees (timer_update v) = refl
  update_agrees (ble_update v) = refl
  update_agrees (auto_update_update v) = refl
  update_agrees (timer_profiles_update v) = refl
  update_agrees (unknown_update u) = refl
