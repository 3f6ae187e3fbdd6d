-- ===== src/Stream/Updates.antt =====
-- stream/types.go: messages and typed updates, and the protobuf states of proto/statepb and
-- proto/errorpb that they come from. `V` gives the type of the pointer that each field holds.
use busylib_go.Prelude.{ℕ, List, Option}
use busylib_go.Prelude.Bytes.{Bytes}

-- The fields of the oneof, by their names.
pub data Field : Type 0 where
  field_device_name field_power field_brightness field_audio_volume field_wifi : Field
  field_update_state field_update_check field_timezone field_matter field_frame field_input : Field
  field_timer field_ble field_auto_update_state field_timer_profiles : Field

-- What the oneof of a state update holds.
pub data StateValue (V : Field → Type 0) : Type 0 where
  device_name : V field_device_name → StateValue V
  power : V field_power → StateValue V
  brightness : V field_brightness → StateValue V
  audio_volume : V field_audio_volume → StateValue V
  wifi : V field_wifi → StateValue V
  update_state : V field_update_state → StateValue V
  update_check : V field_update_check → StateValue V
  timezone : V field_timezone → StateValue V
  matter : V field_matter → StateValue V
  frame : V field_frame → StateValue V
  input : V field_input → StateValue V
  timer : V field_timer → StateValue V
  ble : V field_ble → StateValue V
  auto_update_state : V field_auto_update_state → StateValue V
  timer_profiles : V field_timer_profiles → StateValue V

-- The oneof may be unset.
pub record StateUpdate (V : Field → Type 0) : Type 0 where
  pub state : Option (StateValue V)

-- `other` is any number that the enum does not name.
pub data Severity : Type 0 where
  fatal error warning : Severity
  other : ℕ → Severity

pub record StateError : Type 0 where
  pub cause : ℕ
  pub severity : Severity

-- The elements of `updates` and `error` are pointers, which may be nil.
pub record DeviceState (V : Field → Type 0) : Type 0 where
  pub timestamp : ℕ
  pub updates : List (Option (StateUpdate V))
  pub error : Option StateError

pub data UpdateKind : Type 0 where
  update_device_name update_power update_brightness update_audio_volume update_wifi : UpdateKind
  update_firmware update_check_kind update_timezone update_matter update_frame update_input :
      UpdateKind
  update_timer update_ble update_auto_update update_timer_profiles update_unknown : UpdateKind

-- An unknown update keeps the pointer to the whole state update.
pub data Update (V : Field → Type 0) : Type 0 where
  device_name_update : V field_device_name → Update V
  power_update : V field_power → Update V
  brightness_update : V field_brightness → Update V
  audio_volume_update : V field_audio_volume → Update V
  wifi_update : V field_wifi → Update V
  firmware_update : V field_update_state → Update V
  update_check_update : V field_update_check → Update V
  timezone_update : V field_timezone → Update V
  matter_update : V field_matter → Update V
  frame_update : V field_frame → Update V
  input_update : V field_input → Update V
  timer_update : V field_timer → Update V
  ble_update : V field_ble → Update V
  auto_update_update : V field_auto_update_state → Update V
  timer_profiles_update : V field_timer_profiles → Update V
  unknown_update : Option (StateUpdate V) → Update V

-- What Proto returns: a pointer to the payload of one of the fields, or to the whole update.
pub data Proto (V : Field → Type 0) : Type 0 where
  payload : (f : Field) → V f → Proto V
  whole : Option (StateUpdate V) → Proto V

module _ {V : Field → Type 0} where
  unfoldable pub kind : Update V → UpdateKind
  kind (device_name_update _) = update_device_name
  kind (power_update _) = update_power
  kind (brightness_update _) = update_brightness
  kind (audio_volume_update _) = update_audio_volume
  kind (wifi_update _) = update_wifi
  kind (firmware_update _) = update_firmware
  kind (update_check_update _) = update_check_kind
  kind (timezone_update _) = update_timezone
  kind (matter_update _) = update_matter
  kind (frame_update _) = update_frame
  kind (input_update _) = update_input
  kind (timer_update _) = update_timer
  kind (ble_update _) = update_ble
  kind (auto_update_update _) = update_auto_update
  kind (timer_profiles_update _) = update_timer_profiles
  kind (unknown_update _) = update_unknown

  unfoldable pub proto : Update V → Proto V
  proto (device_name_update v) = payload field_device_name v
  proto (power_update v) = payload field_power v
  proto (brightness_update v) = payload field_brightness v
  proto (audio_volume_update v) = payload field_audio_volume v
  proto (wifi_update v) = payload field_wifi v
  proto (firmware_update v) = payload field_update_state v
  proto (update_check_update v) = payload field_update_check v
  proto (timezone_update v) = payload field_timezone v
  proto (matter_update v) = payload field_matter v
  proto (frame_update v) = payload field_frame v
  proto (input_update v) = payload field_input v
  proto (timer_update v) = payload field_timer v
  proto (ble_update v) = payload field_ble v
  proto (auto_update_update v) = payload field_auto_update_state v
  proto (timer_profiles_update v) = payload field_timer_profiles v
  proto (unknown_update u) = whole u

pub data MessageKind : Type 0 where
  message_binary message_text : MessageKind

pub record DeviceError : Type 0 where
  pub cause : ℕ
  pub severity : Severity
  pub raw : StateError

-- `E` is the type of errors.
pub record Message (V : Field → Type 0) (E : Type 0) : Type 0 where
  pub kind : MessageKind
  pub received_at : ℕ
  pub raw : Bytes
  pub text : Bytes
  pub state : Option (DeviceState V)
  pub updates : List (Update V)
  pub device_error : Option DeviceError
  pub decode_error : Option E
