-- ===== src/Stream/Decode/Lossless.antt =====
-- What internal/statusdecode/decode.go keeps of a message.
use busylib_go.Prelude.{
  subst, ℕ, ◌≡◌, ◌⊎◌, ◌↔◌, inl, inr, refl, Bool, true, false, List, [], ◌∷◌, Option, none, some,
  Result, ok, err, map,
}
use busylib_go.Prelude.Bytes.{Bytes}
use busylib_go.Stream.Updates.{
  Field, StateValue, StateUpdate, DeviceState, StateError, Severity, fatal, error, warning, other,
  Update, unknown_update, kind, proto, Message, device_name, power, brightness, audio_volume, wifi,
  update_state, update_check, timezone, matter, frame, input, timer, ble, auto_update_state,
  timer_profiles, device_name_update, power_update, brightness_update, audio_volume_update,
  wifi_update, firmware_update, update_check_update, timezone_update, matter_update, frame_update,
  input_update, timer_update, ble_update, auto_update_update, timer_profiles_update,
}
use busylib_go.Stream.Decode.{
  map_value, map_update, map_updates, decoded, decode_binary, device_error_of, is_fatal,
}
use busylib_go.Stream.Decode.Carried.{IsMapped, carried, map_update-carried, update_agrees}

abbrev pub IsFatalError : Option StateError → Type 0
IsFatalError none = ⊥
IsFatalError (some e) = e.severity ≡ fatal

fatal_severity :
    (raw : StateError) (cause : ℕ) (s : Severity)
    → (is_fatal (some (record { cause = cause; severity = s; raw = raw })) ≡ true) ↔ (s ≡ fatal)
fatal_severity raw cause fatal = ((λ h. refl), λ h. refl)
fatal_severity raw cause error = ((λ h. cc), λ h. cc)
fatal_severity raw cause warning = ((λ h. cc), λ h. cc)
fatal_severity raw cause (other n) = ((λ h. cc), λ h. cc)

is_fatal_iff : (e : Option StateError) → (is_fatal (device_error_of e) ≡ true) ↔ IsFatalError e
is_fatal_iff none = ((λ h. cc), λ h. absurd h)
is_fatal_iff (some e) = fatal_severity e e.cause e.severity

module _ {V : Field → Type 0} where
  -- The update that a mapped one comes from.
  abbrev pub source_of : Update V → Option (StateUpdate V)
  source_of (device_name_update v) = some (record { state = some (device_name v) })
  source_of (power_update v) = some (record { state = some (power v) })
  source_of (brightness_update v) = some (record { state = some (brightness v) })
  source_of (audio_volume_update v) = some (record { state = some (audio_volume v) })
  source_of (wifi_update v) = some (record { state = some (wifi v) })
  source_of (firmware_update v) = some (record { state = some (update_state v) })
  source_of (update_check_update v) = some (record { state = some (update_check v) })
  source_of (timezone_update v) = some (record { state = some (timezone v) })
  source_of (matter_update v) = some (record { state = some (matter v) })
  source_of (frame_update v) = some (record { state = some (frame v) })
  source_of (input_update v) = some (record { state = some (input v) })
  source_of (timer_update v) = some (record { state = some (timer v) })
  source_of (ble_update v) = some (record { state = some (ble v) })
  source_of (auto_update_update v) = some (record { state = some (auto_update_state v) })
  source_of (timer_profiles_update v) = some (record { state = some (timer_profiles v) })
  source_of (unknown_update u) = u

  map_value_source :
      (s : Option (StateValue V))
      → source_of (map_value (record { state = s }) s) ≡ some (record { state = s })
  unfolding map_value
  map_value_source (some (device_name v)) = refl
  map_value_source (some (power v)) = refl
  map_value_source (some (brightness v)) = refl
  map_value_source (some (audio_volume v)) = refl
  map_value_source (some (wifi v)) = refl
  map_value_source (some (update_state v)) = refl
  map_value_source (some (update_check v)) = refl
  map_value_source (some (timezone v)) = refl
  map_value_source (some (matter v)) = refl
  map_value_source (some (frame v)) = refl
  map_value_source (some (input v)) = refl
  map_value_source (some (timer v)) = refl
  map_value_source (some (ble v)) = refl
  map_value_source (some (auto_update_state v)) = refl
  map_value_source (some (timer_profiles v)) = refl
  map_value_source none = refl

  map_update_source : (u : Option (StateUpdate V)) → source_of (map_update u) ≡ u
  unfolding map_update
  map_update_source none = refl
  map_update_source (some u) = map_value_source u.state

  -- mapUpdate tells every field apart and loses nothing: where a field is set, Proto of the typed update is
  -- the payload of exactly this field, and Kind is the kind that stands for it; only an update that is
  -- nil or has no field set is unknown, and keeps itself; and the state update can be read back.
  pub map_update-source_of :
      (u : Option (StateUpdate V))
      → (source_of (map_update u) ≡ u)
        × (proto (map_update u) ≡ carried u)
        × IsMapped (kind (map_update u)) (carried u)
  map_update-source_of u =
      let same = map_update-carried u in
      (
        map_update_source u,
        same,
        subst (IsMapped (kind (map_update u))) same (update_agrees (map_update u)),
      )

  map_updates_source : (us : List (Option (StateUpdate V))) → map source_of (map_updates us) ≡ us
  unfolding map_updates
  map_updates_source [] = refl
  map_updates_source (u ∷ us) = rw (map_update_source u, map_updates_source us)

  module _ {E : Type 0} (unmarshal : Bytes → Result E (DeviceState V)) where
    -- What a decoded message is: the state, all of its updates in their order, and the end of the
    -- stream exactly at a fatal error of the device; or nothing but the decoding error.
    abbrev pub IsDecoding : (E → Bytes → E) → Bytes → Bytes → Message V E × Bool → Type 0
    IsDecoding decode_failure data_bytes path (message, ends) =
        (message.raw ≡ data_bytes)
        × (((s : DeviceState V) × (unmarshal data_bytes ≡ ok s)
              × (message.state ≡ some s)
              × (map source_of message.updates ≡ s.updates)
              × (message.decode_error ≡ none)
              × ((ends ≡ true) ↔ IsFatalError s.error))
            ⊎ (e : E) × (unmarshal data_bytes ≡ err e)
              × (message.state ≡ none)
              × (message.updates ≡ [])
              × (message.decode_error ≡ some (decode_failure e path))
              × (ends ≡ false))

    decoded-IsDecoding :
        (decode_failure : E → Bytes → E) (now : ℕ) (data_bytes path : Bytes)
        (r : Result E (DeviceState V))
        → unmarshal data_bytes ≡ r
        → IsDecoding decode_failure data_bytes path (decoded decode_failure now data_bytes path r)
    unfolding decoded
    decoded-IsDecoding decode_failure now data_bytes path (ok s) e =
        (refl, inl (s, e, refl, map_updates_source s.updates, refl, is_fatal_iff s.error))
    decoded-IsDecoding decode_failure now data_bytes path (err failure) e =
        (refl, inr (failure, e, refl, refl, refl, refl))

    -- DecodeBinary keeps the bytes of every message. Of one that unmarshals it keeps the state and
    -- every update, in their order and without loss, and it ends the stream exactly where the device
    -- reports a fatal error. One that does not unmarshal has the error alone and ends nothing.
    pub decode_binary-IsDecoding :
        (decode_failure : E → Bytes → E) (now : ℕ) (data_bytes path : Bytes)
        → IsDecoding decode_failure data_bytes path
            (decode_binary unmarshal decode_failure now data_bytes path)
    unfolding decode_binary
    decode_binary-IsDecoding decode_failure now data_bytes path =
        decoded-IsDecoding decode_failure now data_bytes path (unmarshal data_bytes) refl
