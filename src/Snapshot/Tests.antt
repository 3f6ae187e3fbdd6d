-- ===== src/Snapshot/Tests.antt =====
-- Runs of the store, and its theorems at a small snapshot.
use native.Mathlib.Decide.{ℕ_discrete}
use busylib_go.Prelude.{
  ℕ, Bool, true, false, [], ◌∷◌, Option, none, some, ◌≡◌, ◌↔◌, refl, ◌==◌, ==_iff,
}
use busylib_go.Prelude.Int.{pos}
use busylib_go.Stream.Updates.{
  Field, field_device_name, Update, device_name_update, wifi_update, timer_update, unknown_update,
}
use busylib_go.Snapshot.Types.{
  SnapshotField, Section, Snapshot, section_wifi, section_name, brightness_mode_unknown,
  wifi_state_unknown, security_empty, complete, empty, failures,
}
use busylib_go.Snapshot.Payloads.{wifi_unknown}
use busylib_go.Snapshot.Store.{
  Payload, Protobuf, apply_updates, apply_from, apply, changed_from, clone_snapshot, section_equal,
  contains,
}
use busylib_go.Snapshot.Store.Equal.{
  Section-discrete, SnapshotField-discrete, Wifi-discrete, Bytes-discrete,
}
use busylib_go.Snapshot.Store.Writes.{field_of, section_of}
use busylib_go.Snapshot.Store.Merged.{Batch, IsMerged, apply_updates-IsMerged}
use busylib_go.Snapshot.Store.Same.{IsSame}
use busylib_go.Snapshot.Store.Touched.{AnyWrites}
use busylib_go.Snapshot.Store.Changed.{apply_updates-sections}
use busylib_go.Snapshot.Store.Again.{apply_updates-again}

-- Messages, responses and errors are numbers.
abbrev Message : Field → Type 0
Message f = ℕ

abbrev Response : Section → Type 0
Response section = ℕ

abbrev equal_messages : Option ℕ → Option ℕ → Bool
equal_messages none none = true
equal_messages (some a) (some b) = a == b
equal_messages _ _ = false

abbrev protobuf : Protobuf Message
protobuf = record { clone = λ m. m; equal = equal_messages }

abbrev missing : {T : Type 0} → T → SnapshotField ℕ T
missing value = record { value = value; present = false; err = none; raw = none }

abbrev nothing : Snapshot Message Response ℕ
nothing = record {
  name = missing [];
  version = missing [];
  status = missing 0;
  system = missing 0;
  power = missing (record {
    known = false;
    battery_status = 0;
    battery_charge_percent = 0;
    battery_voltage_mv = 0;
    battery_current_ma = pos 0;
    usb_voltage_mv = 0;
  });
  time = missing 0;
  wifi = missing (record {
    state = wifi_state_unknown;
    connection_status = none;
    ssid = [];
    bssid = [];
    channel = 0;
    rssi = pos 0;
    security = security_empty;
    security_code = none;
    ip_addresses = none;
  });
  brightness = missing (record { mode = brightness_mode_unknown; manual = none; actual = none });
  audio_volume = missing (pos 0);
  ble = missing (record { status = 0; address = none });
  storage = missing 0;
  firmware_update = missing none;
  update_check = missing none;
  timezone = missing none;
  matter = missing none;
  frame = missing none;
  input = missing none;
  timer = missing none;
  auto_update = missing none;
  timer_profiles = missing none;
}

abbrev no_network : Update (λ f. Option (Payload Message f))
no_network = wifi_update (some (record { wifi_state = wifi_unknown; ip_addresses = [] }))

abbrev named : Update (λ f. Option (Payload Message f))
named = device_name_update (some (record { name = 66 ∷ [] }))

abbrev batch : Batch Message
batch = named ∷ no_network ∷ unknown_update none ∷ device_name_update none ∷ timer_update none ∷ []

apply_updates-IsMerged_example :
    IsMerged protobuf field_device_name batch
      (field_of field_device_name nothing)
      (field_of field_device_name ((apply_updates protobuf ℕ_discrete nothing batch).0))
apply_updates-IsMerged_example =
    apply_updates-IsMerged protobuf ℕ_discrete batch nothing field_device_name

apply_updates-sections_example :
    (contains (apply_updates protobuf ℕ_discrete nothing batch).1.sections section_name ≡ true) ↔ (
      (f : Field) × (section_of f ≡ section_name)
      × AnyWrites Message f batch
      × ¬ IsSame protobuf f
          (field_of f (clone_snapshot protobuf nothing))
          (field_of f ((apply_updates protobuf ℕ_discrete nothing batch).0)))
apply_updates-sections_example =
    apply_updates-sections protobuf ℕ_discrete batch nothing section_name

equal_to_itself : (m : ℕ) → equal_messages (some m) (some m) ≡ true
equal_to_itself m = (==_iff m m).1 refl

apply_updates-again_example :
    (apply_updates protobuf ℕ_discrete
      ((apply_updates protobuf ℕ_discrete nothing (no_network ∷ [])).0)
      (no_network ∷ [])).1.sections
    ≡ section_wifi ∷ []
apply_updates-again_example =
    apply_updates-again protobuf ℕ_discrete (λ f. equal_to_itself) no_network nothing

reported_sections :
    (apply_updates protobuf ℕ_discrete nothing batch).1.sections ≡ section_name ∷ section_wifi ∷ []
unfolding apply_updates apply_from apply clone_snapshot changed_from section_equal Section-discrete
    Bytes-discrete Wifi-discrete SnapshotField-discrete ℕ_discrete
reported_sections = refl

empty_snapshot : (empty nothing ≡ true) × (complete nothing ≡ false) × (failures nothing ≡ [])
unfolding empty complete failures
empty_snapshot = (refl, refl, refl)
