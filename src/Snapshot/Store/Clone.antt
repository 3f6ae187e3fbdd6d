-- ===== src/Snapshot/Store/Clone.antt =====
-- Copies of a snapshot in snapshot/store.go. A copy of an empty slice is nil.
use busylib_go.Prelude.{Bool, List, [], ◌∷◌, Option, none, some}
use busylib_go.Stream.Updates.{Field}
use busylib_go.Snapshot.Types.{SnapshotField, Section, Snapshot, Wifi}

-- Clone and Equal of the protobuf library; Equal takes nil messages too.
pub record Protobuf (M : Field → Type 0) : Type 0 where
  pub clone : {f : Field} → M f → M f
  pub equal : {f : Field} → Option (M f) → Option (M f) → Bool

-- `append([]T(nil), values...)`
abbrev pub clone_slice : {A : Type 0} → Option (List A) → Option (List A)
clone_slice none = none
clone_slice (some []) = none
clone_slice (some (x ∷ xs)) = some (x ∷ xs)

abbrev pub clone_field : {E T : Type 0} → SnapshotField E T → SnapshotField E T
clone_field field = record field { raw = clone_slice field.raw }

abbrev pub clone_wifi : Wifi → Wifi
clone_wifi value = record value { ip_addresses = clone_slice value.ip_addresses }

module _ {M : Field → Type 0} (lib : Protobuf M) where
  abbrev pub clone_message : {f : Field} → Option (M f) → Option (M f)
  clone_message none = none
  clone_message (some m) = some (lib.clone m)

  abbrev pub clone_proto_field :
      {E : Type 0} {f : Field} → SnapshotField E (Option (M f)) → SnapshotField E (Option (M f))
  clone_proto_field field = record (clone_field field) { value = clone_message field.value }

module _ {M : Field → Type 0} {R : Section → Type 0} {E : Type 0} (lib : Protobuf M) where
  unfoldable pub clone_snapshot : Snapshot M R E → Snapshot M R E
  clone_snapshot s = record {
    name = clone_field s.name;
    version = clone_field s.version;
    status = clone_field s.status;
    system = clone_field s.system;
    power = clone_field s.power;
    time = clone_field s.time;
    wifi = record (clone_field s.wifi) { value = clone_wifi s.wifi.value };
    brightness = clone_field s.brightness;
    audio_volume = clone_field s.audio_volume;
    ble = clone_field s.ble;
    storage = clone_field s.storage;
    firmware_update = clone_proto_field lib s.firmware_update;
    update_check = clone_proto_field lib s.update_check;
    timezone = clone_proto_field lib s.timezone;
    matter = clone_proto_field lib s.matter;
    frame = clone_proto_field lib s.frame;
    input = clone_proto_field lib s.input;
    timer = clone_proto_field lib s.timer;
    auto_update = clone_proto_field lib s.auto_update;
    timer_profiles = clone_proto_field lib s.timer_profiles;
  }
