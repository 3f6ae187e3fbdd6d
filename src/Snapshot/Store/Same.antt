-- ===== src/Snapshot/Store/Same.antt =====
-- When two snapshots have the same section, and which of the touched ones are reported.
use Prim.{Discrete}
use busylib_go.Prelude.{
  Bool, arith, true, false, not, ◌&&◌, &&-eq-true, if◌then◌else◌, List, [], ◌∷◌, Option, ◌≡◌, ◌↔◌,
  refl, ap, ◌∙◌,
}
use busylib_go.Prelude.Bytes.{bytes_eq_iff}
use busylib_go.Stream.Updates.{
  Field, field_device_name, field_power, field_brightness, field_audio_volume, field_wifi,
  field_update_state, field_update_check, field_timezone, field_matter, field_frame, field_input,
  field_timer, field_ble, field_auto_update_state, field_timer_profiles,
}
use busylib_go.Snapshot.Types.{SnapshotField, Section, Snapshot}
use busylib_go.Snapshot.Store.{
  Protobuf, present, slice_bytes, contains, section_equal, changed_from, proto_field_equal,
}
use busylib_go.Snapshot.Store.Equal.{
  is_yes, is_yes_iff, SnapshotField-discrete, Section-discrete, Bool-discrete, Error-discrete,
  Wifi-discrete, Bytes-discrete, Power-discrete, Brightness-discrete, Volume-discrete, Ble-discrete,
}
use busylib_go.Snapshot.Store.Writes.{section_of, Stored, field_of}

abbrev pub IsSameMessage :
    {M : Field → Type 0} {E : Type 0} (lib : Protobuf M) {f : Field}
    → SnapshotField E (Option (M f))
    → SnapshotField E (Option (M f))
    → Type 0
IsSameMessage lib b a =
    (b.present ≡ a.present)
    × (b.err ≡ a.err)
    × (slice_bytes b.raw ≡ slice_bytes a.raw)
    × (lib.equal b.value a.value ≡ true)

-- Equal as reflect.DeepEqual has it, and for protobuf messages as proto.Equal has it.
abbrev pub IsSame :
    {M : Field → Type 0} {E : Type 0} (lib : Protobuf M) (f : Field)
    → SnapshotField E (Stored M f)
    → SnapshotField E (Stored M f)
    → Type 0
IsSame lib field_device_name b a = b ≡ a
IsSame lib field_power b a = b ≡ a
IsSame lib field_brightness b a = b ≡ a
IsSame lib field_audio_volume b a = b ≡ a
IsSame lib field_wifi b a = b ≡ a
IsSame lib field_update_state b a = IsSameMessage lib b a
IsSame lib field_update_check b a = IsSameMessage lib b a
IsSame lib field_timezone b a = IsSameMessage lib b a
IsSame lib field_matter b a = IsSameMessage lib b a
IsSame lib field_frame b a = IsSameMessage lib b a
IsSame lib field_input b a = IsSameMessage lib b a
IsSame lib field_timer b a = IsSameMessage lib b a
IsSame lib field_ble b a = b ≡ a
IsSame lib field_auto_update_state b a = IsSameMessage lib b a
IsSame lib field_timer_profiles b a = IsSameMessage lib b a

pub proto_field_equal_iff :
    {M : Field → Type 0} {E : Type 0} (lib : Protobuf M) (err_discrete : Discrete E) {f : Field}
    (b a : SnapshotField E (Option (M f)))
    → (proto_field_equal lib err_discrete b a ≡ true) ↔ IsSameMessage lib b a
proto_field_equal_iff lib err_discrete b a = (
  λ h.
      let (present, rest) = &&-eq-true _ _ h in
      let (error, rest') = &&-eq-true _ _ rest in
      let (raw, value) = &&-eq-true _ _ rest' in
      (
        (is_yes_iff (Bool-discrete b.present a.present)).0 present,
        (is_yes_iff (Error-discrete err_discrete b.err a.err)).0 error,
        (bytes_eq_iff (slice_bytes b.raw) (slice_bytes a.raw)).0 raw,
        value,
      ),
  λ (present, error, raw, value).
      rw
        (
          (is_yes_iff (Bool-discrete b.present a.present)).1 present,
          (is_yes_iff (Error-discrete err_discrete b.err a.err)).1 error,
          (bytes_eq_iff (slice_bytes b.raw) (slice_bytes a.raw)).1 raw,
        )
        value,
)

keep_lem :
    (is keep_y keep_x rest before : Bool)
    → (is ≡ true → keep_y ≡ keep_x)
    → rest ≡ (before && keep_x)
    → (if keep_y then (if is then true else rest) else rest)
      ≡ ((if is then true else before) && keep_x)
keep_lem is keep_y keep_x rest before same e = ground arith

contains-if :
    (keep : Bool) (y x : Section) (rest : List Section)
    → contains (if keep then y ∷ rest else rest) x ≡ (
        if keep
        then (if is_yes (Section-discrete y x) then true else contains rest x)
        else contains rest x)
contains-if true y x rest = refl
contains-if false y x rest = refl

-- One round of the loop.
contains-keep :
    (y x : Section) (keep : Section → Bool) (rest : List Section) (before : Bool)
    → contains rest x ≡ (before && keep x)
    → contains (if keep y then y ∷ rest else rest) x
      ≡ ((if is_yes (Section-discrete y x) then true else before) && keep x)
contains-keep y x keep rest before e =
    contains-if (keep y) y x rest
    ∙ keep_lem (is_yes (Section-discrete y x)) (keep y) (keep x) (contains rest x) before
        (λ is. ap keep ((is_yes_iff (Section-discrete y x)).0 is)) e

module _ {M : Field → Type 0} {R : Section → Type 0} {E : Type 0} (lib : Protobuf M)
    (err_discrete : Discrete E) where
  pub section_equal_iff :
      (f : Field) (b a : Snapshot M R E)
      → (section_equal lib err_discrete (section_of f) b a ≡ true)
        ↔ IsSame lib f (field_of f b) (field_of f a)
  unfolding section_equal
  section_equal_iff field_device_name b a =
      is_yes_iff (SnapshotField-discrete err_discrete Bytes-discrete b.name a.name)
  section_equal_iff field_power b a =
      is_yes_iff (SnapshotField-discrete err_discrete Power-discrete b.power a.power)
  section_equal_iff field_brightness b a =
      is_yes_iff (SnapshotField-discrete err_discrete Brightness-discrete b.brightness a.brightness)
  section_equal_iff field_audio_volume b a =
      is_yes_iff (SnapshotField-discrete err_discrete Volume-discrete b.audio_volume a.audio_volume)
  section_equal_iff field_wifi b a =
      is_yes_iff (SnapshotField-discrete err_discrete Wifi-discrete b.wifi a.wifi)
  section_equal_iff field_update_state b a =
      proto_field_equal_iff lib err_discrete b.firmware_update a.firmware_update
  section_equal_iff field_update_check b a =
      proto_field_equal_iff lib err_discrete b.update_check a.update_check
  section_equal_iff field_timezone b a =
      proto_field_equal_iff lib err_discrete b.timezone a.timezone
  section_equal_iff field_matter b a = proto_field_equal_iff lib err_discrete b.matter a.matter
  section_equal_iff field_frame b a = proto_field_equal_iff lib err_discrete b.frame a.frame
  section_equal_iff field_input b a = proto_field_equal_iff lib err_discrete b.input a.input
  section_equal_iff field_timer b a = proto_field_equal_iff lib err_discrete b.timer a.timer
  section_equal_iff field_ble b a =
      is_yes_iff (SnapshotField-discrete err_discrete Ble-discrete b.ble a.ble)
  section_equal_iff field_auto_update_state b a =
      proto_field_equal_iff lib err_discrete b.auto_update a.auto_update
  section_equal_iff field_timer_profiles b a =
      proto_field_equal_iff lib err_discrete b.timer_profiles a.timer_profiles

  -- A section is reported when it is touched and not equal.
  pub changed_from-contains :
      (order touched : List Section) (b a : Snapshot M R E) (x : Section)
      → contains (changed_from lib err_discrete order b a touched) x
        ≡ (contains order x && (contains touched x && not (section_equal lib err_discrete x b a)))
  unfolding changed_from
  changed_from-contains [] touched b a x = refl
  changed_from-contains (y ∷ order) touched b a x =
      contains-keep y x (λ z. contains touched z && not (section_equal lib err_discrete z b a)) _
        (contains order x) (changed_from-contains order touched b a x)
