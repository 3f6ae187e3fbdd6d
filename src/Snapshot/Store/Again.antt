-- ===== src/Snapshot/Store/Again.antt =====
-- Applying an update that was just applied.
use Prim.{Discrete, Dec, yes, no}
use busylib_go.Prelude.Int.{pos}
use busylib_go.Prelude.{
  Bool, true, false, not, if◌then◌else◌, List, [], ◌∷◌, Option, none, some, ◌≡◌, inl, inr, refl,
  sym, ap, subst, ◌∙◌,
}
use busylib_go.Stream.Updates.{
  Field, field_device_name, field_power, field_brightness, field_audio_volume, field_wifi,
  field_update_state, field_update_check, field_timezone, field_matter, field_frame, field_input,
  field_timer, field_ble, field_auto_update_state, field_timer_profiles, Update, wifi_update,
  unknown_update,
}
use busylib_go.Snapshot.Types.{Section, Snapshot, Wifi, IpAddress, section_name, section_wifi}
use busylib_go.Snapshot.Payloads.{
  without_addresses, power_from_proto, brightness_from_proto, ble_from_proto, addresses_of,
}
use busylib_go.Snapshot.Store.{
  Payload, Protobuf, present, apply, apply_from, apply_updates, section_equal, changed_from,
  changed_sections, clone_snapshot, proto_field_equal, clone_wifi,
}
use busylib_go.Snapshot.Store.Equal.{
  is_yes, is_yes_iff, field_equal, SnapshotField-discrete, Section-discrete, Wifi-discrete,
  Bytes-discrete, Power-discrete, Brightness-discrete, Volume-discrete, Ble-discrete,
}
use busylib_go.Snapshot.Store.Writes.{section_of, update_of, apply-touched}
use busylib_go.Snapshot.Store.Same.{proto_field_equal_iff}
use busylib_go.Snapshot.Store.Merged.{Update-cases}

-- A copy of the section's WiFi value, which the second update makes again, has a nil slice of addresses
-- where the value has an empty one.
abbrev pub repeated_wifi : List IpAddress → List Section
repeated_wifi [] = section_wifi ∷ []
repeated_wifi (_ ∷ _) = []

-- The sections that a batch of the one update reports, which was applied just before.
abbrev pub repeated_sections :
    (M : Field → Type 0) → Update (λ g. Option (Payload M g)) → List Section
repeated_sections M (wifi_update (some m)) = repeated_wifi (addresses_of m.ip_addresses)
repeated_sections M _ = []

abbrev is_empty : List IpAddress → Bool
is_empty [] = true
is_empty (_ ∷ _) = false

if_not : (b : Bool) (xs ys : List Section) → (if not b then xs else ys) ≡ (if b then ys else xs)
if_not true xs ys = refl
if_not false xs ys = refl

-- Whether the values that an update writes twice are found equal.
abbrev is_same_again : (M : Field → Type 0) (f : Field) → Payload M f → Bool
is_same_again M field_wifi m = not (is_empty (addresses_of m.ip_addresses))
is_same_again M _ _ = true

no_is_false : {P : Type 0} (d : Dec P) → ¬ P → is_yes d ≡ false
no_is_false (yes p) n = absurd (n p)
no_is_false (no _) n = refl

module _ {M : Field → Type 0} {R : Section → Type 0} {E : Type 0} (lib : Protobuf M)
    (err_discrete : Discrete E) where
  changed_none : (b a : Snapshot M R E) → changed_sections lib err_discrete b a [] ≡ []
  unfolding changed_from
  changed_none b a = refl

  changed_one :
      (f : Field) (b a : Snapshot M R E)
      → changed_sections lib err_discrete b a (section_of f ∷ [])
        ≡ (if section_equal lib err_discrete (section_of f) b a then [] else section_of f ∷ [])
  unfolding changed_from Section-discrete
  changed_one field_device_name b a =
      if_not (section_equal lib err_discrete section_name b a) (section_name ∷ []) []
  changed_one f b a =
      if_not (section_equal lib err_discrete (section_of f) b a) (section_of f ∷ []) []

module _ {M : Field → Type 0} {E : Type 0} (lib : Protobuf M) (err_discrete : Discrete E) where
  message_again :
      {f : Field}
      → ((m : M f) → lib.equal (some (lib.clone m)) (some m) ≡ true)
      → (m : M f)
      → proto_field_equal lib err_discrete (present {E = E} (some (lib.clone m))) (present (some m))
        ≡ true
  message_again law m =
      (proto_field_equal_iff lib err_discrete (present (some (lib.clone m))) (present (some m))).1
        (refl, refl, refl, law m)

  wifi_again :
      (value : Wifi) (addresses : List IpAddress)
      → field_equal err_discrete Wifi-discrete
          (present (clone_wifi (record value { ip_addresses = some addresses })))
          (present (record value { ip_addresses = some addresses }))
        ≡ not (is_empty addresses)
  wifi_again value [] =
      no_is_false
        (SnapshotField-discrete err_discrete Wifi-discrete
          (present (record value { ip_addresses = none }))
          (present (record value { ip_addresses = some [] })))
        (λ e. cc (ap (λ c. c.value.ip_addresses) e))
  wifi_again value (a ∷ addresses) =
      let kept = present (record value { ip_addresses = some (a ∷ addresses) }) in
      (is_yes_iff (SnapshotField-discrete err_discrete Wifi-discrete kept kept)).1 refl

repeated_lem :
    (addresses : List IpAddress)
    → (if not (is_empty addresses) then [] else section_wifi ∷ []) ≡ repeated_wifi addresses
repeated_lem [] = refl
repeated_lem (_ ∷ _) = refl

again_lem :
    (M : Field → Type 0) (f : Field) (v : Payload M f)
    → (if is_same_again M f v then [] else section_of f ∷ [])
      ≡ repeated_sections M (update_of M f (some v))
again_lem M field_device_name v = refl
again_lem M field_wifi v = repeated_lem (addresses_of v.ip_addresses)
again_lem M _ v = refl

module _ {M : Field → Type 0} {R : Section → Type 0} {E : Type 0} (lib : Protobuf M)
    (err_discrete : Discrete E)
    (law : (f : Field) (m : M f) → lib.equal (some (lib.clone m)) (some m) ≡ true) where
  abbrev written : (f : Field) → Payload M f → Snapshot M R E → Snapshot M R E
  written f v s = (apply lib (update_of M f (some v)) (s, [])).0

  same_again :
      (f : Field) (v : Payload M f) (s : Snapshot M R E)
      → section_equal lib err_discrete
          (section_of f)
          (clone_snapshot lib (written f v s))
          (written f v (written f v s))
        ≡ is_same_again M f v
  unfolding apply clone_snapshot section_equal
  same_again field_device_name v s =
      let kept = present (v.name) in
      (is_yes_iff (SnapshotField-discrete err_discrete Bytes-discrete kept kept)).1 refl
  same_again field_power v s =
      let kept = present (power_from_proto v) in
      (is_yes_iff (SnapshotField-discrete err_discrete Power-discrete kept kept)).1 refl
  same_again field_brightness v s =
      let kept = present (brightness_from_proto v) in
      (is_yes_iff (SnapshotField-discrete err_discrete Brightness-discrete kept kept)).1 refl
  same_again field_audio_volume v s =
      let kept = present (pos v.volume) in
      (is_yes_iff (SnapshotField-discrete err_discrete Volume-discrete kept kept)).1 refl
  same_again field_wifi v s =
      wifi_again lib err_discrete (without_addresses v.wifi_state) (addresses_of v.ip_addresses)
  same_again field_update_state v s =
      message_again lib err_discrete (law field_update_state) (lib.clone v)
  same_again field_update_check v s =
      message_again lib err_discrete (law field_update_check) (lib.clone v)
  same_again field_timezone v s = message_again lib err_discrete (law field_timezone) (lib.clone v)
  same_again field_matter v s = message_again lib err_discrete (law field_matter) (lib.clone v)
  same_again field_frame v s = message_again lib err_discrete (law field_frame) (lib.clone v)
  same_again field_input v s = message_again lib err_discrete (law field_input) (lib.clone v)
  same_again field_timer v s = message_again lib err_discrete (law field_timer) (lib.clone v)
  same_again field_ble v s =
      let kept = present (ble_from_proto v) in
      (is_yes_iff (SnapshotField-discrete err_discrete Ble-discrete kept kept)).1 refl
  same_again field_auto_update_state v s =
      message_again lib err_discrete (law field_auto_update_state) (lib.clone v)
  same_again field_timer_profiles v s =
      message_again lib err_discrete (law field_timer_profiles) (lib.clone v)

  value_again :
      (f : Field) (v : Payload M f) (s : Snapshot M R E)
      → changed_sections lib err_discrete
          (clone_snapshot lib (written f v s))
          (written f v (written f v s))
          ((apply lib (update_of M f (some v)) (written f v s, [])).1)
        ≡ repeated_sections M (update_of M f (some v))
  value_again f v s =
      let b = clone_snapshot lib (written f v s) in
      let a = written f v (written f v s) in
      ap (changed_sections lib err_discrete b a) (apply-touched lib f v (written f v s) [])
      ∙ changed_one lib err_discrete f b a
      ∙ ap (λ same. if same then [] else section_of f ∷ []) (same_again f v s)
      ∙ again_lem M f v

  abbrev IsAgain : Update (λ g. Option (Payload M g)) → Snapshot M R E → Type 0
  IsAgain u s =
      (apply_updates lib err_discrete ((apply_updates lib err_discrete s (u ∷ [])).0)
        (u ∷ [])).1.sections
      ≡ repeated_sections M u

  unknown-IsAgain : (x : _) (s : Snapshot M R E) → IsAgain (unknown_update x) s
  unfolding apply_updates apply_from apply changed_from
  unknown-IsAgain x s = refl

  nil-IsAgain : (f : Field) (s : Snapshot M R E) → IsAgain (update_of M f none) s
  unfolding apply_updates apply_from apply changed_from
  nil-IsAgain field_device_name s = refl
  nil-IsAgain _ s = refl

  -- Apply reports nothing for an update that was applied just before, for any stored snapshot, if
  -- proto.Equal finds a clone equal to its message. The one exception is a WiFi update without
  -- addresses (all of its address pointers being nil, or none there): the WiFi section is reported
  -- again.
  pub apply_updates-again :
      (u : Update (λ g. Option (Payload M g))) (s : Snapshot M R E)
      → (apply_updates lib err_discrete
          ((apply_updates lib err_discrete s (u ∷ [])).0)
          (u ∷ [])).1.sections
        ≡ repeated_sections M u
  unfolding apply_updates apply_from
  apply_updates-again u s = elim (Update-cases M u) [
    | inr (x, e) ↦ subst (λ z. IsAgain z s) (sym e) (unknown-IsAgain x s)
    | inl (f, none, e) ↦ subst (λ z. IsAgain z s) (sym e) (nil-IsAgain f s)
    | inl (f, some v, e) ↦ subst (λ z. IsAgain z s) (sym e) (value_again f v s)
  ]
