-- ===== src/Snapshot/Store/Touched.antt =====
-- The sections that a batch touches.
use busylib_go.Prelude.{
  Bool, arith, true, if◌then◌else◌, List, [], ◌∷◌, Option, none, some, ◌≡◌, ◌⊎◌, ◌↔◌, inl, inr,
  refl, sym, ap, subst,
}
use busylib_go.Stream.Updates.{
  Field, field_device_name, field_power, field_brightness, field_audio_volume, field_wifi,
  field_update_state, field_update_check, field_timezone, field_matter, field_frame, field_input,
  field_timer, field_ble, field_auto_update_state, field_timer_profiles, Update, unknown_update,
}
use busylib_go.Snapshot.Types.{
  Section, Snapshot, section_name, section_version, section_status, section_system, section_power,
  section_time, section_wifi, section_brightness, section_audio_volume, section_ble,
  section_storage, section_firmware_update, section_update_check, section_timezone, section_matter,
  section_frame, section_input, section_timer, section_auto_update, section_timer_profiles,
}
use busylib_go.Snapshot.Store.{Payload, Protobuf, apply, apply_from, contains, stream_section_order}
use busylib_go.Snapshot.Store.Equal.{is_yes, is_yes_iff, Section-discrete}
use busylib_go.Snapshot.Store.Writes.{section_of, update_of, Writes, apply-touched, apply-nil}
use busylib_go.Snapshot.Store.Merged.{
  Update-cases, Batch, same_field, nil_sets_nothing, unknown_sets_nothing,
}

abbrev pub AnyWrites : (M : Field → Type 0) → Field → Batch M → Type 0
AnyWrites M f [] = ⊥
AnyWrites M f (u ∷ updates) = Writes M f u ⊎ AnyWrites M f updates

pub order-section_of : (f : Field) → contains stream_section_order (section_of f) ≡ true
unfolding Section-discrete
order-section_of field_device_name = refl
order-section_of _ = refl

pub in_order :
    (x : Section) → contains stream_section_order x ≡ true → (f : Field) × (section_of f ≡ x)
unfolding Section-discrete
in_order section_name h = (field_device_name, refl)
in_order section_version h = cc
in_order section_status h = cc
in_order section_system h = cc
in_order section_power h = (field_power, refl)
in_order section_time h = cc
in_order section_wifi h = (field_wifi, refl)
in_order section_brightness h = (field_brightness, refl)
in_order section_audio_volume h = (field_audio_volume, refl)
in_order section_ble h = (field_ble, refl)
in_order section_storage h = cc
in_order section_firmware_update h = (field_update_state, refl)
in_order section_update_check h = (field_update_check, refl)
in_order section_timezone h = (field_timezone, refl)
in_order section_matter h = (field_matter, refl)
in_order section_frame h = (field_frame, refl)
in_order section_input h = (field_input, refl)
in_order section_timer h = (field_timer, refl)
in_order section_auto_update h = (field_auto_update_state, refl)
in_order section_timer_profiles h = (field_timer_profiles, refl)

pub section_of-injective : (f g : Field) → section_of f ≡ section_of g → f ≡ g
section_of-injective field_device_name field_device_name e = refl
section_of-injective f g e = ground arith

either : (b c : Bool) → ((if b then true else c) ≡ true) ↔ ((b ≡ true) ⊎ (c ≡ true))
either b c = ground arith

nil_update : (M : Field → Type 0) (f g : Field) → ¬ Writes M f (update_of M g none)
nil_update M f g (v, e) =
    let same = same_field M f g none (v, e) in
    nil_sets_nothing M f (v, subst (λ z. update_of M z none ≡ update_of M f (some v)) same e)

module _ {M : Field → Type 0} {R : Section → Type 0} {E : Type 0} (lib : Protobuf M) where
  abbrev TouchedBy :
      Field → Update (λ g. Option (Payload M g)) → Snapshot M R E → List Section → Type 0
  TouchedBy f u s t =
      (contains ((apply lib u (s, t)).1) (section_of f) ≡ true)
      ↔ (Writes M f u ⊎ (contains t (section_of f) ≡ true))

  unknown-touched :
      (x : _) (s : Snapshot M R E) (t : List Section) → (apply lib (unknown_update x) (s, t)).1 ≡ t
  unfolding apply
  unknown-touched x s t = refl

  untouched :
      (f : Field) (u : Update (λ g. Option (Payload M g))) (s : Snapshot M R E) (t : List Section)
      → ¬ Writes M f u
      → (apply lib u (s, t)).1 ≡ t
      → TouchedBy f u s t
  untouched f u s t nothing same = (
    λ h. inr (subst (λ z. contains z (section_of f) ≡ true) same h),
    λ h. elim h [
      | inl w ↦ absurd (nothing w)
      | inr old ↦ subst (λ z. contains z (section_of f) ≡ true) (sym same) old
    ],
  )

  touched :
      (f g : Field) (v : Payload M g) (s : Snapshot M R E) (t : List Section)
      → TouchedBy f (update_of M g (some v)) s t
  touched f g v s t =
      let same = Section-discrete (section_of g) (section_of f) in
      let two = either (is_yes same) (contains t (section_of f)) in
      subst
        (λ z.
          (contains z (section_of f) ≡ true)
          ↔ (Writes M f (update_of M g (some v)) ⊎ (contains t (section_of f) ≡ true)))
        (sym (apply-touched lib g v s t))
        (
          λ h. elim (two.0 h) [
            | inl y ↦ inl (
                subst (λ z. Writes M z (update_of M g (some v)))
                  (section_of-injective g f ((is_yes_iff same).0 y)) (v, refl))
            | inr old ↦ inr old
          ],
          λ h. elim h [
            | inl w ↦
                two.1 (inl ((is_yes_iff same).1 (ap section_of (same_field M f g (some v) w))))
            | inr old ↦ two.1 (inr old)
          ],
        )

  touched_by :
      (f : Field) (u : Update (λ g. Option (Payload M g))) (s : Snapshot M R E) (t : List Section)
      → TouchedBy f u s t
  touched_by f u s t = elim (Update-cases M u) [
    | inr (x, e) ↦
        subst (λ z. TouchedBy f z s t) (sym e)
          (untouched f (unknown_update x) s t (unknown_sets_nothing M f x) (unknown-touched x s t))
    | inl (g, none, e) ↦
        subst (λ z. TouchedBy f z s t) (sym e)
          (untouched f (update_of M g none) s t (nil_update M f g)
            (ap (λ z. z.1) (apply-nil lib g s t)))
    | inl (g, some v, e) ↦ subst (λ z. TouchedBy f z s t) (sym e) (touched f g v s t)
  ]

  pub touched_from :
      (f : Field) (updates : Batch M) (s : Snapshot M R E) (t : List Section)
      → (contains ((apply_from lib updates (s, t)).1) (section_of f) ≡ true)
        ↔ (AnyWrites M f updates ⊎ (contains t (section_of f) ≡ true))
  unfolding apply_from
  touched_from f [] s t = (inr, λ m. elim m [ inl n ↦ absurd n | inr h ↦ h ])
  touched_from f (u ∷ updates) s t =
      let next = apply lib u (s, t) in
      let ih = touched_from f updates (next.0) (next.1) in
      let this = touched_by f u s t in
      (
        λ h. elim (ih.0 h) [
          | inl later ↦ inl (inr later)
          | inr now ↦ elim (this.0 now) [ inl w ↦ inl (inl w) | inr old ↦ inr old ]
        ],
        λ h. elim h [
          | inl (inl w) ↦ ih.1 (inr (this.1 (inl w)))
          | inl (inr later) ↦ ih.1 (inl later)
          | inr old ↦ ih.1 (inr (this.1 (inr old)))
        ],
      )
