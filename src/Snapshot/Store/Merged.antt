-- ===== src/Snapshot/Store/Merged.antt =====
-- A batch of updates as the last update of each section.
use Prim.{Discrete, yes, no, tt}
use mathlib.Core.Option.{some-injective}
use busylib_go.Prelude.{
  All, List, [], ◌∷◌, ◌++◌, Option, none, some, ◌≡◌, ◌≢◌, ◌⊎◌, inl, inr, refl, sym, ap, subst, ◌∙◌,
}
use busylib_go.Stream.Updates.{
  Field, field_device_name, field_power, field_brightness, field_audio_volume, field_wifi,
  field_update_state, field_update_check, field_timezone, field_matter, field_frame, field_input,
  field_timer, field_ble, field_auto_update_state, field_timer_profiles, Update, device_name_update,
  power_update, brightness_update, audio_volume_update, wifi_update, firmware_update,
  update_check_update, timezone_update, matter_update, frame_update, input_update, timer_update,
  ble_update, auto_update_update, timer_profiles_update, unknown_update,
}
use busylib_go.Snapshot.Types.{SnapshotField, Section, Snapshot}
use busylib_go.Snapshot.Store.{Payload, Protobuf, present, apply, apply_from, apply_updates}
use busylib_go.Snapshot.Store.Writes.{
  Stored, update_of, written_field, Writes, Field-discrete, written_field-update_of, stored,
  field_of, apply-update_of, apply-nil, apply-other,
}

-- Each update is that of a field or of an unknown kind.
pub Update-cases :
    (M : Field → Type 0) (u : Update (λ g. Option (Payload M g)))
    → ((f : Field) × (o : Option (Payload M f)) × (u ≡ update_of M f o))
      ⊎ ((x : _) × (u ≡ unknown_update x))
Update-cases M (device_name_update o) = inl (field_device_name, o, refl)
Update-cases M (power_update o) = inl (field_power, o, refl)
Update-cases M (brightness_update o) = inl (field_brightness, o, refl)
Update-cases M (audio_volume_update o) = inl (field_audio_volume, o, refl)
Update-cases M (wifi_update o) = inl (field_wifi, o, refl)
Update-cases M (firmware_update o) = inl (field_update_state, o, refl)
Update-cases M (update_check_update o) = inl (field_update_check, o, refl)
Update-cases M (timezone_update o) = inl (field_timezone, o, refl)
Update-cases M (matter_update o) = inl (field_matter, o, refl)
Update-cases M (frame_update o) = inl (field_frame, o, refl)
Update-cases M (input_update o) = inl (field_input, o, refl)
Update-cases M (timer_update o) = inl (field_timer, o, refl)
Update-cases M (ble_update o) = inl (field_ble, o, refl)
Update-cases M (auto_update_update o) = inl (field_auto_update_state, o, refl)
Update-cases M (timer_profiles_update o) = inl (field_timer_profiles, o, refl)
Update-cases M (unknown_update x) = inr (x, refl)

abbrev pub Batch : (Field → Type 0) → Type 0
Batch M = List (Update (λ g. Option (Payload M g)))

-- Either no update of the batch has a value for the field, which stays as it was, or the last one
-- that has one decides.
abbrev pub IsMerged :
    {M : Field → Type 0} {E : Type 0} (lib : Protobuf M) (f : Field)
    → Batch M
    → SnapshotField E (Stored M f)
    → SnapshotField E (Stored M f)
    → Type 0
IsMerged {M} lib f updates before after =
    (All (λ u. ¬ Writes M f u) updates × (after ≡ before))
    ⊎ ((early late : Batch M) × (v : Payload M f) × (updates
          ≡ early ++ (update_of M f (some v) ∷ late))
        × All (λ u. ¬ Writes M f u) late
        × (after ≡ present (stored lib f v)))

pub same_field :
    (M : Field → Type 0) (f g : Field) (o : Option (Payload M g))
    → Writes M f (update_of M g o)
    → g ≡ f
same_field M f g o (v, e) = some-injective g f (
    sym (written_field-update_of M g o) ∙ ap written_field e ∙ written_field-update_of M f (some v))

-- A nil pointer is not a value.
pub nil_sets_nothing : (M : Field → Type 0) (f : Field) → ¬ Writes M f (update_of M f none)
nil_sets_nothing M field_device_name (v, e) = cc
nil_sets_nothing M _ (v, e) = cc

pub unknown_sets_nothing :
    (M : Field → Type 0) (f : Field) (x : _) → ¬ Writes M f (unknown_update x)
unknown_sets_nothing M f x (v, e) = cc (written_field-update_of M f (some v))

module _ {M : Field → Type 0} {E : Type 0} (lib : Protobuf M) (f : Field)
    (u : Update (λ g. Option (Payload M g))) (updates : Batch M)
    {before middle after : SnapshotField E (Stored M f)} where
  skipped-IsMerged :
      ¬ Writes M f u
      → middle ≡ before
      → IsMerged lib f updates middle after
      → IsMerged lib f (u ∷ updates) before after
  skipped-IsMerged other same (inl (nothing, kept)) = inl ((other, nothing), kept ∙ same)
  skipped-IsMerged other same (inr (early, late, v, split, last, new)) =
      inr (u ∷ early, late, v, ap (λ t. u ∷ t) split, last, new)

  written-IsMerged :
      (v : Payload M f)
      → u ≡ update_of M f (some v)
      → middle ≡ present (stored lib f v)
      → IsMerged lib f updates middle after
      → IsMerged lib f (u ∷ updates) before after
  written-IsMerged v this new (inl (nothing, kept)) =
      inr ([], updates, v, ap (λ t. t ∷ updates) this, nothing, kept ∙ new)
  written-IsMerged v this new (inr (early, late, w, split, last, newer)) =
      inr (u ∷ early, late, w, ap (λ t. u ∷ t) split, last, newer)

module _ {M : Field → Type 0} {R : Section → Type 0} {E : Type 0} (lib : Protobuf M) where
  -- What one update does to a field.
  abbrev pub IsStep :
      Field → Update (λ g. Option (Payload M g)) → Snapshot M R E → List Section → Type 0
  IsStep f u s t =
      (¬ Writes M f u × (field_of f ((apply lib u (s, t)).0) ≡ field_of f s))
      ⊎ ((v : Payload M f) × (u ≡ update_of M f (some v))
          × (field_of f ((apply lib u (s, t)).0) ≡ present (stored lib f v)))

  update_of-IsStep :
      (f g : Field) (o : Option (Payload M g)) (s : Snapshot M R E) (t : List Section)
      → IsStep f (update_of M g o) s t
  update_of-IsStep f g o s t = elim (Field-discrete g f) [
    | no other ↦ inl (λ w. other (same_field M f g o w), unwritten o other)
    | yes same ↦
        subst (λ h. (p : Option (Payload M h)) → IsStep f (update_of M h p) s t) (sym same) own o
  ]
    where
      own : (p : Option (Payload M f)) → IsStep f (update_of M f p) s t
      own none = inl (nil_sets_nothing M f, ap (λ z. field_of f (z.0)) (apply-nil lib f s t))
      own (some v) = inr (v, refl, apply-update_of lib f v s t)

      unwritten :
          (p : Option (Payload M g))
          → g ≢ f
          → field_of f ((apply lib (update_of M g p) (s, t)).0) ≡ field_of f s
      unwritten none n = ap (λ z. field_of f (z.0)) (apply-nil lib g s t)
      unwritten (some v) n = apply-other lib g f v s t n

  apply-IsStep :
      (f : Field) (u : Update (λ g. Option (Payload M g))) (s : Snapshot M R E) (t : List Section)
      → IsStep f u s t
  unfolding apply
  apply-IsStep f u s t = elim (Update-cases M u) [
    | inl (g, o, e) ↦ subst (λ z. IsStep f z s t) (sym e) (update_of-IsStep f g o s t)
    | inr (x, e) ↦ subst (λ z. IsStep f z s t) (sym e) (inl (unknown_sets_nothing M f x, refl))
  ]

  apply_from-IsMerged :
      (f : Field) (updates : Batch M) (s : Snapshot M R E) (t : List Section)
      → IsMerged lib f updates (field_of f s) (field_of f ((apply_from lib updates (s, t)).0))
  unfolding apply_from
  apply_from-IsMerged f [] s t = inl (tt, refl)
  apply_from-IsMerged f (u ∷ updates) s t =
      let next = apply lib u (s, t) in
      let rest = apply_from-IsMerged f updates (next.0) (next.1) in
      elim (apply-IsStep f u s t) [
        | inl (other, same) ↦ skipped-IsMerged lib f u updates other same rest
        | inr (v, this, new) ↦ written-IsMerged lib f u updates v this new rest
      ]

  -- Apply merges a batch section by section: the last update of the batch that has a value for the
  -- section decides what the stored snapshot holds there, present and without error or raw data,
  -- and a section for which no update has a value stays as it was.
  pub apply_updates-IsMerged :
      (err_discrete : Discrete E) (updates : Batch M) (s : Snapshot M R E) (f : Field)
      → IsMerged lib f updates
          (field_of f s)
          (field_of f ((apply_updates lib err_discrete s updates).0))
  unfolding apply_updates
  apply_updates-IsMerged err_discrete updates s f = apply_from-IsMerged f updates s []
