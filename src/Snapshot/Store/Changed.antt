-- ===== src/Snapshot/Store/Changed.antt =====
-- The sections that Apply reports.
use Prim.{Discrete}
use busylib_go.Prelude.{
  Bool, arith, true, not, ◌&&◌, &&-eq-true, List, [], ◌≡◌, ◌≢◌, ◌↔◌, inl, inr, sym, subst, ◌∙◌,
}
use busylib_go.Stream.Updates.{Field}
use busylib_go.Snapshot.Types.{Section, Snapshot}
use busylib_go.Snapshot.Store.{
  Protobuf, apply_from, apply_updates, contains, section_equal, changed_sections, clone_snapshot,
  stream_section_order,
}
use busylib_go.Snapshot.Store.Writes.{section_of, field_of}
use busylib_go.Snapshot.Store.Same.{IsSame, section_equal_iff, changed_from-contains}
use busylib_go.Snapshot.Store.Touched.{AnyWrites, order-section_of, in_order, touched_from}
use busylib_go.Snapshot.Store.Merged.{Batch}

three_true : (a b c : Bool) → ((a && (b && not c)) ≡ true) ↔ ((a ≡ true) × (b ≡ true) × (c ≢ true))
three_true a b c = ground arith

module _ {M : Field → Type 0} {R : Section → Type 0} {E : Type 0} (lib : Protobuf M)
    (err_discrete : Discrete E) where
  -- Of a touched field, whether it is reported.
  reported :
      (f : Field) (b a : Snapshot M R E) (t : List Section)
      → (contains (changed_sections lib err_discrete b a t) (section_of f) ≡ true)
        ↔ ((contains t (section_of f) ≡ true) × ¬ IsSame lib f (field_of f b) (field_of f a))
  reported f b a t =
      let whole =
        changed_from-contains lib err_discrete stream_section_order t b a (section_of f) in
      let three =
        three_true (contains stream_section_order (section_of f)) (contains t (section_of f))
          (section_equal lib err_discrete (section_of f) b a) in
      let same = section_equal_iff lib err_discrete f b a in
      (
        λ h. let (_, touched, other) = three.0 (sym whole ∙ h) in (touched, λ p. other (same.1 p)),
        λ (touched, other). whole ∙ three.1 (order-section_of f, touched, λ q. other (same.0 q)),
      )

  in_changed :
      (b a : Snapshot M R E) (t : List Section) (x : Section)
      → contains (changed_sections lib err_discrete b a t) x ≡ true
      → (f : Field) × (section_of f ≡ x)
  in_changed b a t x h =
      in_order x
        (&&-eq-true _ _
          (sym (changed_from-contains lib err_discrete stream_section_order t b a x) ∙ h)).0

  -- Apply reports a section just when it is that of a field for which some update of the batch has a
  -- value, and the stored snapshot holds there afterwards something else than the copy that was
  -- taken of it before. Protobuf messages are compared by proto.Equal and all else by its parts.
  pub apply_updates-sections :
      (updates : Batch M) (s : Snapshot M R E) (x : Section)
      → (contains (apply_updates lib err_discrete s updates).1.sections x ≡ true) ↔ (
          (f : Field) × (section_of f ≡ x)
          × AnyWrites M f updates
          × ¬ IsSame lib f
              (field_of f (clone_snapshot lib s))
              (field_of f ((apply_updates lib err_discrete s updates).0)))
  unfolding apply_updates
  apply_updates-sections updates s x =
      let merged = apply_from lib updates (s, []) in
      let b = clone_snapshot lib s in
      (
        λ h.
            let (f, e) = in_changed b merged.0 merged.1 x h in
            let h' =
              subst (λ z. contains (changed_sections lib err_discrete b merged.0 merged.1) z ≡ true)
                (sym e) h in
            let (touched, other) = (reported f b merged.0 merged.1).0 h' in
            elim ((touched_from lib f updates s []).0 touched) [
              | inl w ↦ (f, e, w, other)
              | inr bad ↦ absurd (cc bad)
            ],
        λ (f, e, w, other).
            subst (λ z. contains (changed_sections lib err_discrete b merged.0 merged.1) z ≡ true) e
              ((reported f b merged.0 merged.1).1
                ((touched_from lib f updates s []).1 (inl w), other)),
      )
