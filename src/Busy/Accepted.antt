-- ===== src/Busy/Accepted.antt =====
-- Which timer snapshots busy.go accepts.
use busylib_go.Prelude.{
  refuse_if_iff, Bool-cases, ◌≤◌, ◌≡◌, ◌↔◌, ◌⊎◌, inl, inr, refl, subst, Bool, true, false, Option,
  none, some, ok, err, Result, ◌>>◌, arith, ltb, if◌then◌else◌, length,
}
use busylib_go.Prelude.Int.{ℤ, pos}
use busylib_go.Prelude.Bytes.{Bytes, bytes_eq_sound, bytes, bytes_eq}
use busylib_go.Busy.{
  theme_long, field_time_left, type_unsupported, IntervalSettings, SnapshotData, BusySnapshot,
  BusyError, in_bar_settings, simple_max_ms, in_field, validate_bar_settings, validate_card_id,
  validate_infinite, validate_simple, validate_paused_interval, validate_data, validate_snapshot,
}
use busylib_go.Busy.Cards.{IsUuid, validate_card_id_iff}
use busylib_go.Busy.Ranges.{
  IsBetween, IsRunning, trans_iff, then_both, validate_duration_iff, in_field_iff,
  validate_running_iff,
}

-- What each type of snapshot needs.
abbrev pub IsPaused : SnapshotData → Type 0
IsPaused d = (paused : Bool) × (d.is_paused ≡ some paused)

abbrev pub IsSimple : SnapshotData → Type 0
IsSimple d =
    IsPaused d
    × ((left : ℤ) × ((d.time_left_ms ≡ some left) × IsBetween (pos 0) (pos 86400000) left))

abbrev pub AreTimed :
    Option Bool → Option ℤ → Option ℤ → Option ℤ → Option IntervalSettings → Type 0
AreTimed paused currents totals lefts settings =
    ((p : Bool) × (paused ≡ some p))
    × ((current : ℤ) × ((total : ℤ) × ((left : ℤ) × ((s : IntervalSettings) × ((currents
                  ≡ some current)
                × ((totals ≡ some total)
                    × ((lefts ≡ some left)
                        × ((settings ≡ some s) × IsRunning current total left s))))))))

abbrev pub IsTimed : SnapshotData → Type 0
IsTimed d =
    AreTimed d.is_paused d.current_interval d.current_interval_time_total_ms
      d.current_interval_time_left_ms d.interval_settings

abbrev pub IsData : SnapshotData → Type 0
IsData d =
    (d.snapshot_type ≡ bytes "NOT_STARTED")
    ⊎ (((d.snapshot_type ≡ bytes "INFINITE") × (IsUuid d.card_id × IsPaused d))
        ⊎ (((d.snapshot_type ≡ bytes "SIMPLE") × (IsUuid d.card_id × IsSimple d))
            ⊎ ((d.snapshot_type ≡ bytes "INTERVAL") × (IsUuid d.card_id × IsTimed d))))

validate_infinite_iff :
    (o : Option Bool) → (validate_infinite o ≡ ok tt) ↔ ((paused : Bool) × (o ≡ some paused))
validate_infinite_iff none = (λ h. cc, λ (p, h). cc)
validate_infinite_iff (some p) = (λ h. (p, refl), λ _. refl)

validate_simple_iff :
    (o : Option Bool) (t : Option ℤ)
    → (validate_simple o t ≡ ok tt) ↔ (
        ((paused : Bool) × (o ≡ some paused))
        × ((left : ℤ) × ((t ≡ some left) × IsBetween (pos 0) (pos 86400000) left)))
validate_simple_iff (some p) (some left) =
    let (there, back) =
      validate_duration_iff field_time_left left (pos 0) simple_max_ms (omega arith) in
    (
      λ h. ((p, refl), (left, (refl, there h))),
      λ (_, (l, (e, r))).
          let same : l ≡ left = cc in back (subst (IsBetween (pos 0) (pos 86400000)) same r),
    )
validate_simple_iff (some p) none = (λ h. cc, λ (_, (l, (e, r))). cc)
validate_simple_iff none t = (λ h. cc, λ ((p, e), _). cc)

one_run :
    {c c' t t' l l' : ℤ} {s s' : IntervalSettings}
    → ◌≡◌ {A = Option ℤ} (some c) (some c')
    → ◌≡◌ {A = Option ℤ} (some t) (some t')
    → ◌≡◌ {A = Option ℤ} (some l) (some l')
    → ◌≡◌ {A = Option IntervalSettings} (some s) (some s')
    → IsRunning c' t' l' s'
    → IsRunning c t l s
one_run {c = c} {c' = c'} {t = t} {t' = t'} {l = l} {l' = l'} {s = s} {s' = s'} e1 e2 e3 e4 r =
    let d1 : c ≡ c' = cc in
    let d2 : t ≡ t' = cc in let d3 : l ≡ l' = cc in let d4 : s ≡ s' = cc in rw (d1, d2, d3, d4) r

validate_paused_interval_iff :
    (paused : Option Bool) (currents totals lefts : Option ℤ) (settings : Option IntervalSettings)
    → (validate_paused_interval paused currents totals lefts settings ≡ ok tt)
      ↔ AreTimed paused currents totals lefts settings
validate_paused_interval_iff (some p) (some current) (some total) (some left) (some s) =
    let (there, back) = validate_running_iff current total left s in
    (
      λ h. ((p, refl), (current, (total, (left, (s, (refl, (refl, (refl, (refl, there h))))))))),
      λ (_, (c', (t', (l', (s', (e1, (e2, (e3, (e4, r))))))))). back (one_run e1 e2 e3 e4 r),
    )
validate_paused_interval_iff (some p) (some current) (some total) (some left) none =
    (λ h. cc, λ (_, (_, (_, (_, (_, (_, (_, (_, (e, _))))))))). cc)
validate_paused_interval_iff (some p) (some current) (some total) none settings =
    (λ h. cc, λ (_, (_, (_, (_, (_, (_, (_, (e, _)))))))). cc)
validate_paused_interval_iff (some p) (some current) none lefts settings =
    (λ h. cc, λ (_, (_, (_, (_, (_, (_, (e, _))))))). cc)
validate_paused_interval_iff (some p) none totals lefts settings =
    (λ h. cc, λ (_, (_, (_, (_, (_, (e, _)))))). cc)
validate_paused_interval_iff none currents totals lefts settings = (λ h. cc, λ ((_, e), _). cc)

if-taken : {A : Type 0} (b : Bool) (x y : A) {z : A} → b ≡ true → (if b then x else y) ≡ z → x ≡ z
if-taken true x y taken h = h
if-taken false x y taken h = cc

if-skipped :
    {A : Type 0} (b : Bool) (x y : A) {z : A} → b ≡ false → (if b then x else y) ≡ z → y ≡ z
if-skipped true x y skipped h = cc
if-skipped false x y skipped h = h

pub type_either :
    (t name : Bytes) {A B : Type 0} (x y : Result BusyError (Unit {0}))
    → (t ≡ name → x ≡ ok tt → A)
    → (y ≡ ok tt → B)
    → (if bytes_eq t name then x else y) ≡ ok tt
    → A ⊎ B
type_either t name x y f g h = elim (Bool-cases (bytes_eq t name)) [
  | inl same ↦ inl (f (bytes_eq_sound t name same) (if-taken (bytes_eq t name) x y same h))
  | inr other ↦ inr (g (if-skipped (bytes_eq t name) x y other h))
]

infinite_iff :
    (d : SnapshotData)
    → ((validate_card_id d.card_id >> validate_infinite d.is_paused) ≡ ok tt)
      ↔ (IsUuid d.card_id × IsPaused d)
infinite_iff d =
    then_both (validate_card_id d.card_id) (validate_infinite d.is_paused)
      (validate_card_id_iff d.card_id) (validate_infinite_iff d.is_paused)

fixed_iff :
    (d : SnapshotData)
    → ((validate_card_id d.card_id >> validate_simple d.is_paused d.time_left_ms) ≡ ok tt)
      ↔ (IsUuid d.card_id × IsSimple d)
fixed_iff d =
    then_both (validate_card_id d.card_id) (validate_simple d.is_paused d.time_left_ms)
      (validate_card_id_iff d.card_id) (validate_simple_iff d.is_paused d.time_left_ms)

abbrev timed : SnapshotData → Result BusyError (Unit {0})
timed d =
    validate_paused_interval d.is_paused d.current_interval d.current_interval_time_total_ms
      d.current_interval_time_left_ms d.interval_settings

timed_iff :
    (d : SnapshotData)
    → ((validate_card_id d.card_id >> timed d) ≡ ok tt) ↔ (IsUuid d.card_id × IsTimed d)
timed_iff d = then_both (validate_card_id d.card_id) (timed d) (validate_card_id_iff d.card_id) (
    validate_paused_interval_iff d.is_paused d.current_interval d.current_interval_time_total_ms
      d.current_interval_time_left_ms d.interval_settings)

err-not_ok : {e : BusyError} → ¬ (◌≡◌ {A = Result BusyError (Unit {0})} (err e) (ok tt))
err-not_ok h = cc

pub last_type :
    (t name : Bytes) {P : Type 0} (check : Result BusyError (Unit {0}))
    → (check ≡ ok tt → P)
    → (if bytes_eq t name then check else err type_unsupported) ≡ ok tt
    → (t ≡ name) × P
last_type t name check f h = elim (Bool-cases (bytes_eq t name)) [
  | inl same ↦ (
    bytes_eq_sound t name same,
    f (if-taken (bytes_eq t name) check (err type_unsupported) same h),
  )
  | inr other ↦
      absurd (err-not_ok (if-skipped (bytes_eq t name) check (err type_unsupported) other h))
]

validate_data-IsData : (d : SnapshotData) → validate_data d ≡ ok tt → IsData d
validate_data-IsData d h =
    type_either d.snapshot_type (bytes "NOT_STARTED") (ok tt) _ (λ e _. e)
      (type_either d.snapshot_type (bytes "INFINITE")
        (validate_card_id d.card_id >> validate_infinite d.is_paused) _
        (λ e passed. (e, (infinite_iff d).0 passed))
        (type_either d.snapshot_type (bytes "SIMPLE")
          (validate_card_id d.card_id >> validate_simple d.is_paused d.time_left_ms) _
          (λ e passed. (e, (fixed_iff d).0 passed))
          (last_type d.snapshot_type (bytes "INTERVAL") (validate_card_id d.card_id >> timed d)
            (timed_iff d).0)))
      h

IsData-validate_data : (d : SnapshotData) → IsData d → validate_data d ≡ ok tt
unfolding bytes_eq
IsData-validate_data d (inl e) = rw e refl
IsData-validate_data d (inr (inl (e, good))) = rw e ((infinite_iff d).1 good)
IsData-validate_data d (inr (inr (inl (e, good)))) = rw e ((fixed_iff d).1 good)
IsData-validate_data d (inr (inr (inr (e, good)))) = rw e ((timed_iff d).1 good)

-- A snapshot is accepted exactly if its theme has at most 64 bytes and it has what its type needs: none for
-- NOT_STARTED, a UUID and the pause for the others, a time left of at most a day for SIMPLE, and for
-- INTERVAL the settings and times of a running interval, with no more time left than the total and than
-- the duration of work or rest that its number is for.
pub validate_snapshot_iff :
    (s : BusySnapshot)
    → (validate_snapshot s ≡ ok tt)
      ↔ ((length s.snapshot.busy_bar_settings.theme ≤ 64) × IsData s.snapshot)
unfolding validate_snapshot
validate_snapshot_iff s =
    then_both (in_field in_bar_settings (validate_bar_settings s.snapshot.busy_bar_settings))
      (validate_data s.snapshot)
      (trans_iff (in_field_iff in_bar_settings (validate_bar_settings s.snapshot.busy_bar_settings))
        (trans_iff (refuse_if_iff (ltb 64 (length s.snapshot.busy_bar_settings.theme)) theme_long)
          (λ h. ground (arith, h), λ h. ground (arith, h))))
      (validate_data-IsData s.snapshot, IsData-validate_data s.snapshot)
