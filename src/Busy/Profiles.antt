-- ===== src/Busy/Profiles.antt =====
-- Which timer profiles busy.go accepts.
use busylib_go.Prelude.{
  ◌-◌, ◌^◌, ◌≤◌, ◌≡◌, ◌↔◌, ◌⊎◌, inl, inr, refl, subst, Bool, ◌||◌, Option, none, some, ok, arith,
  ltb, length, refuse_if_iff,
}
use busylib_go.Prelude.Int.{ℤ, pos, negsuc, ltb_ℤ}
use busylib_go.Prelude.Bytes.{bytes, bytes_eq}
use busylib_go.Busy.{
  field_total_time, in_timer_settings, sort_order_range, title_long, theme_long, TimerSettings,
  BusyProfile, simple_max_ms, in_field, validate_simple_timer, validate_interval_timer,
  validate_timer_settings, validate_card_id, validate_bar_settings, validate_profile,
}
use busylib_go.Busy.Cards.{IsUuid, validate_card_id_iff}
use busylib_go.Busy.Ranges.{
  IsBetween, IsInterval, trans_iff, then_both, validate_duration_iff, validate_interval_iff,
  in_field_iff,
}
use busylib_go.Busy.Accepted.{type_either, last_type}

-- An interval timer has all of its settings, within their ranges.
abbrev pub AreIntervals : Option ℤ → Option ℤ → Option ℤ → Option Bool → Type 0
AreIntervals works rests cycles autostarts =
    (work : ℤ) × ((rest : ℤ) × ((count : ℤ) × ((autostart : Bool) × ((works ≡ some work)
            × ((rests ≡ some rest)
                × ((cycles ≡ some count)
                    × ((autostarts ≡ some autostart) × IsInterval work rest count)))))))

abbrev pub IsTimer : TimerSettings → Type 0
IsTimer t =
    (t.timer_type ≡ bytes "INFINITE")
    ⊎ (((t.timer_type ≡ bytes "SIMPLE")
          × ((total : ℤ) × ((t.total_time_ms ≡ some total)
                × IsBetween (pos 0) (pos 86400000) total)))
        ⊎ ((t.timer_type ≡ bytes "INTERVAL")
            × AreIntervals t.interval_work_ms t.interval_rest_ms t.interval_work_cycles_count
                t.is_autostart_enabled))

validate_simple_timer_iff :
    (o : Option ℤ)
    → (validate_simple_timer o ≡ ok tt)
      ↔ ((total : ℤ) × ((o ≡ some total) × IsBetween (pos 0) (pos 86400000) total))
validate_simple_timer_iff none = (λ h. cc, λ (_, (e, _)). cc)
validate_simple_timer_iff (some total) =
    let (there, back) =
      validate_duration_iff field_total_time total (pos 0) simple_max_ms (omega arith) in
    (
      λ h. (total, (refl, there h)),
      λ (t, (e, r)).
          let same : t ≡ total = cc in back (subst (IsBetween (pos 0) (pos 86400000)) same r),
    )

validate_interval_timer_iff :
    (works rests cycles : Option ℤ) (autostarts : Option Bool)
    → (validate_interval_timer works rests cycles autostarts ≡ ok tt)
      ↔ AreIntervals works rests cycles autostarts
validate_interval_timer_iff (some work) (some rest) (some count) (some autostart) =
    let (there, back) = validate_interval_iff work rest count in
    (
      λ h. (work, (rest, (count, (autostart, (refl, (refl, (refl, (refl, there h)))))))),
      λ (w, (r, (c, (a, (e1, (e2, (e3, (e4, good)))))))).
          let d1 : work ≡ w = cc in
          let d2 : rest ≡ r = cc in let d3 : count ≡ c = cc in back (rw (d1, d2, d3) good),
    )
validate_interval_timer_iff (some work) (some rest) (some count) none =
    (λ h. cc, λ (_, (_, (_, (_, (_, (_, (_, (e, _)))))))). cc)
validate_interval_timer_iff (some work) (some rest) none autostarts =
    (λ h. cc, λ (_, (_, (_, (_, (_, (_, (e, _))))))). cc)
validate_interval_timer_iff (some work) none cycles autostarts =
    (λ h. cc, λ (_, (_, (_, (_, (_, (e, _)))))). cc)
validate_interval_timer_iff none rests cycles autostarts =
    (λ h. cc, λ (_, (_, (_, (_, (e, _))))). cc)

validate_timer_settings-IsTimer :
    (t : TimerSettings) → validate_timer_settings t ≡ ok tt → IsTimer t
unfolding validate_timer_settings
validate_timer_settings-IsTimer t h =
    type_either t.timer_type (bytes "INFINITE") (ok tt) _ (λ e _. e)
      (type_either t.timer_type (bytes "SIMPLE") (validate_simple_timer t.total_time_ms) _
        (λ e passed. (e, (validate_simple_timer_iff t.total_time_ms).0 passed))
        (last_type t.timer_type (bytes "INTERVAL")
          (validate_interval_timer t.interval_work_ms t.interval_rest_ms
            t.interval_work_cycles_count t.is_autostart_enabled)
          (validate_interval_timer_iff t.interval_work_ms t.interval_rest_ms
            t.interval_work_cycles_count t.is_autostart_enabled).0))
      h

IsTimer-validate_timer_settings :
    (t : TimerSettings) → IsTimer t → validate_timer_settings t ≡ ok tt
unfolding validate_timer_settings bytes_eq
IsTimer-validate_timer_settings t (inl e) = rw e refl
IsTimer-validate_timer_settings t (inr (inl (e, good))) =
    rw e ((validate_simple_timer_iff t.total_time_ms).1 good)
IsTimer-validate_timer_settings t (inr (inr (e, good))) = rw e (
    (validate_interval_timer_iff t.interval_work_ms t.interval_rest_ms t.interval_work_cycles_count
        t.is_autostart_enabled).1
      good)

-- A profile is accepted exactly if its order fits 32 bits with sign, its title has at most 128 bytes, its
-- identifier is a UUID, its timer has what its type needs within the ranges, and its theme at most 64 bytes.
pub validate_profile_iff :
    (p : BusyProfile)
    → (validate_profile p ≡ ok tt) ↔ (
        IsBetween (negsuc (2 ^ 31 - 1)) (pos (2 ^ 31 - 1)) p.sort_order
        × ((length p.title ≤ 128)
            × (IsUuid p.id × (IsTimer p.timer_settings × (length p.busy_bar_settings.theme ≤ 64)))))
unfolding validate_profile
validate_profile_iff p =
    then_both _ _
      (trans_iff
        (refuse_if_iff
          (ltb_ℤ p.sort_order (negsuc (2 ^ 31 - 1)) || ltb_ℤ (pos (2 ^ 31 - 1)) p.sort_order)
          sort_order_range)
        (
          λ h. (ground (arith, h), ground (arith, h)),
          λ (above, below). ground (arith, above, below),
        ))
      (then_both _ _
        (trans_iff (refuse_if_iff (ltb 128 (length p.title)) title_long)
          (λ h. ground (arith, h), λ h. ground (arith, h)))
        (then_both (validate_card_id p.id) _ (validate_card_id_iff p.id) (
          then_both (in_field in_timer_settings (validate_timer_settings p.timer_settings))
            (validate_bar_settings p.busy_bar_settings)
            (trans_iff (in_field_iff in_timer_settings (validate_timer_settings p.timer_settings)) (
              validate_timer_settings-IsTimer p.timer_settings,
              IsTimer-validate_timer_settings p.timer_settings,
            ))
            (trans_iff (refuse_if_iff (ltb 64 (length p.busy_bar_settings.theme)) theme_long)
              (λ h. ground (arith, h), λ h. ground (arith, h))))))
