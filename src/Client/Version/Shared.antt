-- ===== src/Client/Version/Shared.antt =====
-- Callers of APISemVer in version.go share one refresh, and none waits for one that was cancelled.
use busylib_go.Prelude.{
  ℕ, zero, suc, ◌+◌, ◌≤◌, ◌<◌, ◌≡◌, ==_iff, refl, ap, sym, Bool, true, false, ◌&&◌, ◌||◌, not, List,
  [], ◌∷◌, Option, none, some, Result, arith, ◌==◌, if◌then◌else◌, one_if, either_one,
}
use busylib_go.Usb.Command.{Text, is_empty}
use busylib_go.Client.Version.{
  VersionError, Versions, Answer, is_flight, kept_first, pick_caller, new_versions, join_refresh,
  api_sem_ver_of, run_version_refresh,
}

-- How often a refresh is waited for.
abbrev pub occurs : ℕ → List ℕ → ℕ
occurs h [] = 0
occurs h (g ∷ callers) = one_if (g == h) + occurs h callers

kept :
    (k g : ℕ) (callers : List ℕ) {h : ℕ} {others : List ℕ} (o : Option (ℕ × List ℕ))
    → ((h' : ℕ) (o' : List ℕ)
        → o ≡ some (h', o')
        → occurs k callers ≡ one_if (h' == k) + occurs k o')
    → kept_first g o ≡ some (h, others)
    → occurs k (g ∷ callers) ≡ one_if (h == k) + occurs k others
kept k g callers none ih e = cc
kept k g callers {h = h} {others = others} (some (h', o')) ih e =
    let same : occurs k callers ≡ one_if (h' == k) + occurs k o' = ih h' o' refl in
    let first : h' ≡ h = cc in
    let rest : g ∷ o' ≡ others = cc in rw (sym first, sym rest) (omega (arith, same))

pub pick_caller-occurs :
    (k i : ℕ) (callers : List ℕ) {h : ℕ} {others : List ℕ}
    → pick_caller i callers ≡ some (h, others)
    → occurs k callers ≡ one_if (h == k) + occurs k others
pick_caller-occurs k i [] h = cc
pick_caller-occurs k zero (g ∷ callers) {h = h} {others = others} e =
    let first : g ≡ h = cc in let rest : callers ≡ others = cc in rw (first, rest) refl
pick_caller-occurs k (suc i) (g ∷ callers) {h = h} {others = others} e =
    kept k g callers (pick_caller i callers)
      (λ h' o' e'. pick_caller-occurs k i callers {h = h'} {others = o'} e') e

pub equal-at : {A : Type 0} (f : ℕ → A) (g h : ℕ) → g == h ≡ true → f g ≡ f h
equal-at f g h e = ap f ((==_iff g h).0 e)

cleared :
    (current : Bool) (o : Option ℕ) (h : ℕ)
    → is_flight (if current then none else o) h ≡ not current && is_flight o h
cleared true o h = refl
cleared false o h = refl

pub one_flight : (o : Option ℕ) (g h : ℕ) → is_flight o g ≡ true → is_flight o h ≡ true → g ≡ h
one_flight none g h a b = cc
one_flight (some f) g h a b = ground (arith, a, b)

module _ {E : Type 0} where
  abbrev pub count : Versions E → ℕ → ℕ
  count v h = occurs h v.selecting + occurs h v.leaving

  -- The refresh in flight is neither done nor cancelled and counts its callers, one at least; no other
  -- refresh runs; and what a caller waits for is in flight or done.
  pub record Inv (v : Versions E) : Type 0 where
    pub flying :
        (h : ℕ)
        → is_flight v.in_flight h ≡ true
        → (v.is_done h ≡ false)
          × (v.is_cancelled h ≡ false)
          × (v.waiters h ≡ count v h)
          × (1 ≤ v.waiters h)
          × (h < v.next)
    pub alone :
        (h : ℕ)
        → h < v.next
        → v.is_done h ≡ false
        → v.is_cancelled h ≡ false
        → is_flight v.in_flight h ≡ true
    pub served : (h : ℕ) → 0 < count v h → (is_flight v.in_flight h || v.is_done h) ≡ true
    pub fresh : (h : ℕ) → v.next ≤ h → v.is_done h ≡ false

  pub new_versions-Inv : Inv (new_versions {E = E})
  new_versions-Inv = record {
    flying = λ h e. cc;
    alone = λ h below. absurd (omega arith);
    served = λ h waits. absurd (omega arith);
    fresh = λ h past. refl;
  }

  unmade-count : (v : Versions E) → v.in_flight ≡ none → Inv v → count v v.next ≡ 0
  unmade-count v now i =
      let served = i.served v.next in
      let undone = i.fresh v.next (omega arith) in
      let no = ap (λ o. is_flight o v.next) now in ground (arith, served, undone, no)

  join_refresh-Inv :
      (v : Versions E) (o : Option ℕ) → v.in_flight ≡ o → Inv v → Inv (join_refresh v o)
  join_refresh-Inv v (some g) now i = record {
    flying = λ h e.
        let f = i.flying h e in
        let at = ap (λ o. is_flight o h) now in
        let same = equal-at v.waiters g h in ground (arith, e, f, at, same);
    alone = i.alone;
    served = λ h waits.
        let at = ap (λ o. is_flight o h) now in
        let old = i.served h in ground (arith, waits, at, old);
    fresh = i.fresh;
  }
  join_refresh-Inv v none now i = record {
    flying = λ h e.
        let nobody = unmade-count v now i in
        let same : v.next == h ≡ true
            → occurs v.next v.selecting + occurs v.next v.leaving ≡ count v h =
          equal-at (count v) v.next h in
        ground (arith, e, nobody, same);
    alone = λ h below undone live.
        let old = i.alone h in
        let no = ap (λ o. is_flight o h) now in ground (arith, below, undone, live, old, no);
    served = λ h waits.
        let old = i.served h in
        let no = ap (λ o. is_flight o h) now in ground (arith, waits, old, no);
    fresh = λ h past. let old = i.fresh h in ground (arith, past, old);
  }

  pub api_sem_ver_of-Inv : (v : Versions E) → Inv v → Inv (api_sem_ver_of v).0
  api_sem_ver_of-Inv v i =
      either_one {A = Versions E × Answer E} (λ s. Inv s.0) (is_empty v.api_sem_ver) _ _
        (λ _. join_refresh-Inv v v.in_flight refl i) (λ _. i)

  pub run_version_refresh-Inv :
      (h : ℕ) (fetch : Result (VersionError E) Text) (v : Versions E)
      → h < v.next
      → Inv v
      → Inv (run_version_refresh h fetch v)
  run_version_refresh-Inv h fetch v made i = record {
    flying = λ g e.
        let open_before = cleared (is_flight v.in_flight h) v.in_flight g in
        let f = i.flying g in
        let same = equal-at (is_flight v.in_flight) h g in ground (arith, e, open_before, f, same);
    alone = λ g below undone live.
        let open_before = cleared (is_flight v.in_flight h) v.in_flight g in
        let old = i.alone g below in
        let one = one_flight v.in_flight h g in ground (arith, undone, live, open_before, old, one);
    served = λ g waits.
        let open_before = cleared (is_flight v.in_flight h) v.in_flight g in
        let old = i.served g waits in
        let one = one_flight v.in_flight h g in ground (arith, open_before, old, one);
    fresh = λ g past. let old = i.fresh g past in ground (arith, past, made, old);
  }
