-- ===== src/Client/Version/Leaving.antt =====
-- Callers of APISemVer in version.go that leave, and every run of the steps.
use busylib_go.Prelude.{
  ℕ, ◌+◌, ◌-◌, ◌≡◌, refl, ap, subst, true, false, ◌&&◌, not, List, [], ◌∷◌, Option, none, some,
  arith, ltb, ◌==◌, one_if, either_one,
}
use busylib_go.Client.Version.{
  Versions, VersionOp, asks, fetched, wakes, stops, leaves, replaces, Answer, is_flight, write_at,
  pick_caller, new_versions, release_version_waiter, woken, stopped, left, version_step,
  version_steps,
}
use busylib_go.Client.Version.Shared.{
  occurs, pick_caller-occurs, equal-at, one_flight, count, Inv, new_versions-Inv,
  api_sem_ver_of-Inv, run_version_refresh-Inv,
}

module _ {E : Type 0} where
  -- A caller that leaves a refresh.
  module _ (h : ℕ) (v : Versions E) (others : List ℕ)
      (gone : (k : ℕ) → occurs k v.leaving ≡ one_if (h == k) + occurs k others) (i : Inv v) where
    abbrev without : Versions E
    without = record v { leaving = others }

    last-Inv :
        is_flight v.in_flight h ≡ true
        → v.waiters h == 1 ≡ true
        → Inv (record without {
          waiters = write_at h 0 v.waiters;
          in_flight = none;
          is_cancelled = write_at h true v.is_cancelled;
        })
    last-Inv current single = record {
      flying = λ g e. cc;
      alone = λ g below undone live.
          let old = i.alone g below undone in
          let one = one_flight v.in_flight h g current in ground (arith, live, old, one);
      served = λ g waits.
          let old = i.served g in
          let one = one_flight v.in_flight h g current in
          let f = i.flying h current in
          let less = gone g in
          let same = equal-at (count v) h g in
          ground (arith, waits, single, old, one, f, less, same);
      fresh = i.fresh;
    }

    one_less-Inv :
        is_flight v.in_flight h ≡ true
        → v.waiters h == 1 ≡ false
        → Inv (record without { waiters = write_at h (v.waiters h - 1) v.waiters })
    one_less-Inv current several = record {
      flying = λ g e.
          let f = i.flying g e in
          let one = one_flight v.in_flight h g current e in
          let same = ap v.waiters one in
          let less = gone g in ground (arith, several, f, one, same, less);
      alone = i.alone;
      served =
          λ g waits. let old = i.served g in let less = gone g in ground (arith, waits, old, less);
      fresh = i.fresh;
    }

    elsewhere-Inv : is_flight v.in_flight h ≡ false → Inv without
    elsewhere-Inv other = record {
      flying = λ g e.
          let f = i.flying g e in
          let less = gone g in
          let same = equal-at (is_flight v.in_flight) h g in
          ground (arith, other, e, f, less, same);
      alone = i.alone;
      served =
          λ g waits. let old = i.served g in let less = gone g in ground (arith, waits, old, less);
      fresh = i.fresh;
    }

    release_version_waiter-Inv : Inv (release_version_waiter h without)
    release_version_waiter-Inv =
        either_one Inv (is_flight v.in_flight h) _ _
          (λ current.
            either_one Inv (v.waiters h == 1) _ _ (last-Inv current) (one_less-Inv current))
          elsewhere-Inv

  -- What a step may give.
  abbrev IsKept : Option (Versions E × Answer E) → Type 0
  IsKept o = (v : Versions E) (a : Answer E) → o ≡ some (v, a) → Inv v

  some-IsKept : (v : Versions E) (a : Answer E) → Inv v → IsKept (some (v, a))
  some-IsKept v a i v' a' e = let same : v ≡ v' = cc in subst Inv same i

  fewer-Inv :
      (v : Versions E) (selecting leaving : List ℕ)
      → ((k : ℕ) → occurs k selecting + occurs k leaving ≡ count v k)
      → Inv v
      → Inv (record v { selecting = selecting; leaving = leaving })
  fewer-Inv v selecting leaving same i = record {
    flying = λ g e. let f = i.flying g e in let s = same g in ground (arith, f, s);
    alone = i.alone;
    served = λ g waits. let old = i.served g in let s = same g in ground (arith, waits, old, s);
    fresh = i.fresh;
  }

  -- A caller whose refresh is done goes.
  done-Inv :
      (v : Versions E) (h : ℕ) (others : List ℕ)
      → ((k : ℕ) → occurs k v.selecting ≡ one_if (h == k) + occurs k others)
      → v.is_done h ≡ true
      → Inv v
      → Inv (record v { selecting = others })
  done-Inv v h others gone finished i = record {
    flying = λ g e.
        let f = i.flying g e in
        let less = gone g in
        let same = equal-at v.is_done h g in ground (arith, finished, f, less, same);
    alone = i.alone;
    served =
        λ g waits. let old = i.served g in let less = gone g in ground (arith, waits, old, less);
    fresh = i.fresh;
  }

  woken-Inv :
      (v : Versions E) (o : Option (ℕ × List ℕ)) (i : ℕ)
      → pick_caller i v.selecting ≡ o
      → Inv v
      → IsKept (woken v o)
  woken-Inv v none i found inv = λ v' a e. cc
  woken-Inv v (some (h, others)) i found inv =
      either_one IsKept (v.is_done h) _ _
        (λ finished.
          some-IsKept _ _
            (done-Inv v h others (λ k. pick_caller-occurs k i v.selecting found) finished inv))
        (λ _ v' a e. cc)

  stopped-Inv :
      (v : Versions E) (o : Option (ℕ × List ℕ)) (i : ℕ)
      → pick_caller i v.selecting ≡ o
      → Inv v
      → IsKept (stopped v o)
  stopped-Inv v none i found inv = λ v' a e. cc
  stopped-Inv v (some (h, others)) i found inv = some-IsKept _ _ (
      fewer-Inv v others (h ∷ v.leaving)
        (λ k. let moved = pick_caller-occurs k i v.selecting found in omega (arith, moved)) inv)

  left-Inv :
      (v : Versions E) (e : E) (o : Option (ℕ × List ℕ)) (i : ℕ)
      → pick_caller i v.leaving ≡ o
      → Inv v
      → IsKept (left v e o)
  left-Inv v e none i found inv = λ v' a e. cc
  left-Inv v e (some (h, others)) i found inv =
      some-IsKept _ _
        (release_version_waiter-Inv h v others (λ k. pick_caller-occurs k i v.leaving found) inv)

  version_step-Inv : (op : VersionOp E) (v : Versions E) → Inv v → IsKept (version_step op v)
  unfolding version_step
  version_step-Inv asks v inv = some-IsKept _ _ (api_sem_ver_of-Inv v inv)
  version_step-Inv (fetched h fetch) v inv =
      either_one IsKept (ltb h v.next && not (v.is_done h)) _ _
        (λ able. some-IsKept _ _ (run_version_refresh-Inv h fetch v (ground (arith, able)) inv))
        (λ _ v' a e. cc)
  version_step-Inv (wakes i) v inv = woken-Inv v (pick_caller i v.selecting) i refl inv
  version_step-Inv (stops i) v inv = stopped-Inv v (pick_caller i v.selecting) i refl inv
  version_step-Inv (leaves i e) v inv = left-Inv v e (pick_caller i v.leaving) i refl inv
  version_step-Inv (replaces value) v inv =
      some-IsKept _ _
        (record { flying = inv.flying; alone = inv.alone; served = inv.served; fresh = inv.fresh })

  onward :
      (rest : Versions E → Option (Versions E)) (o : Option (Versions E × Answer E))
      (last : Versions E)
      → IsKept o
      → ((next : Versions E) → Inv next → rest next ≡ some last → Inv last)
      → (elim o [ none ↦ none | some (next, answer) ↦ rest next ]) ≡ some last
      → Inv last
  onward rest none last good further e = cc
  onward rest (some (next, a)) last good further e = further next (good next a refl) e

  version_steps-Inv :
      (ops : List (VersionOp E)) (v last : Versions E)
      → Inv v
      → version_steps ops v ≡ some last
      → Inv last
  unfolding version_steps
  version_steps-Inv [] v last inv e = let same : v ≡ last = cc in subst Inv same inv
  version_steps-Inv (op ∷ ops) v last inv e =
      onward (version_steps ops) (version_step op v) last (version_step-Inv op v inv)
        (λ next i. version_steps-Inv ops next last i) e

  -- In whatever order calls of APISemVer and RefreshAPISemVer, their cancellations and the ends of the
  -- fetches come: one refresh at most is neither done nor cancelled, and it is the one in flight, which
  -- counts its callers and has one; and every caller waits for a refresh that is in flight or done.
  pub version_steps-shared :
      (ops : List (VersionOp E)) (last : Versions E)
      → version_steps ops new_versions ≡ some last
      → Inv last
  version_steps-shared ops last e = version_steps-Inv ops new_versions last new_versions-Inv e
