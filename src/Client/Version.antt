-- ===== src/Client/Version.antt =====
-- version.go: the API version, and how callers share the refresh that fetches it. Every critical section
-- of versionMu is a step, and so is the choice of a select. Refreshes are numbered by their making, and
-- the fields of versionRefresh are maps from these numbers. The cancel that releases the context of a
-- fetch that has ended is left out.
pub mod Shared
pub mod Leaving
use busylib_go.Prelude.{
  ℕ, zero, suc, ◌+◌, ◌-◌, Bool, true, false, ◌&&◌, not, List, [], ◌∷◌, Option, none, some, Result,
  ok, err, ltb, ◌==◌, if◌then◌else◌,
}
use busylib_go.Prelude.Bytes.{Bytes}
use busylib_go.Usb.Command.{Text, is_empty}
use busylib_go.Client.Execute.{Response}

pub data VersionError (E : Type 0) : Type 0 where
  missing_version : VersionError E
  context_done fetch_failed : E → VersionError E

-- fetchAPISemVer, on what Do gave; `decode` is DecodeJSON into versionInfo.
unfoldable pub fetch_api_sem_ver :
    {E : Type 0} → (Bytes → Result E Text) → Result E Response → Result (VersionError E) Text
fetch_api_sem_ver decode (err e) = err (fetch_failed e)
fetch_api_sem_ver decode (ok r) = elim (decode r.body) [
  | err e ↦ err (fetch_failed e)
  | ok version ↦ if is_empty version then err missing_version else ok version
]

-- The version's part of Client. `selecting` and `leaving` hold the refresh of every caller that waits in
-- waitForVersionRefresh: in its select, and behind the end of its context.
pub record Versions (E : Type 0) : Type 0 where
  pub api_sem_ver : Text
  pub in_flight : Option ℕ
  pub waiters : ℕ → ℕ
  pub is_done : ℕ → Bool
  pub outcome : ℕ → Result (VersionError E) Text
  pub is_cancelled : ℕ → Bool
  pub next : ℕ
  pub selecting : List ℕ
  pub leaving : List ℕ

-- `asks` is a call of APISemVer, `fetched` the end of a refresh's fetch, `wakes` and `stops` the choices of
-- the select, `leaves` releaseVersionWaiter, and `replaces` the end of RefreshAPISemVer.
pub data VersionOp (E : Type 0) : Type 0 where
  asks : VersionOp E
  fetched : ℕ → Result (VersionError E) Text → VersionOp E
  wakes stops : ℕ → VersionOp E
  leaves : ℕ → E → VersionOp E
  replaces : Text → VersionOp E

abbrev pub Answer : Type 0 → Type 0
Answer E = Option (Result (VersionError E) Text)

abbrev pub is_flight : Option ℕ → ℕ → Bool
is_flight none h = false
is_flight (some g) h = g == h

abbrev pub write_at : {A : Type 0} → ℕ → A → (ℕ → A) → ℕ → A
write_at h a f g = if h == g then a else f g

-- The i-th caller's refresh, and those of the others.
abbrev pub kept_first : ℕ → Option (ℕ × List ℕ) → Option (ℕ × List ℕ)
kept_first h none = none
kept_first h (some (g, others)) = some (g, h ∷ others)

abbrev pub pick_caller : ℕ → List ℕ → Option (ℕ × List ℕ)
pick_caller i [] = none
pick_caller zero (h ∷ callers) = some (h, callers)
pick_caller (suc i) (h ∷ callers) = kept_first h (pick_caller i callers)

module _ {E : Type 0} where
  abbrev pub new_versions : Versions E
  new_versions = record {
    api_sem_ver = [];
    in_flight = none;
    waiters = λ _. 0;
    is_done = λ _. false;
    outcome = λ _. ok [];
    is_cancelled = λ _. false;
    next = 0;
    selecting = [];
    leaving = [];
  }

  abbrev pub join_refresh : Versions E → Option ℕ → Versions E
  join_refresh v (some h) = record v {
    waiters = write_at h (suc (v.waiters h)) v.waiters;
    selecting = h ∷ v.selecting;
  }
  join_refresh v none = record v {
    in_flight = some v.next;
    waiters = write_at v.next 1 v.waiters;
    is_done = write_at v.next false v.is_done;
    is_cancelled = write_at v.next false v.is_cancelled;
    next = suc v.next;
    selecting = v.next ∷ v.selecting;
  }

  abbrev pub api_sem_ver_of : Versions E → Versions E × Answer E
  api_sem_ver_of v =
      if is_empty v.api_sem_ver
      then (join_refresh v v.in_flight, none)
      else (v, some (ok v.api_sem_ver))

  abbrev pub value_of : Text → Result (VersionError E) Text → Text
  value_of old (err e) = old
  value_of old (ok value) = value

  abbrev pub run_version_refresh : ℕ → Result (VersionError E) Text → Versions E → Versions E
  run_version_refresh h fetch v =
      let current = is_flight v.in_flight h in
      record v {
        api_sem_ver = if current then value_of v.api_sem_ver fetch else v.api_sem_ver;
        in_flight = if current then none else v.in_flight;
        is_done = write_at h true v.is_done;
        outcome = write_at h fetch v.outcome;
      }

  -- The number of waiters is one at least where a caller leaves.
  abbrev pub release_version_waiter : ℕ → Versions E → Versions E
  release_version_waiter h v =
      if is_flight v.in_flight h
      then (if v.waiters h == 1
          then record v {
            waiters = write_at h 0 v.waiters;
            in_flight = none;
            is_cancelled = write_at h true v.is_cancelled;
          }
          else record v { waiters = write_at h (v.waiters h - 1) v.waiters })
      else v

  abbrev pub woken : Versions E → Option (ℕ × List ℕ) → Option (Versions E × Answer E)
  woken v none = none
  woken v (some (h, others)) =
      if v.is_done h then some (record v { selecting = others }, some (v.outcome h)) else none

  abbrev pub stopped : Versions E → Option (ℕ × List ℕ) → Option (Versions E × Answer E)
  stopped v none = none
  stopped v (some (h, others)) =
      some (record v { selecting = others; leaving = h ∷ v.leaving }, none)

  abbrev pub left : Versions E → E → Option (ℕ × List ℕ) → Option (Versions E × Answer E)
  left v e none = none
  left v e (some (h, others)) =
      some (release_version_waiter h (record v { leaving = others }), some (err (context_done e)))

  -- A step that cannot happen is none: a refresh that was not made or whose fetch has ended, a caller that
  -- does not wait, or one whose refresh is not done.
  unfoldable pub version_step : VersionOp E → Versions E → Option (Versions E × Answer E)
  version_step asks v = some (api_sem_ver_of v)
  version_step (fetched h fetch) v =
      if ltb h v.next && not (v.is_done h) then some (run_version_refresh h fetch v, none) else none
  version_step (wakes i) v = woken v (pick_caller i v.selecting)
  version_step (stops i) v = stopped v (pick_caller i v.selecting)
  version_step (leaves i e) v = left v e (pick_caller i v.leaving)
  version_step (replaces value) v = some (record v { api_sem_ver = value }, some (ok value))

  unfoldable pub version_steps : List (VersionOp E) → Versions E → Option (Versions E)
  version_steps [] v = some v
  version_steps (op ∷ ops) v = elim (version_step op v) [
    | none ↦ none
    | some (next, answer) ↦ version_steps ops next
  ]
