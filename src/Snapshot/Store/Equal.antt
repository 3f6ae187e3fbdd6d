-- ===== src/Snapshot/Store/Equal.antt =====
-- reflect.DeepEqual on the values of a snapshot: all of their parts are equal.
use Prim.{Dec, Discrete, yes, no}
use native.Mathlib.Decide.{ℕ_discrete}
use busylib_go.Prelude.Int.{ℤ}
use busylib_go.Prelude.{Bool, true, false, Option, ◌≡◌, ◌↔◌, refl}
use busylib_go.Prelude.Bytes.{Bytes}
use busylib_go.Snapshot.Types.{SnapshotField, Section, Power, Brightness, Wifi, Ble}

abbrev pub is_yes : {P : Type 0} → Dec P → Bool
is_yes (yes _) = true
is_yes (no _) = false

pub is_yes_iff : {P : Type 0} (d : Dec P) → (is_yes d ≡ true) ↔ P
is_yes_iff (yes p) = ((λ _. p), λ _. refl)
is_yes_iff (no n) = ((λ h. cc), λ p. absurd (n p))

unfoldable pub Section-discrete : Discrete Section
Section-discrete = hlevel

unfoldable pub Bool-discrete : Discrete Bool
Bool-discrete = hlevel

unfoldable pub Volume-discrete : Discrete ℤ
Volume-discrete = hlevel ℕ_discrete

unfoldable pub Bytes-discrete : Discrete Bytes
Bytes-discrete = hlevel ℕ_discrete

unfoldable pub Power-discrete : Discrete Power
Power-discrete = hlevel ℕ_discrete

unfoldable pub Brightness-discrete : Discrete Brightness
Brightness-discrete = hlevel ℕ_discrete

unfoldable pub Wifi-discrete : Discrete Wifi
Wifi-discrete = hlevel ℕ_discrete

unfoldable pub Ble-discrete : Discrete Ble
Ble-discrete = hlevel ℕ_discrete

unfoldable pub Error-discrete : {E : Type 0} → Discrete E → Discrete (Option E)
Error-discrete d = hlevel d

unfoldable pub SnapshotField-discrete :
    {E T : Type 0} → Discrete E → Discrete T → Discrete (SnapshotField E T)
SnapshotField-discrete e t = hlevel (e, t, ℕ_discrete)

abbrev pub field_equal :
    {E T : Type 0} → Discrete E → Discrete T → SnapshotField E T → SnapshotField E T → Bool
field_equal e t left right = is_yes (SnapshotField-discrete e t left right)
