-- ===== src/Prelude/Maps.antt =====
-- Maps as functions, changed at one key or at one pair of keys.
use Prim.Native.Nat.{ℕ}
use mathlib.Core.Bool.{◌&&◌}
use limnopulse.Prelude.Tests.{◌==◌, if◌then◌else◌}

abbrev pub set {ℓ} : {V : Type ℓ} → ℕ → V → (ℕ → V) → ℕ → V
set k v f j = if j == k then v else f j

abbrev pub set_pair {ℓ} : {V : Type ℓ} → ℕ → ℕ → V → (ℕ → ℕ → V) → ℕ → ℕ → V
set_pair k l v f i j = if i == k && j == l then v else f i j
