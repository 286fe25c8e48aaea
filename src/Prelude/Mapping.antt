-- ===== src/Prelude/Mapping.antt =====
-- A mapping of which the program only asks what a key holds: a function, with Python's `d[k] = v`
-- as `put` and `d.pop(k, None)` as `erase`.
use Prim.Native.Nat.{ℕ}
use mathlib.Core.Option.{Option, none, some}
use hdg_bavaria_homeassistan.Prelude.Tests.{Text, ◌==◌, text_eq, if◌then◌else◌}

module _ {ℓ} {V : Type ℓ} where
  -- keyed by a text
  abbrev pub put : Text → V → (Text → Option V) → Text → Option V
  put k v m j = if text_eq k j then some v else m j

  abbrev pub erase : Text → (Text → Option V) → Text → Option V
  erase k m j = if text_eq k j then none else m j

  -- a heap of objects, keyed by a reference
  abbrev pub store : ℕ → V → (ℕ → Option V) → ℕ → Option V
  store r v h q = if r == q then some v else h q

abbrev pub empty {ℓ} : {V : Type ℓ} → Text → Option V
empty j = none
