-- ===== src/Reg/Stored.antt =====
-- Registers that hold what was written to them last.
use mcan.Base.{ℕ, ◌≡◌, [], ◌∷◌}
use mcan.Reg.Block.{Register, Register-discrete}
use mcan.Reg.Io.{Event, Trace, Hardware}
use mathlib.Core.Logic.{ite}

-- The value that was written to `r` last, or `start`.
abbrev pub stored : {M : Type 0} → Register → ℕ → Trace M → ℕ
stored r start [] = start
stored r start (Event.write q v ∷ t) = ite (Register-discrete q r) v (stored r start t)
stored r start (Event.read q v ∷ t) = stored r start t
stored r start (Event.load i m ∷ t) = stored r start t
stored r start (Event.store i m ∷ t) = stored r start t

-- The register `r` reads back what was written to it last. CCCR does this only in part: the peripheral clears CCE
-- when INIT is cleared, takes a write to the protected bits only while INIT and CCE are set, and lets INIT and CSA
-- follow late.
abbrev pub Holds : {M : Type 0} → Hardware M → Register → ℕ → Type 0
Holds {M} hw r start = (t : Trace M) → hw.register t r ≡ stored r start t
