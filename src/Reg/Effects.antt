-- ===== src/Reg/Effects.antt =====
-- What a run leaves behind: its writes to registers and to message RAM, the newest first.
use mcan.Base.{[], ◌∷◌}
use mcan.Reg.Io.{Event, Trace}

abbrev pub effects : {M : Type 0} → Trace M → Trace M
effects [] = []
effects (Event.read r v ∷ t) = effects t
effects (Event.load i m ∷ t) = effects t
effects (Event.write r v ∷ t) = Event.write r v ∷ effects t
effects (Event.store i m ∷ t) = Event.store i m ∷ effects t
