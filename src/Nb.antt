-- ===== src/Nb.antt =====
-- The results of the crate `nb` as the driver returns them.

-- `nb::Result<A, E>`: `Ok`, `Err(WouldBlock)` and `Err(Other(_))`.
pub data NbResult (E A : Type 0) : Type 0 where
  ok : A → NbResult E A
  would_block : NbResult E A
  other : E → NbResult E A

-- `core::convert::Infallible`
pub data Infallible : Type 0 where
