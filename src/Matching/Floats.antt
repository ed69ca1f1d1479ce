-- ===== src/Matching/Floats.antt =====
-- Python's floats, as far as arm/services/matching/tvdb_matcher.py computes with them: the type and
-- its operations are arguments of the model.
use automatic_ripping_machin.Common.{ℕ, Bool}

-- `trunc x` is `max(0, int(x))`, and `round1 x` is `round(x, 1)`; 0.5 and 0.75 are the literals.
pub record Floats : Type 1 where
  pub F : Type 0
  pub float : ℕ → F
  pub half : F
  pub three_quarters : F
  pub add : F → F → F
  pub sub : F → F → F
  pub mul : F → F → F
  pub div : F → F → F
  pub fmin : F → F → F
  pub fmax : F → F → F
  pub fabs : F → F
  pub lt : F → F → Bool
  pub trunc : F → ℕ
  pub round1 : F → F
