-- ===== src/Models/Policy.antt =====
-- The policy mode.
use proxmaster.Prelude.{ℕ, String}

pub data PolicyMode : Type 0 where
  unset guarded_sre aggressive : PolicyMode

pub record PolicyModeState : Type 0 where
  pub mode : PolicyMode
  pub aggressive_until : ℕ
  pub last_changed_by : String
  pub updated_at : ℕ
