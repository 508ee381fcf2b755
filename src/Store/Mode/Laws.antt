-- ===== src/Store/Mode/Laws.antt =====
-- How long the aggressive mode lasts (backend/internal/store/memory.go,
-- backend/internal/policy/gate.go).
use proxmaster.Prelude.{ℕ, ◌+◌, ◌≤◌, ◌<◌, String, ◌≡◌, ◌↔◌, true, arith}
use proxmaster.Prelude.Int.{ℤ, pos, negsuc, pos_part, ◌<ℤ◌}
use proxmaster.Models.{PolicyMode}
use proxmaster.Policy.{aggressive_active}
use proxmaster.Store.{MemoryStore}
use proxmaster.Store.Mode.{get_policy_mode, set_policy_mode}

-- Once the aggressive mode is set for a positive duration: a policy that reads the mode at `read`
-- and judges it at `judged` finds it active exactly when it was read no later than the end and is
-- judged before the end.
pub set-active_iff :
    (now : ℕ) (actor : String) (duration : ℤ) (s : MemoryStore) (read changed judged : ℕ)
    → pos 0 <ℤ duration
    → let t = (set_policy_mode now PolicyMode.aggressive actor duration s).1 in
      let end_time = now + pos_part duration in
      (aggressive_active (get_policy_mode read changed t).0 judged ≡ true)
      ↔ ((read ≤ end_time) × (judged < end_time))
unfolding set_policy_mode get_policy_mode
set-active_iff now actor (pos d) s read changed judged h = (ground arith, ground arith)
set-active_iff now actor (negsuc d) s read changed judged h = absurd (omega arith)
