-- ===== src/Store/Mode.antt =====
-- The policy mode of the store (backend/internal/store/memory.go).
pub mod Laws
use proxmaster.Prelude.{ℕ, ◌+◌, String, Bool, true, false, not, ◌&&◌, ltb, eqb, if◌then◌else◌}
use proxmaster.Prelude.Int.{ℤ, pos, ltb_ℤ, pos_part}
use proxmaster.Models.{PolicyMode, PolicyModeState}
use proxmaster.Store.{MemoryStore}

abbrev pub is_aggressive : PolicyMode → Bool
is_aggressive PolicyMode.aggressive = true
is_aggressive _ = false

abbrev back_to_guarded : ℕ → PolicyModeState → PolicyModeState
back_to_guarded now mode = record mode { mode = PolicyMode.guarded_sre; updated_at = now }

-- A mode that has run out is set back; `now` is read for the test, and `later` for the change.
unfoldable pub get_policy_mode : ℕ → ℕ → MemoryStore → PolicyModeState × MemoryStore
get_policy_mode now later s =
    let mode = s.policy_mode in
    if is_aggressive mode.mode && not (eqb mode.aggressive_until 0) && ltb mode.aggressive_until now
    then (back_to_guarded later mode, record s { policy_mode = back_to_guarded later mode })
    else (mode, s)

-- A positive duration bounds the aggressive mode; else it has no end.
unfoldable pub set_policy_mode :
    ℕ → PolicyMode → String → ℤ → MemoryStore → PolicyModeState × MemoryStore
set_policy_mode now mode actor duration s =
    let mode' : PolicyModeState = record {
      mode = mode;
      aggressive_until =
          if is_aggressive mode && ltb_ℤ (pos 0) duration then now + pos_part duration else 0;
      last_changed_by = actor;
      updated_at = now;
    } in
    (mode', record s { policy_mode = mode' })
