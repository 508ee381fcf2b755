-- ===== src/Breakglass.antt =====
-- backend/internal/breakglass/service.go: SSH access to the nodes for an emergency, for a limited
-- time. The two hooks are shell commands: what running one comes to is an argument (`Shell`). The
-- context of a request is not modelled. Each method holds the service's lock throughout.
pub mod Timebox
use proxmaster.Prelude.{
  ℕ, ◌+◌, ◌-◌, ◌/◌, String, ◌==◌, Bool, true, false, not, Option, none, some, List, [], ◌∷◌, ltb,
  if◌then◌else◌,
}
use proxmaster.Prelude.Int.{ℤ, pos, leb_ℤ, neg_part, scale}
use proxmaster.Prelude.Text.{trim_space, default_text}
use proxmaster.Models.{Params, Value, bool, str, int, time}
use proxmaster.Health.{second}

-- A command run by `sh -c`: success, or its output and the error's text.
pub data Exit : Type 0 where
  success : Exit
  failure : String → String → Exit

abbrev pub Shell : Type 0
Shell = String → Exit

pub record Service : Type 0 where
  pub enabled : Bool
  pub enabled_until : ℕ
  pub last_changed_by : String
  pub last_changed_at : ℕ
  pub last_error : String
  pub enable_cmd : String
  pub disable_cmd : String
  pub default_duration : ℤ
  pub last_auto_disable_at : ℕ

abbrev minute : ℕ
minute = 60000000000

unfoldable pub new_service : String → String → ℤ → Service
new_service enable_cmd disable_cmd default_duration_min = record {
  enabled = false;
  enabled_until = 0;
  last_changed_by = "";
  last_changed_at = 0;
  last_error = "";
  enable_cmd = trim_space enable_cmd;
  disable_cmd = trim_space disable_cmd;
  default_duration =
      scale (if leb_ℤ default_duration_min (pos 0) then pos 60 else default_duration_min) minute;
  last_auto_disable_at = 0;
}

abbrev exit_error : Exit → Option String
exit_error success = none
exit_error (failure output text) = some (default_text text (trim_space output))

unfoldable pub run_hook : Shell → String → Option String
run_hook shell cmd = if trim_space cmd == "" then none else exit_error (shell cmd)

-- A time plus a duration.
abbrev pub after : ℕ → ℤ → ℕ
after now (pos d) = now + d
after now d = now - neg_part d

abbrev actor_or_admin : String → String
actor_or_admin actor = if trim_space actor == "" then "admin" else actor

abbrev pub effective : Service → ℤ → ℤ
effective s duration = if leb_ℤ duration (pos 0) then s.default_duration else duration

-- The error of the hook, if it failed, and the service.
unfoldable pub enable : Shell → ℕ → ℤ → String → Service → Option String × Service
enable shell now duration actor s = elim (run_hook shell s.enable_cmd) [
  | some e ↦ (some e, record s { last_error = e })
  | none ↦ (
    none,
    record s {
      enabled = true;
      enabled_until = after now (effective s duration);
      last_changed_by = actor_or_admin actor;
      last_changed_at = now;
      last_error = "";
    },
  )
]

unfoldable pub disable : Shell → ℕ → String → Service → Option String × Service
disable shell now actor s = elim (run_hook shell s.disable_cmd) [
  | some e ↦ (some e, record s { last_error = e })
  | none ↦ (
    none,
    record s {
      enabled = false;
      enabled_until = 0;
      last_changed_by = actor_or_admin actor;
      last_changed_at = now;
      last_error = "";
    },
  )
]

-- The hook's error is dropped: the state does not depend on `shell`.
unfoldable pub auto_disable_if_expired : Shell → ℕ → Service → Service
auto_disable_if_expired shell now s =
    if not s.enabled
    then s
    else if ltb now s.enabled_until
    then s
    else record s { enabled = false; last_auto_disable_at = now }

-- Whole seconds left; `-` stops at 0, as the code does by hand.
abbrev pub remaining : ℕ → Service → ℕ
remaining now s = if s.enabled then (s.enabled_until - now) / second else 0

-- The zero time is the empty text.
abbrev time_or_empty : ℕ → Value
time_or_empty t = if ltb 0 t then time t else str ""

unfoldable pub status_locked : ℕ → Service → Params
status_locked now s =
    ("enabled", bool s.enabled)
    ∷ ("enabled_until_utc", time_or_empty s.enabled_until)
    ∷ ("remaining_seconds", int (pos (remaining now s)))
    ∷ ("last_changed_by", str s.last_changed_by)
    ∷ ("last_changed_at_utc", time_or_empty s.last_changed_at)
    ∷ ("last_auto_disable_at_utc", time_or_empty s.last_auto_disable_at)
    ∷ ("last_error", str s.last_error)
    ∷ []

-- `now` is read for the expiry, and `later` for the seconds left.
unfoldable pub status : Shell → ℕ → ℕ → Service → Params × Service
unfolding auto_disable_if_expired status_locked
status shell now later s =
    let s' = auto_disable_if_expired shell now s in (status_locked later s', s')
