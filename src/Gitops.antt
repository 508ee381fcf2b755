-- ===== src/Gitops.antt =====
-- backend/internal/gitops/service.go: a deployment kept in step with a git branch. Each method
-- reads the commands of the host one after another; what a command or a request comes to, and what
-- it leaves of the host (of type `H`), is an argument. A method marks the service as running under
-- its lock, and every other call finds it so until the method returns: `sync_now` and
-- `rollback_last_stable` are the two calls, and their bodies run with the mark set.
pub mod Stable
pub mod Rollback
use proxmaster.Prelude.{
  ℕ, String, ◌<>◌, ◌==◌, Bool, true, false, not, ◌||◌, Option, none, some, List, [], ◌∷◌, ◌++◌, ltb,
  leb, if◌then◌else◌,
}
use proxmaster.Prelude.Text.{trim_space, show_nat}
use proxmaster.Models.{Params, Value, bool, str, time}

pub record Config : Type 0 where
  pub repo_dir : String
  pub branch : String
  pub compose_file : String
  pub env_file : String
  pub health_url : String
  pub rollback_on_fail : Bool

pub record Service : Type 0 where
  pub cfg : Config
  pub running : Bool
  pub last_run_at : ℕ
  pub last_result : String
  pub last_error : String
  pub last_commit : String
  pub last_stable_commit : String
  pub last_health : String

-- What a command prints, on its standard output and with its errors, and whether it failed.
pub record Output : Type 0 where
  pub stdout : String
  pub combined : String
  pub failed : Bool

-- The answer to an HTTP request: a status code, or the error of making or sending it.
pub data Reply : Type 0 where
  answered : ℕ → Reply
  unreachable : String → Reply

pub record Host (H : Type 0) : Type 0 where
  pub exec : String → List String → H → Output × H
  pub http_get : String → H → Reply × H

abbrev or_text : String → String → String
or_text fallback s = if trim_space s == "" then fallback else s

unfoldable pub new_service : Config → Service
new_service cfg = record {
  cfg = record cfg {
    branch = or_text "main" cfg.branch;
    health_url = or_text "http://127.0.0.1:8080/healthz" cfg.health_url;
  };
  running = false;
  last_run_at = 0;
  last_result = "";
  last_error = "";
  last_commit = "";
  last_stable_commit = "";
  last_health = "";
}

-- The zero time is the empty text.
abbrev time_or_empty : ℕ → Value
time_or_empty t = if ltb 0 t then time t else str ""

unfoldable pub status_locked : Service → Params
status_locked s =
    let cfg = s.cfg in
    ("running", bool s.running)
    ∷ ("last_run_at_utc", time_or_empty s.last_run_at)
    ∷ ("last_result", str s.last_result)
    ∷ ("last_error", str s.last_error)
    ∷ ("last_commit", str s.last_commit)
    ∷ ("last_stable_commit", str s.last_stable_commit)
    ∷ ("last_health", str s.last_health)
    ∷ ("repo_dir", str cfg.repo_dir)
    ∷ ("branch", str cfg.branch)
    ∷ ("compose_file", str cfg.compose_file)
    ∷ ("health_url", str cfg.health_url)
    ∷ ("rollback_on_fail", bool cfg.rollback_on_fail)
    ∷ []

abbrev pub mark_failed : String → Service → Service
mark_failed err s = record s { last_result = "failed"; last_error = err; last_health = "unhealthy" }

abbrev exit_error : Output → Option String
exit_error out = if out.failed then some (trim_space out.combined) else none

abbrev compose_args : Config → List String → List String
compose_args cfg args =
    "compose"
    ∷ "-f"
    ∷ cfg.compose_file
    ∷ (if not (trim_space cfg.env_file == "") then "--env-file" ∷ cfg.env_file ∷ args else args)

abbrev reply_error : Reply → Option String
reply_error (unreachable e) = some e
reply_error (answered code) =
    if not (leb 200 code) || leb 300 code
    then some ("health check returned status " <> show_nat code)
    else none

-- A status report, the error if there is one, the service and the host.
abbrev pub Answer : Type 0 → Type 0
Answer H = Params × Option String × Service × H

module _ {H : Type 0} (host : Host H) where
  open host use {exec, http_get}

  unfoldable pub git_run : Config → List String → H → Option String × H
  git_run cfg args h =
      let (out, h') = exec "git" ("-C" ∷ cfg.repo_dir ∷ args) h in (exit_error out, h')

  unfoldable pub git_output : Config → List String → H → String × H
  git_output cfg args h =
      let (out, h') = exec "git" ("-C" ∷ cfg.repo_dir ∷ args) h in
      (if out.failed then "" else trim_space out.stdout, h')

  unfoldable pub compose_run : Config → List String → H → Option String × H
  compose_run cfg args h =
      let (out, h') = exec "docker" (compose_args cfg args) h in (exit_error out, h')

  unfoldable pub health_check : Config → H → Option String × H
  health_check cfg h = let (reply, h') = http_get cfg.health_url h in (reply_error reply, h')

  abbrev answer_failed : String → Service → H → Answer H
  answer_failed err s h = let t = mark_failed err s in (status_locked t, some err, t, h)

  -- The health of what stands after a rollback decides what is reported of it.
  abbrev rolled_back : String → String → Option String × H → Service → Answer H
  rolled_back commit root_err (some e, h) s = (status_locked s, some root_err, s, h)
  rolled_back commit root_err (none, h) s =
      let t = record s {
        last_result = "rolled_back";
        last_error = root_err;
        last_commit = commit;
        last_health = "healthy_after_rollback";
      } in
      (status_locked t, some root_err, t, h)

  -- The errors of the checkout and of the start are dropped.
  unfoldable pub rollback_on_failure : String → String → Service → H → Answer H
  rollback_on_failure commit root_err s h =
      let t = mark_failed root_err s in
      if not t.cfg.rollback_on_fail || trim_space commit == ""
      then (status_locked t, some root_err, t, h)
      else let (e₁, h₁) = git_run t.cfg ("checkout" ∷ commit ∷ []) h in
        let (e₂, h₂) = compose_run t.cfg ("up" ∷ "-d" ∷ []) h₁ in
        rolled_back commit root_err (health_check t.cfg h₂) t

  abbrev after_health : String → String → Option String × H → Service → Answer H
  after_health before commit (some e, h) s = rollback_on_failure before e s h
  after_health before commit (none, h) s =
      let t = record s {
        last_result = "success";
        last_error = "";
        last_stable_commit = commit;
        last_health = "healthy";
      } in
      (status_locked t, none, t, h)

  abbrev after_up : String → String → Option String × H → Service → Answer H
  after_up before commit (some e, h) s = rollback_on_failure before ("compose up failed: " <> e) s h
  after_up before commit (none, h) s = after_health before commit (health_check s.cfg h) s

  abbrev after_pull : String → Option String × H → Service → Answer H
  after_pull before (some e, h) s = answer_failed e s h
  after_pull before (none, h) s =
      let (out, h') = git_output s.cfg ("rev-parse" ∷ "HEAD" ∷ []) h in
      let commit = or_text before (trim_space out) in
      let t = record s { last_commit = commit } in
      after_up before commit (compose_run s.cfg ("up" ∷ "-d" ∷ []) h') t

  abbrev after_checkout : String → Option String × H → Service → Answer H
  after_checkout before (some e, h) s = answer_failed e s h
  after_checkout before (none, h) s =
      after_pull before (git_run s.cfg ("pull" ∷ "--ff-only" ∷ "origin" ∷ s.cfg.branch ∷ []) h) s

  abbrev after_fetch : String → Option String × H → Service → Answer H
  after_fetch before (some e, h) s = answer_failed e s h
  after_fetch before (none, h) s =
      after_checkout before (git_run s.cfg ("checkout" ∷ s.cfg.branch ∷ []) h) s

  unfoldable pub sync_body : Service → H → Answer H
  sync_body s h =
      let (out, h') = git_output s.cfg ("rev-parse" ∷ "HEAD" ∷ []) h in
      let before = trim_space out in
      let t = if not (before == "") then record s { last_commit = before } else s in
      after_fetch before (git_run t.cfg ("fetch" ∷ "origin" ∷ t.cfg.branch ∷ []) h') t

  -- The deferred function runs after the answer is made.
  abbrev finish : ℕ → Answer H → Answer H
  finish now (report, err, s, h) = (report, err, record s { running = false; last_run_at = now }, h)

  abbrev pub refused : String → Service → H → Answer H
  refused why s h = (status_locked s, some why, s, h)

  -- `now` is the time at the end.
  unfoldable pub sync_now : ℕ → Service → H → Answer H
  sync_now now s h =
      if s.running
      then refused "gitops sync already running" s h
      else finish now (sync_body (record s { running = true }) h)

  abbrev after_restart : String → Option String × H → Service → Answer H
  after_restart commit (some e, h) s = answer_failed e s h
  after_restart commit (none, h) s =
      let t = record s {
        last_commit = commit;
        last_result = "rolled_back";
        last_error = "";
        last_health = "healthy_after_rollback";
      } in
      (status_locked t, none, t, h)

  abbrev after_stable_up : String → Option String × H → Service → Answer H
  after_stable_up commit (some e, h) s = answer_failed e s h
  after_stable_up commit (none, h) s = after_restart commit (health_check s.cfg h) s

  abbrev after_stable_checkout : String → Option String × H → Service → Answer H
  after_stable_checkout commit (some e, h) s = answer_failed e s h
  after_stable_checkout commit (none, h) s =
      after_stable_up commit (compose_run s.cfg ("up" ∷ "-d" ∷ []) h) s

  unfoldable pub rollback_body : Service → H → Answer H
  rollback_body s h =
      let commit = s.last_stable_commit in
      after_stable_checkout commit (git_run s.cfg ("checkout" ∷ commit ∷ []) h) s

  unfoldable pub rollback_last_stable : ℕ → Service → H → Answer H
  rollback_last_stable now s h =
      if s.running
      then refused "gitops sync already running" s h
      else if trim_space s.last_stable_commit == ""
      then refused "no stable commit recorded" s h
      else finish now (rollback_body (record s { running = true }) h)
