-- ===== src/Health.antt =====
-- backend/internal/health/gates.go: the health gates in front of every change.
pub mod Quorum
use proxmaster.Prelude.{
  ℕ, ◌+◌, ◌/◌, String, ◌<>◌, ◌==◌, Bool, true, false, not, ◌||◌, ◌&&◌, List, [], ◌∷◌, ltb, eqb,
  length, if◌then◌else◌,
}
use proxmaster.Prelude.Int.{ℤ, pos, pos_part, neg_part, scale}
use proxmaster.Prelude.Text.{show_nat}
use proxmaster.Models.{Params, Node, ClusterState, bool, int, str, time}

pub record Snapshot : Type 0 where
  pub quorum_healthy : Bool
  pub runner_healthy : Bool
  pub online_nodes : ℕ
  pub total_nodes : ℕ
  pub last_checked : ℕ

pub record GateEvaluator : Type 0 where
  pub fail_closed : Bool
  pub runner_heartbeat_max : ℤ  -- a duration in nanoseconds

abbrev pub second : ℕ
second = 1000000000

unfoldable pub new_gate_evaluator : Bool → ℤ → GateEvaluator
new_gate_evaluator fail_closed heartbeat_max_sec = record {
  fail_closed = fail_closed;
  runner_heartbeat_max = scale heartbeat_max_sec second;
}

-- `now.Sub(last) > d`. A difference beyond 64 bits saturates in Go; `d` is a multiple of 512 and so
-- never the largest duration, and the test has the same answer.
abbrev pub older_than : ℕ → ℕ → ℤ → Bool
older_than now last d = ltb (last + pos_part d) (now + neg_part d)

-- The body of the loop over the nodes.
unfoldable pub observe : GateEvaluator → ℕ → Snapshot → Node → Snapshot
observe g now s n =
    let s' = record s {
      online_nodes = if n.status == "online" then s.online_nodes + 1 else s.online_nodes;
    } in
    if not n.runner_healthy || older_than now n.last_heartbeat g.runner_heartbeat_max
    then record s' { runner_healthy = false }
    else s'

unfoldable pub observe_all : GateEvaluator → ℕ → Snapshot → List Node → Snapshot
observe_all g now s [] = s
observe_all g now s (n ∷ ns) = observe_all g now (observe g now s n) ns

abbrev initial_snapshot : ℕ → List Node → Snapshot
initial_snapshot now nodes = record {
  quorum_healthy = true;
  runner_healthy = true;
  online_nodes = 0;
  total_nodes = length nodes;
  last_checked = now;
}

-- The test behind the loop.
judge_quorum : Snapshot → Snapshot
judge_quorum s =
    if eqb s.total_nodes 0 || ltb s.online_nodes (s.total_nodes / 2 + 1)
    then record s { quorum_healthy = false }
    else s

unfoldable pub snapshot_from_state : GateEvaluator → ℕ → ClusterState → Snapshot
unfolding judge_quorum
snapshot_from_state g now state =
    judge_quorum (observe_all g now (initial_snapshot now state.nodes) state.nodes)

unfoldable pub validate_for_write : GateEvaluator → Snapshot → Bool × String
validate_for_write g s =
    if not s.quorum_healthy
    then (false, "quorum is not healthy")
    else if not s.runner_healthy && g.fail_closed
    then (false, "runner heartbeat unhealthy (fail-closed)")
    else (true, "")

unfoldable pub explain : GateEvaluator → Snapshot → Params
explain g s =
    let (ok, reason) = validate_for_write g s in
    ("allow_writes", bool ok)
    ∷ ("reason", str reason)
    ∷ ("quorum_healthy", bool s.quorum_healthy)
    ∷ ("runner_healthy", bool s.runner_healthy)
    ∷ ("online_nodes", int (pos s.online_nodes))
    ∷ ("total_nodes", int (pos s.total_nodes))
    ∷ ("last_checked_utc", time s.last_checked)
    ∷ (
      "summary",
      str ("nodes " <> show_nat s.online_nodes <> "/" <> show_nat s.total_nodes <> " online"),
    )
    ∷ []
