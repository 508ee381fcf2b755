-- ===== src/Health/Quorum.antt =====
-- What a health snapshot says of the nodes (backend/internal/health/gates.go).
use proxmaster.Prelude.{
  ℕ, suc, ◌+◌, ◌*◌, ◌<◌, ◌≤◌, ◌≡◌, refl, sym, ◌∙◌, ◌↔◌, ◌==◌, Bool, true, false, not, List, [], ◌∷◌,
  arith, length, if◌then◌else◌,
}
use proxmaster.Models.{Node, ClusterState}
use proxmaster.Health.{
  Snapshot, GateEvaluator, older_than, observe, observe_all, snapshot_from_state,
  validate_for_write, initial_snapshot, judge_quorum,
}

-- How many nodes have the status "online".
abbrev pub online : List Node → ℕ
online [] = 0
online (n ∷ ns) = if n.status == "online" then suc (online ns) else online ns

online-le-length : (ns : List Node) → online ns ≤ length ns
online-le-length [] = omega arith
online-le-length (n ∷ ns) = ground (arith, online-le-length ns)

-- A node whose runner reports itself healthy and was heard of in time.
abbrev pub runner_fresh : GateEvaluator → ℕ → Node → Bool
runner_fresh g now n =
    if n.runner_healthy then not (older_than now n.last_heartbeat g.runner_heartbeat_max) else false

abbrev pub all_fresh : GateEvaluator → ℕ → List Node → Bool
all_fresh g now [] = true
all_fresh g now (n ∷ ns) = if runner_fresh g now n then all_fresh g now ns else false

observe_all-online :
    (g : GateEvaluator) (now : ℕ) (s : Snapshot) (ns : List Node)
    → (observe_all g now s ns).online_nodes ≡ s.online_nodes + online ns
unfolding observe_all observe
observe_all-online g now s [] = omega arith
observe_all-online g now s (n ∷ ns) =
    ground (arith, observe_all-online g now (observe g now s n) ns)

observe_all-runner :
    (g : GateEvaluator) (now : ℕ) (s : Snapshot) (ns : List Node)
    → (observe_all g now s ns).runner_healthy
      ≡ (if s.runner_healthy then all_fresh g now ns else false)
unfolding observe_all observe
observe_all-runner g now s [] = ground arith
observe_all-runner g now s (n ∷ ns) =
    ground (arith, observe_all-runner g now (observe g now s n) ns)

observe_all-total :
    (g : GateEvaluator) (now : ℕ) (s : Snapshot) (ns : List Node)
    → (observe_all g now s ns).total_nodes ≡ s.total_nodes
unfolding observe_all observe
observe_all-total g now s [] = refl
observe_all-total g now s (n ∷ ns) = ground (arith, observe_all-total g now (observe g now s n) ns)

observe_all-quorum :
    (g : GateEvaluator) (now : ℕ) (s : Snapshot) (ns : List Node)
    → (observe_all g now s ns).quorum_healthy ≡ s.quorum_healthy
unfolding observe_all observe
observe_all-quorum g now s [] = refl
observe_all-quorum g now s (n ∷ ns) =
    ground (arith, observe_all-quorum g now (observe g now s n) ns)

judge-online : (s : Snapshot) → (judge_quorum s).online_nodes ≡ s.online_nodes
unfolding judge_quorum
judge-online s = ground arith

judge-runner : (s : Snapshot) → (judge_quorum s).runner_healthy ≡ s.runner_healthy
unfolding judge_quorum
judge-runner s = ground arith

judge-quorum :
    (s : Snapshot) (total up : ℕ)
    → s.quorum_healthy ≡ true
    → s.total_nodes ≡ total
    → s.online_nodes ≡ up
    → up ≤ total
    → ((judge_quorum s).quorum_healthy ≡ true) ↔ (total < 2 * up)
unfolding judge_quorum
judge-quorum s total up q t o le = (ground arith, ground arith)

module _ (g : GateEvaluator) (now : ℕ) (state : ClusterState) where
  open state use {nodes}

  abbrev scanned : Snapshot
  scanned = observe_all g now (initial_snapshot now nodes) nodes

  -- The quorum is healthy exactly when more than half of the nodes are online.
  pub quorum-iff_majority :
      ((snapshot_from_state g now state).quorum_healthy ≡ true) ↔ (length nodes < 2 * online nodes)
  unfolding snapshot_from_state
  quorum-iff_majority =
      judge-quorum scanned (length nodes) (online nodes)
        (observe_all-quorum g now (initial_snapshot now nodes) nodes)
        (observe_all-total g now (initial_snapshot now nodes) nodes)
        (omega (arith, observe_all-online g now (initial_snapshot now nodes) nodes))
        (online-le-length nodes)

  snapshot-runner : (snapshot_from_state g now state).runner_healthy ≡ all_fresh g now nodes
  unfolding snapshot_from_state
  snapshot-runner =
      judge-runner scanned ∙ observe_all-runner g now (initial_snapshot now nodes) nodes

  -- A fail-closed evaluator lets a write through exactly when more than half of the nodes are
  -- online and every node's runner is healthy and was heard of in time.
  pub validate_iff :
      g.fail_closed ≡ true
      → ((validate_for_write g (snapshot_from_state g now state)).0 ≡ true)
        ↔ ((length nodes < 2 * online nodes) × (all_fresh g now nodes ≡ true))
  unfolding validate_for_write
  validate_iff closed = (
    (λ h. (quorum-iff_majority.0 (ground arith), sym snapshot-runner ∙ ground arith)),
    (λ h. ground (arith, quorum-iff_majority.1 h.0, snapshot-runner ∙ h.1)),
  )
