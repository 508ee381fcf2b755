-- ===== src/Proxmox/Specs.antt =====
-- Declarative specs: how they are stored, explained and reconciled
-- (backend/internal/proxmox/client.go). A range over a map of specs visits the keys that it has at
-- the start; the writes during the loop change no keys.
pub mod Laws
use proxmaster.Prelude.{
  ℕ, suc, ◌+◌, String, ◌==◌, true, false, Option, none, some, List, [], ◌∷◌, ◌++◌, map,
  if◌then◌else◌, length, Bool,
}
use proxmaster.Prelude.Int.{pos}
use proxmaster.Prelude.Text.{default_text}
use proxmaster.Prelude.Dict.{keys}
use proxmaster.Models.{Params, Value, bool, str, map_value, AgentTask, ResourceSpec}
use proxmaster.Models.Json.{array, spec_value}
use proxmaster.Store.{MemoryStore}
use proxmaster.Store.Tasks.{blank_task, create_agent_task}
use proxmaster.Store.Specs.{zero_spec, upsert_spec, get_spec, list_specs, set_spec_observed}
use proxmaster.Mcp.{Clock, Result, ok, err}
use proxmaster.Proxmox.Drift.{Drift, compute_observed_and_drift}

abbrev pub reconcile_task : String → String → AgentTask
reconcile_task scope key = record blank_task {
  task_type = "spec.reconcile";
  payload = some (("scope", str scope) ∷ ("key", str key) ∷ []);
  requested_by = "spec-controller";
  priority = pos 80;
  max_attempts = pos 3;
}

abbrev applied : String → String → ResourceSpec → Params
applied scope key spec =
    ("changed", bool true)
    ∷ ("scope", str scope)
    ∷ ("key", str key)
    ∷ ("spec", spec_value spec)
    ∷ ("drift_delta", map_value (("status", str "reconcile_queued") ∷ []))
    ∷ []

-- `now` stamps the spec, and `later` the task.
unfoldable pub apply_spec : ℕ → ℕ → String → String → Params → MemoryStore → Result × MemoryStore
apply_spec now later scope key_arg desired s =
    if scope == ""
    then (err "missing scope", s)
    else (let key = default_text "default" key_arg in
        let (spec, s₁) = upsert_spec now scope key desired s in
        let (task, s₂) = create_agent_task later (reconcile_task scope key) s₁ in
        (ok (applied scope key spec), s₂))

abbrev or_else : ResourceSpec → Option ResourceSpec → ResourceSpec
or_else spec none = spec
or_else spec (some updated) = updated

abbrev told : Bool → String → String → ResourceSpec → Params → Result
told changed scope key spec delta = ok (
    ("changed", bool changed)
    ∷ ("scope", str scope)
    ∷ ("key", str key)
    ∷ ("spec", spec_value spec)
    ∷ ("drift_delta", map_value delta)
    ∷ [])

unfoldable pub explain_spec : ℕ → String → String → MemoryStore → Result × MemoryStore
unfolding compute_observed_and_drift
explain_spec now scope_arg key_arg s =
    let scope = default_text "workloads" scope_arg in
    let key = default_text "default" key_arg in
    elim (get_spec scope key s) [
      | none ↦ (err "spec not found", s)
      | some spec ↦
          let d = compute_observed_and_drift scope key spec.desired s in
          let (updated, s') = set_spec_observed now scope key d.observed d.status "" s in
          (told false scope key (or_else spec updated) d.delta, s')
    ]

unfoldable pub reconcile_spec : ℕ → String → String → String → MemoryStore → Result × MemoryStore
unfolding compute_observed_and_drift
reconcile_spec now scope key job_id s = elim (get_spec scope key s) [
  | none ↦ (err "spec not found", s)
  | some spec ↦
      let d = compute_observed_and_drift scope key spec.desired s in
      let (updated, s') = set_spec_observed now scope key d.observed d.status job_id s in
      (told true scope key (or_else zero_spec updated) d.delta, s')
]

abbrev entry : String → String → Result → Params
entry scope key (err e) = ("scope", str scope) ∷ ("key", str key) ∷ ("error", str e) ∷ []
entry scope key (ok out) = ("scope", str scope) ∷ ("key", str key) ∷ ("result", map_value out) ∷ []

-- Each spec reads the clock once, from reading `n` on.
unfoldable pub reconcile_keys :
    Clock → ℕ → String → String → List String → MemoryStore → List Params × MemoryStore
reconcile_keys clock n job_id scope [] s = ([], s)
reconcile_keys clock n job_id scope (key ∷ ks) s =
    let (res, s₁) = reconcile_spec (clock n) scope key job_id s in
    let (rest, s₂) = reconcile_keys clock (suc n) job_id scope ks s₁ in
    (entry scope key res ∷ rest, s₂)

unfoldable pub reconcile_scopes :
    Clock → ℕ → String → List String → MemoryStore → List Params × MemoryStore
reconcile_scopes clock n job_id [] s = ([], s)
reconcile_scopes clock n job_id (scope ∷ scopes) s =
    let (here, s₁) = reconcile_keys clock n job_id scope (keys (list_specs scope s)) s in
    let (rest, s₂) = reconcile_scopes clock (n + length here) job_id scopes s₁ in (here ++ rest, s₂)

abbrev pub scopes : List String
scopes = "cluster" ∷ "storage" ∷ "network" ∷ "backup" ∷ "workloads" ∷ "blueprint" ∷ []

unfoldable pub reconcile_all_specs : Clock → String → MemoryStore → Result × MemoryStore
reconcile_all_specs clock job_id s =
    let (results, s') = reconcile_scopes clock 0 job_id scopes s in
    (ok (("changed", bool true) ∷ ("results", array map_value results) ∷ []), s')
