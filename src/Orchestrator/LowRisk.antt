-- ===== src/Orchestrator/LowRisk.antt =====
-- What a tool of low risk does to the cluster (backend/internal/orchestrator/service.go, with the
-- lists of backend/internal/risk/engine.go).
use mathlib.Core.Path.{subst}
use mathlib.Core.Option.{some-injective}
use proxmaster.Prelude.{
  ℕ, String, ◌≡◌, refl, ◌∙◌, ap, ◌==◌, eq_iff, Bool, true, false, not, ◌||◌, some, [], ◌∷◌, arith,
  Bool-cases, Option-cases, inl, inr, if◌then◌else◌,
}
use proxmaster.Prelude.Text.{to_lower, one_of, default_text}
use proxmaster.Prelude.Dict.{Dict, lookup}
use proxmaster.Models.{Params, RiskLevel}
use proxmaster.Risk.{low_tools, classify}
use proxmaster.Risk.Laws.{classify-low}
use proxmaster.Controlplane.{Manager}
use proxmaster.Store.{MemoryStore}
use proxmaster.Store.Ledger.{Setup, setup, observed-setup}
use proxmaster.Proxmox.Specs.Laws.{reconcile-setup, reconcile_scopes-setup}
use proxmaster.Store.Backup.{explain_backup_policy}
use proxmaster.Store.Specs.{get_spec}
use proxmaster.Mcp.{Clock}
use proxmaster.Proxmox.Specs.{explain_spec, reconcile_all_specs, scopes}
use proxmaster.Proxmox.Backups.{simulate_policy}
use proxmaster.Orchestrator.{Services, Runtime, execute, run_tool, run_service_tool}
use proxmaster.Orchestrator.StoreTools.{run_store_tool}
use proxmaster.Orchestrator.Names.{
  Tool, store_tool, service_tool, StoreTool, ServiceTool, tool_named, service_names, cluster_names,
  storage_names,
}

-- The tools of low risk, as tools.
abbrev is_low_store : StoreTool → Bool
is_low_store StoreTool.spec_explain = true
is_low_store StoreTool.spec_reconcile = true
is_low_store StoreTool.spec_reconcile_all = true
is_low_store StoreTool.policy_simulate_backup = true
is_low_store StoreTool.blueprint_list = true
is_low_store StoreTool.blueprint_plan = true
is_low_store StoreTool.blueprint_verify = true
is_low_store _ = false

abbrev is_low_service : ServiceTool → Bool
is_low_service ServiceTool.get_state = true
is_low_service ServiceTool.get_all = true
is_low_service ServiceTool.connectivity_status = true
is_low_service ServiceTool.wireguard_status = true
is_low_service ServiceTool.connection_test = true
is_low_service ServiceTool.gitops_status = true
is_low_service ServiceTool.breakglass_status = true
is_low_service _ = false

abbrev is_low_tool : Tool → Bool
is_low_tool (store_tool t) = is_low_store t
is_low_tool (service_tool t) = is_low_service t

abbrev fits : String → Tool → Bool
fits name t = not (one_of (to_lower name) low_tools) || is_low_tool t

abbrev all_fit : Dict Tool → Bool
all_fit [] = true
all_fit ((name, t) ∷ rest) = if fits name t then all_fit rest else false

service_names-fit : all_fit service_names ≡ true
unfolding to_lower
service_names-fit = refl

cluster_names-fit : all_fit cluster_names ≡ true
unfolding to_lower
cluster_names-fit = refl

storage_names-fit : all_fit storage_names ≡ true
unfolding to_lower
storage_names-fit = refl

lookup-fits :
    (name : String) (m : Dict Tool) (t : Tool)
    → all_fit m ≡ true
    → lookup name m ≡ some t
    → fits name t ≡ true
unfolding lookup
lookup-fits name [] t h e = cc
lookup-fits name ((k, u) ∷ m) t h e = elim (Bool-cases (fits k u)) [
  | inr unfit ↦ let h' : false ≡ true = rw unfit at h in cc
  | inl fit ↦ elim (Bool-cases (k == name)) [
    | inl here ↦
        let found : some u ≡ some t = rw (here, lookup) at e in
        subst (λ n. fits n t ≡ true) ((eq_iff k name).0 here)
          (subst (λ v. fits k v ≡ true) (some-injective u t found) fit)
    | inr there ↦ lookup-fits name m t (rw fit at h) (rw (there, lookup) at e)
  ]
]

tool_named-fits : (name : String) (t : Tool) → tool_named name ≡ some t → fits name t ≡ true
unfolding tool_named
tool_named-fits name t e = elim (Option-cases (lookup name service_names)) [
  | inr (u, found) ↦
      lookup-fits name service_names t service_names-fit (found ∙ (rw (found, tool_named) at e))
  | inl missing ↦ elim (Option-cases (lookup name cluster_names)) [
    | inr (u, found) ↦
        lookup-fits name cluster_names t cluster_names-fit
          (found ∙ (rw (missing, found, tool_named) at e))
    | inl missing' ↦
        lookup-fits name storage_names t storage_names-fit (rw (missing, missing', tool_named) at e)
  ]
]

explain-setup :
    (now : ℕ) (scope key : String) (s : MemoryStore)
    → setup (explain_spec now scope key s).1 ≡ setup s
unfolding explain_spec
explain-setup now scope_arg key_arg s =
    let scope = default_text "workloads" scope_arg in
    let key = default_text "default" key_arg in
    elim (Option-cases (get_spec scope key s)) [
      | inl missing ↦ rw (missing, explain_spec) refl
      | inr (spec, found) ↦ rw (found, explain_spec) (observed-setup now scope key _ _ "" s)
    ]

store_tool-setup :
    (t : StoreTool) (clock : Clock) (params : Params) (s : MemoryStore)
    → is_low_store t ≡ true
    → setup (run_store_tool t clock params s).1 ≡ setup s
unfolding run_store_tool simulate_policy explain_backup_policy reconcile_all_specs
store_tool-setup StoreTool.spec_explain clock params s h = explain-setup (clock 0) _ _ s
store_tool-setup StoreTool.spec_reconcile clock params s h = reconcile-setup (clock 0) _ _ _ s
store_tool-setup StoreTool.spec_reconcile_all clock params s h =
    reconcile_scopes-setup clock _ scopes 0 s
store_tool-setup StoreTool.policy_simulate_backup clock params s h = ground arith
store_tool-setup StoreTool.blueprint_list clock params s h = refl
store_tool-setup StoreTool.blueprint_plan clock params s h = refl
store_tool-setup StoreTool.blueprint_verify clock params s h = refl
store_tool-setup other clock params s h = cc

module _ {W : Type 0} (services : Services W) where
  -- The cluster, the policy mode, the backup policies and targets, the deployed blueprints, the
  -- queue, and the place of the control plane.
  abbrev pub service_setup : MemoryStore × Runtime W → Setup × Manager
  service_setup (s, r) = (setup s, r.manager)

  service_tool-setup :
      (t : ServiceTool) (clock : Clock) (params : Params) (s : MemoryStore) (r : Runtime W)
      → is_low_service t ≡ true
      → let (o, s', r') = run_service_tool services t clock params s r in
        service_setup (s', r') ≡ service_setup (s, r)
  unfolding run_service_tool
  service_tool-setup ServiceTool.get_state clock params s r h = refl
  service_tool-setup ServiceTool.get_all clock params s r h = refl
  service_tool-setup ServiceTool.connectivity_status clock params s r h = ground arith
  service_tool-setup ServiceTool.wireguard_status clock params s r h = ground arith
  service_tool-setup ServiceTool.connection_test clock params s r h = refl
  service_tool-setup ServiceTool.gitops_status clock params s r h = ground arith
  service_tool-setup ServiceTool.breakglass_status clock params s r h = ground arith
  service_tool-setup other clock params s r h = cc

  tool-setup :
      (t : Tool) (clock : Clock) (params : Params) (s : MemoryStore) (r : Runtime W)
      → is_low_tool t ≡ true
      → let (o, s', r') = run_tool services t clock params s r in
        service_setup (s', r') ≡ service_setup (s, r)
  unfolding run_tool
  tool-setup (store_tool t) clock params s r h =
      ap (λ x. (x, r.manager)) (store_tool-setup t clock params s h)
  tool-setup (service_tool t) clock params s r h = service_tool-setup t clock params s r h

  -- A tool whose risk is low leaves the observed cluster, the policy mode, the backup policies and
  -- targets, the deployed blueprints, the queue of tasks and the node of the control plane as they
  -- are, whatever its parameters and whatever it comes to.
  pub low_risk-setup :
      (clock : Clock) (tool : String) (params : Params) (s : MemoryStore) (r : Runtime W)
      → classify tool params ≡ RiskLevel.low
      → let (o, s', r') = execute services clock tool params s r in
        service_setup (s', r') ≡ service_setup (s, r)
  unfolding execute
  low_risk-setup clock tool params s r low = elim (Option-cases (tool_named tool)) [
    | inl unknown ↦ rw (unknown, execute) refl
    | inr (t, known) ↦
        let listed = classify-low tool params low in
        let fit = tool_named-fits tool t known in
        rw (known, execute) (tool-setup t clock params s r (rw listed at fit))
  ]
