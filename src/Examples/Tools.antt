-- ===== src/Examples/Tools.antt =====
-- The orchestrator and the client on concrete inputs.
use proxmaster.Prelude.{
  ◌==◌, ap, ◌∙◌, if◌then◌else◌, String, ℕ, ◌+◌, ◌≡◌, ◌↔◌, refl, is_empty, true, false, none, some,
  [], ◌∷◌,
}
use proxmaster.Prelude.Int.{pos}
use proxmaster.Prelude.Text.{to_lower}
use proxmaster.Prelude.Dict.{lookup, insert}
use proxmaster.Prelude.Lists.{sort_by, insert_by}
use proxmaster.Models.{Params, str, bool, RiskLevel, DriftStatus, ResourceSpec}
use proxmaster.Risk.{classify}
use proxmaster.Proxmoxapi.{Api, failed}
use proxmaster.Controlplane.{new_manager}
use proxmaster.Store.{MemoryStore}
use proxmaster.Store.Initial.{new_memory_store}
use proxmaster.Store.Specs.{get_spec, zero_spec, upsert_spec}
use proxmaster.Store.Ledger.{setup}
use proxmaster.Autonomy.{new_service, ticks, schedule, work}
use proxmaster.Autonomy.Retries.{QueueIsRetryable}
use proxmaster.Proxmox.Drift.{compute_observed_and_drift, observed_for, agrees}
use proxmaster.Proxmox.Drift.Laws.{Matches, drift-in_sync_iff}
use proxmaster.Proxmox.Specs.{reconcile_all_specs}
use proxmaster.Proxmox.Specs.Laws.{IsReconciled, reconcile_all-IsReconciled}
use proxmaster.Proxmox.Moves.{self_migrate_proxmaster}
use proxmaster.Proxmox.Moves.Laws.{IsHandover, self_migrate-IsHandover}
use proxmaster.Orchestrator.{Services, Runtime, execute, wireguard_payload}
use proxmaster.Orchestrator.Ledger.{Keeps}
use proxmaster.Orchestrator.Executor.{orchestrator, execute-Keeps, orchestrated-IsRetryable}
use proxmaster.Orchestrator.LowRisk.{service_setup, low_risk-setup}
use proxmaster.Orchestrator.Totality.{NoNull, IsAnswered, execute-IsAnswered}
use proxmaster.Orchestrator.Aliases.{IsMediumName, medium_names}
use proxmaster.Store.Ledger.{HasPools}
use proxmaster.Gitops
use proxmaster.Breakglass
use proxmaster.Runner
use proxmaster.Examples.Queue.{starts_empty}
use proxmaster.Examples.{clock, store, gate}

-- An API that is not there, and a node that does not answer; the outside counts the requests.
abbrev api : Api ℕ
api = record {
  enabled = false;
  ping = λ n. (some "disabled", n);
  cluster_resources = λ kind n. (failed "disabled", n);
  storage_list = λ n. (failed "disabled", n);
  migrate_qemu_vm = λ source vm target live n. (some "disabled", n);
}

-- The bodies that the nodes of these examples may answer with, and null.
abbrev decode : String → Runner.Decoded
decode body =
    if body == "null"
    then Runner.Decoded.null_map
    else if body == "{}"
    then Runner.Decoded.fields_of []
    else Runner.Decoded.malformed "unexpected end of JSON input"

abbrev pub services : Services ℕ
services = record {
  api = api;
  programs = record {
    look_path = λ name. none;
    env = λ name. "";
    run = λ path args n. (("", none), n);
  };
  host = record {
    exec = λ name args n. (record { stdout = name; combined = name; failed = false }, n + 1);
    http_get = λ url n. (Gitops.Reply.answered 200, n);
  };
  shell = λ cmd. Breakglass.Exit.success;
  mac = λ secret payload. secret;
  network = record {
    encode = λ req. req.command;
    decode = decode;
    post = λ message n. (Runner.Reply.answered 200 "{}", n + 1);
  };
  runner = Runner.new_controller (λ name. "");
  rfc3339 = λ n. "2023-11-14T22:13:20Z";
  connectivity = none;
  wireguard = none;
}

abbrev pub runtime : Runtime ℕ
runtime = record {
  manager = new_manager (record {
    mode = "vip";
    vip = "10.0.0.10";
    dns_name = "";
    api_port = pos 8080;
    initial_node = "node-1";
  });
  gitops = none;
  breakglass = none;
  outside = 0;
}

abbrev spec_params : Params
spec_params = ("scope", str "cluster") ∷ []

execute-Keeps_example :
    Keeps store (execute services clock "workload.spec.apply" spec_params store runtime).1
execute-Keeps_example = execute-Keeps services clock "workload.spec.apply" spec_params store runtime

orchestrated-IsRetryable_example :
    QueueIsRetryable
      (ticks
        (orchestrator services)
        gate
        (schedule clock ∷ work clock ∷ [])
        (new_service (pos 5), store, runtime)).1
orchestrated-IsRetryable_example =
    orchestrated-IsRetryable services gate (schedule clock ∷ work clock ∷ []) (new_service (pos 5))
      store runtime starts_empty

explain_is_low : classify "workload.spec.explain" spec_params ≡ RiskLevel.low
unfolding classify to_lower
explain_is_low = refl

low_risk-setup_example :
    let (o, s, r) = execute services clock "workload.spec.explain" spec_params store runtime in
    service_setup services (s, r) ≡ service_setup services (store, runtime)
low_risk-setup_example =
    low_risk-setup services clock "workload.spec.explain" spec_params store runtime explain_is_low

some_pools : HasPools store
unfolding new_memory_store
some_pools = refl

abbrev body_of : Runner.Reply → String
body_of (Runner.Reply.answered status body) = body
body_of (Runner.Reply.unreachable e) = ""

no_null : NoNull services
no_null message n status body answered is_null =
    let same : "{}" ≡ body = ap body_of answered in
    let e : Runner.Decoded.fields_of [] ≡ Runner.Decoded.null_map = ap decode same ∙ is_null in cc

abbrev exec_params : Params
exec_params = ("node_id", str "node-1") ∷ ("command", str "diagnostics_ping") ∷ []

execute-IsAnswered_example :
    let (o, s, r) = execute services clock "node.runner.exec" exec_params store runtime in
    IsAnswered o × HasPools s
execute-IsAnswered_example =
    execute-IsAnswered services clock "node.runner.exec" exec_params store runtime some_pools
      no_null

medium_names_example :
    IsMediumName services "updates.rollout_pause" spec_params "updates.rollout_continue" spec_params
    × IsMediumName services "service.wireguard.vm.deploy" spec_params "blueprint.deploy"
        (wireguard_payload spec_params)
medium_names_example = medium_names services spec_params

abbrev desired : Params
desired = ("ha_enabled", bool true) ∷ []

drift-in_sync_iff_example :
    let d = compute_observed_and_drift "cluster" "default" desired store in
    ((d.status ≡ DriftStatus.in_sync)
      ↔ ((is_empty desired ≡ false) × Matches desired (observed_for "cluster" "default" store)))
    × ((d.status ≡ DriftStatus.pending) ↔ (is_empty desired ≡ true))
drift-in_sync_iff_example = drift-in_sync_iff "cluster" "default" desired store

self_migrate-IsHandover_example :
    let (res, t, m, w) =
      self_migrate_proxmaster api clock "" "node-2" true store runtime.manager 0 in
    IsHandover "100" "node-2" store runtime.manager res t m
self_migrate-IsHandover_example =
    self_migrate-IsHandover api clock "" "node-2" true store runtime.manager 0

abbrev specified : MemoryStore
specified = (upsert_spec 5 "cluster" "main" desired store).1

abbrev wanted : ResourceSpec
wanted = record zero_spec {
  desired = desired;
  spec_version = pos 1;
  drift_status = DriftStatus.pending;
  updated_at = 5;
}

wanted_found : get_spec "cluster" "main" specified ≡ some wanted
unfolding get_spec upsert_spec new_memory_store lookup insert
wanted_found = refl

reconcile_all-IsReconciled_example :
    let (res, t) = reconcile_all_specs clock "task-000007" specified in
    IsReconciled "task-000007" "cluster" "main" specified wanted t × (setup t ≡ setup specified)
reconcile_all-IsReconciled_example =
    reconcile_all-IsReconciled clock "task-000007" "cluster" "main" specified wanted refl
      wanted_found

-- The specs that the reconciliation measures: one in sync, one that is not.
in_sync_run :
    (compute_observed_and_drift "cluster" "main" desired store).status ≡ DriftStatus.in_sync
unfolding compute_observed_and_drift new_memory_store lookup sort_by insert_by agrees
in_sync_run = refl
