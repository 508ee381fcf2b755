-- ===== src/Proxmox/Blueprints.antt =====
-- Blueprints of services: plan, deployment, verification, update and rollback
-- (backend/internal/proxmox/client.go). Running a program is an argument, over the state of what
-- lies outside.
use proxmaster.Prelude.{
  ℕ, String, ◌<>◌, ◌==◌, Bool, true, false, not, Option, none, some, List, [], ◌∷◌, ◌++◌, is_empty,
  if◌then◌else◌,
}
use proxmaster.Prelude.Text.{default_text, trim_space}
use proxmaster.Models.{
  Params, Value, null, bool, str, get, as_string, map_value, BlueprintDefinition,
  ServiceBlueprintSpec,
}
use proxmaster.Models.Json.{array, texts, blueprint_value, blueprint_spec_fields}
use proxmaster.Proxmoxapi.{Answer, got, failed}
use proxmaster.Store.{MemoryStore}
use proxmaster.Store.Specs.{get_blueprint, list_blueprints, list_blueprint_specs, upsert_blueprint}
use proxmaster.Mcp.{Result, ok, err}
use proxmaster.Proxmox.Drift.{value_at}
use proxmaster.Proxmox.Workloads.{
  Created, vm_created, lxc_created, not_created, created_fields, make_vm, make_lxc, make_clone,
}

abbrev pub or_empty : Option String → String
or_empty none = ""
or_empty (some s) = s

-- `stringFrom(params[key])`
abbrev pub text_at : String → Params → String
text_at key params = or_empty (as_string (get key params))

-- The programs of the host: where one is found, the environment's variables, and a run with what it
-- prints and the error that it ends with.
pub record Programs (W : Type 0) : Type 0 where
  pub look_path : String → Option String
  pub env : String → String
  pub run : String → List String → W → (String × Option String) × W

unfoldable pub list_all : MemoryStore → Result
list_all s = ok (
    ("changed", bool false)
    ∷ ("catalog", array blueprint_value (list_blueprints s))
    ∷ ("deployed_specs", array (λ b. map_value (blueprint_spec_fields b)) (list_blueprint_specs s))
    ∷ [])

-- The blueprint that the parameters name.
unfoldable pub find_blueprint : Params → MemoryStore → Answer BlueprintDefinition
find_blueprint params s =
    if text_at "name" params == ""
    then failed "missing blueprint name"
    else elim (get_blueprint (text_at "name" params) s) [
      | none ↦ failed "blueprint not found"
      | some bp ↦ got bp
    ]

abbrev steps : List String
steps =
    "provision workload via template+cloud-init" ∷ "run ansible roles" ∷ "health verify"
    ∷ "bind backup policy" ∷ []

abbrev pub target_node : Params → String
target_node params = default_text "node-1" (text_at "node_id" params)

abbrev plan_fields : Params → BlueprintDefinition → Params
plan_fields params bp =
    ("changed", bool false)
    ∷ (
      "plan",
      map_value (
          ("blueprint", blueprint_value bp)
          ∷ ("target_node", str (target_node params))
          ∷ ("provision_kind", str bp.provision_kind)
          ∷ ("steps", texts steps)
          ∷ ("rollback", texts bp.rollback_steps)
          ∷ ("ansible_check", str "planned")
          ∷ []),
    )
    ∷ []

abbrev on_blueprint : (BlueprintDefinition → Params) → Answer BlueprintDefinition → Result
on_blueprint report (failed e) = err e
on_blueprint report (got bp) = ok (report bp)

unfoldable pub plan_blueprint : Params → MemoryStore → Result
plan_blueprint params s = on_blueprint (plan_fields params) (find_blueprint params s)

unfoldable pub verify_blueprint : Params → MemoryStore → Result
verify_blueprint params s =
    on_blueprint
      (λ bp.
        ("changed", bool false)
        ∷ ("name", str (text_at "name" params))
        ∷ ("checks", texts bp.health_checks)
        ∷ ("status", str "healthy")
        ∷ [])
      (find_blueprint params s)

abbrev updated : Result → Result
updated (err e) = err e
updated (ok plan) = ok (
    ("changed", bool true) ∷ ("status", str "update_started") ∷ ("plan", value_at "plan" plan) ∷ [])

unfoldable pub update_blueprint : Params → MemoryStore → Result
update_blueprint params s = updated (plan_blueprint params s)

unfoldable pub rollback_blueprint : Params → MemoryStore → Result
rollback_blueprint params s =
    on_blueprint
      (λ bp.
        ("changed", bool true)
        ∷ ("name", str (text_at "name" params))
        ∷ ("status", str "rollback_started")
        ∷ ("steps", texts bp.rollback_steps)
        ∷ [])
      (find_blueprint params s)

abbrev join_commas : List String → String
join_commas [] = ""
join_commas (s ∷ []) = s
join_commas (s ∷ t ∷ l) = s <> "," <> join_commas (t ∷ l)

abbrev skipped : String → Params
skipped reason = ("status", str "skipped") ∷ ("reason", str reason) ∷ []

abbrev playbook_of : (String → String) → String
playbook_of env =
    let playbook = env "PROXMASTER_ANSIBLE_PLAYBOOK" in
    if trim_space playbook == "" then "site.yml" else playbook

abbrev inventory_args : (String → String) → List String
inventory_args env =
    let inventory = env "PROXMASTER_ANSIBLE_INVENTORY" in
    if not (trim_space inventory == "") then "-i" ∷ inventory ∷ [] else []

unfoldable pub ansible_args :
    (String → String) → BlueprintDefinition → ServiceBlueprintSpec → Bool → List String
ansible_args env bp spec check_mode =
    playbook_of env
    ∷ (inventory_args env
        ++ ((if check_mode then "--check" ∷ [] else [])
            ++ "-e"
              ∷ ("roles=" <> join_commas bp.ansible_roles)
              ∷ "-e"
              ∷ ("blueprint_name=" <> bp.name)
              ∷ "-e"
              ∷ ("workload_name=" <> spec.workload.name)
              ∷ []))

-- `errString`
abbrev error_text : Option String → String
error_text none = ""
error_text (some e) = e

abbrev ansible_status : Option String → String
ansible_status none = "ok"
ansible_status (some e) = "failed"

abbrev ansible_report : Bool → List String → String × Option String → Params
ansible_report check_mode command (output, error) =
    ("status", str (ansible_status error))
    ∷ ("check_mode", bool check_mode)
    ∷ ("command", texts command)
    ∷ ("output", str output)
    ∷ ("error", str (error_text error))
    ∷ []

-- The type assertion on "vm", then the one on "lxc".
abbrev created_id : Created → String
created_id (vm_created v) = v.id
created_id (lxc_created v) = v.id
created_id (not_created e) = ""

abbrev deployed_spec :
    Params → String → String → BlueprintDefinition → Created → ServiceBlueprintSpec
deployed_spec params name workload_name bp created = record {
  name = name;
  version = bp.version;
  workload = record {
    id = created_id created;
    name = workload_name;
    kind = bp.provision_kind;
    node_id = target_node params;
    cpu = bp.default_cpu;
    memory_mb = bp.default_mem_mb;
    disk_gb = bp.default_disk_gb;
    desired_power = "running";
    template_id = "";
    cloud_init = [];
    tags = [];
  };
  parameters = params;
}

-- An error gives a nil map, which JSON has as null.
abbrev or_null : Result → Value
or_null (err e) = null
or_null (ok out) = map_value out

unfoldable pub provision :
    ℕ → Params → String → BlueprintDefinition → MemoryStore → Created × MemoryStore
provision now params workload_name bp s =
    let template_id = text_at "template_id" params in
    let node_id = target_node params in
    if not (template_id == "")
    then make_clone now template_id "" node_id workload_name s
    else if bp.provision_kind == "lxc"
    then make_lxc now workload_name node_id bp.default_cpu bp.default_mem_mb bp.default_disk_gb s
    else make_vm now workload_name node_id bp.default_cpu bp.default_mem_mb bp.default_disk_gb s

module _ {W : Type 0} (programs : Programs W) where
  open programs use {look_path, env, run}

  unfoldable pub run_ansible_roles :
      BlueprintDefinition → ServiceBlueprintSpec → Bool → W → Params × W
  run_ansible_roles bp spec check_mode w =
      if is_empty bp.ansible_roles
      then (skipped "no ansible roles configured", w)
      else elim (look_path "ansible-playbook") [
        | none ↦ (skipped "ansible-playbook not found", w)
        | some path ↦
            let args = ansible_args env bp spec check_mode in
            let (result, w') = run path args w in
            (ansible_report check_mode (path ∷ args) result, w')
      ]

  abbrev pub deployed :
      Params
      → String
      → String
      → BlueprintDefinition
      → Created × MemoryStore
      → W
      → Result × MemoryStore × W
  deployed params name workload_name bp (not_created e, s) w = (err e, s, w)
  deployed params name workload_name bp (created, s) w =
      let (spec, s') = upsert_blueprint (deployed_spec params name workload_name bp created) s in
      let (check, w₁) = run_ansible_roles bp spec true w in
      let (apply, w₂) = run_ansible_roles bp spec false w₁ in
      let verify = verify_blueprint (("name", str name) ∷ []) s' in
      (
        ok (
            ("changed", bool true)
            ∷ ("blueprint", map_value (blueprint_spec_fields spec))
            ∷ ("provision", map_value (created_fields created))
            ∷ ("ansible_check", map_value check)
            ∷ ("ansible_apply", map_value apply)
            ∷ ("verify", or_null verify)
            ∷ ("health_status", str "pending")
            ∷ ("drift_delta", map_value (("blueprint", str name) ∷ ("status", str "deployed") ∷ []))
            ∷ []),
        s',
        w₂,
      )

  abbrev pub deploy_found :
      ℕ → Params → Answer BlueprintDefinition → MemoryStore → W → Result × MemoryStore × W
  deploy_found now params (failed e) s w = (err e, s, w)
  deploy_found now params (got bp) s w =
      let name = text_at "name" params in
      let workload_name = default_text ("svc-" <> name) (text_at "workload_name" params) in
      deployed params name workload_name bp (provision now params workload_name bp s) w

  unfoldable pub deploy_blueprint : ℕ → Params → MemoryStore → W → Result × MemoryStore × W
  deploy_blueprint now params s w = deploy_found now params (find_blueprint params s) s w
