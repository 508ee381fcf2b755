-- ===== src/Store/Specs.antt =====
-- Declarative specs and blueprints of the store (backend/internal/store/memory.go).
pub mod Laws
use Prim.Native.String.{compare}
use text.Mathlib.Text.{is_lt}
use proxmaster.Prelude.{
  ℕ, String, ◌==◌, Bool, Option, none, some, List, [], ◌∷◌, sort_by, if◌then◌else◌,
}
use proxmaster.Prelude.Int.{pos, incr}
use proxmaster.Prelude.Text.{default_text}
use proxmaster.Prelude.Dict.{Dict, lookup, insert, values}
use proxmaster.Models.{
  Params, DriftStatus, ResourceSpec, DesiredStateBundle, BlueprintDefinition, ServiceBlueprintSpec,
}
use proxmaster.Store.{MemoryStore}

-- The zero value that a read of a missing key gives.
abbrev pub zero_spec : ResourceSpec
zero_spec = record {
  desired = [];
  observed = [];
  drift_status = DriftStatus.unset;
  last_reconcile_job_id = "";
  spec_version = pos 0;
  updated_at = 0;
}

abbrev or_empty : Option (Dict ResourceSpec) → Dict ResourceSpec
or_empty none = []
or_empty (some group) = group

abbrev or_zero : Option ResourceSpec → ResourceSpec
or_zero none = zero_spec
or_zero (some spec) = spec

abbrev next_version : ℕ → Params → ResourceSpec → ResourceSpec
next_version now desired cur = record cur {
  desired = desired;
  spec_version = incr cur.spec_version;
  drift_status = DriftStatus.pending;
  updated_at = now;
}

unfoldable pub upsert_spec : ℕ → String → String → Params → MemoryStore → ResourceSpec × MemoryStore
upsert_spec now scope_arg key_arg desired s =
    let scope = default_text "cluster" scope_arg in
    let key = default_text "default" key_arg in
    let group = or_empty (lookup scope s.specs) in
    let spec = next_version now desired (or_zero (lookup key group)) in
    (spec, record s { specs = insert scope (insert key spec group) s.specs })

unfoldable pub get_spec : String → String → MemoryStore → Option ResourceSpec
get_spec scope key s = elim (lookup scope s.specs) [ none ↦ none | some group ↦ lookup key group ]

unfoldable pub list_specs : String → MemoryStore → Dict ResourceSpec
list_specs scope s = or_empty (lookup scope s.specs)

abbrev pub observed_as : ℕ → Params → DriftStatus → String → ResourceSpec → ResourceSpec
observed_as now observed drift job_id spec = record spec {
  observed = observed;
  drift_status = drift;
  last_reconcile_job_id = job_id;
  updated_at = now;
}

unfoldable pub set_spec_observed :
    ℕ
    → String
    → String
    → Params
    → DriftStatus
    → String
    → MemoryStore
    → Option ResourceSpec × MemoryStore
set_spec_observed now scope key observed drift job_id s = elim (lookup scope s.specs) [
  | none ↦ (none, s)
  | some group ↦ elim (lookup key group) [
    | none ↦ (none, s)
    | some spec ↦
        let spec' = observed_as now observed drift job_id spec in
        (some spec', record s { specs = insert scope (insert key spec' group) s.specs })
  ]
]

abbrev default_spec : MemoryStore → String → ResourceSpec
default_spec s scope = elim (lookup "default" (or_empty (lookup scope s.specs))) [
  | none ↦ record zero_spec { drift_status = DriftStatus.pending }
  | some spec ↦ spec
]

unfoldable pub desired_state_bundle : MemoryStore → DesiredStateBundle
desired_state_bundle s = record {
  cluster = default_spec s "cluster";
  storage = default_spec s "storage";
  network = default_spec s "network";
  backup = default_spec s "backup";
  workloads = default_spec s "workloads";
  blueprints = default_spec s "blueprint";
}

unfoldable pub list_blueprints : MemoryStore → List BlueprintDefinition
list_blueprints s = sort_by (λ a b. is_lt (compare a.name b.name)) (values s.blueprints)

unfoldable pub get_blueprint : String → MemoryStore → Option BlueprintDefinition
get_blueprint name s = lookup name s.blueprints

unfoldable pub upsert_blueprint :
    ServiceBlueprintSpec → MemoryStore → ServiceBlueprintSpec × MemoryStore
upsert_blueprint spec s =
    let spec' = record spec {
      name = default_text "unnamed-blueprint" spec.name;
      version = default_text "1.0.0" spec.version;
    } in
    (spec', record s { blueprint_specs = insert spec'.name spec' s.blueprint_specs })

unfoldable pub list_blueprint_specs : MemoryStore → List ServiceBlueprintSpec
list_blueprint_specs s = sort_by (λ a b. is_lt (compare a.name b.name)) (values s.blueprint_specs)
