-- ===== src/Proxmox/Drift.antt =====
-- How far an observed state is from the desired one (backend/internal/proxmox/client.go). Values
-- are compared as the JSON that they make, read back: every number is a `float64` by then. An
-- instant is the same only as an instant, and an empty list is not told from a nil one.
pub mod Laws
use Prim.Native.String.{compare}
use text.Mathlib.Text.{is_lt}
use proxmaster.Prelude.{
  ℕ, zero, suc, ◌+◌, ◌*◌, ◌/◌, ◌%◌, String, ◌==◌, Bool, true, false, not, ◌&&◌, ◌||◌, Option, none,
  some, List, [], ◌∷◌, length, is_empty, ltb, leb, eqb, sort_by, find_first, if◌then◌else◌,
}
use proxmaster.Prelude.Int.{ℤ, pos, negsuc, eqb_ℤ, negated}
use proxmaster.Prelude.Dict.{lookup, keys}
use proxmaster.Models.{
  Params, Value, Items, Fields, null, bool, float64, int, str, time, arr, obj, nil, cons, end,
  field, fields, params_of, map_value, arr, items, Vm, DriftStatus, ServiceBlueprintSpec,
}
use proxmaster.Models.Json.{
  array, pool_value, datastore_value, network_value, policy_value, target_value,
  blueprint_spec_fields,
}
use proxmaster.Store.{MemoryStore}
use proxmaster.Store.Cluster.{cluster_state}
use proxmaster.Store.Backup.{list_backup_policies, list_backup_targets}
use proxmaster.Store.Specs.{list_blueprint_specs}

-- The `float64` nearest to a number below 2 ^ 64: 53 bits are kept, and of two as near the one that
-- is even. `step` is the weight of the last bit kept; twelve doublings reach 64 bits.
abbrev float_limit : ℕ
float_limit = 9007199254740992

abbrev round_up : ℕ → ℕ → ℕ → Bool
round_up q r step = ltb step (2 * r) || (eqb (2 * r) step && eqb (q % 2) 1)

abbrev round_at : ℕ → ℕ → ℕ
round_at step n = let q = n / step in (if round_up q (n % step) step then q + 1 else q) * step

nearest : ℕ → ℕ → ℕ → ℕ
nearest zero step n = n
nearest (suc fuel) step n =
    let rest = nearest fuel (step * 2) n in
    if ltb (n / step) float_limit then round_at step n else rest

unfoldable pub to_float : ℤ → ℤ
unfolding nearest
to_float (pos n) = pos (nearest 12 1 n)
to_float (negsuc n) = negated (nearest 12 1 (n + 1))

-- `json.Marshal` and `json.Unmarshal`, which fail on no value of these.
unfoldable mutual
  unfolding to_float

  pub normalize : Value → Value
  normalize null = null
  normalize (bool b) = bool b
  normalize (str s) = str s
  normalize (time t) = time t
  normalize (int n) = float64 (to_float n)
  normalize (float64 n) = float64 n
  normalize (arr vs) = arr (normalize_items vs)
  normalize (obj m) = obj (normalize_fields m)

  pub normalize_items : Items → Items
  normalize_items nil = nil
  normalize_items (cons v vs) = cons (normalize v) (normalize_items vs)

  pub normalize_fields : Fields → Fields
  normalize_fields end = end
  normalize_fields (field k v m) = field k (normalize v) (normalize_fields m)

abbrev same_bool : Bool → Bool → Bool
same_bool true b = b
same_bool false b = not b

abbrev size : Fields → ℕ
size m = length (params_of m)

-- `reflect.DeepEqual`: maps are alike where they are of one size and every key of the one is a key
-- of the other with a value that is alike.
unfoldable mutual
  pub deep_equal : Value → Value → Bool
  deep_equal null w = elim w [ null ↦ true | _ ↦ false ]
  deep_equal (bool a) w = elim w [ bool b ↦ same_bool a b | _ ↦ false ]
  deep_equal (str s) w = elim w [ str t ↦ s == t | _ ↦ false ]
  deep_equal (int m) w = elim w [ int n ↦ eqb_ℤ m n | _ ↦ false ]
  deep_equal (float64 m) w = elim w [ float64 n ↦ eqb_ℤ m n | _ ↦ false ]
  deep_equal (time t) w = elim w [ time u ↦ eqb t u | _ ↦ false ]
  deep_equal (arr vs) w = elim w [ arr ws ↦ items_equal vs ws | _ ↦ false ]
  deep_equal (obj m) w = elim w [ obj n ↦ eqb (size m) (size n) && fields_equal m n | _ ↦ false ]

  pub items_equal : Items → Items → Bool
  items_equal nil ws = elim ws [ nil ↦ true | _ ↦ false ]
  items_equal (cons v vs) ws = elim ws [
    | nil ↦ false
    | cons w ws' ↦ deep_equal v w && items_equal vs ws'
  ]

  pub fields_equal : Fields → Fields → Bool
  fields_equal end n = true
  fields_equal (field k v m) n =
      elim (lookup k (params_of n)) [ none ↦ false | some w ↦ deep_equal v w ] && fields_equal m n

-- m[key], nil where there is none
abbrev pub value_at : String → Params → Value
value_at k m = elim (lookup k m) [ none ↦ null | some v ↦ v ]

unfoldable pub agrees : Params → Params → String → Bool
unfolding normalize deep_equal
agrees desired observed k =
    deep_equal (normalize (value_at k desired)) (normalize (value_at k observed))

abbrev mismatch : Params → Params → String → Value
mismatch desired observed k =
    map_value
      (("field", str k) ∷ ("desired", value_at k desired) ∷ ("observed", value_at k observed) ∷ [])

abbrev pub mismatches : Params → Params → List String → List Value
mismatches desired observed [] = []
mismatches desired observed (k ∷ ks) =
    let rest = mismatches desired observed ks in
    if agrees desired observed k then rest else mismatch desired observed k ∷ rest

abbrev pub sorted_keys : Params → List String
sorted_keys m = sort_by (λ s t. is_lt (compare s t)) (keys m)

unfoldable pub diff_maps : Params → Params → List Value
diff_maps desired observed = mismatches desired observed (sorted_keys desired)

abbrev observed_vm : Option Vm → Params
observed_vm none = []
observed_vm (some v) =
    ("id", str v.id)
    ∷ ("name", str v.name)
    ∷ ("kind", str v.kind)
    ∷ ("node_id", str v.node_id)
    ∷ ("cpu", int v.cpu)
    ∷ ("memory_mb", int v.memory_mb)
    ∷ ("disk_gb", int v.disk_gb)
    ∷ ("desired_power", str v.power)
    ∷ []

-- `toMap`
abbrev observed_blueprint : Option ServiceBlueprintSpec → Params
observed_blueprint none = []
observed_blueprint (some b) = params_of (normalize_fields (fields (blueprint_spec_fields b)))

unfoldable pub observed_for : String → String → MemoryStore → Params
unfolding cluster_state list_backup_policies list_backup_targets list_blueprint_specs pool_value
    datastore_value network_value policy_value target_value blueprint_spec_fields normalize_fields
observed_for scope key s =
    let state = cluster_state s in
    if scope == "cluster"
    then ("ha_enabled", bool state.ha_enabled)
      ∷ ("nodes_online", int (pos (length state.nodes)))
      ∷ []
    else if scope == "storage"
    then ("pools", array pool_value state.pools)
      ∷ ("datastores", array datastore_value state.datastores)
      ∷ []
    else if scope == "network"
    then ("networks", array network_value state.networks) ∷ []
    else if scope == "backup"
    then ("policies", array policy_value (list_backup_policies s))
      ∷ ("targets", array target_value (list_backup_targets s))
      ∷ []
    else if scope == "workloads"
    then observed_vm (find_first (λ v. v.id == key) state.vms)
    else if scope == "blueprint"
    then observed_blueprint (find_first (λ b. b.name == key) (list_blueprint_specs s))
    else []

-- What the comparison comes to: the observed state, the status, and its report.
pub record Drift : Type 0 where
  pub observed : Params
  pub status : DriftStatus
  pub delta : Params

abbrev drift_report : String → List Value → Params
drift_report summary found = ("summary", str summary) ∷ ("mismatches", arr (items found)) ∷ []

unfoldable pub drift_of : Params → Params → Drift
unfolding diff_maps
drift_of desired observed =
    let delta = diff_maps desired observed in
    if is_empty desired
    then record {
      observed = observed;
      status = DriftStatus.pending;
      delta = drift_report "no desired set" [];
    }
    else if is_empty delta
    then record {
      observed = observed;
      status = DriftStatus.in_sync;
      delta = drift_report "in sync" [];
    }
    else record {
      observed = observed;
      status = DriftStatus.drifted;
      delta = drift_report "drift detected" delta;
    }

unfoldable pub compute_observed_and_drift : String → String → Params → MemoryStore → Drift
unfolding drift_of observed_for
compute_observed_and_drift scope key desired s = drift_of desired (observed_for scope key s)
