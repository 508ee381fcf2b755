-- ===== src/Proxmox/Specs/Laws.antt =====
-- What reconciling specs comes to (backend/internal/proxmox/client.go).
use mathlib.Core.Path.{subst}
use proxmaster.Prelude.Text.{one_of}
use proxmaster.Models.{ResourceSpec}
use proxmaster.Store.Specs.Laws.{get-set_observed, lookup-list_specs}
use proxmaster.Prelude.{
  ◌&&◌, ◌⊎◌, eq_refl, eq_iff, ℕ, suc, String, ◌≡◌, refl, sym, ap, ◌∙◌, ◌==◌, Bool, true, false,
  some, List, [], ◌∷◌, arith, Bool-cases, Option-cases, inl, inr, if◌then◌else◌,
}
use proxmaster.Prelude.Dict.{keys, lookup-one_of}
use proxmaster.Store.{MemoryStore}
use proxmaster.Store.Ledger.{Setup, setup, observed-setup}
use proxmaster.Store.Specs.{get_spec, list_specs, observed_as}
use proxmaster.Mcp.{Clock}
use proxmaster.Proxmox.Drift.{observed_for, drift_of, compute_observed_and_drift}
use proxmaster.Proxmox.Specs.{
  reconcile_spec, reconcile_keys, reconcile_scopes, reconcile_all_specs, scopes,
}

pub reconcile-setup :
    (now : ℕ) (scope key job_id : String) (s : MemoryStore)
    → setup (reconcile_spec now scope key job_id s).1 ≡ setup s
unfolding reconcile_spec
reconcile-setup now scope key job_id s = elim (Option-cases (get_spec scope key s)) [
  | inl missing ↦ rw (missing, reconcile_spec) refl
  | inr (spec, found) ↦ rw (found, reconcile_spec) (observed-setup now scope key _ _ job_id s)
]

reconcile_keys-setup :
    (clock : Clock) (job_id scope : String) (ks : List String) (n : ℕ) (s : MemoryStore)
    → setup (reconcile_keys clock n job_id scope ks s).1 ≡ setup s
unfolding reconcile_keys
reconcile_keys-setup clock job_id scope [] n s = refl
reconcile_keys-setup clock job_id scope (k ∷ ks) n s =
    reconcile_keys-setup clock job_id scope ks (suc n) _
    ∙ reconcile-setup (clock n) scope k job_id s

pub reconcile_scopes-setup :
    (clock : Clock) (job_id : String) (l : List String) (n : ℕ) (s : MemoryStore)
    → setup (reconcile_scopes clock n job_id l s).1 ≡ setup s
unfolding reconcile_scopes
reconcile_scopes-setup clock job_id [] n s = refl
reconcile_scopes-setup clock job_id (scope ∷ l) n s =
    reconcile_scopes-setup clock job_id l _ _
    ∙ reconcile_keys-setup clock job_id scope (keys (list_specs scope s)) n s

-- What a spec is measured against depends on nothing else of the store.
observed_for-setup :
    (scope key : String) (s t : MemoryStore)
    → setup t ≡ setup s
    → observed_for scope key t ≡ observed_for scope key s
unfolding observed_for
observed_for-setup scope key s t e =
    ap
      (λ (x : Setup). observed_for scope key (record s {
        state = x.0;
        policy_mode = x.1;
        backup_policies = x.2;
        backup_targets = x.3;
        blueprint_specs = x.4;
        agent_tasks = x.5;
      }))
      e

-- The spec as it is once it was reconciled at some time, against a cluster as in the store.
abbrev pub reconciled : ℕ → String → String → String → MemoryStore → ResourceSpec → ResourceSpec
reconciled now scope key job_id s spec =
    let d = compute_observed_and_drift scope key spec.desired s in
    observed_as now d.observed d.status job_id spec

reconcile-get :
    (now : ℕ) (scope key job_id : String) (s : MemoryStore) (scope' key' : String)
    (spec : ResourceSpec)
    → get_spec scope key s ≡ some spec
    → get_spec scope' key' (reconcile_spec now scope key job_id s).1 ≡ (
        if (scope == scope') && (key == key')
        then some (reconciled now scope key job_id s spec)
        else get_spec scope' key' s)
unfolding reconcile_spec compute_observed_and_drift
reconcile-get now scope key job_id s scope' key' spec e =
    let d = compute_observed_and_drift scope key spec.desired s in
    rw (e, reconcile_spec)
      (get-set_observed now scope key d.observed d.status job_id s scope' key' spec e)

reconciled-setup :
    (now : ℕ) (scope key job_id : String) (s t : MemoryStore) (spec : ResourceSpec)
    → setup t ≡ setup s
    → reconciled now scope key job_id t spec ≡ reconciled now scope key job_id s spec
unfolding compute_observed_and_drift
reconciled-setup now scope key job_id s t spec e =
    ap (λ o. let d = drift_of spec.desired o in observed_as now d.observed d.status job_id spec)
      (observed_for-setup scope key s t e)

both_true : (a b : Bool) → (a && b) ≡ true → (a ≡ true) × (b ≡ true)
both_true a b h = ground arith

-- What each step keeps, the loops keep.
module _ (job_id : String) (P : MemoryStore → Type 0)
    (step : (now : ℕ) (sc k : String) (t : MemoryStore)
      → P t
      → P (reconcile_spec now sc k job_id t).1)
    (clock : Clock) where
  keys-keep :
      (scope : String) (ks : List String) (n : ℕ) (t : MemoryStore)
      → P t
      → P (reconcile_keys clock n job_id scope ks t).1
  unfolding reconcile_keys
  keys-keep scope [] n t h = h
  keys-keep scope (k ∷ ks) n t h = keys-keep scope ks (suc n) _ (step (clock n) scope k t h)

  scopes-keep :
      (l : List String) (n : ℕ) (t : MemoryStore) → P t → P (reconcile_scopes clock n job_id l t).1
  unfolding reconcile_scopes
  scopes-keep [] n t h = h
  scopes-keep (scope ∷ l) n t h =
      scopes-keep l _ _ (keys-keep scope (keys (list_specs scope t)) n t h)

module _ (job_id scope key : String) (s : MemoryStore) (spec : ResourceSpec) where
  -- The spec was reconciled.
  abbrev pub IsReconciled : MemoryStore → Type 0
  IsReconciled t =
      (now : ℕ) × (get_spec scope key t ≡ some (reconciled now scope key job_id s spec))

  -- The spec is as it was, or reconciled, and the cluster is as it was.
  record IsUnderWay (t : MemoryStore) : Type 0 where
    same : setup t ≡ setup s
    spec_found : (get_spec scope key t ≡ some spec) ⊎ IsReconciled t

  at_own :
      (now : ℕ) (t : MemoryStore) (current : ResourceSpec)
      → setup t ≡ setup s
      → get_spec scope key t ≡ some current
      → get_spec scope key (reconcile_spec now scope key job_id t).1
        ≡ some (reconciled now scope key job_id s current)
  at_own now t current same found =
      let got = reconcile-get now scope key job_id t scope key current found in
      rw (eq_refl scope, eq_refl key) at got
      ∙ ap some (reconciled-setup now scope key job_id s t current same)

  step-IsReconciled :
      (now : ℕ) (t : MemoryStore)
      → IsUnderWay t
      → IsReconciled (reconcile_spec now scope key job_id t).1
  step-IsReconciled now t h = elim h.spec_found [
    | inl waits ↦ (now, at_own now t spec h.same waits)
    | inr (before, done) ↦
        (now, at_own now t (reconciled before scope key job_id s spec) h.same done)
  ]

  own_key : (k : String) → (key == k) ≡ true → ((scope == scope) && (k == key)) ≡ true
  own_key k here =
      let back = (eq_iff k key).1 (sym ((eq_iff key k).0 here)) in rw (eq_refl scope, back) refl

  -- A step for another spec, or for none, leaves this one.
  at_other :
      (now : ℕ) (sc k : String) (t : MemoryStore)
      → ((sc == scope) && (k == key)) ≡ false
      → get_spec scope key (reconcile_spec now sc k job_id t).1 ≡ get_spec scope key t
  unfolding reconcile_spec
  at_other now sc k t other = elim (Option-cases (get_spec sc k t)) [
    | inl missing ↦ rw (missing, reconcile_spec) refl
    | inr (found, e) ↦ rw other at (reconcile-get now sc k job_id t scope key found e)
  ]

  own-IsReconciled :
      (now : ℕ) (sc k : String) (t : MemoryStore)
      → ((sc == scope) && (k == key)) ≡ true
      → IsUnderWay t
      → IsReconciled (reconcile_spec now sc k job_id t).1
  own-IsReconciled now sc k t own h =
      let both = both_true (sc == scope) (k == key) own in
      subst (λ c. IsReconciled (reconcile_spec now c k job_id t).1)
        (sym ((eq_iff sc scope).0 both.0))
        (subst (λ c. IsReconciled (reconcile_spec now scope c job_id t).1)
          (sym ((eq_iff k key).0 both.1)) (step-IsReconciled now t h))

  step-IsUnderWay :
      (now : ℕ) (sc k : String) (t : MemoryStore)
      → IsUnderWay t
      → IsUnderWay (reconcile_spec now sc k job_id t).1
  step-IsUnderWay now sc k t h = record {
    same = reconcile-setup now sc k job_id t ∙ h.same;
    spec_found = elim (Bool-cases ((sc == scope) && (k == key))) [
      | inl own ↦ inr (own-IsReconciled now sc k t own h)
      | inr other ↦
          let unchanged = at_other now sc k t other in
          elim h.spec_found [
            | inl waits ↦ inl (unchanged ∙ waits)
            | inr (before, done) ↦ inr (before, unchanged ∙ done)
          ]
    ];
  }

  -- The spec is reconciled, and the cluster is as it was.
  record IsDone (t : MemoryStore) : Type 0 where
    same : setup t ≡ setup s
    done : IsReconciled t

  step-IsDone :
      (now : ℕ) (sc k : String) (t : MemoryStore)
      → IsDone t
      → IsDone (reconcile_spec now sc k job_id t).1
  step-IsDone now sc k t h = record {
    same = reconcile-setup now sc k job_id t ∙ h.same;
    done = elim (Bool-cases ((sc == scope) && (k == key))) [
      | inl own ↦
          own-IsReconciled now sc k t own (record { same = h.same; spec_found = inr h.done })
      | inr other ↦ (h.done.0, at_other now sc k t other ∙ h.done.1)
    ];
  }

  keys-IsDone :
      (clock : Clock) (ks : List String) (n : ℕ) (t : MemoryStore)
      → IsUnderWay t
      → one_of key ks ≡ true
      → IsDone (reconcile_keys clock n job_id scope ks t).1
  unfolding reconcile_keys
  keys-IsDone clock [] n t h m = cc
  keys-IsDone clock (k ∷ ks) n t h m =
      let t' = (reconcile_spec (clock n) scope k job_id t).1 in
      elim (Bool-cases (key == k)) [
        | inl here ↦
            let own = own_key k here in
            keys-keep job_id IsDone step-IsDone clock scope ks (suc n) t' (record {
              same = reconcile-setup (clock n) scope k job_id t ∙ h.same;
              done = own-IsReconciled (clock n) scope k t own h;
            })
        | inr there ↦
            keys-IsDone clock ks (suc n) t' (step-IsUnderWay (clock n) scope k t h) (rw there at m)
      ]

  is_listed : (t : MemoryStore) → IsUnderWay t → one_of key (keys (list_specs scope t)) ≡ true
  is_listed t h = elim h.spec_found [
    | inl waits ↦ lookup-one_of key _ _ (lookup-list_specs scope key t ∙ waits)
    | inr (before, done) ↦ lookup-one_of key _ _ (lookup-list_specs scope key t ∙ done)
  ]

  scopes-IsDone :
      (clock : Clock) (l : List String) (n : ℕ) (t : MemoryStore)
      → IsUnderWay t
      → one_of scope l ≡ true
      → IsDone (reconcile_scopes clock n job_id l t).1
  unfolding reconcile_scopes
  scopes-IsDone clock [] n t h m = cc
  scopes-IsDone clock (sc ∷ l) n t h m = elim (Bool-cases (scope == sc)) [
    | inl here ↦ scopes-keep job_id IsDone step-IsDone clock l _ _ (
        subst (λ c. IsDone (reconcile_keys clock n job_id c (keys (list_specs c t)) t).1)
          ((eq_iff scope sc).0 here)
          (keys-IsDone clock (keys (list_specs scope t)) n t h (is_listed t h)))
    | inr there ↦
        scopes-IsDone clock l _ _
          (keys-keep job_id IsUnderWay step-IsUnderWay clock sc (keys (list_specs sc t)) n t h)
          (rw there at m)
  ]

-- Reconciling all specs reaches every spec of the six scopes, whatever the order in which the maps
-- are visited: each comes to be measured against the cluster as it was before, under the
-- reconciling job, with its desired state and version kept; and the cluster, the policy mode, the
-- backup policies and targets, the blueprints and the tasks stay as they were.
pub reconcile_all-IsReconciled :
    (clock : Clock) (job_id scope key : String) (s : MemoryStore) (spec : ResourceSpec)
    → one_of scope scopes ≡ true
    → get_spec scope key s ≡ some spec
    → let (res, t) = reconcile_all_specs clock job_id s in
      IsReconciled job_id scope key s spec t × (setup t ≡ setup s)
unfolding reconcile_all_specs
reconcile_all-IsReconciled clock job_id scope key s spec m found =
    let h =
      scopes-IsDone job_id scope key s spec clock scopes 0 s
        (record { same = refl; spec_found = inl found }) m in
    (h.done, h.same)
