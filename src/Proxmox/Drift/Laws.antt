-- ===== src/Proxmox/Drift/Laws.antt =====
-- What the status of a spec says (backend/internal/proxmox/client.go).
use mathlib.Core.Path.{subst}
use Prim.Native.String.{compare}
use text.Mathlib.Text.{is_lt}
use proxmaster.Prelude.{
  String, ◌≡◌, refl, sym, ◌∙◌, ◌↔◌, Bool, true, false, some, List, [], ◌∷◌, arith, All, is_empty,
  Bool-cases, inl, inr,
}
use proxmaster.Prelude.Dict.{lookup, keys, All-keys}
use proxmaster.Prelude.Sorting.{sort_by-All}
use proxmaster.Models.{Params, Value, DriftStatus}
use proxmaster.Store.{MemoryStore}
use proxmaster.Proxmox.Drift.{
  normalize, deep_equal, value_at, agrees, mismatches, sorted_keys, diff_maps, drift_of,
  observed_for, compute_observed_and_drift,
}

-- Every wanted field is seen with a value that is alike.
abbrev pub Matches : Params → Params → Type 0
Matches desired observed =
    (k : String) (v : Value)
    → lookup k desired ≡ some v
    → deep_equal (normalize v) (normalize (value_at k observed)) ≡ true

value-found : (k : String) (m : Params) (v : Value) → lookup k m ≡ some v → value_at k m ≡ v
value-found k m v e = rw (e, value_at) refl

module _ (desired observed : Params) where
  mismatches-All :
      (ks : List String)
      → (is_empty (mismatches desired observed ks) ≡ true)
        ↔ All (λ k. agrees desired observed k ≡ true) ks
  mismatches-All [] = (λ h. tt, λ h. refl)
  mismatches-All (k ∷ ks) =
      let rest = mismatches-All ks in
      elim (Bool-cases (agrees desired observed k)) [
        | inl alike ↦ rw alike (λ h. (refl, rest.0 h), λ h. rest.1 h.1)
        | inr differs ↦ rw differs (λ h. cc, λ h. h.0)
      ]

  agrees-Matches :
      ((k : String) (v : Value) → lookup k desired ≡ some v → agrees desired observed k ≡ true)
      ↔ Matches desired observed
  unfolding agrees
  agrees-Matches =
      let alike = λ (k : String) (d : Value).
        deep_equal (normalize d) (normalize (value_at k observed)) ≡ true in
      (
        λ h k v e. subst (alike k) (value-found k desired v e) (h k v e),
        λ h k v e. subst (alike k) (sym (value-found k desired v e)) (h k v e),
      )

  diff_maps-Matches : (is_empty (diff_maps desired observed) ≡ true) ↔ Matches desired observed
  unfolding diff_maps
  diff_maps-Matches =
      let P : String → Type 0 = λ k. agrees desired observed k ≡ true in
      let listed = mismatches-All (sorted_keys desired) in
      let sorted = sort_by-All (λ s t. is_lt (compare s t)) P (keys desired) in
      let found = All-keys P desired in
      (
        λ h. agrees-Matches.0 (found.0 (sorted.0 (listed.0 h))),
        λ h. listed.1 (sorted.1 (found.1 (agrees-Matches.1 h))),
      )

-- The status by the two tests.
status_of : Bool → Bool → DriftStatus
status_of true b = DriftStatus.pending
status_of false true = DriftStatus.in_sync
status_of false false = DriftStatus.drifted

status-in_sync : (a b : Bool) → (status_of a b ≡ DriftStatus.in_sync) ↔ ((a ≡ false) × (b ≡ true))
unfolding status_of
status-in_sync a b = ground arith

status-pending : (a b : Bool) → (status_of a b ≡ DriftStatus.pending) ↔ (a ≡ true)
unfolding status_of
status-pending a b = ground arith

drift_of-status :
    (desired observed : Params)
    → (drift_of desired observed).status
      ≡ status_of (is_empty desired) (is_empty (diff_maps desired observed))
unfolding drift_of status_of
drift_of-status desired observed = ground arith

-- A spec is found in sync exactly when it wants something, and every field that it wants is
-- observed with a value that is alike once both are read back from JSON; it is pending exactly when
-- it wants nothing. The order of the fields plays no part.
pub drift-in_sync_iff :
    (scope key : String) (desired : Params) (s : MemoryStore)
    → let d = compute_observed_and_drift scope key desired s in
      ((d.status ≡ DriftStatus.in_sync)
        ↔ ((is_empty desired ≡ false) × Matches desired (observed_for scope key s)))
      × ((d.status ≡ DriftStatus.pending) ↔ (is_empty desired ≡ true))
unfolding compute_observed_and_drift
drift-in_sync_iff scope key desired s =
    let observed = observed_for scope key s in
    let same = drift_of-status desired observed in
    let a = is_empty desired in
    let b = is_empty (diff_maps desired observed) in
    let sync = status-in_sync a b in
    let wait = status-pending a b in
    let diff = diff_maps-Matches desired observed in
    (
      (
        λ h. let both = sync.0 (sym same ∙ h) in (both.0, diff.0 both.1),
        λ h. same ∙ sync.1 (h.0, diff.1 h.1),
      ),
      (λ h. wait.0 (sym same ∙ h), λ h. same ∙ wait.1 h),
    )
