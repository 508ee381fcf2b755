-- ===== src/Store/Specs/Laws.antt =====
-- What is read of the specs after a write (backend/internal/store/memory.go).
use mathlib.Core.Path.{subst}
use proxmaster.Prelude.{
  ℕ, String, ◌==◌, eq_iff, ◌≡◌, refl, sym, ap, ◌∙◌, ◌&&◌, Option, none, some, arith, Bool-cases,
  Option-cases, inl, inr, if◌then◌else◌,
}
use proxmaster.Prelude.Int.{ℤ, pos, incr}
use proxmaster.Prelude.Text.{default_text}
use proxmaster.Prelude.Dict.{Dict, lookup, insert, lookup-insert}
use proxmaster.Models.{Params, ResourceSpec, DriftStatus}
use proxmaster.Store.{MemoryStore}
use proxmaster.Store.Specs.{
  or_empty, or_zero, upsert_spec, get_spec, list_specs, set_spec_observed, observed_as,
}

-- A spec put into its group.
abbrev put : String → String → ResourceSpec → Dict ResourceSpec → MemoryStore → MemoryStore
put scope key spec group s = record s { specs = insert scope (insert key spec group) s.specs }

get-group :
    (scope key : String) (s : MemoryStore)
    → get_spec scope key s ≡ lookup key (or_empty (lookup scope s.specs))
unfolding get_spec lookup
get-group scope key s = ground arith

get-put :
    (scope key scope' key' : String) (spec : ResourceSpec) (s : MemoryStore)
    → get_spec scope' key' (put scope key spec (or_empty (lookup scope s.specs)) s)
      ≡ (if (scope == scope') && (key == key') then some spec else get_spec scope' key' s)
get-put scope key scope' key' spec s =
    let group = or_empty (lookup scope s.specs) in
    let found =
      get-group scope' key' (put scope key spec group s)
      ∙ ap (λ o. lookup key' (or_empty o))
          (lookup-insert scope scope' (insert key spec group) s.specs) in
    elim (Bool-cases (scope == scope')) [
      | inr other ↦ rw (other, get-group scope' key' s) (rw other at found)
      | inl same ↦
          let here = ap (λ k. lookup key' (or_empty (lookup k s.specs))) ((eq_iff _ _).0 same) in
          rw (same, get-group scope' key' s)
            ((rw same at found)
              ∙ lookup-insert key key' spec group
              ∙ ap (λ o. if key == key' then some spec else o) here)
    ]

-- The version of a spec that may be missing.
abbrev pub version : Option ResourceSpec → ℤ
version none = pos 0
version (some spec) = spec.spec_version

version-or_zero : (o : Option ResourceSpec) → (or_zero o).spec_version ≡ version o
version-or_zero none = refl
version-or_zero (some spec) = refl

-- After a write of a desired state, under the default names where the given ones are empty, its
-- scope and key read the new spec: that state, waiting to be reconciled, one version after the last
-- one. Every other scope and key reads what it did.
pub get-upsert_spec :
    (now : ℕ) (scope key : String) (desired : Params) (s : MemoryStore) (scope' key' : String)
    → let sc = default_text "cluster" scope in
      let k = default_text "default" key in
      let (spec, t) = upsert_spec now scope key desired s in
      (get_spec scope' key' t
        ≡ (if (sc == scope') && (k == key') then some spec else get_spec scope' key' s))
      × (spec.desired ≡ desired)
      × (spec.drift_status ≡ DriftStatus.pending)
      × (spec.spec_version ≡ incr (version (get_spec sc k s)))
unfolding upsert_spec
get-upsert_spec now scope key desired s scope' key' =
    let sc = default_text "cluster" scope in
    let k = default_text "default" key in
    (
      get-put sc k scope' key' _ s,
      refl,
      refl,
      ap incr (
          version-or_zero (lookup k (or_empty (lookup sc s.specs)))
          ∙ ap version (sym (get-group sc k s))),
    )

-- A spec that is measured reads as measured afterwards, and every other spec as it did.
pub get-set_observed :
    (now : ℕ) (scope key : String) (observed : Params) (drift : DriftStatus) (job_id : String)
    (s : MemoryStore) (scope' key' : String) (spec : ResourceSpec)
    → get_spec scope key s ≡ some spec
    → get_spec scope' key' (set_spec_observed now scope key observed drift job_id s).1 ≡ (
        if (scope == scope') && (key == key')
        then some (observed_as now observed drift job_id spec)
        else get_spec scope' key' s)
unfolding set_spec_observed get_spec
get-set_observed now scope key observed drift job_id s scope' key' spec e =
    elim (Option-cases (lookup scope s.specs)) [
      | inl missing ↦ let none_found : none ≡ some spec = rw (missing, get_spec) at e in cc
      | inr (group, found) ↦
          let here : lookup key group ≡ some spec = rw (found, get_spec) at e in
          let put_back : or_empty (lookup scope s.specs) ≡ group = rw found refl in
          let spec' = observed_as now observed drift job_id spec in
          rw (found, here, set_spec_observed)
            (subst
              (λ g. get_spec scope' key' (put scope key spec' g s) ≡ (
                if (scope == scope') && (key == key') then some spec' else get_spec scope' key' s))
              put_back (get-put scope key scope' key' spec' s))
    ]

-- The list of a scope has its specs.
pub lookup-list_specs :
    (scope key : String) (s : MemoryStore) → lookup key (list_specs scope s) ≡ get_spec scope key s
unfolding list_specs
lookup-list_specs scope key s = sym (get-group scope key s)
