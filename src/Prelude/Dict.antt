-- ===== src/Prelude/Dict.antt =====
-- Go's maps with string keys, as association lists. A write replaces the entry of its key, or adds
-- one at the end. The order of the entries stands for the order in which a `range` statement
-- visits them, which Go leaves open: a theorem about all dictionaries is one about all orders.
use Prim.Native.String.{String}
use text.Mathlib.Text.{◌==◌}
use mathlib.Core.Path.{◌≡◌, refl, sym, ap, ◌∙◌, subst}
use mathlib.Core.Option.{some-injective}
use mathlib.Core.Bool.{true}
use mathlib.Core.Logic.{◌≢◌, ◌↔◌, inl, inr}
use text.Mathlib.TextEquality.{eq_iff}
use mathlib.Core.Option.{Option, none, some}
use mathlib.Core.List.{List, [], ◌∷◌}
use native.Mathlib.Omega.{arith}
use text.Mathlib.TextPositions.{eq_refl}
use proxmaster.Prelude.Tests.{if◌then◌else◌, Bool-cases}
use proxmaster.Prelude.Lists.{All}
use proxmaster.Prelude.Text.{one_of}

abbrev pub Dict {ℓ} : Type ℓ → Type ℓ
Dict A = List (String × A)

module _ {ℓ} {A : Type ℓ} where
  -- a, ok := m[key]
  unfoldable pub lookup : String → Dict A → Option A
  lookup key [] = none
  lookup key ((name, a) ∷ rest) = if name == key then some a else lookup key rest

  -- m[key] = a
  unfoldable pub insert : String → A → Dict A → Dict A
  insert key a [] = (key, a) ∷ []
  insert key a ((name, old) ∷ rest) =
      if name == key then (name, a) ∷ rest else (name, old) ∷ insert key a rest

  abbrev pub keys : Dict A → List String
  keys [] = []
  keys ((name, a) ∷ rest) = name ∷ keys rest

  abbrev pub values : Dict A → List A
  values [] = []
  values ((name, a) ∷ rest) = a ∷ values rest

  pub lookup-insert_self :
      (key : String) (a : A) (m : Dict A) → lookup key (insert key a m) ≡ some a
  unfolding lookup insert
  lookup-insert_self key a [] = rw (eq_refl key) refl
  lookup-insert_self key a ((name, old) ∷ rest) = elim (Bool-cases (name == key)) [
    | inl same ↦ rw (same, lookup) (rw (same, lookup) refl)
    | inr other ↦ rw (other, lookup) (rw (other, lookup) (lookup-insert_self key a rest))
  ]

  pub lookup-insert_ne :
      (key other : String) (a : A) (m : Dict A)
      → key ≢ other
      → lookup other (insert key a m) ≡ lookup other m
  unfolding lookup insert
  lookup-insert_ne key other a [] ne = ground (arith, eq_iff key other)
  lookup-insert_ne key other a ((name, old) ∷ rest) ne =
      ground (arith, eq_iff name key, eq_iff name other, lookup-insert_ne key other a rest ne)

  -- Both laws at once, by the test of the keys.
  pub lookup-insert :
      (key other : String) (a : A) (m : Dict A)
      → lookup other (insert key a m) ≡ (if key == other then some a else lookup other m)
  lookup-insert key other a m = elim (Bool-cases (key == other)) [
    | inl same ↦ rw same (
        ap (λ k. lookup k (insert key a m)) (sym ((eq_iff key other).0 same))
        ∙ lookup-insert_self key a m)
    | inr differ ↦
        rw differ (lookup-insert_ne key other a m (λ e. let same = (eq_iff key other).1 e in cc))
  ]

module _ {ℓ κ} {V : Type ℓ} (P : V → Type κ) where
  pub All-insert :
      (k : String) (v : V) (m : Dict V) → P v → All P (values m) → All P (values (insert k v m))
  unfolding insert
  All-insert k v [] h a = (h, tt)
  All-insert k v ((j, w) ∷ m) h a = elim (Bool-cases (j == k)) [
    | inl same ↦ rw same (h, a.1)
    | inr other ↦ rw other (a.0, All-insert k v m h a.1)
  ]

  pub All-lookup : (k : String) (m : Dict V) {v : V} → lookup k m ≡ some v → All P (values m) → P v
  unfolding lookup
  All-lookup k [] e a = cc
  All-lookup k ((j, w) ∷ m) {v} e a = elim (Bool-cases (j == k)) [
    | inl same ↦
        let e' : some w ≡ some v = rw (same, lookup) at e in subst P (some-injective _ _ e') a.0
    | inr other ↦ All-lookup k m (rw (other, lookup) at e) a.1
  ]

module _ {ℓ} {V : Type ℓ} (P : String → Type 0) where
  -- A predicate holds at every key exactly when it holds of whatever can be looked up.
  pub All-keys : (m : Dict V) → All P (keys m) ↔ ((k : String) (v : V) → lookup k m ≡ some v → P k)
  unfolding lookup
  All-keys [] = (λ h k v e. cc, λ h. tt)
  All-keys ((j, w) ∷ m) =
      let rest = All-keys m in
      (
        λ h k v e. elim (Bool-cases (j == k)) [
          | inl same ↦ subst P ((eq_iff j k).0 same) h.0
          | inr other ↦ rest.0 h.1 k v (rw (other, lookup) at e)
        ],
        λ h. (h j w (rw (eq_refl j) refl), rest.1 (λ k v e. at_tail h k v e)),
      )
    where
      at_tail :
          ((k : String) (v : V) → lookup k ((j, w) ∷ m) ≡ some v → P k)
          → (k : String) (v : V) → lookup k m ≡ some v
          → P k
      at_tail h k v e = elim (Bool-cases (j == k)) [
        | inl same ↦ h k w (rw (same, lookup) refl)
        | inr other ↦ h k v (rw (other, lookup) e)
      ]

module _ {ℓ} {V : Type ℓ} where
  -- What can be looked up has its key among the keys.
  pub lookup-one_of :
      (k : String) (m : Dict V) (v : V) → lookup k m ≡ some v → one_of k (keys m) ≡ true
  unfolding lookup
  lookup-one_of k [] v e = cc
  lookup-one_of k ((j, w) ∷ m) v e = elim (Bool-cases (k == j)) [
    | inl same ↦ rw same refl
    | inr other ↦ elim (Bool-cases (j == k)) [
      | inl same' ↦ let eq = (eq_iff k j).1 (sym ((eq_iff j k).0 same')) in cc
      | inr other' ↦ rw other (lookup-one_of k m v (rw (other', lookup) at e))
    ]
  ]
