-- ===== src/Prelude/Sorting.antt =====
-- Sorting by a number, the largest first.
use Prim.Native.Nat.{ℕ, ◌≤◌}
use mathlib.Core.Logic.{◌↔◌, inl, inr}
use mathlib.Core.Bool.{Bool}
use mathlib.Core.List.{List, [], ◌∷◌, Perm}
use mathlib.Core.List.Perm
use native.Mathlib.Omega.{arith}
use proxmaster.Prelude.Tests.{ltb, Bool-cases}
use proxmaster.Prelude.Lists.{All, All-map, insert_by, sort_by}

module _ {ℓ} {A : Type ℓ} (less : A → A → Bool) where
  insert_by-Perm : (x : A) (ys : List A) → Perm (insert_by less x ys) (x ∷ ys)
  unfolding insert_by
  insert_by-Perm x [] = Perm.refl (x ∷ [])
  insert_by-Perm x (y ∷ ys) = elim (Bool-cases (less y x)) [
    | inl below ↦
        rw (below, insert_by) (Perm.trans (Perm.cons y (insert_by-Perm x ys)) (Perm.swap x y ys))
    | inr above ↦ rw (above, insert_by) (Perm.refl (x ∷ y ∷ ys))
  ]

  -- A sorted list has the elements of the list, each as often.
  pub sort_by-Perm : (xs : List A) → Perm (sort_by less xs) xs
  unfolding sort_by
  sort_by-Perm [] = Perm.refl []
  sort_by-Perm (x ∷ xs) =
      Perm.trans (insert_by-Perm x (sort_by less xs)) (Perm.cons x (sort_by-Perm xs))

module _ {A : Type 0} (less : A → A → Bool) (P : A → Type 0) where
  insert_by-All : (x : A) (ys : List A) → All P (insert_by less x ys) ↔ (P x × All P ys)
  unfolding insert_by
  insert_by-All x [] = (λ h. (h.0, tt), λ h. (h.0, tt))
  insert_by-All x (y ∷ ys) =
      let rest = insert_by-All x ys in
      elim (Bool-cases (less y x)) [
        | inl below ↦
            rw (below, insert_by)
              (λ h. ((rest.0 h.1).0, (h.0, (rest.0 h.1).1)), λ h. (h.1.0, rest.1 (h.0, h.1.1)))
        | inr above ↦ rw (above, insert_by) (λ h. h, λ h. h)
      ]

  -- A predicate holds at every element of a list and of its sorting alike.
  pub sort_by-All : (xs : List A) → All P (sort_by less xs) ↔ All P xs
  unfolding sort_by
  sort_by-All [] = (λ h. h, λ h. h)
  sort_by-All (x ∷ xs) =
      let here = insert_by-All x (sort_by less xs) in
      let rest = sort_by-All xs in
      (λ h. ((here.0 h).0, rest.0 (here.0 h).1), λ h. here.1 (h.0, rest.1 h.1))

module _ {A : Type 0} (rank : A → ℕ) where
  abbrev pub larger : A → A → Bool
  larger a b = ltb (rank b) (rank a)

  -- No element ranks above an earlier one.
  abbrev pub Descending : List A → Type 0
  Descending [] = Unit
  Descending (x ∷ xs) = All (λ y. rank y ≤ rank x) xs × Descending xs

  All-insert_by :
      (P : A → Type 0) (x : A) (ys : List A) → P x → All P ys → All P (insert_by larger x ys)
  unfolding insert_by
  All-insert_by P x [] px all = (px, tt)
  All-insert_by P x (y ∷ ys) px all = elim (Bool-cases (larger y x)) [
    | inl below ↦ rw (below, insert_by) (all.0, All-insert_by P x ys px all.1)
    | inr above ↦ rw (above, insert_by) (px, all)
  ]

  insert_by-Descending : (x : A) (ys : List A) → Descending ys → Descending (insert_by larger x ys)
  unfolding insert_by
  insert_by-Descending x [] d = (tt, tt)
  insert_by-Descending x (y ∷ ys) d = elim (Bool-cases (larger y x)) [
    | inl below ↦
        rw (below, insert_by)
          (
            All-insert_by (λ z. rank z ≤ rank y) x ys (ground arith) d.0,
            insert_by-Descending x ys d.1,
          )
    | inr above ↦
        let first : rank y ≤ rank x = ground arith in
        rw (above, insert_by) ((first, All-map (λ z h. omega (arith, h, first)) ys d.0), d)
  ]

  pub sort_by-Descending : (xs : List A) → Descending (sort_by larger xs)
  unfolding sort_by
  sort_by-Descending [] = tt
  sort_by-Descending (x ∷ xs) = insert_by-Descending x (sort_by larger xs) (sort_by-Descending xs)
