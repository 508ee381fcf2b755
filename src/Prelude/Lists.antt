-- ===== src/Prelude/Lists.antt =====
-- Lists measured by native numbers, under the library's names.
use Prim.Native.Nat.{ℕ, suc, ◌+◌}
use mathlib.Core.Path.{◌≡◌, refl, ap}
use mathlib.Core.Logic.{inl, inr}
use mathlib.Core.Bool.{Bool, true, false}
use proxmaster.Prelude.Tests.{if◌then◌else◌, Bool-cases}
use mathlib.Core.Option.{Option, none, some, some-injective}
use mathlib.Core.List.{Mem, mem-cons_self, mem-cons_of_mem, List, [], ◌∷◌, ◌++◌}
use native.Mathlib.Omega.{arith}

module _ {ℓ} {A : Type ℓ} where
  abbrev pub length : List A → ℕ
  length [] = 0
  length (x ∷ xs) = suc (length xs)

  abbrev pub is_empty : List A → Bool
  is_empty [] = true
  is_empty (x ∷ xs) = false

  -- `xs[len(xs)-1]`, none on the empty list.
  abbrev pub last? : List A → Option A
  last? [] = none
  last? (x ∷ []) = some x
  last? (x ∷ y ∷ ys) = last? (y ∷ ys)

  pub length-append : (xs ys : List A) → length (xs ++ ys) ≡ length xs + length ys
  length-append [] ys = omega arith
  length-append (x ∷ xs) ys = omega (arith, length-append xs ys)

  pub last?-append_one : (xs : List A) (a : A) → last? (xs ++ a ∷ []) ≡ some a
  last?-append_one [] a = refl
  last?-append_one (x ∷ []) a = refl
  last?-append_one (x ∷ y ∷ ys) a = last?-append_one (y ∷ ys) a

module _ {ℓ κ} {A : Type ℓ} where
  -- A predicate at every element.
  abbrev pub All : (A → Type κ) → List A → Type κ
  All P [] = Unit
  All P (x ∷ xs) = P x × All P xs

  pub All-append : (P : A → Type κ) (xs ys : List A) → All P xs → All P ys → All P (xs ++ ys)
  All-append P [] ys h k = k
  All-append P (x ∷ xs) ys h k = (h.0, All-append P xs ys h.1 k)

  pub All-map : {P Q : A → Type κ} (f : (a : A) → P a → Q a) (xs : List A) → All P xs → All Q xs
  All-map f [] h = h
  All-map f (x ∷ xs) h = (f x h.0, All-map f xs h.1)

module _ {ℓ} {A : Type ℓ} where
  -- `for i := range xs { if p(xs[i]) { xs[i] = f(xs[i]); return true } }; return false`
  unfoldable pub update_first : (A → Bool) → (A → A) → List A → Option (List A)
  update_first p f [] = none
  update_first p f (x ∷ xs) =
      let rest = update_first p f xs in
      if p x then some (f x ∷ xs) else elim rest [ none ↦ none | some ys ↦ some (x ∷ ys) ]

  -- The first element that passes the test.
  unfoldable pub find_first : (A → Bool) → List A → Option A
  find_first p [] = none
  find_first p (x ∷ xs) = if p x then some x else find_first p xs

  -- sort.Slice by a strict order. Go leaves the order of elements that are alike open; here they
  -- keep theirs.
  unfoldable pub insert_by : (A → A → Bool) → A → List A → List A
  insert_by less x [] = x ∷ []
  insert_by less x (y ∷ ys) =
      let rest = insert_by less x ys in if less y x then y ∷ rest else x ∷ y ∷ ys

  unfoldable pub sort_by : (A → A → Bool) → List A → List A
  sort_by less [] = []
  sort_by less (x ∷ xs) = insert_by less x (sort_by less xs)

module _ {A : Type 0} where
  pub All-Mem : (xs : List A) → All (λ x. Mem x xs) xs
  All-Mem [] = tt
  All-Mem (x ∷ xs) = (mem-cons_self, All-map (λ y m. mem-cons_of_mem x m) xs (All-Mem xs))

  -- The second list is the first one with its first element that passes the test changed.
  pub record IsUpdate (p : A → Bool) (f : A → A) (xs ys : List A) : Type 0 where
    pub before : List A
    pub old : A
    pub after : List A
    pub was : xs ≡ before ++ old ∷ after
    pub now : ys ≡ before ++ f old ∷ after
    pub passes : p old ≡ true
    pub is_first : All (λ x. p x ≡ false) before

  -- What an update of the first element comes to.
  abbrev pub IsUpdated : (A → Bool) → (A → A) → List A → Option (List A) → Type 0
  IsUpdated p f xs none = All (λ x. p x ≡ false) xs
  IsUpdated p f xs (some ys) = IsUpdate p f xs ys

  skip-IsUpdated :
      (p : A → Bool) (f : A → A) (x : A) (xs : List A) (o : Option (List A))
      → p x ≡ false
      → IsUpdated p f xs o
      → IsUpdated p f (x ∷ xs) (elim o [ none ↦ none | some ys ↦ some (x ∷ ys) ])
  skip-IsUpdated p f x xs none other h = (other, h)
  skip-IsUpdated p f x xs (some ys) other h = record {
    before = x ∷ h.before;
    old = h.old;
    after = h.after;
    was = ap (λ l. x ∷ l) h.was;
    now = ap (λ l. x ∷ l) h.now;
    passes = h.passes;
    is_first = (other, h.is_first);
  }

  pub update_first-IsUpdated :
      (p : A → Bool) (f : A → A) (xs : List A) → IsUpdated p f xs (update_first p f xs)
  unfolding update_first
  update_first-IsUpdated p f [] = tt
  update_first-IsUpdated p f (x ∷ xs) = elim (Bool-cases (p x)) [
    | inl yes_x ↦
        rw (yes_x, update_first)
          (record {
            before = [];
            old = x;
            after = xs;
            was = refl;
            now = refl;
            passes = yes_x;
            is_first = tt;
          })
    | inr no_x ↦
        rw (no_x, update_first)
          (skip-IsUpdated p f x xs (update_first p f xs) no_x (update_first-IsUpdated p f xs))
  ]

  -- Where an element is found first, it is the one that is changed, and it is found first again if
  -- the change does not hide it from the test.
  pub found-update_first :
      (p : A → Bool) (f : A → A) (xs : List A) (a : A)
      → ((x : A) → p x ≡ true → p (f x) ≡ true)
      → find_first p xs ≡ some a
      → (ys : List A) × (update_first p f xs ≡ some ys) × (find_first p ys ≡ some (f a))
  unfolding find_first update_first
  found-update_first p f [] a keeps h = cc
  found-update_first p f (x ∷ xs) a keeps h = elim (Bool-cases (p x)) [
    | inl here ↦
        let same = some-injective x a (rw (here, find_first) at h) in
        (
          f x ∷ xs,
          rw (here, update_first) refl,
          rw (keeps x here, find_first) (ap (λ z. some (f z)) same),
        )
    | inr there ↦
        let (ys, changed, found) =
          found-update_first p f xs a keeps (rw (there, find_first) at h) in
        (x ∷ ys, rw (there, changed, update_first) refl, rw (there, find_first) found)
  ]
