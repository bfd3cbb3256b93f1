-- ===== src/Base/Sorting.antt =====
-- `ORDER BY` and `sorted`: a stable insertion sort by a Boolean order, and its laws.
use relationship_os.Base.Tests.{if◌then◌else◌, Bool-cases}
use relationship_os.Base.Lists.{length, take, drop, exists_row, All, All-map, All-take, All-drop}
use Prim.Native.Nat.{ℕ, zero, suc}
use mathlib.Core.Path.{◌≡◌, refl}
use mathlib.Core.Logic.{inl, inr}
use mathlib.Core.Bool.{Bool, true, false}
use mathlib.Core.List.{List, [], ◌∷◌, Perm}
use mathlib.Core.List.Perm
use native.Mathlib.Omega.{arith}

module _ {A : Type 0} (leq : A → A → Bool) where
  -- A row goes before the first one that it may stand before.
  unfoldable pub insert_by : A → List A → List A
  insert_by a [] = a ∷ []
  insert_by a (x ∷ xs) = if leq a x then a ∷ x ∷ xs else x ∷ insert_by a xs

  unfoldable pub sort_by : List A → List A
  unfolding insert_by
  sort_by [] = []
  sort_by (x ∷ xs) = insert_by x (sort_by xs)

  -- Every row may stand before each later one.
  abbrev pub IsSorted : List A → Type 0
  IsSorted [] = Unit
  IsSorted (x ∷ xs) = All (λ y. leq x y ≡ true) xs × IsSorted xs

  -- What a sort needs of its order.
  pub record IsOrder : Type 0 where
    pub total : (a b : A) → leq a b ≡ false → leq b a ≡ true
    pub trans : (a b c : A) → leq a b ≡ true → leq b c ≡ true → leq a c ≡ true

  length-insert_by : (a : A) (xs : List A) → length (insert_by a xs) ≡ suc (length xs)
  unfolding insert_by
  length-insert_by a [] = refl
  length-insert_by a (x ∷ xs) = ground (arith, length-insert_by a xs)

  pub length-sort_by : (xs : List A) → length (sort_by xs) ≡ length xs
  unfolding sort_by
  length-sort_by [] = refl
  length-sort_by (x ∷ xs) = omega (arith, length-insert_by x (sort_by xs), length-sort_by xs)

  pub exists-insert_by :
      (p : A → Bool) (a : A) (xs : List A) → exists_row p (insert_by a xs) ≡ exists_row p (a ∷ xs)
  unfolding insert_by
  exists-insert_by p a [] = refl
  exists-insert_by p a (x ∷ xs) = ground (arith, exists-insert_by p a xs)

  pub exists-sort_by : (p : A → Bool) (xs : List A) → exists_row p (sort_by xs) ≡ exists_row p xs
  unfolding sort_by
  exists-sort_by p [] = refl
  exists-sort_by p (x ∷ xs) = ground (arith, exists-insert_by p x (sort_by xs), exists-sort_by p xs)

  insert_by-perm : (a : A) (xs : List A) → Perm (insert_by a xs) (a ∷ xs)
  unfolding insert_by
  insert_by-perm a [] = Perm.refl _
  insert_by-perm a (x ∷ xs) = elim (Bool-cases (leq a x)) [
    | inl h ↦ rw h (Perm.refl _)
    | inr h ↦ rw h (Perm.trans (Perm.cons x (insert_by-perm a xs)) (Perm.swap a x xs))
  ]

  pub sort_by-perm : (xs : List A) → Perm (sort_by xs) xs
  unfolding sort_by
  sort_by-perm [] = Perm.refl _
  sort_by-perm (x ∷ xs) = Perm.trans (insert_by-perm x (sort_by xs)) (Perm.cons x (sort_by-perm xs))

  All-insert_by {κ} :
      (P : A → Type κ) (a : A) (xs : List A) → P a → All P xs → All P (insert_by a xs)
  unfolding insert_by
  All-insert_by P a [] h hs = (h, tt)
  All-insert_by P a (x ∷ xs) h hs = elim (Bool-cases (leq a x)) [
    | inl e ↦ rw e (h, hs)
    | inr e ↦ rw e (hs.0, All-insert_by P a xs h hs.1)
  ]

  pub All-sort_by {κ} : (P : A → Type κ) (xs : List A) → All P xs → All P (sort_by xs)
  unfolding sort_by
  All-sort_by P [] h = tt
  All-sort_by P (x ∷ xs) h = All-insert_by P x (sort_by xs) h.0 (All-sort_by P xs h.1)

  insert_by-IsSorted : IsOrder → (a : A) (xs : List A) → IsSorted xs → IsSorted (insert_by a xs)
  unfolding insert_by
  insert_by-IsSorted o a [] h = (tt, tt)
  insert_by-IsSorted o a (x ∷ xs) h = elim (Bool-cases (leq a x)) [
    | inl e ↦ rw e ((e, All-map (λ y. o.trans a x y e) xs h.0), h)
    | inr e ↦ rw e (
      All-insert_by (λ y. leq x y ≡ true) a xs (o.total a x e) h.0,
      insert_by-IsSorted o a xs h.1,
    )
  ]

  pub sort_by-IsSorted : IsOrder → (xs : List A) → IsSorted (sort_by xs)
  unfolding sort_by
  sort_by-IsSorted o [] = tt
  sort_by-IsSorted o (x ∷ xs) = insert_by-IsSorted o x (sort_by xs) (sort_by-IsSorted o xs)

  insert_by-head : (a : A) (xs : List A) → All (λ y. leq a y ≡ true) xs → insert_by a xs ≡ a ∷ xs
  unfolding insert_by
  insert_by-head a [] h = refl
  insert_by-head a (x ∷ xs) h = rw h.0

  -- Sorting leaves a sorted list alone.
  pub sort_by_sorted : (xs : List A) → IsSorted xs → sort_by xs ≡ xs
  unfolding sort_by
  sort_by_sorted [] h = refl
  sort_by_sorted (x ∷ xs) h = rw (sort_by_sorted xs h.1) (insert_by-head x xs h.0)

  pub take-IsSorted : (n : ℕ) (xs : List A) → IsSorted xs → IsSorted (take n xs)
  take-IsSorted zero xs h = tt
  take-IsSorted (suc n) [] h = tt
  take-IsSorted (suc n) (x ∷ xs) h = (All-take _ n xs h.0, take-IsSorted n xs h.1)

  -- The first `n` rows of a sorted list may stand before all the others.
  pub take-before-drop :
      (n : ℕ) (xs : List A)
      → IsSorted xs
      → All (λ x. All (λ y. leq x y ≡ true) (drop n xs)) (take n xs)
  take-before-drop zero xs h = tt
  take-before-drop (suc n) [] h = tt
  take-before-drop (suc n) (x ∷ xs) h = (All-drop _ n xs h.0, take-before-drop n xs h.1)
