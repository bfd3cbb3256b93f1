-- ===== src/Base/Lists.antt =====
-- Tables as lists of rows: SQL's `where`, `update`, `limit` and `count`, and predicates
-- on every row.
use Prim.Native.Nat.{ℕ, zero, suc, ◌+◌, ◌≤◌, min}
use mathlib.Core.Path.{◌≡◌, refl, ap, ◌∙◌}
use mathlib.Core.Logic.{◌⊎◌, inl, inr}
use mathlib.Core.Bool.{Bool, true, false, ◌||◌}
use mathlib.Core.Option.{Option, none, some}
use mathlib.Core.List.{List, [], ◌∷◌, ◌++◌, map}
use native.Mathlib.Omega.{arith}
use relationship_os.Base.Tests.{Bool-cases, if◌then◌else◌}

module _ {ℓ} {A : Type ℓ} where
  abbrev pub length : List A → ℕ
  length [] = 0
  length (x ∷ xs) = suc (length xs)

  -- `.limit(n)`
  abbrev pub take : ℕ → List A → List A
  take zero xs = []
  take (suc n) [] = []
  take (suc n) (x ∷ xs) = x ∷ take n xs

  abbrev pub drop : ℕ → List A → List A
  drop zero xs = xs
  drop (suc n) [] = []
  drop (suc n) (x ∷ xs) = drop n xs

  -- The rows that pass a test: `select(T).where(p)`
  abbrev pub select : (A → Bool) → List A → List A
  select p [] = []
  select p (x ∷ xs) = if p x then x ∷ select p xs else select p xs

  -- `update(T).where(p).values(f)`
  abbrev pub update_where : (A → Bool) → (A → A) → List A → List A
  update_where p f [] = []
  update_where p f (x ∷ xs) = (if p x then f x else x) ∷ update_where p f xs

  abbrev pub exists_row : (A → Bool) → List A → Bool
  exists_row p [] = false
  exists_row p (x ∷ xs) = p x || exists_row p xs

  -- `.scalars().first()`
  abbrev pub first : List A → Option A
  first [] = none
  first (x ∷ xs) = some x

  pub length-append : (xs ys : List A) → length (xs ++ ys) ≡ length xs + length ys
  length-append [] ys = omega arith
  length-append (x ∷ xs) ys = omega (arith, length-append xs ys)

  pub length-take : (n : ℕ) (xs : List A) → length (take n xs) ≡ min n (length xs)
  length-take zero xs = omega arith
  length-take (suc n) [] = omega arith
  length-take (suc n) (x ∷ xs) = omega (arith, length-take n xs)

  pub select-append :
      (p : A → Bool) (xs ys : List A) → select p (xs ++ ys) ≡ select p xs ++ select p ys
  select-append p [] ys = refl
  select-append p (x ∷ xs) ys = ground (arith, select-append p xs ys)

  -- A row that a query returns first passes its test.
  pub select-first :
      (p : A → Bool) (xs : List A) (x : A) (r : List A) → select p xs ≡ x ∷ r → p x ≡ true
  select-first p [] x r h = cc
  select-first p (y ∷ xs) x r h = ground (arith, select-first p xs x r)

  pub append_nil : (xs : List A) → xs ++ [] ≡ xs
  append_nil [] = refl
  append_nil (x ∷ xs) = ap (λ t. x ∷ t) (append_nil xs)

  pub append_assoc : (xs ys zs : List A) → (xs ++ ys) ++ zs ≡ xs ++ (ys ++ zs)
  append_assoc [] ys zs = refl
  append_assoc (x ∷ xs) ys zs = ap (λ t. x ∷ t) (append_assoc xs ys zs)

  pub exists-append_row :
      (p : A → Bool) (xs ys : List A)
      → exists_row p (xs ++ ys) ≡ (if exists_row p xs then true else exists_row p ys)
  exists-append_row p [] ys = refl
  exists-append_row p (x ∷ xs) ys = ground (arith, exists-append_row p xs ys)

  rows_cases :
      (l : List A)
      → (l ≡ [])
        ⊎ (((x : A) × (r : List A) × (l ≡ x ∷ r) × (r ≡ []))
            ⊎ ((x : A) × (y : A) × (r : List A) × (l ≡ x ∷ y ∷ r)))
  rows_cases [] = inl refl
  rows_cases (x ∷ []) = inr (inl (x, [], refl, refl))
  rows_cases (x ∷ y ∷ r) = inr (inr (x, y, r, refl))

  -- A query finds no row, one row, or several.
  pub select-cases :
      (p : A → Bool) (xs : List A)
      → (select p xs ≡ [])
        ⊎ (((x : A) × (select p xs ≡ x ∷ []) × (p x ≡ true))
            ⊎ ((x : A) × (y : A) × (r : List A) × (select p xs ≡ x ∷ y ∷ r)))
  select-cases p xs = elim (rows_cases (select p xs)) [
    | inl e ↦ inl e
    | inr (inl (x, r, e, n)) ↦ inr (inl (x, e ∙ ap (λ t. x ∷ t) n, select-first p xs x r e))
    | inr (inr (x, y, r, e)) ↦ inr (inr (x, y, r, e))
  ]

  update_where_none :
      (p : A → Bool) (y : A) (xs : List A)
      → select p xs ≡ []
      → select p (update_where p (λ _. y) xs) ≡ []
  update_where_none p y [] h = refl
  update_where_none p y (x ∷ xs) h = ground (arith, update_where_none p y xs)

  -- A write to the only row that passes a test.
  pub select-update_where :
      (p : A → Bool) (y : A) (xs : List A) (x : A)
      → p y ≡ true
      → select p xs ≡ x ∷ []
      → select p (update_where p (λ _. y) xs) ≡ y ∷ []
  select-update_where p y [] z h e = cc
  select-update_where p y (x ∷ xs) z h e =
      ground (arith, select-update_where p y xs z h, update_where_none p y xs)

  pub length-select-le : (p : A → Bool) (xs : List A) → length (select p xs) ≤ length xs
  length-select-le p [] = omega arith
  length-select-le p (x ∷ xs) = ground (arith, length-select-le p xs)

module _ {ℓ κ} {A : Type ℓ} where
  -- Every row has a property.
  abbrev pub All : (A → Type κ) → List A → Type κ
  All P [] = Unit
  All P (x ∷ xs) = P x × All P xs

  pub All-append : (P : A → Type κ) (xs ys : List A) → All P xs → All P ys → All P (xs ++ ys)
  All-append P [] ys hx hy = hy
  All-append P (x ∷ xs) ys hx hy = (hx.0, All-append P xs ys hx.1 hy)

  pub All-take : (P : A → Type κ) (n : ℕ) (xs : List A) → All P xs → All P (take n xs)
  All-take P zero xs h = tt
  All-take P (suc n) [] h = tt
  All-take P (suc n) (x ∷ xs) h = (h.0, All-take P n xs h.1)

  pub All-drop : (P : A → Type κ) (n : ℕ) (xs : List A) → All P xs → All P (drop n xs)
  All-drop P zero xs h = h
  All-drop P (suc n) [] h = tt
  All-drop P (suc n) (x ∷ xs) h = All-drop P n xs h.1

  pub All-map : {P Q : A → Type κ} (f : (x : A) → P x → Q x) (xs : List A) → All P xs → All Q xs
  All-map f [] h = tt
  All-map f (x ∷ xs) h = (f x h.0, All-map f xs h.1)

  pub All-select : (P : A → Type κ) (p : A → Bool) (xs : List A) → All P xs → All P (select p xs)
  All-select P p [] h = tt
  All-select P p (x ∷ xs) h = elim (Bool-cases (p x)) [
    | inl e ↦ rw e (h.0, All-select P p xs h.1)
    | inr e ↦ rw e (All-select P p xs h.1)
  ]

module _ {ℓ} {A : Type ℓ} where
  -- What is selected passes the test.
  pub select_passes : (p : A → Bool) (xs : List A) → All (λ x. p x ≡ true) (select p xs)
  select_passes p [] = tt
  select_passes p (x ∷ xs) = elim (Bool-cases (p x)) [
    | inl e ↦ rw e (e, select_passes p xs)
    | inr e ↦ rw e (select_passes p xs)
  ]

module _ {ℓ ι κ} {A : Type ℓ} {B : Type ι} where
  pub All-of_map :
      (P : B → Type κ) (f : A → B) (xs : List A) → All (λ x. P (f x)) xs → All P (map f xs)
  All-of_map P f [] h = tt
  All-of_map P f (x ∷ xs) h = (h.0, All-of_map P f xs h.1)
