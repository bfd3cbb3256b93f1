-- ===== src/Base/Equality.antt =====
-- Python's `==` on texts, by a decision, so that a split on `s == t` yields the equation or its
-- negation.
use Prim.Native.String.{String}
use mathlib.Core.Path.{◌≡◌}
use mathlib.Core.Logic.{ite, dite}
use mathlib.Core.Bool.{Bool, true, false, ◌||◌, Bool-discrete}
use mathlib.Core.List.{List, [], ◌∷◌}
use native.Mathlib.Omega.{arith}
use text.Mathlib.Text
use text.Mathlib.TextEquality.{eq_iff}

-- Shut in proofs; a test unfolds it.
unfoldable pub String-discrete : Discrete String
String-discrete s t =
    dite (Bool-discrete (Text.◌==◌ s t) true) (λ same. yes ((eq_iff s t).0 same))
      (λ differ. no (λ p. differ ((eq_iff s t).1 p)))

infix 50 ◌==◌
abbrev pub ◌==◌ : String → String → Bool
s == t = ite (String-discrete s t) true false

-- `s in l`
abbrev pub contains : List String → String → Bool
contains [] s = false
contains (t ∷ l) s = s == t || contains l s

pub eq_refl : (s : String) → (s == s) ≡ true
eq_refl s = ground arith

pub eq_of_test : (s t : String) → (s == t) ≡ true → s ≡ t
eq_of_test s t h = ground arith

module _ {ℓ ι κ} {A : Type ℓ} {B : Type ι} {C : Type κ} where
  pub ap2 : (f : A → B → C) {a a' : A} {b b' : B} → a ≡ a' → b ≡ b' → f a b ≡ f a' b'
  ap2 f p q = λ i. f (p i) (q i)
