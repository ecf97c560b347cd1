-- ===== src/Base/Lists.antt =====
-- Lists measured by native numbers, and predicates on lists by recursion.
use Prim.Native.Nat.{ℕ, zero, suc, ◌+◌, ◌-◌, ◌≤◌, min}
use mathlib.Core.Path.{◌≡◌, refl, ap, sym, ◌∙◌}
use mathlib.Core.List.{List, [], ◌∷◌, ◌++◌}
use mathlib.Core.Bool.{Bool, true, false}
use mathlib.Core.Logic.{◌≢◌, ite, if_pos}
use native.Mathlib.Omega.{arith}
use native.Mathlib.Decide.{ℕ_discrete}

module _ {ℓ} {A : Type ℓ} where
  abbrev pub length : List A → ℕ
  length [] = 0
  length (x ∷ xs) = suc (length xs)

  abbrev pub take : ℕ → List A → List A
  take (suc count) (head ∷ rest) = head ∷ take count rest
  take (suc count) [] = []
  take zero rest = []

  abbrev pub drop : ℕ → List A → List A
  drop zero xs = xs
  drop (suc n) [] = []
  drop (suc n) (x ∷ xs) = drop n xs

  abbrev pub replicate : ℕ → A → List A
  replicate zero a = []
  replicate (suc n) a = a ∷ replicate n a

  pub length-append : (xs ys : List A) → length (xs ++ ys) ≡ length xs + length ys
  length-append [] ys = omega arith
  length-append (x ∷ xs) ys = omega (arith, length-append xs ys)

  pub length-take : (n : ℕ) (xs : List A) → length (take n xs) ≡ min n (length xs)
  length-take zero xs = omega arith
  length-take (suc n) [] = omega arith
  length-take (suc n) (x ∷ xs) = omega (arith, length-take n xs)

  pub length-drop : (n : ℕ) (xs : List A) → length (drop n xs) ≡ length xs - n
  length-drop zero xs = omega arith
  length-drop (suc n) [] = omega arith
  length-drop (suc n) (x ∷ xs) = omega (arith, length-drop n xs)

  pub length-replicate : (n : ℕ) (a : A) → length (replicate n a) ≡ n
  length-replicate zero a = refl
  length-replicate (suc n) a = ap suc (length-replicate n a)

  pub take-append : (xs ys : List A) → take (length xs) (xs ++ ys) ≡ xs
  take-append [] ys = refl
  take-append (x ∷ xs) ys = ap (◌∷◌ x) (take-append xs ys)

  pub drop-append : (xs ys : List A) → drop (length xs) (xs ++ ys) ≡ ys
  drop-append [] ys = refl
  drop-append (x ∷ xs) ys = drop-append xs ys

  abbrev pub All {κ} : (A → Type κ) → List A → Type κ
  All P [] = Unit
  All P (x ∷ xs) = P x × All P xs

-- Whether a number stands in a list.
unfoldable pub mem : ℕ → List ℕ → Bool
mem id [] = false
mem id (x ∷ xs) = ite (ℕ_discrete x id) true (mem id xs)

-- No number stands twice.
abbrev pub Once : List ℕ → Type 0
Once [] = Unit
Once (x ∷ xs) = (mem x xs ≡ false) × Once xs

pub mem-nil : (id : ℕ) → mem id [] ≡ false
unfolding mem
mem-nil id = refl

pub mem-first : (x : ℕ) (xs : List ℕ) → mem x (x ∷ xs) ≡ true
unfolding mem
mem-first x xs = if_pos (ℕ_discrete x x) refl _ _

pub mem-cons : (id x : ℕ) (xs : List ℕ) → mem id (x ∷ xs) ≡ ite (ℕ_discrete x id) true (mem id xs)
unfolding mem
mem-cons id x xs = refl

pub take_of_length-le {ℓ} : {B : Type ℓ} (n : ℕ) (ys : List B) → length ys ≤ n → take n ys ≡ ys
take_of_length-le (suc n) (y ∷ ys) short =
    let rest = take_of_length-le n ys (omega arith) in ap (λ t. y ∷ t) rest
take_of_length-le zero (y ∷ ys) short = absurd (omega arith)
take_of_length-le (suc n) [] short = refl
take_of_length-le zero [] short = refl

-- A value at one number, and those at the others, as one equation.
pub at_number {ℓ} :
    {A : Type ℓ} (f others : ℕ → A) (id : ℕ) (here : A)
    → f id ≡ here
    → ((j : ℕ) → id ≢ j → f j ≡ others j)
    → (j : ℕ) → f j ≡ ite (ℕ_discrete id j) here (others j)
at_number f others id here at_id elsewhere j = go (ℕ_discrete id j)
  where
    go : (d : Dec (id ≡ j)) → f j ≡ ite d here (others j)
    go (yes same) = ap f (sym same) ∙ at_id
    go (no ne) = elsewhere j ne
