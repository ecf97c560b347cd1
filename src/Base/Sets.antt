-- ===== src/Base/Sets.antt =====
-- `std::set` of numbers, as an ascending list.
use Prim.Native.Nat.{ℕ, compare, Ordering}
use mathlib.Core.Path.{◌≡◌, refl}
use mathlib.Core.Logic.{ite}
use mathlib.Core.Bool.{true, false}
use mathlib.Core.List.{List, [], ◌∷◌}
use native.Mathlib.Omega.{arith}
use native.Mathlib.Decide.{ℕ_discrete}
use any_cache.Base.Lists.{mem}

unfoldable pub set_insert : ℕ → List ℕ → List ℕ
set_insert a [] = a ∷ []
set_insert a (x ∷ xs) =
    let rest = set_insert a xs in
    elim (compare a x) [ Ordering.lt ↦ a ∷ x ∷ xs | Ordering.eq ↦ x ∷ xs | Ordering.gt ↦ x ∷ rest ]

unfoldable pub set_erase : ℕ → List ℕ → List ℕ
set_erase a [] = []
set_erase a (x ∷ xs) = ite (ℕ_discrete x a) (set_erase a xs) (x ∷ set_erase a xs)

pub mem-set_insert :
    (a b : ℕ) (xs : List ℕ) → mem b (set_insert a xs) ≡ ite (ℕ_discrete a b) true (mem b xs)
unfolding set_insert mem
mem-set_insert a b [] = refl
mem-set_insert a b (x ∷ xs) = ground (arith, mem-set_insert a b xs)

pub mem-set_erase :
    (a b : ℕ) (xs : List ℕ) → mem b (set_erase a xs) ≡ ite (ℕ_discrete a b) false (mem b xs)
unfolding set_erase mem
mem-set_erase a b [] = ground arith
mem-set_erase a b (x ∷ xs) = ground (arith, mem-set_erase a b xs)
