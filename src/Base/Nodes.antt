-- ===== src/Base/Nodes.antt =====
-- `std::list` with the iterators that the program keeps: a node has an address that stays with it,
-- and an iterator is an address. The cells stand from front to back.
pub mod Linked
pub mod Steps
use Prim.Native.Nat.{ℕ, suc, ◌+◌}
use mathlib.Core.Path.{◌≡◌, refl, ap}
use mathlib.Core.Logic.{ite}
use mathlib.Core.Option.{Option, none, some}
use mathlib.Core.List.{List, [], ◌∷◌, ◌++◌, map}
use native.Mathlib.Omega.{arith}
use native.Mathlib.Decide.{ℕ_discrete}
use any_cache.Base.Lists.{length, All, length-append}
use any_cache.Base.Maps.{
  Key, nat_key, find, insert, erase, IsMap, find-erase, erase-IsMap, erase_absent,
  length-erase_present,
}

-- The nodes by address, and the address that the next allocation takes.
pub record Nodes (A : Type 0) : Type 0 where
  pub cells : List (ℕ × A)
  pub fresh : ℕ

module _ {A : Type 0} where
  abbrev pub no_nodes : Nodes A
  no_nodes = record { cells = []; fresh = 0 }

  -- `l.push_back(a)`; the new node is `std::prev(l.end())`, at the address `l.fresh`.
  unfoldable pub push_back : A → Nodes A → Nodes A
  push_back a l = record { cells = l.cells ++ (l.fresh, a) ∷ []; fresh = suc l.fresh }

  -- `l.erase(it)`
  unfoldable pub erase_node : ℕ → Nodes A → Nodes A
  erase_node n l = record l { cells = erase n l.cells }

  -- `it->second = v`
  unfoldable pub set_node : ℕ → A → Nodes A → Nodes A
  set_node n a l = record l { cells = insert n a l.cells }

  to_back : ℕ → Option A → List (ℕ × A) → List (ℕ × A)
  to_back n none cells = cells
  to_back n (some a) cells = erase n cells ++ (n, a) ∷ []

  -- `l.splice(l.end(), l, it)`
  unfoldable pub splice_back : ℕ → Nodes A → Nodes A
  unfolding to_back
  splice_back n l = record l { cells = to_back n (find n l.cells) l.cells }

  pub splice_back-hit :
      (n : ℕ) (a : A) (l : Nodes A)
      → find n l.cells ≡ some a
      → splice_back n l ≡ record l { cells = erase n l.cells ++ (n, a) ∷ [] }
  unfolding splice_back
  splice_back-hit n a l h = rw (h, to_back)

  pub values : List (ℕ × A) → List A
  values = map (λ c. c.1)

  pub values-append : (xs ys : List (ℕ × A)) → values (xs ++ ys) ≡ values xs ++ values ys
  unfolding values
  values-append [] ys = refl
  values-append ((n, a) ∷ xs) ys = ap (◌∷◌ a) (values-append xs ys)

  pub values-push :
      (n : ℕ) (a : A) (cells : List (ℕ × A))
      → values (cells ++ (n, a) ∷ []) ≡ values cells ++ a ∷ []
  unfolding values
  values-push n a cells = values-append cells ((n, a) ∷ [])

  pub values-nil : values [] ≡ []
  unfolding values
  values-nil = refl

  pub values-cons :
      (n : ℕ) (a : A) (cells : List (ℕ × A)) → values ((n, a) ∷ cells) ≡ a ∷ values cells
  unfolding values
  values-cons n a cells = refl

  pub length-values : (cells : List (ℕ × A)) → length (values cells) ≡ length cells
  unfolding values
  length-values [] = refl
  length-values (c ∷ cells) = ap suc (length-values cells)

  -- Writing to a node changes its value alone, and moving it then makes the new value the last.
  pub values-erase-insert :
      (n : ℕ) (a : A) (cells : List (ℕ × A))
      → values (erase n (insert n a cells)) ≡ values (erase n cells)
  unfolding values erase insert
  values-erase-insert n a [] = ground arith
  values-erase-insert n a ((m, b) ∷ cells) = ground (arith, values-erase-insert n a cells)

  pub find-append_one :
      (m n : ℕ) (a : A) (cells : List (ℕ × A))
      → find n cells ≡ none
      → find m (cells ++ (n, a) ∷ []) ≡ ite (ℕ_discrete n m) (some a) (find m cells)
  unfolding find
  find-append_one m n a [] h = refl
  find-append_one m n a ((i, b) ∷ cells) h = ground (arith, find-append_one m n a cells)

  pub append_one-IsMap :
      (n : ℕ) (a : A) (cells : List (ℕ × A))
      → find n cells ≡ none
      → IsMap cells
      → IsMap (cells ++ (n, a) ∷ [])
  unfolding find
  append_one-IsMap n a [] h d = (refl, tt)
  append_one-IsMap n a ((i, b) ∷ cells) h d =
      ground (arith, append_one-IsMap n a cells, find-append_one i n a cells)

  -- Moving a node to the back leaves every address with its value.
  pub find-to_back :
      (m n : ℕ) (a : A) (cells : List (ℕ × A))
      → find n cells ≡ some a
      → find m (erase n cells ++ (n, a) ∷ []) ≡ find m cells
  find-to_back m n a cells h =
      ground
        (arith, find-append_one m n a (erase n cells), find-erase n m cells, find-erase n n cells)

  pub to_back-IsMap :
      (n : ℕ) (a : A) (cells : List (ℕ × A)) → IsMap cells → IsMap (erase n cells ++ (n, a) ∷ [])
  to_back-IsMap n a cells d =
      ground
        (arith, append_one-IsMap n a (erase n cells), find-erase n n cells, erase-IsMap n cells d)

  pub length-to_back :
      (n : ℕ) (a : A) (cells : List (ℕ × A))
      → IsMap cells
      → find n cells ≡ some a
      → length (erase n cells ++ (n, a) ∷ []) ≡ length cells
  length-to_back n a cells d h =
      omega (arith, length-append (erase n cells) ((n, a) ∷ []), length-erase_present n a cells d h)
