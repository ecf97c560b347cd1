-- ===== src/Base/Nodes/Linked.antt =====
-- A `std::list` with a map from keys to its nodes, the pair that both LRU caches keep in step.
use Prim.Native.Nat.{ℕ, ◌≤◌}
use mathlib.Core.Path.{◌≡◌, refl}
use mathlib.Core.Logic.{◌≢◌, ite}
use mathlib.Core.Option.{Option, none, some}
use mathlib.Core.Logic.{if_pos}
use mathlib.Core.List.{◌++◌, List, [], ◌∷◌}
use native.Mathlib.Omega.{arith}
use any_cache.Base.Lists.{drop, length, All}
use any_cache.Base.Maps.{Key, nat_key, Map, find, erase, IsMap, All-find}
use any_cache.Base.Nodes.{values}

module _ {K E : Type 0} ⦃key : Key K⦄ (key_of : E → K) where
  -- Every key of the map leads to the node with that key, and every node is led to.
  pub record Linked (cells : List (ℕ × E)) (fresh : ℕ) (index : Map K ℕ) : Type 0 where
    pub cells_distinct : IsMap cells
    pub keys_distinct : IsMap index
    pub below : (n : ℕ) → fresh ≤ n → find n cells ≡ none
    pub to_node :
        (k : K) (n : ℕ) → find k index ≡ some n → (e : E) × (find n cells ≡ some e) × (key_of e ≡ k)
    pub to_key : (n : ℕ) (e : E) → find n cells ≡ some e → find (key_of e) index ≡ some n
    pub count : length cells ≡ length index

  -- The entries whose key is another.
  pub without : K → List E → List E
  without k [] = []
  without k (e ∷ es) = ite (key.dec (key_of e) k) (without k es) (e ∷ without k es)

  -- The first entry with the key.
  pub lookup : K → List E → Option E
  lookup k [] = none
  lookup k (e ∷ es) = ite (key.dec (key_of e) k) (some e) (lookup k es)

  pub lookup-without_self : (k : K) (es : List E) → lookup k (without k es) ≡ none
  unfolding lookup without
  lookup-without_self k [] = refl
  lookup-without_self k (e ∷ es) = ground (arith, lookup-without_self k es)

  pub lookup-push :
      (k : K) (e : E) (es : List E)
      → lookup k es ≡ none
      → key_of e ≡ k
      → lookup k (es ++ e ∷ []) ≡ some e
  unfolding lookup
  lookup-push k e [] h same = if_pos (key.dec (key_of e) k) same _ _
  lookup-push k e (x ∷ es) h same = ground (arith, lookup-push k e es)

  pub lookup-key : (k : K) (e : E) (es : List E) → lookup k es ≡ some e → key_of e ≡ k
  unfolding lookup
  lookup-key k e [] h = cc
  lookup-key k e (x ∷ es) h = ground (arith, lookup-key k e es)

  pub lookup-drop_one : (k : K) (es : List E) → lookup k es ≡ none → lookup k (drop 1 es) ≡ none
  unfolding lookup
  lookup-drop_one k [] h = refl
  lookup-drop_one k (x ∷ es) h = ground arith

  Pairs : K → ℕ → ℕ × E → Type 0
  Pairs k n c = (key_of c.1 ≡ k → c.0 ≡ n) × (c.0 ≡ n → key_of c.1 ≡ k)

  without-erase :
      (k : K) (n : ℕ) (cells : List (ℕ × E))
      → All (Pairs k n) cells
      → without k (values cells) ≡ values (erase n cells)
  unfolding without values erase Pairs
  without-erase k n [] h = refl
  without-erase k n ((m, e) ∷ cells) h = ground (arith, without-erase k n cells h.1)

  lookup-values :
      (k : K) (n : ℕ) (cells : List (ℕ × E))
      → All (Pairs k n) cells
      → lookup k (values cells) ≡ find n cells
  unfolding lookup values find Pairs
  lookup-values k n [] h = refl
  lookup-values k n ((m, e) ∷ cells) h = ground (arith, lookup-values k n cells h.1)

  without_absent :
      (k : K) (cells : List (ℕ × E))
      → All (λ c. key_of c.1 ≢ k) cells
      → without k (values cells) ≡ values cells
  unfolding without values
  without_absent k [] h = refl
  without_absent k ((m, e) ∷ cells) h = ground (arith, h.0, without_absent k cells h.1)

  lookup_absent :
      (k : K) (cells : List (ℕ × E))
      → All (λ c. key_of c.1 ≢ k) cells
      → lookup k (values cells) ≡ none
  unfolding lookup values
  lookup_absent k [] h = refl
  lookup_absent k ((m, e) ∷ cells) h = ground (arith, h.0, lookup_absent k cells h.1)

  module _ {cells : List (ℕ × E)} {fresh : ℕ} {index : Map K ℕ} (l : Linked cells fresh index) where
    Linked-entries : (k : K) (n : ℕ) → find k index ≡ some n → All (Pairs k n) cells
    unfolding Pairs
    Linked-entries k n h = All-find (Pairs k n) cells l.cells_distinct λ m e at.
        ((λ same. ground (arith, l.to_key m e at)), (λ same. ground (arith, l.to_node k n h)))

    linked_absent : (k : K) → find k index ≡ none → All (λ c. key_of c.1 ≢ k) cells
    linked_absent k h =
        All-find (λ c. key_of c.1 ≢ k) cells l.cells_distinct
          λ m e at same. ground (arith, l.to_key m e at)

    -- Dropping a key from the entries is erasing the node that the map leads to.
    pub without_hit :
        (k : K) (n : ℕ) → find k index ≡ some n → without k (values cells) ≡ values (erase n cells)
    without_hit k n h = without-erase k n cells (Linked-entries k n h)

    pub without_miss : (k : K) → find k index ≡ none → without k (values cells) ≡ values cells
    without_miss k h = without_absent k cells (linked_absent k h)

    pub lookup_hit :
        (k : K) (n : ℕ) → find k index ≡ some n → lookup k (values cells) ≡ find n cells
    lookup_hit k n h = lookup-values k n cells (Linked-entries k n h)

    pub lookup_miss : (k : K) → find k index ≡ none → lookup k (values cells) ≡ none
    lookup_miss k h = lookup_absent k cells (linked_absent k h)
