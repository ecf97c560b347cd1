-- ===== src/Base/Nodes/Steps.antt =====
-- The steps that the LRU caches make on the list and the map keep the two linked.
use Prim.Native.Nat.{ℕ, suc}
use mathlib.Core.Path.{◌≡◌, refl, subst}
use mathlib.Core.Logic.{if_pos}
use mathlib.Core.Option.{none, some}
use mathlib.Core.List.{List, [], ◌∷◌, ◌++◌}
use native.Mathlib.Omega.{arith}
use native.Mathlib.Decide.{ℕ_discrete}
use any_cache.Base.Lists.{length-append}
use any_cache.Base.Maps.{
  Key, nat_key, Map, find, insert, erase, IsMap, find-insert, insert-IsMap, find-erase, erase-IsMap,
  erase_absent, length-insert_absent, length-insert_present, length-erase_present,
}
use any_cache.Base.Nodes.{
  find-append_one, append_one-IsMap, find-to_back, to_back-IsMap, length-to_back,
}
use any_cache.Base.Nodes.Linked.{Linked}

module _ {K E : Type 0} ⦃key : Key K⦄ (key_of : E → K) where
  module _ {cells : List (ℕ × E)} {fresh : ℕ} {index : Map K ℕ}
      (l : Linked key_of cells fresh index) where
    -- A new key gets a node at the back.
    pub Linked-add :
        (e : E)
        → find (key_of e) index ≡ none
        → Linked key_of (cells ++ (fresh, e) ∷ []) (suc fresh) (insert (key_of e) fresh index)
    Linked-add e miss = record {
      cells_distinct = append_one-IsMap fresh e cells new l.cells_distinct;
      keys_distinct = insert-IsMap (key_of e) fresh index l.keys_distinct;
      below = λ n h. ground (arith, find-append_one n fresh e cells new, l.below n);
      to_node = λ k n h. ground (
        arith,
        find-append_one n fresh e cells new,
        find-insert (key_of e) k fresh index,
        l.to_node k n,
        l.below n,
      );
      to_key = λ n a h. ground (
        arith,
        find-append_one n fresh e cells new,
        find-insert (key_of e) (key_of a) fresh index,
        l.to_key n a,
      );
      count = omega (
        arith,
        length-append cells ((fresh, e) ∷ []),
        length-insert_absent (key_of e) fresh index miss,
        l.count,
      );
    }
      where
        new : find fresh cells ≡ none
        new = l.below fresh (omega arith)

    -- A key and its node go.
    pub Linked-drop :
        (k : K) (n : ℕ)
        → find k index ≡ some n
        → Linked key_of (erase n cells) fresh (erase k index)
    Linked-drop k n hit = record {
      cells_distinct = erase-IsMap n cells l.cells_distinct;
      keys_distinct = erase-IsMap k index l.keys_distinct;
      below = λ m h. ground (arith, find-erase n m cells, l.below m);
      to_node = λ j m h.
          ground
            (arith, find-erase k j index, find-erase n m cells, l.to_node j m, l.to_node k n hit);
      to_key = λ m a h.
          ground (arith, find-erase k (key_of a) index, find-erase n m cells, l.to_key m a);
      count = ground (
        arith,
        l.to_node k n hit,
        length-erase_present n (l.to_node k n hit).0 cells l.cells_distinct,
        length-erase_present k n index l.keys_distinct hit,
        l.count,
      );
    }

    -- A node moves to the back.
    pub Linked-move :
        (n : ℕ) (e : E)
        → find n cells ≡ some e
        → Linked key_of (erase n cells ++ (n, e) ∷ []) fresh index
    Linked-move n e hit = record {
      cells_distinct = to_back-IsMap n e cells l.cells_distinct;
      keys_distinct = l.keys_distinct;
      below = λ m h. ground (arith, find-to_back m n e cells hit, l.below m);
      to_node = λ j m h. ground (arith, find-to_back m n e cells hit, l.to_node j m);
      to_key = λ m a h. ground (arith, find-to_back m n e cells hit, l.to_key m a);
      count = omega (arith, length-to_back n e cells l.cells_distinct hit, l.count);
    }

    -- A node's entry is replaced by another with its key.
    pub Linked-write :
        (n : ℕ) (e e' : E)
        → find n cells ≡ some e
        → key_of e' ≡ key_of e
        → Linked key_of (insert n e' cells) fresh index
    Linked-write n e e' hit same = record {
      cells_distinct = insert-IsMap n e' cells l.cells_distinct;
      keys_distinct = l.keys_distinct;
      below = λ m h. ground (arith, find-insert n m e' cells, l.below m);
      to_node = λ j m h. ground (arith, find-insert n m e' cells, l.to_node j m);
      to_key = λ m a h. ground (arith, find-insert n m e' cells, l.to_key m a, l.to_key n e hit);
      count = omega (arith, length-insert_present n e' e cells hit, l.count);
    }

    -- A key gets a new node at the back in place of its old one.
    pub Linked-renew :
        (e : E) (n : ℕ)
        → find (key_of e) index ≡ some n
        → Linked key_of
            (erase n cells ++ (fresh, e) ∷ [])
            (suc fresh)
            (insert (key_of e) fresh index)
    Linked-renew e n hit = record {
      cells_distinct =
          append_one-IsMap fresh e (erase n cells) new (erase-IsMap n cells l.cells_distinct);
      keys_distinct = insert-IsMap (key_of e) fresh index l.keys_distinct;
      below = λ m h.
          ground
            (arith, find-append_one m fresh e (erase n cells) new, find-erase n m cells, l.below m);
      to_node = λ k m h. ground (
        arith,
        find-append_one m fresh e (erase n cells) new,
        find-insert (key_of e) k fresh index,
        find-erase n m cells,
        l.to_node k m,
        l.below m,
        l.to_node (key_of e) n hit,
      );
      to_key = λ m a h. ground (
        arith,
        find-append_one m fresh e (erase n cells) new,
        find-insert (key_of e) (key_of a) fresh index,
        find-erase n m cells,
        l.to_key m a,
      );
      count = ground (
        arith,
        length-append (erase n cells) ((fresh, e) ∷ []),
        length-erase_present n (l.to_node (key_of e) n hit).0 cells l.cells_distinct,
        length-insert_present (key_of e) fresh n index hit,
        l.to_node (key_of e) n hit,
        l.count,
      );
    }
      where
        new : find fresh (erase n cells) ≡ none
        new = ground (arith, find-erase n fresh cells, l.below fresh)

  erase-first :
      (n : ℕ) (e : E) (cells : List (ℕ × E))
      → IsMap ((n, e) ∷ cells)
      → erase n ((n, e) ∷ cells) ≡ cells
  unfolding erase
  erase-first n e cells h = ground (arith, erase_absent n cells h.0)

  -- The front node goes, with its key.
  pub Linked-pop :
      (n : ℕ) (e : E) (cells : List (ℕ × E)) (fresh : ℕ) (index : Map K ℕ)
      → Linked key_of ((n, e) ∷ cells) fresh index
      → Linked key_of cells fresh (erase (key_of e) index)
  unfolding find
  Linked-pop n e cells fresh index l =
      subst (λ c. Linked key_of c fresh (erase (key_of e) index))
        (erase-first n e cells l.cells_distinct)
        (Linked-drop l (key_of e) n (l.to_key n e (if_pos (ℕ_discrete n n) refl _ _)))
