-- ===== src/Worker/Policy/Lfu/Lists.antt =====
-- The lists of `LFUPolicy`: what they hold after each step of `std::list`.
use any_cache.Base.{
  ℕ, ◌≡◌, refl, ite, true, false, List, [], ◌∷◌, ◌++◌, Map, insert, nat_key, arith, ℕ_discrete,
  find-insert, find-erase, mem, Once,
}
use any_cache.Worker.Policy.Lfu.{remove, list_at, store_list}

pub mem-remove :
    (j id : ℕ) (xs : List ℕ) → mem j (remove id xs) ≡ ite (ℕ_discrete id j) false (mem j xs)
unfolding mem remove
mem-remove j id [] = ground arith
mem-remove j id (x ∷ xs) = ground (arith, mem-remove j id xs)

pub mem-append_one :
    (j id : ℕ) (xs : List ℕ) → mem j (xs ++ id ∷ []) ≡ ite (ℕ_discrete id j) true (mem j xs)
unfolding mem
mem-append_one j id [] = refl
mem-append_one j id (x ∷ xs) = ground (arith, mem-append_one j id xs)

pub remove-Once : (id : ℕ) (xs : List ℕ) → Once xs → Once (remove id xs)
unfolding mem remove
remove-Once id [] h = tt
remove-Once id (x ∷ xs) h = ground (arith, remove-Once id xs h.1, mem-remove x id xs)

pub append_one-Once : (id : ℕ) (xs : List ℕ) → mem id xs ≡ false → Once xs → Once (xs ++ id ∷ [])
unfolding mem
append_one-Once id [] m h = (refl, tt)
append_one-Once id (x ∷ xs) m h = ground (arith, append_one-Once id xs, mem-append_one x id xs)

pub remove_absent : (id : ℕ) (xs : List ℕ) → mem id xs ≡ false → remove id xs ≡ xs
unfolding mem remove
remove_absent id [] h = refl
remove_absent id (x ∷ xs) h = ground (arith, remove_absent id xs)

pub list_at-insert :
    (g f : ℕ) (xs : List ℕ) (lists : Map ℕ (List ℕ))
    → list_at g (insert f xs lists) ≡ ite (ℕ_discrete f g) xs (list_at g lists)
list_at-insert g f xs lists = ground (arith, find-insert f g xs lists)

-- Erasing the list that became empty and writing it back read alike.
pub list_at-store :
    (g f : ℕ) (xs : List ℕ) (lists : Map ℕ (List ℕ))
    → list_at g (store_list f xs lists) ≡ ite (ℕ_discrete f g) xs (list_at g lists)
unfolding store_list
list_at-store g f [] lists = ground (arith, find-erase f g lists)
list_at-store g f (x ∷ xs) lists = list_at-insert g f (x ∷ xs) lists

-- Removing the first block of a list in which no block stands twice leaves the rest.
pub remove-first : (x : ℕ) (xs : List ℕ) → Once (x ∷ xs) → remove x (x ∷ xs) ≡ xs
unfolding remove
remove-first x xs h = ground (arith, remove_absent x xs h.0)
