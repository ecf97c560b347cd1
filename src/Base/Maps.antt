-- ===== src/Base/Maps.antt =====
-- The maps and sets of the C++ library as association lists. An update keeps a key's place, a new
-- key goes to the end. The order of the list stands for the iteration order.
use Prim.Native.Nat.{ℕ, ◌+◌, ◌≤◌}
use mathlib.Core.Path.{◌≡◌, refl, ap, subst, ◌∙◌}
use mathlib.Core.Logic.{◌≢◌, ite, if_pos, if_neg}
use mathlib.Core.Bool.{Bool, true, false}
use mathlib.Core.Option.{Option, none, some}
use mathlib.Core.List.{List, [], ◌∷◌}
use native.Mathlib.Omega.{arith}
use native.Mathlib.Decide.{ℕ_discrete}
use any_cache.Base.Lists.{length, All}
use any_cache.Base.Tests.{get_or}

-- What `std::hash` and `==` give for a key type: its values can be told apart.
pub record Key {ℓ} (K : Type ℓ) : Type ℓ where
  pub dec : Discrete K

instance abbrev pub nat_key : Key ℕ
nat_key = record { dec = ℕ_discrete }

abbrev pub Map {ℓ} : Type ℓ → Type ℓ → Type ℓ
Map K V = List (K × V)

-- A sum over the entries, and the share of one key in it.
abbrev pub sizes {ℓ} : {K V : Type ℓ} → (V → ℕ) → Map K V → ℕ
sizes f [] = 0
sizes f ((k, v) ∷ m) = f v + sizes f m

abbrev pub size_at {ℓ} : {V : Type ℓ} → (V → ℕ) → Option V → ℕ
size_at f none = 0
size_at f (some v) = f v

abbrev pub is_some {ℓ} : {A : Type ℓ} → Option A → Bool
is_some none = false
is_some (some a) = true

is_some-ite {ℓ κ} :
    {A : Type ℓ} {P : Type κ} (d : Dec P) (x y : Option A)
    → is_some (ite d x y) ≡ ite d (is_some x) (is_some y)
is_some-ite (yes p) x y = refl
is_some-ite (no p) x y = refl

some_inj {ℓ} : {A : Type ℓ} (a b : A) → some a ≡ some b → a ≡ b
some_inj a b h = ap (λ o. get_or o a) h

module _ {ℓ} {K V : Type ℓ} ⦃key : Key K⦄ where
  unfoldable pub find : K → Map K V → Option V
  find k [] = none
  find k ((j, v) ∷ m) = ite (key.dec j k) (some v) (find k m)

  unfoldable pub insert : K → V → Map K V → Map K V
  insert k v [] = (k, v) ∷ []
  insert k v ((j, w) ∷ m) = ite (key.dec j k) ((k, v) ∷ m) ((j, w) ∷ insert k v m)

  unfoldable pub erase : K → Map K V → Map K V
  erase k [] = []
  erase k ((j, w) ∷ m) = ite (key.dec j k) (erase k m) ((j, w) ∷ erase k m)

  -- `m.count(k) > 0`
  abbrev pub has : K → Map K V → Bool
  has k m = is_some (find k m)

  pub find-nil : (k : K) → find k [] ≡ none
  unfolding find
  find-nil k = refl

  pub find-insert :
      (k j : K) (v : V) (m : Map K V)
      → find j (insert k v m) ≡ ite (key.dec k j) (some v) (find j m)
  unfolding find insert
  find-insert k j v [] = refl
  find-insert k j v ((i, w) ∷ m) = ground (arith, find-insert k j v m)

  pub find-erase : (k j : K) (m : Map K V) → find j (erase k m) ≡ ite (key.dec k j) none (find j m)
  unfolding find erase
  find-erase k j [] = ground arith
  find-erase k j ((i, w) ∷ m) = ground (arith, find-erase k j m)

  pub find-insert_self : (k : K) (v : V) (m : Map K V) → find k (insert k v m) ≡ some v
  find-insert_self k v m = rw (find-insert k k v m) (if_pos (key.dec k k) refl _ _)

  pub find-first : (k : K) (v : V) (m : Map K V) → find k ((k, v) ∷ m) ≡ some v
  unfolding find
  find-first k v m = if_pos (key.dec k k) refl _ _

  pub find-insert_ne : (k j : K) (v : V) (m : Map K V) → k ≢ j → find j (insert k v m) ≡ find j m
  find-insert_ne k j v m h = rw (find-insert k j v m) (if_neg (key.dec k j) h _ _)

  pub find-erase_self : (k : K) (m : Map K V) → find k (erase k m) ≡ none
  find-erase_self k m = rw (find-erase k k m) (if_pos (key.dec k k) refl _ _)

  pub find-erase_ne : (k j : K) (m : Map K V) → k ≢ j → find j (erase k m) ≡ find j m
  find-erase_ne k j m h = rw (find-erase k j m) (if_neg (key.dec k j) h _ _)

  pub has-insert :
      (k j : K) (v : V) (m : Map K V) → has j (insert k v m) ≡ ite (key.dec k j) true (has j m)
  has-insert k j v m =
      ap is_some (find-insert k j v m) ∙ is_some-ite (key.dec k j) (some v) (find j m)

  pub has-erase : (k j : K) (m : Map K V) → has j (erase k m) ≡ ite (key.dec k j) false (has j m)
  has-erase k j m = ap is_some (find-erase k j m) ∙ is_some-ite (key.dec k j) none (find j m)

  pub has-find : (k : K) (v : V) (m : Map K V) → find k m ≡ some v → has k m ≡ true
  has-find k v m h = ground (arith, h)

  -- Every key stands once.
  abbrev pub IsMap : Map K V → Type ℓ
  IsMap [] = Unit
  IsMap ((k, v) ∷ m) = (find k m ≡ none) × IsMap m

  pub insert-IsMap : (k : K) (v : V) (m : Map K V) → IsMap m → IsMap (insert k v m)
  unfolding find insert
  insert-IsMap k v [] h = (refl, tt)
  insert-IsMap k v ((j, w) ∷ m) h = ground (arith, insert-IsMap k v m h.1, find-insert k j v m)

  pub erase-IsMap : (k : K) (m : Map K V) → IsMap m → IsMap (erase k m)
  unfolding find erase
  erase-IsMap k [] h = tt
  erase-IsMap k ((j, w) ∷ m) h = ground (arith, erase-IsMap k m h.1, find-erase k j m)

  pub erase_absent : (k : K) (m : Map K V) → find k m ≡ none → erase k m ≡ m
  unfolding find erase
  erase_absent k [] h = refl
  erase_absent k ((j, w) ∷ m) h = ground (arith, erase_absent k m)

  -- Erasing a key that was not there before its insertion undoes the insertion.
  pub erase-insert_absent :
      (k : K) (v : V) (m : Map K V) → find k m ≡ none → erase k (insert k v m) ≡ m
  unfolding find insert erase
  erase-insert_absent k v [] h = ground arith
  erase-insert_absent k v ((j, w) ∷ m) h = ground (arith, erase-insert_absent k v m)

  pub length-insert_absent :
      (k : K) (v : V) (m : Map K V) → find k m ≡ none → length (insert k v m) ≡ length m + 1
  unfolding find insert
  length-insert_absent k v [] h = refl
  length-insert_absent k v ((j, w) ∷ m) h = ground (arith, length-insert_absent k v m)

  pub length-insert_present :
      (k : K) (v w : V) (m : Map K V) → find k m ≡ some w → length (insert k v m) ≡ length m
  unfolding find insert
  length-insert_present k v w [] h = cc
  length-insert_present k v w ((j, u) ∷ m) h = ground (arith, length-insert_present k v w m)

  pub length-erase_present :
      (k : K) (v : V) (m : Map K V)
      → IsMap m
      → find k m ≡ some v
      → length (erase k m) + 1 ≡ length m
  unfolding find erase
  length-erase_present k v [] h e = cc
  length-erase_present k v ((j, w) ∷ m) h e =
      ground (arith, length-erase_present k v m h.1, erase_absent k m)

  pub length-erase-le : (k : K) (m : Map K V) → length (erase k m) ≤ length m
  unfolding erase
  length-erase-le k [] = omega arith
  length-erase-le k ((j, w) ∷ m) = ground (arith, length-erase-le k m)

  -- A fact about every binding is a fact about every entry.
  pub All-find {κ} :
      (P : K × V → Type κ) (m : Map K V)
      → IsMap m
      → ((k : K) (v : V) → find k m ≡ some v → P (k, v))
      → All P m
  unfolding find
  All-find P [] h f = tt
  All-find P ((k, v) ∷ m) h f = (
    f k v (if_pos (key.dec k k) refl _ _),
    All-find P m h.1 λ j w e. f j w (elim (key.dec k j) [
      | yes p ↦ absurd (ground arith)
      | no p ↦ if_neg (key.dec k j) p _ _ ∙ e
    ]),
  )

  -- A fact about every entry is a fact about every binding.
  pub find-All {κ} :
      (P : K × V → Type κ) (m : Map K V) (k : K) (v : V) → All P m → find k m ≡ some v → P (k, v)
  unfolding find
  find-All P [] k v h e = absurd (ground (arith, e))
  find-All P ((j, w) ∷ m) k v h e = go (key.dec j k) e (find-All P m k v h.1)
    where
      go :
          (d : Dec (j ≡ k))
          → ite d (some w) (find k m) ≡ some v
          → (find k m ≡ some v → P (k, v))
          → P (k, v)
      go (yes same) there rest =
          let value_ : w ≡ v = some_inj w v there in
          subst (λ x. P (x, v)) same (subst (λ x. P (j, x)) value_ h.0)
      go (no ne) there rest = rest there

  pub sizes-insert :
      (f : V → ℕ) (k : K) (v : V) (m : Map K V)
      → sizes f (insert k v m) + size_at f (find k m) ≡ sizes f m + f v
  unfolding find insert
  sizes-insert f k v [] = omega arith
  sizes-insert f k v ((j, w) ∷ m) = ground (arith, sizes-insert f k v m)

  pub sizes-erase :
      (f : V → ℕ) (k : K) (m : Map K V)
      → IsMap m
      → sizes f (erase k m) + size_at f (find k m) ≡ sizes f m
  unfolding find erase
  sizes-erase f k [] h = omega arith
  sizes-erase f k ((j, w) ∷ m) h = ground (arith, sizes-erase f k m h.1, erase_absent k m)

  pub size_at-le : (f : V → ℕ) (k : K) (m : Map K V) → size_at f (find k m) ≤ sizes f m
  unfolding find
  size_at-le f k [] = omega arith
  size_at-le f k ((j, w) ∷ m) = ground (arith, size_at-le f k m)
