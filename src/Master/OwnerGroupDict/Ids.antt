-- ===== src/Master/OwnerGroupDict/Ids.antt =====
-- Ids name what they were given for.
use any_cache.Base.{
  ℕ, zero, suc, ◌+◌, ◌%◌, ◌≤◌, ◌≡◌, ◌⊎◌, inl, inr, refl, ap, sym, subst, ◌∙◌, true, none, some,
  List, [], ◌∷◌, ◌++◌, find, insert, length, arith, leb, find-insert, ite, Option-cases, Bool-cases,
  length-append,
}
use any_cache.Master.OwnerGroupDict.{
  Dict, name_key, Name-discrete, get_or_add, get_or_add_new, lookup, nth,
}

-- Every id in the map is that of its name in the list.
abbrev pub IsNamed : Dict → Type 0
IsNamed d =
    (s : List ℕ) (id : ℕ)
    → find s d.ids ≡ some id
    → (1 ≤ id) × (id ≤ length d.names) × (lookup id d.names ≡ s)

nth-append : (i : ℕ) (xs ys : List (List ℕ)) → suc i ≤ length xs → nth i (xs ++ ys) ≡ nth i xs
unfolding nth
nth-append i [] ys h = absurd (omega arith)
nth-append zero (x ∷ xs) ys h = refl
nth-append (suc i) (x ∷ xs) ys h = nth-append i xs ys (omega arith)

nth-last : (xs : List (List ℕ)) (s : List ℕ) → nth (length xs) (xs ++ s ∷ []) ≡ s
unfolding nth
nth-last [] s = refl
nth-last (x ∷ xs) s = nth-last xs s

lookup-append :
    (id : ℕ) (xs ys : List (List ℕ)) → 1 ≤ id → id ≤ length xs → lookup id (xs ++ ys) ≡ lookup id xs
unfolding lookup
lookup-append zero xs ys h k = refl
lookup-append (suc i) xs ys h k = nth-append i xs ys k

-- Every name keeps its id, and every id reads back as before.
abbrev pub Keeps : Dict → Dict → Type 0
Keeps d d' =
    ((t : List ℕ) (id : ℕ) → find t d.ids ≡ some id → find t d'.ids ≡ some id)
    × ((id : ℕ) → id ≤ length d.names → lookup id d'.names ≡ lookup id d.names)

Keeps-refl : (d : Dict) → Keeps d d
Keeps-refl d = ((λ t id h. h), (λ id h. refl))

-- What the call for a name gives: its id, or 0 where the dictionary is full and does not have it.
abbrev pub Given : List ℕ → Dict → Dict × ℕ → Type 0
Given s d r =
    IsNamed r.0
    × Keeps d r.0
    × ((lookup r.1 r.0.names ≡ s) ⊎ ((find s d.ids ≡ none) × (255 ≤ length d.names) × (r ≡ (d, 0))))

lookup_zero : (xs : List (List ℕ)) → lookup 0 xs ≡ []
unfolding lookup
lookup_zero xs = refl

lookup-last : (xs : List (List ℕ)) (s : List ℕ) → lookup (suc (length xs)) (xs ++ s ∷ []) ≡ s
unfolding lookup
lookup-last xs s = nth-last xs s

-- A new name at the end of the list, under the id after the last.
add-IsNamed :
    (s : List ℕ) (d d' : Dict)
    → IsNamed d
    → d'.names ≡ d.names ++ s ∷ []
    → d'.ids ≡ insert s (suc (length d.names)) d.ids
    → IsNamed d'
add-IsNamed s d d' n names ids t id e =
    go (Name-discrete s t)
      (sym (find-insert s t (suc (length d.names)) d.ids) ∙ ap (find t) (sym ids) ∙ e)
  where
    long : length d'.names ≡ suc (length d.names)
    long =
        ap (λ (xs : List (List ℕ)). length xs) names ∙ length-append d.names (s ∷ []) ∙ omega arith

    go :
        (dec : Dec (s ≡ t))
        → ite dec (some (suc (length d.names))) (find t d.ids) ≡ some id
        → (1 ≤ id) × (id ≤ length d'.names) × (lookup id d'.names ≡ t)
    go (yes same) h =
        let is_last : suc (length d.names) ≡ id = ground (arith, h) in
        (
          omega (arith, is_last),
          omega (arith, is_last, long),
          ap (lookup id) names
              ∙ ap (λ i. lookup i (d.names ++ s ∷ [])) (sym is_last)
              ∙ lookup-last d.names s
              ∙ same,
        )
    go (no ne) h =
        let (low, high, named) = n t id h in
        (
          low,
          omega (arith, high, long),
          ap (lookup id) names ∙ lookup-append id d.names (s ∷ []) low high ∙ named,
        )

-- The new name leaves the others where they are.
add-Keeps :
    (s : List ℕ) (d : Dict)
    → find s d.ids ≡ none
    → Keeps d (record {
      names = d.names ++ s ∷ [];
      ids = insert s (suc (length d.names)) d.ids;
      dirty = true;
    })
add-Keeps s d miss = (
  (λ t id h. ground (arith, find-insert s t (suc (length d.names)) d.ids, h, miss)),
  (λ id h. kept id h),
)
  where
    kept : (id : ℕ) → id ≤ length d.names → lookup id (d.names ++ s ∷ []) ≡ lookup id d.names
    kept zero h = lookup_zero (d.names ++ s ∷ []) ∙ sym (lookup_zero d.names)
    kept (suc i) h = lookup-append (suc i) d.names (s ∷ []) (omega arith) h

new-Given :
    (s : List ℕ) (d : Dict) → IsNamed d → find s d.ids ≡ none → Given s d (get_or_add_new s d)
unfolding get_or_add_new
new-Given s d n miss = elim (Bool-cases (leb 255 (length d.names))) [
  | inl full ↦ rw (full, get_or_add_new) (n, Keeps-refl d, inr (miss, ground (arith, full), refl))
  | inr space ↦
      let small : (length d.names + 1) % 256 ≡ suc (length d.names) = ground (arith, space) in
      rw (space, small, get_or_add_new)
        (
          add-IsNamed s d
              (record {
                names = d.names ++ s ∷ [];
                ids = insert s (suc (length d.names)) d.ids;
                dirty = true;
              })
              n refl refl,
          add-Keeps s d miss,
          inl (lookup-last d.names s),
        )
]

-- On a dictionary whose ids name what they were given for, a call for a name keeps it so, every
-- name that was there keeps its id, every id that was there reads back as before, and the id that it
-- returns reads back as the name; only where the dictionary is full and does not have the
-- name is the id 0 and nothing changed.
pub get_or_add-Given : (s : List ℕ) (d : Dict) → IsNamed d → Given s d (get_or_add s d)
unfolding get_or_add
get_or_add-Given [] d n = (n, Keeps-refl d, inl (lookup_zero d.names))
get_or_add-Given (c ∷ cs) d n = elim (Option-cases (find (c ∷ cs) d.ids)) [
  | inl miss ↦
      let same : get_or_add_new (c ∷ cs) d ≡ get_or_add (c ∷ cs) d = ground (arith, miss) in
      subst (Given (c ∷ cs) d) same (new-Given (c ∷ cs) d n miss)
  | inr (id, hit) ↦
      let same : (d, id) ≡ get_or_add (c ∷ cs) d = ground (arith, hit) in
      subst (Given (c ∷ cs) d) same (n, Keeps-refl d, inl (n (c ∷ cs) id hit).2)
]
