-- ===== src/Worker/Policy/Lfu/Ages.antt =====
-- The lists of `LFUPolicy` are by age: against the blocks with their frequencies in the order in which
-- they got them.
use any_cache.Base.{
  ℕ, suc, ◌+◌, ◌≤◌, ◌<◌, ◌≡◌, ◌≢◌, refl, ap, sym, subst, ◌∙◌, inl, inr, ite, true, Option, none,
  some, List, [], ◌∷◌, ◌++◌, All, Map, find, erase, nat_key, arith, ℕ_discrete, mem, mem-cons,
  mem-first, Once, Option-cases, Bool-cases, find-insert, find-erase, u64, ◌+u64◌,
}
use any_cache.Worker.Policy.Lfu.{
  LfuPolicy, empty, remove, list_at, store_list, move_up, on_access, on_insert, on_remove, evict,
  size,
}
use any_cache.Worker.Policy.Lfu.Lists.{list_at-insert, list_at-store, remove_absent, remove-first}
use any_cache.Worker.Policy.Lfu.Tracking.{IsValid, unlisted}
use any_cache.Worker.Policy.Lfu.Evict.{Evicted, evict-Evicted}
use any_cache.Worker.Policy.Lfu.Least.{
  Reach, start, accessed, inserted, removed, evicted, Good, Reach-Good, least,
}

-- Blocks with their frequencies, the one that has had its frequency longest first.
abbrev pub Ages : Type 0
Ages = Map ℕ ℕ

-- The block goes to the end with its new frequency.
abbrev pub renew : ℕ → ℕ → Ages → Ages
renew id f ages = erase id ages ++ (id, f) ∷ []

abbrev pub age_access : ℕ → Option ℕ → Ages → Ages
age_access id none ages = ages
age_access id (some f) ages = renew id (f + 1) ages

abbrev pub age_insert : ℕ → Option ℕ → Ages → Ages
age_insert id none ages = renew id 1 ages
age_insert id (some f) ages = renew id (f + 1) ages

-- A number of calls leads to a state of the policy, and to the ages beside it.
pub data Aged : ℕ → Ages → LfuPolicy → Type 0 where
  fresh : Aged 0 [] empty
  after_access :
      {n : ℕ} {ages : Ages} {p : LfuPolicy} (id : ℕ)
      → Aged n ages p
      → Aged (suc n) (age_access id (find id ages) ages) (on_access id p)
  after_insert :
      {n : ℕ} {ages : Ages} {p : LfuPolicy} (id : ℕ)
      → Aged n ages p
      → Aged (suc n) (age_insert id (find id ages) ages) (on_insert id p)
  after_remove :
      {n : ℕ} {ages : Ages} {p : LfuPolicy} (id : ℕ)
      → Aged n ages p
      → Aged (suc n) (erase id ages) (on_remove id p)
  after_evict :
      {n : ℕ} {ages : Ages} {p : LfuPolicy} (q : LfuPolicy) (v : ℕ)
      → Aged n ages p
      → 0 < size p
      → evict p ≡ some (q, v)
      → Aged (suc n) (erase v ages) q

Aged-Reach : {n : ℕ} {ages : Ages} {p : LfuPolicy} → Aged n ages p → Reach n p
Aged-Reach fresh = start
Aged-Reach (after_access id a) = accessed id (Aged-Reach a)
Aged-Reach (after_insert id a) = inserted id (Aged-Reach a)
Aged-Reach (after_remove id a) = removed id (Aged-Reach a)
Aged-Reach (after_evict q v a h e) = evicted q v (Aged-Reach a) h e

-- The blocks of a frequency, the oldest first.
abbrev pub at : ℕ → Ages → List ℕ
at f [] = []
at f ((id, g) ∷ ages) = let rest = at f ages in ite (ℕ_discrete g f) (id ∷ rest) rest

at-append :
    (f id g : ℕ) (ages : Ages)
    → at f (ages ++ (id, g) ∷ []) ≡ ite (ℕ_discrete g f) (at f ages ++ id ∷ []) (at f ages)
at-append f id g [] = ground arith
at-append f id g ((j, h) ∷ ages) = ground (arith, at-append f id g ages)

at-erase : (f id : ℕ) (ages : Ages) → at f (erase id ages) ≡ remove id (at f ages)
unfolding erase remove
at-erase f id [] = refl
at-erase f id ((j, h) ∷ ages) = ground (arith, at-erase f id ages)

find-append :
    (j id f : ℕ) (ages : Ages)
    → find j (ages ++ (id, f) ∷ [])
      ≡ elim (find j ages) [ none ↦ ite (ℕ_discrete id j) (some f) none | some g ↦ some g ]
unfolding find
find-append j id f [] = refl
find-append j id f ((i, g) ∷ ages) = ground (arith, find-append j id f ages)

find-renew :
    (j id f : ℕ) (ages : Ages)
    → find j (renew id f ages) ≡ ite (ℕ_discrete id j) (some f) (find j ages)
find-renew j id f ages = elim (Option-cases (find j (erase id ages))) [
  | inl miss ↦ ground (arith, find-append j id f (erase id ages), miss, find-erase id j ages)
  | inr (g, hit) ↦ ground (arith, find-append j id f (erase id ages), hit, find-erase id j ages)
]

-- The policy holds the ages.
record Holds (ages : Ages) (p : LfuPolicy) : Type 0 where
  lists : (f : ℕ) → list_at f p.freq_lists ≡ at f ages
  freqs : (id : ℕ) → find id p.freq_map ≡ find id ages

-- The list of another frequency than the block's.
others :
    (id f g : ℕ) (p : LfuPolicy)
    → IsValid p
    → find id p.freq_map ≡ some f
    → f ≢ g
    → remove id (list_at g p.freq_lists) ≡ list_at g p.freq_lists
others id f g p t hit ne = remove_absent id (list_at g p.freq_lists) (unlisted t id f g hit ne)

unknown :
    (id g : ℕ) (p : LfuPolicy)
    → IsValid p
    → find id p.freq_map ≡ none
    → remove id (list_at g p.freq_lists) ≡ list_at g p.freq_lists
unknown id g p t miss =
    remove_absent id (list_at g p.freq_lists) (elim (Bool-cases (mem id (list_at g p.freq_lists))) [
      | inl there ↦ absurd (ground (arith, t.indexed g id there, miss))
      | inr gone ↦ gone
    ])

move_up-Holds :
    (id old : ℕ) (ages : Ages) (p : LfuPolicy)
    → IsValid p
    → Holds ages p
    → find id p.freq_map ≡ some old
    → Holds (renew id (old + 1) ages) (move_up id old (old + 1) p)
unfolding move_up
move_up-Holds id old ages p t h hit = record {
  lists = λ g.
      let old_list = remove id (list_at old p.freq_lists) in
      ground (
        arith,
        list_at-insert g (old + 1)
            (list_at (old + 1) (store_list old old_list p.freq_lists) ++ id ∷ [])
            (store_list old old_list p.freq_lists),
        list_at-store g old old_list p.freq_lists,
        list_at-store (old + 1) old old_list p.freq_lists,
        at-append g id (old + 1) (erase id ages),
        at-erase g id ages,
        sym (h.lists g),
        others id old g p t hit,
      );
  freqs = λ j.
      ground
        (arith, find-insert id j (old + 1) p.freq_map, find-renew j id (old + 1) ages, h.freqs j);
}

access-Holds :
    (n id : ℕ) (ages : Ages) (p : LfuPolicy)
    → Good n p
    → suc n < u64
    → Holds ages p
    → Holds (age_access id (find id ages) ages) (on_access id p)
unfolding on_access ◌+u64◌
access-Holds n id ages p good room h = elim (Option-cases (find id p.freq_map)) [
  | inl miss ↦ rw (miss, on_access, sym (h.freqs id) ∙ miss) h
  | inr (old, hit) ↦
      let exact : old +u64 1 ≡ old + 1 = omega (arith, good.bounded id old hit, room) in
      rw (hit, on_access, sym (h.freqs id) ∙ hit, exact)
        (move_up-Holds id old ages p good.valid h hit)
]

insert_new-Holds :
    (id : ℕ) (ages : Ages) (p : LfuPolicy)
    → IsValid p
    → Holds ages p
    → find id p.freq_map ≡ none
    → Holds (renew id 1 ages) (on_insert id p)
unfolding on_insert
insert_new-Holds id ages p t h miss =
    rw (miss, on_insert)
      (record {
        lists = λ g. ground (
          arith,
          list_at-insert g 1 (list_at 1 p.freq_lists ++ id ∷ []) p.freq_lists,
          at-append g id 1 (erase id ages),
          at-erase g id ages,
          sym (h.lists g),
          unknown id g p t miss,
        );
        freqs =
            λ j. ground (arith, find-insert id j 1 p.freq_map, find-renew j id 1 ages, h.freqs j);
      })

insert-Holds :
    (n id : ℕ) (ages : Ages) (p : LfuPolicy)
    → Good n p
    → suc n < u64
    → Holds ages p
    → Holds (age_insert id (find id ages) ages) (on_insert id p)
unfolding on_insert
insert-Holds n id ages p good room h = elim (Option-cases (find id p.freq_map)) [
  | inl miss ↦
      subst (λ o. Holds (age_insert id o ages) (on_insert id p)) (sym (sym (h.freqs id) ∙ miss))
        (insert_new-Holds id ages p good.valid h miss)
  | inr (old, hit) ↦
      let known : find id ages ≡ some old = sym (h.freqs id) ∙ hit in
      let same : on_access id p ≡ on_insert id p = ground (arith, hit) in
      subst (λ o. Holds (age_insert id o ages) (on_insert id p)) (sym known)
        (subst (Holds (renew id (old + 1) ages)) same (
          subst (λ o. Holds (age_access id o ages) (on_access id p)) known
            (access-Holds n id ages p good room h)))
]

remove-Holds :
    (id : ℕ) (ages : Ages) (p : LfuPolicy)
    → IsValid p
    → Holds ages p
    → Holds (erase id ages) (on_remove id p)
unfolding on_remove
remove-Holds id ages p t h = elim (Option-cases (find id p.freq_map)) [
  | inl miss ↦
      rw (miss, on_remove)
        (record {
          lists = λ g. ground (arith, at-erase g id ages, sym (h.lists g), unknown id g p t miss);
          freqs = λ j. ground (arith, find-erase id j ages, h.freqs j, miss);
        })
  | inr (f, hit) ↦
      rw (hit, on_remove)
        (record {
          lists = λ g. ground (
            arith,
            list_at-store g f (remove id (list_at f p.freq_lists)) p.freq_lists,
            at-erase g id ages,
            sym (h.lists g),
            others id f g p t hit,
          );
          freqs = λ j. ground (arith, find-erase id j p.freq_map, find-erase id j ages, h.freqs j);
        })
]

evict-Holds :
    (ages : Ages) (p : LfuPolicy)
    → IsValid p
    → Holds ages p
    → (e : Evicted p) → Holds (erase e.victim ages) e.after
evict-Holds ages p t h e =
    let f = e.found.freq in
    let here : find e.victim p.freq_map ≡ some f =
      t.indexed f e.victim (rw e.oldest (mem-first e.victim e.rest)) in
    let first : remove e.victim (list_at f p.freq_lists) ≡ e.rest =
      ap (remove e.victim) e.oldest
      ∙ remove-first e.victim e.rest (subst Once e.oldest (t.once f)) in
    record {
      lists = λ g. ground (
        arith,
        e.lists g,
        at-erase g e.victim ages,
        sym (h.lists g),
        others e.victim f g p t here,
        first,
      );
      freqs = λ j. ground (
        arith,
        ap (find j) e.freqs,
        find-erase e.victim j p.freq_map,
        find-erase e.victim j ages,
        h.freqs j,
      );
    }

Aged-Holds : {n : ℕ} {ages : Ages} {p : LfuPolicy} → Aged n ages p → n < u64 → Holds ages p
unfolding find
Aged-Holds fresh room = record { lists = λ f. refl; freqs = λ id. refl }
Aged-Holds (after_access {n} {ages} {p} id a) room =
    access-Holds n id ages p (Reach-Good (Aged-Reach a) (omega arith)) room
      (Aged-Holds a (omega arith))
Aged-Holds (after_insert {n} {ages} {p} id a) room =
    insert-Holds n id ages p (Reach-Good (Aged-Reach a) (omega arith)) room
      (Aged-Holds a (omega arith))
Aged-Holds (after_remove {n} {ages} {p} id a) room =
    let good = Reach-Good (Aged-Reach a) (omega arith) in
    remove-Holds id ages p good.valid (Aged-Holds a (omega arith))
Aged-Holds (after_evict {n} {ages} {p} q v a used eq) room =
    let good = Reach-Good (Aged-Reach a) (omega arith) in
    let e = evict-Evicted p good.valid used in
    let same : (e.after, e.victim) ≡ (q, v) = ground (arith, e.result, eq) in
    subst (λ (r : LfuPolicy × ℕ). Holds (erase r.1 ages) r.0) same
      (evict-Holds ages p good.valid (Aged-Holds a (omega arith)) e)

-- A bound that holds of the blocks of every frequency holds of all entries.
All-least :
    (f : ℕ) (ages : Ages)
    → ((id g : ℕ) → mem id (at g ages) ≡ true → f ≤ g)
    → All (λ (e : ℕ × ℕ). f ≤ e.1) ages
All-least f [] h = tt
All-least f ((id, g) ∷ ages) h = (
  h id g (ground (arith, mem-first id (at g ages))),
  All-least f ages (λ j k m. h j k (ground (arith, m, mem-cons j id (at k ages)))),
)

-- The first block of a least frequency: before it all frequencies are higher.
oldest_least :
    (f v : ℕ) (rest : List ℕ) (ages : Ages)
    → at f ages ≡ v ∷ rest
    → All (λ (e : ℕ × ℕ). f ≤ e.1) ages
    → (front : Ages) × (back : Ages) × (ages ≡ front ++ (v, f) ∷ back)
      × All (λ (e : ℕ × ℕ). f < e.1) front
      × All (λ (e : ℕ × ℕ). f ≤ e.1) back
oldest_least f v rest [] h low = absurd (ground (arith, h))
oldest_least f v rest ((id, g) ∷ ages) h low = elim (ℕ_discrete g f) [
  | yes same ↦
      let is_v : id ≡ v = ground (arith, h, same) in
      ([], ages, ground (arith, is_v, same), tt, low.1)
  | no ne ↦
      let further : at f ages ≡ v ∷ rest = ground (arith, h, ne) in
      let (front, back, split, high, above) = oldest_least f v rest ages further low.1 in
      (
        (id, g) ∷ front,
        back,
        ap (λ es. (id, g) ∷ es) split,
        (omega (arith, ne, low.0), high),
        above,
      )
]

-- From any state that fewer than 2 ^ 64 calls lead to and that tracks a block, `Evict` returns. With
-- the blocks in the order in which they got their frequencies, the longest ago first, its victim
-- stands behind blocks of higher frequencies only and before blocks of no lower ones: it has the
-- least frequency of all, and of the blocks with that frequency it got it first.
pub evict-oldest :
    (n : ℕ) (ages : Ages) (p : LfuPolicy)
    → Aged n ages p
    → n < u64
    → 0 < size p
    → (q : LfuPolicy) × (v : ℕ) × (f : ℕ) × (front : Ages) × (back : Ages) × (evict p ≡ some (q, v))
      × (ages ≡ front ++ (v, f) ∷ back)
      × All (λ (e : ℕ × ℕ). f < e.1) front
      × All (λ (e : ℕ × ℕ). f ≤ e.1) back
evict-oldest n ages p a room used =
    let good = Reach-Good (Aged-Reach a) room in
    let h = Aged-Holds a room in
    let e = evict-Evicted p good.valid used in
    let f = e.found.freq in
    let first : at f ages ≡ e.victim ∷ e.rest = sym (h.lists f) ∙ e.oldest in
    let low : (id g : ℕ) → mem id (at g ages) ≡ true → f ≤ g = λ id g m.
      least n p good.valid good.bounded e id g
        (good.valid.indexed g id (ap (mem id) (h.lists g) ∙ m)) in
    let (front, back, split, high, above) =
      oldest_least f e.victim e.rest ages first (All-least f ages low) in
    (e.after, e.victim, f, front, back, e.result, split, high, above)
