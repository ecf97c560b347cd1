-- ===== src/Worker/LruCache/Puts.antt =====
-- `Put` on the list of entries: a present key's entry is renewed, a new key's entry may take the
-- place of the least recent one.
use any_cache.Base.{
  ℕ, ◌<◌, ◌≡◌, refl, ap, ◌∙◌, subst, inl, inr, true, false, Option, none, some, List, [], ◌∷◌, ◌++◌,
  drop, Key, find, insert, erase, length, nat_key, arith, leb, if◌then◌else◌, Option-cases,
  Bool-cases, length-insert_absent, find-erase, length-erase_present, find-first, find-insert_self,
}
use any_cache.Base.Nodes.{
  push_back, set_node, splice_back-hit, values-erase-insert, values, values-push, values-cons,
  length-values,
}
use any_cache.Base.Nodes.Linked.{
  Linked, without, lookup, without_hit, lookup_hit, lookup_miss, lookup-without_self, lookup-push,
  lookup-key, lookup-drop_one,
}
use any_cache.Base.Nodes.Steps.{Linked-add, Linked-move, Linked-write, Linked-pop}
use any_cache.Worker.LruCache.{LruCache, value_of, set_value, pop_lru, make_room, append, put}
use any_cache.Worker.LruCache.Entries.{key_of, IsValid, entries}

module _ {K V : Type 0} ⦃key : Key K⦄ where
  -- The entries that make room for one more: at the bound, all but the first.
  pub room : ℕ → List (K × V) → List (K × V)
  room bound es = if leb bound (length es) then drop 1 es else es

  room-lookup :
      (k : K) (bound : ℕ) (es : List (K × V))
      → lookup key_of k es ≡ none
      → lookup key_of k (room bound es) ≡ none
  unfolding room
  room-lookup k bound es h = elim (Bool-cases (leb bound (length es))) [
    | inl full ↦ rw full (lookup-drop_one key_of k es h)
    | inr short ↦ rw short h
  ]

  -- What a valid cache does on a put: a present key's entry is replaced by the new one at the end;
  -- at the bound, the least recent entry goes before a new key's entry is added at the end.
  pub record Put (k : K) (v : V) (c : LruCache K V) : Type 0 where
    pub after : LruCache K V
    pub result : put k v c ≡ some after
    pub valid : IsValid after
    pub order : entries after ≡ elim (lookup key_of k (entries c)) [
      | none ↦ room c.max_entries (entries c) ++ (k, v) ∷ []
      | some e ↦ without key_of k (entries c) ++ (e.0, v) ∷ []
    ]
    pub bound : after.max_entries ≡ c.max_entries

  -- A new key, once there is room.
  add-Put :
      (k : K) (v : V) (c c' : LruCache K V)
      → IsValid c
      → find k c.index ≡ none
      → make_room c ≡ some c'
      → Linked key_of c'.order.cells c'.order.fresh c'.index
      → length c'.index < c.max_entries
      → find k c'.index ≡ none
      → entries c' ≡ room c.max_entries (entries c)
      → c'.max_entries ≡ c.max_entries
      → Put k v c
  unfolding put append entries push_back
  add-Put k v c c' valid miss made l below absent left same = record {
    after = record c' {
      order = push_back (k, v) c'.order;
      index = insert k c'.order.fresh c'.index;
    };
    result = rw (miss, put, made, append);
    valid = record {
      linked = Linked-add key_of l (k, v) absent;
      bounded = omega (arith, length-insert_absent k c'.order.fresh c'.index absent, same);
      roomy = omega (arith, same, valid.roomy);
    };
    order =
        rw (lookup_miss key_of valid.linked k miss)
          (values-push c'.order.fresh (k, v) c'.order.cells ∙ ap (λ es. es ++ (k, v) ∷ []) left);
    bound = same;
  }

  room-full :
      (bound : ℕ) (a : K × V) (es : List (K × V))
      → leb bound (length (a ∷ es)) ≡ true
      → es ≡ room bound (a ∷ es)
  unfolding room
  room-full bound a es h = rw h

  full-Put :
      (k : K) (v : V) (c : LruCache K V) (cells : List (ℕ × (K × V)))
      → IsValid c
      → c.order.cells ≡ cells
      → find k c.index ≡ none
      → leb c.max_entries (length c.index) ≡ true
      → Put k v c
  unfolding make_room pop_lru entries
  full-Put k v c [] valid e miss full =
      absurd (ground (arith, valid.linked.count, valid.roomy, full, ap length e))
  full-Put k v c ((n, a) ∷ rest) valid e miss full =
      let l = subst (λ cells. Linked key_of cells c.order.fresh c.index) e valid.linked in
      let hit : find a.0 c.index ≡ some n = l.to_key n a (find-first n a rest) in
      let fewer = length-erase_present a.0 n c.index l.keys_distinct hit in
      let c' : LruCache K V = record c {
        order = record { cells = rest; fresh = c.order.fresh };
        index = erase a.0 c.index;
      } in
      add-Put k v c c' valid miss (rw (full, e, pop_lru))
        (Linked-pop key_of n a rest c.order.fresh c.index l) (omega (arith, fewer, valid.bounded))
        (ground (arith, find-erase a.0 k c.index, miss))
        (rw (e, values-cons)
          (room-full c.max_entries a (values rest)
            (ground (arith, full, length-values rest, valid.linked.count, ap length e))))
        refl

  hit-Put :
      (k : K) (v : V) (c : LruCache K V) (it : ℕ) → IsValid c → find k c.index ≡ some it → Put k v c
  unfolding put set_value set_node entries
  hit-Put k v c it valid hit =
      let (e, at, same) = valid.linked.to_node k it hit in
      let e' : K × V = (e.0, v) in
      let written = Linked-write key_of valid.linked it e e' at refl in
      let new : find it (insert it e' c.order.cells) ≡ some e' =
        find-insert_self it e' c.order.cells in
      let moved = splice_back-hit it e' (set_node it e' c.order) new in
      let there = lookup_hit key_of valid.linked k it hit ∙ at in
      record {
        after = record c {
          order = record {
            cells = erase it (insert it e' c.order.cells) ++ (it, e') ∷ [];
            fresh = c.order.fresh;
          };
        };
        result = rw (hit, put, at, set_value, moved);
        valid = record {
          linked = Linked-move key_of written it e' new;
          bounded = valid.bounded;
          roomy = valid.roomy;
        };
        order =
            rw (there, without_hit key_of valid.linked k it hit)
              (values-push it e' (erase it (insert it e' c.order.cells))
                ∙ ap (λ es. es ++ e' ∷ []) (values-erase-insert it e' c.order.cells));
        bound = refl;
      }

  -- On a valid cache `Put` is defined and keeps it valid and its bound: the entry of a present key
  -- takes the value and becomes the most recent one; a new key's entry is added as the most recent,
  -- after the least recent entry was dropped where the cache was at its bound.
  pub put-Put : (k : K) (v : V) (c : LruCache K V) → IsValid c → Put k v c
  unfolding make_room entries room
  put-Put k v c valid = elim (Option-cases (find k c.index)) [
    | inr (it, hit) ↦ hit-Put k v c it valid hit
    | inl miss ↦ elim (Bool-cases (leb c.max_entries (length c.index))) [
      | inl full ↦ full-Put k v c c.order.cells valid refl miss full
      | inr open_ ↦
          let short : leb c.max_entries (length (values c.order.cells)) ≡ false =
            ground (arith, open_, length-values c.order.cells, valid.linked.count) in
          add-Put k v c c valid miss (rw open_) valid.linked (ground (arith, open_)) miss (rw short)
            refl
    ]
  ]

  -- What was put is found under its key.
  pub lookup-Put :
      (k : K) (v : V) (c : LruCache K V) (p : Put k v c)
      → value_of (lookup key_of k (entries p.after)) ≡ some v
  unfolding value_of
  lookup-Put k v c p = elim (Option-cases (lookup key_of k (entries c))) [
    | inl miss ↦
        let order = p.order ∙ stored miss in
        rw order (
          ap value_of (
            lookup-push key_of k (k, v) (room c.max_entries (entries c))
              (room-lookup k c.max_entries (entries c) miss) refl))
    | inr (e, hit) ↦ rw (p.order ∙ replaced e hit) (
        ap value_of (
          lookup-push key_of k (e.0, v) (without key_of k (entries c))
            (lookup-without_self key_of k (entries c)) (lookup-key key_of k e (entries c) hit)))
  ]
    where
      Order : Option (K × V) → List (K × V)
      Order o = elim o [
        | none ↦ room c.max_entries (entries c) ++ (k, v) ∷ []
        | some e ↦ without key_of k (entries c) ++ (e.0, v) ∷ []
      ]

      stored :
          lookup key_of k (entries c) ≡ none
          → Order (lookup key_of k (entries c)) ≡ room c.max_entries (entries c) ++ (k, v) ∷ []
      stored h = ap Order h

      replaced :
          (e : K × V)
          → lookup key_of k (entries c) ≡ some e
          → Order (lookup key_of k (entries c)) ≡ without key_of k (entries c) ++ (e.0, v) ∷ []
      replaced e h = ap Order h
