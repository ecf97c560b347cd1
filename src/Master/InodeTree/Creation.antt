-- ===== src/Master/InodeTree/Creation.antt =====
-- What `create_file` and `create_directory` leave in memory, without a store.
use any_cache.Base.{
  ℕ, ◌+◌, ◌%◌, ◌≤◌, ◌<◌, ◌≡◌, inl, inr, refl, ap, sym, subst, ◌∙◌, true, Option, none, some, List,
  [], ◌∷◌, ◌++◌, find, insert, IsMap, arith, nat_key, Option-cases, Bool-cases, u64,
}
use any_cache.Common.Status.{StatusCode, k_ok, k_invalid_argument, k_already_exists, k_not_found}
use any_cache.Common.Database.{Database}
use any_cache.Master.Inode.{Name, Inode}
use any_cache.Master.OwnerGroupDict.{name_key}
use any_cache.Master.InodeTree.{
  InodeTree, touch, update, with_child, allocate_id, walk_parts, resolve_parts, split_last,
  split_path,
}
use any_cache.Master.InodeTree.Create.{
  new_file, add_file, create_in, create_below, create_parts, create_file,
}
use any_cache.Master.InodeTree.Shape.{down, IsNode, IsTree, touch_present, find-up}
use any_cache.Master.InodeTree.Growth.{grown-IsTree, links-grown, child-grown}
use any_cache.Master.InodeTree.Paths.{
  steps, follow, steps_mono, steps-append, steps-present, steps-resolve_parts, split_last-append,
  walk_parts-steps,
}

-- A tree without a store, of the right shape, with a free id.
pub record IsValid (db : Database) (t : InodeTree db) : Type 0 where
  pub in_memory : t.store ≡ none
  pub tree : IsTree t.root_id t.next_id [] t.dir_inodes

module _ (db : Database) where
  -- What a call may do to a tree: no link is lost.
  pub record Extends (t t' : InodeTree db) : Type 0 where
    pub valid : IsValid db t'
    pub same_root : t'.root_id ≡ t.root_id
    pub ids : t.next_id ≤ t'.next_id
    pub links :
        (parent : ℕ) (name : Name) (child : ℕ)
        → down parent name t.dir_inodes ≡ some child
        → down parent name t'.dir_inodes ≡ some child

  pub Extends-refl : (t : InodeTree db) → IsValid db t → Extends t t
  Extends-refl t valid = record {
    valid = valid;
    same_root = refl;
    ids = omega arith;
    links = λ parent name child h. h;
  }

  pub Extends-trans : (a b c : InodeTree db) → Extends a b → Extends b c → Extends a c
  Extends-trans a b c f g = record {
    valid = g.valid;
    same_root = g.same_root ∙ f.same_root;
    ids = omega (arith, f.ids, g.ids);
    links = λ parent name child h. g.links parent name child (f.links parent name child h);
  }

  -- The tree with one more inode, under the next id.
  abbrev pub added : ℕ → Inode → Inode → InodeTree db → InodeTree db
  added parent_id parent inode t = record t {
    dir_inodes =
        insert inode.id inode
          (insert parent_id (with_child inode.name inode.id parent) t.dir_inodes);
    next_id = (t.next_id + 1) % u64;
  }

  module _ (parent_id : ℕ) (parent inode : Inode) (t : InodeTree db) (valid : IsValid db t)
      (room : t.next_id + 1 < u64) (here : find parent_id t.dir_inodes ≡ some parent)
      (directory : parent.is_directory ≡ true) (free : find inode.name parent.children ≡ none)
      (id : inode.id ≡ t.next_id) (below : inode.parent_id ≡ parent_id)
      (leaf : inode.children ≡ []) where
    absent : find inode.id t.dir_inodes ≡ none
    absent = elim (Option-cases (find inode.id t.dir_inodes)) [
      | inl miss ↦ miss
      | inr (node, hit) ↦ absurd (omega (arith, id, (valid.tree.nodes inode.id node hit).below))
    ]

    later : (t.next_id + 1) % u64 ≡ t.next_id + 1
    later = omega arith

    new : IsNode (t.next_id + 1) inode.id inode
    new = record {
      same_id = refl;
      positive =
          let old = valid.tree.nodes parent_id parent here in
          omega (arith, id, old.positive, old.below);
      below = omega (arith, id);
      children_IsMap = subst IsMap (sym leaf) tt;
      leaf = λ file. leaf;
    }

    pub added-Extends : Extends t (added parent_id parent inode t)
    added-Extends = record {
      valid = record {
        in_memory = valid.in_memory;
        tree =
            subst (λ next. IsTree t.root_id next [] (added parent_id parent inode t).dir_inodes)
              (sym later)
              (grown-IsTree t.root_id t.next_id (t.next_id + 1) parent_id parent inode t.dir_inodes
                valid.tree (omega arith) here directory free new absent below leaf);
      };
      same_root = refl;
      ids = omega (arith, later);
      links =
          links-grown t.root_id t.next_id (t.next_id + 1) parent_id parent inode t.dir_inodes
            valid.tree (omega arith) here directory free new absent below leaf;
    }

    pub down-added :
        down parent_id inode.name (added parent_id parent inode t).dir_inodes ≡ some inode.id
    down-added =
        child-grown t.root_id t.next_id (t.next_id + 1) parent_id parent inode t.dir_inodes
          valid.tree (omega arith) here directory free new absent below leaf

  -- What a call that adds an inode below a directory gives: an id that it returns is listed there.
  abbrev Listed : ℕ → Name → InodeTree db → InodeTree db × StatusCode × Option ℕ → Type 0
  Listed parent_id name t r =
      Extends t r.0 × ((id : ℕ) → r.2 ≡ some id → down parent_id name r.0.dir_inodes ≡ some id)

  refused-Listed :
      (parent_id : ℕ) (name : Name) (t : InodeTree db) (status : StatusCode)
      → IsValid db t
      → Listed parent_id name t (t, status, none)
  refused-Listed parent_id name t status valid =
      (Extends-refl t valid, λ id h. absurd (ground (arith, h)))

  abbrev pub plain : InodeTree db → InodeTree db
  plain t = record t { store = none }

  pub plain_lem : (t : InodeTree db) → t.store ≡ none → plain t ≡ t
  plain_lem t memory = ap (λ store. record t { store = store }) (sym memory)

  pub create_in-added :
      (parent_id : ℕ) (name : Name) (mode now : ℕ) (t : InodeTree db) (parent : Inode)
      → t.store ≡ none
      → find parent_id t.dir_inodes ≡ some parent
      → parent.is_directory ≡ true
      → find name parent.children ≡ none
      → create_in db parent_id name mode now t ≡ (
        added parent_id parent (new_file t.next_id parent_id name mode now) t,
        k_ok,
        some t.next_id,
      )
  unfolding create_in add_file allocate_id update
  create_in-added parent_id name mode now t parent memory here directory free =
      subst Added (plain_lem t memory) (ground (arith, here, directory, free))
    where
      Added : InodeTree db → Type 0
      Added x = create_in db parent_id name mode now x ≡ (
        added parent_id parent (new_file t.next_id parent_id name mode now) x,
        k_ok,
        some t.next_id,
      )

  create_in-Listed :
      (parent_id : ℕ) (name : Name) (mode now : ℕ) (t : InodeTree db) (parent : Inode)
      → IsValid db t
      → t.next_id + 1 < u64
      → find parent_id t.dir_inodes ≡ some parent
      → Listed parent_id name t (create_in db parent_id name mode now t)
  unfolding create_in
  create_in-Listed parent_id name mode now t parent valid room here =
      elim (Bool-cases parent.is_directory) [
        | inr file ↦
            rw (here, file, create_in) (refused-Listed parent_id name t k_invalid_argument valid)
        | inl directory ↦ elim (Option-cases (find name parent.children)) [
          | inr (child, taken) ↦
              rw (here, directory, taken, create_in)
                (refused-Listed parent_id name t k_already_exists valid)
          | inl free ↦
              let inode = new_file t.next_id parent_id name mode now in
              subst (Listed parent_id name t)
                (sym (
                  create_in-added parent_id name mode now t parent valid.in_memory here directory
                    free))
                (
                  added-Extends parent_id parent inode t valid room here directory free refl refl
                      refl,
                  λ id h.
                      let same : t.next_id ≡ id = ground (arith, h) in
                      subst
                        (λ x.
                          down parent_id name (added parent_id parent inode t).dir_inodes ≡ some x)
                        same
                        (down-added parent_id parent inode t valid room here directory free refl
                          refl refl),
                )
        ]
      ]

  -- What a call for a path gives: an id that it returns is what the path then means.
  abbrev pub Leads : List Name → ℕ → InodeTree db → InodeTree db × StatusCode × Option ℕ → Type 0
  Leads parts current t r =
      Extends t r.0 × ((id : ℕ) → r.2 ≡ some id → steps parts current r.0.dir_inodes ≡ some id)

  pub refused-Leads :
      (parts : List Name) (current : ℕ) (t : InodeTree db) (status : StatusCode)
      → IsValid db t
      → Leads parts current t (t, status, none)
  refused-Leads parts current t status valid =
      (Extends-refl t valid, λ id h. absurd (ground (arith, h)))

  Listed-Leads :
      (front : List Name) (name : Name) (current parent_id : ℕ) (t : InodeTree db)
      (r : InodeTree db × StatusCode × Option ℕ)
      → steps front current t.dir_inodes ≡ some parent_id
      → Listed parent_id name t r
      → Leads (front ++ name ∷ []) current t r
  Listed-Leads front name current parent_id t r walked listed = (
    listed.0,
    λ id h.
        steps-append front name current r.0.dir_inodes
        ∙ ap (λ o. follow o (λ parent. down parent name r.0.dir_inodes))
            (steps_mono front current parent_id t.dir_inodes r.0.dir_inodes listed.0.links walked)
        ∙ listed.1 id h,
  )

  pub root_present :
      (t : InodeTree db) → IsValid db t → (root : Inode) × (find t.root_id t.dir_inodes ≡ some root)
  root_present t valid =
      let (root, here, _, _) = find-up t.root_id 0 [] t.dir_inodes valid.tree.root_up in
      (root, here)

  pub Leads-Resolves :
      (parts : List Name) (t : InodeTree db) (r : InodeTree db × StatusCode × Option ℕ)
      → Leads parts t.root_id t r
      → Extends t r.0
        × ((id : ℕ) → r.2 ≡ some id → resolve_parts parts r.0.root_id r.0.dir_inodes ≡ inr id)
  Leads-Resolves parts t r (extends, leads) = (
    extends,
    λ id h.
        steps-resolve_parts parts r.0.root_id id r.0.dir_inodes extends.valid.tree
          (ap (λ root. steps parts root r.0.dir_inodes) extends.same_root ∙ leads id h),
  )

  create_below-Leads :
      (o : Option ℕ) (front : List Name) (name : Name) (mode now : ℕ) (t : InodeTree db)
      → IsValid db t
      → t.next_id + 1 < u64
      → steps front t.root_id t.dir_inodes ≡ o
      → Leads (front ++ name ∷ []) t.root_id t (create_below db o name mode now t)
  unfolding create_below
  create_below-Leads none front name mode now t valid room walked =
      refused-Leads (front ++ name ∷ []) t.root_id t k_not_found valid
  create_below-Leads (some parent_id) front name mode now t valid room walked =
      let (root, top) = root_present t valid in
      let (parent, here) =
        steps-present front t.root_id parent_id root t.dir_inodes valid.tree top walked in
      let touched : t ≡ record t { dir_inodes = touch parent_id t.dir_inodes } =
        ap (λ dirs. record t { dir_inodes = dirs })
          (sym (touch_present parent_id parent t.dir_inodes here)) in
      subst (λ x. Leads (front ++ name ∷ []) t.root_id t (create_in db parent_id name mode now x))
        touched
        (Listed-Leads front name t.root_id parent_id t (create_in db parent_id name mode now t)
          walked (create_in-Listed parent_id name mode now t parent valid room here))

  create_parts-Leads :
      (parts : List Name) (mode now : ℕ) (t : InodeTree db)
      → IsValid db t
      → t.next_id + 1 < u64
      → Leads parts t.root_id t (create_parts db parts mode now t)
  unfolding create_parts
  create_parts-Leads [] mode now t valid room =
      refused-Leads [] t.root_id t k_invalid_argument valid
  create_parts-Leads (part ∷ parts) mode now t valid room =
      let front = (split_last part parts).0 in
      let name = (split_last part parts).1 in
      subst
        (λ xs.
          Leads xs t.root_id t
            (create_below db (walk_parts front t.root_id t.dir_inodes) name mode now t))
        (split_last-append part parts)
        (create_below-Leads (walk_parts front t.root_id t.dir_inodes) front name mode now t valid
          room (sym (walk_parts-steps front t.root_id t.dir_inodes)))

  -- In a tree without a store, of the right shape and with an id left, a call of `create_file`
  -- keeps the shape and every link there was, and an id that it returns is what the path then
  -- resolves to.
  pub create_file-Resolves :
      (path : List ℕ) (mode now : ℕ) (t : InodeTree db)
      → IsValid db t
      → t.next_id + 1 < u64
      → Extends t (create_file db path mode now t).0
        × ((id : ℕ)
            → (create_file db path mode now t).2 ≡ some id
            → resolve_parts
                (split_path path)
                (create_file db path mode now t).0.root_id
                (create_file db path mode now t).0.dir_inodes
              ≡ inr id)
  unfolding create_file
  create_file-Resolves path mode now t valid room =
      Leads-Resolves (split_path path) t (create_parts db (split_path path) mode now t)
        (create_parts-Leads (split_path path) mode now t valid room)
