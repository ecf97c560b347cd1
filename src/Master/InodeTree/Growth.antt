-- ===== src/Master/InodeTree/Growth.antt =====
-- The calls that add an inode keep the tree's shape.
use any_cache.Base.{
  ℕ, ◌≤◌, ◌≡◌, ◌⊎◌, ap, ◌∙◌, true, false, none, some, [], find, find-nil, insert, mem, mem-nil, ite,
  arith, ℕ_discrete, nat_key, find-insert, insert-IsMap,
}
use any_cache.Master.Inode.{Name, Inode}
use any_cache.Master.OwnerGroupDict.{name_key, Name-discrete}
use any_cache.Master.InodeTree.{Dirs, with_child}
use any_cache.Master.InodeTree.Shape.{
  up, down, IsNode, IsTree, up-insert, down-insert, up-find, down-find, nodes-insert, up-absent,
  down-absent,
}

-- An inode with no children under a new name of a directory.
module _ (root next later parent_id : ℕ) (parent_node inode : Inode) (dirs : Dirs)
    (tree : IsTree root next [] dirs) (grows : next ≤ later)
    (here : find parent_id dirs ≡ some parent_node) (directory : parent_node.is_directory ≡ true)
    (free : find inode.name parent_node.children ≡ none) (new : IsNode later inode.id inode)
    (absent : find inode.id dirs ≡ none) (below : inode.parent_id ≡ parent_id)
    (leaf : inode.children ≡ []) where
  abbrev grown : Dirs
  grown = insert inode.id inode (insert parent_id (with_child inode.name inode.id parent_node) dirs)

  up-grown :
      (j : ℕ) → up j grown ≡ ite (ℕ_discrete inode.id j) (some (parent_id, inode.name)) (up j dirs)
  up-grown j = ground (
    arith,
    up-insert inode.id j inode (insert parent_id (with_child inode.name inode.id parent_node) dirs),
    up-insert parent_id j (with_child inode.name inode.id parent_node) dirs,
    up-find parent_id parent_node dirs here,
    below,
  )

  down-grown :
      (j : ℕ) (name : Name)
      → down j name grown
        ≡ ite (ℕ_discrete inode.id j) none (
            ite
              (ℕ_discrete parent_id j)
              (ite (Name-discrete inode.name name) (some inode.id) (down j name dirs))
              (down j name dirs))
  down-grown j name = ground (
    arith,
    down-insert inode.id j name inode
        (insert parent_id (with_child inode.name inode.id parent_node) dirs),
    down-insert parent_id j name (with_child inode.name inode.id parent_node) dirs,
    down-find parent_id name parent_node dirs here,
    find-insert inode.name name inode.id parent_node.children,
    ap (find name) leaf ∙ find-nil name,
  )

  lists-grown :
      (id : ℕ) (name : Name) (child : ℕ)
      → down id name grown ≡ some child
      → (up child grown ≡ some (id, name)) × (mem child [] ≡ false)
  lists-grown id name child h =
      let old : (down id name dirs ≡ some child) → up child dirs ≡ some (id, name) =
        λ e. (tree.lists id name child e).0 in
      let absent_up : up inode.id dirs ≡ none = up-absent inode.id dirs absent in
      (ground (arith, down-grown id name, up-grown child, old, absent_up), mem-nil child)

  listed-grown :
      (id parent : ℕ) (name : Name)
      → up id grown ≡ some (parent, name)
      → (id ≡ root) ⊎ ((mem id [] ≡ true) ⊎ (down parent name grown ≡ some id))
  listed-grown id parent name h =
      let old = tree.listed id parent name in
      let absent_down : down inode.id name dirs ≡ none = down-absent inode.id name dirs absent in
      let free_down : down parent_id inode.name dirs ≡ none =
        down-find parent_id inode.name parent_node dirs here ∙ free in
      ground (arith, down-grown parent name, up-grown id, old, absent_down, free_down, mem-nil id)

  pub links-grown :
      (id : ℕ) (name : Name) (child : ℕ)
      → down id name dirs ≡ some child
      → down id name grown ≡ some child
  links-grown id name child h =
      let absent_down : down inode.id name dirs ≡ none = down-absent inode.id name dirs absent in
      let free_down : down parent_id inode.name dirs ≡ none =
        down-find parent_id inode.name parent_node dirs here ∙ free in
      ground (arith, down-grown id name, absent_down, free_down, h)

  pub child-grown : down parent_id inode.name grown ≡ some inode.id
  child-grown =
      let absent_down : find inode.id dirs ≡ none = absent in
      ground (arith, down-grown parent_id inode.name, here, absent_down)

  pub grown-IsTree : IsTree root later [] grown
  grown-IsTree = record {
    nodes =
        nodes-insert later later inode.id inode _ (omega arith)
          (nodes-insert next later parent_id _ dirs grows tree.nodes (record {
            same_id = old.same_id;
            positive = old.positive;
            below = omega (arith, old.below);
            children_IsMap =
                insert-IsMap inode.name inode.id parent_node.children old.children_IsMap;
            leaf = λ no. absurd (ground (arith, no, directory));
          }))
          new;
    lists = lists-grown;
    listed = listed-grown;
    root_up = ground (arith, up-grown root, tree.root_up, up-absent inode.id dirs absent);
    root_stays = mem-nil root;
    root_directory = λ n e. ground (
      arith,
      find-insert inode.id root inode
          (insert parent_id (with_child inode.name inode.id parent_node) dirs),
      find-insert parent_id root (with_child inode.name inode.id parent_node) dirs,
      tree.root_directory n,
      up-absent inode.id dirs absent,
      tree.root_up,
      e,
    );
  }
    where
      old : IsNode next parent_id parent_node
      old = tree.nodes parent_id parent_node here
