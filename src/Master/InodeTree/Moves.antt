-- ===== src/Master/InodeTree/Moves.antt =====
-- A move of an inode keeps the tree's shape.
use any_cache.Base.{
  ℕ, ◌≡◌, ◌≢◌, ◌⊎◌, inl, inr, refl, ap, ◌∙◌, Bool, true, false, Option, none, some, [], find, erase,
  mem, mem-nil, ite, arith, ℕ_discrete, nat_key, find-insert, find-erase, insert-IsMap, erase-IsMap,
  Option-cases, Map,
}
use any_cache.Master.Inode.{Name, Inode}
use any_cache.Master.OwnerGroupDict.{name_key, Name-discrete}
use any_cache.Master.InodeTree.{Dirs, update, with_child}
use any_cache.Master.InodeTree.Remove.{without_child}
use any_cache.Master.InodeTree.Change.{Move, moved, move_in_memory}
use any_cache.Master.InodeTree.Shape.{
  up, down, IsTree, up-update, down-update, up-find, down-find, down-absent, find-update_present,
  nodes-update, root-update,
}

-- Whether an inode is a directory.
abbrev flag : Option Inode → Option Bool
flag none = none
flag (some inode) = some inode.is_directory

pub erase_nil : (name : Name) (children : Map Name ℕ) → children ≡ [] → erase name children ≡ []
unfolding erase
erase_nil name children h = ap (erase name) h

module _ (id : ℕ) (inode : Inode) (dirs : Dirs) (here : find id dirs ≡ some inode) where
  -- A change that keeps the flag.
  kind-update :
      (change : Inode → Inode) (j : ℕ)
      → (change inode).is_directory ≡ inode.is_directory
      → flag (find j (update id change dirs)) ≡ flag (find j dirs)
  kind-update change j keeps =
      ground (arith, find-update_present id inode change dirs here j, keeps, here)

  pub up-without_child :
      (name : Name) (j : ℕ) → up j (update id (without_child name) dirs) ≡ up j dirs
  up-without_child name j =
      ground
        (arith, up-update id inode (without_child name) dirs here j, up-find id inode dirs here)

  pub down-without_child :
      (name : Name) (j : ℕ) (other : Name)
      → down j other (update id (without_child name) dirs)
        ≡ ite
            (ℕ_discrete id j)
            (ite (Name-discrete name other) none (down j other dirs))
            (down j other dirs)
  down-without_child name j other = ground (
    arith,
    down-update id inode (without_child name) dirs here j other,
    find-erase name other inode.children,
    down-find id other inode dirs here,
  )

  up-with_child :
      (name : Name) (child j : ℕ) → up j (update id (with_child name child) dirs) ≡ up j dirs
  up-with_child name child j =
      ground
        (arith, up-update id inode (with_child name child) dirs here j, up-find id inode dirs here)

  down-with_child :
      (name : Name) (child j : ℕ) (other : Name)
      → down j other (update id (with_child name child) dirs)
        ≡ ite
            (ℕ_discrete id j)
            (ite (Name-discrete name other) (some child) (down j other dirs))
            (down j other dirs)
  down-with_child name child j other = ground (
    arith,
    down-update id inode (with_child name child) dirs here j other,
    find-insert name other child inode.children,
    down-find id other inode dirs here,
  )

  up-moved :
      (m : Move) (j : ℕ)
      → up j (update id (moved m) dirs)
        ≡ ite (ℕ_discrete id j) (some (m.dst_parent_id, m.new_name)) (up j dirs)
  up-moved m j = up-update id inode (moved m) dirs here j

  down-moved :
      (m : Move) (j : ℕ) (other : Name)
      → down j other (update id (moved m) dirs) ≡ down j other dirs
  down-moved m j other =
      ground (
        arith,
        down-update id inode (moved m) dirs here j other,
        down-find id other inode dirs here,
      )

find-kind :
    (id : ℕ) (b : Bool) (dirs : Dirs)
    → flag (find id dirs) ≡ some b
    → (inode : Inode) × (find id dirs ≡ some inode) × (inode.is_directory ≡ b)
find-kind id b dirs h = elim (Option-cases (find id dirs)) [
  | inl miss ↦ absurd (ground (arith, h, miss))
  | inr (inode, hit) ↦ (inode, hit, ground (arith, h, hit))
]

module _ (root next : ℕ) (dirs : Dirs) (m : Move) (inode parent : Inode)
    (tree : IsTree root next [] dirs) (src : find m.src_id dirs ≡ some inode)
    (listed : down m.old_parent_id m.old_name dirs ≡ some m.src_id)
    (dst : find m.dst_parent_id dirs ≡ some parent) (directory : parent.is_directory ≡ true)
    (free : find m.new_name parent.children ≡ none) where
  src_up : up m.src_id dirs ≡ some (m.old_parent_id, m.old_name)
  src_up = (tree.lists m.old_parent_id m.old_name m.src_id listed).0

  -- The three maps one after the other, each with the inode that changes next.
  abbrev unlinked : Dirs
  unlinked = update m.old_parent_id (without_child m.old_name) dirs

  abbrev renamed : Dirs
  renamed = update m.src_id (moved m) unlinked

  old_present : (old : Inode) × (find m.old_parent_id dirs ≡ some old)
  old_present = elim (Option-cases (find m.old_parent_id dirs)) [
    | inl miss ↦ absurd (ground (arith, down-absent m.old_parent_id m.old_name dirs miss, listed))
    | inr (old, hit) ↦ (old, hit)
  ]

  src_present :
      (n : Inode) × (find m.src_id unlinked ≡ some n) × (n.is_directory ≡ inode.is_directory)
  src_present =
      let (old, hit) = old_present in
      find-kind m.src_id inode.is_directory unlinked (
        kind-update m.old_parent_id old dirs hit (without_child m.old_name) m.src_id refl
        ∙ ap flag src)

  dst_present : (n : Inode) × (find m.dst_parent_id renamed ≡ some n) × (n.is_directory ≡ true)
  dst_present =
      let (old, hit) = old_present in
      let (n, there, _) = src_present in
      find-kind m.dst_parent_id true renamed (
        kind-update m.src_id n unlinked there (moved m) m.dst_parent_id refl
        ∙ kind-update m.old_parent_id old dirs hit (without_child m.old_name) m.dst_parent_id refl
        ∙ ap flag dst
        ∙ ap some directory)

  pub up-move :
      (j : ℕ)
      → up j (move_in_memory m dirs)
        ≡ ite (ℕ_discrete m.src_id j) (some (m.dst_parent_id, m.new_name)) (up j dirs)
  unfolding move_in_memory
  up-move j =
      let (old, hit) = old_present in
      let (n, there, _) = src_present in
      let (q, last, _) = dst_present in
      up-with_child m.dst_parent_id q renamed last m.new_name m.src_id j
      ∙ up-moved m.src_id n unlinked there m j
      ∙ ap (ite (ℕ_discrete m.src_id j) (some (m.dst_parent_id, m.new_name)))
          (up-without_child m.old_parent_id old dirs hit m.old_name j)

  pub down-move :
      (j : ℕ) (name : Name)
      → down j name (move_in_memory m dirs)
        ≡ ite
            (ℕ_discrete m.dst_parent_id j)
            (ite (Name-discrete m.new_name name) (some m.src_id) (down j name unlinked))
            (down j name unlinked)
  unfolding move_in_memory
  down-move j name =
      let (n, there, _) = src_present in
      let (q, last, _) = dst_present in
      ground (
        arith,
        down-with_child m.dst_parent_id q renamed last m.new_name m.src_id j name,
        down-moved m.src_id n unlinked there m j name,
      )

  pub down-unlinked :
      (j : ℕ) (name : Name)
      → down j name unlinked
        ≡ ite
            (ℕ_discrete m.old_parent_id j)
            (ite (Name-discrete m.old_name name) none (down j name dirs))
            (down j name dirs)
  down-unlinked j name =
      let (old, hit) = old_present in
      down-without_child m.old_parent_id old dirs hit m.old_name j name

  lists-move :
      (id : ℕ) (name : Name) (child : ℕ)
      → down id name (move_in_memory m dirs) ≡ some child
      → (up child (move_in_memory m dirs) ≡ some (id, name)) × (mem child [] ≡ false)
  lists-move id name child h =
      let old : (down id name dirs ≡ some child) → up child dirs ≡ some (id, name) =
        λ e. (tree.lists id name child e).0 in
      (
        ground (arith, down-move id name, down-unlinked id name, up-move child, old, src_up),
        mem-nil child,
      )

  listed-move :
      (id parent : ℕ) (name : Name)
      → up id (move_in_memory m dirs) ≡ some (parent, name)
      → (id ≡ root) ⊎ ((mem id [] ≡ true) ⊎ (down parent name (move_in_memory m dirs) ≡ some id))
  listed-move id parent_id name h =
      let old = tree.listed id parent_id name in
      let free_down = down-find m.dst_parent_id m.new_name parent dirs dst ∙ free in
      ground (
        arith,
        down-move parent_id name,
        down-unlinked parent_id name,
        up-move id,
        old,
        mem-nil id,
        free_down,
        listed,
        h,
      )

  src_other : m.src_id ≢ root
  src_other same =
      let (old, hit) = old_present in
      let positive = (tree.nodes m.old_parent_id old hit).positive in
      let at_root = ap (λ x. up x dirs) same in
      ground (arith, at_root, src_up, tree.root_up, positive)

  -- The moved inode is listed under its new name, by its new parent, and no longer under the old.
  pub move-IsTree : IsTree root next [] (move_in_memory m dirs)
  unfolding move_in_memory
  move-IsTree =
      let (old, hit) = old_present in
      let (n, there, _) = src_present in
      let (q, last, is_dir) = dst_present in
      record {
        nodes =
            nodes-update next m.dst_parent_id q (with_child m.new_name m.src_id) renamed last
              (nodes-update next m.src_id n (moved m) unlinked there
                (nodes-update next m.old_parent_id old (without_child m.old_name) dirs hit
                  tree.nodes
                  (λ good. record {
                    same_id = good.same_id;
                    positive = good.positive;
                    below = good.below;
                    children_IsMap = erase-IsMap m.old_name old.children good.children_IsMap;
                    leaf = λ file. erase_nil m.old_name old.children (good.leaf file);
                  }))
                (λ good. record {
                  same_id = good.same_id;
                  positive = good.positive;
                  below = good.below;
                  children_IsMap = good.children_IsMap;
                  leaf = good.leaf;
                }))
              (λ good. record {
                same_id = good.same_id;
                positive = good.positive;
                below = good.below;
                children_IsMap = insert-IsMap m.new_name m.src_id q.children good.children_IsMap;
                leaf = λ file. absurd (ground (arith, file, is_dir));
              });
        lists = lists-move;
        listed = listed-move;
        root_up = ground (arith, up-move root, tree.root_up, src_other);
        root_stays = mem-nil root;
        root_directory =
            root-update root m.dst_parent_id q (with_child m.new_name m.src_id) renamed last refl (
              root-update root m.src_id n (moved m) unlinked there refl (
                root-update root m.old_parent_id old (without_child m.old_name) dirs hit refl
                  tree.root_directory));
      }
