-- ===== src/Master/InodeTree/Sizes.antt =====
-- A new size keeps the shape of the tree.
use any_cache.Base.{
  ℕ, ◌≡◌, ◌⊎◌, ap, sym, subst, ◌∙◌, refl, true, false, some, [], find, insert, arith, ite,
  ℕ_discrete, nat_key, find-insert, mem, IsMap,
}
use any_cache.Master.OwnerGroupDict.{name_key}
use any_cache.Common.Database.{Database}
use any_cache.Common.Status.{k_ok, StatusCode}
use any_cache.Master.Inode.{Name, Inode}
use any_cache.Master.InodeTree.{InodeTree, Dirs, node_at, update}
use any_cache.Master.InodeTree.Change.{sized, completed, update_size, complete_file, resize_known}
use any_cache.Master.InodeTree.Creation.{IsValid}
use any_cache.Master.InodeTree.Shape.{
  up, down, IsNode, IsTree, up-insert, down-insert, up-find, down-find, nodes-insert,
}

-- Another inode with the same links under an id.
module _ (root next id : ℕ) (old new : Inode) (dirs : Dirs) (tree : IsTree root next [] dirs)
    (here : find id dirs ≡ some old) (same_id : new.id ≡ old.id)
    (same_parent : new.parent_id ≡ old.parent_id) (same_name : new.name ≡ old.name)
    (same_kind : new.is_directory ≡ old.is_directory)
    (same_children : new.children ≡ old.children) where
  up-same : (j : ℕ) → up j (insert id new dirs) ≡ up j dirs
  up-same j =
      ground (arith, up-insert id j new dirs, up-find id old dirs here, same_parent, same_name)

  down-same : (j : ℕ) (name : Name) → down j name (insert id new dirs) ≡ down j name dirs
  down-same j name = ground (
    arith,
    down-insert id j name new dirs,
    down-find id name old dirs here,
    ap (find name) same_children,
  )

  node-same : IsNode next id new
  node-same =
      let node = tree.nodes id old here in
      record {
        same_id = same_id ∙ node.same_id;
        positive = node.positive;
        below = node.below;
        children_IsMap = subst (λ cs. IsMap cs) (sym same_children) node.children_IsMap;
        leaf = λ no_dir. same_children ∙ node.leaf (sym same_kind ∙ no_dir);
      }

  pub same-IsTree : IsTree root next [] (insert id new dirs)
  same-IsTree = record {
    nodes = λ j inode h. nodes-same j inode h;
    lists = λ j name child h.
        let (links, free) = tree.lists j name child (sym (down-same j name) ∙ h) in
        (up-same child ∙ links, free);
    listed = λ j parent name h.
        subst (λ d. (j ≡ root) ⊎ ((mem j [] ≡ true) ⊎ (d ≡ some j))) (sym (down-same parent name))
          (tree.listed j parent name (sym (up-same j) ∙ h));
    root_up = up-same root ∙ tree.root_up;
    root_stays = tree.root_stays;
    root_directory = λ inode h. root_directory-same inode h;
  }
    where
      nodes-same :
          (j : ℕ) (inode : Inode) → find j (insert id new dirs) ≡ some inode → IsNode next j inode
      nodes-same j inode h =
          nodes-insert next next id new dirs (omega arith) tree.nodes node-same j inode h

      root_directory-same :
          (inode : Inode) → find root (insert id new dirs) ≡ some inode → inode.is_directory ≡ true
      root_directory-same inode h = ground (
        arith,
        find-insert id root new dirs,
        h,
        here,
        same_kind,
        tree.root_directory inode,
        tree.root_directory old,
      )

module _ (db : Database) where
  -- Without a store, an update of the size of an inode and the completion of a file succeed, keep
  -- the shape of the tree, give that inode the size and the time, and leave the others as they are.
  pub sizes_lem :
      (id size now : ℕ) (inode : Inode) (t : InodeTree db) (j : ℕ)
      → IsValid db t
      → find id t.dir_inodes ≡ some inode
      → inode.is_directory ≡ false
      → ((update_size db id size now t).1 ≡ k_ok)
        × (IsValid db (update_size db id size now t).0)
        × (find j (update_size db id size now t).0.dir_inodes
            ≡ ite (ℕ_discrete id j) (some (sized size now inode)) (find j t.dir_inodes))
        × ((complete_file db id size now t).1 ≡ k_ok)
        × (IsValid db (complete_file db id size now t).0)
        × (find j (complete_file db id size now t).0.dir_inodes
            ≡ ite (ℕ_discrete id j) (some (completed size now inode)) (find j t.dir_inodes))
  unfolding update_size complete_file resize_known update
  sizes_lem id size now inode t j valid here is_file =
      let none_stored = valid.in_memory in
      let node : node_at id t.dir_inodes ≡ inode = ground (arith, here) in
      let after : InodeTree db = record t {
        dir_inodes = insert id (sized size now inode) t.dir_inodes;
      } in
      let finished : InodeTree db = record t {
        dir_inodes = insert id (completed size now inode) t.dir_inodes;
      } in
      let resized : update_size db id size now t ≡ (after, k_ok) =
        ground (arith, none_stored, here, node) in
      let done_ : complete_file db id size now t ≡ (finished, k_ok) =
        ground (arith, none_stored, here, node, is_file) in
      let kept : IsValid db after = record {
        in_memory = none_stored;
        tree =
            same-IsTree t.root_id t.next_id id inode (sized size now inode) t.dir_inodes valid.tree
              here refl refl refl refl refl;
      } in
      let kept_too : IsValid db finished = record {
        in_memory = none_stored;
        tree =
            same-IsTree t.root_id t.next_id id inode (completed size now inode) t.dir_inodes
              valid.tree here refl refl refl refl refl;
      } in
      (
        ap (λ (r : InodeTree db × StatusCode). r.1) resized,
        subst (λ (r : InodeTree db × StatusCode). IsValid db r.0) (sym resized) kept,
        ap (λ (r : InodeTree db × StatusCode). find j r.0.dir_inodes) resized
            ∙ find-insert id j (sized size now inode) t.dir_inodes,
        ap (λ (r : InodeTree db × StatusCode). r.1) done_,
        subst (λ (r : InodeTree db × StatusCode). IsValid db r.0) (sym done_) kept_too,
        ap (λ (r : InodeTree db × StatusCode). find j r.0.dir_inodes) done_
            ∙ find-insert id j (completed size now inode) t.dir_inodes,
      )
