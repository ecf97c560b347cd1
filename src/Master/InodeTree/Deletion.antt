-- ===== src/Master/InodeTree/Deletion.antt =====
-- What `delete` does in memory, without a store.
use any_cache.Base.{
  ℕ, suc, ◌≤◌, ◌≡◌, inl, inr, refl, ap, sym, subst, ◌∙◌, Bool, true, false, not, ◌&&◌, Option, none,
  some, is_some, List, [], ◌∷◌, find, IsMap, insert-IsMap, mem-cons, mem-nil, length, sizes,
  size_at, get_or, sizes-insert, length-erase-le, erase-IsMap, ite, arith, ℕ_discrete, nat_key,
  Option-cases, Bool-cases, ◌==◌,
}
use any_cache.Common.Status.{StatusCode, is_ok, k_ok, k_invalid_argument}
use any_cache.Common.Database.{Database}
use any_cache.Master.Inode.{Name, Inode, new_inode}
use any_cache.Master.OwnerGroupDict.{name_key, Name-discrete}
use any_cache.Master.InodeTree.{InodeTree, Dirs, node_at, update, resolve_parts, split_last}
use any_cache.Master.InodeTree.Remove.{
  without_child, remove_loop, delete_in_memory, delete_known, delete_found, delete_resolved,
  delete_parts,
}
use any_cache.Master.InodeTree.Shape.{
  up, down, IsTree, up-find, down-find, down-absent, find-up, nodes-update, root-update,
}
use any_cache.Master.InodeTree.Moves.{up-without_child, down-without_child, erase_nil}
use any_cache.Master.InodeTree.Paths.{steps-present, last_link, resolve_parts-steps}
use any_cache.Master.InodeTree.Pruning.{remove_loop-Pruned, remove_loop-ends}
use any_cache.Master.InodeTree.Creation.{IsValid, root_present}

abbrev children_of : Inode → ℕ
children_of inode = length inode.children

-- Enough turns to delete anything: one for the inode, and one for each child in memory.
abbrev pub fuel_for : Dirs → ℕ
fuel_for dirs = suc (sizes (λ inode. length inode.children) dirs)

sizes-unlink :
    (id : ℕ) (name : Name) (dirs : Dirs)
    → sizes children_of (update id (without_child name) dirs) ≤ sizes children_of dirs
unfolding update
sizes-unlink id name dirs =
    let shares = sizes-insert children_of id (without_child name (node_at id dirs)) dirs in
    let fewer = length-erase-le name (node_at id dirs).children in
    omega (arith, shares, fewer, own (find id dirs))
  where
    own : (o : Option Inode) → size_at children_of o ≡ children_of (get_or o new_inode)
    own none = refl
    own (some inode) = refl

module _ (root next id : ℕ) (dirs : Dirs) (inode : Inode) (tree : IsTree root next [] dirs)
    (here : find id dirs ≡ some inode)
    (listed : down inode.parent_id inode.name dirs ≡ some id) where
  abbrev unlinked : Dirs
  unlinked = update inode.parent_id (without_child inode.name) dirs

  parent_present : (parent : Inode) × (find inode.parent_id dirs ≡ some parent)
  parent_present = elim (Option-cases (find inode.parent_id dirs)) [
    | inl miss ↦ absurd (ground (arith, down-absent inode.parent_id inode.name dirs miss, listed))
    | inr (parent, hit) ↦ (parent, hit)
  ]

  up-unlink : (j : ℕ) → up j unlinked ≡ up j dirs
  up-unlink j =
      let (parent, hit) = parent_present in
      up-without_child inode.parent_id parent dirs hit inode.name j

  down-unlink :
      (j : ℕ) (name : Name)
      → down j name unlinked
        ≡ ite
            (ℕ_discrete inode.parent_id j)
            (ite (Name-discrete inode.name name) none (down j name dirs))
            (down j name dirs)
  down-unlink j name =
      let (parent, hit) = parent_present in
      down-without_child inode.parent_id parent dirs hit inode.name j name

  -- The inode whose edge is gone is the one that waits.
  unlink-IsTree : IsTree root next (id ∷ []) unlinked
  unlink-IsTree =
      let (parent, hit) = parent_present in
      let linked = up-find id inode dirs here in
      record {
        nodes =
            nodes-update next inode.parent_id parent (without_child inode.name) dirs hit tree.nodes
              (λ good. record {
                same_id = good.same_id;
                positive = good.positive;
                below = good.below;
                children_IsMap = erase-IsMap inode.name parent.children good.children_IsMap;
                leaf = λ file. erase_nil inode.name parent.children (good.leaf file);
              });
        lists = λ j name child h.
            let old : (down j name dirs ≡ some child) → up child dirs ≡ some (j, name) =
              λ e. (tree.lists j name child e).0 in
            (
              ground (arith, h, down-unlink j name, up-unlink child, old),
              ground
                  (arith, h, down-unlink j name, old, linked, mem-cons child id [], mem-nil child),
            );
        listed = λ j parent_id name h. ground (
          arith,
          h,
          up-unlink j,
          tree.listed j parent_id name,
          down-unlink parent_id name,
          listed,
          mem-cons j id [],
          mem-nil j,
        );
        root_up = up-unlink root ∙ tree.root_up;
        root_stays = ground (
          arith,
          mem-cons root id [],
          mem-nil root,
          tree.root_up,
          linked,
          (tree.nodes inode.parent_id parent hit).positive,
        );
        root_directory =
            root-update root inode.parent_id parent (without_child inode.name) dirs hit refl
              tree.root_directory;
      }

update-IsMap :
    (id : ℕ) (change : Inode → Inode) (dirs : Dirs) → IsMap dirs → IsMap (update id change dirs)
unfolding update
update-IsMap id change dirs once = insert-IsMap id (change (node_at id dirs)) dirs once

kept_link :
    (parent : ℕ) (name : Name) (child : ℕ) (dirs dirs' : Dirs)
    → ((id : ℕ) (inode : Inode) → find id dirs' ≡ some inode → find id dirs ≡ some inode)
    → down parent name dirs' ≡ some child
    → down parent name dirs ≡ some child
kept_link parent name child dirs dirs' kept h = elim (Option-cases (find parent dirs')) [
  | inl miss ↦ absurd (ground (arith, h, down-absent parent name dirs' miss))
  | inr (inode, hit) ↦
      down-find parent name inode dirs (kept parent inode hit)
      ∙ sym (down-find parent name inode dirs' hit)
      ∙ h
]

-- From an inode that a link of the tree leads to.
found_listed :
    {root next : ℕ} {waiting : List ℕ}
    → (id parent : ℕ) (name : Name) (dirs : Dirs) (inode : Inode) → IsTree root next waiting dirs
    → find id dirs ≡ some inode
    → down parent name dirs ≡ some id
    → down inode.parent_id inode.name dirs ≡ some id
found_listed id parent name dirs inode tree here listed =
    let linked = (tree.lists parent name id listed).0 in
    let (other, found, same_parent, same_name) = find-up id parent name dirs linked in
    let one : other ≡ inode = ground (arith, found, here) in
    cc (listed, one, same_parent, same_name)

module _ (db : Database) where
  -- What a call leaves: the tree as it was with an error, or a tree without the inode and with no
  -- others than before.
  pub data Removal (t : InodeTree db) (id : ℕ) (r : InodeTree db × StatusCode) : Type 0 where
    refused : (status : StatusCode) → is_ok status ≡ false → r ≡ (t, status) → Removal t id r
    removed :
        (dirs : Dirs)
        → r ≡ (record t { dir_inodes = dirs }, k_ok)
        → IsTree t.root_id t.next_id [] dirs
        → find id dirs ≡ none
        → ((parent : ℕ) (name : Name) (child : ℕ)
            → down parent name dirs ≡ some child
            → down parent name t.dir_inodes ≡ some child)
        → Removal t id r

  abbrev pub Removals : InodeTree db → ℕ → Option (InodeTree db × StatusCode) → Type 0
  Removals t id r =
      (is_some r ≡ true) × ((r' : InodeTree db × StatusCode) → r ≡ some r' → Removal t id r')

  pub refused-Removals :
      (t : InodeTree db) (id : ℕ) (status : StatusCode)
      → is_ok status ≡ false
      → Removals t id (some (t, status))
  refused-Removals t id status bad = (refl, λ r h. refused status bad (ground (arith, h)))

  in_memory-Removals :
      (fuel id : ℕ) (inode : Inode) (t : InodeTree db)
      → IsValid db t
      → IsMap t.dir_inodes
      → fuel_for t.dir_inodes ≤ fuel
      → find id t.dir_inodes ≡ some inode
      → down inode.parent_id inode.name t.dir_inodes ≡ some id
      → Removals t id (delete_in_memory db fuel id inode t)
  unfolding delete_in_memory
  in_memory-Removals fuel id inode t valid once enough here listed =
      let dirs = update inode.parent_id (without_child inode.name) t.dir_inodes in
      let waits = unlink-IsTree t.root_id t.next_id id t.dir_inodes inode valid.tree here listed in
      let fewer = sizes-unlink inode.parent_id inode.name t.dir_inodes in
      let ends =
        remove_loop-ends fuel (id ∷ []) dirs
          (update-IsMap inode.parent_id (without_child inode.name) t.dir_inodes once)
          (omega (arith, enough, fewer)) in
      elim (Option-cases (remove_loop fuel (id ∷ []) dirs)) [
        | inl out ↦ absurd (ground (arith, ends, out))
        | inr (dirs', done_) ↦
            let pruned =
              remove_loop-Pruned t.root_id t.next_id fuel (id ∷ []) dirs dirs' waits done_ in
            let whole : some (record t { dir_inodes = dirs' }, k_ok)
                ≡ delete_in_memory db fuel id inode t =
              ground (arith, done_) in
            subst (Removals t id) whole (
              refl,
              λ r h.
                  removed dirs' (ground (arith, h)) pruned.tree
                    (pruned.gone id (ground (arith, mem-cons id id [])))
                    (λ parent name child e.
                      let link = kept_link parent name child dirs dirs' pruned.kept e in
                      ground (
                        arith,
                        link,
                        down-unlink t.root_id t.next_id id t.dir_inodes inode valid.tree here listed
                            parent name,
                      )),
            )
      ]

  known-Removals :
      (fuel id : ℕ) (name : Name) (inode : Inode) (recursive : Bool) (t : InodeTree db)
      → IsValid db t
      → IsMap t.dir_inodes
      → fuel_for t.dir_inodes ≤ fuel
      → find id t.dir_inodes ≡ some inode
      → down inode.parent_id inode.name t.dir_inodes ≡ some id
      → Removals t id (delete_known db fuel id name inode recursive t)
  unfolding delete_known
  known-Removals fuel id name inode recursive t valid once enough here listed =
      elim (Bool-cases (not (length inode.children == 0) && not recursive)) [
        | inl full ↦ rw (full, delete_known) (refused-Removals t id k_invalid_argument refl)
        | inr go ↦
            subst (Removals t id) (sym (in_memory go))
              (in_memory-Removals fuel id inode t valid once enough here listed)
      ]
    where
      in_memory :
          (not (length inode.children == 0) && not recursive) ≡ false
          → delete_known db fuel id name inode recursive t ≡ delete_in_memory db fuel id inode t
      in_memory go = ground (arith, go, valid.in_memory)

  pub resolved-Removals :
      (fuel : ℕ) (part : Name) (parts : List Name) (recursive : Bool) (t : InodeTree db)
      → IsValid db t
      → IsMap t.dir_inodes
      → fuel_for t.dir_inodes ≤ fuel
      → (id : ℕ) → resolve_parts (part ∷ parts) t.root_id t.dir_inodes ≡ inr id
      → Removals t id (delete_parts db fuel (part ∷ parts) recursive t)
  unfolding delete_parts delete_resolved delete_found
  resolved-Removals fuel part parts recursive t valid once enough id found =
      let leads = resolve_parts-steps (part ∷ parts) t.root_id id t.dir_inodes found in
      let (root, top) = root_present db t valid in
      let (inode, here) =
        steps-present (part ∷ parts) t.root_id id root t.dir_inodes valid.tree top leads in
      let (grand, _, listed) = last_link part parts t.root_id id t.dir_inodes leads in
      let own =
        found_listed id grand (split_last part parts).1 t.dir_inodes inode valid.tree here listed in
      subst (Removals t id) (known found here) (
        known-Removals fuel id (split_last part parts).1 inode recursive t valid once enough here
          own)
    where
      known :
          {inode : Inode}
          → resolve_parts (part ∷ parts) t.root_id t.dir_inodes ≡ inr id
          → find id t.dir_inodes ≡ some inode
          → delete_known db fuel id (split_last part parts).1 inode recursive t
            ≡ delete_parts db fuel (part ∷ parts) recursive t
      known found here =
          ap (λ o. delete_found db fuel o id (split_last part parts) recursive t) (sym here)
          ∙ ap (λ o. delete_resolved db fuel o (split_last part parts) recursive t) (sym found)
