-- ===== src/Master/InodeTree/Renaming.antt =====
-- What `rename` does in memory, without a store.
use any_cache.Base.{
  ℕ, ◌≡◌, ◌⊎◌, inl, inr, refl, ap, sym, subst, ◌∙◌, true, false, Option, none, some, List, [], ◌∷◌,
  find, arith, nat_key, Option-cases, Bool-cases,
}
use any_cache.Common.Status.{
  StatusCode, is_ok, k_ok, k_invalid_argument, k_already_exists, k_not_found,
}
use any_cache.Common.Database.{Database}
use any_cache.Master.Inode.{Name, Inode}
use any_cache.Master.OwnerGroupDict.{name_key}
use any_cache.Master.InodeTree.{InodeTree, Dirs, touch, walk_parts, resolve_parts, split_last}
use any_cache.Master.InodeTree.Change.{
  Move, move_in_memory, move_known, rename_to, rename_into, rename_from, rename_parts,
}
use any_cache.Master.InodeTree.Shape.{up, down, touch_present, find-up}
use any_cache.Master.InodeTree.Paths.{
  last_link, steps, steps-present, walk_parts-steps, resolve_parts-steps,
}
use any_cache.Master.InodeTree.Creation.{IsValid, root_present, plain_lem}

-- What a move needs of a tree.
pub record CanMove (dirs : Dirs) (m : Move) (inode parent : Inode) : Type 0 where
  pub src : find m.src_id dirs ≡ some inode
  pub listed : down m.old_parent_id m.old_name dirs ≡ some m.src_id
  pub dst : find m.dst_parent_id dirs ≡ some parent
  pub directory : parent.is_directory ≡ true
  pub free : find m.new_name parent.children ≡ none

module _ (db : Database) where
  -- A call refuses and changes nothing, or moves the inode of the source below the destination.
  pub data Effect (t : InodeTree db) (src_id : ℕ) (dst_parent_id : Option ℕ) (new_name : Name)
      (r : InodeTree db × StatusCode) : Type 0 where
    refused :
        (status : StatusCode)
        → is_ok status ≡ false
        → r ≡ (t, status)
        → Effect t src_id dst_parent_id new_name r
    moved_to :
        (m : Move) (inode parent : Inode)
        → m.src_id ≡ src_id
        → dst_parent_id ≡ some m.dst_parent_id
        → m.new_name ≡ new_name
        → CanMove t.dir_inodes m inode parent
        → r ≡ (record t { dir_inodes = move_in_memory m t.dir_inodes }, k_ok)
        → Effect t src_id dst_parent_id new_name r

  move_known-plain :
      (m : Move) (inode : Inode) (t : InodeTree db)
      → t.store ≡ none
      → move_known db m inode t ≡ (record t { dir_inodes = move_in_memory m t.dir_inodes }, k_ok)
  unfolding move_known
  move_known-plain m inode t memory =
      subst
        (λ x.
          move_known db m inode x ≡ (record x { dir_inodes = move_in_memory m t.dir_inodes }, k_ok))
        (plain_lem db t memory) refl

  rename_to-Effect :
      (src_id : ℕ) (src_front : List Name) (src_name : Name) (dst_parent_id : ℕ) (new_name : Name)
      (t : InodeTree db) (inode parent : Inode) (grand : ℕ) (last : Name)
      → IsValid db t
      → find src_id t.dir_inodes ≡ some inode
      → down grand last t.dir_inodes ≡ some src_id
      → find dst_parent_id t.dir_inodes ≡ some parent
      → Effect t src_id
          (some dst_parent_id)
          new_name
          (rename_to db src_id src_front src_name dst_parent_id new_name t)
  unfolding rename_to
  rename_to-Effect src_id src_front src_name dst_parent_id new_name t inode parent grand last valid
        src listed dst =
      elim (Bool-cases parent.is_directory) [
        | inr file ↦ refused k_invalid_argument refl (ground (arith, dst, file))
        | inl directory ↦ elim (Option-cases (find new_name parent.children)) [
          | inr (child, taken) ↦
              refused k_already_exists refl (ground (arith, dst, directory, taken))
          | inl free ↦
              let m : Move = record {
                src_id = src_id;
                old_parent_id = inode.parent_id;
                old_name = inode.name;
                dst_parent_id = dst_parent_id;
                new_name = new_name;
              } in
              let linked : up src_id t.dir_inodes ≡ some (grand, last) =
                (valid.tree.lists grand last src_id listed).0 in
              let (other, found, same_parent, same_name) =
                find-up src_id grand last t.dir_inodes linked in
              let one : other ≡ inode = ground (arith, found, src) in
              let known : rename_to db src_id src_front src_name dst_parent_id new_name t
                  ≡ move_known db m inode t =
                ground (arith, dst, directory, free, src) in
              moved_to m inode parent refl refl refl
                (record {
                  src = src;
                  listed = cc (listed, one, same_parent, same_name);
                  dst = dst;
                  directory = directory;
                  free = free;
                })
                (known ∙ move_known-plain m inode t valid.in_memory)
        ]
      ]

  rename_into-Effect :
      (o : Option ℕ) (src_id : ℕ) (src_front : List Name) (src_name new_name : Name)
      (dst_front : List Name) (t : InodeTree db) (inode : Inode) (grand : ℕ) (last : Name)
      → IsValid db t
      → find src_id t.dir_inodes ≡ some inode
      → down grand last t.dir_inodes ≡ some src_id
      → steps dst_front t.root_id t.dir_inodes ≡ o
      → Effect t src_id o new_name (rename_into db o src_id src_front src_name new_name t)
  unfolding rename_into
  rename_into-Effect none src_id src_front src_name new_name dst_front t inode grand last valid src
        listed walked =
      refused k_not_found refl refl
  rename_into-Effect (some dst_parent_id) src_id src_front src_name new_name dst_front t inode grand
        last valid src listed walked =
      let (root, top) = root_present db t valid in
      let (parent, here) =
        steps-present dst_front t.root_id dst_parent_id root t.dir_inodes valid.tree top walked in
      let touched : t ≡ record t { dir_inodes = touch dst_parent_id t.dir_inodes } =
        ap (λ dirs. record t { dir_inodes = dirs })
          (sym (touch_present dst_parent_id parent t.dir_inodes here)) in
      subst
        (λ x.
          Effect t src_id (some dst_parent_id) new_name
            (rename_to db src_id src_front src_name dst_parent_id new_name x))
        touched
        (rename_to-Effect src_id src_front src_name dst_parent_id new_name t inode parent grand last
          valid src listed here)

  -- With the paths of the two ends.
  pub data Outcome (t : InodeTree db) (src dst : List Name) (r : InodeTree db × StatusCode)
      : Type 0 where
    unchanged : (status : StatusCode) → is_ok status ≡ false → r ≡ (t, status) → Outcome t src dst r
    changed :
        (s d : Name) (ss ds : List Name) (m : Move) (inode parent : Inode)
        → src ≡ s ∷ ss
        → dst ≡ d ∷ ds
        → steps (s ∷ ss) t.root_id t.dir_inodes ≡ some m.src_id
        → steps (split_last d ds).0 t.root_id t.dir_inodes ≡ some m.dst_parent_id
        → m.new_name ≡ (split_last d ds).1
        → CanMove t.dir_inodes m inode parent
        → r ≡ (record t { dir_inodes = move_in_memory m t.dir_inodes }, k_ok)
        → Outcome t src dst r

  rename_from-Outcome :
      (o : StatusCode ⊎ ℕ) (s d : Name) (ss ds : List Name) (t : InodeTree db)
      → IsValid db t
      → resolve_parts (s ∷ ss) t.root_id t.dir_inodes ≡ o
      → ((status : StatusCode) → o ≡ inl status → is_ok status ≡ false)
      → Outcome t (s ∷ ss) (d ∷ ds) (rename_from db o (split_last s ss) (split_last d ds) t)
  unfolding rename_from
  rename_from-Outcome (inl status) s d ss ds t valid h bad = unchanged status (bad status refl) refl
  rename_from-Outcome (inr src_id) s d ss ds t valid h bad =
      let leads = resolve_parts-steps (s ∷ ss) t.root_id src_id t.dir_inodes h in
      let (root, top) = root_present db t valid in
      let (inode, here) =
        steps-present (s ∷ ss) t.root_id src_id root t.dir_inodes valid.tree top leads in
      let (grand, _, listed) = last_link s ss t.root_id src_id t.dir_inodes leads in
      let front = (split_last d ds).0 in
      let walked = sym (walk_parts-steps front t.root_id t.dir_inodes) in
      go leads walked (
        rename_into-Effect (walk_parts front t.root_id t.dir_inodes) src_id (split_last s ss).0
          (split_last s ss).1 (split_last d ds).1 front t inode grand (split_last s ss).1 valid here
          listed walked)
    where
      go :
          {o : Option ℕ} {r : InodeTree db × StatusCode}
          → steps (s ∷ ss) t.root_id t.dir_inodes ≡ some src_id
          → steps (split_last d ds).0 t.root_id t.dir_inodes ≡ o
          → Effect t src_id o (split_last d ds).1 r
          → Outcome t (s ∷ ss) (d ∷ ds) r
      go leads walked (refused status no_ok same) = unchanged status no_ok same
      go leads walked (moved_to m inode parent id below name can same) =
          changed s d ss ds m inode parent refl refl (leads ∙ ap some (sym id)) (walked ∙ below)
            name can same

  pub resolve_refuses :
      (parts : List Name) (current : ℕ) (dirs : Dirs) (status : StatusCode)
      → resolve_parts parts current dirs ≡ inl status
      → is_ok status ≡ false
  unfolding resolve_parts
  resolve_refuses [] current dirs status h = absurd (ground (arith, h))
  resolve_refuses (part ∷ parts) current dirs status h = elim (Option-cases (find current dirs)) [
    | inl miss ↦ ground (arith, h, miss)
    | inr (node, hit) ↦ elim (Bool-cases node.is_directory) [
      | inr file ↦ ground (arith, h, hit, file)
      | inl directory ↦ elim (Option-cases (find part node.children)) [
        | inl gone ↦ ground (arith, h, hit, directory, gone)
        | inr (child, found) ↦
            let rest : resolve_parts parts child dirs ≡ inl status =
              ground (arith, h, hit, directory, found) in
            resolve_refuses parts child dirs status rest
      ]
    ]
  ]

  pub rename_parts-Outcome :
      (src dst : List Name) (t : InodeTree db)
      → IsValid db t
      → Outcome t src dst (rename_parts db src dst t)
  unfolding rename_parts
  rename_parts-Outcome [] dst t valid = unchanged k_invalid_argument refl refl
  rename_parts-Outcome (s ∷ ss) [] t valid = unchanged k_invalid_argument refl refl
  rename_parts-Outcome (s ∷ ss) (d ∷ ds) t valid =
      rename_from-Outcome (resolve_parts (s ∷ ss) t.root_id t.dir_inodes) s d ss ds t valid refl
        (resolve_refuses (s ∷ ss) t.root_id t.dir_inodes)
