-- ===== src/Master/InodeTree/Relocation.antt =====
-- Where the paths of a rename lead afterwards.
use any_cache.Base.{
  ℕ, ◌≡◌, ◌≢◌, inl, inr, ap, sym, subst, ◌∙◌, true, none, some, List, [], ◌∷◌, arith, nat_key,
  Option-cases,
}
use any_cache.Common.Status.{StatusCode, is_ok}
use any_cache.Common.Database.{Database}
use any_cache.Master.Inode.{Name, Inode}
use any_cache.Master.OwnerGroupDict.{name_key}
use any_cache.Master.InodeTree.{InodeTree, Dirs, resolve_parts, split_path, split_last}
use any_cache.Master.InodeTree.Change.{Move, move_in_memory, rename_parts, rename}
use any_cache.Master.InodeTree.Shape.{down, IsTree, down-find}
use any_cache.Master.InodeTree.Paths.{
  steps, follow, last_link, steps-split_last, resolve_parts-steps, steps-resolve_parts,
}
use any_cache.Master.InodeTree.Moves.{move-IsTree, down-move, down-unlinked}
use any_cache.Master.InodeTree.Creation.{IsValid}
use any_cache.Master.InodeTree.Renaming.{CanMove, Outcome, unchanged, changed, rename_parts-Outcome}

-- No inode that a path meets, from its start on, is the one given.
abbrev pub Avoids : ℕ → List Name → ℕ → Dirs → Type 0
Avoids id [] current dirs = current ≢ id
Avoids id (part ∷ parts) current dirs =
    (current ≢ id)
    × ((child : ℕ) → down current part dirs ≡ some child → Avoids id parts child dirs)

Avoids-first :
    (id : ℕ) (parts : List Name) (current : ℕ) (dirs : Dirs)
    → Avoids id parts current dirs
    → current ≢ id
Avoids-first id [] current dirs avoids = avoids
Avoids-first id (part ∷ parts) current dirs avoids = avoids.0

module _ (root next : ℕ) (dirs : Dirs) (m : Move) (inode parent : Inode)
    (tree : IsTree root next [] dirs) (can : CanMove dirs m inode parent) where
  moved_link :
      (j : ℕ) (name : Name) (child : ℕ)
      → down j name dirs ≡ some child
      → child ≢ m.src_id
      → down j name (move_in_memory m dirs) ≡ some child
  moved_link j name child h other =
      let free = down-find m.dst_parent_id m.new_name parent dirs can.dst ∙ can.free in
      ground (
        arith,
        down-move root next dirs m inode parent tree can.src can.listed can.dst can.directory
            can.free j name,
        down-unlinked root next dirs m inode parent tree can.src can.listed can.dst can.directory
            can.free j name,
        free,
        can.listed,
        h,
      )

  steps_avoiding :
      (parts : List Name) (current id : ℕ)
      → Avoids m.src_id parts current dirs
      → steps parts current dirs ≡ some id
      → steps parts current (move_in_memory m dirs) ≡ some id
  unfolding steps
  steps_avoiding [] current id avoids h = h
  steps_avoiding (part ∷ parts) current id avoids h = elim (Option-cases (down current part dirs)) [
    | inl miss ↦ absurd (ground (arith, h, miss))
    | inr (child, hit) ↦
        let onward = avoids.1 child hit in
        let rest : steps parts child dirs ≡ some id = ground (arith, h, hit) in
        let other = Avoids-first m.src_id parts child dirs onward in
        ap (λ o. follow o (λ child. steps parts child (move_in_memory m dirs)))
          (moved_link current part child hit other)
        ∙ steps_avoiding parts child id onward rest
  ]

  new_link : down m.dst_parent_id m.new_name (move_in_memory m dirs) ≡ some m.src_id
  new_link = ground (
    arith,
    down-move root next dirs m inode parent tree can.src can.listed can.dst can.directory can.free
        m.dst_parent_id m.new_name,
  )

  old_link :
      (j : ℕ) (name : Name)
      → down j name dirs ≡ some m.src_id
      → down j name (move_in_memory m dirs) ≡ none
  old_link j name h =
      let free = down-find m.dst_parent_id m.new_name parent dirs can.dst ∙ can.free in
      let up_old = (tree.lists j name m.src_id h).0 in
      let up_src = (tree.lists m.old_parent_id m.old_name m.src_id can.listed).0 in
      ground (
        arith,
        down-move root next dirs m inode parent tree can.src can.listed can.dst can.directory
            can.free j name,
        down-unlinked root next dirs m inode parent tree can.src can.listed can.dst can.directory
            can.free j name,
        free,
        h,
        up_old,
        up_src,
      )

  move_paths :
      (s d : Name) (ss ds : List Name)
      → Avoids m.src_id (split_last s ss).0 root dirs
      → Avoids m.src_id (split_last d ds).0 root dirs
      → steps (s ∷ ss) root dirs ≡ some m.src_id
      → steps (split_last d ds).0 root dirs ≡ some m.dst_parent_id
      → m.new_name ≡ (split_last d ds).1
      → (steps (d ∷ ds) root (move_in_memory m dirs) ≡ some m.src_id)
        × (steps (s ∷ ss) root (move_in_memory m dirs) ≡ none)
  move_paths s d ss ds from_src from_dst leads below name =
      let moved = move_in_memory m dirs in
      let (grand, to_grand, listed) = last_link s ss root m.src_id dirs leads in
      let to_parent = steps_avoiding (split_last d ds).0 root m.dst_parent_id from_dst below in
      let still = steps_avoiding (split_last s ss).0 root grand from_src to_grand in
      let into = ap (λ (x : Name). down m.dst_parent_id x moved) (sym name) ∙ new_link in
      (
        steps-split_last d ds root moved
            ∙ ap (λ o. follow o (λ parent. down parent (split_last d ds).1 moved)) to_parent
            ∙ into,
        steps-split_last s ss root moved
            ∙ ap (λ o. follow o (λ parent. down parent (split_last s ss).1 moved)) still
            ∙ old_link grand (split_last s ss).1 listed,
      )

-- The directories of a path.
abbrev pub directories : List Name → List Name
directories [] = []
directories (part ∷ parts) = (split_last part parts).0

module _ (db : Database) where
  Outcome-IsValid :
      (src dst : List Name) (t : InodeTree db) (r : InodeTree db × StatusCode)
      → IsValid db t
      → Outcome db t src dst r
      → IsValid db r.0
  Outcome-IsValid src dst t r valid (unchanged status no_ok same) =
      subst (IsValid db) (ap (λ x. x.0) (sym same)) valid
  Outcome-IsValid src dst t r valid
        (changed s d ss ds m inode parent is_src is_dst leads below name can same) =
      subst (IsValid db) (ap (λ x. x.0) (sym same)) (record {
        in_memory = valid.in_memory;
        tree =
            move-IsTree t.root_id t.next_id t.dir_inodes m inode parent valid.tree can.src
              can.listed can.dst can.directory can.free;
      })

  -- Every call of `rename` on a tree without a store keeps each inode but the root listed by exactly
  -- the parent and name that it holds. That allows a cycle: a directory that is moved below itself
  -- is then cut off from the root.
  pub rename-IsValid :
      (src dst : List ℕ) (t : InodeTree db) → IsValid db t → IsValid db (rename db src dst t).0
  unfolding rename
  rename-IsValid src dst t valid =
      Outcome-IsValid (split_path src) (split_path dst) t
        (rename_parts db (split_path src) (split_path dst) t) valid
        (rename_parts-Outcome db (split_path src) (split_path dst) t valid)

  abbrev Moves : List Name → List Name → ℕ → InodeTree db × StatusCode → Type 0
  Moves src dst id r =
      (resolve_parts dst r.0.root_id r.0.dir_inodes ≡ inr id)
      × ((j : ℕ) → resolve_parts src r.0.root_id r.0.dir_inodes ≢ inr j)

  Outcome-Moves :
      (src dst : List Name) (id : ℕ) (t : InodeTree db) (r : InodeTree db × StatusCode)
      → IsValid db t
      → is_ok r.1 ≡ true
      → resolve_parts src t.root_id t.dir_inodes ≡ inr id
      → Avoids id (directories src) t.root_id t.dir_inodes
      → Avoids id (directories dst) t.root_id t.dir_inodes
      → Outcome db t src dst r
      → Moves src dst id r
  Outcome-Moves src dst id t r valid ok found from_src from_dst (unchanged status no_ok same) =
      absurd (ground (arith, ok, no_ok, ap (λ x. x.1) same))
  Outcome-Moves src dst id t r valid ok found from_src from_dst
        (changed s d ss ds m inode parent is_src is_dst leads below name can same) =
      let reached = resolve_parts-steps src t.root_id id t.dir_inodes found in
      let one : some id ≡ some m.src_id =
        sym reached ∙ ap (λ xs. steps xs t.root_id t.dir_inodes) is_src ∙ leads in
      let same_id : id ≡ m.src_id = ground (arith, one) in
      let moved = move_in_memory m t.dir_inodes in
      let (there, gone) =
        move_paths t.root_id t.next_id t.dir_inodes m inode parent valid.tree can s d ss ds
          (subst (λ xs. Avoids m.src_id (directories xs) t.root_id t.dir_inodes) is_src
            (subst (λ i. Avoids i (directories src) t.root_id t.dir_inodes) same_id from_src))
          (subst (λ xs. Avoids m.src_id (directories xs) t.root_id t.dir_inodes) is_dst
            (subst (λ i. Avoids i (directories dst) t.root_id t.dir_inodes) same_id from_dst))
          leads below name in
      let tree =
        move-IsTree t.root_id t.next_id t.dir_inodes m inode parent valid.tree can.src can.listed
          can.dst can.directory can.free in
      subst (Moves src dst id) (sym same) (
        ap (λ xs. resolve_parts xs t.root_id moved) is_dst
            ∙ steps-resolve_parts (d ∷ ds) t.root_id m.src_id moved tree there
            ∙ ap inr (sym same_id),
        λ j h.
            let lost = ap (λ xs. steps xs t.root_id moved) is_src ∙ gone in
            ground (arith, lost, resolve_parts-steps src t.root_id j moved h),
      )

  -- After a call of `rename` that succeeds on a tree without a store and of the right shape, the
  -- destination resolves to the inode that the source resolved to, and the source to none, when no
  -- directory on the way to either is that inode: it is not moved below itself.
  pub rename-Moves :
      (src dst : List ℕ) (id : ℕ) (t : InodeTree db)
      → IsValid db t
      → is_ok (rename db src dst t).1 ≡ true
      → resolve_parts (split_path src) t.root_id t.dir_inodes ≡ inr id
      → Avoids id (directories (split_path src)) t.root_id t.dir_inodes
      → Avoids id (directories (split_path dst)) t.root_id t.dir_inodes
      → (resolve_parts
            (split_path dst)
            (rename db src dst t).0.root_id
            (rename db src dst t).0.dir_inodes
          ≡ inr id)
        × ((j : ℕ)
            → resolve_parts
                (split_path src)
                (rename db src dst t).0.root_id
                (rename db src dst t).0.dir_inodes
              ≢ inr j)
  unfolding rename
  rename-Moves src dst id t valid ok found from_src from_dst =
      Outcome-Moves (split_path src) (split_path dst) id t
        (rename_parts db (split_path src) (split_path dst) t) valid ok found from_src from_dst
        (rename_parts-Outcome db (split_path src) (split_path dst) t valid)
