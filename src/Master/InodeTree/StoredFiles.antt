-- ===== src/Master/InodeTree/StoredFiles.antt =====
-- The deletion of a file that only the store has.
use any_cache.Base.{
  ℕ, ◌≡◌, ◌≢◌, inl, inr, ap, sym, ◌∙◌, Bool, true, false, none, some, List, [], ◌∷◌, find, arith,
  ite, ℕ_discrete, nat_key, find-erase, Option-cases,
}
use any_cache.Common.Status.{StatusCode, is_ok}
use any_cache.Common.Database.{Database}
use any_cache.Master.Inode.{Name}
use any_cache.Master.OwnerGroupDict.{name_key, Name-discrete}
use any_cache.Master.InodeStore.{InodeStore}
use any_cache.Master.InodeTree.{
  InodeTree, Dirs, update, resolve_parts, split_path, split_last, walk_parts,
}
use any_cache.Master.InodeTree.Remove.{
  delete, delete_parts, delete_resolved, delete_found, delete_file, delete_stored, delete_batch,
  forget, drop_edge, without_child,
}
use any_cache.Master.InodeTree.Shape.{down, down-insert, down-find, down-absent}
use any_cache.Master.InodeTree.Paths.{
  steps, last_link, steps_mono, walk_parts-steps, resolve_parts-steps,
}

-- An edge less in a directory.
down-drop_edge :
    (id : ℕ) (name : Name) (j : ℕ) (n : Name) (dirs : Dirs)
    → down j n (drop_edge id name dirs)
      ≡ ite (ℕ_discrete id j) (ite (Name-discrete name n) none (down j n dirs)) (down j n dirs)
unfolding drop_edge update
down-drop_edge id name j n dirs = elim (Option-cases (find id dirs)) [
  | inl miss ↦ ground (arith, miss, down-absent id n dirs miss)
  | inr (node, hit) ↦ ground (
    arith,
    hit,
    down-insert id j n (without_child name node) dirs,
    find-erase name n node.children,
    down-find id n node dirs hit,
  )
]

-- The path of the edge leads nowhere without it.
drop_edge-Gone :
    (part : Name) (parts : List Name) (root parent_id j : ℕ) (dirs : Dirs)
    → steps (split_last part parts).0 root dirs ≡ some parent_id
    → steps (part ∷ parts) root (drop_edge parent_id (split_last part parts).1 dirs) ≢ some j
drop_edge-Gone part parts root parent_id j dirs leads h =
    let name = (split_last part parts).1 in
    let after = drop_edge parent_id name dirs in
    let (grand, reached, last) = last_link part parts root j after h in
    let fewer : (p : ℕ) (n : Name) (c : ℕ) → down p n after ≡ some c → down p n dirs ≡ some c =
      λ p n c e. ground (arith, down-drop_edge parent_id name p n dirs, e) in
    let before = steps_mono (split_last part parts).0 root grand after dirs fewer reached in
    let same : some grand ≡ some parent_id = sym before ∙ leads in
    ground (arith, same, last, down-drop_edge parent_id name grand name dirs)

module _ (db : Database) where
  -- What the deletion of a file writes and leaves in memory.
  abbrev Dropped : ℕ → Name → InodeTree db → InodeTree db × StatusCode → Type 0
  Dropped parent_id name t r =
      is_ok r.1 ≡ true
      → (r.0.root_id ≡ t.root_id) × (r.0.dir_inodes ≡ drop_edge parent_id name t.dir_inodes)

  stored-Dropped :
      (fuel id parent_id : ℕ) (name : Name) (recursive : Bool) (store : InodeStore db)
      (t : InodeTree db) (r : InodeTree db × StatusCode)
      → delete_stored db fuel id parent_id name false recursive store t ≡ some r
      → Dropped parent_id name t r
  unfolding delete_stored delete_batch forget
  stored-Dropped fuel id parent_id name recursive store t r h ok =
      (ground (arith, h, ok), ground (arith, h, ok))

  file-Dropped :
      (fuel id parent_id : ℕ) (front : List Name) (name : Name) (recursive : Bool)
      (store : InodeStore db) (t : InodeTree db) (r : InodeTree db × StatusCode)
      → t.store ≡ some store
      → walk_parts front t.root_id t.dir_inodes ≡ some parent_id
      → delete_file db fuel id front name recursive t ≡ some r
      → Dropped parent_id name t r
  unfolding delete_file
  file-Dropped fuel id parent_id front name recursive store t r has_store walks h =
      stored-Dropped fuel id parent_id name recursive store t r
        (ground (arith, has_store, walks, h))

  parts-Gone :
      (fuel : ℕ) (parts : List Name) (recursive : Bool) (store : InodeStore db) (t : InodeTree db)
      (id j : ℕ) (r : InodeTree db × StatusCode)
      → t.store ≡ some store
      → resolve_parts parts t.root_id t.dir_inodes ≡ inr id
      → find id t.dir_inodes ≡ none
      → delete_parts db fuel parts recursive t ≡ some r
      → is_ok r.1 ≡ true
      → resolve_parts parts r.0.root_id r.0.dir_inodes ≢ inr j
  unfolding delete_parts delete_resolved delete_found
  parts-Gone fuel [] recursive store t id j r has_store found absent_ h ok still =
      absurd (ground (arith, h, ok))
  parts-Gone fuel (part ∷ parts) recursive store t id j r has_store found absent_ h ok still =
      let front = (split_last part parts).0 in
      let name = (split_last part parts).1 in
      let reached = resolve_parts-steps (part ∷ parts) t.root_id id t.dir_inodes found in
      let (parent_id, leads, last) = last_link part parts t.root_id id t.dir_inodes reached in
      let walks = walk_parts-steps front t.root_id t.dir_inodes ∙ leads in
      let called : delete_file db fuel id front name recursive t ≡ some r =
        ap (λ o. delete_found db fuel o id (split_last part parts) recursive t) (sym absent_)
        ∙ ap (λ o. delete_resolved db fuel o (split_last part parts) recursive t) (sym found)
        ∙ h in
      let (root, dirs) =
        file-Dropped fuel id parent_id front name recursive store t r has_store walks called ok in
      let after = resolve_parts-steps (part ∷ parts) r.0.root_id j r.0.dir_inodes still in
      drop_edge-Gone part parts t.root_id parent_id j t.dir_inodes leads (
        ap (λ i. steps (part ∷ parts) i (drop_edge parent_id name t.dir_inodes)) (sym root)
        ∙ ap (λ ds. steps (part ∷ parts) r.0.root_id ds) (sym dirs)
        ∙ after)

  -- With a store, after a deletion that succeeds of a file that is not in memory, the path resolves
  -- to nothing.
  pub delete-stored_file :
      (fuel : ℕ) (path : List ℕ) (recursive : Bool) (store : InodeStore db) (t : InodeTree db)
      (id j : ℕ) (r : InodeTree db × StatusCode)
      → t.store ≡ some store
      → resolve_parts (split_path path) t.root_id t.dir_inodes ≡ inr id
      → find id t.dir_inodes ≡ none
      → delete db fuel path recursive t ≡ some r
      → is_ok r.1 ≡ true
      → resolve_parts (split_path path) r.0.root_id r.0.dir_inodes ≢ inr j
  unfolding delete
  delete-stored_file fuel path recursive store t id j r has_store found absent_ h ok =
      parts-Gone fuel (split_path path) recursive store t id j r has_store found absent_ h ok
