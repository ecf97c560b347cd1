-- ===== src/Master/InodeTree/Absence.antt =====
-- The calls of `delete` on paths, without a store.
use any_cache.Base.{
  ℕ, ◌≤◌, ◌≡◌, ◌≢◌, ◌⊎◌, inl, inr, refl, ap, sym, subst, ◌∙◌, Bool, true, false, Option, some,
  is_some, List, [], ◌∷◌, IsMap, arith, nat_key,
}
use any_cache.Common.Status.{StatusCode, is_ok, k_invalid_argument}
use any_cache.Common.Database.{Database}
use any_cache.Master.Inode.{Name}
use any_cache.Master.InodeTree.{InodeTree, resolve_parts, split_path, split_last}
use any_cache.Master.InodeTree.Remove.{delete_resolved, delete_parts, delete}
use any_cache.Master.InodeTree.Shape.{find-up}
use any_cache.Master.InodeTree.Paths.{steps_mono, steps-present, resolve_parts-steps}
use any_cache.Master.InodeTree.Renaming.{resolve_refuses}
use any_cache.Master.InodeTree.Creation.{IsValid}
use any_cache.Master.InodeTree.Deletion.{fuel_for, Removal, refused, removed, resolved-Removals}

module _ (db : Database) where
  -- What holds after a call for a path: the tree keeps its shape, and after a call that succeeds
  -- the path leads nowhere.
  abbrev Gone : List Name → InodeTree db × StatusCode → Type 0
  Gone parts r =
      IsValid db r.0
      × (is_ok r.1 ≡ true → (id : ℕ) → resolve_parts parts r.0.root_id r.0.dir_inodes ≢ inr id)

  abbrev Ends : List Name → Option (InodeTree db × StatusCode) → Type 0
  Ends parts o = (is_some o ≡ true) × ((r : InodeTree db × StatusCode) → o ≡ some r → Gone parts r)

  refused-Gone :
      (parts : List Name) (t : InodeTree db) (status : StatusCode) (r : InodeTree db × StatusCode)
      → IsValid db t
      → is_ok status ≡ false
      → r ≡ (t, status)
      → Gone parts r
  refused-Gone parts t status r valid bad same =
      subst (Gone parts) (sym same) (valid, λ ok. absurd (ground (arith, ok, bad)))

  refused-Ends :
      (parts : List Name) (t : InodeTree db) (status : StatusCode)
      → IsValid db t
      → is_ok status ≡ false
      → Ends parts (some (t, status))
  refused-Ends parts t status valid bad =
      (refl, λ r h. refused-Gone parts t status r valid bad (ground (arith, h)))

  Removal-Gone :
      (parts : List Name) (id : ℕ) (t : InodeTree db) (r : InodeTree db × StatusCode)
      → IsValid db t
      → resolve_parts parts t.root_id t.dir_inodes ≡ inr id
      → Removal db t id r
      → Gone parts r
  Removal-Gone parts id t r valid found (refused status bad same) =
      refused-Gone parts t status r valid bad same
  Removal-Gone parts id t r valid found (removed dirs same tree absent links) =
      subst (Gone parts) (sym same) (
        record { in_memory = valid.in_memory; tree = tree },
        λ ok j h.
            let after = resolve_parts-steps parts t.root_id j dirs h in
            let before = steps_mono parts t.root_id j dirs t.dir_inodes links after in
            let reached = resolve_parts-steps parts t.root_id id t.dir_inodes found in
            let (root, top, _, _) = find-up t.root_id 0 [] dirs tree.root_up in
            let (last, there) = steps-present parts t.root_id j root dirs tree top after in
            let one : some j ≡ some id = sym before ∙ reached in ground (arith, one, there, absent),
      )

  resolved-Ends :
      (o : StatusCode ⊎ ℕ) (fuel : ℕ) (part : Name) (parts : List Name) (recursive : Bool)
      (t : InodeTree db)
      → IsValid db t
      → IsMap t.dir_inodes
      → fuel_for t.dir_inodes ≤ fuel
      → resolve_parts (part ∷ parts) t.root_id t.dir_inodes ≡ o
      → Ends (part ∷ parts) (delete_parts db fuel (part ∷ parts) recursive t)
  unfolding delete_parts delete_resolved
  resolved-Ends (inl status) fuel part parts recursive t valid once enough missing =
      subst (Ends (part ∷ parts))
        (ap (λ o. delete_resolved db fuel o (split_last part parts) recursive t) (sym missing))
        (refused-Ends (part ∷ parts) t status valid
          (resolve_refuses db (part ∷ parts) t.root_id t.dir_inodes status missing))
  resolved-Ends (inr id) fuel part parts recursive t valid once enough found =
      let (ends, all) =
        resolved-Removals db fuel part parts recursive t valid once enough id found in
      (ends, λ r h. Removal-Gone (part ∷ parts) id t r valid found (all r h))

  parts-Ends :
      (fuel : ℕ) (parts : List Name) (recursive : Bool) (t : InodeTree db)
      → IsValid db t
      → IsMap t.dir_inodes
      → fuel_for t.dir_inodes ≤ fuel
      → Ends parts (delete_parts db fuel parts recursive t)
  unfolding delete_parts
  parts-Ends fuel [] recursive t valid once enough = refused-Ends [] t k_invalid_argument valid refl
  parts-Ends fuel (part ∷ parts) recursive t valid once enough =
      resolved-Ends (resolve_parts (part ∷ parts) t.root_id t.dir_inodes) fuel part parts recursive
        t valid once enough refl

  -- A call of `delete` on a tree without a store and of the right shape ends, within one turn for
  -- the inode and one for each child in memory.
  pub delete-ends :
      (fuel : ℕ) (path : List ℕ) (recursive : Bool) (t : InodeTree db)
      → IsValid db t
      → IsMap t.dir_inodes
      → fuel_for t.dir_inodes ≤ fuel
      → is_some (delete db fuel path recursive t) ≡ true
  unfolding delete
  delete-ends fuel path recursive t valid once enough =
      (parts-Ends fuel (split_path path) recursive t valid once enough).0

  -- Such a call keeps the shape of the tree: no inode is left that its parent does not list, and no
  -- directory lists one that is gone. After a call that succeeds the path resolves to nothing.
  pub delete-Gone :
      (fuel : ℕ) (path : List ℕ) (recursive : Bool) (t : InodeTree db)
      (r : InodeTree db × StatusCode)
      → IsValid db t
      → IsMap t.dir_inodes
      → fuel_for t.dir_inodes ≤ fuel
      → delete db fuel path recursive t ≡ some r
      → IsValid db r.0
        × (is_ok r.1 ≡ true
            → (id : ℕ) → resolve_parts (split_path path) r.0.root_id r.0.dir_inodes ≢ inr id)
  unfolding delete
  delete-Gone fuel path recursive t r valid once enough h =
      (parts-Ends fuel (split_path path) recursive t valid once enough).1 r h
