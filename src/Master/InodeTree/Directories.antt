-- ===== src/Master/InodeTree/Directories.antt =====
-- What `create_directory` leaves in memory, without a store.
use any_cache.Base.{
  ℕ, suc, ◌+◌, ◌≤◌, ◌<◌, ◌≡◌, inl, inr, refl, ap, sym, subst, ◌∙◌, Bool, true, false, not, ◌&&◌,
  if◌then◌else◌, Option, none, some, List, [], ◌∷◌, find, find-insert_self, length, arith, nat_key,
  Bool-cases, u64,
}
use any_cache.Common.Status.{StatusCode, k_invalid_argument, k_already_exists, k_not_found}
use any_cache.Common.Database.{Database}
use any_cache.Master.Inode.{Name, Inode}
use any_cache.Master.OwnerGroupDict.{name_key}
use any_cache.Master.InodeTree.{InodeTree, touch, update, allocate_id, resolve_parts, split_path}
use any_cache.Master.InodeTree.Create.{
  new_directory, is_last, add_directory, Loop, continue_made, make_child, make_step,
  make_directories, create_directory_parts, create_directory,
}
use any_cache.Master.InodeTree.Shape.{down, touch_present, down-find, find-up}
use any_cache.Master.InodeTree.Paths.{steps, follow}
use any_cache.Master.InodeTree.Creation.{
  IsValid, Extends, Extends-refl, Extends-trans, added, added-Extends, down-added, plain_lem, Leads,
  refused-Leads, root_present, Leads-Resolves,
}

module _ (db : Database) where
  -- What the rest of the loop gives for the rest of the path, from any directory of a larger tree.
  abbrev Continues : Loop db → List Name → InodeTree db → Type 0
  Continues continue_ parts t =
      (id : ℕ) (t' : InodeTree db) (node : Inode)
      → Extends db t t'
      → t'.next_id ≤ t.next_id + 1
      → find id t'.dir_inodes ≡ some node
      → Leads db parts id t' (continue_ id t')

  step-Leads :
      (part : Name) (parts : List Name) (current child : ℕ) (t t' : InodeTree db)
      (r : InodeTree db × StatusCode × Option ℕ)
      → Extends db t t'
      → down current part t'.dir_inodes ≡ some child
      → Leads db parts child t' r
      → Leads db (part ∷ parts) current t r
  unfolding steps
  step-Leads part parts current child t t' r extends here (further, leads) = (
    Extends-trans db t t' r.0 extends further,
    λ id h.
        ap (λ o. follow o (λ child. steps parts child r.0.dir_inodes))
          (further.links current part child here)
        ∙ leads id h,
  )

  make_child-added :
      (continue_ : Loop db) (part : Name) (last recursive : Bool) (current mode now : ℕ)
      (t : InodeTree db) (node : Inode)
      → t.store ≡ none
      → find current t.dir_inodes ≡ some node
      → (not recursive && not last) ≡ false
      → make_child db continue_ none part last current mode recursive now t
        ≡ continue_ t.next_id
            (added db current node (new_directory t.next_id current part mode now) t)
  unfolding make_child continue_made add_directory allocate_id update
  make_child-added continue_ part last recursive current mode now t node memory here go =
      subst Made (plain_lem db t memory) (ground (arith, here, go))
    where
      Made : InodeTree db → Type 0
      Made x =
          make_child db continue_ none part last current mode recursive now x
          ≡ continue_ t.next_id
              (added db current node (new_directory t.next_id current part mode now) x)

  last-Leads :
      (continue_ : Loop db) (part : Name) (parts : List Name) (current child : ℕ) (t : InodeTree db)
      → IsValid db t
      → Continues continue_ parts t
      → down current part t.dir_inodes ≡ some child
      → (node : Inode) → find child t.dir_inodes ≡ some node
      → Leads db
          (part ∷ parts)
          current
          t
          (if is_last parts then (t, k_already_exists, some child) else continue_ child t)
  unfolding steps
  last-Leads continue_ part [] current child t valid rest here node found =
      step-Leads part [] current child t t (t, k_already_exists, some child)
        (Extends-refl db t valid) here (Extends-refl db t valid, λ id h. h)
  last-Leads continue_ part (next ∷ parts) current child t valid rest here node found =
      let same = Extends-refl db t valid in
      step-Leads part (next ∷ parts) current child t t (continue_ child t) same here
        (rest child t node same (omega arith) found)

  make_child-Leads :
      (o : Option ℕ) (continue_ : Loop db) (part : Name) (parts : List Name) (current mode : ℕ)
      (recursive : Bool) (now : ℕ) (t : InodeTree db) (node : Inode)
      → IsValid db t
      → t.next_id + 1 < u64
      → find current t.dir_inodes ≡ some node
      → node.is_directory ≡ true
      → find part node.children ≡ o
      → Continues continue_ parts t
      → Leads db
          (part ∷ parts)
          current
          t
          (make_child db continue_ o part (is_last parts) current mode recursive now t)
  unfolding make_child
  make_child-Leads (some child) continue_ part parts current mode recursive now t node valid room
        here directory found rest =
      let listed = down-find current part node t.dir_inodes here ∙ found in
      let (inode, there, _, _) =
        find-up child current part t.dir_inodes (valid.tree.lists current part child listed).0 in
      last-Leads continue_ part parts current child t valid rest listed inode there
  make_child-Leads none continue_ part parts current mode recursive now t node valid room here
        directory found rest =
      elim (Bool-cases (not recursive && not (is_last parts))) [
        | inl stop ↦
            rw (stop, make_child) (refused-Leads db (part ∷ parts) current t k_not_found valid)
        | inr go ↦
            let dir = new_directory t.next_id current part mode now in
            let grown = added db current node dir t in
            let more =
              added-Extends db current node dir t valid room here directory found refl refl refl in
            let below =
              down-added db current node dir t valid room here directory found refl refl refl in
            subst (Leads db (part ∷ parts) current t)
              (sym (
                make_child-added continue_ part (is_last parts) recursive current mode now t node
                  valid.in_memory here go))
              (step-Leads part parts current t.next_id t grown (continue_ t.next_id grown) more
                below
                (rest t.next_id grown dir more (omega arith) (find-insert_self t.next_id dir _)))
      ]

  make_directories-Leads :
      (parts : List Name) (current mode : ℕ) (recursive : Bool) (clock : ℕ → ℕ) (t : InodeTree db)
      (node : Inode)
      → IsValid db t
      → t.next_id + length parts < u64
      → find current t.dir_inodes ≡ some node
      → Leads db parts current t (make_directories db parts current mode recursive clock t)
  unfolding make_directories make_step steps
  make_directories-Leads [] current mode recursive clock t node valid room here =
      (Extends-refl db t valid, λ id h. h)
  make_directories-Leads (part ∷ parts) current mode recursive clock t node valid room here =
      let continue_ : Loop db =
        λ id t'. make_directories db parts id mode recursive (λ n. clock (suc n)) t' in
      let touched : t ≡ record t { dir_inodes = touch current t.dir_inodes } =
        ap (λ dirs. record t { dir_inodes = dirs })
          (sym (touch_present current node t.dir_inodes here)) in
      subst
        (λ x.
          Leads db (part ∷ parts) current t
            (make_step db continue_ part (is_last parts) current mode recursive (clock 0) x))
        touched
        (step continue_ λ id t' node' extends ids there.
          make_directories-Leads parts id mode recursive (λ n. clock (suc n)) t' node' extends.valid
            (omega (arith, ids, room)) there)
    where
      step :
          (continue_ : Loop db)
          → Continues continue_ parts t
          → Leads db
              (part ∷ parts)
              current
              t
              (make_step db continue_ part (is_last parts) current mode recursive (clock 0) t)
      step continue_ rest = elim (Bool-cases node.is_directory) [
        | inr file ↦
            rw (here, file, make_step)
              (refused-Leads db (part ∷ parts) current t k_invalid_argument valid)
        | inl directory ↦
            rw (here, directory, make_step)
              (make_child-Leads (find part node.children) continue_ part parts current mode
                recursive (clock 0) t node valid (omega (arith, room)) here directory refl rest)
      ]

  directory_parts-Leads :
      (parts : List Name) (mode : ℕ) (recursive : Bool) (clock : ℕ → ℕ) (t : InodeTree db)
      → IsValid db t
      → t.next_id + length parts < u64
      → Leads db parts t.root_id t (create_directory_parts db parts mode recursive clock t)
  unfolding create_directory_parts steps
  directory_parts-Leads [] mode recursive clock t valid room = (Extends-refl db t valid, λ id h. h)
  directory_parts-Leads (part ∷ parts) mode recursive clock t valid room =
      let (root, top) = root_present db t valid in
      make_directories-Leads (part ∷ parts) t.root_id mode recursive clock t root valid room top

  -- In a tree without a store, of the right shape and with as many ids left as the path has parts,
  -- a call of `create_directory` keeps the shape and every link there was, and an id that it
  -- returns, that of a directory that was there included, is what the path then resolves to.
  pub create_directory-Resolves :
      (path : List ℕ) (mode : ℕ) (recursive : Bool) (clock : ℕ → ℕ) (t : InodeTree db)
      → IsValid db t
      → t.next_id + length (split_path path) < u64
      → Extends db t (create_directory db path mode recursive clock t).0
        × ((id : ℕ)
            → (create_directory db path mode recursive clock t).2 ≡ some id
            → resolve_parts
                (split_path path)
                (create_directory db path mode recursive clock t).0.root_id
                (create_directory db path mode recursive clock t).0.dir_inodes
              ≡ inr id)
  unfolding create_directory
  create_directory-Resolves path mode recursive clock t valid room =
      Leads-Resolves db (split_path path) t
        (create_directory_parts db (split_path path) mode recursive clock t)
        (directory_parts-Leads (split_path path) mode recursive clock t valid room)
