-- ===== src/Master/InodeTree/Subtrees.antt =====
-- The recursions over a subtree, with a store: they end where no directory is below itself.
use any_cache.Base.{
  ℕ, zero, suc, ◌<◌, ◌≡◌, inl, inr, refl, sym, subst, ◌∙◌, Bool, true, Option, some, is_some, List,
  [], ◌∷◌, All, Map, find, erase, find-erase, ite, arith, ℕ_discrete, nat_key, Option-cases,
}
use any_cache.Common.Database.{Database}
use any_cache.Master.Inode.{Name, Inode}
use any_cache.Master.OwnerGroupDict.{name_key}
use any_cache.Master.InodeStore.{InodeStore}
use any_cache.Master.InodeTree.{InodeTree, Dirs, update}
use any_cache.Master.InodeTree.Remove.{
  SubEdge, collect_children, collect_subtree, erase_children, each_child, remove_subtree,
  without_child, drop_edge, forget, delete_batch, delete_stored,
}
use any_cache.Master.InodeTree.Shape.{find-update_present}

module _ (rank : ℕ → ℕ) where
  -- Every child has a lower rank than its directory: no directory is below itself.
  abbrev pub Below : ℕ → Map Name ℕ → Type 0
  Below bound children = All (λ (e : Name × ℕ). rank e.1 < bound) children

  abbrev pub Ranked : Dirs → Type 0
  Ranked dirs =
      (id : ℕ) (inode : Inode) → find id dirs ≡ some inode → Below (rank id) inode.children

  collect_children-ends :
      (sub : ℕ → Option (List SubEdge)) (dirs : Dirs) (id bound : ℕ) (children : Map Name ℕ)
      → ((child : ℕ) → rank child < bound → is_some (sub child) ≡ true)
      → Below bound children
      → is_some (collect_children sub dirs id children) ≡ true
  unfolding collect_children
  collect_children-ends sub dirs id bound [] each below = refl
  collect_children-ends sub dirs id bound ((name, child) ∷ children) each below =
      ground
        (arith, each child below.0, collect_children-ends sub dirs id bound children each below.1)

  collect_subtree-ends :
      (fuel : ℕ) (dirs : Dirs) (id : ℕ)
      → Ranked dirs
      → rank id < fuel
      → is_some (collect_subtree fuel dirs id) ≡ true
  unfolding collect_subtree
  collect_subtree-ends zero dirs id ranked enough = absurd (omega arith)
  collect_subtree-ends (suc fuel) dirs id ranked enough = elim (Option-cases (find id dirs)) [
    | inl miss ↦ rw (miss, collect_subtree) refl
    | inr (inode, hit) ↦
        rw (hit, collect_subtree)
          (collect_children-ends (collect_subtree fuel dirs) dirs id (rank id) inode.children
            (λ child lower.
              collect_subtree-ends fuel dirs child ranked (omega (arith, lower, enough)))
            (ranked id inode hit))
  ]

  -- An erasure that ends, in a map that is still ranked.
  abbrev EndsRanked : Option Dirs → Type 0
  EndsRanked o = (dirs : Dirs) × (o ≡ some dirs) × Ranked dirs

  erase-Ranked : (id : ℕ) (dirs : Dirs) → Ranked dirs → Ranked (erase id dirs)
  erase-Ranked id dirs ranked j inode h = ranked j inode (ground (arith, h, find-erase id j dirs))

  erase_children-Ranked :
      (children : Map Name ℕ) (dirs : Dirs) → Ranked dirs → Ranked (erase_children children dirs)
  unfolding erase_children
  erase_children-Ranked [] dirs ranked = ranked
  erase_children-Ranked ((name, child) ∷ children) dirs ranked =
      erase_children-Ranked children (erase child dirs) (erase-Ranked child dirs ranked)

  each_child-ends :
      (sub : ℕ → Dirs → Option Dirs) (bound : ℕ) (children : Map Name ℕ) (dirs : Dirs)
      → ((child : ℕ) (dirs : Dirs) → rank child < bound → Ranked dirs → EndsRanked (sub child dirs))
      → Below bound children
      → Ranked dirs
      → EndsRanked (each_child sub children dirs)
  unfolding each_child
  each_child-ends sub bound [] dirs each below ranked = (dirs, refl, ranked)
  each_child-ends sub bound ((name, child) ∷ children) dirs each below ranked =
      let (dirs', done_, still) = each child dirs below.0 ranked in
      rw (done_, each_child) (each_child-ends sub bound children dirs' each below.1 still)

  remove_subtree-ends :
      (fuel id : ℕ) (dirs : Dirs)
      → Ranked dirs
      → rank id < fuel
      → EndsRanked (remove_subtree fuel id dirs)
  unfolding remove_subtree
  remove_subtree-ends zero id dirs ranked enough = absurd (omega arith)
  remove_subtree-ends (suc fuel) id dirs ranked enough = elim (Option-cases (find id dirs)) [
    | inl miss ↦ rw (miss, remove_subtree) (dirs, refl, ranked)
    | inr (inode, hit) ↦
        let (dirs', done_, still) =
          each_child-ends (remove_subtree fuel) (rank id) inode.children dirs
            (λ child d lower good.
              remove_subtree-ends fuel child d good (omega (arith, lower, enough)))
            (ranked id inode hit) ranked in
        rw (hit, done_, remove_subtree)
          (
            erase_children inode.children dirs',
            refl,
            erase_children-Ranked inode.children dirs' still,
          )
  ]

  erase-Below :
      (bound : ℕ) (name : Name) (children : Map Name ℕ)
      → Below bound children
      → Below bound (erase name children)
  unfolding erase
  erase-Below bound name [] below = tt
  erase-Below bound name ((other, child) ∷ children) below =
      ground (arith, below, erase-Below bound name children below.1)

  update-Ranked :
      (id : ℕ) (inode : Inode) (change : Inode → Inode) (dirs : Dirs)
      → find id dirs ≡ some inode
      → (Below (rank id) inode.children → Below (rank id) (change inode).children)
      → Ranked dirs
      → Ranked (update id change dirs)
  update-Ranked id inode change dirs here keeps ranked j n h =
      go (ℕ_discrete id j) (sym (find-update_present id inode change dirs here j) ∙ h)
    where
      go :
          (d : Dec (id ≡ j))
          → ite d (some (change inode)) (find j dirs) ≡ some n
          → Below (rank j) n.children
      go (yes same) e =
          let at_id : change inode ≡ n = ground (arith, e) in
          subst (λ x. Below (rank x) n.children) same
            (subst (λ x. Below (rank id) x.children) at_id (keeps (ranked id inode here)))
      go (no ne) e = ranked j n e

  drop_edge-Ranked :
      (parent_id : ℕ) (name : Name) (dirs : Dirs)
      → Ranked dirs
      → Ranked (drop_edge parent_id name dirs)
  unfolding drop_edge
  drop_edge-Ranked parent_id name dirs ranked = elim (Option-cases (find parent_id dirs)) [
    | inl miss ↦ rw (miss, drop_edge) ranked
    | inr (inode, hit) ↦
        let same : update parent_id (without_child name) dirs ≡ drop_edge parent_id name dirs =
          ground (arith, hit) in
        subst Ranked same (
          update-Ranked parent_id inode (without_child name) dirs hit
            (erase-Below (rank parent_id) name inode.children) ranked)
  ]

  forget-ends :
      (fuel id : ℕ) (is_dir recursive : Bool) (dirs : Dirs)
      → Ranked dirs
      → rank id < fuel
      → is_some (forget fuel id is_dir recursive dirs) ≡ true
  unfolding forget
  forget-ends fuel id is_dir recursive dirs ranked enough =
      let (dirs', done_, _) = remove_subtree-ends fuel id dirs ranked enough in
      ground (arith, done_)

  delete_batch-ends :
      (db : Database) (fuel id parent_id : ℕ) (name : Name) (is_dir recursive : Bool) (dirs : Dirs)
      → Ranked dirs
      → rank id < fuel
      → is_some (delete_batch db fuel id parent_id name is_dir recursive dirs) ≡ true
  unfolding delete_batch
  delete_batch-ends db fuel id parent_id name is_dir recursive dirs ranked enough =
      ground (arith, collect_subtree-ends fuel dirs id ranked enough)

  -- A deletion with a store ends where every child has a lower rank than its directory, so that no
  -- directory is below itself, and the fuel is above the rank of the inode that is deleted.
  pub delete_stored-ends :
      (db : Database) (fuel id parent_id : ℕ) (name : Name) (is_dir recursive : Bool)
      (store : InodeStore db) (t : InodeTree db)
      → Ranked t.dir_inodes
      → rank id < fuel
      → is_some (delete_stored db fuel id parent_id name is_dir recursive store t) ≡ true
  unfolding delete_stored
  delete_stored-ends db fuel id parent_id name is_dir recursive store t ranked enough =
      let batch =
        delete_batch-ends db fuel id parent_id name is_dir recursive t.dir_inodes ranked enough in
      let rest =
        forget-ends fuel id is_dir recursive (drop_edge parent_id name t.dir_inodes)
          (drop_edge-Ranked parent_id name t.dir_inodes ranked) enough in
      ground (arith, batch, rest)
