-- ===== src/Master/InodeTree/Shape.antt =====
-- The shape of the tree in memory: the link of each inode to its parent, the links of a directory
-- to its children, and how the changes of the map of inodes move them.
use any_cache.Base.{
  ℕ, ◌≤◌, ◌<◌, ◌≡◌, ◌⊎◌, inl, inr, ap, sym, subst, ◌∙◌, true, false, Option, none, some, List, [],
  find, insert, erase, IsMap, mem, ite, arith, ℕ_discrete, nat_key, find-insert, find-erase,
  Option-cases,
}
use any_cache.Master.Inode.{Name, Inode}
use any_cache.Master.OwnerGroupDict.{name_key}
use any_cache.Master.InodeTree.{Dirs, node_at, touch, update}

abbrev pub link : Option Inode → Option (ℕ × Name)
link none = none
link (some inode) = some (inode.parent_id, inode.name)

abbrev pub branch : Name → Option Inode → Option ℕ
branch name none = none
branch name (some inode) = find name inode.children

-- The parent of an inode and its name there, and the child of a directory under a name.
unfoldable pub up : ℕ → Dirs → Option (ℕ × Name)
up id dirs = link (find id dirs)

unfoldable pub down : ℕ → Name → Dirs → Option ℕ
down id name dirs = branch name (find id dirs)

-- An inode stands under its own id, which is below the next one; only directories have children,
-- each under one name.
pub record IsNode (next id : ℕ) (inode : Inode) : Type 0 where
  pub same_id : inode.id ≡ id
  pub positive : 1 ≤ id
  pub below : id < next
  pub children_IsMap : IsMap inode.children
  pub leaf : inode.is_directory ≡ false → inode.children ≡ []

-- The links up and down agree; an inode that no directory lists is the root or waits to be removed,
-- and no directory lists one that waits. The parent of the root is no inode.
pub record IsTree (root next : ℕ) (waiting : List ℕ) (dirs : Dirs) : Type 0 where
  pub nodes : (id : ℕ) (inode : Inode) → find id dirs ≡ some inode → IsNode next id inode
  pub lists :
      (id : ℕ) (name : Name) (child : ℕ)
      → down id name dirs ≡ some child
      → (up child dirs ≡ some (id, name)) × (mem child waiting ≡ false)
  pub listed :
      (id parent : ℕ) (name : Name)
      → up id dirs ≡ some (parent, name)
      → (id ≡ root) ⊎ ((mem id waiting ≡ true) ⊎ (down parent name dirs ≡ some id))
  pub root_up : up root dirs ≡ some (0, [])
  pub root_stays : mem root waiting ≡ false
  pub root_directory : (inode : Inode) → find root dirs ≡ some inode → inode.is_directory ≡ true

pub up-insert :
    (id j : ℕ) (inode : Inode) (dirs : Dirs)
    → up j (insert id inode dirs)
      ≡ ite (ℕ_discrete id j) (some (inode.parent_id, inode.name)) (up j dirs)
unfolding up
up-insert id j inode dirs = ground (arith, find-insert id j inode dirs)

pub down-insert :
    (id j : ℕ) (name : Name) (inode : Inode) (dirs : Dirs)
    → down j name (insert id inode dirs)
      ≡ ite (ℕ_discrete id j) (find name inode.children) (down j name dirs)
unfolding down
down-insert id j name inode dirs = ground (arith, find-insert id j inode dirs)

pub up-erase :
    (id j : ℕ) (dirs : Dirs) → up j (erase id dirs) ≡ ite (ℕ_discrete id j) none (up j dirs)
unfolding up
up-erase id j dirs = ground (arith, find-erase id j dirs)

pub down-erase :
    (id j : ℕ) (name : Name) (dirs : Dirs)
    → down j name (erase id dirs) ≡ ite (ℕ_discrete id j) none (down j name dirs)
unfolding down
down-erase id j name dirs = ground (arith, find-erase id j dirs)

pub up-find :
    (id : ℕ) (inode : Inode) (dirs : Dirs)
    → find id dirs ≡ some inode
    → up id dirs ≡ some (inode.parent_id, inode.name)
unfolding up
up-find id inode dirs h = ap link h

pub down-find :
    (id : ℕ) (name : Name) (inode : Inode) (dirs : Dirs)
    → find id dirs ≡ some inode
    → down id name dirs ≡ find name inode.children
unfolding down
down-find id name inode dirs h = ap (branch name) h

pub up-absent : (id : ℕ) (dirs : Dirs) → find id dirs ≡ none → up id dirs ≡ none
unfolding up
up-absent id dirs h = ap link h

pub down-absent :
    (id : ℕ) (name : Name) (dirs : Dirs) → find id dirs ≡ none → down id name dirs ≡ none
unfolding down
down-absent id name dirs h = ap (branch name) h

pub find-up :
    (id parent : ℕ) (name : Name) (dirs : Dirs)
    → up id dirs ≡ some (parent, name)
    → (inode : Inode) × (find id dirs ≡ some inode)
      × (inode.parent_id ≡ parent)
      × (inode.name ≡ name)
unfolding up
find-up id parent name dirs h = elim (Option-cases (find id dirs)) [
  | inl miss ↦ absurd (ground (arith, h, miss))
  | inr (inode, hit) ↦
      let links : some (inode.parent_id, inode.name) ≡ some (parent, name) =
        sym (ap link hit) ∙ h in
      (inode, hit, ground (arith, links), ground (arith, links))
]

pub find-update :
    (id j : ℕ) (change : Inode → Inode) (dirs : Dirs)
    → find j (update id change dirs)
      ≡ ite (ℕ_discrete id j) (some (change (node_at id dirs))) (find j dirs)
unfolding update
find-update id j change dirs = find-insert id j (change (node_at id dirs)) dirs

-- A change that keeps the link up, and one that keeps the children.
module _ (id : ℕ) (inode : Inode) (change : Inode → Inode) (dirs : Dirs)
    (here : find id dirs ≡ some inode) where
  pub find-update_present :
      (j : ℕ)
      → find j (update id change dirs) ≡ ite (ℕ_discrete id j) (some (change inode)) (find j dirs)
  find-update_present j = ground (arith, find-update id j change dirs, here)

  pub up-update :
      (j : ℕ)
      → up j (update id change dirs)
        ≡ ite (ℕ_discrete id j) (some ((change inode).parent_id, (change inode).name)) (up j dirs)
  unfolding up
  up-update j = ground (arith, find-update_present j)

  pub down-update :
      (j : ℕ) (name : Name)
      → down j name (update id change dirs)
        ≡ ite (ℕ_discrete id j) (find name (change inode).children) (down j name dirs)
  unfolding down
  down-update j name = ground (arith, find-update_present j)

-- `dir_inodes_[id]` changes nothing where there is an inode.
pub touch_present :
    (id : ℕ) (inode : Inode) (dirs : Dirs) → find id dirs ≡ some inode → touch id dirs ≡ dirs
unfolding touch
touch_present id inode dirs h = ground (arith, h)

pub node_at_present :
    (id : ℕ) (inode : Inode) (dirs : Dirs) → find id dirs ≡ some inode → node_at id dirs ≡ inode
node_at_present id inode dirs h = ground (arith, h)

-- A map of good inodes with one more.
pub nodes-insert :
    (next later id : ℕ) (inode : Inode) (dirs : Dirs)
    → next ≤ later
    → ((j : ℕ) (n : Inode) → find j dirs ≡ some n → IsNode next j n)
    → IsNode later id inode
    → (j : ℕ) (n : Inode) → find j (insert id inode dirs) ≡ some n
    → IsNode later j n
nodes-insert next later id inode dirs grows good new j n h =
    go (ℕ_discrete id j) (sym (find-insert id j inode dirs) ∙ h)
  where
    go : (d : Dec (id ≡ j)) → ite d (some inode) (find j dirs) ≡ some n → IsNode later j n
    go (yes same) e =
        let at_id : inode ≡ n = ground (arith, e) in
        subst (λ x. IsNode later x n) same (subst (IsNode later id) at_id new)
    go (no ne) e =
        let old = good j n e in
        record {
          same_id = old.same_id;
          positive = old.positive;
          below = omega (arith, old.below);
          children_IsMap = old.children_IsMap;
          leaf = old.leaf;
        }

pub nodes-update :
    (next id : ℕ) (inode : Inode) (change : Inode → Inode) (dirs : Dirs)
    → find id dirs ≡ some inode
    → ((j : ℕ) (n : Inode) → find j dirs ≡ some n → IsNode next j n)
    → (IsNode next id inode → IsNode next id (change inode))
    → (j : ℕ) (n : Inode) → find j (update id change dirs) ≡ some n
    → IsNode next j n
nodes-update next id inode change dirs here good keeps j n h =
    nodes-insert next next id (change inode) dirs (omega arith) good (keeps (good id inode here)) j
      n (sym (updated j) ∙ h)
  where
    updated : (j : ℕ) → find j (update id change dirs) ≡ find j (insert id (change inode) dirs)
    updated j =
        find-update_present id inode change dirs here j ∙ sym (find-insert id j (change inode) dirs)

-- The flag of the root under a change that keeps it.
pub root-update :
    (root id : ℕ) (inode : Inode) (change : Inode → Inode) (dirs : Dirs)
    → find id dirs ≡ some inode
    → (change inode).is_directory ≡ inode.is_directory
    → ((n : Inode) → find root dirs ≡ some n → n.is_directory ≡ true)
    → (n : Inode) → find root (update id change dirs) ≡ some n
    → n.is_directory ≡ true
root-update root id inode change dirs here keeps good n h =
    go (ℕ_discrete id root) (sym (find-update_present id inode change dirs here root) ∙ h)
  where
    go :
        (d : Dec (id ≡ root))
        → ite d (some (change inode)) (find root dirs) ≡ some n
        → n.is_directory ≡ true
    go (yes same) e =
        let at_root : inode.is_directory ≡ true =
          good inode (subst (λ x. find x dirs ≡ some inode) same here) in
        ground (arith, e, at_root, keeps)
    go (no ne) e = good n e

pub nodes-erase :
    (next id : ℕ) (dirs : Dirs)
    → ((j : ℕ) (n : Inode) → find j dirs ≡ some n → IsNode next j n)
    → (j : ℕ) (n : Inode) → find j (erase id dirs) ≡ some n
    → IsNode next j n
nodes-erase next id dirs good j n h = good j n (ground (arith, find-erase id j dirs, h))
