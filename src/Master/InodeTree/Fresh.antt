-- ===== src/Master/InodeTree/Fresh.antt =====
-- The tree of the constructor has the right shape.
use any_cache.Base.{
  ℕ, ◌≡◌, refl, none, List, [], find, find-nil, find-insert, mem-nil, ite, arith, ℕ_discrete,
  nat_key,
}
use any_cache.Common.Database.{Database}
use any_cache.Master.Inode.{Inode}
use any_cache.Master.OwnerGroupDict.{name_key}
use any_cache.Master.InodeTree.{new_tree, root_inode}
use any_cache.Master.InodeTree.Shape.{
  down, up-insert, down-insert, up-absent, down-absent, nodes-insert,
}
use any_cache.Master.InodeTree.Creation.{IsValid}

no_inode : (j : ℕ) → find {V = Inode} j [] ≡ none
no_inode j = find-nil j

no_child : (name : List ℕ) → find {V = ℕ} name [] ≡ none
no_child name = find-nil name

-- The tree that the constructor makes has the right shape.
pub new_tree-IsValid : (db : Database) (now : ℕ) → IsValid db (new_tree db now)
unfolding new_tree
new_tree-IsValid db now = record {
  in_memory = refl;
  tree = record {
    nodes =
        nodes-insert 2 2 1 (root_inode 1 now) [] (omega arith)
          (λ j n h. absurd (ground (arith, h, no_inode j)))
          (record {
            same_id = refl;
            positive = omega arith;
            below = omega arith;
            children_IsMap = tt;
            leaf = λ file. refl;
          });
    lists = λ id name child h.
        absurd (
          ground
            (arith, h, only_down id name, down-absent id name [] (no_inode id), no_child name));
    listed = λ id parent name h.
        ground (arith, h, up-insert 1 id (root_inode 1 now) [], up-absent id [] (no_inode id));
    root_up = ground (arith, up-insert 1 1 (root_inode 1 now) []);
    root_stays = mem-nil 1;
    root_directory = λ n h. ground (arith, h, find-insert {K = ℕ} 1 1 (root_inode 1 now) []);
  };
}
  where
    only_down :
        (id : ℕ) (name : List ℕ)
        → down id name (new_tree db now).dir_inodes
          ≡ ite (ℕ_discrete 1 id) (find name []) (down id name [])
    only_down id name = down-insert 1 id name (root_inode 1 now) []
