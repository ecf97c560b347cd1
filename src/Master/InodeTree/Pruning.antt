-- ===== src/Master/InodeTree/Pruning.antt =====
-- The loop of `delete` in memory: it ends, and it leaves a tree.
use any_cache.Base.{
  ℕ, zero, suc, ◌+◌, ◌≤◌, ◌≡◌, ◌≢◌, ◌⊎◌, inl, inr, refl, ap, sym, subst, ◌∙◌, true, false, none,
  some, is_some, List, [], ◌∷◌, Map, find, erase, IsMap, mem, mem-cons, mem-nil, length, sizes,
  size_at, sizes-erase, erase-IsMap, arith, ℕ_discrete, nat_key, find-erase, find-first,
  Option-cases, Bool-cases,
}
use any_cache.Master.Inode.{Name, Inode}
use any_cache.Master.OwnerGroupDict.{name_key}
use any_cache.Master.InodeTree.{Dirs}
use any_cache.Master.InodeTree.Remove.{push_children, remove_loop}
use any_cache.Master.InodeTree.Shape.{
  up, down, IsTree, up-erase, down-erase, up-absent, down-find, nodes-erase,
}

-- The fuel of the loop: one turn for each id on the stack and for each child of an inode in memory.
abbrev pub turns : List ℕ → Dirs → ℕ
turns stack dirs = length stack + sizes (λ inode. length inode.children) dirs

length-push_children :
    (children : Map Name ℕ) (stack : List ℕ)
    → length (push_children children stack) ≡ length children + length stack
unfolding push_children
length-push_children [] stack = omega arith
length-push_children ((name, child) ∷ children) stack =
    omega (arith, length-push_children children (child ∷ stack))

-- As many turns as ids and children are enough, whatever the links are: the loop ends even where
-- they run in a circle.
pub remove_loop-ends :
    (fuel : ℕ) (stack : List ℕ) (dirs : Dirs)
    → IsMap dirs
    → turns stack dirs ≤ fuel
    → is_some (remove_loop fuel stack dirs) ≡ true
unfolding remove_loop
remove_loop-ends fuel [] dirs once enough = refl
remove_loop-ends zero (rid ∷ stack) dirs once enough = absurd (omega arith)
remove_loop-ends (suc fuel) (rid ∷ stack) dirs once enough = elim (Option-cases (find rid dirs)) [
  | inl miss ↦ rw (miss, remove_loop) (remove_loop-ends fuel stack dirs once (omega arith))
  | inr (inode, hit) ↦
      let part = sizes-erase (λ n. length n.children) rid dirs once in
      let share : size_at (λ n. length n.children) (find rid dirs) ≡ length inode.children =
        ap (size_at (λ n. length n.children)) hit in
      rw (hit, remove_loop)
        (remove_loop-ends fuel (push_children inode.children stack) (erase rid dirs)
          (erase-IsMap rid dirs once)
          (omega (arith, length-push_children inode.children stack, part, share)))
]

mem-push_children :
    (id : ℕ) (children : Map Name ℕ) (stack : List ℕ)
    → IsMap children
    → mem id (push_children children stack) ≡ true
    → (mem id stack ≡ true) ⊎ ((name : Name) × (find name children ≡ some id))
unfolding push_children find
mem-push_children id [] stack once h = inl h
mem-push_children id ((name, child) ∷ children) stack once h =
    elim (mem-push_children id children (child ∷ stack) once.1 h) [
      | inl below ↦ elim (ℕ_discrete child id) [
        | yes same ↦ inr (name, find-first name child children ∙ ap some same)
        | no other ↦ inl (ground (arith, below, mem-cons id child stack, other))
      ]
      | inr (deeper, found) ↦ inr (deeper, ground (arith, found, once.0))
    ]

push_children-mem :
    (id : ℕ) (name : Name) (children : Map Name ℕ) (stack : List ℕ)
    → (mem id stack ≡ true) ⊎ (find name children ≡ some id)
    → mem id (push_children children stack) ≡ true
unfolding push_children find
push_children-mem id name [] stack h = ground (arith, h)
push_children-mem id name ((other, child) ∷ children) stack h =
    ground (arith, h, mem-cons id child stack, push_children-mem id name children (child ∷ stack))

-- One turn that finds an inode: its children wait in its place.
module _ (root next rid : ℕ) (stack : List ℕ) (dirs : Dirs) (inode : Inode)
    (tree : IsTree root next (rid ∷ stack) dirs) (here : find rid dirs ≡ some inode) where
  abbrev waiting : List ℕ
  waiting = push_children inode.children stack

  once : IsMap inode.children
  once = (tree.nodes rid inode here).children_IsMap

  not_root : rid ≢ root
  not_root same = ground (arith, mem-cons root rid stack, tree.root_stays, same)

  -- The children of the inode are those whose link leads to it.
  waits :
      (id : ℕ)
      → mem id waiting ≡ true
      → (mem id stack ≡ true) ⊎ ((name : Name) × (down rid name dirs ≡ some id))
  waits id h = elim (mem-push_children id inode.children stack once h) [
    | inl below ↦ inl below
    | inr (name, found) ↦ inr (name, down-find rid name inode dirs here ∙ found)
  ]

  waits_not :
      (id parent : ℕ) (name : Name)
      → parent ≢ rid
      → up id dirs ≡ some (parent, name)
      → mem id (rid ∷ stack) ≡ false
      → mem id waiting ≡ false
  waits_not id parent name other linked free = elim (Bool-cases (mem id waiting)) [
    | inr out ↦ out
    | inl inside ↦ elim (waits id inside) [
      | inl below ↦ absurd (ground (arith, below, free, mem-cons id rid stack))
      | inr (at_name, found) ↦
          absurd (ground (arith, (tree.lists rid at_name id found).0, linked, other))
    ]
  ]

  lists-turn :
      (id : ℕ) (name : Name) (child : ℕ)
      → down id name (erase rid dirs) ≡ some child
      → (up child (erase rid dirs) ≡ some (id, name)) × (mem child waiting ≡ false)
  lists-turn id name child h = elim (ℕ_discrete rid id) [
    | yes same ↦ absurd (ground (arith, h, down-erase rid id name dirs, same))
    | no other ↦
        let old : down id name dirs ≡ some child =
          ground (arith, h, down-erase rid id name dirs, other) in
        let (linked, free) = tree.lists id name child old in
        let outside = mem-cons child rid stack in
        (
          ground (arith, up-erase rid child dirs, linked, free, outside),
          waits_not child id name (λ e. other (sym e)) linked free,
        )
  ]

  listed-turn :
      (id parent : ℕ) (name : Name)
      → up id (erase rid dirs) ≡ some (parent, name)
      → (id ≡ root) ⊎ ((mem id waiting ≡ true) ⊎ (down parent name (erase rid dirs) ≡ some id))
  listed-turn id parent name h = ground (
    arith,
    h,
    up-erase rid id dirs,
    tree.listed id parent name,
    mem-cons id rid stack,
    push_children-mem id name inode.children stack,
    down-find rid name inode dirs here,
    down-erase rid parent name dirs,
  )

  turn-IsTree : IsTree root next waiting (erase rid dirs)
  turn-IsTree = record {
    nodes = nodes-erase next rid dirs tree.nodes;
    lists = lists-turn;
    listed = listed-turn;
    root_up = ground (arith, up-erase rid root dirs, tree.root_up, not_root);
    root_stays = elim (Bool-cases (mem root waiting)) [
      | inr out ↦ out
      | inl inside ↦ elim (waits root inside) [
        | inl below ↦ absurd (ground (arith, below, tree.root_stays, mem-cons root rid stack))
        | inr (name, found) ↦
            let linked = (tree.lists rid name root found).0 in
            let positive = (tree.nodes rid inode here).positive in
            absurd (ground (arith, linked, tree.root_up, positive))
      ]
    ];
    root_directory =
        λ n h. tree.root_directory n (ground (arith, find-erase rid root dirs, h, not_root));
  }

-- One turn that finds none: what is not in memory need not wait.
skip-IsTree :
    (root next rid : ℕ) (stack : List ℕ) (dirs : Dirs)
    → IsTree root next (rid ∷ stack) dirs
    → find rid dirs ≡ none
    → IsTree root next stack dirs
skip-IsTree root next rid stack dirs tree miss = record {
  nodes = tree.nodes;
  lists = λ id name child h.
      let (linked, free) = tree.lists id name child h in
      (linked, ground (arith, free, mem-cons child rid stack));
  listed = λ id parent name h.
      ground
        (arith, h, tree.listed id parent name h, mem-cons id rid stack, up-absent rid dirs miss);
  root_up = tree.root_up;
  root_stays = ground (arith, tree.root_stays, mem-cons root rid stack);
  root_directory = tree.root_directory;
}

-- What the loop leaves: a tree in which nothing waits, without the inodes that waited, and no
-- other inodes than before.
pub record Pruned (root next : ℕ) (stack : List ℕ) (dirs dirs' : Dirs) : Type 0 where
  pub tree : IsTree root next [] dirs'
  pub gone : (id : ℕ) → mem id stack ≡ true → find id dirs' ≡ none
  pub kept : (id : ℕ) (inode : Inode) → find id dirs' ≡ some inode → find id dirs ≡ some inode

pub remove_loop-Pruned :
    (root next fuel : ℕ) (stack : List ℕ) (dirs dirs' : Dirs)
    → IsTree root next stack dirs
    → remove_loop fuel stack dirs ≡ some dirs'
    → Pruned root next stack dirs dirs'
unfolding remove_loop
remove_loop-Pruned root next fuel [] dirs dirs' tree h =
    let same : dirs ≡ dirs' = ground (arith, h) in
    subst (Pruned root next [] dirs) same (record {
      tree = tree;
      gone = λ id e. absurd (ground (arith, e, mem-nil id));
      kept = λ id inode e. e;
    })
remove_loop-Pruned root next zero (rid ∷ stack) dirs dirs' tree h = absurd (ground (arith, h))
remove_loop-Pruned root next (suc fuel) (rid ∷ stack) dirs dirs' tree h =
    elim (Option-cases (find rid dirs)) [
      | inl miss ↦
          let rest : remove_loop fuel stack dirs ≡ some dirs' = ground (arith, h, miss) in
          let pruned =
            remove_loop-Pruned root next fuel stack dirs dirs'
              (skip-IsTree root next rid stack dirs tree miss) rest in
          record {
            tree = pruned.tree;
            gone = λ id e. elim (Option-cases (find id dirs')) [
              | inl out ↦ out
              | inr (inode, hit) ↦
                  ground (
                    arith,
                    e,
                    mem-cons id rid stack,
                    pruned.gone id,
                    pruned.kept id inode hit,
                    miss,
                  )
            ];
            kept = pruned.kept;
          }
      | inr (inode, hit) ↦
          let waiting = push_children inode.children stack in
          let rest : remove_loop fuel waiting (erase rid dirs) ≡ some dirs' =
            ground (arith, h, hit) in
          let pruned =
            remove_loop-Pruned root next fuel waiting (erase rid dirs) dirs'
              (turn-IsTree root next rid stack dirs inode tree hit) rest in
          let before : (id : ℕ) (n : Inode)
              → find id (erase rid dirs) ≡ some n
              → find id dirs ≡ some n =
            λ id n e. ground (arith, e, find-erase rid id dirs) in
          record {
            tree = pruned.tree;
            gone = λ id e. elim (Option-cases (find id dirs')) [
              | inl out ↦ out
              | inr (n, there) ↦ ground (
                arith,
                e,
                mem-cons id rid stack,
                pruned.gone id,
                push_children-mem id [] inode.children stack,
                pruned.kept id n there,
                find-erase rid id dirs,
              )
            ];
            kept = λ id n e. before id n (pruned.kept id n e);
          }
    ]
