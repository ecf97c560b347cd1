-- ===== src/Master/InodeTree/Paths.antt =====
-- Paths followed down the links of the tree.
use any_cache.Base.{
  ℕ, ◌≡◌, inl, inr, refl, ap, sym, subst, ◌∙◌, true, Option, none, some, List, [], ◌∷◌, ◌++◌, find,
  find-nil, arith, Option-cases, Bool-cases, nat_key,
}
use any_cache.Master.Inode.{Name, Inode}
use any_cache.Master.OwnerGroupDict.{name_key}
use any_cache.Master.InodeTree.{Dirs, walk_parts, resolve_parts, split_last}
use any_cache.Master.InodeTree.Shape.{down, IsNode, IsTree, down-find, down-absent, find-up}

-- The inode at the end of a path: what a path means.
abbrev pub follow : Option ℕ → (ℕ → Option ℕ) → Option ℕ
follow none next = none
follow (some child) next = next child

unfoldable pub steps : List Name → ℕ → Dirs → Option ℕ
steps [] current dirs = some current
steps (part ∷ parts) current dirs =
    follow (down current part dirs) (λ child. steps parts child dirs)

pub walk_parts-steps :
    (parts : List Name) (current : ℕ) (dirs : Dirs)
    → walk_parts parts current dirs ≡ steps parts current dirs
unfolding walk_parts steps down
walk_parts-steps [] current dirs = refl
walk_parts-steps (part ∷ parts) current dirs = elim (Option-cases (find current dirs)) [
  | inl miss ↦ rw (miss, walk_parts) refl
  | inr (node, hit) ↦ elim (Option-cases (find part node.children)) [
    | inl gone ↦ rw (hit, gone, walk_parts) refl
    | inr (child, found) ↦ rw (hit, found, walk_parts) (walk_parts-steps parts child dirs)
  ]
]

pub steps-append :
    (front : List Name) (name : Name) (current : ℕ) (dirs : Dirs)
    → steps (front ++ name ∷ []) current dirs
      ≡ follow (steps front current dirs) (λ parent. down parent name dirs)
unfolding steps
steps-append [] name current dirs = ground arith
steps-append (part ∷ parts) name current dirs = elim (Option-cases (down current part dirs)) [
  | inl miss ↦ rw miss refl
  | inr (child, hit) ↦ rw hit (steps-append parts name child dirs)
]

pub split_last-append :
    (part : Name) (parts : List Name)
    → (split_last part parts).0 ++ (split_last part parts).1 ∷ [] ≡ part ∷ parts
unfolding split_last
split_last-append part [] = refl
split_last-append part (next ∷ parts) =
    ap (λ (xs : List Name). part ∷ xs) (split_last-append next parts)

-- The last link of a path.
pub steps-split_last :
    (part : Name) (parts : List Name) (current : ℕ) (dirs : Dirs)
    → steps (part ∷ parts) current dirs
      ≡ follow
          (steps (split_last part parts).0 current dirs)
          (λ parent. down parent (split_last part parts).1 dirs)
steps-split_last part parts current dirs =
    ap (λ (xs : List Name). steps xs current dirs) (sym (split_last-append part parts))
    ∙ steps-append (split_last part parts).0 (split_last part parts).1 current dirs

-- Where the last link of a path starts.
pub last_link :
    (part : Name) (parts : List Name) (current id : ℕ) (dirs : Dirs)
    → steps (part ∷ parts) current dirs ≡ some id
    → (grand : ℕ) × (steps (split_last part parts).0 current dirs ≡ some grand)
      × (down grand (split_last part parts).1 dirs ≡ some id)
last_link part parts current id dirs h =
    let both = sym (steps-split_last part parts current dirs) ∙ h in
    elim (Option-cases (steps (split_last part parts).0 current dirs)) [
      | inl miss ↦ absurd (ground (arith, both, miss))
      | inr (grand, hit) ↦ (grand, hit, ground (arith, both, hit))
    ]

-- Resolving a path gives what the path means.
pub resolve_parts-steps :
    (parts : List Name) (current id : ℕ) (dirs : Dirs)
    → resolve_parts parts current dirs ≡ inr id
    → steps parts current dirs ≡ some id
unfolding steps resolve_parts
resolve_parts-steps [] current id dirs h = ground (arith, h)
resolve_parts-steps (part ∷ parts) current id dirs h = elim (Option-cases (find current dirs)) [
  | inl miss ↦ absurd (ground (arith, h, miss))
  | inr (node, hit) ↦ elim (Bool-cases node.is_directory) [
    | inr file ↦ absurd (ground (arith, h, hit, file))
    | inl directory ↦ elim (Option-cases (find part node.children)) [
      | inl gone ↦ absurd (ground (arith, h, hit, directory, gone))
      | inr (child, found) ↦
          let rest : resolve_parts parts child dirs ≡ inr id =
            ground (arith, h, hit, directory, found) in
          ap (λ o. follow o (λ child. steps parts child dirs))
            (down-find current part node dirs hit ∙ found)
          ∙ resolve_parts-steps parts child id dirs rest
    ]
  ]
]

has_child :
    {next id : ℕ}
    → (name : Name) (child : ℕ) (node : Inode) → IsNode next id node
    → find name node.children ≡ some child
    → node.is_directory ≡ true
has_child name child node good h = elim (Bool-cases node.is_directory) [
  | inl directory ↦ directory
  | inr file ↦ absurd (ground (arith, h, ap (find name) (good.leaf file) ∙ find-nil name))
]

-- In a tree what a path means is what it resolves to.
pub steps-resolve_parts :
    {root next : ℕ} {waiting : List ℕ}
    → (parts : List Name) (current id : ℕ) (dirs : Dirs) → IsTree root next waiting dirs
    → steps parts current dirs ≡ some id
    → resolve_parts parts current dirs ≡ inr id
unfolding steps resolve_parts
steps-resolve_parts [] current id dirs tree h = ground (arith, h)
steps-resolve_parts (part ∷ parts) current id dirs tree h =
    elim (Option-cases (find current dirs)) [
      | inl miss ↦ absurd (ground (arith, h, down-absent current part dirs miss))
      | inr (node, hit) ↦
          let here = down-find current part node dirs hit in
          elim (Option-cases (find part node.children)) [
            | inl gone ↦ absurd (ground (arith, h, here, gone))
            | inr (child, found) ↦
                let rest : steps parts child dirs ≡ some id = ground (arith, h, here, found) in
                let directory : node.is_directory ≡ true =
                  has_child part child node (tree.nodes current node hit) found in
                rw (hit, directory, found, resolve_parts)
                  (steps-resolve_parts parts child id dirs tree rest)
          ]
    ]

-- From an inode in memory a path leads to inodes in memory only.
pub steps-present :
    {root next : ℕ} {waiting : List ℕ}
    → (parts : List Name) (current id : ℕ) (node : Inode) (dirs : Dirs)
    → IsTree root next waiting dirs
    → find current dirs ≡ some node
    → steps parts current dirs ≡ some id
    → (last : Inode) × (find id dirs ≡ some last)
unfolding steps
steps-present [] current id node dirs tree here h =
    let same : current ≡ id = ground (arith, h) in
    (node, subst (λ x. find x dirs ≡ some node) same here)
steps-present (part ∷ parts) current id node dirs tree here h =
    elim (Option-cases (down current part dirs)) [
      | inl miss ↦ absurd (ground (arith, h, miss))
      | inr (child, hit) ↦
          let (inode, found, _, _) =
            find-up child current part dirs (tree.lists current part child hit).0 in
          let rest : steps parts child dirs ≡ some id = ground (arith, h, hit) in
          steps-present parts child id inode dirs tree found rest
    ]

-- More links leave every path where it led.
pub steps_mono :
    (parts : List Name) (current id : ℕ) (dirs dirs' : Dirs)
    → ((parent : ℕ) (name : Name) (child : ℕ)
        → down parent name dirs ≡ some child
        → down parent name dirs' ≡ some child)
    → steps parts current dirs ≡ some id
    → steps parts current dirs' ≡ some id
unfolding steps
steps_mono [] current id dirs dirs' more h = h
steps_mono (part ∷ parts) current id dirs dirs' more h =
    elim (Option-cases (down current part dirs)) [
      | inl miss ↦ absurd (ground (arith, h, miss))
      | inr (child, hit) ↦
          let rest : steps parts child dirs ≡ some id = ground (arith, h, hit) in
          ap (λ o. follow o (λ child. steps parts child dirs')) (more current part child hit)
          ∙ steps_mono parts child id dirs dirs' more rest
    ]
