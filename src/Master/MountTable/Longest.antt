-- ===== src/Master/MountTable/Longest.antt =====
-- `MountTable::Resolve` finds the longest mount point of a path.
use any_cache.Base.{
  ℕ, ◌≤◌, ◌<◌, ◌≡◌, ◌≢◌, ◌∙◌, ◌⊎◌, refl, ap, subst, inl, inr, Bool, true, Option, none, some, List,
  [], ◌∷◌, ◌++◌, All, length, arith, ◌==◌, Bool-cases, Option-cases,
}
use any_cache.Master.MountTable.{
  Path_, slash, MountEntry, compare_paths, strip_prefix, ends_in_slash, Match, no_match, undefined,
  relative, match_rest, match_mount, not_found, found, resolve,
}
use any_cache.Master.MountTable.Order.{Above, IsSorted, prefix_order}
use Prim.Native.Nat.{Ordering}

strip_prefix-append : (p path r : Path_) → strip_prefix p path ≡ some r → path ≡ p ++ r
unfolding strip_prefix
strip_prefix-append [] path r h = ground (arith, h)
strip_prefix-append (x ∷ xs) [] r h = absurd (ground arith)
strip_prefix-append (x ∷ xs) (y ∷ ys) r h = ground (arith, strip_prefix-append xs ys r)

abbrev pub EndsInSlash : Path_ → Type 0
EndsInSlash p = (front : Path_) × (p ≡ front ++ slash ∷ [])

-- What is below a mount point on a path: nothing, where the path is the mount point; else what stands
-- behind a slash, which is the last byte of the mount point or the byte after it.
abbrev pub Below : Path_ → Path_ → Path_ → Type 0
Below p path below =
    ((path ≡ p ++ below) × ((below ≡ []) ⊎ EndsInSlash p)) ⊎ (path ≡ p ++ slash ∷ below)

closed-EndsInSlash : (p : Path_) → ends_in_slash p ≡ some true → EndsInSlash p
unfolding ends_in_slash
closed-EndsInSlash [] h = absurd (ground (arith, h))
closed-EndsInSlash (x ∷ []) h = ([], ground (arith, h))
closed-EndsInSlash (x ∷ y ∷ ys) h =
    let (front, split) = closed-EndsInSlash (y ∷ ys) h in (x ∷ front, ap (λ zs. x ∷ zs) split)

EndsInSlash-closed : (front : Path_) → ends_in_slash (front ++ slash ∷ []) ≡ some true
unfolding ends_in_slash
EndsInSlash-closed [] = refl
EndsInSlash-closed (x ∷ []) = refl
EndsInSlash-closed (x ∷ y ∷ ys) = EndsInSlash-closed (y ∷ ys)

rest-Below :
    (closed : Option Bool) (rest below : Path_)
    → match_rest closed rest ≡ relative below
    → ((rest ≡ below) × ((below ≡ []) ⊎ (closed ≡ some true))) ⊎ (rest ≡ slash ∷ below)
unfolding match_rest
rest-Below closed [] below h = inl (ground (arith, h), inl (ground (arith, h)))
rest-Below none (c ∷ cs) below h = absurd (ground (arith, h))
rest-Below (some closed) (c ∷ cs) below h = elim (Bool-cases (c == slash)) [
  | inl is_slash ↦ inr (ground (arith, is_slash, h))
  | inr other ↦ elim (Bool-cases closed) [
    | inl is_closed ↦ inl (ground (arith, other, is_closed, h), inr (ground (arith, is_closed)))
    | inr open_ ↦ absurd (ground (arith, other, open_, h))
  ]
]

strip_prefix_self : (p rest : Path_) → strip_prefix p (p ++ rest) ≡ some rest
unfolding strip_prefix
strip_prefix_self [] rest = refl
strip_prefix_self (x ∷ xs) rest = ground (arith, strip_prefix_self xs rest)

rest_matches :
    (closed : Option Bool) (rest below : Path_)
    → ((rest ≡ below) × ((below ≡ []) ⊎ (closed ≡ some true))) ⊎ (rest ≡ slash ∷ below)
    → match_rest closed rest ≢ no_match
unfolding match_rest
rest_matches closed [] below b h = absurd (ground (arith, h))
rest_matches none (c ∷ cs) below b h = absurd (ground (arith, h))
rest_matches (some closed) (c ∷ cs) below b h = absurd (ground (arith, b, h))

-- A mount point that is missed has nothing of the path below it.
missed-Below : (p path below : Path_) → match_mount p path ≡ no_match → Below p path below → ⊥
unfolding match_mount
missed-Below p path below h (inr split) =
    let left : strip_prefix p path ≡ some (slash ∷ below) =
      ap (strip_prefix p) split ∙ strip_prefix_self p (slash ∷ below) in
    rest_matches (ends_in_slash p) (slash ∷ below) below (inr refl) (ground (arith, left, h))
missed-Below p path below h (inl (split, inl nothing)) =
    let left : strip_prefix p path ≡ some below =
      ap (strip_prefix p) split ∙ strip_prefix_self p below in
    rest_matches (ends_in_slash p) below below (inl (refl, inl nothing)) (ground (arith, left, h))
missed-Below p path below h (inl (split, inr (front, closed))) =
    let left : strip_prefix p path ≡ some below =
      ap (strip_prefix p) split ∙ strip_prefix_self p below in
    let is_closed : ends_in_slash p ≡ some true =
      ap ends_in_slash closed ∙ EndsInSlash-closed front in
    rest_matches (ends_in_slash p) below below (inl (refl, inr is_closed)) (ground (arith, left, h))

match_mount-Below :
    (p path below : Path_) → match_mount p path ≡ relative below → Below p path below
unfolding match_mount
match_mount-Below p path below h = elim (Option-cases (strip_prefix p path)) [
  | inl none_left ↦ absurd (ground (arith, none_left, h))
  | inr (rest, left) ↦
      let whole = strip_prefix-append p path rest left in
      elim (rest-Below (ends_in_slash p) rest below (ground (arith, left, h))) [
        | inl (same, inl nothing) ↦ inl (subst (λ r. path ≡ p ++ r) same whole, inl nothing)
        | inl (same, inr closed) ↦
            inl (subst (λ r. path ≡ p ++ r) same whole, inr (closed-EndsInSlash p closed))
        | inr same ↦ inr (subst (λ r. path ≡ p ++ r) same whole)
      ]
]

Below-stripped :
    (p path below : Path_) → Below p path below → (r : Path_) × (strip_prefix p path ≡ some r)
Below-stripped p path below (inl (split, ends)) =
    (below, ap (strip_prefix p) split ∙ strip_prefix_self p below)
Below-stripped p path below (inr split) =
    (slash ∷ below, ap (strip_prefix p) split ∙ strip_prefix_self p (slash ∷ below))

-- A path that is not empty has a last byte.
ends_in_slash-cons : (x : ℕ) (xs : Path_) → (b : Bool) × (ends_in_slash (x ∷ xs) ≡ some b)
unfolding ends_in_slash
ends_in_slash-cons x [] = (x == slash, refl)
ends_in_slash-cons x (y ∷ ys) = ends_in_slash-cons y ys

match_mount-defined : (p path : Path_) → 0 < length p → match_mount p path ≡ undefined → ⊥
unfolding match_mount match_rest
match_mount-defined [] path long h = omega arith
match_mount-defined (x ∷ xs) path long h =
    let (b, last) = ends_in_slash-cons x xs in
    elim (Option-cases (strip_prefix (x ∷ xs) path)) [
      | inl none_left ↦ ground (arith, none_left, h)
      | inr ([], left) ↦ ground (arith, left, h)
      | inr (c ∷ cs, left) ↦ ground (arith, left, last, h)
    ]

Match-cases :
    (m : Match) → (m ≡ no_match) ⊎ ((m ≡ undefined) ⊎ ((below : Path_) × (m ≡ relative below)))
Match-cases no_match = inl refl
Match-cases undefined = inr (inl refl)
Match-cases (relative below) = inr (inr (below, refl))

module _ {Ufs : Type 0} (path : Path_) where
  -- The mount point is on the path, with the given path below it.
  abbrev pub Covers : MountEntry Ufs → Path_ → Type 0
  Covers e below = Below e.anycache_path path below

  abbrev pub Stands : MountEntry Ufs → List (MountEntry Ufs) → Type 0
  Stands e [] = ⊥
  Stands e (f ∷ fs) = (f ≡ e) ⊎ Stands e fs

  -- No mount point of the list that matches is longer.
  abbrev pub NoLonger : ℕ → List (MountEntry Ufs) → Type 0
  NoLonger n es =
      All (λ (f : MountEntry Ufs). (below : Path_) → Covers f below → length f.anycache_path ≤ n) es

  abbrev pub Longest : MountEntry Ufs → Path_ → List (MountEntry Ufs) → Type 0
  Longest e below es = Stands e es × Covers e below × NoLonger (length e.anycache_path) es

  abbrev pub Named : List (MountEntry Ufs) → Type 0
  Named es = All (λ (f : MountEntry Ufs). 0 < length f.anycache_path) es

  abbrev pub Missed : List (MountEntry Ufs) → Type 0
  Missed es = All (λ (f : MountEntry Ufs). (below : Path_) → Covers f below → ⊥) es

  Missed-NoLonger : (n : ℕ) (es : List (MountEntry Ufs)) → Missed es → NoLonger n es
  Missed-NoLonger n [] m = tt
  Missed-NoLonger n (f ∷ fs) m = ((λ below c. absurd (m.0 below c)), Missed-NoLonger n fs m.1)

  Above-Stands :
      (p : Path_) (e : MountEntry Ufs) (es : List (MountEntry Ufs))
      → Above p es
      → Stands e es
      → compare_paths p e.anycache_path ≡ Ordering.lt
  Above-Stands p e [] a s = elim s [ ]
  Above-Stands p e (f ∷ fs) a (inl same) =
      subst (λ (g : MountEntry Ufs). compare_paths p g.anycache_path ≡ Ordering.lt) same a.0
  Above-Stands p e (f ∷ fs) a (inr s) = Above-Stands p e fs a.1 s

  -- When the mount points are sorted and none is the empty path, a path resolves to the longest
  -- mount point that it lies below or is, with what is below that mount point behind the slash; and
  -- where it resolves to none, it lies below no mount point and is none. A path lies below a mount
  -- point only where a slash stands between the two: the last byte of the one or the next byte.
  pub resolve-Longest :
      (es : List (MountEntry Ufs))
      → IsSorted es
      → Named es
      → ((resolve path es ≡ not_found) × Missed es)
        ⊎ ((e : MountEntry Ufs) × (below : Path_) × (resolve path es ≡ found e below)
            × Longest e below es)
  unfolding resolve
  resolve-Longest [] s n = inl (refl, tt)
  resolve-Longest (e ∷ es) s n = elim (resolve-Longest es s.1 n.1) [
    | inl (none_found, missed) ↦ elim (Match-cases (match_mount e.anycache_path path)) [
      | inl miss ↦ inl (
        ground (arith, none_found, miss),
        ((λ below c. missed-Below e.anycache_path path below miss c), missed),
      )
      | inr (inl bad) ↦ absurd (match_mount-defined e.anycache_path path n.0 bad)
      | inr (inr (below, hit)) ↦ inr (
        e,
        below,
        ground (arith, none_found, hit),
        (
          inl refl,
          match_mount-Below e.anycache_path path below hit,
          ((λ b c. omega arith), Missed-NoLonger (length e.anycache_path) es missed),
        ),
      )
    ]
    | inr (f, below, hit, (stands, covers, bound)) ↦ inr (
      f,
      below,
      ground (arith, hit),
      (
        inr stands,
        covers,
        (
          (λ b c.
              let (r, left) = Below-stripped e.anycache_path path b c in
              let (t, right) = Below-stripped f.anycache_path path below covers in
              prefix_order e.anycache_path f.anycache_path path r t left right
                (Above-Stands e.anycache_path f es s.0 stands)),
          bound,
        ),
      ),
    )
  ]
