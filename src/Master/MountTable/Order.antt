-- ===== src/Master/MountTable/Order.antt =====
-- The order of the mount points: by path, each path once, kept by mounting and unmounting.
use any_cache.Base.{
  ℕ, ◌≤◌, ◌≡◌, ◌⊎◌, refl, sym, subst, inl, inr, Option, some, List, [], ◌∷◌, All, length, arith,
  Option-cases,
}
use any_cache.Master.MountTable.{
  Path_, MountEntry, compare_paths, strip_prefix, insert_mount, erase_mount, load_from_db,
}
use Prim.Native.Nat.{Ordering}

Ordering-cases : (o : Ordering) → (o ≡ Ordering.lt) ⊎ ((o ≡ Ordering.eq) ⊎ (o ≡ Ordering.gt))
Ordering-cases Ordering.lt = inl refl
Ordering-cases Ordering.eq = inr (inl refl)
Ordering-cases Ordering.gt = inr (inr refl)

pub compare_flip : (p q : Path_) → compare_paths p q ≡ Ordering.gt → compare_paths q p ≡ Ordering.lt
unfolding compare_paths
compare_flip [] [] h = absurd (ground arith)
compare_flip [] (y ∷ ys) h = absurd (ground arith)
compare_flip (x ∷ xs) [] h = refl
compare_flip (x ∷ xs) (y ∷ ys) h = ground (arith, compare_flip xs ys)

pub compare_eq : (p q : Path_) → compare_paths p q ≡ Ordering.eq → p ≡ q
unfolding compare_paths
compare_eq [] [] h = refl
compare_eq [] (y ∷ ys) h = absurd (ground arith)
compare_eq (x ∷ xs) [] h = absurd (ground arith)
compare_eq (x ∷ xs) (y ∷ ys) h = ground (arith, compare_eq xs ys)

pub compare_trans :
    (p q r : Path_)
    → compare_paths p q ≡ Ordering.lt
    → compare_paths q r ≡ Ordering.lt
    → compare_paths p r ≡ Ordering.lt
unfolding compare_paths
compare_trans [] [] r h k = absurd (ground arith)
compare_trans [] (y ∷ ys) [] h k = absurd (ground arith)
compare_trans [] (y ∷ ys) (z ∷ zs) h k = refl
compare_trans (x ∷ xs) [] r h k = absurd (ground arith)
compare_trans (x ∷ xs) (y ∷ ys) [] h k = absurd (ground arith)
compare_trans (x ∷ xs) (y ∷ ys) (z ∷ zs) h k = ground (arith, compare_trans xs ys zs)

-- Of two prefixes of one path the earlier one is not the longer one.
pub prefix_order :
    (p q path r t : Path_)
    → strip_prefix p path ≡ some r
    → strip_prefix q path ≡ some t
    → compare_paths p q ≡ Ordering.lt
    → length p ≤ length q
unfolding compare_paths strip_prefix
prefix_order [] q path r t h k less = omega arith
prefix_order (x ∷ xs) [] path r t h k less = absurd (ground arith)
prefix_order (x ∷ xs) (y ∷ ys) [] r t h k less = absurd (ground arith)
prefix_order (x ∷ xs) (y ∷ ys) (z ∷ zs) r t h k less = ground (arith, prefix_order xs ys zs r t)

module _ {Ufs : Type 0} where
  abbrev pub Above : Path_ → List (MountEntry Ufs) → Type 0
  Above p es = All (λ (f : MountEntry Ufs). compare_paths p f.anycache_path ≡ Ordering.lt) es

  abbrev pub IsSorted : List (MountEntry Ufs) → Type 0
  IsSorted [] = Unit
  IsSorted (e ∷ es) = Above e.anycache_path es × IsSorted es

  Above-trans :
      (p q : Path_) (es : List (MountEntry Ufs))
      → compare_paths p q ≡ Ordering.lt
      → Above q es
      → Above p es
  Above-trans p q [] h a = tt
  Above-trans p q (f ∷ es) h a = (compare_trans p q f.anycache_path h a.0, Above-trans p q es h a.1)

  Above-insert :
      (p : Path_) (e : MountEntry Ufs) (es : List (MountEntry Ufs))
      → compare_paths p e.anycache_path ≡ Ordering.lt
      → Above p es
      → Above p (insert_mount e es)
  unfolding insert_mount
  Above-insert p e [] h a = (h, tt)
  Above-insert p e (f ∷ es) h a =
      elim (Ordering-cases (compare_paths e.anycache_path f.anycache_path)) [
        | inl lt ↦ rw (lt, insert_mount) (h, a)
        | inr (inl eq) ↦ rw (eq, insert_mount) (h, a.1)
        | inr (inr gt) ↦ rw (gt, insert_mount) (a.0, Above-insert p e es h a.1)
      ]

  pub insert_mount-IsSorted :
      (e : MountEntry Ufs) (es : List (MountEntry Ufs)) → IsSorted es → IsSorted (insert_mount e es)
  unfolding insert_mount
  insert_mount-IsSorted e [] s = (tt, tt)
  insert_mount-IsSorted e (f ∷ es) s =
      elim (Ordering-cases (compare_paths e.anycache_path f.anycache_path)) [
        | inl lt ↦
            rw (lt, insert_mount) ((lt, Above-trans e.anycache_path f.anycache_path es lt s.0), s)
        | inr (inl eq) ↦
            rw (eq, insert_mount)
              (
                subst (λ p. Above p es) (sym (compare_eq e.anycache_path f.anycache_path eq)) s.0,
                s.1,
              )
        | inr (inr gt) ↦
            rw (gt, insert_mount)
              (
                Above-insert f.anycache_path e es (compare_flip e.anycache_path f.anycache_path gt)
                    s.0,
                insert_mount-IsSorted e es s.1,
              )
      ]

  Above-erase :
      (p path : Path_) (es : List (MountEntry Ufs)) → Above p es → Above p (erase_mount path es)
  unfolding erase_mount
  Above-erase p path [] a = tt
  Above-erase p path (f ∷ es) a = elim (Ordering-cases (compare_paths f.anycache_path path)) [
    | inl lt ↦ rw (lt, erase_mount) (a.0, Above-erase p path es a.1)
    | inr (inl eq) ↦ rw (eq, erase_mount) a.1
    | inr (inr gt) ↦ rw (gt, erase_mount) (a.0, Above-erase p path es a.1)
  ]

  pub erase_mount-IsSorted :
      (path : Path_) (es : List (MountEntry Ufs)) → IsSorted es → IsSorted (erase_mount path es)
  unfolding erase_mount
  erase_mount-IsSorted path [] s = tt
  erase_mount-IsSorted path (f ∷ es) s =
      elim (Ordering-cases (compare_paths f.anycache_path path)) [
        | inl lt ↦
            rw (lt, erase_mount)
              (Above-erase f.anycache_path path es s.0, erase_mount-IsSorted path es s.1)
        | inr (inl eq) ↦ rw (eq, erase_mount) s.1
        | inr (inr gt) ↦
            rw (gt, erase_mount)
              (Above-erase f.anycache_path path es s.0, erase_mount-IsSorted path es s.1)
      ]

  pub load_from_db-IsSorted :
      (create : List ℕ → Option Ufs) (rows : List (Path_ × List ℕ)) (mounts : List (MountEntry Ufs))
      → IsSorted mounts
      → IsSorted (load_from_db create rows mounts)
  unfolding load_from_db
  load_from_db-IsSorted create [] mounts s = s
  load_from_db-IsSorted create ((path, uri) ∷ rows) mounts s = elim (Option-cases (create uri)) [
    | inl no_ufs ↦ rw (no_ufs, load_from_db) (load_from_db-IsSorted create rows mounts s)
    | inr (ufs, made) ↦
        rw (made, load_from_db)
          (load_from_db-IsSorted create rows _ (insert_mount-IsSorted _ mounts s))
  ]
