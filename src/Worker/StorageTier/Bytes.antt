-- ===== src/Worker/StorageTier/Bytes.antt =====
-- Runs of bytes: the part that a read takes and the result of a write.
use mathlib.Core.List.{append-nil}
use any_cache.Base.{
  ℕ, zero, suc, ◌+◌, ◌-◌, ◌≤◌, ◌<◌, ◌≡◌, refl, ap, List, [], ◌∷◌, ◌++◌, length, take, drop,
  replicate, arith, length-append, length-take, length-drop, length-replicate, take-append,
  drop-append, take_of_length-le,
}

-- At most `size` bytes from `offset`.
unfoldable pub slice : ℕ → ℕ → List ℕ → List ℕ
slice offset size bytes = take size (drop offset bytes)

pub length-slice-le : (offset size : ℕ) (bytes : List ℕ) → length (slice offset size bytes) ≤ size
unfolding slice
length-slice-le offset size bytes = omega (arith, length-take size (drop offset bytes))

-- Bytes over `old` from `offset`, with zeros before them where `old` is too short.
abbrev splice : ℕ → List ℕ → List ℕ → List ℕ
splice offset bytes old =
    (take offset old ++ replicate (offset - length old) 0)
    ++ (bytes ++ drop (offset + length bytes) old)

-- `bytes` written over `old` from `offset`: no bytes change nothing.
unfoldable pub overlay : ℕ → List ℕ → List ℕ → List ℕ
overlay offset [] old = old
overlay offset (b ∷ bytes) old = splice offset (b ∷ bytes) old

length-splice :
    (offset : ℕ) (bytes old : List ℕ)
    → offset + length bytes ≤ length old
    → length (splice offset bytes old) ≡ length old
length-splice offset bytes old h = omega (
  arith,
  length-append (take offset old ++ replicate (offset - length old) 0)
      (bytes ++ drop (offset + length bytes) old),
  length-append (take offset old) (replicate (offset - length old) 0),
  length-append bytes (drop (offset + length bytes) old),
  length-take offset old,
  length-drop (offset + length bytes) old,
  length-replicate {A = ℕ} (offset - length old) 0,
)

-- A write inside the old bytes keeps their number.
pub length-overlay :
    (offset : ℕ) (bytes old : List ℕ)
    → offset + length bytes ≤ length old
    → length (overlay offset bytes old) ≡ length old
unfolding overlay
length-overlay offset [] old h = refl
length-overlay offset (b ∷ bytes) old h = length-splice offset (b ∷ bytes) old h

drop-length-append : (n : ℕ) (xs ys : List ℕ) → length xs ≡ n → drop n (xs ++ ys) ≡ ys
drop-length-append n xs ys h = rw (← h) (drop-append xs ys)

length-front :
    (offset : ℕ) (old : List ℕ)
    → length (take offset old ++ replicate (offset - length old) 0) ≡ offset
length-front offset old = omega (
  arith,
  length-append (take offset old) (replicate (offset - length old) 0),
  length-take offset old,
  length-replicate {A = ℕ} (offset - length old) 0,
)

length-splice-le :
    (offset : ℕ) (bytes old : List ℕ) → offset + length bytes ≤ length (splice offset bytes old)
length-splice-le offset bytes old = omega (
  arith,
  length-append (take offset old ++ replicate (offset - length old) 0)
      (bytes ++ drop (offset + length bytes) old),
  length-append bytes (drop (offset + length bytes) old),
  length-front offset old,
)

-- A write of some bytes reaches as far as it was asked to.
pub length-overlay-le :
    (offset : ℕ) (bytes old : List ℕ)
    → 0 < length bytes
    → offset + length bytes ≤ length (overlay offset bytes old)
unfolding overlay
length-overlay-le offset [] old some_ = absurd (omega arith)
length-overlay-le offset (b ∷ bytes) old some_ = length-splice-le offset (b ∷ bytes) old

slice-splice :
    (offset : ℕ) (bytes old : List ℕ)
    → slice offset (length bytes) (splice offset bytes old) ≡ bytes
unfolding slice
slice-splice offset bytes old =
    rw
      (drop-length-append offset (take offset old ++ replicate (offset - length old) 0)
        (bytes ++ drop (offset + length bytes) old) (length-front offset old))
      (take-append bytes (drop (offset + length bytes) old))

-- What was written is read back from where it was written.
pub slice-overlay :
    (offset : ℕ) (bytes old : List ℕ)
    → slice offset (length bytes) (overlay offset bytes old) ≡ bytes
unfolding slice overlay
slice-overlay offset [] old = refl
slice-overlay offset (b ∷ bytes) old = slice-splice offset (b ∷ bytes) old

-- All the bytes.
pub take_all : (bytes : List ℕ) → take (length bytes) bytes ≡ bytes
take_all [] = refl
take_all (b ∷ bytes) = ap (◌∷◌ b) (take_all bytes)

pub slice_all : (bytes : List ℕ) → slice 0 (length bytes) bytes ≡ bytes
unfolding slice
slice_all bytes = take_all bytes

-- A read of at least as many bytes as there are.
pub slice_short : (size : ℕ) (bytes : List ℕ) → length bytes ≤ size → slice 0 size bytes ≡ bytes
unfolding slice
slice_short size bytes h = take_of_length-le size bytes h

drop_all : (n : ℕ) (old : List ℕ) → length old ≡ n → drop n old ≡ []
drop_all zero [] h = refl
drop_all zero (x ∷ old) h = absurd (omega arith)
drop_all (suc n) [] h = refl
drop_all (suc n) (x ∷ old) h = drop_all n old (omega arith)

-- A write of as many bytes as there were replaces them all.
pub overlay_all : (bytes old : List ℕ) → length old ≡ length bytes → overlay 0 bytes old ≡ bytes
unfolding overlay
overlay_all [] [] h = refl
overlay_all [] (x ∷ old) h = absurd (omega arith)
overlay_all (b ∷ bytes) old h =
    let no_gap : 0 - length old ≡ 0 = omega arith in
    rw (no_gap, drop_all (0 + length (b ∷ bytes)) old (omega arith)) (append-nil (b ∷ bytes))
