-- ===== src/Common/BlockIds.antt =====
-- The composite block ids and the block arithmetic of src/common/types.h: an id holds the inode in
-- its high 40 bits and the index of the block in the file in its low 24 bits.
use any_cache.Base.{
  ℕ, zero, suc, ◌+◌, ◌-◌, ◌*◌, ◌/◌, ◌%◌, ◌^◌, ◌≤◌, ◌<◌, min, ◌≡◌, refl, ap, subst, ◌∙◌, arith, leb,
  ◌==◌, if◌then◌else◌, u64, ◌+u64◌, ◌-u64◌,
}
use native.Mathlib.Nat.{div-add-mod', mod-lt}

abbrev pub block_index_span : ℕ
block_index_span = 2 ^ 24

abbrev pub max_inode_id : ℕ
max_inode_id = 2 ^ 40 - 1

abbrev pub max_block_index : ℕ
max_block_index = 2 ^ 24 - 1

-- `(inode_id << 24) | (block_index & mask)`: the shift leaves the low 24 bits clear and the mask
-- keeps only those, so that the disjunction is a sum.
unfoldable pub make_block_id : ℕ → ℕ → ℕ
make_block_id inode_id block_index =
    inode_id * block_index_span % u64 + block_index % block_index_span

unfoldable pub get_inode_id : ℕ → ℕ
get_inode_id block_id = block_id / block_index_span

unfoldable pub get_block_index : ℕ → ℕ
get_block_index block_id = block_id % block_index_span

-- `static_cast<uint32_t>((file_size + block_size - 1) / block_size)`
unfoldable pub get_block_count : ℕ → ℕ → ℕ
get_block_count file_size block_size =
    if file_size == 0 then 0 else (file_size +u64 block_size -u64 1) / block_size % (2 ^ 32)

unfoldable pub get_block_length : ℕ → ℕ → ℕ → ℕ
get_block_length file_size block_index block_size =
    let start = block_index * block_size % u64 in
    if leb file_size start then 0 else min block_size (file_size - start)

-- The id of a block within the bounds of the layout is a 64-bit word that gives back its inode and
-- its index.
pub get-make_block_id :
    (inode_id block_index : ℕ)
    → inode_id ≤ max_inode_id
    → block_index ≤ max_block_index
    → (get_inode_id (make_block_id inode_id block_index) ≡ inode_id)
      × (get_block_index (make_block_id inode_id block_index) ≡ block_index)
      × (make_block_id inode_id block_index < u64)
unfolding make_block_id get_inode_id get_block_index
get-make_block_id inode_id block_index hi hb = (omega arith, omega arith, omega arith)

-- The lengths of the first `n` blocks together.
abbrev pub total_length : ℕ → ℕ → ℕ → ℕ
total_length file_size block_size zero = 0
total_length file_size block_size (suc n) =
    total_length file_size block_size n + get_block_length file_size n block_size

total_length-min :
    (file_size block_size n : ℕ)
    → n * block_size < u64
    → total_length file_size block_size n ≡ min file_size (n * block_size)
unfolding get_block_length
total_length-min file_size block_size zero h = omega arith
total_length-min file_size block_size (suc n) h =
    let ih = total_length-min file_size block_size n (omega arith) in ground (arith, ih)

-- The blocks of a file, as many as `GetBlockCount` says, hold exactly its bytes: when the size of
-- a block is positive, rounding the size up to whole blocks does not leave 64 bits, and the number
-- of blocks fits 32 bits.
pub total-get_block_length :
    (file_size block_size : ℕ)
    → 0 < block_size
    → file_size + block_size ≤ u64
    → (file_size + block_size - 1) / block_size < 2 ^ 32
    → total_length file_size block_size (get_block_count file_size block_size) ≡ file_size
unfolding get_block_count ◌+u64◌ ◌-u64◌
total-get_block_length zero block_size positive bound fits = refl
total-get_block_length (suc f) block_size positive bound fits =
    let whole = div-add-mod' (f + block_size) block_size in
    let part = mod-lt (f + block_size) positive in
    let exact : ((suc f + block_size) % u64 + u64 - 1) % u64 ≡ f + block_size = omega arith in
    let same : suc f + block_size - 1 ≡ f + block_size = omega arith in
    let few : (f + block_size) / block_size < 2 ^ 32 =
      subst (λ x. x / block_size < 2 ^ 32) same fits in
    let count : get_block_count (suc f) block_size ≡ (f + block_size) / block_size =
      nonzero _ ∙ ap (λ x. x / block_size % (2 ^ 32)) exact ∙ omega arith in
    ap (total_length (suc f) block_size) count
    ∙ total_length-min (suc f) block_size ((f + block_size) / block_size) (omega arith)
    ∙ omega arith
  where
    nonzero : (x : ℕ) → (if suc f == 0 then 0 else x) ≡ x
    nonzero x = ground arith
