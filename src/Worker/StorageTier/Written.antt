-- ===== src/Worker/StorageTier/Written.antt =====
-- The ways in which `WriteBlock` and `ReadBlock` succeed.
use any_cache.Base.{
  ℕ, ◌+◌, ◌≤◌, ◌≡◌, inl, inr, true, false, none, some, List, [], find, insert, nat_key, arith,
  length, take, replicate, ◌+u64◌, Option-cases, Bool-cases, ltb,
}
use any_cache.Common.Status.{k_ok, done}
use any_cache.Worker.StorageTier.Bytes.{overlay}
use any_cache.Worker.StorageTier.{
  Os, BlockHandle, StorageTier, is_memory, allocate_block, write_mem, write_disk, write_block,
  copy_in, open_file,
}

abbrev pub overlaid : BlockHandle → ℕ → List ℕ → BlockHandle
overlaid h offset bytes = record h { buffer = overlay offset bytes h.buffer }

pub data Written (os : Os) (id : ℕ) (bytes : List ℕ) (offset : ℕ) (t t' : StorageTier)
    : Type 0 where
  in_memory :
      (h : BlockHandle)
      → find id t.blocks ≡ some h
      → is_memory t.type ≡ true
      → offset + length bytes ≤ length h.buffer
      → t' ≡ record t { blocks = insert id (overlaid h offset bytes) t.blocks }
      → Written os id bytes offset t t'
  on_disk :
      (h : BlockHandle) (file : List ℕ) (n : ℕ)
      → find id t.blocks ≡ some h
      → is_memory t.type ≡ false
      → find id t.files ≡ some file
      → os.moves ≡ some n
      → t' ≡ record t { files = insert id (overlay offset (take n bytes) file) t.files }
      → Written os id bytes offset t t'

module _ (os : Os) (id : ℕ) (bytes : List ℕ) (offset : ℕ) (t t' : StorageTier) where
  write_mem-Written :
      is_memory t.type ≡ true
      → write_mem id bytes offset t ≡ done t'
      → Written os id bytes offset t t'
  unfolding write_mem copy_in
  write_mem-Written mem e = elim (Option-cases (find id t.blocks)) [
    | inl miss ↦ absurd (ground (arith, miss, e))
    | inr (h, at) ↦ in_memory h at mem (ground (arith, at, e)) (ground (arith, at, e))
  ]

  write_disk-Written :
      is_memory t.type ≡ false
      → write_disk os id bytes offset t ≡ done t'
      → Written os id bytes offset t t'
  unfolding write_disk open_file
  write_disk-Written disk e = elim (Option-cases (find id t.blocks)) [
    | inl miss ↦ absurd (ground (arith, miss, e))
    | inr (h, at) ↦ elim (Option-cases (find id t.files)) [
      | inl no_file ↦ absurd (ground (arith, at, no_file, e))
      | inr (file, found) ↦ elim (Option-cases os.moves) [
        | inl stuck ↦ absurd (ground (arith, at, found, stuck, e))
        | inr (n, moved) ↦
            on_disk h file n at disk found moved (ground (arith, at, found, moved, e))
      ]
    ]
  ]

  pub write_block-Written :
      write_block os id bytes offset t ≡ done t' → Written os id bytes offset t t'
  unfolding write_block
  write_block-Written e = elim (Bool-cases (is_memory t.type)) [
    | inl mem ↦ write_mem-Written mem (ground (arith, mem, e))
    | inr disk ↦ write_disk-Written disk (ground (arith, disk, e))
  ]

-- The ways in which `AllocateBlock` succeeds: the block was not there and the space is not exceeded.
pub data Allocated (os : Os) (id size : ℕ) (t t' : StorageTier) : Type 0 where
  in_memory :
      find id t.blocks ≡ none
      → ltb t.capacity (t.used_bytes +u64 size) ≡ false
      → is_memory t.type ≡ true
      → t' ≡ record t {
        blocks = insert id (record { capacity = size; buffer = replicate size 0 }) t.blocks;
        used_bytes = t.used_bytes +u64 size;
      }
      → Allocated os id size t t'
  on_disk :
      find id t.blocks ≡ none
      → ltb t.capacity (t.used_bytes +u64 size) ≡ false
      → is_memory t.type ≡ false
      → t' ≡ record t {
        blocks = insert id (record { capacity = size; buffer = [] }) t.blocks;
        used_bytes = t.used_bytes +u64 size;
        files = insert id (replicate size 0) t.files;
      }
      → Allocated os id size t t'

module _ (os : Os) (id size : ℕ) (t t' : StorageTier) where
  pub allocate_block-Allocated :
      allocate_block os id size t ≡ (t', k_ok) → Allocated os id size t t'
  unfolding allocate_block
  allocate_block-Allocated e = elim (Option-cases (find id t.blocks)) [
    | inr (h, at) ↦ absurd (ground (arith, at, e))
    | inl miss ↦ elim (Bool-cases (ltb t.capacity (t.used_bytes +u64 size))) [
      | inl full ↦ absurd (ground (arith, miss, full, e))
      | inr fits ↦ elim (Bool-cases (is_memory t.type)) [
        | inl mem ↦ Allocated.in_memory miss fits mem (ground (arith, miss, fits, mem, e))
        | inr disk ↦ Allocated.on_disk miss fits disk (ground (arith, miss, fits, disk, e))
      ]
    ]
  ]
