-- ===== src/Worker/StorageTier/Contents.antt =====
-- What a tier stores under a block's id, and what reads and writes make of it.
use any_cache.Base.{
  at_number, ite, ℕ_discrete, ℕ, ◌+◌, ◌-◌, ◌%◌, ◌≤◌, ◌<◌, ◌≡◌, ◌≢◌, ap, ◌∙◌, inl, inr, true, Option,
  none, some, List, [], find, insert, nat_key, arith, min, length, take, replicate, u64, ◌+u64◌,
  ◌-u64◌, Bool-cases, ltb, if◌then◌else◌, take_of_length-le, find-insert, find-insert_self,
}
use any_cache.Common.Status.{k_ok, done}
use any_cache.Worker.StorageTier.Bytes.{
  overlay, slice, slice-overlay, length-overlay, take_all, length-slice-le,
}
use any_cache.Worker.StorageTier.Written.{
  in_memory, on_disk, overlaid, write_block-Written, Allocated, allocate_block-Allocated,
}
use any_cache.Worker.StorageTier.Space.{IsSound, capacity-lt}
use any_cache.Worker.StorageTier.{
  Os, BlockHandle, StorageTier, is_memory, allocate_block, read_mem, read_mem_size, copy_out,
  read_file, open_file, read_disk, read_block, write_block,
}

-- The bytes stored for a block: its buffer, or its file.
unfoldable pub contents : ℕ → StorageTier → Option (List ℕ)
contents id t = elim (find id t.blocks) [
  | none ↦ none
  | some h ↦ if is_memory t.type then some h.buffer else find id t.files
]

-- The operating system opens the file and moves all of `size` bytes.
pub record IsComplete (size : ℕ) (os : Os) : Type 0 where
  pub opened : os.opens ≡ true
  pub count : ℕ
  pub moved : os.moves ≡ some count
  pub whole : size ≤ count

-- A read of a stored range by a memory tier, clamped to the block.
read_mem_lem :
    (id size offset : ℕ) (t : StorageTier) (h : BlockHandle)
    → find id t.blocks ≡ some h
    → length h.buffer ≡ h.capacity
    → h.capacity < u64
    → offset ≤ h.capacity
    → offset + size < u64
    → read_mem id size offset t ≡ done (slice offset (min size (h.capacity - offset)) h.buffer)
unfolding read_mem read_mem_size copy_out ◌+u64◌ ◌-u64◌
read_mem_lem id size offset t h at full small inside room =
    elim (Bool-cases (ltb h.capacity ((offset + size) % u64))) [
      | inl over ↦
          let clamp : (h.capacity + u64 - offset) % u64 ≡ min size (h.capacity - offset) =
            ground (arith, over) in
          ground (arith, at, over, clamp, full)
      | inr fits ↦
          let clamp : size ≡ min size (h.capacity - offset) = ground (arith, fits) in
          ground (arith, at, fits, clamp, full)
    ]

read_disk_lem :
    (os : Os) (id size offset : ℕ) (t : StorageTier) (h : BlockHandle) (file : List ℕ)
    → IsComplete size os
    → find id t.blocks ≡ some h
    → find id t.files ≡ some file
    → read_disk os id size offset t ≡ done (slice offset size file)
unfolding read_disk open_file read_file
read_disk_lem os id size offset t h file c at found = ground (
  arith,
  at,
  found,
  c.opened,
  c.moved,
  take_of_length-le c.count (slice offset size file)
      (omega (arith, length-slice-le offset size file, c.whole)),
)

-- In a sound tier, of memory or of disk, after a successful write that moved all its bytes, a read
-- of the same range that moves all it asks for returns what was written, if the range ends below
-- 2 ^ 64.
pub read-write :
    (os os' : Os) (id : ℕ) (bytes : List ℕ) (offset : ℕ) (t t' : StorageTier)
    → IsSound t
    → write_block os id bytes offset t ≡ done t'
    → IsComplete (length bytes) os
    → IsComplete (length bytes) os'
    → offset + length bytes < u64
    → read_block os' id (length bytes) offset t' ≡ done bytes
unfolding read_block
read-write os os' id bytes offset t t' s e c c' room =
    elim (write_block-Written os id bytes offset t t' e) [
      | in_memory h at mem fits same ↦
          let full = s.buffers id h at mem in
          let exact : min (length bytes) (h.capacity - offset) ≡ length bytes =
            omega (arith, full) in
          let small : h.capacity < u64 = omega (arith, capacity-lt id h t s at) in
          let long = length-overlay offset bytes h.buffer fits in
          rw (same, mem)
            (read_mem_lem id (length bytes) offset
                (record t { blocks = insert id (overlaid h offset bytes) t.blocks })
                (overlaid h offset bytes) (find-insert_self id (overlaid h offset bytes) t.blocks)
                (omega (arith, full, long)) small (omega (arith, full)) room
              ∙ ap done (
                  ap (λ n. slice offset n (overlay offset bytes h.buffer)) exact
                  ∙ slice-overlay offset bytes h.buffer))
      | on_disk h file n at disk found moved same ↦
          let n-whole : length bytes ≤ n = ground (arith, moved, c.moved, c.whole) in
          let written = overlay offset (take n bytes) file in
          rw (same, disk)
            (read_disk_lem os' id (length bytes) offset
                (record t { files = insert id written t.files }) h written c' at
                (find-insert_self id written t.files)
              ∙ ap done (
                  ap (λ (b : List ℕ). slice offset (length bytes) (overlay offset b file))
                    (take_of_length-le n bytes n-whole)
                  ∙ slice-overlay offset bytes file))
    ]

pub written_contents :
    (os : Os) (id : ℕ) (bytes : List ℕ) (offset : ℕ) (t t' : StorageTier)
    → write_block os id bytes offset t ≡ done t'
    → ((j : ℕ) → id ≢ j → contents j t' ≡ contents j t)
      × ((n : ℕ) × (old : List ℕ) × (contents id t ≡ some old)
          × (contents id t' ≡ some (overlay offset (take n bytes) old)))
unfolding contents
written_contents os id bytes offset t t' e = elim (write_block-Written os id bytes offset t t' e) [
  | in_memory h at mem fits same ↦ (
    (λ j ne. ground (arith, same, find-insert id j (overlaid h offset bytes) t.blocks, ne)),
    (
      length bytes,
      h.buffer,
      ground (arith, at, mem),
      rw same (
          ground
            (arith, mem, take_all bytes, find-insert id id (overlaid h offset bytes) t.blocks)),
    ),
  )
  | on_disk h file n at disk found moved same ↦ (
    (λ j ne.
        ground
          (arith, same, disk, ne, find-insert id j (overlay offset (take n bytes) file) t.files)),
    (
      n,
      file,
      ground (arith, at, disk, found),
      rw same (
          ground (arith, at, disk, find-insert id id (overlay offset (take n bytes) file) t.files)),
    ),
  )
]

pub allocated_contents :
    (os : Os) (id size : ℕ) (t t' : StorageTier)
    → allocate_block os id size t ≡ (t', k_ok)
    → (contents id t' ≡ some (replicate size 0)) × ((j : ℕ) → id ≢ j → contents j t' ≡ contents j t)
unfolding contents
allocated_contents os id size t t' e = elim (allocate_block-Allocated os id size t t' e) [
  | Allocated.in_memory miss fits mem same ↦
      let h : BlockHandle = record { capacity = size; buffer = replicate size 0 } in
      (
        rw same (ground (arith, mem, find-insert id id h t.blocks)),
        (λ j ne. rw same (ground (arith, mem, ne, find-insert id j h t.blocks))),
      )
  | Allocated.on_disk miss fits disk same ↦
      let h : BlockHandle = record { capacity = size; buffer = [] } in
      (
        rw same (
            ground (
              arith,
              disk,
              find-insert id id h t.blocks,
              find-insert id id (replicate size 0) t.files,
            )),
        (λ j ne. rw same (
            ground (
              arith,
              disk,
              ne,
              find-insert id j h t.blocks,
              find-insert id j (replicate size 0) t.files,
            ))),
      )
]

-- A successful write, moved in whole or in part, leaves every other block's bytes as they were, and
-- puts a first part of its bytes over the old ones of its own block.
pub contents-write :
    (os : Os) (id : ℕ) (bytes : List ℕ) (offset : ℕ) (t t' : StorageTier)
    → write_block os id bytes offset t ≡ done t'
    → (n : ℕ) × (old : List ℕ) × (contents id t ≡ some old)
      × ((j : ℕ)
          → contents j t'
            ≡ ite (ℕ_discrete id j) (some (overlay offset (take n bytes) old)) (contents j t))
contents-write os id bytes offset t t' e =
    let (others, (n, old, before, after)) = written_contents os id bytes offset t t' e in
    (
      n,
      old,
      before,
      at_number (λ j. contents j t') (λ j. contents j t) id
          (some (overlay offset (take n bytes) old)) after others,
    )

-- A successful allocation makes a block of zeros, and the other blocks are as they were.
pub contents-allocate :
    (os : Os) (id size : ℕ) (t t' : StorageTier)
    → allocate_block os id size t ≡ (t', k_ok)
    → (j : ℕ) → contents j t' ≡ ite (ℕ_discrete id j) (some (replicate size 0)) (contents j t)
contents-allocate os id size t t' e =
    let (made, others) = allocated_contents os id size t t' e in
    at_number (λ j. contents j t') (λ j. contents j t) id (some (replicate size 0)) made others
