-- ===== src/Worker/StorageTier/Transfer.antt =====
-- `ExportBlock` and `ImportBlock` carry a block's bytes from one tier to another.
use any_cache.Base.{
  at_number, ite, ℕ_discrete, ℕ, ◌+◌, ◌%◌, ◌≤◌, ◌<◌, ◌≡◌, ◌≢◌, refl, ap, subst, ◌∙◌, inl, inr, true,
  none, some, List, [], find, insert, nat_key, arith, length, take, replicate, u64, ◌+u64◌,
  Bool-cases, take_of_length-le, find-insert, find-insert_self, length-replicate,
}
use any_cache.Common.Status.{StatusCode, k_ok, done}
use any_cache.Worker.StorageTier.Bytes.{overlay, slice_short, overlay_all}
use any_cache.Worker.StorageTier.Space.{IsSound, allocate_block-IsSound, write_block-IsSound}
use any_cache.Worker.StorageTier.Contents.{
  contents, IsComplete, written_contents, allocated_contents,
}
use any_cache.Worker.StorageTier.{
  Os, BlockHandle, StorageTier, is_memory, allocate_mem, allocate_disk, allocate_block, copy_out,
  copy_in, read_file, open_file, write_mem, write_disk, write_block, export_block, import_into,
  import_block, write_status,
}

-- The operating system gives the memory or the file that is asked for.
pub record IsReady (size : ℕ) (os : Os) : Type 0 where
  pub allocated : os.allocates ≡ true
  pub truncated : os.truncates ≡ true
  pub complete : IsComplete size os

module _ (os : Os) (id : ℕ) (bytes : List ℕ) (t : StorageTier) where
  abbrev CanTake : Type 0
  CanTake =
      (find id t.blocks ≡ none) × (t.used_bytes + length bytes ≤ t.capacity) × (t.capacity < u64)

  allocates :
      CanTake
      → IsReady (length bytes) os
      → (u : StorageTier) × (allocate_block os id (length bytes) t ≡ (u, k_ok))
        × (u.used_bytes ≡ t.used_bytes + length bytes)
        × (h : BlockHandle) × (find id u.blocks ≡ some h)
        × (h.capacity ≡ length bytes)
  unfolding allocate_block allocate_mem allocate_disk ◌+u64◌
  allocates (miss, fits, small) r = elim (Bool-cases (is_memory t.type)) [
    | inl mem ↦ (
      record t {
        blocks =
            insert id (record { capacity = length bytes; buffer = replicate (length bytes) 0 })
              t.blocks;
        used_bytes = (t.used_bytes + length bytes) % u64;
      },
      ground (arith, miss, fits, small, mem, r.allocated),
      omega arith,
      record { capacity = length bytes; buffer = replicate (length bytes) 0 },
      find-insert_self id _ t.blocks,
      refl,
    )
    | inr disk ↦ (
      record t {
        blocks = insert id (record { capacity = length bytes; buffer = [] }) t.blocks;
        used_bytes = (t.used_bytes + length bytes) % u64;
        files = insert id (replicate (length bytes) 0) t.files;
      },
      ground (arith, miss, fits, small, disk, r.truncated, r.complete.opened),
      omega arith,
      record { capacity = length bytes; buffer = [] },
      find-insert_self id _ t.blocks,
      refl,
    )
  ]

  writes :
      (u : StorageTier) (h : BlockHandle) (old : List ℕ)
      → find id u.blocks ≡ some h
      → h.capacity ≡ length bytes
      → contents id u ≡ some old
      → length old ≡ length bytes
      → length bytes < u64
      → IsReady (length bytes) os
      → (t' : StorageTier) × (write_block os id bytes 0 u ≡ done t')
        × (t'.used_bytes ≡ u.used_bytes)
        × (contents id t' ≡ some bytes)
  unfolding write_block write_mem write_disk copy_in open_file contents ◌+u64◌
  writes u h old at cap stored full small r = elim (Bool-cases (is_memory u.type)) [
    | inl mem ↦ (
      record u { blocks = insert id (record h { buffer = overlay 0 bytes h.buffer }) u.blocks },
      ground (arith, at, cap, stored, full, small, mem),
      refl,
      ground (
        arith,
        mem,
        stored,
        at,
        overlay_all bytes old full,
        find-insert id id (record h { buffer = overlay 0 bytes h.buffer }) u.blocks,
      ),
    )
    | inr disk ↦ (
      record u { files = insert id (overlay 0 (take r.complete.count bytes) old) u.files },
      ground (arith, at, cap, stored, full, disk, r.complete.opened, r.complete.moved),
      refl,
      ground (
        arith,
        disk,
        at,
        overlay_all bytes old full,
        take_of_length-le r.complete.count bytes r.complete.whole,
        find-insert id id (overlay 0 (take r.complete.count bytes) old) u.files,
      ),
    )
  ]

  imported_contents :
      IsSound t
      → find id t.blocks ≡ none
      → t.used_bytes + length bytes ≤ t.capacity
      → IsReady (length bytes) os
      → (t' : StorageTier) × (import_block os id bytes t ≡ some (t', k_ok))
        × (contents id t' ≡ some bytes)
        × ((j : ℕ) → id ≢ j → contents j t' ≡ contents j t)
        × (t'.used_bytes ≡ t.used_bytes + length bytes)
        × IsSound t'
  unfolding import_block import_into write_status
  imported_contents s miss fits r =
      let (u, made, used, h, at, cap) = allocates (miss, fits, s.small) r in
      let (zeros, others) = allocated_contents os id (length bytes) t u made in
      let (t', wrote, same, stored) =
        writes u h (replicate (length bytes) 0) at cap zeros
          (length-replicate {A = ℕ} (length bytes) 0) (omega (arith, s.small)) r in
      let others' = (written_contents os id bytes 0 u t' wrote).0 in
      let sound : IsSound u =
        subst (λ (x : StorageTier × StatusCode). IsSound x.0) made
          (allocate_block-IsSound os id (length bytes) t s (omega (arith, s.small))) in
      (
        t',
        ap (import_into os id bytes) made ∙ ap (write_status u) wrote,
        stored,
        (λ j ne. others' j ne ∙ others j ne),
        omega (arith, same, used),
        write_block-IsSound os id bytes 0 u t' sound wrote,
      )

  -- Where the block is new to a sound tier with room for it, and the system gives what it is asked
  -- for, an import succeeds: the tier then stores exactly the bytes under the id, uses that much more
  -- space, and keeps every other block and its soundness.
  pub import-contents :
      IsSound t
      → find id t.blocks ≡ none
      → t.used_bytes + length bytes ≤ t.capacity
      → IsReady (length bytes) os
      → (t' : StorageTier) × (import_block os id bytes t ≡ some (t', k_ok))
        × ((j : ℕ) → contents j t' ≡ ite (ℕ_discrete id j) (some bytes) (contents j t))
        × (t'.used_bytes ≡ t.used_bytes + length bytes)
        × IsSound t'
  import-contents s miss fits r =
      let (t', result, stored, others, used, sound) = imported_contents s miss fits r in
      (
        t',
        result,
        at_number (λ j. contents j t') (λ j. contents j t) id (some bytes) stored others,
        used,
        sound,
      )

-- In a sound tier, an export that the system lets read the whole block gives the bytes that are
-- stored under the id, if they are no more than the block's size.
pub export-contents :
    (os : Os) (id : ℕ) (t : StorageTier) (h : BlockHandle) (bytes : List ℕ)
    → IsSound t
    → find id t.blocks ≡ some h
    → contents id t ≡ some bytes
    → length bytes ≤ h.capacity
    → IsComplete h.capacity os
    → export_block os id t ≡ done bytes
unfolding export_block copy_out open_file read_file contents
export-contents os id t h bytes s at stored short c = elim (Bool-cases (is_memory t.type)) [
  | inl mem ↦
      ground (arith, at, mem, stored, s.buffers id h at mem, slice_short h.capacity h.buffer)
  | inr disk ↦ ground (
    arith,
    at,
    disk,
    stored,
    c.opened,
    c.moved,
    slice_short h.capacity bytes short,
    take_of_length-le c.count bytes,
    c.whole,
  )
]
