-- ===== src/Worker/StorageTier/Beyond.antt =====
-- Reads and writes that reach beyond a block.
use any_cache.Base.{
  ℕ, ◌+◌, ◌-◌, ◌%◌, ◌<◌, ◌≡◌, refl, true, false, some, List, find, insert, nat_key, arith, length,
  take, u64, ◌+u64◌, ◌-u64◌, find-insert_self, take_of_length-le,
}
use any_cache.Common.Status.{k_invalid_argument, done, failed, fault}
use any_cache.Worker.StorageTier.Bytes.{overlay, length-overlay-le}
use any_cache.Worker.StorageTier.Space.{IsSound}
use any_cache.Worker.StorageTier.Contents.{IsComplete}
use any_cache.Worker.StorageTier.{
  Os, BlockHandle, StorageTier, is_memory, read_mem, read_mem_size, copy_out, read_block, write_mem,
  write_disk, write_block, open_file,
}

-- In a sound memory tier, a read of a block from an offset beyond its end, of a range that ends below
-- 2 ^ 64, copies out of bounds: the clamped size wraps around instead of becoming 0.
pub read_beyond :
    (os : Os) (id size offset : ℕ) (t : StorageTier) (h : BlockHandle)
    → IsSound t
    → is_memory t.type ≡ true
    → find id t.blocks ≡ some h
    → h.capacity < offset
    → offset + size < u64
    → read_block os id size offset t ≡ fault
unfolding read_block read_mem read_mem_size copy_out ◌+u64◌ ◌-u64◌
read_beyond os id size offset t h s mem at over room =
    let wraps : (h.capacity + u64 - offset) % u64 ≡ h.capacity + u64 - offset = omega arith in
    ground (arith, mem, at, wraps, s.buffers id h at mem)

-- A memory tier refuses a write that reaches beyond its block.
pub write_mem_beyond :
    (os : Os) (id offset : ℕ) (bytes : List ℕ) (t : StorageTier) (h : BlockHandle)
    → find id t.blocks ≡ some h
    → h.capacity < offset + length bytes
    → offset + length bytes < u64
    → is_memory t.type ≡ true
    → write_block os id bytes offset t ≡ failed k_invalid_argument
unfolding write_block write_mem ◌+u64◌
write_mem_beyond os id offset bytes t h at over room mem = ground (arith, mem, at, over, room)

-- A disk tier whose file is there makes a write of some bytes that reaches beyond its block, if the system moves
-- all the bytes: the file becomes longer than the block's capacity, and the space in use is not
-- counted up.
pub write_disk_beyond :
    (os : Os) (id offset : ℕ) (bytes : List ℕ) (t : StorageTier) (h : BlockHandle) (old : List ℕ)
    → find id t.blocks ≡ some h
    → 0 < length bytes
    → h.capacity < offset + length bytes
    → is_memory t.type ≡ false
    → find id t.files ≡ some old
    → IsComplete (length bytes) os
    → (t' : StorageTier) × (file : List ℕ) × (write_block os id bytes offset t ≡ done t')
      × (find id t'.files ≡ some file)
      × (h.capacity < length file)
      × (t'.used_bytes ≡ t.used_bytes)
unfolding write_block write_disk open_file
write_disk_beyond os id offset bytes t h old at some_ over disk found c =
    let whole = take_of_length-le c.count bytes c.whole in
    (
      record t { files = insert id (overlay offset (take c.count bytes) old) t.files },
      overlay offset bytes old,
      ground (arith, disk, at, found, c.opened, c.moved),
      rw whole (find-insert_self id (overlay offset bytes old) t.files),
      omega (arith, length-overlay-le offset bytes old some_),
      refl,
    )
