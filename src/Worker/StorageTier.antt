-- ===== src/Worker/StorageTier.antt =====
-- `StorageTier` of src/worker/storage_tier.{h,cpp}. A memory block has its buffer in its handle. A
-- disk block has a file, named by its id under the tier's own directory; what the operating system
-- answers is an argument of each call.
pub mod Bytes
pub mod Written
pub mod Space
pub mod Contents
pub mod Transfer
pub mod Beyond
mod Tests
use any_cache.Base.{
  ℕ, zero, suc, ◌+◌, ◌-◌, Bool, true, false, not, Option, none, some, List, [], ◌∷◌, ◌++◌, Map,
  find, has, insert, erase, nat_key, length, take, drop, replicate, ltb, if◌then◌else◌, ◌+u64◌,
  ◌-u64◌, map,
}
use any_cache.Common.Status.{
  StatusCode, k_ok, k_not_found, k_already_exists, k_invalid_argument, k_io_error,
  k_resource_exhausted, Reply, done, failed, fault,
}
use any_cache.Common.Tier.{TierType, k_memory, k_ssd, k_hdd}
use Bytes.{overlay, slice}

-- The answers of `malloc`, `open`, `ftruncate`, and of `pread` or `pwrite`: the bytes moved, or an
-- error; and whether the metadata store takes the row that it is given in the call.
pub record Os : Type 0 where
  pub allocates : Bool
  pub opens : Bool
  pub truncates : Bool
  pub moves : Option ℕ
  pub stores : Bool

pub record BlockHandle : Type 0 where
  pub capacity : ℕ
  pub buffer : List ℕ

pub record StorageTier : Type 0 where
  pub type : TierType
  pub capacity : ℕ
  pub used_bytes : ℕ
  pub blocks : Map ℕ BlockHandle
  pub files : Map ℕ (List ℕ)

unfoldable pub create : TierType → ℕ → StorageTier
create type capacity = record {
  type = type;
  capacity = capacity;
  used_bytes = 0;
  blocks = [];
  files = [];
}

abbrev pub is_memory : TierType → Bool
is_memory k_memory = true
is_memory _ = false

unfoldable pub get_available_bytes : StorageTier → ℕ
get_available_bytes t = t.capacity -u64 t.used_bytes

pub has_block : ℕ → StorageTier → Bool
has_block id t = has id t.blocks

-- `GetBlockIds`
pub get_block_ids : StorageTier → List ℕ
get_block_ids t = map (λ e. e.0) t.blocks

unfoldable pub allocate_mem : Os → ℕ → ℕ → StorageTier → StorageTier × StatusCode
allocate_mem os id size t =
    if os.allocates
    then (
      record t {
        blocks = insert id (record { capacity = size; buffer = replicate size 0 }) t.blocks;
        used_bytes = t.used_bytes +u64 size;
      },
      k_ok,
    )
    else (t, k_resource_exhausted)

-- `O_CREAT | O_TRUNC` and `ftruncate` leave a file of zeros; a failed `ftruncate` unlinks it.
allocate_disk : Os → ℕ → ℕ → StorageTier → StorageTier × StatusCode
allocate_disk os id size t =
    if os.opens
    then if os.truncates
      then (
        record t {
          blocks = insert id (record { capacity = size; buffer = [] }) t.blocks;
          used_bytes = t.used_bytes +u64 size;
          files = insert id (replicate size 0) t.files;
        },
        k_ok,
      )
      else (record t { files = erase id t.files }, k_io_error)
    else (t, k_io_error)

unfoldable pub allocate_block : Os → ℕ → ℕ → StorageTier → StorageTier × StatusCode
unfolding allocate_mem allocate_disk
allocate_block os id size t =
    if has id t.blocks
    then (t, k_already_exists)
    else if ltb t.capacity (t.used_bytes +u64 size)
    then (t, k_resource_exhausted)
    else if is_memory t.type
    then allocate_mem os id size t
    else allocate_disk os id size t

-- The clamped size wraps where the offset lies beyond the block; the copy is then out of bounds.
read_mem_size : ℕ → ℕ → ℕ → ℕ
read_mem_size capacity size offset =
    if ltb capacity (offset +u64 size) then capacity -u64 offset else size

copy_out : List ℕ → ℕ → ℕ → Reply (List ℕ)
copy_out buffer size offset =
    if ltb (length buffer) (offset + size) then fault else done (slice offset size buffer)

read_mem : ℕ → ℕ → ℕ → StorageTier → Reply (List ℕ)
unfolding read_mem_size copy_out
read_mem id size offset t = elim (find id t.blocks) [
  | none ↦ failed k_not_found
  | some h ↦ copy_out h.buffer (read_mem_size h.capacity size offset) offset
]

-- `pread` gives no more than it was asked for and no more than the file has.
read_file : Os → ℕ → ℕ → List ℕ → Reply (List ℕ)
read_file os size offset file = elim os.moves [
  | none ↦ failed k_io_error
  | some n ↦ done (take n (slice offset size file))
]

open_file : Os → ℕ → StorageTier → Option (List ℕ)
open_file os id t = if os.opens then find id t.files else none

read_disk : Os → ℕ → ℕ → ℕ → StorageTier → Reply (List ℕ)
unfolding read_file open_file
read_disk os id size offset t = elim (find id t.blocks) [
  | none ↦ failed k_not_found
  | some h ↦ elim (open_file os id t) [
    | none ↦ failed k_io_error
    | some file ↦ read_file os size offset file
  ]
]

pub read_block : Os → ℕ → ℕ → ℕ → StorageTier → Reply (List ℕ)
unfolding read_mem read_disk
read_block os id size offset t =
    if is_memory t.type then read_mem id size offset t else read_disk os id size offset t

copy_in : BlockHandle → ℕ → List ℕ → ℕ → StorageTier → Reply StorageTier
copy_in h id bytes offset t =
    if ltb (length h.buffer) (offset + length bytes)
    then fault
    else done (record t {
      blocks = insert id (record h { buffer = overlay offset bytes h.buffer }) t.blocks;
    })

write_mem : ℕ → List ℕ → ℕ → StorageTier → Reply StorageTier
unfolding copy_in
write_mem id bytes offset t = elim (find id t.blocks) [
  | none ↦ failed k_not_found
  | some h ↦
      if ltb h.capacity (offset +u64 length bytes)
      then failed k_invalid_argument
      else copy_in h id bytes offset t
]

-- `pwrite` moves a first part of the bytes, and extends the file where they lie beyond its end; where
-- it moves no bytes it leaves the file as it is.
write_disk : Os → ℕ → List ℕ → ℕ → StorageTier → Reply StorageTier
unfolding open_file
write_disk os id bytes offset t = elim (find id t.blocks) [
  | none ↦ failed k_not_found
  | some h ↦ elim (open_file os id t) [
    | none ↦ failed k_io_error
    | some file ↦ elim os.moves [
      | none ↦ failed k_io_error
      | some n ↦ done (record t { files = insert id (overlay offset (take n bytes) file) t.files })
    ]
  ]
]

pub write_block : Os → ℕ → List ℕ → ℕ → StorageTier → Reply StorageTier
unfolding write_mem write_disk
write_block os id bytes offset t =
    if is_memory t.type then write_mem id bytes offset t else write_disk os id bytes offset t

-- `RemoveMem` frees the buffer, `RemoveDisk` unlinks the file.
pub remove_block : ℕ → StorageTier → StorageTier × StatusCode
remove_block id t = elim (find id t.blocks) [
  | none ↦ (t, k_not_found)
  | some h ↦ (
    record t {
      blocks = erase id t.blocks;
      used_bytes = t.used_bytes -u64 h.capacity;
      files = if is_memory t.type then t.files else erase id t.files;
    },
    k_ok,
  )
]

pub export_block : Os → ℕ → StorageTier → Reply (List ℕ)
unfolding copy_out read_file open_file
export_block os id t = elim (find id t.blocks) [
  | none ↦ failed k_not_found
  | some h ↦ if is_memory t.type then copy_out h.buffer h.capacity 0 else elim (open_file os id t) [
    | none ↦ failed k_io_error
    | some file ↦ read_file os h.capacity 0 file
  ]
]

-- The tier after `ImportBlock`, and its status; a fault as `none`.
pub write_status : StorageTier → Reply StorageTier → Option (StorageTier × StatusCode)
write_status t (done t') = some (t', k_ok)
write_status t (failed s) = some (t, s)
write_status t fault = none

import_into : Os → ℕ → List ℕ → StorageTier × StatusCode → Option (StorageTier × StatusCode)
unfolding write_status
import_into os id bytes (t, k_ok) = write_status t (write_block os id bytes 0 t)
import_into os id bytes (t, s) = some (t, s)

pub import_block : Os → ℕ → List ℕ → StorageTier → Option (StorageTier × StatusCode)
unfolding import_into
import_block os id bytes t = import_into os id bytes (allocate_block os id (length bytes) t)
