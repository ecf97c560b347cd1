-- ===== src/Worker/StorageTier/Tests.antt =====
-- The theorems on `StorageTier` at a small memory tier and a small disk tier.
use any_cache.Base.{
  ite, ℕ, ◌+◌, ◌≤◌, ◌<◌, ◌≡◌, refl, subst, true, none, some, List, [], ◌∷◌, find, insert, nat_key,
  ℕ_discrete, arith, ◌+u64◌, replicate, take, length,
}
use any_cache.Common.Status.{k_ok, done, fault}
use any_cache.Common.Tier.{k_memory, k_ssd}
use any_cache.Worker.StorageTier.{
  Os, BlockHandle, StorageTier, create, allocate_mem, allocate_disk, allocate_block, copy_in,
  write_mem, write_disk, write_block, open_file, read_mem, read_mem_size, copy_out, read_disk,
  read_file, read_block, remove_block, export_block, import_block, import_into, write_status,
}
use any_cache.Worker.StorageTier.Bytes.{overlay, slice}
use any_cache.Worker.StorageTier.Space.{
  IsSound, create-IsSound, allocate_block-IsSound, remove_block-IsSound,
}
use any_cache.Worker.StorageTier.Contents.{
  IsComplete, contents, read-write, contents-write, contents-allocate,
}
use any_cache.Worker.StorageTier.Transfer.{import-contents, export-contents}
use any_cache.Worker.StorageTier.Beyond.{read_beyond, write_disk_beyond}

program : Unit {0}
unfolding create allocate_mem allocate_disk allocate_block copy_in write_mem write_disk write_block
    open_file read_mem read_mem_size copy_out read_disk read_file read_block remove_block
    export_block import_block import_into write_status find insert ◌+u64◌ overlay slice contents
    ℕ_discrete
program = tt

abbrev answers : Os
answers = record { allocates = true; opens = true; truncates = true; moves = some 9; stores = true }

answers-IsComplete : (n : ℕ) → n ≤ 9 → IsComplete n answers
answers-IsComplete n h = record { opened = refl; count = 9; moved = refl; whole = h }

abbrev empty : StorageTier
empty = record { type = k_memory; capacity = 10; used_bytes = 0; blocks = []; files = [] }

abbrev zeros : BlockHandle
zeros = record { capacity = 4; buffer = 0 ∷ 0 ∷ 0 ∷ 0 ∷ [] }

-- One block of four bytes under the id 7, then with two of them written.
abbrev mem7 : StorageTier
mem7 = record empty { used_bytes = 4; blocks = (7, zeros) ∷ [] }

abbrev written : StorageTier
written = record mem7 { blocks = (7, record { capacity = 4; buffer = 0 ∷ 5 ∷ 6 ∷ 0 ∷ [] }) ∷ [] }

empty-IsSound : IsSound empty
unfolding program
empty-IsSound = create-IsSound k_memory 10 (omega arith)

mem7_made : allocate_block answers 7 4 empty ≡ (mem7, k_ok)
unfolding program
mem7_made = refl

allocate_block-IsSound_example : IsSound (allocate_block answers 7 4 empty).0
allocate_block-IsSound_example =
    allocate_block-IsSound answers 7 4 empty empty-IsSound (omega arith)

mem7-IsSound : IsSound mem7
mem7-IsSound =
    subst (λ r. IsSound r.0) mem7_made
      (allocate_block-IsSound answers 7 4 empty empty-IsSound (omega arith))

written_made : write_block answers 7 (5 ∷ 6 ∷ []) 1 mem7 ≡ done written
unfolding program
written_made = refl

remove_block-IsSound_runs : IsSound (remove_block 7 mem7).0
remove_block-IsSound_runs = remove_block-IsSound 7 mem7 mem7-IsSound

read-write_example : read_block answers 7 2 1 written ≡ done (5 ∷ 6 ∷ [])
read-write_example =
    read-write answers answers 7 (5 ∷ 6 ∷ []) 1 mem7 written mem7-IsSound written_made
      (answers-IsComplete 2 (omega arith)) (answers-IsComplete 2 (omega arith)) (omega arith)

contents-write_example :
    (n : ℕ) × (old : List ℕ) × (contents 7 mem7 ≡ some old)
    × ((j : ℕ)
        → contents j written
          ≡ ite (ℕ_discrete 7 j) (some (overlay 1 (take n (5 ∷ 6 ∷ [])) old)) (contents j mem7))
contents-write_example = contents-write answers 7 (5 ∷ 6 ∷ []) 1 mem7 written written_made

contents-allocate_runs :
    contents 8 mem7 ≡ ite (ℕ_discrete 7 8) (some (replicate 4 0)) (contents 8 empty)
contents-allocate_runs = contents-allocate answers 7 4 empty mem7 mem7_made 8

absent : find 8 mem7.blocks ≡ none
unfolding program
absent = refl

present : find 7 mem7.blocks ≡ some zeros
unfolding program
present = refl

stored : contents 7 mem7 ≡ some (replicate 4 0)
unfolding program
stored = refl

import-contents_runs :
    (t' : StorageTier) × (import_block answers 8 (5 ∷ 6 ∷ []) mem7 ≡ some (t', k_ok))
    × ((j : ℕ) → contents j t' ≡ ite (ℕ_discrete 8 j) (some (5 ∷ 6 ∷ [])) (contents j mem7))
    × (t'.used_bytes ≡ mem7.used_bytes + 2)
    × IsSound t'
import-contents_runs =
    import-contents answers 8 (5 ∷ 6 ∷ []) mem7 mem7-IsSound absent (omega arith)
      (record { allocated = refl; truncated = refl; complete = answers-IsComplete 2 (omega arith) })

export-contents_runs : export_block answers 7 mem7 ≡ done (replicate 4 0)
export-contents_runs =
    export-contents answers 7 mem7 zeros (replicate 4 0) mem7-IsSound present stored (omega arith)
      (answers-IsComplete 4 (omega arith))

read_beyond_example : read_block answers 7 1 5 mem7 ≡ fault
read_beyond_example =
    read_beyond answers 7 1 5 mem7 zeros mem7-IsSound refl present (omega arith) (omega arith)

-- A disk tier with the same block.
abbrev disk7 : StorageTier
disk7 = record {
  type = k_ssd;
  capacity = 10;
  used_bytes = 4;
  blocks = (7, record { capacity = 4; buffer = [] }) ∷ [];
  files = (7, 0 ∷ 0 ∷ 0 ∷ 0 ∷ []) ∷ [];
}

on_disk : find 7 disk7.blocks ≡ some (record { capacity = 4; buffer = [] })
unfolding program
on_disk = refl

filed : find 7 disk7.files ≡ some (0 ∷ 0 ∷ 0 ∷ 0 ∷ [])
unfolding program
filed = refl

write_disk_beyond_runs :
    (t' : StorageTier) × (file : List ℕ) × (write_block answers 7 (1 ∷ 2 ∷ 3 ∷ []) 3 disk7
      ≡ done t')
    × (find 7 t'.files ≡ some file)
    × (4 < length file)
    × (t'.used_bytes ≡ 4)
write_disk_beyond_runs =
    write_disk_beyond answers 7 3 (1 ∷ 2 ∷ 3 ∷ []) disk7 (record { capacity = 4; buffer = [] })
      (0 ∷ 0 ∷ 0 ∷ 0 ∷ []) on_disk (omega arith) (omega arith) refl filed
      (answers-IsComplete 3 (omega arith))
