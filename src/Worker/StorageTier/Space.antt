-- ===== src/Worker/StorageTier/Space.antt =====
-- The space of a tier: what is used is what its blocks hold, and never more than its capacity.
use any_cache.Base.{
  ℕ, ◌+◌, ◌%◌, ◌≤◌, ◌<◌, ◌≡◌, refl, inl, inr, true, false, none, some, List, Map, find, has, insert,
  erase, nat_key, arith, IsMap, insert-IsMap, erase-IsMap, find-insert, find-erase, has-insert,
  has-erase, sizes, size_at-le, sizes-insert, sizes-erase, length, length-replicate, replicate,
  take, u64, ◌+u64◌, ◌-u64◌, Option-cases, Bool-cases, ltb,
}
use any_cache.Common.Status.{done}
use any_cache.Common.Tier.{TierType}
use any_cache.Worker.StorageTier.Bytes.{overlay, length-overlay}
use any_cache.Worker.StorageTier.Written.{in_memory, on_disk, overlaid, write_block-Written}
use any_cache.Worker.StorageTier.{
  Os, BlockHandle, StorageTier, create, is_memory, allocate_mem, allocate_disk, allocate_block,
  remove_block, write_block,
}

abbrev pub held : BlockHandle → ℕ
held h = h.capacity

pub record IsSound (t : StorageTier) : Type 0 where
  pub distinct : IsMap t.blocks
  pub used : t.used_bytes ≡ sizes held t.blocks
  pub within : t.used_bytes ≤ t.capacity
  pub small : t.capacity < u64
  pub buffers :
      (id : ℕ) (h : BlockHandle)
      → find id t.blocks ≡ some h
      → is_memory t.type ≡ true
      → length h.buffer ≡ h.capacity
  pub filed :
      (id : ℕ) (h : BlockHandle)
      → find id t.blocks ≡ some h
      → is_memory t.type ≡ false
      → has id t.files ≡ true

-- A new block whose handle and file are as its tier wants them.
pub create-IsSound :
    (type : TierType) (capacity : ℕ) → capacity < u64 → IsSound (create type capacity)
unfolding create find
create-IsSound type capacity h = record {
  distinct = tt;
  used = refl;
  within = omega arith;
  small = h;
  buffers = λ id b e. cc;
  filed = λ id b e. cc;
}

add-IsSound :
    (id : ℕ) (h : BlockHandle) (t : StorageTier) (files : Map ℕ (List ℕ))
    → IsSound t
    → find id t.blocks ≡ none
    → t.used_bytes + h.capacity ≤ t.capacity
    → (is_memory t.type ≡ true → length h.buffer ≡ h.capacity)
    → (is_memory t.type ≡ false → has id files ≡ true)
    → ((j : ℕ) → has j t.files ≡ true → has j files ≡ true)
    → IsSound (record t {
      blocks = insert id h t.blocks;
      used_bytes = t.used_bytes +u64 h.capacity;
      files = files;
    })
unfolding ◌+u64◌
add-IsSound id h t files s miss fits full filed more = record {
  distinct = insert-IsMap id h t.blocks s.distinct;
  used = ground (arith, sizes-insert held id h t.blocks, miss, s.used, fits, s.small, s.within);
  within = ground (arith, fits, s.small);
  small = s.small;
  buffers = λ j g at mem. ground (arith, find-insert id j h t.blocks, s.buffers j g, full mem);
  filed =
      λ j g at disk. ground (arith, find-insert id j h t.blocks, s.filed j g, filed disk, more j);
}

allocate_mem-IsSound :
    (os : Os) (id size : ℕ) (t : StorageTier)
    → IsSound t
    → find id t.blocks ≡ none
    → is_memory t.type ≡ true
    → t.used_bytes + size ≤ t.capacity
    → IsSound (allocate_mem os id size t).0
unfolding allocate_mem
allocate_mem-IsSound os id size t s miss mem fits = elim (Bool-cases os.allocates) [
  | inr no_memory ↦ rw no_memory s
  | inl ready ↦ rw ready (
      add-IsSound id _ t t.files s miss fits (λ _. length-replicate {A = ℕ} size 0) (λ disk. cc)
        (λ j h. h))
]

-- A failed `ftruncate` unlinks a file that no block has.
unlink-IsSound :
    (id : ℕ) (t : StorageTier)
    → IsSound t
    → find id t.blocks ≡ none
    → IsSound (record t { files = erase id t.files })
unlink-IsSound id t s miss = record {
  distinct = s.distinct;
  used = s.used;
  within = s.within;
  small = s.small;
  buffers = s.buffers;
  filed = λ j g at disk. ground (arith, has-erase id j t.files, s.filed j g at disk, miss, at);
}

allocate_disk-IsSound :
    (os : Os) (id size : ℕ) (t : StorageTier)
    → IsSound t
    → find id t.blocks ≡ none
    → is_memory t.type ≡ false
    → t.used_bytes + size ≤ t.capacity
    → IsSound (allocate_disk os id size t).0
unfolding allocate_disk
allocate_disk-IsSound os id size t s miss disk fits = elim (Bool-cases os.opens) [
  | inr shut ↦ rw shut s
  | inl opened ↦ elim (Bool-cases os.truncates) [
    | inr short ↦ rw (opened, short) (unlink-IsSound id t s miss)
    | inl long ↦
        rw (opened, long)
          (add-IsSound id _ t (insert id (replicate size 0) t.files) s miss fits (λ mem. cc)
            (λ _. ground (arith, has-insert id id (replicate size 0) t.files))
            (λ j h. ground (arith, has-insert id j (replicate size 0) t.files, h)))
  ]
]

-- Whatever the system answers, an allocation in a sound tier leaves it sound: the space in use is
-- that of the blocks and within the capacity, and each block has its buffer or its file. The sum of
-- the space in use and the size must not leave 64 bits.
pub allocate_block-IsSound :
    (os : Os) (id size : ℕ) (t : StorageTier)
    → IsSound t
    → t.used_bytes + size < u64
    → IsSound (allocate_block os id size t).0
unfolding allocate_block ◌+u64◌
allocate_block-IsSound os id size t s room = elim (Option-cases (find id t.blocks)) [
  | inr (h, hit) ↦ rw hit s
  | inl miss ↦ elim (Bool-cases (ltb t.capacity ((t.used_bytes + size) % u64))) [
    | inl full ↦ rw (miss, full) s
    | inr fits ↦
        let fits' : t.used_bytes + size ≤ t.capacity = ground (arith, fits, room) in
        elim (Bool-cases (is_memory t.type)) [
          | inl mem ↦ rw (miss, fits, mem) (allocate_mem-IsSound os id size t s miss mem fits')
          | inr disk ↦ rw (miss, fits, disk) (allocate_disk-IsSound os id size t s miss disk fits')
        ]
  ]
]

-- Removing a block, there or not, leaves a sound tier sound.
pub remove_block-IsSound : (id : ℕ) (t : StorageTier) → IsSound t → IsSound (remove_block id t).0
unfolding remove_block ◌-u64◌
remove_block-IsSound id t s = elim (Option-cases (find id t.blocks)) [
  | inl miss ↦ rw (miss, remove_block) s
  | inr (h, hit) ↦
      let spent = sizes-erase held id t.blocks s.distinct in
      rw (hit, remove_block)
        (record {
          distinct = erase-IsMap id t.blocks s.distinct;
          used = ground (arith, spent, hit, s.used, s.within, s.small);
          within = ground (arith, spent, hit, s.used, s.within, s.small);
          small = s.small;
          buffers = λ j g at mem. ground (arith, find-erase id j t.blocks, s.buffers j g);
          filed = λ j g at disk.
              ground
                (arith, find-erase id j t.blocks, has-erase id j t.files, s.filed j g, at, disk);
        })
]

-- A write changes neither the space that is used nor what a block may use.
pub write_block-IsSound :
    (os : Os) (id : ℕ) (bytes : List ℕ) (offset : ℕ) (t t' : StorageTier)
    → IsSound t
    → write_block os id bytes offset t ≡ done t'
    → IsSound t'
write_block-IsSound os id bytes offset t t' s e =
    elim (write_block-Written os id bytes offset t t' e) [
      | in_memory h at mem fits same ↦
          let kept = sizes-insert held id (overlaid h offset bytes) t.blocks in
          rw same (record {
            distinct = insert-IsMap id (overlaid h offset bytes) t.blocks s.distinct;
            used = ground (arith, kept, at, s.used);
            within = s.within;
            small = s.small;
            buffers = λ j g found m. ground (
              arith,
              find-insert id j (overlaid h offset bytes) t.blocks,
              s.buffers j g,
              s.buffers id h at mem,
              length-overlay offset bytes h.buffer fits,
            );
            filed = λ j g found disk. cc;
          })
      | on_disk h file n at disk found moved same ↦ rw same (record {
        distinct = s.distinct;
        used = s.used;
        within = s.within;
        small = s.small;
        buffers = s.buffers;
        filed = λ j g there d. ground (
          arith,
          has-insert id j (overlay offset (take n bytes) file) t.files,
          s.filed j g there d,
        );
      })
    ]

pub capacity-lt :
    (id : ℕ) (h : BlockHandle) (t : StorageTier)
    → IsSound t
    → find id t.blocks ≡ some h
    → h.capacity < u64
capacity-lt id h t s at = ground (arith, size_at-le held id t.blocks, at, s.used, s.within, s.small)
