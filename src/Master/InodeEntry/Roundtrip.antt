-- ===== src/Master/InodeEntry/Roundtrip.antt =====
-- An inode and its bytes.
use any_cache.Base.{
  ℕ, ◌+◌, ◌^◌, ◌<◌, ◌≡◌, inl, inr, refl, ap, ◌∙◌, Bool, true, false, List, [], ◌++◌, drop, length,
  ltb, arith, u64, if◌then◌else◌,
}
use any_cache.Master.Inode.{Inode}
use any_cache.Master.OwnerGroupDict.{Dict, get_or_add, lookup}
use any_cache.Master.InodeEntry.{
  OwnerGroupDict, native_bytes, native_word, field_at, header_size, header_bytes, directory_flag,
  complete_flag, has_directory_flag, has_complete_flag, serialize_inode_entry,
  deserialize_inode_entry,
}
use any_cache.Master.OwnerGroupDict.Ids.{IsNamed, get_or_add-Given}
use any_cache.Master.InodeEntry.Words.{native_word-native_bytes}

-- Every number of the inode fits its field of the entry.
pub record FitsEntry (inode : Inode) : Type 0 where
  pub parent : inode.parent_id < u64
  pub size : inode.size < u64
  pub block_size : inode.block_size < u64
  pub created : inode.creation_time_ms < u64
  pub modified : inode.modification_time_ms < u64
  pub mode : inode.mode < 2 ^ 32

module _ (inode : Inode) (owner_id group_id : ℕ) where
  abbrev pub entry : List ℕ
  entry = header_bytes inode owner_id group_id ++ inode.name

  pub length-entry : ltb (length entry) header_size ≡ false
  unfolding header_bytes native_bytes
  length-entry = ground arith

  pub field_flags :
      field_at 44 1 entry ≡ directory_flag inode.is_directory + complete_flag inode.is_complete
  unfolding field_at header_bytes native_bytes native_word
  field_flags = omega arith

  field_owner : field_at 45 1 entry ≡ owner_id
  unfolding field_at header_bytes native_bytes native_word
  field_owner = omega arith

  field_group : field_at 46 1 entry ≡ group_id
  unfolding field_at header_bytes native_bytes native_word
  field_group = omega arith

  module _ (fits : FitsEntry inode) where
    field_parent : field_at 0 8 entry ≡ inode.parent_id
    unfolding field_at header_bytes native_bytes
    field_parent = native_word-native_bytes 8 inode.parent_id fits.parent

    field_size : field_at 8 8 entry ≡ inode.size
    unfolding field_at header_bytes native_bytes
    field_size = native_word-native_bytes 8 inode.size fits.size

    field_block_size : field_at 16 8 entry ≡ inode.block_size
    unfolding field_at header_bytes native_bytes
    field_block_size = native_word-native_bytes 8 inode.block_size fits.block_size

    field_created : field_at 24 8 entry ≡ inode.creation_time_ms
    unfolding field_at header_bytes native_bytes
    field_created = native_word-native_bytes 8 inode.creation_time_ms fits.created

    field_modified : field_at 32 8 entry ≡ inode.modification_time_ms
    unfolding field_at header_bytes native_bytes
    field_modified = native_word-native_bytes 8 inode.modification_time_ms fits.modified

    field_mode : field_at 40 4 entry ≡ inode.mode
    unfolding field_at header_bytes native_bytes
    field_mode = native_word-native_bytes 4 inode.mode fits.mode

  pub flags_directory : (d c : Bool) → has_directory_flag (directory_flag d + complete_flag c) ≡ d
  flags_directory false false = refl
  flags_directory false true = refl
  flags_directory true false = refl
  flags_directory true true = refl

  flags_complete : (d c : Bool) → has_complete_flag (directory_flag d + complete_flag c) ≡ c
  flags_complete false false = refl
  flags_complete false true = refl
  flags_complete true false = refl
  flags_complete true true = refl

  name-entry : drop header_size entry ≡ inode.name
  unfolding header_bytes native_bytes
  name-entry = refl

  pub deserialize-entry :
      (id : ℕ) (dict : OwnerGroupDict)
      → FitsEntry inode
      → deserialize_inode_entry id entry dict ≡ record inode {
        id = id;
        owner = lookup owner_id dict.owners.names;
        group = lookup group_id dict.groups.names;
        children = [];
      }
  unfolding deserialize_inode_entry
  deserialize-entry id dict fits =
      let directory =
        ap has_directory_flag field_flags ∙ flags_directory inode.is_directory inode.is_complete in
      let complete =
        ap has_complete_flag field_flags ∙ flags_complete inode.is_directory inode.is_complete in
      if_long _ _ _ length-entry
      ∙ cc (
        field_parent fits,
        field_size fits,
        field_block_size fits,
        field_created fits,
        field_modified fits,
        field_mode fits,
        directory,
        complete,
        field_owner,
        field_group,
        name-entry,
      )
    where
      if_long : (x y : Inode) (b : Bool) → b ≡ false → (if b then x else y) ≡ y
      if_long x y b h = ground (arith, h)

-- The two calls for ids leave dictionaries that read both names back.
named_id :
    (s : List ℕ) (d : Dict)
    → IsNamed d
    → length d.names < 255
    → lookup (get_or_add s d).1 (get_or_add s d).0.names ≡ s
named_id s d named room = elim (get_or_add-Given s d named).2 [
  | inl same ↦ same
  | inr (_, full, _) ↦ absurd (omega (arith, full, room))
]

-- An inode whose numbers fit their fields reads back from its entry, but for its children, which
-- are not stored: when the ids of both dictionaries name what they were given for and neither
-- dictionary is full. The dictionaries are those that writing the entry leaves.
pub deserialize-serialize_inode_entry :
    (inode : Inode) (dict : OwnerGroupDict)
    → FitsEntry inode
    → IsNamed dict.owners
    → IsNamed dict.groups
    → length dict.owners.names < 255
    → length dict.groups.names < 255
    → deserialize_inode_entry inode.id
        (serialize_inode_entry inode dict).1
        (serialize_inode_entry inode dict).0
      ≡ record inode { children = [] }
unfolding serialize_inode_entry
deserialize-serialize_inode_entry inode dict fits owners groups room_o room_g =
    let owner = get_or_add inode.owner dict.owners in
    let group = get_or_add inode.group dict.groups in
    deserialize-entry inode owner.1 group.1 inode.id (record { owners = owner.0; groups = group.0 })
      fits
    ∙ cc (
      named_id inode.owner dict.owners owners room_o,
      named_id inode.group dict.groups groups room_g,
    )
