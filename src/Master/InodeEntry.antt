-- ===== src/Master/InodeEntry.antt =====
-- src/master/inode_entry.h: the bytes in which the master keeps inodes and edges. The native
-- layout is that of a little-endian machine. A read past the end of the data, which C++ leaves
-- undefined, is `none`.
pub mod Words
pub mod Keys
pub mod Order
pub mod Roundtrip
mod Tests
use any_cache.Base.{
  ℕ, zero, suc, ◌+◌, ◌-◌, ◌*◌, ◌/◌, ◌%◌, ◌^◌, Bool, true, false, ◌||◌, Option, none, some, List, [],
  ◌∷◌, ◌++◌, take, drop, length, leb, ltb, ◌==◌, if◌then◌else◌, u64,
}
use any_cache.Master.Inode.{Inode, new_inode}
use any_cache.Master.OwnerGroupDict.{Dict, get_or_add, lookup, serialize_list, load}

-- Both halves of the dictionary.
pub record OwnerGroupDict : Type 0 where
  pub owners : Dict
  pub groups : Dict

abbrev pub is_dirty : OwnerGroupDict → Bool
is_dirty dict = dict.owners.dirty || dict.groups.dirty

abbrev pub clear_dirty : OwnerGroupDict → OwnerGroupDict
clear_dirty dict = record {
  owners = record { names = dict.owners.names; ids = dict.owners.ids; dirty = false };
  groups = record { names = dict.groups.names; ids = dict.groups.ids; dirty = false };
}

abbrev pub serialize_owners : OwnerGroupDict → List ℕ
serialize_owners dict = serialize_list dict.owners.names

abbrev pub serialize_groups : OwnerGroupDict → List ℕ
serialize_groups dict = serialize_list dict.groups.names

abbrev pub load_owners : List ℕ → OwnerGroupDict → OwnerGroupDict
load_owners data_ dict = record dict { owners = load data_ dict.owners }

abbrev pub load_groups : List ℕ → OwnerGroupDict → OwnerGroupDict
load_groups data_ dict = record dict { groups = load data_ dict.groups }

-- The `n` bytes of a word in memory, the lowest first, and the word of some bytes.
unfoldable pub native_bytes : ℕ → ℕ → List ℕ
native_bytes zero word = []
native_bytes (suc n) word = word % 256 ∷ native_bytes n (word / 256)

unfoldable pub native_word : List ℕ → ℕ
native_word [] = 0
native_word (byte ∷ bytes) = byte + 256 * native_word bytes

-- The field of `n` bytes at an offset.
unfoldable pub field_at : ℕ → ℕ → List ℕ → ℕ
unfolding native_word
field_at offset n data_ = native_word (take n (drop offset data_))

abbrev pub header_size : ℕ
header_size = 48

abbrev pub directory_flag : Bool → ℕ
directory_flag true = 1
directory_flag false = 0

abbrev pub complete_flag : Bool → ℕ
complete_flag true = 2
complete_flag false = 0

abbrev pub has_directory_flag : ℕ → Bool
has_directory_flag flags = flags % 2 == 1

abbrev pub has_complete_flag : ℕ → Bool
has_complete_flag flags = flags / 2 % 2 == 1

-- The bytes of the struct `InodeEntry`, with the ids of the owner and the group.
unfoldable pub header_bytes : Inode → ℕ → ℕ → List ℕ
unfolding native_bytes
header_bytes inode owner_id group_id =
    native_bytes 8 inode.parent_id
    ++ native_bytes 8 inode.size
    ++ native_bytes 8 inode.block_size
    ++ native_bytes 8 inode.creation_time_ms
    ++ native_bytes 8 inode.modification_time_ms
    ++ native_bytes 4 inode.mode
    ++ (directory_flag inode.is_directory + complete_flag inode.is_complete)
      ∷ owner_id
      ∷ group_id
      ∷ 0
      ∷ []

unfoldable pub serialize_inode_entry : Inode → OwnerGroupDict → OwnerGroupDict × List ℕ
unfolding header_bytes
serialize_inode_entry inode dict =
    let (owners, owner_id) = get_or_add inode.owner dict.owners in
    let (groups, group_id) = get_or_add inode.group dict.groups in
    (
      record { owners = owners; groups = groups },
      header_bytes inode owner_id group_id ++ inode.name,
    )

-- `data.size() < sizeof(InodeEntry)` leaves the defaults.
unfoldable pub deserialize_inode_entry : ℕ → List ℕ → OwnerGroupDict → Inode
unfolding field_at
deserialize_inode_entry id data_ dict =
    if ltb (length data_) header_size then record new_inode { id = id } else record new_inode {
      id = id;
      parent_id = field_at 0 8 data_;
      size = field_at 8 8 data_;
      block_size = field_at 16 8 data_;
      creation_time_ms = field_at 24 8 data_;
      modification_time_ms = field_at 32 8 data_;
      mode = field_at 40 4 data_;
      is_directory = has_directory_flag (field_at 44 1 data_);
      is_complete = has_complete_flag (field_at 44 1 data_);
      owner = lookup (field_at 45 1 data_) dict.owners.names;
      group = lookup (field_at 46 1 data_) dict.groups.names;
      name = drop header_size data_;
    }

-- The loop from the highest byte to the lowest.
unfoldable pub big_endian_bytes : ℕ → ℕ → List ℕ
big_endian_bytes zero val = []
big_endian_bytes (suc i) val = val / 256 ^ i % 256 ∷ big_endian_bytes i val

unfoldable pub encode_big_endian64 : ℕ → List ℕ
unfolding big_endian_bytes
encode_big_endian64 val = big_endian_bytes 8 val

unfoldable pub big_endian_loop : ℕ → ℕ → List ℕ → Option ℕ
big_endian_loop zero val data_ = some val
big_endian_loop (suc n) val [] = none
big_endian_loop (suc n) val (byte ∷ data_) = big_endian_loop n ((val * 256 + byte) % u64) data_

unfoldable pub decode_big_endian64 : List ℕ → Option ℕ
unfolding big_endian_loop
decode_big_endian64 data_ = big_endian_loop 8 0 data_

abbrev pub encode_inode_key : ℕ → List ℕ
encode_inode_key id = encode_big_endian64 id

abbrev pub decode_inode_key : List ℕ → Option ℕ
decode_inode_key data_ = decode_big_endian64 data_

abbrev pub owner_dict_key : ℕ
owner_dict_key = 2 ^ 64 - 3

abbrev pub group_dict_key : ℕ
group_dict_key = 2 ^ 64 - 2

abbrev pub next_id_key : ℕ
next_id_key = 2 ^ 64 - 1

abbrev pub encode_owner_dict_key : List ℕ
encode_owner_dict_key = encode_big_endian64 owner_dict_key

abbrev pub encode_group_dict_key : List ℕ
encode_group_dict_key = encode_big_endian64 group_dict_key

abbrev pub encode_next_id_key : List ℕ
encode_next_id_key = encode_big_endian64 next_id_key

abbrev pub encode_next_id_value : ℕ → List ℕ
encode_next_id_value next_id = native_bytes 8 next_id

-- For at least eight bytes.
abbrev pub decode_next_id_value : List ℕ → ℕ
decode_next_id_value data_ = native_word (take 8 data_)

unfoldable pub encode_edge_key : ℕ → List ℕ → List ℕ
unfolding encode_big_endian64
encode_edge_key parent_id child_name = encode_big_endian64 parent_id ++ child_name

-- The parent is 0 and the name empty where the key is shorter than eight bytes.
unfoldable pub decode_edge_key : List ℕ → ℕ × List ℕ
unfolding decode_big_endian64
decode_edge_key data_ = elim (decode_big_endian64 data_) [
  | none ↦ (0, [])
  | some parent_id ↦ (parent_id, drop 8 data_)
]

abbrev pub encode_edge_prefix : ℕ → List ℕ
encode_edge_prefix parent_id = encode_big_endian64 parent_id

abbrev pub encode_edge_value : ℕ → List ℕ
encode_edge_value child_id = encode_big_endian64 child_id

abbrev pub decode_edge_value : List ℕ → Option ℕ
decode_edge_value data_ = decode_big_endian64 data_
