-- ===== src/Master/InodeEntry/Tests.antt =====
-- Entries and keys of one inode.
use Prim.Native.Nat.{compare}
use any_cache.Base.{◌≡◌, refl, true, false, [], ◌∷◌, find, arith}
use any_cache.Master.Inode.{Inode, new_inode}
use any_cache.Master.MountTable.{compare_paths}
use any_cache.Master.OwnerGroupDict.{Dict}
use any_cache.Master.OwnerGroupDict.Ids.{IsNamed}
use any_cache.Master.InodeEntry.{
  OwnerGroupDict, serialize_inode_entry, deserialize_inode_entry, encode_edge_key, decode_edge_key,
  encode_big_endian64, decode_big_endian64,
}
use any_cache.Master.InodeEntry.Keys.{decode-encode_edge_key}
use any_cache.Master.InodeEntry.Order.{compare-encode_big_endian64}
use any_cache.Master.InodeEntry.Roundtrip.{FitsEntry, deserialize-serialize_inode_entry}

abbrev no_names : Dict
no_names = record { names = []; ids = []; dirty = false }

abbrev no_dict : OwnerGroupDict
no_dict = record { owners = no_names; groups = no_names }

no_names-IsNamed : IsNamed no_names
unfolding find
no_names-IsNamed s id e = absurd (ground arith)

-- The directory `a` of an owner `u`.
abbrev some_directory : Inode
some_directory = record new_inode {
  id = 5;
  parent_id = 1;
  name = 97 ∷ [];
  is_directory = true;
  mode = 493;
  owner = 117 ∷ [];
  creation_time_ms = 1700000000000;
  modification_time_ms = 1700000000001;
}

fits : FitsEntry some_directory
fits = record {
  parent = omega arith;
  size = omega arith;
  block_size = omega arith;
  created = omega arith;
  modified = omega arith;
  mode = omega arith;
}

deserialize-serialize_inode_entry_example :
    deserialize_inode_entry 5
      (serialize_inode_entry some_directory no_dict).1
      (serialize_inode_entry some_directory no_dict).0
    ≡ some_directory
deserialize-serialize_inode_entry_example =
    deserialize-serialize_inode_entry some_directory no_dict fits no_names-IsNamed no_names-IsNamed
      (omega arith) (omega arith)

decode-encode_edge_key_example :
    decode_edge_key (encode_edge_key 258 (97 ∷ 98 ∷ [])) ≡ (258, 97 ∷ 98 ∷ [])
decode-encode_edge_key_example = decode-encode_edge_key 258 (97 ∷ 98 ∷ []) (omega arith)

compare-encode_big_endian64_example :
    compare_paths (encode_big_endian64 255) (encode_big_endian64 256) ≡ compare 255 256
compare-encode_big_endian64_example =
    compare-encode_big_endian64 255 256 (omega arith) (omega arith)

big_endian : encode_big_endian64 258 ≡ 0 ∷ 0 ∷ 0 ∷ 0 ∷ 0 ∷ 0 ∷ 1 ∷ 2 ∷ []
unfolding encode_big_endian64
big_endian = refl

too_short : decode_edge_key (1 ∷ 2 ∷ []) ≡ (0, [])
unfolding decode_edge_key decode_big_endian64
too_short = refl
