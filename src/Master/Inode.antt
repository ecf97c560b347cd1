-- ===== src/Master/Inode.antt =====
-- `Inode` of src/master/inode_tree.h. A name is the list of its bytes; the times are the bits of
-- their 64-bit words.
use any_cache.Base.{ℕ, ◌*◌, Bool, true, false, List, [], Map}

abbrev pub Name : Type 0
Name = List ℕ

abbrev pub invalid_inode_id : ℕ
invalid_inode_id = 0

abbrev pub default_block_size : ℕ
default_block_size = 64 * 1024 * 1024

pub record Inode : Type 0 where
  pub id : ℕ
  pub parent_id : ℕ
  pub name : Name
  pub is_directory : Bool
  pub size : ℕ
  pub mode : ℕ
  pub owner : Name
  pub group : Name
  pub block_size : ℕ
  pub creation_time_ms : ℕ
  pub modification_time_ms : ℕ
  pub children : Map Name ℕ
  pub is_complete : Bool

-- `Inode inode;`, with the initial values of its fields: the mode is 0644.
abbrev pub new_inode : Inode
new_inode = record {
  id = invalid_inode_id;
  parent_id = invalid_inode_id;
  name = [];
  is_directory = false;
  size = 0;
  mode = 420;
  owner = [];
  group = [];
  block_size = default_block_size;
  creation_time_ms = 0;
  modification_time_ms = 0;
  children = [];
  is_complete = true;
}
