-- ===== src/Master/OwnerGroupDict.antt =====
-- `OwnerGroupDict` of src/master/inode_entry.h: names of owners or groups with one-byte ids. The
-- two halves of the class are alike; a string is the list of its bytes.
pub mod Roundtrip
pub mod Ids
mod Tests
use any_cache.Base.{
  ℕ, zero, suc, ◌+◌, ◌%◌, Bool, true, false, Option, none, some, List, [], ◌∷◌, ◌++◌, Key, Map,
  find, insert, ℕ_discrete, take, drop, length, min, leb, if◌then◌else◌,
}

unfoldable pub Name-discrete : Discrete (List ℕ)
Name-discrete = hlevel ℕ_discrete

instance abbrev pub name_key : Key (List ℕ)
name_key = record { dec = Name-discrete }

-- One half: the names in the order of their ids, the map back, and the shared dirty flag.
pub record Dict : Type 0 where
  pub names : List (List ℕ)
  pub ids : Map (List ℕ) ℕ
  pub dirty : Bool

-- The strings one after the other, each behind its length.
unfoldable pub serialize_names : List (List ℕ) → List ℕ
serialize_names [] = []
serialize_names (s ∷ list) =
    let len = min (length s) 255 in len ∷ take len s ++ serialize_names list

unfoldable pub serialize_list : List (List ℕ) → List ℕ
unfolding serialize_names
serialize_list list = min (length list) 255 ∷ serialize_names list

-- The loop over the count, which ends early where the data end.
unfoldable pub deserialize_names : ℕ → List ℕ → List (List ℕ)
deserialize_names zero data_ = []
deserialize_names (suc count) [] = []
deserialize_names (suc count) (len ∷ data_) =
    let actual = min len (length data_) in
    take actual data_ ∷ deserialize_names count (drop actual data_)

unfoldable pub deserialize_list : List ℕ → List (List ℕ)
unfolding deserialize_names
deserialize_list [] = []
deserialize_list (count ∷ data_) = deserialize_names count data_

unfoldable pub rebuild_from : ℕ → List (List ℕ) → Map (List ℕ) ℕ → Map (List ℕ) ℕ
rebuild_from i [] m = m
rebuild_from i (s ∷ list) m = rebuild_from (suc i) list (insert s (suc i % 256) m)

unfoldable pub rebuild_map : List (List ℕ) → Map (List ℕ) ℕ
unfolding rebuild_from
rebuild_map list = rebuild_from 0 list []

unfoldable pub load : List ℕ → Dict → Dict
unfolding deserialize_list rebuild_map
load data_ d =
    let list = deserialize_list data_ in record d { names = list; ids = rebuild_map list }

unfoldable pub get_or_add_new : List ℕ → Dict → Dict × ℕ
get_or_add_new s d =
    if leb 255 (length d.names)
    then (d, 0)
    else let id = (length d.names + 1) % 256 in
      (record { names = d.names ++ s ∷ []; ids = insert s id d.ids; dirty = true }, id)

unfoldable pub get_or_add : List ℕ → Dict → Dict × ℕ
unfolding get_or_add_new
get_or_add [] d = (d, 0)
get_or_add (c ∷ cs) d = elim (find (c ∷ cs) d.ids) [
  | some id ↦ (d, id)
  | none ↦ get_or_add_new (c ∷ cs) d
]

unfoldable pub nth : ℕ → List (List ℕ) → List ℕ
nth i [] = []
nth zero (s ∷ list) = s
nth (suc i) (s ∷ list) = nth i list

-- `Lookup`: the empty string for the id 0 and for ids past the end.
unfoldable pub lookup : ℕ → List (List ℕ) → List ℕ
unfolding nth
lookup zero list = []
lookup (suc i) list = nth i list
