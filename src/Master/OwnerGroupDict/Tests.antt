-- ===== src/Master/OwnerGroupDict/Tests.antt =====
-- The theorems on the dictionary at two names.
use any_cache.Base.{ℕ, ◌≡◌, List, [], ◌∷◌, false, arith, find}
use any_cache.Master.OwnerGroupDict.{Dict, name_key, serialize_list, deserialize_list, get_or_add}
use any_cache.Master.OwnerGroupDict.Roundtrip.{deserialize-serialize_list}
use any_cache.Master.OwnerGroupDict.Ids.{IsNamed, Given, get_or_add-Given}

abbrev names : List (List ℕ)
names = (114 ∷ 111 ∷ []) ∷ (97 ∷ []) ∷ []

deserialize-serialize_list_runs : deserialize_list (serialize_list names) ≡ names
deserialize-serialize_list_runs =
    deserialize-serialize_list names (omega arith) (omega arith, (omega arith, tt))

abbrev empty : Dict
empty = record { names = []; ids = []; dirty = false }

empty-IsNamed : IsNamed empty
unfolding find
empty-IsNamed s id e = cc

first : Given (97 ∷ []) empty (get_or_add (97 ∷ []) empty)
first = get_or_add-Given (97 ∷ []) empty empty-IsNamed

abbrev one_name : Dict
one_name = (get_or_add (97 ∷ []) empty).0

get_or_add-Given_example : Given (98 ∷ []) one_name (get_or_add (98 ∷ []) one_name)
get_or_add-Given_example = get_or_add-Given (98 ∷ []) one_name first.0
