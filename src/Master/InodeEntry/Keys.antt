-- ===== src/Master/InodeEntry/Keys.antt =====
-- The keys of the edges.
use any_cache.Base.{ℕ, ◌<◌, ◌≡◌, refl, ap, ◌∙◌, List, [], Option, none, some, drop, ◌++◌, u64}
use any_cache.Master.InodeEntry.{
  encode_edge_key, decode_edge_key, encode_big_endian64, decode_big_endian64,
}
use any_cache.Master.InodeEntry.Words.{decode-encode_big_endian64}

drop_prefix : (val : ℕ) (rest : List ℕ) → drop 8 (encode_big_endian64 val ++ rest) ≡ rest
unfolding encode_big_endian64
drop_prefix val rest = refl

-- The key of an edge gives back the directory, when its id is a 64-bit word, and the name of the
-- child.
pub decode-encode_edge_key :
    (parent_id : ℕ) (child_name : List ℕ)
    → parent_id < u64
    → decode_edge_key (encode_edge_key parent_id child_name) ≡ (parent_id, child_name)
unfolding decode_edge_key encode_edge_key
decode-encode_edge_key parent_id child_name h =
    ap (split_at rest) read ∙ ap (λ (x : List ℕ). (parent_id, x)) (drop_prefix parent_id child_name)
  where
    rest : List ℕ
    rest = drop 8 (encode_big_endian64 parent_id ++ child_name)

    split_at : List ℕ → Option ℕ → ℕ × List ℕ
    split_at name none = (0, [])
    split_at name (some parent) = (parent, name)

    read : decode_big_endian64 (encode_big_endian64 parent_id ++ child_name) ≡ some parent_id
    read = decode-encode_big_endian64 parent_id child_name h
