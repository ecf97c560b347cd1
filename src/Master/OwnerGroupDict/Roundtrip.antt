-- ===== src/Master/OwnerGroupDict/Roundtrip.antt =====
-- What the dictionary writes it reads back.
use any_cache.Base.{
  ℕ, ◌≤◌, ◌≡◌, refl, ap, ◌∙◌, List, [], ◌∷◌, ◌++◌, All, length, min, arith, take-append,
  drop-append, length-append, take_of_length-le,
}
use any_cache.Master.OwnerGroupDict.{
  serialize_names, serialize_list, deserialize_names, deserialize_list,
}

abbrev pub IsShort : List ℕ → Type 0
IsShort s = length s ≤ 255

deserialize-serialize_names :
    (list : List (List ℕ))
    → All IsShort list
    → deserialize_names (length list) (serialize_names list) ≡ list
unfolding deserialize_names serialize_names
deserialize-serialize_names [] h = refl
deserialize-serialize_names (s ∷ list) h =
    let full : min (length s) 255 ≡ length s = omega (arith, h.0) in
    let all = take_of_length-le (length s) s (omega arith) in
    let rest = serialize_names list in
    let fits : min (length s) (length (s ++ rest)) ≡ length s =
      omega (arith, length-append s rest) in
    rw (full, all, fits, take-append s rest, drop-append s rest)
      (ap (λ names. s ∷ names) (deserialize-serialize_names list h.1))

-- A list of at most 255 names of at most 255 bytes each reads back from its serialized form.
pub deserialize-serialize_list :
    (list : List (List ℕ))
    → length list ≤ 255
    → All IsShort list
    → deserialize_list (serialize_list list) ≡ list
unfolding deserialize_list serialize_list
deserialize-serialize_list list few short =
    let all : min (length list) 255 ≡ length list = omega arith in
    ap (λ n. deserialize_names n (serialize_names list)) all
    ∙ deserialize-serialize_names list short
