-- ===== src/Master/InodeEntry/Words.antt =====
-- Words and their bytes.
use any_cache.Base.{ℕ, zero, suc, ◌/◌, ◌^◌, ◌<◌, ◌≡◌, refl, ap, some, List, [], ◌++◌, arith, u64}
use any_cache.Master.InodeEntry.{
  native_bytes, native_word, encode_big_endian64, decode_big_endian64,
}

pub native_word-native_bytes :
    (n word : ℕ) → word < 256 ^ n → native_word (native_bytes n word) ≡ word
unfolding native_word native_bytes
native_word-native_bytes zero word h = omega arith
native_word-native_bytes (suc n) word h =
    let ih = native_word-native_bytes n (word / 256) (omega arith) in omega (arith, ih)

-- A word reads back from its eight bytes, the highest first, whatever stands behind them.
pub decode-encode_big_endian64 :
    (val : ℕ) (rest : List ℕ)
    → val < u64
    → decode_big_endian64 (encode_big_endian64 val ++ rest) ≡ some val
unfolding decode_big_endian64 encode_big_endian64
decode-encode_big_endian64 val rest h = ap some (omega arith)

pub encode_nil : (a : ℕ) → encode_big_endian64 a ++ [] ≡ encode_big_endian64 a
unfolding encode_big_endian64
encode_nil a = refl
