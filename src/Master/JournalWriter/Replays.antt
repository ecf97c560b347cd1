-- ===== src/Master/JournalWriter/Replays.antt =====
-- A replay gives back what was appended.
use any_cache.Base.{
  ℕ, zero, suc, ◌+◌, ◌%◌, ◌^◌, ◌≤◌, ◌<◌, ◌≡◌, refl, ap, ◌∙◌, Bool, true, false, Option, some, List,
  [], ◌++◌, take, drop, length, take-append, drop-append, length-append, length-take, ltb, arith,
  u64, if◌then◌else◌,
}
use any_cache.Master.InodeEntry.{native_bytes, native_word, field_at}
use any_cache.Master.InodeEntry.Words.{native_word-native_bytes}
use any_cache.Master.JournalWriter.{
  JournalEntryData, serialize, deserialize, record_bytes, replay_turn, stops, replay_loop, push,
  max_record,
}

-- The numbers of an entry fit their fields, and its record the bound of a replay.
pub record FitsRecord (entry : JournalEntryData) : Type 0 where
  pub sequence : entry.sequence_number < u64
  pub time : entry.timestamp_ms < u64
  pub kind : entry.kind < 2 ^ 32
  pub short : length entry.payload + 20 ≤ max_record

pub length-serialize :
    (entry : JournalEntryData) → length (serialize entry) ≡ length entry.payload + 20
unfolding serialize native_bytes
length-serialize entry = omega arith

-- What stands behind a length: the first four bytes, and the others.
framed_word :
    (n : ℕ) (data_ : List ℕ)
    → native_word (take 4 (native_bytes 4 n ++ data_)) ≡ native_word (native_bytes 4 n)
unfolding native_bytes
framed_word n data_ = refl

framed_rest : (n : ℕ) (data_ : List ℕ) → drop 4 (native_bytes 4 n ++ data_) ≡ data_
unfolding native_bytes
framed_rest n data_ = refl

pub framed_size : (n : ℕ) (data_ : List ℕ) → length (native_bytes 4 n ++ data_) ≡ 4 + length data_
unfolding native_bytes
framed_size n data_ = omega arith

framed_append :
    (n : ℕ) (data_ rest : List ℕ)
    → (native_bytes 4 n ++ data_) ++ rest ≡ native_bytes 4 n ++ data_ ++ rest
unfolding native_bytes
framed_append n data_ rest = refl

framed_take :
    (n k : ℕ) (data_ : List ℕ)
    → take (suc (suc (suc (suc k)))) (native_bytes 4 n ++ data_) ≡ native_bytes 4 n ++ take k data_
unfolding native_bytes
framed_take n k data_ = refl

-- One turn of the loop at a length.
loop_turn :
    (fuel n : ℕ) (data_ : List ℕ)
    → replay_loop (suc fuel) (native_bytes 4 n ++ data_)
      ≡ replay_turn
          (replay_loop fuel)
          (native_word (native_bytes 4 n))
          (length (native_bytes 4 n ++ data_))
          data_
unfolding replay_loop
loop_turn fuel n data_ = cc (framed_word n data_, framed_rest n data_)

whole_turn :
    (continue_ : List ℕ → Option (List (Option JournalEntryData))) (len size : ℕ)
    (data_ rest : List ℕ)
    → len ≡ length data_
    → 4 ≤ size
    → 0 < len
    → len ≤ max_record
    → replay_turn continue_ len size (data_ ++ rest) ≡ push (deserialize data_) (continue_ rest)
unfolding replay_turn stops
whole_turn continue_ len size data_ rest is_len enough positive bounded =
    let fits = length-append data_ rest in
    let first = ap (λ n. take n (data_ ++ rest)) is_len ∙ take-append data_ rest in
    let others = ap (λ n. drop n (data_ ++ rest)) is_len ∙ drop-append data_ rest in
    let go : stops size len (data_ ++ rest) ≡ false = ground (arith, is_len, fits) in
    run (stops size len (data_ ++ rest)) _ go ∙ cc (first, others)
  where
    run :
        (b : Bool) (p : Option (List (Option JournalEntryData)))
        → b ≡ false
        → (elim b [ true ↦ some [] | false ↦ p ]) ≡ p
    run b p h = ground (arith, h)

cut_turn :
    (continue_ : List ℕ → Option (List (Option JournalEntryData))) (len size : ℕ) (rest : List ℕ)
    → length rest < len
    → replay_turn continue_ len size rest ≡ some []
unfolding replay_turn stops
cut_turn continue_ len size rest cut = ground (arith, cut)

-- Fewer than four bytes.
short_turn : (fuel : ℕ) (file : List ℕ) → length file < 4 → replay_loop (suc fuel) file ≡ some []
unfolding replay_loop replay_turn stops
short_turn fuel file short = ground (arith, short)

module _ (entry : JournalEntryData) (fits : FitsRecord entry) where
  field_sequence : field_at 0 8 (serialize entry) ≡ entry.sequence_number
  unfolding field_at serialize native_bytes
  field_sequence = native_word-native_bytes 8 entry.sequence_number fits.sequence

  field_time : field_at 8 8 (serialize entry) ≡ entry.timestamp_ms
  unfolding field_at serialize native_bytes
  field_time = native_word-native_bytes 8 entry.timestamp_ms fits.time

  field_kind : field_at 16 4 (serialize entry) ≡ entry.kind
  unfolding field_at serialize native_bytes
  field_kind = native_word-native_bytes 4 entry.kind fits.kind

  rest-serialize : drop 20 (serialize entry) ≡ entry.payload
  unfolding serialize native_bytes
  rest-serialize = refl

  deserialize-serialize : deserialize (serialize entry) ≡ some entry
  unfolding deserialize
  deserialize-serialize =
      let long : ltb (length (serialize entry)) 20 ≡ false =
        ground (arith, length-serialize entry) in
      if_false (ltb (length (serialize entry)) 20) _ _ long
      ∙ cc (field_sequence, field_time, field_kind, rest-serialize)
    where
      if_false : (b : Bool) (x y : Option JournalEntryData) → b ≡ false → (if b then x else y) ≡ y
      if_false b x y h = ground (arith, h)

  length_word :
      native_word (native_bytes 4 (length (serialize entry) % 2 ^ 32)) ≡ length (serialize entry)
  length_word =
      let small : length (serialize entry) % 2 ^ 32 ≡ length (serialize entry) =
        omega (arith, length-serialize entry, fits.short) in
      native_word-native_bytes 4 (length (serialize entry) % 2 ^ 32) (omega arith) ∙ small

  -- One turn of a replay at a whole record.
  pub turn :
      (fuel : ℕ) (rest : List ℕ)
      → replay_loop (suc fuel) (record_bytes entry ++ rest)
        ≡ push (some entry) (replay_loop fuel rest)
  unfolding record_bytes
  turn fuel rest =
      let n = length (serialize entry) % 2 ^ 32 in
      ap (replay_loop (suc fuel)) (framed_append n (serialize entry) rest)
      ∙ loop_turn fuel n (serialize entry ++ rest)
      ∙ whole_turn (replay_loop fuel) (native_word (native_bytes 4 n))
          (length (native_bytes 4 n ++ serialize entry ++ rest)) (serialize entry) rest length_word
          (omega (arith, framed_size n (serialize entry ++ rest)))
          (omega (arith, length_word, length-serialize entry))
          (omega (arith, length_word, length-serialize entry, fits.short))
      ∙ ap (λ o. push o (replay_loop fuel rest)) deserialize-serialize

  -- One turn at a record that is cut off.
  pub torn_turn :
      (fuel k : ℕ)
      → k < length (record_bytes entry)
      → replay_loop (suc fuel) (take k (record_bytes entry)) ≡ some []
  unfolding record_bytes
  torn_turn fuel (suc (suc (suc (suc k)))) cut =
      let n = length (serialize entry) % 2 ^ 32 in
      ap (replay_loop (suc fuel)) (framed_take n k (serialize entry))
      ∙ loop_turn fuel n (take k (serialize entry))
      ∙ cut_turn (replay_loop fuel) (native_word (native_bytes 4 n)) _ (take k (serialize entry)) (
          omega (
            arith,
            length_word,
            length-take k (serialize entry),
            framed_size n (serialize entry),
            cut,
          ))
  torn_turn fuel zero cut = short_turn fuel _ (omega arith)
  torn_turn fuel (suc zero) cut =
      short_turn fuel _ (omega (arith, length-take 1 (record_bytes entry)))
  torn_turn fuel (suc (suc zero)) cut =
      short_turn fuel _ (omega (arith, length-take 2 (record_bytes entry)))
  torn_turn fuel (suc (suc (suc zero))) cut =
      short_turn fuel _ (omega (arith, length-take 3 (record_bytes entry)))
