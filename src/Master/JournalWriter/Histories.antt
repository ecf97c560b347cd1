-- ===== src/Master/JournalWriter/Histories.antt =====
-- What a journal of some entries gives back, and the number that opening it sets.
use any_cache.Base.{
  zero, Bool, ◌≤◌, sym, ltb, refl, ℕ, zero, suc, ◌-◌, ◌+◌, ◌%◌, ◌^◌, ◌≤◌, ◌<◌, ◌≡◌, ap, sym, ◌∙◌,
  Bool, some, List, [], ◌∷◌, ◌++◌, All, map, take, length, length-append, ltb, arith, u64,
  if◌then◌else◌,
}
use mathlib.Core.List.{append_assoc, append-nil}
use any_cache.Master.JournalWriter.{
  JournalWriter, JournalEntryData, serialize, record_bytes, replay_loop, replay, push, max_sequence,
  next_after, open_journal, open_stream,
}
use any_cache.Master.JournalWriter.Replays.{
  FitsRecord, length-serialize, framed_size, turn, torn_turn,
}

-- The bytes of a journal of some entries.
abbrev pub journal_bytes : List JournalEntryData → List ℕ
journal_bytes [] = []
journal_bytes (e ∷ entries) = record_bytes e ++ journal_bytes entries

pub length-record_bytes : (e : JournalEntryData) → length (record_bytes e) ≡ length e.payload + 24
unfolding record_bytes
length-record_bytes e =
    omega (arith, framed_size (length (serialize e) % 2 ^ 32) (serialize e), length-serialize e)

loop-journal_bytes :
    (fuel : ℕ) (entries : List JournalEntryData) (torn : JournalEntryData) (k : ℕ)
    → All FitsRecord entries
    → FitsRecord torn
    → k < length (record_bytes torn)
    → length entries < fuel
    → replay_loop fuel (journal_bytes entries ++ take k (record_bytes torn))
      ≡ some (map some entries)
loop-journal_bytes zero entries torn k all fits cut enough = absurd (omega arith)
loop-journal_bytes (suc fuel) [] torn k all fits cut enough = torn_turn torn fits fuel k cut
loop-journal_bytes (suc fuel) (e ∷ entries) torn k all fits cut enough =
    let rest = journal_bytes entries ++ take k (record_bytes torn) in
    ap (replay_loop (suc fuel)) (append_assoc (record_bytes e) (journal_bytes entries) _)
    ∙ turn e all.0 fuel rest
    ∙ ap (push (some e)) (loop-journal_bytes fuel entries torn k all.1 fits cut (omega arith))

length-journal_bytes :
    (entries : List JournalEntryData) → length entries ≤ length (journal_bytes entries)
length-journal_bytes [] = omega arith
length-journal_bytes (e ∷ entries) = omega (
  arith,
  length-append (record_bytes e) (journal_bytes entries),
  length-record_bytes e,
  length-journal_bytes entries,
)

-- A journal whose entries fit their fields and the bound of a record, and whose last record may be
-- cut off anywhere, as by a crash, replays exactly the entries that are whole, in their order.
pub replay-journal_bytes :
    (entries : List JournalEntryData) (torn : JournalEntryData) (k : ℕ)
    → All FitsRecord entries
    → FitsRecord torn
    → k < length (record_bytes torn)
    → replay (some (journal_bytes entries ++ take k (record_bytes torn))) ≡ some (map some entries)
unfolding replay
replay-journal_bytes entries torn k all fits cut =
    loop-journal_bytes (suc (length (journal_bytes entries ++ take k (record_bytes torn)))) entries
      torn k all fits cut
      (omega (
        arith,
        length-journal_bytes entries,
        length-append (journal_bytes entries) (take k (record_bytes torn)),
      ))

pub append-journal_bytes :
    (old new : List JournalEntryData)
    → journal_bytes (old ++ new) ≡ journal_bytes old ++ journal_bytes new
append-journal_bytes [] new = refl
append-journal_bytes (e ∷ old) new =
    ap (λ (xs : List ℕ). record_bytes e ++ xs) (append-journal_bytes old new)
    ∙ sym (append_assoc (record_bytes e) (journal_bytes old) (journal_bytes new))

pub All-append :
    (P : JournalEntryData → Type 0) (old new : List JournalEntryData)
    → All P old
    → All P new
    → All P (old ++ new)
All-append P [] new all_old all_new = all_new
All-append P (e ∷ old) new all_old all_new = (all_old.0, All-append P old new all_old.1 all_new)

abbrev pub no_entry : JournalEntryData
no_entry = record { sequence_number = 0; timestamp_ms = 0; kind = 0; payload = [] }

pub replay-entries :
    (old new : List JournalEntryData)
    → All FitsRecord old
    → All FitsRecord new
    → replay (some (journal_bytes old ++ journal_bytes new)) ≡ some (map some (old ++ new))
unfolding record_bytes
replay-entries old new old_fit new_fit =
    ap (λ (xs : List ℕ). replay (some xs))
      (sym (append-nil (journal_bytes old ++ journal_bytes new))
        ∙ ap (λ (xs : List ℕ). xs ++ []) (sym (append-journal_bytes old new)))
    ∙ replay-journal_bytes (old ++ new) no_entry 0 (All-append FitsRecord old new old_fit new_fit)
        (record {
          sequence = omega arith;
          time = omega arith;
          kind = omega arith;
          short = omega arith;
        })
        (omega arith)

max_sequence-le :
    (junk : ℕ → ℕ) (highest : ℕ) (entries : List JournalEntryData)
    → (highest ≤ max_sequence junk highest (map some entries))
      × All
          (λ (e : JournalEntryData).
            e.sequence_number ≤ max_sequence junk highest (map some entries))
          entries
unfolding max_sequence
max_sequence-le junk highest [] = (omega arith, tt)
max_sequence-le junk highest (e ∷ entries) =
    let next = if ltb highest e.sequence_number then e.sequence_number else highest in
    let (above, all) = max_sequence-le junk next entries in
    (ground (arith, above), (ground (arith, above), all))

All-map :
    {P Q : JournalEntryData → Type 0} (entries : List JournalEntryData)
    → ((e : JournalEntryData) → P e → Q e)
    → All P entries
    → All Q entries
All-map [] f all = tt
All-map (e ∷ entries) f all = (f e all.0, All-map entries f all.1)

max_sequence-lt :
    (junk : ℕ → ℕ) (bound highest : ℕ) (entries : List JournalEntryData)
    → highest < bound
    → All (λ (e : JournalEntryData). e.sequence_number < bound) entries
    → max_sequence junk highest (map some entries) < bound
unfolding max_sequence
max_sequence-lt junk bound highest [] low all = low
max_sequence-lt junk bound highest (e ∷ entries) low all =
    max_sequence-lt junk bound
      (if ltb highest e.sequence_number then e.sequence_number else highest) entries
      (ground (arith, all.0)) all.1

-- Opening a journal, whether that succeeds or not, sets the next sequence number above those of all
-- its whole entries, when none is the last 64-bit number.
pub next_seq-open_journal :
    (junk : ℕ → ℕ) (entries : List JournalEntryData) (torn : JournalEntryData) (k : ℕ)
    (opens : Bool) (w : JournalWriter)
    → w.file ≡ some (journal_bytes entries ++ take k (record_bytes torn))
    → All FitsRecord entries
    → FitsRecord torn
    → k < length (record_bytes torn)
    → All (λ (e : JournalEntryData). e.sequence_number < u64 - 1) entries
    → All
        (λ (e : JournalEntryData). e.sequence_number < (open_journal junk opens w).0.next_seq)
        entries
unfolding open_journal open_stream
next_seq-open_journal junk entries torn k opens w is_file all fits cut room =
    let replayed = ap replay is_file ∙ replay-journal_bytes entries torn k all fits cut in
    let highest = max_sequence junk 0 (map some entries) in
    let file = journal_bytes entries ++ take k (record_bytes torn) in
    let after : next_after junk w.file (replay w.file) w.next_seq ≡ (highest + 1) % u64 =
      ap (λ f. next_after junk f (replay w.file) w.next_seq) is_file
      ∙ ap (λ r. next_after junk (some file) r w.next_seq) replayed in
    let next : (open_journal junk opens w).0.next_seq ≡ (highest + 1) % u64 =
      ground (arith, after) in
    let low = max_sequence-lt junk (u64 - 1) 0 entries (omega arith) room in
    All-map entries (λ e below. omega (arith, below, next, low)) (max_sequence-le junk 0 entries).1
