-- ===== src/Master/JournalWriter/Tests.antt =====
-- A journal of two entries, and what an append after a torn record does.
use any_cache.Base.{
  ℕ, ◌<◌, ◌≡◌, refl, true, false, none, some, List, [], ◌∷◌, ◌++◌, All, map, take, length, arith,
}
use any_cache.Common.Status.{k_ok, k_io_error}
use any_cache.Master.JournalWriter.{
  JournalEntryData, JournalWriter, Io, new_writer, open_journal, open_stream, append, drain, flush,
  replay, record_bytes,
}
use any_cache.Master.JournalWriter.Replays.{FitsRecord}
use any_cache.Master.JournalWriter.Histories.{journal_bytes, next_seq-open_journal}
use any_cache.Master.JournalWriter.Flushes.{
  Call, entries_of, append_all, whole, Works, replay-flush,
}

abbrev first_entry : JournalEntryData
first_entry = record { sequence_number = 1; timestamp_ms = 5; kind = 2; payload = 7 ∷ 8 ∷ [] }

abbrev second_entry : JournalEntryData
second_entry = record { sequence_number = 2; timestamp_ms = 6; kind = 3; payload = [] }

abbrev entries : List JournalEntryData
entries = first_entry ∷ second_entry ∷ []

first_fits : FitsRecord first_entry
first_fits = record {
  sequence = omega arith;
  time = omega arith;
  kind = omega arith;
  short = omega arith;
}

second_fits : FitsRecord second_entry
second_fits = record {
  sequence = omega arith;
  time = omega arith;
  kind = omega arith;
  short = omega arith;
}

-- What uninitialised numbers read as.
abbrev junk : ℕ → ℕ
junk n = 0

abbrev writer : JournalWriter
writer = (open_journal junk true (new_writer none)).0

writer-Works : Works writer []
unfolding open_journal open_stream
writer-Works = record { opened = refl; works = refl; holds = refl }

-- An append that gives five bytes to the file before it fails.
abbrev fails_after_five : Io
fails_after_five = record { written = 5; succeeds = false }

abbrev first_calls : List Call
first_calls = (whole, first_entry) ∷ []

abbrev later_calls : List Call
later_calls = (whole, second_entry) ∷ (fails_after_five, first_entry) ∷ []

replay-flush_example :
    (count : ℕ) × (replay
        (append_all later_calls (flush whole (append_all first_calls writer)).0).file
      ≡ some (map some (entries_of first_calls ++ take count (entries_of later_calls))))
replay-flush_example =
    replay-flush first_calls later_calls writer writer-Works (refl, tt) (first_fits, tt)
      (second_fits, (first_fits, tt))

-- An entry that is appended and not flushed is not on disk.
replay-append_unflushed : replay (append whole first_entry writer).0.file ≡ some []
unfolding open_journal open_stream append drain replay
replay-append_unflushed = refl

cut : 5 < length (record_bytes second_entry)
unfolding record_bytes
cut = omega arith

abbrev crashed : JournalWriter
crashed = new_writer (some (journal_bytes entries ++ take 5 (record_bytes second_entry)))

next_seq-open_journal_example :
    All
      (λ (e : JournalEntryData). e.sequence_number < (open_journal junk true crashed).0.next_seq)
      entries
next_seq-open_journal_example =
    next_seq-open_journal junk entries second_entry 5 true crashed refl
      (first_fits, (second_fits, tt)) second_fits cut (omega arith, (omega arith, tt))

-- After a crash that leaves five bytes of a record, the entry that is appended next is read as a
-- part of that record.
abbrev reopened : JournalWriter
reopened = (open_journal junk true (new_writer (some (take 5 (record_bytes second_entry))))).0

abbrev misread_entry : JournalEntryData
misread_entry = record {
  sequence_number = 1099511633410;
  timestamp_ms = 5497558138880;
  kind = 0;
  payload = [];
}

replay-after_crash :
    replay (flush whole (append whole first_entry reopened).0).0.file
    ≡ some (some misread_entry ∷ [])
unfolding append flush drain open_journal open_stream replay record_bytes
replay-after_crash = refl

-- A second call of `Open` succeeds, and the appends after it fail.
abbrev opened_twice : JournalWriter
opened_twice = (open_journal junk true writer).0

opens_again : (open_journal junk true writer).1 ≡ k_ok
unfolding open_journal open_stream
opens_again = refl

append-opened_twice : append whole first_entry opened_twice ≡ (opened_twice, k_io_error)
unfolding open_journal open_stream append
append-opened_twice = refl
