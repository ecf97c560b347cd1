-- ===== src/Master/JournalWriter.antt =====
-- `JournalWriter` of src/master/journal/journal_writer.{h,cpp}. The journal file is its bytes on disk,
-- `none` where there is no file, and the stream holds back bytes until it is flushed. Words have the
-- layout of a little-endian machine. A record of fewer than 20 bytes gives an entry whose fields are
-- not initialised, which is `none`.
pub mod Replays
pub mod Histories
pub mod Flushes
mod Tests
use any_cache.Base.{
  ℕ, zero, suc, ◌+◌, ◌*◌, ◌%◌, ◌^◌, Bool, true, false, not, Option, none, some, List, [], ◌∷◌, ◌++◌,
  take, drop, length, ltb, leb, ◌==◌, ◌||◌, if◌then◌else◌, u64,
}
use any_cache.Common.Status.{StatusCode, k_ok, k_io_error}
use any_cache.Master.InodeEntry.{native_bytes, native_word, field_at}

pub record JournalEntryData : Type 0 where
  pub sequence_number : ℕ
  pub timestamp_ms : ℕ
  pub kind : ℕ
  pub payload : List ℕ

unfoldable pub serialize : JournalEntryData → List ℕ
unfolding native_bytes
serialize entry =
    native_bytes 8 entry.sequence_number
    ++ native_bytes 8 entry.timestamp_ms
    ++ native_bytes 4 entry.kind
    ++ entry.payload

unfoldable pub deserialize : List ℕ → Option JournalEntryData
unfolding field_at
deserialize data_ =
    if ltb (length data_) 20
    then none
    else some (record {
      sequence_number = field_at 0 8 data_;
      timestamp_ms = field_at 8 8 data_;
      kind = field_at 16 4 data_;
      payload = drop 20 data_;
    })

abbrev pub max_record : ℕ
max_record = 64 * 1024 * 1024

-- The bytes that one entry adds to the file: the length of its record, cut to 32 bits, and the record.
unfoldable pub record_bytes : JournalEntryData → List ℕ
unfolding serialize native_bytes
record_bytes entry = native_bytes 4 (length (serialize entry) % 2 ^ 32) ++ serialize entry

-- The call of the callback, before the rest of the loop.
abbrev pub push :
    Option JournalEntryData
    → Option (List (Option JournalEntryData))
    → Option (List (Option JournalEntryData))
push entry none = none
push entry (some entries) = some (entry ∷ entries)

-- Whether the loop of `Replay` stops: fewer than four bytes are left, the length is out of bounds, or
-- the record behind it is cut off.
unfoldable pub stops : ℕ → ℕ → List ℕ → Bool
stops size len rest = ltb size 4 || ((len == 0 || ltb max_record len) || ltb (length rest) len)

unfoldable pub replay_turn :
    (List ℕ → Option (List (Option JournalEntryData)))
    → ℕ
    → ℕ
    → List ℕ
    → Option (List (Option JournalEntryData))
unfolding stops deserialize
replay_turn continue_ len size rest = elim (stops size len rest) [
  | true ↦ some []
  | false ↦ push (deserialize (take len rest)) (continue_ (drop len rest))
]

-- The loop over what is left of the file.
unfoldable pub replay_loop : ℕ → List ℕ → Option (List (Option JournalEntryData))
unfolding replay_turn native_word
replay_loop zero file = none
replay_loop (suc fuel) file =
    replay_turn (replay_loop fuel) (native_word (take 4 file)) (length file) (drop 4 file)

-- `Replay`, with the entries in the order of the calls of its callback. One turn takes a byte at least.
unfoldable pub replay : Option (List ℕ) → Option (List (Option JournalEntryData))
unfolding replay_loop
replay none = some []
replay (some file) = replay_loop (suc (length file)) file

-- The callback of `Open`. An entry whose fields were not initialised has any number, which depends
-- here on how many entries follow it.
unfoldable pub max_sequence : (ℕ → ℕ) → ℕ → List (Option JournalEntryData) → ℕ
max_sequence junk highest [] = highest
max_sequence junk highest (none ∷ entries) =
    let number = junk (length entries) in
    max_sequence junk (if ltb highest number then number else highest) entries
max_sequence junk highest (some entry ∷ entries) =
    max_sequence junk (if ltb highest entry.sequence_number then entry.sequence_number else highest)
      entries

-- The journal file as it is on disk, and the stream: the bytes it holds back, and whether an earlier
-- failure stops it.
pub record JournalWriter : Type 0 where
  pub file : Option (List ℕ)
  pub buffer : List ℕ
  pub is_open : Bool
  pub stopped : Bool
  pub next_seq : ℕ

abbrev pub new_writer : Option (List ℕ) → JournalWriter
new_writer file = record {
  file = file;
  buffer = [];
  is_open = false;
  stopped = false;
  next_seq = 1;
}

abbrev pub contents : Option (List ℕ) → List ℕ
contents none = []
contents (some file) = file

abbrev pub next_after : (ℕ → ℕ) → Option (List ℕ) → Option (List (Option JournalEntryData)) → ℕ → ℕ
next_after junk none entries next_seq = next_seq
next_after junk (some file) none next_seq = next_seq
next_after junk (some file) (some entries) next_seq = (max_sequence junk 0 entries + 1) % u64

-- `writer_.open`, with whether the file could be opened for appending. A stream that is open already
-- stays open and takes nothing more.
unfoldable pub open_stream : Bool → JournalWriter → JournalWriter × StatusCode
open_stream opens w =
    if w.is_open
    then (record w { stopped = true }, k_ok)
    else if opens
    then (
      record w { file = some (contents w.file); buffer = []; is_open = true; stopped = false },
      k_ok,
    )
    else (record w { stopped = true }, k_io_error)

-- `Open`
unfoldable pub open_journal : (ℕ → ℕ) → Bool → JournalWriter → JournalWriter × StatusCode
unfolding replay max_sequence open_stream
open_journal junk opens w =
    open_stream opens (record w { next_seq = next_after junk w.file (replay w.file) w.next_seq })

-- What the stream gives the file in one call: so many of the bytes that wait, and whether that
-- succeeded.
pub record Io : Type 0 where
  pub written : ℕ
  pub succeeds : Bool

-- The first bytes of those that wait go to the file. After a failure the rest is lost, as the stream
-- takes nothing more.
unfoldable pub drain : ℕ → List ℕ → JournalWriter → JournalWriter
drain n pending w = record w {
  file = some (contents w.file ++ take n pending);
  buffer = drop n pending;
}

-- `Append`: the bytes of a record wait in the stream, which may write some of all that wait.
unfoldable pub append : Io → JournalEntryData → JournalWriter → JournalWriter × StatusCode
unfolding record_bytes drain
append io entry w =
    if not w.is_open
    then (w, k_io_error)
    else if w.stopped
    then (w, k_io_error)
    else let next = drain io.written (w.buffer ++ record_bytes entry) w in
      if io.succeeds
      then (next, k_ok)
      else (record next { buffer = []; stopped = true }, k_io_error)

-- `Flush`, which returns OK whatever the stream did. One that succeeds writes all that waits.
unfoldable pub flush : Io → JournalWriter → JournalWriter × StatusCode
unfolding drain
flush io w =
    if not w.is_open || w.stopped
    then (w, k_ok)
    else if io.succeeds
    then (drain (length w.buffer) w.buffer w, k_ok)
    else (record (drain io.written w.buffer w) { buffer = []; stopped = true }, k_ok)

-- `Close`, which writes what waits even after a failure of the stream.
unfoldable pub close : Io → JournalWriter → JournalWriter × StatusCode
unfolding drain
close io w =
    if not w.is_open
    then (w, k_ok)
    else let n = if io.succeeds then length w.buffer else io.written in
      (record (drain n w.buffer w) { buffer = []; is_open = false }, k_ok)

abbrev pub truncate : ℕ → JournalWriter → JournalWriter × StatusCode
truncate up_to_sequence w = (w, k_ok)
