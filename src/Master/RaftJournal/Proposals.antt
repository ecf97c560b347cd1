-- ===== src/Master/RaftJournal/Proposals.antt =====
-- What a leader's proposals write and commit.
use any_cache.Base.{
  ℕ, ◌≡◌, refl, ap, sym, ◌∙◌, true, false, some, List, [], ◌∷◌, ◌++◌, All, map, arith,
}
use mathlib.Core.List.{append_assoc, append-nil}
use any_cache.Common.Status.{StatusCode, k_ok}
use any_cache.Master.JournalWriter.{
  JournalEntryData, JournalWriter, Io, append, flush, drain, open_journal, open_stream,
  record_bytes, replay, contents,
}
use any_cache.Master.JournalWriter.Replays.{FitsRecord}
use any_cache.Master.JournalWriter.Histories.{journal_bytes, replay-entries}
use any_cache.Master.JournalWriter.Flushes.{whole, Works, append-Works, flush-Works}
use any_cache.Master.RaftJournal.{RaftJournal, k_leader, start, propose, propose_as, commit, stamp}

-- An entry at a time, and how many bytes its append gives to the file before the flush.
pub record Call : Type 0 where
  pub written : ℕ
  pub now : ℕ
  pub entry : JournalEntryData

abbrev pub appends : Call → Io
appends call = record { written = call.written; succeeds = true }

-- Proposals one after the other, whose writes succeed.
abbrev pub propose_all : List Call → RaftJournal → RaftJournal
propose_all [] r = r
propose_all (call ∷ calls) r =
    propose_all calls (propose call.now (appends call) whole call.entry r).0

abbrev pub stamp_all : ℕ → List Call → List JournalEntryData
stamp_all number [] = []
stamp_all number (call ∷ calls) = stamp number call.now call.entry ∷ stamp_all number calls

-- A leader whose writer is open, over a file of some bytes.
record Leads (bytes : List ℕ) (r : RaftJournal) : Type 0 where
  leader : r.role ≡ k_leader
  opened : r.journal_writer.is_open ≡ true
  works : r.journal_writer.stopped ≡ false
  file : r.journal_writer.file ≡ some bytes
  flushed : r.journal_writer.buffer ≡ []
  callback : r.has_callback ≡ true

abbrev after_propose : List ℕ → JournalEntryData → RaftJournal → RaftJournal
after_propose bytes e r = record r {
  journal_writer = record r.journal_writer { file = some (bytes ++ record_bytes e); buffer = [] };
  commit_index = e.sequence_number;
  last_applied = e.sequence_number;
  committed = r.committed ++ e ∷ [];
}

append_ok :
    (n : ℕ) (e : JournalEntryData) (w : JournalWriter)
    → w.is_open ≡ true
    → w.stopped ≡ false
    → append (record { written = n; succeeds = true }) e w
      ≡ (drain n (w.buffer ++ record_bytes e) w, k_ok)
unfolding append
append_ok n e w opened works = ground (arith, opened, works)

flush-append :
    (n : ℕ) (e : JournalEntryData) (bytes : List ℕ) (w : JournalWriter)
    → w.is_open ≡ true
    → w.stopped ≡ false
    → w.file ≡ some bytes
    → w.buffer ≡ []
    → (flush whole (append (record { written = n; succeeds = true }) e w).0).0
      ≡ record w { file = some (bytes ++ record_bytes e); buffer = [] }
unfolding drain
flush-append n e bytes w opened works file empty =
    let before : Works w bytes = record {
      opened = opened;
      works = works;
      holds =
          ap (λ f. contents f ++ w.buffer) file
          ∙ ap (λ (xs : List ℕ). bytes ++ xs) empty
          ∙ append-nil bytes;
    } in
    let io : Io = record { written = n; succeeds = true } in
    flush-Works (append io e w).0 (bytes ++ record_bytes e) (append-Works io e w bytes before refl)
    ∙ ap
        (λ (r : JournalWriter × StatusCode). record r.0 {
          file = some (bytes ++ record_bytes e);
          buffer = [];
        })
        (append_ok n e w opened works)

commit_ok :
    (io : Io) (e : JournalEntryData) (bytes : List ℕ) (a : JournalWriter × StatusCode)
    (r : RaftJournal)
    → a.1 ≡ k_ok
    → r.has_callback ≡ true
    → (flush io a.0).0
      ≡ record r.journal_writer { file = some (bytes ++ record_bytes e); buffer = [] }
    → commit io e a r ≡ (after_propose bytes e r, k_ok)
unfolding commit
commit_ok io e bytes (writer, status) r ok callback wrote = ground (arith, ok, callback, wrote)

propose-Leads :
    (bytes : List ℕ) (call : Call) (r : RaftJournal)
    → Leads bytes r
    → propose call.now (appends call) whole call.entry r
      ≡ (after_propose bytes (stamp r.journal_writer.next_seq call.now call.entry) r, k_ok)
unfolding propose
propose-Leads bytes call r lead =
    let e = stamp r.journal_writer.next_seq call.now call.entry in
    ap (λ role. propose_as role (appends call) whole e r) lead.leader
    ∙ commit_ok whole e bytes (append (appends call) e r.journal_writer) r
        (ap (λ (a : JournalWriter × StatusCode). a.1)
          (append_ok call.written e r.journal_writer lead.opened lead.works))
        lead.callback
        (flush-append call.written e bytes r.journal_writer lead.opened lead.works lead.file
          lead.flushed)

propose_all-Leads :
    (bytes : List ℕ) (calls : List Call) (r : RaftJournal)
    → Leads bytes r
    → ((propose_all calls r).journal_writer.file
        ≡ some (bytes ++ journal_bytes (stamp_all r.journal_writer.next_seq calls)))
      × ((propose_all calls r).committed ≡ r.committed ++ stamp_all r.journal_writer.next_seq calls)
propose_all-Leads bytes [] r lead =
    (lead.file ∙ ap some (sym (append-nil bytes)), sym (append-nil r.committed))
propose_all-Leads bytes (call ∷ calls) r lead =
    let e = stamp r.journal_writer.next_seq call.now call.entry in
    let step =
      ap (λ (x : RaftJournal × _). propose_all calls x.0) (propose-Leads bytes call r lead) in
    let next : Leads (bytes ++ record_bytes e) (after_propose bytes e r) = record {
      leader = lead.leader;
      opened = lead.opened;
      works = lead.works;
      file = refl;
      flushed = refl;
      callback = lead.callback;
    } in
    let (file, committed) = propose_all-Leads (bytes ++ record_bytes e) calls _ next in
    (
      ap (λ (x : RaftJournal). x.journal_writer.file) step
          ∙ file
          ∙ ap some (append_assoc bytes (record_bytes e) _),
      ap (λ (x : RaftJournal). x.committed) step ∙ committed ∙ append_assoc r.committed (e ∷ []) _,
    )

start-Leads :
    (junk : ℕ → ℕ) (bytes : List ℕ) (r : RaftJournal)
    → r.peers ≡ []
    → r.has_callback ≡ true
    → r.journal_writer.is_open ≡ false
    → r.journal_writer.file ≡ some bytes
    → Leads bytes (start junk true r).0 × ((start junk true r).0.committed ≡ r.committed)
unfolding start open_journal open_stream
start-Leads junk bytes r alone callback closed file = (
  record {
    leader = ground (arith, alone, closed);
    opened = ground (arith, alone, closed);
    works = ground (arith, alone, closed);
    file = ground (arith, alone, closed, file);
    flushed = ground (arith, alone, closed);
    callback = ground (arith, alone, closed, callback);
  },
  ground (arith, alone, closed),
)

-- A journal without peers that is opened over some whole entries, and then given proposals, replays
-- the old entries and then the proposed ones, in their order and each at its time, and has called
-- the callback with exactly the proposed ones. All these have the one sequence number that stood
-- when the journal was started. The journal was not open before and has a callback, the writes
-- succeed, and the entries fit their records.
pub replay-propose_all :
    (junk : ℕ → ℕ) (old : List JournalEntryData) (calls : List Call) (r : RaftJournal)
    → r.peers ≡ []
    → r.has_callback ≡ true
    → r.journal_writer.is_open ≡ false
    → r.journal_writer.file ≡ some (journal_bytes old)
    → All FitsRecord old
    → All FitsRecord (stamp_all (start junk true r).0.journal_writer.next_seq calls)
    → (replay (propose_all calls (start junk true r).0).journal_writer.file
        ≡ some (map some (old ++ stamp_all (start junk true r).0.journal_writer.next_seq calls)))
      × ((propose_all calls (start junk true r).0).committed
          ≡ r.committed ++ stamp_all (start junk true r).0.journal_writer.next_seq calls)
replay-propose_all junk old calls r alone callback closed file old_fit new_fit =
    let (lead, same) = start-Leads junk (journal_bytes old) r alone callback closed file in
    let (wrote, committed) = propose_all-Leads (journal_bytes old) calls _ lead in
    let new = stamp_all (start junk true r).0.journal_writer.next_seq calls in
    (
      ap replay wrote ∙ replay-entries old new old_fit new_fit,
      committed ∙ ap (λ (xs : List JournalEntryData). xs ++ new) same,
    )
