-- ===== src/Master/RaftJournal.antt =====
-- `RaftJournal` of src/master/journal/raft_journal.{h,cpp}. The clock is an argument, the calls of
-- the commit callback are a list, and the turns of the election thread are calls of their own. The
-- thread of heartbeats only logs.
pub mod Proposals
pub mod Roles
mod Tests
use any_cache.Base.{
  ℕ, ◌+◌, Bool, true, false, ◌&&◌, Option, none, some, List, [], ◌∷◌, ◌++◌, if◌then◌else◌, ◌+u64◌,
}
use any_cache.Common.Status.{StatusCode, k_ok, k_unavailable, is_ok}
use any_cache.Master.JournalWriter.{
  JournalEntryData, JournalWriter, Io, new_writer, open_journal, close, append, flush,
}

pub data Role : Type 0 where
  k_follower : Role
  k_candidate : Role
  k_leader : Role

pub record RaftJournal : Type 0 where
  pub peers : List (List ℕ)
  pub journal_writer : JournalWriter
  pub role : Role
  pub current_term : ℕ
  pub commit_index : ℕ
  pub last_applied : ℕ
  pub has_callback : Bool
  pub committed : List JournalEntryData
  pub running : Bool

-- A journal that is not started, over the file in its directory.
abbrev pub new_journal : List (List ℕ) → Option (List ℕ) → RaftJournal
new_journal peers file = record {
  peers = peers;
  journal_writer = new_writer file;
  role = k_follower;
  current_term = 0;
  commit_index = 0;
  last_applied = 0;
  has_callback = false;
  committed = [];
  running = false;
}

abbrev pub set_commit_callback : RaftJournal → RaftJournal
set_commit_callback r = record r { has_callback = true }

-- What `Start` does once the writer is open: a journal without peers leads.
abbrev pub start_role : List (List ℕ) → RaftJournal → RaftJournal
start_role [] r = record r { running = true; role = k_leader; current_term = 1 }
start_role (peer ∷ peers) r = record r { running = true; role = k_follower }

-- `Start`, with what uninitialised entries read as and whether the journal file could be opened for
-- appending.
unfoldable pub start : (ℕ → ℕ) → Bool → RaftJournal → RaftJournal × StatusCode
start junk opens r =
    let (writer, status) = open_journal junk opens r.journal_writer in
    let opened : RaftJournal = record r { journal_writer = writer } in
    if is_ok status then (start_role r.peers opened, k_ok) else (opened, status)

unfoldable pub stop : Io → RaftJournal → RaftJournal
stop io r = record r { running = false; journal_writer = (close io r.journal_writer).0 }

-- The entry that `Propose` writes.
abbrev pub stamp : ℕ → ℕ → JournalEntryData → JournalEntryData
stamp number now entry = record entry { sequence_number = number; timestamp_ms = now }

-- What `Propose` does with the answer of `Append`: `Flush` returns OK whatever it wrote.
unfoldable pub commit :
    Io → JournalEntryData → JournalWriter × StatusCode → RaftJournal → RaftJournal × StatusCode
commit io e (writer, status) r =
    if is_ok status
    then (
      record r {
        journal_writer = (flush io writer).0;
        commit_index = e.sequence_number;
        last_applied = e.sequence_number;
        committed = if r.has_callback then r.committed ++ e ∷ [] else r.committed;
      },
      k_ok,
    )
    else (record r { journal_writer = writer }, status)

abbrev pub propose_as : Role → Io → Io → JournalEntryData → RaftJournal → RaftJournal × StatusCode
propose_as k_follower appends flushes e r = (r, k_unavailable)
propose_as k_candidate appends flushes e r = (r, k_unavailable)
propose_as k_leader appends flushes e r = commit flushes e (append appends e r.journal_writer) r

-- `Propose` at a time, with what its append and its flush write.
unfoldable pub propose : ℕ → Io → Io → JournalEntryData → RaftJournal → RaftJournal × StatusCode
propose now appends flushes entry r =
    propose_as r.role appends flushes (stamp r.journal_writer.next_seq now entry) r

-- The body of the loop in `ElectionLoop` for a follower.
abbrev pub elect_as : Role → List (List ℕ) → RaftJournal → RaftJournal
elect_as k_follower [] r = record r { role = k_leader; current_term = r.current_term +u64 1 }
elect_as k_follower (peer ∷ peers) r = r
elect_as k_candidate peers r = r
elect_as k_leader peers r = r

-- One turn of `ElectionLoop`, after its sleep.
unfoldable pub election_turn : RaftJournal → RaftJournal
election_turn r = if r.running then elect_as r.role r.peers r else r
