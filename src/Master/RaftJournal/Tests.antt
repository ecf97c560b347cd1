-- ===== src/Master/RaftJournal/Tests.antt =====
-- A journal that starts alone over an empty file, and one with a peer.
use any_cache.Base.{ℕ, ◌≡◌, refl, true, none, some, List, [], ◌∷◌, ◌++◌, All, map, arith}
use any_cache.Common.Status.{k_unavailable}
use any_cache.Master.JournalWriter.{JournalEntryData, open_journal, open_stream, replay}
use any_cache.Master.JournalWriter.Flushes.{whole}
use any_cache.Master.JournalWriter.Replays.{FitsRecord}
use any_cache.Master.RaftJournal.{
  RaftJournal, new_journal, set_commit_callback, start, propose, election_turn,
}
use any_cache.Master.RaftJournal.Proposals.{Call, propose_all, stamp_all, replay-propose_all}
use any_cache.Master.RaftJournal.Roles.{at_first, started, waited, propose-Reach}

abbrev entry : JournalEntryData
entry = record { sequence_number = 0; timestamp_ms = 0; kind = 2; payload = 7 ∷ [] }

abbrev calls : List Call
calls =
    record { written = 3; now = 1000; entry = entry }
    ∷ record { written = 0; now = 1001; entry = entry }
    ∷ []

-- What uninitialised numbers read as.
abbrev junk : ℕ → ℕ
junk n = 0

abbrev alone : RaftJournal
alone = set_commit_callback (new_journal [] (some []))

abbrev leader : RaftJournal
leader = (start junk true alone).0

next_one : leader.journal_writer.next_seq ≡ 1
unfolding start open_journal open_stream replay
next_one = refl

calls_fit : All FitsRecord (stamp_all leader.journal_writer.next_seq calls)
calls_fit = (
  record {
    sequence = omega (arith, next_one);
    time = omega arith;
    kind = omega arith;
    short = omega arith;
  },
  (
    record {
      sequence = omega (arith, next_one);
      time = omega arith;
      kind = omega arith;
      short = omega arith;
    },
    tt,
  ),
)

replay-propose_all_example :
    (replay (propose_all calls leader).journal_writer.file
      ≡ some (map some ([] ++ stamp_all leader.journal_writer.next_seq calls)))
    × ((propose_all calls leader).committed
        ≡ alone.committed ++ stamp_all leader.journal_writer.next_seq calls)
replay-propose_all_example = replay-propose_all junk [] calls alone refl refl refl refl tt calls_fit

abbrev with_peer : RaftJournal
with_peer = new_journal ((49 ∷ []) ∷ []) none

abbrev waiting : RaftJournal
waiting = election_turn (start junk true with_peer).0

propose-Reach_example :
    (propose 1000 whole whole entry waiting ≡ (waiting, k_unavailable))
    × ((waiting.committed ≡ []) × (waiting.current_term ≡ 0))
propose-Reach_example =
    propose-Reach (49 ∷ []) [] none waiting 1000 whole whole entry
      (waited (started junk true at_first))
