-- ===== src/Master/RaftJournal/Roles.antt =====
-- A journal with peers never leads.
use any_cache.Base.{subst, sym, ℕ, ◌≡◌, refl, Bool, Option, List, [], ◌∷◌, arith}
use any_cache.Common.Status.{k_unavailable}
use any_cache.Master.JournalWriter.{JournalEntryData, Io, open_journal, open_stream}
use any_cache.Master.RaftJournal.{
  RaftJournal, k_follower, new_journal, set_commit_callback, start, stop, propose, election_turn,
}

-- The journals that calls and turns of the election thread lead to.
pub data Reach (first : RaftJournal) : RaftJournal → Type 0 where
  at_first : Reach first first
  registered : {r : RaftJournal} → Reach first r → Reach first (set_commit_callback r)
  started :
      {r : RaftJournal} (junk : ℕ → ℕ) (opens : Bool)
      → Reach first r
      → Reach first (start junk opens r).0
  stopped : {r : RaftJournal} (io : Io) → Reach first r → Reach first (stop io r)
  proposed :
      {r : RaftJournal} (now : ℕ) (appends flushes : Io) (e : JournalEntryData)
      → Reach first r
      → Reach first (propose now appends flushes e r).0
  waited : {r : RaftJournal} → Reach first r → Reach first (election_turn r)

record Follows (peer : List ℕ) (peers : List (List ℕ)) (r : RaftJournal) : Type 0 where
  among : r.peers ≡ peer ∷ peers
  follower : r.role ≡ k_follower
  first_term : r.current_term ≡ 0
  nothing : r.committed ≡ []

start-Follows :
    (peer : List ℕ) (peers : List (List ℕ)) (junk : ℕ → ℕ) (opens : Bool) (r : RaftJournal)
    → Follows peer peers r
    → Follows peer peers (start junk opens r).0
unfolding start open_journal open_stream
start-Follows peer peers junk opens r f = record {
  among = ground (arith, f.among);
  follower = ground (arith, f.among, f.follower);
  first_term = ground (arith, f.among, f.first_term);
  nothing = ground (arith, f.among, f.nothing);
}

propose-Follows :
    (peer : List ℕ) (peers : List (List ℕ)) (now : ℕ) (appends flushes : Io) (e : JournalEntryData)
    (r : RaftJournal)
    → Follows peer peers r
    → propose now appends flushes e r ≡ (r, k_unavailable)
unfolding propose
propose-Follows peer peers now appends flushes e r f = ground (arith, f.follower)

election_turn-Follows :
    (peer : List ℕ) (peers : List (List ℕ)) (r : RaftJournal)
    → Follows peer peers r
    → election_turn r ≡ r
unfolding election_turn
election_turn-Follows peer peers r f = ground (arith, f.follower, f.among)

Reach-Follows :
    (peer : List ℕ) (peers : List (List ℕ)) (file : Option (List ℕ)) (r : RaftJournal)
    → Reach (new_journal (peer ∷ peers) file) r
    → Follows peer peers r
unfolding stop
Reach-Follows peer peers file _ at_first = record {
  among = refl;
  follower = refl;
  first_term = refl;
  nothing = refl;
}
Reach-Follows peer peers file _ (registered {r} reach) =
    let f = Reach-Follows peer peers file r reach in
    record {
      among = f.among;
      follower = f.follower;
      first_term = f.first_term;
      nothing = f.nothing;
    }
Reach-Follows peer peers file _ (started {r} junk opens reach) =
    start-Follows peer peers junk opens r (Reach-Follows peer peers file r reach)
Reach-Follows peer peers file _ (stopped {r} io reach) =
    let f = Reach-Follows peer peers file r reach in
    record {
      among = f.among;
      follower = f.follower;
      first_term = f.first_term;
      nothing = f.nothing;
    }
Reach-Follows peer peers file _ (proposed {r} now appends flushes e reach) =
    let f = Reach-Follows peer peers file r reach in
    subst (λ (x : RaftJournal × _). Follows peer peers x.0)
      (sym (propose-Follows peer peers now appends flushes e r f)) f
Reach-Follows peer peers file _ (waited {r} reach) =
    let f = Reach-Follows peer peers file r reach in
    subst (Follows peer peers) (sym (election_turn-Follows peer peers r f)) f

-- A journal with peers refuses every proposal, without a change, and has committed nothing, after
-- whatever calls and turns of its election thread: its election never makes it a leader.
pub propose-Reach :
    (peer : List ℕ) (peers : List (List ℕ)) (file : Option (List ℕ)) (r : RaftJournal) (now : ℕ)
    (appends flushes : Io) (e : JournalEntryData)
    → Reach (new_journal (peer ∷ peers) file) r
    → (propose now appends flushes e r ≡ (r, k_unavailable))
      × ((r.committed ≡ []) × (r.current_term ≡ 0))
propose-Reach peer peers file r now appends flushes e reach =
    let f = Reach-Follows peer peers file r reach in
    (propose-Follows peer peers now appends flushes e r f, (f.nothing, f.first_term))
