-- ===== src/Master/JournalWriter/Flushes.antt =====
-- What is on disk after appends, flushes and crashes.
use any_cache.Base.{
  ℕ, zero, suc, ◌≤◌, ◌<◌, ◌≡◌, refl, ap, sym, subst, ◌∙◌, ◌⊎◌, inl, inr, true, false, Option, none,
  some, List, [], ◌∷◌, ◌++◌, All, map, take, drop, length, take-append, drop-append, Bool-cases,
  ltb, arith,
}
use mathlib.Core.List.{append_assoc, append-nil}
use any_cache.Common.Status.{StatusCode, k_ok}
use any_cache.Master.JournalWriter.{
  JournalEntryData, JournalWriter, Io, contents, drain, append, flush, record_bytes, replay,
  replay_loop, replay_turn, stops,
}
use any_cache.Master.JournalWriter.Replays.{FitsRecord}
use any_cache.Master.JournalWriter.Histories.{
  journal_bytes, append-journal_bytes, All-append, no_entry, length-record_bytes,
  replay-journal_bytes,
}

abbrev pub Call : Type 0
Call = Io × JournalEntryData

abbrev pub entries_of : List Call → List JournalEntryData
entries_of calls = map (λ (call : Call). call.1) calls

-- Appends one after the other, each with what the stream gives the file in it.
abbrev pub append_all : List Call → JournalWriter → JournalWriter
append_all [] w = w
append_all ((io, e) ∷ calls) w = append_all calls (append io e w).0

abbrev pub AllSucceed : List Call → Type 0
AllSucceed calls = All (λ (call : Call). call.0.succeeds ≡ true) calls

abbrev pub whole : Io
whole = record { written = 0; succeeds = true }

take-drop : (n : ℕ) (xs : List ℕ) → take n xs ++ drop n xs ≡ xs
take-drop zero xs = refl
take-drop (suc n) [] = refl
take-drop (suc n) (x ∷ xs) = ap (λ ys. x ∷ ys) (take-drop n xs)

-- A writer that is open and works, with the bytes of the file and of the stream.
pub record Works (w : JournalWriter) (bytes : List ℕ) : Type 0 where
  pub opened : w.is_open ≡ true
  pub works : w.stopped ≡ false
  pub holds : contents w.file ++ w.buffer ≡ bytes

append_step :
    (io : Io) (e : JournalEntryData) (w : JournalWriter)
    → w.is_open ≡ true
    → w.stopped ≡ false
    → io.succeeds ≡ true
    → append io e w ≡ (drain io.written (w.buffer ++ record_bytes e) w, k_ok)
unfolding append
append_step io e w opened works fine = ground (arith, opened, works, fine)

pub append-Works :
    (io : Io) (e : JournalEntryData) (w : JournalWriter) (bytes : List ℕ)
    → Works w bytes
    → io.succeeds ≡ true
    → Works (append io e w).0 (bytes ++ record_bytes e)
unfolding drain
append-Works io e w bytes k fine =
    let step = append_step io e w k.opened k.works fine in
    let pending = w.buffer ++ record_bytes e in
    subst (λ (r : JournalWriter × StatusCode). Works r.0 (bytes ++ record_bytes e)) (sym step)
      (record {
        opened = k.opened;
        works = k.works;
        holds =
            append_assoc (contents w.file) (take io.written pending) (drop io.written pending)
            ∙ ap (λ (xs : List ℕ). contents w.file ++ xs) (take-drop io.written pending)
            ∙ sym (append_assoc (contents w.file) w.buffer (record_bytes e))
            ∙ ap (λ (xs : List ℕ). xs ++ record_bytes e) k.holds;
      })

append_all-Works :
    (calls : List Call) (w : JournalWriter) (bytes : List ℕ)
    → Works w bytes
    → AllSucceed calls
    → Works (append_all calls w) (bytes ++ journal_bytes (entries_of calls))
append_all-Works [] w bytes k fine = subst (Works w) (sym (append-nil bytes)) k
append_all-Works ((io, e) ∷ calls) w bytes k fine =
    subst (Works (append_all calls (append io e w).0))
      (append_assoc bytes (record_bytes e) (journal_bytes (entries_of calls)))
      (append_all-Works calls (append io e w).0 (bytes ++ record_bytes e)
        (append-Works io e w bytes k fine.0) fine.1)

take_all : (xs : List ℕ) → take (length xs) xs ≡ xs
take_all [] = refl
take_all (x ∷ xs) = ap (λ ys. x ∷ ys) (take_all xs)

drop_all : (xs : List ℕ) → drop (length xs) xs ≡ []
drop_all [] = refl
drop_all (x ∷ xs) = drop_all xs

-- A flush that succeeds leaves all of it in the file.
pub flush-Works :
    (w : JournalWriter) (bytes : List ℕ)
    → Works w bytes
    → (flush whole w).0 ≡ record w { file = some bytes; buffer = [] }
unfolding flush drain
flush-Works w bytes k =
    let all : contents w.file ++ take (length w.buffer) w.buffer ≡ bytes =
      ap (λ (xs : List ℕ). contents w.file ++ xs) (take_all w.buffer) ∙ k.holds in
    ground (arith, k.opened, k.works, all, drop_all w.buffer)

-- The file after any appends behind some bytes on disk: a first part of the bytes appended. A stream
-- that works holds the other part.
record Extended (base : List ℕ) (acc : List JournalEntryData) (w : JournalWriter) : Type 0 where
  got : List ℕ
  rest : List ℕ
  on_disk : contents w.file ≡ base ++ got
  split : got ++ rest ≡ journal_bytes acc
  opened : w.is_open ≡ true
  stream : (w.stopped ≡ true) ⊎ ((w.stopped ≡ false) × (w.buffer ≡ rest))

append_stopped :
    (io : Io) (e : JournalEntryData) (w : JournalWriter)
    → w.is_open ≡ true
    → w.stopped ≡ true
    → (append io e w).0 ≡ w
unfolding append
append_stopped io e w opened stops_ = ground (arith, opened, stops_)

append_fails :
    (io : Io) (e : JournalEntryData) (w : JournalWriter)
    → w.is_open ≡ true
    → w.stopped ≡ false
    → io.succeeds ≡ false
    → (append io e w).0
      ≡ record (drain io.written (w.buffer ++ record_bytes e) w) { buffer = []; stopped = true }
unfolding append
append_fails io e w opened works bad = ground (arith, opened, works, bad)

journal_bytes-last :
    (acc : List JournalEntryData) (e : JournalEntryData)
    → journal_bytes (acc ++ e ∷ []) ≡ journal_bytes acc ++ record_bytes e
journal_bytes-last acc e =
    append-journal_bytes acc (e ∷ [])
    ∙ ap (λ (xs : List ℕ). journal_bytes acc ++ xs) (append-nil (record_bytes e))

append-Extended :
    (io : Io) (e : JournalEntryData) (base : List ℕ) (acc : List JournalEntryData)
    (w : JournalWriter)
    → Extended base acc w
    → Extended base (acc ++ e ∷ []) (append io e w).0
unfolding drain
append-Extended io e base acc w x = elim x.stream [
  | inl halted ↦
      subst (Extended base (acc ++ e ∷ [])) (sym (append_stopped io e w x.opened halted)) (record {
        got = x.got;
        rest = x.rest ++ record_bytes e;
        on_disk = x.on_disk;
        split = more x.rest x.split;
        opened = x.opened;
        stream = inl halted;
      })
  | inr (works, same) ↦ elim (Bool-cases io.succeeds) [
    | inl fine ↦
        subst (λ (r : JournalWriter × StatusCode). Extended base (acc ++ e ∷ []) r.0)
          (sym (append_step io e w x.opened works fine))
          (record {
            got = x.got ++ take io.written pending;
            rest = drop io.written pending;
            on_disk = disk;
            split = moved same;
            opened = x.opened;
            stream = inr (works, refl);
          })
    | inr bad ↦
        subst (Extended base (acc ++ e ∷ [])) (sym (append_fails io e w x.opened works bad))
          (record {
            got = x.got ++ take io.written pending;
            rest = drop io.written pending;
            on_disk = disk;
            split = moved same;
            opened = x.opened;
            stream = inl refl;
          })
  ]
]
  where
    pending : List ℕ
    pending = w.buffer ++ record_bytes e

    more :
        (rest : List ℕ)
        → x.got ++ rest ≡ journal_bytes acc
        → x.got ++ (rest ++ record_bytes e) ≡ journal_bytes (acc ++ e ∷ [])
    more rest split =
        sym (append_assoc x.got rest (record_bytes e))
        ∙ ap (λ (xs : List ℕ). xs ++ record_bytes e) split
        ∙ sym (journal_bytes-last acc e)

    disk :
        contents w.file ++ take io.written (w.buffer ++ record_bytes e)
        ≡ base ++ (x.got ++ take io.written (w.buffer ++ record_bytes e))
    disk =
        ap (λ (xs : List ℕ). xs ++ take io.written (w.buffer ++ record_bytes e)) x.on_disk
        ∙ append_assoc base x.got (take io.written (w.buffer ++ record_bytes e))

    moved :
        (same : w.buffer ≡ x.rest)
        → (x.got ++ take io.written (w.buffer ++ record_bytes e))
            ++ drop io.written (w.buffer ++ record_bytes e)
          ≡ journal_bytes (acc ++ e ∷ [])
    moved same =
        append_assoc x.got (take io.written (w.buffer ++ record_bytes e)) _
        ∙ ap (λ (xs : List ℕ). x.got ++ xs) (take-drop io.written (w.buffer ++ record_bytes e))
        ∙ ap (λ (xs : List ℕ). x.got ++ (xs ++ record_bytes e)) same
        ∙ more x.rest x.split

append_all-Extended :
    (calls : List Call) (base : List ℕ) (acc : List JournalEntryData) (w : JournalWriter)
    → Extended base acc w
    → Extended base (acc ++ entries_of calls) (append_all calls w)
append_all-Extended [] base acc w x = subst (λ es. Extended base es w) (sym (append-nil acc)) x
append_all-Extended ((io, e) ∷ calls) base acc w x =
    subst (λ es. Extended base es (append_all calls (append io e w).0))
      (append_assoc acc (e ∷ []) (entries_of calls))
      (append_all-Extended calls base (acc ++ e ∷ []) (append io e w).0
        (append-Extended io e base acc w x))

-- A first part of the bytes of some entries is that of some whole ones and of a part of the next.
record Cut (acc : List JournalEntryData) (got : List ℕ) : Type 0 where
  count : ℕ
  torn : JournalEntryData
  k : ℕ
  same : got ≡ journal_bytes (take count acc) ++ take k (record_bytes torn)
  fits : FitsRecord torn
  short : k < length (record_bytes torn)

take_within : (xs ys zs : List ℕ) (n : ℕ) → xs ≡ ys ++ zs → n ≤ length ys → take n xs ≡ take n ys
take_within xs ys zs zero h le = refl
take_within xs [] zs (suc n) h le = absurd (omega arith)
take_within [] (y ∷ ys) zs (suc n) h le = absurd (ground (arith, h))
take_within (x ∷ xs) (y ∷ ys) zs (suc n) h le =
    let same : x ≡ y = ground (arith, h) in
    let others : xs ≡ ys ++ zs = ground (arith, h) in
    cc (same, take_within xs ys zs n others (omega arith))

drop_within :
    (xs ys zs : List ℕ) (n : ℕ) → xs ≡ ys ++ zs → n ≤ length ys → drop n xs ≡ drop n ys ++ zs
drop_within xs ys zs zero h le = h
drop_within xs [] zs (suc n) h le = absurd (omega arith)
drop_within [] (y ∷ ys) zs (suc n) h le = absurd (ground (arith, h))
drop_within (x ∷ xs) (y ∷ ys) zs (suc n) h le =
    let others : xs ≡ ys ++ zs = ground (arith, h) in drop_within xs ys zs n others (omega arith)

no_entry-FitsRecord : FitsRecord no_entry
no_entry-FitsRecord = record {
  sequence = omega arith;
  time = omega arith;
  kind = omega arith;
  short = omega arith;
}

nil_cut : (got rest : List ℕ) → got ++ rest ≡ [] → got ≡ []
nil_cut [] rest h = refl
nil_cut (x ∷ xs) rest h = absurd (ground (arith, h))

cut_lem :
    (acc : List JournalEntryData) (got rest : List ℕ)
    → All FitsRecord acc
    → got ++ rest ≡ journal_bytes acc
    → Cut acc got
cut_lem [] got rest fits h = record {
  count = 0;
  torn = no_entry;
  k = 0;
  same = nil_cut got rest h;
  fits = no_entry-FitsRecord;
  short = omega (arith, length-record_bytes no_entry);
}
cut_lem (e ∷ acc) got rest fits h = elim (Bool-cases (ltb (length got) (length (record_bytes e)))) [
  | inl torn ↦ record {
    count = 0;
    torn = e;
    k = length got;
    same =
        sym (take-append got rest)
        ∙ take_within (got ++ rest) (record_bytes e) (journal_bytes acc) (length got) h
            (ground (arith, torn));
    fits = fits.0;
    short = ground (arith, torn);
  }
  | inr complete ↦
      let n = length (record_bytes e) in
      let long : n ≤ length got = ground (arith, complete) in
      let first : take n got ≡ record_bytes e =
        sym (take_within (got ++ rest) got rest n refl long)
        ∙ ap (λ (xs : List ℕ). take n xs) h
        ∙ take-append (record_bytes e) (journal_bytes acc) in
      let others : drop n got ++ rest ≡ journal_bytes acc =
        sym (drop_within (got ++ rest) got rest n refl long)
        ∙ ap (λ (xs : List ℕ). drop n xs) h
        ∙ drop-append (record_bytes e) (journal_bytes acc) in
      let c = cut_lem acc (drop n got) rest fits.1 others in
      record {
        count = suc c.count;
        torn = c.torn;
        k = c.k;
        same =
            sym (take-drop n got)
            ∙ ap (λ (xs : List ℕ). xs ++ drop n got) first
            ∙ ap (λ (xs : List ℕ). record_bytes e ++ xs) c.same
            ∙ sym (append_assoc (record_bytes e) (journal_bytes (take c.count acc)) _);
        fits = c.fits;
        short = c.short;
      }
]

-- No file replays as an empty one.
replay-contents : (file : Option (List ℕ)) → replay (some (contents file)) ≡ replay file
unfolding replay replay_loop replay_turn stops
replay-contents none = ground arith
replay-contents (some file) = refl

All-take :
    (P : JournalEntryData → Type 0) (n : ℕ) (es : List JournalEntryData)
    → All P es
    → All P (take n es)
All-take P zero es all = tt
All-take P (suc n) [] all = tt
All-take P (suc n) (e ∷ es) all = (all.0, All-take P n es all.1)

-- Entries that are appended to an empty journal and then flushed are on disk: a crash after any
-- further appends, whatever each of these wrote and whether it failed, leaves a file that replays as
-- exactly the flushed entries and then some first ones of the others, each in whole and all in their
-- order. The journal is open and works, the appends before the flush and the flush succeed, and all
-- entries fit their fields and the bound of a record.
pub replay-flush :
    (first later : List Call) (w : JournalWriter)
    → Works w []
    → AllSucceed first
    → All FitsRecord (entries_of first)
    → All FitsRecord (entries_of later)
    → (count : ℕ) × (replay (append_all later (flush whole (append_all first w)).0).file
        ≡ some (map some (entries_of first ++ take count (entries_of later))))
replay-flush first later w empty fine first_fit later_fit =
    let base = journal_bytes (entries_of first) in
    let working = append_all-Works first w [] empty fine in
    let flushed = flush-Works (append_all first w) base working in
    let begun : Extended base [] (flush whole (append_all first w)).0 =
      subst (Extended base []) (sym flushed) (record {
        got = [];
        rest = [];
        on_disk = sym (append-nil base);
        split = refl;
        opened = working.opened;
        stream = inr (working.works, refl);
      }) in
    let x = append_all-Extended later base [] (flush whole (append_all first w)).0 begun in
    let c = cut_lem (entries_of later) x.got x.rest later_fit x.split in
    let taken = take c.count (entries_of later) in
    let file : contents (append_all later (flush whole (append_all first w)).0).file
        ≡ journal_bytes (entries_of first ++ taken) ++ take c.k (record_bytes c.torn) =
      x.on_disk
      ∙ ap (λ (xs : List ℕ). base ++ xs) c.same
      ∙ sym (append_assoc base (journal_bytes taken) _)
      ∙ ap (λ (xs : List ℕ). xs ++ take c.k (record_bytes c.torn))
          (sym (append-journal_bytes (entries_of first) taken)) in
    (
      c.count,
      sym (replay-contents (append_all later (flush whole (append_all first w)).0).file)
          ∙ ap (λ (xs : List ℕ). replay (some xs)) file
          ∙ replay-journal_bytes (entries_of first ++ taken) c.torn c.k
              (All-append FitsRecord (entries_of first) taken first_fit
                (All-take FitsRecord c.count (entries_of later) later_fit))
              c.fits c.short,
    )
