-- ===== src/Write/Group.antt =====
-- crates/fluent31/src/db.rs: `apply_group_locked`, phase by phase. A batch in flight goes by its index,
-- with its base and its operations, its events last.
pub mod Twin
mod Open
mod Indices
mod Phases
pub mod Filled
use fluent.Prelude.{
  ℕ, zero, suc, ◌+◌, ◌-◌, ◌==◌, ltb, leb, if◌then◌else◌, Bool, true, false, ◌&&◌, ◌||◌, not, List,
  [], ◌∷◌, ◌++◌, length, get_elem?, set, Option, none, some,
}
use fluent.Result.{Result, ok, err, Error, io, invalid_argument}
use fluent.Types.{max_seqno}
use fluent.Batch.{BatchOp, EncEntry, encode_batch}
use fluent.Memtable.Skiplist.{SkipMap}
use fluent.Write.{
  Disk, Options, Db, max_batch, approx_size, is_nil, capture_events, place_ops, sync_placed,
  append_record, sync_log, insert_batch, publish, rotate, notify_triggers, last_seqno, degrading,
  set_bg_error,
}

abbrev pub Results : Type 0
Results = List (Option (Result (Unit {0})))

pub record Accepted : Type 0 where
  pub index : ℕ
  pub base : ℕ
  pub ops : List BatchOp
  pub has_events : Bool

-- A batch with its entries.
pub record Placed : Type 0 where
  pub index : ℕ
  pub base : ℕ
  pub entries : List EncEntry

-- "aborted": the writes of the batch were not applied.
abbrev pub aborted : Error
aborted = io

abbrev pub fill : ℕ → Result (Unit {0}) → Results → Results
fill i r results = set results i (some r)

abbrev pub is_unfilled : Option (Option (Result (Unit {0}))) → Bool
is_unfilled (some none) = true
is_unfilled _ = false

unfoldable pub fail_tail : Results → List Accepted → Results
fail_tail results [] = results
fail_tail results (a ∷ tail) =
    fail_tail
      (if is_unfilled (get_elem? results a.index)
        then fill a.index (err aborted) results
        else results)
      tail

-- The batches behind the one with this index; none where it is not among them.
unfoldable pub from_tail : ℕ → List Accepted → List Accepted
from_tail i [] = []
from_tail i (a ∷ rest) = let later = from_tail i rest in if a.index == i then rest else later

-- The batches of a group that a sync failed: the first gets its error.
unfoldable pub fail_batches : Error → List Placed → Results → Results
fail_batches e [] results = results
fail_batches e (p ∷ ps) results = fail_batches aborted ps (fill p.index (err e) results)

module _ (disk : Disk) (m : SkipMap) (crc32 : List ℕ → ℕ) (opts : Options)
    (capture_ops : List BatchOp → ℕ → List BatchOp) where
  abbrev pub Store : Type 0
  Store = Db disk m crc32 opts capture_ops

  abbrev pub Batch : Type 0
  Batch = List BatchOp × Bool

  -- Phase 0: a batch that is refused consumes no sequence numbers.
  unfoldable pub accept : ℕ → ℕ → List Batch → List Accepted × Results
  unfolding capture_events
  accept i next [] = ([], [])
  accept i next ((ops, capture) ∷ batches) =
      let events = capture_events disk m crc32 opts capture_ops ops next capture in
      let all = ops ++ events in
      let refused : List Accepted × Results =
        let (accepted, results) = accept (suc i) next batches in
        (accepted, some (err invalid_argument) ∷ results) in
      let taken : List Accepted × Results =
        let (accepted, results) = accept (suc i) (next + length all) batches in
        (
          record { index = i; base = next; ops = all; has_events = not (is_nil events) } ∷ accepted,
          none ∷ results,
        ) in
      if leb max_batch (approx_size all)
      then refused
      else if leb max_seqno (next + length all)
      then refused
      else taken

  -- What a phase leaves: the batches that go on, the results, and whether a hard failure was met.
  pub record Phase : Type 0 where
    pub going : List Placed
    pub any_vlog : Bool
    pub results : Results
    pub hard_failure : Bool
    pub db : Store

  abbrev pub stopped : Bool → Bool → Results → Store → Phase
  stopped hard any_vlog results db = record {
    going = [];
    any_vlog = any_vlog;
    results = results;
    hard_failure = hard;
    db = db;
  }

  abbrev pub before : Placed → Bool → Phase → Phase
  before p in_vlog phase = record phase {
    going = p ∷ phase.going;
    any_vlog = in_vlog || phase.any_vlog;
  }

  -- Phase 1: large values go to the value log, up to the first failure, which only its append meets.
  unfoldable pub place_group : List Accepted → Results → Store → Phase
  place_group [] results db = stopped false false results db
  place_group (a ∷ rest) results db =
      let (r, db1) = place_ops disk m crc32 opts capture_ops db a.ops in
      elim r [
        | err e ↦ stopped true true (fail_tail (fill a.index (err e) results) rest) db1
        | ok (entries, in_vlog) ↦
            before (record { index = a.index; base = a.base; entries = entries }) in_vlog
              (place_group rest results db1)
      ]

  -- Phase 3: a record in the log for each batch, up to the first failure.
  unfoldable pub append_group : List Accepted → List Placed → Results → Store → Phase
  append_group accepted [] results db = stopped false false results db
  append_group accepted (p ∷ ps) results db =
      let payload = encode_batch p.base p.entries in
      let failed =
        λ (e : Error). fail_tail (fill p.index (err e) results) (from_tail p.index accepted) in
      let appended : Phase =
        let (r, db1) =
          degrading disk m crc32 opts capture_ops
            (append_record disk m crc32 opts capture_ops db payload) in
        elim r [
          | err e ↦ stopped true false (failed e) db1
          | ok _ ↦ before p false (append_group accepted ps results db1)
        ] in
      if leb max_batch (length payload)
      then stopped false false (failed invalid_argument) db
      else appended

  -- Phase 5, for each batch: memtable inserts and its result, then the publication.
  unfoldable pub insert_group : List Placed → Results → Store → Results × Store
  unfolding insert_batch
  insert_group [] results db = (results, db)
  insert_group (p ∷ ps) results db =
      insert_group ps (fill p.index (ok tt) results)
        (insert_batch disk m crc32 opts capture_ops db p.base p.entries)

  unfoldable pub publish_group : List Placed → Store → Store
  publish_group [] db = db
  publish_group (p ∷ ps) db =
      publish_group ps (publish disk m crc32 opts capture_ops db p.base p.entries)

  abbrev pub last_of : Placed → List Placed → Placed
  last_of p [] = p
  last_of p (q ∷ ps) = last_of q ps

  unfoldable pub any_events : List Accepted → Bool
  any_events [] = false
  any_events (a ∷ rest) = a.has_events || any_events rest

  -- Phases 5 and 6, where a batch was appended; nothing is sealed behind a torn record.
  unfoldable pub finish_group :
      List Accepted → List Placed → Bool → Results → Store → Results × Store
  unfolding insert_group publish_group any_events rotate
  finish_group accepted [] hard results db = (results, db)
  finish_group accepted (p ∷ ps) hard results db =
      let (results', db1) = insert_group (p ∷ ps) results db in
      let last = last_of p ps in
      let db2 = record db1 {
        visible_seqno = last_seqno disk m crc32 opts capture_ops last.base last.entries;
      } in
      let db3 =
        notify_triggers disk m crc32 opts capture_ops (any_events accepted)
          (publish_group (p ∷ ps) db2) in
      (results', if hard then db3 else rotate disk m crc32 opts capture_ops db3)

  -- Phase 4, and what follows: with no batch appended there is nothing to sync.
  unfoldable pub sync_group : List Accepted → Bool → Phase → Results × Store
  unfolding sync_log finish_group
  sync_group accepted hard phase =
      let done = hard || phase.hard_failure in
      let synced : Results × Store =
        let (r, db1) = sync_log disk m crc32 opts capture_ops phase.db in
        elim r [
          | err e ↦ (fail_batches e phase.going phase.results, db1)
          | ok _ ↦ finish_group accepted phase.going done phase.results db1
        ] in
      if is_nil phase.going then (phase.results, phase.db) else synced

  unfoldable pub apply_group_locked : List Batch → Store → Results × Store
  unfolding accept place_group sync_placed append_group sync_group fail_tail fail_batches
  apply_group_locked batches db =
      let (accepted, results) = accept 0 (db.visible_seqno + 1) batches in
      let placed = place_group accepted results db in
      let (r, db1) = sync_placed disk m crc32 opts capture_ops placed.db placed.any_vlog in
      elim r [
        | err e ↦ (fail_batches e placed.going placed.results, db1)
        | ok _ ↦
            sync_group accepted placed.hard_failure
              (append_group accepted placed.going placed.results db1)
      ]
