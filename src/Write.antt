-- ===== src/Write.antt =====
-- crates/fluent31/src/db.rs, with the append side of vlog.rs and wal.rs: the write path under `write_mu`,
-- for one batch and for a group of them. The disk is an interface whose every operation may fail; what
-- captures the events of triggers is a parameter.
pub mod Group
use fluent.Prelude.{
  ℕ, zero, suc, ◌+◌, ◌-◌, ◌%◌, ◌^◌, ◌==◌, ltb, leb, if◌then◌else◌, Bool, true, false, ◌&&◌, ◌||◌,
  not, List, [], ◌∷◌, ◌++◌, length, get_elem?, set, Option, none, some,
}
use fluent.Result.{Result, ok, err, Error, io, invalid_argument}
use fluent.Coding.{to_le_bytes}
use fluent.Types.{ValueKind, ValuePtr, max_seqno, make_ikey, encode_inline, encode_ptr}
use fluent.Batch.{BatchOp, EncEntry, encode_batch}
use fluent.Memtable.{Memtable}
use fluent.Memtable as Memtable
use fluent.Memtable.Skiplist.{SkipMap}
use fluent.Vlog.{encode_record}

-- The operations of `DbFile` and `Io` that writes use; a file goes by its id.
pub record Disk : Type 1 where
  pub State : Type 0
  pub append : State → ℕ → List ℕ → Result ℕ × State
  pub sync_data : State → ℕ → Result (Unit {0}) × State
  pub create_new : State → ℕ → Result (Unit {0}) × State
  pub sync_dir : State → Result (Unit {0}) × State

pub record Options : Type 0 where
  pub sync_always : Bool
  pub value_threshold : ℕ
  pub memtable_size : ℕ
  pub vlog_file_size : ℕ
  pub wasm_enabled : Bool

pub record VlogHead : Type 0 where
  pub id : ℕ
  pub written : ℕ
  pub synced : ℕ

abbrev pub max_batch : ℕ
max_batch = 2 ^ 30

-- The bytes that a batch takes in the log at most.
unfoldable pub approx_size : List BatchOp → ℕ
approx_size [] = 0
approx_size (BatchOp.put key value ∷ ops) = length key + length value + 32 + approx_size ops
approx_size (BatchOp.delete key ∷ ops) = length key + 16 + approx_size ops

abbrev pub is_nil {ℓ} : {A : Type ℓ} → List A → Bool
is_nil [] = true
is_nil (x ∷ xs) = false

module _ (disk : Disk) (m : SkipMap) (crc32 : List ℕ → ℕ) (opts : Options)
    (capture_ops : List BatchOp → ℕ → List BatchOp) where
  -- What of `DbInner` and `WriteState` a write touches. `published` has the calls of `publish_stream`,
  -- the last one first, `notified` counts the wake-ups of the triggers, `flushes` those of the flusher.
  pub record Db : Type 0 where
    pub files : disk.State
    pub vlog : VlogHead
    pub vlog_files : List ℕ
    pub wal : ℕ
    pub mem : Memtable m
    pub imms : List (Memtable m)
    pub visible_seqno : ℕ
    pub next_file_id : ℕ
    pub degraded : Bool
    pub wal_syncs : ℕ
    pub published : List (ℕ × List EncEntry)
    pub notified : ℕ
    pub flushes : ℕ

  abbrev pub set_bg_error : Db → Db
  set_bg_error db = record db { degraded = true }

  -- `?` on an operation that leaves the store changed either way, and the same where a failure degrades
  -- the store first.
  abbrev pub and_then {ℓ κ} :
      {A : Type ℓ} {B : Type κ} → Result A × Db → (A → Db → Result B × Db) → Result B × Db
  and_then (ok a, db) f = f a db
  and_then (err e, db) f = (err e, db)

  abbrev pub degrading {ℓ} : {A : Type ℓ} → Result A × Db → Result A × Db
  degrading (ok a, db) = (ok a, db)
  degrading (err e, db) = (err e, set_bg_error db)

  abbrev pub with_files {ℓ} : {A : Type ℓ} → Db → Result A × disk.State → Result A × Db
  with_files db (r, files) = (r, record db { files = files })

  -- `Vlog::append`
  unfoldable pub vlog_append : Db → List ℕ → List ℕ → Result ValuePtr × Db
  vlog_append db key value =
      let rec = encode_record crc32 key value in
      if ltb (2 ^ 32 - 1) (length rec)
      then (err invalid_argument, db)
      else and_then (with_files db (disk.append db.files db.vlog.id rec)) λ off db1. (
        ok (record { file = db.vlog.id; offset = off; len = length rec % 2 ^ 32 }),
        record db1 {
          vlog = record { id = db.vlog.id; written = off + length rec; synced = db.vlog.synced };
        },
      )

  -- `Vlog::sync_head`
  unfoldable pub sync_head : Db → Result (Unit {0}) × Db
  sync_head db =
      if ltb db.vlog.synced db.vlog.written
      then and_then (with_files db (disk.sync_data db.files db.vlog.id)) (λ _ db1. (
        ok tt,
        record db1 {
          vlog = record { id = db.vlog.id; written = db.vlog.written; synced = db.vlog.written };
        },
      ))
      else (ok tt, db)

  -- `WalWriter::append_record`
  unfoldable pub append_record : Db → List ℕ → Result (Unit {0}) × Db
  append_record db payload =
      and_then
        (with_files db (
          disk.append db.files db.wal (
            to_le_bytes 4 (length payload % 2 ^ 32) ++ (to_le_bytes 4 (crc32 payload) ++ payload))))
        λ _ db1. (ok tt, db1)

  unfoldable pub capture_events : List BatchOp → ℕ → Bool → List BatchOp
  capture_events ops base capture =
      if capture && opts.wasm_enabled then capture_ops ops base else []

  -- The entry of an operation, its large value placed in the value log, and whether it was.
  unfoldable pub place_op : Db → BatchOp → Result (EncEntry × Bool) × Db
  unfolding vlog_append
  place_op db (BatchOp.put key value) =
      if leb opts.value_threshold (length value)
      then and_then (degrading (vlog_append db key value)) (λ p db1.
        (ok (record { kind = ValueKind.put; key = key; repr = encode_ptr p }, true), db1))
      else (ok (record { kind = ValueKind.put; key = key; repr = encode_inline value }, false), db)
  place_op db (BatchOp.delete key) =
      (ok (record { kind = ValueKind.delete; key = key; repr = [] }, false), db)

  unfoldable pub place_ops : Db → List BatchOp → Result (List EncEntry × Bool) × Db
  unfolding place_op
  place_ops db [] = (ok ([], false), db)
  place_ops db (op ∷ ops) = and_then (place_op db op) λ (e, in_vlog) db1.
      and_then (place_ops db1 ops) λ (es, any_vlog) db2. (ok (e ∷ es, in_vlog || any_vlog), db2)

  -- Payload before pointer.
  unfoldable pub sync_placed : Db → Bool → Result (Unit {0}) × Db
  unfolding sync_head
  sync_placed db any_vlog =
      if any_vlog && opts.sync_always then degrading (sync_head db) else (ok tt, db)

  unfoldable pub sync_log : Db → Result (Unit {0}) × Db
  sync_log db =
      if opts.sync_always
      then and_then (degrading (with_files db (disk.sync_data db.files db.wal)))
          (λ _ db1. (ok tt, record db1 { wal_syncs = db1.wal_syncs + 1 }))
      else (ok tt, db)

  unfoldable pub insert_entries : Memtable m → ℕ → List EncEntry → Memtable m
  insert_entries mem seq [] = mem
  insert_entries mem seq (e ∷ es) =
      insert_entries (Memtable.insert m mem (make_ikey e.key seq e.kind) e.repr) (seq + 1) es

  abbrev pub alloc_file_id : Db → ℕ × Db
  alloc_file_id db = (db.next_file_id, record db { next_file_id = db.next_file_id + 1 })

  -- `rotate_memtable_locked`
  unfoldable pub rotate_memtable : Db → Result (Unit {0}) × Db
  rotate_memtable db = and_then (with_files db (disk.sync_data db.files db.wal)) λ _ db1.
      let (wal_id, db2) = alloc_file_id db1 in
      and_then (with_files db2 (disk.create_new db2.files wal_id)) λ _ db3.
        and_then (with_files db3 (disk.sync_dir db3.files)) λ _ db4. (
          ok tt,
          record db4 { wal = wal_id; mem = Memtable.new m wal_id; imms = db4.mem ∷ db4.imms },
        )

  -- `rotate_vlog_locked`, with `Vlog::rotate`
  unfoldable pub rotate_vlog : Db → Result (Unit {0}) × Db
  rotate_vlog db =
      let (id, db1) = alloc_file_id db in
      and_then (with_files db1 (disk.create_new db1.files id)) λ _ db2.
        and_then
          (if ltb db2.vlog.synced db2.vlog.written
            then with_files db2 (disk.sync_data db2.files db2.vlog.id)
            else (ok tt, db2))
          λ _ db3.
            let db4 : Db = record db3 { vlog = record { id = id; written = 0; synced = 0 } } in
            and_then (with_files db4 (disk.sync_dir db4.files))
              λ _ db5. (ok tt, record db5 { vlog_files = id ∷ db5.vlog_files })

  -- A failure here leaves the acknowledgement of the write and degrades the store.
  unfoldable pub rotate : Db → Db
  unfolding rotate_memtable rotate_vlog
  rotate db =
      let flushed : Result (Unit {0}) × Db =
        if leb opts.memtable_size (Memtable.approximate_bytes m db.mem)
        then and_then (rotate_memtable db)
            (λ _ db1. (ok tt, record db1 { flushes = db1.flushes + 1 }))
        else (ok tt, db) in
      let rotated : Result (Unit {0}) × Db = and_then flushed λ _ db1.
        if leb opts.vlog_file_size db1.vlog.written then rotate_vlog db1 else (ok tt, db1) in
      (degrading rotated).1

  abbrev pub notify_triggers : Bool → Db → Db
  notify_triggers any db = if any then record db { notified = db.notified + 1 } else db

  -- Memtable inserts and publication of one batch.
  unfoldable pub insert_batch : Db → ℕ → List EncEntry → Db
  unfolding insert_entries
  insert_batch db base es = record db { mem = insert_entries db.mem base es }

  abbrev pub publish : Db → ℕ → List EncEntry → Db
  publish db base es = record db { published = (base, es) ∷ db.published }

  abbrev pub last_seqno : ℕ → List EncEntry → ℕ
  last_seqno base es = base + length es - 1

  unfoldable pub apply_locked : List BatchOp → Bool → Db → Result (Unit {0}) × Db
  unfolding capture_events place_ops sync_placed append_record sync_log insert_batch rotate
  apply_locked ops capture db =
      let base = db.visible_seqno + 1 in
      let events = capture_events ops base capture in
      let all = ops ++ events in
      if leb max_seqno (base + length all)
      then (err invalid_argument, db)
      else if leb max_batch (approx_size all)
      then (err invalid_argument, db)
      else and_then (place_ops db all) λ (es, any_vlog) db1.
        and_then (sync_placed db1 any_vlog) λ _ db2.
          and_then
            (if leb max_batch (length (encode_batch base es))
              then (err invalid_argument, db2)
              else degrading (append_record db2 (encode_batch base es)))
            λ _ db3. and_then (sync_log db3) λ _ db4.
              let db5 = record (insert_batch db4 base es) { visible_seqno = last_seqno base es } in
              (ok tt, notify_triggers (not (is_nil events)) (rotate (publish db5 base es)))
