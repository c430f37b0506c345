-- ===== src/Tests/Writes.antt =====
-- Runs of the write path on a disk that fails once, after a number of operations, and scans of the value log.
use fluent.Prelude.{
  ℕ, zero, suc, ◌+◌, ◌≡◌, ◌≢◌, refl, sym, ap, arith, Bool, true, false, List, [], ◌∷◌, ◌++◌, length,
  get_elem?, some, none,
}
use fluent.Result.{ok, err, io, corruption}
use fluent.Types.{max_seqno}
use fluent.Batch.{BatchOp, put, delete}
use fluent.Coding.{IsU32, to_le_bytes, put_uvarint}
use fluent.Bytes.{cmp_bytes}
use fluent.Memtable
use fluent.Memtable.Skiplist.{sorted_list}
use fluent.Write.{Disk, Options, Db, apply_locked}
use fluent.Write.Group.{apply_group_locked}
use fluent.Write.Group.Twin.{observed, apply_group_locked-one}
use fluent.Write.Group.Filled.{apply_group_locked-filled}
use fluent.Vlog.{encode_record, record_value_for, parse_records}
use fluent.Vlog.Records.{IsRecord, record_value_for-encode}
use fluent.Vlog.Scans.{file_of, scanned_from, IsTorn, parse_records-file}

abbrev pub crc : List ℕ → ℕ
crc l = 7

abbrev crc_fits : (bs : List ℕ) → IsU32 (crc bs)
crc_fits bs = omega arith

-- How many operations succeed before the next failure, and the bytes written so far.
abbrev pub flaky : Disk
flaky = record {
  State = ℕ × ℕ;
  append =
      λ s id bs. elim s.0 [ zero ↦ (err io, (1000, s.1)) | suc n ↦ (ok s.1, (n, s.1 + length bs)) ];
  sync_data = λ s id. elim s.0 [ zero ↦ (err io, (1000, s.1)) | suc n ↦ (ok tt, (n, s.1)) ];
  create_new = λ s id. elim s.0 [ zero ↦ (err io, (1000, s.1)) | suc n ↦ (ok tt, (n, s.1)) ];
  sync_dir = λ s. elim s.0 [ zero ↦ (err io, (1000, s.1)) | suc n ↦ (ok tt, (n, s.1)) ];
}

abbrev pub options : Options
options = record {
  sync_always = true;
  value_threshold = 4;
  memtable_size = 1000;
  vlog_file_size = 1000;
  wasm_enabled = true;
}

abbrev pub no_events : List BatchOp → ℕ → List BatchOp
no_events ops base = []

abbrev pub store : ℕ → Db flaky sorted_list crc options no_events
store budget = record {
  files = (budget, 0);
  vlog = record { id = 2; written = 0; synced = 0 };
  vlog_files = 2 ∷ [];
  wal = 1;
  mem = Memtable.new sorted_list 1;
  imms = [];
  visible_seqno = 5;
  next_file_id = 3;
  degraded = false;
  wal_syncs = 0;
  published = [];
  notified = 0;
  flushes = 0;
}

abbrev large : List BatchOp
large = put (b'k' ∷ []) (1 ∷ 2 ∷ 3 ∷ 4 ∷ 5 ∷ []) ∷ []

abbrev small : List BatchOp
small = put (b'j' ∷ []) (9 ∷ []) ∷ delete (b'k' ∷ []) ∷ []

abbrev batches : List (List BatchOp × Bool)
batches = (large, true) ∷ (small, false) ∷ (small, false) ∷ (small, true) ∷ []

-- The third batch meets the failure of its append to the log; the two before it stand.
group_fails :
    (apply_group_locked flaky sorted_list crc options no_events batches (store 4)).0
    ≡ some (ok tt) ∷ some (ok tt) ∷ some (err io) ∷ some (err io) ∷ []
unfolding apply_group_locked Memtable.new fluent.Write.approx_size fluent.Write.place_ops
    encode_record fluent.Coding.to_le_bytes fluent.Coding.put_uvarint fluent.Batch.encode_batch
    fluent.Batch.put_entries fluent.Batch.put_entry fluent.Coding.put_len_prefixed
    fluent.Types.encode_ptr fluent.Coding.put_u32 fluent.Coding.put_u64 fluent.Write.append_record
    fluent.Types.encode_inline fluent.Write.Group.from_tail
group_fails = refl

apply_group_locked-one_example :
    ((apply_group_locked flaky sorted_list crc options no_events ((large, true) ∷ []) (store 2)).0
      ≡ some (apply_locked flaky sorted_list crc options no_events large true (store 2)).0 ∷ [])
    × (observed flaky sorted_list crc options no_events
          (apply_group_locked flaky sorted_list crc options no_events
            ((large, true) ∷ [])
            (store 2)).1
        ≡ observed flaky sorted_list crc options no_events
            (apply_locked flaky sorted_list crc options no_events large true (store 2)).1)
apply_group_locked-one_example =
    apply_group_locked-one flaky sorted_list crc options no_events large true (store 2)

apply_group_locked-filled_example :
    (length (apply_group_locked flaky sorted_list crc options no_events batches (store 4)).0 ≡ 4)
    × ((j : ℕ)
        → get_elem?
            (apply_group_locked flaky sorted_list crc options no_events batches (store 4)).0
            j
          ≢ some none)
apply_group_locked-filled_example =
    apply_group_locked-filled flaky sorted_list crc options no_events batches (store 4)

record_value_for-encode_example :
    record_value_for crc (encode_record crc (b'k' ∷ []) (1 ∷ 2 ∷ [])) (b'j' ∷ []) ≡ err corruption
unfolding cmp_bytes
record_value_for-encode_example =
    record_value_for-encode crc crc_fits (b'k' ∷ []) (1 ∷ 2 ∷ []) (b'j' ∷ []) (omega arith)
      (omega arith)

abbrev pairs : List (List ℕ × List ℕ)
pairs = (b'k' ∷ [], 1 ∷ 2 ∷ []) ∷ (b'j' ∷ [], []) ∷ []

k_len : length (encode_record crc (b'k' ∷ []) (1 ∷ 2 ∷ [])) ≡ 9
unfolding encode_record to_le_bytes put_uvarint
k_len = refl

j_bytes : encode_record crc (b'j' ∷ []) [] ≡ 7 ∷ 0 ∷ 0 ∷ 0 ∷ 1 ∷ 0 ∷ b'j' ∷ []
unfolding encode_record to_le_bytes put_uvarint
j_bytes = refl

k-IsRecord : IsRecord crc crc_fits (b'k' ∷ []) (1 ∷ 2 ∷ [])
k-IsRecord = record {
  key_fits = omega arith;
  value_fits = omega arith;
  record_fits = omega (arith, k_len);
}

j-IsRecord : IsRecord crc crc_fits (b'j' ∷ []) []
j-IsRecord = record {
  key_fits = omega arith;
  value_fits = omega arith;
  record_fits = omega (arith, ap {B = ℕ} length j_bytes);
}

-- The last byte of a third record is lost.
half : IsTorn crc crc_fits (7 ∷ 0 ∷ 0 ∷ 0 ∷ 1 ∷ 0 ∷ [])
half = record {
  key = b'j' ∷ [];
  value = [];
  byte = b'j';
  more = [];
  is_record = j-IsRecord;
  split = sym j_bytes;
}

parse_records-file_example :
    parse_records crc (file_of crc crc_fits pairs ++ (7 ∷ 0 ∷ 0 ∷ 0 ∷ 1 ∷ 0 ∷ []))
    ≡ (scanned_from crc crc_fits 0 pairs, length (file_of crc crc_fits pairs))
parse_records-file_example =
    parse_records-file crc crc_fits pairs (7 ∷ 0 ∷ 0 ∷ 0 ∷ 1 ∷ 0 ∷ [])
      (k-IsRecord, (j-IsRecord, tt)) half
