-- ===== src/Lib.antt =====
-- fluent31 is an embedded key-value engine: a log-structured merge tree with snapshots, optimistic
-- transactions, a value log and forks. This library models the engine's core in
-- crates/fluent31/src and proves what its parts promise each other. The parts, from the bytes up:
--
-- Coding (crates/fluent31/src/coding.rs): `put_u32`, `put_u64`, `put_uvarint`, `put_len_prefixed` and the
--   checked `Reader`. A byte is a number below 256, a byte vector a list of them, an integer of w bits
--   keeps its `% 2 ^ w`. The loop of `uvarint` has ten rounds, which Coding/Varint shows to be enough;
--   `put_uvarint` recurs on what is left of the number. Coding/Stable says that a read that succeeds
--   looks at nothing behind what it takes.
-- Result (crates/fluent31/src/error.rs): the error variants, without their texts.
-- Bytes, OrderedMap: what the engine uses of Rust's slices and ordered maps.
-- Types (crates/fluent31/src/types.rs): internal keys, their order, value representations, the reserved
--   keyspace.
-- Batch (crates/fluent31/src/batch.rs): write batches and their encoding in the log.
-- Wal (crates/fluent31/src/wal.rs): `append_record`, and `read_wal` that recovery runs. The checksum
--   `crc32` (crc32fast) is a parameter. The scan has the length of the file as fuel; a round takes
--   eight bytes at least.
-- Memtable (crates/fluent31/src/memtable.rs): over `SkipMap`, an interface of crossbeam's skiplist with
--   the behaviour its documentation states, which a sorted list has. MemIter is its cursor.
-- Bloom (crates/fluent31/src/bloom.rs): the filter; the product by the float 0.69 that chooses the number
--   of probes is a parameter.
-- Block (crates/fluent31/src/block.rs): builder, parser, binary search and cursor. The search has the
--   count as fuel, and each round shrinks the interval.
-- Table (crates/fluent31/src/table/mod.rs, table/builder.rs): footer, statistics, checked block reads and
--   the streaming writer. crc32fast and lz4_flex are parameters; that decompression undoes compression
--   is a hypothesis where it is used.
-- Iter (crates/fluent31/src/iter.rs): the trait `InternalIterator` as a record of operations, and the
--   merge of cursors as another instance of it. Iter/Walk states what a cursor promises in a direction;
--   Iter/Merge shows that a merge keeps it, so that a client of cursors does not see the merge.
-- Mvcc (crates/fluent31/src/iter.rs): the forward and the reverse stream of the versions that a snapshot
--   sees, over any cursor. Their loops take fuel for the entries of the cursor; Mvcc/Scan shows that one
--   more than their number is enough. The reverse stream has definitions only.
-- Version (crates/fluent31/src/version.rs): lookups in a run, a version and a read view, over tables
--   given by their lookups.
-- Txn (crates/fluent31/src/txn.rs): transactions over a record of the operations of the database that
--   they call; the iterator over a snapshot and the writes, whose loop has the writes as fuel.
-- Snapshots (crates/fluent31/src/db.rs): the registered snapshots, the watermark of retention and the pins
--   of subscriptions; Snapshots/Floor relates the states that the store goes through, with a fork's
--   unchecked registration of the flushed head.
-- Compaction (crates/fluent31/src/compaction.rs, db.rs): a rewrite in slices over any cursor, and what is
--   kept of each user key. A slice has a round for each entry and one more as fuel, a rewrite as many
--   slices; Compaction/Slices shows that they are enough. Compaction/Rule states what a rewrite keeps,
--   Emits and Takes follow the code to it, Safe joins it with the snapshots. Install puts the outcome into
--   the manifest and into the version, by two edits of their levels as the code has them; Agrees holds
--   one against the other, and Splice says what a splice at the bottom leaves.
-- Manifest (crates/fluent31/src/manifest.rs): the encoding in its three formats and the decoder. The
--   checksum is a parameter; Manifest/Utf8 is the check of `String::from_utf8`.
-- Identity (crates/fluent31/src/identity.rs, db.rs): the ids of stores and forks, and what an open makes of
--   the recorded, the requested and the pending one. The hash of the sha2 crate is a parameter.
-- Vlog (crates/fluent31/src/vlog.rs): the records of the value log and the scan, with the length of the
--   buffer as fuel: a round takes four bytes at least.
-- Write (crates/fluent31/src/db.rs, vlog.rs, wal.rs): a write under `write_mu`, by itself in Write and in a
--   group, phase by phase, in Write/Group. The disk is an interface whose operations may fail at any
--   time, what captures the events of triggers is a parameter, and subscribers, wake-ups and flushes are
--   counted or recorded. Write/Group/Twin holds the group against the single write; Open, Indices and
--   Phases follow which results are open, up to Filled.
-- Committer (crates/fluent31/src/db.rs): what `commit_thread` does with the waiters it drained: the cut into
--   groups, with a round for each waiter as fuel, the validation of transactions and the delivery of
--   results, over Write/Group. The lookup in the view of a group is a parameter. The waits, the periodic
--   sync and the guard against a panic are left out.
-- Recovery (crates/fluent31/src/db.rs): the replay of the logs at an open, with the check of the pointers
--   into young value-log files, whose index is a parameter. Recovery/History says what the entries of
--   logs amount to, apart from the replay. A sequence number there is not wrapped: the write keeps them
--   below 2 ^ 56. The scan of the directory, the truncation of the torn log and the flush behind the
--   replay are left out.
-- Stream (crates/fluent31/src/db.rs): range subscriptions, with the offer of a commit and a round of
--   `recv_timeout`; what resolves a value is a parameter. Stream/Taps and Delivered say what is to come
--   of a commit, apart from the queue. Stream/Run lets commits and reads follow one
--   another, since the lock of the queue puts them in some order.
-- Tests: runs of the modelled code and the main theorems at concrete inputs.
--
-- Where no disk is named, a file is the list of its bytes; threads and atomics are not modelled, nor the
-- panics that callers prevent. Not modelled are the table reader and the block cache, the collection of the
-- value log, the journal, the choice of compactions, replication, forks, triggers and the WASM
-- host, and the crates around the engine.
pub mod Prelude
pub mod Result
pub mod Coding
pub mod Bytes
pub mod OrderedMap
pub mod Types
pub mod Batch
pub mod Wal
pub mod Bloom
pub mod Block
pub mod Iter
pub mod Mvcc
pub mod Txn
pub mod Version
pub mod Table
pub mod Memtable
pub mod Tests
pub mod Snapshots
pub mod Compaction
pub mod Identity
pub mod Vlog
pub mod Write
pub mod Stream
pub mod Committer
pub mod Recovery
pub mod Manifest
