-- ===== src/Recovery.antt =====
-- crates/fluent31/src/db.rs: the replay of the logs at an open. The index of the young value-log files and
-- which other files are live or retired are parameters.
pub mod History
pub mod Replayed
use fluent.Prelude.{
  ℕ, ◌+◌, max, ◌==◌, if◌then◌else◌, Bool, true, false, ◌&&◌, ◌||◌, List, [], ◌∷◌, Option, none,
  some,
}
use fluent.Result.{Result, ok, err, corrupt, ◌>>=◌}
use fluent.Bytes.{bytes_eq}
use fluent.Types.{ValueKind, put, delete, ValuePtr, ReprRef, inline, ptr, decode_repr, make_ikey}
use fluent.Batch.{EncEntry, decode_batch}
use fluent.Wal.{WalTail, clean, torn, read_wal}
use fluent.Memtable.{Memtable}
use fluent.Memtable as Memtable
use fluent.Memtable.Skiplist.{SkipMap}
use fluent.Write.{is_nil}

-- By offset, the length and the key of each record that a scan of the file found.
abbrev pub YoungIndex : Type 0
YoungIndex = ℕ → Option (ℕ × List ℕ)

module _ (crc32 : List ℕ → ℕ) (m : SkipMap) (young : ℕ → Option YoungIndex)
    (live retired : ℕ → Bool) where
  pub record Replay : Type 0 where
    pub recovered : Memtable m
    pub max_seq : ℕ
    pub replayed_records : ℕ
    pub truncate_torn : Option (ℕ × ℕ)

  abbrev pub found_at : Option (ℕ × List ℕ) → ValuePtr → List ℕ → Bool
  found_at none p key = false
  found_at (some (len, k)) p key = len == p.len && bytes_eq k key

  unfoldable pub is_ref_durable : ReprRef → List ℕ → Result Bool
  is_ref_durable (inline value) key = ok true
  is_ref_durable (ptr p) key = elim (young p.file) [
    | some index ↦ ok (found_at (index p.offset) p key)
    | none ↦ if live p.file || retired p.file then ok true else err corrupt
  ]

  unfoldable pub is_durable : ValueKind → List ℕ → List ℕ → Result Bool
  unfolding is_ref_durable
  is_durable put key repr = decode_repr repr >>= λ r. is_ref_durable r key
  is_durable delete key repr = ok true

  -- `false` where a value never became durable.
  unfoldable pub are_durable : List EncEntry → Result Bool
  unfolding is_durable
  are_durable [] = ok true
  are_durable (e ∷ es) =
      let rest = are_durable es in
      is_durable e.kind e.key e.repr >>= λ durable. if durable then rest else ok false

  unfoldable pub replay_entries : ℕ → List EncEntry → Replay → Replay
  replay_entries seq [] r = r
  replay_entries seq (e ∷ es) r = replay_entries (seq + 1) es (record r {
    recovered = Memtable.insert m r.recovered (make_ikey e.key seq e.kind) e.repr;
    max_seq = max r.max_seq seq;
    replayed_records = r.replayed_records + 1;
  })

  -- The records of one log, and whether the replay goes on behind them.
  unfoldable pub replay_records : List (List ℕ) → Replay → Result (Replay × Bool)
  unfolding are_durable replay_entries
  replay_records [] r = ok (r, true)
  replay_records (payload ∷ payloads) r = do
    (base, entries) ← decode_batch payload
    durable ← are_durable entries
    let rest = replay_records payloads (replay_entries base entries r)
    if durable then rest else ok (r, false)

  -- The logs, by id, oldest first.
  unfoldable pub replay_wals : List (ℕ × List ℕ) → Replay → Result Replay
  unfolding replay_records
  replay_wals [] r = ok r
  replay_wals ((wid, file) ∷ wals) r =
      let (records, tail) = read_wal crc32 file in
      replay_records records r >>= λ (r', more).
      let rest = replay_wals wals r' in
      let ended : Result Replay = elim tail [
        | clean ↦ rest
        | torn valid_len ↦
            if is_nil wals
            then ok (record r' { truncate_torn = some (wid, valid_len) })
            else err corrupt
      ] in
      if more then ended else ok r'
