-- ===== src/Tests/Upkeep.antt =====
-- Runs of the retention and of a rewrite, over entries like those of the scans.
use fluent.Prelude.{ℕ, ◌≤◌, ◌≡◌, refl, arith, Bool, false, List, [], ◌∷◌, ◌++◌, All, none}
use fluent.Result.{ok}
use fluent.Bytes.{cmp_bytes}
use fluent.Types.{
  put, delete, inline, make_ikey, cmp_ikey, ikey_ukey, ikey_seqno, ikey_kind, decode_repr,
}
use fluent.Memtable.Skiplist.{sorted_list, ikey_order}
use fluent.Memtable.MemIter.{iter, mem_iter, iter-Over, mem_iter-Walk}
use fluent.OrderedMap.{IsSorted}
use fluent.Iter.{Entry}
use fluent.Iter.Walk.{Sorted}
use fluent.Mvcc.Newest.{newest}
use fluent.Table.{uncompressed}
use fluent.Coding.{u8}
use fluent.Snapshots.{watermark, Retention, register_snapshot, register_snapshot_at}
use fluent.Snapshots.Floor.{
  Reach, here, next, take_snapshot, take_flushed, publish, floor, Above, Ascending, Reach-floor,
}
use fluent.Compaction.{RunningJob, Options, new_job, run_slices, older_may_contain}
use fluent.Compaction.Rule.{compacted}
use fluent.Compaction.Emits.{Holds}
use fluent.Compaction.Safe.{rewrite_safe}
use fluent.Compaction.Slices.{IsReadable, rewrite-Holds}

-- A snapshot at 5, a commit up to 7, and another snapshot, after a collection at watermark 6.
abbrev idle : Retention
idle = record { snapshots = record { counts = [] }; visible_seqno = 5 }

abbrev busy : Retention
busy = (register_snapshot (record (register_snapshot idle).1 { visible_seqno = 7 })).1

-- Then a fork at the flushed head, which is 5.
abbrev forked : Retention
forked = register_snapshot_at busy 5

idle-Reach : Reach 5 idle forked
unfolding register_snapshot
idle-Reach =
    next
      (next
        (next (next here (take_snapshot idle)) (publish (register_snapshot idle).1 7 (omega arith)))
        (take_snapshot (record (register_snapshot idle).1 { visible_seqno = 7 })))
      (take_flushed busy 5 (omega arith))

Reach-floor_example :
    Above (floor 5 idle) forked.snapshots.counts
    × (floor 5 idle ≤ forked.visible_seqno)
    × (floor 5 idle ≤ floor 5 forked)
    × Ascending forked.snapshots.counts
Reach-floor_example = Reach-floor 5 (omega arith) tt idle-Reach

-- It lies below the watermark of the collection.
fork_below : (forked.snapshots.counts ≡ (5, 2) ∷ (7, 1) ∷ []) × (watermark idle ≡ 6)
unfolding register_snapshot_at register_snapshot watermark
fork_below = (refl, refl)

abbrev k7 : Entry
k7 = (make_ikey (b'k' ∷ []) 7 put, 0 ∷ 7 ∷ [])

abbrev k3 : Entry
k3 = (make_ikey (b'k' ∷ []) 3 put, 0 ∷ 3 ∷ [])

abbrev m5 : Entry
m5 = (make_ikey (b'm' ∷ []) 5 delete, [])

abbrev inputs : List Entry
inputs = k7 ∷ k3 ∷ m5 ∷ []

abbrev none_older : List ℕ → Bool
none_older u = false

compacted_run : compacted none_older 7 none false inputs ≡ k7 ∷ []
unfolding compacted make_ikey ikey_ukey ikey_seqno ikey_kind cmp_bytes
compacted_run = refl

inputs-Sorted : Sorted false inputs
unfolding cmp_ikey make_ikey
inputs-Sorted = ((refl, (refl, tt)), ((refl, tt), (tt, tt)))

inputs-IsSorted : IsSorted ikey_order inputs
unfolding cmp_ikey make_ikey
inputs-IsSorted = ((refl, (refl, tt)), ((refl, tt), (tt, tt)))

abbrev options : Options
options = record {
  compaction_slice_bytes = 1;
  target_file_size = 64;
  block_size = 16;
  bloom_bits_per_key = 10;
  compression = uncompressed;
}

abbrev crc : List ℕ → ℕ
crc l = 7

abbrev same_bytes : List ℕ → List ℕ
same_bytes l = l

abbrev probes : ℕ → ℕ
probes n = n

no_runs : (u : List ℕ) → older_may_contain [] u ≡ ok (none_older u)
unfolding older_may_contain
no_runs u = refl

inputs-IsReadable : All IsReadable inputs
unfolding ikey_kind make_ikey decode_repr u8
inputs-IsReadable = (
  (put, refl, λ _. (inline (7 ∷ []), refl)),
  ((put, refl, λ _. (inline (3 ∷ []), refl)), ((delete, refl, λ no. absurd (cc)), tt)),
)

inputs_flushed : All (λ (e : Entry). ikey_seqno e.0 ≤ 5) (k3 ∷ m5 ∷ [])
unfolding ikey_seqno make_ikey
inputs_flushed = (omega arith, (omega arith, tt))

abbrev two_inputs : List Entry
two_inputs = k3 ∷ m5 ∷ []

rewrite_safe_example :
    (j j' : RunningJob crc same_bytes probes options (mem_iter sorted_list)) × (out : List Entry)
    × (new_job crc same_bytes probes options
          (mem_iter sorted_list)
          []
          (watermark idle)
          (iter sorted_list two_inputs)
          20
        ≡ ok j)
    × (run_slices crc same_bytes probes options (mem_iter sorted_list) 3 3 j ≡ ok j')
    × Holds crc same_bytes probes options (mem_iter sorted_list) j'.tables out
    × ((u : List ℕ)
        → All
            (λ s. newest s.0 u (out ++ []) ≡ newest s.0 u (two_inputs ++ []))
            forked.snapshots.counts
          × (newest forked.visible_seqno u (out ++ [])
              ≡ newest forked.visible_seqno u (two_inputs ++ [])))
rewrite_safe_example =
    rewrite_safe crc same_bytes probes options (mem_iter sorted_list) (mem_iter-Walk sorted_list)
      none_older [] no_runs idle forked 5 3 20 (iter sorted_list two_inputs) two_inputs []
      (omega arith) tt idle-Reach (iter-Over sorted_list two_inputs inputs-IsSorted.1)
      inputs-Sorted.1 inputs-IsReadable.1 inputs_flushed (λ u _. tt) (omega arith)

rewrite-Holds_example :
    (j j' : RunningJob crc same_bytes probes options (mem_iter sorted_list)) × (new_job crc
        same_bytes probes options
        (mem_iter sorted_list)
        []
        7
        (iter sorted_list inputs)
        20
      ≡ ok j)
    × (run_slices crc same_bytes probes options (mem_iter sorted_list) 4 4 j ≡ ok j')
    × Holds crc same_bytes probes options
        (mem_iter sorted_list)
        j'.tables
        (compacted none_older 7 none false inputs)
rewrite-Holds_example =
    rewrite-Holds crc same_bytes probes options (mem_iter sorted_list) (mem_iter-Walk sorted_list)
      none_older [] no_runs 4 7 20 (iter sorted_list inputs) inputs
      (iter-Over sorted_list inputs inputs-IsSorted) inputs-IsReadable (omega arith)
