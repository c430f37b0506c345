-- ===== src/Compaction/Safe.antt =====
-- crates/fluent31/src/compaction.rs and db.rs: a rewrite under the watermark, whatever becomes of the
-- snapshots while its slices run and after.
use fluent.Prelude.{ℕ, ◌≤◌, ◌<◌, ◌≡◌, Bool, false, List, ◌++◌, length, All, All-map, none}
use fluent.Result.{ok}
use fluent.Bytes.{bytes_eq}
use fluent.Types.{ikey_ukey, ikey_seqno}
use fluent.Iter.{Entry, InternalIterator}
use fluent.Iter.Walk.{Walk, Sorted}
use fluent.Mvcc.Newest.{newest}
use fluent.Version.{Run}
use fluent.Snapshots.{Retention, watermark}
use fluent.Snapshots.Floor.{Reach, Reach-floor, Ascending, floor}
use fluent.Compaction.{Options, RunningJob, older_may_contain, new_job, run_slices}
use fluent.Compaction.Rule.{compacted, newest-compacted}
use fluent.Compaction.Emits.{Holds}
use fluent.Compaction.Slices.{IsReadable, rewrite-Holds}

module _ (crc32 : List ℕ → ℕ) (compress : List ℕ → List ℕ) (times_0_69 : ℕ → ℕ) (opts : Options)
    (I : InternalIterator) (w : Walk I false) (may : List ℕ → Bool) (older : List Run)
    (reads : (u : List ℕ) → older_may_contain older u ≡ ok (may u)) where
  abbrev Jobs : Type 0
  Jobs = RunningJob crc32 compress times_0_69 opts I

  -- A rewrite that takes its watermark from the snapshots succeeds, and its tables hold entries in which
  -- every snapshot that is registered in any later state of the store, and a reader of what is visible
  -- then, find under every key what they would have found in the inputs, with the entries of the older
  -- runs behind either. The inputs come in order, no entry of them was newer than the flushed head when
  -- the watermark was taken, which was visible, the forks that follow are at that head or a later one,
  -- and the filters of the older runs can be read and miss no key.
  pub rewrite_safe :
      (before after : Retention) (low n next_file_id : ℕ) (merge : I.State) (l behind : List Entry)
      → low ≤ before.visible_seqno
      → Ascending before.snapshots.counts
      → Reach low before after
      → w.Over merge l
      → Sorted false l
      → All IsReadable l
      → All (λ e. ikey_seqno e.0 ≤ low) l
      → ((u : List ℕ) → may u ≡ false → All (λ e. bytes_eq (ikey_ukey e.0) u ≡ false) behind)
      → length l < n
      → (j j' : Jobs) × (out : List Entry) × (new_job crc32 compress times_0_69 opts I older
            (watermark before)
            merge
            next_file_id
          ≡ ok j)
        × (run_slices crc32 compress times_0_69 opts I n n j ≡ ok j')
        × Holds crc32 compress times_0_69 opts I j'.tables out
        × ((u : List ℕ)
            → All
                (λ s. newest s.0 u (out ++ behind) ≡ newest s.0 u (l ++ behind))
                after.snapshots.counts
              × (newest after.visible_seqno u (out ++ behind)
                  ≡ newest after.visible_seqno u (l ++ behind)))
  rewrite_safe before after low n next_file_id merge l behind head_visible asc reach over sorted
        readable published sound enough =
      let (j, j', made, ran, holds) =
        rewrite-Holds crc32 compress times_0_69 opts I w may older reads n (watermark before)
          next_file_id merge l over readable enough in
      let (above, seen, _, _) = Reach-floor low head_visible asc reach in
      (
        j,
        j',
        compacted may (watermark before) none false l,
        made,
        ran,
        holds,
        λ u. (All-map _ _ after.snapshots.counts (λ s h. same u s.0 h) above, same u _ seen),
      )
    where
      same :
          (u : List ℕ) (q : ℕ)
          → floor low before ≤ q
          → newest q u (compacted may (watermark before) none false l ++ behind)
            ≡ newest q u (l ++ behind)
      same u q h =
          newest-compacted may (watermark before) low q u l behind sorted published h (sound u)
