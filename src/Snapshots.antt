-- ===== src/Snapshots.antt =====
-- crates/fluent31/src/db.rs: the registered snapshots and the watermark below which a compaction or a
-- collection of the value log may drop versions. Each operation runs under the lock of the list.
pub mod Floor
use fluent.Prelude.{
  ℕ, ◌+◌, ◌-◌, ◌==◌, ltb, if◌then◌else◌, ◌&&◌, not, List, [], ◌∷◌, Option, none, some,
}
use fluent.Result.{Result, ok, err, invalid_argument}

-- The `BTreeMap` from a sequence number to the number of its holders, in the order of its keys.
pub record SnapshotList : Type 0 where
  pub counts : List (ℕ × ℕ)

-- `*counts.entry(seq).or_insert(0) += 1`
unfoldable pub count_up : ℕ → List (ℕ × ℕ) → List (ℕ × ℕ)
count_up seq [] = (seq, 1) ∷ []
count_up seq ((k, c) ∷ l) =
    let later = count_up seq l in
    if ltb seq k then (seq, 1) ∷ (k, c) ∷ l else if seq == k then (k, c + 1) ∷ l else (k, c) ∷ later

-- `*c -= 1`, and the key goes with its last holder.
unfoldable pub count_down : ℕ → List (ℕ × ℕ) → List (ℕ × ℕ)
count_down seq [] = []
count_down seq ((k, c) ∷ l) =
    let later = count_down seq l in
    if seq == k then if c - 1 == 0 then l else (k, c - 1) ∷ l else (k, c) ∷ later

unfoldable pub register : SnapshotList → ℕ → SnapshotList
unfolding count_up
register s seq = record { counts = count_up seq s.counts }

unfoldable pub deregister : SnapshotList → ℕ → SnapshotList
unfolding count_down
deregister s seq = record { counts = count_down seq s.counts }

unfoldable pub sum_counts : List (ℕ × ℕ) → ℕ
sum_counts [] = 0
sum_counts ((k, c) ∷ l) = c + sum_counts l

unfoldable pub snapshot_count : SnapshotList → ℕ
unfolding sum_counts
snapshot_count s = sum_counts s.counts

abbrev pub first_key : List (ℕ × ℕ) → Option ℕ
first_key [] = none
first_key ((k, c) ∷ l) = some k

abbrev pub min_snapshot : SnapshotList → Option ℕ
min_snapshot s = first_key s.counts

abbrev pub or_else : Option ℕ → ℕ → ℕ
or_else none d = d
or_else (some n) d = n

-- The fields of `DbInner` that the snapshots depend on.
pub record Retention : Type 0 where
  pub snapshots : SnapshotList
  pub visible_seqno : ℕ

unfoldable pub watermark : Retention → ℕ
watermark db = or_else (min_snapshot db.snapshots) (db.visible_seqno + 1)

unfoldable pub register_snapshot : Retention → ℕ × Retention
unfolding register
register_snapshot db =
    (db.visible_seqno, record db { snapshots = register db.snapshots db.visible_seqno })

-- On a number that is visible; the code asserts that in debug builds.
unfoldable pub register_snapshot_at : Retention → ℕ → Retention
unfolding register
register_snapshot_at db seq = record db { snapshots = register db.snapshots seq }

unfoldable pub try_register_snapshot_at : Retention → ℕ → Result Retention
unfolding register
try_register_snapshot_at db seq =
    let wm = or_else (min_snapshot db.snapshots) (db.visible_seqno + 1) in
    if ltb db.visible_seqno seq
    then err invalid_argument
    else if ltb seq wm && not (seq == db.visible_seqno)
    then err invalid_argument
    else ok (record db { snapshots = register db.snapshots seq })

unfoldable pub deregister_snapshot : Retention → ℕ → Retention
unfolding deregister
deregister_snapshot db seq = record db { snapshots = deregister db.snapshots seq }

-- The end of `Subscription::resolve`: the pin moves to the last entry that was delivered.
unfoldable pub advance_pin : Retention → ℕ → ℕ → Retention
unfolding register_snapshot_at deregister_snapshot
advance_pin db pinned last = deregister_snapshot (register_snapshot_at db last) pinned
