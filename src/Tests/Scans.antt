-- ===== src/Tests/Scans.antt =====
-- A scan over two memtables, as crates/fluent31/src/iter.rs tests it: `k` at 7 in one and at 3 in the
-- other, and a deleted `m`.
use fluent.Prelude.{ℕ, ◌≡◌, refl, arith, false, if◌then◌else◌, List, [], ◌∷◌, All, none, some}
use fluent.Result.{ok}
use fluent.Bytes.{bytes_lt}
use fluent.OrderedMap
use fluent.OrderedMap.{IsSorted}
use fluent.OrderedMap.Keys.{bytes_order}
use fluent.Types.{put, delete, make_ikey, cmp_ikey}
use fluent.Memtable.{Memtable, get}
use fluent.Memtable.Skiplist.{sorted_list, ikey_order}
use fluent.Memtable.Lookup.{IsEntry, IsWf}
use fluent.Memtable.MemIter.{iter, mem_iter, iter-Over, mem_iter-Walk}
use fluent.Iter.{Entry, merge, new_merge}
use fluent.Iter.Walk.{Sorted}
use fluent.Iter.Interleave.{Interleaves, done, take}
use fluent.Mvcc.{MvccForward, new_forward, past}
use fluent.Mvcc.Newest.{newest}
use fluent.Mvcc.Scan.{scan}
use fluent.Mvcc.Reads.{put_of, get-newest, scan_merged}

abbrev k7 : Entry
k7 = (make_ikey (b'k' ∷ []) 7 put, 0 ∷ 7 ∷ [])

abbrev k3 : Entry
k3 = (make_ikey (b'k' ∷ []) 3 put, 0 ∷ 3 ∷ [])

abbrev m5 : Entry
m5 = (make_ikey (b'm' ∷ []) 5 delete, [])

abbrev newer : List Entry
newer = k7 ∷ m5 ∷ []

abbrev older : List Entry
older = k3 ∷ []

abbrev all_entries : List Entry
all_entries = k7 ∷ k3 ∷ m5 ∷ []

all-IsEntry : All IsEntry all_entries
all-IsEntry = (
  record { key = b'k' ∷ []; seq = 7; kind = put; seq_fits = omega arith; made = refl },
  (
    record { key = b'k' ∷ []; seq = 3; kind = put; seq_fits = omega arith; made = refl },
    (record { key = b'm' ∷ []; seq = 5; kind = delete; seq_fits = omega arith; made = refl }, tt),
  ),
)

all-Sorted : Sorted false all_entries
unfolding cmp_ikey make_ikey
all-Sorted = ((refl, (refl, tt)), ((refl, tt), (tt, tt)))

newer-IsSorted : IsSorted ikey_order newer
unfolding cmp_ikey make_ikey
newer-IsSorted = ((refl, tt), (tt, tt))

woven : Interleaves (newer ∷ older ∷ []) all_entries
woven =
    take [] k7 (m5 ∷ []) (older ∷ [])
      (take ((m5 ∷ []) ∷ []) k3 [] [] (take [] m5 [] ([] ∷ []) (done (refl, (refl, tt)))))

abbrev Found : List Entry → Type 0
Found out =
    (u : List ℕ)
    → OrderedMap.lookup bytes_order u out ≡ (
        if bytes_lt u (b'k' ∷ [])
        then none
        else if past (some (b'z' ∷ [])) u
        then none
        else newest 8 u all_entries)

scan_merged_example :
    (f : MvccForward (merge (mem_iter sorted_list))) × (out : List Entry) × (new_forward
        (merge (mem_iter sorted_list))
        (new_merge
          (mem_iter sorted_list)
          (iter sorted_list newer ∷ iter sorted_list older ∷ [])
          false)
        8
        (b'k' ∷ [])
        (some (b'z' ∷ []))
      ≡ ok f)
    × (scan (merge (mem_iter sorted_list)) 4 4 f ≡ ok out)
    × IsSorted bytes_order out
    × Found out
scan_merged_example =
    scan_merged (mem_iter sorted_list) (mem_iter-Walk sorted_list)
      (iter sorted_list newer ∷ iter sorted_list older ∷ []) (newer ∷ older ∷ []) all_entries 8 3
      (b'k' ∷ []) (some (b'z' ∷ []))
      (iter-Over sorted_list newer newer-IsSorted, (iter-Over sorted_list older (tt, tt), tt)) woven
      all-Sorted all-IsEntry (omega arith)

abbrev memtable : Memtable sorted_list
memtable = record { map = all_entries; bytes = 0; wal_id = 1 }

get-newest_example :
    put_of (get sorted_list memtable (b'k' ∷ []) 6) ≡ newest 6 (b'k' ∷ []) all_entries
unfolding IsWf
get-newest_example =
    get-newest sorted_list memtable (b'k' ∷ []) 6 (omega arith) all-IsEntry all-Sorted
