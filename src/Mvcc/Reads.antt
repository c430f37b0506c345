-- ===== src/Mvcc/Reads.antt =====
-- crates/fluent31/src/memtable.rs, iter.rs: point lookups in a memtable and scans agree, and a scan over
-- the merge of several cursors.
use mathlib.Core.Path.{subst}
use fluent.Prelude.{
  ℕ, suc, ◌≤◌, ◌≡◌, refl, ap, ◌∙◌, sym, arith, leb, true, false, if◌then◌else◌, Bool-cases, inl,
  inr, List, [], ◌∷◌, length, Option, none, some, Ordering, All,
}
use fluent.Result.{ok}
use fluent.Bytes.{then_with, cmp_bytes, bytes_eq, bytes_lt, is_lt}
use fluent.Bytes.Order.{cmp_bytes-flip}
use fluent.OrderedMap
use fluent.OrderedMap.{IsSorted}
use fluent.OrderedMap.Keys.{bytes_order}
use fluent.Types.{
  ValueKind, put, delete, max_seqno, make_seek_ikey, ikey_ukey, ikey_seqno, ikey_kind, cmp_ikey,
}
use fluent.Types.Ikey.{make_ikey_parts, cmp_ikey-seek}
use fluent.Memtable.{Memtable, get, visible_in}
use fluent.Memtable.Lookup.{IsEntry, IsWf}
use fluent.Memtable.Skiplist.{SkipMap, ikey_order}
use fluent.Iter.{Entry, InternalIterator, merge, new_merge}
use fluent.Iter.Walk.{Walk, Sorted}
use fluent.Iter.Interleave.{Interleaves}
use fluent.Iter.Pick.{All2}
use fluent.Iter.Merge.{merge-Walk, merge-Over}
use fluent.Mvcc.{MvccForward, past, new_forward}
use fluent.Mvcc.Newest.{newest, visible_put, newest_above, above-AtLeast, KeysOrdered}
use fluent.Mvcc.Scan.{scan, scan_range, Sorted-KeysOrdered}

abbrev pub put_of : Option (ValueKind × ℕ × List ℕ) → Option (List ℕ)
put_of none = none
put_of (some (put, s, repr)) = some repr
put_of (some (delete, s, repr)) = none

-- What the first entry behind the seek target says.
module _ (u : List ℕ) (q : ℕ) (hq : q ≤ max_seqno) where
  seek_entry :
      (e : Entry)
      → IsEntry e
      → is_lt (cmp_ikey e.0 (make_seek_ikey u q))
        ≡ is_lt (
            then_with
              (cmp_bytes (ikey_ukey e.0) u)
              (if leb (ikey_seqno e.0) q then Ordering.gt else Ordering.lt))
  seek_entry e x =
      let (ukey, seq, _) = make_ikey_parts x.key x.seq x.kind x.seq_fits in
      subst
        (λ (k : List ℕ).
          is_lt (cmp_ikey k (make_seek_ikey u q))
          ≡ is_lt (
              then_with (cmp_bytes (ikey_ukey k) u)
                (if leb (ikey_seqno k) q then Ordering.gt else Ordering.lt)))
        (sym x.made)
        (rw (ukey, seq) (ap is_lt (cmp_ikey-seek x.key u x.seq q x.kind x.seq_fits hq)))

  lower_bound-newest :
      (l : List Entry)
      → All IsEntry l
      → KeysOrdered l
      → put_of (visible_in u (OrderedMap.lower_bound ikey_order (make_seek_ikey u q) l))
        ≡ newest q u l
  unfolding OrderedMap.lower_bound newest visible_in
  lower_bound-newest [] h s = refl
  lower_bound-newest (e ∷ l) (x, h) (least, s) =
      elim (Bool-cases (is_lt (cmp_ikey e.0 (make_seek_ikey u q)))) [
        | inl before ↦
            rw (before, lower_bound-newest l h s) (ground (arith, before, seek_entry e x))
        | inr reached ↦ rw reached (elim (Bool-cases (bytes_eq (ikey_ukey e.0) u)) [
          | inl same ↦
              let (_, _, known) = make_ikey_parts x.key x.seq x.kind x.seq_fits in
              let seen : leb (ikey_seqno e.0) q ≡ true =
                ground (arith, reached, seek_entry e x, same) in
              rw (same, seen, visible_put, ap ikey_kind x.made ∙ known) (by_kind x.kind)
          | inr other ↦
              let above : cmp_bytes u (ikey_ukey e.0) ≡ Ordering.lt =
                ground (arith, reached, seek_entry e x, other, cmp_bytes-flip (ikey_ukey e.0) u) in
              rw other (sym (newest_above q u l (above-AtLeast u (ikey_ukey e.0) l above least)))
        ])
      ]
    where
      by_kind :
          (kind : ValueKind)
          → put_of (some (kind, ikey_seqno e.0, e.1)) ≡ elim kind [ put ↦ some e.1 | delete ↦ none ]
      by_kind put = refl
      by_kind delete = refl

-- A lookup in a memtable whose entries are in order finds what a scan shows under the key: the value of
-- the newest version that the snapshot sees, or nothing where that is a delete or not there.
pub get-newest :
    (m : SkipMap) (mt : Memtable m) (u : List ℕ) (q : ℕ)
    → q ≤ max_seqno
    → IsWf m mt
    → Sorted false (m.entries mt.map)
    → put_of (get m mt u q) ≡ newest q u (m.entries mt.map)
unfolding get IsWf
get-newest m mt u q hq wf sorted =
    ap (λ (e : Option Entry). put_of (visible_in u e))
      (m.lower_bound_first mt.map (make_seek_ikey u q))
    ∙ lower_bound-newest u q hq (m.entries mt.map) wf (Sorted-KeysOrdered (m.entries mt.map) sorted)

-- A scan of `[lo, hi)` over the merge of cursors whose entries interleave to a sorted list: it succeeds,
-- its keys ascend, and under each key of the range it holds the value of the newest version that the
-- snapshot sees in any of them, where there is one that is not a delete; no other key is in it.
pub scan_merged :
    (I : InternalIterator) (w : Walk I false) (children : List I.State) (lists : List (List Entry))
    (l : List Entry) (snap n : ℕ) (lo : List ℕ) (hi : Option (List ℕ))
    → All2 w.Over children lists
    → Interleaves lists l
    → Sorted false l
    → All IsEntry l
    → length l ≤ n
    → (f : MvccForward (merge I)) × (out : List Entry) × (new_forward
          (merge I)
          (new_merge I children false)
          snap
          lo
          hi
        ≡ ok f)
      × (scan (merge I) (suc n) (suc n) f ≡ ok out)
      × IsSorted bytes_order out
      × ((u : List ℕ)
          → OrderedMap.lookup bytes_order u out
            ≡ (if bytes_lt u lo then none else if past hi u then none else newest snap u l))
scan_merged I w children lists l snap n lo hi over woven sorted made bound =
    scan_range (merge I) (merge-Walk I false w) (new_merge I children false) l snap n lo hi
      (merge-Over I false w (new_merge I children false) l
        (record { lists = lists; over = over; woven = woven; sorted = sorted; direction = refl }))
      sorted made bound
