-- ===== src/Mvcc/Scan.antt =====
-- crates/fluent31/src/iter.rs: a whole scan of a range in a snapshot.
use mathlib.Core.Path.{subst}
use fluent.Prelude.{
  All-map, ℕ, zero, suc, ◌≤◌, ◌<◌, ◌≡◌, refl, ap, ◌∙◌, sym, arith, true, false, if◌then◌else◌,
  Bool-cases, inl, inr, List, [], ◌∷◌, length, Option, none, some, All,
}
use fluent.Result.{Result, ok, ◌>>=◌}
use fluent.Bytes.{bytes_lt}
use fluent.Bytes.Order.{cmp_bytes-eq, cmp_bytes-flip, cmp_bytes_trans}
use fluent.OrderedMap
use fluent.OrderedMap.{IsSorted}
use fluent.OrderedMap.Keys.{bytes_order}
use fluent.Types.{max_seqno, make_seek_ikey, ikey_ukey, ikey_kind, cmp_ikey}
use fluent.Types.Ikey.{make_ikey_parts, cmp_ikey-seek}
use fluent.Memtable.Lookup.{IsEntry}
use fluent.Iter.{Entry, InternalIterator}
use fluent.Iter.Walk.{Walk, Sorted, is_before, from, from-All, from-Sorted, length-from}
use fluent.Mvcc.{MvccForward, new_forward, past, next_visible}
use fluent.Mvcc.Forward.{HasKind, Streams, next_visible_lem, stream}
use fluent.Mvcc.Ascending.{stream-IsSorted}
use fluent.Mvcc.Newest.{
  newest, newest_above, newest_other, above-AtLeast, AtLeast, KeysOrdered, stream_found,
}

-- The client's loop: the pairs up to the end of the stream, in at most so many rounds.
unfoldable pub scan : (I : InternalIterator) → ℕ → ℕ → MvccForward I → Result (List Entry)
scan I fuel zero f = ok []
scan I fuel (suc rounds) f =
    let rest = λ (g : MvccForward I). scan I fuel rounds g in
    next_visible I fuel f >>= λ x. elim x.0 [
      | none ↦ ok []
      | some pair ↦ rest x.1 >>= λ pairs. ok (pair ∷ pairs)
    ]

scan_lem :
    (I : InternalIterator) (w : Walk I false) (n rounds : ℕ) (f : MvccForward I) (out : List Entry)
    → Streams I w n f out
    → length out < rounds
    → scan I (suc n) rounds f ≡ ok out
unfolding scan
scan_lem I w n zero f out s h = absurd (omega arith)
scan_lem I w n (suc rounds) f [] s h = let (f', e, s') = next_visible_lem I w n f [] s in rw e refl
scan_lem I w n (suc rounds) f (x ∷ out) s h =
    let (f', e, s') = next_visible_lem I w n f (x ∷ out) s in
    rw (e, scan_lem I w n rounds f' out s' (omega arith)) refl

length-stream :
    (snap : ℕ) (hi last : Option (List ℕ)) (l : List Entry)
    → length (stream snap hi last l) ≤ length l
unfolding stream
length-stream snap hi last [] = omega arith
length-stream snap hi last (e ∷ l) =
    ground (arith, length-stream snap hi last l, length-stream snap hi (some (ikey_ukey e.0)) l)

made-HasKind : (e : Entry) → IsEntry e → HasKind e
made-HasKind e x =
    let (_, _, known) = make_ikey_parts x.key x.seq x.kind x.seq_fits in
    (x.kind, ap ikey_kind x.made ∙ known)

pub Sorted-KeysOrdered : (l : List Entry) → Sorted false l → KeysOrdered l
unfolding cmp_ikey
Sorted-KeysOrdered [] h = tt
Sorted-KeysOrdered (e ∷ l) (least, h) =
    (All-map _ _ l (λ x b. ground (arith, b)) least, Sorted-KeysOrdered l h)

-- The seek target of `lo` is the place where the keys from `lo` on begin.
module _ (lo : List ℕ) where
  abbrev target : List ℕ
  target = make_seek_ikey lo max_seqno

  is_before-target :
      (e : Entry) → IsEntry e → is_before false e.0 target ≡ bytes_lt (ikey_ukey e.0) lo
  is_before-target e x =
      let (ukey, _, _) = make_ikey_parts x.key x.seq x.kind x.seq_fits in
      subst
        (λ (k : List ℕ).
          is_before false k (make_seek_ikey lo max_seqno) ≡ bytes_lt (ikey_ukey k) lo)
        (sym x.made)
        (rw
          (ukey, is_before, cmp_ikey-seek x.key lo x.seq max_seqno x.kind x.seq_fits (omega arith))
          (ground (arith, x.seq_fits)))

  from-AtLeast : (l : List Entry) → All IsEntry l → KeysOrdered l → AtLeast lo (from false target l)
  unfolding from
  from-AtLeast [] h s = tt
  from-AtLeast (e ∷ l) (x, h) (least, s) = elim (Bool-cases (bytes_lt (ikey_ukey e.0) lo)) [
    | inl before ↦ rw (is_before-target e x, before) (from-AtLeast l h s)
    | inr reached ↦
        rw (is_before-target e x, reached)
          (
            ground (arith, reached, cmp_bytes-flip (ikey_ukey e.0) lo),
            All-map _ _ l
                (λ y b. ground (
                  arith,
                  reached,
                  b,
                  cmp_bytes-flip (ikey_ukey e.0) lo,
                  cmp_bytes-flip (ikey_ukey e.0) (ikey_ukey y.0),
                  cmp_bytes-flip lo (ikey_ukey y.0),
                  cmp_bytes_trans (ikey_ukey y.0) lo (ikey_ukey e.0),
                  cmp_bytes-eq lo (ikey_ukey e.0),
                ))
                least,
          )
  ]

  newest-from :
      (snap : ℕ) (u : List ℕ) (l : List Entry)
      → All IsEntry l
      → bytes_lt u lo ≡ false
      → newest snap u (from false target l) ≡ newest snap u l
  unfolding from
  newest-from snap u [] h k = refl
  newest-from snap u (e ∷ l) (x, h) k = elim (Bool-cases (bytes_lt (ikey_ukey e.0) lo)) [
    | inl before ↦
        rw (is_before-target e x, before)
          (newest-from snap u l h k
            ∙ sym (
                newest_other snap u e l
                  (ground (arith, before, k, cmp_bytes-eq (ikey_ukey e.0) u))))
    | inr reached ↦ rw (is_before-target e x, reached) refl
  ]

-- A scan of `[lo, hi)` at a snapshot, over any cursor: it succeeds, its keys ascend, and under each key
-- of the range it holds the value of the newest version that the snapshot sees, where there is one that
-- is not a delete; no other key is in it.
pub scan_range :
    (I : InternalIterator) (w : Walk I false) (it : I.State) (l : List Entry) (snap n : ℕ)
    (lo : List ℕ) (hi : Option (List ℕ))
    → w.Over it l
    → Sorted false l
    → All IsEntry l
    → length l ≤ n
    → (f : MvccForward I) × (out : List Entry) × (new_forward I it snap lo hi ≡ ok f)
      × (scan I (suc n) (suc n) f ≡ ok out)
      × IsSorted bytes_order out
      × ((u : List ℕ)
          → OrderedMap.lookup bytes_order u out
            ≡ (if bytes_lt u lo then none else if past hi u then none else newest snap u l))
unfolding new_forward
scan_range I w it l snap n lo hi over sorted made bound =
    let (it', sought, ahead) = w.seek_target it l (make_seek_ikey lo max_seqno) over in
    let f : MvccForward I = record {
      it = it';
      snap = snap;
      hi = hi;
      last_ukey = none;
      done = false;
    } in
    (
      f,
      stream snap hi none left,
      rw sought refl,
      scan_lem I w n (suc n) f (stream snap hi none left)
          (record {
            left = left;
            ahead = ahead;
            kinds = kinds;
            bounded = omega (arith, length-from false (make_seek_ikey lo max_seqno) l, bound);
            yields = refl;
          })
          (omega (
            arith,
            length-stream snap hi none left,
            length-from false (make_seek_ikey lo max_seqno) l,
            bound,
          )),
      stream-IsSorted snap hi none left kinds keys,
      lookups,
    )
  where
    left : List Entry
    left = from false (make_seek_ikey lo max_seqno) l

    kinds : All HasKind left
    kinds =
        All-map IsEntry HasKind left made-HasKind
          (from-All false IsEntry (make_seek_ikey lo max_seqno) l made)

    keys : KeysOrdered left
    keys = Sorted-KeysOrdered left (from-Sorted false (make_seek_ikey lo max_seqno) l sorted)

    nothing : (u : List ℕ) → bytes_lt u lo ≡ true → newest snap u left ≡ none
    nothing u below = newest_above snap u left (
        above-AtLeast u lo left (ground (arith, below))
          (from-AtLeast lo l made (Sorted-KeysOrdered l sorted)))

    lookups :
        (u : List ℕ)
        → OrderedMap.lookup bytes_order u (stream snap hi none left)
          ≡ (if bytes_lt u lo then none else if past hi u then none else newest snap u l)
    lookups u = stream_found snap hi none u left kinds keys tt ∙ elim (Bool-cases (bytes_lt u lo)) [
      | inl below ↦ rw (below, nothing u below) (ground arith)
      | inr within ↦ rw within (
          ap (λ (v : Option (List ℕ)). if past hi u then none else v)
            (newest-from lo snap u l made within))
    ]
