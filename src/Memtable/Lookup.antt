-- ===== src/Memtable/Lookup.antt =====
-- crates/fluent31/src/memtable.rs: a lookup in the memtable yields the newest version of the key that
-- the snapshot sees.
use fluent.Prelude.{
  ℕ, ◌≤◌, Bool, true, false, not, ◌&&◌, ◌||◌, leb, ltb, ◌==◌, if◌then◌else◌, Ordering, compare, ◌≡◌,
  sym, List, Option, none, some, All, refl, arith, Option-cases, inl, inr, subst,
}
use fluent.Bytes.{then_with, cmp_bytes, bytes_eq, is_lt, is_gt}
use fluent.Bytes.Order.{cmp_bytes_refl, cmp_bytes-eq, cmp_bytes-flip, cmp_bytes_trans}
use fluent.Types.{ValueKind, kind_u8, max_seqno, make_ikey, make_seek_ikey, cmp_ikey}
use fluent.Types.Ikey.{make_ikey_parts, cmp_ikey-make_ikey, cmp_ikey-seek}
use fluent.OrderedMap
use fluent.OrderedMap.Bound.{nearer, lower_bound-insert, lower_bound_found, All-insert_any}
use fluent.Memtable.{Memtable, new, insert, get, visible_in}
use fluent.Memtable.Skiplist.{SkipMap, ikey_order}

-- An entry under an internal key that `make_ikey` built.
pub record IsEntry (e : List ℕ × List ℕ) : Type 0 where
  pub key : List ℕ
  pub seq : ℕ
  pub kind : ValueKind
  pub seq_fits : seq ≤ max_seqno
  pub made : e.0 ≡ make_ikey key seq kind

-- What a lookup has found, and whether a version at `(s, kind)` is behind it.
abbrev pub shadowed : Option (ValueKind × ℕ × List ℕ) → ℕ → ValueKind → Bool
shadowed none s kind = false
shadowed (some (kind', s', _)) s kind = ltb s s' || (s == s' && ltb (kind_u8 kind) (kind_u8 kind'))

-- What `get` makes of an entry under a made key.
visible_made :
    (ukey key : List ℕ) (s : ℕ) (kind : ValueKind) (repr : List ℕ)
    → s ≤ max_seqno
    → visible_in ukey (some (make_ikey key s kind, repr))
      ≡ (if bytes_eq key ukey then some (kind, s, repr) else none)
unfolding visible_in
visible_made ukey key s kind repr hs = let (p, q, r) = make_ikey_parts key s kind hs in rw (p, q, r)

abbrev answer : List ℕ → (List ℕ × ℕ × ValueKind × List ℕ) → Option (ValueKind × ℕ × List ℕ)
answer ukey (key, s, kind, repr) = if bytes_eq key ukey then some (kind, s, repr) else none

-- The case of two entries: the new one under `(k, s, kind)`, and `(j, t, kind')`, which is not below
-- the target `(u, q)`.
two_entries :
    (u k j : List ℕ) (q s t : ℕ) (kind kind' : ValueKind) (repr repr' : List ℕ)
    → is_lt (then_with (cmp_bytes j u) (if leb t q then Ordering.gt else Ordering.lt)) ≡ false
    → (if is_lt (then_with (cmp_bytes k u) (if leb s q then Ordering.gt else Ordering.lt))
        then answer u (j, t, kind', repr')
        else if is_gt (
            then_with
              (cmp_bytes k j)
              (then_with (compare t s) (compare (kind_u8 kind') (kind_u8 kind))))
        then answer u (j, t, kind', repr')
        else answer u (k, s, kind, repr))
      ≡ (if bytes_eq k u && (leb s q && not (shadowed (answer u (j, t, kind', repr')) s kind))
          then some (kind, s, repr)
          else answer u (j, t, kind', repr'))
two_entries u k j q s t kind kind' repr repr' h = ground (
  arith,
  cmp_bytes-eq k u,
  cmp_bytes-eq j u,
  cmp_bytes-eq k j,
  cmp_bytes-flip k j,
  cmp_bytes-flip j u,
  cmp_bytes-flip k u,
  cmp_bytes_trans u k j,
  cmp_bytes_trans k j u,
  cmp_bytes_refl u,
)

visible_none : (u : List ℕ) → visible_in u none ≡ none
unfolding visible_in
visible_none u = refl

visible_if :
    (u : List ℕ) (b : Bool) (x y : Option (List ℕ × List ℕ))
    → visible_in u (if b then x else y) ≡ (if b then visible_in u x else visible_in u y)
visible_if u true x y = refl
visible_if u false x y = refl

one_entry :
    (u k : List ℕ) (q s : ℕ) (kind : ValueKind) (repr : List ℕ)
    → (if is_lt (then_with (cmp_bytes k u) (if leb s q then Ordering.gt else Ordering.lt))
        then none
        else answer u (k, s, kind, repr))
      ≡ (if bytes_eq k u && (leb s q && true) then some (kind, s, repr) else none)
one_entry u k q s kind repr = ground (arith, cmp_bytes-eq k u)

-- What `get` makes of the entry found after an insertion.
abbrev VisibleAfter :
    List ℕ → ℕ → List ℕ → ℕ → ValueKind → List ℕ → Option (List ℕ × List ℕ) → Type 0
VisibleAfter u q k s kind repr found =
    visible_in u (nearer ikey_order (make_ikey k s kind) repr (make_seek_ikey u q) found) ≡ (
      if bytes_eq k u && (leb s q && not (shadowed (visible_in u found) s kind))
      then some (kind, s, repr)
      else visible_in u found)

module _ (u : List ℕ) (q : ℕ) (k : List ℕ) (s : ℕ) (kind : ValueKind) (repr : List ℕ)
    (hq : q ≤ max_seqno) (hs : s ≤ max_seqno) where
  after_none : VisibleAfter u q k s kind repr none
  after_none =
      rw
        (
          cmp_ikey-seek k u s q kind hs hq,
          visible_if,
          visible_none u,
          visible_made u k s kind repr hs,
        )
        (one_entry u k q s kind repr)

  after_some :
      (j : List ℕ) (t : ℕ) (kind' : ValueKind) (repr' : List ℕ)
      → t ≤ max_seqno
      → is_lt (cmp_ikey (make_ikey j t kind') (make_seek_ikey u q)) ≡ false
      → VisibleAfter u q k s kind repr (some (make_ikey j t kind', repr'))
  after_some j t kind' repr' ht h =
      rw
        (
          cmp_ikey-seek k u s q kind hs hq,
          cmp_ikey-make_ikey k j s t kind kind' hs ht,
          visible_if,
          visible_if,
          visible_made u k s kind repr hs,
          visible_made u j t kind' repr' ht,
        )
        (two_entries u k j q s t kind kind' repr repr'
          (rw (cmp_ikey-seek j u t q kind' ht hq) at h))

  after_found :
      (e : List ℕ × List ℕ)
      → IsEntry e
      → is_lt (cmp_ikey e.0 (make_seek_ikey u q)) ≡ false
      → VisibleAfter u q k s kind repr (some e)
  after_found e x h =
      subst (λ (j : List ℕ). VisibleAfter u q k s kind repr (some (j, e.1))) (sym x.made)
        (after_some x.key x.seq x.kind e.1 x.seq_fits
          (subst (λ (j : List ℕ). is_lt (cmp_ikey j (make_seek_ikey u q)) ≡ false) x.made h))

module _ (m : SkipMap) where
  unfoldable pub IsWf : Memtable m → Type 0
  IsWf mt = All IsEntry (m.entries mt.map)

  -- An empty memtable knows no key.
  pub get-new : (wal_id : ℕ) (ukey : List ℕ) (seq : ℕ) → get m (new m wal_id) ukey seq ≡ none
  unfolding get new OrderedMap.lower_bound
  get-new wal_id ukey seq = rw (m.lower_bound_first, m.entries_new) (visible_none ukey)

  -- After the insertion of a version, a snapshot sees it exactly where it is a version of the key
  -- that the snapshot may see and nothing newer was visible; all other lookups are as before.
  pub get-insert :
      (mt : Memtable m) (key : List ℕ) (s : ℕ) (kind : ValueKind) (repr ukey : List ℕ) (seq : ℕ)
      → IsWf mt
      → s ≤ max_seqno
      → seq ≤ max_seqno
      → get m (insert m mt (make_ikey key s kind) repr) ukey seq ≡ (
          if bytes_eq key ukey && (leb s seq && not (shadowed (get m mt ukey seq) s kind))
          then some (kind, s, repr)
          else get m mt ukey seq)
  unfolding get insert IsWf
  get-insert mt key s kind repr ukey seq wf hs hq =
      rw (m.lower_bound_first, m.entries_insert, lower_bound-insert, m.lower_bound_first)
        (elim (Option-cases
          (OrderedMap.lower_bound ikey_order (make_seek_ikey ukey seq) (m.entries mt.map))) [
            | inl nothing ↦ rw nothing (after_none ukey seq key s kind repr hq hs)
            | inr (e, found) ↦
                let (x, ge) =
                  lower_bound_found ikey_order IsEntry (make_seek_ikey ukey seq) (m.entries mt.map)
                    e wf found in
                rw found (after_found ukey seq key s kind repr hq hs e x ge)
          ])

  -- Inserting made keys keeps the memtable's entries made.
  pub insert-IsWf :
      (mt : Memtable m) (key : List ℕ) (s : ℕ) (kind : ValueKind) (repr : List ℕ)
      → IsWf mt
      → s ≤ max_seqno
      → IsWf (insert m mt (make_ikey key s kind) repr)
  unfolding insert IsWf
  insert-IsWf mt key s kind repr wf hs = rw m.entries_insert (
      All-insert_any ikey_order IsEntry (make_ikey key s kind) repr (m.entries mt.map)
        (record { key = key; seq = s; kind = kind; seq_fits = hs; made = refl }) wf)
