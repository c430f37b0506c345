-- ===== src/Snapshots/Floor.antt =====
-- crates/fluent31/src/db.rs: nothing that happens to the snapshots lets a reader below what a collection
-- with an earlier watermark kept.
use fluent.Prelude.{
  subst, ◌&&◌, not, ℕ, ◌+◌, ◌≤◌, ◌<◌, min, ltb, ltb→lt, All-map, ◌==◌, ◌≡◌, arith, Bool-cases, inl,
  inr, List, [], ◌∷◌, All,
}
use fluent.Result.{ok}
use fluent.Snapshots.{
  Retention, count_up, count_down, watermark, or_else, first_key, register_snapshot,
  register_snapshot_at, try_register_snapshot_at, deregister_snapshot, advance_pin,
}

-- What may become of the list and of the visible number, where the flushed head was at `low` or is
-- beyond it. A fork at the flushed head registers it with no check, and a pin moves up, within what is
-- visible. The pins of the manifest are registered at the open, before any collection.
pub data Step (low : ℕ) : Retention → Retention → Type 0 where
  take_snapshot : (db : Retention) → Step low db (register_snapshot db).1
  take_at :
      (db : Retention) (seq : ℕ) {db' : Retention}
      → try_register_snapshot_at db seq ≡ ok db'
      → Step low db db'
  take_head : (db : Retention) → Step low db (register_snapshot_at db db.visible_seqno)
  take_flushed :
      (db : Retention) (head : ℕ) → low ≤ head → Step low db (register_snapshot_at db head)
  move_pin :
      (db : Retention) (pinned last : ℕ)
      → watermark db ≤ pinned
      → pinned ≤ last
      → last ≤ db.visible_seqno
      → Step low db (advance_pin db pinned last)
  release : (db : Retention) (seq : ℕ) → Step low db (deregister_snapshot db seq)
  publish :
      (db : Retention) (seq : ℕ)
      → db.visible_seqno ≤ seq
      → Step low db (record db { visible_seqno = seq })

pub data Reach (low : ℕ) (db : Retention) : Retention → Type 0 where
  here : Reach low db db
  next : {t u : Retention} → Reach low db t → Step low t u → Reach low db u

-- The least number at which a reader may come to stand.
abbrev pub floor : ℕ → Retention → ℕ
floor low db = min (watermark db) low

abbrev pub Above : ℕ → List (ℕ × ℕ) → Type 0
Above n = All (λ p. n ≤ p.0)

abbrev pub Ascending : List (ℕ × ℕ) → Type 0
Ascending [] = Unit
Ascending ((k, c) ∷ l) = Above (k + 1) l × Ascending l

try_register_inv :
    (db : Retention) (seq : ℕ) {db' : Retention}
    → try_register_snapshot_at db seq ≡ ok db'
    → (register_snapshot_at db seq ≡ db')
      × (seq ≤ db.visible_seqno)
      × (floor db.visible_seqno db ≤ seq)
unfolding try_register_snapshot_at register_snapshot_at watermark
try_register_inv db seq e = elim (Bool-cases (ltb db.visible_seqno seq)) [
  | inl unseen ↦ absurd (cc)
  | inr seen ↦ elim (Bool-cases (ltb seq (watermark db) && not (seq == db.visible_seqno))) [
    | inl lost ↦ absurd (cc)
    | inr kept ↦ (ground (arith, seen, kept, e), ground (arith, seen), ground (arith, seen, kept))
  ]
]

module _ (n : ℕ) where
  count_up-Above : (seq : ℕ) (l : List (ℕ × ℕ)) → n ≤ seq → Above n l → Above n (count_up seq l)
  unfolding count_up
  count_up-Above seq [] h a = (h, tt)
  count_up-Above seq ((k, c) ∷ l) h (a, rest) = ground (arith, count_up-Above seq l h rest, a, rest)

  count_down-Above : (seq : ℕ) (l : List (ℕ × ℕ)) → Above n l → Above n (count_down seq l)
  unfolding count_down
  count_down-Above seq [] a = tt
  count_down-Above seq ((k, c) ∷ l) (a, rest) = ground (arith, count_down-Above seq l rest, a, rest)

  -- No registered number, nor the visible one, is below `n`.
  abbrev NotBelow : Retention → Type 0
  NotBelow db = Above n db.snapshots.counts × (n ≤ db.visible_seqno)

  NotBelow-watermark :
      (counts : List (ℕ × ℕ)) (visible : ℕ)
      → Above n counts
      → n ≤ visible
      → n ≤ or_else (first_key counts) (visible + 1)
  NotBelow-watermark [] visible a h = omega arith
  NotBelow-watermark ((k, c) ∷ l) visible (a, rest) h = a

  Step-NotBelow : (low : ℕ) {s t : Retention} → n ≤ low → Step low s t → NotBelow s → NotBelow t
  unfolding register_snapshot register_snapshot_at deregister_snapshot advance_pin watermark
  Step-NotBelow low le (take_snapshot db) (a, h) = (count_up-Above db.visible_seqno _ h a, h)
  Step-NotBelow low le (take_at db seq e) (a, h) =
      let (made, seen, kept) = try_register_inv db seq e in
      subst NotBelow made (
        count_up-Above seq _
            (omega (arith, NotBelow-watermark db.snapshots.counts db.visible_seqno a h)) a,
        h,
      )
  Step-NotBelow low le (take_head db) (a, h) = (count_up-Above db.visible_seqno _ h a, h)
  Step-NotBelow low le (take_flushed db head beyond) (a, h) =
      (count_up-Above head _ (omega arith) a, h)
  Step-NotBelow low le (move_pin db pinned last held up seen) (a, h) = (
    count_down-Above pinned _ (
        count_up-Above last _
          (omega (arith, NotBelow-watermark db.snapshots.counts db.visible_seqno a h)) a),
    h,
  )
  Step-NotBelow low le (release db seq) (a, h) = (count_down-Above seq _ a, h)
  Step-NotBelow low le (publish db seq up) (a, h) = (a, omega arith)

count_up-Ascending : (seq : ℕ) (l : List (ℕ × ℕ)) → Ascending l → Ascending (count_up seq l)
unfolding count_up
count_up-Ascending seq [] a = (tt, tt)
count_up-Ascending seq ((k, c) ∷ l) (a, rest) = elim (Bool-cases (ltb seq k)) [
  | inl below ↦
      let first : seq < k = ltb→lt seq k below in
      rw below ((omega (arith, first), All-map _ _ l (λ x h. omega (arith, first)) a), (a, rest))
  | inr reached ↦ rw reached (elim (Bool-cases (seq == k)) [
    | inl same ↦ rw same (a, rest)
    | inr other ↦ rw other (
      count_up-Above (k + 1) seq l (ground (arith, reached, other)) a,
      count_up-Ascending seq l rest,
    )
  ])
]

count_down-Ascending : (seq : ℕ) (l : List (ℕ × ℕ)) → Ascending l → Ascending (count_down seq l)
unfolding count_down
count_down-Ascending seq [] a = tt
count_down-Ascending seq ((k, c) ∷ l) (a, rest) =
    ground (arith, a, rest, count_down-Above (k + 1) seq l a, count_down-Ascending seq l rest)

Step-Ascending :
    (low : ℕ) {s t : Retention}
    → Step low s t
    → Ascending s.snapshots.counts
    → Ascending t.snapshots.counts
unfolding register_snapshot register_snapshot_at deregister_snapshot advance_pin
Step-Ascending low (take_snapshot db) a = count_up-Ascending db.visible_seqno _ a
Step-Ascending low (take_at db seq e) a =
    subst (λ t. Ascending t.snapshots.counts) (try_register_inv db seq e).0
      (count_up-Ascending seq _ a)
Step-Ascending low (take_head db) a = count_up-Ascending db.visible_seqno _ a
Step-Ascending low (take_flushed db head beyond) a = count_up-Ascending head _ a
Step-Ascending low (move_pin db pinned last held up seen) a =
    count_down-Ascending pinned _ (count_up-Ascending last _ a)
Step-Ascending low (release db seq) a = count_down-Ascending seq _ a
Step-Ascending low (publish db seq up) a = a

floor-NotBelow :
    (low : ℕ) (db : Retention)
    → low ≤ db.visible_seqno
    → Ascending db.snapshots.counts
    → NotBelow (floor low db) db
unfolding watermark
floor-NotBelow low db le a = (least db.snapshots.counts a, omega arith)
  where
    least :
        (l : List (ℕ × ℕ))
        → Ascending l
        → Above (min (or_else (first_key l) (db.visible_seqno + 1)) low) l
    least [] a = tt
    least ((k, c) ∷ l) (a, rest) = (omega arith, All-map _ _ l (λ x h. omega arith) a)

Reach-NotBelow :
    (n low : ℕ) {s t : Retention} → n ≤ low → Reach low s t → NotBelow n s → NotBelow n t
Reach-NotBelow n low le here h = h
Reach-NotBelow n low le (next r st) h = Step-NotBelow n low le st (Reach-NotBelow n low le r h)

-- Where a collection took its watermark while the flushed head was `low`, which was visible, any sequence
-- of registrations, releases, moves of a pin and publications follows, forks at that or a later flushed
-- head among them: the least of the watermark and `low` stays a bound below every registered snapshot,
-- below what is visible, and below the same least number then; and no step puts the list out of order.
pub Reach-floor :
    (low : ℕ) {s t : Retention}
    → low ≤ s.visible_seqno
    → Ascending s.snapshots.counts
    → Reach low s t
    → Above (floor low s) t.snapshots.counts
      × (floor low s ≤ t.visible_seqno)
      × (floor low s ≤ floor low t)
      × Ascending t.snapshots.counts
Reach-floor low {s} {t} le a r =
    let (above, seen) =
      Reach-NotBelow (floor low s) low (omega arith) r (floor-NotBelow low s le a) in
    (
      above,
      seen,
      unfold watermark in
          omega (
            arith,
            seen,
            NotBelow-watermark (floor low s) t.snapshots.counts t.visible_seqno above seen,
          ),
      keeps r,
    )
  where
    keeps : {u : Retention} → Reach low s u → Ascending u.snapshots.counts
    keeps here = a
    keeps (next r st) = Step-Ascending low st (keeps r)
