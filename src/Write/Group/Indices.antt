-- ===== src/Write/Group/Indices.antt =====
-- crates/fluent31/src/db.rs: the indices of the batches that phase 0 of `apply_group_locked` accepts.
use fluent.Prelude.{
  ℕ, zero, suc, ◌+◌, ◌≤◌, leb, List, [], ◌∷◌, ◌++◌, length, get_elem?, none, some, ◌≡◌, ◌∙◌, refl,
  ap, sym, inl, inr, subst, Bool-cases, arith,
}
use fluent.Result.{err, Error, invalid_argument}
use fluent.Memtable.Skiplist.{SkipMap}
use fluent.Batch.{BatchOp}
use fluent.Types.{max_seqno}
use fluent.Write.{Disk, Options, max_batch, approx_size, capture_events}
use fluent.Write.Group.{Results, Batch, Store, Accepted, Placed, accept, from_tail}
use fluent.Write.Group.Open.{InBatches, InPlaced}

-- The batches `ps` are the first ones of `accepted`.
unfoldable pub FirstOf : List Placed → List Accepted → Type 0
FirstOf [] accepted = Unit
FirstOf (p ∷ ps) [] = ⊥
FirstOf (p ∷ ps) (a ∷ accepted) = (p.index ≡ a.index) × FirstOf ps accepted

pub FirstOf-In :
    (ps : List Placed) (accepted : List Accepted) (j : ℕ)
    → FirstOf ps accepted
    → InPlaced ps j
    → InBatches accepted j
unfolding FirstOf InPlaced InBatches
FirstOf-In [] accepted j e h = elim h [ ]
FirstOf-In (p ∷ ps) [] j e h = elim e [ ]
FirstOf-In (p ∷ ps) (a ∷ accepted) j (e, rest) (inl h) = inl (h ∙ e)
FirstOf-In (p ∷ ps) (a ∷ accepted) j (e, rest) (inr h) = inr (FirstOf-In ps accepted j rest h)

-- Indices grow from `lo` on.
unfoldable pub Ascends : ℕ → List Accepted → Type 0
Ascends lo [] = Unit
Ascends lo (a ∷ rest) = (lo ≤ a.index) × Ascends (suc a.index) rest

Ascends-middle :
    (lo : ℕ) (pre : List Accepted) (a : Accepted) (tail : List Accepted)
    → Ascends lo (pre ++ a ∷ tail)
    → lo ≤ a.index
unfolding Ascends
Ascends-middle lo [] a tail h = h.0
Ascends-middle lo (b ∷ pre) a tail (le, h) =
    omega (arith, le, Ascends-middle (suc b.index) pre a tail h)

pub from_tail-append :
    (lo : ℕ) (pre : List Accepted) (a : Accepted) (tail : List Accepted)
    → Ascends lo (pre ++ a ∷ tail)
    → from_tail a.index (pre ++ a ∷ tail) ≡ tail
unfolding from_tail Ascends
from_tail-append lo [] a tail h = ground arith
from_tail-append lo (b ∷ pre) a tail (le, h) =
    ground (
      arith,
      Ascends-middle (suc b.index) pre a tail h,
      from_tail-append (suc b.index) pre a tail h,
    )

module _ (disk : Disk) (m : SkipMap) (crc32 : List ℕ → ℕ) (opts : Options)
    (capture_ops : List BatchOp → ℕ → List BatchOp) where
  abbrev S : Type 0
  S = Store disk m crc32 opts capture_ops

  -- The index counts from `i`.
  unfoldable pub OpenFrom : ℕ → Results → List Accepted → Type 0
  OpenFrom i results accepted =
      (j : ℕ) → get_elem? results j ≡ some none → InBatches accepted (i + j)

  unfoldable pub Checked : ℕ → ℕ → List Accepted × Results → Type 0
  Checked i n (accepted, results) =
      (length results ≡ n) × Ascends i accepted × OpenFrom i results accepted

  Ascends-mono :
      (lo hi : ℕ) (accepted : List Accepted) → lo ≤ hi → Ascends hi accepted → Ascends lo accepted
  unfolding Ascends
  Ascends-mono lo hi [] le h = h
  Ascends-mono lo hi (a ∷ rest) le (le', h) = (omega arith, h)

  open-refused :
      (i : ℕ) (e : Error) (accepted : List Accepted) (results : Results)
      → OpenFrom (suc i) results accepted
      → OpenFrom i (some (err e) ∷ results) accepted
  unfolding OpenFrom
  open-refused i e accepted results open_at zero h = cc
  open-refused i e accepted results open_at (suc j) h =
      subst (InBatches accepted) (omega arith) (open_at j h)

  open-taken :
      (i : ℕ) (a : Accepted) (accepted : List Accepted) (results : Results)
      → a.index ≡ i
      → OpenFrom (suc i) results accepted
      → OpenFrom i (none ∷ results) (a ∷ accepted)
  unfolding OpenFrom InBatches
  open-taken i a accepted results e open_at zero h = inl (omega arith)
  open-taken i a accepted results e open_at (suc j) h =
      inr (subst (InBatches accepted) (omega arith) (open_at j h))

  refuse-Checked :
      (i n : ℕ) (e : Error) (accepted : List Accepted) (results : Results)
      → Checked (suc i) n (accepted, results)
      → Checked i (suc n) (accepted, some (err e) ∷ results)
  unfolding Checked
  refuse-Checked i n e accepted results (len, asc, open_at) = (
    ap suc len,
    Ascends-mono i (suc i) accepted (omega arith) asc,
    open-refused i e accepted results open_at,
  )

  take-Checked :
      (i n : ℕ) (a : Accepted) (accepted : List Accepted) (results : Results)
      → a.index ≡ i
      → Checked (suc i) n (accepted, results)
      → Checked i (suc n) (a ∷ accepted, none ∷ results)
  unfolding Checked Ascends
  take-Checked i n a accepted results e (len, asc, open_at) = (
    ap suc len,
    (omega arith, subst (λ x. Ascends (suc x) accepted) (sym e) asc),
    open-taken i a accepted results e open_at,
  )

  pub accept-Checked :
      (i next : ℕ) (batches : List (Batch disk m crc32 opts capture_ops))
      → Checked i (length batches) (accept disk m crc32 opts capture_ops i next batches)
  unfolding accept Checked Ascends OpenFrom
  accept-Checked i next [] = (refl, tt, λ j h. cc)
  accept-Checked i next ((ops, capture) ∷ batches) =
      let all = ops ++ capture_events disk m crc32 opts capture_ops ops next capture in
      let later = accept disk m crc32 opts capture_ops (suc i) next batches in
      let refused =
        refuse-Checked i (length batches) invalid_argument later.0 later.1
          (accept-Checked (suc i) next batches) in
      elim (Bool-cases (leb max_batch (approx_size all))) [
        | inl big ↦ rw big refused
        | inr small ↦ rw small (elim (Bool-cases (leb max_seqno (next + length all))) [
          | inl full ↦ rw full refused
          | inr free ↦ rw free (
              take-Checked i (length batches) _ _ _ refl
                (accept-Checked (suc i) (next + length all) batches))
        ])
      ]
