-- ===== src/Block/Search.antt =====
-- crates/fluent31/src/block.rs: the binary search of a block finds the first entry at or behind a target.
use mathlib.Core.Path.{subst}
use fluent.Prelude.{
  ℕ, zero, suc, ◌+◌, ◌/◌, ◌≤◌, ◌<◌, ◌≡◌, refl, ap, ◌∙◌, sym, arith, ltb, Bool-cases, inl, inr,
  if◌then◌else◌, Ordering, List, [], ◌∷◌, ◌++◌, length, All,
}
use fluent.Result.{ok}
use fluent.Bytes.{is_lt}
use fluent.Types.{cmp_ikey}
use fluent.Types.Ikey.{cmp_ikey_trans}
use fluent.OrderedMap.{IsSorted}
use fluent.Memtable.Skiplist.{ikey_order}
use fluent.Block.{Block, entry, lower_bound, lower_bound_loop}
use fluent.Block.Built.{Entry, Fits, IsEntry, block_of, entry-built}

-- The number of entries below the target at the head of the list: the first index that is not.
unfoldable pub first_not_below : List ℕ → List Entry → ℕ
first_not_below t [] = 0
first_not_below t (e ∷ es) =
    let rest = first_not_below t es in if is_lt (cmp_ikey e.0 t) then suc rest else 0

pub first_not_below-le : (t : List ℕ) (es : List Entry) → first_not_below t es ≤ length es
unfolding first_not_below
first_not_below-le t [] = omega arith
first_not_below-le t (e ∷ es) = ground (arith, first_not_below-le t es)

-- A search over a block in which the entries below the target are those before index `bound`.
module _ (b : Block) (t : List ℕ) (bound : ℕ)
    (at : (i : ℕ)
      → i < b.count
      → (e : Entry) × (entry b i ≡ ok e) × (is_lt (cmp_ikey e.0 t) ≡ ltb i bound)) where
  lower_bound_loop-bound :
      (rounds lo hi : ℕ)
      → lo ≤ bound
      → bound ≤ hi
      → hi ≤ b.count
      → hi ≤ lo + rounds
      → lower_bound_loop rounds b t lo hi ≡ ok bound
  unfolding lower_bound_loop
  lower_bound_loop-bound zero lo hi hl hh hc hr = ap ok (omega arith)
  lower_bound_loop-bound (suc rounds) lo hi hl hh hc hr = elim (Bool-cases (ltb lo hi)) [
    | inr done ↦ rw done (ap ok (ground (arith, done)))
    | inl more ↦
        let inside : (lo + hi) / 2 < b.count = ground (arith, more) in
        let (e, found, below) = at ((lo + hi) / 2) inside in
        rw (more, found, below)
          (ground (
            arith,
            more,
            lower_bound_loop-bound rounds ((lo + hi) / 2 + 1) hi,
            lower_bound_loop-bound rounds lo ((lo + hi) / 2),
          ))
  ]

  lower_bound-bound : bound ≤ b.count → lower_bound b t ≡ ok bound
  unfolding lower_bound
  lower_bound-bound h =
      lower_bound_loop-bound b.count 0 b.count (omega arith) h (omega arith) (omega arith)

pub split_at :
    (i : ℕ) (es : List Entry)
    → i < length es
    → (before : List Entry) × (e : Entry) × (after : List Entry) × (es ≡ before ++ (e ∷ after))
      × (length before ≡ i)
split_at i [] h = absurd (omega arith)
split_at zero (e ∷ es) h = ([], e, es, refl, refl)
split_at (suc i) (x ∷ es) h =
    let (before, e, after, split, len) = split_at i es (omega arith) in
    (x ∷ before, e, after, ap (λ (l : List Entry). x ∷ l) split, ap suc len)

pub All-middle {ℓ} :
    (P : Entry → Type ℓ) (before : List Entry) (e : Entry) (after : List Entry)
    → All P (before ++ (e ∷ after))
    → P e
All-middle P [] e after h = h.0
All-middle P (b ∷ before) e after h = All-middle P before e after h.1

sorted_below :
    (t : List ℕ) (before : List Entry) (e : Entry) (after : List Entry)
    → IsSorted ikey_order (before ++ (e ∷ after))
    → is_lt (cmp_ikey e.0 t) ≡ ltb (length before) (first_not_below t (before ++ (e ∷ after)))
unfolding first_not_below
sorted_below t [] e after h = ground arith
sorted_below t (b ∷ before) e after (least, h) = ground (
  arith,
  sorted_below t before e after h,
  All-middle (λ x. cmp_ikey b.0 x.0 ≡ Ordering.lt) before e after least,
  cmp_ikey_trans b.0 e.0 t,
)

-- On a block built from entries in order, `lower_bound` yields the first index whose entry is not
-- below the target, and the number of entries where there is none.
pub lower_bound-built :
    (es : List Entry) (t : List ℕ)
    → Fits es
    → IsSorted ikey_order es
    → lower_bound (block_of es) t ≡ ok (first_not_below t es)
lower_bound-built es t h sorted =
    lower_bound-bound (block_of es) t (first_not_below t es) at (first_not_below-le t es)
  where
    at :
        (i : ℕ)
        → i < length es
        → (e : Entry) × (entry (block_of es) i ≡ ok e)
          × (is_lt (cmp_ikey e.0 t) ≡ ltb i (first_not_below t es))
    at i inside =
        let (before, e, after, split, len) = split_at i es inside in
        let whole = before ++ (e ∷ after) in
        (
          e,
          ap (λ (l : List Entry). entry (block_of l) i) split
              ∙ ap (entry (block_of whole)) (sym len)
              ∙ entry-built before e after (subst Fits split h)
                  (All-middle IsEntry before e after (subst Fits split h).are_entries),
          sorted_below t before e after (subst (IsSorted ikey_order) split sorted)
              ∙ ap (λ (n : ℕ). ltb n (first_not_below t whole)) len
              ∙ ap (λ (l : List Entry). ltb i (first_not_below t l)) (sym split),
        )
