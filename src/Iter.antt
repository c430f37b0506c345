-- ===== src/Iter.antt =====
-- crates/fluent31/src/iter.rs: the trait of the cursors over internal keys, and the merge of several
-- cursors by a linear scan. A cursor that is not valid makes the code panic in `next`, `prev`, `ikey`
-- and `value`, which its callers prevent; the model leaves the cursor where it is, with empty bytes.
pub mod Walk
pub mod Interleave
pub mod Pick
pub mod Merge
use fluent.Prelude.{
  ℕ, zero, suc, Bool, true, false, not, if◌then◌else◌, List, [], ◌∷◌, Option, none, some, Ordering,
  get_elem?, set,
}
use fluent.Result.{Result, ok, err, ◌>>=◌}
use fluent.Bytes.{is_lt, is_gt}
use fluent.Types.{cmp_ikey}

abbrev pub Entry : Type 0
Entry = List ℕ × List ℕ

-- `trait InternalIterator`
pub record InternalIterator : Type 1 where
  pub State : Type 0
  pub seek_to_first : State → Result State
  pub seek_to_last : State → Result State
  pub seek : State → List ℕ → Result State
  pub seek_for_prev : State → List ℕ → Result State
  pub valid : State → Bool
  pub next : State → Result State
  pub prev : State → Result State
  pub ikey : State → List ℕ
  pub value : State → List ℕ

abbrev pub better : Bool → Ordering → Bool
better true ord = is_gt ord
better false ord = is_lt ord

abbrev pub is_some {ℓ} : {A : Type ℓ} → Option A → Bool
is_some none = false
is_some (some a) = true

module _ (I : InternalIterator) where
  pub record MergeIterator : Type 0 where
    pub children : List I.State
    pub cur : Option ℕ
    pub reverse : Bool

  abbrev pub new_merge : List I.State → Bool → MergeIterator
  new_merge children reverse = record { children = children; cur = none; reverse = reverse }

  -- One round of the scan in `pick`; the best child so far goes with its index.
  unfoldable pub pick_round : Bool → ℕ → I.State → Option (ℕ × I.State) → Option (ℕ × I.State)
  pick_round reverse i c none = if I.valid c then some (i, c) else none
  pick_round reverse i c (some (b, best)) =
      if not (I.valid c)
      then some (b, best)
      else if better reverse (cmp_ikey (I.ikey c) (I.ikey best))
      then some (i, c)
      else some (b, best)

  unfoldable pub pick_loop : Bool → ℕ → List I.State → Option (ℕ × I.State) → Option (ℕ × I.State)
  unfolding pick_round
  pick_loop reverse i [] best = best
  pick_loop reverse i (c ∷ cs) best = pick_loop reverse (suc i) cs (pick_round reverse i c best)

  abbrev pub index_of : Option (ℕ × I.State) → Option ℕ
  index_of none = none
  index_of (some (i, c)) = some i

  unfoldable pub pick : MergeIterator → MergeIterator
  pick it = record it { cur = index_of (pick_loop it.reverse 0 it.children none) }

  -- `for c in &mut self.children`, up to the first error.
  unfoldable pub each : (I.State → Result I.State) → List I.State → Result (List I.State)
  each op [] = ok []
  each op (c ∷ cs) = do c' ← op c; let rest = each op cs; cs' ← rest; ok (c' ∷ cs')

  unfoldable pub seek_children : (I.State → Result I.State) → MergeIterator → Result MergeIterator
  unfolding each pick
  seek_children op it = do
    children ← each op it.children
    ok (pick (record it { children = children }))

  -- `next` and `prev`: the child that is current moves.
  unfoldable pub move_current : (I.State → Result I.State) → MergeIterator → Result MergeIterator
  unfolding pick
  move_current op it = elim it.cur [
    | none ↦ ok it
    | some i ↦ elim (get_elem? it.children i) [
      | none ↦ ok it
      | some c ↦ (do c' ← op c; ok (pick (record it { children = set it.children i c' })))
    ]
  ]

  unfoldable pub at_current : (I.State → List ℕ) → MergeIterator → List ℕ
  at_current part it = elim it.cur [
    | none ↦ []
    | some i ↦ elim (get_elem? it.children i) [ none ↦ [] | some c ↦ part c ]
  ]

  -- `impl InternalIterator for MergeIterator`
  abbrev pub merge : InternalIterator
  merge = record {
    State = MergeIterator;
    seek_to_first = seek_children I.seek_to_first;
    seek_to_last = seek_children I.seek_to_last;
    seek = λ it ikey. seek_children (λ c. I.seek c ikey) it;
    seek_for_prev = λ it ikey. seek_children (λ c. I.seek_for_prev c ikey) it;
    valid = λ it. is_some it.cur;
    next = move_current I.next;
    prev = move_current I.prev;
    ikey = at_current I.ikey;
    value = at_current I.value;
  }
