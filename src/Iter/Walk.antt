-- ===== src/Iter/Walk.antt =====
-- What a cursor promises to its clients, in the direction of its use: the entries that it will come to.
use fluent.Prelude.{
  Bool-cases, inl, inr, ℕ, ◌≤◌, ◌≡◌, arith, Bool, true, false, not, if◌then◌else◌, List, [], ◌∷◌,
  length, Ordering, All,
}
use fluent.Result.{ok}
use fluent.Types.{cmp_ikey}
use fluent.Iter.{Entry, InternalIterator}

-- The order in which a cursor of this direction comes to two keys.
abbrev pub Before : Bool → List ℕ → List ℕ → Type 0
Before reverse a b = cmp_ikey a b ≡ (if reverse then Ordering.gt else Ordering.lt)

abbrev pub Sorted : Bool → List Entry → Type 0
Sorted reverse [] = Unit
Sorted reverse (e ∷ es) = All (λ x. Before reverse e.0 x.0) es × Sorted reverse es

abbrev pub is_before : Bool → List ℕ → List ℕ → Bool
is_before reverse a b = elim (cmp_ikey a b) [
  | Ordering.lt ↦ not reverse
  | Ordering.eq ↦ false
  | Ordering.gt ↦ reverse
]

-- The entries without those at the head that come before the target.
unfoldable pub from : Bool → List ℕ → List Entry → List Entry
from reverse t [] = []
from reverse t (e ∷ es) =
    let rest = from reverse t es in if is_before reverse e.0 t then rest else e ∷ es

module _ (reverse : Bool) where
  pub from-All {ℓ} :
      (P : Entry → Type ℓ) (t : List ℕ) (l : List Entry) → All P l → All P (from reverse t l)
  unfolding from
  from-All P t [] h = tt
  from-All P t (e ∷ l) (h, hs) = elim (Bool-cases (is_before reverse e.0 t)) [
    | inl before ↦ rw before (from-All P t l hs)
    | inr reached ↦ rw reached (h, hs)
  ]

  pub from-Sorted :
      (t : List ℕ) (l : List Entry) → Sorted reverse l → Sorted reverse (from reverse t l)
  unfolding from
  from-Sorted t [] h = tt
  from-Sorted t (e ∷ l) (h, hs) = elim (Bool-cases (is_before reverse e.0 t)) [
    | inl before ↦ rw before (from-Sorted t l hs)
    | inr reached ↦ rw reached (h, hs)
  ]

  pub length-from : (t : List ℕ) (l : List Entry) → length (from reverse t l) ≤ length l
  unfolding from
  length-from t [] = omega arith
  length-from t (e ∷ l) = ground (arith, length-from t l)

pub record Walk (I : InternalIterator) (reverse : Bool) : Type 1 where
  -- The cursor stands at the first of these entries, and comes to the others in their order.
  pub Ahead : I.State → List Entry → Type 0
  pub ended : (s : I.State) → Ahead s [] → I.valid s ≡ false
  pub here :
      (s : I.State) (e : Entry) (es : List Entry)
      → Ahead s (e ∷ es)
      → (I.valid s ≡ true) × (I.ikey s ≡ e.0) × (I.value s ≡ e.1)
  pub step :
      (s : I.State) (e : Entry) (es : List Entry)
      → Ahead s (e ∷ es)
      → (s' : I.State) × ((if reverse then I.prev s else I.next s) ≡ ok s') × Ahead s' es
  -- The cursor, wherever it stands, is over these entries.
  pub Over : I.State → List Entry → Type 0
  pub seek_start :
      (s : I.State) (es : List Entry)
      → Over s es
      → (s' : I.State) × ((if reverse then I.seek_to_last s else I.seek_to_first s) ≡ ok s')
        × Ahead s' es
  pub seek_target :
      (s : I.State) (es : List Entry) (t : List ℕ)
      → Over s es
      → (s' : I.State) × ((if reverse then I.seek_for_prev s t else I.seek s t) ≡ ok s')
        × Ahead s' (from reverse t es)
