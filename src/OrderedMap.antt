-- ===== src/OrderedMap.antt =====
-- Rust's ordered maps as the engine uses them (`BTreeMap`, and the behaviour documented for
-- crossbeam's `SkipMap`): the entries in the order of their keys. Keys are compared by a total
-- preorder, since internal keys are compared by their parts.
pub mod Bound
pub mod Keys
use mathlib.Core.Logic.{dite}
use fluent.Prelude.{
  ℕ, Bool, true, false, if◌then◌else◌, Ordering, ◌≡◌, List, [], ◌∷◌, Option, none, some, All, refl,
  arith,
}
use fluent.Bytes.{is_lt, is_eq, is_gt}
use fluent.Bytes.Order.{flip}

pub record Order {ℓ} (K : Type ℓ) : Type ℓ where
  pub cmp : K → K → Ordering
  pub cmp_refl : (a : K) → cmp a a ≡ Ordering.eq
  pub cmp_flip : (a b : K) → cmp b a ≡ flip (cmp a b)
  pub cmp_trans :
      (a b c : K) → cmp a b ≡ Ordering.lt → cmp b c ≡ Ordering.lt → cmp a c ≡ Ordering.lt
  pub cmp_eq : (a b c : K) → cmp a b ≡ Ordering.eq → cmp a c ≡ cmp b c

module _ {ℓ κ} {K : Type ℓ} {V : Type κ} (o : Order K) where
  -- `insert`: an equal key is replaced.
  unfoldable pub insert : K → V → List (K × V) → List (K × V)
  insert k v [] = (k, v) ∷ []
  insert k v ((j, w) ∷ m) =
      let rest = insert k v m in
      elim (o.cmp k j) [
        | Ordering.lt ↦ (k, v) ∷ (j, w) ∷ m
        | Ordering.eq ↦ (k, v) ∷ m
        | Ordering.gt ↦ (j, w) ∷ rest
      ]

  -- `get`
  unfoldable pub lookup : K → List (K × V) → Option V
  lookup k [] = none
  lookup k ((j, w) ∷ m) = let rest = lookup k m in if is_eq (o.cmp j k) then some w else rest

  -- `lower_bound(Included(t))`: the first entry whose key is not below `t`.
  unfoldable pub lower_bound : K → List (K × V) → Option (K × V)
  lower_bound t [] = none
  lower_bound t ((j, w) ∷ m) =
      let rest = lower_bound t m in if is_lt (o.cmp j t) then rest else some (j, w)

  -- `upper_bound(Included(t))`: the last entry whose key is not above `t`.
  unfoldable pub upper_bound : K → List (K × V) → Option (K × V)
  upper_bound t [] = none
  upper_bound t ((j, w) ∷ m) =
      let rest = upper_bound t m in
      if is_gt (o.cmp j t) then none else elim rest [ none ↦ some (j, w) | some e ↦ some e ]

  -- `range` and `Entry::next`: the first entry whose key is above `t`.
  unfoldable pub after : K → List (K × V) → Option (K × V)
  after t [] = none
  after t ((j, w) ∷ m) = let rest = after t m in if is_gt (o.cmp j t) then some (j, w) else rest

  -- `Entry::prev`: the last entry whose key is below `t`.
  unfoldable pub before : K → List (K × V) → Option (K × V)
  before t [] = none
  before t ((j, w) ∷ m) =
      let rest = before t m in
      if is_lt (o.cmp j t) then elim rest [ none ↦ some (j, w) | some e ↦ some e ] else none

  abbrev pub front : List (K × V) → Option (K × V)
  front [] = none
  front (e ∷ m) = some e

  abbrev pub back : List (K × V) → Option (K × V)
  back [] = none
  back (e ∷ m) = elim (back m) [ none ↦ some e | some l ↦ some l ]

  abbrev pub IsSorted : List (K × V) → Type ℓ
  IsSorted [] = Unit
  IsSorted ((j, w) ∷ m) = All (λ e. o.cmp j e.0 ≡ Ordering.lt) m × IsSorted m
