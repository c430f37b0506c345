-- ===== src/Memtable/MemIter.antt =====
-- crates/fluent31/src/memtable.rs: the memtable's cursor, and what it promises going forward.
use mathlib.Core.Path.{subst}
use mathlib.Core.List.{append_assoc}
use fluent.Prelude.{
  ℕ, ◌≡◌, refl, ap, ◌∙◌, sym, arith, false, Bool-cases, inl, inr, List, [], ◌∷◌, ◌++◌, Option, none,
  some, Ordering, All,
}
use fluent.Result.{ok}
use fluent.OrderedMap
use fluent.OrderedMap.{IsSorted}
use fluent.Types.{cmp_ikey}
use fluent.Types.Ikey.{cmp_ikey_refl, cmp_ikey-flip}
use fluent.Memtable.Skiplist.{SkipMap, ikey_order}
use fluent.Iter.{Entry, InternalIterator, is_some}
use fluent.Iter.Walk.{Walk, is_before, from}

module _ (s : SkipMap) where
  pub record MemIter : Type 0 where
    pub cur : Option Entry
    pub map : s.Map

  abbrev pub iter : s.Map → MemIter
  iter map = record { cur = none; map = map }

  -- `cur.as_ref().and_then(|c| c.next())`, and back.
  unfoldable pub step_cur : (s.Map → List ℕ → Option Entry) → MemIter → MemIter
  step_cur op it = record it { cur = elim it.cur [ none ↦ none | some e ↦ op it.map e.0 ] }

  abbrev pub key_of : Option Entry → List ℕ
  key_of none = []
  key_of (some e) = e.0

  abbrev pub value_of : Option Entry → List ℕ
  value_of none = []
  value_of (some e) = e.1

  -- `impl InternalIterator for MemIter`
  abbrev pub mem_iter : InternalIterator
  mem_iter = record {
    State = MemIter;
    seek_to_first = λ it. ok (record it { cur = s.front it.map });
    seek_to_last = λ it. ok (record it { cur = s.back it.map });
    seek = λ it ikey. ok (record it { cur = s.lower_bound it.map ikey });
    seek_for_prev = λ it ikey. ok (record it { cur = s.upper_bound it.map ikey });
    valid = λ it. is_some it.cur;
    next = λ it. ok (step_cur s.after it);
    prev = λ it. ok (step_cur s.before it);
    ikey = λ it. key_of it.cur;
    value = λ it. value_of it.cur;
  }

abbrev Entries : Type 0
Entries = List Entry

after-middle :
    (l₁ : Entries) (e : Entry) (l₂ : Entries)
    → IsSorted ikey_order (l₁ ++ (e ∷ l₂))
    → OrderedMap.after ikey_order e.0 (l₁ ++ (e ∷ l₂)) ≡ OrderedMap.front ikey_order l₂
unfolding OrderedMap.after
after-middle [] e [] h = rw (cmp_ikey_refl e.0) refl
after-middle [] e (x ∷ l₂) h = ground (arith, cmp_ikey_refl e.0, h.0.0, cmp_ikey-flip e.0 x.0)
after-middle (b ∷ l₁) e l₂ (least, h) = rw (middle l₁ least) (after-middle l₁ e l₂ h)
  where
    middle :
        (l₁ : Entries)
        → All (λ x. cmp_ikey b.0 x.0 ≡ Ordering.lt) (l₁ ++ (e ∷ l₂))
        → cmp_ikey b.0 e.0 ≡ Ordering.lt
    middle [] k = k.0
    middle (_ ∷ l₁) k = middle l₁ k.1

lower_bound-from :
    (t : List ℕ) (l : Entries)
    → OrderedMap.lower_bound ikey_order t l ≡ OrderedMap.front ikey_order (from false t l)
unfolding OrderedMap.lower_bound from
lower_bound-from t [] = refl
lower_bound-from t (e ∷ l) = ground (arith, lower_bound-from t l)

from-suffix : (t : List ℕ) (l : Entries) → (skipped : Entries) × (l ≡ skipped ++ from false t l)
unfolding from
from-suffix t [] = ([], refl)
from-suffix t (e ∷ l) = elim (Bool-cases (is_before false e.0 t)) [
  | inl before ↦
      let (skipped, same) = from-suffix t l in
      (e ∷ skipped, rw before (ap (λ (x : Entries). e ∷ x) same))
  | inr reached ↦ ([], rw reached refl)
]

module _ (s : SkipMap) where
  pub record Ahead (it : MemIter s) (l : Entries) : Type 0 where
    pub passed : Entries
    pub split : s.entries it.map ≡ passed ++ l
    pub sorted : IsSorted ikey_order (passed ++ l)
    pub current : it.cur ≡ OrderedMap.front ikey_order l

  pub record Over (it : MemIter s) (l : Entries) : Type 0 where
    pub holds : s.entries it.map ≡ l
    pub sorted : IsSorted ikey_order l

  step_lem :
      (it : MemIter s) (e : Entry) (l : Entries)
      → Ahead it (e ∷ l)
      → Ahead (step_cur s s.after it) l
  unfolding step_cur
  step_lem it e l a =
      let shift : (a.passed ++ (e ∷ [])) ++ l ≡ a.passed ++ (e ∷ l) =
        append_assoc a.passed (e ∷ []) l in
      record {
        passed = a.passed ++ (e ∷ []);
        split = a.split ∙ sym shift;
        sorted = subst (IsSorted ikey_order) (sym shift) a.sorted;
        current =
            rw (a.current, s.after_next)
              (ap (OrderedMap.after ikey_order e.0) a.split ∙ after-middle a.passed e l a.sorted);
      }

  -- The cursor comes to the entries of the memtable in the order of their keys.
  pub mem_iter-Walk : Walk (mem_iter s) false
  mem_iter-Walk = record {
    Ahead = Ahead;
    ended = λ it a. rw a.current refl;
    here = λ it e l a. (rw a.current refl, rw a.current refl, rw a.current refl);
    step = λ it e l a. (step_cur s s.after it, refl, step_lem it e l a);
    Over = Over;
    seek_start = λ it l o. (
      record it { cur = s.front it.map },
      refl,
      record {
        passed = [];
        split = o.holds;
        sorted = o.sorted;
        current = s.front_first it.map ∙ ap (OrderedMap.front ikey_order) o.holds;
      },
    );
    seek_target = λ it l t o.
        let (skipped, same) = from-suffix t l in
        (
          record it { cur = s.lower_bound it.map t },
          refl,
          record {
            passed = skipped;
            split = o.holds ∙ same;
            sorted = subst (IsSorted ikey_order) same o.sorted;
            current =
                s.lower_bound_first it.map t
                ∙ ap (OrderedMap.lower_bound ikey_order t) o.holds
                ∙ lower_bound-from t l;
          },
        );
  }

  -- A cursor of an ordered memtable is over its entries.
  pub iter-Over :
      (map : s.Map)
      → IsSorted ikey_order (s.entries map)
      → mem_iter-Walk.Over (iter s map) (s.entries map)
  unfolding mem_iter-Walk
  iter-Over map h = record { holds = refl; sorted = h }
