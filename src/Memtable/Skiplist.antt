-- ===== src/Memtable/Skiplist.antt =====
-- The part of crossbeam_skiplist::SkipMap that crates/fluent31/src/memtable.rs uses, keyed by internal
-- keys in the order of `cmp_ikey`, and the sorted list that has this behaviour.
use fluent.Prelude.{ℕ, Bool, true, false, Ordering, ◌≡◌, refl, arith, List, [], ◌∷◌, Option}
use fluent.Bytes.Order.{cmp_bytes-eq}
use fluent.Types.{cmp_ikey, ikey_ukey}
use fluent.Types.Ikey.{cmp_ikey_refl, cmp_ikey-flip, cmp_ikey_trans}
use fluent.OrderedMap
use fluent.OrderedMap.{Order}

pub cmp_ikey_eq : (a b c : List ℕ) → cmp_ikey a b ≡ Ordering.eq → cmp_ikey a c ≡ cmp_ikey b c
unfolding cmp_ikey
cmp_ikey_eq a b c h = ground (arith, cmp_bytes-eq (ikey_ukey a) (ikey_ukey b))

-- `InternalKey` ordered by `cmp_ikey`.
abbrev pub ikey_order : Order (List ℕ)
ikey_order = record {
  cmp = cmp_ikey;
  cmp_refl = cmp_ikey_refl;
  cmp_flip = cmp_ikey-flip;
  cmp_trans = cmp_ikey_trans;
  cmp_eq = cmp_ikey_eq;
}

abbrev pub Entries : Type 0
Entries = List (List ℕ × List ℕ)

pub record SkipMap : Type 1 where
  pub Map : Type 0
  pub new : Map
  pub insert : Map → List ℕ → List ℕ → Map
  pub is_empty : Map → Bool
  pub lower_bound : Map → List ℕ → Option (List ℕ × List ℕ)
  pub upper_bound : Map → List ℕ → Option (List ℕ × List ℕ)
  pub front : Map → Option (List ℕ × List ℕ)
  pub back : Map → Option (List ℕ × List ℕ)
  -- `Entry::next` and `Entry::prev` of the entry under a key.
  pub after : Map → List ℕ → Option (List ℕ × List ℕ)
  pub before : Map → List ℕ → Option (List ℕ × List ℕ)
  -- The entries in iteration order.
  pub entries : Map → Entries
  pub entries_new : entries new ≡ []
  pub entries_insert :
      (m : Map) (k v : List ℕ)
      → entries (insert m k v) ≡ OrderedMap.insert ikey_order k v (entries m)
  pub is_empty_iff : (m : Map) → is_empty m ≡ elim (entries m) [ [] ↦ true | _ ∷ _ ↦ false ]
  pub lower_bound_first :
      (m : Map) (t : List ℕ) → lower_bound m t ≡ OrderedMap.lower_bound ikey_order t (entries m)
  pub upper_bound_last :
      (m : Map) (t : List ℕ) → upper_bound m t ≡ OrderedMap.upper_bound ikey_order t (entries m)
  pub front_first : (m : Map) → front m ≡ OrderedMap.front ikey_order (entries m)
  pub back_last : (m : Map) → back m ≡ OrderedMap.back ikey_order (entries m)
  pub after_next : (m : Map) (t : List ℕ) → after m t ≡ OrderedMap.after ikey_order t (entries m)
  pub before_prev : (m : Map) (t : List ℕ) → before m t ≡ OrderedMap.before ikey_order t (entries m)

-- A sorted list behaves so.
abbrev pub sorted_list : SkipMap
sorted_list = record {
  Map = Entries;
  new = [];
  insert = λ m k v. OrderedMap.insert ikey_order k v m;
  is_empty = λ m. elim m [ [] ↦ true | _ ∷ _ ↦ false ];
  lower_bound = λ m t. OrderedMap.lower_bound ikey_order t m;
  upper_bound = λ m t. OrderedMap.upper_bound ikey_order t m;
  front = OrderedMap.front ikey_order;
  back = OrderedMap.back ikey_order;
  after = λ m t. OrderedMap.after ikey_order t m;
  before = λ m t. OrderedMap.before ikey_order t m;
  entries = λ m. m;
  entries_new = refl;
  entries_insert = λ m k v. refl;
  is_empty_iff = λ m. refl;
  lower_bound_first = λ m t. refl;
  upper_bound_last = λ m t. refl;
  front_first = λ m. refl;
  back_last = λ m. refl;
  after_next = λ m t. refl;
  before_prev = λ m t. refl;
}
