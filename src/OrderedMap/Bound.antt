-- ===== src/OrderedMap/Bound.antt =====
-- Laws of the ordered map: `insert` keeps the order, and `get` and `lower_bound` after it.
use fluent.Prelude.{
  false, if◌then◌else◌, Ordering, ◌≡◌, ◌∙◌, ap, List, [], ◌∷◌, Option, none, some, All, refl, arith,
  Bool-cases, inl, inr, ◌⊎◌,
}
use mathlib.Core.Path.{subst}
use fluent.Bytes.{is_lt, is_eq, is_gt}
use fluent.Bytes.Order.{flip}
use fluent.OrderedMap.{Order, insert, lookup, lower_bound, IsSorted}

pub Ordering-cases : (o : Ordering) → (o ≡ Ordering.lt) ⊎ ((o ≡ Ordering.eq) ⊎ (o ≡ Ordering.gt))
Ordering-cases Ordering.lt = inl refl
Ordering-cases Ordering.eq = inr (inl refl)
Ordering-cases Ordering.gt = inr (inr refl)

some_inj {ℓ} : {A : Type ℓ} {a b : A} → some a ≡ some b → a ≡ b
some_inj e = cc

module _ {ℓ κ} {K : Type ℓ} {V : Type κ} (o : Order K) where
  insert_lt :
      (k : K) (v : V) (j : K) (w : V) (m : List (K × V))
      → o.cmp k j ≡ Ordering.lt
      → insert o k v ((j, w) ∷ m) ≡ (k, v) ∷ (j, w) ∷ m
  unfolding insert
  insert_lt k v j w m h = rw (h, insert)

  insert_eq :
      (k : K) (v : V) (j : K) (w : V) (m : List (K × V))
      → o.cmp k j ≡ Ordering.eq
      → insert o k v ((j, w) ∷ m) ≡ (k, v) ∷ m
  unfolding insert
  insert_eq k v j w m h = rw (h, insert)

  insert_gt :
      (k : K) (v : V) (j : K) (w : V) (m : List (K × V))
      → o.cmp k j ≡ Ordering.gt
      → insert o k v ((j, w) ∷ m) ≡ (j, w) ∷ insert o k v m
  unfolding insert
  insert_gt k v j w m h = rw (h, insert)

  All-lt_trans :
      (a b : K) (m : List (K × V))
      → o.cmp a b ≡ Ordering.lt
      → All (λ e. o.cmp b e.0 ≡ Ordering.lt) m
      → All (λ e. o.cmp a e.0 ≡ Ordering.lt) m
  All-lt_trans a b [] h k = tt
  All-lt_trans a b ((j, w) ∷ m) h (k, ks) = (o.cmp_trans a b j h k, All-lt_trans a b m h ks)

  All-lt_eq :
      (a b : K) (m : List (K × V))
      → o.cmp a b ≡ Ordering.eq
      → All (λ e. o.cmp b e.0 ≡ Ordering.lt) m
      → All (λ e. o.cmp a e.0 ≡ Ordering.lt) m
  All-lt_eq a b [] h k = tt
  All-lt_eq a b ((j, w) ∷ m) h (k, ks) = (o.cmp_eq a b j h ∙ k, All-lt_eq a b m h ks)

  All-insert :
      (a k : K) (v : V) (m : List (K × V))
      → o.cmp a k ≡ Ordering.lt
      → All (λ e. o.cmp a e.0 ≡ Ordering.lt) m
      → All (λ e. o.cmp a e.0 ≡ Ordering.lt) (insert o k v m)
  All-insert a k v [] h ks = unfold insert in (h, tt)
  All-insert a k v ((j, w) ∷ m) h (hj, ks) = elim (Ordering-cases (o.cmp k j)) [
    | inl lt ↦ rw (insert_lt k v j w m lt) (h, (hj, ks))
    | inr (inl eq) ↦ rw (insert_eq k v j w m eq) (h, ks)
    | inr (inr gt) ↦ rw (insert_gt k v j w m gt) (hj, All-insert a k v m h ks)
  ]

  pub insert-IsSorted :
      (k : K) (v : V) (m : List (K × V)) → IsSorted o m → IsSorted o (insert o k v m)
  insert-IsSorted k v [] h = unfold insert in (tt, tt)
  insert-IsSorted k v ((j, w) ∷ m) (hj, hm) = elim (Ordering-cases (o.cmp k j)) [
    | inl lt ↦ rw (insert_lt k v j w m lt) ((lt, All-lt_trans k j m lt hj), (hj, hm))
    | inr (inl eq) ↦ rw (insert_eq k v j w m eq) (All-lt_eq k j m eq hj, hm)
    | inr (inr gt) ↦
        rw (insert_gt k v j w m gt)
          (All-insert j k v m (o.cmp_flip k j ∙ ap flip gt) hj, insert-IsSorted k v m hm)
  ]

  -- `get` after `insert`.
  pub lookup-insert :
      (k j : K) (v : V) (m : List (K × V))
      → lookup o j (insert o k v m) ≡ (if is_eq (o.cmp k j) then some v else lookup o j m)
  unfolding lookup
  lookup-insert k j v [] = unfold insert in refl
  lookup-insert k j v ((i, w) ∷ m) = elim (Ordering-cases (o.cmp k i)) [
    | inl lt ↦ rw (insert_lt k v i w m lt)
    | inr (inl eq) ↦ rw (insert_eq k v i w m eq) (ground (arith, o.cmp_eq k i j eq))
    | inr (inr gt) ↦
        rw (insert_gt k v i w m gt)
          (ground (arith, gt, o.cmp_eq k j i, o.cmp_flip i j, lookup-insert k j v m))
  ]

  -- The entry that `lower_bound` finds after `insert`: the new one, where it is not below the target
  -- and not above what was found before.
  abbrev pub nearer : K → V → K → Option (K × V) → Option (K × V)
  nearer k v t none = if is_lt (o.cmp k t) then none else some (k, v)
  nearer k v t (some (j, w)) =
      if is_lt (o.cmp k t)
      then some (j, w)
      else if is_gt (o.cmp k j)
      then some (j, w)
      else some (k, v)

  pub lower_bound-insert :
      (k : K) (v : V) (t : K) (m : List (K × V))
      → lower_bound o t (insert o k v m) ≡ nearer k v t (lower_bound o t m)
  unfolding lower_bound
  lower_bound-insert k v t [] = unfold insert in refl
  lower_bound-insert k v t ((j, w) ∷ m) = elim (Ordering-cases (o.cmp k j)) [
    | inl lt ↦ rw (insert_lt k v j w m lt) (ground (arith, lt, o.cmp_trans k j t))
    | inr (inl eq) ↦ rw (insert_eq k v j w m eq) (ground (arith, eq, o.cmp_eq k j t eq))
    | inr (inr gt) ↦ rw (insert_gt k v j w m gt) (ground (arith, gt, lower_bound-insert k v t m))
  ]

  -- What `lower_bound` finds is an entry of the map, and not below the target.
  pub lower_bound_found {ν} :
      (P : K × V → Type ν) (t : K) (m : List (K × V)) (e : K × V)
      → All P m
      → lower_bound o t m ≡ some e
      → P e × (is_lt (o.cmp e.0 t) ≡ false)
  unfolding lower_bound
  lower_bound_found P t [] e ps h = cc
  lower_bound_found P t ((j, w) ∷ m) e (p, ps) h = elim (Bool-cases (is_lt (o.cmp j t))) [
    | inl lt ↦ lower_bound_found P t m e ps (rw lt at h)
    | inr ge ↦
        let same : (j, w) ≡ e = some_inj (rw ge at h) in
        (subst P same p, subst (λ (x : K × V). is_lt (o.cmp x.0 t) ≡ false) same ge)
  ]

  pub All-insert_any {ν} :
      (P : K × V → Type ν) (k : K) (v : V) (m : List (K × V))
      → P (k, v)
      → All P m
      → All P (insert o k v m)
  All-insert_any P k v [] p ps = unfold insert in (p, tt)
  All-insert_any P k v ((j, w) ∷ m) p (q, ps) = elim (Ordering-cases (o.cmp k j)) [
    | inl lt ↦ rw (insert_lt k v j w m lt) (p, (q, ps))
    | inr (inl eq) ↦ rw (insert_eq k v j w m eq) (p, ps)
    | inr (inr gt) ↦ rw (insert_gt k v j w m gt) (q, All-insert_any P k v m p ps)
  ]
