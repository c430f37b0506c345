-- ===== src/Txn/Overlaid.antt =====
-- What the iterator of crates/fluent31/src/txn.rs yields: the snapshot's pairs under the writes.
use mathlib.Core.Path.{subst}
use fluent.Prelude.{
  ℕ, ◌≡◌, refl, ap, ◌∙◌, arith, Bool, true, false, if◌then◌else◌, Bool-cases, inl, inr, List, [],
  ◌∷◌, Option, none, some, Ordering, All,
}
use fluent.Bytes.{cmp_bytes, bytes_eq}
use fluent.Bytes.Order.{cmp_bytes-eq, cmp_bytes-flip, cmp_bytes_trans}
use fluent.OrderedMap
use fluent.OrderedMap.Keys.{bytes_order}
use fluent.Txn.Overlay.{Pair, Write, comes_first}

abbrev pub emit : List ℕ → Option (List ℕ) → List Pair → List Pair
emit k none out = out
emit k (some v) out = (k, v) ∷ out

-- The pairs before a write, then the write, then what is later.
unfoldable pub place :
    Bool → List ℕ → Option (List ℕ) → (List Pair → List Pair) → List Pair → List Pair
place rev k v later [] = emit k v (later [])
place rev k v later ((b, w) ∷ base) =
    let rest = place rev k v later base in
    if comes_first rev k b
    then emit k v (later (if bytes_eq b k then base else (b, w) ∷ base))
    else (b, w) ∷ rest

unfoldable pub overlaid : Bool → List Write → List Pair → List Pair
unfolding place
overlaid rev [] base = base
overlaid rev ((k, v) ∷ writes) base = place rev k v (overlaid rev writes) base

-- The order in which the iterator comes to two keys.
abbrev pub KeyBefore : Bool → List ℕ → List ℕ → Type 0
KeyBefore rev a b = cmp_bytes a b ≡ (if rev then Ordering.gt else Ordering.lt)

abbrev pub Ordered {ℓ} : {V : Type ℓ} → Bool → List (List ℕ × V) → Type ℓ
Ordered rev [] = Unit
Ordered rev ((k, v) ∷ m) = All (λ e. KeyBefore rev k e.0) m × Ordered rev m

abbrev found {ℓ} : {V : Type ℓ} → List ℕ → List (List ℕ × V) → Option V
found u m = OrderedMap.lookup bytes_order u m

-- A write hides the pair under its key.
abbrev pub under : Option (Option (List ℕ)) → Option (List ℕ) → Option (List ℕ)
under none v = v
under (some w) v = w

absent {ℓ} :
    {V : Type ℓ} (rev : Bool) (u : List ℕ) (m : List (List ℕ × V))
    → All (λ e. KeyBefore rev u e.0) m
    → found u m ≡ none
unfolding OrderedMap.lookup
absent rev u [] h = refl
absent true u ((k, v) ∷ m) (h, hs) = ground (arith, h, cmp_bytes-flip k u, absent true u m hs)
absent false u ((k, v) ∷ m) (h, hs) = ground (arith, h, cmp_bytes-flip k u, absent false u m hs)

before_all {ℓ} :
    {V : Type ℓ} (rev : Bool) (a b : List ℕ) (m : List (List ℕ × V))
    → KeyBefore rev a b
    → All (λ e. KeyBefore rev b e.0) m
    → All (λ e. KeyBefore rev a e.0) m
before_all rev a b [] h hs = tt
before_all true a b ((k, v) ∷ m) h (i, is) = (
  ground (
    arith,
    h,
    i,
    cmp_bytes-flip a b,
    cmp_bytes-flip b k,
    cmp_bytes-flip a k,
    cmp_bytes_trans k b a,
  ),
  before_all true a b m h is,
)
before_all false a b ((k, v) ∷ m) h (i, is) =
    (cmp_bytes_trans a b k h i, before_all false a b m h is)

not-first : (rev : Bool) (k b : List ℕ) → comes_first rev k b ≡ false → KeyBefore rev b k
not-first true k b h = ground (arith, h)
not-first false k b h = ground (arith, h, cmp_bytes-flip k b)

first-other :
    (rev : Bool) (k b : List ℕ)
    → comes_first rev k b ≡ true
    → bytes_eq b k ≡ false
    → KeyBefore rev k b
first-other true k b h d = ground (arith, h, d, cmp_bytes-flip k b)
first-other false k b h d = ground (arith, h, d, cmp_bytes-flip k b)

before-apart : (rev : Bool) (b k : List ℕ) → KeyBefore rev b k → bytes_eq k b ≡ false
before-apart true b k h = ground (arith, h, cmp_bytes-flip b k)
before-apart false b k h = ground (arith, h, cmp_bytes-flip b k)

module _ (rev : Bool) (u k : List ℕ) (v : Option (List ℕ)) (writes : List Write)
    (first : All (λ e. KeyBefore rev k e.0) writes) (later : List Pair → List Pair)
    (law : (base : List Pair)
      → Ordered rev base
      → found u (later base) ≡ under (found u writes) (found u base)) where
  emit_found :
      (base : List Pair)
      → Ordered rev base
      → All (λ e. KeyBefore rev k e.0) base
      → found u (emit k v (later base))
        ≡ (if bytes_eq k u then v else under (found u writes) (found u base))
  unfolding OrderedMap.lookup
  emit_found base s above = by_value v
    where
      gone : bytes_eq k u ≡ true → under (found u writes) (found u base) ≡ none
      gone same =
          let here : k ≡ u = cmp_bytes-eq k u (ground (arith, same)) in
          rw
            (
              absent rev u writes
                  (subst (λ (x : List ℕ). All (λ e. KeyBefore rev x e.0) writes) here first),
              absent rev u base
                  (subst (λ (x : List ℕ). All (λ e. KeyBefore rev x e.0) base) here above),
            )
            refl

      by_value :
          (v : Option (List ℕ))
          → found u (emit k v (later base))
            ≡ (if bytes_eq k u then v else under (found u writes) (found u base))
      by_value (some x) =
          ap (λ (r : Option (List ℕ)). if bytes_eq k u then some x else r) (law base s)
      by_value none = law base s ∙ elim (Bool-cases (bytes_eq k u)) [
        | inl same ↦ rw (same, gone same) refl
        | inr other ↦ rw other refl
      ]

  skip_equal :
      (b w : List ℕ) (base : List Pair)
      → bytes_eq b k ≡ true
      → (if bytes_eq k u then v else under (found u writes) (found u base))
        ≡ (if bytes_eq k u then v else under (found u writes) (found u ((b, w) ∷ base)))
  unfolding OrderedMap.lookup
  skip_equal b w base same = elim (Bool-cases (bytes_eq k u)) [
    | inl here ↦ rw here refl
    | inr other ↦
        let apart : bytes_eq b u ≡ false = ground (arith, same, other, cmp_bytes-eq b k) in
        rw (other, apart) refl
  ]

  place_found :
      (base : List Pair)
      → Ordered rev base
      → found u (place rev k v later base)
        ≡ (if bytes_eq k u then v else under (found u writes) (found u base))
  unfolding place
  place_found [] s = emit_found [] tt tt
  place_found ((b, w) ∷ base) (least, s) = elim (Bool-cases (comes_first rev k b)) [
    | inl first_one ↦ elim (Bool-cases (bytes_eq b k)) [
      | inl same ↦
          let here : b ≡ k = cmp_bytes-eq b k (ground (arith, same)) in
          rw (first_one, same)
            (emit_found base s
                (subst (λ (x : List ℕ). All (λ e. KeyBefore rev x e.0) base) here least)
              ∙ skip_equal b w base same)
      | inr other ↦
          let ahead : KeyBefore rev k b = first-other rev k b first_one other in
          rw (first_one, other)
            (emit_found ((b, w) ∷ base) (least, s) (ahead, before_all rev k b base ahead least))
    ]
    | inr later_one ↦
        rw later_one (base_first b w base (not-first rev k b later_one) least (place_found base s))
  ]
    where
      base_first :
          (b w : List ℕ) (base : List Pair)
          → KeyBefore rev b k
          → All (λ e. KeyBefore rev b e.0) base
          → found u (place rev k v later base)
            ≡ (if bytes_eq k u then v else under (found u writes) (found u base))
          → found u ((b, w) ∷ place rev k v later base)
            ≡ (if bytes_eq k u then v else under (found u writes) (found u ((b, w) ∷ base)))
      base_first b w base ahead least rest =
          unfold OrderedMap.lookup in
          elim (Bool-cases (bytes_eq b u)) [
            | inl same ↦
                let here : b ≡ u = cmp_bytes-eq b u (ground (arith, same)) in
                let off : bytes_eq k u ≡ false =
                  subst (λ (x : List ℕ). bytes_eq k x ≡ false) here (before-apart rev b k ahead) in
                rw
                  (
                    same,
                    off,
                    absent rev u writes (
                        subst (λ (x : List ℕ). All (λ e. KeyBefore rev x e.0) writes) here
                          (before_all rev b k writes ahead first)),
                  )
                  refl
            | inr other ↦ rw (other, rest) refl
          ]

-- Under each key, the iterator yields what the transaction wrote, where it wrote the key, and else
-- what the snapshot holds.
pub overlaid_found :
    (rev : Bool) (u : List ℕ) (writes : List Write) (base : List Pair)
    → Ordered rev writes
    → Ordered rev base
    → found u (overlaid rev writes base) ≡ under (found u writes) (found u base)
unfolding overlaid OrderedMap.lookup
overlaid_found rev u [] base h s = refl
overlaid_found rev u ((k, v) ∷ writes) base (first, h) s =
    place_found rev u k v writes first (overlaid rev writes)
      (λ b sb. overlaid_found rev u writes b h sb) base s
    ∙ elim (Bool-cases (bytes_eq k u)) [ inl same ↦ rw same refl | inr other ↦ rw other refl ]
