-- ===== src/Iter/Interleave.antt =====
-- Interleavings of several lists of entries: what a merge yields, as a relation.
use fluent.Prelude.{
  All-map, ℕ, ◌≡◌, refl, ap, ◌∙◌, sym, arith, Bool, true, false, Bool-cases, inl, inr, List, [],
  ◌∷◌, ◌++◌, map, All,
}
use mathlib.Core.Path.{subst}
use fluent.Types.Ikey.{cmp_ikey-flip, cmp_ikey_trans}
use fluent.Iter.{Entry}
use fluent.Iter.Walk.{Before, Sorted, is_before, from}

-- The second list holds the entries of all the lists of the first, each list's in its order.
pub data Interleaves : List (List Entry) → List Entry → Type 0 where
  done : {ls : List (List Entry)} → All (λ l. l ≡ []) ls → Interleaves ls []
  take :
      {l : List Entry} (pre : List (List Entry)) (e : Entry) (es : List Entry)
      (post : List (List Entry))
      → Interleaves (pre ++ (es ∷ post)) l
      → Interleaves (pre ++ ((e ∷ es) ∷ post)) (e ∷ l)

pub All-split {ℓ κ} :
    {A : Type ℓ} (P : A → Type κ) (xs : List A) (y : A) (ys : List A)
    → All P (xs ++ (y ∷ ys))
    → All P xs × P y × All P ys
All-split P [] y ys h = (tt, h.0, h.1)
All-split P (x ∷ xs) y ys h = let (p, q, r) = All-split P xs y ys h.1 in ((h.0, p), q, r)

pub All-join {ℓ κ} :
    {A : Type ℓ} (P : A → Type κ) (xs : List A) (y : A) (ys : List A)
    → All P xs
    → P y
    → All P ys
    → All P (xs ++ (y ∷ ys))
All-join P [] y ys p q r = (q, r)
All-join P (x ∷ xs) y ys p q r = (p.0, All-join P xs y ys p.1 q r)

all_empty {ℓ} :
    (P : Entry → Type ℓ) (ls : List (List Entry)) → All (λ l. l ≡ []) ls → All (All P) ls
all_empty P [] h = tt
all_empty P (l ∷ ls) (h, hs) = (subst (λ (x : List Entry). All P x) (sym h) tt, all_empty P ls hs)

-- What holds of the entries of an interleaving holds of those of the lists.
pub Interleaves-All {ℓ} :
    (P : Entry → Type ℓ) (ls : List (List Entry)) (l : List Entry)
    → Interleaves ls l
    → All P l
    → All (All P) ls
Interleaves-All P ls l (done h) k = all_empty P _ h
Interleaves-All P ls l (take pre e es post i) (k, ks) =
    let (p, q, r) = All-split (All P) pre es post (Interleaves-All P _ _ i ks) in
    All-join (All P) pre (e ∷ es) post p (k, q) r

map-append {ℓ κ} :
    {A : Type ℓ} {B : Type κ} (f : A → B) (xs ys : List A) → map f (xs ++ ys) ≡ map f xs ++ map f ys
map-append f [] ys = refl
map-append f (x ∷ xs) ys = ap (λ (l : List _). f x ∷ l) (map-append f xs ys)

module _ (reverse : Bool) (t : List ℕ) where
  abbrev NotBefore : Entry → Type 0
  NotBefore e = is_before reverse e.0 t ≡ false

  from-all : (es : List Entry) → All NotBefore es → from reverse t es ≡ es
  unfolding from
  from-all [] h = refl
  from-all (e ∷ es) (h, hs) = rw h refl

  map-from_all : (ls : List (List Entry)) → All (All NotBefore) ls → map (from reverse t) ls ≡ ls
  map-from_all [] h = refl
  map-from_all (l ∷ ls) (h, hs) =
      ap (λ (x : List Entry). x ∷ map (from reverse t) ls) (from-all l h)
      ∙ ap (λ (x : List (List Entry)). l ∷ x) (map-from_all ls hs)

  after_not-Before :
      (a b : List ℕ)
      → is_before reverse a t ≡ false
      → Before reverse a b
      → is_before reverse b t ≡ false
  after_not-Before a b h k = ground (
    arith,
    h,
    k,
    cmp_ikey_trans a b t,
    cmp_ikey_trans t b a,
    cmp_ikey-flip a b,
    cmp_ikey-flip b t,
    cmp_ikey-flip a t,
    cmp_ikey_trans b t a,
    cmp_ikey_trans a t b,
  )

  from-empty :
      (ls : List (List Entry)) → All (λ l. l ≡ []) ls → All (λ l. l ≡ []) (map (from reverse t) ls)
  unfolding from
  from-empty [] h = tt
  from-empty (l ∷ ls) (h, hs) = (ap (from reverse t) h, from-empty ls hs)

  from-skip :
      (e : Entry) (es : List Entry)
      → is_before reverse e.0 t ≡ true
      → from reverse t (e ∷ es) ≡ from reverse t es
  unfolding from
  from-skip e es h = rw h refl

  -- Seeking in each of the lists is seeking in the merged list.
  pub Interleaves-from :
      (ls : List (List Entry)) (l : List Entry)
      → Interleaves ls l
      → Sorted reverse l
      → Interleaves (map (from reverse t) ls) (from reverse t l)
  Interleaves-from ls l (done h) s = unfold from in done (from-empty ls h)
  Interleaves-from ls l (take {l = m} pre e es post i) (least, s) =
      elim (Bool-cases (is_before reverse e.0 t)) [
        | inl before ↦
            let same : map F (pre ++ ((e ∷ es) ∷ post)) ≡ map F (pre ++ (es ∷ post)) =
              map-append F pre ((e ∷ es) ∷ post)
              ∙ ap (λ (x : List Entry). map F pre ++ (x ∷ map F post)) (from-skip e es before)
              ∙ sym (map-append F pre (es ∷ post)) in
            rw (same, from-skip e m before) (Interleaves-from (pre ++ (es ∷ post)) m i s)
        | inr reached ↦
            let whole : All NotBefore (e ∷ m) =
              (reached, All-map _ NotBefore m (λ x b. after_not-Before e.0 x.0 reached b) least) in
            let kept : Interleaves (pre ++ ((e ∷ es) ∷ post)) (e ∷ m) = take pre e es post i in
            rw
              (
                map-from_all (pre ++ ((e ∷ es) ∷ post))
                    (Interleaves-All NotBefore (pre ++ ((e ∷ es) ∷ post)) (e ∷ m) kept whole),
                from-all (e ∷ m) whole,
              )
              kept
      ]
    where
      F : List Entry → List Entry
      F = from reverse t
