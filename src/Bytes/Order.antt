-- ===== src/Bytes/Order.antt =====
-- The order of byte slices is a total order, and `==` decides equality.
use fluent.Prelude.{ℕ, ◌≡◌, refl, sym, arith, compare, Ordering, List, [], ◌∷◌, true, ◌↔◌}
use fluent.Bytes.{then_with, cmp_bytes, is_eq, bytes_eq}

abbrev pub flip : Ordering → Ordering
flip Ordering.lt = Ordering.gt
flip Ordering.eq = Ordering.eq
flip Ordering.gt = Ordering.lt

pub compare_refl : (x : ℕ) → compare x x ≡ Ordering.eq
compare_refl x = ground arith

pub compare-flip : (x y : ℕ) → compare y x ≡ flip (compare x y)
compare-flip x y = ground arith

pub then_with-flip : (o p : Ordering) → flip (then_with o p) ≡ then_with (flip o) (flip p)
then_with-flip Ordering.lt p = refl
then_with-flip Ordering.eq p = refl
then_with-flip Ordering.gt p = refl

pub cmp_bytes_refl : (a : List ℕ) → cmp_bytes a a ≡ Ordering.eq
unfolding cmp_bytes
cmp_bytes_refl [] = refl
cmp_bytes_refl (x ∷ xs) = rw (compare_refl x) (cmp_bytes_refl xs)

pub cmp_bytes-flip : (a b : List ℕ) → cmp_bytes b a ≡ flip (cmp_bytes a b)
unfolding cmp_bytes
cmp_bytes-flip [] [] = refl
cmp_bytes-flip [] (y ∷ ys) = refl
cmp_bytes-flip (x ∷ xs) [] = refl
cmp_bytes-flip (x ∷ xs) (y ∷ ys) =
    rw (compare-flip x y, cmp_bytes-flip xs ys)
      (sym (then_with-flip (compare x y) (cmp_bytes xs ys)))

pub cmp_bytes-eq : (a b : List ℕ) → cmp_bytes a b ≡ Ordering.eq → a ≡ b
unfolding cmp_bytes
cmp_bytes-eq [] [] h = refl
cmp_bytes-eq [] (y ∷ ys) h = cc
cmp_bytes-eq (x ∷ xs) [] h = cc
cmp_bytes-eq (x ∷ xs) (y ∷ ys) h = ground (arith, cmp_bytes-eq xs ys)

pub cmp_bytes_trans :
    (a b c : List ℕ)
    → cmp_bytes a b ≡ Ordering.lt
    → cmp_bytes b c ≡ Ordering.lt
    → cmp_bytes a c ≡ Ordering.lt
unfolding cmp_bytes
cmp_bytes_trans [] [] c h k = cc
cmp_bytes_trans [] (y ∷ ys) [] h k = cc
cmp_bytes_trans [] (y ∷ ys) (z ∷ zs) h k = refl
cmp_bytes_trans (x ∷ xs) [] c h k = cc
cmp_bytes_trans (x ∷ xs) (y ∷ ys) [] h k = cc
cmp_bytes_trans (x ∷ xs) (y ∷ ys) (z ∷ zs) h k = ground (arith, cmp_bytes_trans xs ys zs)

pub bytes_eq_iff : (a b : List ℕ) → (bytes_eq a b ≡ true) ↔ (a ≡ b)
bytes_eq_iff a b = (λ h. cmp_bytes-eq a b (same _ h), λ e. rw e (rw (cmp_bytes_refl b)))
  where
    same : (o : Ordering) → is_eq o ≡ true → o ≡ Ordering.eq
    same Ordering.eq h = refl
    same Ordering.lt h = cc
    same Ordering.gt h = cc
