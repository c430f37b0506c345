-- ===== src/Bytes.antt =====
-- What the engine uses of Rust's byte slices: `Ord` (lexicographic) and `==`, with their laws, and the
-- big-endian bytes of an integer.
pub mod Order
pub mod Endian
use fluent.Prelude.{ℕ, Bool, true, false, ◌&&◌, ◌==◌, compare, Ordering, List, [], ◌∷◌, reverse}
use fluent.Coding.{to_le_bytes, from_le_bytes}

-- `Ordering::then_with`
abbrev pub then_with : Ordering → Ordering → Ordering
then_with Ordering.lt o = Ordering.lt
then_with Ordering.eq o = o
then_with Ordering.gt o = Ordering.gt

-- `<[u8] as Ord>::cmp`
unfoldable pub cmp_bytes : List ℕ → List ℕ → Ordering
cmp_bytes [] [] = Ordering.eq
cmp_bytes [] (y ∷ ys) = Ordering.lt
cmp_bytes (x ∷ xs) [] = Ordering.gt
cmp_bytes (x ∷ xs) (y ∷ ys) = then_with (compare x y) (cmp_bytes xs ys)

abbrev pub is_lt : Ordering → Bool
is_lt Ordering.lt = true
is_lt _ = false

abbrev pub is_eq : Ordering → Bool
is_eq Ordering.eq = true
is_eq _ = false

abbrev pub is_gt : Ordering → Bool
is_gt Ordering.gt = true
is_gt _ = false

-- `a < b`, `a == b`, `a <= b` on slices.
abbrev pub bytes_lt : List ℕ → List ℕ → Bool
bytes_lt a b = is_lt (cmp_bytes a b)

abbrev pub bytes_eq : List ℕ → List ℕ → Bool
bytes_eq a b = is_eq (cmp_bytes a b)

abbrev pub bytes_le : List ℕ → List ℕ → Bool
bytes_le a b = elim (cmp_bytes a b) [ Ordering.gt ↦ false | _ ↦ true ]

-- `v.to_be_bytes()` of a w-byte integer, and back.
unfoldable pub to_be_bytes : ℕ → ℕ → List ℕ
unfolding to_le_bytes
to_be_bytes w v = reverse (to_le_bytes w v)

unfoldable pub from_be_bytes : List ℕ → ℕ
unfolding from_le_bytes
from_be_bytes bs = from_le_bytes (reverse bs)
