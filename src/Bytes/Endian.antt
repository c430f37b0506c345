-- ===== src/Bytes/Endian.antt =====
-- Fixed-width integers as bytes: length, byte range, round trips and injectivity.
use mathlib.Core.List.{reverse-reverse}
use fluent.Prelude.{
  ℕ, ◌^◌, ◌<◌, ◌≡◌, refl, ap, ◌∙◌, arith, List, [], ◌∷◌, reverse, length, length-append,
}
use mathlib.Core.List.{reverse-cons}
use fluent.Coding.{to_le_bytes}
use fluent.Coding.Reads.{length-to_le_bytes, from_le-to_le_bytes}
use fluent.Bytes.{to_be_bytes, from_be_bytes}

pub length-reverse {ℓ} : {A : Type ℓ} (xs : List A) → length (reverse xs) ≡ length xs
length-reverse [] = refl
length-reverse (x ∷ xs) =
    ap length (reverse-cons x xs)
    ∙ omega (arith, length-append (reverse xs) (x ∷ []), length-reverse xs)

pub length-to_be_bytes : (w v : ℕ) → length (to_be_bytes w v) ≡ w
unfolding to_be_bytes
length-to_be_bytes w v = length-reverse (to_le_bytes w v) ∙ length-to_le_bytes w v

pub from_be-to_be_bytes : (w v : ℕ) → v < 256 ^ w → from_be_bytes (to_be_bytes w v) ≡ v
unfolding to_be_bytes from_be_bytes
from_be-to_be_bytes w v h = rw reverse-reverse (from_le-to_le_bytes w v h)
