-- ===== src/Coding/Reads.antt =====
-- crates/fluent31/src/coding.rs: what the reader yields on bytes that the writers laid down.
use fluent.Prelude.{
  ℕ, zero, suc, ◌+◌, ◌-◌, ◌/◌, ◌^◌, ◌≤◌, ◌<◌, ◌≡◌, refl, ap, arith, List, [], ◌∷◌, ◌++◌, length,
  drop, length-append, length-drop, drop-drop, take_append, drop_append, ltb, le→ltb, false,
}
use native.Mathlib.Nat.{pow-suc}
use fluent.Result.{Result, ok, ◌>>=◌}
use fluent.Coding.{Reader, bytes, u8, u32, u64, IsU32, IsU64, to_le_bytes, from_le_bytes}

-- The bytes that a reader has not read.
abbrev pub rest : Reader → List ℕ
rest r = drop r.pos r.buf

-- The read succeeds with `v`, and exactly `post` is left to read.
abbrev pub Reads {ℓ} : {A : Type ℓ} → Result (A × Reader) → A → List ℕ → Type ℓ
Reads {A = A} m v post = (r' : Reader) × (m ≡ ok (v, r')) × (rest r' ≡ post)

pub Reads-bind {ℓ κ} :
    {A : Type ℓ} {B : Type κ} (m : Result (A × Reader)) (f : A × Reader → Result (B × Reader))
    (v : A) (mid : List ℕ) (w : B) (post : List ℕ)
    → Reads m v mid
    → ((r' : Reader) → rest r' ≡ mid → Reads (f (v, r')) w post)
    → Reads (m >>= f) w post
Reads-bind m f v mid w post (r', e, h) k = rw e (k r' h)

pub bytes-Reads :
    (r : Reader) (xs post : List ℕ) → rest r ≡ xs ++ post → Reads (bytes r (length xs)) xs post
unfolding bytes
bytes-Reads r xs post h = (
  record r { pos = r.pos + length xs },
  rw (enough, h, take_append xs post) refl,
  rw (drop-drop, h) (drop_append xs post),
)
  where
    room : length xs ≤ length r.buf - r.pos
    room = omega (arith, length-drop r.pos r.buf, ap {B = ℕ} length h, length-append xs post)

    enough : ltb (length r.buf - r.pos) (length xs) ≡ false
    enough = le→ltb _ _ room

-- Fixed-width integers, little end first.
pub length-to_le_bytes : (w v : ℕ) → length (to_le_bytes w v) ≡ w
unfolding to_le_bytes
length-to_le_bytes zero v = refl
length-to_le_bytes (suc w) v = ap suc (length-to_le_bytes w (v / 256))

pub from_le-to_le_bytes : (w v : ℕ) → v < 256 ^ w → from_le_bytes (to_le_bytes w v) ≡ v
unfolding to_le_bytes from_le_bytes
from_le-to_le_bytes zero v h = omega arith
from_le-to_le_bytes (suc w) v h =
    omega (arith, from_le-to_le_bytes w (v / 256) (omega (arith, pow-suc 256 w)))

pub u32-Reads :
    (r : Reader) (v : ℕ) (post : List ℕ)
    → IsU32 v
    → rest r ≡ to_le_bytes 4 v ++ post
    → Reads (u32 r) v post
unfolding u32
u32-Reads r v post hv h =
    Reads-bind (bytes r 4) _ (to_le_bytes 4 v) post v post
      (rw (length-to_le_bytes 4 v) at (bytes-Reads r (to_le_bytes 4 v) post h))
      λ r' e. (r', rw (from_le-to_le_bytes 4 v (omega arith)), e)

pub u64-Reads :
    (r : Reader) (v : ℕ) (post : List ℕ)
    → IsU64 v
    → rest r ≡ to_le_bytes 8 v ++ post
    → Reads (u64 r) v post
unfolding u64
u64-Reads r v post hv h =
    Reads-bind (bytes r 8) _ (to_le_bytes 8 v) post v post
      (rw (length-to_le_bytes 8 v) at (bytes-Reads r (to_le_bytes 8 v) post h))
      λ r' e. (r', rw (from_le-to_le_bytes 8 v (omega arith)), e)

pub u8-Reads : (r : Reader) (b : ℕ) (post : List ℕ) → rest r ≡ b ∷ post → Reads (u8 r) b post
unfolding u8
u8-Reads r b post h =
    Reads-bind (bytes r 1) _ (b ∷ []) post b post (bytes-Reads r (b ∷ []) post h)
      λ r' e. (r', refl, e)
