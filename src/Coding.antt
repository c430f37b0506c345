-- ===== src/Coding.antt =====
-- crates/fluent31/src/coding.rs: fixed-width and LEB128 integers, and the checked reader. A byte is a
-- number below 256; a byte vector is a list of them.
pub mod Reads
pub mod Varint
pub mod Stable
use mathlib.Core.WellFounded.{Acc}
use mathlib.Core.Logic.{dite}
use native.Mathlib.Decide.{dec_lt}
use fluent.Prelude.{
  ℕ, zero, suc, ◌+◌, ◌-◌, ◌*◌, ◌/◌, ◌%◌, ◌^◌, ◌<◌, bit_and, bit_or, ltb, ◌==◌, if◌then◌else◌, Bool,
  ◌&&◌, List, [], ◌∷◌, ◌++◌, reverse, length, take, drop, get_or, lt_wf, arith,
}
use fluent.Result.{Result, ok, err, corrupt, ◌>>=◌}

abbrev pub IsByte : ℕ → Type 0
IsByte b = b < 256

abbrev pub IsU32 : ℕ → Type 0
IsU32 v = v < 2 ^ 32

abbrev pub IsU64 : ℕ → Type 0
IsU64 v = v < 2 ^ 64

-- `v.to_le_bytes()` of a w-byte integer, and back.
unfoldable pub to_le_bytes : ℕ → ℕ → List ℕ
to_le_bytes zero v = []
to_le_bytes (suc w) v = v % 256 ∷ to_le_bytes w (v / 256)

unfoldable pub from_le_bytes : List ℕ → ℕ
from_le_bytes [] = 0
from_le_bytes (b ∷ bs) = b + 256 * from_le_bytes bs

unfoldable pub put_u32 : List ℕ → ℕ → List ℕ
unfolding to_le_bytes
put_u32 dst v = dst ++ to_le_bytes 4 v

unfoldable pub put_u64 : List ℕ → ℕ → List ℕ
unfolding to_le_bytes
put_u64 dst v = dst ++ to_le_bytes 8 v

pub shift_shrinks : (v : ℕ) → 127 < v → v / 128 < v
shift_shrinks v h = omega arith

-- `while v >= 0x80`, by recursion on what is left of `v`.
unfoldable pub put_uvarint_loop : List ℕ → (v : ℕ) → Acc ◌<◌ v → List ℕ
put_uvarint_loop dst v (Acc.intro _ smaller) =
    dite (dec_lt 127 v)
      (λ more.
        put_uvarint_loop (dst ++ (bit_or (v % 256) 0x80 ∷ [])) (v / 128)
          (smaller (v / 128) (shift_shrinks v more)))
      (λ _. dst ++ (v % 256 ∷ []))

unfoldable pub put_uvarint : List ℕ → ℕ → List ℕ
unfolding put_uvarint_loop lt_wf dec_lt
put_uvarint dst v = put_uvarint_loop dst v (lt_wf.apply v)

unfoldable pub put_len_prefixed : List ℕ → List ℕ → List ℕ
put_len_prefixed dst bytes = put_uvarint dst (length bytes % 2 ^ 64) ++ bytes

-- Cursor over a byte slice with checked reads.
pub record Reader : Type 0 where
  pub buf : List ℕ
  pub pos : ℕ

abbrev pub new : List ℕ → Reader
new buf = record { buf = buf; pos = 0 }

abbrev pub remaining : Reader → ℕ
remaining r = length r.buf - r.pos

unfoldable pub is_empty : Reader → Bool
is_empty r = remaining r == 0

unfoldable pub bytes : Reader → ℕ → Result (List ℕ × Reader)
bytes r n =
    if ltb (remaining r) n
    then err corrupt
    else ok (take n (drop r.pos r.buf), record r { pos = r.pos + n })

unfoldable pub u32 : Reader → Result (ℕ × Reader)
unfolding bytes from_le_bytes
u32 r = do (b, r') ← bytes r 4; ok (from_le_bytes b, r')

unfoldable pub u64 : Reader → Result (ℕ × Reader)
unfolding bytes from_le_bytes
u64 r = do (b, r') ← bytes r 8; ok (from_le_bytes b, r')

unfoldable pub u8 : Reader → Result (ℕ × Reader)
unfolding bytes
u8 r = do (b, r') ← bytes r 1; ok (get_or b 0 0, r')

-- The loop of `uvarint`, with the rounds that are left: `shift > 63` ends it in the tenth round at
-- the latest, so ten rounds are enough.
unfoldable pub uvarint_loop : ℕ → Reader → ℕ → ℕ → Result (ℕ × Reader)
uvarint_loop zero r v shift = err corrupt
uvarint_loop (suc rounds) r v shift = do
  (b, r') ← u8 r
  let v' = bit_or v (bit_and b 0x7f * 2 ^ shift % 2 ^ 64)
  let more = uvarint_loop rounds r' v' (shift + 7)
  if shift == 63 && ltb 1 b
      then err corrupt
      else if ltb b 0x80
      then ok (v', r')
      else if ltb 63 (shift + 7)
      then err corrupt
      else more

unfoldable pub uvarint : Reader → Result (ℕ × Reader)
uvarint r = uvarint_loop 10 r 0 0

unfoldable pub len_prefixed : Reader → Result (List ℕ × Reader)
len_prefixed r = do (n, r') ← uvarint r; if ltb (remaining r') n then err corrupt else bytes r' n
