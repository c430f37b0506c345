-- ===== src/Types/Ikey.antt =====
-- crates/fluent31/src/types.rs: what an internal key holds, and how internal keys are ordered.
use fluent.Prelude.{
  ℕ, ◌+◌, ◌-◌, ◌*◌, ◌%◌, ◌^◌, ◌≤◌, ◌<◌, ◌≡◌, refl, ap, ◌∙◌, sym, arith, bit_or, leb, if◌then◌else◌,
  compare, Ordering, List, ◌++◌, length, length-append, take_append, drop_append,
}
use native.Mathlib.Nat.{mod-eq_of_lt}
use fluent.Prelude.Bits.{bit_or_below, bit_and_0xff}
use fluent.Result.{ok}
use fluent.Coding.{IsU64}
use fluent.Bytes.{then_with, cmp_bytes, to_be_bytes}
use fluent.Bytes.Order.{
  cmp_bytes_refl, cmp_bytes-eq, cmp_bytes_trans, compare_refl, flip, compare-flip, cmp_bytes-flip,
  then_with-flip,
}
use fluent.Bytes.Endian.{length-to_be_bytes, from_be-to_be_bytes}
use fluent.Types.{
  ValueKind, put, delete, kind_u8, from_u8, pack_trailer, make_ikey, make_seek_ikey, ikey_ukey,
  ikey_trailer, ikey_seqno, ikey_kind, cmp_ikey, max_seqno, trailer_len,
}

pub pack_trailer_sum : (s k : ℕ) → s ≤ max_seqno → k < 256 → pack_trailer s k ≡ s * 256 + k
unfolding pack_trailer
pack_trailer_sum s k hs hk =
    ap (λ (t : ℕ). bit_or t k) (mod-eq_of_lt {n = s * 2 ^ 8} (omega arith))
    ∙ bit_or_below 8 s k (omega arith)

module _ (key : List ℕ) (t : ℕ) (ht : IsU64 t) where
  tail_len : length (key ++ to_be_bytes 8 t) - trailer_len ≡ length key
  tail_len = omega (arith, length-append key (to_be_bytes 8 t), length-to_be_bytes 8 t)

  ukey_lem : ikey_ukey (key ++ to_be_bytes 8 t) ≡ key
  unfolding ikey_ukey
  ukey_lem = rw tail_len (take_append key (to_be_bytes 8 t))

  trailer_lem : ikey_trailer (key ++ to_be_bytes 8 t) ≡ t
  unfolding ikey_trailer
  trailer_lem =
      rw (tail_len, drop_append key (to_be_bytes 8 t)) (from_be-to_be_bytes 8 t (omega arith))

kind_byte : (k : ValueKind) → kind_u8 k < 256
kind_byte put = omega arith
kind_byte delete = omega arith

pub from_u8-kind_u8 : (k : ValueKind) → from_u8 (kind_u8 k) ≡ ok k
unfolding from_u8
from_u8-kind_u8 put = refl
from_u8-kind_u8 delete = refl

module _ (key : List ℕ) (s k : ℕ) (hs : s ≤ max_seqno) (hk : k < 256) where
  packed_ukey : ikey_ukey (key ++ to_be_bytes 8 (pack_trailer s k)) ≡ key
  packed_ukey = ukey_lem key (pack_trailer s k) (omega (arith, pack_trailer_sum s k hs hk))

  packed_trailer : ikey_trailer (key ++ to_be_bytes 8 (pack_trailer s k)) ≡ s * 256 + k
  packed_trailer =
      trailer_lem key (pack_trailer s k) (omega (arith, pack_trailer_sum s k hs hk))
      ∙ pack_trailer_sum s k hs hk

low_byte : (s k : ℕ) → k < 256 → (s * 256 + k) % 256 ≡ k
low_byte s k h = omega arith

-- The parts of an internal key are what it was made of.
pub make_ikey_parts :
    (key : List ℕ) (s : ℕ) (kind : ValueKind)
    → s ≤ max_seqno
    → (ikey_ukey (make_ikey key s kind) ≡ key)
      × (ikey_seqno (make_ikey key s kind) ≡ s)
      × (ikey_kind (make_ikey key s kind) ≡ ok kind)
unfolding make_ikey ikey_seqno ikey_kind
make_ikey_parts key s kind hs = (
  packed_ukey key s (kind_u8 kind) hs (kind_byte kind),
  rw (packed_trailer key s (kind_u8 kind) hs (kind_byte kind)) (omega (arith, kind_byte kind)),
  rw (packed_trailer key s (kind_u8 kind) hs (kind_byte kind), bit_and_0xff)
      (ap from_u8 (low_byte s (kind_u8 kind) (kind_byte kind)) ∙ from_u8-kind_u8 kind),
)

compare_packed :
    (s k s' k' : ℕ)
    → k < 256
    → k' < 256
    → compare (s * 256 + k) (s' * 256 + k') ≡ then_with (compare s s') (compare k k')
compare_packed s k s' k' h h' = ground arith

-- Internal keys are ordered by user key ascending, then sequence number descending, then kind
-- descending.
pub cmp_ikey-make_ikey :
    (key key' : List ℕ) (s s' : ℕ) (kind kind' : ValueKind)
    → s ≤ max_seqno
    → s' ≤ max_seqno
    → cmp_ikey (make_ikey key s kind) (make_ikey key' s' kind')
      ≡ then_with
          (cmp_bytes key key')
          (then_with (compare s' s) (compare (kind_u8 kind') (kind_u8 kind)))
unfolding make_ikey cmp_ikey
cmp_ikey-make_ikey key key' s s' kind kind' hs hs' = rw (
  packed_ukey key s (kind_u8 kind) hs (kind_byte kind),
  packed_ukey key' s' (kind_u8 kind') hs' (kind_byte kind'),
  packed_trailer key s (kind_u8 kind) hs (kind_byte kind),
  packed_trailer key' s' (kind_u8 kind') hs' (kind_byte kind'),
  compare_packed s' (kind_u8 kind') s (kind_u8 kind) (kind_byte kind') (kind_byte kind),
)

compare_seek :
    (s k s' : ℕ)
    → k < 255
    → compare (s' * 256 + 255) (s * 256 + k) ≡ (if leb s s' then Ordering.gt else Ordering.lt)
compare_seek s k s' h = ground arith

-- A seek target at `(key', s')` lies before the entries of `key'` with sequence number at most `s'`
-- and behind those with a greater one.
pub cmp_ikey-seek :
    (key key' : List ℕ) (s s' : ℕ) (kind : ValueKind)
    → s ≤ max_seqno
    → s' ≤ max_seqno
    → cmp_ikey (make_ikey key s kind) (make_seek_ikey key' s')
      ≡ then_with (cmp_bytes key key') (if leb s s' then Ordering.gt else Ordering.lt)
unfolding make_ikey make_seek_ikey cmp_ikey
cmp_ikey-seek key key' s s' kind hs hs' = rw (
  packed_ukey key s (kind_u8 kind) hs (kind_byte kind),
  packed_ukey key' s' 255 hs' (omega arith),
  packed_trailer key s (kind_u8 kind) hs (kind_byte kind),
  packed_trailer key' s' 255 hs' (omega arith),
  compare_seek s (kind_u8 kind) s' (small kind),
)
  where
    small : (k : ValueKind) → kind_u8 k < 255
    small put = omega arith
    small delete = omega arith

pub cmp_ikey_refl : (a : List ℕ) → cmp_ikey a a ≡ Ordering.eq
unfolding cmp_ikey
cmp_ikey_refl a = rw (cmp_bytes_refl (ikey_ukey a)) (compare_refl (ikey_trailer a))

pub cmp_ikey-flip : (a b : List ℕ) → cmp_ikey b a ≡ flip (cmp_ikey a b)
unfolding cmp_ikey
cmp_ikey-flip a b =
    rw (cmp_bytes-flip (ikey_ukey a) (ikey_ukey b), compare-flip (ikey_trailer b) (ikey_trailer a))
      (sym (
        then_with-flip (cmp_bytes (ikey_ukey a) (ikey_ukey b))
          (compare (ikey_trailer b) (ikey_trailer a))))

pub cmp_ikey_trans :
    (a b c : List ℕ)
    → cmp_ikey a b ≡ Ordering.lt
    → cmp_ikey b c ≡ Ordering.lt
    → cmp_ikey a c ≡ Ordering.lt
unfolding cmp_ikey
cmp_ikey_trans a b c h k = ground (
  arith,
  cmp_bytes-eq (ikey_ukey a) (ikey_ukey b),
  cmp_bytes-eq (ikey_ukey b) (ikey_ukey c),
  cmp_bytes_refl (ikey_ukey a),
  cmp_bytes_trans (ikey_ukey a) (ikey_ukey b) (ikey_ukey c),
)
