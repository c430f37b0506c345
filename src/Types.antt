-- ===== src/Types.antt =====
-- crates/fluent31/src/types.rs: internal keys, the value representation, and the reserved keyspace.
pub mod Ikey
pub mod Repr
pub mod Reserved
use fluent.Prelude.{
  ℕ, ◌+◌, ◌-◌, ◌*◌, ◌/◌, ◌%◌, ◌^◌, ◌≤◌, bit_and, bit_or, ltb, ◌==◌, if◌then◌else◌, compare,
  Ordering, List, [], ◌∷◌, ◌++◌, length, take, drop, get_or,
}
use fluent.Result.{Result, ok, err, corrupt, invalid_argument, ◌>>=◌}
use fluent.Coding.{Reader, new, u8, uvarint, put_uvarint}
use fluent.Bytes.{then_with, cmp_bytes, to_be_bytes, from_be_bytes}

abbrev pub max_seqno : ℕ
max_seqno = 2 ^ 56 - 1

abbrev pub trailer_len : ℕ
trailer_len = 8

abbrev pub seek_kind : ℕ
seek_kind = 0xff

pub data ValueKind : Type 0 where
  delete put : ValueKind

-- `kind as u8`
abbrev pub kind_u8 : ValueKind → ℕ
kind_u8 delete = 0
kind_u8 put = 1

unfoldable pub from_u8 : ℕ → Result ValueKind
from_u8 b = if b == 0 then ok delete else if b == 1 then ok put else err corrupt

-- `(seq << 8) | kind` on u64.
unfoldable pub pack_trailer : ℕ → ℕ → ℕ
pack_trailer seq kind = bit_or (seq * 2 ^ 8 % 2 ^ 64) kind

unfoldable pub make_ikey : List ℕ → ℕ → ValueKind → List ℕ
unfolding pack_trailer to_be_bytes
make_ikey user_key seq kind = user_key ++ to_be_bytes 8 (pack_trailer seq (kind_u8 kind))

unfoldable pub make_seek_ikey : List ℕ → ℕ → List ℕ
unfolding pack_trailer to_be_bytes
make_seek_ikey user_key seq = user_key ++ to_be_bytes 8 (pack_trailer seq seek_kind)

-- On keys shorter than the trailer the source faults; every key that reaches these functions was
-- built by `make_ikey` or `make_seek_ikey`, or checked for its length when its block was read.
unfoldable pub ikey_ukey : List ℕ → List ℕ
ikey_ukey ikey = take (length ikey - trailer_len) ikey

unfoldable pub ikey_trailer : List ℕ → ℕ
unfolding from_be_bytes
ikey_trailer ikey = from_be_bytes (drop (length ikey - trailer_len) ikey)

unfoldable pub ikey_seqno : List ℕ → ℕ
unfolding ikey_trailer
ikey_seqno ikey = ikey_trailer ikey / 2 ^ 8

unfoldable pub ikey_kind : List ℕ → Result ValueKind
unfolding from_u8 ikey_trailer
ikey_kind ikey = from_u8 (bit_and (ikey_trailer ikey) 0xff)

unfoldable pub cmp_ikey : List ℕ → List ℕ → Ordering
unfolding cmp_bytes ikey_ukey ikey_trailer
cmp_ikey a b =
    then_with (cmp_bytes (ikey_ukey a) (ikey_ukey b)) (compare (ikey_trailer b) (ikey_trailer a))

abbrev pub repr_inline : ℕ
repr_inline = 0

abbrev pub repr_ptr : ℕ
repr_ptr = 1

pub record ValuePtr : Type 0 where
  pub file : ℕ
  pub offset : ℕ
  pub len : ℕ

pub data ReprRef : Type 0 where
  inline : List ℕ → ReprRef
  ptr : ValuePtr → ReprRef

unfoldable pub encode_inline : List ℕ → List ℕ
encode_inline value = repr_inline ∷ value

unfoldable pub encode_ptr : ValuePtr → List ℕ
encode_ptr p = put_uvarint (put_uvarint (put_uvarint (repr_ptr ∷ []) p.file) p.offset) p.len

decode_ptr : Reader → Result ReprRef
decode_ptr r = do
  (file, r1) ← uvarint r
  (offset, r2) ← uvarint r1
  (len, r3) ← uvarint r2
  if ltb (2 ^ 32 - 1) len
      then err corrupt
      else ok (ptr (record { file = file; offset = offset; len = len % 2 ^ 32 }))

unfoldable pub decode_repr : List ℕ → Result ReprRef
unfolding decode_ptr
decode_repr repr = do
  (tag, r) ← u8 (new repr)
  if tag == repr_inline
      then ok (inline (drop 1 repr))
      else if tag == repr_ptr
      then decode_ptr r
      else err corrupt

abbrev pub sys_prefix : ℕ
sys_prefix = 0x00

abbrev pub user_keyspace_start : List ℕ
user_keyspace_start = 0x01 ∷ []

unfoldable pub validate_user_key : List ℕ → Result (Unit {0})
validate_user_key [] = err invalid_argument
validate_user_key (b ∷ key) = if b == sys_prefix then err invalid_argument else ok tt

unfoldable pub sys_wasm_key : List ℕ → List ℕ
sys_wasm_key name = sys_prefix ∷ b'w' ∷ b'a' ∷ b's' ∷ b'm' ∷ 0 ∷ name

unfoldable pub sys_trigger_key : List ℕ → List ℕ
sys_trigger_key name = sys_prefix ∷ b't' ∷ b'r' ∷ b'g' ∷ 0 ∷ name

unfoldable pub sys_trigger_event_key : List ℕ → List ℕ → List ℕ
sys_trigger_event_key name user_key =
    sys_prefix ∷ b't' ∷ b'r' ∷ b'g' ∷ b'q' ∷ 0 ∷ (name ++ (0 ∷ user_key))

unfoldable pub sys_trigger_change_key : List ℕ → ℕ → List ℕ
unfolding to_be_bytes
sys_trigger_change_key name seqno =
    sys_prefix ∷ b't' ∷ b'r' ∷ b'g' ∷ b'q' ∷ 0 ∷ (name ++ (0 ∷ to_be_bytes 8 seqno))
