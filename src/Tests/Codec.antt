-- ===== src/Tests/Codec.antt =====
-- Runs of crates/fluent31/src/coding.rs, types.rs and batch.rs.
use fluent.Prelude.{
  ℕ, ◌+◌, ◌≡◌, refl, arith, List, [], ◌∷◌, ◌++◌, Ordering, leb, if◌then◌else◌, compare,
}
use fluent.Result.{ok, err, corruption}
use fluent.Coding.{
  new, put_uvarint, uvarint, uvarint_loop, u8, bytes, put_u32, put_u64, put_len_prefixed,
}
use fluent.Coding.Reads.{Reads}
use fluent.Coding.Varint.{encoded, uvarint-Reads, uvarint_rounds}
use fluent.Coding.Stable.{truncated, uvarint-Stable}
use fluent.Bytes.{then_with, cmp_bytes}
use fluent.Types.{put, delete, make_ikey, make_seek_ikey, cmp_ikey, ValuePtr}
use fluent.Types.Ikey.{cmp_ikey-make_ikey, cmp_ikey-seek}
use fluent.Batch.{EncEntry, encode_batch, decode_batch, put_entries, put_entry}
use fluent.Batch.RoundTrip.{IsBatch, decode-encode_batch, decode_batch_truncated}

varint : Unit {0}
unfolding put_uvarint uvarint uvarint_loop u8 bytes
varint = tt

put_300 : put_uvarint [] 300 ≡ 0xac ∷ 0x02 ∷ []
unfolding varint
put_300 = refl

reads_300 :
    uvarint (new (0xac ∷ 0x02 ∷ 7 ∷ [])) ≡ ok (300, record { buf = 0xac ∷ 0x02 ∷ 7 ∷ []; pos = 2 })
unfolding varint
reads_300 = refl

too_wide :
    uvarint (new (0xff ∷ 0xff ∷ 0xff ∷ 0xff ∷ 0xff ∷ 0xff ∷ 0xff ∷ 0xff ∷ 0xff ∷ 2 ∷ []))
    ≡ err corruption
unfolding varint
too_wide = refl

seek_between :
    (cmp_ikey (make_ikey (b'k' ∷ []) 9 put) (make_seek_ikey (b'k' ∷ []) 7) ≡ Ordering.lt)
    × (cmp_ikey (make_seek_ikey (b'k' ∷ []) 7) (make_ikey (b'k' ∷ []) 5 delete) ≡ Ordering.lt)
unfolding cmp_ikey make_ikey make_seek_ikey
seek_between = (refl, refl)

uvarint-Reads_example : Reads (uvarint (new (encoded 300 ++ (7 ∷ [])))) 300 (7 ∷ [])
uvarint-Reads_example =
    uvarint-Reads (new (encoded 300 ++ (7 ∷ []))) 300 (7 ∷ []) (omega arith) refl

uvarint_rounds_example :
    uvarint_loop (10 + 5) (new (0xff ∷ 1 ∷ [])) 0 0 ≡ uvarint (new (0xff ∷ 1 ∷ []))
uvarint_rounds_example = uvarint_rounds (new (0xff ∷ 1 ∷ [])) 5

truncated_example : uvarint (new (0xac ∷ [])) ≡ err corruption
unfolding varint
truncated_example =
    truncated uvarint (0xac ∷ []) 0x02 [] 300 (record { buf = 0xac ∷ 0x02 ∷ []; pos = 2 })
      uvarint-Stable refl refl

cmp_ikey-make_ikey_example :
    cmp_ikey (make_ikey (b'a' ∷ []) 9 put) (make_ikey (b'a' ∷ []) 5 delete)
    ≡ then_with (cmp_bytes (b'a' ∷ []) (b'a' ∷ [])) (then_with (compare 5 9) (compare 0 1))
cmp_ikey-make_ikey_example =
    cmp_ikey-make_ikey (b'a' ∷ []) (b'a' ∷ []) 9 5 put delete (omega arith) (omega arith)

cmp_ikey-seek_example :
    cmp_ikey (make_ikey (b'k' ∷ []) 9 put) (make_seek_ikey (b'k' ∷ []) 7)
    ≡ then_with (cmp_bytes (b'k' ∷ []) (b'k' ∷ [])) (if leb 9 7 then Ordering.gt else Ordering.lt)
cmp_ikey-seek_example = cmp_ikey-seek (b'k' ∷ []) (b'k' ∷ []) 9 7 put (omega arith) (omega arith)

abbrev pointer : ValuePtr
pointer = record { file = 7; offset = 123456789; len = 4096 }

abbrev trigger : List ℕ
trigger = b't' ∷ []

abbrev queued : List ℕ
queued = 1 ∷ 0 ∷ 2 ∷ []

abbrev entries : List EncEntry
entries =
    record { kind = put; key = b'a' ∷ []; repr = 0 ∷ b'1' ∷ [] }
    ∷ record { kind = delete; key = b'b' ∷ []; repr = [] }
    ∷ []

entries-IsBatch : IsBatch 42 entries
entries-IsBatch = omega arith

decode-encode_batch_example : decode_batch (encode_batch 42 entries ++ (1 ∷ [])) ≡ ok (42, entries)
decode-encode_batch_example = decode-encode_batch 42 entries (1 ∷ []) entries-IsBatch

decode_batch_truncated_example :
    decode_batch (
      42 ∷ 0 ∷ 0 ∷ 0 ∷ 0 ∷ 0 ∷ 0 ∷ 0 ∷ 2 ∷ 0 ∷ 0 ∷ 0 ∷ 1 ∷ 1 ∷ b'a' ∷ 2 ∷ 0 ∷ b'1' ∷ 0 ∷ 1 ∷ b'b'
      ∷ [])
    ≡ err corruption
unfolding encode_batch put_u64 put_u32 put_entries put_entry put_len_prefixed varint
decode_batch_truncated_example =
    decode_batch_truncated 42 entries
      (42 ∷ 0 ∷ 0 ∷ 0 ∷ 0 ∷ 0 ∷ 0 ∷ 0 ∷ 2 ∷ 0 ∷ 0 ∷ 0 ∷ 1 ∷ 1 ∷ b'a' ∷ 2 ∷ 0 ∷ b'1' ∷ 0 ∷ 1 ∷ b'b'
        ∷ [])
      0 [] entries-IsBatch refl
