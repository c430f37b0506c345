-- ===== src/Batch.antt =====
-- crates/fluent31/src/batch.rs: write batches and their WAL payload.
pub mod RoundTrip
use fluent.Prelude.{ℕ, zero, suc, ◌+◌, ◌%◌, ◌^◌, Bool, ◌==◌, List, [], ◌∷◌, ◌++◌, length}
use fluent.Result.{Result, ok, err, ◌>>=◌}
use fluent.Coding.{Reader, new, u8, u32, u64, len_prefixed, put_u32, put_u64, put_len_prefixed}
use fluent.Types.{ValueKind, kind_u8, from_u8}

pub data BatchOp : Type 0 where
  put : List ℕ → List ℕ → BatchOp
  delete : List ℕ → BatchOp

pub record WriteBatch : Type 0 where
  pub ops : List BatchOp
  pub bytes : ℕ

abbrev pub empty_batch : WriteBatch
empty_batch = record { ops = []; bytes = 0 }

unfoldable pub batch_put : WriteBatch → List ℕ → List ℕ → WriteBatch
batch_put b key value = record b {
  bytes = b.bytes + (length key + length value);
  ops = b.ops ++ (put key value ∷ []);
}

unfoldable pub batch_delete : WriteBatch → List ℕ → WriteBatch
batch_delete b key = record b { bytes = b.bytes + length key; ops = b.ops ++ (delete key ∷ []) }

abbrev pub batch_len : WriteBatch → ℕ
batch_len b = length b.ops

abbrev pub batch_is_empty : WriteBatch → Bool
batch_is_empty b = batch_len b == 0

abbrev pub byte_size : WriteBatch → ℕ
byte_size b = b.bytes

-- An entry after value placement.
pub record EncEntry : Type 0 where
  pub kind : ValueKind
  pub key : List ℕ
  pub repr : List ℕ

-- One round of the loop of `encode_batch`.
unfoldable pub put_entry : List ℕ → EncEntry → List ℕ
put_entry out e = put_len_prefixed (put_len_prefixed (out ++ (kind_u8 e.kind ∷ [])) e.key) e.repr

unfoldable pub put_entries : List ℕ → List EncEntry → List ℕ
put_entries out [] = out
put_entries out (e ∷ es) = put_entries (put_entry out e) es

unfoldable pub encode_batch : ℕ → List EncEntry → List ℕ
encode_batch base_seqno entries =
    put_entries (put_u32 (put_u64 [] base_seqno) (length entries % 2 ^ 32)) entries

unfoldable pub decode_entry : Reader → Result (EncEntry × Reader)
decode_entry r = do
  (b, r1) ← u8 r
  kind ← from_u8 b
  (key, r2) ← len_prefixed r1
  (repr, r3) ← len_prefixed r2
  ok (record { kind = kind; key = key; repr = repr }, r3)

-- `for _ in 0..count`
unfoldable pub decode_entries : ℕ → Reader → Result (List EncEntry × Reader)
decode_entries zero r = ok ([], r)
decode_entries (suc count) r = do
  (e, r1) ← decode_entry r
  (es, r2) ← decode_entries count r1
  ok (e ∷ es, r2)

-- `decode_batch`, with the reader that it drops at the end.
unfoldable pub read_batch : Reader → Result ((ℕ × List EncEntry) × Reader)
read_batch r = do
  (base, r1) ← u64 r
  (count, r2) ← u32 r1
  (entries, r3) ← decode_entries count r2
  ok ((base, entries), r3)

unfoldable pub decode_batch : List ℕ → Result (ℕ × List EncEntry)
unfolding read_batch
decode_batch payload = do (b, r) ← read_batch (new payload); ok b
