-- ===== src/Batch/RoundTrip.antt =====
-- crates/fluent31/src/batch.rs: a decoded batch is the encoded one, and a truncated one is refused.
use mathlib.Core.List.{append_assoc, append-nil}
use native.Mathlib.Nat.{mod-eq_of_lt}
use fluent.Prelude.{
  ℕ, zero, suc, ◌+◌, ◌≡◌, refl, ap, ◌∙◌, sym, arith, List, [], ◌∷◌, ◌++◌, length, All,
}
use fluent.Result.{Error, ok, err, corruption}
use fluent.Coding.{
  Reader, new, IsU64, IsU32, u8, u32, u64, len_prefixed, put_u32, put_u64, put_len_prefixed,
  to_le_bytes,
}
use fluent.Coding.Reads.{rest, Reads, u8-Reads, u32-Reads, u64-Reads}
use fluent.Coding.Varint.{encoded, put_len_prefixed_append, len_prefixed-Reads}
use fluent.Coding.Stable.{
  Stable, Stable-bind, Stable-check, ok-Stable, u8-Stable, u32-Stable, u64-Stable,
  len_prefixed-Stable, truncated,
}
use fluent.Types.{kind_u8, from_u8}
use fluent.Types.Ikey.{from_u8-kind_u8}
use fluent.Batch.{
  EncEntry, BatchOp, WriteBatch, put_entry, put_entries, encode_batch, decode_entry, decode_entries,
  read_batch, decode_batch, batch_put, batch_delete,
}

-- A Rust vector is shorter than 2^64.
abbrev pub IsEntry : EncEntry → Type 0
IsEntry e = IsU64 (length e.key) × IsU64 (length e.repr)

prefixed : List ℕ → List ℕ
prefixed xs = encoded (length xs) ++ xs

entry_bytes : EncEntry → List ℕ
unfolding prefixed
entry_bytes e = kind_u8 e.kind ∷ (prefixed e.key ++ prefixed e.repr)

entries_bytes : List EncEntry → List ℕ
entries_bytes [] = []
entries_bytes (e ∷ es) = entry_bytes e ++ entries_bytes es

put_entry_append :
    (out : List ℕ) (e : EncEntry) → IsEntry e → put_entry out e ≡ out ++ entry_bytes e
unfolding put_entry entry_bytes
put_entry_append out e (hk, hr) =
    put_len_prefixed_append (put_len_prefixed (out ++ (kind_u8 e.kind ∷ [])) e.key) e.repr hr
    ∙ ap (λ (l : List ℕ). l ++ prefixed e.repr)
        (put_len_prefixed_append (out ++ (kind_u8 e.kind ∷ [])) e.key hk)
    ∙ simp append_assoc

put_entries_append :
    (out : List ℕ) (es : List EncEntry)
    → All IsEntry es
    → put_entries out es ≡ out ++ entries_bytes es
unfolding put_entries entries_bytes
put_entries_append out [] h = sym (append-nil out)
put_entries_append out (e ∷ es) (he, hes) =
    put_entries_append (put_entry out e) es hes
    ∙ ap (λ (l : List ℕ). l ++ entries_bytes es) (put_entry_append out e he)
    ∙ append_assoc out (entry_bytes e) (entries_bytes es)

decode_entry-Reads :
    (r : Reader) (e : EncEntry) (post : List ℕ)
    → IsEntry e
    → rest r ≡ entry_bytes e ++ post
    → Reads (decode_entry r) e post
unfolding decode_entry entry_bytes
decode_entry-Reads r e post (hk, hr) h =
    let (r1, e1, h1) = u8-Reads r (kind_u8 e.kind) _ h in
    let (r2, e2, h2) =
      len_prefixed-Reads r1 e.key (prefixed e.repr ++ post) hk
        (h1 ∙ append_assoc (prefixed e.key) (prefixed e.repr) post) in
    let (r3, e3, h3) = len_prefixed-Reads r2 e.repr post hr h2 in
    (r3, rw (e1, from_u8-kind_u8 e.kind, e2, e3), h3)

decode_entries-Reads :
    (es : List EncEntry) (r : Reader) (post : List ℕ)
    → All IsEntry es
    → rest r ≡ entries_bytes es ++ post
    → Reads (decode_entries (length es) r) es post
unfolding decode_entries entries_bytes
decode_entries-Reads [] r post hes h = (r, refl, h)
decode_entries-Reads (e ∷ es) r post (he, hes) h =
    let (r1, e1, h1) =
      decode_entry-Reads r e (entries_bytes es ++ post) he
        (h ∙ append_assoc (entry_bytes e) (entries_bytes es) post) in
    let (r2, e2, h2) = decode_entries-Reads es r1 post hes h1 in (r2, rw (e1, e2), h2)

pub record IsBatch (base : ℕ) (es : List EncEntry) : Type 0 where
  pub base_fits : IsU64 base
  pub count_fits : IsU32 (length es)
  pub entries_fit : All IsEntry es

encode_batch_lem :
    (base : ℕ) (es : List EncEntry)
    → IsBatch base es
    → encode_batch base es ≡ to_le_bytes 8 base ++ (to_le_bytes 4 (length es) ++ entries_bytes es)
unfolding encode_batch put_u32 put_u64
encode_batch_lem base es h =
    put_entries_append _ es h.entries_fit
    ∙ ap (λ (n : ℕ). (to_le_bytes 8 base ++ to_le_bytes 4 n) ++ entries_bytes es)
        (mod-eq_of_lt h.count_fits)
    ∙ append_assoc (to_le_bytes 8 base) (to_le_bytes 4 (length es)) (entries_bytes es)

read_batch-Reads :
    (base : ℕ) (es : List EncEntry) (r : Reader) (post : List ℕ)
    → IsBatch base es
    → rest r ≡ encode_batch base es ++ post
    → Reads (read_batch r) (base, es) post
unfolding read_batch
read_batch-Reads base es r post ok_batch h =
    let (r1, e1, h1) = u64-Reads r base _ ok_batch.base_fits (h ∙ laid) in
    let (r2, e2, h2) = u32-Reads r1 (length es) _ ok_batch.count_fits h1 in
    let (r3, e3, h3) = decode_entries-Reads es r2 post ok_batch.entries_fit h2 in
    (r3, rw (e1, e2, e3), h3)
  where
    laid :
        encode_batch base es ++ post
        ≡ to_le_bytes 8 base ++ (to_le_bytes 4 (length es) ++ (entries_bytes es ++ post))
    laid = ap (λ (l : List ℕ). l ++ post) (encode_batch_lem base es ok_batch) ∙ simp append_assoc

-- Decoding an encoded batch yields its base sequence number and entries, whatever bytes follow.
pub decode-encode_batch :
    (base : ℕ) (es : List EncEntry) (post : List ℕ)
    → IsBatch base es
    → decode_batch (encode_batch base es ++ post) ≡ ok (base, es)
unfolding decode_batch
decode-encode_batch base es post h =
    let (r, e, _) = read_batch-Reads base es (new (encode_batch base es ++ post)) post h refl in
    rw e

from_u8_fails : (b : ℕ) (e : Error) → from_u8 b ≡ err e → e ≡ corruption
unfolding from_u8
from_u8_fails b e h = ground arith

decode_entry-Stable : Stable decode_entry
unfolding decode_entry
decode_entry-Stable = Stable-bind u8 _ u8-Stable λ b.
    Stable-check (from_u8 b) _ (from_u8_fails b) λ kind.
      Stable-bind len_prefixed _ len_prefixed-Stable λ key.
        Stable-bind len_prefixed _ len_prefixed-Stable
          λ repr. ok-Stable (record { kind = kind; key = key; repr = repr })

decode_entries-Stable : (count : ℕ) → Stable (decode_entries count)
unfolding decode_entries
decode_entries-Stable zero = ok-Stable []
decode_entries-Stable (suc count) =
    Stable-bind decode_entry _ decode_entry-Stable λ e.
      Stable-bind (decode_entries count) _ (decode_entries-Stable count) λ es. ok-Stable (e ∷ es)

read_batch-Stable : Stable read_batch
unfolding read_batch
read_batch-Stable = Stable-bind u64 _ u64-Stable λ base. Stable-bind u32 _ u32-Stable λ count.
    Stable-bind (decode_entries count) _ (decode_entries-Stable count)
      λ entries. ok-Stable (base, entries)

-- A payload cut anywhere is refused as corrupt.
pub decode_batch_truncated :
    (base : ℕ) (es : List EncEntry) (front : List ℕ) (x : ℕ) (back : List ℕ)
    → IsBatch base es
    → encode_batch base es ≡ front ++ (x ∷ back)
    → decode_batch front ≡ err corruption
unfolding decode_batch
decode_batch_truncated base es front x back h cut =
    let (r', e, done) =
      read_batch-Reads base es (new (front ++ (x ∷ back))) [] h (sym cut ∙ sym (append-nil _)) in
    rw (truncated read_batch front x back (base, es) r' read_batch-Stable e done)

-- The bytes of keys and values in a list of operations.
abbrev pub ops_size : List BatchOp → ℕ
ops_size [] = 0
ops_size (BatchOp.put key value ∷ ops) = length key + length value + ops_size ops
ops_size (BatchOp.delete key ∷ ops) = length key + ops_size ops

ops_size-append : (xs ys : List BatchOp) → ops_size (xs ++ ys) ≡ ops_size xs + ops_size ys
ops_size-append [] ys = omega arith
ops_size-append (BatchOp.put key value ∷ xs) ys = omega (arith, ops_size-append xs ys)
ops_size-append (BatchOp.delete key ∷ xs) ys = omega (arith, ops_size-append xs ys)

-- One call of `put` or `delete`.
abbrev pub batch_add : WriteBatch → BatchOp → WriteBatch
batch_add b (BatchOp.put key value) = batch_put b key value
batch_add b (BatchOp.delete key) = batch_delete b key

-- Each call appends its operation, and the byte size stays the size of the operations.
pub batch_add_lem :
    (b : WriteBatch) (op : BatchOp)
    → b.bytes ≡ ops_size b.ops
    → ((batch_add b op).ops ≡ b.ops ++ (op ∷ []))
      × ((batch_add b op).bytes ≡ ops_size (batch_add b op).ops)
unfolding batch_put batch_delete
batch_add_lem b (BatchOp.put key value) h =
    (refl, omega (arith, ops_size-append b.ops (BatchOp.put key value ∷ [])))
batch_add_lem b (BatchOp.delete key) h =
    (refl, omega (arith, ops_size-append b.ops (BatchOp.delete key ∷ [])))
