-- ===== src/Vlog/Records.antt =====
-- crates/fluent31/src/vlog.rs: what reads and scans find of the records that were written.
use mathlib.Core.List.{append_assoc, append-nil}
use native.Mathlib.Nat.{mod-eq_of_lt}
use fluent.Prelude.{
  ℕ, suc, ◌+◌, ◌-◌, ◌%◌, ◌^◌, ◌<◌, if◌then◌else◌, List, [], ◌∷◌, ◌++◌, length, take, drop,
  take_append, drop_append, length-append, length-drop, ◌≡◌, refl, ap, sym, ◌∙◌, arith,
}
use fluent.Result.{ok, err, corrupt}
use fluent.Bytes.{bytes_eq}
use fluent.Coding.{new, IsU32, IsU64, is_empty, put_uvarint, to_le_bytes}
use fluent.Coding.Reads.{bytes-Reads, u32-Reads, length-to_le_bytes}
use fluent.Coding.Varint.{encoded, put_uvarint_append, uvarint-Reads}
use fluent.Vlog.{
  ScannedRecord, record_body, read_lengths, encode_record, parse_record, record_value_for,
  parse_loop,
}

body_parts :
    (key value : List ℕ)
    → IsU64 (length key)
    → IsU64 (length value)
    → record_body key value ≡ encoded (length key) ++ (encoded (length value) ++ (key ++ value))
unfolding record_body
body_parts key value hk hv =
    ap (λ n. (put_uvarint (put_uvarint [] n) (length value % 2 ^ 64) ++ key) ++ value)
      (mod-eq_of_lt hk)
    ∙ ap (λ n. (put_uvarint (put_uvarint [] (length key)) n ++ key) ++ value) (mod-eq_of_lt hv)
    ∙ ap (λ l. (l ++ key) ++ value)
        (put_uvarint_append (put_uvarint [] (length key)) (length value))
    ∙ ap (λ l. ((l ++ encoded (length value)) ++ key) ++ value) (put_uvarint_append [] (length key))
    ∙ simp append_assoc

drop_checksum : (v : ℕ) (bs : List ℕ) → drop 4 (to_le_bytes 4 v ++ bs) ≡ bs
drop_checksum v bs =
    ap (λ n. drop n (to_le_bytes 4 v ++ bs)) (sym (length-to_le_bytes 4 v))
    ∙ drop_append (to_le_bytes 4 v) bs

module _ (crc32 : List ℕ → ℕ) (is_u32 : (bs : List ℕ) → IsU32 (crc32 bs)) where
  -- What `Vlog::append` accepts.
  pub record IsRecord (key value : List ℕ) : Type 0 where
    pub key_fits : IsU64 (length key)
    pub value_fits : IsU64 (length value)
    pub record_fits : length (encode_record crc32 key value) < 2 ^ 32

  pub length-encode_record :
      (key value : List ℕ)
      → length (encode_record crc32 key value) ≡ 4 + length (record_body key value)
  unfolding encode_record
  length-encode_record key value = omega (
    arith,
    length-append (to_le_bytes 4 (crc32 (record_body key value))) (record_body key value),
    length-to_le_bytes 4 (crc32 (record_body key value)),
  )

  -- The record of a key that fits, read back for a key.
  parse-encode_record :
      (key value : List ℕ)
      → IsU64 (length key)
      → IsU64 (length value)
      → parse_record crc32 (encode_record crc32 key value) ≡ ok (key, value)
  unfolding parse_record encode_record is_empty
  parse-encode_record key value hk hv =
      let body = record_body key value in
      let (r1, e1, h1) =
        u32-Reads (new (to_le_bytes 4 (crc32 body) ++ body)) (crc32 body) body (is_u32 body) refl in
      let (r2, e2, h2) =
        uvarint-Reads r1 (length key) (encoded (length value) ++ (key ++ value)) hk
          (h1 ∙ body_parts key value hk hv) in
      let (r3, e3, h3) = uvarint-Reads r2 (length value) (key ++ value) hv h2 in
      let (r4, e4, h4) = bytes-Reads r3 key value h3 in
      let (r5, e5, h5) = bytes-Reads r4 value [] (h4 ∙ sym (append-nil value)) in
      ground (
        arith,
        e1,
        ap crc32 (drop_checksum (crc32 body) body),
        e2,
        e3,
        e4,
        e5,
        length-drop r5.pos r5.buf,
        ap {B = ℕ} length h5,
      )

  -- A record of the value log yields its value for the key it was written under, and is corrupt
  -- for any other key; the checksum has 32 bits.
  pub record_value_for-encode :
      (key value expect_key : List ℕ)
      → IsU64 (length key)
      → IsU64 (length value)
      → record_value_for crc32 (encode_record crc32 key value) expect_key
        ≡ (if bytes_eq key expect_key then ok value else err corrupt)
  unfolding record_value_for
  record_value_for-encode key value expect_key hk hv =
      rw (parse-encode_record key value hk hv) (ground arith)

  -- The bytes before the key.
  abbrev pub header_len : List ℕ → List ℕ → ℕ
  header_len key value = 4 + length (encoded (length key)) + length (encoded (length value))

  pub length-record :
      (key value : List ℕ)
      → IsU64 (length key)
      → IsU64 (length value)
      → length (encode_record crc32 key value) ≡ header_len key value + length key + length value
  length-record key value hk hv = omega (
    arith,
    length-encode_record key value,
    ap {B = ℕ} length (body_parts key value hk hv),
    length-append (encoded (length key)) (encoded (length value) ++ (key ++ value)),
    length-append (encoded (length value)) (key ++ value),
    length-append key value,
  )

  pub read_lengths-record :
      (rest' key value post : List ℕ)
      → IsU64 (length key)
      → IsU64 (length value)
      → rest' ≡ encode_record crc32 key value ++ post
      → read_lengths rest'
        ≡ ok ((crc32 (record_body key value), length key, length value), header_len key value)
  unfolding read_lengths
  read_lengths-record rest' key value post hk hv e =
      let body = record_body key value in
      let laid : rest' ≡ to_le_bytes 4 (crc32 body) ++ (body ++ post) =
        e ∙ unfold encode_record in append_assoc (to_le_bytes 4 (crc32 body)) body post in
      let parts : body ++ post
          ≡ encoded (length key) ++ (encoded (length value) ++ (key ++ (value ++ post))) =
        ap (λ l. l ++ post) (body_parts key value hk hv) ∙ simp append_assoc in
      let (r1, e1, h1) = u32-Reads (new rest') (crc32 body) (body ++ post) (is_u32 body) laid in
      let (r2, e2, h2) =
        uvarint-Reads r1 (length key) (encoded (length value) ++ (key ++ (value ++ post))) hk
          (h1 ∙ parts) in
      let (r3, e3, h3) = uvarint-Reads r2 (length value) (key ++ (value ++ post)) hv h2 in
      ground (
        arith,
        e1,
        e2,
        e3,
        length-drop r3.pos r3.buf,
        ap {B = ℕ} length h3,
        length-append key (value ++ post),
        length-append value post,
        ap {B = ℕ} length e,
        length-append (encode_record crc32 key value) post,
        length-record key value hk hv,
      )

  abbrev pub sum_len : List ℕ → List ℕ → ℕ
  sum_len key value = header_len key value + length key + length value

  abbrev pub scanned_at : ℕ → ℕ → List ℕ → List ℕ → ScannedRecord
  scanned_at pos total key value = record {
    offset = pos;
    record_len = total;
    key = key;
    value_len = length value;
  }

  module _ (buf : List ℕ) (pos : ℕ) (key value post : List ℕ) (is_record : IsRecord key value)
      (laid : drop pos buf ≡ encode_record crc32 key value ++ post) where
    pub total-eq : sum_len key value ≡ length (encode_record crc32 key value)
    total-eq = sym (length-record key value is_record.key_fits is_record.value_fits)

    left : length buf - pos ≡ sum_len key value + length post
    left = omega (
      arith,
      length-drop pos buf,
      ap {B = ℕ} length laid,
      length-append (encode_record crc32 key value) post,
      length-record key value is_record.key_fits is_record.value_fits,
    )

    whole : take (sum_len key value) (drop pos buf) ≡ encode_record crc32 key value
    whole =
        ap (λ n. take n (drop pos buf)) total-eq
        ∙ ap (take (length (encode_record crc32 key value))) laid
        ∙ take_append (encode_record crc32 key value) post

    checked :
        crc32 (drop 4 (take (sum_len key value) (drop pos buf))) ≡ crc32 (record_body key value)
    unfolding encode_record
    checked =
        ap (λ l. crc32 (drop 4 l)) whole
        ∙ ap crc32 (drop_checksum (crc32 (record_body key value)) (record_body key value))

    found : take (length key) (drop (header_len key value) (drop pos buf)) ≡ key
    unfolding encode_record
    found =
        let head =
          to_le_bytes 4 (crc32 (record_body key value))
          ++ (encoded (length key) ++ encoded (length value)) in
        let parts : drop pos buf ≡ head ++ (key ++ (value ++ post)) =
          laid
          ∙ ap (λ l. (to_le_bytes 4 (crc32 (record_body key value)) ++ l) ++ post)
              (body_parts key value is_record.key_fits is_record.value_fits)
          ∙ simp append_assoc in
        let size : header_len key value ≡ length head = omega (
          arith,
          length-append (to_le_bytes 4 (crc32 (record_body key value)))
              (encoded (length key) ++ encoded (length value)),
          length-append (encoded (length key)) (encoded (length value)),
          length-to_le_bytes 4 (crc32 (record_body key value)),
        ) in
        ap (λ l. take (length key) (drop (header_len key value) l)) parts
        ∙ ap (λ n. take (length key) (drop n (head ++ (key ++ (value ++ post))))) size
        ∙ ap (take (length key)) (drop_append head (key ++ (value ++ post)))
        ∙ take_append key (value ++ post)

    pub parse_loop_record :
        (fuel : ℕ) (out : List ScannedRecord)
        → parse_loop crc32 (suc fuel) buf pos out
          ≡ parse_loop crc32 fuel buf
              (pos + sum_len key value)
              (out ++ (scanned_at pos (sum_len key value) key value ∷ []))
    unfolding parse_loop
    parse_loop_record fuel out = ground (
      arith,
      read_lengths-record (drop pos buf) key value post is_record.key_fits is_record.value_fits
          laid,
      checked,
      found,
      left,
      length-drop pos buf,
      is_record.record_fits,
      total-eq,
    )
