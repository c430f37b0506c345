-- ===== src/Vlog.antt =====
-- crates/fluent31/src/vlog.rs: the records of the value log. crc32fast is a parameter.
pub mod Records
pub mod Scans
use fluent.Prelude.{
  ℕ, zero, suc, ◌+◌, ◌-◌, ◌%◌, ◌^◌, ◌==◌, ltb, leb, if◌then◌else◌, Bool, true, false, ◌&&◌, ◌||◌,
  not, List, [], ◌∷◌, ◌++◌, length, take, drop, Option, none, some,
}
use fluent.Result.{Result, ok, err, corrupt, ◌>>=◌}
use fluent.Coding.{Reader, new, bytes, u32, uvarint, is_empty, remaining, put_uvarint, to_le_bytes}
use fluent.Bytes.{bytes_eq}

-- The offset, the length, the key and the length of the value of a record in a file.
pub record ScannedRecord : Type 0 where
  pub offset : ℕ
  pub record_len : ℕ
  pub key : List ℕ
  pub value_len : ℕ

unfoldable pub record_body : List ℕ → List ℕ → List ℕ
record_body key value =
    (put_uvarint (put_uvarint [] (length key % 2 ^ 64)) (length value % 2 ^ 64) ++ key) ++ value

-- The checksum and the two lengths at the start of some bytes, and the bytes that they take.
unfoldable pub read_lengths : List ℕ → Result ((ℕ × ℕ × ℕ) × ℕ)
read_lengths rest = do
  (crc, r1) ← u32 (new rest)
  (klen, r2) ← uvarint r1
  (vlen, r3) ← uvarint r2
  ok ((crc, klen, vlen), length rest - remaining r3)

-- `checked_add` and the two filters, on the sum without its wrap-around: a sum that would wrap is beyond
-- every filter.
abbrev pub fits : ℕ → ℕ → Bool
fits total left = ltb total (2 ^ 64) && leb total left && ltb total (2 ^ 32)

module _ (crc32 : List ℕ → ℕ) where
  unfoldable pub encode_record : List ℕ → List ℕ → List ℕ
  unfolding record_body
  encode_record key value = to_le_bytes 4 (crc32 (record_body key value)) ++ record_body key value

  unfoldable pub parse_record : List ℕ → Result (List ℕ × List ℕ)
  parse_record buf = do
    (crc, r1) ← u32 (new buf)
    if not (crc32 (drop 4 buf) == crc) then err corrupt else (do
      (klen, r2) ← uvarint r1
      (vlen, r3) ← uvarint r2
      (key, r4) ← bytes r3 klen
      (value, r5) ← bytes r4 vlen
      if not (is_empty r5) then err corrupt else ok (key, value))

  unfoldable pub record_value_for : List ℕ → List ℕ → Result (List ℕ)
  unfolding parse_record
  record_value_for buf expect_key = do
    (key, value) ← parse_record buf
    if not (bytes_eq key expect_key) then err corrupt else ok value

  -- The loop of `parse_records`. A round that goes on takes four bytes at least, so the length of the
  -- buffer is enough fuel.
  unfoldable pub parse_loop : ℕ → List ℕ → ℕ → List ScannedRecord → List ScannedRecord × ℕ
  unfolding read_lengths
  parse_loop zero buf pos out = (out, pos)
  parse_loop (suc fuel) buf pos out =
      let rest = drop pos buf in
      let more = λ (header klen vlen : ℕ).
        let total = header + klen + vlen in
        parse_loop fuel buf (pos + total) (
          out
          ++ (record {
            offset = pos;
            record_len = total;
            key = take klen (drop header rest);
            value_len = vlen % 2 ^ 32;
          }
              ∷ [])) in
      if not (ltb pos (length buf)) then (out, pos) else elim (read_lengths rest) [
        | err e ↦ (out, pos)
        | ok ((crc, klen, vlen), header) ↦
            if not (fits (header + klen + vlen) (length rest))
            then (out, pos)
            else if not (crc32 (drop 4 (take (header + klen + vlen) rest)) == crc)
            then (out, pos)
            else more header klen vlen
      ]

  unfoldable pub parse_records : List ℕ → List ScannedRecord × ℕ
  unfolding parse_loop
  parse_records buf = parse_loop (length buf) buf 0 []
