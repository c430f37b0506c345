-- ===== src/Vlog/Scans.antt =====
-- crates/fluent31/src/vlog.rs: what a scan finds in a file of records that may end in a torn one.
use mathlib.Core.List.{append_assoc, append-nil}
use fluent.Prelude.{
  ℕ, zero, suc, ◌+◌, ◌-◌, ◌≤◌, List, [], ◌∷◌, ◌++◌, length, drop, drop_append, length-append,
  drop-drop, All, ◌≡◌, refl, ap, sym, subst, ◌∙◌, inl, inr, arith,
}
use fluent.Result.{Result-cases, ok, ◌>>=◌}
use fluent.Coding.{new, IsU32, u32, uvarint, remaining}
use fluent.Coding.Stable.{Op, Stable, Stable-bind, ok-Stable, u32-Stable, uvarint-Stable}
use fluent.Vlog.{ScannedRecord, read_lengths, encode_record, parse_loop, parse_records}
use fluent.Vlog.Records.{
  IsRecord, length-record, length-encode_record, read_lengths-record, parse_loop_record, scanned_at,
}

-- `read_lengths` as a reader.
lengths : Op (ℕ × ℕ × ℕ)
lengths r = do
  (crc, r1) ← u32 r
  (klen, r2) ← uvarint r1
  (vlen, r3) ← uvarint r2
  ok ((crc, klen, vlen), r3)

lengths-Stable : Stable lengths
unfolding lengths
lengths-Stable = Stable-bind u32 _ u32-Stable λ crc.
    Stable-bind uvarint _ uvarint-Stable
      λ klen. Stable-bind uvarint _ uvarint-Stable λ vlen. ok-Stable (crc, klen, vlen)

read_lengths-lengths :
    (buf : List ℕ)
    → read_lengths buf ≡ (lengths (new buf) >>= λ x. ok (x.0, length buf - remaining x.1))
unfolding read_lengths lengths
read_lengths-lengths buf = ground arith

-- What is read in a part is read in the whole.
read_lengths-extend :
    (front more : List ℕ) (x : (ℕ × ℕ × ℕ) × ℕ)
    → read_lengths front ≡ ok x
    → read_lengths (front ++ more) ≡ ok x
read_lengths-extend front more x e = elim (Result-cases (lengths (new front))) [
  | inl ((v, r), e1) ↦
      let (p, b, l, h) = lengths-Stable.extends (new front) r v more (omega arith) e1 in
      ground (
        arith,
        e,
        e1,
        p,
        read_lengths-lengths front,
        read_lengths-lengths (front ++ more),
        length-append front more,
        ap {B = ℕ} length b,
        length-append r.buf more,
        h,
      )
  | inr (y, e1) ↦ ground (arith, e, e1, read_lengths-lengths front)
]

module _ (crc32 : List ℕ → ℕ) (is_u32 : (bs : List ℕ) → IsU32 (crc32 bs)) where
  abbrev pub Pairs : Type 0
  Pairs = List (List ℕ × List ℕ)

  -- The file that the appends of some keys and values leave.
  abbrev pub file_of : Pairs → List ℕ
  file_of [] = []
  file_of ((key, value) ∷ pairs) = encode_record crc32 key value ++ file_of pairs

  abbrev pub scanned_from : ℕ → Pairs → List ScannedRecord
  scanned_from pos [] = []
  scanned_from pos ((key, value) ∷ pairs) =
      scanned_at crc32 is_u32 pos (length (encode_record crc32 key value)) key value
      ∷ scanned_from (pos + length (encode_record crc32 key value)) pairs

  abbrev pub AreRecords : Pairs → Type 0
  AreRecords = All (λ p. IsRecord crc32 is_u32 p.0 p.1)

  -- A part of a record that lacks its end.
  pub record IsTorn (front : List ℕ) : Type 0 where
    pub key : List ℕ
    pub value : List ℕ
    pub byte : ℕ
    pub more : List ℕ
    pub is_record : IsRecord crc32 is_u32 key value
    pub split : front ++ byte ∷ more ≡ encode_record crc32 key value

  -- The loop stops there.
  parse_loop_torn :
      (fuel : ℕ) (buf : List ℕ) (pos : ℕ) (out : List ScannedRecord)
      → IsTorn (drop pos buf)
      → parse_loop crc32 fuel buf pos out ≡ (out, pos)
  unfolding parse_loop
  parse_loop_torn zero buf pos out torn = refl
  parse_loop_torn (suc fuel) buf pos out torn = elim (Result-cases (read_lengths (drop pos buf))) [
    | inl (x, e) ↦
        let whole = read_lengths-extend (drop pos buf) (torn.byte ∷ torn.more) x e in
        let same =
          read_lengths-record crc32 is_u32 (drop pos buf ++ torn.byte ∷ torn.more) torn.key
            torn.value [] torn.is_record.key_fits torn.is_record.value_fits
            (torn.split ∙ sym (append-nil (encode_record crc32 torn.key torn.value))) in
        ground (
          arith,
          e,
          whole,
          same,
          ap {B = ℕ} length torn.split,
          length-append (drop pos buf) (torn.byte ∷ torn.more),
          length-record crc32 is_u32 torn.key torn.value torn.is_record.key_fits
              torn.is_record.value_fits,
        )
    | inr (y, e) ↦ ground (arith, e)
  ]

  parse_loop_records :
      (pairs : Pairs) (fuel : ℕ) (buf : List ℕ) (pos : ℕ) (out : List ScannedRecord) (tail : List ℕ)
      → length pairs ≤ fuel
      → AreRecords pairs
      → IsTorn tail
      → drop pos buf ≡ file_of pairs ++ tail
      → parse_loop crc32 fuel buf pos out
        ≡ (out ++ scanned_from pos pairs, pos + length (file_of pairs))
  parse_loop_records [] fuel buf pos out tail enough all torn laid =
      parse_loop_torn fuel buf pos out (subst IsTorn (sym laid) torn)
      ∙ ground (arith, append-nil out)
  parse_loop_records ((key, value) ∷ pairs) zero buf pos out tail enough all torn laid =
      absurd (omega arith)
  parse_loop_records ((key, value) ∷ pairs) (suc fuel) buf pos out tail enough (one, all) torn
        laid =
      let enc = encode_record crc32 key value in
      let laid' : drop pos buf ≡ enc ++ (file_of pairs ++ tail) =
        laid ∙ append_assoc enc (file_of pairs) tail in
      let found = scanned_at crc32 is_u32 pos (length enc) key value in
      let step : parse_loop crc32 (suc fuel) buf pos out
          ≡ parse_loop crc32 fuel buf (pos + length enc) (out ++ found ∷ []) =
        subst
          (λ n.
            parse_loop crc32 (suc fuel) buf pos out
            ≡ parse_loop crc32 fuel buf (pos + n)
                (out ++ scanned_at crc32 is_u32 pos n key value ∷ []))
          (sym (length-record crc32 is_u32 key value one.key_fits one.value_fits))
          (parse_loop_record crc32 is_u32 buf pos key value (file_of pairs ++ tail) one laid' fuel
            out) in
      let behind : drop (pos + length enc) buf ≡ file_of pairs ++ tail =
        drop-drop pos (length enc) buf
        ∙ ap (drop (length enc)) laid'
        ∙ drop_append enc (file_of pairs ++ tail) in
      let rest =
        parse_loop_records pairs fuel buf (pos + length enc) (out ++ found ∷ []) tail (omega arith)
          all torn behind in
      step
      ∙ rest
      ∙ ground (
        arith,
        append_assoc out (found ∷ []) (scanned_from (pos + length enc) pairs),
        length-append enc (file_of pairs),
      )

  length-file : (pairs : Pairs) → length pairs ≤ length (file_of pairs)
  length-file [] = omega arith
  length-file ((key, value) ∷ pairs) = omega (
    arith,
    length-file pairs,
    length-append (encode_record crc32 key value) (file_of pairs),
    length-encode_record crc32 is_u32 key value,
  )

  -- A scan of a value-log file in which whole records stand before a part of one more, none of
  -- them beyond the limits of the append, finds exactly the whole ones, with their offsets,
  -- lengths and keys, and the end of the last.
  pub parse_records-file :
      (pairs : Pairs) (tail : List ℕ)
      → AreRecords pairs
      → IsTorn tail
      → parse_records crc32 (file_of pairs ++ tail) ≡ (scanned_from 0 pairs, length (file_of pairs))
  unfolding parse_records
  parse_records-file pairs tail all torn =
      parse_loop_records pairs (length (file_of pairs ++ tail)) (file_of pairs ++ tail) 0 [] tail
        (omega (arith, length-file pairs, length-append (file_of pairs) tail)) all torn refl
      ∙ ground arith
