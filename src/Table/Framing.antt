-- ===== src/Table/Framing.antt =====
-- crates/fluent31/src/table: a block that the builder wrote is read back, and a block whose checksum is
-- another is refused.
use mathlib.Core.List.{append_assoc}
use native.Mathlib.Nat.{mod-eq_of_lt}
use fluent.Prelude.{
  ℕ, ◌+◌, ◌-◌, ◌%◌, ◌^◌, ◌≤◌, ◌<◌, ◌≡◌, inl, inr, refl, ap, ◌∙◌, arith, List, [], ◌∷◌, ◌++◌, length,
  take, get_or, Bool, true, false, ltb, ◌==◌, not, if◌then◌else◌, length-append, take_append,
  drop_append, Bool-cases, Option, none, some, le→ltb,
}
use fluent.Result.{Result, ok, err, corrupt}
use fluent.Coding.{IsU32, to_le_bytes}
use fluent.Coding.Reads.{length-to_le_bytes, from_le-to_le_bytes}
use fluent.Table.{
  Compression, uncompressed, lz4, codec_none, codec_lz4, read_exact_at, decode_block,
  read_block_verified, block_trailer_len,
}
use fluent.Table.Builder.{TableBuilder, choose_codec, frame, write_block}

get_or-append : (xs ys : List ℕ) (y d : ℕ) → get_or (xs ++ (y ∷ ys)) (length xs) d ≡ y
get_or-append [] ys y d = refl
get_or-append (x ∷ xs) ys y d = get_or-append xs ys y d

abbrev pub open_codec : (List ℕ → Option (List ℕ)) → ℕ → List ℕ → Result (List ℕ)
open_codec decompress codec stored =
    if codec == codec_none
    then ok stored
    else if codec == codec_lz4
    then elim (decompress stored) [ none ↦ err corrupt | some payload ↦ ok payload ]
    else err corrupt

module _ (crc32 : List ℕ → ℕ) (decompress : List ℕ → Option (List ℕ)) where
  -- What the stored bytes, a codec byte and a checksum decode to.
  pub decode_block_lem :
      (stored : List ℕ) (codec word : ℕ)
      → IsU32 word
      → decode_block crc32 decompress ((stored ++ (codec ∷ [])) ++ to_le_bytes 4 word) ≡ (
          if crc32 (stored ++ (codec ∷ [])) == word
          then open_codec decompress codec stored
          else err corrupt)
  unfolding decode_block
  decode_block_lem stored codec word hw =
      rw
        (
          payload_end,
          take_append coded (to_le_bytes 4 word),
          drop_append coded (to_le_bytes 4 word),
          from_le-to_le_bytes 4 word (omega arith),
          before_codec,
          codec_byte,
          stored_bytes,
        )
        (flip_not (crc32 coded == word))
    where
      coded : List ℕ
      coded = stored ++ (codec ∷ [])

      buf : List ℕ
      buf = coded ++ to_le_bytes 4 word

      len : length coded ≡ length stored + 1
      len = length-append stored (codec ∷ [])

      payload_end : length buf - 4 ≡ length coded
      payload_end =
          omega (arith, length-append coded (to_le_bytes 4 word), length-to_le_bytes 4 word)

      before_codec : length coded - 1 ≡ length stored
      before_codec = omega (arith, len)

      whole : buf ≡ stored ++ (codec ∷ to_le_bytes 4 word)
      whole = append_assoc stored (codec ∷ []) (to_le_bytes 4 word)

      codec_byte : get_or buf (length stored) 0 ≡ codec
      codec_byte =
          ap (λ (l : List ℕ). get_or l (length stored) 0) whole
          ∙ get_or-append stored (to_le_bytes 4 word) codec 0

      stored_bytes : take (length stored) buf ≡ stored
      stored_bytes =
          ap (take (length stored)) whole ∙ take_append stored (codec ∷ to_le_bytes 4 word)

      flip_not :
          (b : Bool)
          → (if not b then err corrupt else open_codec decompress codec stored)
            ≡ (if b then open_codec decompress codec stored else err corrupt)
      flip_not true = refl
      flip_not false = refl

module _ (crc32 : List ℕ → ℕ) (compress : List ℕ → List ℕ) (decompress : List ℕ → Option (List ℕ))
    (crc_fits : (bs : List ℕ) → IsU32 (crc32 bs))
    (inverse : (bs : List ℕ) → decompress (compress bs) ≡ some bs) where
  choose_codec-opens :
      (payload : List ℕ) (c : Compression)
      → let chosen = choose_codec crc32 compress payload c in
        (open_codec decompress chosen.0 chosen.1 ≡ ok payload) × (length chosen.1 ≤ length payload)
  unfolding choose_codec
  choose_codec-opens payload uncompressed = (refl, omega arith)
  choose_codec-opens payload lz4 =
      elim (Bool-cases (ltb (length (compress payload)) (length payload))) [
        | inl shorter ↦ rw (shorter, inverse payload) (refl, ground (arith, shorter))
        | inr longer ↦ rw longer (refl, omega arith)
      ]

  length-frame : (chosen : ℕ × List ℕ) → length (frame crc32 compress chosen) ≡ length chosen.1 + 5
  unfolding frame
  length-frame (codec, stored) =
      let coded = stored ++ (codec ∷ []) in
      omega (
        arith,
        length-append coded (to_le_bytes 4 (crc32 coded)),
        length-append stored (codec ∷ []),
        length-to_le_bytes 4 (crc32 coded),
      )

  frame-opens :
      (chosen : ℕ × List ℕ)
      → decode_block crc32 decompress (frame crc32 compress chosen)
        ≡ open_codec decompress chosen.0 chosen.1
  unfolding frame
  frame-opens (codec, stored) =
      let coded = stored ++ (codec ∷ []) in
      rw (decode_block_lem crc32 decompress stored codec (crc32 coded) (crc_fits coded))
        (ground arith)

  read_back :
      (file buf more : List ℕ)
      → read_exact_at ((file ++ buf) ++ more) (length file) (length buf) ≡ ok buf
  unfolding read_exact_at
  read_back file buf more =
      rw (within, append_assoc file buf more, drop_append file (buf ++ more), take_append buf more)
        refl
    where
      within : ltb (length ((file ++ buf) ++ more)) (length file + length buf) ≡ false
      within = le→ltb _ _ (omega (arith, length-append (file ++ buf) more, length-append file buf))

  -- A block that the builder wrote reads back as its payload from any later state of the file,
  -- compressed or not, and the offset stays the size of the file.
  pub read-write_block :
      (t : TableBuilder) (payload : List ℕ) (c : Compression) (more : List ℕ)
      → length payload + block_trailer_len < 2 ^ 32
      → t.offset ≡ length t.file
      → let w = write_block crc32 compress t payload c in
        (read_block_verified crc32 decompress ((w.1).file ++ more) w.0 ≡ ok payload)
        × ((w.1).offset ≡ length (w.1).file)
  unfolding read_block_verified write_block
  read-write_block t payload c more small at_end =
      let (opens, shorter) = choose_codec-opens payload c in
      let buf = frame crc32 compress (choose_codec crc32 compress payload c) in
      let len : length buf ≡ length (choose_codec crc32 compress payload c).1 + 5 =
        length-frame (choose_codec crc32 compress payload c) in
      let fits : length buf % 2 ^ 32 ≡ length buf = mod-eq_of_lt (omega (arith, len, shorter)) in
      (
        rw
            (
              fits,
              le→ltb (length buf) 5 (omega (arith, len)),
              read_back t.file buf more,
              frame-opens (choose_codec crc32 compress payload c),
              opens,
            )
            refl,
        omega (arith, length-append t.file buf),
      )
