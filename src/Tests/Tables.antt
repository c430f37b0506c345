-- ===== src/Tests/Tables.antt =====
-- Runs of crates/fluent31/src/table.
use fluent.Prelude.{
  ℕ, ◌%◌, ◌^◌, ◌==◌, ◌&&◌, ◌≡◌, refl, ap, sym, arith, Bool-cases, inl, inr, true, if◌then◌else◌,
  List, [], ◌∷◌, ◌++◌, length, All, Option, none, some,
}
use fluent.Result.{ok, err, corruption}
use fluent.Coding.{IsU32, to_le_bytes, from_le_bytes}
use fluent.Bloom.{hash64, build, may_contain}
use fluent.Bytes.{bytes_eq, from_be_bytes}
use fluent.Bytes.Order.{cmp_bytes-eq}
use fluent.Types.{delete, ikey_ukey, ikey_kind, ikey_trailer, from_u8}
use fluent.Table.{Footer, decode_footer, read_block_verified, lz4, decode_block, magic}
use fluent.Table.Builder.{TableBuilder, new_builder, write_block, add, add_kind}
use fluent.Table.FooterCodec.{IsFooter, known_format, footer_bytes, decode_footer_checked}
use fluent.Table.Framing.{open_codec, decode_block_lem, read-write_block}
use fluent.Table.Recorded.{start, more, Recorded, Added-Recorded, Added-may_contain}

abbrev footer : Footer
footer = record {
  filter = record { off = 100; len = 20 };
  index = record { off = 120; len = 30 };
  stats = record { off = 150; len = 60 };
  format = 2;
}

footer-IsFooter : IsFooter footer
footer-IsFooter = record {
  filter_fits = omega arith;
  index_fits = omega arith;
  stats_fits = omega arith;
  format_fits = omega arith;
}

decode_footer_checked_example :
    decode_footer (footer_bytes footer 77)
    ≡ (if 77 == magic && known_format 2 then ok footer else err corruption)
decode_footer_checked_example = decode_footer_checked footer 77 footer-IsFooter (omega arith)

abbrev checksum : List ℕ → ℕ
checksum bs = length bs % 2 ^ 32

checksum_fits : (bs : List ℕ) → IsU32 (checksum bs)
checksum_fits bs = omega arith

-- A codec that keeps a mark and the bytes, but for four equal ones.
abbrev times : ℕ → ℕ
times bits = 6

abbrev fives : List ℕ
fives = 5 ∷ 5 ∷ 5 ∷ 5 ∷ []

abbrev compress : List ℕ → List ℕ
compress bs = if bytes_eq bs fives then 1 ∷ [] else 0 ∷ bs

abbrev decompress : List ℕ → Option (List ℕ)
decompress [] = none
decompress (b ∷ bs) = if b == 0 then some bs else some fives

inverse : (bs : List ℕ) → decompress (compress bs) ≡ some bs
inverse bs = elim (Bool-cases (bytes_eq bs fives)) [
  | inl five ↦ rw five (ap some (sym (cmp_bytes-eq bs fives (ground (arith, five)))))
  | inr other ↦ rw other refl
]

decode_block_lem_example :
    decode_block checksum decompress ((5 ∷ 6 ∷ []) ++ (0 ∷ []) ++ to_le_bytes 4 9) ≡ (
      if checksum (5 ∷ 6 ∷ 0 ∷ []) == 9
      then open_codec decompress 0 (5 ∷ 6 ∷ [])
      else err corruption)
decode_block_lem_example = decode_block_lem checksum decompress (5 ∷ 6 ∷ []) 0 9 (omega arith)

abbrev builder : TableBuilder
builder = new_builder 4096 10 lz4

read-write_block_example :
    (read_block_verified checksum decompress
        ((write_block checksum compress builder (5 ∷ 5 ∷ 5 ∷ 5 ∷ []) lz4).1.file ++ (1 ∷ 2 ∷ []))
        (write_block checksum compress builder (5 ∷ 5 ∷ 5 ∷ 5 ∷ []) lz4).0
      ≡ ok (5 ∷ 5 ∷ 5 ∷ 5 ∷ []))
    × ((write_block checksum compress builder (5 ∷ 5 ∷ 5 ∷ 5 ∷ []) lz4).1.offset
        ≡ length (write_block checksum compress builder (5 ∷ 5 ∷ 5 ∷ 5 ∷ []) lz4).1.file)
read-write_block_example =
    read-write_block checksum compress decompress checksum_fits inverse builder (5 ∷ 5 ∷ 5 ∷ 5 ∷ [])
      lz4 (1 ∷ 2 ∷ []) (omega arith) refl

abbrev ikey : List ℕ
ikey = 107 ∷ 0 ∷ 0 ∷ 0 ∷ 0 ∷ 0 ∷ 0 ∷ 9 ∷ 0 ∷ []

abbrev with_one : TableBuilder
with_one = add_kind checksum compress builder ikey (0 ∷ 1 ∷ []) delete

adds : add checksum compress builder ikey (0 ∷ 1 ∷ []) ≡ ok with_one
unfolding add ikey_kind ikey_trailer from_u8 from_be_bytes from_le_bytes
adds = refl

Added-Recorded_example : Recorded ((ikey, 0 ∷ 1 ∷ []) ∷ []) with_one
Added-Recorded_example =
    Added-Recorded checksum compress 4096 10 lz4 ((ikey, 0 ∷ 1 ∷ []) ∷ []) with_one
      (more ikey (0 ∷ 1 ∷ []) start adds)

Added-may_contain_example :
    All
      (λ (e : List ℕ × List ℕ).
        may_contain
          (build times with_one.key_hashes with_one.bloom_bits_per_key)
          (hash64 (ikey_ukey e.0))
        ≡ true)
      ((ikey, 0 ∷ 1 ∷ []) ∷ [])
Added-may_contain_example =
    Added-may_contain checksum compress 4096 10 lz4 times ((ikey, 0 ∷ 1 ∷ []) ∷ []) with_one
      (more ikey (0 ∷ 1 ∷ []) start adds)
