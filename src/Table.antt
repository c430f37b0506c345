-- ===== src/Table.antt =====
-- crates/fluent31/src/table/mod.rs: the footer, the statistics and the checked read of the blocks of a
-- table file. crc32fast and lz4_flex are parameters; a file is the list of its bytes, and
-- an input or output operation fails only where the file is too short.
pub mod FooterCodec
pub mod StatsCodec
pub mod Builder
pub mod Recorded
pub mod Framing
use fluent.Prelude.{
  ℕ, ◌+◌, ◌-◌, ◌%◌, ◌^◌, ◌==◌, ltb, leb, if◌then◌else◌, Bool, true, false, ◌&&◌, ◌||◌, not, List,
  [], ◌∷◌, ◌++◌, length, take, drop, get_or, Option, none, some,
}
use fluent.Result.{Result, ok, err, corrupt, io, ◌>>=◌}
use fluent.Coding.{
  Reader, new, u32, u64, len_prefixed, put_u64, put_len_prefixed, to_le_bytes, from_le_bytes,
}
use fluent.Types.{trailer_len, ikey_ukey}

abbrev pub magic : ℕ
magic = 0xf115e731ab1e0001

abbrev pub format_raw : ℕ
format_raw = 1

abbrev pub format_compressed : ℕ
format_compressed = 2

abbrev pub footer_len : ℕ
footer_len = 48

abbrev pub block_trailer_len : ℕ
block_trailer_len = 5

abbrev pub codec_none : ℕ
codec_none = 0

abbrev pub codec_lz4 : ℕ
codec_lz4 = 1

pub record BlockRef : Type 0 where
  pub off : ℕ
  pub len : ℕ

pub record Footer : Type 0 where
  pub filter : BlockRef
  pub index : BlockRef
  pub stats : BlockRef
  pub format : ℕ

unfoldable pub encode_footer : Footer → List ℕ
encode_footer f =
    (((((((to_le_bytes 8 f.filter.off ++ to_le_bytes 4 f.filter.len) ++ to_le_bytes 8 f.index.off)
              ++ to_le_bytes 4 f.index.len)
            ++ to_le_bytes 8 f.stats.off)
          ++ to_le_bytes 4 f.stats.len)
        ++ to_le_bytes 4 f.format)
      ++ to_le_bytes 8 magic)

unfoldable pub read_ref : Reader → Result (BlockRef × Reader)
read_ref r = do (off, r1) ← u64 r; (len, r2) ← u32 r1; ok (record { off = off; len = len }, r2)

-- `Footer::decode`, with the reader that it leaves.
unfoldable pub read_footer : Reader → Result (Footer × Reader)
unfolding read_ref
read_footer r = do
  (filter, r1) ← read_ref r
  (index, r2) ← read_ref r1
  (stats, r3) ← read_ref r2
  (format, r4) ← u32 r3
  (found, r5) ← u64 r4
  if not (found == magic)
      then err corrupt
      else if not (leb format_raw format && leb format format_compressed)
      then err corrupt
      else ok (record { filter = filter; index = index; stats = stats; format = format }, r5)

unfoldable pub decode_footer : List ℕ → Result Footer
unfolding read_footer
decode_footer buf = do (f, r) ← read_footer (new buf); ok f

pub record TableStats : Type 0 where
  pub entries : ℕ
  pub tombstones : ℕ
  pub min_seq : ℕ
  pub max_seq : ℕ
  pub first_ikey : List ℕ
  pub last_ikey : List ℕ

unfoldable pub encode_stats : TableStats → List ℕ
encode_stats s =
    put_len_prefixed
      (put_len_prefixed
        (put_u64 (put_u64 (put_u64 (put_u64 [] s.entries) s.tombstones) s.min_seq) s.max_seq)
        s.first_ikey)
      s.last_ikey

-- `TableStats::decode`, with the reader that it leaves.
unfoldable pub read_stats : Reader → Result (TableStats × Reader)
read_stats r = do
  (entries, r1) ← u64 r
  (tombstones, r2) ← u64 r1
  (min_seq, r3) ← u64 r2
  (max_seq, r4) ← u64 r3
  (first_ikey, r5) ← len_prefixed r4
  (last_ikey, r6) ← len_prefixed r5
  if ltb (length first_ikey) trailer_len || ltb (length last_ikey) trailer_len
      then err corrupt
      else ok (
        record {
          entries = entries;
          tombstones = tombstones;
          min_seq = min_seq;
          max_seq = max_seq;
          first_ikey = first_ikey;
          last_ikey = last_ikey;
        },
        r6,
      )

unfoldable pub decode_stats : List ℕ → Result TableStats
unfolding read_stats
decode_stats buf = do (s, r) ← read_stats (new buf); ok s

unfoldable pub min_ukey : TableStats → List ℕ
min_ukey s = ikey_ukey s.first_ikey

unfoldable pub max_ukey : TableStats → List ℕ
max_ukey s = ikey_ukey s.last_ikey

pub data Compression : Type 0 where
  uncompressed lz4 : Compression

-- `read_exact_at` on a file with these bytes.
unfoldable pub read_exact_at : List ℕ → ℕ → ℕ → Result (List ℕ)
read_exact_at file off len =
    if ltb (length file) (off + len) then err io else ok (take len (drop off file))

module _ (crc32 : List ℕ → ℕ) (decompress_size_prepended : List ℕ → Option (List ℕ)) where
  unfoldable pub decode_block : List ℕ → Result (List ℕ)
  decode_block buf =
      let payload_end = length buf - 4 in
      let codec = get_or buf (payload_end - 1) 0 in
      let stored = take (payload_end - 1) buf in
      if not (crc32 (take payload_end buf) == from_le_bytes (drop payload_end buf))
      then err corrupt
      else if codec == codec_none
      then ok stored
      else if codec == codec_lz4
      then elim (decompress_size_prepended stored) [
        | none ↦ err corrupt
        | some payload ↦ ok payload
      ]
      else err corrupt

  unfoldable pub read_block_verified : List ℕ → BlockRef → Result (List ℕ)
  unfolding read_exact_at decode_block
  read_block_verified file r =
      if ltb r.len block_trailer_len
      then err corrupt
      else read_exact_at file r.off r.len >>= decode_block
