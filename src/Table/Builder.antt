-- ===== src/Table/Builder.antt =====
-- crates/fluent31/src/table/builder.rs: the streaming writer of a table.
use fluent.Prelude.{
  ℕ, ◌+◌, ◌-◌, ◌%◌, ◌^◌, ◌==◌, ltb, leb, min, max, if◌then◌else◌, Bool, true, false, ◌||◌, not,
  List, [], ◌∷◌, ◌++◌, length,
}
use fluent.Result.{Result, ok, ◌>>=◌}
use fluent.Coding.{to_le_bytes, put_len_prefixed, put_uvarint}
use fluent.Bytes.{bytes_eq}
use fluent.Types.{ValueKind, put, delete, ikey_kind, ikey_seqno, ikey_ukey}
use fluent.Bloom.{hash64}
use fluent.Bloom as Bloom
use fluent.Block.{BlockBuilder, empty_builder, size_estimate}
use fluent.Block as Block
use fluent.Table.{
  BlockRef, Footer, TableStats, Compression, uncompressed, lz4, codec_none, codec_lz4, format_raw,
  format_compressed, encode_footer, encode_stats, footer_len,
}

pub record TableBuilder : Type 0 where
  pub file : List ℕ
  pub block_size : ℕ
  pub bloom_bits_per_key : ℕ
  pub compression : Compression
  pub block : BlockBuilder
  pub index : List (List ℕ × BlockRef)
  pub offset : ℕ
  pub wrote_compressed : Bool
  pub key_hashes : List ℕ
  pub last_hashed_ukey : List ℕ
  pub stats : TableStats
  pub started : Bool

-- `TableBuilder::new`, on an empty file.
abbrev pub new_builder : ℕ → ℕ → Compression → TableBuilder
new_builder block_size bloom_bits_per_key compression = record {
  file = [];
  block_size = block_size;
  bloom_bits_per_key = bloom_bits_per_key;
  compression = compression;
  block = empty_builder;
  index = [];
  offset = 0;
  wrote_compressed = false;
  key_hashes = [];
  last_hashed_ukey = [];
  stats = record {
    entries = 0;
    tombstones = 0;
    min_seq = 2 ^ 64 - 1;
    max_seq = 0;
    first_ikey = [];
    last_ikey = [];
  };
  started = false;
}

unfoldable pub estimated_size : TableBuilder → ℕ
estimated_size t = t.offset + size_estimate t.block

unfoldable pub last_ukey : TableBuilder → List ℕ
last_ukey t = if t.started then ikey_ukey t.stats.last_ikey else []

abbrev pub is_delete : ValueKind → Bool
is_delete put = false
is_delete delete = true

-- The statistics after an entry.
unfoldable pub count_entry : Bool → TableStats → List ℕ → ValueKind → TableStats
count_entry started s ikey kind = record {
  entries = s.entries + 1;
  tombstones = if is_delete kind then s.tombstones + 1 else s.tombstones;
  min_seq = min s.min_seq (ikey_seqno ikey);
  max_seq = max s.max_seq (ikey_seqno ikey);
  first_ikey = if started then s.first_ikey else ikey;
  last_ikey = ikey;
}

-- The key's hash, once for each run of equal user keys.
unfoldable pub note_key : TableBuilder → List ℕ → TableBuilder
note_key t ukey =
    if length t.key_hashes == 0 || not (bytes_eq t.last_hashed_ukey ukey)
    then record t { key_hashes = t.key_hashes ++ (hash64 ukey ∷ []); last_hashed_ukey = ukey }
    else t

module _ (crc32 : List ℕ → ℕ) (compress_prepend_size : List ℕ → List ℕ) where
  -- The codec byte, and the bytes that are stored.
  unfoldable pub choose_codec : List ℕ → Compression → ℕ × List ℕ
  choose_codec payload uncompressed = (codec_none, payload)
  choose_codec payload lz4 =
      let compressed = compress_prepend_size payload in
      if ltb (length compressed) (length payload)
      then (codec_lz4, compressed)
      else (codec_none, payload)

  -- The stored bytes, the codec byte and the checksum of both.
  unfoldable pub frame : ℕ × List ℕ → List ℕ
  frame (codec, stored) = (stored ++ (codec ∷ [])) ++ to_le_bytes 4 (crc32 (stored ++ (codec ∷ [])))

  unfoldable pub write_block : TableBuilder → List ℕ → Compression → BlockRef × TableBuilder
  unfolding choose_codec frame
  write_block t payload compression =
      let chosen = choose_codec payload compression in
      let buf = frame chosen in
      (
        record { off = length t.file; len = length buf % 2 ^ 32 },
        record t {
          file = t.file ++ buf;
          offset = t.offset + length buf;
          wrote_compressed = t.wrote_compressed || not (chosen.0 == codec_none);
        },
      )

  unfoldable pub flush_block : TableBuilder → TableBuilder
  flush_block t =
      let (payload, empty) = Block.finish t.block in
      let (r, t') = write_block (record t { block = empty }) payload t.compression in
      if Block.is_empty t.block
      then t
      else record t' { index = t'.index ++ ((t.stats.last_ikey, r) ∷ []) }

  -- `add` once the kind is known.
  unfoldable pub add_kind : TableBuilder → List ℕ → List ℕ → ValueKind → TableBuilder
  unfolding note_key
  add_kind t ikey repr kind =
      let counted = record t { stats = count_entry t.started t.stats ikey kind; started = true } in
      let noted = note_key counted (ikey_ukey ikey) in
      let filled = record noted { block = Block.add noted.block ikey repr } in
      if leb filled.block_size (size_estimate filled.block) then flush_block filled else filled

  -- The code counts the entry before it reads the kind; its callers drop a builder on an error.
  unfoldable pub add : TableBuilder → List ℕ → List ℕ → Result TableBuilder
  unfolding add_kind
  add t ikey repr = do kind ← ikey_kind ikey; ok (add_kind t ikey repr kind)

  unfoldable pub put_index : List ℕ → List (List ℕ × BlockRef) → List ℕ
  put_index out [] = out
  put_index out ((last_ikey, r) ∷ index) =
      put_index (put_uvarint (put_uvarint (put_len_prefixed out last_ikey) r.off) r.len) index

  -- `finish`, which consumes the builder: the statistics, the file's size, and the file. `bloom::build`
  -- takes the parameter that `Bloom` has.
  unfoldable pub finish : (ℕ → ℕ) → TableBuilder → (TableStats × ℕ) × List ℕ
  unfolding put_index
  finish times_0_69 t =
      let t1 = flush_block t in
      let filter = Bloom.build times_0_69 t1.key_hashes t1.bloom_bits_per_key in
      let (filter_ref, t2) = write_block t1 filter uncompressed in
      let (index_ref, t3) = write_block t2 (put_index [] t2.index) t2.compression in
      let (stats_ref, t4) = write_block t3 (encode_stats t3.stats) uncompressed in
      let footer : Footer = record {
        filter = filter_ref;
        index = index_ref;
        stats = stats_ref;
        format = if t4.wrote_compressed then format_compressed else format_raw;
      } in
      ((t4.stats, t4.offset + footer_len), t4.file ++ encode_footer footer)
