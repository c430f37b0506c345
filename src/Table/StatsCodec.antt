-- ===== src/Table/StatsCodec.antt =====
-- crates/fluent31/src/table/mod.rs: the statistics decode to what was encoded.
use mathlib.Core.List.{append_assoc, append-nil}
use fluent.Prelude.{ℕ, ◌≤◌, ◌≡◌, refl, List, [], ◌++◌, length, le→ltb}
use fluent.Result.{ok}
use fluent.Coding.{new, IsU64, put_u64, to_le_bytes}
use fluent.Coding.Reads.{Reads, u64-Reads}
use fluent.Coding.Varint.{encoded, put_len_prefixed_append, len_prefixed-Reads}
use fluent.Types.{trailer_len}
use fluent.Table.{TableStats, encode_stats, read_stats, decode_stats}

-- Counters of 64 bits, and keys that carry their trailer.
pub record IsStats (s : TableStats) : Type 0 where
  pub entries_fit : IsU64 s.entries
  pub tombstones_fit : IsU64 s.tombstones
  pub min_fits : IsU64 s.min_seq
  pub max_fits : IsU64 s.max_seq
  pub first_fits : IsU64 (length s.first_ikey)
  pub last_fits : IsU64 (length s.last_ikey)
  pub first_trailer : trailer_len ≤ length s.first_ikey
  pub last_trailer : trailer_len ≤ length s.last_ikey

prefixed : List ℕ → List ℕ
prefixed xs = encoded (length xs) ++ xs

stats_bytes : TableStats → List ℕ
stats_bytes s =
    to_le_bytes 8 s.entries
    ++ (to_le_bytes 8 s.tombstones
        ++ (to_le_bytes 8 s.min_seq
            ++ (to_le_bytes 8 s.max_seq
                ++ (prefixed s.first_ikey ++ (prefixed s.last_ikey ++ [])))))

encode_stats_lem : (s : TableStats) → IsStats s → encode_stats s ≡ stats_bytes s
unfolding encode_stats stats_bytes prefixed put_u64
encode_stats_lem s h =
    rw
      (
        put_len_prefixed_append _ s.last_ikey h.last_fits,
        put_len_prefixed_append _ s.first_ikey h.first_fits,
      )
      (simp (append_assoc, append-nil))

read_stats-Reads : (s : TableStats) → IsStats s → Reads (read_stats (new (stats_bytes s))) s []
unfolding read_stats stats_bytes prefixed
read_stats-Reads s h =
    let (r1, e1, h1) = u64-Reads (new (stats_bytes s)) s.entries _ h.entries_fit refl in
    let (r2, e2, h2) = u64-Reads r1 s.tombstones _ h.tombstones_fit h1 in
    let (r3, e3, h3) = u64-Reads r2 s.min_seq _ h.min_fits h2 in
    let (r4, e4, h4) = u64-Reads r3 s.max_seq _ h.max_fits h3 in
    let (r5, e5, h5) = len_prefixed-Reads r4 s.first_ikey _ h.first_fits h4 in
    let (r6, e6, h6) = len_prefixed-Reads r5 s.last_ikey [] h.last_fits h5 in
    (
      r6,
      rw (
        e1,
        e2,
        e3,
        e4,
        e5,
        e6,
        le→ltb (length s.first_ikey) 8 h.first_trailer,
        le→ltb (length s.last_ikey) 8 h.last_trailer,
      ),
      h6,
    )

-- Statistics decode to what was encoded.
pub decode-encode_stats : (s : TableStats) → IsStats s → decode_stats (encode_stats s) ≡ ok s
unfolding decode_stats
decode-encode_stats s h = let (r, e, _) = read_stats-Reads s h in rw (encode_stats_lem s h, e) refl
