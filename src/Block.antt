-- ===== src/Block.antt =====
-- crates/fluent31/src/block.rs: the data block of a table, its builder, the search in it and its
-- cursor. `usize` is 64 bits wide, so the casts between it and u64 keep every value.
pub mod Built
pub mod Search
pub mod Cursor
use fluent.Prelude.{
  ℕ, zero, suc, ◌+◌, ◌-◌, ◌*◌, ◌/◌, ◌%◌, ◌^◌, ◌==◌, ltb, leb, if◌then◌else◌, Bool, true, false,
  ◌&&◌, List, [], ◌∷◌, ◌++◌, length, take, drop,
}
use fluent.Result.{Result, ok, err, corrupt, ◌>>=◌}
use fluent.Coding.{Reader, new, bytes, uvarint, put_u32, put_uvarint, from_le_bytes}
use fluent.Bytes.{is_lt, is_eq}
use fluent.Types.{cmp_ikey, trailer_len}

pub record BlockBuilder : Type 0 where
  pub buf : List ℕ
  pub offsets : List ℕ

abbrev pub empty_builder : BlockBuilder
empty_builder = record { buf = []; offsets = [] }

unfoldable pub add : BlockBuilder → List ℕ → List ℕ → BlockBuilder
add b ikey repr = record b {
  offsets = b.offsets ++ (length b.buf % 2 ^ 32 ∷ []);
  buf = (put_uvarint (put_uvarint b.buf (length ikey)) (length repr) ++ ikey) ++ repr;
}

abbrev pub is_empty : BlockBuilder → Bool
is_empty b = length b.offsets == 0

abbrev pub size_estimate : BlockBuilder → ℕ
size_estimate b = length b.buf + length b.offsets * 4 + 4

unfoldable pub put_offsets : List ℕ → List ℕ → List ℕ
put_offsets out [] = out
put_offsets out (off ∷ offsets) = put_offsets (put_u32 out off) offsets

-- The payload, and the builder that `finish` leaves.
unfoldable pub finish : BlockBuilder → List ℕ × BlockBuilder
unfolding put_offsets
finish b = (put_u32 (put_offsets b.buf b.offsets) (length b.offsets % 2 ^ 32), empty_builder)

pub record Block : Type 0 where
  pub data_bytes : List ℕ
  pub entries_end : ℕ
  pub count : ℕ

-- `Block::new`; the checked arithmetic cannot overflow 64 bits, since the count has 32.
unfoldable pub parse : List ℕ → Result Block
parse payload =
    let count = from_le_bytes (drop (length payload - 4) payload) in
    let array_len = count * 4 + 4 in
    if ltb (length payload) 4
    then err corrupt
    else if ltb (length payload) array_len
    then err corrupt
    else ok
        (record { data_bytes = payload; entries_end = length payload - array_len; count = count })

unfoldable pub entry_off : Block → ℕ → ℕ
entry_off b i = from_le_bytes (take 4 (drop (b.entries_end + i * 4) b.data_bytes))

unfoldable pub read_entry : Reader → Result ((List ℕ × List ℕ) × Reader)
read_entry r = do
  (iklen, r1) ← uvarint r
  (rlen, r2) ← uvarint r1
  if ltb iklen trailer_len
      then err corrupt
      else do (ikey, r3) ← bytes r2 iklen; (repr, r4) ← bytes r3 rlen; ok ((ikey, repr), r4)

unfoldable pub entry : Block → ℕ → Result (List ℕ × List ℕ)
entry b i =
    let off = entry_off b i in
    if leb b.entries_end off
    then err corrupt
    else do (e, r) ← read_entry (new (take (b.entries_end - off) (drop off b.data_bytes))); ok e

-- The loop of `lower_bound`. Each round shrinks `hi - lo`, which bounds the rounds; at 0 the test fails.
unfoldable pub lower_bound_loop : ℕ → Block → List ℕ → ℕ → ℕ → Result ℕ
lower_bound_loop zero b target lo hi = ok lo
lower_bound_loop (suc rounds) b target lo hi =
    let mid = (lo + hi) / 2 in
    let right = lower_bound_loop rounds b target (mid + 1) hi in
    let left = lower_bound_loop rounds b target lo mid in
    if ltb lo hi
    then (do (k, _) ← entry b mid; if is_lt (cmp_ikey k target) then right else left)
    else ok lo

unfoldable pub lower_bound : Block → List ℕ → Result ℕ
lower_bound b target = lower_bound_loop b.count b target 0 b.count

-- The cursor: an index, where `count` means invalid.
pub record BlockIter : Type 0 where
  pub block : Block
  pub pos : ℕ

abbrev pub block_iter : Block → BlockIter
block_iter b = record { block = b; pos = b.count }

unfoldable pub seek_to_first : BlockIter → BlockIter
seek_to_first it = record it { pos = 0 }

unfoldable pub seek_to_last : BlockIter → BlockIter
seek_to_last it = record it { pos = if it.block.count == 0 then 0 else it.block.count - 1 }

unfoldable pub seek : BlockIter → List ℕ → Result BlockIter
seek it ikey = do pos ← lower_bound it.block ikey; ok (record it { pos = pos })

-- Where the lower bound does not hold `ikey` itself.
abbrev pub step_back : BlockIter → ℕ → BlockIter
step_back it lb = record it { pos = if lb == 0 then it.block.count else lb - 1 }

unfoldable pub seek_for_prev : BlockIter → List ℕ → Result BlockIter
seek_for_prev it ikey = do
  lb ← lower_bound it.block ikey
  if ltb lb it.block.count
      then (do
        (k, _) ← entry it.block lb
        if is_eq (cmp_ikey k ikey) then ok (record it { pos = lb }) else ok (step_back it lb))
      else ok (step_back it lb)

unfoldable pub valid : BlockIter → Bool
valid it = ltb it.pos it.block.count

unfoldable pub next : BlockIter → BlockIter
next it = record it { pos = it.pos + 1 }

unfoldable pub prev : BlockIter → BlockIter
prev it = record it { pos = if it.pos == 0 then it.block.count else it.pos - 1 }
