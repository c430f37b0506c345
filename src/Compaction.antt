-- ===== src/Compaction.antt =====
-- crates/fluent31/src/compaction.rs: a rewrite job in slices, and its installation. The cursor over the
-- inputs is any cursor of internal keys (the code's is `Iter.merge`); a finished table stands as its id
-- with what `finish` returns and the file, which the code opens again.
pub mod Rule
pub mod Emits
pub mod Takes
pub mod Slices
pub mod Safe
pub mod Install
use fluent.Prelude.{
  ℕ, zero, suc, ◌+◌, ◌-◌, ◌^◌, ◌==◌, ltb, leb, min, max, if◌then◌else◌, Bool, true, false, ◌&&◌,
  ◌||◌, not, List, [], ◌∷◌, ◌++◌, length, Option, none, some,
}
use fluent.Result.{Result, ok, err, ◌>>=◌}
use fluent.Bytes.{bytes_eq}
use fluent.Types.{
  ValueKind, put, delete, ReprRef, inline, ptr, decode_repr, ikey_ukey, ikey_seqno, ikey_kind,
}
use fluent.Iter.{InternalIterator}
use fluent.Table.{TableStats, Compression}
use fluent.Table.Builder.{
  TableBuilder, new_builder, estimated_size, last_ukey, is_delete, add, finish,
}
use fluent.Version.{Run, run_may_contain}

-- `Job::older_may_contain` over the runs behind the output.
unfoldable pub older_may_contain : List Run → List ℕ → Result Bool
older_may_contain [] ukey = ok false
older_may_contain (r ∷ rs) ukey = do
  let rest = older_may_contain rs ukey
  may ← run_may_contain r ukey
  if may then ok true else rest

-- The options that a job reads.
pub record Options : Type 0 where
  pub compaction_slice_bytes : ℕ
  pub target_file_size : ℕ
  pub block_size : ℕ
  pub bloom_bits_per_key : ℕ
  pub compression : Compression

abbrev pub Finished : Type 0
Finished = ℕ × ((TableStats × ℕ) × List ℕ)

-- `*discard.entry(file).or_insert(0) += len`
unfoldable pub add_discard : ℕ → ℕ → List (ℕ × ℕ) → List (ℕ × ℕ)
add_discard file len [] = (file, len) ∷ []
add_discard file len ((f, b) ∷ m) =
    let later = add_discard file len m in if f == file then (f, b + len) ∷ m else (f, b) ∷ later

abbrev pub saturating_add : ℕ → ℕ → ℕ
saturating_add a b = min (a + b) (2 ^ 64 - 1)

module _ (crc32 : List ℕ → ℕ) (compress : List ℕ → List ℕ) (times_0_69 : ℕ → ℕ) (opts : Options)
    (I : InternalIterator) where
  -- The fields of a job in flight, with the allocator of the database's file ids.
  pub record RunningJob : Type 0 where
    pub older : List Run
    pub watermark : ℕ
    pub merge : I.State
    pub run_id : ℕ
    pub tables : List Finished
    pub builder : Option (ℕ × TableBuilder)
    pub discard : List (ℕ × ℕ)
    pub cur_ukey : List ℕ
    pub have_key : Bool
    pub kept_le_w : Bool
    pub slices : ℕ
    pub next_file_id : ℕ

  -- `RunningJob::new`, on the cursor over the inputs.
  unfoldable pub new_job : List Run → ℕ → I.State → ℕ → Result RunningJob
  new_job older watermark merge next_file_id = do
    merge' ← I.seek_to_first merge
    ok (record {
      older = older;
      watermark = watermark;
      merge = merge';
      run_id = next_file_id;
      tables = [];
      builder = none;
      discard = [];
      cur_ukey = [];
      have_key = false;
      kept_le_w = false;
      slices = 0;
      next_file_id = next_file_id + 1;
    })

  unfoldable pub new_user_key : RunningJob → List ℕ → Bool
  new_user_key j ik = not j.have_key || not (bytes_eq (ikey_ukey ik) j.cur_ukey)

  -- The first version of a key resets what was kept of it.
  unfoldable pub note_user_key : RunningJob → List ℕ → RunningJob
  unfolding new_user_key
  note_user_key j ik =
      if new_user_key j ik
      then record j { cur_ukey = ikey_ukey ik; have_key = true; kept_le_w = false }
      else j

  -- Whether to keep the entry, and whether a value may lose its last pointer.
  unfoldable pub judge : RunningJob → List ℕ → ValueKind → Result ((Bool × Bool) × RunningJob)
  judge j ik kind =
      if ltb j.watermark (ikey_seqno ik)
      then ok ((true, false), j)
      else if not j.kept_le_w
      then (older_may_contain j.older j.cur_ukey >>= λ shadows_older. ok (
        (if is_delete kind && not shadows_older then (false, false) else (true, false)),
        record j { kept_le_w = true },
      ))
      else ok ((false, not (is_delete kind)), j)

  abbrev pub finish_table : ℕ → TableBuilder → Finished
  finish_table id b = (id, finish crc32 compress times_0_69 b)

  -- A table that is full is finished, where the next key is another one.
  unfoldable pub split_table : RunningJob → List ℕ → RunningJob
  split_table j ik = elim j.builder [
    | none ↦ j
    | some (id, b) ↦
        if leb opts.target_file_size (estimated_size b)
          && not (bytes_eq (ikey_ukey ik) (last_ukey b))
        then record j { tables = j.tables ++ (finish_table id b ∷ []); builder = none }
        else j
  ]

  unfoldable pub open_table : RunningJob → (ℕ × TableBuilder) × RunningJob
  open_table j = elim j.builder [
    | some open_builder ↦ (open_builder, j)
    | none ↦ (
      (j.next_file_id, new_builder opts.block_size opts.bloom_bits_per_key opts.compression),
      record j { next_file_id = j.next_file_id + 1 },
    )
  ]

  unfoldable pub keep_entry : RunningJob → List ℕ → List ℕ → Result RunningJob
  unfolding split_table open_table
  keep_entry j ik value = do
    let ((id, b), j') = open_table (split_table j ik)
    b' ← add crc32 compress b ik value
    ok (record j' { builder = some (id, b') })

  unfoldable pub count_pointer : RunningJob → List ℕ → Result RunningJob
  unfolding add_discard
  count_pointer j value = do
    repr ← decode_repr value
    ok (elim repr [
      | inline v ↦ j
      | ptr p ↦ record j { discard = add_discard p.file p.len j.discard }
    ])

  -- The body of the loop, up to `merge.next()`.
  unfoldable pub take_entry : RunningJob → List ℕ → List ℕ → Result RunningJob
  unfolding note_user_key judge keep_entry count_pointer
  take_entry j ik value = do
    kind ← ikey_kind ik
    ((keep, is_ptr_drop), j') ← judge (note_user_key j ik) ik kind
    if keep then keep_entry j' ik value else if is_ptr_drop then count_pointer j' value else ok j'

  -- The loop of `run_slice`, on fuel for the entries that are left: false where the slice is spent.
  unfoldable pub slice_loop : ℕ → ℕ → RunningJob → Result (Bool × RunningJob)
  slice_loop zero processed j = ok (false, j)
  slice_loop (suc fuel) processed j =
      let budget = max opts.compaction_slice_bytes 1 in
      let ik = I.ikey j.merge in
      let value = I.value j.merge in
      let entry_bytes = saturating_add (length ik) (length value) in
      let go = take_entry j ik value >>= λ j'. I.next j'.merge >>= λ merge'.
      slice_loop fuel (saturating_add processed entry_bytes) (record j' { merge = merge' }) in
      if not (I.valid j.merge)
      then ok (true, j)
      else if leb budget processed && new_user_key j ik
      then ok (false, j)
      else go

  abbrev pub finish_last : RunningJob → RunningJob
  finish_last j = elim j.builder [
    | none ↦ j
    | some (id, b) ↦ record j { tables = j.tables ++ (finish_table id b ∷ []); builder = none }
  ]

  -- `run_slice`, up to the installation of the tables; the directory is synced between.
  unfoldable pub run_slice : ℕ → RunningJob → Result (Bool × RunningJob)
  unfolding slice_loop
  run_slice fuel j = do
    (done, j') ← slice_loop fuel 0 (record j { slices = j.slices + 1 })
    ok (done, if done then finish_last j' else j')

  -- The slices of a job that nothing preempts, `while !running.run_slice(db)? {}`, which is how tests run
  -- a job; a scheduler calls `run_slice` for each slice that it picks.
  unfoldable pub run_slices : ℕ → ℕ → RunningJob → Result RunningJob
  run_slices zero fuel j = ok j
  run_slices (suc n) fuel j = run_slice fuel j >>= λ result.
      let rest = run_slices n fuel result.1 in if result.0 then ok result.1 else rest
