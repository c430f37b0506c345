-- ===== src/Tests/Commits.antt =====
-- Runs of the committer: chunks, two transactions on one key, a group on the flaky disk.
use fluent.Prelude.{
  ℕ, ◌+◌, ◌^◌, ◌≡◌, refl, arith, ◌↔◌, true, false, if◌then◌else◌, List, [], ◌∷◌, Option, All, some,
  none,
}
use fluent.Result.{Result, ok, err, io, conflict}
use fluent.Types.{ValueKind, put}
use fluent.Batch.{BatchOp, encode_batch, put_entries, put_entry}
use fluent.Bytes.{cmp_bytes, bytes_eq}
use fluent.Coding.{to_le_bytes, put_uvarint, put_len_prefixed, put_u32, put_u64}
use fluent.Types.{encode_inline, encode_ptr}
use fluent.Memtable
use fluent.Memtable.Skiplist.{sorted_list}
use fluent.Vlog.{encode_record}
use fluent.Write.{approx_size, place_ops, append_record}
use fluent.Write.Group.{from_tail}
use fluent.Committer.{Waiter, chunk_loop, validate_group, refused, included, commit_group}
use fluent.Committer.Chunks.{concat_groups, IsBounded, chunk_loop-IsBounded}
use fluent.Committer.Resolved.{AreResolved, commit_group-AreResolved}
use fluent.Committer.Validated.{passed, written_by, Untouched, validate_group-Untouched}
use fluent.Tests.Writes.{crc, flaky, options, no_events, store}

-- A write of `b"k"`, and a transaction that read a key at snapshot 5 and writes `b"j"`.
abbrev blind : ℕ → Waiter
blind size = record {
  ops = BatchOp.put (b'k' ∷ []) (9 ∷ []) ∷ [];
  bytes = size;
  validate = none;
  capture = false;
}

abbrev reader : ℕ → Waiter
reader key = record {
  ops = BatchOp.put (b'j' ∷ []) (9 ∷ []) ∷ [];
  bytes = 2;
  validate = some (5, (key ∷ []) ∷ []);
  capture = false;
}

-- The view has `m` at 3 and `n` at 6.
abbrev versions : List ℕ → Result (Option (ℕ × ValueKind))
versions key = ok (
    if bytes_eq key (b'm' ∷ [])
    then some (3, put)
    else if bytes_eq key (b'n' ∷ [])
    then some (6, put)
    else none)

abbrev queue : List Waiter
queue = blind 5 ∷ blind (2 ^ 17 + 1) ∷ blind 7 ∷ blind (2 ^ 20) ∷ []

-- The second waiter does not fit behind the first, nor the last behind the second and the third.
chunks_run :
    chunk_loop 4 queue
    ≡ (blind 5 ∷ []) ∷ (blind (2 ^ 17 + 1) ∷ blind 7 ∷ []) ∷ (blind (2 ^ 20) ∷ []) ∷ []
unfolding chunk_loop
chunks_run = refl

chunk_loop-IsBounded_example :
    (concat_groups (chunk_loop 4 queue) ≡ queue) × All IsBounded (chunk_loop 4 queue)
chunk_loop-IsBounded_example = chunk_loop-IsBounded 4 queue (omega arith)

-- A transaction that read what the group wrote is refused, and so is one that read a key with a newer
-- version; the others pass.
validated_run :
    validate_group versions []
      (blind 2 ∷ reader b'k' ∷ reader b'n' ∷ reader b'm' ∷ reader b'o' ∷ [])
    ≡ included (blind 2).ops false
      ∷ refused conflict
      ∷ refused conflict
      ∷ included (reader b'm').ops false
      ∷ included (reader b'o').ops false
      ∷ []
unfolding validate_group cmp_bytes
validated_run = refl

validate_group-Untouched_example :
    (passed (included (reader b'm').ops false) ≡ true)
    ↔ All
        (Untouched versions
          (written_by
            (blind 2 ∷ reader b'k' ∷ [])
            (validate_group versions [] (blind 2 ∷ reader b'k' ∷ [])))
          5)
        ((b'm' ∷ []) ∷ [])
unfolding validate_group cmp_bytes
validate_group-Untouched_example =
    validate_group-Untouched versions (blind 2 ∷ reader b'k' ∷ []) (reader b'm') []
      (included (reader b'm').ops false) refl

commit_group-AreResolved_example :
    AreResolved
      (commit_group flaky sorted_list crc options no_events
        (λ db key. ok none)
        (blind 2 ∷ reader b'k' ∷ reader b'm' ∷ [])
        (store 1)).0
      3
commit_group-AreResolved_example =
    commit_group-AreResolved flaky sorted_list crc options no_events (λ db key. ok none)
      (blind 2 ∷ reader b'k' ∷ reader b'm' ∷ []) (store 1)

-- The second append of the group fails; the conflict is told apart from it.
group_run :
    (commit_group flaky sorted_list crc options no_events
      (λ db key. ok none)
      (blind 2 ∷ reader b'k' ∷ reader b'm' ∷ [])
      (store 1)).0
    ≡ some (ok tt) ∷ some (err conflict) ∷ some (err io) ∷ []
unfolding commit_group cmp_bytes Memtable.new approx_size place_ops encode_record to_le_bytes
    put_uvarint encode_batch put_entries put_entry put_len_prefixed encode_ptr put_u32 put_u64
    append_record encode_inline from_tail
group_run = refl
