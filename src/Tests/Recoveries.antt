-- ===== src/Tests/Recoveries.antt =====
-- Runs of the replay: a sealed log, a newest one with a torn record, and a value that is not durable.
use fluent.Prelude.{
  ℕ, ◌≡◌, refl, ap, arith, Bool, false, inl, List, [], ◌∷◌, ◌++◌, length, Option, none, some,
}
use fluent.Result.{ok}
use fluent.OrderedMap
use fluent.Bytes.{cmp_bytes}
use fluent.Types.{
  put, delete, decode_repr, make_ikey, make_seek_ikey, cmp_ikey, ikey_ukey, ikey_kind, ikey_seqno,
}
use fluent.Batch.{EncEntry, encode_batch, put_entries, put_entry}
use fluent.Coding.{u8, to_le_bytes, put_uvarint, put_len_prefixed, put_u32, put_u64}
use fluent.Memtable
use fluent.Memtable.Skiplist.{sorted_list}
use fluent.Wal.{append_record}
use fluent.Wal.Recovery as Log
use fluent.Recovery.{YoungIndex, Replay, replay_wals}
use fluent.Recovery.History.{
  History, numbered, numbered_all, numbered_logs, greatest, insert_all, replayed, inlined, deletes,
}
use fluent.Recovery.Replayed.{IsLogged, log_file, replay_wals-all}

abbrev crc : List ℕ → ℕ
crc l = 7

abbrev no_young : ℕ → Option YoungIndex
no_young id = none

abbrev none_of : ℕ → Bool
none_of id = false

abbrev first : List EncEntry
first = record { kind = put; key = b'a' ∷ []; repr = 0 ∷ 9 ∷ [] } ∷ []

abbrev second : List EncEntry
second = record { kind = delete; key = b'a' ∷ []; repr = [] } ∷ []

abbrev lost : List ℕ
lost = 5 ∷ 6 ∷ []

first_bytes :
    encode_batch 1 first
    ≡ 1 ∷ 0 ∷ 0 ∷ 0 ∷ 0 ∷ 0 ∷ 0 ∷ 0 ∷ 1 ∷ 0 ∷ 0 ∷ 0 ∷ 1 ∷ 1 ∷ b'a' ∷ 2 ∷ 0 ∷ 9 ∷ []
unfolding encode_batch put_u64 put_u32 put_entries put_entry put_len_prefixed put_uvarint
    to_le_bytes
first_bytes = refl

second_bytes :
    encode_batch 2 second ≡ 2 ∷ 0 ∷ 0 ∷ 0 ∷ 0 ∷ 0 ∷ 0 ∷ 0 ∷ 1 ∷ 0 ∷ 0 ∷ 0 ∷ 0 ∷ 1 ∷ b'a' ∷ 0 ∷ []
unfolding encode_batch put_u64 put_u32 put_entries put_entry put_len_prefixed put_uvarint
    to_le_bytes
second_bytes = refl

first-IsLogged : IsLogged crc sorted_list no_young none_of none_of 1 first
unfolding decode_repr u8
first-IsLogged = record {
  is_batch = omega arith;
  is_record = record {
    bounded = omega (arith, ap {B = ℕ} length first_bytes);
    checksum = omega arith;
    not_zero_fill = inl (omega (arith, ap {B = ℕ} length first_bytes));
  };
  durable = (inlined (9 ∷ []) refl refl, tt);
}

second-IsLogged : IsLogged crc sorted_list no_young none_of none_of 2 second
second-IsLogged = record {
  is_batch = omega arith;
  is_record = record {
    bounded = omega (arith, ap {B = ℕ} length second_bytes);
    checksum = omega arith;
    not_zero_fill = inl (omega (arith, ap {B = ℕ} length second_bytes));
  };
  durable = (deletes refl, tt);
}

lost-IsRecord : Log.IsRecord crc lost
lost-IsRecord = record {
  bounded = omega arith;
  checksum = omega arith;
  not_zero_fill = inl (omega arith);
}

abbrev empty : Replay crc sorted_list no_young none_of none_of
empty = record {
  recovered = Memtable.new sorted_list 4;
  max_seq = 0;
  replayed_records = 0;
  truncate_torn = none;
}

abbrev torn_bytes : List ℕ
torn_bytes = 2 ∷ 0 ∷ 0 ∷ 0 ∷ 7 ∷ 0 ∷ 0 ∷ 0 ∷ 5 ∷ []

-- The two entries, with their numbers.
abbrev history : History
history = numbered_logs ((3, (1, first) ∷ []) ∷ []) ++ numbered_all ((2, second) ∷ [])

replay_wals-all_example :
    replay_wals crc sorted_list no_young none_of none_of
      ((3, log_file crc sorted_list no_young none_of none_of ((1, first) ∷ []))
        ∷ (4, log_file crc sorted_list no_young none_of none_of ((2, second) ∷ []) ++ torn_bytes)
        ∷ [])
      empty
    ≡ ok (record (replayed crc sorted_list no_young none_of none_of history empty) {
      truncate_torn =
          some (4, length (log_file crc sorted_list no_young none_of none_of ((2, second) ∷ [])));
    })
unfolding append_record to_le_bytes
replay_wals-all_example =
    replay_wals-all crc sorted_list no_young none_of none_of lost torn_bytes 6 [] lost-IsRecord refl
      ((3, (1, first) ∷ []) ∷ []) 4 ((2, second) ∷ []) empty ((first-IsLogged, tt), tt)
      (second-IsLogged, tt)

history_run :
    history
    ≡ (1, record { kind = put; key = b'a' ∷ []; repr = 0 ∷ 9 ∷ [] })
      ∷ (2, record { kind = delete; key = b'a' ∷ []; repr = [] })
      ∷ []
unfolding numbered_logs numbered_all numbered
history_run = refl

-- After the replay the delete, which is newer, is what a read finds.
recovered_run :
    Memtable.get sorted_list
      (replayed crc sorted_list no_young none_of none_of history empty).recovered
      (b'a' ∷ [])
      9
    ≡ some (delete, 2, [])
unfolding numbered_logs numbered_all numbered insert_all Memtable.insert Memtable.get Memtable.new
    make_ikey make_seek_ikey cmp_ikey ikey_ukey ikey_kind ikey_seqno cmp_bytes OrderedMap.insert
    OrderedMap.lower_bound
recovered_run = refl

replayed_run :
    ((replayed crc sorted_list no_young none_of none_of history empty).max_seq ≡ 2)
    × ((replayed crc sorted_list no_young none_of none_of history empty).replayed_records ≡ 2)
unfolding numbered_logs numbered_all numbered greatest
replayed_run = (refl, refl)
