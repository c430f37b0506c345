-- ===== src/Tests/Store.antt =====
-- Runs of crates/fluent31/src/memtable.rs, bloom.rs and block.rs.
use fluent.Prelude.{
  ℕ, ◌-◌, ◌==◌, leb, ◌≡◌, refl, arith, true, not, ◌&&◌, if◌then◌else◌, List, [], ◌∷◌, All, some,
}
use fluent.Result.{ok}
use fluent.Bytes.{bytes_eq, cmp_bytes}
use fluent.Types.{put, make_ikey, cmp_ikey, ikey_ukey, ikey_trailer}
use fluent.OrderedMap.{IsSorted}
use fluent.Memtable.{Memtable, insert, get}
use fluent.Memtable.Skiplist.{sorted_list, ikey_order}
use fluent.Memtable.Lookup.{IsWf, shadowed, get-insert, insert-IsWf}
use fluent.Bloom.{build, may_contain, hash64}
use fluent.Bloom.Members.{build-may_contain}
use fluent.Coding.Varint.{encoded_last}
use fluent.Block.{lower_bound, seek_for_prev}
use fluent.Block.Built.{Entry, Fits, block_of, region, entry_bytes}
use fluent.Block.Search.{first_not_below, lower_bound-built}
use fluent.Block.Cursor.{not_above, seek_for_prev-built}

abbrev key : List ℕ
key = b'k' ∷ []

abbrev fresh : Memtable sorted_list
fresh = record { map = []; bytes = 0; wal_id = 1 }

fresh-IsWf : IsWf sorted_list fresh
unfolding IsWf
fresh-IsWf = tt

-- A version at 3 below one at 7, read at 8.
get-insert_example :
    get sorted_list
      (insert sorted_list
        (insert sorted_list fresh (make_ikey key 3 put) (0 ∷ 3 ∷ []))
        (make_ikey key 7 put)
        (0 ∷ 7 ∷ []))
      key
      8
    ≡ (if bytes_eq key key
          && (leb 7 8
              && not (
                  shadowed
                    (get sorted_list
                      (insert sorted_list fresh (make_ikey key 3 put) (0 ∷ 3 ∷ []))
                      key
                      8)
                    7
                    put))
        then some (put, 7, 0 ∷ 7 ∷ [])
        else get sorted_list (insert sorted_list fresh (make_ikey key 3 put) (0 ∷ 3 ∷ [])) key 8)
get-insert_example =
    get-insert sorted_list (insert sorted_list fresh (make_ikey key 3 put) (0 ∷ 3 ∷ [])) key 7 put
      (0 ∷ 7 ∷ []) key 8
      (insert-IsWf sorted_list fresh key 3 put (0 ∷ 3 ∷ []) fresh-IsWf (omega arith)) (omega arith)
      (omega arith)

-- `bits as f64 * 0.69`, rounded down.
abbrev times : ℕ → ℕ
times bits = 6

build-may_contain_example :
    All (λ h. may_contain (build times (hash64 key ∷ 17 ∷ []) 10) h ≡ true) (hash64 key ∷ 17 ∷ [])
build-may_contain_example = build-may_contain times (hash64 key ∷ 17 ∷ []) 10

-- `k` at 9 and at 5, and `l` at 2.
abbrev first : Entry
first = (107 ∷ 0 ∷ 0 ∷ 0 ∷ 0 ∷ 0 ∷ 0 ∷ 9 ∷ 0 ∷ [], 0 ∷ 1 ∷ [])

abbrev second : Entry
second = (107 ∷ 0 ∷ 0 ∷ 0 ∷ 0 ∷ 0 ∷ 0 ∷ 5 ∷ 1 ∷ [], [])

abbrev third : Entry
third = (108 ∷ 0 ∷ 0 ∷ 0 ∷ 0 ∷ 0 ∷ 0 ∷ 2 ∷ 0 ∷ [], 0 ∷ [])

abbrev three : List Entry
three = first ∷ second ∷ third ∷ []

three-Fits : Fits three
three-Fits = record {
  are_entries = (
    record { has_trailer = omega arith; key_fits = omega arith; repr_fits = omega arith },
    (
      record { has_trailer = omega arith; key_fits = omega arith; repr_fits = omega arith },
      (record { has_trailer = omega arith; key_fits = omega arith; repr_fits = omega arith }, tt),
    ),
  );
  region_fits =
      unfold region entry_bytes in
      rw
        (
          encoded_last 9 (omega arith),
          encoded_last 2 (omega arith),
          encoded_last 0 (omega arith),
          encoded_last 1 (omega arith),
        )
        (omega arith);
  count_fits = omega arith;
}

three-IsSorted : IsSorted ikey_order three
unfolding cmp_ikey ikey_ukey ikey_trailer cmp_bytes
three-IsSorted = ((refl, (refl, tt)), ((refl, tt), (tt, tt)))

abbrev seek_at : List ℕ
seek_at = 107 ∷ 0 ∷ 0 ∷ 0 ∷ 0 ∷ 0 ∷ 0 ∷ 7 ∷ 255 ∷ []

lower_bound-built_example : lower_bound (block_of three) seek_at ≡ ok 1
unfolding first_not_below cmp_ikey ikey_ukey ikey_trailer cmp_bytes
lower_bound-built_example = lower_bound-built three seek_at three-Fits three-IsSorted

seek_for_prev-built_example :
    seek_for_prev (record { block = block_of three; pos = 3 }) seek_at
    ≡ ok (record {
      block = block_of three;
      pos = if not_above seek_at three == 0 then 3 else not_above seek_at three - 1;
    })
seek_for_prev-built_example = seek_for_prev-built three 3 seek_at three-Fits three-IsSorted
