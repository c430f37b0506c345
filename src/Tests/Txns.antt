-- ===== src/Tests/Txns.antt =====
-- Runs of crates/fluent31/src/txn.rs over a database with one committed version, and of version.rs.
use fluent.Prelude.{
  inl, inr, arith, ℕ, ◌≡◌, refl, true, false, if◌then◌else◌, List, [], ◌∷◌, ◌++◌, All, none, some,
}
use fluent.Result.{ok, err, conflict}
use fluent.Bytes.{bytes_eq, cmp_bytes}
use fluent.Types.{put}
use fluent.Batch.{BatchOp}
use fluent.Txn.{Database, Txn, commit, conflicted}
use fluent.Txn as Txn
use fluent.Txn.Own.{Reads, own_writes}
use fluent.Txn.Commit.{Current, Overtaken, touched, applied, commit_validates}
use fluent.OrderedMap
use fluent.Txn.Overlay.{Pair, iter, within, collect, next, next_loop, fill_base}
use fluent.Version.{TableHandle, Run, run_get, run_may_contain}
use fluent.Version.Views.{covers, run_get-covers}

-- `k` was written at 9, `l` at 7; the state is the operations that were applied.
abbrev store : Database
store = record {
  State = List BatchOp;
  max_key_size = 100;
  max_value_size = 100;
  max_txn_write_bytes = 1000;
  sync_always = false;
  get_at_seq = λ d key seq. ok none;
  check_bg_error = λ d. ok tt;
  wait_for_space = λ d. ok d;
  latest = λ d key. ok (
      if bytes_eq key (b'k' ∷ [])
      then some (9, put)
      else if bytes_eq key (b'l' ∷ [])
      then some (7, put)
      else none);
  apply_locked = λ d ops capture. ok (d ++ ops);
  deregister_snapshot = λ d seq. [];
  queue_commit = λ d ops bytes keys capture. ok d;
}

abbrev txn : Txn
txn = record {
  snap = 7;
  registered = true;
  writes = (b'j' ∷ [], some (1 ∷ [])) ∷ (b'k' ∷ [], none) ∷ [];
  locks = [];
  bytes = 3;
  system = false;
}

own_writes_example :
    Reads store [] txn (b'm' ∷ []) (some (2 ∷ [])) (Txn.put store txn (b'm' ∷ []) (2 ∷ []))
    × Reads store [] txn (b'm' ∷ []) none (Txn.delete store txn (b'm' ∷ []))
own_writes_example = own_writes store [] txn (b'm' ∷ []) (2 ∷ [])

-- It locked `l`, too, which was written at 7, when its snapshot was taken.
abbrev locking : Txn
locking = record {
  snap = 7;
  registered = true;
  writes = (b'j' ∷ [], some (1 ∷ [])) ∷ (b'm' ∷ [], none) ∷ [];
  locks = (b'l' ∷ [], tt) ∷ [];
  bytes = 3;
  system = false;
}

commit_validates_example :
    (All (Current store [] 7) ((b'j' ∷ []) ∷ (b'm' ∷ []) ∷ (b'l' ∷ []) ∷ [])
      → commit store [] locking ≡ applied store [] locking)
    × ((before : List (List ℕ)) (key : List ℕ) (after : List (List ℕ))
        → touched locking ≡ before ++ (key ∷ after)
        → All (Current store [] 7) before
        → Overtaken store [] 7 key
        → commit store [] locking ≡ err conflict)
    × ((d' : List BatchOp)
        → commit store [] locking ≡ ok d'
        → All (Current store [] 7) (touched locking))
commit_validates_example = commit_validates store [] [] locking refl refl refl refl

-- It applies its writes.
applies :
    commit store [] locking
    ≡ ok (BatchOp.put (b'j' ∷ []) (1 ∷ []) ∷ BatchOp.delete (b'm' ∷ []) ∷ [])
unfolding cmp_bytes
applies = commit_validates_example.0 (inl refl, (inl refl, (inr (7, put, refl, omega arith), tt)))

-- The write of `k` is a conflict, and so is a lock of it behind a lock of `l`.
conflicts : commit store [] txn ≡ err conflict
unfolding commit conflicted cmp_bytes
conflicts = refl

lock_conflicts :
    commit store [] (record locking { locks = (b'k' ∷ [], tt) ∷ (b'l' ∷ [], tt) ∷ [] })
    ≡ err conflict
unfolding commit conflicted cmp_bytes
lock_conflicts = refl

-- The second drop gives nothing back.
drop_run :
    (Txn.drop store [] txn ≡ ([], record txn { registered = false }))
    × ((d : List BatchOp)
        → Txn.drop store d (record txn { registered = false })
          ≡ (d, record txn { registered = false }))
unfolding Txn.drop
drop_run = (refl, λ d. refl)

abbrev first_table : TableHandle
first_table = record {
  id = 1;
  size = 10;
  min_ukey = b'a' ∷ [];
  max_ukey = b'f' ∷ [];
  get = λ key seq. ok none;
  may_contain_ukey = λ key. ok true;
}

abbrev second_table : TableHandle
second_table = record {
  id = 2;
  size = 20;
  min_ukey = b'h' ∷ [];
  max_ukey = b'm' ∷ [];
  get = λ key seq. ok (some (put, 4, 0 ∷ []));
  may_contain_ukey = λ key. ok true;
}

abbrev run : Run
run = record { id = 1; tables = first_table ∷ second_table ∷ [] }

run_get-covers_example :
    (covers second_table (b'k' ∷ []) ≡ true
      → (run_get run (b'k' ∷ []) 9 ≡ ok (some (put, 4, 0 ∷ [])))
        × (run_may_contain run (b'k' ∷ []) ≡ ok true))
    × (All (λ x. covers x (b'k' ∷ []) ≡ false) (first_table ∷ second_table ∷ [])
        → (run_get run (b'k' ∷ []) 9 ≡ ok none) × (run_may_contain run (b'k' ∷ []) ≡ ok false))
run_get-covers_example =
    run_get-covers 1 (first_table ∷ []) second_table [] (b'k' ∷ []) 9
      ((unfold cmp_bytes in refl, tt), (tt, tt))

-- From `j` on and before `m`, over a snapshot with `k` and `l`: the transaction deleted `k`, put `j`, and
-- put `m`, which is out of the range.
abbrev ranged : Txn
ranged = record {
  snap = 7;
  registered = true;
  writes = (b'j' ∷ [], some (1 ∷ [])) ∷ (b'k' ∷ [], none) ∷ (b'm' ∷ [], some (2 ∷ [])) ∷ [];
  locks = [];
  bytes = 4;
  system = false;
}

abbrev snapshot : List Pair
snapshot = (b'k' ∷ [], 8 ∷ []) ∷ (b'l' ∷ [], 9 ∷ []) ∷ []

iter_run :
    collect 6 (
      iter ranged
        (ok (b'k' ∷ [], 8 ∷ []) ∷ ok (b'l' ∷ [], 9 ∷ []) ∷ [])
        (some (b'j' ∷ []))
        (some (b'm' ∷ []))
        false)
    ≡ ok ((b'j' ∷ [], 1 ∷ []) ∷ (b'l' ∷ [], 9 ∷ []) ∷ [])
unfolding collect iter within next next_loop fill_base cmp_bytes
iter_run = refl
