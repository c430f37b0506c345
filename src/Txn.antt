-- ===== src/Txn.antt =====
-- crates/fluent31/src/txn.rs: optimistic transactions, over the operations of the database that they
-- call.
pub mod Own
pub mod Commit
pub mod Overlay
pub mod Overlaid
pub mod Iterates
use fluent.Prelude.{
  ℕ, ◌+◌, ltb, ◌==◌, Bool, true, false, not, ◌||◌, ◌&&◌, if◌then◌else◌, List, [], ◌∷◌, ◌++◌, length,
  map, Option, none, some, reverse,
}
use fluent.Result.{Result, ok, err, conflict, invalid_argument, ◌>>=◌}
use fluent.OrderedMap
use fluent.OrderedMap.Keys.{bytes_order}
use fluent.Types.{ValueKind, validate_user_key}
use fluent.Batch.{BatchOp}

-- What a transaction uses of `DbInner`, whose state is passed along.
pub record Database : Type 1 where
  pub State : Type 0
  pub max_key_size : ℕ
  pub max_value_size : ℕ
  pub max_txn_write_bytes : ℕ
  -- `opts.sync == SyncMode::Always`
  pub sync_always : Bool
  pub get_at_seq : State → List ℕ → ℕ → Result (Option (List ℕ))
  pub check_bg_error : State → Result (Unit {0})
  pub wait_for_space : State → Result State
  -- `read_view().latest(key)`
  pub latest : State → List ℕ → Result (Option (ℕ × ValueKind))
  pub apply_locked : State → List BatchOp → Bool → Result State
  pub deregister_snapshot : State → ℕ → State
  pub queue_commit : State → List BatchOp → ℕ → ℕ × List (List ℕ) → Bool → Result State

-- `writes` and `locks` are a `BTreeMap` and a `BTreeSet`.
pub record Txn : Type 0 where
  pub snap : ℕ
  pub registered : Bool
  pub writes : List (List ℕ × Option (List ℕ))
  pub locks : List (List ℕ × Unit {0})
  pub bytes : ℕ
  pub system : Bool

abbrev pub new_txn : ℕ → Txn
new_txn snap = record {
  snap = snap;
  registered = true;
  writes = [];
  locks = [];
  bytes = 0;
  system = false;
}

abbrev pub mark_system : Txn → Txn
mark_system t = record t { system = true }

abbrev pub write_set_len : Txn → ℕ
write_set_len t = length t.writes

module _ (db : Database) where
  -- The count grows where the limit refuses the write, too.
  unfoldable pub track_bytes : Txn → ℕ → Result (Unit {0}) × Txn
  track_bytes t add =
      let t' = record t { bytes = t.bytes + add } in
      (if ltb db.max_txn_write_bytes t'.bytes then err invalid_argument else ok tt, t')

  -- The insertion into the write set, where the count was accepted.
  unfoldable pub write :
      Result (Unit {0}) × Txn → List ℕ → Option (List ℕ) → Result (Unit {0}) × Txn
  write (ok _, t) key value =
      (ok tt, record t { writes = OrderedMap.insert bytes_order key value t.writes })
  write (err e, t) key value = (err e, t)

  unfoldable pub sys_delete : Txn → List ℕ → Result (Unit {0}) × Txn
  unfolding track_bytes write
  sys_delete t key = write (track_bytes t (length key)) key none

  unfoldable pub get : db.State → Txn → List ℕ → Result (Option (List ℕ))
  get d t key = validate_user_key key >>= λ _. elim (OrderedMap.lookup bytes_order key t.writes) [
    | some v ↦ ok v
    | none ↦ db.get_at_seq d key t.snap
  ]

  -- The lock is taken where the read fails, too.
  unfoldable pub get_for_update : db.State → Txn → List ℕ → Result (Option (List ℕ)) × Txn
  unfolding get
  get_for_update d t key =
      let t' = record t { locks = OrderedMap.insert bytes_order key tt t.locks } in
      elim (validate_user_key key) [ err e ↦ (err e, t) | ok _ ↦ (get d t' key, t') ]

  unfoldable pub put : Txn → List ℕ → List ℕ → Result (Unit {0}) × Txn
  unfolding track_bytes write
  put t key value = elim (validate_user_key key) [
    | err e ↦ (err e, t)
    | ok _ ↦
        if ltb db.max_key_size (length key) || ltb db.max_value_size (length value)
        then (err invalid_argument, t)
        else write (track_bytes t (length key + length value)) key (some value)
  ]

  unfoldable pub delete : Txn → List ℕ → Result (Unit {0}) × Txn
  unfolding track_bytes write
  delete t key = elim (validate_user_key key) [
    | err e ↦ (err e, t)
    | ok _ ↦ write (track_bytes t (length key)) key none
  ]

  abbrev pub op_of : List ℕ × Option (List ℕ) → BatchOp
  op_of (key, some value) = BatchOp.put key value
  op_of (key, none) = BatchOp.delete key

  abbrev pub keys_of {ℓ} : {V : Type ℓ} → List (List ℕ × V) → List (List ℕ)
  keys_of m = map (λ e. e.0) m

  -- `self.writes.keys().chain(self.locks.iter())`
  abbrev pub conflict_keys : Txn → List (List ℕ)
  conflict_keys t = keys_of t.writes ++ keys_of t.locks

  -- A version of a key that is newer than the snapshot.
  abbrev pub is_newer : ℕ → Option (ℕ × ValueKind) → Bool
  is_newer snap none = false
  is_newer snap (some (seq, kind)) = ltb snap seq

  -- The loop of the validation, up to the first newer version or error.
  unfoldable pub conflicted : db.State → ℕ → List (List ℕ) → Result Bool
  conflicted d snap [] = ok false
  conflicted d snap (key ∷ keys) =
      let rest = conflicted d snap keys in
      db.latest d key >>= λ v. if is_newer snap v then ok true else rest

  -- The state of the database after a commit; the write mutex makes the direct path one step.
  unfoldable pub commit : db.State → Txn → Result db.State
  unfolding conflicted
  commit d t =
      let ops = map op_of t.writes in
      let capture = not t.system in
      if length t.writes + length t.locks == 0 then ok d else (do
        _ ← db.check_bg_error d
        d1 ← db.wait_for_space d
        if db.sync_always
            then db.queue_commit d1 ops t.bytes (t.snap, conflict_keys t) capture
            else (do
              newer ← conflicted d1 t.snap (conflict_keys t)
              if newer
                  then err conflict
                  else if not (length ops == 0)
                  then db.apply_locked d1 ops capture
                  else ok d1))

  -- `Drop`: the snapshot of the transaction is given back, once.
  unfoldable pub drop : db.State → Txn → db.State × Txn
  drop d t =
      if t.registered
      then (db.deregister_snapshot d t.snap, record t { registered = false })
      else (d, t)
