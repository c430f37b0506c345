-- ===== src/Write/Group/Twin.antt =====
-- crates/fluent31/src/db.rs: `apply_group_locked` on one batch against its twin `apply_locked`.
use fluent.Prelude.{
  ℕ, ◌+◌, leb, if◌then◌else◌, Bool, true, false, not, List, [], ◌∷◌, ◌++◌, length, none, some, ◌≡◌,
  refl, ap, subst, ◌⊎◌, inl, inr, Bool-cases, arith,
}
use fluent.Result.{Result, ok, err, Error, invalid_argument}
use fluent.Types.{max_seqno}
use fluent.Batch.{BatchOp, EncEntry, encode_batch}
use fluent.Memtable.{Memtable}
use fluent.Memtable.Skiplist.{SkipMap}
use fluent.Write.{
  Disk, Options, and_then, max_batch, approx_size, is_nil, capture_events, place_op, place_ops,
  sync_placed, sync_head, append_record, sync_log, insert_batch, publish, rotate, rotate_memtable,
  rotate_vlog, notify_triggers, last_seqno, degrading, apply_locked,
}
use fluent.Write.Group.{
  Results, Store, Accepted, Placed, apply_group_locked, accept, place_group, append_group,
  sync_group, finish_group, fail_tail, fail_batches, from_tail,
}

module _ (disk : Disk) (m : SkipMap) (crc32 : List ℕ → ℕ) (opts : Options)
    (capture_ops : List BatchOp → ℕ → List BatchOp) where
  abbrev S : Type 0
  S = Store disk m crc32 opts capture_ops

  noted : S → S
  noted db = record db { notified = db.notified + 1 }

  also {ℓ} : {A : Type ℓ} → Result A × S → Result A × S
  also (r, db) = (r, noted db)

  -- Rotations do not look at the count of wake-ups.
  rotate_memtable-noted :
      (db : S)
      → rotate_memtable disk m crc32 opts capture_ops (noted db)
        ≡ also (rotate_memtable disk m crc32 opts capture_ops db)
  unfolding rotate_memtable noted also
  rotate_memtable-noted db = ground arith

  rotate_vlog-noted :
      (db : S)
      → rotate_vlog disk m crc32 opts capture_ops (noted db)
        ≡ also (rotate_vlog disk m crc32 opts capture_ops db)
  unfolding rotate_vlog noted also
  rotate_vlog-noted db = ground arith

  rotate-noted :
      (db : S)
      → rotate disk m crc32 opts capture_ops (noted db)
        ≡ noted (rotate disk m crc32 opts capture_ops db)
  unfolding rotate noted also
  rotate-noted db = ground (
    arith,
    rotate_memtable-noted db,
    rotate_vlog-noted db,
    rotate_vlog-noted (record (rotate_memtable disk m crc32 opts capture_ops db).1 {
      flushes = (rotate_memtable disk m crc32 opts capture_ops db).1.flushes + 1;
    }),
  )

  rotate-notify :
      (any : Bool) (db : S)
      → rotate disk m crc32 opts capture_ops (notify_triggers disk m crc32 opts capture_ops any db)
        ≡ notify_triggers disk m crc32 opts capture_ops any
            (rotate disk m crc32 opts capture_ops db)
  unfolding noted
  rotate-notify true db = rotate-noted db
  rotate-notify false db = refl

  -- What a store has apart from its files and the head of the value log.
  abbrev pub observed :
      S
      → Memtable m
        × List (Memtable m)
        × ℕ
        × Bool
        × List (ℕ × List EncEntry)
        × ℕ
        × ℕ
        × ℕ
        × ℕ
        × ℕ
        × List ℕ
  observed db = (
    db.mem, db.imms, db.visible_seqno, db.degraded, db.published, db.notified, db.flushes, db.wal,
    db.wal_syncs, db.next_file_id, db.vlog_files,
  )

  is_err {ℓ} : {A : Type ℓ} → Result A → Bool
  is_err (ok a) = false
  is_err (err e) = true

  -- The only failure of a placement is that of an append, which degrades the store.
  place_op-degraded :
      (db : S) (op : BatchOp)
      → is_err (place_op disk m crc32 opts capture_ops db op).0 ≡ true
      → (place_op disk m crc32 opts capture_ops db op).1.degraded ≡ true
  unfolding place_op is_err
  place_op-degraded db (BatchOp.put key value) h = ground arith
  place_op-degraded db (BatchOp.delete key) h = ground arith

  place_ops-degraded :
      (db : S) (ops : List BatchOp)
      → is_err (place_ops disk m crc32 opts capture_ops db ops).0 ≡ true
      → (place_ops disk m crc32 opts capture_ops db ops).1.degraded ≡ true
  unfolding place_ops is_err
  place_ops-degraded db [] h = ground arith
  place_ops-degraded db (op ∷ ops) h = ground (
    arith,
    place_op-degraded db op,
    place_ops-degraded (place_op disk m crc32 opts capture_ops db op).1 ops,
  )

  -- A sync on a degraded store shows nothing.
  sync_placed-degraded :
      (db : S) (any_vlog : Bool)
      → db.degraded ≡ true
      → observed (sync_placed disk m crc32 opts capture_ops db any_vlog).1 ≡ observed db
  unfolding sync_placed sync_head
  sync_placed-degraded db any_vlog h = ground arith

  module _ (base : ℕ) (all : List BatchOp) where
    abbrev alone : Bool → List Accepted
    alone h = record { index = 0; base = base; ops = all; has_events = h } ∷ []

    abbrev entered : List EncEntry → List Placed
    entered es = record { index = 0; base = base; entries = es } ∷ []

    -- What follows the sync of the log, the append, and the placement, in the single write.
    finished : Bool → List EncEntry → S → S
    finished h es db =
        let db5 = record (insert_batch disk m crc32 opts capture_ops db base es) {
          visible_seqno = last_seqno disk m crc32 opts capture_ops base es;
        } in
        notify_triggers disk m crc32 opts capture_ops h
          (rotate disk m crc32 opts capture_ops (publish disk m crc32 opts capture_ops db5 base es))

    finish_group-one :
        (h : Bool) (es : List EncEntry) (db : S)
        → finish_group disk m crc32 opts capture_ops (alone h) (entered es) false (none ∷ []) db
          ≡ (some (ok tt) ∷ [], finished h es db)
    unfolding finish_group finished
    finish_group-one true es db = ap (λ x. (some (ok tt) ∷ [], x)) (rotate-notify true _)
    finish_group-one false es db = refl

    logged : Bool → List EncEntry → S → Result (Unit {0}) × S
    unfolding sync_log
    logged h es db =
        and_then disk m crc32 opts capture_ops (sync_log disk m crc32 opts capture_ops db)
          (λ _ db4. (ok tt, finished h es db4))

    sync_group-one :
        (h : Bool) (es : List EncEntry) (db : S)
        → sync_group disk m crc32 opts capture_ops (alone h) false (record {
          going = entered es;
          any_vlog = false;
          results = none ∷ [];
          hard_failure = false;
          db = db;
        })
          ≡ (some (logged h es db).0 ∷ [], (logged h es db).1)
    unfolding sync_group logged fail_batches
    sync_group-one h es db =
        ground (arith, finish_group-one h es (sync_log disk m crc32 opts capture_ops db).1)

    appended : Bool → List EncEntry → S → Result (Unit {0}) × S
    unfolding append_record logged
    appended h es db =
        and_then disk m crc32 opts capture_ops
          (if leb max_batch (length (encode_batch base es))
            then (err invalid_argument, db)
            else degrading disk m crc32 opts capture_ops
                (append_record disk m crc32 opts capture_ops db (encode_batch base es)))
          (λ _ db3. logged h es db3)

    append_group-one :
        (h : Bool) (es : List EncEntry) (db : S)
        → sync_group disk m crc32 opts capture_ops
            (alone h)
            false
            (append_group disk m crc32 opts capture_ops (alone h) (entered es) (none ∷ []) db)
          ≡ (some (appended h es db).0 ∷ [], (appended h es db).1)
    unfolding append_group append_record appended sync_group from_tail fail_tail
    append_group-one h es db = ground (
      arith,
      sync_group-one h es
          (degrading disk m crc32 opts capture_ops
            (append_record disk m crc32 opts capture_ops db (encode_batch base es))).1,
    )

    -- What follows the placement, whose outcome this takes.
    placed : Bool → Result (List EncEntry × Bool) × S → Result (Unit {0}) × S
    unfolding sync_placed appended
    placed h r = and_then disk m crc32 opts capture_ops r λ (es, any_vlog) db1.
        and_then disk m crc32 opts capture_ops
          (sync_placed disk m crc32 opts capture_ops db1 any_vlog) λ _ db2. appended h es db2

  -- The group from its first phase on.
  group_rest : List Accepted → Results → S → Results × S
  unfolding place_group sync_placed append_group sync_group fail_batches
  group_rest accepted results db =
      let going = place_group disk m crc32 opts capture_ops accepted results db in
      let (r, db1) = sync_placed disk m crc32 opts capture_ops going.db going.any_vlog in
      elim r [
        | err e ↦ (fail_batches e going.going going.results, db1)
        | ok _ ↦
            sync_group disk m crc32 opts capture_ops accepted going.hard_failure
              (append_group disk m crc32 opts capture_ops accepted going.going going.results db1)
      ]

  Agree : Results × S → Result (Unit {0}) × S → Type 0
  Agree (results, db) (r, db') = (results ≡ some r ∷ []) × (observed db ≡ observed db')

  module _ (base : ℕ) (all : List BatchOp) where
    group_rest-placed :
        (h : Bool) (db db1 : S) (es : List EncEntry) (v : Bool)
        → place_ops disk m crc32 opts capture_ops db all ≡ (ok (es, v), db1)
        → group_rest (alone base all h) (none ∷ []) db ≡ (
          some (placed base all h (ok (es, v), db1)).0 ∷ [],
          (placed base all h (ok (es, v), db1)).1,
        )
    unfolding group_rest placed place_group fail_batches
    group_rest-placed h db db1 es v e =
        ground (
          arith,
          append_group-one base all h es (sync_placed disk m crc32 opts capture_ops db1 v).1,
        )

    group_rest-failed :
        (h : Bool) (db db1 : S) (e : Error)
        → place_ops disk m crc32 opts capture_ops db all ≡ (err e, db1)
        → db1.degraded ≡ true
        → ((group_rest (alone base all h) (none ∷ []) db).0 ≡ some (err e) ∷ [])
          × (observed (group_rest (alone base all h) (none ∷ []) db).1 ≡ observed db1)
    unfolding group_rest place_group fail_batches fail_tail append_group sync_group
    group_rest-failed h db db1 e p d = ground (arith, sync_placed-degraded db1 true d)

    group_rest-one :
        (h : Bool) (db : S) (r : Result (List EncEntry × Bool) × S)
        → place_ops disk m crc32 opts capture_ops db all ≡ r
        → Agree (group_rest (alone base all h) (none ∷ []) db) (placed base all h r)
    unfolding Agree placed is_err
    group_rest-one h db (ok (es, v), db1) p = rw (group_rest-placed h db db1 es v p) (refl, refl)
    group_rest-one h db (err e, db1) p =
        group_rest-failed h db db1 e p
          (subst (λ x. is_err x.0 ≡ true → x.1.degraded ≡ true) p (place_ops-degraded db all) refl)

  -- The single write after its checks, and the checks.
  module _ (ops : List BatchOp) (capture : Bool) (db : S) where
    abbrev events : List BatchOp
    events = capture_events disk m crc32 opts capture_ops ops (db.visible_seqno + 1) capture

    abbrev all_ops : List BatchOp
    all_ops = ops ++ events

    abbrev too_big : Bool
    too_big = leb max_batch (approx_size all_ops)

    abbrev no_room : Bool
    no_room = leb max_seqno (db.visible_seqno + 1 + length all_ops)

    abbrev with_events : Bool
    with_events = not (is_nil events)

    abbrev single : Result (Unit {0}) × S
    single = apply_locked disk m crc32 opts capture_ops ops capture db

    abbrev checked : List Accepted × Results
    checked = accept disk m crc32 opts capture_ops 0 (db.visible_seqno + 1) ((ops, capture) ∷ [])

    refused-eq :
        (too_big ≡ true) ⊎ (no_room ≡ true)
        → (single ≡ (err invalid_argument, db)) × (checked ≡ ([], some (err invalid_argument) ∷ []))
    unfolding apply_locked accept
    refused-eq (inl big) = elim (Bool-cases no_room) [
      | inl full ↦ (rw full refl, rw big refl)
      | inr free ↦ (rw (free, big) refl, rw big refl)
    ]
    refused-eq (inr full) = elim (Bool-cases too_big) [
      | inl big ↦ (rw full refl, rw big refl)
      | inr small ↦ (rw full refl, rw (small, full) refl)
    ]

    taken-eq :
        too_big ≡ false
        → no_room ≡ false
        → (single
            ≡ placed
                (db.visible_seqno + 1)
                all_ops
                with_events
                (place_ops disk m crc32 opts capture_ops db all_ops))
          × (checked ≡ (alone (db.visible_seqno + 1) all_ops with_events, none ∷ []))
    unfolding apply_locked accept placed appended logged finished
    taken-eq small free = (rw (free, small) refl, rw (small, free) refl)

    refused-Agree :
        (too_big ≡ true) ⊎ (no_room ≡ true) → Agree (group_rest checked.0 checked.1 db) single
    unfolding group_rest Agree place_group append_group sync_group sync_placed
    refused-Agree h = rw ((refused-eq h).0, (refused-eq h).1) (refl, refl)

    apply_group_locked-Agree : Agree (group_rest checked.0 checked.1 db) single
    unfolding Agree
    apply_group_locked-Agree = elim (Bool-cases too_big) [
      | inl big ↦ refused-Agree (inl big)
      | inr small ↦ elim (Bool-cases no_room) [
        | inl full ↦ refused-Agree (inr full)
        | inr free ↦
            rw ((taken-eq small free).0, (taken-eq small free).1)
              (group_rest-one (db.visible_seqno + 1) all_ops with_events db
                (place_ops disk m crc32 opts capture_ops db all_ops) refl)
      ]
    ]

    -- Whatever the disk answers, a group of one batch gives its batch the result of the single
    -- write, and leaves the store that the single write leaves in the memtables, what is
    -- visible, whether it is degraded, what was published, the wake-ups, the log and the
    -- counts; only the files and the head of the value log may differ, where the placement
    -- failed and the group syncs nevertheless.
    pub apply_group_locked-one :
        ((apply_group_locked disk m crc32 opts capture_ops ((ops, capture) ∷ []) db).0
          ≡ some (apply_locked disk m crc32 opts capture_ops ops capture db).0 ∷ [])
        × (observed (apply_group_locked disk m crc32 opts capture_ops ((ops, capture) ∷ []) db).1
            ≡ observed (apply_locked disk m crc32 opts capture_ops ops capture db).1)
    unfolding apply_group_locked group_rest Agree
    apply_group_locked-one = apply_group_locked-Agree
