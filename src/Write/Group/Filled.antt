-- ===== src/Write/Group/Filled.antt =====
-- crates/fluent31/src/db.rs: the results of `apply_group_locked`, which unwraps each with `expect`.
use fluent.Prelude.{
  ℕ, ◌+◌, Bool, List, [], ◌∷◌, length, get_elem?, none, some, ◌≡◌, ◌≢◌, sym, ◌⊎◌, inl, inr, subst,
  arith,
}
use fluent.Result.{Result, Result-cases, ok, err, Error}
use fluent.Memtable.Skiplist.{SkipMap}
use fluent.Batch.{BatchOp}
use fluent.Write.{Disk, Options, sync_log, sync_placed}
use fluent.Write.Group.{
  Results, Batch, Store, Accepted, Placed, Phase, apply_group_locked, accept, place_group,
  append_group, sync_group, finish_group, insert_group, fail_batches, fill,
}
use fluent.Write.Group.Open.{Open, fill-Open, fail_batches-Open, InBatches, InPlaced}
use fluent.Write.Group.Indices.{OpenFrom, Checked, accept-Checked}
use fluent.Write.Group.Phases.{
  PhaseOpen, place_group-PhaseOpen, place_group-FirstOf, append_group-PhaseOpen,
}

module _ (disk : Disk) (m : SkipMap) (crc32 : List ℕ → ℕ) (opts : Options)
    (capture_ops : List BatchOp → ℕ → List BatchOp) where
  abbrev S : Type 0
  S = Store disk m crc32 opts capture_ops

  insert_group-Open :
      (n : ℕ) (ps : List Placed) (results : Results) (db : S)
      → Open n results (InPlaced ps)
      → Open n (insert_group disk m crc32 opts capture_ops ps results db).0 (λ _. ⊥)
  unfolding insert_group InPlaced
  insert_group-Open n [] results db o = o
  insert_group-Open n (p ∷ ps) results db o =
      insert_group-Open n ps (fill p.index (ok tt) results) _
        (fill-Open results p.index (ok tt) (λ j ne. elim [ inl e ↦ absurd (ne e) | inr h ↦ h ]) o)

  closed :
      (n : ℕ) (results : Results) (ps : List Placed)
      → Open n results (λ j. ⊥ ⊎ InPlaced ps j)
      → Open n results (InPlaced ps)
  closed n results ps (len, open_at) =
      (len, λ j h. elim (open_at j h) [ inl x ↦ elim x [ ] | inr i ↦ i ])

  sync_group-Open :
      (n : ℕ) (accepted : List Accepted) (hard any_vlog hard' : Bool) (ps : List Placed)
      (results : Results) (db : S)
      → Open n results (InPlaced ps)
      → Open n
          (sync_group disk m crc32 opts capture_ops accepted hard (record {
            going = ps;
            any_vlog = any_vlog;
            results = results;
            hard_failure = hard';
            db = db;
          })).0
          (λ _. ⊥)
  unfolding sync_group finish_group InPlaced
  sync_group-Open n accepted hard any_vlog hard' [] results db o = o
  sync_group-Open n accepted hard any_vlog hard' (p ∷ ps) results db o =
      elim (Result-cases (sync_log disk m crc32 opts capture_ops db).0) [
        | inl (_, e) ↦ rw e (insert_group-Open n (p ∷ ps) results _ o)
        | inr (e', e) ↦ rw e (fail_batches-Open e' (p ∷ ps) results o)
      ]

  module _ (batches : List (Batch disk m crc32 opts capture_ops)) (db : S) where
    abbrev checked : List Accepted × Results
    checked = accept disk m crc32 opts capture_ops 0 (db.visible_seqno + 1) batches

    abbrev placed : Phase disk m crc32 opts capture_ops
    placed = place_group disk m crc32 opts capture_ops checked.0 checked.1 db

    abbrev synced : Result (Unit {0}) × S
    synced = sync_placed disk m crc32 opts capture_ops placed.db placed.any_vlog

    abbrev appended : Phase disk m crc32 opts capture_ops
    appended =
        append_group disk m crc32 opts capture_ops checked.0 placed.going placed.results synced.1

    apply_group_locked-synced :
        synced.0 ≡ ok tt
        → apply_group_locked disk m crc32 opts capture_ops batches db
          ≡ sync_group disk m crc32 opts capture_ops checked.0 placed.hard_failure appended
    unfolding apply_group_locked
    apply_group_locked-synced e = ground arith

    apply_group_locked-unsynced :
        (e : Error)
        → synced.0 ≡ err e
        → apply_group_locked disk m crc32 opts capture_ops batches db
          ≡ (fail_batches e placed.going placed.results, synced.1)
    unfolding apply_group_locked
    apply_group_locked-unsynced e p = ground arith

    placed-Open : Open (length batches) placed.results (InPlaced placed.going)
    unfolding PhaseOpen Checked OpenFrom
    placed-Open =
        let (len, asc, open_at) =
          accept-Checked disk m crc32 opts capture_ops 0 (db.visible_seqno + 1) batches in
        closed (length batches) placed.results placed.going (
          place_group-PhaseOpen disk m crc32 opts capture_ops (length batches) (λ _. ⊥) checked.0
            checked.1 db
            (len, λ j h. inr (subst (InBatches checked.0) (omega arith) (open_at j h))))

    appended-Open : Open (length batches) appended.results (InPlaced appended.going)
    unfolding PhaseOpen Checked
    appended-Open = closed (length batches) appended.results appended.going (
        append_group-PhaseOpen disk m crc32 opts capture_ops (length batches) (λ _. ⊥) [] checked.0
          placed.going placed.results synced.1
          (accept-Checked disk m crc32 opts capture_ops 0 (db.visible_seqno + 1) batches).1
          (place_group-FirstOf disk m crc32 opts capture_ops checked.0 checked.1 db)
          (placed-Open.0, λ j h. inr (placed-Open.1 j h)))

    apply_group_locked-Open :
        Open
          (length batches)
          (apply_group_locked disk m crc32 opts capture_ops batches db).0
          (λ _. ⊥)
    apply_group_locked-Open = elim (Result-cases synced.0) [
      | inl (_, e) ↦
          subst (λ x. Open (length batches) x.0 (λ _. ⊥)) (sym (apply_group_locked-synced e))
            (sync_group-Open (length batches) checked.0 placed.hard_failure appended.any_vlog
              appended.hard_failure appended.going appended.results appended.db appended-Open)
      | inr (e', e) ↦
          subst (λ x. Open (length batches) x.0 (λ _. ⊥)) (sym (apply_group_locked-unsynced e' e))
            (fail_batches-Open e' placed.going placed.results placed-Open)
    ]

  -- Whatever the disk answers, a group write gives each of its batches a result, so that
  -- unwrapping them never panics.
  pub apply_group_locked-filled :
      (batches : List (Batch disk m crc32 opts capture_ops)) (db : S)
      → (length (apply_group_locked disk m crc32 opts capture_ops batches db).0 ≡ length batches)
        × ((j : ℕ)
            → get_elem? (apply_group_locked disk m crc32 opts capture_ops batches db).0 j
              ≢ some none)
  apply_group_locked-filled batches db = apply_group_locked-Open batches db
