-- ===== src/Txn/Commit.antt =====
-- crates/fluent31/src/txn.rs: the validation at commit.
use fluent.Prelude.{
  ℕ, ◌+◌, ◌≤◌, ◌<◌, ltb, arith, ◌≡◌, ◌⊎◌, refl, ap, ◌∙◌, sym, ◌==◌, Bool, true, false, not,
  if◌then◌else◌, Bool-cases, inl, inr, List, [], ◌∷◌, ◌++◌, length, map, Option, none, some, All,
}
use fluent.Result.{Result, Error, ok, err, conflict, ◌>>=◌, Result-cases}
use fluent.Types.{ValueKind}
use fluent.Batch.{BatchOp}
use fluent.Txn.{Database, Txn, commit, conflicted, is_newer, op_of}

-- The keys that a transaction wrote, and those that it locked.
abbrev pub touched : Txn → List (List ℕ)
touched t = map (λ e. e.0) t.writes ++ map (λ e. e.0) t.locks

abbrev pub write_of : List ℕ × Option (List ℕ) → BatchOp
write_of (key, none) = BatchOp.delete key
write_of (key, some value) = BatchOp.put key value

module _ (db : Database) where
  write_of_lem : (ws : List (List ℕ × Option (List ℕ))) → map (op_of db) ws ≡ map write_of ws
  write_of_lem [] = refl
  write_of_lem ((key, none) ∷ ws) = ap (λ l. BatchOp.delete key ∷ l) (write_of_lem ws)
  write_of_lem ((key, some v) ∷ ws) = ap (λ l. BatchOp.put key v ∷ l) (write_of_lem ws)

  -- The key has no version, or the newest one is visible at the snapshot.
  abbrev pub Current : db.State → ℕ → List ℕ → Type 0
  Current d snap key =
      (db.latest d key ≡ ok none)
      ⊎ ((seq : ℕ) × (kind : ValueKind) × (db.latest d key ≡ ok (some (seq, kind))) × (seq ≤ snap))

  -- The newest version came after the snapshot.
  abbrev pub Overtaken : db.State → ℕ → List ℕ → Type 0
  Overtaken d snap key =
      (seq : ℕ) × (kind : ValueKind) × (db.latest d key ≡ ok (some (seq, kind))) × (snap < seq)

  found-Current :
      (d : db.State) (snap : ℕ) (key : List ℕ) (v : Option (ℕ × ValueKind))
      → db.latest d key ≡ ok v
      → is_newer db snap v ≡ false
      → Current d snap key
  found-Current d snap key none found old = inl found
  found-Current d snap key (some (seq, kind)) found old =
      inr (seq, kind, found, ground (arith, old))

  -- What validation finds: every key is current, or some key is not, or a read failed.
  conflicted-Current :
      (d : db.State) (snap : ℕ) (keys : List (List ℕ))
      → conflicted db d snap keys ≡ ok false
      → All (Current d snap) keys
  unfolding conflicted
  conflicted-Current d snap [] h = tt
  conflicted-Current d snap (key ∷ keys) h = elim (Result-cases (db.latest d key)) [
    | inr (e, bad) ↦ cc (bad, h)
    | inl (v, found) ↦ elim (Bool-cases (is_newer db snap v)) [
      | inl newer ↦ absurd (impossible (rw (found, newer) at h))
      | inr current ↦ (
        found-Current d snap key v found current,
        conflicted-Current d snap keys (rw (found, current) at h),
      )
    ]
  ]
    where
      impossible : ◌≡◌ {A = Result Bool} (ok true) (ok false) → ⊥
      impossible e = cc

  Current-first :
      (d : db.State) (snap : ℕ) (key : List ℕ) (keys : List (List ℕ))
      → Current d snap key
      → conflicted db d snap (key ∷ keys) ≡ conflicted db d snap keys
  unfolding conflicted
  Current-first d snap key keys (inl found) = rw found refl
  Current-first d snap key keys (inr (seq, kind, found, old)) =
      let not_newer : ltb snap seq ≡ false = ground (arith, old) in rw (found, not_newer) refl

  Current-conflicted :
      (d : db.State) (snap : ℕ) (keys : List (List ℕ))
      → All (Current d snap) keys
      → conflicted db d snap keys ≡ ok false
  Current-conflicted d snap [] h = unfold conflicted in refl
  Current-conflicted d snap (key ∷ keys) (c, h) =
      Current-first d snap key keys c ∙ Current-conflicted d snap keys h

  -- A key with a newer version, behind current ones, makes a conflict.
  Overtaken-conflicted :
      (d : db.State) (snap : ℕ) (before : List (List ℕ)) (key : List ℕ) (after : List (List ℕ))
      → All (Current d snap) before
      → Overtaken d snap key
      → conflicted db d snap (before ++ (key ∷ after)) ≡ ok true
  Overtaken-conflicted d snap [] key after h (seq, kind, found, late) =
      unfold conflicted in
      let newer : ltb snap seq ≡ true = ground (arith, late) in rw (found, newer) refl
  Overtaken-conflicted d snap (b ∷ before) key after (c, h) late =
      Current-first d snap b (before ++ (key ∷ after)) c
      ∙ Overtaken-conflicted d snap before key after h late

  -- The writes of a transaction, on a database.
  abbrev pub applied : db.State → Txn → Result db.State
  applied d t =
      if length t.writes == 0
      then ok d
      else db.apply_locked d (map write_of t.writes) (not t.system)

  applied_lem :
      (d : db.State) (ws : List (List ℕ × Option (List ℕ))) (capture : Bool)
      → (if not (length (map (op_of db) ws) == 0)
          then db.apply_locked d (map (op_of db) ws) capture
          else ok d)
        ≡ (if length ws == 0 then ok d else db.apply_locked d (map write_of ws) capture)
  applied_lem d [] capture = refl
  applied_lem d (w ∷ ws) capture =
      let some_op : (length (map (op_of db) (w ∷ ws)) == 0) ≡ false = ground arith in
      let some_write : (length (w ∷ ws) == 0) ≡ false = ground arith in
      rw (some_op, some_write)
        (ap (λ (l : List BatchOp). db.apply_locked d l capture) (write_of_lem (w ∷ ws)))

  module _ (d d1 : db.State) (t : Txn) (direct : db.sync_always ≡ false)
      (some_keys : length t.writes + length t.locks == 0 ≡ false)
      (healthy : db.check_bg_error d ≡ ok tt) (space : db.wait_for_space d ≡ ok d1) where
    commit_lem : commit db d t ≡ (
        conflicted db d1 t.snap (touched t) >>= λ newer.
        if newer then err conflict else applied d1 t)
    unfolding commit
    commit_lem =
        rw (some_keys, healthy, space, direct)
          (ap
            (λ (r : Result db.State).
              conflicted db d1 t.snap (touched t) >>= λ newer. if newer then err conflict else r)
            (applied_lem d1 t.writes (not t.system)))

    -- A commit on the direct path, of a transaction that wrote or locked some key, validates every
    -- key that it wrote and every key that it locked: where each has no version or a newest one that
    -- is visible at the snapshot, it applies the writes, as puts and deletes; where the newest
    -- version of a key, behind such ones, came after the snapshot, it is a conflict; and it succeeds
    -- only in the first case.
    pub commit_validates :
        (All (Current d1 t.snap) (touched t) → commit db d t ≡ applied d1 t)
        × ((before : List (List ℕ)) (key : List ℕ) (after : List (List ℕ))
            → touched t ≡ before ++ (key ∷ after)
            → All (Current d1 t.snap) before
            → Overtaken d1 t.snap key
            → commit db d t ≡ err conflict)
        × ((d' : db.State) → commit db d t ≡ ok d' → All (Current d1 t.snap) (touched t))
    commit_validates = (
      λ current. commit_lem ∙ rw (Current-conflicted d1 t.snap (touched t) current) refl,
      λ before key after keys current late.
          commit_lem ∙ rw (keys, Overtaken-conflicted d1 t.snap before key after current late) refl,
      λ d' done.
          succeeded d' (sym commit_lem ∙ done) (Result-cases (conflicted db d1 t.snap (touched t))),
    )
      where
        succeeded :
            (d' : db.State)
            → (conflicted db d1 t.snap (touched t) >>= λ newer.
                if newer then err conflict else applied d1 t)
              ≡ ok d'
            → ((b : Bool) × (conflicted db d1 t.snap (touched t) ≡ ok b))
              ⊎ ((e : Error) × (conflicted db d1 t.snap (touched t) ≡ err e))
            → All (Current d1 t.snap) (touched t)
        succeeded d' h (inl (false, e)) = conflicted-Current d1 t.snap (touched t) e
        succeeded d' h (inl (true, e)) = cc (e, h)
        succeeded d' h (inr (x, e)) = cc (e, h)
