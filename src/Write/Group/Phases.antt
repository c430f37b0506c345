-- ===== src/Write/Group/Phases.antt =====
-- crates/fluent31/src/db.rs: the results that phases 1 and 3 of `apply_group_locked` leave open.
use mathlib.Core.List.{append_assoc}
use fluent.Prelude.{
  ℕ, leb, Bool, true, false, List, [], ◌∷◌, ◌++◌, length, ◌≡◌, ◌∙◌, refl, ap, sym, ◌⊎◌, inl, inr,
  subst, Bool-cases, arith,
}
use fluent.Result.{Result, Result-cases, ok, err, Error, invalid_argument}
use fluent.Memtable.Skiplist.{SkipMap}
use fluent.Batch.{BatchOp, EncEntry, encode_batch}
use fluent.Write.{Disk, Options, max_batch, place_ops, append_record, degrading}
use fluent.Write.Group.{
  Results, before, stopped, Store, Accepted, Placed, Phase, place_group, append_group, fail_tail,
  from_tail, fill,
}
use fluent.Write.Group.Open.{
  Open, fill-Open, fail_tail-Open, InBatches, InPlaced, drop_first, to_left, to_right,
}
use fluent.Write.Group.Indices.{FirstOf, FirstOf-In, Ascends, from_tail-append}

module _ (disk : Disk) (m : SkipMap) (crc32 : List ℕ → ℕ) (opts : Options)
    (capture_ops : List BatchOp → ℕ → List BatchOp) where
  abbrev S : Type 0
  S = Store disk m crc32 opts capture_ops

  unfoldable pub PhaseOpen : ℕ → (ℕ → Type 0) → Phase disk m crc32 opts capture_ops → Type 0
  PhaseOpen n Q phase = Open n phase.results (λ j. Q j ⊎ InPlaced phase.going j)

  module _ (a : Accepted) (rest : List Accepted) (results : Results) (db : S) where
    abbrev placing : Result (List EncEntry × Bool) × S
    placing = place_ops disk m crc32 opts capture_ops db a.ops

    place_group-ok :
        (r : List EncEntry × Bool)
        → placing.0 ≡ ok r
        → place_group disk m crc32 opts capture_ops (a ∷ rest) results db
          ≡ before disk m crc32 opts capture_ops
              (record { index = a.index; base = a.base; entries = r.0 })
              r.1
              (place_group disk m crc32 opts capture_ops rest results placing.1)
    unfolding place_group
    place_group-ok r e = ground arith

    place_group-err :
        (e : Error)
        → placing.0 ≡ err e
        → place_group disk m crc32 opts capture_ops (a ∷ rest) results db
          ≡ stopped disk m crc32 opts capture_ops true true
              (fail_tail (fill a.index (err e) results) rest)
              placing.1
    unfolding place_group
    place_group-err e p = ground arith

  module _ (n : ℕ) where
    before-PhaseOpen :
        (Q : ℕ → Type 0) (p : Placed) (in_vlog : Bool) (phase : Phase disk m crc32 opts capture_ops)
        → PhaseOpen n (λ j. Q j ⊎ (j ≡ p.index)) phase
        → PhaseOpen n Q (before disk m crc32 opts capture_ops p in_vlog phase)
    unfolding PhaseOpen InPlaced
    before-PhaseOpen Q p in_vlog phase (len, open_at) = (len, λ j h. to_right (open_at j h))

    -- A batch that fails, with all those after it.
    stopped-PhaseOpen :
        (Q : ℕ → Type 0) (i : ℕ) (e : Error) (tail : List Accepted) (hard any_vlog : Bool)
        (results : Results) (db : S)
        → Open n results (λ j. Q j ⊎ (j ≡ i) ⊎ InBatches tail j)
        → PhaseOpen n Q (
            stopped disk m crc32 opts capture_ops hard any_vlog
              (fail_tail (fill i (err e) results) tail)
              db)
    unfolding PhaseOpen InPlaced
    stopped-PhaseOpen Q i e tail hard any_vlog results db o =
        let failed =
          fail_tail-Open (fill i (err e) results) tail
            (fill-Open results i (err e) (λ j ne h. drop_first h ne) o) in
        (failed.0, λ j h. inl (failed.1 j h))

    pub place_group-PhaseOpen :
        (Q : ℕ → Type 0) (accepted : List Accepted) (results : Results) (db : S)
        → Open n results (λ j. Q j ⊎ InBatches accepted j)
        → PhaseOpen n Q (place_group disk m crc32 opts capture_ops accepted results db)
    unfolding place_group PhaseOpen InPlaced InBatches
    place_group-PhaseOpen Q [] results db o = o
    place_group-PhaseOpen Q (a ∷ rest) results db (len, open_at) =
        elim (Result-cases (placing a rest results db).0) [
          | inl (r, e) ↦ subst (PhaseOpen n Q) (sym (place_group-ok a rest results db r e)) (
              before-PhaseOpen Q (record { index = a.index; base = a.base; entries = r.0 }) r.1
                (place_group disk m crc32 opts capture_ops rest results
                  (placing a rest results db).1)
                (place_group-PhaseOpen (λ j. Q j ⊎ (j ≡ a.index)) rest results
                  (placing a rest results db).1 (len, λ j h. to_left (open_at j h))))
          | inr (e', e) ↦ subst (PhaseOpen n Q) (sym (place_group-err a rest results db e' e)) (
              stopped-PhaseOpen Q a.index e' rest true true results (placing a rest results db).1
                (len, open_at))
        ]

  pub place_group-FirstOf :
      (accepted : List Accepted) (results : Results) (db : S)
      → FirstOf (place_group disk m crc32 opts capture_ops accepted results db).going accepted
  unfolding place_group FirstOf
  place_group-FirstOf [] results db = tt
  place_group-FirstOf (a ∷ rest) results db = elim (Result-cases (placing a rest results db).0) [
    | inl (r, e) ↦
        subst (λ x. FirstOf x.going (a ∷ rest)) (sym (place_group-ok a rest results db r e))
          (refl, place_group-FirstOf rest results (placing a rest results db).1)
    | inr (e', e) ↦
        subst (λ x. FirstOf x.going (a ∷ rest)) (sym (place_group-err a rest results db e' e)) tt
  ]

  module _ (accepted : List Accepted) (p : Placed) (ps : List Placed) (results : Results)
      (db : S) where
    abbrev appending : Result (Unit {0}) × S
    appending =
        degrading disk m crc32 opts capture_ops
          (append_record disk m crc32 opts capture_ops db (encode_batch p.base p.entries))

    abbrev oversized : Bool
    oversized = leb max_batch (length (encode_batch p.base p.entries))

    abbrev failing : Error → Results
    failing e = fail_tail (fill p.index (err e) results) (from_tail p.index accepted)

    append_group-big :
        oversized ≡ true
        → append_group disk m crc32 opts capture_ops accepted (p ∷ ps) results db
          ≡ stopped disk m crc32 opts capture_ops false false (failing invalid_argument) db
    unfolding append_group
    append_group-big h = rw h refl

    append_group-ok :
        oversized ≡ false
        → appending.0 ≡ ok tt
        → append_group disk m crc32 opts capture_ops accepted (p ∷ ps) results db
          ≡ before disk m crc32 opts capture_ops p false
              (append_group disk m crc32 opts capture_ops accepted ps results appending.1)
    unfolding append_group
    append_group-ok h e = rw h (rw e refl)

    append_group-err :
        (e : Error)
        → oversized ≡ false
        → appending.0 ≡ err e
        → append_group disk m crc32 opts capture_ops accepted (p ∷ ps) results db
          ≡ stopped disk m crc32 opts capture_ops true false (failing e) appending.1
    unfolding append_group
    append_group-err e h p = rw h (rw p refl)

  failing-PhaseOpen :
      (n : ℕ) (Q : ℕ → Type 0) (pre : List Accepted) (a : Accepted) (tail : List Accepted)
      (p : Placed) (ps : List Placed) (results : Results) (db db' : S) (e : Error) (hard : Bool)
      → Ascends 0 (pre ++ a ∷ tail)
      → FirstOf (p ∷ ps) (a ∷ tail)
      → Open n results (λ j. Q j ⊎ InPlaced (p ∷ ps) j)
      → PhaseOpen n Q (
          stopped disk m crc32 opts capture_ops hard false
            (failing (pre ++ a ∷ tail) p ps results db e)
            db')
  unfolding FirstOf InPlaced
  failing-PhaseOpen n Q pre a tail p ps results db db' e hard asc (same, first) (len, open_at) =
      let behind : from_tail p.index (pre ++ a ∷ tail) ≡ tail =
        ap (λ i. from_tail i (pre ++ a ∷ tail)) same ∙ from_tail-append 0 pre a tail asc in
      subst
        (λ later. PhaseOpen n Q (
          stopped disk m crc32 opts capture_ops hard false
            (fail_tail (fill p.index (err e) results) later) db'))
        (sym behind)
        (stopped-PhaseOpen n Q p.index e tail hard false results db' (
          len,
          λ j h. elim (open_at j h) [
            | inl q ↦ inl q
            | inr (inl i) ↦ inr (inl i)
            | inr (inr r) ↦ inr (inr (FirstOf-In ps tail j first r))
          ],
        ))

  pub append_group-PhaseOpen :
      (n : ℕ) (Q : ℕ → Type 0) (pre tail : List Accepted) (ps : List Placed) (results : Results)
      (db : S)
      → Ascends 0 (pre ++ tail)
      → FirstOf ps tail
      → Open n results (λ j. Q j ⊎ InPlaced ps j)
      → PhaseOpen n Q (append_group disk m crc32 opts capture_ops (pre ++ tail) ps results db)
  unfolding append_group PhaseOpen InPlaced FirstOf
  append_group-PhaseOpen n Q pre tail [] results db asc first o = o
  append_group-PhaseOpen n Q pre [] (p ∷ ps) results db asc first o = elim first [ ]
  append_group-PhaseOpen n Q pre (a ∷ tail) (p ∷ ps) results db asc first (len, open_at) =
      let all = pre ++ a ∷ tail in
      let failed = failing-PhaseOpen n Q pre a tail p ps results db in
      let assoc : (pre ++ a ∷ []) ++ tail ≡ all = append_assoc pre (a ∷ []) tail in
      elim (Bool-cases (oversized all p ps results db)) [
        | inl big ↦
            subst (PhaseOpen n Q) (sym (append_group-big all p ps results db big))
              (failed db invalid_argument false asc first (len, open_at))
        | inr small ↦ elim (Result-cases (appending all p ps results db).0) [
          | inl (_, e) ↦ subst (PhaseOpen n Q) (sym (append_group-ok all p ps results db small e)) (
              before-PhaseOpen n Q p false
                (append_group disk m crc32 opts capture_ops all ps results
                  (appending all p ps results db).1)
                (subst
                  (λ acc.
                    PhaseOpen n (λ j. Q j ⊎ (j ≡ p.index))
                      (append_group disk m crc32 opts capture_ops acc ps results
                        (appending all p ps results db).1))
                  assoc
                  (append_group-PhaseOpen n (λ j. Q j ⊎ (j ≡ p.index)) (pre ++ a ∷ []) tail ps
                    results (appending all p ps results db).1 (subst (Ascends 0) (sym assoc) asc)
                    first.1 (len, λ j h. to_left (open_at j h)))))
          | inr (e', e) ↦
              subst (PhaseOpen n Q) (sym (append_group-err all p ps results db e' small e))
                (failed (appending all p ps results db).1 e' true asc first (len, open_at))
        ]
      ]
