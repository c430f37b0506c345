-- ===== src/Compaction/Slices.antt =====
-- crates/fluent31/src/compaction.rs: a rewrite job, slice by slice, comes to its end with what the rule
-- keeps.
use mathlib.Core.List.{append_assoc, append-nil}
use fluent.Prelude.{
  subst, ◌&&◌, ℕ, zero, suc, ◌+◌, ◌≤◌, ◌<◌, leb, max, ◌≡◌, refl, sym, ap, ◌∙◌, arith, Bool-cases,
  inl, inr, Bool, true, false, List, [], ◌∷◌, ◌++◌, length, reverse, All, Option, none, some,
}
use fluent.Result.{ok}
use fluent.Types.{ValueKind, put, ReprRef, decode_repr, ikey_ukey, ikey_kind}
use fluent.Iter.{Entry, InternalIterator}
use fluent.Iter.Walk.{Walk}
use fluent.Table.Builder.{TableBuilder}
use fluent.Version.{Run}
use fluent.Compaction.{
  saturating_add, Options, Finished, older_may_contain, new_user_key, slice_loop, finish_last,
  run_slice, run_slices, new_job,
}
use fluent.Compaction.Rule.{compacted}
use fluent.Compaction.Takes.{AJob, last_of, judged, take_entry-Took}
use fluent.Compaction.Emits.{
  no_table, verdict, only_if, compacted-verdict, Emitted, Holds, close_table,
}

-- An entry that the loop takes without an error.
abbrev pub IsReadable : Entry → Type 0
IsReadable e =
    (kind : ValueKind) × (ikey_kind e.0 ≡ ok kind)
    × (kind ≡ put → (repr : ReprRef) × (decode_repr e.1 ≡ ok repr))

module _ (crc32 : List ℕ → ℕ) (compress : List ℕ → List ℕ) (times_0_69 : ℕ → ℕ) (opts : Options)
    (I : InternalIterator) (w : Walk I false) (may : List ℕ → Bool) (older : List Run)
    (reads : (u : List ℕ) → older_may_contain older u ≡ ok (may u)) where
  abbrev Jobs : Type 0
  Jobs = AJob crc32 compress times_0_69 opts I

  -- The job stands at the first of the entries that are left, and comes to hold `total` with them.
  record Stands (wm : ℕ) (total : List Entry) (rest : List Entry) (j : Jobs) : Type 0 where
    done : List Entry
    ahead : w.Ahead j.merge rest
    emitted : Emitted crc32 compress times_0_69 opts I j.tables j.builder done
    same_older : j.older ≡ older
    same_watermark : j.watermark ≡ wm
    left :
        done
          ++ compacted may wm
              (last_of crc32 compress times_0_69 opts I j.have_key j.cur_ukey)
              j.kept_le_w
              rest
        ≡ total

  left_behind :
      (done : List Entry) (wm : ℕ) (e : Entry) (rest : List Entry) (W : ℕ)
      (last last' : Option (List ℕ)) (kept kept' : Bool) {total : List Entry}
      → W ≡ wm
      → last' ≡ some (ikey_ukey e.0)
      → kept' ≡ (verdict may W last kept e.0).1
      → done ++ compacted may wm last kept (e ∷ rest) ≡ total
      → (done ++ only_if (verdict may W last kept e.0).0 e) ++ compacted may wm last' kept' rest
        ≡ total
  left_behind done wm e rest W last last' kept kept' same key k left =
      append_assoc done (only_if (verdict may W last kept e.0).0 e)
        (compacted may wm last' kept' rest)
      ∙ ap (λ (x : List Entry). done ++ x)
          (rw (key, k, same) (sym (compacted-verdict may wm last kept e rest)))
      ∙ left

  module _ (wm : ℕ) (total : List Entry) where
    advance :
        (fuel processed : ℕ) (j : Jobs) (e : Entry) (rest : List Entry)
        → IsReadable e
        → Stands wm total (e ∷ rest) j
        → (leb (max opts.compaction_slice_bytes 1) processed
            && new_user_key crc32 compress times_0_69 opts I j (I.ikey j.merge))
          ≡ false
        → (p' : ℕ) × (j' : Jobs) × (slice_loop crc32 compress times_0_69 opts I
              (suc fuel)
              processed
              j
            ≡ slice_loop crc32 compress times_0_69 opts I fuel p' j')
          × Stands wm total rest j'
    unfolding slice_loop
    advance fuel processed j e rest (kind, known, decodes) s more =
        let (v, key, val) = w.here j.merge e rest s.ahead in
        let (it', moved, ahead) = w.step j.merge e rest s.ahead in
        let known_older : older_may_contain j.older (ikey_ukey e.0) ≡ ok (may (ikey_ukey e.0)) =
          rw s.same_older (reads (ikey_ukey e.0)) in
        let (j1, took, t) =
          take_entry-Took crc32 compress times_0_69 opts I may j e s.done kind known decodes
            known_older s.emitted in
        let moved1 : I.next j1.merge ≡ ok it' = ap I.next t.same_merge ∙ moved in
        (
          saturating_add processed (saturating_add (length e.0) (length e.1)),
          record j1 { merge = it' },
          rw (v, more, key, val, took, moved1) refl,
          record {
            done =
                s.done
                ++ only_if
                    (judged crc32 compress times_0_69 opts I may j e s.done kind known decodes
                      known_older s.emitted).0
                    e;
            ahead = ahead;
            emitted = t.emitted;
            same_older = t.same_older ∙ s.same_older;
            same_watermark = t.same_watermark ∙ s.same_watermark;
            left =
                left_behind s.done wm e rest j.watermark _ _ _ _ s.same_watermark t.same_key.0
                  t.same_key.1 s.left;
          },
        )

    abbrev counted : Jobs → Jobs
    counted j = record j { slices = j.slices + 1 }

    counts :
        (j : Jobs) (rest : List Entry) → Stands wm total rest j → Stands wm total rest (counted j)
    counts j rest s = record {
      done = s.done;
      ahead = s.ahead;
      emitted = s.emitted;
      same_older = s.same_older;
      same_watermark = s.same_watermark;
      left = s.left;
    }

    -- Where a slice stops: at the end, or before.
    record Stops (n : ℕ) (flag : Bool) (j : Jobs) : Type 0 where
      rest : List Entry
      stands : Stands wm total rest j
      readable : All IsReadable rest
      fewer : length rest ≤ n
      at_end : flag ≡ true → rest ≡ []

    loop-Stops :
        (fuel processed : ℕ) (rest : List Entry) (j : Jobs)
        → length rest < fuel
        → All IsReadable rest
        → Stands wm total rest j
        → (flag : Bool) × (j' : Jobs) × (slice_loop crc32 compress times_0_69 opts I fuel processed
              j
            ≡ ok (flag, j'))
          × Stops (length rest) flag j'
    unfolding slice_loop
    loop-Stops zero processed rest j h r s = elim h [ ]
    loop-Stops (suc fuel) processed [] j h r s = (
      true,
      j,
      rw (w.ended j.merge s.ahead) refl,
      record { rest = []; stands = s; readable = r; fewer = omega arith; at_end = λ _. refl },
    )
    loop-Stops (suc fuel) processed (e ∷ rest) j h (r, rs) s =
        elim (Bool-cases (
          leb (max opts.compaction_slice_bytes 1) processed
          && new_user_key crc32 compress times_0_69 opts I j (I.ikey j.merge))) [
            | inl spent ↦ (
              false,
              j,
              rw ((w.here j.merge e rest s.ahead).0, spent) refl,
              record {
                rest = e ∷ rest;
                stands = s;
                readable = (r, rs);
                fewer = omega arith;
                at_end = λ no. cc;
              },
            )
            | inr going ↦
                let (p', j1, goes, s1) = advance fuel processed j e rest r s going in
                let (flag, j', ends, stops) = loop-Stops fuel p' rest j1 (omega arith) rs s1 in
                (
                  flag,
                  j',
                  goes ∙ ends,
                  record {
                    rest = stops.rest;
                    stands = stops.stands;
                    readable = stops.readable;
                    fewer = omega (arith, stops.fewer);
                    at_end = stops.at_end;
                  },
                )
          ]

    -- The first entry of a slice is taken whatever the budget.
    slice_takes :
        (fuel : ℕ) (e : Entry) (rest : List Entry) (j : Jobs)
        → length rest < fuel
        → All IsReadable (e ∷ rest)
        → Stands wm total (e ∷ rest) j
        → (flag : Bool) × (j' : Jobs) × (slice_loop crc32 compress times_0_69 opts I (suc fuel) 0 j
            ≡ ok (flag, j'))
          × Stops (length rest) flag j'
    slice_takes fuel e rest j h (r, rs) s =
        let (p', j1, goes, s1) = advance fuel 0 j e rest r s (ground arith) in
        let (flag, j', ends, stops) = loop-Stops fuel p' rest j1 h rs s1 in
        (flag, j', goes ∙ ends, stops)

    -- What a job that is done has written.
    abbrev Wrote : Jobs → Type 0
    Wrote j = Holds crc32 compress times_0_69 opts I j.tables total

    whole :
        (tables : List Finished) (es : List Entry)
        → Emitted crc32 compress times_0_69 opts I tables none es
        → es ≡ total
        → Holds crc32 compress times_0_69 opts I tables total
    whole tables es h e =
        subst (Holds crc32 compress times_0_69 opts I tables)
          (sym (append-nil h.finished)
            ∙ ap (λ (x : List Entry). h.finished ++ reverse x) (sym h.building)
            ∙ h.all
            ∙ e)
          h.holds

    finish_last-Wrote :
        (j : Jobs) (tables : List Finished) (builder : Option (ℕ × TableBuilder)) (es : List Entry)
        → Emitted crc32 compress times_0_69 opts I tables builder es
        → es ≡ total
        → Wrote (
            finish_last crc32 compress times_0_69 opts I
              (record j { tables = tables; builder = builder }))
    finish_last-Wrote j tables none es h e = whole tables es h e
    finish_last-Wrote j tables (some (id, b)) es h e =
        whole _ es (close_table crc32 compress times_0_69 opts I tables id b es h) e

    at_end-Wrote :
        (j : Jobs) (rest : List Entry)
        → rest ≡ []
        → Stands wm total rest j
        → Wrote (finish_last crc32 compress times_0_69 opts I j)
    unfolding compacted
    at_end-Wrote j rest nothing s =
        finish_last-Wrote j j.tables j.builder s.done s.emitted
          (sym (append-nil s.done) ∙ (rw nothing at s.left))

    run_slices-Wrote :
        (n fuel : ℕ) (rest : List Entry) (j : Jobs)
        → length rest < n
        → length rest < fuel
        → All IsReadable rest
        → Stands wm total rest j
        → (j' : Jobs) × (run_slices crc32 compress times_0_69 opts I n fuel j ≡ ok j') × Wrote j'
    unfolding run_slices run_slice
    run_slices-Wrote zero fuel rest j h k r s = elim h [ ]
    run_slices-Wrote (suc n) zero rest j h k r s = elim k [ ]
    run_slices-Wrote (suc n) (suc fuel) [] j h k r s =
        let ends : slice_loop crc32 compress times_0_69 opts I (suc fuel) 0 (counted j)
            ≡ ok (true, counted j) =
          unfold slice_loop in rw (w.ended j.merge s.ahead) refl in
        (
          finish_last crc32 compress times_0_69 opts I (counted j),
          rw ends refl,
          at_end-Wrote (counted j) [] refl (counts j [] s),
        )
    run_slices-Wrote (suc n) (suc fuel) (e ∷ rest) j h k r s =
        let (flag, j', ends, stops) =
          slice_takes fuel e rest (counted j) (omega arith) r (counts j (e ∷ rest) s) in
        elim (Bool-cases flag) [
          | inl t ↦ (
            finish_last crc32 compress times_0_69 opts I j',
            rw (ends, t) refl,
            at_end-Wrote j' stops.rest (stops.at_end t) stops.stands,
          )
          | inr f ↦
              let (j1, goes, wrote) =
                run_slices-Wrote n (suc fuel) stops.rest j' (omega (arith, stops.fewer))
                  (omega (arith, stops.fewer)) stops.readable stops.stands in
              (j1, rw (ends, f) goes, wrote)
        ]

  -- A rewrite from its start, with a round and a slice for each entry and one more: it succeeds, and the
  -- tables that it has finished hold, in order, exactly the entries of the inputs that the rule keeps. Every
  -- entry has a kind, a value that is put decodes, and the filters of the older runs can be read.
  pub rewrite-Holds :
      (n wm next_file_id : ℕ) (merge : I.State) (l : List Entry)
      → w.Over merge l
      → All IsReadable l
      → length l < n
      → (j j' : Jobs) × (new_job crc32 compress times_0_69 opts I older wm merge next_file_id
          ≡ ok j)
        × (run_slices crc32 compress times_0_69 opts I n n j ≡ ok j')
        × Holds crc32 compress times_0_69 opts I j'.tables (compacted may wm none false l)
  unfolding new_job
  rewrite-Holds n wm next_file_id merge l over readable enough =
      let (merge', begins, ahead) = w.seek_start merge l over in
      let (j', ends, wrote) =
        run_slices-Wrote wm (compacted may wm none false l) n n l (begun merge') enough enough
          readable
          (record {
            done = [];
            ahead = ahead;
            emitted = record {
              finished = [];
              current = [];
              holds = no_table;
              building = refl;
              all = refl;
            };
            same_older = refl;
            same_watermark = refl;
            left = refl;
          }) in
      (begun merge', j', rw begins refl, ends, wrote)
    where
      begun : I.State → Jobs
      begun merge' = record {
        older = older;
        watermark = wm;
        merge = merge';
        run_id = next_file_id;
        tables = [];
        builder = none;
        discard = [];
        cur_ukey = [];
        have_key = false;
        kept_le_w = false;
        slices = 0;
        next_file_id = next_file_id + 1;
      }
