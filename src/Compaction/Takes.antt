-- ===== src/Compaction/Takes.antt =====
-- crates/fluent31/src/compaction.rs: one round of a rewrite's loop does with its entry what the rule says.
use mathlib.Core.List.{append-nil}
use fluent.Prelude.{
  ◌&&◌, not, ℕ, ltb, ◌≡◌, refl, ap, arith, Bool-cases, inl, inr, Bool, true, false, if◌then◌else◌,
  List, ◌++◌, Option, none, some,
}
use fluent.Result.{Result, ok}
use fluent.Bytes.{bytes_eq}
use fluent.Bytes.Order.{bytes_eq_iff, cmp_bytes-flip}
use fluent.Types.{
  ValueKind, put, delete, ReprRef, inline, ptr, decode_repr, ikey_ukey, ikey_seqno, ikey_kind,
}
use fluent.Iter.{Entry, InternalIterator}
use fluent.Mvcc.{is_last}
use fluent.Table.Builder.{is_delete}
use fluent.Compaction.{
  Options, older_may_contain, note_user_key, judge, keep_entry, count_pointer, add_discard,
  take_entry,
}
use fluent.Compaction.Rule.{is_delete_key}
use fluent.Compaction.Emits.{verdict, only_if, Job, Emitted, with_tables, keep_entry-Emitted}

module _ (crc32 : List ℕ → ℕ) (compress : List ℕ → List ℕ) (times_0_69 : ℕ → ℕ) (opts : Options)
    (I : InternalIterator) where
  abbrev pub AJob : Type 0
  AJob = Job crc32 compress times_0_69 opts I

  abbrev pub last_of : Bool → List ℕ → Option (List ℕ)
  last_of have cur = if have then some cur else none

  abbrev with_key : AJob → List ℕ → Bool → AJob
  with_key j uk kept = record j { cur_ukey = uk; have_key = true; kept_le_w = kept }

  note_user_key_lem :
      (j : AJob) (ik cur : List ℕ) (have kept : Bool)
      → note_user_key crc32 compress times_0_69 opts I
          (record j { cur_ukey = cur; have_key = have; kept_le_w = kept })
          ik
        ≡ with_key j (ikey_ukey ik) (is_last (last_of have cur) (ikey_ukey ik) && kept)
  unfolding note_user_key
  note_user_key_lem j ik cur false kept = refl
  note_user_key_lem j ik cur true kept = elim (Bool-cases (bytes_eq (ikey_ukey ik) cur)) [
    | inl same ↦
        let e : ikey_ukey ik ≡ cur = (bytes_eq_iff _ _).0 same in
        let r : bytes_eq cur cur ≡ true = (bytes_eq_iff cur cur).1 refl in rw (e, r) refl
    | inr other ↦
        let e : bytes_eq cur (ikey_ukey ik) ≡ false =
          ground (arith, other, cmp_bytes-flip cur (ikey_ukey ik)) in
        rw (other, e) refl
  ]

  judge_lem :
      (j : AJob) (may : List ℕ → Bool) (ik : List ℕ) (kept : Bool) (kind : ValueKind)
      (last : Option (List ℕ))
      → ikey_kind ik ≡ ok kind
      → older_may_contain j.older (ikey_ukey ik) ≡ ok (may (ikey_ukey ik))
      → (drop : Bool) × (judge crc32 compress times_0_69 opts I
            (with_key j (ikey_ukey ik) (is_last last (ikey_ukey ik) && kept))
            ik
            kind
          ≡ ok (
            ((verdict may j.watermark last kept ik).0, drop),
            with_key j (ikey_ukey ik) (verdict may j.watermark last kept ik).1,
          ))
        × (drop ≡ true → kind ≡ put)
  unfolding judge
  judge_lem j may ik kept kind last known reads =
      elim (Bool-cases (ltb j.watermark (ikey_seqno ik))) [
        | inl a ↦ (false, rw a refl, λ no. absurd (cc))
        | inr a ↦ rw a (elim (Bool-cases (is_last last (ikey_ukey ik) && kept)) [
          | inl b ↦ (not (is_delete kind), rw b refl, is_put kind)
          | inr b ↦ (
            false,
            rw (b, reads)
                (ap (λ (v : Bool × Bool). ok (v, with_key j (ikey_ukey ik) true))
                  (dropped kind known (may (ikey_ukey ik)))),
            λ no. absurd (cc),
          )
        ])
      ]
    where
      is_put : (kind : ValueKind) → not (is_delete kind) ≡ true → kind ≡ put
      is_put put h = refl
      is_put delete h = absurd (cc)

      dropped :
          (kind : ValueKind)
          → ikey_kind ik ≡ ok kind
          → (m : Bool)
          → ◌≡◌ {A = Bool × Bool}
              (if is_delete kind && not m then (false, false) else (true, false))
              (not (is_delete_key ik && not m), false)
      dropped delete known true = ground (arith, known)
      dropped delete known false = ground (arith, known)
      dropped put known m = ground (arith, known)

  -- The job has come to stand behind an entry: what it holds, and what it knows of the key.
  pub record Took (j : AJob) (e : Entry) (es : List Entry) (v : Bool × Bool) (j' : AJob)
      : Type 0 where
    pub emitted :
        Emitted crc32 compress times_0_69 opts I j'.tables j'.builder (es ++ only_if v.0 e)
    pub same_key : (last_of j'.have_key j'.cur_ukey ≡ some (ikey_ukey e.0)) × (j'.kept_le_w ≡ v.1)
    pub same_older : j'.older ≡ j.older
    pub same_watermark : j'.watermark ≡ j.watermark
    pub same_merge : j'.merge ≡ j.merge

  module _ (may : List ℕ → Bool) (j : AJob) (e : Entry) (es : List Entry) (kind : ValueKind)
      (known : ikey_kind e.0 ≡ ok kind)
      (decodes : kind ≡ put → (repr : ReprRef) × (decode_repr e.1 ≡ ok repr))
      (reads : older_may_contain j.older (ikey_ukey e.0) ≡ ok (may (ikey_ukey e.0)))
      (h : Emitted crc32 compress times_0_69 opts I j.tables j.builder es) where
    abbrev pub judged : Bool × Bool
    judged = verdict may j.watermark (last_of j.have_key j.cur_ukey) j.kept_le_w e.0

    -- What `take_entry` does once the entry is judged.
    abbrev dispose : Bool → Bool → AJob → Result AJob
    dispose keep drop j' =
        if keep
        then keep_entry crc32 compress times_0_69 opts I j' e.0 e.1
        else if drop
        then count_pointer crc32 compress times_0_69 opts I j' e.1
        else ok j'

    -- The entry is dropped: only the discard statistics may differ.
    dropped-Took :
        (kept' : Bool) (discard : List (ℕ × ℕ))
        → Took j e es
            (false, kept')
            (record (with_key j (ikey_ukey e.0) kept') { discard = discard })
    dropped-Took kept' discard = record {
      emitted = rw (append-nil es) h;
      same_key = (refl, refl);
      same_older = refl;
      same_watermark = refl;
      same_merge = refl;
    }

    count-Took :
        (kept' : Bool) (repr : ReprRef)
        → decode_repr e.1 ≡ ok repr
        → (j' : AJob) × (count_pointer crc32 compress times_0_69 opts I
              (with_key j (ikey_ukey e.0) kept')
              e.1
            ≡ ok j')
          × Took j e es (false, kept') j'
    unfolding count_pointer
    count-Took kept' (inline v) d = (_, rw d refl, dropped-Took kept' j.discard)
    count-Took kept' (ptr p) d =
        (_, rw d refl, dropped-Took kept' (add_discard p.file p.len j.discard))

    dispose-Took :
        (keep kept' drop : Bool)
        → (drop ≡ true → kind ≡ put)
        → (j' : AJob) × (dispose keep drop (with_key j (ikey_ukey e.0) kept') ≡ ok j')
          × Took j e es (keep, kept') j'
    dispose-Took true kept' drop p =
        let (tables, builder, next, made, emitted) =
          keep_entry-Emitted crc32 compress times_0_69 opts I (with_key j (ikey_ukey e.0) kept') e
            es kind known h in
        (
          with_tables crc32 compress times_0_69 opts I (with_key j (ikey_ukey e.0) kept') tables
              builder next,
          made,
          record {
            emitted = emitted;
            same_key = (refl, refl);
            same_older = refl;
            same_watermark = refl;
            same_merge = refl;
          },
        )
    dispose-Took false kept' true p = let (repr, d) = decodes (p refl) in count-Took kept' repr d
    dispose-Took false kept' false p =
        (with_key j (ikey_ukey e.0) kept', refl, dropped-Took kept' j.discard)

    pub take_entry-Took :
        (j' : AJob) × (take_entry crc32 compress times_0_69 opts I j e.0 e.1 ≡ ok j')
        × Took j e es judged j'
    unfolding take_entry
    take_entry-Took =
        let (drop, made, only_put) =
          judge_lem j may e.0 j.kept_le_w kind (last_of j.have_key j.cur_ukey) known reads in
        let (j', disposed, took) = dispose-Took judged.0 judged.1 drop only_put in
        (
          j',
          rw (known, note_user_key_lem j e.0 j.cur_ukey j.have_key j.kept_le_w, made) disposed,
          took,
        )
