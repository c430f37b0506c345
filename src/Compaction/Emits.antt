-- ===== src/Compaction/Emits.antt =====
-- crates/fluent31/src/compaction.rs: the slices of a rewrite lay down, table by table, the entries that the
-- rule keeps.
use mathlib.Core.List.{append_assoc, append-nil, reverse-cons}
use fluent.Prelude.{
  ◌&&◌, not, ℕ, ◌+◌, ltb, leb, ◌≡◌, refl, sym, ap, ◌∙◌, Bool-cases, inl, inr, Bool, true, false,
  if◌then◌else◌, List, [], ◌∷◌, ◌++◌, reverse, Option, none, some,
}
use fluent.Result.{Result, ok, ◌>>=◌}
use fluent.Bytes.{bytes_eq}
use fluent.Types.{ValueKind, ikey_ukey, ikey_seqno, ikey_kind}
use fluent.Iter.{Entry, InternalIterator}
use fluent.Mvcc.{is_last}
use fluent.Table.Builder.{TableBuilder, estimated_size, last_ukey, add, add_kind, new_builder}
use fluent.Table.Recorded.{Added, start, more}
use fluent.Compaction.{
  Options, Finished, RunningJob, split_table, open_table, keep_entry, finish_table,
}
use fluent.Compaction.Rule.{compacted, is_delete_key}

-- Whether the rule keeps an entry, and whether a version at or below the watermark has been seen then.
abbrev pub verdict : (List ℕ → Bool) → ℕ → Option (List ℕ) → Bool → List ℕ → Bool × Bool
verdict may w last kept ik =
    let kept' = is_last last (ikey_ukey ik) && kept in
    if ltb w (ikey_seqno ik)
    then (true, kept')
    else if kept'
    then (false, true)
    else (not (is_delete_key ik && not (may (ikey_ukey ik))), true)

abbrev pub only_if : Bool → Entry → List Entry
only_if true e = e ∷ []
only_if false e = []

pub compacted-verdict :
    (may : List ℕ → Bool) (w : ℕ) (last : Option (List ℕ)) (kept : Bool) (e : Entry)
    (l : List Entry)
    → let (keep, kept') = verdict may w last kept e.0 in
      compacted may w last kept (e ∷ l)
      ≡ only_if keep e ++ compacted may w (some (ikey_ukey e.0)) kept' l
unfolding compacted
compacted-verdict may w last kept e l = elim (Bool-cases (ltb w (ikey_seqno e.0))) [
  | inl a ↦ rw a refl
  | inr a ↦ rw a (elim (Bool-cases (is_last last (ikey_ukey e.0) && kept)) [
    | inl b ↦ rw b refl
    | inr b ↦ rw b (elim (Bool-cases (is_delete_key e.0 && not (may (ikey_ukey e.0)))) [
      | inl c ↦ rw c refl
      | inr c ↦ rw c refl
    ])
  ])
]

module _ (crc32 : List ℕ → ℕ) (compress : List ℕ → List ℕ) (times_0_69 : ℕ → ℕ) (opts : Options)
    (I : InternalIterator) where
  abbrev pub Job : Type 0
  Job = RunningJob crc32 compress times_0_69 opts I

  abbrev pub Adds : List Entry → TableBuilder → Type 0
  Adds = Added crc32 compress opts.block_size opts.bloom_bits_per_key opts.compression

  -- The finished tables, with the entries that were added to them in this order.
  pub data Holds : List Finished → List Entry → Type 0 where
    no_table : Holds [] []
    one_more :
        {tables : List Finished} {es added : List Entry} {b : TableBuilder} (id : ℕ)
        → Holds tables es
        → Adds added b
        → Holds
            (tables ++ (finish_table crc32 compress times_0_69 opts I id b ∷ []))
            (es ++ reverse added)

  abbrev pub BuilderHolds : Option (ℕ × TableBuilder) → List Entry → Type 0
  BuilderHolds none added = added ≡ []
  BuilderHolds (some (id, b)) added = Adds added b

  -- The tables and the open builder hold these entries.
  pub record Emitted (tables : List Finished) (builder : Option (ℕ × TableBuilder))
      (es : List Entry) : Type 0 where
    pub finished : List Entry
    pub current : List Entry
    pub holds : Holds tables finished
    pub building : BuilderHolds builder current
    pub all : finished ++ reverse current ≡ es

  -- A job with other tables.
  abbrev pub with_tables : Job → List Finished → Option (ℕ × TableBuilder) → ℕ → Job
  with_tables j tables builder next = record j {
    tables = tables;
    builder = builder;
    next_file_id = next;
  }

  reverse_more :
      (es added : List Entry) (e : Entry)
      → es ++ reverse (e ∷ added) ≡ (es ++ reverse added) ++ (e ∷ [])
  reverse_more es added e =
      ap (λ (x : List Entry). es ++ x) (reverse-cons e added)
      ∙ sym (append_assoc es (reverse added) (e ∷ []))

  pub close_table :
      (tables : List Finished) (id : ℕ) (b : TableBuilder) (es : List Entry)
      → Emitted tables (some (id, b)) es
      → Emitted (tables ++ (finish_table crc32 compress times_0_69 opts I id b ∷ [])) none es
  close_table tables id b es h = record {
    finished = h.finished ++ reverse h.current;
    current = [];
    holds = one_more id h.holds h.building;
    building = refl;
    all = append-nil _ ∙ h.all;
  }

  module _ (j : Job) (ik : List ℕ) (es : List Entry) where
    split_table-Emitted :
        (tables : List Finished) (builder : Option (ℕ × TableBuilder)) (next : ℕ)
        → Emitted tables builder es
        → (tables' : List Finished) × (builder' : Option (ℕ × TableBuilder)) × (split_table crc32
              compress times_0_69 opts I
              (with_tables j tables builder next)
              ik
            ≡ with_tables j tables' builder' next)
          × Emitted tables' builder' es
    unfolding split_table
    split_table-Emitted tables none next h = (tables, none, refl, h)
    split_table-Emitted tables (some (id, b)) next h =
        elim (Bool-cases (
          leb opts.target_file_size (estimated_size b)
          && not (bytes_eq (ikey_ukey ik) (last_ukey b)))) [
            | inl full ↦ (
              tables ++ (finish_table crc32 compress times_0_69 opts I id b ∷ []),
              none,
              rw full refl,
              close_table tables id b es h,
            )
            | inr room ↦ (tables, some (id, b), rw room refl, h)
          ]

  add-Adds :
      (e : Entry) (kind : ValueKind) (b : TableBuilder) (added : List Entry)
      → ikey_kind e.0 ≡ ok kind
      → Adds added b
      → (b' : TableBuilder) × (add crc32 compress b e.0 e.1 ≡ ok b') × Adds (e ∷ added) b'
  unfolding add
  add-Adds e kind b added known h =
      let made : add crc32 compress b e.0 e.1 ≡ ok (add_kind crc32 compress b e.0 e.1 kind) =
        rw known refl in
      (add_kind crc32 compress b e.0 e.1 kind, made, more e.0 e.1 h made)

  module _ (j : Job) (e : Entry) (es : List Entry) (kind : ValueKind)
      (known : ikey_kind e.0 ≡ ok kind) where
    abbrev add_after : (ℕ × TableBuilder) × Job → Result Job
    add_after ((id, b), j') = do
      b' ← add crc32 compress b e.0 e.1
      ok (record j' { builder = some (id, b') })

    add_to :
        (tables : List Finished) (id : ℕ) (b : TableBuilder) (builder : Option (ℕ × TableBuilder))
        (next : ℕ)
        → Emitted tables (some (id, b)) es
        → (b' : TableBuilder) × (add_after ((id, b), with_tables j tables builder next)
            ≡ ok (with_tables j tables (some (id, b')) next))
          × Emitted tables (some (id, b')) (es ++ (e ∷ []))
    add_to tables id b builder next h =
        let (b', made, adds) = add-Adds e kind b h.current known h.building in
        (
          b',
          rw made refl,
          record {
            finished = h.finished;
            current = e ∷ h.current;
            holds = h.holds;
            building = adds;
            all =
                reverse_more h.finished h.current e ∙ ap (λ (x : List Entry). x ++ (e ∷ [])) h.all;
          },
        )

    open_new :
        (tables : List Finished) (id : ℕ)
        → Emitted tables none es
        → Emitted tables
            (some (id, new_builder opts.block_size opts.bloom_bits_per_key opts.compression))
            es
    open_new tables id h = record {
      finished = h.finished;
      current = [];
      holds = h.holds;
      building = start;
      all = ap (λ (x : List Entry). h.finished ++ reverse x) (sym h.building) ∙ h.all;
    }

    add_to_open :
        (tables : List Finished) (builder : Option (ℕ × TableBuilder)) (next : ℕ)
        → Emitted tables builder es
        → (builder' : Option (ℕ × TableBuilder)) × (next' : ℕ) × (add_after
              (open_table crc32 compress times_0_69 opts I (with_tables j tables builder next))
            ≡ ok (with_tables j tables builder' next'))
          × Emitted tables builder' (es ++ (e ∷ []))
    unfolding open_table
    add_to_open tables none next h =
        let (b', made, emitted) = add_to tables next _ none (next + 1) (open_new tables next h) in
        (some (next, b'), next + 1, made, emitted)
    add_to_open tables (some (id, b)) next h =
        let (b', made, emitted) = add_to tables id b (some (id, b)) next h in
        (some (id, b'), next, made, emitted)

    pub keep_entry-Emitted :
        Emitted j.tables j.builder es
        → (tables : List Finished) × (builder : Option (ℕ × TableBuilder)) × (next : ℕ)
          × (keep_entry crc32 compress times_0_69 opts I j e.0 e.1
              ≡ ok (with_tables j tables builder next))
          × Emitted tables builder (es ++ (e ∷ []))
    unfolding keep_entry
    keep_entry-Emitted h =
        let (tables, builder, closed, h1) =
          split_table-Emitted j e.0 es j.tables j.builder j.next_file_id h in
        let (builder', next, made, h2) = add_to_open tables builder j.next_file_id h1 in
        (tables, builder', next, rw closed made, h2)
