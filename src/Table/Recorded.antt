-- ===== src/Table/Recorded.antt =====
-- crates/fluent31/src/table/builder.rs: what a builder has recorded of the entries that were added.
use mathlib.Core.Path.{subst}
use fluent.Prelude.{
  All-map, ℕ, ◌+◌, ◌≤◌, ◌≡◌, inl, inr, refl, ap, ◌∙◌, sym, arith, List, [], ◌∷◌, ◌++◌, length, Bool,
  true, false, ◌==◌, not, ◌||◌, leb, if◌then◌else◌, Bool-cases, All,
}
use fluent.Result.{ok, err, Result-cases}
use fluent.Bytes.{bytes_eq}
use fluent.Bytes.Order.{cmp_bytes-eq}
use fluent.Types.{ValueKind, ikey_kind, ikey_seqno, ikey_ukey}
use fluent.Bloom.{hash64, build, may_contain}
use fluent.Bloom.Members.{build-may_contain}
use fluent.Block as Block
use fluent.Block.{BlockBuilder, size_estimate}
use fluent.Table.{TableStats, Compression}
use fluent.Table.Builder.{
  TableBuilder, new_builder, note_key, count_entry, is_delete, flush_block, write_block, add_kind,
  add,
}

-- The newest entry first.
abbrev Entries : Type 0
Entries = List (List ℕ × List ℕ)

module _ (crc32 : List ℕ → ℕ) (compress : List ℕ → List ℕ) where
  -- The builders that a run of additions leads to, with the entries added, the last one first.
  pub data Added (block_size bits : ℕ) (c : Compression) : Entries → TableBuilder → Type 0 where
    start : Added block_size bits c [] (new_builder block_size bits c)
    more :
        {es : Entries} {t t' : TableBuilder} (ikey repr : List ℕ)
        → Added block_size bits c es t
        → add crc32 compress t ikey repr ≡ ok t'
        → Added block_size bits c ((ikey, repr) ∷ es) t'

unfoldable pub deletes : Entries → ℕ
deletes [] = 0
deletes ((ikey, _) ∷ es) =
    let rest = deletes es in
    elim (ikey_kind ikey) [ ok kind ↦ if is_delete kind then rest + 1 else rest | err _ ↦ rest ]

-- The key that was added first.
abbrev pub oldest : Entries → List ℕ
oldest [] = []
oldest ((ikey, _) ∷ []) = ikey
oldest (_ ∷ e ∷ es) = oldest (e ∷ es)

abbrev pub newest : Entries → List ℕ
newest [] = []
newest ((ikey, _) ∷ es) = ikey

abbrev pub is_nil : Entries → Bool
is_nil [] = true
is_nil (_ ∷ _) = false

ok_injective {ℓ} : {A : Type ℓ} {x y : A} → ok x ≡ ok y → x ≡ y
ok_injective e = cc

-- The hashes and the last hashed key, after another key.
abbrev noted : List ℕ × List ℕ → List ℕ → List ℕ × List ℕ
noted (hashes, last) ukey =
    if length hashes == 0 || not (bytes_eq last ukey)
    then (hashes ++ (hash64 ukey ∷ []), ukey)
    else (hashes, last)

note_key_lem :
    (t : TableBuilder) (ukey : List ℕ)
    → ((note_key t ukey).stats ≡ t.stats)
      × ((note_key t ukey).started ≡ t.started)
      × (◌≡◌ {A = List ℕ × List ℕ}
          ((note_key t ukey).key_hashes, (note_key t ukey).last_hashed_ukey)
          (noted (t.key_hashes, t.last_hashed_ukey) ukey))
unfolding note_key
note_key_lem t ukey =
    elim (Bool-cases (length t.key_hashes == 0 || not (bytes_eq t.last_hashed_ukey ukey))) [
      | inl fresh ↦ rw fresh (refl, refl, refl)
      | inr again ↦ rw again (refl, refl, refl)
    ]

-- What an addition changes of a builder's record, with the kind of its entry.
record Step (t t' : TableBuilder) (ikey : List ℕ) (kind : ValueKind) : Type 0 where
  stats : t'.stats ≡ count_entry t.started t.stats ikey kind
  started : t'.started ≡ true
  hashes :
      ◌≡◌ {A = List ℕ × List ℕ}
        (t'.key_hashes, t'.last_hashed_ukey)
        (noted (t.key_hashes, t.last_hashed_ukey) (ikey_ukey ikey))

module _ (crc32 : List ℕ → ℕ) (compress : List ℕ → List ℕ) where
  flush_block-Step :
      (t t' : TableBuilder) (ikey : List ℕ) (kind : ValueKind)
      → Step t t' ikey kind
      → Step t (flush_block crc32 compress t') ikey kind
  unfolding flush_block write_block
  flush_block-Step t t' ikey kind s = elim (Bool-cases (Block.is_empty t'.block)) [
    | inl empty ↦ rw empty s
    | inr full ↦ rw full (record { stats = s.stats; started = s.started; hashes = s.hashes })
  ]

  add_kind-Step :
      (t : TableBuilder) (ikey repr : List ℕ) (kind : ValueKind)
      → Step t (add_kind crc32 compress t ikey repr kind) ikey kind
  unfolding add_kind
  add_kind-Step t ikey repr kind =
      elim (Bool-cases (leb filled.block_size (size_estimate filled.block))) [
        | inl full ↦ rw full (flush_block-Step t filled ikey kind step)
        | inr room ↦ rw room step
      ]
    where
      counted : TableBuilder
      counted = record t { stats = count_entry t.started t.stats ikey kind; started = true }

      marked : TableBuilder
      marked = note_key counted (ikey_ukey ikey)

      filled : TableBuilder
      filled = record marked { block = Block.add marked.block ikey repr }

      step : Step t filled ikey kind
      step =
          let (p, q, r) = note_key_lem counted (ikey_ukey ikey) in
          record { stats = p; started = q; hashes = r }

  add-Step :
      (t t' : TableBuilder) (ikey repr : List ℕ)
      → add crc32 compress t ikey repr ≡ ok t'
      → (kind : ValueKind) × (ikey_kind ikey ≡ ok kind) × Step t t' ikey kind
  unfolding add
  add-Step t t' ikey repr e = elim (Result-cases (ikey_kind ikey)) [
    | inl (kind, known) ↦ (
      kind,
      known,
      subst (λ (u : TableBuilder). Step t u ikey kind) (ok_injective (rw known at e))
          (add_kind-Step t ikey repr kind),
    )
    | inr (x, bad) ↦ cc (bad, e)
  ]

-- An entry whose sequence number is within the bounds of the statistics.
abbrev pub Bounded : TableStats → List ℕ × List ℕ → Type 0
Bounded s e = (s.min_seq ≤ ikey_seqno e.0) × (ikey_seqno e.0 ≤ s.max_seq)

deletes_more :
    (es : Entries) (ikey repr : List ℕ) (kind : ValueKind)
    → ikey_kind ikey ≡ ok kind
    → deletes ((ikey, repr) ∷ es) ≡ (if is_delete kind then deletes es + 1 else deletes es)
unfolding deletes
deletes_more es ikey repr kind known = ground (arith, known)

-- What the builder's record says of the entries added so far.
pub record Recorded (es : Entries) (t : TableBuilder) : Type 1 where
  pub started : t.started ≡ not (is_nil es)
  pub entries : t.stats.entries ≡ length es
  pub tombstones : t.stats.tombstones ≡ deletes es
  pub seqs_bounded : All (Bounded t.stats) es
  pub first_ikey : t.stats.first_ikey ≡ oldest es
  pub last_ikey : t.stats.last_ikey ≡ newest es
  pub hashed : (P : ℕ → Type 0) → All P t.key_hashes → All (λ e. P (hash64 (ikey_ukey e.0))) es
  pub hashed_last :
      (P : ℕ → Type 0)
      → All P t.key_hashes
      → (length t.key_hashes == 0) ≡ false
      → P (hash64 t.last_hashed_ukey)

All-append {ℓ κ} :
    {A : Type ℓ} (P : A → Type κ) (xs ys : List A) → All P (xs ++ ys) → All P xs × All P ys
All-append P [] ys h = (tt, h)
All-append P (x ∷ xs) ys (h, hs) = let (l, r) = All-append P xs ys hs in ((h, l), r)

oldest_more :
    (es : Entries) (e : List ℕ × List ℕ)
    → (if not (is_nil es) then oldest es else e.0) ≡ oldest (e ∷ es)
oldest_more [] e = refl
oldest_more (x ∷ es) e = refl

-- Noting a key keeps what was hashed, and hashes the key.
module _ (hashes : List ℕ) (last ukey : List ℕ) where
  noted-keeps : (P : ℕ → Type 0) → All P (noted (hashes, last) ukey).0 → All P hashes
  noted-keeps P h = elim (Bool-cases (length hashes == 0 || not (bytes_eq last ukey))) [
    | inl fresh ↦ (All-append P hashes (hash64 ukey ∷ []) (rw fresh at h)).0
    | inr again ↦ rw again at h
  ]

  noted-adds :
      ((P : ℕ → Type 0) → All P hashes → (length hashes == 0) ≡ false → P (hash64 last))
      → (P : ℕ → Type 0) → All P (noted (hashes, last) ukey).0
      → P (hash64 ukey)
  noted-adds old P h = elim (Bool-cases (length hashes == 0 || not (bytes_eq last ukey))) [
    | inl fresh ↦ (All-append P hashes (hash64 ukey ∷ []) (rw fresh at h)).1.0
    | inr again ↦
        subst (λ (k : List ℕ). P (hash64 k)) (ground (arith, again, cmp_bytes-eq last ukey))
          (old P (rw again at h) (ground (arith, again)))
  ]

  noted-last : (noted (hashes, last) ukey).1 ≡ ukey
  noted-last = ground (arith, cmp_bytes-eq last ukey)

Step-Recorded :
    (es : Entries) (t t' : TableBuilder) (ikey repr : List ℕ) (kind : ValueKind)
    → Recorded es t
    → ikey_kind ikey ≡ ok kind
    → Step t t' ikey kind
    → Recorded ((ikey, repr) ∷ es) t'
unfolding count_entry
Step-Recorded es t t' ikey repr kind h known s = record {
  started = s.started;
  entries = ap (λ (x : TableStats). x.entries) s.stats ∙ omega (arith, h.entries);
  tombstones =
      ap (λ (x : TableStats). x.tombstones) s.stats
      ∙ rw h.tombstones (sym (deletes_more es ikey repr kind known));
  seqs_bounded =
      subst (λ (x : TableStats). All (Bounded x) ((ikey, repr) ∷ es)) (sym s.stats)
        (
          (omega arith, omega arith),
          All-map (Bounded t.stats) (Bounded (count_entry t.started t.stats ikey kind)) es
              (λ e (l, g). (omega (arith, l), omega (arith, g))) h.seqs_bounded,
        );
  first_ikey =
      ap (λ (x : TableStats). x.first_ikey) s.stats
      ∙ rw (h.started, h.first_ikey) (oldest_more es (ikey, repr));
  last_ikey = ap (λ (x : TableStats). x.last_ikey) s.stats;
  hashed = λ P k. (here P k, h.hashed P (before P k));
  hashed_last = λ P k some. subst (λ (u : List ℕ). P (hash64 u)) (sym last) (here P k);
}
  where
    pair : List ℕ × List ℕ
    pair = noted (t.key_hashes, t.last_hashed_ukey) (ikey_ukey ikey)

    hashes : t'.key_hashes ≡ pair.0
    hashes = ap (λ (p : List ℕ × List ℕ). p.0) s.hashes

    last : t'.last_hashed_ukey ≡ ikey_ukey ikey
    last =
        ap (λ (p : List ℕ × List ℕ). p.1) s.hashes
        ∙ noted-last t.key_hashes t.last_hashed_ukey (ikey_ukey ikey)

    before : (P : ℕ → Type 0) → All P t'.key_hashes → All P t.key_hashes
    before P k =
        noted-keeps t.key_hashes t.last_hashed_ukey (ikey_ukey ikey) P
          (subst (λ (l : List ℕ). All P l) hashes k)

    here : (P : ℕ → Type 0) → All P t'.key_hashes → P (hash64 (ikey_ukey ikey))
    here P k =
        noted-adds t.key_hashes t.last_hashed_ukey (ikey_ukey ikey) h.hashed_last P
          (subst (λ (l : List ℕ). All P l) hashes k)

module _ (crc32 : List ℕ → ℕ) (compress : List ℕ → List ℕ) (block_size bits : ℕ)
    (c : Compression) where
  -- After any run of additions that succeed, the statistics are those of the entries: their number, the
  -- number of deletes among them, bounds on their sequence numbers, and the first and the last key;
  -- and every user key was hashed for the filter.
  pub Added-Recorded :
      (es : Entries) (t : TableBuilder)
      → Added crc32 compress block_size bits c es t
      → Recorded es t
  unfolding deletes
  Added-Recorded es t start = record {
    started = refl;
    entries = refl;
    tombstones = refl;
    seqs_bounded = tt;
    first_ikey = refl;
    last_ikey = refl;
    hashed = λ P k. tt;
    hashed_last = λ P k some. cc;
  }
  Added-Recorded _ t' (more {es} {t} ikey repr run e) =
      let (kind, known, s) = add-Step crc32 compress t t' ikey repr e in
      Step-Recorded es t t' ikey repr kind (Added-Recorded es t run) known s

  -- So the filter over a table's hashes contains each user key that was added to it.
  pub Added-may_contain :
      (times_0_69 : ℕ → ℕ) (es : Entries) (t : TableBuilder)
      → Added crc32 compress block_size bits c es t
      → All
          (λ e.
            may_contain
              (build times_0_69 t.key_hashes t.bloom_bits_per_key)
              (hash64 (ikey_ukey e.0))
            ≡ true)
          es
  Added-may_contain times_0_69 es t run =
      (Added-Recorded es t run).hashed _
        (build-may_contain times_0_69 t.key_hashes t.bloom_bits_per_key)
