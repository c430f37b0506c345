-- ===== src/Compaction/Rule.antt =====
-- crates/fluent31/src/compaction.rs: what a rewrite drops is nothing that a reader may still see.
use fluent.Prelude.{
  subst, ◌&&◌, not, ℕ, ◌≤◌, ◌<◌, min, ltb, leb, le→ltb, Ordering, ◌≡◌, refl, sym, ◌∙◌, arith,
  Bool-cases, inl, inr, Bool, true, false, if◌then◌else◌, List, [], ◌∷◌, ◌++◌, All, All-map, Option,
  none, some,
}
use fluent.Result.{ok, err}
use fluent.Bytes.{bytes_eq, cmp_bytes, is_lt}
use fluent.Bytes.Order.{bytes_eq_iff, cmp_bytes-flip}
use fluent.Types.{put, delete, ikey_ukey, ikey_seqno, ikey_kind, cmp_ikey, ikey_trailer}
use fluent.Iter.{Entry}
use fluent.Iter.Walk.{Before, Sorted}
use fluent.Mvcc.Scan.{Sorted-KeysOrdered}
use fluent.Mvcc.{is_last}
use fluent.Mvcc.Newest.{newest, visible_put, KeysOrdered, above-AtLeast, newest_other, AtLeast}

abbrev pub is_delete_key : List ℕ → Bool
is_delete_key ik = elim (ikey_kind ik) [
  | ok kind ↦ elim kind [ delete ↦ true | put ↦ false ]
  | err _ ↦ false
]

-- The entries that a rewrite keeps, after the key that was seen last, and whether a version of it at or
-- below the watermark was.
unfoldable pub compacted : (List ℕ → Bool) → ℕ → Option (List ℕ) → Bool → List Entry → List Entry
compacted may w last kept [] = []
compacted may w last kept (e ∷ l) =
    let uk = ikey_ukey e.0 in
    let kept' = is_last last uk && kept in
    let above = compacted may w (some uk) kept' l in
    let seen = compacted may w (some uk) true l in
    if ltb w (ikey_seqno e.0)
    then e ∷ above
    else if kept'
    then seen
    else if is_delete_key e.0 && not (may uk)
    then seen
    else e ∷ seen

-- A later version of a key is not newer.
abbrev pub NotNewer : Entry → Entry → Type 0
NotNewer e x = bytes_eq (ikey_ukey e.0) (ikey_ukey x.0) ≡ true → ikey_seqno x.0 ≤ ikey_seqno e.0

abbrev pub VersionsFall : List Entry → Type 0
VersionsFall [] = Unit
VersionsFall (e ∷ l) = All (NotNewer e) l × VersionsFall l

abbrev pub Absent : List ℕ → List Entry → Type 0
Absent u = All (λ e. bytes_eq (ikey_ukey e.0) u ≡ false)

compacted-All {ℓ} :
    (may : List ℕ → Bool) (w : ℕ) (P : Entry → Type ℓ) (last : Option (List ℕ)) (kept : Bool)
    (l : List Entry)
    → All P l
    → All P (compacted may w last kept l)
unfolding compacted
compacted-All may w P last kept [] h = tt
compacted-All may w P last kept (e ∷ l) (h, hs) =
    let uk = ikey_ukey e.0 in
    let seen = compacted-All may w P (some uk) true l hs in
    elim (Bool-cases (ltb w (ikey_seqno e.0))) [
      | inl a ↦ rw a (h, compacted-All may w P (some uk) (is_last last uk && kept) l hs)
      | inr a ↦ rw a (elim (Bool-cases (is_last last uk && kept)) [
        | inl b ↦ rw b seen
        | inr b ↦ rw b (elim (Bool-cases (is_delete_key e.0 && not (may uk))) [
          | inl c ↦ rw c seen
          | inr c ↦ rw c (h, seen)
        ])
      ])
    ]

module _ (q : ℕ) (u : List ℕ) where
  newest-Absent : (l o : List Entry) → Absent u l → Absent u o → newest q u (l ++ o) ≡ none
  unfolding newest
  newest-Absent [] [] a b = refl
  newest-Absent [] (e ∷ o) a (b, bs) = rw b (newest-Absent [] o a bs)
  newest-Absent (e ∷ l) o (a, rest) b = rw a (newest-Absent l o rest b)

  -- Behind a delete that was dropped: the other versions of its key go too.
  after_dropped :
      (may : List ℕ → Bool) (w : ℕ) (l o : List Entry)
      → All
          (λ x.
            (is_lt (cmp_bytes (ikey_ukey x.0) u) ≡ false)
            × (bytes_eq (ikey_ukey x.0) u ≡ true → ikey_seqno x.0 ≤ w))
          l
      → KeysOrdered l
      → Absent u o
      → newest q u (compacted may w (some u) true l ++ o) ≡ none
  unfolding compacted
  after_dropped may w [] o h k b = newest-Absent [] o tt b
  after_dropped may w (e ∷ l) o ((up, falls), h) (least, k) b =
      elim (Bool-cases (bytes_eq (ikey_ukey e.0) u)) [
        | inl same ↦
            let uk : ikey_ukey e.0 ≡ u = (bytes_eq_iff _ _).0 same in
            let low : ltb w (ikey_seqno e.0) ≡ false = le→ltb _ _ (falls same) in
            let refl_u : bytes_eq u u ≡ true = (bytes_eq_iff u u).1 refl in
            rw (low, uk, refl_u) (after_dropped may w l o h k b)
        | inr other ↦
            let above : cmp_bytes u (ikey_ukey e.0) ≡ Ordering.lt =
              ground (arith, up, other, cmp_bytes-flip (ikey_ukey e.0) u) in
            let none_left : Absent u (e ∷ l) = (
              other,
              All-map _ _ l (λ x p. ground (arith, p, cmp_bytes-flip u (ikey_ukey x.0)))
                  (above-AtLeast u (ikey_ukey e.0) l above least),
            ) in
            newest-Absent (compacted may w (some u) true (e ∷ l)) o
              (compacted-All may w _ (some u) true (e ∷ l) none_left) b
      ]

newest_matches :
    (q : ℕ) (u : List ℕ) (e : Entry) (l : List Entry)
    → bytes_eq (ikey_ukey e.0) u ≡ true
    → leb (ikey_seqno e.0) q ≡ true
    → newest q u (e ∷ l) ≡ visible_put e.0 e.1
unfolding newest
newest_matches q u e l same seen = rw (same, seen) refl

newest_unseen :
    (q : ℕ) (u : List ℕ) (e : Entry) (l : List Entry)
    → leb (ikey_seqno e.0) q ≡ false
    → newest q u (e ∷ l) ≡ newest q u l
unfolding newest
newest_unseen q u e l unseen = ground (arith, unseen)

All-both {ℓ κ} :
    {A : Type ℓ} (P Q : A → Type κ) (xs : List A) → All P xs → All Q xs → All (λ x. P x × Q x) xs
All-both P Q [] h k = tt
All-both P Q (x ∷ xs) (h, hs) (k, ks) = ((h, k), All-both P Q xs hs ks)

no_value : (e : Entry) (b : Bool) → (is_delete_key e.0 && b) ≡ true → visible_put e.0 e.1 ≡ none
no_value e b h = ground (arith, h)

module _ (may : List ℕ → Bool) (w q : ℕ) (u : List ℕ) (o : List Entry)
    (sound : may u ≡ false → Absent u o) where
  tombstone :
      (e : Entry) (l : List Entry)
      → ikey_ukey e.0 ≡ u
      → ikey_seqno e.0 ≤ w
      → (is_delete_key e.0 && not (may (ikey_ukey e.0))) ≡ true
      → AtLeast (ikey_ukey e.0) l
      → All (NotNewer e) l
      → KeysOrdered l
      → newest q u (compacted may w (some (ikey_ukey e.0)) true l ++ o) ≡ none
  tombstone e l is_u low c least fall k = rw is_u (
      after_dropped q u may w l o
        (All-map _ _ l
          (λ x (up, older). (
            ground (arith, rw is_u at up, cmp_bytes-flip u (ikey_ukey x.0)),
            λ same.
                let v : bytes_eq (ikey_ukey e.0) (ikey_ukey x.0) ≡ true =
                  (bytes_eq_iff _ _).1 (is_u ∙ sym ((bytes_eq_iff _ _).0 same)) in
                omega (arith, older v),
          ))
          (All-both _ _ l least fall))
        k (sound (ground (arith, rw is_u at c))))

  -- The claim from any state of the walk in which `u` has not been settled.
  keeps_newest :
      (last : Option (List ℕ)) (kept : Bool) (l : List Entry)
      → (is_last last u && kept) ≡ false
      → All (λ e. ikey_seqno e.0 ≤ w → ikey_seqno e.0 ≤ q) l
      → KeysOrdered l
      → VersionsFall l
      → newest q u (compacted may w last kept l ++ o) ≡ newest q u (l ++ o)
  unfolding compacted
  keeps_newest last kept [] open_key h k f = refl
  keeps_newest last kept (e ∷ l) open_key (seen, h) (least, k) (fall, f) =
      elim (Bool-cases (bytes_eq (ikey_ukey e.0) u)) [
        | inr other ↦
            let skipped = λ (x : List Entry). newest_other q u e (x ++ o) other in
            let seen_other = keeps_newest (some uk) true l (ground (arith, other)) h k f in
            rw (skipped l) (elim (Bool-cases (ltb w (ikey_seqno e.0))) [
              | inl a ↦ rw a (
                  skipped _
                  ∙ keeps_newest (some uk) (is_last last uk && kept) l (ground (arith, other)) h k
                      f)
              | inr a ↦ rw a (elim (Bool-cases (is_last last uk && kept)) [
                | inl b ↦ rw b seen_other
                | inr b ↦ rw b (elim (Bool-cases (is_delete_key e.0 && not (may uk))) [
                  | inl c ↦ rw c seen_other
                  | inr c ↦ rw c (skipped _ ∙ seen_other)
                ])
              ])
            ])
        | inl same ↦
            let is_u : uk ≡ u = (bytes_eq_iff uk u).0 same in
            let fresh : (is_last last uk && kept) ≡ false =
              subst (λ x. (is_last last x && kept) ≡ false) (sym is_u) open_key in
            let matched = λ (x : List Entry). newest_matches q u e (x ++ o) same in
            elim (Bool-cases (ltb w (ikey_seqno e.0))) [
              | inl a ↦
                  rw (a, fresh)
                    (elim (Bool-cases (leb (ikey_seqno e.0) q)) [
                      | inl b ↦ matched _ b ∙ sym (matched l b)
                      | inr b ↦
                          newest_unseen q u e _ b
                          ∙ keeps_newest (some uk) false l (ground arith) h k f
                          ∙ sym (newest_unseen q u e (l ++ o) b)
                    ])
              | inr a ↦
                  let low : ikey_seqno e.0 ≤ w = ground (arith, a) in
                  let b : leb (ikey_seqno e.0) q ≡ true = ground (arith, seen low) in
                  rw (a, fresh)
                    (elim (Bool-cases (is_delete_key e.0 && not (may uk))) [
                      | inl c ↦ rw c (
                          tombstone e l is_u low c least fall k
                          ∙ sym (matched l b ∙ no_value e _ c))
                      | inr c ↦ rw c (matched _ b ∙ sym (matched l b))
                    ])
            ]
      ]
    where
      uk : List ℕ
      uk = ikey_ukey e.0

later_NotNewer : (e x : Entry) → Before false e.0 x.0 → NotNewer e x
unfolding cmp_ikey ikey_seqno
later_NotNewer e x before same =
    let less : ikey_trailer x.0 < ikey_trailer e.0 = ground (arith, before, same) in
    omega (arith, less)

Sorted-VersionsFall : (l : List Entry) → Sorted false l → VersionsFall l
Sorted-VersionsFall [] s = tt
Sorted-VersionsFall (e ∷ l) (h, s) =
    (All-map _ _ l (λ x. later_NotNewer e x) h, Sorted-VersionsFall l s)

-- A reader that comes after a rewrite, at a number that the watermark left readable, finds under every key
-- what it would have found: in the sorted entries that the rewrite took in, with the older runs behind
-- them, where what the rewrite keeps stands in their place. No entry is newer than what was visible when
-- the watermark was taken, and the filters of the older runs miss no key.
pub newest-compacted :
    (may : List ℕ → Bool) (w visible q : ℕ) (u : List ℕ) (l older : List Entry)
    → Sorted false l
    → All (λ e. ikey_seqno e.0 ≤ visible) l
    → min w visible ≤ q
    → (may u ≡ false → All (λ e. bytes_eq (ikey_ukey e.0) u ≡ false) older)
    → newest q u (compacted may w none false l ++ older) ≡ newest q u (l ++ older)
newest-compacted may w visible q u l older sorted published readable sound =
    keeps_newest may w q u older sound none false l refl
      (All-map _ _ l (λ e p low. omega (arith, p, low)) published) (Sorted-KeysOrdered l sorted)
      (Sorted-VersionsFall l sorted)
