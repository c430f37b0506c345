-- ===== src/Mvcc/Newest.antt =====
-- The pairs of the forward stream, by their keys: a description that does not follow the loop.
use fluent.Prelude.{
  ℕ, ◌≡◌, refl, ◌∙◌, sym, arith, ltb, leb, true, false, ◌&&◌, if◌then◌else◌, Bool-cases, inl, inr,
  List, [], ◌∷◌, Option, none, some, Ordering, All,
}
use fluent.Result.{ok, err}
use fluent.Bytes.{cmp_bytes, bytes_eq, is_gt}
use fluent.Bytes.Order.{cmp_bytes-eq, cmp_bytes-flip, cmp_bytes_trans}
use fluent.OrderedMap
use fluent.OrderedMap.{IsSorted}
use fluent.OrderedMap.Keys.{bytes_order}
use fluent.Types.{ValueKind, put, delete, ikey_ukey, ikey_seqno, ikey_kind}
use fluent.Iter.{Entry}
use fluent.Mvcc.{past, is_last}
use fluent.Mvcc.Forward.{HasKind, stream}

abbrev pub visible_put : List ℕ → List ℕ → Option (List ℕ)
visible_put ikey repr = elim (ikey_kind ikey) [
  | ok kind ↦ elim kind [ put ↦ some repr | delete ↦ none ]
  | err _ ↦ none
]

-- The value of the first version of the key that the snapshot sees, where that is not a delete.
unfoldable pub newest : ℕ → List ℕ → List Entry → Option (List ℕ)
newest snap u [] = none
newest snap u (e ∷ l) =
    let rest = newest snap u l in
    if bytes_eq (ikey_ukey e.0) u && leb (ikey_seqno e.0) snap then visible_put e.0 e.1 else rest

-- `u` is not above the user key of any entry.
abbrev pub AtLeast : List ℕ → List Entry → Type 0
AtLeast u l = All (λ e. is_gt (cmp_bytes u (ikey_ukey e.0)) ≡ false) l

abbrev pub KeysOrdered : List Entry → Type 0
KeysOrdered [] = Unit
KeysOrdered (e ∷ l) = AtLeast (ikey_ukey e.0) l × KeysOrdered l

abbrev NotPassed : Option (List ℕ) → List Entry → Type 0
NotPassed none l = Unit
NotPassed (some last) l = AtLeast last l

pub newest_above :
    (snap : ℕ) (u : List ℕ) (l : List Entry)
    → All (λ e. cmp_bytes u (ikey_ukey e.0) ≡ Ordering.lt) l
    → newest snap u l ≡ none
unfolding newest
newest_above snap u [] h = refl
newest_above snap u (e ∷ l) (h, hs) =
    ground (arith, h, cmp_bytes-flip u (ikey_ukey e.0), newest_above snap u l hs)

pub above-AtLeast :
    (u v : List ℕ) (l : List Entry)
    → cmp_bytes u v ≡ Ordering.lt
    → AtLeast v l
    → All (λ e. cmp_bytes u (ikey_ukey e.0) ≡ Ordering.lt) l
above-AtLeast u v [] h k = tt
above-AtLeast u v (e ∷ l) h (k, ks) = (
  ground (arith, h, k, cmp_bytes_trans u v (ikey_ukey e.0), cmp_bytes-eq v (ikey_ukey e.0)),
  above-AtLeast u v l h ks,
)

-- No version of a smaller key is at or behind an entry.
newest_smaller :
    (snap : ℕ) (u : List ℕ) (e : Entry) (l : List Entry)
    → cmp_bytes u (ikey_ukey e.0) ≡ Ordering.lt
    → AtLeast (ikey_ukey e.0) l
    → newest snap u (e ∷ l) ≡ none
newest_smaller snap u e l h k =
    newest_above snap u (e ∷ l) (h, above-AtLeast u (ikey_ukey e.0) l h k)

abbrev found : List ℕ → List Entry → Option (List ℕ)
found u out = OrderedMap.lookup bytes_order u out

pub newest_other :
    (snap : ℕ) (u : List ℕ) (e : Entry) (l : List Entry)
    → bytes_eq (ikey_ukey e.0) u ≡ false
    → newest snap u (e ∷ l) ≡ newest snap u l
unfolding newest
newest_other snap u e l h = rw h refl

newest_later :
    (snap : ℕ) (u : List ℕ) (e : Entry) (l : List Entry)
    → ltb snap (ikey_seqno e.0) ≡ true
    → newest snap u (e ∷ l) ≡ newest snap u l
unfolding newest
newest_later snap u e l h = ground (arith, h)

newest_seen :
    (snap : ℕ) (u : List ℕ) (e : Entry) (l : List Entry) (kind : ValueKind)
    → ltb snap (ikey_seqno e.0) ≡ false
    → ikey_kind e.0 ≡ ok kind
    → newest snap u (e ∷ l) ≡ (
        if bytes_eq (ikey_ukey e.0) u
        then elim kind [ put ↦ some e.1 | delete ↦ none ]
        else newest snap u l)
unfolding newest
newest_seen snap u e l put h k = ground (arith, h, k)
newest_seen snap u e l delete h k = ground (arith, h, k)

past-lt :
    (hi : Option (List ℕ)) (u uk : List ℕ)
    → past hi uk ≡ true
    → past hi u ≡ false
    → cmp_bytes u uk ≡ Ordering.lt
past-lt none u uk h k = cc
past-lt (some hi) u uk h k =
    ground (arith, h, k, cmp_bytes-flip u hi, cmp_bytes-eq hi uk, cmp_bytes_trans u hi uk)

last-below :
    (last : Option (List ℕ)) (u : List ℕ) (e : Entry) (l : List Entry)
    → NotPassed last (e ∷ l)
    → is_last last (ikey_ukey e.0) ≡ false
    → is_last last u ≡ true
    → cmp_bytes u (ikey_ukey e.0) ≡ Ordering.lt
last-below none u e l p h k = cc
last-below (some last) u e l p h k = ground (arith, p.0, h, k, cmp_bytes-eq last u)

last-other :
    (last : Option (List ℕ)) (u uk : List ℕ)
    → is_last last uk ≡ true
    → is_last last u ≡ false
    → bytes_eq uk u ≡ false
last-other none u uk h k = cc
last-other (some last) u uk h k = ground (arith, h, k, cmp_bytes-eq last uk)

NotPassed-tail :
    (last : Option (List ℕ)) (e : Entry) (l : List Entry)
    → NotPassed last (e ∷ l)
    → NotPassed last l
NotPassed-tail none e l p = tt
NotPassed-tail (some last) e l p = p.1

-- What a key is to be found with, given its newest version.
abbrev expected : Option (List ℕ) → Option (List ℕ) → List ℕ → Option (List ℕ) → Option (List ℕ)
expected hi last u v = if past hi u then none else if is_last last u then none else v

-- After an entry that the snapshot sees, whose value is `v`, none for a delete.
after_seen :
    (snap : ℕ) (hi last : Option (List ℕ)) (u : List ℕ) (e : Entry) (l : List Entry)
    (v : Option (List ℕ))
    → NotPassed last (e ∷ l)
    → AtLeast (ikey_ukey e.0) l
    → past hi (ikey_ukey e.0) ≡ false
    → is_last last (ikey_ukey e.0) ≡ false
    → (if bytes_eq (ikey_ukey e.0) u
        then v
        else expected hi (some (ikey_ukey e.0)) u (newest snap u l))
      ≡ expected hi last u (if bytes_eq (ikey_ukey e.0) u then v else newest snap u l)
after_seen snap hi last u e l v p least h s = elim (Bool-cases (bytes_eq (ikey_ukey e.0) u)) [
  | inl same ↦
      let eq : ikey_ukey e.0 ≡ u = cmp_bytes-eq (ikey_ukey e.0) u (ground (arith, same)) in
      let h' : past hi u ≡ false = rw eq at h in
      let s' : is_last last u ≡ false = rw eq at s in rw (same, h', s') refl
  | inr other ↦ elim (Bool-cases (past hi u)) [
    | inl beyond ↦ rw (other, beyond) refl
    | inr within ↦ elim (Bool-cases (is_last last u)) [
      | inl again ↦
          let below : cmp_bytes u (ikey_ukey e.0) ≡ Ordering.lt = last-below last u e l p s again in
          rw (other, within, again)
            (newest_above snap u l (above-AtLeast u (ikey_ukey e.0) l below least))
      | inr fresh ↦ rw (other, within, fresh) refl
    ]
  ]
]

-- What the stream holds under a key.
pub stream_found :
    (snap : ℕ) (hi last : Option (List ℕ)) (u : List ℕ) (l : List Entry)
    → All HasKind l
    → KeysOrdered l
    → NotPassed last l
    → found u (stream snap hi last l)
      ≡ (if past hi u then none else if is_last last u then none else newest snap u l)
unfolding stream OrderedMap.lookup
stream_found snap hi last u [] k s p = unfold newest in ground arith
stream_found snap hi last u (e ∷ l) ((kind, known), k) (least, s) p =
    elim (Bool-cases (past hi (ikey_ukey e.0))) [
      | inl h ↦ rw h (
          sym (elim (Bool-cases (past hi u)) [
            | inl beyond ↦ rw beyond refl
            | inr within ↦
                rw (within, newest_smaller snap u e l (past-lt hi u (ikey_ukey e.0) h within) least)
                  (ground arith)
          ]))
      | inr h ↦ elim (Bool-cases (is_last last (ikey_ukey e.0))) [
        | inl same ↦
            rw (h, same)
              (stream_found snap hi last u l k s (NotPassed-tail last e l p)
                ∙ elim (Bool-cases (is_last last u)) [
                  | inl again ↦ rw again refl
                  | inr fresh ↦
                      rw
                        (
                          fresh,
                          newest_other snap u e l (last-other last u (ikey_ukey e.0) same fresh),
                        )
                        refl
                ])
        | inr fresh ↦ elim (Bool-cases (ltb snap (ikey_seqno e.0))) [
          | inl later ↦
              rw (h, fresh, later, newest_later snap u e l later)
                (stream_found snap hi last u l k s (NotPassed-tail last e l p))
          | inr seen ↦
              rw (h, fresh, seen, known, newest_seen snap u e l kind seen known)
                (by_kind kind h fresh (stream_found snap hi (some (ikey_ukey e.0)) u l k s least))
        ]
      ]
    ]
  where
    by_kind :
        (kind : ValueKind)
        → past hi (ikey_ukey e.0) ≡ false
        → is_last last (ikey_ukey e.0) ≡ false
        → found u (stream snap hi (some (ikey_ukey e.0)) l)
          ≡ expected hi (some (ikey_ukey e.0)) u (newest snap u l)
        → found u (elim kind [
          | delete ↦ stream snap hi (some (ikey_ukey e.0)) l
          | put ↦ (ikey_ukey e.0, e.1) ∷ stream snap hi (some (ikey_ukey e.0)) l
        ])
          ≡ expected hi last u (
              if bytes_eq (ikey_ukey e.0) u
              then elim kind [ put ↦ some e.1 | delete ↦ none ]
              else newest snap u l)
    by_kind put h fresh rest = rw rest (after_seen snap hi last u e l (some e.1) p least h fresh)
    by_kind delete h fresh rest =
        rest
        ∙ ground (arith, cmp_bytes-eq (ikey_ukey e.0) u)
        ∙ after_seen snap hi last u e l none p least h fresh
