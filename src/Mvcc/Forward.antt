-- ===== src/Mvcc/Forward.antt =====
-- crates/fluent31/src/iter.rs: the forward stream yields the newest visible version of each key.
use mathlib.Core.Path.{subst}
use fluent.Prelude.{
  ℕ, zero, suc, ◌≤◌, ◌≡◌, refl, ap, ◌∙◌, sym, arith, ltb, Bool, true, false, if◌then◌else◌,
  Bool-cases, inl, inr, List, [], ◌∷◌, length, Option, none, some, All,
}
use fluent.Result.{ok, err}
use fluent.Types.{ValueKind, put, delete, ikey_ukey, ikey_seqno, ikey_kind}
use fluent.Iter.{Entry, InternalIterator}
use fluent.Iter.Walk.{Walk}
use fluent.Mvcc.{MvccForward, past, is_last, forward_loop, next_visible}

-- An entry whose key has a kind.
abbrev pub HasKind : Entry → Type 0
HasKind e = (kind : ValueKind) × (ikey_kind e.0 ≡ ok kind)

-- The pairs that come from the entries ahead, after the key that was seen last.
unfoldable pub stream : ℕ → Option (List ℕ) → Option (List ℕ) → List Entry → List Entry
stream snap hi last [] = []
stream snap hi last (e ∷ l) =
    let uk = ikey_ukey e.0 in
    let same = stream snap hi last l in
    let seen = stream snap hi (some uk) l in
    if past hi uk
    then []
    else if is_last last uk
    then same
    else if ltb snap (ikey_seqno e.0)
    then same
    else elim (ikey_kind e.0) [
      | ok kind ↦ elim kind [ delete ↦ seen | put ↦ (uk, e.1) ∷ seen ]
      | err _ ↦ []
    ]

abbrev pub first {ℓ} : {A : Type ℓ} → List A → Option A
first [] = none
first (x ∷ xs) = some x

abbrev pub others {ℓ} : {A : Type ℓ} → List A → List A
others [] = []
others (x ∷ xs) = xs

module _ (I : InternalIterator) (w : Walk I false) where
  -- The stream is still to yield these pairs, from at most so many entries.
  pub record Streams (n : ℕ) (f : MvccForward I) (out : List Entry) : Type 0 where
    pub left : List Entry
    pub ahead : w.Ahead f.it left
    pub kinds : All HasKind left
    pub bounded : length left ≤ n
    pub yields : out ≡ (if f.done then [] else stream f.snap f.hi f.last_ukey left)

  module _ (fuel : ℕ) (f : MvccForward I) (e : Entry) (l : List Entry)
      (a : w.Ahead f.it (e ∷ l)) where
    loop_past :
        past f.hi (ikey_ukey e.0) ≡ true
        → forward_loop I (suc fuel) f ≡ ok (none, record f { done = true })
    unfolding forward_loop
    loop_past p = let (v, key, _) = w.here f.it e l a in rw (v, key, p) refl

    module _ (p : past f.hi (ikey_ukey e.0) ≡ false) (it' : I.State)
        (moved : I.next f.it ≡ ok it') where
      loop_same :
          is_last f.last_ukey (ikey_ukey e.0) ≡ true
          → forward_loop I (suc fuel) f ≡ forward_loop I fuel (record f { it = it' })
      unfolding forward_loop
      loop_same s = let (v, key, _) = w.here f.it e l a in rw (v, key, p, s, moved) refl

      loop_newer :
          is_last f.last_ukey (ikey_ukey e.0) ≡ false
          → ltb f.snap (ikey_seqno e.0) ≡ true
          → forward_loop I (suc fuel) f ≡ forward_loop I fuel (record f { it = it' })
      unfolding forward_loop
      loop_newer s n = let (v, key, _) = w.here f.it e l a in rw (v, key, p, s, n, moved) refl

      loop_delete :
          is_last f.last_ukey (ikey_ukey e.0) ≡ false
          → ltb f.snap (ikey_seqno e.0) ≡ false
          → ikey_kind e.0 ≡ ok delete
          → forward_loop I (suc fuel) f
            ≡ forward_loop I fuel (record f { last_ukey = some (ikey_ukey e.0); it = it' })
      unfolding forward_loop
      loop_delete s n k =
          let (v, key, _) = w.here f.it e l a in
          rw (v, key, p, s, n, k, moved)
            (ap
              (λ (u : List ℕ).
                forward_loop I fuel (record f { last_ukey = some (ikey_ukey u); it = it' }))
              key)

      loop_put :
          is_last f.last_ukey (ikey_ukey e.0) ≡ false
          → ltb f.snap (ikey_seqno e.0) ≡ false
          → ikey_kind e.0 ≡ ok put
          → forward_loop I (suc fuel) f
            ≡ ok
                (some (ikey_ukey e.0, e.1), record f { last_ukey = some (ikey_ukey e.0); it = it' })
      unfolding forward_loop
      loop_put s n k =
          let (v, key, val) = w.here f.it e l a in
          let seen = λ (u : List ℕ). record f { last_ukey = some (ikey_ukey u); it = it' } in
          rw (v, key, p, s, n, k, moved)
            (ap (λ (u : List ℕ). ok (some (ikey_ukey u, I.value f.it), seen u)) key
              ∙ ap (λ (x : List ℕ). ok (some (ikey_ukey e.0, x), seen e.0)) val)

  weaken : (n : ℕ) (f : MvccForward I) (out : List Entry) → Streams n f out → Streams (suc n) f out
  weaken n f out s = record {
    left = s.left;
    ahead = s.ahead;
    kinds = s.kinds;
    bounded = omega (arith, s.bounded);
    yields = s.yields;
  }

  abbrev Step : ℕ → MvccForward I → List Entry → Type 0
  Step n f out =
      (f' : MvccForward I) × (forward_loop I (suc n) f ≡ ok (first out, f'))
      × Streams n f' (others out)

  go_on :
      (n : ℕ) (f g : MvccForward I) (out : List Entry)
      → forward_loop I (suc (suc n)) f ≡ forward_loop I (suc n) g
      → Step n g out
      → Step (suc n) f out
  go_on n f g out e (f', r, s) = (f', e ∙ r, weaken n f' (others out) s)

  forward-Step :
      (n : ℕ) (f : MvccForward I) (l : List Entry)
      → w.Ahead f.it l
      → All HasKind l
      → length l ≤ n
      → f.done ≡ false
      → Step n f (stream f.snap f.hi f.last_ukey l)
  unfolding stream
  forward-Step n f [] a k h fresh = (
    record f { done = true },
    unfold forward_loop in rw (w.ended f.it a) refl,
    record { left = []; ahead = a; kinds = tt; bounded = h; yields = refl },
  )
  forward-Step zero f (e ∷ l) a k h fresh = absurd (omega arith)
  forward-Step (suc n) f (e ∷ l) a ((kind, known), k) h fresh =
      let (it', moved, a') = w.step f.it e l a in
      elim (Bool-cases (past f.hi (ikey_ukey e.0))) [
        | inl p ↦ rw p (
          record f { done = true },
          loop_past (suc n) f e l a p,
          record {
            left = e ∷ l;
            ahead = a;
            kinds = ((kind, known), k);
            bounded = h;
            yields = refl;
          },
        )
        | inr p ↦ elim (Bool-cases (is_last f.last_ukey (ikey_ukey e.0))) [
          | inl s ↦
              rw (p, s)
                (go_on n f (record f { it = it' }) _ (loop_same (suc n) f e l a p it' moved s)
                  (forward-Step n (record f { it = it' }) l a' k (omega arith) fresh))
          | inr s ↦ elim (Bool-cases (ltb f.snap (ikey_seqno e.0))) [
            | inl m ↦
                rw (p, s, m)
                  (go_on n f (record f { it = it' }) _ (loop_newer (suc n) f e l a p it' moved s m)
                    (forward-Step n (record f { it = it' }) l a' k (omega arith) fresh))
            | inr m ↦
                rw (p, s, m, known)
                  (by_kind it' moved a' (forward-Step n (seen it') l a' k (omega arith) fresh) kind
                    known p s m)
          ]
        ]
      ]
    where
      seen : I.State → MvccForward I
      seen it' = record f { last_ukey = some (ikey_ukey e.0); it = it' }

      by_kind :
          (it' : I.State)
          → I.next f.it ≡ ok it'
          → w.Ahead it' l
          → Step n (seen it') (stream f.snap f.hi (some (ikey_ukey e.0)) l)
          → (kind : ValueKind) → ikey_kind e.0 ≡ ok kind
          → past f.hi (ikey_ukey e.0) ≡ false
          → is_last f.last_ukey (ikey_ukey e.0) ≡ false
          → ltb f.snap (ikey_seqno e.0) ≡ false
          → Step (suc n) f (elim kind [
            | delete ↦ stream f.snap f.hi (some (ikey_ukey e.0)) l
            | put ↦ (ikey_ukey e.0, e.1) ∷ stream f.snap f.hi (some (ikey_ukey e.0)) l
          ])
      by_kind it' moved a' later delete known p s m =
          go_on n f (seen it') _ (loop_delete (suc n) f e l a p it' moved s m known) later
      by_kind it' moved a' later put known p s m = (
        seen it',
        loop_put (suc n) f e l a p it' moved s m known,
        record { left = l; ahead = a'; kinds = k; bounded = omega arith; yields = rw fresh refl },
      )

  by_done :
      (n : ℕ) (f : MvccForward I) (b : Bool)
      → f.done ≡ b
      → next_visible I (suc n) f ≡ (if b then ok (none, f) else forward_loop I (suc n) f)
  unfolding next_visible
  by_done n f b h = ap (λ (d : Bool). if d then ok (none, f) else forward_loop I (suc n) f) h

  -- `next_visible` yields the first pair of the stream and leaves the others; at the end it yields
  -- none, again and again.
  pub next_visible_lem :
      (n : ℕ) (f : MvccForward I) (out : List Entry)
      → Streams n f out
      → (f' : MvccForward I) × (next_visible I (suc n) f ≡ ok (first out, f'))
        × Streams n f' (others out)
  next_visible_lem n f out s = elim (Bool-cases f.done) [
    | inl over ↦
        let nothing : out ≡ [] = s.yields ∙ rw over refl in
        subst (λ (o : List Entry). Next f o) (sym nothing)
          (f, by_done n f true over, subst (Streams n f) nothing s)
    | inr fresh ↦
        let (f', e, later) = forward-Step n f s.left s.ahead s.kinds s.bounded fresh in
        subst (λ (o : List Entry). Next f o) (sym (fresh_out fresh))
          (f', by_done n f false fresh ∙ e, later)
  ]
    where
      fresh_out : f.done ≡ false → out ≡ stream f.snap f.hi f.last_ukey s.left
      fresh_out fresh = s.yields ∙ rw fresh refl

      Next : MvccForward I → List Entry → Type 0
      Next f o =
          (f' : MvccForward I) × (next_visible I (suc n) f ≡ ok (first o, f'))
          × Streams n f' (others o)
